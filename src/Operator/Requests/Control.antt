-- ===== src/Operator/Requests/Control.antt =====
-- `Handle`: taking and keeping control, stopping, and driving by velocity.
use humanoid_common.Prelude.{
  ℕ, Bool, true, ◌&&◌, ◌||◌, not, Text, text, ◌==◌, if◌then◌else◌, pos, pos_part, int_between,
  int_eq, Option, none, some, Result, ok, ◌>>=◌,
}
use humanoid_common.Floats.{Float, clamp}
use humanoid_common.RobotBase.ControlMode
use humanoid_common.Operator.Libraries.{Json}
use humanoid_common.Operator.Data.{Policy, Config, Service}
use humanoid_common.Operator.Input.{online, active_policy, clear_input}
use humanoid_common.Operator.Views.{
  done, bad_request, not_owner, busy, not_ready, reply_to, velocity_content,
}
use humanoid_common.Operator.Requests.Access.{Outcome, refuse, grant}

module _ {F : Type 0} ⦃f : Float F⦄ where
  -- The end of a lease that starts now.
  abbrev pub lease_end : F → Config F → F
  lease_end now config = f.add now (f.div (f.of_nat config.lease_ms) (f.lit 1000 0))

  unfoldable pub stop : ℕ → Service F → Outcome F
  unfolding clear_input
  stop id s =
      grant id (text "velocity cleared; pending requests cancelled")
        (clear_input (text "stopped by authenticated client") s)

  unfoldable pub release : ℕ → ℕ → Service F → Outcome F
  unfolding clear_input
  release id k s =
      grant id (text "released")
        (if s.owner == k then clear_input (text "control released") s else s)

  unfoldable pub acquire : F → ℕ → ℕ → Service F → Outcome F
  unfolding online
  acquire now id k s =
      if not (online now s)
      then refuse id not_ready (text "waiting for fresh control status") s
      else if not (s.owner == 0) && not (s.owner == k)
      then refuse id busy (text "another client owns control") s
      else grant id (text "control acquired")
          (record s { owner = k; lease_until = lease_end now s.config })

  unfoldable pub renew : F → ℕ → ℕ → Service F → Outcome F
  renew now id k s =
      if not (s.owner == k)
      then refuse id not_owner (text "acquire control first") s
      else grant id (text "control renewed") (record s { lease_until = lease_end now s.config })

  -- A request for DAMP or POWER_OFF first takes back all input; the owner keeps control.
  unfoldable pub give_way : F → ℕ → Service F → Service F
  unfolding clear_input
  give_way now k s =
      let t = clear_input (text "safety state requested") s in
      if s.owner == k then record t { owner = k; lease_until = lease_end now s.config } else t

  -- The command with a velocity within the limits of the policy, stored as `float`.
  unfoldable pub drive : F → F → F → F → F → Policy F → Service F → Service F
  drive now vx vy wz seconds policy s = record s {
    command = record s.command {
      vx = f.narrow (clamp vx policy.minimum.vx policy.maximum.vx);
      vy = f.narrow (clamp vy policy.minimum.vy policy.maximum.vy);
      wz = f.narrow (clamp wz policy.minimum.wz policy.maximum.wz);
    };
    velocity_until = f.add now seconds;
  }

  abbrev pub healthy_rl : Service F → Bool
  healthy_rl s = not (
      s.config.trajectory_enabled || (not (int_eq s.status.mode ControlMode.rl) || s.fault.latched))

module _ {F J : Type 0} ⦃f : Float F⦄ ⦃j : Json F J⦄ where
  abbrev pub float_at : J → Text → Result F
  float_at args key = j.at args key >>= j.get_float

  -- The velocity for the active policy, if there is one.
  unfoldable pub velocity_for : Option (Policy F) → F → ℕ → J → Service F → Result (Outcome F)
  unfolding drive
  velocity_for none now id args s = ok (refuse id not_ready (text "active policy has no catalog") s)
  velocity_for (some policy) now id args s = float_at args (text "vx") >>= λ vx.
      float_at args (text "vy") >>= λ vy. float_at args (text "wz") >>= λ wz.
      j.int_or args (text "valid_for_ms") (pos 300) >>= λ ttl.
      if not (f.is_finite vx && (f.is_finite vy && f.is_finite wz)) || not (int_between 50 1000 ttl)
      then ok (refuse id bad_request (text "invalid velocity or validity period") s)
      else let seconds = f.div (f.of_nat (pos_part ttl)) (f.lit 1000 0) in
        let t = drive now vx vy wz seconds policy s in
        ok (
          t,
          reply_to id true done (text "velocity accepted")
              (velocity_content t.command.vx t.command.vy t.command.wz),
        )

  unfoldable pub velocity : F → ℕ → J → Service F → Result (Outcome F)
  unfolding active_policy velocity_for
  velocity now id args s =
      if not (healthy_rl s)
      then ok (refuse id not_ready (text "velocity is only available in healthy RL") s)
      else velocity_for (active_policy s) now id args s
