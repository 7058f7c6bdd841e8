-- ===== src/Operator/Stopping.antt =====
-- src/operator_service/service/service.cpp, `Handle`: cutting the power is always possible.
use humanoid_common.Prelude.{
  ℕ, ◌≡◌, refl, Bool, true, false, not, ◌&&◌, [], Text, text, codes, text_eq, negsuc, if_either,
  if_split, Bool-cases, some, Result, ok, err, ◌==◌, arith, inl, inr,
}
use humanoid_common.Floats.{Float}
use humanoid_common.Operator.Libraries.{Json}
use humanoid_common.Operator.Data.{Op, Service, accepted, is_accepted}
use humanoid_common.Operator.Names.{state_name}
use humanoid_common.Operator.Input.{online, finish, clear_input, velocity_of}
use humanoid_common.Operator.Feedback.{is_ack}
use humanoid_common.Operator.Requests.Access.{Outcome}
use humanoid_common.Operator.Requests.Control.{give_way}
use humanoid_common.Operator.Requests.Actions.{key_for, ask_state, prepare, submit}
use humanoid_common.Operator.Requests.Handle.{
  finish_step, request_confirmed, as_owner, command_request, as_admin, is_safety_request,
  is_power_off_request,
}
use humanoid_common.Operator.Driving.Defs.{still}

blocked : (b : Bool) → b && false ≡ true → ⊥
blocked b h = ground arith

abbrev power_off : Text
power_off = codes "POWER_OFF"

module _ {F : Type 0} ⦃f : Float F⦄ where
  -- The command cuts the power, the velocity is nought, and the request waits for the robot.
  pub record IsCut (o : Outcome F) : Type 0 where
    pub key : o.0.command.key ≡ negsuc 0
    pub still_now : velocity_of o.0 ≡ still
    pub waits : o.0.result.phase ≡ accepted
    pub done : o.1.ok ≡ true

  abbrev pub Cuts : Result (Outcome F) → Type 0
  Cuts (ok o) = IsCut o
  Cuts err = ⊥

  -- After the input has been taken back, no request waits.
  record Ready (s : Service F) : Type 0 where
    idle : is_accepted s.result.phase ≡ false
    stopped : velocity_of s ≡ still

  clear_input-Ready : (m : Text) (s : Service F) → Ready (clear_input m s)
  unfolding clear_input finish
  clear_input-Ready m s = record {
    idle =
        if_split (λ (t : Service F). is_accepted t.result.phase ≡ false)
          (is_accepted s.result.phase) (λ _. refl) λ e. e;
    stopped = refl;
  }

  give_way-Ready : (now : F) (k : ℕ) (s : Service F) → Ready (give_way now k s)
  unfolding give_way
  give_way-Ready now k s =
      let c = clear_input-Ready (text "safety state requested") s in
      if_either Ready (s.owner == k) (record { idle = c.idle; stopped = c.stopped }) c

  key_for-power_off : (s : Service F) → key_for power_off s ≡ negsuc 0
  unfolding key_for text_eq
  key_for-power_off s = elim (Bool-cases s.config.trajectory_enabled) [
    | inl e ↦ rw e refl
    | inr e ↦ rw e refl
  ]

  ask-power_off :
      (now : F) (id : ℕ) (s : Service F)
      → Ready s
      → IsCut (finish_step now id Op.state (ask_state id power_off s))
  unfolding ask_state submit text_eq
  ask-power_off now id s r = elim (Bool-cases (text_eq power_off (state_name s.status.mode))) [
    | inl e ↦
        rw (e, key_for-power_off s)
          (record { key = refl; still_now = r.stopped; waits = refl; done = refl })
    | inr e ↦
        rw (e, key_for-power_off s)
          (record { key = refl; still_now = r.stopped; waits = refl; done = refl })
  ]

module _ {F J : Type 0} ⦃f : Float F⦄ ⦃j : Json F J⦄ where
  confirm-power_off :
      (now : F) (id : ℕ) (args : J) (s : Service F)
      → Ready s
      → Cuts (request_confirmed now id Op.state power_off args s)
  unfolding request_confirmed prepare text_eq
  confirm-power_off now id args s r = rw r.idle (
      if_split Cuts
        (s.fault.latched
          && (not (is_safety_request Op.state power_off) && not (is_ack (some Op.state))))
        (λ h. absurd (blocked s.fault.latched h)) λ _. ask-power_off now id s r)

  -- Any administrator may cut the power at any time: whoever has control, with or without feedback, whatever
  -- request waits and whatever fault is latched, the request for POWER_OFF is accepted, the command's key is
  -- that of POWER_OFF and its velocity is nought.
  pub power_off_is_accepted :
      (now : F) (id k : ℕ) (args : J) (s : Service F)
      → j.text_or args (text "state") [] ≡ ok power_off
      → Cuts (as_admin now id k Op.state args s)
  unfolding as_admin command_request as_owner text_eq
  power_off_is_accepted now id k args s e = rw e (
      if_split Cuts (not (online now s) && not (is_power_off_request Op.state power_off))
        (λ h. absurd (blocked (not (online now s)) h))
        λ _.
          if_split Cuts (not (s.owner == k) && not (is_safety_request Op.state power_off))
            (λ h. absurd (blocked (not (s.owner == k)) h))
            λ _. confirm-power_off now id args (give_way now k s) (give_way-Ready now k s))
