-- ===== src/Operator/Expiry.antt =====
-- src/operator_service/service/service.cpp, `Tick`: what has an end is ended.
use humanoid_common.Prelude.{
  ℕ, ◌≡◌, ◌⊎◌, inl, inr, refl, Bool, true, not, ◌||◌, ◌&&◌, Text, text, ◌==◌, int_eq, if_either,
  if_split, none, some, Option, arith,
}
use humanoid_common.Floats.{Float, nought}
use humanoid_common.RobotBase.ControlMode
use humanoid_common.RobotBase.Operation
use humanoid_common.Operator.Libraries.{Crypto}
use humanoid_common.Operator.Data.{Service, accepted, cancelled, expired, is_accepted}
use humanoid_common.Operator.Names.{supports_interaction}
use humanoid_common.Operator.Input.{online, finish, clear_input, velocity_of}
use humanoid_common.Operator.Tick.{
  settle, settle_if, settle_login, expire_lease, expire_velocity, expire_reference, expire_request,
  withdraw_action, tick,
}
use humanoid_common.Operator.Driving.Defs.{still, Moves, IsDriven}
use humanoid_common.Operator.Driving.Upkeep.{tick-IsDriven}

module _ {F : Type 0} ⦃f : Float F⦄ where
  -- The lease is over, or the robot is not heard of.
  abbrev pub has_lapsed : F → Service F → Bool
  has_lapsed now s = f.le s.lease_until now || not (online now s)

  -- Nobody has control, or a lease is over.
  pub record Lapses (now : F) (s : Service F) : Type 0 where
    pub lapses : (s.owner ≡ 0) ⊎ (has_lapsed now s ≡ true)

  pub record Free (s : Service F) : Type 0 where
    pub free : s.owner ≡ 0

  settle_if-Lapses :
      ⦃c : Crypto⦄ (now : F) (ready : Bool) (login : Option Text) (s : Service F)
      → Lapses now s
      → Lapses now (settle_if ready login s)
  unfolding settle online
  settle_if-Lapses now ready none s v = v
  settle_if-Lapses now ready (some password) s v =
      if_either (Lapses now) ready (record { lapses = v.lapses }) v

  expire_lease-Free : (now : F) (s : Service F) → Lapses now s → Free (expire_lease now s)
  unfolding expire_lease clear_input
  expire_lease-Free now s v =
      if_split Free (not (s.owner == 0) && has_lapsed now s) (λ _. record { free = refl })
        λ e. record { free = ground (arith, e, v.lapses) }

  expire_velocity-Free : (now : F) (s : Service F) → Free s → Free (expire_velocity now s)
  unfolding expire_velocity
  expire_velocity-Free now s v =
      if_either Free (f.le s.velocity_until now || not (int_eq s.status.mode ControlMode.rl))
        (record { free = v.free }) v

  expire_reference-Free : (now : F) (s : Service F) → Free s → Free (expire_reference now s)
  unfolding expire_reference
  expire_reference-Free now s v =
      if_either Free (f.lt nought s.reference_until && f.le s.reference_until now)
        (record { free = v.free }) v

  expire_request-Free : (now : F) (s : Service F) → Free s → Free (expire_request now s)
  unfolding expire_request finish
  expire_request-Free now s v =
      if_either Free (is_accepted s.result.phase && f.le s.request_until now)
        (record { free = v.free }) v

  withdraw_action-Free : (s : Service F) → Free s → Free (withdraw_action s)
  unfolding withdraw_action
  withdraw_action-Free s v =
      if_either Free
        (not (s.command.interaction.operation == Operation.unset)
          && (not (supports_interaction s.status.mode)
              || s.status.interaction.sequence == s.command.interaction.sequence))
        (record { free = v.free }) v

  tick-Free :
      ⦃c : Crypto⦄ (now : F) (ready : Bool) (s : Service F) → Lapses now s → Free (tick now ready s)
  unfolding tick settle_login
  tick-Free now ready s v = withdraw_action-Free _ (
      expire_request-Free now _ (
        expire_reference-Free now _ (
          expire_velocity-Free now _
            (expire_lease-Free now _ (settle_if-Lapses now ready s.login_result s v)))))

  unowned :
      (s : Service F)
      → s.owner ≡ 0
      → Moves s.config.policies s.status.mode s.status.active_policy s.owner (velocity_of s)
      → velocity_of s ≡ still
  unowned s z (inl e) = e
  unowned s z (inr (o, m, r)) = absurd (o z)

  -- A tick at which the lease is over, or no fresh status of the robot is there, leaves nobody in control and
  -- the velocity of the command at nought.
  pub lapsed_control_ends :
      ⦃c : Crypto⦄ (now : F) (ready : Bool) (s : Service F)
      → IsDriven s
      → has_lapsed now s ≡ true
      → ((tick now ready s).owner ≡ 0) × (velocity_of (tick now ready s) ≡ still)
  lapsed_control_ends now ready s v e =
      let free = tick-Free now ready s (record { lapses = inr e }) in
      (free.free, unowned (tick now ready s) free.free (tick-IsDriven now ready s v).moves)

  -- A request that waits, whose time is over, or that was cancelled.
  pub record Overdue (now : F) (n : ℕ) (s : Service F) : Type 0 where
    pub numbered : s.result.sequence ≡ n
    pub overdue :
        (s.result.phase ≡ cancelled)
        ⊎ ((s.result.phase ≡ accepted) × (f.le s.request_until now ≡ true))

  pub record Decided (n : ℕ) (s : Service F) : Type 0 where
    pub numbered : s.result.sequence ≡ n
    pub decided : (s.result.phase ≡ cancelled) ⊎ (s.result.phase ≡ expired)

  settle_if-Overdue :
      ⦃c : Crypto⦄ (now : F) (n : ℕ) (ready : Bool) (login : Option Text) (s : Service F)
      → Overdue now n s
      → Overdue now n (settle_if ready login s)
  unfolding settle
  settle_if-Overdue now n ready none s v = v
  settle_if-Overdue now n ready (some password) s v =
      if_either (Overdue now n) ready (record { numbered = v.numbered; overdue = v.overdue }) v

  clear_input-Overdue :
      (now : F) (n : ℕ) (m : Text) (s : Service F)
      → Overdue now n s
      → ((clear_input m s).result.sequence ≡ n) × ((clear_input m s).result.phase ≡ cancelled)
  unfolding clear_input finish
  clear_input-Overdue now n m s v =
      if_split (λ (t : Service F). (t.result.sequence ≡ n) × (t.result.phase ≡ cancelled))
        (is_accepted s.result.phase) (λ _. (v.numbered, refl))
        λ e. (v.numbered, ground (arith, e, v.overdue))

  expire_lease-Overdue :
      (now : F) (n : ℕ) (s : Service F) → Overdue now n s → Overdue now n (expire_lease now s)
  unfolding expire_lease
  expire_lease-Overdue now n s v =
      let (a, b) = clear_input-Overdue now n (text "control lease or feedback expired") s v in
      if_either (Overdue now n) (not (s.owner == 0) && has_lapsed now s)
        (record { numbered = a; overdue = inl b }) v

  expire_velocity-Overdue :
      (now : F) (n : ℕ) (s : Service F) → Overdue now n s → Overdue now n (expire_velocity now s)
  unfolding expire_velocity
  expire_velocity-Overdue now n s v =
      if_either (Overdue now n)
        (f.le s.velocity_until now || not (int_eq s.status.mode ControlMode.rl))
        (record { numbered = v.numbered; overdue = v.overdue }) v

  expire_reference-Overdue :
      (now : F) (n : ℕ) (s : Service F) → Overdue now n s → Overdue now n (expire_reference now s)
  unfolding expire_reference
  expire_reference-Overdue now n s v =
      if_either (Overdue now n) (f.lt nought s.reference_until && f.le s.reference_until now)
        (record { numbered = v.numbered; overdue = v.overdue }) v

  expire_request-Decided :
      (now : F) (n : ℕ) (s : Service F) → Overdue now n s → Decided n (expire_request now s)
  unfolding expire_request finish
  expire_request-Decided now n s v =
      if_split (Decided n) (is_accepted s.result.phase && f.le s.request_until now)
        (λ _. record { numbered = v.numbered; decided = inr refl })
        λ e. record { numbered = v.numbered; decided = ground (arith, e, v.overdue) }

  withdraw_action-Decided : (n : ℕ) (s : Service F) → Decided n s → Decided n (withdraw_action s)
  unfolding withdraw_action
  withdraw_action-Decided n s v =
      if_either (Decided n)
        (not (s.command.interaction.operation == Operation.unset)
          && (not (supports_interaction s.status.mode)
              || s.status.interaction.sequence == s.command.interaction.sequence))
        (record { numbered = v.numbered; decided = v.decided }) v

  -- No request waits for ever: at the first tick after its time limit it is expired, or cancelled with the
  -- lease, under its own number.
  pub tick-Decided :
      ⦃c : Crypto⦄ (now : F) (ready : Bool) (s : Service F)
      → s.result.phase ≡ accepted
      → f.le s.request_until now ≡ true
      → Decided s.result.sequence (tick now ready s)
  unfolding tick settle_login
  tick-Decided now ready s p e =
      let n = s.result.sequence in
      withdraw_action-Decided n _ (
        expire_request-Decided now n _ (
          expire_reference-Overdue now n _ (
            expire_velocity-Overdue now n _ (
              expire_lease-Overdue now n _ (
                settle_if-Overdue now n ready s.login_result s
                  (record { numbered = refl; overdue = inr (p, e) }))))))
