-- ===== src/Operator/Driving/Upkeep.antt =====
-- What the clock, the robot's status and the end of a session do to the commanded velocity.
use humanoid_common.Prelude.{
  ℕ, ◌≡◌, inl, inr, refl, Bool, not, ◌||◌, ◌&&◌, Text, text, text_eq, text_eq_iff, int_eq,
  int_eq_iff, All, if_either, if_split, Bool-cases, leb, length, none, some, Option, arith, ◌==◌,
}
use humanoid_common.Floats.{Float, nought}
use humanoid_common.RobotBase.{ControlStatus, FaultStatus}
use humanoid_common.RobotBase.ControlMode
use humanoid_common.RobotBase.Operation
use humanoid_common.Operator.Names.{supports_interaction}
use humanoid_common.Operator.Libraries.{Crypto}
use humanoid_common.Operator.Data.{Config, ResultPhase, Service, fresh, is_accepted}
use humanoid_common.Operator.Sessions.{erase_session, open_session}
use humanoid_common.Operator.Input.{velocity_of, finish, clear_input, disconnect}
use humanoid_common.Operator.Tick.{
  settle, settle_if, settle_login, expire_velocity, expire_reference, withdraw_action, tick,
}
use humanoid_common.Operator.Feedback.{take_status, confirm_action, update_status}
use humanoid_common.Operator.Upkeep.{Upkeep, tick-Keeps, update_status-Keeps}
use humanoid_common.Operator.Driving.Defs.{HasLimits, Moves, IsDriven}

module _ {F : Type 0} ⦃f : Float F⦄ where
  pub fresh-IsDriven : (config : Config F) → All HasLimits config.policies → IsDriven (fresh config)
  fresh-IsDriven config l = record { limits = l; moves = inl refl }

  pub finish-IsDriven :
      (phase : ResultPhase) (m : Text) (s : Service F) → IsDriven s → IsDriven (finish phase m s)
  unfolding finish
  finish-IsDriven phase m s v = record { limits = v.limits; moves = v.moves }

  pub clear_input-IsDriven : (m : Text) (s : Service F) → IsDriven s → IsDriven (clear_input m s)
  unfolding clear_input finish
  clear_input-IsDriven m s v = record {
    limits =
        if_either (λ (t : Service F). All HasLimits t.config.policies) (is_accepted s.result.phase)
          v.limits v.limits;
    moves = inl refl;
  }

  pub open_session-IsDriven : (s : Service F) → IsDriven s → IsDriven (open_session s).0
  unfolding open_session
  open_session-IsDriven s v = elim (Bool-cases (leb 32 (length s.sessions))) [
    | inl e ↦ rw e v
    | inr e ↦ rw e (record { limits = v.limits; moves = v.moves })
  ]

  forget :
      (k login : ℕ) (s : Service F)
      → IsDriven s
      → IsDriven (record s { login_session = login; sessions = erase_session k s.sessions })
  forget k login s v = record { limits = v.limits; moves = v.moves }

  pub disconnect-IsDriven : (k : ℕ) (s : Service F) → IsDriven s → IsDriven (disconnect k s)
  unfolding disconnect
  disconnect-IsDriven k s v =
      let c = clear_input-IsDriven (text "operator disconnected") s v in
      forget k _ _ (if_either IsDriven (s.owner == k) c v)

  settle_if-IsDriven :
      ⦃c : Crypto⦄ (ready : Bool) (login : Option Text) (s : Service F)
      → IsDriven s
      → IsDriven (settle_if ready login s)
  unfolding settle
  settle_if-IsDriven ready none s v = v
  settle_if-IsDriven ready (some password) s v =
      if_either IsDriven ready (record { limits = v.limits; moves = v.moves }) v

  expire_velocity-IsDriven :
      (now : F) (s : Service F) → IsDriven s → IsDriven (expire_velocity now s)
  unfolding expire_velocity
  expire_velocity-IsDriven now s v =
      if_either IsDriven (f.le s.velocity_until now || not (int_eq s.status.mode ControlMode.rl))
        (record { limits = v.limits; moves = inl refl }) v

  expire_reference-IsDriven :
      (now : F) (s : Service F) → IsDriven s → IsDriven (expire_reference now s)
  unfolding expire_reference
  expire_reference-IsDriven now s v =
      if_either IsDriven (f.lt nought s.reference_until && f.le s.reference_until now)
        (record { limits = v.limits; moves = v.moves }) v

  withdraw_action-IsDriven : (s : Service F) → IsDriven s → IsDriven (withdraw_action s)
  unfolding withdraw_action
  withdraw_action-IsDriven s v =
      if_either IsDriven
        (not (s.command.interaction.operation == Operation.unset)
          && (not (supports_interaction s.status.mode)
              || s.status.interaction.sequence == s.command.interaction.sequence))
        (record { limits = v.limits; moves = v.moves }) v

  confirm_action-IsDriven : (s : Service F) → IsDriven s → IsDriven (confirm_action s)
  unfolding confirm_action finish
  confirm_action-IsDriven s v =
      if_either IsDriven (s.command.interaction.sequence == s.status.interaction.sequence)
        (record { limits = v.limits; moves = v.moves }) v

  still_drives :
      (now : F) (status : ControlStatus F) (fault : FaultStatus F) (s : Service F)
      → status.mode ≡ s.status.mode
      → status.active_policy ≡ s.status.active_policy
      → IsDriven s
      → Moves s.config.policies status.mode status.active_policy s.owner (velocity_of s)
  still_drives now status fault s m a v = rw (m, a) v.moves

  -- A change of the mode or of the active policy stops the robot, and where neither changes the limits are
  -- those of before.
  take_status-IsDriven :
      (now : F) (status : ControlStatus F) (fault : FaultStatus F) (s : Service F)
      → IsDriven s
      → IsDriven (take_status now status fault s)
  unfolding take_status
  take_status-IsDriven now status fault s v =
      if_split IsDriven
        (not (int_eq status.mode s.status.mode)
          || not (text_eq status.active_policy s.status.active_policy))
        (λ _. record { limits = v.limits; moves = inl refl })
        λ e.
          let m : status.mode ≡ s.status.mode =
            ground (arith, e, int_eq_iff status.mode s.status.mode) in
          let a : status.active_policy ≡ s.status.active_policy =
            ground (arith, e, text_eq_iff status.active_policy s.status.active_policy) in
          record { limits = v.limits; moves = still_drives now status fault s m a v }

  driven : Upkeep {F = F} IsDriven
  driven = record {
    finish = finish-IsDriven;
    clear_input = clear_input-IsDriven;
    expire_velocity = expire_velocity-IsDriven;
    expire_reference = expire_reference-IsDriven;
    withdraw_action = withdraw_action-IsDriven;
    confirm_action = confirm_action-IsDriven;
    take_status = take_status-IsDriven;
  }

  pub tick-IsDriven :
      ⦃c : Crypto⦄ (now : F) (ready : Bool) (s : Service F)
      → IsDriven s
      → IsDriven (tick now ready s)
  unfolding settle_login
  tick-IsDriven now ready s v =
      tick-Keeps driven now ready s (settle_if-IsDriven ready s.login_result s v)

  pub update_status-IsDriven :
      (now : F) (status : ControlStatus F) (fault : FaultStatus F) (s : Service F)
      → IsDriven s
      → IsDriven (update_status now status fault s)
  update_status-IsDriven now status fault s v = update_status-Keeps driven now status fault s v
