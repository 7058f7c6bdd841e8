-- ===== src/Operator/Ownership/Keeps.antt =====
-- An administrator's request leaves the table of sessions alone, and gives control to nobody else.
use humanoid_common.Prelude.{
  ℕ, ◌≡◌, ◌⊎◌, inl, inr, refl, Bool, not, ◌||◌, ◌&&◌, Text, text, codes, text_eq, if_either, pos,
  int_between, int_eq, none, some, Option, ◌==◌, ◌∙◌,
}
use humanoid_common.Floats.{Float}
use humanoid_common.RobotBase.ControlMode
use humanoid_common.Operator.Libraries.{Json}
use humanoid_common.Operator.Data.{Policy, Op, Service, is_accepted}
use humanoid_common.Operator.Names.{state_name, busy}
use humanoid_common.Operator.Input.{finish, clear_input, active_policy, online}
use humanoid_common.Operator.Effects.{Ends, Goes, Ends-bind}
use humanoid_common.Operator.Requests.Access.{Outcome}
use humanoid_common.Operator.Requests.Control.{
  stop, release, acquire, renew, give_way, drive, velocity_for, velocity, healthy_rl, float_at,
}
use humanoid_common.Operator.Requests.Actions.{
  key_for, is_hot, offers, current_actions, is_manual, ask_state, ask_listed, ask_action,
  ask_reference, ask_ack, submit,
}
use humanoid_common.Operator.Requests.Handle.{as_admin}
use humanoid_common.Operator.Stability.{Leaves, as_admin-Ends}

module _ {F : Type 0} where
  -- `t` comes of `s` by requests of client `k`.
  pub record Keeps (k : ℕ) (s t : Service F) : Type 0 where
    pub sessions : t.sessions ≡ s.sessions
    pub login : t.login_session ≡ s.login_session
    pub owner : (t.owner ≡ s.owner) ⊎ ((t.owner ≡ 0) ⊎ (t.owner ≡ k))

module _ {F : Type 0} ⦃f : Float F⦄ where
  pub sessions-clear_input :
      (m : Text) (s : Service F)
      → ((clear_input m s).sessions ≡ s.sessions)
        × ((clear_input m s).login_session ≡ s.login_session)
  unfolding clear_input finish
  sessions-clear_input m s =
      if_either (λ (t : Service F). (t.sessions ≡ s.sessions) × (t.login_session ≡ s.login_session))
        (is_accepted s.result.phase) (refl, refl) (refl, refl)

  pub clear_input-owner : (m : Text) (s : Service F) → (clear_input m s).owner ≡ 0
  unfolding clear_input
  clear_input-owner m s = refl

  module _ (k : ℕ) (s0 : Service F) where
    pub stop-Keeps : (m : Text) (s : Service F) → Keeps k s0 s → Keeps k s0 (clear_input m s)
    stop-Keeps m s v =
        let (a, b) = sessions-clear_input m s in
        record {
          sessions = a ∙ v.sessions;
          login = b ∙ v.login;
          owner = inr (inl (clear_input-owner m s));
        }

    owned :
        (t : F) (s : Service F)
        → Keeps k s0 s
        → Keeps k s0 (record s { owner = k; lease_until = t })
    owned t s v = record { sessions = v.sessions; login = v.login; owner = inr (inr refl) }

    give_way-Keeps : (now : F) (s : Service F) → Keeps k s0 s → Keeps k s0 (give_way now k s)
    unfolding give_way
    give_way-Keeps now s v =
        let c = stop-Keeps (text "safety state requested") s v in
        if_either (Keeps k s0) (s.owner == k) (owned _ _ c) c

    acquire-Keeps :
        (now : F) (id : ℕ) (s : Service F) → Keeps k s0 s → Keeps k s0 (acquire now id k s).0
    unfolding acquire
    acquire-Keeps now id s v =
        let P = λ (o : Outcome F). Keeps k s0 o.0 in
        if_either P (not (online now s)) v
          (if_either P (not (s.owner == 0) && not (s.owner == k)) v (owned _ s v))

    renew-Keeps :
        (now : F) (id : ℕ) (s : Service F) → Keeps k s0 s → Keeps k s0 (renew now id k s).0
    unfolding renew
    renew-Keeps now id s v =
        if_either (λ (o : Outcome F). Keeps k s0 o.0) (not (s.owner == k)) v
          (record { sessions = v.sessions; login = v.login; owner = v.owner })

    release-Keeps : (id : ℕ) (s : Service F) → Keeps k s0 s → Keeps k s0 (release id k s).0
    unfolding release
    release-Keeps id s v = if_either (Keeps k s0) (s.owner == k) (stop-Keeps _ s v) v

    ask_state-Keeps :
        (id : ℕ) (target : Text) (s : Service F)
        → Keeps k s0 s
        → Goes (Keeps k s0) (ask_state id target s)
    unfolding ask_state
    ask_state-Keeps id target s v =
        if_either (Goes (Keeps k s0))
          (text_eq target (state_name s.status.mode) && not (text_eq target (codes "POWER_OFF"))) v
          (if_either (Goes (Keeps k s0)) (int_eq (key_for target s) (pos 0)) v
            (record { sessions = v.sessions; login = v.login; owner = v.owner }))

    ask_listed-Keeps :
        (o : Option (Policy F)) (id : ℕ) (name : Text) (s : Service F)
        → Keeps k s0 s
        → Goes (Keeps k s0) (ask_listed o id name s)
    unfolding ask_listed
    ask_listed-Keeps none id name s v = v
    ask_listed-Keeps (some p) id name s v =
        if_either (Goes (Keeps k s0))
          (not (int_eq s.status.mode ControlMode.power_off)
            && (not (int_eq s.status.mode ControlMode.damp) && not (is_hot p s)))
          v (record { sessions = v.sessions; login = v.login; owner = v.owner })

    ask_action-Keeps :
        (starts : Bool) (id : ℕ) (action : Text) (s : Service F)
        → Keeps k s0 s
        → Goes (Keeps k s0) (ask_action starts id action s)
    unfolding ask_action
    ask_action-Keeps starts id action s v =
        if_either (Goes (Keeps k s0))
          (starts && (busy s.status.interaction.phase || not (offers action (current_actions s)))) v
          (record { sessions = v.sessions; login = v.login; owner = v.owner })

    ask_reference-Keeps :
        (now : F) (id : ℕ) (s : Service F)
        → Keeps k s0 s
        → Goes (Keeps k s0) (ask_reference now id s)
    unfolding ask_reference
    ask_reference-Keeps now id s v =
        if_either (Goes (Keeps k s0))
          (s.config.trajectory_enabled
            || (not (int_eq s.status.mode ControlMode.rl) || not (is_manual (active_policy s))))
          v (record { sessions = v.sessions; login = v.login; owner = v.owner })

    ask_ack-Keeps : (id : ℕ) (s : Service F) → Keeps k s0 s → Goes (Keeps k s0) (ask_ack id s)
    unfolding ask_ack
    ask_ack-Keeps id s v =
        if_either (Goes (Keeps k s0))
          (not (int_eq s.status.mode ControlMode.power_off)
            || (not s.fault.latched || (s.fault.active || s.fault.sequence == 0)))
          v (record { sessions = v.sessions; login = v.login; owner = v.owner })

    submit-Keeps :
        (now : F) (id : ℕ) (op : Op) (s : Service F)
        → Keeps k s0 s
        → Keeps k s0 (submit now id op s).0
    unfolding submit
    submit-Keeps now id op s v = record { sessions = v.sessions; login = v.login; owner = v.owner }

module _ {F J : Type 0} ⦃f : Float F⦄ ⦃j : Json F J⦄ (k : ℕ) (s0 : Service F) where
  velocity_for-Keeps :
      (o : Option (Policy F)) (now : F) (id : ℕ) (args : J) (s : Service F)
      → Keeps k s0 s
      → Ends (Keeps k s0) (velocity_for o now id args s)
  unfolding velocity_for drive
  velocity_for-Keeps none now id args s v = v
  velocity_for-Keeps (some p) now id args s v =
      Ends-bind (Keeps k s0) (float_at args (text "vx")) _ λ vx.
        Ends-bind (Keeps k s0) (float_at args (text "vy")) _ λ vy.
          Ends-bind (Keeps k s0) (float_at args (text "wz")) _ λ wz.
            Ends-bind (Keeps k s0) (j.int_or args (text "valid_for_ms") (pos 300)) _ λ ttl.
              if_either (Ends (Keeps k s0))
                (not (f.is_finite vx && (f.is_finite vy && f.is_finite wz))
                  || not (int_between 50 1000 ttl))
                v (record { sessions = v.sessions; login = v.login; owner = v.owner })

  velocity-Keeps :
      (now : F) (id : ℕ) (args : J) (s : Service F)
      → Keeps k s0 s
      → Ends (Keeps k s0) (velocity now id args s)
  unfolding velocity
  velocity-Keeps now id args s v =
      if_either (Ends (Keeps k s0)) (not (healthy_rl s)) v
        (velocity_for-Keeps (active_policy s) now id args s v)

  keeping : Leaves {F = F} J k (Keeps k s0)
  unfolding stop
  keeping = record {
    stop = λ id s v. stop-Keeps k s0 _ s v;
    release = release-Keeps k s0;
    acquire = acquire-Keeps k s0;
    renew = renew-Keeps k s0;
    give_way = give_way-Keeps k s0;
    velocity = λ now id args s o v. velocity-Keeps now id args s v;
    ask_state = ask_state-Keeps k s0;
    ask_listed = ask_listed-Keeps k s0;
    ask_action = ask_action-Keeps k s0;
    ask_reference = ask_reference-Keeps k s0;
    ask_ack = ask_ack-Keeps k s0;
    submit = submit-Keeps k s0;
  }

  -- Whatever an administrator asks for.
  pub as_admin-Keeps :
      (now : F) (id : ℕ) (op : Op) (args : J) → Ends (Keeps k s0) (as_admin now id k op args s0)
  as_admin-Keeps now id op args =
      as_admin-Ends keeping now id op args s0
        (record { sessions = refl; login = refl; owner = inl refl })
