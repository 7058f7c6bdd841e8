-- ===== src/Operator/Ownership/Sequences.antt =====
-- Control belongs to an administrator, through any sequence of calls.
use humanoid_common.Prelude.{
  ℕ, ◌≡◌, ◌⊎◌, inl, inr, refl, Bool, true, false, not, ◌||◌, ◌&&◌, List, [], ◌∷◌, Text, text,
  text_eq, ◌==◌, leb, length, int_eq, if◌then◌else◌, if_either, Bool-cases, none, some, Option,
  Result, ok, err, arith,
}
use humanoid_common.Floats.{Float, nought}
use humanoid_common.RobotBase.{ControlStatus, FaultStatus}
use humanoid_common.RobotBase.ControlMode
use humanoid_common.RobotBase.Operation
use humanoid_common.Operator.Libraries.{Json, Crypto, QrCode}
use humanoid_common.Operator.Data.{Config, ResultPhase, Session, Service, fresh, new_session}
use humanoid_common.Operator.Names.{supports_interaction}
use humanoid_common.Operator.Sessions.{
  find_session, erase_session, emplace_session, find-erase_session, find-emplace_session,
  found-set_session, open_session,
}
use humanoid_common.Operator.Input.{finish, disconnect}
use humanoid_common.Operator.Tick.{
  admit, answer, settle, settle_if, settle_login, expire_velocity, expire_reference,
  withdraw_action, tick,
}
use humanoid_common.Operator.Feedback.{take_status, confirm_action, update_status}
use humanoid_common.Operator.Effects.{Ends}
use humanoid_common.Operator.Requests.Access.{Outcome, put_session}
use humanoid_common.Operator.Requests.Handle.{
  is_replayed, or_invalid, admit_from, admit_request, with_id, handle,
}
use humanoid_common.Operator.Upkeep.{Upkeep, tick-Keeps, update_status-Keeps}
use humanoid_common.Operator.Events.{
  Event, opened, disconnected, requested, ticked, reported, command_taken, apply_event, run_events,
}
use humanoid_common.Operator.Ownership.Keeps.{
  Keeps, stop-Keeps, sessions-clear_input, clear_input-owner,
}
use humanoid_common.Operator.Ownership.Changes.{Change, operate-Change}
use humanoid_common.Operator.Ownership.Tables.{
  Known, Known-other, Known-apart, Known-set, moved, IsOwned, Change-IsOwned,
}

module _ {F : Type 0} ⦃f : Float F⦄ where
  module _ (s0 : Service F) where
    finish-Keeps :
        (phase : ResultPhase) (m : Text) (s : Service F)
        → Keeps 0 s0 s
        → Keeps 0 s0 (finish phase m s)
    unfolding finish
    finish-Keeps phase m s v = record { sessions = v.sessions; login = v.login; owner = v.owner }

    expire_velocity-Keeps :
        (now : F) (s : Service F) → Keeps 0 s0 s → Keeps 0 s0 (expire_velocity now s)
    unfolding expire_velocity
    expire_velocity-Keeps now s v =
        if_either (Keeps 0 s0)
          (f.le s.velocity_until now || not (int_eq s.status.mode ControlMode.rl))
          (record { sessions = v.sessions; login = v.login; owner = v.owner }) v

    expire_reference-Keeps :
        (now : F) (s : Service F) → Keeps 0 s0 s → Keeps 0 s0 (expire_reference now s)
    unfolding expire_reference
    expire_reference-Keeps now s v =
        if_either (Keeps 0 s0) (f.lt nought s.reference_until && f.le s.reference_until now)
          (record { sessions = v.sessions; login = v.login; owner = v.owner }) v

    withdraw_action-Keeps : (s : Service F) → Keeps 0 s0 s → Keeps 0 s0 (withdraw_action s)
    unfolding withdraw_action
    withdraw_action-Keeps s v =
        if_either (Keeps 0 s0)
          (not (s.command.interaction.operation == Operation.unset)
            && (not (supports_interaction s.status.mode)
                || s.status.interaction.sequence == s.command.interaction.sequence))
          (record { sessions = v.sessions; login = v.login; owner = v.owner }) v

    confirm_action-Keeps : (s : Service F) → Keeps 0 s0 s → Keeps 0 s0 (confirm_action s)
    unfolding confirm_action finish
    confirm_action-Keeps s v =
        if_either (Keeps 0 s0) (s.command.interaction.sequence == s.status.interaction.sequence)
          (record { sessions = v.sessions; login = v.login; owner = v.owner }) v

    take_status-Keeps :
        (now : F) (status : ControlStatus F) (fault : FaultStatus F) (s : Service F)
        → Keeps 0 s0 s
        → Keeps 0 s0 (take_status now status fault s)
    unfolding take_status
    take_status-Keeps now status fault s v =
        if_either (Keeps 0 s0)
          (not (int_eq status.mode s.status.mode)
            || not (text_eq status.active_policy s.status.active_policy))
          (record { sessions = v.sessions; login = v.login; owner = v.owner })
          (record { sessions = v.sessions; login = v.login; owner = v.owner })

    upkeep : Upkeep {F = F} (Keeps 0 s0)
    upkeep = record {
      finish = finish-Keeps;
      clear_input = stop-Keeps 0 s0;
      expire_velocity = expire_velocity-Keeps;
      expire_reference = expire_reference-Keeps;
      withdraw_action = withdraw_action-Keeps;
      confirm_action = confirm_action-Keeps;
      take_status = take_status-Keeps;
    }

    started : Keeps 0 s0 s0
    started = record { sessions = refl; login = refl; owner = inl refl }

  -- What the clock does after the password's check, and what the robot's status does, leaves the table alone.
  pub tick-upkeep :
      ⦃c : Crypto⦄ (now : F) (ready : Bool) (s : Service F)
      → Keeps 0 (settle_login ready s) (tick now ready s)
  tick-upkeep now ready s =
      let t = settle_login ready s in tick-Keeps (upkeep t) now ready s (started t)

  pub update_status-upkeep :
      (now : F) (status : ControlStatus F) (fault : FaultStatus F) (s : Service F)
      → Keeps 0 s (update_status now status fault s)
  update_status-upkeep now status fault s =
      update_status-Keeps (upkeep s) now status fault s (started s)

  Keeps-IsOwned : (s t : Service F) → Keeps 0 s t → IsOwned s → IsOwned t
  Keeps-IsOwned s t k v = record {
    owner_known = elim k.owner [
      | inl e ↦ moved _ _ _ _ true e k.sessions v.owner_known
      | inr (inl z) ↦ inl z
      | inr (inr z) ↦ inl z
    ];
    login_known = moved _ _ _ _ false k.login k.sessions v.login_known;
  }

Known-emplace :
    (id n : ℕ) (m : List (ℕ × Session)) (b : Bool)
    → Known n m b
    → Known n (emplace_session id new_session m) b
Known-emplace id n m b (inl z) = inl z
Known-emplace id n m b (inr (me, h, a, c)) =
    inr (me, ground (arith, find-emplace_session id new_session n m, h), a, c)

Known-erase :
    (k n : ℕ) (m : List (ℕ × Session)) (b : Bool)
    → (n == k) ≡ false
    → Known n m b
    → Known n (erase_session k m) b
Known-erase k n m b e (inl z) = inl z
Known-erase k n m b e (inr (me, h, a, c)) =
    inr (me, ground (arith, find-erase_session k n m, e, h), a, c)

forgotten :
    (k l : ℕ) (m : List (ℕ × Session))
    → Known l m false
    → Known (if l == k then 0 else l) (erase_session k m) false
forgotten k l m v = elim (Bool-cases (l == k)) [
  | inl e ↦ rw e (inl refl)
  | inr e ↦ rw e (Known-erase k l m false e v)
]

-- The owner's login does not run.
apart :
    (n l : ℕ) (m : List (ℕ × Session))
    → Known n m true
    → Known l m false
    → (n ≡ 0) ⊎ ((n == l) ≡ false)
apart n l m v (inl z) = ground arith
apart n l m v (inr (me, h, a, c)) = Known-apart l n me m true h (inr c) v

answer-table :
    (o : Option Session) (n k : ℕ) (valid : Bool) (m : List (ℕ × Session))
    → Known n m true
    → Known k m false
    → Known n (answer o k valid m) true
answer-table none n k valid m v w = v
answer-table (some me) n k valid m v w = elim (apart n k m v w) [
  | inl z ↦ inl z
  | inr e ↦ Known-other k n (admit valid me) m true e v
]

module _ {F : Type 0} ⦃c : Crypto⦄ where
  settle-IsOwned : (password : Text) (s : Service F) → IsOwned s → IsOwned (settle password s)
  unfolding settle
  settle-IsOwned password s v = record {
    owner_known = answer-table _ s.owner s.login_session _ s.sessions v.owner_known v.login_known;
    login_known = inl refl;
  }

  settle_if-IsOwned :
      (ready : Bool) (login : Option Text) (s : Service F)
      → IsOwned s
      → IsOwned (settle_if ready login s)
  settle_if-IsOwned ready none s v = v
  settle_if-IsOwned ready (some password) s v =
      if_either IsOwned ready (settle-IsOwned password s v) v

module _ {F : Type 0} ⦃f : Float F⦄ where
  tick-IsOwned :
      ⦃c : Crypto⦄ (now : F) (ready : Bool) (s : Service F) → IsOwned s → IsOwned (tick now ready s)
  unfolding settle_login
  tick-IsOwned now ready s v =
      Keeps-IsOwned _ _ (tick-upkeep now ready s) (settle_if-IsOwned ready s.login_result s v)

  open_session-IsOwned : (s : Service F) → IsOwned s → IsOwned (open_session s).0
  unfolding open_session
  open_session-IsOwned s v = elim (Bool-cases (leb 32 (length s.sessions))) [
    | inl e ↦ rw e v
    | inr e ↦ rw e (record {
      owner_known = Known-emplace _ _ s.sessions true v.owner_known;
      login_known = Known-emplace _ _ s.sessions false v.login_known;
    })
  ]

  disconnect-IsOwned : (k : ℕ) (s : Service F) → IsOwned s → IsOwned (disconnect k s)
  unfolding disconnect
  disconnect-IsOwned k s v =
      let (a, b) = sessions-clear_input (text "operator disconnected") s in
      elim (Bool-cases (s.owner == k)) [
        | inl e ↦ rw e (record {
          owner_known = inl (clear_input-owner (text "operator disconnected") s);
          login_known = rw (a, b) (forgotten k s.login_session s.sessions v.login_known);
        })
        | inr e ↦ rw e (record {
          owner_known = Known-erase k s.owner s.sessions true e v.owner_known;
          login_known = forgotten k s.login_session s.sessions v.login_known;
        })
      ]

module _ {F : Type 0} where
  or_invalid-IsOwned :
      (id k : ℕ) (me : Session) (s : Service F) (r : Result (Outcome F))
      → find_session k s.sessions ≡ some me
      → IsOwned s
      → Ends (Change k me s) r
      → IsOwned (or_invalid id s r).0
  or_invalid-IsOwned id k me s (ok o) h v e = Change-IsOwned k me s o.0 h v e
  or_invalid-IsOwned id k me s err h v e = v

module _ {F J : Type 0} ⦃f : Float F⦄ ⦃j : Json F J⦄ (encode : Text → QrCode) where
  admit_from-IsOwned :
      (o : Option Session) (now : F) (id k : ℕ) (request : J) (s : Service F)
      → find_session k s.sessions ≡ o
      → IsOwned s
      → IsOwned (admit_from encode o now id k request s).0
  unfolding admit_from
  admit_from-IsOwned none now id k request s h v = v
  admit_from-IsOwned (some me) now id k request s h v =
      let you : Session = record me { last_id = id } in
      let w : IsOwned (put_session k you s) = record {
        owner_known = Known-set k _ me you s.sessions true h refl refl v.owner_known;
        login_known = Known-set k _ me you s.sessions false h refl refl v.login_known;
      } in
      if_either (λ (o : Outcome F). IsOwned o.0) (is_replayed id me) v
        (or_invalid-IsOwned id k you _ _ (found-set_session k me you s.sessions h) w
          (operate-Change k you _ encode now id request))

  with_id-IsOwned :
      (now : F) (k : ℕ) (request : J) (s : Service F) (r : Result (Option ℕ))
      → IsOwned s
      → IsOwned (with_id encode now k request s r).0
  unfolding admit_request
  with_id-IsOwned now k request s err v = v
  with_id-IsOwned now k request s (ok none) v = v
  with_id-IsOwned now k request s (ok (some id)) v =
      admit_from-IsOwned (find_session k s.sessions) now id k request s refl v

  module _ ⦃c : Crypto⦄ where
    apply_event-IsOwned :
        (e : Event F J) (s : Service F) → IsOwned s → IsOwned (apply_event encode e s)
    unfolding apply_event handle
    apply_event-IsOwned opened s v = open_session-IsOwned s v
    apply_event-IsOwned (disconnected k) s v = disconnect-IsOwned k s v
    apply_event-IsOwned (requested now ready k request) s v =
        with_id-IsOwned now k request _ _ (tick-IsOwned now ready s v)
    apply_event-IsOwned (ticked now ready) s v = tick-IsOwned now ready s v
    apply_event-IsOwned (reported now status fault) s v =
        Keeps-IsOwned s _ (update_status-upkeep now status fault s) v
    apply_event-IsOwned command_taken s v = record {
      owner_known = v.owner_known;
      login_known = v.login_known;
    }

    run_events-keep :
        (es : List (Event F J)) (s : Service F) → IsOwned s → IsOwned (run_events encode es s)
    unfolding run_events
    run_events-keep [] s v = v
    run_events-keep (e ∷ es) s v =
        run_events-keep es (apply_event encode e s) (apply_event-IsOwned e s v)

    -- After any sequence of calls on a new service, control belongs to nobody or to a client in the table that
    -- has authenticated and is an administrator, and a login runs for nobody or for an authenticated client
    -- in the table that is no administrator.
    pub run_events-IsOwned :
        (config : Config F) (es : List (Event F J)) → IsOwned (run_events encode es (fresh config))
    run_events-IsOwned config es =
        run_events-keep es (fresh config)
          (record { owner_known = inl refl; login_known = inl refl })
