-- ===== src/Operator/Driving/Sequences.antt =====
-- The invariant of the commanded velocity through `Handle` and through any sequence of calls.
use humanoid_common.Prelude.{
  ℕ, ◌≢◌, Bool, List, [], ◌∷◌, Text, text, ◌==◌, if_either, Option, none, some, Result, ok, err,
  All,
}
use humanoid_common.Floats.{Float, IsOrdered}
use humanoid_common.Operator.Libraries.{Json, Crypto, QrCode}
use humanoid_common.Operator.Data.{Config, Op, op_of, Session, Service, fresh}
use humanoid_common.Operator.Sessions.{find_session}
use humanoid_common.Operator.Effects.{Ends, Ends-bind}
use humanoid_common.Operator.Requests.Access.{
  Outcome, put_session, pairing, admin_login, admin_logout,
}
use humanoid_common.Operator.Requests.Handle.{
  as_client, dispatch, operate, is_replayed, admit_from, admit_request, with_id, handle,
}
use humanoid_common.Operator.Events.{
  Event, opened, disconnected, requested, ticked, reported, command_taken, apply_event, run_events,
}
use humanoid_common.Operator.Stability.{as_admin-Ends}
use humanoid_common.Operator.Driving.Defs.{HasLimits, IsDriven}
use humanoid_common.Operator.Driving.Upkeep.{
  fresh-IsDriven, clear_input-IsDriven, tick-IsDriven, open_session-IsDriven, disconnect-IsDriven,
  update_status-IsDriven,
}
use humanoid_common.Operator.Driving.Requests.{or_invalid-IsDriven}
use humanoid_common.Operator.Driving.Handle.{
  hello-Ends, client_event-Ends, start_login-Ends, driving_leaves,
}

module _ {F : Type 0} ⦃f : Float F⦄ where
  admin_logout-IsDriven :
      (id k : ℕ) (me : Session) (s : Service F) → IsDriven s → IsDriven (admin_logout id k me s).0
  unfolding admin_logout
  admin_logout-IsDriven id k me s v =
      let c = clear_input-IsDriven (text "administrator signed out") s v in
      let t = if_either IsDriven (s.owner == k) c v in record { limits = t.limits; moves = t.moves }

  pairing-IsDriven :
      (encode : Text → QrCode) (id : ℕ) (s : Service F)
      → IsDriven s
      → IsDriven (pairing encode id s).0
  unfolding pairing
  pairing-IsDriven encode id s v =
      if_either (λ (o : Outcome F). IsDriven o.0) s.config.terminal_only v v

-- Who asks is somebody, and the laws of the order hold.
abbrev pub IsSomebody : {F J : Type 0} → Event F J → Type 0
IsSomebody (requested now ready k request) = k ≢ 0
IsSomebody e = Unit

module _ {F J : Type 0} ⦃f : Float F⦄ ⦃j : Json F J⦄ (law : IsOrdered f)
    (encode : Text → QrCode) where
  as_client-Ends :
      (now : F) (id k : ℕ) (op : Op) (me : Session) (args : J) (s : Service F)
      → k ≢ 0
      → IsDriven s
      → Ends IsDriven (as_client encode now id k op me args s)
  unfolding as_client admin_login
  as_client-Ends now id k op me args s z v =
      elim op as (λ o. Ends IsDriven (as_client encode now id k o me args s)) [
        | Op.client_event ↦ client_event-Ends now id k args s v
        | Op.status ↦ v
        | Op.catalog ↦ v
        | Op.pairing ↦ pairing-IsDriven encode id s v
        | Op.admin_login ↦
            if_either (Ends IsDriven) me.admin v
              (start_login-Ends s.login_result now id k me args s v)
        | Op.admin_logout ↦ admin_logout-IsDriven id k me s v
        | o ↦
            if_either (Ends IsDriven) me.admin
              (as_admin-Ends (driving_leaves law k z) now id o args s v) v
      ]

  dispatch-Ends :
      (now : F) (id k : ℕ) (op : Op) (me : Session) (args : J) (s : Service F)
      → k ≢ 0
      → IsDriven s
      → Ends IsDriven (dispatch encode now id k op me args s)
  unfolding dispatch
  dispatch-Ends now id k op me args s z v =
      elim op as (λ o. Ends IsDriven (dispatch encode now id k o me args s)) [
        | Op.hello ↦ hello-Ends now id k me args s v
        | o ↦ if_either (Ends IsDriven) me.authenticated (as_client-Ends now id k o me args s z v) v
      ]

  operate-Ends :
      (now : F) (id k : ℕ) (me : Session) (request : J) (s : Service F)
      → k ≢ 0
      → IsDriven s
      → Ends IsDriven (operate encode now id k me request s)
  unfolding operate
  operate-Ends now id k me request s z v = Ends-bind IsDriven (j.at request (text "op")) _ λ name.
      Ends-bind IsDriven (j.get_text name) _ λ op.
        Ends-bind IsDriven (j.object_or_empty request (text "args")) _ λ args.
          if_either (Ends IsDriven) (j.is_object args)
            (dispatch-Ends now id k (op_of op) me args s z v) v

  admit_from-IsDriven :
      (o : Option Session) (now : F) (id k : ℕ) (request : J) (s : Service F)
      → k ≢ 0
      → IsDriven s
      → IsDriven (admit_from encode o now id k request s).0
  unfolding admit_from
  admit_from-IsDriven none now id k request s z v = v
  admit_from-IsDriven (some me) now id k request s z v =
      let w : IsDriven (put_session k (record me { last_id = id }) s) = record {
        limits = v.limits;
        moves = v.moves;
      } in
      if_either (λ (o : Outcome F). IsDriven o.0) (is_replayed id me) v
        (or_invalid-IsDriven id _ _ w (operate-Ends now id k _ request _ z w))

  with_id-IsDriven :
      (now : F) (k : ℕ) (request : J) (s : Service F) (r : Result (Option ℕ))
      → k ≢ 0
      → IsDriven s
      → IsDriven (with_id encode now k request s r).0
  unfolding admit_request
  with_id-IsDriven now k request s err z v = v
  with_id-IsDriven now k request s (ok none) z v = v
  with_id-IsDriven now k request s (ok (some id)) z v =
      admit_from-IsDriven (find_session k s.sessions) now id k request s z v

  module _ ⦃c : Crypto⦄ where
    handle-IsDriven :
        (now : F) (ready : Bool) (k : ℕ) (request : J) (s : Service F)
        → k ≢ 0
        → IsDriven s
        → IsDriven (handle encode now ready k request s).0
    unfolding handle
    handle-IsDriven now ready k request s z v =
        with_id-IsDriven now k request _ _ z (tick-IsDriven now ready s v)

    -- One call keeps the invariant of the commanded velocity.
    pub apply_event-IsDriven :
        (e : Event F J) (s : Service F)
        → IsSomebody e
        → IsDriven s
        → IsDriven (apply_event encode e s)
    unfolding apply_event
    apply_event-IsDriven opened s z v = open_session-IsDriven s v
    apply_event-IsDriven (disconnected k) s z v = disconnect-IsDriven k s v
    apply_event-IsDriven (requested now ready k request) s z v =
        handle-IsDriven now ready k request s z v
    apply_event-IsDriven (ticked now ready) s z v = tick-IsDriven now ready s v
    apply_event-IsDriven (reported now status fault) s z v =
        update_status-IsDriven now status fault s v
    apply_event-IsDriven command_taken s z v = record { limits = v.limits; moves = v.moves }

    run_events-keep :
        (es : List (Event F J)) (s : Service F)
        → All IsSomebody es
        → IsDriven s
        → IsDriven (run_events encode es s)
    unfolding run_events
    run_events-keep [] s z v = v
    run_events-keep (e ∷ es) s (z, zs) v =
        run_events-keep es (apply_event encode e s) zs (apply_event-IsDriven e s z v)

    -- After any sequence of calls on a new service whose policies have ordered limits, with requests from
    -- numbered sessions, the velocity of the command is nought, or somebody has control, the robot reports RL
    -- with a listed policy, and the velocity is within the limits of that policy, each rounded to `float` as the
    -- velocity is.
    pub run_events-IsDriven :
        (config : Config F) (es : List (Event F J))
        → All HasLimits config.policies
        → All IsSomebody es
        → IsDriven (run_events encode es (fresh config))
    run_events-IsDriven config es l z =
        run_events-keep es (fresh config) z (fresh-IsDriven config l)
