-- ===== src/Operator/Ownership/Replay.antt =====
-- A request that was answered is not answered again.
use humanoid_common.Prelude.{
  ℕ, ◌≤◌, ◌≡◌, ◌≢◌, refl, sym, subst, Bool, true, false, List, [], ◌∷◌, Text, All, none, some,
  Option, Result, ok, err, arith,
}
use humanoid_common.Floats.{Float}
use humanoid_common.Operator.Libraries.{Json, Crypto, QrCode}
use humanoid_common.Operator.Data.{Service}
use humanoid_common.Operator.Sessions.{find_session}
use humanoid_common.Operator.Tick.{tick}
use humanoid_common.Operator.Requests.Handle.{admit_request, read_id, with_id, handle}
use humanoid_common.Operator.Events.{
  Event, opened, disconnected, requested, ticked, reported, command_taken, apply_event, run_events,
}
use humanoid_common.Operator.Ownership.Changes.{}
use humanoid_common.Operator.Ownership.Sequences.{update_status-upkeep}
use humanoid_common.Operator.Ownership.LastId.{
  last_id, tick-last_id, open_session-last_id, disconnect-last_id, admit_from-le, admit_from-ok,
  admit_from-refuses,
}

le_trans : {a b c : ℕ} → a ≤ b → b ≤ c → a ≤ c
le_trans p q = omega arith

-- A session that is not disconnected.
abbrev pub Stays : {F J : Type 0} → ℕ → Event F J → Type 0
Stays k (disconnected n) = k ≢ n
Stays k e = Unit

module _ {F J : Type 0} ⦃f : Float F⦄ ⦃j : Json F J⦄ ⦃c : Crypto⦄ (encode : Text → QrCode) where
  with_id-le :
      (k n : ℕ) (now : F) (request : J) (s : Service F) (r : Result (Option ℕ))
      → last_id k s.sessions ≤ last_id k (with_id encode now n request s r).0.sessions
  unfolding admit_request
  with_id-le k n now request s err = ground arith
  with_id-le k n now request s (ok none) = ground arith
  with_id-le k n now request s (ok (some id)) =
      admit_from-le encode k (find_session n s.sessions) now id n request s refl

  handle-le :
      (k n : ℕ) (now : F) (ready : Bool) (request : J) (s : Service F)
      → last_id k s.sessions ≤ last_id k (handle encode now ready n request s).0.sessions
  unfolding handle
  handle-le k n now ready request s =
      subst (λ x. x ≤ last_id k (handle encode now ready n request s).0.sessions)
        (tick-last_id k now ready s)
        (with_id-le k n now request (tick now ready s) (read_id F request))

  apply_event-le :
      (k : ℕ) (e : Event F J) (s : Service F)
      → Stays k e
      → last_id k s.sessions ≤ last_id k (apply_event encode e s).sessions
  unfolding apply_event
  apply_event-le k opened s z = ground (arith, open_session-last_id k s)
  apply_event-le k (disconnected n) s z = ground (arith, disconnect-last_id k n s z)
  apply_event-le k (requested now ready n request) s z = handle-le k n now ready request s
  apply_event-le k (ticked now ready) s z = ground (arith, tick-last_id k now ready s)
  apply_event-le k (reported now status fault) s z =
      rw (update_status-upkeep now status fault s).sessions (ground arith)
  apply_event-le k command_taken s z = ground arith

  run_events-le :
      (k : ℕ) (es : List (Event F J)) (s : Service F)
      → All (Stays k) es
      → last_id k s.sessions ≤ last_id k (run_events encode es s).sessions
  unfolding run_events
  run_events-le k [] s z = ground arith
  run_events-le k (e ∷ es) s (z, zs) =
      ground (arith, apply_event-le k e s z, run_events-le k es (apply_event encode e s) zs)

  -- What an answer says of the number of the request.
  answered-id :
      (n : ℕ) (now : F) (request : J) (s : Service F) (r : Result (Option ℕ))
      → (with_id encode now n request s r).1.ok ≡ true
      → (id : ℕ) × (r ≡ ok (some id))
        × (id ≤ last_id n (with_id encode now n request s r).0.sessions)
  unfolding admit_request
  answered-id n now request s err e = cc
  answered-id n now request s (ok none) e = cc
  answered-id n now request s (ok (some id)) e =
      (id, refl, admit_from-ok encode (find_session n s.sessions) now id n request s refl e)

  refused-id :
      (n : ℕ) (now : F) (request : J) (s : Service F) (r : Result (Option ℕ)) (id : ℕ)
      → r ≡ ok (some id)
      → id ≤ last_id n s.sessions
      → (with_id encode now n request s r).1.ok ≡ false
  unfolding admit_request
  refused-id n now request s r id e le =
      subst (λ q. (with_id encode now n request s q).1.ok ≡ false) (sym e)
        (admit_from-refuses encode (find_session n s.sessions) now id n request s refl le)

  handle-answered :
      (n : ℕ) (now : F) (ready : Bool) (request : J) (s : Service F)
      → (handle encode now ready n request s).1.ok ≡ true
      → (id : ℕ) × (read_id F request ≡ ok (some id))
        × (id ≤ last_id n (handle encode now ready n request s).0.sessions)
  unfolding handle
  handle-answered n now ready request s e =
      answered-id n now request (tick now ready s) (read_id F request) e

  handle-refuses :
      (n : ℕ) (now : F) (ready : Bool) (request : J) (s : Service F) (id : ℕ)
      → read_id F request ≡ ok (some id)
      → id ≤ last_id n s.sessions
      → (handle encode now ready n request s).1.ok ≡ false
  unfolding handle
  handle-refuses n now ready request s id r le =
      refused-id n now request (tick now ready s) (read_id F request) id r
        (subst (λ x. id ≤ x) (sym (tick-last_id n now ready s)) le)

  -- A request to which the service answers with success is refused when it comes again from the same
  -- session, whatever happens in between but the end of that session.
  pub replay-refused :
      (k : ℕ) (now later : F) (ready ready' : Bool) (request : J) (s : Service F)
      (es : List (Event F J))
      → All (Stays k) es
      → (handle encode now ready k request s).1.ok ≡ true
      → let t = run_events encode es (handle encode now ready k request s).0 in
        (handle encode later ready' k request t).1.ok ≡ false
  replay-refused k now later ready ready' request s es z e =
      let (id, r, le) = handle-answered k now ready request s e in
      let s' = (handle encode now ready k request s).0 in
      handle-refuses k later ready' request (run_events encode es s') id r
        (le_trans le (run_events-le k es s' z))
