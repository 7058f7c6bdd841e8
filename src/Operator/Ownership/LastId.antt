-- ===== src/Operator/Ownership/LastId.antt =====
-- The number of the last request of a session, and that nothing lowers it.
use humanoid_common.Prelude.{
  ℕ, ◌≤◌, ◌≡◌, ◌≢◌, inl, inr, refl, sym, subst, ap, Bool, true, false, List, Text, text, ◌==◌, leb,
  length, if_either, if_split, Bool-cases, none, some, Option, Result, ok, err, arith, ◌∙◌,
}
use humanoid_common.Floats.{Float}
use humanoid_common.Operator.Libraries.{Json, Crypto, QrCode}
use humanoid_common.Operator.Data.{Session, Service, new_session}
use humanoid_common.Operator.Sessions.{
  find_session, set_session, erase_session, emplace_session, find-set_session, find-erase_session,
  find-emplace_session, found-set_session, open_session,
}
use humanoid_common.Operator.Input.{disconnect}
use humanoid_common.Operator.Tick.{admit, answer, settle, settle_if, settle_login, tick}
use humanoid_common.Operator.Effects.{Ends}
use humanoid_common.Operator.Requests.Access.{Outcome, put_session}
use humanoid_common.Operator.Requests.Handle.{operate, is_replayed, or_invalid, admit_from}
use humanoid_common.Operator.Events.{}
use humanoid_common.Operator.Ownership.Keeps.{sessions-clear_input}
use humanoid_common.Operator.Ownership.Changes.{Change, quiet, greeted, asked, left, operate-Change}
use humanoid_common.Operator.Ownership.Sequences.{tick-upkeep}

abbrev pub id_of : Option Session → ℕ
id_of none = 0
id_of (some me) = me.last_id

abbrev pub last_id : ℕ → List (ℕ × Session) → ℕ
last_id k m = id_of (find_session k m)

last_id-other :
    (k n : ℕ) (you : Session) (m : List (ℕ × Session))
    → (k == n) ≡ false
    → last_id k (set_session n you m) ≡ last_id k m
last_id-other k n you m t =
    let other : find_session k (set_session n you m) ≡ find_session k m =
      ground (arith, find-set_session n you k m, t) in
    ap id_of other

last_id-set :
    (k n : ℕ) (me you : Session) (m : List (ℕ × Session))
    → find_session n m ≡ some me
    → you.last_id ≡ me.last_id
    → last_id k (set_session n you m) ≡ last_id k m
last_id-set k n me you m h e = elim (Bool-cases (k == n)) [
  | inl t ↦ let same : k ≡ n = ground (arith, t) in rw (same, found-set_session n me you m h, h) e
  | inr t ↦ last_id-other k n you m t
]

admit_id : (valid : Bool) (me : Session) → (admit valid me).last_id ≡ me.last_id
unfolding admit
admit_id valid me = refl

put-last_id-le :
    (k id n : ℕ) (me : Session) (m : List (ℕ × Session))
    → find_session n m ≡ some me
    → me.last_id ≤ id
    → last_id k m ≤ last_id k (set_session n (record me { last_id = id }) m)
put-last_id-le k id n me m h le = elim (Bool-cases (k == n)) [
  | inl t ↦
      let same : k ≡ n = ground (arith, t) in
      rw (same, found-set_session n me (record me { last_id = id }) m h, h) le
  | inr t ↦ rw (last_id-other k n (record me { last_id = id }) m t) (ground arith)
]

last_id-answer :
    (k n : ℕ) (valid : Bool) (m : List (ℕ × Session))
    → last_id k (answer (find_session n m) n valid m) ≡ last_id k m
last_id-answer k n valid m = go (find_session n m) refl
  where
    go : (o : Option Session) → find_session n m ≡ o → last_id k (answer o n valid m) ≡ last_id k m
    go none e = refl
    go (some me) e = last_id-set k n me (admit valid me) m e (admit_id valid me)

last_id-emplace :
    (k n : ℕ) (m : List (ℕ × Session)) → last_id k (emplace_session n new_session m) ≡ last_id k m
last_id-emplace k n m = ground (arith, find-emplace_session n new_session k m)

last_id-erase :
    (k n : ℕ) (m : List (ℕ × Session)) → k ≢ n → last_id k (erase_session n m) ≡ last_id k m
last_id-erase k n m h =
    let other : find_session k (erase_session n m) ≡ find_session k m =
      ground (arith, find-erase_session n k m, h) in
    ap id_of other

module _ {F : Type 0} where
  Change-last_id :
      (k n : ℕ) (me : Session) (s t : Service F)
      → find_session n s.sessions ≡ some me
      → Change n me s t
      → last_id k t.sessions ≡ last_id k s.sessions
  Change-last_id k n me s t h (quiet c l o) = rw c refl
  Change-last_id k n me s t h (greeted you c i a l o) = rw c (last_id-set k n me you s.sessions h i)
  Change-last_id k n me s t h (asked you c i a b l o) = rw c (last_id-set k n me you s.sessions h i)
  Change-last_id k n me s t h (left you c i o l) = rw c (last_id-set k n me you s.sessions h i)

  or_invalid-last_id :
      (k id n : ℕ) (me : Session) (s : Service F) (r : Result (Outcome F))
      → find_session n s.sessions ≡ some me
      → Ends (Change n me s) r
      → last_id k (or_invalid id s r).0.sessions ≡ last_id k s.sessions
  or_invalid-last_id k id n me s (ok o) h e = Change-last_id k n me s o.0 h e
  or_invalid-last_id k id n me s err h e = refl

module _ {F : Type 0} ⦃c : Crypto⦄ where
  settle_if-last_id :
      (k : ℕ) (ready : Bool) (login : Option Text) (s : Service F)
      → last_id k (settle_if ready login s).sessions ≡ last_id k s.sessions
  unfolding settle
  settle_if-last_id k ready none s = refl
  settle_if-last_id k ready (some password) s =
      if_either (λ (t : Service F). last_id k t.sessions ≡ last_id k s.sessions) ready
        (last_id-answer k s.login_session _ s.sessions) refl

module _ {F : Type 0} ⦃f : Float F⦄ where
  pub tick-last_id :
      ⦃c : Crypto⦄ (k : ℕ) (now : F) (ready : Bool) (s : Service F)
      → last_id k (tick now ready s).sessions ≡ last_id k s.sessions
  unfolding settle_login
  tick-last_id k now ready s =
      ap (last_id k) (tick-upkeep now ready s).sessions ∙ settle_if-last_id k ready s.login_result s

  pub open_session-last_id :
      (k : ℕ) (s : Service F) → last_id k (open_session s).0.sessions ≡ last_id k s.sessions
  unfolding open_session
  open_session-last_id k s = elim (Bool-cases (leb 32 (length s.sessions))) [
    | inl e ↦ rw e refl
    | inr e ↦ rw e (last_id-emplace k _ s.sessions)
  ]

  pub disconnect-last_id :
      (k n : ℕ) (s : Service F) → k ≢ n → last_id k (disconnect n s).sessions ≡ last_id k s.sessions
  unfolding disconnect
  disconnect-last_id k n s h =
      let (a, b) = sessions-clear_input (text "operator disconnected") s in
      let erased = last_id-erase k n s.sessions h in
      elim (Bool-cases (s.owner == n)) [ inl e ↦ rw (e, a) erased | inr e ↦ rw e erased ]

module _ {F J : Type 0} ⦃f : Float F⦄ ⦃j : Json F J⦄ (encode : Text → QrCode) where
  -- The number of an accepted request becomes the last one of its session.
  admitted-last_id :
      (k id n : ℕ) (now : F) (me : Session) (request : J) (s : Service F)
      → find_session n s.sessions ≡ some me
      → let you : Session = record me { last_id = id } in
        let t = put_session n you s in
        last_id k (or_invalid id t (operate encode now id n you request t)).0.sessions
        ≡ last_id k t.sessions
  admitted-last_id k id n now me request s h =
      let you : Session = record me { last_id = id } in
      or_invalid-last_id k id n you (put_session n you s) _
        (found-set_session n me you s.sessions h)
        (operate-Change n you (put_session n you s) encode now id request)

  pub admit_from-le :
      (k : ℕ) (o : Option Session) (now : F) (id n : ℕ) (request : J) (s : Service F)
      → find_session n s.sessions ≡ o
      → last_id k s.sessions ≤ last_id k (admit_from encode o now id n request s).0.sessions
  unfolding admit_from
  admit_from-le k none now id n request s h = ground arith
  admit_from-le k (some me) now id n request s h =
      if_split (λ (o : Outcome F). last_id k s.sessions ≤ last_id k o.0.sessions)
        (is_replayed id me) (λ _. ground arith)
        λ e.
          subst (λ x. last_id k s.sessions ≤ x) (sym (admitted-last_id k id n now me request s h))
            (put-last_id-le k id n me s.sessions h (ground (arith, e)))

  pub admit_from-ok :
      (o : Option Session) (now : F) (id n : ℕ) (request : J) (s : Service F)
      → find_session n s.sessions ≡ o
      → (admit_from encode o now id n request s).1.ok ≡ true
      → id ≤ last_id n (admit_from encode o now id n request s).0.sessions
  unfolding admit_from
  admit_from-ok none now id n request s h = λ e. cc
  admit_from-ok (some me) now id n request s h =
      if_split (λ (o : Outcome F). o.1.ok ≡ true → id ≤ last_id n o.0.sessions) (is_replayed id me)
        (λ _ e. cc)
        λ _ _.
          subst (λ x. id ≤ x) (sym (admitted-last_id n id n now me request s h))
            (rw (found-set_session n me (record me { last_id = id }) s.sessions h) (ground arith))

  pub admit_from-refuses :
      (o : Option Session) (now : F) (id n : ℕ) (request : J) (s : Service F)
      → find_session n s.sessions ≡ o
      → id ≤ last_id n s.sessions
      → (admit_from encode o now id n request s).1.ok ≡ false
  unfolding admit_from
  admit_from-refuses none now id n request s h le = refl
  admit_from-refuses (some me) now id n request s h le =
      let old : id ≤ me.last_id = subst (λ o. id ≤ id_of o) h le in
      let replayed : is_replayed id me ≡ true = ground (arith, old) in rw replayed refl
