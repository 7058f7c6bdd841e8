-- ===== src/Operator/Ownership/Tables.antt =====
-- What holds of the owner and of the running login, through changes of the table of sessions.
use humanoid_common.Prelude.{
  ℕ, ◌≡◌, ◌⊎◌, inl, inr, sym, Bool, true, false, not, List, ◌==◌, some, arith, ◌∙◌, Bool-cases,
}
use humanoid_common.Operator.Data.{Session, Service}
use humanoid_common.Operator.Sessions.{find_session, set_session, find-set_session}
use humanoid_common.Operator.Ownership.Changes.{Change, quiet, greeted, asked, left}

-- Nobody, or an authenticated client in the table, who is an administrator or is not.
abbrev pub Known : ℕ → List (ℕ × Session) → Bool → Type 0
Known n m b =
    (n ≡ 0)
    ⊎ ((me : Session) × (find_session n m ≡ some me) × (me.authenticated ≡ true) × (me.admin ≡ b))

pub Known-other :
    (k n : ℕ) (you : Session) (m : List (ℕ × Session)) (b : Bool)
    → (n == k) ≡ false
    → Known n m b
    → Known n (set_session k you m) b
Known-other k n you m b e (inl z) = inl z
Known-other k n you m b e (inr (me, h, a, c)) =
    inr (me, ground (arith, find-set_session k you n m, e, h), a, c)

pub Known-self :
    (k : ℕ) (me you : Session) (m : List (ℕ × Session)) (b : Bool)
    → find_session k m ≡ some me
    → you.authenticated ≡ true
    → you.admin ≡ b
    → Known k (set_session k you m) b
Known-self k me you m b h a c = inr (you, ground (arith, find-set_session k you k m, h), a, c)

-- Who is known stays known when a session is written back with the same rights.
pub Known-set :
    (k n : ℕ) (me you : Session) (m : List (ℕ × Session)) (b : Bool)
    → find_session k m ≡ some me
    → you.authenticated ≡ me.authenticated
    → you.admin ≡ me.admin
    → Known n m b
    → Known n (set_session k you m) b
Known-set k n me you m b h a c (inl z) = inl z
Known-set k n me you m b h a c (inr (x, g, p, q)) = elim (Bool-cases (n == k)) [
  | inr e ↦ Known-other k n you m b e (inr (x, g, p, q))
  | inl e ↦
      let same : n ≡ k = ground (arith, e) in
      let found : some x ≡ some me = sym g ∙ (rw same h) in
      let whole : x ≡ me = ground (arith, found) in
      rw same (Known-self k me you m b h (a ∙ (rw (← whole) p)) (c ∙ (rw (← whole) q)))
]

-- A session of other rights than those known is another session.
pub Known-apart :
    (k n : ℕ) (me : Session) (m : List (ℕ × Session)) (b : Bool)
    → find_session k m ≡ some me
    → (me.authenticated ≡ false) ⊎ (me.admin ≡ not b)
    → Known n m b
    → (n ≡ 0) ⊎ ((n == k) ≡ false)
Known-apart k n me m b h d (inl z) = inl z
Known-apart k n me m b h d (inr (x, g, p, q)) = elim (Bool-cases (n == k)) [
  | inr e ↦ inr e
  | inl e ↦
      let same : n ≡ k = ground (arith, e) in
      let found : some x ≡ some me = sym g ∙ (rw same h) in
      let whole : x ≡ me = ground (arith, found) in
      absurd (clash (rw (← whole) p) (rw (← whole) q) d)
]
  where
    clash :
        me.authenticated ≡ true → me.admin ≡ b → (me.authenticated ≡ false) ⊎ (me.admin ≡ not b) → ⊥
    clash p q d = ground (arith, b)

pub Known-after :
    (k n : ℕ) (me you : Session) (m : List (ℕ × Session)) (b : Bool)
    → find_session k m ≡ some me
    → (me.authenticated ≡ false) ⊎ (me.admin ≡ not b)
    → Known n m b
    → Known n (set_session k you m) b
Known-after k n me you m b h d v = elim (Known-apart k n me m b h d v) [
  | inl z ↦ inl z
  | inr e ↦ Known-other k n you m b e v
]

pub moved :
    (n n' : ℕ) (m m' : List (ℕ × Session)) (b : Bool)
    → n' ≡ n
    → m' ≡ m
    → Known n m b
    → Known n' m' b
moved n n' m m' b e g v = rw (e, g) v

module _ {F : Type 0} where
  -- Control belongs to an administrator, and a login runs for a client that is none yet.
  pub record IsOwned (s : Service F) : Type 0 where
    pub owner_known : Known s.owner s.sessions true
    pub login_known : Known s.login_session s.sessions false

  -- A request's change keeps that.
  pub Change-IsOwned :
      (k : ℕ) (me : Session) (s t : Service F)
      → find_session k s.sessions ≡ some me
      → IsOwned s
      → Change k me s t
      → IsOwned t
  Change-IsOwned k me s t h v (quiet c l (inl o)) = record {
    owner_known = moved s.owner t.owner s.sessions t.sessions true o c v.owner_known;
    login_known = moved _ _ _ _ false l c v.login_known;
  }
  Change-IsOwned k me s t h v (quiet c l (inr (inl o))) = record {
    owner_known = inl o;
    login_known = moved _ _ _ _ false l c v.login_known;
  }
  Change-IsOwned k me s t h v (quiet c l (inr (inr (o, a, b)))) = record {
    owner_known = moved k _ _ _ true o c (inr (me, h, a, b));
    login_known = moved _ _ _ _ false l c v.login_known;
  }
  Change-IsOwned k me s t h v (greeted you c i a l o) = record {
    owner_known =
        moved _ _ _ _ true o c (Known-after k _ me you s.sessions true h (inl a) v.owner_known);
    login_known =
        moved _ _ _ _ false l c (Known-after k _ me you s.sessions false h (inl a) v.login_known);
  }
  Change-IsOwned k me s t h v (asked you c i (b, b') (a, a') l o) = record {
    owner_known =
        moved _ _ _ _ true o c (Known-after k _ me you s.sessions true h (inr b) v.owner_known);
    login_known = moved k _ _ _ false l c (Known-self k me you s.sessions false h a' b');
  }
  Change-IsOwned k me s t h v (left you c i o l) = record {
    owner_known = elim o [
      | inl z ↦ inl z
      | inr (e, n) ↦
          moved _ _ _ _ true e c
            (Known-other k _ you s.sessions true (ground (arith, n)) v.owner_known)
    ];
    login_known = elim l [
      | inl z ↦ inl z
      | inr (e, n) ↦
          moved _ _ _ _ false e c
            (Known-other k _ you s.sessions false (ground (arith, n)) v.login_known)
    ];
  }
