-- ===== src/Operator/Sessions.antt =====
-- src/operator_service/service/service.cpp: the table of sessions, `Open` and `Authenticated`.
use humanoid_common.Prelude.{
  ℕ, ◌+◌, ◌≤◌, ◌≡◌, refl, Bool, false, List, [], ◌∷◌, arith, ◌==◌, leb, if◌then◌else◌, length,
  Option, none, some,
}
use humanoid_common.Operator.Data.{Session, new_session, Service, next_number}

-- `std::map<uint64_t, Session>` as its entries: `find`, assignment through an iterator, and `erase`.
abbrev pub find_session : ℕ → List (ℕ × Session) → Option Session
find_session k [] = none
find_session k ((j, s) ∷ m) = if j == k then some s else find_session k m

abbrev pub set_session : ℕ → Session → List (ℕ × Session) → List (ℕ × Session)
set_session k s [] = []
set_session k s ((j, t) ∷ m) = (j, if j == k then s else t) ∷ set_session k s m

abbrev pub erase_session : ℕ → List (ℕ × Session) → List (ℕ × Session)
erase_session k [] = []
erase_session k ((j, t) ∷ m) =
    let rest = erase_session k m in if j == k then rest else (j, t) ∷ rest

-- `emplace` leaves an entry that is there already.
abbrev pub emplace_session : ℕ → Session → List (ℕ × Session) → List (ℕ × Session)
emplace_session k s [] = (k, s) ∷ []
emplace_session k s ((j, t) ∷ m) =
    let rest = emplace_session k s m in if j == k then (j, t) ∷ m else (j, t) ∷ rest

pub find-set_session :
    (k : ℕ) (s : Session) (j : ℕ) (m : List (ℕ × Session))
    → find_session j (set_session k s m) ≡ (
        if j == k
        then (elim (find_session j m) [ none ↦ none | some t ↦ some s ])
        else find_session j m)
find-set_session k s j [] = ground arith
find-set_session k s j ((i, t) ∷ m) = ground (arith, find-set_session k s j m)

pub found-set_session :
    (k : ℕ) (me you : Session) (m : List (ℕ × Session))
    → find_session k m ≡ some me
    → find_session k (set_session k you m) ≡ some you
found-set_session k me you m h = ground (arith, find-set_session k you k m, h)

pub length-set_session :
    (k : ℕ) (s : Session) (m : List (ℕ × Session)) → length (set_session k s m) ≡ length m
length-set_session k s [] = refl
length-set_session k s ((i, t) ∷ m) = ground (arith, length-set_session k s m)

pub length-erase_session : (k : ℕ) (m : List (ℕ × Session)) → length (erase_session k m) ≤ length m
length-erase_session k [] = ground arith
length-erase_session k ((i, t) ∷ m) = ground (arith, length-erase_session k m)

pub find-erase_session :
    (k j : ℕ) (m : List (ℕ × Session))
    → find_session j (erase_session k m) ≡ (if j == k then none else find_session j m)
find-erase_session k j [] = ground arith
find-erase_session k j ((i, t) ∷ m) = ground (arith, find-erase_session k j m)

pub length-emplace_session :
    (k : ℕ) (s : Session) (m : List (ℕ × Session)) → length (emplace_session k s m) ≤ length m + 1
length-emplace_session k s [] = ground arith
length-emplace_session k s ((i, t) ∷ m) = ground (arith, length-emplace_session k s m)

pub find-emplace_session :
    (k : ℕ) (s : Session) (j : ℕ) (m : List (ℕ × Session))
    → find_session j (emplace_session k s m)
      ≡ (elim (find_session j m) [ none ↦ (if j == k then some s else none) | some t ↦ some t ])
find-emplace_session k s j [] = ground arith
find-emplace_session k s j ((i, t) ∷ m) = ground (arith, find-emplace_session k s j m)

module _ {F : Type 0} where
  -- `Service::Open`, with the number of the new session, or 0.
  unfoldable pub open_session : Service F → Service F × ℕ
  open_session s =
      if leb 32 (length s.sessions)
      then (s, 0)
      else let id = next_number s.next_session in
        (record s { next_session = id; sessions = emplace_session id new_session s.sessions }, id)

  -- `Service::Authenticated`.
  unfoldable pub authenticated : ℕ → Service F → Bool
  authenticated session s = elim (find_session session s.sessions) [
    | none ↦ false
    | some me ↦ me.authenticated
  ]
