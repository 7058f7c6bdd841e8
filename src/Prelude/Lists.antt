-- ===== src/Prelude/Lists.antt =====
-- Lists measured and indexed by native numbers, under the library's names.
use Prim.Native.Nat.{ℕ, zero, suc, ◌+◌}
use mathlib.Core.Path.{◌≡◌, refl, ap}
use mathlib.Core.Bool.{Bool, true, false, ◌&&◌, ◌||◌}
use mathlib.Core.List.{List, [], ◌∷◌, ◌++◌}
use mathlib.Core.Option.{Option, none, some}
use native.Mathlib.Omega.{arith}
use humanoid_common.Prelude.Tests.{if◌then◌else◌}

module _ {ℓ} {A : Type ℓ} where
  abbrev pub length : List A → ℕ
  length [] = 0
  length (x ∷ xs) = suc (length xs)

  abbrev pub is_empty : List A → Bool
  is_empty [] = true
  is_empty (x ∷ xs) = false

  abbrev pub replicate : ℕ → A → List A
  replicate zero a = []
  replicate (suc n) a = a ∷ replicate n a

  abbrev pub get_or : List A → ℕ → A → A
  get_or [] i d = d
  get_or (x ∷ xs) zero d = x
  get_or (x ∷ xs) (suc i) d = get_or xs i d

  abbrev pub take : ℕ → List A → List A
  take zero xs = []
  take (suc n) [] = []
  take (suc n) (x ∷ xs) = x ∷ take n xs

  -- The list of `g i, ..., g (i + n - 1)`, as a counted loop fills a vector.
  abbrev pub tabulate_from : ℕ → ℕ → (ℕ → A) → List A
  tabulate_from i zero g = []
  tabulate_from i (suc n) g = g i ∷ tabulate_from (suc i) n g

  abbrev pub tabulate : ℕ → (ℕ → A) → List A
  tabulate n g = tabulate_from 0 n g

  -- `std::all_of` and `std::any_of`.
  abbrev pub all_of : (A → Bool) → List A → Bool
  all_of p [] = true
  all_of p (x ∷ xs) = p x && all_of p xs

  abbrev pub any_of : (A → Bool) → List A → Bool
  any_of p [] = false
  any_of p (x ∷ xs) = p x || any_of p xs

  -- `std::find_if`: the first element that passes.
  abbrev pub find_if : (A → Bool) → List A → Option A
  find_if p [] = none
  find_if p (x ∷ xs) = if p x then some x else find_if p xs

  abbrev pub All {κ} : (A → Type κ) → List A → Type κ
  All P [] = Unit
  All P (x ∷ xs) = P x × All P xs

module _ {ℓ} {A : Type ℓ} where
  pub length-append : (xs ys : List A) → length (xs ++ ys) ≡ length xs + length ys
  length-append [] ys = omega arith
  length-append (x ∷ xs) ys = omega (arith, length-append xs ys)

  pub length-replicate : (n : ℕ) (a : A) → length (replicate n a) ≡ n
  length-replicate zero a = refl
  length-replicate (suc n) a = ap suc (length-replicate n a)

  -- What `find_if` returns passes its test.
  pub find_if-passes : (p : A → Bool) (xs : List A) {x : A} → find_if p xs ≡ some x → p x ≡ true
  find_if-passes p [] e = cc
  find_if-passes p (y ∷ ys) {x} e = ground (arith, find_if-passes p ys {x = x})

  pub find_if-none : (p : A → Bool) (xs : List A) → find_if p xs ≡ none → any_of p xs ≡ false
  find_if-none p [] e = refl
  find_if-none p (y ∷ ys) e = ground (arith, find_if-none p ys)

  -- `find_if` finds something exactly where `any_of` says so.
  pub find_if-any_of :
      (p : A → Bool) (xs : List A)
      → any_of p xs ≡ (elim (find_if p xs) [ none ↦ false | some x ↦ true ])
  find_if-any_of p [] = refl
  find_if-any_of p (y ∷ ys) = ground (arith, find_if-any_of p ys)

  -- What is found by one test fails another that nothing passes, and shows that a weaker one is passed.
  pub find_if-fails :
      (p q : A → Bool) (xs : List A) {x : A}
      → any_of p xs ≡ false
      → find_if q xs ≡ some x
      → p x ≡ false
  find_if-fails p q [] h e = cc
  find_if-fails p q (y ∷ ys) {x} h e = ground (arith, find_if-fails p q ys {x = x})

  pub find_if-weaken :
      (p q : A → Bool) (xs : List A) {x : A}
      → find_if (λ a. p a && q a) xs ≡ some x
      → any_of p xs ≡ true
  find_if-weaken p q [] e = cc
  find_if-weaken p q (y ∷ ys) {x} e = ground (arith, find_if-weaken p q ys {x = x})
