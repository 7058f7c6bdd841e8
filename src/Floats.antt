-- ===== src/Floats.antt =====
-- The floating-point arithmetic of the target machine. The program computes with `double`, and narrows
-- to `float` where a field is one; both are values of one type `F` here. The type and its operations
-- are a parameter of the model: a theorem that needs a law of them names it as a hypothesis.
use humanoid_common.Prelude.{
  ℕ, ◌+◌, ◌*◌, ◌/◌, ◌^◌, ◌≡◌, Bool, true, false, Option, none, some, List, arith, if◌then◌else◌, ℤ,
  pos, int_add, int_mul, int_div, negate, int_leb, int_ltb, int_eq, all_of, pos_part, neg_part,
}

pub record Float (F : Type 0) : Type 0 where
  -- `lit m e` is the literal m * 10^-e.
  pub lit : ℕ → ℕ → F
  pub of_nat : ℕ → F
  pub infinity : F
  pub neg : F → F
  pub abs : F → F
  pub add : F → F → F
  pub sub : F → F → F
  pub mul : F → F → F
  pub div : F → F → F
  pub lt : F → F → Bool
  pub le : F → F → Bool
  pub eq : F → F → Bool
  pub is_finite : F → Bool
  -- `static_cast<float>`.
  pub narrow : F → F
  -- `static_cast<std::size_t>(std::ceil(x))` of an x that is not negative.
  pub ceiling : F → ℕ
  -- `static_cast<std::size_t>(std::floor(x))` of the same.
  pub floor : F → ℕ

module _ {F : Type 0} ⦃f : Float F⦄ where
  abbrev pub nought : F
  nought = f.lit 0 0

  abbrev pub one : F
  one = f.lit 1 0

  -- `std::max`, `std::min` and `std::clamp` as the standard defines them, by `<` alone.
  abbrev pub fmax : F → F → F
  fmax a b = if f.lt a b then b else a

  abbrev pub fmin : F → F → F
  fmin a b = if f.lt b a then b else a

  abbrev pub clamp : F → F → F → F
  clamp v lo hi = if f.lt v lo then lo else if f.lt hi v then hi else v

  abbrev pub all_finite : List F → Bool
  all_finite xs = all_of f.is_finite xs

-- The laws of the order that theorems name. NaN is the value that is not `<=` itself; away from it the
-- order is total, and finite values are not NaN.
pub record IsOrdered {F : Type 0} (f : Float F) : Type 0 where
  pub nought_finite : f.is_finite (f.lit 0 0) ≡ true
  pub le_of_is_finite : (x : F) → f.is_finite x ≡ true → f.le x x ≡ true
  pub refl_of_le : (x y : F) → f.le x y ≡ true → (f.le x x ≡ true) × (f.le y y ≡ true)
  pub le_trans : (x y z : F) → f.le x y ≡ true → f.le y z ≡ true → f.le x z ≡ true
  pub le_of_lt : (x y : F) → f.lt x y ≡ true → f.le x y ≡ true
  pub le_of_not_lt :
      (x y : F) → f.le x x ≡ true → f.le y y ≡ true → f.lt y x ≡ false → f.le x y ≡ true
  -- The distance of two finite values is not NaN, nor is the magnitude of one.
  pub distance_le :
      (x y : F)
      → f.is_finite x ≡ true
      → f.is_finite y ≡ true
      → let e = f.abs (f.sub x y) in f.le e e ≡ true
  -- Rounding to `float` keeps the order.
  pub narrow_le : (x y : F) → f.le x y ≡ true → f.le (f.narrow x) (f.narrow y) ≡ true
  pub abs_le : (x : F) → f.is_finite x ≡ true → f.le (f.abs x) (f.abs x) ≡ true

module _ {F : Type 0} ⦃f : Float F⦄ where
  abbrev pub Between : F → F → F → Type 0
  Between lo hi x = (f.le lo x ≡ true) × (f.le x hi ≡ true)

  -- Of any value but NaN.
  pub clamp_number-Between :
      (law : IsOrdered f) (v lo hi : F)
      → f.le v v ≡ true
      → f.le lo hi ≡ true
      → Between lo hi (clamp v lo hi)
  clamp_number-Between law v lo hi self o =
      let ends : (f.le lo lo ≡ true) × (f.le hi hi ≡ true) = law.refl_of_le lo hi o in
      ground (arith, o, ends, law.le_of_not_lt lo v ends.0 self, law.le_of_not_lt v hi self ends.1)

  pub clamp-Between :
      (law : IsOrdered f) (v lo hi : F)
      → f.is_finite v ≡ true
      → f.le lo hi ≡ true
      → Between lo hi (clamp v lo hi)
  clamp-Between law v lo hi h o = clamp_number-Between law v lo hi (law.le_of_is_finite v h) o

  pub narrow_clamp-Between :
      (law : IsOrdered f) (v lo hi : F)
      → f.is_finite v ≡ true
      → f.le lo hi ≡ true
      → Between (f.narrow lo) (f.narrow hi) (f.narrow (clamp v lo hi))
  narrow_clamp-Between law v lo hi h o =
      let b = clamp-Between law v lo hi h o in
      (law.narrow_le lo (clamp v lo hi) b.0, law.narrow_le (clamp v lo hi) hi b.1)

-- Thousandths, with `none` for NaN: an arithmetic in which the development is run on concrete values.
abbrev pub Milli : Type 0
Milli = Option ℤ

abbrev pub lift1 : (ℤ → ℤ) → Milli → Milli
lift1 g none = none
lift1 g (some a) = some (g a)

abbrev pub lift2 : (ℤ → ℤ → ℤ) → Milli → Milli → Milli
lift2 g (some a) (some b) = some (g a b)
lift2 g _ _ = none

abbrev pub test2 : (ℤ → ℤ → Bool) → Milli → Milli → Bool
test2 g (some a) (some b) = g a b
test2 g _ _ = false

abbrev pub is_number : Milli → Bool
is_number none = false
is_number (some a) = true

instance abbrev pub milli : Float Milli
milli = record {
  lit = λ m e. some (pos (m * 1000 / 10 ^ e));
  of_nat = λ n. some (pos (n * 1000));
  infinity = none;
  neg = lift1 negate;
  abs = lift1 (λ a. pos (pos_part a + neg_part a));
  add = lift2 int_add;
  sub = lift2 (λ a b. int_add a (negate b));
  mul = lift2 (λ a b. int_div (int_mul a b) (pos 1000));
  div = lift2 (λ a b. int_div (int_mul a (pos 1000)) b);
  lt = test2 int_ltb;
  le = test2 int_leb;
  eq = test2 int_eq;
  is_finite = is_number;
  narrow = λ a. a;
  ceiling = λ a. elim a [ none ↦ 0 | some n ↦ (pos_part n + 999) / 1000 ];
  floor = λ a. elim a [ none ↦ 0 | some n ↦ pos_part n / 1000 ];
}

pub Milli-IsOrdered : IsOrdered milli
Milli-IsOrdered = ground arith
