-- ===== src/Prelude/Bytes.antt =====
-- `std::string` as its bytes, with the operations that the program uses.
use Prim.Native.Nat.{ℕ, zero, suc, ◌+◌, ◌/◌, ◌%◌}
use Prim.Native.Char.{code}
use Prim.Native.String.{String}
use mathlib.Core.Path.{◌≡◌, refl}
use mathlib.Core.Logic.{◌↔◌}
use mathlib.Core.Bool.{Bool, true, false, ◌&&◌, ◌||◌}
use mathlib.Core.List.{List, [], ◌∷◌, ◌++◌}
use mathlib.Core.Option.{Option, none, some}
use native.Mathlib.Omega.{arith}
use humanoid_common.Prelude.Tests.{◌==◌, ltb, if◌then◌else◌}

abbrev pub Text : Type 0
Text = List ℕ

-- The bytes of an ASCII literal of the source.
abbrev pub codes : String → Text
codes String.[] = []
codes (String.◌∷◌ c s) = code c ∷ codes s

-- The same for a message that nothing compares: the text stays shut in proofs.
unfoldable pub text : String → Text
text s = codes s

unfoldable pub text_eq : Text → Text → Bool
text_eq [] [] = true
text_eq [] (b ∷ t) = false
text_eq (a ∷ s) [] = false
text_eq (a ∷ s) (b ∷ t) = (a == b) && text_eq s t

pub text_eq_iff : (s t : Text) → (text_eq s t ≡ true) ↔ (s ≡ t)
unfolding text_eq
text_eq_iff [] [] = ground arith
text_eq_iff [] (b ∷ t) = ground arith
text_eq_iff (a ∷ s) [] = ground arith
text_eq_iff (a ∷ s) (b ∷ t) = ground (arith, text_eq_iff s t)

pub text_eq_refl : (s : Text) → text_eq s s ≡ true
text_eq_refl s = (text_eq_iff s s).1 refl

-- `text.find('\0') != npos`.
abbrev pub has_nul : Text → Bool
has_nul [] = false
has_nul (b ∷ s) = (b == 0) || has_nul s

-- The bytes before the first NUL, which is how a C string reads.
abbrev pub until_nul : Text → Text
until_nul [] = []
until_nul (zero ∷ s) = []
until_nul (suc b ∷ s) = suc b ∷ until_nul s

-- A `std::map` or `std::unordered_map` with text keys, as its entries.
abbrev pub Dict : Type 0 → Type 0
Dict A = List (Text × A)

module _ {A : Type 0} where
  abbrev pub find_text : Text → Dict A → Option A
  find_text k [] = none
  find_text k ((j, a) ∷ m) = if text_eq j k then some a else find_text k m

  -- `map.count(k)`.
  abbrev pub has_text : Text → Dict A → Bool
  has_text k [] = false
  has_text k ((j, a) ∷ m) = text_eq j k || has_text k m

abbrev pub member : Text → List Text → Bool
member k [] = false
member k (j ∷ m) = text_eq j k || member k m

-- `std::to_string` of a number below 2 ^ 64, which has at most 20 digits.
unfoldable pub decimal_digits : ℕ → ℕ → Text
decimal_digits zero n = []
decimal_digits (suc k) n =
    let rest = decimal_digits k (n / 10) in
    if ltb n 10 then (48 + n) ∷ [] else rest ++ ((48 + n % 10) ∷ [])

unfoldable pub decimal : ℕ → Text
unfolding decimal_digits
decimal n = decimal_digits 20 n
