-- ===== src/Operator/Names.antt =====
-- src/operator_service/service/service.cpp: the names of modes and phases, and the checks of tokens and of
-- the administrator's password.
use humanoid_common.Prelude.{
  ℕ, zero, suc, ◌+◌, ◌-◌, ◌*◌, ◌%◌, ◌≡◌, ◌↔◌, refl, Bool, true, false, ◌&&◌, ◌||◌, not, [], ◌∷◌,
  arith, Text, codes, text_eq, text_eq_iff, ◌==◌, leb, int_eq, if◌then◌else◌, ℤ, length, is_empty,
  take, get_or, all_of, tabulate, none, some,
}
use humanoid_common.RobotBase.ControlMode
use humanoid_common.RobotBase.Phase
use humanoid_common.Operator.Libraries.{Crypto}

unfoldable pub state_name : ℤ → Text
state_name mode =
    if int_eq mode ControlMode.power_off
    then codes "POWER_OFF"
    else if int_eq mode ControlMode.damp
    then codes "DAMP"
    else if int_eq mode ControlMode.home
    then codes "HOME"
    else if int_eq mode ControlMode.zero
    then codes "ZERO"
    else if int_eq mode ControlMode.rl
    then codes "RL"
    else if int_eq mode ControlMode.trajectory
    then codes "TRAJECTORY"
    else if int_eq mode ControlMode.safety
    then codes "SAFETY"
    else codes "UNKNOWN"

unfoldable pub phase_name : ℕ → Text
phase_name phase =
    if phase == Phase.idle
    then codes "IDLE"
    else if phase == Phase.blend_in
    then codes "BLEND_IN"
    else if phase == Phase.playing
    then codes "PLAYING"
    else if phase == Phase.holding
    then codes "HOLDING"
    else if phase == Phase.blend_out
    then codes "BLEND_OUT"
    else if phase == Phase.finished
    then codes "FINISHED"
    else if phase == Phase.rejected
    then codes "REJECTED"
    else codes "UNKNOWN"

abbrev pub busy : ℕ → Bool
busy p = p == Phase.blend_in || (p == Phase.playing || (p == Phase.holding || p == Phase.blend_out))

abbrev pub supports_interaction : ℤ → Bool
supports_interaction mode = int_eq mode ControlMode.rl || int_eq mode ControlMode.trajectory

-- The loop of `TokenEqual`: all bytes are compared, and any difference is remembered.
unfoldable pub differs : Bool → Text → Text → Bool
differs seen [] bs = seen
differs seen (a ∷ as_) [] = seen
differs seen (a ∷ as_) (b ∷ bs) = differs (seen || not (a == b)) as_ bs

unfoldable pub token_equal : Text → Text → Bool
unfolding differs
token_equal a b =
    if not (length a == length b) || is_empty a then false else not (differs false a b)

abbrev pub password_prefix : Text
password_prefix = codes "pbkdf2-sha256:100000:"

abbrev pub drop : ℕ → Text → Text
drop zero s = s
drop (suc n) [] = []
drop (suc n) (b ∷ s) = drop n s

-- `find_first_not_of("0123456789abcdef") == npos`.
abbrev pub is_hex : Text → Bool
is_hex s = all_of (λ c. (leb 48 c && leb c 57) || (leb 97 c && leb c 102)) s

unfoldable pub valid_password_hash : Text → Bool
valid_password_hash value =
    let prefix = length password_prefix in
    if not (length value == prefix + 32 + 1 + 64)
      || (not (text_eq (take prefix value) password_prefix)
          || not (get_or value (prefix + 32) 0 == 58))
    then false
    else is_hex (take 32 (drop prefix value)) && is_hex (drop (prefix + 33) value)

-- The value of a hexadecimal digit; the source takes it of digits of a valid hash only.
abbrev pub digit : ℕ → ℕ
digit c = if leb c 57 then c - 48 else c - 97 + 10

abbrev pub byte_at : Text → ℕ → ℕ
byte_at s i = (digit (get_or s i 0) * 16 + digit (get_or s (i + 1) 0)) % 256

unfoldable pub check_password : ⦃c : Crypto⦄ → Text → Text → Bool
check_password ⦃c⦄ encoded password =
    let prefix = length password_prefix in
    let salt = tabulate 16 (λ i. byte_at encoded (prefix + i * 2)) in
    let expected = tabulate 32 (λ i. byte_at encoded (prefix + 33 + i * 2)) in
    elim (c.derive_key password salt) [ none ↦ false | some actual ↦ text_eq actual expected ]

differs_once : (a b : Text) → differs true a b ≡ true
unfolding differs
differs_once [] b = refl
differs_once (x ∷ a) [] = refl
differs_once (x ∷ a) (y ∷ b) = differs_once a b

differs-text_eq :
    (a b : Text) → (length a == length b) ≡ true → not (differs false a b) ≡ text_eq a b
unfolding differs text_eq
differs-text_eq [] [] e = refl
differs-text_eq [] (y ∷ b) e = ground arith
differs-text_eq (x ∷ a) [] e = ground arith
differs-text_eq (x ∷ a) (y ∷ b) e = ground (arith, differs-text_eq a b, differs_once a b)

-- The comparison of tokens, which looks at every byte, accepts exactly two equal texts that are not empty.
pub token_equal_iff : (a b : Text) → (token_equal a b ≡ true) ↔ ((a ≡ b) × (is_empty a ≡ false))
unfolding token_equal
token_equal_iff a b = ground (arith, differs-text_eq a b, text_eq_iff a b)
