-- ===== src/Transport/Buffer.antt =====
-- src/transport/transport_executor/transport_packet.h: texts in fixed buffers of bytes, and `DetailForPacket`.
use humanoid_common.Prelude.{
  ℕ, zero, suc, ◌-◌, ◌≤◌, ◌<◌, ◌≡◌, ◌⊎◌, inl, inr, refl, ap, Bool, true, false, ◌&&◌, [], ◌∷◌, ◌++◌,
  arith, Text, codes, has_nul, until_nul, length, length-append, replicate, take, get_or, ltb, leb,
  if◌then◌else◌, Bool-cases,
}

abbrev pub policy_name_length : ℕ
policy_name_length = 64

abbrev pub interaction_name_length : ℕ
interaction_name_length = 64

abbrev pub fault_detail_length : ℕ
fault_detail_length = 160

-- `memcpy` of a text into a buffer of zeros.
abbrev pub fill : ℕ → Text → Text
fill size text = text ++ replicate (size - length text) 0

-- `strncpy` of `text.c_str()` into a buffer of zeros, less its last byte.
abbrev pub copy : ℕ → Text → Text
copy size text = fill size (take (size - 1) (until_nul text))

-- `(byte & 0xc0) == 0x80`.
abbrev pub is_continuation : ℕ → Bool
is_continuation b = leb 128 b && ltb b 192

-- The loop of `DetailForPacket`, which moves the cut left to the start of a character.
pub cut_at : Text → ℕ → ℕ
cut_at detail zero = 0
cut_at detail (suc n) =
    let rest = cut_at detail n in if is_continuation (get_or detail (suc n) 0) then rest else suc n

abbrev pub marker : Text
marker = codes "...[truncated]"

-- `DetailForPacket`.
unfoldable pub detail_for_packet : Text → Text
unfolding cut_at
detail_for_packet detail =
    if leb (length detail) (fault_detail_length - 1)
    then detail
    else take (cut_at detail (fault_detail_length - 1 - length marker)) detail ++ marker

pub until_nul_lem : (t : Text) → has_nul t ≡ false → until_nul t ≡ t
until_nul_lem [] h = refl
until_nul_lem (zero ∷ t) h = ground arith
until_nul_lem (suc b ∷ t) h = ground (arith, until_nul_lem t)

pub take_all : (n : ℕ) (t : Text) → length t ≤ n → take n t ≡ t
take_all zero [] h = refl
take_all (suc n) [] h = refl
take_all zero (b ∷ t) h = ground arith
take_all (suc n) (b ∷ t) h = ap (λ s. b ∷ s) (take_all n t (omega (arith, h)))

padded : (t : Text) (k : ℕ) → has_nul t ≡ false → until_nul (t ++ replicate (suc k) 0) ≡ t
padded [] k h = refl
padded (zero ∷ t) k h = ground arith
padded (suc b ∷ t) k h = ground (arith, padded t k)

padded-has_nul : (t : Text) (k : ℕ) → has_nul (t ++ replicate (suc k) 0) ≡ true
padded-has_nul [] k = refl
padded-has_nul (b ∷ t) k = ground (arith, padded-has_nul t k)

room : (n : ℕ) (t : Text) → length t < n → (k : ℕ) × (n - length t ≡ suc k)
room n t h = (n - length t - 1, omega (arith, h))

-- What is filled into a larger buffer is read back, and leaves a terminating zero.
pub until_nul-fill :
    (n : ℕ) (t : Text) → length t < n → has_nul t ≡ false → until_nul (fill n t) ≡ t
until_nul-fill n t h z = let (k, e) = room n t h in rw e (padded t k z)

pub has_nul-fill : (n : ℕ) (t : Text) → length t < n → has_nul (fill n t) ≡ true
has_nul-fill n t h = let (k, e) = room n t h in rw e (padded-has_nul t k)

pub copy_lem : (n : ℕ) (t : Text) → length t < n → has_nul t ≡ false → copy n t ≡ fill n t
copy_lem n t h z = rw (until_nul_lem t z, take_all (n - 1) t (omega (arith, h))) refl

pub length-take : (n : ℕ) (t : Text) → length (take n t) ≤ n
length-take zero t = ground arith
length-take (suc n) [] = ground arith
length-take (suc n) (b ∷ t) = omega (arith, length-take n t)

pub has_nul-take : (n : ℕ) (t : Text) → has_nul t ≡ false → has_nul (take n t) ≡ false
has_nul-take zero t h = refl
has_nul-take (suc n) [] h = refl
has_nul-take (suc n) (b ∷ t) h = ground (arith, has_nul-take n t)

has_nul-append : (s t : Text) → has_nul s ≡ false → has_nul t ≡ false → has_nul (s ++ t) ≡ false
has_nul-append [] t h h' = h'
has_nul-append (b ∷ s) t h h' = ground (arith, has_nul-append s t)

cut_at-le : (d : Text) (n : ℕ) → cut_at d n ≤ n
unfolding cut_at
cut_at-le d zero = ground arith
cut_at-le d (suc n) = ground (arith, cut_at-le d n)

-- The cut stands at the start of a character, or at the start of the text.
cut_at-boundary :
    (d : Text) (n : ℕ) → (cut_at d n ≡ 0) ⊎ (is_continuation (get_or d (cut_at d n) 0) ≡ false)
unfolding cut_at
cut_at-boundary d zero = inl refl
cut_at-boundary d (suc n) = elim (Bool-cases (is_continuation (get_or d (suc n) 0))) [
  | inl h ↦ rw h (cut_at-boundary d n)
  | inr h ↦ rw h (inr h)
]

marked-fits : (n : ℕ) (d : Text) → n ≤ 145 → length (take n d ++ marker) < fault_detail_length
marked-fits n d h = rw (length-append (take n d) marker) (omega (arith, length-take n d, h))

-- A detail without NUL fits its buffer with a terminator, and stays without NUL.
pub detail_for_packet-fits :
    (d : Text)
    → has_nul d ≡ false
    → (length (detail_for_packet d) < fault_detail_length) × (has_nul (detail_for_packet d) ≡ false)
unfolding detail_for_packet
detail_for_packet-fits d z = elim (Bool-cases (leb (length d) 159)) [
  | inl h ↦ rw h (ground (arith, h), z)
  | inr h ↦ rw h (
    marked-fits (cut_at d 145) d (cut_at-le d 145),
    has_nul-append (take (cut_at d 145) d) marker (has_nul-take (cut_at d 145) d z) refl,
  )
]

-- A detail that is too long is cut between two characters, and the marker says so.
pub detail_for_packet-cut :
    (d : Text)
    → fault_detail_length ≤ length d
    → (n : ℕ) × (detail_for_packet d ≡ take n d ++ marker)
      × (n ≤ 145)
      × ((n ≡ 0) ⊎ (is_continuation (get_or d n 0) ≡ false))
unfolding detail_for_packet
detail_for_packet-cut d h =
    let long : leb (length d) 159 ≡ false = ground (arith, h) in
    (cut_at d 145, rw long refl, cut_at-le d 145, cut_at-boundary d 145)

-- What is read of a buffer with a terminator is shorter than the buffer, and without NUL.
pub until_nul-fits :
    (t : Text)
    → has_nul t ≡ true
    → (length (until_nul t) < length t) × (has_nul (until_nul t) ≡ false)
until_nul-fits [] h = ground arith
until_nul-fits (zero ∷ t) h = (ground arith, refl)
until_nul-fits (suc b ∷ t) h =
    let (l, z) = until_nul-fits t (ground (arith, h)) in (omega (arith, l), ground (arith, z))
