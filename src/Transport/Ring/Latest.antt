-- ===== src/Transport/Ring/Latest.antt =====
-- What a reader gets after the writer has written a number of times.
use humanoid_common.Prelude.{
  ℕ, zero, suc, ◌+◌, ◌-◌, ◌%◌, ◌≤◌, ◌<◌, ◌≡◌, ◌≢◌, ◌⊎◌, inl, inr, refl, sym, ap, ◌∙◌, subst, true,
  false, some, none, List, [], ◌∷◌, ◌++◌, Text, ltb, ◌==◌, min, length, take, get_or, arith,
  Bool-cases, Option-cases,
}
use native.Mathlib.Nat.{mod-add-mod, mod-lt, mod-eq_of_lt, mod-eq-sub-mod, mod_self, add-mod_right}
use humanoid_common.Transport.Ring.Defs.{
  reader, Endpoint, Channel, overwrite, set_at, slot_at, attach, write, read, write_all,
}

pub record IsSound (c : Channel) : Type 0 where
  pub index_below : c.write_index < c.capacity
  pub all_slots : length c.slots ≡ c.capacity

abbrev pub open_reader : Endpoint
open_reader = record { is_open = true; role = reader }

length-set_at : (i : ℕ) (x : Text) (ys : List Text) → length (set_at i x ys) ≡ length ys
length-set_at zero x [] = refl
length-set_at (suc i) x [] = refl
length-set_at zero x (y ∷ ys) = refl
length-set_at (suc i) x (y ∷ ys) = ap suc (length-set_at i x ys)

get_or-set_at :
    (i : ℕ) (x : Text) (ys : List Text) → i < length ys → get_or (set_at i x ys) i [] ≡ x
get_or-set_at zero x [] h = ground arith
get_or-set_at (suc i) x [] h = ground arith
get_or-set_at zero x (y ∷ ys) h = refl
get_or-set_at (suc i) x (y ∷ ys) h = get_or-set_at i x ys (omega (arith, h))

-- The channel after a write that is not refused.
write_lem :
    (e : Endpoint) (d : Text) (c c' : Channel)
    → write e d c ≡ some c'
    → c' ≡ record c {
      slots = set_at c.write_index (overwrite d (slot_at c.write_index c)) c.slots;
      write_index = (c.write_index + 1) % c.capacity;
    }
unfolding write
write_lem e d c c' h = ground (arith, h)

write-IsSound :
    (e : Endpoint) (d : Text) (c c' : Channel) → IsSound c → write e d c ≡ some c' → IsSound c'
write-IsSound e d c c' v h = rw (write_lem e d c c' h) (record {
  index_below = mod-lt (c.write_index + 1) (omega (arith, v.index_below));
  all_slots = length-set_at c.write_index _ c.slots ∙ v.all_slots;
})

-- The step of the index, without a remainder.
next_index :
    (w n : ℕ) → w < n → (((w + 1) % n ≡ w + 1) × (w + 1 < n)) ⊎ (((w + 1) % n ≡ 0) × (w + 1 ≡ n))
next_index w n h = elim (Bool-cases (ltb (w + 1) n)) [
  | inl e ↦ let l : w + 1 < n = ground (arith, e) in inl (mod-eq_of_lt l, l)
  | inr e ↦
      let q : w + 1 ≡ n = ground (arith, e, h) in
      inr (subst (λ k. (w + 1) % k ≡ 0) q (mod_self (w + 1)), q)
]

-- Writing moves the index on by the number of writes, around the ring, and changes neither the size of the
-- ring nor the reader's index.
write_all-index :
    (e : Endpoint) (ds : List Text) (c c' : Channel)
    → IsSound c
    → write_all e ds c ≡ some c'
    → (c'.write_index ≡ (c.write_index + length ds) % c.capacity)
      × (c'.capacity ≡ c.capacity)
      × (c'.read_index ≡ c.read_index)
      × IsSound c'
unfolding write_all
write_all-index e [] c c' v h =
    let same : c ≡ c' = ground (arith, h) in
    subst
      (λ q.
        (q.write_index ≡ (c.write_index + 0) % c.capacity)
        × (q.capacity ≡ c.capacity)
        × (q.read_index ≡ c.read_index)
        × IsSound q)
      same (sym (ap (λ k. k % c.capacity) plus_none ∙ mod-eq_of_lt v.index_below), refl, refl, v)
  where
    plus_none : c.write_index + 0 ≡ c.write_index
    plus_none = omega arith
write_all-index e (d ∷ ds) c c' v h = elim (Option-cases (write e d c)) [
  | inl q ↦
      let h' : none ≡ some c' =
        subst (λ o. (elim o [ none ↦ none | some x ↦ write_all e ds x ]) ≡ some c') q h in
      cc
  | inr (c1, q) ↦
      let h' : write_all e ds c1 ≡ some c' =
        subst (λ o. (elim o [ none ↦ none | some x ↦ write_all e ds x ]) ≡ some c') q h in
      let (i, k, r, v') = write_all-index e ds c1 c' (write-IsSound e d c c1 v q) h' in
      let l = write_lem e d c c1 q in
      let index : c1.write_index ≡ (c.write_index + 1) % c.capacity = ap (λ x. x.write_index) l in
      let cap : c1.capacity ≡ c.capacity = ap (λ x. x.capacity) l in
      let one_more : c.write_index + 1 + length ds ≡ c.write_index + length (d ∷ ds) =
        omega arith in
      (
        i
            ∙ ap (λ x. (c1.write_index + length ds) % x) cap
            ∙ ap (λ x. (x + length ds) % c.capacity) index
            ∙ mod-add-mod (c.write_index + 1) c.capacity (length ds)
            ∙ ap (λ x. x % c.capacity) one_more,
        k ∙ cap,
        r ∙ ap (λ x. x.read_index) l,
        v',
      )
]

-- A reader that has read everything sees nothing new after as many writes as the ring has slots: the indices
-- meet again, and the newest data is not returned.
pub full_lap_is_unseen :
    (e : Endpoint) (ds : List Text) (max_len : ℕ) (c c' : Channel)
    → IsSound c
    → c.read_index ≡ c.write_index
    → length ds ≡ c.capacity
    → write_all e ds c ≡ some c'
    → read open_reader max_len c' ≡ none
unfolding read
full_lap_is_unseen e ds max_len c c' v r n h =
    let (i, k, r', v') = write_all-index e ds c c' v h in
    let back : c'.write_index ≡ c.write_index =
      i
      ∙ ap (λ x. (c.write_index + x) % c.capacity) n
      ∙ add-mod_right c.write_index c.capacity
      ∙ mod-eq_of_lt v.index_below in
    let met : c'.read_index ≡ c'.write_index = r' ∙ r ∙ sym back in ground (arith, met)

-- Fewer steps than the ring has slots do not lead back.
moved_on : (w n cap : ℕ) → w < cap → 0 < n → n < cap → (w + n) % cap ≢ w
moved_on w n cap a b l = elim (Bool-cases (ltb (w + n) cap)) [
  | inl e ↦
      let q : (w + n) % cap ≡ w + n = mod-eq_of_lt (ground (arith, e)) in
      λ p. omega (arith, p, q, b)
  | inr e ↦
      let over : cap ≤ w + n = ground (arith, e) in
      let q : (w + n) % cap ≡ w + n - cap =
        mod-eq-sub-mod over ∙ mod-eq_of_lt (omega (arith, over, a, l)) in
      λ p. omega (arith, p, q, l, over)
]

take_start : (d x : Text) (k : ℕ) → length d ≤ k → take (length d) (take k (d ++ x)) ≡ d
take_start [] x k h = refl
take_start (b ∷ d) x zero h = ground arith
take_start (b ∷ d) x (suc k) h = ap (λ t. b ∷ t) (take_start d x k (omega (arith, h)))

fits_slot :
    (e : Endpoint) (d : Text) (c c' : Channel) → write e d c ≡ some c' → length d ≤ c.slot_size
unfolding write
fits_slot e d c c' h = ground (arith, h)

-- What a read returns of the slot before the writer's index.
read_lem :
    (max_len w : ℕ) (c : Channel)
    → c.read_index ≢ c.write_index
    → ((c.write_index ≡ w + 1) ⊎ ((c.write_index ≡ 0) × (w + 1 ≡ c.capacity)))
    → read open_reader max_len c
      ≡ some (take (min max_len c.slot_size) (slot_at w c), record c { read_index = c.write_index })
unfolding read
read_lem max_len w c n (inl q) =
    let unequal : (c.read_index == c.write_index) ≡ false = ground (arith, n) in
    let positive : (c.write_index == 0) ≡ false = ground (arith, q) in
    let place : c.write_index - 1 ≡ w = omega (arith, q) in rw (unequal, positive, place) refl
read_lem max_len w c n (inr (q, k)) =
    let unequal : (c.read_index == c.write_index) ≡ false = ground (arith, n) in
    let at_start : (c.write_index == 0) ≡ true = ground (arith, q) in
    let place : c.capacity - 1 ≡ w = omega (arith, k) in rw (unequal, at_start, place) refl

-- The slot before the index that a write leaves holds what it wrote.
written_slot :
    (e : Endpoint) (d : Text) (c c' : Channel)
    → IsSound c
    → write e d c ≡ some c'
    → slot_at c.write_index c' ≡ overwrite d (slot_at c.write_index c)
written_slot e d c c' v h =
    subst (λ q. slot_at c.write_index q ≡ overwrite d (slot_at c.write_index c))
      (sym (write_lem e d c c' h))
      (get_or-set_at c.write_index (overwrite d (slot_at c.write_index c)) c.slots
        (subst (λ n. c.write_index < n) (sym v.all_slots) v.index_below))

after_write :
    (e : Endpoint) (d : Text) (c c' : Channel)
    → IsSound c
    → write e d c ≡ some c'
    → ((c'.write_index ≡ c.write_index + 1)
        ⊎ ((c'.write_index ≡ 0) × (c.write_index + 1 ≡ c'.capacity)))
after_write e d c c' v h =
    let l = write_lem e d c c' h in
    let index : c'.write_index ≡ (c.write_index + 1) % c.capacity = ap (λ x. x.write_index) l in
    let cap : c'.capacity ≡ c.capacity = ap (λ x. x.capacity) l in
    elim (next_index c.write_index c.capacity v.index_below) [
      | inl (q, _) ↦ inl (index ∙ q)
      | inr (q, k) ↦ inr (index ∙ q, k ∙ sym cap)
    ]

-- A reader that has read everything and is not lapped gets the newest data: after fewer writes than the ring
-- has slots, a read into a buffer that is long enough starts with the bytes written last.
pub newest_is_read :
    (e : Endpoint) (ds : List Text) (d : Text) (max_len : ℕ) (c c1 c2 : Channel)
    → IsSound c
    → c.read_index ≡ c.write_index
    → length ds + 1 < c.capacity
    → length d ≤ max_len
    → write_all e ds c ≡ some c1
    → write e d c1 ≡ some c2
    → (r : Text) × (read open_reader max_len c2
        ≡ some (r, record c2 { read_index = c2.write_index }))
      × (take (length d) r ≡ d)
newest_is_read e ds d max_len c c1 c2 v r n b h h2 =
    let (i, k, r', v1) = write_all-index e ds c c1 v h in
    let l = write_lem e d c1 c2 h2 in
    let index : c2.write_index ≡ (c.write_index + (length ds + 1)) % c.capacity =
      ap (λ x. x.write_index) l
      ∙ ap (λ x. (c1.write_index + 1) % x) k
      ∙ ap (λ x. (x + 1) % c.capacity) i
      ∙ mod-add-mod (c.write_index + length ds) c.capacity 1
      ∙ ap (λ x. x % c.capacity) (omega arith) in
    let moved = moved_on c.write_index (length ds + 1) c.capacity v.index_below (omega arith) n in
    let kept : c2.read_index ≡ c.write_index = ap (λ x. x.read_index) l ∙ r' ∙ r in
    let unread : c2.read_index ≢ c2.write_index = λ p. moved (sym index ∙ sym p ∙ kept) in
    let size : c2.slot_size ≡ c1.slot_size = ap (λ x. x.slot_size) l in
    let fits : length d ≤ min max_len c2.slot_size =
      ground (arith, b, size, fits_slot e d c1 c2 h2) in
    (
      take (min max_len c2.slot_size) (slot_at c1.write_index c2),
      read_lem max_len c1.write_index c2 unread (after_write e d c1 c2 v1 h2),
      subst (λ t. take (length d) (take (min max_len c2.slot_size) t) ≡ d)
          (sym (written_slot e d c1 c2 v1 h2)) (take_start d _ (min max_len c2.slot_size) fits),
    )

-- A reader that attaches to a channel in use gets nothing before the next write, whatever was written before.
attached_reads_nothing :
    (capacity slot_size max_len : ℕ) (c c' : Channel)
    → attach reader capacity slot_size c ≡ some c'
    → read open_reader max_len c' ≡ none
unfolding attach read
attached_reads_nothing capacity slot_size max_len c c' h = ground (arith, h)
