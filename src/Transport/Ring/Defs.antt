-- ===== src/Transport/Ring/Defs.antt =====
-- src/transport/shm/shm_transport.cpp: `Init` from the mapped header on, `Write` and `Read`. A slot is the list
-- of its bytes, so that the offset `index * slot_size` is the place of a slot in the list.
use humanoid_common.Prelude.{
  ℕ, zero, suc, ◌+◌, ◌-◌, ◌%◌, Bool, true, false, ◌||◌, not, Option, some, none, List, [], ◌∷◌,
  ◌++◌, Text, ltb, leb, ◌==◌, min, length, take, get_or, if◌then◌else◌,
}

pub data Role : Type 0 where
  writer : Role
  reader : Role

abbrev pub is_writer : Role → Bool
is_writer writer = true
is_writer reader = false

-- One end of the channel, and the header with its slots, which both ends map.
pub record Endpoint : Type 0 where
  pub is_open : Bool
  pub role : Role

pub record Channel : Type 0 where
  pub write_index : ℕ
  pub read_index : ℕ
  pub capacity : ℕ
  pub slot_size : ℕ
  pub slots : List Text

abbrev pub drop : ℕ → Text → Text
drop zero t = t
drop (suc n) [] = []
drop (suc n) (b ∷ t) = drop n t

abbrev pub set_at : ℕ → Text → List Text → List Text
set_at i x [] = []
set_at zero x (y ∷ ys) = x ∷ ys
set_at (suc i) x (y ∷ ys) = y ∷ set_at i x ys

-- `memcpy` of the data over the bytes that the slot holds.
abbrev pub overwrite : Text → Text → Text
overwrite data_bytes slot = data_bytes ++ drop (length data_bytes) slot

abbrev pub slot_at : ℕ → Channel → Text
slot_at i c = get_or c.slots i []

-- `Init`, once the memory is mapped.
unfoldable pub attach : Role → ℕ → ℕ → Channel → Option Channel
attach role capacity slot_size c =
    if is_writer role || (c.capacity == 0)
    then some
        (record c { write_index = 0; read_index = 0; capacity = capacity; slot_size = slot_size })
    else if not (c.capacity == capacity) || not (c.slot_size == slot_size)
    then none
    else if leb c.capacity c.write_index
    then none
    else some (record c { read_index = c.write_index })

-- `Write`.
unfoldable pub write : Endpoint → Text → Channel → Option Channel
write e data_bytes c =
    if not e.is_open || not (is_writer e.role)
    then none
    else if ltb c.slot_size (length data_bytes)
    then none
    else some (record c {
      slots = set_at c.write_index (overwrite data_bytes (slot_at c.write_index c)) c.slots;
      write_index = (c.write_index + 1) % c.capacity;
    })

-- `Read`: the newest slot, if the indices differ.
unfoldable pub read : Endpoint → ℕ → Channel → Option (Text × Channel)
read e max_len c =
    if not e.is_open || is_writer e.role
    then none
    else if c.read_index == c.write_index
    then none
    else (let latest = if c.write_index == 0 then c.capacity - 1 else c.write_index - 1 in
        some (
          take (min max_len c.slot_size) (slot_at latest c),
          record c { read_index = c.write_index },
        ))

-- The writer's calls one after the other.
unfoldable pub write_all : Endpoint → List Text → Channel → Option Channel
write_all e [] c = some c
write_all e (d ∷ ds) c = elim (write e d c) [ none ↦ none | some c' ↦ write_all e ds c' ]
