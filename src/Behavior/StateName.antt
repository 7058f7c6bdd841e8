-- ===== src/Behavior/StateName.antt =====
-- include/behavior_manager.h: the enum `StateName`.
use humanoid_common.Prelude.{ℕ, ◌≡◌, ◌↔◌, Bool, true, arith, ◌==◌, Option, some, if◌then◌else◌}

pub data StateName : Type 0 where
  power_off damp zero rl safety home trajectory : StateName

-- The value of the enumerator.
abbrev pub index : StateName → ℕ
index power_off = 0
index damp = 1
index zero = 2
index rl = 3
index safety = 4
index home = 5
index trajectory = 6

abbrev pub same_state : StateName → StateName → Bool
same_state a b = index a == index b

pub same_state_iff : (a b : StateName) → (same_state a b ≡ true) ↔ (a ≡ b)
same_state_iff a b = (go a b, λ e. ground (arith, ap_index e))
  where
    ap_index : a ≡ b → index a ≡ index b
    ap_index e = cc

    go : (a b : StateName) → same_state a b ≡ true → a ≡ b
    go a b = ground arith

pub same_state_refl : (a : StateName) → same_state a a ≡ true
same_state_refl a = ground arith

-- `std::map<StateName, ...>`: an entry replaced or added.
abbrev pub put {ℓ} : {A : Type ℓ} → StateName → A → (StateName → Option A) → StateName → Option A
put k v m j = if same_state k j then some v else m j

pub put_self {ℓ} :
    {A : Type ℓ} (k : StateName) (v : A) (m : StateName → Option A) → put k v m k ≡ some v
put_self k v m = rw (same_state_refl k)
