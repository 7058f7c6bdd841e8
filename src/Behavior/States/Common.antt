-- ===== src/Behavior/States/Common.antt =====
-- What the states share: the answer to a key, and arithmetic on joint vectors.
use humanoid_common.Prelude.{ℕ, Bool, List, ℤ, pos, int_eq, replicate, get_or}
use humanoid_common.Floats.{Float, nought}
use humanoid_common.Behavior.State.{ControlOutput, Shared}

module _ {F : Type 0} where
  -- `command_->key == k`.
  abbrev pub key_is : ℤ → Shared F → Bool
  key_is k d = int_eq d.command.key k

  -- `command_->key = 0`.
  abbrev pub clear_key : Shared F → Shared F
  clear_key d = record d { command = record d.command { key = pos 0 } }

  abbrev pub set_output : ControlOutput F → Shared F → Shared F
  set_output o d = record d { output = o }

module _ {F : Type 0} ⦃f : Float F⦄ where
  -- `v[i]` where the source keeps `i` in range.
  abbrev pub at : List F → ℕ → F
  at xs i = get_or xs i nought

  abbrev pub zeros : ℕ → List F
  zeros n = replicate n nought
