-- ===== src/Behavior/Manager/Faults/Latch.antt =====
-- What a cycle of observation does to the latched fault.
use humanoid_common.Prelude.{
  ◌≡◌, refl, true, false, ◌&&◌, Option, some, none, arith, Option-cases, inl, inr, find_if,
  find_if-passes, find_if-none, find_if-any_of, find_if-fails, find_if-weaken, any_of, sym, ◌∙◌,
}
use humanoid_common.Floats.{Float}
use humanoid_common.RobotBase.{FaultStatus}
use humanoid_common.Behavior.Manager.Defs.{Manager, fault}
use humanoid_common.Behavior.Manager.Faults.Defs.{
  observe, resolve, is_active, is_latched, has_active_root, matches_current,
}

-- An active fault is latched, and a latched one carries the last number given out.
pub record IsSound {F R : Type 0} (m : Manager F R) : Type 0 where
  pub latched_of_active : (fault m).active ≡ true → (fault m).latched ≡ true
  pub numbered : (fault m).latched ≡ true → (fault m).sequence ≡ m.fault_sequence

module _ {F R : Type 0} ⦃f : Float F⦄ where
  pub observe-IsSound :
      (o : Option (FaultStatus F)) (m : Manager F R) → IsSound m → IsSound (observe o m)
  unfolding observe
  observe-IsSound none m v = v
  observe-IsSound (some c) m v = ground arith

  pub observe-fault : (o : Option (FaultStatus F)) (m : Manager F R) → fault (observe o m) ≡ fault m
  unfolding observe
  observe-fault none m = refl
  observe-fault (some c) m = ground arith

  pub resolve-IsSound : (now : F) (m : Manager F R) → IsSound m → IsSound (resolve now m)
  unfolding resolve
  resolve-IsSound now m v = ground arith

  -- An observation cycle releases no latch.
  pub resolve-latched :
      (now : F) (m : Manager F R)
      → (fault m).latched ≡ true
      → (fault (resolve now m)).latched ≡ true
  unfolding resolve
  resolve-latched now m h = ground arith

  root_is_active :
      (m : Manager F R) → has_active_root m ≡ true → any_of is_active m.fault_observations ≡ true
  root_is_active m h =
      elim (Option-cases (find_if (λ c. is_active c && matches_current m c) m.fault_observations)) [
        | inl e ↦ let no_root : false ≡ true = rw (e, has_active_root) at h in cc
        | inr (c, e) ↦ find_if-weaken is_active (matches_current m) m.fault_observations {x = c} e
      ]

  quiet :
      (now : F) (m : Manager F R)
      → IsSound m
      → find_if is_active m.fault_observations ≡ none
      → (fault (resolve now m)).active ≡ false
  unfolding resolve
  quiet now m v e =
      let silent = find_if-none is_active m.fault_observations e in
      elim (Option-cases (find_if is_latched m.fault_observations)) [
        | inl e' ↦ ground (arith, root_is_active m)
        | inr (c, e') ↦ ground (
          arith,
          root_is_active m,
          find_if-fails is_active is_latched m.fault_observations {x = c} silent e',
        )
      ]

  -- After a cycle the fault is active exactly when some observation was active, and then it is latched.
  pub resolve-active :
      (now : F) (m : Manager F R)
      → IsSound m
      → (fault (resolve now m)).active ≡ any_of is_active m.fault_observations
  unfolding resolve
  resolve-active now m v = elim (Option-cases (find_if is_active m.fault_observations)) [
    | inl e ↦ quiet now m v e ∙ sym (find_if-none is_active m.fault_observations e)
    | inr (c, e) ↦ ground (
      arith,
      find_if-any_of is_active m.fault_observations,
      find_if-passes is_active m.fault_observations {x = c} e,
      v.latched_of_active,
    )
  ]
