-- ===== src/Behavior/Manager/Faults/Acknowledge.antt =====
-- What an acknowledgement by the operator clears, and that it lasts.
use humanoid_common.Prelude.{ℕ, ◌≡◌, ◌≢◌, true, false, arith}
use humanoid_common.Floats.{Float}
use humanoid_common.Behavior.StateName.{StateName}
use humanoid_common.Behavior.Manager.Defs.{Manager, fault, in_state}
use humanoid_common.Behavior.Manager.Faults.Defs.{acknowledge}
use humanoid_common.Behavior.Manager.Faults.Latch.{IsSound}

module _ {F R : Type 0} ⦃f : Float F⦄ where
  -- The operator's number is that of the fault, and neither the fault nor its sensor is active.
  pub record MayClear (n : ℕ) (m : Manager F R) : Type 0 where
    pub in_power_off : in_state StateName.power_off m ≡ true
    pub is_named : n ≡ (fault m).sequence
    pub is_number : n ≢ 0
    pub is_quiet : (fault m).active ≡ false
    pub sensor_quiet : m.sensor_fault.active ≡ false

  -- An acknowledgement that releases a latched fault was given in POWER_OFF, by the fault's own number, which
  -- is not 0, and with neither the fault nor its sensor active.
  pub acknowledge_needs :
      (n : ℕ) (m : Manager F R)
      → (fault m).latched ≡ true
      → (fault (acknowledge n m)).latched ≡ false
      → MayClear n m
  unfolding acknowledge
  acknowledge_needs n m l c = ground arith

  pub acknowledge-IsSound : (n : ℕ) (m : Manager F R) → IsSound m → IsSound (acknowledge n m)
  unfolding acknowledge
  acknowledge-IsSound n m v = ground arith
