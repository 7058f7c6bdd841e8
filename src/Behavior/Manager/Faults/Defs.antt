-- ===== src/Behavior/Manager/Faults/Defs.antt =====
-- src/behavior_manager/behavior_manager.cpp: `EvaluateReportedSensorFault` to `AcknowledgeFault`.
use humanoid_common.Prelude.{
  ℕ, Bool, true, false, ◌&&◌, ◌||◌, not, Option, some, none, List, [], ◌∷◌, ◌++◌, Text, ℤ, pos,
  int_eq, is_empty, ◌==◌, length, if◌then◌else◌, find_if,
}
use humanoid_common.Floats.{Float, nought, all_finite}
use humanoid_common.RobotBase.{RobotData, FaultStatus, no_fault, is_valid}
use humanoid_common.RobotBase.FaultSource
use humanoid_common.RobotBase.FaultCode
use humanoid_common.Behavior.StateName.{StateName}
use humanoid_common.Behavior.States.Common.{at}
use humanoid_common.Behavior.Manager.Defs.{
  Manager, SafetyMonitorConfig, fault, set_fault, in_state, next_u64,
}

module _ {F : Type 0} ⦃f : Float F⦄ where
  abbrev pub sum_of_squares : F → List F → F
  sum_of_squares acc [] = acc
  sum_of_squares acc (x ∷ xs) = sum_of_squares (f.add acc (f.mul x x)) xs

  -- `std::max_element` by magnitude: the first of the largest.
  abbrev pub largest : F → List F → F
  largest best [] = best
  largest best (x ∷ xs) = largest (if f.lt (f.abs best) (f.abs x) then x else best) xs

  -- The test of `EvaluateSafetyMonitorFault` on the shape of the sensor data.
  unfoldable pub base_valid : RobotData F → Bool
  unfolding is_valid
  base_valid s =
      is_valid s
      && (f.is_finite s.time
          && (f.le nought s.time
              && (all_finite s.rpy
                  && (all_finite s.gyro
                      && (all_finite s.acceleration
                          && (all_finite s.base_pos
                              && (all_finite s.base_quat
                                  && (f.lt (f.lit 1 12) (sum_of_squares nought s.base_quat)
                                      && (all_finite s.base_vel
                                          && (all_finite s.joint_pos
                                              && all_finite s.joint_vel))))))))))

  abbrev pub optional_valid : List F → RobotData F → Bool
  optional_valid v s = is_empty v || ((length v == length s.joint_pos) && all_finite v)

  unfoldable pub optional_vectors_valid : RobotData F → Bool
  optional_vectors_valid s =
      optional_valid s.joint_torque s
      && (optional_valid s.joint_temperature s
          && (is_empty s.joint_error || (length s.joint_error == length s.joint_pos)))

  abbrev pub exceeds : F → F → Bool
  exceeds value limit = f.lt nought limit && f.lt limit (f.abs value)

  unfoldable pub attitude_exceeded : SafetyMonitorConfig F → RobotData F → Bool
  attitude_exceeded c s = exceeds (at s.rpy 0) c.max_roll || exceeds (at s.rpy 1) c.max_pitch

  unfoldable pub spin_exceeded : SafetyMonitorConfig F → List F → Bool
  spin_exceeded c [] = false
  spin_exceeded c (x ∷ xs) = exceeds (largest x xs) c.max_angular_velocity

  -- `MakeFault` for the safety monitor, whose `native_code` is the kind of the fault. The text that
  -- describes it, with numbers formatted by the C++ library, is given by `describe`.
  abbrev pub make_fault : (ℕ → RobotData F → Text) → RobotData F → ℤ → ℕ → FaultStatus F
  make_fault describe s code kind = record {
    active = true;
    latched = true;
    source = FaultSource.safety_monitor;
    code = code;
    native_code = pos kind;
    sequence = 0;
    timestamp_s = nought;
    detail = describe kind s;
  }

module _ {F : Type 0} where
  abbrev pub is_active : FaultStatus F → Bool
  is_active c = c.active

  abbrev pub is_latched : FaultStatus F → Bool
  is_latched c = c.latched

  abbrev pub same_origin : FaultStatus F → FaultStatus F → Bool
  same_origin a b =
      (a.source == b.source) && (int_eq a.code b.code && int_eq a.native_code b.native_code)

module _ {F R : Type 0} ⦃f : Float F⦄ where
  -- `IsAcknowledgedSensorFault`.
  abbrev pub is_acknowledged : FaultStatus F → Manager F R → Bool
  is_acknowledged c m =
      not (c.sequence == 0)
      && ((c.sequence == m.acknowledged_sensor_fault_sequence)
          && ((c.source == m.acknowledged_sensor_fault_source)
              && (int_eq c.code m.acknowledged_sensor_fault_code
                  && int_eq c.native_code m.acknowledged_sensor_fault_native_code)))

  abbrev pub clear_acknowledged : Manager F R → Manager F R
  clear_acknowledged m = record m {
    acknowledged_sensor_fault_sequence = 0;
    acknowledged_sensor_fault_source = FaultSource.unset;
    acknowledged_sensor_fault_code = FaultCode.unset;
    acknowledged_sensor_fault_native_code = pos 0;
  }

  -- `EvaluateReportedSensorFault`.
  unfoldable pub evaluate_reported : Manager F R → Option (FaultStatus F) × Manager F R
  evaluate_reported m =
      if m.sensor_fault.active
      then (
        some m.sensor_fault,
        if is_acknowledged m.sensor_fault m then clear_acknowledged m else m,
      )
      else if m.sensor_fault.latched && not (is_acknowledged m.sensor_fault m)
      then (some m.sensor_fault, m)
      else (none, m)

  -- `EvaluateSafetyMonitorFault`.
  unfoldable pub evaluate_safety_monitor :
      (ℕ → RobotData F → Text) → Manager F R → Option (FaultStatus F)
  evaluate_safety_monitor describe m =
      let s = m.fsm.shared.sensor in
      let c = m.settings.safety_monitor in
      if not (base_valid s) || not (optional_vectors_valid s)
      then some (make_fault describe s FaultCode.invalid_data 1)
      else if in_state StateName.power_off m || m.settings.fixed_base
      then none
      else if attitude_exceeded c s
      then some (make_fault describe s FaultCode.limit_exceeded 2)
      else if spin_exceeded c s.gyro
      then some (make_fault describe s FaultCode.limit_exceeded 3)
      else none

  -- `ObserveFault`.
  unfoldable pub observe : Option (FaultStatus F) → Manager F R → Manager F R
  observe none m = m
  observe (some c) m =
      if c.active || c.latched
      then record m { fault_observations = m.fault_observations ++ c ∷ [] }
      else m

  -- `MatchesCurrentFault`.
  abbrev pub matches_current : Manager F R → FaultStatus F → Bool
  matches_current m c =
      (fault m).latched
      && (((fault m).source == c.source)
          && (int_eq (fault m).code c.code
              && (int_eq (fault m).native_code c.native_code
                  && (m.observed_fault_sequence == c.sequence))))

  -- `LatchFault`, at the time `now`.
  unfoldable pub latch : F → FaultStatus F → Manager F R → Manager F R
  latch now c m =
      let sequence = next_u64 m.fault_sequence in
      set_fault (record c { latched = true; sequence = sequence; timestamp_s = now })
        (record m { observed_fault_sequence = c.sequence; fault_sequence = sequence })

  abbrev pub has_active_root : Manager F R → Bool
  has_active_root m =
      elim (find_if (λ c. is_active c && matches_current m c) m.fault_observations) [
        | none ↦ false
        | some c ↦ true
      ]

  -- `ResolveObservedFaults`.
  unfoldable pub resolve : F → Manager F R → Manager F R
  unfolding latch
  resolve now m =
      if (fault m).latched && ((fault m).active && has_active_root m)
      then m
      else elim (find_if is_active m.fault_observations) [
        | some c ↦ latch now c m
        | none ↦
            if (fault m).latched
            then set_fault (record (fault m) { active = false }) m
            else elim (find_if is_latched m.fault_observations) [
              | some c ↦ latch now c m
              | none ↦ m
            ]
      ]

  -- `Impl::AcknowledgeFault`.
  abbrev pub remember_acknowledged : Manager F R → Manager F R
  remember_acknowledged m =
      if m.sensor_fault.latched
        && (not m.sensor_fault.active
            && (same_origin m.sensor_fault (fault m)
                && (m.sensor_fault.sequence == m.observed_fault_sequence)))
      then record m {
        acknowledged_sensor_fault_sequence = m.sensor_fault.sequence;
        acknowledged_sensor_fault_source = m.sensor_fault.source;
        acknowledged_sensor_fault_code = m.sensor_fault.code;
        acknowledged_sensor_fault_native_code = m.sensor_fault.native_code;
      }
      else m

  unfoldable pub acknowledge_impl : ℕ → Manager F R → Manager F R
  acknowledge_impl sequence m =
      if not (fault m).latched || not (in_state StateName.power_off m)
      then m
      else if (sequence == 0) || not (sequence == (fault m).sequence)
      then m
      else if (fault m).active || m.sensor_fault.active
      then m
      else (let r = remember_acknowledged m in
          set_fault no_fault
            (record r { observed_fault_sequence = 0; fault_block_reported = false }))

  -- `BehaviorManagerClass::AcknowledgeFault`.
  unfoldable pub acknowledge : ℕ → Manager F R → Manager F R
  unfolding acknowledge_impl
  acknowledge sequence m =
      if sequence == 0
      then record m { previous_fault_ack_sequence = 0 }
      else if not (
            (fault m).latched
            && (in_state StateName.power_off m
                && (not (fault m).active && not m.sensor_fault.active)))
          || (sequence == m.previous_fault_ack_sequence)
      then m
      else acknowledge_impl sequence (record m { previous_fault_ack_sequence = sequence })
