-- ===== src/Behavior/States/PowerOff.antt =====
-- src/behavior_manager/states/state_power_off.cpp.
use humanoid_common.Prelude.{false, pos, if◌then◌else◌, length}
use humanoid_common.Floats.{Float}
use humanoid_common.RobotBase.ActuationMode
use humanoid_common.Behavior.StateName.{StateName}
use humanoid_common.Behavior.State.{Shared}
use humanoid_common.Behavior.States.Common.{key_is, clear_key, set_output, zeros}

module _ {F : Type 0} ⦃f : Float F⦄ where
  unfoldable pub on_enter : Shared F → Shared F
  on_enter d =
      let ndof = length d.sensor.joint_pos in
      set_output
        (record d.output {
          enable = false;
          actuation_mode = ActuationMode.hybrid;
          target_pos = zeros ndof;
          target_vel = zeros ndof;
          target_torque = zeros ndof;
          kp = zeros ndof;
          kd = zeros ndof;
        })
        d

  unfoldable pub run : Shared F → Shared F
  run d = set_output (record d.output { enable = false }) d

  unfoldable pub check_transition : Shared F → StateName × Shared F
  check_transition d =
      if key_is (pos 1) d then (StateName.damp, clear_key d) else (StateName.power_off, d)
