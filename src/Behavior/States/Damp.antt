-- ===== src/Behavior/States/Damp.antt =====
-- src/behavior_manager/states/state_damp.cpp.
use humanoid_common.Prelude.{true, List, pos, negsuc, if◌then◌else◌, length, is_empty, replicate}
use humanoid_common.Floats.{Float}
use humanoid_common.RobotBase.ActuationMode
use humanoid_common.Behavior.StateName.{StateName}
use humanoid_common.Behavior.State.{Shared}
use humanoid_common.Behavior.States.Common.{key_is, clear_key, set_output, zeros}

pub record DampState (F : Type 0) : Type 0 where
  pub damp_kd : List F

module _ {F : Type 0} ⦃f : Float F⦄ where
  unfoldable pub on_enter : DampState F → Shared F → Shared F
  on_enter s d =
      let ndof = length d.sensor.joint_pos in
      set_output
        (record d.output {
          actuation_mode = ActuationMode.hybrid;
          kp = zeros ndof;
          kd = if is_empty s.damp_kd then replicate ndof (f.lit 2 0) else s.damp_kd;
          target_pos = d.sensor.joint_pos;
          target_vel = zeros ndof;
          target_torque = zeros ndof;
          enable = true;
        })
        d

  unfoldable pub run : DampState F → Shared F → Shared F
  run s d = set_output (record d.output { enable = true }) d

  unfoldable pub check_transition : DampState F → Shared F → StateName × Shared F
  check_transition s d =
      if key_is (pos 4) d
      then (StateName.home, clear_key d)
      else if key_is (negsuc 0) d
      then (StateName.power_off, clear_key d)
      else (StateName.damp, d)
