-- ===== src/Behavior/States/Safety.antt =====
-- src/behavior_manager/states/state_safety.cpp.
pub mod Release
use humanoid_common.Prelude.{
  Bool, true, false, not, ◌&&◌, List, map, int_eq, ltb, ◌==◌, if◌then◌else◌, length, all_of,
}
use humanoid_common.Floats.{Float, nought, one, all_finite}
use humanoid_common.RobotBase.{FaultStatus}
use humanoid_common.RobotBase.ActuationMode
use humanoid_common.Behavior.StateName.{StateName}
use humanoid_common.Behavior.State.{Shared}
use humanoid_common.Behavior.States.Common.{set_output, zeros}
use humanoid_common.RobotBase.FaultSource
use humanoid_common.RobotBase.FaultCode

pub record SafetyState (F : Type 0) : Type 0 where
  pub release_duration : F
  pub timer : F
  pub finished : Bool
  pub can_ramp : Bool
  pub hold_pos : List F
  pub kp_init : List F
  pub kd_init : List F

module _ {F : Type 0} ⦃f : Float F⦄ where
  abbrev pub finite_nonnegative : List F → Bool
  finite_nonnegative values = all_of (λ v. f.is_finite v && f.le nought v) values

  -- The faults under which the joints may be let go slowly.
  unfoldable pub allows_controlled_release : FaultStatus F → Bool
  allows_controlled_release fault =
      if not fault.active
      then false
      else if fault.source == FaultSource.policy
      then true
      else (fault.source == FaultSource.safety_monitor)
        && int_eq fault.code FaultCode.limit_exceeded

  -- The test at entry: the output in force has to be enabled and sound.
  unfoldable pub may_ramp : Shared F → Bool
  unfolding allows_controlled_release
  may_ramp d =
      let num_dof = length d.sensor.joint_pos in
      d.output.enable
      && (allows_controlled_release d.fault
          && (ltb 0 num_dof
              && (all_finite d.sensor.joint_pos
                  && ((length d.output.kp == num_dof)
                      && ((length d.output.kd == num_dof)
                          && (finite_nonnegative d.output.kp && finite_nonnegative d.output.kd))))))

  unfoldable pub on_enter : SafetyState F → Shared F → SafetyState F × Shared F
  on_enter s d =
      let num_dof = length d.sensor.joint_pos in
      let ramp = may_ramp d in
      let hold = if ramp then d.sensor.joint_pos else zeros num_dof in
      let held = record d.output {
        actuation_mode = ActuationMode.hybrid;
        target_pos = hold;
        target_vel = zeros num_dof;
        target_torque = zeros num_dof;
      } in
      (
        record s {
          timer = nought;
          finished = false;
          can_ramp = ramp;
          hold_pos = hold;
          kp_init = if ramp then d.output.kp else zeros num_dof;
          kd_init = if ramp then d.output.kd else zeros num_dof;
        },
        set_output
            (if ramp
              then held
              else record held { kp = zeros num_dof; kd = zeros num_dof; enable = false })
            d,
      )

  unfoldable pub run : F → SafetyState F → Shared F → SafetyState F × Shared F
  run control_dt s d =
      let timer = f.add s.timer control_dt in
      let n = length s.hold_pos in
      if s.can_ramp && f.lt timer s.release_duration
      then (let ratio = f.sub one (f.div timer s.release_duration) in
          (
            record s { timer = timer },
            set_output
                (record d.output {
                  enable = true;
                  target_pos = s.hold_pos;
                  target_vel = zeros n;
                  kp = map (λ v. f.mul v ratio) s.kp_init;
                  kd = map (λ v. f.mul v ratio) s.kd_init;
                })
                d,
          ))
      else (
        record s { timer = timer; finished = true },
        set_output
            (record d.output {
              enable = false;
              target_pos = s.hold_pos;
              target_vel = zeros n;
              target_torque = zeros n;
              kp = zeros n;
              kd = zeros n;
            })
            d,
      )

  unfoldable pub check_transition : SafetyState F → Shared F → StateName × Shared F
  check_transition s d = (if s.finished then StateName.power_off else StateName.safety, d)
