-- ===== src/Behavior/Manager/Cycle/Defs.antt =====
-- src/behavior_manager/behavior_manager.cpp: `BehaviorManagerClass::Step`, as the stages that it makes
-- one after the other.
unfoldable pub use humanoid_common.Behavior.Manager.Cycle.Before.{
  state_fault, observe_faults, check_running_switch, announce_switch, force, enforce_fault,
  prepare_policy, answer_requests, advance_startup, prepare_startup,
}
unfoldable pub use humanoid_common.Behavior.Manager.Cycle.After.{
  step_fsm, catch_state_fault, leave_rl, schedule_prerequisite, return_from_policy, close_period,
}
use humanoid_common.Prelude.{ℕ, not, Text, if◌then◌else◌}
use humanoid_common.Floats.{Float}
use humanoid_common.RobotBase.{RobotData}
use humanoid_common.Behavior.State.{StateClass}
use humanoid_common.Behavior.Manager.Defs.{Manager, Surroundings, command}
use humanoid_common.Behavior.Manager.Faults.{}
use humanoid_common.Behavior.Manager.Policies.{poll_policy_preparation}

module _ {F R : Type 0} ⦃f : Float F⦄ (policy : StateClass F R) where
  -- The part of a period before the state machine's step, and the part after it.
  unfoldable pub before_step :
      (ℕ → RobotData F → Text) → Surroundings F R → Manager F R → Manager F R
  before_step describe world m = answer_requests policy (
      prepare_policy policy world (
        enforce_fault policy (
          poll_policy_preparation policy world (
            announce_switch policy (
              check_running_switch policy world.now
                (observe_faults policy describe world.now m))))))

  unfoldable pub after_step : F → F → Manager F R → Manager F R
  after_step now control_dt m = close_period policy (
      return_from_policy policy now (
        schedule_prerequisite policy now control_dt
          (leave_rl policy now (catch_state_fault policy now m))))

  -- `BehaviorManagerClass::Step`.
  unfoldable pub step :
      (ℕ → RobotData F → Text) → Surroundings F R → F → F → Manager F R → Manager F R
  step describe world control_dt rl_dt m =
      if not m.initialized
      then m
      else (let ready = before_step describe world m in
          after_step world.now control_dt
            (step_fsm policy control_dt rl_dt (command ready).key (prepare_startup policy ready)))
