-- ===== src/Behavior/Tests/Cycle.antt =====
-- The behaviour manager's theorems on the small robot of Fixtures.antt.
use humanoid_common.Prelude.{ok, false, ℕ, ◌≡◌, ◌⊎◌, refl, Bool, true, [], Text, text_eq}
use humanoid_common.Floats.{Milli, milli}
use humanoid_common.RobotBase.{RobotData, is_valid}
use humanoid_common.Behavior.StateName.{StateName}
use humanoid_common.Behavior.Fsm
use humanoid_common.Behavior.States.Object
use humanoid_common.Behavior.States.Safety
use humanoid_common.Behavior.States.Object.{state_class, name_of, state_class-KeepsNames, rl_state}
use humanoid_common.Behavior.Manager.Defs.{Manager, fault, current_state}
use humanoid_common.Behavior.Manager.Faults
use humanoid_common.Behavior.Manager.Policies
use humanoid_common.Behavior.Manager.Cycle
use humanoid_common.Behavior.Manager.Cycle.{step}
use humanoid_common.Behavior.Manager.Cycle.Enforce.{Guarded}
use humanoid_common.Behavior.Manager.Cycle.Safety.{latched_fault_is_safe}
use humanoid_common.Behavior.Manager.Cycle.Running.{IsGuarded}
use humanoid_common.Behavior.Manager.Cycle.Periods.{step-Guarded}
use humanoid_common.Behavior.Manager.Requests.Defs.{init}
use humanoid_common.Behavior.Manager.Requests.Starting.{init-IsGuarded}
use humanoid_common.Behavior.Fixtures.{
  all_states-AllNamed, machine, number, idle_policy, idle_policy-Keeps, machine-IsRunning,
  sensor_fault, manager, quiet_world,
}

abbrev no_text : ℕ → RobotData Milli → Text
no_text kind s = []

-- The policy runs and a motor reports a fault.
abbrev faulty : Manager Milli Bool
faulty = record (manager StateName.rl) { sensor_fault = sensor_fault }

faulty-IsGuarded : IsGuarded faulty.fsm
faulty-IsGuarded = record { running = machine-IsRunning StateName.rl refl; has_safety = refl }

faulty-latched :
    (fault (step idle_policy no_text quiet_world (number 1) (number 1) faulty)).latched ≡ true
unfolding step Cycle.before_step Cycle.after_step Cycle.observe_faults Cycle.check_running_switch
    Cycle.announce_switch Cycle.enforce_fault Cycle.prepare_policy Cycle.answer_requests
    Cycle.prepare_startup Cycle.step_fsm Cycle.catch_state_fault Cycle.leave_rl
    Cycle.schedule_prerequisite Cycle.return_from_policy Cycle.close_period Faults.evaluate_reported
    Faults.evaluate_safety_monitor Faults.base_valid Faults.optional_vectors_valid
    Faults.attitude_exceeded Faults.spin_exceeded Faults.observe Faults.resolve Faults.latch
    Policies.poll_policy_preparation Policies.start_policy_preparation Policies.finish_policy_action
    Fsm.request_policy_switch Fsm.on_current Fsm.current_fault Fsm.step Fsm.next_state Fsm.switch_to
    Fsm.force_switch Fsm.policy_finished Object.on_enter Object.on_exit Object.run
    Object.check_transition Object.request_policy_switch Safety.on_enter Safety.run
    Safety.check_transition Safety.allows_controlled_release Safety.may_ramp text_eq is_valid
faulty-latched = refl

-- A motor fault in RL: the robot ends the period in SAFETY or in POWER_OFF.
latched_fault_is_safe_example :
    (current_state (step idle_policy no_text quiet_world (number 1) (number 1) faulty)
      ≡ StateName.power_off)
    ⊎ (current_state (step idle_policy no_text quiet_world (number 1) (number 1) faulty)
        ≡ StateName.safety)
latched_fault_is_safe_example =
    latched_fault_is_safe idle_policy idle_policy-Keeps no_text quiet_world (number 1) (number 1)
      faulty refl faulty-IsGuarded faulty-latched

step-Guarded_example : Guarded (step idle_policy no_text quiet_world (number 1) (number 1) faulty)
step-Guarded_example =
    step-Guarded idle_policy idle_policy-Keeps no_text quiet_world (number 1) (number 1) faulty
      faulty-IsGuarded

abbrev fresh : Manager Milli Bool
fresh = record (manager StateName.power_off) {
  fsm = record (machine StateName.power_off) { started = false };
  initialized = false;
}

init-IsGuarded_example :
    (m' : Manager Milli Bool) × (init idle_policy fresh ≡ ok m')
    × IsGuarded m'.fsm
    × (m'.initialized ≡ true)
    × (current_state m' ≡ StateName.power_off)
init-IsGuarded_example = init-IsGuarded idle_policy fresh all_states-AllNamed refl refl
