-- ===== src/Behavior/Manager/Cycle/Frame.antt =====
-- Which parts of a period leave the state machine alone, and that it runs through all of them.
use humanoid_common.Prelude.{◌≡◌, refl, Option, some, none, arith}
use humanoid_common.Floats.{Float}
use humanoid_common.RobotBase.{FaultStatus}
use humanoid_common.Behavior.State.{StateClass}
use humanoid_common.Behavior.Manager.Defs.{Manager, Surroundings, fault}
use humanoid_common.Behavior.Manager.Faults.Defs.{observe, resolve}
use humanoid_common.Behavior.Manager.Policies.{
  finish_policy_action, start_action_handoff, start_policy_preparation,
}
use humanoid_common.Behavior.Manager.Cycle.Defs.{
  check_running_switch, prepare_policy, answer_requests, leave_rl, schedule_prerequisite,
  return_from_policy, close_period,
}

-- Up to the shared data it is the same state machine.
abbrev pub SameMachine : {F R : Type 0} → Manager F R → Manager F R → Type 0
SameMachine m' m = m'.fsm ≡ record m.fsm { shared = m'.fsm.shared }

module _ {F R : Type 0} ⦃f : Float F⦄ where
  pub resolve-SameMachine : (now : F) (m : Manager F R) → SameMachine (resolve now m) m
  unfolding resolve
  resolve-SameMachine now m = ground arith

  pub observe-SameMachine :
      (o : Option (FaultStatus F)) (m : Manager F R) → (observe o m).fsm ≡ m.fsm
  unfolding observe
  observe-SameMachine none m = refl
  observe-SameMachine (some c) m = ground arith

module _ {F R : Type 0} ⦃f : Float F⦄ (policy : StateClass F R) where
  pub check_running_switch-fsm :
      (now : F) (m : Manager F R) → (check_running_switch policy now m).fsm ≡ m.fsm
  unfolding check_running_switch finish_policy_action
  check_running_switch-fsm now m = ground arith

  pub prepare_policy-fsm :
      (world : Surroundings F R) (m : Manager F R) → (prepare_policy policy world m).fsm ≡ m.fsm
  unfolding prepare_policy finish_policy_action start_policy_preparation
  prepare_policy-fsm world m = ground arith

  pub answer_requests-SameMachine : (m : Manager F R) → SameMachine (answer_requests policy m) m
  unfolding answer_requests
  answer_requests-SameMachine m = ground arith

  pub leave_rl-fsm : (now : F) (m : Manager F R) → (leave_rl policy now m).fsm ≡ m.fsm
  unfolding leave_rl finish_policy_action
  leave_rl-fsm now m = ground arith

  pub schedule_prerequisite-fsm :
      (now dt : F) (m : Manager F R) → (schedule_prerequisite policy now dt m).fsm ≡ m.fsm
  unfolding schedule_prerequisite
  schedule_prerequisite-fsm now dt m = ground arith

  pub close_period-fsm : (m : Manager F R) → (close_period policy m).fsm ≡ m.fsm
  unfolding close_period
  close_period-fsm m = ground arith

  pub return_from_policy-SameMachine :
      (now : F) (m : Manager F R) → SameMachine (return_from_policy policy now m) m
  unfolding return_from_policy start_action_handoff
  return_from_policy-SameMachine now m = ground arith

  pub return_from_policy-fault :
      (now : F) (m : Manager F R) → fault (return_from_policy policy now m) ≡ fault m
  unfolding return_from_policy start_action_handoff
  return_from_policy-fault now m = ground arith

  pub answer_requests-fault : (m : Manager F R) → fault (answer_requests policy m) ≡ fault m
  unfolding answer_requests
  answer_requests-fault m = ground arith
