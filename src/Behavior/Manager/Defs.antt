-- ===== src/Behavior/Manager/Defs.antt =====
-- src/behavior_manager/behavior_manager.cpp: the data of `BehaviorManagerClass::Impl`. The pieces that
-- `LoadConfig` reads once are the record `Settings`. `fsm.shared.fault` is the field `fault`, which the
-- safety state points to.
use humanoid_common.Prelude.{ℕ, ◌+◌, ◌%◌, ◌^◌, Bool, Option, List, Text, Dict, ℤ, Result}
use humanoid_common.RobotBase.{Command, FaultStatus, InteractionStatus, PolicySwitchStatus}
use humanoid_common.Behavior.StateName.{StateName, same_state}
use humanoid_common.Behavior.Fsm.Defs.{Fsm}
use humanoid_common.Behavior.States.Object.{StateObject}
use humanoid_common.Behavior.States.Zero.{ZeroState}

pub record SafetyMonitorConfig (F : Type 0) : Type 0 where
  pub max_roll : F
  pub max_pitch : F
  pub max_angular_velocity : F

pub record PrerequisiteEntry (F : Type 0) : Type 0 where
  pub policy : Text
  pub duration : F

-- What `PreparePolicyStates` builds in the background.
pub record PreparedPolicyStates (F R : Type 0) : Type 0 where
  pub policy_name : Text
  pub zero : ZeroState F
  pub rl : R

pub record Settings (F : Type 0) : Type 0 where
  pub switch_groups : Dict Text
  pub return_policies : Dict Text
  pub selectable_policies : List Text
  pub policy_actions : Dict (Dict Text)
  pub prerequisite_map : Dict (PrerequisiteEntry F)
  pub switch_timeout_s : F
  pub has_rl : Bool
  pub fixed_base : Bool
  pub safety_monitor : SafetyMonitorConfig F

pub record Manager (F R : Type 0) : Type 0 where
  pub settings : Settings F
  pub fsm : Fsm F (StateObject F R)
  pub sensor_fault : FaultStatus F
  pub initialized : Bool
  pub pending_policy : Text
  pub active_policy : Text
  pub action_owner : Text
  pub action_target : Text
  pub action_returning : Bool
  pub previous_action_sequence : ℕ
  pub policy_action_status : InteractionStatus F
  pub hot_switch_requested : Bool
  pub switch_started_s : F
  pub return_attempted : Bool
  pub startup_prepare_pending : Bool
  pub sensor_received : Bool
  pub fault_sequence : ℕ
  pub previous_fault_ack_sequence : ℕ
  pub fault_block_reported : Bool
  pub observed_fault_sequence : ℕ
  pub acknowledged_sensor_fault_sequence : ℕ
  pub acknowledged_sensor_fault_source : ℕ
  pub acknowledged_sensor_fault_code : ℤ
  pub acknowledged_sensor_fault_native_code : ℤ
  pub fault_observations : List (FaultStatus F)
  pub final_target_policy : Text
  pub prerequisite_timer : F
  pub waiting_prerequisite : Bool
  pub prev_switch_policy : Text
  pub prev_policy_request_sequence : ℕ
  pub policy_switch_status : PolicySwitchStatus
  pub prev_fsm_state : StateName
  pub prepared_policy : Option (PreparedPolicyStates F R)
  pub preparing_policy : Text
  pub policy_prepare_active : Bool
  pub policy_prepare_failed : Bool
  pub policy_runtime_ready : Bool
  pub policy_prepare_block_reported : Bool

-- What one control period reads of the world: the monotonic clock, whether the last retired policy is
-- still being destroyed, what the background preparation has come to, whether a new one can start, and
-- the text of the exception that either throws. The clock is read once for a period.
pub record Surroundings (F R : Type 0) : Type 0 where
  pub now : F
  pub retiring : Bool
  pub prepare_result : Option (Result (PreparedPolicyStates F R))
  pub can_start : Bool
  pub message : Text

-- A `uint64_t` after `++`.
abbrev pub next_u64 : ℕ → ℕ
next_u64 n = (n + 1) % 2 ^ 64

module _ {F R : Type 0} where
  abbrev pub fault : Manager F R → FaultStatus F
  fault m = m.fsm.shared.fault

  abbrev pub set_fault : FaultStatus F → Manager F R → Manager F R
  set_fault x m = record m { fsm = record m.fsm { shared = record m.fsm.shared { fault = x } } }

  abbrev pub command : Manager F R → Command F
  command m = m.fsm.shared.command

  abbrev pub set_command : Command F → Manager F R → Manager F R
  set_command c m = record m { fsm = record m.fsm { shared = record m.fsm.shared { command = c } } }

  abbrev pub set_key : ℤ → Manager F R → Manager F R
  set_key k m = set_command (record (command m) { key = k }) m

  abbrev pub current_state : Manager F R → StateName
  current_state m = m.fsm.current_name

  abbrev pub in_state : StateName → Manager F R → Bool
  in_state n m = same_state (current_state m) n
