-- ===== src/Behavior/State.antt =====
-- src/behavior_manager/behavior_state.h: the data that the states share, and the virtual methods of
-- the class `State` as an interface. `FSM::SetDataPointers` gives every state the same three objects
-- before the machine starts, so the pointers are never null here and their targets are one record.
use humanoid_common.Prelude.{Bool, false, List, [], ℤ}
use humanoid_common.RobotBase.{RobotData, Command, FaultStatus, InteractionStatus}
use humanoid_common.RobotBase.ActuationMode
use humanoid_common.Behavior.StateName.{StateName}

pub record ControlOutput (F : Type 0) : Type 0 where
  pub actuation_mode : ℤ
  pub target_pos : List F
  pub target_vel : List F
  pub target_torque : List F
  pub kp : List F
  pub kd : List F
  pub enable : Bool

abbrev pub empty_output : {F : Type 0} → ControlOutput F
empty_output = record {
  actuation_mode = ActuationMode.hybrid;
  target_pos = [];
  target_vel = [];
  target_torque = [];
  kp = [];
  kd = [];
  enable = false;
}

-- What `sensor_`, `command_` and `output_` point to, and the fault that the safety state reads.
pub record Shared (F : Type 0) : Type 0 where
  pub sensor : RobotData F
  pub command : Command F
  pub output : ControlOutput F
  pub fault : FaultStatus F

-- The virtual methods. Each takes the object and the shared data, and returns both.
pub record StateClass (F S : Type 0) : Type 0 where
  pub on_enter : S → Shared F → S × Shared F
  pub run : F → F → S → Shared F → S × Shared F
  pub check_transition : S → Shared F → StateName × S × Shared F
  pub on_exit : S → Shared F → S × Shared F
  pub suspend_for_replacement : S → Shared F → S × Shared F
  pub ready_for_policy_switch : S → Bool
  pub request_policy_switch : Bool → Bool → S → Shared F → S × Shared F
  pub policy_finished : S → Bool
  pub on_policy_handoff : S → Shared F → S × Shared F
  pub ready_for_rl : S → Bool
  pub current_fault : S → FaultStatus F
  pub current_interaction_status : S → InteractionStatus F
