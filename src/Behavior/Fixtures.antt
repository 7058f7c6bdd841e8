-- ===== src/Behavior/Fixtures.antt =====
-- A small robot for the examples: one joint, every state registered, and a policy that does nothing.
use humanoid_common.Prelude.{
  ℕ, ◌*◌, ◌≡◌, refl, Bool, true, false, Option, some, none, [], ◌∷◌, pos, codes, arith,
}
use humanoid_common.Floats.{Milli, milli}
use humanoid_common.RobotBase.{
  RobotData, FaultStatus, no_fault, no_interaction, no_switch, idle_command, empty_data,
}
use humanoid_common.RobotBase.FaultSource
use humanoid_common.RobotBase.FaultCode
use humanoid_common.Behavior.StateName.{StateName}
use humanoid_common.Behavior.State.{Shared, StateClass, empty_output}
use humanoid_common.Behavior.Fsm.Defs.{Fsm, is_some}
use humanoid_common.Behavior.Fsm.Frame.{Keeps}
use humanoid_common.Behavior.Fsm.Wellformed.{AllNamed, IsRunning}
use humanoid_common.Behavior.States.Home.{HomeState}
use humanoid_common.Behavior.States.Zero.{ZeroState}
use humanoid_common.Behavior.States.Safety.{SafetyState}
use humanoid_common.Behavior.States.Object.{
  StateObject, power_off_state, damp_state, home_state, zero_state, safety_state, rl_state, name_of,
}
use humanoid_common.Behavior.Manager.Defs.{Manager, Surroundings}

abbrev pub number : ℕ → Milli
number n = some (pos (n * 1000))

abbrev pub idle_policy : StateClass Milli Bool
idle_policy = record {
  on_enter = λ r d. (r, d);
  run = λ t rl_dt r d. (r, d);
  check_transition = λ r d. (StateName.rl, r, d);
  on_exit = λ r d. (r, d);
  suspend_for_replacement = λ r d. (r, d);
  ready_for_policy_switch = λ r. r;
  request_policy_switch = λ a b r d. (r, d);
  policy_finished = λ r. false;
  on_policy_handoff = λ r d. (r, d);
  ready_for_rl = λ r. false;
  current_fault = λ r. no_fault;
  current_interaction_status = λ r. no_interaction;
}

pub idle_policy-Keeps : Keeps idle_policy (λ d. d.fault)
idle_policy-Keeps = record {
  on_enter_keeps = λ r d. refl;
  run_keeps = λ t rl_dt r d. refl;
  check_keeps = λ r d. refl;
  on_exit_keeps = λ r d. refl;
  suspend_keeps = λ r d. refl;
  request_keeps = λ a b r d. refl;
  handoff_keeps = λ r d. refl;
}

abbrev pub one_joint : RobotData Milli
one_joint = record empty_data {
  num_dof = pos 1;
  joint_pos = number 0 ∷ [];
  joint_vel = number 0 ∷ [];
}

abbrev pub home : HomeState Milli
home = record {
  default_pos = number 0 ∷ [];
  init_pos = number 0 ∷ [];
  kp = number 1 ∷ [];
  kd = number 1 ∷ [];
  target_lower = [];
  target_upper = [];
  gain_ramp_duration = number 1;
  move_duration = number 2;
  timer = number 0;
  finished = false;
}

abbrev pub zero : ZeroState Milli
zero = record {
  default_pos = number 0 ∷ [];
  init_pos = number 0 ∷ [];
  kp = number 1 ∷ [];
  kd = number 1 ∷ [];
  config = record {
    next_state = StateName.rl;
    move_duration = number 1;
    position_tolerance = number 1;
    velocity_tolerance = number 1;
    settle_duration = number 1;
    joint_names = [];
  };
  timer = number 3;
  settled_duration = number 1;
  max_position_error = number 0;
  max_position_error_index = 0;
  max_velocity = number 0;
  max_velocity_index = 0;
  finished = false;
  feedback_valid = true;
  blocked_request_active = false;
}

abbrev pub safety : SafetyState Milli
safety = record {
  release_duration = number 2;
  timer = number 0;
  finished = false;
  can_ramp = false;
  hold_pos = number 0 ∷ [];
  kp_init = number 1 ∷ [];
  kd_init = number 1 ∷ [];
}

abbrev pub all_states : StateName → Option (StateObject Milli Bool)
all_states StateName.power_off = some power_off_state
all_states StateName.damp = some (damp_state (record { damp_kd = [] }))
all_states StateName.zero = some (zero_state zero)
all_states StateName.rl = some (rl_state false)
all_states StateName.safety = some (safety_state safety)
all_states StateName.home = some (home_state home)
all_states StateName.trajectory = none

abbrev pub shared : Shared Milli
shared = record {
  sensor = one_joint;
  command = idle_command;
  output = empty_output;
  fault = no_fault;
}

abbrev pub machine : StateName → Fsm Milli (StateObject Milli Bool)
machine n = record { states = all_states; started = true; current_name = n; shared = shared }

pub all_states-AllNamed : AllNamed name_of all_states
all_states-AllNamed StateName.power_off s e = ground arith
all_states-AllNamed StateName.damp s e = ground arith
all_states-AllNamed StateName.zero s e = ground arith
all_states-AllNamed StateName.rl s e = ground arith
all_states-AllNamed StateName.safety s e = ground arith
all_states-AllNamed StateName.home s e = ground arith
all_states-AllNamed StateName.trajectory s e = ground arith

pub machine-IsRunning :
    (n : StateName) → is_some (all_states n) ≡ true → IsRunning name_of (machine n)
machine-IsRunning n e = record { is_started = refl; registered = e; named = all_states-AllNamed }

abbrev pub sensor_fault : FaultStatus Milli
sensor_fault = record {
  active = true;
  latched = true;
  source = FaultSource.motor;
  code = FaultCode.device_error;
  native_code = pos 17;
  sequence = 5;
  timestamp_s = number 1;
  detail = codes "overheated";
}

abbrev pub manager : StateName → Manager Milli Bool
manager n = record {
  settings = record {
    switch_groups = (codes "walk", codes "legs") ∷ (codes "run", codes "legs") ∷ [];
    return_policies = [];
    selectable_policies = codes "walk" ∷ codes "run" ∷ [];
    policy_actions = [];
    prerequisite_map = [];
    switch_timeout_s = number 5;
    has_rl = true;
    fixed_base = false;
    safety_monitor = record {
      max_roll = number 1;
      max_pitch = number 1;
      max_angular_velocity = number 1;
    };
  };
  fsm = machine n;
  sensor_fault = no_fault;
  initialized = true;
  pending_policy = codes "walk";
  active_policy = codes "walk";
  action_owner = [];
  action_target = [];
  action_returning = false;
  previous_action_sequence = 0;
  policy_action_status = no_interaction;
  hot_switch_requested = false;
  switch_started_s = number 0;
  return_attempted = false;
  startup_prepare_pending = false;
  sensor_received = true;
  fault_sequence = 0;
  previous_fault_ack_sequence = 0;
  fault_block_reported = false;
  observed_fault_sequence = 0;
  acknowledged_sensor_fault_sequence = 0;
  acknowledged_sensor_fault_source = 0;
  acknowledged_sensor_fault_code = pos 0;
  acknowledged_sensor_fault_native_code = pos 0;
  fault_observations = [];
  final_target_policy = [];
  prerequisite_timer = number 0;
  waiting_prerequisite = false;
  prev_switch_policy = [];
  prev_policy_request_sequence = 0;
  policy_switch_status = no_switch;
  prev_fsm_state = n;
  prepared_policy = none;
  preparing_policy = [];
  policy_prepare_active = false;
  policy_prepare_failed = false;
  policy_runtime_ready = true;
  policy_prepare_block_reported = false;
}

abbrev pub quiet_world : Surroundings Milli Bool
quiet_world = record {
  now = number 9;
  retiring = false;
  prepare_result = none;
  can_start = true;
  message = [];
}
