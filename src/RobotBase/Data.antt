-- ===== src/RobotBase/Data.antt =====
-- include/robot_base.h and src/robot_base/robot_base.cpp: records, default values and checks.
use humanoid_common.Prelude.{
  ℕ, ◌≡◌, Bool, true, false, ◌&&◌, List, [], ◌∷◌, arith, Text, ltb, if◌then◌else◌, ℤ, pos, negsuc,
  int_between, leb, length, replicate, length-replicate, is_positive, is_size, Result, ok, err,
}
use humanoid_common.Floats.{Float, nought, one}
use humanoid_common.RobotBase.FaultSource
use humanoid_common.RobotBase.FaultCode
use humanoid_common.RobotBase.ControlMode
use humanoid_common.RobotBase.Operation
use humanoid_common.RobotBase.Phase
use humanoid_common.RobotBase.SwitchPhase

pub record FaultStatus (F : Type 0) : Type 0 where
  pub active : Bool
  pub latched : Bool
  pub source : ℕ
  pub code : ℤ
  pub native_code : ℤ
  pub sequence : ℕ
  pub timestamp_s : F
  pub detail : Text

abbrev pub is_valid_fault_source : ℕ → Bool
is_valid_fault_source source = leb FaultSource.unset source && leb source FaultSource.safety_monitor

-- FaultCode::NONE is 0 and FaultCode::INTERNAL_ERROR is 9.
abbrev pub is_valid_fault_code : ℤ → Bool
is_valid_fault_code code = int_between 0 9 code

-- ActuationMode::HYBRID is 0 and ActuationMode::TORQUE is 3.
abbrev pub is_valid_actuation_mode : ℤ → Bool
is_valid_actuation_mode mode = int_between 0 3 mode

pub record RobotData (F : Type 0) : Type 0 where
  pub name : Text
  pub num_dof : ℤ
  pub base_pos : List F
  pub base_quat : List F
  pub base_vel : List F
  pub rpy : List F
  pub gyro : List F
  pub acceleration : List F
  pub joint_pos : List F
  pub joint_vel : List F
  pub joint_torque : List F
  pub joint_temperature : List F
  pub joint_error : List ℕ
  pub time : F

pub record InteractionRequest : Type 0 where
  pub sequence : ℕ
  pub operation : ℕ
  pub action : Text

abbrev pub no_request : InteractionRequest
no_request = record { sequence = 0; operation = Operation.unset; action = [] }

-- kCommandStartReference.
abbrev pub command_start_reference : ℕ
command_start_reference = 5

pub record Command (F : Type 0) : Type 0 where
  pub key : ℤ
  pub vx : F
  pub vy : F
  pub wz : F
  pub switch_policy : Text
  pub policy_request_sequence : ℕ
  pub interaction : InteractionRequest

pub record InteractionStatus (F : Type 0) : Type 0 where
  pub sequence : ℕ
  pub request_accepted : Bool
  pub phase : ℕ
  pub progress : F
  pub action : Text

pub record PolicySwitchStatus : Type 0 where
  pub sequence : ℕ
  pub phase : ℕ
  pub policy : Text
  pub detail : Text

abbrev pub no_switch : PolicySwitchStatus
no_switch = record { sequence = 0; phase = SwitchPhase.idle; policy = []; detail = [] }

pub record ControlStatus (F : Type 0) : Type 0 where
  pub mode : ℤ
  pub zero_ready : Bool
  pub hmi_connected : Bool
  pub vx : F
  pub vy : F
  pub wz : F
  pub rl_frequency_hz : F
  pub active_policy : Text
  pub interaction : InteractionStatus F
  pub policy_switch : PolicySwitchStatus

pub record ControlCmd (F : Type 0) : Type 0 where
  pub enable : Bool
  pub mode : ℤ
  pub actuation_mode : ℤ
  pub target_pos : List F
  pub target_vel : List F
  pub target_torque : List F
  pub kp : List F
  pub kd : List F

module _ {F : Type 0} ⦃f : Float F⦄ where
  -- `FaultStatus{}` and the other value-initialised records.
  abbrev pub no_fault : FaultStatus F
  no_fault = record {
    active = false;
    latched = false;
    source = FaultSource.unset;
    code = FaultCode.unset;
    native_code = pos 0;
    sequence = 0;
    timestamp_s = nought;
    detail = [];
  }

  abbrev pub idle_command : Command F
  idle_command = record {
    key = pos 0;
    vx = nought;
    vy = nought;
    wz = nought;
    switch_policy = [];
    policy_request_sequence = 0;
    interaction = no_request;
  }

  abbrev pub no_interaction : InteractionStatus F
  no_interaction = record {
    sequence = 0;
    request_accepted = false;
    phase = Phase.idle;
    progress = nought;
    action = [];
  }

  abbrev pub initial_status : ControlStatus F
  initial_status = record {
    mode = ControlMode.power_off;
    zero_ready = false;
    hmi_connected = false;
    vx = nought;
    vy = nought;
    wz = nought;
    rl_frequency_hz = nought;
    active_policy = [];
    interaction = no_interaction;
    policy_switch = no_switch;
  }

  abbrev pub empty_data : RobotData F
  empty_data = record {
    name = [];
    num_dof = pos 0;
    base_pos = replicate 3 nought;
    base_quat = one ∷ nought ∷ nought ∷ nought ∷ [];
    base_vel = replicate 6 nought;
    rpy = replicate 3 nought;
    gyro = replicate 3 nought;
    acceleration = replicate 3 nought;
    joint_pos = [];
    joint_vel = [];
    joint_torque = [];
    joint_temperature = [];
    joint_error = [];
    time = nought;
  }

  -- `RobotData::InitJointVectors`.
  unfoldable pub init_joint_vectors : RobotData F → RobotData F
  init_joint_vectors s = elim s.num_dof [
    | pos n ↦
        if ltb 0 n
        then record s {
          joint_pos = replicate n nought;
          joint_vel = replicate n nought;
          joint_torque = replicate n nought;
          joint_temperature = replicate n nought;
          joint_error = replicate n 0;
        }
        else s
    | negsuc n ↦ s
  ]

  -- `RobotData::Create`.
  unfoldable pub create : ℤ → Result (RobotData F)
  unfolding init_joint_vectors
  create num_dof =
      if is_positive num_dof
      then ok (init_joint_vectors (record empty_data { num_dof = num_dof }))
      else err

  -- `RobotData::IsValid`.
  unfoldable pub is_valid : RobotData F → Bool
  is_valid s =
      is_positive s.num_dof
      && (is_size (length s.joint_pos) s.num_dof && is_size (length s.joint_vel) s.num_dof)

  -- `RobotData::Reset`.
  unfoldable pub reset : RobotData F → RobotData F
  reset s = record s {
    base_pos = replicate 3 nought;
    base_quat = one ∷ nought ∷ nought ∷ nought ∷ [];
    base_vel = replicate 6 nought;
    rpy = replicate 3 nought;
    gyro = replicate 3 nought;
    acceleration = replicate 3 nought;
    joint_pos = replicate (length s.joint_pos) nought;
    joint_vel = replicate (length s.joint_vel) nought;
    joint_torque = replicate (length s.joint_torque) nought;
    joint_temperature = replicate (length s.joint_temperature) nought;
    joint_error = replicate (length s.joint_error) 0;
    time = nought;
  }

  -- Whatever `RobotData::Create` makes passes `IsValid`.
  pub create-is_valid : (n : ℤ) {s : RobotData F} → create n ≡ ok s → is_valid s ≡ true
  unfolding create is_valid
  create-is_valid (pos n) e = ground (arith, length-replicate {A = F} n nought)
  create-is_valid (negsuc n) e = cc

  pub is_valid-reset : (s : RobotData F) → is_valid (reset s) ≡ is_valid s
  unfolding is_valid reset
  is_valid-reset s =
      rw
        (length-replicate (length s.joint_pos) nought, length-replicate (length s.joint_vel) nought)
