-- ===== src/Operator/Data.antt =====
-- include/operator_types.h and src/operator_service/service/service.h: configuration, sessions, requests
-- and the state of the class `Service`. `double` is `F`; an unsigned counter wraps at 2 ^ 64.
use humanoid_common.Prelude.{
  ℕ, ◌+◌, ◌%◌, ◌^◌, Bool, false, List, [], Text, ℤ, Option, none, text_eq, codes, if◌then◌else◌,
}
use humanoid_common.Floats.{Float, nought}
use humanoid_common.RobotBase.{
  Command, ControlStatus, FaultStatus, idle_command, initial_status, no_fault,
}
use humanoid_common.RobotBase.ControlMode

pub record Velocity (F : Type 0) : Type 0 where
  pub vx : F
  pub vy : F
  pub wz : F

pub record Action : Type 0 where
  pub key : Text
  pub display_name : Text

pub record Policy (F : Type 0) : Type 0 where
  pub name : Text
  pub manual_reference : Bool
  pub minimum : Velocity F
  pub maximum : Velocity F
  pub actions : List Action
  pub client_smoothing : Bool
  pub switch_group : Text
  pub display_name : Text

pub record TeleopConfig (F : Type 0) : Type 0 where
  pub deadzone : F
  pub acceleration : Velocity F
  pub deceleration : Velocity F
  pub slow_limits : Option (Velocity F)
  pub fast_limits : Option (Velocity F)

-- The fields of `Config` that the class reads; the rest is for the server.
pub record Config (F : Type 0) : Type 0 where
  pub robot : Text
  pub terminal_only : Bool
  pub public_url : Text
  pub token : Text
  pub control_token : Text
  pub admin_password_hash : Text
  pub voice_chat_port : ℤ
  pub status_timeout : F
  pub request_timeout : F
  pub lease_ms : ℕ
  pub velocity_step : Velocity F
  pub teleop : TeleopConfig F
  pub policies : List (Policy F)
  pub trajectory_enabled : Bool
  pub actions : List Action

-- The request names that the source compares `op` with; `unknown` is any other text.
pub data Op : Type 0 where
  hello client_event status catalog pairing admin_login admin_logout : Op
  stop release acquire renew velocity state policy interaction cancel : Op
  reference_start ack unknown : Op

unfoldable pub op_of : Text → Op
op_of t =
    if text_eq t (codes "hello")
    then hello
    else if text_eq t (codes "client_event")
    then client_event
    else if text_eq t (codes "status")
    then status
    else if text_eq t (codes "catalog")
    then catalog
    else if text_eq t (codes "pairing")
    then pairing
    else if text_eq t (codes "admin_login")
    then admin_login
    else if text_eq t (codes "admin_logout")
    then admin_logout
    else if text_eq t (codes "stop")
    then stop
    else if text_eq t (codes "release")
    then release
    else if text_eq t (codes "acquire")
    then acquire
    else if text_eq t (codes "renew")
    then renew
    else if text_eq t (codes "velocity")
    then velocity
    else if text_eq t (codes "state")
    then state
    else if text_eq t (codes "policy")
    then policy
    else if text_eq t (codes "interaction")
    then interaction
    else if text_eq t (codes "cancel")
    then cancel
    else if text_eq t (codes "reference_start")
    then reference_start
    else if text_eq t (codes "ack")
    then ack
    else unknown

-- The texts that the source writes into `RequestResult::phase`.
pub data ResultPhase : Type 0 where
  unset accepted sent completed rejected failed expired cancelled : ResultPhase

abbrev pub is_accepted : ResultPhase → Bool
is_accepted accepted = Bool.true
is_accepted _ = false

-- `operation` is `none` for the empty text, before the first request.
pub record RequestResult : Type 0 where
  pub sequence : ℕ
  pub operation : Option Op
  pub phase : ResultPhase
  pub message : Text

pub record Session : Type 0 where
  pub authenticated : Bool
  pub admin : Bool
  pub login_error : Text
  pub name : Text
  pub last_id : ℕ

abbrev pub new_session : Session
new_session = record {
  authenticated = false;
  admin = false;
  login_error = [];
  name = [];
  last_id = 0;
}

-- `++n` for a `uint64_t`.
abbrev pub next_number : ℕ → ℕ
next_number n = (n + 1) % 2 ^ 64

-- `login_result` is the password that the asynchronous task checks, while `login_result_` is valid.
pub record Service (F : Type 0) : Type 0 where
  pub config : Config F
  pub sessions : List (ℕ × Session)
  pub next_session : ℕ
  pub owner : ℕ
  pub lease_until : F
  pub velocity_until : F
  pub status_at : F
  pub status_samples : ℕ
  pub request_until : F
  pub reference_until : F
  pub status : ControlStatus F
  pub fault : FaultStatus F
  pub command : Command F
  pub acknowledge_sequence : ℕ
  pub policy_sequence : ℕ
  pub command_sent : Bool
  pub teleop_preset : Text
  pub teleop_preset_sequence : ℕ
  pub result : RequestResult
  pub pending_target : Text
  pub source_mode : ℤ
  pub login_result : Option Text
  pub login_session : ℕ
  pub login_attempts : ℕ
  pub login_window_until : F

-- A service as its members are initialized.
abbrev pub fresh : {F : Type 0} ⦃f : Float F⦄ → Config F → Service F
fresh {F} ⦃f⦄ config = record {
  config = config;
  sessions = [];
  next_session = 0;
  owner = 0;
  lease_until = nought;
  velocity_until = nought;
  status_at = f.neg (f.lit 1 0);
  status_samples = 0;
  request_until = nought;
  reference_until = nought;
  status = initial_status;
  fault = no_fault;
  command = idle_command;
  acknowledge_sequence = 0;
  policy_sequence = 0;
  command_sent = false;
  teleop_preset = [];
  teleop_preset_sequence = 0;
  result = record { sequence = 0; operation = none; phase = unset; message = [] };
  pending_target = [];
  source_mode = ControlMode.power_off;
  login_result = none;
  login_session = 0;
  login_attempts = 0;
  login_window_until = nought;
}
