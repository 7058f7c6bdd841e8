-- ===== src/Operator/Views.antt =====
-- src/operator_service/service/service.cpp and include/operator_types.h: what the service tells a client,
-- `Snapshot`, `StatusMessage`, `Catalog`, `PairingUrl`, `PairingSvg` and `ReplyTo`.
use humanoid_common.Prelude.{
  ℕ, zero, suc, ◌+◌, Bool, false, ◌&&◌, not, List, [], ◌++◌, Text, codes, ℤ, is_empty, ◌==◌,
  if◌then◌else◌, decimal, none, some,
}
use humanoid_common.Floats.{Float, nought, fmax}
use humanoid_common.RobotBase.{fault_source_name, fault_code_name}
use humanoid_common.Operator.Libraries.{QrCode}
use humanoid_common.Operator.Data.{
  Velocity, Action, Policy, TeleopConfig, Config, RequestResult, Service,
}
use humanoid_common.Operator.Names.{state_name, phase_name}
use humanoid_common.Operator.Sessions.{find_session}
use humanoid_common.Operator.Input.{online}

-- `struct Fault` of the operator's types.
pub record FaultView : Type 0 where
  pub active : Bool
  pub latched : Bool
  pub sequence : ℕ
  pub source : Text
  pub code : Text
  pub detail : Text

-- `struct Status`.
pub record Status (F : Type 0) : Type 0 where
  pub online : Bool
  pub hmi_connected : Bool
  pub zero_ready : Bool
  pub state : Text
  pub policy : Text
  pub age_ms : F
  pub rl_hz : F
  pub velocity : Velocity F
  pub fault : FaultView
  pub owner : Text
  pub owns_control : Bool
  pub lease_remaining_ms : F
  pub interaction_phase : Text
  pub interaction_action : Text
  pub interaction_progress : F
  pub interaction_sequence : ℕ
  pub interaction_accepted : Bool
  pub teleop_preset : Text
  pub teleop_preset_sequence : ℕ
  pub request : RequestResult
  pub trajectory_enabled : Bool

pub record StatusMessage (F : Type 0) : Type 0 where
  pub snapshot : Status F
  pub admin : Bool
  pub admin_login_pending : Bool
  pub admin_login_error : Text

pub record Catalog (F : Type 0) : Type 0 where
  pub robot : Text
  pub policies : List (Policy F)
  pub lease_ms : ℕ
  pub velocity_step : Velocity F
  pub trajectory_enabled : Bool
  pub actions : List Action
  pub teleop : TeleopConfig F
  pub voice_chat_port : ℤ
  pub admin_required : Bool

-- The texts that the source writes into a reply's `code`.
pub data ReplyCode : Type 0 where
  done pending accepted : ReplyCode
  bad_request unauthorized not_owner unsupported busy rate_limited admin_required not_ready fault :
      ReplyCode

-- The `data` of a reply.
pub data Content (F : Type 0) : Type 0 where
  nothing : Content F
  greeting : Catalog F → StatusMessage F → Content F
  status_content : StatusMessage F → Content F
  catalog_content : Catalog F → Content F
  pairing_content : Text → Text → Content F
  velocity_content : F → F → F → Content F
  request_content : RequestResult → Content F

pub record Reply (F : Type 0) : Type 0 where
  pub id : ℕ
  pub ok : Bool
  pub code : ReplyCode
  pub message : Text
  pub content : Content F

module _ {F : Type 0} where
  abbrev pub reply_to : ℕ → Bool → ReplyCode → Text → Content F → Reply F
  reply_to id ok code message content = record {
    id = id;
    ok = ok;
    code = code;
    message = message;
    content = content;
  }

  abbrev pub pairing_url : Config F → Text
  pairing_url config = config.public_url ++ (codes "/#token=" ++ config.token)

  abbrev pub catalog : Service F → Catalog F
  catalog s = record {
    robot = s.config.robot;
    policies = s.config.policies;
    lease_ms = s.config.lease_ms;
    velocity_step = s.config.velocity_step;
    trajectory_enabled = s.config.trajectory_enabled;
    actions = s.config.actions;
    teleop = s.config.teleop;
    voice_chat_port = s.config.voice_chat_port;
    admin_required = not (is_empty s.config.admin_password_hash);
  }

-- The modules of row `y` from column `x` on, and the rows from `y` on, with `n` left.
unfoldable pub svg_row : QrCode → ℕ → ℕ → ℕ → Text
svg_row qr y x zero = []
svg_row qr y x (suc n) =
    (if qr.module_at x y
      then codes "M" ++ (decimal (x + 4) ++ (codes "," ++ (decimal (y + 4) ++ codes "h1v1h-1z ")))
      else [])
    ++ svg_row qr y (x + 1) n

unfoldable pub svg_rows : QrCode → ℕ → ℕ → Text
unfolding svg_row
svg_rows qr y zero = []
svg_rows qr y (suc n) = svg_row qr y 0 qr.size ++ svg_rows qr (y + 1) n

unfoldable pub pairing_svg : (Text → QrCode) → Text → Text
unfolding svg_rows
pairing_svg encode url =
    let qr = encode url in
    codes "<svg xmlns=\"http://www.w3.org/2000/svg\" viewBox=\"0 0 "
    ++ (decimal (qr.size + 8)
        ++ (codes " "
            ++ (decimal (qr.size + 8)
                ++ (codes
                      "\"><rect width=\"100%\" height=\"100%\" fill=\"white\"/><path fill=\"black\" d=\""
                    ++ (svg_rows qr 0 qr.size ++ codes "\"/></svg>")))))

module _ {F : Type 0} ⦃f : Float F⦄ where
  abbrev pub milliseconds : F → F
  milliseconds t = f.mul t (f.lit 1000 0)

  unfoldable pub snapshot : F → ℕ → Service F → Status F
  unfolding online
  snapshot now session s = record {
    online = online now s;
    hmi_connected = s.status.hmi_connected;
    zero_ready = s.status.zero_ready;
    state = state_name s.status.mode;
    policy = s.status.active_policy;
    age_ms =
        if f.lt s.status_at nought
        then nought
        else fmax nought (milliseconds (f.sub now s.status_at));
    rl_hz = s.status.rl_frequency_hz;
    velocity = record { vx = s.status.vx; vy = s.status.vy; wz = s.status.wz };
    fault = record {
      active = s.fault.active;
      latched = s.fault.latched;
      sequence = s.fault.sequence;
      source = fault_source_name s.fault.source;
      code = fault_code_name s.fault.code;
      detail = s.fault.detail;
    };
    owner = elim (find_session s.owner s.sessions) [
      | none ↦ []
      | some me ↦ me.name ++ (codes "#" ++ decimal s.owner)
    ];
    owns_control = not (s.owner == 0) && (s.owner == session && f.lt now s.lease_until);
    lease_remaining_ms =
        if s.owner == 0 then nought else fmax nought (milliseconds (f.sub s.lease_until now));
    interaction_phase = phase_name s.status.interaction.phase;
    interaction_action = s.status.interaction.action;
    interaction_progress = s.status.interaction.progress;
    interaction_sequence = s.status.interaction.sequence;
    interaction_accepted = s.status.interaction.request_accepted;
    teleop_preset = s.teleop_preset;
    teleop_preset_sequence = s.teleop_preset_sequence;
    request = s.result;
    trajectory_enabled = s.config.trajectory_enabled;
  }

  unfoldable pub status_message : F → ℕ → Service F → StatusMessage F
  unfolding snapshot
  status_message now session s =
      let viewer = find_session session s.sessions in
      record {
        snapshot = snapshot now session s;
        admin = elim viewer [ none ↦ false | some me ↦ me.admin ];
        admin_login_pending = not (session == 0) && s.login_session == session;
        admin_login_error = elim viewer [ none ↦ [] | some me ↦ me.login_error ];
      }
