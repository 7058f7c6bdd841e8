-- ===== src/Transport/Header.antt =====
-- src/transport/transport_executor/transport_packet.h: the header of every packet and the checks of single
-- values.
use humanoid_common.Prelude.{
  ℕ, ◌^◌, ◌+◌, ◌%◌, Bool, ◌&&◌, ◌||◌, ℤ, negsuc, int_eq, int_between, leb, ◌==◌,
}
use humanoid_common.RobotBase
use humanoid_common.RobotBase.Operation
use humanoid_common.RobotBase.Phase

pub record PacketHeader : Type 0 where
  pub magic : ℕ
  pub version : ℕ
  pub type : ℕ
  pub seq : ℕ

-- kMagic is 0x484D5253, "HMRS".
abbrev pub magic_number : ℕ
magic_number = 1213026899

abbrev pub protocol_version : ℕ
protocol_version = 7

-- `MsgType`.
abbrev pub hmi_cmd : ℕ
hmi_cmd = 1

abbrev pub control_status : ℕ
control_status = 4

-- The header that a sender fills in, with its counter one up (a `uint32_t`).
abbrev pub next_header : ℕ → ℕ → PacketHeader
next_header type seq = record {
  magic = magic_number;
  version = protocol_version;
  type = type;
  seq = (seq + 1) % 2 ^ 32;
}

-- `ValidHeader`.
abbrev pub valid_header : PacketHeader → ℕ → Bool
valid_header h type =
    (h.magic == magic_number) && ((h.version == protocol_version) && (h.type == type))

-- `ValidControlModeValue`: the modes are 0 to 6.
abbrev pub valid_control_mode : ℤ → Bool
valid_control_mode mode = int_between 0 6 mode

-- `ValidCommandKey`.
abbrev pub valid_command_key : ℤ → Bool
valid_command_key key = int_eq key (negsuc 0) || int_between 0 RobotBase.command_start_reference key

-- `ValidInteractionOperationValue`.
abbrev pub valid_operation : ℕ → Bool
valid_operation value = leb value Operation.cancel

-- `ValidInteractionPhaseValue`.
abbrev pub valid_phase : ℕ → Bool
valid_phase value = leb value Phase.rejected
