-- ===== src/Transport/Tests.antt =====
-- The theorems on packets at concrete records.
use humanoid_common.Prelude.{
  ℕ, false, ◌++◌, ◌≤◌, ◌⊎◌, get_or, [], ◌∷◌, none, ◌≡◌, refl, true, some, Text, pos, codes,
  replicate, take, arith,
}
use humanoid_common.Floats.{Milli, milli}
use humanoid_common.RobotBase.{
  FaultStatus, Command, ControlStatus, PolicySwitchStatus, idle_command, initial_status,
}
use humanoid_common.RobotBase.FaultSource
use humanoid_common.RobotBase.FaultCode
use humanoid_common.RobotBase.Operation
use humanoid_common.RobotBase.SwitchPhase
use humanoid_common.Transport.Buffer.{
  marker, is_continuation, detail_for_packet, detail_for_packet-cut,
}
use humanoid_common.Transport.Fault.{can_encode_fault, encode_fault, decode_fault, fault_round_trip}
use humanoid_common.Transport.PolicySwitch.{
  can_encode_policy_switch, encode_policy_switch, decode_policy_switch, valid_policy_switch_packet,
  policy_switch_round_trip,
}
use humanoid_common.Transport.Command.{
  can_encode_command, can_encode_interaction_request, command_packet, send_command, recv_command,
  command_round_trip, received_can_be_encoded,
}
use humanoid_common.Transport.Status.{
  can_encode_interaction_status, can_encode_status, status_packet, send_status, recv_status,
  status_round_trip,
}
use humanoid_common.Transport.Ring.{
  reader, writer, Endpoint, Channel, attach, write, read, write_all,
}
use humanoid_common.Transport.Ring.Latest.{IsSound, open_reader, newest_is_read, full_lap_is_unseen}

-- A text of 200 bytes "a", which has to be cut.
abbrev long : Text
long = replicate 200 97

detail_for_packet-cut_example :
    (n : ℕ) × (detail_for_packet long ≡ take n long ++ marker)
    × (n ≤ 145)
    × ((n ≡ 0) ⊎ (is_continuation (get_or long n 0) ≡ false))
detail_for_packet-cut_example = detail_for_packet-cut long (ground arith)

abbrev overheated : FaultStatus Milli
overheated = record {
  active = true;
  latched = true;
  source = FaultSource.motor;
  code = FaultCode.device_error;
  native_code = pos 17;
  sequence = 5;
  timestamp_s = some (pos 1500);
  detail = long;
}

overheated-encodes : can_encode_fault overheated ≡ true
unfolding can_encode_fault
overheated-encodes = refl

fault_round_trip_example :
    decode_fault (encode_fault overheated)
    ≡ some (record overheated { detail = detail_for_packet long })
fault_round_trip_example = fault_round_trip overheated overheated-encodes

abbrev refused : PolicySwitchStatus
refused = record {
  sequence = 2;
  phase = SwitchPhase.rejected;
  policy = codes "run";
  detail = codes "not here";
}

refused-encodes : can_encode_policy_switch refused ≡ true
unfolding can_encode_policy_switch
refused-encodes = refl

policy_switch_round_trip_example :
    (decode_policy_switch (encode_policy_switch refused)
      ≡ record refused { detail = detail_for_packet (codes "not here") })
    × (valid_policy_switch_packet (encode_policy_switch refused) ≡ true)
policy_switch_round_trip_example = policy_switch_round_trip refused refused-encodes

abbrev wave : Command Milli
wave = record idle_command {
  vx = some (pos 300);
  interaction = record { sequence = 8; operation = Operation.start; action = codes "wave" };
}

wave-encodes : can_encode_command wave ≡ true
unfolding can_encode_command can_encode_interaction_request
wave-encodes = refl

command_round_trip_example :
    (send_command 1 5 wave ≡ some (command_packet 1 5 wave))
    × (recv_command (command_packet 1 5 wave) ≡ some (wave, 5))
command_round_trip_example = command_round_trip 1 5 wave wave-encodes

received_can_be_encoded_example : can_encode_command wave ≡ true
received_can_be_encoded_example =
    received_can_be_encoded (command_packet 1 5 wave) wave 5 refl command_round_trip_example.1

abbrev running : ControlStatus Milli
running = record initial_status {
  mode = pos 3;
  active_policy = codes "walk";
  policy_switch = refused;
}

running-encodes : can_encode_status running overheated ≡ true
unfolding can_encode_status can_encode_interaction_status can_encode_policy_switch can_encode_fault
running-encodes = refl

status_round_trip_example :
    (send_status 1 running overheated ≡ some (status_packet 1 running overheated))
    × (recv_status (status_packet 1 running overheated)
        ≡ some (
          record running {
            policy_switch = record refused { detail = detail_for_packet (codes "not here") };
          },
          record overheated { detail = detail_for_packet long },
        ))
status_round_trip_example = status_round_trip 1 running overheated running-encodes

-- A ring of two slots, whose reader has read everything.
abbrev ring : Channel
ring = record {
  write_index = 1;
  read_index = 1;
  capacity = 2;
  slot_size = 2;
  slots = (0 ∷ 0 ∷ []) ∷ (7 ∷ 8 ∷ []) ∷ [];
}

ring-IsSound : IsSound ring
ring-IsSound = record { index_below = ground arith; all_slots = refl }

abbrev open_writer : Endpoint
open_writer = record { is_open = true; role = writer }

abbrev once : Channel
once = record ring { write_index = 0; slots = (0 ∷ 0 ∷ []) ∷ (5 ∷ 8 ∷ []) ∷ [] }

abbrev twice : Channel
twice = record once { write_index = 1; slots = (6 ∷ 0 ∷ []) ∷ (5 ∷ 8 ∷ []) ∷ [] }

written_once : write open_writer (5 ∷ []) ring ≡ some once
unfolding write
written_once = refl

written_twice : write_all open_writer ((5 ∷ []) ∷ (6 ∷ []) ∷ []) ring ≡ some twice
unfolding write_all write
written_twice = refl

newest_is_read_example :
    (r : Text) × (read open_reader 2 once ≡ some (r, record once { read_index = 0 }))
    × (take 1 r ≡ 5 ∷ [])
unfolding write_all
newest_is_read_example =
    newest_is_read open_writer [] (5 ∷ []) 2 ring ring once ring-IsSound refl (ground arith)
      (ground arith) refl written_once

full_lap_is_unseen_example : read open_reader 2 twice ≡ none
full_lap_is_unseen_example =
    full_lap_is_unseen open_writer ((5 ∷ []) ∷ (6 ∷ []) ∷ []) 2 ring twice ring-IsSound refl refl
      written_twice

attached : attach reader 2 2 once ≡ some (record once { read_index = 0 })
unfolding attach
attached = refl
