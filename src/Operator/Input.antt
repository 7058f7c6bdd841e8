-- ===== src/Operator/Input.antt =====
-- src/operator_service/service/service.cpp: `Online`, `ActivePolicy`, `Finish`, `ClearInput` and
-- `Disconnect`. `now` is the clock's reading; the readings within one call are taken as one.
use humanoid_common.Prelude.{
  ℕ, Bool, ◌&&◌, not, [], Text, text, text_eq, ◌==◌, leb, max, if◌then◌else◌, pos, Option, find_if,
  is_empty, Result, ok, err,
}
use humanoid_common.Floats.{Float, nought}
use humanoid_common.RobotBase.{Command, InteractionRequest}
use humanoid_common.RobotBase.Operation
use humanoid_common.Operator.Data.{
  Config, Policy, ResultPhase, cancelled, is_accepted, Service, next_number, fresh,
}
use humanoid_common.Operator.Names.{valid_password_hash, token_equal}
use humanoid_common.Operator.Sessions.{erase_session}

module _ {F : Type 0} ⦃f : Float F⦄ where
  unfoldable pub online : F → Service F → Bool
  online now s =
      leb 2 s.status_samples
      && (s.status.hmi_connected
          && (f.le nought s.status_at && f.le (f.sub now s.status_at) s.config.status_timeout))

  unfoldable pub active_policy : Service F → Option (Policy F)
  active_policy s = find_if (λ p. text_eq p.name s.status.active_policy) s.config.policies

  -- `Finish`.
  unfoldable pub finish : ResultPhase → Text → Service F → Service F
  finish phase message s = record s {
    result = record s.result { phase = phase; message = message };
    command = record s.command { key = pos 0; switch_policy = []; policy_request_sequence = 0 };
    acknowledge_sequence = 0;
    pending_target = [];
  }

  -- The request that `ClearInput` leaves for the robot: to cancel its action.
  unfoldable pub cancel_action : Service F → InteractionRequest
  cancel_action s = record {
    sequence = next_number (max s.command.interaction.sequence s.status.interaction.sequence);
    operation = Operation.cancel;
    action = [];
  }

  -- `ClearInput`.
  unfoldable pub clear_input : Text → Service F → Service F
  unfolding finish cancel_action
  clear_input reason s =
      let t = if is_accepted s.result.phase then finish cancelled reason s else s in
      record t {
        owner = 0;
        lease_until = nought;
        velocity_until = nought;
        reference_until = nought;
        command = record {
          key = pos 0;
          vx = nought;
          vy = nought;
          wz = nought;
          switch_policy = [];
          policy_request_sequence = 0;
          interaction = cancel_action s;
        };
        acknowledge_sequence = 0;
      }

  -- `Disconnect`.
  unfoldable pub disconnect : ℕ → Service F → Service F
  unfolding clear_input
  disconnect session s =
      let t = if s.owner == session then clear_input (text "operator disconnected") s else s in
      record t {
        login_session = if t.login_session == session then 0 else t.login_session;
        sessions = erase_session session t.sessions;
      }

  -- `command_.vx = command_.vy = command_.wz = 0`.
  abbrev pub halt : Command F → Command F
  halt c = record c { vx = nought; vy = nought; wz = nought }

  -- The velocity of the command.
  abbrev pub velocity_of : Service F → F × F × F
  velocity_of s = (s.command.vx, s.command.vy, s.command.wz)

  -- The constructor `Service`, which rejects a bad configuration of the administrator.
  unfoldable pub new_service : Config F → Result (Service F)
  unfolding valid_password_hash token_equal
  new_service config =
      if not (is_empty config.admin_password_hash)
        && not (valid_password_hash config.admin_password_hash)
      then err
      else if not (is_empty config.admin_password_hash)
          && token_equal config.control_token config.token
      then err
      else ok (fresh config)
