-- ===== src/Operator/Feedback.antt =====
-- src/operator_service/service/service.cpp: `UpdateStatus`, which takes the robot's status and decides
-- pending requests by it.
use humanoid_common.Prelude.{
  ◌+◌, Bool, true, false, ◌&&◌, ◌||◌, not, [], Text, text, codes, text_eq, ◌==◌, min, if◌then◌else◌,
  pos, int_eq, Option, none, some,
}
use humanoid_common.Floats.{Float, nought}
use humanoid_common.RobotBase.{ControlStatus, FaultStatus}
use humanoid_common.RobotBase.Operation
use humanoid_common.RobotBase.SwitchPhase
use humanoid_common.Operator.Data.{
  Op, Service, ResultPhase, is_accepted, completed, rejected, failed,
}
use humanoid_common.Operator.Names.{state_name}
use humanoid_common.Operator.Input.{finish, halt}

-- `result_.operation == "state"`, for the stored operation.
abbrev pub is_state : Option Op → Bool
is_state (some Op.state) = true
is_state _ = false

abbrev pub is_ack : Option Op → Bool
is_ack (some Op.ack) = true
is_ack _ = false

module _ {F : Type 0} ⦃f : Float F⦄ where
  -- The new status and fault, and what a change of mode or policy takes back.
  unfoldable pub take_status : F → ControlStatus F → FaultStatus F → Service F → Service F
  take_status now status fault s =
      let changed =
        not (int_eq status.mode s.status.mode)
        || not (text_eq status.active_policy s.status.active_policy) in
      let t = record s {
        status = status;
        fault = fault;
        status_at = now;
        status_samples = min 2 (s.status_samples + 1);
      } in
      if changed
      then record t {
        command = record (halt s.command) {
          key = if is_state s.result.operation then s.command.key else pos 0;
        };
        reference_until = nought;
      }
      else t

  -- The robot's answer to a pending change of state: `none` while there is none.
  unfoldable pub state_verdict : Service F → Option (ResultPhase × Text)
  state_verdict s =
      if text_eq s.pending_target (state_name s.status.mode)
        && (not (int_eq s.status.mode s.source_mode) || s.command_sent)
      then some (completed, text "control entered requested state")
      else if not (int_eq s.status.mode s.source_mode)
      then some (rejected, text "control entered a different state")
      else none

  -- To a policy.
  unfoldable pub policy_verdict : Service F → Option (ResultPhase × Text)
  policy_verdict s =
      if s.status.policy_switch.sequence == s.command.policy_request_sequence
        && text_eq s.status.policy_switch.policy s.pending_target
      then (if s.status.policy_switch.phase == SwitchPhase.ready
          then some (completed, text "control prepared requested policy")
          else if s.status.policy_switch.phase == SwitchPhase.failed
          then some (failed, s.status.policy_switch.detail)
          else if s.status.policy_switch.phase == SwitchPhase.rejected
          then some (rejected, s.status.policy_switch.detail)
          else none)
      else none

  -- To an acknowledgement.
  unfoldable pub ack_verdict : Service F → Option (ResultPhase × Text)
  ack_verdict s =
      if not s.fault.latched then some (completed, text "control acknowledged fault") else none

  abbrev pub conclude : Option (ResultPhase × Text) → Service F → Service F
  conclude none s = s
  conclude (some (phase, message)) s = finish phase message s

  -- To an action, or to the cancelling of one.
  unfoldable pub confirm_action : Service F → Service F
  unfolding finish
  confirm_action s =
      if s.command.interaction.sequence == s.status.interaction.sequence
      then (let t =
            finish (if s.status.interaction.request_accepted then completed else rejected)
              (text "control handled action request") s in
          record t {
            command = record t.command {
              interaction = record t.command.interaction {
                operation = Operation.unset;
                action = [];
              };
            };
          })
      else s

  unfoldable pub confirm : Option Op → Service F → Service F
  unfolding state_verdict policy_verdict ack_verdict confirm_action
  confirm none s = s
  confirm (some Op.state) s = conclude (state_verdict s) s
  confirm (some Op.policy) s = conclude (policy_verdict s) s
  confirm (some Op.interaction) s = confirm_action s
  confirm (some Op.cancel) s = confirm_action s
  confirm (some Op.ack) s = conclude (ack_verdict s) s
  confirm (some op) s = s

  -- A latched fault rejects what is still pending, but for acknowledgements and for going to rest.
  unfoldable pub reject_by_fault : Service F → Service F
  unfolding finish
  reject_by_fault s =
      if is_accepted s.result.phase
        && (s.fault.latched
            && (not (is_ack s.result.operation)
                && (not (text_eq s.pending_target (codes "POWER_OFF"))
                    && not (text_eq s.pending_target (codes "DAMP")))))
      then finish rejected s.fault.detail s
      else s

  unfoldable pub update_status : F → ControlStatus F → FaultStatus F → Service F → Service F
  unfolding take_status confirm reject_by_fault
  update_status now status fault s =
      let t = take_status now status fault s in
      if is_accepted t.result.phase then reject_by_fault (confirm t.result.operation t) else t
