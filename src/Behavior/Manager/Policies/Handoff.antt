-- ===== src/Behavior/Manager/Policies/Handoff.antt =====
-- src/behavior_manager/behavior_manager.cpp: handing over between policies and the actions of a policy
-- (`RequestedPolicyReady` to `HandlePolicyAction`). Console and log output is left out.
use humanoid_common.Prelude.{
  ℕ, Bool, true, false, ◌&&◌, ◌||◌, not, Option, some, none, [], Text, pos, int_eq, text_eq,
  is_empty, find_text, Dict, ◌==◌, if◌then◌else◌,
}
use humanoid_common.Floats.{Float, nought, one}
use humanoid_common.RobotBase.{InteractionRequest, no_request}
use humanoid_common.RobotBase.Operation
use humanoid_common.RobotBase.Phase
use humanoid_common.RobotBase.SwitchPhase
use humanoid_common.Behavior.StateName.{StateName}
use humanoid_common.Behavior.Fsm.{is_some}
use humanoid_common.Behavior.Manager.Defs.{Manager, fault, command, set_command, in_state}

abbrev pub same_group : Option Text → Option Text → Bool
same_group (some a) (some b) = not (is_empty a) && text_eq a b
same_group _ _ = false

module _ {F R : Type 0} where
  -- `RequestedPolicyReady`.
  abbrev pub requested_policy_ready : Manager F R → Bool
  requested_policy_ready m =
      m.policy_runtime_ready
      && (text_eq m.pending_policy m.active_policy
          && (not m.policy_prepare_active && not (is_some m.prepared_policy)))

  -- `SameSwitchGroup`.
  abbrev pub same_switch_group : Text → Manager F R → Bool
  same_switch_group target m =
      same_group (find_text m.active_policy m.settings.switch_groups)
        (find_text target m.settings.switch_groups)

  abbrev pub is_preparing : Manager F R → Bool
  is_preparing m = m.policy_switch_status.phase == SwitchPhase.preparing

  -- The result of a switch request, while it is pending.
  abbrev pub end_switch : ℕ → Text → Manager F R → Manager F R
  end_switch phase detail m =
      if is_preparing m
      then record m {
        policy_switch_status = record m.policy_switch_status { phase = phase; detail = detail };
      }
      else m

module _ {F R : Type 0} ⦃f : Float F⦄ where
  abbrev pub stop_moving : Manager F R → Manager F R
  stop_moving m = set_command (record (command m) { vx = nought; vy = nought; wz = nought }) m

  -- `StartActionHandoff`.
  unfoldable pub start_action_handoff : F → Text → Manager F R → Manager F R
  start_action_handoff now target m = stop_moving (record m {
    pending_policy = target;
    hot_switch_requested = in_state StateName.rl m && not (text_eq target m.active_policy);
    switch_started_s = now;
    waiting_prerequisite = false;
    final_target_policy = [];
    policy_prepare_failed = false;
    policy_prepare_block_reported = false;
  })

  -- `FinishPolicyAction`.
  unfoldable pub finish_policy_action : Bool → Manager F R → Manager F R
  finish_policy_action accepted m =
      let unnamed = is_empty m.policy_action_status.action in
      record m {
        policy_action_status = record m.policy_action_status {
          request_accepted = accepted;
          phase =
              if unnamed then Phase.idle else if accepted then Phase.finished else Phase.rejected;
          progress = if unnamed then nought else if accepted then one else nought;
        };
        action_target = [];
        action_returning = false;
      }

  -- `command.interaction = {}`.
  abbrev pub drop_interaction : Manager F R → Manager F R
  drop_interaction m = set_command (record (command m) { interaction = no_request }) m

  abbrev pub can_run : Manager F R → Bool
  can_run m = in_state StateName.rl m && (not (fault m).latched && int_eq (command m).key (pos 0))

  abbrev pub accept_cancel : F → InteractionRequest → Manager F R → Manager F R
  accept_cancel now request m =
      let accepted = record m {
        policy_action_status = record m.policy_action_status {
          sequence = request.sequence;
          request_accepted = true;
        };
      } in
      if text_eq m.active_policy m.action_owner
      then finish_policy_action true (start_action_handoff now m.action_owner accepted)
      else start_action_handoff now m.action_owner (record accepted {
        action_returning = true;
        policy_action_status = record accepted.policy_action_status { phase = Phase.blend_out };
      })

  -- A rejected second request does not hide an action that is still running.
  abbrev pub reject_action : InteractionRequest → Manager F R → Manager F R
  reject_action request m =
      let status = record m.policy_action_status {
        sequence = request.sequence;
        request_accepted = false;
      } in
      record m {
        policy_action_status =
            if is_empty m.action_target
            then record status {
              action = request.action;
              phase = if is_empty request.action then Phase.idle else Phase.rejected;
              progress = nought;
            }
            else status;
      }

  -- The actions of the owner's catalog, which `policy_actions.at` finds.
  abbrev pub catalog : Manager F R → Dict Text
  catalog m = elim (find_text m.action_owner m.settings.policy_actions) [ none ↦ [] | some c ↦ c ]

  abbrev pub start_action : F → InteractionRequest → Manager F R → Manager F R
  start_action now request m = elim (find_text request.action (catalog m)) [
    | none ↦ reject_action request m
    | some target ↦
        if not (can_run m)
          || (not (request.operation == Operation.start)
              || (not (is_empty m.action_target)
                  || (not (text_eq m.active_policy m.action_owner)
                      || (not (text_eq m.pending_policy m.active_policy)
                          || not (requested_policy_ready m)))))
        then reject_action request m
        else start_action_handoff now target (record m {
          policy_action_status = record {
            sequence = request.sequence;
            request_accepted = true;
            phase = Phase.blend_in;
            progress = nought;
            action = request.action;
          };
          action_target = target;
          action_returning = false;
        })
  ]

  abbrev pub cancel_applies : InteractionRequest → Manager F R → Bool
  cancel_applies request m =
      (request.operation == Operation.cancel)
      && (can_run m
          && (text_eq m.pending_policy m.active_policy
              || (text_eq m.pending_policy m.action_target
                  || text_eq m.pending_policy m.action_owner)))

  -- `HandlePolicyAction`.
  unfoldable pub handle_policy_action : F → InteractionRequest → Manager F R → Manager F R
  unfolding start_action_handoff finish_policy_action
  handle_policy_action now request m =
      if is_empty m.action_owner
      then m
      else (let m' = drop_interaction m in
          if (request.operation == Operation.unset)
            || ((request.sequence == 0) || (request.sequence == m.previous_action_sequence))
          then m'
          else (let seen = record m' { previous_action_sequence = request.sequence } in
              if cancel_applies request seen
              then accept_cancel now request seen
              else start_action now request seen))
