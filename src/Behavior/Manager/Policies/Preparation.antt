-- ===== src/Behavior/Manager/Policies/Preparation.antt =====
-- src/behavior_manager/behavior_manager.cpp: preparing policies in the background and installing them
-- (`StartPolicyPreparation` to `PollPolicyPreparation`). Console and log output is left out.
use humanoid_common.Prelude.{
  Bool, true, false, ◌&&◌, ◌||◌, not, some, none, [], Text, pos, int_eq, text_eq, is_empty,
  has_text, if◌then◌else◌, Result, ok, err, codes,
}
use humanoid_common.Floats.{Float, nought}
use humanoid_common.RobotBase.{no_interaction, command_start_reference}
use humanoid_common.RobotBase.Phase
use humanoid_common.RobotBase.SwitchPhase
use humanoid_common.Behavior.StateName.{StateName}
use humanoid_common.Behavior.State.{StateClass}
use humanoid_common.Behavior.Fsm
use humanoid_common.Behavior.Fsm.{is_some}
use humanoid_common.Behavior.States.Object.{rl_state, zero_state, state_class}
use humanoid_common.Behavior.Manager.Defs.{
  Manager, PreparedPolicyStates, Surroundings, fault, command, set_key, in_state,
}
use humanoid_common.Behavior.Manager.Policies.Handoff.{end_switch, finish_policy_action}

module _ {F R : Type 0} ⦃f : Float F⦄ where
  -- `StartPolicyPreparation`. `can_start` says whether `std::async` starts; if not, it throws.
  unfoldable pub start_policy_preparation : Bool → Text → Manager F R → Result (Manager F R)
  start_policy_preparation can_start policy m =
      if m.policy_prepare_active || (is_some m.prepared_policy || is_empty policy)
      then ok m
      else if can_start
      then ok (record m {
        preparing_policy = policy;
        policy_prepare_failed = false;
        policy_prepare_active = true;
      })
      else err

module _ {F R : Type 0} ⦃f : Float F⦄ (policy : StateClass F R) where
  -- The bookkeeping of `InstallPreparedPolicy` for a catalog of actions.
  abbrev pub settle_action : Manager F R → Manager F R
  settle_action m =
      if text_eq m.active_policy m.action_owner
      then (if not (is_empty m.action_target) || m.action_returning
          then finish_policy_action true m
          else m)
      else if not (is_empty m.action_target)
          && (text_eq m.active_policy m.action_target && not m.action_returning)
      then set_key (pos command_start_reference) (record m {
        policy_action_status = record m.policy_action_status { phase = Phase.playing };
      })
      else record m {
        action_owner =
            if has_text m.active_policy m.settings.policy_actions then m.active_policy else [];
        action_target = [];
        action_returning = false;
        policy_action_status = no_interaction;
      }

  -- `InstallPreparedPolicy`.
  unfoldable pub install_prepared_policy : PreparedPolicyStates F R → Manager F R → Manager F R
  unfolding finish_policy_action
  install_prepared_policy states m =
      let fsm =
        Fsm.replace_state (state_class policy) StateName.zero (zero_state states.zero) m.fsm in
      let (retired, fsm') =
        Fsm.replace_state_deferred (state_class policy) StateName.rl (rl_state states.rl) fsm in
      let settled = settle_action (record m { fsm = fsm'; active_policy = states.policy_name }) in
      record settled {
        return_attempted = false;
        hot_switch_requested = settled.hot_switch_requested && settled.waiting_prerequisite;
        policy_runtime_ready = true;
        policy_prepare_failed = false;
        policy_prepare_block_reported = false;
        prerequisite_timer = nought;
      }

  -- The branch of `PollPolicyPreparation` with a policy in hand.
  abbrev pub poll_prepared : PreparedPolicyStates F R → Manager F R → Manager F R
  poll_prepared states m =
      if not (text_eq states.policy_name m.pending_policy)
      then record m { prepared_policy = none }
      else if m.hot_switch_requested
          && (in_state StateName.rl m
              && (not (fault m).latched
                  && not (Fsm.ready_for_policy_switch (state_class policy) m.fsm)))
      then end_switch m.policy_switch_status.phase
          (codes "waiting for current policy to finish its handoff") m
      else record (install_prepared_policy states m) { prepared_policy = none }

  -- A preparation that has failed, unless a newer request has replaced it.
  abbrev pub preparation_failed : Text → Text → Manager F R → Manager F R
  preparation_failed message completed m =
      if not (text_eq completed m.pending_policy)
      then m
      else (let m' = end_switch SwitchPhase.failed message m in
          if text_eq completed m.active_policy
          then record m' { policy_prepare_failed = true }
          else (let finished =
                if text_eq completed m'.action_target || text_eq completed m'.action_owner
                then finish_policy_action false m'
                else m' in
              record finished {
                pending_policy = finished.active_policy;
                hot_switch_requested = false;
                final_target_policy = [];
                waiting_prerequisite = false;
                policy_prepare_failed = false;
              }))

  -- A preparation that has succeeded. A running switch is given up if the state, a fault or a key has
  -- come between, and a result that is no longer asked for is dropped.
  abbrev pub preparation_succeeded : PreparedPolicyStates F R → Manager F R → Manager F R
  preparation_succeeded states m =
      if m.hot_switch_requested
        && ((fault m).latched
            || (not (int_eq (command m).key (pos 0)) || not (in_state StateName.rl m)))
      then end_switch SwitchPhase.rejected
          (codes "running policy switch cancelled by state/fault change")
          (record m { pending_policy = m.active_policy; hot_switch_requested = false })
      else if text_eq states.policy_name m.pending_policy
      then record m { prepared_policy = some states }
      else m

  abbrev pub finish_preparation :
      Text → Result (PreparedPolicyStates F R) → Manager F R → Manager F R
  finish_preparation message result m =
      let done = record m { policy_prepare_active = false; preparing_policy = [] } in
      elim result [
        | ok states ↦ preparation_succeeded states done
        | err ↦ preparation_failed message m.preparing_policy done
      ]

  -- `PollPolicyPreparation`.
  unfoldable pub poll_policy_preparation : Surroundings F R → Manager F R → Manager F R
  unfolding install_prepared_policy
  poll_policy_preparation world m = if world.retiring then m else elim m.prepared_policy [
    | some states ↦ poll_prepared states m
    | none ↦ if not m.policy_prepare_active then m else elim world.prepare_result [
      | none ↦ m
      | some result ↦ finish_preparation world.message result m
    ]
  ]
