-- ===== src/Behavior/Manager/Cycle/Before.antt =====
-- src/behavior_manager/behavior_manager.cpp: the stages of `BehaviorManagerClass::Step` before the state
-- machine's step. Console and log output is left out.
use humanoid_common.Prelude.{
  ℕ, Bool, true, false, ◌&&◌, ◌||◌, not, Option, some, none, [], Text, pos, negsuc, int_eq, text_eq,
  if◌then◌else◌, ok, err, codes,
}
use humanoid_common.Floats.{Float}
use humanoid_common.RobotBase.{RobotData, FaultStatus}
use humanoid_common.RobotBase.SwitchPhase
use humanoid_common.Behavior.StateName.{StateName}
use humanoid_common.Behavior.State.{StateClass}
use humanoid_common.Behavior.Fsm
use humanoid_common.Behavior.Fsm.{is_some}
use humanoid_common.Behavior.States.Object.{state_class}
use humanoid_common.Behavior.Manager.Defs.{Manager, Surroundings, fault, command, set_key, in_state}
use humanoid_common.Behavior.Manager.Faults.{
  evaluate_reported, evaluate_safety_monitor, observe, resolve,
}
use humanoid_common.Behavior.Manager.Policies.{
  requested_policy_ready, is_preparing, end_switch, stop_moving, finish_policy_action,
  start_policy_preparation,
}

module _ {F R : Type 0} ⦃f : Float F⦄ (policy : StateClass F R) where
  -- The current state's own fault, if it reports one.
  abbrev pub state_fault : Manager F R → Option (FaultStatus F)
  state_fault m =
      let c = Fsm.current_fault (state_class policy) m.fsm in
      if c.active || c.latched then some c else none

  -- The observation cycle, up to `ResolveObservedFaults`.
  unfoldable pub observe_faults : (ℕ → RobotData F → Text) → F → Manager F R → Manager F R
  observe_faults describe now m =
      let (reported, m1) = evaluate_reported (record m { fault_observations = [] }) in
      let m2 = observe reported m1 in
      let m3 = observe (evaluate_safety_monitor describe m2) m2 in
      resolve now (observe (state_fault m3) m3)

  -- What gives up a change of policy: the wanted policy is the active one again.
  abbrev pub abandon_switch : Manager F R → Manager F R
  abandon_switch m =
      let m' =
        if text_eq m.pending_policy m.action_target || text_eq m.pending_policy m.action_owner
        then finish_policy_action false m
        else m in
      record m' {
        pending_policy = m'.active_policy;
        hot_switch_requested = false;
        waiting_prerequisite = false;
        final_target_policy = [];
      }

  -- A running switch ends on a fault, a stop key or its time limit.
  unfoldable pub check_running_switch : F → Manager F R → Manager F R
  check_running_switch now m =
      if (m.hot_switch_requested && in_state StateName.rl m)
        && ((fault m).latched
            || (int_eq (command m).key (negsuc 0)
                || (int_eq (command m).key (pos 1)
                    || f.lt m.settings.switch_timeout_s (f.sub now m.switch_started_s))))
      then end_switch SwitchPhase.rejected
          (codes "policy handoff cancelled or timed out; current policy retained")
          (abandon_switch m)
      else m

  unfoldable pub announce_switch : Manager F R → Manager F R
  announce_switch m =
      let m' = record m {
        fsm =
            Fsm.request_policy_switch (state_class policy)
              (m.hot_switch_requested
                && (is_some m.prepared_policy && not (text_eq m.pending_policy m.active_policy)))
              m.action_returning m.fsm;
      } in
      if m'.hot_switch_requested then stop_moving m' else m'

  abbrev pub force : StateName → Manager F R → Manager F R
  force target m = record m { fsm = Fsm.force_switch (state_class policy) target m.fsm }

  -- A latched fault forces SAFETY on every state but POWER_OFF, where it blocks the keys.
  unfoldable pub enforce_fault : Manager F R → Manager F R
  enforce_fault m =
      let m' =
        if (fault m).latched
          && (not (in_state StateName.power_off m) && not (in_state StateName.safety m))
        then force StateName.safety m
        else m in
      if (fault m').latched
        && (in_state StateName.power_off m'
            && (not (int_eq (command m').key (pos 0)) && not (int_eq (command m').key (negsuc 0))))
      then record (set_key (pos 0) m') { fault_block_reported = true }
      else m'

  abbrev pub preparation_state : Manager F R → Bool
  preparation_state m =
      in_state StateName.power_off m
      || (in_state StateName.damp m
          || (in_state StateName.rl m && not (text_eq m.pending_policy m.active_policy)))

  -- `StartPolicyPreparation` has thrown.
  abbrev pub preparation_refused : Text → Manager F R → Manager F R
  preparation_refused message m =
      let m' = end_switch SwitchPhase.failed message (record m { policy_prepare_failed = true }) in
      if text_eq m'.pending_policy m'.active_policy
      then m'
      else record (abandon_switch m') { policy_prepare_failed = false }

  unfoldable pub prepare_policy : Surroundings F R → Manager F R → Manager F R
  prepare_policy world m =
      if m.settings.has_rl
        && (preparation_state m
            && (not (requested_policy_ready m)
                && (not m.policy_prepare_active && not m.policy_prepare_failed)))
      then elim (start_policy_preparation world.can_start m.pending_policy m) [
        | ok m' ↦ m'
        | err ↦ preparation_refused world.message m
      ]
      else m

  -- A request is answered READY once its policy runs, and HOME waits for the policy.
  unfoldable pub answer_requests : Manager F R → Manager F R
  answer_requests m =
      let m' =
        if requested_policy_ready m
          && ((not m.waiting_prerequisite || not (in_state StateName.rl m)) && is_preparing m)
        then record m {
          policy_switch_status = record m.policy_switch_status { phase = SwitchPhase.ready };
        }
        else m in
      if m'.settings.has_rl
        && (in_state StateName.damp m'
            && (int_eq (command m').key (pos 4) && not (requested_policy_ready m')))
      then record (set_key (pos 0) m') { policy_prepare_block_reported = true }
      else m'

  -- The automatic preparation of a fixed-base robot.
  abbrev pub advance_startup : Manager F R → Manager F R
  advance_startup m =
      if in_state StateName.power_off m
      then force StateName.home m
      else if in_state StateName.home m
      then set_key (pos 2) m
      else if in_state StateName.zero m
      then set_key (pos 3) m
      else if in_state StateName.trajectory m
      then record m { startup_prepare_pending = false }
      else m

  unfoldable pub prepare_startup : Manager F R → Manager F R
  prepare_startup m =
      if not m.startup_prepare_pending
      then m
      else if (fault m).latched || not (int_eq (command m).key (pos 0))
      then record m { startup_prepare_pending = false }
      else if m.sensor_received
      then advance_startup m
      else m
