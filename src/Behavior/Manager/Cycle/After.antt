-- ===== src/Behavior/Manager/Cycle/After.antt =====
-- src/behavior_manager/behavior_manager.cpp: the stages of `BehaviorManagerClass::Step` from the state
-- machine's step. Console and log output is left out.
use humanoid_common.Prelude.{
  true, false, ◌&&◌, not, Option, some, none, [], Text, ℤ, pos, int_eq, text_eq, is_empty,
  find_text, if◌then◌else◌,
}
use humanoid_common.Floats.{Float, nought}
use humanoid_common.RobotBase.Phase
use humanoid_common.Behavior.StateName.{StateName, same_state}
use humanoid_common.Behavior.State.{StateClass}
use humanoid_common.Behavior.Fsm
use humanoid_common.Behavior.Fsm.{is_some}
use humanoid_common.Behavior.States.Object.{state_class}
use humanoid_common.Behavior.Manager.Defs.{
  Manager, PrerequisiteEntry, set_key, current_state, in_state,
}
use humanoid_common.Behavior.Manager.Faults.{observe, resolve}
use humanoid_common.Behavior.Manager.Policies.{
  requested_policy_ready, start_action_handoff, finish_policy_action,
}
use humanoid_common.Behavior.Manager.Cycle.Before.{state_fault, force}

module _ {F R : Type 0} ⦃f : Float F⦄ (policy : StateClass F R) where
  -- `fsm.Step`; a key that the manager itself pressed does not outlive it.
  unfoldable pub step_fsm : F → F → ℤ → Manager F R → Manager F R
  step_fsm control_dt rl_dt requested_key m =
      let m' = record m { fsm = Fsm.step (state_class policy) control_dt rl_dt m.fsm } in
      if int_eq requested_key (pos 0) then set_key (pos 0) m' else m'

  -- A fault that the state reports after its step.
  unfoldable pub catch_state_fault : F → Manager F R → Manager F R
  catch_state_fault now m = elim (state_fault policy m) [
    | none ↦ m
    | some c ↦
        let m' = resolve now (observe (some c) m) in
        if not (in_state StateName.power_off m') && not (in_state StateName.safety m')
        then force policy StateName.safety m'
        else m'
  ]

  -- RL was left in this period.
  unfoldable pub leave_rl : F → Manager F R → Manager F R
  leave_rl now m =
      if same_state m.prev_fsm_state StateName.rl && not (in_state StateName.rl m)
      then (let m' = record m {
        policy_runtime_ready = false;
        policy_prepare_failed = false;
        policy_prepare_block_reported = false;
      } in
          if is_empty m'.action_owner
          then m'
          else finish_policy_action true
              (record m' { pending_policy = m'.action_owner; hot_switch_requested = false }))
      else m

  -- A prerequisite policy has run for its time: the final target is wanted now.
  abbrev pub run_prerequisite : F → F → PrerequisiteEntry F → Manager F R → Manager F R
  run_prerequisite now control_dt entry m =
      let timer =
        if text_eq m.active_policy entry.policy
        then f.add m.prerequisite_timer control_dt
        else m.prerequisite_timer in
      let m' = record m { prerequisite_timer = timer } in
      if f.le entry.duration timer
      then record m' {
        pending_policy = m'.final_target_policy;
        final_target_policy = [];
        waiting_prerequisite = false;
        hot_switch_requested = true;
        switch_started_s = now;
      }
      else m'

  unfoldable pub schedule_prerequisite : F → F → Manager F R → Manager F R
  schedule_prerequisite now control_dt m =
      if m.waiting_prerequisite && (in_state StateName.rl m && requested_policy_ready m)
      then elim (find_text m.final_target_policy m.settings.prerequisite_map) [
        | none ↦ m
        | some entry ↦ run_prerequisite now control_dt entry m
      ]
      else m

  abbrev pub text_or_empty : Option Text → Text
  text_or_empty none = []
  text_or_empty (some t) = t

  -- A policy that has finished goes back to the owner of its catalog, or to its return policy.
  unfoldable pub return_from_policy : F → Manager F R → Manager F R
  return_from_policy now m =
      if in_state StateName.rl m
        && (not m.waiting_prerequisite
            && (requested_policy_ready m
                && (not m.hot_switch_requested
                    && (not m.return_attempted && Fsm.policy_finished (state_class policy) m.fsm))))
      then (if not (is_empty m.action_owner) && not (text_eq m.active_policy m.action_owner)
          then start_action_handoff now m.action_owner (record m {
            return_attempted = true;
            action_returning = true;
            policy_action_status = record m.policy_action_status { phase = Phase.blend_out };
          })
          else if is_empty (text_or_empty (find_text m.active_policy m.settings.return_policies))
          then m
          else record m {
            return_attempted = true;
            pending_policy = text_or_empty (find_text m.active_policy m.settings.return_policies);
            hot_switch_requested = true;
            switch_started_s = now;
          })
      else m

  -- The chain of a prerequisite is given up where RL was left for POWER_OFF.
  unfoldable pub close_period : Manager F R → Manager F R
  close_period m =
      let m' =
        if m.waiting_prerequisite
          && (same_state m.prev_fsm_state StateName.rl && in_state StateName.power_off m)
        then record m {
          final_target_policy = [];
          waiting_prerequisite = false;
          prerequisite_timer = nought;
        }
        else m in
      record m' { prev_fsm_state = current_state m' }
