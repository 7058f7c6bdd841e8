-- ===== src/Behavior/Manager/Requests/Defs.antt =====
-- src/behavior_manager/behavior_manager.cpp: the setters and getters of `BehaviorManagerClass`.
use humanoid_common.Prelude.{
  Result, ok, err, Bool, true, false, ◌&&◌, ◌||◌, not, some, none, [], Text, pos, int_eq, text_eq,
  is_empty, find_text, member, ◌==◌, if◌then◌else◌, codes,
}
use humanoid_common.Floats.{Float, nought}
use humanoid_common.RobotBase.{RobotData, FaultStatus, Command, InteractionStatus}
use humanoid_common.RobotBase.SwitchPhase
use humanoid_common.Behavior.StateName.{StateName}
use humanoid_common.Behavior.State.{ControlOutput, StateClass}
use humanoid_common.Behavior.Fsm
use humanoid_common.Behavior.States.Object.{StateObject, state_class}
use humanoid_common.Behavior.Manager.Defs.{Manager, PrerequisiteEntry, fault, set_command, in_state}
use humanoid_common.Behavior.Manager.Policies.{
  same_switch_group, finish_policy_action, handle_policy_action,
}

module _ {F R : Type 0} where
  -- `SetSensorData` and `SetSensorFault`.
  abbrev pub set_sensor_data : RobotData F → Manager F R → Manager F R
  set_sensor_data s m = record m {
    fsm = record m.fsm { shared = record m.fsm.shared { sensor = s } };
    sensor_received = true;
  }

  abbrev pub set_sensor_fault : FaultStatus F → Manager F R → Manager F R
  set_sensor_fault x m = record m { sensor_fault = x }

  abbrev pub get_output : Manager F R → ControlOutput F
  get_output m = m.fsm.shared.output

  abbrev pub current_policy_selection_name : Manager F R → Text
  current_policy_selection_name m =
      if is_empty m.action_owner then m.active_policy else m.action_owner

  -- `hot`: a change while the policy runs, within one `switch_group`.
  abbrev pub is_hot : Text → Manager F R → Bool
  is_hot target m = in_state StateName.rl m && same_switch_group target m

  abbrev pub refuse : Text → Manager F R → Manager F R
  refuse detail m = record m {
    policy_switch_status = record m.policy_switch_status {
      phase = SwitchPhase.rejected;
      detail = detail;
    };
  }

module _ {F R : Type 0} ⦃f : Float F⦄ where
  abbrev pub is_refused : Command F → Manager F R → Bool
  is_refused cmd m =
      not (member cmd.switch_policy m.settings.selectable_policies)
      || (not (int_eq cmd.key (pos 0))
          || (not m.settings.has_rl
              || ((fault m).latched
                  || (not (in_state StateName.power_off m)
                      && (not (in_state StateName.damp m) && not (is_hot cmd.switch_policy m))))))

  -- The wanted policy runs already.
  abbrev pub confirm : Manager F R → Manager F R
  confirm m =
      let m' = record m {
        hot_switch_requested = false;
        pending_policy = m.active_policy;
        final_target_policy = [];
        waiting_prerequisite = false;
        policy_switch_status = record m.policy_switch_status { phase = SwitchPhase.ready };
      } in
      if text_eq m'.active_policy m'.action_owner then finish_policy_action true m' else m'

  abbrev pub want_target : Text → Manager F R → Manager F R
  want_target target m = record m {
    pending_policy = target;
    final_target_policy = [];
    waiting_prerequisite = false;
    prerequisite_timer = nought;
    policy_prepare_failed = false;
    policy_prepare_block_reported = false;
  }

  -- The target's prerequisite runs first.
  abbrev pub want_prerequisite : Text → PrerequisiteEntry F → Manager F R → Manager F R
  want_prerequisite target entry m = record m {
    final_target_policy = target;
    pending_policy = entry.policy;
    prerequisite_timer = nought;
    waiting_prerequisite = true;
    policy_prepare_failed = false;
    policy_prepare_block_reported = false;
  }

  abbrev pub select_target : Bool → Text → Manager F R → Manager F R
  select_target hot target m = elim (find_text target m.settings.prerequisite_map) [
    | none ↦ want_target target m
    | some entry ↦
        if hot && not (same_switch_group entry.policy m)
        then refuse (codes "prerequisite is outside the running switch_group")
            (record m { hot_switch_requested = false })
        else want_prerequisite target entry m
  ]

  -- What `SetCommand` does with a new request for a policy.
  unfoldable pub request_switch : F → Command F → Manager F R → Manager F R
  unfolding finish_policy_action
  request_switch now cmd m =
      let asked = record m {
        policy_switch_status = record {
          sequence = cmd.policy_request_sequence;
          phase = SwitchPhase.preparing;
          policy = cmd.switch_policy;
          detail = [];
        };
      } in
      let hot = is_hot cmd.switch_policy asked in
      if is_refused cmd asked
      then refuse
          (codes "policy not selectable here; running switches require a common switch_group") asked
      else (let accepted = record asked { hot_switch_requested = hot; switch_started_s = now } in
          if text_eq cmd.switch_policy accepted.active_policy && accepted.policy_runtime_ready
          then confirm accepted
          else select_target hot cmd.switch_policy accepted)

  abbrev pub is_edge : Command F → Manager F R → Bool
  is_edge cmd m =
      not (text_eq cmd.switch_policy m.prev_switch_policy)
      || not (cmd.policy_request_sequence == m.prev_policy_request_sequence)

  -- `SetCommand`.
  unfoldable pub accept_command : F → Command F → Manager F R → Manager F R
  unfolding handle_policy_action request_switch
  accept_command now cmd m =
      let handled = handle_policy_action now cmd.interaction (set_command cmd m) in
      let noted = record handled {
        prev_switch_policy = cmd.switch_policy;
        prev_policy_request_sequence = cmd.policy_request_sequence;
      } in
      if not (is_edge cmd handled) || is_empty cmd.switch_policy
      then noted
      else request_switch now cmd noted

module _ {F R : Type 0} ⦃f : Float F⦄ (policy : StateClass F R) where
  -- `IsZeroReady` and `CurrentInteractionStatus`.
  unfoldable pub is_zero_ready : Manager F R → Bool
  is_zero_ready m = Fsm.ready_for_rl (state_class policy) m.fsm

  unfoldable pub current_interaction_status : Manager F R → InteractionStatus F
  current_interaction_status m =
      if is_empty m.action_owner
      then Fsm.current_interaction_status (state_class policy) m.fsm
      else m.policy_action_status

  -- `Init`, which throws what `FSM::Init` throws.
  abbrev pub initialized_by :
      Manager F R → Result (Fsm.Fsm F (StateObject F R)) → Result (Manager F R)
  initialized_by m err = err
  initialized_by m (ok q) = ok (record m { fsm = q; initialized = true })

  unfoldable pub init : Manager F R → Result (Manager F R)
  init m = initialized_by m (Fsm.init (state_class policy) m.fsm)
