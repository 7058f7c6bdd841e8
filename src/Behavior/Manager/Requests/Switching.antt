-- ===== src/Behavior/Manager/Requests/Switching.antt =====
-- When a request for a policy is answered, when it is refused, and what a refusal leaves alone.
use humanoid_common.Prelude.{
  Option-cases, if_either, find_text, text_eq, [], ◌&&◌, not, ◌≡◌, ◌≢◌, ◌⊎◌, inl, inr, refl, Bool,
  true, false, Text, pos, int_eq_iff, member, arith,
}
use humanoid_common.Floats.{Float}
use humanoid_common.RobotBase.{Command}
use humanoid_common.RobotBase.SwitchPhase
use humanoid_common.Behavior.StateName.{StateName, same_state_iff}
use humanoid_common.Behavior.Manager.Defs.{Manager, fault, current_state}
use humanoid_common.Behavior.Manager.Policies.{same_switch_group, finish_policy_action}
use humanoid_common.Behavior.Manager.Requests.Defs.{
  is_refused, select_target, confirm, is_hot, request_switch,
}

-- Where a change of policy may be asked for.
pub record MaySwitch {F R : Type 0} (cmd : Command F) (m : Manager F R) : Type 0 where
  pub selectable : member cmd.switch_policy m.settings.selectable_policies ≡ true
  pub no_key : cmd.key ≡ pos 0
  pub has_rl : m.settings.has_rl ≡ true
  pub no_fault : (fault m).latched ≡ false
  pub from_rest :
      (current_state m ≡ StateName.power_off)
      ⊎ ((current_state m ≡ StateName.damp)
          ⊎ ((current_state m ≡ StateName.rl) × (same_switch_group cmd.switch_policy m ≡ true)))

module _ {F R : Type 0} ⦃f : Float F⦄ where
  refused-phase :
      (now : F) (cmd : Command F) (m : Manager F R)
      → is_refused cmd m ≡ true
      → (request_switch now cmd m).policy_switch_status.phase ≡ SwitchPhase.rejected
  unfolding request_switch
  refused-phase now cmd m e = rw e refl

  -- A new request that is not refused outright was allowed: the policy is selectable, no key is pressed, no
  -- fault is latched, and the robot is in POWER_OFF or DAMP, or in RL with a policy of the same group.
  pub request_needs :
      (now : F) (cmd : Command F) (m : Manager F R)
      → (request_switch now cmd m).policy_switch_status.phase ≢ SwitchPhase.rejected
      → MaySwitch cmd m
  request_needs now cmd m h =
      let allowed : is_refused cmd m ≡ false = ground (arith, refused-phase now cmd m) in
      record {
        selectable = ground (arith, allowed);
        no_key = ground (arith, allowed, int_eq_iff cmd.key (pos 0));
        has_rl = ground (arith, allowed);
        no_fault = ground (arith, allowed);
        from_rest = ground (
          arith,
          allowed,
          same_state_iff (current_state m) StateName.power_off,
          same_state_iff (current_state m) StateName.damp,
          same_state_iff (current_state m) StateName.rl,
        );
      }

  -- The part of the state that a request for a policy decides, but for the flag of a change while running.
  abbrev pub chosen : Manager F R → Text × Text × Text × Bool
  chosen m = (m.active_policy, m.pending_policy, m.final_target_policy, m.waiting_prerequisite)

  abbrev pub wanted : Manager F R → (Text × Text × Text × Bool) × Bool
  wanted m = (chosen m, m.hot_switch_requested)

  -- What a request makes of the manager, where the answer is REJECTED.
  pub record IsRejection (cmd : Command F) (m n : Manager F R) : Type 0 where
    kept :
        n.policy_switch_status.phase ≡ SwitchPhase.rejected
        → (chosen n ≡ chosen m)
          × (n.policy_switch_status.sequence ≡ cmd.policy_request_sequence)
          × ((n.hot_switch_requested ≡ m.hot_switch_requested) ⊎ (n.hot_switch_requested ≡ false))

  select_target-IsRejection :
      (hot : Bool) (cmd : Command F) (m n : Manager F R)
      → chosen n ≡ chosen m
      → n.policy_switch_status.sequence ≡ cmd.policy_request_sequence
      → n.policy_switch_status.phase ≡ SwitchPhase.preparing
      → IsRejection cmd m (select_target hot cmd.switch_policy n)
  select_target-IsRejection hot cmd m n a b c =
      elim (Option-cases (find_text cmd.switch_policy n.settings.prerequisite_map)) [
        | inl e ↦ rw (e, select_target) (record { kept = λ h. ground (arith, h, c) })
        | inr (entry, e) ↦
            rw (e, select_target)
              (if_either (IsRejection cmd m) (hot && not (same_switch_group entry.policy n))
                (record { kept = λ h. (a, b, inr refl) })
                (record { kept = λ h. ground (arith, h, c) }))
      ]

  confirm-IsRejection : (cmd : Command F) (m n : Manager F R) → IsRejection cmd m (confirm n)
  unfolding finish_policy_action
  confirm-IsRejection cmd m n =
      let ready = record n {
        hot_switch_requested = false;
        pending_policy = n.active_policy;
        final_target_policy = [];
        waiting_prerequisite = false;
        policy_switch_status = record n.policy_switch_status { phase = SwitchPhase.ready };
      } in
      if_either (IsRejection cmd m) (text_eq n.active_policy n.action_owner)
        {x = finish_policy_action true ready} (record { kept = λ h. ground (arith, h) })
        (record { kept = λ h. ground (arith, h) })

  request_switch-IsRejection :
      (now : F) (cmd : Command F) (m : Manager F R) → IsRejection cmd m (request_switch now cmd m)
  unfolding request_switch
  request_switch-IsRejection now cmd m =
      let asked = record m {
        policy_switch_status = record {
          sequence = cmd.policy_request_sequence;
          phase = SwitchPhase.preparing;
          policy = cmd.switch_policy;
          detail = [];
        };
      } in
      let hot = is_hot cmd.switch_policy asked in
      let accepted = record asked { hot_switch_requested = hot; switch_started_s = now } in
      if_either (IsRejection cmd m) (is_refused cmd asked)
        (record { kept = λ h. (refl, refl, inl refl) })
        (if_either (IsRejection cmd m)
          (text_eq cmd.switch_policy accepted.active_policy && accepted.policy_runtime_ready)
          (confirm-IsRejection cmd m accepted)
          (select_target-IsRejection hot cmd m accepted refl refl refl))

  -- Whenever a new request is answered REJECTED, for whichever of the two reasons, the answer has the
  -- request's number, the active and the pending policy and a running chain stay, and the flag of a change
  -- while running stays or is cleared.
  pub rejection_keeps :
      (now : F) (cmd : Command F) (m : Manager F R)
      → let n = request_switch now cmd m in
        n.policy_switch_status.phase ≡ SwitchPhase.rejected
        → (chosen n ≡ chosen m)
          × (n.policy_switch_status.sequence ≡ cmd.policy_request_sequence)
          × ((n.hot_switch_requested ≡ m.hot_switch_requested) ⊎ (n.hot_switch_requested ≡ false))
  rejection_keeps now cmd m h = (request_switch-IsRejection now cmd m).kept h
