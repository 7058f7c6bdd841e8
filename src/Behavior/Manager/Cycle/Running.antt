-- ===== src/Behavior/Manager/Cycle/Running.antt =====
-- Through every stage of a period the state machine runs and keeps its SAFETY state.
use humanoid_common.Prelude.{
  if◌then◌else◌, ℕ, [], ◌⊎◌, ◌||◌, text_eq, ◌≡◌, refl, ◌∙◌, sym, Bool, true, false, ◌&&◌, not, Text,
  arith, Bool-cases, Option-cases, inl, inr, subst,
}
use humanoid_common.Floats.{Float}
use humanoid_common.RobotBase.{RobotData}
use humanoid_common.Behavior.StateName.{StateName}
use humanoid_common.Behavior.State.{Shared, StateClass}
use humanoid_common.Behavior.Fsm
use humanoid_common.Behavior.Fsm.Defs.{Fsm, is_some}
use humanoid_common.Behavior.Fsm.Wellformed.{IsRunning, on_current-IsRunning, on_current-registered}
use humanoid_common.Behavior.Fsm.Operations.{force_switch-IsRunning, force_switch-registered}
use humanoid_common.Behavior.Fsm.Stepping.{
  step-IsRunning, step-registered, replace_state-IsRunning, replace_state_deferred-IsRunning,
}
use humanoid_common.Behavior.Fsm.Frame.{replace_state-still, replace_state_deferred-still}
use humanoid_common.Behavior.States.Object.{
  StateObject, zero_state, rl_state, name_of, state_class, state_class-KeepsNames,
}
use humanoid_common.Behavior.Manager.Defs.{
  Manager, PreparedPolicyStates, Surroundings, fault, in_state,
}
use humanoid_common.Behavior.Manager.Faults.Defs.{
  observe, resolve, evaluate_reported, evaluate_safety_monitor,
}
use humanoid_common.Behavior.Manager.Policies.{
  stop_moving, finish_policy_action, install_prepared_policy, poll_policy_preparation,
}
use humanoid_common.Behavior.Manager.Cycle.Defs.{state_fault, observe_faults, announce_switch}
use humanoid_common.Behavior.Manager.Cycle.Frame.{
  SameMachine, resolve-SameMachine, observe-SameMachine,
}

pub record IsGuarded {F R : Type 0} (q : Fsm F (StateObject F R)) : Type 0 where
  pub running : IsRunning name_of q
  pub has_safety : is_some (q.states StateName.safety) ≡ true

module _ {F R : Type 0} where
  pub with_shared :
      (q : Fsm F (StateObject F R)) (d : Shared F)
      → IsGuarded q
      → IsGuarded (record q { shared = d })
  with_shared q d g = record {
    running = record {
      is_started = g.running.is_started;
      registered = g.running.registered;
      named = g.running.named;
    };
    has_safety = g.has_safety;
  }

  pub SameMachine-IsGuarded :
      (m' m : Manager F R) → SameMachine m' m → IsGuarded m.fsm → IsGuarded m'.fsm
  SameMachine-IsGuarded m' m e g =
      subst (λ q. IsGuarded q) (sym e) (with_shared m.fsm m'.fsm.shared g)

module _ {F R : Type 0} ⦃f : Float F⦄ (policy : StateClass F R) where
  pub force_switch-IsGuarded :
      (t : StateName) (q : Fsm F (StateObject F R))
      → IsGuarded q
      → IsGuarded (Fsm.force_switch (state_class policy) t q)
  force_switch-IsGuarded t q g = record {
    running =
        force_switch-IsRunning (state_class policy) name_of (state_class-KeepsNames policy) q
          g.running t;
    has_safety =
        force_switch-registered (state_class policy) name_of (state_class-KeepsNames policy) q
          g.running t StateName.safety
        ∙ g.has_safety;
  }

  pub step-IsGuarded :
      (t r : F) (q : Fsm F (StateObject F R))
      → IsGuarded q
      → IsGuarded (Fsm.step (state_class policy) t r q)
  step-IsGuarded t r q g = record {
    running =
        step-IsRunning (state_class policy) name_of (state_class-KeepsNames policy) q g.running t r;
    has_safety =
        step-registered (state_class policy) name_of (state_class-KeepsNames policy) q g.running t r
          StateName.safety
        ∙ g.has_safety;
  }

  pub request-IsGuarded :
      (a b : Bool) (q : Fsm F (StateObject F R))
      → IsGuarded q
      → IsGuarded (Fsm.request_policy_switch (state_class policy) a b q)
  unfolding Fsm.request_policy_switch
  request-IsGuarded a b q g =
      let names = state_class-KeepsNames policy in
      let c = state_class policy in
      record {
        running =
            on_current-IsRunning c name_of (c.request_policy_switch a b) q (names.request_name a b)
              g.running;
        has_safety =
            on_current-registered c name_of (c.request_policy_switch a b) q g.running
              StateName.safety
            ∙ g.has_safety;
      }

  pub replace_state-IsGuarded :
      (n : StateName) (s : StateObject F R)
      → name_of s ≡ n
      → (q : Fsm F (StateObject F R)) → IsGuarded q
      → IsGuarded (Fsm.replace_state (state_class policy) n s q)
        × ((Fsm.replace_state (state_class policy) n s q).current_name ≡ q.current_name)
  replace_state-IsGuarded n s e q g =
      let (v, same) =
        replace_state-IsRunning (state_class policy) name_of (state_class-KeepsNames policy) q
          g.running n s e in
      (
        record {
          running = v;
          has_safety = replace_state-still (state_class policy) n s q StateName.safety g.has_safety;
        },
        same,
      )

  pub replace_state_deferred-IsGuarded :
      (n : StateName) (s : StateObject F R)
      → name_of s ≡ n
      → (q : Fsm F (StateObject F R)) → IsGuarded q
      → IsGuarded (Fsm.replace_state_deferred (state_class policy) n s q).1
        × ((Fsm.replace_state_deferred (state_class policy) n s q).1.current_name ≡ q.current_name)
  replace_state_deferred-IsGuarded n s e q g =
      let (v, same) =
        replace_state_deferred-IsRunning (state_class policy) name_of
          (state_class-KeepsNames policy) q g.running n s e in
      (
        record {
          running = v;
          has_safety =
              replace_state_deferred-still (state_class policy) n s q StateName.safety g.has_safety;
        },
        same,
      )

  -- The machine after an installation.
  abbrev installed : PreparedPolicyStates F R → Fsm F (StateObject F R) → Fsm F (StateObject F R)
  installed p q =
      (Fsm.replace_state_deferred (state_class policy) StateName.rl (rl_state p.rl)
        (Fsm.replace_state (state_class policy) StateName.zero (zero_state p.zero) q)).1

  installed-IsGuarded :
      (p : PreparedPolicyStates F R) (q : Fsm F (StateObject F R))
      → IsGuarded q
      → IsGuarded (installed p q)
  installed-IsGuarded p q g =
      (replace_state_deferred-IsGuarded StateName.rl (rl_state p.rl) refl
        (Fsm.replace_state (state_class policy) StateName.zero (zero_state p.zero) q)
        (replace_state-IsGuarded StateName.zero (zero_state p.zero) refl q g).0).0

  install-fsm :
      (p : PreparedPolicyStates F R) (m : Manager F R)
      → (install_prepared_policy policy p m).fsm
        ≡ record (installed p m.fsm) { shared = (install_prepared_policy policy p m).fsm.shared }
  unfolding install_prepared_policy finish_policy_action
  install-fsm p m = ground arith

  install-IsGuarded :
      (p : PreparedPolicyStates F R) (m : Manager F R)
      → IsGuarded m.fsm
      → IsGuarded (install_prepared_policy policy p m).fsm
  install-IsGuarded p m g =
      subst (λ q. IsGuarded q) (sym (install-fsm p m))
        (with_shared (installed p m.fsm) (install_prepared_policy policy p m).fsm.shared
          (installed-IsGuarded p m.fsm g))

  -- Polling installs the policy at hand, or leaves the machine as it is.
  poll-cases :
      (world : Surroundings F R) (m : Manager F R)
      → ((poll_policy_preparation policy world m).fsm ≡ m.fsm)
        ⊎ ((p : PreparedPolicyStates F R) × ((poll_policy_preparation policy world m).fsm
              ≡ (install_prepared_policy policy p m).fsm))
  unfolding poll_policy_preparation finish_policy_action
  poll-cases world m = elim (Option-cases m.prepared_policy) [
    | inl e ↦ inl (ground arith)
    | inr (p, e) ↦
        let waits =
          m.hot_switch_requested
          && (in_state StateName.rl m
              && (not (fault m).latched
                  && not (Fsm.ready_for_policy_switch (state_class policy) m.fsm))) in
        elim (Bool-cases
          (world.retiring || (not (text_eq p.policy_name m.pending_policy) || waits))) [
            | inl h ↦ inl (ground arith)
            | inr h ↦ inr (p, ground arith)
          ]
  ]

  pub poll-IsGuarded :
      (world : Surroundings F R) (m : Manager F R)
      → IsGuarded m.fsm
      → IsGuarded (poll_policy_preparation policy world m).fsm
  poll-IsGuarded world m g = elim (poll-cases world m) [
    | inl e ↦ subst (λ q. IsGuarded q) (sym e) g
    | inr (p, e) ↦ subst (λ q. IsGuarded q) (sym e) (install-IsGuarded p m g)
  ]

  reported-fsm : (m : Manager F R) → (evaluate_reported m).1.fsm ≡ m.fsm
  unfolding evaluate_reported
  reported-fsm m = ground arith

  pub observe_faults-SameMachine :
      (describe : ℕ → RobotData F → Text) (now : F) (m : Manager F R)
      → SameMachine (observe_faults policy describe now m) m
  unfolding observe_faults
  observe_faults-SameMachine describe now m =
      let start = record m { fault_observations = [] } in
      let r = evaluate_reported start in
      let m2 = observe r.0 r.1 in
      let m3 = observe (evaluate_safety_monitor describe m2) m2 in
      let m4 = observe (state_fault policy m3) m3 in
      let same : m4.fsm ≡ m.fsm =
        observe-SameMachine (state_fault policy m3) m3
        ∙ observe-SameMachine (evaluate_safety_monitor describe m2) m2
        ∙ observe-SameMachine r.0 r.1
        ∙ reported-fsm start in
      subst (λ q. (resolve now m4).fsm ≡ record q { shared = (resolve now m4).fsm.shared }) same
        (resolve-SameMachine now m4)

  stop_if-IsGuarded :
      (b : Bool) (m : Manager F R)
      → IsGuarded m.fsm
      → IsGuarded (if b then stop_moving m else m).fsm
  stop_if-IsGuarded true m g = with_shared m.fsm _ g
  stop_if-IsGuarded false m g = g

  pub announce_switch-IsGuarded :
      (m : Manager F R) → IsGuarded m.fsm → IsGuarded (announce_switch policy m).fsm
  unfolding announce_switch
  announce_switch-IsGuarded m g =
      stop_if-IsGuarded m.hot_switch_requested _ (request-IsGuarded _ _ m.fsm g)
