-- ===== src/Behavior/Fsm/Stepping.antt =====
-- `FSM::Step`, `FSM::Init` and the two ways of replacing a state, from the lemmas on their parts.
use humanoid_common.Prelude.{◌≡◌, refl, ◌∙◌, ◌&&◌, Bool-cases, inl, inr}
use humanoid_common.Floats.{Float}
use humanoid_common.Behavior.StateName.{StateName, same_state, put}
use humanoid_common.Behavior.State.{StateClass}
use humanoid_common.Behavior.Fsm.Defs.{
  Fsm, is_some, current, on_current, replace_state, replace_state_deferred, next_state, step,
  force_switch,
}
use humanoid_common.Behavior.Fsm.Wellformed.{
  KeepsNames, IsRunning, put-AllNamed, put-is_some, current_object, on_current-name,
  on_current-registered, on_current-IsRunning,
}
use humanoid_common.Behavior.Fsm.Operations.{
  target_or_same, force_switch-IsRunning, force_switch-name, force_switch-registered,
  next_state-IsRunning, next_state-name, next_state-registered,
}

module _ {F S : Type 0} ⦃f : Float F⦄ (c : StateClass F S) (name_of : S → StateName)
    (keeps : KeepsNames c name_of) where
  module _ (m : Fsm F S) (r : IsRunning name_of m) where
    -- After its check the machine switches as `ForceSwitch` does, and then runs the current state.
    abbrev pub moved : Fsm F S
    moved = force_switch c (next_state c m).0 (next_state c m).1

    step_lem :
        (control_dt rl_dt : F)
        → step c control_dt rl_dt m ≡ on_current c (c.run control_dt rl_dt) moved
    unfolding step force_switch
    step_lem control_dt rl_dt = let (s, e, e', _) = current_object c name_of m r in rw e'

    moved-IsRunning : IsRunning name_of moved
    moved-IsRunning =
        force_switch-IsRunning c name_of keeps (next_state c m).1
          (next_state-IsRunning c name_of keeps m r) (next_state c m).0

    moved-registered : (n : StateName) → is_some (moved.states n) ≡ is_some (m.states n)
    moved-registered n =
        force_switch-registered c name_of keeps (next_state c m).1
          (next_state-IsRunning c name_of keeps m r) (next_state c m).0 n
        ∙ next_state-registered c name_of keeps m r n

    moved-name : moved.current_name ≡ target_or_same m (next_state c m).0
    moved-name = rw (
      force_switch-name c name_of keeps (next_state c m).1
          (next_state-IsRunning c name_of keeps m r) (next_state c m).0,
      next_state-registered c name_of keeps m r (next_state c m).0,
      next_state-name c name_of keeps m r,
    )

    pub step-IsRunning : (control_dt rl_dt : F) → IsRunning name_of (step c control_dt rl_dt m)
    step-IsRunning control_dt rl_dt = rw (step_lem control_dt rl_dt) (
        on_current-IsRunning c name_of (c.run control_dt rl_dt) moved
          (keeps.run_name control_dt rl_dt) moved-IsRunning)

    -- The state after a step is the one that `CheckTransition` asks for, if it is registered.
    pub step-name :
        (control_dt rl_dt : F)
        → (step c control_dt rl_dt m).current_name ≡ target_or_same m (next_state c m).0
    step-name control_dt rl_dt =
        rw (step_lem control_dt rl_dt)
          (on_current-name c name_of (c.run control_dt rl_dt) moved ∙ moved-name)

    pub step-registered :
        (control_dt rl_dt : F) (n : StateName)
        → is_some ((step c control_dt rl_dt m).states n) ≡ is_some (m.states n)
    step-registered control_dt rl_dt n = rw (step_lem control_dt rl_dt) (
        on_current-registered c name_of (c.run control_dt rl_dt) moved moved-IsRunning n
        ∙ moved-registered n)

    module _ (name : StateName) (s : S) (e : name_of s ≡ name) where
      put-IsRunning :
          (q : Fsm F S)
          → IsRunning name_of q
          → IsRunning name_of (record q { states = put name s q.states })
      put-IsRunning q v = record {
        is_started = v.is_started;
        registered = put-is_some name s q.states q.current_name v.registered;
        named = put-AllNamed name s q.states name_of e v.named;
      }

      -- Replacing a state, also the current one, keeps the machine running in the same state.
      pub replace_state-IsRunning :
          IsRunning name_of (replace_state c name s m)
          × ((replace_state c name s m).current_name ≡ m.current_name)
      unfolding replace_state
      replace_state-IsRunning =
          elim (Bool-cases (same_state name m.current_name && is_some (current c m))) [
            | inl h ↦ rw h (
              on_current-IsRunning c name_of c.on_enter _ keeps.on_enter_name (
                  put-IsRunning (on_current c c.on_exit m)
                    (on_current-IsRunning c name_of c.on_exit m keeps.on_exit_name r)),
              on_current-name c name_of c.on_enter (record (on_current c c.on_exit m) {
                states = put name s (on_current c c.on_exit m).states;
              })
                  ∙ on_current-name c name_of c.on_exit m,
            )
            | inr h ↦ rw h (put-IsRunning m r, refl)
          ]

      pub replace_state_deferred-IsRunning :
          IsRunning name_of (replace_state_deferred c name s m).1
          × ((replace_state_deferred c name s m).1.current_name ≡ m.current_name)
      unfolding replace_state_deferred
      replace_state_deferred-IsRunning =
          elim (Bool-cases (is_some (current c m) && same_state name m.current_name)) [
            | inl h ↦ rw h (
              on_current-IsRunning c name_of c.on_policy_handoff _ keeps.handoff_name (
                  put-IsRunning (on_current c c.suspend_for_replacement m) (
                    on_current-IsRunning c name_of c.suspend_for_replacement m keeps.suspend_name
                      r)),
              on_current-name c name_of c.on_policy_handoff
                    (record (on_current c c.suspend_for_replacement m) {
                      states = put name s (on_current c c.suspend_for_replacement m).states;
                    })
                  ∙ on_current-name c name_of c.suspend_for_replacement m,
            )
            | inr h ↦ rw h (put-IsRunning m r, refl)
          ]
