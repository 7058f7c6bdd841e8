-- ===== src/Behavior/Fsm/Operations.antt =====
-- Each operation keeps a running machine running, and the state that it leaves current is the one that
-- the code selects.
use humanoid_common.Prelude.{◌≡◌, refl, ◌∙◌, true, arith, Bool-cases, if◌then◌else◌, inl, inr}
use humanoid_common.Floats.{Float}
use humanoid_common.Behavior.StateName.{StateName, same_state, same_state_iff}
use humanoid_common.Behavior.State.{StateClass}
use humanoid_common.Behavior.Fsm.Defs.{
  Fsm, is_some, on_current, switch_to, next_state, force_switch,
}
use humanoid_common.Behavior.Fsm.Wellformed.{
  KeepsNames, IsRunning, put-AllNamed, put-is_some, is_some-put, current_object, on_current-name,
  on_current-registered, on_current-IsRunning,
}

-- A target that is registered, or else the present state.
abbrev pub target_or_same : {F S : Type 0} → Fsm F S → StateName → StateName
target_or_same m target = if is_some (m.states target) then target else m.current_name

module _ {F S : Type 0} ⦃f : Float F⦄ (c : StateClass F S) (name_of : S → StateName)
    (keeps : KeepsNames c name_of) where
  module _ (m : Fsm F S) (r : IsRunning name_of m) where
    module _ (target : StateName) where
      -- The machine between `OnExit` and `OnEnter`.
      abbrev between : Fsm F S
      between = record (on_current c c.on_exit m) { started = true; current_name = target }

      entered : is_some (m.states target) ≡ true → IsRunning name_of between
      entered h =
          let q = on_current-IsRunning c name_of c.on_exit m keeps.on_exit_name r in
          record {
            is_started = refl;
            registered = rw (on_current-registered c name_of c.on_exit m r target) h;
            named = q.named;
          }

      pub switch_to-IsRunning : IsRunning name_of (switch_to c target m)
      unfolding switch_to
      switch_to-IsRunning = elim (Bool-cases (is_some (m.states target))) [
        | inl h ↦ rw h (on_current-IsRunning c name_of c.on_enter _ keeps.on_enter_name (entered h))
        | inr h ↦ rw h r
      ]

      pub switch_to-name : (switch_to c target m).current_name ≡ target_or_same m target
      unfolding switch_to
      switch_to-name = elim (Bool-cases (is_some (m.states target))) [
        | inl h ↦ rw h (on_current-name c name_of c.on_enter between)
        | inr h ↦ rw h refl
      ]

      pub switch_to-registered :
          (n : StateName) → is_some ((switch_to c target m).states n) ≡ is_some (m.states n)
      unfolding switch_to
      switch_to-registered n = elim (Bool-cases (is_some (m.states target))) [
        | inl h ↦ rw h (
            on_current-registered c name_of c.on_enter _ (entered h) n
            ∙ on_current-registered c name_of c.on_exit m r n)
        | inr h ↦ rw h refl
      ]

      pub force_switch-IsRunning : IsRunning name_of (force_switch c target m)
      unfolding force_switch
      force_switch-IsRunning = elim (Bool-cases (same_state target m.current_name)) [
        | inl h ↦ rw h r
        | inr h ↦ rw h switch_to-IsRunning
      ]

      -- A forced switch reaches every registered target, and an unregistered one changes nothing.
      pub force_switch-name : (force_switch c target m).current_name ≡ target_or_same m target
      unfolding force_switch
      force_switch-name = elim (Bool-cases (same_state target m.current_name)) [
        | inl h ↦ let e = (same_state_iff target m.current_name).0 h in ground (arith, e, h)
        | inr h ↦ rw h switch_to-name
      ]

      pub force_switch-registered :
          (n : StateName) → is_some ((force_switch c target m).states n) ≡ is_some (m.states n)
      unfolding force_switch
      force_switch-registered n = elim (Bool-cases (same_state target m.current_name)) [
        | inl h ↦ rw h refl
        | inr h ↦ rw h (switch_to-registered n)
      ]

    pub next_state-IsRunning : IsRunning name_of (next_state c m).1
    unfolding next_state
    next_state-IsRunning =
        let (s, e, e', n) = current_object c name_of m r in
        rw (e', next_state)
          (record {
            is_started = r.is_started;
            registered = put-is_some m.current_name _ m.states m.current_name r.registered;
            named =
                put-AllNamed m.current_name _ m.states name_of (keeps.check_name s m.shared ∙ n)
                  r.named;
          })

    pub next_state-name : (next_state c m).1.current_name ≡ m.current_name
    unfolding next_state
    next_state-name = ground arith

    pub next_state-registered :
        (n : StateName) → is_some ((next_state c m).1.states n) ≡ is_some (m.states n)
    unfolding next_state
    next_state-registered n =
        let (s, e, e', _) = current_object c name_of m r in
        rw (e', next_state) (is_some-put m.current_name _ m.states n r.registered)
