-- ===== src/Behavior/Fsm/Frame.antt =====
-- What no method of the states changes, no operation of the machine changes; and a registered state
-- stays registered when others are replaced.
use humanoid_common.Prelude.{◌≡◌, refl, ◌∙◌, Bool, true, ◌&&◌, Bool-cases, Option-cases, inl, inr}
use humanoid_common.Floats.{Float}
use humanoid_common.Behavior.StateName.{StateName, same_state, put}
use humanoid_common.Behavior.State.{Shared, StateClass}
use humanoid_common.Behavior.Fsm.Defs.{
  Fsm, is_some, current, on_current, replace_state, replace_state_deferred, switch_to, next_state,
  step, force_switch, request_policy_switch,
}
use humanoid_common.Behavior.Fsm.Wellformed.{put-is_some}

-- No method changes the part `get` of the shared data.
pub record Keeps {F S X : Type 0} (c : StateClass F S) (get : Shared F → X) : Type 0 where
  pub on_enter_keeps : (s : S) (d : Shared F) → get (c.on_enter s d).1 ≡ get d
  pub run_keeps : (t r : F) (s : S) (d : Shared F) → get (c.run t r s d).1 ≡ get d
  pub check_keeps : (s : S) (d : Shared F) → get (c.check_transition s d).2 ≡ get d
  pub on_exit_keeps : (s : S) (d : Shared F) → get (c.on_exit s d).1 ≡ get d
  pub suspend_keeps : (s : S) (d : Shared F) → get (c.suspend_for_replacement s d).1 ≡ get d
  pub request_keeps :
      (a b : Bool) (s : S) (d : Shared F) → get (c.request_policy_switch a b s d).1 ≡ get d
  pub handoff_keeps : (s : S) (d : Shared F) → get (c.on_policy_handoff s d).1 ≡ get d

module _ {F S X : Type 0} ⦃f : Float F⦄ (c : StateClass F S) (get : Shared F → X)
    (k : Keeps c get) where
  on_current-keeps :
      (g : S → Shared F → S × Shared F)
      → ((s : S) (d : Shared F) → get (g s d).1 ≡ get d)
      → (m : Fsm F S) → get (on_current c g m).shared ≡ get m.shared
  unfolding on_current
  on_current-keeps g keep m = elim (Option-cases (current c m)) [
    | inl e ↦ rw (e, on_current) refl
    | inr (s, e) ↦ rw (e, on_current) (keep s m.shared)
  ]

  pub switch_to-keeps : (t : StateName) (m : Fsm F S) → get (switch_to c t m).shared ≡ get m.shared
  unfolding switch_to
  switch_to-keeps t m = elim (Bool-cases (is_some (m.states t))) [
    | inl h ↦ rw h (
        on_current-keeps c.on_enter k.on_enter_keeps
          (record (on_current c c.on_exit m) { started = true; current_name = t })
        ∙ on_current-keeps c.on_exit k.on_exit_keeps m)
    | inr h ↦ rw h refl
  ]

  pub force_switch-keeps :
      (t : StateName) (m : Fsm F S) → get (force_switch c t m).shared ≡ get m.shared
  unfolding force_switch
  force_switch-keeps t m = elim (Bool-cases (same_state t m.current_name)) [
    | inl h ↦ rw h refl
    | inr h ↦ rw h (switch_to-keeps t m)
  ]

  next_state-keeps : (m : Fsm F S) → get (next_state c m).1.shared ≡ get m.shared
  unfolding next_state
  next_state-keeps m = elim (Option-cases (current c m)) [
    | inl e ↦ rw (e, next_state) refl
    | inr (s, e) ↦ rw (e, next_state) (k.check_keeps s m.shared)
  ]

  pub step-keeps : (t r : F) (m : Fsm F S) → get (step c t r m).shared ≡ get m.shared
  unfolding step force_switch
  step-keeps t r m = elim (Bool-cases (is_some (current c m))) [
    | inl h ↦ rw h (
        on_current-keeps (c.run t r) (k.run_keeps t r)
          (force_switch c (next_state c m).0 (next_state c m).1)
        ∙ force_switch-keeps (next_state c m).0 (next_state c m).1
        ∙ next_state-keeps m)
    | inr h ↦ rw h refl
  ]

  pub request-keeps :
      (a b : Bool) (m : Fsm F S) → get (request_policy_switch c a b m).shared ≡ get m.shared
  unfolding request_policy_switch
  request-keeps a b m = on_current-keeps (c.request_policy_switch a b) (k.request_keeps a b) m

  pub replace_state-keeps :
      (n : StateName) (s : S) (m : Fsm F S) → get (replace_state c n s m).shared ≡ get m.shared
  unfolding replace_state
  replace_state-keeps n s m =
      elim (Bool-cases (same_state n m.current_name && is_some (current c m))) [
        | inl h ↦ rw h (
            on_current-keeps c.on_enter k.on_enter_keeps (record (on_current c c.on_exit m) {
              states = put n s (on_current c c.on_exit m).states;
            })
            ∙ on_current-keeps c.on_exit k.on_exit_keeps m)
        | inr h ↦ rw h refl
      ]

  pub replace_state_deferred-keeps :
      (n : StateName) (s : S) (m : Fsm F S)
      → get (replace_state_deferred c n s m).1.shared ≡ get m.shared
  unfolding replace_state_deferred
  replace_state_deferred-keeps n s m =
      elim (Bool-cases (is_some (current c m) && same_state n m.current_name)) [
        | inl h ↦ rw h (
            on_current-keeps c.on_policy_handoff k.handoff_keeps
              (record (on_current c c.suspend_for_replacement m) {
                states = put n s (on_current c c.suspend_for_replacement m).states;
              })
            ∙ on_current-keeps c.suspend_for_replacement k.suspend_keeps m)
        | inr h ↦ rw h refl
      ]

module _ {F S : Type 0} ⦃f : Float F⦄ (c : StateClass F S) where
  on_current-still :
      (g : S → Shared F → S × Shared F) (m : Fsm F S) (n : StateName)
      → is_some (m.states n) ≡ true
      → is_some ((on_current c g m).states n) ≡ true
  unfolding on_current
  on_current-still g m n h = elim (Option-cases (current c m)) [
    | inl e ↦ rw (e, on_current) h
    | inr (s, e) ↦ rw (e, on_current) (put-is_some m.current_name _ m.states n h)
  ]

  module _ (name : StateName) (s : S) (m : Fsm F S) (n : StateName)
      (h : is_some (m.states n) ≡ true) where
    pub replace_state-still : is_some ((replace_state c name s m).states n) ≡ true
    unfolding replace_state
    replace_state-still =
        elim (Bool-cases (same_state name m.current_name && is_some (current c m))) [
          | inl e ↦ rw e (
              on_current-still c.on_enter
                (record (on_current c c.on_exit m) {
                  states = put name s (on_current c c.on_exit m).states;
                })
                n
                (put-is_some name s (on_current c c.on_exit m).states n
                  (on_current-still c.on_exit m n h)))
          | inr e ↦ rw e (put-is_some name s m.states n h)
        ]

    pub replace_state_deferred-still :
        is_some ((replace_state_deferred c name s m).1.states n) ≡ true
    unfolding replace_state_deferred
    replace_state_deferred-still =
        elim (Bool-cases (is_some (current c m) && same_state name m.current_name)) [
          | inl e ↦ rw e (
              on_current-still c.on_policy_handoff
                (record (on_current c c.suspend_for_replacement m) {
                  states = put name s (on_current c c.suspend_for_replacement m).states;
                })
                n
                (put-is_some name s (on_current c c.suspend_for_replacement m).states n
                  (on_current-still c.suspend_for_replacement m n h)))
          | inr e ↦ rw e (put-is_some name s m.states n h)
        ]
