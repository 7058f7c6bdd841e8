-- ===== src/Behavior/Fsm/Wellformed.antt =====
-- What holds of the machine between two calls, and which state a call leaves current.
use humanoid_common.Prelude.{◌≡◌, ◌∙◌, inl, inr, Bool, true, Option, some, arith, Option-cases}
use humanoid_common.Floats.{Float}
use humanoid_common.Behavior.StateName.{StateName, same_state_iff, put}
use humanoid_common.Behavior.State.{Shared, StateClass}
use humanoid_common.Behavior.Fsm.Defs.{Fsm, is_some, current, on_current}

-- Every object has the name under which it is registered (`state->name`), and no method changes it.
pub record KeepsNames {F S : Type 0} (c : StateClass F S) (name_of : S → StateName) : Type 0 where
  pub on_enter_name : (s : S) (d : Shared F) → name_of (c.on_enter s d).0 ≡ name_of s
  pub run_name : (t r : F) (s : S) (d : Shared F) → name_of (c.run t r s d).0 ≡ name_of s
  pub check_name : (s : S) (d : Shared F) → name_of (c.check_transition s d).1 ≡ name_of s
  pub on_exit_name : (s : S) (d : Shared F) → name_of (c.on_exit s d).0 ≡ name_of s
  pub suspend_name : (s : S) (d : Shared F) → name_of (c.suspend_for_replacement s d).0 ≡ name_of s
  pub request_name :
      (a b : Bool) (s : S) (d : Shared F) → name_of (c.request_policy_switch a b s d).0 ≡ name_of s
  pub handoff_name : (s : S) (d : Shared F) → name_of (c.on_policy_handoff s d).0 ≡ name_of s

-- A registered state stands under its own name.
abbrev pub AllNamed : {S : Type 0} → (S → StateName) → (StateName → Option S) → Type 0
AllNamed {S} name_of m = (n : StateName) (s : S) → m n ≡ some s → name_of s ≡ n

pub record IsRunning {F S : Type 0} (name_of : S → StateName) (m : Fsm F S) : Type 0 where
  pub is_started : m.started ≡ true
  pub registered : is_some (m.states m.current_name) ≡ true
  pub named : AllNamed name_of m.states

module _ {S : Type 0} (k : StateName) (v : S) (m : StateName → Option S) where
  pub put-AllNamed :
      (name_of : S → StateName) → name_of v ≡ k → AllNamed name_of m → AllNamed name_of (put k v m)
  put-AllNamed name_of e h n s p = ground (arith, same_state_iff k n, h n s)

  pub put-is_some : (n : StateName) → is_some (m n) ≡ true → is_some (put k v m n) ≡ true
  put-is_some n h = ground arith

  -- `put` at a registered key registers nothing new.
  pub is_some-put : (n : StateName) → is_some (m k) ≡ true → is_some (put k v m n) ≡ is_some (m n)
  is_some-put n h = ground (arith, same_state_iff k n)

module _ {F S : Type 0} ⦃f : Float F⦄ (c : StateClass F S) (name_of : S → StateName) where
  -- The current object of a running machine.
  pub current_object :
      (m : Fsm F S)
      → IsRunning name_of m
      → (s : S) × (m.states m.current_name ≡ some s)
        × (current c m ≡ some s)
        × (name_of s ≡ m.current_name)
  current_object m r = elim (Option-cases (m.states m.current_name)) [
    | inl e ↦ ground (arith, e, r.registered)
    | inr (s, e) ↦ (s, e, rw (r.is_started) e, r.named m.current_name s e)
  ]

  module _ (g : S → Shared F → S × Shared F) (m : Fsm F S) where
    on_current_lem :
        (s : S)
        → current c m ≡ some s
        → on_current c g m ≡ record m {
          states = put m.current_name (g s m.shared).0 m.states;
          shared = (g s m.shared).1;
        }
    unfolding on_current
    on_current_lem s e = rw (e, on_current)

    pub on_current-name : (on_current c g m).current_name ≡ m.current_name
    unfolding on_current
    on_current-name = ground arith

    pub on_current-registered :
        IsRunning name_of m
        → (n : StateName) → is_some ((on_current c g m).states n) ≡ is_some (m.states n)
    on_current-registered r n =
        let (s, e, e', _) = current_object m r in
        rw (on_current_lem s e') (is_some-put m.current_name _ m.states n r.registered)

    pub on_current-IsRunning :
        ((s : S) (d : Shared F) → name_of (g s d).0 ≡ name_of s)
        → IsRunning name_of m
        → IsRunning name_of (on_current c g m)
    on_current-IsRunning keep r =
        let (s, e, e', n) = current_object m r in
        rw (on_current_lem s e') (record {
          is_started = r.is_started;
          registered = put-is_some m.current_name _ m.states m.current_name r.registered;
          named = put-AllNamed m.current_name _ m.states name_of (keep s m.shared ∙ n) r.named;
        })
