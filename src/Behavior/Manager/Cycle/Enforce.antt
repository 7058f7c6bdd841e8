-- ===== src/Behavior/Manager/Cycle/Enforce.antt =====
-- What a latched fault forces before the state machine steps.
use humanoid_common.Prelude.{
  ◌⊎◌, ◌≡◌, refl, sym, Bool, true, false, ◌&&◌, not, pos, negsuc, int_eq, int_eq_iff, arith, inr,
  if◌then◌else◌, subst,
}
use humanoid_common.Floats.{Float}
use humanoid_common.Behavior.StateName.{StateName, same_state_iff}
use humanoid_common.Behavior.State.{StateClass}
use humanoid_common.Behavior.Fsm
use humanoid_common.Behavior.Fsm.Defs.{Fsm}
use humanoid_common.Behavior.Fsm.Operations.{force_switch-name}
use humanoid_common.Behavior.States.Object.{
  StateObject, name_of, state_class, state_class-KeepsNames,
}
use humanoid_common.Behavior.Manager.Defs.{
  Manager, fault, command, set_key, current_state, in_state,
}
use humanoid_common.Behavior.Manager.Cycle.Defs.{force, enforce_fault}
use humanoid_common.Behavior.Manager.Cycle.Frame.{SameMachine}
use humanoid_common.Behavior.Manager.Cycle.Running.{
  IsGuarded, SameMachine-IsGuarded, force_switch-IsGuarded,
}

-- Where a latched fault leaves the robot, and with which keys before the machine steps.
abbrev pub IsSafe : {F R : Type 0} → Manager F R → Type 0
IsSafe m =
    (fault m).latched ≡ true
    → (current_state m ≡ StateName.power_off) ⊎ (current_state m ≡ StateName.safety)

abbrev pub IsHeld : {F R : Type 0} → Manager F R → Type 0
IsHeld m =
    (fault m).latched ≡ true
    → (current_state m ≡ StateName.safety)
      ⊎ ((current_state m ≡ StateName.power_off)
          × (((command m).key ≡ pos 0) ⊎ ((command m).key ≡ negsuc 0)))

abbrev pub Guarded : {F R : Type 0} → Manager F R → Type 0
Guarded m = IsGuarded m.fsm

module _ {F R : Type 0} where
  pub same-IsSafe : (x y : Manager F R) → x.fsm ≡ y.fsm → IsSafe y → IsSafe x
  same-IsSafe x y e v =
      subst
        (λ q.
          q.shared.fault.latched ≡ true
          → (q.current_name ≡ StateName.power_off) ⊎ (q.current_name ≡ StateName.safety))
        (sym e) v

module _ {F R : Type 0} ⦃f : Float F⦄ (policy : StateClass F R) where
  force_reaches_safety :
      (q : Fsm F (StateObject F R))
      → IsGuarded q
      → (Fsm.force_switch (state_class policy) StateName.safety q).current_name ≡ StateName.safety
  force_reaches_safety q g =
      rw
        (
          force_switch-name (state_class policy) name_of (state_class-KeepsNames policy) q g.running
              StateName.safety,
          g.has_safety,
        )
        refl

  pub force-IsSafe : (m : Manager F R) → IsGuarded m.fsm → IsSafe (force policy StateName.safety m)
  force-IsSafe m g h = inr (force_reaches_safety m.fsm g)

  -- The first half of `enforce_fault`.
  abbrev forced : Manager F R → Manager F R
  forced m =
      if (fault m).latched
        && (not (in_state StateName.power_off m) && not (in_state StateName.safety m))
      then force policy StateName.safety m
      else m

  -- And the second.
  abbrev blocked : Manager F R → Manager F R
  blocked m =
      if (fault m).latched
        && (in_state StateName.power_off m
            && (not (int_eq (command m).key (pos 0)) && not (int_eq (command m).key (negsuc 0))))
      then record (set_key (pos 0) m) { fault_block_reported = true }
      else m

  forced-IsSafe : (m : Manager F R) → IsGuarded m.fsm → IsSafe (forced m)
  forced-IsSafe m g =
      settle
        ((fault m).latched
          && (not (in_state StateName.power_off m) && not (in_state StateName.safety m)))
        refl
    where
      settle :
          (b : Bool)
          → ((fault m).latched
              && (not (in_state StateName.power_off m) && not (in_state StateName.safety m)))
            ≡ b
          → IsSafe (if b then force policy StateName.safety m else m)
      settle true e h = force-IsSafe m g h
      settle false e h = ground (
        arith,
        same_state_iff (current_state m) StateName.power_off,
        same_state_iff (current_state m) StateName.safety,
        e,
        h,
      )

  forced-IsGuarded : (m : Manager F R) → IsGuarded m.fsm → IsGuarded (forced m).fsm
  forced-IsGuarded m g = settle (
      (fault m).latched
      && (not (in_state StateName.power_off m) && not (in_state StateName.safety m)))
    where
      settle : (b : Bool) → IsGuarded (if b then force policy StateName.safety m else m).fsm
      settle true = force_switch-IsGuarded policy StateName.safety m.fsm g
      settle false = g

  blocked-IsHeld : (m : Manager F R) → IsSafe m → IsHeld (blocked m)
  blocked-IsHeld m v h = ground (
    arith,
    v,
    int_eq_iff (command m).key (pos 0),
    int_eq_iff (command m).key (negsuc 0),
    same_state_iff (current_state m) StateName.power_off,
  )

  blocked-SameMachine : (m : Manager F R) → SameMachine (blocked m) m
  blocked-SameMachine m = ground arith

  pub enforce_fault-IsHeld : (m : Manager F R) → IsGuarded m.fsm → IsHeld (enforce_fault policy m)
  unfolding enforce_fault
  enforce_fault-IsHeld m g = blocked-IsHeld (forced m) (forced-IsSafe m g)

  pub enforce_fault-IsGuarded :
      (m : Manager F R) → IsGuarded m.fsm → IsGuarded (enforce_fault policy m).fsm
  unfolding enforce_fault
  enforce_fault-IsGuarded m g =
      SameMachine-IsGuarded (blocked (forced m)) (forced m) (blocked-SameMachine (forced m))
        (forced-IsGuarded m g)
