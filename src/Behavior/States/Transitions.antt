-- ===== src/Behavior/States/Transitions.antt =====
-- Which commands move the robot from which state, over all states but those of the policy.
use humanoid_common.Prelude.{◌≡◌, refl, Bool, true, false, arith, ◌⊎◌, inl, ℤ, pos, negsuc, some}
use humanoid_common.Floats.{Float}
use humanoid_common.Behavior.StateName.{StateName}
use humanoid_common.Behavior.State.{Shared, StateClass}
use humanoid_common.Behavior.Fsm.Defs.{Fsm, is_some, current, step, next_state}
use humanoid_common.Behavior.Fsm.Wellformed.{IsRunning}
use humanoid_common.Behavior.Fsm.Operations.{target_or_same}
use humanoid_common.Behavior.Fsm.Stepping.{step-name}
use humanoid_common.Behavior.States.Object.{
  StateObject, power_off_state, damp_state, home_state, zero_state, safety_state, rl_state,
  trajectory_state, state_class, name_of, check_transition, state_class-KeepsNames,
}

-- The diagram, which leaves RL and TRAJECTORY open: with key `k` pressed, the object `s` may hand over to the state `n`.
abbrev pub Allows : {F R : Type 0} → StateObject F R → ℤ → StateName → Type 0
Allows power_off_state k n = (n ≡ StateName.power_off) ⊎ ((k ≡ pos 1) × (n ≡ StateName.damp))
Allows (damp_state q) k n =
    (n ≡ StateName.damp)
    ⊎ (((k ≡ pos 4) × (n ≡ StateName.home)) ⊎ ((k ≡ negsuc 0) × (n ≡ StateName.power_off)))
Allows (home_state q) k n =
    (n ≡ StateName.home)
    ⊎ (((k ≡ pos 2) × (q.finished ≡ true) × (n ≡ StateName.zero))
        ⊎ (((k ≡ pos 1) × (n ≡ StateName.damp)) ⊎ ((k ≡ negsuc 0) × (n ≡ StateName.power_off))))
Allows (zero_state q) k n =
    (n ≡ StateName.zero)
    ⊎ (((k ≡ pos 3) × (q.finished ≡ true) × (n ≡ q.config.next_state))
        ⊎ (((k ≡ pos 1) × (n ≡ StateName.damp)) ⊎ ((k ≡ negsuc 0) × (n ≡ StateName.power_off))))
Allows (safety_state q) k n =
    (n ≡ StateName.safety) ⊎ ((q.finished ≡ true) × (n ≡ StateName.power_off))
Allows (rl_state r) k n = Unit {0}
Allows (trajectory_state r) k n = Unit {0}

module _ {F R : Type 0} ⦃f : Float F⦄ (policy : StateClass F R) where
  check_transition-Allows :
      (s : StateObject F R) (d : Shared F) → Allows s d.command.key (check_transition policy s d).0
  unfolding check_transition
  check_transition-Allows power_off_state d = ground arith
  check_transition-Allows (damp_state q) d = ground arith
  check_transition-Allows (home_state q) d = ground arith
  check_transition-Allows (zero_state q) d = ground arith
  check_transition-Allows (safety_state q) d = ground arith
  check_transition-Allows (rl_state r) d = tt
  check_transition-Allows (trajectory_state r) d = tt

  -- No object that is not the policy's allows the robot to leave its own state without a cause.
  Allows-remain : (s : StateObject F R) (k : ℤ) → Allows s k (name_of s)
  Allows-remain power_off_state k = inl refl
  Allows-remain (damp_state q) k = inl refl
  Allows-remain (home_state q) k = inl refl
  Allows-remain (zero_state q) k = inl refl
  Allows-remain (safety_state q) k = inl refl
  Allows-remain (rl_state r) k = tt
  Allows-remain (trajectory_state r) k = tt

  next_state_lem :
      (m : Fsm F (StateObject F R)) (s : StateObject F R)
      → current (state_class policy) m ≡ some s
      → (next_state (state_class policy) m).0 ≡ (check_transition policy s m.shared).0
  unfolding next_state
  next_state_lem m s e = rw (e, next_state)

  pub step-Allows :
      (m : Fsm F (StateObject F R)) (s : StateObject F R) (control_dt rl_dt : F)
      → IsRunning name_of m
      → current (state_class policy) m ≡ some s
      → Allows s m.shared.command.key (step (state_class policy) control_dt rl_dt m).current_name
  step-Allows m s control_dt rl_dt r e =
      rw
        (
          step-name (state_class policy) name_of (state_class-KeepsNames policy) m r control_dt
              rl_dt,
          next_state_lem m s e,
        )
        (settle (is_some (m.states target)) refl)
    where
      target : StateName
      target = (check_transition policy s m.shared).0

      is_entry : m.states m.current_name ≡ some s
      is_entry = ground (arith, e, r.is_started)

      settle :
          (b : Bool)
          → is_some (m.states target) ≡ b
          → Allows s m.shared.command.key (target_or_same m target)
      settle true q = rw q (check_transition-Allows s m.shared)
      settle false q =
          rw (q, ← r.named m.current_name s is_entry) (Allows-remain s m.shared.command.key)
