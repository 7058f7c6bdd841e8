-- ===== src/Behavior/States/FaultFrame.antt =====
-- The states read the latched fault and do not write it, if those of the policy do not.
use humanoid_common.Prelude.{◌≡◌, refl, Bool, arith}
use humanoid_common.Floats.{Float}
use humanoid_common.Behavior.State.{Shared, StateClass}
use humanoid_common.Behavior.Fsm.Frame.{Keeps}
use humanoid_common.Behavior.States.PowerOff
use humanoid_common.Behavior.States.Damp
use humanoid_common.Behavior.States.Home
use humanoid_common.Behavior.States.Zero
use humanoid_common.Behavior.States.Safety
use humanoid_common.Behavior.States.Object.{
  StateObject, power_off_state, damp_state, home_state, zero_state, safety_state, rl_state,
  trajectory_state, state_class, on_enter, run, check_transition, on_exit, suspend_for_replacement,
  on_policy_handoff, request_policy_switch,
}

module _ {F R : Type 0} ⦃f : Float F⦄ (policy : StateClass F R)
    (k : Keeps policy (λ d. d.fault)) where
  enter_keeps : (s : StateObject F R) (d : Shared F) → (on_enter policy s d).1.fault ≡ d.fault
  unfolding on_enter PowerOff.on_enter Damp.on_enter Home.on_enter Zero.on_enter Safety.on_enter
  enter_keeps power_off_state d = ground arith
  enter_keeps (damp_state s) d = ground arith
  enter_keeps (home_state s) d = ground arith
  enter_keeps (zero_state s) d = ground arith
  enter_keeps (safety_state s) d = ground arith
  enter_keeps (rl_state r) d = k.on_enter_keeps r d
  enter_keeps (trajectory_state r) d = k.on_enter_keeps r d

  run_keeps :
      (t rl_dt : F) (s : StateObject F R) (d : Shared F)
      → (run policy t rl_dt s d).1.fault ≡ d.fault
  unfolding run PowerOff.run Damp.run Home.run Zero.run Safety.run
  run_keeps t rl_dt power_off_state d = ground arith
  run_keeps t rl_dt (damp_state s) d = ground arith
  run_keeps t rl_dt (home_state s) d = ground arith
  run_keeps t rl_dt (zero_state s) d = ground arith
  run_keeps t rl_dt (safety_state s) d = ground arith
  run_keeps t rl_dt (rl_state r) d = k.run_keeps t rl_dt r d
  run_keeps t rl_dt (trajectory_state r) d = k.run_keeps t rl_dt r d

  check_keeps :
      (s : StateObject F R) (d : Shared F) → (check_transition policy s d).2.fault ≡ d.fault
  unfolding check_transition PowerOff.check_transition Damp.check_transition Home.check_transition
      Zero.check_transition Safety.check_transition
  check_keeps power_off_state d = ground arith
  check_keeps (damp_state s) d = ground arith
  check_keeps (home_state s) d = ground arith
  check_keeps (zero_state s) d = ground arith
  check_keeps (safety_state s) d = ground arith
  check_keeps (rl_state r) d = k.check_keeps r d
  check_keeps (trajectory_state r) d = k.check_keeps r d

  exit_keeps : (s : StateObject F R) (d : Shared F) → (on_exit policy s d).1.fault ≡ d.fault
  unfolding on_exit
  exit_keeps (rl_state r) d = k.on_exit_keeps r d
  exit_keeps (trajectory_state r) d = k.on_exit_keeps r d
  exit_keeps _ d = refl

  suspend_keeps :
      (s : StateObject F R) (d : Shared F) → (suspend_for_replacement policy s d).1.fault ≡ d.fault
  unfolding suspend_for_replacement
  suspend_keeps (rl_state r) d = k.suspend_keeps r d
  suspend_keeps (trajectory_state r) d = k.suspend_keeps r d
  suspend_keeps s d = exit_keeps s d

  handoff_keeps :
      (s : StateObject F R) (d : Shared F) → (on_policy_handoff policy s d).1.fault ≡ d.fault
  unfolding on_policy_handoff
  handoff_keeps (rl_state r) d = k.handoff_keeps r d
  handoff_keeps (trajectory_state r) d = k.handoff_keeps r d
  handoff_keeps s d = enter_keeps s d

  request_keeps :
      (a b : Bool) (s : StateObject F R) (d : Shared F)
      → (request_policy_switch policy a b s d).1.fault ≡ d.fault
  unfolding request_policy_switch
  request_keeps a b (rl_state r) d = k.request_keeps a b r d
  request_keeps a b (trajectory_state r) d = k.request_keeps a b r d
  request_keeps a b s d = refl

  pub state_class-Keeps : Keeps (state_class policy) (λ d. d.fault)
  state_class-Keeps = record {
    on_enter_keeps = enter_keeps;
    run_keeps = run_keeps;
    check_keeps = check_keeps;
    on_exit_keeps = exit_keeps;
    suspend_keeps = suspend_keeps;
    request_keeps = request_keeps;
    handoff_keeps = handoff_keeps;
  }
