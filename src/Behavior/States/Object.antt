-- ===== src/Behavior/States/Object.antt =====
-- src/behavior_manager/states: one type for the state objects, and the virtual table of each. The states
-- RL and TRAJECTORY enter by the interface that they implement, as objects of a type `R`.
use humanoid_common.Prelude.{◌≡◌, refl, Bool, false}
use humanoid_common.Floats.{Float}
use humanoid_common.RobotBase.{FaultStatus, InteractionStatus, no_fault, no_interaction}
use humanoid_common.Behavior.StateName.{StateName}
use humanoid_common.Behavior.State.{Shared, StateClass}
use humanoid_common.Behavior.Fsm.Wellformed.{KeepsNames}
use humanoid_common.Behavior.States.PowerOff
use humanoid_common.Behavior.States.Damp
use humanoid_common.Behavior.States.Damp.{DampState}
use humanoid_common.Behavior.States.Home
use humanoid_common.Behavior.States.Home.{HomeState}
use humanoid_common.Behavior.States.Zero
use humanoid_common.Behavior.States.Zero.{ZeroState}
use humanoid_common.Behavior.States.Safety
use humanoid_common.Behavior.States.Safety.{SafetyState}

pub data StateObject (F R : Type 0) : Type 0 where
  power_off_state : StateObject F R
  damp_state : DampState F → StateObject F R
  home_state : HomeState F → StateObject F R
  zero_state : ZeroState F → StateObject F R
  safety_state : SafetyState F → StateObject F R
  rl_state : R → StateObject F R
  trajectory_state : R → StateObject F R

-- `state->name`, which `AddState` and `ReplaceState` set.
abbrev pub name_of : {F R : Type 0} → StateObject F R → StateName
name_of power_off_state = StateName.power_off
name_of (damp_state s) = StateName.damp
name_of (home_state s) = StateName.home
name_of (zero_state s) = StateName.zero
name_of (safety_state s) = StateName.safety
name_of (rl_state r) = StateName.rl
name_of (trajectory_state r) = StateName.trajectory

module _ {F R : Type 0} ⦃f : Float F⦄ (policy : StateClass F R) where
  -- A method of the policy's state, on the object that holds it.
  abbrev as_rl : R × Shared F → StateObject F R × Shared F
  as_rl (r, d) = (rl_state r, d)

  abbrev as_trajectory : R × Shared F → StateObject F R × Shared F
  as_trajectory (r, d) = (trajectory_state r, d)

  unfoldable pub on_enter : StateObject F R → Shared F → StateObject F R × Shared F
  unfolding PowerOff.on_enter Damp.on_enter Home.on_enter Zero.on_enter Safety.on_enter
  on_enter power_off_state d = (power_off_state, PowerOff.on_enter d)
  on_enter (damp_state s) d = (damp_state s, Damp.on_enter s d)
  on_enter (home_state s) d = let (s', d') = Home.on_enter s d in (home_state s', d')
  on_enter (zero_state s) d = let (s', d') = Zero.on_enter s d in (zero_state s', d')
  on_enter (safety_state s) d = let (s', d') = Safety.on_enter s d in (safety_state s', d')
  on_enter (rl_state r) d = as_rl (policy.on_enter r d)
  on_enter (trajectory_state r) d = as_trajectory (policy.on_enter r d)

  unfoldable pub run : F → F → StateObject F R → Shared F → StateObject F R × Shared F
  unfolding PowerOff.run Damp.run Home.run Zero.run Safety.run
  run t rl_dt power_off_state d = (power_off_state, PowerOff.run d)
  run t rl_dt (damp_state s) d = (damp_state s, Damp.run s d)
  run t rl_dt (home_state s) d = let (s', d') = Home.run t s d in (home_state s', d')
  run t rl_dt (zero_state s) d = let (s', d') = Zero.run t s d in (zero_state s', d')
  run t rl_dt (safety_state s) d = let (s', d') = Safety.run t s d in (safety_state s', d')
  run t rl_dt (rl_state r) d = as_rl (policy.run t rl_dt r d)
  run t rl_dt (trajectory_state r) d = as_trajectory (policy.run t rl_dt r d)

  unfoldable pub check_transition :
      StateObject F R → Shared F → StateName × StateObject F R × Shared F
  unfolding PowerOff.check_transition Damp.check_transition Home.check_transition
      Zero.check_transition Safety.check_transition
  check_transition power_off_state d =
      let (next, d') = PowerOff.check_transition d in (next, power_off_state, d')
  check_transition (damp_state s) d =
      let (next, d') = Damp.check_transition s d in (next, damp_state s, d')
  check_transition (home_state s) d =
      let (next, d') = Home.check_transition s d in (next, home_state s, d')
  check_transition (zero_state s) d =
      let (next, s', d') = Zero.check_transition s d in (next, zero_state s', d')
  check_transition (safety_state s) d =
      let (next, d') = Safety.check_transition s d in (next, safety_state s, d')
  check_transition (rl_state r) d =
      let (next, r', d') = policy.check_transition r d in (next, rl_state r', d')
  check_transition (trajectory_state r) d =
      let (next, r', d') = policy.check_transition r d in (next, trajectory_state r', d')

  -- The states of this directory only log when they are left.
  unfoldable pub on_exit : StateObject F R → Shared F → StateObject F R × Shared F
  on_exit (rl_state r) d = as_rl (policy.on_exit r d)
  on_exit (trajectory_state r) d = as_trajectory (policy.on_exit r d)
  on_exit s d = (s, d)

  -- The defaults of `State`: `OnExit` for a suspension, and `OnEnter` for a handoff.
  unfoldable pub suspend_for_replacement : StateObject F R → Shared F → StateObject F R × Shared F
  unfolding on_exit
  suspend_for_replacement (rl_state r) d = as_rl (policy.suspend_for_replacement r d)
  suspend_for_replacement (trajectory_state r) d =
      as_trajectory (policy.suspend_for_replacement r d)
  suspend_for_replacement s d = on_exit s d

  unfoldable pub on_policy_handoff : StateObject F R → Shared F → StateObject F R × Shared F
  unfolding on_enter
  on_policy_handoff (rl_state r) d = as_rl (policy.on_policy_handoff r d)
  on_policy_handoff (trajectory_state r) d = as_trajectory (policy.on_policy_handoff r d)
  on_policy_handoff s d = on_enter s d

  unfoldable pub request_policy_switch :
      Bool → Bool → StateObject F R → Shared F → StateObject F R × Shared F
  request_policy_switch a b (rl_state r) d = as_rl (policy.request_policy_switch a b r d)
  request_policy_switch a b (trajectory_state r) d =
      as_trajectory (policy.request_policy_switch a b r d)
  request_policy_switch a b s d = (s, d)

  abbrev pub ready_for_policy_switch : StateObject F R → Bool
  ready_for_policy_switch (rl_state r) = policy.ready_for_policy_switch r
  ready_for_policy_switch (trajectory_state r) = policy.ready_for_policy_switch r
  ready_for_policy_switch s = false

  abbrev pub policy_finished : StateObject F R → Bool
  policy_finished (rl_state r) = policy.policy_finished r
  policy_finished (trajectory_state r) = policy.policy_finished r
  policy_finished s = false

  -- Only ZERO answers yes; the policy's states inherit `false` unless they override it.
  abbrev pub ready_for_rl : StateObject F R → Bool
  ready_for_rl (zero_state s) = s.finished
  ready_for_rl (rl_state r) = policy.ready_for_rl r
  ready_for_rl (trajectory_state r) = policy.ready_for_rl r
  ready_for_rl s = false

  abbrev pub current_fault : StateObject F R → FaultStatus F
  current_fault (rl_state r) = policy.current_fault r
  current_fault (trajectory_state r) = policy.current_fault r
  current_fault s = no_fault

  abbrev pub current_interaction_status : StateObject F R → InteractionStatus F
  current_interaction_status (rl_state r) = policy.current_interaction_status r
  current_interaction_status (trajectory_state r) = policy.current_interaction_status r
  current_interaction_status s = no_interaction

  abbrev pub state_class : StateClass F (StateObject F R)
  state_class = record {
    on_enter = on_enter;
    run = run;
    check_transition = check_transition;
    on_exit = on_exit;
    suspend_for_replacement = suspend_for_replacement;
    ready_for_policy_switch = ready_for_policy_switch;
    request_policy_switch = request_policy_switch;
    policy_finished = policy_finished;
    on_policy_handoff = on_policy_handoff;
    ready_for_rl = ready_for_rl;
    current_fault = current_fault;
    current_interaction_status = current_interaction_status;
  }

  on_enter_name : (s : StateObject F R) (d : Shared F) → name_of (on_enter s d).0 ≡ name_of s
  unfolding on_enter
  on_enter_name power_off_state d = refl
  on_enter_name _ d = refl

  on_exit_name : (s : StateObject F R) (d : Shared F) → name_of (on_exit s d).0 ≡ name_of s
  unfolding on_exit
  on_exit_name (rl_state r) d = refl
  on_exit_name _ d = refl

  run_name :
      (t rl_dt : F) (s : StateObject F R) (d : Shared F) → name_of (run t rl_dt s d).0 ≡ name_of s
  unfolding run
  run_name t rl_dt power_off_state d = refl
  run_name t rl_dt _ d = refl

  check_name : (s : StateObject F R) (d : Shared F) → name_of (check_transition s d).1 ≡ name_of s
  unfolding check_transition
  check_name power_off_state d = refl
  check_name _ d = refl

  suspend_name :
      (s : StateObject F R) (d : Shared F) → name_of (suspend_for_replacement s d).0 ≡ name_of s
  unfolding suspend_for_replacement
  suspend_name (rl_state r) d = refl
  suspend_name _ d = refl

  handoff_name :
      (s : StateObject F R) (d : Shared F) → name_of (on_policy_handoff s d).0 ≡ name_of s
  unfolding on_policy_handoff
  handoff_name (rl_state r) d = refl
  handoff_name _ d = refl

  request_name :
      (a b : Bool) (s : StateObject F R) (d : Shared F)
      → name_of (request_policy_switch a b s d).0 ≡ name_of s
  unfolding request_policy_switch
  request_name a b (rl_state r) d = refl
  request_name a b _ d = refl

  -- No method changes the kind of an object.
  pub state_class-KeepsNames : KeepsNames state_class name_of
  state_class-KeepsNames = record {
    on_enter_name = on_enter_name;
    run_name = run_name;
    check_name = check_name;
    on_exit_name = on_exit_name;
    suspend_name = suspend_name;
    request_name = request_name;
    handoff_name = handoff_name;
  }
