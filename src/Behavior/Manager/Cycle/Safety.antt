-- ===== src/Behavior/Manager/Cycle/Safety.antt =====
-- With a latched fault the robot ends every period in POWER_OFF or in SAFETY.
use humanoid_common.Prelude.{
  ℕ, ◌⊎◌, ◌||◌, ◌≡◌, refl, ap, sym, Bool, true, false, ◌&&◌, not, Option, some, none, Text, ℤ, pos,
  negsuc, int_eq, if_either, arith, if◌then◌else◌, subst,
}
use humanoid_common.Floats.{Float}
use humanoid_common.RobotBase.{RobotData, FaultStatus}
use humanoid_common.Behavior.StateName.{StateName, same_state_iff}
use humanoid_common.Behavior.State.{StateClass}
use humanoid_common.Behavior.Fsm
use humanoid_common.Behavior.Fsm.Wellformed.{current_object}
use humanoid_common.Behavior.Fsm.Frame.{Keeps, force_switch-keeps, step-keeps}
use humanoid_common.Behavior.States.Object.{
  StateObject, power_off_state, damp_state, home_state, zero_state, safety_state, rl_state,
  trajectory_state, name_of, state_class,
}
use humanoid_common.Behavior.States.FaultFrame.{state_class-Keeps}
use humanoid_common.Behavior.States.Transitions.{Allows, step-Allows}
use humanoid_common.Behavior.Manager.Defs.{
  Manager, Surroundings, fault, command, current_state, in_state,
}
use humanoid_common.Behavior.Manager.Faults.Defs.{observe, resolve}
use humanoid_common.Behavior.Manager.Cycle.Defs.{
  state_fault, force, observe_faults, check_running_switch, announce_switch, enforce_fault,
  prepare_policy, answer_requests, prepare_startup, step_fsm, catch_state_fault, leave_rl,
  schedule_prerequisite, return_from_policy, close_period, before_step, after_step, step,
}
use humanoid_common.Behavior.Manager.Cycle.Frame.{
  resolve-SameMachine, observe-SameMachine, check_running_switch-fsm, prepare_policy-fsm,
  answer_requests-SameMachine, leave_rl-fsm, schedule_prerequisite-fsm, close_period-fsm,
  return_from_policy-SameMachine, return_from_policy-fault,
}
use humanoid_common.Behavior.Manager.Cycle.Running.{
  IsGuarded, with_shared, SameMachine-IsGuarded, force_switch-IsGuarded, step-IsGuarded,
  poll-IsGuarded, observe_faults-SameMachine, announce_switch-IsGuarded,
}
use humanoid_common.Behavior.Manager.Policies.{poll_policy_preparation}
use humanoid_common.Behavior.Manager.Cycle.Enforce.{
  IsSafe, IsHeld, Guarded, same-IsSafe, force-IsSafe, enforce_fault-IsHeld, enforce_fault-IsGuarded,
}

module _ {F R : Type 0} ⦃f : Float F⦄ (policy : StateClass F R)
    (k : Keeps policy (λ d. d.fault)) where
  prepare_policy-IsHeld :
      (world : Surroundings F R) (m : Manager F R)
      → IsHeld m
      → IsHeld (prepare_policy policy world m)
  prepare_policy-IsHeld world m v =
      subst
        (λ q.
          q.shared.fault.latched ≡ true
          → (q.current_name ≡ StateName.safety)
            ⊎ ((q.current_name ≡ StateName.power_off)
                × ((q.shared.command.key ≡ pos 0) ⊎ (q.shared.command.key ≡ negsuc 0))))
        (sym (prepare_policy-fsm policy world m)) v

  answer_requests-IsHeld : (m : Manager F R) → IsHeld m → IsHeld (answer_requests policy m)
  unfolding answer_requests
  answer_requests-IsHeld m v h = ground (arith, v)

  prepare_startup-latched :
      (m : Manager F R) → (fault m).latched ≡ true → (prepare_startup policy m).fsm ≡ m.fsm
  unfolding prepare_startup
  prepare_startup-latched m h = ground arith

  pub before_step-IsGuarded :
      (describe : ℕ → RobotData F → Text) (world : Surroundings F R) (m : Manager F R)
      → IsGuarded m.fsm
      → IsGuarded (before_step policy describe world m).fsm
        × IsHeld (before_step policy describe world m)
  unfolding before_step
  before_step-IsGuarded describe world m g =
      let m1 = observe_faults policy describe world.now m in
      let m2 = check_running_switch policy world.now m1 in
      let m3 = announce_switch policy m2 in
      let m4 = poll_policy_preparation policy world m3 in
      let m5 = enforce_fault policy m4 in
      let m6 = prepare_policy policy world m5 in
      let g1 =
        SameMachine-IsGuarded m1 m (observe_faults-SameMachine policy describe world.now m) g in
      let g2 : IsGuarded m2.fsm =
        subst (λ q. IsGuarded q) (sym (check_running_switch-fsm policy world.now m1)) g1 in
      let g3 = announce_switch-IsGuarded policy m2 g2 in
      let g4 = poll-IsGuarded policy world m3 g3 in
      let g6 : IsGuarded m6.fsm =
        subst (λ q. IsGuarded q) (sym (prepare_policy-fsm policy world m5))
          (enforce_fault-IsGuarded policy m4 g4) in
      (
        SameMachine-IsGuarded (answer_requests policy m6) m6 (answer_requests-SameMachine policy m6)
            g6,
        answer_requests-IsHeld m6
            (prepare_policy-IsHeld world m5 (enforce_fault-IsHeld policy m4 g4)),
      )

  -- From POWER_OFF without the key 1, and from SAFETY, the machine only comes to these two states.
  held_step :
      (s : StateObject F R) (key : ℤ) (n : StateName)
      → (name_of s ≡ StateName.safety)
        ⊎ ((name_of s ≡ StateName.power_off) × ((key ≡ pos 0) ⊎ (key ≡ negsuc 0)))
      → Allows s key n
      → (n ≡ StateName.power_off) ⊎ (n ≡ StateName.safety)
  held_step power_off_state key n v a = ground (arith, v, a)
  held_step (damp_state q) key n v a = ground (arith, v)
  held_step (home_state q) key n v a = ground (arith, v)
  held_step (zero_state q) key n v a = ground (arith, v)
  held_step (safety_state q) key n v a = ground (arith, v, a)
  held_step (rl_state r) key n v a = ground (arith, v)
  held_step (trajectory_state r) key n v a = ground (arith, v)

  step_fsm-IsSafe :
      (control_dt rl_dt : F) (key : ℤ) (m : Manager F R)
      → IsGuarded m.fsm
      → IsHeld m
      → IsSafe (step_fsm policy control_dt rl_dt key m)
  unfolding step_fsm
  step_fsm-IsSafe control_dt rl_dt key m g v = if_either IsSafe (int_eq key (pos 0)) stepped stepped
    where
      m' : Manager F R
      m' = record m { fsm = Fsm.step (state_class policy) control_dt rl_dt m.fsm }

      stepped : IsSafe m'
      stepped h =
          let (s, e, e', n) = current_object (state_class policy) name_of m.fsm g.running in
          let latched : (fault m).latched ≡ true =
            subst (λ x. x.latched ≡ true)
              (step-keeps (state_class policy) (λ d. d.fault) (state_class-Keeps policy k)
                control_dt rl_dt m.fsm)
              h in
          held_step s (command m).key (current_state m')
            (subst
              (λ x.
                (x ≡ StateName.safety)
                ⊎ ((x ≡ StateName.power_off)
                    × (((command m).key ≡ pos 0) ⊎ ((command m).key ≡ negsuc 0))))
              (sym n) (v latched))
            (step-Allows policy m.fsm s control_dt rl_dt g.running e')

  pub step_fsm-IsGuarded :
      (control_dt rl_dt : F) (key : ℤ) (m : Manager F R)
      → IsGuarded m.fsm
      → IsGuarded (step_fsm policy control_dt rl_dt key m).fsm
  unfolding step_fsm
  step_fsm-IsGuarded control_dt rl_dt key m g =
      let stepped = step-IsGuarded policy control_dt rl_dt m.fsm g in
      if_either Guarded (int_eq key (pos 0)) (with_shared _ _ stepped) stepped

  pub prepare_startup-IsGuarded :
      (m : Manager F R) → IsGuarded m.fsm → IsGuarded (prepare_startup policy m).fsm
  unfolding prepare_startup
  prepare_startup-IsGuarded m g = if_either Guarded (not m.startup_prepare_pending) g (
      if_either Guarded ((fault m).latched || not (int_eq (command m).key (pos 0))) g (
        if_either Guarded m.sensor_received
          (if_either Guarded (in_state StateName.power_off m)
            (force_switch-IsGuarded policy StateName.home m.fsm g)
            (if_either Guarded (in_state StateName.home m) (with_shared m.fsm _ g) (
              if_either Guarded (in_state StateName.zero m) (with_shared m.fsm _ g)
                (if_either Guarded (in_state StateName.trajectory m) g g))))
          g))

  -- The automatic preparation writes no fault, and does nothing while one is latched.
  prepare_startup-fault : (m : Manager F R) → fault (prepare_startup policy m) ≡ fault m
  unfolding prepare_startup
  prepare_startup-fault m = if_either P (not m.startup_prepare_pending) refl (
      if_either P ((fault m).latched || not (int_eq (command m).key (pos 0))) refl (
        if_either P m.sensor_received
          (if_either P (in_state StateName.power_off m)
            (force_switch-keeps (state_class policy) (λ d. d.fault) (state_class-Keeps policy k)
              StateName.home m.fsm)
            (if_either P (in_state StateName.home m) refl (
              if_either P (in_state StateName.zero m) refl
                (if_either P (in_state StateName.trajectory m) refl refl))))
          refl))
    where
      P : Manager F R → Type 0
      P x = fault x ≡ fault m

  prepare_startup-IsHeld : (m : Manager F R) → IsHeld m → IsHeld (prepare_startup policy m)
  prepare_startup-IsHeld m v h =
      let latched = subst (λ x. x.latched ≡ true) (prepare_startup-fault m) h in
      subst
        (λ q.
          (q.current_name ≡ StateName.safety)
          ⊎ ((q.current_name ≡ StateName.power_off)
              × ((q.shared.command.key ≡ pos 0) ⊎ (q.shared.command.key ≡ negsuc 0))))
        (sym (prepare_startup-latched m latched)) (v latched)

  catch_state_fault-IsSafe :
      (now : F) (m : Manager F R)
      → IsGuarded m.fsm
      → IsSafe m
      → IsSafe (catch_state_fault policy now m)
  unfolding catch_state_fault
  catch_state_fault-IsSafe now m g v = settle (state_fault policy m)
    where
      settle :
          (o : Option (FaultStatus F))
          → IsSafe (elim o [
            | none ↦ m
            | some c ↦
                let m' = resolve now (observe (some c) m) in
                if not (in_state StateName.power_off m') && not (in_state StateName.safety m')
                then force policy StateName.safety m'
                else m'
          ])
      settle none = v
      settle (some c) =
          let seen = observe (some c) m in
          let m' = resolve now seen in
          let g' =
            SameMachine-IsGuarded m' seen (resolve-SameMachine now seen)
              (subst (λ q. IsGuarded q) (sym (observe-SameMachine (some c) m)) g) in
          caught m' g' (not (in_state StateName.power_off m') && not (in_state StateName.safety m'))
            refl
        where
          caught :
              (x : Manager F R)
              → IsGuarded x.fsm
              → (b : Bool)
              → (not (in_state StateName.power_off x) && not (in_state StateName.safety x)) ≡ b
              → IsSafe (if b then force policy StateName.safety x else x)
          caught x g' true e h = force-IsSafe policy x g' h
          caught x g' false e h = ground (
            arith,
            same_state_iff (current_state x) StateName.power_off,
            same_state_iff (current_state x) StateName.safety,
            e,
          )

  after_step-IsSafe :
      (now dt : F) (m : Manager F R)
      → IsGuarded m.fsm
      → IsSafe m
      → IsSafe (after_step policy now dt m)
  unfolding after_step
  after_step-IsSafe now dt m g v =
      let m1 = catch_state_fault policy now m in
      let m2 = leave_rl policy now m1 in
      let m3 = schedule_prerequisite policy now dt m2 in
      let m4 = return_from_policy policy now m3 in
      let v3 =
        same-IsSafe m3 m2 (schedule_prerequisite-fsm policy now dt m2)
          (same-IsSafe m2 m1 (leave_rl-fsm policy now m1) (catch_state_fault-IsSafe now m g v)) in
      same-IsSafe (close_period policy m4) m4 (close_period-fsm policy m4) (λ h.
        subst (λ n. (n ≡ StateName.power_off) ⊎ (n ≡ StateName.safety))
          (sym (ap (λ q. q.current_name) (return_from_policy-SameMachine policy now m3)))
          (v3 (subst (λ x. x.latched ≡ true) (return_from_policy-fault policy now m3) h)))

  step-IsSafe :
      (describe : ℕ → RobotData F → Text) (world : Surroundings F R) (control_dt rl_dt : F)
      (m : Manager F R)
      → m.initialized ≡ true
      → IsGuarded m.fsm
      → IsSafe (step policy describe world control_dt rl_dt m)
  unfolding step
  step-IsSafe describe world control_dt rl_dt m i g =
      let ready = before_step policy describe world m in
      let (g1, v1) = before_step-IsGuarded describe world m g in
      let started = prepare_startup policy ready in
      let g2 = prepare_startup-IsGuarded ready g1 in
      subst
        (λ b. IsSafe (
          if not b
          then m
          else after_step policy world.now control_dt
              (step_fsm policy control_dt rl_dt (command ready).key started)))
        (sym i)
        (after_step-IsSafe world.now control_dt _
          (step_fsm-IsGuarded control_dt rl_dt (command ready).key started g2)
          (step_fsm-IsSafe control_dt rl_dt (command ready).key started g2
            (prepare_startup-IsHeld ready v1)))

  -- After every period of an initialized manager whose state machine runs with a SAFETY state, a latched
  -- fault means that the robot is in POWER_OFF or in SAFETY, whatever the sensors, the keys, the policy and
  -- the background preparation did in the period, as long as the policy does not write the latched fault.
  pub latched_fault_is_safe :
      (describe : ℕ → RobotData F → Text) (world : Surroundings F R) (control_dt rl_dt : F)
      (m : Manager F R)
      → m.initialized ≡ true
      → IsGuarded m.fsm
      → (fault (step policy describe world control_dt rl_dt m)).latched ≡ true
      → (current_state (step policy describe world control_dt rl_dt m) ≡ StateName.power_off)
        ⊎ (current_state (step policy describe world control_dt rl_dt m) ≡ StateName.safety)
  latched_fault_is_safe describe world control_dt rl_dt m i g h =
      step-IsSafe describe world control_dt rl_dt m i g h
