-- ===== src/Behavior/Manager/Cycle/Periods.antt =====
-- One period after the other: the state machine runs through all of them, and so a latched fault keeps the
-- robot in POWER_OFF or in SAFETY for good.
use humanoid_common.Prelude.{
  ℕ, ◌≡◌, ◌∙◌, sym, ◌&&◌, not, Option, some, none, Text, if_either, if◌then◌else◌, subst,
}
use humanoid_common.Floats.{Float}
use humanoid_common.RobotBase.{RobotData, FaultStatus}
use humanoid_common.Behavior.StateName.{StateName}
use humanoid_common.Behavior.State.{StateClass}
use humanoid_common.Behavior.Fsm.Frame.{Keeps}
use humanoid_common.Behavior.Manager.Defs.{Manager, Surroundings, command, in_state}
use humanoid_common.Behavior.Manager.Faults.Defs.{observe, resolve}
use humanoid_common.Behavior.Manager.Cycle.Defs.{
  state_fault, force, before_step, catch_state_fault, leave_rl, schedule_prerequisite,
  return_from_policy, after_step, step,
}
use humanoid_common.Behavior.Manager.Cycle.Frame.{
  resolve-SameMachine, observe-SameMachine, leave_rl-fsm, schedule_prerequisite-fsm,
  close_period-fsm, return_from_policy-SameMachine,
}
use humanoid_common.Behavior.Manager.Cycle.Running.{
  IsGuarded, SameMachine-IsGuarded, force_switch-IsGuarded,
}
use humanoid_common.Behavior.Manager.Cycle.Enforce.{Guarded}
use humanoid_common.Behavior.Manager.Cycle.Safety.{
  before_step-IsGuarded, prepare_startup-IsGuarded, step_fsm-IsGuarded,
}

module _ {F R : Type 0} ⦃f : Float F⦄ (policy : StateClass F R)
    (k : Keeps policy (λ d. d.fault)) where
  catch_state_fault-IsGuarded :
      (now : F) (m : Manager F R) → Guarded m → Guarded (catch_state_fault policy now m)
  unfolding catch_state_fault
  catch_state_fault-IsGuarded now m g = settle (state_fault policy m)
    where
      settle :
          (o : Option (FaultStatus F))
          → Guarded (elim o [
            | none ↦ m
            | some c ↦
                let m' = resolve now (observe (some c) m) in
                if not (in_state StateName.power_off m') && not (in_state StateName.safety m')
                then force policy StateName.safety m'
                else m'
          ])
      settle none = g
      settle (some c) =
          let seen = observe (some c) m in
          let m' = resolve now seen in
          let g' =
            SameMachine-IsGuarded m' seen (resolve-SameMachine now seen)
              (subst (λ q. IsGuarded q) (sym (observe-SameMachine (some c) m)) g) in
          if_either Guarded
            (not (in_state StateName.power_off m') && not (in_state StateName.safety m'))
            (force_switch-IsGuarded policy StateName.safety m'.fsm g') g'

  after_step-IsGuarded :
      (now dt : F) (m : Manager F R) → Guarded m → Guarded (after_step policy now dt m)
  unfolding after_step
  after_step-IsGuarded now dt m g =
      let m1 = catch_state_fault policy now m in
      let m2 = leave_rl policy now m1 in
      let m3 = schedule_prerequisite policy now dt m2 in
      let m4 = return_from_policy policy now m3 in
      let e : m3.fsm ≡ m1.fsm =
        schedule_prerequisite-fsm policy now dt m2 ∙ leave_rl-fsm policy now m1 in
      let g3 : Guarded m3 =
        subst (λ q. IsGuarded q) (sym e) (catch_state_fault-IsGuarded now m g) in
      let g4 = SameMachine-IsGuarded m4 m3 (return_from_policy-SameMachine policy now m3) g3 in
      subst (λ q. IsGuarded q) (sym (close_period-fsm policy m4)) g4

  -- A period that starts with a running state machine, every state under its own name and SAFETY among them,
  -- ends with one, also if policies are exchanged or the state is forced in it.
  pub step-Guarded :
      (describe : ℕ → RobotData F → Text) (world : Surroundings F R) (control_dt rl_dt : F)
      (m : Manager F R)
      → Guarded m
      → Guarded (step policy describe world control_dt rl_dt m)
  unfolding step
  step-Guarded describe world control_dt rl_dt m g =
      let ready = before_step policy describe world m in
      let g2 =
        prepare_startup-IsGuarded policy k ready
          (before_step-IsGuarded policy k describe world m g).0 in
      if_either Guarded (not m.initialized) g (
        after_step-IsGuarded world.now control_dt _
          (step_fsm-IsGuarded policy k control_dt rl_dt (command ready).key _ g2))
