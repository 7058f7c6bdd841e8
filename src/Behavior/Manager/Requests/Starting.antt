-- ===== src/Behavior/Manager/Requests/Starting.antt =====
-- The manager that `Init` starts is one from which control periods are safe.
use humanoid_common.Prelude.{◌≡◌, refl, ap, ◌∙◌, true, ok}
use humanoid_common.Floats.{Float}
use humanoid_common.Behavior.StateName.{StateName}
use humanoid_common.Behavior.State.{StateClass}
use humanoid_common.Behavior.Fsm
use humanoid_common.Behavior.Fsm.Defs.{Fsm, is_some, on_current}
use humanoid_common.Behavior.Fsm.Wellformed.{
  AllNamed, IsRunning, on_current-name, on_current-registered, on_current-IsRunning,
}
use humanoid_common.Behavior.States.Object.{
  StateObject, name_of, state_class, state_class-KeepsNames,
}
use humanoid_common.Behavior.Manager.Defs.{Manager, current_state}
use humanoid_common.Behavior.Manager.Cycle.Running.{IsGuarded}
use humanoid_common.Behavior.Manager.Requests.Defs.{init, initialized_by}

module _ {F R : Type 0} ⦃f : Float F⦄ (policy : StateClass F R) where
  -- The machine that `FSM::Init` enters its first state with, and the manager around it.
  abbrev entering : Fsm F (StateObject F R) → Fsm F (StateObject F R)
  entering q = record q { started = true; current_name = StateName.power_off }

  abbrev started_manager : Manager F R → Manager F R
  started_manager m = record m {
    fsm = on_current (state_class policy) (state_class policy).on_enter (entering m.fsm);
    initialized = true;
  }

  fsm_init_lem :
      (q : Fsm F (StateObject F R))
      → is_some (q.states StateName.power_off) ≡ true
      → Fsm.init (state_class policy) q
        ≡ ok (on_current (state_class policy) (state_class policy).on_enter (entering q))
  unfolding Fsm.init
  fsm_init_lem q h = rw h refl

  init_lem :
      (m : Manager F R)
      → is_some (m.fsm.states StateName.power_off) ≡ true
      → init policy m ≡ ok (started_manager m)
  unfolding init
  init_lem m h = ap (initialized_by policy m) (fsm_init_lem m.fsm h)

  -- A manager whose states stand under their own names, POWER_OFF and SAFETY among them, is initialized in
  -- POWER_OFF, with a running state machine.
  pub init-IsGuarded :
      (m : Manager F R)
      → AllNamed name_of m.fsm.states
      → is_some (m.fsm.states StateName.power_off) ≡ true
      → is_some (m.fsm.states StateName.safety) ≡ true
      → (m' : Manager F R) × (init policy m ≡ ok m')
        × IsGuarded m'.fsm
        × (m'.initialized ≡ true)
        × (current_state m' ≡ StateName.power_off)
  init-IsGuarded m named h s =
      let c = state_class policy in
      let keeps = state_class-KeepsNames policy in
      let r : IsRunning name_of (entering m.fsm) = record {
        is_started = refl;
        registered = h;
        named = named;
      } in
      (
        started_manager m,
        init_lem m h,
        record {
          running =
              on_current-IsRunning c name_of c.on_enter (entering m.fsm) keeps.on_enter_name r;
          has_safety =
              on_current-registered c name_of c.on_enter (entering m.fsm) r StateName.safety ∙ s;
        },
        refl,
        on_current-name c name_of c.on_enter (entering m.fsm),
      )
