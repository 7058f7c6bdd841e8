-- ===== src/Behavior/Fsm/Defs.antt =====
-- src/behavior_manager/behavior_fsm.h and behavior_fsm.cpp: the class `FSM`. `started` says that
-- `current_` is set; it then points to the entry of `current_name`, because states are added before
-- `Init` and replaced by `ReplaceState` or `ReplaceStateDeferred` afterwards.
use humanoid_common.Prelude.{
  Bool, true, false, ◌&&◌, Option, some, none, Result, ok, err, if◌then◌else◌,
}
use humanoid_common.RobotBase.{FaultStatus, InteractionStatus, no_fault, no_interaction}
use humanoid_common.Floats.{Float}
use humanoid_common.Behavior.StateName.{StateName, power_off, same_state, put}
use humanoid_common.Behavior.State.{Shared, StateClass}

pub record Fsm (F S : Type 0) : Type 0 where
  pub states : StateName → Option S
  pub started : Bool
  pub current_name : StateName
  pub shared : Shared F

abbrev pub is_some {ℓ} : {A : Type ℓ} → Option A → Bool
is_some none = false
is_some (some a) = true

module _ {F S : Type 0} ⦃f : Float F⦄ (c : StateClass F S) where
  -- `current_`.
  abbrev pub current : Fsm F S → Option S
  current m = if m.started then m.states m.current_name else none

  -- A call of a method through `current_`; a null pointer is left alone.
  unfoldable pub on_current : (S → Shared F → S × Shared F) → Fsm F S → Fsm F S
  on_current method m = elim (current m) [
    | none ↦ m
    | some s ↦
        let (s', d) = method s m.shared in
        record m { states = put m.current_name s' m.states; shared = d }
  ]

  -- `FSM::AddState`.
  unfoldable pub add_state : StateName → S → Fsm F S → Fsm F S
  add_state name s m = record m { states = put name s m.states }

  -- `FSM::ReplaceState`.
  unfoldable pub replace_state : StateName → S → Fsm F S → Fsm F S
  unfolding on_current
  replace_state name s m =
      if same_state name m.current_name && is_some (current m)
      then (let exited = on_current c.on_exit m in
          on_current c.on_enter (record exited { states = put name s exited.states }))
      else record m { states = put name s m.states }

  -- `FSM::ReplaceStateDeferred`: also returns the replaced state.
  unfoldable pub replace_state_deferred : StateName → S → Fsm F S → Option S × Fsm F S
  unfolding on_current
  replace_state_deferred name s m =
      if is_some (current m) && same_state name m.current_name
      then (let suspended = on_current c.suspend_for_replacement m in
          (
            suspended.states name,
            on_current c.on_policy_handoff
                (record suspended { states = put name s suspended.states }),
          ))
      else (m.states name, record m { states = put name s m.states })

  -- `FSM::ReadyForPolicySwitch`, `PolicyFinished` and `ReadyForRl`.
  abbrev pub ask : (S → Bool) → Fsm F S → Bool
  ask question m = elim (current m) [ none ↦ false | some s ↦ question s ]

  unfoldable pub ready_for_policy_switch : Fsm F S → Bool
  ready_for_policy_switch m = ask c.ready_for_policy_switch m

  unfoldable pub policy_finished : Fsm F S → Bool
  policy_finished m = ask c.policy_finished m

  unfoldable pub ready_for_rl : Fsm F S → Bool
  ready_for_rl m = ask c.ready_for_rl m

  -- `FSM::RequestPolicySwitch`.
  unfoldable pub request_policy_switch : Bool → Bool → Fsm F S → Fsm F S
  unfolding on_current
  request_policy_switch requested cancel_playback m =
      on_current (c.request_policy_switch requested cancel_playback) m

  -- `FSM::SwitchTo`: an unregistered target changes nothing.
  unfoldable pub switch_to : StateName → Fsm F S → Fsm F S
  unfolding on_current
  switch_to target m =
      if is_some (m.states target)
      then (let exited = on_current c.on_exit m in
          on_current c.on_enter (record exited { started = true; current_name = target }))
      else m

  -- `FSM::Init`.
  unfoldable pub init : Fsm F S → Result (Fsm F S)
  unfolding on_current
  init m =
      if is_some (m.states power_off)
      then ok (on_current c.on_enter (record m { started = true; current_name = power_off }))
      else err

  -- `current_->CheckTransition()`, with what it changes.
  unfoldable pub next_state : Fsm F S → StateName × Fsm F S
  next_state m = elim (current m) [
    | none ↦ (m.current_name, m)
    | some s ↦
        let (next, s', d) = c.check_transition s m.shared in
        (next, record m { states = put m.current_name s' m.states; shared = d })
  ]

  -- `FSM::Step`.
  unfoldable pub step : F → F → Fsm F S → Fsm F S
  unfolding next_state switch_to on_current
  step control_dt rl_dt m =
      if is_some (current m)
      then (let (next, checked) = next_state m in
          on_current (c.run control_dt rl_dt)
            (if same_state next checked.current_name then checked else switch_to next checked))
      else m

  -- `FSM::ForceSwitch`.
  unfoldable pub force_switch : StateName → Fsm F S → Fsm F S
  unfolding switch_to
  force_switch target m = if same_state target m.current_name then m else switch_to target m

  -- `FSM::CurrentFault` and `CurrentInteractionStatus`.
  unfoldable pub current_fault : Fsm F S → FaultStatus F
  current_fault m = elim (current m) [ none ↦ no_fault | some s ↦ c.current_fault s ]

  unfoldable pub current_interaction_status : Fsm F S → InteractionStatus F
  current_interaction_status m = elim (current m) [
    | none ↦ no_interaction
    | some s ↦ c.current_interaction_status s
  ]
