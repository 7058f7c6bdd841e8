-- ===== src/Operator/Requests/Actions.antt =====
-- `Handle`: the requests that the robot must confirm: states, policies, actions, references and
-- acknowledgements.
use humanoid_common.Prelude.{
  ℕ, Bool, true, false, ◌&&◌, ◌||◌, not, List, [], Text, text, codes, text_eq, ◌==◌, max,
  if◌then◌else◌, ℤ, pos, negsuc, int_eq, is_empty, any_of, find_if, Option, none, some, Result, ok,
  ◌>>=◌,
}
use humanoid_common.Floats.{Float}
use humanoid_common.RobotBase.{command_start_reference}
use humanoid_common.RobotBase.ControlMode
use humanoid_common.RobotBase.Operation
use humanoid_common.Operator.Libraries.{Json}
use humanoid_common.Operator.Data.{
  Action, Policy, Op, Service, RequestResult, next_number, accepted, sent,
}
use humanoid_common.Operator.Names.{state_name, busy}
use humanoid_common.Operator.Input.{active_policy, halt}
use humanoid_common.Operator.Views.{ReplyCode, bad_request, not_ready, reply_to, request_content}
use humanoid_common.Operator.Requests.Access.{Outcome, refuse, grant}

-- A request is answered at once, or its command is prepared and waits for the robot.
pub data Step (F : Type 0) : Type 0 where
  answered : Outcome F → Step F
  prepared : Service F → Step F

module _ {F : Type 0} where
  abbrev pub turn_down : ℕ → ReplyCode → Text → Service F → Step F
  turn_down id code message s = answered (refuse id code message s)

abbrev pub offers : Text → Option (List Action) → Bool
offers action none = false
offers action (some actions) = any_of (λ a. text_eq a.key action) actions

module _ {F : Type 0} ⦃f : Float F⦄ where
  -- The key that asks the robot for a state, or 0 where its prerequisite is not met.
  unfoldable pub key_for : Text → Service F → ℤ
  unfolding state_name
  key_for target s =
      let mode = s.status.mode in
      let k1 = if text_eq target (codes "POWER_OFF") then negsuc 0 else pos 0 in
      let k2 =
        if text_eq target (codes "DAMP") && not (int_eq mode ControlMode.safety)
        then pos 1
        else k1 in
      let k3 =
        if text_eq target (codes "HOME") && int_eq mode ControlMode.damp then pos 4 else k2 in
      let k4 =
        if text_eq target (codes "ZERO") && int_eq mode ControlMode.home then pos 2 else k3 in
      let active = if s.config.trajectory_enabled then codes "TRAJECTORY" else codes "RL" in
      if text_eq target active && (int_eq mode ControlMode.zero && s.status.zero_ready)
      then pos 3
      else k4

  unfoldable pub ask_state : ℕ → Text → Service F → Step F
  unfolding key_for
  ask_state id target s =
      let key = key_for target s in
      if text_eq target (state_name s.status.mode) && not (text_eq target (codes "POWER_OFF"))
      then answered (grant id (text "already in requested state") s)
      else if int_eq key (pos 0)
      then turn_down id not_ready (text "state prerequisite is not satisfied") s
      else prepared (record s {
        command = record s.command { key = key };
        source_mode = s.status.mode;
        pending_target = target;
      })

  -- A policy of the group of the active one may be chosen while it runs.
  unfoldable pub is_hot : Policy F → Service F → Bool
  unfolding active_policy
  is_hot selected s = int_eq s.status.mode ControlMode.rl && (elim (active_policy s) [
    | none ↦ false
    | some active ↦
        not (is_empty active.switch_group) && text_eq active.switch_group selected.switch_group
  ])

  abbrev pub next_policy_sequence : Service F → ℕ
  next_policy_sequence s =
      let n = next_number (max s.policy_sequence s.status.policy_switch.sequence) in
      if n == 0 then next_number n else n

  -- The listed policy of the wanted name, if there is one.
  unfoldable pub ask_listed : Option (Policy F) → ℕ → Text → Service F → Step F
  unfolding is_hot
  ask_listed none id name s = turn_down id bad_request (text "unknown policy") s
  ask_listed (some selected) id name s =
      if not (int_eq s.status.mode ControlMode.power_off)
        && (not (int_eq s.status.mode ControlMode.damp) && not (is_hot selected s))
      then turn_down id not_ready
          (text "select policy in POWER_OFF/DAMP or a compatible running group") s
      else prepared (record s {
        command = record (halt s.command) {
          switch_policy = name;
          policy_request_sequence = next_policy_sequence s;
        };
        policy_sequence = next_policy_sequence s;
        pending_target = name;
      })

  unfoldable pub ask_policy : ℕ → Text → Service F → Step F
  unfolding ask_listed
  ask_policy id name s = ask_listed (find_if (λ p. text_eq p.name name) s.config.policies) id name s

  -- The actions that may be asked for now, `none` where no policy is active.
  abbrev pub current_actions : Service F → Option (List Action)
  current_actions s =
      if s.config.trajectory_enabled
      then some s.config.actions
      else elim (active_policy s) [ none ↦ none | some policy ↦ some policy.actions ]

  unfoldable pub ask_action : Bool → ℕ → Text → Service F → Step F
  unfolding active_policy
  ask_action starts id action s =
      if starts && (busy s.status.interaction.phase || not (offers action (current_actions s)))
      then turn_down id not_ready (text "action is unavailable or another action is busy") s
      else prepared (record s {
        command = record s.command {
          interaction = record {
            sequence =
                next_number (max s.command.interaction.sequence s.status.interaction.sequence);
            operation = if starts then Operation.start else Operation.cancel;
            action = if starts then action else [];
          };
        };
      })

  abbrev pub active_mode : Service F → ℤ
  active_mode s = if s.config.trajectory_enabled then ControlMode.trajectory else ControlMode.rl

  abbrev pub is_manual : Option (Policy F) → Bool
  is_manual none = false
  is_manual (some policy) = policy.manual_reference

  unfoldable pub ask_reference : F → ℕ → Service F → Step F
  unfolding active_policy
  ask_reference now id s =
      if s.config.trajectory_enabled
        || (not (int_eq s.status.mode ControlMode.rl) || not (is_manual (active_policy s)))
      then turn_down id not_ready (text "active policy is not a manual reference policy") s
      else prepared (record s {
        command = record s.command { key = pos command_start_reference };
        reference_until = f.add now (f.lit 25 2);
      })

  unfoldable pub ask_ack : ℕ → Service F → Step F
  ask_ack id s =
      if not (int_eq s.status.mode ControlMode.power_off)
        || (not s.fault.latched || (s.fault.active || s.fault.sequence == 0))
      then turn_down id not_ready (text "acknowledge inactive fault in POWER_OFF") s
      else prepared (record s { acknowledge_sequence = s.fault.sequence })

  -- The request's number, phase and time limit, and the reply.
  unfoldable pub submit : F → ℕ → Op → Service F → Outcome F
  submit now id op s =
      let request : RequestResult = record {
        sequence = next_number s.result.sequence;
        operation = some op;
        phase = elim op [ Op.reference_start ↦ sent | _ ↦ accepted ];
        message = text "request sent to control";
      } in
      (
        record s {
          result = request;
          command_sent = false;
          request_until = f.add now s.config.request_timeout;
        },
        reply_to id true ReplyCode.accepted (text "waiting for control result")
            (request_content request),
      )

module _ {F J : Type 0} ⦃f : Float F⦄ ⦃j : Json F J⦄ where
  unfoldable pub ask_some_action : Bool → ℕ → J → Service F → Result (Step F)
  unfolding ask_action
  ask_some_action starts id args s =
      if not (int_eq s.status.mode (active_mode s))
      then ok (turn_down id not_ready (text "action requires the configured active mode") s)
      else j.text_or args (text "action") [] >>= λ action. ok (ask_action starts id action s)

  -- What is done for each request that the robot must confirm; `target` is the field "state".
  unfoldable pub prepare : F → ℕ → Op → Text → J → Service F → Result (Step F)
  unfolding ask_state ask_policy ask_some_action ask_reference ask_ack
  prepare now id Op.state target args s = ok (ask_state id target s)
  prepare now id Op.policy target args s =
      if s.config.trajectory_enabled
      then ok (turn_down id not_ready (text "trajectory mode has no RL policy") s)
      else j.at args (text "policy") >>= λ value.
          j.get_text value >>= λ name. ok (ask_policy id name s)
  prepare now id Op.interaction target args s = ask_some_action true id args s
  prepare now id Op.cancel target args s = ask_some_action false id args s
  prepare now id Op.reference_start target args s = ok (ask_reference now id s)
  prepare now id Op.ack target args s = ok (ask_ack id s)
  prepare now id op target args s = ok (turn_down id bad_request (text "unknown operation") s)
