-- ===== src/Operator/Stability.antt =====
-- What holds of the service through every request of an administrator: where each operation keeps a
-- property, so does `Handle`'s choice among them.
use humanoid_common.Prelude.{
  ℕ, [], ◌≡◌, ◌⊎◌, inl, inr, Bool, true, false, not, ◌&&◌, Text, text, if◌then◌else◌, if_either,
  if_split, Bool-cases, int_eq, some, Option, Result, ok, err, ◌>>=◌, arith, ◌==◌,
}
use humanoid_common.Floats.{Float}
use humanoid_common.Operator.Libraries.{Json}
use humanoid_common.Operator.Data.{Policy, Op, Service, is_accepted}
use humanoid_common.Operator.Input.{online}
use humanoid_common.Operator.Feedback.{is_ack}
use humanoid_common.Operator.Effects.{Ends, Goes, EndsStep, Ends-bind, EndsStep-bind}
use humanoid_common.Operator.Requests.Control.{stop, release, acquire, renew, give_way, velocity}
use humanoid_common.Operator.Requests.Actions.{
  Step, answered, prepared, ask_state, ask_listed, ask_policy, ask_action, ask_some_action,
  ask_reference, ask_ack, submit, prepare, active_mode,
}
use humanoid_common.Operator.Requests.Control
use humanoid_common.Operator.Requests.Actions
use humanoid_common.Operator.Requests.Handle.{
  finish_step, request_confirmed, as_owner, command_request, as_admin, is_safety_request,
  is_power_off_request,
}

-- The operations of client `k` keep the property `P`; only the owner drives.
pub record Leaves {F : Type 0} (J : Type 0) ⦃f : Float F⦄ ⦃j : Json F J⦄ (k : ℕ)
    (P : Service F → Type 0) : Type 0 where
  pub stop : (id : ℕ) (s : Service F) → P s → P (Control.stop id s).0
  pub release : (id : ℕ) (s : Service F) → P s → P (Control.release id k s).0
  pub acquire : (now : F) (id : ℕ) (s : Service F) → P s → P (Control.acquire now id k s).0
  pub renew : (now : F) (id : ℕ) (s : Service F) → P s → P (Control.renew now id k s).0
  pub give_way : (now : F) (s : Service F) → P s → P (Control.give_way now k s)
  pub velocity :
      (now : F) (id : ℕ) (args : J) (s : Service F)
      → s.owner ≡ k
      → P s
      → Ends P (Control.velocity now id args s)
  pub ask_state :
      (id : ℕ) (target : Text) (s : Service F) → P s → Goes P (Actions.ask_state id target s)
  pub ask_listed :
      (o : Option (Policy F)) (id : ℕ) (name : Text) (s : Service F)
      → P s
      → Goes P (Actions.ask_listed o id name s)
  pub ask_action :
      (starts : Bool) (id : ℕ) (action : Text) (s : Service F)
      → P s
      → Goes P (Actions.ask_action starts id action s)
  pub ask_reference :
      (now : F) (id : ℕ) (s : Service F) → P s → Goes P (Actions.ask_reference now id s)
  pub ask_ack : (id : ℕ) (s : Service F) → P s → Goes P (Actions.ask_ack id s)
  pub submit : (now : F) (id : ℕ) (op : Op) (s : Service F) → P s → P (Actions.submit now id op s).0

module _ {F J : Type 0} ⦃f : Float F⦄ ⦃j : Json F J⦄ {k : ℕ} {P : Service F → Type 0}
    (leaf : Leaves J k P) where
  finish_all-Ends :
      (now : F) (id : ℕ) (op : Op) (r : Result (Step F))
      → EndsStep P r
      → Ends P (r >>= λ step. ok (finish_step now id op step))
  finish_all-Ends now id op (ok (answered o)) h = h
  finish_all-Ends now id op (ok (prepared s)) h = leaf.submit now id op s h
  finish_all-Ends now id op err h = h

  ask_some_action-Goes :
      (starts : Bool) (id : ℕ) (args : J) (s : Service F)
      → P s
      → EndsStep P (ask_some_action starts id args s)
  unfolding ask_some_action
  ask_some_action-Goes starts id args s v =
      if_either (EndsStep P) (not (int_eq s.status.mode (active_mode s))) v (
        EndsStep-bind P (j.text_or args (text "action") []) _
          λ action. leaf.ask_action starts id action s v)

  ask_named-Goes :
      (id : ℕ) (args : J) (s : Service F)
      → P s
      → EndsStep P (
          j.at args (text "policy") >>= λ value.
          j.get_text value >>= λ name. ok (ask_policy id name s))
  unfolding ask_policy
  ask_named-Goes id args s v =
      EndsStep-bind P (j.at args (text "policy")) _
        λ value. EndsStep-bind P (j.get_text value) _ λ name. leaf.ask_listed _ id name s v

  prepare-Goes :
      (now : F) (id : ℕ) (op : Op) (target : Text) (args : J) (s : Service F)
      → P s
      → EndsStep P (prepare now id op target args s)
  unfolding prepare
  prepare-Goes now id op target args s v =
      elim op as (λ o. EndsStep P (prepare now id o target args s)) [
        | Op.state ↦ leaf.ask_state id target s v
        | Op.policy ↦
            if_either (EndsStep P) s.config.trajectory_enabled v (ask_named-Goes id args s v)
        | Op.interaction ↦ ask_some_action-Goes true id args s v
        | Op.cancel ↦ ask_some_action-Goes false id args s v
        | Op.reference_start ↦ leaf.ask_reference now id s v
        | Op.ack ↦ leaf.ask_ack id s v
        | _ ↦ v
      ]

  request_confirmed-Ends :
      (now : F) (id : ℕ) (op : Op) (target : Text) (args : J) (s : Service F)
      → P s
      → Ends P (request_confirmed now id op target args s)
  unfolding request_confirmed
  request_confirmed-Ends now id op target args s v =
      if_either (Ends P) (is_accepted s.result.phase) v (
        if_either (Ends P)
          (s.fault.latched && (not (is_safety_request op target) && not (is_ack (some op)))) v
          (finish_all-Ends now id op _ (prepare-Goes now id op target args s v)))

  as_owner-Ends :
      (now : F) (id : ℕ) (op : Op) (target : Text) (args : J) (s : Service F)
      → (s.owner ≡ k) ⊎ (is_safety_request op target ≡ true)
      → P s
      → Ends P (as_owner now id k op target args s)
  unfolding as_owner
  as_owner-Ends now id op target args s o v = go op o
    where
      go :
          (p : Op)
          → (s.owner ≡ k) ⊎ (is_safety_request p target ≡ true)
          → Ends P (as_owner now id k p target args s)
      go Op.velocity (inl h) = leaf.velocity now id args s h v
      go Op.velocity (inr h) = cc
      go p h = request_confirmed-Ends now id p target args s v

  command_request-Ends :
      (now : F) (id : ℕ) (op : Op) (args : J) (s : Service F)
      → P s
      → Ends P (command_request now id k op args s)
  unfolding command_request
  command_request-Ends now id op args s v =
      Ends-bind P (j.text_or args (text "state") []) _ λ target.
        if_either (Ends P) (not (online now s) && not (is_power_off_request op target)) v (
          if_split (Ends P) (not (s.owner == k) && not (is_safety_request op target)) (λ _. v)
            λ e. admitted target e)
    where
      admitted :
          (target : Text)
          → not (s.owner == k) && not (is_safety_request op target) ≡ false
          → Ends P (
              as_owner now id k op target args
                (if is_safety_request op target then give_way now k s else s))
      admitted target e = elim (Bool-cases (is_safety_request op target)) [
        | inl t ↦
            rw t (
              as_owner-Ends now id op target args (give_way now k s) (inr t)
                (leaf.give_way now s v))
        | inr t ↦ rw t (as_owner-Ends now id op target args s (inl (ground (arith, e, t))) v)
      ]

  pub as_admin-Ends :
      (now : F) (id : ℕ) (op : Op) (args : J) (s : Service F)
      → P s
      → Ends P (as_admin now id k op args s)
  unfolding as_admin
  as_admin-Ends now id op args s v = elim op as (λ o. Ends P (as_admin now id k o args s)) [
    | Op.stop ↦ leaf.stop id s v
    | Op.release ↦ leaf.release id s v
    | Op.acquire ↦ leaf.acquire now id s v
    | Op.renew ↦ leaf.renew now id s v
    | o ↦ command_request-Ends now id o args s v
  ]
