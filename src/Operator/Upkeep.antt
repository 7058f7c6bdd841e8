-- ===== src/Operator/Upkeep.antt =====
-- What holds of the service through `Tick` and `UpdateStatus`: where each of their parts keeps a property,
-- so do they.
use humanoid_common.Prelude.{Bool, Text, if_either, none, some, Option}
use humanoid_common.Floats.{Float}
use humanoid_common.RobotBase.{ControlStatus, FaultStatus}
use humanoid_common.Operator.Libraries.{Crypto}
use humanoid_common.Operator.Data.{Op, ResultPhase, Service, is_accepted}
use humanoid_common.Operator.Input
use humanoid_common.Operator.Tick
use humanoid_common.Operator.Tick.{settle_login, tick}
use humanoid_common.Operator.Feedback
use humanoid_common.Operator.Feedback.{
  state_verdict, policy_verdict, ack_verdict, conclude, confirm, reject_by_fault, update_status,
}

pub record Upkeep {F : Type 0} ⦃f : Float F⦄ (P : Service F → Type 0) : Type 0 where
  pub finish : (phase : ResultPhase) (m : Text) (s : Service F) → P s → P (Input.finish phase m s)
  pub clear_input : (m : Text) (s : Service F) → P s → P (Input.clear_input m s)
  pub expire_velocity : (now : F) (s : Service F) → P s → P (Tick.expire_velocity now s)
  pub expire_reference : (now : F) (s : Service F) → P s → P (Tick.expire_reference now s)
  pub withdraw_action : (s : Service F) → P s → P (Tick.withdraw_action s)
  pub confirm_action : (s : Service F) → P s → P (Feedback.confirm_action s)
  pub take_status :
      (now : F) (status : ControlStatus F) (fault : FaultStatus F) (s : Service F)
      → P s
      → P (Feedback.take_status now status fault s)

module _ {F : Type 0} ⦃f : Float F⦄ {P : Service F → Type 0} (leaf : Upkeep P) where
  expire_lease-Keeps : (now : F) (s : Service F) → P s → P (Tick.expire_lease now s)
  unfolding Tick.expire_lease
  expire_lease-Keeps now s v = if_either P _ (leaf.clear_input _ s v) v

  expire_request-Keeps : (now : F) (s : Service F) → P s → P (Tick.expire_request now s)
  unfolding Tick.expire_request
  expire_request-Keeps now s v = if_either P _ (leaf.finish _ _ s v) v

  pub tick-Keeps :
      ⦃c : Crypto⦄ (now : F) (ready : Bool) (s : Service F)
      → P (settle_login ready s)
      → P (tick now ready s)
  unfolding tick
  tick-Keeps now ready s v = leaf.withdraw_action _ (
      expire_request-Keeps now _
        (leaf.expire_reference now _ (leaf.expire_velocity now _ (expire_lease-Keeps now _ v))))

  conclude-Keeps :
      (verdict : Option (ResultPhase × Text)) (s : Service F) → P s → P (conclude verdict s)
  conclude-Keeps none s v = v
  conclude-Keeps (some (phase, m)) s v = leaf.finish phase m s v

  confirm-Keeps : (op : Option Op) (s : Service F) → P s → P (confirm op s)
  unfolding confirm
  confirm-Keeps none s v = v
  confirm-Keeps (some op) s v = elim op as (λ o. P (confirm (some o) s)) [
    | Op.state ↦ conclude-Keeps (state_verdict s) s v
    | Op.policy ↦ conclude-Keeps (policy_verdict s) s v
    | Op.interaction ↦ leaf.confirm_action s v
    | Op.cancel ↦ leaf.confirm_action s v
    | Op.ack ↦ conclude-Keeps (ack_verdict s) s v
    | _ ↦ v
  ]

  reject_by_fault-Keeps : (s : Service F) → P s → P (reject_by_fault s)
  unfolding reject_by_fault
  reject_by_fault-Keeps s v = if_either P _ (leaf.finish _ _ s v) v

  pub update_status-Keeps :
      (now : F) (status : ControlStatus F) (fault : FaultStatus F) (s : Service F)
      → P s
      → P (update_status now status fault s)
  unfolding update_status
  update_status-Keeps now status fault s v =
      let taken = Feedback.take_status now status fault s in
      let t = leaf.take_status now status fault s v in
      let u = confirm-Keeps taken.result.operation taken t in
      if_either P (is_accepted taken.result.phase) (reject_by_fault-Keeps _ u) t
