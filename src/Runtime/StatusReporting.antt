-- ===== src/Runtime/StatusReporting.antt =====
-- src/runtime/control/status_reporting.h: `InteractionReportCache`, which keeps an invalid report of an action
-- out of the status that the robot sends.
use humanoid_common.Prelude.{
  ◌≡◌, refl, Bool, true, false, not, ◌||◌, List, [], ◌∷◌, Text, text_eq, int_eq, if◌then◌else◌,
  if_either, if_split, arith,
}
use humanoid_common.Floats.{Float, nought, one, IsOrdered}
use humanoid_common.RobotBase.{ControlStatus, InteractionStatus, no_interaction}
use humanoid_common.RobotBase.ControlMode
use humanoid_common.Transport.Status.{can_encode_interaction_status}

pub record InteractionReportCache (F : Type 0) : Type 0 where
  pub policy : Text
  pub last_valid : InteractionStatus F

module _ {F : Type 0} ⦃f : Float F⦄ where
  abbrev pub new_cache : InteractionReportCache F
  new_cache = record { policy = []; last_valid = no_interaction }

  -- The last valid report is forgotten with the policy that made it, and outside RL.
  unfoldable pub forget_report :
      ControlStatus F → InteractionReportCache F → InteractionReportCache F
  forget_report status c =
      if not (text_eq c.policy status.active_policy) || not (int_eq status.mode ControlMode.rl)
      then record { policy = status.active_policy; last_valid = no_interaction }
      else c

  -- `Update`: the cache, the status that is sent, and whether its report was valid.
  unfoldable pub update_report :
      ControlStatus F → InteractionReportCache F → InteractionReportCache F × ControlStatus F × Bool
  unfolding forget_report
  update_report status c =
      let d = forget_report status c in
      if can_encode_interaction_status status.interaction
      then (record d { last_valid = status.interaction }, status, true)
      else (d, record status { interaction = d.last_valid }, false)

  -- Any number of updates.
  unfoldable pub update_reports :
      List (ControlStatus F) → InteractionReportCache F → InteractionReportCache F
  unfolding update_report
  update_reports [] c = c
  update_reports (status ∷ more) c = update_reports more (update_report status c).0

  -- What is kept may be sent.
  pub record IsSendable (c : InteractionReportCache F) : Type 0 where
    pub sendable : can_encode_interaction_status c.last_valid ≡ true

  module _ (law : IsOrdered f) (apart : f.lt nought nought ≡ false)
      (ordered : f.lt one nought ≡ false) where
    no_interaction-sendable : can_encode_interaction_status (no_interaction {F = F}) ≡ true
    unfolding can_encode_interaction_status
    no_interaction-sendable = ground (arith, law.nought_finite, apart, ordered)

    forget-IsSendable :
        (status : ControlStatus F) (c : InteractionReportCache F)
        → IsSendable c
        → IsSendable (forget_report status c)
    unfolding forget_report
    forget-IsSendable status c v =
        if_either IsSendable
          (not (text_eq c.policy status.active_policy) || not (int_eq status.mode ControlMode.rl))
          (record { sendable = no_interaction-sendable }) v

    -- What one update sends and keeps.
    record Sends (status : ControlStatus F) (r : InteractionReportCache F × ControlStatus F × Bool)
        : Type 0 where
      kept : IsSendable r.0
      sent : can_encode_interaction_status r.1.interaction ≡ true
      same : record r.1 { interaction = status.interaction } ≡ status

    update-Sends :
        (status : ControlStatus F) (c : InteractionReportCache F)
        → IsSendable c
        → Sends status (update_report status c)
    unfolding update_report
    update-Sends status c v =
        let d = forget-IsSendable status c v in
        if_split (Sends status) (can_encode_interaction_status status.interaction)
          (λ e. record { kept = record { sendable = e }; sent = e; same = refl })
          λ e. record { kept = d; sent = d.sendable; same = refl }

    updates-IsSendable :
        (more : List (ControlStatus F)) (c : InteractionReportCache F)
        → IsSendable c
        → IsSendable (update_reports more c)
    unfolding update_reports
    updates-IsSendable [] c v = v
    updates-IsSendable (status ∷ more) c v =
        updates-IsSendable more (update_report status c).0 (update-Sends status c v).kept

    -- After any number of updates, whatever reports came, the report that an update leaves in the status may
    -- be encoded, and all else of the status is as it was.
    pub report_is_sendable :
        (before : List (ControlStatus F)) (status : ControlStatus F)
        → let sent = (update_report status (update_reports before new_cache)).1 in
          (can_encode_interaction_status sent.interaction ≡ true)
          × (record sent { interaction = status.interaction } ≡ status)
    report_is_sendable before status =
        let start : IsSendable new_cache = record { sendable = no_interaction-sendable } in
        let s = update-Sends status _ (updates-IsSendable before new_cache start) in
        (s.sent, s.same)
