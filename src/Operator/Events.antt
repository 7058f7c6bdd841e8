-- ===== src/Operator/Events.antt =====
-- src/operator_service/service: any sequence of calls of the public members of `Service`, as the server makes
-- them from its single thread.
use humanoid_common.Prelude.{ℕ, Bool, true, List, [], ◌∷◌, Text}
use humanoid_common.Floats.{Float}
use humanoid_common.RobotBase.{ControlStatus, FaultStatus}
use humanoid_common.Operator.Libraries.{Json, Crypto, QrCode}
use humanoid_common.Operator.Data.{Service}
use humanoid_common.Operator.Sessions.{open_session}
use humanoid_common.Operator.Input.{disconnect}
use humanoid_common.Operator.Tick.{tick}
use humanoid_common.Operator.Feedback.{update_status}
use humanoid_common.Operator.Requests.Handle.{handle}

-- One call: a time is the clock's reading, a `Bool` says that a password's check has ended.
pub data Event (F J : Type 0) : Type 0 where
  opened : Event F J
  disconnected : ℕ → Event F J
  requested : F → Bool → ℕ → J → Event F J
  ticked : F → Bool → Event F J
  reported : F → ControlStatus F → FaultStatus F → Event F J
  command_taken : Event F J

-- `MarkCommandSent`.
abbrev pub mark_command_sent : {F : Type 0} → Service F → Service F
mark_command_sent s = record s { command_sent = true }

module _ {F J : Type 0} ⦃f : Float F⦄ ⦃j : Json F J⦄ ⦃c : Crypto⦄ (encode : Text → QrCode) where
  unfoldable pub apply_event : Event F J → Service F → Service F
  unfolding open_session disconnect handle tick update_status
  apply_event opened s = (open_session s).0
  apply_event (disconnected k) s = disconnect k s
  apply_event (requested now ready k request) s = (handle encode now ready k request s).0
  apply_event (ticked now ready) s = tick now ready s
  apply_event (reported now status fault) s = update_status now status fault s
  apply_event command_taken s = mark_command_sent s

  unfoldable pub run_events : List (Event F J) → Service F → Service F
  unfolding apply_event
  run_events [] s = s
  run_events (e ∷ es) s = run_events es (apply_event e s)
