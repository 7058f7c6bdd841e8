-- ===== src/Operator/Tick.antt =====
-- src/operator_service/service/service.cpp: `Tick`, which expires leases, velocities and requests.
use humanoid_common.Prelude.{
  ℕ, Bool, ◌&&◌, ◌||◌, not, [], List, Text, text, ◌==◌, if◌then◌else◌, pos, int_eq, Option, none,
  some,
}
use humanoid_common.Floats.{Float, nought}
use humanoid_common.RobotBase.Operation
use humanoid_common.RobotBase.ControlMode
use humanoid_common.Operator.Libraries.{Crypto}
use humanoid_common.Operator.Data.{Session, Service, is_accepted, expired}
use humanoid_common.Operator.Names.{check_password, supports_interaction}
use humanoid_common.Operator.Sessions.{find_session, set_session}
use humanoid_common.Operator.Input.{online, finish, clear_input, halt}

-- The answer of the password's check, written into the session that asked.
unfoldable pub admit : Bool → Session → Session
admit valid me = record me {
  admin = valid;
  login_error = if valid then [] else text "incorrect_password";
}

-- Session `k`, where it is still in the table, is given the answer.
abbrev pub answer : Option Session → ℕ → Bool → List (ℕ × Session) → List (ℕ × Session)
answer none k valid m = m
answer (some me) k valid m = set_session k (admit valid me) m

module _ {F : Type 0} ⦃c : Crypto⦄ where
  -- The task that checks the password ends: its answer, and whose session it is written to.
  unfoldable pub settle : Text → Service F → Service F
  unfolding admit
  settle password s =
      let valid = check_password s.config.admin_password_hash password in
      record s {
        login_result = none;
        login_session = 0;
        sessions =
            answer (find_session s.login_session s.sessions) s.login_session valid s.sessions;
      }

  abbrev pub settle_if : Bool → Option Text → Service F → Service F
  settle_if ready none s = s
  settle_if ready (some password) s = if ready then settle password s else s

  -- `ready` says that the task, where there is one, has ended.
  unfoldable pub settle_login : Bool → Service F → Service F
  unfolding settle
  settle_login ready s = settle_if ready s.login_result s

module _ {F : Type 0} where
  -- An action request that was answered, or that no mode may run, is taken back.
  unfoldable pub withdraw_action : Service F → Service F
  withdraw_action s =
      if not (s.command.interaction.operation == Operation.unset)
        && (not (supports_interaction s.status.mode)
            || s.status.interaction.sequence == s.command.interaction.sequence)
      then record s {
        command = record s.command {
          interaction = record s.command.interaction { operation = Operation.unset; action = [] };
        };
      }
      else s

module _ {F : Type 0} ⦃f : Float F⦄ where
  unfoldable pub expire_lease : F → Service F → Service F
  unfolding online
  expire_lease now s =
      if not (s.owner == 0) && (f.le s.lease_until now || not (online now s))
      then clear_input (text "control lease or feedback expired") s
      else s

  unfoldable pub expire_velocity : F → Service F → Service F
  expire_velocity now s =
      if f.le s.velocity_until now || not (int_eq s.status.mode ControlMode.rl)
      then record s { command = halt s.command }
      else s

  unfoldable pub expire_reference : F → Service F → Service F
  expire_reference now s =
      if f.lt nought s.reference_until && f.le s.reference_until now
      then record s { command = record s.command { key = pos 0 }; reference_until = nought }
      else s

  unfoldable pub expire_request : F → Service F → Service F
  unfolding finish
  expire_request now s =
      if is_accepted s.result.phase && f.le s.request_until now
      then finish expired (text "control did not confirm request") s
      else s

module _ {F : Type 0} ⦃f : Float F⦄ ⦃c : Crypto⦄ where
  unfoldable pub tick : F → Bool → Service F → Service F
  unfolding settle_login expire_lease expire_velocity expire_reference expire_request
      withdraw_action
  tick now ready s = withdraw_action (
      expire_request now
        (expire_reference now (expire_velocity now (expire_lease now (settle_login ready s)))))
