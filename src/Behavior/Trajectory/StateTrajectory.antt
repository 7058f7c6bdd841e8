-- ===== src/Behavior/Trajectory/StateTrajectory.antt =====
-- src/behavior_manager/states/state_trajectory.cpp: the state TRAJECTORY around its player. A method in
-- which the player throws is `err`.
use humanoid_common.Prelude.{true, List, length, pos, negsuc, if◌then◌else◌, Result, ok, ◌>>=◌}
use humanoid_common.Floats.{Float, nought}
use humanoid_common.RobotBase.{no_request, InteractionStatus}
use humanoid_common.RobotBase.ActuationMode
use humanoid_common.Behavior.StateName.{StateName}
use humanoid_common.Behavior.State.{Shared}
use humanoid_common.Behavior.States.Common.{key_is, clear_key, set_output, zeros}
use humanoid_common.Behavior.Trajectory.Player.{Player, reset, request_action, apply}

pub record StateTrajectory (F : Type 0) : Type 0 where
  pub player : Player F
  pub ready_position : List F
  pub kp : List F
  pub kd : List F
  pub elapsed_s : F

module _ {F : Type 0} ⦃f : Float F⦄ where
  abbrev entered : StateTrajectory F → Shared F → Shared F
  entered s d =
      set_output
        (record d.output {
          actuation_mode = ActuationMode.hybrid;
          kp = s.kp;
          kd = s.kd;
          target_pos = s.ready_position;
          target_vel = zeros (length s.ready_position);
          target_torque = zeros (length s.ready_position);
          enable = true;
        })
        (record d { command = record d.command { interaction = no_request } })

  unfoldable pub on_enter : StateTrajectory F → Shared F → Result (StateTrajectory F × Shared F)
  unfolding reset
  on_enter s d = reset s.ready_position s.player >>= λ p.
      ok (record s { player = p; elapsed_s = nought }, entered s d)

  unfoldable pub run : F → StateTrajectory F → Shared F → Result (StateTrajectory F × Shared F)
  unfolding request_action apply
  run control_dt s d = request_action d.command.interaction s.elapsed_s s.player >>= λ p.
      apply s.elapsed_s s.ready_position p >>= λ r. ok (
        record s { player = r.0; elapsed_s = f.add s.elapsed_s control_dt },
        set_output (record d.output { target_pos = r.1 }) d,
      )

  unfoldable pub check_transition : StateTrajectory F → Shared F → StateName × Shared F
  check_transition s d =
      if key_is (pos 1) d
      then (StateName.damp, clear_key d)
      else if key_is (negsuc 0) d
      then (StateName.power_off, clear_key d)
      else (StateName.trajectory, d)

  unfoldable pub on_exit : StateTrajectory F → Result (StateTrajectory F)
  unfolding reset
  on_exit s = reset s.ready_position s.player >>= λ p. ok (record s { player = p })

  abbrev pub current_interaction_status : StateTrajectory F → InteractionStatus F
  current_interaction_status s = s.player.status
