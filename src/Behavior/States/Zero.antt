-- ===== src/Behavior/States/Zero.antt =====
-- src/behavior_manager/states/state_zero.cpp, with `ZeroTransitionConfig` of state_factory.h.
-- The text that reports a pose, which is only logged, is left out.
pub mod Readiness
use humanoid_common.Prelude.{
  ℕ, suc, Bool, true, false, not, ◌&&◌, ◌||◌, List, ◌∷◌, Text, pos, negsuc, ◌==◌, if◌then◌else◌,
  length, is_empty, tabulate,
}
use humanoid_common.Floats.{Float, nought}
use humanoid_common.RobotBase.ActuationMode
use humanoid_common.Behavior.StateName.{StateName}
use humanoid_common.Behavior.State.{Shared}
use humanoid_common.Behavior.States.Common.{key_is, clear_key, set_output, at, zeros}

pub record ZeroTransitionConfig (F : Type 0) : Type 0 where
  pub next_state : StateName
  pub move_duration : F
  pub position_tolerance : F
  pub velocity_tolerance : F
  pub settle_duration : F
  pub joint_names : List Text

pub record ZeroState (F : Type 0) : Type 0 where
  pub default_pos : List F
  pub init_pos : List F
  pub kp : List F
  pub kd : List F
  pub config : ZeroTransitionConfig F
  pub timer : F
  pub settled_duration : F
  pub max_position_error : F
  pub max_position_error_index : ℕ
  pub max_velocity : F
  pub max_velocity_index : ℕ
  pub finished : Bool
  pub feedback_valid : Bool
  pub blocked_request_active : Bool

module _ {F : Type 0} ⦃f : Float F⦄ where
  unfoldable pub on_enter : ZeroState F → Shared F → ZeroState F × Shared F
  on_enter s d =
      let o = record d.output {
        actuation_mode = ActuationMode.hybrid;
        target_torque = zeros (length s.default_pos);
        kp = s.kp;
        kd = s.kd;
      } in
      (
        record s {
          timer = nought;
          settled_duration = nought;
          max_position_error = f.infinity;
          max_position_error_index = 0;
          max_velocity = f.infinity;
          max_velocity_index = 0;
          finished = false;
          feedback_valid = false;
          blocked_request_active = false;
          init_pos =
              if o.enable && (length o.target_pos == length s.default_pos)
              then o.target_pos
              else d.sensor.joint_pos;
        },
        set_output o d,
      )

  -- One joint's contribution to the two maxima.
  abbrev pub observe_joint : ℕ → F → F → F → ZeroState F → ZeroState F
  observe_joint i target position velocity s =
      let error = f.abs (f.sub target position) in
      let speed = f.abs velocity in
      let worse = f.lt s.max_position_error error in
      let faster = f.lt s.max_velocity speed in
      record s {
        max_position_error = if worse then error else s.max_position_error;
        max_position_error_index = if worse then i else s.max_position_error_index;
        max_velocity = if faster then speed else s.max_velocity;
        max_velocity_index = if faster then i else s.max_velocity_index;
      }

  -- The loop of `MeasurePose`, from joint `i`. A value that is not finite ends it, with the maxima
  -- so far.
  unfoldable pub measure_from : ℕ → List F → List F → List F → ZeroState F → ZeroState F × Bool
  measure_from i (t ∷ ts) (p ∷ ps) (v ∷ vs) s =
      let rest = measure_from (suc i) ts ps vs (observe_joint i t p v s) in
      if f.is_finite t && (f.is_finite p && f.is_finite v) then rest else (s, false)
  measure_from i _ _ _ s = (record s { feedback_valid = true }, true)

  unfoldable pub measure_pose : ZeroState F → Shared F → ZeroState F × Bool
  unfolding measure_from
  measure_pose s d =
      let unknown = record s { feedback_valid = false } in
      if (length d.sensor.joint_pos == length s.default_pos)
        && (length d.sensor.joint_vel == length s.default_pos)
      then measure_from 0 s.default_pos d.sensor.joint_pos d.sensor.joint_vel (record unknown {
        max_position_error = nought;
        max_position_error_index = 0;
        max_velocity = nought;
        max_velocity_index = 0;
      })
      else (unknown, false)

  -- The test of `UpdateReadiness` on a measured pose.
  abbrev pub converged : F → ZeroState F → Bool → Bool
  converged control_dt s measured =
      measured
      && (f.is_finite control_dt
          && (f.lt nought control_dt
              && (f.le s.max_position_error s.config.position_tolerance
                  && f.le s.max_velocity s.config.velocity_tolerance)))

  unfoldable pub update_readiness : F → ZeroState F → Shared F → ZeroState F
  update_readiness control_dt s d =
      if s.finished
      then s
      else (let (m, measured) = measure_pose s d in
          let settled =
            if converged control_dt m measured
            then f.add m.settled_duration control_dt
            else nought in
          record m {
            settled_duration = settled;
            finished = not (f.lt (f.add settled (f.lit 1 12)) m.config.settle_duration);
          })

  -- The quintic of the move and its slope, at the fraction `s` of the way.
  abbrev pub move_alpha : F → F
  move_alpha s =
      let s3 = λ (a : F). f.mul (f.mul (f.mul a s) s) s in
      f.add (f.sub (s3 (f.lit 10 0)) (f.mul (s3 (f.lit 15 0)) s))
        (f.mul (f.mul (s3 (f.lit 6 0)) s) s)

  abbrev pub move_slope : F → F → F
  move_slope s duration =
      let s2 = λ (a : F). f.mul (f.mul a s) s in
      f.div
        (f.add (f.sub (s2 (f.lit 30 0)) (f.mul (s2 (f.lit 60 0)) s))
          (f.mul (f.mul (s2 (f.lit 30 0)) s) s))
        duration

  unfoldable pub run : F → ZeroState F → Shared F → ZeroState F × Shared F
  run control_dt s d =
      if is_empty s.init_pos || is_empty s.default_pos
      then (s, d)
      else (let ndof = length s.default_pos in
          let o = record d.output { enable = true } in
          let later = λ (q : ZeroState F). record q { timer = f.add q.timer control_dt } in
          if f.lt s.timer s.config.move_duration
          then (let fraction = f.div s.timer s.config.move_duration in
              let alpha = move_alpha fraction in
              let slope = move_slope fraction s.config.move_duration in
              let gap = λ (i : ℕ). f.sub (at s.default_pos i) (at s.init_pos i) in
              (
                later s,
                set_output
                    (record o {
                      target_pos =
                          tabulate ndof (λ i. f.add (at s.init_pos i) (f.mul alpha (gap i)));
                      target_vel = tabulate ndof (λ i. f.mul slope (gap i));
                    })
                    d,
              ))
          else (
            later (update_readiness control_dt s d),
            set_output (record o { target_pos = s.default_pos; target_vel = zeros ndof }) d,
          ))

  -- `ReportBlockedTransition`: measures once for each blocked request.
  abbrev pub report_blocked : ZeroState F → Shared F → ZeroState F
  report_blocked s d = if s.blocked_request_active then s else (measure_pose s d).0

  unfoldable pub check_transition : ZeroState F → Shared F → StateName × ZeroState F × Shared F
  check_transition s d =
      if key_is (pos 3) d && s.finished
      then (s.config.next_state, s, clear_key d)
      else (let s' =
            if key_is (pos 3) d && not s.finished
            then record (report_blocked s d) { blocked_request_active = true }
            else record s { blocked_request_active = false } in
          if key_is (pos 1) d
          then (StateName.damp, s', clear_key d)
          else if key_is (negsuc 0) d
          then (StateName.power_off, s', clear_key d)
          else (StateName.zero, s', d))
