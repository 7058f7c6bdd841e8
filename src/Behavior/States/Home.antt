-- ===== src/Behavior/States/Home.antt =====
-- src/behavior_manager/states/state_home.cpp.
use humanoid_common.Prelude.{
  Bool, true, false, not, ◌&&◌, ◌||◌, List, [], ◌∷◌, pos, negsuc, ◌==◌, if◌then◌else◌, length,
  is_empty, tabulate, Result, ok, guard, ◌>>◌,
}
use humanoid_common.Floats.{Float, nought, one, clamp}
use humanoid_common.RobotBase.ActuationMode
use humanoid_common.Behavior.StateName.{StateName}
use humanoid_common.Behavior.State.{ControlOutput, Shared}
use humanoid_common.Behavior.States.Common.{key_is, clear_key, set_output, at, zeros}

pub record HomeState (F : Type 0) : Type 0 where
  pub default_pos : List F
  pub init_pos : List F
  pub kp : List F
  pub kd : List F
  pub target_lower : List F
  pub target_upper : List F
  pub gain_ramp_duration : F
  pub move_duration : F
  pub timer : F
  pub finished : Bool

module _ {F : Type 0} ⦃f : Float F⦄ where
  -- The quintic that eases a move in and out.
  unfoldable pub smooth_step : F → F
  smooth_step progress =
      let s = clamp progress nought one in
      f.mul (f.mul (f.mul s s) s)
        (f.add (f.lit 10 0) (f.mul s (f.add (f.neg (f.lit 15 0)) (f.mul (f.lit 6 0) s))))

  -- A joint's limits and its default position, as `SetConfig` accepts them.
  abbrev pub valid_limit : F → F → F → Bool
  valid_limit lower upper position =
      f.is_finite lower
      && (f.is_finite upper
          && (f.lt lower upper
              && (f.is_finite position
                  && (not (f.lt position lower) && not (f.lt upper position)))))

  unfoldable pub valid_limits : List F → List F → List F → Bool
  valid_limits [] [] [] = true
  valid_limits (l ∷ ls) (u ∷ us) (p ∷ ps) = valid_limit l u p && valid_limits ls us ps
  valid_limits _ _ _ = false

  -- `StateHome::SetConfig` on a fresh object.
  unfoldable pub set_config :
      (default_pos : List F) (gain_ramp_duration move_duration : F)
      → (kp kd target_lower target_upper : List F) → Result (HomeState F)
  unfolding valid_limits
  set_config default_pos gain_ramp_duration move_duration kp kd target_lower target_upper = do
    guard (
        (is_empty target_lower && is_empty target_upper)
        || valid_limits target_lower target_upper default_pos)
    ok (record {
      default_pos = default_pos;
      init_pos = [];
      kp = kp;
      kd = kd;
      target_lower = target_lower;
      target_upper = target_upper;
      gain_ramp_duration = gain_ramp_duration;
      move_duration = move_duration;
      timer = nought;
      finished = false;
    })

  -- The loop that moves the measured position into the limits, over as many joints as have one.
  unfoldable pub clamp_prefix : List F → List F → List F → List F
  clamp_prefix (p ∷ ps) (l ∷ ls) (u ∷ us) = clamp p l u ∷ clamp_prefix ps ls us
  clamp_prefix ps _ _ = ps

  abbrev pub has_dimensions : HomeState F → Bool
  has_dimensions s = length s.init_pos == length s.default_pos

  unfoldable pub on_enter : HomeState F → Shared F → HomeState F × Shared F
  unfolding clamp_prefix
  on_enter s d =
      let fresh = record s { timer = nought; finished = false; init_pos = d.sensor.joint_pos } in
      if has_dimensions fresh
      then (let num_dof = length s.default_pos in
          let init = clamp_prefix d.sensor.joint_pos s.target_lower s.target_upper in
          (
            record fresh { init_pos = init },
            set_output
                (record d.output {
                  enable = true;
                  actuation_mode = ActuationMode.hybrid;
                  target_pos = init;
                  target_vel = zeros num_dof;
                  target_torque = zeros num_dof;
                  kp = zeros num_dof;
                  kd = s.kd;
                })
                d,
          ))
      else (fresh, d)

  -- `init + alpha * (target - init)` for each joint.
  abbrev pub interpolate : F → List F → List F → List F
  interpolate alpha init target =
      tabulate (length target)
        (λ i. f.add (at init i) (f.mul alpha (f.sub (at target i) (at init i))))

  -- What every branch of `Run` writes.
  abbrev pub base_output : HomeState F → ControlOutput F → ControlOutput F
  base_output s o = record o {
    enable = true;
    actuation_mode = ActuationMode.hybrid;
    target_vel = zeros (length s.default_pos);
    target_torque = zeros (length s.default_pos);
    kd = s.kd;
  }

  unfoldable pub run : F → HomeState F → Shared F → HomeState F × Shared F
  unfolding smooth_step
  run control_dt s d =
      if not (has_dimensions s)
      then (s, d)
      else (let o = base_output s d.output in
          let later = record s { timer = f.add s.timer control_dt } in
          if f.lt s.timer s.gain_ramp_duration
          then (let alpha = smooth_step (f.div s.timer s.gain_ramp_duration) in
              (
                later,
                set_output
                    (record o {
                      target_pos = s.init_pos;
                      kp = tabulate (length s.default_pos) (λ i. f.mul alpha (at s.kp i));
                    })
                    d,
              ))
          else if not s.finished
          then (let elapsed = f.sub s.timer s.gain_ramp_duration in
              let alpha = smooth_step (f.div elapsed s.move_duration) in
              (
                record later { finished = f.le s.move_duration elapsed },
                set_output
                    (record o {
                      target_pos = interpolate alpha s.init_pos s.default_pos;
                      kp = s.kp;
                    })
                    d,
              ))
          else (later, set_output (record o { target_pos = s.default_pos; kp = s.kp }) d))

  unfoldable pub check_transition : HomeState F → Shared F → StateName × Shared F
  check_transition s d =
      if key_is (pos 2) d && s.finished
      then (StateName.zero, clear_key d)
      else if key_is (pos 1) d
      then (StateName.damp, clear_key d)
      else if key_is (negsuc 0) d
      then (StateName.power_off, clear_key d)
      else (StateName.home, d)
