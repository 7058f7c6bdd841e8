-- ===== src/Behavior/Trajectory/Tests.antt =====
-- The theorems on the player, at a recorded motion of one of two joints.
use humanoid_common.Prelude.{
  true, ◌≤◌, ◌<◌, ◌*◌, negsuc, arith, ℕ, ◌>>=◌, text_eq, List, [], ◌∷◌, text, false, none, some,
  pos, ◌≡◌, refl, get_or, map,
}
use humanoid_common.Floats.{Milli-IsOrdered, Milli, milli, nought}
use humanoid_common.RobotBase.{InteractionRequest, no_interaction}
use humanoid_common.RobotBase.Operation
use humanoid_common.RobotBase.Phase
use humanoid_common.Behavior.Trajectory.Player.{
  place_of, first_frame, second_frame, sample_of, mix, Clip, Player, reset, apply, request_action,
  cancel, begin_or_refuse, begin_clip, enter, proceed, clip_position, settle_joints, go_back, play,
  play_active,
}
use humanoid_common.Behavior.Trajectory.Phases.{
  Call, reset_call, request_call, apply_call, after, after_all, IsPhased, after_all-IsPhased,
}
use humanoid_common.Behavior.State.{Shared}
use humanoid_common.Behavior.Fixtures.{shared}
use humanoid_common.Behavior.Trajectory.StateTrajectory.{StateTrajectory, on_enter}
use humanoid_common.Behavior.Trajectory.Holding.{Holds, run_all, on_enter-run_all-Holds}
use humanoid_common.Behavior.Trajectory.Reads.{IsFloored, IsWhole, reads_inside}
use humanoid_common.Behavior.Trajectory.Joints.{target_of, apply-elsewhere}

abbrev sample : ℕ → Milli
sample m = some (pos m)

abbrev wave : Clip Milli
wave = record {
  config = record {
    name = text "wave";
    joint_indices = 0 ∷ [];
    motion_fps = sample 10000;
    playback_speed = sample 1000;
    hold_last_frame = false;
  };
  frames = 3;
  positions = map sample (1000 ∷ 2000 ∷ 3000 ∷ []);
}

abbrev loaded : Player Milli
loaded = record {
  config = record {
    blend_in_duration = sample 0;
    blend_out_duration = sample 100;
    return_max_velocity = sample 0;
  };
  num_dof = 2;
  clips = wave ∷ [];
  active = none;
  previous = map sample (0 ∷ 0 ∷ []);
  source = [];
  phase_start = sample 0;
  playback_start = sample 0;
  return_duration = sample 0;
  sequence = 0;
  status = no_interaction;
}

abbrev ready : List Milli
ready = map sample (500 ∷ 700 ∷ [])

abbrev start_wave : InteractionRequest
start_wave = record { sequence = 1; operation = Operation.start; action = text "wave" }

abbrev first_calls : List (Call Milli)
first_calls =
    reset_call ready ∷ request_call start_wave (sample 0) ∷ apply_call (sample 100) ready ∷ []

abbrev all_calls : List (Call Milli)
all_calls =
    reset_call ready
    ∷ request_call start_wave (sample 0)
    ∷ apply_call (sample 100) ready
    ∷ apply_call (sample 300) ready
    ∷ apply_call (sample 400) []
    ∷ apply_call (sample 500) ready
    ∷ []

loaded-IsPhased : IsPhased loaded
loaded-IsPhased = record { phased = refl }

it_plays : (after_all first_calls loaded).status.phase ≡ Phase.playing
unfolding after reset request_action cancel begin_or_refuse begin_clip apply play_active play enter
    proceed clip_position settle_joints go_back text_eq text
it_plays = refl

it_finishes : (after_all all_calls loaded).status.phase ≡ Phase.finished
unfolding after reset request_action cancel begin_or_refuse begin_clip apply play_active play enter
    proceed clip_position settle_joints go_back text_eq text
it_finishes = refl

it_moves :
    target_of ready (apply (sample 100) ready (after_all first_calls loaded))
    ≡ map sample (2000 ∷ 700 ∷ [])
unfolding after reset request_action cancel begin_or_refuse begin_clip apply play_active play enter
    proceed clip_position settle_joints go_back text_eq text
it_moves = refl

after_all-IsPhased_example : IsPhased (after_all all_calls loaded)
after_all-IsPhased_example = after_all-IsPhased all_calls loaded loaded-IsPhased

apply-elsewhere_example :
    get_or (target_of ready (apply (sample 100) ready (after_all first_calls loaded))) 1 nought
    ≡ sample 700
unfolding after reset request_action cancel begin_or_refuse begin_clip apply play_active play enter
    proceed clip_position settle_joints go_back text_eq text
apply-elsewhere_example =
    apply-elsewhere 1 nought (sample 100) ready (after_all first_calls loaded) refl

abbrev recorded_motion : StateTrajectory Milli
recorded_motion = record {
  player = loaded;
  ready_position = ready;
  kp = map sample (100 ∷ 100 ∷ []);
  kd = map sample (2 ∷ 2 ∷ []);
  elapsed_s = sample 0;
}

-- A request to start between two periods without one.
abbrev periods : List (Milli × Shared Milli)
periods =
    (sample 20, shared)
    ∷ (sample 20, record shared { command = record shared.command { interaction = start_wave } })
    ∷ (sample 20, shared)
    ∷ []

on_enter-run_all-Holds_example :
    Holds 1 ready (on_enter recorded_motion shared >>= λ r. run_all periods r.0 r.1)
on_enter-run_all-Holds_example =
    on_enter-run_all-Holds 1 periods recorded_motion shared refl refl refl

rounded_down :
    (x : Milli) (n : ℕ)
    → milli.le nought x ≡ true
    → milli.le x (milli.of_nat n) ≡ true
    → milli.floor x ≤ n
rounded_down none n p h = ground (arith, p)
rounded_down (some (pos a)) n p h = let h' : a ≤ n * 1000 = ground (arith, h) in omega arith
rounded_down (some (negsuc a)) n p h = ground (arith, p)

not_negative : (n : ℕ) → milli.le nought (milli.of_nat n) ≡ true
not_negative n = ground arith

Milli-IsFloored : IsFloored milli
Milli-IsFloored = record { floor_le = rounded_down; le_of_nat = not_negative }

wave-IsWhole : IsWhole wave
wave-IsWhole = record { some_frame = omega arith; rows = refl }

-- Beyond the last frame both samples are the last one.
reads_inside_example :
    (place_of wave (first_frame wave (sample 900)) 0 < 3)
    × (place_of wave (second_frame wave (sample 900)) 0 < 3)
    × (clip_position wave 0 (sample 900)
        ≡ mix
            (milli.sub (sample_of wave (sample 900)) (milli.of_nat (first_frame wave (sample 900))))
            (get_or wave.positions (place_of wave (first_frame wave (sample 900)) 0) (sample 7))
            (get_or wave.positions (place_of wave (second_frame wave (sample 900)) 0) (sample 7)))
reads_inside_example =
    reads_inside Milli-IsOrdered Milli-IsFloored wave 0 (sample 900) (sample 7) wave-IsWhole
      (omega arith) refl
