-- ===== src/Behavior/Trajectory/Player.antt =====
-- src/behavior_manager/joint_trajectory.cpp: `Player`, from the clips that its constructor has loaded on.
use humanoid_common.Prelude.{
  ℕ, zero, suc, ◌+◌, ◌-◌, ◌*◌, Bool, true, false, not, ◌&&◌, ◌||◌, List, [], ◌∷◌, Text, text_eq,
  length, get_or, map, min, find_if, tabulate, ◌==◌, leb, if◌then◌else◌, Option, none, some, Result,
  ok, err,
}
use humanoid_common.Floats.{Float, nought, one, fmax, clamp}
use humanoid_common.RobotBase.{InteractionRequest, InteractionStatus, no_interaction}
use humanoid_common.RobotBase.Operation
use humanoid_common.RobotBase.Phase

-- Without `file` here and `actions` in `Config`, which only the loading of clips reads.
pub record ActionConfig (F : Type 0) : Type 0 where
  pub name : Text
  pub joint_indices : List ℕ
  pub motion_fps : F
  pub playback_speed : F
  pub hold_last_frame : Bool

pub record Config (F : Type 0) : Type 0 where
  pub blend_in_duration : F
  pub blend_out_duration : F
  pub return_max_velocity : F

-- `positions` has a row of joints for each of the frames.
pub record Clip (F : Type 0) : Type 0 where
  pub config : ActionConfig F
  pub frames : ℕ
  pub positions : List F

-- `active` points to a clip, and no clip changes after loading.
pub record Player (F : Type 0) : Type 0 where
  pub config : Config F
  pub num_dof : ℕ
  pub clips : List (Clip F)
  pub active : Option (Clip F)
  pub previous : List F
  pub source : List F
  pub phase_start : F
  pub playback_start : F
  pub return_duration : F
  pub sequence : ℕ
  pub status : InteractionStatus F

abbrev pub set_at {ℓ} : {A : Type ℓ} → ℕ → A → List A → List A
set_at i a [] = []
set_at zero a (x ∷ xs) = a ∷ xs
set_at (suc i) a (x ∷ xs) = x ∷ set_at i a xs

module _ {F : Type 0} ⦃f : Float F⦄ where
  abbrev pub smooth_step : F → F
  smooth_step value =
      let x = clamp value nought one in f.mul (f.mul x x) (f.sub (f.lit 3 0) (f.mul (f.lit 2 0) x))

  -- `CheckTime` throws on any other time.
  abbrev pub valid_time : F → Bool
  valid_time t = f.is_finite t && not (f.lt t nought)

  abbrev pub duration : Clip F → F
  duration c = f.div (f.of_nat (c.frames - 1)) (f.mul c.config.motion_fps c.config.playback_speed)

  -- (1 - t) * a + t * b.
  abbrev pub mix : F → F → F → F
  mix t a b = f.add (f.mul (f.sub one t) a) (f.mul t b)

  -- `Clip::Position`: the place between two frames, the frames, and the place of a joint's sample.
  abbrev pub raw_sample : Clip F → F → F
  raw_sample c elapsed = f.mul (f.mul elapsed c.config.motion_fps) c.config.playback_speed

  abbrev pub sample_of : Clip F → F → F
  sample_of c elapsed = clamp (raw_sample c elapsed) nought (f.of_nat (c.frames - 1))

  abbrev pub first_frame : Clip F → F → ℕ
  first_frame c elapsed = f.floor (sample_of c elapsed)

  abbrev pub second_frame : Clip F → F → ℕ
  second_frame c elapsed = min (first_frame c elapsed + 1) (c.frames - 1)

  abbrev pub place_of : Clip F → ℕ → ℕ → ℕ
  place_of c frame column = frame * length c.config.joint_indices + column

  unfoldable pub clip_position : Clip F → ℕ → F → F
  clip_position c column elapsed =
      let first = first_frame c elapsed in
      let at = λ (frame : ℕ). get_or c.positions (place_of c frame column) nought in
      mix (f.sub (sample_of c elapsed) (f.of_nat first)) (at first) (at (second_frame c elapsed))

  -- `CaptureSource`.
  abbrev pub capture : Clip F → List F → List F
  capture c previous = map (λ i. get_or previous i nought) c.config.joint_indices

  unfoldable pub reset : List F → Player F → Result (Player F)
  reset position p =
      if not (length position == p.num_dof)
      then err
      else ok (record p {
        previous = position;
        active = none;
        source = [];
        sequence = 0;
        status = no_interaction;
      })

  -- A request to cancel: an action that moves goes back, unless it does already.
  unfoldable pub cancel : Option (Clip F) → F → Player F → Player F
  cancel none elapsed p = record p {
    status = record p.status {
      request_accepted = true;
      phase = Phase.idle;
      action = [];
      progress = nought;
    };
  }
  cancel (some c) elapsed p =
      if p.status.phase == Phase.blend_out
      then record p { status = record p.status { request_accepted = true } }
      else record p {
        source = capture c p.previous;
        phase_start = elapsed;
        return_duration = f.neg one;
        status = record p.status {
          request_accepted = true;
          phase = Phase.blend_out;
          progress = one;
        };
      }

  -- A request to start the clip that was found, while none is active.
  unfoldable pub begin_clip : Option (Clip F) → InteractionRequest → F → Player F → Player F
  begin_clip none request elapsed p = record p {
    status = record p.status {
      request_accepted = false;
      phase = Phase.rejected;
      action = request.action;
      progress = nought;
    };
  }
  begin_clip (some c) request elapsed p = record p {
    active = some c;
    source = capture c p.previous;
    phase_start = elapsed;
    playback_start = f.add elapsed p.config.blend_in_duration;
    status = record p.status {
      request_accepted = true;
      phase = Phase.blend_in;
      action = request.action;
      progress = nought;
    };
  }

  abbrev pub clip_for : InteractionRequest → Player F → Option (Clip F)
  clip_for request p =
      if request.operation == Operation.start
      then find_if (λ c. text_eq c.config.name request.action) p.clips
      else none

  -- Anything but cancelling: refused while an action is active.
  unfoldable pub begin_or_refuse : Option (Clip F) → InteractionRequest → F → Player F → Player F
  unfolding begin_clip
  begin_or_refuse (some c) request elapsed p = record p {
    status = record p.status { request_accepted = false };
  }
  begin_or_refuse none request elapsed p = begin_clip (clip_for request p) request elapsed p

  abbrev pub noted : InteractionRequest → Player F → Player F
  noted request p = record p {
    sequence = request.sequence;
    status = record p.status { sequence = request.sequence };
  }

  unfoldable pub request_action : InteractionRequest → F → Player F → Result (Player F)
  unfolding cancel begin_or_refuse
  request_action request elapsed p =
      if not (valid_time elapsed)
      then err
      else if request.operation == Operation.unset
          || (request.sequence == 0 || leb request.sequence p.sequence)
      then ok p
      else if request.operation == Operation.cancel
      then ok (cancel p.active elapsed (noted request p))
      else ok (begin_or_refuse p.active request elapsed (noted request p))

  -- `Apply`: how far the motion has been blended in.
  abbrev pub blend_of : F → Player F → F
  blend_of elapsed p =
      if f.eq p.config.blend_in_duration nought
      then one
      else smooth_step (f.div (f.sub elapsed p.phase_start) p.config.blend_in_duration)

  unfoldable pub enter : F → Player F → Player F × F
  enter elapsed p =
      if p.status.phase == Phase.blend_in
      then (
        (if f.le one (blend_of elapsed p)
            then record p { status = record p.status { phase = Phase.playing } }
            else p),
        blend_of elapsed p,
      )
      else (p, one)

  abbrev pub playback_of : F → Player F → F
  playback_of elapsed p = fmax nought (f.sub elapsed p.playback_start)

  -- `Apply`: the place in the clip, and what follows its end.
  unfoldable pub proceed : Clip F → F → Player F → Player F × F
  unfolding clip_position
  proceed c elapsed p =
      let playback = playback_of elapsed p in
      let q = record p {
        status = record p.status {
          progress =
              if f.eq (duration c) nought
              then one
              else f.narrow (clamp (f.div playback (duration c)) nought one);
        };
      } in
      if not (p.status.phase == Phase.playing || p.status.phase == Phase.holding)
      then (p, nought)
      else if not (f.le (duration c) playback)
      then (q, playback)
      else if c.config.hold_last_frame
      then (record q { status = record q.status { phase = Phase.holding } }, duration c)
      else (
        record q {
          phase_start = elapsed;
          return_duration = f.neg one;
          source = tabulate (length p.source) (λ i. clip_position c i (duration c));
          status = record q.status { phase = Phase.blend_out };
        },
        duration c,
      )

  -- The time that the return takes: the distance of each joint at most at the greatest velocity.
  abbrev pub longest : F → List F → List ℕ → List F → F → F
  longest velocity [] joints position d = d
  longest velocity (x ∷ xs) [] position d = d
  longest velocity (x ∷ xs) (i ∷ is) position d =
      longest velocity xs is position (
        fmax d (f.div (f.mul (f.lit 1875 3) (f.abs (f.sub (get_or position i nought) x))) velocity))

  abbrev pub return_time : Clip F → List F → Player F → F
  return_time c position p =
      if not (f.lt p.return_duration nought)
      then p.return_duration
      else if f.lt nought p.config.return_max_velocity
      then longest p.config.return_max_velocity p.source c.config.joint_indices position
          p.config.blend_out_duration
      else p.config.blend_out_duration

  abbrev pub quintic : F → F
  quintic x =
      f.mul (f.mul (f.mul x x) x)
        (f.add (f.lit 10 0) (f.mul x (f.add (f.neg (f.lit 15 0)) (f.mul (f.lit 6 0) x))))

  -- Each joint of the clip on its way from the source to its target.
  abbrev pub blend_joints : F → List F → List ℕ → List F → List F
  blend_joints alpha [] joints position = position
  blend_joints alpha (x ∷ xs) [] position = position
  blend_joints alpha (x ∷ xs) (i ∷ is) position =
      blend_joints alpha xs is (set_at i (mix alpha x (get_or position i nought)) position)

  -- `Apply`: how much of the way back is made, once the return takes `time`.
  abbrev pub way_back : F → F → Player F → F
  way_back time elapsed p =
      let progress =
        if f.eq time nought
        then one
        else clamp (f.div (f.sub elapsed p.phase_start) time) nought one in
      if f.lt nought p.config.return_max_velocity then quintic progress else smooth_step progress

  -- `Apply`: going back to the target of the other joints.
  unfoldable pub go_back : Clip F → F → List F → Player F → Player F × List F
  go_back c elapsed position p =
      let time = return_time c position p in
      let alpha = way_back time elapsed p in
      let q = record p { return_duration = time } in
      (
        (if f.le one alpha
            then record q {
              active = none;
              status = record q.status { phase = Phase.finished; progress = one };
            }
            else q),
        blend_joints alpha p.source c.config.joint_indices position,
      )

  -- `Apply`: the joints on the clip, or on the way to it.
  abbrev pub follow_from : ℕ → Bool → F → F → Clip F → List F → List ℕ → List F → List F
  follow_from i entering blend playback c [] joints position = position
  follow_from i entering blend playback c (x ∷ xs) [] position = position
  follow_from i entering blend playback c (x ∷ xs) (k ∷ ks) position =
      let target = clip_position c i playback in
      follow_from (suc i) entering blend playback c xs ks
        (set_at k (if entering then mix blend x target else target) position)

  -- The rest of `Apply` after the clip's place is known.
  unfoldable pub settle_joints : Clip F → F → F → F → List F → Player F → Player F × List F
  unfolding go_back clip_position
  settle_joints c elapsed blend playback position p =
      if p.status.phase == Phase.blend_out then go_back c elapsed position p else (
        p,
        follow_from 0 (p.status.phase == Phase.blend_in) blend playback c p.source
            c.config.joint_indices position,
      )

  unfoldable pub play : Clip F → F → List F → Player F → Player F × List F
  unfolding enter proceed settle_joints
  play c elapsed position p =
      let (q, blend) = enter elapsed p in
      let (r, playback) = proceed c elapsed q in settle_joints c elapsed blend playback position r

  unfoldable pub play_active : Option (Clip F) → F → List F → Player F → Player F × List F
  unfolding play
  play_active none elapsed position p = (p, position)
  play_active (some c) elapsed position p = play c elapsed position p

  -- `Apply`: the player, and the position with the joints of the clip replaced.
  unfoldable pub apply : F → List F → Player F → Result (Player F × List F)
  unfolding play_active
  apply elapsed position p =
      if not (valid_time elapsed) || not (length position == p.num_dof)
      then err
      else let (q, target) = play_active p.active elapsed position p in
        ok (record q { previous = target }, target)
