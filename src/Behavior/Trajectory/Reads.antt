-- ===== src/Behavior/Trajectory/Reads.antt =====
-- src/behavior_manager/joint_trajectory.cpp, `Clip::Position`: the samples that it reads.
use humanoid_common.Prelude.{
  ℕ, ◌+◌, ◌-◌, ◌*◌, ◌<◌, ◌≤◌, ◌≡◌, refl, true, length, arith, List, [], ◌∷◌, zero, suc, get_or,
}
use native.Mathlib.Nat.{mul-le-mul_right}
use humanoid_common.Floats.{Float, IsOrdered, nought, clamp_number-Between}
use humanoid_common.Behavior.Trajectory.Player.{
  Clip, raw_sample, sample_of, first_frame, second_frame, place_of, clip_position, mix,
}

-- What reading a frame needs of the arithmetic: rounding down, and the conversion of a count.
pub record IsFloored {F : Type 0} (f : Float F) : Type 0 where
  pub floor_le :
      (x : F) (n : ℕ) → f.le (f.lit 0 0) x ≡ true → f.le x (f.of_nat n) ≡ true → f.floor x ≤ n
  pub le_of_nat : (n : ℕ) → f.le (f.lit 0 0) (f.of_nat n) ≡ true

-- The positions are a whole row of joints for each frame, and there is a frame.
pub record IsWhole {F : Type 0} (c : Clip F) : Type 0 where
  pub some_frame : 0 < c.frames
  pub rows : length c.positions ≡ c.frames * length c.config.joint_indices

place-lt :
    (frames frame width column : ℕ)
    → frame < frames
    → column < width
    → frame * width + column < frames * width
place-lt frames frame width column h l =
    let h' : frame + 1 ≤ frames = omega arith in omega (arith, mul-le-mul_right width h')

get_or-inside :
    {A : Type 0} (xs : List A) (i : ℕ) (d e : A) → i < length xs → get_or xs i d ≡ get_or xs i e
get_or-inside [] i d e h = absurd (omega arith)
get_or-inside (x ∷ xs) zero d e h = refl
get_or-inside (x ∷ xs) (suc i) d e h = get_or-inside xs i d e (omega arith)

module _ {F : Type 0} ⦃f : Float F⦄ (law : IsOrdered f) (floored : IsFloored f) where
  first_frame-le :
      (c : Clip F) (elapsed : F)
      → f.le (raw_sample c elapsed) (raw_sample c elapsed) ≡ true
      → first_frame c elapsed ≤ c.frames - 1
  first_frame-le c elapsed h =
      let b =
        clamp_number-Between law (raw_sample c elapsed) nought (f.of_nat (c.frames - 1)) h
          (floored.le_of_nat (c.frames - 1)) in
      floored.floor_le (sample_of c elapsed) (c.frames - 1) b.0 b.1

  -- In a clip as it is loaded, with a row of joints for each of its frames and at least one frame, the position
  -- of a joint at a time that is not NaN in frames is mixed of two samples that exist: whatever stood beyond
  -- the end of the samples, the position is the same.
  pub reads_inside :
      (c : Clip F) (column : ℕ) (elapsed beyond : F)
      → IsWhole c
      → column < length c.config.joint_indices
      → f.le (raw_sample c elapsed) (raw_sample c elapsed) ≡ true
      → let first = place_of c (first_frame c elapsed) column in
        let second = place_of c (second_frame c elapsed) column in
        (first < length c.positions)
        × (second < length c.positions)
        × (clip_position c column elapsed
            ≡ mix
                (f.sub (sample_of c elapsed) (f.of_nat (first_frame c elapsed)))
                (get_or c.positions first beyond)
                (get_or c.positions second beyond))
  unfolding clip_position
  reads_inside c column elapsed beyond w l h =
      let frame = first_frame-le c elapsed h in
      let width = length c.config.joint_indices in
      let a : place_of c (first_frame c elapsed) column < length c.positions = rw w.rows (
        place-lt c.frames (first_frame c elapsed) width column (omega (arith, frame, w.some_frame))
          l) in
      let b : place_of c (second_frame c elapsed) column < length c.positions =
        rw w.rows (
          place-lt c.frames (second_frame c elapsed) width column (omega (arith, w.some_frame))
            l) in
      (
        a,
        b,
        rw
            (
              get_or-inside c.positions _ nought beyond a,
              get_or-inside c.positions _ nought beyond b,
            )
            refl,
      )
