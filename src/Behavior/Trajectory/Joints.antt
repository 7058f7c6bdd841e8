-- ===== src/Behavior/Trajectory/Joints.antt =====
-- src/behavior_manager/joint_trajectory.cpp, `Player::Apply`: the joints that the active clip does not
-- bind.
use humanoid_common.Prelude.{
  ℕ, zero, suc, ◌≡◌, refl, ◌∙◌, Bool, true, not, ◌||◌, List, [], ◌∷◌, length, get_or, ◌==◌, Option,
  none, some, Result, ok, err, if_either, all_of, both, arith,
}
use humanoid_common.Floats.{Float}
use humanoid_common.RobotBase.Phase
use humanoid_common.Behavior.Trajectory.Player.{
  Clip, Player, set_at, blend_joints, follow_from, valid_time, go_back, settle_joints, play,
  play_active, apply, enter, proceed, return_time, way_back,
}

-- The clip has no joint i.
abbrev pub misses : ℕ → List ℕ → Bool
misses i joints = all_of (λ k. not (k == i)) joints

abbrev pub misses_active : {F : Type 0} → ℕ → Option (Clip F) → Bool
misses_active i none = true
misses_active i (some c) = misses i c.config.joint_indices

-- The caller's position after `Apply`, which a call that throws has not changed.
abbrev pub target_of : {F : Type 0} → List F → Result (Player F × List F) → List F
target_of position (ok (p, target)) = target
target_of position err = position

set_at-elsewhere :
    {A : Type 0} (k i : ℕ) (a d : A) (xs : List A)
    → not (k == i) ≡ true
    → get_or (set_at k a xs) i d ≡ get_or xs i d
set_at-elsewhere k i a d [] h = refl
set_at-elsewhere zero zero a d (x ∷ xs) h = ground (arith, h)
set_at-elsewhere zero (suc i) a d (x ∷ xs) h = refl
set_at-elsewhere (suc k) zero a d (x ∷ xs) h = refl
set_at-elsewhere (suc k) (suc i) a d (x ∷ xs) h = set_at-elsewhere k i a d xs (ground (arith, h))

-- What a step of `Apply` does to the target of joint i.
record Spares {F A : Type 0} (i : ℕ) (d : F) (position : List F) (r : A × List F) : Type 0 where
  spared : get_or r.1 i d ≡ get_or position i d

record Leaves {F : Type 0} (i : ℕ) (d : F) (position : List F) (r : Result (Player F × List F))
    : Type 0 where
  left : get_or (target_of position r) i d ≡ get_or position i d

module _ {F : Type 0} ⦃f : Float F⦄ where
  blend_joints-elsewhere :
      (i : ℕ) (alpha d : F) (source : List F) (joints : List ℕ) (position : List F)
      → misses i joints ≡ true
      → get_or (blend_joints alpha source joints position) i d ≡ get_or position i d
  blend_joints-elsewhere i alpha d [] joints position h = refl
  blend_joints-elsewhere i alpha d (x ∷ xs) [] position h = refl
  blend_joints-elsewhere i alpha d (x ∷ xs) (k ∷ ks) position h =
      blend_joints-elsewhere i alpha d xs ks _ (both _ _ h).1
      ∙ set_at-elsewhere k i _ d position (both _ _ h).0

  follow_from-elsewhere :
      (i n : ℕ) (entering : Bool) (blend playback d : F) (c : Clip F) (source : List F)
      (joints : List ℕ) (position : List F)
      → misses i joints ≡ true
      → get_or (follow_from n entering blend playback c source joints position) i d
        ≡ get_or position i d
  follow_from-elsewhere i n entering blend playback d c [] joints position h = refl
  follow_from-elsewhere i n entering blend playback d c (x ∷ xs) [] position h = refl
  follow_from-elsewhere i n entering blend playback d c (x ∷ xs) (k ∷ ks) position h =
      follow_from-elsewhere i (suc n) entering blend playback d c xs ks _ (both _ _ h).1
      ∙ set_at-elsewhere k i _ d position (both _ _ h).0

  settle_joints-Spares :
      (i : ℕ) (d : F) (c : Clip F) (elapsed blend playback : F) (position : List F) (p : Player F)
      → misses i c.config.joint_indices ≡ true
      → Spares i d position (settle_joints c elapsed blend playback position p)
  unfolding settle_joints go_back
  settle_joints-Spares i d c elapsed blend playback position p h =
      if_either (Spares i d position) (p.status.phase == Phase.blend_out)
        (record {
          spared =
              blend_joints-elsewhere i (way_back (return_time c position p) elapsed p) d p.source
                c.config.joint_indices position h;
        })
        (record {
          spared =
              follow_from-elsewhere i 0 (p.status.phase == Phase.blend_in) blend playback d c
                p.source c.config.joint_indices position h;
        })

  play_active-Spares :
      (i : ℕ) (d : F) (o : Option (Clip F)) (elapsed : F) (position : List F) (p : Player F)
      → misses_active i o ≡ true
      → Spares i d position (play_active o elapsed position p)
  unfolding play_active play
  play_active-Spares i d none elapsed position p h = record { spared = refl }
  play_active-Spares i d (some c) elapsed position p h =
      let entered = enter elapsed p in
      let proceeded = proceed c elapsed entered.0 in
      settle_joints-Spares i d c elapsed entered.1 proceeded.1 position proceeded.0 h

  -- The position that `Apply` leaves has the caller's own value at every joint that the active clip does
  -- not bind, and at every joint when none is active or the call throws.
  pub apply-elsewhere :
      (i : ℕ) (d elapsed : F) (position : List F) (p : Player F)
      → misses_active i p.active ≡ true
      → get_or (target_of position (apply elapsed position p)) i d ≡ get_or position i d
  unfolding apply
  apply-elsewhere i d elapsed position p h =
      (if_either (Leaves i d position)
        (not (valid_time elapsed) || not (length position == p.num_dof)) (record { left = refl })
        (record { left = (play_active-Spares i d p.active elapsed position p h).spared })).left
