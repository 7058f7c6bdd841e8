-- ===== src/Behavior/Trajectory/Sparing.antt =====
-- src/behavior_manager/joint_trajectory.cpp: a joint that no clip binds, through the calls of `Player`.
use humanoid_common.Prelude.{
  text_eq, inl, inr, find_if, Bool-cases, ℕ, ◌≡◌, refl, Bool, true, not, ◌&&◌, ◌||◌, List, [], ◌∷◌,
  length, ◌==◌, leb, Option, none, some, Result, ok, if_either, if_split, both, arith,
}
use humanoid_common.Floats.{Float, one}
use humanoid_common.RobotBase.{InteractionRequest}
use humanoid_common.RobotBase.Operation
use humanoid_common.RobotBase.Phase
use humanoid_common.Behavior.Trajectory.Player.{
  Clip, Player, cancel, begin_clip, clip_for, begin_or_refuse, noted, request_action, valid_time,
  enter, proceed, blend_of, playback_of, duration, return_time, way_back, go_back, settle_joints,
  play, play_active, apply,
}
use humanoid_common.Behavior.Trajectory.Joints.{misses, misses_active}

-- No clip of the list binds the joint i.
abbrev pub misses_all : {F : Type 0} → ℕ → List (Clip F) → Bool
misses_all i [] = true
misses_all i (c ∷ cs) = misses i c.config.joint_indices && misses_all i cs

found-misses :
    {F : Type 0} (i : ℕ) (P : Clip F → Bool) (cs : List (Clip F))
    → misses_all i cs ≡ true
    → misses_active i (find_if P cs) ≡ true
found-misses i P [] h = refl
found-misses i P (c ∷ cs) h = elim (Bool-cases (P c)) [
  | inl e ↦ rw e (both _ _ h).0
  | inr e ↦ rw e (found-misses i P cs (both _ _ h).1)
]

-- What the calls make of a player of n joints, of which its clips do not bind the joint i.
pub record Spares {F : Type 0} (n i : ℕ) (p : Player F) : Type 0 where
  pub sized : p.num_dof ≡ n
  pub unlisted : misses_all i p.clips ≡ true
  pub unbound : misses_active i p.active ≡ true

pub record SparesPair {F A : Type 0} (n i : ℕ) (r : Player F × A) : Type 0 where
  pub paired : Spares n i r.0

pub record SparesResult {F : Type 0} (n i : ℕ) (r : Result (Player F)) : Type 0 where
  pub result : (q : Player F) × (r ≡ ok q) × Spares n i q

pub record SparesApply {F A : Type 0} (n i : ℕ) (r : Result (Player F × A)) : Type 0 where
  pub applied : (q : Player F × A) × (r ≡ ok q) × SparesPair n i q

module _ {F : Type 0} ⦃f : Float F⦄ where
  cancel-Spares :
      (n i : ℕ) (o : Option (Clip F)) (elapsed : F) (p : Player F)
      → Spares n i p
      → Spares n i (cancel o elapsed p)
  unfolding cancel
  cancel-Spares n i none elapsed p h = (record {
    sized = h.sized;
    unlisted = h.unlisted;
    unbound = h.unbound;
  })
  cancel-Spares n i (some c) elapsed p h =
      if_either (Spares n i) (p.status.phase == Phase.blend_out)
        (record { sized = h.sized; unlisted = h.unlisted; unbound = h.unbound })
        (record { sized = h.sized; unlisted = h.unlisted; unbound = h.unbound })

  begin_clip-Spares :
      (n i : ℕ) (o : Option (Clip F)) (request : InteractionRequest) (elapsed : F) (p : Player F)
      → misses_active i o ≡ true
      → Spares n i p
      → Spares n i (begin_clip o request elapsed p)
  unfolding begin_clip
  begin_clip-Spares n i none request elapsed p e h = (record {
    sized = h.sized;
    unlisted = h.unlisted;
    unbound = h.unbound;
  })
  begin_clip-Spares n i (some c) request elapsed p e h = record {
    sized = h.sized;
    unlisted = h.unlisted;
    unbound = e;
  }

  clip_for-misses :
      (i : ℕ) (request : InteractionRequest) (p : Player F)
      → misses_all i p.clips ≡ true
      → misses_active i (clip_for request p) ≡ true
  clip_for-misses i request p h = elim (Bool-cases (request.operation == Operation.start)) [
    | inl e ↦ rw e (found-misses i (λ c. text_eq c.config.name request.action) p.clips h)
    | inr e ↦ rw e refl
  ]

  begin_or_refuse-Spares :
      (n i : ℕ) (o : Option (Clip F)) (request : InteractionRequest) (elapsed : F) (p : Player F)
      → Spares n i p
      → Spares n i (begin_or_refuse o request elapsed p)
  unfolding begin_or_refuse
  begin_or_refuse-Spares n i (some c) request elapsed p h = (record {
    sized = h.sized;
    unlisted = h.unlisted;
    unbound = h.unbound;
  })
  begin_or_refuse-Spares n i none request elapsed p h =
      begin_clip-Spares n i (clip_for request p) request elapsed p
        (clip_for-misses i request p h.unlisted) h

  accepted : (n i : ℕ) (p : Player F) → Spares n i p → SparesResult n i (ok p)
  accepted n i p h = record { result = (p, refl, h) }

  pub request_action-Spares :
      (n i : ℕ) (request : InteractionRequest) (elapsed : F) (p : Player F)
      → valid_time elapsed ≡ true
      → Spares n i p
      → SparesResult n i (request_action request elapsed p)
  unfolding request_action
  request_action-Spares n i request elapsed p t h =
      if_split (SparesResult n i) (not (valid_time elapsed)) (λ e. ground (arith, t, e))
        λ e.
          if_either (SparesResult n i)
            (request.operation == Operation.unset
              || (request.sequence == 0 || leb request.sequence p.sequence))
            (accepted n i p h)
            (if_either (SparesResult n i) (request.operation == Operation.cancel)
              (accepted n i _ (
                cancel-Spares n i p.active elapsed (noted request p)
                  (record { sized = h.sized; unlisted = h.unlisted; unbound = h.unbound })))
              (accepted n i _ (
                begin_or_refuse-Spares n i p.active request elapsed (noted request p)
                  (record { sized = h.sized; unlisted = h.unlisted; unbound = h.unbound }))))

  enter-Spares :
      (n i : ℕ) (elapsed : F) (p : Player F) → Spares n i p → SparesPair n i (enter elapsed p)
  unfolding enter
  enter-Spares n i elapsed p h =
      if_either (SparesPair n i) (p.status.phase == Phase.blend_in)
        (record {
          paired =
              if_either (Spares n i) (f.le one (blend_of elapsed p))
                (record { sized = h.sized; unlisted = h.unlisted; unbound = h.unbound }) h;
        })
        (record { paired = h })

  proceed-Spares :
      (n i : ℕ) (c : Clip F) (elapsed : F) (p : Player F)
      → Spares n i p
      → SparesPair n i (proceed c elapsed p)
  unfolding proceed
  proceed-Spares n i c elapsed p h =
      if_either (SparesPair n i)
        (not (p.status.phase == Phase.playing || p.status.phase == Phase.holding))
        (record { paired = h })
        (if_either (SparesPair n i) (not (f.le (duration c) (playback_of elapsed p)))
          (record {
            paired = (record { sized = h.sized; unlisted = h.unlisted; unbound = h.unbound });
          })
          (if_either (SparesPair n i) c.config.hold_last_frame
            (record {
              paired = (record { sized = h.sized; unlisted = h.unlisted; unbound = h.unbound });
            })
            (record {
              paired = (record { sized = h.sized; unlisted = h.unlisted; unbound = h.unbound });
            })))

  settle_joints-Spares :
      (n i : ℕ) (c : Clip F) (elapsed blend playback : F) (position : List F) (p : Player F)
      → Spares n i p
      → SparesPair n i (settle_joints c elapsed blend playback position p)
  unfolding settle_joints go_back
  settle_joints-Spares n i c elapsed blend playback position p h =
      if_either (SparesPair n i) (p.status.phase == Phase.blend_out)
        (record {
          paired =
              if_either (Spares n i) (f.le one (way_back (return_time c position p) elapsed p))
                (record { sized = h.sized; unlisted = h.unlisted; unbound = refl })
                (record { sized = h.sized; unlisted = h.unlisted; unbound = h.unbound });
        })
        (record { paired = h })

  play_active-Spares :
      (n i : ℕ) (o : Option (Clip F)) (elapsed : F) (position : List F) (p : Player F)
      → Spares n i p
      → SparesPair n i (play_active o elapsed position p)
  unfolding play_active play
  play_active-Spares n i none elapsed position p h = record { paired = h }
  play_active-Spares n i (some c) elapsed position p h =
      let e = enter elapsed p in
      let q = proceed c elapsed e.0 in
      settle_joints-Spares n i c elapsed e.1 q.1 position q.0
        (proceed-Spares n i c elapsed e.0 (enter-Spares n i elapsed p h).paired).paired

  pub apply-Spares :
      (n i : ℕ) (elapsed : F) (position : List F) (p : Player F)
      → valid_time elapsed ≡ true
      → length position ≡ n
      → Spares n i p
      → SparesApply n i (apply elapsed position p)
  unfolding apply
  apply-Spares n i elapsed position p t l h =
      let same : (length position == p.num_dof) ≡ true = ground (arith, l, h.sized) in
      if_split (SparesApply n i) (not (valid_time elapsed) || not (length position == p.num_dof))
        (λ e. ground (arith, t, same, e))
        λ e.
          let x = (play_active-Spares n i p.active elapsed position p h).paired in
          record {
            applied = (
              _,
              refl,
              record {
                paired = record { sized = x.sized; unlisted = x.unlisted; unbound = x.unbound };
              },
            );
          }
