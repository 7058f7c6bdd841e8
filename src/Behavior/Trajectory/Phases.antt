-- ===== src/Behavior/Trajectory/Phases.antt =====
-- src/behavior_manager/joint_trajectory.cpp: that the phase which a player reports fits what it does,
-- over every sequence of its calls.
use humanoid_common.Prelude.{
  ℕ, ◌≡◌, refl, Bool, true, false, ◌||◌, not, List, [], ◌∷◌, length, ◌==◌, leb, Option, none, some,
  Result, ok, err, if_either, sym, ap, ◌∙◌,
}
use humanoid_common.Floats.{Float, one}
use humanoid_common.RobotBase.{InteractionRequest}
use humanoid_common.RobotBase.Operation
use humanoid_common.RobotBase.Phase
use humanoid_common.Behavior.Trajectory.Player.{
  Clip, Player, reset, cancel, begin_clip, clip_for, begin_or_refuse, noted, request_action,
  valid_time, enter, proceed, blend_of, playback_of, return_time, way_back, go_back, settle_joints,
  play, play_active, apply, duration,
}

abbrev pub moves : ℕ → Bool
moves phase =
    phase == Phase.blend_in
    || phase == Phase.playing
    || phase == Phase.holding
    || phase == Phase.blend_out

abbrev is_active {ℓ} : {A : Type ℓ} → Option A → Bool
is_active none = false
is_active (some a) = true

-- A moving phase is reported exactly while a clip is active.
pub record IsPhased {F : Type 0} (p : Player F) : Type 0 where
  pub phased : moves p.status.phase ≡ is_active p.active

pub record Moves {F : Type 0} (c : Clip F) (p : Player F) : Type 0 where
  pub active : p.active ≡ some c
  pub moving : moves p.status.phase ≡ true

abbrev or_unchanged {ℓ} : {A : Type ℓ} → A → Result A → A
or_unchanged a (ok b) = b
or_unchanged a err = a

abbrev applied : {F : Type 0} → Player F → Result (Player F × List F) → Player F
applied p (ok (q, target)) = q
applied p err = p

-- What a call keeps, a throwing one included.
record Keeps {F : Type 0} (p : Player F) (r : Result (Player F)) : Type 0 where
  kept : IsPhased (or_unchanged p r)

record Carries {F A : Type 0} (c : Clip F) (r : Player F × A) : Type 0 where
  carried : Moves c (r.0)

record Settles {F A : Type 0} (r : Player F × A) : Type 0 where
  settled : IsPhased (r.0)

record Applies {F : Type 0} (p : Player F) (r : Result (Player F × List F)) : Type 0 where
  still : IsPhased (applied p r)

pub data Call (F : Type 0) : Type 0 where
  reset_call : List F → Call F
  request_call : InteractionRequest → F → Call F
  apply_call : F → List F → Call F

module _ {F : Type 0} ⦃f : Float F⦄ where
  -- The player after a call; one that throws throws before it changes anything.
  unfoldable pub after : Call F → Player F → Player F
  unfolding reset request_action apply
  after (reset_call position) p = or_unchanged p (reset position p)
  after (request_call request elapsed) p = or_unchanged p (request_action request elapsed p)
  after (apply_call elapsed position) p = applied p (apply elapsed position p)

  abbrev pub after_all : List (Call F) → Player F → Player F
  after_all [] p = p
  after_all (call ∷ calls) p = after_all calls (after call p)

  IsPhased-moves : (c : Clip F) (p : Player F) → Moves c p → IsPhased p
  IsPhased-moves c p m = record { phased = m.moving ∙ sym (ap is_active m.active) }

  Moves-IsPhased : (c : Clip F) (p : Player F) → p.active ≡ some c → IsPhased p → Moves c p
  Moves-IsPhased c p e h = record { active = e; moving = h.phased ∙ ap is_active e }

  cancel-IsPhased :
      (o : Option (Clip F)) (elapsed : F) (p : Player F)
      → p.active ≡ o
      → IsPhased p
      → IsPhased (cancel o elapsed p)
  unfolding cancel
  cancel-IsPhased none elapsed p e h = record { phased = sym (ap is_active e) }
  cancel-IsPhased (some c) elapsed p e h =
      if_either IsPhased (p.status.phase == Phase.blend_out) (record { phased = h.phased })
        (record { phased = sym (ap is_active e) })

  begin_clip-IsPhased :
      (o : Option (Clip F)) (request : InteractionRequest) (elapsed : F) (p : Player F)
      → p.active ≡ none
      → IsPhased (begin_clip o request elapsed p)
  unfolding begin_clip
  begin_clip-IsPhased none request elapsed p e = record { phased = sym (ap is_active e) }
  begin_clip-IsPhased (some c) request elapsed p e = record { phased = refl }

  begin_or_refuse-IsPhased :
      (o : Option (Clip F)) (request : InteractionRequest) (elapsed : F) (p : Player F)
      → p.active ≡ o
      → IsPhased p
      → IsPhased (begin_or_refuse o request elapsed p)
  unfolding begin_or_refuse
  begin_or_refuse-IsPhased (some c) request elapsed p e h = record { phased = h.phased }
  begin_or_refuse-IsPhased none request elapsed p e h =
      begin_clip-IsPhased (clip_for request p) request elapsed p e

  request_action-IsPhased :
      (request : InteractionRequest) (elapsed : F) (p : Player F)
      → IsPhased p
      → IsPhased (or_unchanged p (request_action request elapsed p))
  unfolding request_action
  request_action-IsPhased request elapsed p h =
      (if_either (Keeps p) (not (valid_time elapsed)) (record { kept = h })
        (if_either (Keeps p)
          (request.operation == Operation.unset
            || (request.sequence == 0 || leb request.sequence p.sequence))
          (record { kept = h })
          (if_either (Keeps p) (request.operation == Operation.cancel)
            (record {
              kept =
                  cancel-IsPhased p.active elapsed (noted request p) refl
                    (record { phased = h.phased });
            })
            (record {
              kept =
                  begin_or_refuse-IsPhased p.active request elapsed (noted request p) refl
                    (record { phased = h.phased });
            })))).kept

  reset-IsPhased :
      (position : List F) (p : Player F) → IsPhased p → IsPhased (or_unchanged p (reset position p))
  unfolding reset
  reset-IsPhased position p h =
      (if_either (Keeps p) (not (length position == p.num_dof)) (record { kept = h })
        (record { kept = record { phased = refl } })).kept

  enter-Moves : (c : Clip F) (elapsed : F) (p : Player F) → Moves c p → Carries c (enter elapsed p)
  unfolding enter
  enter-Moves c elapsed p m =
      if_either (Carries c) (p.status.phase == Phase.blend_in)
        (record {
          carried =
              if_either (Moves c) (f.le one (blend_of elapsed p))
                (record { active = m.active; moving = refl }) m;
        })
        (record { carried = m })

  proceed-Moves :
      (c : Clip F) (elapsed : F) (p : Player F) → Moves c p → Carries c (proceed c elapsed p)
  unfolding proceed
  proceed-Moves c elapsed p m =
      if_either (Carries c)
        (not (p.status.phase == Phase.playing || p.status.phase == Phase.holding))
        (record { carried = m })
        (if_either (Carries c) (not (f.le (duration c) (playback_of elapsed p)))
          (record { carried = record { active = m.active; moving = m.moving } })
          (if_either (Carries c) c.config.hold_last_frame
            (record { carried = record { active = m.active; moving = refl } })
            (record { carried = record { active = m.active; moving = refl } })))

  go_back-IsPhased :
      (c : Clip F) (elapsed : F) (position : List F) (p : Player F)
      → Moves c p
      → Settles (go_back c elapsed position p)
  unfolding go_back
  go_back-IsPhased c elapsed position p m = record {
    settled =
        if_either IsPhased (f.le one (way_back (return_time c position p) elapsed p))
          (record { phased = refl }) (record { phased = m.moving ∙ sym (ap is_active m.active) });
  }

  settle_joints-IsPhased :
      (c : Clip F) (elapsed blend playback : F) (position : List F) (p : Player F)
      → Moves c p
      → Settles (settle_joints c elapsed blend playback position p)
  unfolding settle_joints
  settle_joints-IsPhased c elapsed blend playback position p m =
      if_either Settles (p.status.phase == Phase.blend_out)
        (go_back-IsPhased c elapsed position p m) (record { settled = IsPhased-moves c p m })

  play-IsPhased :
      (c : Clip F) (elapsed : F) (position : List F) (p : Player F)
      → Moves c p
      → Settles (play c elapsed position p)
  unfolding play
  play-IsPhased c elapsed position p m =
      let entered = enter elapsed p in
      let proceeded = proceed c elapsed entered.0 in
      settle_joints-IsPhased c elapsed entered.1 proceeded.1 position proceeded.0
        (proceed-Moves c elapsed entered.0 (enter-Moves c elapsed p m).carried).carried

  play_active-IsPhased :
      (o : Option (Clip F)) (elapsed : F) (position : List F) (p : Player F)
      → p.active ≡ o
      → IsPhased p
      → Settles (play_active o elapsed position p)
  unfolding play_active
  play_active-IsPhased none elapsed position p e h = record { settled = h }
  play_active-IsPhased (some c) elapsed position p e h =
      play-IsPhased c elapsed position p (Moves-IsPhased c p e h)

  apply-IsPhased :
      (elapsed : F) (position : List F) (p : Player F)
      → IsPhased p
      → Applies p (apply elapsed position p)
  unfolding apply
  apply-IsPhased elapsed position p h =
      if_either (Applies p) (not (valid_time elapsed) || not (length position == p.num_dof))
        (record { still = h })
        (record {
          still = record {
            phased = (play_active-IsPhased p.active elapsed position p refl h).settled.phased;
          };
        })

  after-IsPhased : (call : Call F) (p : Player F) → IsPhased p → IsPhased (after call p)
  unfolding after
  after-IsPhased (reset_call position) p h = reset-IsPhased position p h
  after-IsPhased (request_call request elapsed) p h = request_action-IsPhased request elapsed p h
  after-IsPhased (apply_call elapsed position) p h = (apply-IsPhased elapsed position p h).still

  -- A player that reports a moving phase exactly while a clip is active still does so after any sequence
  -- of resets, requests and applications, those that throw included.
  pub after_all-IsPhased :
      (calls : List (Call F)) (p : Player F) → IsPhased p → IsPhased (after_all calls p)
  after_all-IsPhased [] p h = h
  after_all-IsPhased (call ∷ calls) p h =
      after_all-IsPhased calls (after call p) (after-IsPhased call p h)
