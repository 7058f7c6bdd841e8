-- ===== src/Behavior/Trajectory/Holding.antt =====
-- src/behavior_manager/states/state_trajectory.cpp: the joints that no recorded motion binds, from the entry
-- into TRAJECTORY on.
use humanoid_common.Prelude.{
  sym, get_or, subst, ℕ, ◌≡◌, refl, ap, ◌∙◌, Bool, true, ◌&&◌, List, [], ◌∷◌, length, ◌==◌, Result,
  ok, ◌>>=◌, both, arith,
}
use humanoid_common.Floats.{Float, nought}
use humanoid_common.Behavior.State.{Shared}
use humanoid_common.Behavior.Trajectory.Player.{reset, valid_time}
use humanoid_common.Behavior.Trajectory.Joints.{target_of, apply-elsewhere}
use humanoid_common.Behavior.Trajectory.StateTrajectory.{StateTrajectory, on_enter, run}
use humanoid_common.Behavior.Trajectory.Sparing.{
  misses_all, Spares, request_action-Spares, apply-Spares,
}

module _ {F : Type 0} ⦃f : Float F⦄ where
  -- One period after the other, each with its length and what the state shares then.
  unfoldable pub run_all :
      List (F × Shared F) → StateTrajectory F → Shared F → Result (StateTrajectory F × Shared F)
  unfolding run
  run_all [] s d = ok (s, d)
  run_all (p ∷ ps) s d = run p.0 s p.1 >>= λ r. run_all ps r.0 r.1

  -- The times at which the periods start can be times of the player.
  abbrev pub times_valid : List (F × Shared F) → F → Bool
  times_valid [] t = true
  times_valid (p ∷ ps) t = valid_time t && times_valid ps (f.add t p.0)

  -- What a period makes of the state, and the target that it sets for the joint i.
  record Ran (n i : ℕ) (dt : F) (s : StateTrajectory F) (r : Result (StateTrajectory F × Shared F))
      : Type 0 where
    ran :
        (t : StateTrajectory F × Shared F) × (r ≡ ok t)
        × Spares n i t.0.player
        × (t.0.ready_position ≡ s.ready_position)
        × (t.0.elapsed_s ≡ f.add s.elapsed_s dt)
        × (get_or t.1.output.target_pos i nought ≡ get_or s.ready_position i nought)

  run-Ran :
      (n i : ℕ) (control_dt : F) (s : StateTrajectory F) (d : Shared F)
      → valid_time s.elapsed_s ≡ true
      → length s.ready_position ≡ n
      → Spares n i s.player
      → Ran n i control_dt s (run control_dt s d)
  unfolding run
  run-Ran n i control_dt s d t l h =
      let asked =
        (request_action-Spares n i d.command.interaction s.elapsed_s s.player t h).result in
      let placed = (apply-Spares n i s.elapsed_s s.ready_position asked.0 t l asked.2).applied in
      let target =
        ap (λ r. get_or (target_of s.ready_position r) i nought) (sym placed.1)
        ∙ apply-elsewhere i nought s.elapsed_s s.ready_position asked.0 asked.2.unbound in
      record { ran = rw (asked.1, placed.1) (_, refl, placed.2.paired, refl, refl, target) }

  -- The calls returned, and the joint i is sent where the ready pose has it.
  pub record Holds (i : ℕ) (ready : List F) (r : Result (StateTrajectory F × Shared F))
      : Type 0 where
    pub held :
        (t : StateTrajectory F × Shared F) × (r ≡ ok t)
        × (get_or t.1.output.target_pos i nought ≡ get_or ready i nought)

  run_all-Holds :
      (n i : ℕ) (ps : List (F × Shared F)) (s : StateTrajectory F) (d : Shared F)
      → times_valid ps s.elapsed_s ≡ true
      → length s.ready_position ≡ n
      → Spares n i s.player
      → get_or d.output.target_pos i nought ≡ get_or s.ready_position i nought
      → Holds i s.ready_position (run_all ps s d)
  unfolding run_all
  run_all-Holds n i [] s d t l h e = record { held = ((s, d), refl, e) }
  run_all-Holds n i (p ∷ ps) s d t l h e =
      let times = both _ _ t in
      let step = (run-Ran n i p.0 s p.1 times.0 l h).ran in
      let rest =
        run_all-Holds n i ps step.0.0 step.0.1 (ap (times_valid ps) step.4 ∙ times.1)
          (ap length step.3 ∙ l) step.2 (step.5 ∙ ap (λ r. get_or r i nought) (sym step.3)) in
      rw step.1 (subst (λ r. Holds i r (run_all ps step.0.0 step.0.1)) step.3 rest)

  -- Where the ready pose has a value for each joint of the player and the times of the periods are finite
  -- and not negative, entering TRAJECTORY and any sequence of periods after it return, whatever is
  -- commanded in them, and each leaves a joint that no recorded motion binds where the ready pose has it.
  pub on_enter-run_all-Holds :
      (i : ℕ) (ps : List (F × Shared F)) (s : StateTrajectory F) (d : Shared F)
      → misses_all i s.player.clips ≡ true
      → length s.ready_position ≡ s.player.num_dof
      → times_valid ps nought ≡ true
      → Holds i s.ready_position (on_enter s d >>= λ r. run_all ps r.0 r.1)
  unfolding on_enter reset
  on_enter-run_all-Holds i ps s d u l t =
      let same : (length s.ready_position == s.player.num_dof) ≡ true = ground (arith, l) in
      rw same (
        run_all-Holds s.player.num_dof i ps _ _ t l
          (record { sized = refl; unlisted = u; unbound = refl }) refl)
