-- ===== src/Behavior/States/Zero/Readiness.antt =====
-- ZERO reports that it is ready only on a measured pose.
use humanoid_common.Prelude.{
  ℕ, suc, ◌≡◌, refl, sym, subst, Bool, true, false, ◌&&◌, List, [], ◌∷◌, arith, ◌==◌, length,
  Bool-cases, inl, inr, if◌then◌else◌,
}
use humanoid_common.Floats.{Float, IsOrdered, nought}
use humanoid_common.Behavior.State.{Shared}
use humanoid_common.Behavior.States.Zero.{
  ZeroState, observe_joint, measure_from, measure_pose, converged, update_readiness, run,
}

module _ {F : Type 0} ⦃f : Float F⦄ where
  -- Every joint is within the distance `e` of its target and slower than `v`.
  abbrev pub AllWithin : F → F → List F → List F → List F → Type 0
  AllWithin e v (t ∷ ts) (p ∷ ps) (w ∷ ws) =
      (f.le (f.abs (f.sub t p)) e ≡ true) × (f.le (f.abs w) v ≡ true) × AllWithin e v ts ps ws
  AllWithin e v _ _ _ = Unit {0}

  measure_from-config :
      (i : ℕ) (ts ps ws : List F) (s : ZeroState F)
      → (measure_from i ts ps ws s).0.config ≡ s.config
  unfolding measure_from
  measure_from-config i [] ps ws s = refl
  measure_from-config i (t ∷ ts) [] ws s = refl
  measure_from-config i (t ∷ ts) (p ∷ ps) [] s = refl
  measure_from-config i (t ∷ ts) (p ∷ ps) (w ∷ ws) s =
      ground (arith, measure_from-config (suc i) ts ps ws (observe_joint i t p w s))

  abbrev start : ZeroState F → ZeroState F
  start s = record s {
    feedback_valid = false;
    max_position_error = nought;
    max_position_error_index = 0;
    max_velocity = nought;
    max_velocity_index = 0;
  }

  abbrev has_feedback : ZeroState F → Shared F → Bool
  has_feedback s d =
      (length d.sensor.joint_pos == length s.default_pos)
      && (length d.sensor.joint_vel == length s.default_pos)

  abbrev measured_joints : ZeroState F → Shared F → ZeroState F × Bool
  measured_joints s d = measure_from 0 s.default_pos d.sensor.joint_pos d.sensor.joint_vel (start s)

  -- One round of the loop: it goes on exactly when the joint's values are finite.
  measure_from-cons :
      (i : ℕ) (t p w : F) (ts ps ws : List F) (s : ZeroState F)
      → (measure_from i (t ∷ ts) (p ∷ ps) (w ∷ ws) s).1 ≡ true
      → (f.is_finite t ≡ true)
        × (f.is_finite p ≡ true)
        × (f.is_finite w ≡ true)
        × (measure_from i (t ∷ ts) (p ∷ ps) (w ∷ ws) s
            ≡ measure_from (suc i) ts ps ws (observe_joint i t p w s))
  unfolding measure_from
  measure_from-cons i t p w ts ps ws s h = ground arith

  measure_pose-config : (s : ZeroState F) (d : Shared F) → (measure_pose s d).0.config ≡ s.config
  unfolding measure_pose
  measure_pose-config s d =
      ground
        (arith, measure_from-config 0 s.default_pos d.sensor.joint_pos d.sensor.joint_vel (start s))

  module _ (laws : IsOrdered f) where
    -- The larger of a maximum so far and a new value bounds both.
    raised :
        (m e : F)
        → f.le m m ≡ true
        → f.le e e ≡ true
        → let m' = if f.lt m e then e else m in
          (f.le m m' ≡ true) × (f.le e m' ≡ true) × (f.le m' m' ≡ true)
    raised m e p q = ground (arith, laws.le_of_lt m e, laws.le_of_not_lt e m)

    abbrev Bounds : ZeroState F → ZeroState F → List F → List F → List F → Type 0
    Bounds s m ts ps ws =
        (f.le s.max_position_error m.max_position_error ≡ true)
        × (f.le s.max_velocity m.max_velocity ≡ true)
        × AllWithin m.max_position_error m.max_velocity ts ps ws

    measure_from-Bounds :
        (i : ℕ) (ts ps ws : List F) (s : ZeroState F)
        → f.le s.max_position_error s.max_position_error ≡ true
        → f.le s.max_velocity s.max_velocity ≡ true
        → (measure_from i ts ps ws s).1 ≡ true
        → Bounds s (measure_from i ts ps ws s).0 ts ps ws
    measure_from-Bounds i [] ps ws s a b h = unfold measure_from in (a, b, tt)
    measure_from-Bounds i (t ∷ ts) [] ws s a b h = unfold measure_from in (a, b, tt)
    measure_from-Bounds i (t ∷ ts) (p ∷ ps) [] s a b h = unfold measure_from in (a, b, tt)
    measure_from-Bounds i (t ∷ ts) (p ∷ ps) (w ∷ ws) s a b h =
        let s' = observe_joint i t p w s in
        let error = f.abs (f.sub t p) in
        let speed = f.abs w in
        let (ft, fp, fw, next) = measure_from-cons i t p w ts ps ws s h in
        let (e0, e1, e2) = raised s.max_position_error error a (laws.distance_le t p ft fp) in
        let (v0, v1, v2) = raised s.max_velocity speed b (laws.abs_le w fw) in
        let rest = measure_from (suc i) ts ps ws s' in
        let (m0, m1, within) = measure_from-Bounds (suc i) ts ps ws s' e2 v2 (rw next at h) in
        let m = rest.0 in
        subst (λ (q : ZeroState F × Bool). Bounds s q.0 (t ∷ ts) (p ∷ ps) (w ∷ ws)) (sym next)
          (
            laws.le_trans s.max_position_error s'.max_position_error m.max_position_error e0 m0,
            laws.le_trans s.max_velocity s'.max_velocity m.max_velocity v0 m1,
            (
              laws.le_trans error s'.max_position_error m.max_position_error e1 m0,
              laws.le_trans speed s'.max_velocity m.max_velocity v1 m1,
              within,
            ),
          )

    within_mono :
        (e v e' v' : F) (ts ps ws : List F)
        → f.le e e' ≡ true
        → f.le v v' ≡ true
        → AllWithin e v ts ps ws
        → AllWithin e' v' ts ps ws
    within_mono e v e' v' [] ps ws p q h = tt
    within_mono e v e' v' (t ∷ ts) [] ws p q h = tt
    within_mono e v e' v' (t ∷ ts) (x ∷ ps) [] p q h = tt
    within_mono e v e' v' (t ∷ ts) (x ∷ ps) (w ∷ ws) p q h = (
      laws.le_trans _ e e' h.0 p,
      laws.le_trans _ v v' h.1 q,
      within_mono e v e' v' ts ps ws p q h.2,
    )

    -- A pose that is measured and passes the test of `UpdateReadiness` is within the tolerances.
    converged-AllWithin :
        (dt : F) (s : ZeroState F) (d : Shared F)
        → let (m, measured) = measure_pose s d in
          converged dt m measured ≡ true
          → (length d.sensor.joint_pos ≡ length s.default_pos)
            × (length d.sensor.joint_vel ≡ length s.default_pos)
            × AllWithin s.config.position_tolerance s.config.velocity_tolerance s.default_pos
                d.sensor.joint_pos d.sensor.joint_vel
    unfolding measure_pose
    converged-AllWithin dt s d h = elim (Bool-cases (has_feedback s d)) [
      | inl e ↦
          let (m, measured) = measured_joints s d in
          let h' : converged dt m measured ≡ true = rw e at h in
          let zero_le = laws.le_of_is_finite nought laws.nought_finite in
          let (_, _, within) =
            measure_from-Bounds 0 s.default_pos d.sensor.joint_pos d.sensor.joint_vel (start s)
              zero_le zero_le (ground arith) in
          let same =
            measure_from-config 0 s.default_pos d.sensor.joint_pos d.sensor.joint_vel (start s) in
          (
            ground arith,
            ground arith,
            within_mono m.max_position_error m.max_velocity _ _ s.default_pos d.sensor.joint_pos
                d.sensor.joint_vel (ground (arith, same)) (ground (arith, same)) within,
          )
      | inr e ↦
          let h' : converged dt (record s { feedback_valid = false }) false ≡ true = rw e at h in cc
    ]

    -- ZERO becomes ready in a period only if the move is over and every joint was measured within the
    -- configured distance of its target and below the configured speed, if the settling time is more than
    -- the tolerance that the code adds to the time settled.
    pub ready_needs_pose :
        (dt : F) (s : ZeroState F) (d : Shared F)
        → f.lt (f.add nought (f.lit 1 12)) s.config.settle_duration ≡ true
        → s.finished ≡ false
        → (run dt s d).0.finished ≡ true
        → (f.lt s.timer s.config.move_duration ≡ false)
          × (length d.sensor.joint_pos ≡ length s.default_pos)
          × (length d.sensor.joint_vel ≡ length s.default_pos)
          × AllWithin s.config.position_tolerance s.config.velocity_tolerance s.default_pos
              d.sensor.joint_pos d.sensor.joint_vel
    unfolding run update_readiness
    ready_needs_pose dt s d settle fresh done =
        let (m, measured) = measure_pose s d in
        let tested : converged dt m measured ≡ true = ground (arith, measure_pose-config s d) in
        let within = converged-AllWithin dt s d tested in
        (ground arith, within.0, within.1, within.2)
