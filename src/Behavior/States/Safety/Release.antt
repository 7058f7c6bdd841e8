-- ===== src/Behavior/States/Safety/Release.antt =====
-- When the safety state still drives the joints, and when it lets go of them.
use humanoid_common.Prelude.{
  ◌≡◌, refl, true, false, ◌&&◌, List, [], ◌∷◌, arith, ◌⊎◌, length, All, Bool-cases, inl, inr,
}
use humanoid_common.Floats.{Float, nought}
use humanoid_common.RobotBase.FaultSource
use humanoid_common.RobotBase.FaultCode
use humanoid_common.Behavior.StateName.{StateName}
use humanoid_common.Behavior.State.{Shared}
use humanoid_common.Behavior.States.Common.{zeros}
use humanoid_common.Behavior.States.Safety.{SafetyState, may_ramp, on_enter, run, check_transition}

-- Adding a time that is not negative does not take a value back below a bound.
pub record IsAdvancing {F : Type 0} (f : Float F) : Type 0 where
  pub advance :
      (x t r : F) → f.le (f.lit 0 0) t ≡ true → f.lt (f.add x t) r ≡ true → f.lt x r ≡ true

module _ {F : Type 0} ⦃f : Float F⦄ where
  -- The state runs for a sequence of control periods.
  unfoldable pub runs : List F → SafetyState F × Shared F → SafetyState F × Shared F
  runs [] p = p
  runs (t ∷ ts) (s, d) = runs ts (run t s d)

  run-can_ramp : (t : F) (s : SafetyState F) (d : Shared F) → (run t s d).0.can_ramp ≡ s.can_ramp
  unfolding run
  run-can_ramp t s d = ground arith

  run-enable :
      (t : F) (s : SafetyState F) (d : Shared F)
      → s.can_ramp ≡ false
      → (run t s d).1.output.enable ≡ false
  unfolding run
  run-enable t s d h = ground arith

  runs-enable :
      (ts : List F) (s : SafetyState F) (d : Shared F)
      → s.can_ramp ≡ false
      → d.output.enable ≡ false
      → (runs ts (s, d)).1.output.enable ≡ false
  unfolding runs
  runs-enable [] s d h e = e
  runs-enable (t ∷ ts) s d h e =
      runs-enable ts (run t s d).0 (run t s d).1 (ground (arith, run-can_ramp t s d))
        (run-enable t s d h)

  on_enter-disabled :
      (s : SafetyState F) (d : Shared F)
      → may_ramp d ≡ false
      → ((on_enter s d).0.can_ramp ≡ false) × ((on_enter s d).1.output.enable ≡ false)
  unfolding on_enter
  on_enter-disabled s d h = ground arith

  may_ramp-cause :
      (d : Shared F)
      → may_ramp d ≡ true
      → (d.output.enable ≡ true)
        × (d.fault.active ≡ true)
        × ((d.fault.source ≡ FaultSource.policy)
            ⊎ ((d.fault.source ≡ FaultSource.safety_monitor)
                × (d.fault.code ≡ FaultCode.limit_exceeded)))
  unfolding may_ramp
  may_ramp-cause d h = ground arith

  -- Whatever the control periods, the joints are still driven after the safety state was entered only if
  -- they were driven before, and the fault is active and is the policy's or a limit that the safety
  -- monitor saw exceeded.
  pub driven_only_under_release :
      (s : SafetyState F) (d : Shared F) (ts : List F)
      → (runs ts (on_enter s d)).1.output.enable ≡ true
      → (d.output.enable ≡ true)
        × (d.fault.active ≡ true)
        × ((d.fault.source ≡ FaultSource.policy)
            ⊎ ((d.fault.source ≡ FaultSource.safety_monitor)
                × (d.fault.code ≡ FaultCode.limit_exceeded)))
  driven_only_under_release s d ts h = elim (Bool-cases (may_ramp d)) [
    | inl e ↦ may_ramp-cause d e
    | inr e ↦
        let (c, o) = on_enter-disabled s d e in
        let off = runs-enable ts (on_enter s d).0 (on_enter s d).1 c o in cc
  ]

  -- The joints have been let go, and a period that could drive them again is over.
  pub record IsReleased (s : SafetyState F) (d : Shared F) : Type 0 where
    pub is_over : (s.can_ramp && f.lt s.timer s.release_duration) ≡ false
    pub is_done : s.finished ≡ true
    pub is_off : d.output.enable ≡ false
    pub no_kp : d.output.kp ≡ zeros (length s.hold_pos)
    pub no_kd : d.output.kd ≡ zeros (length s.hold_pos)

  module _ (law : IsAdvancing f) where
    run-finished :
        (t : F) (s : SafetyState F) (d : Shared F)
        → f.le nought t ≡ true
        → (s.finished ≡ true → IsReleased s d)
        → (run t s d).0.finished ≡ true
        → IsReleased (run t s d).0 (run t s d).1
    unfolding run
    run-finished t s d p h e =
        elim (Bool-cases (s.can_ramp && f.lt (f.add s.timer t) s.release_duration)) [
          | inl c ↦
              let before : s.finished ≡ true = rw c at e in
              let was = h before in
              ground (arith, c, was.is_over, law.advance s.timer t s.release_duration p)
          | inr c ↦
              rw c
                (record { is_over = c; is_done = refl; is_off = refl; no_kp = refl; no_kd = refl })
        ]

    run-IsReleased :
        (t : F) (s : SafetyState F) (d : Shared F)
        → f.le nought t ≡ true
        → IsReleased s d
        → IsReleased (run t s d).0 (run t s d).1
    unfolding run
    run-IsReleased t s d p h =
        let c : (s.can_ramp && f.lt (f.add s.timer t) s.release_duration) ≡ false =
          ground (arith, h.is_over, law.advance s.timer t s.release_duration p) in
        rw c (record { is_over = c; is_done = refl; is_off = refl; no_kp = refl; no_kd = refl })

    runs-finished :
        (ts : List F) (s : SafetyState F) (d : Shared F)
        → All (λ t. f.le nought t ≡ true) ts
        → (s.finished ≡ true → IsReleased s d)
        → (runs ts (s, d)).0.finished ≡ true
        → IsReleased (runs ts (s, d)).0 (runs ts (s, d)).1
    unfolding runs
    runs-finished [] s d p h e = h e
    runs-finished (t ∷ ts) s d p h e =
        runs-finished ts (run t s d).0 (run t s d).1 p.1 (run-finished t s d p.0 h) e

    runs-IsReleased :
        (ts : List F) (s : SafetyState F) (d : Shared F)
        → All (λ t. f.le nought t ≡ true) ts
        → IsReleased s d
        → IsReleased (runs ts (s, d)).0 (runs ts (s, d)).1
    unfolding runs
    runs-IsReleased [] s d p h = h
    runs-IsReleased (t ∷ ts) s d p h =
        runs-IsReleased ts (run t s d).0 (run t s d).1 p.1 (run-IsReleased t s d p.0 h)

    on_enter-unfinished : (s : SafetyState F) (d : Shared F) → (on_enter s d).0.finished ≡ false
    unfolding on_enter
    on_enter-unfinished s d = refl

    -- Once SAFETY, entered and run for any periods that are not negative, has finished the release, the output
    -- is disabled without gains, and stays so in all later periods, and POWER_OFF is asked for after each.
    pub release_is_final :
        (s : SafetyState F) (d : Shared F) (ts us : List F)
        → All (λ t. f.le nought t ≡ true) ts
        → All (λ t. f.le nought t ≡ true) us
        → (runs ts (on_enter s d)).0.finished ≡ true
        → let (s', d') = runs us (runs ts (on_enter s d)) in
          IsReleased s' d' × ((check_transition s' d').0 ≡ StateName.power_off)
    unfolding check_transition
    release_is_final s d ts us p q e =
        let first =
          runs-finished ts (on_enter s d).0 (on_enter s d).1 p
            (λ c. ground (arith, c, on_enter-unfinished s d)) e in
        let last = runs-IsReleased us _ _ q first in (last, rw last.is_done refl)
