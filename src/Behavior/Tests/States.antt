-- ===== src/Behavior/Tests/States.antt =====
-- The theorems on the states and on the state machine, on the small robot of Fixtures.antt.
use humanoid_common.Prelude.{
  some, none, List, arith, ◌≡◌, ◌⊎◌, refl, Bool, true, false, [], ◌∷◌, pos, negsuc, length,
}
use humanoid_common.Floats.{nought, Milli, milli, Milli-IsOrdered}
use humanoid_common.RobotBase.{no_fault}
use humanoid_common.RobotBase.FaultSource
use humanoid_common.RobotBase.FaultCode
use humanoid_common.Behavior.StateName.{StateName}
use humanoid_common.Behavior.State.{Shared}
use humanoid_common.Behavior.Fsm
use humanoid_common.Behavior.Fsm.Defs.{Fsm}
use humanoid_common.Behavior.Fsm.Stepping.{}
use humanoid_common.Behavior.States.Object.{StateObject}
use humanoid_common.Behavior.States.Safety
use humanoid_common.Behavior.States.Zero
use humanoid_common.Behavior.States.Safety.Release.{
  runs, driven_only_under_release, IsAdvancing, IsReleased, release_is_final,
}
use humanoid_common.Behavior.States.Zero.Readiness.{AllWithin, ready_needs_pose}
use humanoid_common.Behavior.Fixtures.{number, machine, shared, zero, safety}

-- DAMP with the key 4 pressed.
abbrev going_home : Fsm Milli (StateObject Milli Bool)
going_home = record (machine StateName.damp) {
  shared = record shared { command = record shared.command { key = pos 4 } };
}

-- A driven robot whose policy has failed.
abbrev driven : Shared Milli
driven = record shared {
  output = record shared.output {
    enable = true;
    kp = number 1 ∷ [];
    kd = number 1 ∷ [];
    target_pos = number 0 ∷ [];
  };
  fault = record no_fault { active = true; latched = true; source = FaultSource.policy };
}

still_driven : (runs (number 1 ∷ []) (Safety.on_enter safety driven)).1.output.enable ≡ true
unfolding runs Safety.on_enter Safety.run Safety.may_ramp Safety.allows_controlled_release
still_driven = refl

driven_only_under_release_example :
    (driven.output.enable ≡ true)
    × (driven.fault.active ≡ true)
    × ((driven.fault.source ≡ FaultSource.policy)
        ⊎ ((driven.fault.source ≡ FaultSource.safety_monitor)
            × (driven.fault.code ≡ FaultCode.limit_exceeded)))
driven_only_under_release_example =
    driven_only_under_release safety driven (number 1 ∷ []) still_driven

zero_becomes_ready : (Zero.run (number 1) zero shared).0.finished ≡ true
unfolding Zero.run Zero.update_readiness Zero.measure_pose
zero_becomes_ready = refl

ready_needs_pose_example :
    (milli.lt zero.timer zero.config.move_duration ≡ false)
    × (length shared.sensor.joint_pos ≡ length zero.default_pos)
    × (length shared.sensor.joint_pos ≡ length zero.default_pos)
    × AllWithin (number 1) (number 1) (number 0 ∷ []) (number 0 ∷ []) (number 0 ∷ [])
ready_needs_pose_example =
    ready_needs_pose Milli-IsOrdered (number 1) zero shared refl refl zero_becomes_ready

advances :
    (x t r : Milli)
    → milli.le nought t ≡ true
    → milli.lt (milli.add x t) r ≡ true
    → milli.lt x r ≡ true
advances none t r p h = ground (arith, h)
advances (some a) none r p h = ground (arith, h)
advances (some a) (some b) none p h = ground (arith, h)
advances (some (pos a)) (some (pos b)) (some (pos c)) p h = ground (arith, h)
advances (some (pos a)) (some (pos b)) (some (negsuc c)) p h = ground (arith, h)
advances (some (negsuc a)) (some (pos b)) (some (pos c)) p h = ground arith
advances (some (negsuc a)) (some (pos b)) (some (negsuc c)) p h = ground (arith, h)
advances (some a) (some (negsuc b)) (some c) p h = ground (arith, p)

Milli-IsAdvancing : IsAdvancing milli
Milli-IsAdvancing = record { advance = advances }

-- The release takes two periods of 1 s.
abbrev release : List Milli
release = number 1 ∷ number 1 ∷ []

release_finishes : (runs release (Safety.on_enter safety driven)).0.finished ≡ true
unfolding runs Safety.on_enter Safety.run Safety.may_ramp Safety.allows_controlled_release
release_finishes = refl

release_is_final_example :
    let (s, d) = runs (number 1 ∷ []) (runs release (Safety.on_enter safety driven)) in
    IsReleased s d × ((Safety.check_transition s d).0 ≡ StateName.power_off)
release_is_final_example =
    release_is_final Milli-IsAdvancing safety driven release (number 1 ∷ []) (refl, (refl, tt))
      (refl, tt) release_finishes
