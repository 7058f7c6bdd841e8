-- ===== src/Behavior/Tests/Faults.antt =====
-- The theorems on faults and on requests, on the small robot of Fixtures.antt.
use humanoid_common.Prelude.{
  ◌⊎◌, ◌≡◌, refl, Bool, true, false, [], ◌∷◌, Text, codes, text_eq, arith,
}
use humanoid_common.Floats.{Milli, milli}
use humanoid_common.RobotBase.{FaultStatus, Command, idle_command}
use humanoid_common.RobotBase.SwitchPhase
use humanoid_common.Behavior.StateName.{StateName}
use humanoid_common.Behavior.Manager.Defs.{Manager, fault, set_fault}
use humanoid_common.Behavior.Manager.Faults
use humanoid_common.Behavior.Manager.Faults.Defs.{resolve, acknowledge}
use humanoid_common.Behavior.Manager.Faults.Latch.{IsSound, resolve-active, resolve-latched}
use humanoid_common.Behavior.Manager.Faults.Acknowledge.{MayClear, acknowledge_needs}
use humanoid_common.Behavior.Manager.Requests.Defs.{request_switch}
use humanoid_common.Behavior.Manager.Requests.Switching.{
  MaySwitch, chosen, request_needs, rejection_keeps,
}
use humanoid_common.Behavior.Fixtures.{number, sensor_fault, manager}

-- The motor's fault was latched as the third, and is over; the driver still reports it as latched.
abbrev old_fault : FaultStatus Milli
old_fault = record sensor_fault { active = false; sequence = 3 }

abbrev held : Manager Milli Bool
held = record (set_fault old_fault (manager StateName.power_off)) {
  fault_sequence = 3;
  sensor_fault = record sensor_fault { active = false };
  observed_fault_sequence = 5;
}

held-released : (fault (acknowledge 3 held)).latched ≡ false
unfolding acknowledge Faults.acknowledge_impl
held-released = refl

acknowledge_needs_example : MayClear 3 held
acknowledge_needs_example = acknowledge_needs 3 held refl held-released

-- The same fault is observed again, as active.
abbrev seen : Manager Milli Bool
seen = record held { fault_observations = sensor_fault ∷ [] }

seen-IsSound : IsSound seen
seen-IsSound = record { latched_of_active = λ e. refl; numbered = λ e. refl }

resolve-active_example : (fault (resolve (number 9) seen)).active ≡ true
resolve-active_example = resolve-active (number 9) seen seen-IsSound

resolve-latched_example : (fault (resolve (number 9) held)).latched ≡ true
resolve-latched_example = resolve-latched (number 9) held refl

abbrev still_active : Manager Milli Bool
still_active = set_fault (record old_fault { active = true }) seen

-- Requests for the policies "run" and "swim".
abbrev ask : Text → Command Milli
ask policy = record idle_command { switch_policy = policy; policy_request_sequence = 4 }

run_is_prepared :
    (request_switch
      (number 9)
      (ask (codes "run"))
      (manager StateName.damp)).policy_switch_status.phase
    ≡ SwitchPhase.preparing
unfolding request_switch text_eq
run_is_prepared = refl

request_needs_example : MaySwitch (ask (codes "run")) (manager StateName.damp)
request_needs_example =
    request_needs (number 9) (ask (codes "run")) (manager StateName.damp)
      (ground (arith, run_is_prepared))

abbrev swim_answered : Manager Milli Bool
swim_answered = request_switch (number 9) (ask (codes "swim")) (manager StateName.damp)

swim_is_refused : swim_answered.policy_switch_status.phase ≡ SwitchPhase.rejected
unfolding text_eq request_switch
swim_is_refused = refl

rejection_keeps_example :
    (chosen swim_answered ≡ chosen (manager StateName.damp))
    × (swim_answered.policy_switch_status.sequence ≡ 4)
    × ((swim_answered.hot_switch_requested ≡ false) ⊎ (swim_answered.hot_switch_requested ≡ false))
rejection_keeps_example =
    rejection_keeps (number 9) (ask (codes "swim")) (manager StateName.damp) swim_is_refused

abbrev asked : Manager Milli Bool
asked = record (manager StateName.damp) {
  pending_policy = codes "run";
  prev_switch_policy = codes "run";
  prev_policy_request_sequence = 4;
}
