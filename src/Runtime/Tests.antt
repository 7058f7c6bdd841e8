-- ===== src/Runtime/Tests.antt =====
-- The theorems on the helpers of the processes, at concrete runs.
use humanoid_common.Prelude.{
  ℕ, zero, leb, suc, ◌<◌, List, ◌++◌, Text, text, codes, text_eq, if◌then◌else◌, ok, pos, negsuc,
  arith, ◌≡◌, refl, true, false, some, none, [], ◌∷◌,
}
use humanoid_common.Floats.{nought, Milli, milli, Milli-IsOrdered, Between}
use humanoid_common.RobotBase.{Command, ControlStatus, idle_command, initial_status, no_interaction}
use humanoid_common.RobotBase.ControlMode
use humanoid_common.RobotBase.Phase
use humanoid_common.Transport.Status.{can_encode_interaction_status}
use humanoid_common.Runtime.StatusReporting.{
  new_cache, update_report, update_reports, report_is_sendable,
}
use humanoid_common.Runtime.CommandLimits.{
  Yaml, Limits, load_one_policy_command_limits, apply_policy_command_limits,
}
use humanoid_common.Runtime.CommandLimits.Bounds.{IsSigned, loaded_limits_hold}
use humanoid_common.Runtime.Timing.{no_samples, quantile_of, bucket_width_ms, histogram_buckets}
use humanoid_common.Runtime.Timing.Quantiles.{store_all}
use humanoid_common.Runtime.Timing.Samples.{IsRounded, Covers, quantile-Covers}
use humanoid_common.Runtime.Watch.{ProgressWatchdog}
use humanoid_common.Runtime.SampleWorker.{
  Worker, idle, published, stopped, taken, returned, consumed, Reachable, start, more, IsSound,
  first, publish, request_stop, take_sample, end_worker, consume, Reachable-IsSound,
  stop_delivers_newest,
}

-- Two samples are published, the second over the first; the worker is stopped and drains.
abbrev w2 : Worker ℕ
w2 = publish true 7 (publish true 5 idle)

abbrev w4 : Worker ℕ
w4 = take_sample 7 (request_stop w2)

abbrev w6 : Worker ℕ
w6 = end_worker (consume 7 w4)

w4-Reachable : Reachable w4
unfolding publish request_stop
w4-Reachable =
    more (request_stop w2) w4
      (more w2 (request_stop w2)
        (more (publish true 5 idle) w2
          (more idle (publish true 5 idle) start (published true 5 idle))
          (published true 7 (publish true 5 idle)))
        (stopped w2))
      (taken 7 (request_stop w2) refl refl refl)

w6-Reachable : Reachable w6
unfolding publish request_stop take_sample consume
w6-Reachable =
    more (consume 7 w4) w6 (more w4 (consume 7 w4) w4-Reachable (consumed 7 w4 refl))
      (returned (consume 7 w4) refl refl refl refl)

Reachable-IsSound_example : IsSound w4
Reachable-IsSound_example = Reachable-IsSound w4-Reachable

ended_now : w6.ended ≡ true
unfolding end_worker
ended_now = refl

not_failed : w6.failed ≡ false
unfolding publish request_stop take_sample consume end_worker
not_failed = refl

stop_delivers_newest_example : w6.newest ≡ first w6.delivered
stop_delivers_newest_example = stop_delivers_newest w6-Reachable ended_now not_failed

Milli-IsSigned : IsSigned milli
Milli-IsSigned = ground arith

-- Every limit of the policy "w" is 1.5, but the lower one of vy, which is -0.2.
abbrev key : Text → Text
key k = text "rl_policy.onnx_infer.policies." ++ (codes "w" ++ text ".command.limits") ++ k

abbrev file : Yaml Milli
file = record {
  read_float = λ k.
      if text_eq k (key (text ".min_vy"))
      then some (some (negsuc 199))
      else if text_eq k (key (text ".min_vx"))
      then none
      else if text_eq k (key (text ".min_wz"))
      then none
      else some (some (pos 1500));
  read_texts = λ k. none;
}

abbrev limits : Limits Milli
limits = record {
  min_vx = some (negsuc 1499);
  max_vx = some (pos 1500);
  min_vy = some (negsuc 199);
  max_vy = some (pos 1500);
  min_wz = some (negsuc 1499);
  max_wz = some (pos 1500);
}

file_limits : load_one_policy_command_limits file (codes "w") ≡ ok limits
unfolding load_one_policy_command_limits text text_eq
file_limits = refl

abbrev wild : Command Milli
wild = record idle_command { vx = some (pos 9000); vy = some (negsuc 8999); wz = none }

loaded_limits_hold_example :
    let r = apply_policy_command_limits (some limits) wild in
    Between limits.min_vx limits.max_vx r.vx
    × Between limits.min_vy limits.max_vy r.vy
    × Between limits.min_wz limits.max_wz r.wz
loaded_limits_hold_example =
    loaded_limits_hold Milli-IsOrdered Milli-IsSigned file (codes "w") limits wild file_limits

-- Three periods of 2, 7 and 2 ms; the target of the quantile 0.5 is 2, and the bucket is the 40th.
abbrev periods : List Milli
periods = some (pos 2000) ∷ some (pos 7000) ∷ some (pos 2000) ∷ []

rounded_up :
    (x : Milli) (n : ℕ)
    → milli.is_finite x ≡ true
    → milli.le nought x ≡ true
    → leb (milli.ceiling x) n ≡ milli.le x (milli.of_nat n)
rounded_up none n h l = ground (arith, h)
rounded_up (some (pos a)) n h l = ground arith
rounded_up (some (negsuc a)) n h l = ground (arith, l)

divided :
    (x : Milli) → milli.le nought x ≡ true → milli.le nought (milli.div x bucket_width_ms) ≡ true
divided none l = ground (arith, l)
divided (some (pos a)) l = ground arith
divided (some (negsuc a)) l = ground (arith, l)

nothing_divided :
    (x : Milli) (n : ℕ)
    → milli.eq x nought ≡ true
    → milli.le (milli.div x bucket_width_ms) (milli.of_nat n) ≡ true
nothing_divided none n l = ground (arith, l)
nothing_divided (some (pos zero)) n l = ground arith
nothing_divided (some (pos (suc a))) n l = ground (arith, l)
nothing_divided (some (negsuc a)) n l = ground (arith, l)

Milli-IsRounded : IsRounded milli
Milli-IsRounded = record { ceiling_le = rounded_up; le_div = divided; nought_div = nothing_divided }

quantile-Covers_example :
    (k : ℕ) × (quantile_of (store_all periods no_samples) (some (pos 500))
      ≡ milli.mul (milli.of_nat k) bucket_width_ms)
    × (k < histogram_buckets)
    × Covers k periods 2
quantile-Covers_example =
    quantile-Covers Milli-IsOrdered Milli-IsRounded periods (some (pos 500)) (omega arith)
      (refl, (refl, (refl, tt))) (omega arith) (omega arith)

-- The device reported 3 s at time 1, and 3 s, 2 s and no number since.
abbrev stuck : ProgressWatchdog Milli
stuck = record { latest_value = some (pos 3000); last_progress = some (pos 1000); has_value = true }

abbrev reports : List (Milli × Milli)
reports =
    (some (pos 3000), some (pos 2000))
    ∷ (some (pos 2000), some (pos 3000))
    ∷ (none, some (pos 4000))
    ∷ []

-- A report of a playing action with no name, after a valid one for the same policy.
abbrev playing : ControlStatus Milli
playing = record initial_status {
  mode = ControlMode.rl;
  active_policy = codes "w";
  interaction = record no_interaction {
    sequence = 3;
    phase = Phase.playing;
    action = codes "wave";
  };
}

abbrev nameless : ControlStatus Milli
nameless = record playing { interaction = record no_interaction { phase = Phase.playing } }

report_is_sendable_example :
    let sent = (update_report nameless (update_reports (playing ∷ []) new_cache)).1 in
    (can_encode_interaction_status sent.interaction ≡ true)
    × (record sent { interaction = nameless.interaction } ≡ nameless)
report_is_sendable_example = report_is_sendable Milli-IsOrdered refl refl (playing ∷ []) nameless
