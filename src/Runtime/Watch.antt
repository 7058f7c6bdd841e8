-- ===== src/Runtime/Watch.antt =====
-- src/runtime/common/runtime_timing.h: `ProgressWatchdog` and `StateStartupGate`.
use humanoid_common.Prelude.{◌≡◌, Bool, true, false, not, ◌&&◌, ◌||◌, List, [], ◌∷◌, if◌then◌else◌}
use humanoid_common.Floats.{Float, nought, fmax}

pub record ProgressWatchdog (F : Type 0) : Type 0 where
  pub latest_value : F
  pub last_progress : F
  pub has_value : Bool

pub record StateStartupGate (F : Type 0) : Type 0 where
  pub startup_received : F
  pub candidate_received : F
  pub candidate_time : F
  pub has_candidate : Bool
  pub ready : Bool

module _ {F : Type 0} ⦃f : Float F⦄ where
  -- `ProgressWatchdog::Reset`.
  abbrev pub reset_watchdog : ProgressWatchdog F
  reset_watchdog = record { latest_value = nought; last_progress = nought; has_value = false }

  -- `ProgressWatchdog::Observe`.
  unfoldable pub observe_progress : F → F → ProgressWatchdog F → ProgressWatchdog F
  observe_progress value received_at w =
      if not (f.is_finite value)
      then w
      else if not w.has_value || f.lt w.latest_value value
      then record { latest_value = value; last_progress = received_at; has_value = true }
      else w

  -- `AgeSeconds` and `Expired`.
  abbrev pub progress_age : F → ProgressWatchdog F → F
  progress_age now w = if w.has_value then fmax nought (f.sub now w.last_progress) else nought

  abbrev pub progress_expired : F → F → ProgressWatchdog F → Bool
  progress_expired now timeout_s w = w.has_value && f.lt timeout_s (progress_age now w)

  -- `StateStartupGate::Reset`.
  abbrev pub reset_gate : StateStartupGate F → StateStartupGate F
  reset_gate g = record g { ready = false; has_candidate = false }

  -- `StateStartupGate::Observe`, which returns whether the gate is open.
  unfoldable pub observe_startup : F → F → F → StateStartupGate F → StateStartupGate F × Bool
  observe_startup device_time received_at max_gap_s g =
      if g.ready
      then (g, true)
      else if not (f.is_finite device_time)
      then (reset_gate g, false)
      else let h = record g {
        startup_received = if g.has_candidate then g.startup_received else received_at;
      } in
        let expired = g.has_candidate && f.lt max_gap_s (f.sub received_at g.candidate_received) in
        if not g.has_candidate || (expired || f.lt device_time g.candidate_time)
        then (
          record h {
            candidate_time = device_time;
            candidate_received = received_at;
            has_candidate = true;
          },
          false,
        )
        else let open_ = f.lt g.candidate_time device_time in (record h { ready = open_ }, open_)

  abbrev pub startup_age : F → StateStartupGate F → F
  startup_age now g = if g.has_candidate then fmax nought (f.sub now g.startup_received) else nought

  abbrev pub startup_expired : F → F → StateStartupGate F → Bool
  startup_expired now timeout_s g =
      not g.ready && (g.has_candidate && f.lt timeout_s (startup_age now g))

  -- A series of observations, each a value and its time of receipt.
  unfoldable pub observe_all : List (F × F) → ProgressWatchdog F → ProgressWatchdog F
  unfolding observe_progress
  observe_all [] w = w
  observe_all ((value, received_at) ∷ xs) w = observe_all xs (observe_progress value received_at w)

  -- A value that is not above the latest one, or not finite, is no progress.
  abbrev pub IsStale : F → F × F → Type 0
  IsStale latest (value, received_at) = f.is_finite value && f.lt latest value ≡ false
