-- ===== src/Runtime/Timing.antt =====
-- src/runtime/common/runtime_timing.h: the statistics of a loop's periods, and the watch over a device that
-- must make progress. A `Clock::time_point` is its seconds.
pub mod Quantiles
pub mod Samples
use humanoid_common.Prelude.{
  ℕ, zero, suc, ◌+◌, ◌-◌, ◌%◌, ◌^◌, ◌≡◌, Bool, true, false, not, ◌&&◌, ◌||◌, List, [], ◌∷◌,
  replicate, min, ◌==◌, leb, if◌then◌else◌,
}
use humanoid_common.Floats.{Float, nought, fmax}

abbrev pub histogram_buckets : ℕ
histogram_buckets = 1024

-- `++(*histogram)[bucket]`, of `uint32_t`.
unfoldable pub bump : ℕ → List ℕ → List ℕ
bump i [] = []
bump zero (n ∷ ns) = ((n + 1) % 2 ^ 32) ∷ ns
bump (suc i) (n ∷ ns) = n ∷ bump i ns

-- The loop of `Quantile`: the first bucket, counted from `i`, at which the sum reaches the target.
unfoldable pub find_bucket : ℕ → ℕ → ℕ → List ℕ → ℕ
find_bucket i cumulative target [] = i - 1
find_bucket i cumulative target (n ∷ ns) =
    let rest = find_bucket (suc i) (cumulative + n) target ns in
    if leb target (cumulative + n) then i else rest

-- One histogram with its count and its maximum.
pub record Histogram (F : Type 0) : Type 0 where
  pub buckets : List ℕ
  pub count : ℕ
  pub maximum : F

pub record Summary (F : Type 0) : Type 0 where
  pub samples : ℕ
  pub period_p95_ms : F
  pub period_p99_ms : F
  pub period_max_ms : F
  pub lateness_p95_ms : F
  pub lateness_p99_ms : F
  pub lateness_max_ms : F
  pub skipped_cycles : ℕ
  pub read_mean_ms : F
  pub read_max_ms : F
  pub work_mean_ms : F
  pub work_max_ms : F

pub record Window (F : Type 0) : Type 0 where
  pub period : Histogram F
  pub lateness : Histogram F
  pub skipped_cycles : ℕ
  pub work_count : ℕ
  pub read_total_ms : F
  pub read_max_ms : F
  pub work_total_ms : F
  pub work_max_ms : F
  pub window_start : F
  pub previous_start : F
  pub has_previous_start : Bool

module _ {F : Type 0} ⦃f : Float F⦄ where
  abbrev pub bucket_width_ms : F
  bucket_width_ms = f.lit 5 2

  abbrev pub to_ms : F → F
  to_ms t = f.mul t (f.lit 1000 0)

  abbrev pub no_samples : Histogram F
  no_samples = record { buckets = replicate histogram_buckets 0; count = 0; maximum = nought }

  -- The bucket of a value that is not negative.
  abbrev pub bucket_of : F → ℕ
  bucket_of value =
      if f.eq value nought
      then 0
      else min (f.ceiling (f.div value bucket_width_ms)) (histogram_buckets - 1)

  -- `Store`.
  unfoldable pub store : F → Histogram F → Histogram F
  unfolding bump
  store value h =
      let nonnegative = if f.lt nought value then value else nought in
      record {
        buckets = bump (bucket_of nonnegative) h.buckets;
        count = (h.count + 1) % 2 ^ 64;
        maximum = fmax h.maximum nonnegative;
      }

  -- `Quantile`.
  unfoldable pub quantile_of : Histogram F → F → F
  unfolding find_bucket
  quantile_of h quantile =
      if h.count == 0
      then nought
      else let target = f.ceiling (f.mul quantile (f.of_nat h.count)) in
        f.mul (f.of_nat (find_bucket 0 0 target h.buckets)) bucket_width_ms

  -- `Window`.
  abbrev pub new_window : F → Window F
  new_window start = record {
    period = no_samples;
    lateness = no_samples;
    skipped_cycles = 0;
    work_count = 0;
    read_total_ms = nought;
    read_max_ms = nought;
    work_total_ms = nought;
    work_max_ms = nought;
    window_start = start;
    previous_start = nought;
    has_previous_start = false;
  }

  -- `Observe`.
  unfoldable pub observe : F → F → Window F → Window F
  unfolding store
  observe start deadline w = record w {
    period =
        if w.has_previous_start
        then store (to_ms (f.sub start w.previous_start)) w.period
        else w.period;
    lateness = store (fmax nought (to_ms (f.sub start deadline))) w.lateness;
    previous_start = start;
    has_previous_start = true;
  }

  unfoldable pub add_skipped_cycles : ℕ → Window F → Window F
  add_skipped_cycles count w = record w { skipped_cycles = (w.skipped_cycles + count) % 2 ^ 64 }

  unfoldable pub observe_work : F → F → Window F → Window F
  observe_work read_ms work_ms w =
      if not (f.is_finite read_ms)
        || (not (f.is_finite work_ms) || (f.lt read_ms nought || f.lt work_ms nought))
      then w
      else record w {
        work_count = (w.work_count + 1) % 2 ^ 64;
        read_total_ms = f.add w.read_total_ms read_ms;
        work_total_ms = f.add w.work_total_ms work_ms;
        read_max_ms = fmax w.read_max_ms read_ms;
        work_max_ms = fmax w.work_max_ms work_ms;
      }

  abbrev pub is_due : F → F → Window F → Bool
  is_due now window_s w = f.le window_s (f.sub now w.window_start)

  abbrev pub mean_of : F → ℕ → F
  mean_of total count = if count == 0 then nought else f.div total (f.of_nat count)

  -- `Consume`: the summary of the window, and the window that starts now. The last start is kept.
  unfoldable pub consume_window : F → Window F → Summary F × Window F
  unfolding quantile_of
  consume_window now w = (
    record {
      samples = w.period.count;
      period_p95_ms = quantile_of w.period (f.lit 95 2);
      period_p99_ms = quantile_of w.period (f.lit 99 2);
      period_max_ms = w.period.maximum;
      lateness_p95_ms = quantile_of w.lateness (f.lit 95 2);
      lateness_p99_ms = quantile_of w.lateness (f.lit 99 2);
      lateness_max_ms = w.lateness.maximum;
      skipped_cycles = w.skipped_cycles;
      read_mean_ms = mean_of w.read_total_ms w.work_count;
      read_max_ms = w.read_max_ms;
      work_mean_ms = mean_of w.work_total_ms w.work_count;
      work_max_ms = w.work_max_ms;
    },
    record (new_window now) {
      previous_start = w.previous_start;
      has_previous_start = w.has_previous_start;
    },
  )
