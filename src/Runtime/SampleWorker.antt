-- ===== src/Runtime/SampleWorker.antt =====
-- src/runtime/common/latest_sample_worker.h: `LatestSampleWorker`, one slot between a control thread that
-- never waits and a worker thread. Each critical section is one step, and the steps interleave freely. The
-- count of dropped samples is taken as unbounded.
use humanoid_common.Prelude.{
  ℕ, ◌+◌, ◌≡◌, ◌⊎◌, Bool, true, false, not, ◌||◌, List, [], ◌∷◌, length, if◌then◌else◌, Option,
  none, some, arith,
}

-- `pending` is `sample_` while `pending_` is set, `current` what the worker consumes, and `ended` that its
-- thread has returned. `calls`, `newest` and `delivered`, the last first, are kept for the theorems: how often
-- `Publish` was called, the sample that it accepted last, and what has been consumed.
pub record Worker (A : Type 0) : Type 0 where
  pub pending : Option A
  pub stopping : Bool
  pub failed : Bool
  pub dropped : ℕ
  pub current : Option A
  pub ended : Bool
  pub calls : ℕ
  pub newest : Option A
  pub delivered : List A

module _ {A : Type 0} where
  abbrev pub idle : Worker A
  idle = record {
    pending = none;
    stopping = false;
    failed = false;
    dropped = 0;
    current = none;
    ended = false;
    calls = 0;
    newest = none;
    delivered = [];
  }

  abbrev pub held : Option A → ℕ
  held none = 0
  held (some x) = 1

  -- `Publish`, where `locked` says that the mutex was free.
  unfoldable pub publish : Bool → A → Worker A → Worker A
  publish locked x w =
      if not locked || (w.stopping || w.failed)
      then record w { dropped = w.dropped + 1; calls = w.calls + 1 }
      else record w {
        dropped = w.dropped + held w.pending;
        pending = some x;
        calls = w.calls + 1;
        newest = some x;
      }

  -- The first half of `Stop`; the second waits for the worker's thread.
  unfoldable pub request_stop : Worker A → Worker A
  request_stop w = record w { stopping = true }

  -- `Run`: the worker takes the sample out of the slot, or returns where it is to stop and there is none.
  unfoldable pub take_sample : A → Worker A → Worker A
  take_sample x w = record w { current = some x; pending = none }

  unfoldable pub end_worker : Worker A → Worker A
  end_worker w = record w { ended = true }

  -- `Run`: the sample is consumed, or its consumer throws and the worker returns.
  unfoldable pub consume : A → Worker A → Worker A
  consume x w = record w { current = none; delivered = x ∷ w.delivered }

  unfoldable pub fail_worker : Worker A → Worker A
  fail_worker w = record w { current = none; failed = true; dropped = w.dropped + 1; ended = true }

-- A step of one of the two threads.
pub data Step {A : Type 0} : Worker A → Worker A → Type 0 where
  published : (locked : Bool) (x : A) (w : Worker A) → Step w (publish locked x w)
  stopped : (w : Worker A) → Step w (request_stop w)
  taken :
      (x : A) (w : Worker A)
      → w.ended ≡ false
      → w.current ≡ none
      → w.pending ≡ some x
      → Step w (take_sample x w)
  returned :
      (w : Worker A)
      → w.ended ≡ false
      → w.current ≡ none
      → w.pending ≡ none
      → w.stopping ≡ true
      → Step w (end_worker w)
  consumed : (x : A) (w : Worker A) → w.current ≡ some x → Step w (consume x w)
  threw : (x : A) (w : Worker A) → w.current ≡ some x → Step w (fail_worker w)

pub data Reachable {A : Type 0} : Worker A → Type 0 where
  start : Reachable idle
  more : (w v : Worker A) → Reachable w → Step w v → Reachable v

module _ {A : Type 0} where
  abbrev pub first : List A → Option A
  first [] = none
  first (x ∷ xs) = some x

  abbrev pub or_else : Option A → Option A → Option A
  or_else none b = b
  or_else (some x) b = some x

  -- The newest sample that has not been replaced: in the slot, with the consumer, or consumed last.
  abbrev pub front : Worker A → Option A
  front w = or_else w.pending (or_else w.current (first w.delivered))

  pub record IsSound (w : Worker A) : Type 0 where
    pub counted : w.calls ≡ w.dropped + length w.delivered + held w.pending + held w.current
    pub newest_kept : (w.failed ≡ true) ⊎ (w.newest ≡ front w)
    pub end_is_clean :
        (w.ended ≡ true)
        → (w.failed ≡ true) ⊎ ((w.pending ≡ none) × (w.current ≡ none) × (w.stopping ≡ true))
    pub failure_ends : (w.failed ≡ true) → (w.ended ≡ true) × (w.current ≡ none)

  publish-IsSound :
      (locked : Bool) (x : A) (w : Worker A) → IsSound w → IsSound (publish locked x w)
  unfolding publish
  publish-IsSound locked x w v = ground arith

  take_sample-IsSound :
      (x : A) (w : Worker A)
      → w.ended ≡ false
      → w.current ≡ none
      → w.pending ≡ some x
      → IsSound w
      → IsSound (take_sample x w)
  unfolding take_sample
  take_sample-IsSound x w e c p v = ground arith

  end_worker-IsSound :
      (w : Worker A)
      → w.current ≡ none
      → w.pending ≡ none
      → w.stopping ≡ true
      → IsSound w
      → IsSound (end_worker w)
  unfolding end_worker
  end_worker-IsSound w c p s v = ground arith

  consume-IsSound : (x : A) (w : Worker A) → w.current ≡ some x → IsSound w → IsSound (consume x w)
  unfolding consume
  consume-IsSound x w c v = ground arith

  fail_worker-IsSound :
      (x : A) (w : Worker A) → w.current ≡ some x → IsSound w → IsSound (fail_worker w)
  unfolding fail_worker
  fail_worker-IsSound x w c v = ground arith

  Step-IsSound : {w v : Worker A} → Step w v → IsSound w → IsSound v
  unfolding request_stop
  Step-IsSound (published locked x w) i = publish-IsSound locked x w i
  Step-IsSound (stopped w) i = ground arith
  Step-IsSound (taken x w e c p) i = take_sample-IsSound x w e c p i
  Step-IsSound (returned w e c p s) i = end_worker-IsSound w c p s i
  Step-IsSound (consumed x w c) i = consume-IsSound x w c i
  Step-IsSound (threw x w c) i = fail_worker-IsSound x w c i

  -- In every interleaving each call of `Publish` is accounted for once: as dropped, consumed, in the slot or
  -- with the consumer; and unless the consumer threw, the sample accepted last is the newest of these.
  pub Reachable-IsSound : {w : Worker A} → Reachable w → IsSound w
  Reachable-IsSound start = ground arith
  Reachable-IsSound (more w v r s) = Step-IsSound s (Reachable-IsSound r)

  -- When the worker has returned without an exception, the last sample that `Publish` accepted was consumed,
  -- and consumed last.
  pub stop_delivers_newest :
      {w : Worker A}
      → Reachable w
      → w.ended ≡ true
      → w.failed ≡ false
      → w.newest ≡ first w.delivered
  stop_delivers_newest {w} r e n = ground (arith, Reachable-IsSound r, e, n)
