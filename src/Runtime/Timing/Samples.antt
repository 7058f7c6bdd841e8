-- ===== src/Runtime/Timing/Samples.antt =====
-- src/runtime/common/runtime_timing.h, `Quantile`: what the reported value says of the samples stored.
use humanoid_common.Prelude.{
  ℕ, zero, suc, ◌+◌, ◌-◌, ◌<◌, ◌≤◌, ◌^◌, ◌≡◌, ◌⊎◌, inl, inr, refl, Bool, true, false, List, [], ◌∷◌,
  ap, ◌∙◌, replicate, length, take, leb, ltb, arith, Bool-cases, if◌then◌else◌, All,
}
use humanoid_common.Floats.{Float, IsOrdered, nought}
use humanoid_common.Runtime.Timing.{
  Histogram, bump, store, bucket_of, quantile_of, no_samples, bucket_width_ms, histogram_buckets,
}
use humanoid_common.Runtime.Timing.Quantiles.{
  total, IsCounted, store_all, store-IsCounted, store-count, store_all-IsCounted,
  no_samples-IsCounted, quantile-first,
}

-- What the count of buckets needs of the arithmetic: rounding up, and division by the width of a bucket.
pub record IsRounded {F : Type 0} (f : Float F) : Type 0 where
  pub ceiling_le :
      (x : F) (n : ℕ)
      → f.is_finite x ≡ true
      → f.le (f.lit 0 0) x ≡ true
      → leb (f.ceiling x) n ≡ f.le x (f.of_nat n)
  pub le_div : (x : F) → f.le (f.lit 0 0) x ≡ true → f.le (f.lit 0 0) (f.div x (f.lit 5 2)) ≡ true
  pub nought_div :
      (x : F) (n : ℕ) → f.eq x (f.lit 0 0) ≡ true → f.le (f.div x (f.lit 5 2)) (f.of_nat n) ≡ true

abbrev one_if : Bool → ℕ
one_if true = 1
one_if false = 0

total-take-bump :
    (i k : ℕ) (ns : List ℕ)
    → i < length ns
    → total ns < 2 ^ 32 - 1
    → total (take (suc k) (bump i ns)) ≡ total (take (suc k) ns) + one_if (leb i k)
unfolding bump
total-take-bump i k [] l h = absurd (omega arith)
total-take-bump zero k (n ∷ ns) l h = ground arith
total-take-bump (suc i) zero (n ∷ ns) l h = ground arith
total-take-bump (suc i) (suc k) (n ∷ ns) l h = ground (arith, total-take-bump i k ns)

total-take-replicate : (n m : ℕ) → total (take n (replicate m 0)) ≡ 0
total-take-replicate zero m = refl
total-take-replicate (suc n) zero = refl
total-take-replicate (suc n) (suc m) = omega (arith, total-take-replicate n m)

module _ {F : Type 0} ⦃f : Float F⦄ where
  -- The sample in widths of a bucket, where one that is not positive is 0.
  abbrev pub widths : F → F
  widths v = f.div (if f.lt nought v then v else nought) bucket_width_ms

  -- How many samples are at most `k` widths of a bucket.
  abbrev pub count_within : ℕ → List F → ℕ
  count_within k [] = 0
  count_within k (v ∷ vs) = one_if (f.le (widths v) (f.of_nat k)) + count_within k vs

  abbrev pub IsFinite : F → Type 0
  IsFinite v = f.is_finite (widths v) ≡ true

  -- No fewer than the target many samples are at most the value reported, and for the next lower end of a
  -- bucket there are fewer; only the top bucket may hold samples above its end.
  abbrev pub Covers : ℕ → List F → ℕ → Type 0
  Covers k vs t = ((k ≡ 1023) ⊎ (t ≤ count_within k vs)) × ((k ≡ 0) ⊎ (count_within (k - 1) vs < t))

  module _ (law : IsOrdered f) (rounded : IsRounded f) where
    positive : F → F
    positive v = if f.lt nought v then v else nought

    nought_le-positive : (v : F) → f.le nought (positive v) ≡ true
    unfolding positive
    nought_le-positive v =
        ground (arith, law.le_of_lt nought v, law.le_of_is_finite nought law.nought_finite)

    bucket-leb :
        (p : F) (k : ℕ)
        → k < 1023
        → f.is_finite (f.div p bucket_width_ms) ≡ true
        → f.le nought p ≡ true
        → leb (bucket_of p) k ≡ f.le (f.div p bucket_width_ms) (f.of_nat k)
    bucket-leb p k l h n = elim (Bool-cases (f.eq p nought)) [
      | inl e ↦ ground (arith, e, rounded.nought_div p k e)
      | inr e ↦
          ground
            (arith, e, l, rounded.ceiling_le (f.div p bucket_width_ms) k h (rounded.le_div p n))
    ]

    store-within :
        (v : F) (h : Histogram F) (k : ℕ)
        → k < 1023
        → h.count < 2 ^ 32 - 1
        → IsFinite v
        → IsCounted h
        → total (take (suc k) (store v h).buckets)
          ≡ total (take (suc k) h.buckets) + one_if (f.le (widths v) (f.of_nat k))
    unfolding store positive
    store-within v h k l c e w =
        let p = if f.lt nought v then v else nought in
        let small : bucket_of p < 1024 = ground arith in
        rw (← bucket-leb p k l e (nought_le-positive v)) (
          total-take-bump (bucket_of p) k h.buckets (omega (arith, small, w.size))
            (omega (arith, c, w.counted)))

    store_all-within :
        (vs : List F) (h : Histogram F) (k : ℕ)
        → k < 1023
        → h.count + length vs < 2 ^ 32
        → All IsFinite vs
        → IsCounted h
        → total (take (suc k) (store_all vs h).buckets)
          ≡ total (take (suc k) h.buckets) + count_within k vs
    unfolding store_all
    store_all-within [] h k l c e w = omega arith
    store_all-within (v ∷ vs) h k l c e w =
        let one = store-count v h (omega arith) in
        let rest =
          store_all-within vs (store v h) k l (omega (arith, one)) e.1
            (store-IsCounted v h (omega arith) w) in
        omega (arith, rest, store-within v h k l (omega arith) e.0 w)

    stored :
        (vs : List F) (k : ℕ)
        → k < 1023
        → length vs < 2 ^ 32
        → All IsFinite vs
        → total (take (suc k) (store_all vs no_samples).buckets) ≡ count_within k vs
    stored vs k l c e =
        let none_before : 0 + count_within k vs ≡ count_within k vs = omega arith in
        store_all-within vs no_samples k l (omega arith) e no_samples-IsCounted
        ∙ ap (λ n. n + count_within k vs) (total-take-replicate (suc k) histogram_buckets)
        ∙ none_before

    covers :
        (vs : List F) (k t : ℕ)
        → length vs < 2 ^ 32
        → All IsFinite vs
        → k < 1024
        → total (take k (store_all vs no_samples).buckets) < t
        → t ≤ total (take (suc k) (store_all vs no_samples).buckets)
        → Covers k vs t
    covers vs zero t c e l a b = (inr (omega (arith, stored vs 0 (omega arith) c e)), inl refl)
    covers vs (suc j) t c e l a b =
        let before : suc j - 1 ≡ j = omega arith in
        (
          elim (Bool-cases (ltb (suc j) 1023)) [
            | inl x ↦ inr (omega (arith, stored vs (suc j) (ground (arith, x)) c e))
            | inr x ↦ inl (ground (arith, x, l))
          ],
          inr (rw before (omega (arith, stored vs j (omega arith) c e))),
        )

    -- After any number of samples below 2 ^ 32, each a finite number of bucket widths, where the target that
    -- is computed from the quantile lies between 1 and the number of samples, the quantile reported is a
    -- whole number of widths: the least one that the target many samples do not exceed, or the top one of
    -- 1023 where that would be greater. A sample that is not positive counts as 0.
    pub quantile-Covers :
        (vs : List F) (quantile : F)
        → length vs < 2 ^ 32
        → All IsFinite vs
        → let t = f.ceiling (f.mul quantile (f.of_nat (length vs))) in
          0 < t
          → t ≤ length vs
          → (k : ℕ) × (quantile_of (store_all vs no_samples) quantile
              ≡ f.mul (f.of_nat k) bucket_width_ms)
            × (k < histogram_buckets)
            × Covers k vs t
    quantile-Covers vs quantile c e a b =
        let (v, n) = store_all-IsCounted vs no_samples (omega (arith, c)) no_samples-IsCounted in
        let same : (store_all vs no_samples).count ≡ length vs = omega (arith, n) in
        let (k, q, l, x, y) =
          quantile-first (store_all vs no_samples) quantile _ (rw same refl) v a
            (omega (arith, same, b)) in
        (k, q, l, covers vs k _ c e l x y)
