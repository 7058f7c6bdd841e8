-- ===== src/Runtime/Timing/Quantiles.antt =====
-- The histogram of a window counts every sample, and the bucket that is found for a target is the first that
-- reaches it.
use humanoid_common.Prelude.{
  ℕ, zero, suc, ◌+◌, ◌-◌, ◌<◌, ◌≤◌, ◌^◌, ◌≡◌, refl, List, [], ◌∷◌, length, replicate, take, leb,
  false, arith, Bool-cases, if◌then◌else◌, inl, inr, ◌==◌, length-replicate,
}
use humanoid_common.Floats.{Float, nought}
use humanoid_common.Runtime.Timing.{
  Histogram, bump, find_bucket, store, bucket_of, quantile_of, no_samples, histogram_buckets,
  bucket_width_ms,
}

abbrev pub total : List ℕ → ℕ
total [] = 0
total (n ∷ ns) = n + total ns

total-bump :
    (i : ℕ) (ns : List ℕ) → i < length ns → total ns < 2 ^ 32 - 1 → total (bump i ns) ≡ total ns + 1
unfolding bump
total-bump i [] l h = absurd (omega arith)
total-bump zero (n ∷ ns) l h = omega arith
total-bump (suc i) (n ∷ ns) l h = omega (arith, total-bump i ns)

-- The sum reaches the target at the bucket found, and not before.
pub find_bucket-first :
    (i c target : ℕ) (ns : List ℕ)
    → c < target
    → target ≤ c + total ns
    → (k : ℕ) × (find_bucket i c target ns ≡ i + k)
      × (k < length ns)
      × (c + total (take k ns) < target)
      × (target ≤ c + total (take (suc k) ns))
unfolding find_bucket
find_bucket-first i c target [] a b = absurd (omega arith)
find_bucket-first i c target (n ∷ ns) a b = elim (Bool-cases (leb target (c + n))) [
  | inl e ↦ rw e (0, omega arith, omega arith, omega arith, ground (arith, e))
  | inr e ↦
      let (k, p, q, r, s) =
        find_bucket-first (suc i) (c + n) target ns (ground (arith, e)) (omega arith) in
      rw e (suc k, omega (arith, p), omega (arith, q), omega (arith, r), omega (arith, s))
]

length-bump : (i : ℕ) (ns : List ℕ) → length (bump i ns) ≡ length ns
unfolding bump
length-bump i [] = refl
length-bump zero (n ∷ ns) = refl
length-bump (suc i) (n ∷ ns) = omega (arith, length-bump i ns)

module _ {F : Type 0} ⦃f : Float F⦄ where
  -- All 1024 buckets are there, and the count is their sum.
  pub record IsCounted (h : Histogram F) : Type 0 where
    pub size : length h.buckets ≡ 1024
    pub counted : h.count ≡ total h.buckets

  pub store-IsCounted :
      (value : F) (h : Histogram F) → h.count < 2 ^ 32 - 1 → IsCounted h → IsCounted (store value h)
  unfolding store
  store-IsCounted value h l v =
      let positive = if f.lt nought value then value else nought in
      let small : bucket_of positive < 1024 = ground arith in
      record {
        size = omega (arith, length-bump (bucket_of positive) h.buckets, v.size);
        counted =
            omega (arith, total-bump (bucket_of positive) h.buckets, v.counted, v.size, l, small);
      }

  unfoldable pub store_all : List F → Histogram F → Histogram F
  store_all [] h = h
  store_all (v ∷ vs) h = store_all vs (store v h)

  pub store-count : (v : F) (h : Histogram F) → h.count < 2 ^ 32 → (store v h).count ≡ h.count + 1
  unfolding store
  store-count v h l = omega arith

  pub store_all-IsCounted :
      (vs : List F) (h : Histogram F)
      → h.count + length vs < 2 ^ 32
      → IsCounted h
      → IsCounted (store_all vs h) × ((store_all vs h).count ≡ h.count + length vs)
  unfolding store_all
  store_all-IsCounted [] h l v = (v, omega arith)
  store_all-IsCounted (x ∷ vs) h l v =
      let one = store-count x h (omega arith) in
      let (w, e) =
        store_all-IsCounted vs (store x h) (omega (arith, one))
          (store-IsCounted x h (omega arith) v) in
      (w, omega (arith, one, e))

  pub no_samples-IsCounted : IsCounted no_samples
  no_samples-IsCounted = record { size = length-replicate {A = ℕ} 1024 0; counted = zeros 1024 }
    where
      zeros : (n : ℕ) → 0 ≡ total (replicate n 0)
      zeros zero = refl
      zeros (suc n) = omega (arith, zeros n)

  quantile-bucket :
      (h : Histogram F) (quantile : F) (t k : ℕ)
      → (h.count == 0) ≡ false
      → f.ceiling (f.mul quantile (f.of_nat h.count)) ≡ t
      → find_bucket 0 0 t h.buckets ≡ k
      → quantile_of h quantile ≡ f.mul (f.of_nat k) bucket_width_ms
  unfolding quantile_of
  quantile-bucket h quantile t k c e p = rw (c, e, p) refl

  pub quantile-first :
      (h : Histogram F) (quantile : F) (t : ℕ)
      → f.ceiling (f.mul quantile (f.of_nat h.count)) ≡ t
      → IsCounted h
      → 0 < t
      → t ≤ h.count
      → (k : ℕ) × (quantile_of h quantile ≡ f.mul (f.of_nat k) bucket_width_ms)
        × (k < histogram_buckets)
        × (total (take k h.buckets) < t)
        × (t ≤ total (take (suc k) h.buckets))
  quantile-first h quantile t e v a b =
      let (k, p, q, r, s) = find_bucket-first 0 0 t h.buckets a (omega (arith, v.counted)) in
      let some_samples : (h.count == 0) ≡ false = ground (arith, a, b) in
      let found : find_bucket 0 0 t h.buckets ≡ k = omega (arith, p) in
      (
        k,
        quantile-bucket h quantile t k some_samples e found,
        omega (arith, q, v.size),
        omega (arith, r),
        omega (arith, s),
      )
