-- ===== src/RuntimeStats/Buckets.antt =====
-- The bucket that `log2_bucket` picks is the one whose range has the sample.
use native.Mathlib.Nat.{pow-suc, pow-le-pow_right}
use trinitite.Base.{
  ℕ, zero, suc, ◌+◌, ◌-◌, ◌/◌, ◌^◌, ◌≤◌, ◌<◌, ◌≡◌, refl, sym, subst, ◌≢◌, ◌∙◌, ◌⊎◌, inl, inr, Bool,
  true, false, ◌&&◌, arith, ltb, leb, ◌==◌, if◌then◌else◌, ==_iff, ==_of_ne, Bool-cases,
}
use trinitite.RuntimeStats.Histogram.{u64_max, hist_buckets, log2_loop, log2_bucket}

-- Bucket 0 takes 0 and 1, and bucket k the numbers from 2 ^ k below 2 ^ (k + 1).
abbrev pub in_bucket : ℕ → ℕ → Bool
in_bucket k t = leb (if k == 0 then 0 else 2 ^ k) t && ltb t (2 ^ suc k)

log2_loop-bounds :
    (n t b : ℕ)
    → 0 < t
    → t < 2 ^ (suc n)
    → (k : ℕ) × (log2_loop n t b ≡ b + k) × (k ≤ n) × (2 ^ k ≤ t) × (t < 2 ^ (suc k))
unfolding log2_loop
log2_loop-bounds zero t b h l = (0, omega arith, omega arith, omega arith, omega arith)
log2_loop-bounds (suc n) t b h l = elim (Bool-cases (ltb 1 t)) [
  | inl e ↦
      let (k, eq, le, lo, hi) =
        log2_loop-bounds n (t / 2) (suc b) (ground (arith, e)) (omega (arith, pow-suc 2 (suc n))) in
      (
        suc k,
        rw (e, eq) (omega arith),
        omega arith,
        omega (arith, pow-suc 2 k),
        omega (arith, pow-suc 2 (suc k)),
      )
  | inr e ↦ (0, rw e (omega arith), omega arith, ground (arith, e), ground (arith, e))
]

-- What the test of a bucket says.
abbrev Holds : ℕ → ℕ → Type 0
Holds k t = ((k ≡ 0) ⊎ (2 ^ k ≤ t)) × (t < 2 ^ suc k)

in_bucket-Holds : (k t : ℕ) → in_bucket k t ≡ true → Holds k t
in_bucket-Holds zero t e = (inl refl, ground (arith, e))
in_bucket-Holds (suc k) t e = (inr (ground (arith, e)), ground (arith, e))

Holds-in_bucket : (k t : ℕ) → Holds k t → in_bucket k t ≡ true
Holds-in_bucket zero t h = ground (arith, h.1)
Holds-in_bucket (suc k) t (inl e, h) = absurd (omega (arith, e))
Holds-in_bucket (suc k) t (inr l, h) = ground (arith, l, h)

Holds-le : (j k t : ℕ) → Holds j t → Holds k t → k ≤ j
Holds-le j k t p (inl e, h) = omega (arith, e)
Holds-le j k t p (inr l, h) = elim (Bool-cases (ltb j k)) [
  | inl e ↦ absurd (
      omega (
        arith,
        l,
        p.1,
        pow-le-pow_right {n = 2} (omega arith) {i = suc j} {j = k} (ground (arith, e)),
      ))
  | inr e ↦ ground (arith, e)
]

-- A number is in one bucket.
in_bucket-apart : (j k t : ℕ) → in_bucket j t ≡ true → in_bucket k t ≡ true → j ≡ k
in_bucket-apart j k t p q =
    let hj = in_bucket-Holds j t p in
    let hk = in_bucket-Holds k t q in omega (arith, Holds-le j k t hj hk, Holds-le k j t hk hj)

log2_bucket-eq : (t : ℕ) → log2_bucket t ≡ (if leb t 1 then 0 else log2_loop (hist_buckets - 1) t 0)
unfolding log2_bucket
log2_bucket-eq t = refl

pub log2_bucket-Holds :
    (t : ℕ) → t ≤ u64_max → (log2_bucket t < hist_buckets) × Holds (log2_bucket t) t
log2_bucket-Holds t h = elim (Bool-cases (leb t 1)) [
  | inl e ↦ rw (log2_bucket-eq t, e) (omega arith, (inl refl, ground (arith, e)))
  | inr e ↦ found e (log2_loop-bounds 63 t 0 (ground (arith, e)) (omega (arith, h)))
]
  where
    found :
        leb t 1 ≡ false
        → (k : ℕ) × (log2_loop 63 t 0 ≡ 0 + k) × (k ≤ 63) × (2 ^ k ≤ t) × (t < 2 ^ suc k)
        → (log2_bucket t < hist_buckets) × Holds (log2_bucket t) t
    found e (k, eq, le, lo, hi) =
        let same : log2_bucket t ≡ k = log2_bucket-eq t ∙ rw e (eq ∙ omega arith) in
        subst (λ (b : ℕ). (b < hist_buckets) × Holds b t) (sym same)
          (omega (arith, le), (inr lo, hi))

pub log2_bucket-in_bucket : (t k : ℕ) → t ≤ u64_max → in_bucket k t ≡ (k == log2_bucket t)
log2_bucket-in_bucket t k h = elim (Bool-cases (in_bucket k t)) [
  | inl e ↦ e ∙ sym ((==_iff k (log2_bucket t)).1 (in_bucket-apart k (log2_bucket t) t e own))
  | inr e ↦ e ∙ sym (==_of_ne k (log2_bucket t) (apart e))
]
  where
    own : in_bucket (log2_bucket t) t ≡ true
    own = Holds-in_bucket (log2_bucket t) t (log2_bucket-Holds t h).1

    apart : in_bucket k t ≡ false → k ≢ log2_bucket t
    apart e same =
        let other : in_bucket k t ≡ true = subst (λ (b : ℕ). in_bucket b t ≡ true) (sym same) own in
        ground (arith, e, other)
