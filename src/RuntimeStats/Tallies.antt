-- ===== src/RuntimeStats/Tallies.antt =====
-- A histogram is what its samples say, as far as 64-bit counters go.
use trinitite.Base.{
  ℕ, zero, suc, ◌+◌, ◌≤◌, ◌<◌, min, max, ◌≡◌, refl, ap, ◌≢◌, ◌∙◌, inl, inr, true, false, List, [],
  ◌∷◌, arith, ◌==◌, if◌then◌else◌, length, get_or, replicate, All, length-set, get_or-set_self,
  get_or-set_ne, ==_iff, Bool-cases,
}
use trinitite.RuntimeStats.Histogram.{
  u64_max, hist_buckets, Histogram, sat_add, log2_bucket, histogram_add, histogram_of,
}
use trinitite.RuntimeStats.Buckets.{in_bucket, log2_bucket-in_bucket}

sat_add-min : (a b : ℕ) → sat_add (min a u64_max) b ≡ min (a + b) u64_max
unfolding sat_add
sat_add-min a b = ground arith

capped : (a b : ℕ) → a ≡ b → min a u64_max ≡ min b u64_max
capped a b e = ap (λ c. min c u64_max) e

abbrev pub tally : ℕ → List ℕ → ℕ
tally k [] = 0
tally k (t ∷ ts) = (if in_bucket k t then 1 else 0) + tally k ts

abbrev pub sum : List ℕ → ℕ
sum [] = 0
sum (t ∷ ts) = t + sum ts

abbrev pub greatest : List ℕ → ℕ
greatest [] = 0
greatest (t ∷ ts) = max t (greatest ts)

abbrev pub least : ℕ → List ℕ → ℕ
least t [] = t
least t (u ∷ us) = min t (least u us)

abbrev pub IsLeast : ℕ → List ℕ → Type 0
IsLeast m [] = Unit
IsLeast m (t ∷ ts) = m ≡ least t ts

-- The histogram of the samples `ts`, with each count capped at the greatest 64-bit number.
pub record Tallies (h : Histogram) (ts : List ℕ) : Type 0 where
  pub counted : h.count ≡ min (length ts) u64_max
  pub summed : h.ticks_sum ≡ min (sum ts) u64_max
  pub lowest : IsLeast h.ticks_min ts
  pub highest : h.ticks_max ≡ greatest ts
  pub size : length h.bucket ≡ hist_buckets
  pub filled : (k : ℕ) → k < hist_buckets → get_or h.bucket k 0 ≡ min (tally k ts) u64_max

histogram_add-lowest :
    (h : Histogram) (t : ℕ) (ts : List ℕ)
    → Tallies h ts
    → IsLeast (histogram_add h t).ticks_min (t ∷ ts)
unfolding histogram_add sat_add
histogram_add-lowest h t [] v = ground (arith, v.counted)
histogram_add-lowest h t (u ∷ us) v = ground (arith, v.counted, v.lowest)

histogram_add-filled :
    (h : Histogram) (t : ℕ) (ts : List ℕ) (k : ℕ)
    → t ≤ u64_max
    → k < hist_buckets
    → Tallies h ts
    → get_or (histogram_add h t).bucket k 0 ≡ min (tally k (t ∷ ts)) u64_max
unfolding histogram_add
histogram_add-filled h t ts k l lk v = elim (Bool-cases (k == log2_bucket t)) [
  | inl e ↦ here e ((==_iff k (log2_bucket t)).0 e)
  | inr e ↦
      get_or-set_ne h.bucket (log2_bucket t) k _ 0 (apart e)
      ∙ v.filled k lk
      ∙ rw (log2_bucket-in_bucket t k l, e) (capped (tally k ts) (0 + tally k ts) (omega arith))
]
  where
    here :
        (k == log2_bucket t) ≡ true
        → k ≡ log2_bucket t
        → get_or (histogram_add h t).bucket k 0 ≡ min (tally k (t ∷ ts)) u64_max
    here e same =
        rw (← same, log2_bucket-in_bucket t k l, e)
          (get_or-set_self h.bucket k _ 0 (omega (arith, lk, v.size))
            ∙ ap (λ c. sat_add c 1) (v.filled k lk)
            ∙ sat_add-min (tally k ts) 1
            ∙ capped (tally k ts + 1) (1 + tally k ts) (omega arith))

    apart : (k == log2_bucket t) ≡ false → log2_bucket t ≢ k
    apart e same = ground (arith, e, same)

histogram_add-Tallies :
    (h : Histogram) (t : ℕ) (ts : List ℕ)
    → t ≤ u64_max
    → Tallies h ts
    → Tallies (histogram_add h t) (t ∷ ts)
unfolding histogram_add
histogram_add-Tallies h t ts l v = record {
  counted = ap (λ c. sat_add c 1) v.counted ∙ sat_add-min (length ts) 1 ∙ omega arith;
  summed = ap (λ c. sat_add c t) v.summed ∙ sat_add-min (sum ts) t ∙ omega arith;
  lowest = histogram_add-lowest h t ts v;
  highest = ground (arith, v.highest);
  size = length-set h.bucket (log2_bucket t) _ ∙ v.size;
  filled = λ k lk. histogram_add-filled h t ts k l lk v;
}

get_or-zeros : (n k : ℕ) → get_or {A = ℕ} (replicate n 0) k 0 ≡ 0
get_or-zeros zero k = refl
get_or-zeros (suc n) zero = refl
get_or-zeros (suc n) (suc k) = get_or-zeros n k

-- After any samples of 64 bits the histogram holds their number, their sum, the least and the greatest
-- of them, and in each bucket the number of samples in its range, where the number, the sum and the
-- buckets stop at the greatest 64-bit number.
pub histogram_of-Tallies : (ts : List ℕ) → All (λ t. t ≤ u64_max) ts → Tallies (histogram_of ts) ts
histogram_of-Tallies [] h = record {
  counted = refl;
  summed = refl;
  lowest = tt;
  highest = refl;
  size = refl;
  filled = λ k lk. get_or-zeros hist_buckets k;
}
histogram_of-Tallies (t ∷ ts) h =
    histogram_add-Tallies (histogram_of ts) t ts h.0 (histogram_of-Tallies ts h.1)
