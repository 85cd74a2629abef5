-- ===== src/RuntimeStats/Histogram.antt =====
-- The histogram of runtime_stats.c: saturating sums, the least and the greatest sample, and one bucket
-- for each power of two.
use trinitite.Base.{
  ℕ, zero, suc, ◌+◌, ◌-◌, ◌/◌, ◌^◌, ◌||◌, List, [], ◌∷◌, ltb, leb, ◌==◌, if◌then◌else◌, get_or, set,
  replicate,
}

abbrev pub u64_max : ℕ
u64_max = 2 ^ 64 - 1

abbrev pub hist_buckets : ℕ
hist_buckets = 64

pub record Histogram : Type 0 where
  pub count : ℕ
  pub ticks_sum : ℕ
  pub ticks_min : ℕ
  pub ticks_max : ℕ
  pub bucket : List ℕ

unfoldable pub sat_add : ℕ → ℕ → ℕ
sat_add a b = if ltb (u64_max - a) b then u64_max else a + b

-- The `while` of `log2_bucket` with the rounds that its second test leaves.
unfoldable pub log2_loop : ℕ → ℕ → ℕ → ℕ
log2_loop zero ticks bucket = bucket
log2_loop (suc n) ticks bucket =
    if ltb 1 ticks then log2_loop n (ticks / 2) (suc bucket) else bucket

unfoldable pub log2_bucket : ℕ → ℕ
unfolding log2_loop
log2_bucket ticks = if leb ticks 1 then 0 else log2_loop (hist_buckets - 1) ticks 0

unfoldable pub histogram_add : Histogram → ℕ → Histogram
unfolding sat_add log2_bucket
histogram_add h ticks =
    let count' : ℕ = sat_add h.count 1 in
    let bucket' : ℕ = log2_bucket ticks in
    record {
      count = count';
      ticks_sum = sat_add h.ticks_sum ticks;
      ticks_min = if (count' == 1) || ltb ticks h.ticks_min then ticks else h.ticks_min;
      ticks_max = if ltb h.ticks_max ticks then ticks else h.ticks_max;
      bucket = set h.bucket bucket' (sat_add (get_or h.bucket bucket' 0) 1);
    }

abbrev pub empty_histogram : Histogram
empty_histogram = record {
  count = 0;
  ticks_sum = 0;
  ticks_min = 0;
  ticks_max = 0;
  bucket = replicate hist_buckets 0;
}

-- The histogram after some samples, the newest first.
abbrev pub histogram_of : List ℕ → Histogram
histogram_of [] = empty_histogram
histogram_of (t ∷ ts) = histogram_add (histogram_of ts) t
