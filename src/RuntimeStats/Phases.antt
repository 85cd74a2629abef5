-- ===== src/RuntimeStats/Phases.antt =====
-- The measurement block between two resets: each phase holds its own samples.
use trinitite.Base.{
  ℕ, zero, suc, ◌≤◌, ◌<◌, ◌≡◌, ◌≢◌, refl, sym, ap, subst, ◌∙◌, inl, inr, true, false, not, ◌||◌,
  List, [], ◌∷◌, arith, leb, ◌==◌, if◌then◌else◌, length, get_or, set, replicate, All, length-set,
  get_or-set_self, get_or-set_ne, ==_iff, Bool-cases,
}
use trinitite.RuntimeStats.Histogram.{
  u64_max, sat_add, histogram_add, histogram_of, empty_histogram,
}
use trinitite.RuntimeStats.Tallies.{Tallies, histogram_of-Tallies}
use trinitite.RuntimeStats.Counters.{
  Stats, Readings, phase_count, runtime_stats_reset, runtime_stats_record, runtime_stats_selftest,
}

-- A block after some samples with their phases, the newest first.
abbrev pub records : List (ℕ × ℕ) → Stats → Stats
records [] s = s
records ((p, t) ∷ rs) s = runtime_stats_record p t (records rs s)

abbrev pub samples_of : ℕ → List (ℕ × ℕ) → List ℕ
samples_of p [] = []
samples_of p ((q, t) ∷ rs) = if q == p then t ∷ samples_of p rs else samples_of p rs

record Holds (s : Stats) (rs : List (ℕ × ℕ)) : Type 0 where
  on : s.enabled ≡ true
  phases : length s.phase ≡ phase_count
  held :
      (p : ℕ) → p < phase_count → get_or s.phase p empty_histogram ≡ histogram_of (samples_of p rs)

get_or-empty : (n k : ℕ) → get_or (replicate n empty_histogram) k empty_histogram ≡ empty_histogram
get_or-empty zero k = refl
get_or-empty (suc n) zero = refl
get_or-empty (suc n) (suc k) = get_or-empty n k

reset-Holds :
    (now : Readings) (s : Stats)
    → s.enabled ≡ true
    → s.boot_load_pending ≡ false
    → Holds (runtime_stats_reset now s) []
unfolding runtime_stats_reset
reset-Holds now s e p = record {
  on = e;
  phases = rw p refl;
  held = λ k lk. rw p (get_or-empty phase_count k);
}

record-held :
    (s : Stats) (q t : ℕ) (rs : List (ℕ × ℕ)) (p : ℕ)
    → Holds s rs
    → p < phase_count
    → q < phase_count
    → get_or (set s.phase q (histogram_add (get_or s.phase q empty_histogram) t)) p empty_histogram
      ≡ histogram_of (samples_of p ((q, t) ∷ rs))
record-held s q t rs p h lp lq = elim (Bool-cases (q == p)) [
  | inl e ↦ here e ((==_iff q p).0 e)
  | inr e ↦
      get_or-set_ne s.phase q p _ empty_histogram (apart e)
      ∙ h.held p lp
      ∙ ap (λ b. histogram_of (if b then t ∷ samples_of p rs else samples_of p rs)) (sym e)
]
  where
    here :
        (q == p) ≡ true
        → q ≡ p
        → get_or
            (set s.phase q (histogram_add (get_or s.phase q empty_histogram) t))
            p
            empty_histogram
          ≡ histogram_of (samples_of p ((q, t) ∷ rs))
    here e same =
        ap
          (λ k.
            get_or (set s.phase q (histogram_add (get_or s.phase q empty_histogram) t)) k
              empty_histogram)
          (sym same)
        ∙ get_or-set_self s.phase q _ empty_histogram (omega (arith, lq, h.phases))
        ∙ ap (λ g. histogram_add g t) (h.held q lq ∙ ap (λ k. histogram_of (samples_of k rs)) same)
        ∙ ap (λ b. histogram_of (if b then t ∷ samples_of p rs else samples_of p rs)) (sym e)

    apart : (q == p) ≡ false → q ≢ p
    apart e same = ground (arith, e, same)

record-Holds :
    (s : Stats) (q t : ℕ) (rs : List (ℕ × ℕ))
    → Holds s rs
    → q < phase_count
    → Holds (runtime_stats_record q t s) ((q, t) ∷ rs)
unfolding runtime_stats_record
record-Holds s q t rs h l =
    let go : (not s.enabled || leb phase_count q) ≡ false = ground (arith, h.on) in
    rw go (record {
      on = h.on;
      phases = length-set s.phase q _ ∙ h.phases;
      held = λ p lp. record-held s q t rs p h lp l;
    })

records-Holds :
    (s : Stats) (rs : List (ℕ × ℕ))
    → Holds s []
    → All (λ r. (r.0 < phase_count) × (r.1 ≤ u64_max)) rs
    → Holds (records rs s) rs
records-Holds s [] h l = h
records-Holds s ((q, t) ∷ rs) h l =
    record-Holds (records rs s) q t rs (records-Holds s rs h l.1) l.0.0

samples_of-bounded :
    (p : ℕ) (rs : List (ℕ × ℕ))
    → All (λ r. (r.0 < phase_count) × (r.1 ≤ u64_max)) rs
    → All (λ t. t ≤ u64_max) (samples_of p rs)
samples_of-bounded p [] l = tt
samples_of-bounded p ((q, t) ∷ rs) l = elim (Bool-cases (q == p)) [
  | inl e ↦ rw e (l.0.1, samples_of-bounded p rs l.1)
  | inr e ↦ rw e (samples_of-bounded p rs l.1)
]

-- After a reset with the block enabled and no boot load waiting, and any 64-bit samples for the phases,
-- the histogram of each phase holds of the samples for that phase the number, the sum, the least, the
-- greatest and how many lie in each power-of-two range; the number, the sum and the ranges stop at the
-- greatest 64-bit number.
pub records-Tallies :
    (now : Readings) (s : Stats) (rs : List (ℕ × ℕ)) (p : ℕ)
    → s.enabled ≡ true
    → s.boot_load_pending ≡ false
    → All (λ r. (r.0 < phase_count) × (r.1 ≤ u64_max)) rs
    → p < phase_count
    → Tallies
        (get_or (records rs (runtime_stats_reset now s)).phase p empty_histogram)
        (samples_of p rs)
records-Tallies now s rs p on idle l lp =
    subst (λ g. Tallies g (samples_of p rs))
      (sym ((records-Holds (runtime_stats_reset now s) rs (reset-Holds now s on idle) l).held p lp))
      (histogram_of-Tallies (samples_of p rs) (samples_of-bounded p rs l))

-- From any state of the block, the self-test counts no failure, and leaves the block enabled as it was.
pub runtime_stats_selftest-passes :
    (now : Readings) (s : Stats)
    → ((runtime_stats_selftest now s).0 ≡ 0)
      × ((runtime_stats_selftest now s).1.enabled ≡ s.enabled)
unfolding runtime_stats_selftest sat_add histogram_add
runtime_stats_selftest-passes now s = (refl, refl)
