-- ===== src/BoundedCue/Ended.antt =====
-- How a call of `cue_bounded_bytes` ends, and what it leaves in the metrics.
use trinitite.Base.{
  ℕ, ◌+◌, ◌*◌, ◌%◌, ◌^◌, ◌≤◌, max, ◌≡◌, refl, Bool, true, false, not, Option, none, some, List,
  arith, length, if-cases,
}
use trinitite.Noun.{Noun}
use trinitite.BoundedCue.Reader.{
  is_cue_ok, Limits, bounded_cache_max, Store, Reader, Res, ran, refused, spent,
}
use trinitite.BoundedCue.Decode.{decode_all}
use trinitite.BoundedCue.Safe.{Within, Post}
use trinitite.BoundedCue.Bounds.{decode_all-Safe}
use trinitite.BoundedCue.Whole.{
  CueMetrics, i2_admission_metrics_max, count_cue_reject, CueEnd, count_call, count_clear, is_unfit,
  raise_marks, note_reader, finish_decode, cue_started, cue_bounded_bytes,
}

abbrev pub is_some : Option Noun → Bool
is_some none = false
is_some (some n) = true

-- The marks of `after` are at most those of `before` or the limits. A failure may have counted one noun,
-- cell or reference more.
pub record Marks (lim : Limits) (before after : CueMetrics) : Type 0 where
  pub work : after.cue_work_hwm ≤ max before.cue_work_hwm lim.max_work
  pub depth : after.cue_depth_hwm ≤ max before.cue_depth_hwm (max 1 lim.max_depth)
  pub nodes : after.cue_nodes_hwm ≤ max before.cue_nodes_hwm (lim.max_nodes + 1)
  pub cells : after.cue_cells_hwm ≤ max before.cue_cells_hwm (lim.max_cells + 1)
  pub backrefs : after.cue_backrefs_hwm ≤ max before.cue_backrefs_hwm (lim.max_backrefs + 1)
  pub atom_bytes : after.cue_atom_bytes_hwm ≤ max before.cue_atom_bytes_hwm lim.max_total_atom_bytes
  pub entries : after.cue_cache_entries_hwm ≤ max before.cue_cache_entries_hwm lim.max_cache_entries
  pub probes : after.cue_probe_hwm ≤ max before.cue_probe_hwm bounded_cache_max

-- A decoder that has ended: with a noun exactly when the status says so, and its marks within the limits.
pub record Ended {S : Type 0} (lim : Limits) (before : CueMetrics) (d : CueEnd S) : Type 0 where
  pub verdict : is_cue_ok d.status ≡ is_some d.noun
  pub marks : Marks lim before d.metrics

metrics_max-le :
    (first limit : ℕ) {field value : ℕ}
    → field ≤ max first limit
    → value ≤ limit
    → i2_admission_metrics_max field value ≤ max first limit
unfolding i2_admission_metrics_max
metrics_max-le first limit k l = ground (arith, k, l)

module _ (lim : Limits) where
  -- The other counters leave the marks as they are.
  unmarked-Marks :
      (m : CueMetrics) (calls rejects size clears cleared : ℕ)
      → Marks lim m (record m {
        cue_calls = calls;
        cue_rejects = rejects;
        cue_input_bytes_hwm = size;
        cue_clear_count = clears;
        cue_clear_bytes = cleared;
      })
  unmarked-Marks m calls rejects size clears cleared = record {
    work = omega arith;
    depth = omega arith;
    nodes = omega arith;
    cells = omega arith;
    backrefs = omega arith;
    atom_bytes = omega arith;
    entries = omega arith;
    probes = omega arith;
  }

  refused_call-Marks :
      (len : ℕ) (m : CueMetrics) → Marks lim m (count_cue_reject (count_call len m))
  refused_call-Marks len m =
      let m' : CueMetrics = count_cue_reject (count_call len m) in
      unmarked-Marks m m'.cue_calls m'.cue_rejects m'.cue_input_bytes_hwm m'.cue_clear_count
        m'.cue_clear_bytes

  cleared_call-Marks : (len : ℕ) (m : CueMetrics) → Marks lim m (count_clear (count_call len m))
  cleared_call-Marks len m =
      let m' : CueMetrics = count_clear (count_call len m) in
      unmarked-Marks m m'.cue_calls m'.cue_rejects m'.cue_input_bytes_hwm m'.cue_clear_count
        m'.cue_clear_bytes

  lost_call-Marks :
      (len : ℕ) (m : CueMetrics) → Marks lim m (count_cue_reject (count_clear (count_call len m)))
  lost_call-Marks len m =
      let m' : CueMetrics = count_cue_reject (count_clear (count_call len m)) in
      unmarked-Marks m m'.cue_calls m'.cue_rejects m'.cue_input_bytes_hwm m'.cue_clear_count
        m'.cue_clear_bytes

-- There is an outcome, and it has ended well.
abbrev EndsIn : {S : Type 0} → Limits → CueMetrics → Option (CueEnd S) → Type 0
EndsIn {S} lim first o = (d : CueEnd S) × (o ≡ some d) × Ended lim first d

module _ {S : Type 0} (bytes : List ℕ) (bits : ℕ) (lim : Limits) where
  raise_marks-Marks :
      (slack : ℕ) (r : Reader S) (first m : CueMetrics)
      → slack ≤ 1
      → Within bytes bits lim slack r
      → Marks lim first m
      → Marks lim first (raise_marks r m)
  unfolding raise_marks
  raise_marks-Marks slack r first m l w k = record {
    work = metrics_max-le _ _ k.work w.work_in;
    depth = metrics_max-le _ _ k.depth w.depth_in;
    nodes = metrics_max-le _ _ k.nodes (omega (arith, w.nodes_in, l));
    cells = metrics_max-le _ _ k.cells (omega (arith, w.cells_in, l));
    backrefs = metrics_max-le _ _ k.backrefs (omega (arith, w.backrefs_in, l));
    atom_bytes = metrics_max-le _ _ k.atom_bytes w.bytes_in;
    entries = metrics_max-le _ _ k.entries w.entries_in;
    probes = metrics_max-le _ _ k.probes w.probe_in;
  }

  note_reader-Marks :
      (slack : ℕ) (r : Reader S) (first m : CueMetrics)
      → slack ≤ 1
      → Within bytes bits lim slack r
      → Marks lim first m
      → Marks lim first (count_cue_reject m)
      → Marks lim first (note_reader r m)
  unfolding note_reader
  note_reader-Marks slack r first m l w k j =
      raise_marks-Marks slack r first _ l w
        (if-cases (Marks lim first) (not (is_cue_ok r.status)) (λ e. j) (λ e. k))

module _ {S : Type 0} (store : Store S) (bytes : List ℕ) (bits : ℕ) (lim : Limits) where
  finish_decode-Ended :
      (first m : CueMetrics) (x : Res Noun × Reader S)
      → Post bytes bits lim x
      → Marks lim first m
      → Marks lim first (count_cue_reject m)
      → EndsIn lim first (finish_decode store m x)
  unfolding finish_decode
  finish_decode-Ended first m (ran n, r) w k j = (
    _,
    refl,
    record {
      verdict = refl;
      marks = note_reader-Marks bytes bits lim 0 r first m (omega arith) w k j;
    },
  )
  finish_decode-Ended first m (refused, r) w k j = (
    _,
    refl,
    record {
      verdict = w.verdict;
      marks = note_reader-Marks bytes bits lim 1 r first m (omega arith) w k j;
    },
  )
  finish_decode-Ended first m (spent, r) w k j = absurd w

  started-Within : (s : S) → Within bytes bits lim 0 (cue_started store s)
  started-Within s = record {
    cur_in = omega arith;
    work_in = omega arith;
    bytes_in = omega arith;
    nodes_in = omega arith;
    cells_in = omega arith;
    backrefs_in = omega arith;
    entries_in = omega arith;
    depth_in = omega arith;
    probe_in = omega arith;
    verdict = refl;
  }

module _ {S : Type 0} (store : Store S) where
  -- On any input, limits, heap and metrics, and any answers of the store, cue_bounded_bytes ends by itself,
  -- with a noun exactly when its status is OK, and leaves each high-water mark of the metrics at most at the
  -- larger of what it was and the limit: max_work, max_total_atom_bytes, max_cache_entries, the slots of
  -- the cache for the probes, max_depth or 1 if larger, and one more than max_nodes, max_cells and
  -- max_backrefs.
  pub cue_bounded_bytes-Ended :
      (bytes : List ℕ) (lim : Limits) (heap_mode : ℕ) (m : CueMetrics) (s : S)
      → (d : CueEnd S) × (cue_bounded_bytes store bytes lim heap_mode m s ≡ some d) × Ended lim m d
  unfolding cue_bounded_bytes
  cue_bounded_bytes-Ended bytes lim heap_mode m s =
      let len : ℕ = length bytes in
      let begun : Bool × S = store.noun_tx_begin heap_mode s in
      if-cases (EndsIn lim m) (is_unfit len lim)
        (λ e. (_, refl, record { verdict = refl; marks = refused_call-Marks lim len m }))
        (λ e.
          if-cases (EndsIn lim m) (not begun.0)
            (λ e'. (_, refl, record { verdict = refl; marks = refused_call-Marks lim len m }))
            (λ e'.
              finish_decode-Ended store bytes (len * 8 % 2 ^ 64) lim m
                (count_clear (count_call len m))
                (decode_all store bytes (len * 8 % 2 ^ 64) lim (cue_started store begun.1))
                (decode_all-Safe store bytes (len * 8 % 2 ^ 64) lim (cue_started store begun.1)
                  (started-Within store bytes (len * 8 % 2 ^ 64) lim begun.1))
                (cleared_call-Marks lim len m) (lost_call-Marks lim len m)))
