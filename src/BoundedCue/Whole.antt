-- ===== src/BoundedCue/Whole.antt =====
-- `cue_bounded_bytes`: a whole input, its transaction and the admission metrics.
use trinitite.Base.{
  ℕ, ◌+◌, ◌*◌, ◌%◌, ◌^◌, Bool, not, ◌||◌, Option, none, some, List, ltb, ◌==◌, if◌then◌else◌,
  length,
}
use trinitite.Noun.{Noun}
use trinitite.Jam.Probe.{empty_slots}
use trinitite.BoundedCue.Reader.{
  Status, cue_ok, cue_input, cue_alloc, is_cue_ok, Limits, bounded_cache_max, Store, Reader, Res,
  ran, refused, spent,
}
use trinitite.BoundedCue.Decode.{decode_all}

-- The cue counters among the admission metrics.
pub record CueMetrics : Type 0 where
  pub cue_calls : ℕ
  pub cue_rejects : ℕ
  pub cue_input_bytes_hwm : ℕ
  pub cue_work_hwm : ℕ
  pub cue_depth_hwm : ℕ
  pub cue_nodes_hwm : ℕ
  pub cue_cells_hwm : ℕ
  pub cue_backrefs_hwm : ℕ
  pub cue_atom_bytes_hwm : ℕ
  pub cue_cache_entries_hwm : ℕ
  pub cue_probe_hwm : ℕ
  pub cue_clear_count : ℕ
  pub cue_clear_bytes : ℕ

unfoldable pub i2_admission_metrics_max : ℕ → ℕ → ℕ
i2_admission_metrics_max field value = if ltb field value then value else field

abbrev pub count_cue_reject : CueMetrics → CueMetrics
count_cue_reject m = record m { cue_rejects = (m.cue_rejects + 1) % 2 ^ 64 }

-- The status, the noun where there is one, the metrics and the store.
pub record CueEnd (S : Type 0) : Type 0 where
  pub status : Status
  pub noun : Option Noun
  pub metrics : CueMetrics
  pub store : S

-- `sizeof g_bounded_cache`: an entry has 24 bytes.
abbrev pub cache_bytes : ℕ
cache_bytes = bounded_cache_max * 24

-- The metrics of a call for `len` bytes, and of a cleared cache.
abbrev pub count_call : ℕ → CueMetrics → CueMetrics
count_call len m = record m {
  cue_calls = (m.cue_calls + 1) % 2 ^ 64;
  cue_input_bytes_hwm = i2_admission_metrics_max m.cue_input_bytes_hwm len;
}

abbrev pub count_clear : CueMetrics → CueMetrics
count_clear m = record m {
  cue_clear_count = (m.cue_clear_count + 1) % 2 ^ 64;
  cue_clear_bytes = (m.cue_clear_bytes + cache_bytes) % 2 ^ 64;
}

-- An input or limits that are refused at once.
abbrev pub is_unfit : ℕ → Limits → Bool
is_unfit len lim =
    (len == 0)
    || ltb lim.max_input_bytes len
    || (lim.max_cache_entries == 0)
    || ltb bounded_cache_max lim.max_cache_entries

-- The marks that `note_reader` raises.
unfoldable pub raise_marks : {S : Type 0} → Reader S → CueMetrics → CueMetrics
raise_marks r m = record m {
  cue_work_hwm = i2_admission_metrics_max m.cue_work_hwm r.work;
  cue_depth_hwm = i2_admission_metrics_max m.cue_depth_hwm r.depth_hwm;
  cue_nodes_hwm = i2_admission_metrics_max m.cue_nodes_hwm r.nodes;
  cue_cells_hwm = i2_admission_metrics_max m.cue_cells_hwm r.cells;
  cue_backrefs_hwm = i2_admission_metrics_max m.cue_backrefs_hwm r.backrefs;
  cue_atom_bytes_hwm = i2_admission_metrics_max m.cue_atom_bytes_hwm r.total_atom_bytes;
  cue_cache_entries_hwm = i2_admission_metrics_max m.cue_cache_entries_hwm r.cache_entries;
  cue_probe_hwm = i2_admission_metrics_max m.cue_probe_hwm r.probe_hwm;
}

unfoldable pub note_reader : {S : Type 0} → Reader S → CueMetrics → CueMetrics
note_reader r m = raise_marks r (if not (is_cue_ok r.status) then count_cue_reject m else m)

module _ {S : Type 0} (store : Store S) where
  -- The end of the decoder; a model that ran out of fuel has none.
  unfoldable pub finish_decode : CueMetrics → Res Noun × Reader S → Option (CueEnd S)
  finish_decode m (ran n, r) =
      some (record { status = cue_ok; noun = some n; metrics = note_reader r m; store = r.store })
  finish_decode m (refused, r) = some (record {
    status = r.status;
    noun = none;
    metrics = note_reader r m;
    store = store.noun_tx_abort r.store;
  })
  finish_decode m (spent, r) = none

  -- The reader at the start, with the cache cleared.
  abbrev pub cue_started : S → Reader S
  cue_started s = record {
    cur = 0;
    status = cue_ok;
    work = 0;
    total_atom_bytes = 0;
    nodes = 0;
    cells = 0;
    backrefs = 0;
    cache_entries = 0;
    depth_hwm = 0;
    probe_hwm = 0;
    cache = empty_slots;
    store = s;
  }

  unfoldable pub cue_bounded_bytes : List ℕ → Limits → ℕ → CueMetrics → S → Option (CueEnd S)
  cue_bounded_bytes bytes lim heap_mode m s =
      let len : ℕ = length bytes in
      let m₁ : CueMetrics = count_call len m in
      let begun : Bool × S = store.noun_tx_begin heap_mode s in
      if is_unfit len lim
      then some
          (record { status = cue_input; noun = none; metrics = count_cue_reject m₁; store = s })
      else if not begun.0
      then some (record {
        status = cue_alloc;
        noun = none;
        metrics = count_cue_reject m₁;
        store = begun.1;
      })
      else finish_decode (count_clear m₁)
          (decode_all store bytes (len * 8 % 2 ^ 64) lim (cue_started begun.1))
