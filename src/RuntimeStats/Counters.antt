-- ===== src/RuntimeStats/Counters.antt =====
-- The measurement block of runtime_stats.c: counters and one histogram for each phase, all still while
-- the block is disabled. The texts and the report to the serial line are left out.
use trinitite.Base.{
  ℕ, ◌+◌, ◌-◌, ◌^◌, Bool, true, false, not, ◌||◌, ◌&&◌, List, [], ◌∷◌, ltb, leb, ◌==◌,
  if◌then◌else◌, get_or, set, replicate,
}
use trinitite.RuntimeStats.Histogram.{u64_max, Histogram, sat_add, histogram_add, empty_histogram}

abbrev pub phase_count : ℕ
phase_count = 16

abbrev pub counter_count : ℕ
counter_count = 61

-- The counters and phases of the header that the code below names.
abbrev pub persist_cells_current : ℕ
persist_cells_current = 15

abbrev pub persist_cells_start : ℕ
persist_cells_start = 16

abbrev pub persist_cells_hwm : ℕ
persist_cells_hwm = 17

abbrev pub scratch_cells_current : ℕ
scratch_cells_current = 18

abbrev pub scratch_cells_start : ℕ
scratch_cells_start = 19

abbrev pub scratch_cells_hwm : ℕ
scratch_cells_hwm = 20

abbrev pub atom_bytes_current : ℕ
atom_bytes_current = 21

abbrev pub atom_bytes_start : ℕ
atom_bytes_start = 22

abbrev pub atom_bytes_hwm : ℕ
atom_bytes_hwm = 23

abbrev pub atom_index_occupancy : ℕ
atom_index_occupancy = 24

abbrev pub atom_index_start : ℕ
atom_index_start = 25

abbrev pub atom_probe_hwm : ℕ
atom_probe_hwm = 26

abbrev pub ingress_version : ℕ
ingress_version = 38

abbrev pub run_ticks : ℕ
run_ticks = 48

abbrev pub copy_map_entries_hwm : ℕ
copy_map_entries_hwm = 57

abbrev pub atom_index_hwm : ℕ
atom_index_hwm = 58

abbrev pub ingress_complete_to_admit : ℕ
ingress_complete_to_admit = 0

abbrev pub boot_load : ℕ
boot_load = 15

-- The block `g_stats`, and the boot load that waits for the next reset.
pub record Stats : Type 0 where
  pub schema : ℕ
  pub enabled : Bool
  pub cntfrq : ℕ
  pub reset_tick : ℕ
  pub counter : List ℕ
  pub phase : List Histogram
  pub boot_load_ticks : ℕ
  pub boot_load_pending : Bool

-- What the code reads elsewhere: the two timer registers, and the fill of the heaps and the atom store.
pub record Readings : Type 0 where
  pub cntfrq_el0 : ℕ
  pub cntvct_el0 : ℕ
  pub persist : ℕ
  pub scratch : ℕ
  pub atoms : ℕ
  pub index : ℕ
  pub probe_hwm : ℕ
  pub copy_map_hwm : ℕ

abbrev pub runtime_counter_freq : Readings → ℕ
runtime_counter_freq now = if not (now.cntfrq_el0 == 0) then now.cntfrq_el0 else 54000000

abbrev pub runtime_stats_enable : Bool → Stats → Stats
runtime_stats_enable enabled s = record s { enabled = enabled }

-- Counters that are stored one after the other.
store_all : List (ℕ × ℕ) → List ℕ → List ℕ
store_all [] counter = counter
store_all ((i, v) ∷ rest) counter = store_all rest (set counter i v)

unfoldable pub runtime_stats_reset : Readings → Stats → Stats
unfolding store_all
runtime_stats_reset now s =
    let phases : List Histogram = replicate phase_count empty_histogram in
    record {
      schema = 1;
      enabled = s.enabled;
      cntfrq = runtime_counter_freq now;
      reset_tick = now.cntvct_el0;
      counter =
          store_all
            ((persist_cells_current, now.persist)
              ∷ (persist_cells_start, now.persist)
              ∷ (persist_cells_hwm, now.persist)
              ∷ (scratch_cells_current, now.scratch)
              ∷ (scratch_cells_start, now.scratch)
              ∷ (scratch_cells_hwm, now.scratch)
              ∷ (atom_bytes_current, now.atoms)
              ∷ (atom_bytes_start, now.atoms)
              ∷ (atom_bytes_hwm, now.atoms)
              ∷ (atom_index_occupancy, now.index)
              ∷ (atom_index_start, now.index)
              ∷ (atom_index_hwm, now.index)
              ∷ [])
            (replicate counter_count 0);
      phase =
          if s.boot_load_pending
          then set phases boot_load
              (histogram_add (get_or phases boot_load empty_histogram) s.boot_load_ticks)
          else phases;
      boot_load_ticks = s.boot_load_ticks;
      boot_load_pending = false;
    }

unfoldable pub runtime_stats_count : ℕ → ℕ → Stats → Stats
runtime_stats_count counter amount s =
    if not s.enabled || leb counter_count counter
    then s
    else record s { counter = set s.counter counter (sat_add (get_or s.counter counter 0) amount) }

unfoldable pub runtime_stats_set : ℕ → ℕ → Stats → Stats
runtime_stats_set counter value s =
    if not s.enabled || leb counter_count counter
    then s
    else record s { counter = set s.counter counter value }

unfoldable pub runtime_stats_max : ℕ → ℕ → Stats → Stats
runtime_stats_max counter value s =
    if not s.enabled || leb counter_count counter
    then s
    else if ltb (get_or s.counter counter 0) value
    then record s { counter = set s.counter counter value }
    else s

unfoldable pub runtime_stats_record : ℕ → ℕ → Stats → Stats
runtime_stats_record phase ticks s =
    if not s.enabled || leb phase_count phase then s else record s {
      phase = set s.phase phase (histogram_add (get_or s.phase phase empty_histogram) ticks);
    }

unfoldable pub runtime_stats_record_boot_load : ℕ → Stats → Stats
runtime_stats_record_boot_load ticks s = record s {
  boot_load_ticks = ticks;
  boot_load_pending = true;
}

unfoldable pub runtime_stats_note_memory : Readings → Stats → Stats
unfolding runtime_stats_set runtime_stats_max
runtime_stats_note_memory now s =
    if not s.enabled
    then s
    else let s₁ : Stats = runtime_stats_set persist_cells_current now.persist s in
      let s₂ : Stats = runtime_stats_max persist_cells_hwm now.persist s₁ in
      let s₃ : Stats = runtime_stats_set scratch_cells_current now.scratch s₂ in
      let s₄ : Stats = runtime_stats_max scratch_cells_hwm now.scratch s₃ in
      let s₅ : Stats = runtime_stats_set atom_bytes_current now.atoms s₄ in
      let s₆ : Stats = runtime_stats_max atom_bytes_hwm now.atoms s₅ in
      let s₇ : Stats = runtime_stats_set atom_index_occupancy now.index s₆ in
      let s₈ : Stats = runtime_stats_max atom_index_hwm now.index s₇ in
      let s₉ : Stats = runtime_stats_max atom_probe_hwm now.probe_hwm s₈ in
      runtime_stats_max copy_map_entries_hwm now.copy_map_hwm s₉

unfoldable pub runtime_stats_note_ingress_reject : ℕ → Stats → Stats
unfolding runtime_stats_count
runtime_stats_note_ingress_reject reason s =
    if leb 1 reason && leb reason 6
    then runtime_stats_count (ingress_version + reason - 1) 1 s
    else s

unfoldable pub runtime_stats_finish_run : ℕ → Stats → Stats
runtime_stats_finish_run ticks s = record s { counter = set s.counter run_ticks ticks }

-- Each failure of the self-test counts one.
abbrev failed : Bool → ℕ
failed ok = if ok then 0 else 1

-- RT_COUNT_COMMITS and RT_PHASE_NOCK_SLAM are 1 and 2. The failures, and the block afterwards.
unfoldable pub runtime_stats_selftest : Readings → Stats → ℕ × Stats
unfolding runtime_stats_reset runtime_stats_count runtime_stats_record
    runtime_stats_record_boot_load
runtime_stats_selftest now s₀ =
    let prior : Bool = s₀.enabled in
    let s₁ : Stats =
      runtime_stats_reset now (runtime_stats_record_boot_load 7 (runtime_stats_enable true s₀)) in
    let s₂ : Stats = runtime_stats_count 1 2 (runtime_stats_count 1 (u64_max - 1) s₁) in
    let s₃ : Stats =
      runtime_stats_record 2 (2 ^ 63) (runtime_stats_record 2 2 (runtime_stats_record 2 0 s₂)) in
    let slam : Histogram = get_or s₃.phase 2 empty_histogram in
    let boot : Histogram = get_or s₃.phase boot_load empty_histogram in
    (
      failed (get_or s₃.counter 1 0 == u64_max)
          + failed (
              (slam.count == 3)
              && (slam.ticks_min == 0)
              && (slam.ticks_max == 2 ^ 63)
              && (get_or slam.bucket 0 0 == 1)
              && (get_or slam.bucket 1 0 == 1)
              && (get_or slam.bucket 63 0 == 1))
          + failed ((boot.count == 1) && (boot.ticks_min == 7) && (boot.ticks_max == 7)),
      runtime_stats_reset now (runtime_stats_enable prior s₃),
    )
