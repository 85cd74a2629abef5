-- ===== src/Tests/Cues.antt =====
-- Runs of the bounded decoder.
use trinitite.Base.{true, Option, none, some, [], ◌∷◌, ◌≡◌, refl}
use trinitite.Noun.{Noun, direct, cell}
use trinitite.BoundedCue.Reader.{
  Limits, Store, Status, cue_depth, charge, read_bit, take_bit, note_probe, put_loop, cache_put,
  cache_hash,
}
use trinitite.BoundedCue.Decode.{
  decode_all, decode_noun, enter_noun, decode_cell, decode_mat, zeros_loop, decode_sized,
  check_trailing, padding_loop,
}
use trinitite.BoundedCue.Whole.{CueMetrics, CueEnd, finish_decode, cue_bounded_bytes}
use trinitite.BoundedCue.Ended.{Ended, cue_bounded_bytes-Ended}

-- A store that always has room.
abbrev roomy : Store Unit
roomy = record {
  noun_tx_begin = λ mode s. (true, s);
  noun_tx_abort = λ s. s;
  store_atom = λ limbs size s. (true, s);
  store_cell = λ head tail s. (true, s);
}

abbrev narrow : Limits
narrow = record {
  max_input_bytes = 16;
  max_depth = 2;
  max_nodes = 8;
  max_cells = 4;
  max_backrefs = 4;
  max_cache_entries = 8;
  max_atom_bytes = 8;
  max_total_atom_bytes = 16;
  max_work = 40;
}

abbrev unused : CueMetrics
unused = record {
  cue_calls = 0;
  cue_rejects = 0;
  cue_input_bytes_hwm = 0;
  cue_work_hwm = 0;
  cue_depth_hwm = 0;
  cue_nodes_hwm = 0;
  cue_cells_hwm = 0;
  cue_backrefs_hwm = 0;
  cue_atom_bytes_hwm = 0;
  cue_cache_entries_hwm = 0;
  cue_probe_hwm = 0;
  cue_clear_count = 0;
  cue_clear_bytes = 0;
}

abbrev decoded_of : Option (CueEnd Unit) → Option Noun
decoded_of none = none
decoded_of (some d) = d.noun

abbrev status_of : Option (CueEnd Unit) → Option Status
status_of none = none
status_of (some d) = some d.status

-- The jam of 0, a cell of two of it, and a cell in a cell in a cell, which is too deep here.
cue_bounded_bytes_values :
    (decoded_of (cue_bounded_bytes roomy (2 ∷ []) narrow 0 unused tt) ≡ some (direct 0))
    × (decoded_of (cue_bounded_bytes roomy (41 ∷ []) narrow 0 unused tt)
        ≡ some (cell (direct 0) (direct 0)))
    × (status_of (cue_bounded_bytes roomy (21 ∷ 0 ∷ []) narrow 0 unused tt) ≡ some cue_depth)
unfolding cue_bounded_bytes finish_decode decode_all decode_noun enter_noun charge read_bit take_bit
    decode_cell decode_mat zeros_loop decode_sized cache_put put_loop note_probe cache_hash
    check_trailing padding_loop
cue_bounded_bytes_values = (refl, refl, refl)

cue_bounded_bytes-Ended_example :
    (d : CueEnd Unit) × (cue_bounded_bytes roomy (41 ∷ []) narrow 0 unused tt ≡ some d)
    × Ended narrow unused d
cue_bounded_bytes-Ended_example = cue_bounded_bytes-Ended roomy (41 ∷ []) narrow 0 unused tt
