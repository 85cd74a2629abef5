-- ===== src/Jam/Decode.antt =====
-- `cue`: an atom back to the noun whose bits it has.
use trinitite.Base.{ℕ, zero, suc, ◌+◌, ◌*◌, ◌%◌, ◌^◌, true, false, length, if◌then◌else◌, ◌==◌}
use trinitite.Base.Outcome.{Outcome, ok, crash, spent, ◌>>=◌}
use trinitite.Noun.{Noun, direct, indirect, cell, is_atom}
use trinitite.Jam.Probe.{Found, hit, free, full, Slots, empty_slots, probe, write_slot}
use trinitite.Jam.Rub.{atom_bit_at, do_rub}

-- CUE_CACHE_SZ
abbrev pub cue_cache_size : ℕ
cue_cache_size = 1048576

-- `g_ccache`
abbrev pub Ccache : Type 0
Ccache = Slots ℕ Noun

abbrev pub ccache_init : Ccache
ccache_init = empty_slots

-- `(uint32_t)(pos * 2654435761ULL) & (CUE_CACHE_SZ - 1)`
unfoldable pub ccache_hash : ℕ → ℕ
ccache_hash pos = pos * 2654435761 % 2 ^ 64 % 2 ^ 32 % cue_cache_size

unfoldable pub ccache_probe : Ccache → ℕ → Found ℕ Noun
unfolding probe ccache_hash
ccache_probe c pos = probe (λ k. k == pos) c cue_cache_size (ccache_hash pos) 0 cue_cache_size

abbrev pub ccache_write : Ccache → ℕ → Noun → Found ℕ Noun → Outcome Ccache
ccache_write c pos n (hit i k v) = ok (write_slot c i (pos, n))
ccache_write c pos n (free i) = ok (write_slot c i (pos, n))
ccache_write c pos n full = crash "cue: backref cache full"

unfoldable pub ccache_put : Ccache → ℕ → Noun → Outcome Ccache
unfolding ccache_probe
ccache_put c pos n = ccache_write c pos n (ccache_probe c pos)

abbrev pub noun_found : Found ℕ Noun → Outcome Noun
noun_found (hit i k n) = ok n
noun_found (free i) = crash "cue: invalid back-reference"
noun_found full = crash "cue: invalid back-reference"

unfoldable pub ccache_get : Ccache → ℕ → Outcome Noun
unfolding ccache_probe
ccache_get c pos = noun_found (ccache_probe c pos)

-- What a call of `do_cue` leaves: its result, the cursor and the cache.
pub record Cued : Type 0 where
  pub noun : Noun
  pub cur : ℕ
  pub cache : Ccache

-- `ccache_put(start, result)`
unfoldable pub finish : ℕ → Cued → Outcome Cued
unfolding ccache_put
finish start s = do c ← ccache_put s.cache start s.noun; ok (record s { cache = c })

unfoldable pub cue_atom : Noun → Ccache → ℕ → Outcome Cued
unfolding do_rub
cue_atom a c cur = do r ← do_rub a cur; ok (record { noun = r.0; cur = r.1; cache = c })

abbrev pub referred : Ccache → Noun × ℕ → Outcome Cued
referred c (direct pos, cur) = do
  n ← ccache_get c pos
  ok (record { noun = n; cur = cur; cache = c })
referred c (indirect l, cur) = crash "cue: back-ref position too large"
referred c (cell h t, cur) = crash "cue: back-ref position too large"

unfoldable pub cue_ref : Noun → Ccache → ℕ → Outcome Cued
unfolding do_rub ccache_get
cue_ref a c cur = do_rub a cur >>= referred c

-- Head and tail, by what reads a noun.
unfoldable pub cue_cell : (Ccache → ℕ → Outcome Cued) → Ccache → ℕ → Outcome Cued
cue_cell sub c cur = do
  h ← sub c cur
  t ← sub h.cache h.cur
  ok (record t { noun = cell h.noun t.noun })

-- The C recursion on fuel. `tag` computes one branch only.
unfoldable pub do_cue : ℕ → Noun → Ccache → ℕ → Outcome Cued
unfolding atom_bit_at finish cue_atom cue_ref cue_cell
do_cue zero a c cur = spent
do_cue (suc fuel) a c cur =
    (elim (atom_bit_at a cur == 0) [
      | true ↦ cue_atom a c (cur + 1)
      | false ↦ elim (atom_bit_at a (cur + 1) == 0) [
        | true ↦ cue_cell (do_cue fuel a) c (cur + 2)
        | false ↦ cue_ref a c (cur + 2)
      ]
    ])
    >>= finish cur

-- The bits that an atom has limbs for.
abbrev pub atom_bits : Noun → ℕ
atom_bits (direct v) = 64
atom_bits (indirect l) = 64 * length l
atom_bits (cell h t) = 0

-- Past its limbs an atom has only zeros, which no cell starts with.
abbrev pub cue_fuel : Noun → ℕ
cue_fuel a = suc (atom_bits a)

unfoldable pub cue : Noun → Outcome Noun
unfolding do_cue
cue a =
    if is_atom a
    then (do s ← do_cue (cue_fuel a) a ccache_init 0; ok s.noun)
    else crash "cue: expected atom"
