-- ===== src/BoundedCue/Reader.antt =====
-- The reader of bounded_cue.c, its actions and its primitive steps: an action returns 1 with a value or 0,
-- and leaves the status in the reader.
use trinitite.Base.{
  ℕ, zero, suc, ◌+◌, ◌-◌, ◌*◌, ◌/◌, ◌%◌, ◌^◌, Bool, true, false, not, ◌||◌, Option, none, some,
  List, ltb, leb, ◌==◌, if◌then◌else◌, get_or,
}
use trinitite.Noun.{Noun}
use trinitite.Jam.Probe.{Slots, write_slot}

pub data Status : Type 0 where
  cue_ok cue_input cue_truncated cue_depth cue_work cue_nodes cue_cells cue_backref cue_cache
        cue_atom cue_alloc cue_trailing :
      Status

abbrev pub is_cue_ok : Status → Bool
is_cue_ok cue_ok = true
is_cue_ok cue_input = false
is_cue_ok cue_truncated = false
is_cue_ok cue_depth = false
is_cue_ok cue_work = false
is_cue_ok cue_nodes = false
is_cue_ok cue_cells = false
is_cue_ok cue_backref = false
is_cue_ok cue_cache = false
is_cue_ok cue_atom = false
is_cue_ok cue_alloc = false
is_cue_ok cue_trailing = false

pub record Limits : Type 0 where
  pub max_input_bytes : ℕ
  pub max_depth : ℕ
  pub max_nodes : ℕ
  pub max_cells : ℕ
  pub max_backrefs : ℕ
  pub max_cache_entries : ℕ
  pub max_atom_bytes : ℕ
  pub max_total_atom_bytes : ℕ
  pub max_work : ℕ

abbrev pub cue_i2_limits : Limits
cue_i2_limits = record {
  max_input_bytes = 1048576;
  max_depth = 256;
  max_nodes = 131072;
  max_cells = 65536;
  max_backrefs = 65536;
  max_cache_entries = 98304;
  max_atom_bytes = 262144;
  max_total_atom_bytes = 1048576;
  max_work = 2000000;
}

abbrev pub bounded_cache_max : ℕ
bounded_cache_max = 131072

abbrev pub bounded_atom_limbs_max : ℕ
bounded_atom_limbs_max = 32768

-- What the reader asks of the atom store and the heap of noun.c: whether there was room, and the store
-- afterwards.
pub record Store (S : Type 0) : Type 0 where
  pub noun_tx_begin : ℕ → S → Bool × S
  pub noun_tx_abort : S → S
  pub store_atom : List ℕ → ℕ → S → Bool × S
  pub store_cell : Noun → Noun → S → Bool × S

-- `cue_reader_t` but for what does not change, with the cache and the store.
pub record Reader (S : Type 0) : Type 0 where
  pub cur : ℕ
  pub status : Status
  pub work : ℕ
  pub total_atom_bytes : ℕ
  pub nodes : ℕ
  pub cells : ℕ
  pub backrefs : ℕ
  pub cache_entries : ℕ
  pub depth_hwm : ℕ
  pub probe_hwm : ℕ
  pub cache : Slots ℕ Noun
  pub store : S

-- `spent` is no end of the code: a model on fuel was given too little.
pub data Res (A : Type 0) : Type 0 where
  ran : A → Res A
  refused spent : Res A

abbrev pub Action : Type 0 → Type 0 → Type 0
Action S A = Reader S → Res A × Reader S

module _ {S : Type 0} where
  abbrev pub and_then : {A B : Type 0} → (A → Action S B) → Res A × Reader S → Res B × Reader S
  and_then f (ran a, r) = f a r
  and_then f (refused, r) = (refused, r)
  and_then f (spent, r) = (spent, r)

  infixl 5 ◌>>=◌
  abbrev pub ◌>>=◌ : {A B : Type 0} → Action S A → (A → Action S B) → Action S B
  act >>= f = λ r. and_then f (act r)

  abbrev pub pure : {A : Type 0} → A → Action S A
  pure a = λ r. (ran a, r)

  abbrev pub refuse : {A : Type 0} → Status → Action S A
  refuse st = λ r. (refused, record r { status = st })

  abbrev pub refuse_if : Bool → Status → Action S Unit
  refuse_if b st = λ r. if b then (refused, record r { status = st }) else (ran tt, r)

-- `(uint32_t)(pos * 2654435761ULL) & (BOUNDED_CACHE_MAX - 1u)`
unfoldable pub cache_hash : ℕ → ℕ
cache_hash pos = pos * 2654435761 % 2 ^ 64 % 2 ^ 32 % bounded_cache_max

abbrev pub cache_cap : Limits → ℕ
cache_cap lim =
    if (lim.max_cache_entries == 0) || ltb bounded_cache_max lim.max_cache_entries
    then bounded_cache_max
    else lim.max_cache_entries

module _ {S : Type 0} (bytes : List ℕ) (bits : ℕ) (lim : Limits) where
  unfoldable pub charge : ℕ → Action S Unit
  charge n = λ r.
      if not (is_cue_ok r.status)
      then (refused, r)
      else if ltb lim.max_work n || ltb (lim.max_work - n) r.work
      then (refused, record r { status = cue_work })
      else (ran tt, record r { work = r.work + n })

  -- The bit under the cursor.
  unfoldable pub take_bit : Action S ℕ
  take_bit = λ r.
      if leb bits r.cur
      then (refused, record r { status = cue_truncated })
      else (ran (get_or bytes (r.cur / 8) 0 / 2 ^ (r.cur % 8) % 2), record r { cur = r.cur + 1 })

  unfoldable pub read_bit : Action S ℕ
  read_bit = charge 1 >>= λ u. take_bit

  -- The start of a round of a probe.
  unfoldable pub note_probe : ℕ → Action S Unit
  note_probe i =
      λ r. (ran tt, if ltb r.probe_hwm (i + 1) then record r { probe_hwm = i + 1 } else r)

  abbrev pub store_entry : ℕ → ℕ → Noun → Reader S → Reader S
  store_entry slot pos value r = record r { cache = write_slot r.cache slot (pos, value) }

  -- A round of `cache_put` at its slot: done, or a slot of another key.
  abbrev pub put_at : ℕ → ℕ → Noun → Option (ℕ × Noun) → Action S Bool
  put_at slot pos value none = λ r.
      if leb lim.max_cache_entries r.cache_entries
      then (refused, record r { status = cue_cache })
      else (ran true, record (store_entry slot pos value r) { cache_entries = r.cache_entries + 1 })
  put_at slot pos value (some e) =
      λ r. if e.0 == pos then (ran true, store_entry slot pos value r) else (ran false, r)

  unfoldable pub put_loop : ℕ → ℕ → ℕ → ℕ → Noun → Action S Unit
  put_loop zero i h pos value = refuse cue_cache
  put_loop (suc left) i h pos value =
      let slot : ℕ = (h + i) % bounded_cache_max in
      note_probe i >>= λ u. charge 1 >>= λ v.
      (λ r. put_at slot pos value (r.cache slot) r) >>= λ done. elim done [
        | true ↦ pure tt
        | false ↦ put_loop left (i + 1) h pos value
      ]

  unfoldable pub cache_put : ℕ → Noun → Action S Unit
  cache_put pos value = put_loop (cache_cap lim) 0 (cache_hash pos) pos value

  -- A round of `cache_get` at its slot: the value, or a slot of another key.
  abbrev pub get_at : ℕ → Option (ℕ × Noun) → Action S (Option Noun)
  get_at pos none = refuse cue_backref
  get_at pos (some e) = λ r. if e.0 == pos then (ran (some e.1), r) else (ran none, r)

  unfoldable pub get_loop : ℕ → ℕ → ℕ → ℕ → Action S Noun
  get_loop zero i h pos = refuse cue_backref
  get_loop (suc left) i h pos =
      let slot : ℕ = (h + i) % bounded_cache_max in
      note_probe i >>= λ u. charge 1 >>= λ v. (λ r. get_at pos (r.cache slot) r) >>= λ found.
      elim found [ some n ↦ pure n | none ↦ get_loop left (i + 1) h pos ]

  unfoldable pub cache_get : ℕ → Action S Noun
  cache_get pos = get_loop (cache_cap lim) 0 (cache_hash pos) pos
