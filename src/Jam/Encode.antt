-- ===== src/Jam/Encode.antt =====
-- `jam`: a noun as the bits of an atom, with back-references to what was already written.
use trinitite.Base.{
  ℕ, ◌+◌, ◌*◌, ◌/◌, ◌%◌, ◌^◌, Bool, true, false, Option, none, some, bit_xor, ltb, leb,
  if◌then◌else◌, ◌==◌,
}
use trinitite.Base.Outcome.{Outcome, ok, ◌>>=◌}
use trinitite.Noun.{Noun, direct, cell, contents_eq}
use trinitite.Bignum.Scratch.{bn_normalize}
use trinitite.Bignum.Met.{bn_met}
use trinitite.Jam.Writer.{Jambuf, jb_init, jb_write}
use trinitite.Jam.Mat.{u64_bits, mat_len, do_mat}
use trinitite.Jam.Probe.{Found, hit, free, full, Slots, empty_slots, probe, write_slot}

-- A noun with the word of each of its nodes: an atom's own word, and the address of a cell.
pub data Held : Type 0 where
  held_atom : ℕ → Noun → Held
  held_cell : ℕ → Held → Held → Held

abbrev pub noun_of : Held → Noun
noun_of (held_atom word n) = n
noun_of (held_cell word h t) = cell (noun_of h) (noun_of t)

-- A word of the cache, with the noun that it is of.
pub record Key : Type 0 where
  pub word : ℕ
  pub noun : Noun

abbrev pub key_of : Held → Key
key_of (held_atom word n) = record { word = word; noun = n }
key_of (held_cell word h t) = record { word = word; noun = cell (noun_of h) (noun_of t) }

-- I2_JAM_CACHE_ENTRIES and I2_JAM_CACHE_ADMITTED
abbrev pub jam_cache_size : ℕ
jam_cache_size = 131072

abbrev pub jam_cache_admitted : ℕ
jam_cache_admitted = 98304

-- `g_jcache` and `g_jcache_used`
pub record Jcache : Type 0 where
  pub slots : Slots Key ℕ
  pub used : ℕ

unfoldable pub jcache_init : Jcache
jcache_init = record { slots = empty_slots; used = 0 }

unfoldable pub jcache_hash : ℕ → ℕ
jcache_hash n = bit_xor n (n / 2 ^ 23) * 2654435761 % 2 ^ 64 % 2 ^ 32 % jam_cache_size

-- By pointer under `g_jam_identity_keys`, else by structure.
abbrev pub same_key : Bool → Key → Key → Bool
same_key identity n k = if identity then k.word == n.word else contents_eq k.noun n.noun

unfoldable pub jcache_probe : Bool → Jcache → Key → Found Key ℕ
unfolding probe jcache_hash
jcache_probe identity c n =
    probe (same_key identity n) c.slots jam_cache_size (jcache_hash n.word) 0 jam_cache_size

abbrev pub position_found : Found Key ℕ → Option ℕ
position_found (hit i k pos) = some pos
position_found (free i) = none
position_found full = none

unfoldable pub jcache_get : Bool → Jcache → Key → Option ℕ
unfolding jcache_probe
jcache_get identity c n = position_found (jcache_probe identity c n)

-- A full table, or one at its admitted load, takes no new entry.
abbrev pub jcache_write : Jcache → Key → ℕ → Found Key ℕ → Jcache
jcache_write c n pos (hit i k v) = record c { slots = write_slot c.slots i (k, pos) }
jcache_write c n pos (free i) =
    if leb jam_cache_admitted c.used
    then c
    else record { slots = write_slot c.slots i (n, pos); used = c.used + 1 }
jcache_write c n pos full = c

unfoldable pub jcache_put : Bool → Jcache → Key → ℕ → Jcache
unfolding jcache_probe
jcache_put identity c n pos = jcache_write c n pos (jcache_probe identity c n)

-- The buffer and the cache that `do_jam` works on.
pub record Jamming : Type 0 where
  pub buf : Jambuf
  pub cache : Jcache

-- `jcache_put(n, g_jambuf.cur)`
abbrev pub remember : Bool → Key → Jamming → Jamming
remember identity n s = record s { cache = jcache_put identity s.cache n s.buf.cur }

-- The tag 0 and the atom.
unfoldable pub emit_atom : Noun → Jamming → Outcome Jamming
unfolding do_mat
emit_atom n s = do tag ← jb_write s.buf 0; code ← do_mat tag n; ok (record s { buf = code })

-- The tag 1 1 and the position.
unfoldable pub emit_ref : ℕ → Jamming → Outcome Jamming
unfolding do_mat
emit_ref pos s = do
  one ← jb_write s.buf 1
  two ← jb_write one 1
  code ← do_mat two (direct pos)
  ok (record s { buf = code })

-- The tag 1 0, which the head and the tail follow.
unfoldable pub emit_cell : Jamming → Outcome Jamming
unfolding jb_write
emit_cell s = do one ← jb_write s.buf 1; two ← jb_write one 0; ok (record s { buf = two })

-- An atom that was already written at `pos`: by identity it is written again when it is shorter
-- than the position, and by structure when its code is no longer than the reference.
unfoldable pub jam_known : Bool → Key → ℕ → Jamming → Outcome Jamming
unfolding bn_met mat_len jcache_put emit_atom emit_ref
jam_known true n pos s = do
  bits ← bn_met n.noun
  if ltb bits (u64_bits pos) then emit_atom n.noun (remember true n s) else emit_ref pos s
jam_known false n pos s = do
  atom ← mat_len n.noun
  ref ← mat_len (direct pos)
  if leb (1 + atom) (2 + ref) then emit_atom n.noun s else emit_ref pos s

unfoldable pub jam_atom : Bool → Key → Option ℕ → Jamming → Outcome Jamming
unfolding jam_known
jam_atom identity n none s = emit_atom n.noun (remember identity n s)
jam_atom identity n (some pos) s = jam_known identity n pos s

-- A cell, with what writes its head and its tail.
unfoldable pub jam_cell :
    Bool
    → Key
    → (Jamming → Outcome Jamming)
    → (Jamming → Outcome Jamming)
    → Option ℕ
    → Jamming
    → Outcome Jamming
unfolding emit_cell emit_ref
jam_cell identity n head tail none s = do
  tag ← emit_cell (remember identity n s)
  left ← head tag
  tail left
jam_cell identity n head tail (some pos) s = emit_ref pos s

unfoldable pub do_jam : Bool → Held → Jamming → Outcome Jamming
unfolding jcache_get jam_atom jam_cell
do_jam identity (held_atom word n) s =
    let k = key_of (held_atom word n) in jam_atom identity k (jcache_get identity s.cache k) s
do_jam identity (held_cell word h t) s =
    let k = key_of (held_cell word h t) in
    jam_cell identity k (do_jam identity h) (do_jam identity t) (jcache_get identity s.cache k) s

unfoldable pub jam_encode : Bool → Held → Outcome Jambuf
unfolding do_jam jb_init jcache_init
jam_encode identity n = do
  s ← do_jam identity n (record { buf = jb_init; cache = jcache_init })
  ok s.buf

abbrev pub jam_limbs : ℕ → ℕ
jam_limbs bits = let limbs = (bits + 63) / 64 in if limbs == 0 then 1 else limbs

-- `identity` is `g_jam_identity_keys`, which is 0 outside of `jam_encode_bytes_identity`.
unfoldable pub jam : Bool → Held → Outcome Noun
unfolding jam_encode bn_normalize
jam identity n = do b ← jam_encode identity n; bn_normalize b.buf (jam_limbs b.cur)
