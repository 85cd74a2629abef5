-- ===== src/Jam/Length.antt =====
-- The length of `jam` without the bits: `jam_size_checked`, and the encoders that check it first.
use trinitite.Base.{
  ℕ, ◌+◌, ◌-◌, ◌*◌, ◌/◌, ◌%◌, ◌^◌, Bool, true, false, not, ◌||◌, Option, none, some, List, ltb, leb,
  if◌then◌else◌, ◌==◌,
}
use trinitite.Base.Outcome.{Outcome, ok, ◌>>=◌}
use trinitite.Noun.{Noun, direct}
use trinitite.Noun.Limbs.{limb_max}
use trinitite.Bignum.Met.{bn_met}
use trinitite.Jam.Writer.{Jambuf}
use trinitite.Jam.Mat.{u64_bits, mat_len}
use trinitite.Jam.Encode.{
  Held, held_atom, held_cell, Key, key_of, Jcache, jcache_init, jcache_get, jcache_put, jam_encode,
}

-- `g_jam_len`, `g_jam_max_bits`, `g_jam_len_ok` and the cache
pub record Sizing : Type 0 where
  pub len : ℕ
  pub max_bits : ℕ
  pub fits : Bool
  pub cache : Jcache

-- The difference is one of 64-bit words.
unfoldable pub jam_len_add : ℕ → Sizing → Sizing
jam_len_add bits z =
    if not z.fits || ltb ((z.max_bits + 2 ^ 64 - z.len) % 2 ^ 64) bits
    then record z { fits = false }
    else record z { len = z.len + bits }

abbrev pub enter : Bool → Key → Sizing → Sizing
enter identity n z = record z { cache = jcache_put identity z.cache n z.len }

unfoldable pub size_atom : Noun → Sizing → Outcome Sizing
unfolding jam_len_add mat_len
size_atom n z = do l ← mat_len n; ok (jam_len_add (1 + l) z)

unfoldable pub size_ref : ℕ → Sizing → Outcome Sizing
unfolding jam_len_add mat_len
size_ref pos z = do l ← mat_len (direct pos); ok (jam_len_add (2 + l) z)

unfoldable pub size_known : Bool → Key → ℕ → Sizing → Outcome Sizing
unfolding bn_met size_atom size_ref jcache_put
size_known true n pos z = do
  bits ← bn_met n.noun
  if ltb bits (u64_bits pos) then size_atom n.noun (enter true n z) else size_ref pos z
size_known false n pos z = do
  atom ← mat_len n.noun
  ref ← mat_len (direct pos)
  ok (jam_len_add (if leb (1 + atom) (2 + ref) then 1 + atom else 2 + ref) z)

unfoldable pub size_entry : Bool → Key → Option ℕ → Sizing → Outcome Sizing
unfolding size_known
size_entry identity n none z = size_atom n.noun (enter identity n z)
size_entry identity n (some pos) z = size_known identity n pos z

unfoldable pub size_cell :
    Bool
    → Key
    → (Sizing → Outcome Sizing)
    → (Sizing → Outcome Sizing)
    → Option ℕ
    → Sizing
    → Outcome Sizing
unfolding size_ref jcache_put
size_cell identity n head tail none z = do
  left ← head (jam_len_add 2 (enter identity n z))
  tail left
size_cell identity n head tail (some pos) z = size_ref pos z

-- Once the length is too large nothing more is counted.
unfoldable pub do_jam_len : Bool → Held → Sizing → Outcome Sizing
unfolding jcache_get size_entry size_cell
do_jam_len identity (held_atom word n) z =
    let k = key_of (held_atom word n) in
    if not z.fits then ok z else size_entry identity k (jcache_get identity z.cache k) z
do_jam_len identity (held_cell word h t) z =
    let k = key_of (held_cell word h t) in
    if not z.fits
    then ok z
    else size_cell identity k (do_jam_len identity h) (do_jam_len identity t)
        (jcache_get identity z.cache k) z

-- `(bits + 7) / 8`, and at least 1
abbrev pub bytes_of : ℕ → ℕ
bytes_of bits = let bytes = (bits + 7) / 8 in if bytes == 0 then 1 else bytes

-- The byte count, or `none` where the code returns -1. A null `out_bytes` is not modelled.
abbrev pub checked_size : ℕ → Sizing → Option ℕ
checked_size max_bytes z =
    if not z.fits
    then none
    else if leb (bytes_of z.len) max_bytes
    then some (bytes_of z.len)
    else none

unfoldable pub jam_size_checked : Bool → Held → ℕ → Outcome (Option ℕ)
unfolding do_jam_len jcache_init
jam_size_checked identity n max_bytes =
    if (max_bytes == 0) || ltb (limb_max / 8) max_bytes then ok none else do
      z ←
          do_jam_len identity n
            (record { len = 0; max_bits = max_bytes * 8; fits = true; cache = jcache_init })
      ok (checked_size max_bytes z)

-- JAM_MAX_BYTES
abbrev pub jam_max_bytes : ℕ
jam_max_bytes = 16384 * 8

-- The bytes are those of the buffer, and so many of them; `none` where the code returns -1.
abbrev pub encoded_bytes : ℕ → Jambuf → Option (List ℕ × ℕ)
encoded_bytes checked b =
    let bytes = bytes_of b.cur in
    if not (bytes == checked) || ltb jam_max_bytes bytes then none else some (b.buf, bytes)

unfoldable pub encode_checked : Bool → Held → Option ℕ → Outcome (Option (List ℕ × ℕ))
unfolding jam_encode
encode_checked identity n none = ok none
encode_checked identity n (some checked) = do
  b ← jam_encode identity n
  ok (encoded_bytes checked b)

-- With `identity` set this is `jam_encode_bytes_identity`.
unfoldable pub jam_encode_bytes_checked : Bool → Held → Outcome (Option (List ℕ × ℕ))
unfolding jam_size_checked encode_checked
jam_encode_bytes_checked identity n =
    jam_size_checked identity n jam_max_bytes >>= encode_checked identity n
