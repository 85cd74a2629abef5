-- ===== src/Ingress/Bytes.antt =====
-- Little-endian fields of i2_ingress.c in an array of bytes.
use trinitite.Base.{ℕ, zero, suc, ◌+◌, ◌*◌, ◌/◌, ◌%◌, ◌^◌, bit_or, List, [], ◌∷◌, get_or, set}

-- A byte of an array.
abbrev pub byte_at : List ℕ → ℕ → ℕ
byte_at p i = get_or p i 0

unfoldable pub le16 : List ℕ → ℕ → ℕ
le16 p off = bit_or (byte_at p off) (byte_at p (off + 1) * 2 ^ 8)

-- `n` rounds from round `i`.
unfoldable pub le64_loop : ℕ → ℕ → ℕ → List ℕ → ℕ → ℕ
le64_loop zero i v p off = v
le64_loop (suc n) i v p off =
    le64_loop n (suc i) (bit_or v (byte_at p (off + i) * 2 ^ (i * 8))) p off

unfoldable pub le64 : List ℕ → ℕ → ℕ
unfolding le64_loop
le64 p off = le64_loop 8 0 0 p off

unfoldable pub put16 : List ℕ → ℕ → ℕ → List ℕ
put16 p off value = set (set p off (value % 256)) (off + 1) (value / 2 ^ 8 % 256)

unfoldable pub put64_loop : ℕ → ℕ → List ℕ → ℕ → ℕ → List ℕ
put64_loop zero i p off value = p
put64_loop (suc n) i p off value =
    put64_loop n (suc i) (set p (off + i) (value / 2 ^ (i * 8) % 256)) off value

unfoldable pub put64 : List ℕ → ℕ → ℕ → List ℕ
unfolding put64_loop
put64 p off value = put64_loop 8 0 p off value

-- Bytes that are stored one after the other.
unfoldable pub write_bytes : List ℕ → ℕ → List ℕ → List ℕ
write_bytes p off [] = p
write_bytes p off (b ∷ bs) = write_bytes (set p off b) (suc off) bs
