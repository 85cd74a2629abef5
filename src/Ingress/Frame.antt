-- ===== src/Ingress/Frame.antt =====
-- The sender's side of a frame, `i2_frame_encode`: the bytes that it leaves in the caller's array.
use native.Mathlib.Nat.{one-le-pow}
use trinitite.Base.{
  ℕ, zero, suc, ◌+◌, ◌*◌, ◌/◌, ◌%◌, ◌^◌, ◌≤◌, ◌<◌, bit_or, ◌≡◌, refl, sym, ap, subst, ◌∙◌, false,
  ◌||◌, Option, none, some, List, [], ◌∷◌, ◌++◌, arith, ltb, ◌==◌, if◌then◌else◌, length, set, take,
  length-set, append_assoc, append-nil,
}
use trinitite.Base.Bits.{bit_or-shifted, bit_or_comm}
use trinitite.Ingress.Bytes.{le64_loop, le64, put16, put64_loop, put64, write_bytes}
use trinitite.Ingress.Receiver.{frame_header_size, frame_max_payload, magic}
use trinitite.Ingress.Verified.{take-set_next}

-- `payload` has `len` bytes, `out` has at least `out_cap`; the array and the number of bytes of the frame.
unfoldable pub i2_frame_encode : (List ℕ → List ℕ) → List ℕ → List ℕ → ℕ → Option (List ℕ × ℕ)
i2_frame_encode blake3_hash payload out out_cap =
    let len : ℕ = length payload in
    let total : ℕ = (frame_header_size + len) % 2 ^ 64 in
    if (len == 0) || ltb frame_max_payload len || ltb out_cap total
    then none
    else (let o₁ : List ℕ = write_bytes out 0 magic in
        let o₂ : List ℕ = put16 o₁ 8 1 in
        let o₃ : List ℕ = put16 o₂ 10 0 in
        let o₄ : List ℕ = put16 o₃ 12 frame_header_size in
        let o₅ : List ℕ = put16 o₄ 14 0 in
        let o₆ : List ℕ = put64 o₅ 16 len in
        let o₇ : List ℕ = write_bytes o₆ 24 (blake3_hash payload) in
        some (write_bytes o₇ frame_header_size payload, total))

-- The bytes of a number, `n` of them from byte `i` on.
abbrev pub le_bytes : ℕ → ℕ → ℕ → List ℕ
le_bytes zero i v = []
le_bytes (suc n) i v = v / 2 ^ (i * 8) % 256 ∷ le_bytes n (suc i) v

-- The fields up to the length.
abbrev pub fixed_fields : List ℕ
fixed_fields = magic ++ (1 ∷ 0 ∷ 0 ∷ 0 ∷ 56 ∷ 0 ∷ 0 ∷ 0 ∷ [])

abbrev pub header_bytes : (List ℕ → List ℕ) → List ℕ → List ℕ
header_bytes blake3_hash payload =
    fixed_fields ++ (le_bytes 8 0 (length payload) ++ blake3_hash payload)

-- The first `off` bytes of the array are `done`.
record Filled (out : List ℕ) (room off : ℕ) (done : List ℕ) : Type 0 where
  size : room ≤ length out
  filled : take off out ≡ done

write_bytes-Filled :
    (bs out done : List ℕ) (room off end : ℕ)
    → end ≡ off + length bs
    → end ≤ room
    → Filled out room off done
    → Filled (write_bytes out off bs) room end (done ++ bs)
unfolding write_bytes
write_bytes-Filled [] out done room off end e l f = record {
  size = f.size;
  filled = ap (λ k. take k out) (e ∙ omega arith) ∙ f.filled ∙ sym (append-nil done);
}
write_bytes-Filled (b ∷ bs) out done room off end e l f =
    let next : Filled (set out off b) room (suc off) (done ++ (b ∷ [])) = record {
      size = omega (arith, f.size, length-set out off b);
      filled =
          take-set_next off out b (omega (arith, f.size, e, l)) ∙ ap (λ r. r ++ (b ∷ [])) f.filled;
    } in
    subst (Filled (write_bytes (set out off b) (suc off) bs) room end)
      (append_assoc done (b ∷ []) bs)
      (write_bytes-Filled bs (set out off b) (done ++ (b ∷ [])) room (suc off) end
        (omega (arith, e)) l next)

put64-write_bytes : (p : List ℕ) (v : ℕ) → put64 p 16 v ≡ write_bytes p 16 (le_bytes 8 0 v)
unfolding put64 put64_loop write_bytes
put64-write_bytes p v = refl

put16-write_bytes :
    (p : List ℕ) (off v : ℕ) → put16 p off v ≡ write_bytes p off (v % 256 ∷ v / 2 ^ 8 % 256 ∷ [])
unfolding put16 write_bytes
put16-write_bytes p off v = ap (λ k. set (set p off (v % 256)) k (v / 256 % 256)) (omega arith)

put16-Filled :
    (out done : List ℕ) (room off end v : ℕ)
    → end ≡ off + 2
    → end ≤ room
    → Filled out room off done
    → Filled (put16 out off v) room end (done ++ (v % 256 ∷ v / 2 ^ 8 % 256 ∷ []))
put16-Filled out done room off end v e l f =
    subst (λ p. Filled p room end (done ++ (v % 256 ∷ v / 2 ^ 8 % 256 ∷ [])))
      (sym (put16-write_bytes out off v))
      (write_bytes-Filled (v % 256 ∷ v / 2 ^ 8 % 256 ∷ []) out done room off end e l f)

-- The header in the array, for a payload that fits.
header-Filled :
    (out : List ℕ) (room len : ℕ)
    → frame_header_size ≤ room
    → room ≤ length out
    → Filled
        (put64
          (put16
            (put16 (put16 (put16 (write_bytes out 0 magic) 8 1) 10 0) 12 frame_header_size)
            14
            0)
          16
          len)
        room
        24
        (fixed_fields ++ le_bytes 8 0 len)
header-Filled out room len l size =
    let f₀ : Filled out room 0 [] = record { size = size; filled = refl } in
    let f₁ = write_bytes-Filled magic out [] room 0 8 refl (omega (arith, l)) f₀ in
    let f₂ = put16-Filled _ _ room 8 10 1 refl (omega (arith, l)) f₁ in
    let f₃ = put16-Filled _ _ room 10 12 0 refl (omega (arith, l)) f₂ in
    let f₄ = put16-Filled _ _ room 12 14 frame_header_size refl (omega (arith, l)) f₃ in
    let f₅ = put16-Filled _ _ room 14 16 0 refl (omega (arith, l)) f₄ in
    subst (λ p. Filled p room 24 (fixed_fields ++ le_bytes 8 0 len)) (sym (put64-write_bytes _ len))
      (write_bytes-Filled (le_bytes 8 0 len) _ fixed_fields room 16 24 refl (omega (arith, l)) f₅)

-- A frame: the bytes of the header and the payload after them.
pub i2_frame_encode-eq :
    (blake3_hash : List ℕ → List ℕ) (payload out : List ℕ) (out_cap : ℕ)
    → length (blake3_hash payload) ≡ 32
    → 0 < length payload
    → length payload ≤ frame_max_payload
    → frame_header_size + length payload ≤ out_cap
    → out_cap ≤ length out
    → (array : List ℕ) × (i2_frame_encode blake3_hash payload out out_cap
        ≡ some (array, frame_header_size + length payload))
      × (take (frame_header_size + length payload) array
          ≡ header_bytes blake3_hash payload ++ payload)
unfolding i2_frame_encode
i2_frame_encode-eq blake3_hash payload out out_cap hash some_bytes fits room size =
    let len : ℕ = length payload in
    let f₇ =
      write_bytes-Filled (blake3_hash payload) _ (fixed_fields ++ le_bytes 8 0 len) out_cap 24
        frame_header_size (omega (arith, hash)) (omega (arith, room))
        (header-Filled out out_cap len (omega (arith, room)) size) in
    let f₈ =
      write_bytes-Filled payload _ _ out_cap frame_header_size (frame_header_size + len) refl room
        f₇ in
    let whole : (frame_header_size + len) % 2 ^ 64 ≡ frame_header_size + len =
      omega (arith, fits) in
    let guard : ((len == 0) || ltb frame_max_payload len || ltb out_cap (frame_header_size + len))
        ≡ false =
      ground (arith, some_bytes, fits, room) in
    (_, rw (whole, guard) refl, f₈.filled)

-- One round of `le64`.
abbrev byte_or : ℕ → ℕ → ℕ → ℕ
byte_or v k acc = bit_or acc (v / 2 ^ k % 256 * 2 ^ k)

or_byte :
    (k q v : ℕ) → v % q ≡ v / 2 ^ k % 256 * 2 ^ k + v % 2 ^ k → byte_or v k (v % 2 ^ k) ≡ v % q
or_byte k q v e =
    bit_or_comm (v % 2 ^ k) (v / 2 ^ k % 256 * 2 ^ k)
    ∙ bit_or-shifted k (v / 2 ^ k % 256) (v % 2 ^ k) (omega (arith, one-le-pow k 2 (omega arith)))
    ∙ sym e

le64-rounds :
    (v : ℕ)
    → v < 2 ^ 64
    → byte_or v 56 (
        byte_or v 48
          (byte_or v 40 (byte_or v 32 (byte_or v 24 (byte_or v 16 (byte_or v 8 (byte_or v 0 0)))))))
      ≡ v
le64-rounds v h =
    let none_yet : v % 2 ^ 0 ≡ 0 = omega arith in
    let e₀ : byte_or v 0 0 ≡ v % 2 ^ 8 =
      ap (byte_or v 0) (sym none_yet) ∙ or_byte 0 (2 ^ 8) v (omega arith) in
    let e₁ : byte_or v 8 (v % 2 ^ 8) ≡ v % 2 ^ 16 = or_byte 8 (2 ^ 16) v (omega arith) in
    let e₂ : byte_or v 16 (v % 2 ^ 16) ≡ v % 2 ^ 24 = or_byte 16 (2 ^ 24) v (omega arith) in
    let e₃ : byte_or v 24 (v % 2 ^ 24) ≡ v % 2 ^ 32 = or_byte 24 (2 ^ 32) v (omega arith) in
    let e₄ : byte_or v 32 (v % 2 ^ 32) ≡ v % 2 ^ 40 = or_byte 32 (2 ^ 40) v (omega arith) in
    let e₅ : byte_or v 40 (v % 2 ^ 40) ≡ v % 2 ^ 48 = or_byte 40 (2 ^ 48) v (omega arith) in
    let e₆ : byte_or v 48 (v % 2 ^ 48) ≡ v % 2 ^ 56 = or_byte 48 (2 ^ 56) v (omega arith) in
    let e₇ : byte_or v 56 (v % 2 ^ 56) ≡ v % 2 ^ 64 = or_byte 56 (2 ^ 64) v (omega arith) in
    ap (byte_or v 56) (
      ap (byte_or v 48) (
        ap (byte_or v 40) (
          ap (byte_or v 32)
            (ap (byte_or v 24) (ap (byte_or v 16) (ap (byte_or v 8) (e₀) ∙ e₁) ∙ e₂) ∙ e₃)
          ∙ e₄)
        ∙ e₅)
      ∙ e₆)
    ∙ e₇
    ∙ omega (arith, h)

-- `le64` reads the length that `put64` wrote.
pub le64-le_bytes :
    (v : ℕ) (rest : List ℕ) → v < 2 ^ 64 → le64 (fixed_fields ++ (le_bytes 8 0 v ++ rest)) 16 ≡ v
unfolding le64 le64_loop
le64-le_bytes v rest h = le64-rounds v h
