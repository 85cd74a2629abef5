-- ===== src/Jam/Mat.antt =====
-- `mat`: the self-describing code of an atom, and the bits that the writer emits for it.
use native.Mathlib.Nat.{pow-suc}
use trinitite.Base.{
  ℕ, zero, suc, ◌+◌, ◌-◌, ◌*◌, ◌/◌, ◌^◌, ◌<◌, ◌≡◌, refl, ap₂, subst, List, [], ◌∷◌, ◌++◌, arith,
  length, length-append, Bool-cases, inl, inr, if◌then◌else◌, if-cases, ◌==◌,
}
use trinitite.Base.Outcome.{Outcome, ok, fault, ◌>>=◌, >>=-eq-ok}
use trinitite.Noun.{Noun, direct, indirect, cell}
use trinitite.Noun.Limbs.{value}
use trinitite.Noun.Atom.{val, IsAtom}
use trinitite.Bignum.Met.{bn_met, HasBits, bn_met-HasBits, HasBits-le}
use trinitite.Jam.Bits.{bit, limb_bit, limb_bit-eq-bit}
use trinitite.Jam.Writer.{
  Jambuf, jb_write, write_loop, jb_write_n, IsBuf, Emits, Emits-trans, jb_write-Emits, bits_of,
  length-bits_of, write_loop-Emits,
}

-- No word in the store has the tag of a cell, so its lookup ends in a null pointer.
unfoldable pub jb_write_atom : Jambuf → Noun → ℕ → Outcome Jambuf
unfolding jb_write_n limb_bit
jb_write_atom b (direct v) n = jb_write_n b v n
jb_write_atom b (indirect l) n = write_loop (limb_bit l) b 0 n
jb_write_atom b (cell h t) n = fault

-- `while (v) { c++; v >>= 1; }`, with fuel: a 64-bit word takes at most 64 rounds.
unfoldable pub count_bits : ℕ → ℕ → ℕ
count_bits zero v = 0
count_bits (suc fuel) v = let rest = count_bits fuel (v / 2) in if v == 0 then 0 else suc rest

unfoldable pub u64_bits : ℕ → ℕ
unfolding count_bits
u64_bits v = count_bits 64 v

-- The bits of the code of an atom of `a` bits.
unfoldable pub coded_len : ℕ → ℕ
unfolding u64_bits
coded_len zero = 1
coded_len (suc a) = 2 * u64_bits (suc a) + suc a

unfoldable pub mat_len : Noun → Outcome ℕ
unfolding bn_met coded_len
mat_len k = do a ← bn_met k; ok (coded_len a)

-- `b` zeros and a one, the low `b - 1` bits of the length `a`, and the atom.
unfoldable pub mat_fields : Jambuf → Noun → ℕ → ℕ → Outcome Jambuf
unfolding jb_write_atom
mat_fields jb k a b = do
  zeros ← write_loop (λ i. 0) jb 0 b
  mark ← jb_write zeros 1
  size ← jb_write_n mark a (b - 1)
  jb_write_atom size k a

unfoldable pub mat_sized : Jambuf → Noun → ℕ → Outcome Jambuf
unfolding mat_fields u64_bits
mat_sized jb k zero = jb_write jb 1
mat_sized jb k (suc a) = mat_fields jb k (suc a) (u64_bits (suc a))

unfoldable pub do_mat : Jambuf → Noun → Outcome Jambuf
unfolding mat_sized bn_met
do_mat jb k = bn_met k >>= mat_sized jb k

-- The code of a number `v` of `a` bits, where `a` is a number of `b` bits.
unfoldable pub mat_bits : ℕ → ℕ → ℕ → List ℕ
mat_bits v zero b = 1 ∷ []
mat_bits v (suc a) b =
    bits_of (λ i. 0) 0 b
    ++ ((1 ∷ []) ++ (bits_of (bit (suc a)) 0 (b - 1) ++ bits_of (bit v) 0 (suc a)))

count_bits-HasBits : (f v : ℕ) → v < 2 ^ f → HasBits v (count_bits f v)
unfolding count_bits
count_bits-HasBits zero v h = omega arith
count_bits-HasBits (suc f) v h =
    let ih = count_bits-HasBits f (v / 2) (omega (arith, h, pow-suc 2 f)) in
    if-cases (HasBits v) (v == 0) (λ y. ground (arith, y))
      (λ n. halved (count_bits f (v / 2)) (ground (arith, n)) ih)
  where
    halved : (c : ℕ) → 0 < v → HasBits (v / 2) c → HasBits v (suc c)
    halved c p h = elim (Bool-cases (v == 1)) [
      | inl y ↦ (omega (arith, pow-suc 2 c, h.0), ground (arith, pow-suc 2 c, h.1, y))
      | inr n ↦ (
        omega (arith, pow-suc 2 c, h.0),
        ground (arith, pow-suc 2 c, HasBits-le (v / 2) c (ground (arith, n)) h),
      )
    ]

pub u64_bits-HasBits : (v : ℕ) → v < 2 ^ 64 → HasBits v (u64_bits v)
unfolding u64_bits
u64_bits-HasBits v h = count_bits-HasBits 64 v h

bits_of-ext : (f g : ℕ → ℕ) → ((i : ℕ) → f i ≡ g i) → (i n : ℕ) → bits_of f i n ≡ bits_of g i n
bits_of-ext f g h i zero = refl
bits_of-ext f g h i (suc n) = ap₂ ◌∷◌ (h i) (bits_of-ext f g h (suc i) n)

limb_bit-lt : (l : List ℕ) (i : ℕ) → limb_bit l i < 2
unfolding limb_bit
limb_bit-lt l i = omega arith

pub jb_write_atom-Emits :
    (s : Jambuf) (k : Noun) (n : ℕ) {t : Jambuf}
    → IsBuf s
    → IsAtom k
    → jb_write_atom s k n ≡ ok t
    → Emits s t (bits_of (bit (val k)) 0 n)
unfolding jb_write_atom
jb_write_atom-Emits s (direct v) n h a e = write_loop-Emits (bit v) s 0 n h (λ j. omega arith) e
jb_write_atom-Emits s (indirect l) n {t} h a e =
    subst (Emits s t) (bits_of-ext (limb_bit l) (bit (value l)) (λ i. limb_bit-eq-bit l i a.0) 0 n)
      (write_loop-Emits (limb_bit l) s 0 n h (λ j. limb_bit-lt l j) e)
jb_write_atom-Emits s (cell x y) n h a e = absurd a

mat_fields-Emits :
    (s : Jambuf) (k : Noun) (a b : ℕ) {t : Jambuf}
    → IsBuf s
    → IsAtom k
    → mat_fields s k (suc a) b ≡ ok t
    → Emits s t (mat_bits (val k) (suc a) b)
unfolding mat_fields mat_bits
mat_fields-Emits s k a b h p e =
    let zeros = >>=-eq-ok (write_loop (λ i. 0) s 0 b) _ e in
    let first = write_loop-Emits (λ i. 0) s 0 b h (λ j. omega arith) zeros.1 in
    let mark = >>=-eq-ok (jb_write zeros.0 1) _ zeros.2 in
    let second = jb_write-Emits zeros.0 1 first.sound (omega arith) mark.1 in
    let size = >>=-eq-ok (jb_write_n mark.0 (suc a) (b - 1)) _ mark.2 in
    let third =
      write_loop-Emits (bit (suc a)) mark.0 0 (b - 1) second.sound (λ j. omega arith) size.1 in
    Emits-trans first (
      Emits-trans second
        (Emits-trans third (jb_write_atom-Emits size.0 k (suc a) third.sound p size.2)))

pub length-mat_bits : (v a b : ℕ) → length (mat_bits v (suc a) b) ≡ b + suc (b - 1 + suc a)
unfolding mat_bits
length-mat_bits v a b =
    let zeros = bits_of (λ i. 0) 0 b in
    let size = bits_of (bit (suc a)) 0 (b - 1) in
    let atom = bits_of (bit v) 0 (suc a) in
    omega (
      arith,
      length-append zeros (1 ∷ (size ++ atom)),
      length-append size atom,
      length-bits_of (λ i. 0) 0 b,
      length-bits_of (bit (suc a)) 0 (b - 1),
      length-bits_of (bit v) 0 (suc a),
    )

abbrev MatEmits : Jambuf → Jambuf → Noun → Type 0
MatEmits s t k =
    (a : ℕ) × (b : ℕ) × HasBits (val k) a × HasBits a b × Emits s t (mat_bits (val k) a b)

mat_bits-zero : {s t : Jambuf} (v : ℕ) → Emits s t (1 ∷ []) → Emits s t (mat_bits v 0 0)
unfolding mat_bits
mat_bits-zero v m = m

mat_sized-Emits :
    (s : Jambuf) (k : Noun) (a : ℕ) {t : Jambuf}
    → IsBuf s
    → IsAtom k
    → HasBits (val k) a
    → mat_sized s k a ≡ ok t
    → MatEmits s t k
unfolding mat_sized
mat_sized-Emits s k zero {t} h p hb e =
    (0, 0, hb, omega arith, mat_bits-zero (val k) (jb_write-Emits s 1 h (omega arith) e))
mat_sized-Emits s k (suc a) h p hb e =
    let m = mat_fields-Emits s k a (u64_bits (suc a)) h p e in
    let room : suc a < 2 ^ 64 =
      omega (arith, m.sound.room, m.moved, length-mat_bits (val k) a (u64_bits (suc a))) in
    (suc a, u64_bits (suc a), hb, u64_bits-HasBits (suc a) room, m)

-- What `do_mat` appends is the code of the number of the atom, with both lengths.
pub do_mat-Emits :
    (s : Jambuf) (k : Noun) {t : Jambuf} → IsBuf s → IsAtom k → do_mat s k ≡ ok t → MatEmits s t k
unfolding do_mat
do_mat-Emits s k {t} h p e =
    let m = bn_met-HasBits k p in
    mat_sized-Emits s k m.0 h p m.2 (subst (λ o. (o >>= mat_sized s k) ≡ ok t) m.1 e)
