-- ===== src/Jam/Rub.antt =====
-- `rub`: reading the `mat` code of an atom back.
use native.Mathlib.Nat.{
  pow-suc, one-le-pow, pow-le-pow_right, mod-lt, mod-eq_of_lt, mod-add-div', div-eq_of_lt,
  add-mul-mod_self_right, div-eq_of_lt-le,
}
use trinitite.Base.{
  ℕ, zero, suc, ◌+◌, ◌-◌, ◌*◌, ◌/◌, ◌%◌, ◌^◌, ◌≤◌, ◌<◌, ◌≡◌, refl, ap, ap₂, sym, subst, ◌∙◌, List,
  [], ◌∷◌, ◌++◌, arith, length, replicate, Bool-cases, true, false, ltb, ltb_of_le, leb, bit_or,
  inl, inr, if◌then◌else◌, if-cases, ◌==◌,
}
use trinitite.Base.Bits.{bit_or-shifted}
use trinitite.Base.Outcome.{Outcome, ok, crash, fault, spent, ◌>>=◌}
use trinitite.Noun.{Noun, direct, indirect, cell}
use trinitite.Noun.Limbs.{limb_base, value, IsLimbs}
use trinitite.Noun.Atom.{val, IsAtom, IsAtom-val_injective}
use trinitite.Bignum.Scratch.{max_limbs, bn_normalize, bn_normalize-Yields}
use trinitite.Bignum.Met.{HasBits, HasBits-le}
use trinitite.Jam.Bits.{
  bit, limb_bit, put_bit, limb_bit-eq-bit, value-put_bit, put_bit-IsLimbs, length-put_bit, new_limb,
}
use trinitite.Jam.Writer.{Reads, Reads-append, Reads-split, bits_of, length-bits_of}
use trinitite.Jam.Mat.{mat_bits, length-mat_bits}

-- `cue` asks this of atoms only.
unfoldable pub atom_bit_at : Noun → ℕ → ℕ
unfolding limb_bit
atom_bit_at (direct v) pos = if ltb pos 63 then bit v pos else 0
atom_bit_at (indirect l) pos = limb_bit l pos
atom_bit_at (cell h t) pos = 0

-- The loop over the leading zeros, which gives their number and the position after the one. It
-- crashes at the 65th, so 66 rounds are enough.
unfoldable pub rub_zeros : ℕ → Noun → ℕ → ℕ → Outcome (ℕ × ℕ)
unfolding atom_bit_at
rub_zeros zero a cur z = spent
rub_zeros (suc fuel) a cur z =
    let rest = rub_zeros fuel a (suc cur) (suc z) in
    if atom_bit_at a cur == 0
    then if ltb 64 (suc z) then crash "cue: malformed mat encoding" else rest
    else ok (z, suc cur)

-- `lbits |= bit << i`, with `left` rounds to go
unfoldable pub read_word : Noun → ℕ → ℕ → ℕ → ℕ → ℕ
unfolding atom_bit_at
read_word a cur i zero lbits = lbits
read_word a cur i (suc left) lbits =
    read_word a (suc cur) (suc i) left (bit_or lbits (atom_bit_at a cur * 2 ^ i))

-- `scratch[i] = 0` from `i` on, in an array of `capacity` limbs: the limbs that are cleared.
unfoldable pub clear_limbs : ℕ → ℕ → ℕ → Outcome (List ℕ)
clear_limbs capacity zero i = ok []
clear_limbs capacity (suc left) i =
    if ltb i capacity then (clear_limbs capacity left (suc i) >>= λ s. ok (0 ∷ s)) else fault

-- `scratch[i >> 6] |= bit << (i & 63)` in the limbs that are cleared
unfoldable pub or_limb : List ℕ → ℕ → ℕ → Outcome (List ℕ)
unfolding put_bit
or_limb scratch i b = if ltb (i / 64) (length scratch) then ok (put_bit scratch i b) else fault

unfoldable pub read_limbs : Noun → ℕ → ℕ → ℕ → List ℕ → Outcome (List ℕ)
unfolding atom_bit_at or_limb
read_limbs a cur i zero scratch = ok scratch
read_limbs a cur i (suc left) scratch =
    or_limb scratch i (atom_bit_at a cur) >>= read_limbs a (suc cur) (suc i) left

-- CUE_RUB_MAX_LIMBS
abbrev pub rub_max_limbs : ℕ
rub_max_limbs = 16384

-- `(len + 63) / 64` in 64 bits
abbrev pub limb_count : ℕ → ℕ
limb_count len = (len + 63) % limb_base / 64

-- The limbs of the scratch array: the one on the stack, or the one in high memory.
abbrev pub rub_capacity : ℕ → ℕ
rub_capacity limbs = if leb limbs max_limbs then max_limbs else rub_max_limbs

-- The bits of the atom, by way of the scratch array.
unfoldable pub rub_limbs : Noun → ℕ → ℕ → ℕ → Outcome (Noun × ℕ)
unfolding clear_limbs read_limbs bn_normalize
rub_limbs a cur len size = clear_limbs (rub_capacity size) size 0 >>= λ zeros.
    read_limbs a cur 0 len zeros >>= λ scratch. bn_normalize scratch size >>= λ k. ok (k, cur + len)

-- From the length on. The sum wraps to 0 limbs for the 63 longest lengths, and then the code
-- returns 0 at once.
unfoldable pub rub_atom : Noun → ℕ → ℕ → Outcome (Noun × ℕ)
unfolding rub_limbs
rub_atom a cur len =
    if limb_count len == 0
    then ok (direct 0, cur)
    else if ltb rub_max_limbs (limb_count len)
    then crash "cue: atom too large"
    else rub_limbs a cur len (limb_count len)

-- From the delimiter on, after `z` zeros. The length is a word.
unfoldable pub rub_length : Noun → ℕ × ℕ → Outcome (Noun × ℕ)
unfolding read_word rub_atom
rub_length a (zero, cur) = ok (direct 0, cur)
rub_length a (suc below, cur) =
    rub_atom a (cur + below) (bit_or (1 * 2 ^ below) (read_word a cur 0 below 0) % limb_base)

unfoldable pub do_rub : Noun → ℕ → Outcome (Noun × ℕ)
unfolding rub_zeros rub_length
do_rub a cur = rub_zeros 66 a cur 0 >>= rub_length a

-- The bits that are read are those of the number of the atom.
pub atom_bit_at-eq-bit : (a : Noun) (i : ℕ) → IsAtom a → atom_bit_at a i ≡ bit (val a) i
unfolding atom_bit_at
atom_bit_at-eq-bit (direct v) i h =
    if-cases (λ (x : ℕ). x ≡ bit v i) (ltb i 63) (λ y. refl)
      (λ n. omega (
        arith,
        div-eq_of_lt {n = v} {m = 2 ^ i} (
            omega (
              arith,
              h,
              pow-le-pow_right {n = 2} (omega arith) {i = 63} {j = i} (ground (arith, n)),
            )),
      ))
atom_bit_at-eq-bit (indirect l) i h = limb_bit-eq-bit l i h.0
atom_bit_at-eq-bit (cell x y) i h = absurd h

low-suc : (v i : ℕ) → v % 2 ^ i + bit v i * 2 ^ i ≡ v % 2 ^ suc i
low-suc v i =
    let r = v % 2 ^ i in
    let q = v / 2 ^ i in
    let small : r + q % 2 * 2 ^ i < 2 ^ suc i =
      below r (q % 2) (2 ^ i) (2 ^ suc i) (mod-lt v (one-le-pow i 2 (omega arith))) (omega arith)
        (pow-suc 2 i) in
    let whole : r + q % 2 * 2 ^ i + q / 2 * 2 ^ suc i ≡ v = omega (
      arith,
      ap (λ (t : ℕ). q / 2 * t) (pow-suc 2 i),
      mod-add-div' v (2 ^ i),
      ap (λ (t : ℕ). t * 2 ^ i) (halves q),
    ) in
    sym (mod-eq_of_lt small)
    ∙ sym (add-mul-mod_self_right (r + q % 2 * 2 ^ i) (q / 2) (2 ^ suc i))
    ∙ ap (λ (t : ℕ). t % 2 ^ suc i) whole
  where
    halves : (q : ℕ) → q ≡ q / 2 * 2 + q % 2
    halves q = omega arith

    below : (r b m n : ℕ) → r < m → b < 2 → n ≡ m * 2 → r + b * m < n
    below r zero m n h k e = omega (arith, h, e)
    below r (suc zero) m n h k e = omega (arith, h, e)
    below r (suc (suc b)) m n h k e = absurd (omega (arith, k))

rub_zeros-eq :
    (a : Noun) (f cur z j n : ℕ)
    → n < f
    → z + n ≤ 64
    → Reads (atom_bit_at a) cur (bits_of (λ i. 0) j n ++ (1 ∷ []))
    → rub_zeros f a cur z ≡ ok (z + n, suc (cur + n))
unfolding rub_zeros
rub_zeros-eq a zero cur z j n p q r = absurd (omega (arith, p))
rub_zeros-eq a (suc f) cur z j zero p q r =
    rw r.0 (ap₂ (λ x y. ok (x, y)) (omega arith) (omega arith))
rub_zeros-eq a (suc f) cur z j (suc n) p q r =
    rw (r.0, ltb_of_le 64 (suc z) (omega (arith, q)))
      (rub_zeros-eq a f (suc cur) (suc z) (suc j) n (omega (arith, p)) (omega (arith, q)) r.1
        ∙ ap₂ (λ x y. ok (x, y)) (omega arith) (omega arith))

read_word-eq :
    (a : Noun) (v cur i n lbits : ℕ)
    → Reads (atom_bit_at a) cur (bits_of (bit v) i n)
    → lbits ≡ v % 2 ^ i
    → read_word a cur i n lbits ≡ v % 2 ^ (i + n)
unfolding read_word
read_word-eq a v cur i zero lbits r e = e ∙ ap (λ (t : ℕ). v % 2 ^ t) (omega arith)
read_word-eq a v cur i (suc n) lbits r e =
    read_word-eq a v (suc cur) (suc i) n (bit_or lbits (atom_bit_at a cur * 2 ^ i)) r.1 (
      ap₂ (λ (x y : ℕ). bit_or x (y * 2 ^ i)) e r.0
      ∙ new_limb (v % 2 ^ i) (bit v i) i (mod-lt v (one-le-pow i 2 (omega arith)))
      ∙ low-suc v i)
    ∙ ap (λ (t : ℕ). v % 2 ^ t) (omega arith)

ltb_of_lt : (a b : ℕ) → a < b → ltb a b ≡ true
ltb_of_lt a b h = ground arith

clear_limbs-eq :
    (capacity n i : ℕ) → i + n ≤ capacity → clear_limbs capacity n i ≡ ok (replicate n 0)
unfolding clear_limbs
clear_limbs-eq capacity zero i h = refl
clear_limbs-eq capacity (suc n) i h =
    rw
      (
        ltb_of_lt i capacity (omega (arith, h)),
        clear_limbs-eq capacity n (suc i) (omega (arith, h)),
      )
      refl

-- The array after the reads, in a scratch array with room for them.
abbrev filled : Noun → ℕ → ℕ → ℕ → List ℕ → List ℕ
filled a cur i zero scratch = scratch
filled a cur i (suc left) scratch =
    filled a (suc cur) (suc i) left (put_bit scratch i (atom_bit_at a cur))

read_limbs-eq :
    (a : Noun) (cur i n : ℕ) (s : List ℕ)
    → i + n ≤ 64 * length s
    → read_limbs a cur i n s ≡ ok (filled a cur i n s)
unfolding read_limbs
read_limbs-eq a cur i zero s h = refl
read_limbs-eq a cur i (suc n) s h = rw (ltb_of_lt (i / 64) (length s) (omega (arith, h))) (
    read_limbs-eq a (suc cur) (suc i) n (put_bit s i (atom_bit_at a cur))
      (omega (arith, h, length-put_bit s i (atom_bit_at a cur))))

rub_capacity-le : (limbs : ℕ) → ltb rub_max_limbs limbs ≡ false → 0 + limbs ≤ rub_capacity limbs
rub_capacity-le limbs h = ground (arith, h)

length-replicate : (n : ℕ) → length (replicate {A = ℕ} n 0) ≡ n
length-replicate zero = refl
length-replicate (suc n) = ap suc (length-replicate n)

-- Behind the two tests of the size, the reads stay in the scratch array.
pub rub_limbs-eq :
    (a : Noun) (cur len size : ℕ)
    → ltb rub_max_limbs size ≡ false
    → len ≤ 64 * size
    → rub_limbs a cur len size
      ≡ (bn_normalize (filled a cur 0 len (replicate size 0)) size >>= λ k. ok (k, cur + len))
unfolding rub_limbs
rub_limbs-eq a cur len size h k =
    let done : Noun → Outcome (Noun × ℕ) = λ n. ok (n, cur + len) in
    let normal : List ℕ → Outcome (Noun × ℕ) = λ s. bn_normalize s size >>= done in
    let fill : List ℕ → Outcome (Noun × ℕ) = λ zeros. read_limbs a cur 0 len zeros >>= normal in
    ap (λ o. o >>= fill) (clear_limbs-eq (rub_capacity size) size 0 (rub_capacity-le size h))
    ∙ ap (λ o. o >>= normal)
        (read_limbs-eq a cur 0 len (replicate size 0) (omega (arith, k, length-replicate size)))

-- The scratch array `s` holds the low `i` bits of `v`.
record Holds (v i size : ℕ) (s : List ℕ) : Type 0 where
  limbs : IsLimbs s
  width : length s ≡ size
  value_eq : value s ≡ v % 2 ^ i

filled-Holds :
    (a : Noun) (v size cur i n : ℕ) (s : List ℕ)
    → Reads (atom_bit_at a) cur (bits_of (bit v) i n)
    → i + n ≤ 64 * size
    → Holds v i size s
    → Holds v (i + n) size (filled a cur i n s)
filled-Holds a v size cur i zero s r w h = subst (λ (t : ℕ). Holds v t size s) (omega arith) h
filled-Holds a v size cur i (suc n) s r w h =
    subst (λ (t : ℕ). Holds v t size (filled a cur i (suc n) s)) (omega arith)
      (filled-Holds a v size (suc cur) (suc i) n (put_bit s i (atom_bit_at a cur)) r.1
        (omega (arith, w)) next)
  where
    low : value s < 2 ^ i
    low = subst (λ (t : ℕ). t < 2 ^ i) (sym h.value_eq) (mod-lt v (one-le-pow i 2 (omega arith)))

    next : Holds v (suc i) size (put_bit s i (atom_bit_at a cur))
    next = record {
      limbs =
          put_bit-IsLimbs s i (atom_bit_at a cur) h.limbs low
            (subst (λ (t : ℕ). t < 2) (sym r.0) (omega arith));
      width = length-put_bit s i (atom_bit_at a cur) ∙ h.width;
      value_eq =
          value-put_bit s i (atom_bit_at a cur) low (omega (arith, w, h.width))
          ∙ ap₂ (λ (x y : ℕ). x + y * 2 ^ i) h.value_eq r.0
          ∙ low-suc v i;
    }

-- The value of an array of zeros.
zeros-Holds : (v n : ℕ) → Holds v 0 n (replicate n 0)
zeros-Holds v zero = record { limbs = tt; width = refl; value_eq = omega arith }
zeros-Holds v (suc n) =
    let h = zeros-Holds v n in
    record {
      limbs = (omega arith, h.limbs);
      width = ap suc h.width;
      value_eq = omega (arith, h.value_eq);
    }

limb_count_bounds :
    (len : ℕ)
    → 0 < len
    → len ≤ 64 * rub_max_limbs
    → (0 < limb_count len) × (limb_count len ≤ rub_max_limbs) × (len ≤ 64 * limb_count len)
limb_count_bounds len h k = omega (arith, h, k)

rub_atom-eq :
    (a k : Noun) (cur m : ℕ)
    → IsAtom k
    → HasBits (val k) m
    → 0 < m
    → m ≤ 64 * rub_max_limbs
    → Reads (atom_bit_at a) cur (bits_of (bit (val k)) 0 m)
    → rub_atom a cur m ≡ ok (k, cur + m)
unfolding rub_atom
rub_atom-eq a k cur m ik hb p q r =
    let lim = limb_count_bounds m p q in
    let size = limb_count m in
    let scratch = filled a cur 0 m (replicate size 0) in
    let h =
      filled-Holds a (val k) size cur 0 m (replicate size 0) r (omega (arith, lim.2))
        (zeros-Holds (val k) size) in
    let whole : value scratch ≡ val k =
      h.value_eq ∙ ap (λ (t : ℕ). val k % 2 ^ t) (omega arith) ∙ mod-eq_of_lt hb.0 in
    let y = bn_normalize-Yields scratch size (val k) h.limbs h.width lim.0 whole in
    let some_limb : (size == 0) ≡ false = ground (arith, lim.0) in
    let small = ltb_of_le rub_max_limbs size lim.1 in
    rw (some_limb, small)
      (rub_limbs-eq a cur m size small lim.2
        ∙ ap (λ o. o >>= λ x. ok (x, cur + m))
            (y.1 ∙ ap ok (IsAtom-val_injective y.0 k y.2 ik y.3)))

-- The number whose low bits these are, below its leading bit.
length_bits : (m b : ℕ) → 0 < m → HasBits m (suc b) → bit_or (1 * 2 ^ b) (m % 2 ^ b) ≡ m
length_bits m b p h =
    let one : m / 2 ^ b ≡ 1 =
      div-eq_of_lt-le (2 ^ b) (omega (arith, HasBits-le m (suc b) p h, pow-suc 2 b))
        (omega (arith, h.0, pow-suc 2 b)) in
    bit_or-shifted b 1 (m % 2 ^ b) (mod-lt m (one-le-pow b 2 (omega arith)))
    ∙ omega (arith, mod-add-div' m (2 ^ b), ap (λ (t : ℕ). t * 2 ^ b) one)

-- A length of at most 21 bits is announced by at most 21 zeros.
zeros_bound : (m b : ℕ) → HasBits m b → m ≤ 64 * rub_max_limbs → b ≤ 64
zeros_bound m b h k = elim (Bool-cases (ltb 64 b)) [
  | inl y ↦ absurd (
      omega (
        arith,
        h.1,
        k,
        pow-le-pow_right {n = 2} (omega arith) {i = 64} {j = b} (ground (arith, y)),
      ))
  | inr n ↦ ground (arith, n)
]

rub_length-eq :
    (a k : Noun) (cur m b : ℕ)
    → IsAtom k
    → HasBits (val k) (suc m)
    → HasBits (suc m) (suc b)
    → suc m ≤ 64 * rub_max_limbs
    → Reads (atom_bit_at a) cur (bits_of (bit (suc m)) 0 b ++ bits_of (bit (val k)) 0 (suc m))
    → rub_length a (suc b, cur) ≡ ok (k, cur + b + suc m)
unfolding rub_length
rub_length-eq a k cur m b ik hk hm q r =
    let parts =
      Reads-split (atom_bit_at a) cur (bits_of (bit (suc m)) 0 b) (bits_of (bit (val k)) 0 (suc m))
        r in
    let low : read_word a cur 0 b 0 ≡ suc m % 2 ^ b =
      read_word-eq a (suc m) cur 0 b 0 parts.0 (omega arith)
      ∙ ap (λ (t : ℕ). suc m % 2 ^ t) (omega arith) in
    let atom : Reads (atom_bit_at a) (cur + b) (bits_of (bit (val k)) 0 (suc m)) =
      subst (λ (t : ℕ). Reads (atom_bit_at a) (cur + t) (bits_of (bit (val k)) 0 (suc m)))
        (length-bits_of (bit (suc m)) 0 b) parts.1 in
    ap (λ (t : ℕ). rub_atom a (cur + b) t)
      (ap (λ (t : ℕ). bit_or (1 * 2 ^ b) t % limb_base) low
        ∙ ap (λ (t : ℕ). t % limb_base) (length_bits (suc m) b (omega arith) hm)
        ∙ mod-eq_of_lt (omega (arith, q)))
    ∙ rub_atom-eq a k (cur + b) (suc m) ik hk (omega arith) q atom

do_rub-zeros :
    (a : Noun) (cur n : ℕ)
    → n ≤ 64
    → Reads (atom_bit_at a) cur (bits_of (λ i. 0) 0 n ++ (1 ∷ []))
    → do_rub a cur ≡ rub_length a (n, suc (cur + n))
unfolding do_rub
do_rub-zeros a cur n h r =
    ap (λ o. o >>= rub_length a)
      (rub_zeros-eq a 66 cur 0 0 n (omega (arith, h)) (omega (arith, h)) r)
    ∙ ap (λ (t : ℕ). rub_length a (t, suc (cur + n))) {x = 0 + n} {y = n} (omega arith)

do_rub-suc :
    (a k : Noun) (cur m b : ℕ)
    → IsAtom k
    → HasBits (val k) (suc m)
    → HasBits (suc m) (suc b)
    → suc m ≤ 64 * rub_max_limbs
    → Reads (atom_bit_at a) cur (
        bits_of (λ i. 0) 0 (suc b)
        ++ ((1 ∷ []) ++ (bits_of (bit (suc m)) 0 b ++ bits_of (bit (val k)) 0 (suc m))))
    → do_rub a cur ≡ ok (k, cur + (suc b + suc (b + suc m)))
do_rub-suc a k cur m b ik hk hm q r =
    let zeros = bits_of (λ i. 0) 0 (suc b) in
    let rest = bits_of (bit (suc m)) 0 b ++ bits_of (bit (val k)) 0 (suc m) in
    let parts = Reads-split (atom_bit_at a) cur zeros (1 ∷ rest) r in
    let late : Reads (atom_bit_at a) (cur + suc b) (1 ∷ rest) =
      subst (λ (t : ℕ). Reads (atom_bit_at a) (cur + t) (1 ∷ rest))
        (length-bits_of (λ i. 0) 0 (suc b)) parts.1 in
    do_rub-zeros a cur (suc b) (zeros_bound (suc m) (suc b) hm q)
      (Reads-append (atom_bit_at a) cur zeros (1 ∷ []) parts.0 (parts.1.0, tt))
    ∙ rub_length-eq a k (suc (cur + suc b)) m b ik hk hm q late.1
    ∙ ap (λ (t : ℕ). ok (k, t)) (omega arith)

rub_length-zero : (a : Noun) (cur : ℕ) → rub_length a (0, cur) ≡ ok (direct 0, cur)
unfolding rub_length
rub_length-zero a cur = refl

-- What `do_mat` wrote is what `do_rub` reads.
pub do_rub-eq :
    (a k : Noun) (cur m b : ℕ)
    → IsAtom k
    → HasBits (val k) m
    → HasBits m b
    → m ≤ 64 * rub_max_limbs
    → Reads (atom_bit_at a) cur (mat_bits (val k) m b)
    → do_rub a cur ≡ ok (k, cur + length (mat_bits (val k) m b))
unfolding mat_bits
do_rub-eq a k cur zero b ik hk hm q r =
    let none_set : k ≡ direct 0 =
      IsAtom-val_injective k (direct 0) ik (omega arith) (omega (arith, hk.0)) in
    do_rub-zeros a cur 0 (omega arith) r
    ∙ rub_length-zero a (suc (cur + 0))
    ∙ ap₂ (λ x y. ok (x, y)) (sym none_set) (omega arith)
do_rub-eq a k cur (suc m) zero ik hk hm q r = absurd (omega (arith, hm.0))
do_rub-eq a k cur (suc m) (suc b) ik hk hm q r =
    let e : suc b - 1 ≡ b = omega arith in
    let read : Reads (atom_bit_at a) cur (fields b) =
      subst (λ (t : ℕ). Reads (atom_bit_at a) cur (fields t)) e r in
    do_rub-suc a k cur m b ik hk hm q read
    ∙ ap (λ (t : ℕ). ok (k, cur + t))
        (sym (length-mat_bits (val k) m (suc b) ∙ ap (λ (t : ℕ). suc b + suc (t + suc m)) e))
  where
    fields : ℕ → List ℕ
    fields t =
        bits_of (λ i. 0) 0 (suc b)
        ++ ((1 ∷ []) ++ (bits_of (bit (suc m)) 0 t ++ bits_of (bit (val k)) 0 (suc m)))
