-- ===== src/Bignum/Bitwise.antt =====
-- `bn_or`, `bn_and` and `bn_xor`: limb by limb.
use native.Mathlib.Nat.{pow-suc}
use Prim.Native.Nat.{differ}
use trinitite.Base.{
  ℕ, zero, suc, ◌+◌, ◌*◌, ◌/◌, ◌%◌, ◌^◌, ◌<◌, ◌≡◌, refl, sym, ap, ap₂, ◌∙◌, List, [], ◌∷◌, arith,
  length, ltb, min, max, bit_or, bit_and, bit_xor, if◌then◌else◌,
}
use trinitite.Base.Bits.{bit_or-halves, bit_and-halves, bit_xor-halves, bit_and-zero}
use trinitite.Base.Outcome.{Outcome, ◌>>=◌}
use trinitite.Noun.{Noun}
use trinitite.Noun.Limbs.{limb_base, value, IsLimbs}
use trinitite.Noun.Atom.{val, Yields}
use trinitite.Bignum.Scratch.{
  atom_limbs, bn_normalize, bn_normalize-Yields, Fits, scratch_of, atom_limbs-eq-ok,
  scratch_of-IsScratch,
}

-- The loop of `bn_or` and `bn_xor`: a limb past the end of an operand is read as 0.
unfoldable pub wide_loop : (ℕ → ℕ → ℕ) → List ℕ → List ℕ → List ℕ
wide_loop op [] [] = []
wide_loop op (x ∷ la) [] = op x 0 ∷ wide_loop op la []
wide_loop op [] (y ∷ lb) = op 0 y ∷ wide_loop op [] lb
wide_loop op (x ∷ la) (y ∷ lb) = op x y ∷ wide_loop op la lb

-- The loop of `bn_and`: the limbs that both operands have.
unfoldable pub narrow_loop : (ℕ → ℕ → ℕ) → List ℕ → List ℕ → List ℕ
narrow_loop op [] lb = []
narrow_loop op (x ∷ la) [] = []
narrow_loop op (x ∷ la) (y ∷ lb) = op x y ∷ narrow_loop op la lb

abbrev larger : ℕ → ℕ → ℕ
larger sa sb = if ltb sb sa then sa else sb

abbrev smaller : ℕ → ℕ → ℕ
smaller sa sb = if ltb sa sb then sa else sb

abbrev wide : (ℕ → ℕ → ℕ) → Noun → Noun → Outcome Noun
wide op a b = do
  la ← atom_limbs a
  lb ← atom_limbs b
  bn_normalize (wide_loop op la lb) (larger (length la) (length lb))

unfoldable pub bn_or : Noun → Noun → Outcome Noun
unfolding wide_loop atom_limbs bn_normalize
bn_or a b = wide bit_or a b

unfoldable pub bn_xor : Noun → Noun → Outcome Noun
unfolding wide_loop atom_limbs bn_normalize
bn_xor a b = wide bit_xor a b

unfoldable pub bn_and : Noun → Noun → Outcome Noun
unfolding narrow_loop atom_limbs bn_normalize
bn_and a b = do
  la ← atom_limbs a
  lb ← atom_limbs b
  bn_normalize (narrow_loop bit_and la lb) (smaller (length la) (length lb))

-- An operation on numbers that works bit by bit.
pub record Bitwise (op : ℕ → ℕ → ℕ) : Type 0 where
  pub bit : ℕ → ℕ → ℕ
  pub bit_lt : (a b : ℕ) → a < 2 → b < 2 → bit a b < 2
  pub none : op 0 0 ≡ 0
  pub halves : (a b : ℕ) → op a b ≡ op (a / 2) (b / 2) * 2 + bit (a % 2) (b % 2)

cons_eq : (x : ℕ) (l : List ℕ) → value (x ∷ l) ≡ x + value l * limb_base
cons_eq x l = omega arith

module _ (op : ℕ → ℕ → ℕ) (bits : Bitwise op) where
  op-lt : (k x y : ℕ) → x < 2 ^ k → y < 2 ^ k → op x y < 2 ^ k
  op-lt zero x y h j =
      let zx : x ≡ 0 = omega arith in
      let zy : y ≡ 0 = omega arith in omega (arith, bits.none, ap₂ op zx zy)
  op-lt (suc k) x y h j = omega (
    arith,
    bits.halves x y,
    bits.bit_lt (x % 2) (y % 2) (omega arith) (omega arith),
    op-lt k (x / 2) (y / 2) (omega (arith, pow-suc 2 k)) (omega (arith, pow-suc 2 k)),
    pow-suc 2 k,
  )

  -- The operation on the low and on the high part.
  op-split :
      (k x y u v : ℕ)
      → x < 2 ^ k
      → y < 2 ^ k
      → op (x + u * 2 ^ k) (y + v * 2 ^ k) ≡ op x y + op u v * 2 ^ k
  op-split zero x y u v h j =
      let zx : x ≡ 0 = omega arith in
      let zy : y ≡ 0 = omega arith in
      let xu : x + u * 2 ^ 0 ≡ u = omega (arith, zx) in
      let yv : y + v * 2 ^ 0 ≡ v = omega (arith, zy) in
      ap₂ op xu yv ∙ omega (arith, bits.none, ap₂ op zx zy)
  op-split (suc k) x y u v h j =
      let up = ap (λ (t : ℕ). u * t) (pow-suc 2 k) in
      let vp = ap (λ (t : ℕ). v * t) (pow-suc 2 k) in
      let low =
        op-split k (x / 2) (y / 2) u v (omega (arith, pow-suc 2 k)) (omega (arith, pow-suc 2 k)) in
      let xh : (x + u * 2 ^ suc k) / 2 ≡ x / 2 + u * 2 ^ k = omega (arith, up) in
      let yh : (y + v * 2 ^ suc k) / 2 ≡ y / 2 + v * 2 ^ k = omega (arith, vp) in
      let xl : (x + u * 2 ^ suc k) % 2 ≡ x % 2 = omega (arith, up) in
      let yl : (y + v * 2 ^ suc k) % 2 ≡ y % 2 = omega (arith, vp) in
      bits.halves (x + u * 2 ^ suc k) (y + v * 2 ^ suc k)
      ∙ omega (
        arith,
        ap₂ op xh yh,
        ap₂ bits.bit xl yl,
        low,
        bits.halves x y,
        ap (λ (t : ℕ). op u v * t) (pow-suc 2 k),
      )

  -- The operation on numbers with a lowest limb.
  op-limb :
      (m n x y u v w : ℕ)
      → m ≡ x + u * 2 ^ 64
      → n ≡ y + v * 2 ^ 64
      → x < limb_base
      → y < limb_base
      → w ≡ op u v
      → op x y + w * limb_base ≡ op m n
  op-limb m n x y u v w em en h j e =
      ap (λ (t : ℕ). op x y + t * limb_base) e ∙ sym (op-split 64 x y u v h j) ∙ sym (ap₂ op em en)

  value-wide_loop :
      (la lb : List ℕ)
      → IsLimbs la
      → IsLimbs lb
      → value (wide_loop op la lb) ≡ op (value la) (value lb)
  unfolding wide_loop
  value-wide_loop [] [] h j = sym bits.none
  value-wide_loop (x ∷ la) [] h j =
      cons_eq (op x 0) (wide_loop op la [])
      ∙ op-limb (value (x ∷ la)) 0 x 0 (value la) 0 _ (omega arith) refl h.0 (omega arith)
          (value-wide_loop la [] h.1 tt)
  value-wide_loop [] (y ∷ lb) h j =
      cons_eq (op 0 y) (wide_loop op [] lb)
      ∙ op-limb 0 (value (y ∷ lb)) 0 y 0 (value lb) _ refl (omega arith) (omega arith) j.0
          (value-wide_loop [] lb tt j.1)
  value-wide_loop (x ∷ la) (y ∷ lb) h j =
      cons_eq (op x y) (wide_loop op la lb)
      ∙ op-limb (value (x ∷ la)) (value (y ∷ lb)) x y (value la) (value lb) _ (omega arith)
          (omega arith) h.0 j.0 (value-wide_loop la lb h.1 j.1)

  wide_loop-IsLimbs : (la lb : List ℕ) → IsLimbs la → IsLimbs lb → IsLimbs (wide_loop op la lb)
  unfolding wide_loop
  wide_loop-IsLimbs [] [] h j = tt
  wide_loop-IsLimbs (x ∷ la) [] h j = (
    omega (arith, op-lt 64 x 0 (omega (arith, h.0)) (omega arith)),
    wide_loop-IsLimbs la [] h.1 tt,
  )
  wide_loop-IsLimbs [] (y ∷ lb) h j = (
    omega (arith, op-lt 64 0 y (omega arith) (omega (arith, j.0))),
    wide_loop-IsLimbs [] lb tt j.1,
  )
  wide_loop-IsLimbs (x ∷ la) (y ∷ lb) h j = (
    omega (arith, op-lt 64 x y (omega (arith, h.0)) (omega (arith, j.0))),
    wide_loop-IsLimbs la lb h.1 j.1,
  )

  length-wide_loop : (la lb : List ℕ) → length (wide_loop op la lb) ≡ max (length la) (length lb)
  unfolding wide_loop
  length-wide_loop [] [] = refl
  length-wide_loop (x ∷ la) [] = omega (arith, length-wide_loop la [])
  length-wide_loop [] (y ∷ lb) = omega (arith, length-wide_loop [] lb)
  length-wide_loop (x ∷ la) (y ∷ lb) = omega (arith, length-wide_loop la lb)

  wide-Yields : (a b : Noun) → Fits a → Fits b → Yields (wide op a b) (op (val a) (val b))
  wide-Yields a b fa fb =
      let sa = scratch_of-IsScratch a fa in
      let sb = scratch_of-IsScratch b fb in
      let la = scratch_of a in
      let lb = scratch_of b in
      rw (atom_limbs-eq-ok a fa, atom_limbs-eq-ok b fb)
        (bn_normalize-Yields (wide_loop op la lb) (larger (length la) (length lb))
          (op (val a) (val b)) (wide_loop-IsLimbs la lb sa.limbs sb.limbs)
          (length-wide_loop la lb ∙ larger-max (length la) (length lb))
          (positive (length la) (length lb) sa.nonempty)
          (value-wide_loop la lb sa.limbs sb.limbs ∙ ap₂ op sa.value_eq sb.value_eq))
    where
      larger-max : (m n : ℕ) → max m n ≡ larger m n
      larger-max m n = ground arith

      positive : (m n : ℕ) → 0 < m → 0 < larger m n
      positive m n h = ground arith

  module _ (zeros : (x y : ℕ) → (op x 0 ≡ 0) × (op 0 y ≡ 0)) where
    value-narrow_loop :
        (la lb : List ℕ)
        → IsLimbs la
        → IsLimbs lb
        → value (narrow_loop op la lb) ≡ op (value la) (value lb)
    unfolding narrow_loop
    value-narrow_loop [] lb h j = sym (zeros 0 (value lb)).1
    value-narrow_loop (x ∷ la) [] h j = sym (zeros (value (x ∷ la)) 0).0
    value-narrow_loop (x ∷ la) (y ∷ lb) h j =
        cons_eq (op x y) (narrow_loop op la lb)
        ∙ op-limb (value (x ∷ la)) (value (y ∷ lb)) x y (value la) (value lb) _ (omega arith)
            (omega arith) h.0 j.0 (value-narrow_loop la lb h.1 j.1)

  narrow_loop-IsLimbs : (la lb : List ℕ) → IsLimbs la → IsLimbs lb → IsLimbs (narrow_loop op la lb)
  unfolding narrow_loop
  narrow_loop-IsLimbs [] lb h j = tt
  narrow_loop-IsLimbs (x ∷ la) [] h j = tt
  narrow_loop-IsLimbs (x ∷ la) (y ∷ lb) h j = (
    omega (arith, op-lt 64 x y (omega (arith, h.0)) (omega (arith, j.0))),
    narrow_loop-IsLimbs la lb h.1 j.1,
  )

  length-narrow_loop :
      (la lb : List ℕ) → length (narrow_loop op la lb) ≡ min (length la) (length lb)
  unfolding narrow_loop
  length-narrow_loop [] lb = omega arith
  length-narrow_loop (x ∷ la) [] = omega arith
  length-narrow_loop (x ∷ la) (y ∷ lb) = omega (arith, length-narrow_loop la lb)

or_bits : Bitwise bit_or
or_bits = record { bit = max; bit_lt = λ a b h j. omega arith; none = refl; halves = bit_or-halves }

and_bits : Bitwise bit_and
and_bits = record {
  bit = min;
  bit_lt = λ a b h j. omega arith;
  none = refl;
  halves = bit_and-halves;
}

differ-lt : (a b : ℕ) → a < 2 → b < 2 → differ a b < 2
differ-lt zero b h j = j
differ-lt (suc zero) zero h j = omega arith
differ-lt (suc zero) (suc zero) h j = omega arith
differ-lt (suc zero) (suc (suc b)) h j = absurd (omega arith)
differ-lt (suc (suc a)) b h j = absurd (omega arith)

xor_bits : Bitwise bit_xor
xor_bits = record { bit = differ; bit_lt = differ-lt; none = refl; halves = bit_xor-halves }

-- For canonical atoms of at most 64 limbs `bn_or`, `bn_and` and `bn_xor` are the bitwise operations on
-- their values, in canonical form.
pub bn_bitwise-Yields :
    (a b : Noun)
    → Fits a
    → Fits b
    → Yields (bn_or a b) (bit_or (val a) (val b))
      × Yields (bn_and a b) (bit_and (val a) (val b))
      × Yields (bn_xor a b) (bit_xor (val a) (val b))
unfolding bn_or bn_and bn_xor
bn_bitwise-Yields a b fa fb =
    let sa = scratch_of-IsScratch a fa in
    let sb = scratch_of-IsScratch b fb in
    let la = scratch_of a in
    let lb = scratch_of b in
    (
      wide-Yields bit_or or_bits a b fa fb,
      rw (atom_limbs-eq-ok a fa, atom_limbs-eq-ok b fb)
          (bn_normalize-Yields (narrow_loop bit_and la lb) (smaller (length la) (length lb))
            (bit_and (val a) (val b)) (narrow_loop-IsLimbs bit_and and_bits la lb sa.limbs sb.limbs)
            (length-narrow_loop bit_and and_bits la lb ∙ smaller-min (length la) (length lb))
            (positive (length la) (length lb) sa.nonempty sb.nonempty)
            (value-narrow_loop bit_and and_bits bit_and-zero la lb sa.limbs sb.limbs
              ∙ ap₂ bit_and sa.value_eq sb.value_eq)),
      wide-Yields bit_xor xor_bits a b fa fb,
    )
  where
    smaller-min : (m n : ℕ) → min m n ≡ smaller m n
    smaller-min m n = ground arith

    positive : (m n : ℕ) → 0 < m → 0 < n → 0 < smaller m n
    positive m n h j = ground arith
