-- ===== src/Bignum/Add.antt =====
-- `bn_add`.
use trinitite.Base.{
  ℕ, zero, suc, ◌+◌, ◌/◌, ◌%◌, ◌≤◌, ◌<◌, ◌≡◌, refl, ap, List, [], ◌∷◌, arith, length, ltb,
  if◌then◌else◌,
}
use trinitite.Base.Outcome.{Outcome, ◌>>=◌}
use trinitite.Noun.{Noun}
use trinitite.Noun.Limbs.{limb_base, value, IsLimbs}
use trinitite.Noun.Atom.{val, Yields}
use trinitite.Bignum.Scratch.{
  atom_limbs, bn_normalize, Fits, scratch_of, atom_limbs-eq-ok, scratch_of-IsScratch,
  bn_normalize-Yields,
}

-- The loop with `n` rounds left; a limb past the end of an operand is read as 0. `sum` has 128 bits.
unfoldable pub add_loop : ℕ → List ℕ → List ℕ → ℕ → List ℕ
add_loop zero la lb carry = []
add_loop (suc n) [] [] carry = (carry % limb_base) ∷ add_loop n [] [] (carry / limb_base)
add_loop (suc n) (x ∷ la) [] carry =
    ((x + carry) % limb_base) ∷ add_loop n la [] ((x + carry) / limb_base)
add_loop (suc n) [] (y ∷ lb) carry =
    ((y + carry) % limb_base) ∷ add_loop n [] lb ((y + carry) / limb_base)
add_loop (suc n) (x ∷ la) (y ∷ lb) carry =
    ((x + y + carry) % limb_base) ∷ add_loop n la lb ((x + y + carry) / limb_base)

-- `sr`
abbrev add_size : ℕ → ℕ → ℕ
add_size sa sb = (if ltb sb sa then sa else sb) + 1

unfoldable pub bn_add : Noun → Noun → Outcome Noun
unfolding atom_limbs add_loop bn_normalize
bn_add a b = do
  la ← atom_limbs a
  lb ← atom_limbs b
  bn_normalize (add_loop (add_size (length la) (length lb)) la lb 0)
      (add_size (length la) (length lb))

length-add_loop : (n : ℕ) (la lb : List ℕ) (c : ℕ) → length (add_loop n la lb c) ≡ n
unfolding add_loop
length-add_loop zero la lb c = refl
length-add_loop (suc n) [] [] c = ap suc (length-add_loop n [] [] _)
length-add_loop (suc n) (x ∷ la) [] c = ap suc (length-add_loop n la [] _)
length-add_loop (suc n) [] (y ∷ lb) c = ap suc (length-add_loop n [] lb _)
length-add_loop (suc n) (x ∷ la) (y ∷ lb) c = ap suc (length-add_loop n la lb _)

add_loop-IsLimbs : (n : ℕ) (la lb : List ℕ) (c : ℕ) → IsLimbs (add_loop n la lb c)
unfolding add_loop
add_loop-IsLimbs zero la lb c = tt
add_loop-IsLimbs (suc n) [] [] c = (omega arith, add_loop-IsLimbs n [] [] _)
add_loop-IsLimbs (suc n) (x ∷ la) [] c = (omega arith, add_loop-IsLimbs n la [] _)
add_loop-IsLimbs (suc n) [] (y ∷ lb) c = (omega arith, add_loop-IsLimbs n [] lb _)
add_loop-IsLimbs (suc n) (x ∷ la) (y ∷ lb) c = (omega arith, add_loop-IsLimbs n la lb _)

-- One round more than the longer operand has limbs takes the last carry.
value-add_loop :
    (n : ℕ) (la lb : List ℕ) (c : ℕ)
    → IsLimbs la
    → IsLimbs lb
    → length la < n
    → length lb < n
    → c ≤ 1
    → value (add_loop n la lb c) ≡ value la + value lb + c
unfolding add_loop
value-add_loop zero la lb c ia ib ha hb hc = absurd (omega arith)
value-add_loop (suc zero) [] [] c ia ib ha hb hc = omega arith
value-add_loop (suc zero) (x ∷ la) lb c ia ib ha hb hc = absurd (omega arith)
value-add_loop (suc zero) [] (y ∷ lb) c ia ib ha hb hc = absurd (omega arith)
value-add_loop (suc (suc n)) [] [] c ia ib ha hb hc = omega (
  arith,
  value-add_loop (suc n) [] [] (c / limb_base) tt tt (omega arith) (omega arith) (omega arith),
)
value-add_loop (suc (suc n)) (x ∷ la) [] c ia ib ha hb hc = omega (
  arith,
  value-add_loop (suc n) la [] ((x + c) / limb_base) ia.1 tt (omega arith) (omega arith)
      (omega arith),
)
value-add_loop (suc (suc n)) [] (y ∷ lb) c ia ib ha hb hc = omega (
  arith,
  value-add_loop (suc n) [] lb ((y + c) / limb_base) tt ib.1 (omega arith) (omega arith)
      (omega arith),
)
value-add_loop (suc (suc n)) (x ∷ la) (y ∷ lb) c ia ib ha hb hc = omega (
  arith,
  value-add_loop (suc n) la lb ((x + y + c) / limb_base) ia.1 ib.1 (omega arith) (omega arith)
      (omega arith),
)

value-add :
    (la lb : List ℕ)
    → IsLimbs la
    → IsLimbs lb
    → value (add_loop (add_size (length la) (length lb)) la lb 0) ≡ value la + value lb
value-add la lb ia ib = omega (
  arith,
  value-add_loop (add_size (length la) (length lb)) la lb 0 ia ib (ground arith) (ground arith)
      (omega arith),
)

-- For canonical atoms of at most 64 limbs `bn_add` returns their sum in canonical form.
pub bn_add-Yields : (a b : Noun) → Fits a → Fits b → Yields (bn_add a b) (val a + val b)
unfolding bn_add
bn_add-Yields a b fa fb =
    let sa = scratch_of-IsScratch a fa in
    let sb = scratch_of-IsScratch b fb in
    let n : ℕ = add_size (length (scratch_of a)) (length (scratch_of b)) in
    rw (atom_limbs-eq-ok a fa, atom_limbs-eq-ok b fb)
      (bn_normalize-Yields (add_loop n (scratch_of a) (scratch_of b) 0) n (val a + val b)
        (add_loop-IsLimbs n (scratch_of a) (scratch_of b) 0)
        (length-add_loop n (scratch_of a) (scratch_of b) 0) (omega arith)
        (omega (
          arith,
          sa.value_eq,
          sb.value_eq,
          value-add (scratch_of a) (scratch_of b) sa.limbs sb.limbs,
        )))
