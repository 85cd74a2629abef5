-- ===== src/Bignum/Mul.antt =====
-- `bn_mul`: schoolbook multiplication into one result array.
use trinitite.Base.{
  ℕ, zero, suc, ◌+◌, ◌*◌, ◌/◌, ◌%◌, ◌^◌, ◌≤◌, ◌<◌, ◌≡◌, refl, ap, ap₂, ◌∙◌, List, [], ◌∷◌, arith,
  length, get_or, replicate, ◌==◌, if◌then◌else◌, Bool, true, ◌&&◌, Bool-cases, inl, inr,
  length-replicate,
}
use native.Mathlib.Nat.{pow-suc}
use trinitite.Base.Outcome.{Outcome, ok, ◌>>=◌}
use trinitite.Noun.{Noun, direct}
use trinitite.Noun.Limbs.{limb_base, value, IsLimbs, value-lt}
use trinitite.Noun.Atom.{val, Yields}
use trinitite.Bignum.Scratch.{
  atom_limbs, bn_normalize, Fits, scratch_of, atom_limbs-eq-ok, scratch_of-IsScratch,
  bn_normalize-Yields,
}

-- `for (k = i + sb; carry; k++)`, on the part of `result` from `k` on.
unfoldable pub propagate : ℕ → List ℕ → List ℕ
propagate carry [] = []
propagate carry (r ∷ rs) =
    let rest = propagate ((r + carry) / limb_base) rs in
    if carry == 0 then r ∷ rs else ((r + carry) % limb_base) ∷ rest

-- The inner loop for the limb `x` of `a`, on the part of `result` from `i + j` on.
unfoldable pub mul_row : ℕ → List ℕ → List ℕ → ℕ → List ℕ
unfolding propagate
mul_row x [] rs carry = propagate carry rs
mul_row x (y ∷ lb) [] carry = []
mul_row x (y ∷ lb) (r ∷ rs) carry =
    ((x * y + r + carry) % limb_base) ∷ mul_row x lb rs ((x * y + r + carry) / limb_base)

abbrev next_row : (List ℕ → List ℕ) → List ℕ → List ℕ
next_row f [] = []
next_row f (r ∷ rs) = r ∷ f rs

-- The outer loop, on the part of `result` from `i` on: a row leaves limb `i` final.
unfoldable pub mul_loop : List ℕ → List ℕ → List ℕ → List ℕ
unfolding mul_row
mul_loop [] lb result = result
mul_loop (x ∷ la) lb result = next_row (mul_loop la lb) (mul_row x lb result 0)

abbrev pub is_zero : List ℕ → Bool
is_zero l = (length l == 1) && (get_or l 0 0 == 0)

unfoldable pub bn_mul : Noun → Noun → Outcome Noun
unfolding atom_limbs mul_loop bn_normalize
bn_mul a b = do
  la ← atom_limbs a
  lb ← atom_limbs b
  if is_zero la
      then ok (direct 0)
      else if is_zero lb
      then ok (direct 0)
      else bn_normalize (mul_loop la lb (replicate (length la + length lb) 0))
          (length la + length lb)

length-propagate : (c : ℕ) (rs : List ℕ) → length (propagate c rs) ≡ length rs
unfolding propagate
length-propagate c [] = refl
length-propagate c (r ∷ rs) = ground (arith, length-propagate ((r + c) / limb_base) rs)

propagate-IsLimbs : (c : ℕ) (rs : List ℕ) → IsLimbs rs → IsLimbs (propagate c rs)
unfolding propagate
propagate-IsLimbs c [] h = tt
propagate-IsLimbs c (r ∷ rs) h = elim (Bool-cases (c == 0)) [
  | inl e ↦ rw e h
  | inr e ↦ rw e (omega arith, propagate-IsLimbs ((r + c) / limb_base) rs h.1)
]

-- The carry is absorbed, if the sum fits the array.
value-propagate :
    (c : ℕ) (rs : List ℕ)
    → IsLimbs rs
    → value rs + c < limb_base ^ length rs
    → value (propagate c rs) ≡ value rs + c
unfolding propagate
value-propagate c [] h lt = omega arith
value-propagate c (r ∷ rs) h lt = ground (
  arith,
  pow-suc limb_base (length rs),
  value-propagate ((r + c) / limb_base) rs h.1 (omega (arith, pow-suc limb_base (length rs))),
)

length-mul_row :
    (x : ℕ) (lb rs : List ℕ) (c : ℕ)
    → length lb ≤ length rs
    → length (mul_row x lb rs c) ≡ length rs
unfolding mul_row
length-mul_row x [] rs c h = length-propagate c rs
length-mul_row x (y ∷ lb) [] c h = refl
length-mul_row x (y ∷ lb) (r ∷ rs) c h = ap suc (length-mul_row x lb rs _ (omega arith))

mul_row-IsLimbs : (x : ℕ) (lb rs : List ℕ) (c : ℕ) → IsLimbs rs → IsLimbs (mul_row x lb rs c)
unfolding mul_row
mul_row-IsLimbs x [] rs c h = propagate-IsLimbs c rs h
mul_row-IsLimbs x (y ∷ lb) [] c h = tt
mul_row-IsLimbs x (y ∷ lb) (r ∷ rs) c h = (omega arith, mul_row-IsLimbs x lb rs _ h.1)

-- A row adds `x * b` where the sum fits the array, so no carry is lost and no write is out of it.
value-mul_row :
    (x : ℕ) (lb rs : List ℕ) (c : ℕ)
    → IsLimbs rs
    → length lb ≤ length rs
    → value rs + x * value lb + c < limb_base ^ length rs
    → value (mul_row x lb rs c) ≡ value rs + x * value lb + c
unfolding mul_row
value-mul_row x [] rs c h le lt = omega (arith, value-propagate c rs h (omega arith))
value-mul_row x (y ∷ lb) [] c h le lt = absurd (omega arith)
value-mul_row x (y ∷ lb) (r ∷ rs) c h le lt = omega (
  arith,
  value-mul_row x lb rs ((x * y + r + c) / limb_base) h.1 (omega arith)
      (omega (arith, pow-suc limb_base (length rs))),
)

mul_loop-IsLimbs : (la lb rs : List ℕ) → IsLimbs rs → IsLimbs (mul_loop la lb rs)
unfolding mul_loop
mul_loop-IsLimbs [] lb rs h = h
mul_loop-IsLimbs (x ∷ la) lb rs h =
    next (mul_row x lb rs 0) (mul_row-IsLimbs x lb rs 0 h) (mul_loop-IsLimbs la lb)
  where
    next :
        (row : List ℕ)
        → IsLimbs row
        → ((t : List ℕ) → IsLimbs t → IsLimbs (mul_loop la lb t))
        → IsLimbs (next_row (mul_loop la lb) row)
    next [] i f = tt
    next (r ∷ t) i f = (i.0, f t i.1)

length-mul_loop :
    (la lb rs : List ℕ) → length la + length lb ≤ length rs → length (mul_loop la lb rs) ≡ length rs
unfolding mul_loop
length-mul_loop [] lb rs h = refl
length-mul_loop (x ∷ la) lb rs h =
    next (mul_row x lb rs 0) (length-mul_row x lb rs 0 (omega arith)) (length-mul_loop la lb)
  where
    next :
        (row : List ℕ)
        → length row ≡ length rs
        → ((t : List ℕ) → length la + length lb ≤ length t → length (mul_loop la lb t) ≡ length t)
        → length (next_row (mul_loop la lb) row) ≡ length rs
    next [] e f = e
    next (r ∷ t) e f = omega (arith, f t (omega arith))

-- The result array gains the product, if it fits.
value-mul_loop :
    (la lb rs : List ℕ)
    → IsLimbs rs
    → length la + length lb ≤ length rs
    → value rs + value la * value lb < limb_base ^ length rs
    → value (mul_loop la lb rs) ≡ value rs + value la * value lb
unfolding mul_loop
value-mul_loop [] lb rs ir h lt = omega arith
value-mul_loop (x ∷ la) lb rs ir h lt =
    next (mul_row x lb rs 0) (mul_row-IsLimbs x lb rs 0 ir) (length-mul_row x lb rs 0 (omega arith))
      (value-mul_row x lb rs 0 ir (omega arith) (omega arith)) (value-mul_loop la lb)
  where
    next :
        (row : List ℕ)
        → IsLimbs row
        → length row ≡ length rs
        → value row ≡ value rs + x * value lb + 0
        → ((t : List ℕ)
            → IsLimbs t
            → length la + length lb ≤ length t
            → value t + value la * value lb < limb_base ^ length t
            → value (mul_loop la lb t) ≡ value t + value la * value lb)
        → value (next_row (mul_loop la lb) row) ≡ value rs + value (x ∷ la) * value lb
    next [] i e v f = absurd (omega arith)
    next (r ∷ t) i e v f = omega (
      arith,
      f t i.1 (omega arith)
          (omega (arith, pow-suc limb_base (length t), ap (λ (n : ℕ). limb_base ^ n) e)),
    )

length-zeros : (n : ℕ) → length {A = ℕ} (replicate n 0) ≡ n
length-zeros n = length-replicate {A = ℕ} n 0

value-zeros : (n : ℕ) → value (replicate n 0) ≡ 0
value-zeros zero = refl
value-zeros (suc n) = omega (arith, value-zeros n)

zeros-IsLimbs : (n : ℕ) → IsLimbs (replicate n 0)
zeros-IsLimbs zero = tt
zeros-IsLimbs (suc n) = (omega arith, zeros-IsLimbs n)

pow-add : (m n : ℕ) → limb_base ^ (m + n) ≡ limb_base ^ m * limb_base ^ n
pow-add zero n = ground arith
pow-add (suc m) n = omega (
  arith,
  pow-suc limb_base (m + n),
  ap (λ (t : ℕ). t * limb_base ^ n) (pow-suc limb_base m),
  pow-add m n,
  ap (λ (t : ℕ). limb_base ^ t) (suc-add m n),
)
  where
    suc-add : (m n : ℕ) → suc m + n ≡ suc (m + n)
    suc-add m n = omega arith

product-lt : (a b p q : ℕ) → a < p → b < q → a * b < p * q
product-lt a b p q h k = grind arith

value-mul :
    (la lb : List ℕ)
    → IsLimbs la
    → IsLimbs lb
    → value (mul_loop la lb (replicate (length la + length lb) 0)) ≡ value la * value lb
value-mul la lb ia ib = omega (
  arith,
  value-zeros n,
  value-mul_loop la lb (replicate n 0) (zeros-IsLimbs n) (omega (arith, length-zeros n)) (
      rw (length-zeros n) (
        omega (
          arith,
          value-zeros n,
          pow-add (length la) (length lb),
          product-lt (value la) (value lb) _ _ (value-lt la ia) (value-lt lb ib),
        ))),
)
  where
    n : ℕ
    n = length la + length lb

pub is_zero-value : (l : List ℕ) → is_zero l ≡ true → value l ≡ 0
is_zero-value [] h = refl
is_zero-value (x ∷ []) h = ground arith
is_zero-value (x ∷ (y ∷ r)) h = absurd (ground arith)

-- For canonical atoms of at most 64 limbs `bn_mul` returns their product in canonical form, which
-- may have up to 128 limbs.
pub bn_mul-Yields : (a b : Noun) → Fits a → Fits b → Yields (bn_mul a b) (val a * val b)
unfolding bn_mul
bn_mul-Yields a b fa fb =
    let sa = scratch_of-IsScratch a fa in
    let sb = scratch_of-IsScratch b fb in
    let la = scratch_of a in
    let lb = scratch_of b in
    let n : ℕ = length la + length lb in
    rw (atom_limbs-eq-ok a fa, atom_limbs-eq-ok b fb)
      (elim (Bool-cases (is_zero la)) [
        | inl e ↦ rw e (direct 0, refl, omega arith, zero_left la lb e sa.value_eq sb.value_eq)
        | inr e ↦ rw e (elim (Bool-cases (is_zero lb)) [
          | inl k ↦ rw k (direct 0, refl, omega arith, zero_right la lb k sa.value_eq sb.value_eq)
          | inr k ↦ rw k (
              bn_normalize-Yields (mul_loop la lb (replicate n 0)) n (val a * val b)
                (mul_loop-IsLimbs la lb (replicate n 0) (zeros-IsLimbs n))
                (length-mul_loop la lb (replicate n 0) (omega (arith, length-zeros n))
                  ∙ length-zeros n)
                (omega (arith, sa.nonempty))
                (value-mul la lb sa.limbs sb.limbs ∙ ap₂ ◌*◌ sa.value_eq sb.value_eq))
        ])
      ])
  where
    zero_left :
        (la lb : List ℕ)
        → is_zero la ≡ true
        → value la ≡ val a
        → value lb ≡ val b
        → 0 ≡ val a * val b
    zero_left la lb e p q = rw (← p, is_zero-value la e) (omega arith)

    zero_right :
        (la lb : List ℕ)
        → is_zero lb ≡ true
        → value la ≡ val a
        → value lb ≡ val b
        → 0 ≡ val a * val b
    zero_right la lb e p q = rw (← q, is_zero-value lb e) (omega arith)
