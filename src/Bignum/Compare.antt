-- ===== src/Bignum/Compare.antt =====
-- `bn_cmp`: -1, 0 and 1 are the three orderings.
use trinitite.Base.{
  ℕ, zero, suc, ◌+◌, ◌*◌, ◌^◌, ◌≤◌, ◌<◌, ◌≡◌, refl, ap, ◌∙◌, List, arith, length, get_or, take, ltb,
  ◌==◌, if◌then◌else◌, Bool-cases, inl, inr, compare, Ordering, take-length, take_of_le, ==-refl,
  ◌⊎◌, ap₂, ==_iff, ltb→lt, ltb_of_le,
}
use native.Mathlib.Nat.{pow-suc, pow-le-pow_right}
use trinitite.Base.Outcome.{Outcome, ok, ◌>>=◌}
use trinitite.Noun.{Noun, direct, indirect, cell}
use trinitite.Noun.Limbs.{
  limb_base, value, IsLimbs, Trimmed, value-take-suc, value-take-lt, value-lt, pow-le-value,
}
use trinitite.Noun.Atom.{val}
use trinitite.Bignum.Scratch.{
  atom_limbs, max_limbs, Fits, scratch_of, atom_limbs-eq-ok, scratch_of-IsScratch,
}

-- The loop from limb `k - 1` down.
unfoldable pub cmp_loop : List ℕ → List ℕ → ℕ → Ordering
cmp_loop la lb zero = Ordering.eq
cmp_loop la lb (suc k) =
    let rest = cmp_loop la lb k in
    if get_or la k 0 == get_or lb k 0
    then rest
    else if ltb (get_or la k 0) (get_or lb k 0)
    then Ordering.lt
    else Ordering.gt

unfoldable pub cmp_limbs : List ℕ → List ℕ → Ordering
unfolding cmp_loop
cmp_limbs la lb =
    if length la == length lb
    then cmp_loop la lb (length la)
    else if ltb (length la) (length lb)
    then Ordering.lt
    else Ordering.gt

unfoldable pub bn_cmp : Noun → Noun → Outcome Ordering
unfolding atom_limbs cmp_limbs
bn_cmp a b = do la ← atom_limbs a; lb ← atom_limbs b; ok (cmp_limbs la lb)

compare_lt : (a b : ℕ) → a < b → compare a b ≡ Ordering.lt
compare_lt a b h = ground arith

compare_gt : (a b : ℕ) → b < a → compare a b ≡ Ordering.gt
compare_gt a b h = ground arith

compare_add : (a b c : ℕ) → compare (a + c) (b + c) ≡ compare a b
compare_add a b c = ground arith

shift-lt : (a b x y p : ℕ) → a < p → x < y → a + x * p < b + y * p
shift-lt a b x y p ha h = omega (arith, mul_mono)
  where
    mul_mono : suc x * p ≤ y * p
    mul_mono = grind arith

cmp_step :
    (c : Ordering) (x y a b p : ℕ)
    → a < p
    → b < p
    → c ≡ compare a b
    → (if x == y then c else if ltb x y then Ordering.lt else Ordering.gt)
      ≡ compare (a + x * p) (b + y * p)
cmp_step c x y a b p ha hb h = elim (Bool-cases (x == y)) [
  | inl e ↦ rw e (rw ((==_iff x y).0 e) (rw (compare_add a b (y * p)) h))
  | inr e ↦ rw e (elim (Bool-cases (ltb x y)) [
    | inl l ↦ rw (l, compare_lt _ _ (shift-lt a b x y p ha (ltb→lt x y l)))
    | inr g ↦ rw (g, compare_gt _ _ (shift-lt b a y x p hb (ground arith)))
  ])
]

-- The limbs from the top decide as the numbers do.
cmp_loop-value :
    (la lb : List ℕ) (k : ℕ)
    → IsLimbs la
    → IsLimbs lb
    → cmp_loop la lb k ≡ compare (value (take k la)) (value (take k lb))
unfolding cmp_loop
cmp_loop-value la lb zero ia ib = refl
cmp_loop-value la lb (suc k) ia ib =
    rw (value-take-suc la k, value-take-suc lb k)
      (cmp_step (cmp_loop la lb k) (get_or la k 0) (get_or lb k 0) (value (take k la))
        (value (take k lb)) (limb_base ^ k) (value-take-lt la k ia) (value-take-lt lb k ib)
        (cmp_loop-value la lb k ia ib))

cmp_loop_refl : (l : List ℕ) (k : ℕ) → cmp_loop l l k ≡ Ordering.eq
unfolding cmp_loop
cmp_loop_refl l zero = refl
cmp_loop_refl l (suc k) = rw (==-refl (get_or l k 0)) (cmp_loop_refl l k)

cmp_limbs_refl : (l : List ℕ) → cmp_limbs l l ≡ Ordering.eq
unfolding cmp_limbs
cmp_limbs_refl l = rw (==-refl (length l)) (cmp_loop_refl l (length l))

-- One limb, or a nonzero limb at the top.
abbrev pub Normal : List ℕ → Type 0
Normal l = (length l ≡ 1) ⊎ Trimmed l

value-lt_of_length :
    (la lb : List ℕ)
    → IsLimbs la
    → 0 < length la
    → Normal lb
    → length la < length lb
    → value la < value lb
value-lt_of_length la lb ia pa (inl e) h = absurd (omega arith)
value-lt_of_length la lb ia pa (inr t) h = omega (
  arith,
  value-lt la ia,
  pow-le-value lb t,
  pow-suc limb_base (length la),
  pow-le-pow_right {n = limb_base} (omega arith) h,
)

pub cmp_limbs-value :
    (la lb : List ℕ)
    → IsLimbs la
    → IsLimbs lb
    → 0 < length la
    → 0 < length lb
    → Normal la
    → Normal lb
    → cmp_limbs la lb ≡ compare (value la) (value lb)
unfolding cmp_limbs
cmp_limbs-value la lb ia ib pa pb na nb = elim (Bool-cases (length la == length lb)) [
  | inl e ↦ rw e (same ((==_iff _ _).0 e))
  | inr e ↦ rw e (elim (Bool-cases (ltb (length la) (length lb))) [
    | inl l ↦ rw (l, compare_lt _ _ (value-lt_of_length la lb ia pa nb (ltb→lt _ _ l)))
    | inr g ↦ rw (g, compare_gt _ _ (value-lt_of_length lb la ib pb na (ground arith)))
  ])
]
  where
    same : length la ≡ length lb → cmp_loop la lb (length la) ≡ compare (value la) (value lb)
    same e =
        cmp_loop-value la lb (length la) ia ib
        ∙ ap₂ compare (ap value (take-length la))
            (ap value (take_of_le (length la) lb (omega arith)))

pub scratch_of-Normal : (a : Noun) → Fits a → Normal (scratch_of a)
scratch_of-Normal (direct v) h = inl refl
scratch_of-Normal (indirect l) h = inr h.1
scratch_of-Normal (cell x y) h = absurd h

-- On canonical atoms of at most 64 limbs `bn_cmp` compares their values.
pub bn_cmp-eq-compare : (a b : Noun) → Fits a → Fits b → bn_cmp a b ≡ ok (compare (val a) (val b))
unfolding bn_cmp
bn_cmp-eq-compare a b fa fb =
    let sa = scratch_of-IsScratch a fa in
    let sb = scratch_of-IsScratch b fb in
    rw (atom_limbs-eq-ok a fa, atom_limbs-eq-ok b fb)
      (ap ok (
        cmp_limbs-value (scratch_of a) (scratch_of b) sa.limbs sb.limbs sa.nonempty sb.nonempty
          (scratch_of-Normal a fa) (scratch_of-Normal b fb)
        ∙ ap₂ compare sa.value_eq sb.value_eq))

-- Beyond 64 limbs only the low 64 are compared: atoms that agree there compare as equal, whatever
-- their higher limbs are.
pub bn_cmp-truncates :
    (k l : List ℕ)
    → max_limbs ≤ length k
    → max_limbs ≤ length l
    → take max_limbs k ≡ take max_limbs l
    → bn_cmp (indirect k) (indirect l) ≡ ok Ordering.eq
unfolding bn_cmp atom_limbs
bn_cmp-truncates k l hk hl e =
    rw (ltb_of_le (length k) max_limbs hk, ltb_of_le (length l) max_limbs hl, e)
      (ap ok (cmp_limbs_refl (take max_limbs l)))
