-- ===== src/Bignum/Sub.antt =====
-- `bn_sub`.
use trinitite.Base.{
  ℕ, suc, ◌+◌, ◌-◌, ◌*◌, ◌%◌, ◌≤◌, ◌<◌, ◌≡◌, refl, ap, List, [], ◌∷◌, arith, length, ltb, ◌==◌,
  if◌then◌else◌, Bool, true, false, ◌&&◌, ◌||◌, not, compare, Ordering,
}
use trinitite.Base.Outcome.{Outcome, crash, ◌>>=◌}
use trinitite.Noun.{Noun}
use trinitite.Noun.Limbs.{limb_base, limb_max, value, IsLimbs}
use trinitite.Noun.Atom.{val, Yields}
use trinitite.Bignum.Scratch.{
  atom_limbs, bn_normalize, Fits, scratch_of, atom_limbs-eq-ok, scratch_of-IsScratch,
  bn_normalize-Yields,
}
use trinitite.Bignum.Compare.{bn_cmp, bn_cmp-eq-compare}

-- `x - y - borrow` on uint64_t.
abbrev sub_limb : ℕ → ℕ → ℕ → ℕ
sub_limb x y borrow = (x + 2 * limb_base - y - borrow) % limb_base

-- `x < y + borrow || (borrow && y == UINT64_MAX)`, where the sum wraps.
abbrev borrow_out : ℕ → ℕ → ℕ → ℕ
borrow_out x y borrow =
    if ltb x ((y + borrow) % limb_base) || (not (borrow == 0) && (y == limb_max)) then 1 else 0

-- The loop over the limbs of `a`; a limb past the end of `b` is read as 0.
unfoldable pub sub_loop : List ℕ → List ℕ → ℕ → List ℕ
sub_loop [] lb borrow = []
sub_loop (x ∷ la) [] borrow = sub_limb x 0 borrow ∷ sub_loop la [] (borrow_out x 0 borrow)
sub_loop (x ∷ la) (y ∷ lb) borrow = sub_limb x y borrow ∷ sub_loop la lb (borrow_out x y borrow)

abbrev is_lt : Ordering → Bool
is_lt Ordering.lt = true
is_lt Ordering.eq = false
is_lt Ordering.gt = false

unfoldable pub bn_sub : Noun → Noun → Outcome Noun
unfolding bn_cmp atom_limbs sub_loop bn_normalize
bn_sub a b = do
  order ← bn_cmp a b
  if is_lt order
      then crash "bn_sub: underflow"
      else do la ← atom_limbs a; lb ← atom_limbs b; bn_normalize (sub_loop la lb 0) (length la)

length-sub_loop : (la lb : List ℕ) (c : ℕ) → length (sub_loop la lb c) ≡ length la
unfolding sub_loop
length-sub_loop [] lb c = refl
length-sub_loop (x ∷ la) [] c = ap suc (length-sub_loop la [] _)
length-sub_loop (x ∷ la) (y ∷ lb) c = ap suc (length-sub_loop la lb _)

sub_loop-IsLimbs : (la lb : List ℕ) (c : ℕ) → IsLimbs (sub_loop la lb c)
unfolding sub_loop
sub_loop-IsLimbs [] lb c = tt
sub_loop-IsLimbs (x ∷ la) [] c = (omega arith, sub_loop-IsLimbs la [] _)
sub_loop-IsLimbs (x ∷ la) (y ∷ lb) c = (omega arith, sub_loop-IsLimbs la lb _)

-- One limb: what is lost by wrapping is the borrow.
sub_limb_lem :
    (x y c : ℕ)
    → x < limb_base
    → y < limb_base
    → c ≤ 1
    → (sub_limb x y c + y + c ≡ x + limb_base * borrow_out x y c) × (borrow_out x y c ≤ 1)
sub_limb_lem x y c hx hy hc = ground arith

value-sub_loop :
    (la lb : List ℕ) (c : ℕ)
    → IsLimbs la
    → IsLimbs lb
    → c ≤ 1
    → value lb + c ≤ value la
    → value (sub_loop la lb c) + value lb + c ≡ value la
unfolding sub_loop
value-sub_loop [] lb c ia ib hc h = omega arith
value-sub_loop (x ∷ la) [] c ia ib hc h =
    let s = sub_limb_lem x 0 c ia.0 (omega arith) hc in
    omega (arith, s.0, value-sub_loop la [] (borrow_out x 0 c) ia.1 tt s.1 (omega (arith, s.0)))
value-sub_loop (x ∷ la) (y ∷ lb) c ia ib hc h =
    let s = sub_limb_lem x y c ia.0 ib.0 hc in
    omega (arith, s.0, value-sub_loop la lb (borrow_out x y c) ia.1 ib.1 s.1 (omega (arith, s.0)))

-- For canonical atoms of at most 64 limbs `bn_sub` returns the difference where there is one, in
-- canonical form, and crashes where the second atom is the larger.
pub bn_sub-Yields :
    (a b : Noun)
    → Fits a
    → Fits b
    → (val b ≤ val a → Yields (bn_sub a b) (val a - val b))
      × (val a < val b → bn_sub a b ≡ crash "bn_sub: underflow")
unfolding bn_sub
bn_sub-Yields a b fa fb =
    let sa = scratch_of-IsScratch a fa in
    let sb = scratch_of-IsScratch b fb in
    (
      λ h. rw (bn_cmp-eq-compare a b fa fb) (
          rw (not_lt h) (
            rw (atom_limbs-eq-ok a fa, atom_limbs-eq-ok b fb)
              (bn_normalize-Yields (sub_loop (scratch_of a) (scratch_of b) 0)
                (length (scratch_of a)) (val a - val b)
                (sub_loop-IsLimbs (scratch_of a) (scratch_of b) 0)
                (length-sub_loop (scratch_of a) (scratch_of b) 0) sa.nonempty
                (omega (
                  arith,
                  sa.value_eq,
                  sb.value_eq,
                  value-sub_loop (scratch_of a) (scratch_of b) 0 sa.limbs sb.limbs (omega arith)
                      (omega (arith, sa.value_eq, sb.value_eq)),
                ))))),
      λ h. rw (bn_cmp-eq-compare a b fa fb) (ground arith),
    )
  where
    not_lt : val b ≤ val a → is_lt (compare (val a) (val b)) ≡ false
    not_lt h = ground arith
