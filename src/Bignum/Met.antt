-- ===== src/Bignum/Met.antt =====
-- `bn_met`: the bit length of an atom.
use native.Mathlib.Nat.{pow-suc, one-le-pow, pow-le-pow_right, mul-le-mul_right}
use native.Mathlib.Numerals.{unary_clauses}
use trinitite.Base.{
  ℕ, zero, suc, ◌+◌, ◌-◌, ◌*◌, ◌^◌, ◌≤◌, ◌<◌, ◌≡◌, refl, ap, sym, subst, ◌∙◌, List, [], ◌∷◌, arith,
  length, get_or, take, take_of_le, ltb, ltb→lt, leb, ◌==◌, if◌then◌else◌, Bool-cases, inl, inr,
  if-cases,
}
use trinitite.Base.Bits.{pow-add}
use trinitite.Base.Outcome.{Outcome, ok, crash, fault}
use trinitite.Noun.{Noun, direct, indirect, cell}
use trinitite.Noun.Limbs.{limb_base, value, Trimmed, value-take-suc, value-take-lt, get_or-lt}
use trinitite.Noun.Atom.{val, IsAtom}
use trinitite.Bignum.Shift.{limb_base-pow}

-- The zeros above the leading bit of a word of `width` bits, as `__builtin_clzll` counts them.
unfoldable pub leading_zeros : ℕ → ℕ → ℕ
leading_zeros zero v = 0
leading_zeros (suc width) v =
    let rest = leading_zeros width v in if leb (2 ^ width) v then 0 else suc rest

unfoldable pub clz : ℕ → ℕ
unfolding leading_zeros
clz v = leading_zeros 64 v

-- An atom of the store has a limb.
unfoldable pub bn_met : Noun → Outcome ℕ
unfolding clz
bn_met (direct v) = if v == 0 then ok 0 else ok (64 - clz v)
bn_met (indirect []) = fault
bn_met (indirect (x ∷ l)) = ok (64 * length l + (64 - clz (get_or (x ∷ l) (length l) 0)))
bn_met (cell h t) = crash "bn_met: cell"

-- `n` is the number of bits of `v`, 0 for 0.
abbrev pub HasBits : ℕ → ℕ → Type 0
HasBits v n = (v < 2 ^ n) × (2 ^ n ≤ 2 * v + 1)

pub HasBits-unique : (v m n : ℕ) → HasBits v m → HasBits v n → m ≡ n
HasBits-unique v m n p q = elim (Bool-cases (ltb m n)) [
  | inl y ↦ absurd (less v m n p q (ltb→lt m n y))
  | inr y ↦ elim (Bool-cases (ltb n m)) [
    | inl z ↦ absurd (less v n m q p (ltb→lt n m z))
    | inr z ↦ ground arith
  ]
]
  where
    less : (v m n : ℕ) → HasBits v m → HasBits v n → m < n → ⊥
    less v m n p q h = omega (
      arith,
      p.0,
      q.1,
      pow-suc 2 m,
      one-le-pow m 2 (omega arith),
      pow-le-pow_right {n = 2} (omega arith) {i = suc m} {j = n} h,
    )

-- Of a number that is not 0, the leading bit is set.
pub HasBits-le : (v n : ℕ) → 0 < v → HasBits v n → 2 ^ n ≤ 2 * v
HasBits-le v zero p h = omega (arith, p)
HasBits-le v (suc n) p h = omega (arith, h.1, pow-suc 2 n)

leading_zeros-HasBits :
    (w v : ℕ) → v < 2 ^ w → (leading_zeros w v ≤ w) × HasBits v (w - leading_zeros w v)
unfolding leading_zeros
leading_zeros-HasBits zero v h = omega arith
leading_zeros-HasBits (suc w) v h =
    if-cases Within (leb (2 ^ w) v)
      (λ y. (
        omega arith,
        simp unary_clauses (omega (arith, h, pow-suc 2 w), ground (arith, y, pow-suc 2 w)),
      ))
      (λ n.
        let ih = leading_zeros-HasBits w v (ground (arith, n)) in
        (omega (arith, ih.0), subst (HasBits v) (same w (leading_zeros w v)) ih.1))
  where
    Within : ℕ → Type 0
    Within z = (z ≤ suc w) × HasBits v (suc w - z)

    same : (w z : ℕ) → w - z ≡ suc w - suc z
    same w z = omega arith

clz-HasBits : (v : ℕ) → v < limb_base → HasBits v (64 - clz v)
unfolding clz
clz-HasBits v h = (leading_zeros-HasBits 64 v h).1

top_bits :
    (low top k t : ℕ)
    → low < limb_base ^ k
    → 0 < top
    → HasBits top t
    → HasBits (low + top * limb_base ^ k) (64 * k + t)
top_bits low top k t h p b =
    let split : 2 ^ (64 * k + t) ≡ limb_base ^ k * 2 ^ t =
      pow-add 2 (64 * k) t ∙ ap (λ (x : ℕ). x * 2 ^ t) (sym (limb_base-pow k)) in
    (
      omega (arith, split, h, mul-le-mul_right {m = suc top} {n = 2 ^ t} (limb_base ^ k) b.0),
      omega (
        arith,
        split,
        mul-le-mul_right {m = 2 ^ t} {n = 2 * top} (limb_base ^ k) (HasBits-le top t p b),
      ),
    )

last-pos : (x : ℕ) (l : List ℕ) → Trimmed (x ∷ l) → 0 < get_or (x ∷ l) (length l) 0
last-pos x [] t = t
last-pos x (y ∷ l) t = last-pos y l t

-- On every canonical atom `bn_met` returns the number of bits of its number.
pub bn_met-HasBits : (a : Noun) → IsAtom a → (n : ℕ) × (bn_met a ≡ ok n) × HasBits (val a) n
unfolding bn_met
bn_met-HasBits (direct v) h = elim (Bool-cases (v == 0)) [
  | inl y ↦ (0, rw y refl, ground (arith, y))
  | inr n ↦ (64 - clz v, rw n refl, clz-HasBits v (omega (arith, h)))
]
bn_met-HasBits (indirect []) h = absurd h.1
bn_met-HasBits (indirect (x ∷ l)) h =
    let k = length l in
    let top = get_or (x ∷ l) k 0 in
    let whole : value (x ∷ l) ≡ value (take k (x ∷ l)) + top * limb_base ^ k =
      ap value (sym (take_of_le (suc k) (x ∷ l) (omega arith))) ∙ value-take-suc (x ∷ l) k in
    (
      64 * k + (64 - clz top),
      refl,
      subst (λ v. HasBits v (64 * k + (64 - clz top))) (sym whole)
          (top_bits (value (take k (x ∷ l))) top k (64 - clz top) (value-take-lt (x ∷ l) k h.0)
            (last-pos x l h.1) (clz-HasBits top (get_or-lt (x ∷ l) k h.0))),
    )
bn_met-HasBits (cell x y) h = absurd h
