-- ===== src/Jam/Bits.antt =====
-- Bits of limb arrays: reading the bit at a position, and setting one above all that are set.
use native.Mathlib.Nat.{
  pow-suc, one-le-pow, add-mul-div_right, div-div-eq-div-mul, pow-le-pow_right, div-eq_of_lt,
  zero-div, mul-le-mul_right,
}
use trinitite.Base.{
  ℕ, zero, suc, ◌+◌, ◌-◌, ◌*◌, ◌/◌, ◌%◌, ◌^◌, ◌≤◌, ◌<◌, ◌≡◌, ap, sym, ◌∙◌, bit_or, List, [], ◌∷◌,
  arith, length, length-set, get_or, get_or_of_le, set, take, drop, Bool-cases, ltb, ltb→lt, inl,
  inr,
}
use trinitite.Base.Bits.{bit_or-shifted, bit_or_comm, pow-add, low_bit-add}
use trinitite.Noun.Limbs.{limb_base, value, IsLimbs, value-take-drop, value-take-suc, value-take-lt}
use trinitite.Bignum.Shift.{pow-split}

-- Bit `i` of a number.
abbrev pub bit : ℕ → ℕ → ℕ
bit v i = v / 2 ^ i % 2

-- `limbs[i >> 6] |= b << (i & 63)`
unfoldable pub put_bit : List ℕ → ℕ → ℕ → List ℕ
put_bit limbs i b = set limbs (i / 64) (bit_or (get_or limbs (i / 64) 0) (b * 2 ^ (i % 64)))

-- `(limbs[i >> 6] >> (i & 63)) & 1`, 0 past the end
unfoldable pub limb_bit : List ℕ → ℕ → ℕ
limb_bit limbs i = get_or limbs (i / 64) 0 / 2 ^ (i % 64) % 2

-- A bit below the new one stays, and the new one is there.
pub bit-add_above : (v b i j : ℕ) → i < j → bit (v + b * 2 ^ j) i ≡ bit v i
bit-add_above v b i j h =
    let d = j - suc i in
    ap (λ (t : ℕ). bit (v + t) i)
      (ap (λ (t : ℕ). b * 2 ^ t) (gap i j h)
        ∙ ap (λ (t : ℕ). b * t) (pow-add 2 d (suc i))
        ∙ omega arith)
    ∙ low_bit-add v (b * 2 ^ d) i
  where
    gap : (i j : ℕ) → i < j → j ≡ j - suc i + suc i
    gap i j h = omega arith

pub bit-add_at : (v b j : ℕ) → v < 2 ^ j → b < 2 → bit (v + b * 2 ^ j) j ≡ b
bit-add_at v b j h k =
    let shifted : (v + b * 2 ^ j) / 2 ^ j ≡ v / 2 ^ j + b =
      add-mul-div_right v b (one-le-pow j 2 (omega arith)) in
    omega (arith, shifted, div-eq_of_lt h)

pub value-set :
    (l : List ℕ) (w x : ℕ)
    → w < length l
    → value (set l w x) + get_or l w 0 * limb_base ^ w ≡ value l + x * limb_base ^ w
value-set [] w x h = absurd (omega arith)
value-set (y ∷ l) zero x h = omega arith
value-set (y ∷ l) (suc w) x h = omega (
  arith,
  value-set l w x (omega (arith, h)),
  ap (λ (t : ℕ). get_or l w 0 * t) (pow-suc limb_base w),
  ap (λ (t : ℕ). x * t) (pow-suc limb_base w),
)

pub limb-le : (l : List ℕ) (w : ℕ) → get_or l w 0 * limb_base ^ w ≤ value l
limb-le [] w = omega arith
limb-le (y ∷ l) zero = omega arith
limb-le (y ∷ l) (suc w) =
    omega (arith, limb-le l w, ap (λ (t : ℕ). get_or l w 0 * t) (pow-suc limb_base w))

pub set-IsLimbs : (l : List ℕ) (w x : ℕ) → IsLimbs l → x < limb_base → IsLimbs (set l w x)
set-IsLimbs [] w x h k = tt
set-IsLimbs (y ∷ l) zero x h k = (k, h.1)
set-IsLimbs (y ∷ l) (suc w) x h k = (h.0, set-IsLimbs l w x h.1 k)

limb-lt : (l : List ℕ) (i : ℕ) → value l < 2 ^ i → get_or l (i / 64) 0 < 2 ^ (i % 64)
limb-lt l i h =
    lt_of_mul-lt (get_or l (i / 64) 0) (2 ^ (i % 64)) (limb_base ^ (i / 64))
      (omega (arith, limb-le l (i / 64), h, pow-split i))
  where
    lt_of_mul-lt : (a b c : ℕ) → a * c < c * b → a < b
    lt_of_mul-lt a b c h = elim (Bool-cases (ltb a b)) [
      | inl y ↦ ltb→lt a b y
      | inr n ↦ absurd (omega (arith, h, mul-le-mul_right {m = b} {n = a} c (ground (arith, n))))
    ]

pub new_limb : (x b o : ℕ) → x < 2 ^ o → bit_or x (b * 2 ^ o) ≡ x + b * 2 ^ o
new_limb x b o h = bit_or_comm x (b * 2 ^ o) ∙ bit_or-shifted o b x h ∙ omega arith

-- Setting the bit above all that are set adds it to the number.
pub value-put_bit :
    (l : List ℕ) (i b : ℕ)
    → value l < 2 ^ i
    → i < 64 * length l
    → value (put_bit l i b) ≡ value l + b * 2 ^ i
unfolding put_bit
value-put_bit l i b h k =
    let w = i / 64 in
    let o = i % 64 in
    let x = get_or l w 0 in
    omega (
      arith,
      value-set l w (bit_or x (b * 2 ^ o)) (omega (arith, k)),
      ap (λ (t : ℕ). t * limb_base ^ w) (new_limb x b o (limb-lt l i h)),
      ap (λ (t : ℕ). b * t) (pow-split i),
    )

pub put_bit-IsLimbs :
    (l : List ℕ) (i b : ℕ) → IsLimbs l → value l < 2 ^ i → b < 2 → IsLimbs (put_bit l i b)
unfolding put_bit
put_bit-IsLimbs l i b il h k =
    set-IsLimbs l (i / 64) (bit_or (get_or l (i / 64) 0) (b * 2 ^ (i % 64))) il
      (bound (get_or l (i / 64) 0) b (i % 64) (limb-lt l i h) k (omega arith))
  where
    bound : (x b o : ℕ) → x < 2 ^ o → b < 2 → o < 64 → bit_or x (b * 2 ^ o) < limb_base
    bound x zero o h k p = omega (
      arith,
      new_limb x 0 o h,
      h,
      pow-le-pow_right {n = 2} (omega arith) {i = o} {j = 64} (omega (arith, p)),
    )
    bound x (suc zero) o h k p = omega (
      arith,
      new_limb x 1 o h,
      h,
      pow-suc 2 o,
      pow-le-pow_right {n = 2} (omega arith) {i = suc o} {j = 64} (omega (arith, p)),
    )
    bound x (suc (suc b)) o h k p = absurd (omega (arith, k))

pub length-put_bit : (l : List ℕ) (i b : ℕ) → length (put_bit l i b) ≡ length l
unfolding put_bit
length-put_bit l i b = length-set l (i / 64) (bit_or (get_or l (i / 64) 0) (b * 2 ^ (i % 64)))

limb_above :
    (l : List ℕ) (w : ℕ)
    → IsLimbs l
    → value l / limb_base ^ w ≡ get_or l w 0 + value (drop (suc w) l) * limb_base
limb_above l w il =
    let low = value (take w l) in
    let high = get_or l w 0 + value (drop (suc w) l) * limb_base in
    let split : value l ≡ low + high * limb_base ^ w = omega (
      arith,
      value-take-drop (suc w) l,
      value-take-suc l w,
      ap (λ (t : ℕ). value (drop (suc w) l) * t) (pow-suc limb_base w),
    ) in
    ap (λ (t : ℕ). t / limb_base ^ w) split
    ∙ add-mul-div_right low high (one-le-pow w limb_base (omega arith))
    ∙ ap (λ (t : ℕ). t + high) (div-eq_of_lt (value-take-lt l w il))
    ∙ omega arith

-- The bit that is read out of the limbs is the bit of the number.
pub limb_bit-eq-bit : (l : List ℕ) (i : ℕ) → IsLimbs l → limb_bit l i ≡ bit (value l) i
unfolding limb_bit
limb_bit-eq-bit l i il =
    let w = i / 64 in
    let o = i % 64 in
    let x = get_or l w 0 in
    let r = value (drop (suc w) l) in
    let word : r * limb_base ≡ r * 2 ^ (63 - o) * 2 ^ suc o =
      ap (λ (t : ℕ). r * 2 ^ t) (top o (omega arith))
      ∙ ap (λ (t : ℕ). r * t) (pow-add 2 (63 - o) (suc o))
      ∙ omega arith in
    sym (
      ap (λ (t : ℕ). value l / t % 2) (pow-split i)
      ∙ ap (λ (t : ℕ). t % 2) (sym (div-div-eq-div-mul (value l) (limb_base ^ w) (2 ^ o)))
      ∙ ap (λ (t : ℕ). t / 2 ^ o % 2) (limb_above l w il ∙ ap (λ (t : ℕ). x + t) word)
      ∙ low_bit-add x (r * 2 ^ (63 - o)) o)
  where
    top : (o : ℕ) → o < 64 → 64 ≡ 63 - o + suc o
    top o h = omega arith

-- Past the limbs there are only zeros.
pub limb_bit_past : (l : List ℕ) (i : ℕ) → 64 * length l ≤ i → limb_bit l i ≡ 0
unfolding limb_bit
limb_bit_past l i h =
    ap (λ (t : ℕ). t / 2 ^ (i % 64) % 2) (get_or_of_le l (i / 64) 0 (omega (arith, h)))
    ∙ ap (λ (t : ℕ). t % 2) (zero-div (2 ^ (i % 64)))
