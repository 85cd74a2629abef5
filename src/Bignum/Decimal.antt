-- ===== src/Bignum/Decimal.antt =====
-- `bn_from_decimal`: decimal text, as bytes, to an atom.

use trinitite.Base.{
  ℕ, suc, ◌+◌, ◌-◌, ◌*◌, ◌/◌, ◌%◌, ◌^◌, ◌≤◌, ◌<◌, ◌≡◌, refl, ◌∙◌, List, [], ◌∷◌, arith, length,
  take, ◌==◌, if◌then◌else◌,
}
use trinitite.Base.Outcome.{Outcome, ok}
use trinitite.Noun.{Noun, direct}
use trinitite.Noun.Limbs.{limb_base, value, IsLimbs, IsLimbs-take, value-take_small}
use trinitite.Noun.Atom.{Yields}
use trinitite.Bignum.Scratch.{max_limbs, bn_normalize, bn_normalize-Yields}

-- The loop over the limbs, and the limb that a carry adds.
unfoldable pub do_mul10_add : List ℕ → ℕ → List ℕ
do_mul10_add [] carry = if carry == 0 then [] else carry ∷ []
do_mul10_add (x ∷ limbs) carry =
    ((x * 10 + carry) % limb_base) ∷ do_mul10_add limbs ((x * 10 + carry) / limb_base)

-- `(uint8_t)(buf[i] - '0')`
abbrev pub digit_of : ℕ → ℕ
digit_of c = (c + 256 - 48) % 256

unfoldable pub from_decimal_loop : List ℕ → List ℕ → List ℕ
unfolding do_mul10_add
from_decimal_loop scratch [] = scratch
from_decimal_loop scratch (c ∷ buf) =
    from_decimal_loop (take max_limbs (do_mul10_add scratch (digit_of c))) buf

unfoldable pub bn_from_decimal : List ℕ → Outcome Noun
unfolding from_decimal_loop bn_normalize
bn_from_decimal [] = ok (direct 0)
bn_from_decimal (c ∷ buf) =
    let scratch = from_decimal_loop (0 ∷ []) (c ∷ buf) in bn_normalize scratch (length scratch)

-- The number that decimal text means, after the digits of `n`.
abbrev pub number : ℕ → List ℕ → ℕ
number n [] = n
number n (c ∷ buf) = number (n * 10 + (c - 48)) buf

abbrev pub IsDigit : ℕ → Type 0
IsDigit c = (48 ≤ c) × (c < 58)

abbrev pub AllDigits : List ℕ → Type 0
AllDigits [] = Unit
AllDigits (c ∷ buf) = IsDigit c × AllDigits buf

value-do_mul10_add : (l : List ℕ) (c : ℕ) → value (do_mul10_add l c) ≡ value l * 10 + c
unfolding do_mul10_add
value-do_mul10_add [] c = ground arith
value-do_mul10_add (x ∷ l) c = omega (arith, value-do_mul10_add l ((x * 10 + c) / limb_base))

do_mul10_add-IsLimbs : (l : List ℕ) (c : ℕ) → IsLimbs l → c < limb_base → IsLimbs (do_mul10_add l c)
unfolding do_mul10_add
do_mul10_add-IsLimbs [] c h k = ground arith
do_mul10_add-IsLimbs (x ∷ l) c h k =
    (omega arith, do_mul10_add-IsLimbs l ((x * 10 + c) / limb_base) h.1 (omega (arith, h.0)))

number-le : (n : ℕ) (buf : List ℕ) → n ≤ number n buf
number-le n [] = omega arith
number-le n (c ∷ buf) = omega (arith, number-le (n * 10 + (c - 48)) buf)

take-nonempty : (k : ℕ) (l : List ℕ) → 0 < length l → 0 < length (take (suc k) l)
take-nonempty k [] h = absurd (omega arith)
take-nonempty k (x ∷ l) h = omega arith

length-do_mul10_add : (l : List ℕ) (c : ℕ) → length l ≤ length (do_mul10_add l c)
unfolding do_mul10_add
length-do_mul10_add [] c = omega arith
length-do_mul10_add (x ∷ l) c = omega (arith, length-do_mul10_add l ((x * 10 + c) / limb_base))

-- The limbs after some digits.
pub record Reads (n : ℕ) (l : List ℕ) : Type 0 where
  pub limbs : IsLimbs l
  pub nonempty : 0 < length l
  pub value_eq : value l ≡ n

from_decimal_loop-Reads :
    (buf l : List ℕ) (n : ℕ)
    → AllDigits buf
    → Reads n l
    → number n buf < limb_base ^ max_limbs
    → Reads (number n buf) (from_decimal_loop l buf)
unfolding from_decimal_loop
from_decimal_loop-Reads [] l n d r h = r
from_decimal_loop-Reads (c ∷ buf) l n d r h =
    let digit : digit_of c ≡ c - 48 = omega (arith, d.0.0, d.0.1) in
    let v = value-do_mul10_add l (digit_of c) in
    let next : value (do_mul10_add l (digit_of c)) ≡ n * 10 + (c - 48) =
      omega (arith, v, r.value_eq, digit) in
    let below = number-le (n * 10 + (c - 48)) buf in
    from_decimal_loop-Reads buf (take max_limbs (do_mul10_add l (digit_of c))) (n * 10 + (c - 48))
      d.1
      (record {
        limbs =
            IsLimbs-take max_limbs _ (do_mul10_add-IsLimbs l (digit_of c) r.limbs (omega arith));
        nonempty =
            take-nonempty 63 (do_mul10_add l (digit_of c))
              (omega (arith, length-do_mul10_add l (digit_of c), r.nonempty));
        value_eq =
            value-take_small max_limbs (do_mul10_add l (digit_of c)) (omega (arith, next, below, h))
            ∙ next;
      })
      h

-- Decimal text whose number has at most 4096 bits is read as that number, in canonical form.
pub bn_from_decimal-Yields :
    (buf : List ℕ)
    → AllDigits buf
    → number 0 buf < limb_base ^ max_limbs
    → Yields (bn_from_decimal buf) (number 0 buf)
unfolding bn_from_decimal
bn_from_decimal-Yields [] d h = (direct 0, refl, omega arith, refl)
bn_from_decimal-Yields (c ∷ buf) d h =
    let r =
      from_decimal_loop-Reads (c ∷ buf) (0 ∷ []) 0 d
        (record { limbs = (omega arith, tt); nonempty = omega arith; value_eq = refl }) h in
    let l = from_decimal_loop (0 ∷ []) (c ∷ buf) in
    bn_normalize-Yields l (length l) (number 0 (c ∷ buf)) r.limbs refl r.nonempty r.value_eq
