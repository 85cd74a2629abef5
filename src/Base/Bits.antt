-- ===== src/Base/Bits.antt =====
-- The bit operations of C on variables, as arithmetic: a mask of low bits is a remainder, and the
-- `|` of disjoint fields is a sum.
use Prim.Native.Nat.{
  ℕ, zero, suc, ◌+◌, ◌-◌, ◌*◌, ◌/◌, ◌%◌, ◌^◌, ◌≤◌, ◌<◌, min, max, bit_and, bit_or, digits,
  bit_and-bitwise, bit_or-bitwise, bit_xor, bit_xor-bitwise, differ,
}
use mathlib.Core.Path.{◌≡◌, refl, ap, ◌∙◌}
use native.Mathlib.Nat.{pow-suc, pow-zero, one-le-pow, zero-add, add-mul-div_right}
use native.Mathlib.Omega.{arith}

-- The fuel of the library's digit recursion does not matter once it covers the number.
module _ (rest : ℕ → ℕ) (digit : ℕ → ℕ → ℕ) where
  digits_fuel_irrelevant :
      (f g a b : ℕ) → a ≤ f → a ≤ g → digits rest digit f a b ≡ digits rest digit g a b
  digits_fuel_irrelevant zero zero a b p q = refl
  digits_fuel_irrelevant zero (suc g) zero b p q = refl
  digits_fuel_irrelevant zero (suc g) (suc a) b p q = absurd (omega arith)
  digits_fuel_irrelevant (suc f) zero zero b p q = refl
  digits_fuel_irrelevant (suc f) zero (suc a) b p q = absurd (omega arith)
  digits_fuel_irrelevant (suc f) (suc g) zero b p q = refl
  digits_fuel_irrelevant (suc f) (suc g) (suc a) b p q =
      rw (digits_fuel_irrelevant f g (suc a / 2) (b / 2) (omega arith) (omega arith))

  pub digits_step :
      (a b : ℕ)
      → digits rest digit (suc a) (suc a) b
        ≡ digits rest digit (suc a / 2) (suc a / 2) (b / 2) * 2 + digit (suc a % 2) (b % 2)
  digits_step a b =
      omega (
        arith,
        digits_fuel_irrelevant a (suc a / 2) (suc a / 2) (b / 2) (omega arith) (omega arith),
      )

pub bit_or-halves : (a b : ℕ) → bit_or a b ≡ bit_or (a / 2) (b / 2) * 2 + max (a % 2) (b % 2)
bit_or-halves zero b = omega (arith, bit_or-bitwise 0 b, bit_or-bitwise 0 (b / 2))
bit_or-halves (suc a) b = omega (
  arith,
  bit_or-bitwise (suc a) b,
  bit_or-bitwise (suc a / 2) (b / 2),
  digits_step (λ y. y) max a b,
)

pub bit_and-halves : (a b : ℕ) → bit_and a b ≡ bit_and (a / 2) (b / 2) * 2 + min (a % 2) (b % 2)
bit_and-halves zero b = omega (arith, bit_and-bitwise 0 b, bit_and-bitwise 0 (b / 2))
bit_and-halves (suc a) b = omega (
  arith,
  bit_and-bitwise (suc a) b,
  bit_and-bitwise (suc a / 2) (b / 2),
  digits_step (λ y. 0) min a b,
)

pub bit_xor-halves : (a b : ℕ) → bit_xor a b ≡ bit_xor (a / 2) (b / 2) * 2 + differ (a % 2) (b % 2)
bit_xor-halves zero b =
    omega (arith, bit_xor-bitwise 0 b, bit_xor-bitwise 0 (b / 2), differ-bit (b % 2) (omega arith))
  where
    differ-bit : (c : ℕ) → c < 2 → differ 0 c ≡ c
    differ-bit zero h = refl
    differ-bit (suc zero) h = refl
    differ-bit (suc (suc c)) h = absurd (omega arith)
bit_xor-halves (suc a) b = omega (
  arith,
  bit_xor-bitwise (suc a) b,
  bit_xor-bitwise (suc a / 2) (b / 2),
  digits_step (λ y. y) differ a b,
)

bit_or-zero_fuel : (f a : ℕ) → a ≤ f → bit_or a 0 ≡ a
bit_or-zero_fuel f zero h = refl
bit_or-zero_fuel zero (suc a) h = absurd (omega arith)
bit_or-zero_fuel (suc f) (suc a) h =
    omega (arith, bit_or-halves (suc a) 0, bit_or-zero_fuel f (suc a / 2) (omega arith))

bit_and-zero_fuel : (f a : ℕ) → a ≤ f → bit_and a 0 ≡ 0
bit_and-zero_fuel f zero h = refl
bit_and-zero_fuel zero (suc a) h = absurd (omega arith)
bit_and-zero_fuel (suc f) (suc a) h =
    omega (arith, bit_and-halves (suc a) 0, bit_and-zero_fuel f (suc a / 2) (omega arith))

pub bit_or-zero : (a : ℕ) → bit_or a 0 ≡ a
bit_or-zero a = bit_or-zero_fuel a a (omega arith)

pub bit_and-zero : (a b : ℕ) → (bit_and a 0 ≡ 0) × (bit_and 0 b ≡ 0)
bit_and-zero a b = (bit_and-zero_fuel a a (omega arith), omega (arith, bit_and-bitwise 0 b))

mul-pow-suc : (q k : ℕ) → q * 2 ^ suc k ≡ 2 * (q * 2 ^ k)
mul-pow-suc q k = omega (arith, ap (λ (t : ℕ). q * t) (pow-suc 2 k))

-- `(q << k) | r` where `r` has at most `k` bits.
pub bit_or-shifted : (k q r : ℕ) → r < 2 ^ k → bit_or (q * 2 ^ k) r ≡ q * 2 ^ k + r
bit_or-shifted zero q r h = ground (arith, bit_or-zero q)
bit_or-shifted (suc k) q r h = ground (
  arith,
  bit_or-halves (q * 2 ^ suc k) r,
  mul-pow-suc q k,
  pow-suc 2 k,
  bit_or-shifted k q (r / 2) (omega (arith, pow-suc 2 k)),
)

bit_and-low : (k q r : ℕ) → r < 2 ^ k → bit_and (q * 2 ^ k + r) (2 ^ k - 1) ≡ r
bit_and-low zero q r h =
    omega (arith, bit_and-zero_fuel (q * 2 ^ 0 + r) (q * 2 ^ 0 + r) (omega arith))
bit_and-low (suc k) q r h = ground (
  arith,
  bit_and-halves (q * 2 ^ suc k + r) (2 ^ suc k - 1),
  mul-pow-suc q k,
  pow-suc 2 k,
  one-le-pow k 2,
  bit_and-low k q (r / 2) (omega (arith, pow-suc 2 k)),
)

-- `a & (2^k - 1)` is the remainder by `2^k`.
pub bit_and-mask : (k a : ℕ) → bit_and a (2 ^ k - 1) ≡ a % 2 ^ k
bit_and-mask k a = ground (arith, one-le-pow k 2, bit_and-low k (a / 2 ^ k) (a % 2 ^ k))

pub pow-add : (b m n : ℕ) → b ^ (m + n) ≡ b ^ m * b ^ n
pow-add b zero n =
    omega (arith, ap (λ (t : ℕ). b ^ t) (zero-add n), ap (λ (t : ℕ). t * b ^ n) (pow-zero b))
pow-add b (suc m) n = omega (
  arith,
  pow-suc b (m + n),
  ap (λ (t : ℕ). t * b ^ n) (pow-suc b m),
  ap (λ (t : ℕ). t * b) (pow-add b m n),
  ap (λ (t : ℕ). b ^ t) (suc-add m n),
)
  where
    suc-add : (m n : ℕ) → suc m + n ≡ suc (m + n)
    suc-add m n = omega arith

bit_or_comm_fuel : (f a b : ℕ) → a ≤ f → b ≤ f → bit_or a b ≡ bit_or b a
bit_or_comm_fuel zero a b p q = ground arith
bit_or_comm_fuel (suc f) zero b p q = omega (arith, bit_or-bitwise 0 b, bit_or-zero b)
bit_or_comm_fuel (suc f) (suc a) zero p q =
    omega (arith, bit_or-bitwise 0 (suc a), bit_or-zero (suc a))
bit_or_comm_fuel (suc f) (suc a) (suc b) p q = omega (
  arith,
  bit_or-halves (suc a) (suc b),
  bit_or-halves (suc b) (suc a),
  bit_or_comm_fuel f (suc a / 2) (suc b / 2) (omega arith) (omega arith),
)

pub bit_or_comm : (a b : ℕ) → bit_or a b ≡ bit_or b a
bit_or_comm a b = bit_or_comm_fuel (a + b) a b (omega arith) (omega arith)

-- A multiple of 2 ^ (i + 1) does not change bit i.
pub low_bit-add : (x y i : ℕ) → (x + y * 2 ^ suc i) / 2 ^ i % 2 ≡ x / 2 ^ i % 2
low_bit-add x y i =
    ap (λ (t : ℕ). t % 2)
      (ap (λ (t : ℕ). (x + t) / 2 ^ i) (omega (arith, ap (λ (t : ℕ). y * t) (pow-suc 2 i)))
        ∙ add-mul-div_right x (2 * y) (one-le-pow i 2 (omega arith)))
    ∙ ground arith
