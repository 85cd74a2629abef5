-- ===== src/Ingress/Digest.antt =====
-- The comparison of digests in i2_ingress.c: the bits that differ, gathered by `|`, are none exactly when
-- the bytes are the same.
use Prim.Native.Nat.{differ}
use trinitite.Base.{
  ℕ, zero, suc, ◌+◌, ◌/◌, ◌%◌, ◌≤◌, ◌<◌, bit_or, bit_xor, ◌≡◌, refl, ap, subst, ◌∙◌, sym, inl, inr,
  ◌==◌, ==_iff, Bool-cases, List, arith,
}
use trinitite.Base.Bits.{bit_or-halves, bit_xor-halves}
use trinitite.Ingress.Bytes.{byte_at}
use trinitite.Ingress.Feed.{diff_loop}

bit_or-eq-zero_fuel : (f a b : ℕ) → a ≤ f → b ≤ f → bit_or a b ≡ 0 → (a ≡ 0) × (b ≡ 0)
bit_or-eq-zero_fuel zero a b p q h = (omega (arith, p), omega (arith, q))
bit_or-eq-zero_fuel (suc f) zero b p q h =
    ground (arith, bit_or-halves 0 b, bit_or-eq-zero_fuel f 0 (b / 2))
bit_or-eq-zero_fuel (suc f) (suc a) b p q h =
    ground (arith, bit_or-halves (suc a) b, bit_or-eq-zero_fuel f (suc a / 2) (b / 2))

differ-eq-zero : (x y : ℕ) → differ x y ≡ 0 → x ≡ y
differ-eq-zero zero y h = sym h
differ-eq-zero (suc x) zero h = h
differ-eq-zero (suc x) (suc y) h = ap suc (differ-eq-zero x y h)

differ_self : (x : ℕ) → differ x x ≡ 0
differ_self zero = refl
differ_self (suc x) = differ_self x

bit_xor-eq-zero_fuel : (f a b : ℕ) → a ≤ f → b ≤ f → bit_xor a b ≡ 0 → a ≡ b
bit_xor-eq-zero_fuel zero a b p q h = omega (arith, p, q)
bit_xor-eq-zero_fuel (suc f) a b p q h = omega (
  arith,
  bit_xor-halves a b,
  differ-eq-zero (a % 2) (b % 2) (omega (arith, bit_xor-halves a b, h)),
  bit_xor-eq-zero_fuel f (a / 2) (b / 2) (omega (arith, p)) (omega (arith, q))
      (omega (arith, bit_xor-halves a b, h)),
)

bit_xor_self_fuel : (f a : ℕ) → a ≤ f → bit_xor a a ≡ 0
bit_xor_self_fuel zero zero p = refl
bit_xor_self_fuel zero (suc a) p = absurd (omega arith)
bit_xor_self_fuel (suc f) a p =
    omega (
      arith,
      bit_xor-halves a a,
      differ_self (a % 2),
      bit_xor_self_fuel f (a / 2) (omega (arith, p)),
    )

bit_or-eq-zero : (a b : ℕ) → bit_or a b ≡ 0 → (a ≡ 0) × (b ≡ 0)
bit_or-eq-zero a b h = bit_or-eq-zero_fuel (a + b) a b (omega arith) (omega arith) h

bit_xor-eq-zero : (a b : ℕ) → bit_xor a b ≡ 0 → a ≡ b
bit_xor-eq-zero a b h = bit_xor-eq-zero_fuel (a + b) a b (omega arith) (omega arith) h

bit_xor_self : (a : ℕ) → bit_xor a a ≡ 0
bit_xor_self a = bit_xor_self_fuel a a (omega arith)

pub diff_loop-eq-zero :
    (n i : ℕ) (digest header : List ℕ) (diff : ℕ)
    → diff_loop n i digest header diff ≡ 0
    → (diff ≡ 0) × ((j : ℕ) → i ≤ j → j < i + n → byte_at digest j ≡ byte_at header (24 + j))
unfolding diff_loop
diff_loop-eq-zero zero i digest header diff h = (h, λ j p q. absurd (omega (arith, p, q)))
diff_loop-eq-zero (suc n) i digest header diff h =
    let rest = diff_loop-eq-zero n (suc i) digest header _ h in
    let zeros = bit_or-eq-zero diff (bit_xor (byte_at digest i) (byte_at header (24 + i))) rest.0 in
    (zeros.0, every (bit_xor-eq-zero (byte_at digest i) (byte_at header (24 + i)) zeros.1) rest.1)
  where
    every :
        byte_at digest i ≡ byte_at header (24 + i)
        → ((j : ℕ) → suc i ≤ j → j < suc i + n → byte_at digest j ≡ byte_at header (24 + j))
        → (j : ℕ) → i ≤ j
        → j < i + suc n
        → byte_at digest j ≡ byte_at header (24 + j)
    every e later j p q = elim (Bool-cases (i == j)) [
      | inl y ↦ subst (λ (k : ℕ). byte_at digest k ≡ byte_at header (24 + k)) ((==_iff i j).0 y) e
      | inr apart ↦ later j (ground (arith, p, apart)) (omega (arith, q))
    ]

pub diff_loop-equal :
    (n i : ℕ) (digest header : List ℕ)
    → ((j : ℕ) → i ≤ j → j < i + n → byte_at digest j ≡ byte_at header (24 + j))
    → diff_loop n i digest header 0 ≡ 0
unfolding diff_loop
diff_loop-equal zero i digest header h = refl
diff_loop-equal (suc n) i digest header h =
    let same : bit_xor (byte_at digest i) (byte_at header (24 + i)) ≡ 0 =
      ap (λ b. bit_xor (byte_at digest i) b) (sym (h i (omega arith) (omega arith)))
      ∙ bit_xor_self (byte_at digest i) in
    rw same
      (diff_loop-equal n (suc i) digest header (λ j p q. h j (omega (arith, p)) (omega (arith, q))))
