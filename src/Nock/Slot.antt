-- ===== src/Nock/Slot.antt =====
-- `slot`: the noun at an axis. The bits of the axis below its leading one are a path from the root,
-- 0 to the head and 1 to the tail.
use native.Mathlib.Nat.{pow-suc, pow-succ', div-div-eq-div-mul}
use trinitite.Base.{
  ℕ, zero, suc, ◌+◌, ◌*◌, ◌/◌, ◌%◌, ◌^◌, ◌<◌, ◌≡◌, refl, ap, sym, ◌∙◌, Bool, true, false, ltb,
  lt→ltb, ◌==◌, if◌then◌else◌, arith,
}
use trinitite.Base.Outcome.{Outcome, ok, crash, ◌>>=◌}
use trinitite.Noun.{Noun, direct, indirect, cell}

-- `while (tmp > 1) { tmp >>= 1; depth++; }`, with fuel: a 64-bit word takes at most 63 rounds.
unfoldable pub depth_loop : ℕ → ℕ → ℕ
depth_loop zero tmp = 0
depth_loop (suc fuel) tmp =
    let rest = depth_loop fuel (tmp / 2) in if ltb 1 tmp then suc rest else 0

abbrev pub path_fuel : ℕ
path_fuel = 64

abbrev pub bit_at : ℕ → ℕ → Bool
bit_at a i = (a / 2 ^ i) % 2 == 1

-- The loop over the path bits, from bit `i - 1` down to bit 0.
unfoldable pub walk : ℕ → ℕ → Noun → Outcome Noun
walk a zero subject = ok subject
walk a (suc i) (direct v) = crash "slot in atom"
walk a (suc i) (indirect l) = crash "slot in atom"
walk a (suc i) (cell h t) = walk a i (if bit_at a i then t else h)

unfoldable pub slot : Noun → Noun → Outcome Noun
unfolding depth_loop walk
slot (direct a) subject =
    if a == 0 then crash "slot axis 0" else walk a (depth_loop path_fuel a) subject
slot (indirect l) subject = crash "slot axis not direct"
slot (cell h t) subject = crash "slot axis not direct"

abbrev pub child : Bool → Noun → Outcome Noun
child b (direct v) = crash "slot in atom"
child b (indirect l) = crash "slot in atom"
child true (cell h t) = ok t
child false (cell h t) = ok h

-- Enough fuel is enough.
pub depth_loop_fuel : (f g t : ℕ) → t < 2 ^ f → t < 2 ^ g → depth_loop f t ≡ depth_loop g t
unfolding depth_loop
depth_loop_fuel zero zero t p q = refl
depth_loop_fuel zero (suc g) t p q = ground arith
depth_loop_fuel (suc f) zero t p q = ground arith
depth_loop_fuel (suc f) (suc g) t p q =
    ground
      (arith, depth_loop_fuel f g (t / 2) (omega (arith, pow-suc 2 f)) (omega (arith, pow-suc 2 g)))

pub depth_double :
    (a b : ℕ)
    → 0 < a
    → b < 2
    → 2 * a + b < 2 ^ 63
    → depth_loop 64 (2 * a + b) ≡ suc (depth_loop 64 a)
unfolding depth_loop
depth_double a b p q h = rw (lt→ltb 1 (2 * a + b) (omega arith)) (
    ap suc (ap (depth_loop 63) (omega arith) ∙ depth_loop_fuel 63 64 a (omega arith) (omega arith)))

half-shift : (n i : ℕ) → n / 2 ^ suc i ≡ n / 2 / 2 ^ i
half-shift n i = rw (pow-succ' 2 i) (sym (div-div-eq-div-mul n 2 (2 ^ i)))

pub bit_at-double : (a b i : ℕ) → b < 2 → bit_at (2 * a + b) (suc i) ≡ bit_at a i
bit_at-double a b i q =
    ap (λ (t : ℕ). t % 2 == 1) (half-shift (2 * a + b) i ∙ ap (λ (t : ℕ). t / 2 ^ i) (omega arith))

pub bit_at-zero : (a b : ℕ) → b < 2 → bit_at (2 * a + b) 0 ≡ (b == 1)
bit_at-zero a b q = ground arith

-- The last bit of the axis is the last step of the walk.
walk-double :
    (a b k : ℕ) (n : Noun) → b < 2 → walk (2 * a + b) (suc k) n ≡ (walk a k n >>= child (b == 1))
unfolding walk
walk-double a b zero (direct v) q = ground arith
walk-double a b zero (indirect l) q = ground arith
walk-double a b zero (cell h t) q = ground (arith, bit_at-zero a b)
walk-double a b (suc k) (direct v) q = refl
walk-double a b (suc k) (indirect l) q = refl
walk-double a b (suc k) (cell h t) q =
    ap (λ c. walk (2 * a + b) (suc k) (if c then t else h)) (bit_at-double a b k q)
    ∙ walk-double a b k (if bit_at a k then t else h) q

pub slot-double :
    (a b : ℕ) (n : Noun)
    → 0 < a
    → b < 2
    → 2 * a + b < 2 ^ 63
    → slot (direct (2 * a + b)) n ≡ (slot (direct a) n >>= child (b == 1))
unfolding slot
slot-double a b n p q h =
    rw (nonzero (2 * a + b) (omega arith), nonzero a p, depth_double a b p q h)
      (walk-double a b (depth_loop 64 a) n q)
  where
    nonzero : (x : ℕ) → 0 < x → (x == 0) ≡ false
    nonzero x h = ground arith

-- `slot` is the tree addressing of Nock at every axis of a direct atom: axis 1 is the whole noun,
-- axis 2a is the head and axis 2a + 1 the tail of what stands at axis a, and axis 0 crashes.
pub slot-equations :
    (a : ℕ) (n : Noun)
    → 0 < a
    → 2 * a + 1 < 2 ^ 63
    → (slot (direct 0) n ≡ crash "slot axis 0")
      × (slot (direct 1) n ≡ ok n)
      × (slot (direct (2 * a)) n ≡ (slot (direct a) n >>= child false))
      × (slot (direct (2 * a + 1)) n ≡ (slot (direct a) n >>= child true))
slot-equations a n p h = (
  unfold slot in refl,
  unfold slot in refl,
  ap (λ (t : ℕ). slot (direct t) n) (omega arith) ∙ slot-double a 0 n p (omega arith) (omega arith),
  slot-double a 1 n p (omega arith) h,
)
