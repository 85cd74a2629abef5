-- ===== src/Noun/Limbs.antt =====
-- Little-endian arrays of 64-bit limbs and the number that they stand for.
use native.Mathlib.Nat.{pow-suc, one-le-pow}
use trinitite.Base.{
  ℕ, zero, suc, ◌+◌, ◌-◌, ◌*◌, ◌^◌, ◌≤◌, ◌<◌, ◌≢◌, ◌≡◌, ap, ap₂, List, [], ◌∷◌, arith, length,
  get_or, take, drop, All,
}

abbrev pub limb_base : ℕ
limb_base = 2 ^ 64

-- UINT64_MAX
abbrev pub limb_max : ℕ
limb_max = 2 ^ 64 - 1

abbrev pub value : List ℕ → ℕ
value [] = 0
value (x ∷ xs) = x + limb_base * value xs

abbrev pub IsLimbs : List ℕ → Type 0
IsLimbs l = All (λ x. x < limb_base) l

-- The top limb is not zero.
abbrev pub Trimmed : List ℕ → Type 0
Trimmed [] = ⊥
Trimmed (x ∷ []) = 0 < x
Trimmed (x ∷ (y ∷ r)) = Trimmed (y ∷ r)

pub Trimmed-pos : (l : List ℕ) → Trimmed l → 0 < value l
Trimmed-pos [] t = absurd t
Trimmed-pos (x ∷ []) t = omega arith
Trimmed-pos (x ∷ (y ∷ r)) t = omega (arith, Trimmed-pos (y ∷ r) t)

Trimmed-tail : (x y : ℕ) (r : List ℕ) → Trimmed (x ∷ (y ∷ r)) → 0 < value (y ∷ r)
Trimmed-tail x y r t = Trimmed-pos (y ∷ r) t

-- A number has one trimmed limb array.
pub value_injective :
    (a b : List ℕ) → IsLimbs a → IsLimbs b → Trimmed a → Trimmed b → value a ≡ value b → a ≡ b
value_injective [] b la lb ta tb e = absurd ta
value_injective (x ∷ xs) [] la lb ta tb e = absurd tb
value_injective (x ∷ []) (y ∷ []) la lb ta tb e = ground arith
value_injective (x ∷ []) (y ∷ (z ∷ zs)) la lb ta tb e =
    absurd (omega (arith, Trimmed-pos (z ∷ zs) tb))
value_injective (x ∷ (w ∷ ws)) (y ∷ []) la lb ta tb e =
    absurd (omega (arith, Trimmed-pos (w ∷ ws) ta))
value_injective (x ∷ (w ∷ ws)) (y ∷ (z ∷ zs)) la lb ta tb e =
    ap₂ ◌∷◌ (omega arith) (value_injective (w ∷ ws) (z ∷ zs) la.1 lb.1 ta tb (omega arith))

pub value-lt : (l : List ℕ) → IsLimbs l → value l < limb_base ^ length l
value-lt [] h = omega arith
value-lt (x ∷ xs) h = omega (arith, value-lt xs h.1, pow-suc limb_base (length xs))

pub pow-le-value : (l : List ℕ) → Trimmed l → limb_base ^ length l ≤ limb_base * value l
pow-le-value [] t = absurd t
pow-le-value (x ∷ []) t = omega (arith, pow-suc limb_base 0)
pow-le-value (x ∷ (y ∷ r)) t =
    omega (arith, pow-le-value (y ∷ r) t, pow-suc limb_base (length (y ∷ r)))

pub IsLimbs-take : (k : ℕ) (l : List ℕ) → IsLimbs l → IsLimbs (take k l)
IsLimbs-take zero l h = tt
IsLimbs-take (suc k) [] h = tt
IsLimbs-take (suc k) (x ∷ xs) h = (h.0, IsLimbs-take k xs h.1)

-- One more limb adds it at its place.
pub value-take-suc :
    (l : List ℕ) (k : ℕ) → value (take (suc k) l) ≡ value (take k l) + get_or l k 0 * limb_base ^ k
value-take-suc [] zero = omega arith
value-take-suc [] (suc k) = omega arith
value-take-suc (x ∷ xs) zero = omega arith
value-take-suc (x ∷ xs) (suc k) =
    omega (arith, value-take-suc xs k, ap (λ (t : ℕ). get_or xs k 0 * t) (pow-suc limb_base k))

pub value-take-lt : (l : List ℕ) (k : ℕ) → IsLimbs l → value (take k l) < limb_base ^ k
value-take-lt l zero h = omega arith
value-take-lt [] (suc k) h = omega (arith, one-le-pow (suc k) limb_base (omega arith))
value-take-lt (x ∷ xs) (suc k) h = omega (arith, value-take-lt xs k h.1, pow-suc limb_base k)

pub get_or-lt : (l : List ℕ) (k : ℕ) → IsLimbs l → get_or l k 0 < limb_base
get_or-lt [] k h = omega arith
get_or-lt (x ∷ xs) zero h = h.0
get_or-lt (x ∷ xs) (suc k) h = get_or-lt xs k h.1

-- A prefix whose last limb is there and is not zero is trimmed.
pub Trimmed-take : (l : List ℕ) (k : ℕ) → k < length l → get_or l k 0 ≢ 0 → Trimmed (take (suc k) l)
Trimmed-take [] k h ne = absurd (omega arith)
Trimmed-take (x ∷ xs) zero h ne = omega arith
Trimmed-take (x ∷ []) (suc k) h ne = absurd (omega arith)
Trimmed-take (x ∷ (y ∷ r)) (suc k) h ne = Trimmed-take (y ∷ r) k (omega arith) ne

pub Trimmed-length : (l : List ℕ) → Trimmed l → 0 < length l
Trimmed-length [] t = absurd t
Trimmed-length (x ∷ xs) t = omega arith

pub value-take-drop :
    (k : ℕ) (l : List ℕ) → value l ≡ value (take k l) + value (drop k l) * limb_base ^ k
value-take-drop zero l = omega arith
value-take-drop (suc k) [] = omega arith
value-take-drop (suc k) (x ∷ l) =
    omega (arith, value-take-drop k l, ap (λ (t : ℕ). value (drop k l) * t) (pow-suc limb_base k))

-- What fits below the limbs that are kept loses nothing.
pub value-take_small : (k : ℕ) (l : List ℕ) → value l < limb_base ^ k → value (take k l) ≡ value l
value-take_small k l h = small (value (drop k l)) (value-take-drop k l)
  where
    small : (d : ℕ) → value l ≡ value (take k l) + d * limb_base ^ k → value (take k l) ≡ value l
    small zero e = omega (arith, e)
    small (suc d) e = absurd (omega (arith, e, h))
