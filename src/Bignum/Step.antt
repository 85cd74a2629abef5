-- ===== src/Bignum/Step.antt =====
-- `bn_inc` and `bn_dec`: carry and borrow along the limbs.
use trinitite.Base.{
  ℕ, suc, ◌+◌, ◌-◌, ◌^◌, ◌≤◌, ◌<◌, ◌≡◌, ◌≢◌, ◌⊎◌, ◌↔◌, Option, none, some, true, refl, ap, sym,
  subst, ◌∙◌, List, [], ◌∷◌, ◌++◌, arith, length, get_or, drop, replicate, ltb, ◌==◌, if◌then◌else◌,
  false, Bool-cases, inl, inr,
}
use trinitite.Base.Outcome.{Outcome, ok, crash, fault, ◌>>=◌}
use trinitite.Noun.{Noun, direct, indirect, cell}
use trinitite.Noun.Limbs.{limb_max, value, IsLimbs, Trimmed, Trimmed-length}
use trinitite.Noun.Atom.{
  make_atom, make_atom_checked, or_exhausted, make_atom-Yields, val, Yields, IsAtom,
}
use trinitite.Bignum.Scratch.{bn_normalize, bn_normalize-Yields, max_limbs, Fits}

-- `while (i < size && limbs[i] == UINT64_MAX) i++;`
unfoldable pub saturated : List ℕ → ℕ
saturated [] = 0
saturated (x ∷ xs) = if x == limb_max then suc (saturated xs) else 0

-- The scratch array of `bn_inc`: zeros below `i`, the incremented limb or the carry, the rest.
unfoldable pub inc_scratch : List ℕ → ℕ → List ℕ
inc_scratch l i =
    replicate i 0 ++ ((if ltb i (length l) then get_or l i 0 + 1 else 1) ∷ drop (suc i) l)

abbrev pub inc_size : List ℕ → ℕ → ℕ
inc_size l i = if i == length l then length l + 1 else length l

-- The writes of `limbs` to an array of `capacity` limbs, in order from `i` on, and the limbs in it.
unfoldable pub store_limbs : ℕ → List ℕ → ℕ → Outcome (List ℕ)
store_limbs capacity [] i = ok []
store_limbs capacity (x ∷ xs) i =
    let rest = store_limbs capacity xs (suc i) in
    if ltb i capacity then (rest >>= λ s. ok (x ∷ s)) else fault

-- `scratch` has 65 limbs.
unfoldable pub bn_inc : Noun → Outcome Noun
unfolding make_atom saturated inc_scratch store_limbs
bn_inc (direct v) = if ltb v (2 ^ 63 - 1) then ok (direct (v + 1)) else make_atom (2 ^ 63 ∷ []) 1
bn_inc (indirect l) =
    let i = saturated l in
    store_limbs (max_limbs + 1) (inc_scratch l i) 0 >>= λ scratch. make_atom scratch (inc_size l i)
bn_inc (cell h t) = crash "bn_inc: unsupported atom type"

-- `while (i < size && limbs[i] == 0) i++;`
unfoldable pub zeros : List ℕ → ℕ
zeros [] = 0
zeros (x ∷ xs) = if x == 0 then suc (zeros xs) else 0

-- The scratch array of `bn_dec`: UINT64_MAX below `i`, the decremented limb, the rest.
unfoldable pub dec_scratch : List ℕ → ℕ → List ℕ
dec_scratch l i = replicate i limb_max ++ ((get_or l i 0 - 1) ∷ drop (suc i) l)

-- `scratch` has 64 limbs.
unfoldable pub bn_dec : Noun → Outcome Noun
unfolding bn_normalize zeros dec_scratch store_limbs
bn_dec (direct v) = if v == 0 then crash "bn_dec: underflow" else ok (direct (v - 1))
bn_dec (indirect l) =
    let i = zeros l in
    if i == length l
    then crash "bn_dec: underflow (indirect zero)"
    else store_limbs max_limbs l 0 >>= λ scratch. bn_normalize (dec_scratch scratch i) (length l)
bn_dec (cell h t) = crash "bn_dec: unsupported atom type"

pub store_limbs-eq :
    (capacity : ℕ) (xs : List ℕ) (i : ℕ)
    → i + length xs ≤ capacity
    → store_limbs capacity xs i ≡ ok xs
unfolding store_limbs
store_limbs-eq capacity [] i h = refl
store_limbs-eq capacity (x ∷ xs) i h =
    let room : ltb i capacity ≡ true = ground (arith, h) in
    rw (room, store_limbs-eq capacity xs (suc i) (omega (arith, h))) refl

-- One of the writes is past the end.
pub store_limbs-fault :
    (capacity : ℕ) (xs : List ℕ) (i : ℕ)
    → i ≤ capacity
    → capacity < i + length xs
    → store_limbs capacity xs i ≡ fault
unfolding store_limbs
store_limbs-fault capacity [] i k h = absurd (omega (arith, k, h))
store_limbs-fault capacity (x ∷ xs) i k h = elim (Bool-cases (ltb i capacity)) [
  | inl room ↦
      rw (room, store_limbs-fault capacity xs (suc i) (ground (arith, room)) (omega (arith, h)))
        refl
  | inr none_left ↦ rw none_left refl
]

pub store_limbs-cases :
    (capacity : ℕ) (xs : List ℕ) (i : ℕ)
    → (store_limbs capacity xs i ≡ ok xs) ⊎ (store_limbs capacity xs i ≡ fault)
unfolding store_limbs
store_limbs-cases capacity [] i = inl refl
store_limbs-cases capacity (x ∷ xs) i = elim (Bool-cases (ltb i capacity)) [
  | inl room ↦ elim (store_limbs-cases capacity xs (suc i)) [
    | inl e ↦ inl (rw (room, e) refl)
    | inr e ↦ inr (rw (room, e) refl)
  ]
  | inr none_left ↦ inr (rw none_left refl)
]

saturated-le : (l : List ℕ) → saturated l ≤ length l
unfolding saturated
saturated-le [] = omega arith
saturated-le (x ∷ xs) = ground (arith, saturated-le xs)

inc_scratch-suc :
    (x : ℕ) (xs : List ℕ) (i : ℕ) → inc_scratch (x ∷ xs) (suc i) ≡ 0 ∷ inc_scratch xs i
unfolding inc_scratch
inc_scratch-suc x xs i = ground arith

value-inc_scratch : (l : List ℕ) → IsLimbs l → value (inc_scratch l (saturated l)) ≡ value l + 1
unfolding saturated
value-inc_scratch [] h = unfold inc_scratch in refl
value-inc_scratch (x ∷ xs) h = elim (Bool-cases (x == limb_max)) [
  | inl e ↦ rw (e, inc_scratch-suc x xs (saturated xs)) (ground (arith, value-inc_scratch xs h.1))
  | inr e ↦ rw e (unfold inc_scratch in ground arith)
]

inc_scratch-IsLimbs : (l : List ℕ) → IsLimbs l → IsLimbs (inc_scratch l (saturated l))
unfolding saturated
inc_scratch-IsLimbs [] h = unfold inc_scratch in omega arith
inc_scratch-IsLimbs (x ∷ xs) h = elim (Bool-cases (x == limb_max)) [
  | inl e ↦ rw (e, inc_scratch-suc x xs (saturated xs)) (omega arith, inc_scratch-IsLimbs xs h.1)
  | inr e ↦ rw e (unfold inc_scratch in (ground arith, h.1))
]

length-inc_scratch : (l : List ℕ) → length (inc_scratch l (saturated l)) ≡ inc_size l (saturated l)
unfolding saturated
length-inc_scratch [] = unfold inc_scratch in refl
length-inc_scratch (x ∷ xs) = elim (Bool-cases (x == limb_max)) [
  | inl e ↦ rw (e, inc_scratch-suc x xs (saturated xs)) (ground (arith, length-inc_scratch xs))
  | inr e ↦ rw e (unfold inc_scratch in ground arith)
]

inc_fits :
    (l : List ℕ)
    → length l ≤ max_limbs
    → store_limbs (max_limbs + 1) (inc_scratch l (saturated l)) 0 ≡ ok (inc_scratch l (saturated l))
inc_fits l h =
    store_limbs-eq (max_limbs + 1) (inc_scratch l (saturated l)) 0
      (ground (arith, length-inc_scratch l, h))

-- `bn_inc` adds one to a canonical atom of at most 64 limbs, in canonical form, with the step from
-- 2 ^ 63 - 1 to the first indirect atom and the carry into a new limb.
pub bn_inc-Yields : (a : Noun) → Fits a → Yields (bn_inc a) (val a + 1)
unfolding bn_inc bn_normalize
bn_inc-Yields (direct v) h = elim (Bool-cases (ltb v (2 ^ 63 - 1))) [
  | inl e ↦ rw e (direct (v + 1), refl, ground arith, refl)
  | inr e ↦ rw e (
      subst (λ t. Yields (make_atom (2 ^ 63 ∷ []) 1) t) (ground arith)
        (make_atom-Yields (2 ^ 63 ∷ []) 0 (omega arith) (omega arith)))
]
bn_inc-Yields (indirect l) h = rw (inc_fits l h.3) (
    bn_normalize-Yields (inc_scratch l (saturated l)) (inc_size l (saturated l)) (value l + 1)
      (inc_scratch-IsLimbs l h.0) (length-inc_scratch l) (ground (arith, Trimmed-length l h.1))
      (value-inc_scratch l h.0))
bn_inc-Yields (cell x y) h = absurd h

zeros-le : (l : List ℕ) → zeros l ≤ length l
unfolding zeros
zeros-le [] = omega arith
zeros-le (x ∷ xs) = ground (arith, zeros-le xs)

-- All limbs are zero only where the value is.
zeros-lt : (l : List ℕ) → 0 < value l → zeros l < length l
unfolding zeros
zeros-lt [] h = absurd (omega arith)
zeros-lt (x ∷ xs) h = elim (Bool-cases (x == 0)) [
  | inl e ↦ rw e (omega (arith, zeros-lt xs (ground arith)))
  | inr e ↦ rw e (omega arith)
]

dec_scratch-suc :
    (x : ℕ) (xs : List ℕ) (i : ℕ) → dec_scratch (x ∷ xs) (suc i) ≡ limb_max ∷ dec_scratch xs i
unfolding dec_scratch
dec_scratch-suc x xs i = refl

value-dec_scratch :
    (l : List ℕ) → IsLimbs l → 0 < value l → value (dec_scratch l (zeros l)) + 1 ≡ value l
unfolding zeros
value-dec_scratch [] h p = absurd (omega arith)
value-dec_scratch (x ∷ xs) h p = elim (Bool-cases (x == 0)) [
  | inl e ↦
      rw (e, dec_scratch-suc x xs (zeros xs))
        (ground (arith, value-dec_scratch xs h.1 (ground arith)))
  | inr e ↦ rw e (unfold dec_scratch in ground arith)
]

dec_scratch-IsLimbs : (l : List ℕ) → IsLimbs l → 0 < value l → IsLimbs (dec_scratch l (zeros l))
unfolding zeros
dec_scratch-IsLimbs [] h p = absurd (omega arith)
dec_scratch-IsLimbs (x ∷ xs) h p = elim (Bool-cases (x == 0)) [
  | inl e ↦
      rw (e, dec_scratch-suc x xs (zeros xs))
        (omega arith, dec_scratch-IsLimbs xs h.1 (ground arith))
  | inr e ↦ rw e (unfold dec_scratch in (ground arith, h.1))
]

length-dec_scratch : (l : List ℕ) → 0 < value l → length (dec_scratch l (zeros l)) ≡ length l
unfolding zeros
length-dec_scratch [] p = absurd (omega arith)
length-dec_scratch (x ∷ xs) p = elim (Bool-cases (x == 0)) [
  | inl e ↦ rw (e, dec_scratch-suc x xs (zeros xs)) (ap suc (length-dec_scratch xs (ground arith)))
  | inr e ↦ rw e (unfold dec_scratch in refl)
]

dec_tests :
    (l : List ℕ)
    → 0 < value l
    → length l ≤ max_limbs
    → ((zeros l == length l) ≡ false) × (store_limbs max_limbs l 0 ≡ ok l)
dec_tests l p h = (ground (arith, zeros-lt l p), store_limbs-eq max_limbs l 0 (omega (arith, h)))

dec_indirect :
    (l : List ℕ) (v : ℕ)
    → IsLimbs l
    → value l ≡ v + 1
    → length l ≤ max_limbs
    → Yields (bn_dec (indirect l)) v
unfolding bn_dec bn_normalize
dec_indirect l v il e h =
    let p : 0 < value l = omega arith in
    rw ((dec_tests l p h).0, (dec_tests l p h).1)
      (bn_normalize-Yields (dec_scratch l (zeros l)) (length l) v (dec_scratch-IsLimbs l il p)
        (length-dec_scratch l p) (omega (arith, zeros-lt l p))
        (omega (arith, value-dec_scratch l il p)))

-- `bn_dec` takes one from a canonical atom of at most 64 limbs that is not zero, in canonical form,
-- and crashes on zero.
pub bn_dec-Yields :
    (a : Noun)
    → Fits a
    → ((v : ℕ) → val a ≡ v + 1 → Yields (bn_dec a) v)
      × (val a ≡ 0 → bn_dec a ≡ crash "bn_dec: underflow")
bn_dec-Yields (direct v) h = (
  λ w e. unfold bn_dec in rw ((dec_some v w e).0) (direct (v - 1), refl, omega arith, omega arith),
  λ e. unfold bn_dec in ground arith,
)
  where
    dec_some : (v w : ℕ) → v ≡ w + 1 → ((v == 0) ≡ false) × Unit {0}
    dec_some v w e = (ground arith, tt)
bn_dec-Yields (indirect l) h = (λ w e. dec_indirect l w h.0 e h.3, λ e. absurd (omega arith))
bn_dec-Yields (cell x y) h = absurd h

make_atom-writes : (x : List ℕ) (n : ℕ) → make_atom x n ≢ fault
make_atom-writes x n e = exhausted (make_atom_checked x n) (unfold make_atom in e)
  where
    exhausted : (o : Option Noun) → or_exhausted o ≢ fault
    exhausted none e = ground (arith, e)
    exhausted (some n) e = ground (arith, e)

-- More than 65 limbs, or 65 that are all 2 ^ 64 - 1.
abbrev pub TooLong : List ℕ → Type 0
TooLong l = (max_limbs + 1 < length l) ⊎ ((length l ≡ max_limbs + 1) × (saturated l ≡ length l))

TooLong-inc_size : (l : List ℕ) → TooLong l → max_limbs + 1 < length (inc_scratch l (saturated l))
TooLong-inc_size l (inl h) = ground (arith, length-inc_scratch l, h)
TooLong-inc_size l (inr h) = ground (arith, length-inc_scratch l, h.0, h.1)

inc_size-TooLong : (l : List ℕ) → max_limbs + 1 < length (inc_scratch l (saturated l)) → TooLong l
inc_size-TooLong l h = elim (Bool-cases (ltb (max_limbs + 1) (length l))) [
  | inl y ↦ inl (ground (arith, y))
  | inr n ↦ elim (Bool-cases (saturated l == length l)) [
    | inl e ↦ inr (ground (arith, length-inc_scratch l, h, n, e), ground (arith, e))
    | inr e ↦ absurd (ground (arith, length-inc_scratch l, h, n, e))
  ]
]

-- `bn_inc` writes past the end of its scratch array exactly on an indirect atom of more than 65 limbs, or of
-- 65 limbs that are all 2 ^ 64 - 1.
pub bn_inc-fault : (l : List ℕ) → (bn_inc (indirect l) ≡ fault) ↔ TooLong l
unfolding bn_inc
bn_inc-fault l = (
  λ e. elim (Bool-cases (ltb (max_limbs + 1) (length (inc_scratch l (saturated l))))) [
    | inl y ↦ inc_size-TooLong l (ground (arith, y))
    | inr n ↦
        let fits =
          store_limbs-eq (max_limbs + 1) (inc_scratch l (saturated l)) 0 (ground (arith, n)) in
        absurd
          (make_atom-writes (inc_scratch l (saturated l)) (inc_size l (saturated l)) (rw fits at e))
  ],
  λ long.
      rw
        (store_limbs-fault (max_limbs + 1) (inc_scratch l (saturated l)) 0 (omega arith)
          (omega (arith, TooLong-inc_size l long)))
        refl,
)

-- Where `bn_inc` returns for an indirect atom of any size, its result is the successor.
pub bn_inc_large :
    (l : List ℕ) (r : Noun)
    → IsLimbs l × Trimmed l × (2 ^ 63 ≤ value l)
    → bn_inc (indirect l) ≡ ok r
    → IsAtom r × (val r ≡ value l + 1)
unfolding bn_inc bn_normalize
bn_inc_large l r c e = elim (store_limbs-cases (max_limbs + 1) (inc_scratch l (saturated l)) 0) [
  | inl fits ↦
      let y =
        bn_normalize-Yields (inc_scratch l (saturated l)) (inc_size l (saturated l)) (value l + 1)
          (inc_scratch-IsLimbs l c.0) (length-inc_scratch l) (ground (arith, Trimmed-length l c.1))
          (value-inc_scratch l c.0) in
      let same : y.0 ≡ r = ok-injective (sym y.1 ∙ (rw fits at e)) in
      (subst IsAtom same y.2, subst (λ t. val t ≡ value l + 1) same y.3)
  | inr big ↦ absurd (ground (arith, rw big at e))
]
  where
    ok-injective : {a b : Noun} → ok a ≡ ok b → a ≡ b
    ok-injective h = cc
