-- ===== src/Noun/Atom.antt =====
-- `make_atom` of noun.c, and `contents_eq`: atoms in canonical form, and equality of nouns.
use trinitite.Base.{
  ℕ, zero, suc, ◌^◌, ◌≤◌, ◌<◌, ◌≡◌, ◌↔◌, refl, ap, ◌⊎◌, subst, true, false, ◌&&◌, Option, none,
  some, List, [], ◌∷◌, arith, length, get_or, take, ltb, ◌==◌, if◌then◌else◌, Bool-cases, inl, inr,
}
use trinitite.Base.Outcome.{Outcome, ok, crash}
use trinitite.Noun.{Noun, direct, indirect, cell, limbs_eq, contents_eq}
use trinitite.Noun.Limbs.{
  limb_base, value, IsLimbs, Trimmed, Trimmed-pos, value_injective, IsLimbs-take, value-take-suc,
  Trimmed-take,
}

-- `while (size > 1 && limbs[size - 1] == 0) size--;`
unfoldable pub trim : List ℕ → ℕ → ℕ
trim limbs zero = zero
trim limbs (suc zero) = suc zero
trim limbs (suc (suc k)) =
    let rest = trim limbs (suc k) in if get_or limbs (suc k) 0 == 0 then rest else suc (suc k)

-- A trimmed array of one limb below 2 ^ 63 becomes a direct atom.
unfoldable pub make_atom_checked : List ℕ → ℕ → Option Noun
unfolding trim
make_atom_checked limbs zero = none
make_atom_checked limbs (suc s) =
    let size = trim limbs (suc s) in
    if (size == 1) && ltb (get_or limbs 0 0) (2 ^ 63)
    then some (direct (get_or limbs 0 0))
    else some (indirect (take size limbs))

abbrev pub or_exhausted : Option Noun → Outcome Noun
or_exhausted none = crash "atom store exhausted/collision"
or_exhausted (some n) = ok n

unfoldable pub make_atom : List ℕ → ℕ → Outcome Noun
unfolding make_atom_checked
make_atom limbs size = or_exhausted (make_atom_checked limbs size)

-- The number that an atom stands for.
abbrev pub val : Noun → ℕ
val (direct v) = v
val (indirect l) = value l
val (cell h t) = 0

-- Direct atoms are below 2 ^ 63; indirect ones are not, and have no zero limb at the top.
abbrev pub IsCanon : Noun → Type 0
IsCanon (direct v) = v < 2 ^ 63
IsCanon (indirect l) = IsLimbs l × Trimmed l × (2 ^ 63 ≤ value l)
IsCanon (cell h t) = IsCanon h × IsCanon t

-- A canonical atom, which is no cell.
abbrev pub IsAtom : Noun → Type 0
IsAtom (direct v) = v < 2 ^ 63
IsAtom (indirect l) = IsLimbs l × Trimmed l × (2 ^ 63 ≤ value l)
IsAtom (cell h t) = ⊥

pub value-trim : (l : List ℕ) (n : ℕ) → value (take (trim l n) l) ≡ value (take n l)
unfolding trim
value-trim l zero = refl
value-trim l (suc zero) = refl
value-trim l (suc (suc k)) = ground (arith, value-trim l (suc k), value-take-suc l (suc k))

pub trim_bounds : (l : List ℕ) (n : ℕ) → (trim l n ≤ n) × (0 < n → 0 < trim l n)
unfolding trim
trim_bounds l zero = omega arith
trim_bounds l (suc zero) = omega arith
trim_bounds l (suc (suc k)) = ground (arith, trim_bounds l (suc k))

-- What is left has a nonzero top, or is one limb.
pub trim-Trimmed :
    (l : List ℕ) (k : ℕ)
    → suc k ≤ length l
    → (trim l (suc k) ≡ 1) ⊎ Trimmed (take (trim l (suc k)) l)
unfolding trim
trim-Trimmed l zero h = inl refl
trim-Trimmed l (suc k) h = elim (Bool-cases (get_or l (suc k) 0 == 0)) [
  | inl z ↦ rw z (trim-Trimmed l k (omega arith))
  | inr nz ↦ rw nz (inr (Trimmed-take l (suc k) h (ground arith)))
]

value-take-one : (l : List ℕ) → value (take 1 l) ≡ get_or l 0 0
value-take-one [] = refl
value-take-one (x ∷ xs) = omega arith

Trimmed-big :
    (l : List ℕ) (k : ℕ)
    → suc (suc k) ≤ length l
    → Trimmed (take (suc (suc k)) l)
    → limb_base ≤ value (take (suc (suc k)) l)
Trimmed-big [] k h t = absurd t
Trimmed-big (x ∷ []) k h t = absurd (omega arith)
Trimmed-big (x ∷ (y ∷ r)) k h t = omega (arith, Trimmed-pos (y ∷ take k r) t)

-- An outcome that is an atom in canonical form with the value `v`.
abbrev pub Yields : Outcome Noun → ℕ → Type 0
Yields o v = (n : Noun) × (o ≡ ok n) × IsAtom n × (val n ≡ v)

one_limb : (l : List ℕ) → 2 ^ 63 ≤ get_or l 0 0 → Trimmed (take 1 l)
one_limb [] h = absurd (omega arith)
one_limb (x ∷ xs) h = omega arith

two_limbs :
    (l : List ℕ) (k : ℕ)
    → (suc (suc k) ≡ 1) ⊎ Trimmed (take (suc (suc k)) l)
    → Trimmed (take (suc (suc k)) l)
two_limbs l k (inl e) = absurd (omega arith)
two_limbs l k (inr t) = t

indirect_of :
    (l : List ℕ) (s k : ℕ)
    → IsLimbs l
    → suc s ≤ length l
    → trim l (suc s) ≡ k
    → (k ≡ 1 → 2 ^ 63 ≤ get_or l 0 0)
    → IsAtom (indirect (take k l)) × (val (indirect (take k l)) ≡ value (take (suc s) l))
indirect_of l s zero il h e big = absurd (omega (arith, (trim_bounds l (suc s)).1 (omega arith)))
indirect_of l s (suc zero) il h e big = (
  (IsLimbs-take 1 l il, one_limb l (big refl), omega (arith, value-take-one l, big refl)),
  subst (λ k. value (take k l) ≡ value (take (suc s) l)) e (value-trim l (suc s)),
)
indirect_of l s (suc (suc k)) il h e big =
    let same : value (take (suc (suc k)) l) ≡ value (take (suc s) l) =
      subst (λ k. value (take k l) ≡ value (take (suc s) l)) e (value-trim l (suc s)) in
    let fits : suc (suc k) ≤ length l = omega (arith, (trim_bounds l (suc s)).0) in
    let trimmed : Trimmed (take (suc (suc k)) l) =
      two_limbs l k (subst (λ k. (k ≡ 1) ⊎ Trimmed (take k l)) e (trim-Trimmed l s h)) in
    ((IsLimbs-take (suc (suc k)) l il, trimmed, omega (arith, Trimmed-big l k fits trimmed)), same)

-- `make_atom` keeps the value of the limbs that it is given and returns it in canonical form.
pub make_atom-Yields :
    (l : List ℕ) (s : ℕ)
    → IsLimbs l
    → suc s ≤ length l
    → Yields (make_atom l (suc s)) (value (take (suc s) l))
unfolding make_atom
make_atom-Yields l s il h =
    elim (Bool-cases ((trim l (suc s) == 1) && ltb (get_or l 0 0) (2 ^ 63))) [
      | inl small ↦ (
        direct (get_or l 0 0),
        rw small,
        ground arith,
        ground (arith, value-trim l (suc s), value-take-one l),
      )
      | inr large ↦ (indirect (take (trim l (suc s)) l), rw large, (of large).0, (of large).1)
    ]
  where
    of :
        ((trim l (suc s) == 1) && ltb (get_or l 0 0) (2 ^ 63)) ≡ false
        → IsAtom (indirect (take (trim l (suc s)) l))
          × (val (indirect (take (trim l (suc s)) l)) ≡ value (take (suc s) l))
    of large = indirect_of l s (trim l (suc s)) il h refl (λ e. ground arith)

limbs_eq_iff : (a b : List ℕ) → (limbs_eq a b ≡ true) ↔ (a ≡ b)
unfolding limbs_eq
limbs_eq_iff [] [] = ground arith
limbs_eq_iff [] (y ∷ ys) = ground arith
limbs_eq_iff (x ∷ xs) [] = ground arith
limbs_eq_iff (x ∷ xs) (y ∷ ys) = ground (arith, limbs_eq_iff xs ys)

-- `contents_eq` decides structural equality.
pub contents_eq_iff : (a b : Noun) → (contents_eq a b ≡ true) ↔ (a ≡ b)
unfolding contents_eq
contents_eq_iff (direct a) (direct b) = ground arith
contents_eq_iff (direct a) (indirect k) = ground arith
contents_eq_iff (direct a) (cell h t) = ground arith
contents_eq_iff (indirect l) (direct b) = ground arith
contents_eq_iff (indirect l) (indirect k) = ground (arith, limbs_eq_iff l k)
contents_eq_iff (indirect l) (cell h t) = ground arith
contents_eq_iff (cell h t) (direct b) = ground arith
contents_eq_iff (cell h t) (indirect k) = ground arith
contents_eq_iff (cell h t) (cell h' t') = ground (arith, contents_eq_iff h h', contents_eq_iff t t')

-- In canonical form two atoms with one value are one noun.
pub IsAtom-val_injective : (a b : Noun) → IsAtom a → IsAtom b → val a ≡ val b → a ≡ b
IsAtom-val_injective (direct a) (direct b) ca cb e = ap direct e
IsAtom-val_injective (direct a) (indirect k) ca cb e = absurd (omega arith)
IsAtom-val_injective (indirect l) (direct b) ca cb e = absurd (omega arith)
IsAtom-val_injective (indirect l) (indirect k) ca cb e =
    ap indirect (value_injective l k ca.0 cb.0 ca.1 cb.1 e)
IsAtom-val_injective (cell h t) b ca cb e = absurd ca
IsAtom-val_injective (direct a) (cell h t) ca cb e = absurd cb
IsAtom-val_injective (indirect l) (cell h t) ca cb e = absurd cb

pub IsAtom-IsCanon : (a : Noun) → IsAtom a → IsCanon a
IsAtom-IsCanon (direct a) h = h
IsAtom-IsCanon (indirect l) h = h
IsAtom-IsCanon (cell h t) a = absurd a

-- On canonical atoms `contents_eq` compares values.
pub contents_eq-val :
    (a b : Noun) → IsAtom a → IsAtom b → (contents_eq a b ≡ true) ↔ (val a ≡ val b)
contents_eq-val a b ca cb = (
  λ e. ap val ((contents_eq_iff a b).0 e),
  λ e. (contents_eq_iff a b).1 (IsAtom-val_injective a b ca cb e),
)
