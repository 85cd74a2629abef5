-- ===== src/Bignum/Scratch.antt =====
-- `atom_limbs` and `bn_normalize`: from an atom to a scratch array and back.
use trinitite.Base.{
  ℕ, zero, suc, ◌^◌, ◌≤◌, ◌<◌, ◌≡◌, refl, ap, subst, ◌∙◌, List, [], ◌∷◌, arith, length, take,
  take_of_le, ltb, if◌then◌else◌,
}
use trinitite.Base.Outcome.{Outcome, ok, fault}
use trinitite.Noun.{Noun, direct, indirect, cell}
use trinitite.Noun.Limbs.{value, IsLimbs, Trimmed, Trimmed-length}
use trinitite.Noun.Atom.{make_atom, make_atom-Yields, val, Yields, IsAtom}

-- BN_MAX_LIMBS
abbrev pub max_limbs : ℕ
max_limbs = 64

-- On a cell the store has no entry for the word, and C reads through a null pointer.
unfoldable pub atom_limbs : Noun → Outcome (List ℕ)
atom_limbs (direct v) = ok (v ∷ [])
atom_limbs (indirect l) = ok (take (if ltb (length l) max_limbs then length l else max_limbs) l)
atom_limbs (cell h t) = fault

unfoldable pub bn_normalize : List ℕ → ℕ → Outcome Noun
unfolding make_atom
bn_normalize limbs size = make_atom limbs size

-- A canonical atom of at most 64 limbs.
abbrev pub Fits : Noun → Type 0
Fits (direct v) = v < 2 ^ 63
Fits (indirect l) = IsLimbs l × Trimmed l × (2 ^ 63 ≤ value l) × (length l ≤ max_limbs)
Fits (cell h t) = ⊥

-- The array that `atom_limbs` fills for such an atom.
abbrev pub scratch_of : Noun → List ℕ
scratch_of (direct v) = v ∷ []
scratch_of (indirect l) = l
scratch_of (cell h t) = []

pub Fits-IsAtom : (a : Noun) → Fits a → IsAtom a
Fits-IsAtom (direct v) h = h
Fits-IsAtom (indirect l) h = (h.0, h.1, h.2)
Fits-IsAtom (cell x y) h = absurd h

pub atom_limbs-eq-ok : (a : Noun) → Fits a → atom_limbs a ≡ ok (scratch_of a)
unfolding atom_limbs
atom_limbs-eq-ok (direct v) h = refl
atom_limbs-eq-ok (indirect l) h = ap ok (take_of_le _ l (ground arith))
atom_limbs-eq-ok (cell x y) h = absurd h

pub record IsScratch (a : Noun) (l : List ℕ) : Type 0 where
  pub limbs : IsLimbs l
  pub value_eq : value l ≡ val a
  pub nonempty : 0 < length l
  pub short : length l ≤ max_limbs

pub scratch_of-IsScratch : (a : Noun) → Fits a → IsScratch a (scratch_of a)
scratch_of-IsScratch (direct v) h = omega arith
scratch_of-IsScratch (indirect l) h = record {
  limbs = h.0;
  value_eq = refl;
  nonempty = Trimmed-length l h.1;
  short = h.3;
}
scratch_of-IsScratch (cell x y) h = absurd h

pub bn_normalize-Yields :
    (l : List ℕ) (s v : ℕ)
    → IsLimbs l
    → length l ≡ s
    → 0 < s
    → value l ≡ v
    → Yields (bn_normalize l s) v
unfolding bn_normalize
bn_normalize-Yields l zero v il e p h = absurd (omega arith)
bn_normalize-Yields l (suc s) v il e p h =
    subst (λ v. Yields (make_atom l (suc s)) v) (ap value (take_of_le (suc s) l (omega arith)) ∙ h)
      (make_atom-Yields l s il (omega arith))
