-- ===== src/Noun.antt =====
-- noun.h and the pure part of noun.c. A noun is a tagged 64-bit word; cells live in a bump heap and
-- are never changed after allocation but for their reference count, and the atom store maps the
-- 62-bit hash of an indirect atom to its limbs. Here a noun is what its word stands for: a direct
-- value, the limbs that the store holds under its hash, or the two nouns of its cell. The store has
-- room, and no two limb arrays in it share a hash.
pub mod Word
pub mod Limbs
pub mod Atom
pub mod Store
use trinitite.Base.{ℕ, List, [], ◌∷◌, Bool, true, false, ◌&&◌, ◌||◌, ◌==◌}

pub data Noun : Type 0 where
  direct : ℕ → Noun
  indirect : List ℕ → Noun
  cell : Noun → Noun → Noun

abbrev pub is_direct : Noun → Bool
is_direct (direct v) = true
is_direct (indirect l) = false
is_direct (cell h t) = false

abbrev pub is_indirect : Noun → Bool
is_indirect (direct v) = false
is_indirect (indirect l) = true
is_indirect (cell h t) = false

abbrev pub is_cell : Noun → Bool
is_cell (direct v) = false
is_cell (indirect l) = false
is_cell (cell h t) = true

abbrev pub is_atom : Noun → Bool
is_atom (direct v) = true
is_atom (indirect l) = true
is_atom (cell h t) = false

-- NOUN_YES and NOUN_NO
abbrev pub yes_noun : Noun
yes_noun = direct 0

abbrev pub no_noun : Noun
no_noun = direct 1

-- The comparison of limbs of `atom_content_equal`.
unfoldable pub limbs_eq : List ℕ → List ℕ → Bool
limbs_eq [] [] = true
limbs_eq [] (y ∷ ys) = false
limbs_eq (x ∷ xs) [] = false
limbs_eq (x ∷ xs) (y ∷ ys) = (x == y) && limbs_eq xs ys

-- `noun_eq` of noun.c on the contents of atoms, where the code compares their words: Noun/Store has both. The
-- pointer test only shortens it: one cell is structurally equal to itself.
unfoldable pub contents_eq : Noun → Noun → Bool
unfolding limbs_eq
contents_eq (direct a) (direct b) = a == b
contents_eq (direct a) (indirect k) = false
contents_eq (direct a) (cell h t) = false
contents_eq (indirect l) (direct b) = false
contents_eq (indirect l) (indirect k) = limbs_eq l k
contents_eq (indirect l) (cell h t) = false
contents_eq (cell h t) (direct b) = false
contents_eq (cell h t) (indirect k) = false
contents_eq (cell h t) (cell h' t') = contents_eq h h' && contents_eq t t'
