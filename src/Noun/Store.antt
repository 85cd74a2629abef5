-- ===== src/Noun/Store.antt =====
-- The atom store of noun.c, by the contents of its entries: `make_atom_checked` with the store, and `noun_eq`
-- on words, which compares the hashes of indirect atoms. The hash, 62 bits of blake3, is a parameter.
use trinitite.Base.{
  ℕ, ◌≡◌, ◌⊎◌, Bool, false, ◌&&◌, ◌==◌, if◌then◌else◌, List, [], ◌∷◌, Option, none, some,
}
use trinitite.Noun.{Noun, direct, indirect, cell, limbs_eq}
use trinitite.Noun.Atom.{make_atom_checked}

-- The arrays of limbs that are in the store, the newest first.
abbrev pub AtomStore : Type 0
AtomStore = List (List ℕ)

abbrev pub Stored : List ℕ → AtomStore → Type 0
Stored l [] = ⊥
Stored l (k ∷ store) = (l ≡ k) ⊎ Stored l store

-- The atoms of a noun are in the store.
abbrev pub InStore : AtomStore → Noun → Type 0
InStore store (direct v) = Unit
InStore store (indirect l) = Stored l store
InStore store (cell h t) = InStore store h × InStore store t

module _ (hash62 : List ℕ → ℕ) where
  unfoldable pub atom_store_get : AtomStore → ℕ → Option (List ℕ)
  atom_store_get [] hash = none
  atom_store_get (l ∷ store) hash =
      let rest = atom_store_get store hash in if hash62 l == hash then some l else rest

  -- From the look-up on; `room` says whether the index and the heap have a place for one more. Equal limbs have
  -- equal digests.
  abbrev pub put_atom : List ℕ → Bool → AtomStore → Option (List ℕ) → Option Noun × AtomStore
  put_atom l room store none = if room then (some (indirect l), l ∷ store) else (none, store)
  put_atom l room store (some existing) =
      if limbs_eq existing l then (some (indirect l), store) else (none, store)

  abbrev pub make_stored : Option Noun → Bool → AtomStore → Option Noun × AtomStore
  make_stored (some (indirect l)) room store =
      put_atom l room store (atom_store_get store (hash62 l))
  make_stored (some (direct v)) room store = (some (direct v), store)
  make_stored (some (cell h t)) room store = (none, store)
  make_stored none room store = (none, store)

  -- `make_atom_checked` with the store; the atom comes from the trimmed limbs.
  unfoldable pub make_atom_in : List ℕ → ℕ → Bool → AtomStore → Option Noun × AtomStore
  unfolding atom_store_get make_atom_checked
  make_atom_in limbs size room store = make_stored (make_atom_checked limbs size) room store

  -- The store after these calls, the last one first.
  abbrev pub store_after : List (List ℕ × ℕ × Bool) → AtomStore
  store_after [] = []
  store_after ((limbs, size, room) ∷ before) = (make_atom_in limbs size room (store_after before)).1

  unfoldable pub noun_eq : Noun → Noun → Bool
  noun_eq (direct a) (direct b) = a == b
  noun_eq (direct a) (indirect k) = false
  noun_eq (direct a) (cell h t) = false
  noun_eq (indirect l) (direct b) = false
  noun_eq (indirect l) (indirect k) = hash62 l == hash62 k
  noun_eq (indirect l) (cell h t) = false
  noun_eq (cell h t) (direct b) = false
  noun_eq (cell h t) (indirect k) = false
  noun_eq (cell h t) (cell h' t') = noun_eq h h' && noun_eq t t'

  -- No two arrays in the store have one hash.
  abbrev pub NoCollision : AtomStore → Type 0
  NoCollision store = (l k : List ℕ) → Stored l store → Stored k store → hash62 l ≡ hash62 k → l ≡ k
