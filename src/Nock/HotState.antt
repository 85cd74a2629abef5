-- ===== src/Nock/HotState.antt =====
-- The table `hot_state` of nock.c and the look-up of a label in it.
use trinitite.Base.{
  ℕ, ◌≡◌, subst, ◌==◌, if◌then◌else◌, List, [], ◌∷◌, Option, none, some, Bool-cases, inl, inr,
}
use trinitite.Noun.{Noun, direct, indirect, cell}
use trinitite.Nock.Meter.{Run}

-- `hot_entry_t`
abbrev pub HotEntry : Type 0
HotEntry = ℕ × (Noun → Run Noun)

-- The loop over the entries: the first with the cord.
unfoldable pub hot_loop : List HotEntry → ℕ → Option (Noun → Run Noun)
hot_loop [] cord = none
hot_loop ((label_cord, fn) ∷ rest) cord =
    let later = hot_loop rest cord in if label_cord == cord then some fn else later

unfoldable pub hot_lookup : List HotEntry → Noun → Option (Noun → Run Noun)
unfolding hot_loop
hot_lookup hot_state (direct v) = hot_loop hot_state v
hot_lookup hot_state (indirect l) = none
hot_lookup hot_state (cell h t) = none

abbrev pub Each : ((Noun → Run Noun) → Type 0) → List HotEntry → Type 0
Each P [] = Unit
Each P ((label_cord, fn) ∷ rest) = P fn × Each P rest

hot_loop-Each :
    (P : (Noun → Run Noun) → Type 0) (hot_state : List HotEntry) (cord : ℕ) (fn : Noun → Run Noun)
    → Each P hot_state
    → hot_loop hot_state cord ≡ some fn
    → P fn
unfolding hot_loop
hot_loop-Each P [] cord fn each e = absurd (cc)
hot_loop-Each P ((label_cord, g) ∷ rest) cord fn each e = elim (Bool-cases (label_cord == cord)) [
  | inl y ↦ subst P (some-injective (rw y at e)) each.0
  | inr n ↦ hot_loop-Each P rest cord fn each.1 (rw n at e)
]
  where
    some-injective : {f g : Noun → Run Noun} → some f ≡ some g → f ≡ g
    some-injective h = cc

-- A jet that is found has what each jet of the table has.
pub hot_lookup-Each :
    (P : (Noun → Run Noun) → Type 0) (hot_state : List HotEntry) (label : Noun)
    (fn : Noun → Run Noun)
    → Each P hot_state
    → hot_lookup hot_state label ≡ some fn
    → P fn
unfolding hot_lookup
hot_lookup-Each P hot_state (direct v) fn each e = hot_loop-Each P hot_state v fn each e
hot_lookup-Each P hot_state (indirect l) fn each e = absurd (cc)
hot_lookup-Each P hot_state (cell h t) fn each e = absurd (cc)
