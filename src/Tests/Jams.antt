-- ===== src/Tests/Jams.antt =====
-- Jam and cue at concrete nouns.
use trinitite.Base.{
  ℕ, ◌-◌, ◌^◌, ◌≤◌, ◌≡◌, ◌⊎◌, refl, true, false, Option, some, none, [], ◌∷◌, arith, ◌==◌,
  if◌then◌else◌,
}
use trinitite.Base.Outcome.{ok, crash}
use trinitite.Noun.{Noun, direct, indirect, cell, contents_eq}
use trinitite.Noun.Atom.{val}
use trinitite.Bignum.Met.{bn_met, HasBits, bn_met-HasBits}
use trinitite.Jam.Writer.{Jambuf}
use trinitite.Jam.Encode.{Held, held_atom, held_cell, jam_encode, jam}
use trinitite.Jam.Rub.{do_rub}
use trinitite.Jam.Decode.{cue}
use trinitite.Jam.Trace.{IsHeld}
use trinitite.Jam.RoundTrip.{cue-jam}
use trinitite.Jam.Length.{bytes_of, jam_size_checked, jam_max_bytes, jam_encode_bytes_checked}
use trinitite.Jam.Checked.{
  jam_size_checked-jam_encode, jam_size_checked-cue, jam_encode_bytes_checked-eq,
}
use trinitite.Jam.Ends.{Settles, cue-Settles}

abbrev held_num : ℕ → Held
held_num v = held_atom v (direct v)

-- A cell that its parent holds twice.
abbrev pair : Held
pair = held_cell 1000 (held_num 1) (held_num 2)

abbrev twice : Held
twice = held_cell 2000 pair pair

abbrev twice_noun : Noun
twice_noun = cell (cell (direct 1) (direct 2)) (cell (direct 1) (direct 2))

-- The noun of each word of `twice`.
abbrev words : ℕ → Noun
words w =
    if w == 1000 then cell (direct 1) (direct 2) else if w == 2000 then twice_noun else direct w

twice-IsHeld : IsHeld words twice
twice-IsHeld = (
  refl,
  (refl, (omega arith, refl), (omega arith, refl)),
  (refl, (omega arith, refl), (omega arith, refl)),
)

jam_zero : jam false (held_num 0) ≡ ok (direct 2)
unfolding jam
jam_zero = refl

jam-twice : jam false twice ≡ ok (direct 4835525)
unfolding jam contents_eq
jam-twice = refl

jam-twice_identity : jam true twice ≡ ok (direct 4835525)
unfolding jam contents_eq
jam-twice_identity = refl

cue_cut : cue (direct 1) ≡ crash "cue: malformed mat encoding"
unfolding cue
cue_cut = refl

-- A reference to the place of a cell that is still being read.
cue_open : cue (direct 61) ≡ crash "cue: invalid back-reference"
unfolding cue
cue_open = refl

-- The length 2 ^ 64 - 1 wraps to no limbs.
do_rub_wraps : do_rub (indirect (0 ∷ (2 ^ 64 - 1) ∷ 1 ∷ [])) 0 ≡ ok (direct 0, 128)
unfolding do_rub
do_rub_wraps = refl

size_twice : jam_size_checked false twice jam_max_bytes ≡ ok (some 3)
unfolding jam_size_checked contents_eq
size_twice = refl

-- 2 ^ 64
abbrev wide : Noun
wide = indirect (0 ∷ 1 ∷ [])

bn_met-HasBits_example : (n : ℕ) × (bn_met wide ≡ ok n) × HasBits (val wide) n
bn_met-HasBits_example = bn_met-HasBits wide (omega arith)

cue-jam_example : cue (direct 4835525) ≡ ok twice_noun
cue-jam_example = cue-jam true words twice (direct 4835525) twice-IsHeld jam-twice_identity

jam_size_checked-jam_encode_example :
    (b : Jambuf) × (jam_encode false twice ≡ ok b) × (bytes_of b.cur ≡ 3) × (3 ≤ jam_max_bytes)
jam_size_checked-jam_encode_example =
    jam_size_checked-jam_encode false twice jam_max_bytes 3 (omega arith) size_twice

jam_size_checked-cue_example : (a : Noun) × (jam false twice ≡ ok a) × (cue a ≡ ok twice_noun)
jam_size_checked-cue_example =
    jam_size_checked-cue false words twice jam_max_bytes 3 twice-IsHeld (omega arith) size_twice

abbrev three : Option ℕ
three = some 3

jam_encode_bytes_checked-eq_example :
    ((three ≡ none) × (jam_encode_bytes_checked false twice ≡ ok none))
    ⊎ ((k : ℕ) × (b : Jambuf) × (three ≡ some k)
        × (jam_encode false twice ≡ ok b)
        × (jam_encode_bytes_checked false twice ≡ ok (some (b.buf, k))))
jam_encode_bytes_checked-eq_example = jam_encode_bytes_checked-eq false twice three size_twice

cue-Settles_example : Settles (λ n. Unit) (cue wide)
cue-Settles_example = cue-Settles wide
