-- ===== src/Tests/Jets.antt =====
-- The list jets at concrete cores.
use trinitite.Base.{◌≡◌, refl, arith}
use trinitite.Base.Outcome.{ok}
use trinitite.Noun.{Noun, direct, cell}
use trinitite.Nock.Meter.{Meter}
use trinitite.Nock.Slot.{slot}
use trinitite.Nock.Jets.{jet_add, jet_lth, jet_lsh, jet_lent, jet_weld, after_cells, jet_weld-eq}

abbrev fresh : Meter
fresh = record {
  budget_max = 0;
  ops_used = 0;
  cell_budget_max = 0;
  cells_used = 0;
  abort_reason = 0;
}

abbrev core_of : Noun → Noun
core_of sample = cell (direct 0) (cell sample (direct 0))

-- The lists of 1 and 2, of 3, and of 1, 2 and 3.
abbrev one_two : Noun
one_two = cell (direct 1) (cell (direct 2) (direct 0))

abbrev just_three : Noun
just_three = cell (direct 3) (direct 0)

abbrev one_two_three : Noun
one_two_three = cell (direct 1) (cell (direct 2) just_three)

jet_add-run : jet_add (core_of (cell (direct 2) (direct 3))) fresh ≡ (ok (direct 5), fresh)
unfolding jet_add
jet_add-run = refl

jet_lth-run : jet_lth (core_of (cell (direct 2) (direct 3))) fresh ≡ (ok (direct 0), fresh)
unfolding jet_lth
jet_lth-run = refl

jet_lsh-run : jet_lsh (core_of (cell (direct 2) (direct 3))) fresh ≡ (ok (direct 12), fresh)
unfolding jet_lsh
jet_lsh-run = refl

jet_lent-run : jet_lent (core_of one_two_three) fresh ≡ (ok (direct 3), fresh)
unfolding jet_lent
jet_lent-run = refl

jet_weld-eq_example :
    jet_weld (core_of (cell one_two just_three)) fresh ≡ (ok one_two_three, after_cells 4 fresh)
unfolding slot
jet_weld-eq_example =
    jet_weld-eq (core_of (cell one_two just_three)) one_two just_three fresh refl refl refl
      (omega arith)
