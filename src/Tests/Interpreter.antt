-- ===== src/Tests/Interpreter.antt =====
-- The interpreter at concrete inputs.
use trinitite.Base.{
  ℕ, some, ◌+◌, ◌*◌, ◌≤◌, ◌<◌, ◌≡◌, ◌≢◌, refl, List, [], ◌∷◌, arith, true, false, length, take,
  none,
}
use trinitite.Base.Outcome.{ok, crash, spent, ◌>>=◌}
use trinitite.Noun.{Noun, direct, cell}
use trinitite.Noun.Atom.{IsCanon}
use trinitite.Nock.Meter.{Meter, set_limits, nock_alloc_cell}
use trinitite.Nock.Slot.{depth_loop, slot, child, slot-equations}
use trinitite.Nock.Edit.{sub_axis, hax, axis_path, Diverges, hax-slot}
use trinitite.Nock.Hint.{
  Entry, sock_match, Decides, Matches, parse_wilt, wilt_noun, wilt_max, sock_match-Decides,
  parse_wilt-wilt_noun,
}
use trinitite.Nock.Eval.{Host, Jets, nock_ex}
use trinitite.Nock.HotState.{hot_lookup, hot_lookup-Each}
use trinitite.Nock.Jets.{jet_dec}
use trinitite.Nock.Ends.{Safe}
use trinitite.Nock.Hot.{Decremented, jet_dec-Decremented, jet_dec-Safe}
use trinitite.Nock.Budget.{HostEnds, nock_eval-ends}
use trinitite.Nock.Spec.{Reduces}
use trinitite.Nock.Sound.Denote.{denote}
use trinitite.Nock.Sound.Ops.{JetsGive}
use trinitite.Nock.Sound.Whole.{nock_ex-Sound}

-- %dec
abbrev dec_cord : ℕ
dec_cord = 6514020

-- A hot state of one jet.
abbrev decrementing : Host
decrementing = record {
  hot_state = (dec_cord, jet_dec) ∷ [];
  tame_compile = λ clue. ok tt;
  wall_check = none;
}

decrementing-HostEnds : HostEnds decrementing
decrementing-HostEnds = record {
  jets = λ fuel label fn core h.
      hot_lookup-Each (λ g. Safe fuel (g core)) decrementing.hot_state label fn
        (jet_dec-Safe fuel core, tt) h;
  tame = λ clue h. ground (arith, h);
}

decrementing-JetsGive : JetsGive Decremented decrementing
decrementing-JetsGive label fn core r m m' found canon e =
    hot_lookup-Each (λ g. g core m ≡ (ok r, m') → IsCanon r × Decremented (denote core) (denote r))
      decrementing.hot_state label fn (jet_dec-Decremented core r m m' canon, tt) found e

-- A gate with the sample 5, whose arm is not a decrement, registered as one.
abbrev gate : Noun
gate = cell (cell (direct 1) (direct 99)) (cell (direct 5) (direct 0))

abbrev call_gate : Noun
call_gate = cell (direct 9) (cell (direct 2) (cell (direct 0) (direct 1)))

abbrev registered : Jets
registered = some (record { label = direct dec_cord; cape = direct 1; template = direct 0 } ∷ [])

abbrev tree : Noun
tree = cell (cell (direct 4) (direct 5)) (direct 3)

-- [8 [1 7] 4 0 2]: pin 7, then its successor.
abbrev pin_and_add : Noun
pin_and_add =
    cell (direct 8)
      (cell (cell (direct 1) (direct 7)) (cell (direct 4) (cell (direct 0) (direct 2))))

abbrev unlimited : Meter
unlimited = record {
  budget_max = 0;
  ops_used = 0;
  cell_budget_max = 0;
  cells_used = 0;
  abort_reason = 0;
}

abbrev two_entries : List Entry
two_entries =
    record { label = direct 1; cape = direct 0; template = direct 9 }
    ∷ record { label = direct 2; cape = cell (direct 0) (direct 1); template = tree }
    ∷ []

-- The jet answers in place of the arm.
nock_ex-call_gate :
    nock_ex decrementing 3 gate call_gate registered unlimited
    ≡ (ok (direct 4), record unlimited { ops_used = 2 })
unfolding nock_ex jet_dec sock_match hot_lookup
nock_ex-call_gate = refl

slot-equations_example :
    (slot (direct 0) tree ≡ crash "slot axis 0")
    × (slot (direct 1) tree ≡ ok tree)
    × (slot (direct (2 * 2)) tree ≡ (slot (direct 2) tree >>= child false))
    × (slot (direct (2 * 2 + 1)) tree ≡ (slot (direct 2) tree >>= child true))
slot-equations_example = slot-equations 2 tree (omega arith) (omega arith)

hax-run :
    hax 5 (direct 9) tree unlimited
    ≡ (ok (cell (cell (direct 4) (direct 9)) (direct 3)), record unlimited { cells_used = 2 })
unfolding hax depth_loop sub_axis nock_alloc_cell
hax-run = refl

hax-slot_example :
    (slot (direct 5) (cell (cell (direct 4) (direct 9)) (direct 3)) ≡ ok (direct 9))
    × (Diverges (axis_path 5) (axis_path 4)
        → slot (direct 4) (cell (cell (direct 4) (direct 9)) (direct 3)) ≡ slot (direct 4) tree)
hax-slot_example =
    hax-slot 5 4 (direct 9) tree unlimited (omega arith) (omega arith) (omega arith) hax-run

sock_match-Decides_example :
    Decides
      (sock_match (cell (direct 0) (direct 1)) tree tree)
      (Matches (cell (direct 0) (direct 1)) tree tree)
sock_match-Decides_example = sock_match-Decides (cell (direct 0) (direct 1)) tree tree (tt, tt)

parse_wilt-wilt_noun_example :
    (parse_wilt (wilt_noun two_entries) ≡ ok (take wilt_max two_entries))
    × (length two_entries ≤ wilt_max → parse_wilt (wilt_noun two_entries) ≡ ok two_entries)
parse_wilt-wilt_noun_example = parse_wilt-wilt_noun two_entries

nock_eval-ends_example :
    let r = nock_ex decrementing (3 + 1) gate call_gate registered (set_limits 3 2 unlimited) in
    (r.0 ≢ spent) × (r.1.budget_max ≡ 3) × (r.1.ops_used ≤ 3) × (0 < 2 → r.1.cells_used ≤ 2)
nock_eval-ends_example =
    nock_eval-ends decrementing decrementing-HostEnds 3 2 gate call_gate registered unlimited
      (omega arith)

nock_ex-Sound_example :
    IsCanon (direct 4) × Reduces Decremented (denote gate) (denote call_gate) (denote (direct 4))
nock_ex-Sound_example =
    nock_ex-Sound Decremented decrementing decrementing-JetsGive 3 gate call_gate registered
      unlimited (record unlimited { ops_used = 2 }) (direct 4) (omega arith) (omega arith)
      nock_ex-call_gate
