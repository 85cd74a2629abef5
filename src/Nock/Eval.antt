-- ===== src/Nock/Eval.antt =====
-- `nock_eval` and its callers.
use trinitite.Base.{
  ℕ, zero, suc, Bool, ◌==◌, if◌then◌else◌, List, [], ◌∷◌, Option, none, some, String,
}
use trinitite.Base.Outcome
use trinitite.Base.Outcome.{Outcome, ok, crash, spent}
use trinitite.Noun.{Noun, direct, indirect, cell, contents_eq, is_cell, is_atom, yes_noun, no_noun}
use trinitite.Bignum.Step.{bn_inc}
use trinitite.Nock.Meter.{
  Run, return, lift, nock_crash, ◌>>=◌, ◌>>◌, budget_tick, nock_alloc_cell, WallCheck,
}
use trinitite.Nock.Slot.{slot}
use trinitite.Nock.Edit.{hax}
use trinitite.Nock.HotState.{HotEntry, hot_lookup}
use trinitite.Nock.Hint.{Entry, parse_wilt, sock_match}

-- The cases of `switch (op)`.
pub data Opcode : Type 0 where
  slot_op quote_op compose_op cell_op inc_op eq_op if_op then_op pin_op arm_op edit_op hint_op
        unknown_op :
      Opcode

unfoldable pub decode : ℕ → Opcode
decode op =
    if op == 0
    then slot_op
    else if op == 1
    then quote_op
    else if op == 2
    then compose_op
    else if op == 3
    then cell_op
    else if op == 4
    then inc_op
    else if op == 5
    then eq_op
    else if op == 6
    then if_op
    else if op == 7
    then then_op
    else if op == 8
    then pin_op
    else if op == 9
    then arm_op
    else if op == 10
    then edit_op
    else if op == 11
    then hint_op
    else unknown_op

-- HINT_WILD and HINT_TAME, cords with the first character lowest.
abbrev pub hint_wild : ℕ
hint_wild = 0x646C6977

abbrev pub hint_tame : ℕ
hint_tame = 0x656D6174

-- The registrations in force; `none` is the null pointer.
abbrev pub Jets : Type 0
Jets = Option (List Entry)

-- What the evaluator calls: the table of jets, the compilation of a %tame clue by the Forth system, which is
-- taken to leave the counters alone, and the deadline check.
pub record Host : Type 0 where
  pub hot_state : List HotEntry
  pub tame_compile : Noun → Outcome (Unit {0})
  pub wall_check : WallCheck

abbrev pub Evaluator : Type 0
Evaluator = Noun → Noun → Jets → Run Noun

-- A noun that must be a cell.
abbrev pub parts {ℓ} : {A : Type ℓ} → Noun → String → (Noun → Noun → Run A) → Run A
parts (direct v) msg k = nock_crash msg
parts (indirect l) msg k = nock_crash msg
parts (cell h t) msg k = k h t

abbrev pub loobean : Bool → Noun
loobean b = if b then yes_noun else no_noun

abbrev pub or_else {ℓ} : {A : Type ℓ} → Option A → Outcome (Option A) → Outcome (Option A)
or_else none rest = rest
or_else (some a) rest = ok (some a)

abbrev pub jets_of : Jets → List Entry
jets_of none = []
jets_of (some es) = es

abbrev pub run_arm : Evaluator → Noun → Jets → Noun → Option (Noun → Run Noun) → Run Noun
run_arm ev core jets arm none = ev core arm jets
run_arm ev core jets arm (some fn) = fn core

module _ (host : Host) where
  -- The jet loop of op 9: the first registration that matches and has a jet.
  unfoldable pub find_jet : List Entry → Noun → Outcome (Option (Noun → Run Noun))
  find_jet [] core = ok none
  find_jet (e ∷ es) core = Outcome.◌>>=◌ (sock_match e.cape e.template core) λ matched.
      let rest = find_jet es core in
      if matched then or_else (hot_lookup host.hot_state e.label) rest else rest

  -- `*[a 9 b c]` once the core is there: a jet, or the arm with the core for its subject.
  unfoldable pub call_arm : Evaluator → Noun → Noun → Jets → Run Noun
  unfolding find_jet slot
  call_arm ev axis core jets = do
    arm ← lift (slot axis core)
    jet ← lift (find_jet (jets_of jets) core)
    run_arm ev core jets arm jet

  -- The hint's effect once its clue is there: the registrations for the rest. The other tags print
  -- the clue or do nothing.
  unfoldable pub take_hint : ℕ → Noun → Jets → Run Jets
  unfolding parse_wilt
  take_hint tag clue jets =
      if tag == hint_tame
      then (if is_cell clue
          then (lift (host.tame_compile clue) >>= λ _. return jets)
          else nock_crash "%tame: clue must be [label source-cord] cell")
      else if tag == hint_wild
      then (lift (parse_wilt clue) >>= λ es. return (some es))
      else return jets

  unfoldable pub run_hint : Evaluator → Noun → Noun → Noun → Jets → Run Noun
  unfolding take_hint
  run_hint ev subject (direct v) d jets = ev subject d jets
  run_hint ev subject (indirect l) d jets = ev subject d jets
  run_hint ev subject (cell (direct tag) c) d jets = do
    clue ← ev subject c jets
    jets' ← take_hint tag clue jets
    ev subject d jets'
  run_hint ev subject (cell (indirect l) c) d jets = nock_crash "op11 hint tag not direct"
  run_hint ev subject (cell (cell x y) c) d jets = nock_crash "op11 hint tag not direct"

  unfoldable pub run_edit : Evaluator → Noun → Noun → Noun → Jets → Run Noun
  unfolding hax
  run_edit ev subject (direct v) d jets =
      nock_crash "op10: hint must be a cell [axis val-formula]; atom hint is not valid Nock 4K"
  run_edit ev subject (indirect l) d jets =
      nock_crash "op10: hint must be a cell [axis val-formula]; atom hint is not valid Nock 4K"
  run_edit ev subject (cell (direct axis) c) d jets = do
    val ← ev subject c jets
    target ← ev subject d jets
    hax axis val target
  run_edit ev subject (cell (indirect l) c) d jets = nock_crash "op10 edit axis not direct"
  run_edit ev subject (cell (cell x y) c) d jets = nock_crash "op10 edit axis not direct"

  unfoldable pub run_if : Evaluator → Noun → Noun → Noun → Noun → Jets → Run Noun
  run_if ev subject test yes_branch no_branch jets = do
    answer ← ev subject test jets
    if contents_eq answer yes_noun
        then ev subject yes_branch jets
        else if contents_eq answer no_noun
        then ev subject no_branch jets
        else nock_crash "op6 condition not 0 or 1"

  -- The body of the switch; `ev` is the evaluator one level down, `goto loop` included.
  unfoldable pub run_op : Evaluator → Opcode → Noun → Noun → Jets → Run Noun
  unfolding call_arm run_hint run_edit run_if bn_inc contents_eq nock_alloc_cell slot
  run_op ev slot_op subject tail jets = lift (slot tail subject)
  run_op ev quote_op subject tail jets = return tail
  run_op ev compose_op subject tail jets = parts tail "op2 tail not cell" λ b c. do
    new_subject ← ev subject b jets
    new_formula ← ev subject c jets
    ev new_subject new_formula jets
  run_op ev cell_op subject tail jets = do r ← ev subject tail jets; return (loobean (is_cell r))
  run_op ev inc_op subject tail jets = do
    r ← ev subject tail jets
    if is_atom r then lift (bn_inc r) else nock_crash "op4 increment of cell"
  run_op ev eq_op subject tail jets = parts tail "op5 tail not cell" λ b c. do
    left ← ev subject b jets
    right ← ev subject c jets
    return (loobean (contents_eq left right))
  run_op ev if_op subject tail jets =
      parts tail "op6 tail not cell"
        λ b rest. parts rest "op6 missing branches" λ c d. run_if ev subject b c d jets
  run_op ev then_op subject tail jets =
      parts tail "op7 tail not cell"
        λ b c. do new_subject ← ev subject b jets; ev new_subject c jets
  run_op ev pin_op subject tail jets = parts tail "op8 tail not cell" λ b c. do
    pinned ← ev subject b jets
    new_subject ← nock_alloc_cell pinned subject
    ev new_subject c jets
  run_op ev arm_op subject tail jets =
      parts tail "op9 tail not cell" λ b c. do core ← ev subject c jets; call_arm ev b core jets
  run_op ev edit_op subject tail jets =
      parts tail "op10 tail not cell" λ hint d. run_edit ev subject hint d jets
  run_op ev hint_op subject tail jets =
      parts tail "op11 tail not cell" λ hint d. run_hint ev subject hint d jets
  run_op ev unknown_op subject tail jets = nock_crash "unimplemented opcode"

  -- One round of the loop after its tick.
  unfoldable pub step : Evaluator → Evaluator
  unfolding run_op decode
  step ev subject (direct v) jets = nock_crash "nock atom"
  step ev subject (indirect l) jets = nock_crash "nock atom"
  step ev subject (cell (cell b c) d) jets = do
    left ← ev subject (cell b c) jets
    right ← ev subject d jets
    nock_alloc_cell left right
  step ev subject (cell (indirect l) tail) jets = nock_crash "opcode not direct"
  step ev subject (cell (direct op) tail) jets = run_op ev (decode op) subject tail jets

  -- `nock_eval`, on fuel: the nesting of its calls and rounds.
  unfoldable pub nock_eval : ℕ → Evaluator
  unfolding step budget_tick
  nock_eval zero subject formula jets m = (spent, m)
  nock_eval (suc fuel) subject formula jets m =
      (budget_tick host.wall_check >> step (nock_eval fuel) subject formula jets) m

  unfoldable pub nock : ℕ → Noun → Noun → Run Noun
  unfolding nock_eval
  nock fuel subject formula = nock_eval fuel subject formula none

  unfoldable pub nock_ex : ℕ → Noun → Noun → Jets → Run Noun
  unfolding nock_eval
  nock_ex fuel subject formula jets = nock_eval fuel subject formula jets
