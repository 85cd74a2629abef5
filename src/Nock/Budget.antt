-- ===== src/Nock/Budget.antt =====
-- Evaluation under an operation limit: what the counters and the outcome come to.
use trinitite.Base.{
  ℕ, zero, suc, ◌+◌, ◌≤◌, ◌<◌, ◌≡◌, ◌≢◌, refl, ◌∙◌, Bool, true, false, ◌==◌, if◌then◌else◌, arith,
  List, [], ◌∷◌, Option, none, some, subst, sym,
}
use trinitite.Base.Outcome.{>>=-eq-ok, Outcome, ok, crash, budget, fault, spent}
use trinitite.Noun.{Noun, direct, indirect, cell, contents_eq, is_cell, is_atom, yes_noun, no_noun}
use trinitite.Bignum.Step.{bn_inc}
use trinitite.Nock.Meter.{
  Meter, Run, return, lift, continue, ◌>>=◌, budget_tick, set_limits, nock_alloc_cell, WallCheck,
  Within, Advances, Advances-trans, budget_tick-Advances,
}
use trinitite.Nock.Slot.{slot}
use trinitite.Nock.Edit.{hax}
use trinitite.Nock.HotState.{hot_lookup}
use trinitite.Nock.Hint.{Entry, sock_match, parse_wilt}
use trinitite.Nock.Eval.{
  Opcode, slot_op, quote_op, compose_op, cell_op, inc_op, eq_op, if_op, then_op, pin_op, arm_op,
  edit_op, hint_op, unknown_op, decode, hint_tame, hint_wild, Jets, Host, Evaluator, or_else,
  find_jet, jets_of, run_arm, call_arm, take_hint, run_hint, run_edit, run_if, run_op, step,
  nock_eval, nock_ex,
}
use trinitite.Nock.Ends.{
  Runs, Ready, Safe, Safe-lift, Safe-return, Safe-crash, Safe-if, Safe-bind, Safe-alloc, Safe-parts,
  Safe-lift_bind,
}
use trinitite.Nock.Ends.Callees.{
  slot-settled, bn_inc-settled, Safe-hax, sock_match-settled, parse_wilt-settled, bind-settled,
}

-- What the evaluator is given ends too: its jets, within the limits, and the compilation of a %tame clue.
pub record HostEnds (host : Host) : Type 0 where
  pub jets :
      (fuel : ℕ) (label : Noun) (fn : Noun → Run Noun) (core : Noun)
      → hot_lookup host.hot_state label ≡ some fn
      → Safe fuel (fn core)
  pub tame : (clue : Noun) → host.tame_compile clue ≢ spent

-- An evaluator that ends from all counters that are ready at this fuel.
abbrev pub AllSafe : ℕ → Evaluator → Type 0
AllSafe fuel ev = (s f : Noun) (j : Jets) → Safe fuel (ev s f j)

module _ (host : Host) (ends : HostEnds host) (fuel : ℕ) (ev : Evaluator)
    (safe : AllSafe fuel ev) where
  find_jet-settled : (es : List Entry) (core : Noun) → find_jet host es core ≢ spent
  unfolding find_jet
  find_jet-settled [] core e = ground (arith, e)
  find_jet-settled (x ∷ es) core e =
      bind-settled (sock_match x.cape x.template core) _ (sock_match-settled x.cape x.template core)
        (λ b. branch b (hot_lookup host.hot_state x.label) (find_jet-settled es core)) e
    where
      branch :
          (b : Bool) (o : Option (Noun → Run Noun))
          → find_jet host es core ≢ spent
          → (if b then or_else o (find_jet host es core) else find_jet host es core) ≢ spent
      branch true none ne e = ne e
      branch true (some fn) ne e = ground (arith, e)
      branch false o ne e = ne e

  -- A jet that was found is the jet of some label.
  find_jet-label :
      (es : List Entry) (core : Noun) (fn : Noun → Run Noun)
      → find_jet host es core ≡ ok (some fn)
      → (label : Noun) × (hot_lookup host.hot_state label ≡ some fn)
  unfolding find_jet
  find_jet-label [] core fn e = absurd (none_found e)
    where
      none_found : ok none ≡ ok (some fn) → ⊥
      none_found h = some_ne (ok-injective h)
        where
          some_ne : none ≡ some fn → ⊥
          some_ne h = cc

          ok-injective : ok none ≡ ok (some fn) → none ≡ some fn
          ok-injective h = cc
  find_jet-label (x ∷ es) core fn e =
      let s = >>=-eq-ok (sock_match x.cape x.template core) _ e in
      from_branch s.0 (hot_lookup host.hot_state x.label) refl (find_jet-label es core fn) s.2
    where
      from_branch :
          (b : Bool) (o : Option (Noun → Run Noun))
          → hot_lookup host.hot_state x.label ≡ o
          → (find_jet host es core ≡ ok (some fn)
              → (label : Noun) × (hot_lookup host.hot_state label ≡ some fn))
          → (if b then or_else o (find_jet host es core) else find_jet host es core) ≡ ok (some fn)
          → (label : Noun) × (hot_lookup host.hot_state label ≡ some fn)
      from_branch true none h k e = k e
      from_branch true (some g) h k e = (x.label, h ∙ cc)
      from_branch false o h k e = k e

  Safe-call_arm : (axis core : Noun) (jets : Jets) → Safe fuel (call_arm host ev axis core jets)
  unfolding call_arm
  Safe-call_arm axis core jets =
      Safe-lift_bind fuel (slot axis core) _ (slot-settled axis core) λ arm h.
        Safe-lift_bind fuel (find_jet host (jets_of jets) core) _
          (find_jet-settled (jets_of jets) core) (chosen arm)
    where
      chosen :
          (arm : Noun) (jet : Option (Noun → Run Noun))
          → find_jet host (jets_of jets) core ≡ ok jet
          → Safe fuel (run_arm ev core jets arm jet)
      chosen arm none h = safe core arm jets
      chosen arm (some fn) h =
          let l = find_jet-label (jets_of jets) core fn h in ends.jets fuel l.0 fn core l.1

  Safe-take_hint : (tag : ℕ) (clue : Noun) (jets : Jets) → Safe fuel (take_hint host tag clue jets)
  unfolding take_hint
  Safe-take_hint tag clue jets =
      Safe-if fuel (tag == hint_tame)
        (Safe-if fuel (is_cell clue)
          (Safe-bind fuel (lift (host.tame_compile clue)) (λ _. return jets)
            (Safe-lift fuel (host.tame_compile clue) (ends.tame clue)) (λ _. Safe-return fuel jets))
          (Safe-crash fuel "%tame: clue must be [label source-cord] cell"))
        (Safe-if fuel (tag == hint_wild)
          (Safe-bind fuel (lift (parse_wilt clue)) (λ es. return (some es))
            (Safe-lift fuel (parse_wilt clue) (unfold parse_wilt in parse_wilt-settled 16 clue))
            (λ es. Safe-return fuel (some es)))
          (Safe-return fuel jets))

  Safe-run_hint : (s hint d : Noun) (jets : Jets) → Safe fuel (run_hint host ev s hint d jets)
  unfolding run_hint
  Safe-run_hint s (direct v) d jets = safe s d jets
  Safe-run_hint s (indirect l) d jets = safe s d jets
  Safe-run_hint s (cell (direct tag) c) d jets =
      Safe-bind fuel (ev s c jets) _ (safe s c jets) λ clue.
        Safe-bind fuel (take_hint host tag clue jets) (λ jets'. ev s d jets')
          (Safe-take_hint tag clue jets) (λ jets'. safe s d jets')
  Safe-run_hint s (cell (indirect l) c) d jets = Safe-crash fuel "op11 hint tag not direct"
  Safe-run_hint s (cell (cell x y) c) d jets = Safe-crash fuel "op11 hint tag not direct"

  Safe-run_edit : (s hint d : Noun) (jets : Jets) → Safe fuel (run_edit host ev s hint d jets)
  unfolding run_edit
  Safe-run_edit s (direct v) d jets = Safe-crash fuel _
  Safe-run_edit s (indirect l) d jets = Safe-crash fuel _
  Safe-run_edit s (cell (direct axis) c) d jets =
      Safe-bind fuel (ev s c jets) _ (safe s c jets) λ val.
        Safe-bind fuel (ev s d jets) (λ target. hax axis val target) (safe s d jets)
          (λ target. Safe-hax fuel axis val target)
  Safe-run_edit s (cell (indirect l) c) d jets = Safe-crash fuel _
  Safe-run_edit s (cell (cell x y) c) d jets = Safe-crash fuel _

  Safe-run_if : (s test y n : Noun) (jets : Jets) → Safe fuel (run_if host ev s test y n jets)
  unfolding run_if
  Safe-run_if s test y n jets = Safe-bind fuel (ev s test jets) _ (safe s test jets) λ answer.
      Safe-if fuel (contents_eq answer yes_noun) (safe s y jets) (
        Safe-if fuel (contents_eq answer no_noun) (safe s n jets)
          (Safe-crash fuel "op6 condition not 0 or 1"))

  Safe-two :
      (s b c : Noun) (jets : Jets) (k : Noun → Noun → Run Noun)
      → ((x y : Noun) → Safe fuel (k x y))
      → Safe fuel (ev s b jets >>= λ x. ev s c jets >>= λ y. k x y)
  Safe-two s b c jets k h =
      Safe-bind fuel (ev s b jets) _ (safe s b jets)
        λ x. Safe-bind fuel (ev s c jets) (k x) (safe s c jets) (h x)

  Safe-run_op :
      (op : Opcode) (s tail : Noun) (jets : Jets) → Safe fuel (run_op host ev op s tail jets)
  unfolding run_op
  Safe-run_op slot_op s tail jets = Safe-lift fuel (slot tail s) (slot-settled tail s)
  Safe-run_op quote_op s tail jets = Safe-return fuel tail
  Safe-run_op compose_op s tail jets =
      Safe-parts fuel tail _ _
        λ b c. Safe-two s b c jets (λ x y. ev x y jets) (λ x y. safe x y jets)
  Safe-run_op cell_op s tail jets =
      Safe-bind fuel (ev s tail jets) _ (safe s tail jets) λ r. Safe-return fuel _
  Safe-run_op inc_op s tail jets = Safe-bind fuel (ev s tail jets) _ (safe s tail jets) λ r.
      Safe-if fuel (is_atom r) (Safe-lift fuel (bn_inc r) (bn_inc-settled r)) (Safe-crash fuel _)
  Safe-run_op eq_op s tail jets =
      Safe-parts fuel tail _ _ λ b c. Safe-two s b c jets _ (λ x y. Safe-return fuel _)
  Safe-run_op if_op s tail jets =
      Safe-parts fuel tail _ _ λ b rest. Safe-parts fuel rest _ _ λ c d. Safe-run_if s b c d jets
  Safe-run_op then_op s tail jets =
      Safe-parts fuel tail _ _
        λ b c. Safe-bind fuel (ev s b jets) _ (safe s b jets) λ x. safe x c jets
  Safe-run_op pin_op s tail jets = Safe-parts fuel tail _ _ λ b c.
      Safe-bind fuel (ev s b jets) _ (safe s b jets)
        λ x. Safe-bind fuel (nock_alloc_cell x s) _ (Safe-alloc fuel x s) λ y. safe y c jets
  Safe-run_op arm_op s tail jets =
      Safe-parts fuel tail _ _
        λ b c. Safe-bind fuel (ev s c jets) _ (safe s c jets) λ core. Safe-call_arm b core jets
  Safe-run_op edit_op s tail jets = Safe-parts fuel tail _ _ λ hint d. Safe-run_edit s hint d jets
  Safe-run_op hint_op s tail jets = Safe-parts fuel tail _ _ λ hint d. Safe-run_hint s hint d jets
  Safe-run_op unknown_op s tail jets = Safe-crash fuel "unimplemented opcode"

  Safe-step : AllSafe fuel (step host ev)
  unfolding step
  Safe-step s (direct v) jets = Safe-crash fuel "nock atom"
  Safe-step s (indirect l) jets = Safe-crash fuel "nock atom"
  Safe-step s (cell (cell b c) d) jets = Safe-two s (cell b c) d jets _ (λ x y. Safe-alloc fuel x y)
  Safe-step s (cell (indirect l) tail) jets = Safe-crash fuel "opcode not direct"
  Safe-step s (cell (direct op) tail) jets = Safe-run_op (decode op) s tail jets

-- A tick that goes on has used an operation that was left, and changed nothing else.
tick-ok :
    (wall : WallCheck) (m m' : Meter)
    → budget_tick wall m ≡ (ok tt, m')
    → (m'.ops_used ≡ m.ops_used + 1)
      × (m'.budget_max ≡ m.budget_max)
      × (m.budget_max ≢ 0 → m.ops_used < m.budget_max)
unfolding budget_tick
tick-ok wall m m' e = (ground arith, ground arith, λ ne. ground arith)

tick-Ready :
    (wall : WallCheck) (fuel : ℕ) (m m' : Meter)
    → Ready (suc fuel) m
    → budget_tick wall m ≡ (ok tt, m')
    → Ready fuel m'
tick-Ready wall fuel m m' r e =
    let t = tick-ok wall m m' e in
    let adv : Advances m m' = subst (λ q. Advances m q.1) e (budget_tick-Advances wall m) in
    record {
      within = adv.within r.within;
      limited = λ z. r.limited (sym t.1 ∙ z);
      enough = omega (arith, t.0, t.1, r.enough);
    }

after_tick :
    (wall : WallCheck) (fuel : ℕ) (m : Meter) (p : Run Noun) (r : Outcome (Unit {0}) × Meter)
    → Ready (suc fuel) m
    → budget_tick wall m ≡ r
    → Safe fuel p
    → Runs m (continue r.0 (λ _. p) r.1)
after_tick wall fuel m p (ok u, m') r e s =
    let rest = s m' (tick-Ready wall fuel m m' r e) in
    record {
      advances =
          Advances-trans (subst (λ q. Advances m q.1) e (budget_tick-Advances wall m))
            rest.advances;
      ended = rest.ended;
    }
after_tick wall fuel m p (crash x, m') r e s = record {
  advances = subst (λ q. Advances m q.1) e (budget_tick-Advances wall m);
  ended = λ z. ground (arith, z);
}
after_tick wall fuel m p (budget x, m') r e s = record {
  advances = subst (λ q. Advances m q.1) e (budget_tick-Advances wall m);
  ended = λ z. ground (arith, z);
}
after_tick wall fuel m p (fault, m') r e s = record {
  advances = subst (λ q. Advances m q.1) e (budget_tick-Advances wall m);
  ended = λ z. ground (arith, z);
}
after_tick wall fuel m p (spent, m') r e s = absurd (unfold budget_tick in ground arith)

nock_eval-AllSafe : (host : Host) → HostEnds host → (fuel : ℕ) → AllSafe fuel (nock_eval host fuel)
unfolding nock_eval
nock_eval-AllSafe host ends zero s f jets m r =
    absurd (omega (arith, r.enough, r.within.ops r.limited))
nock_eval-AllSafe host ends (suc fuel) s f jets m r =
    after_tick host.wall_check fuel m (step host (nock_eval host fuel) s f jets)
      (budget_tick host.wall_check m) r refl
      (Safe-step host ends fuel (nock_eval host fuel) (nock_eval-AllSafe host ends fuel) s f jets)

-- If each jet of the hot state ends by itself and keeps to the limits, and the compilation of a %tame clue,
-- taken to leave the counters alone, ends, then with a limit of `max_ops` operations set by
-- `nock_budget_set_limits` an evaluation of any formula ends by itself within a nesting of `max_ops + 1` rounds: it
-- returns, crashes, or is aborted. The operations and the cells that it has used are then within their
-- limits, and the limits are as set.
pub nock_eval-ends :
    (host : Host)
    → HostEnds host
    → (max_ops max_cells : ℕ) (s f : Noun) (jets : Jets) (m : Meter) → 0 < max_ops
    → let r = nock_ex host (max_ops + 1) s f jets (set_limits max_ops max_cells m) in
      (r.0 ≢ spent)
      × (r.1.budget_max ≡ max_ops)
      × (r.1.ops_used ≤ max_ops)
      × (0 < max_cells → r.1.cells_used ≤ max_cells)
unfolding nock_ex set_limits
nock_eval-ends host ends max_ops max_cells s f jets m pos =
    let start : Meter = set_limits max_ops max_cells m in
    let r = nock_eval-AllSafe host ends (max_ops + 1) s f jets start (record {
      within = record { ops = λ ne. omega arith; cells = λ ne. omega arith };
      limited = λ e. absurd (omega (arith, e));
      enough = omega arith;
    }) in
    let w : Within _ =
      r.advances.within (record { ops = λ ne. omega arith; cells = λ ne. omega arith }) in
    (
      r.ended,
      r.advances.same_max,
      omega
          (arith, r.advances.same_max, w.ops (λ e. absurd (omega (arith, r.advances.same_max, e)))),
      λ c. omega (
        arith,
        r.advances.same_cell_max,
        w.cells (λ e. absurd (omega (arith, r.advances.same_cell_max, e))),
      ),
    )
