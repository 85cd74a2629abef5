-- ===== src/Nock/Sound/Whole.antt =====
-- The calls, edits and hints of `nock_eval`, and the evaluator as a whole, against Nock.
use trinitite.Base.{
  ℕ, zero, suc, ◌≡◌, refl, subst, sym, arith, Bool-cases, ltb, ltb→lt, inl, inr, ◌⊎◌, Option, none,
  some,
}
use trinitite.Base.Outcome.{ok}
use trinitite.Noun.{Noun, direct, indirect, cell}
use trinitite.Noun.Limbs.{value}
use trinitite.Noun.Atom.{IsCanon}
use trinitite.Nock.Meter.{Meter, Run, lift, ◌>>=◌, nock_alloc_cell-ok, bind-ok, budget_tick}
use trinitite.Nock.Slot.{slot}
use trinitite.Nock.Eval
use trinitite.Nock.Eval.{
  Opcode, decode, Host, Jets, Evaluator, parts, loobean, or_else, jets_of, run_arm, find_jet,
  call_arm, take_hint, run_hint, run_edit, run_if, run_op, step, nock_eval, nock_ex,
}
use trinitite.Nock.Spec.{Tree, atom, pair, Axis, Reduces}
use trinitite.Nock.Sound.Denote.{denote}
use trinitite.Nock.Sound.Axes.{slot-Axis, slot-IsCanon, hax-Edit}
use trinitite.Nock.Sound.Ops.{
  Gives, Sound, JetsGive, FoundJet, OpSound, decode-code, decode_large, lift-ok, find_jet-FoundJet,
  first-Gives, slot-Gives, quote-Gives, inc-Gives, cell-Gives, compose-Gives, then-Gives, pin-Gives,
  eq-Gives, if-Gives,
}

module _ (J : Tree → Tree → Type 0) (host : Host) (honest : JetsGive J host) (ev : Evaluator)
    (sound : Sound J ev) where
  arm-Gives : OpSound J host honest ev sound Eval.arm_op
  unfolding run_op call_arm
  arm-Gives s (direct v) j m m' r cs ct e = absurd (ground arith)
  arm-Gives s (indirect l) j m m' r cs ct e = absurd (ground arith)
  arm-Gives s (cell b c) j m m' r cs ct e =
      let p = first-Gives J host honest ev sound s c j _ m m' r cs ct.1 e in
      let core : Noun = p.0 in
      let q =
        bind-ok (lift (slot b core))
          (λ arm. lift (find_jet host (jets_of j) core) >>= run_arm ev core j arm) p.1 p.3 in
      let arm : Noun = q.0 in
      let at = slot-Axis b core arm ct.0 (lift-ok {m = p.1} {m' = q.1} q.2) in
      let canon = slot-IsCanon b core arm p.2.0 (lift-ok {m = p.1} {m' = q.1} q.2) in
      let t = bind-ok (lift (find_jet host (jets_of j) core)) (run_arm ev core j arm) q.1 q.3 in
      let found = find_jet-FoundJet host (jets_of j) core t.0 (lift-ok {m = q.1} {m' = t.1} t.2) in
      let g = answered core arm j t.0 t.1 m' r p.2.0 canon found t.3 in
      (
        g.0,
        subst (λ x. Reduces J (denote s) (pair (atom 9) (pair x (denote c))) (denote r)) (sym at.1)
            (reduced s c core arm r at.0 p.2.1 at.2 g.1),
      )
    where
      answered :
          (core arm : Noun) (j : Jets) (o : Option (Noun → Run Noun)) (m m' : Meter) (r : Noun)
          → IsCanon core
          → IsCanon arm
          → FoundJet host o
          → run_arm ev core j arm o m ≡ (ok r, m')
          → IsCanon r
            × (Reduces J (denote core) (denote arm) (denote r) ⊎ J (denote core) (denote r))
      answered core arm j none m m' r co ca found e =
          let g = sound core arm j m m' r co ca e in (g.0, inl g.1)
      answered core arm j (some fn) m m' r co ca found e =
          let g = honest found.0 fn core r m m' found.1 co e in (g.0, inr g.1)

      reduced :
          (s c core arm r : Noun) (a : ℕ)
          → Reduces J (denote s) (denote c) (denote core)
          → Axis a (denote core) (denote arm)
          → Reduces J (denote core) (denote arm) (denote r) ⊎ J (denote core) (denote r)
          → Reduces J (denote s) (pair (atom 9) (pair (atom a) (denote c))) (denote r)
      reduced s c core arm r a g at (inl h) = Reduces.arm 9 a refl g at h
      reduced s c core arm r a g at (inr h) = Reduces.jetted 9 a refl g at h

  edit-Gives : OpSound J host honest ev sound Eval.edit_op
  unfolding run_op run_edit
  edit-Gives s (direct v) j m m' r cs ct e = absurd (ground arith)
  edit-Gives s (indirect l) j m m' r cs ct e = absurd (ground arith)
  edit-Gives s (cell (direct v) d) j m m' r cs ct e = absurd (ground arith)
  edit-Gives s (cell (indirect l) d) j m m' r cs ct e = absurd (ground arith)
  edit-Gives s (cell (cell (indirect l) c) d) j m m' r cs ct e = absurd (ground arith)
  edit-Gives s (cell (cell (cell x y) c) d) j m m' r cs ct e = absurd (ground arith)
  edit-Gives s (cell (cell (direct a) c) d) j m m' r cs ct e =
      let p = first-Gives J host honest ev sound s c j _ m m' r cs ct.0.1 e in
      let q = first-Gives J host honest ev sound s d j _ p.1 m' r cs ct.1 p.3 in
      let g = hax-Edit a p.0 q.0 r q.1 m' ct.0.0 p.2.0 q.2.0 q.3 in
      (g.0, Reduces.edit 10 a refl p.2.1 q.2.1 g.1)

  hint-Gives : OpSound J host honest ev sound Eval.hint_op
  unfolding run_op run_hint
  hint-Gives s (direct v) j m m' r cs ct e = absurd (ground arith)
  hint-Gives s (indirect l) j m m' r cs ct e = absurd (ground arith)
  hint-Gives s (cell (direct v) d) j m m' r cs ct e =
      let g = sound s d j m m' r cs ct.1 e in (g.0, Reduces.hint 11 v refl g.1)
  hint-Gives s (cell (indirect l) d) j m m' r cs ct e =
      let g = sound s d j m m' r cs ct.1 e in (g.0, Reduces.hint 11 (value l) refl g.1)
  hint-Gives s (cell (cell (indirect l) c) d) j m m' r cs ct e = absurd (ground arith)
  hint-Gives s (cell (cell (cell x y) c) d) j m m' r cs ct e = absurd (ground arith)
  hint-Gives s (cell (cell (direct tag) c) d) j m m' r cs ct e =
      let p = first-Gives J host honest ev sound s c j _ m m' r cs ct.0.1 e in
      let q = bind-ok (take_hint host tag p.0 j) (λ j'. ev s d j') p.1 p.3 in
      let g = sound s d q.0 q.1 m' r cs ct.1 q.3 in (g.0, Reduces.dynamic_hint 11 refl p.2.1 g.1)

  op-Gives : (o : Opcode) → OpSound J host honest ev sound o
  op-Gives Eval.slot_op = slot-Gives J host honest ev sound
  op-Gives Eval.quote_op = quote-Gives J host honest ev sound
  op-Gives Eval.compose_op = compose-Gives J host honest ev sound
  op-Gives Eval.cell_op = cell-Gives J host honest ev sound
  op-Gives Eval.inc_op = inc-Gives J host honest ev sound
  op-Gives Eval.eq_op = eq-Gives J host honest ev sound
  op-Gives Eval.if_op = if-Gives J host honest ev sound
  op-Gives Eval.then_op = then-Gives J host honest ev sound
  op-Gives Eval.pin_op = pin-Gives J host honest ev sound
  op-Gives Eval.arm_op = arm-Gives
  op-Gives Eval.edit_op = edit-Gives
  op-Gives Eval.hint_op = hint-Gives
  op-Gives Eval.unknown_op = λ s tail j m m' r cs ct e. absurd (unfold run_op in ground arith)

  step-Sound : Sound J (step host ev)
  unfolding step
  step-Sound s (direct v) j m m' r cs cf e = absurd (ground arith)
  step-Sound s (indirect l) j m m' r cs cf e = absurd (ground arith)
  step-Sound s (cell (indirect l) tail) j m m' r cs cf e = absurd (ground arith)
  step-Sound s (cell (cell b c) d) j m m' r cs cf e =
      let p = first-Gives J host honest ev sound s (cell b c) j _ m m' r cs cf.0 e in
      let q = first-Gives J host honest ev sound s d j _ p.1 m' r cs cf.1 p.3 in
      subst (Gives J s (cell (cell b c) d)) (sym (nock_alloc_cell-ok p.0 q.0 q.1 q.3))
        ((p.2.0, q.2.0), Reduces.distribute p.2.1 q.2.1)
  step-Sound s (cell (direct op) tail) j m m' r cs cf e = elim (Bool-cases (ltb op 12)) [
    | inl known ↦
        subst (λ o. Gives J s (cell (direct o) tail) r) (decode-code op (ltb→lt op 12 known))
          (op-Gives (decode op) s tail j m m' r cs cf.1 e)
    | inr other ↦ absurd (unfold run_op in ground (arith, rw (decode_large op (ground arith)) at e))
  ]

nock_eval-Sound :
    (J : Tree → Tree → Type 0) (host : Host)
    → JetsGive J host
    → (fuel : ℕ) → Sound J (nock_eval host fuel)
unfolding nock_eval
nock_eval-Sound J host honest zero s f j m m' r cs cf e = absurd (ground arith)
nock_eval-Sound J host honest (suc fuel) s f j m m' r cs cf e =
    let t =
      bind-ok (budget_tick host.wall_check) (λ _. step host (nock_eval host fuel) s f j) m e in
    step-Sound J host honest (nock_eval host fuel) (nock_eval-Sound J host honest fuel) s f j t.1 m'
      r cs cf t.3

-- If each jet of the hot state, where it returns for a canonical core, returns a canonical noun that the
-- relation J of cores and results allows, then an evaluation of canonical nouns that returns, with any
-- fuel, registrations and counters, returns a canonical noun, and Nock 4K, with calls that J may answer in place
-- of their arms, reduces the formula on the subject to that noun.
pub nock_ex-Sound :
    (J : Tree → Tree → Type 0) (host : Host)
    → JetsGive J host
    → (fuel : ℕ) (s f : Noun) (jets : Jets) (m m' : Meter) (r : Noun) → IsCanon s
    → IsCanon f
    → nock_ex host fuel s f jets m ≡ (ok r, m')
    → IsCanon r × Reduces J (denote s) (denote f) (denote r)
unfolding nock_ex
nock_ex-Sound J host honest fuel s f jets m m' r cs cf e =
    nock_eval-Sound J host honest fuel s f jets m m' r cs cf e
