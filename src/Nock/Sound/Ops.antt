-- ===== src/Nock/Sound/Ops.antt =====
-- The opcodes of `nock_eval` against the reductions of Nock.
use trinitite.Base.{
  ℕ, ◌+◌, ◌<◌, ◌≤◌, ◌≡◌, ◌≢◌, refl, ap, subst, sym, ◌∙◌, arith, Bool, true, false, if◌then◌else◌,
  Bool-cases, inl, inr, List, [], ◌∷◌, Option, none, some,
}
use trinitite.Base.Outcome.{Outcome, ok, >>=-eq-ok}
use trinitite.Noun.{Noun, direct, indirect, cell, contents_eq, is_cell, is_atom, yes_noun, no_noun}
use trinitite.Noun.Limbs.{value}
use trinitite.Noun.Atom.{IsCanon, contents_eq_iff}
use trinitite.Nock.Meter.{
  Meter, Run, return, lift, ◌>>=◌, nock_alloc_cell, nock_alloc_cell-ok, bind-ok,
}
use trinitite.Nock.HotState.{hot_lookup}
use trinitite.Nock.Hint.{Entry, sock_match}
use trinitite.Nock.Eval
use trinitite.Nock.Eval.{
  Opcode, decode, Host, Jets, Evaluator, parts, loobean, or_else, jets_of, run_arm, find_jet,
  call_arm, take_hint, run_hint, run_edit, run_if, run_op, step, nock_eval, nock_ex,
}
use trinitite.Nock.Spec.{Tree, atom, pair, Reduces}
use trinitite.Nock.Sound.Denote.{denote, denote_injective, bn_inc-denote}
use trinitite.Nock.Sound.Axes.{slot-Axis, slot-IsCanon, ok-injective}

-- What a run returns is a canonical noun that Nock gives for the same subject and formula.
abbrev pub Gives : (Tree → Tree → Type 0) → Noun → Noun → Noun → Type 0
Gives J s f r = IsCanon r × Reduces J (denote s) (denote f) (denote r)

abbrev pub Sound : (Tree → Tree → Type 0) → Evaluator → Type 0
Sound J ev =
    (s f : Noun) (j : Jets) (m m' : Meter) (r : Noun)
    → IsCanon s
    → IsCanon f
    → ev s f j m ≡ (ok r, m')
    → Gives J s f r

-- What a jet of the host returns for a canonical core is a canonical noun that `J` allows.
abbrev pub JetsGive : (Tree → Tree → Type 0) → Host → Type 0
JetsGive J host =
    (label : Noun) (fn : Noun → Run Noun) (core r : Noun) (m m' : Meter)
    → hot_lookup host.hot_state label ≡ some fn
    → IsCanon core
    → fn core m ≡ (ok r, m')
    → IsCanon r × J (denote core) (denote r)

-- The number of an opcode.
abbrev pub code : Opcode → ℕ
code Eval.slot_op = 0
code Eval.quote_op = 1
code Eval.compose_op = 2
code Eval.cell_op = 3
code Eval.inc_op = 4
code Eval.eq_op = 5
code Eval.if_op = 6
code Eval.then_op = 7
code Eval.pin_op = 8
code Eval.arm_op = 9
code Eval.edit_op = 10
code Eval.hint_op = 11
code Eval.unknown_op = 12

pub decode-code : (op : ℕ) → op < 12 → code (decode op) ≡ op
unfolding decode
decode-code op h = ground arith

pub decode_large : (op : ℕ) → 12 ≤ op → decode op ≡ Eval.unknown_op
unfolding decode
decode_large op h = ground arith

-- The run gives the value that it returned.
pub return-ok {ℓ} : {A : Type ℓ} {a b : A} {m m' : Meter} → return a m ≡ (ok b, m') → a ≡ b
return-ok e = ok-injective (ap (λ q. q.0) e)

pub lift-ok {ℓ} :
    {A : Type ℓ} {o : Outcome A} {b : A} {m m' : Meter} → lift o m ≡ (ok b, m') → o ≡ ok b
lift-ok e = ap (λ q. q.0) e

-- A jet of the host.
abbrev pub IsJet : Host → (Noun → Run Noun) → Type 0
IsJet host fn = (label : Noun) × (hot_lookup host.hot_state label ≡ some fn)

-- No jet, or one of the host.
abbrev pub FoundJet : Host → Option (Noun → Run Noun) → Type 0
FoundJet host none = Unit
FoundJet host (some fn) = IsJet host fn

pub find_jet-FoundJet :
    (host : Host) (es : List Entry) (core : Noun) (o : Option (Noun → Run Noun))
    → find_jet host es core ≡ ok o
    → FoundJet host o
unfolding find_jet
find_jet-FoundJet host [] core o e = subst (FoundJet host) (ok-injective e) tt
find_jet-FoundJet host (x ∷ es) core o e =
    let s = >>=-eq-ok (sock_match x.cape x.template core) _ e in
    pick s.0 (hot_lookup host.hot_state x.label) refl (find_jet-FoundJet host es core o) s.2
  where
    pick :
        (b : Bool) (l : Option (Noun → Run Noun))
        → hot_lookup host.hot_state x.label ≡ l
        → (find_jet host es core ≡ ok o → FoundJet host o)
        → (if b then or_else l (find_jet host es core) else find_jet host es core) ≡ ok o
        → FoundJet host o
    pick true none h k e = k e
    pick true (some g) h k e = subst (FoundJet host) (ok-injective e) (x.label, h)
    pick false l h k e = k e

module _ (J : Tree → Tree → Type 0) (host : Host) (honest : JetsGive J host) (ev : Evaluator)
    (sound : Sound J ev) where
  abbrev pub OpSound : Opcode → Type 0
  OpSound o =
      (s tail : Noun) (j : Jets) (m m' : Meter) (r : Noun)
      → IsCanon s
      → IsCanon tail
      → run_op host ev o s tail j m ≡ (ok r, m')
      → Gives J s (cell (direct (code o)) tail) r

  -- The first run of a sequence, and what is left of it.
  pub first-Gives :
      (s f : Noun) (j : Jets) (k : Noun → Run Noun) (m m' : Meter) (r : Noun)
      → IsCanon s
      → IsCanon f
      → (ev s f j >>= k) m ≡ (ok r, m')
      → (x : Noun) × (m₁ : Meter) × Gives J s f x × (k x m₁ ≡ (ok r, m'))
  first-Gives s f j k m m' r cs cf e =
      let p = bind-ok (ev s f j) k m e in (p.0, p.1, sound s f j m p.1 p.0 cs cf p.2, p.3)

  pub slot-Gives : OpSound Eval.slot_op
  unfolding run_op
  slot-Gives s tail j m m' r cs ct e =
      let h = slot-Axis tail s r ct (lift-ok e) in
      (
        slot-IsCanon tail s r cs (lift-ok e),
        subst (λ t. Reduces J (denote s) (pair (atom 0) t) (denote r)) (sym h.1)
            (Reduces.slot 0 h.0 refl h.2),
      )

  pub quote-Gives : OpSound Eval.quote_op
  unfolding run_op
  quote-Gives s tail j m m' r cs ct e =
      let same : tail ≡ r = return-ok {m = m} {m' = m'} e in
      (
        subst IsCanon same ct,
        subst (λ t. Reduces J (denote s) (pair (atom 1) (denote tail)) (denote t)) same
            (Reduces.quote 1 refl),
      )

  pub inc-Gives : OpSound Eval.inc_op
  unfolding run_op
  inc-Gives s tail j m m' r cs ct e =
      let p = first-Gives s tail j _ m m' r cs ct e in
      let x : Noun = p.0 in
      elim (Bool-cases (is_atom x)) [
        | inl at ↦
            let i = bn_inc-denote x r p.2.0 (lift-ok {m = p.1} {m' = m'} (rw at at p.3)) in
            (
              i.3,
              subst (λ t. Reduces J (denote s) (pair (atom 4) (denote tail)) t) (sym i.2)
                  (Reduces.lus 4 i.0 (i.0 + 1) refl refl
                    (subst (λ t. Reduces J (denote s) (denote tail) t) i.1 p.2.1)),
            )
        | inr a ↦ absurd (ground (arith, rw a at p.3))
      ]

  pub cell-Gives : OpSound Eval.cell_op
  unfolding run_op
  cell-Gives s tail j m m' r cs ct e =
      let p = first-Gives s tail j _ m m' r cs ct e in
      answer p.0 p.2.1 (return-ok {m = p.1} {m' = m'} p.3)
    where
      answer :
          (x : Noun)
          → Reduces J (denote s) (denote tail) (denote x)
          → loobean (is_cell x) ≡ r
          → Gives J s (cell (direct 3) tail) r
      answer (direct v) g same =
          subst (Gives J s (cell (direct 3) tail)) same (omega arith, Reduces.wut_atom 3 v refl g)
      answer (indirect l) g same =
          subst (Gives J s (cell (direct 3) tail)) same
            (omega arith, Reduces.wut_atom 3 (value l) refl g)
      answer (cell h t) g same =
          subst (Gives J s (cell (direct 3) tail)) same (omega arith, Reduces.wut_cell 3 refl g)

  pub compose-Gives : OpSound Eval.compose_op
  unfolding run_op
  compose-Gives s (direct v) j m m' r cs ct e = absurd (ground arith)
  compose-Gives s (indirect l) j m m' r cs ct e = absurd (ground arith)
  compose-Gives s (cell b c) j m m' r cs ct e =
      let p = first-Gives s b j _ m m' r cs ct.0 e in
      let q = first-Gives s c j _ p.1 m' r cs ct.1 p.3 in
      let g = sound p.0 q.0 j q.1 m' r p.2.0 q.2.0 q.3 in
      (g.0, Reduces.compose 2 refl p.2.1 q.2.1 g.1)

  pub then-Gives : OpSound Eval.then_op
  unfolding run_op
  then-Gives s (direct v) j m m' r cs ct e = absurd (ground arith)
  then-Gives s (indirect l) j m m' r cs ct e = absurd (ground arith)
  then-Gives s (cell b c) j m m' r cs ct e =
      let p = first-Gives s b j _ m m' r cs ct.0 e in
      let g = sound p.0 c j p.1 m' r p.2.0 ct.1 p.3 in (g.0, Reduces.then 7 refl p.2.1 g.1)

  pub pin-Gives : OpSound Eval.pin_op
  unfolding run_op
  pin-Gives s (direct v) j m m' r cs ct e = absurd (ground arith)
  pin-Gives s (indirect l) j m m' r cs ct e = absurd (ground arith)
  pin-Gives s (cell b c) j m m' r cs ct e =
      let p = first-Gives s b j _ m m' r cs ct.0 e in
      let q = bind-ok (nock_alloc_cell p.0 s) (λ n. ev n c j) p.1 p.3 in
      let pinned : q.0 ≡ cell p.0 s = nock_alloc_cell-ok p.0 s p.1 q.2 in
      let g =
        sound (cell p.0 s) c j q.1 m' r (p.2.0, cs) ct.1
          (ap (λ n. ev n c j q.1) (sym pinned) ∙ q.3) in
      (g.0, Reduces.pin 8 refl p.2.1 g.1)

  pub eq-Gives : OpSound Eval.eq_op
  unfolding run_op
  eq-Gives s (direct v) j m m' r cs ct e = absurd (ground arith)
  eq-Gives s (indirect l) j m m' r cs ct e = absurd (ground arith)
  eq-Gives s (cell b c) j m m' r cs ct e =
      let p = first-Gives s b j _ m m' r cs ct.0 e in
      let q = first-Gives s c j _ p.1 m' r cs ct.1 p.3 in
      let same : loobean (contents_eq p.0 q.0) ≡ r = return-ok {m = q.1} {m' = m'} q.3 in
      elim (Bool-cases (contents_eq p.0 q.0)) [
        | inl y ↦
            let one : p.0 ≡ q.0 = (contents_eq_iff p.0 q.0).0 y in
            subst (Gives J s (cell (direct 5) (cell b c))) (ap loobean (sym y) ∙ same) (
              omega arith,
              Reduces.tis_same 5 refl p.2.1
                  (subst (λ n. Reduces J (denote s) (denote c) (denote n)) (sym one) q.2.1),
            )
        | inr n ↦
            subst (Gives J s (cell (direct 5) (cell b c))) (ap loobean (sym n) ∙ same)
              (omega arith, Reduces.tis_other 5 refl p.2.1 q.2.1 (differ p.0 q.0 n p.2.0 q.2.0))
      ]
    where
      differ : (x y : Noun) → contents_eq x y ≡ false → IsCanon x → IsCanon y → denote x ≢ denote y
      differ x y n cx cy d =
          absurd (ground (arith, (contents_eq_iff x y).1 (denote_injective x y cx cy d)))

  pub if-Gives : OpSound Eval.if_op
  unfolding run_op run_if
  if-Gives s (direct v) j m m' r cs ct e = absurd (ground arith)
  if-Gives s (indirect l) j m m' r cs ct e = absurd (ground arith)
  if-Gives s (cell b (direct v)) j m m' r cs ct e = absurd (ground arith)
  if-Gives s (cell b (indirect l)) j m m' r cs ct e = absurd (ground arith)
  if-Gives s (cell b (cell c d)) j m m' r cs ct e =
      let p = first-Gives s b j _ m m' r cs ct.0 e in
      elim (Bool-cases (contents_eq p.0 yes_noun)) [
        | inl y ↦
            let g = sound s c j p.1 m' r cs ct.1.0 (rw y at p.3) in
            (
              g.0,
              Reduces.if_yes 6 refl
                  (subst (λ n. Reduces J (denote s) (denote b) (denote n))
                    ((contents_eq_iff p.0 yes_noun).0 y) p.2.1)
                  g.1,
            )
        | inr n ↦ elim (Bool-cases (contents_eq p.0 no_noun)) [
          | inl y ↦
              let g = sound s d j p.1 m' r cs ct.1.1 (rw (n, y) at p.3) in
              (
                g.0,
                Reduces.if_no 6 refl
                    (subst (λ n. Reduces J (denote s) (denote b) (denote n))
                      ((contents_eq_iff p.0 no_noun).0 y) p.2.1)
                    g.1,
              )
          | inr k ↦ absurd (ground (arith, rw (n, k) at p.3))
        ]
      ]
