-- ===== src/Nock/Meter.antt =====
-- The budgets of nock.c: the static counters, `nock_budget_tick` and `nock_alloc_cell`. A run takes
-- the counters and returns them with its outcome, also where it unwinds by longjmp.
use trinitite.Base.{
  ℕ, ◌+◌, ◌%◌, ◌≤◌, ◌≢◌, ◌≡◌, refl, ap, Bool, false, ◌&&◌, not, Option, none, some, leb, ◌==◌,
  if◌then◌else◌, arith, ◌∙◌, String,
}
use trinitite.Base.Outcome.{Outcome, ok, crash, budget, fault, spent}
use trinitite.Noun.{Noun, cell}

-- A limit of 0 is none.
pub record Meter : Type 0 where
  pub budget_max : ℕ
  pub ops_used : ℕ
  pub cell_budget_max : ℕ
  pub cells_used : ℕ
  pub abort_reason : ℕ

abbrev pub Run {ℓ} : Type ℓ → Type ℓ
Run A = Meter → Outcome A × Meter

abbrev pub return {ℓ} : {A : Type ℓ} → A → Run A
return a m = (ok a, m)

-- `nock_crash`
abbrev pub nock_crash {ℓ} : {A : Type ℓ} → String → Run A
nock_crash msg m = (crash msg, m)

-- A call that allocates no cell through `nock_alloc_cell`.
abbrev pub lift {ℓ} : {A : Type ℓ} → Outcome A → Run A
lift o m = (o, m)

abbrev pub continue {ℓ κ} : {A : Type ℓ} {B : Type κ} → Outcome A → (A → Run B) → Run B
continue (ok a) f m = f a m
continue (crash s) f m = (crash s, m)
continue (budget r) f m = (budget r, m)
continue fault f m = (fault, m)
continue spent f m = (spent, m)

infixl 5 ◌>>=◌ ◌>>◌
abbrev pub ◌>>=◌ {ℓ κ} : {A : Type ℓ} {B : Type κ} → Run A → (A → Run B) → Run B
◌>>=◌ p f m = let r = p m in continue r.0 f r.1

abbrev pub ◌>>◌ {ℓ κ} : {A : Type ℓ} {B : Type κ} → Run A → Run B → Run B
p >> q = p >>= λ _. q

-- `nock_budget_set_limits`
unfoldable pub set_limits : ℕ → ℕ → Meter → Meter
set_limits max_ops max_cells m = record {
  budget_max = max_ops;
  ops_used = 0;
  cell_budget_max = max_cells;
  cells_used = 0;
  abort_reason = 0;
}

-- `nock_budget_set`
unfoldable pub budget_set : ℕ → Meter → Meter
unfolding set_limits
budget_set max_ops m = set_limits max_ops 0 m

-- `nock_budget_finish`
unfoldable pub budget_finish : Meter → Meter
budget_finish m = record m { budget_max = 0; cell_budget_max = 0 }

-- `g_wall_check`: what the deadline check says when it is polled after this many operations.
abbrev pub WallCheck : Type 0
WallCheck = Option (ℕ → Bool)

abbrev wall_expired : WallCheck → ℕ → Bool
wall_expired none ops = false
wall_expired (some check) ops = (ops % 256 == 0) && check ops

abbrev abort {ℓ} : {A : Type ℓ} → ℕ → Run A
abort reason m = (budget reason, record m { abort_reason = reason })

unfoldable pub budget_tick : WallCheck → Run (Unit {0})
budget_tick wall m =
    if not (m.budget_max == 0) && leb m.budget_max m.ops_used
    then abort 1 m
    else let m' : Meter = record m { ops_used = m.ops_used + 1 } in
      if wall_expired wall m'.ops_used then abort 2 m' else (ok tt, m')

unfoldable pub nock_alloc_cell : Noun → Noun → Run Noun
nock_alloc_cell head tail m =
    if not (m.cell_budget_max == 0) && leb m.cell_budget_max m.cells_used
    then abort 3 m
    else (ok (cell head tail), record m { cells_used = m.cells_used + 1 })

-- The counters stay within their limits, and an abort names the limit that was met.
pub record Within (m : Meter) : Type 0 where
  pub ops : m.budget_max ≢ 0 → m.ops_used ≤ m.budget_max
  pub cells : m.cell_budget_max ≢ 0 → m.cells_used ≤ m.cell_budget_max

-- What a run may do to the counters: the limits stay, the counts only grow, and they stay in bounds.
pub record Advances (m m' : Meter) : Type 0 where
  pub same_max : m'.budget_max ≡ m.budget_max
  pub same_cell_max : m'.cell_budget_max ≡ m.cell_budget_max
  pub more_ops : m.ops_used ≤ m'.ops_used
  pub more_cells : m.cells_used ≤ m'.cells_used
  pub within : Within m → Within m'

pub Advances-refl : (m : Meter) → Advances m m
Advances-refl m = record {
  same_max = refl;
  same_cell_max = refl;
  more_ops = omega arith;
  more_cells = omega arith;
  within = λ w. w;
}

pub Advances-trans : {a b c : Meter} → Advances a b → Advances b c → Advances a c
Advances-trans p q = record {
  same_max = q.same_max ∙ p.same_max;
  same_cell_max = q.same_cell_max ∙ p.same_cell_max;
  more_ops = omega arith;
  more_cells = omega arith;
  within = λ w. q.within (p.within w);
}

pub budget_tick-Advances : (wall : WallCheck) (m : Meter) → Advances m (budget_tick wall m).1
unfolding budget_tick
budget_tick-Advances wall m = record {
  same_max = ground arith;
  same_cell_max = ground arith;
  more_ops = ground arith;
  more_cells = ground arith;
  within = λ w. record { ops = ground (arith, w.ops); cells = ground (arith, w.cells) };
}

pub nock_alloc_cell-Advances : (h t : Noun) (m : Meter) → Advances m (nock_alloc_cell h t m).1
unfolding nock_alloc_cell
nock_alloc_cell-Advances h t m = record {
  same_max = ground arith;
  same_cell_max = ground arith;
  more_ops = ground arith;
  more_cells = ground arith;
  within = λ w. record { ops = ground (arith, w.ops); cells = ground (arith, w.cells) };
}

continue-ok {ℓ κ} :
    {A : Type ℓ} {B : Type κ} (o : Outcome A) (f : A → Run B) (m : Meter) {b : B} {m' : Meter}
    → continue o f m ≡ (ok b, m')
    → (a : A) × (o ≡ ok a) × (f a m ≡ (ok b, m'))
continue-ok (ok a) f m e = (a, refl, e)
continue-ok (crash s) f m e = absurd (ground (arith, ap (λ r. r.0) e))
continue-ok (budget r) f m e = absurd (ground (arith, ap (λ r. r.0) e))
continue-ok fault f m e = absurd (ground (arith, ap (λ r. r.0) e))
continue-ok spent f m e = absurd (ground (arith, ap (λ r. r.0) e))

-- A run in sequence that returns went through both of its parts.
pub bind-ok {ℓ κ} :
    {A : Type ℓ} {B : Type κ} (p : Run A) (f : A → Run B) (m : Meter) {b : B} {m' : Meter}
    → (p >>= f) m ≡ (ok b, m')
    → (a : A) × (m₁ : Meter) × (p m ≡ (ok a, m₁)) × (f a m₁ ≡ (ok b, m'))
bind-ok p f m e =
    let c = continue-ok (p m).0 f (p m).1 e in (c.0, (p m).1, ap (λ o. (o, (p m).1)) c.1, c.2)

pub nock_alloc_cell-ok :
    (h t : Noun) (m : Meter) {r : Noun} {m' : Meter}
    → nock_alloc_cell h t m ≡ (ok r, m')
    → r ≡ cell h t
unfolding nock_alloc_cell
nock_alloc_cell-ok h t m e = ground arith
