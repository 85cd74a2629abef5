-- ===== src/Nock/Ends.antt =====
-- How a run of the evaluator ends under an operation limit: rules for its parts.
pub mod Callees
use trinitite.Base.{
  ℕ, zero, suc, ◌+◌, ◌-◌, ◌≤◌, ◌<◌, ◌≡◌, ◌≢◌, refl, ap, ◌∙◌, Bool, true, false, ◌==◌, if◌then◌else◌,
  arith, List, [], ◌∷◌, Option, none, some, String, Bool-cases, inl, inr, Option-cases, ltb, sym,
  ◌^◌,
}
use trinitite.Base.Outcome
use trinitite.Base.Outcome.{Outcome, ok, crash, budget, fault, spent}
use trinitite.Noun.{Noun, direct, indirect, cell, contents_eq, is_cell, is_atom, yes_noun, no_noun}
use trinitite.Noun.Atom.{make_atom, make_atom_checked}
use trinitite.Bignum.Step.{bn_inc, saturated, inc_scratch, inc_size}
use trinitite.Bignum.Scratch.{max_limbs}
use trinitite.Nock.Meter.{
  Meter, Run, return, lift, nock_crash, continue, ◌>>=◌, ◌>>◌, budget_tick, nock_alloc_cell,
  WallCheck, Within, Advances, Advances-refl, Advances-trans, budget_tick-Advances,
  nock_alloc_cell-Advances,
}
use trinitite.Nock.Slot.{slot, walk, depth_loop, path_fuel, bit_at}
use trinitite.Nock.Edit.{hax, sub_axis}
use trinitite.Nock.Hint.{Entry, sock_match, parse_entry, parse_wilt_loop, parse_wilt}
use trinitite.Nock.Eval.{
  Opcode, slot_op, quote_op, compose_op, cell_op, inc_op, eq_op, if_op, then_op, pin_op, arm_op,
  edit_op, hint_op, unknown_op, decode, hint_tame, hint_wild, Jets, Host, Evaluator, parts, loobean,
  or_else, find_jet, jets_of, call_arm, take_hint, run_hint, run_edit, run_if, run_op, step,
  nock_eval,
}

-- How a run from the counters `m` ends: by its own doing, with the counters moved on.
pub record Runs {ℓ} {A : Type ℓ} (m : Meter) (r : Outcome A × Meter) : Type ℓ where
  pub advances : Advances m r.1
  pub ended : r.0 ≢ spent

-- The limit is on, and less of it is left than there is fuel.
pub record Ready (fuel : ℕ) (m : Meter) : Type 0 where
  pub within : Within m
  pub limited : m.budget_max ≢ 0
  pub enough : m.budget_max < fuel + m.ops_used

abbrev pub Safe {ℓ} : {A : Type ℓ} → ℕ → Run A → Type ℓ
Safe fuel p = (m : Meter) → Ready fuel m → Runs m (p m)

pub Ready-Advances : {fuel : ℕ} {m m' : Meter} → Ready fuel m → Advances m m' → Ready fuel m'
Ready-Advances r a = record {
  within = a.within r.within;
  limited = λ e. r.limited (sym a.same_max ∙ e);
  enough = omega (arith, r.enough, a.same_max, a.more_ops);
}

module _ {ℓ} {A : Type ℓ} (fuel : ℕ) where
  pub Safe-lift : (o : Outcome A) → o ≢ spent → Safe fuel (lift o)
  Safe-lift o ne m r = record { advances = Advances-refl m; ended = ne }

  pub Safe-return : (a : A) → Safe fuel (return a)
  Safe-return a = Safe-lift (ok a) (λ e. ground (arith, e))

  pub Safe-crash : (msg : String) → Safe fuel (nock_crash {A = A} msg)
  Safe-crash msg = Safe-lift (crash msg) (λ e. ground (arith, e))

  pub Safe-if :
      (b : Bool) {p q : Run A} → Safe fuel p → Safe fuel q → Safe fuel (if b then p else q)
  Safe-if true s t = s
  Safe-if false s t = t

module _ {ℓ κ} {A : Type ℓ} {B : Type κ} (fuel : ℕ) where
  continue-Runs :
      (o : Outcome A) (f : A → Run B) (m m' : Meter)
      → Advances m m'
      → o ≢ spent
      → ((a : A) → Runs m' (f a m'))
      → Runs m (continue o f m')
  continue-Runs (ok a) f m m' adv ne k = record {
    advances = Advances-trans adv (k a).advances;
    ended = (k a).ended;
  }
  continue-Runs (crash s) f m m' adv ne k = record {
    advances = adv;
    ended = λ e. ground (arith, e);
  }
  continue-Runs (budget r) f m m' adv ne k = record {
    advances = adv;
    ended = λ e. ground (arith, e);
  }
  continue-Runs fault f m m' adv ne k = record { advances = adv; ended = λ e. ground (arith, e) }
  continue-Runs spent f m m' adv ne k = absurd (ne refl)

  pub Safe-bind :
      (p : Run A) (f : A → Run B) → Safe fuel p → ((a : A) → Safe fuel (f a)) → Safe fuel (p >>= f)
  Safe-bind p f s k m r =
      let first = s m r in
      continue-Runs (p m).0 f m (p m).1 first.advances first.ended
        (λ a. k a (p m).1 (Ready-Advances r first.advances))

pub Safe-alloc : (fuel : ℕ) (h t : Noun) → Safe fuel (nock_alloc_cell h t)
Safe-alloc fuel h t m r = record {
  advances = nock_alloc_cell-Advances h t m;
  ended = unfold nock_alloc_cell in λ e. ground (arith, e);
}

pub Safe-parts {ℓ} :
    {A : Type ℓ} (fuel : ℕ) (n : Noun) (msg : String) (k : Noun → Noun → Run A)
    → ((a b : Noun) → Safe fuel (k a b))
    → Safe fuel (parts n msg k)
Safe-parts fuel (direct v) msg k s = Safe-crash fuel msg
Safe-parts fuel (indirect l) msg k s = Safe-crash fuel msg
Safe-parts fuel (cell a b) msg k s = s a b

pub Safe-lift_bind {ℓ κ} :
    {A : Type ℓ} {B : Type κ} (fuel : ℕ) (o : Outcome A) (f : A → Run B)
    → o ≢ spent
    → ((a : A) → o ≡ ok a → Safe fuel (f a))
    → Safe fuel (lift o >>= f)
Safe-lift_bind fuel (ok a) f ne k = k a refl
Safe-lift_bind fuel (crash s) f ne k = Safe-crash fuel s
Safe-lift_bind fuel (budget r) f ne k = Safe-lift fuel (budget r) (λ e. ground (arith, e))
Safe-lift_bind fuel fault f ne k = Safe-lift fuel fault (λ e. ground (arith, e))
Safe-lift_bind fuel spent f ne k = absurd (ne refl)
