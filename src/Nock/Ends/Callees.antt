-- ===== src/Nock/Ends/Callees.antt =====
-- What the evaluator calls always ends.
use trinitite.Base.{
  ℕ, zero, suc, ◌+◌, ◌-◌, ◌≢◌, refl, Bool, true, false, ◌==◌, if◌then◌else◌, arith, List, [], ◌∷◌,
  Bool-cases, inl, inr, ◌^◌,
}
use trinitite.Base.Outcome
use trinitite.Base.Outcome.{Outcome, ok, crash, budget, fault, spent}
use trinitite.Noun.{Noun, direct, indirect, cell}
use trinitite.Noun.Atom.{make_atom}
use trinitite.Bignum.Step.{bn_inc, saturated, inc_scratch, inc_size, store_limbs-cases}
use trinitite.Bignum.Scratch.{max_limbs}
use trinitite.Nock.Meter.{nock_alloc_cell}
use trinitite.Nock.Slot.{slot, walk, depth_loop, path_fuel, bit_at}
use trinitite.Nock.Edit.{hax, sub_axis}
use trinitite.Nock.Hint.{sock_match, parse_entry, parse_wilt_loop}
use trinitite.Nock.Ends.{Safe, Safe-return, Safe-crash, Safe-if, Safe-bind, Safe-alloc}

walk-settled : (a k : ℕ) (n : Noun) → walk a k n ≢ spent
unfolding walk
walk-settled a zero n e = ground (arith, e)
walk-settled a (suc k) (direct v) e = ground (arith, e)
walk-settled a (suc k) (indirect l) e = ground (arith, e)
walk-settled a (suc k) (cell h t) e = walk-settled a k (if bit_at a k then t else h) e

pub slot-settled : (axis n : Noun) → slot axis n ≢ spent
unfolding slot
slot-settled (direct a) n e = elim (Bool-cases (a == 0)) [
  | inl z ↦ ground (arith, rw z at e)
  | inr z ↦ walk-settled a (depth_loop path_fuel a) n (rw z at e)
]
slot-settled (indirect l) n e = ground (arith, e)
slot-settled (cell x y) n e = ground (arith, e)

pub make_atom-settled : (l : List ℕ) (s : ℕ) → make_atom l s ≢ spent
unfolding make_atom
make_atom-settled l zero e = ground (arith, e)
make_atom-settled l (suc s) e = ground (arith, e)

pub bn_inc-settled : (a : Noun) → bn_inc a ≢ spent
unfolding bn_inc
bn_inc-settled (direct v) e = ground (arith, e, make_atom-settled (2 ^ 63 ∷ []) 1)
bn_inc-settled (indirect l) e =
    let size : ℕ = inc_size l (saturated l) in
    elim (store_limbs-cases (max_limbs + 1) (inc_scratch l (saturated l)) 0) [
      | inl fits ↦ make_atom-settled (inc_scratch l (saturated l)) size (rw fits at e)
      | inr big ↦ ground (arith, rw big at e)
    ]
bn_inc-settled (cell x y) e = ground (arith, e)

pub bind-settled {ℓ κ} :
    {A : Type ℓ} {B : Type κ} (o : Outcome A) (f : A → Outcome B)
    → o ≢ spent
    → ((a : A) → f a ≢ spent)
    → Outcome.◌>>=◌ o f ≢ spent
bind-settled (ok a) f p q e = q a e
bind-settled (crash s) f p q e = ground (arith, e)
bind-settled (budget r) f p q e = ground (arith, e)
bind-settled fault f p q e = ground (arith, e)
bind-settled spent f p q e = p refl

pub sock_match-settled : (c x n : Noun) → sock_match c x n ≢ spent
unfolding sock_match
sock_match-settled (direct c) x n e = ground (arith, e)
sock_match-settled (indirect l) x n e = ground (arith, e)
sock_match-settled (cell c d) x (direct v) e = ground (arith, e)
sock_match-settled (cell c d) x (indirect l) e = ground (arith, e)
sock_match-settled (cell c d) (direct w) (cell h t) e = ground (arith, e)
sock_match-settled (cell c d) (indirect l) (cell h t) e = ground (arith, e)
sock_match-settled (cell c d) (cell x y) (cell h t) e =
    bind-settled (sock_match c x h) (λ b. if b then sock_match d y t else ok false)
      (sock_match-settled c x h) (λ b. if_settled b (sock_match-settled d y t)) e
  where
    if_settled :
        (b : Bool) → sock_match d y t ≢ spent → (if b then sock_match d y t else ok false) ≢ spent
    if_settled true p e = p e
    if_settled false p e = ground (arith, e)

parse_entry-settled : (n : Noun) → parse_entry n ≢ spent
unfolding parse_entry
parse_entry-settled (direct v) e = ground (arith, e)
parse_entry-settled (indirect l) e = ground (arith, e)
parse_entry-settled (cell l (direct v)) e = ground (arith, e)
parse_entry-settled (cell l (indirect k)) e = ground (arith, e)
parse_entry-settled (cell l (cell c d)) e = ground (arith, e)

pub parse_wilt-settled : (room : ℕ) (n : Noun) → parse_wilt_loop room n ≢ spent
unfolding parse_wilt_loop
parse_wilt-settled zero n e = ground (arith, e)
parse_wilt-settled (suc r) (direct v) e = ground (arith, e)
parse_wilt-settled (suc r) (indirect l) e = ground (arith, e)
parse_wilt-settled (suc r) (cell x rest) e =
    bind-settled (parse_entry x) _ (parse_entry-settled x)
      (λ a.
        bind-settled (parse_wilt_loop r rest) (λ es. ok (a ∷ es)) (parse_wilt-settled r rest)
          (λ es e. ground (arith, e)))
      e

pub Safe-hax : (fuel a : ℕ) (v n : Noun) → Safe fuel (hax a v n)
unfolding hax
Safe-hax fuel a v (direct w) =
    Safe-if fuel (a == 0) (Safe-crash fuel "edit axis 0")
      (Safe-if fuel (a == 1) (Safe-return fuel v) (Safe-crash fuel "edit in atom"))
Safe-hax fuel a v (indirect l) =
    Safe-if fuel (a == 0) (Safe-crash fuel "edit axis 0")
      (Safe-if fuel (a == 1) (Safe-return fuel v) (Safe-crash fuel "edit in atom"))
Safe-hax fuel a v (cell h t) =
    let k : ℕ = depth_loop path_fuel a - 1 in
    Safe-if fuel (a == 0) (Safe-crash fuel "edit axis 0") (
      Safe-if fuel (a == 1) (Safe-return fuel v) (
        Safe-if fuel (bit_at a k)
          (Safe-bind fuel (hax (sub_axis a k) v t) (λ n. nock_alloc_cell h n)
            (Safe-hax fuel (sub_axis a k) v t) (λ n. Safe-alloc fuel h n))
          (Safe-bind fuel (hax (sub_axis a k) v h) (λ n. nock_alloc_cell n t)
            (Safe-hax fuel (sub_axis a k) v h) (λ n. Safe-alloc fuel n t))))
