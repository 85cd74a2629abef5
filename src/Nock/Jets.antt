-- ===== src/Nock/Jets.antt =====
-- The jets of nock.c: what a gate does in C in place of its formula. The sample of a gate is at axis
-- 6 of its core, and the two of a pair at 12 and 13.
use trinitite.Base.{
  ℕ, suc, ◌+◌, ◌*◌, ◌≤◌, ◌≡◌, refl, ap, ap₂, ◌∙◌, Bool, true, false, ◌&&◌, List, [], ◌∷◌, length,
  String, Ordering, ltb, ltb_of_le, if◌then◌else◌, arith,
}
use trinitite.Base.Outcome.{Outcome, ok, crash}
use trinitite.Noun.{Noun, direct, indirect, cell, is_atom, yes_noun, no_noun, contents_eq}
use trinitite.Bignum.Step.{bn_dec}
use trinitite.Bignum.Compare.{bn_cmp}
use trinitite.Bignum.Add.{bn_add}
use trinitite.Bignum.Sub.{bn_sub}
use trinitite.Bignum.Mul.{bn_mul}
use trinitite.Bignum.Bitwise.{bn_or, bn_and, bn_xor}
use trinitite.Bignum.Shift.{bn_lsh}
use trinitite.Nock.Meter.{Meter, Run, return, nock_crash, lift, continue, ◌>>=◌, nock_alloc_cell}
use trinitite.Nock.Slot.{slot}

abbrev pub sample : Noun → Outcome Noun
sample core = slot (direct 6) core

abbrev pub first : Noun → Outcome Noun
first core = slot (direct 12) core

abbrev pub second : Noun → Outcome Noun
second core = slot (direct 13) core

-- A jet on two atoms.
unfoldable pub on_atoms : String → (Noun → Noun → Outcome Noun) → Noun → Run Noun
unfolding slot
on_atoms who op core = lift (first core) >>= λ a.
    lift (second core) >>= λ b. if is_atom a && is_atom b then lift (op a b) else nock_crash who

unfoldable pub jet_dec : Noun → Run Noun
unfolding slot bn_dec
jet_dec core = lift (sample core) >>= λ n.
    if is_atom n then lift (bn_dec n) else nock_crash "jet dec: sample not atom"

unfoldable pub jet_add : Noun → Run Noun
unfolding on_atoms bn_add
jet_add core = on_atoms "jet add: non-atom args" bn_add core

unfoldable pub jet_sub : Noun → Run Noun
unfolding on_atoms bn_sub
jet_sub core = on_atoms "jet sub: non-atom args" bn_sub core

unfoldable pub jet_mul : Noun → Run Noun
unfolding on_atoms bn_mul
jet_mul core = on_atoms "jet mul: non-atom args" bn_mul core

unfoldable pub jet_con : Noun → Run Noun
unfolding on_atoms bn_or
jet_con core = on_atoms "jet con: non-atom" bn_or core

unfoldable pub jet_dis : Noun → Run Noun
unfolding on_atoms bn_and
jet_dis core = on_atoms "jet dis: non-atom" bn_and core

unfoldable pub jet_mix : Noun → Run Noun
unfolding on_atoms bn_xor
jet_mix core = on_atoms "jet mix: non-atom" bn_xor core

abbrev pub loobean_of : Bool → Noun
loobean_of b = if b then yes_noun else no_noun

unfoldable pub jet_eq : Noun → Run Noun
unfolding slot contents_eq
jet_eq core =
    lift (first core) >>= λ a. lift (second core) >>= λ b. return (loobean_of (contents_eq a b))

-- A shift count or an axis: an atom of one limb.
unfoldable pub jet_atom_u64 : Noun → String → Outcome ℕ
jet_atom_u64 (direct v) who = ok v
jet_atom_u64 (indirect []) who = ok 0
jet_atom_u64 (indirect (x ∷ [])) who = ok x
jet_atom_u64 (indirect (x ∷ (y ∷ l))) who = crash who
jet_atom_u64 (cell h t) who = crash who

unfoldable pub jet_lsh : Noun → Run Noun
unfolding slot bn_lsh jet_atom_u64
jet_lsh core = lift (first core) >>= λ k. lift (second core) >>= λ a.
    if is_atom a
    then (lift (jet_atom_u64 k "jet lsh: bad shift") >>= λ n. lift (bn_lsh a n))
    else nock_crash "jet lsh: non-atom"

-- A jet on how two atoms compare.
unfoldable pub on_order : (Ordering → Bool) → Noun → Run Noun
unfolding slot bn_cmp
on_order test core = lift (first core) >>= λ a.
    lift (second core) >>= λ b. lift (bn_cmp a b) >>= λ o. return (loobean_of (test o))

unfoldable pub jet_lth : Noun → Run Noun
unfolding on_order
jet_lth core = on_order (λ o. elim o [ Ordering.lt ↦ true | _ ↦ false ]) core

unfoldable pub jet_gth : Noun → Run Noun
unfolding on_order
jet_gth core = on_order (λ o. elim o [ Ordering.gt ↦ true | _ ↦ false ]) core

unfoldable pub jet_lte : Noun → Run Noun
unfolding on_order
jet_lte core = on_order (λ o. elim o [ Ordering.gt ↦ false | _ ↦ true ]) core

unfoldable pub jet_gte : Noun → Run Noun
unfolding on_order
jet_gte core = on_order (λ o. elim o [ Ordering.lt ↦ false | _ ↦ true ]) core

-- The loop that turns a list around onto `acc`, after `n` elements.
unfoldable pub reverse_loop : String → Noun → ℕ → Noun → Run Noun
unfolding nock_alloc_cell
reverse_loop who (direct v) n acc = return acc
reverse_loop who (indirect l) n acc = return acc
reverse_loop who (cell h t) n acc =
    if ltb 1000000 (suc n)
    then nock_crash who
    else nock_alloc_cell h acc >>= λ acc'. reverse_loop who t (suc n) acc'

-- The second loop of `jet_weld`, which has no bound of its own.
unfoldable pub onto_loop : Noun → Noun → Run Noun
unfolding nock_alloc_cell
onto_loop (direct v) out = return out
onto_loop (indirect l) out = return out
onto_loop (cell h t) out = nock_alloc_cell h out >>= λ out'. onto_loop t out'

unfoldable pub lent_loop : Noun → ℕ → Run Noun
lent_loop (direct v) n = return (direct n)
lent_loop (indirect l) n = return (direct n)
lent_loop (cell h t) n =
    if ltb 1000000 (suc n) then nock_crash "jet lent: list too long" else lent_loop t (suc n)

unfoldable pub jet_lent : Noun → Run Noun
unfolding slot lent_loop
jet_lent core = lift (sample core) >>= λ list. lent_loop list 0

unfoldable pub jet_flop : Noun → Run Noun
unfolding slot reverse_loop
jet_flop core =
    lift (sample core) >>= λ list. reverse_loop "jet flop: list too long" list 0 (direct 0)

unfoldable pub weld : Noun → Noun → Run Noun
unfolding reverse_loop onto_loop
weld a b = reverse_loop "jet weld: list too long" a 0 (direct 0) >>= λ rev. onto_loop rev b

unfoldable pub jet_weld : Noun → Run Noun
unfolding slot weld
jet_weld core = lift (first core) >>= λ a. lift (second core) >>= λ b. weld a b

-- The elements of a list noun, whatever atom it ends with.
abbrev pub items : Noun → List Noun
items (direct v) = []
items (indirect l) = []
items (cell h t) = h ∷ items t

-- The elements in front of a noun, and turned around in front of it.
abbrev pub onto : List Noun → Noun → Noun
onto [] b = b
onto (x ∷ xs) b = cell x (onto xs b)

abbrev pub reversed_onto : List Noun → Noun → Noun
reversed_onto [] acc = acc
reversed_onto (x ∷ xs) acc = reversed_onto xs (cell x acc)

-- The counters after `n` more cells.
abbrev pub after_cells : ℕ → Meter → Meter
after_cells n m = record m { cells_used = m.cells_used + n }

alloc-unlimited :
    (h t : Noun) (m : Meter)
    → m.cell_budget_max ≡ 0
    → nock_alloc_cell h t m ≡ (ok (cell h t), after_cells 1 m)
unfolding nock_alloc_cell
alloc-unlimited h t m e = ground (arith, e)

cells_add : (k n : ℕ) (m : Meter) → after_cells n (after_cells k m) ≡ after_cells (k + n) m
cells_add k n m = ap (λ (t : ℕ). record m { cells_used = t }) (omega arith)

cells_none : (m : Meter) → m ≡ after_cells 0 m
cells_none m = ap (λ (t : ℕ). record m { cells_used = t }) {x = m.cells_used} (omega arith)

-- With no limit on cells a list within the bound is turned around, for one cell an element.
reverse_loop-eq :
    (who : String) (list : Noun) (n : ℕ) (acc : Noun) (m : Meter)
    → m.cell_budget_max ≡ 0
    → n + length (items list) ≤ 1000000
    → reverse_loop who list n acc m
      ≡ (ok (reversed_onto (items list) acc), after_cells (length (items list)) m)
unfolding reverse_loop
reverse_loop-eq who (direct v) n acc m e h = ap (λ m. (ok acc, m)) (cells_none m)
reverse_loop-eq who (indirect l) n acc m e h = ap (λ m. (ok acc, m)) (cells_none m)
reverse_loop-eq who (cell x t) n acc m e h =
    rw (ltb_of_le 1000000 (suc n) (omega (arith, h)), alloc-unlimited x acc m e)
      (reverse_loop-eq who t (suc n) (cell x acc) (after_cells 1 m) e (omega (arith, h))
        ∙ ap (λ m. (ok (reversed_onto (items t) (cell x acc)), m))
            (cells_add 1 (length (items t)) m ∙ ap (λ (k : ℕ). after_cells k m) (omega arith)))

onto_loop-eq :
    (list out : Noun) (m : Meter)
    → m.cell_budget_max ≡ 0
    → onto_loop list out m
      ≡ (ok (reversed_onto (items list) out), after_cells (length (items list)) m)
unfolding onto_loop
onto_loop-eq (direct v) out m e = ap (λ m. (ok out, m)) (cells_none m)
onto_loop-eq (indirect l) out m e = ap (λ m. (ok out, m)) (cells_none m)
onto_loop-eq (cell x t) out m e = rw (alloc-unlimited x out m e) (
    onto_loop-eq t (cell x out) (after_cells 1 m) e
    ∙ ap (λ m. (ok (reversed_onto (items t) (cell x out)), m))
        (cells_add 1 (length (items t)) m ∙ ap (λ (k : ℕ). after_cells k m) (omega arith)))

-- Turned around twice, a list is in front as it was.
reversed_twice :
    (xs : List Noun) (acc out : Noun)
    → reversed_onto (items (reversed_onto xs acc)) out ≡ reversed_onto (items acc) (onto xs out)
reversed_twice [] acc out = refl
reversed_twice (x ∷ xs) acc out = reversed_twice xs (cell x acc) out

length-reversed_onto :
    (xs : List Noun) (acc : Noun)
    → length (items (reversed_onto xs acc)) ≡ length xs + length (items acc)
length-reversed_onto [] acc = omega arith
length-reversed_onto (x ∷ xs) acc = omega (arith, length-reversed_onto xs (cell x acc))

weld-eq :
    (a b : Noun) (m : Meter)
    → m.cell_budget_max ≡ 0
    → length (items a) ≤ 1000000
    → weld a b m ≡ (ok (onto (items a) b), after_cells (2 * length (items a)) m)
unfolding weld
weld-eq a b m e h =
    let n = length (items a) in
    let rev = reversed_onto (items a) (direct 0) in
    ap (λ r. continue r.0 (λ rev. onto_loop rev b) r.1)
      (reverse_loop-eq "jet weld: list too long" a 0 (direct 0) m e (omega (arith, h)))
    ∙ onto_loop-eq rev b (after_cells n m) e
    ∙ ap₂ (λ x m. (ok x, m)) (reversed_twice (items a) (direct 0) b)
        (cells_add n (length (items rev)) m
          ∙ ap (λ (k : ℕ). after_cells k m)
              (omega (arith, length-reversed_onto (items a) (direct 0))))

-- With no limit on cells, and at most a million elements in the first list, `jet_weld` returns the
-- elements of the first list in front of the second, and counts two cells for each of them.
pub jet_weld-eq :
    (core a b : Noun) (m : Meter)
    → first core ≡ ok a
    → second core ≡ ok b
    → m.cell_budget_max ≡ 0
    → length (items a) ≤ 1000000
    → jet_weld core m ≡ (ok (onto (items a) b), after_cells (2 * length (items a)) m)
unfolding jet_weld
jet_weld-eq core a b m p q e h =
    ap (λ o. (lift o >>= λ a. lift (second core) >>= λ b. weld a b) m) p
    ∙ ap (λ o. (lift o >>= λ b. weld a b) m) q
    ∙ weld-eq a b m e h

-- With no limit on cells, and at most a million elements, `jet_flop` returns the elements of the list
-- in reverse, and counts a cell for each of them.
pub jet_flop-eq :
    (core list : Noun) (m : Meter)
    → sample core ≡ ok list
    → m.cell_budget_max ≡ 0
    → length (items list) ≤ 1000000
    → jet_flop core m
      ≡ (ok (reversed_onto (items list) (direct 0)), after_cells (length (items list)) m)
unfolding jet_flop
jet_flop-eq core list m p e h =
    ap (λ o. (lift o >>= λ list. reverse_loop "jet flop: list too long" list 0 (direct 0)) m) p
    ∙ reverse_loop-eq "jet flop: list too long" list 0 (direct 0) m e (omega (arith, h))
