-- ===== src/Jam/Count.antt =====
-- A table of jam.c with a free slot is not full: its used slots are counted.
use native.Mathlib.Nat.{mod-eq_of_lt, add-mul-mod_self_right}
use trinitite.Base.{
  ℕ, zero, suc, ◌+◌, ◌-◌, ◌*◌, ◌%◌, ◌≤◌, ◌<◌, ◌≡◌, ◌≢◌, refl, ap, ap₂, sym, ◌∙◌, Bool, arith,
  Bool-cases, ltb, inl, inr, ◌==◌,
}
use trinitite.Jam.Probe.{
  full, Slots, probe, write_slot, is_used, used_below, round, round_free, round_hit, round_next,
  write_self, write_other,
}

-- A round over all slots comes by each of them.
reach : (size h m : ℕ) → h < size → m < size → (j : ℕ) × (j < size) × ((h + j) % size ≡ m)
reach size h m p q = elim (Bool-cases (ltb m h)) [
  | inl y ↦ (
    m + size - h,
    ground (arith, y, p),
    ap (λ (t : ℕ). t % size) {x = h + (m + size - h)} {y = m + 1 * size} (ground (arith, y, p))
        ∙ add-mul-mod_self_right m 1 size
        ∙ mod-eq_of_lt q,
  )
  | inr n ↦ (
    m - h,
    ground (arith, n, q),
    ap (λ (t : ℕ). t % size) {x = h + (m - h)} {y = m} (ground (arith, n)) ∙ mod-eq_of_lt q,
  )
]

module _ {ℓ κ} {K : Type ℓ} {V : Type κ} (same : K → Bool) (size h : ℕ) where
  -- A probe that ends nowhere saw used slots only.
  probe-full :
      (slots : Slots K V) (i left j : ℕ)
      → probe same slots size h i left ≡ full
      → i ≤ j
      → j < i + left
      → is_used (slots ((h + j) % size)) ≡ 1
  unfolding probe
  probe-full slots i zero j e p q = absurd (omega (arith, p, q))
  probe-full slots i (suc left) j e p q = elim (round same size h slots i left) [
    | round_free e' f ↦ absurd (ground (arith, sym f ∙ e))
    | round_hit k v e' y f ↦ absurd (ground (arith, sym f ∙ e))
    | round_next k v e' n f ↦ elim (Bool-cases (i == j)) [
      | inl y ↦ ap (λ (t : ℕ). is_used (slots ((h + t) % size))) (ground (arith, y)) ∙ ap is_used e'
      | inr d ↦
          probe-full slots (suc i) left j (sym f ∙ e) (ground (arith, d, p)) (omega (arith, q))
    ]
  ]

  used_below-all :
      (slots : Slots K V) (n : ℕ)
      → ((m : ℕ) → m < n → is_used (slots m) ≡ 1)
      → used_below slots n ≡ n
  unfolding used_below
  used_below-all slots zero u = refl
  used_below-all slots (suc n) u =
      omega (arith, used_below-all slots n (λ m p. u m (omega (arith, p))), u n (omega arith))

  -- A table with a free slot is not full.
  pub probe-ends :
      (slots : Slots K V)
      → h < size
      → used_below slots size < size
      → probe same slots size h 0 size ≢ full
  probe-ends slots p c e = absurd (
      omega (
        arith,
        c,
        used_below-all slots size (λ m q.
            let r = reach size h m p q in
            ap (λ (t : ℕ). is_used (slots t)) (sym r.2)
            ∙ probe-full slots 0 size r.0 e (omega arith) (omega (arith, r.1))),
      ))

  used_below-write_above :
      (slots : Slots K V) (idx n : ℕ) (e : K × V)
      → n ≤ idx
      → used_below (write_slot slots idx e) n ≡ used_below slots n
  unfolding used_below
  used_below-write_above slots idx zero e p = refl
  used_below-write_above slots idx (suc n) e p =
      ap₂ ◌+◌ (used_below-write_above slots idx n e (omega (arith, p)))
        (ap is_used (write_other same size h slots idx n e (λ q. omega (arith, p, q))))

  -- One write uses at most one more slot.
  pub used_below-write :
      (slots : Slots K V) (idx n : ℕ) (e : K × V)
      → used_below (write_slot slots idx e) n ≤ suc (used_below slots n)
  unfolding used_below
  used_below-write slots idx zero e = omega arith
  used_below-write slots idx (suc n) e = elim (Bool-cases (n == idx)) [
    | inl y ↦ omega (
      arith,
      used_below-write_above slots idx n e (ground (arith, y)),
      ap is_used (write_self same size h slots idx n e (ground (arith, y))),
    )
    | inr d ↦ omega (
      arith,
      used_below-write slots idx n e,
      ap is_used (write_other same size h slots idx n e (ground (arith, d))),
    )
  ]
