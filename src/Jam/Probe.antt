-- ===== src/Jam/Probe.antt =====
-- The linear probing that the tables of jam.c share: from the hash on, slot by slot and around the
-- end, up to a slot that is free or holds the key.

use trinitite.Base.{
  ℕ, zero, suc, ◌+◌, ◌%◌, ◌≡◌, ◌≢◌, refl, ap, sym, subst, ◌∙◌, Bool, true, false, Option, some,
  none, arith, Bool-cases, Option-cases, inl, inr, if◌then◌else◌, ◌==◌,
}

-- Where a probe ends: at a slot with the key, at a free one, or nowhere.
pub data Found {ℓ κ} (K : Type ℓ) (V : Type κ) : Type (ℓ ⊔ κ) where
  hit : ℕ → K → V → Found K V
  free : ℕ → Found K V
  full : Found K V

-- A free slot is `none`.
abbrev pub Slots {ℓ κ} : Type ℓ → Type κ → Type (ℓ ⊔ κ)
Slots K V = ℕ → Option (K × V)

module _ {ℓ κ} {K : Type ℓ} {V : Type κ} where
  abbrev pub empty_slots : Slots K V
  empty_slots i = none

  -- Written so that a round is computed only when the one before it goes on.
  unfoldable pub probe : (K → Bool) → Slots K V → ℕ → ℕ → ℕ → ℕ → Found K V
  probe same slots size h i zero = full
  probe same slots size h i (suc left) = elim (slots ((h + i) % size)) [
    | none ↦ free ((h + i) % size)
    | some e ↦ elim (same e.0) [
      | true ↦ hit ((h + i) % size) e.0 e.1
      | false ↦ probe same slots size h (suc i) left
    ]
  ]

  abbrev pub write_slot : Slots K V → ℕ → K × V → Slots K V
  write_slot slots idx e i = if i == idx then some e else slots i

  abbrev pub is_used : Option (K × V) → ℕ
  is_used none = 0
  is_used (some e) = 1

  -- How many of the first `n` slots are used.
  unfoldable pub used_below : Slots K V → ℕ → ℕ
  used_below slots zero = 0
  used_below slots (suc n) = used_below slots n + is_used (slots n)

  -- Every entry of the table satisfies `P`.
  abbrev pub Entries {μ} : (K → V → Type μ) → Slots K V → Type (ℓ ⊔ κ ⊔ μ)
  Entries P slots = (i : ℕ) (k : K) (v : V) → slots i ≡ some (k, v) → P k v

module _ {ℓ κ} {K : Type ℓ} {V : Type κ} (same : K → Bool) (size h : ℕ) where
  step_hit :
      (slots : Slots K V) (i left : ℕ) (k : K) (v : V)
      → slots ((h + i) % size) ≡ some (k, v)
      → same k ≡ true
      → probe same slots size h i (suc left) ≡ hit ((h + i) % size) k v
  unfolding probe
  step_hit slots i left k v e y = rw (e, y, probe) refl

  step_next :
      (slots : Slots K V) (i left : ℕ) (k : K) (v : V)
      → slots ((h + i) % size) ≡ some (k, v)
      → same k ≡ false
      → probe same slots size h i (suc left) ≡ probe same slots size h (suc i) left
  unfolding probe
  step_next slots i left k v e n = rw (e, n, probe) refl

  -- The three ways in which a round can go.
  pub data Round (slots : Slots K V) (i left : ℕ) : Type (ℓ ⊔ κ) where
    round_free :
        slots ((h + i) % size) ≡ none
        → probe same slots size h i (suc left) ≡ free ((h + i) % size)
        → Round slots i left
    round_hit :
        (k : K) (v : V)
        → slots ((h + i) % size) ≡ some (k, v)
        → same k ≡ true
        → probe same slots size h i (suc left) ≡ hit ((h + i) % size) k v
        → Round slots i left
    round_next :
        (k : K) (v : V)
        → slots ((h + i) % size) ≡ some (k, v)
        → same k ≡ false
        → probe same slots size h i (suc left) ≡ probe same slots size h (suc i) left
        → Round slots i left

  pub round : (slots : Slots K V) (i left : ℕ) → Round slots i left
  unfolding probe
  round slots i left = elim (Option-cases (slots ((h + i) % size))) [
    | inl e ↦ round_free e (rw (e, probe) refl)
    | inr (x, e) ↦ elim (Bool-cases (same x.0)) [
      | inl y ↦ round_hit x.0 x.1 e y (step_hit slots i left x.0 x.1 e y)
      | inr n ↦ round_next x.0 x.1 e n (step_next slots i left x.0 x.1 e n)
    ]
  ]

  -- What a probe that ends so says about the table.
  abbrev pub Ends : Slots K V → Found K V → Type (ℓ ⊔ κ)
  Ends slots (hit idx k v) = (slots idx ≡ some (k, v)) × (same k ≡ true)
  Ends slots (free idx) = slots idx ≡ none
  Ends slots full = Unit

  pub probe-Ends : (slots : Slots K V) (i left : ℕ) → Ends slots (probe same slots size h i left)
  unfolding probe
  probe-Ends slots i zero = tt
  probe-Ends slots i (suc left) = elim (round slots i left) [
    | round_free e f ↦ subst (Ends slots) (sym f) e
    | round_hit k v e y f ↦ subst (Ends slots) (sym f) (e, y)
    | round_next k v e n f ↦ subst (Ends slots) (sym f) (probe-Ends slots (suc i) left)
  ]

  -- The slot that a put writes after such an end.
  abbrev pub Lands : Found K V → ℕ → Type 0
  Lands (hit i k v) idx = i ≡ idx
  Lands (free i) idx = i ≡ idx
  Lands full idx = ⊥

  -- A slot with another key is not the one.
  other_slot :
      (slots : Slots K V) (f : Found K V) (idx : ℕ) (k : K) (v : V)
      → Ends slots f
      → Lands f idx
      → same k ≡ false
      → slots idx ≢ some (k, v)
  other_slot slots (hit i k' v') idx k v d l n e =
      let found : ◌≡◌ {A = Option (K × V)} (some (k', v')) (some (k, v)) =
        sym d.0 ∙ ap slots l ∙ e in
      let one : k' ≡ k = cc in absurd (ground (arith, sym d.1 ∙ ap same one ∙ n))
  other_slot slots (free i) idx k v d l n e = absurd (ground (arith, sym d ∙ ap slots l ∙ e))
  other_slot slots full idx k v d l n e = absurd l

  pub write_self :
      (slots : Slots K V) (idx m : ℕ) (e : K × V) → m ≡ idx → write_slot slots idx e m ≡ some e
  write_self slots idx m e p = ground (arith, p)

  pub write_other :
      (slots : Slots K V) (idx m : ℕ) (e : K × V) → m ≢ idx → write_slot slots idx e m ≡ slots m
  write_other slots idx m e p = ground (arith, p)

  -- The key that is put is found where it was put.
  pub probe-put :
      (slots : Slots K V) (idx : ℕ) (k : K) (v : V) (i left : ℕ)
      → same k ≡ true
      → Lands (probe same slots size h i left) idx
      → probe same (write_slot slots idx (k, v)) size h i left ≡ hit idx k v
  unfolding probe
  probe-put slots idx k v i zero y l = absurd l
  probe-put slots idx k v i (suc left) y l =
      let m = (h + i) % size in
      let slots' = write_slot slots idx (k, v) in
      elim (round slots i left) [
        | round_free e f ↦
            let at : m ≡ idx = subst (λ f. Lands f idx) f l in
            step_hit slots' i left k v (write_self slots idx m (k, v) at) y
            ∙ ap (λ (t : ℕ). hit t k v) at
        | round_hit k' v' e y' f ↦
            let at : m ≡ idx = subst (λ f. Lands f idx) f l in
            step_hit slots' i left k v (write_self slots idx m (k, v) at) y
            ∙ ap (λ (t : ℕ). hit t k v) at
        | round_next k' v' e n f ↦
            let l' : Lands (probe same slots size h (suc i) left) idx =
              subst (λ f. Lands f idx) f l in
            let apart : m ≢ idx = λ p.
              other_slot slots (probe same slots size h (suc i) left) idx k' v'
                (probe-Ends slots (suc i) left) l' n (ap slots (sym p) ∙ e) in
            step_next slots' i left k' v' (write_other slots idx m (k, v) apart ∙ e) n
            ∙ probe-put slots idx k v (suc i) left y l'
      ]

  -- Another key is found where it was.
  pub probe-other :
      (slots : Slots K V) (idx : ℕ) (k : K) (v : V) (i left j : ℕ) (q : K) (w : V)
      → same k ≡ false
      → ((k' : K) (v' : V) → slots idx ≡ some (k', v') → same k' ≡ false)
      → probe same slots size h i left ≡ hit j q w
      → probe same (write_slot slots idx (k, v)) size h i left ≡ hit j q w
  unfolding probe
  probe-other slots idx k v i zero j q w n o e = absurd (ground (arith, e))
  probe-other slots idx k v i (suc left) j q w n o e =
      let m = (h + i) % size in
      let slots' = write_slot slots idx (k, v) in
      elim (round slots i left) [
        | round_free e' f ↦ absurd (ground (arith, sym f ∙ e))
        | round_hit k' v' e' y f ↦
            let apart : m ≢ idx =
              λ p. absurd (ground (arith, y, o k' v' (ap slots (sym p) ∙ e'))) in
            step_hit slots' i left k' v' (write_other slots idx m (k, v) apart ∙ e') y ∙ sym f ∙ e
        | round_next k' v' e' n' f ↦
            let rest = probe-other slots idx k v (suc i) left j q w n o (sym f ∙ e) in
            elim (Bool-cases (m == idx)) [
              | inl p ↦
                  step_next slots' i left k v (write_self slots idx m (k, v) (ground (arith, p))) n
                  ∙ rest
              | inr p ↦
                  step_next slots' i left k' v'
                    (write_other slots idx m (k, v) (ground (arith, p)) ∙ e') n'
                  ∙ rest
            ]
      ]
