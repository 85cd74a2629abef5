-- ===== src/Nock/Hot.antt =====
-- `jet_dec` as an entry of the hot state: what it returns, and that it ends.
use trinitite.Base.{
  ℕ, ◌+◌, ◌-◌, ◌<◌, ◌≡◌, ◌≢◌, refl, ap, sym, subst, ◌∙◌, ◌==◌, arith, List, length, ltb, Bool-cases,
  inl, inr,
}
use trinitite.Base.Outcome.{Outcome, ok, spent}
use trinitite.Noun.{Noun, direct, indirect, cell, is_atom}
use trinitite.Noun.Limbs.{value}
use trinitite.Noun.Atom.{IsCanon, IsAtom, IsAtom-IsCanon, val}
use trinitite.Bignum.Scratch.{max_limbs, bn_normalize, Fits}
use trinitite.Bignum.Step.{
  bn_dec, bn_dec-Yields, zeros, dec_scratch, store_limbs-fault, store_limbs-cases,
}
use trinitite.Nock.Meter.{Meter, lift}
use trinitite.Nock.Slot.{slot}
use trinitite.Nock.Jets.{jet_dec, sample}
use trinitite.Nock.Ends.{Safe, Safe-lift, Safe-lift_bind, Safe-crash, Safe-if}
use trinitite.Nock.Ends.Callees.{slot-settled, make_atom-settled}
use trinitite.Nock.Spec.{Tree, atom, pair}
use trinitite.Nock.Sound.Denote.{denote, denote-atom}

-- A gate whose sample is one more than the result.
pub data Decremented : Tree → Tree → Type 0 where
  dec :
      {battery context : Tree} (n m : ℕ)
      → m ≡ n + 1
      → Decremented (pair battery (pair (atom m) context)) (atom n)

bn_dec_too_big : (l : List ℕ) (r : Noun) → max_limbs < length l → bn_dec (indirect l) ≢ ok r
unfolding bn_dec
bn_dec_too_big l r h e =
    let f = store_limbs-fault max_limbs l 0 (omega arith) (omega (arith, h)) in
    elim (Bool-cases (zeros l == length l)) [
      | inl z ↦ ground (arith, rw z at e)
      | inr z ↦ ground (arith, rw (z, f) at e)
    ]

bn_dec_large :
    (l : List ℕ) (r : Noun)
    → IsCanon (indirect l)
    → bn_dec (indirect l) ≡ ok r
    → (n : ℕ) × (value l ≡ n + 1) × IsAtom r × (val r ≡ n)
bn_dec_large l r c e = elim (Bool-cases (ltb max_limbs (length l))) [
  | inl big ↦ absurd (bn_dec_too_big l r (ground (arith, big)) e)
  | inr small ↦
      let fits : Fits (indirect l) = (c.0, c.1, c.2, ground (arith, small)) in
      let one_more : value l ≡ (value l - 1) + 1 = omega (arith, c.2) in
      let y = (bn_dec-Yields (indirect l) fits).0 (value l - 1) one_more in
      let same : y.0 ≡ r = ok-injective (sym y.1 ∙ e) in
      (value l - 1, one_more, subst IsAtom same y.2, subst (λ t. val t ≡ value l - 1) same y.3)
]
  where
    ok-injective : {a b : Noun} → ok a ≡ ok b → a ≡ b
    ok-injective h = cc

-- Wherever `bn_dec` returns, it has taken one, in canonical form.
pub bn_dec-denote :
    (a r : Noun)
    → IsCanon a
    → bn_dec a ≡ ok r
    → (n : ℕ) × (denote a ≡ atom (n + 1)) × (denote r ≡ atom n) × IsCanon r
unfolding bn_dec
bn_dec-denote (direct v) r c e = elim (Bool-cases (v == 0)) [
  | inl z ↦ absurd (ground (arith, rw z at e))
  | inr z ↦
      let same : direct (v - 1) ≡ r = ok-injective (rw z at e) in
      (
        v - 1,
        ap atom (ground (arith, z)),
        ap denote (sym same),
        subst IsCanon same (omega (arith, c)),
      )
]
  where
    ok-injective : {a b : Noun} → ok a ≡ ok b → a ≡ b
    ok-injective h = cc
bn_dec-denote (indirect l) r c e =
    let y = bn_dec_large l r c e in
    (y.0, ap atom y.1, denote-atom r y.2 ∙ ap atom y.3, IsAtom-IsCanon r y.2)
bn_dec-denote (cell x y) r c e = absurd (ground (arith, e))

lift-ok {ℓ} : {A : Type ℓ} {o : Outcome A} {b : A} {m m' : Meter} → lift o m ≡ (ok b, m') → o ≡ ok b
lift-ok e = ap (λ q. q.0) e

-- What `jet_dec` returns for a canonical core is its sample less one.
pub jet_dec-Decremented :
    (core r : Noun) (m m' : Meter)
    → IsCanon core
    → jet_dec core m ≡ (ok r, m')
    → IsCanon r × Decremented (denote core) (denote r)
unfolding jet_dec slot
jet_dec-Decremented (direct v) r m m' c e = absurd (ground (arith, e))
jet_dec-Decremented (indirect l) r m m' c e = absurd (ground (arith, e))
jet_dec-Decremented (cell b (direct v)) r m m' c e = absurd (ground (arith, e))
jet_dec-Decremented (cell b (indirect l)) r m m' c e = absurd (ground (arith, e))
jet_dec-Decremented (cell b (cell n t)) r m m' c e = elim (Bool-cases (is_atom n)) [
  | inl at ↦
      let d = bn_dec-denote n r c.1.0 (lift-ok {m = m} {m' = m'} (rw at at e)) in
      (
        d.3,
        subst (λ x. Decremented (pair (denote b) (pair x (denote t))) (denote r)) (sym d.1)
            (subst (Decremented (pair (denote b) (pair (atom (d.0 + 1)) (denote t)))) (sym d.2)
              (Decremented.dec d.0 (d.0 + 1) refl)),
      )
  | inr a ↦ absurd (ground (arith, rw a at e))
]

bn_dec-settled : (a : Noun) → bn_dec a ≢ spent
unfolding bn_dec bn_normalize
bn_dec-settled (direct v) e = ground (arith, e)
bn_dec-settled (indirect l) e = elim (Bool-cases (zeros l == length l)) [
  | inl z ↦ ground (arith, rw z at e)
  | inr z ↦ elim (store_limbs-cases max_limbs l 0) [
    | inl fits ↦ make_atom-settled (dec_scratch l (zeros l)) (length l) (rw (z, fits) at e)
    | inr big ↦ ground (arith, rw (z, big) at e)
  ]
]
bn_dec-settled (cell x y) e = ground (arith, e)

-- `jet_dec` ends by itself, whatever its core is.
pub jet_dec-Safe : (fuel : ℕ) (core : Noun) → Safe fuel (jet_dec core)
unfolding jet_dec
jet_dec-Safe fuel core = Safe-lift_bind fuel (sample core) _ (slot-settled (direct 6) core) (λ n e.
    Safe-if fuel (is_atom n) (Safe-lift fuel (bn_dec n) (bn_dec-settled n))
      (Safe-crash fuel "jet dec: sample not atom"))
