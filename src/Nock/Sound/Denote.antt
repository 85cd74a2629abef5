-- ===== src/Nock/Sound/Denote.antt =====
-- The tree that a noun stands for, and the canonical form that makes it the only one.
use trinitite.Base.{ℕ, ◌+◌, ◌≡◌, ◌↔◌, refl, ap, ap₂, subst, sym, ◌∙◌, arith, true}
use trinitite.Base.Outcome.{ok}
use trinitite.Noun.{Noun, direct, indirect, cell, contents_eq}
use trinitite.Noun.Limbs.{value, value_injective}
use trinitite.Noun.Atom.{IsCanon, IsAtom, IsAtom-IsCanon, val, contents_eq_iff}
use trinitite.Bignum.Step.{bn_inc, bn_inc-Yields, bn_inc_large}
use trinitite.Nock.Spec.{Tree, atom, pair}

abbrev pub denote : Noun → Tree
denote (direct v) = atom v
denote (indirect l) = atom (value l)
denote (cell h t) = pair (denote h) (denote t)

pub denote_injective : (a b : Noun) → IsCanon a → IsCanon b → denote a ≡ denote b → a ≡ b
denote_injective (direct a) (direct b) ca cb e = cc
denote_injective (direct a) (indirect k) ca cb e =
    absurd (omega (arith, ca, cb.2, atom-injective e))
  where
    atom-injective : {m n : ℕ} → atom m ≡ atom n → m ≡ n
    atom-injective h = cc
denote_injective (direct a) (cell h t) ca cb e = absurd cc
denote_injective (indirect l) (direct b) ca cb e =
    absurd (omega (arith, cb, ca.2, atom-injective e))
  where
    atom-injective : {m n : ℕ} → atom m ≡ atom n → m ≡ n
    atom-injective h = cc
denote_injective (indirect l) (indirect k) ca cb e =
    ap indirect (value_injective l k ca.0 cb.0 ca.1 cb.1 (cc))
denote_injective (indirect l) (cell h t) ca cb e = absurd cc
denote_injective (cell h t) (direct b) ca cb e = absurd cc
denote_injective (cell h t) (indirect k) ca cb e = absurd cc
denote_injective (cell h t) (cell h' t') ca cb e =
    ap₂ cell (denote_injective h h' ca.0 cb.0 (cc)) (denote_injective t t' ca.1 cb.1 (cc))

pub denote-atom : (n : Noun) → IsAtom n → denote n ≡ atom (val n)
denote-atom (direct v) h = refl
denote-atom (indirect l) h = refl
denote-atom (cell x y) h = absurd h

-- On canonical nouns `contents_eq` decides whether they are one tree.
pub contents_eq-denote :
    (a b : Noun) → IsCanon a → IsCanon b → (contents_eq a b ≡ true) ↔ (denote a ≡ denote b)
contents_eq-denote a b ca cb = (
  λ e. ap denote ((contents_eq_iff a b).0 e),
  λ e. (contents_eq_iff a b).1 (denote_injective a b ca cb e),
)

-- Wherever `bn_inc` returns, it has added one, in canonical form, above 64 limbs too.
pub bn_inc-denote :
    (a r : Noun)
    → IsCanon a
    → bn_inc a ≡ ok r
    → (n : ℕ) × (denote a ≡ atom n) × (denote r ≡ atom (n + 1)) × IsCanon r
bn_inc-denote (direct v) r ca e =
    let y = bn_inc-Yields (direct v) ca in
    let same : y.0 ≡ r = ok-injective (sym y.1 ∙ e) in
    (
      v,
      refl,
      subst (λ t. denote t ≡ atom (v + 1)) same (denote-atom y.0 y.2 ∙ ap atom y.3),
      subst IsCanon same (IsAtom-IsCanon y.0 y.2),
    )
  where
    ok-injective : {a b : Noun} → ok a ≡ ok b → a ≡ b
    ok-injective h = cc
bn_inc-denote (indirect l) r ca e =
    let y = bn_inc_large l r ca e in
    (value l, refl, denote-atom r y.0 ∙ ap atom y.1, IsAtom-IsCanon r y.0)
bn_inc-denote (cell x y) r ca e = absurd (unfold bn_inc in ground arith)
