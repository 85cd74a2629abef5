-- ===== src/Nock/Spec.antt =====
-- Nock 4K on plain trees, as its definition states it: the operators `/` and `#` and the reductions
-- of the formulas 0 to 11. Nothing here knows of words, limbs or budgets.
use trinitite.Base.{ℕ, ◌+◌, ◌*◌, ◌≡◌, ◌≢◌}

pub data Tree : Type 0 where
  atom : ℕ → Tree
  pair : Tree → Tree → Tree

-- `/[axis tree]`
pub data Axis : ℕ → Tree → Tree → Type 0 where
  root : {t : Tree} → Axis 1 t t
  left : {t h k : Tree} (a b : ℕ) → b ≡ 2 * a → Axis a t (pair h k) → Axis b t h
  right : {t h k : Tree} (a b : ℕ) → b ≡ 2 * a + 1 → Axis a t (pair h k) → Axis b t k

-- `#[axis value tree]`
pub data Edit : ℕ → Tree → Tree → Tree → Type 0 where
  whole : {v t : Tree} → Edit 1 v t v
  left :
      {v t x r : Tree} (a b : ℕ)
      → b ≡ 2 * a
      → Axis (2 * a + 1) t x
      → Edit a (pair v x) t r
      → Edit b v t r
  right :
      {v t x r : Tree} (a b : ℕ)
      → b ≡ 2 * a + 1
      → Axis (2 * a) t x
      → Edit a (pair x v) t r
      → Edit b v t r

-- `*[subject formula]`; yes is 0 and no is 1. A call of a gate or core may also be answered by `Jet`, a relation
-- of cores and results: with one that relates nothing, this is Nock 4K.
pub data Reduces (Jet : Tree → Tree → Type 0) : Tree → Tree → Tree → Type 0 where
  distribute :
      {s b c d x y : Tree}
      → Reduces Jet s (pair b c) x
      → Reduces Jet s d y
      → Reduces Jet s (pair (pair b c) d) (pair x y)
  slot : {s r : Tree} (op a : ℕ) → op ≡ 0 → Axis a s r → Reduces Jet s (pair (atom op) (atom a)) r
  quote : {s b : Tree} (op : ℕ) → op ≡ 1 → Reduces Jet s (pair (atom op) b) b
  compose :
      {s b c x y r : Tree} (op : ℕ)
      → op ≡ 2
      → Reduces Jet s b x
      → Reduces Jet s c y
      → Reduces Jet x y r
      → Reduces Jet s (pair (atom op) (pair b c)) r
  wut_cell :
      {s b x y : Tree} (op : ℕ)
      → op ≡ 3
      → Reduces Jet s b (pair x y)
      → Reduces Jet s (pair (atom op) b) (atom 0)
  wut_atom :
      {s b : Tree} (op n : ℕ)
      → op ≡ 3
      → Reduces Jet s b (atom n)
      → Reduces Jet s (pair (atom op) b) (atom 1)
  lus :
      {s b : Tree} (op n n' : ℕ)
      → op ≡ 4
      → n' ≡ n + 1
      → Reduces Jet s b (atom n)
      → Reduces Jet s (pair (atom op) b) (atom n')
  tis_same :
      {s b c x : Tree} (op : ℕ)
      → op ≡ 5
      → Reduces Jet s b x
      → Reduces Jet s c x
      → Reduces Jet s (pair (atom op) (pair b c)) (atom 0)
  tis_other :
      {s b c x y : Tree} (op : ℕ)
      → op ≡ 5
      → Reduces Jet s b x
      → Reduces Jet s c y
      → x ≢ y
      → Reduces Jet s (pair (atom op) (pair b c)) (atom 1)
  if_yes :
      {s b c d r : Tree} (op : ℕ)
      → op ≡ 6
      → Reduces Jet s b (atom 0)
      → Reduces Jet s c r
      → Reduces Jet s (pair (atom op) (pair b (pair c d))) r
  if_no :
      {s b c d r : Tree} (op : ℕ)
      → op ≡ 6
      → Reduces Jet s b (atom 1)
      → Reduces Jet s d r
      → Reduces Jet s (pair (atom op) (pair b (pair c d))) r
  then :
      {s b c x r : Tree} (op : ℕ)
      → op ≡ 7
      → Reduces Jet s b x
      → Reduces Jet x c r
      → Reduces Jet s (pair (atom op) (pair b c)) r
  pin :
      {s b c x r : Tree} (op : ℕ)
      → op ≡ 8
      → Reduces Jet s b x
      → Reduces Jet (pair x s) c r
      → Reduces Jet s (pair (atom op) (pair b c)) r
  arm :
      {s c core f r : Tree} (op b : ℕ)
      → op ≡ 9
      → Reduces Jet s c core
      → Axis b core f
      → Reduces Jet core f r
      → Reduces Jet s (pair (atom op) (pair (atom b) c)) r
  -- a call that is answered in place of its arm
  jetted :
      {s c core f r : Tree} (op b : ℕ)
      → op ≡ 9
      → Reduces Jet s c core
      → Axis b core f
      → Jet core r
      → Reduces Jet s (pair (atom op) (pair (atom b) c)) r
  edit :
      {s c d v t r : Tree} (op b : ℕ)
      → op ≡ 10
      → Reduces Jet s c v
      → Reduces Jet s d t
      → Edit b v t r
      → Reduces Jet s (pair (atom op) (pair (pair (atom b) c) d)) r
  hint :
      {s d r : Tree} (op b : ℕ)
      → op ≡ 11
      → Reduces Jet s d r
      → Reduces Jet s (pair (atom op) (pair (atom b) d)) r
  dynamic_hint :
      {s b c d x r : Tree} (op : ℕ)
      → op ≡ 11
      → Reduces Jet s c x
      → Reduces Jet s d r
      → Reduces Jet s (pair (atom op) (pair (pair b c) d)) r
