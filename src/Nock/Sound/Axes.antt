-- ===== src/Nock/Sound/Axes.antt =====
-- `slot` and `hax` against the operators `/` and `#` of Nock.
use trinitite.Base.{
  ℕ, zero, suc, ◌+◌, ◌*◌, ◌/◌, ◌%◌, ◌^◌, ◌≤◌, ◌<◌, ◌≡◌, refl, ap, ap₂, subst, sym, ◌∙◌, List, [],
  ◌∷◌, ◌++◌, arith, Bool, true, false, ◌==◌, if◌then◌else◌, Bool-cases, inl, inr,
}
use trinitite.Base.Outcome.{ok, >>=-eq-ok}
use trinitite.Noun.{Noun, direct, indirect, cell}
use trinitite.Noun.Atom.{IsCanon}
use trinitite.Nock.Meter.{Meter, Run, bind-ok, nock_alloc_cell}
use trinitite.Nock.Slot.{
  slot, walk, depth_loop, path_fuel, bit_at, child, slot-double, slot-equations, depth_double,
  bit_at-double, bit_at-zero,
}
use trinitite.Nock.Edit.{hax, put, path, along, replace, axis_path, put-ok, slot-along, hax-put}
use trinitite.Nock.Spec.{Tree, atom, Axis, Edit}
use trinitite.Nock.Sound.Denote.{denote}

-- An axis above the root is twice a smaller one, and a bit.
halves : (a : ℕ) → 2 ≤ a → (c : ℕ) × (b : ℕ) × (a ≡ 2 * c + b) × (b < 2) × (0 < c) × (c < a)
halves a h = (a / 2, a % 2, omega arith, omega arith, omega arith, omega arith)

child-Axis :
    (c b : ℕ) (x r : Noun) {t : Tree}
    → b < 2
    → child (b == 1) x ≡ ok r
    → Axis c t (denote x)
    → Axis (2 * c + b) t (denote r)
child-Axis c b (direct v) r hb e ax = absurd (ground arith)
child-Axis c b (indirect l) r hb e ax = absurd (ground arith)
child-Axis c b (cell h k) r {t} hb e ax = side (b == 1) refl e
  where
    side : (z : Bool) → (b == 1) ≡ z → child z (cell h k) ≡ ok r → Axis (2 * c + b) t (denote r)
    side true bz e =
        subst (λ n. Axis (2 * c + b) t (denote n)) (cc) (Axis.right c (2 * c + b) (ground arith) ax)
    side false bz e =
        subst (λ n. Axis (2 * c + b) t (denote n)) (cc) (Axis.left c (2 * c + b) (ground arith) ax)

pub ok-injective {ℓ} : {A : Type ℓ} {a b : A} → ok a ≡ ok b → a ≡ b
ok-injective h = cc

slot-one : (n : Noun) → slot (direct 1) n ≡ ok n
slot-one n = (slot-equations 1 n (omega arith) (omega arith)).1

-- The claim of `slot-Axis` at one axis.
abbrev Finds : ℕ → Noun → Type 0
Finds a n = (r : Noun) → slot (direct a) n ≡ ok r → Axis a (denote n) (denote r)

slot-Axis_double :
    (c b : ℕ) (n : Noun) → b < 2 → 0 < c → 2 * c + b < 2 ^ 63 → Finds c n → Finds (2 * c + b) n
slot-Axis_double c b n hb pc h ih r e =
    let s = >>=-eq-ok (slot (direct c) n) (child (b == 1)) (sym (slot-double c b n pc hb h) ∙ e) in
    child-Axis c b s.0 r hb s.2 (ih s.0 s.1)

slot-Axis_fuel : (f a : ℕ) (n : Noun) → a ≤ f → 0 < a → a < 2 ^ 63 → Finds a n
slot-Axis_fuel zero a n hf p h r e = absurd (omega arith)
slot-Axis_fuel (suc f) a n hf p h r e = elim (Bool-cases (a == 1)) [
  | inl one ↦
      let a_eq : a ≡ 1 = ground arith in
      subst (λ k. Finds k n) (sym a_eq)
        (λ x d.
          subst (λ y. Axis 1 (denote n) (denote y)) (ok-injective (sym (slot-one n) ∙ d)) Axis.root)
        r e
  | inr more ↦
      let s = halves a (ground arith) in
      subst (λ k. Finds k n) (sym s.2)
        (slot-Axis_double s.0 s.1 n s.3 s.4 (omega (arith, s.2))
          (slot-Axis_fuel f s.0 n (omega (arith, s.5)) s.4 (omega (arith, s.5))))
        r e
]

-- Where `slot` returns, it returns the noun at the axis.
pub slot-Axis :
    (axis n r : Noun)
    → IsCanon axis
    → slot axis n ≡ ok r
    → (a : ℕ) × (denote axis ≡ atom a) × Axis a (denote n) (denote r)
slot-Axis (direct a) n r c e = (a, refl, slot-Axis_fuel a a n (omega arith) (positive a e) c r e)
  where
    positive : (a : ℕ) → slot (direct a) n ≡ ok r → 0 < a
    positive zero e = absurd (unfold slot in ground arith)
    positive (suc a) e = omega arith
slot-Axis (indirect l) n r c e = absurd (unfold slot in ground arith)
slot-Axis (cell x y) n r c e = absurd (unfold slot in ground arith)

walk-IsCanon : (a k : ℕ) (n r : Noun) → IsCanon n → walk a k n ≡ ok r → IsCanon r
unfolding walk
walk-IsCanon a zero n r c e = subst IsCanon (ok-injective e) c
walk-IsCanon a (suc k) (direct v) r c e = absurd (ground arith)
walk-IsCanon a (suc k) (indirect l) r c e = absurd (ground arith)
walk-IsCanon a (suc k) (cell h t) r c e = walk-IsCanon a k _ r (pick (bit_at a k)) e
  where
    pick : (b : Bool) → IsCanon (if b then t else h)
    pick true = c.1
    pick false = c.0

pub slot-IsCanon : (axis n r : Noun) → IsCanon n → slot axis n ≡ ok r → IsCanon r
unfolding slot
slot-IsCanon (direct a) n r c e = elim (Bool-cases (a == 0)) [
  | inl z ↦ absurd (ground (arith, rw z at e))
  | inr z ↦ walk-IsCanon a (depth_loop path_fuel a) n r c (rw z at e)
]
slot-IsCanon (indirect l) n r c e = absurd (ground arith)
slot-IsCanon (cell x y) n r c e = absurd (ground arith)

replace-IsCanon : (p : List Bool) (v n : Noun) → IsCanon v → IsCanon n → IsCanon (replace p v n)
replace-IsCanon [] v n cv cn = cv
replace-IsCanon (b ∷ p) v (direct w) cv cn = cn
replace-IsCanon (b ∷ p) v (indirect l) cv cn = cn
replace-IsCanon (true ∷ p) v (cell h t) cv cn = (cn.0, replace-IsCanon p v t cv cn.1)
replace-IsCanon (false ∷ p) v (cell h t) cv cn = (replace-IsCanon p v h cv cn.0, cn.1)

-- Where an edit is one step longer, it edits the cell above.
abbrev beside : Bool → Noun → Noun → Noun → Noun
beside true v h k = cell h v
beside false v h k = cell v k

replace-snoc :
    (p : List Bool) (c : Bool) (v n h k : Noun)
    → along p n ≡ ok (cell h k)
    → replace (p ++ (c ∷ [])) v n ≡ replace p (beside c v h k) n
replace-snoc [] c v n h k e = bottom c n (ok-injective e)
  where
    bottom : (c : Bool) (n : Noun) → n ≡ cell h k → replace (c ∷ []) v n ≡ beside c v h k
    bottom true n e = ap (replace (true ∷ []) v) e
    bottom false n e = ap (replace (false ∷ []) v) e
replace-snoc (b ∷ p) c v (direct w) h k e = absurd (ground arith)
replace-snoc (b ∷ p) c v (indirect l) h k e = absurd (ground arith)
replace-snoc (true ∷ p) c v (cell x y) h k e = ap (cell x) (replace-snoc p c v y h k e)
replace-snoc (false ∷ p) c v (cell x y) h k e = ap (λ z. cell z y) (replace-snoc p c v x h k e)

path-double : (a b k : ℕ) → b < 2 → path (2 * a + b) (suc k) ≡ path a k ++ ((b == 1) ∷ [])
path-double a b zero h = ap (λ c. c ∷ []) (bit_at-zero a b h)
path-double a b (suc k) h = ap₂ ◌∷◌ (bit_at-double a b k h) (path-double a b k h)

axis_path-double :
    (a b : ℕ)
    → 0 < a
    → b < 2
    → 2 * a + b < 2 ^ 63
    → axis_path (2 * a + b) ≡ axis_path a ++ ((b == 1) ∷ [])
axis_path-double a b p h lt =
    ap (path (2 * a + b)) (depth_double a b p h lt) ∙ path-double a b (depth_loop path_fuel a) h

child-cell : (b : Bool) (y x : Noun) → child b y ≡ ok x → (h : Noun) × (k : Noun) × (y ≡ cell h k)
child-cell b (direct v) x e = absurd (ground arith)
child-cell b (indirect l) x e = absurd (ground arith)
child-cell b (cell h k) x e = (h, k, refl)

-- An edit with the replaced path means `#` at one axis.
abbrev pub Edits : ℕ → Noun → Type 0
Edits a n =
    (v x : Noun)
    → slot (direct a) n ≡ ok x
    → Edit a (denote v) (denote n) (denote (replace (axis_path a) v n))

Edits-one : (n : Noun) → Edits 1 n
unfolding depth_loop
Edits-one n v x e = Edit.whole

module _ (c : ℕ) (n h k v : Noun) (pc : 0 < c) (found : slot (direct c) n ≡ ok (cell h k))
    (ih : Edits c n) (at : Axis c (denote n) (denote (cell h k))) where
  Edits-double :
      (b : ℕ)
      → b < 2
      → 2 * c + b < 2 ^ 63
      → Edit (2 * c + b) (denote v) (denote n) (denote (replace (axis_path (2 * c + b)) v n))
  Edits-double b hb lt =
      subst (λ r. Edit (2 * c + b) (denote v) (denote n) (denote r))
        (sym (
          ap (λ p. replace p v n) (axis_path-double c b pc hb lt)
          ∙ replace-snoc (axis_path c) (b == 1) v n h k (sym (slot-along c n pc) ∙ found)))
        (side (b == 1) refl)
    where
      side :
          (z : Bool)
          → (b == 1) ≡ z
          → Edit
              (2 * c + b)
              (denote v)
              (denote n)
              (denote (replace (axis_path c) (beside z v h k) n))
      side true z =
          Edit.right c (2 * c + b) (ground arith) (Axis.left c (2 * c) refl at)
            (ih (cell h v) (cell h k) found)
      side false z =
          Edit.left c (2 * c + b) (ground arith) (Axis.right c (2 * c + 1) refl at)
            (ih (cell v k) (cell h k) found)

Edits-fuel : (f a : ℕ) (n : Noun) → a ≤ f → 0 < a → a < 2 ^ 63 → Edits a n
Edits-fuel zero a n hf p h = absurd (omega arith)
Edits-fuel (suc f) a n hf p h = elim (Bool-cases (a == 1)) [
  | inl one ↦ let a_eq : a ≡ 1 = ground arith in subst (λ k. Edits k n) (sym a_eq) (Edits-one n)
  | inr more ↦
      let s = halves a (ground arith) in
      subst (λ k. Edits k n) (sym s.2)
        λ v x e.
          let up =
            >>=-eq-ok (slot (direct s.0) n) (child (s.1 == 1))
              (sym (slot-double s.0 s.1 n s.4 s.3 (omega (arith, s.2))) ∙ e) in
          let y = child-cell (s.1 == 1) up.0 x up.2 in
          let found = up.1 ∙ ap ok y.2 in
          let small : s.0 < 2 ^ 63 = omega (arith, s.5) in
          Edits-double s.0 n y.0 y.1 v s.4 found (Edits-fuel f s.0 n (omega (arith, s.5)) s.4 small)
            (slot-Axis_fuel s.0 s.0 n (omega arith) s.4 small (cell y.0 y.1) found) s.1 s.3
            (omega (arith, s.2))
]

put-along :
    (p : List Bool) (v n : Noun) (m : Meter) {r : Noun} {m' : Meter}
    → put p v n m ≡ (ok r, m')
    → (x : Noun) × (along p n ≡ ok x)
unfolding put
put-along [] v n m e = (n, refl)
put-along (b ∷ p) v (direct w) m e = absurd (ground arith)
put-along (b ∷ p) v (indirect l) m e = absurd (ground arith)
put-along (true ∷ p) v (cell h t) m e =
    put-along p v t m (bind-ok (put p v t) (λ n. nock_alloc_cell h n) m e).2
put-along (false ∷ p) v (cell h t) m e =
    put-along p v h m (bind-ok (put p v h) (λ n. nock_alloc_cell n t) m e).2

hax-positive : (a : ℕ) (v n r : Noun) (m m' : Meter) → hax a v n m ≡ (ok r, m') → 0 < a
unfolding hax
hax-positive zero v (direct w) r m m' e = absurd (ground arith)
hax-positive zero v (indirect l) r m m' e = absurd (ground arith)
hax-positive zero v (cell x y) r m m' e = absurd (ground arith)
hax-positive (suc a) v n r m m' e = omega arith

-- Where `hax` returns, it returns the edited tree.
pub hax-Edit :
    (a : ℕ) (v n r : Noun) (m m' : Meter)
    → a < 2 ^ 63
    → IsCanon v
    → IsCanon n
    → hax a v n m ≡ (ok r, m')
    → IsCanon r × Edit a (denote v) (denote n) (denote r)
hax-Edit a v n r m m' lt cv cn e =
    let p = hax-positive a v n r m m' e in
    let e' : put (axis_path a) v n m ≡ (ok r, m') =
      ap (λ (f : Run Noun). f m) (sym (hax-put a v n p lt)) ∙ e in
    let r_eq = put-ok (axis_path a) v n m e' in
    let x = put-along (axis_path a) v n m e' in
    (
      subst IsCanon (sym r_eq) (replace-IsCanon (axis_path a) v n cv cn),
      subst (λ z. Edit a (denote v) (denote n) (denote z)) (sym r_eq)
          (Edits-fuel a a n (omega arith) p lt v x.0 (slot-along a n p ∙ x.1)),
    )
