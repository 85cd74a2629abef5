-- ===== src/Nock/Edit.antt =====
-- `hax`: the noun with one axis replaced, and the cells above it built anew.
use native.Mathlib.Nat.{pow-suc, one-le-pow, mod-add-div', mod-lt}
use trinitite.Base.{
  ℕ, zero, suc, ◌+◌, ◌-◌, ◌*◌, ◌/◌, ◌%◌, ◌^◌, ◌≤◌, ◌<◌, ◌≡◌, refl, ap, ap₂, sym, ◌∙◌, bit_and,
  bit_or, Bool, true, false, ltb, ltb→lt, ◌==◌, if◌then◌else◌, arith, Bool-cases, inl, inr, List,
  [], ◌∷◌,
}
use trinitite.Base.Bits.{low_bit-add, bit_and-mask, bit_or-shifted, bit_or_comm, pow-add}
use trinitite.Base.Outcome.{Outcome, ok, crash}
use trinitite.Noun.{Noun, direct, indirect, cell}
use trinitite.Nock.Meter.{
  Meter, Run, return, nock_crash, ◌>>=◌, nock_alloc_cell, nock_alloc_cell-ok, bind-ok,
}
use trinitite.Nock.Slot.{depth_loop, path_fuel, bit_at, walk, slot}

-- `(a & ((1 << (d - 1)) - 1)) | (1 << (d - 1))`: the axis inside the child, for `k` = `d - 1`.
unfoldable pub sub_axis : ℕ → ℕ → ℕ
sub_axis a k = bit_or (bit_and a (2 ^ k - 1)) (2 ^ k)

unfoldable pub hax : ℕ → Noun → Noun → Run Noun
hax a v (direct w) =
    if a == 0
    then nock_crash "edit axis 0"
    else if a == 1
    then return v
    else nock_crash "edit in atom"
hax a v (indirect l) =
    if a == 0
    then nock_crash "edit axis 0"
    else if a == 1
    then return v
    else nock_crash "edit in atom"
hax a v (cell h t) =
    let k : ℕ = depth_loop path_fuel a - 1 in
    let to_head : Run Noun = hax (sub_axis a k) v h >>= λ n. nock_alloc_cell n t in
    let to_tail : Run Noun = hax (sub_axis a k) v t >>= λ n. nock_alloc_cell h n in
    if a == 0
    then nock_crash "edit axis 0"
    else if a == 1
    then return v
    else if bit_at a k
    then to_tail
    else to_head

-- The path of an axis: its bits below the leading one, from the top.
abbrev pub path : ℕ → ℕ → List Bool
path a zero = []
path a (suc i) = bit_at a i ∷ path a i

-- Replacement along a path, with the cells allocated from the bottom up.
unfoldable pub put : List Bool → Noun → Noun → Run Noun
put [] v n = return v
put (b ∷ p) v (direct w) = nock_crash "edit in atom"
put (b ∷ p) v (indirect l) = nock_crash "edit in atom"
put (true ∷ p) v (cell h t) = put p v t >>= λ n. nock_alloc_cell h n
put (false ∷ p) v (cell h t) = put p v h >>= λ n. nock_alloc_cell n t

-- The noun along a path.
abbrev pub along : List Bool → Noun → Outcome Noun
along [] n = ok n
along (b ∷ p) (direct w) = crash "slot in atom"
along (b ∷ p) (indirect l) = crash "slot in atom"
along (true ∷ p) (cell h t) = along p t
along (false ∷ p) (cell h t) = along p h

walk-along : (a k : ℕ) (n : Noun) → walk a k n ≡ along (path a k) n
unfolding walk
walk-along a zero n = refl
walk-along a (suc k) (direct w) = refl
walk-along a (suc k) (indirect l) = refl
walk-along a (suc k) (cell h t) = elim (Bool-cases (bit_at a k)) [
  | inl e ↦ rw e (walk-along a k t)
  | inr e ↦ rw e (walk-along a k h)
]

-- The depth of an axis is the place of its leading bit.
pub depth_loop-eq : (f d a : ℕ) → d < f → 2 ^ d ≤ a → a < 2 ^ suc d → depth_loop f a ≡ d
unfolding depth_loop
depth_loop-eq zero d a h lo hi = absurd (omega arith)
depth_loop-eq (suc f) zero a h lo hi = ground arith
depth_loop-eq (suc f) (suc d) a h lo hi = ground (
  arith,
  one-le-pow d 2,
  pow-suc 2 d,
  pow-suc 2 (suc d),
  depth_loop-eq f d (a / 2) (omega arith) (omega (arith, pow-suc 2 d))
      (omega (arith, pow-suc 2 (suc d))),
)

sub_axis-eq : (a k : ℕ) → sub_axis a k ≡ a % 2 ^ k + 2 ^ k
unfolding sub_axis
sub_axis-eq a k =
    rw (bit_and-mask k a, bit_or_comm (a % 2 ^ k) (2 ^ k))
      (ap (λ t. bit_or t (a % 2 ^ k)) (omega arith)
        ∙ bit_or-shifted k 1 (a % 2 ^ k) (mod-lt a (one-le-pow k 2 (omega arith)))
        ∙ omega arith)

-- A multiple of 2 ^ (i + 1) does not change bit i.
bit_at-add : (x y i : ℕ) → bit_at (x + y * 2 ^ suc i) i ≡ bit_at x i
bit_at-add x y i = ap (λ (t : ℕ). t == 1) (low_bit-add x y i)

abbrev SameBit : ℕ → ℕ → ℕ → Type 0
SameBit i a b = bit_at a i ≡ bit_at b i

pow-split : (i j k : ℕ) → k ≡ suc i + j → (y : ℕ) → y * 2 ^ k ≡ y * 2 ^ j * 2 ^ suc i
pow-split i j k e y =
    ap (λ (t : ℕ). y * 2 ^ t) e ∙ ap (λ (t : ℕ). y * t) (pow-add 2 (suc i) j) ∙ omega arith

-- The bits below the leading one are those of the axis.
bit_at-mod : (a k i j : ℕ) → k ≡ suc i + j → SameBit i (a % 2 ^ k) a
bit_at-mod a k i j e =
    sym (bit_at-add (a % 2 ^ k) (a / 2 ^ k * 2 ^ j) i)
    ∙ ap (λ (t : ℕ). bit_at t i)
        (omega (arith, pow-split i j k e (a / 2 ^ k), mod-add-div' a (2 ^ k)))

bit_at-sub_axis : (a k i j : ℕ) → k ≡ suc i + j → SameBit i (sub_axis a k) a
bit_at-sub_axis a k i j e =
    ap (λ (t : ℕ). bit_at t i) (sub_axis-eq a k ∙ omega (arith, pow-split i j k e 1))
    ∙ bit_at-add (a % 2 ^ k) (1 * 2 ^ j) i
    ∙ bit_at-mod a k i j e

path-sub_axis : (a k n j : ℕ) → k ≡ n + j → path (sub_axis a k) n ≡ path a n
path-sub_axis a k zero j e = refl
path-sub_axis a k (suc n) j e =
    ap₂ ◌∷◌ (bit_at-sub_axis a k n j e) (path-sub_axis a k n (suc j) (omega arith))

sub_axis_bounds : (a k : ℕ) → (2 ^ k ≤ sub_axis a k) × (sub_axis a k < 2 ^ suc k)
sub_axis_bounds a k =
    rw (sub_axis-eq a k)
      (omega (arith, pow-suc 2 k, mod-lt a {m = 2 ^ k} (one-le-pow k 2 (omega arith))))

axis_one : (a : ℕ) → 2 ^ 0 ≤ a → a < 2 ^ 1 → ((a == 0) ≡ false) × ((a == 1) ≡ true)
axis_one a lo hi = (ground arith, ground arith)

axis_deep : (a k : ℕ) → 2 ^ suc k ≤ a → ((a == 0) ≡ false) × ((a == 1) ≡ false)
axis_deep a k lo =
    let big : 2 ≤ a = omega (arith, pow-suc 2 k, one-le-pow k 2 (omega arith)) in
    (ground arith, ground arith)

hax_root : (a : ℕ) (v n : Noun) → 2 ^ 0 ≤ a → a < 2 ^ 1 → hax a v n ≡ return v
unfolding hax
hax_root a v (direct w) lo hi = rw ((axis_one a lo hi).0, (axis_one a lo hi).1)
hax_root a v (indirect l) lo hi = rw ((axis_one a lo hi).0, (axis_one a lo hi).1)
hax_root a v (cell x y) lo hi = rw ((axis_one a lo hi).0, (axis_one a lo hi).1)

hax_cell :
    (k a : ℕ) (v x y : Noun)
    → suc k < 64
    → 2 ^ suc k ≤ a
    → a < 2 ^ suc (suc k)
    → hax a v (cell x y) ≡ (
        if bit_at a k
        then (hax (sub_axis a k) v y >>= λ n. nock_alloc_cell x n)
        else (hax (sub_axis a k) v x >>= λ n. nock_alloc_cell n y))
unfolding hax
hax_cell k a v x y h lo hi = rw (
  (axis_deep a k lo).0,
  (axis_deep a k lo).1,
  depth_loop-eq path_fuel (suc k) a h lo hi,
  sub-one k,
)
  where
    sub-one : (k : ℕ) → suc k - 1 ≡ k
    sub-one k = omega arith

-- The recursion of `hax` on shorter axes follows the path of the first one.
hax-put_at :
    (d a : ℕ) (v n : Noun) → d < 64 → 2 ^ d ≤ a → a < 2 ^ suc d → hax a v n ≡ put (path a d) v n
unfolding put
hax-put_at zero a v n h lo hi = hax_root a v n lo hi
hax-put_at (suc k) a v (direct w) h lo hi =
    unfold hax in rw ((axis_deep a k lo).0, (axis_deep a k lo).1)
hax-put_at (suc k) a v (indirect l) h lo hi =
    unfold hax in rw ((axis_deep a k lo).0, (axis_deep a k lo).1)
hax-put_at (suc k) a v (cell x y) h lo hi =
    let b = sub_axis_bounds a k in
    let same = path-sub_axis a k k 0 (omega arith) in
    let on_head = hax-put_at k (sub_axis a k) v x (omega arith) b.0 b.1 in
    let on_tail = hax-put_at k (sub_axis a k) v y (omega arith) b.0 b.1 in
    hax_cell k a v x y h lo hi ∙ (elim (Bool-cases (bit_at a k)) [
      | inl e ↦ rw (e, on_tail, same)
      | inr e ↦ rw (e, on_head, same)
    ])

-- Every axis has a depth.
axis_depth : (f a : ℕ) → 0 < a → a < 2 ^ f → (d : ℕ) × (d < f) × (2 ^ d ≤ a) × (a < 2 ^ suc d)
axis_depth zero a p h = absurd (omega arith)
axis_depth (suc f) a p h = elim (Bool-cases (ltb a (2 ^ f))) [
  | inl l ↦ let r = axis_depth f a p (ltb→lt a (2 ^ f) l) in (r.0, omega (arith, r.1), r.2, r.3)
  | inr g ↦ (f, omega arith, ground arith, h)
]

-- The tree that an edit along a path means.
abbrev pub replace : List Bool → Noun → Noun → Noun
replace [] v n = v
replace (b ∷ p) v (direct w) = direct w
replace (b ∷ p) v (indirect l) = indirect l
replace (true ∷ p) v (cell h t) = cell h (replace p v t)
replace (false ∷ p) v (cell h t) = cell (replace p v h) t

pub put-ok :
    (p : List Bool) (v n : Noun) (m : Meter) {r : Noun} {m' : Meter}
    → put p v n m ≡ (ok r, m')
    → r ≡ replace p v n
unfolding put
put-ok [] v n m e = ground arith
put-ok (b ∷ p) v (direct w) m e = absurd (ground arith)
put-ok (b ∷ p) v (indirect l) m e = absurd (ground arith)
put-ok (true ∷ p) v (cell h t) m {r} {m'} e =
    let s = bind-ok (put p v t) (λ n. nock_alloc_cell h n) m e in
    nock_alloc_cell-ok h s.0 s.1 s.3 ∙ ap (cell h) (put-ok p v t m s.2)
put-ok (false ∷ p) v (cell h t) m {r} {m'} e =
    let s = bind-ok (put p v h) (λ n. nock_alloc_cell n t) m e in
    nock_alloc_cell-ok s.0 t s.1 s.3 ∙ ap (λ n. cell n t) (put-ok p v h m s.2)

pub along-put :
    (p : List Bool) (v n : Noun) (m : Meter) {r : Noun} {m' : Meter}
    → put p v n m ≡ (ok r, m')
    → along p (replace p v n) ≡ ok v
unfolding put
along-put [] v n m e = refl
along-put (b ∷ p) v (direct w) m e = absurd (ground arith)
along-put (b ∷ p) v (indirect l) m e = absurd (ground arith)
along-put (true ∷ p) v (cell h t) m e =
    along-put p v t m (bind-ok (put p v t) (λ n. nock_alloc_cell h n) m e).2
along-put (false ∷ p) v (cell h t) m e =
    along-put p v h m (bind-ok (put p v h) (λ n. nock_alloc_cell n t) m e).2

-- One path leaves the other: neither is a prefix of the other.
abbrev pub Diverges : List Bool → List Bool → Type 0
Diverges [] q = ⊥
Diverges (b ∷ p) [] = ⊥
Diverges (true ∷ p) (true ∷ q) = Diverges p q
Diverges (false ∷ p) (false ∷ q) = Diverges p q
Diverges (true ∷ p) (false ∷ q) = Unit
Diverges (false ∷ p) (true ∷ q) = Unit

along-replace : (p q : List Bool) (v n : Noun) → Diverges p q → along q (replace p v n) ≡ along q n
along-replace [] q v n d = absurd d
along-replace (b ∷ p) [] v n d = absurd d
along-replace (b ∷ p) (c ∷ q) v (direct w) d = refl
along-replace (b ∷ p) (c ∷ q) v (indirect l) d = refl
along-replace (true ∷ p) (true ∷ q) v (cell h t) d = along-replace p q v t d
along-replace (false ∷ p) (false ∷ q) v (cell h t) d = along-replace p q v h d
along-replace (true ∷ p) (false ∷ q) v (cell h t) d = refl
along-replace (false ∷ p) (true ∷ q) v (cell h t) d = refl

-- The path of an axis from its bits.
abbrev pub axis_path : ℕ → List Bool
axis_path a = path a (depth_loop path_fuel a)

pub slot-along : (a : ℕ) (n : Noun) → 0 < a → slot (direct a) n ≡ along (axis_path a) n
unfolding slot
slot-along a n p = rw (nonzero a p) (walk-along a (depth_loop path_fuel a) n)
  where
    nonzero : (x : ℕ) → 0 < x → (x == 0) ≡ false
    nonzero x h = ground arith

pub hax-put : (a : ℕ) (v n : Noun) → 0 < a → a < 2 ^ 63 → hax a v n ≡ put (axis_path a) v n
hax-put a v n p h =
    let d = axis_depth 63 a p h in
    hax-put_at d.0 a v n (omega (arith, d.1)) d.2 d.3
    ∙ ap (λ k. put (path a k) v n)
        (sym (depth_loop-eq path_fuel d.0 a (omega (arith, d.1)) d.2 d.3))

-- An edit that returns has put the new noun at its axis, where `slot` finds it, and has left what
-- stands at every axis whose path leaves that of the edit.
pub hax-slot :
    (a b : ℕ) (v n : Noun) (m : Meter) {r : Noun} {m' : Meter}
    → 0 < a
    → a < 2 ^ 63
    → 0 < b
    → hax a v n m ≡ (ok r, m')
    → (slot (direct a) r ≡ ok v)
      × (Diverges (axis_path a) (axis_path b) → slot (direct b) r ≡ slot (direct b) n)
hax-slot a b v n m {r} {m'} pa ha pb e =
    let e' : put (axis_path a) v n m ≡ (ok r, m') =
      ap (λ (f : Run Noun). f m) (sym (hax-put a v n pa ha)) ∙ e in
    let r_eq = put-ok (axis_path a) v n m e' in
    (
      slot-along a r pa ∙ ap (along (axis_path a)) r_eq ∙ along-put (axis_path a) v n m e',
      λ d.
          slot-along b r pb
          ∙ ap (along (axis_path b)) r_eq
          ∙ along-replace (axis_path a) (axis_path b) v n d
          ∙ sym (slot-along b n pb),
    )
