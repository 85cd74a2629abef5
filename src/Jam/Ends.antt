-- ===== src/Jam/Ends.antt =====
-- Every call of `cue` ends: with a noun, or with `nock_crash`.
use trinitite.Base.{
  ℕ, zero, suc, ◌+◌, ◌*◌, ◌≤◌, ◌<◌, ◌≡◌, refl, sym, subst, Bool, true, false, List, arith, get_or,
  ◌^◌, ◌%◌, ◌&&◌, bit_or, Option, ltb, ltb→lt, Bool-cases, inl, inr, if-cases, ◌==◌,
}
use trinitite.Base.Outcome.{Outcome, ok, crash, budget, fault, spent, ◌>>=◌}
use trinitite.Noun.{Noun, direct, indirect, cell, is_atom}
use trinitite.Noun.Limbs.{limb_base}
use trinitite.Noun.Atom.{trim, or_exhausted}
use trinitite.Bignum.Scratch.{bn_normalize}
use trinitite.Jam.Probe.{Found, hit, free, full}
use trinitite.Jam.Rub.{
  atom_bit_at, rub_zeros, read_word, rub_max_limbs, limb_count, rub_atom, rub_length, do_rub,
  rub_limbs-eq,
}
use trinitite.Jam.Decode.{
  Ccache, Cued, ccache_init, ccache_write, ccache_put, ccache_get, ccache_probe, noun_found, finish,
  cue_atom, referred, cue_ref, cue_cell, do_cue, atom_bits, cue_fuel, cue,
}
use trinitite.Jam.RoundTrip.{quiet}

-- The call returns a result with `P`, or it crashes.
abbrev pub Settles {ℓ} : {A : Type ℓ} → (A → Type 0) → Outcome A → Type 0
Settles P (ok x) = P x
Settles P (crash m) = Unit
Settles P (budget r) = ⊥
Settles P fault = ⊥
Settles P spent = ⊥

Settles-bind {ℓ κ} :
    {A : Type ℓ} {B : Type κ} (P : A → Type 0) (Q : B → Type 0) (o : Outcome A) (k : A → Outcome B)
    → Settles P o
    → ((x : A) → P x → Settles Q (k x))
    → Settles Q (o >>= k)
Settles-bind P Q (ok x) k h f = f x h
Settles-bind P Q (crash m) k h f = tt
Settles-bind P Q (budget r) k h f = absurd h
Settles-bind P Q fault k h f = absurd h
Settles-bind P Q spent k h f = absurd h

Settles-map {ℓ} :
    {A : Type ℓ} (P Q : A → Type 0) (o : Outcome A)
    → ((x : A) → P x → Q x)
    → Settles P o
    → Settles Q o
Settles-map P Q (ok x) f h = f x h
Settles-map P Q (crash m) f h = tt
Settles-map P Q (budget r) f h = absurd h
Settles-map P Q fault f h = absurd h
Settles-map P Q spent f h = absurd h

-- The cursor has moved on.
abbrev Past {ℓ} : {A : Type ℓ} → ℕ → A × ℕ → Type 0
Past cur r = cur < r.1

rub_zeros-Settles :
    (a : Noun) (f cur z : ℕ) → 65 < f + z → z ≤ 64 → Settles (Past cur) (rub_zeros f a cur z)
unfolding rub_zeros
rub_zeros-Settles a zero cur z h k = absurd (omega (arith, h, k))
rub_zeros-Settles a (suc f) cur z h k =
    if-cases (Settles (Past cur)) (atom_bit_at a cur == 0)
      (λ y.
        if-cases (Settles (Past cur)) (ltb 64 (suc z)) (λ w. tt)
          (λ n.
            Settles-map (Past (suc cur)) (Past cur) (rub_zeros f a (suc cur) (suc z))
              (λ r p. omega (arith, p))
              (rub_zeros-Settles a f (suc cur) (suc z) (omega (arith, h)) (ground (arith, n)))))
      (λ n. omega arith)

bn_normalize-Settles : (l : List ℕ) (s : ℕ) → 0 < s → Settles (λ n. Unit) (bn_normalize l s)
unfolding bn_normalize
bn_normalize-Settles l zero h = absurd (omega (arith, h))
bn_normalize-Settles l (suc s) h =
    if-cases (λ (o : Option Noun). Settles (λ n. Unit) (or_exhausted o))
      ((trim l (suc s) == 1) && ltb (get_or l 0 0) (2 ^ 63)) (λ y. tt) (λ n. tt)

rub_atom-Settles :
    (a : Noun) (cur len : ℕ)
    → len < limb_base
    → Settles (λ (r : Noun × ℕ). cur ≤ r.1) (rub_atom a cur len)
unfolding rub_atom
rub_atom-Settles a cur len word =
    let P : Noun × ℕ → Type 0 = λ r. cur ≤ r.1 in
    let size : ℕ = limb_count len in
    if-cases (Settles P) (size == 0) (λ y. omega arith)
      (λ n.
        if-cases (Settles P) (ltb rub_max_limbs size) (λ y. tt)
          (λ small.
            subst (Settles P)
              (sym (rub_limbs-eq a cur len size small (covered len word (ground (arith, n)))))
              (Settles-bind (λ n. Unit) P (bn_normalize _ size) (λ k. ok (k, cur + len))
                (bn_normalize-Settles _ size (ground (arith, n))) (λ x t. omega arith))))
  where
    covered : (len : ℕ) → len < limb_base → 0 < limb_count len → len ≤ 64 * limb_count len
    covered len word pos = omega (arith, word, pos)

rub_length-Settles :
    (a : Noun) (cur z at : ℕ) → cur < at → Settles (Past cur) (rub_length a (z, at))
unfolding rub_length
rub_length-Settles a cur zero at h = h
rub_length-Settles a cur (suc below) at h =
    let len : ℕ = bit_or (1 * 2 ^ below) (read_word a at 0 below 0) % limb_base in
    Settles-map (λ (r : Noun × ℕ). at + below ≤ r.1) (Past cur) (rub_atom a (at + below) len)
      (λ r p. omega (arith, p, h)) (rub_atom-Settles a (at + below) len (omega arith))

do_rub-Settles : (a : Noun) (cur : ℕ) → Settles (Past cur) (do_rub a cur)
unfolding do_rub
do_rub-Settles a cur =
    Settles-bind (Past cur) (Past cur) (rub_zeros 66 a cur 0) (rub_length a)
      (rub_zeros-Settles a 66 cur 0 (omega arith) (omega arith))
      (λ r p. rub_length-Settles a cur r.0 r.1 p)

-- A call of `do_cue` from `cur` moves on.
abbrev Later : ℕ → Cued → Type 0
Later cur s = cur < s.cur

finish-Settles : (cur : ℕ) (s : Cued) → cur < s.cur → Settles (Later cur) (finish cur s)
unfolding finish ccache_put
finish-Settles cur s h = put_settles (ccache_probe s.cache cur)
  where
    put_settles :
        (f : Found ℕ Noun)
        → Settles
            (Later cur)
            (ccache_write s.cache cur s.noun f >>= λ c. ok (record s { cache = c }))
    put_settles (hit i k v) = h
    put_settles (free i) = h
    put_settles full = tt

cue_atom-Settles :
    (a : Noun) (c : Ccache) (cur at : ℕ) → cur ≤ at → Settles (Later cur) (cue_atom a c at)
unfolding cue_atom
cue_atom-Settles a c cur at h =
    Settles-bind (Past at) (Later cur) (do_rub a at) _ (do_rub-Settles a at)
      (λ r p. omega (arith, p, h))

referred-Settles :
    (c : Ccache) (cur : ℕ) (n : Noun) (next : ℕ)
    → cur < next
    → Settles (Later cur) (referred c (n, next))
unfolding ccache_get
referred-Settles c cur (direct pos) next h = found (ccache_probe c pos)
  where
    found :
        (f : Found ℕ Noun)
        → Settles
            (Later cur)
            (noun_found f >>= λ n. ok (record { noun = n; cur = next; cache = c }))
    found (hit i k v) = h
    found (free i) = tt
    found full = tt
referred-Settles c cur (indirect l) next h = tt
referred-Settles c cur (cell x y) next h = tt

cue_ref-Settles :
    (a : Noun) (c : Ccache) (cur at : ℕ) → cur ≤ at → Settles (Later cur) (cue_ref a c at)
unfolding cue_ref
cue_ref-Settles a c cur at h =
    Settles-bind (Past at) (Later cur) (do_rub a at) (referred c) (do_rub-Settles a at)
      (λ r p. referred-Settles c cur r.0 r.1 (omega (arith, p, h)))

cue_cell-Settles :
    (sub : Ccache → ℕ → Outcome Cued) (c : Ccache) (cur at : ℕ)
    → cur ≤ at
    → ((c : Ccache) (i : ℕ) → at ≤ i → Settles (Later i) (sub c i))
    → Settles (Later cur) (cue_cell sub c at)
unfolding cue_cell
cue_cell-Settles sub c cur at h f =
    Settles-bind (Later at) (Later cur) (sub c at) _ (f c at (omega arith)) (λ x p.
      Settles-bind (Later x.cur) (Later cur) (sub x.cache x.cur) _
        (f x.cache x.cur (omega (arith, p))) (λ y q. omega (arith, p, q, h)))

-- What a call does by its tag bits, before the put.
abbrev cue_body : (Ccache → ℕ → Outcome Cued) → Noun → Ccache → ℕ → Bool → Bool → Outcome Cued
cue_body sub a c cur true second = cue_atom a c (cur + 1)
cue_body sub a c cur false true = cue_cell sub c (cur + 2)
cue_body sub a c cur false false = cue_ref a c (cur + 2)

do_cue-eq :
    (a : Noun) (f : ℕ) (c : Ccache) (cur : ℕ)
    → do_cue (suc f) a c cur ≡ (
        cue_body (do_cue f a) a c cur (atom_bit_at a cur == 0) (atom_bit_at a (cur + 1) == 0)
        >>= finish cur)
unfolding do_cue
do_cue-eq a f c cur = elim (Bool-cases (atom_bit_at a cur == 0)) [
  | inl y ↦ rw y refl
  | inr n ↦ elim (Bool-cases (atom_bit_at a (cur + 1) == 0)) [
    | inl y ↦ rw (n, y) refl
    | inr n' ↦ rw (n, n') refl
  ]
]

cue_body-Settles :
    (sub : Ccache → ℕ → Outcome Cued) (a : Noun) (c : Ccache) (cur : ℕ) (x y : Bool)
    → (x ≡ false → (c : Ccache) (i : ℕ) → cur + 2 ≤ i → Settles (Later i) (sub c i))
    → Settles (Later cur) (cue_body sub a c cur x y)
cue_body-Settles sub a c cur true y f = cue_atom-Settles a c cur (cur + 1) (omega arith)
cue_body-Settles sub a c cur false true f =
    cue_cell-Settles sub c cur (cur + 2) (omega arith) (f refl)
cue_body-Settles sub a c cur false false f = cue_ref-Settles a c cur (cur + 2) (omega arith)

-- A cell starts within the limbs, so fuel is left for its parts, which start later.
do_cue-Settles :
    (a : Noun) (f : ℕ) (c : Ccache) (cur : ℕ)
    → 0 < f
    → atom_bits a < f + cur
    → Settles (Later cur) (do_cue f a c cur)
do_cue-Settles a zero c cur p h = absurd (omega (arith, p))
do_cue-Settles a (suc f) c cur p h =
    let first = atom_bit_at a cur == 0 in
    let second = atom_bit_at a (cur + 1) == 0 in
    subst (Settles (Later cur)) (sym (do_cue-eq a f c cur)) (
      Settles-bind (Later cur) (Later cur) (cue_body (do_cue f a) a c cur first second) (finish cur)
        (cue_body-Settles (do_cue f a) a c cur first second
          (λ n c i le. do_cue-Settles a f c i (left f cur (within n) h) (omega (arith, h, le))))
        (λ s q. finish-Settles cur s q))
  where
    within : (atom_bit_at a cur == 0) ≡ false → cur < atom_bits a
    within n = elim (Bool-cases (ltb cur (atom_bits a))) [
      | inl y ↦ ltb→lt cur (atom_bits a) y
      | inr d ↦ absurd (ground (arith, n, quiet a cur (ground (arith, d))))
    ]

    left : (f cur : ℕ) → cur < atom_bits a → atom_bits a < suc f + cur → 0 < f
    left f cur l h = omega (arith, l, h)

-- On every noun `cue` returns a noun or ends by `nock_crash`: the fuel of the model is enough, and no
-- write falls outside the scratch array of an atom.
pub cue-Settles : (a : Noun) → Settles (λ n. Unit) (cue a)
unfolding cue
cue-Settles a =
    if-cases (Settles (λ n. Unit)) (is_atom a)
      (λ y.
        Settles-bind (Later 0) (λ n. Unit) (do_cue (cue_fuel a) a ccache_init 0) (λ s. ok s.noun)
          (do_cue-Settles a (cue_fuel a) ccache_init 0 (omega arith) (omega arith)) (λ s p. tt))
      (λ n. tt)
