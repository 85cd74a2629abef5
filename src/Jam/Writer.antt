-- ===== src/Jam/Writer.antt =====
-- The bit writer of jam.c, and what it leaves for a reader: the buffer holds the bits in order.
use native.Mathlib.Nat.{pow-suc}
use trinitite.Base.{
  ℕ, zero, suc, ◌+◌, ◌*◌, ◌^◌, ◌≤◌, ◌<◌, ◌≡◌, refl, ap, sym, subst, ◌∙◌, List, [], ◌∷◌, ◌++◌, arith,
  length, length-append, replicate, Bool-cases, false, leb, inl, inr, if◌then◌else◌, ◌==◌,
}
use trinitite.Base.Outcome.{Outcome, ok, crash, ◌>>=◌, >>=-eq-ok, ok-injective}
use trinitite.Noun.Limbs.{value, IsLimbs}
use trinitite.Jam.Bits.{
  bit, put_bit, bit-add_above, bit-add_at, value-put_bit, put_bit-IsLimbs, length-put_bit,
}

-- JAM_MAX_LIMBS
abbrev pub jam_max_limbs : ℕ
jam_max_limbs = 16384

-- `jambuf_t`
pub record Jambuf : Type 0 where
  pub buf : List ℕ
  pub cur : ℕ

unfoldable pub jb_init : Jambuf
jb_init = record { buf = replicate jam_max_limbs 0; cur = 0 }

unfoldable pub jb_write : Jambuf → ℕ → Outcome Jambuf
unfolding put_bit
jb_write b v =
    if leb (jam_max_limbs * 64) b.cur
    then crash "jam: output too large"
    else ok (record { buf = if v == 0 then b.buf else put_bit b.buf b.cur 1; cur = suc b.cur })

-- `for (i = ...; i < n; i++) jb_write(b, bits(i))`, with `left` rounds to go.
unfoldable pub write_loop : (ℕ → ℕ) → Jambuf → ℕ → ℕ → Outcome Jambuf
unfolding jb_write
write_loop bits b i zero = ok b
write_loop bits b i (suc left) = jb_write b (bits i) >>= λ b'. write_loop bits b' (suc i) left

unfoldable pub jb_write_n : Jambuf → ℕ → ℕ → Outcome Jambuf
unfolding write_loop
jb_write_n b val n = write_loop (bit val) b 0 n

-- What a buffer always satisfies: it has its limbs, and no bit is set from the cursor on.
pub record IsBuf (b : Jambuf) : Type 0 where
  pub limbs : IsLimbs b.buf
  pub size : length b.buf ≡ jam_max_limbs
  pub below : value b.buf < 2 ^ b.cur
  pub room : b.cur ≤ jam_max_limbs * 64

-- A reader that finds the bits of the buffer below the cursor.
abbrev pub Agrees : (ℕ → ℕ) → Jambuf → Type 0
Agrees r b = (i : ℕ) → i < b.cur → r i ≡ bit (value b.buf) i

-- A reader that finds these bits from position `i` on.
abbrev pub Reads : (ℕ → ℕ) → ℕ → List ℕ → Type 0
Reads r i [] = Unit
Reads r i (x ∷ xs) = (r i ≡ x) × Reads r (suc i) xs

-- From buffer `s` to buffer `t` these bits are appended.
pub record Emits (s t : Jambuf) (bits : List ℕ) : Type 0 where
  pub sound : IsBuf t
  pub moved : t.cur ≡ s.cur + length bits
  pub kept : (r : ℕ → ℕ) → Agrees r t → Agrees r s × Reads r s.cur bits

pub Reads-append :
    (r : ℕ → ℕ) (i : ℕ) (xs ys : List ℕ)
    → Reads r i xs
    → Reads r (i + length xs) ys
    → Reads r i (xs ++ ys)
Reads-append r i [] ys p q = subst (λ (k : ℕ). Reads r k ys) (omega arith) q
Reads-append r i (x ∷ xs) ys p q = (
  p.0,
  Reads-append r (suc i) xs ys p.1 (subst (λ (k : ℕ). Reads r k ys) (shift i (length xs)) q),
)
  where
    shift : (i n : ℕ) → i + suc n ≡ suc i + n
    shift i n = omega arith

pub Reads-split :
    (r : ℕ → ℕ) (i : ℕ) (xs ys : List ℕ)
    → Reads r i (xs ++ ys)
    → Reads r i xs × Reads r (i + length xs) ys
Reads-split r i [] ys p = (tt, subst (λ (k : ℕ). Reads r k ys) (same i) p)
  where
    same : (i : ℕ) → i ≡ i + 0
    same i = omega arith
Reads-split r i (x ∷ xs) ys p =
    let rest = Reads-split r (suc i) xs ys p.1 in
    ((p.0, rest.0), subst (λ (k : ℕ). Reads r k ys) (shift i (length xs)) rest.1)
  where
    shift : (i n : ℕ) → suc i + n ≡ i + suc n
    shift i n = omega arith

pub Emits-refl : (s : Jambuf) → IsBuf s → Emits s s []
Emits-refl s h = record { sound = h; moved = omega arith; kept = λ r a. (a, tt) }

pub Emits-trans :
    {s t u : Jambuf} {xs ys : List ℕ} → Emits s t xs → Emits t u ys → Emits s u (xs ++ ys)
Emits-trans {s} {t} {u} {xs} {ys} p q = record {
  sound = q.sound;
  moved = omega (arith, p.moved, q.moved, length-append xs ys);
  kept = λ r a.
      let late = q.kept r a in
      let early = p.kept r late.0 in
      (
        early.0,
        Reads-append r s.cur xs ys early.1 (subst (λ (k : ℕ). Reads r k ys) p.moved late.1),
      );
}

append-Emits :
    (s : Jambuf) (v : ℕ) (new : List ℕ)
    → IsBuf s
    → s.cur < jam_max_limbs * 64
    → v < 2
    → IsLimbs new
    → length new ≡ jam_max_limbs
    → value new ≡ value s.buf + v * 2 ^ s.cur
    → Emits s (record { buf = new; cur = suc s.cur }) (v ∷ [])
append-Emits s v new h c k il len e = record {
  sound = record { limbs = il; size = len; below = grows v k e; room = omega (arith, c) };
  moved = omega arith;
  kept = λ r a. (
    λ i p.
        a i (omega (arith, p))
        ∙ ap (λ (t : ℕ). bit t i) e
        ∙ bit-add_above (value s.buf) v i s.cur p,
    (
      a s.cur (omega arith)
          ∙ ap (λ (t : ℕ). bit t s.cur) e
          ∙ bit-add_at (value s.buf) v s.cur h.below k,
      tt,
    ),
  );
}
  where
    grows : (v : ℕ) → v < 2 → value new ≡ value s.buf + v * 2 ^ s.cur → value new < 2 ^ suc s.cur
    grows zero k e = omega (arith, e, h.below, pow-suc 2 s.cur)
    grows (suc zero) k e = omega (arith, e, h.below, pow-suc 2 s.cur)
    grows (suc (suc v)) k e = absurd (omega (arith, k))

-- A bit is appended, or there is no room for it.
pub jb_write-Emits :
    (s : Jambuf) (v : ℕ) {t : Jambuf} → IsBuf s → v < 2 → jb_write s v ≡ ok t → Emits s t (v ∷ [])
unfolding jb_write
jb_write-Emits s v {t} h k e = elim (Bool-cases (leb (jam_max_limbs * 64) s.cur)) [
  | inl full ↦ absurd (ground (arith, e, full))
  | inr free ↦
      subst (λ t. Emits s t (v ∷ [])) (ok-injective (sym (rw free refl) ∙ e))
        (append-Emits s v (next v) h (ground (arith, free)) k (next_limbs v) (next_length v)
          (next_value v k (ground (arith, free))))
]
  where
    next : ℕ → List ℕ
    next v = if v == 0 then s.buf else put_bit s.buf s.cur 1

    ne : (v : ℕ) → (suc (suc v) == 0) ≡ false
    ne v = ground arith

    next_limbs : (v : ℕ) → IsLimbs (next v)
    next_limbs zero = h.limbs
    next_limbs (suc (suc v)) =
        rw (ne v) (put_bit-IsLimbs s.buf s.cur 1 h.limbs h.below (omega arith))
    next_limbs (suc zero) = put_bit-IsLimbs s.buf s.cur 1 h.limbs h.below (omega arith)

    next_length : (v : ℕ) → length (next v) ≡ jam_max_limbs
    next_length zero = h.size
    next_length (suc (suc v)) = rw (ne v) (length-put_bit s.buf s.cur 1 ∙ h.size)
    next_length (suc zero) = length-put_bit s.buf s.cur 1 ∙ h.size

    next_value :
        (v : ℕ) → v < 2 → s.cur < jam_max_limbs * 64 → value (next v) ≡ value s.buf + v * 2 ^ s.cur
    next_value zero k c = omega arith
    next_value (suc zero) k c = value-put_bit s.buf s.cur 1 h.below (omega (arith, h.size, c))
    next_value (suc (suc v)) k c = absurd (omega (arith, k))

-- `bits i`, `bits (i + 1)`, and so on, `n` of them.
abbrev pub bits_of : (ℕ → ℕ) → ℕ → ℕ → List ℕ
bits_of bits i zero = []
bits_of bits i (suc n) = bits i ∷ bits_of bits (suc i) n

pub length-bits_of : (bits : ℕ → ℕ) (i n : ℕ) → length (bits_of bits i n) ≡ n
length-bits_of bits i zero = refl
length-bits_of bits i (suc n) = ap suc (length-bits_of bits (suc i) n)

pub write_loop-Emits :
    (bits : ℕ → ℕ) (s : Jambuf) (i n : ℕ) {t : Jambuf}
    → IsBuf s
    → ((j : ℕ) → bits j < 2)
    → write_loop bits s i n ≡ ok t
    → Emits s t (bits_of bits i n)
unfolding write_loop
write_loop-Emits bits s i zero {t} h k e =
    subst (λ t. Emits s t []) (ok-injective e) (Emits-refl s h)
write_loop-Emits bits s i (suc n) {t} h k e =
    let step = >>=-eq-ok (jb_write s (bits i)) (λ b'. write_loop bits b' (suc i) n) e in
    let first = jb_write-Emits s (bits i) h (k i) step.1 in
    Emits-trans first (write_loop-Emits bits step.0 (suc i) n first.sound k step.2)
