-- ===== src/Jam/Room.antt =====
-- A write with room for all of its bits succeeds and moves the cursor by their number.
use trinitite.Base.{
  ℕ, zero, suc, ◌+◌, ◌-◌, ◌*◌, ◌≤◌, ◌<◌, ◌≡◌, refl, ap, sym, subst, ◌∙◌, arith, leb, false,
  suc-==-zero,
}
use trinitite.Base.Outcome.{Outcome, ok, ◌>>=◌, >>=-eq-ok, ok-injective}
use trinitite.Noun.{Noun, direct, indirect, cell}
use trinitite.Bignum.Met.{bn_met}
use trinitite.Jam.Bits.{bit, limb_bit}
use trinitite.Jam.Writer.{Jambuf, jb_write, write_loop, jb_write_n, jam_max_limbs}
use trinitite.Jam.Mat.{jb_write_atom, u64_bits, coded_len, mat_len, mat_fields, mat_sized, do_mat}
use trinitite.Jam.Encode.{Jamming, emit_atom, emit_ref, emit_cell}

-- A write that succeeds and moves the cursor by `n`.
abbrev pub Moves : Outcome Jambuf → Jambuf → ℕ → Type 0
Moves o s n = (t : Jambuf) × (o ≡ ok t) × (t.cur ≡ s.cur + n)

pub jb_write-Moves :
    (s : Jambuf) (v : ℕ) → s.cur + 1 ≤ jam_max_limbs * 64 → Moves (jb_write s v) s 1
unfolding jb_write
jb_write-Moves s v h =
    let free : leb (jam_max_limbs * 64) s.cur ≡ false = ground (arith, h) in
    rw free (_, refl, omega arith)

then-Moves :
    (o : Outcome Jambuf) (k : Jambuf → Outcome Jambuf) (s : Jambuf) (m n : ℕ)
    → Moves o s m
    → ((t : Jambuf) → t.cur ≡ s.cur + m → Moves (k t) t n)
    → Moves (o >>= k) s (m + n)
then-Moves o k s m n (t, e, c) f =
    let r = f t c in (r.0, ap (λ o. o >>= k) e ∙ r.1, omega (arith, c, r.2))

pub write_loop-Moves :
    (bits : ℕ → ℕ) (s : Jambuf) (i n : ℕ)
    → s.cur + n ≤ jam_max_limbs * 64
    → Moves (write_loop bits s i n) s n
unfolding write_loop
write_loop-Moves bits s i zero h = (s, refl, omega arith)
write_loop-Moves bits s i (suc n) h =
    subst (Moves (write_loop bits s i (suc n)) s) {x = 1 + n} {y = suc n} (omega arith) (
      then-Moves (jb_write s (bits i)) (λ b'. write_loop bits b' (suc i) n) s 1 n
        (jb_write-Moves s (bits i) (omega (arith, h)))
        (λ t c. write_loop-Moves bits t (suc i) n (omega (arith, h, c))))

jb_write_atom-Moves :
    (s : Jambuf) (k : Noun) (m n : ℕ)
    → bn_met k ≡ ok m
    → s.cur + n ≤ jam_max_limbs * 64
    → Moves (jb_write_atom s k n) s n
unfolding jb_write_atom bn_met
jb_write_atom-Moves s (direct v) m n e h = write_loop-Moves (bit v) s 0 n h
jb_write_atom-Moves s (indirect l) m n e h = write_loop-Moves (limb_bit l) s 0 n h
jb_write_atom-Moves s (cell x y) m n e h = absurd (ground (arith, e))

mat_fields-Moves :
    (s : Jambuf) (k : Noun) (m a b : ℕ)
    → bn_met k ≡ ok m
    → s.cur + (b + (1 + (b - 1 + a))) ≤ jam_max_limbs * 64
    → Moves (mat_fields s k a b) s (b + (1 + (b - 1 + a)))
unfolding mat_fields
mat_fields-Moves s k m a b e h =
    then-Moves (write_loop (λ i. 0) s 0 b) _ s b (1 + (b - 1 + a))
      (write_loop-Moves (λ i. 0) s 0 b (omega (arith, h)))
      (λ t c.
        then-Moves (jb_write t 1) _ t 1 (b - 1 + a) (jb_write-Moves t 1 (omega (arith, h, c)))
          (λ u c'.
            then-Moves (jb_write_n u a (b - 1)) _ u (b - 1) a
              (write_loop-Moves (bit a) u 0 (b - 1) (omega (arith, h, c, c')))
              (λ v c''. jb_write_atom-Moves v k m a e (omega (arith, h, c, c', c'')))))

u64_bits-pos : (a : ℕ) → 0 < u64_bits (suc a)
unfolding u64_bits
u64_bits-pos a = rw (suc-==-zero a) (omega arith)

fields_of-Moves :
    (s : Jambuf) (k : Noun) (a b : ℕ)
    → bn_met k ≡ ok a
    → 0 < b
    → s.cur + (2 * b + a) ≤ jam_max_limbs * 64
    → Moves (mat_fields s k a b) s (2 * b + a)
fields_of-Moves s k a b e p h =
    let same : b + (1 + (b - 1 + a)) ≡ 2 * b + a = omega (arith, p) in
    subst (Moves (mat_fields s k a b) s) same (mat_fields-Moves s k a a b e (omega (arith, h, p)))

mat_sized-Moves :
    (s : Jambuf) (k : Noun) (a : ℕ)
    → bn_met k ≡ ok a
    → s.cur + coded_len a ≤ jam_max_limbs * 64
    → Moves (mat_sized s k a) s (coded_len a)
unfolding mat_sized coded_len
mat_sized-Moves s k zero e h = jb_write-Moves s 1 h
mat_sized-Moves s k (suc a) e h =
    fields_of-Moves s k (suc a) (u64_bits (suc a)) e (u64_bits-pos a) h

-- `mat_len` is the number of bits that `do_mat` writes.
pub do_mat-Moves :
    (s : Jambuf) (k : Noun) (l : ℕ)
    → mat_len k ≡ ok l
    → s.cur + l ≤ jam_max_limbs * 64
    → Moves (do_mat s k) s l
unfolding do_mat mat_len
do_mat-Moves s k l e h =
    let m = >>=-eq-ok (bn_met k) _ e in
    let len : coded_len m.0 ≡ l = ok-injective m.2 in
    subst (λ o. Moves (o >>= mat_sized s k) s l) (sym m.1)
      (subst (Moves (mat_sized s k m.0) s) len
        (mat_sized-Moves s k m.0 m.1 (omega (arith, h, len))))

-- The same of the writes of `do_jam`, which leave the cache alone.
abbrev pub Extends : Outcome Jamming → Jamming → ℕ → Type 0
Extends o s n = (t : Jamming) × (o ≡ ok t) × (t.buf.cur ≡ s.buf.cur + n) × (t.cache ≡ s.cache)

step-Extends :
    (o : Outcome Jambuf) (k : Jambuf → Outcome Jamming) (s : Jamming) (m n : ℕ)
    → Moves o s.buf m
    → ((t : Jambuf) → t.cur ≡ s.buf.cur + m → Extends (k t) (record s { buf = t }) n)
    → Extends (o >>= k) s (m + n)
step-Extends o k s m n (t, e, c) f =
    let r = f t c in (r.0, ap (λ o. o >>= k) e ∙ r.1, omega (arith, c, r.2), r.3)

end-Extends : (s : Jamming) → Extends (ok s) s 0
end-Extends s = (s, refl, omega arith, refl)

pub emit_atom-Extends :
    (n : Noun) (s : Jamming) (l : ℕ)
    → mat_len n ≡ ok l
    → s.buf.cur + (1 + l) ≤ jam_max_limbs * 64
    → Extends (emit_atom n s) s (1 + (l + 0))
unfolding emit_atom
emit_atom-Extends n s l e h =
    step-Extends (jb_write s.buf 0) _ s 1 (l + 0) (jb_write-Moves s.buf 0 (omega (arith, h)))
      (λ t c.
        step-Extends (do_mat t n) _ (record s { buf = t }) l 0
          (do_mat-Moves t n l e (omega (arith, h, c))) (λ u c'. end-Extends (record s { buf = u })))

pub emit_ref-Extends :
    (pos : ℕ) (s : Jamming) (l : ℕ)
    → mat_len (direct pos) ≡ ok l
    → s.buf.cur + (2 + l) ≤ jam_max_limbs * 64
    → Extends (emit_ref pos s) s (1 + (1 + (l + 0)))
unfolding emit_ref
emit_ref-Extends pos s l e h =
    step-Extends (jb_write s.buf 1) _ s 1 (1 + (l + 0)) (jb_write-Moves s.buf 1 (omega (arith, h)))
      (λ t c.
        step-Extends (jb_write t 1) _ (record s { buf = t }) 1 (l + 0)
          (jb_write-Moves t 1 (omega (arith, h, c)))
          (λ u c'.
            step-Extends (do_mat u (direct pos)) _ (record s { buf = u }) l 0
              (do_mat-Moves u (direct pos) l e (omega (arith, h, c, c')))
              (λ v c''. end-Extends (record s { buf = v }))))

pub emit_cell-Extends :
    (s : Jamming) → s.buf.cur + 2 ≤ jam_max_limbs * 64 → Extends (emit_cell s) s (1 + (1 + 0))
unfolding emit_cell
emit_cell-Extends s h =
    step-Extends (jb_write s.buf 1) _ s 1 (1 + 0) (jb_write-Moves s.buf 1 (omega (arith, h)))
      (λ t c.
        step-Extends (jb_write t 0) _ (record s { buf = t }) 1 0
          (jb_write-Moves t 0 (omega (arith, h, c))) (λ u c'. end-Extends (record s { buf = u })))
