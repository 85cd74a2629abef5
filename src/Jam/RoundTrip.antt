-- ===== src/Jam/RoundTrip.antt =====
-- `cue` undoes `jam`.
use native.Mathlib.Nat.{pow-le-pow_right}
use trinitite.Base.{
  ℕ, zero, suc, ◌+◌, ◌*◌, ◌/◌, ◌^◌, ◌≤◌, ◌<◌, ◌≡◌, refl, ap, sym, subst, ◌∙◌, Bool, true, List,
  arith, length, length-replicate, replicate, ltb_of_le, if-cases, ◌==◌,
}
use trinitite.Base.Outcome.{ok, ◌>>=◌, >>=-eq-ok, ok-injective}
use trinitite.Noun.{Noun, direct, indirect, cell, is_atom}
use trinitite.Noun.Limbs.{limb_base, value, IsLimbs, value-take_small}
use trinitite.Noun.Atom.{val, IsAtom, Yields, make_atom, make_atom-Yields}
use trinitite.Bignum.Scratch.{bn_normalize}
use trinitite.Bignum.Shift.{limb_base-pow}
use trinitite.Jam.Bits.{bit, limb_bit_past}
use trinitite.Jam.Writer.{Jambuf, jb_init, IsBuf, jam_max_limbs}
use trinitite.Jam.Rub.{atom_bit_at, atom_bit_at-eq-bit}
use trinitite.Jam.Encode.{Held, noun_of, Jamming, jcache_init, do_jam, jam_encode, jam_limbs, jam}
use trinitite.Jam.Cache.{empty-Entries}
use trinitite.Jam.Decode.{ccache_init, atom_bits, cue_fuel, do_cue, cue, Cued}
use trinitite.Jam.Backrefs.{ccache_used-ccache_init}
use trinitite.Jam.Trace.{IsHeld, Ready, do_jam-Jams}
use trinitite.Jam.Known.{Known, size}
use trinitite.Jam.Replay.{decode}

zeros_value : (n : ℕ) → value (replicate n 0) ≡ 0
zeros_value zero = refl
zeros_value (suc n) = omega (arith, zeros_value n)

zeros_IsLimbs : (n : ℕ) → IsLimbs (replicate n 0)
zeros_IsLimbs zero = tt
zeros_IsLimbs (suc n) = (omega arith, zeros_IsLimbs n)

-- The state that `jam_encode` starts from.
abbrev pub started : Jamming
started = record { buf = jb_init; cache = jcache_init }

jb_init-IsBuf : IsBuf jb_init
unfolding jb_init
jb_init-IsBuf = record {
  limbs = zeros_IsLimbs jam_max_limbs;
  size = length-replicate {A = ℕ} jam_max_limbs 0;
  below = omega (arith, zeros_value jam_max_limbs);
  room = omega arith;
}

pub jb_init-cur : jb_init.cur ≡ 0
unfolding jb_init
jb_init-cur = refl

pub started-Ready : Ready started
started-Ready = record {
  buffer = jb_init-IsBuf;
  placed = empty-Entries (λ k pos. pos ≤ jam_max_limbs * 64);
}

jam_limbs_bounds :
    (bits : ℕ)
    → bits ≤ jam_max_limbs * 64
    → (0 < jam_limbs bits) × (jam_limbs bits ≤ jam_max_limbs) × (bits ≤ 64 * jam_limbs bits)
jam_limbs_bounds bits h =
    if-cases Fit ((bits + 63) / 64 == 0) (λ y. ground (arith, y)) (λ n. ground (arith, h, n))
  where
    Fit : ℕ → Type 0
    Fit k = (0 < k) × (k ≤ jam_max_limbs) × (bits ≤ 64 * k)

prefix-Yields :
    (l : List ℕ) (k : ℕ)
    → IsLimbs l
    → 0 < k
    → k ≤ length l
    → value l < limb_base ^ k
    → Yields (bn_normalize l k) (value l)
unfolding bn_normalize
prefix-Yields l zero il p q h = absurd (omega (arith, p))
prefix-Yields l (suc k) il p q h =
    subst (Yields (make_atom l (suc k))) (value-take_small (suc k) l h) (make_atom-Yields l k il q)

-- The atom of a buffer has the bits of the buffer.
pub buffer-Yields :
    (b : Jambuf) → IsBuf b → Yields (bn_normalize b.buf (jam_limbs b.cur)) (value b.buf)
buffer-Yields b h =
    let lim = jam_limbs_bounds b.cur h.room in
    let k = jam_limbs b.cur in
    prefix-Yields b.buf k h.limbs lim.0 (omega (arith, lim.1, h.size)) (
      omega (
        arith,
        h.below,
        limb_base-pow k,
        pow-le-pow_right {n = 2} (omega arith) {i = b.cur} {j = 64 * k} lim.2,
      ))

pub quiet : (a : Noun) (i : ℕ) → atom_bits a ≤ i → atom_bit_at a i ≡ 0
unfolding atom_bit_at
quiet (direct v) i h = rw (ltb_of_le i 63 (omega (arith, h))) refl
quiet (indirect l) i h = limb_bit_past l i h
quiet (cell x y) i h = refl

IsAtom-is_atom : (a : Noun) → IsAtom a → is_atom a ≡ true
IsAtom-is_atom (direct v) w = refl
IsAtom-is_atom (indirect l) w = refl
IsAtom-is_atom (cell x y) w = absurd w

cue-eq :
    (a : Noun)
    → IsAtom a
    → (s : Cued) → do_cue (cue_fuel a) a ccache_init 0 ≡ ok s
    → cue a ≡ ok s.noun
unfolding cue
cue-eq a w s e = rw (IsAtom-is_atom a w) (ap (λ o. o >>= λ s. ok s.noun) e)

-- A finished run of the encoder is read back from any atom that has the bits of its buffer.
cue_of_run :
    (identity : Bool) (content : ℕ → Noun) (h : Held) (s : Jamming) (a : Noun)
    → IsHeld content h
    → do_jam identity h started ≡ ok s
    → IsAtom a
    → val a ≡ value s.buf.buf
    → cue a ≡ ok (noun_of h)
cue_of_run identity content h s a w e ia same =
    let run = do_jam-Jams identity content h started s w started-Ready e in
    let d =
      decode content a identity (cue_fuel a) ccache_init w run.0
        (λ i lt. atom_bit_at-eq-bit a i ia ∙ ap (λ (t : ℕ). bit t i) same)
        (record {
          known = empty-Entries (Known content ccache_init started.buf.cur (size (noun_of h)));
          ready = omega (arith, ccache_used-ccache_init);
          some_fuel = omega arith;
          enough = omega arith;
          quiet = quiet a;
        }) in
    let end : Cued = record { noun = noun_of h; cur = s.buf.cur; cache = d.cache } in
    cue-eq a ia end (ap (do_cue (cue_fuel a) a ccache_init) (sym jb_init-cur) ∙ d.runs)

-- What `jam` returns, by structure or by identity, `cue` reads back as the noun that was jammed, if
-- each word of the noun stands for one noun and its atoms are in canonical form.
pub cue-jam :
    (identity : Bool) (content : ℕ → Noun) (h : Held) (a : Noun)
    → IsHeld content h
    → jam identity h ≡ ok a
    → cue a ≡ ok (noun_of h)
unfolding jam
cue-jam identity content h a w e =
    let encoded = >>=-eq-ok (jam_encode identity h) _ e in
    let run = >>=-eq-ok (do_jam identity h started) _ encoded.1 in
    let b = encoded.0 in
    let ready = (do_jam-Jams identity content h started run.0 w started-Ready run.1).1 in
    let buf : run.0.buf ≡ b = ok-injective run.2 in
    let y = buffer-Yields b (subst IsBuf buf ready.buffer) in
    let one : y.0 ≡ a = ok-injective (sym y.1 ∙ encoded.2) in
    cue_of_run identity content h run.0 a w run.1 (subst IsAtom one y.2)
      (ap val (sym one) ∙ y.3 ∙ ap (λ (b : Jambuf). value b.buf) (sym buf))
