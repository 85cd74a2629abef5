-- ===== src/Jam/Checked.antt =====
-- What the size check of jam.c promises to the encoders after it.
use trinitite.Base.{
  ℕ, ◌*◌, ◌/◌, ◌≤◌, ◌≡◌, refl, ap, sym, subst, ◌∙◌, Bool, true, not, ◌||◌, Option, none, some, List,
  arith, leb, leb→le, ltb, ltb_of_le, ==-refl, ◌⊎◌, Bool-cases, inl, inr, if◌then◌else◌, ◌==◌,
}
use trinitite.Base.Outcome.{ok, ◌>>=◌, >>=-eq-ok, ok-injective}
use trinitite.Noun.{Noun}
use trinitite.Noun.Limbs.{limb_max}
use trinitite.Bignum.Scratch.{bn_normalize}
use trinitite.Jam.Writer.{Jambuf, IsBuf}
use trinitite.Jam.Encode.{Held, noun_of, Jamming, jcache_init, do_jam, jam_encode, jam_limbs, jam}
use trinitite.Jam.Decode.{cue}
use trinitite.Jam.Length.{
  Sizing, do_jam_len, bytes_of, checked_size, jam_size_checked, jam_max_bytes, encoded_bytes,
  encode_checked, jam_encode_bytes_checked,
}
use trinitite.Jam.Sized.{beside, do_jam_len-Keeps}
use trinitite.Jam.Trace.{IsHeld, do_jam-Jams}
use trinitite.Jam.RoundTrip.{started, started-Ready, jb_init-cur, buffer-Yields, cue-jam}

checked_size-eq-some :
    (max k : ℕ) (z : Sizing)
    → checked_size max z ≡ some k
    → (z.fits ≡ true) × (bytes_of z.len ≡ k) × (k ≤ max)
checked_size-eq-some max k z e = elim (Bool-cases z.fits) [
  | inl y ↦ elim (Bool-cases (leb (bytes_of z.len) max)) [
    | inl w ↦
        let size : bytes_of z.len ≡ k = some_injective (rw (y, w) at e) in
        (y, size, subst (λ (t : ℕ). t ≤ max) size (leb→le (bytes_of z.len) max w))
    | inr n ↦ absurd (ground (arith, rw (y, n) at e))
  ]
  | inr n ↦ absurd (ground (arith, rw n at e))
]
  where
    some_injective : {a b : ℕ} → some a ≡ some b → a ≡ b
    some_injective h = cc

jam_encode-eq :
    (identity : Bool) (h : Held) (s : Jamming)
    → do_jam identity h started ≡ ok s
    → jam_encode identity h ≡ ok s.buf
unfolding jam_encode
jam_encode-eq identity h s e = ap (λ o. o >>= λ s. ok s.buf) e

written-IsBuf :
    (identity : Bool) (content : ℕ → Noun) (h : Held) (b : Jambuf)
    → IsHeld content h
    → jam_encode identity h ≡ ok b
    → IsBuf b
unfolding jam_encode
written-IsBuf identity content h b w e =
    let run = >>=-eq-ok (do_jam identity h started) (λ s. ok s.buf) e in
    subst IsBuf (ok-injective run.2)
      (do_jam-Jams identity content h started run.0 w started-Ready run.1).1.buffer

-- The count that the check starts with.
abbrev counting : ℕ → Sizing
counting max = record { len = 0; max_bits = max * 8; fits = true; cache = jcache_init }

size_of_count :
    (identity : Bool) (h : Held) (max : ℕ) (o : Option ℕ)
    → jam_size_checked identity h max ≡ ok o
    → (o ≡ none)
      ⊎ ((z : Sizing) × (do_jam_len identity h (counting max) ≡ ok z) × (checked_size max z ≡ o))
unfolding jam_size_checked
size_of_count identity h max o e = elim (Bool-cases ((max == 0) || ltb (limb_max / 8) max)) [
  | inl y ↦ inl (sym (ok-injective (rw y at e)))
  | inr d ↦
      let z =
        >>=-eq-ok (do_jam_len identity h (counting max)) (λ z. ok (checked_size max z))
          (rw d at e) in
      inr (z.0, z.1, ok-injective z.2)
]

-- If the check returns a size, under a bound of at most 131072 bytes, then `jam_encode` does not
-- crash, what it writes has this size, and the size is within the bound.
pub jam_size_checked-jam_encode :
    (identity : Bool) (h : Held) (max k : ℕ)
    → max ≤ jam_max_bytes
    → jam_size_checked identity h max ≡ ok (some k)
    → (b : Jambuf) × (jam_encode identity h ≡ ok b) × (bytes_of b.cur ≡ k) × (k ≤ max)
jam_size_checked-jam_encode identity h max k le e = elim (size_of_count identity h max (some k) e) [
  | inl n ↦ absurd (ground (arith, n))
  | inr (z, counted, checked) ↦
      let c = checked_size-eq-some max k z checked in
      let start : counting max ≡ beside (max * 8) started =
        ap (λ len. record { len = len; max_bits = max * 8; fits = true; cache = jcache_init })
          (sym jb_init-cur) in
      let run =
        do_jam_len-Keeps (max * 8) (omega (arith, le)) identity h started z
          (omega (arith, jb_init-cur)) (ap (do_jam_len identity h) (sym start) ∙ counted) c.0 in
      (
        run.0.buf,
        jam_encode-eq identity h run.0 run.1,
        ap (λ (z : Sizing). bytes_of z.len) (sym run.2) ∙ c.1,
        c.2,
      )
]

jam-ok :
    (identity : Bool) (content : ℕ → Noun) (h : Held) (b : Jambuf)
    → IsHeld content h
    → jam_encode identity h ≡ ok b
    → (a : Noun) × (jam identity h ≡ ok a)
unfolding jam
jam-ok identity content h b w e =
    let y = buffer-Yields b (written-IsBuf identity content h b w e) in
    (y.0, ap (λ o. o >>= λ b. bn_normalize b.buf (jam_limbs b.cur)) e ∙ y.1)

-- If each word of a noun stands for one noun, its atoms are in canonical form, and the check returns
-- a size under a bound of at most 131072 bytes, then `jam` returns an atom that `cue` reads back.
pub jam_size_checked-cue :
    (identity : Bool) (content : ℕ → Noun) (h : Held) (max k : ℕ)
    → IsHeld content h
    → max ≤ jam_max_bytes
    → jam_size_checked identity h max ≡ ok (some k)
    → (a : Noun) × (jam identity h ≡ ok a) × (cue a ≡ ok (noun_of h))
jam_size_checked-cue identity content h max k w le e =
    let encoded = jam_size_checked-jam_encode identity h max k le e in
    let returned = jam-ok identity content h encoded.0 w encoded.1 in
    (returned.0, returned.1, cue-jam identity content h returned.0 w returned.1)

abbrev unless : Bool → List ℕ × ℕ → Option (List ℕ × ℕ)
unless b x = if b then none else some x

-- The second look at the size finds nothing new: where the check with 131072 bytes returns a size,
-- `jam_encode_bytes_checked` returns the buffer of `jam_encode` with this size, and where the check
-- returns -1, so does it.
pub jam_encode_bytes_checked-eq :
    (identity : Bool) (h : Held) (o : Option ℕ)
    → jam_size_checked identity h jam_max_bytes ≡ ok o
    → ((o ≡ none) × (jam_encode_bytes_checked identity h ≡ ok none))
      ⊎ ((k : ℕ) × (b : Jambuf) × (o ≡ some k)
          × (jam_encode identity h ≡ ok b)
          × (jam_encode_bytes_checked identity h ≡ ok (some (b.buf, k))))
unfolding jam_encode_bytes_checked
jam_encode_bytes_checked-eq identity h none e =
    inl (refl, ap (λ o. o >>= encode_checked identity h) e)
jam_encode_bytes_checked-eq identity h (some k) e =
    let encoded = jam_size_checked-jam_encode identity h jam_max_bytes k (omega arith) e in
    let b = encoded.0 in
    inr (
      k,
      b,
      refl,
      encoded.1,
      ap (λ o. o >>= encode_checked identity h) e
          ∙ ap (λ o. o >>= λ b. ok (encoded_bytes k b)) encoded.1
          ∙ ap ok (all_bytes k b encoded.2 encoded.3),
    )
  where
    same :
        (b : Jambuf) (n : ℕ)
        → n ≤ jam_max_bytes
        → unless (not (n == n) || ltb jam_max_bytes n) (b.buf, n) ≡ some (b.buf, n)
    same b n h = rw (==-refl n, ltb_of_le jam_max_bytes n h) refl

    all_bytes :
        (k : ℕ) (b : Jambuf)
        → bytes_of b.cur ≡ k
        → k ≤ jam_max_bytes
        → encoded_bytes k b ≡ some (b.buf, k)
    all_bytes k b p q =
        subst (λ (k : ℕ). encoded_bytes k b ≡ some (b.buf, k)) p
          (same b (bytes_of b.cur) (omega (arith, p, q)))
