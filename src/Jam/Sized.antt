-- ===== src/Jam/Sized.antt =====
-- `do_jam_len` is the length of what `do_jam` writes: where it finds that the bits fit, `do_jam`
-- succeeds and writes as many.
use trinitite.Base.{
  ℕ, ◌+◌, ◌-◌, ◌*◌, ◌%◌, ◌^◌, ◌≤◌, ◌≡◌, refl, ap, ap₂, sym, subst, ◌∙◌, Bool, true, false, not,
  Option, none, some, arith, leb, ltb, Bool-cases, inl, inr, if◌then◌else◌,
}
use trinitite.Base.Outcome.{Outcome, ok, ◌>>=◌, >>=-eq-ok, ok-injective}
use trinitite.Noun.{Noun, direct}
use trinitite.Bignum.Met.{bn_met}
use trinitite.Jam.Writer.{jam_max_limbs}
use trinitite.Jam.Mat.{u64_bits, mat_len}
use trinitite.Jam.Encode.{
  Held, held_atom, held_cell, Key, key_of, jcache_get, Jamming, remember, emit_atom, emit_ref,
  emit_cell, jam_known, jam_atom, jam_cell, do_jam,
}
use trinitite.Jam.Length.{
  Sizing, jam_len_add, size_atom, size_ref, size_known, size_entry, size_cell, do_jam_len,
}
use trinitite.Jam.Room.{Extends, emit_atom-Extends, emit_ref-Extends, emit_cell-Extends}

-- One round of each function.
do_jam_len-atom :
    (identity : Bool) (word : ℕ) (n : Noun) (z : Sizing)
    → do_jam_len identity (held_atom word n) z ≡ (
        if not z.fits
        then ok z
        else size_entry identity
            (key_of (held_atom word n))
            (jcache_get identity z.cache (key_of (held_atom word n)))
            z)
unfolding do_jam_len
do_jam_len-atom identity word n z = refl

do_jam_len-cell :
    (identity : Bool) (word : ℕ) (h t : Held) (z : Sizing)
    → do_jam_len identity (held_cell word h t) z ≡ (
        if not z.fits
        then ok z
        else size_cell identity
            (key_of (held_cell word h t))
            (do_jam_len identity h)
            (do_jam_len identity t)
            (jcache_get identity z.cache (key_of (held_cell word h t)))
            z)
unfolding do_jam_len
do_jam_len-cell identity word h t z = refl

do_jam-atom :
    (identity : Bool) (word : ℕ) (n : Noun) (s : Jamming)
    → do_jam identity (held_atom word n) s
      ≡ jam_atom identity
          (key_of (held_atom word n))
          (jcache_get identity s.cache (key_of (held_atom word n)))
          s
unfolding do_jam
do_jam-atom identity word n s = refl

do_jam-cell :
    (identity : Bool) (word : ℕ) (h t : Held) (s : Jamming)
    → do_jam identity (held_cell word h t) s
      ≡ jam_cell identity
          (key_of (held_cell word h t))
          (do_jam identity h)
          (do_jam identity t)
          (jcache_get identity s.cache (key_of (held_cell word h t)))
          s
unfolding do_jam
do_jam-cell identity word h t s = refl

-- The state of the count beside a state of the writer.
abbrev pub beside : ℕ → Jamming → Sizing
beside m s = record { len = s.buf.cur; max_bits = m; fits = true; cache = s.cache }

-- The count is still at the place of the writer after both.
abbrev pub Keeps : ℕ → Sizing → Outcome Jamming → Type 0
Keeps m z o = (t : Jamming) × (o ≡ ok t) × (z ≡ beside m t) × (t.buf.cur ≤ m)

module _ (m : ℕ) (bounded : m ≤ jam_max_limbs * 64) where
  -- What is added fits, and is added.
  len_added :
      (bits : ℕ) (s : Jamming)
      → s.buf.cur ≤ m
      → (jam_len_add bits (beside m s)).fits ≡ true
      → (s.buf.cur + bits ≤ m)
        × (jam_len_add bits (beside m s) ≡ record (beside m s) { len = s.buf.cur + bits })
  unfolding jam_len_add
  len_added bits s h f = elim (Bool-cases (ltb ((m + 2 ^ 64 - s.buf.cur) % 2 ^ 64) bits)) [
    | inl y ↦ absurd (ground (arith, rw y at f))
    | inr d ↦ (ground (arith, h, bounded, d), rw d refl)
  ]

  -- A write of as many bits keeps the count beside the writer.
  kept_by :
      (bits n : ℕ) (s : Jamming) (o : Outcome Jamming)
      → s.buf.cur ≤ m
      → (jam_len_add bits (beside m s)).fits ≡ true
      → n ≡ bits
      → (s.buf.cur + bits ≤ jam_max_limbs * 64 → Extends o s n)
      → Keeps m (jam_len_add bits (beside m s)) o
  kept_by bits n s o h f e w =
      let a = len_added bits s h f in
      let x = w (omega (arith, a.0, bounded)) in
      (
        x.0,
        x.1,
        a.1
            ∙ ap₂ (λ len cache. record { len = len; max_bits = m; fits = true; cache = cache })
                {x = s.buf.cur + bits} {y = x.0.buf.cur} (omega (arith, x.2, e)) (sym x.3),
        omega (arith, x.2, e, a.0),
      )

  size_atom-Keeps :
      (n : Noun) (s : Jamming) (z : Sizing)
      → s.buf.cur ≤ m
      → size_atom n (beside m s) ≡ ok z
      → z.fits ≡ true
      → Keeps m z (emit_atom n s)
  unfolding size_atom
  size_atom-Keeps n s z h e f =
      let l = >>=-eq-ok (mat_len n) _ e in
      let end : jam_len_add (1 + l.0) (beside m s) ≡ z = ok-injective l.2 in
      subst (λ z. Keeps m z (emit_atom n s)) end
        (kept_by (1 + l.0) (1 + (l.0 + 0)) s (emit_atom n s) h (ap (λ (z : Sizing). z.fits) end ∙ f)
          (omega arith) (emit_atom-Extends n s l.0 l.1))

  size_ref-Keeps :
      (pos : ℕ) (s : Jamming) (z : Sizing)
      → s.buf.cur ≤ m
      → size_ref pos (beside m s) ≡ ok z
      → z.fits ≡ true
      → Keeps m z (emit_ref pos s)
  unfolding size_ref
  size_ref-Keeps pos s z h e f =
      let l = >>=-eq-ok (mat_len (direct pos)) _ e in
      let end : jam_len_add (2 + l.0) (beside m s) ≡ z = ok-injective l.2 in
      subst (λ z. Keeps m z (emit_ref pos s)) end
        (kept_by (2 + l.0) (1 + (1 + (l.0 + 0))) s (emit_ref pos s) h
          (ap (λ (z : Sizing). z.fits) end ∙ f) (omega arith) (emit_ref-Extends pos s l.0 l.1))

  size_known-Keeps :
      (identity : Bool) (n : Key) (pos : ℕ) (s : Jamming) (z : Sizing)
      → s.buf.cur ≤ m
      → size_known identity n pos (beside m s) ≡ ok z
      → z.fits ≡ true
      → Keeps m z (jam_known identity n pos s)
  unfolding size_known jam_known
  size_known-Keeps true n pos s z h e f =
      let bits = >>=-eq-ok (bn_met n.noun) _ e in
      subst
        (λ o. Keeps m z (
          o >>= λ bits.
          if ltb bits (u64_bits pos) then emit_atom n.noun (remember true n s) else emit_ref pos s))
        (sym bits.1)
        (elim (Bool-cases (ltb bits.0 (u64_bits pos))) [
          | inl y ↦ rw y (size_atom-Keeps n.noun (remember true n s) z h (rw y at bits.2) f)
          | inr d ↦ rw d (size_ref-Keeps pos s z h (rw d at bits.2) f)
        ])
  size_known-Keeps false n pos s z h e f =
      let atom = >>=-eq-ok (mat_len n.noun) _ e in
      let ref = >>=-eq-ok (mat_len (direct pos)) _ atom.2 in
      subst (λ o. Keeps m z (o >>= λ atom. mat_len (direct pos) >>= shorter atom)) (sym atom.1)
        (subst (λ o. Keeps m z (o >>= shorter atom.0)) (sym ref.1)
          (elim (Bool-cases (leb (1 + atom.0) (2 + ref.0))) [
            | inl y ↦ rw y (
                size_atom-Keeps n.noun s z h
                  (counted 1 (mat_len n.noun) atom.0 atom.1 ∙ (rw y at ref.2)) f)
            | inr d ↦ rw d (
                size_ref-Keeps pos s z h
                  (counted 2 (mat_len (direct pos)) ref.0 ref.1 ∙ (rw d at ref.2)) f)
          ]))
    where
      shorter : ℕ → ℕ → Outcome Jamming
      shorter atom ref = if leb (1 + atom) (2 + ref) then emit_atom n.noun s else emit_ref pos s

      counted :
          (tag : ℕ) (o : Outcome ℕ) (l : ℕ)
          → o ≡ ok l
          → (o >>= λ l. ok (jam_len_add (tag + l) (beside m s)))
            ≡ ok (jam_len_add (tag + l) (beside m s))
      counted tag o l e = ap (λ o. o >>= λ l. ok (jam_len_add (tag + l) (beside m s))) e

  size_entry-Keeps :
      (identity : Bool) (word : ℕ) (n : Noun) (o : Option ℕ) (s : Jamming) (z : Sizing)
      → s.buf.cur ≤ m
      → size_entry identity (key_of (held_atom word n)) o (beside m s) ≡ ok z
      → z.fits ≡ true
      → Keeps m z (jam_atom identity (key_of (held_atom word n)) o s)
  unfolding size_entry jam_atom
  size_entry-Keeps identity word n none s z h e f =
      size_atom-Keeps n (remember identity (key_of (held_atom word n)) s) z h e f
  size_entry-Keeps identity word n (some pos) s z h e f =
      size_known-Keeps identity (key_of (held_atom word n)) pos s z h e f

  -- Once the bits do not fit, nothing is counted.
  stops :
      (identity : Bool) (h : Held) (z : Sizing) → z.fits ≡ false → do_jam_len identity h z ≡ ok z
  unfolding do_jam_len
  stops identity (held_atom word n) z e = rw e refl
  stops identity (held_cell word h t) z e = rw e refl

  -- A part of a cell, started with a count that fits or not.
  abbrev Counts : Bool → Held → Type 0
  Counts identity h =
      (s : Jamming) (z : Sizing)
      → s.buf.cur ≤ m
      → do_jam_len identity h (beside m s) ≡ ok z
      → z.fits ≡ true
      → Keeps m z (do_jam identity h s)

  fits_before :
      (identity : Bool) (h : Held) (z z' : Sizing)
      → do_jam_len identity h z ≡ ok z'
      → z'.fits ≡ true
      → z.fits ≡ true
  fits_before identity h z z' e f = elim (Bool-cases z.fits) [
    | inl y ↦ y
    | inr d ↦
        let same : z ≡ z' = ok-injective (sym (stops identity h z d) ∙ e) in
        ap (λ (z : Sizing). z.fits) same ∙ f
  ]

  size_cell-Keeps :
      (identity : Bool) (word : ℕ) (h t : Held) (o : Option ℕ) (s : Jamming) (z : Sizing)
      → Counts identity h
      → Counts identity t
      → s.buf.cur ≤ m
      → size_cell identity
          (key_of (held_cell word h t))
          (do_jam_len identity h)
          (do_jam_len identity t)
          o
          (beside m s)
        ≡ ok z
      → z.fits ≡ true
      → Keeps m z (
          jam_cell identity
            (key_of (held_cell word h t))
            (do_jam identity h)
            (do_jam identity t)
            o
            s)
  unfolding size_cell jam_cell
  size_cell-Keeps identity word h t (some pos) s z ih it le e f = size_ref-Keeps pos s z le e f
  size_cell-Keeps identity word h t none s z ih it le e f =
      let k = key_of (held_cell word h t) in
      let s₁ = remember identity k s in
      let z₁ = jam_len_add 2 (beside m s₁) in
      let left = >>=-eq-ok (do_jam_len identity h z₁) _ e in
      let fits₂ : left.0.fits ≡ true = fits_before identity t left.0 z left.2 f in
      let fits₁ : z₁.fits ≡ true = fits_before identity h z₁ left.0 left.1 fits₂ in
      let tag =
        kept_by 2 (1 + (1 + 0)) s₁ (emit_cell s₁) le fits₁ (omega arith) (emit_cell-Extends s₁) in
      let head = ih tag.0 left.0 tag.3 (ap (do_jam_len identity h) (sym tag.2) ∙ left.1) fits₂ in
      let tail = it head.0 z head.3 (ap (do_jam_len identity t) (sym head.2) ∙ left.2) f in
      (
        tail.0,
        ap (λ o. o >>= λ s. do_jam identity h s >>= λ s. do_jam identity t s) tag.1
            ∙ ap (λ o. o >>= λ s. do_jam identity t s) head.1
            ∙ tail.1,
        tail.2,
        tail.3,
      )

  -- Where the count fits in the end, `do_jam` succeeds, with as many bits and the same cache.
  pub do_jam_len-Keeps :
      (identity : Bool) (h : Held) (s : Jamming) (z : Sizing)
      → s.buf.cur ≤ m
      → do_jam_len identity h (beside m s) ≡ ok z
      → z.fits ≡ true
      → Keeps m z (do_jam identity h s)
  do_jam_len-Keeps identity (held_atom word n) s z le e f =
      let o = jcache_get identity s.cache (key_of (held_atom word n)) in
      subst (Keeps m z) (sym (do_jam-atom identity word n s)) (
        size_entry-Keeps identity word n o s z le
          (sym (do_jam_len-atom identity word n (beside m s)) ∙ e) f)
  do_jam_len-Keeps identity (held_cell word h t) s z le e f =
      let o = jcache_get identity s.cache (key_of (held_cell word h t)) in
      subst (Keeps m z) (sym (do_jam-cell identity word h t s)) (
        size_cell-Keeps identity word h t o s z (λ s z. do_jam_len-Keeps identity h s z)
          (λ s z. do_jam_len-Keeps identity t s z) le
          (sym (do_jam_len-cell identity word h t (beside m s)) ∙ e) f)
