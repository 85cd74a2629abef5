-- ===== src/Jam/Trace.antt =====
-- A run of `do_jam` as a relation: what it appends for each node, and what its cache then holds.
use trinitite.Base.{
  ℕ, ◌+◌, ◌*◌, ◌^◌, ◌≤◌, ◌<◌, ◌≡◌, refl, ap, sym, subst, Bool, true, false, Option, some, none,
  List, [], ◌∷◌, ◌++◌, arith, Bool-cases, inl, inr, ltb, leb,
}
use trinitite.Base.Outcome.{ok, >>=-eq-ok, ok-injective}
use trinitite.Noun.{Noun, direct, cell}
use trinitite.Noun.Atom.{val, IsAtom}
use trinitite.Bignum.Met.{bn_met, HasBits}
use trinitite.Jam.Writer.{
  Jambuf, jb_write, IsBuf, Emits, Emits-trans, jb_write-Emits, jam_max_limbs,
}
use trinitite.Jam.Mat.{u64_bits, mat_len, do_mat, mat_bits, do_mat-Emits}
use trinitite.Jam.Probe.{Entries}
use trinitite.Jam.Encode.{
  Held, held_atom, held_cell, noun_of, Key, key_of, Jcache, jcache_get, jcache_put, Jamming,
  remember, emit_atom, emit_ref, emit_cell, jam_known, jam_atom, jam_cell, do_jam,
}
use trinitite.Jam.Cache.{jcache_get-eq-some, jcache_put-Entries}

-- Each word stands for one noun, `content` of it, and the atoms are in canonical form.
abbrev pub IsHeld : (ℕ → Noun) → Held → Type 0
IsHeld content (held_atom word n) = IsAtom n × (content word ≡ n)
IsHeld content (held_cell word h t) =
    (content word ≡ cell (noun_of h) (noun_of t)) × IsHeld content h × IsHeld content t

-- Between the buffers stand a tag and the code of an atom.
abbrev pub Codes : List ℕ → Noun → Jambuf → Jambuf → Type 0
Codes tag n s t =
    (a : ℕ) × (b : ℕ) × HasBits (val n) a × HasBits a b × Emits s t (tag ++ mat_bits (val n) a b)

pub data Jams (identity : Bool) : Held → Jamming → Jamming → Type 0 where
  -- an atom that is entered in the cache and written
  enters :
      (word : ℕ) (n : Noun) (s t : Jamming)
      → IsAtom n
      → Codes (0 ∷ []) n s.buf t.buf
      → t.cache ≡ jcache_put identity s.cache (key_of (held_atom word n)) s.buf.cur
      → Jams identity (held_atom word n) s t
  -- an atom that is in the cache and is written again
  repeats :
      (word : ℕ) (n : Noun) (s t : Jamming)
      → IsAtom n
      → Codes (0 ∷ []) n s.buf t.buf
      → t.cache ≡ s.cache
      → Jams identity (held_atom word n) s t
  -- a back-reference to what the cache has
  refers :
      (h : Held) (pos : ℕ) (s t : Jamming)
      → jcache_get identity s.cache (key_of h) ≡ some pos
      → pos < 2 ^ 63
      → Codes (1 ∷ (1 ∷ [])) (direct pos) s.buf t.buf
      → t.cache ≡ s.cache
      → Jams identity h s t
  -- a cell that is entered in the cache, its head and its tail
  descends :
      (word : ℕ) (h t : Held) (s u v w : Jamming)
      → Emits s.buf u.buf (1 ∷ (0 ∷ []))
      → u.cache ≡ jcache_put identity s.cache (key_of (held_cell word h t)) s.buf.cur
      → Jams identity h u v
      → Jams identity t v w
      → Jams identity (held_cell word h t) s w

-- A call started well: no bit above the cursor, and all positions of the cache within the buffer.
pub record Ready (s : Jamming) : Type 0 where
  pub buffer : IsBuf s.buf
  pub placed : Entries (λ k pos. pos ≤ jam_max_limbs * 64) s.cache.slots

with_tag :
    (tag : List ℕ) (n : Noun) (s u t : Jambuf)
    → Emits s u tag
    → IsAtom n
    → do_mat u n ≡ ok t
    → Codes tag n s t
with_tag tag n s u t e a m =
    let code = do_mat-Emits u n e.sound a m in
    (code.0, code.1, code.2, code.3, Emits-trans e code.4)

emit_atom-Codes :
    (n : Noun) (s t : Jamming)
    → IsBuf s.buf
    → IsAtom n
    → emit_atom n s ≡ ok t
    → Codes (0 ∷ []) n s.buf t.buf × (t.cache ≡ s.cache)
unfolding emit_atom
emit_atom-Codes n s t h a e =
    let tag = >>=-eq-ok (jb_write s.buf 0) _ e in
    let code = >>=-eq-ok (do_mat tag.0 n) _ tag.2 in
    let end = ok-injective code.2 in
    (
      subst (λ (t : Jamming). Codes (0 ∷ []) n s.buf t.buf) end
          (with_tag (0 ∷ []) n s.buf tag.0 code.0 (jb_write-Emits s.buf 0 h (omega arith) tag.1) a
            code.1),
      sym (ap (λ (t : Jamming). t.cache) end),
    )

emit_ref-Codes :
    (pos : ℕ) (s t : Jamming)
    → IsBuf s.buf
    → pos < 2 ^ 63
    → emit_ref pos s ≡ ok t
    → Codes (1 ∷ (1 ∷ [])) (direct pos) s.buf t.buf × (t.cache ≡ s.cache)
unfolding emit_ref
emit_ref-Codes pos s t h p e =
    let one = >>=-eq-ok (jb_write s.buf 1) _ e in
    let two = >>=-eq-ok (jb_write one.0 1) _ one.2 in
    let code = >>=-eq-ok (do_mat two.0 (direct pos)) _ two.2 in
    let end = ok-injective code.2 in
    let first = jb_write-Emits s.buf 1 h (omega arith) one.1 in
    let second = jb_write-Emits one.0 1 first.sound (omega arith) two.1 in
    (
      subst (λ (t : Jamming). Codes (1 ∷ (1 ∷ [])) (direct pos) s.buf t.buf) end
          (with_tag (1 ∷ (1 ∷ [])) (direct pos) s.buf two.0 code.0 (Emits-trans first second) p
            code.1),
      sym (ap (λ (t : Jamming). t.cache) end),
    )

emit_cell-Emits :
    (s t : Jamming)
    → IsBuf s.buf
    → emit_cell s ≡ ok t
    → Emits s.buf t.buf (1 ∷ (0 ∷ [])) × (t.cache ≡ s.cache)
unfolding emit_cell
emit_cell-Emits s t h e =
    let one = >>=-eq-ok (jb_write s.buf 1) _ e in
    let two = >>=-eq-ok (jb_write one.0 0) _ one.2 in
    let end = ok-injective two.2 in
    let first = jb_write-Emits s.buf 1 h (omega arith) one.1 in
    let second = jb_write-Emits one.0 0 first.sound (omega arith) two.1 in
    (
      subst (λ (t : Jamming). Emits s.buf t.buf (1 ∷ (0 ∷ []))) end (Emits-trans first second),
      sym (ap (λ (t : Jamming). t.cache) end),
    )

Placed : Key → ℕ → Type 0
Placed k pos = pos ≤ jam_max_limbs * 64

Ready-remember : (identity : Bool) (n : Key) (s : Jamming) → Ready s → Ready (remember identity n s)
unfolding Placed
Ready-remember identity n s r = record {
  buffer = r.buffer;
  placed =
      jcache_put-Entries Placed Placed (λ k v p. p) identity s.cache n s.buf.cur r.placed
        r.buffer.room (λ k v p e. r.buffer.room);
}

Ready-keeps : (s t : Jamming) → Ready s → IsBuf t.buf → t.cache ≡ s.cache → Ready t
Ready-keeps s t r b e = record {
  buffer = b;
  placed =
      subst (λ (c : Jcache). Entries (λ k pos. pos ≤ jam_max_limbs * 64) c.slots) (sym e) r.placed;
}

-- A run, and a state from which the next one can start.
abbrev JamsTo : Bool → Held → Jamming → Jamming → Type 0
JamsTo identity h s t = Jams identity h s t × Ready t

module _ (identity : Bool) (word : ℕ) (n : Noun) (s t : Jamming) (r : Ready s) (a : IsAtom n) where
  enters-Ready :
      emit_atom n (remember identity (key_of (held_atom word n)) s) ≡ ok t
      → JamsTo identity (held_atom word n) s t
  enters-Ready e =
      let k = key_of (held_atom word n) in
      let m = emit_atom-Codes n (remember identity k s) t r.buffer a e in
      (
        enters word n s t a m.0 m.1,
        Ready-keeps (remember identity k s) t (Ready-remember identity k s r) m.0.4.sound m.1,
      )

  repeats-Ready : emit_atom n s ≡ ok t → JamsTo identity (held_atom word n) s t
  repeats-Ready e =
      let m = emit_atom-Codes n s t r.buffer a e in
      (repeats word n s t a m.0 m.1, Ready-keeps s t r m.0.4.sound m.1)

refers-Ready :
    (identity : Bool) (h : Held) (pos : ℕ) (s t : Jamming)
    → Ready s
    → jcache_get identity s.cache (key_of h) ≡ some pos
    → emit_ref pos s ≡ ok t
    → JamsTo identity h s t
refers-Ready identity h pos s t r g e =
    let found =
      jcache_get-eq-some (λ k pos. pos ≤ jam_max_limbs * 64) identity s.cache (key_of h) pos
        r.placed g in
    let small : pos < 2 ^ 63 = omega (arith, found.1) in
    let m = emit_ref-Codes pos s t r.buffer small e in
    (refers h pos s t g small m.0 m.1, Ready-keeps s t r m.0.4.sound m.1)

jam_known-Jams :
    (identity : Bool) (word : ℕ) (n : Noun) (pos : ℕ) (s t : Jamming)
    → Ready s
    → IsAtom n
    → jcache_get identity s.cache (key_of (held_atom word n)) ≡ some pos
    → jam_known identity (key_of (held_atom word n)) pos s ≡ ok t
    → JamsTo identity (held_atom word n) s t
unfolding jam_known
jam_known-Jams true word n pos s t r a g e =
    let m = >>=-eq-ok (bn_met n) _ e in
    elim (Bool-cases (ltb m.0 (u64_bits pos))) [
      | inl y ↦ enters-Ready true word n s t r a (rw y at m.2)
      | inr d ↦ refers-Ready true (held_atom word n) pos s t r g (rw d at m.2)
    ]
jam_known-Jams false word n pos s t r a g e =
    let atom = >>=-eq-ok (mat_len n) _ e in
    let ref = >>=-eq-ok (mat_len (direct pos)) _ atom.2 in
    elim (Bool-cases (leb (1 + atom.0) (2 + ref.0))) [
      | inl y ↦ repeats-Ready false word n s t r a (rw y at ref.2)
      | inr d ↦ refers-Ready false (held_atom word n) pos s t r g (rw d at ref.2)
    ]

jam_atom-Jams :
    (identity : Bool) (word : ℕ) (n : Noun) (o : Option ℕ) (s t : Jamming)
    → Ready s
    → IsAtom n
    → jcache_get identity s.cache (key_of (held_atom word n)) ≡ o
    → jam_atom identity (key_of (held_atom word n)) o s ≡ ok t
    → JamsTo identity (held_atom word n) s t
unfolding jam_atom
jam_atom-Jams identity word n none s t r a g e = enters-Ready identity word n s t r a e
jam_atom-Jams identity word n (some pos) s t r a g e =
    jam_known-Jams identity word n pos s t r a g e

-- What the runs for the head and the tail of a cell give.
abbrev Traces : Bool → Held → Type 0
Traces identity h = (s t : Jamming) → Ready s → do_jam identity h s ≡ ok t → JamsTo identity h s t

jam_cell-Jams :
    (identity : Bool) (word : ℕ) (h t : Held) (o : Option ℕ) (s w : Jamming)
    → Traces identity h
    → Traces identity t
    → Ready s
    → jcache_get identity s.cache (key_of (held_cell word h t)) ≡ o
    → jam_cell identity (key_of (held_cell word h t)) (do_jam identity h) (do_jam identity t) o s
      ≡ ok w
    → JamsTo identity (held_cell word h t) s w
unfolding jam_cell
jam_cell-Jams identity word h t none s w ih it r g e =
    let k = key_of (held_cell word h t) in
    let started = Ready-remember identity k s r in
    let tag = >>=-eq-ok (emit_cell (remember identity k s)) _ e in
    let left = >>=-eq-ok (do_jam identity h tag.0) _ tag.2 in
    let m = emit_cell-Emits (remember identity k s) tag.0 r.buffer tag.1 in
    let head =
      ih tag.0 left.0 (Ready-keeps (remember identity k s) tag.0 started m.0.sound m.1) left.1 in
    let tail = it left.0 w head.1 left.2 in
    (descends word h t s tag.0 left.0 w m.0 m.1 head.0 tail.0, tail.1)
jam_cell-Jams identity word h t (some pos) s w ih it r g e =
    refers-Ready identity (held_cell word h t) pos s w r g e

-- Every call of `do_jam` that returns is a run of the relation.
pub do_jam-Jams :
    (identity : Bool) (content : ℕ → Noun) (h : Held) (s t : Jamming)
    → IsHeld content h
    → Ready s
    → do_jam identity h s ≡ ok t
    → JamsTo identity h s t
unfolding do_jam
do_jam-Jams identity content (held_atom word n) s t w r e =
    jam_atom-Jams identity word n (jcache_get identity s.cache (key_of (held_atom word n))) s t r
      w.0 refl e
do_jam-Jams identity content (held_cell word h t) s v w r e =
    jam_cell-Jams identity word h t (jcache_get identity s.cache (key_of (held_cell word h t))) s v
      (λ s t. do_jam-Jams identity content h s t w.1)
      (λ s u. do_jam-Jams identity content t s u w.2) r refl e
