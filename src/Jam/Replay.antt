-- ===== src/Jam/Replay.antt =====
-- `do_cue` along a run of `do_jam`: it reads each node back, and its cache has the nodes that are
-- complete.
use trinitite.Base.{
  ℕ, zero, suc, ◌+◌, ◌*◌, ◌≤◌, ◌<◌, ◌≡◌, ◌⊎◌, Bool-cases, ltb, ltb→lt, refl, ap, sym, subst, ◌∙◌,
  Bool, some, [], ◌∷◌, arith, inl, inr,
}
use trinitite.Base.Outcome.{ok, ◌>>=◌}
use trinitite.Noun.{Noun, direct, cell}
use trinitite.Jam.Writer.{Agrees, jam_max_limbs}
use trinitite.Jam.Rub.{atom_bit_at}
use trinitite.Jam.Probe.{Entries}
use trinitite.Jam.Encode.{
  Held, held_atom, held_cell, noun_of, Key, key_of, Jcache, jcache_put, jcache_get, Jamming,
}
use trinitite.Jam.Cache.{jcache_get-eq-some}
use trinitite.Jam.Decode.{
  Ccache, ccache_get, do_cue, finish, cue_atom, cue_ref, cue_cell, atom_bits,
}
use trinitite.Jam.Backrefs.{ccache_used}
use trinitite.Jam.Trace.{IsHeld, Jams, enters, repeats, refers, descends}
use trinitite.Jam.Known.{
  size, key_of-noun, key_of-Names, same_key-noun, Names, Known, New, Adds, put-New, put-Known,
}
use trinitite.Jam.Steps.{
  do_cue-atom, do_cue-cell, do_cue-ref, Read, Codes-Read, cue_atom-eq, cue_ref-eq,
}
use trinitite.Jam.Decoded.{Decoded, leaf, branch}

-- A reader that finds what was written at the end finds what was written before.
Jams-Agrees :
    {identity : Bool} {h : Held} {s t : Jamming} (r : ℕ → ℕ)
    → Jams identity h s t
    → Agrees r t.buf
    → Agrees r s.buf × (t.buf.cur ≤ jam_max_limbs * 64)
Jams-Agrees r (enters word n s t a (m, b, hm, hb, e) c) g = ((e.kept r g).0, e.sound.room)
Jams-Agrees r (repeats word n s t a (m, b, hm, hb, e) c) g = ((e.kept r g).0, e.sound.room)
Jams-Agrees r (refers h pos s t at small (m, b, hm, hb, e) c) g = ((e.kept r g).0, e.sound.room)
Jams-Agrees r (descends word h t s u v w e c j j') g =
    let tail = Jams-Agrees r j' g in
    let head = Jams-Agrees r j tail.0 in ((e.kept r head.0).0, tail.1)

module _ (content : ℕ → Noun) (a : Noun) where
  -- What a call of the decoder needs to read the node of a run from `s`.
  pub record Waits (fuel : ℕ) (n : Noun) (s : Jamming) (c : Ccache) : Type 0 where
    pub known : Entries (Known content c s.buf.cur (size n)) s.cache.slots
    pub ready : 2 * ccache_used c ≤ s.buf.cur
    pub some_fuel : 0 < fuel
    pub enough : atom_bits a < fuel + s.buf.cur
    pub quiet : (i : ℕ) → atom_bits a ≤ i → atom_bit_at a i ≡ 0

  decode_atom :
      (fuel word : ℕ) (n : Noun) (s t : Jamming) (c : Ccache)
      → Read a (0 ∷ []) n s.buf t.buf
      → 2 * ccache_used c ≤ s.buf.cur
      → Adds content (New content n s.buf.cur) s.cache t.cache
      → Decoded content a (suc fuel) n s t c
  decode_atom fuel word n s t c r ready adds =
      leaf content a fuel n s t c (cue_atom a c (s.buf.cur + 1))
        (do_cue-atom a fuel c s.buf.cur r.tags.0)
        (cue_atom-eq a n c (s.buf.cur + 1) t.buf.cur r.atom) (omega (arith, r.grows)) ready r.room
        adds

  put-Adds :
      (identity : Bool) (k : Key) (n : Noun) (s t : Jamming)
      → Names content k
      → k.noun ≡ n
      → t.cache ≡ jcache_put identity s.cache k s.buf.cur
      → Adds content (New content n s.buf.cur) s.cache t.cache
  put-Adds identity k n s t named same e P names p =
      subst (λ n. Entries (λ k pos. P k pos ⊎ New content n s.buf.cur k pos) t.cache.slots) same
        (subst
          (λ (c : Jcache). Entries (λ q pos. P q pos ⊎ New content k.noun s.buf.cur q pos) c.slots)
          (sym e) (put-New content identity P s.cache k s.buf.cur names named p))

  same-Adds :
      (n : Noun) (s t : Jamming)
      → t.cache ≡ s.cache
      → Adds content (New content n s.buf.cur) s.cache t.cache
  same-Adds n s t e P names p =
      subst (λ (c : Jcache). Entries (λ q pos. P q pos ⊎ New content n s.buf.cur q pos) c.slots)
        (sym e) (λ i k pos at. inl (p i k pos at))

  -- A back-reference leads to a node that is complete.
  decode_ref :
      (identity : Bool) (fuel : ℕ) (h : Held) (pos : ℕ) (s t : Jamming) (c : Ccache)
      → IsHeld content h
      → jcache_get identity s.cache (key_of h) ≡ some pos
      → Read a (1 ∷ (1 ∷ [])) (direct pos) s.buf t.buf
      → t.cache ≡ s.cache
      → Waits (suc fuel) (noun_of h) s c
      → Decoded content a (suc fuel) (noun_of h) s t c
  decode_ref identity fuel h pos s t c w g r e q =
      let found =
        jcache_get-eq-some (Known content c s.buf.cur (size (noun_of h))) identity s.cache
          (key_of h) pos q.known g in
      let same : found.0.noun ≡ noun_of h =
        same_key-noun content identity (key_of h) found.0 (key_of-Names content h w) found.1.0
          found.2
        ∙ key_of-noun h in
      let got : ccache_get c pos ≡ ok (noun_of h) =
        found.1.2 (omega (arith, ap size same)) ∙ ap ok same in
      leaf content a fuel (noun_of h) s t c (cue_ref a c (s.buf.cur + 2))
        (do_cue-ref a fuel c s.buf.cur r.tags.0
          (subst (λ (i : ℕ). atom_bit_at a i ≡ 1) (omega arith) r.tags.1.0))
        (cue_ref-eq a (noun_of h) c pos (s.buf.cur + 2) t.buf.cur r.atom got)
        (omega (arith, r.grows)) q.ready r.room (same-Adds (noun_of h) s t e)

  -- A cell starts within the limbs, so fuel is left for its parts.
  fuel_left :
      (fuel : ℕ) (n : Noun) (s : Jamming) (c : Ccache)
      → Waits (suc fuel) n s c
      → atom_bit_at a s.buf.cur ≡ 1
      → 0 < fuel
  fuel_left fuel n s c q e = elim (Bool-cases (ltb s.buf.cur (atom_bits a))) [
    | inl y ↦ omega (arith, ltb→lt s.buf.cur (atom_bits a) y, q.enough)
    | inr d ↦ absurd (omega (arith, e, q.quiet s.buf.cur (ground (arith, d))))
  ]

  -- For a part of a cell, after the entry of the cell itself.
  part-Known :
      (identity : Bool) (k : Key) (part bound : ℕ) (s u : Jamming) (c : Ccache)
      → Names content k
      → u.cache ≡ jcache_put identity s.cache k s.buf.cur
      → u.buf.cur ≡ s.buf.cur + 2
      → part ≤ bound
      → part < size k.noun
      → Entries (Known content c s.buf.cur bound) s.cache.slots
      → Entries (Known content c u.buf.cur part) u.cache.slots
  part-Known identity k part bound s u c named e two le lt p =
      subst (λ (j : Jcache). Entries (Known content c u.buf.cur part) j.slots) (sym e)
        (put-Known content identity c s.cache k s.buf.cur u.buf.cur bound part named
          (omega (arith, two)) le lt p)

  -- After the head, for the tail.
  tail-Known :
      (fuel : ℕ) (h : Noun) (part : ℕ) (u v : Jamming) (c : Ccache)
      (d : Decoded content a fuel h u v c)
      → Entries (Known content c u.buf.cur part) u.cache.slots
      → Entries (Known content d.cache v.buf.cur part) v.cache.slots
  tail-Known fuel h part u v c d p i k pos at =
      elim (d.closed (Known content c u.buf.cur part) (λ k pos q. q.0) p i k pos at) [
        | inl q ↦ (q.0, omega (arith, q.1, d.grows), λ small. d.kept pos k.noun q.1 (q.2 small))
        | inr q ↦ (q.0, q.2, λ small. q.3)
      ]

  -- A run is read back, node by node.
  pub decode :
      (identity : Bool) (fuel : ℕ) {h : Held} {s t : Jamming} (c : Ccache)
      → IsHeld content h
      → Jams identity h s t
      → Agrees (atom_bit_at a) t.buf
      → Waits fuel (noun_of h) s c
      → Decoded content a fuel (noun_of h) s t c
  decode identity zero c w j g q = absurd (omega (arith, q.some_fuel))
  decode identity (suc f) c w (enters word n s t ia codes e) g q =
      decode_atom f word n s t c (Codes-Read a (0 ∷ []) n s.buf t.buf ia codes g) q.ready
        (put-Adds identity (key_of (held_atom word n)) n s t w.1 refl e)
  decode identity (suc f) c w (repeats word n s t ia codes e) g q =
      decode_atom f word n s t c (Codes-Read a (0 ∷ []) n s.buf t.buf ia codes g) q.ready
        (same-Adds n s t e)
  decode identity (suc f) c w (refers h pos s t at small codes e) g q =
      decode_ref identity f h pos s t c w at
        (Codes-Read a (1 ∷ (1 ∷ [])) (direct pos) s.buf t.buf small codes g) e q
  decode identity (suc f) c w (descends word h t s u v x e put j j') g q =
      let tail_g = Jams-Agrees (atom_bit_at a) j' g in
      let head_g = Jams-Agrees (atom_bit_at a) j tail_g.0 in
      let tags = e.kept (atom_bit_at a) head_g.0 in
      let k = key_of (held_cell word h t) in
      let n = cell (noun_of h) (noun_of t) in
      let two : u.buf.cur ≡ s.buf.cur + 2 = e.moved in
      let left = fuel_left f n s c q tags.1.0 in
      let part : (part : ℕ)
          → part < size n
          → Entries (Known content c u.buf.cur part) u.cache.slots =
        λ part lt.
          part-Known identity k part (size n) s u c w.0 put two (omega (arith, lt)) lt q.known in
      let head : Decoded content a f (noun_of h) u v c =
        decode identity f c w.1 j tail_g.0 (record {
          known = part (size (noun_of h)) (omega arith);
          ready = omega (arith, q.ready, two);
          some_fuel = left;
          enough = omega (arith, q.enough, two);
          quiet = q.quiet;
        }) in
      let tail : Decoded content a f (noun_of t) v x head.cache =
        decode identity f head.cache w.2 j' g (record {
          known =
              tail-Known f (noun_of h) (size (noun_of t)) u v c head
                (part (size (noun_of t)) (omega arith));
          ready = omega (arith, head.load, q.ready, two);
          some_fuel = left;
          enough = omega (arith, q.enough, two, head.grows);
          quiet = q.quiet;
        }) in
      branch content a f (noun_of h) (noun_of t) s u v x c
        (do_cue-cell a f c s.buf.cur tags.1.0
            (subst (λ (i : ℕ). atom_bit_at a i ≡ 0) (omega arith) tags.1.1.0)
          ∙ ap (λ (i : ℕ). cue_cell (do_cue f a) c i >>= finish s.buf.cur) (sym two))
        two head tail q.ready tail_g.1 (put-Adds identity k n s u w.0 refl put)
