-- ===== src/Jam/Decoded.antt =====
-- What the decoder has done when it has read one node: its result, the place it is at, and the nodes
-- that its cache has.
use trinitite.Base.{ℕ, suc, ◌+◌, ◌*◌, ◌≤◌, ◌<◌, ◌≡◌, ◌≢◌, ◌⊎◌, ap, sym, ◌∙◌, arith, inl, inr}
use trinitite.Base.Outcome.{Outcome, ok, ◌>>=◌}
use trinitite.Noun.{Noun, cell}
use trinitite.Jam.Writer.{jam_max_limbs}
use trinitite.Jam.Encode.{Key, Jamming}
use trinitite.Jam.Decode.{Ccache, Cued, ccache_get, ccache_put, do_cue, finish, cue_cell}
use trinitite.Jam.Backrefs.{
  ccache_used, ccache_get-ccache_put, ccache_get-ccache_put_ne, ccache_used-ccache_put,
}
use trinitite.Jam.Known.{Names, Closed, New, Adds}
use trinitite.Jam.Steps.{finish-ok, cue_cell-eq}

module _ (content : ℕ → Noun) (a : Noun) where
  -- The decoder has read the node of a run that goes from `s` to `t`, starting with the cache `c`.
  pub record Decoded (fuel : ℕ) (n : Noun) (s t : Jamming) (c : Ccache) : Type 1 where
    pub cache : Ccache
    pub runs : do_cue fuel a c s.buf.cur ≡ ok (record { noun = n; cur = t.buf.cur; cache = cache })
    pub grows : s.buf.cur < t.buf.cur
    pub load : 2 * ccache_used cache + s.buf.cur ≤ 2 * ccache_used c + t.buf.cur
    pub kept :
        (pos : ℕ) (m : Noun)
        → pos < s.buf.cur
        → ccache_get c pos ≡ ok m
        → ccache_get cache pos ≡ ok m
    pub closed : Adds content (Closed content cache s.buf.cur t.buf.cur) s.cache t.cache

  -- The put at the end of a call that read `n`, with at least two bits of its own.
  finishes :
      (fuel : ℕ) (n : Noun) (s t : Jamming) (c c₁ : Ccache) (body : Outcome Cued)
      → do_cue (suc fuel) a c s.buf.cur ≡ (body >>= finish s.buf.cur)
      → body ≡ ok (record { noun = n; cur = t.buf.cur; cache = c₁ })
      → 2 * ccache_used c₁ + (s.buf.cur + 2) ≤ 2 * ccache_used c + t.buf.cur
      → 2 * ccache_used c ≤ s.buf.cur
      → t.buf.cur ≤ jam_max_limbs * 64
      → (c' : Ccache) × (do_cue (suc fuel) a c s.buf.cur
          ≡ ok (record { noun = n; cur = t.buf.cur; cache = c' }))
        × (ccache_put c₁ s.buf.cur n ≡ ok c')
        × (2 * ccache_used c' + s.buf.cur ≤ 2 * ccache_used c + t.buf.cur)
  finishes fuel n s t c c₁ body e b load ready room =
      let r : Cued = record { noun = n; cur = t.buf.cur; cache = c₁ } in
      let f = finish-ok s.buf.cur r (omega (arith, load, ready, room)) in
      (
        f.0,
        e ∙ ap (λ o. o >>= finish s.buf.cur) b ∙ f.1,
        f.2,
        omega (arith, load, ccache_used-ccache_put c₁ s.buf.cur n f.2),
      )

  -- A node that makes no entry, or only its own, and reads no part.
  pub leaf :
      (fuel : ℕ) (n : Noun) (s t : Jamming) (c : Ccache) (body : Outcome Cued)
      → do_cue (suc fuel) a c s.buf.cur ≡ (body >>= finish s.buf.cur)
      → body ≡ ok (record { noun = n; cur = t.buf.cur; cache = c })
      → s.buf.cur + 2 ≤ t.buf.cur
      → 2 * ccache_used c ≤ s.buf.cur
      → t.buf.cur ≤ jam_max_limbs * 64
      → Adds content (New content n s.buf.cur) s.cache t.cache
      → Decoded (suc fuel) n s t c
  leaf fuel n s t c body e b grows ready room entries =
      let f = finishes fuel n s t c c body e b (omega (arith, grows)) ready room in
      record {
        cache = f.0;
        runs = f.1;
        grows = omega (arith, grows);
        load = f.3;
        kept = λ pos m lt g.
            ccache_get-ccache_put_ne c s.buf.cur pos n m (λ p. omega (arith, lt, p)) g f.2;
        closed = λ P named p i k pos at. elim (entries P named p i k pos at) [
          | inl q ↦ inl q
          | inr q ↦ inr (
            q.0,
            omega (arith, q.2),
            omega (arith, q.2, grows),
            ap (ccache_get f.0) q.2 ∙ ccache_get-ccache_put c s.buf.cur n f.2 ∙ ap ok (sym q.1),
          )
        ];
      }

  -- A cell whose head and tail are read, after its put.
  put_cell :
      (fuel : ℕ) (h t : Noun) (s u v w : Jamming) (c c' : Ccache)
      → u.buf.cur ≡ s.buf.cur + 2
      → (d : Decoded fuel h u v c) → (d' : Decoded fuel t v w d.cache)
      → do_cue (suc fuel) a c s.buf.cur
        ≡ ok (record { noun = cell h t; cur = w.buf.cur; cache = c' })
      → ccache_put d'.cache s.buf.cur (cell h t) ≡ ok c'
      → 2 * ccache_used c' + s.buf.cur ≤ 2 * ccache_used c + w.buf.cur
      → Adds content (New content (cell h t) s.buf.cur) s.cache u.cache
      → Decoded (suc fuel) (cell h t) s w c
  put_cell fuel h t s u v w c c' two d d' runs put load entries = record {
    cache = c';
    runs = runs;
    grows = omega (arith, two, d.grows, d'.grows);
    load = load;
    kept = λ pos m lt g.
        later pos m (omega (arith, lt)) (omega (arith, lt, two, d.grows))
          (d.kept pos m (omega (arith, lt, two)) g);
    closed = λ P named p i k pos at.
        let old =
          d'.closed (Parts P) (parts_named P named)
            (d.closed (Own P) (own_named P named) (entries P named p)) i k pos at in
        placed P k pos old;
  }
    where
      -- What the head left is still there at the end.
      later :
          (pos : ℕ) (m : Noun)
          → pos ≢ s.buf.cur
          → pos < v.buf.cur
          → ccache_get d.cache pos ≡ ok m
          → ccache_get c' pos ≡ ok m
      later pos m ne lt g =
          ccache_get-ccache_put_ne d'.cache s.buf.cur pos (cell h t) m (λ p. ne (sym p))
            (d'.kept pos m lt g) put

      Own : (Key → ℕ → Type 0) → Key → ℕ → Type 0
      Own P k pos = P k pos ⊎ New content (cell h t) s.buf.cur k pos

      Parts : (Key → ℕ → Type 0) → Key → ℕ → Type 0
      Parts P k pos = Own P k pos ⊎ Closed content d.cache u.buf.cur v.buf.cur k pos

      own_named :
          (P : Key → ℕ → Type 0)
          → ((k : Key) (pos : ℕ) → P k pos → Names content k)
          → (k : Key) (pos : ℕ) → Own P k pos
          → Names content k
      own_named P named k pos (inl q) = named k pos q
      own_named P named k pos (inr q) = q.0

      parts_named :
          (P : Key → ℕ → Type 0)
          → ((k : Key) (pos : ℕ) → P k pos → Names content k)
          → (k : Key) (pos : ℕ) → Parts P k pos
          → Names content k
      parts_named P named k pos (inl q) = own_named P named k pos q
      parts_named P named k pos (inr q) = q.0

      placed :
          (P : Key → ℕ → Type 0) (k : Key) (pos : ℕ)
          → (Parts P k pos ⊎ Closed content d'.cache v.buf.cur w.buf.cur k pos)
          → (P k pos ⊎ Closed content c' s.buf.cur w.buf.cur k pos)
      placed P k pos (inl (inl (inl q))) = inl q
      placed P k pos (inl (inl (inr q))) = inr (
        q.0,
        omega (arith, q.2),
        omega (arith, q.2, two, d.grows, d'.grows),
        ap (ccache_get c') q.2
            ∙ ccache_get-ccache_put d'.cache s.buf.cur (cell h t) put
            ∙ ap ok (sym q.1),
      )
      placed P k pos (inl (inr q)) = inr (
        q.0,
        omega (arith, q.1, two),
        omega (arith, q.2, d'.grows),
        later pos k.noun (λ p. omega (arith, q.1, two, p)) q.2 q.3,
      )
      placed P k pos (inr q) = inr (
        q.0,
        omega (arith, q.1, two, d.grows),
        q.2,
        ccache_get-ccache_put_ne d'.cache s.buf.cur pos (cell h t) k.noun
            (λ p. omega (arith, q.1, two, d.grows, p)) q.3 put,
      )

  -- A cell, from what the head and the tail give.
  pub branch :
      (fuel : ℕ) (h t : Noun) (s u v w : Jamming) (c : Ccache)
      → do_cue (suc fuel) a c s.buf.cur
        ≡ (cue_cell (do_cue fuel a) c u.buf.cur >>= finish s.buf.cur)
      → u.buf.cur ≡ s.buf.cur + 2
      → (d : Decoded fuel h u v c) → Decoded fuel t v w d.cache
      → 2 * ccache_used c ≤ s.buf.cur
      → w.buf.cur ≤ jam_max_limbs * 64
      → Adds content (New content (cell h t) s.buf.cur) s.cache u.cache
      → Decoded (suc fuel) (cell h t) s w c
  branch fuel h t s u v w c e two d d' ready room entries =
      let hc : Cued = record { noun = h; cur = v.buf.cur; cache = d.cache } in
      let tc : Cued = record { noun = t; cur = w.buf.cur; cache = d'.cache } in
      let f =
        finishes fuel (cell h t) s w c d'.cache (cue_cell (do_cue fuel a) c u.buf.cur) e
          (cue_cell-eq (do_cue fuel a) c u.buf.cur hc tc d.runs d'.runs)
          (omega (arith, d.load, d'.load, two)) ready room in
      put_cell fuel h t s u v w c f.0 two d d' f.1 f.2 f.3 entries
