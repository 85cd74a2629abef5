-- ===== src/Jam/Known.antt =====
-- What the entries of the cache of `jam` are to a reader: the position of a node that is complete
-- has its noun in the cache of `cue`, and the others are of cells that are still being written.
use trinitite.Base.{
  ℕ, suc, ◌+◌, ◌≤◌, ◌<◌, ◌≡◌, ◌⊎◌, refl, ap, sym, ◌∙◌, Bool, true, false, arith, inl, inr, ==_iff,
}
use trinitite.Base.Outcome.{ok}
use trinitite.Noun.{Noun, direct, indirect, cell}
use trinitite.Noun.Atom.{contents_eq_iff}
use trinitite.Jam.Probe.{Entries}
use trinitite.Jam.Encode.{
  Held, held_atom, held_cell, noun_of, Key, key_of, Jcache, jcache_put, same_key,
}
use trinitite.Jam.Cache.{jcache_put-Entries}
use trinitite.Jam.Decode.{Ccache, ccache_get}
use trinitite.Jam.Trace.{IsHeld}

abbrev pub size : Noun → ℕ
size (direct v) = 1
size (indirect l) = 1
size (cell h t) = suc (size h + size t)

pub key_of-noun : (h : Held) → (key_of h).noun ≡ noun_of h
key_of-noun (held_atom word n) = refl
key_of-noun (held_cell word h t) = refl

module _ (content : ℕ → Noun) where
  abbrev pub Names : Key → Type 0
  Names k = content k.word ≡ k.noun

  pub key_of-Names : (h : Held) → IsHeld content h → Names (key_of h)
  key_of-Names (held_atom word n) w = w.1
  key_of-Names (held_cell word h t) w = w.0

  -- A key that passes for another is of the same noun.
  pub same_key-noun :
      (identity : Bool) (n k : Key)
      → Names n
      → Names k
      → same_key identity n k ≡ true
      → k.noun ≡ n.noun
  same_key-noun true n k p q e = sym q ∙ ap content ((==_iff k.word n.word).0 e) ∙ p
  same_key-noun false n k p q e = (contents_eq_iff k.noun n.noun).0 e

  -- The entry is before `cur`, and if its noun is no larger than `bound`, `cue` has it.
  abbrev pub Known : Ccache → ℕ → ℕ → Key → ℕ → Type 0
  Known c cur bound k pos =
      Names k × (pos < cur) × (size k.noun ≤ bound → ccache_get c pos ≡ ok k.noun)

  -- The entry was made between `lo` and `hi`, and `cue` has it.
  abbrev pub Closed : Ccache → ℕ → ℕ → Key → ℕ → Type 0
  Closed c lo hi k pos = Names k × (lo ≤ pos) × (pos < hi) × (ccache_get c pos ≡ ok k.noun)

  -- The entry of the node itself.
  abbrev pub New : Noun → ℕ → Key → ℕ → Type 0
  New n cur k pos = Names k × (k.noun ≡ n) × (pos ≡ cur)

  -- A put makes one new entry, or gives an old one of the same noun the new position.
  pub put-New :
      (identity : Bool) (P : Key → ℕ → Type 0) (c : Jcache) (n : Key) (cur : ℕ)
      → ((k : Key) (pos : ℕ) → P k pos → Names k)
      → Names n
      → Entries P c.slots
      → Entries (λ k pos. P k pos ⊎ New n.noun cur k pos) (jcache_put identity c n cur).slots
  put-New identity P c n cur named p e =
      jcache_put-Entries P (λ k pos. P k pos ⊎ New n.noun cur k pos) (λ k pos q. inl q) identity c n
        cur e (inr (p, refl, refl))
        (λ k pos q y. inr (named k pos q, same_key-noun identity n k p (named k pos q) y, refl))

  -- For the parts of a cell its own entry is one that is not complete.
  pub put-Known :
      (identity : Bool) (c : Ccache) (j : Jcache) (n : Key) (cur next bound part : ℕ)
      → Names n
      → cur < next
      → part ≤ bound
      → part < size n.noun
      → Entries (Known c cur bound) j.slots
      → Entries (Known c next part) (jcache_put identity j n cur).slots
  put-Known identity c j n cur next bound part p lt le small e i k pos at =
      elim (put-New identity (Known c cur bound) j n cur (λ k pos q. q.0) p e i k pos at) [
        | inl q ↦ (q.0, omega (arith, q.1, lt), λ s. q.2 (omega (arith, s, le)))
        | inr q ↦ (q.0, omega (arith, q.2, lt), λ s. absurd (omega (arith, s, small, ap size q.1)))
      ]

  -- The entries of the second cache are those of the first, and such as satisfy `Q`.
  abbrev pub Adds : (Key → ℕ → Type 0) → Jcache → Jcache → Type 1
  Adds Q c c' =
      (P : Key → ℕ → Type 0)
      → ((k : Key) (pos : ℕ) → P k pos → Names k)
      → Entries P c.slots
      → Entries (λ k pos. P k pos ⊎ Q k pos) c'.slots
