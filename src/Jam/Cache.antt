-- ===== src/Jam/Cache.antt =====
-- The cache of `jam`: every position that a lookup gives was put for the same noun.
use trinitite.Base.{
  ℕ, ◌≡◌, subst, Bool, true, Option, some, arith, Bool-cases, inl, inr, leb, ◌==◌, if◌then◌else◌,
  if-cases,
}
use trinitite.Jam.Probe.{Found, hit, free, full, Slots, write_slot, Entries, Ends, probe-Ends}
use trinitite.Jam.Encode.{
  Key, Jcache, jcache_init, jcache_get, jcache_put, jcache_probe, jcache_hash, jcache_write,
  position_found, same_key, jam_cache_size, jam_cache_admitted,
}

jcache_probe-Ends :
    (identity : Bool) (c : Jcache) (n : Key)
    → Ends
        (same_key identity n)
        jam_cache_size
        (jcache_hash n.word)
        c.slots
        (jcache_probe identity c n)
unfolding jcache_probe
jcache_probe-Ends identity c n =
    probe-Ends (same_key identity n) jam_cache_size (jcache_hash n.word) c.slots 0 jam_cache_size

module _ (P : Key → ℕ → Type 0) where
  position_found-of :
      (identity : Bool) (c : Jcache) (n : Key) (h pos : ℕ) (f : Found Key ℕ)
      → Entries P c.slots
      → Ends (same_key identity n) jam_cache_size h c.slots f
      → position_found f ≡ some pos
      → (k : Key) × P k pos × (same_key identity n k ≡ true)
  position_found-of identity c n h pos (hit i k v) p e q =
      let same : v ≡ pos = cc in (k, subst (P k) same (p i k v e.0), e.1)
  position_found-of identity c n h pos (free i) p e q = absurd (ground (arith, q))
  position_found-of identity c n h pos full p e q = absurd (ground (arith, q))

  -- A position that is found is that of an entry with the key.
  pub jcache_get-eq-some :
      (identity : Bool) (c : Jcache) (n : Key) (pos : ℕ)
      → Entries P c.slots
      → jcache_get identity c n ≡ some pos
      → (k : Key) × P k pos × (same_key identity n k ≡ true)
  unfolding jcache_get
  jcache_get-eq-some identity c n pos p e =
      position_found-of identity c n (jcache_hash n.word) pos (jcache_probe identity c n) p
        (jcache_probe-Ends identity c n) e

  module _ (Q : Key → ℕ → Type 0) (weaker : (k : Key) (v : ℕ) → P k v → Q k v) where
    write_slot-Entries :
        (slots : Slots Key ℕ) (i : ℕ) (k : Key) (pos : ℕ)
        → Entries P slots
        → Q k pos
        → Entries Q (write_slot slots i (k, pos))
    write_slot-Entries slots i k pos p q j k' v' e = elim (Bool-cases (j == i)) [
      | inl y ↦
          let put : ◌≡◌ {A = Option (Key × ℕ)} (some (k, pos)) (some (k', v')) =
            subst (λ b. (if b then some (k, pos) else slots j) ≡ some (k', v')) y e in
          let at_key : k ≡ k' = cc in
          let at_pos : pos ≡ v' = cc in subst (λ x. Q x v') at_key (subst (Q k) at_pos q)
      | inr d ↦
          weaker k' v'
            (p j k' v' (subst (λ b. (if b then some (k, pos) else slots j) ≡ some (k', v')) d e))
    ]

    jcache_write-Entries :
        (identity : Bool) (c : Jcache) (n : Key) (h pos : ℕ) (f : Found Key ℕ)
        → Entries P c.slots
        → Ends (same_key identity n) jam_cache_size h c.slots f
        → Q n pos
        → ((k : Key) (v : ℕ) → P k v → same_key identity n k ≡ true → Q k pos)
        → Entries Q (jcache_write c n pos f).slots
    jcache_write-Entries identity c n h pos (hit i k v) p e new old =
        write_slot-Entries c.slots i k pos p (old k v (p i k v e.0) e.1)
    jcache_write-Entries identity c n h pos (free i) p e new old =
        if-cases (λ (r : Jcache). Entries Q r.slots) (leb jam_cache_admitted c.used)
          (λ y. λ j k v e'. weaker k v (p j k v e')) (λ d. write_slot-Entries c.slots i n pos p new)
    jcache_write-Entries identity c n h pos full p e new old = λ j k v e'. weaker k v (p j k v e')

    pub jcache_put-Entries :
        (identity : Bool) (c : Jcache) (n : Key) (pos : ℕ)
        → Entries P c.slots
        → Q n pos
        → ((k : Key) (v : ℕ) → P k v → same_key identity n k ≡ true → Q k pos)
        → Entries Q (jcache_put identity c n pos).slots
    unfolding jcache_put
    jcache_put-Entries identity c n pos p new old =
        jcache_write-Entries identity c n (jcache_hash n.word) pos (jcache_probe identity c n) p
          (jcache_probe-Ends identity c n) new old

pub empty-Entries : (P : Key → ℕ → Type 0) → Entries P jcache_init.slots
unfolding jcache_init
empty-Entries P i k v e = absurd (ground (arith, e))
