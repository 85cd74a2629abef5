-- ===== src/Jam/Backrefs.antt =====
-- The cache of `cue`: what was put at a position is found there, and it fills no faster than one
-- slot for each put.

use trinitite.Base.{
  ℕ, zero, suc, ◌≤◌, ◌<◌, ◌≡◌, ◌≢◌, refl, ap, sym, subst, ◌∙◌, Bool, true, false, Option, some,
  arith, ◌==◌, ==-refl, ==_of_ne, ==_iff,
}
use trinitite.Base.Outcome.{ok, ok-injective}
use trinitite.Noun.{Noun}
use trinitite.Jam.Probe.{
  Found, hit, free, full, write_slot, used_below, Ends, Lands, probe-Ends, probe-put, probe-other,
}
use trinitite.Jam.Count.{probe-ends, used_below-write}
use trinitite.Jam.Decode.{
  Ccache, ccache_init, ccache_hash, ccache_probe, ccache_write, ccache_put, ccache_get, noun_found,
  cue_cache_size,
}

-- The used slots of the cache.
unfoldable pub ccache_used : Ccache → ℕ
ccache_used c = used_below c cue_cache_size

abbrev at_pos : ℕ → ℕ → Bool
at_pos pos k = k == pos

ccache_hash-lt : (pos : ℕ) → ccache_hash pos < cue_cache_size
unfolding ccache_hash
ccache_hash-lt pos = omega arith

same_entry :
    (c : Ccache) (i pos k : ℕ) (v : Noun)
    → c i ≡ some (k, v)
    → (k == pos) ≡ true
    → (k' : ℕ) (m : Noun) → c i ≡ some (k', m)
    → (k' == pos) ≡ true
same_entry c i pos k v e y k' m e' =
    let both : ◌≡◌ {A = Option (ℕ × Noun)} (some (k, v)) (some (k', m)) = sym e ∙ e' in
    let one : k ≡ k' = cc in subst (λ (t : ℕ). (t == pos) ≡ true) one y

-- Where a put that succeeds writes.
write-Lands :
    (c : Ccache) (pos : ℕ) (n : Noun) (f : Found ℕ Noun) {c' : Ccache}
    → Ends (at_pos pos) cue_cache_size (ccache_hash pos) c f
    → ccache_write c pos n f ≡ ok c'
    → (i : ℕ) × Lands (at_pos pos) cue_cache_size (ccache_hash pos) f i
      × (c' ≡ write_slot c i (pos, n))
      × ((k : ℕ) (m : Noun) → c i ≡ some (k, m) → (k == pos) ≡ true)
write-Lands c pos n (hit i k v) d e =
    (i, refl, sym (ok-injective e), λ k' m e'. same_entry c i pos k v d.0 d.1 k' m e')
write-Lands c pos n (free i) d e =
    (i, refl, sym (ok-injective e), λ k' m e'. absurd (ground (arith, sym d ∙ e')))
write-Lands c pos n full d e = absurd (ground (arith, e))

put-Lands :
    (c : Ccache) (pos : ℕ) (n : Noun) {c' : Ccache}
    → ccache_put c pos n ≡ ok c'
    → (i : ℕ) × Lands (at_pos pos) cue_cache_size (ccache_hash pos) (ccache_probe c pos) i
      × (c' ≡ write_slot c i (pos, n))
      × ((k : ℕ) (m : Noun) → c i ≡ some (k, m) → (k == pos) ≡ true)
unfolding ccache_put
put-Lands c pos n e =
    write-Lands c pos n (ccache_probe c pos)
      (probe-Ends (at_pos pos) cue_cache_size (ccache_hash pos) c 0 cue_cache_size) e

-- What is put at a position is found there.
pub ccache_get-ccache_put :
    (c : Ccache) (pos : ℕ) (n : Noun) {c' : Ccache}
    → ccache_put c pos n ≡ ok c'
    → ccache_get c' pos ≡ ok n
unfolding ccache_get
ccache_get-ccache_put c pos n {c'} e =
    let l = put-Lands c pos n e in
    subst (λ c'. ccache_get c' pos ≡ ok n) (sym l.2)
      (ap noun_found (
        probe-put (at_pos pos) cue_cache_size (ccache_hash pos) c l.0 pos n 0 cue_cache_size
          (==-refl pos) l.1))

get-hit : (f : Found ℕ Noun) (m : Noun) → noun_found f ≡ ok m → (i : ℕ) × (k : ℕ) × (f ≡ hit i k m)
get-hit (hit i k v) m e = (i, k, ap (hit i k) (ok-injective e))
get-hit (free i) m e = absurd (ground (arith, e))
get-hit full m e = absurd (ground (arith, e))

-- A put at one position changes nothing that is found at another.
pub ccache_get-ccache_put_ne :
    (c : Ccache) (pos q : ℕ) (n m : Noun) {c' : Ccache}
    → pos ≢ q
    → ccache_get c q ≡ ok m
    → ccache_put c pos n ≡ ok c'
    → ccache_get c' q ≡ ok m
unfolding ccache_get
ccache_get-ccache_put_ne c pos q n m {c'} d g e =
    let l = put-Lands c pos n e in
    let h = get-hit (ccache_probe c q) m g in
    subst (λ c'. ccache_get c' q ≡ ok m) (sym l.2)
      (ap noun_found (
        probe-other (at_pos q) cue_cache_size (ccache_hash q) c l.0 pos n 0 cue_cache_size h.0 h.1 m
          (==_of_ne pos q d) (λ k v e'. apart k (l.3 k v e')) h.2))
  where
    apart : (k : ℕ) → (k == pos) ≡ true → (k == q) ≡ false
    apart k y = ==_of_ne k q (λ p. d (sym ((==_iff k pos).0 y) ∙ p))

put_total :
    (c : Ccache) (pos : ℕ) (n : Noun) (f : Found ℕ Noun)
    → f ≢ full
    → (c' : Ccache) × (ccache_write c pos n f ≡ ok c')
put_total c pos n (hit i k v) d = (write_slot c i (pos, n), refl)
put_total c pos n (free i) d = (write_slot c i (pos, n), refl)
put_total c pos n full d = absurd (d refl)

-- A cache with a free slot takes every put.
pub ccache_put-ok :
    (c : Ccache) (pos : ℕ) (n : Noun)
    → ccache_used c < cue_cache_size
    → (c' : Ccache) × (ccache_put c pos n ≡ ok c')
unfolding ccache_put ccache_used
ccache_put-ok c pos n h =
    put_total c pos n (ccache_probe c pos)
      (probe-ends (at_pos pos) cue_cache_size (ccache_hash pos) c (ccache_hash-lt pos) h)

pub ccache_used-ccache_put :
    (c : Ccache) (pos : ℕ) (n : Noun) {c' : Ccache}
    → ccache_put c pos n ≡ ok c'
    → ccache_used c' ≤ suc (ccache_used c)
unfolding ccache_used
ccache_used-ccache_put c pos n e =
    let l = put-Lands c pos n e in
    subst (λ (c' : Ccache). ccache_used c' ≤ suc (ccache_used c)) (sym l.2)
      (used_below-write (at_pos pos) cue_cache_size (ccache_hash pos) c l.0 cue_cache_size (pos, n))

used_below-empty : (n : ℕ) → used_below ccache_init n ≡ 0
unfolding used_below
used_below-empty zero = refl
used_below-empty (suc n) = omega (arith, used_below-empty n)

pub ccache_used-ccache_init : ccache_used ccache_init ≡ 0
unfolding ccache_used
ccache_used-ccache_init = used_below-empty cue_cache_size
