-- ===== src/Jam/Steps.antt =====
-- The branches of `do_cue`, each from the bits that it reads.
use trinitite.Base.{
  ℕ, zero, suc, ◌+◌, ◌*◌, ◌≤◌, ◌<◌, ◌≡◌, refl, ap, sym, ◌∙◌, List, arith, length, length-append,
}
use trinitite.Base.Outcome.{Outcome, ok, ◌>>=◌}
use trinitite.Noun.{Noun, direct, cell}
use trinitite.Noun.Atom.{val, IsAtom}
use trinitite.Jam.Writer.{Jambuf, Agrees, Reads, Reads-split, jam_max_limbs}
use trinitite.Jam.Mat.{mat_bits, length-mat_bits}
use trinitite.Jam.Rub.{atom_bit_at, do_rub, do_rub-eq}
use trinitite.Jam.Trace.{Codes}
use trinitite.Jam.Decode.{
  Ccache, Cued, ccache_get, ccache_put, cue_cache_size, do_cue, finish, cue_atom, cue_ref, cue_cell,
  referred,
}
use trinitite.Jam.Backrefs.{ccache_used, ccache_put-ok}

module _ (a : Noun) (f : ℕ) (c : Ccache) (cur : ℕ) where
  pub do_cue-atom :
      atom_bit_at a cur ≡ 0 → do_cue (suc f) a c cur ≡ (cue_atom a c (cur + 1) >>= finish cur)
  unfolding do_cue
  do_cue-atom e = rw e refl

  pub do_cue-cell :
      atom_bit_at a cur ≡ 1
      → atom_bit_at a (cur + 1) ≡ 0
      → do_cue (suc f) a c cur ≡ (cue_cell (do_cue f a) c (cur + 2) >>= finish cur)
  unfolding do_cue
  do_cue-cell e e' = rw (e, e') refl

  pub do_cue-ref :
      atom_bit_at a cur ≡ 1
      → atom_bit_at a (cur + 1) ≡ 1
      → do_cue (suc f) a c cur ≡ (cue_ref a c (cur + 2) >>= finish cur)
  unfolding do_cue
  do_cue-ref e e' = rw (e, e') refl

mat_bits_long : (v m b : ℕ) → (m ≤ length (mat_bits v m b)) × (0 < length (mat_bits v m b))
unfolding mat_bits
mat_bits_long v zero b = omega arith
mat_bits_long v (suc m) b = omega (arith, length-mat_bits v m b)

-- What the code of an atom behind a tag is to a reader that agrees with the buffer after it.
pub record Read (a : Noun) (tag : List ℕ) (n : Noun) (s t : Jambuf) : Type 0 where
  pub before : Agrees (atom_bit_at a) s
  pub tags : Reads (atom_bit_at a) s.cur tag
  pub atom : do_rub a (s.cur + length tag) ≡ ok (n, t.cur)
  pub grows : s.cur + length tag < t.cur
  pub room : t.cur ≤ jam_max_limbs * 64

pub Codes-Read :
    (a : Noun) (tag : List ℕ) (n : Noun) (s t : Jambuf)
    → IsAtom n
    → Codes tag n s t
    → Agrees (atom_bit_at a) t
    → Read a tag n s t
Codes-Read a tag n s t w (m, b, hm, hb, e) agrees =
    let code = mat_bits (val n) m b in
    let both = e.kept (atom_bit_at a) agrees in
    let parts = Reads-split (atom_bit_at a) s.cur tag code both.1 in
    let long = mat_bits_long (val n) m b in
    let total : t.cur ≡ s.cur + length tag + length code =
      omega (arith, e.moved, length-append tag code) in
    record {
      before = both.0;
      tags = parts.0;
      atom =
          do_rub-eq a n (s.cur + length tag) m b w hm hb
            (omega (arith, e.sound.room, total, long.0)) parts.1
          ∙ ap (λ (x : ℕ). ok (n, x)) (sym total);
      grows = omega (arith, total, long.1);
      room = e.sound.room;
    }

-- The put that ends a call, while the cache has room.
pub finish-ok :
    (start : ℕ) (s : Cued)
    → ccache_used s.cache < cue_cache_size
    → (c : Ccache) × (finish start s ≡ ok (record s { cache = c }))
      × (ccache_put s.cache start s.noun ≡ ok c)
unfolding finish
finish-ok start s h =
    let p = ccache_put-ok s.cache start s.noun h in
    (p.0, ap (λ o. o >>= λ c. ok (record s { cache = c })) p.1, p.1)

pub cue_atom-eq :
    (a n : Noun) (c : Ccache) (cur next : ℕ)
    → do_rub a cur ≡ ok (n, next)
    → cue_atom a c cur ≡ ok (record { noun = n; cur = next; cache = c })
unfolding cue_atom
cue_atom-eq a n c cur next e =
    ap (λ o. o >>= λ r. ok (record { noun = r.0; cur = r.1; cache = c })) e

pub cue_ref-eq :
    (a n : Noun) (c : Ccache) (pos cur next : ℕ)
    → do_rub a cur ≡ ok (direct pos, next)
    → ccache_get c pos ≡ ok n
    → cue_ref a c cur ≡ ok (record { noun = n; cur = next; cache = c })
unfolding cue_ref
cue_ref-eq a n c pos cur next e g =
    ap (λ o. o >>= referred c) e
    ∙ ap (λ o. o >>= λ n. ok (record { noun = n; cur = next; cache = c })) g

pub cue_cell-eq :
    (sub : Ccache → ℕ → Outcome Cued) (c : Ccache) (cur : ℕ) (h t : Cued)
    → sub c cur ≡ ok h
    → sub h.cache h.cur ≡ ok t
    → cue_cell sub c cur ≡ ok (record t { noun = cell h.noun t.noun })
unfolding cue_cell
cue_cell-eq sub c cur h t e e' =
    ap (λ o. o >>= λ h. sub h.cache h.cur >>= joined h) e ∙ ap (λ o. o >>= joined h) e'
  where
    joined : Cued → Cued → Outcome Cued
    joined h t = ok (record t { noun = cell h.noun t.noun })
