-- ===== src/BoundedCue/Atoms.antt =====
-- The lemmas on the parts of the bounded decoder that read atoms.
use trinitite.Base.{
  ℕ, zero, suc, ◌+◌, ◌-◌, ◌<◌, ◌≡◌, refl, Bool, true, false, not, ◌||◌, Option, none, some, List,
  arith, ltb, leb, ◌==◌, if-cases,
}
use trinitite.Noun.{Noun, direct, indirect, cell}
use trinitite.Noun.Atom.{make_atom_checked}
use trinitite.BoundedCue.Reader.{
  cue_atom, cue_alloc, cue_backref, is_cue_ok, Limits, Store, Reader, Res, ran, refused, spent,
  Action, ◌>>=◌, cache_get,
}
use trinitite.BoundedCue.Decode.{
  zeros_loop, length_loop, limbs_loop, count_bytes, atom_stored, make_noun, decode_atom_bits,
  decode_sized, decode_mat, or_backref, refer,
}
use trinitite.BoundedCue.Safe.{
  Within, Post, Safe, slacken, bind-Safe, refuse_if-Safe, guard-Safe, elim-Safe, charge-Safe,
  read_bit-Safe, cache_get-Safe,
}

module _ {S : Type 0} (store : Store S) (bytes : List ℕ) (bits : ℕ) (lim : Limits) where
  abbrev pub IsSafe : {A : Type 0} → Action S A → Type 0
  IsSafe act = Safe bytes bits lim act

  pub bind :
      {A B : Type 0} (act : Action S A) (f : A → Action S B)
      → IsSafe act
      → ((a : A) → IsSafe (f a))
      → IsSafe (act >>= f)
  bind act f p k = bind-Safe bytes bits lim act f p k

  -- The store is not measured.
  pub restored :
      (s : S) (r : Reader S) (slack : ℕ)
      → Within bytes bits lim slack r
      → Within bytes bits lim slack (record r { store = s })
  restored s r slack w = record {
    cur_in = w.cur_in;
    work_in = w.work_in;
    bytes_in = w.bytes_in;
    nodes_in = w.nodes_in;
    cells_in = w.cells_in;
    backrefs_in = w.backrefs_in;
    entries_in = w.entries_in;
    depth_in = w.depth_in;
    probe_in = w.probe_in;
    verdict = w.verdict;
  }

  zeros_loop-Safe :
      (left z : ℕ) → left + z ≡ 64 → 0 < left → IsSafe (zeros_loop store bytes bits lim left z)
  unfolding zeros_loop
  zeros_loop-Safe zero z e p = absurd (omega arith)
  zeros_loop-Safe (suc left) z e p = bind _ _ (read_bit-Safe bytes bits lim) (λ bit.
      elim-Safe bytes bits lim (not (bit == 0)) _ _ (λ r w. w)
        (guard-Safe bytes bits lim (ltb 63 (z + 1)) cue_atom _ refl
          (λ few. zeros_loop-Safe left (z + 1) (omega (arith, e)) (ground (arith, few, e)))))

  length_loop-Safe : (n i b : ℕ) → IsSafe (length_loop store bytes bits lim n i b)
  unfolding length_loop
  length_loop-Safe zero i b r w = w
  length_loop-Safe (suc n) i b r w =
      bind _ _ (read_bit-Safe bytes bits lim) (λ bit. length_loop-Safe n (i + 1) _) r w

  limbs_loop-Safe : (n i : ℕ) (limbs : List ℕ) → IsSafe (limbs_loop store bytes bits lim n i limbs)
  unfolding limbs_loop
  limbs_loop-Safe zero i limbs r w = w
  limbs_loop-Safe (suc n) i limbs r w =
      bind _ _ (read_bit-Safe bytes bits lim) (λ bit. limbs_loop-Safe n (i + 1) _) r w

  count_bytes-Safe : (n : ℕ) → IsSafe (count_bytes store bytes bits lim n)
  unfolding count_bytes
  count_bytes-Safe n r w =
      if-cases (Post bytes bits lim)
        (ltb lim.max_total_atom_bytes n || ltb (lim.max_total_atom_bytes - n) r.total_atom_bytes)
        (λ e. slacken bytes bits lim cue_atom refl r w)
        (λ e. record {
          cur_in = w.cur_in;
          work_in = w.work_in;
          bytes_in = ground (arith, e);
          nodes_in = w.nodes_in;
          cells_in = w.cells_in;
          backrefs_in = w.backrefs_in;
          entries_in = w.entries_in;
          depth_in = w.depth_in;
          probe_in = w.probe_in;
          verdict = w.verdict;
        })

  atom_stored-Safe :
      (n : Option Noun) (b : Bool × S) → IsSafe (atom_stored store bytes bits lim n b)
  atom_stored-Safe none (b, s) r w = slacken bytes bits lim cue_alloc refl r w
  atom_stored-Safe (some n) (false, s) r w =
      restored s (record r { status = cue_alloc }) 1 (slacken bytes bits lim cue_alloc refl r w)
  atom_stored-Safe (some n) (true, s) r w = restored s r 0 w

  make_noun-Safe : (limbs : List ℕ) (size : ℕ) → IsSafe (make_noun store bytes bits lim limbs size)
  unfolding make_noun
  make_noun-Safe limbs size r w =
      atom_stored-Safe (make_atom_checked limbs size) (store.store_atom limbs size r.store) r w

  decode_atom_bits-Safe : (n : ℕ) → IsSafe (decode_atom_bits store bytes bits lim n)
  unfolding decode_atom_bits
  decode_atom_bits-Safe n = bind _ _ (refuse_if-Safe bytes bits lim _ cue_atom refl) (λ u.
      bind _ _ (count_bytes-Safe _) (λ v.
        bind _ _ (charge-Safe bytes bits lim _)
          (λ w. bind _ _ (limbs_loop-Safe n 0 _) (λ l. make_noun-Safe l _))))

  decode_sized-Safe : (z : ℕ) → IsSafe (decode_sized store bytes bits lim z)
  unfolding decode_sized
  decode_sized-Safe zero r w = w
  decode_sized-Safe (suc below) r w =
      bind _ _ (length_loop-Safe below 0 0) (λ b. decode_atom_bits-Safe _) r w

  pub decode_mat-Safe : IsSafe (decode_mat store bytes bits lim)
  unfolding decode_mat
  decode_mat-Safe = bind _ _ (zeros_loop-Safe 64 0 refl (omega arith)) decode_sized-Safe

  or_backref-Post :
      {A : Type 0} (x : Res A × Reader S)
      → Post bytes bits lim x
      → Post bytes bits lim (or_backref store bytes bits lim x)
  or_backref-Post (ran a, r) p = p
  or_backref-Post (refused, r) p =
      if-cases (Within bytes bits lim 1) (is_cue_ok r.status)
        (λ e. record {
          cur_in = p.cur_in;
          work_in = p.work_in;
          bytes_in = p.bytes_in;
          nodes_in = p.nodes_in;
          cells_in = p.cells_in;
          backrefs_in = p.backrefs_in;
          entries_in = p.entries_in;
          depth_in = p.depth_in;
          probe_in = p.probe_in;
          verdict = refl;
        })
        (λ e. p)
  or_backref-Post (spent, r) p = p

  pub or_backref-Safe :
      {A : Type 0} (act : Action S A)
      → IsSafe act
      → IsSafe (λ r. or_backref store bytes bits lim (act r))
  or_backref-Safe act p r w = or_backref-Post (act r) (p r w)

  pub refer-Safe : (start : ℕ) (ref : Noun) → IsSafe (refer store bytes bits lim start ref)
  refer-Safe start (direct pos) r w =
      bind _ _ (refuse_if-Safe bytes bits lim (leb start pos) cue_backref refl)
        (λ u. or_backref-Safe (cache_get bytes bits lim pos) (cache_get-Safe bytes bits lim pos)) r
        w
  refer-Safe start (indirect l) r w = slacken bytes bits lim cue_backref refl r w
  refer-Safe start (cell h t) r w = slacken bytes bits lim cue_backref refl r w
