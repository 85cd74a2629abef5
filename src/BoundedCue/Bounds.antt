-- ===== src/BoundedCue/Bounds.antt =====
-- The lemmas on references, cells and nouns, and on the bounded decoder as a whole.
use trinitite.Base.{
  ℕ, zero, suc, ◌+◌, ◌-◌, ◌%◌, ◌^◌, ◌≤◌, ◌<◌, max, refl, Bool, true, false, not, List, arith, ltb,
  leb, ◌==◌, if-cases,
}
use trinitite.Noun.{Noun}
use trinitite.BoundedCue.Reader.{
  cue_alloc, cue_depth, cue_trailing, Limits, Store, ran, Action, pure, refuse_if, charge,
  cache_put,
}
use trinitite.BoundedCue.Decode.{
  decode_mat, decode_backref, cell_stored, count_backref, count_cell, note_depth, count_node,
  decode_cell, enter_noun, decode_noun, padding_loop, check_trailing, decode_all,
}
use trinitite.BoundedCue.Safe.{
  Within, Post, slacken, refuse_if-Safe, guard-Safe, elim-Safe, charge-Safe, read_bit-Safe,
  cache_put-Safe,
}
use trinitite.BoundedCue.Atoms.{
  IsSafe, bind, restored, or_backref-Safe, refer-Safe, decode_mat-Safe,
}

module _ {S : Type 0} (store : Store S) (bytes : List ℕ) (bits : ℕ) (lim : Limits) where
  -- A counter goes up by one, and the action stops there if that is past its limit.
  count_backref-Safe : IsSafe store bytes bits lim (count_backref store bytes bits lim)
  count_backref-Safe r w =
      if-cases (Post bytes bits lim) (ltb lim.max_backrefs ((r.backrefs + 1) % 2 ^ 32))
        (λ e. record {
          cur_in = w.cur_in;
          work_in = w.work_in;
          bytes_in = w.bytes_in;
          nodes_in = omega (arith, w.nodes_in);
          cells_in = omega (arith, w.cells_in);
          backrefs_in = omega (arith, w.backrefs_in);
          entries_in = w.entries_in;
          depth_in = w.depth_in;
          probe_in = w.probe_in;
          verdict = refl;
        })
        (λ e. record {
          cur_in = w.cur_in;
          work_in = w.work_in;
          bytes_in = w.bytes_in;
          nodes_in = w.nodes_in;
          cells_in = w.cells_in;
          backrefs_in = ground (arith, e);
          entries_in = w.entries_in;
          depth_in = w.depth_in;
          probe_in = w.probe_in;
          verdict = w.verdict;
        })

  count_cell-Safe : IsSafe store bytes bits lim (count_cell store bytes bits lim)
  count_cell-Safe r w =
      if-cases (Post bytes bits lim) (ltb lim.max_cells ((r.cells + 1) % 2 ^ 32))
        (λ e. record {
          cur_in = w.cur_in;
          work_in = w.work_in;
          bytes_in = w.bytes_in;
          nodes_in = omega (arith, w.nodes_in);
          cells_in = omega (arith, w.cells_in);
          backrefs_in = omega (arith, w.backrefs_in);
          entries_in = w.entries_in;
          depth_in = w.depth_in;
          probe_in = w.probe_in;
          verdict = refl;
        })
        (λ e. record {
          cur_in = w.cur_in;
          work_in = w.work_in;
          bytes_in = w.bytes_in;
          nodes_in = w.nodes_in;
          cells_in = ground (arith, e);
          backrefs_in = w.backrefs_in;
          entries_in = w.entries_in;
          depth_in = w.depth_in;
          probe_in = w.probe_in;
          verdict = w.verdict;
        })

  decode_backref-Safe :
      (start : ℕ) → IsSafe store bytes bits lim (decode_backref store bytes bits lim start)
  unfolding decode_backref
  decode_backref-Safe start = bind store bytes bits lim _ _ count_backref-Safe (λ u.
      bind store bytes bits lim _ _
        (or_backref-Safe store bytes bits lim (decode_mat store bytes bits lim)
          (decode_mat-Safe store bytes bits lim))
        (λ ref. refer-Safe store bytes bits lim start ref))

  cell_stored-Safe :
      (h t : Noun) (b : Bool × S)
      → IsSafe store bytes bits lim (cell_stored store bytes bits lim h t b)
  cell_stored-Safe h t (false, s) r w =
      restored store bytes bits lim s (record r { status = cue_alloc }) 1
        (slacken bytes bits lim cue_alloc refl r w)
  cell_stored-Safe h t (true, s) r w = restored store bytes bits lim s r 0 w

  decode_cell-Safe :
      (sub : Action S Noun) (depth : ℕ)
      → (depth < lim.max_depth → IsSafe store bytes bits lim sub)
      → IsSafe store bytes bits lim (decode_cell store bytes bits lim sub depth)
  unfolding decode_cell
  decode_cell-Safe sub depth p = bind store bytes bits lim _ _ count_cell-Safe (λ u.
      guard-Safe bytes bits lim (leb lim.max_depth depth) cue_depth _ refl (λ deep.
        let q : IsSafe store bytes bits lim sub = p (ground (arith, deep)) in
        bind store bytes bits lim _ _ q (λ h.
          bind store bytes bits lim _ _ q
            (λ t r w. cell_stored-Safe h t (store.store_cell h t r.store) r w))))

  note_depth-Safe :
      (depth : ℕ)
      → depth ≤ max 1 lim.max_depth
      → IsSafe store bytes bits lim (note_depth store bytes bits lim depth)
  note_depth-Safe depth l r w =
      if-cases (Within bytes bits lim 0) (ltb r.depth_hwm depth)
        (λ e. record {
          cur_in = w.cur_in;
          work_in = w.work_in;
          bytes_in = w.bytes_in;
          nodes_in = w.nodes_in;
          cells_in = w.cells_in;
          backrefs_in = w.backrefs_in;
          entries_in = w.entries_in;
          depth_in = l;
          probe_in = w.probe_in;
          verdict = w.verdict;
        })
        (λ e. w)

  count_node-Safe : IsSafe store bytes bits lim (count_node store bytes bits lim)
  count_node-Safe r w =
      if-cases (Post bytes bits lim) (ltb lim.max_nodes ((r.nodes + 1) % 2 ^ 32))
        (λ e. record {
          cur_in = w.cur_in;
          work_in = w.work_in;
          bytes_in = w.bytes_in;
          nodes_in = omega (arith, w.nodes_in);
          cells_in = omega (arith, w.cells_in);
          backrefs_in = omega (arith, w.backrefs_in);
          entries_in = w.entries_in;
          depth_in = w.depth_in;
          probe_in = w.probe_in;
          verdict = refl;
        })
        (λ e. record {
          cur_in = w.cur_in;
          work_in = w.work_in;
          bytes_in = w.bytes_in;
          nodes_in = ground (arith, e);
          cells_in = w.cells_in;
          backrefs_in = w.backrefs_in;
          entries_in = w.entries_in;
          depth_in = w.depth_in;
          probe_in = w.probe_in;
          verdict = w.verdict;
        })

  enter_noun-Safe :
      (depth : ℕ)
      → depth ≤ max 1 lim.max_depth
      → IsSafe store bytes bits lim (enter_noun store bytes bits lim depth)
  unfolding enter_noun
  enter_noun-Safe depth l =
      bind store bytes bits lim (note_depth store bytes bits lim depth) _ (note_depth-Safe depth l)
        (λ u.
          bind store bytes bits lim (refuse_if (ltb lim.max_depth depth) cue_depth) _
            (refuse_if-Safe bytes bits lim (ltb lim.max_depth depth) cue_depth refl)
            (λ v.
              bind store bytes bits lim (count_node store bytes bits lim) _ count_node-Safe (λ w.
                bind store bytes bits lim (charge bytes bits lim 1) (λ x r. (ran r.cur, r))
                  (charge-Safe bytes bits lim 1) (λ x r w. w))))

  decode_noun-Safe :
      (fuel depth : ℕ)
      → depth ≤ max 1 lim.max_depth
      → lim.max_depth + 2 ≤ fuel + depth
      → 0 < depth
      → IsSafe store bytes bits lim (decode_noun store bytes bits lim fuel depth)
  unfolding decode_noun
  decode_noun-Safe zero depth l f p = absurd (omega (arith, l, f, p))
  decode_noun-Safe (suc fuel) depth l f p =
      bind store bytes bits lim _ _ (enter_noun-Safe depth l) (λ start.
        bind store bytes bits lim _ _
          (bind store bytes bits lim _ _ (read_bit-Safe bytes bits lim) (λ tag0.
            elim-Safe bytes bits lim (tag0 == 0) _ _ (decode_mat-Safe store bytes bits lim) (
              bind store bytes bits lim _ _ (read_bit-Safe bytes bits lim) (λ tag1.
                elim-Safe bytes bits lim (tag1 == 0) _ _
                  (decode_cell-Safe (decode_noun store bytes bits lim fuel (depth + 1)) depth
                    (λ deep.
                      decode_noun-Safe fuel (depth + 1) (omega (arith, deep)) (omega (arith, f))
                        (omega arith)))
                  (decode_backref-Safe start)))))
          (λ result.
            bind store bytes bits lim (cache_put bytes bits lim start result) (λ u. pure result)
              (cache_put-Safe bytes bits lim start result) (λ u r w. w)))

  padding_loop-Safe : (n : ℕ) → IsSafe store bytes bits lim (padding_loop store bytes bits lim n)
  unfolding padding_loop
  padding_loop-Safe zero r w = w
  padding_loop-Safe (suc n) r w =
      bind store bytes bits lim _ _ (read_bit-Safe bytes bits lim)
        (λ bit.
          bind store bytes bits lim _ _
            (refuse_if-Safe bytes bits lim (not (bit == 0)) cue_trailing refl)
            (λ u. padding_loop-Safe n))
        r w

  check_trailing-Safe : IsSafe store bytes bits lim (check_trailing store bytes bits lim)
  unfolding check_trailing
  check_trailing-Safe r w =
      if-cases (Post bytes bits lim) (ltb 7 (bits - r.cur))
        (λ e. slacken bytes bits lim cue_trailing refl r w)
        (λ e. padding_loop-Safe (bits - r.cur) r w)

  -- From a reader within its limits, the decoder ends by itself, and within them.
  pub decode_all-Safe : IsSafe store bytes bits lim (decode_all store bytes bits lim)
  unfolding decode_all
  decode_all-Safe =
      bind store bytes bits lim _ _
        (decode_noun-Safe (lim.max_depth + 1) 1 (omega arith) (omega arith) (omega arith))
        (λ n.
          bind store bytes bits lim (check_trailing store bytes bits lim) (λ u. pure n)
            check_trailing-Safe (λ u r w. w))
