-- ===== src/BoundedCue/Decode.antt =====
-- The decoder of bounded_cue.c: atoms, nouns, and a whole input.
use trinitite.Base.{
  ℕ, zero, suc, ◌+◌, ◌-◌, ◌*◌, ◌/◌, ◌%◌, ◌^◌, bit_or, Bool, true, false, not, ◌||◌, Option, none,
  some, List, ltb, leb, ◌==◌, if◌then◌else◌, replicate,
}
use trinitite.Noun.{Noun, direct, indirect, cell}
use trinitite.Noun.Atom.{make_atom_checked}
use trinitite.Jam.Bits.{put_bit}
use trinitite.BoundedCue.Reader.{
  cue_depth, cue_nodes, cue_cells, cue_backref, cue_atom, cue_alloc, cue_trailing, is_cue_ok,
  Limits, bounded_atom_limbs_max, Store, Reader, Res, ran, refused, spent, Action, ◌>>=◌, pure,
  refuse, refuse_if, charge, read_bit, cache_put, cache_get,
}

module _ {S : Type 0} (store : Store S) (bytes : List ℕ) (bits : ℕ) (lim : Limits) where
  abbrev next_bit : Action S ℕ
  next_bit = read_bit bytes bits lim

  abbrev pay : ℕ → Action S Unit
  pay n = charge bytes bits lim n

  -- The zeros in front of a length. The 64th ends the loop, so 64 rounds are enough.
  unfoldable pub zeros_loop : ℕ → ℕ → Action S ℕ
  zeros_loop zero z = λ r. (spent, r)
  zeros_loop (suc left) z = next_bit >>= λ bit. elim (not (bit == 0)) [
    | true ↦ pure z
    | false ↦ refuse_if (ltb 63 (z + 1)) cue_atom >>= λ u. zeros_loop left (z + 1)
  ]

  -- `n` rounds from bit `i` on.
  unfoldable pub length_loop : ℕ → ℕ → ℕ → Action S ℕ
  length_loop zero i len_bits = pure len_bits
  length_loop (suc n) i len_bits =
      next_bit >>= λ bit. length_loop n (i + 1) (bit_or len_bits (bit * 2 ^ i))

  unfoldable pub limbs_loop : ℕ → ℕ → List ℕ → Action S (List ℕ)
  limbs_loop zero i limbs = pure limbs
  limbs_loop (suc n) i limbs =
      next_bit >>= λ bit. limbs_loop n (i + 1) (if not (bit == 0) then put_bit limbs i 1 else limbs)

  -- The bytes of an atom are counted before they are charged.
  unfoldable pub count_bytes : ℕ → Action S Unit
  count_bytes atom_bytes = λ r.
      if ltb lim.max_total_atom_bytes atom_bytes
        || ltb (lim.max_total_atom_bytes - atom_bytes) r.total_atom_bytes
      then (refused, record r { status = cue_atom })
      else (ran tt, record r { total_atom_bytes = r.total_atom_bytes + atom_bytes })

  -- The atom store has no place for no limbs, and for others when it has room.
  abbrev pub atom_stored : Option Noun → Bool × S → Action S Noun
  atom_stored none (b, s) = refuse cue_alloc
  atom_stored (some n) (false, s) = λ r. (refused, record r { status = cue_alloc; store = s })
  atom_stored (some n) (true, s) = λ r. (ran n, record r { store = s })

  unfoldable pub make_noun : List ℕ → ℕ → Action S Noun
  make_noun limbs size =
      λ r. atom_stored (make_atom_checked limbs size) (store.store_atom limbs size r.store) r

  unfoldable pub decode_atom_bits : ℕ → Action S Noun
  decode_atom_bits atom_bits =
      let atom_bytes : ℕ = (atom_bits + 7) / 8 in
      let limbs : ℕ = (atom_bits + 63) / 64 in
      refuse_if
        ((atom_bytes == 0)
          || ltb lim.max_atom_bytes atom_bytes
          || ltb (bounded_atom_limbs_max * 8) atom_bytes)
        cue_atom
      >>= λ u. count_bytes atom_bytes >>= λ v. pay atom_bytes >>= λ w.
          limbs_loop atom_bits 0 (replicate limbs 0) >>= λ l. make_noun l limbs

  -- From the number of zeros on. There are at most 63, so the length has at most 63 bits.
  unfoldable pub decode_sized : ℕ → Action S Noun
  decode_sized zero = pure (direct 0)
  decode_sized (suc below) =
      length_loop below 0 0 >>= λ len_bits. decode_atom_bits (bit_or (1 * 2 ^ below) len_bits)

  unfoldable pub decode_mat : Action S Noun
  decode_mat = zeros_loop 64 0 >>= decode_sized

  -- A failure that has left the status at OK is a wrong back-reference.
  abbrev pub or_backref : {A : Type 0} → Res A × Reader S → Res A × Reader S
  or_backref (ran a, r) = (ran a, r)
  or_backref (refused, r) =
      (refused, if is_cue_ok r.status then record r { status = cue_backref } else r)
  or_backref (spent, r) = (spent, r)

  abbrev pub refer : ℕ → Noun → Action S Noun
  refer start (direct pos) =
      refuse_if (leb start pos) cue_backref >>= λ u r. or_backref (cache_get bytes bits lim pos r)
  refer start (indirect l) = refuse cue_backref
  refer start (cell h t) = refuse cue_backref

  abbrev pub count_backref : Action S Unit
  count_backref = λ r.
      (let n : ℕ = (r.backrefs + 1) % 2 ^ 32 in
        refuse_if (ltb lim.max_backrefs n) cue_backref (record r { backrefs = n }))

  unfoldable pub decode_backref : ℕ → Action S Noun
  decode_backref start = count_backref >>= λ u. (λ r. or_backref (decode_mat r)) >>= refer start

  abbrev pub cell_stored : Noun → Noun → Bool × S → Action S Noun
  cell_stored h t (false, s) = λ r. (refused, record r { status = cue_alloc; store = s })
  cell_stored h t (true, s) = λ r. (ran (cell h t), record r { store = s })

  abbrev pub count_cell : Action S Unit
  count_cell = λ r.
      (let n : ℕ = (r.cells + 1) % 2 ^ 32 in
        refuse_if (ltb lim.max_cells n) cue_cells (record r { cells = n }))

  -- Head and tail, by what reads a noun.
  unfoldable pub decode_cell : Action S Noun → ℕ → Action S Noun
  decode_cell sub depth = count_cell >>= λ u. refuse_if (leb lim.max_depth depth) cue_depth >>= λ v.
      sub >>= λ head.
      sub >>= λ tail. (λ r. cell_stored head tail (store.store_cell head tail r.store) r)

  abbrev pub note_depth : ℕ → Action S Unit
  note_depth depth =
      λ r. (ran tt, if ltb r.depth_hwm depth then record r { depth_hwm = depth } else r)

  abbrev pub count_node : Action S Unit
  count_node = λ r.
      (let n : ℕ = (r.nodes + 1) % 2 ^ 32 in
        refuse_if (ltb lim.max_nodes n) cue_nodes (record r { nodes = n }))

  -- The counts at the start of a noun.
  unfoldable pub enter_noun : ℕ → Action S ℕ
  enter_noun depth = note_depth depth >>= λ u.
      refuse_if (ltb lim.max_depth depth) cue_depth >>= λ v.
      count_node >>= λ w. pay 1 >>= λ x. (λ r. (ran r.cur, r))

  -- The C recursion on fuel. A tag computes one branch only.
  unfoldable pub decode_noun : ℕ → ℕ → Action S Noun
  decode_noun zero depth = λ r. (spent, r)
  decode_noun (suc fuel) depth = enter_noun depth >>= λ start.
      (next_bit >>= λ tag0. elim (tag0 == 0) [
        | true ↦ decode_mat
        | false ↦ next_bit >>= λ tag1. elim (tag1 == 0) [
          | true ↦ decode_cell (decode_noun fuel (depth + 1)) depth
          | false ↦ decode_backref start
        ]
      ])
      >>= λ result. cache_put bytes bits lim start result >>= λ u. pure result

  -- The bits after the noun, at most 7 of them, must be 0.
  unfoldable pub padding_loop : ℕ → Action S Unit
  padding_loop zero = pure tt
  padding_loop (suc n) =
      next_bit >>= λ bit. refuse_if (not (bit == 0)) cue_trailing >>= λ u. padding_loop n

  unfoldable pub check_trailing : Action S Unit
  check_trailing = λ r.
      if ltb 7 (bits - r.cur)
      then (refused, record r { status = cue_trailing })
      else padding_loop (bits - r.cur) r

  -- The recursion stops at `max_depth`.
  unfoldable pub decode_all : Action S Noun
  decode_all = decode_noun (lim.max_depth + 1) 1 >>= λ n. check_trailing >>= λ u. pure n
