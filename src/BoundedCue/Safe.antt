-- ===== src/BoundedCue/Safe.antt =====
-- What it is for an action of the bounded reader to stay within the limits, and the lemmas on its primitive steps.
use trinitite.Base.{
  ℕ, zero, suc, ◌+◌, ◌-◌, ◌%◌, ◌≤◌, ◌<◌, max, ◌≡◌, refl, Bool, true, false, not, ◌||◌, Option, none,
  some, List, arith, ltb, leb, ◌==◌, if-cases,
}
use trinitite.Noun.{Noun}
use trinitite.BoundedCue.Reader.{
  Status, cue_work, cue_truncated, cue_cache, cue_backref, is_cue_ok, Limits, bounded_cache_max,
  Reader, Res, ran, refused, spent, Action, and_then, ◌>>=◌, pure, refuse_if, charge, take_bit,
  read_bit, cache_cap, cache_hash, note_probe, put_at, put_loop, cache_put, get_at, get_loop,
  cache_get,
}

cache_cap-le : (lim : Limits) → cache_cap lim ≤ bounded_cache_max
cache_cap-le lim =
    if-cases (λ c. c ≤ bounded_cache_max)
      ((lim.max_cache_entries == 0) || ltb bounded_cache_max lim.max_cache_entries)
      (λ e. omega arith) (λ e. ground (arith, e))

module _ {S : Type 0} (bytes : List ℕ) (bits : ℕ) (lim : Limits) where
  -- A failed action may have counted one noun, cell or reference more than its limit.
  pub record Within (slack : ℕ) (r : Reader S) : Type 0 where
    pub cur_in : r.cur ≤ bits
    pub work_in : r.work ≤ lim.max_work
    pub bytes_in : r.total_atom_bytes ≤ lim.max_total_atom_bytes
    pub nodes_in : r.nodes ≤ lim.max_nodes + slack
    pub cells_in : r.cells ≤ lim.max_cells + slack
    pub backrefs_in : r.backrefs ≤ lim.max_backrefs + slack
    pub entries_in : r.cache_entries ≤ lim.max_cache_entries
    pub depth_in : r.depth_hwm ≤ max 1 lim.max_depth
    pub probe_in : r.probe_hwm ≤ bounded_cache_max
    -- a failure, and nothing else, has changed the status
    pub verdict : is_cue_ok r.status ≡ (slack == 0)

  abbrev pub Post : {A : Type 0} → Res A × Reader S → Type 0
  Post (ran a, r) = Within 0 r
  Post (refused, r) = Within 1 r
  Post (spent, r) = ⊥

  abbrev pub Safe : {A : Type 0} → Action S A → Type 0
  Safe act = (r : Reader S) → Within 0 r → Post (act r)

  -- A reader that differs in its status, its cache and its store, with more slack.
  pub slacken :
      (st : Status)
      → is_cue_ok st ≡ false
      → (r : Reader S) → Within 0 r
      → Within 1 (record r { status = st })
  slacken st h r w = record {
    cur_in = w.cur_in;
    work_in = w.work_in;
    bytes_in = w.bytes_in;
    nodes_in = omega (arith, w.nodes_in);
    cells_in = omega (arith, w.cells_in);
    backrefs_in = omega (arith, w.backrefs_in);
    entries_in = w.entries_in;
    depth_in = w.depth_in;
    probe_in = w.probe_in;
    verdict = h;
  }

  pub and_then-Post :
      {A B : Type 0} (f : A → Action S B) (x : Res A × Reader S)
      → Post x
      → ((a : A) → Safe (f a))
      → Post (and_then f x)
  and_then-Post f (ran a, r) p k = k a r p
  and_then-Post f (refused, r) p k = p
  and_then-Post f (spent, r) p k = absurd p

  pub bind-Safe :
      {A B : Type 0} (act : Action S A) (f : A → Action S B)
      → Safe act
      → ((a : A) → Safe (f a))
      → Safe (act >>= f)
  bind-Safe act f p k r w = and_then-Post f (act r) (p r w) k

  pub refuse_if-Safe : (b : Bool) (st : Status) → is_cue_ok st ≡ false → Safe (refuse_if b st)
  refuse_if-Safe true st h r w = slacken st h r w
  refuse_if-Safe false st h r w = w

  -- What runs behind a test may use its outcome.
  pub guard-Safe :
      {B : Type 0} (b : Bool) (st : Status) (f : Unit → Action S B)
      → is_cue_ok st ≡ false
      → (b ≡ false → Safe (f tt))
      → Safe (refuse_if b st >>= f)
  guard-Safe true st f h k r w = slacken st h r w
  guard-Safe false st f h k r w = k refl r w

  pub elim-Safe :
      {A : Type 0} (b : Bool) (x y : Action S A)
      → Safe x
      → Safe y
      → Safe (elim b [ true ↦ x | false ↦ y ])
  elim-Safe true x y p q = p
  elim-Safe false x y p q = q

  pub charge-Safe : (n : ℕ) → Safe (charge bytes bits lim n)
  unfolding charge
  charge-Safe n r w =
      if-cases Post (not (is_cue_ok r.status)) (λ e. absurd (ground (arith, e, w.verdict)))
        (λ e.
          if-cases Post (ltb lim.max_work n || ltb (lim.max_work - n) r.work)
            (λ k. slacken cue_work refl r w)
            (λ k. record {
              cur_in = w.cur_in;
              work_in = ground (arith, k);
              bytes_in = w.bytes_in;
              nodes_in = w.nodes_in;
              cells_in = w.cells_in;
              backrefs_in = w.backrefs_in;
              entries_in = w.entries_in;
              depth_in = w.depth_in;
              probe_in = w.probe_in;
              verdict = w.verdict;
            }))

  take_bit-Safe : Safe (take_bit bytes bits lim)
  unfolding take_bit
  take_bit-Safe r w =
      if-cases Post (leb bits r.cur) (λ e. slacken cue_truncated refl r w)
        (λ e. record {
          cur_in = ground (arith, e);
          work_in = w.work_in;
          bytes_in = w.bytes_in;
          nodes_in = w.nodes_in;
          cells_in = w.cells_in;
          backrefs_in = w.backrefs_in;
          entries_in = w.entries_in;
          depth_in = w.depth_in;
          probe_in = w.probe_in;
          verdict = w.verdict;
        })

  pub read_bit-Safe : Safe (read_bit bytes bits lim)
  unfolding read_bit
  read_bit-Safe = bind-Safe (charge bytes bits lim 1) _ (charge-Safe 1) (λ u. take_bit-Safe)

  note_probe-Safe : (i : ℕ) → i < bounded_cache_max → Safe (note_probe bytes bits lim i)
  unfolding note_probe
  note_probe-Safe i l r w =
      if-cases (Within 0) (ltb r.probe_hwm (i + 1))
        (λ e. record {
          cur_in = w.cur_in;
          work_in = w.work_in;
          bytes_in = w.bytes_in;
          nodes_in = w.nodes_in;
          cells_in = w.cells_in;
          backrefs_in = w.backrefs_in;
          entries_in = w.entries_in;
          depth_in = w.depth_in;
          probe_in = omega (arith, l);
          verdict = w.verdict;
        })
        (λ e. w)

  put_at-Safe :
      (slot pos : ℕ) (value : Noun) (e : Option (ℕ × Noun))
      → Safe (put_at bytes bits lim slot pos value e)
  put_at-Safe slot pos value none r w =
      if-cases Post (leb lim.max_cache_entries r.cache_entries) (λ e. slacken cue_cache refl r w)
        (λ e. record {
          cur_in = w.cur_in;
          work_in = w.work_in;
          bytes_in = w.bytes_in;
          nodes_in = w.nodes_in;
          cells_in = w.cells_in;
          backrefs_in = w.backrefs_in;
          entries_in = ground (arith, e);
          depth_in = w.depth_in;
          probe_in = w.probe_in;
          verdict = w.verdict;
        })
  put_at-Safe slot pos value (some x) r w =
      if-cases Post (x.0 == pos)
        (λ e. record {
          cur_in = w.cur_in;
          work_in = w.work_in;
          bytes_in = w.bytes_in;
          nodes_in = w.nodes_in;
          cells_in = w.cells_in;
          backrefs_in = w.backrefs_in;
          entries_in = w.entries_in;
          depth_in = w.depth_in;
          probe_in = w.probe_in;
          verdict = w.verdict;
        })
        (λ e. w)

  put_loop-Safe :
      (left i h pos : ℕ) (value : Noun)
      → i + left ≤ bounded_cache_max
      → Safe (put_loop bytes bits lim left i h pos value)
  unfolding put_loop
  put_loop-Safe zero i h pos value l r w = slacken cue_cache refl r w
  put_loop-Safe (suc left) i h pos value l r w =
      bind-Safe _ _ (note_probe-Safe i (omega (arith, l)))
        (λ u. bind-Safe _ _ (charge-Safe 1) (λ v.
          bind-Safe _ _
            (λ r w.
              put_at-Safe ((h + i) % bounded_cache_max) pos value
                (r.cache ((h + i) % bounded_cache_max)) r w)
            (λ done.
              elim-Safe done _ _ (λ r w. w)
                (put_loop-Safe left (i + 1) h pos value (omega (arith, l))))))
        r w

  pub cache_put-Safe : (pos : ℕ) (value : Noun) → Safe (cache_put bytes bits lim pos value)
  unfolding cache_put
  cache_put-Safe pos value =
      put_loop-Safe (cache_cap lim) 0 (cache_hash pos) pos value (omega (arith, cache_cap-le lim))

  get_at-Safe : (pos : ℕ) (e : Option (ℕ × Noun)) → Safe (get_at bytes bits lim pos e)
  get_at-Safe pos none r w = slacken cue_backref refl r w
  get_at-Safe pos (some x) r w = if-cases Post (x.0 == pos) (λ e. w) (λ e. w)

  found-Safe :
      (found : Option Noun) (y : Action S Noun)
      → Safe y
      → Safe (elim found [ some n ↦ pure n | none ↦ y ])
  found-Safe (some n) y p r w = w
  found-Safe none y p r w = p r w

  get_loop-Safe :
      (left i h pos : ℕ)
      → i + left ≤ bounded_cache_max
      → Safe (get_loop bytes bits lim left i h pos)
  unfolding get_loop
  get_loop-Safe zero i h pos l r w = slacken cue_backref refl r w
  get_loop-Safe (suc left) i h pos l r w =
      bind-Safe _ _ (note_probe-Safe i (omega (arith, l)))
        (λ u. bind-Safe _ _ (charge-Safe 1) (λ v.
          bind-Safe _ _ (λ r w. get_at-Safe pos (r.cache ((h + i) % bounded_cache_max)) r w)
            (λ found. found-Safe found _ (get_loop-Safe left (i + 1) h pos (omega (arith, l))))))
        r w

  pub cache_get-Safe : (pos : ℕ) → Safe (cache_get bytes bits lim pos)
  unfolding cache_get
  cache_get-Safe pos =
      get_loop-Safe (cache_cap lim) 0 (cache_hash pos) pos (omega (arith, cache_cap-le lim))
