-- ===== src/Ingress/Scan.antt =====
-- The receiver while the bytes of a frame come in on time: the magic number and the header.
use trinitite.Base.{
  ℕ, zero, suc, ◌+◌, ◌<◌, ◌≡◌, ◌≢◌, refl, sym, ap, subst, ◌∙◌, inl, inr, true, false, ◌||◌, ◌&&◌,
  List, [], ◌∷◌, ◌++◌, arith, ◌==◌, length, take, length-set, Bool-cases, ==_iff, if-cases,
}
use trinitite.Ingress.Bytes.{byte_at}
use trinitite.Ingress.Receiver.{
  frame_header_size, magic, rx_scan, rx_header, in_frame, past, Rx, add_ticks, interbyte_ticks,
  total_ticks, reject, reset_scan, i2_rx_check_timeout,
}
use trinitite.Ingress.Feed.{feed_scan, feed_in, i2_rx_feed_byte}
use trinitite.Ingress.Timing.{feed_all, OnTime, FrameOnTime, feed_in-scan, feed_byte-early}
use trinitite.Ingress.Verified.{take-magic, InState, IsRx, check_timeout-IsRx}

-- The first `k` bytes of the magic number are in, and the deadlines are set.
record Scanned (k byte_end frame_end : ℕ) (s : Rx) : Type 0 where
  scanning : s.state ≡ rx_scan
  count : s.magic_have ≡ k
  size : length s.header ≡ frame_header_size
  start : take k s.header ≡ take k magic
  byte_due : s.byte_deadline ≡ byte_end
  frame_due : s.frame_deadline ≡ frame_end

-- The first bytes of a header are `done`.
pub record InHeader (done : List ℕ) (byte_end frame_end : ℕ) (s : Rx) : Type 0 where
  pub in_header : s.state ≡ rx_header
  pub count : s.have ≡ length done
  pub size : length s.header ≡ frame_header_size
  pub start : take (length done) s.header ≡ done
  pub byte_due : s.byte_deadline ≡ byte_end
  pub frame_due : s.frame_deadline ≡ frame_end

magic-one : (k : ℕ) → 0 < k → k < 8 → byte_at magic k ≢ 73
magic-one zero p q e = absurd (omega arith)
magic-one (suc zero) p q e = absurd (omega (arith, e))
magic-one (suc (suc zero)) p q e = absurd (omega (arith, e))
magic-one (suc (suc (suc zero))) p q e = absurd (omega (arith, e))
magic-one (suc (suc (suc (suc zero)))) p q e = absurd (omega (arith, e))
magic-one (suc (suc (suc (suc (suc zero))))) p q e = absurd (omega (arith, e))
magic-one (suc (suc (suc (suc (suc (suc zero)))))) p q e = absurd (omega (arith, e))
magic-one (suc (suc (suc (suc (suc (suc (suc zero))))))) p q e = absurd (omega (arith, e))
magic-one (suc (suc (suc (suc (suc (suc (suc (suc k)))))))) p q e = absurd (omega arith)

module _ (blake3_hash : List ℕ → List ℕ) (cntfrq_el0 : ℕ) where
  -- The first byte of a frame starts it whatever part of a magic number came before.
  feed_scan-first :
      (t : ℕ) (s : Rx)
      → s.state ≡ rx_scan
      → s.magic_have < 8
      → length s.header ≡ frame_header_size
      → Scanned 1
          (add_ticks t (interbyte_ticks cntfrq_el0))
          (add_ticks t (total_ticks cntfrq_el0))
          (feed_scan blake3_hash cntfrq_el0 73 t s)
  unfolding feed_scan
  feed_scan-first t s e few h =
      if-cases
        (Scanned 1 (add_ticks t (interbyte_ticks cntfrq_el0))
          (add_ticks t (total_ticks cntfrq_el0)))
        (73 == byte_at magic s.magic_have)
        (λ hit.
          let none : s.magic_have ≡ 0 = none_in ((==_iff _ _).0 hit) in
          let more : (s.magic_have + 1 == 8) ≡ false = ground (arith, none) in
          let first : (s.magic_have == 0) ≡ true = ground (arith, none) in
          record {
            scanning = rw more e;
            count = omega (arith, none);
            size = length-set s.header s.magic_have 73 ∙ h;
            start =
                take-magic blake3_hash cntfrq_el0 1 s.magic_have s.header 73 (omega (arith, none))
                  few h (ap (λ k. take k s.header) none ∙ sym (ap (λ k. take k magic) none))
                  ((==_iff _ _).0 hit);
            byte_due = rw first refl;
            frame_due = rw first refl;
          })
        (λ miss. record {
          scanning = e;
          count = refl;
          size = length-set s.header 0 73 ∙ h;
          start = take-magic blake3_hash cntfrq_el0 1 0 s.header 73 refl (omega arith) h refl refl;
          byte_due = refl;
          frame_due = refl;
        })
    where
      none_in : 73 ≡ byte_at magic s.magic_have → s.magic_have ≡ 0
      none_in hit = elim (Bool-cases (s.magic_have == 0)) [
        | inl z ↦ (==_iff _ _).0 z
        | inr n ↦ absurd (magic-one s.magic_have (ground (arith, n)) few (sym hit))
      ]

  -- A byte of the magic number, not the first.
  feed_scan-next :
      (k t byte_end frame_end : ℕ) (s : Rx)
      → 0 < k
      → k < 7
      → Scanned k byte_end frame_end s
      → Scanned (suc k) byte_end frame_end (feed_scan blake3_hash cntfrq_el0 (byte_at magic k) t s)
  unfolding feed_scan
  feed_scan-next k t b f s p q v =
      if-cases (Scanned (suc k) b f) (byte_at magic k == byte_at magic s.magic_have)
        (λ hit.
          let more : (s.magic_have + 1 == 8) ≡ false = ground (arith, v.count, q) in
          let first : (s.magic_have == 0) ≡ false = ground (arith, v.count, p) in
          record {
            scanning = rw more v.scanning;
            count = omega (arith, v.count);
            size = length-set s.header s.magic_have _ ∙ v.size;
            start =
                take-magic blake3_hash cntfrq_el0 (suc k) s.magic_have s.header (byte_at magic k)
                  (omega (arith, v.count)) (omega (arith, v.count, q)) v.size
                  (ap (λ i. take i s.header) v.count
                    ∙ v.start
                    ∙ sym (ap (λ i. take i magic) v.count))
                  ((==_iff _ _).0 hit);
            byte_due = rw first v.byte_due;
            frame_due = rw first v.frame_due;
          })
        (λ miss. absurd (unequal miss))
    where
      unequal : (byte_at magic k == byte_at magic s.magic_have) ≡ false → ⊥
      unequal miss =
          let same : (byte_at magic k == byte_at magic s.magic_have) ≡ true =
            (==_iff _ _).1 (ap (byte_at magic) (sym v.count)) in
          ground (arith, same, miss)

  feed_scan-last :
      (t byte_end frame_end : ℕ) (s : Rx)
      → Scanned 7 byte_end frame_end s
      → InHeader magic byte_end frame_end (feed_scan blake3_hash cntfrq_el0 10 t s)
  unfolding feed_scan
  feed_scan-last t b f s v =
      if-cases (InHeader magic b f) (10 == byte_at magic s.magic_have)
        (λ hit.
          let done : (s.magic_have + 1 == 8) ≡ true = ground (arith, v.count) in
          let first : (s.magic_have == 0) ≡ false = ground (arith, v.count) in
          record {
            in_header = rw done refl;
            count = rw done refl;
            size = length-set s.header s.magic_have 10 ∙ v.size;
            start =
                take-magic blake3_hash cntfrq_el0 8 s.magic_have s.header 10
                  (omega (arith, v.count)) (omega (arith, v.count)) v.size
                  (ap (λ i. take i s.header) v.count
                    ∙ v.start
                    ∙ sym (ap (λ i. take i magic) v.count))
                  ((==_iff _ _).0 hit);
            byte_due = rw first v.byte_due;
            frame_due = rw first v.frame_due;
          })
        (λ miss. absurd (unequal miss))
    where
      unequal : (10 == byte_at magic s.magic_have) ≡ false → ⊥
      unequal miss =
          let same : (10 == byte_at magic s.magic_have) ≡ true =
            (==_iff _ _).1 (ap (byte_at magic) (sym v.count)) in
          ground (arith, same, miss)

  -- `n` bytes of the magic number from byte `k` on.
  abbrev magic_from : ℕ → ℕ → List ℕ
  magic_from zero k = []
  magic_from (suc n) k = byte_at magic k ∷ magic_from n (suc k)

  -- Bytes on time up to `rest` lead from `s` into the header.
  abbrev EntersHeader : List ℕ → List ℕ → List ℕ → ℕ → ℕ → Rx → Type 0
  EntersHeader bs rest ts b f s =
      (ts' : List ℕ) × (s' : Rx) × (feed_all blake3_hash cntfrq_el0 (bs ++ rest) ts s
        ≡ feed_all blake3_hash cntfrq_el0 rest ts' s')
      × InHeader magic b f s'
      × OnTime cntfrq_el0 0 b f ts'
      × (length ts' ≡ length rest)

  starts :
      (t : ℕ) (s : Rx)
      → (i2_rx_check_timeout t s).state ≡ rx_scan
      → i2_rx_feed_byte blake3_hash cntfrq_el0 73 t s
        ≡ feed_scan blake3_hash cntfrq_el0 73 t (i2_rx_check_timeout t s)
  unfolding i2_rx_feed_byte
  starts t s e =
      ap (λ st. feed_in blake3_hash cntfrq_el0 st 73 t (i2_rx_check_timeout t s)) e
      ∙ feed_in-scan blake3_hash cntfrq_el0 73 t (i2_rx_check_timeout t s)

  check_timeout-scan :
      (t : ℕ) (s : Rx) → s.state ≡ rx_scan → (i2_rx_check_timeout t s).state ≡ rx_scan
  unfolding i2_rx_check_timeout reject reset_scan
  check_timeout-scan t s e =
      if-cases (λ (u : Rx). u.state ≡ rx_scan)
        (in_frame s.state s.magic_have && (past s.byte_deadline t || past s.frame_deadline t))
        (λ late. refl) (λ early. e)

  Scanned-feeds :
      (k byte t b f : ℕ) (s : Rx)
      → Scanned k b f s
      → t < b
      → t < f
      → i2_rx_feed_byte blake3_hash cntfrq_el0 byte t s ≡ feed_scan blake3_hash cntfrq_el0 byte t s
  Scanned-feeds k byte t b f s v lb lf =
      feed_byte-early blake3_hash cntfrq_el0 byte t rx_scan s v.scanning
        (omega (arith, lb, v.byte_due)) (omega (arith, lf, v.frame_due))
      ∙ feed_in-scan blake3_hash cntfrq_el0 byte t s

  magic-EntersHeader :
      (n k : ℕ) (ts rest : List ℕ) (b f : ℕ) (s : Rx)
      → k + suc n ≡ 8
      → 0 < k
      → Scanned k b f s
      → OnTime cntfrq_el0 (suc n) b f ts
      → length ts ≡ suc n + length rest
      → EntersHeader (magic_from (suc n) k) rest ts b f s
  magic-EntersHeader n k [] rest b f s w p v o l = absurd (omega (arith, l))
  magic-EntersHeader zero k (t ∷ ts) rest b f s w p v (lb, lf, o) l =
      let last : k ≡ 7 = omega (arith, w) in
      (
        ts,
        feed_scan blake3_hash cntfrq_el0 10 t s,
        ap
              (λ i.
                feed_all blake3_hash cntfrq_el0 rest ts
                  (i2_rx_feed_byte blake3_hash cntfrq_el0 (byte_at magic i) t s))
              last
            ∙ ap (feed_all blake3_hash cntfrq_el0 rest ts) (Scanned-feeds k 10 t b f s v lb lf),
        feed_scan-last t b f s (subst (λ (i : ℕ). Scanned i b f s) last v),
        o,
        omega (arith, l),
      )
  magic-EntersHeader (suc n) k (t ∷ ts) rest b f s w p v (lb, lf, o) l =
      let (ts', s', same, there, left, count) =
        magic-EntersHeader n (suc k) ts rest b f
          (feed_scan blake3_hash cntfrq_el0 (byte_at magic k) t s) (omega (arith, w)) (omega arith)
          (feed_scan-next k t b f s p (omega (arith, w)) v) o (omega (arith, l)) in
      (
        ts',
        s',
        ap (feed_all blake3_hash cntfrq_el0 (magic_from (suc n) (suc k) ++ rest) ts)
              (Scanned-feeds k (byte_at magic k) t b f s v lb lf)
            ∙ same,
        there,
        left,
        count,
      )

  -- From any state of the scan, a magic number on time leads into the header.
  pub frame-EntersHeader :
      (t : ℕ) (ts rest : List ℕ) (s : Rx)
      → s.state ≡ rx_scan
      → IsRx blake3_hash cntfrq_el0 s
      → FrameOnTime cntfrq_el0 (t ∷ ts)
      → length ts ≡ 7 + length rest
      → EntersHeader magic rest
          (t ∷ ts)
          (add_ticks t (interbyte_ticks cntfrq_el0))
          (add_ticks t (total_ticks cntfrq_el0))
          s
  frame-EntersHeader t ts rest s e v o l =
      let s₀ : Rx = i2_rx_check_timeout t s in
      let e₀ : s₀.state ≡ rx_scan = check_timeout-scan t s e in
      let v₀ = check_timeout-IsRx blake3_hash cntfrq_el0 t s v in
      let few : s₀.magic_have < 8 =
        (subst (λ st. InState blake3_hash cntfrq_el0 st s₀) e₀ v₀.stage).0 in
      let (ts', s', same, there, left, count) =
        magic-EntersHeader 6 1 ts rest _ _ (feed_scan blake3_hash cntfrq_el0 73 t s₀) refl
          (omega arith) (feed_scan-first t s₀ e₀ few v₀.header_size) o l in
      (
        ts',
        s',
        ap (feed_all blake3_hash cntfrq_el0 (magic_from 7 1 ++ rest) ts) (starts t s e₀) ∙ same,
        there,
        left,
        count,
      )
