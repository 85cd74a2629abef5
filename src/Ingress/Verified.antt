-- ===== src/Ingress/Verified.antt =====
-- What the receiver has checked of a frame in each state, and where it writes.
use trinitite.Base.{
  ℕ, zero, suc, ◌+◌, ◌≤◌, ◌<◌, ◌≡◌, refl, sym, ap, ap₂, subst, ◌∙◌, inl, inr, not, ◌||◌, ◌&&◌, List,
  [], ◌∷◌, ◌++◌, arith, ltb, ◌==◌, length, get_or, set, take, length-set, Bool-cases, ==_iff,
  if-cases,
}
use trinitite.Ingress.Bytes.{byte_at, le16, le64}
use trinitite.Ingress.Receiver.{
  frame_header_size, frame_max_payload, magic, RxState, rx_scan, rx_header, rx_payload, rx_ready,
  Reason, reason_version, reason_header, reason_length, reason_digest, reason_timeout, Rx,
  reason_number, reason_count, in_frame, past, reset_scan, reject, i2_rx_check_timeout,
}
use trinitite.Ingress.Digest.{diff_loop-eq-zero}
use trinitite.Ingress.Feed.{
  read_bytes, diff_loop, feed_scan, check_header, feed_header, check_digest, feed_payload, feed_in,
  i2_rx_feed_byte,
}

module _ {ℓ} {A : Type ℓ} where
  pub take-set_past : (n i : ℕ) (xs : List A) (v : A) → n ≤ i → take n (set xs i v) ≡ take n xs
  take-set_past zero i xs v h = refl
  take-set_past (suc n) i [] v h = refl
  take-set_past (suc n) zero (x ∷ xs) v h = absurd (omega arith)
  take-set_past (suc n) (suc i) (x ∷ xs) v h =
      ap (λ r. x ∷ r) (take-set_past n i xs v (omega arith))

  pub take-set_next :
      (i : ℕ) (xs : List A) (v : A)
      → i < length xs
      → take (suc i) (set xs i v) ≡ take i xs ++ (v ∷ [])
  take-set_next i [] v h = absurd (omega arith)
  take-set_next zero (x ∷ xs) v h = refl
  take-set_next (suc i) (x ∷ xs) v h = ap (λ r. x ∷ r) (take-set_next i xs v (omega arith))

  pub take-suc :
      (i : ℕ) (xs : List A) (d : A)
      → i < length xs
      → take (suc i) xs ≡ take i xs ++ (get_or xs i d ∷ [])
  take-suc i [] d h = absurd (omega arith)
  take-suc zero (x ∷ xs) d h = refl
  take-suc (suc i) (x ∷ xs) d h = ap (λ r. x ∷ r) (take-suc i xs d (omega arith))

-- A header that announces `len` bytes: the magic number, version 1.0, its own size, no flags.
pub record IsHeader (h : List ℕ) (len : ℕ) : Type 0 where
  pub starts : take 8 h ≡ magic
  pub major : le16 h 8 ≡ 1
  pub minor : le16 h 10 ≡ 0
  pub own_size : le16 h 12 ≡ frame_header_size
  pub flags : le16 h 14 ≡ 0
  pub announced : le64 h 16 ≡ len
  pub not_empty : 0 < len
  pub fits : len ≤ frame_max_payload

-- The first 32 bytes of a digest are those of the header.
abbrev pub Matches : List ℕ → List ℕ → Type 0
Matches digest h = (i : ℕ) → i < 32 → byte_at digest i ≡ byte_at h (24 + i)

module _ (blake3_hash : List ℕ → List ℕ) (cntfrq_el0 : ℕ) where
  abbrev pub InState : RxState → Rx → Type 0
  InState rx_scan s = (s.magic_have < 8) × (take s.magic_have s.header ≡ take s.magic_have magic)
  InState rx_header s = (8 ≤ s.have) × (s.have < frame_header_size) × (take 8 s.header ≡ magic)
  InState rx_payload s = IsHeader s.header s.payload_len × (s.have < s.payload_len)
  InState rx_ready s =
      IsHeader s.header s.payload_len
      × Matches (blake3_hash (read_bytes s.rxbuf 0 s.payload_len)) s.header

  pub record IsRx (s : Rx) : Type 0 where
    pub header_size : length s.header ≡ frame_header_size
    pub counters : length s.rejects ≡ 7
    pub stage : InState s.state s

  reset_scan-IsRx :
      (s : Rx) → length s.header ≡ frame_header_size → length s.rejects ≡ 7 → IsRx (reset_scan s)
  unfolding reset_scan
  reset_scan-IsRx s h r = record { header_size = h; counters = r; stage = (omega arith, refl) }

  pub reject-IsRx :
      (reason : Reason) (s : Rx)
      → length s.header ≡ frame_header_size
      → length s.rejects ≡ 7
      → IsRx (reject reason s)
  unfolding reject
  reject-IsRx reason s h r =
      if-cases (λ (t : Rx). IsRx (reset_scan t))
        (ltb 0 (reason_number reason) && ltb (reason_number reason) reason_count)
        (λ e. reset_scan-IsRx _ h (length-set s.rejects _ _ ∙ r)) (λ e. reset_scan-IsRx s h r)

  pub check_timeout-IsRx : (now : ℕ) (s : Rx) → IsRx s → IsRx (i2_rx_check_timeout now s)
  unfolding i2_rx_check_timeout
  check_timeout-IsRx now s v =
      if-cases IsRx
        (in_frame s.state s.magic_have && (past s.byte_deadline now || past s.frame_deadline now))
        (λ e. reject-IsRx reason_timeout s v.header_size v.counters) (λ e. v)

  -- One more byte of the magic number.
  pub take-magic :
      (n k : ℕ) (h : List ℕ) (byte : ℕ)
      → n ≡ suc k
      → k < 8
      → length h ≡ frame_header_size
      → take k h ≡ take k magic
      → byte ≡ byte_at magic k
      → take n (set h k byte) ≡ take n magic
  take-magic n k h byte m l z e b =
      ap (λ i. take i (set h k byte)) m
      ∙ take-set_next k h byte (omega (arith, z))
      ∙ ap₂ (λ xs y. xs ++ (y ∷ [])) e b
      ∙ sym (take-suc k magic 0 l)
      ∙ ap (λ i. take i magic) (sym m)

  feed_scan-IsRx :
      (byte now : ℕ) (s : Rx)
      → s.state ≡ rx_scan
      → IsRx s
      → InState rx_scan s
      → IsRx (feed_scan blake3_hash cntfrq_el0 byte now s)
  unfolding feed_scan
  feed_scan-IsRx byte now s e v (few, same) =
      if-cases IsRx (byte == byte_at magic s.magic_have)
        (λ hit. elim (Bool-cases (s.magic_have + 1 == 8)) [
          | inl d ↦ record {
            header_size = length-set s.header s.magic_have byte ∙ v.header_size;
            counters = v.counters;
            stage = rw d (
              omega arith,
              omega arith,
              take-magic 8 s.magic_have s.header byte (ground (arith, d)) few v.header_size same
                  ((==_iff _ _).0 hit),
            );
          }
          | inr d ↦ record {
            header_size = length-set s.header s.magic_have byte ∙ v.header_size;
            counters = v.counters;
            stage =
                rw (d, e)
                  (
                    ground (arith, d),
                    take-magic (s.magic_have + 1) s.magic_have s.header byte (omega arith) few
                        v.header_size same ((==_iff _ _).0 hit),
                  );
          }
        ])
        (λ miss.
          if-cases IsRx (byte == byte_at magic 0)
            (λ first. record {
              header_size = length-set s.header 0 byte ∙ v.header_size;
              counters = v.counters;
              stage = rw e (
                omega arith,
                take-magic 1 0 s.header byte refl (omega arith) v.header_size refl
                    ((==_iff _ _).0 first),
              );
            })
            (λ other. record {
              header_size = v.header_size;
              counters = v.counters;
              stage = rw e (omega arith, refl);
            }))

  check_header-IsRx :
      (s : Rx)
      → length s.header ≡ frame_header_size
      → length s.rejects ≡ 7
      → take 8 s.header ≡ magic
      → IsRx (check_header blake3_hash cntfrq_el0 s)
  unfolding check_header
  check_header-IsRx s h r m =
      if-cases IsRx (not (le16 s.header 8 == 1) || not (le16 s.header 10 == 0))
        (λ e. reject-IsRx reason_version s h r)
        (λ ver.
          if-cases IsRx (not (le16 s.header 12 == frame_header_size) || not (le16 s.header 14 == 0))
            (λ e. reject-IsRx reason_header s h r)
            (λ own.
              if-cases IsRx ((le64 s.header 16 == 0) || ltb frame_max_payload (le64 s.header 16))
                (λ e. reject-IsRx reason_length _ h r)
                (λ len. record {
                  header_size = h;
                  counters = r;
                  stage = (
                    record {
                      starts = m;
                      major = ground (arith, ver);
                      minor = ground (arith, ver);
                      own_size = ground (arith, own);
                      flags = ground (arith, own);
                      announced = refl;
                      not_empty = ground (arith, len);
                      fits = ground (arith, len);
                    },
                    ground (arith, len),
                  );
                })))

  feed_header-IsRx :
      (byte : ℕ) (s : Rx)
      → s.state ≡ rx_header
      → IsRx s
      → InState rx_header s
      → IsRx (feed_header blake3_hash cntfrq_el0 byte s)
  unfolding feed_header
  feed_header-IsRx byte s e v (lo, hi, m) =
      if-cases IsRx (not (s.have + 1 == frame_header_size))
        (λ more. record {
          header_size = length-set s.header s.have byte ∙ v.header_size;
          counters = v.counters;
          stage = rw e (
            omega (arith, lo),
            ground (arith, hi, more),
            take-set_past 8 s.have s.header byte lo ∙ m,
          );
        })
        (λ done.
          check_header-IsRx _ (length-set s.header s.have byte ∙ v.header_size) v.counters
            (take-set_past 8 s.have s.header byte lo ∙ m))

  check_digest-IsRx :
      (now : ℕ) (s : Rx)
      → length s.header ≡ frame_header_size
      → length s.rejects ≡ 7
      → IsHeader s.header s.payload_len
      → IsRx (check_digest blake3_hash cntfrq_el0 now s)
  unfolding check_digest
  check_digest-IsRx now s h r ok =
      let digest = blake3_hash (read_bytes s.rxbuf 0 s.payload_len) in
      if-cases IsRx (not (diff_loop 32 0 digest s.header 0 == 0))
        (λ differs. reject-IsRx reason_digest _ h r)
        (λ equal. record {
          header_size = h;
          counters = r;
          stage = (
            ok,
            λ i l.
                (diff_loop-eq-zero 32 0 digest s.header 0 (ground (arith, equal))).1 i (omega arith)
                  (omega (arith, l)),
          );
        })

  feed_payload-IsRx :
      (byte now : ℕ) (s : Rx)
      → s.state ≡ rx_payload
      → IsRx s
      → InState rx_payload s
      → IsRx (feed_payload blake3_hash cntfrq_el0 byte now s)
  unfolding feed_payload
  feed_payload-IsRx byte now s e v (ok, l) =
      if-cases IsRx (s.have + 1 == s.payload_len)
        (λ done. check_digest-IsRx now _ v.header_size v.counters ok)
        (λ more. record {
          header_size = v.header_size;
          counters = v.counters;
          stage = rw e (ok, ground (arith, l, more));
        })

  deadline-IsRx : (b : ℕ) (s : Rx) → IsRx s → IsRx (record s { byte_deadline = b })
  deadline-IsRx b s v = record {
    header_size = v.header_size;
    counters = v.counters;
    stage = moved s.state s v.stage;
  }
    where
      moved : (st : RxState) (s : Rx) → InState st s → InState st (record s { byte_deadline = b })
      moved rx_scan s h = h
      moved rx_header s h = h
      moved rx_payload s h = h
      moved rx_ready s h = h

  feed_in-IsRx :
      (st : RxState) (byte now : ℕ) (s : Rx)
      → s.state ≡ st
      → IsRx s
      → IsRx (feed_in blake3_hash cntfrq_el0 st byte now s)
  unfolding feed_in
  feed_in-IsRx rx_scan byte now s e v =
      feed_scan-IsRx byte now s e v (subst (λ st. InState st s) e v.stage)
  feed_in-IsRx rx_header byte now s e v =
      feed_header-IsRx byte _ e (deadline-IsRx _ s v) (subst (λ st. InState st s) e v.stage)
  feed_in-IsRx rx_payload byte now s e v =
      feed_payload-IsRx byte now _ e (deadline-IsRx _ s v) (subst (λ st. InState st s) e v.stage)
  feed_in-IsRx rx_ready byte now s e v = v

  pub feed_byte-IsRx :
      (byte now : ℕ) (s : Rx) → IsRx s → IsRx (i2_rx_feed_byte blake3_hash cntfrq_el0 byte now s)
  unfolding i2_rx_feed_byte
  feed_byte-IsRx byte now s v =
      feed_in-IsRx (i2_rx_check_timeout now s).state byte now (i2_rx_check_timeout now s) refl
        (check_timeout-IsRx now s v)
