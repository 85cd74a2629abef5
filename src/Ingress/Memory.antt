-- ===== src/Ingress/Memory.antt =====
-- The receiver writes nothing past its buffer.
use trinitite.Base.{
  ℕ, ◌+◌, ◌≤◌, ◌<◌, ◌≡◌, refl, ◌∙◌, not, ◌||◌, ◌&&◌, List, arith, ltb, ◌==◌, ==_of_ne, if-cases,
}
use trinitite.Ingress.Bytes.{byte_at, le16, le64}
use trinitite.Ingress.Receiver.{
  frame_header_size, frame_max_payload, magic, RxState, rx_scan, rx_header, rx_payload, rx_ready,
  Reason, reason_version, reason_header, reason_length, reason_digest, reason_timeout,
  reason_number, reason_count, in_frame, past, Rx, reset_scan, reject, i2_rx_check_timeout,
}
use trinitite.Ingress.Feed.{
  read_bytes, store_byte, diff_loop, feed_scan, check_header, feed_header, check_digest,
  feed_payload, feed_in, i2_rx_feed_byte,
}
use trinitite.Ingress.Verified.{InState, IsRx, check_timeout-IsRx}

-- The receive buffer ends where the memory of others begins.
abbrev pub Outside : Rx → Rx → Type 0
Outside s t = (j : ℕ) → frame_max_payload ≤ j → t.rxbuf j ≡ s.rxbuf j

module _ (blake3_hash : List ℕ → List ℕ) (cntfrq_el0 : ℕ) where
  pub reject-Outside : (reason : Reason) (s : Rx) → Outside s (reject reason s)
  unfolding reject reset_scan
  reject-Outside reason s j l =
      if-cases (λ (t : Rx). (reset_scan t).rxbuf j ≡ s.rxbuf j)
        (ltb 0 (reason_number reason) && ltb (reason_number reason) reason_count) (λ e. refl)
        (λ e. refl)

  pub check_timeout-Outside : (now : ℕ) (s : Rx) → Outside s (i2_rx_check_timeout now s)
  unfolding i2_rx_check_timeout
  check_timeout-Outside now s j l =
      if-cases (λ (t : Rx). t.rxbuf j ≡ s.rxbuf j)
        (in_frame s.state s.magic_have && (past s.byte_deadline now || past s.frame_deadline now))
        (λ e. reject-Outside reason_timeout s j l) (λ e. refl)

  feed_scan-Outside :
      (byte now : ℕ) (s : Rx) → Outside s (feed_scan blake3_hash cntfrq_el0 byte now s)
  unfolding feed_scan
  feed_scan-Outside byte now s j l =
      if-cases (λ (t : Rx). t.rxbuf j ≡ s.rxbuf j) (byte == byte_at magic s.magic_have) (λ e. refl)
        (λ e.
          if-cases (λ (t : Rx). t.rxbuf j ≡ s.rxbuf j) (byte == byte_at magic 0) (λ k. refl)
            (λ k. refl))

  check_header-Outside : (s : Rx) → Outside s (check_header blake3_hash cntfrq_el0 s)
  unfolding check_header
  check_header-Outside s j l =
      if-cases (λ (t : Rx). t.rxbuf j ≡ s.rxbuf j)
        (not (le16 s.header 8 == 1) || not (le16 s.header 10 == 0))
        (λ e. reject-Outside reason_version s j l)
        (λ ver.
          if-cases (λ (t : Rx). t.rxbuf j ≡ s.rxbuf j)
            (not (le16 s.header 12 == frame_header_size) || not (le16 s.header 14 == 0))
            (λ e. reject-Outside reason_header s j l)
            (λ own.
              if-cases (λ (t : Rx). t.rxbuf j ≡ s.rxbuf j)
                ((le64 s.header 16 == 0) || ltb frame_max_payload (le64 s.header 16))
                (λ e. reject-Outside reason_length _ j l) (λ e. refl)))

  feed_header-Outside : (byte : ℕ) (s : Rx) → Outside s (feed_header blake3_hash cntfrq_el0 byte s)
  unfolding feed_header
  feed_header-Outside byte s j l =
      if-cases (λ (t : Rx). t.rxbuf j ≡ s.rxbuf j) (not (s.have + 1 == frame_header_size))
        (λ e. refl) (λ e. check_header-Outside _ j l)

  check_digest-Outside : (now : ℕ) (s : Rx) → Outside s (check_digest blake3_hash cntfrq_el0 now s)
  unfolding check_digest
  check_digest-Outside now s j l =
      if-cases (λ (t : Rx). t.rxbuf j ≡ s.rxbuf j)
        (not (diff_loop 32 0 (blake3_hash (read_bytes s.rxbuf 0 s.payload_len)) s.header 0 == 0))
        (λ e. reject-Outside reason_digest _ j l) (λ e. refl)

  feed_payload-Outside :
      (byte now : ℕ) (s : Rx)
      → s.have < frame_max_payload
      → Outside s (feed_payload blake3_hash cntfrq_el0 byte now s)
  unfolding feed_payload
  feed_payload-Outside byte now s h j l =
      if-cases (λ (t : Rx). t.rxbuf j ≡ s.rxbuf j) (s.have + 1 == s.payload_len)
        (λ e. check_digest-Outside now _ j l ∙ kept) (λ e. kept)
    where
      kept : store_byte s.rxbuf s.have byte j ≡ s.rxbuf j
      kept = rw (==_of_ne j s.have (λ e. absurd (omega (arith, h, l, e)))) refl

  feed_in-Outside :
      (st : RxState) (byte now : ℕ) (s : Rx)
      → InState blake3_hash cntfrq_el0 st s
      → Outside s (feed_in blake3_hash cntfrq_el0 st byte now s)
  unfolding feed_in
  feed_in-Outside rx_scan byte now s h j l = feed_scan-Outside byte now s j l
  feed_in-Outside rx_header byte now s h j l = feed_header-Outside byte _ j l
  feed_in-Outside rx_payload byte now s h j l =
      feed_payload-Outside byte now _ (omega (arith, h.1, h.0.fits)) j l
  feed_in-Outside rx_ready byte now s h j l = refl

  pub feed_byte-Outside :
      (byte now : ℕ) (s : Rx)
      → IsRx blake3_hash cntfrq_el0 s
      → Outside s (i2_rx_feed_byte blake3_hash cntfrq_el0 byte now s)
  unfolding i2_rx_feed_byte
  feed_byte-Outside byte now s v j l =
      let s' : Rx = i2_rx_check_timeout now s in
      let v' : IsRx blake3_hash cntfrq_el0 s' = check_timeout-IsRx blake3_hash cntfrq_el0 now s v in
      feed_in-Outside s'.state byte now s' v'.stage j l ∙ check_timeout-Outside now s j l
