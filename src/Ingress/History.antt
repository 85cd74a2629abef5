-- ===== src/Ingress/History.antt =====
-- The bytes that have come in since the start, beside the receiver: in each state they end with what
-- the receiver has of a frame.
use trinitite.Base.{
  ℕ, suc, ◌+◌, ◌<◌, ◌≡◌, refl, sym, ap, subst, ◌∙◌, inl, inr, not, ◌||◌, ◌&&◌, List, [], ◌∷◌, ◌++◌,
  arith, ltb, ◌==◌, length, length-set, set, take, take-length, Bool-cases, ==_iff, if-cases,
}
use trinitite.Ingress.Bytes.{byte_at, le16, le64}
use trinitite.Ingress.Receiver.{
  frame_header_size, frame_max_payload, magic, RxState, rx_scan, rx_header, rx_payload, rx_ready,
  Reason, reason_number, reason_count, reason_version, reason_header, reason_length, reason_digest,
  reason_timeout, Rx, in_frame, past, reset_scan, reject, i2_rx_check_timeout,
}
use trinitite.Ingress.Feed.{
  read_bytes, store_byte, diff_loop, feed_scan, check_header, feed_header, check_digest,
  feed_payload, feed_in, i2_rx_feed_byte,
}
use trinitite.Ingress.Verified.{
  InState, IsRx, take-set_next, take-suc, take-magic, check_timeout-IsRx,
}
use trinitite.Ingress.Payload.{read_bytes-store_next}

-- The bytes end with `tail`.
abbrev pub EndsWith : List ℕ → List ℕ → Type 0
EndsWith bytes tail = (front : List ℕ) × (bytes ≡ front ++ tail)

pub append_assoc : (a b c : List ℕ) → (a ++ b) ++ c ≡ a ++ (b ++ c)
append_assoc [] b c = refl
append_assoc (x ∷ a) b c = ap (λ r. x ∷ r) (append_assoc a b c)

pub append_nil : (a : List ℕ) → a ≡ a ++ []
append_nil [] = refl
append_nil (x ∷ a) = ap (λ r. x ∷ r) (append_nil a)

pub EndsWith-none : (bytes : List ℕ) → EndsWith bytes []
EndsWith-none bytes = (bytes, append_nil bytes)

pub EndsWith-append :
    (bytes tail more : List ℕ) → EndsWith bytes tail → EndsWith (bytes ++ more) (tail ++ more)
EndsWith-append bytes tail more (front, e) =
    (front, ap (λ r. r ++ more) e ∙ append_assoc front tail more)

EndsWith-grown :
    (bytes tail more whole : List ℕ)
    → tail ++ more ≡ whole
    → EndsWith bytes tail
    → EndsWith (bytes ++ more) whole
EndsWith-grown bytes tail more whole e h =
    subst (EndsWith (bytes ++ more)) e (EndsWith-append bytes tail more h)

-- What the bytes end with in each state.
abbrev pub FramedIn : List ℕ → RxState → Rx → Type 0
FramedIn bytes rx_scan s = EndsWith bytes (take s.magic_have magic)
FramedIn bytes rx_header s = EndsWith bytes (take s.have s.header)
FramedIn bytes rx_payload s = EndsWith bytes (s.header ++ read_bytes s.rxbuf 0 s.have)
FramedIn bytes rx_ready s =
    (after : List ℕ) × EndsWith bytes ((s.header ++ read_bytes s.rxbuf 0 s.payload_len) ++ after)

abbrev pub Framed : List ℕ → Rx → Type 0
Framed bytes s = FramedIn bytes s.state s

module _ (blake3_hash : List ℕ → List ℕ) (cntfrq_el0 : ℕ) (bytes : List ℕ) where
  pub reset_scan-Framed : (s : Rx) → Framed bytes (reset_scan s)
  unfolding reset_scan
  reset_scan-Framed s = EndsWith-none bytes

  pub reject-Framed : (reason : Reason) (s : Rx) → Framed bytes (reject reason s)
  unfolding reject
  reject-Framed reason s =
      if-cases (λ (t : Rx). Framed bytes (reset_scan t))
        (ltb 0 (reason_number reason) && ltb (reason_number reason) reason_count)
        (λ e. reset_scan-Framed _) (λ e. reset_scan-Framed s)

  pub check_timeout-Framed :
      (now : ℕ) (s : Rx) → Framed bytes s → Framed bytes (i2_rx_check_timeout now s)
  unfolding i2_rx_check_timeout
  check_timeout-Framed now s f =
      if-cases (Framed bytes)
        (in_frame s.state s.magic_have && (past s.byte_deadline now || past s.frame_deadline now))
        (λ e. reject-Framed reason_timeout s) (λ e. f)

  -- The magic number with one more byte.
  magic_grown :
      (n k byte : ℕ)
      → n ≡ suc k
      → k < 8
      → byte ≡ byte_at magic k
      → EndsWith bytes (take k magic)
      → EndsWith (bytes ++ (byte ∷ [])) (take n magic)
  magic_grown n k byte e l b h =
      EndsWith-grown bytes (take k magic) (byte ∷ []) (take n magic)
        (ap (λ (x : ℕ). take k magic ++ (x ∷ [])) b
          ∙ sym (take-suc k magic 0 l)
          ∙ ap (λ i. take i magic) (sym e))
        h

module _ (blake3_hash : List ℕ → List ℕ) (cntfrq_el0 : ℕ) (bytes : List ℕ) where
  feed_scan-Framed :
      (byte now : ℕ) (s : Rx)
      → s.state ≡ rx_scan
      → InState blake3_hash cntfrq_el0 rx_scan s
      → FramedIn bytes rx_scan s
      → length s.header ≡ frame_header_size
      → Framed (bytes ++ (byte ∷ [])) (feed_scan blake3_hash cntfrq_el0 byte now s)
  unfolding feed_scan
  feed_scan-Framed byte now s e (few, same) f size =
      if-cases (Framed (bytes ++ (byte ∷ []))) (byte == byte_at magic s.magic_have)
        (λ hit. elim (Bool-cases (s.magic_have + 1 == 8)) [
          | inl d ↦ rw d (
              subst (EndsWith (bytes ++ (byte ∷ [])))
                (sym (
                  take-magic blake3_hash cntfrq_el0 8 s.magic_have s.header byte (ground (arith, d))
                    few size same ((==_iff _ _).0 hit)))
                (magic_grown blake3_hash cntfrq_el0 bytes 8 s.magic_have byte (ground (arith, d))
                  few ((==_iff _ _).0 hit) f))
          | inr d ↦
              rw (d, e)
                (magic_grown blake3_hash cntfrq_el0 bytes (s.magic_have + 1) s.magic_have byte
                  (omega arith) few ((==_iff _ _).0 hit) f)
        ])
        (λ miss.
          if-cases (Framed (bytes ++ (byte ∷ []))) (byte == byte_at magic 0)
            (λ first. rw e (
              magic_grown blake3_hash cntfrq_el0 bytes 1 0 byte refl (omega arith)
                ((==_iff _ _).0 first) (EndsWith-none bytes)))
            (λ other. rw e (EndsWith-none (bytes ++ (byte ∷ [])))))

  check_header-Framed :
      (s : Rx) → EndsWith bytes s.header → Framed bytes (check_header blake3_hash cntfrq_el0 s)
  unfolding check_header
  check_header-Framed s f =
      if-cases (Framed bytes) (not (le16 s.header 8 == 1) || not (le16 s.header 10 == 0))
        (λ e. reject-Framed blake3_hash cntfrq_el0 bytes reason_version s)
        (λ ver.
          if-cases (Framed bytes)
            (not (le16 s.header 12 == frame_header_size) || not (le16 s.header 14 == 0))
            (λ e. reject-Framed blake3_hash cntfrq_el0 bytes reason_header s)
            (λ own.
              if-cases (Framed bytes)
                ((le64 s.header 16 == 0) || ltb frame_max_payload (le64 s.header 16))
                (λ e. reject-Framed blake3_hash cntfrq_el0 bytes reason_length _)
                (λ len. subst (EndsWith bytes) (append_nil s.header) f)))

  check_digest-Framed :
      (now : ℕ) (s : Rx)
      → EndsWith bytes (s.header ++ read_bytes s.rxbuf 0 s.payload_len)
      → Framed bytes (check_digest blake3_hash cntfrq_el0 now s)
  unfolding check_digest
  check_digest-Framed now s f =
      if-cases (Framed bytes)
        (not (diff_loop 32 0 (blake3_hash (read_bytes s.rxbuf 0 s.payload_len)) s.header 0 == 0))
        (λ differs. reject-Framed blake3_hash cntfrq_el0 bytes reason_digest _)
        (λ equal. ([], subst (EndsWith bytes) (append_nil _) f))

module _ (blake3_hash : List ℕ → List ℕ) (cntfrq_el0 : ℕ) (bytes : List ℕ) where
  feed_header-Framed :
      (byte : ℕ) (s : Rx)
      → s.state ≡ rx_header
      → s.have < length s.header
      → length s.header ≡ frame_header_size
      → FramedIn bytes rx_header s
      → Framed (bytes ++ (byte ∷ [])) (feed_header blake3_hash cntfrq_el0 byte s)
  unfolding feed_header
  feed_header-Framed byte s e l size f =
      let header : List ℕ = set s.header s.have byte in
      let grown : EndsWith (bytes ++ (byte ∷ [])) (take (s.have + 1) header) =
        EndsWith-grown bytes (take s.have s.header) (byte ∷ []) (take (s.have + 1) header)
          (sym (take-set_next s.have s.header byte l)
            ∙ ap (λ (i : ℕ). take i header) {x = suc s.have} {y = s.have + 1} (omega arith))
          f in
      if-cases (Framed (bytes ++ (byte ∷ []))) (not (s.have + 1 == frame_header_size))
        (λ more. rw e grown)
        (λ done. check_header-Framed blake3_hash cntfrq_el0 (bytes ++ (byte ∷ [])) _ (
          subst (EndsWith (bytes ++ (byte ∷ [])))
            (ap (λ (i : ℕ). take i header) {x = s.have + 1} {y = length header}
                (ground (arith, done, length-set s.header s.have byte, size))
              ∙ take-length header)
            grown))

  feed_payload-Framed :
      (byte now : ℕ) (s : Rx)
      → s.state ≡ rx_payload
      → FramedIn bytes rx_payload s
      → Framed (bytes ++ (byte ∷ [])) (feed_payload blake3_hash cntfrq_el0 byte now s)
  unfolding feed_payload
  feed_payload-Framed byte now s e f =
      let mem : ℕ → ℕ = store_byte s.rxbuf s.have byte in
      let grown : EndsWith (bytes ++ (byte ∷ [])) (s.header ++ read_bytes mem 0 (s.have + 1)) =
        EndsWith-grown bytes (s.header ++ read_bytes s.rxbuf 0 s.have) (byte ∷ [])
          (s.header ++ read_bytes mem 0 (s.have + 1))
          (append_assoc s.header (read_bytes s.rxbuf 0 s.have) (byte ∷ [])
            ∙ ap (λ r. s.header ++ r)
                (sym (read_bytes-store_next s.rxbuf 0 s.have s.have byte (omega arith))
                  ∙ ap (read_bytes mem 0) {x = suc s.have} {y = s.have + 1} (omega arith)))
          f in
      if-cases (Framed (bytes ++ (byte ∷ []))) (s.have + 1 == s.payload_len)
        (λ done. check_digest-Framed blake3_hash cntfrq_el0 (bytes ++ (byte ∷ [])) now _ (
          subst (λ (n : ℕ). EndsWith (bytes ++ (byte ∷ [])) (s.header ++ read_bytes mem 0 n))
            ((==_iff _ _).0 done) grown))
        (λ more. rw e grown)

  feed_in-Framed :
      (st : RxState) (byte now : ℕ) (s : Rx)
      → s.state ≡ st
      → length s.header ≡ frame_header_size
      → InState blake3_hash cntfrq_el0 st s
      → FramedIn bytes st s
      → Framed (bytes ++ (byte ∷ [])) (feed_in blake3_hash cntfrq_el0 st byte now s)
  unfolding feed_in
  feed_in-Framed rx_scan byte now s e size v f =
      feed_scan-Framed blake3_hash cntfrq_el0 bytes byte now s e v f size
  feed_in-Framed rx_header byte now s e size v f =
      feed_header-Framed byte _ e (omega (arith, v.1, size)) size f
  feed_in-Framed rx_payload byte now s e size v f = feed_payload-Framed byte now _ e f
  feed_in-Framed rx_ready byte now s e size v (after, f) = rw e (
    after ++ (byte ∷ []),
    EndsWith-grown bytes (frame ++ after) (byte ∷ []) (frame ++ (after ++ (byte ∷ [])))
        (append_assoc frame after (byte ∷ [])) f,
  )
    where
      frame : List ℕ
      frame = s.header ++ read_bytes s.rxbuf 0 s.payload_len

  -- A byte more.
  pub feed_byte-Framed :
      (byte now : ℕ) (s : Rx)
      → IsRx blake3_hash cntfrq_el0 s
      → Framed bytes s
      → Framed (bytes ++ (byte ∷ [])) (i2_rx_feed_byte blake3_hash cntfrq_el0 byte now s)
  unfolding i2_rx_feed_byte
  feed_byte-Framed byte now s v f =
      let s' : Rx = i2_rx_check_timeout now s in
      let w = check_timeout-IsRx blake3_hash cntfrq_el0 now s v in
      feed_in-Framed s'.state byte now s' refl w.header_size w.stage
        (check_timeout-Framed blake3_hash cntfrq_el0 bytes now s f)
