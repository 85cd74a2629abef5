-- ===== src/Ingress/Payload.antt =====
-- The receiver while the bytes of a frame come in on time: the header and the payload.
use trinitite.Base.{
  ℕ, zero, suc, ◌+◌, ◌≤◌, ◌<◌, ◌≡◌, refl, sym, ap, ap₂, ◌∙◌, true, false, not, ◌||◌, List, [], ◌∷◌,
  ◌++◌, arith, ltb, ◌==◌, length, set, take, take_of_le, length-set, length-append, ==_iff,
  ==_of_ne,
}
use trinitite.Ingress.Bytes.{le16, le64}
use trinitite.Ingress.Receiver.{frame_header_size, frame_max_payload, rx_payload, rx_ready, Rx}
use trinitite.Ingress.Feed.{
  read_bytes, store_byte, diff_loop, check_header, feed_header, check_digest, feed_payload,
}
use trinitite.Ingress.Digest.{diff_loop-equal}
use trinitite.Ingress.Scan.{InHeader}
use trinitite.Ingress.Verified.{IsHeader, Matches, take-set_next}

-- The header `h` is checked, and the first bytes of the payload are `done`.
pub record InPayload (h : List ℕ) (len : ℕ) (done : List ℕ) (byte_end frame_end : ℕ) (s : Rx)
    : Type 0 where
  pub in_payload : s.state ≡ rx_payload
  pub header : s.header ≡ h
  pub count : s.have ≡ length done
  pub whole : s.payload_len ≡ len
  pub stored : read_bytes s.rxbuf 0 (length done) ≡ done
  pub byte_due : s.byte_deadline ≡ byte_end
  pub frame_due : s.frame_deadline ≡ frame_end

-- The receiver holds the frame of a payload.
pub record Received (payload : List ℕ) (s : Rx) : Type 0 where
  pub ready : s.state ≡ rx_ready
  pub size : s.payload_len ≡ length payload
  pub bytes : read_bytes s.rxbuf 0 (length payload) ≡ payload

read_bytes-store_past :
    (mem : ℕ → ℕ) (i n k b : ℕ)
    → i + n ≤ k
    → read_bytes (store_byte mem k b) i n ≡ read_bytes mem i n
read_bytes-store_past mem i zero k b l = refl
read_bytes-store_past mem i (suc n) k b l =
    ap₂ (λ x xs. x ∷ xs) (rw (==_of_ne i k (λ e. absurd (omega (arith, e, l)))) refl)
      (read_bytes-store_past mem (suc i) n k b (omega (arith, l)))

pub read_bytes-store_next :
    (mem : ℕ → ℕ) (i n k b : ℕ)
    → i + n ≡ k
    → read_bytes (store_byte mem k b) i (suc n) ≡ read_bytes mem i n ++ (b ∷ [])
read_bytes-store_next mem i zero k b l =
    ap (λ x. x ∷ []) (rw ((==_iff i k).1 (omega (arith, l))) refl)
read_bytes-store_next mem i (suc n) k b l =
    ap₂ (λ x xs. x ∷ xs) (rw (==_of_ne i k (λ e. absurd (omega (arith, e, l)))) refl)
      (read_bytes-store_next mem (suc i) n k b (omega (arith, l)))

pub grown-suc : (done : List ℕ) (byte : ℕ) → length (done ++ (byte ∷ [])) ≡ suc (length done)
grown-suc done byte = omega (arith, length-append done (byte ∷ []))

-- The bytes of the header so far, and the next one.
take-grown :
    (done : List ℕ) (byte : ℕ) (h : List ℕ) (have : ℕ)
    → have ≡ length done
    → take (length done) h ≡ done
    → length done < length h
    → take (length (done ++ (byte ∷ []))) (set h have byte) ≡ done ++ (byte ∷ [])
take-grown done byte h have e start l =
    ap₂ (λ n k. take n (set h k byte)) (grown-suc done byte) e
    ∙ take-set_next (length done) h byte l
    ∙ ap (λ r. r ++ (byte ∷ [])) start

read_bytes-grown :
    (done : List ℕ) (byte : ℕ) (mem : ℕ → ℕ) (have : ℕ)
    → have ≡ length done
    → read_bytes mem 0 (length done) ≡ done
    → read_bytes (store_byte mem have byte) 0 (length (done ++ (byte ∷ []))) ≡ done ++ (byte ∷ [])
read_bytes-grown done byte mem have e stored =
    ap (read_bytes (store_byte mem have byte) 0) (grown-suc done byte)
    ∙ read_bytes-store_next mem 0 (length done) have byte (omega (arith, e))
    ∙ ap (λ r. r ++ (byte ∷ [])) stored

module _ (blake3_hash : List ℕ → List ℕ) (cntfrq_el0 : ℕ) where
  -- One more byte of the header, not the last.
  pub feed_header-next :
      (done : List ℕ) (byte b f : ℕ) (s : Rx)
      → length done + 1 < frame_header_size
      → InHeader done b f s
      → InHeader (done ++ (byte ∷ [])) b f (feed_header blake3_hash cntfrq_el0 byte s)
  unfolding feed_header
  feed_header-next done byte b f s l v =
      let more : not (s.have + 1 == frame_header_size) ≡ true = ground (arith, v.count, l) in
      rw more (record {
        in_header = v.in_header;
        count = omega (arith, v.count, length-append done (byte ∷ []));
        size = length-set s.header s.have byte ∙ v.size;
        start = take-grown done byte s.header s.have v.count v.start (omega (arith, v.size, l));
        byte_due = v.byte_due;
        frame_due = v.frame_due;
      })

  check_header-InPayload :
      (h : List ℕ) (len b f : ℕ) (s : Rx)
      → IsHeader h len
      → s.header ≡ h
      → s.byte_deadline ≡ b
      → s.frame_deadline ≡ f
      → InPayload h len [] b f (check_header blake3_hash cntfrq_el0 s)
  unfolding check_header
  check_header-InPayload h len b f s v e eb ef =
      let version : (not (le16 s.header 8 == 1) || not (le16 s.header 10 == 0)) ≡ false =
        rw e (ground (arith, v.major, v.minor)) in
      let own : (not (le16 s.header 12 == frame_header_size) || not (le16 s.header 14 == 0))
          ≡ false =
        rw e (ground (arith, v.own_size, v.flags)) in
      let fits : ((le64 s.header 16 == 0) || ltb frame_max_payload (le64 s.header 16)) ≡ false =
        rw e (ground (arith, v.announced, v.not_empty, v.fits)) in
      rw (version, own, fits)
        (record {
          in_payload = refl;
          header = e;
          count = refl;
          whole = ap (λ g. le64 g 16) e ∙ v.announced;
          stored = refl;
          byte_due = eb;
          frame_due = ef;
        })

  -- The last byte of a header that passes the tests.
  pub feed_header-last :
      (done h : List ℕ) (len byte b f : ℕ) (s : Rx)
      → IsHeader h len
      → h ≡ done ++ (byte ∷ [])
      → length h ≡ frame_header_size
      → InHeader done b f s
      → InPayload h len [] b f (feed_header blake3_hash cntfrq_el0 byte s)
  unfolding feed_header
  feed_header-last done h len byte b f s ok w l v =
      let size : length done + 1 ≡ frame_header_size =
        sym (length-append done (byte ∷ [])) ∙ ap length (sym w) ∙ l in
      let last : not (s.have + 1 == frame_header_size) ≡ false = ground (arith, v.count, size) in
      let full : set s.header s.have byte ≡ h =
        sym (
          take_of_le (length (done ++ (byte ∷ []))) (set s.header s.have byte) (
            omega (
              arith,
              length-set s.header s.have byte,
              v.size,
              length-append done (byte ∷ []),
              size,
            )))
        ∙ take-grown done byte s.header s.have v.count v.start (omega (arith, v.size, size))
        ∙ sym w in
      rw last (check_header-InPayload h len b f _ ok full v.byte_due v.frame_due)

  -- One more byte of the payload, not the last.
  pub feed_payload-next :
      (h done : List ℕ) (len byte t b f : ℕ) (s : Rx)
      → length done + 1 < len
      → InPayload h len done b f s
      → InPayload h len (done ++ (byte ∷ [])) b f (feed_payload blake3_hash cntfrq_el0 byte t s)
  unfolding feed_payload
  feed_payload-next h done len byte t b f s l v =
      let more : (s.have + 1 == s.payload_len) ≡ false = ground (arith, v.count, v.whole, l) in
      rw more (record {
        in_payload = v.in_payload;
        header = v.header;
        count = omega (arith, v.count, length-append done (byte ∷ []));
        whole = v.whole;
        stored = read_bytes-grown done byte s.rxbuf s.have v.count v.stored;
        byte_due = v.byte_due;
        frame_due = v.frame_due;
      })

  check_digest-Received :
      (h payload : List ℕ) (t : ℕ) (s : Rx)
      → read_bytes s.rxbuf 0 s.payload_len ≡ payload
      → s.payload_len ≡ length payload
      → s.header ≡ h
      → Matches (blake3_hash payload) h
      → Received payload (check_digest blake3_hash cntfrq_el0 t s)
  unfolding check_digest
  check_digest-Received h payload t s stored size e same =
      let none : diff_loop 32 0 (blake3_hash (read_bytes s.rxbuf 0 s.payload_len)) s.header 0 ≡ 0 =
        ap₂ (λ p g. diff_loop 32 0 (blake3_hash p) g 0) stored e
        ∙ diff_loop-equal 32 0 (blake3_hash payload) h (λ j p q. same j (omega (arith, q))) in
      let equal : not
            (diff_loop 32 0 (blake3_hash (read_bytes s.rxbuf 0 s.payload_len)) s.header 0 == 0)
          ≡ false =
        ap (λ (d : ℕ). not (d == 0)) none in
      rw equal (record {
        ready = refl;
        size = size;
        bytes = ap (read_bytes s.rxbuf 0) (sym size) ∙ stored;
      })

  -- The last byte of a payload whose digest is the one in the header.
  pub feed_payload-last :
      (h done payload : List ℕ) (byte t b f : ℕ) (s : Rx)
      → payload ≡ done ++ (byte ∷ [])
      → Matches (blake3_hash payload) h
      → InPayload h (length payload) done b f s
      → Received payload (feed_payload blake3_hash cntfrq_el0 byte t s)
  unfolding feed_payload
  feed_payload-last h done payload byte t b f s w same v =
      let size : length payload ≡ suc (length done) = ap length w ∙ grown-suc done byte in
      let last : (s.have + 1 == s.payload_len) ≡ true = ground (arith, v.count, v.whole, size) in
      rw last (
        check_digest-Received h payload t _
          (ap (read_bytes (store_byte s.rxbuf s.have byte) 0) (v.whole ∙ ap length w)
            ∙ read_bytes-grown done byte s.rxbuf s.have v.count v.stored
            ∙ sym w)
          v.whole v.header same)
