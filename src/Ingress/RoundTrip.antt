-- ===== src/Ingress/RoundTrip.antt =====
-- The header and the payload of a frame that comes in on time, byte after byte.
use trinitite.Base.{
  ℕ, suc, ◌+◌, ◌<◌, ◌≡◌, refl, sym, ap, subst, ◌∙◌, List, [], ◌∷◌, ◌++◌, arith, length,
  length-append, append_assoc,
}
use trinitite.Ingress.Receiver.{
  frame_header_size, rx_header, rx_payload, Rx, add_ticks, interbyte_ticks,
}
use trinitite.Ingress.Feed.{feed_header, feed_payload, feed_in, i2_rx_feed_byte}
use trinitite.Ingress.Verified.{IsHeader, Matches}
use trinitite.Ingress.Timing.{feed_all, OnTime, feed_byte-early}
use trinitite.Ingress.Scan.{InHeader}
use trinitite.Ingress.Payload.{
  InPayload, Received, feed_header-next, feed_header-last, feed_payload-next, feed_payload-last,
}

module _ (blake3_hash : List ℕ → List ℕ) (cntfrq_el0 : ℕ) where
  -- A byte of the header on time sets the deadline of the next byte.
  header-feeds :
      (done : List ℕ) (byte t b f : ℕ) (s : Rx)
      → InHeader done b f s
      → t < b
      → t < f
      → i2_rx_feed_byte blake3_hash cntfrq_el0 byte t s
        ≡ feed_header blake3_hash cntfrq_el0 byte
            (record s { byte_deadline = add_ticks t (interbyte_ticks cntfrq_el0) })
  unfolding feed_in
  header-feeds done byte t b f s v lb lf =
      feed_byte-early blake3_hash cntfrq_el0 byte t rx_header s v.in_header
        (omega (arith, lb, v.byte_due)) (omega (arith, lf, v.frame_due))

  InHeader-later :
      (done : List ℕ) (b b' f : ℕ) (s : Rx)
      → InHeader done b f s
      → InHeader done b' f (record s { byte_deadline = b' })
  InHeader-later done b b' f s v = record {
    in_header = v.in_header;
    count = v.count;
    size = v.size;
    start = v.start;
    byte_due = refl;
    frame_due = v.frame_due;
  }

  abbrev EntersPayload : List ℕ → ℕ → List ℕ → List ℕ → List ℕ → ℕ → Rx → Type 0
  EntersPayload h len bs rest ts f s =
      (b : ℕ) × (ts' : List ℕ) × (s' : Rx) × (feed_all blake3_hash cntfrq_el0 (bs ++ rest) ts s
        ≡ feed_all blake3_hash cntfrq_el0 rest ts' s')
      × InPayload h len [] b f s'
      × OnTime cntfrq_el0 0 b f ts'
      × (length ts' ≡ length rest)

  -- The rest of a header that passes the tests leads into the payload.
  pub header-EntersPayload :
      (hs done h ts rest : List ℕ) (byte len b f : ℕ) (s : Rx)
      → IsHeader h len
      → h ≡ done ++ (byte ∷ hs)
      → length h ≡ frame_header_size
      → InHeader done b f s
      → OnTime cntfrq_el0 0 b f ts
      → length ts ≡ suc (length hs) + length rest
      → EntersPayload h len (byte ∷ hs) rest ts f s
  header-EntersPayload hs done h [] rest byte len b f s ok w l v o n = absurd (omega (arith, n))
  header-EntersPayload [] done h (t ∷ ts) rest byte len b f s ok w l v (lb, lf, o) n =
      let due : ℕ = add_ticks t (interbyte_ticks cntfrq_el0) in
      (
        due,
        ts,
        feed_header blake3_hash cntfrq_el0 byte (record s { byte_deadline = due }),
        ap (feed_all blake3_hash cntfrq_el0 rest ts) (header-feeds done byte t b f s v lb lf),
        feed_header-last blake3_hash cntfrq_el0 done h len byte due f _ ok w l
            (InHeader-later done b due f s v),
        o,
        omega (arith, n),
      )
  header-EntersPayload (x ∷ hs) done h (t ∷ ts) rest byte len b f s ok w l v (lb, lf, o) n =
      let due : ℕ = add_ticks t (interbyte_ticks cntfrq_el0) in
      let s₁ : Rx = record s { byte_deadline = due } in
      let room : length done + 1 < frame_header_size =
        omega (arith, l, ap length w ∙ length-append done (byte ∷ x ∷ hs)) in
      let (b', ts', s', same, there, left, count) =
        header-EntersPayload hs (done ++ (byte ∷ [])) h ts rest x len due f
          (feed_header blake3_hash cntfrq_el0 byte s₁) ok
          (w ∙ sym (append_assoc done (byte ∷ []) (x ∷ hs))) l
          (feed_header-next blake3_hash cntfrq_el0 done byte due f s₁ room
            (InHeader-later done b due f s v))
          o (omega (arith, n)) in
      (
        b',
        ts',
        s',
        ap (feed_all blake3_hash cntfrq_el0 ((x ∷ hs) ++ rest) ts)
              (header-feeds done byte t b f s v lb lf)
            ∙ same,
        there,
        left,
        count,
      )

  payload-feeds :
      (h done : List ℕ) (len byte t b f : ℕ) (s : Rx)
      → InPayload h len done b f s
      → t < b
      → t < f
      → i2_rx_feed_byte blake3_hash cntfrq_el0 byte t s
        ≡ feed_payload blake3_hash cntfrq_el0 byte t
            (record s { byte_deadline = add_ticks t (interbyte_ticks cntfrq_el0) })
  unfolding feed_in
  payload-feeds h done len byte t b f s v lb lf =
      feed_byte-early blake3_hash cntfrq_el0 byte t rx_payload s v.in_payload
        (omega (arith, lb, v.byte_due)) (omega (arith, lf, v.frame_due))

  InPayload-later :
      (h done : List ℕ) (len b b' f : ℕ) (s : Rx)
      → InPayload h len done b f s
      → InPayload h len done b' f (record s { byte_deadline = b' })
  InPayload-later h done len b b' f s v = record {
    in_payload = v.in_payload;
    header = v.header;
    count = v.count;
    whole = v.whole;
    stored = v.stored;
    byte_due = refl;
    frame_due = v.frame_due;
  }

  -- The rest of a payload whose digest is the one in the header.
  pub payload-Received :
      (ps done payload h ts : List ℕ) (byte b f : ℕ) (s : Rx)
      → payload ≡ done ++ (byte ∷ ps)
      → Matches (blake3_hash payload) h
      → InPayload h (length payload) done b f s
      → OnTime cntfrq_el0 0 b f ts
      → length ts ≡ suc (length ps)
      → Received payload (feed_all blake3_hash cntfrq_el0 (byte ∷ ps) ts s)
  payload-Received ps done payload h [] byte b f s w same v o n = absurd (omega (arith, n))
  payload-Received [] done payload h (t ∷ ts) byte b f s w same v (lb, lf, o) n =
      let due : ℕ = add_ticks t (interbyte_ticks cntfrq_el0) in
      subst (Received payload) (sym (payload-feeds h done (length payload) byte t b f s v lb lf)) (
        feed_payload-last blake3_hash cntfrq_el0 h done payload byte t due f _ w same
          (InPayload-later h done (length payload) b due f s v))
  payload-Received (x ∷ ps) done payload h (t ∷ ts) byte b f s w same v (lb, lf, o) n =
      let due : ℕ = add_ticks t (interbyte_ticks cntfrq_el0) in
      let s₁ : Rx = record s { byte_deadline = due } in
      let room : length done + 1 < length payload =
        omega (arith, ap length w ∙ length-append done (byte ∷ x ∷ ps)) in
      subst (λ u. Received payload (feed_all blake3_hash cntfrq_el0 (x ∷ ps) ts u))
        (sym (payload-feeds h done (length payload) byte t b f s v lb lf))
        (payload-Received ps (done ++ (byte ∷ [])) payload h ts x due f
          (feed_payload blake3_hash cntfrq_el0 byte t s₁)
          (w ∙ sym (append_assoc done (byte ∷ []) (x ∷ ps))) same
          (feed_payload-next blake3_hash cntfrq_el0 h done (length payload) byte t due f s₁ room
            (InPayload-later h done (length payload) b due f s v))
          o (omega (arith, n)))
