-- ===== src/Ingress/Exchange.antt =====
-- A frame that `i2_frame_encode` makes and that comes in on time is received.
use trinitite.Base.{
  ℕ, suc, ◌+◌, ◌≤◌, ◌<◌, ◌≡◌, refl, sym, ap, subst, ◌∙◌, Option, none, some, List, [], ◌∷◌, ◌++◌,
  arith, length, get_or, take, length-append,
}
use trinitite.Ingress.Bytes.{le16}
use trinitite.Ingress.Receiver.{frame_header_size, frame_max_payload, magic, rx_scan, Rx}
use trinitite.Ingress.Feed.{read_bytes, i2_rx_take, finish_take}
use trinitite.Ingress.Verified.{IsHeader, Matches, IsRx}
use trinitite.Ingress.Taken.{take-ready}
use trinitite.Ingress.Timing.{feed_all, FrameOnTime}
use trinitite.Ingress.Scan.{frame-EntersHeader}
use trinitite.Ingress.Payload.{Received}
use trinitite.Ingress.Frame.{
  i2_frame_encode, le_bytes, fixed_fields, header_bytes, i2_frame_encode-eq, le64-le_bytes,
}
use trinitite.Ingress.RoundTrip.{header-EntersPayload, payload-Received}

get_or-append : (xs ys : List ℕ) (i : ℕ) → get_or (xs ++ ys) (length xs + i) 0 ≡ get_or ys i 0
get_or-append [] ys i = ap (λ k. get_or ys k 0) (omega arith)
get_or-append (x ∷ xs) ys i =
    let next : suc (length xs) + i ≡ suc (length xs + i) = omega arith in
    ap (λ k. get_or (x ∷ (xs ++ ys)) k 0) next ∙ get_or-append xs ys i

-- The header of the sender passes the tests of the receiver.
header_bytes-IsHeader :
    (blake3_hash : List ℕ → List ℕ) (payload : List ℕ)
    → 0 < length payload
    → length payload ≤ frame_max_payload
    → IsHeader (header_bytes blake3_hash payload) (length payload)
unfolding le16
header_bytes-IsHeader blake3_hash payload n l = record {
  starts = refl;
  major = refl;
  minor = refl;
  own_size = refl;
  flags = refl;
  announced = le64-le_bytes (length payload) (blake3_hash payload) (omega (arith, l));
  not_empty = n;
  fits = l;
}

header_bytes-Matches :
    (blake3_hash : List ℕ → List ℕ) (payload : List ℕ)
    → Matches (blake3_hash payload) (header_bytes blake3_hash payload)
header_bytes-Matches blake3_hash payload i l =
    sym (get_or-append (fixed_fields ++ le_bytes 8 0 (length payload)) (blake3_hash payload) i)

-- The bytes of the header after the magic number and one more.
abbrev later_fields : (List ℕ → List ℕ) → List ℕ → List ℕ
later_fields blake3_hash payload =
    0 ∷ 0 ∷ 0 ∷ 56 ∷ 0 ∷ 0 ∷ 0 ∷ (le_bytes 8 0 (length payload) ++ blake3_hash payload)

frame-Received :
    (blake3_hash : List ℕ → List ℕ) (cntfrq_el0 : ℕ) (p t : ℕ) (ps ts : List ℕ) (s : Rx)
    → length (blake3_hash (p ∷ ps)) ≡ 32
    → suc (length ps) ≤ frame_max_payload
    → s.state ≡ rx_scan
    → IsRx blake3_hash cntfrq_el0 s
    → length ts ≡ frame_header_size + length ps
    → FrameOnTime cntfrq_el0 (t ∷ ts)
    → Received
        (p ∷ ps)
        (feed_all blake3_hash cntfrq_el0 (header_bytes blake3_hash (p ∷ ps) ++ (p ∷ ps)) (t ∷ ts) s)
frame-Received blake3_hash cntfrq_el0 p t ps ts s hash fits e v n o =
    let payload : List ℕ = p ∷ ps in
    let hs : List ℕ = later_fields blake3_hash payload in
    let (ts₁, s₁, same₁, there₁, left₁, count₁) =
      frame-EntersHeader blake3_hash cntfrq_el0 t ts ((1 ∷ hs) ++ payload) s e v o
        (omega (arith, n, hash, length-append (blake3_hash payload) payload)) in
    let (b₂, ts₂, s₂, same₂, there₂, left₂, count₂) =
      header-EntersPayload blake3_hash cntfrq_el0 hs magic (header_bytes blake3_hash payload) ts₁
        payload 1 (length payload) _ _ s₁
        (header_bytes-IsHeader blake3_hash payload (omega arith) fits) refl (omega (arith, hash))
        there₁ left₁ (omega (arith, count₁, hash, length-append (blake3_hash payload) payload)) in
    subst (Received payload) (sym (same₁ ∙ same₂)) (
      payload-Received blake3_hash cntfrq_el0 ps [] payload (header_bytes blake3_hash payload) ts₂ p
        b₂ _ s₂ refl (header_bytes-Matches blake3_hash payload) there₂ left₂ count₂)

finish_take-decoded :
    {N : Type 0} (now : ℕ) (s : Rx) (decoded : Option N) → (finish_take now s decoded).0 ≡ decoded
unfolding finish_take
finish_take-decoded now s none = refl
finish_take-decoded now s (some n) = refl

take-Received :
    {N : Type 0} (blake3_hash : List ℕ → List ℕ) (cntfrq_el0 : ℕ) (cue_bounded : List ℕ → Option N)
    (payload : List ℕ) (now : ℕ) (s : Rx)
    → Received payload s
    → (i2_rx_take cue_bounded now s).0 ≡ cue_bounded payload
take-Received blake3_hash cntfrq_el0 cue_bounded payload now s v =
    ap (λ r. r.0) (take-ready blake3_hash cntfrq_el0 cue_bounded now s v.ready)
    ∙ finish_take-decoded now s (cue_bounded (read_bytes s.rxbuf 0 s.payload_len))
    ∙ ap cue_bounded (ap (read_bytes s.rxbuf 0) v.size ∙ v.bytes)

-- A frame that `i2_frame_encode` makes of a payload of 1 to 28672 bytes, with room in the array for it and
-- a digest of 32 bytes, and whose bytes come in on time, is received from any state of the scan that
-- satisfies the invariant: the receiver is ready with exactly that payload in its buffer, and a take hands
-- out what the bounded decoder makes of it.
pub i2_frame_encode-Received :
    {N : Type 0} (blake3_hash : List ℕ → List ℕ) (cntfrq_el0 : ℕ) (cue_bounded : List ℕ → Option N)
    (payload out ts : List ℕ) (out_cap now : ℕ) (s : Rx)
    → length (blake3_hash payload) ≡ 32
    → 0 < length payload
    → length payload ≤ frame_max_payload
    → frame_header_size + length payload ≤ out_cap
    → out_cap ≤ length out
    → s.state ≡ rx_scan
    → IsRx blake3_hash cntfrq_el0 s
    → length ts ≡ frame_header_size + length payload
    → FrameOnTime cntfrq_el0 ts
    → (frame : List ℕ × ℕ) × (i2_frame_encode blake3_hash payload out out_cap ≡ some frame)
      × Received payload (feed_all blake3_hash cntfrq_el0 (take frame.1 frame.0) ts s)
      × ((i2_rx_take cue_bounded now
            (feed_all blake3_hash cntfrq_el0 (take frame.1 frame.0) ts s)).0
          ≡ cue_bounded payload)
i2_frame_encode-Received blake3_hash cntfrq_el0 cue_bounded [] out ts out_cap now s hash n l room
      size e v c o =
    absurd (omega (arith, n))
i2_frame_encode-Received blake3_hash cntfrq_el0 cue_bounded (p ∷ ps) out [] out_cap now s hash n l
      room size e v c o =
    absurd (omega (arith, c))
i2_frame_encode-Received blake3_hash cntfrq_el0 cue_bounded (p ∷ ps) out (t ∷ ts) out_cap now s hash
      n l room size e v c o =
    let (array, encoded, bytes) =
      i2_frame_encode-eq blake3_hash (p ∷ ps) out out_cap hash n l room size in
    let received =
      subst (λ (bs : List ℕ). Received (p ∷ ps) (feed_all blake3_hash cntfrq_el0 bs (t ∷ ts) s))
        (sym bytes)
        (frame-Received blake3_hash cntfrq_el0 p t ps ts s hash l e v (omega (arith, c)) o) in
    (
      (array, frame_header_size + length (p ∷ ps)),
      encoded,
      received,
      take-Received blake3_hash cntfrq_el0 cue_bounded (p ∷ ps) now _ received,
    )
