-- ===== src/Ingress/Session.antt =====
-- The receiver over any sequence of the calls of i2_ingress.h.
use trinitite.Base.{
  ℕ, zero, suc, ◌≤◌, ◌≡◌, refl, ◌∙◌, Bool, not, Option, none, some, List, [], ◌∷◌, arith, length,
  if-cases,
}
use trinitite.Ingress.Receiver.{
  frame_header_size, frame_max_payload, reason_cue, Rx, reset_scan, i2_rx_init, i2_rx_check_timeout,
  is_ready,
}
use trinitite.Ingress.Feed.{
  read_bytes, i2_rx_feed_byte, poll_loop, i2_rx_poll, finish_take, i2_rx_ready, i2_rx_take,
}
use trinitite.Ingress.Verified.{IsRx, reject-IsRx, check_timeout-IsRx, feed_byte-IsRx}
use trinitite.Ingress.Memory.{Outside, reject-Outside, check_timeout-Outside, feed_byte-Outside}

-- The calls: a byte, a look at the clock, a poll with what the line holds, and a take.
pub data RxCall : Type 0 where
  feed_byte_call : ℕ → ℕ → RxCall
  check_timeout_call : ℕ → RxCall
  poll_call : ℕ → ℕ → List (ℕ × ℕ) → RxCall
  take_call : ℕ → RxCall
  init_call : RxCall

-- What a call owes: the invariant, and the memory past the buffer.
module _ (blake3_hash : List ℕ → List ℕ) (cntfrq_el0 : ℕ) where
  abbrev Keeps : Rx → Rx → Type 0
  Keeps s t = IsRx blake3_hash cntfrq_el0 t × Outside s t

  Keeps-trans : (s t u : Rx) → Keeps s t → Keeps t u → Keeps s u
  Keeps-trans s t u p q = (q.0, λ j l. q.1 j l ∙ p.1 j l)

  check_timeout-Keeps :
      (now : ℕ) (s : Rx) → IsRx blake3_hash cntfrq_el0 s → Keeps s (i2_rx_check_timeout now s)
  check_timeout-Keeps now s v = (
    check_timeout-IsRx blake3_hash cntfrq_el0 now s v,
    check_timeout-Outside blake3_hash cntfrq_el0 now s,
  )

  feed_byte-Keeps :
      (byte now : ℕ) (s : Rx)
      → IsRx blake3_hash cntfrq_el0 s
      → Keeps s (i2_rx_feed_byte blake3_hash cntfrq_el0 byte now s)
  feed_byte-Keeps byte now s v = (
    feed_byte-IsRx blake3_hash cntfrq_el0 byte now s v,
    feed_byte-Outside blake3_hash cntfrq_el0 byte now s v,
  )

  poll_loop-Keeps :
      (n : ℕ) (line : List (ℕ × ℕ)) (s : Rx)
      → IsRx blake3_hash cntfrq_el0 s
      → Keeps s (poll_loop blake3_hash cntfrq_el0 n line s).2
  unfolding poll_loop
  poll_loop-Keeps zero line s v = (v, λ j l. refl)
  poll_loop-Keeps (suc n) [] s v = (v, λ j l. refl)
  poll_loop-Keeps (suc n) ((byte, now) ∷ line) s v =
      let s' : Rx = i2_rx_feed_byte blake3_hash cntfrq_el0 byte now s in
      let k = feed_byte-Keeps byte now s v in
      if-cases (λ (r : Bool × List (ℕ × ℕ) × Rx). Keeps s r.2) (is_ready s'.state) (λ e. k)
        (λ e. Keeps-trans s s' _ k (poll_loop-Keeps n line s' k.0))

  poll-Keeps :
      (n now : ℕ) (line : List (ℕ × ℕ)) (s : Rx)
      → IsRx blake3_hash cntfrq_el0 s
      → Keeps s (i2_rx_poll blake3_hash cntfrq_el0 n now line s).2
  unfolding i2_rx_poll
  poll-Keeps n now line s v =
      let s' : Rx = i2_rx_check_timeout now s in
      let k = check_timeout-Keeps now s v in
      if-cases (λ (r : Bool × List (ℕ × ℕ) × Rx). Keeps s r.2) (is_ready s'.state) (λ e. k)
        (λ e. Keeps-trans s s' _ k (poll_loop-Keeps n line s' k.0))

  finish_take-Keeps :
      {N : Type 0} (now : ℕ) (s : Rx) (decoded : Option N)
      → IsRx blake3_hash cntfrq_el0 s
      → Keeps s (finish_take now s decoded).1
  unfolding finish_take reset_scan
  finish_take-Keeps now s none v = (
    reject-IsRx blake3_hash cntfrq_el0 reason_cue s v.header_size v.counters,
    reject-Outside blake3_hash cntfrq_el0 reason_cue s,
  )
  finish_take-Keeps now s (some n) v = (
    record { header_size = v.header_size; counters = v.counters; stage = (omega arith, refl) },
    λ j l. refl,
  )

  take-Keeps :
      {N : Type 0} (cue_bounded : List ℕ → Option N) (now : ℕ) (s : Rx)
      → IsRx blake3_hash cntfrq_el0 s
      → Keeps s (i2_rx_take cue_bounded now s).1
  unfolding i2_rx_take
  take-Keeps {N} cue_bounded now s v =
      if-cases (λ (r : Option N × Rx). Keeps s r.1) (not (i2_rx_ready s)) (λ e. (v, λ j l. refl))
        (λ e. finish_take-Keeps now s (cue_bounded (read_bytes s.rxbuf 0 s.payload_len)) v)

  init-Keeps : (s : Rx) → length s.header ≡ frame_header_size → Keeps s (i2_rx_init s)
  unfolding i2_rx_init reset_scan
  init-Keeps s h =
      (record { header_size = h; counters = refl; stage = (omega arith, refl) }, λ j l. refl)

pub init-IsRx :
    (blake3_hash : List ℕ → List ℕ) (cntfrq_el0 : ℕ) (s : Rx)
    → length s.header ≡ frame_header_size
    → IsRx blake3_hash cntfrq_el0 (i2_rx_init s)
init-IsRx blake3_hash cntfrq_el0 s h = (init-Keeps blake3_hash cntfrq_el0 s h).0

module _ {N : Type 0} (blake3_hash : List ℕ → List ℕ) (cntfrq_el0 : ℕ)
    (cue_bounded : List ℕ → Option N) where
  abbrev pub serve : RxCall → Rx → Rx
  serve (feed_byte_call byte now) s = i2_rx_feed_byte blake3_hash cntfrq_el0 byte now s
  serve (check_timeout_call now) s = i2_rx_check_timeout now s
  serve (poll_call byte_budget now line) s =
      (i2_rx_poll blake3_hash cntfrq_el0 byte_budget now line s).2
  serve (take_call now) s = (i2_rx_take cue_bounded now s).1
  serve init_call s = i2_rx_init s

  abbrev pub rx_session : List RxCall → Rx → Rx
  rx_session [] s = s
  rx_session (c ∷ cs) s = rx_session cs (serve c s)

  serve-Keeps :
      (c : RxCall) (s : Rx)
      → IsRx blake3_hash cntfrq_el0 s
      → Keeps blake3_hash cntfrq_el0 s (serve c s)
  serve-Keeps (feed_byte_call byte now) s v = feed_byte-Keeps blake3_hash cntfrq_el0 byte now s v
  serve-Keeps (check_timeout_call now) s v = check_timeout-Keeps blake3_hash cntfrq_el0 now s v
  serve-Keeps (poll_call n now line) s v = poll-Keeps blake3_hash cntfrq_el0 n now line s v
  serve-Keeps (take_call now) s v = take-Keeps blake3_hash cntfrq_el0 cue_bounded now s v
  serve-Keeps init_call s v = init-Keeps blake3_hash cntfrq_el0 s v.header_size

  pub serve-IsRx :
      (c : RxCall) (s : Rx)
      → IsRx blake3_hash cntfrq_el0 s
      → IsRx blake3_hash cntfrq_el0 (serve c s)
  serve-IsRx c s v = (serve-Keeps c s v).0

  rx_session-Keeps :
      (cs : List RxCall) (s : Rx)
      → IsRx blake3_hash cntfrq_el0 s
      → Keeps blake3_hash cntfrq_el0 s (rx_session cs s)
  rx_session-Keeps [] s v = (v, λ j l. refl)
  rx_session-Keeps (c ∷ cs) s v =
      let k = serve-Keeps c s v in
      Keeps-trans blake3_hash cntfrq_el0 s (serve c s) _ k (rx_session-Keeps cs (serve c s) k.0)

-- After `i2_rx_init` with the 56-byte header, any sequence of calls keeps the invariant of the receiver:
-- the index at which the next byte is stored is inside the header, or inside the announced length and that
-- inside the buffer, and the header so far is the magic number, then a checked header, and in the ready
-- state the digest of the buffer is the one in the header. No call changes memory past the buffer.
pub rx_session-IsRx :
    {N : Type 0} (blake3_hash : List ℕ → List ℕ) (cntfrq_el0 : ℕ) (cue_bounded : List ℕ → Option N)
    (cs : List RxCall) (s : Rx)
    → length s.header ≡ frame_header_size
    → IsRx blake3_hash cntfrq_el0 (rx_session blake3_hash cntfrq_el0 cue_bounded cs (i2_rx_init s))
      × ((j : ℕ)
          → frame_max_payload ≤ j
          → (rx_session blake3_hash cntfrq_el0 cue_bounded cs (i2_rx_init s)).rxbuf j ≡ s.rxbuf j)
rx_session-IsRx blake3_hash cntfrq_el0 cue_bounded cs s h =
    let k = init-Keeps blake3_hash cntfrq_el0 s h in
    Keeps-trans blake3_hash cntfrq_el0 s (i2_rx_init s) _ k
      (rx_session-Keeps blake3_hash cntfrq_el0 cue_bounded cs (i2_rx_init s) k.0)
