-- ===== src/Ingress/Taken.antt =====
-- What a take has behind it: the frame among the bytes that have come in.
use trinitite.Base.{
  Bool-cases, inl, inr, ℕ, zero, suc, ◌≡◌, refl, sym, ap, subst, ◌∙◌, not, Option, none, some, List,
  [], ◌∷◌, ◌++◌, arith, length, if-cases, if◌then◌else◌,
}
use trinitite.Ingress.Receiver.{
  frame_header_size, RxState, rx_scan, rx_header, rx_payload, rx_ready, reason_cue, Rx, reset_scan,
  i2_rx_init, i2_rx_check_timeout, is_ready,
}
use trinitite.Ingress.Feed.{
  read_bytes, i2_rx_feed_byte, poll_loop, i2_rx_poll, finish_take, i2_rx_ready, i2_rx_take,
}
use trinitite.Ingress.Verified.{
  IsHeader, Matches, InState, IsRx, check_timeout-IsRx, feed_byte-IsRx,
}
use trinitite.Ingress.Session.{
  RxCall, feed_byte_call, check_timeout_call, poll_call, take_call, init_call, serve, serve-IsRx,
  rx_session, init-IsRx, rx_session-IsRx,
}
use trinitite.Ingress.History.{
  append_nil, append_assoc, Framed, FramedIn, reset_scan-Framed, reject-Framed,
  check_timeout-Framed, feed_byte-Framed,
}

module _ (blake3_hash : List ℕ → List ℕ) (cntfrq_el0 : ℕ) where
  -- The bytes that a poll takes from the line: up to the one that completes a frame.
  abbrev pub polled : ℕ → List (ℕ × ℕ) → Rx → List ℕ
  polled zero line s = []
  polled (suc n) [] s = []
  polled (suc n) ((byte, now) ∷ line) s =
      let s' : Rx = i2_rx_feed_byte blake3_hash cntfrq_el0 byte now s in
      let rest : List ℕ = polled n line s' in if is_ready s'.state then byte ∷ [] else byte ∷ rest

  -- The bytes that a call brings in.
  abbrev pub brought : RxCall → Rx → List ℕ
  brought (feed_byte_call byte now) s = byte ∷ []
  brought (check_timeout_call now) s = []
  brought (poll_call byte_budget now line) s =
      let s' : Rx = i2_rx_check_timeout now s in
      if is_ready s'.state then [] else polled byte_budget line s'
  brought (take_call now) s = []
  brought init_call s = []

  poll_loop-Framed :
      (n : ℕ) (line : List (ℕ × ℕ)) (bytes : List ℕ) (s : Rx)
      → IsRx blake3_hash cntfrq_el0 s
      → Framed bytes s
      → Framed (bytes ++ polled n line s) (poll_loop blake3_hash cntfrq_el0 n line s).2
  unfolding poll_loop
  poll_loop-Framed zero line bytes s v f = subst (λ b. Framed b s) (append_nil bytes) f
  poll_loop-Framed (suc n) [] bytes s v f = subst (λ b. Framed b s) (append_nil bytes) f
  poll_loop-Framed (suc n) ((byte, now) ∷ line) bytes s v f =
      let s' : Rx = i2_rx_feed_byte blake3_hash cntfrq_el0 byte now s in
      let v' = feed_byte-IsRx blake3_hash cntfrq_el0 byte now s v in
      let f' = feed_byte-Framed blake3_hash cntfrq_el0 bytes byte now s v f in
      elim (Bool-cases (is_ready s'.state)) [
        | inl y ↦ rw y f'
        | inr n' ↦ rw n' (
            subst (λ b. Framed b (poll_loop blake3_hash cntfrq_el0 n line s').2)
              (append_assoc bytes (byte ∷ []) (polled n line s'))
              (poll_loop-Framed n line (bytes ++ (byte ∷ [])) s' v' f'))
      ]

  poll-Framed :
      (n now : ℕ) (line : List (ℕ × ℕ)) (bytes : List ℕ) (s : Rx)
      → IsRx blake3_hash cntfrq_el0 s
      → Framed bytes s
      → Framed
          (bytes ++ brought (poll_call n now line) s)
          (i2_rx_poll blake3_hash cntfrq_el0 n now line s).2
  unfolding i2_rx_poll
  poll-Framed n now line bytes s v f =
      let s' : Rx = i2_rx_check_timeout now s in
      let f' = check_timeout-Framed blake3_hash cntfrq_el0 bytes now s f in
      elim (Bool-cases (is_ready s'.state)) [
        | inl y ↦ rw y (subst (λ b. Framed b s') (append_nil bytes) f')
        | inr n' ↦ rw n' (
            poll_loop-Framed n line bytes s' (check_timeout-IsRx blake3_hash cntfrq_el0 now s v) f')
      ]

  finish_take-Framed :
      {N : Type 0} (now : ℕ) (s : Rx) (decoded : Option N) (bytes : List ℕ)
      → Framed bytes (finish_take now s decoded).1
  unfolding finish_take
  finish_take-Framed now s none bytes = reject-Framed blake3_hash cntfrq_el0 bytes reason_cue s
  finish_take-Framed now s (some n) bytes = reset_scan-Framed blake3_hash cntfrq_el0 bytes _

  take-Framed :
      {N : Type 0} (cue_bounded : List ℕ → Option N) (now : ℕ) (bytes : List ℕ) (s : Rx)
      → Framed bytes s
      → Framed bytes (i2_rx_take cue_bounded now s).1
  unfolding i2_rx_take
  take-Framed {N} cue_bounded now bytes s f =
      if-cases (λ (r : Option N × Rx). Framed bytes r.1) (not (i2_rx_ready s)) (λ e. f)
        (λ e. finish_take-Framed now s (cue_bounded (read_bytes s.rxbuf 0 s.payload_len)) bytes)

module _ {N : Type 0} (blake3_hash : List ℕ → List ℕ) (cntfrq_el0 : ℕ)
    (cue_bounded : List ℕ → Option N) where
  serve-Framed :
      (c : RxCall) (bytes : List ℕ) (s : Rx)
      → IsRx blake3_hash cntfrq_el0 s
      → Framed bytes s
      → Framed
          (bytes ++ brought blake3_hash cntfrq_el0 c s)
          (serve blake3_hash cntfrq_el0 cue_bounded c s)
  serve-Framed (feed_byte_call byte now) bytes s v f =
      feed_byte-Framed blake3_hash cntfrq_el0 bytes byte now s v f
  serve-Framed (check_timeout_call now) bytes s v f =
      subst (λ b. Framed b (i2_rx_check_timeout now s)) (append_nil bytes)
        (check_timeout-Framed blake3_hash cntfrq_el0 bytes now s f)
  serve-Framed (poll_call n now line) bytes s v f =
      poll-Framed blake3_hash cntfrq_el0 n now line bytes s v f
  serve-Framed (take_call now) bytes s v f =
      subst (λ b. Framed b (i2_rx_take cue_bounded now s).1) (append_nil bytes)
        (take-Framed blake3_hash cntfrq_el0 cue_bounded now bytes s f)
  serve-Framed init_call bytes s v f =
      unfold i2_rx_init in reset_scan-Framed blake3_hash cntfrq_el0 (bytes ++ []) _

  -- The bytes that a sequence of calls brings in.
  abbrev pub all_brought : List RxCall → Rx → List ℕ
  all_brought [] s = []
  all_brought (c ∷ cs) s =
      brought blake3_hash cntfrq_el0 c s
      ++ all_brought cs (serve blake3_hash cntfrq_el0 cue_bounded c s)

  rx_session-Framed :
      (cs : List RxCall) (bytes : List ℕ) (s : Rx)
      → IsRx blake3_hash cntfrq_el0 s
      → Framed bytes s
      → Framed (bytes ++ all_brought cs s) (rx_session blake3_hash cntfrq_el0 cue_bounded cs s)
  rx_session-Framed [] bytes s v f = subst (λ b. Framed b s) (append_nil bytes) f
  rx_session-Framed (c ∷ cs) bytes s v f =
      let s' : Rx = serve blake3_hash cntfrq_el0 cue_bounded c s in
      subst (λ b. Framed b (rx_session blake3_hash cntfrq_el0 cue_bounded cs s'))
        (append_assoc bytes (brought blake3_hash cntfrq_el0 c s) (all_brought cs s'))
        (rx_session-Framed cs (bytes ++ brought blake3_hash cntfrq_el0 c s) s'
          (serve-IsRx blake3_hash cntfrq_el0 cue_bounded c s v) (serve-Framed c bytes s v f))

length-read_bytes : (mem : ℕ → ℕ) (i n : ℕ) → length (read_bytes mem i n) ≡ n
length-read_bytes mem i zero = refl
length-read_bytes mem i (suc n) = ap suc (length-read_bytes mem (suc i) n)

-- A frame among the bytes: a header that is checked, and behind it the payload that it announces, with the
-- digest of the header.
pub record FrameIn (blake3_hash : List ℕ → List ℕ) (bytes payload : List ℕ) : Type 0 where
  pub front : List ℕ
  pub header : List ℕ
  pub after : List ℕ
  pub received : bytes ≡ front ++ ((header ++ payload) ++ after)
  pub header_size : length header ≡ frame_header_size
  pub checked : IsHeader header (length payload)
  pub digest : Matches (blake3_hash payload) header

module _ {N : Type 0} (blake3_hash : List ℕ → List ℕ) (cntfrq_el0 : ℕ)
    (cue_bounded : List ℕ → Option N) where
  abbrev TakenFrom : List ℕ → Rx → N → Option N × Rx → Type 0
  TakenFrom bytes s n r =
      (payload : List ℕ) × FrameIn blake3_hash bytes payload
      × (payload ≡ read_bytes s.rxbuf 0 s.payload_len)
      × (cue_bounded payload ≡ some n)
      × (r.1.state ≡ rx_scan)

  finish_take-some :
      (now : ℕ) (s : Rx) (decoded : Option N) (n : N)
      → (finish_take now s decoded).0 ≡ some n
      → (decoded ≡ some n) × ((finish_take now s decoded).1.state ≡ rx_scan)
  unfolding finish_take reset_scan
  finish_take-some now s none n took = absurd (ground (arith, took))
  finish_take-some now s (some m) n took = (took, refl)

  pub take-ready :
      (now : ℕ) (s : Rx)
      → s.state ≡ rx_ready
      → i2_rx_take cue_bounded now s
        ≡ finish_take now s (cue_bounded (read_bytes s.rxbuf 0 s.payload_len))
  unfolding i2_rx_take
  take-ready now s e = rw e refl

  take-TakenFrom :
      (st : RxState) (now : ℕ) (bytes : List ℕ) (s : Rx) (n : N)
      → s.state ≡ st
      → length s.header ≡ frame_header_size
      → InState blake3_hash cntfrq_el0 st s
      → FramedIn bytes st s
      → (i2_rx_take cue_bounded now s).0 ≡ some n
      → TakenFrom bytes s n (i2_rx_take cue_bounded now s)
  unfolding i2_rx_take
  take-TakenFrom rx_scan now bytes s n e h v f took = absurd (ground (arith, e, took))
  take-TakenFrom rx_header now bytes s n e h v f took = absurd (ground (arith, e, took))
  take-TakenFrom rx_payload now bytes s n e h v f took = absurd (ground (arith, e, took))
  take-TakenFrom rx_ready now bytes s n e h v f took =
      let same = take-ready now s e in
      let payload : List ℕ = read_bytes s.rxbuf 0 s.payload_len in
      let done = finish_take-some now s (cue_bounded payload) n (ap (λ r. r.0) (sym same) ∙ took) in
      (
        payload,
        record {
          front = f.1.0;
          header = s.header;
          after = f.0;
          received = f.1.1;
          header_size = h;
          checked =
              subst (λ (len : ℕ). IsHeader s.header len)
                (sym (length-read_bytes s.rxbuf 0 s.payload_len)) v.0;
          digest = v.1;
        },
        refl,
        done.0,
        ap (λ r. r.1.state) same ∙ done.1,
      )

-- A take hands out a noun only when the bytes that the calls since `i2_rx_init` have brought in hold a
-- whole frame: a checked header of 56 bytes and directly behind it the 1 to 28672 bytes of the payload that
-- it announces, whose digest is the one in the header. The payload is what the receive buffer holds, the
-- noun is what the bounded decoder makes of it, and after the take the receiver waits for the next frame.
pub i2_rx_take-verified :
    {N : Type 0} (blake3_hash : List ℕ → List ℕ) (cntfrq_el0 : ℕ) (cue_bounded : List ℕ → Option N)
    (cs : List RxCall) (s : Rx) (now : ℕ) (n : N)
    → length s.header ≡ frame_header_size
    → (i2_rx_take cue_bounded now
        (rx_session blake3_hash cntfrq_el0 cue_bounded cs (i2_rx_init s))).0
      ≡ some n
    → (payload : List ℕ) × FrameIn blake3_hash
        (all_brought blake3_hash cntfrq_el0 cue_bounded cs (i2_rx_init s))
        payload
      × (payload
          ≡ read_bytes
              (rx_session blake3_hash cntfrq_el0 cue_bounded cs (i2_rx_init s)).rxbuf
              0
              (rx_session blake3_hash cntfrq_el0 cue_bounded cs (i2_rx_init s)).payload_len)
      × (cue_bounded payload ≡ some n)
      × ((i2_rx_take cue_bounded now
            (rx_session blake3_hash cntfrq_el0 cue_bounded cs (i2_rx_init s))).1.state
          ≡ rx_scan)
i2_rx_take-verified blake3_hash cntfrq_el0 cue_bounded cs s now n h took =
    let s' : Rx = rx_session blake3_hash cntfrq_el0 cue_bounded cs (i2_rx_init s) in
    let v : IsRx blake3_hash cntfrq_el0 s' =
      (rx_session-IsRx blake3_hash cntfrq_el0 cue_bounded cs s h).0 in
    take-TakenFrom blake3_hash cntfrq_el0 cue_bounded s'.state now
      (all_brought blake3_hash cntfrq_el0 cue_bounded cs (i2_rx_init s)) s' n refl v.header_size
      v.stage
      (rx_session-Framed blake3_hash cntfrq_el0 cue_bounded cs [] (i2_rx_init s)
        (init-IsRx blake3_hash cntfrq_el0 s h)
        (unfold i2_rx_init in reset_scan-Framed blake3_hash cntfrq_el0 [] _))
      took
