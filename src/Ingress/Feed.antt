-- ===== src/Ingress/Feed.antt =====
-- The receiver of i2_ingress.c at work: what a byte, a poll and a take do.
use trinitite.Base.{
  ℕ, zero, suc, ◌+◌, ◌-◌, bit_or, bit_xor, Bool, true, false, not, ◌||◌, Option, none, some, List,
  [], ◌∷◌, ltb, leb, ◌==◌, if◌then◌else◌, set,
}
use trinitite.RuntimeStats.Counters.{ingress_complete_to_admit, runtime_stats_record}
use trinitite.Ingress.Bytes.{byte_at, le16, le64}
use trinitite.Ingress.Receiver.{
  frame_header_size, frame_max_payload, magic, RxState, rx_scan, rx_header, rx_payload, rx_ready,
  reason_version, reason_header, reason_length, reason_digest, reason_cue, Rx, add_ticks,
  interbyte_ticks, total_ticks, reset_scan, reject, i2_rx_check_timeout, is_ready,
}

-- The bytes of the receive buffer from `i` on, `n` of them.
abbrev pub read_bytes : (ℕ → ℕ) → ℕ → ℕ → List ℕ
read_bytes mem i zero = []
read_bytes mem i (suc n) = mem i ∷ read_bytes mem (suc i) n

abbrev pub store_byte : (ℕ → ℕ) → ℕ → ℕ → ℕ → ℕ
store_byte mem i byte j = if j == i then byte else mem j

-- `n` rounds of the comparison of digests, from byte `i` on.
unfoldable pub diff_loop : ℕ → ℕ → List ℕ → List ℕ → ℕ → ℕ
diff_loop zero i digest header diff = diff
diff_loop (suc n) i digest header diff =
    diff_loop n (suc i) digest header
      (bit_or diff (bit_xor (byte_at digest i) (byte_at header (24 + i))))

module _ (blake3_hash : List ℕ → List ℕ) (cntfrq_el0 : ℕ) where
  unfoldable pub feed_scan : ℕ → ℕ → Rx → Rx
  feed_scan byte now s =
      let frame_end : ℕ = add_ticks now (total_ticks cntfrq_el0) in
      let byte_end : ℕ = add_ticks now (interbyte_ticks cntfrq_el0) in
      if byte == byte_at magic s.magic_have
      then (let first : Bool = s.magic_have == 0 in
          let next : ℕ = s.magic_have + 1 in
          let done : Bool = next == 8 in
          record s {
            frame_deadline = if first then frame_end else s.frame_deadline;
            byte_deadline = if first then byte_end else s.byte_deadline;
            header = set s.header s.magic_have byte;
            magic_have = next;
            state = if done then rx_header else s.state;
            have = if done then 8 else s.have;
          })
      else if byte == byte_at magic 0
      then record s {
        magic_have = 1;
        header = set s.header 0 byte;
        frame_deadline = frame_end;
        byte_deadline = byte_end;
      }
      else record s { magic_have = 0; frame_deadline = 0; byte_deadline = 0 }

  -- The tests of a complete header.
  unfoldable pub check_header : Rx → Rx
  check_header s =
      if not (le16 s.header 8 == 1) || not (le16 s.header 10 == 0)
      then reject reason_version s
      else if not (le16 s.header 12 == frame_header_size) || not (le16 s.header 14 == 0)
      then reject reason_header s
      else (let len : ℕ = le64 s.header 16 in
          if (len == 0) || ltb frame_max_payload len
          then reject reason_length (record s { payload_len = len })
          else record s { payload_len = len; have = 0; state = rx_payload })

  unfoldable pub feed_header : ℕ → Rx → Rx
  feed_header byte s =
      let s' : Rx = record s { header = set s.header s.have byte; have = s.have + 1 } in
      if not (s'.have == frame_header_size) then s' else check_header s'

  -- The payload is complete.
  unfoldable pub check_digest : ℕ → Rx → Rx
  check_digest now s =
      let s' : Rx = record s { frame_complete_tick = now } in
      let digest : List ℕ = blake3_hash (read_bytes s.rxbuf 0 s.payload_len) in
      if not (diff_loop 32 0 digest s.header 0 == 0)
      then reject reason_digest s'
      else record s' { state = rx_ready; frame_deadline = 0; byte_deadline = 0 }

  unfoldable pub feed_payload : ℕ → ℕ → Rx → Rx
  feed_payload byte now s =
      let s' : Rx = record s { rxbuf = store_byte s.rxbuf s.have byte; have = s.have + 1 } in
      if s'.have == s.payload_len then check_digest now s' else s'

  -- What a byte does in each state.
  unfoldable pub feed_in : RxState → ℕ → ℕ → Rx → Rx
  feed_in rx_scan byte now s = feed_scan byte now s
  feed_in rx_header byte now s =
      feed_header byte (record s { byte_deadline = add_ticks now (interbyte_ticks cntfrq_el0) })
  feed_in rx_payload byte now s =
      feed_payload byte now
        (record s { byte_deadline = add_ticks now (interbyte_ticks cntfrq_el0) })
  feed_in rx_ready byte now s = s

  unfoldable pub i2_rx_feed_byte : ℕ → ℕ → Rx → Rx
  i2_rx_feed_byte byte now s =
      let s' : Rx = i2_rx_check_timeout now s in feed_in s'.state byte now s'

  -- The bytes that the line holds, each with the counter when it is taken; the bytes that are left.
  unfoldable pub poll_loop : ℕ → List (ℕ × ℕ) → Rx → Bool × List (ℕ × ℕ) × Rx
  poll_loop zero line s = (false, line, s)
  poll_loop (suc n) [] s = (false, [], s)
  poll_loop (suc n) ((byte, now) ∷ line) s =
      let s' : Rx = i2_rx_feed_byte byte now s in
      let rest : Bool × List (ℕ × ℕ) × Rx = poll_loop n line s' in
      if is_ready s'.state then (true, line, s') else rest

  unfoldable pub i2_rx_poll : ℕ → ℕ → List (ℕ × ℕ) → Rx → Bool × List (ℕ × ℕ) × Rx
  i2_rx_poll byte_budget now line s =
      let s' : Rx = i2_rx_check_timeout now s in
      if is_ready s'.state then (true, line, s') else poll_loop byte_budget line s'

abbrev pub i2_rx_ready : Rx → Bool
i2_rx_ready s = is_ready s.state

-- What is done with the status of the decoder: a noun, or none for every status but CUE_BOUNDED_OK.
unfoldable pub finish_take : {N : Type 0} → ℕ → Rx → Option N → Option N × Rx
finish_take admitted s none = (none, reject reason_cue s)
finish_take admitted s (some n) =
    let complete : ℕ = s.frame_complete_tick in
    let elapsed : ℕ = if leb complete admitted then admitted - complete else 0 in
    (
      some n,
      reset_scan
          (record s { stats = runtime_stats_record ingress_complete_to_admit elapsed s.stats }),
    )

-- The bounded decoder is a parameter.
unfoldable pub i2_rx_take : {N : Type 0} → (List ℕ → Option N) → ℕ → Rx → Option N × Rx
i2_rx_take cue_bounded admitted s =
    if not (i2_rx_ready s)
    then (none, s)
    else finish_take admitted s (cue_bounded (read_bytes s.rxbuf 0 s.payload_len))
