-- ===== src/Ingress/Receiver.antt =====
-- The receiver of i2_ingress.c: the state `g_rx` with the receive buffer and the counters that a
-- rejection advances, and its operations. The time is the counter that each call reads.
use trinitite.Base.{
  ℕ, ◌+◌, ◌-◌, ◌*◌, ◌/◌, ◌%◌, ◌^◌, Bool, true, false, not, ◌||◌, ◌&&◌, List, [], ◌∷◌, ltb, leb,
  ◌==◌, if◌then◌else◌, get_or, set, replicate,
}
use trinitite.RuntimeStats.Histogram.{u64_max}
use trinitite.RuntimeStats.Counters.{Stats, runtime_stats_note_ingress_reject}

abbrev pub frame_header_size : ℕ
frame_header_size = 56

-- The size of the receive buffer.
abbrev pub frame_max_payload : ℕ
frame_max_payload = 0x7000

abbrev pub magic : List ℕ
magic = 73 ∷ 50 ∷ 70 ∷ 78 ∷ 13 ∷ 10 ∷ 26 ∷ 10 ∷ []

pub data RxState : Type 0 where
  rx_scan rx_header rx_payload rx_ready : RxState

pub data Reason : Type 0 where
  reason_none reason_version reason_header reason_length reason_digest reason_cue reason_timeout :
      Reason

abbrev pub reason_count : ℕ
reason_count = 7

abbrev pub reason_number : Reason → ℕ
reason_number reason_none = 0
reason_number reason_version = 1
reason_number reason_header = 2
reason_number reason_length = 3
reason_number reason_digest = 4
reason_number reason_cue = 5
reason_number reason_timeout = 6

-- The ingress counters among the admission metrics, which wrap.
pub record Metrics : Type 0 where
  pub ingress_rejects : ℕ
  pub version_rejects : ℕ
  pub header_rejects : ℕ
  pub length_rejects : ℕ
  pub digest_rejects : ℕ
  pub cue_rejects : ℕ
  pub timeout_rejects : ℕ

pub record Rx : Type 0 where
  pub state : RxState
  pub header : List ℕ
  pub have : ℕ
  pub magic_have : ℕ
  pub payload_len : ℕ
  pub frame_complete_tick : ℕ
  pub frame_deadline : ℕ
  pub byte_deadline : ℕ
  pub rejects : List ℕ
  pub last_reason : Reason
  -- the memory from UART_RXBUF_BASE on
  pub rxbuf : ℕ → ℕ
  pub metrics : Metrics
  pub stats : Stats

unfoldable pub add_ticks : ℕ → ℕ → ℕ
add_ticks now ticks = if ltb (u64_max - now) ticks then u64_max else now + ticks

unfoldable pub counter_freq : ℕ → ℕ
counter_freq cntfrq_el0 = if not (cntfrq_el0 == 0) then cntfrq_el0 else 54000000

unfoldable pub interbyte_ticks : ℕ → ℕ
interbyte_ticks cntfrq_el0 = counter_freq cntfrq_el0 / 4

unfoldable pub total_ticks : ℕ → ℕ
total_ticks cntfrq_el0 =
    let f : ℕ = counter_freq cntfrq_el0 in if ltb (u64_max / 5) f then u64_max else f * 5

unfoldable pub reset_scan : Rx → Rx
reset_scan s = record s {
  state = rx_scan;
  have = 0;
  magic_have = 0;
  payload_len = 0;
  frame_complete_tick = 0;
  frame_deadline = 0;
  byte_deadline = 0;
}

abbrev pub wrapped_suc : ℕ → ℕ
wrapped_suc n = (n + 1) % 2 ^ 64

abbrev pub count_reason : Reason → Metrics → Metrics
count_reason reason_none m = m
count_reason reason_version m = record m { version_rejects = wrapped_suc m.version_rejects }
count_reason reason_header m = record m { header_rejects = wrapped_suc m.header_rejects }
count_reason reason_length m = record m { length_rejects = wrapped_suc m.length_rejects }
count_reason reason_digest m = record m { digest_rejects = wrapped_suc m.digest_rejects }
count_reason reason_cue m = record m { cue_rejects = wrapped_suc m.cue_rejects }
count_reason reason_timeout m = record m { timeout_rejects = wrapped_suc m.timeout_rejects }

-- A counter of rejections stops at the greatest 64-bit number.
abbrev pub stopping_suc : ℕ → ℕ
stopping_suc n = if not (n == u64_max) then n + 1 else n

unfoldable pub reject : Reason → Rx → Rx
reject reason s =
    let k : ℕ = reason_number reason in
    reset_scan (
      if ltb 0 k && ltb k reason_count
      then record s {
        rejects = set s.rejects k (stopping_suc (get_or s.rejects k 0));
        last_reason = reason;
        metrics =
            count_reason reason
              (record s.metrics { ingress_rejects = wrapped_suc s.metrics.ingress_rejects });
        stats = runtime_stats_note_ingress_reject k s.stats;
      }
      else s)

unfoldable pub i2_rx_init : Rx → Rx
i2_rx_init s =
    reset_scan (record s { rejects = replicate reason_count 0; last_reason = reason_none })

-- The receiver is in a frame.
abbrev pub in_frame : RxState → ℕ → Bool
in_frame rx_scan magic_have = not (magic_have == 0)
in_frame rx_header magic_have = true
in_frame rx_payload magic_have = true
in_frame rx_ready magic_have = false

abbrev pub past : ℕ → ℕ → Bool
past deadline now = not (deadline == 0) && leb deadline now

unfoldable pub i2_rx_check_timeout : ℕ → Rx → Rx
i2_rx_check_timeout now s =
    if in_frame s.state s.magic_have && (past s.byte_deadline now || past s.frame_deadline now)
    then reject reason_timeout s
    else s

abbrev pub is_ready : RxState → Bool
is_ready rx_scan = false
is_ready rx_header = false
is_ready rx_payload = false
is_ready rx_ready = true

unfoldable pub i2_rx_reject_count : Reason → Rx → ℕ
i2_rx_reject_count reason s =
    let k : ℕ = reason_number reason in
    if leb k 0 || leb reason_count k then 0 else get_or s.rejects k 0
