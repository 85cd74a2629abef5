-- ===== src/Tests/Frames.antt =====
-- The receiver of frames, the measurement block and the trace ring at concrete inputs.
use trinitite.Base.{
  ℕ, zero, suc, ◌≤◌, ◌<◌, ◌≡◌, refl, true, false, Option, some, List, [], ◌∷◌, ◌++◌, arith, length,
  replicate, take, get_or,
}
use trinitite.RuntimeStats.Histogram.{histogram_add, log2_bucket, sat_add, empty_histogram}
use trinitite.RuntimeStats.Tallies.{Tallies}
use trinitite.RuntimeStats.Counters.{
  Stats, Readings, runtime_stats_reset, runtime_stats_record, phase_count, counter_count,
}
use trinitite.RuntimeStats.Phases.{records, records-Tallies}
use trinitite.Ingress.Receiver.{
  Rx, rx_scan, reason_none, frame_max_payload, add_ticks, counter_freq, interbyte_ticks,
  total_ticks, reset_scan, i2_rx_check_timeout, i2_rx_init,
}
use trinitite.Ingress.Verified.{IsRx}
use trinitite.Ingress.Session.{
  RxCall, feed_byte_call, check_timeout_call, rx_session, rx_session-IsRx,
}
use trinitite.Ingress.Taken.{FrameIn, all_brought, i2_rx_take-verified}
use trinitite.Ingress.Timing.{feed_all, OnTime, FrameOnTime}
use trinitite.Ingress.Payload.{Received}
use trinitite.Ingress.Frame.{i2_frame_encode}
use trinitite.Ingress.Feed.{
  read_bytes, i2_rx_feed_byte, i2_rx_take, feed_in, feed_scan, feed_header, check_header,
  feed_payload, check_digest, diff_loop, finish_take,
}
use trinitite.Ingress.Bytes.{le16, le64, le64_loop}
use trinitite.Trace.Ring.{trace_enable, trace_rec, wdt_set}
use trinitite.Trace.Window
use trinitite.Trace.Window.{IsWindow, cleared}
use trinitite.Trace.History.{trace_calls-IsWindow}
use trinitite.Ingress.Exchange.{i2_frame_encode-Received}

abbrev readings : Readings
readings = record {
  cntfrq_el0 = 0;
  cntvct_el0 = 9;
  persist = 1;
  scratch = 2;
  atoms = 3;
  index = 4;
  probe_hwm = 5;
  copy_map_hwm = 6;
}

abbrev block : Stats
block = record {
  schema = 0;
  enabled = true;
  cntfrq = 0;
  reset_tick = 0;
  counter = replicate counter_count 0;
  phase = replicate phase_count empty_histogram;
  boot_load_ticks = 0;
  boot_load_pending = false;
}

records-Tallies_example :
    Tallies
      (get_or
        (records ((2, 5) ∷ (0, 1) ∷ (2, 3) ∷ []) (runtime_stats_reset readings block)).phase
        2
        empty_histogram)
      (5 ∷ 3 ∷ [])
records-Tallies_example =
    records-Tallies readings block ((2, 5) ∷ (0, 1) ∷ (2, 3) ∷ []) 2 refl refl
      ((omega arith, omega arith), ((omega arith, omega arith), ((omega arith, omega arith), tt)))
      (omega arith)

-- A digest of 32 bytes.
abbrev digest : List ℕ → List ℕ
digest bs = replicate 32 (length bs)

abbrev decoder : List ℕ → Option ℕ
decoder bs = some (length bs)

abbrev resting : Rx
resting = record {
  state = rx_scan;
  header = replicate 56 0;
  have = 0;
  magic_have = 0;
  payload_len = 0;
  frame_complete_tick = 0;
  frame_deadline = 0;
  byte_deadline = 0;
  rejects = replicate 7 0;
  last_reason = reason_none;
  rxbuf = λ j. 0;
  metrics = record {
    ingress_rejects = 0;
    version_rejects = 0;
    header_rejects = 0;
    length_rejects = 0;
    digest_rejects = 0;
    cue_rejects = 0;
    timeout_rejects = 0;
  };
  stats = block;
}

resting-IsRx : IsRx digest 0 resting
resting-IsRx = record { header_size = refl; counters = refl; stage = (omega arith, refl) }

-- The frame of one byte.
abbrev frame_bytes : List ℕ
frame_bytes =
    73
    ∷ 50
    ∷ 70
    ∷ 78
    ∷ 13
    ∷ 10
    ∷ 26
    ∷ 10
    ∷ 1
    ∷ 0
    ∷ 0
    ∷ 0
    ∷ 56
    ∷ 0
    ∷ 0
    ∷ 0
    ∷ 1
    ∷ 0
    ∷ 0
    ∷ 0
    ∷ 0
    ∷ 0
    ∷ 0
    ∷ 0
    ∷ (replicate 32 1 ++ (2 ∷ []))

abbrev fed : List ℕ → List RxCall
fed [] = []
fed (b ∷ bs) = feed_byte_call b 100 ∷ fed bs

rx_session-IsRx_example :
    IsRx digest 0 (
      rx_session digest 0 decoder
        (feed_byte_call 73 100 ∷ check_timeout_call 5 ∷ [])
        (i2_rx_init resting))
    × ((j : ℕ)
        → frame_max_payload ≤ j
        → (rx_session digest 0 decoder
              (feed_byte_call 73 100 ∷ check_timeout_call 5 ∷ [])
              (i2_rx_init resting)).rxbuf
            j
          ≡ 0)
rx_session-IsRx_example =
    rx_session-IsRx digest 0 decoder (feed_byte_call 73 100 ∷ check_timeout_call 5 ∷ []) resting
      refl

-- The receiver before the take.
abbrev filled_up : Rx
filled_up = rx_session digest 0 decoder (fed frame_bytes) (i2_rx_init resting)

i2_rx_take-verified_example :
    (payload : List ℕ) × FrameIn digest
      (all_brought digest 0 decoder (fed frame_bytes) (i2_rx_init resting))
      payload
    × (payload ≡ read_bytes filled_up.rxbuf 0 filled_up.payload_len)
    × ◌≡◌ {A = Option ℕ} (decoder payload) (some 1)
    × ((i2_rx_take decoder 200 filled_up).1.state ≡ rx_scan)
unfolding i2_rx_feed_byte i2_rx_take feed_in i2_rx_check_timeout i2_rx_init reset_scan feed_scan
    add_ticks interbyte_ticks counter_freq total_ticks feed_header check_header le16 le64 le64_loop
    feed_payload check_digest diff_loop finish_take runtime_stats_record histogram_add log2_bucket
    sat_add
i2_rx_take-verified_example =
    i2_rx_take-verified digest 0 decoder (fed frame_bytes) resting 200 1 refl refl

-- Bytes that all come at once.
together-OnTime :
    (n k t b f : ℕ)
    → t < b
    → t < f
    → t < add_ticks t (interbyte_ticks 0)
    → OnTime 0 k b f (replicate n t)
together-OnTime zero k t b f p q r = tt
together-OnTime (suc n) zero t b f p q r = (p, q, together-OnTime n zero t _ f r q r)
together-OnTime (suc n) (suc k) t b f p q r = (p, q, together-OnTime n k t b f p q r)

together-FrameOnTime : FrameOnTime 0 (replicate 57 100)
unfolding add_ticks interbyte_ticks total_ticks counter_freq
together-FrameOnTime = together-OnTime 56 7 100 _ _ (omega arith) (omega arith) (omega arith)

i2_frame_encode-Received_example :
    (frame : List ℕ × ℕ) × (i2_frame_encode digest (2 ∷ []) (replicate 60 0) 58 ≡ some frame)
    × Received (2 ∷ []) (feed_all digest 0 (take frame.1 frame.0) (replicate 57 100) resting)
    × ◌≡◌ {A = Option ℕ}
        (i2_rx_take decoder 200
          (feed_all digest 0 (take frame.1 frame.0) (replicate 57 100) resting)).0
        (some 1)
i2_frame_encode-Received_example =
    i2_frame_encode-Received digest 0 decoder (2 ∷ []) (replicate 60 0) (replicate 57 100) 58 200
      resting refl (omega arith) (omega arith) (omega arith) (omega arith) refl resting-IsRx refl
      together-FrameOnTime

trace_calls-IsWindow_example :
    IsWindow
      (Window.trace_calls
        (Window.enable_call true
          ∷ Window.rec_call 1 7 100
          ∷ Window.wdt_set_call 10 100
          ∷ Window.wdt_check_call 200 201 202
          ∷ [])
        cleared)
      (record { t = 201; tag = 6; datum = 0 } ∷ record { t = 100; tag = 1; datum = 7 } ∷ [])
unfolding trace_enable trace_rec wdt_set
trace_calls-IsWindow_example = trace_calls-IsWindow (
    Window.enable_call true
    ∷ Window.rec_call 1 7 100
    ∷ Window.wdt_set_call 10 100
    ∷ Window.wdt_check_call 200 201 202
    ∷ [])
