-- ===== src/Ingress/Timing.antt =====
-- Bytes that come in on time: no deadline passes before they are taken.
use trinitite.Base.{
  ℕ, zero, suc, ◌<◌, ◌≡◌, refl, ap, ◌∙◌, ◌||◌, ◌&&◌, List, [], ◌∷◌, arith, if-cases,
}
use trinitite.Ingress.Receiver.{
  RxState, rx_scan, in_frame, past, Rx, add_ticks, interbyte_ticks, total_ticks,
  i2_rx_check_timeout,
}
use trinitite.Ingress.Feed.{feed_scan, feed_in, i2_rx_feed_byte}

-- Bytes that come in one after the other, each with its own counter.
module _ (blake3_hash : List ℕ → List ℕ) (cntfrq_el0 : ℕ) where
  abbrev pub feed_all : List ℕ → List ℕ → Rx → Rx
  feed_all [] ts s = s
  feed_all (b ∷ bs) [] s = s
  feed_all (b ∷ bs) (t ∷ ts) s = feed_all bs ts (i2_rx_feed_byte blake3_hash cntfrq_el0 b t s)

-- Each counter is before the deadline of the frame, and before that of its byte, which the first `n` bytes
-- do not move and each later byte sets anew.
abbrev pub OnTime : ℕ → ℕ → ℕ → ℕ → List ℕ → Type 0
OnTime cntfrq_el0 n byte_end frame_end [] = Unit
OnTime cntfrq_el0 zero byte_end frame_end (t ∷ ts) =
    (t < byte_end)
    × (t < frame_end)
    × OnTime cntfrq_el0 zero (add_ticks t (interbyte_ticks cntfrq_el0)) frame_end ts
OnTime cntfrq_el0 (suc n) byte_end frame_end (t ∷ ts) =
    (t < byte_end) × (t < frame_end) × OnTime cntfrq_el0 n byte_end frame_end ts

-- A frame on time: the seven bytes after the first come within the interval of one byte from the first,
-- each later byte within that interval from the byte before, and all of them within the time of a frame.
abbrev pub FrameOnTime : ℕ → List ℕ → Type 0
FrameOnTime cntfrq_el0 [] = Unit
FrameOnTime cntfrq_el0 (t ∷ ts) =
    OnTime cntfrq_el0 7 (add_ticks t (interbyte_ticks cntfrq_el0))
      (add_ticks t (total_ticks cntfrq_el0)) ts

pub check_timeout-early :
    (now : ℕ) (s : Rx)
    → now < s.byte_deadline
    → now < s.frame_deadline
    → i2_rx_check_timeout now s ≡ s
unfolding i2_rx_check_timeout
check_timeout-early now s b f =
    if-cases (λ (t : Rx). t ≡ s)
      (in_frame s.state s.magic_have && (past s.byte_deadline now || past s.frame_deadline now))
      (λ e. absurd (ground (arith, e, b, f))) (λ e. refl)

module _ (blake3_hash : List ℕ → List ℕ) (cntfrq_el0 : ℕ) where
  pub feed_in-scan :
      (byte t : ℕ) (s : Rx)
      → feed_in blake3_hash cntfrq_el0 rx_scan byte t s ≡ feed_scan blake3_hash cntfrq_el0 byte t s
  unfolding feed_in
  feed_in-scan byte t s = refl

  pub feed_byte-early :
      (byte t : ℕ) (st : RxState) (s : Rx)
      → s.state ≡ st
      → t < s.byte_deadline
      → t < s.frame_deadline
      → i2_rx_feed_byte blake3_hash cntfrq_el0 byte t s ≡ feed_in blake3_hash cntfrq_el0 st byte t s
  unfolding i2_rx_feed_byte
  feed_byte-early byte t st s e b f =
      ap (λ (u : Rx). feed_in blake3_hash cntfrq_el0 u.state byte t u) (check_timeout-early t s b f)
      ∙ ap (λ u. feed_in blake3_hash cntfrq_el0 u byte t s) e
