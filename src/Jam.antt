-- ===== src/Jam.antt =====
-- jam.c: nouns as bit strings and back.
pub mod Bits
pub mod Writer
pub mod Mat
pub mod Rub
pub mod Probe
pub mod Count
pub mod Encode
pub mod Cache
pub mod Decode
pub mod Backrefs
pub mod Trace
pub mod Known
pub mod Steps
pub mod Decoded
pub mod Replay
pub mod RoundTrip
pub mod Length
pub mod Room
pub mod Sized
pub mod Checked
pub mod Ends
