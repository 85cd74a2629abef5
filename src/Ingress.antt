-- ===== src/Ingress.antt =====
-- i2_ingress.c: the frames that come in over the serial line.
pub mod Bytes
pub mod Receiver
pub mod Feed
pub mod Digest
pub mod Verified
pub mod Memory
pub mod Session
pub mod History
pub mod Taken
pub mod Frame
pub mod Timing
pub mod Scan
pub mod Payload
pub mod RoundTrip
pub mod Exchange
