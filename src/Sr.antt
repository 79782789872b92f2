-- ===== src/Sr.antt =====
-- sdr-udp/reliability/sr.h: selective repeat. The receiver reports which chunks it has, and the sender
-- sends the others again.
pub mod Report
pub mod Reads
pub mod Acks
pub mod Marks
pub mod Sound
pub mod Sender
pub mod Heard
pub mod Resent
pub mod Sizes
mod Tests
