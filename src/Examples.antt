-- ===== src/Examples.antt =====
-- sdr-udp/examples/sdr_test_sender.cpp and sdr_test_receiver.cpp: the two programs that use the library.
-- What they print is not modelled.
pub mod Keys
pub mod Args
pub mod Verify
pub mod Sender
pub mod Receiver
pub mod Coded
pub mod Progress
pub mod Receive
pub mod Session
mod Tests
