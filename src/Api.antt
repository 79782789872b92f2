-- ===== src/Api.antt =====
-- sdr-udp/src/sdr_api.cpp: the calls that a program makes.
pub mod Send
pub mod Params
pub mod Recv
pub mod Complete
pub mod Control
pub mod Post
pub mod SendPost
pub mod Handshake
pub mod Stream
mod Tests
