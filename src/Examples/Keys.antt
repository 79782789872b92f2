-- ===== src/Examples/Keys.antt =====
-- The keys that sdr-udp/examples/sdr_test_sender.cpp and sdr_test_receiver.cpp read from the configuration
-- file, and the words of their command lines.
use sdr_rdma_udp.Common.{[], ◌∷◌}
use sdr_rdma_udp.Config.{Text}

abbrev pub mode_flag : Text
mode_flag = b'-' ∷ b'-' ∷ b'm' ∷ b'o' ∷ b'd' ∷ b'e' ∷ []

abbrev pub sr_word : Text
sr_word = b's' ∷ b'r' ∷ []

abbrev pub ec_word : Text
ec_word = b'e' ∷ b'c' ∷ []

abbrev pub mtu_bytes : Text
mtu_bytes = b'm' ∷ b't' ∷ b'u' ∷ b'_' ∷ b'b' ∷ b'y' ∷ b't' ∷ b'e' ∷ b's' ∷ []

abbrev pub packets_per_chunk : Text
packets_per_chunk =
    b'p' ∷ b'a' ∷ b'c' ∷ b'k' ∷ b'e' ∷ b't' ∷ b's' ∷ b'_' ∷ b'p' ∷ b'e' ∷ b'r' ∷ b'_' ∷ b'c' ∷ b'h'
    ∷ b'u' ∷ b'n' ∷ b'k' ∷ []

abbrev pub num_channels : Text
num_channels =
    b'n' ∷ b'u' ∷ b'm' ∷ b'_' ∷ b'c' ∷ b'h' ∷ b'a' ∷ b'n' ∷ b'n' ∷ b'e' ∷ b'l' ∷ b's' ∷ []

abbrev pub transfer_id : Text
transfer_id = b't' ∷ b'r' ∷ b'a' ∷ b'n' ∷ b's' ∷ b'f' ∷ b'e' ∷ b'r' ∷ b'_' ∷ b'i' ∷ b'd' ∷ []

abbrev pub message_size : Text
message_size =
    b'm' ∷ b'e' ∷ b's' ∷ b's' ∷ b'a' ∷ b'g' ∷ b'e' ∷ b'_' ∷ b's' ∷ b'i' ∷ b'z' ∷ b'e' ∷ []

abbrev pub channel_base_port : Text
channel_base_port =
    b'c' ∷ b'h' ∷ b'a' ∷ b'n' ∷ b'n' ∷ b'e' ∷ b'l' ∷ b'_' ∷ b'b' ∷ b'a' ∷ b's' ∷ b'e' ∷ b'_' ∷ b'p'
    ∷ b'o' ∷ b'r' ∷ b't' ∷ []

abbrev pub udp_server_ip : Text
udp_server_ip =
    b'u' ∷ b'd' ∷ b'p' ∷ b'_' ∷ b's' ∷ b'e' ∷ b'r' ∷ b'v' ∷ b'e' ∷ b'r' ∷ b'_' ∷ b'i' ∷ b'p' ∷ []

abbrev pub window_size : Text
window_size = b'w' ∷ b'i' ∷ b'n' ∷ b'd' ∷ b'o' ∷ b'w' ∷ b'_' ∷ b's' ∷ b'i' ∷ b'z' ∷ b'e' ∷ []

abbrev pub sr_rto_ms : Text
sr_rto_ms = b's' ∷ b'r' ∷ b'_' ∷ b'r' ∷ b't' ∷ b'o' ∷ b'_' ∷ b'm' ∷ b's' ∷ []

abbrev pub sr_nack_delay_ms : Text
sr_nack_delay_ms =
    b's' ∷ b'r' ∷ b'_' ∷ b'n' ∷ b'a' ∷ b'c' ∷ b'k' ∷ b'_' ∷ b'd' ∷ b'e' ∷ b'l' ∷ b'a' ∷ b'y' ∷ b'_'
    ∷ b'm' ∷ b's' ∷ []

abbrev pub sr_max_inflight_chunks : Text
sr_max_inflight_chunks =
    b's' ∷ b'r' ∷ b'_' ∷ b'm' ∷ b'a' ∷ b'x' ∷ b'_' ∷ b'i' ∷ b'n' ∷ b'f' ∷ b'l' ∷ b'i' ∷ b'g' ∷ b'h'
    ∷ b't' ∷ b'_' ∷ b'c' ∷ b'h' ∷ b'u' ∷ b'n' ∷ b'k' ∷ b's' ∷ []

abbrev pub ec_k_data : Text
ec_k_data = b'e' ∷ b'c' ∷ b'_' ∷ b'k' ∷ b'_' ∷ b'd' ∷ b'a' ∷ b't' ∷ b'a' ∷ []

abbrev pub ec_m_parity : Text
ec_m_parity = b'e' ∷ b'c' ∷ b'_' ∷ b'm' ∷ b'_' ∷ b'p' ∷ b'a' ∷ b'r' ∷ b'i' ∷ b't' ∷ b'y' ∷ []

abbrev pub ec_fallback_timeout_ms : Text
ec_fallback_timeout_ms =
    b'e' ∷ b'c' ∷ b'_' ∷ b'f' ∷ b'a' ∷ b'l' ∷ b'l' ∷ b'b' ∷ b'a' ∷ b'c' ∷ b'k' ∷ b'_' ∷ b't' ∷ b'i'
    ∷ b'm' ∷ b'e' ∷ b'o' ∷ b'u' ∷ b't' ∷ b'_' ∷ b'm' ∷ b's' ∷ []

abbrev pub ec_max_retries : Text
ec_max_retries =
    b'e' ∷ b'c' ∷ b'_' ∷ b'm' ∷ b'a' ∷ b'x' ∷ b'_' ∷ b'r' ∷ b'e' ∷ b't' ∷ b'r' ∷ b'i' ∷ b'e' ∷ b's'
    ∷ []
