-- ===== src/Control.antt =====
-- sdr-udp/include/tcp_control.h: the data of the control plane.
use sdr_rdma_udp.Common.{ℕ, List, []}

pub data ControlMsgType : Type 0 where
  offer cts accept reject complete_ack incomplete_nack sr_ack sr_nack ec_ack ec_nack
        ec_fallback_sr :
      ControlMsgType

-- `udp_server_ip` is the text up to its zero byte.
pub record ConnectionParams : Type 0 where
  pub transfer_id : ℕ
  pub total_bytes : ℕ
  pub mtu_bytes : ℕ
  pub packet_bytes : ℕ
  pub chunk_bytes : ℕ
  pub packets_per_chunk : ℕ
  pub total_chunks : ℕ
  pub fec_k : ℕ
  pub fec_m : ℕ
  pub max_inflight : ℕ
  pub rto_ms : ℕ
  pub rtt_alpha_ms : ℕ
  pub num_channels : ℕ
  pub channel_base_port : ℕ
  pub udp_server_ip : List ℕ
  pub udp_server_port : ℕ

-- `memset(&params, 0, sizeof(params))`
abbrev pub zero_params : ConnectionParams
zero_params = record {
  transfer_id = 0;
  total_bytes = 0;
  mtu_bytes = 0;
  packet_bytes = 0;
  chunk_bytes = 0;
  packets_per_chunk = 0;
  total_chunks = 0;
  fec_k = 0;
  fec_m = 0;
  max_inflight = 0;
  rto_ms = 0;
  rtt_alpha_ms = 0;
  num_channels = 0;
  channel_base_port = 0;
  udp_server_ip = [];
  udp_server_port = 0;
}

-- `chunk_bitmap`, `gap_start` and `gap_len` have 16 entries each.
pub record ControlMessage : Type 0 where
  pub magic : ℕ
  pub msg_type : ControlMsgType
  pub connection_id : ℕ
  pub params : ConnectionParams
  pub chunk_bitmap_words : ℕ
  pub chunk_bitmap : List ℕ
  pub num_gaps : ℕ
  pub gap_start : List ℕ
  pub gap_len : List ℕ

abbrev pub magic_value : ℕ
magic_value = 0x5344
