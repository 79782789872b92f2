-- ===== src/Examples/Receiver.antt =====
-- sdr-udp/examples/sdr_test_receiver.cpp: what `main` sets up from its arguments and its configuration file.
use sdr_rdma_udp.Common.{
  ℕ, ◌+◌, ◌*◌, Option, none, some, List, [], ◌∷◌, ◌==◌, if◌then◌else◌, take, min, u16, u32, u64,
}
use sdr_rdma_udp.Config.{Text, Entries, get_uint32, get_string, load_from_file}
use sdr_rdma_udp.Control.{ConnectionParams, zero_params}
use sdr_rdma_udp.Packet.{max_payload_size}
use sdr_rdma_udp.Sr.Report.{SrConfig}
use sdr_rdma_udp.Ec.{EcConfig, ceil64, ceil32}
use sdr_rdma_udp.Api.Params.{loopback}
use sdr_rdma_udp.Api.Post.{Peer, sdr_set_params}
use sdr_rdma_udp.Examples.Keys
use sdr_rdma_udp.Examples.Args.{ReceiverArgs, Parsed, usage, aborted, parsed, receiver_args}
use sdr_rdma_udp.Examples.Sender.{Started, uncaught, exited, ready}

-- The characters of a string up to its first NUL.
unfoldable pub c_str : Text → Text
c_str [] = []
c_str (c ∷ cs) = let rest = c_str cs in if c == 0 then [] else c ∷ rest

-- `params`
unfoldable pub receiver_params : Entries → ℕ → ConnectionParams
unfolding c_str
receiver_params config udp_port = record zero_params {
  mtu_bytes = get_uint32 config Keys.mtu_bytes 128;
  packets_per_chunk = u16 (get_uint32 config Keys.packets_per_chunk 64);
  udp_server_port = u16 udp_port;
  channel_base_port = u16 (get_uint32 config Keys.channel_base_port udp_port);
  num_channels = u16 (get_uint32 config Keys.num_channels 1);
  udp_server_ip = take 15 (c_str (get_string config Keys.udp_server_ip loopback));
  transfer_id = get_uint32 config Keys.transfer_id 1;
}

-- `sr_cfg`; the last two are the defaults of `SRConfig`.
unfoldable pub receiver_sr_config : Entries → SrConfig
receiver_sr_config config = record {
  rto_ms = get_uint32 config Keys.sr_rto_ms 0;
  nack_delay_ms = get_uint32 config Keys.sr_nack_delay_ms 0;
  max_inflight_chunks = u16 (get_uint32 config Keys.sr_max_inflight_chunks 0);
  base_rtt_ms = 100;
  alpha_ms = 100;
}

-- `ec_cfg`
unfoldable pub receiver_ec_config : Entries → ℕ → EcConfig
receiver_ec_config config message_size = record {
  k_data = u16 (get_uint32 config Keys.ec_k_data 4);
  m_parity = u16 (get_uint32 config Keys.ec_m_parity 2);
  fallback_timeout_ms = get_uint32 config Keys.ec_fallback_timeout_ms 0;
  data_bytes = message_size;
  max_retries = get_uint32 config Keys.ec_max_retries 3;
}

-- `total_length`, the size of the buffer for data and parity; `none` is a division by zero.
unfoldable pub ec_total_length : EcConfig → ConnectionParams → ℕ → Option ℕ
ec_total_length cfg params message_size =
    let wanted = u32 (min params.mtu_bytes max_payload_size * params.packets_per_chunk) in
    let chunk_bytes = if wanted == 0 then 1 else wanted in
    let data_chunks = u32 (ceil64 message_size chunk_bytes) in
    let parity_chunks = u32 (ceil32 data_chunks cfg.k_data * cfg.m_parity) in
    if cfg.k_data == 0 then none else some (u64 (u32 (data_chunks + parity_chunks) * chunk_bytes))

-- The receiver with a connection and its parameters.
pub record ReceiverPlan : Type 0 where
  pub args : ReceiverArgs
  pub config : Entries
  pub params : ConnectionParams
  pub peer : Peer

unfoldable pub receiver_plan : ReceiverArgs → Entries → Peer → ReceiverPlan
unfolding receiver_params
receiver_plan a config conn =
    let params = receiver_params config a.udp_port in
    record { args = a; config = config; params = params; peer = sdr_set_params conn params }

unfoldable pub receiver_listening : ReceiverArgs → Entries → Option Peer → Started ReceiverPlan
unfolding receiver_plan
receiver_listening a config none = exited 1
receiver_listening a config (some conn) = ready (receiver_plan a config conn)

unfoldable pub receiver_start :
    (Text → Option Text) → (ℕ → Option Peer) → Parsed ReceiverArgs → Started ReceiverPlan
unfolding receiver_listening load_from_file
receiver_start read listen usage = exited 1
receiver_start read listen aborted = uncaught
receiver_start read listen (parsed a) =
    receiver_listening a (load_from_file [] (read a.config_file)).1 (listen a.tcp_port)

-- `read` gives the content of a file that can be opened, and `listen` the connection that `sdr_listen`
-- makes on a port and that accepts a client.
unfoldable pub receiver_main :
    (Text → Option Text) → (ℕ → Option Peer) → List Text → Started ReceiverPlan
unfolding receiver_args receiver_start
receiver_main read listen argv = receiver_start read listen (receiver_args argv)
