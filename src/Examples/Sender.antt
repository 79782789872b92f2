-- ===== src/Examples/Sender.antt =====
-- sdr-udp/examples/sdr_test_sender.cpp: what `main` sets up from its arguments and its configuration file, and
-- how each mode sends. What the two reliability layers return is a parameter.
use sdr_rdma_udp.Common.{
  ℕ, Bool, Option, none, some, List, [], if◌then◌else◌, ◌>>=◌, map, length, u16, u32,
}
use sdr_rdma_udp.Config.{Text, Entries, get_uint32, load_from_file, is_empty}
use sdr_rdma_udp.Control.{ConnectionParams, zero_params}
use sdr_rdma_udp.Packet.{ByteOrder, Layout}
use sdr_rdma_udp.Sr.Report.{SrConfig}
use sdr_rdma_udp.Ec.{EcConfig}
use sdr_rdma_udp.Api.Control.{Heard, message, timeout, closed}
use sdr_rdma_udp.Api.Complete.{Arrival, sdr_send_poll}
use sdr_rdma_udp.Api.Post.{Peer, sdr_set_params}
use sdr_rdma_udp.Api.SendPost.{SendCalls, SendResult, sdr_send_post}
use sdr_rdma_udp.Examples.Keys
use sdr_rdma_udp.Examples.Args.{
  Mode, sdr, sr, ec, SenderArgs, Parsed, usage, aborted, parsed, sender_args,
}
use sdr_rdma_udp.Examples.Verify.{send_buffer}

-- `cfg`, where `read` gives the content of a file that can be opened.
unfoldable pub sender_config : (Text → Option Text) → Text → Entries
unfolding load_from_file
sender_config read config_file =
    if is_empty config_file then [] else (load_from_file [] (read config_file)).1

-- `message_size` as it is used: that of the command line, or else that of the file.
unfoldable pub size_to_send : SenderArgs → Entries → ℕ
size_to_send a cfg =
    if a.has_size then a.message_size else get_uint32 cfg Keys.message_size (u32 a.message_size)

-- `preferred`
unfoldable pub preferred_params : Entries → ℕ → ConnectionParams
preferred_params cfg udp_port = record zero_params {
  mtu_bytes = get_uint32 cfg Keys.mtu_bytes 0;
  packets_per_chunk = u16 (get_uint32 cfg Keys.packets_per_chunk 0);
  channel_base_port = u16 udp_port;
  udp_server_port = u16 udp_port;
  num_channels = u16 (get_uint32 cfg Keys.num_channels 1);
  transfer_id = get_uint32 cfg Keys.transfer_id 1;
}

-- `sr_cfg`; the last two are the defaults of `SRConfig`.
unfoldable pub sender_sr_config : Entries → SrConfig
sender_sr_config cfg = record {
  rto_ms = get_uint32 cfg Keys.sr_rto_ms 500;
  nack_delay_ms = get_uint32 cfg Keys.sr_nack_delay_ms 200;
  max_inflight_chunks = u16 (get_uint32 cfg Keys.window_size 0);
  base_rtt_ms = 100;
  alpha_ms = 100;
}

-- `ec_cfg`
unfoldable pub sender_ec_config : ℕ → EcConfig
sender_ec_config message_size = record {
  k_data = 4;
  m_parity = 2;
  fallback_timeout_ms = 0;
  data_bytes = message_size;
  max_retries = 3;
}

-- What the sender has once it is connected: what it sends, and the connection with its parameters.
pub record SenderPlan : Type 0 where
  pub mode : Mode
  pub content : List ℕ
  pub peer : Peer
  pub config : Entries

-- How `main` goes to the sending: it ends before, by an exception or with an exit code, or it sends.
pub data Started {ℓ} (A : Type ℓ) : Type ℓ where
  uncaught : Started A
  exited : ℕ → Started A
  ready : A → Started A

unfoldable pub sender_plan : SenderArgs → Entries → Peer → SenderPlan
unfolding preferred_params size_to_send send_buffer
sender_plan a cfg conn = record {
  mode = a.mode;
  content = send_buffer (size_to_send a cfg);
  peer = sdr_set_params conn (preferred_params cfg a.udp_port);
  config = cfg;
}

unfoldable pub sender_connected : SenderArgs → Entries → Option Peer → Started SenderPlan
unfolding sender_plan
sender_connected a cfg none = exited 1
sender_connected a cfg (some conn) = ready (sender_plan a cfg conn)

unfoldable pub sender_start :
    (Text → Option Text) → (Text → ℕ → Option Peer) → Parsed SenderArgs → Started SenderPlan
unfolding sender_config sender_connected
sender_start read connect usage = exited 1
sender_start read connect aborted = uncaught
sender_start read connect (parsed a) =
    sender_connected a (sender_config read a.config_file) (connect a.server_ip a.tcp_port)

-- `connect` gives what `sdr_connect` returns for an address and a port.
unfoldable pub sender_main :
    (Text → Option Text) → (Text → ℕ → Option Peer) → List Text → Started SenderPlan
unfolding sender_args sender_start
sender_main read connect argv = sender_start read connect (sender_args argv)

-- A message, as `sdr_send_poll` hears it.
abbrev pub arrival_of : Heard → Arrival
arrival_of (message m) = Arrival.message m.msg_type
arrival_of timeout = Arrival.timeout
arrival_of closed = Arrival.closed

-- The exit code once `sdr_send_poll` returns, whatever it returns; `none` while it waits.
abbrev pub code_after : Option Bool → Option ℕ
code_after none = none
code_after (some polled) = some 0

-- The exit code after `sdr_send_post`.
unfoldable pub plain_code : SendResult → Option ℕ
plain_code r = elim r.status [
  | none ↦ none
  | some ok ↦ if ok then code_after (sdr_send_poll (map arrival_of r.left)) else some 1
]

-- The sending: its exit code, or `none` while it waits. The outer `none` is undefined behaviour.
-- `reliable` is what the two reliability layers return, once they do.
unfoldable pub run_mode :
    ByteOrder
    → Layout
    → SendCalls
    → (Mode → Peer → List ℕ → Option Bool)
    → SenderPlan
    → List Heard
    → Option (Option ℕ)
unfolding plain_code
run_mode o l calls reliable p heard = elim p.mode [
  | sdr ↦
      sdr_send_post o l calls p.peer p.content (length p.content) heard >>= λ r. some (plain_code r)
  | sr ↦ some (code_after (reliable sr p.peer p.content))
  | ec ↦ some (code_after (reliable ec p.peer p.content))
]
