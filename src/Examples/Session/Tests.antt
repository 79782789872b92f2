-- ===== src/Examples/Session/Tests.antt =====
-- The two programs with a message of five bytes, in packets of two by the configuration file.
use sdr_rdma_udp.Common.{ℕ, ◌≡◌, refl, true, some, none, List, [], ◌∷◌, arith, uint64_max, all_from}
use sdr_rdma_udp.Config.{
  Text, load_from_file, lines_from, load_lines, parse_line, set_entry, trim, split_line, put, find,
  get_uint32, stoul,
}
use sdr_rdma_udp.Control.{ConnectionParams, zero_params}
use sdr_rdma_udp.Packet.LittleEndian.{swapping, packed}
use sdr_rdma_udp.Connection.{ConnectionContext, user, allocate_message_slot, initialize, occupied}
use sdr_rdma_udp.Receiver.Blocks.{Memory}
use sdr_rdma_udp.Receiver.Workers.{ChannelCalls}
use sdr_rdma_udp.Tcp.{new_server, new_client}
use sdr_rdma_udp.Transfer.Deliver.{among}
use sdr_rdma_udp.Api.Params.{negotiate, offer_params}
use sdr_rdma_udp.Api.Recv.{Endpoint, Posted, recv_setup}
use sdr_rdma_udp.Api.Control.{message, timeout, whole}
use sdr_rdma_udp.Api.Post.{Peer, RecvCalls, sdr_recv_post, sdr_set_params}
use sdr_rdma_udp.Api.SendPost.{SendCalls, sdr_send_post}
use sdr_rdma_udp.Api.Handshake.{IsReady, offer_of, cts_of, accept_of}
use sdr_rdma_udp.Api.Handshake.Sending.{CanSend}
use sdr_rdma_udp.Transfer.{IsTransfer}
use sdr_rdma_udp.Transfer.Start.{transfer_of}
use sdr_rdma_udp.Transfer.Session.{IsDone}
use sdr_rdma_udp.Examples.Args.{sdr, sender_args, take_mode, sender_rest, size_and_file, stoi}
use sdr_rdma_udp.Examples.Sender.{
  ready, SenderPlan, sender_main, sender_start, sender_connected, sender_plan, sender_config,
  size_to_send, preferred_params,
}
use sdr_rdma_udp.Examples.Verify.{send_buffer, verify}
use sdr_rdma_udp.Examples.Session.{programs_deliver}

abbrev host : Text
host = b'h' ∷ []

-- `mtu_bytes=2` and `packets_per_chunk=2`.
abbrev file : Text
file =
    b'm' ∷ b't' ∷ b'u' ∷ b'_' ∷ b'b' ∷ b'y' ∷ b't' ∷ b'e' ∷ b's' ∷ b'=' ∷ b'2' ∷ 10 ∷ b'p' ∷ b'a'
    ∷ b'c' ∷ b'k' ∷ b'e' ∷ b't' ∷ b's' ∷ b'_' ∷ b'p' ∷ b'e' ∷ b'r' ∷ b'_' ∷ b'c' ∷ b'h' ∷ b'u'
    ∷ b'n' ∷ b'k' ∷ b'=' ∷ b'2' ∷ []

abbrev argv : List Text
argv = host ∷ (b'7' ∷ []) ∷ (b'8' ∷ []) ∷ (b'5' ∷ []) ∷ host ∷ []

abbrev table : ConnectionContext
table = record {
  connection_id = 1;
  params = zero_params;
  is_initialized = true;
  auto_send_data = true;
  msg_table = λ _. none;
  generation_counters = λ _. 1;
  tcp_socket_fd = none;
  udp_socket_fd = none;
}

abbrev fresh : Endpoint
fresh = record { next_msg_id = 0; receiver_generation_counter = 1; conn = table }

abbrev connected : Peer
connected = record {
  endpoint = fresh;
  udp_receiver = none;
  tcp_server = none;
  tcp_client = some (record new_client { socket_fd = some 5; is_connected = true; opened = 1 });
}

abbrev plan : SenderPlan
plan = record {
  mode = sdr;
  content = 0 ∷ 1 ∷ 2 ∷ 3 ∷ 4 ∷ [];
  peer = record connected {
    endpoint = record fresh {
      conn = record table {
        params = record zero_params {
          mtu_bytes = 2;
          packets_per_chunk = 2;
          channel_base_port = 8;
          udp_server_port = 8;
          num_channels = 1;
          transfer_id = 1;
        };
      };
    };
  };
  config =
      ((b'm' ∷ b't' ∷ b'u' ∷ b'_' ∷ b'b' ∷ b'y' ∷ b't' ∷ b'e' ∷ b's' ∷ []), (b'2' ∷ []))
      ∷ (
        (b'p' ∷ b'a' ∷ b'c' ∷ b'k' ∷ b'e' ∷ b't' ∷ b's' ∷ b'_' ∷ b'p' ∷ b'e' ∷ b'r' ∷ b'_' ∷ b'c'
            ∷ b'h' ∷ b'u' ∷ b'n' ∷ b'k' ∷ []),
        (b'2' ∷ []),
      )
      ∷ [];
}

starts : sender_main (λ f. some file) (λ ip port. some connected) argv ≡ ready plan
unfolding sender_main sender_args take_mode sender_rest size_and_file stoi sender_start
    sender_connected sender_plan sender_config size_to_send preferred_params send_buffer
    sdr_set_params initialize load_from_file lines_from load_lines parse_line set_entry trim
    split_line put find get_uint32 stoul
starts = refl

abbrev receiver : Peer
receiver = record {
  endpoint = fresh;
  udp_receiver = none;
  tcp_server = some (record new_server {
    listen_fd = some 3;
    client_fd = some 4;
    is_listening = true;
    opened = 2;
  });
  tcp_client = none;
}

abbrev settled : ConnectionParams
settled = record zero_params {
  transfer_id = 1;
  total_bytes = 5;
  mtu_bytes = 2;
  packets_per_chunk = 2;
  num_channels = 1;
  channel_base_port = 9999;
  udp_server_ip = b'1' ∷ b'2' ∷ b'7' ∷ b'.' ∷ b'0' ∷ b'.' ∷ b'0' ∷ b'.' ∷ b'1' ∷ [];
  udp_server_port = 9999;
}

abbrev first : Posted
first = record { msg_id = 0; generation = 1; buffer_size = 5; cts_params = settled }

abbrev after_first : Endpoint
after_first = (recv_setup fresh (offer_params plan.peer.endpoint.conn.params 5) (user 0) 5).1

abbrev memory : Memory
memory = record { buffers = λ _. 0 ∷ 0 ∷ 0 ∷ 0 ∷ 0 ∷ []; sink = 0 ∷ [] }

abbrev channel : ℕ → ChannelCalls
channel idx = record { socket = some 7; setsockopt_ok = true; bind_ok = true }

abbrev receiver_calls : RecvCalls
receiver_calls = record { channels = channel; cts_sent = true }

abbrev sender_calls : SendCalls
sender_calls = record {
  offer_sent = whole;
  accept_sent = whole;
  socket_ok = true;
  address_ok = true;
  sendto = λ _. true;
}

plan-CanSend : CanSend plan.peer sender_calls
plan-CanSend = record {
  client = record new_client { socket_fd = some 5; is_connected = true; opened = 1 };
  has_client = refl;
  connected = refl;
  offer_goes_out = refl;
  accept_goes_out = refl;
  has_socket = refl;
  has_address = refl;
  sends_data = refl;
}

receiver-IsReady : IsReady plan.peer receiver receiver_calls (user 0) 5 first after_first
unfolding recv_setup allocate_message_slot initialize negotiate occupied offer_params
receiver-IsReady = record {
  server = record new_server {
    listen_fd = some 3;
    client_fd = some 4;
    is_listening = true;
    opened = 2;
  };
  has_server = refl;
  connected = refl;
  has_slot = refl;
  no_receiver = refl;
  channels_open = refl;
  cts_goes_out = refl;
}

sent-IsTransfer : IsTransfer (transfer_of first plan.content 0)
sent-IsTransfer = omega arith

-- The second packet comes twice.
abbrev arrivals : List ℕ
arrivals = 1 ∷ 2 ∷ 1 ∷ 0 ∷ []

every_packet : all_from (λ j. among j arrivals) 3 0 ≡ true
every_packet = refl

programs_deliver_example :
    (d : IsDone swapping packed plan.peer receiver first plan.content 0 memory arrivals
      (sdr_recv_post receiver_calls receiver
        (user 0)
        5
        (timeout ∷ message (offer_of plan.peer 5) ∷ message (accept_of receiver first) ∷ []))
      (sdr_send_post swapping packed sender_calls plan.peer plan.content 5
        (message (cts_of receiver first) ∷ [])))
    × (verify (d.state.memory.buffers 0) 5 ≡ some (true, uint64_max))
programs_deliver_example =
    programs_deliver swapping packed (λ f. some file) (λ ip port. some connected) argv plan receiver
      receiver_calls sender_calls 0 first after_first (timeout ∷ []) [] [] [] [] memory arrivals
      starts (omega arith) refl refl receiver-IsReady plan-CanSend sent-IsTransfer (omega arith)
      (λ i. refl) refl refl refl (omega arith) every_packet
