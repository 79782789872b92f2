-- ===== src/Transfer/Tests.antt =====
-- A message of five bytes in packets of two, received by a fresh endpoint on a little-endian platform.
use sdr_rdma_udp.Common.{
  ℕ, ◌+◌, ◌<◌, length, get_or, ◌++◌, ◌==◌, ◌≡◌, refl, true, false, none, some, List, [], ◌∷◌, take,
  arith, all_from,
}
use sdr_rdma_udp.Control.{ConnectionParams, zero_params}
use sdr_rdma_udp.Packet.{zero_header, SdrPacketHeader}
use sdr_rdma_udp.Packet.LittleEndian.{swapping, packed}
use sdr_rdma_udp.Connection.{
  ConnectionContext, MessageContext, user, allocate_message_slot, initialize, occupied,
}
use sdr_rdma_udp.Backend.{BackendBitmap, received, get_total_packets_received}
use sdr_rdma_udp.Api.Params.{negotiate}
use sdr_rdma_udp.Api.Recv.{Endpoint, Posted, recv_setup}
use sdr_rdma_udp.Api.Recv.Slot.{IsPosted, recv_setup-IsPosted}
use sdr_rdma_udp.Receiver.{State, process_packet}
use sdr_rdma_udp.Receiver.Blocks.{Memory}
use sdr_rdma_udp.Transfer.{Transfer, IsTransfer, IsReceiving}
use sdr_rdma_udp.Transfer.Packets.{packet_of, len_of}
use sdr_rdma_udp.Transfer.Deliver.{
  IsDelivered, IsCollected, process_packet-IsDelivered, receive_all, receive_all-IsCollected, among,
}
use sdr_rdma_udp.Transfer.Complete.{message_delivered}
use sdr_rdma_udp.Transfer.Start.{IsFresh, transfer_of, posted-IsReceiving, second_receive_deaf}
use sdr_rdma_udp.Receiver.Workers.{
  ChannelCalls, new_receiver, idle_worker, start_threads, open_channels, open_channel,
}
use sdr_rdma_udp.Receiver.Workers
use sdr_rdma_udp.Tcp.{new_server, new_client}
use sdr_rdma_udp.Api.Params.{offer_params}
use sdr_rdma_udp.Api.Send.{channel_port, Sent, Progress, send_data}
use sdr_rdma_udp.Api.Stream.{StreamHandle, sdr_send_stream_continue}
use sdr_rdma_udp.Transfer.Streaming.{handle_of, stream_pieces}
use sdr_rdma_udp.Api.Control.{message, timeout, whole}
use sdr_rdma_udp.Api.Post.{Peer, RecvCalls, sdr_recv_post}
use sdr_rdma_udp.Api.SendPost.{SendCalls, sdr_send_post}
use sdr_rdma_udp.Api.Handshake.{IsReady, offer_of, cts_of, accept_of}
use sdr_rdma_udp.Api.Handshake.Sending.{CanSend}
use sdr_rdma_udp.Transfer.Session.{IsDone, session_delivers}
use sdr_rdma_udp.Transfer.Ports.{start-IsServed}

abbrev offer : ConnectionParams
offer = record zero_params {
  total_bytes = 5;
  mtu_bytes = 2;
  packets_per_chunk = 2;
  num_channels = 1;
}

abbrev table : ConnectionContext
table = record {
  connection_id = 1;
  params = zero_params;
  is_initialized = true;
  auto_send_data = true;
  msg_table = λ _. none;
  generation_counters = λ _. 1;
  tcp_socket_fd = none;
  udp_socket_fd = none;
}

abbrev fresh : Endpoint
fresh = record { next_msg_id = 0; receiver_generation_counter = 1; conn = table }

fresh-IsFresh : IsFresh fresh
fresh-IsFresh = record { no_id = refl; first_generation = refl; first_generations = λ j. refl }

abbrev settled : ConnectionParams
settled = record zero_params {
  transfer_id = 1;
  total_bytes = 5;
  mtu_bytes = 2;
  packets_per_chunk = 2;
  num_channels = 1;
  channel_base_port = 9999;
  udp_server_ip = b'1' ∷ b'2' ∷ b'7' ∷ b'.' ∷ b'0' ∷ b'.' ∷ b'0' ∷ b'.' ∷ b'1' ∷ [];
  udp_server_port = 9999;
}

abbrev first : Posted
first = record { msg_id = 0; generation = 1; buffer_size = 5; cts_params = settled }

abbrev bytes : List ℕ
bytes = 10 ∷ 11 ∷ 12 ∷ 13 ∷ 14 ∷ []

abbrev memory : Memory
memory = record { buffers = λ _. 0 ∷ 0 ∷ 0 ∷ 0 ∷ 0 ∷ []; sink = 0 ∷ [] }

first_posted : (recv_setup fresh offer (user 0) 5).0 ≡ some first
unfolding recv_setup allocate_message_slot initialize negotiate occupied
first_posted = refl

abbrev after_first : Endpoint
after_first = (recv_setup fresh offer (user 0) 5).1

first-IsPosted : IsPosted fresh offer (user 0) 5 first after_first
first-IsPosted = recv_setup-IsPosted fresh offer (user 0) 5 first first_posted

abbrev plan : Transfer
plan = transfer_of first bytes 0

plan-IsTransfer : IsTransfer plan
plan-IsTransfer = omega arith

abbrev start : State
start = record { conn = after_first.conn; memory = memory }

start_receiving : (r : IsReceiving plan start) × ((i : ℕ) → received r.bitmap i ≡ false)
start_receiving =
    posted-IsReceiving bytes 0 first-IsPosted memory refl plan-IsTransfer (omega arith)

-- All three packets, out of order and one of them twice.
abbrev arrivals : List ℕ
arrivals = 2 ∷ 0 ∷ 2 ∷ 1 ∷ []

posted-IsReceiving_example :
    (r : IsReceiving
      (transfer_of first bytes 0)
      (record { conn = after_first.conn; memory = memory }))
    × ((i : ℕ) → received r.bitmap i ≡ false)
posted-IsReceiving_example =
    posted-IsReceiving bytes 0 first-IsPosted memory refl plan-IsTransfer (omega arith)

process_packet-IsDelivered_example :
    IsDelivered plan 2
      (received start_receiving.0.bitmap)
      (process_packet start (packet_of plan 2).header (packet_of plan 2).payload (len_of plan 2))
process_packet-IsDelivered_example =
    process_packet-IsDelivered plan-IsTransfer start_receiving.0 (omega arith)

receive_all-IsCollected_example :
    IsCollected plan arrivals
      (received start_receiving.0.bitmap)
      (receive_all swapping packed plan arrivals start)
receive_all-IsCollected_example =
    receive_all-IsCollected swapping packed plan-IsTransfer arrivals start_receiving.0 (omega arith)

every_packet : all_from (λ j. among j arrivals) 3 0 ≡ true
every_packet = refl

message_delivered_example :
    (s' : State) × (m : MessageContext) × (b : BackendBitmap) × (receive_all swapping packed plan
        arrivals start
      ≡ some s')
    × (take 5 (s'.memory.buffers 0) ≡ bytes)
    × (s'.conn.msg_table 0 ≡ some m)
    × (m.backend_bitmap ≡ some b)
    × (get_total_packets_received b ≡ some 3)
message_delivered_example =
    message_delivered swapping packed arrivals plan-IsTransfer start_receiving.0 (omega arith)
      every_packet

-- The second receive of the process, for the same offer.
abbrev second : Posted
second = record {
  msg_id = 1;
  generation = 2;
  buffer_size = 5;
  cts_params = record settled { transfer_id = 2 };
}

second_posted : (recv_setup after_first offer (user 1) 5).0 ≡ some second
unfolding recv_setup allocate_message_slot initialize negotiate occupied
second_posted = refl

abbrev lost_header : SdrPacketHeader
lost_header = record zero_header { transfer_id = 2; msg_id = 1 }

second_receive_deaf_example :
    let s : State = record {
      conn = (recv_setup after_first offer (user 1) 5).1.conn;
      memory = memory;
    } in
    process_packet s lost_header bytes 2 ≡ some s
second_receive_deaf_example =
    second_receive_deaf fresh offer offer (user 0) 1 5 bytes first second memory lost_header bytes 2
      fresh-IsFresh first_posted second_posted refl refl

-- A sender and a receiver with a connection each, and one channel.
abbrev sender : Peer
sender = record {
  endpoint = record fresh {
    conn = record table {
      params = record zero_params { mtu_bytes = 2; packets_per_chunk = 2; num_channels = 1 };
    };
  };
  udp_receiver = none;
  tcp_server = none;
  tcp_client = some (record new_client { socket_fd = some 5; is_connected = true; opened = 1 });
}

abbrev receiver : Peer
receiver = record {
  endpoint = fresh;
  udp_receiver = none;
  tcp_server = some (record new_server {
    listen_fd = some 3;
    client_fd = some 4;
    is_listening = true;
    opened = 2;
  });
  tcp_client = none;
}

abbrev channel : ℕ → ChannelCalls
channel idx = record { socket = some (7 + idx); setsockopt_ok = true; bind_ok = true }

abbrev receiver_calls : RecvCalls
receiver_calls = record { channels = channel; cts_sent = true }

abbrev sender_calls : SendCalls
sender_calls = record {
  offer_sent = whole;
  accept_sent = whole;
  socket_ok = true;
  address_ok = true;
  sendto = λ _. true;
}

sender-CanSend : CanSend sender sender_calls
sender-CanSend = record {
  client = record new_client { socket_fd = some 5; is_connected = true; opened = 1 };
  has_client = refl;
  connected = refl;
  offer_goes_out = refl;
  accept_goes_out = refl;
  has_socket = refl;
  has_address = refl;
  sends_data = refl;
}

receiver-IsReady : IsReady sender receiver receiver_calls (user 0) 5 first after_first
unfolding recv_setup allocate_message_slot initialize negotiate occupied offer_params
receiver-IsReady = record {
  server = record new_server {
    listen_fd = some 3;
    client_fd = some 4;
    is_listening = true;
    opened = 2;
  };
  has_server = refl;
  connected = refl;
  has_slot = refl;
  no_receiver = refl;
  channels_open = refl;
  cts_goes_out = refl;
}

session_delivers_example :
    IsDone swapping packed sender receiver first bytes 0 memory arrivals
      (sdr_recv_post receiver_calls receiver
        (user 0)
        5
        (timeout ∷ message (offer_of sender 5) ∷ timeout ∷ message (accept_of receiver first) ∷ []))
      (sdr_send_post swapping packed sender_calls sender bytes 5
        (timeout ∷ message (cts_of receiver first) ∷ []))
session_delivers_example =
    session_delivers swapping packed sender receiver receiver_calls sender_calls bytes 0 first
      after_first (timeout ∷ []) (timeout ∷ []) (timeout ∷ []) [] [] memory arrivals (omega arith)
      refl refl receiver-IsReady sender-CanSend plan-IsTransfer (omega arith) (λ i. refl) refl refl
      refl (omega arith) every_packet

started_two : (Workers.start new_receiver table 9999 2 channel).0 ≡ true
unfolding Workers.start start_threads open_channels open_channel
started_two = refl

start-IsServed_example :
    let u = (Workers.start new_receiver table 9999 2 channel).1 in
    (1 < length u.workers)
    × ((get_or u.workers 1 idle_worker).udp_port
        ≡ channel_port (record settled { num_channels = 2 }) 5)
    × ((get_or u.workers 1 idle_worker).thread ≡ true)
start-IsServed_example =
    start-IsServed new_receiver table channel (record settled { num_channels = 2 }) 5
      (record { no_workers = refl; not_running = refl; balance = refl }) (omega arith) (omega arith)
      started_two

stream_pieces_example :
    (first second : List Sent) × (h1 h2 : StreamHandle) × (pr : Progress)
    × (sdr_send_stream_continue swapping packed true true
          (λ i. i == 1)
          settled
          (handle_of plan 0)
          bytes
          0
          4
        ≡ some (true, first, h1))
    × (sdr_send_stream_continue swapping packed true true (λ i. i == 1) settled h1 bytes 4 1
        ≡ some (true, second, h2))
    × (send_data swapping packed (λ i. i == 1) true settled 0 bytes 5 ≡ some pr)
    × (first ++ second ≡ pr.sent)
    × (h2.packets_sent ≡ pr.packets_sent)
stream_pieces_example =
    stream_pieces swapping packed (λ i. i == 1) plan-IsTransfer settled
      (record { mtu = refl; generation = refl; chunk = refl }) (omega arith) 2 (omega arith)
      (omega arith)
