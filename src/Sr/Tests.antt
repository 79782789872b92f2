-- ===== src/Sr/Tests.antt =====
-- Selective repeat at a concrete size, and the theorems about it there.
use sdr_rdma_udp.Common.{
  ℕ, zero, suc, all_from, List, ◌++◌, ◌^◌, ◌<◌, ◌≡◌, refl, true, false, some, [], ◌∷◌, arith,
  get_or, Option, none,
}
use sdr_rdma_udp.Common.WordArray.{bit_at}
use sdr_rdma_udp.Packet.LittleEndian.{swapping, packed}
use sdr_rdma_udp.Frontend.{FrontendBitmap, completed}
use sdr_rdma_udp.Frontend
use sdr_rdma_udp.Sr.Report.{SrConfig, SrStats, Pump, pump}
use sdr_rdma_udp.Sr.Sound.{IsAnswer, pump-IsAnswer}
use sdr_rdma_udp.Sr.Sender.{
  SrSender, Link, packets_of_chunks, retransmit_range, send_packets_range, send_range, noted, emit,
}
use sdr_rdma_udp.Connection
use sdr_rdma_udp.Connection.{calculate_bitmap_sizes, initialize}
use sdr_rdma_udp.Tcp.{new_client}
use sdr_rdma_udp.Api.Control.{whole, params_message, Heard, client_wait}
use sdr_rdma_udp.Api.Send.{Sent, send_data}
use sdr_rdma_udp.Api.Recv.{allocate_msg_id}
use sdr_rdma_udp.Packet.{create_data_packet}
use sdr_rdma_udp.Api.Post.{Peer}
use sdr_rdma_udp.Api.SendPost.{SendCalls, sdr_send_post, send_payload, with_cts}
use sdr_rdma_udp.Sr.Sender.Start.{Begun, post_and_start}
use sdr_rdma_udp.Sr.Sender.Poll.{poll_round, message, more, start_send, start_state, first_window}
use sdr_rdma_udp.Control.{ControlMessage, sr_nack, magic_value, zero_params, cts}
use sdr_rdma_udp.Sr.Sizes.{packets_of_chunks_lem, same_chunks}
use sdr_rdma_udp.Sr.Resent.{heard, missing_is_resent}
use sdr_rdma_udp.Sr.Heard.{IsHeard, report-IsHeard}

-- Chunks 0 and 2 of three are complete.
abbrev gapped : FrontendBitmap
gapped = record {
  chunk_bitmap = 5 ∷ [];
  num_words = 1;
  total_chunks = 3;
  packets_per_chunk = 1;
  should_stop = false;
  poll_interval_us = 100;
  polling = true;
}

gapped-IsValid : Frontend.IsValid gapped
gapped-IsValid = record { words = λ k. below k; covers = omega arith; sized = refl }
  where
    below : (k : ℕ) → get_or gapped.chunk_bitmap k 0 < 2 ^ 64
    below zero = omega arith
    below (suc k) = omega arith

second_missing : completed gapped 1 ≡ false
unfolding completed bit_at
second_missing = refl

abbrev config : SrConfig
config = record {
  rto_ms = 0;
  nack_delay_ms = 0;
  max_inflight_chunks = 0;
  base_rtt_ms = 100;
  alpha_ms = 100;
}

abbrev no_stats : SrStats
no_stats = record { acks_sent = 0; nacks_sent = 0; retransmits = 0 }

abbrev idle : Pump
idle = record { last_ctrl = 0; stats = no_stats }

abbrev link : Link
link = record { order = swapping; layout = packed; params = zero_params; can_send = true }

-- Six bytes, two to a packet and one packet to a chunk.
abbrev sending : SrSender
sending = record {
  total_chunks = 3;
  mtu_bytes = 2;
  packets_per_chunk = 1;
  ack_base = 0;
  next_chunk_to_send = 3;
  max_inflight = 3;
  chunk_acked = false ∷ false ∷ false ∷ [];
  last_tx = 0 ∷ 0 ∷ 0 ∷ [];
  stats = no_stats;
  msg_id = 1;
  user_buffer = 10 ∷ 11 ∷ 12 ∷ 13 ∷ 14 ∷ 15 ∷ [];
  buffer_size = 6;
  sent = [];
}

pump-IsAnswer_example :
    IsAnswer gapped
      (false ∷ true ∷ false ∷ [])
      (pump config 7 (some gapped) gapped.total_chunks 60 idle)
pump-IsAnswer_example =
    pump-IsAnswer gapped-IsValid (omega arith) config 7 60 idle (false ∷ true ∷ false ∷ [])
      (omega arith) (omega arith)

report-IsHeard_example :
    IsHeard gapped sending
      (pump config 7 (some gapped) gapped.total_chunks 60 idle)
      (λ msg. poll_round link config 80 (message msg false) sending)
report-IsHeard_example =
    report-IsHeard gapped-IsValid (omega arith) 1 (omega arith) second_missing config 7 60 idle
      (omega arith) link 80 false sending (omega arith) refl (omega arith)

-- Chunk 2 of three, of two packets each.
abbrev wide : SrSender
wide = record sending { packets_per_chunk = 2; buffer_size = 11 }

packets_of_chunks_lem_example : packets_of_chunks wide 2 1 ≡ (4, 2)
packets_of_chunks_lem_example =
    packets_of_chunks_lem wide 2 (omega arith) (omega arith) (omega arith) (omega arith)
      (omega arith)

abbrev sized_link : Link
sized_link = record link { params = record zero_params { mtu_bytes = 2; packets_per_chunk = 2 } }

same_chunks_example :
    (start_state sized_link config 0 1 [] 11 no_stats).total_chunks
    ≡ (calculate_bitmap_sizes 11 2 2).1
same_chunks_example =
    same_chunks sized_link config 0 1 [] 11 no_stats (omega arith) (omega arith) (omega arith)
      (omega arith) (omega arith) few
  where
    few : (calculate_bitmap_sizes 11 2 2).1 < 2 ^ 32
    few = unfold calculate_bitmap_sizes in omega arith

-- Chunk 1 is missing.
abbrev one_gap : ControlMessage
one_gap = record {
  magic = magic_value;
  msg_type = sr_nack;
  connection_id = 7;
  params = record zero_params { total_chunks = 3; max_inflight = 0; rto_ms = 1; rtt_alpha_ms = 1 };
  chunk_bitmap_words = 1;
  chunk_bitmap = 5 ∷ [];
  num_gaps = 1;
  gap_start = 1 ∷ [];
  gap_len = 1 ∷ [];
}

first_complete : all_from (completed gapped) 1 0 ≡ true
unfolding completed bit_at
first_complete = refl

missing_is_resent_example :
    (msg : ControlMessage) × (after : Pump) × (t s' : SrSender) × (chunk rest : List Sent) × (pump
        config 7
        (some gapped)
        3
        60
        idle
      ≡ some (some msg, (false, after)))
    × (poll_round link config 80 (message msg false) sending ≡ some (more, s'))
    × (retransmit_range link 80 1 1 (heard msg sending) ≡ some t)
    × (t.sent ≡ [] ++ chunk)
    × (s'.sent ≡ t.sent ++ rest)
missing_is_resent_example =
    missing_is_resent gapped-IsValid (omega arith) 1 (omega arith) second_missing first_complete
      config 7 60 idle (omega arith) link 80 false sending (omega arith) refl (omega arith) refl
      (omega arith)

-- A sender that is connected and hears the CTS for three chunks sends the two of its window, and no packet
-- in the handshake.
abbrev connected : Peer
connected = record {
  endpoint = record { next_msg_id = 0; receiver_generation_counter = 1; conn = Connection.new };
  udp_receiver = none;
  tcp_server = none;
  tcp_client = some (record new_client { socket_fd = some 5; is_connected = true; opened = 1 });
}

abbrev calls : SendCalls
calls = record {
  offer_sent = whole;
  accept_sent = whole;
  socket_ok = true;
  address_ok = true;
  sendto = λ _. true;
}

abbrev cts_message : ControlMessage
cts_message =
    params_message cts 7
      (record zero_params { mtu_bytes = 2; packets_per_chunk = 1; transfer_id = 1 })

abbrev sent_chunks : Option Begun → Option ℕ
sent_chunks none = none
sent_chunks (some b) = elim b.sender [ none ↦ none | some s ↦ some s.next_chunk_to_send ]

begun :
    sent_chunks (
      post_and_start swapping packed calls
        (record config { max_inflight_chunks = 2 })
        0
        true
        no_stats
        connected
        (10 ∷ 11 ∷ 12 ∷ 13 ∷ 14 ∷ 15 ∷ [])
        6
        (Heard.message cts_message ∷ []))
    ≡ some 2
unfolding post_and_start sdr_send_post send_payload with_cts send_data client_wait initialize
    start_send allocate_msg_id Connection.set_auto_send_data first_window start_state
    retransmit_range send_packets_range send_range packets_of_chunks create_data_packet noted emit
begun = refl
