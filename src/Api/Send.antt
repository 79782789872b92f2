-- ===== src/Api/Send.antt =====
-- sdr-udp/src/sdr_api.cpp, the loop of `sdr_send_post` that cuts the buffer into packets and hands
-- them to the channels. The socket is the platform's: `sendto i` says whether the system takes packet
-- `i`.
use sdr_rdma_udp.Common.{
  ℕ, zero, suc, ◌+◌, ◌-◌, ◌*◌, ◌/◌, ◌%◌, ◌^◌, Bool, Option, none, some, List, [], ◌∷◌, ◌++◌, ltb,
  ◌==◌, if◌then◌else◌, ◌>>=◌, length, drop, min, u16, u32, u64,
}
use mathlib.Core.Option
use sdr_rdma_udp.Packet.{
  SdrPacket, ByteOrder, Layout, max_payload_size, create_data_packet, set_chunk_seq, datagram,
}
use sdr_rdma_udp.Control.{ConnectionParams}

-- A datagram on its way to a port.
pub record Sent : Type 0 where
  pub port : ℕ
  pub bytes : List ℕ

-- What the loop keeps: the datagrams that the socket took, in order, and the two counts.
pub record Progress : Type 0 where
  pub sent : List Sent
  pub packets_sent : ℕ
  pub packets_failed : ℕ

-- `num_channels` and `base_port`, with their defaults.
abbrev pub channels_of : ConnectionParams → ℕ
channels_of p = if p.num_channels == 0 then 1 else p.num_channels

abbrev pub base_port_of : ConnectionParams → ℕ
base_port_of p = if p.channel_base_port == 0 then p.udp_server_port else p.channel_base_port

abbrev pub channel_port : ConnectionParams → ℕ → ℕ
channel_port p i = u16 (base_port_of p + u16 (i % channels_of p))

-- `(length + mtu_bytes - 1) / mtu_bytes`
abbrev pub total_packets_of : ℕ → ℕ → ℕ
total_packets_of length mtu_bytes = u64 (length + mtu_bytes + (2 ^ 64 - 1)) / mtu_bytes

-- Packet `i` of the buffer. The outer `none` is a read outside the buffer.
unfoldable pub make_packet : ConnectionParams → ℕ → List ℕ → ℕ → ℕ → Option (Option SdrPacket)
make_packet p msg_id buffer length i =
    let remaining = u64 (length + (2 ^ 64 - u64 (i * p.mtu_bytes))) in
    let wanted = min p.mtu_bytes remaining in
    let packet_data_len = if ltb max_payload_size wanted then max_payload_size else wanted in
    create_data_packet p.transfer_id msg_id (u32 i) p.packets_per_chunk
      (drop (i * p.mtu_bytes) buffer) packet_data_len
    >>= λ packet. some (Option.map set_chunk_seq packet)

-- One packet of the loop: counted as failed if it could not be made or the socket refuses it.
unfoldable pub send_packet :
    ByteOrder → Layout → (ℕ → Bool) → ConnectionParams → ℕ → Option SdrPacket → Progress → Progress
send_packet o l sendto p i none s = record s { packets_failed = s.packets_failed + 1 }
send_packet o l sendto p i (some packet) s =
    if sendto i
    then record s {
      sent = s.sent ++ (record { port = channel_port p i; bytes = datagram o l packet } ∷ []);
      packets_sent = s.packets_sent + 1;
    }
    else record s { packets_failed = s.packets_failed + 1 }

-- `n` rounds of the loop, from packet `i` on.
unfoldable pub send_packets :
    ByteOrder
    → Layout
    → (ℕ → Bool)
    → ConnectionParams
    → ℕ
    → List ℕ
    → ℕ
    → ℕ
    → ℕ
    → Progress
    → Option Progress
send_packets o l sendto p msg_id buffer length zero i s = some s
send_packets o l sendto p msg_id buffer length (suc n) i s =
    make_packet p msg_id buffer length i >>= λ packet.
    send_packets o l sendto p msg_id buffer length n (i + 1) (send_packet o l sendto p i packet s)

-- The data phase of `sdr_send_post`, skipped unless `auto_send_data` is set.
unfoldable pub send_data :
    ByteOrder → Layout → (ℕ → Bool) → Bool → ConnectionParams → ℕ → List ℕ → ℕ → Option Progress
send_data o l sendto auto_send_data p msg_id buffer length =
    let start : Progress = record { sent = []; packets_sent = 0; packets_failed = 0 } in
    if auto_send_data
    then send_packets o l sendto p msg_id buffer length (total_packets_of length p.mtu_bytes) 0
        start
    else some start
