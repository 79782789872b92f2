-- ===== src/Api/Stream.antt =====
-- sdr-udp/src/sdr_api.cpp: the streaming send, `sdr_send_stream_start`, `sdr_send_stream_continue` and
-- `sdr_send_stream_end`. The outer `none` is a division by an MTU of zero or a read outside the buffer.
use sdr_rdma_udp.Common.{
  ℕ, zero, suc, ◌+◌, ◌-◌, ◌*◌, ◌/◌, ◌^◌, ◌<◌, ◌≤◌, ◌≡◌, refl, Bool, true, false, not, ◌&&◌, Option,
  none, some, List, [], ◌∷◌, ◌++◌, ltb, ◌==◌, if◌then◌else◌, ◌>>=◌, length, drop, min, u32, u64,
  arith, le→ltb,
}
use mathlib.Core.Option
use sdr_rdma_udp.Packet.{
  SdrPacket, ByteOrder, Layout, max_payload_size, create_data_packet, set_chunk_seq, datagram,
}
use sdr_rdma_udp.Control.{ConnectionParams}
use sdr_rdma_udp.Connection.{initialize}
use sdr_rdma_udp.Tcp.{TcpClient}
use sdr_rdma_udp.Api.Recv.{allocate_msg_id}
use sdr_rdma_udp.Api.Send.{Sent, channel_port, make_packet, total_packets_of}
use sdr_rdma_udp.Api.Control.{Heard, message, timeout, closed, is_cts}
use sdr_rdma_udp.Api.Post.{Peer}

-- `SDRStreamHandle`
pub record StreamHandle : Type 0 where
  pub msg_id : ℕ
  pub generation : ℕ
  pub buffer_size : ℕ
  pub total_packets : ℕ
  pub packets_sent : ℕ
  pub is_active : Bool

-- The handle of a stream over `length` bytes, and the connection with the parameters of the CTS.
unfoldable pub open_stream : Peer → ConnectionParams → ℕ → ℕ → Option (Option StreamHandle × Peer)
open_stream p params connection_id length =
    let (msg_id, e) = allocate_msg_id p.endpoint in
    if params.mtu_bytes == 0
    then none
    else some (
      some (record {
        msg_id = msg_id;
        generation = params.transfer_id;
        buffer_size = length;
        total_packets = total_packets_of length params.mtu_bytes;
        packets_sent = 0;
        is_active = true;
      }),
      record p { endpoint = record e { conn = initialize e.conn connection_id params } },
    )

unfoldable pub stream_start_on : Peer → TcpClient → ℕ → Heard → Option (Option StreamHandle × Peer)
unfolding open_stream
stream_start_on p c length timeout = some (none, p)
stream_start_on p c length closed =
    some (none, record p { tcp_client = some (record c { is_connected = false }) })
stream_start_on p c length (message m) =
    let opened = open_stream p m.params m.connection_id length in
    if is_cts m.msg_type then opened else some (none, p)

-- `sdr_send_stream_start`: the handle, or -1, and the connection. It hears one message only.
unfoldable pub sdr_send_stream_start : Peer → ℕ → Heard → Option (Option StreamHandle × Peer)
unfolding stream_start_on
sdr_send_stream_start p length heard = elim p.tcp_client [
  | none ↦ some (none, p)
  | some c ↦
      let started = stream_start_on p c length heard in
      if c.is_connected then started else some (none, p)
]

-- Packet `i` of the buffer; the place of its data is computed in 32 bits.
unfoldable pub stream_packet : ConnectionParams → ℕ → List ℕ → ℕ → ℕ → Option (Option SdrPacket)
stream_packet p msg_id buffer buffer_size i =
    let place = u32 (i * p.mtu_bytes) in
    let packet_data_len = min p.mtu_bytes (u64 (buffer_size + (2 ^ 64 - place))) in
    create_data_packet p.transfer_id msg_id i p.packets_per_chunk (drop place buffer)
      packet_data_len
    >>= λ packet. some (Option.map set_chunk_seq packet)

-- The datagrams that the socket took, in order, and their count in the handle.
pub record Streamed : Type 0 where
  pub sent : List Sent
  pub packets_sent : ℕ

unfoldable pub put_packet :
    ByteOrder → Layout → (ℕ → Bool) → ConnectionParams → ℕ → Option SdrPacket → Streamed → Streamed
put_packet o l sendto p i none s = s
put_packet o l sendto p i (some packet) s =
    if sendto i
    then record {
      sent = s.sent ++ (record { port = channel_port p i; bytes = datagram o l packet } ∷ []);
      packets_sent = s.packets_sent + 1;
    }
    else s

-- `n` rounds of the loop, from packet `i` on.
unfoldable pub stream_packets :
    ByteOrder
    → Layout
    → (ℕ → Bool)
    → ConnectionParams
    → ℕ
    → List ℕ
    → ℕ
    → ℕ
    → ℕ
    → Streamed
    → Option Streamed
stream_packets o l sendto p msg_id buffer buffer_size zero i s = some s
stream_packets o l sendto p msg_id buffer buffer_size (suc n) i s =
    stream_packet p msg_id buffer buffer_size i >>= λ packet.
    stream_packets o l sendto p msg_id buffer buffer_size n (i + 1)
      (put_packet o l sendto p i packet s)

abbrev pub end_packet : ℕ → ℕ → ℕ → ℕ
end_packet offset length mtu = u32 (u64 (offset + length + mtu + (2 ^ 64 - 1)) / mtu)

-- The data phase: the packets from the one of the offset to the one of the end, and of the buffer.
unfoldable pub stream_range :
    ByteOrder
    → Layout
    → (ℕ → Bool)
    → ConnectionParams
    → StreamHandle
    → List ℕ
    → ℕ
    → ℕ
    → Option (List Sent × StreamHandle)
unfolding stream_packets
stream_range o l sendto p h buffer offset length =
    let start = offset / p.mtu_bytes in
    let stop = min (end_packet offset length p.mtu_bytes) h.total_packets in
    if p.mtu_bytes == 0
    then none
    else (stream_packets o l sendto p h.msg_id buffer h.buffer_size (stop - start) start
          (record { sent = []; packets_sent = h.packets_sent })
        >>= λ s. some (s.sent, record h { packets_sent = s.packets_sent }))

-- `sdr_send_stream_continue`: whether it returns 0, the datagrams, and the handle after.
unfoldable pub sdr_send_stream_continue :
    ByteOrder
    → Layout
    → Bool
    → Bool
    → (ℕ → Bool)
    → ConnectionParams
    → StreamHandle
    → List ℕ
    → ℕ
    → ℕ
    → Option (Bool × List Sent × StreamHandle)
unfolding stream_range
sdr_send_stream_continue o l socket_ok address_ok sendto p h buffer offset length =
    let ranged = stream_range o l sendto p h buffer offset length in
    if not h.is_active
    then some (false, [], h)
    else if p.mtu_bytes == 0
    then none
    else if not (socket_ok && address_ok)
    then some (false, [], h)
    else (ranged >>= λ r. some (true, r.0, r.1))

-- `sdr_send_stream_end`, before the handle is deleted.
unfoldable pub sdr_send_stream_end : StreamHandle → StreamHandle
sdr_send_stream_end h = record h { is_active = false }

-- Where the place of its data fits 32 bits, a packet of the stream is that of the whole send.
pub stream_packet-make_packet :
    (p : ConnectionParams) (msg_id : ℕ) (buffer : List ℕ) (size i : ℕ)
    → p.mtu_bytes ≤ max_payload_size
    → i < 2 ^ 32
    → i * p.mtu_bytes < 2 ^ 32
    → stream_packet p msg_id buffer size i ≡ make_packet p msg_id buffer size i
unfolding stream_packet make_packet
stream_packet-make_packet p msg_id buffer size i fits small place =
    let narrow : u32 (i * p.mtu_bytes) ≡ i * p.mtu_bytes = omega arith in
    let wide : u64 (i * p.mtu_bytes) ≡ i * p.mtu_bytes = omega arith in
    let index : u32 i ≡ i = omega arith in
    let rest = u64 (size + (2 ^ 64 - i * p.mtu_bytes)) in
    let uncapped : ltb max_payload_size (min p.mtu_bytes rest) ≡ false =
      le→ltb max_payload_size (min p.mtu_bytes rest) (omega arith) in
    rw (narrow, wide, index, uncapped) refl
