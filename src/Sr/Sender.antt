-- ===== src/Sr/Sender.antt =====
-- sdr-udp/reliability/sr.cpp, SRSender: what it keeps, and how it answers a control message. One time is
-- taken for all the readings of the clock while a message is handled. A vector is as long as
-- `total_chunks`, and is read below it only. `sent` collects what `sendto` is given; its result is not
-- looked at.
pub mod Kept
pub mod Poll
pub mod Start
use sdr_rdma_udp.Common.{
  ℕ, zero, suc, ◌+◌, ◌-◌, ◌*◌, ◌/◌, ◌%◌, ◌^◌, ◌≤◌, ◌<◌, ◌≡◌, Bool, true, false, not, ◌&&◌, ◌||◌,
  Option, none, some, List, [], ◌∷◌, ◌++◌, min, ltb, leb, ◌==◌, if◌then◌else◌, ◌>>=◌, length,
  get_or, get_elem?, set, drop, replicate, u16, u32, u64,
}
use sdr_rdma_udp.Packet.{
  SdrPacket, ByteOrder, Layout, max_payload_size, create_data_packet, set_chunk_seq, datagram,
}
use sdr_rdma_udp.Control.{
  ControlMessage, ControlMsgType, ConnectionParams, sr_ack, sr_nack, complete_ack, incomplete_nack,
}
use sdr_rdma_udp.Api.Send.{Sent, total_packets_of}
use sdr_rdma_udp.Sr.Report.{SrConfig, SrStats}
use sdr_rdma_udp.Sr.Acks.{take_report, advance_base}

pub record SrSender : Type 0 where
  pub total_chunks : ℕ
  pub mtu_bytes : ℕ
  pub packets_per_chunk : ℕ
  pub ack_base : ℕ
  pub next_chunk_to_send : ℕ
  pub max_inflight : ℕ
  pub chunk_acked : List Bool
  pub last_tx : List ℕ
  pub stats : SrStats
  pub msg_id : ℕ
  pub user_buffer : List ℕ
  pub buffer_size : ℕ
  pub sent : List Sent

-- What the sender runs on: the platform, the parameters of the connection, and whether a socket can be
-- opened to their address.
pub record Link : Type 0 where
  pub order : ByteOrder
  pub layout : Layout
  pub params : ConnectionParams
  pub can_send : Bool

-- A packet on its way, unless it could not be made.
unfoldable pub emit : Link → Option SdrPacket → SrSender → SrSender
emit k none s = s
emit k (some packet) s = record s {
  sent =
      s.sent
      ++ (record {
        port = k.params.udp_server_port;
        bytes = datagram k.order k.layout (set_chunk_seq packet);
      }
          ∷ []);
}

-- `n` rounds of the loop, from the packet at `packet_offset` on.
unfoldable pub send_range : Link → ℕ → ℕ → SrSender → Option SrSender
send_range k zero packet_offset s = some s
send_range k (suc n) packet_offset s =
    let data_offset = u32 packet_offset * s.mtu_bytes in
    let wanted = min s.mtu_bytes (s.buffer_size - data_offset) in
    let packet_data_len = if ltb max_payload_size wanted then max_payload_size else wanted in
    let rest =
      create_data_packet k.params.transfer_id s.msg_id (u32 packet_offset) s.packets_per_chunk
        (drop data_offset s.user_buffer) packet_data_len
      >>= λ packet. send_range k n (packet_offset + 1) (emit k packet s) in
    if leb s.buffer_size data_offset then some s else rest

unfoldable pub send_packets_range : Link → ℕ → ℕ → SrSender → Option SrSender
send_packets_range k start_packet packet_count s =
    if k.can_send then send_range k packet_count start_packet s else some s

-- `n` rounds of `last_tx_[c] = now`.
unfoldable pub stamp_from : ℕ → ℕ → ℕ → List ℕ → List ℕ
stamp_from now zero c last_tx = last_tx
stamp_from now (suc n) c last_tx = stamp_from now n (c + 1) (set last_tx c now)

-- The packets of a run of chunks: the first, and how many. The products are of 64 bits.
unfoldable pub packets_of_chunks : SrSender → ℕ → ℕ → ℕ × ℕ
packets_of_chunks s start_chunk count =
    let chunk_bytes = s.packets_per_chunk * s.mtu_bytes in
    let offset = u64 (start_chunk * chunk_bytes) in
    let wanted = u64 (count * chunk_bytes) in
    let length =
      if ltb s.buffer_size (u64 (offset + wanted)) then s.buffer_size - offset else wanted in
    (u32 (offset / s.mtu_bytes), u32 (total_packets_of length s.mtu_bytes))

-- The count of the chunks sent again, and their times.
unfoldable pub noted : ℕ → ℕ → ℕ → SrSender → SrSender
noted now start_chunk count s = record s {
  stats = record (s.stats) { retransmits = s.stats.retransmits + count };
  last_tx =
      stamp_from now (min (u32 (start_chunk + count)) s.total_chunks - start_chunk) start_chunk
        s.last_tx;
}

unfoldable pub retransmit_range : Link → ℕ → ℕ → ℕ → SrSender → Option SrSender
retransmit_range k now start_chunk count s =
    if leb s.buffer_size (u64 (start_chunk * (s.packets_per_chunk * s.mtu_bytes)))
    then some s
    else let (start_packet, packet_count) = packets_of_chunks s start_chunk count in
      send_packets_range k start_packet packet_count s >>= λ s'.
      some (noted now start_chunk count s')

abbrev pub guard_ms : ℕ
guard_ms = 50

-- Whether chunk `c` is neither acknowledged nor sent in the last 50 ms.
abbrev pub is_due : ℕ → ℕ → SrSender → Bool
is_due now c s = not (get_or s.chunk_acked c false) && leb guard_ms (now - get_or s.last_tx c 0)

-- A loop over the chunks from `c` on, `n` of them at most, that sends again those that are due until
-- `limit` have been sent: with the sender, how many had been sent.
unfoldable pub resend_due : Link → ℕ → ℕ → ℕ → ℕ → ℕ → SrSender → Option (ℕ × SrSender)
resend_due k now limit zero c sent s = some (sent, s)
resend_due k now limit (suc n) c sent s =
    let again =
      retransmit_range k now c 1 s >>= λ s'. resend_due k now limit n (c + 1) (sent + 1) s' in
    let skip = resend_due k now limit n (c + 1) sent s in
    if leb limit sent then some (sent, s) else if is_due now c s then again else skip

unfoldable pub retransmit_missing_from_bitmap : Link → ℕ → ℕ → SrSender → Option SrSender
retransmit_missing_from_bitmap k now limit s =
    resend_due k now limit s.total_chunks 0 0 s >>= λ r. some r.1

-- The loop over the gaps of a message, at most 8 chunks in all: `n` rounds from gap `i` on. The count
-- of the gaps is the message's, and is not compared with the 16 entries of the arrays.
unfoldable pub resend_gaps : Link → ℕ → ControlMessage → ℕ → ℕ → ℕ → SrSender → Option SrSender
resend_gaps k now msg zero i sent s = some s
resend_gaps k now msg (suc n) i sent s =
    let rest = get_elem? msg.gap_start i >>= λ gs. get_elem? msg.gap_len i >>= λ gl.
    resend_due k now 8 (min (gs + gl) s.total_chunks - gs) gs sent s >>= λ r.
    resend_gaps k now msg n (i + 1) r.0 r.1 in
    if leb 8 sent then some s else rest

-- The loop that opens the window, in at most `n` rounds.
unfoldable pub open_window : Link → ℕ → ℕ → SrSender → Option SrSender
open_window k now zero s = some s
open_window k now (suc n) s =
    let next = s.next_chunk_to_send in
    let send =
      if get_or s.chunk_acked next false then some s else retransmit_range k now next 1 s in
    let rest = send >>= λ s'. open_window k now n (record s' { next_chunk_to_send = next + 1 }) in
    if ltb next s.total_chunks && ltb next (u32 (s.ack_base + s.max_inflight)) then rest else some s

-- The bitmap and the cumulative index of a message, taken in.
unfoldable pub take_in : ControlMessage → SrSender → SrSender
take_in msg s = record s {
  ack_base = advance_base msg.params.max_inflight s.ack_base;
  chunk_acked = take_report msg s.total_chunks s.chunk_acked;
}

unfoldable pub on_sr_ack : Link → ℕ → ControlMessage → SrSender → Option (Bool × SrSender)
on_sr_ack k now msg s =
    let s1 = take_in msg s in
    let s2 = record s1 { stats = record (s1.stats) { acks_sent = s1.stats.acks_sent + 1 } } in
    retransmit_missing_from_bitmap k now 4 s2 >>= λ s3.
    open_window k now (s3.total_chunks - s3.next_chunk_to_send) s3 >>= λ s4.
    some (leb msg.params.total_chunks (u32 (msg.params.max_inflight + 1)), s4)

unfoldable pub on_sr_nack : Link → ℕ → ControlMessage → SrSender → Option SrSender
on_sr_nack k now msg s =
    let s1 =
      take_in msg (record s { stats = record (s.stats) { nacks_sent = s.stats.nacks_sent + 1 } }) in
    resend_gaps k now msg msg.num_gaps 0 0 s1 >>= λ s2.
    retransmit_missing_from_bitmap k now 4 s2 >>= λ s3.
    open_window k now (s3.total_chunks - s3.next_chunk_to_send) s3
