-- ===== src/Transfer/Packets.antt =====
-- The packets of a message, and how the receiver reads them back.
use sdr_rdma_udp.Common.{
  ℕ, ◌+◌, ◌-◌, ◌*◌, ◌/◌, ◌%◌, ◌^◌, ◌≤◌, ◌<◌, ◌≡◌, ap, sym, ◌∙◌, false, some, List, ◌++◌, ltb, ◌==◌,
  if◌then◌else◌, length, take, drop, min, u16, u32, u64, arith, length-take, length-drop,
  length-append, take-append, drop-append, le→ltb,
}
use sdr_rdma_udp.Packet.{
  SdrPacket, SdrPacketHeader, ByteOrder, Layout, IsHeader, header_size, magic_value,
  max_payload_size, create_data_packet, set_chunk_seq, datagram, zero_header, get_chunk_id,
  to_network_order, to_host_order,
}
use sdr_rdma_udp.Packet
use sdr_rdma_udp.Packet.Order.{to_host_order-to_network_order, to_network_order-IsHeader}
use sdr_rdma_udp.Control.{ConnectionParams}
use sdr_rdma_udp.Api.Send.{make_packet}
use sdr_rdma_udp.Receiver.{State, process_packet, receive_datagram}
use sdr_rdma_udp.Transfer.{Transfer, IsTransfer, packet_count}

-- How many bytes of the message packet `i` carries.
abbrev pub len_of : Transfer → ℕ → ℕ
len_of t i = min t.mtu_bytes (length t.message - i * t.mtu_bytes)

-- Packet `i` of the message.
abbrev pub packet_of : Transfer → ℕ → SdrPacket
packet_of t i = record {
  header = record zero_header {
    magic = magic_value;
    transfer_id = t.transfer_id;
    msg_id = t.msg_id;
    packet_offset = i;
    chunk_seq = if t.packets_per_chunk == 0 then 0 else i / t.packets_per_chunk;
    packets_per_chunk = t.packets_per_chunk;
    payload_len = len_of t i;
  };
  payload = take (len_of t i) (drop (i * t.mtu_bytes) t.message);
}

-- The parameters that the sender was given agree with the transfer.
pub record Agrees (t : Transfer) (p : ConnectionParams) : Type 0 where
  pub mtu : p.mtu_bytes ≡ t.mtu_bytes
  pub generation : p.transfer_id ≡ t.transfer_id
  pub chunk : p.packets_per_chunk ≡ t.packets_per_chunk

module _ {t : Transfer} (v : IsTransfer t) {i : ℕ} (below : i < packet_count t) where
  -- Each packet has a byte to carry.
  pub starts_inside : i * t.mtu_bytes < length t.message
  starts_inside =
      let q : packet_count t * t.mtu_bytes ≤ length t.message + t.mtu_bytes - 1 =
        grind (arith, v.mtu_pos) in
      let m : (i + 1) * t.mtu_bytes ≤ packet_count t * t.mtu_bytes = grind arith in
      omega (arith, v.mtu_pos)

  -- For a transfer whose sizes fit the packet fields, the sender that uses its parameters makes
  -- packet `i` of the message as the description of the transfer has it, without a read outside the
  -- buffer.
  pub make_packet_lem :
      (p : ConnectionParams)
      → Agrees t p
      → make_packet p t.msg_id t.message (length t.message) i ≡ some (some (packet_of t i))
  unfolding make_packet create_data_packet set_chunk_seq get_chunk_id
  make_packet_lem p a =
      let place : u64 (i * t.mtu_bytes) ≡ i * t.mtu_bytes = omega (arith, v.small, starts_inside) in
      let rest : u64 (length t.message + (2 ^ 64 - i * t.mtu_bytes))
          ≡ length t.message - i * t.mtu_bytes =
        omega (arith, v.small, starts_inside) in
      let capped : ltb max_payload_size (len_of t i) ≡ false =
        le→ltb max_payload_size (len_of t i) (omega (arith, v.mtu_fits)) in
      let has : ltb (length (drop (i * t.mtu_bytes) t.message)) (len_of t i) ≡ false =
        le→ltb (length (drop (i * t.mtu_bytes) t.message)) (len_of t i)
          (omega (arith, length-drop (i * t.mtu_bytes) t.message)) in
      let whole : u32 i ≡ i = omega (arith, v.count_fits) in
      let id : t.msg_id % 2 ^ 10 ≡ t.msg_id = omega (arith, v.slot) in
      let offset : i % 2 ^ 18 ≡ i = omega (arith, v.count_fits) in
      let len : u16 (len_of t i) ≡ len_of t i = omega (arith, v.mtu_fits) in
      rw (a.mtu, a.generation, a.chunk, place, rest, capped, capped, has, whole, id, offset, len)

  chunk_seq_fits : (if t.packets_per_chunk == 0 then 0 else i / t.packets_per_chunk) < 2 ^ 32
  chunk_seq_fits = let h : i / t.packets_per_chunk ≤ i = grind arith in ground (arith, v.count_fits)

  pub packet_of-IsHeader : IsHeader (packet_of t i).header
  packet_of-IsHeader = record {
    magic_fits = omega arith;
    type_fits = omega arith;
    reserved1_fits = omega arith;
    transfer_id_fits = v.generation;
    msg_id_fits = omega (arith, v.slot);
    packet_offset_fits = omega (arith, v.count_fits);
    reserved2_fits = omega arith;
    submsg_id_fits = omega arith;
    chunk_seq_fits = chunk_seq_fits;
    packets_per_chunk_fits = v.chunk_fits;
    fec_k_fits = omega arith;
    fec_m_fits = omega arith;
    parity_idx_fits = omega arith;
    payload_len_fits = omega (arith, v.mtu_fits);
    flags_fits = omega arith;
    reserved3_fits = omega arith;
  }

  pub length-payload : length (packet_of t i).payload ≡ len_of t i
  length-payload = omega (
    arith,
    length-take (len_of t i) (drop (i * t.mtu_bytes) t.message),
    length-drop (i * t.mtu_bytes) t.message,
  )

  -- For a transfer whose sizes fit the packet fields, the receiver takes from the datagram of
  -- packet `i` the header, the payload and the length that the sender put there, and processes
  -- them.
  pub receive_datagram_lem :
      (o : ByteOrder) (l : Layout) (s : State)
      → receive_datagram o l s (datagram o l (packet_of t i))
        ≡ process_packet s (packet_of t i).header (packet_of t i).payload (len_of t i)
  unfolding receive_datagram datagram Packet.is_valid
  receive_datagram_lem o l s =
      let h : SdrPacketHeader = (packet_of t i).header in
      let net : SdrPacketHeader = to_network_order o h in
      let head : List ℕ = l.bytes_of net in
      let pay : List ℕ = (packet_of t i).payload in
      let size : length head ≡ header_size = l.length-bytes_of net in
      let total : length (head ++ pay) ≡ header_size + len_of t i =
        omega (arith, length-append head pay, length-payload) in
      let enough : ltb (length (head ++ pay)) header_size ≡ false =
        le→ltb (length (head ++ pay)) header_size (omega arith) in
      let front : take header_size (head ++ pay) ≡ head =
        ap (λ n. take n (head ++ pay)) (sym size) ∙ take-append head pay in
      let back : drop header_size (head ++ pay) ≡ pay =
        ap (λ n. drop n (head ++ pay)) (sym size) ∙ drop-append head pay in
      let read : to_host_order o (l.header_of head) ≡ h =
        ap (to_host_order o)
          (l.header_of-bytes_of net (to_network_order-IsHeader o packet_of-IsHeader))
        ∙ to_host_order-to_network_order o packet_of-IsHeader in
      let len : min (length (head ++ pay) - header_size) (len_of t i) ≡ len_of t i = omega arith in
      rw (enough, front, back, read, len)
