-- ===== src/Packet.antt =====
-- sdr-udp/include/sdr_packet.h: the header of a UDP packet, and the packet that carries it.
-- A header is its field values as the struct holds them, each below the width of its field.
-- `htons` and its like are the platform's, and so is the byte layout of the packed struct that
-- `memcpy` and `sendto` move: both are parameters, with what the code relies on as laws.
pub mod Order
pub mod LittleEndian
mod Tests
use sdr_rdma_udp.Common.{
  ℕ, ◌+◌, ◌-◌, ◌*◌, ◌/◌, ◌%◌, ◌^◌, ◌≤◌, ◌<◌, ◌≡◌, Bool, true, false, Option, none, some, List, ◌++◌,
  ltb, ◌==◌, if◌then◌else◌, length, take, u16,
}

pub data PacketType : Type 0 where
  data_packet parity ack nack cts : PacketType

-- `static_cast<uint8_t>(type)`
unfoldable pub type_code : PacketType → ℕ
type_code data_packet = 0
type_code parity = 1
type_code ack = 2
type_code nack = 3
type_code cts = 4

pub record SdrPacketHeader : Type 0 where
  pub magic : ℕ
  pub type : ℕ
  pub reserved1 : ℕ
  pub transfer_id : ℕ
  pub msg_id : ℕ
  pub packet_offset : ℕ
  pub reserved2 : ℕ
  pub submsg_id : ℕ
  pub chunk_seq : ℕ
  pub packets_per_chunk : ℕ
  pub fec_k : ℕ
  pub fec_m : ℕ
  pub parity_idx : ℕ
  pub payload_len : ℕ
  pub flags : ℕ
  pub reserved3 : ℕ

abbrev pub magic_value : ℕ
magic_value = 0x5344

-- `sizeof(SDRPacketHeader)`: the packed fields take 32 bytes.
abbrev pub header_size : ℕ
header_size = 2 + 1 + 1 + 4 + 4 + 2 + 4 + 2 + 2 + 2 + 2 + 2 + 1 + 3

abbrev pub max_payload_size : ℕ
max_payload_size = 64 * 1024 - 8 - header_size

unfoldable pub get_chunk_id : SdrPacketHeader → ℕ
get_chunk_id h = if h.packets_per_chunk == 0 then 0 else h.packet_offset / h.packets_per_chunk

pub get_packet_in_chunk : SdrPacketHeader → ℕ
get_packet_in_chunk h =
    if h.packets_per_chunk == 0 then 0 else h.packet_offset % h.packets_per_chunk

unfoldable pub is_valid : SdrPacketHeader → Bool
is_valid h = h.magic == magic_value

-- The byte-order functions of the platform.
pub record ByteOrder : Type 0 where
  pub htons : ℕ → ℕ
  pub htonl : ℕ → ℕ
  pub ntohs : ℕ → ℕ
  pub ntohl : ℕ → ℕ
  pub htons-lt : (x : ℕ) → x < 2 ^ 16 → htons x < 2 ^ 16
  pub htonl-lt : (x : ℕ) → x < 2 ^ 32 → htonl x < 2 ^ 32
  pub ntohs-htons : (x : ℕ) → x < 2 ^ 16 → ntohs (htons x) ≡ x
  pub ntohl-htonl : (x : ℕ) → x < 2 ^ 32 → ntohl (htonl x) ≡ x

-- The bit fields stay as they are.
unfoldable pub to_network_order : ByteOrder → SdrPacketHeader → SdrPacketHeader
to_network_order o h = record h {
  magic = o.htons h.magic;
  transfer_id = o.htonl h.transfer_id;
  chunk_seq = o.htonl h.chunk_seq;
  submsg_id = o.htons h.submsg_id;
  packets_per_chunk = o.htons h.packets_per_chunk;
  fec_k = o.htons h.fec_k;
  fec_m = o.htons h.fec_m;
  parity_idx = o.htons h.parity_idx;
  payload_len = o.htons h.payload_len;
}

pub to_host_order : ByteOrder → SdrPacketHeader → SdrPacketHeader
to_host_order o h = record h {
  magic = o.ntohs h.magic;
  transfer_id = o.ntohl h.transfer_id;
  chunk_seq = o.ntohl h.chunk_seq;
  submsg_id = o.ntohs h.submsg_id;
  packets_per_chunk = o.ntohs h.packets_per_chunk;
  fec_k = o.ntohs h.fec_k;
  fec_m = o.ntohs h.fec_m;
  parity_idx = o.ntohs h.parity_idx;
  payload_len = o.ntohs h.payload_len;
}

-- Each field fits its width.
pub record IsHeader (h : SdrPacketHeader) : Type 0 where
  pub magic_fits : h.magic < 2 ^ 16
  pub type_fits : h.type < 2 ^ 8
  pub reserved1_fits : h.reserved1 < 2 ^ 8
  pub transfer_id_fits : h.transfer_id < 2 ^ 32
  pub msg_id_fits : h.msg_id < 2 ^ 10
  pub packet_offset_fits : h.packet_offset < 2 ^ 18
  pub reserved2_fits : h.reserved2 < 2 ^ 4
  pub submsg_id_fits : h.submsg_id < 2 ^ 16
  pub chunk_seq_fits : h.chunk_seq < 2 ^ 32
  pub packets_per_chunk_fits : h.packets_per_chunk < 2 ^ 16
  pub fec_k_fits : h.fec_k < 2 ^ 16
  pub fec_m_fits : h.fec_m < 2 ^ 16
  pub parity_idx_fits : h.parity_idx < 2 ^ 16
  pub payload_len_fits : h.payload_len < 2 ^ 16
  pub flags_fits : h.flags < 2 ^ 8
  pub reserved3_fits : h.reserved3 < 2 ^ 24

-- The bytes of the struct in memory, as the compiler lays it out.
pub record Layout : Type 0 where
  pub bytes_of : SdrPacketHeader → List ℕ
  pub header_of : List ℕ → SdrPacketHeader
  pub length-bytes_of : (h : SdrPacketHeader) → length (bytes_of h) ≡ header_size
  pub header_of-bytes_of : (h : SdrPacketHeader) → IsHeader h → header_of (bytes_of h) ≡ h

pub record SdrPacket : Type 0 where
  pub header : SdrPacketHeader
  pub payload : List ℕ

pub get_total_size : SdrPacket → ℕ
get_total_size p = header_size + p.header.payload_len

-- The header after `memset`.
abbrev pub zero_header : SdrPacketHeader
zero_header = record {
  magic = 0;
  type = 0;
  reserved1 = 0;
  transfer_id = 0;
  msg_id = 0;
  packet_offset = 0;
  reserved2 = 0;
  submsg_id = 0;
  chunk_seq = 0;
  packets_per_chunk = 0;
  fec_k = 0;
  fec_m = 0;
  parity_idx = 0;
  payload_len = 0;
  flags = 0;
  reserved3 = 0;
}

-- `bytes` are those from the pointer to the end of its object: the outer `none` is a read past that
-- end, and the inner one the null pointer that the code returns. The message id is cut to its 10
-- bits, the packet offset to its 18.
unfoldable pub create_data_packet : ℕ → ℕ → ℕ → ℕ → List ℕ → ℕ → Option (Option SdrPacket)
unfolding type_code
create_data_packet transfer_id msg_id packet_offset packets_per_chunk bytes data_len =
    if ltb max_payload_size data_len
    then some none
    else if ltb (length bytes) data_len
    then none
    else some (
        some (record {
          header = record zero_header {
            magic = magic_value;
            type = type_code data_packet;
            transfer_id = transfer_id;
            msg_id = msg_id % 2 ^ 10;
            packet_offset = packet_offset % 2 ^ 18;
            packets_per_chunk = packets_per_chunk;
            payload_len = u16 data_len;
          };
          payload = take data_len bytes;
        }))

-- `packet->header.chunk_seq = packet->header.get_chunk_id()`, as each sender does.
unfoldable pub set_chunk_seq : SdrPacket → SdrPacket
set_chunk_seq p = record p { header = record (p.header) { chunk_seq = get_chunk_id p.header } }

-- The bytes that `sendto` is given: the header in network order, then the payload.
unfoldable pub datagram : ByteOrder → Layout → SdrPacket → List ℕ
datagram o l p = l.bytes_of (to_network_order o p.header) ++ p.payload
