-- ===== src/Packet/LittleEndian.antt =====
-- A platform that meets what the code relies on: little-endian, with the bit fields packed from the low
-- end.
use sdr_rdma_udp.Common.{
  ℕ, ◌+◌, ◌*◌, ◌/◌, ◌%◌, ◌^◌, ◌<◌, ◌≡◌, refl, List, [], ◌∷◌, ◌++◌, length, get_or, arith,
}
use sdr_rdma_udp.Packet.{SdrPacketHeader, ByteOrder, Layout, IsHeader, header_size}

swap16 : ℕ → ℕ
swap16 x = x % 256 * 256 + x / 256

swap32 : ℕ → ℕ
swap32 x = x % 256 * 16777216 + x / 256 % 256 * 65536 + x / 65536 % 256 * 256 + x / 16777216

swap16-lt : (x : ℕ) → x < 2 ^ 16 → swap16 x < 2 ^ 16
unfolding swap16
swap16-lt x h = omega arith

swap32-lt : (x : ℕ) → x < 2 ^ 32 → swap32 x < 2 ^ 32
unfolding swap32
swap32-lt x h = omega arith

swap16_twice : (x : ℕ) → x < 2 ^ 16 → swap16 (swap16 x) ≡ x
unfolding swap16
swap16_twice x h = omega arith

swap32_twice : (x : ℕ) → x < 2 ^ 32 → swap32 (swap32 x) ≡ x
unfolding swap32
swap32_twice x h = omega arith

pub swapping : ByteOrder
unfolding swap16 swap32
swapping = record {
  htons = swap16;
  htonl = swap32;
  ntohs = swap16;
  ntohl = swap32;
  htons-lt = swap16-lt;
  htonl-lt = swap32-lt;
  ntohs-htons = swap16_twice;
  ntohl-htonl = swap32_twice;
}

bytes2 : ℕ → List ℕ
bytes2 x = x % 256 ∷ x / 256 ∷ []

bytes3 : ℕ → List ℕ
bytes3 x = x % 256 ∷ x / 256 % 256 ∷ x / 65536 ∷ []

bytes4 : ℕ → List ℕ
bytes4 x = x % 256 ∷ x / 256 % 256 ∷ x / 65536 % 256 ∷ x / 16777216 ∷ []

-- The word of the three bit fields.
fields_word : SdrPacketHeader → ℕ
fields_word h = h.msg_id + h.packet_offset * 2 ^ 10 + h.reserved2 * 2 ^ 28

struct_bytes : SdrPacketHeader → List ℕ
unfolding bytes2 bytes3 bytes4 fields_word
struct_bytes h =
    bytes2 h.magic
    ++ ((h.type ∷ h.reserved1 ∷ [])
        ++ (bytes4 h.transfer_id
            ++ (bytes4 (fields_word h)
                ++ (bytes2 h.submsg_id
                    ++ (bytes4 h.chunk_seq
                        ++ (bytes2 h.packets_per_chunk
                            ++ (bytes2 h.fec_k
                                ++ (bytes2 h.fec_m
                                    ++ (bytes2 h.parity_idx
                                        ++ (bytes2 h.payload_len
                                            ++ ((h.flags ∷ []) ++ bytes3 h.reserved3)))))))))))

word2 : List ℕ → ℕ → ℕ
word2 bytes i = get_or bytes i 0 + 256 * get_or bytes (i + 1) 0

word4 : List ℕ → ℕ → ℕ
unfolding word2
word4 bytes i = word2 bytes i + 65536 * word2 bytes (i + 2)

struct_of : List ℕ → SdrPacketHeader
unfolding word4
struct_of bytes = record {
  magic = word2 bytes 0;
  type = get_or bytes 2 0;
  reserved1 = get_or bytes 3 0;
  transfer_id = word4 bytes 4;
  msg_id = word4 bytes 8 % 2 ^ 10;
  packet_offset = word4 bytes 8 / 2 ^ 10 % 2 ^ 18;
  reserved2 = word4 bytes 8 / 2 ^ 28;
  submsg_id = word2 bytes 12;
  chunk_seq = word4 bytes 14;
  packets_per_chunk = word2 bytes 18;
  fec_k = word2 bytes 20;
  fec_m = word2 bytes 22;
  parity_idx = word2 bytes 24;
  payload_len = word2 bytes 26;
  flags = get_or bytes 28 0;
  reserved3 = word2 bytes 29 + 65536 * get_or bytes 31 0;
}

length-struct_bytes : (h : SdrPacketHeader) → length (struct_bytes h) ≡ header_size
unfolding struct_bytes
length-struct_bytes h = refl

struct_of-struct_bytes : (h : SdrPacketHeader) → IsHeader h → struct_of (struct_bytes h) ≡ h
unfolding struct_bytes struct_of
struct_of-struct_bytes h v = ground arith

pub packed : Layout
unfolding struct_bytes struct_of
packed = record {
  bytes_of = struct_bytes;
  header_of = struct_of;
  length-bytes_of = length-struct_bytes;
  header_of-bytes_of = struct_of-struct_bytes;
}
