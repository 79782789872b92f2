-- ===== src/Backend.antt =====
-- sdr-udp/include/sdr_backend.h: the bitmap with one bit for each packet of a message, set by the
-- UDP receiver threads. Each atomic operation is one step; the memory orders are not modelled.
-- `none` is an access outside `packet_bitmap_`, which the source does not check.
pub mod Range
pub mod Chunk
pub mod Laws
pub mod Count
mod Tests
use sdr_rdma_udp.Common.{
  ℕ, zero, suc, ◌+◌, ◌-◌, ◌*◌, ◌/◌, ◌%◌, ◌^◌, ◌≤◌, ◌<◌, ◌≡◌, Bool, true, false, not, ◌&&◌, ◌||◌,
  Option, none, some, List, bit_and, ltb, leb, ◌==◌, if◌then◌else◌, ◌>>=◌, length, replicate, u32,
  uint64_max, all_from,
}
use sdr_rdma_udp.Common.Bits.Mask.{or_bits}
use sdr_rdma_udp.Common.WordArray.{load, fetch_or, bit_at, AreWords}

pub record BackendBitmap : Type 0 where
  pub packet_bitmap : List ℕ
  pub num_words : ℕ
  pub total_packets : ℕ
  pub packets_per_chunk : ℕ

-- The constructor. `total_packets + 63` is a 32-bit sum.
pub new : ℕ → ℕ → BackendBitmap
new total_packets packets_per_chunk =
    let num_words = u32 (total_packets + 63) / 64 in
    record {
      packet_bitmap = replicate num_words 0;
      num_words = num_words;
      total_packets = total_packets;
      packets_per_chunk = packets_per_chunk;
    }

-- The word and the bit of a packet.
abbrev pub get_bit_position : ℕ → ℕ × ℕ
get_bit_position packet_offset = (packet_offset / 64, packet_offset % 64)

-- Whether the bit was newly set, and the bitmap after it.
unfoldable pub set_packet_received : BackendBitmap → ℕ → Option (Bool × BackendBitmap)
set_packet_received b packet_offset =
    if leb b.total_packets packet_offset
    then some (false, b)
    else let (word_idx, bit_pos) = get_bit_position packet_offset in
      fetch_or b.packet_bitmap word_idx (2 ^ bit_pos) >>= λ r.
      some (bit_and r.0 (2 ^ bit_pos) == 0, record b { packet_bitmap = r.1 })

pub is_packet_received : BackendBitmap → ℕ → Option Bool
is_packet_received b packet_offset =
    if leb b.total_packets packet_offset
    then some false
    else let (word_idx, bit_pos) = get_bit_position packet_offset in
      load b.packet_bitmap word_idx >>= λ value. some (not (bit_and value (2 ^ bit_pos) == 0))

-- `(value & mask) == mask` at one word, for the mask of the bits from `lo` below `hi`.
pub check_word : List ℕ → ℕ → ℕ → ℕ → Option Bool
check_word words word lo hi =
    let mask = or_bits (hi - lo) lo 0 in
    load words word >>= λ value. some (bit_and value mask == mask)

-- The loop over the middle words, `n` of them from `word` on.
pub check_middle : List ℕ → ℕ → ℕ → Option Bool
check_middle words zero word = some true
check_middle words (suc n) word = load words word >>= λ value.
    if value == uint64_max then check_middle words n (word + 1) else some false

-- `chunk_end_packet - 1` is a 32-bit difference.
pub check_chunk_range : BackendBitmap → ℕ → ℕ → Option Bool
check_chunk_range b chunk_start_packet chunk_end_packet =
    let (start_word, start_bit) = get_bit_position chunk_start_packet in
    let (end_word, last_bit) = get_bit_position (u32 (chunk_end_packet + (2 ^ 32 - 1))) in
    let end_bit = last_bit + 1 in
    if start_word == end_word
    then check_word b.packet_bitmap start_word start_bit end_bit
    else (check_word b.packet_bitmap start_word start_bit 64 >>= λ first.
        if first
        then (check_middle b.packet_bitmap (end_word - (start_word + 1)) (start_word + 1)
            >>= λ middle.
                if middle then check_word b.packet_bitmap end_word 0 end_bit else some false)
        else some false)

-- The packets of a chunk, from the first below the second, cut off at the last packet.
pub chunk_range : BackendBitmap → ℕ → ℕ × ℕ
chunk_range b chunk_id =
    let chunk_start_packet = u32 (chunk_id * b.packets_per_chunk) in
    let chunk_end_packet = u32 (chunk_start_packet + b.packets_per_chunk) in
    (
      chunk_start_packet,
      if ltb b.total_packets chunk_end_packet then b.total_packets else chunk_end_packet,
    )

pub is_chunk_complete : BackendBitmap → ℕ → Option Bool
is_chunk_complete b chunk_id =
    let range = chunk_range b chunk_id in check_chunk_range b range.0 range.1

-- `for (i = s; i < s + n; ++i) if (is_packet_received(i)) count++;`
pub count_received : BackendBitmap → ℕ → ℕ → ℕ → Option ℕ
count_received b zero i count = some count
count_received b (suc n) i count = is_packet_received b i >>= λ received.
    count_received b n (i + 1) (if received then count + 1 else count)

pub get_chunk_packet_count : BackendBitmap → ℕ → Option ℕ
get_chunk_packet_count b chunk_id =
    let range = chunk_range b chunk_id in count_received b (range.1 - range.0) range.0 0

pub get_total_packets_received : BackendBitmap → Option ℕ
get_total_packets_received b = count_received b b.total_packets 0 0

-- The representation: whole words, enough of them, and numbers that do not wrap.
pub record IsValid (b : BackendBitmap) : Type 0 where
  pub words : AreWords b.packet_bitmap
  pub covers : b.total_packets ≤ 64 * length b.packet_bitmap
  pub sized : length b.packet_bitmap ≡ b.num_words
  pub small : b.total_packets + 2 ^ 16 ≤ 2 ^ 32
  pub chunked : b.packets_per_chunk < 2 ^ 16

-- What a bitmap stands for: the set of packets that have been received.
unfoldable pub received : BackendBitmap → ℕ → Bool
received b i = ltb i b.total_packets && bit_at b.packet_bitmap i

-- Chunk `c` by definition: each of its packets below the total has been received.
unfoldable pub chunk_received : BackendBitmap → ℕ → Bool
unfolding received
chunk_received b c =
    let first = c * b.packets_per_chunk in
    all_from (λ i. leb b.total_packets i || received b i) b.packets_per_chunk first
