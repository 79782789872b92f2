-- ===== src/Backend/Tests.antt =====
-- The packet bitmap at concrete sizes, and the theorems about it at inputs that meet their hypotheses.
use sdr_rdma_udp.Common.{
  get_or, suc, ℕ, zero, ◌-◌, ◌^◌, ◌<◌, ◌≡◌, refl, true, false, ◌&&◌, ◌||◌, not, none, some, [], ◌∷◌,
  ltb, ◌==◌, all_from, arith,
}
use sdr_rdma_udp.Common.WordArray.{bit_at}
use sdr_rdma_udp.Common.Bits.Mask.{or_bits}
use sdr_rdma_udp.Backend.{
  BackendBitmap, new, set_packet_received, is_packet_received, is_chunk_complete, check_chunk_range,
  get_total_packets_received, IsValid, received, chunk_received, check_word, check_middle,
  chunk_range, count_received,
}
use sdr_rdma_udp.Backend.Laws.{set_packet_received_adds}
use sdr_rdma_udp.Backend.Chunk.{check_chunk_range_lem, is_chunk_complete_lem}

-- 200 packets, 100 to a chunk, all but the last received.
abbrev almost : BackendBitmap
almost = record {
  packet_bitmap = (2 ^ 64 - 1) ∷ (2 ^ 64 - 1) ∷ (2 ^ 64 - 1) ∷ 127 ∷ [];
  num_words = 4;
  total_packets = 200;
  packets_per_chunk = 100;
}

almost-IsValid : IsValid almost
almost-IsValid = record {
  words = below;
  covers = omega arith;
  sized = refl;
  small = omega arith;
  chunked = omega arith;
}
  where
    below : (k : ℕ) → get_or almost.packet_bitmap k 0 < 2 ^ 64
    below zero = omega arith
    below (suc zero) = omega arith
    below (suc (suc zero)) = omega arith
    below (suc (suc (suc zero))) = omega arith
    below (suc (suc (suc (suc k)))) = omega arith

chunks_almost : (is_chunk_complete almost 0 ≡ some true) × (is_chunk_complete almost 1 ≡ some false)
unfolding is_chunk_complete check_chunk_range chunk_range check_word check_middle or_bits
chunks_almost = (refl, refl)

-- A chunk past the last begins outside the array when the packets fill their words.
chunk_past_the_end : is_chunk_complete (new 64 64) 1 ≡ none
unfolding is_chunk_complete check_chunk_range chunk_range check_word check_middle new
chunk_past_the_end = refl

total_almost : get_total_packets_received almost ≡ some 199
unfolding get_total_packets_received count_received is_packet_received
total_almost = refl

check_chunk_range_lem_example :
    check_chunk_range almost 100 200 ≡ some (all_from (bit_at almost.packet_bitmap) 100 100)
check_chunk_range_lem_example =
    check_chunk_range_lem almost-IsValid 100 200 (omega arith) (omega arith)

is_chunk_complete_lem_example : is_chunk_complete almost 1 ≡ some (chunk_received almost 1)
is_chunk_complete_lem_example = is_chunk_complete_lem almost-IsValid 1 (omega arith) (omega arith)

set_packet_received_adds_example :
    (b' : BackendBitmap) × (set_packet_received almost 199
      ≡ some (ltb 199 200 && not (received almost 199), b'))
    × IsValid b'
    × ((j : ℕ) → received b' j ≡ ((ltb 199 200 && (199 == j)) || received almost j))
    × ((j : ℕ) → is_packet_received b' j ≡ some (received b' j))
set_packet_received_adds_example = set_packet_received_adds 199 almost-IsValid
