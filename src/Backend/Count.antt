-- ===== src/Backend/Count.antt =====
-- The counting loops of the packet bitmap.
use sdr_rdma_udp.Common.{
  ℕ, zero, suc, ◌+◌, ◌-◌, ◌*◌, ◌≤◌, ◌<◌, ◌≡◌, ◌↔◌, ap, ◌∙◌, Bool, true, false, some, if◌then◌else◌,
  count_from, count_from-eq_all, all_from, arith, min, ltb,
}
use sdr_rdma_udp.Backend.{
  BackendBitmap, count_received, get_total_packets_received, get_chunk_packet_count, IsValid,
  received,
}
use sdr_rdma_udp.Backend.Laws.{is_packet_received_lem}
use sdr_rdma_udp.Backend.Chunk.{chunk_first, chunk_stop, chunk_range_lem}

module _ {b : BackendBitmap} (v : IsValid b) where
  pub count_received_lem :
      (n i count : ℕ) → count_received b n i count ≡ some (count + count_from (received b) n i)
  unfolding count_received
  count_received_lem zero i count = ap some (omega arith)
  count_received_lem (suc n) i count =
      rw
        (
          is_packet_received_lem i v,
          count_received_lem n (i + 1) (if received b i then count + 1 else count),
        )
        (ap some (tally (received b i)))
    where
      tally :
          (x : Bool)
          → (if x then count + 1 else count) + count_from (received b) n (i + 1)
            ≡ count + ((if x then 1 else 0) + count_from (received b) n (i + 1))
      tally true = omega arith
      tally false = omega arith

  -- The total is the number of received packets.
  pub get_total_packets_received_lem :
      get_total_packets_received b ≡ some (count_from (received b) b.total_packets 0)
  unfolding get_total_packets_received
  get_total_packets_received_lem = count_received_lem b.total_packets 0 0 ∙ ap some (omega arith)

  -- For a well-formed bitmap, the number that the count returns reaches the number of packets
  -- exactly when every packet has been received.
  get_total_packets_received_full :
      (n : ℕ)
      → get_total_packets_received b ≡ some n
      → (b.total_packets ≤ n) ↔ (all_from (received b) b.total_packets 0 ≡ true)
  get_total_packets_received_full n h =
      let e : n ≡ count_from (received b) b.total_packets 0 =
        ground (arith, h, get_total_packets_received_lem) in
      rw e (count_from-eq_all (received b) b.total_packets 0)

  -- For a well-formed bitmap and a chunk that has a packet, the count of the chunk is the number of
  -- its packets, below the last, that have been received.
  pub get_chunk_packet_count_lem :
      (c : ℕ)
      → c * b.packets_per_chunk < b.total_packets
      → get_chunk_packet_count b c
        ≡ some (
            count_from
              (received b)
              (min b.packets_per_chunk (b.total_packets - c * b.packets_per_chunk))
              (c * b.packets_per_chunk))
  unfolding get_chunk_packet_count
  get_chunk_packet_count_lem c exists =
      rw
        (
          chunk_range_lem v c exists,
          count_received_lem (chunk_stop v c exists - chunk_first v c exists)
              (chunk_first v c exists) 0,
        )
        (ap some
          (ap (λ k. 0 + count_from (received b) k (c * b.packets_per_chunk)) cut ∙ omega arith))
    where
      cut :
          (if ltb b.total_packets (c * b.packets_per_chunk + b.packets_per_chunk)
              then b.total_packets
              else c * b.packets_per_chunk + b.packets_per_chunk)
            - c * b.packets_per_chunk
          ≡ min b.packets_per_chunk (b.total_packets - c * b.packets_per_chunk)
      cut = ground arith
