-- ===== src/Sr/Acks.antt =====
-- sdr-udp/reliability/sr.cpp, SRSender::poll: what the sender takes as acknowledged from a report.
use sdr_rdma_udp.Common.{
  ℕ, zero, suc, ◌+◌, ◌*◌, ◌^◌, Bool, true, List, bit_and, min, ltb, leb, ◌==◌, if◌then◌else◌,
  get_or, set, u32, uint32_max,
}
use sdr_rdma_udp.Control.{ControlMessage}

-- The inner loop of `apply_bitmap`: `n` rounds from bit `bit` of word `w` on, left at the last chunk.
unfoldable pub apply_word : ℕ → ℕ → ℕ → ℕ → ℕ → List Bool → List Bool
apply_word max_chunks word w zero bit acked = acked
apply_word max_chunks word w (suc n) bit acked =
    let chunk_id = w * 64 + bit in
    let rest =
      apply_word max_chunks word w n (bit + 1)
        (if bit_and word (2 ^ bit) == 0 then acked else set acked chunk_id true) in
    if leb max_chunks chunk_id then acked else rest

-- The outer loop: `n` rounds from word `w` on.
unfoldable pub apply_words : ℕ → List ℕ → ℕ → ℕ → List Bool → List Bool
apply_words max_chunks chunk_bitmap zero w acked = acked
apply_words max_chunks chunk_bitmap (suc n) w acked =
    apply_words max_chunks chunk_bitmap n (w + 1)
      (apply_word max_chunks (get_or chunk_bitmap w 0) w 64 0 acked)

unfoldable pub apply_bitmap : ControlMessage → ℕ → List Bool → List Bool
apply_bitmap msg total_chunks acked =
    apply_words total_chunks msg.chunk_bitmap (min msg.chunk_bitmap_words 8) 0 acked

-- `n` rounds of `chunk_acked_[c] = true`, from `c` on.
unfoldable pub ack_from : ℕ → ℕ → List Bool → List Bool
ack_from zero c acked = acked
ack_from (suc n) c acked = ack_from n (c + 1) (set acked c true)

unfoldable pub apply_cumulative : ℕ → ℕ → List Bool → List Bool
apply_cumulative cum_chunk total_chunks acked =
    if cum_chunk == uint32_max then acked else ack_from (min (cum_chunk + 1) total_chunks) 0 acked

-- `ack_base_` after a report.
abbrev pub advance_base : ℕ → ℕ → ℕ
advance_base cum_chunk ack_base =
    if cum_chunk == uint32_max
    then ack_base
    else if ltb ack_base (u32 (cum_chunk + 1))
    then u32 (cum_chunk + 1)
    else ack_base

-- `chunk_acked_` after a report.
unfoldable pub take_report : ControlMessage → ℕ → List Bool → List Bool
take_report msg total_chunks acked =
    apply_cumulative msg.params.max_inflight total_chunks (apply_bitmap msg total_chunks acked)
