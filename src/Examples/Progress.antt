-- ===== src/Examples/Progress.antt =====
-- sdr-udp/examples/sdr_test_receiver.cpp, `display_progress`: which chunks it shows and what it reads of them. The
-- bars and the percentages are floating-point numbers and are not modelled.
pub mod Tracked
pub mod Windows
pub mod Turns
use sdr_rdma_udp.Common.{
  ℕ, zero, suc, ◌+◌, ◌-◌, ◌*◌, ◌/◌, ◌%◌, ◌^◌, Bool, true, false, Option, none, some, List, [], ◌∷◌,
  ltb, ◌==◌, ◌||◌, if◌then◌else◌, ◌>>=◌, min, u64,
}
use sdr_rdma_udp.Backend.{BackendBitmap, get_chunk_packet_count}
use sdr_rdma_udp.Backend
use sdr_rdma_udp.Connection.{MessageContext}

-- `window_size`, `window_index` and `prev_display_lines`.
pub record Display : Type 0 where
  pub window_size : ℕ
  pub window_index : ℕ
  pub prev_display_lines : ℕ

-- `num_windows`; `window_size` is not zero.
abbrev pub num_windows : ℕ → ℕ → ℕ
num_windows total_chunks window_size = u64 (total_chunks + window_size + (2 ^ 64 - 1)) / window_size

-- `start_chunk` and `end_chunk`
unfoldable pub window : ℕ → ℕ → ℕ → ℕ × ℕ
window total_chunks window_size window_index =
    let n = num_windows total_chunks window_size in
    let start_chunk = if ltb 0 n then u64 ((window_index % n) * window_size) else 0 in
    (start_chunk, min (u64 (start_chunk + window_size)) total_chunks)

-- A line for a chunk: its number, how many of its packets have come, and whether it is complete.
abbrev pub Row : Type 0
Row = ℕ × ℕ × Bool

-- `n` rounds of the loop over the chunks of the window, from `chunk_id` on.
unfoldable pub rows_from : BackendBitmap → ℕ → ℕ → ℕ → Option (List Row)
rows_from b packets_per_chunk zero chunk_id = some []
rows_from b packets_per_chunk (suc n) chunk_id = get_chunk_packet_count b chunk_id >>= λ received.
    Backend.is_chunk_complete b chunk_id >>= λ complete.
    rows_from b packets_per_chunk n (chunk_id + 1) >>= λ rest.
    some ((chunk_id, if complete then packets_per_chunk else received, complete) ∷ rest)

-- The display after a window was shown.
abbrev pub moved_on : ℕ → ℕ → Display → Display
moved_on start_chunk end_chunk d = record d {
  window_index = u64 (d.window_index + 1);
  prev_display_lines = u64 (1 + 1 + (end_chunk + (2 ^ 64 - start_chunk)));
}

-- The part below the bar of the message; `none` is a division by zero or a read outside the bitmap.
unfoldable pub show_window : BackendBitmap → ℕ → ℕ → Display → Option (List Row × Display)
unfolding window rows_from
show_window b packets_per_chunk total_chunks d =
    let (start_chunk, end_chunk) = window total_chunks d.window_size d.window_index in
    let shown = rows_from b packets_per_chunk (end_chunk - start_chunk) start_chunk >>= λ rows.
    some (rows, moved_on start_chunk end_chunk d) in
    if d.window_size == 0 then none else shown

unfoldable pub show_context : Option BackendBitmap → ℕ → ℕ → Display → Option (List Row × Display)
unfolding show_window
show_context none packets_per_chunk total_chunks d = some ([], d)
show_context (some b) packets_per_chunk total_chunks d =
    let shown = show_window b packets_per_chunk total_chunks d in
    if total_chunks == 0
    then some ([], d)
    else if packets_per_chunk == 0
    then some ([], record d { prev_display_lines = 1 })
    else shown

unfoldable pub display_progress : MessageContext → ℕ → Display → Option (List Row × Display)
unfolding show_context
display_progress ctx total_chunks d =
    show_context ctx.backend_bitmap ctx.packets_per_chunk total_chunks d
