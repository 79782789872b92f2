-- ===== src/Frontend.antt =====
-- sdr-udp/include/sdr_frontend.h: the bitmap with one bit for each chunk, which a polling thread
-- fills from the packet bitmap. The packet bitmap is an object shared with the receiver threads: each
-- operation takes it as it is at that time (`none` is the null pointer).
pub mod Poll
pub mod Stop
pub mod Tracking
mod Tests
use sdr_rdma_udp.Common.{
  ℕ, zero, suc, ◌+◌, ◌*◌, ◌/◌, ◌%◌, ◌^◌, ◌≤◌, ◌<◌, ◌≡◌, Bool, true, false, not, ◌&&◌, Option, none,
  some, List, [], ◌∷◌, bit_and, ltb, leb, ◌==◌, if◌then◌else◌, ◌>>=◌, length, replicate, u32,
}
use sdr_rdma_udp.Common.WordArray.{load, fetch_or, bit_at, AreWords}
use sdr_rdma_udp.Backend.{BackendBitmap}
use sdr_rdma_udp.Backend

-- `polling` is `poller_thread_.joinable()`.
pub record FrontendBitmap : Type 0 where
  pub chunk_bitmap : List ℕ
  pub num_words : ℕ
  pub total_chunks : ℕ
  pub packets_per_chunk : ℕ
  pub should_stop : Bool
  pub poll_interval_us : ℕ
  pub polling : Bool

pub per_chunk_of : Option BackendBitmap → ℕ
per_chunk_of none = 0
per_chunk_of (some b) = b.packets_per_chunk

pub new : Option BackendBitmap → ℕ → FrontendBitmap
new backend_bitmap total_chunks =
    let num_words = u32 (total_chunks + 63) / 64 in
    record {
      chunk_bitmap = replicate num_words 0;
      num_words = num_words;
      total_chunks = total_chunks;
      packets_per_chunk = per_chunk_of backend_bitmap;
      should_stop = false;
      poll_interval_us = 100;
      polling = false;
    }

pub start_polling : FrontendBitmap → ℕ → Bool × FrontendBitmap
start_polling f poll_interval_us = if f.polling then (false, f) else (
  true,
  record f { poll_interval_us = poll_interval_us; should_stop = false; polling = true },
)

pub stop_polling : FrontendBitmap → FrontendBitmap
stop_polling f = if not f.polling then f else record f { should_stop = true; polling = false }

unfoldable pub is_chunk_complete : FrontendBitmap → ℕ → Option Bool
is_chunk_complete f chunk_id =
    if leb f.total_chunks chunk_id
    then some false
    else (load f.chunk_bitmap (chunk_id / 64) >>= λ value.
        some (not (bit_and value (2 ^ (chunk_id % 64)) == 0)))

-- `n` rounds of the counting loop, from chunk `i` on.
unfoldable pub count_completed : FrontendBitmap → ℕ → ℕ → ℕ → Option ℕ
count_completed f zero i count = some count
count_completed f (suc n) i count = is_chunk_complete f i >>= λ complete.
    count_completed f n (i + 1) (if complete then count + 1 else count)

unfoldable pub get_total_chunks_completed : FrontendBitmap → Option ℕ
get_total_chunks_completed f = count_completed f f.total_chunks 0 0

-- Mark one chunk, if the packet bitmap shows it complete; whether it is now marked by this call or
-- was before.
pub check_and_set_chunk : BackendBitmap → FrontendBitmap → ℕ → Option (Bool × FrontendBitmap)
check_and_set_chunk b f chunk_id = is_chunk_complete f chunk_id >>= λ marked.
    if marked
    then some (true, f)
    else (Backend.is_chunk_complete b chunk_id >>= λ complete.
        if not complete
        then some (false, f)
        else (fetch_or f.chunk_bitmap (chunk_id / 64) (2 ^ (chunk_id % 64)) >>= λ r.
            some (bit_and r.0 (2 ^ (chunk_id % 64)) == 0, record f { chunk_bitmap = r.1 })))

-- `n` rounds of the loop of `update_chunk_bitmap`, from chunk `chunk_id` on.
pub update_chunks : BackendBitmap → ℕ → ℕ → FrontendBitmap → Option FrontendBitmap
update_chunks b zero chunk_id f = some f
update_chunks b (suc n) chunk_id f =
    check_and_set_chunk b f chunk_id >>= λ r. update_chunks b n (chunk_id + 1) r.1

pub update_chunk_bitmap : Option BackendBitmap → FrontendBitmap → Option FrontendBitmap
update_chunk_bitmap none f = some f
update_chunk_bitmap (some b) f = update_chunks b f.total_chunks 0 f

pub poll_once : Option BackendBitmap → FrontendBitmap → Option FrontendBitmap
poll_once = update_chunk_bitmap

-- The polling thread. Each entry is one round of its loop: the stop flag that the round's test
-- reads, and the packet bitmap that the round sees. The list ends where the history ends.
pub polling_thread_func :
    List (Bool × Option BackendBitmap) → FrontendBitmap → Option FrontendBitmap
polling_thread_func [] f = some f
polling_thread_func ((stop, b) ∷ rounds) f =
    let go_on = update_chunk_bitmap b f >>= polling_thread_func rounds in
    if stop then some f else go_on

pub record IsValid (f : FrontendBitmap) : Type 0 where
  pub words : AreWords f.chunk_bitmap
  pub covers : f.total_chunks ≤ 64 * length f.chunk_bitmap
  pub sized : length f.chunk_bitmap ≡ f.num_words

-- What the bitmap stands for: the set of chunks that are marked complete.
unfoldable pub completed : FrontendBitmap → ℕ → Bool
completed f c = ltb c f.total_chunks && bit_at f.chunk_bitmap c

-- Each chunk of the one has a packet in the other.
pub record Fits (b : BackendBitmap) (f : FrontendBitmap) : Type 0 where
  pub pos : 0 < b.packets_per_chunk
  pub has_packet : (c : ℕ) → c < f.total_chunks → c * b.packets_per_chunk < b.total_packets
