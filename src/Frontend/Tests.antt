-- ===== src/Frontend/Tests.antt =====
-- The chunk bitmap at a concrete size, and the theorems about it there.
use sdr_rdma_udp.Common.{
  ℕ, zero, suc, ◌^◌, ◌<◌, ◌≡◌, refl, true, false, some, [], ◌∷◌, arith, get_or, all_from,
}
use sdr_rdma_udp.Backend.{BackendBitmap, received, set_packet_received}
use sdr_rdma_udp.Backend
use sdr_rdma_udp.Common.WordArray.{bit_at}
use sdr_rdma_udp.Frontend.{
  FrontendBitmap, poll_once, start_polling, stop_polling, get_total_chunks_completed, completed,
  Fits, polling_thread_func,
}
use sdr_rdma_udp.Frontend
use sdr_rdma_udp.Frontend.Poll.{IsPolled, poll_once-IsPolled}
use sdr_rdma_udp.Frontend.Tracking.{
  Bitmaps, Step, packet, here, next, IsSound, Reach-IsSound, poll_complete,
}

-- Three packets, two to a chunk, all received; no chunk polled yet.
abbrev full : BackendBitmap
full = record { packet_bitmap = 7 ∷ []; num_words = 1; total_packets = 3; packets_per_chunk = 2 }

abbrev unpolled : FrontendBitmap
unpolled = record {
  chunk_bitmap = 0 ∷ [];
  num_words = 1;
  total_chunks = 2;
  packets_per_chunk = 2;
  should_stop = false;
  poll_interval_us = 100;
  polling = true;
}

full-IsValid : Backend.IsValid full
full-IsValid = record {
  words = λ k. below k;
  covers = omega arith;
  sized = refl;
  small = omega arith;
  chunked = omega arith;
}
  where
    below : (k : ℕ) → get_or full.packet_bitmap k 0 < 2 ^ 64
    below zero = omega arith
    below (suc k) = omega arith

unpolled-IsValid : Frontend.IsValid unpolled
unpolled-IsValid = record { words = λ k. below k; covers = omega arith; sized = refl }
  where
    below : (k : ℕ) → get_or unpolled.chunk_bitmap k 0 < 2 ^ 64
    below zero = omega arith
    below (suc k) = omega arith

full-Fits : Fits full unpolled
full-Fits = record { pos = omega arith; has_packet = λ c h. omega arith }

abbrev both : Bitmaps
both = record { packets = full; chunks = unpolled }

unmarked : (c : ℕ) → completed unpolled c ≡ false
unfolding completed bit_at
unmarked zero = refl
unmarked (suc zero) = refl
unmarked (suc (suc c)) = ground arith

both-IsSound : IsSound both
both-IsSound = record {
  packets_valid = full-IsValid;
  chunks_valid = unpolled-IsValid;
  fits = full-Fits;
  sound = λ c h. cc (h, unmarked c);
}

all_received : all_from (received full) 3 0 ≡ true
unfolding received bit_at
all_received = refl

poll_once-IsPolled_example : IsPolled full unpolled 0 2 (poll_once (some full) unpolled)
poll_once-IsPolled_example = poll_once-IsPolled full-IsValid unpolled unpolled-IsValid full-Fits

Reach-IsSound_example : IsSound both
Reach-IsSound_example = Reach-IsSound both-IsSound (next here again)
  where
    again : Step both both
    again = packet 0 false full (unfold set_packet_received in refl) refl

poll_complete_example :
    (f : FrontendBitmap) × (poll_once (some full) unpolled ≡ some f)
    × (all_from (completed f) 2 0 ≡ true)
    × (get_total_chunks_completed f ≡ some 2)
poll_complete_example = poll_complete both-IsSound all_received

-- A poller that is started twice refuses, and one that is stopped runs no more rounds.
start_twice : (start_polling unpolled 50).0 ≡ false
unfolding start_polling
start_twice = refl

stopped_thread :
    polling_thread_func ((true, some full) ∷ []) (stop_polling unpolled)
    ≡ some (stop_polling unpolled)
unfolding polling_thread_func
stopped_thread = refl
