-- ===== src/Examples/Tests.antt =====
-- The example programs at concrete inputs, and the theorems about them there.
use mathlib.Core.List.{Memᴰ}
use mathlib.Core.List.Memᴰ
use sdr_rdma_udp.Common.{
  ℕ, zero, suc, ◌<◌, ◌^◌, ◌≡◌, ◌⊎◌, refl, true, false, none, some, List, [], ◌∷◌, get_or, length,
  arith,
}
use sdr_rdma_udp.Common.WordArray.{bit_at}
use sdr_rdma_udp.Control.{zero_params, ConnectionParams}
use sdr_rdma_udp.Connection.{MessageContext, empty_context}
use sdr_rdma_udp.Backend.{BackendBitmap, received, chunk_received}
use sdr_rdma_udp.Backend
use sdr_rdma_udp.Frontend.{
  FrontendBitmap, Fits, completed, get_total_chunks_completed, count_completed, is_chunk_complete,
}
use sdr_rdma_udp.Frontend
use sdr_rdma_udp.Frontend.Tracking.{Bitmaps}
use sdr_rdma_udp.Config.{Text}
use sdr_rdma_udp.Ec.{EcConfig, EcReceiver, sizes, post_receive, Sizes}
use sdr_rdma_udp.Ec.Sender.{padded_storage}
use sdr_rdma_udp.Examples.Keys.{mode_flag}
use sdr_rdma_udp.Examples.Args.{
  stoi, sender_args, receiver_args, take_mode, sender_rest, size_and_file, usage, aborted, parsed,
  sdr, ec, default_size,
}
use sdr_rdma_udp.Examples.Args.Lines.{IsNumber, text_of, mode_word, args_read_back}
use sdr_rdma_udp.Examples.Verify.{verify, verify_from, IsVerdict, verify-IsVerdict}
use sdr_rdma_udp.Examples.Receiver.{ec_total_length}
use sdr_rdma_udp.Examples.Coded.{coded_buffer_fits}
use sdr_rdma_udp.Examples.Progress.Turns.{displays, lines_in_all, IsShowing, each_shown_once}
use sdr_rdma_udp.Examples.Progress.{Display, Row, display_progress}
use sdr_rdma_udp.Examples.Progress.Tracked.{IsTracked}
use sdr_rdma_udp.Examples.Receive.{Loop, Seen, start_loop, receive_loop, all_here}
use sdr_rdma_udp.Examples.Receive.Ends.{IsComplete, receive_ends}

stoi_values :
    (stoi (b'9' ∷ b'9' ∷ b'a' ∷ []) ≡ some 99)
    × (stoi (b'-' ∷ b'1' ∷ []) ≡ some 0xFFFFFFFF)
    × (stoi (b'x' ∷ []) ≡ none)
unfolding stoi
stoi_values = (refl, refl, refl)

abbrev host : Text
host = b'h' ∷ []

-- With three arguments there is no size and no file; a port that is no number is an exception.
sender_lines :
    (sender_args (host ∷ (b'7' ∷ []) ∷ (b'8' ∷ []) ∷ [])
      ≡ parsed (record {
        mode = sdr;
        server_ip = host;
        tcp_port = 7;
        udp_port = 8;
        has_size = false;
        message_size = default_size;
        config_file = [];
      }))
    × (sender_args (host ∷ host ∷ (b'8' ∷ []) ∷ []) ≡ aborted)
    × (sender_args (mode_flag ∷ []) ≡ usage)
unfolding sender_args take_mode sender_rest size_and_file stoi
sender_lines = (refl, refl, refl)

abbrev port : IsNumber (2 ^ 16)
port = record { first = 9; others = 0 ∷ 1 ∷ []; are_decimal = refl; is_below = omega arith }

abbrev size : IsNumber (2 ^ 64)
size = record { first = 6; others = 4 ∷ []; are_decimal = refl; is_below = omega arith }

args_read_back_example :
    (sender_args
        (mode_flag ∷ mode_word ec ∷ host ∷ text_of port ∷ text_of port ∷ text_of size ∷ host ∷ [])
      ≡ parsed (record {
        mode = ec;
        server_ip = host;
        tcp_port = 901;
        udp_port = 901;
        has_size = true;
        message_size = 64;
        config_file = host;
      }))
    × (receiver_args
          (mode_flag ∷ mode_word ec ∷ text_of port ∷ text_of port ∷ text_of size ∷ host ∷ [])
        ≡ parsed (record {
          mode = ec;
          tcp_port = 901;
          udp_port = 901;
          message_size = 64;
          config_file = host;
        }))
args_read_back_example = args_read_back ec port port size host host

-- The third byte is wrong.
verify_wrong : verify (0 ∷ 1 ∷ 9 ∷ 3 ∷ []) 4 ≡ some (false, 2)
unfolding verify verify_from
verify_wrong = refl

verify-IsVerdict_example : IsVerdict (0 ∷ 1 ∷ 9 ∷ 3 ∷ []) 4 (verify (0 ∷ 1 ∷ 9 ∷ 3 ∷ []) 4)
verify-IsVerdict_example = verify-IsVerdict (0 ∷ 1 ∷ 9 ∷ 3 ∷ []) 4 (omega arith)

abbrev params : ConnectionParams
params = record zero_params { mtu_bytes = 2; packets_per_chunk = 2 }

abbrev config : EcConfig
config = record {
  k_data = 2;
  m_parity = 1;
  fallback_timeout_ms = 0;
  data_bytes = 5;
  max_retries = 3;
}

abbrev none_yet : Sizes
none_yet = record {
  chunk_bytes = 0;
  data_bytes = 0;
  k = 0;
  m = 0;
  data_chunks = 0;
  stripes = 0;
  parity_chunks = 0;
}

abbrev coded : EcReceiver
coded = record {
  cfg = config;
  stats = record { parity_sent = 0; decode_success = 0; fallback_sr = 0 };
  sizes_of = none_yet;
  decode_attempts = 0;
  fallback_active = false;
}

-- Without parity the buffer is too small for the two parity chunks that the receiver takes then, and
-- without data chunks to a stripe `main` divides by zero.
coded_refused :
    (ec_total_length (record config { m_parity = 0 }) params 5 ≡ some 8)
    × ((post_receive
          (record coded { cfg = record config { m_parity = 0 } })
          params
          8
          (some empty_context)).0
        ≡ false)
    × (ec_total_length (record config { k_data = 0 }) params 5 ≡ none)
unfolding ec_total_length post_receive sizes
coded_refused = (refl, refl, refl)

coded_buffer_fits_example :
    (n : ℕ) × (storage : List ℕ) × (ec_total_length config params 5 ≡ some n)
    × ((post_receive coded params n (some empty_context)).0 ≡ true)
    × (padded_storage (sizes config params 5) (1 ∷ 2 ∷ 3 ∷ 4 ∷ 5 ∷ []) ≡ some storage)
    × (length storage ≡ n)
coded_buffer_fits_example =
    coded_buffer_fits coded params empty_context (1 ∷ 2 ∷ 3 ∷ 4 ∷ 5 ∷ [])
      (record {
        mtu = omega arith;
        per_chunk = omega arith;
        per_chunk_16 = omega arith;
        k = omega arith;
        m = omega arith;
        bytes = omega arith;
      })
      refl

-- Three packets, two to a chunk; the second chunk has come and is marked.
abbrev packets : BackendBitmap
packets = record { packet_bitmap = 4 ∷ []; num_words = 1; total_packets = 3; packets_per_chunk = 2 }

abbrev chunks : FrontendBitmap
chunks = record {
  chunk_bitmap = 2 ∷ [];
  num_words = 1;
  total_chunks = 2;
  packets_per_chunk = 2;
  should_stop = false;
  poll_interval_us = 100;
  polling = true;
}

abbrev context : MessageContext
context = record empty_context {
  total_chunks = 2;
  packets_per_chunk = 2;
  backend_bitmap = some packets;
  frontend_bitmap = some chunks;
}

packets-IsValid : Backend.IsValid packets
packets-IsValid = record {
  words = λ k. below k;
  covers = omega arith;
  sized = refl;
  small = omega arith;
  chunked = omega arith;
}
  where
    below : (k : ℕ) → get_or packets.packet_bitmap k 0 < 2 ^ 64
    below zero = omega arith
    below (suc k) = omega arith

chunks-IsValid : Frontend.IsValid chunks
chunks-IsValid = record { words = λ k. below k; covers = omega arith; sized = refl }
  where
    below : (k : ℕ) → get_or chunks.chunk_bitmap k 0 < 2 ^ 64
    below zero = omega arith
    below (suc k) = omega arith

abbrev both : Bitmaps
both = record { packets = packets; chunks = chunks }

marked_is_whole : (c : ℕ) → completed chunks c ≡ true → chunk_received packets c ≡ true
unfolding completed bit_at chunk_received received
marked_is_whole zero h = cc h
marked_is_whole (suc zero) h = refl
marked_is_whole (suc (suc c)) h = ground arith

context-IsTracked : IsTracked context
context-IsTracked = record {
  bitmaps = both;
  has_backend = refl;
  has_frontend = refl;
  sound = record {
    packets_valid = packets-IsValid;
    chunks_valid = chunks-IsValid;
    fits = record { pos = omega arith; has_packet = λ c h. omega arith };
    sound = marked_is_whole;
  };
  counted = refl;
  covered = omega arith;
}

abbrev glance : Seen
glance = record { context = context; progress_at = 5; now = 5; done = false }

-- That glance again and again.
history : ℕ → List Seen
history zero = []
history (suc n) = glance ∷ history n

length-history : (n : ℕ) → length (history n) ≡ n
unfolding history
length-history zero = refl
length-history (suc n) = omega (arith, length-history n)

history-IsTracked : (n : ℕ) (x : Seen) → Memᴰ x (history n) → IsTracked x.context
unfolding history
history-IsTracked zero x i = absurd (Memᴰ.not-nil i)
history-IsTracked (suc n) x (Memᴰ.head e) = rw e context-IsTracked
history-IsTracked (suc n) x (Memᴰ.tail i) = history-IsTracked n x i

receive_ends_example :
    (s t : Loop) × (start_loop context 15 5 ≡ some s)
    × (receive_loop sdr (history 1000000) s ≡ some (true, t))
    × ((all_here t ≡ false) ⊎ IsComplete sdr (history 1000000) t)
receive_ends_example =
    receive_ends sdr context 15 5 (history 1000000) (omega arith) (omega arith)
      (history-IsTracked 1000000) (omega (arith, length-history 1000000))

-- A round of the plain mode over that context counts one chunk of two and goes on; without a window it
-- divides by zero.
abbrev at_start : ℕ → Loop
at_start window_size = record {
  iterations = 0;
  chunks_received = 0;
  total_chunks = 2;
  last_chunks_received = 0;
  last_progress_time = 0;
  display_update_counter = 0;
  display = record { window_size = window_size; window_index = 0; prev_display_lines = 0 };
  ec_decoded_success = false;
  transfer_incomplete = false;
}

no_window : receive_loop sdr (glance ∷ []) (at_start 0) ≡ none
unfolding receive_loop display_progress get_total_chunks_completed count_completed is_chunk_complete
no_window = refl

-- After 30 seconds without progress the loop gives up, and marks the transfer as incomplete.
late_glance : Loop
unfolding receive_loop display_progress get_total_chunks_completed count_completed is_chunk_complete
late_glance =
    elim (receive_loop sdr (record glance { now = 40000 } ∷ [])
      (record (at_start 15) { last_chunks_received = 1 })) [ none ↦ at_start 0 | some r ↦ r.1 ]

late_is_incomplete : (late_glance.transfer_incomplete ≡ true) × (late_glance.chunks_received ≡ 1)
unfolding late_glance
late_is_incomplete = (refl, refl)

-- Two calls over that context, with windows of one chunk, from the fourth window on.
abbrev one_by_one : Display
one_by_one = record { window_size = 1; window_index = 3; prev_display_lines = 0 }

context-IsShowing : (m : MessageContext) → Memᴰ m (context ∷ context ∷ []) → IsShowing 2 m
context-IsShowing m (Memᴰ.head e) =
    rw e (record { tracked = context-IsTracked; counts = refl; in_packets = omega arith })
context-IsShowing m (Memᴰ.tail (Memᴰ.head e)) =
    rw e (record { tracked = context-IsTracked; counts = refl; in_packets = omega arith })
context-IsShowing m (Memᴰ.tail (Memᴰ.tail i)) = absurd (Memᴰ.not-nil i)

each_shown_once_example :
    (shown : List (List Row)) × (displays (context ∷ context ∷ []) 2 one_by_one ≡ some shown)
    × (lines_in_all 1 shown ≡ 1)
each_shown_once_example =
    each_shown_once 2 (context ∷ context ∷ []) one_by_one 1 (omega arith) (omega arith)
      (omega arith) (omega arith) context-IsShowing refl (omega arith)
