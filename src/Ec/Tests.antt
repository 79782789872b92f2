-- ===== src/Ec/Tests.antt =====
-- A message of five chunks, of which three are missing and two could be decoded.
use sdr_rdma_udp.Common.{
  ℕ, zero, suc, ◌^◌, ◌<◌, ◌≡◌, refl, true, false, some, none, [], ◌∷◌, arith, get_or, replicate,
}
use sdr_rdma_udp.Common.WordArray.{bit_at}
use sdr_rdma_udp.Control.{ControlMessage, sr_ack, zero_params}
use sdr_rdma_udp.Connection.{MessageContext, empty_context, active}
use sdr_rdma_udp.Frontend.{FrontendBitmap, completed, IsValid}
use sdr_rdma_udp.Receiver.Blocks.{Memory}
use sdr_rdma_udp.Ec.{EcConfig, Sizes, sizes, EcReceiver, try_decode, gaps_message}
use sdr_rdma_udp.Ec.Sender.{EcSender, on_request, apply_bitmap}
use sdr_rdma_udp.Ec.Resend.{missing_from, IsAsked, try_decode-on_request}

abbrev config : EcConfig
config = record {
  k_data = 4;
  m_parity = 2;
  fallback_timeout_ms = 0;
  data_bytes = 10;
  max_retries = 3;
}

abbrev five : Sizes
five = record {
  chunk_bytes = 2;
  data_bytes = 10;
  k = 4;
  m = 2;
  data_chunks = 5;
  stripes = 2;
  parity_chunks = 4;
}

sizes-five : sizes config (record zero_params { mtu_bytes = 2; packets_per_chunk = 1 }) 18 ≡ five
unfolding sizes
sizes-five = refl

abbrev bits : FrontendBitmap
bits = record {
  chunk_bitmap = 9 ∷ [];
  num_words = 1;
  total_chunks = 9;
  packets_per_chunk = 1;
  should_stop = false;
  poll_interval_us = 100;
  polling = true;
}

bits-IsValid : IsValid bits
bits-IsValid = record { words = λ k. below k; covers = omega arith; sized = refl }
  where
    below : (k : ℕ) → get_or bits.chunk_bitmap k 0 < 2 ^ 64
    below zero = omega arith
    below (suc k) = omega arith

abbrev slot : MessageContext
slot = record empty_context { state = active; total_chunks = 9; frontend_bitmap = some bits }

abbrev coded : EcReceiver
coded = record {
  cfg = config;
  stats = record { parity_sent = 0; decode_success = 0; fallback_sr = 0 };
  sizes_of = five;
  decode_attempts = 0;
  fallback_active = false;
}

abbrev coding : EcSender
coding = record {
  cfg = config;
  params = record zero_params { mtu_bytes = 2; packets_per_chunk = 1 };
  handle = record { msg_id = 0; generation = 1; buffer_size = 18; packets_sent = 9 };
  storage = replicate 18 7;
  acked = replicate 5 false;
  resent = [];
}

abbrev memory : Memory
memory = record { buffers = λ _. replicate 18 7; sink = 0 ∷ [] }

three_missing : missing_from bits 5 0 ≡ 1 ∷ 2 ∷ 4 ∷ []
unfolding completed bit_at
three_missing = refl

try_decode-on_request_example :
    IsAsked (missing_from bits 5 0) coding (try_decode none coded slot memory 1)
try_decode-on_request_example =
    try_decode-on_request none coded slot bits memory 1 coding refl bits-IsValid refl
      (rw three_missing (omega arith)) (omega arith) refl refl (omega arith)

-- A message that marks a chunk for which `poll` counts and the sender has no flag is a write past them.
abbrev marks : ControlMessage
marks = record (gaps_message sr_ack 1 []) { chunk_bitmap = 16 ∷ []; chunk_bitmap_words = 1 }

marks_past_flags :
    (on_request marks 5 (record coding { acked = replicate 4 false }) ≡ none)
    × (apply_bitmap marks 5 (replicate 5 false) ≡ some (false ∷ false ∷ false ∷ false ∷ true ∷ []))
unfolding on_request apply_bitmap gaps_message
marks_past_flags = (refl, refl)
