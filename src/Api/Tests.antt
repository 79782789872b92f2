-- ===== src/Api/Tests.antt =====
-- The calls of the API at concrete inputs, and the theorems about them there.
use sdr_rdma_udp.Common.{
  ℕ, zero, suc, ◌^◌, ◌<◌, ◌==◌, ◌≡◌, ◌↔◌, refl, true, false, some, none, [], ◌∷◌, if◌then◌else◌,
  arith, get_or, all_from,
}
use sdr_rdma_udp.Control.{ConnectionParams, ControlMsgType, sr_ack, zero_params}
use sdr_rdma_udp.Connection.{
  ConnectionContext, MessageContext, active, dead, null_sink, empty_context, get_message,
}
use sdr_rdma_udp.Connection
use sdr_rdma_udp.Frontend.{FrontendBitmap, completed}
use sdr_rdma_udp.Frontend
use sdr_rdma_udp.Api.Complete.{
  message, timeout, stopped, sdr_recv_complete, sdr_send_poll, recv_complete-send_poll,
}
use sdr_rdma_udp.Api.Params.{IsFilledIn, negotiate, negotiate_lem}

abbrev offer : ConnectionParams
offer = record zero_params {
  total_bytes = 5;
  mtu_bytes = 2;
  packets_per_chunk = 2;
  num_channels = 1;
}

negotiate_lem_example :
    let r = negotiate zero_params offer 5 in
    IsFilledIn r
    × ((r.total_bytes ≡ 0) ↔ ((offer.total_bytes ≡ 0) × (◌≡◌ {A = ℕ} 5 0)))
    × (r.packet_bytes ≡ 0)
    × (r.chunk_bytes ≡ 0)
    × (negotiate r offer 5 ≡ r)
negotiate_lem_example = negotiate_lem zero_params offer 5

-- Three chunks of a finished transfer.
abbrev three_chunks : FrontendBitmap
three_chunks = record {
  chunk_bitmap = 7 ∷ [];
  num_words = 1;
  total_chunks = 3;
  packets_per_chunk = 1;
  should_stop = false;
  poll_interval_us = 100;
  polling = true;
}

three_chunks-IsValid : Frontend.IsValid three_chunks
three_chunks-IsValid = record { words = λ k. below k; covers = omega arith; sized = refl }
  where
    below : (k : ℕ) → get_or three_chunks.chunk_bitmap k 0 < 2 ^ 64
    below zero = omega arith
    below (suc k) = omega arith

abbrev finished : MessageContext
finished = record empty_context {
  msg_id = 5;
  generation = 1;
  state = active;
  total_chunks = 3;
  frontend_bitmap = some three_chunks;
}

abbrev table : ConnectionContext
table = record Connection.new { msg_table = λ i. if i == 5 then some finished else none }

recv_complete-send_poll_example :
    (t : ControlMsgType) × (c' : ConnectionContext) × (sdr_recv_complete table 5 ≡ some (t, c'))
    × (sdr_send_poll (timeout ∷ message sr_ack ∷ message t ∷ [])
        ≡ some (all_from (completed three_chunks) 3 0))
    × (get_message c' 5 ≡ some (record (stopped finished) { state = dead; buffer = null_sink }))
recv_complete-send_poll_example =
    recv_complete-send_poll table 5 (timeout ∷ message sr_ack ∷ []) (omega arith) refl refl refl
      three_chunks-IsValid refl (omega arith) (omega arith) refl
