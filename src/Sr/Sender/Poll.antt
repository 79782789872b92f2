-- ===== src/Sr/Sender/Poll.antt =====
-- sdr-udp/reliability/sr.cpp: `SRSender::start_send` once `sdr_send_post` has returned, and the loop of
-- `SRSender::poll`. Each entry of a history is one round: the time, and what the round hears.
use sdr_rdma_udp.Common.{
  ℕ, zero, suc, ◌+◌, ◌-◌, ◌*◌, ◌/◌, ◌^◌, Bool, false, not, ◌&&◌, Option, some, List, [], ◌∷◌, min,
  ltb, ◌==◌, if◌then◌else◌, ◌>>=◌, get_or, set, replicate, u16, u32, u64,
}
use sdr_rdma_udp.Packet.{max_payload_size}
use sdr_rdma_udp.Control.{
  ControlMessage, ControlMsgType, sr_ack, sr_nack, complete_ack, incomplete_nack,
}
use sdr_rdma_udp.Sr.Report.{SrConfig, SrStats}
use sdr_rdma_udp.Sr.Sender.{SrSender, Link, retransmit_range, on_sr_ack, on_sr_nack}

-- Whether `sdr_send_poll` returned 0 after a timeout, or a message, and the same for a type that the
-- sender does not know.
pub data Heard : Type 0 where
  timeout : Bool → Heard
  message : ControlMessage → Bool → Heard

-- The value that `poll` returns, 0 or -1, or another round.
pub data Outcome : Type 0 where
  complete failed more : Outcome

abbrev pub effective_rto_ms : SrConfig → ℕ
effective_rto_ms cfg = if cfg.rto_ms == 0 then u32 (cfg.base_rtt_ms + cfg.alpha_ms) else cfg.rto_ms

-- `n` rounds of the retransmission after a timeout, from chunk `c` on.
unfoldable pub rto_from : Link → SrConfig → ℕ → ℕ → ℕ → SrSender → Option SrSender
rto_from k cfg now zero c s = some s
rto_from k cfg now (suc n) c s =
    let late =
      not (get_or s.chunk_acked c false)
      && ltb (effective_rto_ms cfg) (now - get_or s.last_tx c 0) in
    let again = retransmit_range k now c 1 s >>= λ s'.
    rto_from k cfg now n (c + 1) (record s' { last_tx = set s'.last_tx c now }) in
    let skip = rto_from k cfg now n (c + 1) s in if late then again else skip

abbrev pub done_if : Bool → Outcome
done_if b = if b then complete else more

unfoldable pub on_message :
    Link → ℕ → ControlMsgType → ControlMessage → Bool → SrSender → Option (Outcome × SrSender)
on_message k now sr_ack msg polled s = on_sr_ack k now msg s >>= λ r. some (done_if r.0, r.1)
on_message k now sr_nack msg polled s = on_sr_nack k now msg s >>= λ s'. some (more, s')
on_message k now complete_ack msg polled s =
    some (complete, record s { stats = record (s.stats) { acks_sent = s.stats.acks_sent + 1 } })
on_message k now incomplete_nack msg polled s = some (failed, s)
on_message k now _ msg polled s = some (done_if polled, s)

-- One round.
unfoldable pub poll_round : Link → SrConfig → ℕ → Heard → SrSender → Option (Outcome × SrSender)
poll_round k cfg now (timeout polled) s =
    if polled
    then some (complete, s)
    else (rto_from k cfg now s.total_chunks 0 s >>= λ s'. some (more, s'))
poll_round k cfg now (message msg polled) s = on_message k now msg.msg_type msg polled s

-- The loop.
unfoldable pub poll : Link → SrConfig → List (ℕ × Heard) → SrSender → Option (Outcome × SrSender)
poll k cfg [] s = some (more, s)
poll k cfg ((now, h) ∷ rounds) s = poll_round k cfg now h s >>= λ r.
    let rest = poll k cfg rounds r.1 in elim r.0 [ more ↦ rest | _ ↦ some r ]

-- `n` rounds of the first window, from chunk `c` on.
unfoldable pub first_window : Link → ℕ → ℕ → ℕ → SrSender → Option SrSender
first_window k now zero c s = some s
first_window k now (suc n) c s = retransmit_range k now c 1 s >>= λ s'.
    first_window k now n (c + 1) (record s' { next_chunk_to_send = c + 1 })

abbrev pub or_all : ℕ → ℕ → ℕ
or_all x total_chunks = if x == 0 then u16 total_chunks else x

-- The sender before its first packet: `length` bytes of the buffer under message id `msg_id`.
unfoldable pub start_state : Link → SrConfig → ℕ → ℕ → List ℕ → ℕ → SrStats → SrSender
start_state k cfg now msg_id buffer size stats =
    let mtu_bytes = if k.params.mtu_bytes == 0 then max_payload_size else k.params.mtu_bytes in
    let packets_per_chunk =
      if k.params.packets_per_chunk == 0 then 1 else k.params.packets_per_chunk in
    let chunk_bytes = mtu_bytes * packets_per_chunk in
    let total_chunks = u32 (u64 (size + chunk_bytes + (2 ^ 64 - 1)) / chunk_bytes) in
    record {
      total_chunks = total_chunks;
      mtu_bytes = mtu_bytes;
      packets_per_chunk = packets_per_chunk;
      ack_base = 0;
      next_chunk_to_send = 0;
      max_inflight = or_all (or_all cfg.max_inflight_chunks total_chunks) total_chunks;
      chunk_acked = replicate total_chunks false;
      last_tx = replicate total_chunks now;
      stats = stats;
      msg_id = msg_id;
      user_buffer = buffer;
      buffer_size = size;
      sent = [];
    }

unfoldable pub start_send : Link → SrConfig → ℕ → ℕ → List ℕ → ℕ → SrStats → Option SrSender
start_send k cfg now msg_id buffer size stats =
    let s = start_state k cfg now msg_id buffer size stats in
    first_window k now (min s.total_chunks s.max_inflight) 0 s
