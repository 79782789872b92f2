-- ===== src/Ec.antt =====
-- sdr-udp/reliability/ec.cpp: erasure coding. The sizes that both sides compute, and the receiver. The
-- routines over the Galois field are ISA-L's: what they do to the buffer is a parameter.
pub mod Sender
pub mod Gaps
pub mod Resend
mod Tests
use sdr_rdma_udp.Common.{
  ℕ, zero, suc, ◌+◌, ◌-◌, ◌*◌, ◌/◌, ◌^◌, Bool, true, false, not, ◌&&◌, ◌||◌, Option, none, some,
  List, [], ◌∷◌, ◌++◌, map, ltb, leb, ◌==◌, if◌then◌else◌, ◌>>=◌, length, take, replicate, min, u16,
  u32, u64,
}
use sdr_rdma_udp.Control.{
  ControlMessage, ControlMsgType, ConnectionParams, ec_ack, ec_nack, ec_fallback_sr, offer,
  zero_params,
}
use sdr_rdma_udp.Packet.{max_payload_size}
use sdr_rdma_udp.Connection.{MessageContext, MessageState}
use sdr_rdma_udp.Frontend.{FrontendBitmap, is_chunk_complete}
use sdr_rdma_udp.Receiver.Blocks.{Memory}
use sdr_rdma_udp.Api.Params.{or_default}
use sdr_rdma_udp.Api.Control.{params_message}

-- `ECConfig`
pub record EcConfig : Type 0 where
  pub k_data : ℕ
  pub m_parity : ℕ
  pub fallback_timeout_ms : ℕ
  pub data_bytes : ℕ
  pub max_retries : ℕ

-- `ECStats`
pub record EcStats : Type 0 where
  pub parity_sent : ℕ
  pub decode_success : ℕ
  pub fallback_sr : ℕ

-- The sizes of a coded message.
pub record Sizes : Type 0 where
  pub chunk_bytes : ℕ
  pub data_bytes : ℕ
  pub k : ℕ
  pub m : ℕ
  pub data_chunks : ℕ
  pub stripes : ℕ
  pub parity_chunks : ℕ

abbrev pub mtu_of : ConnectionParams → ℕ
mtu_of p = min (or_default p.mtu_bytes max_payload_size) max_payload_size

abbrev pub per_chunk_of : ConnectionParams → ℕ
per_chunk_of p = or_default p.packets_per_chunk 32

-- `(n + d - 1) / d`, in 64 bits and in 32.
abbrev pub ceil64 : ℕ → ℕ → ℕ
ceil64 n d = u64 (n + d + (2 ^ 64 - 1)) / d

abbrev pub ceil32 : ℕ → ℕ → ℕ
ceil32 n d = u32 (n + d + (2 ^ 32 - 1)) / d

-- The sizes as `encode_and_send` and `post_receive` both compute them.
unfoldable pub sizes : EcConfig → ConnectionParams → ℕ → Sizes
sizes cfg p length =
    let chunk_bytes = or_default (u32 (mtu_of p * per_chunk_of p)) max_payload_size in
    let data_bytes = or_default cfg.data_bytes length in
    let k = or_default cfg.k_data 4 in
    let m = or_default cfg.m_parity 2 in
    let data_chunks = u32 (ceil64 data_bytes chunk_bytes) in
    let stripes = ceil32 data_chunks k in
    record {
      chunk_bytes = chunk_bytes;
      data_bytes = data_bytes;
      k = k;
      m = m;
      data_chunks = data_chunks;
      stripes = stripes;
      parity_chunks = u32 (stripes * m);
    }

-- `total_bytes` of the sender's storage, and `required_length` of the receiver's buffer.
abbrev pub coded_bytes : Sizes → ℕ
coded_bytes z = u64 (u32 (z.data_chunks + z.parity_chunks) * z.chunk_bytes)

-- `ECReceiver`, with its sizes.
pub record EcReceiver : Type 0 where
  pub cfg : EcConfig
  pub stats : EcStats
  pub sizes_of : Sizes
  pub decode_attempts : ℕ
  pub fallback_active : Bool

-- `post_receive`: whether it succeeds, the receiver, and the slot's context, which counts the parity
-- chunks too. `posted` is the context that `sdr_recv_post` gives, if it succeeds.
unfoldable pub post_receive :
    EcReceiver
    → ConnectionParams
    → ℕ
    → Option MessageContext
    → Bool × EcReceiver × Option MessageContext
unfolding sizes
post_receive r p length posted =
    let z = sizes r.cfg p length in
    let ready = record r { sizes_of = z; decode_attempts = 0; fallback_active = false } in
    let given : Bool × EcReceiver × Option MessageContext = elim posted [
      | none ↦ (false, ready, none)
      | some ctx ↦
          (true, ready, some (record ctx { total_chunks = u32 (z.data_chunks + z.parity_chunks) }))
    ] in
    if ltb length (coded_bytes z) then (false, record r { sizes_of = z }, none) else given

-- The chunks with a given mark among the `n` from `c` on.
unfoldable pub chunks_with : FrontendBitmap → Bool → ℕ → ℕ → Option (List ℕ)
chunks_with f wanted zero c = some []
chunks_with f wanted (suc n) c = is_chunk_complete f c >>= λ complete.
    chunks_with f wanted n (c + 1) >>= λ rest.
    some (
      if wanted then (if complete then c ∷ rest else rest) else if complete then rest else c ∷ rest)

-- The run of successive chunks at the head of a list: its length, with `lenrun` so far, and the rest.
unfoldable pub take_run : ℕ → ℕ → List ℕ → ℕ × List ℕ
take_run start lenrun [] = (lenrun, [])
take_run start lenrun (c ∷ rest) =
    let longer = take_run start (lenrun + 1) rest in
    if c == start + lenrun then longer else (lenrun, c ∷ rest)

-- The missing chunks as gaps, `n` at most: the first chunk and the length of each.
unfoldable pub collapse : ℕ → List ℕ → List (ℕ × ℕ)
collapse zero missing = []
collapse (suc n) [] = []
collapse (suc n) (start ∷ rest) =
    let (lenrun, later) = take_run start 1 rest in (start, lenrun) ∷ collapse n later

abbrev pub fill_up : List ℕ → List ℕ
fill_up entries = take 16 (entries ++ replicate 16 0)

-- The message that asks for the missing chunks.
unfoldable pub gaps_message : ControlMsgType → ℕ → List ℕ → ControlMessage
unfolding collapse
gaps_message msg_type connection_id missing =
    let gaps = collapse 16 missing in
    record (params_message msg_type connection_id zero_params) {
      num_gaps = length gaps;
      gap_start = fill_up (map (λ (g : ℕ × ℕ). u16 g.0) gaps);
      gap_len = fill_up (map (λ (g : ℕ × ℕ). u16 g.1) gaps);
    }

-- What a call of `try_decode` leaves: its result, the receiver, the context of the slot, the memory,
-- and the message that it sent.
pub record Tried : Type 0 where
  pub decoded : Bool
  pub receiver : EcReceiver
  pub context : MessageContext
  pub memory : Memory
  pub sent : List ControlMessage

abbrev pub still : EcReceiver → MessageContext → Memory → Tried
still r ctx memory = record {
  decoded = false;
  receiver = r;
  context = ctx;
  memory = memory;
  sent = [];
}

-- The end of a transfer: the context is complete and EC_ACK is sent.
unfoldable pub succeed : EcReceiver → MessageContext → Memory → ℕ → Tried
succeed r ctx memory connection_id = record {
  decoded = true;
  receiver = record r { stats = record r.stats { decode_success = r.stats.decode_success + 1 } };
  context = record ctx { total_chunks = r.sizes_of.data_chunks; state = MessageState.completed };
  memory = memory;
  sent = params_message ec_ack connection_id zero_params ∷ [];
}

-- Too many chunks are missing: ask for them, and fall back once the attempts are used up.
unfoldable pub ask_again : EcReceiver → MessageContext → Memory → ℕ → List ℕ → Tried
unfolding gaps_message
ask_again r ctx memory connection_id missing =
    if leb r.cfg.max_retries (u32 (r.decode_attempts + 1))
    then record {
      decoded = false;
      receiver = record r {
        fallback_active = true;
        stats = record r.stats { fallback_sr = r.stats.fallback_sr + 1 };
        decode_attempts = u32 (r.decode_attempts + 1);
      };
      context = ctx;
      memory = memory;
      sent = gaps_message ec_fallback_sr connection_id missing ∷ [];
    }
    else record {
      decoded = false;
      receiver = record r { decode_attempts = u32 (r.decode_attempts + 1) };
      context = ctx;
      memory = memory;
      sent = gaps_message ec_nack connection_id missing ∷ [];
    }

abbrev pub gave_up : EcReceiver → MessageContext → Memory → Tried
gave_up r ctx memory =
    still (record r { stats = record r.stats { fallback_sr = r.stats.fallback_sr + 1 } }) ctx memory

-- All rows that are read lie in the matrix of `k + m` rows.
abbrev pub rows_exist : ℕ → List ℕ → Bool
rows_exist rows [] = true
rows_exist rows (i ∷ is) = ltb i rows && rows_exist rows is

-- What ISA-L's routines make of the memory, from the first `k` chunks at hand and the missing ones;
-- `none` where the matrix has no inverse.
abbrev pub Recover : Type 0
Recover = Sizes → List ℕ → List ℕ → Memory → Option Memory

-- The decoding. The outer `none` is a read outside the encode matrix.
unfoldable pub decode :
    Option Recover → EcReceiver → MessageContext → Memory → ℕ → List ℕ → List ℕ → Option Tried
unfolding succeed
decode none r ctx memory connection_id missing avail = some (gave_up r ctx memory)
decode (some recover) r ctx memory connection_id missing avail =
    let z = r.sizes_of in
    let sources = take z.k avail in
    if ltb (length avail) z.k
    then some (gave_up r ctx memory)
    else if not (rows_exist (z.k + z.m) sources)
    then none
    else elim (recover z sources missing memory) [
      | none ↦ some (gave_up r ctx memory)
      | some memory' ↦ some (succeed r ctx memory' connection_id)
    ]

-- What follows from the missing data chunks.
unfoldable pub decide :
    Option Recover
    → EcReceiver
    → MessageContext
    → FrontendBitmap
    → Memory
    → ℕ
    → List ℕ
    → Option Tried
unfolding ask_again decode succeed chunks_with
decide isal r ctx f memory connection_id [] =
    if r.fallback_active
    then some (succeed (record r { fallback_active = false }) ctx memory connection_id)
    else some (succeed r ctx memory connection_id)
decide isal r ctx f memory connection_id (c ∷ cs) =
    let decoded =
      chunks_with f true (u32 (r.sizes_of.data_chunks + r.sizes_of.parity_chunks)) 0 >>= λ avail.
      decode isal r ctx memory connection_id (c ∷ cs) avail in
    if r.fallback_active
    then some (still r ctx memory)
    else if ltb r.sizes_of.m (length (c ∷ cs))
    then some (ask_again r ctx memory connection_id (c ∷ cs))
    else decoded

unfoldable pub try_decode_on :
    Option Recover → EcReceiver → MessageContext → Memory → ℕ → Option FrontendBitmap → Option Tried
unfolding decide chunks_with
try_decode_on isal r ctx memory connection_id none = some (still r ctx memory)
try_decode_on isal r ctx memory connection_id (some f) =
    chunks_with f false r.sizes_of.data_chunks 0 >>= λ missing.
    decide isal r ctx f memory connection_id missing

-- `try_decode` for a handle whose slot has a chunk bitmap, over a connection of a receiver.
unfoldable pub try_decode : Option Recover → EcReceiver → MessageContext → Memory → ℕ → Option Tried
unfolding try_decode_on
try_decode isal r ctx memory connection_id =
    try_decode_on isal r ctx memory connection_id ctx.frontend_bitmap
