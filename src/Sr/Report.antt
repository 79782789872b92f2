-- ===== src/Sr/Report.antt =====
-- sdr-udp/reliability/sr.cpp, SRReceiver::pump: what the receiver reports about its chunks. The chunk
-- bitmap is taken as it is when the report is made; times are in milliseconds.
use sdr_rdma_udp.Common.{
  ℕ, zero, suc, ◌+◌, ◌-◌, ◌/◌, ◌%◌, ◌^◌, Bool, true, false, ◌&&◌, ◌||◌, Option, none, some, List,
  [], ◌∷◌, ◌++◌, map, bit_or, min, max, ltb, leb, ◌==◌, if◌then◌else◌, ◌>>=◌, length, get_or, set,
  take, replicate, u16, u32, uint16_max, uint32_max,
}
use sdr_rdma_udp.Control.{
  ControlMessage, ControlMsgType, sr_ack, sr_nack, complete_ack, zero_params, magic_value,
}
use sdr_rdma_udp.Frontend.{FrontendBitmap, is_chunk_complete, get_total_chunks_completed}

pub record SrConfig : Type 0 where
  pub rto_ms : ℕ
  pub nack_delay_ms : ℕ
  pub max_inflight_chunks : ℕ
  pub base_rtt_ms : ℕ
  pub alpha_ms : ℕ

pub record SrStats : Type 0 where
  pub acks_sent : ℕ
  pub nacks_sent : ℕ
  pub retransmits : ℕ

-- `cumulative_idx + 1`: the first chunk from `c` on that is not complete, in at most `n` rounds.
unfoldable pub prefix_from : FrontendBitmap → ℕ → ℕ → Option ℕ
prefix_from f zero c = some c
prefix_from f (suc n) c =
    is_chunk_complete f c >>= λ complete. if complete then prefix_from f n (c + 1) else some c

-- `cumulative`, of `cumulative_idx + 1`.
abbrev pub cumulative_of : ℕ → ℕ
cumulative_of zero = uint32_max
cumulative_of (suc c) = c

-- `n` rounds of the loop that fills `words`, from chunk `c` on.
unfoldable pub snapshot_from : FrontendBitmap → ℕ → ℕ → List ℕ → Option (List ℕ)
snapshot_from f zero c words = some words
snapshot_from f (suc n) c words = is_chunk_complete f c >>= λ complete. snapshot_from f n (c + 1) (
    if complete && ltb (c / 64) 8
    then set words (c / 64) (bit_or (get_or words (c / 64) 0) (2 ^ (c % 64)))
    else words)

-- How many chunks from `c` on are missing, in at most `n` rounds.
unfoldable pub run_from : FrontendBitmap → ℕ → ℕ → ℕ → Option ℕ
run_from f zero c run = some run
run_from f (suc n) c run = is_chunk_complete f c >>= λ complete.
    if complete then some run else run_from f n (c + 1) (run + 1)

-- `missing_start` and `missing_len`.
unfoldable pub first_gap : FrontendBitmap → ℕ → ℕ → Option (ℕ × ℕ)
first_gap f zero c = some (0, 0)
first_gap f (suc n) c = is_chunk_complete f c >>= λ complete.
    if complete then first_gap f n (c + 1) else (run_from f (suc n) c 0 >>= λ run. some (c, run))

-- The loop over a gap: its length, which stops at the 16 bits of its field.
unfoldable pub gap_run : FrontendBitmap → ℕ → ℕ → ℕ → Option ℕ
gap_run f zero c len = some len
gap_run f (suc n) c len = is_chunk_complete f c >>= λ complete.
    if complete || leb uint16_max len then some len else gap_run f n (c + 1) (len + 1)

-- The loop over the gaps from chunk `c` on, as (start, length). Each round moves on by one chunk at
-- least, so that `total_chunks` rounds are enough; running out of them would be `none`.
unfoldable pub gaps_from : FrontendBitmap → ℕ → ℕ → ℕ → List (ℕ × ℕ) → Option (List (ℕ × ℕ))
gaps_from f total_chunks zero c gaps =
    if leb total_chunks c || leb 4 (length gaps) then some gaps else none
gaps_from f total_chunks (suc fuel) c gaps =
    if leb total_chunks c || leb 4 (length gaps)
    then some gaps
    else (is_chunk_complete f c >>= λ complete.
        if complete
        then gaps_from f total_chunks fuel (c + 1) gaps
        else (gap_run f (total_chunks - c) c 0 >>= λ len.
            gaps_from f total_chunks fuel (c + len + 1) (gaps ++ ((u16 c, len) ∷ []))))

-- An array of 16 entries that begins with the given ones, zero after them.
abbrev pub padded : List ℕ → List ℕ
padded xs = xs ++ replicate (16 - length xs) 0

-- The fields of the message that every report has; the type is set after.
abbrev pub message_of : ℕ → ℕ → ℕ → List ℕ → List (ℕ × ℕ) → ControlMessage
message_of connection_id total_chunks stop words gaps =
    let word_count = min (u32 (total_chunks + 63) / 64) 8 in
    record {
      magic = magic_value;
      msg_type = ControlMsgType.offer;
      connection_id = connection_id;
      params = record zero_params {
        total_chunks = u16 total_chunks;
        max_inflight = cumulative_of stop;
      };
      chunk_bitmap_words = word_count;
      chunk_bitmap = padded (take word_count words);
      num_gaps = length gaps;
      gap_start = padded (map (λ g. g.0) gaps);
      gap_len = padded (map (λ g. g.1) gaps);
    }

unfoldable pub report : ℕ → FrontendBitmap → ℕ → Option ControlMessage
report connection_id f total_chunks = prefix_from f total_chunks 0 >>= λ stop.
    snapshot_from f (min total_chunks 512) 0 (replicate 8 0) >>= λ words.
    gaps_from f total_chunks total_chunks 0 [] >>= λ gaps.
    some (message_of connection_id total_chunks stop words gaps)

-- What `pump` keeps between calls.
pub record Pump : Type 0 where
  pub last_ctrl : ℕ
  pub stats : SrStats

-- The message with its type and, for a gap, its first chunk and length.
abbrev pub as_nack : ControlMessage → ℕ × ℕ → ControlMessage
as_nack msg gap = record msg {
  msg_type = sr_nack;
  params = record (msg.params) { rto_ms = gap.0; rtt_alpha_ms = gap.1 };
}

-- Once the report is made: what is sent, whether the transfer is complete, and the counts.
unfoldable pub answer :
    FrontendBitmap
    → ℕ
    → ControlMessage
    → ℕ × ℕ
    → SrStats
    → Option (ControlMessage × (Bool × SrStats))
answer f total_chunks msg gap stats = get_total_chunks_completed f >>= λ completed. some (
    if ltb 0 gap.1
    then (
      as_nack msg gap,
      (leb total_chunks completed, record stats { nacks_sent = stats.nacks_sent + 1 }),
    )
    else if leb total_chunks completed
    then (
      record msg { msg_type = complete_ack },
      (true, record stats { acks_sent = stats.acks_sent + 1 }),
    )
    else (
      record msg { msg_type = sr_ack },
      (false, record stats { acks_sent = stats.acks_sent + 1 }),
    ))

abbrev pub ctrl_interval : SrConfig → ℕ
ctrl_interval cfg =
    if cfg.nack_delay_ms == 0 then max (cfg.base_rtt_ms / 2) 50 else cfg.nack_delay_ms

-- One call at time `now`: the message it sends, if any, its result and the state after it.
unfoldable pub pump :
    SrConfig
    → ℕ
    → Option FrontendBitmap
    → ℕ
    → ℕ
    → Pump
    → Option (Option ControlMessage × (Bool × Pump))
pump cfg connection_id none total_chunks now p = some (
  none,
  (false, if ltb (now - p.last_ctrl) (ctrl_interval cfg) then p else record p { last_ctrl = now }),
)
pump cfg connection_id (some f) total_chunks now p =
    if ltb (now - p.last_ctrl) (ctrl_interval cfg)
    then some (none, (false, p))
    else (report connection_id f total_chunks >>= λ msg. first_gap f total_chunks 0 >>= λ gap.
        answer f total_chunks msg gap p.stats >>= λ r.
        some (some r.0, (r.1.0, record { last_ctrl = now; stats = r.1.1 })))
