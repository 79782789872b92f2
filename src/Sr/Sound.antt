-- ===== src/Sr/Sound.antt =====
-- A report, and what the sender takes from it, against the set of complete chunks.
use sdr_rdma_udp.Common.{
  ℕ, zero, suc, ◌+◌, ◌-◌, ◌*◌, ◌/◌, ◌^◌, ◌≤◌, ◌<◌, ◌≡◌, refl, ◌∙◌, Bool, true, false, ◌&&◌, ◌||◌,
  Option, some, List, [], ◌∷◌, ◌⊎◌, inl, inr, subst, u16, min, ltb, leb, ◌==◌, if◌then◌else◌,
  length, get_or, take, replicate, u32, uint32_max, length-take, get_or-take, length-replicate,
  get_or-append_left, length-append, length-map, map, arith, lt→ltb, le→ltb, all_from_elim,
  count_from_full, count_from-eq_all, count_from,
}
use native.Mathlib.Decide.{dec_lt}
use sdr_rdma_udp.Common.WordArray.{bit_at, bit_at-replicate}
use sdr_rdma_udp.Control.{ControlMessage, sr_nack, complete_ack}
use sdr_rdma_udp.Frontend.{FrontendBitmap, IsValid, completed}
use sdr_rdma_udp.Frontend.Poll.{get_total_chunks_completed_lem}
use sdr_rdma_udp.Sr.Report.{
  SrConfig, Pump, report, pump, answer, gaps_from, message_of, padded, cumulative_of, ctrl_interval,
  as_nack,
}
use sdr_rdma_udp.Sr.Reads.{
  IsPrefix, prefix_from-IsPrefix, snapshot_from_lem, gaps_from_returns, gaps_from_first,
  first_gap_found, first_gap_none,
}
use sdr_rdma_udp.Sr.Acks.{apply_bitmap, apply_cumulative, take_report}
use sdr_rdma_udp.Sr.Marks.{apply_words_lem, length-apply_words, ack_from_lem}

-- The bits of the array that a message carries.
padded_bits :
    (words : List ℕ) (n j : ℕ)
    → n ≤ length words
    → j < 64 * n
    → bit_at (padded (take n words)) j ≡ bit_at words j
unfolding bit_at
padded_bits words n j h lt =
    rw
      (
        get_or-append_left (take n words) (replicate (16 - length (take n words)) 0) (j / 64) 0
            (omega (arith, length-take n words)),
        get_or-take n (j / 64) words 0 (omega arith),
      )
      refl

-- The cumulative index marks the chunks below the first that is missing.
apply_cumulative_lem :
    (stop total : ℕ) (acked : List Bool) (j : ℕ)
    → stop ≤ total
    → total < 2 ^ 32
    → total ≤ length acked
    → get_or (apply_cumulative (cumulative_of stop) total acked) j false
      ≡ (get_or acked j false || ltb j stop)
unfolding apply_cumulative
apply_cumulative_lem zero total acked j le small len = ground arith
apply_cumulative_lem (suc c) total acked j le small len =
    let other : (c == uint32_max) ≡ false = ground arith in
    let rounds : min (c + 1) total ≡ c + 1 = omega arith in
    rw (other, rounds) (ack_from_lem (c + 1) 0 acked j (omega arith) ∙ ground arith)

-- What is in a report of the set `p` of complete chunks, the first missing one being `stop`.
-- The message names a chunk as the first of its first gap.
pub record IsFirstGap (msg : ControlMessage) (stop : ℕ) : Type 0 where
  pub some_gap : 0 < msg.num_gaps
  pub starts : get_or msg.gap_start 0 0 ≡ u16 stop
  pub runs : 0 < get_or msg.gap_len 0 0

pub record IsReport (f : FrontendBitmap) (stop : ℕ) (msg : ControlMessage) : Type 0 where
  pub cumulative : msg.params.max_inflight ≡ cumulative_of stop
  pub starts_held : msg.num_gaps ≤ length msg.gap_start
  pub lengths_held : msg.num_gaps ≤ length msg.gap_len
  pub no_gap : msg.params.rto_ms ≡ 0
  pub words : msg.chunk_bitmap_words ≡ min ((f.total_chunks + 63) / 64) 8
  pub bits : (j : ℕ) → j < f.total_chunks → j < 512 → bit_at msg.chunk_bitmap j ≡ completed f j
  pub named_gap : (f.total_chunks ≤ stop) ⊎ IsFirstGap msg stop

module _ {f : FrontendBitmap} (v : IsValid f) (small : f.total_chunks + 63 < 2 ^ 32) where
  -- The list of the gaps: empty of the first missing chunk only if there is none.
  Listed : ℕ → List (ℕ × ℕ) → Type 0
  Listed stop gaps =
      (f.total_chunks ≤ stop)
      ⊎ ((len : ℕ) × (more : List (ℕ × ℕ)) × (gaps ≡ (u16 stop, len) ∷ more) × (0 < len))

  gaps_from-Listed :
      (stop : ℕ)
      → IsPrefix (completed f) f.total_chunks 0 stop
      → (gaps : List (ℕ × ℕ)) × (gaps_from f f.total_chunks f.total_chunks 0 [] ≡ some gaps)
        × Listed stop gaps
  unfolding Listed
  gaps_from-Listed stop p = elim (dec_lt stop f.total_chunks) [
    | no all ↦
        let r = gaps_from_returns v f.total_chunks f.total_chunks 0 [] (omega arith) in
        (r.0, r.1, inl (omega arith))
    | yes short ↦
        let same : f.total_chunks ≡ f.total_chunks - 0 = omega arith in
        let (len, more, returns, pos) =
          gaps_from_first v f.total_chunks f.total_chunks 0 stop
            (subst (λ n. IsPrefix (completed f) n 0 stop) same p) short (omega arith) in
        ((u16 stop, len) ∷ more, returns, inr (len, more, refl, pos))
  ]

  Listed-IsFirstGap :
      (id stop : ℕ) (words : List ℕ) (gaps : List (ℕ × ℕ))
      → Listed stop gaps
      → (f.total_chunks ≤ stop) ⊎ IsFirstGap (message_of id f.total_chunks stop words gaps) stop
  unfolding Listed
  Listed-IsFirstGap id stop words gaps (inl all) = inl all
  Listed-IsFirstGap id stop words gaps (inr (len, more, e, pos)) =
      rw e (inr (record { some_gap = omega arith; starts = refl; runs = pos }))

  report-IsReport :
      (id : ℕ)
      → (msg : ControlMessage) × (stop : ℕ) × (report id f f.total_chunks ≡ some msg)
        × IsPrefix (completed f) f.total_chunks 0 stop
        × IsReport f stop msg
  unfolding report
  report-IsReport id =
      let (stop, found, p) = prefix_from-IsPrefix v f.total_chunks 0 in
      let (words, taken, size, bits) =
        snapshot_from_lem v (min f.total_chunks 512) 0 (replicate 8 0) (omega arith)
          (length-replicate {A = ℕ} 8 0) in
      let (gaps, listed, held) = gaps_from-Listed stop p in
      (
        message_of id f.total_chunks stop words gaps,
        stop,
        rw (found, taken, listed) refl,
        p,
        record {
          cumulative = refl;
          starts_held = omega (
            arith,
            length-append (map (λ g. g.0) gaps) (replicate (16 - length (map (λ g. g.0) gaps)) 0),
            length-map {B = ℕ} (λ g. g.0) gaps,
          );
          lengths_held = omega (
            arith,
            length-append (map (λ g. g.1) gaps) (replicate (16 - length (map (λ g. g.1) gaps)) 0),
            length-map {B = ℕ} (λ g. g.1) gaps,
          );
          no_gap = refl;
          words = omega arith;
          bits = λ j lt lt'.
              padded_bits words (min (u32 (f.total_chunks + 63) / 64) 8) j (omega arith)
                (omega arith)
              ∙ bits j
              ∙ rw (bit_at-replicate 8 j) (ground arith);
          named_gap = Listed-IsFirstGap id stop words gaps held;
        },
      )

  -- After any report of these chunks.
  taken_lem :
      (stop : ℕ) (msg : ControlMessage) (acked : List Bool) (j : ℕ)
      → IsPrefix (completed f) f.total_chunks 0 stop
      → IsReport f stop msg
      → f.total_chunks ≤ length acked
      → j < f.total_chunks
      → get_or (take_report msg f.total_chunks acked) j false
        ≡ (get_or acked j false || ((ltb j 512 || ltb j stop) && completed f j))
  unfolding take_report apply_bitmap
  taken_lem stop msg acked j p r len h =
      let n : ℕ = min ((f.total_chunks + 63) / 64) 8 in
      let read : min msg.chunk_bitmap_words 8 ≡ n = omega (arith, r.words) in
      rw (r.cumulative, read)
        (apply_cumulative_lem stop f.total_chunks _ j (omega (arith, p.hi)) (omega arith)
            (omega (arith, length-apply_words f.total_chunks msg.chunk_bitmap n 0 acked))
          ∙ rw (apply_words_lem f.total_chunks msg.chunk_bitmap n 0 acked j len h)
              (elim (dec_lt j 512) [
                | yes low ↦ rw (r.bits j h low) (elim (dec_lt j stop) [
                  | yes in_prefix ↦ rw (p.before j (omega arith) in_prefix) (ground arith)
                  | no past ↦ ground arith
                ])
                | no high ↦ elim (dec_lt j stop) [
                  | yes in_prefix ↦ rw (p.before j (omega arith) in_prefix) (ground arith)
                  | no past ↦ ground arith
                ]
              ]))

-- A call of `pump` that is not held back: the message that it sends, and what the sender then takes as
-- acknowledged; `stop` is the first missing chunk, or the number of chunks.
pub record IsAnswer (f : FrontendBitmap) (acked : List Bool)
    (out : Option (Option ControlMessage × (Bool × Pump))) : Type 0 where
  pub msg : ControlMessage
  pub stop : ℕ
  pub after : Pump
  pub first_missing : IsPrefix (completed f) f.total_chunks 0 stop
  pub returns : out ≡ some (some msg, (leb f.total_chunks stop, after))
  pub kind : msg.msg_type ≡ (if leb f.total_chunks stop then complete_ack else sr_nack)
  pub starts_held : msg.num_gaps ≤ length msg.gap_start
  pub lengths_held : msg.num_gaps ≤ length msg.gap_len
  pub gap : msg.params.rto_ms ≡ (if leb f.total_chunks stop then 0 else stop)
  pub named_gap : (f.total_chunks ≤ stop) ⊎ IsFirstGap msg stop
  pub taken :
      (j : ℕ)
      → j < f.total_chunks
      → get_or (take_report msg f.total_chunks acked) j false
        ≡ (get_or acked j false || ((ltb j 512 || ltb j stop) && completed f j))

-- A NACK has the gaps of the report.
as_nack-IsFirstGap :
    {total : ℕ} (msg : ControlMessage) (stop run : ℕ)
    → (total ≤ stop) ⊎ IsFirstGap msg stop
    → (total ≤ stop) ⊎ IsFirstGap (as_nack msg (stop, run)) stop
as_nack-IsFirstGap msg stop run (inl all) = inl all
as_nack-IsFirstGap msg stop run (inr g) =
    inr (record { some_gap = g.some_gap; starts = g.starts; runs = g.runs })

module _ {f : FrontendBitmap} (v : IsValid f) (small : f.total_chunks + 63 < 2 ^ 32) where
  -- The count is full exactly when no chunk is missing.
  count_lem :
      (stop : ℕ)
      → IsPrefix (completed f) f.total_chunks 0 stop
      → leb f.total_chunks (count_from (completed f) f.total_chunks 0) ≡ leb f.total_chunks stop
  count_lem stop p = elim (dec_lt stop f.total_chunks) [
    | yes short ↦
        let missing : completed f stop ≡ false = p.at_stop (omega arith) in
        let fewer : count_from (completed f) f.total_chunks 0 < f.total_chunks =
          elim (dec_lt (count_from (completed f) f.total_chunks 0) f.total_chunks) [
            | yes lt ↦ lt
            | no ge ↦
                let all = (count_from-eq_all (completed f) f.total_chunks 0).0 (omega arith) in
                let there : completed f stop ≡ true =
                  all_from_elim (completed f) f.total_chunks 0 all stop (omega arith)
                    (omega arith) in
                absurd cc
          ] in
        ground arith
    | no all ↦
        rw (count_from_full (completed f) f.total_chunks 0 (λ j lo hi. p.before j lo (omega arith)))
          (ground arith)
  ]

  -- For a well-formed chunk bitmap and as many entries at the sender, a call of pump that is due
  -- sends a completion and returns true exactly when no chunk is missing, and a report of the first
  -- missing chunk otherwise; what a sender takes as acknowledged from the message is what it held,
  -- and of the complete chunks those below 512 and those before the first missing one.
  pub pump-IsAnswer :
      (cfg : SrConfig) (id now : ℕ) (p : Pump) (acked : List Bool)
      → ctrl_interval cfg ≤ now - p.last_ctrl
      → f.total_chunks ≤ length acked
      → IsAnswer f acked (pump cfg id (some f) f.total_chunks now p)
  unfolding pump answer take_report apply_bitmap
  pump-IsAnswer cfg id now s acked due len =
      let (msg, stop, made, p, r) = report-IsReport v small id in
      let free : ltb (now - s.last_ctrl) (ctrl_interval cfg) ≡ false =
        le→ltb (now - s.last_ctrl) (ctrl_interval cfg) due in
      let counted = get_total_chunks_completed_lem v in
      let full = count_lem stop p in
      elim (dec_lt stop f.total_chunks) [
        | yes short ↦
            let (run, found, pos) = first_gap_found v f.total_chunks 0 stop p (omega arith) in
            let partial : leb f.total_chunks stop ≡ false = ground arith in
            record {
              msg = as_nack msg (stop, run);
              stop = stop;
              after = record {
                last_ctrl = now;
                stats = record (s.stats) { nacks_sent = s.stats.nacks_sent + 1 };
              };
              first_missing = p;
              returns = rw (free, made, found, counted, full, partial, lt→ltb 0 run pos) refl;
              kind = rw partial refl;
              starts_held = r.starts_held;
              lengths_held = r.lengths_held;
              gap = rw partial refl;
              named_gap = as_nack-IsFirstGap msg stop run r.named_gap;
              taken = λ j h. taken_lem v small stop msg acked j p r len h;
            }
        | no all ↦
            let none_missing =
              first_gap_none v f.total_chunks 0 (λ j lo hi. p.before j lo (omega arith)) in
            let whole : leb f.total_chunks stop ≡ true = ground arith in
            record {
              msg = record msg { msg_type = complete_ack };
              stop = stop;
              after = record {
                last_ctrl = now;
                stats = record (s.stats) { acks_sent = s.stats.acks_sent + 1 };
              };
              first_missing = p;
              returns = rw (free, made, none_missing, counted, full, whole) refl;
              kind = rw whole refl;
              starts_held = r.starts_held;
              lengths_held = r.lengths_held;
              gap = rw whole r.no_gap;
              named_gap = inl (omega arith);
              taken = λ j h. taken_lem v small stop msg acked j p r len h;
            }
      ]
