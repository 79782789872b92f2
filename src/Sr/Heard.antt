-- ===== src/Sr/Heard.antt =====
-- The sender's answer to a report: what it holds for acknowledged after it, and which packets it sends
-- again for a chunk.
use sdr_rdma_udp.Common.{
  ℕ, ◌+◌, ◌-◌, ◌^◌, ◌≤◌, ◌<◌, ◌≡◌, refl, ap, ◌∙◌, Bool, false, ◌&&◌, ◌||◌, Option, some, ltb, leb,
  length, get_or, u32, arith,
}
use sdr_rdma_udp.Control.{ControlMessage}
use sdr_rdma_udp.Frontend.{FrontendBitmap, IsValid, completed}
use sdr_rdma_udp.Sr.Report.{SrConfig, Pump, pump, ctrl_interval}
use sdr_rdma_udp.Sr.Acks.{take_report}
use sdr_rdma_udp.Sr.Sound.{pump-IsAnswer}
use sdr_rdma_udp.Sr.Sender.{
  SrSender, Link, take_in, retransmit_missing_from_bitmap, on_sr_ack, on_sr_nack,
}
use native.Mathlib.Decide.{dec_lt}
use sdr_rdma_udp.Control.{sr_nack}
use sdr_rdma_udp.Sr.Reads.{IsPrefix}
use sdr_rdma_udp.Sr.Sender.Poll.{Outcome, poll_round, on_message, message, more}
use sdr_rdma_udp.Sr.Sender.Kept.{
  Kept, Kept-trans, Kept-IsReadable, IsReadable, resend_due-Kept, resend_gaps-Kept,
  open_window-Kept,
}

pub missing-Kept :
    (k : Link) (now limit : ℕ) (s : SrSender)
    → IsReadable s
    → (s' : SrSender) × (retransmit_missing_from_bitmap k now limit s ≡ some s') × Kept s s'
unfolding retransmit_missing_from_bitmap
missing-Kept k now limit s r =
    let (m, s', returns, kept) = resend_due-Kept k now limit s.total_chunks 0 0 s r in
    (s', rw returns refl, kept)

-- A sender that has its whole buffer answers a NACK whose gaps lie in the message's arrays without
-- undefined behaviour, and the retransmissions leave what it took from the message, its number of
-- chunks and its buffer as they are.
on_sr_nack_lem :
    (k : Link) (now : ℕ) (msg : ControlMessage) (s : SrSender)
    → IsReadable s
    → msg.num_gaps ≤ length msg.gap_start
    → msg.num_gaps ≤ length msg.gap_len
    → (s' : SrSender) × (on_sr_nack k now msg s ≡ some s')
      × (s'.chunk_acked ≡ take_report msg s.total_chunks s.chunk_acked)
      × (s'.total_chunks ≡ s.total_chunks)
      × IsReadable s'
unfolding on_sr_nack take_in
on_sr_nack_lem k now msg s r hs hl =
    let s1 : SrSender =
      take_in msg (record s { stats = record (s.stats) { nacks_sent = s.stats.nacks_sent + 1 } }) in
    let (s2, first, a) =
      resend_gaps-Kept k now msg msg.num_gaps 0 0 s1 (omega arith) (omega arith) r in
    let (s3, second, b) = missing-Kept k now 4 s2 (Kept-IsReadable a r) in
    let ab = Kept-trans a b in
    let (s4, third, c) =
      open_window-Kept k now (s3.total_chunks - s3.next_chunk_to_send) s3 (Kept-IsReadable ab r) in
    let abc = Kept-trans ab c in
    (
      s4,
      rw (first, second, third) refl,
      ap (λ x. x.chunk_acked) abc.is,
      ap (λ x. x.total_chunks) abc.is,
      Kept-IsReadable abc r,
    )

-- A sender that has its whole buffer answers an ACK without undefined behaviour; it is done when
-- the cumulative index reaches the message's number of chunks, and the retransmissions leave what
-- it took from the message, its number of chunks and its buffer as they are.
on_sr_ack_lem :
    (k : Link) (now : ℕ) (msg : ControlMessage) (s : SrSender)
    → IsReadable s
    → (s' : SrSender) × (on_sr_ack k now msg s
        ≡ some (leb msg.params.total_chunks (u32 (msg.params.max_inflight + 1)), s'))
      × (s'.chunk_acked ≡ take_report msg s.total_chunks s.chunk_acked)
      × (s'.total_chunks ≡ s.total_chunks)
      × IsReadable s'
unfolding on_sr_ack take_in
on_sr_ack_lem k now msg s r =
    let s1 : SrSender = take_in msg s in
    let s2 : SrSender = record s1 {
      stats = record (s1.stats) { acks_sent = s1.stats.acks_sent + 1 };
    } in
    let (s3, second, b) = missing-Kept k now 4 s2 r in
    let (s4, third, c) =
      open_window-Kept k now (s3.total_chunks - s3.next_chunk_to_send) s3 (Kept-IsReadable b r) in
    let bc = Kept-trans b c in
    (
      s4,
      rw (second, third) refl,
      ap (λ x. x.chunk_acked) bc.is,
      ap (λ x. x.total_chunks) bc.is,
      Kept-IsReadable bc r,
    )

-- A report that is sent, and the round of the sender that hears it: the sender goes on, and what it then
-- holds for acknowledged is what it held, and of the complete chunks those below 512 and those before
-- the first that is missing, which the report names.
pub record IsHeard (f : FrontendBitmap) (s : SrSender)
    (sent : Option (Option ControlMessage × (Bool × Pump)))
    (answer : ControlMessage → Option (Outcome × SrSender)) : Type 0 where
  pub msg : ControlMessage
  pub after : Pump
  pub sender : SrSender
  pub sends : sent ≡ some (some msg, (false, after))
  pub answers : answer msg ≡ some (more, sender)
  pub first_missing : IsPrefix (completed f) f.total_chunks 0 msg.params.rto_ms
  pub acked :
      (j : ℕ)
      → j < f.total_chunks
      → get_or sender.chunk_acked j false ≡ (
          get_or s.chunk_acked j false || ((ltb j 512 || ltb j msg.params.rto_ms) && completed f j))

-- For a well-formed chunk bitmap with a missing chunk, a call of pump that is due, and a sender
-- that has as many chunks and its whole buffer: pump sends a message that names the first missing
-- chunk, and the sender's round that hears it goes on without undefined behaviour. The sender then
-- holds for acknowledged what it held before, and of the complete chunks those below 512 and those
-- before the first missing one, so never a chunk that was not acknowledged or complete.
pub report-IsHeard :
    {f : FrontendBitmap} (v : IsValid f)
    → f.total_chunks + 63 < 2 ^ 32
    → (c : ℕ) → c < f.total_chunks
    → completed f c ≡ false
    → (cfg : SrConfig) (id now : ℕ) (p : Pump) → ctrl_interval cfg ≤ now - p.last_ctrl
    → (k : Link) (later : ℕ) (polled : Bool) (s : SrSender) → IsReadable s
    → s.total_chunks ≡ f.total_chunks
    → f.total_chunks ≤ length s.chunk_acked
    → IsHeard f s
        (pump cfg id (some f) f.total_chunks now p)
        (λ msg. poll_round k cfg later (message msg polled) s)
unfolding poll_round on_message
report-IsHeard {f} v small c below missing cfg id now p due k later polled s r same len =
    let a = pump-IsAnswer v small cfg id now p s.chunk_acked due len in
    let (s', returns, acked, total, readable) =
      on_sr_nack_lem k later a.msg s r a.starts_held a.lengths_held in
    let short : a.stop ≤ c = elim (dec_lt c a.stop) [
      | yes lt ↦ absurd (ground (arith, a.first_missing.before c (omega arith) lt))
      | no ge ↦ omega arith
    ] in
    let partial : leb f.total_chunks a.stop ≡ false = ground arith in
    let nack : a.msg.msg_type ≡ sr_nack = a.kind ∙ rw partial refl in
    let gap : a.msg.params.rto_ms ≡ a.stop = a.gap ∙ rw partial refl in
    let now_acked : s'.chunk_acked ≡ take_report a.msg f.total_chunks s.chunk_acked =
      acked ∙ ap (λ n. take_report a.msg n s.chunk_acked) same in
    record {
      msg = a.msg;
      after = a.after;
      sender = s';
      sends = a.returns ∙ rw partial refl;
      answers = rw nack (rw returns refl);
      first_missing = rw gap a.first_missing;
      acked = λ j h. rw (now_acked, a.taken j h, gap) refl;
    }
