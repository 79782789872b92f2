-- ===== src/Sr/Resent.antt =====
-- sdr-udp/reliability/sr.cpp, SRSender::poll: the first chunk of the first gap of an SR_NACK is sent again.
use sdr_rdma_udp.Common.{
  inl, inr, Bool, ◌^◌, ◌-◌, all_from, all_from_elim, sym, subst, ℕ, zero, suc, ◌+◌, ◌-◌, ◌≤◌, ◌<◌,
  ◌≡◌, refl, ap, ◌∙◌, true, false, some, List, ◌++◌, min, leb, length, get_or, get_elem?-eq-get_or,
  arith,
}
use native.Mathlib.Decide.{dec_lt}
use sdr_rdma_udp.Control.{ControlMessage, sr_nack}
use sdr_rdma_udp.Frontend.{FrontendBitmap, IsValid, completed}
use sdr_rdma_udp.Sr.Acks.{take_report}
use sdr_rdma_udp.Sr.Report.{SrConfig, Pump, pump, ctrl_interval}
use sdr_rdma_udp.Sr.Sound.{IsFirstGap, pump-IsAnswer}
use sdr_rdma_udp.Sr.Sender.Poll.{poll_round, on_message, message, more}
use sdr_rdma_udp.Api.Send.{Sent}
use sdr_rdma_udp.Sr.Sender.{
  SrSender, Link, take_in, is_due, resend_due, resend_gaps, retransmit_range, on_sr_nack,
}
use sdr_rdma_udp.Sr.Sender.Kept.{
  Kept, Kept-trans, Kept-IsReadable, IsReadable, retransmit_range-Kept, resend_due-Kept,
  resend_gaps-Kept, open_window-Kept,
}
use sdr_rdma_udp.Sr.Heard.{missing-Kept}

-- A loop whose first chunk is due sends it before anything else.
resend_due-first :
    (k : Link) (now limit n c : ℕ) (s : SrSender)
    → IsReadable s
    → 0 < n
    → 0 < limit
    → is_due now c s ≡ true
    → (t : SrSender) × (m : ℕ) × (s' : SrSender) × (retransmit_range k now c 1 s ≡ some t)
      × (resend_due k now limit n c 0 s ≡ some (m, s'))
      × Kept s t
      × Kept t s'
unfolding resend_due
resend_due-first k now limit zero c s r some_rounds pos due = absurd (omega arith)
resend_due-first k now limit (suc n) c s r some_rounds pos due =
    let (t, sends, a) = retransmit_range-Kept k now c 1 s r in
    let (m, s', returns, b) =
      resend_due-Kept k now limit n (c + 1) (0 + 1) t (Kept-IsReadable a r) in
    let open_yet : leb limit 0 ≡ false = ground arith in
    (t, m, s', sends, rw (open_yet, due, sends) returns, a, b)

resend_gaps-first :
    (k : Link) (now : ℕ) (msg : ControlMessage) (n : ℕ) (s : SrSender)
    → 0 < n
    → n ≤ length msg.gap_start
    → n ≤ length msg.gap_len
    → IsReadable s
    → get_or msg.gap_start 0 0 < s.total_chunks
    → 0 < get_or msg.gap_len 0 0
    → is_due now (get_or msg.gap_start 0 0) s ≡ true
    → (t s' : SrSender) × (retransmit_range k now (get_or msg.gap_start 0 0) 1 s ≡ some t)
      × (resend_gaps k now msg n 0 0 s ≡ some s')
      × Kept s t
      × Kept t s'
unfolding resend_gaps
resend_gaps-first k now msg zero s some_gap hs hl r below pos due = absurd (omega arith)
resend_gaps-first k now msg (suc n) s some_gap hs hl r below pos due =
    let gs : ℕ = get_or msg.gap_start 0 0 in
    let gl : ℕ = get_or msg.gap_len 0 0 in
    let d =
      resend_due-first k now 8 (min (gs + gl) s.total_chunks - gs) gs s r (omega arith)
        (omega arith) due in
    let ab = Kept-trans d.5 d.6 in
    let (s', returns, c) =
      resend_gaps-Kept k now msg n (0 + 1) d.1 d.2 (omega arith) (omega arith)
        (Kept-IsReadable ab r) in
    (
      d.0,
      s',
      d.3,
      rw
          (
            get_elem?-eq-get_or msg.gap_start 0 0 (omega arith),
            get_elem?-eq-get_or msg.gap_len 0 0 (omega arith),
            d.4,
          )
          returns,
      d.5,
      Kept-trans d.6 c,
    )

-- What the sender makes of the message before it sends anything.
abbrev pub heard : ControlMessage → SrSender → SrSender
heard msg s =
    take_in msg (record s { stats = record (s.stats) { nacks_sent = s.stats.nacks_sent + 1 } })

-- For a sender that has its whole buffer and an SR_NACK with a gap whose first chunk the message
-- has and which is due, neither acknowledged nor sent in the last 50 ms once the message is taken
-- in: the round returns, and what it sends begins, after what had been sent, with what
-- retransmit_range sends for that chunk.
gap_is_resent :
    (k : Link) (now : ℕ) (msg : ControlMessage) (s : SrSender)
    → IsReadable s
    → 0 < msg.num_gaps
    → msg.num_gaps ≤ length msg.gap_start
    → msg.num_gaps ≤ length msg.gap_len
    → get_or msg.gap_start 0 0 < s.total_chunks
    → 0 < get_or msg.gap_len 0 0
    → is_due now (get_or msg.gap_start 0 0) (heard msg s) ≡ true
    → (t s' : SrSender) × (chunk later : List Sent) × (retransmit_range k now
          (get_or msg.gap_start 0 0)
          1
          (heard msg s)
        ≡ some t)
      × (on_sr_nack k now msg s ≡ some s')
      × (t.sent ≡ s.sent ++ chunk)
      × (s'.sent ≡ t.sent ++ later)
unfolding on_sr_nack take_in
gap_is_resent k now msg s r some_gap hs hl below pos due =
    let g = resend_gaps-first k now msg msg.num_gaps (heard msg s) some_gap hs hl r below pos due in
    let ra = Kept-IsReadable (Kept-trans g.4 g.5) r in
    let (s3, second, b) = missing-Kept k now 4 g.1 ra in
    let (s4, third, c) =
      open_window-Kept k now (s3.total_chunks - s3.next_chunk_to_send) s3 (Kept-IsReadable b ra) in
    let rest = Kept-trans g.5 (Kept-trans b c) in
    (
      g.0,
      s4,
      g.4.later,
      rest.later,
      g.2,
      rw (g.3, second, third) refl,
      ap (λ x. x.sent) g.4.is ∙ g.4.extends,
      ap (λ x. x.sent) rest.is ∙ rest.extends,
    )

-- For a well-formed chunk bitmap of fewer than 2^16 chunks, of which chunk c is the first that is
-- missing, a call of pump that is due, and a sender that has as many chunks and its whole buffer,
-- holds no acknowledgement of c and has not sent it in the last 50 ms: pump sends a message, and
-- the round of poll that hears it goes on, and sends, after what had been sent, first what
-- retransmit_range sends for c.
pub missing_is_resent :
    {f : FrontendBitmap} (v : IsValid f)
    → f.total_chunks < 2 ^ 16
    → (c : ℕ) → c < f.total_chunks
    → completed f c ≡ false
    → all_from (completed f) c 0 ≡ true
    → (cfg : SrConfig) (id now : ℕ) (p : Pump) → ctrl_interval cfg ≤ now - p.last_ctrl
    → (k : Link) (later : ℕ) (polled : Bool) (s : SrSender) → IsReadable s
    → s.total_chunks ≡ f.total_chunks
    → f.total_chunks ≤ length s.chunk_acked
    → get_or s.chunk_acked c false ≡ false
    → 50 ≤ later - get_or s.last_tx c 0
    → (msg : ControlMessage) × (after : Pump) × (t s' : SrSender) × (chunk rest : List Sent) × (pump
          cfg id
          (some f)
          f.total_chunks
          now
          p
        ≡ some (some msg, (false, after)))
      × (poll_round k cfg later (message msg polled) s ≡ some (more, s'))
      × (retransmit_range k later c 1 (heard msg s) ≡ some t)
      × (t.sent ≡ s.sent ++ chunk)
      × (s'.sent ≡ t.sent ++ rest)
unfolding poll_round on_message take_in
missing_is_resent {f} v small c below missing before cfg id now p due k later polled s r same len
      fresh waited =
    let a =
      pump-IsAnswer v (let x : f.total_chunks + 63 < 2 ^ 32 = omega arith in x) cfg id now p
        s.chunk_acked due len in
    let is_c : a.stop ≡ c = elim (dec_lt a.stop c) [
      | yes lt ↦
          let there : completed f a.stop ≡ true =
            all_from_elim (completed f) c 0 before a.stop (omega arith) (omega arith) in
          absurd (cc (there, a.first_missing.at_stop (omega arith)))
      | no ge ↦ elim (dec_lt c a.stop) [
        | yes lt ↦ absurd (cc (missing, a.first_missing.before c (omega arith) lt))
        | no le ↦ omega arith
      ]
    ] in
    let partial : leb f.total_chunks a.stop ≡ false = ground (arith, is_c) in
    let nack : a.msg.msg_type ≡ sr_nack = a.kind ∙ rw partial refl in
    let gap : IsFirstGap a.msg a.stop = elim a.named_gap [
      | inl all ↦ absurd (omega (arith, all, is_c))
      | inr g ↦ g
    ] in
    let starts : get_or a.msg.gap_start 0 0 ≡ c = omega (arith, gap.starts, is_c) in
    let acked : get_or (take_report a.msg s.total_chunks s.chunk_acked) c false ≡ false =
      ap (λ n. get_or (take_report a.msg n s.chunk_acked) c false) same
      ∙ a.taken c below
      ∙ rw (fresh, missing) (ground arith) in
    let due_now : is_due later (get_or a.msg.gap_start 0 0) (heard a.msg s) ≡ true =
      subst (λ x. is_due later x (heard a.msg s) ≡ true) (sym starts) (rw acked (ground arith)) in
    let g =
      gap_is_resent k later a.msg s r gap.some_gap a.starts_held a.lengths_held
        (omega (arith, starts, same)) gap.runs due_now in
    (
      a.msg,
      a.after,
      g.0,
      g.1,
      g.2,
      g.3,
      a.returns ∙ rw partial refl,
      rw nack (rw g.5 refl),
      subst (λ x. retransmit_range k later x 1 (heard a.msg s) ≡ some g.0) starts g.4,
      g.6,
      g.7,
    )
