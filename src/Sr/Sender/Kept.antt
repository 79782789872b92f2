-- ===== src/Sr/Sender/Kept.antt =====
-- What the sender's loops change, and what they leave as it is.
use sdr_rdma_udp.Common.{
  ℕ, zero, suc, ◌+◌, ◌-◌, ◌*◌, ◌≤◌, ◌≡◌, inl, inr, refl, ap, ◌∙◌, false, ◌&&◌, Option, none, some,
  List, [], ◌++◌, sym, min, ltb, leb, if◌then◌else◌, length, get_or, get_elem?-eq-get_or, drop,
  length-drop, u32, u64, arith, Bool-cases, Option-cases, le→ltb,
}
use mathlib.Core.List.{append-nil, append_assoc}
use sdr_rdma_udp.Packet.{SdrPacket, max_payload_size, create_data_packet}
use sdr_rdma_udp.Control.{ControlMessage}
use sdr_rdma_udp.Api.Send.{Sent}
use sdr_rdma_udp.Sr.Report.{SrStats}
use sdr_rdma_udp.Sr.Sender.{
  SrSender, Link, emit, send_range, send_packets_range, packets_of_chunks, noted, retransmit_range,
  is_due, resend_due, resend_gaps, open_window,
}

-- `s'` differs from `s` in what has been sent, which goes on from what had been, and when, and how often,
-- and the next chunk.
pub record Kept (s s' : SrSender) : Type 0 where
  pub sent_now : List Sent
  pub stats_now : SrStats
  pub last_tx_now : List ℕ
  pub next_now : ℕ
  pub is : s' ≡ record s {
    sent = sent_now;
    stats = stats_now;
    last_tx = last_tx_now;
    next_chunk_to_send = next_now;
  }
  pub later : List Sent
  pub extends : sent_now ≡ s.sent ++ later

pub Kept-all : (s : SrSender) → Kept s s
Kept-all s = record {
  sent_now = s.sent;
  stats_now = s.stats;
  last_tx_now = s.last_tx;
  next_now = s.next_chunk_to_send;
  is = refl;
  later = [];
  extends = sym (append-nil s.sent);
}

pub Kept-trans : {s t u : SrSender} → Kept s t → Kept t u → Kept s u
Kept-trans a b = record {
  sent_now = b.sent_now;
  stats_now = b.stats_now;
  last_tx_now = b.last_tx_now;
  next_now = b.next_now;
  is =
      b.is
      ∙ ap
          (λ (x : SrSender). record x {
            sent = b.sent_now;
            stats = b.stats_now;
            last_tx = b.last_tx_now;
            next_chunk_to_send = b.next_now;
          })
          a.is;
  later = a.later ++ b.later;
  extends =
      b.extends
      ∙ ap (λ (x : SrSender). x.sent ++ b.later) a.is
      ∙ ap (λ xs. xs ++ b.later) a.extends
      ∙ append_assoc _ a.later b.later;
}

-- The user's buffer has the size that the sender goes by.
abbrev pub IsReadable : SrSender → Type 0
IsReadable s = s.buffer_size ≤ length s.user_buffer

pub Kept-IsReadable : {s s' : SrSender} → Kept s s' → IsReadable s → IsReadable s'
Kept-IsReadable a r = rw a.is r

create_returns :
    (transfer_id msg_id packet_offset ppc : ℕ) (bytes : List ℕ) (len : ℕ)
    → len ≤ length bytes
    → (p : Option SdrPacket) × (create_data_packet transfer_id msg_id packet_offset ppc bytes len
        ≡ some p)
unfolding create_data_packet
create_returns transfer_id msg_id packet_offset ppc bytes len h =
    elim (Option-cases (create_data_packet transfer_id msg_id packet_offset ppc bytes len)) [
      | inr (p, e) ↦ (p, e)
      | inl e ↦ absurd (ground (arith, le→ltb (length bytes) len h))
    ]

emit-Kept : (k : Link) (p : Option SdrPacket) (s : SrSender) → Kept s (emit k p s)
unfolding emit
emit-Kept k none s = Kept-all s
emit-Kept k (some packet) s = record {
  sent_now = _;
  stats_now = s.stats;
  last_tx_now = s.last_tx;
  next_now = s.next_chunk_to_send;
  is = refl;
  later = _;
  extends = refl;
}

pub send_range-Kept :
    (k : Link) (n i : ℕ) (s : SrSender)
    → IsReadable s
    → (s' : SrSender) × (send_range k n i s ≡ some s') × Kept s s'
unfolding send_range
send_range-Kept k zero i s r = (s, refl, Kept-all s)
send_range-Kept k (suc n) i s r = elim (Bool-cases (leb s.buffer_size (u32 i * s.mtu_bytes))) [
  | inl past ↦ (s, rw past, Kept-all s)
  | inr inside ↦
      let wanted : ℕ = min s.mtu_bytes (s.buffer_size - u32 i * s.mtu_bytes) in
      let len : ℕ = if ltb max_payload_size wanted then max_payload_size else wanted in
      let (p, made) =
        create_returns k.params.transfer_id s.msg_id (u32 i) s.packets_per_chunk
          (drop (u32 i * s.mtu_bytes) s.user_buffer) len
          (ground (arith, length-drop (u32 i * s.mtu_bytes) s.user_buffer)) in
      let (s', returns, kept) =
        send_range-Kept k n (i + 1) (emit k p s) (Kept-IsReadable (emit-Kept k p s) r) in
      (s', rw (inside, made) returns, Kept-trans (emit-Kept k p s) kept)
]

noted-Kept : (now c count : ℕ) (s : SrSender) → Kept s (noted now c count s)
unfolding noted
noted-Kept now c count s = record {
  sent_now = s.sent;
  stats_now = _;
  last_tx_now = _;
  next_now = s.next_chunk_to_send;
  is = refl;
  later = [];
  extends = sym (append-nil s.sent);
}

pub retransmit_range-Kept :
    (k : Link) (now c count : ℕ) (s : SrSender)
    → IsReadable s
    → (s' : SrSender) × (retransmit_range k now c count s ≡ some s') × Kept s s'
unfolding retransmit_range send_packets_range
retransmit_range-Kept k now c count s r =
    elim (Bool-cases (leb s.buffer_size (u64 (c * (s.packets_per_chunk * s.mtu_bytes))))) [
      | inl past ↦ (s, rw past, Kept-all s)
      | inr inside ↦ elim (Bool-cases k.can_send) [
        | inr closed ↦ (noted now c count s, rw (inside, closed) refl, noted-Kept now c count s)
        | inl open_now ↦
            let (s', returns, kept) =
              send_range-Kept k (packets_of_chunks s c count).1 (packets_of_chunks s c count).0 s
                r in
            (
              noted now c count s',
              rw (inside, returns, open_now) refl,
              Kept-trans kept (noted-Kept now c count s'),
            )
      ]
    ]

pub resend_due-Kept :
    (k : Link) (now limit n c sent : ℕ) (s : SrSender)
    → IsReadable s
    → (m : ℕ) × (s' : SrSender) × (resend_due k now limit n c sent s ≡ some (m, s')) × Kept s s'
unfolding resend_due
resend_due-Kept k now limit zero c sent s r = (sent, s, refl, Kept-all s)
resend_due-Kept k now limit (suc n) c sent s r = elim (Bool-cases (leb limit sent)) [
  | inl enough ↦ (sent, s, rw enough, Kept-all s)
  | inr more ↦ elim (Bool-cases (is_due now c s)) [
    | inr skip ↦
        let (m, s', returns, kept) = resend_due-Kept k now limit n (c + 1) sent s r in
        (m, s', rw (more, skip) returns, kept)
    | inl due ↦
        let (t, sends, a) = retransmit_range-Kept k now c 1 s r in
        let (m, s', returns, b) =
          resend_due-Kept k now limit n (c + 1) (sent + 1) t (Kept-IsReadable a r) in
        (m, s', rw (more, due, sends) returns, Kept-trans a b)
  ]
]

pub resend_gaps-Kept :
    (k : Link) (now : ℕ) (msg : ControlMessage) (n i sent : ℕ) (s : SrSender)
    → i + n ≤ length msg.gap_start
    → i + n ≤ length msg.gap_len
    → IsReadable s
    → (s' : SrSender) × (resend_gaps k now msg n i sent s ≡ some s') × Kept s s'
unfolding resend_gaps
resend_gaps-Kept k now msg zero i sent s hs hl r = (s, refl, Kept-all s)
resend_gaps-Kept k now msg (suc n) i sent s hs hl r = elim (Bool-cases (leb 8 sent)) [
  | inl enough ↦ (s, rw enough, Kept-all s)
  | inr more ↦
      let gs : ℕ = get_or msg.gap_start i 0 in
      let gl : ℕ = get_or msg.gap_len i 0 in
      let (m, t, sends, a) =
        resend_due-Kept k now 8 (min (gs + gl) s.total_chunks - gs) gs sent s r in
      let (s', returns, b) =
        resend_gaps-Kept k now msg n (i + 1) m t (omega arith) (omega arith)
          (Kept-IsReadable a r) in
      (
        s',
        rw
            (
              more,
              get_elem?-eq-get_or msg.gap_start i 0 (omega arith),
              get_elem?-eq-get_or msg.gap_len i 0 (omega arith),
              sends,
            )
            returns,
        Kept-trans a b,
      )
]

pub open_window-Kept :
    (k : Link) (now n : ℕ) (s : SrSender)
    → IsReadable s
    → (s' : SrSender) × (open_window k now n s ≡ some s') × Kept s s'
unfolding open_window
open_window-Kept k now zero s r = (s, refl, Kept-all s)
open_window-Kept k now (suc n) s r =
    elim (Bool-cases (
      ltb s.next_chunk_to_send s.total_chunks
      && ltb s.next_chunk_to_send (u32 (s.ack_base + s.max_inflight)))) [
        | inr shut ↦ (s, rw shut, Kept-all s)
        | inl more ↦ elim (Bool-cases (get_or s.chunk_acked s.next_chunk_to_send false)) [
          | inl acked ↦
              let a = moved s s (Kept-all s) in
              let (s', returns, b) =
                open_window-Kept k now n
                  (record s { next_chunk_to_send = s.next_chunk_to_send + 1 })
                  (Kept-IsReadable a r) in
              (s', rw (more, acked) returns, Kept-trans a b)
          | inr missing ↦
              let (t, sends, kept) = retransmit_range-Kept k now s.next_chunk_to_send 1 s r in
              let a = moved s t kept in
              let (s', returns, b) =
                open_window-Kept k now n
                  (record t { next_chunk_to_send = s.next_chunk_to_send + 1 })
                  (Kept-IsReadable a r) in
              (s', rw (more, missing, sends) returns, Kept-trans a b)
        ]
      ]
  where
    moved :
        (s t : SrSender)
        → Kept s t
        → Kept s (record t { next_chunk_to_send = s.next_chunk_to_send + 1 })
    moved s t kept = Kept-trans kept (record {
      sent_now = t.sent;
      stats_now = t.stats;
      last_tx_now = t.last_tx;
      next_now = s.next_chunk_to_send + 1;
      is = refl;
      later = [];
      extends = sym (append-nil t.sent);
    })
