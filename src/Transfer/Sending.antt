-- ===== src/Transfer/Sending.antt =====
-- sdr-udp/src/sdr_api.cpp, the loop of `sdr_send_post`: the datagrams that it hands to the channels.
use sdr_rdma_udp.Common.{
  ℕ, zero, suc, ◌+◌, ◌/◌, ◌≤◌, ◌<◌, ◌≡◌, refl, sym, ap, ◌∙◌, inl, inr, Bool, true, not, some, List,
  [], ◌∷◌, ◌++◌, length, if◌then◌else◌, arith, count_from, Bool-cases, get_elem?,
}
use mathlib.Core.List.{append-nil, append_assoc}
use sdr_rdma_udp.Packet.{ByteOrder, Layout, datagram}
use sdr_rdma_udp.Control.{ConnectionParams}
use sdr_rdma_udp.Api.Send.{
  Sent, Progress, channel_port, send_packet, send_packets, send_data, total_packets_of,
}
use sdr_rdma_udp.Transfer.{Transfer, IsTransfer, packet_count}
use sdr_rdma_udp.Transfer.Packets.{packet_of, Agrees, make_packet_lem}

progress_eq :
    {a b : Progress}
    → a.sent ≡ b.sent
    → a.packets_sent ≡ b.packets_sent
    → a.packets_failed ≡ b.packets_failed
    → a ≡ b
progress_eq e f g = λ i. record { sent = e i; packets_sent = f i; packets_failed = g i }

module _ (o : ByteOrder) (l : Layout) (sendto : ℕ → Bool) (t : Transfer)
    (p : ConnectionParams) where
  -- Packet `i` of the transfer, on its way to its channel.
  abbrev pub sent_packet : ℕ → Sent
  sent_packet i = record { port = channel_port p i; bytes = datagram o l (packet_of t i) }

  -- Of the `n` packets from `i` on, those that the socket takes.
  abbrev pub taken_from : ℕ → ℕ → List Sent
  taken_from zero i = []
  taken_from (suc n) i =
      if sendto i then sent_packet i ∷ taken_from n (i + 1) else taken_from n (i + 1)

  -- The loop's progress after `n` packets from `i` on.
  abbrev pub after_packets : ℕ → ℕ → Progress → Progress
  after_packets n i s = record {
    sent = s.sent ++ taken_from n i;
    packets_sent = s.packets_sent + count_from sendto n i;
    packets_failed = s.packets_failed + count_from (λ j. not (sendto j)) n i;
  }

  send_packets_lem :
      (n i : ℕ) (s : Progress)
      → IsTransfer t
      → Agrees t p
      → i + n ≤ packet_count t
      → send_packets o l sendto p t.msg_id t.message (length t.message) n i s
        ≡ some (after_packets n i s)
  unfolding send_packets send_packet
  send_packets_lem zero i s v a fits =
      ap some (progress_eq (sym (append-nil s.sent)) (omega arith) (omega arith))
  send_packets_lem (suc n) i s v a fits = elim (Bool-cases (sendto i)) [
    | inl yes_sent ↦
        let s1 : Progress = record s {
          sent = s.sent ++ (sent_packet i ∷ []);
          packets_sent = s.packets_sent + 1;
        } in
        rw (make_packet_lem v (let h : i < packet_count t = omega arith in h) p a, yes_sent)
          (send_packets_lem n (i + 1) s1 v a (omega arith)
            ∙ ap some (
                progress_eq (append_assoc s.sent (sent_packet i ∷ []) (taken_from n (i + 1)))
                  (omega arith) (omega arith)))
    | inr not_sent ↦
        rw (make_packet_lem v (let h : i < packet_count t = omega arith in h) p a, not_sent)
          (send_packets_lem n (i + 1) (record s { packets_failed = s.packets_failed + 1 }) v a
              (omega arith)
            ∙ ap some (progress_eq refl (omega arith) (omega arith)))
  ]

  -- The progress of the whole loop.
  abbrev pub progress_of : Progress
  progress_of = record {
    sent = taken_from (packet_count t) 0;
    packets_sent = count_from sendto (packet_count t) 0;
    packets_failed = count_from (λ j. not (sendto j)) (packet_count t) 0;
  }

  pub send_data_lem :
      IsTransfer t
      → Agrees t p
      → send_data o l sendto true p t.msg_id t.message (length t.message) ≡ some progress_of
  unfolding send_data
  send_data_lem v a =
      let count : total_packets_of (length t.message) p.mtu_bytes ≡ packet_count t =
        rw a.mtu (ap (λ x. x / t.mtu_bytes) (omega (arith, v.small, v.mtu_fits, v.mtu_pos))) in
      rw count (
        send_packets_lem (packet_count t) 0
          (record { sent = []; packets_sent = 0; packets_failed = 0 }) v a (omega arith)
        ∙ ap some (progress_eq refl (omega arith) (omega arith)))

  -- Where the socket takes every packet, entry `j` of what was sent is packet `j`.
  pub get_elem?-taken_from :
      (n i j : ℕ)
      → ((k : ℕ) → sendto k ≡ true)
      → j < n
      → get_elem? (taken_from n i) j ≡ some (sent_packet (i + j))
  get_elem?-taken_from zero i j all lt = absurd (omega arith)
  get_elem?-taken_from (suc n) i zero all lt =
      rw (all i) (ap (λ x. some (sent_packet x)) (omega arith))
  get_elem?-taken_from (suc n) i (suc j) all lt = rw (all i) (
      get_elem?-taken_from n (i + 1) j all (omega arith)
      ∙ ap (λ x. some (sent_packet x)) (omega arith))
