-- ===== src/Transfer/Streaming.antt =====
-- sdr-udp/src/sdr_api.cpp: what `sdr_send_stream_continue` sends, against `sdr_send_post`.
use sdr_rdma_udp.Common.{
  ℕ, zero, suc, ◌+◌, ◌-◌, ◌*◌, ◌/◌, ◌^◌, ◌≤◌, ◌<◌, ◌≡◌, refl, sym, ap, ◌∙◌, inl, inr, Bool, true,
  false, some, List, [], ◌∷◌, ◌++◌, length, ◌==◌, arith, count_from, Bool-cases, min, u64,
}
use mathlib.Core.List.{append-nil, append_assoc}
use native.Mathlib.Nat.{mul-div_cancel}
use sdr_rdma_udp.Packet.{ByteOrder, Layout}
use sdr_rdma_udp.Control.{ConnectionParams}
use sdr_rdma_udp.Connection.Sizes.{ceil_bounds, ceil_tight, ceil_unique}
use sdr_rdma_udp.Api.Send.{Sent, Progress, send_data}
use sdr_rdma_udp.Api.Stream.{
  StreamHandle, Streamed, put_packet, stream_packets, stream_range, end_packet,
  sdr_send_stream_continue, stream_packet-make_packet,
}
use sdr_rdma_udp.Transfer.{Transfer, IsTransfer, packet_count}
use sdr_rdma_udp.Transfer.Packets.{Agrees, make_packet_lem, starts_inside}
use sdr_rdma_udp.Transfer.Sending.{taken_from, sent_packet, send_data_lem, progress_of}

streamed_eq : {a b : Streamed} → a.sent ≡ b.sent → a.packets_sent ≡ b.packets_sent → a ≡ b
streamed_eq e f = λ i. record { sent = e i; packets_sent = f i }

-- A handle for the message of a transfer, with some packets sent.
abbrev pub handle_of : Transfer → ℕ → StreamHandle
handle_of t packets_sent = record {
  msg_id = t.msg_id;
  generation = t.transfer_id;
  buffer_size = length t.message;
  total_packets = packet_count t;
  packets_sent = packets_sent;
  is_active = true;
}

module _ (o : ByteOrder) (l : Layout) (sendto : ℕ → Bool) {t : Transfer} (v : IsTransfer t)
    (p : ConnectionParams) (a : Agrees t p) (short : length t.message < 2 ^ 32) where
  stream_packets_lem :
      (n i : ℕ) (s : Streamed)
      → i + n ≤ packet_count t
      → stream_packets o l sendto p t.msg_id t.message (length t.message) n i s
        ≡ some (record {
          sent = s.sent ++ taken_from o l sendto t p n i;
          packets_sent = s.packets_sent + count_from sendto n i;
        })
  unfolding stream_packets put_packet
  stream_packets_lem zero i s fits = ap some (streamed_eq (sym (append-nil s.sent)) (omega arith))
  stream_packets_lem (suc n) i s fits =
      let below : i < packet_count t = omega arith in
      let inside : i * t.mtu_bytes < length t.message = starts_inside v below in
      let made =
        stream_packet-make_packet p t.msg_id t.message (length t.message) i (rw a.mtu v.mtu_fits)
          (omega (arith, v.count_fits)) (rw a.mtu (omega arith))
        ∙ make_packet_lem v below p a in
      elim (Bool-cases (sendto i)) [
        | inl yes_sent ↦
            rw (made, yes_sent)
              (stream_packets_lem n (i + 1)
                  (record {
                    sent = s.sent ++ (sent_packet o l sendto t p i ∷ []);
                    packets_sent = s.packets_sent + 1;
                  })
                  (omega arith)
                ∙ ap some (
                    streamed_eq
                      (append_assoc s.sent (sent_packet o l sendto t p i ∷ [])
                        (taken_from o l sendto t p n (i + 1)))
                      (omega arith)))
        | inr not_sent ↦
            rw (made, not_sent)
              (stream_packets_lem n (i + 1) s (omega arith)
                ∙ ap some (streamed_eq refl (omega arith)))
      ]

  stream_range_lem :
      (had offset size first past : ℕ)
      → offset / p.mtu_bytes ≡ first
      → end_packet offset size p.mtu_bytes ≡ past
      → first ≤ past
      → past ≤ packet_count t
      → sdr_send_stream_continue o l true true sendto p (handle_of t had) t.message offset size
        ≡ some (
          true,
          taken_from o l sendto t p (past - first) first,
          handle_of t (had + count_from sendto (past - first) first),
        )
  unfolding sdr_send_stream_continue stream_range
  stream_range_lem had offset size first past start stop order fits =
      let some_mtu : (p.mtu_bytes == 0) ≡ false = ground (arith, a.mtu, v.mtu_pos) in
      let cut : min past (packet_count t) ≡ past = omega arith in
      rw
        (
          start,
          stop,
          cut,
          some_mtu,
          stream_packets_lem (past - first) first (record { sent = []; packets_sent = had })
              (omega arith),
        )
        refl

  taken_from-append :
      (n m i : ℕ)
      → taken_from o l sendto t p n i ++ taken_from o l sendto t p m (i + n)
        ≡ taken_from o l sendto t p (n + m) i
  taken_from-append zero m i =
      let same : i + 0 ≡ i = omega arith in let all : 0 + m ≡ m = omega arith in rw (same, all) refl
  taken_from-append (suc n) m i =
      let next : i + suc n ≡ i + 1 + n = omega arith in
      let all : suc n + m ≡ suc (n + m) = omega arith in
      rw (next, all)
        (elim (Bool-cases (sendto i)) [
          | inl y ↦ rw y (ap (◌∷◌ (sent_packet o l sendto t p i)) (taken_from-append n m (i + 1)))
          | inr f ↦ rw f (taken_from-append n m (i + 1))
        ])

  count_from-append :
      (n m i : ℕ)
      → count_from sendto n i + count_from sendto m (i + n) ≡ count_from sendto (n + m) i
  count_from-append zero m i =
      let same : i + 0 ≡ i = omega arith in
      let all : 0 + m ≡ m = omega arith in rw (same, all) (omega arith)
  count_from-append (suc n) m i =
      let next : i + suc n ≡ i + 1 + n = omega arith in
      let all : suc n + m ≡ suc (n + m) = omega arith in
      rw (next, all) (omega (arith, count_from-append n m (i + 1)))

  -- The ends of the two pieces.
  piece_end :
      (offset size q : ℕ)
      → offset + size ≤ length t.message
      → offset + size ≤ q * p.mtu_bytes
      → q * p.mtu_bytes < offset + size + p.mtu_bytes
      → q ≤ packet_count t
      → end_packet offset size p.mtu_bytes ≡ q
  piece_end offset size q inside covers tight few =
      let pos : 0 < p.mtu_bytes = rw a.mtu v.mtu_pos in
      let narrow : p.mtu_bytes < 2 ^ 16 = rw a.mtu (omega (arith, v.mtu_fits)) in
      let sum : u64 (offset + size + p.mtu_bytes + (2 ^ 64 - 1)) ≡ offset + size + p.mtu_bytes - 1 =
        omega arith in
      let quotient = ceil_unique (offset + size) p.mtu_bytes q pos covers tight in
      rw (sum, quotient) (omega (arith, v.count_fits))

  -- For a transfer whose sizes fit the packet fields and a message shorter than 2^32 bytes: two
  -- calls of sdr_send_stream_continue, for the bytes before any packet boundary of the message and
  -- for those after it, send together the datagrams that sdr_send_post sends, in the same order,
  -- whichever of them the socket takes, and count as many.
  pub stream_pieces :
      (cut : ℕ)
      → cut ≤ packet_count t
      → cut * t.mtu_bytes ≤ length t.message
      → (first second : List Sent) × (h1 h2 : StreamHandle) × (pr : Progress)
        × (sdr_send_stream_continue o l true true sendto p
              (handle_of t 0)
              t.message
              0
              (cut * t.mtu_bytes)
            ≡ some (true, first, h1))
        × (sdr_send_stream_continue o l true true sendto p h1 t.message
              (cut * t.mtu_bytes)
              (length t.message - cut * t.mtu_bytes)
            ≡ some (true, second, h2))
        × (send_data o l sendto true p t.msg_id t.message (length t.message) ≡ some pr)
        × (first ++ second ≡ pr.sent)
        × (h2.packets_sent ≡ pr.packets_sent)
  stream_pieces cut below inside =
      let m = t.mtu_bytes in
      let count = packet_count t in
      let from_zero : 0 / p.mtu_bytes ≡ 0 = grind (arith, a.mtu, v.mtu_pos) in
      let at_cut : cut * m / p.mtu_bytes ≡ cut = rw a.mtu (mul-div_cancel cut v.mtu_pos) in
      let bounds = ceil_bounds (length t.message) m v.mtu_pos in
      let tight = ceil_tight (length t.message) m v.mtu_pos in
      let whole : cut * m + (length t.message - cut * m) ≡ length t.message = omega arith in
      let end1 : end_packet 0 (cut * m) p.mtu_bytes ≡ cut =
        piece_end 0 (cut * m) cut (omega arith) (rw a.mtu (omega arith))
          (rw a.mtu (omega (arith, v.mtu_pos))) below in
      let end2 : end_packet (cut * m) (length t.message - cut * m) p.mtu_bytes ≡ count =
        piece_end (cut * m) (length t.message - cut * m) count (omega arith)
          (rw (a.mtu, whole) bounds.0) (rw (a.mtu, whole) tight) (omega arith) in
      let h : ℕ = 0 + count_from sendto (cut - 0) 0 in
      let all : cut - 0 + (count - cut) ≡ count = omega arith in
      let mid : 0 + (cut - 0) ≡ cut = omega arith in
      (
        taken_from o l sendto t p (cut - 0) 0,
        taken_from o l sendto t p (count - cut) cut,
        handle_of t h,
        handle_of t (h + count_from sendto (count - cut) cut),
        progress_of o l sendto t p,
        stream_range_lem 0 0 (cut * m) 0 cut from_zero end1 (omega arith) below,
        stream_range_lem h (cut * m) (length t.message - cut * m) cut count at_cut end2 below
            (omega arith),
        send_data_lem o l sendto t p v a,
        rw (mid, all) at (taken_from-append (cut - 0) (count - cut) 0),
        omega (arith, rw (mid, all) at (count_from-append (cut - 0) (count - cut) 0)),
      )
