-- ===== src/Transfer/Complete.antt =====
-- A whole message, once every packet of it has come.
use sdr_rdma_udp.Common.{
  ℕ, ◌*◌, ◌/◌, ◌≤◌, ◌<◌, ◌≡◌, ap, ◌∙◌, true, some, List, length, take, arith, get_or-take,
  get_or_ext, length-take, count_from_full, all_from, all_from_elim,
}
use native.Mathlib.Decide.{dec_lt}
use sdr_rdma_udp.Connection.{MessageContext}
use sdr_rdma_udp.Connection.Sizes.{ceil_bounds}
use sdr_rdma_udp.Packet.{ByteOrder, Layout}
use sdr_rdma_udp.Backend.{BackendBitmap, received, get_total_packets_received}
use sdr_rdma_udp.Backend.Count.{get_total_packets_received_lem}
use sdr_rdma_udp.Receiver.{State}
use sdr_rdma_udp.Transfer.{Transfer, IsTransfer, IsReceiving, packet_count}
use sdr_rdma_udp.Transfer.Deliver.{receive_all, receive_all-IsCollected, among, All}

module _ {t : Transfer} (v : IsTransfer t) {s : State} (r : IsReceiving t s)
    (all : (j : ℕ) → j < packet_count t → received r.bitmap j ≡ true) where
  packet_in_range : (p : ℕ) → p < length t.message → p / t.mtu_bytes < packet_count t
  packet_in_range p h = elim (dec_lt (p / t.mtu_bytes) (packet_count t)) [
    | yes below ↦ below
    | no above ↦
        let covers : length t.message ≤ packet_count t * t.mtu_bytes =
          (ceil_bounds (length t.message) t.mtu_bytes v.mtu_pos).0 in
        let under : p / t.mtu_bytes * t.mtu_bytes ≤ p = grind (arith, v.mtu_pos) in
        let over : packet_count t * t.mtu_bytes ≤ p / t.mtu_bytes * t.mtu_bytes = grind arith in
        absurd (omega arith)
  ]

  -- With every packet received, the buffer begins with the message.
  pub buffer_full : take (length t.message) (s.memory.buffers t.block) ≡ t.message
  buffer_full =
      get_or_ext 0 (take (length t.message) (s.memory.buffers t.block)) t.message
        (omega (arith, length-take (length t.message) (s.memory.buffers t.block), r.has_room))
        (λ p lt.
          let below : p < length t.message =
            omega (arith, length-take (length t.message) (s.memory.buffers t.block)) in
          get_or-take (length t.message) p (s.memory.buffers t.block) 0 below
          ∙ r.copied p below (all (p / t.mtu_bytes) (packet_in_range p below)))

  pub total_full : get_total_packets_received r.bitmap ≡ some (packet_count t)
  total_full =
      get_total_packets_received_lem r.valid
      ∙ ap some (
          count_from_full (received r.bitmap) r.bitmap.total_packets 0
            (λ i lo hi. all i (omega (arith, r.counted))))
      ∙ ap some r.counted

-- For a transfer whose sizes fit the packet fields and a receiver in the middle of it: whatever
-- order the packets of the message come in, and however often each, once each has come the worker
-- has processed them without undefined behaviour, the receiver's buffer begins with the sender's
-- message, and the count of the slot's packet bitmap is full.
pub message_delivered :
    (o : ByteOrder) (l : Layout) {t : Transfer} (is : List ℕ) {s : State}
    → IsTransfer t
    → IsReceiving t s
    → All (λ i. i < packet_count t) is
    → all_from (λ j. among j is) (packet_count t) 0 ≡ true
    → (s' : State) × (m : MessageContext) × (b : BackendBitmap) × (receive_all o l t is s ≡ some s')
      × (take (length t.message) (s'.memory.buffers t.block) ≡ t.message)
      × (s'.conn.msg_table t.msg_id ≡ some m)
      × (m.backend_bitmap ≡ some b)
      × (get_total_packets_received b ≡ some (packet_count t))
message_delivered o l {t} is {s} v r below every =
    let c = receive_all-IsCollected o l v is r below in
    let all : (j : ℕ) → j < packet_count t → received c.receiving.bitmap j ≡ true = λ j h. ground (
      arith,
      c.adds j,
      all_from_elim (λ k. among k is) (packet_count t) 0 every j (omega arith) (omega arith),
    ) in
    (
      c.state,
      c.receiving.context,
      c.receiving.bitmap,
      c.returns,
      buffer_full v c.receiving all,
      c.receiving.in_slot,
      c.receiving.has_bitmap,
      total_full v c.receiving all,
    )
