-- ===== src/Transfer/Deliver.antt =====
-- One packet of a transfer, processed, and then any sequence of them.
use sdr_rdma_udp.Common.{
  ℕ, ◌+◌, ◌-◌, ◌*◌, ◌/◌, ◌≤◌, ◌<◌, ◌≡◌, ◌↔◌, inl, inr, refl, ap, sym, ◌∙◌, Bool, true, false, ◌&&◌,
  ◌||◌, Option, some, List, [], ◌∷◌, ltb, leb, ◌==◌, ◌>>=◌, length, drop, get_or, min, arith,
  get_or-take, get_or-drop, lt→ltb, ==_iff, Bool-cases,
}
use native.Mathlib.Decide.{dec_lt, ℕ_discrete}
use sdr_rdma_udp.Packet.{SdrPacketHeader, ByteOrder, Layout, datagram}
use sdr_rdma_udp.Connection.{max_messages, get_message, live}
use sdr_rdma_udp.Backend.{received}
use sdr_rdma_udp.Backend.Laws.{
  add_packet, is_packet_received_lem, set_packet_received_lem, add_packet-IsValid, total-add_packet,
  received-add_packet,
}
use sdr_rdma_udp.Receiver.{
  State, process_packet, offer_packet, store_packet, with_backend, write_packet_to_buffer,
  receive_datagram,
}
use sdr_rdma_udp.Receiver.Blocks.{IsWritten}
use sdr_rdma_udp.Receiver.Write.{step_of, write-IsWritten}
use sdr_rdma_udp.Transfer.{Transfer, IsTransfer, IsReceiving, packet_count}
use sdr_rdma_udp.Transfer.Packets.{
  packet_of, len_of, starts_inside, length-payload, receive_datagram_lem,
}

-- A byte belongs to packet `i` exactly when it lies in that packet's run.
same_packet : (p i mtu : ℕ) → 0 < mtu → (p / mtu ≡ i) ↔ ((i * mtu ≤ p) × (p < i * mtu + mtu))
same_packet p i mtu pos = (λ e. rw (← e) (bounds p), λ h. unique (p / mtu) h (bounds p))
  where
    bounds : (n : ℕ) → (n / mtu * mtu ≤ n) × (n < n / mtu * mtu + mtu)
    bounds n = grind arith

    unique :
        (q : ℕ) → (i * mtu ≤ p) × (p < i * mtu + mtu) → (q * mtu ≤ p) × (p < q * mtu + mtu) → q ≡ i
    unique q h k = elim (dec_lt q i) [
      | yes lt ↦ let up : (q + 1) * mtu ≤ i * mtu = grind arith in absurd (omega arith)
      | no ge ↦ elim (dec_lt i q) [
        | yes lt ↦ let down : (i + 1) * mtu ≤ q * mtu = grind arith in absurd (omega arith)
        | no le ↦ omega arith
      ]
    ]

-- Outcome of a packet: the state goes on, still in the middle of the transfer, with packet `i` added.
pub record IsDelivered (t : Transfer) (i : ℕ) (before : ℕ → Bool) (out : Option State)
    : Type 0 where
  pub state : State
  pub returns : out ≡ some state
  pub receiving : IsReceiving t state
  pub adds : (j : ℕ) → received receiving.bitmap j ≡ ((i == j) || before j)

module _ {t : Transfer} (v : IsTransfer t) {s : State} (r : IsReceiving t s) {i : ℕ}
    (below : i < packet_count t) where
  abbrev header : SdrPacketHeader
  header = (packet_of t i).header

  abbrev payload : List ℕ
  payload = (packet_of t i).payload

  accepted :
      process_packet s header payload (len_of t i)
      ≡ store_packet s r.context (some r.bitmap) header payload (len_of t i)
  unfolding process_packet get_message
  accepted =
      let in_range : leb max_messages t.msg_id ≡ false = ground (arith, v.slot) in
      let found : live (s.conn.msg_table t.msg_id) ≡ some r.context =
        rw (r.in_slot, live) (ground (arith, r.is_active)) in
      let same : (r.context.generation == t.transfer_id) ≡ true =
        (==_iff _ _).1 r.same_generation in
      rw (in_range, found, offer_packet, same, r.is_active, r.has_bitmap)

  step : step_of r.context ≡ t.mtu_bytes
  step = ground (arith, r.same_mtu, v.mtu_pos)

  written :
      IsWritten s.memory t.block
        (i * t.mtu_bytes)
        payload
        (len_of t i)
        (write_packet_to_buffer r.context s.memory i payload (len_of t i))
  written =
      let inside : i * step_of r.context < r.context.buffer_size =
        rw (step, r.sized) (starts_inside v below) in
      let w =
        write-IsWritten r.context s.memory t.block r.to_block (rw r.sized r.has_room) i payload
          (len_of t i) (omega (arith, length-payload v below))
          (rw step (omega (arith, v.small, starts_inside v below))) inside in
      let cut : min (len_of t i) (r.context.buffer_size - i * step_of r.context) ≡ len_of t i =
        rw step (omega (arith, r.sized)) in
      rw step at (rw cut at w)

  -- A byte of the buffer after the write: new if it is of packet `i`, else as it was.
  copied_after :
      (p : ℕ)
      → p < length t.message
      → ((i == p / t.mtu_bytes) || received r.bitmap (p / t.mtu_bytes)) ≡ true
      → get_or (written.after.buffers t.block) p 0 ≡ get_or t.message p 0
  copied_after p lt h = elim (ℕ_discrete (p / t.mtu_bytes) i) [
    | yes e ↦
        let b = (same_packet p i t.mtu_bytes v.mtu_pos).0 e in
        let in_run : (leb (i * t.mtu_bytes) p && ltb p (i * t.mtu_bytes + len_of t i)) ≡ true =
          ground arith in
        let byte : get_or payload (p - i * t.mtu_bytes) 0 ≡ get_or t.message p 0 =
          get_or-take (len_of t i) (p - i * t.mtu_bytes) (drop (i * t.mtu_bytes) t.message) 0
            (omega arith)
          ∙ get_or-drop (i * t.mtu_bytes) (p - i * t.mtu_bytes) t.message 0
          ∙ ap (λ k. get_or t.message k 0) (omega arith) in
        ground (arith, written.bytes p, in_run, byte)
    | no ne ↦
        let other : ¬ ((i * t.mtu_bytes ≤ p) × (p < i * t.mtu_bytes + t.mtu_bytes)) =
          λ k. ne ((same_packet p i t.mtu_bytes v.mtu_pos).1 k) in
        let outside : (leb (i * t.mtu_bytes) p && ltb p (i * t.mtu_bytes + len_of t i)) ≡ false =
          ground arith in
        ground (arith, written.bytes p, outside, r.copied p lt)
  ]

  adds_packet : (j : ℕ) → received (add_packet r.bitmap i) j ≡ ((i == j) || received r.bitmap j)
  adds_packet j =
      let inside : ltb i r.bitmap.total_packets ≡ true =
        lt→ltb i r.bitmap.total_packets (omega (arith, r.counted)) in
      ground (arith, received-add_packet i j r.valid, inside)

  -- A packet that was received before changes nothing.
  duplicate :
      received r.bitmap i ≡ true
      → IsDelivered t i (received r.bitmap) (process_packet s header payload (len_of t i))
  unfolding store_packet
  duplicate had = record {
    state = s;
    returns = rw (accepted, is_packet_received_lem i r.valid, had);
    receiving = r;
    adds = λ j. elim (ℕ_discrete i j) [
      | yes e ↦ rw (← e) (ground (arith, had))
      | no ne ↦ ground arith
    ];
  }

  new_packet :
      received r.bitmap i ≡ false
      → IsDelivered t i (received r.bitmap) (process_packet s header payload (len_of t i))
  unfolding store_packet with_backend
  new_packet fresh = record {
    state = record {
      conn = with_backend s.conn t.msg_id r.context (add_packet r.bitmap i);
      memory = written.after;
    };
    returns = rw (
      accepted,
      is_packet_received_lem i r.valid,
      fresh,
      written.returns,
      set_packet_received_lem i r.valid,
    );
    receiving = record {
      context = record (r.context) { backend_bitmap = some (add_packet r.bitmap i) };
      bitmap = add_packet r.bitmap i;
      in_slot = ground arith;
      is_active = r.is_active;
      same_generation = r.same_generation;
      has_bitmap = refl;
      to_block = r.to_block;
      sized = r.sized;
      has_room = omega (arith, r.has_room, written.same_length);
      same_mtu = r.same_mtu;
      valid = add_packet-IsValid i r.valid;
      counted = total-add_packet r.bitmap i ∙ r.counted;
      copied = λ p lt h. copied_after p lt (sym (adds_packet (p / t.mtu_bytes)) ∙ h);
    };
    adds = adds_packet;
  }

  -- Processing packet `i` in the middle of a transfer goes on with it, with packet `i` added.
  pub process_packet-IsDelivered :
      IsDelivered t i (received r.bitmap) (process_packet s header payload (len_of t i))
  process_packet-IsDelivered = elim (Bool-cases (received r.bitmap i)) [
    | inl had ↦ duplicate had
    | inr fresh ↦ new_packet fresh
  ]

-- Whether packet `j` is among those of a list.
abbrev pub among : ℕ → List ℕ → Bool
among j [] = false
among j (i ∷ is) = (i == j) || among j is

-- A worker that is given the datagrams of the packets of the list, one after another.
unfoldable pub receive_all : ByteOrder → Layout → Transfer → List ℕ → State → Option State
receive_all o l t [] s = some s
receive_all o l t (i ∷ is) s =
    receive_datagram o l s (datagram o l (packet_of t i)) >>= receive_all o l t is

abbrev pub All : (ℕ → Type 0) → List ℕ → Type 0
All P [] = Unit {0}
All P (i ∷ is) = P i × All P is

-- What a sequence of packets leaves.
pub record IsCollected (t : Transfer) (is : List ℕ) (before : ℕ → Bool) (out : Option State)
    : Type 0 where
  pub state : State
  pub returns : out ≡ some state
  pub receiving : IsReceiving t state
  pub adds : (j : ℕ) → received receiving.bitmap j ≡ (among j is || before j)

module _ (o : ByteOrder) (l : Layout) {t : Transfer} (v : IsTransfer t) where
  -- For a transfer whose sizes fit the packet fields and a receiver in the middle of it: packets of
  -- the message in any order, some more than once and some not at all, are processed without an
  -- access outside a buffer or a bitmap; the receiver is still in the middle of the transfer, has
  -- received just those packets and the ones it had, and every byte of theirs is in the buffer.
  pub receive_all-IsCollected :
      (is : List ℕ) {s : State} (r : IsReceiving t s)
      → All (λ i. i < packet_count t) is
      → IsCollected t is (received r.bitmap) (receive_all o l t is s)
  unfolding receive_all
  receive_all-IsCollected [] {s} r below = record {
    state = s;
    returns = refl;
    receiving = r;
    adds = λ j. refl;
  }
  receive_all-IsCollected (i ∷ is) {s} r below =
      let d = process_packet-IsDelivered v r below.0 in
      let c = receive_all-IsCollected is d.receiving below.1 in
      record {
        state = c.state;
        returns = rw (receive_datagram_lem v below.0 o l s, d.returns) c.returns;
        receiving = c.receiving;
        adds = λ j. ground (arith, c.adds j, d.adds j);
      }
