-- ===== src/Transfer/Start.antt =====
-- The start of a transfer: the slot that `sdr_recv_post` sets up, and the packets that the sender makes
-- from its CTS. The generation of the slot comes from a counter that the table keeps for each id, the
-- transfer id of the CTS from one counter for all receives of the process.
use sdr_rdma_udp.Common.{
  ℕ, ◌+◌, ◌-◌, ◌/◌, ◌≤◌, ◌<◌, ◌≡◌, ◌≢◌, refl, sym, ◌∙◌, false, some, List, length, u32, arith, ◌==◌,
  leb,
}
use sdr_rdma_udp.Packet.{SdrPacketHeader}
use sdr_rdma_udp.Control.{ConnectionParams}
use sdr_rdma_udp.Connection.{Pointer, user, get_message, live}
use sdr_rdma_udp.Connection.Sizes.{sizes_lem}
use sdr_rdma_udp.Backend.{received}
use sdr_rdma_udp.Backend
use sdr_rdma_udp.Backend.Laws.{new-IsValid, received-new, total-new}
use sdr_rdma_udp.Api.Params.{negotiate-IsFilledIn}
use sdr_rdma_udp.Api.Recv.{Endpoint, Posted, recv_setup, fill_context}
use sdr_rdma_udp.Api.Recv.Slot.{IsPosted, recv_setup-IsPosted}
use sdr_rdma_udp.Receiver.{State, process_packet, offer_packet}
use sdr_rdma_udp.Receiver.Blocks.{Memory}
use sdr_rdma_udp.Transfer.{Transfer, IsTransfer, IsReceiving, packet_count}

-- The transfer of a message that a posted receive describes.
abbrev pub transfer_of : Posted → List ℕ → ℕ → Transfer
transfer_of h message block = record {
  message = message;
  block = block;
  msg_id = h.msg_id;
  transfer_id = h.generation;
  mtu_bytes = h.cts_params.mtu_bytes;
  packets_per_chunk = h.cts_params.packets_per_chunk;
}

module _ {e e' : Endpoint} {offer : ConnectionParams} {h : Posted} (message : List ℕ) (block : ℕ)
    (p : IsPosted e offer (user block) (length message) h e') where
  abbrev t : Transfer
  t = transfer_of h message block

  -- Where the slot's counter of generations and the receiver's agree before a receive that was
  -- posted, its sizes fit the packet fields and the buffer has room, the slot is ready for the
  -- transfer that the CTS describes, with no packet received yet.
  pub posted-IsReceiving :
      (memory : Memory)
      → e.conn.generation_counters h.msg_id ≡ e.receiver_generation_counter
      → IsTransfer t
      → length message ≤ length (memory.buffers block)
      → (r : IsReceiving t (record { conn = e'.conn; memory = memory })) × ((i : ℕ)
          → received r.bitmap i ≡ false)
  unfolding fill_context
  posted-IsReceiving memory agree v room =
      let usable = negotiate-IsFilledIn e.conn.params offer (length message) in
      let pos : 0 < h.cts_params.packets_per_chunk = rw p.params usable.chunk_pos in
      let packets : ℕ = packet_count t in
      let sizes =
        sizes_lem (length message) h.cts_params.mtu_bytes h.cts_params.packets_per_chunk v.mtu_pos
          pos (omega (arith, v.small, v.mtu_fits)) (omega (arith, v.small, v.chunk_fits)) in
      let bits = Backend.new (u32 packets) h.cts_params.packets_per_chunk in
      (
        record {
          context =
              fill_context p.slot (user block) (length message) packets
                ((packets + h.cts_params.packets_per_chunk - 1) / h.cts_params.packets_per_chunk)
                h.cts_params;
          bitmap = bits;
          in_slot = rw sizes at p.in_table;
          is_active = p.slot_active;
          same_generation = p.slot_generation ∙ agree ∙ sym p.generation;
          has_bitmap = refl;
          to_block = refl;
          sized = refl;
          has_room = room;
          same_mtu = refl;
          valid =
              new-IsValid (u32 packets) h.cts_params.packets_per_chunk (omega (arith, v.count_fits))
                v.chunk_fits;
          counted =
              total-new (u32 packets) h.cts_params.packets_per_chunk ∙ omega (arith, v.count_fits);
          copied = λ q lt had. cc (
            had,
            received-new (u32 packets) h.cts_params.packets_per_chunk (q / h.cts_params.mtu_bytes),
          );
        },
        λ i. received-new (u32 packets) h.cts_params.packets_per_chunk i,
      )

  -- Where they differ, the receiver ignores every packet that the sender makes for this transfer.
  pub posted_deaf :
      (memory : Memory) (header : SdrPacketHeader) (payload : List ℕ) (len : ℕ)
      → e.conn.generation_counters h.msg_id ≢ e.receiver_generation_counter
      → header.msg_id ≡ h.msg_id
      → header.transfer_id ≡ h.cts_params.transfer_id
      → let s : State = record { conn = e'.conn; memory = memory } in
        process_packet s header payload len ≡ some s
  unfolding process_packet get_message offer_packet fill_context
  posted_deaf memory header payload len differ id transfer =
      let in_range : leb 1024 h.msg_id ≡ false = ground (arith, p.id) in
      let no_match : (p.slot.generation == header.transfer_id) ≡ false =
        rw (transfer, p.params, p.slot_generation) (ground arith) in
      rw (id, in_range, p.in_table, live, p.slot_active, no_match)

-- The endpoint of a process that has not posted a receive yet.
pub record IsFresh (e : Endpoint) : Type 0 where
  pub no_id : e.next_msg_id ≡ 0
  pub first_generation : e.receiver_generation_counter ≡ 1
  pub first_generations : (j : ℕ) → e.conn.generation_counters j ≡ 1

-- The first receive of a process is ready for its packets.
pub first_receive_agrees :
    {e e' : Endpoint} {offer : ConnectionParams} {buffer : Pointer} {size : ℕ} {h : Posted}
    → IsFresh e
    → IsPosted e offer buffer size h e'
    → e.conn.generation_counters h.msg_id ≡ e.receiver_generation_counter
first_receive_agrees {h} f p = f.first_generations h.msg_id ∙ sym f.first_generation

-- Of two receives that a fresh endpoint posts one after the other, whatever the offers, the second
-- is deaf: every packet that carries its message id and the transfer id of its CTS is ignored.
pub second_receive_deaf :
    (e : Endpoint) (offer1 offer2 : ConnectionParams) (buffer1 : Pointer) (block : ℕ) (size1 : ℕ)
    (message : List ℕ) (h1 h2 : Posted) (memory : Memory) (header : SdrPacketHeader)
    (payload : List ℕ) (len : ℕ)
    → IsFresh e
    → (recv_setup e offer1 buffer1 size1).0 ≡ some h1
    → let e1 = (recv_setup e offer1 buffer1 size1).1 in
      let r2 = recv_setup e1 offer2 (user block) (length message) in
      r2.0 ≡ some h2
      → header.msg_id ≡ h2.msg_id
      → header.transfer_id ≡ h2.cts_params.transfer_id
      → let s : State = record { conn = r2.1.conn; memory = memory } in
        process_packet s header payload len ≡ some s
second_receive_deaf e offer1 offer2 buffer1 block size1 message h1 h2 memory header payload len f
      ok1 ok2 id transfer =
    let p1 = recv_setup-IsPosted e offer1 buffer1 size1 h1 ok1 in
    let e1 : Endpoint = (recv_setup e offer1 buffer1 size1).1 in
    let p2 = recv_setup-IsPosted e1 offer2 (user block) (length message) h2 ok2 in
    let first_id : h1.msg_id ≡ 0 = ground (arith, p1.id, f.no_id) in
    let second_id : h2.msg_id ≡ 1 = ground (arith, p2.id, p1.next_id, f.no_id) in
    let generation : e1.conn.generation_counters h2.msg_id ≡ 1 =
      p1.other_generations h2.msg_id (omega arith) ∙ f.first_generations h2.msg_id in
    let counter : e1.receiver_generation_counter ≡ 2 = p1.next_generation ∙ rw f.first_generation in
    posted_deaf message block p2 memory header payload len (omega arith) id transfer
