-- ===== src/Api/Recv/Slot.antt =====
-- What a successful set-up of a receive leaves in the message table, and what it promises the sender.
use sdr_rdma_udp.Common.{ℕ, ◌+◌, ◌%◌, ◌≡◌, ◌≢◌, refl, some, u32, arith}
use sdr_rdma_udp.Control.{ConnectionParams}
use sdr_rdma_udp.Api.Params.{negotiate}
use sdr_rdma_udp.Connection.{
  MessageContext, Pointer, initialize, allocate_message_slot, calculate_bitmap_sizes, active,
  empty_context,
}
use sdr_rdma_udp.Api.Recv.{Endpoint, Posted, recv_setup, fill_context}

-- The slot of an accepted receive, and what its CTS carries.
pub record IsPosted (e : Endpoint) (offer : ConnectionParams) (buffer : Pointer) (size : ℕ)
    (h : Posted) (e' : Endpoint) : Type 0 where
  pub id : h.msg_id ≡ e.next_msg_id % 1024
  pub generation : h.generation ≡ e.receiver_generation_counter
  pub params :
      h.cts_params
      ≡ record (negotiate e.conn.params offer size) { transfer_id = e.receiver_generation_counter }
  pub slot : MessageContext
  pub slot_generation : slot.generation ≡ e.conn.generation_counters h.msg_id
  pub slot_active : slot.state ≡ active
  pub in_table :
      e'.conn.msg_table h.msg_id
      ≡ some (
          let (packets, chunks) =
            calculate_bitmap_sizes size h.cts_params.mtu_bytes h.cts_params.packets_per_chunk in
          fill_context slot buffer size packets chunks h.cts_params)
  pub next_id : e'.next_msg_id ≡ (e.next_msg_id + 1) % 1024
  pub next_generation : e'.receiver_generation_counter ≡ u32 (e.receiver_generation_counter + 1)
  pub other_generations :
      (j : ℕ) → j ≢ h.msg_id → e'.conn.generation_counters j ≡ e.conn.generation_counters j

pub recv_setup-IsPosted :
    (e : Endpoint) (offer : ConnectionParams) (buffer : Pointer) (size : ℕ) (h : Posted)
    → (recv_setup e offer buffer size).0 ≡ some h
    → IsPosted e offer buffer size h (recv_setup e offer buffer size).1
unfolding recv_setup allocate_message_slot initialize
recv_setup-IsPosted e offer buffer size h ok = record {
  id = ground arith;
  generation = ground arith;
  params = ground arith;
  slot = record empty_context {
    msg_id = e.next_msg_id % 1024;
    generation = e.conn.generation_counters (e.next_msg_id % 1024);
    state = active;
    connection_params = negotiate e.conn.params offer size;
  };
  slot_generation = ground arith;
  slot_active = refl;
  in_table = ground arith;
  next_id = ground arith;
  next_generation = ground arith;
  other_generations = λ j ne. ground arith;
}
