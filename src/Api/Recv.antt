-- ===== src/Api/Recv.antt =====
-- sdr-udp/src/sdr_api.cpp: `sdr_recv_post`, from the allocation of a message id to the parameters that
-- go out with the CTS.
pub mod Slot
use sdr_rdma_udp.Common.{
  ℕ, ◌+◌, ◌-◌, ◌*◌, ◌/◌, ◌%◌, ◌^◌, ◌≤◌, ◌<◌, ◌≡◌, Bool, true, false, Option, none, some, List, u32,
}
use sdr_rdma_udp.Control.{ConnectionParams}
use sdr_rdma_udp.Api.Params.{negotiate}
use sdr_rdma_udp.Connection.{
  ConnectionContext, MessageContext, Pointer, initialize, allocate_message_slot,
  calculate_bitmap_sizes, update,
}
use sdr_rdma_udp.Backend.{BackendBitmap}
use sdr_rdma_udp.Backend
use sdr_rdma_udp.Frontend.{FrontendBitmap}
use sdr_rdma_udp.Frontend

-- `SDRContext::next_msg_id`, the static `receiver_generation_counter`, and the connection.
pub record Endpoint : Type 0 where
  pub next_msg_id : ℕ
  pub receiver_generation_counter : ℕ
  pub conn : ConnectionContext

unfoldable pub allocate_msg_id : Endpoint → ℕ × Endpoint
allocate_msg_id e = (e.next_msg_id % 1024, record e { next_msg_id = (e.next_msg_id + 1) % 1024 })

-- `SDRRecvHandle`, with the parameters that the CTS carries.
pub record Posted : Type 0 where
  pub msg_id : ℕ
  pub generation : ℕ
  pub buffer_size : ℕ
  pub cts_params : ConnectionParams

-- The context of a fresh slot, filled in for a receive.
unfoldable pub fill_context :
    MessageContext → Pointer → ℕ → ℕ → ℕ → ConnectionParams → MessageContext
fill_context m buffer length total_packets total_chunks params =
    let backend = Backend.new (u32 total_packets) params.packets_per_chunk in
    record m {
      buffer = buffer;
      buffer_size = length;
      total_packets = total_packets;
      total_chunks = total_chunks;
      packets_per_chunk = params.packets_per_chunk;
      connection_params = params;
      backend_bitmap = some backend;
      frontend_bitmap =
          some (Frontend.start_polling (Frontend.new (some backend) (u32 total_chunks)) 100).1;
    }

unfoldable pub post_slot :
    Endpoint
    → ℕ
    → ℕ
    → ConnectionParams
    → Pointer
    → ℕ
    → Option MessageContext × ConnectionContext
    → Option Posted × Endpoint
post_slot e msg_id generation params buffer length (none, conn) = (none, record e { conn = conn })
post_slot e msg_id generation params buffer length (some m, conn) =
    let (total_packets, total_chunks) =
      calculate_bitmap_sizes length params.mtu_bytes params.packets_per_chunk in
    (
      some (record {
        msg_id = msg_id;
        generation = generation;
        buffer_size = length;
        cts_params = params;
      }),
      record e {
        conn = record conn {
          msg_table =
              update conn.msg_table msg_id
                (some (fill_context m buffer length total_packets total_chunks params));
        };
      },
    )

-- Set up the slot for an offer: `none` when the table refuses it.
unfoldable pub recv_setup : Endpoint → ConnectionParams → Pointer → ℕ → Option Posted × Endpoint
unfolding allocate_msg_id post_slot fill_context
recv_setup e0 offer buffer length =
    let (msg_id, e1) = allocate_msg_id e0 in
    let settled = negotiate e1.conn.params offer length in
    let conn = initialize e1.conn e1.conn.connection_id settled in
    let generation = e1.receiver_generation_counter in
    let e2 = record e1 { receiver_generation_counter = u32 (generation + 1); conn = conn } in
    let params = record settled { transfer_id = generation } in
    post_slot e2 msg_id generation params buffer length
      (allocate_message_slot conn msg_id generation)
