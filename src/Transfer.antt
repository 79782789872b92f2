-- ===== src/Transfer.antt =====
-- A message from the sender's buffer to the receiver's: the packets that sdr-udp/src/sdr_api.cpp makes,
-- delivered by the network in any order, any number of times or not at all, to the worker threads of
-- sdr-udp/include/sdr_receiver.h.
pub mod Packets
pub mod Deliver
pub mod Complete
pub mod Start
pub mod Sending
pub mod Session
pub mod Ports
pub mod Streaming
mod Tests
use sdr_rdma_udp.Common.{
  ℕ, ◌+◌, ◌-◌, ◌*◌, ◌/◌, ◌^◌, ◌≤◌, ◌<◌, ◌≡◌, true, some, List, length, get_or,
}
use sdr_rdma_udp.Packet.{max_payload_size}
use sdr_rdma_udp.Connection.{ConnectionContext, MessageContext, active, user, max_messages}
use sdr_rdma_udp.Backend.{BackendBitmap, received}
use sdr_rdma_udp.Backend
use sdr_rdma_udp.Receiver.{State}

-- What both sides agree on: the message, the receiver's buffer, the slot and its generation, and the
-- sizes of a packet and of a chunk.
pub record Transfer : Type 0 where
  pub message : List ℕ
  pub block : ℕ
  pub msg_id : ℕ
  pub transfer_id : ℕ
  pub mtu_bytes : ℕ
  pub packets_per_chunk : ℕ

abbrev pub packet_count : Transfer → ℕ
packet_count t = (length t.message + t.mtu_bytes - 1) / t.mtu_bytes

-- Sizes that the fields of a packet hold.
pub record IsTransfer (t : Transfer) : Type 0 where
  pub slot : t.msg_id < max_messages
  pub generation : t.transfer_id < 2 ^ 32
  pub mtu_pos : 0 < t.mtu_bytes
  pub mtu_fits : t.mtu_bytes ≤ max_payload_size
  pub chunk_fits : t.packets_per_chunk < 2 ^ 16
  pub count_fits : packet_count t ≤ 2 ^ 18
  pub small : length t.message < 2 ^ 62

-- The receiver in the middle of a transfer: the slot is active, and each byte of a packet that has
-- been received is in the buffer.
pub record IsReceiving (t : Transfer) (s : State) : Type 0 where
  pub context : MessageContext
  pub bitmap : BackendBitmap
  pub in_slot : s.conn.msg_table t.msg_id ≡ some context
  pub is_active : context.state ≡ active
  pub same_generation : context.generation ≡ t.transfer_id
  pub has_bitmap : context.backend_bitmap ≡ some bitmap
  pub to_block : context.buffer ≡ user t.block
  pub sized : context.buffer_size ≡ length t.message
  pub has_room : length t.message ≤ length (s.memory.buffers t.block)
  pub same_mtu : context.connection_params.mtu_bytes ≡ t.mtu_bytes
  pub valid : Backend.IsValid bitmap
  pub counted : bitmap.total_packets ≡ packet_count t
  pub copied :
      (p : ℕ)
      → p < length t.message
      → received bitmap (p / t.mtu_bytes) ≡ true
      → get_or (s.memory.buffers t.block) p 0 ≡ get_or t.message p 0
