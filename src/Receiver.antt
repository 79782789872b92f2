-- ===== src/Receiver.antt =====
-- sdr-udp/include/sdr_receiver.h: what a worker thread does with each datagram.
-- The user's buffers and the connection's null sink are blocks of memory; a copy that leaves its
-- block, or reads past its source, is undefined behaviour: `none`. A packet is processed in one step;
-- `write_packet_to_buffer` is also a function of its own.
pub mod Blocks
pub mod Write
pub mod Workers
mod Tests
use Blocks.{Memory, memcpy}
use sdr_rdma_udp.Common.{
  ℕ, ◌+◌, ◌-◌, ◌*◌, ◌%◌, ◌^◌, ◌≤◌, ◌<◌, ◌≡◌, Bool, true, false, not, ◌&&◌, ◌||◌, Option, none, some,
  List, [], ◌∷◌, ltb, leb, ◌==◌, if◌then◌else◌, ◌>>=◌, length, take, drop, min, u64,
}
use sdr_rdma_udp.Packet.{SdrPacketHeader, ByteOrder, Layout, header_size, to_host_order}
use sdr_rdma_udp.Packet
use sdr_rdma_udp.Connection.{
  ConnectionContext, MessageContext, MessageState, active, Pointer, null, null_sink, user,
  get_message, is_active, update,
}
use sdr_rdma_udp.Backend.{BackendBitmap, is_packet_received, set_packet_received}

-- The connection and the memory that its messages point into.
pub record State : Type 0 where
  pub conn : ConnectionContext
  pub memory : Memory

abbrev pub is_null : Pointer → Bool
is_null null = true
is_null _ = false

pub write_packet_to_buffer : MessageContext → Memory → ℕ → List ℕ → ℕ → Option Memory
write_packet_to_buffer m memory packet_offset payload payload_len =
    if is_null m.buffer
    then some memory
    else let mtu_bytes =
        if m.connection_params.mtu_bytes == 0 then 1 else m.connection_params.mtu_bytes in
      let buffer_offset = u64 (packet_offset * mtu_bytes) in
      if leb m.buffer_size buffer_offset
      then some memory
      else if ltb m.buffer_size (u64 (buffer_offset + payload_len))
      then (let rest = m.buffer_size - buffer_offset in
          if rest == 0 then some memory else memcpy memory m.buffer buffer_offset payload rest)
      else memcpy memory m.buffer buffer_offset payload payload_len

-- The packet bitmap of a context, in the table.
unfoldable pub with_backend :
    ConnectionContext → ℕ → MessageContext → BackendBitmap → ConnectionContext
with_backend c msg_id m b = record c {
  msg_table = update c.msg_table msg_id (some (record m { backend_bitmap = some b }));
}

-- The rest of `process_packet` once a context accepts the packet: a null bitmap is skipped.
unfoldable pub store_packet :
    State → MessageContext → Option BackendBitmap → SdrPacketHeader → List ℕ → ℕ → Option State
store_packet s m none header payload payload_len =
    write_packet_to_buffer m s.memory header.packet_offset payload payload_len >>= λ memory.
    some (record s { memory = memory })
store_packet s m (some b) header payload payload_len =
    is_packet_received b header.packet_offset >>= λ duplicate.
    if duplicate
    then some s
    else (write_packet_to_buffer m s.memory header.packet_offset payload payload_len >>= λ memory.
        set_packet_received b header.packet_offset >>= λ r.
        some (record { conn = with_backend s.conn header.msg_id m r.1; memory = memory }))

-- The generation must be the packet's transfer, and the state active.
abbrev pub accepts : MessageContext → SdrPacketHeader → Bool
accepts m header = (m.generation == header.transfer_id) && is_active m.state

unfoldable pub offer_packet :
    State → Option MessageContext → SdrPacketHeader → List ℕ → ℕ → Option State
unfolding store_packet
offer_packet s none header payload payload_len = some s
offer_packet s (some m) header payload payload_len =
    if accepts m header
    then store_packet s m m.backend_bitmap header payload payload_len
    else some s

unfoldable pub process_packet : State → SdrPacketHeader → List ℕ → ℕ → Option State
unfolding offer_packet
process_packet s header payload payload_len =
    offer_packet s (get_message s.conn header.msg_id) header payload payload_len

-- What the thread's loop does with one datagram.
unfoldable pub receive_datagram : ByteOrder → Layout → State → List ℕ → Option State
receive_datagram o l s bytes =
    if ltb (length bytes) header_size
    then some s
    else let header = to_host_order o (l.header_of (take header_size bytes)) in
      if not (Packet.is_valid header)
      then some s
      else process_packet s header (drop header_size bytes)
          (min (length bytes - header_size) header.payload_len)

-- What `recvfrom` gives: a datagram, a timeout or an interruption, or a failure.
pub data Received : Type 0 where
  bytes : List ℕ → Received
  retry failed : Received

-- The worker's loop. Each entry is one round: the stop flag that it reads, and what `recvfrom` gives.
-- The list ends where the history ends.
unfoldable pub receiver_thread_func :
    ByteOrder → Layout → List (Bool × Received) → State → Option State
receiver_thread_func o l [] s = some s
receiver_thread_func o l ((stop, bytes d) ∷ rounds) s =
    let go_on = receive_datagram o l s d >>= receiver_thread_func o l rounds in
    if stop then some s else go_on
receiver_thread_func o l ((stop, retry) ∷ rounds) s =
    let go_on = receiver_thread_func o l rounds s in if stop then some s else go_on
receiver_thread_func o l ((stop, failed) ∷ rounds) s = some s
