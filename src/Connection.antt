-- ===== src/Connection.antt =====
-- sdr-udp/include/sdr_connection.h: the table of messages of a connection, and its parameters.
-- The mutex makes each operation one step. A context that `msg_table_` owns is its entry in the
-- table; pointers into it are the message id.

pub mod Sizes
pub mod Slots
pub mod Life
mod Tests
use sdr_rdma_udp.Common.{
  ℕ, suc, ◌+◌, ◌-◌, ◌*◌, ◌/◌, ◌%◌, ◌^◌, ◌≤◌, ◌<◌, ◌≡◌, Bool, true, false, ◌&&◌, ◌||◌, Option, none,
  some, List, [], ◌∷◌, ltb, leb, ◌==◌, if◌then◌else◌, u32, u64,
}
use sdr_rdma_udp.Control.{ConnectionParams, zero_params}
use sdr_rdma_udp.Backend.{BackendBitmap}
use sdr_rdma_udp.Frontend.{FrontendBitmap}

pub data MessageState : Type 0 where
  active completed dead null_state : MessageState

-- `void* buffer`: the null pointer, the start of the user's buffer with that number, or the
-- connection's one-byte sink.
pub data Pointer : Type 0 where
  null null_sink : Pointer
  user : ℕ → Pointer

pub record MessageContext : Type 0 where
  pub msg_id : ℕ
  pub generation : ℕ
  pub state : MessageState
  pub buffer : Pointer
  pub buffer_size : ℕ
  pub total_packets : ℕ
  pub total_chunks : ℕ
  pub packets_per_chunk : ℕ
  pub backend_bitmap : Option BackendBitmap
  pub frontend_bitmap : Option FrontendBitmap
  pub connection_params : ConnectionParams

abbrev pub empty_context : MessageContext
empty_context = record {
  msg_id = 0;
  generation = 0;
  state = null_state;
  buffer = null;
  buffer_size = 0;
  total_packets = 0;
  total_chunks = 0;
  packets_per_chunk = 0;
  backend_bitmap = none;
  frontend_bitmap = none;
  connection_params = zero_params;
}

-- A socket descriptor of -1 is `none`.
pub record ConnectionContext : Type 0 where
  pub connection_id : ℕ
  pub params : ConnectionParams
  pub is_initialized : Bool
  pub auto_send_data : Bool
  pub msg_table : ℕ → Option MessageContext
  pub generation_counters : ℕ → ℕ
  pub tcp_socket_fd : Option ℕ
  pub udp_socket_fd : Option ℕ

abbrev pub max_messages : ℕ
max_messages = 1024

pub new : ConnectionContext
new = record {
  connection_id = 0;
  params = zero_params;
  is_initialized = false;
  auto_send_data = true;
  msg_table = λ _. none;
  generation_counters = λ _. 1;
  tcp_socket_fd = none;
  udp_socket_fd = none;
}

unfoldable pub initialize : ConnectionContext → ℕ → ConnectionParams → ConnectionContext
initialize c connection_id params = record c {
  connection_id = connection_id;
  params = params;
  is_initialized = true;
}

unfoldable pub set_auto_send_data : ConnectionContext → Bool → ConnectionContext
set_auto_send_data c enable = record c { auto_send_data = enable }

unfoldable pub set_udp_socket : ConnectionContext → Option ℕ → ConnectionContext
set_udp_socket c fd = record c { udp_socket_fd = fd }

pub set_tcp_socket : ConnectionContext → Option ℕ → ConnectionContext
set_tcp_socket c fd = record c { tcp_socket_fd = fd }

-- A table with one entry replaced.
abbrev pub update {ℓ} : {A : Type ℓ} → (ℕ → A) → ℕ → A → ℕ → A
update table k v i = if i == k then v else table i

abbrev pub is_active : MessageState → Bool
is_active active = true
is_active _ = false

abbrev pub is_finished : MessageState → Bool
is_finished completed = true
is_finished dead = true
is_finished _ = false

-- The two tests that refuse an occupied slot: a transfer in progress, or a finished one whose
-- generation is not older.
unfoldable pub occupied : Option MessageContext → ℕ → Bool
occupied none generation = false
occupied (some m) generation =
    is_active m.state || (is_finished m.state && leb generation m.generation)

unfoldable pub allocate_message_slot :
    ConnectionContext → ℕ → ℕ → Option MessageContext × ConnectionContext
unfolding occupied
allocate_message_slot c msg_id generation =
    if leb max_messages msg_id
    then (none, c)
    else if occupied (c.msg_table msg_id) generation
    then (none, c)
    else let rotated_gen = c.generation_counters msg_id in
      let fresh : MessageContext = record empty_context {
        msg_id = msg_id;
        generation = rotated_gen;
        state = active;
        connection_params = c.params;
      } in
      (
        some fresh,
        record c {
          msg_table = update c.msg_table msg_id (some fresh);
          generation_counters = update c.generation_counters msg_id (u32 (rotated_gen + 1));
        },
      )

-- A slot whose state is null is no message.
unfoldable pub live : Option MessageContext → Option MessageContext
live none = none
live (some m) = elim m.state [ null_state ↦ none | _ ↦ some m ]

unfoldable pub get_message : ConnectionContext → ℕ → Option MessageContext
unfolding live
get_message c msg_id = if leb max_messages msg_id then none else live (c.msg_table msg_id)

pub release_message : ConnectionContext → ℕ → ConnectionContext
release_message c msg_id =
    if leb max_messages msg_id then c else record c { msg_table = update c.msg_table msg_id none }

unfoldable pub completed_context : MessageContext → MessageContext
completed_context m = record m { state = dead; buffer = null_sink }

pub complete_slot : ConnectionContext → ℕ → Option MessageContext → ConnectionContext
complete_slot c msg_id none = c
complete_slot c msg_id (some m) = record c {
  msg_table = update c.msg_table msg_id (some (completed_context m));
}

pub complete_message : ConnectionContext → ℕ → ConnectionContext
unfolding complete_slot completed_context
complete_message c msg_id =
    if leb max_messages msg_id then c else complete_slot c msg_id (c.msg_table msg_id)

-- Total packets and total chunks. The sums are of 64 bits, the differences too.
unfoldable pub calculate_bitmap_sizes : ℕ → ℕ → ℕ → ℕ × ℕ
calculate_bitmap_sizes total_bytes mtu_bytes packets_per_chunk =
    if (mtu_bytes == 0) || (packets_per_chunk == 0)
    then (0, 0)
    else let total_packets = u64 (total_bytes + mtu_bytes + (2 ^ 64 - 1)) / mtu_bytes in
      (total_packets, u64 (total_packets + packets_per_chunk + (2 ^ 64 - 1)) / packets_per_chunk)
