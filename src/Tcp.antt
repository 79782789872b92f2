-- ===== src/Tcp.antt =====
-- sdr-udp/src/tcp_control.cpp: the two endpoints of the control connection. A descriptor of -1 is
-- `none`. What the system answers to a call is an input of the operation; `opened` and `closed` count
-- the descriptors that the system has given and taken back.
pub mod Stream
pub mod Descriptors
mod Tests
use sdr_rdma_udp.Common.{
  ℕ, zero, suc, ◌+◌, ◌-◌, ◌^◌, ◌≤◌, ◌<◌, ◌≡◌, Bool, true, false, not, ◌&&◌, Option, none, some,
  List, [], ◌∷◌, ◌++◌, ltb, leb, ◌==◌, if◌then◌else◌, length, take, drop, u32,
}
use sdr_rdma_udp.Control.{ControlMessage, magic_value}

-- The bytes of the struct in memory, as the compiler lays it out, for the messages that fit it.
pub record MessageLayout : Type 1 where
  pub size : ℕ
  pub IsMessage : ControlMessage → Type 0
  pub bytes_of : ControlMessage → List ℕ
  pub message_of : List ℕ → ControlMessage
  pub size_pos : 0 < size
  pub length-bytes_of : (m : ControlMessage) → IsMessage m → length (bytes_of m) ≡ size
  pub message_of-bytes_of : (m : ControlMessage) → IsMessage m → message_of (bytes_of m) ≡ m

-- `deserialize` from a buffer: the message, if its magic number is right.
unfoldable pub deserialize : MessageLayout → List ℕ → Option ControlMessage
deserialize l buffer =
    if ltb (length buffer) l.size
    then none
    else let msg = l.message_of (take l.size buffer) in
      if msg.magic == magic_value then some msg else none

-- `serialize` into a buffer of a size: `none` is the result 0.
unfoldable pub serialize : MessageLayout → ControlMessage → ℕ → Option (List ℕ)
serialize l msg buffer_size = if ltb buffer_size l.size then none else some (l.bytes_of msg)

-- What one `recv` answers: bytes, EAGAIN, or 0 or another error.
pub data Received : Type 0 where
  bytes : List ℕ → Received
  again hung_up : Received

-- A connected socket, and what the loop relies on: `recv n` answers bytes, `n` at most, as long as
-- some are pending, and takes them off the front.
pub record Socket : Type 1 where
  pub State : Type 0
  pub recv : ℕ → State → Received × State
  -- The bytes that are there before the next time-out or the end.
  pub pending : State → List ℕ
  pub length-recv :
      (n : ℕ) (s : State) (bs : List ℕ)
      → (recv n s).0 ≡ bytes bs
      → (0 < length bs) × (length bs ≤ n)
  pub pending-recv :
      (n : ℕ) (s : State) (bs : List ℕ)
      → (recv n s).0 ≡ bytes bs
      → pending s ≡ bs ++ pending (recv n s).1
  pub recv_pending :
      (n : ℕ) (s : State)
      → 0 < n
      → 0 < length (pending s)
      → (bs : List ℕ) × ((recv n s).0 ≡ bytes bs)

-- How the loop of `receive_message` ends.
pub data LoopEnd : Type 0 where
  full : List ℕ → LoopEnd
  timed_out disconnected out_of_fuel : LoopEnd

-- The loop, with the bytes that it has.
unfoldable pub recv_loop : (k : Socket) → ℕ → ℕ → List ℕ → k.State → LoopEnd × k.State
recv_loop k size zero got s = if leb size (length got) then (full got, s) else (out_of_fuel, s)
recv_loop k size (suc fuel) got s =
    let r = k.recv (size - length got) s in
    let next : LoopEnd × k.State = elim r.0 [
      | bytes bs ↦ recv_loop k size fuel (got ++ bs) r.1
      | again ↦ (timed_out, r.1)
      | hung_up ↦ (disconnected, r.1)
    ] in
    if leb size (length got) then (full got, s) else next

-- `TCPControlServer`
pub record TcpServer : Type 0 where
  pub listen_fd : Option ℕ
  pub client_fd : Option ℕ
  pub listen_port : ℕ
  pub is_listening : Bool
  pub opened : ℕ
  pub closed_count : ℕ

abbrev pub new_server : TcpServer
new_server = record {
  listen_fd = none;
  client_fd = none;
  listen_port = 0;
  is_listening = false;
  opened = 0;
  closed_count = 0;
}

-- What the system answers to the calls of `start_listening`.
pub record ListenCalls : Type 0 where
  pub socket : Option ℕ
  pub setsockopt_ok : Bool
  pub bind_ok : Bool
  pub listen_ok : Bool

unfoldable pub listen_with : TcpServer → ℕ → Option ℕ → Bool → Bool × TcpServer
listen_with s port none ready = (false, record s { listen_fd = none })
listen_with s port (some fd) ready =
    if ready
    then (
      true,
      record s {
        listen_fd = some fd;
        listen_port = port;
        is_listening = true;
        opened = s.opened + 1;
      },
    )
    else (
      false,
      record s { listen_fd = none; opened = s.opened + 1; closed_count = s.closed_count + 1 },
    )

unfoldable pub start_listening : TcpServer → ℕ → ListenCalls → Bool × TcpServer
unfolding listen_with
start_listening s port calls =
    if s.is_listening
    then (false, s)
    else listen_with s port calls.socket (calls.setsockopt_ok && calls.bind_ok && calls.listen_ok)

-- One more descriptor closed, if there is one.
abbrev pub close_held : Option ℕ → ℕ → ℕ
close_held none count = count
close_held (some fd) count = count + 1

abbrev pub is_some : Option ℕ → Bool
is_some none = false
is_some (some fd) = true

-- `accept` is the system's answer: a connection, or none.
unfoldable pub accept_connection : TcpServer → Option ℕ → Bool × TcpServer
accept_connection s accept = if not s.is_listening then (false, s) else (
  is_some accept,
  record s {
    client_fd = accept;
    opened = (if is_some accept then s.opened + 1 else s.opened);
    closed_count = close_held s.client_fd s.closed_count;
  },
)

unfoldable pub close_connection : TcpServer → TcpServer
close_connection s = record s {
  client_fd = none;
  closed_count = close_held s.client_fd s.closed_count;
}

unfoldable pub stop : TcpServer → TcpServer
unfolding close_connection
stop s0 =
    let s = close_connection s0 in
    record s {
      listen_fd = none;
      closed_count = close_held s.listen_fd s.closed_count;
      is_listening = false;
      listen_port = 0;
    }

-- The end of `receive_message`: the message if there is a valid one, and the server.
unfoldable pub server_end : MessageLayout → TcpServer → LoopEnd → Option ControlMessage × TcpServer
unfolding close_connection
server_end l s (full got) = (deserialize l got, s)
server_end l s disconnected = (none, close_connection s)
server_end l s timed_out = (none, s)
server_end l s out_of_fuel = (none, s)

-- The loop makes `size` rounds at most.
unfoldable pub server_receive :
    (k : Socket)
    → MessageLayout
    → TcpServer
    → k.State
    → (Option ControlMessage × TcpServer) × k.State
server_receive k l s io =
    let r = recv_loop k l.size l.size [] io in
    if not (is_some s.client_fd) then ((none, s), io) else (server_end l s r.0, r.1)

-- What `send` takes of the bytes, or its failure.
pub data SendCall : Type 0 where
  taken : ℕ → SendCall
  send_failed : SendCall

-- The bytes that go out, and whether `send_message` succeeds.
unfoldable pub put_message : MessageLayout → ControlMessage → SendCall → List ℕ × Bool
put_message l msg send_failed = ([], false)
put_message l msg (taken n) = (take n (l.bytes_of msg), n == l.size)

unfoldable pub server_send : MessageLayout → TcpServer → ControlMessage → SendCall → List ℕ × Bool
unfolding put_message
server_send l s msg call = if not (is_some s.client_fd) then ([], false) else put_message l msg call

-- `TCPControlClient`
pub record TcpClient : Type 0 where
  pub socket_fd : Option ℕ
  pub is_connected : Bool
  pub opened : ℕ
  pub closed_count : ℕ

abbrev pub new_client : TcpClient
new_client = record { socket_fd = none; is_connected = false; opened = 0; closed_count = 0 }

unfoldable pub disconnect : TcpClient → TcpClient
disconnect c = record c {
  socket_fd = none;
  is_connected = false;
  closed_count = close_held c.socket_fd c.closed_count;
}

unfoldable pub connect_with : TcpClient → Option ℕ → Bool → Bool × TcpClient
connect_with c none ready = (false, record c { socket_fd = none })
connect_with c (some fd) ready =
    if ready
    then (true, record c { socket_fd = some fd; is_connected = true; opened = c.opened + 1 })
    else (
      false,
      record c { socket_fd = none; opened = c.opened + 1; closed_count = c.closed_count + 1 },
    )

-- `address_ok` and `connect_ok` are what `inet_pton` and `connect` answer.
unfoldable pub connect_to_server : TcpClient → Option ℕ → Bool → Bool → Bool × TcpClient
unfolding disconnect connect_with
connect_to_server c socket address_ok connect_ok =
    connect_with (if c.is_connected then disconnect c else c) socket (address_ok && connect_ok)

unfoldable pub client_end : MessageLayout → TcpClient → LoopEnd → Option ControlMessage × TcpClient
client_end l c (full got) = (deserialize l got, c)
client_end l c disconnected = (none, record c { is_connected = false })
client_end l c timed_out = (none, c)
client_end l c out_of_fuel = (none, c)

unfoldable pub client_receive :
    (k : Socket)
    → MessageLayout
    → TcpClient
    → k.State
    → (Option ControlMessage × TcpClient) × k.State
client_receive k l c io =
    let r = recv_loop k l.size l.size [] io in
    if not c.is_connected then ((none, c), io) else (client_end l c r.0, r.1)

unfoldable pub client_put :
    MessageLayout → TcpClient → ControlMessage → SendCall → List ℕ × (Bool × TcpClient)
client_put l c msg send_failed = ([], (false, record c { is_connected = false }))
client_put l c msg (taken n) = (take n (l.bytes_of msg), (n == l.size, c))

unfoldable pub client_send :
    MessageLayout → TcpClient → ControlMessage → SendCall → List ℕ × (Bool × TcpClient)
unfolding client_put
client_send l c msg call = if not c.is_connected then ([], (false, c)) else client_put l c msg call

-- `ConnectionIDAllocator::allocate`: the id, and the counter after it.
unfoldable pub allocate_id : ℕ → ℕ × ℕ
allocate_id next_id = (next_id, u32 (next_id + 1))
