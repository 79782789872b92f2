-- ===== src/Api/Control.antt =====
-- sdr-udp/src/sdr_api.cpp: the control messages that the calls of the API build, send and wait for.
-- What `receive_message` gives to each call of it is an input; Tcp has how it gets there.
use sdr_rdma_udp.Common.{ℕ, Bool, true, false, not, List, [], ◌∷◌, replicate, if◌then◌else◌}
use sdr_rdma_udp.Control.{
  ControlMessage, ControlMsgType, ConnectionParams, offer, cts, accept, magic_value,
}
use sdr_rdma_udp.Tcp.{TcpServer, TcpClient, is_some, close_connection}

-- What `receive_message` gives: a message; false, for a time-out or a message that is not valid; false
-- with the connection gone.
pub data Heard : Type 0 where
  message : ControlMessage → Heard
  timeout closed : Heard

-- How a loop that waits for a message ends; `waiting` where the history ends first.
pub data Waited : Type 0 where
  got : ControlMessage → Waited
  lost waiting : Waited

abbrev pub is_offer : ControlMsgType → Bool
is_offer offer = true
is_offer _ = false

abbrev pub is_cts : ControlMsgType → Bool
is_cts cts = true
is_cts _ = false

abbrev pub is_accept : ControlMsgType → Bool
is_accept accept = true
is_accept _ = false

-- The receiver's loop: messages of other types are skipped.
unfoldable pub server_wait :
    (ControlMsgType → Bool) → TcpServer → List Heard → Waited × TcpServer × List Heard
server_wait wanted s [] = if is_some s.client_fd then (waiting, s, []) else (lost, s, [])
server_wait wanted s (message m ∷ rest) =
    let later = server_wait wanted s rest in
    if not (is_some s.client_fd)
    then (lost, s, message m ∷ rest)
    else if wanted m.msg_type
    then (got m, s, rest)
    else later
server_wait wanted s (timeout ∷ rest) =
    let later = server_wait wanted s rest in
    if not (is_some s.client_fd) then (lost, s, timeout ∷ rest) else later
server_wait wanted s (closed ∷ rest) =
    if not (is_some s.client_fd) then (lost, s, closed ∷ rest) else (lost, close_connection s, rest)

-- The sender's loop.
unfoldable pub client_wait :
    (ControlMsgType → Bool) → TcpClient → List Heard → Waited × TcpClient × List Heard
client_wait wanted c [] = if c.is_connected then (waiting, c, []) else (lost, c, [])
client_wait wanted c (message m ∷ rest) =
    let later = client_wait wanted c rest in
    if not c.is_connected
    then (lost, c, message m ∷ rest)
    else if wanted m.msg_type
    then (got m, c, rest)
    else later
client_wait wanted c (timeout ∷ rest) =
    let later = client_wait wanted c rest in
    if not c.is_connected then (lost, c, timeout ∷ rest) else later
client_wait wanted c (closed ∷ rest) =
    if not c.is_connected
    then (lost, c, closed ∷ rest)
    else (lost, record c { is_connected = false }, rest)

-- A message that only carries parameters; the receiver of it reads no other field.
abbrev pub params_message : ControlMsgType → ℕ → ConnectionParams → ControlMessage
params_message msg_type connection_id params = record {
  magic = magic_value;
  msg_type = msg_type;
  connection_id = connection_id;
  params = params;
  chunk_bitmap_words = 0;
  chunk_bitmap = replicate 16 0;
  num_gaps = 0;
  gap_start = replicate 16 0;
  gap_len = replicate 16 0;
}

-- What the system makes of the client's `send`.
pub data Sending : Type 0 where
  whole partial failed : Sending

-- `send_message` of the client: whether it succeeds, and the client after.
abbrev pub client_sending : TcpClient → Sending → Bool × TcpClient
client_sending c whole = (true, c)
client_sending c partial = (false, c)
client_sending c failed = (false, record c { is_connected = false })
