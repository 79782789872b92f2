-- ===== src/Tcp/Stream/Messages.antt =====
-- sdr-udp/src/tcp_control.cpp: messages that `send_message` of one endpoint puts on the stream, and the
-- calls of `receive_message` of the other.
use mathlib.Core.List.{append_assoc}
use sdr_rdma_udp.Common.{
  ℕ, zero, suc, ◌≡◌, refl, sym, ap, ◌∙◌, subst, inl, inr, Bool, true, Option, some, List, [], ◌∷◌,
  ◌++◌, map, arith, length, Bool-cases,
}
use sdr_rdma_udp.Control.{ControlMessage, magic_value}
use sdr_rdma_udp.Tcp.{
  MessageLayout, Socket, TcpClient, client_receive, TcpServer, server_receive, server_send,
  client_send, client_put, send_failed, put_message, SendCall, taken, is_some,
}
use sdr_rdma_udp.Tcp.Stream.{take_all, client_receive_lem, server_receive_lem}

-- What the sends of some messages put on the stream, where each send reports success.
pub data Sent (l : MessageLayout) (send : ControlMessage → SendCall → List ℕ × Bool)
    : List ControlMessage → List ℕ → Type 0 where
  nothing : Sent l send [] []
  sent :
      {ms : List ControlMessage} {bs : List ℕ} (m : ControlMessage) (call : SendCall)
      → l.IsMessage m
      → m.magic ≡ magic_value
      → (send m call).1 ≡ true
      → Sent l send ms bs
      → Sent l send (m ∷ ms) ((send m call).0 ++ bs)

-- What `client_send` puts on the stream and reports.
abbrev pub client_sends : MessageLayout → TcpClient → ControlMessage → SendCall → List ℕ × Bool
client_sends l c m call = let r = client_send l c m call in (r.0, r.1.0)

-- `n` calls of `receive_message`, one after the other.
unfoldable pub client_receive_each :
    (k : Socket)
    → MessageLayout
    → TcpClient
    → ℕ
    → k.State
    → (List (Option ControlMessage) × TcpClient) × k.State
client_receive_each k l c zero io = (([], c), io)
client_receive_each k l c (suc n) io =
    let r = client_receive k l c io in
    let rest = client_receive_each k l r.0.1 n r.1 in ((r.0.0 ∷ rest.0.0, rest.0.1), rest.1)

unfoldable pub server_receive_each :
    (k : Socket)
    → MessageLayout
    → TcpServer
    → ℕ
    → k.State
    → (List (Option ControlMessage) × TcpServer) × k.State
server_receive_each k l s zero io = (([], s), io)
server_receive_each k l s (suc n) io =
    let r = server_receive k l s io in
    let rest = server_receive_each k l r.0.1 n r.1 in ((r.0.0 ∷ rest.0.0, rest.0.1), rest.1)

-- A send that reports success has put the whole message on the stream.
put_whole :
    (l : MessageLayout) (m : ControlMessage) (call : SendCall)
    → l.IsMessage m
    → (put_message l m call).1 ≡ true
    → (put_message l m call).0 ≡ l.bytes_of m
unfolding put_message
put_whole l m send_failed fits ok = cc ok
put_whole l m (taken n) fits ok =
    let e : n ≡ l.size = ground arith in
    take_all n (l.bytes_of m) (omega (arith, l.length-bytes_of m fits))

server_send_whole :
    (l : MessageLayout) (s : TcpServer) (m : ControlMessage) (call : SendCall)
    → l.IsMessage m
    → (server_send l s m call).1 ≡ true
    → (server_send l s m call).0 ≡ l.bytes_of m
unfolding server_send
server_send_whole l s m call fits ok = elim (Bool-cases (is_some s.client_fd)) [
  | inl t ↦ rw t (put_whole l m call fits (ground arith))
  | inr f ↦ ground arith
]

client_send_whole :
    (l : MessageLayout) (c : TcpClient) (m : ControlMessage) (call : SendCall)
    → l.IsMessage m
    → (client_sends l c m call).1 ≡ true
    → (client_sends l c m call).0 ≡ l.bytes_of m
unfolding client_send client_put put_message
client_send_whole l c m send_failed fits ok = ground arith
client_send_whole l c m (taken n) fits ok = elim (Bool-cases c.is_connected) [
  | inl t ↦ rw t (put_whole l m (taken n) fits (ground arith))
  | inr f ↦ ground arith
]

-- For a client that is connected, and messages that fit the struct, carry the magic number and are
-- sent by a server with each send_message reporting success: where their bytes and then others are
-- pending on the client's socket, however the system cuts them into pieces, as many calls of
-- receive_message give the messages in order, leave the client as it was, and leave the other bytes
-- pending.
pub client_receive_each-server_send :
    (k : Socket) (l : MessageLayout) (s : TcpServer) (c : TcpClient) (ms : List ControlMessage)
    (bs rest : List ℕ) (io : k.State)
    → Sent l (server_send l s) ms bs
    → c.is_connected ≡ true
    → k.pending io ≡ bs ++ rest
    → ((client_receive_each k l c (length ms) io).0 ≡ (map some ms, c))
      × (k.pending (client_receive_each k l c (length ms) io).1 ≡ rest)
unfolding client_receive_each
client_receive_each-server_send k l s c [] bs rest io nothing up p = (refl, p)
client_receive_each-server_send k l s c (_ ∷ _) _ rest io
      (sent {ms = ms} {bs = later} m call fits magic ok h) up p =
    let here = client_receive_lem k l c m (later ++ rest) io up fits magic (
      p
      ∙ append_assoc (server_send l s m call).0 later rest
      ∙ ap (λ xs. xs ++ (later ++ rest)) (server_send_whole l s m call fits ok)) in
    let later_ones =
      client_receive_each-server_send k l s c ms later rest (client_receive k l c io).1 h up
        here.1 in
    (
      rw (here.0, later_ones.0) refl,
      subst
          (λ (x : Option ControlMessage × TcpClient).
            k.pending (client_receive_each k l x.1 (length ms) (client_receive k l c io).1).1
            ≡ rest)
          (sym here.0) later_ones.1,
    )

-- For a server that has a connection, and messages that fit the struct, carry the magic number and
-- are sent by a client with each send_message reporting success: where their bytes and then others
-- are pending on the server's socket, however the system cuts them into pieces, as many calls of
-- receive_message give the messages in order, leave the server as it was, and leave the other bytes
-- pending.
pub server_receive_each-client_send :
    (k : Socket) (l : MessageLayout) (c : TcpClient) (s : TcpServer) (ms : List ControlMessage)
    (bs rest : List ℕ) (io : k.State)
    → Sent l (client_sends l c) ms bs
    → is_some s.client_fd ≡ true
    → k.pending io ≡ bs ++ rest
    → ((server_receive_each k l s (length ms) io).0 ≡ (map some ms, s))
      × (k.pending (server_receive_each k l s (length ms) io).1 ≡ rest)
unfolding server_receive_each
server_receive_each-client_send k l c s [] bs rest io nothing up p = (refl, p)
server_receive_each-client_send k l c s (_ ∷ _) _ rest io
      (sent {ms = ms} {bs = later} m call fits magic ok h) up p =
    let here = server_receive_lem k l s m (later ++ rest) io up fits magic (
      p
      ∙ append_assoc (client_sends l c m call).0 later rest
      ∙ ap (λ xs. xs ++ (later ++ rest)) (client_send_whole l c m call fits ok)) in
    let later_ones =
      server_receive_each-client_send k l c s ms later rest (server_receive k l s io).1 h up
        here.1 in
    (
      rw (here.0, later_ones.0) refl,
      subst
          (λ (x : Option ControlMessage × TcpServer).
            k.pending (server_receive_each k l x.1 (length ms) (server_receive k l s io).1).1
            ≡ rest)
          (sym here.0) later_ones.1,
    )
