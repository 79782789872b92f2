-- ===== src/Api/Handshake.antt =====
-- sdr-udp/src/sdr_api.cpp: OFFER, CTS and ACCEPT between a call of `sdr_send_post` and one of
-- `sdr_recv_post`.
pub mod Sending
use sdr_rdma_udp.Common.{
  ℕ, ◌+◌, ◌%◌, u32, ◌<◌, ◌≡◌, refl, sym, ap, ◌∙◌, Bool, true, false, not, ◌&&◌, Option, none, some,
  List, [], ◌∷◌, ◌++◌, length, ◌==◌, arith, max, all_from,
}
use sdr_rdma_udp.Control.{ControlMessage, ControlMsgType, ConnectionParams, offer, cts, accept}
use sdr_rdma_udp.Connection.{
  ConnectionContext, MessageContext, Pointer, user, initialize, set_udp_socket,
  allocate_message_slot,
}
use sdr_rdma_udp.Packet.{ByteOrder, Layout}
use sdr_rdma_udp.Receiver.Workers.{UdpReceiver, ChannelCalls, new_receiver, is_ok}
use sdr_rdma_udp.Receiver.Workers.Start.{IsStarted, running, refused, start-IsStarted}
use sdr_rdma_udp.Tcp.{TcpServer, TcpClient, is_some}
use sdr_rdma_udp.Api.Params.{offer_params, negotiate}
use sdr_rdma_udp.Api.Recv.{Endpoint, Posted, allocate_msg_id, recv_setup, post_slot}
use sdr_rdma_udp.Api.Send.{Progress, send_data}
use sdr_rdma_udp.Api.Control.{
  Heard, message, timeout, closed, got, is_offer, is_cts, is_accept, server_wait, client_wait,
  params_message, whole,
}
use sdr_rdma_udp.Api.Post.{
  Peer, RecvCalls, await_accept, send_cts, start_udp, with_slot, with_offer, recv_post_on,
  sdr_recv_post,
}
use sdr_rdma_udp.Api.SendPost.{
  SendResult, SendCalls, send_payload, with_cts, send_post_on, sdr_send_post,
}

-- What a wait passes over: time-outs and messages that it does not want.
abbrev pub is_passed : (ControlMsgType → Bool) → Heard → Bool
is_passed wanted closed = false
is_passed wanted timeout = true
is_passed wanted (message m) = not (wanted m.msg_type)

abbrev pub all_passed : (ControlMsgType → Bool) → List Heard → Bool
all_passed wanted [] = true
all_passed wanted (x ∷ rest) = is_passed wanted x && all_passed wanted rest

module _ (wanted : ControlMsgType → Bool) (m : ControlMessage) (rest : List Heard) where
  server_wait_passes :
      (s : TcpServer) (noise : List Heard)
      → is_some s.client_fd ≡ true
      → all_passed wanted noise ≡ true
      → wanted m.msg_type ≡ true
      → server_wait wanted s (noise ++ (message m ∷ rest)) ≡ (got m, s, rest)
  unfolding server_wait
  server_wait_passes s [] up quiet hit = rw (up, hit) refl
  server_wait_passes s (timeout ∷ noise) up quiet hit =
      rw up (server_wait_passes s noise up quiet hit)
  server_wait_passes s (closed ∷ noise) up quiet hit = cc quiet
  server_wait_passes s (message x ∷ noise) up quiet hit =
      let other : wanted x.msg_type ≡ false = ground arith in
      rw (up, other) (server_wait_passes s noise up (ground arith) hit)

  pub client_wait_passes :
      (c : TcpClient) (noise : List Heard)
      → c.is_connected ≡ true
      → all_passed wanted noise ≡ true
      → wanted m.msg_type ≡ true
      → client_wait wanted c (noise ++ (message m ∷ rest)) ≡ (got m, c, rest)
  unfolding client_wait
  client_wait_passes c [] up quiet hit = rw (up, hit) refl
  client_wait_passes c (timeout ∷ noise) up quiet hit =
      simp up (client_wait_passes c noise up quiet hit)
  client_wait_passes c (closed ∷ noise) up quiet hit = cc quiet
  client_wait_passes c (message x ∷ noise) up quiet hit =
      let other : wanted x.msg_type ≡ false = ground arith in
      simp (up, other) (client_wait_passes c noise up (ground arith) hit)

-- The messages of a handshake.
abbrev pub offer_of : Peer → ℕ → ControlMessage
offer_of s length =
    params_message offer s.endpoint.conn.connection_id (offer_params s.endpoint.conn.params length)

abbrev pub cts_of : Peer → Posted → ControlMessage
cts_of r h = params_message cts r.endpoint.conn.connection_id h.cts_params

abbrev pub accept_of : Peer → Posted → ControlMessage
accept_of r h = params_message accept r.endpoint.conn.connection_id h.cts_params

-- A receiver that has a connection and can post a receive for the offer of the sender: its table has
-- room, and its channels are open or will be.
pub record IsReady (s r : Peer) (calls : RecvCalls) (buffer : Pointer) (size : ℕ) (h : Posted)
    (e : Endpoint) : Type 0 where
  pub server : TcpServer
  pub has_server : r.tcp_server ≡ some server
  pub connected : is_some server.client_fd ≡ true
  pub has_slot :
      recv_setup r.endpoint (offer_params s.endpoint.conn.params size) buffer size ≡ (some h, e)
  pub no_receiver : r.udp_receiver ≡ none
  pub channels_open :
      all_from (λ i. is_ok (calls.channels i)) (max 1 h.cts_params.num_channels) 0 ≡ true
  pub cts_goes_out : calls.cts_sent ≡ true

post_slot-connection_id :
    (e : Endpoint) (msg_id generation : ℕ) (params : ConnectionParams) (buffer : Pointer) (size : ℕ)
    (x : Option MessageContext × ConnectionContext)
    → (post_slot e msg_id generation params buffer size x).1.conn.connection_id ≡ x.1.connection_id
unfolding post_slot
post_slot-connection_id e msg_id generation params buffer size (none, conn) = refl
post_slot-connection_id e msg_id generation params buffer size (some m, conn) = refl

allocate_message_slot-connection_id :
    (c : ConnectionContext) (msg_id generation : ℕ)
    → (allocate_message_slot c msg_id generation).1.connection_id ≡ c.connection_id
unfolding allocate_message_slot
allocate_message_slot-connection_id c msg_id generation = ground arith

-- Setting up a slot keeps the connection's id, which the CTS carries.
recv_setup-connection_id :
    (e : Endpoint) (q : ConnectionParams) (buffer : Pointer) (size : ℕ)
    → (recv_setup e q buffer size).1.conn.connection_id ≡ e.conn.connection_id
unfolding recv_setup allocate_msg_id initialize
recv_setup-connection_id e q buffer size =
    let settled = negotiate e.conn.params q size in
    let id = e.next_msg_id % 1024 in
    let conn = initialize e.conn e.conn.connection_id settled in
    let generation = e.receiver_generation_counter in
    let e2 = record e {
      next_msg_id = (e.next_msg_id + 1) % 1024;
      receiver_generation_counter = u32 (generation + 1);
      conn = conn;
    } in
    post_slot-connection_id e2 id generation (record settled { transfer_id = generation }) buffer
      size (allocate_message_slot conn id generation)
    ∙ allocate_message_slot-connection_id conn id generation

send_cts_lem :
    (calls : RecvCalls) (p : Peer) (s : TcpServer) (h : Posted) (m : ControlMessage)
    (between rest : List Heard)
    → is_some s.client_fd ≡ true
    → calls.cts_sent ≡ true
    → all_passed is_accept between ≡ true
    → is_accept m.msg_type ≡ true
    → send_cts calls p s h (between ++ (message m ∷ rest)) ≡ record {
      status = some true;
      handle = some h;
      peer = record p { tcp_server = some s };
      sent = cts_of p h ∷ [];
      left = rest;
    }
unfolding send_cts await_accept
send_cts_lem calls p s h m between rest up ok quiet hit =
    rw (up, ok, server_wait_passes is_accept m rest s between up quiet hit) refl

started :
    {c : ConnectionContext} {base_port num_channels : ℕ} {calls : ℕ → ChannelCalls}
    {x : Bool × UdpReceiver × ConnectionContext}
    → IsStarted c base_port num_channels calls x
    → all_from (λ i. is_ok (calls i)) (max 1 num_channels) 0 ≡ true
    → (u : UdpReceiver) × (x ≡ (true, u, set_udp_socket c (calls 0).socket))
started (running u ok sized each is_on balance) all = (u, refl)
started (refused u bad i) all = cc (bad, all)

start_udp_lem :
    (calls : RecvCalls) (p : Peer) (s : TcpServer) (h : Posted) (heard : List Heard)
    → all_from (λ i. is_ok (calls.channels i)) (max 1 h.cts_params.num_channels) 0 ≡ true
    → (u : UdpReceiver) × (start_udp calls p s h none heard
        ≡ send_cts calls
            (record p {
              udp_receiver = some u;
              endpoint = record p.endpoint {
                conn = set_udp_socket p.endpoint.conn (calls.channels 0).socket;
              };
            })
            s
            h
            heard)
unfolding start_udp
start_udp_lem calls p s h heard all =
    let x =
      started
        (start-IsStarted new_receiver p.endpoint.conn h.cts_params.channel_base_port
          h.cts_params.num_channels calls.channels
          (record { no_workers = refl; not_running = refl; balance = refl }))
        all in
    (x.0, rw x.1 refl)

-- The receiver's call, where it hears the OFFER and then the ACCEPT.
pub sdr_recv_post_lem :
    {s r : Peer} {calls : RecvCalls} {block size : ℕ} {h : Posted} {e : Endpoint}
    (before between rest : List Heard)
    → 0 < size
    → IsReady s r calls (user block) size h e
    → all_passed is_offer before ≡ true
    → all_passed is_accept between ≡ true
    → let out =
        sdr_recv_post calls r
          (user block)
          size
          (before ++ (message (offer_of s size) ∷ (between ++ (message (accept_of r h) ∷ rest)))) in
      (out.status ≡ some true)
      × (out.handle ≡ some h)
      × (out.sent ≡ cts_of r h ∷ [])
      × (out.left ≡ rest)
      × (out.peer.endpoint ≡ record e { conn = set_udp_socket e.conn (calls.channels 0).socket })
unfolding sdr_recv_post recv_post_on with_offer with_slot set_udp_socket
sdr_recv_post_lem {s} {r} {calls} {block} {size} {h} {e} before between rest pos ready quiet1
      quiet2 =
    let later = between ++ (message (accept_of r h) ∷ rest) in
    let some_size : (size == 0) ≡ false = ground arith in
    let same_id : e.conn.connection_id ≡ r.endpoint.conn.connection_id =
      sym (ap (λ x. x.1.conn.connection_id) ready.has_slot)
      ∙ recv_setup-connection_id r.endpoint (offer_params s.endpoint.conn.params size) (user block)
          size in
    let u =
      start_udp_lem calls (record r { endpoint = e; tcp_server = some ready.server }) ready.server h
        later ready.channels_open in
    let out =
      u.1
      ∙ send_cts_lem calls _ ready.server h (accept_of r h) between rest ready.connected
          ready.cts_goes_out quiet2 refl in
    rw
      (
        some_size,
        ready.has_server,
        server_wait_passes is_offer (offer_of s size) later ready.server before ready.connected
            quiet1 refl,
        ready.has_slot,
        ready.no_receiver,
        out,
      )
      (refl, refl, ap (λ i. params_message cts i h.cts_params ∷ []) same_id, refl, refl)
