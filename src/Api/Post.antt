-- ===== src/Api/Post.antt =====
-- sdr-udp/src/sdr_api.cpp: the calls that open and close a connection, `sdr_recv_post` and
-- `sdr_send_post` as a whole. A status is `some true` for 0, `some false` for -1, `none` where the call
-- still waits when the history ends. A null context, connection or handle is not modelled.
use sdr_rdma_udp.Common.{
  ℕ, Bool, true, false, not, ◌||◌, Option, none, some, List, [], ◌∷◌, ◌==◌, if◌then◌else◌,
}
use sdr_rdma_udp.Control.{ControlMessage, ConnectionParams, cts, zero_params}
use sdr_rdma_udp.Connection.{ConnectionContext, Pointer, initialize}
use sdr_rdma_udp.Connection
use sdr_rdma_udp.Receiver.{is_null}
use sdr_rdma_udp.Receiver.Workers.{UdpReceiver, ChannelCalls, new_receiver, start}
use sdr_rdma_udp.Receiver.Workers
use sdr_rdma_udp.Tcp.{
  TcpServer, TcpClient, ListenCalls, new_server, start_listening, close_connection, new_client,
  connect_to_server, disconnect, allocate_id, is_some,
}
use sdr_rdma_udp.Tcp
use sdr_rdma_udp.Api.Recv.{Endpoint, Posted, recv_setup}
use sdr_rdma_udp.Api.Control.{
  Heard, Waited, got, lost, waiting, is_offer, is_accept, server_wait, params_message,
}

-- `SDRConnection` with its context: a receiver has the server, a sender the client.
pub record Peer : Type 0 where
  pub endpoint : Endpoint
  pub udp_receiver : Option UdpReceiver
  pub tcp_server : Option TcpServer
  pub tcp_client : Option TcpClient

-- A connection's context with a new id and no parameters.
abbrev pub fresh_context : ℕ → ConnectionContext
fresh_context connection_id = initialize Connection.new connection_id zero_params

-- `sdr_listen`, with the counters of the process's context; the last number is the next connection id.
unfoldable pub sdr_listen : Endpoint → ℕ → ListenCalls → ℕ → Option Peer × ℕ
sdr_listen e tcp_port calls next_id =
    let r = start_listening new_server tcp_port calls in
    let id = allocate_id next_id in
    if not r.0 then (none, next_id) else (
      some (record {
        endpoint = record e { conn = fresh_context id.0 };
        udp_receiver = none;
        tcp_server = some r.1;
        tcp_client = none;
      }),
      id.1,
    )

unfoldable pub sdr_connect : Endpoint → Option ℕ → Bool → Bool → ℕ → Option Peer × ℕ
sdr_connect e socket address_ok connect_ok next_id =
    let r = connect_to_server new_client socket address_ok connect_ok in
    let id = allocate_id next_id in
    if not r.0 then (none, next_id) else (
      some (record {
        endpoint = record e { conn = fresh_context id.0 };
        udp_receiver = none;
        tcp_server = none;
        tcp_client = some r.1;
      }),
      id.1,
    )

-- `sdr_disconnect`: what becomes of the sockets' owners.
unfoldable pub sdr_disconnect : Peer → Option UdpReceiver × Option TcpServer × Option TcpClient
sdr_disconnect p = (
  elim p.udp_receiver [ none ↦ none | some r ↦ some (Workers.stop r) ],
  elim p.tcp_server [ none ↦ none | some s ↦ some (Tcp.stop (close_connection s)) ],
  elim p.tcp_client [ none ↦ none | some c ↦ some (disconnect c) ],
)

unfoldable pub sdr_set_params : Peer → ConnectionParams → Peer
sdr_set_params p params = record p {
  endpoint = record p.endpoint {
    conn = initialize p.endpoint.conn p.endpoint.conn.connection_id params;
  };
}

-- What a call of `sdr_recv_post` leaves: its status, the handle, the connection, the control messages
-- that it sent, and what is left to be heard.
pub record RecvResult : Type 0 where
  pub status : Option Bool
  pub handle : Option Posted
  pub peer : Peer
  pub sent : List ControlMessage
  pub left : List Heard

-- What the system answers during `sdr_recv_post`.
pub record RecvCalls : Type 0 where
  pub channels : ℕ → ChannelCalls
  pub cts_sent : Bool

abbrev pub status_of : Waited → Option Bool
status_of (got m) = some true
status_of lost = some false
status_of waiting = none

-- The wait for ACCEPT, once the handle is given and the CTS is sent.
unfoldable pub await_accept :
    Peer → TcpServer → Posted → List ControlMessage → List Heard → RecvResult
await_accept p s h sent heard =
    let w = server_wait is_accept s heard in
    record {
      status = status_of w.0;
      handle = some h;
      peer = record p { tcp_server = some w.1 };
      sent = sent;
      left = w.2;
    }

abbrev pub recv_failed : Option Posted → Peer → List Heard → RecvResult
recv_failed h p heard = record {
  status = some false;
  handle = h;
  peer = p;
  sent = [];
  left = heard;
}

unfoldable pub send_cts : RecvCalls → Peer → TcpServer → Posted → List Heard → RecvResult
unfolding await_accept
send_cts calls p s h heard =
    if not (is_some s.client_fd)
    then await_accept p s h [] heard
    else if calls.cts_sent
    then await_accept p s h (params_message cts p.endpoint.conn.connection_id h.cts_params ∷ [])
        heard
    else recv_failed (some h) p heard

-- The UDP receiver is started by the first call that gets here.
unfoldable pub start_udp :
    RecvCalls → Peer → TcpServer → Posted → Option UdpReceiver → List Heard → RecvResult
unfolding send_cts
start_udp calls p s h (some r) heard = send_cts calls p s h heard
start_udp calls p s h none heard =
    let (ok, r, conn) =
      start new_receiver p.endpoint.conn h.cts_params.channel_base_port h.cts_params.num_channels
        calls.channels in
    let p' = record p { udp_receiver = some r; endpoint = record p.endpoint { conn = conn } } in
    if ok then send_cts calls p' s h heard else recv_failed (some h) p' heard

unfoldable pub with_slot : RecvCalls → Peer → TcpServer → Option Posted → List Heard → RecvResult
unfolding start_udp
with_slot calls p s none heard = recv_failed none p heard
with_slot calls p s (some h) heard = start_udp calls p s h p.udp_receiver heard

-- The rest of the call once the wait for OFFER is over.
unfoldable pub with_offer :
    RecvCalls → Peer → TcpServer → Pointer → ℕ → Waited → List Heard → RecvResult
unfolding with_slot
with_offer calls p s buffer length (got m) heard =
    let (h, e) = recv_setup p.endpoint m.params buffer length in
    with_slot calls (record p { endpoint = e; tcp_server = some s }) s h heard
with_offer calls p s buffer length lost heard =
    recv_failed none (record p { tcp_server = some s }) heard
with_offer calls p s buffer length waiting heard = record {
  status = none;
  handle = none;
  peer = record p { tcp_server = some s };
  sent = [];
  left = heard;
}

unfoldable pub recv_post_on :
    RecvCalls → Peer → Option TcpServer → Pointer → ℕ → List Heard → RecvResult
unfolding with_offer
recv_post_on calls p none buffer length heard = recv_failed none p heard
recv_post_on calls p (some s) buffer length heard =
    let w = server_wait is_offer s heard in with_offer calls p w.1 buffer length w.0 w.2

unfoldable pub sdr_recv_post : RecvCalls → Peer → Pointer → ℕ → List Heard → RecvResult
unfolding recv_post_on
sdr_recv_post calls p buffer length heard =
    if is_null buffer || (length == 0)
    then recv_failed none p heard
    else recv_post_on calls p p.tcp_server buffer length heard
