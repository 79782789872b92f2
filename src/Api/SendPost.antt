-- ===== src/Api/SendPost.antt =====
-- sdr-udp/src/sdr_api.cpp: `sdr_send_post` as a whole. The outer `none` is undefined behaviour in the
-- loop over the packets.
use sdr_rdma_udp.Common.{
  ℕ, Bool, true, false, not, ◌&&◌, ◌||◌, Option, none, some, List, [], ◌∷◌, ◌==◌, if◌then◌else◌,
  ◌>>=◌,
}
use sdr_rdma_udp.Control.{ControlMessage, ConnectionParams, offer, accept}
use sdr_rdma_udp.Connection.{initialize}
use sdr_rdma_udp.Packet.{ByteOrder, Layout}
use sdr_rdma_udp.Tcp.{TcpClient}
use sdr_rdma_udp.Api.Params.{offer_params}
use sdr_rdma_udp.Api.Recv.{allocate_msg_id}
use sdr_rdma_udp.Api.Send.{Progress, send_data}
use sdr_rdma_udp.Api.Control.{
  Heard, Waited, got, lost, waiting, is_cts, client_wait, params_message, Sending, client_sending,
}
use sdr_rdma_udp.Api.Post.{Peer}

-- `SDRSendHandle`
pub record SendHandle : Type 0 where
  pub msg_id : ℕ
  pub generation : ℕ
  pub buffer_size : ℕ
  pub packets_sent : ℕ

-- What a call leaves: the status, the handle, the connection, the control messages and what the loop
-- over the packets did, if it was reached, and what is left to be heard.
pub record SendResult : Type 0 where
  pub status : Option Bool
  pub handle : Option SendHandle
  pub peer : Peer
  pub sent : List ControlMessage
  pub progress : Option Progress
  pub left : List Heard

-- What the system answers: to the two sends, to `socket` and `inet_pton`, and to each `sendto`.
pub record SendCalls : Type 0 where
  pub offer_sent : Sending
  pub accept_sent : Sending
  pub socket_ok : Bool
  pub address_ok : Bool
  pub sendto : ℕ → Bool

abbrev pub send_stopped : Option Bool → Peer → List ControlMessage → List Heard → SendResult
send_stopped status p sent heard = record {
  status = status;
  handle = none;
  peer = p;
  sent = sent;
  progress = none;
  left = heard;
}

-- The data phase. Where the socket or the address fails the handle is deleted.
unfoldable pub send_payload :
    ByteOrder
    → Layout
    → SendCalls
    → Peer
    → ConnectionParams
    → List ℕ
    → ℕ
    → List ControlMessage
    → List Heard
    → Option SendResult
send_payload o l calls p0 params buffer length sent heard =
    let (msg_id, e) = allocate_msg_id p0.endpoint in
    let p = record p0 { endpoint = e } in
    if not (calls.socket_ok && calls.address_ok)
    then some (send_stopped (some false) p sent heard)
    else (send_data o l calls.sendto e.conn.auto_send_data params msg_id buffer length
        >>= λ progress. some (record {
          status = some true;
          handle = some (record {
            msg_id = msg_id;
            generation = params.transfer_id;
            buffer_size = length;
            packets_sent = progress.packets_sent;
          });
          peer = p;
          sent = sent;
          progress = some progress;
          left = heard;
        }))

-- The rest of the call once the wait for CTS is over, with the OFFER that was sent.
unfoldable pub with_cts :
    ByteOrder
    → Layout
    → SendCalls
    → Peer
    → TcpClient
    → List ℕ
    → ℕ
    → ControlMessage
    → Waited
    → List Heard
    → Option SendResult
unfolding send_payload
with_cts o l calls p c buffer length asked lost heard =
    some (send_stopped (some false) (record p { tcp_client = some c }) (asked ∷ []) heard)
with_cts o l calls p c buffer length asked waiting heard =
    some (send_stopped none (record p { tcp_client = some c }) (asked ∷ []) heard)
with_cts o l calls p0 c buffer length asked (got m) heard =
    let answered = client_sending c calls.accept_sent in
    let p = record p0 {
      endpoint = record p0.endpoint { conn = initialize p0.endpoint.conn m.connection_id m.params };
      tcp_client = some answered.1;
    } in
    let sent : List ControlMessage =
      if answered.0
      then asked ∷ params_message accept m.connection_id m.params ∷ []
      else asked ∷ [] in
    if (m.params.mtu_bytes == 0) || (m.params.packets_per_chunk == 0)
    then some (send_stopped (some false) p sent heard)
    else send_payload o l calls p m.params buffer length sent heard

unfoldable pub send_post_on :
    ByteOrder
    → Layout
    → SendCalls
    → Peer
    → Option TcpClient
    → List ℕ
    → ℕ
    → List Heard
    → Option SendResult
unfolding with_cts
send_post_on o l calls p none buffer length heard = some (send_stopped (some false) p [] heard)
send_post_on o l calls p (some c) buffer length heard =
    let conn = p.endpoint.conn in
    let asked = params_message offer conn.connection_id (offer_params conn.params length) in
    let asking = client_sending c calls.offer_sent in
    let w = client_wait is_cts c heard in
    if not c.is_connected
    then some (send_stopped (some false) p [] heard)
    else if not asking.0
    then some (send_stopped (some false) (record p { tcp_client = some asking.1 }) [] heard)
    else with_cts o l calls p w.1 buffer length asked w.0 w.2

unfoldable pub sdr_send_post :
    ByteOrder → Layout → SendCalls → Peer → List ℕ → ℕ → List Heard → Option SendResult
unfolding send_post_on
sdr_send_post o l calls p buffer length heard =
    if length == 0
    then some (send_stopped (some false) p [] heard)
    else send_post_on o l calls p p.tcp_client buffer length heard
