-- ===== src/Api/Handshake/Sending.antt =====
-- sdr-udp/src/sdr_api.cpp: `sdr_send_post` where it hears the CTS.
use sdr_rdma_udp.Common.{
  ℕ, ◌+◌, ◌%◌, ◌<◌, ◌≡◌, refl, true, false, some, List, [], ◌∷◌, ◌++◌, ◌==◌, arith,
}
use sdr_rdma_udp.Connection.{initialize}
use sdr_rdma_udp.Packet.{ByteOrder, Layout}
use sdr_rdma_udp.Tcp.{TcpClient}
use sdr_rdma_udp.Api.Recv.{Posted, allocate_msg_id}
use sdr_rdma_udp.Api.Send.{Progress, send_data}
use sdr_rdma_udp.Api.Control.{Heard, message, is_cts, whole}
use sdr_rdma_udp.Api.Post.{Peer}
use sdr_rdma_udp.Api.SendPost.{
  SendResult, SendCalls, send_payload, with_cts, send_post_on, sdr_send_post,
}
use sdr_rdma_udp.Api.Handshake.{all_passed, client_wait_passes, offer_of, cts_of, accept_of}

-- A sender that has a connection, and whose sends of the handshake go out.
pub record CanSend (s : Peer) (calls : SendCalls) : Type 0 where
  pub client : TcpClient
  pub has_client : s.tcp_client ≡ some client
  pub connected : client.is_connected ≡ true
  pub offer_goes_out : calls.offer_sent ≡ whole
  pub accept_goes_out : calls.accept_sent ≡ whole
  pub has_socket : calls.socket_ok ≡ true
  pub has_address : calls.address_ok ≡ true
  pub sends_data : s.endpoint.conn.auto_send_data ≡ true

-- What the sender's call leaves, where it hears the CTS and its packets can be made.
abbrev pub send_done : Peer → Peer → Posted → TcpClient → ℕ → Progress → List Heard → SendResult
send_done s r h client size pr rest = record {
  status = some true;
  handle = some (record {
    msg_id = s.endpoint.next_msg_id % 1024;
    generation = h.cts_params.transfer_id;
    buffer_size = size;
    packets_sent = pr.packets_sent;
  });
  peer = record s {
    endpoint = record s.endpoint {
      next_msg_id = (s.endpoint.next_msg_id + 1) % 1024;
      conn = record s.endpoint.conn {
        connection_id = r.endpoint.conn.connection_id;
        params = h.cts_params;
        is_initialized = true;
      };
    };
    tcp_client = some client;
  };
  sent = offer_of s size ∷ accept_of r h ∷ [];
  progress = some pr;
  left = rest;
}

pub sdr_send_post_lem :
    (o : ByteOrder) (l : Layout) (s r : Peer) (calls : SendCalls) (h : Posted) (pr : Progress)
    (buffer : List ℕ) (size : ℕ) (before rest : List Heard)
    → 0 < size
    → (can : CanSend s calls) → all_passed is_cts before ≡ true
    → 0 < h.cts_params.mtu_bytes
    → 0 < h.cts_params.packets_per_chunk
    → send_data o l calls.sendto true h.cts_params (s.endpoint.next_msg_id % 1024) buffer size
      ≡ some pr
    → sdr_send_post o l calls s buffer size (before ++ (message (cts_of r h) ∷ rest))
      ≡ some (send_done s r h can.client size pr rest)
unfolding sdr_send_post send_post_on with_cts send_payload allocate_msg_id initialize
sdr_send_post_lem o l s r calls h pr buffer size before rest pos can quiet mtu chunk made =
    let some_size : (size == 0) ≡ false = ground arith in
    let some_mtu : (h.cts_params.mtu_bytes == 0) ≡ false = ground arith in
    let some_chunk : (h.cts_params.packets_per_chunk == 0) ≡ false = ground arith in
    simp
      (
        some_size,
        can.has_client,
        can.connected,
        can.offer_goes_out,
        client_wait_passes is_cts (cts_of r h) rest can.client before can.connected quiet refl,
        can.accept_goes_out,
        some_mtu,
        some_chunk,
        can.has_socket,
        can.has_address,
        can.sends_data,
        made,
      )
      refl
