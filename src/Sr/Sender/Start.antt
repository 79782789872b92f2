-- ===== src/Sr/Sender/Start.antt =====
-- sdr-udp/reliability/sr.cpp: `SRSender::start_send` as a whole, and `SRReceiver::post_receive`.
use sdr_rdma_udp.Common.{ℕ, Bool, true, false, Option, none, some, List, ◌>>=◌, if◌then◌else◌}
use sdr_rdma_udp.Packet.{ByteOrder, Layout}
use sdr_rdma_udp.Connection.{Pointer, set_auto_send_data}
use sdr_rdma_udp.Api.Control.{Heard}
use sdr_rdma_udp.Api.Post.{Peer, RecvCalls, RecvResult, sdr_recv_post}
use sdr_rdma_udp.Api.SendPost.{SendCalls, SendHandle, SendResult, sdr_send_post}
use sdr_rdma_udp.Sr.Report.{SrConfig, SrStats}
use sdr_rdma_udp.Sr.Sender.{SrSender, Link}
use sdr_rdma_udp.Sr.Sender.Poll.{start_send}

-- `set_auto_send_data` of the connection.
unfoldable pub auto_send : Peer → Bool → Peer
auto_send p enable = record p {
  endpoint = record p.endpoint { conn = set_auto_send_data p.endpoint.conn enable };
}

-- What the call leaves: its status as in Api, the connection, and the sender once it has started.
pub record Begun : Type 0 where
  pub status : Option Bool
  pub peer : Peer
  pub sender : Option SrSender

abbrev pub not_begun : Option Bool → Peer → Begun
not_begun status p = record { status = status; peer = p; sender = none }

-- The sender of a handle, on the parameters that the connection has by then. `none` is undefined behaviour,
-- as where there is no handle.
unfoldable pub start_handle :
    ByteOrder
    → Layout
    → SrConfig
    → ℕ
    → Bool
    → SrStats
    → List ℕ
    → ℕ
    → Peer
    → Option SendHandle
    → Option Begun
unfolding start_send
start_handle o l cfg now can_send stats buffer length p none = none
start_handle o l cfg now can_send stats buffer length p (some h) =
    let k : Link = record {
      order = o;
      layout = l;
      params = p.endpoint.conn.params;
      can_send = can_send;
    } in
    start_send k cfg now h.msg_id buffer length stats >>= λ s.
    some (record { status = some true; peer = p; sender = some s })

unfoldable pub after_post :
    ByteOrder → Layout → SrConfig → ℕ → Bool → SrStats → List ℕ → ℕ → SendResult → Option Begun
unfolding start_handle auto_send
after_post o l cfg now can_send stats buffer length r =
    let started =
      start_handle o l cfg now can_send stats buffer length (auto_send r.peer true) r.handle in
    elim r.status [
      | none ↦ some (not_begun none r.peer)
      | some ok ↦ if ok then started else some (not_begun (some false) (auto_send r.peer true))
    ]

-- `SRSender::start_send`: the handshake of `sdr_send_post` with the sending of data switched off, and then
-- the first window.
unfoldable pub post_and_start :
    ByteOrder
    → Layout
    → SendCalls
    → SrConfig
    → ℕ
    → Bool
    → SrStats
    → Peer
    → List ℕ
    → ℕ
    → List Heard
    → Option Begun
unfolding after_post auto_send
post_and_start o l calls cfg now can_send stats p buffer length heard =
    sdr_send_post o l calls (auto_send p false) buffer length heard
    >>= after_post o l cfg now can_send stats buffer length

-- `SRReceiver::post_receive`
abbrev pub sr_post_receive : RecvCalls → Peer → Pointer → ℕ → List Heard → RecvResult
sr_post_receive = sdr_recv_post
