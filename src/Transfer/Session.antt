-- ===== src/Transfer/Session.antt =====
-- A message from one call of `sdr_send_post` to one of `sdr_recv_post`, sdr-udp/src/sdr_api.cpp: the
-- handshake of the two, the datagrams of the one, and the workers of the other.
use sdr_rdma_udp.Common.{
  ℕ, ◌+◌, ◌%◌, ◌≤◌, ◌<◌, ◌≡◌, refl, sym, ap, ◌∙◌, subst, Bool, true, Option, none, some, List, [],
  ◌∷◌, ◌++◌, length, take, get_elem?, ◌>>=◌, arith, all_from,
}
use sdr_rdma_udp.Control.{ConnectionParams}
use sdr_rdma_udp.Connection.{ConnectionContext, user, set_udp_socket}
use sdr_rdma_udp.Packet.{ByteOrder, Layout, datagram}
use sdr_rdma_udp.Receiver.{State, receive_datagram}
use sdr_rdma_udp.Receiver.Blocks.{Memory}
use sdr_rdma_udp.Api.Params.{offer_params, negotiate-IsFilledIn}
use sdr_rdma_udp.Api.Recv.{Endpoint, Posted}
use sdr_rdma_udp.Api.Recv.Slot.{IsPosted, recv_setup-IsPosted}
use sdr_rdma_udp.Api.Send.{Sent, Progress, send_data}
use sdr_rdma_udp.Api.Control.{Heard, message, is_offer, is_cts, is_accept}
use sdr_rdma_udp.Api.Post.{Peer, RecvCalls, RecvResult, sdr_recv_post}
use sdr_rdma_udp.Api.SendPost.{SendCalls, SendResult, sdr_send_post}
use sdr_rdma_udp.Api.Handshake.{IsReady, all_passed, offer_of, cts_of, accept_of, sdr_recv_post_lem}
use sdr_rdma_udp.Api.Handshake.Sending.{CanSend, send_done, sdr_send_post_lem}
use sdr_rdma_udp.Transfer.{Transfer, IsTransfer, IsReceiving, packet_count}
use sdr_rdma_udp.Transfer.Packets.{Agrees, packet_of}
use sdr_rdma_udp.Transfer.Deliver.{All, among, receive_all}
use sdr_rdma_udp.Transfer.Complete.{message_delivered}
use sdr_rdma_udp.Transfer.Start.{transfer_of, posted-IsReceiving}
use sdr_rdma_udp.Transfer.Sending.{taken_from, progress_of, send_data_lem, get_elem?-taken_from}

-- A worker gets entry `i` of the datagrams that were sent, for each `i` of the list in turn.
abbrev receive_one : ByteOrder → Layout → Option Sent → State → Option State
receive_one o l none s = some s
receive_one o l (some d) s = receive_datagram o l s d.bytes

unfoldable pub receive_sent : ByteOrder → Layout → List Sent → List ℕ → State → Option State
receive_sent o l sent [] s = some s
receive_sent o l sent (i ∷ is) s = receive_one o l (get_elem? sent i) s >>= receive_sent o l sent is

receive_sent_lem :
    (o : ByteOrder) (l : Layout) (sendto : ℕ → Bool) (t : Transfer) (p : ConnectionParams)
    (is : List ℕ) (s : State)
    → ((i : ℕ) → sendto i ≡ true)
    → All (λ i. i < packet_count t) is
    → receive_sent o l (taken_from o l sendto t p (packet_count t) 0) is s ≡ receive_all o l t is s
unfolding receive_sent receive_all
receive_sent_lem o l sendto t p [] s all below = refl
receive_sent_lem o l sendto t p (i ∷ is) s all below =
    let same : 0 + i ≡ i = omega arith in
    rw (get_elem?-taken_from o l sendto t p (packet_count t) 0 i all below.0, same)
      (λ k. receive_datagram o l s (datagram o l (packet_of t i)) >>= λ x.
        receive_sent_lem o l sendto t p is x all below.1 k)

IsReceiving-set_udp_socket :
    {t : Transfer} {c : ConnectionContext} {memory : Memory} (fd : Option ℕ)
    → IsReceiving t (record { conn = c; memory = memory })
    → IsReceiving t (record { conn = set_udp_socket c fd; memory = memory })
unfolding set_udp_socket
IsReceiving-set_udp_socket fd r = record {
  context = r.context;
  bitmap = r.bitmap;
  in_slot = r.in_slot;
  is_active = r.is_active;
  same_generation = r.same_generation;
  has_bitmap = r.has_bitmap;
  to_block = r.to_block;
  sized = r.sized;
  has_room = r.has_room;
  same_mtu = r.same_mtu;
  valid = r.valid;
  counted = r.counted;
  copied = r.copied;
}

-- What the two calls leave, with the control messages that each side heard, and what the workers make
-- of the datagrams.
pub record IsDone (o : ByteOrder) (l : Layout) (s r : Peer) (h : Posted) (content : List ℕ)
    (block : ℕ) (memory : Memory) (is : List ℕ) (got : RecvResult) (answer : Option SendResult)
    : Type 0 where
  pub received : got.status ≡ some true
  pub handle : got.handle ≡ some h
  pub cts_sent : got.sent ≡ cts_of r h ∷ []
  pub out : SendResult
  pub returns : answer ≡ some out
  pub sent : out.status ≡ some true
  pub others_sent : out.sent ≡ offer_of s (length content) ∷ accept_of r h ∷ []
  pub progress : Progress
  pub has_progress : out.progress ≡ some progress
  pub state : State
  pub processed :
      receive_sent o l progress.sent is (record { conn = got.peer.endpoint.conn; memory = memory })
      ≡ some state
  pub delivered : take (length content) (state.memory.buffers block) ≡ content

-- For a sender and a receiver that have posted as many messages, connected to each other, where the
-- receiver has a buffer of the message's length, a free slot whose generation is that of the CTS,
-- channels that open and no UDP receiver yet, and where the sizes fit the packet fields and every
-- send succeeds: whatever time-outs and other messages come before the OFFER, the CTS and the
-- ACCEPT, sdr_recv_post and sdr_send_post both return 0, each has sent just the control messages
-- that the other heard, and once the workers have got every datagram that was sent, in any order
-- and each any number of times, the buffer begins with the message.
pub session_delivers :
    (o : ByteOrder) (l : Layout) (s r : Peer) (rc : RecvCalls) (sc : SendCalls) (content : List ℕ)
    (block : ℕ) (h : Posted) (e : Endpoint) (before between early later_r later_s : List Heard)
    (memory : Memory) (is : List ℕ)
    → 0 < length content
    → s.endpoint.next_msg_id ≡ r.endpoint.next_msg_id
    → r.endpoint.conn.generation_counters h.msg_id ≡ r.endpoint.receiver_generation_counter
    → IsReady s r rc (user block) (length content) h e
    → CanSend s sc
    → IsTransfer (transfer_of h content block)
    → length content ≤ length (memory.buffers block)
    → ((i : ℕ) → sc.sendto i ≡ true)
    → all_passed is_offer before ≡ true
    → all_passed is_accept between ≡ true
    → all_passed is_cts early ≡ true
    → All (λ i. i < packet_count (transfer_of h content block)) is
    → all_from (λ j. among j is) (packet_count (transfer_of h content block)) 0 ≡ true
    → IsDone o l s r h content block memory is
        (sdr_recv_post rc r (user block) (length content) (
          before
          ++ (message (offer_of s (length content))
              ∷ (between ++ (message (accept_of r h) ∷ later_r)))))
        (sdr_send_post o l sc s content
          (length content)
          (early ++ (message (cts_of r h) ∷ later_s)))
session_delivers o l s r rc sc content block h e before between early later_r later_s memory is pos
      ids generations ready can v room takes quiet1 quiet2 quiet3 below every =
    let t = transfer_of h content block in
    let offered = offer_params s.endpoint.conn.params (length content) in
    let p : IsPosted r.endpoint offered (user block) (length content) h e =
      subst (λ x. IsPosted r.endpoint offered (user block) (length content) h x.1) ready.has_slot
        (recv_setup-IsPosted r.endpoint offered (user block) (length content) h
          (ap (λ x. x.0) ready.has_slot)) in
    let received = sdr_recv_post_lem before between later_r pos ready quiet1 quiet2 in
    let agrees : Agrees t h.cts_params = record {
      mtu = refl;
      generation = ap (λ x. x.transfer_id) p.params ∙ sym p.generation;
      chunk = refl;
    } in
    let pr = progress_of o l sc.sendto t h.cts_params in
    let same_id : s.endpoint.next_msg_id % 1024 ≡ h.msg_id = ap (λ x. x % 1024) ids ∙ sym p.id in
    let chunk_pos : 0 < h.cts_params.packets_per_chunk =
      rw p.params
        (negotiate-IsFilledIn r.endpoint.conn.params offered (length content)).chunk_pos in
    let made : send_data o l sc.sendto true h.cts_params (s.endpoint.next_msg_id % 1024) content
          (length content)
        ≡ some pr =
      rw same_id (send_data_lem o l sc.sendto t h.cts_params v agrees) in
    let m =
      message_delivered o l is v
        (IsReceiving-set_udp_socket (rc.channels 0).socket
          (posted-IsReceiving content block p memory generations v room).0)
        below every in
    record {
      received = received.0;
      handle = received.1;
      cts_sent = received.2;
      out = send_done s r h can.client (length content) pr later_s;
      returns =
          sdr_send_post_lem o l s r sc h pr content (length content) early later_s pos can quiet3
            v.mtu_pos chunk_pos made;
      sent = refl;
      others_sent = refl;
      progress = pr;
      has_progress = refl;
      state = m.0;
      processed =
          ap (λ x. receive_sent o l pr.sent is (record { conn = x.conn; memory = memory }))
            received.4
          ∙ receive_sent_lem o l sc.sendto t h.cts_params is _ takes below
          ∙ m.3;
      delivered = m.4;
    }
