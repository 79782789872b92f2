-- ===== src/Examples/Session.antt =====
-- sdr-udp/examples/sdr_test_sender.cpp and sdr_test_receiver.cpp together, in the plain mode: what the one sends
-- passes the verification of the other.
mod Tests
use sdr_rdma_udp.Common.{
  ℕ, ◌+◌, ◌≤◌, ◌<◌, ◌≡◌, refl, sym, ap, ◌∙◌, Bool, true, Option, none, some, List, [], ◌∷◌, ◌++◌,
  length, uint64_max, all_from, take, subst,
}
use sdr_rdma_udp.Config.{Text, Entries}
use sdr_rdma_udp.Connection.{user}
use sdr_rdma_udp.Packet.{ByteOrder, Layout}
use sdr_rdma_udp.Receiver.Blocks.{Memory}
use sdr_rdma_udp.Api.Recv.{Endpoint, Posted}
use sdr_rdma_udp.Api.Control.{Heard, message, is_offer, is_cts, is_accept}
use sdr_rdma_udp.Api.Post.{Peer, RecvCalls, sdr_recv_post}
use sdr_rdma_udp.Api.SendPost.{SendCalls, sdr_send_post}
use sdr_rdma_udp.Api.Handshake.{IsReady, all_passed, offer_of, cts_of, accept_of}
use sdr_rdma_udp.Api.Handshake.Sending.{CanSend}
use sdr_rdma_udp.Transfer.{IsTransfer, packet_count}
use sdr_rdma_udp.Transfer.Deliver.{All, among}
use sdr_rdma_udp.Transfer.Start.{transfer_of}
use sdr_rdma_udp.Transfer.Session.{IsDone, session_delivers}
use sdr_rdma_udp.Examples.Args.{SenderArgs, Parsed, usage, aborted, parsed, sender_args}
use sdr_rdma_udp.Examples.Sender.{
  Started, uncaught, exited, ready, SenderPlan, sender_plan, sender_config, size_to_send,
  sender_connected, sender_start, sender_main,
}
use sdr_rdma_udp.Examples.Verify.{send_buffer, length-send_buffer, verify, verify-send_buffer}

-- What the sender sends is the pattern.
IsPattern : Started SenderPlan → Type 0
IsPattern uncaught = Unit {0}
IsPattern (exited code) = Unit {0}
IsPattern (ready p) = p.content ≡ send_buffer (length p.content)

connected-IsPattern :
    (a : SenderArgs) (cfg : Entries) (conn : Option Peer) → IsPattern (sender_connected a cfg conn)
unfolding IsPattern sender_connected sender_plan
connected-IsPattern a cfg none = tt
connected-IsPattern a cfg (some conn) =
    ap send_buffer (sym (length-send_buffer (size_to_send a cfg)))

start-IsPattern :
    (read : Text → Option Text) (connect : Text → ℕ → Option Peer) (r : Parsed SenderArgs)
    → IsPattern (sender_start read connect r)
unfolding sender_start IsPattern
start-IsPattern read connect usage = tt
start-IsPattern read connect aborted = tt
start-IsPattern read connect (parsed a) =
    connected-IsPattern a (sender_config read a.config_file) (connect a.server_ip a.tcp_port)

-- The arguments of a sender that sends.
content_lem :
    (read : Text → Option Text) (connect : Text → ℕ → Option Peer) (argv : List Text)
    (p : SenderPlan)
    → sender_main read connect argv ≡ ready p
    → p.content ≡ send_buffer (length p.content)
unfolding sender_main IsPattern
content_lem read connect argv p e =
    subst IsPattern e (start-IsPattern read connect (sender_args argv))

-- For a sender that main has taken through its arguments, its configuration file and its
-- connection, and a receiver, under the conditions of the session of one message: sdr_recv_post and
-- sdr_send_post both return 0, each has sent just the control messages that the other heard, and
-- once the workers have got every datagram, in any order and each any number of times, the buffer
-- passes the receiver's verification with no mismatch.
pub programs_deliver :
    (o : ByteOrder) (l : Layout) (read : Text → Option Text) (connect : Text → ℕ → Option Peer)
    (argv : List Text) (p : SenderPlan) (r : Peer) (rc : RecvCalls) (sc : SendCalls) (block : ℕ)
    (h : Posted) (e : Endpoint) (before between early later_r later_s : List Heard)
    (memory : Memory) (is : List ℕ)
    → sender_main read connect argv ≡ ready p
    → 0 < length p.content
    → p.peer.endpoint.next_msg_id ≡ r.endpoint.next_msg_id
    → r.endpoint.conn.generation_counters h.msg_id ≡ r.endpoint.receiver_generation_counter
    → IsReady p.peer r rc (user block) (length p.content) h e
    → CanSend p.peer sc
    → IsTransfer (transfer_of h p.content block)
    → length p.content ≤ length (memory.buffers block)
    → ((i : ℕ) → sc.sendto i ≡ true)
    → all_passed is_offer before ≡ true
    → all_passed is_accept between ≡ true
    → all_passed is_cts early ≡ true
    → All (λ i. i < packet_count (transfer_of h p.content block)) is
    → all_from (λ j. among j is) (packet_count (transfer_of h p.content block)) 0 ≡ true
    → (d : IsDone o l p.peer r h p.content block memory is
        (sdr_recv_post rc r (user block) (length p.content) (
          before
          ++ (message (offer_of p.peer (length p.content))
              ∷ (between ++ (message (accept_of r h) ∷ later_r)))))
        (sdr_send_post o l sc p.peer p.content
          (length p.content)
          (early ++ (message (cts_of r h) ∷ later_s))))
      × (verify (d.state.memory.buffers block) (length p.content) ≡ some (true, uint64_max))
programs_deliver o l read connect argv p r rc sc block h e before between early later_r later_s
      memory is starts pos ids generations able can v room takes quiet1 quiet2 quiet3 below every =
    let d =
      session_delivers o l p.peer r rc sc p.content block h e before between early later_r later_s
        memory is pos ids generations able can v room takes quiet1 quiet2 quiet3 below every in
    (
      d,
      verify-send_buffer (d.state.memory.buffers block) (length p.content)
          (d.delivered ∙ content_lem read connect argv p starts),
    )
