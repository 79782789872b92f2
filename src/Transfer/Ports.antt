-- ===== src/Transfer/Ports.antt =====
-- The ports that `sdr_send_post` sends to, sdr-udp/src/sdr_api.cpp, and those that the workers of
-- sdr-udp/include/sdr_receiver.h listen on.
use sdr_rdma_udp.Common.{
  ℕ, ◌%◌, ◌^◌, ◌<◌, ◌≡◌, refl, ap, ◌∙◌, Bool, true, length, max, get_or, u16, arith,
}
use sdr_rdma_udp.Control.{ConnectionParams}
use sdr_rdma_udp.Connection.{ConnectionContext}
use sdr_rdma_udp.Receiver.Workers.{UdpReceiver, ChannelCalls, idle_worker, start}
use sdr_rdma_udp.Receiver.Workers.Start.{IsIdle, IsStarted, running, refused, start-IsStarted}
use sdr_rdma_udp.Api.Send.{channel_port, channels_of, base_port_of}

served :
    {c : ConnectionContext} {calls : ℕ → ChannelCalls} {x : Bool × UdpReceiver × ConnectionContext}
    (p : ConnectionParams) (i : ℕ)
    → 0 < p.channel_base_port
    → p.num_channels < 2 ^ 16
    → IsStarted c p.channel_base_port p.num_channels calls x
    → x.0 ≡ true
    → (i % channels_of p < length x.1.workers)
      × ((get_or x.1.workers (i % channels_of p) idle_worker).udp_port ≡ channel_port p i)
      × ((get_or x.1.workers (i % channels_of p) idle_worker).thread ≡ true)
served p i pos small (running u ok sized each is_on balance) e =
    let channels : channels_of p ≡ max 1 p.num_channels = ground arith in
    let in_range : i % channels_of p < max 1 p.num_channels = rw channels (omega arith) in
    let base : base_port_of p ≡ p.channel_base_port = ground arith in
    let w = each (i % channels_of p) in_range in
    (
      omega (arith, sized),
      ap (λ x. x.udp_port) w
          ∙ rw base (
              let small_index : u16 (i % channels_of p) ≡ i % channels_of p = omega arith in
              rw small_index refl),
      ap (λ x. x.thread) w,
    )
served p i pos small (refused u bad idle) e = cc e

-- Where UDPReceiver::start succeeds on a receiver that is idle, with the base port and the number
-- of channels of the parameters, the port not zero and the number below 2^16: for each packet, the
-- worker whose index is the packet's number modulo the channels has a thread and the port that the
-- sender sends that packet to.
pub start-IsServed :
    (r : UdpReceiver) (c : ConnectionContext) (calls : ℕ → ChannelCalls) (p : ConnectionParams)
    (i : ℕ)
    → IsIdle r
    → 0 < p.channel_base_port
    → p.num_channels < 2 ^ 16
    → (start r c p.channel_base_port p.num_channels calls).0 ≡ true
    → let u = (start r c p.channel_base_port p.num_channels calls).1 in
      (i % channels_of p < length u.workers)
      × ((get_or u.workers (i % channels_of p) idle_worker).udp_port ≡ channel_port p i)
      × ((get_or u.workers (i % channels_of p) idle_worker).thread ≡ true)
start-IsServed r c calls p i idle pos small ok =
    served p i pos small (start-IsStarted r c p.channel_base_port p.num_channels calls idle) ok
