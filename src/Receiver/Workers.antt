-- ===== src/Receiver/Workers.antt =====
-- sdr-udp/include/sdr_receiver.h, UDPReceiver: `start` and `stop`, with a socket and a thread for each
-- channel. A descriptor of -1 is `none`. What the system answers to the calls for a channel is an
-- input; `opened` and `closed_count` count the descriptors that it has given and taken back.
pub mod Start
use sdr_rdma_udp.Common.{
  ℕ, zero, suc, ◌+◌, ◌-◌, ◌≤◌, ◌<◌, ◌≡◌, refl, sym, ap, ◌∙◌, inl, inr, Bool, true, false, not, ◌&&◌,
  Option, none, some, List, [], ◌∷◌, map, max, arith, if◌then◌else◌, ltb, get_or, set, replicate,
  length, length-set, length-replicate, length-map, get_or-set_self, get_or-set_ne, u16, Bool-cases,
  Option-cases, all_from,
}
use sdr_rdma_udp.Connection.{ConnectionContext, set_udp_socket}

-- `UDPReceiver::Worker`; `thread` says whether one is running.
pub record Worker : Type 0 where
  pub thread : Bool
  pub udp_socket_fd : Option ℕ
  pub udp_port : ℕ

abbrev pub idle_worker : Worker
idle_worker = record { thread = false; udp_socket_fd = none; udp_port = 0 }

pub record UdpReceiver : Type 0 where
  pub workers : List Worker
  pub should_stop : Bool
  pub is_running : Bool
  pub base_port : ℕ
  pub num_channels : ℕ
  pub opened : ℕ
  pub closed_count : ℕ

abbrev pub new_receiver : UdpReceiver
new_receiver = record {
  workers = [];
  should_stop = false;
  is_running = false;
  base_port = 0;
  num_channels = 1;
  opened = 0;
  closed_count = 0;
}

-- What the system answers to `socket`, the first `setsockopt` and `bind`. A failure to set the size
-- of the receive buffer is only printed.
pub record ChannelCalls : Type 0 where
  pub socket : Option ℕ
  pub setsockopt_ok : Bool
  pub bind_ok : Bool

abbrev pub held_by : Worker → ℕ
held_by w = elim w.udp_socket_fd [ none ↦ 0 | some fd ↦ 1 ]

-- How many sockets the workers hold, which the loop of `stop` closes.
abbrev pub held_sockets : List Worker → ℕ
held_sockets [] = 0
held_sockets (w ∷ ws) = held_by w + held_sockets ws

unfoldable pub stop : UdpReceiver → UdpReceiver
stop r = record r {
  should_stop = true;
  workers = [];
  is_running = false;
  closed_count = r.closed_count + held_sockets r.workers;
}

-- One channel: its socket, or the failure that closes everything.
unfoldable pub open_channel : ChannelCalls → Option ℕ → ℕ → UdpReceiver → Bool × UdpReceiver
unfolding stop
open_channel calls none idx r = (false, stop r)
open_channel calls (some fd) idx r =
    if calls.setsockopt_ok && calls.bind_ok
    then (
      true,
      record r {
        opened = r.opened + 1;
        workers = set r.workers idx (record {
          thread = false;
          udp_socket_fd = some fd;
          udp_port = u16 (r.base_port + idx);
        });
      },
    )
    else (false, stop (record r { opened = r.opened + 1; closed_count = r.closed_count + 1 }))

-- `n` rounds of the loop over the channels.
unfoldable pub open_channels : (ℕ → ChannelCalls) → ℕ → ℕ → UdpReceiver → Bool × UdpReceiver
unfolding open_channel
open_channels calls zero idx r = (true, r)
open_channels calls (suc n) idx r =
    let here = open_channel (calls idx) (calls idx).socket idx r in
    let rest = open_channels calls n (idx + 1) here.1 in if here.0 then rest else here

abbrev pub with_thread : Worker → Worker
with_thread w = record w { thread = true }

-- The threads of the workers, once every channel is open.
unfoldable pub start_threads :
    ConnectionContext → Bool × UdpReceiver → Bool × UdpReceiver × ConnectionContext
start_threads c (false, r) = (false, r, c)
start_threads c (true, r) = (
  true,
  record r { workers = map with_thread r.workers; is_running = true },
  (if ltb 0 (length r.workers)
      then set_udp_socket c ((get_or r.workers 0 idle_worker).udp_socket_fd)
      else c),
)

unfoldable pub start :
    UdpReceiver
    → ConnectionContext
    → ℕ
    → ℕ
    → (ℕ → ChannelCalls)
    → Bool × UdpReceiver × ConnectionContext
unfolding start_threads open_channels
start r c base_port num_channels calls =
    let channels = max 1 num_channels in
    let ready = record r {
      base_port = base_port;
      num_channels = channels;
      workers = replicate channels idle_worker;
      should_stop = false;
    } in
    if r.is_running then (false, r, c) else start_threads c (open_channels calls channels 0 ready)

-- The system opens and binds a socket for the channel.
abbrev pub is_ok : ChannelCalls → Bool
is_ok calls = elim calls.socket [ none ↦ false | some fd ↦ calls.setsockopt_ok && calls.bind_ok ]

abbrev pub channel_worker : ℕ → ChannelCalls → ℕ → Worker
channel_worker base_port calls idx = record {
  thread = true;
  udp_socket_fd = calls.socket;
  udp_port = u16 (base_port + idx);
}
