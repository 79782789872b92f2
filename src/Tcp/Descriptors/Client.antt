-- ===== src/Tcp/Descriptors/Client.antt =====
-- sdr-udp/src/tcp_control.cpp: the descriptors of TCPControlClient.
use sdr_rdma_udp.Common.{
  ℕ, ◌+◌, ◌≡◌, Bool, true, false, not, ◌&&◌, Option, none, some, List, [], arith, if◌then◌else◌,
}
use sdr_rdma_udp.Control.{ControlMessage}
use sdr_rdma_udp.Tcp.{
  MessageLayout, Socket, LoopEnd, full, timed_out, disconnected, out_of_fuel, recv_loop, SendCall,
  TcpClient, disconnect, connect_with, connect_to_server, client_receive, client_end, client_send,
  client_put, taken, send_failed,
}
use sdr_rdma_udp.Tcp.Descriptors.{held, close_held-held}

-- What a client has given away: the descriptors neither taken back nor held.
abbrev pub HasLost : TcpClient → ℕ → Type 0
HasLost c lost = c.opened ≡ c.closed_count + held c.socket_fd + lost

connect_with-HasLost :
    (c : TcpClient) (lost : ℕ) (socket : Option ℕ) (ready : Bool)
    → HasLost c lost
    → HasLost (connect_with c socket ready).1 (lost + held c.socket_fd)
unfolding connect_with
connect_with-HasLost c lost none ready h = omega arith
connect_with-HasLost c lost (some fd) true h = omega arith
connect_with-HasLost c lost (some fd) false h = omega arith

disconnect-HasLost : (c : TcpClient) (lost : ℕ) → HasLost c lost → HasLost (disconnect c) lost
unfolding disconnect
disconnect-HasLost c lost h = omega (arith, close_held-held c.socket_fd c.closed_count)

-- For a client that has lost some number of descriptors, neither closed nor held: after
-- connect_to_server, whatever the system answers, it has lost no more if it was connected, and one
-- more if it was not and still held a socket.
pub connect_to_server-HasLost :
    (c : TcpClient) (lost : ℕ) (socket : Option ℕ) (address_ok connect_ok : Bool)
    → HasLost c lost
    → HasLost
        (connect_to_server c socket address_ok connect_ok).1
        (lost + (if c.is_connected then 0 else held c.socket_fd))
unfolding connect_to_server disconnect
connect_to_server-HasLost c lost socket address_ok connect_ok h = go c.is_connected
  where
    go :
        (x : Bool)
        → HasLost
            (connect_with (if x then disconnect c else c) socket (address_ok && connect_ok)).1
            (lost + (if x then 0 else held c.socket_fd))
    go true =
        connect_with-HasLost (disconnect c) lost socket (address_ok && connect_ok)
          (disconnect-HasLost c lost h)
    go false = connect_with-HasLost c lost socket (address_ok && connect_ok) h

-- The other calls of the client lose none.
pub client-HasLost :
    (k : Socket) (l : MessageLayout) (c : TcpClient) (lost : ℕ) (io : k.State)
    (msg : ControlMessage) (call : SendCall)
    → HasLost c lost
    → HasLost (client_receive k l c io).0.1 lost
      × HasLost (client_send l c msg call).1.1 lost
      × HasLost (disconnect c) lost
unfolding client_receive client_end client_send client_put
client-HasLost k l c lost io msg call h = (
  received c.is_connected (recv_loop k l.size l.size [] io).0,
  sends c.is_connected call,
  disconnect-HasLost c lost h,
)
  where
    received :
        (x : Bool) (e : LoopEnd)
        → HasLost
            (if◌then◌else◌ {A = (Option ControlMessage × TcpClient) × k.State}
              (not x)
              ((none, c), io)
              (client_end l c e, (recv_loop k l.size l.size [] io).1)).0.1
            lost
    received false e = h
    received true (full got) = h
    received true timed_out = h
    received true disconnected = h
    received true out_of_fuel = h

    sends :
        (x : Bool) (call : SendCall)
        → HasLost
            (if◌then◌else◌ {A = List ℕ × (Bool × TcpClient)}
              (not x)
              ([], (false, c))
              (client_put l c msg call)).1.1
            lost
    sends false call = h
    sends true (taken n) = h
    sends true send_failed = h
