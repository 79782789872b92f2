-- ===== src/Tcp/Descriptors.antt =====
-- sdr-udp/src/tcp_control.cpp: the descriptors that the two endpoints hold, over any calls on them.
pub mod Client
use sdr_rdma_udp.Common.{
  ℕ, ◌+◌, ◌≡◌, refl, sym, ap, ◌∙◌, inl, inr, Bool, true, false, not, ◌&&◌, Option, none, some, List,
  [], arith, if◌then◌else◌, Bool-cases,
}
use sdr_rdma_udp.Control.{ControlMessage}
use sdr_rdma_udp.Tcp.{
  MessageLayout, Socket, LoopEnd, full, timed_out, disconnected, out_of_fuel, recv_loop,
  ListenCalls, TcpServer, new_server, listen_with, start_listening, close_held, is_some,
  accept_connection, close_connection, stop, server_end, server_receive, SendCall, TcpClient,
  disconnect, connect_with, connect_to_server, client_receive, client_end, client_send, client_put,
  taken, send_failed,
}

-- One call on the server.
pub data ServerStep : TcpServer → TcpServer → Type 1 where
  listen :
      (s : TcpServer) (port : ℕ) (calls : ListenCalls)
      → ServerStep s (start_listening s port calls).1
  accept : (s : TcpServer) (answer : Option ℕ) → ServerStep s (accept_connection s answer).1
  receive :
      (s : TcpServer) (k : Socket) (l : MessageLayout) (io : k.State)
      → ServerStep s (server_receive k l s io).0.1
  close : (s : TcpServer) → ServerStep s (close_connection s)
  stopped : (s : TcpServer) → ServerStep s (stop s)

pub data ServerRun : TcpServer → TcpServer → Type 1 where
  done : (s : TcpServer) → ServerRun s s
  step : {s t u : TcpServer} → ServerRun s t → ServerStep t u → ServerRun s u

abbrev pub held : Option ℕ → ℕ
held none = 0
held (some fd) = 1

-- The descriptors given are those taken back and those held, and a server that listens has its own.
pub record IsBalanced (s : TcpServer) : Type 0 where
  pub balance : s.opened ≡ s.closed_count + (held s.listen_fd + held s.client_fd)
  pub listening : is_some s.listen_fd ≡ s.is_listening

pub close_held-held : (c : Option ℕ) (count : ℕ) → close_held c count ≡ count + held c
close_held-held none count = omega arith
close_held-held (some fd) count = refl

close_connection-IsBalanced : (s : TcpServer) → IsBalanced s → IsBalanced (close_connection s)
unfolding close_connection
close_connection-IsBalanced s b = record {
  balance = omega (arith, b.balance, close_held-held s.client_fd s.closed_count);
  listening = b.listening;
}

stop-IsBalanced : (s : TcpServer) → IsBalanced s → IsBalanced (stop s)
unfolding stop close_connection
stop-IsBalanced s b = record {
  balance = omega (
    arith,
    b.balance,
    close_held-held s.client_fd s.closed_count,
    close_held-held s.listen_fd (close_held s.client_fd s.closed_count),
  );
  listening = refl;
}

listen_with-IsBalanced :
    (s : TcpServer) (port : ℕ) (socket : Option ℕ) (ready : Bool)
    → s.is_listening ≡ false
    → s.listen_fd ≡ none
    → IsBalanced s
    → IsBalanced (listen_with s port socket ready).1
unfolding listen_with
listen_with-IsBalanced s port none ready idle e b = record {
  balance = omega (arith, b.balance, ap held e);
  listening = sym idle;
}
listen_with-IsBalanced s port (some fd) true idle e b = record {
  balance = omega (arith, b.balance, ap held e);
  listening = refl;
}
listen_with-IsBalanced s port (some fd) false idle e b = record {
  balance = omega (arith, b.balance, ap held e);
  listening = sym idle;
}

start_listening-IsBalanced :
    (s : TcpServer) (port : ℕ) (calls : ListenCalls)
    → IsBalanced s
    → IsBalanced (start_listening s port calls).1
unfolding start_listening
start_listening-IsBalanced s port calls b = go s.is_listening refl
  where
    fd_none : (o : Option ℕ) → is_some o ≡ false → o ≡ none
    fd_none none e = refl
    fd_none (some fd) e = cc e

    go :
        (x : Bool)
        → s.is_listening ≡ x
        → IsBalanced
            (if x
              then (false, s)
              else listen_with s port calls.socket
                  (calls.setsockopt_ok && calls.bind_ok && calls.listen_ok)).1
    go true e = b
    go false e =
        listen_with-IsBalanced s port calls.socket
          (calls.setsockopt_ok && calls.bind_ok && calls.listen_ok) e
          (fd_none s.listen_fd (b.listening ∙ e)) b

accept_connection-IsBalanced :
    (s : TcpServer) (answer : Option ℕ) → IsBalanced s → IsBalanced (accept_connection s answer).1
unfolding accept_connection
accept_connection-IsBalanced s answer b = go s.is_listening refl answer
  where
    go :
        (x : Bool)
        → s.is_listening ≡ x
        → (answer : Option ℕ)
        → IsBalanced
            (if◌then◌else◌ {A = Bool × TcpServer}
              (not x)
              (false, s)
              (
                is_some answer,
                record s {
                  client_fd = answer;
                  opened = (if is_some answer then s.opened + 1 else s.opened);
                  closed_count = close_held s.client_fd s.closed_count;
                },
              )).1
    go false e answer = b
    go true e none = record {
      balance = omega (arith, b.balance, close_held-held s.client_fd s.closed_count);
      listening = b.listening;
    }
    go true e (some fd) = record {
      balance = omega (arith, b.balance, close_held-held s.client_fd s.closed_count);
      listening = b.listening;
    }

server_receive-IsBalanced :
    (s : TcpServer) (k : Socket) (l : MessageLayout) (io : k.State)
    → IsBalanced s
    → IsBalanced (server_receive k l s io).0.1
unfolding server_receive server_end
server_receive-IsBalanced s k l io b = elim (Bool-cases (is_some s.client_fd)) [
  | inl t ↦ rw t (ends (recv_loop k l.size l.size [] io).0)
  | inr f ↦ rw f b
]
  where
    ends : (e : LoopEnd) → IsBalanced (server_end l s e).1
    ends (full got) = b
    ends timed_out = b
    ends disconnected = close_connection-IsBalanced s b
    ends out_of_fuel = b

new_server-IsBalanced : IsBalanced new_server
new_server-IsBalanced = record { balance = refl; listening = refl }

step-IsBalanced : {s t : TcpServer} → ServerStep s t → IsBalanced s → IsBalanced t
step-IsBalanced (listen s port calls) b = start_listening-IsBalanced s port calls b
step-IsBalanced (accept s answer) b = accept_connection-IsBalanced s answer b
step-IsBalanced (receive s k l io) b = server_receive-IsBalanced s k l io b
step-IsBalanced (close s) b = close_connection-IsBalanced s b
step-IsBalanced (stopped s) b = stop-IsBalanced s b

run-IsBalanced : {s t : TcpServer} → ServerRun s t → IsBalanced s → IsBalanced t
run-IsBalanced (done s) b = b
run-IsBalanced (step r h) b = step-IsBalanced h (run-IsBalanced r b)

pub ServerRun-IsBalanced : (s : TcpServer) → ServerRun new_server s → IsBalanced s
ServerRun-IsBalanced s r = run-IsBalanced r new_server-IsBalanced

-- After any calls on a new TCPControlServer, in any order and with any answers of the system, stop
-- leaves as many descriptors closed as were opened, no listening and no client socket, and a server
-- that does not listen.
pub ServerRun-stop :
    (s : TcpServer)
    → ServerRun new_server s
    → ((stop s).opened ≡ (stop s).closed_count)
      × ((stop s).listen_fd ≡ none)
      × ((stop s).client_fd ≡ none)
      × ((stop s).is_listening ≡ false)
unfolding stop close_connection
ServerRun-stop s r =
    (omega (arith, (ServerRun-IsBalanced (stop s) (step r (stopped s))).balance), refl, refl, refl)
