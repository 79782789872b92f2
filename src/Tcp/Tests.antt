-- ===== src/Tcp/Tests.antt =====
-- The control connection at concrete inputs: a stream that arrives in pieces, and a server that stops.
use sdr_rdma_udp.Common.{
  ℕ, zero, suc, ◌≤◌, ◌<◌, ◌≡◌, ◌≢◌, refl, ap, true, false, none, some, List, [], ◌∷◌, ◌++◌, arith,
  length, take, drop, length-take,
}
use sdr_rdma_udp.Control.{ControlMessage, cts, zero_params, magic_value}
use sdr_rdma_udp.Tcp.{
  MessageLayout, Received, bytes, again, hung_up, Socket, out_of_fuel, recv_loop, TcpServer,
  new_server, ListenCalls, start_listening, accept_connection, stop, server_send, taken, TcpClient,
  connect_to_server, client_receive, client_send, client_put, put_message, client_end, deserialize,
}
use sdr_rdma_udp.Tcp.Stream.{recv_loop-not_out_of_fuel}
use sdr_rdma_udp.Tcp.Stream.Messages.{
  Sent, nothing, sent, client_sends, client_receive_each, server_receive_each,
  client_receive_each-server_send, server_receive_each-client_send,
}
use sdr_rdma_udp.Tcp.Descriptors.{done, step, listen, accept, ServerRun-stop}
use sdr_rdma_udp.Tcp.Descriptors.Client.{HasLost, connect_to_server-HasLost}

-- What will arrive: bytes, a time without any, or the end.
data Arrival : Type 0 where
  chunk : List ℕ → Arrival
  timeout closed : Arrival

abbrev arrival_recv : ℕ → List Arrival → Received × List Arrival
arrival_recv zero arrivals = (hung_up, arrivals)
arrival_recv (suc n) [] = (again, [])
arrival_recv (suc n) (chunk [] ∷ arrivals) = arrival_recv (suc n) arrivals
arrival_recv (suc n) (chunk (b ∷ bs) ∷ arrivals) =
    (bytes (b ∷ take n bs), chunk (drop n bs) ∷ arrivals)
arrival_recv (suc n) (timeout ∷ arrivals) = (again, arrivals)
arrival_recv (suc n) (closed ∷ arrivals) = (hung_up, arrivals)

abbrev arrival_pending : List Arrival → List ℕ
arrival_pending [] = []
arrival_pending (chunk bs ∷ arrivals) = bs ++ arrival_pending arrivals
arrival_pending (timeout ∷ arrivals) = []
arrival_pending (closed ∷ arrivals) = []

bytes_inj : {xs ys : List ℕ} → bytes xs ≡ bytes ys → xs ≡ ys
bytes_inj e = cc e

rejoin : (n : ℕ) (bs xs : List ℕ) → bs ++ xs ≡ take n bs ++ (drop n bs ++ xs)
rejoin zero bs xs = refl
rejoin (suc n) [] xs = refl
rejoin (suc n) (b ∷ bs) xs = ap (◌∷◌ b) (rejoin n bs xs)

arrival_lem :
    (n : ℕ) (a : List Arrival) (bs : List ℕ)
    → (arrival_recv n a).0 ≡ bytes bs
    → (0 < length bs)
      × (length bs ≤ n)
      × (arrival_pending a ≡ bs ++ arrival_pending (arrival_recv n a).1)
arrival_lem zero a bs e = cc e
arrival_lem (suc n) [] bs e = cc e
arrival_lem (suc n) (chunk [] ∷ a) bs e = arrival_lem (suc n) a bs e
arrival_lem (suc n) (chunk (b ∷ cs) ∷ a) bs e =
    rw⁻¹ (bytes_inj e)
      (omega arith, omega (arith, length-take n cs), ap (◌∷◌ b) (rejoin n cs (arrival_pending a)))
arrival_lem (suc n) (timeout ∷ a) bs e = cc e
arrival_lem (suc n) (closed ∷ a) bs e = cc e

arrival_progress :
    (n : ℕ) (a : List Arrival)
    → 0 < n
    → 0 < length (arrival_pending a)
    → (bs : List ℕ) × ((arrival_recv n a).0 ≡ bytes bs)
arrival_progress zero a pos h = absurd (omega arith)
arrival_progress (suc n) [] pos h = absurd (omega arith)
arrival_progress (suc n) (chunk [] ∷ a) pos h = arrival_progress (suc n) a pos h
arrival_progress (suc n) (chunk (b ∷ cs) ∷ a) pos h = (b ∷ take n cs, refl)
arrival_progress (suc n) (timeout ∷ a) pos h = absurd (omega arith)
arrival_progress (suc n) (closed ∷ a) pos h = absurd (omega arith)

abbrev arrivals : Socket
arrivals = record {
  State = List Arrival;
  recv = arrival_recv;
  pending = arrival_pending;
  length-recv = λ n a bs e. ((arrival_lem n a bs e).0, (arrival_lem n a bs e).1);
  pending-recv = λ n a bs e. (arrival_lem n a bs e).2;
  recv_pending = arrival_progress;
}

abbrev no_message : ControlMessage
no_message = record {
  magic = 0;
  msg_type = cts;
  connection_id = 0;
  params = zero_params;
  chunk_bitmap_words = 0;
  chunk_bitmap = [];
  num_gaps = 0;
  gap_start = [];
  gap_len = [];
}

-- Three fields of the message, one cell to each.
abbrev three_cells : ControlMessage → List ℕ
three_cells m = m.magic ∷ m.connection_id ∷ m.num_gaps ∷ []

abbrev of_cells : List ℕ → ControlMessage
of_cells (a ∷ b ∷ c ∷ rest) = record no_message { magic = a; connection_id = b; num_gaps = c }
of_cells [] = no_message
of_cells (a ∷ []) = no_message
of_cells (a ∷ b ∷ []) = no_message

abbrev cells : MessageLayout
cells = record {
  size = 3;
  IsMessage = λ m. of_cells (three_cells m) ≡ m;
  bytes_of = three_cells;
  message_of = of_cells;
  size_pos = omega arith;
  length-bytes_of = λ m e. refl;
  message_of-bytes_of = λ m e. e;
}

abbrev first_cts : ControlMessage
first_cts = record no_message { magic = magic_value; connection_id = 7; num_gaps = 1 }

abbrev second_cts : ControlMessage
second_cts = record no_message { magic = magic_value; connection_id = 8; num_gaps = 2 }

abbrev up_client : TcpClient
up_client = record { socket_fd = some 5; is_connected = true; opened = 1; closed_count = 0 }

abbrev up_server : TcpServer
up_server = record new_server {
  listen_fd = some 3;
  client_fd = some 4;
  is_listening = true;
  opened = 2;
}

-- Both messages, in pieces that do not end where the messages do, and the start of another.
abbrev in_pieces : List Arrival
in_pieces =
    chunk (magic_value ∷ [])
    ∷ chunk (7 ∷ 1 ∷ magic_value ∷ 8 ∷ [])
    ∷ chunk (2 ∷ 9 ∷ [])
    ∷ timeout
    ∷ []

server_sent :
    Sent cells
      (server_send cells up_server)
      (first_cts ∷ second_cts ∷ [])
      (three_cells first_cts ++ (three_cells second_cts ++ []))
unfolding server_send put_message
server_sent =
    sent first_cts (taken 3) refl refl refl (sent second_cts (taken 3) refl refl refl nothing)

client_sent :
    Sent cells
      (client_sends cells up_client)
      (first_cts ∷ second_cts ∷ [])
      (three_cells first_cts ++ (three_cells second_cts ++ []))
unfolding client_send client_put
client_sent =
    sent first_cts (taken 3) refl refl refl (sent second_cts (taken 3) refl refl refl nothing)

client_receive_each-server_send_example :
    ((client_receive_each arrivals cells up_client 2 in_pieces).0
      ≡ (some first_cts ∷ some second_cts ∷ [], up_client))
    × (arrival_pending (client_receive_each arrivals cells up_client 2 in_pieces).1 ≡ 9 ∷ [])
client_receive_each-server_send_example =
    client_receive_each-server_send arrivals cells up_server up_client (first_cts ∷ second_cts ∷ [])
      (three_cells first_cts ++ (three_cells second_cts ++ [])) (9 ∷ []) in_pieces server_sent refl
      refl

server_receive_each-client_send_example :
    ((server_receive_each arrivals cells up_server 2 in_pieces).0
      ≡ (some first_cts ∷ some second_cts ∷ [], up_server))
    × (arrival_pending (server_receive_each arrivals cells up_server 2 in_pieces).1 ≡ 9 ∷ [])
server_receive_each-client_send_example =
    server_receive_each-client_send arrivals cells up_client up_server (first_cts ∷ second_cts ∷ [])
      (three_cells first_cts ++ (three_cells second_cts ++ [])) (9 ∷ []) in_pieces client_sent refl
      refl

recv_loop-not_out_of_fuel_example : (recv_loop arrivals 3 3 [] in_pieces).0 ≢ out_of_fuel
recv_loop-not_out_of_fuel_example =
    recv_loop-not_out_of_fuel arrivals 3 3 [] in_pieces (omega arith)

-- A message that a time-out cuts in two.
abbrev cut : List Arrival
cut = chunk (magic_value ∷ []) ∷ timeout ∷ chunk (7 ∷ 1 ∷ magic_value ∷ 8 ∷ 2 ∷ []) ∷ []

-- Neither that message nor the one after it is received.
cut_loses :
    (client_receive_each arrivals cells up_client 3 cut).0 ≡ (none ∷ none ∷ none ∷ [], up_client)
unfolding client_receive_each client_receive client_end recv_loop deserialize
cut_loses = refl

abbrev all_ok : ListenCalls
all_ok = record { socket = some 3; setsockopt_ok = true; bind_ok = true; listen_ok = true }

ServerRun-stop_example :
    ((stop (accept_connection (start_listening new_server 80 all_ok).1 (some 4)).1).opened
      ≡ (stop (accept_connection (start_listening new_server 80 all_ok).1 (some 4)).1).closed_count)
    × ((stop (accept_connection (start_listening new_server 80 all_ok).1 (some 4)).1).listen_fd
        ≡ none)
    × ((stop (accept_connection (start_listening new_server 80 all_ok).1 (some 4)).1).client_fd
        ≡ none)
    × ((stop (accept_connection (start_listening new_server 80 all_ok).1 (some 4)).1).is_listening
        ≡ false)
ServerRun-stop_example =
    ServerRun-stop (accept_connection (start_listening new_server 80 all_ok).1 (some 4)).1 (
      step (step (done new_server) (listen new_server 80 all_ok))
        (accept (start_listening new_server 80 all_ok).1 (some 4)))

-- A client whose server hung up, and that connects again: one descriptor is lost.
connect_to_server-HasLost_example :
    HasLost (connect_to_server (record up_client { is_connected = false }) (some 6) true true).1 1
connect_to_server-HasLost_example =
    connect_to_server-HasLost (record up_client { is_connected = false }) 0 (some 6) true true refl
