-- ===== src/Tcp/Stream.antt =====
-- sdr-udp/src/tcp_control.cpp: `receive_message` of the two endpoints on the byte stream, and the
-- messages that `send_message` puts on it.
pub mod Messages
use mathlib.Core.List.{append-nil, append_assoc}
use sdr_rdma_udp.Common.{
  ℕ, zero, suc, ◌+◌, ◌-◌, ◌≤◌, ◌<◌, ◌≡◌, ◌≢◌, ◌⊎◌, refl, sym, ap, ◌∙◌, subst, inl, inr, Bool, true,
  false, Option, none, some, List, [], ◌∷◌, ◌++◌, map, arith, leb, length, take, length-append,
  Bool-cases, le→ltb, le→leb,
}
use sdr_rdma_udp.Control.{ControlMessage, magic_value}
use sdr_rdma_udp.Tcp.{
  MessageLayout, Received, bytes, again, hung_up, Socket, full, timed_out, disconnected,
  out_of_fuel, recv_loop, close_connection, deserialize, TcpClient, client_receive, client_end,
  TcpServer, server_receive, server_end, server_send, client_send, client_put, send_failed,
  put_message, SendCall, taken, is_some,
}

-- Of two ways to cut a list, the shorter front is a front of the longer.
append_split :
    {A : Type 0} (bs later todo rest : List A)
    → todo ++ rest ≡ bs ++ later
    → length bs ≤ length todo
    → (todo' : List A) × (todo ≡ bs ++ todo') × (later ≡ todo' ++ rest)
append_split [] later todo rest e le = (todo, refl, sym e)
append_split (b ∷ bs) later [] rest e le = absurd (omega arith)
append_split (b ∷ bs) later (t ∷ todo) rest e le =
    let r = append_split bs later todo rest (cc e) (omega arith) in
    let heads : t ≡ b = cc e in (r.0, cc (r.1, heads), r.2)

Received-cases : (r : Received) → ((bs : List ℕ) × (r ≡ bytes bs)) ⊎ ((r ≡ again) ⊎ (r ≡ hung_up))
Received-cases (bytes bs) = inl (bs, refl)
Received-cases again = inr (inl refl)
Received-cases hung_up = inr (inr refl)

module _ (k : Socket) where
  -- With a round for each byte that is missing, the loop of receive_message ends by a full buffer,
  -- a time-out or the end of the connection, and never for want of rounds.
  pub recv_loop-not_out_of_fuel :
      (size fuel : ℕ) (got : List ℕ) (s : k.State)
      → size ≤ length got + fuel
      → (recv_loop k size fuel got s).0 ≢ out_of_fuel
  unfolding recv_loop
  recv_loop-not_out_of_fuel size zero got s enough =
      rw (le→leb size (length got) (omega arith)) (λ e. cc e)
  recv_loop-not_out_of_fuel size (suc fuel) got s enough =
      elim (Bool-cases (leb size (length got))) [
        | inl t ↦ rw t (λ e. cc e)
        | inr f ↦ elim (Received-cases (k.recv (size - length got) s).0) [
          | inl b ↦
              rw (f, b.1)
                (recv_loop-not_out_of_fuel size fuel (got ++ b.0) (k.recv (size - length got) s).1 (
                  omega
                    (arith, length-append got b.0, k.length-recv (size - length got) s b.0 b.1)))
          | inr (inl e) ↦ rw (f, e) (λ e. cc e)
          | inr (inr e) ↦ rw (f, e) (λ e. cc e)
        ]
      ]

  recv_loop_pending :
      (size fuel : ℕ) (got todo rest : List ℕ) (s : k.State)
      → size ≤ length got + fuel
      → length got + length todo ≡ size
      → k.pending s ≡ todo ++ rest
      → ((recv_loop k size fuel got s).0 ≡ full (got ++ todo))
        × (k.pending (recv_loop k size fuel got s).1 ≡ rest)
  unfolding recv_loop
  recv_loop_pending size zero got [] rest s enough e p =
      rw (le→leb size (length got) (omega arith), append-nil got) (refl, p)
  recv_loop_pending size (suc fuel) got [] rest s enough e p =
      rw (le→leb size (length got) (omega arith), append-nil got) (refl, p)
  recv_loop_pending size zero got (t ∷ todo) rest s enough e p = absurd (omega arith)
  recv_loop_pending size (suc fuel) got (t ∷ todo) rest s enough e p =
      let r = k.recv_pending (size - length got) s (omega arith) (rw p (omega arith)) in
      let fits = k.length-recv (size - length got) s r.0 r.1 in
      let later = k.pending (k.recv (size - length got) s).1 in
      let cut =
        append_split r.0 later (t ∷ todo) rest
          (sym p ∙ k.pending-recv (size - length got) s r.0 r.1) (omega arith) in
      rw (lt→leb_false, r.1, cut.1, ← append_assoc got r.0 cut.0)
        (recv_loop_pending size fuel (got ++ r.0) cut.0 rest (k.recv (size - length got) s).1
          (omega (arith, length-append got r.0))
          (omega (arith, length-append got r.0, ap length cut.1, length-append r.0 cut.0)) cut.2)
    where
      lt→leb_false : leb size (length got) ≡ false
      lt→leb_false = ground arith

module _ (k : Socket) where
  recv_loop_short :
      (size fuel : ℕ) (got : List ℕ) (s : k.State)
      → size ≤ length got + fuel
      → length got + length (k.pending s) < size
      → ((recv_loop k size fuel got s).0 ≡ timed_out)
        ⊎ ((recv_loop k size fuel got s).0 ≡ disconnected)
  unfolding recv_loop
  recv_loop_short size zero got s enough short = absurd (omega arith)
  recv_loop_short size (suc fuel) got s enough short =
      elim (Received-cases (k.recv (size - length got) s).0) [
        | inl b ↦
            let p = ap length (k.pending-recv (size - length got) s b.0 b.1) in
            let both = length-append b.0 (k.pending (k.recv (size - length got) s).1) in
            rw (more, b.1)
              (recv_loop_short size fuel (got ++ b.0) (k.recv (size - length got) s).1
                (omega (arith, length-append got b.0, k.length-recv (size - length got) s b.0 b.1))
                (omega (arith, length-append got b.0)))
        | inr (inl e) ↦ rw (more, e) (inl refl)
        | inr (inr e) ↦ rw (more, e) (inr refl)
      ]
    where
      more : leb size (length got) ≡ false
      more = ground arith

  -- Where a connected client has fewer bytes pending than a message takes, receive_message gives no
  -- message: it either leaves the client connected and as it was, or marks it as not connected.
  client_receive_short :
      (l : MessageLayout) (c : TcpClient) (io : k.State)
      → c.is_connected ≡ true
      → length (k.pending io) < l.size
      → ((client_receive k l c io).0 ≡ (none, c))
        ⊎ ((client_receive k l c io).0 ≡ (none, record c { is_connected = false }))
  unfolding client_receive client_end
  client_receive_short l c io up short =
      elim (recv_loop_short l.size l.size [] io (omega arith) (omega arith)) [
        | inl e ↦ rw (e, up) (inl refl)
        | inr e ↦ rw (e, up) (inr refl)
      ]

  server_receive_short :
      (l : MessageLayout) (s : TcpServer) (io : k.State)
      → is_some s.client_fd ≡ true
      → length (k.pending io) < l.size
      → ((server_receive k l s io).0 ≡ (none, s))
        ⊎ ((server_receive k l s io).0 ≡ (none, close_connection s))
  unfolding server_receive server_end
  server_receive_short l s io up short =
      elim (recv_loop_short l.size l.size [] io (omega arith) (omega arith)) [
        | inl e ↦ rw (e, up) (inl refl)
        | inr e ↦ rw (e, up) (inr refl)
      ]

pub take_all : {A : Type 0} (n : ℕ) (xs : List A) → length xs ≡ n → take n xs ≡ xs
take_all zero [] e = refl
take_all zero (x ∷ xs) e = absurd (omega arith)
take_all (suc n) [] e = absurd (omega arith)
take_all (suc n) (x ∷ xs) e = ap (◌∷◌ x) (take_all n xs (omega arith))

module _ (k : Socket) (l : MessageLayout) where
  -- The loop of `receive_message` where a message and more is pending.
  message_lem :
      (m : ControlMessage) (rest : List ℕ) (io : k.State)
      → l.IsMessage m
      → m.magic ≡ magic_value
      → k.pending io ≡ l.bytes_of m ++ rest
      → ((recv_loop k l.size l.size [] io).0 ≡ full (l.bytes_of m))
        × (k.pending (recv_loop k l.size l.size [] io).1 ≡ rest)
        × (deserialize l (l.bytes_of m) ≡ some m)
  unfolding deserialize
  message_lem m rest io fits magic p =
      let r =
        recv_loop_pending k l.size l.size [] (l.bytes_of m) rest io (omega arith)
          (omega (arith, l.length-bytes_of m fits)) p in
      (
        r.0,
        r.1,
        rw
            (
              l.length-bytes_of m fits,
              le→ltb l.size l.size (omega arith),
              whole,
              l.message_of-bytes_of m fits,
              magic,
            )
            refl,
      )
    where
      whole : take l.size (l.bytes_of m) ≡ l.bytes_of m
      whole = take_all l.size (l.bytes_of m) (l.length-bytes_of m fits)

  pub client_receive_lem :
      (c : TcpClient) (m : ControlMessage) (rest : List ℕ) (io : k.State)
      → c.is_connected ≡ true
      → l.IsMessage m
      → m.magic ≡ magic_value
      → k.pending io ≡ l.bytes_of m ++ rest
      → ((client_receive k l c io).0 ≡ (some m, c)) × (k.pending (client_receive k l c io).1 ≡ rest)
  unfolding client_receive client_end
  client_receive_lem c m rest io up fits magic p =
      let r = message_lem m rest io fits magic p in rw (up, r.0, r.2) (refl, r.1)

  pub server_receive_lem :
      (s : TcpServer) (m : ControlMessage) (rest : List ℕ) (io : k.State)
      → is_some s.client_fd ≡ true
      → l.IsMessage m
      → m.magic ≡ magic_value
      → k.pending io ≡ l.bytes_of m ++ rest
      → ((server_receive k l s io).0 ≡ (some m, s)) × (k.pending (server_receive k l s io).1 ≡ rest)
  unfolding server_receive server_end
  server_receive_lem s m rest io up fits magic p =
      let r = message_lem m rest io fits magic p in rw (up, r.0, r.2) (refl, r.1)
