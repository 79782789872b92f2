-- ===== src/Receiver/Workers/Start.antt =====
-- sdr-udp/include/sdr_receiver.h, UDPReceiver::start: the workers after it, and the sockets that a
-- failure gives back.
use sdr_rdma_udp.Common.{
  ℕ, zero, suc, ◌+◌, ◌≤◌, ◌<◌, ◌≡◌, refl, ap, ◌∙◌, subst, inl, inr, Bool, true, false, ◌&&◌, Option,
  none, some, List, [], ◌∷◌, map, max, arith, if◌then◌else◌, ltb, get_or, set, replicate, length,
  length-set, length-replicate, length-map, get_or-set_self, get_or-set_ne, get_or-replicate, u16,
  Bool-cases, all_from, lt→ltb,
}
use native.Mathlib.Decide.{ℕ_discrete}
use sdr_rdma_udp.Connection.{ConnectionContext, set_udp_socket}
use sdr_rdma_udp.Receiver.Workers.{
  Worker, idle_worker, UdpReceiver, ChannelCalls, held_sockets, stop, open_channel, open_channels,
  with_thread, start_threads, start, is_ok, channel_worker,
}

-- A receiver that is not running and holds no socket.
pub record IsIdle (r : UdpReceiver) : Type 0 where
  pub no_workers : r.workers ≡ []
  pub not_running : r.is_running ≡ false
  pub balance : r.opened ≡ r.closed_count

-- A worker before its thread.
abbrev ready_worker : ℕ → ChannelCalls → ℕ → Worker
ready_worker base_port calls idx = record {
  thread = false;
  udp_socket_fd = calls.socket;
  udp_port = u16 (base_port + idx);
}

held_sockets-set :
    (ws : List Worker) (i fd port : ℕ)
    → i < length ws
    → get_or ws i idle_worker ≡ idle_worker
    → held_sockets (set ws i (record { thread = false; udp_socket_fd = some fd; udp_port = port }))
      ≡ held_sockets ws + 1
held_sockets-set [] i fd port h e = absurd (omega arith)
held_sockets-set (w ∷ ws) zero fd port h e = rw e (omega arith)
held_sockets-set (w ∷ ws) (suc i) fd port h e =
    omega (arith, held_sockets-set ws i fd port (omega arith) e)

held_sockets-replicate : (n : ℕ) → held_sockets (replicate n idle_worker) ≡ 0
held_sockets-replicate zero = refl
held_sockets-replicate (suc n) = omega (arith, held_sockets-replicate n)

-- The loop at channel `idx` of `total`: the workers from there on are idle.
record IsOpening (calls : ℕ → ChannelCalls) (base_port total idx : ℕ) (r : UdpReceiver)
    : Type 0 where
  same_port : r.base_port ≡ base_port
  sized : length r.workers ≡ total
  done : (i : ℕ) → i < idx → get_or r.workers i idle_worker ≡ ready_worker base_port (calls i) i
  to_come : (i : ℕ) → idx ≤ i → get_or r.workers i idle_worker ≡ idle_worker
  balance : r.opened ≡ r.closed_count + held_sockets r.workers

module _ (calls : ℕ → ChannelCalls) (base_port total : ℕ) where
  opened-IsOpening :
      (idx fd : ℕ) (r : UdpReceiver)
      → idx < total
      → (calls idx).socket ≡ some fd
      → IsOpening calls base_port total idx r
      → IsOpening calls base_port total (idx + 1) (record r {
        opened = r.opened + 1;
        workers = set r.workers idx (record {
          thread = false;
          udp_socket_fd = some fd;
          udp_port = u16 (r.base_port + idx);
        });
      })
  opened-IsOpening idx fd r lt e o = record {
    same_port = o.same_port;
    sized = length-set r.workers idx _ ∙ o.sized;
    done = λ i below. elim (ℕ_discrete idx i) [
      | yes same ↦
          rw
            (
              ← same,
              get_or-set_self r.workers idx opened idle_worker (omega (arith, o.sized)),
              o.same_port,
              e,
            )
            refl
      | no ne ↦ rw (get_or-set_ne r.workers idx i opened idle_worker ne) (o.done i (omega arith))
    ];
    to_come = λ i above.
        rw (get_or-set_ne r.workers idx i opened idle_worker (λ same. omega arith))
          (o.to_come i (omega arith));
    balance = omega (
      arith,
      o.balance,
      held_sockets-set r.workers idx fd (u16 (r.base_port + idx)) (omega (arith, o.sized))
          (o.to_come idx (omega arith)),
    );
  }
    where
      opened : Worker
      opened = record {
        thread = false;
        udp_socket_fd = some fd;
        udp_port = u16 (r.base_port + idx);
      }

  -- How a channel ends.
  data IsOpened (idx : ℕ) : Bool × UdpReceiver → Type 0 where
    went_on :
        (r : UdpReceiver)
        → is_ok (calls idx) ≡ true
        → IsOpening calls base_port total (idx + 1) r
        → IsOpened idx (true, r)
    gave_up : (r : UdpReceiver) → is_ok (calls idx) ≡ false → IsIdle r → IsOpened idx (false, r)

  open_channel-IsOpened :
      (idx : ℕ) (r : UdpReceiver)
      → idx < total
      → IsOpening calls base_port total idx r
      → IsOpened idx (open_channel (calls idx) (calls idx).socket idx r)
  unfolding open_channel stop
  open_channel-IsOpened idx r lt o = go (calls idx).socket refl
    where
      go : (s : Option ℕ) → (calls idx).socket ≡ s → IsOpened idx (open_channel (calls idx) s idx r)
      go none e =
          gave_up (stop r) (rw e refl)
            (record { no_workers = refl; not_running = refl; balance = o.balance })
      go (some fd) e = elim (Bool-cases ((calls idx).setsockopt_ok && (calls idx).bind_ok)) [
        | inl t ↦ rw t (went_on _ (rw e t) (opened-IsOpening idx fd r lt e o))
        | inr f ↦ rw f (
            gave_up _ (rw e f) (record {
              no_workers = refl;
              not_running = refl;
              balance = omega (arith, o.balance);
            }))
      ]

  data AreOpened (idx n : ℕ) : Bool × UdpReceiver → Type 0 where
    all_open :
        (r : UdpReceiver)
        → all_from (λ i. is_ok (calls i)) n idx ≡ true
        → IsOpening calls base_port total total r
        → AreOpened idx n (true, r)
    none_open :
        (r : UdpReceiver)
        → all_from (λ i. is_ok (calls i)) n idx ≡ false
        → IsIdle r
        → AreOpened idx n (false, r)

  extend :
      (idx n : ℕ) (x : Bool × UdpReceiver)
      → is_ok (calls idx) ≡ true
      → AreOpened (idx + 1) n x
      → AreOpened idx (suc n) x
  extend idx n _ ok (all_open r all o) = all_open r (rw (ok, all) refl) o
  extend idx n _ ok (none_open r all i) = none_open r (rw (ok, all) refl) i

  open_channels-AreOpened :
      (n idx : ℕ) (r : UdpReceiver)
      → idx + n ≡ total
      → IsOpening calls base_port total idx r
      → AreOpened idx n (open_channels calls n idx r)
  unfolding open_channels
  open_channels-AreOpened zero idx r e o = all_open r refl (
      subst (λ k. IsOpening calls base_port total k r)
        (let same : idx ≡ total = omega arith in same) o)
  open_channels-AreOpened (suc n) idx r e o =
      rest (open_channel (calls idx) (calls idx).socket idx r)
        (open_channel-IsOpened idx r (omega arith) o)
        (λ r' o'. open_channels-AreOpened n (idx + 1) r' (omega arith) o')
    where
      rest :
          (x : Bool × UdpReceiver)
          → IsOpened idx x
          → ((r' : UdpReceiver)
              → IsOpening calls base_port total (idx + 1) r'
              → AreOpened (idx + 1) n (open_channels calls n (idx + 1) r'))
          → AreOpened idx (suc n) (if x.0 then open_channels calls n (idx + 1) x.1 else x)
      rest _ (went_on r' ok o') later =
          extend idx n (open_channels calls n (idx + 1) r') ok (later r' o')
      rest _ (gave_up r' bad i) later = none_open r' (rw bad refl) i

pub data IsStarted (c : ConnectionContext) (base_port num_channels : ℕ) (calls : ℕ → ChannelCalls)
    : Bool × UdpReceiver × ConnectionContext → Type 0 where
  running :
      (r : UdpReceiver)
      → all_from (λ i. is_ok (calls i)) (max 1 num_channels) 0 ≡ true
      → length r.workers ≡ max 1 num_channels
      → ((i : ℕ)
          → i < max 1 num_channels
          → get_or r.workers i idle_worker ≡ channel_worker base_port (calls i) i)
      → r.is_running ≡ true
      → r.opened ≡ r.closed_count + held_sockets r.workers
      → IsStarted c base_port num_channels calls (true, r, set_udp_socket c (calls 0).socket)
  refused :
      (r : UdpReceiver)
      → all_from (λ i. is_ok (calls i)) (max 1 num_channels) 0 ≡ false
      → IsIdle r
      → IsStarted c base_port num_channels calls (false, r, c)

held_sockets-with_thread : (ws : List Worker) → held_sockets (map with_thread ws) ≡ held_sockets ws
held_sockets-with_thread [] = refl
held_sockets-with_thread (w ∷ ws) = omega (arith, held_sockets-with_thread ws)

get_or-with_thread :
    (ws : List Worker) (i : ℕ)
    → i < length ws
    → get_or (map with_thread ws) i idle_worker ≡ with_thread (get_or ws i idle_worker)
get_or-with_thread [] i h = absurd (omega arith)
get_or-with_thread (w ∷ ws) zero h = refl
get_or-with_thread (w ∷ ws) (suc i) h = get_or-with_thread ws i (omega arith)

pub start-IsStarted :
    (r : UdpReceiver) (c : ConnectionContext) (base_port num_channels : ℕ)
    (calls : ℕ → ChannelCalls)
    → IsIdle r
    → IsStarted c base_port num_channels calls (start r c base_port num_channels calls)
unfolding start start_threads
start-IsStarted r c base_port num_channels calls idle = rw idle.not_running (
    threads (open_channels calls total 0 ready)
      (open_channels-AreOpened calls base_port total total 0 ready (omega arith) opening))
  where
    total : ℕ
    total = max 1 num_channels

    ready : UdpReceiver
    ready = record r {
      base_port = base_port;
      num_channels = total;
      workers = replicate total idle_worker;
      should_stop = false;
      is_running = false;
    }

    opening : IsOpening calls base_port total 0 ready
    opening = record {
      same_port = refl;
      sized = length-replicate total idle_worker;
      done = λ i below. absurd (omega arith);
      to_come = λ i above. get_or-replicate total i idle_worker;
      balance = omega (arith, idle.balance, held_sockets-replicate total);
    }

    threads :
        (x : Bool × UdpReceiver)
        → AreOpened calls base_port total 0 total x
        → IsStarted c base_port num_channels calls (start_threads c x)
    threads _ (none_open r' bad i) = refused r' bad i
    threads _ (all_open r' ok o) =
        let pos : ltb 0 (length r'.workers) ≡ true =
          lt→ltb 0 (length r'.workers) (omega (arith, o.sized)) in
        rw (pos, o.done 0 (omega arith))
          (running _ ok (length-map with_thread r'.workers ∙ o.sized)
            (λ i lt.
              get_or-with_thread r'.workers i (omega (arith, o.sized))
              ∙ ap with_thread (o.done i lt))
            refl (omega (arith, o.balance, held_sockets-with_thread r'.workers)))
