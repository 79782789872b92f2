-- ===== src/Api/Params.antt =====
-- sdr-udp/src/sdr_api.cpp: the parameters that `sdr_send_post` offers and that `sdr_recv_post` settles.
-- A text is its characters before the zero byte; `strncpy` keeps 15 of them.
use sdr_rdma_udp.Common.{
  ℕ, ◌≤◌, ◌<◌, ◌≡◌, ◌≢◌, ◌↔◌, refl, List, [], ◌∷◌, ◌==◌, if◌then◌else◌, min, take, arith,
}
use sdr_rdma_udp.Packet.{max_payload_size}
use sdr_rdma_udp.Control.{ConnectionParams}

-- `x ? x : default`
abbrev pub or_default : ℕ → ℕ → ℕ
or_default x fallback = if x == 0 then fallback else x

abbrev pub loopback : List ℕ
loopback = b'1' ∷ b'2' ∷ b'7' ∷ b'.' ∷ b'0' ∷ b'.' ∷ b'0' ∷ b'.' ∷ b'1' ∷ []

pub settle_ip : List ℕ → List ℕ → List ℕ
settle_ip (x ∷ xs) offered = x ∷ xs
settle_ip [] (y ∷ ys) = take 15 (y ∷ ys)
settle_ip [] [] = loopback

-- What the sender asks for.
unfoldable pub offer_params : ConnectionParams → ℕ → ConnectionParams
offer_params p length = record p {
  total_bytes = length;
  mtu_bytes = or_default p.mtu_bytes max_payload_size;
  packets_per_chunk = or_default p.packets_per_chunk 32;
  num_channels = or_default p.num_channels 1;
  udp_server_port = 0;
  udp_server_ip = [];
}

-- What the receiver makes of its own parameters `p` and the offer `q`.
unfoldable pub negotiate : ConnectionParams → ConnectionParams → ℕ → ConnectionParams
unfolding settle_ip
negotiate p q size =
    let proposed = or_default p.mtu_bytes (or_default q.mtu_bytes max_payload_size) in
    let port = or_default p.udp_server_port (or_default p.channel_base_port 9999) in
    record p {
      total_bytes = or_default q.total_bytes size;
      mtu_bytes = min (or_default proposed max_payload_size) max_payload_size;
      packets_per_chunk = or_default p.packets_per_chunk (or_default q.packets_per_chunk 64);
      num_channels = or_default q.num_channels (or_default p.num_channels 1);
      udp_server_port = port;
      channel_base_port = or_default p.channel_base_port port;
      udp_server_ip = settle_ip p.udp_server_ip q.udp_server_ip;
      transfer_id = or_default p.transfer_id 1;
    }

-- Parameters that have all that a transfer divides by, listens on or is told apart by.
pub record IsFilledIn (p : ConnectionParams) : Type 0 where
  pub mtu_pos : 0 < p.mtu_bytes
  pub mtu_fits : p.mtu_bytes ≤ max_payload_size
  pub chunk_pos : 0 < p.packets_per_chunk
  pub channel : 0 < p.num_channels
  pub server_port : 0 < p.udp_server_port
  pub base_port : 0 < p.channel_base_port
  pub address : p.udp_server_ip ≢ []
  pub transfer : 0 < p.transfer_id

settle_ip-ne : (xs ys : List ℕ) → settle_ip xs ys ≢ []
unfolding settle_ip
settle_ip-ne (x ∷ xs) ys h = cc
settle_ip-ne [] (y ∷ ys) h = cc
settle_ip-ne [] [] h = cc

pub negotiate-IsFilledIn : (p q : ConnectionParams) (size : ℕ) → IsFilledIn (negotiate p q size)
unfolding negotiate
negotiate-IsFilledIn p q size = record {
  mtu_pos = ground arith;
  mtu_fits = omega arith;
  chunk_pos = ground arith;
  channel = ground arith;
  server_port = ground arith;
  base_port = ground arith;
  address = settle_ip-ne p.udp_server_ip q.udp_server_ip;
  transfer = ground arith;
}

settle_ip_keeps : (xs ys : List ℕ) → xs ≢ [] → settle_ip xs ys ≡ xs
unfolding settle_ip
settle_ip_keeps (x ∷ xs) ys h = refl
settle_ip_keeps [] ys h = absurd (h refl)

-- Usable parameters that already have the offer's size and channels are kept as they are.
negotiate_keeps :
    (p q : ConnectionParams) (size : ℕ)
    → IsFilledIn p
    → or_default q.total_bytes size ≡ p.total_bytes
    → or_default q.num_channels (or_default p.num_channels 1) ≡ p.num_channels
    → negotiate p q size ≡ p
unfolding negotiate
negotiate_keeps p q size u total channels =
    ground (arith, settle_ip_keeps p.udp_server_ip q.udp_server_ip u.address)

-- Whatever the two sides bring, in the parameters that the receiver settles the MTU, the packets
-- per chunk, the number of channels, both ports and the transfer id are not zero, the MTU is at
-- most MAX_PAYLOAD_SIZE, and there is an address; the total size is zero exactly where the offer
-- and the receiver's buffer both have none; the sizes of a packet and of a chunk are the receiver's
-- own, unchanged; and settling these parameters anew for the same offer and buffer changes nothing.
pub negotiate_lem :
    (p q : ConnectionParams) (size : ℕ)
    → let r = negotiate p q size in
      IsFilledIn r
      × ((r.total_bytes ≡ 0) ↔ ((q.total_bytes ≡ 0) × (size ≡ 0)))
      × (r.packet_bytes ≡ p.packet_bytes)
      × (r.chunk_bytes ≡ p.chunk_bytes)
      × (negotiate r q size ≡ r)
negotiate_lem p q size =
    let filled = negotiate-IsFilledIn p q size in
    (
      filled,
      unfold negotiate in (λ e. (ground arith, ground arith), λ e. ground arith),
      unfold negotiate in refl,
      unfold negotiate in refl,
      negotiate_keeps (negotiate p q size) q size filled (unfold negotiate in refl)
          (unfold negotiate in ground arith),
    )
