-- ===== src/Examples/Coded.antt =====
-- The buffer for data and parity of sdr-udp/examples/sdr_test_receiver.cpp, against the length that
-- sdr-udp/reliability/ec.cpp wants and the bytes that its sender sends.
use sdr_rdma_udp.Common.{
  ℕ, ◌-◌, ◌*◌, ◌^◌, ◌<◌, ◌≤◌, ◌≡◌, refl, ap, sym, ◌∙◌, List, ◌++◌, length, take, replicate,
  length-append, length-take, length-replicate, true, false, some, ltb, ◌==◌, min, u32, arith,
  le→ltb,
}
use native.Mathlib.Nat.{mul-pos, mul-le-mul}
use sdr_rdma_udp.Control.{ConnectionParams}
use sdr_rdma_udp.Connection.{MessageContext}
use sdr_rdma_udp.Packet.{max_payload_size}
use sdr_rdma_udp.Api.Params.{or_default}
use sdr_rdma_udp.Ec.{EcConfig, EcReceiver, Sizes, sizes, coded_bytes, post_receive}
use sdr_rdma_udp.Ec.Sender.{padded_storage}
use sdr_rdma_udp.Examples.Receiver.{ec_total_length}

nonzero : (x : ℕ) → 0 < x → (x == 0) ≡ false
nonzero x h = ground arith

or_default-pos : (x d : ℕ) → 0 < x → or_default x d ≡ x
or_default-pos x d h = ground arith

-- What both sides take a configuration's numbers as they are for.
pub record IsCoded (cfg : EcConfig) (p : ConnectionParams) : Type 0 where
  pub mtu : 0 < p.mtu_bytes
  pub per_chunk : 0 < p.packets_per_chunk
  pub per_chunk_16 : p.packets_per_chunk < 2 ^ 16
  pub k : 0 < cfg.k_data
  pub m : 0 < cfg.m_parity
  pub bytes : 0 < cfg.data_bytes

product-fits :
    (mtu per : ℕ)
    → 0 < mtu
    → 0 < per
    → per < 2 ^ 16
    → (u32 (min mtu max_payload_size * per) == 0) ≡ false
product-fits mtu per a b c =
    let w : min mtu max_payload_size ≤ max_payload_size = omega arith in
    let below : min mtu max_payload_size * per ≤ max_payload_size * (2 ^ 16 - 1) =
      mul-le-mul w (let x : per ≤ 2 ^ 16 - 1 = omega arith in x) in
    let above : 0 < min mtu max_payload_size * per =
      mul-pos (let x : 0 < min mtu max_payload_size = omega arith in x) b in
    ground (arith, below, above)

pub ec_total_length_lem :
    {cfg : EcConfig} {p : ConnectionParams} (n : ℕ)
    → IsCoded cfg p
    → ec_total_length cfg p cfg.data_bytes ≡ some (coded_bytes (sizes cfg p n))
unfolding ec_total_length sizes
ec_total_length_lem {cfg} {p} n v =
    rw
      (
        or_default-pos cfg.data_bytes n v.bytes,
        or_default-pos cfg.k_data 4 v.k,
        or_default-pos cfg.m_parity 2 v.m,
        or_default-pos p.mtu_bytes max_payload_size v.mtu,
        or_default-pos p.packets_per_chunk 32 v.per_chunk,
        product-fits p.mtu_bytes p.packets_per_chunk v.mtu v.per_chunk v.per_chunk_16,
        nonzero cfg.k_data v.k,
      )
      refl

-- Where the configuration has the number of bytes, the length that is given does not matter.
sizes-length :
    (cfg : EcConfig) (p : ConnectionParams) (a b : ℕ)
    → 0 < cfg.data_bytes
    → sizes cfg p a ≡ sizes cfg p b
unfolding sizes
sizes-length cfg p a b h =
    rw (or_default-pos cfg.data_bytes a h, or_default-pos cfg.data_bytes b h) refl

bytes-sizes :
    (cfg : EcConfig) (p : ConnectionParams) (n : ℕ)
    → 0 < cfg.data_bytes
    → cfg.data_bytes ≡ (sizes cfg p n).data_bytes
unfolding sizes
bytes-sizes cfg p n h = sym (or_default-pos cfg.data_bytes n h)

padded_storage-length :
    (z : Sizes) (content : List ℕ)
    → length content ≡ z.data_bytes
    → (storage : List ℕ) × (padded_storage z content ≡ some storage)
      × (length storage ≡ coded_bytes z)
unfolding padded_storage
padded_storage-length z content e =
    let total = coded_bytes z in
    let n = min z.data_bytes total in
    let enough : ltb (length content) n ≡ false = le→ltb (length content) n (omega arith) in
    (
      take n content ++ replicate (total - n) 0,
      rw enough refl,
      omega (
        arith,
        length-append (take n content) (replicate (total - n) 0),
        length-take n content,
        length-replicate {A = ℕ} (total - n) 0,
      ),
    )

-- For a configuration of the erasure code whose numbers of data and parity chunks are not zero, a
-- message of the length that it names, not zero, and an MTU and a number of packets per chunk that
-- are not zero, the latter below 2^16: the size that the receiver's main computes for its buffer is
-- accepted by ECReceiver::post_receive, and is the length of the storage that ECSender makes of the
-- message with the same configuration and parameters.
pub coded_buffer_fits :
    (r : EcReceiver) (p : ConnectionParams) (ctx : MessageContext) (content : List ℕ)
    → IsCoded r.cfg p
    → length content ≡ r.cfg.data_bytes
    → (size : ℕ) × (storage : List ℕ) × (ec_total_length r.cfg p r.cfg.data_bytes ≡ some size)
      × ((post_receive r p size (some ctx)).0 ≡ true)
      × (padded_storage (sizes r.cfg p (length content)) content ≡ some storage)
      × (length storage ≡ size)
unfolding post_receive
coded_buffer_fits r p ctx content v e =
    let size = coded_bytes (sizes r.cfg p (length content)) in
    let same : coded_bytes (sizes r.cfg p size) ≡ size =
      ap coded_bytes (sizes-length r.cfg p size (length content) v.bytes) in
    let bytes : length content ≡ (sizes r.cfg p (length content)).data_bytes =
      e ∙ bytes-sizes r.cfg p (length content) v.bytes in
    let s = padded_storage-length (sizes r.cfg p (length content)) content bytes in
    (
      size,
      s.0,
      ec_total_length_lem (length content) v,
      rw (le→ltb size (coded_bytes (sizes r.cfg p size)) (omega (arith, same))) refl,
      s.1,
      s.2,
    )
