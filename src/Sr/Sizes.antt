-- ===== src/Sr/Sizes.antt =====
-- How the sender of selective repeat counts chunks and packets, against the receiver's counts.
use sdr_rdma_udp.Common.{
  ℕ, zero, suc, ◌+◌, ◌-◌, ◌*◌, ◌/◌, ◌^◌, ◌≤◌, ◌<◌, ◌≡◌, true, false, List, min, ltb, ◌==◌,
  if◌then◌else◌, u64, arith, lt→ltb, le→ltb,
}
use native.Mathlib.Decide.{dec_lt}
use sdr_rdma_udp.Connection.{calculate_bitmap_sizes}
use sdr_rdma_udp.Connection.Sizes.{sizes_lem, ceil_bounds, ceil_tight, ceil_unique}
use sdr_rdma_udp.Sr.Report.{SrConfig, SrStats}
use sdr_rdma_udp.Sr.Sender.{SrSender, Link, packets_of_chunks}
use sdr_rdma_udp.Sr.Sender.Poll.{start_state}

times-le : (a b m : ℕ) → a ≤ b → a * m ≤ b * m
times-le a b m h = grind arith

regroup : (c p m : ℕ) → c * p * m ≡ c * (m * p)
regroup c p m = grind arith

one_more : (c n m p : ℕ) → 0 < c → (c - 1) * p * m < n → c * (m * p) < n + m * p
one_more zero n m p pos h = absurd (omega arith)
one_more (suc c) n m p pos h =
    let before : suc c - 1 ≡ c = omega arith in
    let rest : c * p * m < n = rw before at h in
    let e = regroup c p m in
    let d : suc c * (m * p) ≡ c * (m * p) + m * p = grind arith in omega arith

-- Cutting into packets and the packets into chunks is cutting into chunks.
ceil_twice : (n m p : ℕ) → 0 < m → 0 < p → (n + m * p - 1) / (m * p) ≡ ((n + m - 1) / m + p - 1) / p
ceil_twice n m p hm hp =
    let packets : ℕ = (n + m - 1) / m in
    let chunks : ℕ = (packets + p - 1) / p in
    let pos : 0 < m * p = grind arith in
    let (enough, least) = ceil_bounds n m hm in
    let (enough', least') = ceil_bounds packets p hp in
    let covers : n ≤ chunks * (m * p) =
      omega (arith, enough, times-le packets (chunks * p) m enough', regroup chunks p m) in
    ceil_unique n (m * p) chunks pos covers (elim (dec_lt 0 chunks) [
      | no z ↦ let e : chunks ≡ 0 = omega arith in rw e (grind arith)
      | yes some_chunk ↦
          let before : (chunks - 1) * p < packets = least' (chunks - 1) (omega arith) in
          one_more chunks n m p some_chunk (least ((chunks - 1) * p) before)
    ])

-- From the same sizes, which are not zero and do not wrap, the sender of selective repeat counts as
-- many chunks as the receiver does from its packets.
pub same_chunks :
    (k : Link) (cfg : SrConfig) (now msg_id : ℕ) (buffer : List ℕ) (size : ℕ) (stats : SrStats)
    → 0 < k.params.mtu_bytes
    → 0 < k.params.packets_per_chunk
    → size + k.params.mtu_bytes * k.params.packets_per_chunk ≤ 2 ^ 64
    → size + k.params.mtu_bytes ≤ 2 ^ 64
    → size + k.params.packets_per_chunk ≤ 2 ^ 64
    → (calculate_bitmap_sizes size k.params.mtu_bytes k.params.packets_per_chunk).1 < 2 ^ 32
    → (start_state k cfg now msg_id buffer size stats).total_chunks
      ≡ (calculate_bitmap_sizes size k.params.mtu_bytes k.params.packets_per_chunk).1
unfolding start_state
same_chunks k cfg now msg_id buffer size stats hm hp small small_m small_p fits =
    let mtu : ℕ = k.params.mtu_bytes in
    let ppc : ℕ = k.params.packets_per_chunk in
    let sizes = sizes_lem size mtu ppc hm hp small_m small_p in
    let ne : (mtu == 0) ≡ false = ground arith in
    let ne' : (ppc == 0) ≡ false = ground arith in
    let pos : 0 < mtu * ppc = grind arith in
    let whole : u64 (size + mtu * ppc + (2 ^ 64 - 1)) ≡ size + mtu * ppc - 1 = omega arith in
    rw (ne, ne', whole, ceil_twice size mtu ppc hm hp, sizes) (omega (arith, rw sizes at fits))

-- The bytes of `p` packets from packet `first` on, cut off at the end of the buffer, are those packets, cut
-- off at the last.
parts :
    (n m p first : ℕ)
    → 0 < m
    → first < (n + m - 1) / m
    → ((if ltb n (first * m + p * m) then n - first * m else p * m) + m - 1) / m
      ≡ min p ((n + m - 1) / m - first)
parts n m p first pos h =
    let packets : ℕ = (n + m - 1) / m in
    let (enough, least) = ceil_bounds n m pos in
    let tight = ceil_tight n m pos in
    let starts : first * m < n = least first h in
    let e : (packets - first) * m + first * m ≡ packets * m =
      sub_times packets first m (omega arith) in
    let d : (first + p) * m ≡ first * m + p * m = grind arith in
    elim (dec_lt n (first * m + p * m)) [
      | yes cut ↦
          let t : ltb n (first * m + p * m) ≡ true = lt→ltb n (first * m + p * m) cut in
          let few : packets ≤ first + p = elim (dec_lt (first + p) packets) [
            | yes more ↦ absurd (omega (arith, least (first + p) more))
            | no le ↦ omega arith
          ] in
          let q : (n - first * m + m - 1) / m ≡ packets - first =
            ceil_unique (n - first * m) m (packets - first) pos (omega (arith, enough))
              (omega (arith, tight)) in
          rw (t, q) (omega arith)
      | no fits ↦
          let t : ltb n (first * m + p * m) ≡ false = le→ltb n (first * m + p * m) (omega arith) in
          let many : first + p ≤ packets = elim (dec_lt packets (first + p)) [
            | yes fewer ↦
                let up = times-le (packets + 1) (first + p) m (omega arith) in
                let f : (packets + 1) * m ≡ packets * m + m = grind arith in
                absurd (omega (arith, enough))
            | no le ↦ omega arith
          ] in
          let q : (p * m + m - 1) / m ≡ p =
            ceil_unique (p * m) m p pos (omega arith) (omega arith) in
          rw (t, q) (omega arith)
    ]
  where
    sub_times : (a b k : ℕ) → b ≤ a → (a - b) * k + b * k ≡ a * k
    sub_times a b k le = grind arith

-- For sizes that are not zero and do not wrap and a chunk that the message has, what is sent again
-- for the chunk is its packets: from its first on, as many as a chunk has or the message has left.
pub packets_of_chunks_lem :
    (s : SrSender) (c : ℕ)
    → 0 < s.mtu_bytes
    → s.packets_per_chunk * s.mtu_bytes < 2 ^ 62
    → s.buffer_size + s.mtu_bytes < 2 ^ 62
    → let packets = (s.buffer_size + s.mtu_bytes - 1) / s.mtu_bytes in
      packets < 2 ^ 32
      → c * s.packets_per_chunk < packets
      → packets_of_chunks s c 1
        ≡ (c * s.packets_per_chunk, min s.packets_per_chunk (packets - c * s.packets_per_chunk))
unfolding packets_of_chunks
packets_of_chunks_lem s c pos small_chunk small fits below =
    let m : ℕ = s.mtu_bytes in
    let p : ℕ = s.packets_per_chunk in
    let n : ℕ = s.buffer_size in
    let first : ℕ = c * p in
    let starts : first * m < n = (ceil_bounds n m pos).1 first below in
    let place : u64 (c * (p * m)) ≡ first * m =
      omega (arith, regroup c m p, starts, place_lem c p m) in
    let all : u64 (1 * (p * m)) ≡ p * m = omega arith in
    let sum : u64 (first * m + p * m) ≡ first * m + p * m = omega arith in
    let len : ℕ = if ltb n (first * m + p * m) then n - first * m else p * m in
    let len_small : len < 2 ^ 63 = ground arith in
    let whole : u64 (len + m + (2 ^ 64 - 1)) ≡ len + m - 1 = omega arith in
    let cut = parts n m p first pos below in
    let div : first * m / m ≡ first = div_times first m pos in
    rw (place, all, sum, whole, cut, div) (pairs (omega arith) (omega arith))
  where
    place_lem : (c p m : ℕ) → c * (p * m) ≡ c * p * m
    place_lem c p m = grind arith

    div_times : (q k : ℕ) → 0 < k → q * k / k ≡ q
    div_times q k h = grind arith

    pairs : {a b a' b' : ℕ} → a ≡ a' → b ≡ b' → ◌≡◌ {A = ℕ × ℕ} (a, b) (a', b')
    pairs e f = cc
