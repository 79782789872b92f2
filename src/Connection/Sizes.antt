-- ===== src/Connection/Sizes.antt =====
-- `calculate_bitmap_sizes` as quotients rounded up.
use native.Mathlib.Decide.{dec_lt}
use sdr_rdma_udp.Common.{
  ℕ, ◌+◌, ◌-◌, ◌*◌, ◌/◌, ◌%◌, ◌^◌, ◌≤◌, ◌<◌, ◌≡◌, false, ◌||◌, ◌==◌, u64, arith,
}
use sdr_rdma_udp.Connection.{calculate_bitmap_sizes}

-- The quotient rounded up: enough units, and none to spare.
pub ceil_bounds :
    (n k : ℕ) → 0 < k → (n ≤ (n + k - 1) / k * k) × ((i : ℕ) → i < (n + k - 1) / k → i * k < n)
ceil_bounds n k pos =
    let q : (n + k - 1) / k * k + (n + k - 1) % k ≡ n + k - 1 = grind arith in
    let r : (n + k - 1) % k < k = grind arith in
    (omega arith, λ i h. let m : (i + 1) * k ≤ (n + k - 1) / k * k = grind arith in omega arith)

pub ceil_tight : (n k : ℕ) → 0 < k → (n + k - 1) / k * k < n + k
ceil_tight n k pos = let q : (n + k - 1) / k * k ≤ n + k - 1 = grind arith in omega arith

-- The quotient rounded up is the only number of parts of size `k` that cover `n` with none to spare.
pub ceil_unique : (n k q : ℕ) → 0 < k → n ≤ q * k → q * k < n + k → (n + k - 1) / k ≡ q
ceil_unique n k q pos covers tight =
    let (enough, least) = ceil_bounds n k pos in
    elim (dec_lt q ((n + k - 1) / k)) [
      | yes more ↦ absurd (omega (arith, least q more))
      | no le ↦ elim (dec_lt ((n + k - 1) / k) q) [
        | yes fewer ↦
            let up : ((n + k - 1) / k + 1) * k ≤ q * k = grind arith in absurd (omega arith)
        | no ge ↦ omega arith
      ]
    ]

minus_one : (x : ℕ) → 0 < x → x ≤ 2 ^ 64 → u64 (x + (2 ^ 64 - 1)) ≡ x - 1
minus_one x pos fits = omega arith

pub ceil-le : (n k : ℕ) → 0 < k → (n + k - 1) / k ≤ n
ceil-le n k pos = elim (dec_lt 0 ((n + k - 1) / k)) [
  | no z ↦ omega arith
  | yes p ↦
      let below : ((n + k - 1) / k - 1) * k < n =
        (ceil_bounds n k pos).1 ((n + k - 1) / k - 1) (omega arith) in
      let grows : (n + k - 1) / k - 1 ≤ ((n + k - 1) / k - 1) * k = grind arith in omega arith
]

-- Sizes that do not wrap are the quotients rounded up.
pub sizes_lem :
    (bytes mtu ppc : ℕ)
    → 0 < mtu
    → 0 < ppc
    → bytes + mtu ≤ 2 ^ 64
    → bytes + ppc ≤ 2 ^ 64
    → calculate_bitmap_sizes bytes mtu ppc
      ≡ ((bytes + mtu - 1) / mtu, ((bytes + mtu - 1) / mtu + ppc - 1) / ppc)
unfolding calculate_bitmap_sizes
sizes_lem bytes mtu ppc hm hp small small' =
    let ne : ((mtu == 0) || (ppc == 0)) ≡ false = ground arith in
    rw (
      ne,
      minus_one (bytes + mtu) (omega arith) small,
      minus_one ((bytes + mtu - 1) / mtu + ppc) (omega arith) (omega (arith, ceil-le bytes mtu hm)),
    )

-- For sizes that are not zero and sums within 64 bits, the packets cover the message and one fewer
-- would not, and so for the chunks and the packets.
pub calculate_bitmap_sizes_lem :
    (bytes mtu ppc : ℕ)
    → 0 < mtu
    → 0 < ppc
    → bytes + mtu ≤ 2 ^ 64
    → bytes + ppc ≤ 2 ^ 64
    → let (packets, chunks) = calculate_bitmap_sizes bytes mtu ppc in
      (bytes ≤ packets * mtu)
      × (packets * mtu < bytes + mtu)
      × (packets ≤ chunks * ppc)
      × (chunks * ppc < packets + ppc)
calculate_bitmap_sizes_lem bytes mtu ppc hm hp small small' =
    rw (sizes_lem bytes mtu ppc hm hp small small') (
      (ceil_bounds bytes mtu hm).0,
      ceil_tight bytes mtu hm,
      (ceil_bounds ((bytes + mtu - 1) / mtu) ppc hp).0,
      ceil_tight ((bytes + mtu - 1) / mtu) ppc hp,
    )
