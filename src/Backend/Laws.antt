-- ===== src/Backend/Laws.antt =====
-- `set_packet_received` and `is_packet_received` on the set of received packets.
use sdr_rdma_udp.Common.{
  all_from_elim, all_from_intro, ◌↔◌, ℕ, ◌+◌, ◌*◌, ◌/◌, ◌^◌, ◌≤◌, ◌<◌, ◌≡◌, inl, inr, refl, ◌∙◌,
  Bool, true, false, not, ◌&&◌, ◌||◌, some, ltb, leb, ◌==◌, if◌then◌else◌, u32, arith, Bool-cases,
  length-replicate, lt→ltb, le→ltb, leb→le,
}
use sdr_rdma_udp.Common.WordArray.{
  bit_at, mark, load-test, fetch_or-mark, old-test, bit_at-mark, mark-AreWords, length-mark,
  bit_at-replicate, replicate-AreWords,
}
use sdr_rdma_udp.Backend.{
  BackendBitmap, new, set_packet_received, is_packet_received, IsValid, received, chunk_received,
}

pub new-IsValid : (total ppc : ℕ) → total + 2 ^ 16 ≤ 2 ^ 32 → ppc < 2 ^ 16 → IsValid (new total ppc)
unfolding new
new-IsValid total ppc small chunked = record {
  words = replicate-AreWords (u32 (total + 63) / 64);
  covers = omega (arith, length-replicate (u32 (total + 63) / 64) (let z : ℕ = 0 in z));
  sized = length-replicate (u32 (total + 63) / 64) 0;
  small = small;
  chunked = chunked;
}

pub total-new : (total ppc : ℕ) → (new total ppc).total_packets ≡ total
unfolding new
total-new total ppc = refl

-- Nothing has been received at first.
pub received-new : (total ppc i : ℕ) → received (new total ppc) i ≡ false
unfolding new received
received-new total ppc i = rw (bit_at-replicate (u32 (total + 63) / 64) i) (and_false (ltb i total))
  where
    and_false : (x : Bool) → (x && false) ≡ false
    and_false true = refl
    and_false false = refl

-- `is_packet_received` stays inside the array, and reads the set.
pub is_packet_received_lem :
    {b : BackendBitmap} (i : ℕ) → IsValid b → is_packet_received b i ≡ some (received b i)
unfolding is_packet_received received
is_packet_received_lem {b} i v = elim (Bool-cases (leb b.total_packets i)) [
  | inl out ↦ rw (out, le→ltb i b.total_packets (leb→le _ _ out))
  | inr inside ↦
      let h : i < b.total_packets = ground arith in
      rw (inside, lt→ltb i b.total_packets h)
        (load-test b.packet_bitmap i (omega (arith, v.covers)))
]

-- The bitmap with a packet added; a packet past the last changes nothing.
pub add_packet : BackendBitmap → ℕ → BackendBitmap
add_packet b i =
    if leb b.total_packets i then b else record b { packet_bitmap = mark b.packet_bitmap i }

-- `set_packet_received` stays inside the array. It says whether the packet is a new one in range.
pub set_packet_received_lem :
    {b : BackendBitmap} (i : ℕ)
    → IsValid b
    → set_packet_received b i ≡ some (ltb i b.total_packets && not (received b i), add_packet b i)
unfolding set_packet_received add_packet received
set_packet_received_lem {b} i v = elim (Bool-cases (leb b.total_packets i)) [
  | inl out ↦ rw (out, le→ltb i b.total_packets (leb→le _ _ out))
  | inr inside ↦
      let h : i < b.total_packets = ground arith in
      rw (
        inside,
        lt→ltb i b.total_packets h,
        fetch_or-mark b.packet_bitmap i (omega (arith, v.covers)),
        old-test b.packet_bitmap i,
      )
]

pub add_packet-IsValid : {b : BackendBitmap} (i : ℕ) → IsValid b → IsValid (add_packet b i)
unfolding add_packet
add_packet-IsValid {b} i v = elim (Bool-cases (leb b.total_packets i)) [
  | inl out ↦ rw out v
  | inr inside ↦ rw inside (record {
    words =
        mark-AreWords b.packet_bitmap i
          (omega (arith, v.covers, leb-false b.total_packets i inside)) v.words;
    covers = omega (arith, v.covers, length-mark b.packet_bitmap i);
    sized = length-mark b.packet_bitmap i ∙ v.sized;
    small = v.small;
    chunked = v.chunked;
  })
]
  where
    leb-false : (x y : ℕ) → leb x y ≡ false → y < x
    leb-false x y h = ground arith

pub total-add_packet :
    (b : BackendBitmap) (i : ℕ) → (add_packet b i).total_packets ≡ b.total_packets
unfolding add_packet
total-add_packet b i = ground arith

pub per_chunk-add_packet :
    (b : BackendBitmap) (i : ℕ) → (add_packet b i).packets_per_chunk ≡ b.packets_per_chunk
unfolding add_packet
per_chunk-add_packet b i = ground arith

-- Adding a packet adds that packet, if it is in range, and no other.
pub received-add_packet :
    {b : BackendBitmap} (i j : ℕ)
    → IsValid b
    → received (add_packet b i) j ≡ ((ltb i b.total_packets && (i == j)) || received b j)
unfolding add_packet received
received-add_packet {b} i j v = elim (Bool-cases (leb b.total_packets i)) [
  | inl out ↦ rw (out, le→ltb i b.total_packets (leb→le _ _ out))
  | inr inside ↦
      let h : i < b.total_packets = ground arith in
      rw
        (
          inside,
          lt→ltb i b.total_packets h,
          bit_at-mark b.packet_bitmap i j (omega (arith, v.covers)),
        )
        (ground (arith, merge (ltb j b.total_packets) (i == j) (bit_at b.packet_bitmap j)))
]
  where
    merge : (x y z : Bool) → (x && (y || z)) ≡ ((x && y) || (x && z))
    merge true y z = refl
    merge false y z = refl

-- On a well-formed bitmap `set_packet_received` stays inside the array, keeps the representation,
-- adds the packet if it is in range and no other, and says whether the packet is in range and was
-- not there before; `is_packet_received` then answers for every packet.
pub set_packet_received_adds :
    {b : BackendBitmap} (i : ℕ)
    → IsValid b
    → (b' : BackendBitmap) × (set_packet_received b i
        ≡ some (ltb i b.total_packets && not (received b i), b'))
      × IsValid b'
      × ((j : ℕ) → received b' j ≡ ((ltb i b.total_packets && (i == j)) || received b j))
      × ((j : ℕ) → is_packet_received b' j ≡ some (received b' j))
set_packet_received_adds {b} i v = (
  add_packet b i,
  set_packet_received_lem i v,
  add_packet-IsValid i v,
  λ j. received-add_packet i j v,
  λ j. is_packet_received_lem j (add_packet-IsValid i v),
)

-- A chunk is complete when each of its packets, below the last, has been received.
pub chunk_received_iff :
    (b : BackendBitmap) (c : ℕ)
    → (chunk_received b c ≡ true) ↔ (
        (i : ℕ)
        → c * b.packets_per_chunk ≤ i
        → i < c * b.packets_per_chunk + b.packets_per_chunk
        → i < b.total_packets
        → received b i ≡ true)
unfolding chunk_received
chunk_received_iff b c = (
  λ h i lo hi below.
      ground (arith, all_from_elim _ b.packets_per_chunk (c * b.packets_per_chunk) h i lo hi),
  λ h. all_from_intro _ b.packets_per_chunk (c * b.packets_per_chunk) (λ i lo hi.
      elim (Bool-cases (leb b.total_packets i)) [
        | inl past ↦ rw past
        | inr inside ↦ rw inside (h i lo hi (ground arith))
      ]),
)

-- A chunk that is complete stays so when a packet arrives.
pub chunk_received-add_packet :
    {b : BackendBitmap} (i c : ℕ)
    → IsValid b
    → chunk_received b c ≡ true
    → chunk_received (add_packet b i) c ≡ true
chunk_received-add_packet {b} i c v h = (chunk_received_iff (add_packet b i) c).1 (λ j lo hi below.
    let lo' = rw (per_chunk-add_packet b i) at lo in
    let hi' = rw (per_chunk-add_packet b i) at hi in
    let below' : j < b.total_packets = omega (arith, total-add_packet b i) in
    ground (arith, received-add_packet i j v, (chunk_received_iff b c).0 h j lo' hi' below'))
