-- ===== src/Backend/Chunk.antt =====
-- `check_chunk_range` and `is_chunk_complete` against their definition packet by packet.
use sdr_rdma_udp.Common.{
  ℕ, ◌+◌, ◌-◌, ◌*◌, ◌/◌, ◌%◌, ◌^◌, ◌≤◌, ◌<◌, ◌≡◌, inl, inr, refl, ap, ◌∙◌, Bool, true, false, ◌&&◌,
  ◌||◌, some, List, ltb, leb, ◌==◌, if◌then◌else◌, u32, all_from, all_from_elim, all_from_intro,
  arith, Bool-ext, Bool-cases, ==_iff,
}
use native.Mathlib.Decide.{ℕ_discrete}
use sdr_rdma_udp.Common.WordArray.{bit_at}
use sdr_rdma_udp.Backend.{
  BackendBitmap, check_chunk_range, chunk_range, is_chunk_complete, IsValid, received,
  chunk_received,
}
use sdr_rdma_udp.Backend.Range.{check_word_lem, check_middle_lem, all_from-append}

module _ {b : BackendBitmap} (v : IsValid b) (s e : ℕ) (run : s < e)
    (inside : e ≤ b.total_packets) where
  abbrev words : List ℕ
  words = b.packet_bitmap

  last : u32 (e + (2 ^ 32 - 1)) ≡ e - 1
  last = omega (arith, v.small)

  one_word :
      s / 64 ≡ (e - 1) / 64 → check_chunk_range b s e ≡ some (all_from (bit_at words) (e - s) s)
  unfolding check_chunk_range
  one_word same =
      rw
        (
          last,
          (==_iff (s / 64) ((e - 1) / 64)).1 same,
          check_word_lem words (s / 64) (s % 64) ((e - 1) % 64 + 1) (omega (arith, v.covers))
              (omega arith) (omega arith),
        )
        (ap some (
          ap (λ k. all_from (bit_at words) k (64 * (s / 64) + s % 64))
            (let p : (e - 1) % 64 + 1 - s % 64 ≡ e - s = omega arith in p)
          ∙ ap (λ k. all_from (bit_at words) (e - s) k)
              (let p : 64 * (s / 64) + s % 64 ≡ s = omega arith in p)))

  -- The three parts of a run over several words make up the run.
  parts :
      s / 64 < (e - 1) / 64
      → all_from (bit_at words) (e - s) s ≡ (
          all_from (bit_at words) (64 - s % 64) (64 * (s / 64) + s % 64)
          && (all_from (bit_at words) (64 * ((e - 1) / 64 - (s / 64 + 1))) (64 * (s / 64 + 1))
              && all_from (bit_at words) ((e - 1) % 64 + 1 - 0) (64 * ((e - 1) / 64) + 0)))
  parts apart =
      let first : ℕ = 64 - s % 64 in
      let middle : ℕ = 64 * ((e - 1) / 64 - (s / 64 + 1)) in
      let final : ℕ = (e - 1) % 64 + 1 - 0 in
      ap (λ k. all_from (bit_at words) k s)
        (let p : e - s ≡ first + (middle + final) = omega arith in p)
      ∙ ap (λ k. all_from (bit_at words) (first + (middle + final)) k)
          (let p : s ≡ 64 * (s / 64) + s % 64 = omega arith in p)
      ∙ all_from-append (bit_at words) first (middle + final) (64 * (s / 64) + s % 64)
      ∙ ap (λ k. all_from (bit_at words) first (64 * (s / 64) + s % 64) && k)
          (ap (λ k. all_from (bit_at words) (middle + final) k)
              (let p : 64 * (s / 64) + s % 64 + first ≡ 64 * (s / 64 + 1) = omega arith in p)
            ∙ all_from-append (bit_at words) middle final (64 * (s / 64 + 1))
            ∙ ap
                (λ k.
                  all_from (bit_at words) middle (64 * (s / 64 + 1))
                  && all_from (bit_at words) final k)
                (let p : 64 * (s / 64 + 1) + middle ≡ 64 * ((e - 1) / 64) + 0 = omega arith in p))

  several_words :
      s / 64 < (e - 1) / 64 → check_chunk_range b s e ≡ some (all_from (bit_at words) (e - s) s)
  unfolding check_chunk_range
  several_words apart =
      rw
        (
          last,
          parts apart,
          ne,
          check_word_lem words (s / 64) (s % 64) 64 (omega (arith, v.covers)) (omega arith)
              (omega arith),
          check_middle_lem words ((e - 1) / 64 - (s / 64 + 1)) (s / 64 + 1) v.words
              (omega (arith, v.covers)),
          check_word_lem words ((e - 1) / 64) 0 ((e - 1) % 64 + 1) (omega (arith, v.covers))
              (omega arith) (omega arith),
        )
        (branch _ _ _)
    where
      ne : (s / 64 == (e - 1) / 64) ≡ false
      ne = ground arith

      branch :
          (x y z : Bool)
          → (if x then (if y then some z else some false) else some false) ≡ some (x && (y && z))
      branch true true z = refl
      branch true false z = refl
      branch false y z = refl

  -- For a well-formed bitmap and a run of packets that is not empty and ends at or below the total,
  -- reading whole words gives what a test of each bit of the run gives, with no access outside the
  -- array.
  pub check_chunk_range_lem : check_chunk_range b s e ≡ some (all_from (bit_at words) (e - s) s)
  check_chunk_range_lem = elim (ℕ_discrete (s / 64) ((e - 1) / 64)) [
    | yes same ↦ one_word same
    | no apart ↦ several_words (omega arith)
  ]

module _ {b : BackendBitmap} (v : IsValid b) (c : ℕ)
    (exists : c * b.packets_per_chunk < b.total_packets) where
  abbrev pub chunk_first : ℕ
  chunk_first = c * b.packets_per_chunk

  abbrev pub chunk_stop : ℕ
  chunk_stop =
      if ltb b.total_packets (chunk_first + b.packets_per_chunk)
      then b.total_packets
      else chunk_first + b.packets_per_chunk

  -- The 32-bit products and sums of the source do not wrap.
  pub chunk_range_lem : chunk_range b c ≡ (chunk_first, chunk_stop)
  unfolding chunk_range
  chunk_range_lem =
      let p : u32 (c * b.packets_per_chunk) ≡ c * b.packets_per_chunk = omega (arith, v.small) in
      let q : u32 (c * b.packets_per_chunk + b.packets_per_chunk)
          ≡ c * b.packets_per_chunk + b.packets_per_chunk =
        omega (arith, v.small, v.chunked) in
      rw (p, q)

  stop_bounds :
      0 < b.packets_per_chunk
      → (chunk_first < chunk_stop)
        × (chunk_stop ≤ b.total_packets)
        × (chunk_stop ≤ chunk_first + b.packets_per_chunk)
  stop_bounds pos = ground arith

  same_test :
      0 < b.packets_per_chunk
      → all_from (bit_at b.packet_bitmap) (chunk_stop - chunk_first) chunk_first
        ≡ chunk_received b c
  unfolding chunk_received received
  same_test pos = Bool-ext _ _ (
    λ h. all_from_intro _ b.packets_per_chunk chunk_first (λ i lo hi. from_run i lo hi h),
    λ h. all_from_intro (bit_at b.packet_bitmap) (chunk_stop - chunk_first) chunk_first (λ i lo hi.
        ground (
          arith,
          stop_bounds pos,
          all_from_elim _ b.packets_per_chunk chunk_first h i (omega arith)
              (omega (arith, stop_bounds pos)),
        )),
  )
    where
      from_run :
          (i : ℕ)
          → chunk_first ≤ i
          → i < chunk_first + b.packets_per_chunk
          → all_from (bit_at b.packet_bitmap) (chunk_stop - chunk_first) chunk_first ≡ true
          → (leb b.total_packets i || (ltb i b.total_packets && bit_at b.packet_bitmap i)) ≡ true
      from_run i lo hi h = elim (Bool-cases (leb b.total_packets i)) [
        | inl past ↦ rw past
        | inr here ↦
            let below : i < chunk_stop = ground arith in
            ground (
              arith,
              all_from_elim (bit_at b.packet_bitmap) (chunk_stop - chunk_first) chunk_first h i lo
                  (omega arith),
            )
      ]

  -- In a well-formed bitmap, a chunk that has a packet is reported complete exactly when all its
  -- packets below the total have been received.
  pub is_chunk_complete_lem :
      0 < b.packets_per_chunk → is_chunk_complete b c ≡ some (chunk_received b c)
  unfolding is_chunk_complete
  is_chunk_complete_lem pos = rw (
    chunk_range_lem,
    check_chunk_range_lem v chunk_first chunk_stop (stop_bounds pos).0 (stop_bounds pos).1,
    same_test pos,
  )
