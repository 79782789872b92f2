-- ===== src/Receiver/Blocks.antt =====
-- The blocks that a receive writes into, and the copy of a run of bytes.
use sdr_rdma_udp.Common.{
  ℕ, suc, ◌+◌, ◌-◌, ◌≤◌, ◌<◌, ◌≡◌, ◌≢◌, inl, inr, refl, ◌∙◌, ◌&&◌, Option, none, some, List, [],
  ◌∷◌, ltb, leb, ◌==◌, if◌then◌else◌, length, take, get_or, set, length-set, get_or-set_self,
  get_or-set_ne, length-take, get_or-take, arith, le→ltb, lt→ltb, Bool-cases,
}
use native.Mathlib.Decide.{ℕ_discrete}
use sdr_rdma_udp.Connection.{Pointer, null, null_sink, user}

pub record Memory : Type 0 where
  pub buffers : ℕ → List ℕ
  pub sink : List ℕ

-- The bytes from `offset` on, overwritten one by one.
pub overwrite : List ℕ → ℕ → List ℕ → List ℕ
overwrite block offset [] = block
overwrite block offset (x ∷ xs) = overwrite (set block offset x) (offset + 1) xs

pub length-overwrite :
    (block : List ℕ) (offset : ℕ) (xs : List ℕ) → length (overwrite block offset xs) ≡ length block
unfolding overwrite
length-overwrite block offset [] = refl
length-overwrite block offset (x ∷ xs) =
    length-overwrite (set block offset x) (offset + 1) xs ∙ length-set block offset x

-- Each byte of the run is the new one, and no other byte changes.
pub get_or-overwrite :
    (block : List ℕ) (offset : ℕ) (xs : List ℕ) (i : ℕ)
    → offset + length xs ≤ length block
    → get_or (overwrite block offset xs) i 0 ≡ (
        if leb offset i && ltb i (offset + length xs)
        then get_or xs (i - offset) 0
        else get_or block i 0)
unfolding overwrite
get_or-overwrite block offset [] i h = ground arith
get_or-overwrite block offset (x ∷ xs) i h =
    get_or-overwrite (set block offset x) (offset + 1) xs i
      (omega (arith, length-set block offset x))
    ∙ elim (ℕ_discrete offset i) [
      | yes e ↦
          let zeroth : i - offset ≡ 0 = omega arith in
          rw zeroth (ground (arith, rw e at (get_or-set_self block offset x 0 (omega arith))))
      | no ne ↦ ground (arith, get_or-set_ne block offset i x 0 ne, further ne)
    ]
  where
    further :
        offset ≢ i
        → (if leb offset i then get_or (x ∷ xs) (i - offset) 0 else 0)
          ≡ (if leb offset i then get_or xs (i - (offset + 1)) 0 else 0)
    further ne = elim (Bool-cases (leb offset i)) [
      | inl t ↦ let e : i - offset ≡ suc (i - (offset + 1)) = ground arith in rw (t, e)
      | inr f ↦ rw f
    ]

-- `memcpy(buffer + offset, payload, len)`.
pub block_of : Memory → Pointer → List ℕ
block_of memory null = []
block_of memory null_sink = memory.sink
block_of memory (user k) = memory.buffers k

pub with_block : Memory → Pointer → List ℕ → Memory
with_block memory null block = memory
with_block memory null_sink block = record memory { sink = block }
with_block memory (user k) block = record memory {
  buffers = λ i. if i == k then block else memory.buffers i;
}

pub memcpy : Memory → Pointer → ℕ → List ℕ → ℕ → Option Memory
memcpy memory to offset payload len =
    if ltb (length payload) len
    then none
    else if ltb (length (block_of memory to)) (offset + len)
    then none
    else some (with_block memory to (overwrite (block_of memory to) offset (take len payload)))

-- `after` is `before` with the run from `offset` on overwritten by the first `n` bytes of the payload,
-- in block `k` alone.
pub record IsWritten (before : Memory) (k offset : ℕ) (payload : List ℕ) (n : ℕ)
    (out : Option Memory) : Type 0 where
  pub after : Memory
  pub returns : out ≡ some after
  pub same_length : length (after.buffers k) ≡ length (before.buffers k)
  pub bytes :
      (p : ℕ)
      → get_or (after.buffers k) p 0 ≡ (
          if leb offset p && ltb p (offset + n)
          then get_or payload (p - offset) 0
          else get_or (before.buffers k) p 0)
  pub others : (j : ℕ) → j ≢ k → after.buffers j ≡ before.buffers j
  pub same_sink : after.sink ≡ before.sink

pub memcpy-IsWritten :
    (memory : Memory) (k offset : ℕ) (payload : List ℕ) (n : ℕ)
    → n ≤ length payload
    → offset + n ≤ length (memory.buffers k)
    → IsWritten memory k offset payload n (memcpy memory (user k) offset payload n)
unfolding memcpy block_of with_block
memcpy-IsWritten memory k offset payload n has room = record {
  after = with_block memory (user k) (overwrite (memory.buffers k) offset (take n payload));
  returns =
      rw (le→ltb (length payload) n has, le→ltb (length (memory.buffers k)) (offset + n) room);
  same_length = ground (arith, length-overwrite (memory.buffers k) offset (take n payload));
  bytes = λ p. ground (
    arith,
    get_or-overwrite (memory.buffers k) offset (take n payload) p,
    length-take n payload,
    get_or-take n (p - offset) payload 0,
  );
  others = λ j ne. ground arith;
  same_sink = refl;
}

-- A copy to the one-byte sink that goes past its byte leaves the block.
pub memcpy-sink :
    (memory : Memory) (offset : ℕ) (payload : List ℕ) (n : ℕ)
    → length memory.sink < offset + n
    → memcpy memory null_sink offset payload n ≡ none
unfolding memcpy block_of
memcpy-sink memory offset payload n past =
    ground (arith, lt→ltb (length memory.sink) (offset + n) past)
