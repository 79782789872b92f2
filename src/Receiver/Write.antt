-- ===== src/Receiver/Write.antt =====
-- Where `write_packet_to_buffer` writes.
use sdr_rdma_udp.Common.{
  ℕ, ◌+◌, ◌-◌, ◌*◌, ◌^◌, ◌≤◌, ◌<◌, ◌≡◌, ◌≢◌, inl, inr, refl, ◌∙◌, false, none, some, List, ltb, leb,
  ◌==◌, if◌then◌else◌, length, min, u64, arith, Bool-cases, le→leb,
}
use sdr_rdma_udp.Receiver.Blocks.{Memory, memcpy, IsWritten, memcpy-IsWritten, memcpy-sink}
use sdr_rdma_udp.Connection.{MessageContext, Pointer, null, null_sink, user, completed_context}
use sdr_rdma_udp.Receiver.{is_null, write_packet_to_buffer}

-- The size of a packet's step through the buffer.
abbrev pub step_of : MessageContext → ℕ
step_of m = if m.connection_params.mtu_bytes == 0 then 1 else m.connection_params.mtu_bytes

-- What the code's tests make of a place inside the buffer: a copy of the part that fits.
write_inside :
    (m : MessageContext) (memory : Memory) (i : ℕ) (payload : List ℕ) (n : ℕ)
    → m.buffer ≢ null
    → i * step_of m + n < 2 ^ 64
    → i * step_of m < m.buffer_size
    → write_packet_to_buffer m memory i payload n
      ≡ memcpy memory m.buffer (i * step_of m) payload (min n (m.buffer_size - i * step_of m))
unfolding write_packet_to_buffer
write_inside m memory i payload n to small inside =
    let p : u64 (i * step_of m) ≡ i * step_of m = omega arith in
    let q : u64 (i * step_of m + n) ≡ i * step_of m + n = omega arith in
    rw (is_null_false m.buffer to, p, q, lt→leb m.buffer_size (i * step_of m) inside)
      (elim (Bool-cases (ltb m.buffer_size (i * step_of m + n))) [
        | inl over ↦
            let rest : min n (m.buffer_size - i * step_of m) ≡ m.buffer_size - i * step_of m =
              ground arith in
            let pos : (m.buffer_size - i * step_of m == 0) ≡ false = ground arith in
            rw (over, rest, pos)
        | inr within ↦
            let all : min n (m.buffer_size - i * step_of m) ≡ n = ground arith in rw (within, all)
      ])
  where
    lt→leb : (a b : ℕ) → b < a → leb a b ≡ false
    lt→leb a b h = ground arith

    is_null_false : (p : Pointer) → p ≢ null → is_null p ≡ false
    is_null_false null h = absurd (h refl)
    is_null_false null_sink h = refl
    is_null_false (user j) h = refl

module _ (m : MessageContext) (memory : Memory) (k : ℕ) (to : m.buffer ≡ user k)
    (room : m.buffer_size ≤ length (memory.buffers k)) (i : ℕ) (payload : List ℕ) (n : ℕ)
    (has : n ≤ length payload) (small : i * step_of m + n < 2 ^ 64) where
  -- A packet whose place begins inside the buffer, in a block that holds the buffer, is written
  -- there, cut off at the end of the buffer, and nothing else changes; the payload has the bytes
  -- and the offset does not wrap.
  pub write-IsWritten :
      i * step_of m < m.buffer_size
      → IsWritten memory k
          (i * step_of m)
          payload
          (min n (m.buffer_size - i * step_of m))
          (write_packet_to_buffer m memory i payload n)
  write-IsWritten inside =
      rw (write_inside m memory i payload n (λ e. cc) small inside, to)
        (memcpy-IsWritten memory k (i * step_of m) payload (min n (m.buffer_size - i * step_of m))
          (omega arith) (omega arith))

  -- A packet past the end of the buffer writes nothing.
  pub write_outside :
      m.buffer_size ≤ i * step_of m → write_packet_to_buffer m memory i payload n ≡ some memory
  unfolding write_packet_to_buffer
  write_outside outside =
      let p : u64 (i * step_of m) ≡ i * step_of m = omega arith in
      rw (to, p, le→leb m.buffer_size (i * step_of m) outside)

-- A message that is completed keeps its buffer's size but points at the one-byte null sink. A
-- packet that passed the tests before, with a place inside the buffer, is written outside the sink
-- unless its only byte is the first of the buffer.
pub write-completed :
    (m : MessageContext) (memory : Memory) (i : ℕ) (payload : List ℕ) (n : ℕ)
    → length memory.sink ≡ 1
    → i * step_of m + n < 2 ^ 64
    → i * step_of m < m.buffer_size
    → 1 < i * step_of m + min n (m.buffer_size - i * step_of m)
    → write_packet_to_buffer (completed_context m) memory i payload n ≡ none
unfolding completed_context
write-completed m memory i payload n one small inside past =
    write_inside (completed_context m) memory i payload n (λ e. cc) small inside
    ∙ memcpy-sink memory (i * step_of m) payload (min n (m.buffer_size - i * step_of m))
        (omega arith)
