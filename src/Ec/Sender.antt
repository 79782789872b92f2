-- ===== src/Ec/Sender.antt =====
-- sdr-udp/reliability/ec.cpp, ECSender: the storage of data and parity, and the loop of `poll`, which
-- sends chunks again. What ISA-L makes of the storage is a parameter, and so is `sdr_send_post`.
use sdr_rdma_udp.Common.{
  ℕ, zero, suc, ◌+◌, ◌-◌, ◌*◌, ◌^◌, Bool, true, false, ◌||◌, Option, none, some, List, [], ◌∷◌,
  ◌++◌, ltb, leb, ◌==◌, if◌then◌else◌, ◌>>=◌, length, take, drop, replicate, min, get_elem?, get_or,
  set, u32, u64, bit_and,
}
use sdr_rdma_udp.Control.{
  ControlMessage, ControlMsgType, ConnectionParams, ec_ack, complete_ack, incomplete_nack, ec_nack,
  ec_fallback_sr, sr_nack, sr_ack,
}
use sdr_rdma_udp.Packet.{SdrPacket, create_data_packet, set_chunk_seq}
use sdr_rdma_udp.Api.SendPost.{SendHandle}
use sdr_rdma_udp.Api.Control.{Heard, message, timeout, closed}
use sdr_rdma_udp.Ec.{EcConfig, Sizes, sizes, coded_bytes, mtu_of, per_chunk_of, ceil64}

-- `ECSender` while a message is on its way; `resent` lists the calls of `retransmit_chunk`, in order.
pub record EcSender : Type 0 where
  pub cfg : EcConfig
  pub params : ConnectionParams
  pub handle : SendHandle
  pub storage : List ℕ
  pub acked : List Bool
  pub resent : List ℕ

-- The storage: the data, and zeroes to the end, before ISA-L writes the parity. `none` is a read
-- outside the buffer.
unfoldable pub padded_storage : Sizes → List ℕ → Option (List ℕ)
padded_storage z buffer =
    let total = coded_bytes z in
    let n = min z.data_bytes total in
    if ltb (length buffer) n then none else some (take n buffer ++ replicate (total - n) 0)

-- What `encode_and_send` leaves: without ISA-L it fails, and with it the storage goes out by
-- `sdr_send_post`, of which an input has the handle and the parameters that the connection then has, or
-- that it failed. The storage and the flags are sized by the parameters before it; `poll` reads those
-- after it. The outer `none` is undefined behaviour.
unfoldable pub encode_and_send :
    Option (Sizes → List ℕ → List ℕ)
    → EcConfig
    → ConnectionParams
    → List ℕ
    → ℕ
    → Option (SendHandle × ConnectionParams)
    → Option (Option EcSender)
unfolding padded_storage sizes
encode_and_send none cfg p buffer length posted =
    padded_storage (sizes cfg p length) buffer >>= λ storage. some none
encode_and_send (some encode) cfg p buffer length none =
    padded_storage (sizes cfg p length) buffer >>= λ storage. some none
encode_and_send (some encode) cfg p buffer length (some (handle, settled)) =
    let z = sizes cfg p length in
    padded_storage z buffer >>= λ storage. some (
      some (record {
        cfg = cfg;
        params = settled;
        handle = handle;
        storage = encode z storage;
        acked = replicate z.data_chunks false;
        resent = [];
      }))

-- `retransmit_chunk`: the packets of a chunk, `n` rounds from packet `pkt` of it on. The outer `none`
-- is a read outside the storage.
unfoldable pub packets_of_chunk : EcSender → ℕ → ℕ → ℕ → Option (List SdrPacket)
packets_of_chunk s chunk_id zero pkt = some []
packets_of_chunk s chunk_id (suc n) pkt =
    let packet_offset = u32 (chunk_id * per_chunk_of s.params + pkt) in
    let data_offset = u64 (packet_offset * mtu_of s.params) in
    let pkt_len = min (mtu_of s.params) (s.handle.buffer_size - data_offset) in
    let made =
      create_data_packet s.params.transfer_id s.handle.msg_id packet_offset (per_chunk_of s.params)
        (drop data_offset s.storage) pkt_len in
    let rest = packets_of_chunk s chunk_id n (pkt + 1) in
    if leb s.handle.buffer_size data_offset
    then some []
    else (made >>= λ packet. elim packet [
      | none ↦ some []
      | some x ↦ rest >>= λ later. some (set_chunk_seq x ∷ later)
    ])

unfoldable pub retransmit_chunk : EcSender → ℕ → Option (List SdrPacket)
retransmit_chunk s chunk_id = packets_of_chunk s chunk_id (per_chunk_of s.params) 0

abbrev pub resend : EcSender → ℕ → EcSender
resend s c = record s { resent = s.resent ++ (c ∷ []) }

-- `chunk_acked_[chunk_id] = true`; `none` is a write past its end.
abbrev pub mark : List Bool → ℕ → Option (List Bool)
mark acked chunk_id = if ltb chunk_id (length acked) then some (set acked chunk_id true) else none

-- `apply_bitmap`: `n` bits of word `w` from `bit` on.
unfoldable pub mark_word : ℕ → ℕ → ℕ → ℕ → ℕ → List Bool → Option (List Bool)
mark_word max_chunks word w zero bit acked = some acked
mark_word max_chunks word w (suc n) bit acked =
    let chunk_id = w * 64 + bit in
    let rest =
      (if bit_and word (2 ^ bit) == 0 then some acked else mark acked chunk_id)
      >>= mark_word max_chunks word w n (bit + 1) in
    if leb max_chunks chunk_id then some acked else rest

-- `n` words from word `w` on.
unfoldable pub mark_words : ℕ → List ℕ → ℕ → ℕ → List Bool → Option (List Bool)
unfolding mark_word
mark_words max_chunks chunk_bitmap zero w acked = some acked
mark_words max_chunks chunk_bitmap (suc n) w acked =
    mark_word max_chunks (get_or chunk_bitmap w 0) w 64 0 acked
    >>= mark_words max_chunks chunk_bitmap n (w + 1)

-- `apply_bitmap`, over 16 words at most.
unfoldable pub apply_bitmap : ControlMessage → ℕ → List Bool → Option (List Bool)
unfolding mark_words
apply_bitmap msg data_chunks acked =
    mark_words data_chunks msg.chunk_bitmap (min msg.chunk_bitmap_words 16) 0 acked

-- `n` rounds of the loop over a gap, from chunk `c` on; a chunk without a flag is a read outside
-- `chunk_acked_`.
unfoldable pub resend_gap : ℕ → ℕ → ℕ → EcSender → Option EcSender
resend_gap data_chunks zero c s = some s
resend_gap data_chunks (suc n) c s =
    let go_on = get_elem? s.acked c >>= λ done.
    resend_gap data_chunks n (c + 1) (if done then s else resend s c) in
    if ltb c data_chunks then go_on else some s

-- `n` rounds of the loop over the gaps of a message, from gap `i` on; a gap outside its 16 entries is a
-- read outside the arrays.
unfoldable pub resend_gaps : ControlMessage → ℕ → ℕ → ℕ → EcSender → Option EcSender
unfolding resend_gap
resend_gaps msg data_chunks zero i s = some s
resend_gaps msg data_chunks (suc n) i s = get_elem? msg.gap_start i >>= λ start.
    get_elem? msg.gap_len i >>= λ len.
    resend_gap data_chunks len start s >>= resend_gaps msg data_chunks n (i + 1)

-- `retransmit_missing_bitmap`: `n` bits of word `w` from `bit` on, with `left` chunks still allowed.
unfoldable pub missing_of_word : ℕ → ℕ → ℕ → ℕ → ℕ → ℕ → EcSender → ℕ × EcSender
missing_of_word data_chunks word w zero bit left s = (left, s)
missing_of_word data_chunks word w (suc n) bit left s =
    let c = w * 64 + bit in
    let absent = bit_and word (2 ^ bit) == 0 in
    let rest =
      missing_of_word data_chunks word w n (bit + 1) (if absent then left - 1 else left)
        (if absent then resend s c else s) in
    if (left == 0) || leb data_chunks c then (left, s) else rest

unfoldable pub missing_of_words : ControlMessage → ℕ → ℕ → ℕ → ℕ → EcSender → EcSender
unfolding missing_of_word
missing_of_words msg data_chunks zero w left s = s
missing_of_words msg data_chunks (suc n) w left s =
    let r = missing_of_word data_chunks (get_or msg.chunk_bitmap w 0) w 64 0 left s in
    let rest = missing_of_words msg data_chunks n (w + 1) r.0 r.1 in if left == 0 then s else rest

unfoldable pub retransmit_missing_bitmap : ControlMessage → ℕ → ℕ → EcSender → EcSender
unfolding missing_of_words
retransmit_missing_bitmap msg data_chunks limit s =
    missing_of_words msg data_chunks (min msg.chunk_bitmap_words 16) 0 limit s

-- The test over the first `n` flags from `c` on.
unfoldable pub all_acked : List Bool → ℕ → ℕ → Option Bool
all_acked acked zero c = some true
all_acked acked (suc n) c =
    get_elem? acked c >>= λ done. if done then all_acked acked n (c + 1) else some false

-- A request for chunks: whether every chunk is now acknowledged, and the sender.
unfoldable pub on_request : ControlMessage → ℕ → EcSender → Option (Bool × EcSender)
unfolding resend_gaps apply_bitmap retransmit_missing_bitmap all_acked
on_request msg data_chunks s = apply_bitmap msg data_chunks s.acked >>= λ acked.
    resend_gaps msg data_chunks msg.num_gaps 0 (record s { acked = acked }) >>= λ s1.
    let s2 = retransmit_missing_bitmap msg data_chunks 8 s1 in
    all_acked s2.acked data_chunks 0 >>= λ done. some (done, s2)

-- `data_chunks` in `poll`: from the configured size, whatever the length of the message was.
abbrev pub poll_chunks : EcConfig → ConnectionParams → ℕ
poll_chunks cfg p = u32 (ceil64 cfg.data_bytes (u32 (mtu_of p * per_chunk_of p)))

-- What a message is to the loop.
pub data Kind : Type 0 where
  acknowledged request ignored : Kind

abbrev pub kind_of : ControlMsgType → Kind
kind_of ec_ack = acknowledged
kind_of complete_ack = acknowledged
kind_of ec_nack = request
kind_of ec_fallback_sr = request
kind_of sr_nack = request
kind_of sr_ack = request
kind_of _ = ignored

-- What a message is to `sdr_send_poll`, in which a time-out ends: its result, or that it goes on.
abbrev pub final_of : ControlMsgType → Option Bool
final_of complete_ack = some true
final_of incomplete_nack = some false
final_of _ = none

-- The loop of `poll` while the connection is up: whether it is inside `sdr_send_poll`, and what
-- `receive_message` gives. The status is as in Api; where the connection is gone `sdr_send_poll`
-- returns -1 if it hears of that itself, and else 0.
unfoldable pub poll_loop : ℕ → Bool → List Heard → EcSender → Option (Option Bool × EcSender)
unfolding on_request
poll_loop data_chunks inside [] s = some (none, s)
poll_loop data_chunks true (timeout ∷ rest) s = poll_loop data_chunks true rest s
poll_loop data_chunks true (closed ∷ rest) s = some (some false, s)
poll_loop data_chunks true (message m ∷ rest) s =
    let inside = poll_loop data_chunks true rest s in
    let outside = poll_loop data_chunks false rest s in
    elim (final_of m.msg_type) [
      | none ↦ inside
      | some done ↦ if done then some (some true, s) else outside
    ]
poll_loop data_chunks false (timeout ∷ rest) s = poll_loop data_chunks true rest s
poll_loop data_chunks false (closed ∷ rest) s = some (some true, s)
poll_loop data_chunks false (message m ∷ rest) s =
    let later = poll_loop data_chunks false rest s in
    elim (kind_of m.msg_type) [
      | acknowledged ↦ some (some true, s)
      | request ↦ on_request m data_chunks s >>= λ r.
          if r.0 then some (some true, r.1) else poll_loop data_chunks false rest r.1
      | ignored ↦ later
    ]

-- `poll`; the outer `none` is undefined behaviour.
unfoldable pub poll : List Heard → EcSender → Option (Option Bool × EcSender)
unfolding poll_loop
poll heard s =
    let looped = poll_loop (poll_chunks s.cfg s.params) false heard s in
    if u32 (mtu_of s.params * per_chunk_of s.params) == 0 then none else looped
