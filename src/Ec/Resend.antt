-- ===== src/Ec/Resend.antt =====
-- sdr-udp/reliability/ec.cpp: a call of `try_decode` that finds too many chunks missing, and what `poll` of
-- the sender does when it hears of that.
use sdr_rdma_udp.Common.{
  ℕ, zero, suc, ◌+◌, ◌*◌, ◌-◌, ◌^◌, ◌≤◌, ◌<◌, ◌≡◌, ◌⊎◌, refl, sym, ap, ◌∙◌, inl, inr, Bool, true,
  false, Option, none, some, List, [], ◌∷◌, ◌++◌, leb, if◌then◌else◌, length, get_or, u32, u64, min,
  drop, ltb, length-drop, arith, Bool-cases, lt→ltb, get_elem?-eq-get_or, Returns, bind-Returns,
}
use sdr_rdma_udp.Packet.{create_data_packet, max_payload_size}
use sdr_rdma_udp.Control.{ControlMessage, ControlMsgType, ec_nack, ec_fallback_sr}
use sdr_rdma_udp.Connection.{MessageContext}
use sdr_rdma_udp.Frontend.{FrontendBitmap, IsValid, completed}
use sdr_rdma_udp.Frontend.Poll.{frontend_read}
use sdr_rdma_udp.Receiver.Blocks.{Memory}
use sdr_rdma_udp.Transfer.Deliver.{All}
use sdr_rdma_udp.Ec.{
  EcReceiver, Recover, Tried, chunks_with, collapse, gaps_message, ask_again, decide, per_chunk_of,
  mtu_of, try_decode, try_decode_on,
}
use sdr_rdma_udp.Ec.Sender.{
  missing_of_words, kind_of, request, poll_chunks, EcSender, apply_bitmap, mark_words,
  retransmit_chunk, packets_of_chunk, retransmit_missing_bitmap, all_acked, on_request,
}
use sdr_rdma_udp.Ec.Gaps.{
  expand, left_out, expand-collapse, left_out_full, unacked, resend_all, resend_gaps-gaps_message,
  chunks_named, chunks_named-gaps_message,
}

-- The chunks that are not marked among the `n` from `c` on.
abbrev pub missing_from : FrontendBitmap → ℕ → ℕ → List ℕ
missing_from f zero c = []
missing_from f (suc n) c =
    if completed f c then missing_from f n (c + 1) else c ∷ missing_from f n (c + 1)

chunks_with_lem :
    {f : FrontendBitmap} (n c : ℕ) → IsValid f → chunks_with f false n c ≡ some (missing_from f n c)
unfolding chunks_with
chunks_with_lem zero c v = refl
chunks_with_lem {f} (suc n) c v = rw (frontend_read c v, chunks_with_lem n (c + 1) v) refl

missing_from-below :
    (f : FrontendBitmap) (d n c : ℕ) → c + n ≤ d → All (λ i. i < d) (missing_from f n c)
missing_from-below f d zero c h = tt
missing_from-below f d (suc n) c h = elim (Bool-cases (completed f c)) [
  | inl t ↦ rw t (missing_from-below f d n (c + 1) (omega arith))
  | inr x ↦ rw x (omega arith, missing_from-below f d n (c + 1) (omega arith))
]

all_acked_reads :
    (acked : List Bool) (n c : ℕ)
    → c + n ≤ length acked
    → (b : Bool) × (all_acked acked n c ≡ some b)
unfolding all_acked
all_acked_reads acked zero c h = (true, refl)
all_acked_reads acked (suc n) c h = elim (Bool-cases (get_or acked c false)) [
  | inl t ↦
      let r = all_acked_reads acked n (c + 1) (omega arith) in
      (r.0, rw (get_elem?-eq-get_or acked c false (omega arith), t) r.1)
  | inr x ↦ (false, rw (get_elem?-eq-get_or acked c false (omega arith), x) refl)
]

on_request_lem :
    (msg_type : ControlMsgType) (id d : ℕ) (missing : List ℕ) (s : EcSender)
    → All (λ c. c < d) missing
    → d < 2 ^ 16
    → d ≤ length s.acked
    → (b : Bool) × (on_request (gaps_message msg_type id missing) d s
        ≡ some (b, resend_all s (unacked s.acked (expand (collapse 16 missing)))))
unfolding on_request apply_bitmap mark_words retransmit_missing_bitmap missing_of_words gaps_message
on_request_lem msg_type id d missing s below small flags =
    let done = all_acked_reads s.acked d 0 (omega arith) in
    (done.0, rw (resend_gaps-gaps_message msg_type id d missing s below small flags, done.1) refl)

create_data_packet-Returns :
    (t m o per : ℕ) (bytes : List ℕ) (len : ℕ)
    → len ≤ length bytes
    → Returns (create_data_packet t m o per bytes len)
unfolding create_data_packet
create_data_packet-Returns t m o per bytes len fits = elim (Bool-cases (ltb max_payload_size len)) [
  | inl big ↦ (none, rw big refl)
  | inr small ↦
      let inside : ltb (length bytes) len ≡ false = ground arith in rw (small, inside) (_, refl)
]

elim-Returns {ℓ κ} :
    {A : Type ℓ} {B : Type κ} (o : Option A) {d : Option B} {f : A → Option B}
    → Returns d
    → ((a : A) → Returns (f a))
    → Returns (elim o [ none ↦ d | some a ↦ f a ])
elim-Returns none d f = d
elim-Returns (some a) d f = f a

-- The packets of a chunk are read inside the storage, if that holds the buffer of the handle.
packets_of_chunk-Returns :
    (s : EcSender) (c n pkt : ℕ)
    → s.handle.buffer_size ≤ length s.storage
    → Returns (packets_of_chunk s c n pkt)
unfolding packets_of_chunk
packets_of_chunk-Returns s c zero pkt stored = ([], refl)
packets_of_chunk-Returns s c (suc n) pkt stored =
    let packet_offset = u32 (c * per_chunk_of s.params + pkt) in
    let data_offset = u64 (packet_offset * mtu_of s.params) in
    let len = min (mtu_of s.params) (s.handle.buffer_size - data_offset) in
    let made =
      create_data_packet-Returns s.params.transfer_id s.handle.msg_id packet_offset
        (per_chunk_of s.params) (drop data_offset s.storage) len
        (omega (arith, length-drop data_offset s.storage)) in
    let rest = packets_of_chunk-Returns s c n (pkt + 1) stored in
    elim (Bool-cases (leb s.handle.buffer_size data_offset)) [
      | inl t ↦ ([], rw t refl)
      | inr f ↦ rw f (
          bind-Returns made (λ packet.
            elim-Returns packet ([], refl) (λ x. bind-Returns rest (λ later. (_, refl)))))
    ]

retransmit_chunk-Returns :
    (s : EcSender) (c : ℕ)
    → s.handle.buffer_size ≤ length s.storage
    → Returns (retransmit_chunk s c)
unfolding retransmit_chunk
retransmit_chunk-Returns s c stored = packets_of_chunk-Returns s c (per_chunk_of s.params) 0 stored

-- What `try_decode` leaves when it asks for chunks, and what the sender makes of the message.
pub record IsAsked (missing : List ℕ) (s : EcSender) (tried : Option Tried) : Type 0 where
  pub result : Tried
  pub returns : tried ≡ some result
  pub not_decoded : result.decoded ≡ false
  pub asked : ControlMessage
  pub sent : result.sent ≡ asked ∷ []
  pub kind : kind_of asked.msg_type ≡ request
  pub others : List ℕ
  pub names : chunks_named asked asked.num_gaps 0 ++ others ≡ missing
  pub full : (others ≡ []) ⊎ (asked.num_gaps ≡ 16)
  pub done : Bool
  pub answered :
      on_request asked (poll_chunks s.cfg s.params) s
      ≡ some (done, resend_all s (unacked s.acked (chunks_named asked asked.num_gaps 0)))
  pub sends : (c : ℕ) → Returns (retransmit_chunk s c)

decide_lem :
    (isal : Option Recover) (r : EcReceiver) (ctx : MessageContext) (f : FrontendBitmap)
    (memory : Memory) (id : ℕ) (missing : List ℕ)
    → r.fallback_active ≡ false
    → r.sizes_of.m < length missing
    → decide isal r ctx f memory id missing ≡ some (ask_again r ctx memory id missing)
unfolding decide
decide_lem isal r ctx f memory id [] active many = absurd (omega arith)
decide_lem isal r ctx f memory id (c ∷ cs) active many =
    simp (active, lt→ltb r.sizes_of.m (length (c ∷ cs)) many) refl

-- The message and what the sender makes of it, for either type of the message.
asks :
    (msg_type : ControlMsgType) (id : ℕ) (missing : List ℕ) (s : EcSender) (result : Tried)
    {tried : Option Tried}
    → kind_of msg_type ≡ request
    → tried ≡ some result
    → result.decoded ≡ false
    → result.sent ≡ gaps_message msg_type id missing ∷ []
    → All (λ c. c < length s.acked) missing
    → length s.acked < 2 ^ 16
    → poll_chunks s.cfg s.params ≡ length s.acked
    → s.handle.buffer_size ≤ length s.storage
    → IsAsked missing s tried
asks msg_type id missing s result kind returns failed message below small chunks stored =
    let answer = on_request_lem msg_type id (length s.acked) missing s below small (omega arith) in
    record {
      result = result;
      returns = returns;
      not_decoded = failed;
      asked = gaps_message msg_type id missing;
      sent = message;
      kind = kind_of_gaps;
      others = left_out 16 missing;
      names = ap (λ cs. cs ++ left_out 16 missing) named ∙ expand-collapse 16 missing;
      full = filled;
      done = answer.0;
      answered =
          ap (λ n. on_request (gaps_message msg_type id missing) n s) chunks
          ∙ answer.1
          ∙ ap (λ cs. some (answer.0, resend_all s (unacked s.acked cs))) (sym named);
      sends = λ c. retransmit_chunk-Returns s c stored;
    }
  where
    named :
        chunks_named
          (gaps_message msg_type id missing)
          (gaps_message msg_type id missing).num_gaps
          0
        ≡ expand (collapse 16 missing)
    named = chunks_named-gaps_message msg_type id (length s.acked) missing below small

    kind_of_gaps : kind_of (gaps_message msg_type id missing).msg_type ≡ request
    kind_of_gaps = unfold gaps_message in kind

    filled : (left_out 16 missing ≡ []) ⊎ ((gaps_message msg_type id missing).num_gaps ≡ 16)
    filled = unfold gaps_message in left_out_full 16 missing

ask_again-IsAsked :
    (r : EcReceiver) (ctx : MessageContext) (memory : Memory) (id : ℕ) (missing : List ℕ)
    (s : EcSender) {tried : Option Tried}
    → tried ≡ some (ask_again r ctx memory id missing)
    → All (λ c. c < length s.acked) missing
    → length s.acked < 2 ^ 16
    → poll_chunks s.cfg s.params ≡ length s.acked
    → s.handle.buffer_size ≤ length s.storage
    → IsAsked missing s tried
unfolding ask_again
ask_again-IsAsked r ctx memory id missing s returns below small chunks stored =
    elim (Bool-cases (leb r.cfg.max_retries (u32 (r.decode_attempts + 1)))) [
      | inl t ↦
          asks ec_fallback_sr id missing s _ refl (rw t at returns) refl refl below small chunks
            stored
      | inr x ↦
          asks ec_nack id missing s _ refl (rw x at returns) refl refl below small chunks stored
    ]

-- For a well-formed chunk bitmap of which more data chunks are missing than there are parity chunks
-- to a stripe, fewer than 2^16 chunks, no fallback yet, and a sender that counts as many chunks,
-- has a flag for each and stores all of the buffer of its handle: try_decode does not decode and
-- sends one message, which the sender's poll takes as a request. Answering it, the sender reads no
-- flag and no gap outside their arrays, leaves its flags as they are and calls retransmit_chunk for
-- the chunks that the gaps of the message name, its entries of gap_start and gap_len up to
-- num_gaps, and that are not acknowledged, in order; retransmit_chunk reads nothing outside the
-- storage. The named chunks are the first of the missing ones, and all of them unless the message
-- has its 16 gaps.
pub try_decode-on_request :
    (isal : Option Recover) (r : EcReceiver) (ctx : MessageContext) (f : FrontendBitmap)
    (memory : Memory) (id : ℕ) (s : EcSender)
    → ctx.frontend_bitmap ≡ some f
    → IsValid f
    → r.fallback_active ≡ false
    → r.sizes_of.m < length (missing_from f r.sizes_of.data_chunks 0)
    → r.sizes_of.data_chunks < 2 ^ 16
    → poll_chunks s.cfg s.params ≡ r.sizes_of.data_chunks
    → length s.acked ≡ r.sizes_of.data_chunks
    → s.handle.buffer_size ≤ length s.storage
    → IsAsked (missing_from f r.sizes_of.data_chunks 0) s (try_decode isal r ctx memory id)
unfolding try_decode try_decode_on
try_decode-on_request isal r ctx f memory id s has v active many small chunks flags stored =
    let missing = missing_from f r.sizes_of.data_chunks 0 in
    ask_again-IsAsked r ctx memory id missing s
      (ap (try_decode_on isal r ctx memory id) has
        ∙ rw (chunks_with_lem r.sizes_of.data_chunks 0 v)
            (decide_lem isal r ctx f memory id missing active many))
      (rw flags
        (missing_from-below f r.sizes_of.data_chunks r.sizes_of.data_chunks 0 (omega arith)))
      (omega arith) (chunks ∙ sym flags) stored
