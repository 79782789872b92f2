-- ===== src/Api/Complete.antt =====
-- sdr-udp/src/sdr_api.cpp: the end of a transfer. `sdr_recv_complete` tells the sender whether the
-- transfer is complete, and `sdr_send_poll` waits for that. The handle's context is the slot of its id.
use sdr_rdma_udp.Common.{
  ℕ, ◌*◌, ◌^◌, ◌<◌, ◌≡◌, refl, ap, ◌∙◌, Bool, true, false, ◌&&◌, Option, none, some, List, [], ◌∷◌,
  ◌++◌, ltb, leb, if◌then◌else◌, ◌>>=◌, u32, arith, all_from, count_from, count_from-eq_all,
  Bool-ext, ◌↔◌, lt→ltb, leb→le, le→leb,
}
use mathlib.Core.Option
use sdr_rdma_udp.Control.{ControlMsgType, complete_ack, incomplete_nack}
use sdr_rdma_udp.Connection.{
  ConnectionContext, MessageContext, MessageState, active, dead, null_sink, max_messages, update,
  get_message, complete_message,
}
use sdr_rdma_udp.Connection.Slots.{complete_message_lem}
use sdr_rdma_udp.Frontend.{
  FrontendBitmap, stop_polling, get_total_chunks_completed, IsValid, completed,
}
use sdr_rdma_udp.Frontend.Stop.{count-stop_polling}

abbrev is_completed : MessageState → Bool
is_completed MessageState.completed = true
is_completed _ = false

-- The count of a chunk bitmap against the number of chunks.
unfoldable pub all_chunks : Option FrontendBitmap → ℕ → Option Bool
all_chunks none total_chunks = some false
all_chunks (some f) total_chunks = get_total_chunks_completed f >>= λ chunks_received.
    some (ltb 0 (u32 total_chunks) && leb (u32 total_chunks) chunks_received)

unfoldable pub is_complete : MessageContext → Option Bool
is_complete m =
    if is_completed m.state then some true else all_chunks m.frontend_bitmap m.total_chunks

unfoldable pub stopped : MessageContext → MessageContext
stopped m = record m { frontend_bitmap = Option.map stop_polling m.frontend_bitmap }

unfoldable pub complete_handle :
    ConnectionContext → ℕ → Option MessageContext → Option (ControlMsgType × ConnectionContext)
complete_handle c msg_id none = none
complete_handle c msg_id (some m) = is_complete (stopped m) >>= λ done. some (
  if done then complete_ack else incomplete_nack,
  complete_message (record c { msg_table = update c.msg_table msg_id (some (stopped m)) }) msg_id,
)

-- `sdr_recv_bitmap_get`: the words of the chunk bitmap and their size in bytes; `none` is -1.
unfoldable pub sdr_recv_bitmap_get : MessageContext → Option (List ℕ × ℕ)
sdr_recv_bitmap_get m =
    Option.map (λ (f : FrontendBitmap). (f.chunk_bitmap, f.num_words * 8)) m.frontend_bitmap

-- The type of the message that is sent, and the connection after.
unfoldable pub sdr_recv_complete :
    ConnectionContext → ℕ → Option (ControlMsgType × ConnectionContext)
sdr_recv_complete c msg_id = complete_handle c msg_id (c.msg_table msg_id)

-- What `receive_message` gives to the waiting sender.
pub data Arrival : Type 0 where
  message : ControlMsgType → Arrival
  timeout closed : Arrival

-- What a message means to `sdr_send_poll`: its result, or that it goes on.
abbrev pub verdict : ControlMsgType → Option Bool
verdict complete_ack = some true
verdict incomplete_nack = some false
verdict _ = none

-- Whether 0 or -1 is returned; `none` where the history ends first.
unfoldable pub sdr_send_poll : List Arrival → Option Bool
sdr_send_poll [] = none
sdr_send_poll (closed ∷ rest) = some false
sdr_send_poll (timeout ∷ rest) = sdr_send_poll rest
sdr_send_poll (message t ∷ rest) =
    let later = sdr_send_poll rest in elim (verdict t) [ some r ↦ some r | none ↦ later ]

-- Arrivals that a waiting sender passes over.
abbrev pub is_noise : Arrival → Bool
is_noise closed = false
is_noise timeout = true
is_noise (message t) = elim (verdict t) [ some r ↦ false | none ↦ true ]

abbrev pub all_noise : List Arrival → Bool
all_noise [] = true
all_noise (a ∷ rest) = is_noise a && all_noise rest

send_poll_skips :
    (noise rest : List Arrival)
    → all_noise noise ≡ true
    → sdr_send_poll (noise ++ rest) ≡ sdr_send_poll rest
unfolding sdr_send_poll
send_poll_skips [] rest h = refl
send_poll_skips (timeout ∷ noise) rest h = send_poll_skips noise rest h
send_poll_skips (closed ∷ noise) rest h = cc
send_poll_skips (message t ∷ noise) rest h = ground (arith, send_poll_skips noise rest)

-- For an active slot in range whose chunk bitmap is well formed and has as many chunks as the
-- message, at least one and fewer than 2^32: sdr_recv_complete answers and leaves the slot dead
-- with its buffer at the null sink, and a waiting sdr_send_poll that gets the answer after any
-- timeouts and messages of other types succeeds exactly when every chunk is marked complete.
pub recv_complete-send_poll :
    (c : ConnectionContext) (msg_id : ℕ) {m : MessageContext} {f : FrontendBitmap}
    (noise : List Arrival)
    → msg_id < max_messages
    → c.msg_table msg_id ≡ some m
    → m.state ≡ active
    → m.frontend_bitmap ≡ some f
    → IsValid f
    → m.total_chunks ≡ f.total_chunks
    → 0 < f.total_chunks
    → f.total_chunks < 2 ^ 32
    → all_noise noise ≡ true
    → (t : ControlMsgType) × (c' : ConnectionContext) × (sdr_recv_complete c msg_id ≡ some (t, c'))
      × (sdr_send_poll (noise ++ (message t ∷ [])) ≡ some (all_from (completed f) f.total_chunks 0))
      × (get_message c' msg_id ≡ some (record (stopped m) { state = dead; buffer = null_sink }))
unfolding sdr_recv_complete is_complete stopped all_chunks complete_handle sdr_send_poll
recv_complete-send_poll c msg_id {m} {f} noise inside slot is_active has valid same pos small
      quiet =
    let marked : Bool = all_from (completed f) f.total_chunks 0 in
    let t : ControlMsgType = if marked then complete_ack else incomplete_nack in
    let c2 : ConnectionContext = record c {
      msg_table = update c.msg_table msg_id (some (stopped m));
    } in
    let in_slot : c2.msg_table msg_id ≡ some (stopped m) = ground arith in
    let whole : u32 f.total_chunks ≡ f.total_chunks = omega arith in
    let done : is_complete (stopped m) ≡ some marked =
      rw
        (
          is_active,
          has,
          all_chunks,
          count-stop_polling valid,
          same,
          whole,
          lt→ltb 0 f.total_chunks pos,
        )
        (ap some (Bool-ext _ _ (full_iff f.total_chunks (completed f)))) in
    (
      t,
      complete_message c2 msg_id,
      rw (slot, complete_handle, done) refl,
      send_poll_skips noise (message t ∷ []) quiet ∙ heard marked,
      (complete_message_lem c2 msg_id m.generation (stopped m) inside in_slot (omega arith)).0,
    )
  where
    full_iff : (n : ℕ) (p : ℕ → Bool) → (leb n (count_from p n 0) ≡ true) ↔ (all_from p n 0 ≡ true)
    full_iff n p = (
      λ h. (count_from-eq_all p n 0).0 (leb→le n (count_from p n 0) h),
      λ h. le→leb n (count_from p n 0) ((count_from-eq_all p n 0).1 h),
    )

    heard :
        (b : Bool)
        → sdr_send_poll (message (if b then complete_ack else incomplete_nack) ∷ []) ≡ some b
    heard true = refl
    heard false = refl
