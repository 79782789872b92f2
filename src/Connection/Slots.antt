-- ===== src/Connection/Slots.antt =====
-- sdr-udp/include/sdr_connection.h: what the operations of the table do to a slot, and to the others.
use sdr_rdma_udp.Common.{ℕ, ◌≤◌, ◌<◌, ◌≡◌, ◌≢◌, inl, inr, none, some, arith, le→leb, Option-cases}
use sdr_rdma_udp.Connection.{
  ConnectionContext, MessageContext, dead, null_sink, max_messages, complete_slot,
  allocate_message_slot, get_message, release_message, complete_message,
}

-- Allocating, releasing and completing a message leave the slots of other ids alone.
pub other_slots :
    (c : ConnectionContext) (id other generation : ℕ)
    → other ≢ id
    → (get_message (allocate_message_slot c id generation).1 other ≡ get_message c other)
      × (get_message (release_message c id) other ≡ get_message c other)
      × (get_message (complete_message c id) other ≡ get_message c other)
unfolding allocate_message_slot release_message complete_message get_message
other_slots c id other generation ne = (
  ground arith,
  ground arith,
  elim (Option-cases (c.msg_table id)) [
    | inl e ↦ rw e (ground arith)
    | inr (m, e) ↦ rw e (ground arith)
  ],
)

-- Completing a message of the table leaves its slot dead and its buffer pointing at the null sink,
-- and the rest as it was, the size too; the slot then refuses a generation that is not later than
-- its own.
pub complete_message_lem :
    (c : ConnectionContext) (id generation : ℕ) (m : MessageContext)
    → id < max_messages
    → c.msg_table id ≡ some m
    → generation ≤ m.generation
    → let c' = complete_message c id in
      (get_message c' id ≡ some (record m { state = dead; buffer = null_sink }))
      × (allocate_message_slot c' id generation ≡ (none, c'))
unfolding complete_message get_message allocate_message_slot
complete_message_lem c id generation m h e le =
    rw (e, complete_slot) (ground arith, ground (arith, le→leb generation m.generation le))
