-- ===== src/Connection/Tests.antt =====
-- The message table at a fresh connection, and the theorems about it there.
use sdr_rdma_udp.Common.{inr, ◌+◌, ◌*◌, ◌≤◌, ◌<◌, ◌≡◌, refl, none, some, arith}
use sdr_rdma_udp.Connection.{
  ConnectionContext, MessageContext, active, empty_context, new, allocate_message_slot, get_message,
  complete_message, release_message, occupied, update, calculate_bitmap_sizes,
}
use sdr_rdma_udp.Connection.Slots.{other_slots}
use sdr_rdma_udp.Connection.Life.{IsFree, IsTaken, fresh, slot_life, not_free}
use sdr_rdma_udp.Connection.Sizes.{calculate_bitmap_sizes_lem}

abbrev first_context : MessageContext
first_context = record empty_context { msg_id = 5; generation = 1; state = active }

abbrev one_active : ConnectionContext
one_active = record new { msg_table = update (λ _. none) 5 (some first_context) }

first_allocated : (allocate_message_slot new 5 1).0 ≡ some first_context
unfolding allocate_message_slot new occupied
first_allocated = refl

out_of_table : (allocate_message_slot new 1024 1).0 ≡ none
unfolding allocate_message_slot
out_of_table = refl

sizes : calculate_bitmap_sizes 1000 256 3 ≡ (4, 2)
unfolding calculate_bitmap_sizes
sizes = refl

other_slots_example :
    (get_message (allocate_message_slot one_active 5 2).1 6 ≡ get_message one_active 6)
    × (get_message (release_message one_active 5) 6 ≡ get_message one_active 6)
    × (get_message (complete_message one_active 5) 6 ≡ get_message one_active 6)
other_slots_example = other_slots one_active 5 6 2 (omega arith)

slot_5-IsFree : IsFree (get_message new 5) 1
unfolding IsFree new get_message
slot_5-IsFree m e = ground arith

slot_5_taken : ¬ (IsFree (get_message one_active 5) 2)
unfolding IsFree get_message
slot_5_taken free = (free first_context refl).0 refl

slot_life_example : ((allocate_message_slot new 5 1).0 ≡ some (fresh new 5)) × IsTaken new 5 1
slot_life_example = slot_life new 5 1 (omega arith) slot_5-IsFree

not_free_example : allocate_message_slot one_active 5 2 ≡ (none, one_active)
not_free_example = not_free one_active 5 2 (inr slot_5_taken)

calculate_bitmap_sizes_lem_example :
    let (packets, chunks) = calculate_bitmap_sizes 1000 256 3 in
    (1000 ≤ packets * 256)
    × (packets * 256 < 1000 + 256)
    × (packets ≤ chunks * 3)
    × (chunks * 3 < packets + 3)
calculate_bitmap_sizes_lem_example =
    calculate_bitmap_sizes_lem 1000 256 3 (omega arith) (omega arith) (omega arith) (omega arith)
