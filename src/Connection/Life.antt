-- ===== src/Connection/Life.antt =====
-- sdr-udp/include/sdr_connection.h: when a message slot can be allocated, and how long it stays taken.
use sdr_rdma_udp.Common.{
  ℕ, ◌+◌, ◌≤◌, ◌<◌, ◌≡◌, ◌≢◌, ◌⊎◌, ◌↔◌, refl, subst, inl, inr, Option, true, false, none, some, u32,
  arith, leb, le→leb, Bool-cases,
}
use sdr_rdma_udp.Connection.{
  ConnectionContext, MessageContext, MessageState, active, completed, dead, null_state,
  empty_context, max_messages, update, occupied, live, completed_context, complete_slot,
  allocate_message_slot, get_message, release_message, complete_message,
}

-- A slot is free for a generation: it holds no message in progress, and one that has ended is of an
-- earlier generation.
unfoldable pub IsFree : Option MessageContext → ℕ → Type 0
IsFree slot generation =
    (m : MessageContext)
    → slot ≡ some m
    → (m.state ≢ active) × ((m.state ≡ completed) ⊎ (m.state ≡ dead) → m.generation < generation)

-- The message of a new allocation.
abbrev pub fresh : ConnectionContext → ℕ → MessageContext
fresh c id = record empty_context {
  msg_id = id;
  generation = c.generation_counters id;
  state = active;
  connection_params = c.params;
}

-- The life of a slot from an allocation on: it is refused while the message is in progress, for its own
-- and earlier generations once that is completed, and given again for a later one or once released.
pub record IsTaken (c : ConnectionContext) (id : ℕ) (generation : ℕ) : Type 0 where
  pub holds : get_message (allocate_message_slot c id generation).1 id ≡ some (fresh c id)
  pub busy :
      (g : ℕ)
      → let c1 = (allocate_message_slot c id generation).1 in
        allocate_message_slot c1 id g ≡ (none, c1)
  pub late :
      (g : ℕ)
      → g ≤ c.generation_counters id
      → let c2 = complete_message (allocate_message_slot c id generation).1 id in
        allocate_message_slot c2 id g ≡ (none, c2)
  pub again :
      (g : ℕ)
      → c.generation_counters id < g
      → let c2 = complete_message (allocate_message_slot c id generation).1 id in
        (allocate_message_slot c2 id g).0
        ≡ some (record (fresh c id) { generation = u32 (c.generation_counters id + 1) })
  pub released :
      (g : ℕ)
      → let c3 = release_message (allocate_message_slot c id generation).1 id in
        (allocate_message_slot c3 id g).0
        ≡ some (record (fresh c id) { generation = u32 (c.generation_counters id + 1) })

ended_free :
    {m x : MessageContext} (g : ℕ)
    → m.state ≢ active
    → m.generation < g
    → some m ≡ some x
    → (x.state ≢ active) × ((x.state ≡ completed) ⊎ (x.state ≡ dead) → x.generation < g)
ended_free {m} {x} g idle lt q =
    let same : m ≡ x = cc in
    subst (λ y. (y.state ≢ active) × ((y.state ≡ completed) ⊎ (y.state ≡ dead) → y.generation < g))
      same (idle, λ _. lt)

-- By the state of the message.
occupied_by :
    (m : MessageContext) (g : ℕ) (s : MessageState)
    → m.state ≡ s
    → (occupied (some m) g ≡ false) ↔ IsFree (live (some m)) g
unfolding occupied live IsFree
occupied_by m g active e = rw e ((λ h. ground arith), λ h. absurd ((h m refl).0 e))
occupied_by m g completed e = rw e (
  (λ h x q. ended_free g (λ a. ground arith) (ground arith) q),
  λ h. let lt = (h m refl).1 (inl e) in ground arith,
)
occupied_by m g dead e = rw e (
  (λ h x q. ended_free g (λ a. ground arith) (ground arith) q),
  λ h. let lt = (h m refl).1 (inr e) in ground arith,
)
occupied_by m g null_state e = rw e ((λ h x q. ground arith), λ h. refl)

occupied_lem :
    (slot : Option MessageContext) (g : ℕ) → (occupied slot g ≡ false) ↔ IsFree (live slot) g
unfolding occupied live IsFree
occupied_lem none g = ((λ h m e. ground arith), λ h. refl)
occupied_lem (some m) g = occupied_by m g m.state refl

complete_message-some :
    (c : ConnectionContext) (id : ℕ) {m : MessageContext}
    → id < max_messages
    → c.msg_table id ≡ some m
    → complete_message c id
      ≡ record c { msg_table = update c.msg_table id (some (completed_context m)) }
unfolding complete_message
complete_message-some c id low e = rw (e, complete_slot) (ground arith)

in_table :
    (c : ConnectionContext) (id : ℕ) → id < max_messages → get_message c id ≡ live (c.msg_table id)
unfolding get_message
in_table c id low = ground arith

outside :
    (c : ConnectionContext) (id generation : ℕ)
    → leb max_messages id ≡ true
    → allocate_message_slot c id generation ≡ (none, c)
unfolding allocate_message_slot
outside c id generation high = rw high refl

refused :
    (c : ConnectionContext) (id generation : ℕ)
    → id < max_messages
    → occupied (c.msg_table id) generation ≡ true
    → allocate_message_slot c id generation ≡ (none, c)
unfolding allocate_message_slot
refused c id generation low taken = ground arith

allocated :
    (c : ConnectionContext) (id generation : ℕ)
    → id < max_messages
    → occupied (c.msg_table id) generation ≡ false
    → ((allocate_message_slot c id generation).0 ≡ some (fresh c id)) × IsTaken c id generation
unfolding allocate_message_slot get_message complete_message release_message
allocated c id generation low free =
    let c1 = (allocate_message_slot c id generation).1 in
    let here : c1.msg_table id ≡ some (fresh c id) = ground arith in
    let e = complete_message-some c1 id low here in
    (
      ground arith,
      record {
        holds = ground arith;
        busy = λ g. ground arith;
        late = λ g le. rw e (ground (arith, le→leb g (c.generation_counters id) le));
        again = λ g lt. rw e (ground arith);
        released = λ g. ground arith;
      },
    )

free_lem :
    (c : ConnectionContext) (id g : ℕ)
    → id < max_messages
    → (occupied (c.msg_table id) g ≡ false) ↔ IsFree (get_message c id) g
free_lem c id g low = rw (in_table c id low) (occupied_lem (c.msg_table id) g)

-- For an id in the table whose slot holds no message in progress, and none that has ended in this
-- generation or a later one: the slot is allocated, with a fresh message under the next generation
-- of the id. From then on every allocation of the id is refused and changes nothing, until the
-- message is completed or released; once it is completed, those for its own and earlier generations
-- still are, and one for a later generation gives the slot to a message of the generation after it,
-- as any allocation does once the slot is released.
pub slot_life :
    (c : ConnectionContext) (id generation : ℕ)
    → id < max_messages
    → IsFree (get_message c id) generation
    → ((allocate_message_slot c id generation).0 ≡ some (fresh c id)) × IsTaken c id generation
slot_life c id generation low free =
    allocated c id generation low ((free_lem c id generation low).1 free)

-- Where the id is outside the table, or its slot holds a message in progress or one that has ended
-- in this generation or a later one, an allocation gives no message and changes nothing.
pub not_free :
    (c : ConnectionContext) (id generation : ℕ)
    → (max_messages ≤ id) ⊎ ¬ (IsFree (get_message c id) generation)
    → allocate_message_slot c id generation ≡ (none, c)
not_free c id generation taken = elim (Bool-cases (leb max_messages id)) [
  | inl t ↦ outside c id generation t
  | inr low ↦ elim (Bool-cases (occupied (c.msg_table id) generation)) [
    | inl t ↦ refused c id generation (ground arith) t
    | inr f ↦
        let free = (free_lem c id generation (ground arith)).0 f in
        elim taken [ inl high ↦ absurd (ground arith) | inr held ↦ absurd (held free) ]
  ]
]
