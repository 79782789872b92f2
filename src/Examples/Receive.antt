-- ===== src/Examples/Receive.antt =====
-- sdr-udp/examples/sdr_test_receiver.cpp: the loop of `main` that waits for the message, and what follows it. Each
-- entry of a history is one round: the context of the handle as the round sees it, the two readings of
-- the clock, in milliseconds, and what `pump` or `try_decode` returns.
pub mod Rounds
pub mod Ends
use sdr_rdma_udp.Common.{
  ℕ, zero, suc, ◌+◌, ◌-◌, ◌/◌, Bool, true, false, ◌&&◌, Option, none, some, List, [], ◌∷◌, ltb, leb,
  if◌then◌else◌, ◌>>=◌,
}
use sdr_rdma_udp.Connection.{MessageContext, MessageState}
use sdr_rdma_udp.Frontend.{FrontendBitmap, get_total_chunks_completed}
use sdr_rdma_udp.Api.Complete.{sdr_recv_bitmap_get, stopped}
use sdr_rdma_udp.Examples.Args.{Mode, sdr, sr, ec}
use sdr_rdma_udp.Examples.Progress.{Display, display_progress}
use sdr_rdma_udp.Examples.Verify.{verify}

abbrev pub max_iterations : ℕ
max_iterations = 1000000

abbrev pub timeout_seconds : Mode → ℕ
timeout_seconds ec = 120
timeout_seconds _ = 30

pub record Loop : Type 0 where
  pub iterations : ℕ
  pub chunks_received : ℕ
  pub total_chunks : ℕ
  pub last_chunks_received : ℕ
  pub last_progress_time : ℕ
  pub display_update_counter : ℕ
  pub display : Display
  pub ec_decoded_success : Bool
  pub transfer_incomplete : Bool

-- Before the loop, for the total that the context has; `none` where it is 0 and `main` returns 1.
unfoldable pub start_loop : MessageContext → ℕ → ℕ → Option Loop
start_loop ctx window_size now =
    if ltb 0 ctx.total_chunks
    then some (record {
      iterations = 0;
      chunks_received = 0;
      total_chunks = ctx.total_chunks;
      last_chunks_received = 0;
      last_progress_time = now;
      display_update_counter = 0;
      display = record { window_size = window_size; window_index = 0; prev_display_lines = 0 };
      ec_decoded_success = false;
      transfer_incomplete = false;
    })
    else none

pub record Seen : Type 0 where
  pub context : MessageContext
  pub progress_at : ℕ
  pub now : ℕ
  pub done : Bool

-- A call of `display_progress`; what it shows is dropped.
unfoldable pub show : MessageContext → Loop → Option Loop
unfolding display_progress
show ctx s =
    display_progress ctx s.total_chunks s.display >>= λ r. some (record s { display = r.1 })

-- The counts, as the context has them.
unfoldable pub count_chunks : MessageContext → FrontendBitmap → Loop → Option Loop
count_chunks ctx f s = get_total_chunks_completed f >>= λ n.
    some (record s { chunks_received = n; total_chunks = ctx.total_chunks })

-- The progress that was made since the last round, if any.
unfoldable pub note_progress : Seen → Loop → Option Loop
unfolding show
note_progress x s =
    let changed =
      show x.context (record s {
        last_chunks_received = s.chunks_received;
        last_progress_time = x.progress_at;
      }) in
    let due = show x.context s >>= λ t. some (record t { display_update_counter = 0 }) in
    if ltb s.last_chunks_received s.chunks_received
    then changed
    else if leb 50 s.display_update_counter
    then due
    else some s

-- Whether the loop gives up.
abbrev pub is_late : Mode → Seen → Loop → Bool
is_late mode x s =
    ltb 0 s.chunks_received
    && (leb (timeout_seconds mode) ((x.now - s.last_progress_time) / 1000)
        && ltb s.chunks_received s.total_chunks)

abbrev pub all_here : Loop → Bool
all_here s = ltb 0 s.total_chunks && leb s.total_chunks s.chunks_received

-- The end of a round: whether the loop is left, and its state.
unfoldable pub by_mode : Mode → Seen → Loop → Option (Bool × Loop)
unfolding show
by_mode sdr x s =
    let shown = show x.context s >>= λ t. some (true, t) in
    if all_here s then shown else some (false, s)
by_mode sr x s =
    let shown = show x.context s >>= λ t. some (true, t) in
    if x.done && all_here s then shown else some (false, s)
by_mode ec x s =
    let shown = show x.context (record s { chunks_received = s.total_chunks }) >>= λ t.
    some (true, record t { ec_decoded_success = true }) in
    if x.done then shown else some (false, s)

unfoldable pub with_context : Mode → Seen → Option FrontendBitmap → Loop → Option (Bool × Loop)
unfolding count_chunks note_progress by_mode
with_context mode x none s = some (true, s)
with_context mode x (some f) s = count_chunks x.context f s >>= λ s1. note_progress x s1 >>= λ s2.
    let go_on = by_mode mode x s2 in
    if is_late mode x s2 then some (true, record s2 { transfer_incomplete = true }) else go_on

-- One round. `sdr_recv_bitmap_get` fails where the context has no chunk bitmap.
unfoldable pub round : Mode → Seen → Loop → Option (Bool × Loop)
unfolding with_context
round mode x s = with_context mode x x.context.frontend_bitmap (record s {
  iterations = s.iterations + 1;
  display_update_counter = s.display_update_counter + 1;
})

-- The loop: whether it has ended, and its state.
unfoldable pub receive_loop : Mode → List Seen → Loop → Option (Bool × Loop)
unfolding round
receive_loop mode [] s = some (leb max_iterations s.iterations, s)
receive_loop mode (x ∷ rounds) s =
    let go_on = round mode x s >>= λ r.
    let rest = receive_loop mode rounds r.1 in if r.0 then some (true, r.1) else rest in
    if leb max_iterations s.iterations then some (true, s) else go_on

-- The state that is reported after the loop.
unfoldable pub final : Loop → Loop
final s = if leb max_iterations s.iterations then record s { transfer_incomplete = true } else s

-- The verification, which is done where all chunks are counted. The outer `none` is a read outside the
-- buffer.
unfoldable pub verified : Loop → List ℕ → ℕ → Option (Option (Bool × ℕ))
unfolding verify
verified s buffer message_size =
    let checked = verify buffer message_size >>= λ v. some (some v) in
    if all_here s then checked else some none

-- The context before `sdr_recv_complete`: after a decoding it is complete.
unfoldable pub before_complete : Mode → Loop → MessageContext → MessageContext
unfolding stopped
before_complete ec s m =
    if s.ec_decoded_success then record (stopped m) { state = MessageState.completed } else m
before_complete _ s m = m
