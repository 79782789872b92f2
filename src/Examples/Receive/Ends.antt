-- ===== src/Examples/Receive/Ends.antt =====
-- The loop of sdr-udp/examples/sdr_test_receiver.cpp as a whole.
use sdr_rdma_udp.Common.{
  ℕ, ◌+◌, ◌≤◌, ◌<◌, ◌≡◌, refl, ap, ◌∙◌, Bool, true, false, Option, some, List, [], ◌∷◌, ltb, leb,
  arith, inl, inr, ◌⊎◌, Bool-cases, length, length,
}
use mathlib.Core.List.{Memᴰ}
use sdr_rdma_udp.Connection.{MessageContext}
use sdr_rdma_udp.Examples.Args.{Mode, ec}
use sdr_rdma_udp.Examples.Progress.Tracked.{IsTracked}
use sdr_rdma_udp.Examples.Receive.{Loop, Seen, start_loop, all_here, receive_loop, max_iterations}
use sdr_rdma_udp.Examples.Receive.Rounds.{IsWhole, IsTold, short, decoded, whole, round-IsRound}

-- Why all chunks are counted when the loop ends.
pub data IsComplete (mode : Mode) (seen : List Seen) (t : Loop) : Type 0 where
  by_decoding : mode ≡ ec → t.ec_decoded_success ≡ true → IsComplete mode seen t
  by_packets : (x : Seen) → Memᴰ x seen → IsWhole x.context → IsComplete mode seen t

Story : Mode → List Seen → Loop → Type 0
Story mode seen t = (all_here t ≡ false) ⊎ IsComplete mode seen t

told-Story :
    {mode : Mode} {seen : List Seen} {x : Seen} {t : Loop}
    → Memᴰ x seen
    → IsTold mode x.context t
    → Story mode seen t
unfolding Story
told-Story m (short e) = inl e
told-Story m (decoded e d) = inr (by_decoding e d)
told-Story {x} m (whole w) = inr (by_packets x m w)

-- What the loop leaves: it returns, it has ended if it had the rounds, and the counts are explained.
record IsEnded (mode : Mode) (seen rounds : List Seen) (s : Loop) (o : Option (Bool × Loop))
    : Type 0 where
  pub ended : Bool
  pub after : Loop
  pub returns : o ≡ some (ended, after)
  pub enough : (ended ≡ true) ⊎ (s.iterations + length rounds < max_iterations)
  pub story : Story mode seen after

receive_loop-IsEnded :
    (mode : Mode) (seen rounds : List Seen) (s : Loop)
    → ((x : Seen) → Memᴰ x rounds → Memᴰ x seen)
    → ((x : Seen) → Memᴰ x seen → IsTracked x.context)
    → 0 < s.display.window_size
    → Story mode seen s
    → IsEnded mode seen rounds s (receive_loop mode rounds s)
unfolding receive_loop
receive_loop-IsEnded mode seen [] s sub tracked pos st = record {
  ended = leb max_iterations s.iterations;
  after = s;
  returns = refl;
  enough = elim (Bool-cases (leb max_iterations s.iterations)) [
    | inl e ↦ inl e
    | inr e ↦ inr (ground arith)
  ];
  story = st;
}
receive_loop-IsEnded mode seen (x ∷ rounds) s sub tracked pos st =
    let m = sub x (Memᴰ.head refl) in
    let r = round-IsRound mode x s (tracked x m) pos in
    let later =
      receive_loop-IsEnded mode seen rounds r.after (λ y i. sub y (Memᴰ.tail i)) tracked
        (rw r.same_window pos) (told-Story m r.told) in
    elim (Bool-cases (leb max_iterations s.iterations)) [
      | inl over ↦ record {
        ended = true;
        after = s;
        returns = rw over refl;
        enough = inl refl;
        story = st;
      }
      | inr go_on ↦ elim (Bool-cases r.left) [
        | inl out ↦ record {
          ended = true;
          after = r.after;
          returns = rw (go_on, r.returns, out) refl;
          enough = inl refl;
          story = told-Story m r.told;
        }
        | inr again ↦ record {
          ended = later.ended;
          after = later.after;
          returns = rw (go_on, r.returns, again) later.returns;
          enough = ground (arith, later.enough, r.counted);
          story = later.story;
        }
      ]
    ]

-- For a message that has chunks, a window of the display that is not empty, and rounds whose
-- contexts have sound bitmaps, count all chunks in their total and have all packets in a chunk:
-- with a million rounds the receiver's loop, from its start, ends with no undefined behaviour; and
-- it counts all chunks then only if a round saw a context that had received every packet, or, in
-- the mode of the erasure code, if the decoding was successful.
pub receive_ends :
    (mode : Mode) (ctx : MessageContext) (window_size now : ℕ) (rounds : List Seen)
    → 0 < ctx.total_chunks
    → 0 < window_size
    → ((x : Seen) → Memᴰ x rounds → IsTracked x.context)
    → max_iterations ≤ length rounds
    → (s t : Loop) × (start_loop ctx window_size now ≡ some s)
      × (receive_loop mode rounds s ≡ some (true, t))
      × ((all_here t ≡ false) ⊎ IsComplete mode rounds t)
unfolding start_loop Story
receive_ends mode ctx window_size now rounds some_chunks pos tracked many =
    let s : Loop = record {
      iterations = 0;
      chunks_received = 0;
      total_chunks = ctx.total_chunks;
      last_chunks_received = 0;
      last_progress_time = now;
      display_update_counter = 0;
      display = record { window_size = window_size; window_index = 0; prev_display_lines = 0 };
      ec_decoded_success = false;
      transfer_incomplete = false;
    } in
    let positive : ltb 0 ctx.total_chunks ≡ true = ground arith in
    let none_here : all_here s ≡ false = ground arith in
    let e = receive_loop-IsEnded mode rounds rounds s (λ x i. i) tracked pos (inl none_here) in
    let over : e.ended ≡ true = ground (arith, e.enough) in
    (s, e.after, rw positive refl, e.returns ∙ ap (λ b. some (b, e.after)) over, e.story)
