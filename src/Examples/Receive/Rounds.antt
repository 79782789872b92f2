-- ===== src/Examples/Receive/Rounds.antt =====
-- One round of the loop of sdr-udp/examples/sdr_test_receiver.cpp, over a context whose bitmaps are tracked.
use sdr_rdma_udp.Common.{
  ◌+◌, ◌/◌, ◌≤◌, ◌<◌, ◌≡◌, refl, ◌∙◌, sym, subst, Bool, true, false, ◌&&◌, Option, some, ltb, leb,
  ◌>>=◌, arith, inl, inr, ◌⊎◌, Bool-cases, all_from, all_from_intro, all_from_elim, count_from,
  count_from-eq_all,
}
use sdr_rdma_udp.Backend.{received, chunk_received}
use sdr_rdma_udp.Backend.Laws.{chunk_received_iff}
use sdr_rdma_udp.Connection.{MessageContext}
use sdr_rdma_udp.Frontend.{completed}
use sdr_rdma_udp.Frontend.Poll.{get_total_chunks_completed_lem}
use native.Mathlib.Nat.{div-mul-le_self, lt-div-mul-add, div-lt_iff_lt-mul}
use sdr_rdma_udp.Examples.Args.{Mode, sdr, sr, ec}
use sdr_rdma_udp.Examples.Progress.Tracked.{IsTracked, display_progress-IsShown}
use sdr_rdma_udp.Examples.Receive.{
  Loop, Seen, show, count_chunks, note_progress, is_late, all_here, by_mode, with_context, round,
}

-- A context with every packet of its message.
pub record IsWhole (m : MessageContext) : Type 0 where
  pub tracked : IsTracked m
  pub every :
      all_from (received tracked.bitmaps.packets) tracked.bitmaps.packets.total_packets 0 ≡ true

-- Where all chunks are counted, every packet is there.
IsWhole-count :
    {m : MessageContext} (t : IsTracked m)
    → m.total_chunks ≤ count_from (completed t.bitmaps.chunks) t.bitmaps.chunks.total_chunks 0
    → IsWhole m
IsWhole-count {m} t le =
    let b = t.bitmaps.packets in
    let f = t.bitmaps.chunks in
    let marked : all_from (completed f) f.total_chunks 0 ≡ true =
      (count_from-eq_all (completed f) f.total_chunks 0).0 (omega (arith, le, t.counted)) in
    record {
      tracked = t;
      every = all_from_intro (received b) b.total_packets 0 (λ i lo hi.
          let c = i / b.packets_per_chunk in
          let pos = t.sound.fits.pos in
          let below : c < f.total_chunks = (div-lt_iff_lt-mul pos).1 (omega (arith, t.covered)) in
          let has : chunk_received b c ≡ true =
            t.sound.sound c
              (all_from_elim (completed f) f.total_chunks 0 marked c (omega arith) (omega arith)) in
          (chunk_received_iff b c).0 has i (div-mul-le_self i b.packets_per_chunk)
            (lt-div-mul-add pos) (omega arith));
    }

-- What the display and the clock do not touch.
record Keeps (s t : Loop) : Type 0 where
  same_chunks : t.chunks_received ≡ s.chunks_received
  same_total : t.total_chunks ≡ s.total_chunks
  same_window : t.display.window_size ≡ s.display.window_size
  same_rounds : t.iterations ≡ s.iterations

Keeps-refl : (s : Loop) → Keeps s s
Keeps-refl s = record {
  same_chunks = refl;
  same_total = refl;
  same_window = refl;
  same_rounds = refl;
}

Kept : Loop → Option Loop → Type 0
Kept s o = (t : Loop) × (o ≡ some t) × Keeps s t

show-Kept :
    {m : MessageContext} (s : Loop)
    → IsTracked m
    → 0 < s.display.window_size
    → s.total_chunks ≡ m.total_chunks
    → Kept s (show m s)
unfolding show Kept
show-Kept {m} s t pos same =
    let d = display_progress-IsShown s.display t pos in
    (
      record s { display = d.0.1 },
      rw (same, d.1) refl,
      record { same_chunks = refl; same_total = refl; same_window = d.2; same_rounds = refl },
    )

note_progress-Kept :
    (x : Seen) (s : Loop)
    → IsTracked x.context
    → 0 < s.display.window_size
    → s.total_chunks ≡ x.context.total_chunks
    → Kept s (note_progress x s)
unfolding note_progress Kept
note_progress-Kept x s t pos same =
    let noted = record s {
      last_chunks_received = s.chunks_received;
      last_progress_time = x.progress_at;
    } in
    let a : Kept noted (show x.context noted) = show-Kept noted t pos same in
    let b : Kept s (show x.context s) = show-Kept s t pos same in
    elim (Bool-cases (ltb s.last_chunks_received s.chunks_received)) [
      | inl more ↦ (
        a.0,
        rw more a.1,
        record {
          same_chunks = a.2.same_chunks;
          same_total = a.2.same_total;
          same_window = a.2.same_window;
          same_rounds = a.2.same_rounds;
        },
      )
      | inr none_new ↦ elim (Bool-cases (leb 50 s.display_update_counter)) [
        | inl due ↦ (
          record (b.0) { display_update_counter = 0 },
          rw (none_new, due, b.1) refl,
          record {
            same_chunks = b.2.same_chunks;
            same_total = b.2.same_total;
            same_window = b.2.same_window;
            same_rounds = b.2.same_rounds;
          },
        )
        | inr early ↦ (s, rw (none_new, early) refl, Keeps-refl s)
      ]
    ]

-- Why the counts after a round are as they are: chunks are missing, or a decoding was successful, or the
-- context has every packet.
pub data IsTold (mode : Mode) (m : MessageContext) (t : Loop) : Type 0 where
  short : all_here t ≡ false → IsTold mode m t
  decoded : mode ≡ ec → t.ec_decoded_success ≡ true → IsTold mode m t
  whole : IsWhole m → IsTold mode m t

pub record IsRound (mode : Mode) (x : Seen) (s : Loop) (o : Option (Bool × Loop)) : Type 0 where
  pub left : Bool
  pub after : Loop
  pub returns : o ≡ some (left, after)
  pub counted : after.iterations ≡ s.iterations + 1
  pub same_window : after.display.window_size ≡ s.display.window_size
  pub told : IsTold mode x.context after

-- What the counts say of the context.
Counts : MessageContext → Loop → Type 0
Counts m s = (all_here s ≡ false) ⊎ IsWhole m

IsTold-Keeps :
    {mode : Mode} {m : MessageContext} {s t : Loop} → Counts m s → Keeps s t → IsTold mode m t
unfolding Counts
IsTold-Keeps {s} {t} (inl no_all) k = short (rw (k.same_total, k.same_chunks) no_all)
IsTold-Keeps (inr w) k = whole w

-- The end of a round from a state with the context's total, which the round has counted.
module _ (mode : Mode) (x : Seen) (s0 s : Loop) (t : IsTracked x.context)
    (pos : 0 < s.display.window_size) (same : s.total_chunks ≡ x.context.total_chunks)
    (rounds : s.iterations ≡ s0.iterations + 1)
    (window : s.display.window_size ≡ s0.display.window_size) (c : Counts x.context s) where
  stays : {o : Option (Bool × Loop)} → o ≡ some (false, s) → IsRound mode x s0 o
  stays e = record {
    left = false;
    after = s;
    returns = e;
    counted = rounds;
    same_window = window;
    told = IsTold-Keeps c (Keeps-refl s);
  }

  leaves :
      {o : Option (Bool × Loop)}
      → o ≡ (show x.context s >>= λ u. some (true, u))
      → IsRound mode x s0 o
  unfolding Kept
  leaves e =
      let k = show-Kept s t pos same in
      record {
        left = true;
        after = k.0;
        returns = e ∙ rw k.1 refl;
        counted = k.2.same_rounds ∙ rounds;
        same_window = k.2.same_window ∙ window;
        told = IsTold-Keeps c k.2;
      }

  gives_up :
      {o : Option (Bool × Loop)}
      → o ≡ some (true, record s { transfer_incomplete = true })
      → IsRound mode x s0 o
  gives_up e = record {
    left = true;
    after = record s { transfer_incomplete = true };
    returns = e;
    counted = rounds;
    same_window = window;
    told =
        IsTold-Keeps c (record {
          same_chunks = refl;
          same_total = refl;
          same_window = refl;
          same_rounds = refl;
        });
  }

by_mode-IsRound :
    (mode : Mode) (x : Seen) (s0 s : Loop)
    → IsTracked x.context
    → 0 < s.display.window_size
    → s.total_chunks ≡ x.context.total_chunks
    → s.iterations ≡ s0.iterations + 1
    → s.display.window_size ≡ s0.display.window_size
    → Counts x.context s
    → IsRound mode x s0 (by_mode mode x s)
unfolding by_mode Kept
by_mode-IsRound sdr x s0 s t pos same rounds win c = elim (Bool-cases (all_here s)) [
  | inl h ↦ leaves sdr x s0 s t pos same rounds win c (rw h refl)
  | inr h ↦ stays sdr x s0 s t pos same rounds win c (rw h refl)
]
by_mode-IsRound sr x s0 s t pos same rounds win c = elim (Bool-cases (x.done && all_here s)) [
  | inl h ↦ leaves sr x s0 s t pos same rounds win c (rw h refl)
  | inr h ↦ stays sr x s0 s t pos same rounds win c (rw h refl)
]
by_mode-IsRound ec x s0 s t pos same rounds win c = elim (Bool-cases x.done) [
  | inl h ↦
      let k : Kept (record s { chunks_received = s.total_chunks })
          (show x.context (record s { chunks_received = s.total_chunks })) =
        show-Kept (record s { chunks_received = s.total_chunks }) t pos same in
      record {
        left = true;
        after = record (k.0) { ec_decoded_success = true };
        returns = rw (h, k.1) refl;
        counted = k.2.same_rounds ∙ rounds;
        same_window = k.2.same_window ∙ win;
        told = decoded refl refl;
      }
  | inr h ↦ stays ec x s0 s t pos same rounds win c (rw h refl)
]

-- For a context that is tracked and a window that is not empty, a round has no undefined behaviour, and
-- what it counts is true of the context.
pub round-IsRound :
    (mode : Mode) (x : Seen) (s : Loop)
    → IsTracked x.context
    → 0 < s.display.window_size
    → IsRound mode x s (round mode x s)
unfolding round with_context count_chunks Kept Counts
round-IsRound mode x s t pos =
    let f = t.bitmaps.chunks in
    let n = count_from (completed f) f.total_chunks 0 in
    let s1 = record s {
      iterations = s.iterations + 1;
      display_update_counter = s.display_update_counter + 1;
      chunks_received = n;
      total_chunks = x.context.total_chunks;
    } in
    let k : Kept s1 (note_progress x s1) = note_progress-Kept x s1 t pos refl in
    let c : Counts x.context k.0 = elim (Bool-cases (leb x.context.total_chunks n)) [
      | inl all ↦ inr (IsWhole-count t (ground arith))
      | inr few ↦ inl (rw (k.2.same_chunks, k.2.same_total, few) (ground arith))
    ] in
    let counting = get_total_chunks_completed_lem t.sound.chunks_valid in
    let pos2 : 0 < k.0.display.window_size = rw k.2.same_window pos in
    let done =
      by_mode-IsRound mode x s k.0 t pos2 k.2.same_total k.2.same_rounds k.2.same_window c in
    elim (Bool-cases (is_late mode x k.0)) [
      | inl late ↦
          gives_up mode x s k.0 t pos2 k.2.same_total k.2.same_rounds k.2.same_window c
            (rw (t.has_frontend, counting, k.1, late) refl)
      | inr early ↦
          let e : round mode x s ≡ by_mode mode x k.0 =
            rw (t.has_frontend, counting, k.1, early) refl in
          subst (λ o. IsRound mode x s o) (sym e) done
    ]
