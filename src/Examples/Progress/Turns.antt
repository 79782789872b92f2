-- ===== src/Examples/Progress/Turns.antt =====
-- What calls of `display_progress` of sdr-udp/examples/sdr_test_receiver.cpp show in a row.
use mathlib.Core.List.{Memᴰ}
use native.Mathlib.Nat.{add-mod_right, mod-eq_of_lt}
use sdr_rdma_udp.Common.{
  ℕ, zero, suc, ◌+◌, ◌-◌, ◌/◌, ◌%◌, u64, sym, subst, ◌^◌, ◌≤◌, ◌<◌, ◌≡◌, ◌↔◌, refl, false, Option,
  some, List, [], ◌∷◌, ◌==◌, ◌>>=◌, length, arith, ◌∙◌, ap, inl, inr, Bool-cases, Returns, ltb, leb,
  ◌&&◌, if◌then◌else◌,
}
use sdr_rdma_udp.Backend.{BackendBitmap, get_chunk_packet_count}
use sdr_rdma_udp.Backend
use sdr_rdma_udp.Backend.Chunk.{is_chunk_complete_lem}
use sdr_rdma_udp.Backend.Count.{get_chunk_packet_count_lem}
use sdr_rdma_udp.Frontend.{FrontendBitmap, Fits}
use sdr_rdma_udp.Connection.{MessageContext}
use sdr_rdma_udp.Examples.Progress.{
  Display, Row, num_windows, window, moved_on, rows_from, show_window, show_context,
  display_progress,
}
use sdr_rdma_udp.Examples.Progress.Tracked.{IsTracked, window-below}
use sdr_rdma_udp.Examples.Progress.Windows.{shown_by_turns}

-- The calls in a row, one for each context.
unfoldable pub displays : List MessageContext → ℕ → Display → Option (List (List Row))
displays [] total d = some []
displays (m ∷ ms) total d =
    display_progress m total d >>= λ r. displays ms total r.1 >>= λ rest. some (r.0 ∷ rest)

-- How many of some lines are for a chunk.
abbrev pub lines_for : ℕ → List Row → ℕ
lines_for c [] = 0
lines_for c (r ∷ rows) = (if r.0 == c then 1 else 0) + lines_for c rows

abbrev pub lines_in_all : ℕ → List (List Row) → ℕ
lines_in_all c [] = 0
lines_in_all c (rows ∷ rest) = lines_for c rows + lines_in_all c rest

-- How many of the `t` numbers from `i` on are `k` modulo `n`.
hits : ℕ → ℕ → ℕ → ℕ → ℕ
hits k n i zero = 0
hits k n i (suc t) = (if i % n == k then 1 else 0) + hits k n (i + 1) t

hits-suc : (k n i t : ℕ) → hits k n i (suc t) ≡ hits k n i t + (if (i + t) % n == k then 1 else 0)
unfolding hits
hits-suc k n i zero = let e : i + 0 ≡ i = omega arith in rw e (omega arith)
hits-suc k n i (suc t) =
    let e : i + suc t ≡ i + 1 + t = omega arith in rw e (omega (arith, hits-suc k n (i + 1) t))

hits-shift : (k n i : ℕ) → hits k n (i + 1) n ≡ hits k n i n
unfolding hits
hits-shift k n i =
    let whole = hits-suc k n i n in
    let same : (i + n) % n ≡ i % n = add-mod_right i n in omega (arith, rw same at whole)

hits-start : (k n i : ℕ) → hits k n i n ≡ hits k n 0 n
hits-start k n zero = refl
hits-start k n (suc i) =
    let e : suc i ≡ i + 1 = omega arith in rw e (hits-shift k n i ∙ hits-start k n i)

-- Below `n`, a number is met at its own place only.
hits-below : (k n i t : ℕ) → i + t ≤ n → hits k n i t ≡ (if leb i k && ltb k (i + t) then 1 else 0)
unfolding hits
hits-below k n i zero fits = ground arith
hits-below k n i (suc t) fits =
    let same : i % n ≡ i = mod-eq_of_lt (omega arith) in
    rw same (ground (arith, hits-below k n (i + 1) t (omega arith)))

hits-all : (k n i : ℕ) → k < n → hits k n i n ≡ 1
hits-all k n i lt = hits-start k n i ∙ hits-below k n 0 n (omega arith) ∙ ground arith

-- Whether a chunk is among the `n` from `s` on.
abbrev within : ℕ → ℕ → ℕ → ℕ
within s n c = if leb s c && ltb c (s + n) then 1 else 0

rows_from-lines :
    (b : BackendBitmap) (f : FrontendBitmap) (per n s : ℕ)
    → Backend.IsValid b
    → Fits b f
    → n ≤ f.total_chunks - s
    → (rows : List Row) × (rows_from b per n s ≡ some rows)
      × ((c : ℕ) → lines_for c rows ≡ within s n c)
unfolding rows_from
rows_from-lines b f per zero s v fits below = ([], refl, λ c. ground arith)
rows_from-lines b f per (suc n) s v fits below =
    let has = fits.has_packet s (omega arith) in
    let got : Returns (get_chunk_packet_count b s) = (_, get_chunk_packet_count_lem v s has) in
    let whole : Returns (Backend.is_chunk_complete b s) =
      (_, is_chunk_complete_lem v s has fits.pos) in
    let rest = rows_from-lines b f per n (s + 1) v fits (omega arith) in
    (
      (s, if whole.0 then per else got.0, whole.0) ∷ rest.0,
      rw (got.1, whole.1, rest.1) refl,
      λ c. ground (arith, rest.2 c),
    )

within-turn :
    (lo hi c : ℕ) {x k : ℕ}
    → ((lo ≤ c) × (c < hi)) ↔ (x ≡ k)
    → within lo (hi - lo) c ≡ (if x == k then 1 else 0)
within-turn lo hi c {x} {k} turn = elim (Bool-cases (x == k)) [
  | inl t ↦ let inside = turn.1 (ground arith) in rw t (ground arith)
  | inr f ↦
      let outside : ¬ ((lo ≤ c) × (c < hi)) = λ h. let e = turn.0 h in ground arith in
      rw f (ground (arith, outside))
]

-- A call that shows the window whose turn it is, and moves on.
IsTurn : ℕ → Display → Option (List Row × Display) → Type 0
IsTurn total d called =
    (rows : List Row) × (called
      ≡ some (
        rows,
        moved_on (window total d.window_size d.window_index).0
            (window total d.window_size d.window_index).1 d,
      ))
    × ((c : ℕ)
        → c < total
        → lines_for c rows ≡ (
            if d.window_index % num_windows total d.window_size == c / d.window_size then 1 else 0))

show_window-IsTurn :
    (b : BackendBitmap) (f : FrontendBitmap) (per : ℕ) (d : Display)
    → Backend.IsValid b
    → Fits b f
    → 0 < f.total_chunks
    → f.total_chunks < 2 ^ 32
    → 0 < d.window_size
    → d.window_size < 2 ^ 32
    → IsTurn f.total_chunks d (show_window b per f.total_chunks d)
unfolding show_window IsTurn
show_window-IsTurn b f per d v fits total_pos total_32 pos size_32 =
    let w = window f.total_chunks d.window_size d.window_index in
    let not_zero : (d.window_size == 0) ≡ false = ground arith in
    let rows =
      rows_from-lines b f per (w.1 - w.0) w.0 v fits
        (omega (arith, window-below f.total_chunks d.window_size d.window_index)) in
    (
      rows.0,
      rw (not_zero, rows.1) refl,
      λ c lt.
          let turn =
            shown_by_turns f.total_chunks d.window_size total_pos pos total_32 size_32
              d.window_index c lt in
          rows.2 c ∙ within-turn w.0 w.1 c turn.1,
    )

-- What the calls in a row need of their contexts.
pub record IsShowing (total : ℕ) (m : MessageContext) : Type 0 where
  pub tracked : IsTracked m
  pub counts : m.total_chunks ≡ total
  pub in_packets : 0 < m.packets_per_chunk

display_progress-IsTurn :
    {m : MessageContext} {total : ℕ} (d : Display)
    → IsShowing total m
    → 0 < total
    → total < 2 ^ 32
    → 0 < d.window_size
    → d.window_size < 2 ^ 32
    → IsTurn total d (display_progress m total d)
unfolding display_progress show_context
display_progress-IsTurn {m} {total} d h total_pos total_32 pos size_32 =
    let t = h.tracked in
    let some_left : (total == 0) ≡ false = ground arith in
    let divides : (m.packets_per_chunk == 0) ≡ false = ground (arith, h.in_packets) in
    let e : t.bitmaps.chunks.total_chunks ≡ total = sym t.counted ∙ h.counts in
    rw (t.has_backend, some_left, divides)
      (subst (λ n. IsTurn n d (show_window t.bitmaps.packets m.packets_per_chunk n d)) e
        (show_window-IsTurn t.bitmaps.packets t.bitmaps.chunks m.packets_per_chunk d
          t.sound.packets_valid t.sound.fits (omega (arith, e)) (omega (arith, e)) pos size_32))

displays-lines :
    (total : ℕ) (ms : List MessageContext) (d : Display)
    → 0 < total
    → total < 2 ^ 32
    → 0 < d.window_size
    → d.window_size < 2 ^ 32
    → d.window_index + length ms < 2 ^ 64
    → ((m : MessageContext) → Memᴰ m ms → IsShowing total m)
    → (shown : List (List Row)) × (displays ms total d ≡ some shown)
      × ((c : ℕ)
          → c < total
          → lines_in_all c shown
            ≡ hits (c / d.window_size) (num_windows total d.window_size) d.window_index (length ms))
unfolding displays hits IsTurn
displays-lines total [] d total_pos total_32 pos size_32 room showing = ([], refl, λ c lt. refl)
displays-lines total (m ∷ ms) d total_pos total_32 pos size_32 room showing =
    let turn =
      display_progress-IsTurn d (showing m (Memᴰ.head refl)) total_pos total_32 pos size_32 in
    let w = window total d.window_size d.window_index in
    let next : u64 (d.window_index + 1) ≡ d.window_index + 1 = omega arith in
    let rest =
      displays-lines total ms (moved_on w.0 w.1 d) total_pos total_32 pos size_32
        (omega (arith, next)) (λ x i. showing x (Memᴰ.tail i)) in
    (
      turn.0 ∷ rest.0,
      rw (turn.1, rest.1) refl,
      λ c lt.
          let later =
            rest.2 c lt
            ∙ ap (λ i. hits (c / d.window_size) (num_windows total d.window_size) i (length ms))
                next in
          omega (arith, turn.2 c lt, later),
    )

-- For contexts with sound bitmaps that count all their chunks in a total below 2^32, packets per
-- chunk that are not zero, a window that is not empty and below 2^32, and a window_index that does
-- not wrap: as many calls of display_progress in a row as there are windows, one for each context
-- and from any window on, are all without a division by zero or a read outside the bitmap, and
-- together show exactly one line for every chunk.
pub each_shown_once :
    (total : ℕ) (ms : List MessageContext) (d : Display) (c : ℕ)
    → c < total
    → total < 2 ^ 32
    → 0 < d.window_size
    → d.window_size < 2 ^ 32
    → ((m : MessageContext) → Memᴰ m ms → IsShowing total m)
    → length ms ≡ num_windows total d.window_size
    → d.window_index + length ms < 2 ^ 64
    → (shown : List (List Row)) × (displays ms total d ≡ some shown) × (lines_in_all c shown ≡ 1)
each_shown_once total ms d c lt total_32 pos size_32 showing turns room =
    let some_chunks : 0 < total = omega arith in
    let r = displays-lines total ms d some_chunks total_32 pos size_32 room showing in
    (
      r.0,
      r.1,
      r.2 c lt
          ∙ ap (hits (c / d.window_size) (num_windows total d.window_size) d.window_index) turns
          ∙ hits-all (c / d.window_size) (num_windows total d.window_size) d.window_index
              (shown_by_turns total d.window_size some_chunks pos total_32 size_32 0 c lt).0,
    )
