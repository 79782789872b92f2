-- ===== src/Examples/Progress/Tracked.antt =====
-- What `display_progress` of sdr-udp/examples/sdr_test_receiver.cpp reads lies in the bitmap.
use sdr_rdma_udp.Common.{
  ℕ, zero, suc, ◌+◌, ◌-◌, ◌*◌, ◌≤◌, ◌<◌, ◌≡◌, refl, false, Option, some, List, [], ◌==◌, arith,
  Bool-cases, Returns, bind-Returns, inl, inr,
}
use sdr_rdma_udp.Backend.{BackendBitmap, get_chunk_packet_count}
use sdr_rdma_udp.Backend
use sdr_rdma_udp.Backend.Chunk.{is_chunk_complete_lem}
use sdr_rdma_udp.Backend.Count.{get_chunk_packet_count_lem}
use sdr_rdma_udp.Connection.{MessageContext}
use sdr_rdma_udp.Frontend.{FrontendBitmap, Fits}
use sdr_rdma_udp.Frontend.Tracking.{Bitmaps, IsSound}
use sdr_rdma_udp.Examples.Progress.{
  Display, Row, window, moved_on, rows_from, show_window, show_context, display_progress,
}

-- A context with sound bitmaps, whose chunks are counted in its total and hold all the packets.
pub record IsTracked (m : MessageContext) : Type 0 where
  pub bitmaps : Bitmaps
  pub has_backend : m.backend_bitmap ≡ some bitmaps.packets
  pub has_frontend : m.frontend_bitmap ≡ some bitmaps.chunks
  pub sound : IsSound bitmaps
  pub counted : m.total_chunks ≡ bitmaps.chunks.total_chunks
  pub covered :
      bitmaps.packets.total_packets
      ≤ bitmaps.chunks.total_chunks * bitmaps.packets.packets_per_chunk

rows_from-Returns :
    (b : BackendBitmap) (f : FrontendBitmap) (per n c : ℕ)
    → Backend.IsValid b
    → Fits b f
    → n ≤ f.total_chunks - c
    → Returns (rows_from b per n c)
unfolding rows_from
rows_from-Returns b f per zero c v fits below = ([], refl)
rows_from-Returns b f per (suc n) c v fits below =
    let has = fits.has_packet c (omega arith) in
    let rest = rows_from-Returns b f per n (c + 1) v fits (omega arith) in
    bind-Returns (_, get_chunk_packet_count_lem v c has)
      (λ received.
        bind-Returns (_, is_chunk_complete_lem v c has fits.pos)
          (λ complete. bind-Returns rest (λ rows. (_, refl))))

pub window-below : (total size index : ℕ) → (window total size index).1 ≤ total
unfolding window
window-below total size index = omega arith

-- What a call leaves of the display, if it shows something.
abbrev pub IsShown : Display → Option (List Row × Display) → Type 0
IsShown d o = (r : List Row × Display) × (o ≡ some r) × (r.1.window_size ≡ d.window_size)

show_window-IsShown :
    (b : BackendBitmap) (f : FrontendBitmap) (per : ℕ) (d : Display)
    → Backend.IsValid b
    → Fits b f
    → 0 < d.window_size
    → IsShown d (show_window b per f.total_chunks d)
unfolding show_window
show_window-IsShown b f per d v fits pos =
    let w = window f.total_chunks d.window_size d.window_index in
    let not_zero : (d.window_size == 0) ≡ false = ground arith in
    let rows =
      rows_from-Returns b f per (w.1 - w.0) w.0 v fits
        (omega (arith, window-below f.total_chunks d.window_size d.window_index)) in
    ((rows.0, moved_on w.0 w.1 d), rw (not_zero, rows.1) refl, refl)

show_context-IsShown :
    (b : BackendBitmap) (f : FrontendBitmap) (per : ℕ) (d : Display)
    → Backend.IsValid b
    → Fits b f
    → 0 < d.window_size
    → IsShown d (show_context (some b) per f.total_chunks d)
unfolding show_context
show_context-IsShown b f per d v fits pos =
    let r = show_window-IsShown b f per d v fits pos in
    elim (Bool-cases (f.total_chunks == 0)) [
      | inl none_left ↦ (([], d), rw none_left refl, refl)
      | inr some_left ↦ elim (Bool-cases (per == 0)) [
        | inl z ↦ (([], record d { prev_display_lines = 1 }), rw (some_left, z) refl, refl)
        | inr nz ↦ (r.0, rw (some_left, nz) r.1, r.2)
      ]
    ]

-- For a context that is tracked and a window that is not empty, `display_progress` reads within the
-- bitmap and does not divide by zero.
pub display_progress-IsShown :
    {m : MessageContext} (d : Display)
    → IsTracked m
    → 0 < d.window_size
    → IsShown d (display_progress m m.total_chunks d)
unfolding display_progress
display_progress-IsShown {m} d t pos =
    rw (t.has_backend, t.counted)
      (show_context-IsShown t.bitmaps.packets t.bitmaps.chunks m.packets_per_chunk d
        t.sound.packets_valid t.sound.fits pos)
