-- ===== src/Examples/Progress/Windows.antt =====
-- The windows that `display_progress` of sdr-udp/examples/sdr_test_receiver.cpp shows by turns.
use native.Mathlib.Nat.{
  mul-le-mul, div-mul-le_self, le-div_iff_mul-le, div-eq_of_lt-le, lt-div-mul-add, mod-lt, suc-mul,
}
use sdr_rdma_udp.Common.{
  ℕ, suc, ◌+◌, ◌-◌, ◌*◌, ◌/◌, ◌%◌, ◌^◌, ◌≤◌, ◌<◌, ◌≡◌, sym, ap, ◌↔◌, true, ltb, min, u64, arith,
}
use sdr_rdma_udp.Examples.Progress.{window, num_windows}

add_one_mul : (j size : ℕ) → (j + 1) * size ≡ j * size + size
add_one_mul j size = grind arith

module _ (total size : ℕ) (some_chunks : 0 < total) (pos : 0 < size) (total_32 : total < 2 ^ 32)
    (size_32 : size < 2 ^ 32) where
  num_windows_lem : num_windows total size ≡ (total + size - 1) / size
  num_windows_lem =
      ap (λ x. x / size)
        (let e : u64 (total + size + (2 ^ 64 - 1)) ≡ total + size - 1 = omega arith in e)

  num_windows-pos : 0 < num_windows total size
  num_windows-pos = omega (
    arith,
    num_windows_lem,
    (le-div_iff_mul-le {x = 1} {y = total + size - 1} pos).1 (omega arith),
  )

  -- A window ends before the size of one more than the last chunk.
  turn_fits : (j : ℕ) → j < num_windows total size → j * size + size ≤ total + size - 1
  turn_fits j h =
      let a : suc j * size ≤ num_windows total size * size =
        mul-le-mul (let x : suc j ≤ num_windows total size = omega arith in x)
          (let x : size ≤ size = omega arith in x) in
      let b = div-mul-le_self (total + size - 1) size in
      let c : num_windows total size * size ≤ total + size - 1 = rw num_windows_lem b in
      omega (arith, a, c, suc-mul j size)

  window_lem :
      (i : ℕ)
      → let j = i % num_windows total size in
        ((window total size i).0 ≡ j * size)
        × ((window total size i).1 ≡ min (j * size + size) total)
  unfolding window
  window_lem i =
      let j = i % num_windows total size in
      let below : j < num_windows total size = mod-lt i num_windows-pos in
      let fits = turn_fits j below in
      let positive : ltb 0 (num_windows total size) ≡ true = ground (arith, num_windows-pos) in
      (rw positive (omega (arith, fits)), rw positive (omega (arith, fits)))

  -- For a message with at least one and fewer than 2^32 chunks and a window that is not empty and
  -- below 2^32: a chunk of the message is in the window of a window_index exactly when that, modulo the
  -- number of windows, is the chunk's number over the size of the window.
  pub shown_by_turns :
      (i c : ℕ)
      → c < total
      → (c / size < num_windows total size)
        × ((((window total size i).0 ≤ c) × (c < (window total size i).1))
            ↔ (i % num_windows total size ≡ c / size))
  shown_by_turns i c below =
      let j = i % num_windows total size in
      let w = window_lem i in
      let next : (c / size + 1) * size ≤ total + size - 1 =
        omega (arith, add_one_mul (c / size) size, div-mul-le_self c size) in
      (
        omega (arith, num_windows_lem, (le-div_iff_mul-le pos).1 next),
        (
          λ h.
              let lo : j * size ≤ c = omega (arith, w.0, h.0) in
              let hi : c < (j + 1) * size = omega (arith, w.1, h.1, add_one_mul j size) in
              sym (div-eq_of_lt-le size lo hi),
          λ e.
              let lo : j * size ≤ c = rw e (div-mul-le_self c size) in
              let hi : c < j * size + size = rw e (lt-div-mul-add pos) in
              (omega (arith, w.0), omega (arith, w.1)),
        ),
      )
