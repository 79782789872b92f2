-- ===== src/Backend/Range.antt =====
-- `check_chunk_range` reads whole words where it can: its words, against a test of each packet in
-- turn.
use sdr_rdma_udp.Common.{
  ℕ, zero, suc, ◌+◌, ◌-◌, ◌*◌, ◌≤◌, ◌<◌, ◌≡◌, refl, ap, ◌∙◌, Bool, true, false, ◌&&◌, some, List,
  bit_and, ◌==◌, if◌then◌else◌, length, get_or, get_elem?-eq-get_or, uint64_max, all_from,
  all_from_elim, all_from_intro, arith, Bool-ext, ==_iff, lt→ltb, le→leb,
}
use sdr_rdma_udp.Common.Bits.{test_bit, test_bit-zero, test_bit-ones, test_bit_ext}
use sdr_rdma_udp.Common.Bits.Mask.{or_bits, test_bit-or_bits, bit_and-eq_mask}
use sdr_rdma_udp.Common.WordArray.{bit_at, AreWords, bit_of_word}
use sdr_rdma_udp.Backend.{check_word, check_middle}

pub all_from-append :
    (p : ℕ → Bool) (m n s : ℕ) → all_from p (m + n) s ≡ (all_from p m s && all_from p n (s + m))
all_from-append p zero n s =
    ap (λ k. all_from p k s) (let e : 0 + n ≡ n = omega arith in e)
    ∙ ap (λ k. all_from p n k) (let e : s ≡ s + 0 = omega arith in e)
all_from-append p (suc m) n s =
    ap (λ k. all_from p k s) (let e : suc m + n ≡ suc (m + n) = omega arith in e)
    ∙ ground (
      arith,
      all_from-append p m n (s + 1),
      ap (λ k. all_from p n k) (let e : s + 1 + m ≡ s + suc m = omega arith in e),
    )

module _ (words : List ℕ) where
  mask_test :
      (w lo hi : ℕ)
      → lo ≤ hi
      → hi ≤ 64
      → (bit_and (get_or words w 0) (or_bits (hi - lo) lo 0) == or_bits (hi - lo) lo 0)
        ≡ all_from (bit_at words) (hi - lo) (64 * w + lo)
  mask_test w lo hi le small = Bool-ext _ _ (
    λ h. all_from_intro (bit_at words) (hi - lo) (64 * w + lo) (λ i above below.
        let at_word : bit_at words (64 * w + (i - 64 * w))
            ≡ test_bit (get_or words w 0) (i - 64 * w) =
          bit_of_word words w (i - 64 * w) (omega arith) in
        let same : 64 * w + (i - 64 * w) ≡ i = omega arith in
        let in_mask : test_bit (or_bits (hi - lo) lo 0) (i - 64 * w) ≡ true =
          rw
            (
              test_bit-or_bits (hi - lo) lo 0 (i - 64 * w),
              test_bit-zero (i - 64 * w),
              le→leb lo (i - 64 * w) (omega arith),
              lt→ltb (i - 64 * w) (lo + (hi - lo)) (omega arith),
            )
            refl in
        rw (same) at (
          at_word
          ∙ (bit_and-eq_mask (get_or words w 0) (or_bits (hi - lo) lo 0)).0 h (i - 64 * w)
              in_mask)),
    λ h. (bit_and-eq_mask (get_or words w 0) (or_bits (hi - lo) lo 0)).1 (λ k in_mask.
        let bounds : (lo ≤ k) × (k < lo + (hi - lo)) =
          ground (arith, test_bit-or_bits (hi - lo) lo 0 k, test_bit-zero k) in
        let at_word : bit_at words (64 * w + k) ≡ test_bit (get_or words w 0) k =
          bit_of_word words w k (omega arith) in
        ground (
          arith,
          at_word,
          all_from_elim (bit_at words) (hi - lo) (64 * w + lo) h (64 * w + k) (omega arith)
              (omega arith),
        )),
  )

  -- One word against a mask is a test of each of its packets.
  pub check_word_lem :
      (w lo hi : ℕ)
      → w < length words
      → lo ≤ hi
      → hi ≤ 64
      → check_word words w lo hi ≡ some (all_from (bit_at words) (hi - lo) (64 * w + lo))
  unfolding check_word
  check_word_lem w lo hi inside le small =
      rw (get_elem?-eq-get_or words w 0 inside, mask_test w lo hi le small)

  ones_test :
      (w : ℕ)
      → AreWords words
      → (get_or words w 0 == uint64_max) ≡ all_from (bit_at words) 64 (64 * w)
  ones_test w fits = Bool-ext _ _ (
    λ h. all_from_intro (bit_at words) 64 (64 * w) (λ i above below.
        let at_word : bit_at words (64 * w + (i - 64 * w))
            ≡ test_bit (get_or words w 0) (i - 64 * w) =
          bit_of_word words w (i - 64 * w) (omega arith) in
        let same : 64 * w + (i - 64 * w) ≡ i = omega arith in
        let full : test_bit (get_or words w 0) (i - 64 * w) ≡ true =
          ap (λ v. test_bit v (i - 64 * w)) ((==_iff (get_or words w 0) uint64_max).0 h)
          ∙ test_bit-ones 64 (i - 64 * w)
          ∙ lt→ltb (i - 64 * w) 64 (omega arith) in
        rw (same) at (at_word ∙ full)),
    λ h. (==_iff (get_or words w 0) uint64_max).1 (
        test_bit_ext 64 (get_or words w 0) uint64_max (fits w) (omega arith) (λ k small.
          let at_word : bit_at words (64 * w + k) ≡ test_bit (get_or words w 0) k =
            bit_of_word words w k small in
          let full : bit_at words (64 * w + k) ≡ true =
            all_from_elim (bit_at words) 64 (64 * w) h (64 * w + k) (omega arith) (omega arith) in
          let ones : test_bit uint64_max k ≡ true = test_bit-ones 64 k ∙ lt→ltb k 64 small in
          ground (arith, at_word, full, ones))),
  )

  pub check_middle_lem :
      (n w : ℕ)
      → AreWords words
      → w + n ≤ length words
      → check_middle words n w ≡ some (all_from (bit_at words) (64 * n) (64 * w))
  unfolding check_middle
  check_middle_lem zero w fits inside = refl
  check_middle_lem (suc n) w fits inside =
      let split : all_from (bit_at words) (64 * suc n) (64 * w) ≡ (
          all_from (bit_at words) 64 (64 * w) && all_from (bit_at words) (64 * n) (64 * (w + 1))) =
        ap (λ k. all_from (bit_at words) k (64 * w)) (omega arith)
        ∙ all_from-append (bit_at words) 64 (64 * n) (64 * w)
        ∙ ap (λ k. all_from (bit_at words) 64 (64 * w) && all_from (bit_at words) (64 * n) k)
            (omega arith) in
      rw
        (
          split,
          get_elem?-eq-get_or words w 0 (omega arith),
          ones_test w fits,
          check_middle_lem n (w + 1) fits (omega arith),
        )
        (branch (all_from (bit_at words) 64 (64 * w)) _)
    where
      branch : (b c : Bool) → (if b then some c else some false) ≡ some (b && c)
      branch true c = refl
      branch false c = refl
