-- ===== src/Common/WordArray.antt =====
-- The arrays of `std::atomic<uint64_t>` in which both bitmaps keep one bit for each packet or chunk.
-- A load or an update outside the array is undefined behaviour: `none`.
use Prim.Native.Nat.{ℕ, ◌+◌, ◌*◌, ◌/◌, ◌%◌, ◌^◌, ◌<◌, bit_and, bit_or}
use mathlib.Core.Path.{◌≡◌, refl, ap}
use mathlib.Core.Logic.{◌≢◌, inl, inr}
use mathlib.Core.Bool.{Bool, true, false, not, ◌||◌}
use mathlib.Core.Option.{Option, some}
use mathlib.Core.List.{List}
use native.Mathlib.Omega.{arith}
use native.Mathlib.Decide.{ℕ_discrete}
use sdr_rdma_udp.Common.Tests.{◌==◌, ◌>>=◌, Bool-cases}
use sdr_rdma_udp.Common.Lists.{
  length, get_elem?, get_or, set, replicate, length-set, get_elem?-eq-get_or, get_or-set_self,
  get_or-set_ne, get_or-replicate,
}
use sdr_rdma_udp.Common.Bits.{
  test_bit, test_bit-zero, test_bit-bit_or, test_bit-pow, bit_or-lt, two-pow-lt,
}
use sdr_rdma_udp.Common.Bits.Mask.{bit_and-pow_eq_zero}

abbrev pub load : List ℕ → ℕ → Option ℕ
load = get_elem?

-- `words[i].fetch_or(mask)`: the old word, and the array after it.
abbrev pub fetch_or : List ℕ → ℕ → ℕ → Option (ℕ × List ℕ)
fetch_or words i mask = get_elem? words i >>= λ old. some (old, set words i (bit_or old mask))

-- Bit `i` of the array, 64 to a word.
unfoldable pub bit_at : List ℕ → ℕ → Bool
bit_at words i = test_bit (get_or words (i / 64) 0) (i % 64)

-- The bits of a word, as bits of the array.
pub bit_of_word :
    (words : List ℕ) (w k : ℕ) → k < 64 → bit_at words (64 * w + k) ≡ test_bit (get_or words w 0) k
unfolding bit_at
bit_of_word words w k h =
    let q : (64 * w + k) / 64 ≡ w = omega arith in
    let r : (64 * w + k) % 64 ≡ k = omega arith in rw (q, r)

-- The array with bit `i` set.
unfoldable pub mark : List ℕ → ℕ → List ℕ
mark words i = set words (i / 64) (bit_or (get_or words (i / 64) 0) (2 ^ (i % 64)))

-- Each word fits 64 bits.
abbrev pub AreWords : List ℕ → Type 0
AreWords words = (k : ℕ) → get_or words k 0 < 2 ^ 64

pub length-mark : (words : List ℕ) (i : ℕ) → length (mark words i) ≡ length words
unfolding mark
length-mark words i = length-set words (i / 64) _

pub load-test :
    (words : List ℕ) (i : ℕ)
    → i < 64 * length words
    → (load words (i / 64) >>= λ v. some (not (bit_and v (2 ^ (i % 64)) == 0)))
      ≡ some (bit_at words i)
unfolding bit_at
load-test words i h =
    rw
      (
        get_elem?-eq-get_or words (i / 64) 0 (omega arith),
        bit_and-pow_eq_zero (get_or words (i / 64) 0) (i % 64),
      )
      (ap some (not_not _))
  where
    not_not : (b : Bool) → not (not b) ≡ b
    not_not true = refl
    not_not false = refl

pub fetch_or-mark :
    (words : List ℕ) (i : ℕ)
    → i < 64 * length words
    → fetch_or words (i / 64) (2 ^ (i % 64)) ≡ some (get_or words (i / 64) 0, mark words i)
unfolding mark
fetch_or-mark words i h = rw (get_elem?-eq-get_or words (i / 64) 0 (omega arith))

-- The test that `fetch_or`'s callers make of the old word.
pub old-test :
    (words : List ℕ) (i : ℕ)
    → (bit_and (get_or words (i / 64) 0) (2 ^ (i % 64)) == 0) ≡ not (bit_at words i)
unfolding bit_at
old-test words i = bit_and-pow_eq_zero (get_or words (i / 64) 0) (i % 64)

or_self : (w k : ℕ) (b : Bool) → (test_bit w k || (k == k)) ≡ true
or_self w k b = elim (Bool-cases (test_bit w k)) [ inl t ↦ rw t | inr f ↦ rw f (ground arith) ]

-- Setting bit `i` sets that bit, and no other.
pub bit_at-mark :
    (words : List ℕ) (i j : ℕ)
    → i < 64 * length words
    → bit_at (mark words i) j ≡ ((i == j) || bit_at words j)
unfolding mark bit_at
bit_at-mark words i j h = elim (ℕ_discrete (i / 64) (j / 64)) [
  | no ne ↦
      rw
        (get_or-set_ne words (i / 64) (j / 64) (bit_or (get_or words (i / 64) 0) (2 ^ (i % 64))) 0
          ne)
        (ground (arith, same ne))
  | yes e ↦
      rw
        (
          ← e,
          get_or-set_self words (i / 64) (bit_or (get_or words (i / 64) 0) (2 ^ (i % 64))) 0
              (omega arith),
          test_bit-bit_or (get_or words (i / 64) 0) (2 ^ (i % 64)) (j % 64),
          test_bit-pow (i % 64) (j % 64),
        )
        (ground (arith, digits e))
]
  where
    same : (i / 64) ≢ (j / 64) → (i == j) ≡ false
    same ne = ground arith

    digits : (i / 64) ≡ (j / 64) → ((i % 64) == (j % 64)) ≡ (i == j)
    digits e = ground arith

pub mark-AreWords :
    (words : List ℕ) (i : ℕ) → i < 64 * length words → AreWords words → AreWords (mark words i)
unfolding mark
mark-AreWords words i h w k = elim (ℕ_discrete (i / 64) k) [
  | no ne ↦
      rw (get_or-set_ne words (i / 64) k (bit_or (get_or words (i / 64) 0) (2 ^ (i % 64))) 0 ne)
        (w k)
  | yes e ↦
      rw
        (
          ← e,
          get_or-set_self words (i / 64) (bit_or (get_or words (i / 64) 0) (2 ^ (i % 64))) 0
              (omega arith),
        )
        (bit_or-lt 64 (get_or words (i / 64) 0) (2 ^ (i % 64)) (w (i / 64))
          (two-pow-lt (i % 64) 64 (omega arith)))
]

pub bit_at-replicate : (n i : ℕ) → bit_at (replicate n 0) i ≡ false
unfolding bit_at
bit_at-replicate n i = rw (get_or-replicate {A = ℕ} n (i / 64) 0) (test_bit-zero (i % 64))

pub replicate-AreWords : (n : ℕ) → AreWords (replicate n 0)
replicate-AreWords n k = rw (get_or-replicate {A = ℕ} n k 0) (omega arith)
