-- ===== src/Common/Bits.antt =====
-- The binary digits of a word: what `|`, `&` and `1 << k` do to each of them.
mod Step
pub mod Mask
use native.Mathlib.Nat.{pow-suc}
use mathlib.Core.WellFounded.{Acc, WellFounded}
use Prim.Native.Nat.{
  ℕ, zero, suc, ◌+◌, ◌-◌, ◌*◌, ◌/◌, ◌%◌, ◌^◌, ◌≤◌, ◌<◌, min, max, bit_and, bit_or,
}
use mathlib.Core.Path.{◌≡◌, refl, ◌∙◌, ap, sym}
use mathlib.Core.Logic.{◌↔◌}
use mathlib.Core.Bool.{Bool, true, false, not, ◌&&◌, ◌||◌}
use native.Mathlib.Omega.{arith}
use sdr_rdma_udp.Common.Tests.{ltb, leb, ◌==◌, if◌then◌else◌, Bool-cases, Bool-ext, ==_iff}
use Step.{bit_or_step, bit_and_step}

-- Digit `i` of `a`.
abbrev pub test_bit : ℕ → ℕ → Bool
test_bit a zero = a % 2 == 1
test_bit a (suc i) = test_bit (a / 2) i

pub test_bit-zero : (i : ℕ) → test_bit 0 i ≡ false
test_bit-zero zero = refl
test_bit-zero (suc i) = test_bit-zero i

or_digit : (x y : ℕ) → (max (x % 2) (y % 2) == 1) ≡ ((x % 2 == 1) || (y % 2 == 1))
or_digit x y = ground arith

and_digit : (x y : ℕ) → (min (x % 2) (y % 2) == 1) ≡ ((x % 2 == 1) && (y % 2 == 1))
and_digit x y = ground arith

pub test_bit-bit_or : (a b i : ℕ) → test_bit (bit_or a b) i ≡ (test_bit a i || test_bit b i)
test_bit-bit_or a b zero = ap (λ d. d == 1) (omega (arith, bit_or_step a b)) ∙ or_digit a b
test_bit-bit_or a b (suc i) =
    ap (λ d. test_bit d i) (omega (arith, bit_or_step a b)) ∙ test_bit-bit_or (a / 2) (b / 2) i

pub test_bit-bit_and : (a b i : ℕ) → test_bit (bit_and a b) i ≡ (test_bit a i && test_bit b i)
test_bit-bit_and a b zero = ap (λ d. d == 1) (omega (arith, bit_and_step a b)) ∙ and_digit a b
test_bit-bit_and a b (suc i) =
    ap (λ d. test_bit d i) (omega (arith, bit_and_step a b)) ∙ test_bit-bit_and (a / 2) (b / 2) i

pub test_bit-pow : (k i : ℕ) → test_bit (2 ^ k) i ≡ (k == i)
test_bit-pow zero zero = refl
test_bit-pow zero (suc i) = test_bit-zero i ∙ ground arith
test_bit-pow (suc k) zero = ground (arith, pow-suc 2 k)
test_bit-pow (suc k) (suc i) =
    ap (λ d. test_bit d i) (omega (arith, pow-suc 2 k)) ∙ test_bit-pow k i ∙ ground arith

-- Digits from the width on are zero.
pub test_bit_above : (n a i : ℕ) → a < 2 ^ n → n ≤ i → test_bit a i ≡ false
test_bit_above zero a i h le = ap (λ d. test_bit d i) (omega arith) ∙ test_bit-zero i
test_bit_above (suc n) a zero h le = absurd (omega arith)
test_bit_above (suc n) a (suc i) h le =
    test_bit_above n (a / 2) i (omega (arith, pow-suc 2 n)) (omega arith)

pub bit_or-lt : (n a b : ℕ) → a < 2 ^ n → b < 2 ^ n → bit_or a b < 2 ^ n
bit_or-lt zero a b ha hb =
    let e : a ≡ 0 = omega arith in let f : b ≡ 0 = omega arith in rw (e, f) (omega arith)
bit_or-lt (suc n) a b ha hb = omega (
  arith,
  pow-suc 2 n,
  bit_or_step a b,
  bit_or-lt n (a / 2) (b / 2) (omega (arith, pow-suc 2 n)) (omega (arith, pow-suc 2 n)),
)

-- Below `2 ^ n`, the first `n` digits tell numbers apart.
pub test_bit_ext :
    (n a b : ℕ) → a < 2 ^ n → b < 2 ^ n → ((i : ℕ) → i < n → test_bit a i ≡ test_bit b i) → a ≡ b
test_bit_ext zero a b ha hb h = omega arith
test_bit_ext (suc n) a b ha hb h = ground (
  arith,
  h 0 (omega arith),
  test_bit_ext n (a / 2) (b / 2) (omega (arith, pow-suc 2 n)) (omega (arith, pow-suc 2 n))
      (λ i lt. h (suc i) (omega arith)),
)

two-pow_pos : (k : ℕ) → 0 < 2 ^ k
two-pow_pos zero = omega arith
two-pow_pos (suc k) = omega (arith, pow-suc 2 k, two-pow_pos k)

pub two-pow-lt : (k n : ℕ) → k < n → 2 ^ k < 2 ^ n
two-pow-lt k zero h = absurd (omega arith)
two-pow-lt zero (suc n) h = omega (arith, pow-suc 2 n, two-pow_pos n)
two-pow-lt (suc k) (suc n) h = omega (arith, pow-suc 2 n, pow-suc 2 k, two-pow-lt k n (omega arith))

pub test_bit-ones : (n i : ℕ) → test_bit (2 ^ n - 1) i ≡ ltb i n
test_bit-ones zero i = test_bit-zero i ∙ ground arith
test_bit-ones (suc n) zero = ground (arith, pow-suc 2 n, two-pow_pos n)
test_bit-ones (suc n) (suc i) =
    ap (λ d. test_bit d i) (omega (arith, pow-suc 2 n)) ∙ test_bit-ones n i ∙ ground arith
