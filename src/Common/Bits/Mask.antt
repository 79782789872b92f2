-- ===== src/Common/Bits/Mask.antt =====
-- Tests of a word against a mask, `(value & mask) != 0` and `(value & mask) == mask`, and the loop
-- that builds the mask of a run of bits.
use Prim.Native.Nat.{ℕ, zero, suc, ◌+◌, ◌/◌, ◌^◌, ◌≤◌, bit_and, bit_or}
use mathlib.Core.Path.{◌≡◌, ap}
use mathlib.Core.Logic.{◌↔◌, inl, inr}
use mathlib.Core.Bool.{true, false, not, ◌&&◌, ◌||◌}
use native.Mathlib.Omega.{arith}
use sdr_rdma_udp.Common.Tests.{ltb, leb, ◌==◌, Bool-cases, ==_iff}
use sdr_rdma_udp.Common.Bits.{
  test_bit, test_bit-zero, test_bit-bit_or, test_bit-bit_and, test_bit-pow,
}

test_bit_eq_fuel : (f a b : ℕ) → a ≤ f → b ≤ f → ((i : ℕ) → test_bit a i ≡ test_bit b i) → a ≡ b
test_bit_eq_fuel zero a b ha hb h = omega arith
test_bit_eq_fuel (suc f) a b ha hb h =
    ground
      (arith, h 0, test_bit_eq_fuel f (a / 2) (b / 2) (omega arith) (omega arith) (λ i. h (suc i)))

-- The digits determine the number.
pub test_bit_eq : (a b : ℕ) → ((i : ℕ) → test_bit a i ≡ test_bit b i) → a ≡ b
test_bit_eq a b = test_bit_eq_fuel (a + b) a b (omega arith) (omega arith)

single_digit : (v k i : ℕ) → test_bit v k ≡ false → (test_bit v i && (k == i)) ≡ false
single_digit v k i h = elim (Bool-cases (k == i)) [
  | inl e ↦ rw e (rw (← (==_iff k i).0 e) (rw h))
  | inr ne ↦ rw ne (elim (Bool-cases (test_bit v i)) [ inl t ↦ rw t | inr f ↦ rw f ])
]

-- `(value & (1 << k)) == 0` reads digit `k`.
pub bit_and-pow_eq_zero : (v k : ℕ) → (bit_and v (2 ^ k) == 0) ≡ not (test_bit v k)
bit_and-pow_eq_zero v k = elim (Bool-cases (test_bit v k)) [
  | inl t ↦ elim (Bool-cases (bit_and v (2 ^ k) == 0)) [
    | inl z ↦
        let e : bit_and v (2 ^ k) ≡ 0 = (==_iff (bit_and v (2 ^ k)) 0).0 z in
        let at_k : test_bit (bit_and v (2 ^ k)) k ≡ test_bit 0 k = ap (λ d. test_bit d k) e in
        ground (arith, digit, at_k, test_bit-zero k)
    | inr nz ↦ rw (nz, t)
  ]
  | inr f ↦ rw (clear f, f)
]
  where
    digit : test_bit (bit_and v (2 ^ k)) k ≡ (test_bit v k && (k == k))
    digit = rw (test_bit-bit_and v (2 ^ k) k, test_bit-pow k k)

    clear : test_bit v k ≡ false → bit_and v (2 ^ k) ≡ 0
    clear f = test_bit_eq (bit_and v (2 ^ k)) 0 (λ i.
        rw (test_bit-bit_and v (2 ^ k) i, test_bit-pow k i, test_bit-zero i) (single_digit v k i f))

-- `(value & mask) == mask` says that every digit of the mask is a digit of the value.
pub bit_and-eq_mask :
    (v m : ℕ) → ((bit_and v m == m) ≡ true) ↔ ((i : ℕ) → test_bit m i ≡ true → test_bit v i ≡ true)
bit_and-eq_mask v m = (
  λ h i mi. digit_of i mi (ap (λ d. test_bit d i) ((==_iff _ m).0 h)),
  λ h. (==_iff _ m).1 (test_bit_eq (bit_and v m) m (λ i. both i (h i))),
)
  where
    digit_of :
        (i : ℕ)
        → test_bit m i ≡ true
        → test_bit (bit_and v m) i ≡ test_bit m i
        → test_bit v i ≡ true
    digit_of i mi e = ground (arith, test_bit-bit_and v m i)

    both :
        (i : ℕ)
        → (test_bit m i ≡ true → test_bit v i ≡ true)
        → test_bit (bit_and v m) i ≡ test_bit m i
    both i h = rw (test_bit-bit_and v m i) (elim (Bool-cases (test_bit m i)) [
      | inl t ↦ rw (t, h t)
      | inr f ↦ rw f (elim (Bool-cases (test_bit v i)) [ inl t ↦ rw t | inr g ↦ rw g ])
    ])

-- `for (bit = s; bit < s + n; ++bit) mask |= 1 << bit;`
unfoldable pub or_bits : ℕ → ℕ → ℕ → ℕ
or_bits zero s mask = mask
or_bits (suc n) s mask = or_bits n (s + 1) (bit_or mask (2 ^ s))

pub test_bit-or_bits :
    (n s m i : ℕ) → test_bit (or_bits n s m) i ≡ (test_bit m i || (leb s i && ltb i (s + n)))
unfolding or_bits
test_bit-or_bits zero s m i = ground arith
test_bit-or_bits (suc n) s m i =
    rw
      (
        test_bit-or_bits n (s + 1) (bit_or m (2 ^ s)) i,
        test_bit-bit_or m (2 ^ s) i,
        test_bit-pow s i,
      )
      (ground arith)
