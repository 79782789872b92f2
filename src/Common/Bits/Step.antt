-- ===== src/Common/Bits/Step.antt =====
-- `bit_or` and `bit_and` by their lowest digit: the native operations mean a recursion on binary
-- digits with fuel, and here the fuel is dropped.
use Prim.Native.Nat.{
  ℕ, zero, suc, ◌+◌, ◌*◌, ◌/◌, ◌%◌, ◌≤◌, min, max, bit_and, bit_or, digits, bit_and-bitwise,
  bit_or-bitwise,
}
use mathlib.Core.Path.{◌≡◌, refl}
use native.Mathlib.Omega.{arith}

module _ (rest : ℕ → ℕ) (op : ℕ → ℕ → ℕ) where
  -- Any two amounts of fuel that cover the first number give the same digits.
  fuel_irrelevant : (f g x y : ℕ) → x ≤ f → x ≤ g → digits rest op f x y ≡ digits rest op g x y
  fuel_irrelevant zero zero x y hf hg = refl
  fuel_irrelevant zero (suc g) zero y hf hg = refl
  fuel_irrelevant zero (suc g) (suc x) y hf hg = absurd (omega arith)
  fuel_irrelevant (suc f) zero zero y hf hg = refl
  fuel_irrelevant (suc f) zero (suc x) y hf hg = absurd (omega arith)
  fuel_irrelevant (suc f) (suc g) zero y hf hg = refl
  fuel_irrelevant (suc f) (suc g) (suc x) y hf hg =
      let half = fuel_irrelevant f g (suc x / 2) (y / 2) (omega arith) (omega arith) in rw half

zero-bit_or : (y : ℕ) → bit_or 0 y ≡ y
zero-bit_or y = bit_or-bitwise 0 y

zero-bit_and : (y : ℕ) → bit_and 0 y ≡ 0
zero-bit_and y = bit_and-bitwise 0 y

pub bit_or_step : (x y : ℕ) → bit_or x y ≡ 2 * bit_or (x / 2) (y / 2) + max (x % 2) (y % 2)
bit_or_step zero y = omega (arith, zero-bit_or y, zero-bit_or (y / 2))
bit_or_step (suc x) y = omega (
  arith,
  bit_or-bitwise (suc x) y,
  bit_or-bitwise (suc x / 2) (y / 2),
  fuel_irrelevant (λ b. b) max x (suc x / 2) (suc x / 2) (y / 2) (omega arith) (omega arith),
)

pub bit_and_step : (x y : ℕ) → bit_and x y ≡ 2 * bit_and (x / 2) (y / 2) + min (x % 2) (y % 2)
bit_and_step zero y = omega (arith, zero-bit_and y, zero-bit_and (y / 2))
bit_and_step (suc x) y = omega (
  arith,
  bit_and-bitwise (suc x) y,
  bit_and-bitwise (suc x / 2) (y / 2),
  fuel_irrelevant (λ b. 0) min x (suc x / 2) (suc x / 2) (y / 2) (omega arith) (omega arith),
)
