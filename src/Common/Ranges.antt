-- ===== src/Common/Ranges.antt =====
-- Tests over ranges of numbers, as the reference for the source's loops.
use Prim.Native.Nat.{ℕ, zero, suc, ◌+◌, ◌≤◌, ◌<◌}
use mathlib.Core.Path.{◌≡◌, refl}
use mathlib.Core.Logic.{◌↔◌}
use mathlib.Core.Bool.{Bool, true, ◌&&◌}
use native.Mathlib.Omega.{arith}
use native.Mathlib.Decide.{ℕ_discrete}
use sdr_rdma_udp.Common.Tests.{if◌then◌else◌}

-- The test holds at each of the `n` numbers from `s` on.
abbrev pub all_from : (ℕ → Bool) → ℕ → ℕ → Bool
all_from p zero s = true
all_from p (suc n) s = p s && all_from p n (s + 1)

-- How many of the `n` numbers from `s` on pass the test.
abbrev pub count_from : (ℕ → Bool) → ℕ → ℕ → ℕ
count_from p zero s = 0
count_from p (suc n) s = (if p s then 1 else 0) + count_from p n (s + 1)

module _ (p : ℕ → Bool) where
  pub all_from_elim : (n s : ℕ) → all_from p n s ≡ true → (i : ℕ) → s ≤ i → i < s + n → p i ≡ true
  all_from_elim zero s h i lo hi = absurd (omega arith)
  all_from_elim (suc n) s h i lo hi = elim (ℕ_discrete s i) [
    | yes e ↦ ground arith
    | no ne ↦ all_from_elim n (s + 1) (ground arith) i (omega arith) (omega arith)
  ]

  pub all_from_intro :
      (n s : ℕ) → ((i : ℕ) → s ≤ i → i < s + n → p i ≡ true) → all_from p n s ≡ true
  all_from_intro zero s h = refl
  all_from_intro (suc n) s h = ground (
    arith,
    h s (omega arith) (omega arith),
    all_from_intro n (s + 1) (λ i lo hi. h i (omega arith) (omega arith)),
  )

  -- The count is full exactly when the test holds throughout.
  pub count_from-le : (n s : ℕ) → count_from p n s ≤ n
  count_from-le zero s = omega arith
  count_from-le (suc n) s = ground (arith, count_from-le n (s + 1))

  pub count_from-eq_all : (n s : ℕ) → (n ≤ count_from p n s) ↔ (all_from p n s ≡ true)
  count_from-eq_all zero s = (λ _. refl, λ _. omega arith)
  count_from-eq_all (suc n) s = (
    λ h. ground (arith, count_from-le n (s + 1), count_from-eq_all n (s + 1)),
    λ h. ground (arith, count_from-eq_all n (s + 1)),
  )

pub count_from_full :
    (p : ℕ → Bool) (n s : ℕ) → ((i : ℕ) → s ≤ i → i < s + n → p i ≡ true) → count_from p n s ≡ n
count_from_full p n s h =
    omega (arith, count_from-le p n s, (count_from-eq_all p n s).1 (all_from_intro p n s h))

pub all_from_ext :
    (p q : ℕ → Bool) (n s : ℕ)
    → ((i : ℕ) → s ≤ i → i < s + n → p i ≡ q i)
    → all_from p n s ≡ all_from q n s
all_from_ext p q zero s h = refl
all_from_ext p q (suc n) s h = ground (
  arith,
  h s (omega arith) (omega arith),
  all_from_ext p q n (s + 1) (λ i lo hi. h i (omega arith) (omega arith)),
)

pub count_from_ext :
    (p q : ℕ → Bool) (n s : ℕ)
    → ((i : ℕ) → s ≤ i → i < s + n → p i ≡ q i)
    → count_from p n s ≡ count_from q n s
count_from_ext p q zero s h = refl
count_from_ext p q (suc n) s h = ground (
  arith,
  h s (omega arith) (omega arith),
  count_from_ext p q n (s + 1) (λ i lo hi. h i (omega arith) (omega arith)),
)
