-- ===== src/Base/Sums.antt =====
-- Sums over the first `n` threads of a weight of each thread's state.
use Prim.Native.Nat.{ℕ, zero, suc, ◌+◌, ◌≤◌, ◌<◌}
use mathlib.Core.Path.{◌≡◌, refl}
use native.Mathlib.Decide.{dec_lt}
use native.Mathlib.Omega.{arith}
use java_profiler.Base.Lists.{update}

module _ {ℓ} {A : Type ℓ} (w : A → ℕ) where
  pub sum_below : ℕ → (ℕ → A) → ℕ
  sum_below zero f = 0
  sum_below (suc n) f = w (f n) + sum_below n f

  pub sum_below-update_out :
      (n : ℕ) (f : ℕ → A) (i : ℕ) (a : A) → n ≤ i → sum_below n (update f i a) ≡ sum_below n f
  unfolding sum_below
  sum_below-update_out zero f i a h = refl
  sum_below-update_out (suc n) f i a h = ground (arith, sum_below-update_out n f i a)

  -- One thread changes its state: the sum trades the old weight for the new one.
  pub sum_below-update :
      (n : ℕ) (f : ℕ → A) (i : ℕ) (a : A)
      → i < n
      → sum_below n (update f i a) + w (f i) ≡ sum_below n f + w a
  unfolding sum_below
  sum_below-update zero f i a h = absurd (omega arith)
  sum_below-update (suc n) f i a h = elim (dec_lt i n) [
    | yes p ↦ ground (arith, sum_below-update n f i a)
    | no p ↦ ground (arith, sum_below-update_out n f i a)
  ]

  pub le-sum_below : (n : ℕ) (f : ℕ → A) (i : ℕ) → i < n → w (f i) ≤ sum_below n f
  unfolding sum_below
  le-sum_below zero f i h = absurd (omega arith)
  le-sum_below (suc n) f i h = elim (dec_lt i n) [
    | yes p ↦ omega (arith, le-sum_below n f i p)
    | no p ↦ let e : i ≡ n = omega arith in rw e (omega arith)
  ]

  pub add-le-sum_below :
      (n : ℕ) (f : ℕ → A) (i j : ℕ) → i < j → j < n → w (f i) + w (f j) ≤ sum_below n f
  unfolding sum_below
  add-le-sum_below zero f i j h k = absurd (omega arith)
  add-le-sum_below (suc n) f i j h k = elim (dec_lt j n) [
    | yes p ↦ omega (arith, add-le-sum_below n f i j h p)
    | no p ↦ let e : j ≡ n = omega arith in rw e (omega (arith, le-sum_below n f i (omega arith)))
  ]

  pub sum_below-le : ((a : A) → w a ≤ 1) → (n : ℕ) (f : ℕ → A) → sum_below n f ≤ n
  unfolding sum_below
  sum_below-le small zero f = omega arith
  sum_below-le small (suc n) f = omega (arith, small (f n), sum_below-le small n f)

  pub sum_below_zero : (n : ℕ) (f : ℕ → A) → ((i : ℕ) → w (f i) ≡ 0) → sum_below n f ≡ 0
  unfolding sum_below
  sum_below_zero zero f h = refl
  sum_below_zero (suc n) f h = omega (arith, h n, sum_below_zero n f h)
