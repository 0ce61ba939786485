-- ===== src/Base/Bits.antt =====
-- The native bit operations at variables: one digit at a time, at one power of two, and at the
-- masks that the code uses.
use Prim.Native.Nat.{
  ℕ, zero, suc, ◌+◌, ◌-◌, ◌*◌, ◌/◌, ◌%◌, ◌^◌, ◌≤◌, ◌<◌, min, max, bit_and, bit_or, digits,
}
use Prim.Native.Nat.{bit_and-bitwise, bit_or-bitwise}
use java_profiler.Base.Tests.{◌==◌, if◌then◌else◌}
use mathlib.Core.Path.{◌≡◌, refl, sym, ap, ◌∙◌}
use native.Mathlib.Decide.{dec_lt}
use native.Mathlib.Nat.{pow-suc, mul_comm, mul_assoc}
use native.Mathlib.Omega.{arith}

-- Induction along the halves of a number.
halving_fuel {ℓ} :
    (P : ℕ → Type ℓ) → P 0 → ((a : ℕ) → P (suc a / 2) → P (suc a)) → (limit a : ℕ) → a < limit → P a
halving_fuel P base step zero a below = absurd (omega arith)
halving_fuel P base step (suc limit) zero below = base
halving_fuel P base step (suc limit) (suc a) below =
    step a (halving_fuel P base step limit (suc a / 2) (omega arith))

pub halving {ℓ} : (P : ℕ → Type ℓ) → P 0 → ((a : ℕ) → P (suc a / 2) → P (suc a)) → (a : ℕ) → P a
halving P base step a = halving_fuel P base step (a + 1) a (omega arith)

module _ (z : ℕ → ℕ) (f : ℕ → ℕ → ℕ) where
  -- A count of digits beyond the number's own changes nothing.
  spare_digits :
      (limit count a b : ℕ) → a ≤ count → count ≤ limit → digits z f count a b ≡ digits z f a a b
  spare_digits limit zero zero b room small = refl
  spare_digits limit zero (suc a) b room small = absurd (omega arith)
  spare_digits limit (suc count) zero b room small = refl
  spare_digits zero (suc count) (suc a) b room small = absurd (omega arith)
  spare_digits (suc limit) (suc count) (suc a) b room small =
      let half = suc a / 2 in
      omega (
        arith,
        spare_digits limit count half (b / 2) (omega arith) (omega arith),
        spare_digits limit a half (b / 2) (omega arith) (omega arith),
      )

  -- The lowest digit apart from the others.
  lowest_digit :
      (a b : ℕ)
      → digits z f (suc a) (suc a) b
        ≡ digits z f (suc a / 2) (suc a / 2) (b / 2) * 2 + f (suc a % 2) (b % 2)
  lowest_digit a b = omega (arith, spare_digits a a (suc a / 2) (b / 2) (omega arith) (omega arith))

pub bit_and_step : (x y : ℕ) → bit_and x y ≡ bit_and (x / 2) (y / 2) * 2 + min (x % 2) (y % 2)
bit_and_step zero y = omega (arith, bit_and-bitwise 0 y, bit_and-bitwise 0 (y / 2))
bit_and_step (suc x) y = omega (
  arith,
  lowest_digit (λ _. 0) min x y,
  bit_and-bitwise (suc x) y,
  bit_and-bitwise (suc x / 2) (y / 2),
)

pub bit_or_step : (x y : ℕ) → bit_or x y ≡ bit_or (x / 2) (y / 2) * 2 + max (x % 2) (y % 2)
bit_or_step zero y = omega (arith, bit_or-bitwise 0 y, bit_or-bitwise 0 (y / 2))
bit_or_step (suc x) y = omega (
  arith,
  lowest_digit (λ y. y) max x y,
  bit_or-bitwise (suc x) y,
  bit_or-bitwise (suc x / 2) (y / 2),
)

pub bit_and-le : (x y : ℕ) → bit_and x y ≤ y
bit_and-le =
    halving _ (λ y. omega (arith, bit_and-bitwise 0 y))
      (λ x ih y. omega (arith, bit_and_step (suc x) y, ih (y / 2)))

pub bit_and-zero : (x : ℕ) → bit_and x 0 ≡ 0
bit_and-zero = halving _ refl (λ x ih. omega (arith, bit_and_step (suc x) 0, ih))

pub bit_or-zero : (x : ℕ) → bit_or x 0 ≡ x
bit_or-zero = halving _ refl (λ x ih. omega (arith, bit_or_step (suc x) 0, ih))

-- Digit `k` of `w`.
unfoldable pub digit : ℕ → ℕ → ℕ
digit w zero = w % 2
digit w (suc k) = digit (w / 2) k

pub digit-le : (w k : ℕ) → digit w k ≤ 1
unfolding digit
digit-le w zero = omega arith
digit-le w (suc k) = digit-le (w / 2) k

pub double : (k : ℕ) → 2 ^ suc k ≡ 2 * 2 ^ k
double k = omega (arith, pow-suc 2 k)

half_double : (k : ℕ) → 2 ^ suc k / 2 ≡ 2 ^ k
half_double k = omega (arith, double k)

pub two_pow_pos : (k : ℕ) → 0 < 2 ^ k
two_pow_pos zero = omega arith
two_pow_pos (suc k) = omega (arith, double k, two_pow_pos k)

pub pow_mono : (n k : ℕ) → k < n → 2 * 2 ^ k ≤ 2 ^ n
pow_mono zero k h = absurd (omega arith)
pow_mono (suc n) zero h = omega (arith, double n, two_pow_pos n)
pow_mono (suc n) (suc k) h = omega (arith, double n, double k, pow_mono n k (omega arith))

-- `w & (1 << k)` is digit `k` of `w`, at its place.
pub bit_and-pow : (w k : ℕ) → bit_and w (2 ^ k) ≡ digit w k * 2 ^ k
unfolding digit
bit_and-pow w zero = omega (arith, bit_and_step w 1, bit_and-zero (w / 2))
bit_and-pow w (suc k) =
    bit_and_step w (2 ^ suc k)
    ∙ rw (half_double k) (
        omega
          (arith, double k, bit_and-pow (w / 2) k, ap (λ (t : ℕ). digit (w / 2) k * t) (double k)))

bit_or_double : (w k : ℕ) → bit_or w (2 ^ suc k) ≡ bit_or (w / 2) (2 ^ k) * 2 + w % 2
bit_or_double w k = bit_or_step w (2 ^ suc k) ∙ rw (half_double k) (omega (arith, double k))

-- `w | (1 << k)` sets digit `k` and keeps the others.
pub digit-bit_or : (w k j : ℕ) → digit (bit_or w (2 ^ k)) j ≡ (if k == j then 1 else digit w j)
unfolding digit
digit-bit_or w zero zero = omega (arith, bit_or_step w 1)
digit-bit_or w zero (suc j) =
    let e : bit_or w 1 / 2 ≡ w / 2 = omega (arith, bit_or_step w 1, bit_or-zero (w / 2)) in
    rw e (ground arith)
digit-bit_or w (suc k) zero =
    let e : bit_or w (2 ^ suc k) % 2 ≡ w % 2 = omega (arith, bit_or_double w k) in
    rw e (ground arith)
digit-bit_or w (suc k) (suc j) =
    let e : bit_or w (2 ^ suc k) / 2 ≡ bit_or (w / 2) (2 ^ k) = omega (arith, bit_or_double w k) in
    rw (e, digit-bit_or (w / 2) k j) (ground arith)

pub bit_and_ones : (n w : ℕ) → w < 2 ^ n → bit_and w (2 ^ n - 1) ≡ w
bit_and_ones zero w h = omega (arith, bit_and-zero w)
bit_and_ones (suc n) w h =
    let e : (2 ^ suc n - 1) / 2 ≡ 2 ^ n - 1 = omega (arith, double n) in
    bit_and_step w (2 ^ suc n - 1)
    ∙ rw e
        (omega (arith, double n, two_pow_pos n, bit_and_ones n (w / 2) (omega (arith, double n))))

clear_low : (n w : ℕ) → w < 2 ^ suc n → bit_and w (2 ^ suc n - 1 - 1) ≡ w / 2 * 2
clear_low n w h =
    let e : (2 ^ suc n - 1 - 1) / 2 ≡ 2 ^ n - 1 = omega (arith, double n) in
    bit_and_step w (2 ^ suc n - 1 - 1)
    ∙ rw e
        (omega (arith, double n, two_pow_pos n, bit_and_ones n (w / 2) (omega (arith, double n))))

clear_high :
    (n w k : ℕ)
    → k < n
    → bit_and w (2 ^ suc n - 1 - 2 ^ suc k) ≡ bit_and (w / 2) (2 ^ n - 1 - 2 ^ k) * 2 + w % 2
clear_high n w k h =
    let e : (2 ^ suc n - 1 - 2 ^ suc k) / 2 ≡ 2 ^ n - 1 - 2 ^ k =
      omega (arith, double n, double k, pow_mono n k h) in
    bit_and_step w (2 ^ suc n - 1 - 2 ^ suc k)
    ∙ rw e (omega (arith, double n, double k, two_pow_pos k, pow_mono n k h))

-- `w & ~(1 << k)` in `n` bits clears digit `k` and keeps the others.
pub digit-clear :
    (n w k j : ℕ)
    → k < n
    → w < 2 ^ n
    → digit (bit_and w (2 ^ n - 1 - 2 ^ k)) j ≡ (if k == j then 0 else digit w j)
unfolding digit
digit-clear zero w k j kn wn = absurd (omega arith)
digit-clear (suc n) w zero zero kn wn = omega (arith, clear_low n w wn)
digit-clear (suc n) w zero (suc j) kn wn =
    let e : bit_and w (2 ^ suc n - 1 - 1) / 2 ≡ w / 2 = omega (arith, clear_low n w wn) in
    rw e (ground arith)
digit-clear (suc n) w (suc k) zero kn wn =
    let e : bit_and w (2 ^ suc n - 1 - 2 ^ suc k) % 2 ≡ w % 2 =
      omega (arith, clear_high n w k (omega arith)) in
    rw e (ground arith)
digit-clear (suc n) w (suc k) (suc j) kn wn =
    let e : bit_and w (2 ^ suc n - 1 - 2 ^ suc k) / 2 ≡ bit_and (w / 2) (2 ^ n - 1 - 2 ^ k) =
      omega (arith, clear_high n w k (omega arith)) in
    rw (e, digit-clear n (w / 2) k j (omega arith) (omega (arith, double n))) (ground arith)

pub bit_or-lt : (n w k : ℕ) → k < n → w < 2 ^ n → bit_or w (2 ^ k) < 2 ^ n
bit_or-lt zero w k kn wn = absurd (omega arith)
bit_or-lt (suc n) w zero kn wn =
    omega (arith, double n, bit_or_step w 1, bit_or-zero (w / 2), pow_mono (suc n) 0 kn)
bit_or-lt (suc n) w (suc k) kn wn = omega (
  arith,
  double n,
  bit_or_double w k,
  bit_or-lt n (w / 2) k (omega arith) (omega (arith, double n)),
)

pub clear-lt : (n w k : ℕ) → k < n → w < 2 ^ n → bit_and w (2 ^ n - 1 - 2 ^ k) < 2 ^ n
clear-lt zero w k kn wn = absurd (omega arith)
clear-lt (suc n) w zero kn wn = omega (arith, clear_low n w wn)
clear-lt (suc n) w (suc k) kn wn = omega (
  arith,
  double n,
  clear_high n w k (omega arith),
  clear-lt n (w / 2) k (omega arith) (omega (arith, double n)),
)

bit_or_below : (k b : ℕ) → b < 2 ^ k → bit_or b (2 ^ k) ≡ b + 2 ^ k
bit_or_below zero zero h = refl
bit_or_below zero (suc b) h = absurd (omega arith)
bit_or_below (suc k) b h =
    omega (arith, bit_or_double b k, double k, bit_or_below k (b / 2) (omega (arith, double k)))

bit_or_twice : (k b : ℕ) → 2 ^ k ≤ b → b < 2 * 2 ^ k → bit_or b (2 ^ k) ≡ b
bit_or_twice zero b h k = let e : b ≡ 1 = omega arith in rw e
bit_or_twice (suc k) b h l = omega (
  arith,
  bit_or_double b k,
  double k,
  bit_or_twice k (b / 2) (omega (arith, double k)) (omega (arith, double k)),
)

-- `(char)v | 0x80` sets the top bit of the low byte.
pub bit_or_top : (v : ℕ) → bit_or (v % 256) 0x80 ≡ v % 128 + 128
bit_or_top v = elim (dec_lt (v % 256) 128) [
  | yes p ↦ omega (arith, bit_or_below 7 (v % 256) p)
  | no p ↦ omega (arith, bit_or_twice 7 (v % 256) (omega arith) (omega arith))
]

-- `r | x << k` where `r` has `k` bits.
pub bit_or_shifted : (k r x : ℕ) → r < 2 ^ k → bit_or r (x * 2 ^ k) ≡ r + x * 2 ^ k
bit_or_shifted zero zero x h = omega (arith, bit_or-bitwise 0 (x * 1))
bit_or_shifted zero (suc r) x h = absurd (omega arith)
bit_or_shifted (suc k) r x h =
    let q = 2 ^ k in
    let twice : x * 2 ^ suc k ≡ x * q * 2 =
      ap (λ (t : ℕ). x * t) (double k ∙ mul_comm 2 q) ∙ sym (mul_assoc x q 2) in
    let half : x * 2 ^ suc k / 2 ≡ x * q = omega (arith, twice) in
    bit_or_step r (x * 2 ^ suc k)
    ∙ rw half (omega (arith, twice, bit_or_shifted k (r / 2) x (omega (arith, double k))))

pub seven_doubles : (k : ℕ) → 2 ^ (k + 7) ≡ 128 * 2 ^ k
seven_doubles k =
    let seven : k + 7 ≡ suc (suc (suc (suc (suc (suc (suc k)))))) = omega arith in
    rw seven (
      omega (
        arith,
        double k,
        double (suc k),
        double (suc (suc k)),
        double (suc (suc (suc k))),
        double (suc (suc (suc (suc k)))),
        double (suc (suc (suc (suc (suc k))))),
        double (suc (suc (suc (suc (suc (suc k)))))),
      ))

pub five_doubles : (k : ℕ) → 2 ^ (k + 5) ≡ 32 * 2 ^ k
five_doubles k =
    let five : k + 5 ≡ suc (suc (suc (suc (suc k)))) = omega arith in
    rw five (
      omega (
        arith,
        double k,
        double (suc k),
        double (suc (suc k)),
        double (suc (suc (suc k))),
        double (suc (suc (suc (suc k)))),
      ))
