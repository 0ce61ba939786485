-- ===== src/Base/Arrays.antt =====
-- Arrays as functions: what a written array holds.
use java_profiler.Base.Lists.{update}
use java_profiler.Base.Tests.{◌==◌, Bool-cases}
use Prim.Native.Nat.{ℕ}
use mathlib.Core.Bool.{true, false}
use mathlib.Core.Logic.{◌≢◌, ◌⊎◌, inl, inr}
use mathlib.Core.Path.{◌≡◌, refl}
use native.Mathlib.Omega.{arith}

module _ {ℓ} {A : Type ℓ} where
  -- Where an updated array has a value.
  pub update-elim :
      (f : ℕ → A) (i : ℕ) (v : A) (j : ℕ) {w : A}
      → update f i v j ≡ w
      → ((i ≡ j) × (v ≡ w)) ⊎ ((i ≢ j) × (f j ≡ w))
  update-elim f i v j e = elim (Bool-cases (i == j)) [
    | inl h ↦ inl (ground (arith, h), rw h at e)
    | inr h ↦ inr ((λ same. ground (arith, h, same)), rw h at e)
  ]

  pub update-here : (f : ℕ → A) (i : ℕ) (v : A) → update f i v i ≡ v
  update-here f i v = let h : (i == i) ≡ true = ground arith in rw h refl

  pub update-there : (f : ℕ → A) (i : ℕ) (v : A) (j : ℕ) → i ≢ j → update f i v j ≡ f j
  update-there f i v j apart = let h : (i == j) ≡ false = ground (arith, apart) in rw h refl
