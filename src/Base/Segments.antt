-- ===== src/Base/Segments.antt =====
-- The elements of an array from an index on, as a list.
use Prim.Native.Nat.{ℕ, zero, suc, ◌+◌, ◌≤◌, ◌<◌}
use mathlib.Core.List.{List, [], ◌∷◌, ◌++◌}
use mathlib.Core.Path.{◌≡◌, refl, ap, ◌∙◌}
use native.Mathlib.Omega.{arith}
use java_profiler.Base.Lists.{length}

module _ {ℓ} {A : Type ℓ} where
  abbrev pub segment : (ℕ → A) → (i n : ℕ) → List A
  segment f i zero = []
  segment f i (suc n) = f i ∷ segment f (i + 1) n

  pub segment_ext :
      (f g : ℕ → A) (i n : ℕ)
      → ((j : ℕ) → i ≤ j → j < i + n → f j ≡ g j)
      → segment f i n ≡ segment g i n
  segment_ext f g i zero h = refl
  segment_ext f g i (suc n) h =
      let rest = segment_ext f g (i + 1) n (λ j a b. h j (omega arith) (omega arith)) in
      let here = h i (omega arith) (omega arith) in rw (here, rest)

  pub segment_last : (f : ℕ → A) (i n : ℕ) → segment f i (suc n) ≡ segment f i n ++ (f (i + n) ∷ [])
  segment_last f i zero = ap (λ (t : ℕ). f t ∷ []) (omega arith)
  segment_last f i (suc n) =
      ap (λ t. f i ∷ t) (segment_last f (i + 1) n)
      ∙ ap (λ (t : ℕ). f i ∷ (segment f (i + 1) n ++ (f t ∷ []))) (omega arith)

  pub length-segment : (f : ℕ → A) (i n : ℕ) → length (segment f i n) ≡ n
  length-segment f i zero = refl
  length-segment f i (suc n) = ap suc (length-segment f (i + 1) n)
