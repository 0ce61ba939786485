-- ===== src/Base/Assoc.antt =====
-- Maps as lists of keys and values, in which no operation enters a key twice.
use Prim.Native.Nat.{ℕ, ◌+◌}
use java_profiler.Base.Tests.{◌==◌, if◌then◌else◌, ==_refl, Bool-cases}
use java_profiler.Base.Lists.{length}
use mathlib.Core.Bool.{Bool, false}
use mathlib.Core.List.{List, [], ◌∷◌}
use mathlib.Core.Logic.{inl, inr}
use mathlib.Core.Option.{Option, none, some}
use mathlib.Core.Path.{◌≡◌, refl, ◌∙◌}
use native.Mathlib.Omega.{arith}

module _ {ℓ} {A : Type ℓ} where
  unfoldable pub find : List (ℕ × A) → ℕ → Option A
  find [] key = none
  find ((k, x) ∷ m) key = let rest = find m key in if k == key then some x else rest

  -- `m[key] = x`
  unfoldable pub assign : List (ℕ × A) → ℕ → A → List (ℕ × A)
  assign [] key x = (key, x) ∷ []
  assign ((k, y) ∷ m) key x =
      let rest = assign m key x in if k == key then (key, x) ∷ m else (k, y) ∷ rest

  -- The entries whose key passes a test.
  unfoldable pub retain : (ℕ → Bool) → List (ℕ × A) → List (ℕ × A)
  retain test [] = []
  retain test ((k, x) ∷ m) = let rest = retain test m in if test k then (k, x) ∷ rest else rest

  pub find-assign :
      (m : List (ℕ × A)) (key : ℕ) (x : A) (other : ℕ)
      → find (assign m key x) other ≡ (if key == other then some x else find m other)
  unfolding find assign
  find-assign [] key x other = refl
  find-assign ((k, y) ∷ m) key x other = elim (Bool-cases (k == key)) [
    | inl e ↦
        let same : k ≡ key = ground arith in
        rw (e, same) (elim (Bool-cases (key == other)) [ inl q ↦ rw q | inr q ↦ rw q ])
    | inr e ↦ elim (Bool-cases (k == other)) [
      | inl q ↦
          let same : k ≡ other = ground arith in
          let apart : (key == other) ≡ false = ground arith in rw (e, q, apart)
      | inr q ↦ rw (e, q) (find-assign m key x other)
    ]
  ]

  pub find-retain :
      (test : ℕ → Bool) (m : List (ℕ × A)) (key : ℕ)
      → find (retain test m) key ≡ (if test key then find m key else none)
  unfolding find retain
  find-retain test [] key = elim (Bool-cases (test key)) [ inl e ↦ rw e | inr e ↦ rw e ]
  find-retain test ((k, x) ∷ m) key = elim (Bool-cases (k == key)) [
    | inl e ↦
        let same : k ≡ key = ground arith in
        rw (same, ==_refl key)
          (elim (Bool-cases (test key)) [
            | inl q ↦ rw (q, ==_refl key)
            | inr q ↦ rw q (find-retain test m key ∙ rw q)
          ])
    | inr e ↦ elim (Bool-cases (test k)) [
      | inl q ↦ rw (q, e) (find-retain test m key)
      | inr q ↦ rw (q, e) (find-retain test m key)
    ]
  ]

  pub length-assign :
      (m : List (ℕ × A)) (key : ℕ) (x : A)
      → find m key ≡ none
      → length (assign m key x) ≡ length m + 1
  unfolding find assign
  length-assign [] key x e = refl
  length-assign ((k, y) ∷ m) key x e = elim (Bool-cases (k == key)) [
    | inl q ↦ let d : some y ≡ none = rw q at e in absurd (cc)
    | inr q ↦ rw q (omega (arith, length-assign m key x (rw q at e)))
  ]
