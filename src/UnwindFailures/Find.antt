-- ===== src/UnwindFailures/Find.antt =====
-- The search for a name, and what a stored name is found by.
use java_profiler.Base.{
  ℕ, str_equal, str_equal_iff, zero, suc, ◌+◌, ◌≤◌, ◌<◌, ◌≡◌, ◌≢◌, refl, List, none, some, arith,
  Bool-cases, inl, inr, ◌⊎◌, ◌==◌, lt→ltb,
}
use java_profiler.UnwindFailures.{max_unwind_failure_names, find_loop}

-- The first index from `i` on whose name is the one looked for.
pub record IsFirst (names : ℕ → List ℕ) (name : List ℕ) (i end k : ℕ) : Type 0 where
  pub lower : i ≤ k
  pub upper : k < end
  pub holds : names k ≡ name
  pub before : (j : ℕ) → i ≤ j → j < k → names j ≢ name

-- Inside the arrays the search ends at the first index that holds the name, or tells that none does.
pub find_loop-cases :
    (names : ℕ → List ℕ) (name : List ℕ) (left i : ℕ)
    → i + left ≤ max_unwind_failure_names
    → ((k : ℕ) × (find_loop names name left i ≡ some (some k)) × IsFirst names name i (i + left) k)
      ⊎ ((find_loop names name left i ≡ some none)
          × ((j : ℕ) → i ≤ j → j < i + left → names j ≢ name))
unfolding find_loop
find_loop-cases names name zero i fits = inr (refl, λ j lo hi. absurd (omega arith))
find_loop-cases names name (suc left) i fits =
    let inside = lt→ltb i max_unwind_failure_names (omega arith) in
    elim (Bool-cases (str_equal (names i) name)) [
      | inl e ↦
          let here = (str_equal_iff (names i) name).0 e in
          inl (
            i,
            rw (inside, e),
            record {
              lower = omega arith;
              upper = omega arith;
              holds = here;
              before = λ j lo hi. absurd (omega arith);
            },
          )
      | inr e ↦
          let other : names i ≢ name = λ q. cc (e, (str_equal_iff (names i) name).1 q) in
          elim (find_loop-cases names name left (i + 1) (omega arith)) [
            | inl (k, run, first) ↦ inl (
              k,
              rw (inside, e) run,
              record {
                lower = omega (arith, first.lower);
                upper = omega (arith, first.upper);
                holds = first.holds;
                before = λ j lo hi. from i other j lo (λ up. first.before j up hi);
              },
            )
            | inr (run, nowhere) ↦ inr (
              rw (inside, e) run,
              λ j lo hi. from i other j lo (λ up. nowhere j up (omega arith)),
            )
          ]
    ]
  where
    from :
        (i : ℕ) → names i ≢ name → (j : ℕ) → i ≤ j → (i + 1 ≤ j → names j ≢ name) → names j ≢ name
    from i other j lo up = elim (Bool-cases (i == j)) [
      | inl e ↦ let q : i ≡ j = ground arith in rw (← q) other
      | inr e ↦ up (ground arith)
    ]
