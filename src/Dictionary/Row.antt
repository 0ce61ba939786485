-- ===== src/Dictionary/Row.antt =====
-- The inner loop over the cells of one row.
use java_profiler.Base.{
  ℕ, zero, suc, ◌+◌, ◌-◌, ◌≤◌, ◌<◌, true, false, ◌≡◌, refl, ◌≢◌, length, List, Option, none, some,
  arith, update, inl, inr, Option-cases, Bool-cases, ◌==◌,
}
use java_profiler.Dictionary.Key.{allocate_key, key_equals}
use java_profiler.Dictionary.{found, free, absent, scan}

-- Cells are filled from the left, so behind a free cell there are only free cells.
abbrev pub IsFilled : (ℕ → Option (List ℕ)) → Type 0
IsFilled keys = (k : ℕ) → keys k ≡ none → keys (k + 1) ≡ none

module _ (key : List ℕ) (keys : ℕ → Option (List ℕ)) where
  -- A writer finds the key where a reader does.
  pub scan-true_found :
      (left c k : ℕ) → scan true key keys left c ≡ found k → scan false key keys left c ≡ found k
  unfolding scan
  scan-true_found zero c k e = cc
  scan-true_found (suc left) c k e = ground (arith, scan-true_found left (c + 1) k)

  absent_first :
      (left c : ℕ)
      → scan true key keys (suc left) c ≡ absent
      → (keys c ≢ none) × (scan true key keys left (c + 1) ≡ absent)
  unfolding scan
  absent_first left c e = (λ n. ground arith, ground arith)

  -- A writer that finds no cell to fill sees a full row without the key.
  pub scan-true_absent :
      (left c : ℕ)
      → scan true key keys left c ≡ absent
      → (scan false key keys left c ≡ absent) × ((k : ℕ) → c ≤ k → k < c + left → keys k ≢ none)
  unfolding scan
  scan-true_absent zero c e = (refl, λ k lo hi. absurd (omega arith))
  scan-true_absent (suc left) c e =
      let (here, rest) = absent_first left c e in
      let (r, full) = scan-true_absent left (c + 1) rest in
      (
        ground arith,
        λ k lo hi. elim (Bool-cases (c == k)) [
          | inl same ↦ let q : c ≡ k = ground arith in rw (← q) here
          | inr other ↦ full k (ground arith) (omega arith)
        ],
      )

  -- The key is found in a cell that holds an equal one.
  pub scan-false_found :
      (left c k : ℕ)
      → scan false key keys left c ≡ found k
      → (candidate : List ℕ) × (keys k ≡ some candidate)
        × (key_equals candidate key (length key) ≡ true)
        × (c ≤ k)
        × (k < c + left)
  unfolding scan
  scan-false_found zero c k e = cc
  scan-false_found (suc left) c k e = elim (Option-cases (keys c)) [
    | inl n ↦
        let (candidate, p, q, lo, hi) = scan-false_found left (c + 1) k (ground arith) in
        (candidate, p, q, omega arith, omega arith)
    | inr (candidate, n) ↦ elim (Bool-cases (key_equals candidate key (length key))) [
      | inl same ↦
          let here : c ≡ k = ground arith in
          (candidate, rw (← here) n, same, omega arith, omega arith)
      | inr other ↦
          let (candidate', p, q, lo, hi) = scan-false_found left (c + 1) k (ground arith) in
          (candidate', p, q, omega arith, omega arith)
    ]
  ]

  pub scan_empty :
      (left c : ℕ) → ((k : ℕ) → c ≤ k → keys k ≡ none) → scan false key keys left c ≡ absent
  unfolding scan
  scan_empty zero c h = refl
  scan_empty (suc left) c h =
      ground (arith, h c, scan_empty left (c + 1) (λ k lo. h k (omega arith)))

  filled_after : IsFilled keys → (n k : ℕ) → keys k ≡ none → keys (k + n) ≡ none
  filled_after filled zero k e = let z : k + 0 ≡ k = omega arith in rw z e
  filled_after filled (suc n) k e =
      let z : k + suc n ≡ (k + n) + 1 = omega arith in
      rw z (filled (k + n) (filled_after filled n k e))

  pub record IsFree (left c k : ℕ) : Type 0 where
    pub lower : c ≤ k
    pub upper : k < c + left
    pub unset : keys k ≡ none
    pub before : (j : ℕ) → c ≤ j → j < k → keys j ≢ none
    pub missing : scan false key keys left c ≡ absent
    pub stored :
        key_equals (allocate_key key) key (length key) ≡ true
        → scan false key (update keys k (some (allocate_key key))) left c ≡ found k

  -- A writer fills the first free cell; a reader would not have found the key, and then does.
  pub scan-true_free :
      (left c k : ℕ) → IsFilled keys → scan true key keys left c ≡ free k → IsFree left c k
  unfolding scan
  scan-true_free zero c k filled e = cc
  scan-true_free (suc left) c k filled e = elim (Option-cases (keys c)) [
    | inl n ↦
        let here : c ≡ k = ground arith in
        let behind : (j : ℕ) → c + 1 ≤ j → keys j ≡ none =
          λ j lo. let z : j ≡ c + (j - c) = omega arith in rw z (filled_after filled (j - c) c n) in
        record {
          lower = omega arith;
          upper = omega arith;
          unset = rw (← here) n;
          before = λ j lo hi. absurd (omega arith);
          missing = ground (arith, scan_empty left (c + 1) behind);
          stored = λ same. ground arith;
        }
    | inr (candidate, n) ↦
        let rest : scan true key keys left (c + 1) ≡ free k = ground arith in
        let other : key_equals candidate key (length key) ≡ false = ground arith in
        let r = scan-true_free left (c + 1) k filled rest in
        record {
          lower = omega (arith, r.lower);
          upper = omega (arith, r.upper);
          unset = r.unset;
          before = λ j lo hi. elim (Bool-cases (c == j)) [
            | inl same ↦ let q : c ≡ j = ground arith in rw (← q) (λ z. cc)
            | inr apart ↦ r.before j (ground arith) hi
          ];
          missing = ground (arith, r.missing);
          stored = λ same. ground (arith, r.stored same, r.lower);
        }
  ]

-- Filling a free cell does not change what a reader of another key sees.
pub scan_other :
    (j key : List ℕ) (keys : ℕ → Option (List ℕ)) (k : ℕ)
    → keys k ≡ none
    → key_equals (allocate_key key) j (length j) ≡ false
    → (left c : ℕ)
    → scan false j (update keys k (some (allocate_key key))) left c ≡ scan false j keys left c
unfolding scan
scan_other j key keys k unset differ zero c = refl
scan_other j key keys k unset differ (suc left) c = elim (Bool-cases (k == c)) [
  | inl same ↦
      let q : k ≡ c = ground arith in
      ground (arith, scan_other j key keys k unset differ left (c + 1))
  | inr apart ↦ ground (arith, scan_other j key keys k unset differ left (c + 1))
]
