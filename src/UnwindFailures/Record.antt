-- ===== src/UnwindFailures/Record.antt =====
-- Recording a failure, while the arrays have room.
use java_profiler.Base.{
  ℕ, ◌+◌, ◌%◌, ◌^◌, ◌≤◌, ◌<◌, ◌≡◌, ◌≢◌, refl, ◌∙◌, false, leb, update, length, List, none, some,
  arith, Bool-cases, inl, inr, ◌⊎◌, sym, ◌==◌, ==_refl, lt→ltb,
}
use java_profiler.UnwindFailures.Find.{find_loop-cases, IsFirst}
use java_profiler.UnwindFailures.{
  max_unwind_failure_names, max_name_length, UnwindFailureKind, column, UnwindFailures, new,
  find_name, create_name, create_unless, find_or_create, add_counter, count_at, record_found,
  record_failure,
}
use native.Mathlib.Decide.{dec_lt}

-- No more names than rows, each one cut to fit, and no name twice.
pub record IsValid (u : UnwindFailures) : Type 0 where
  pub room : u.name_count ≤ max_unwind_failure_names
  pub short : (i : ℕ) → i < u.name_count → length (u.names i) < max_name_length
  pub apart : (i j : ℕ) → i < j → j < u.name_count → u.names i ≢ u.names j

pub new-IsValid : IsValid new
unfolding new
new-IsValid = record {
  room = omega arith;
  short = λ i h. absurd (omega arith);
  apart = λ i j h k. absurd (omega arith);
}

pub find_name-cases :
    (u : UnwindFailures) (name : List ℕ)
    → u.name_count ≤ max_unwind_failure_names
    → ((k : ℕ) × (find_name name u ≡ some (some k)) × IsFirst u.names name 0 (0 + u.name_count) k)
      ⊎ ((find_name name u ≡ some none)
          × ((j : ℕ) → 0 ≤ j → j < 0 + u.name_count → u.names j ≢ name))
unfolding find_name
find_name-cases u name room = find_loop-cases u.names name u.name_count 0 (omega arith)

-- A row that holds the name is the one that the search gives.
pub find_name_at :
    (u : UnwindFailures) (name : List ℕ) (i : ℕ)
    → IsValid u
    → i < u.name_count
    → u.names i ≡ name
    → find_name name u ≡ some (some i)
find_name_at u name i v lt holds = elim (find_name-cases u name v.room) [
  | inr (run, nowhere) ↦ absurd (nowhere i (omega arith) (omega arith) holds)
  | inl (k, run, first) ↦ elim (dec_lt i k) [
    | yes p ↦ absurd (first.before i (omega arith) p holds)
    | no p ↦ elim (dec_lt k i) [
      | yes q ↦ absurd (v.apart k i q lt (first.holds ∙ sym holds))
      | no q ↦ let same : k ≡ i = omega arith in rw (← same) run
    ]
  ]
]

-- A table in which a failure of `kind` under `name` was counted in row `i`.
pub record Counted (kind : UnwindFailureKind) (name : List ℕ) (i : ℕ) (u u' : UnwindFailures)
    : Type 0 where
  pub valid : IsValid u'
  pub found : find_name name u' ≡ some (some i)
  pub more : u'.counters i (column kind) ≡ (u.counters i (column kind) + 1) % 2 ^ 64
  pub others :
      (k j : ℕ)
      → ((k == i) ≡ false) ⊎ ((j == column kind) ≡ false)
      → u'.counters k j ≡ u.counters k j
  pub kept : (k : ℕ) → k < u.name_count → u'.names k ≡ u.names k

pub same_search :
    (name : List ℕ) (i c n : ℕ) (u : UnwindFailures)
    → find_name name (add_counter i c n u) ≡ find_name name u
unfolding find_name add_counter
same_search name i c n u = refl

pub add_counter-IsValid :
    (i c n : ℕ) (u : UnwindFailures) → IsValid u → IsValid (add_counter i c n u)
unfolding add_counter
add_counter-IsValid i c n u v = record { room = v.room; short = v.short; apart = v.apart }

add_counter-here :
    (i c : ℕ) (u : UnwindFailures)
    → (add_counter i c 1 u).counters i c ≡ (u.counters i c + 1) % 2 ^ 64
unfolding add_counter
add_counter-here i c u = rw (==_refl i, ==_refl c)

add_counter-elsewhere :
    (i c n k j : ℕ) (u : UnwindFailures)
    → ((k == i) ≡ false) ⊎ ((j == c) ≡ false)
    → (add_counter i c n u).counters k j ≡ u.counters k j
unfolding add_counter
add_counter-elsewhere i c n k j u far = ground arith

add_counter-Counted :
    (kind : UnwindFailureKind) (name : List ℕ) (i : ℕ) (u : UnwindFailures)
    → IsValid u
    → i < u.name_count
    → u.names i ≡ name
    → Counted kind name i u (add_counter i (column kind) 1 u)
add_counter-Counted kind name i u v lt holds = record {
  valid = add_counter-IsValid i (column kind) 1 u v;
  found = same_search name i (column kind) 1 u ∙ find_name_at u name i v lt holds;
  more = add_counter-here i (column kind) u;
  others = λ k j far. add_counter-elsewhere i (column kind) 1 k j u far;
  kept = λ k h. unfold add_counter in refl;
}

-- What `create_name` does for a short name while a row is left.
abbrev pub created : List ℕ → UnwindFailures → UnwindFailures
created name u = record u {
  names = update u.names u.name_count name;
  name_count = u.name_count + 1;
}

module _ (name : List ℕ) (u : UnwindFailures) (v : IsValid u)
    (lt : u.name_count < max_unwind_failure_names) (fits : length name < max_name_length)
    (fresh : (j : ℕ) → j < u.name_count → u.names j ≢ name) where
  pub create_name-created : create_name name u ≡ (some u.name_count, created name u)
  unfolding create_name
  create_name-created =
      let cut : leb max_name_length (length name) ≡ false = ground arith in rw (lt→ltb _ _ lt, cut)

  pub created-IsValid : IsValid (created name u)
  created-IsValid = record {
    room = omega arith;
    short = λ i h. elim (Bool-cases (u.name_count == i)) [
      | inl e ↦ rw e fits
      | inr e ↦ rw e (v.short i (ground arith))
    ];
    apart = λ i j h k. elim (Bool-cases (u.name_count == j)) [
      | inl e ↦
          let old : (u.name_count == i) ≡ false = ground arith in
          rw (e, old) (fresh i (ground arith))
      | inr e ↦
          let old : (u.name_count == i) ≡ false = ground arith in
          rw (e, old) (v.apart i j h (ground arith))
    ];
  }

  pub created-name : (created name u).names u.name_count ≡ name
  created-name = rw (==_refl u.name_count)

  created-Counted :
      (kind : UnwindFailureKind)
      → Counted kind name u.name_count u (add_counter u.name_count (column kind) 1 (created name u))
  created-Counted kind =
      let c =
        add_counter-Counted kind name u.name_count (created name u) created-IsValid (omega arith)
          created-name in
      record {
        valid = c.valid;
        found = c.found;
        more = c.more;
        others = c.others;
        kept = λ k h.
            c.kept k (omega arith)
            ∙ (let old : (u.name_count == k) ≡ false = ground arith in rw old);
      }

-- While a row is left, recording a failure under a name that fits its row returns: the row of the name,
-- which is found afterwards, counts one more failure of the kind, every other counter stays as it was,
-- every stored name stays in its row, and the table is valid again.
pub record_failure-Counted :
    (kind : UnwindFailureKind) (name : List ℕ) (u : UnwindFailures)
    → IsValid u
    → u.name_count < max_unwind_failure_names
    → length name < max_name_length
    → (i : ℕ) × (u' : UnwindFailures) × (record_failure kind name u ≡ some u')
      × Counted kind name i u u'
record_failure-Counted kind name u v lt fits = elim (find_name-cases u name v.room) [
  | inl (k, run, first) ↦ (
    k,
    add_counter k (column kind) 1 u,
    unfold record_failure record_found in rw run,
    add_counter-Counted kind name k u v (omega (arith, first.upper)) first.holds,
  )
  | inr (run, nowhere) ↦
      let fresh : (j : ℕ) → j < u.name_count → u.names j ≢ name =
        λ j h. nowhere j (omega arith) (omega arith) in
      (
        u.name_count,
        add_counter u.name_count (column kind) 1 (created name u),
        unfold record_failure record_found find_or_create create_unless count_at in
            rw (run, run, create_name-created name u v lt fits fresh),
        created-Counted name u v lt fits fresh kind,
      )
]
