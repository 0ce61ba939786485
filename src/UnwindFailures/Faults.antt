-- ===== src/UnwindFailures/Faults.antt =====
-- A full table and a name that does not fit its row.
use java_profiler.Base.{
  ℕ, str_equal, str_equal_iff, zero, suc, ◌+◌, ◌-◌, ◌≤◌, ◌<◌, ◌≡◌, ◌≢◌, refl, true, false, ltb, leb,
  update, take, length, List, none, some, arith, Bool-cases, inl, inr, ap, ◌==◌, lt→ltb,
  length-take-le,
}
use java_profiler.UnwindFailures.Record.{find_name-cases}
use java_profiler.UnwindFailures.{
  max_unwind_failure_names, max_name_length, UnwindFailureKind, UnwindFailures, find_loop,
  find_name, create_name, create_unless, find_or_create, count_at, add_counter, column,
  record_found, record_failure, count_of, count,
}

-- A search that no row answers and that goes on behind the last row leaves the array.
find_loop_outside :
    (names : ℕ → List ℕ) (name : List ℕ) (left i : ℕ)
    → i ≤ max_unwind_failure_names
    → max_unwind_failure_names < i + left
    → ((j : ℕ) → i ≤ j → j < max_unwind_failure_names → names j ≢ name)
    → find_loop names name left i ≡ none
unfolding find_loop
find_loop_outside names name zero i lo hi nowhere = absurd (omega arith)
find_loop_outside names name (suc left) i lo hi nowhere =
    elim (Bool-cases (ltb i max_unwind_failure_names)) [
      | inl e ↦
          let other : str_equal (names i) name ≡ false =
            elim (Bool-cases (str_equal (names i) name)) [
              | inl q ↦
                  absurd
                    (nowhere i (omega arith) (ground arith) ((str_equal_iff (names i) name).0 q))
              | inr q ↦ q
            ] in
          rw (e, other)
            (find_loop_outside names name left (i + 1) (ground arith) (omega arith)
              (λ j up hi. nowhere j (omega arith) hi))
      | inr e ↦ rw e
    ]

abbrev counted_over : UnwindFailures → UnwindFailures
counted_over u = record u { name_count = u.name_count + 1 }

-- When every row is taken, recording a failure under a name that is not there counts a row more than
-- the arrays have, and from then on the search for any name that is not there reads outside of them.
pub record_failure_full :
    (kind : UnwindFailureKind) (name other : List ℕ) (u : UnwindFailures)
    → u.name_count ≡ max_unwind_failure_names
    → ((j : ℕ) → j < max_unwind_failure_names → u.names j ≢ name)
    → ((j : ℕ) → j < max_unwind_failure_names → u.names j ≢ other)
    → (u' : UnwindFailures) × (record_failure kind name u ≡ some u')
      × (u'.name_count ≡ max_unwind_failure_names + 1)
      × (find_name other u' ≡ none)
record_failure_full kind name other u full absent gone =
    elim (find_name-cases u name (omega arith)) [
      | inl (k, run, first) ↦ absurd (absent k (omega (arith, first.upper)) first.holds)
      | inr (run, nowhere) ↦
          let crowded : ltb u.name_count max_unwind_failure_names ≡ false = ground arith in
          (
            counted_over u,
            unfold record_failure record_found find_or_create create_unless create_name count_at in
                rw (run, run, crowded),
            omega arith,
            unfold find_name in
                find_loop_outside u.names other (u.name_count + 1) 0 (omega arith) (omega arith)
                  (λ j lo hi. gone j hi),
          )
    ]

-- The part of the invariant that also long names keep.
pub record HasShortNames (u : UnwindFailures) : Type 0 where
  pub room : u.name_count ≤ max_unwind_failure_names
  pub short : (i : ℕ) → i < u.name_count → length (u.names i) < max_name_length

long-absent :
    (name : List ℕ) (u : UnwindFailures)
    → HasShortNames u
    → max_name_length ≤ length name
    → find_name name u ≡ some none
long-absent name u s long = elim (find_name-cases u name s.room) [
  | inl (k, run, first) ↦
      let same : length (u.names k) ≡ length name = ap length first.holds in
      let brief : length (u.names k) < max_name_length = s.short k (omega (arith, first.upper)) in
      absurd (omega arith)
  | inr (run, nowhere) ↦ run
]

abbrev cut_in : List ℕ → UnwindFailures → UnwindFailures
cut_in name u = record u {
  names = update u.names u.name_count (take (max_name_length - 1) name);
  name_count = u.name_count + 1;
}

cut_in-HasShortNames :
    (name : List ℕ) (u : UnwindFailures)
    → HasShortNames u
    → u.name_count < max_unwind_failure_names
    → HasShortNames (cut_in name u)
cut_in-HasShortNames name u s lt = record {
  room = omega arith;
  short = λ i h. elim (Bool-cases (u.name_count == i)) [
    | inl e ↦ rw e (omega (arith, length-take-le (max_name_length - 1) name))
    | inr e ↦ rw e (s.short i (ground arith))
  ];
}

counted_cut : UnwindFailureKind → List ℕ → UnwindFailures → UnwindFailures
counted_cut kind name u = add_counter u.name_count (column kind) 1 (cut_in name u)

long-run :
    (kind : UnwindFailureKind) (name : List ℕ) (u : UnwindFailures)
    → HasShortNames u
    → u.name_count < max_unwind_failure_names
    → max_name_length ≤ length name
    → record_failure kind name u ≡ some (counted_cut kind name u)
unfolding record_failure record_found find_or_create create_unless create_name count_at counted_cut
long-run kind name u s lt long =
    let cut : leb max_name_length (length name) ≡ true = ground arith in
    rw (long-absent name u s long, long-absent name u s long, lt→ltb _ _ lt, cut)

counted_cut-HasShortNames :
    (kind : UnwindFailureKind) (name : List ℕ) (u : UnwindFailures)
    → HasShortNames u
    → u.name_count < max_unwind_failure_names
    → HasShortNames (counted_cut kind name u)
unfolding counted_cut add_counter
counted_cut-HasShortNames kind name u s lt =
    let c = cut_in-HasShortNames name u s lt in record { room = c.room; short = c.short }

-- While a row is left, recording a failure under a name of 256 bytes or more takes a new row each time:
-- the name is not found afterwards, so its count is 0 for every kind, and the same holds again in the
-- table that results.
pub record_failure_long :
    (kind : UnwindFailureKind) (name : List ℕ) (u : UnwindFailures)
    → HasShortNames u
    → u.name_count < max_unwind_failure_names
    → max_name_length ≤ length name
    → (u' : UnwindFailures) × (record_failure kind name u ≡ some u')
      × (u'.name_count ≡ u.name_count + 1)
      × ((asked : UnwindFailureKind) → count name asked u' ≡ some 0)
      × HasShortNames u'
record_failure_long kind name u s lt long =
    let s' = counted_cut-HasShortNames kind name u s lt in
    (
      counted_cut kind name u,
      long-run kind name u s lt long,
      unfold counted_cut add_counter in refl,
      λ asked. unfold count count_of in rw (long-absent name (counted_cut kind name u) s' long),
      s',
    )
