-- ===== src/UnwindFailures/Examples.antt =====
-- Two failures under one name, and the theorems at small tables.
use java_profiler.Base.{
  ℕ, ◌%◌, ◌^◌, str_equal, zero, suc, ◌≡◌, refl, List, [], ◌∷◌, Option, some, ◌>>=◌, arith,
}
use java_profiler.UnwindFailures.Stats.{for_each_from, called, for_each, collect_and_reset}
use java_profiler.UnwindFailures.Collecting.{total, record_all, collect-counts}
use java_profiler.UnwindFailures.Record.{IsValid, new-IsValid, Counted, record_failure-Counted}
use java_profiler.UnwindFailures.{
  UnwindFailureKind, stub, compiled, any, UnwindFailures, new, find_name, record_failure, count,
  merge, find_loop, create_name, create_unless, find_or_create, add_counter, count_at, record_found,
  count_of, merge_loop, merge_row, add_row,
}

-- "stub"
abbrev stub_name : List ℕ
stub_name = 115 ∷ 116 ∷ 117 ∷ 98 ∷ []

program : Unit {0}
unfolding new record_failure count merge find_name find_loop str_equal create_name create_unless
    find_or_create add_counter count_at record_found count_of merge_loop merge_row add_row
program = tt

abbrev recorded : Option UnwindFailures
recorded = do
  u ← record_failure stub stub_name new
  v ← record_failure compiled stub_name u
  record_failure stub stub_name v

recorded_twice : (do u ← recorded; count stub_name stub u) ≡ some 2
unfolding program
recorded_twice = refl

recorded_any : (do u ← recorded; count stub_name any u) ≡ some 3
unfolding program
recorded_any = refl

merged_twice : (do u ← recorded; v ← merge u u; count stub_name any v) ≡ some 6
unfolding program
merged_twice = refl

record_failure-Counted_example :
    (i : ℕ) × (u' : UnwindFailures) × (record_failure stub stub_name new ≡ some u')
    × Counted stub stub_name i new u'
record_failure-Counted_example =
    record_failure-Counted stub stub_name new new-IsValid (unfold new in omega arith) (omega arith)

-- Every row holds the empty name.
abbrev full_table : UnwindFailures
full_table = record { names = λ _. []; name_count = 1024; counters = λ _ _. 0 }

abbrev repeated : ℕ → List ℕ
repeated zero = []
repeated (suc n) = 97 ∷ repeated n

-- A table with one name, for each kind.
abbrev one_name : UnwindFailures
one_name = record { names = λ _. stub_name; name_count = 1; counters = λ _ _. 2 }

one_name-IsValid : IsValid one_name
one_name-IsValid = record {
  room = omega arith;
  short = λ i h. omega arith;
  apart = λ i j h k. absurd (omega (arith, h, k));
}

each_once : for_each one_name ≡ (stub, stub_name, 2) ∷ (compiled, stub_name, 2) ∷ []
unfolding for_each for_each_from called
each_once = refl

collect-counts_example :
    (collected : UnwindFailures) × ((record_all
          (one_name ∷ one_name ∷ [])
          (record { lock = 0; failures = new })
        >>= collect_and_reset new)
      ≡ some (collected, record { lock = 0; failures = new }))
    × ((name : List ℕ) (kind : UnwindFailureKind)
        → count name kind collected ≡ some (total (one_name ∷ one_name ∷ []) name kind % 2 ^ 64))
collect-counts_example =
    collect-counts (one_name ∷ one_name ∷ []) (one_name-IsValid, (one_name-IsValid, tt))
      (omega arith)
