-- ===== src/UnwindFailures/Collecting.antt =====
-- What the threads record is what is collected.
use java_profiler.Base.{
  ℕ, ◌+◌, ◌%◌, ◌^◌, ◌≤◌, ◌<◌, ◌≡◌, refl, ap, ◌∙◌, List, [], ◌∷◌, All, Option, none, some, ◌>>=◌,
  arith,
}
use java_profiler.SpinLock.{try_lock, unlock}
use java_profiler.UnwindFailures.Record.{IsValid, new-IsValid}
use java_profiler.UnwindFailures.Cells.{cell, cell-small, cell-absent, IsClean}
use java_profiler.UnwindFailures.Merging.{answer, count-cells, merge-counts}
use java_profiler.UnwindFailures.Stats.{
  UnwindStats, locked, merge_locked, record_failures, collect_and_reset,
}
use java_profiler.UnwindFailures.{
  max_unwind_failure_names, UnwindFailureKind, UnwindFailures, new, stub, compiled, any, count,
  merge, swap,
}

abbrev pub value_of : Option ℕ → ℕ
value_of none = 0
value_of (some n) = n

-- The sum of the counts of a name.
abbrev pub total : List UnwindFailures → List ℕ → UnwindFailureKind → ℕ
total [] name kind = 0
total (t ∷ ts) name kind = value_of (count name kind t) + total ts name kind

abbrev pub all_names : List UnwindFailures → ℕ
all_names [] = 0
all_names (t ∷ ts) = t.name_count + all_names ts

-- One call of `record_failures` after another.
unfoldable pub record_all : List UnwindFailures → UnwindStats → Option UnwindStats
record_all [] s = some s
record_all (t ∷ ts) s = record_failures t s >>= record_all ts

abbrev unlocked_stats : UnwindFailures → UnwindStats
unlocked_stats u = record { lock = 0; failures = u }

record_failures-free :
    (t u u' : UnwindFailures)
    → merge t u ≡ some u'
    → record_failures t (unlocked_stats u) ≡ some (unlocked_stats u')
unfolding record_failures merge_locked try_lock unlock
record_failures-free t u u' e = rw e refl

record_all-counts :
    (ts : List UnwindFailures) (u : UnwindFailures)
    → All IsValid ts
    → IsValid u
    → IsClean u
    → u.name_count + all_names ts ≤ max_unwind_failure_names
    → (u' : UnwindFailures) × (record_all ts (unlocked_stats u) ≡ some (unlocked_stats u'))
      × IsValid u'
      × IsClean u'
      × ((name : List ℕ) (kind : UnwindFailureKind)
          → value_of (count name kind u') % 2 ^ 64
            ≡ (value_of (count name kind u) + total ts name kind) % 2 ^ 64)
unfolding record_all
record_all-counts [] u ok v c room = (u, refl, v, c, λ name kind. omega arith)
record_all-counts (t ∷ ts) u (w, ok) v c room =
    let (u1, at, v1, c1, grown, sums) = merge-counts t u w v c (omega (arith, room)) in
    let (u', run, v', c', counts) = record_all-counts ts u1 ok v1 c1 (omega (arith, room, grown)) in
    (
      u',
      rw (record_failures-free t u u1 at) run,
      v',
      c',
      λ name kind.
          let (a, b, ea, eb, e1) = sums name kind in
          counts name kind ∙ rw (e1, ea, eb) (omega arith),
    )

new-IsClean : IsClean new
unfolding new
new-IsClean = record { blank = λ k j ge. refl; small = λ k j. omega arith }

answer-small :
    (kind : UnwindFailureKind) (a b : ℕ) → a < 2 ^ 64 → b < 2 ^ 64 → answer kind a b < 2 ^ 64
answer-small stub a b h k = h
answer-small compiled a b h k = k
answer-small any a b h k = omega arith

-- The count of a table, as a word.
count-word :
    (name : List ℕ) (kind : UnwindFailureKind) (u : UnwindFailures)
    → IsValid u
    → IsClean u
    → count name kind u ≡ some (value_of (count name kind u) % 2 ^ 64)
count-word name kind u v c =
    let n = answer kind (cell name 0 u) (cell name 1 u) in
    let small = answer-small kind _ _ (cell-small name 0 u c) (cell-small name 1 u c) in
    let word : n ≡ n % 2 ^ 64 = omega (arith, small) in
    rw (count-cells name kind u v) (ap some word)

new-count : (name : List ℕ) (kind : UnwindFailureKind) → value_of (count name kind new) ≡ 0
new-count name kind =
    let none_yet : (j : ℕ) → cell name j new ≡ 0 =
      λ j. cell-absent new name j new-IsValid (λ i lt. absurd (unfold new in omega (arith, lt))) in
    rw (count-cells name kind new new-IsValid, none_yet 0, none_yet 1) (nothing kind)
  where
    nothing : (kind : UnwindFailureKind) → answer kind 0 0 ≡ 0
    nothing stub = refl
    nothing compiled = refl
    nothing any = refl

collect-free :
    (result u : UnwindFailures)
    → collect_and_reset result (unlocked_stats u) ≡ some (u, unlocked_stats result)
unfolding collect_and_reset locked swap try_lock unlock
collect-free result u = refl

-- Valid tables of threads, with no more names in all than a table has rows, that are recorded one after another
-- from the start, and then collected into an empty table: nothing waits and nothing is lost. The collected count
-- of each name, of each kind and of both, is the sum (mod 2 ^ 64) of its counts in the tables, and what is
-- kept is free and empty again.
pub collect-counts :
    (ts : List UnwindFailures)
    → All IsValid ts
    → all_names ts ≤ max_unwind_failure_names
    → (collected : UnwindFailures) × ((record_all ts (record { lock = 0; failures = new })
          >>= collect_and_reset new)
        ≡ some (collected, record { lock = 0; failures = new }))
      × ((name : List ℕ) (kind : UnwindFailureKind)
          → count name kind collected ≡ some (total ts name kind % 2 ^ 64))
collect-counts ts ok room =
    let (u, run, v, c, counts) =
      record_all-counts ts new ok new-IsValid new-IsClean (unfold new in omega (arith, room)) in
    (
      u,
      rw run (collect-free new u),
      λ name kind.
          count-word name kind u v c
          ∙ ap some (counts name kind ∙ rw (new-count name kind) (omega arith)),
    )
