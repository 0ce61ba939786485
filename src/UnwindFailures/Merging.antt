-- ===== src/UnwindFailures/Merging.antt =====
-- `merge` adds the counts of two tables, name by name.
use java_profiler.Base.{
  ℕ, zero, suc, ◌+◌, ◌%◌, ◌^◌, ◌≤◌, ◌<◌, ◌≡◌, ◌≢◌, refl, sym, ap, ◌∙◌, true, false, if◌then◌else◌,
  List, none, some, arith, Bool-cases, inl, inr, lt→ltb, str_equal, str_equal_iff,
}
use java_profiler.UnwindFailures.Record.{IsValid, find_name-cases}
use java_profiler.UnwindFailures.Cells.{
  cell, IsClean, cell-small, cell-row, cell-absent, Merged, merge_row-Merged,
}
use java_profiler.UnwindFailures.{
  max_unwind_failure_names, UnwindFailureKind, stub, compiled, any, UnwindFailures, merge_row,
  merge_loop, merge, count_of, count,
}
use native.Mathlib.Decide.{dec_lt}

-- What the rows of a name hold in column `j`, from row `i` on.
rows_of : UnwindFailures → List ℕ → (j left i : ℕ) → ℕ
rows_of other name j zero i = 0
rows_of other name j (suc left) i =
    (if str_equal name (other.names i) then other.counters i j else 0)
    + rows_of other name j left (i + 1)

-- A table with a sum in each cell.
record Sums (left : ℕ) (u : UnwindFailures) (more : List ℕ → ℕ → ℕ) (u' : UnwindFailures)
    : Type 0 where
  valid : IsValid u'
  clean : IsClean u'
  grown : u'.name_count ≤ u.name_count + left
  sums : (name : List ℕ) (j : ℕ) → j < 3 → cell name j u' ≡ (cell name j u + more name j) % 2 ^ 64

Merged-cell :
    (name : List ℕ) (row : ℕ → ℕ) (u u' : UnwindFailures) (asked : List ℕ) (j : ℕ)
    → Merged name row u u'
    → IsClean u
    → j < 3
    → cell asked j u' ≡ (cell asked j u + (if str_equal asked name then row j else 0)) % 2 ^ 64
Merged-cell name row u u' asked j m c lt = elim (Bool-cases (str_equal asked name)) [
  | inl e ↦ let same : asked ≡ name = (str_equal_iff asked name).0 e in rw e (rw same (m.here j lt))
  | inr e ↦
      let ne : asked ≢ name = λ q. cc (e, (str_equal_iff asked name).1 q) in
      rw e (m.others asked j ne ∙ omega (arith, cell-small asked j u c))
]

not_equal : (a b : List ℕ) → b ≢ a → str_equal a b ≡ false
not_equal a b ne = elim (Bool-cases (str_equal a b)) [
  | inl e ↦ absurd (ne (sym ((str_equal_iff a b).0 e)))
  | inr e ↦ e
]

module _ (other : UnwindFailures) (w : IsValid other) where
  merge_loop-Sums :
      (left i : ℕ) (u : UnwindFailures)
      → IsValid u
      → IsClean u
      → i + left ≤ other.name_count
      → u.name_count + left ≤ max_unwind_failure_names
      → (u' : UnwindFailures) × (merge_loop other left i u ≡ some u')
        × Sums left u (λ name j. rows_of other name j left i) u'
  unfolding merge_loop rows_of
  merge_loop-Sums zero i u v c le room = (
    u,
    refl,
    record {
      valid = v;
      clean = c;
      grown = omega arith;
      sums = λ name j lt. omega (arith, cell-small name j u c);
    },
  )
  merge_loop-Sums (suc left) i u v c le room =
      let inside = lt→ltb i max_unwind_failure_names (omega (arith, le, w.room)) in
      let (r, at, m) =
        merge_row-Merged (other.names i) (other.counters i) u v c (omega (arith, room))
          (w.short i (omega (arith, le))) in
      let (u', run, s) =
        merge_loop-Sums left (i + 1) (merge_row (other.counters i) r) m.valid m.clean
          (omega (arith, le)) (omega (arith, room, m.grown)) in
      (
        u',
        rw (inside, at) run,
        record {
          valid = s.valid;
          clean = s.clean;
          grown = omega (arith, s.grown, m.grown);
          sums = λ name j lt.
              s.sums name j lt
              ∙ omega (arith, Merged-cell (other.names i) (other.counters i) u _ name j m c lt);
        },
      )

  rows_of-none :
      (name : List ℕ) (j left i : ℕ)
      → ((k : ℕ) → i ≤ k → k < i + left → other.names k ≢ name)
      → rows_of other name j left i ≡ 0
  unfolding rows_of
  rows_of-none name j zero i out = refl
  rows_of-none name j (suc left) i out =
      let no_match : str_equal name (other.names i) ≡ false =
        not_equal name (other.names i) (out i (omega arith) (omega arith)) in
      rw
        (
          no_match,
          rows_of-none name j left (i + 1) (λ k a b. out k (omega (arith, a)) (omega (arith, b))),
        )
        refl

  rows_of-one :
      (name : List ℕ) (j left i k : ℕ)
      → i ≤ k
      → k < i + left
      → i + left ≤ other.name_count
      → other.names k ≡ name
      → rows_of other name j left i ≡ other.counters k j
  unfolding rows_of
  rows_of-one name j zero i k ge lt le holds = absurd (omega arith)
  rows_of-one name j (suc left) i k ge lt le holds = elim (dec_lt i k) [
    | yes below ↦
        let apart : str_equal name (other.names i) ≡ false =
          not_equal name (other.names i)
            (λ e. w.apart i k below (omega (arith, lt, le)) (e ∙ sym holds)) in
        rw
          (
            apart,
            rows_of-one name j left (i + 1) k (omega (arith, below)) (omega (arith, lt))
                (omega (arith, le)) holds,
          )
          (omega arith)
    | no here ↦
        let same : i ≡ k = omega (arith, here, ge) in
        let found : str_equal name (other.names i) ≡ true =
          (str_equal_iff name (other.names i)).1 (sym (rw same holds)) in
        rw
          (
            found,
            rows_of-none name j left (i + 1) (λ m a b e.
                w.apart i m (omega (arith, a)) (omega (arith, b, le)) (rw same holds ∙ sym e)),
            same,
          )
          (omega arith)
  ]

  rows_of-cell :
      (name : List ℕ) (j : ℕ) → rows_of other name j other.name_count 0 ≡ cell name j other
  rows_of-cell name j = elim (find_name-cases other name w.room) [
    | inl (k, run, first) ↦
        let lt : k < other.name_count = omega (arith, first.upper) in
        rows_of-one name j other.name_count 0 k (omega arith) (omega (arith, lt)) (omega arith)
          first.holds
        ∙ sym (cell-row other name j k w lt first.holds)
    | inr (run, nowhere) ↦
        rows_of-none name j other.name_count 0 (λ k a b. nowhere k a b)
        ∙ sym (cell-absent other name j w (λ i lt. nowhere i (omega arith) (omega (arith, lt))))
  ]

-- What `count` answers, of the cells of a name.
abbrev pub answer : UnwindFailureKind → (a b : ℕ) → ℕ
answer stub a b = a
answer compiled a b = b
answer any a b = (a + b) % 2 ^ 64

pub count-cells :
    (name : List ℕ) (kind : UnwindFailureKind) (u : UnwindFailures)
    → IsValid u
    → count name kind u ≡ some (answer kind (cell name 0 u) (cell name 1 u))
unfolding count cell
count-cells name kind u v = elim (find_name-cases u name v.room) [
  | inl (k, run, first) ↦ rw run (at_row kind k)
  | inr (run, nowhere) ↦ rw run (at_none kind)
]
  where
    at_row :
        (kind : UnwindFailureKind) (k : ℕ)
        → some (count_of kind u (some k)) ≡ some (answer kind (u.counters k 0) (u.counters k 1))
    at_row stub k = unfold count_of in refl
    at_row compiled k = unfold count_of in refl
    at_row any k = unfold count_of in refl

    at_none : (kind : UnwindFailureKind) → some (count_of kind u none) ≡ some (answer kind 0 0)
    at_none stub = unfold count_of in refl
    at_none compiled = unfold count_of in refl
    at_none any = unfold count_of in refl

answer-sum :
    (kind : UnwindFailureKind) (a b c d : ℕ)
    → answer kind ((a + c) % 2 ^ 64) ((b + d) % 2 ^ 64)
      ≡ (answer kind a b + answer kind c d) % 2 ^ 64
answer-sum stub a b c d = refl
answer-sum compiled a b c d = refl
answer-sum any a b c d = omega arith

-- Two tables that are valid, whose rows out of use are 0, and whose names are together no more than the rows:
-- `merge` returns such a table, with no more names than both, and there the count of each name, of each kind and of both, is the sum (mod
-- 2 ^ 64) of its counts in the two, also where a table does not have the name.
pub merge-counts :
    (other u : UnwindFailures)
    → IsValid other
    → IsValid u
    → IsClean u
    → u.name_count + other.name_count ≤ max_unwind_failure_names
    → (u' : UnwindFailures) × (merge other u ≡ some u')
      × IsValid u'
      × IsClean u'
      × (u'.name_count ≤ u.name_count + other.name_count)
      × ((name : List ℕ) (kind : UnwindFailureKind)
          → (a : ℕ) × (b : ℕ) × (count name kind u ≡ some a)
            × (count name kind other ≡ some b)
            × (count name kind u' ≡ some ((a + b) % 2 ^ 64)))
unfolding merge
merge-counts other u w v c room =
    let (u', run, s) = merge_loop-Sums other w other.name_count 0 u v c (omega arith) room in
    let total : (name : List ℕ) (j : ℕ)
        → j < 3
        → cell name j u' ≡ (cell name j u + cell name j other) % 2 ^ 64 =
      λ name j lt.
        s.sums name j lt
        ∙ ap (λ (n : ℕ). (cell name j u + n) % 2 ^ 64) (rows_of-cell other w name j) in
    (
      u',
      run,
      s.valid,
      s.clean,
      s.grown,
      λ name kind. (
        answer kind (cell name 0 u) (cell name 1 u),
        answer kind (cell name 0 other) (cell name 1 other),
        count-cells name kind u v,
        count-cells name kind other w,
        count-cells name kind u' s.valid
            ∙ ap some (
                rw (total name 0 (omega arith), total name 1 (omega arith))
                  (answer-sum kind (cell name 0 u) (cell name 1 u) (cell name 0 other)
                    (cell name 1 other))),
      ),
    )
