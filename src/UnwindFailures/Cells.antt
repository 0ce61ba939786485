-- ===== src/UnwindFailures/Cells.antt =====
-- The counter of a name, and what `merge` does to it for one row.
use java_profiler.Base.{
  ℕ, zero, suc, ◌+◌, ◌%◌, ◌^◌, ◌≤◌, ◌<◌, ◌≡◌, ◌≢◌, refl, sym, ap, ◌∙◌, false, ◌==◌, length, List,
  Option, none, some, arith, Bool-cases, inl, inr, ==_refl,
}
use java_profiler.UnwindFailures.Record.{
  IsValid, find_name-cases, find_name_at, same_search, add_counter-IsValid, created,
  create_name-created, created-IsValid, created-name,
}
use java_profiler.UnwindFailures.{
  max_unwind_failure_names, max_name_length, UnwindFailures, find_name, create_unless,
  find_or_create, add_counter, add_row, merge_row,
}

abbrev cell_at : (j : ℕ) → UnwindFailures → Option (Option ℕ) → ℕ
cell_at j u none = 0
cell_at j u (some none) = 0
cell_at j u (some (some i)) = u.counters i j

-- The counter of a name in column `j`, 0 for a name that is not stored.
unfoldable pub cell : List ℕ → (j : ℕ) → UnwindFailures → ℕ
cell name j u = cell_at j u (find_name name u)

-- Rows that are not in use are 0, and counters are words.
pub record IsClean (u : UnwindFailures) : Type 0 where
  pub blank : (k j : ℕ) → u.name_count ≤ k → u.counters k j ≡ 0
  pub small : (k j : ℕ) → u.counters k j < 2 ^ 64

pub cell-small : (name : List ℕ) (j : ℕ) (u : UnwindFailures) → IsClean u → cell name j u < 2 ^ 64
unfolding cell
cell-small name j u c = by_search (find_name name u)
  where
    by_search : (o : Option (Option ℕ)) → cell_at j u o < 2 ^ 64
    by_search none = omega arith
    by_search (some none) = omega arith
    by_search (some (some i)) = c.small i j

add_row-here :
    (k : ℕ) (row : ℕ → ℕ) (u : UnwindFailures) (j : ℕ)
    → j < 3
    → (add_row k row u).counters k j ≡ (u.counters k j + row j) % 2 ^ 64
unfolding add_row add_counter
add_row-here k row u zero lt = rw (==_refl k) refl
add_row-here k row u (suc zero) lt = rw (==_refl k) refl
add_row-here k row u (suc (suc zero)) lt = rw (==_refl k) refl
add_row-here k row u (suc (suc (suc j))) lt = absurd (omega arith)

add_row-elsewhere :
    (k : ℕ) (row : ℕ → ℕ) (u : UnwindFailures) (i j : ℕ)
    → k ≢ i
    → (add_row k row u).counters i j ≡ u.counters i j
unfolding add_row add_counter
add_row-elsewhere k row u i j ne = let e : (k == i) ≡ false = ground (arith, ne) in rw e refl

abbrev AreSmall : UnwindFailures → Type 0
AreSmall u = (i j : ℕ) → u.counters i j < 2 ^ 64

add_counter-small : (k c n : ℕ) (u : UnwindFailures) → AreSmall u → AreSmall (add_counter k c n u)
unfolding add_counter
add_counter-small k c n u all i j = elim (Bool-cases (k == i)) [
  | inl e ↦ elim (Bool-cases (c == j)) [
    | inl h ↦ rw (e, h) (omega arith)
    | inr h ↦ rw (e, h) (all k j)
  ]
  | inr e ↦ rw e (all i j)
]

add_row-small : (k : ℕ) (row : ℕ → ℕ) (u : UnwindFailures) → AreSmall u → AreSmall (add_row k row u)
unfolding add_row
add_row-small k row u all =
    let u0 = add_counter k 0 (row 0) u in
    let u1 = add_counter k 1 (row 1) u0 in
    add_counter-small k 2 (row 2) u1
      (add_counter-small k 1 (row 1) u0 (add_counter-small k 0 (row 0) u all))

add_row-search :
    (name : List ℕ) (k : ℕ) (row : ℕ → ℕ) (u : UnwindFailures)
    → find_name name (add_row k row u) ≡ find_name name u
unfolding add_row
add_row-search name k row u =
    same_search name k 2 (row 2) _ ∙ same_search name k 1 (row 1) _ ∙ same_search name k 0 (row 0) u

add_row-IsValid : (k : ℕ) (row : ℕ → ℕ) (u : UnwindFailures) → IsValid u → IsValid (add_row k row u)
unfolding add_row
add_row-IsValid k row u v =
    add_counter-IsValid k 2 (row 2) _
      (add_counter-IsValid k 1 (row 1) _ (add_counter-IsValid k 0 (row 0) u v))

add_row-count :
    (k : ℕ) (row : ℕ → ℕ) (u : UnwindFailures) → (add_row k row u).name_count ≡ u.name_count
unfolding add_row add_counter
add_row-count k row u = refl

-- A table after the row of one name was added.
pub record Merged (name : List ℕ) (row : ℕ → ℕ) (u u' : UnwindFailures) : Type 0 where
  pub valid : IsValid u'
  pub clean : IsClean u'
  pub grown : u'.name_count ≤ u.name_count + 1
  pub here : (j : ℕ) → j < 3 → cell name j u' ≡ (cell name j u + row j) % 2 ^ 64
  pub others : (other : List ℕ) (j : ℕ) → other ≢ name → cell other j u' ≡ cell other j u

-- The cell of a name that stands in a row.
pub cell-row :
    (u : UnwindFailures) (name : List ℕ) (j i : ℕ)
    → IsValid u
    → i < u.name_count
    → u.names i ≡ name
    → cell name j u ≡ u.counters i j
unfolding cell
cell-row u name j i v lt holds = rw (find_name_at u name i v lt holds) refl

pub cell-absent :
    (u : UnwindFailures) (name : List ℕ) (j : ℕ)
    → IsValid u
    → ((i : ℕ) → i < u.name_count → u.names i ≢ name)
    → cell name j u ≡ 0
unfolding cell
cell-absent u name j v absent = elim (find_name-cases u name v.room) [
  | inl (k, run, first) ↦ absurd (absent k (omega (arith, first.upper)) first.holds)
  | inr (run, nowhere) ↦ rw run refl
]

add_row-cell :
    (other : List ℕ) (k : ℕ) (row : ℕ → ℕ) (u : UnwindFailures) (j : ℕ)
    → IsValid u
    → k < u.name_count
    → other ≢ u.names k
    → cell other j (add_row k row u) ≡ cell other j u
unfolding cell
add_row-cell other k row u j v lt ne = elim (find_name-cases u other v.room) [
  | inl (i, run, first) ↦
      rw (add_row-search other k row u, run)
        (add_row-elsewhere k row u i j (λ e. ne (sym first.holds ∙ ap u.names (sym e))))
  | inr (run, nowhere) ↦ rw (add_row-search other k row u, run) refl
]

add_row-Merged :
    (name : List ℕ) (k : ℕ) (row : ℕ → ℕ) (u : UnwindFailures)
    → IsValid u
    → IsClean u
    → k < u.name_count
    → u.names k ≡ name
    → Merged name row u (add_row k row u)
unfolding cell
add_row-Merged name k row u v c lt holds = record {
  valid = add_row-IsValid k row u v;
  clean = record {
    blank = λ i j ge.
        add_row-elsewhere k row u i j
          (λ e. absurd (omega (arith, e, lt, ge, add_row-count k row u)))
        ∙ c.blank i j (rw (← add_row-count k row u) ge);
    small = add_row-small k row u c.small;
  };
  grown = rw (add_row-count k row u) (omega arith);
  here = λ j in_row.
      let at = cell-row u name j k v lt holds in
      ap (cell_at j (add_row k row u))
        (add_row-search name k row u ∙ find_name_at u name k v lt holds)
      ∙ add_row-here k row u j in_row
      ∙ rw at refl;
  others = λ other j ne. add_row-cell other k row u j v lt (λ e. ne (e ∙ holds));
}

-- A name that is created has a row of zeros.
created-cell :
    (name : List ℕ) (u : UnwindFailures) (other : List ℕ) (j : ℕ)
    → IsValid u
    → IsValid (created name u)
    → other ≢ name
    → cell other j (created name u) ≡ cell other j u
created-cell name u other j v w ne = elim (find_name-cases u other v.room) [
  | inl (i, run, first) ↦
      let lt : i < u.name_count = omega (arith, first.upper) in
      let old : (u.name_count == i) ≡ false = ground arith in
      cell-row (created name u) other j i w (omega (arith, lt)) (rw old first.holds)
      ∙ sym (cell-row u other j i v lt first.holds)
  | inr (run, nowhere) ↦
      cell-absent (created name u) other j w (λ i lt. elim (Bool-cases (u.name_count == i)) [
        | inl e ↦ rw e (λ h. ne (sym h))
        | inr e ↦ rw e (nowhere i (omega arith) (ground arith))
      ])
      ∙ sym (cell-absent u other j v (λ i lt. nowhere i (omega arith) (omega (arith, lt))))
]

module _ (name : List ℕ) (row : ℕ → ℕ) (u : UnwindFailures) (v : IsValid u) (c : IsClean u)
    (lt : u.name_count < max_unwind_failure_names) (fits : length name < max_name_length) where
  created-Merged :
      ((j : ℕ) → j < u.name_count → u.names j ≢ name)
      → Merged name row u (add_row u.name_count row (created name u))
  created-Merged fresh =
      let w = created-IsValid name u v lt fits fresh in
      let clean : IsClean (created name u) = record {
        blank = λ k j ge. c.blank k j (omega (arith, ge));
        small = c.small;
      } in
      let m =
        add_row-Merged name u.name_count row (created name u) w clean (omega arith)
          (created-name name u v lt fits fresh) in
      record {
        valid = m.valid;
        clean = m.clean;
        grown = omega (arith, add_row-count u.name_count row (created name u));
        here = λ j in_row.
            let none_yet = cell-absent u name j v fresh in
            let zeros =
              cell-row (created name u) name j u.name_count w (omega arith)
                (created-name name u v lt fits fresh) in
            m.here j in_row
            ∙ ap (λ (n : ℕ). (n + row j) % 2 ^ 64)
                (zeros ∙ c.blank u.name_count j (omega arith) ∙ sym none_yet);
        others = λ other j ne. m.others other j ne ∙ created-cell name u other j v w ne;
      }

  -- One round of `merge`.
  pub merge_row-Merged :
      (r : Option ℕ × UnwindFailures) × (find_or_create name u ≡ some r)
      × Merged name row u (merge_row row r)
  merge_row-Merged = elim (find_name-cases u name v.room) [
    | inl (k, run, first) ↦ (
      (some k, u),
      unfold find_or_create create_unless in rw run,
      unfold merge_row in add_row-Merged name k row u v c (omega (arith, first.upper)) first.holds,
    )
    | inr (run, nowhere) ↦
        let fresh : (j : ℕ) → j < u.name_count → u.names j ≢ name =
          λ j h. nowhere j (omega arith) (omega (arith, h)) in
        (
          (some u.name_count, created name u),
          unfold find_or_create create_unless in
              rw (run, create_name-created name u v lt fits fresh),
          unfold merge_row in created-Merged fresh,
        )
  ]
