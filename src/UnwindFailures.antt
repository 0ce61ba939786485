-- ===== src/UnwindFailures.antt =====
-- unwindStats.h: the counts of failed stack walks by the name of the stub or method. A name is the bytes
-- of a C string, without the terminator. `none` as a result is an access outside the arrays.
pub mod Find
pub mod Record
pub mod Faults
pub mod Cells
pub mod Merging
pub mod Stats
pub mod Collecting
mod Examples
use java_profiler.Base.{
  ℕ, str_equal, zero, suc, ◌+◌, ◌-◌, ◌^◌, ◌%◌, Bool, true, false, ◌&&◌, ◌==◌, ltb, leb,
  if◌then◌else◌, update, take, length, List, [], ◌∷◌, Option, none, some, ◌>>=◌,
}

abbrev pub max_unwind_failure_names : ℕ
max_unwind_failure_names = 1024

abbrev pub max_name_length : ℕ
max_name_length = 256

-- UNWIND_FAILURE_STUB = 1, UNWIND_FAILURE_COMPILED = 2, UNWIND_FAILURE_ANY = 3
pub data UnwindFailureKind : Type 0 where
  stub compiled any : UnwindFailureKind

-- `kind - 1`, the column of a kind.
abbrev pub column : UnwindFailureKind → ℕ
column stub = 0
column compiled = 1
column any = 2

pub record UnwindFailures : Type 0 where
  pub names : ℕ → List ℕ
  pub name_count : ℕ
  pub counters : ℕ → ℕ → ℕ

-- The constructor, and `clear()`.
unfoldable pub new : UnwindFailures
new = record { names = λ _. []; name_count = 0; counters = λ _ _. 0 }

unfoldable pub clear : UnwindFailures → UnwindFailures
clear u = record u { names = λ _. []; name_count = 0; counters = λ _ _. 0 }

unfoldable pub empty : UnwindFailures → Bool
empty u = u.name_count == 0

-- The loop of `findName` from index `i` on, with `left` rounds to go.
unfoldable pub find_loop : (ℕ → List ℕ) → List ℕ → ℕ → ℕ → Option (Option ℕ)
unfolding str_equal
find_loop names name zero i = some none
find_loop names name (suc left) i =
    let rest = find_loop names name left (i + 1) in
    if ltb i max_unwind_failure_names
    then (if str_equal (names i) name then some (some i) else rest)
    else none

-- `some none` is the result -1.
unfoldable pub find_name : List ℕ → UnwindFailures → Option (Option ℕ)
unfolding find_loop
find_name name u = find_loop u.names name u.name_count 0

-- The part of `findOrCreateName` behind the search: a name is cut at 255 bytes, and the count grows
-- also where there is no room.
unfoldable pub create_name : List ℕ → UnwindFailures → Option ℕ × UnwindFailures
create_name name u =
    if ltb u.name_count max_unwind_failure_names
    then (
      some u.name_count,
      record u {
        names =
            update u.names u.name_count
              (if leb max_name_length (length name) then take (max_name_length - 1) name else name);
        name_count = u.name_count + 1;
      },
    )
    else (none, record u { name_count = u.name_count + 1 })

unfoldable pub create_unless : List ℕ → UnwindFailures → Option ℕ → Option ℕ × UnwindFailures
unfolding create_name
create_unless name u (some i) = (some i, u)
create_unless name u none = create_name name u

unfoldable pub find_or_create : List ℕ → UnwindFailures → Option (Option ℕ × UnwindFailures)
unfolding find_name create_unless
find_or_create name u = do o ← find_name name u; some (create_unless name u o)

-- `_counters[index][j] += n`
unfoldable pub add_counter : ℕ → ℕ → ℕ → UnwindFailures → UnwindFailures
add_counter i j n u = record u {
  counters = update u.counters i (update (u.counters i) j ((u.counters i j + n) % 2 ^ 64));
}

unfoldable pub count_at : ℕ → (Option ℕ × UnwindFailures) → UnwindFailures
unfolding add_counter
count_at j (some i, u) = add_counter i j 1 u
count_at j (none, u) = u

-- The two paths of `record`: the name is there, or it is created, if need be, after a second search.
unfoldable pub record_found :
    UnwindFailureKind → List ℕ → UnwindFailures → Option ℕ → Option UnwindFailures
unfolding find_or_create count_at
record_found kind name u (some i) = some (add_counter i (column kind) 1 u)
record_found kind name u none = do r ← find_or_create name u; some (count_at (column kind) r)

-- `record(kind, name)` for a name that is not NULL.
unfoldable pub record_failure : UnwindFailureKind → List ℕ → UnwindFailures → Option UnwindFailures
unfolding find_name record_found
record_failure kind name u = find_name name u >>= record_found kind name u

unfoldable pub count_of : UnwindFailureKind → UnwindFailures → Option ℕ → ℕ
count_of kind u none = 0
count_of any u (some i) = (u.counters i 0 + u.counters i 1) % 2 ^ 64
count_of kind u (some i) = u.counters i (column kind)

unfoldable pub count : List ℕ → UnwindFailureKind → UnwindFailures → Option ℕ
unfolding find_name count_of
count name kind u = do o ← find_name name u; some (count_of kind u o)

-- The inner loop of `merge` over the three columns.
unfoldable pub add_row : ℕ → (ℕ → ℕ) → UnwindFailures → UnwindFailures
unfolding add_counter
add_row i row u = add_counter i 2 (row 2) (add_counter i 1 (row 1) (add_counter i 0 (row 0) u))

unfoldable pub merge_row : (ℕ → ℕ) → (Option ℕ × UnwindFailures) → UnwindFailures
unfolding add_row
merge_row row (none, u) = u
merge_row row (some i, u) = add_row i row u

-- The outer loop of `merge` from row `i` of `other` on, with `left` rows to go.
unfoldable pub merge_loop : UnwindFailures → ℕ → ℕ → UnwindFailures → Option UnwindFailures
unfolding find_or_create merge_row
merge_loop other zero i u = some u
merge_loop other (suc left) i u =
    if ltb i max_unwind_failure_names
    then (do
      r ← find_or_create (other.names i) u
      merge_loop other left (i + 1) (merge_row (other.counters i) r))
    else none

unfoldable pub merge : UnwindFailures → UnwindFailures → Option UnwindFailures
unfolding merge_loop
merge other u = merge_loop other other.name_count 0 u

unfoldable pub swap : UnwindFailures → UnwindFailures → UnwindFailures × UnwindFailures
swap u other = (other, u)
