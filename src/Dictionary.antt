-- ===== src/Dictionary.antt =====
-- dictionary.cpp: the append-only table that gives each symbol a number. A `DictTable *` is the
-- number of an allocation, `tables` is the memory; table 0 is `_table`. The operations are those of
-- one thread: no other thread writes between a test and its compare-and-swap.
pub mod Key
pub mod Walk
pub mod Row
pub mod Valid
pub mod Frame
pub mod Insert
pub mod Lookup
pub mod Numbers
pub mod Map
mod Examples
use java_profiler.Base.{
  ℕ, zero, suc, ◌+◌, ◌-◌, ◌*◌, ◌/◌, ◌%◌, ◌^◌, bit_or, bit_xor, Bool, true, false, not, ◌==◌, ltb,
  if◌then◌else◌, update, length, List, [], ◌∷◌, Option, none, some,
}
use java_profiler.Dictionary.Key.{hash, key_equals, allocate_key}

abbrev pub row_count : ℕ
row_count = 2 ^ 7

abbrev pub cells : ℕ
cells = 3

abbrev pub table_capacity : ℕ
table_capacity = row_count * cells

-- sizeof(DictTable): 128 rows of four pointers, and the base index with its padding
abbrev pub table_bytes : ℕ
table_bytes = row_count * 32 + 8

pub record DictRow : Type 0 where
  pub keys : ℕ → Option (List ℕ)
  pub next : Option ℕ

pub record DictTable : Type 0 where
  pub rows : ℕ → DictRow
  pub base_index : ℕ

-- The counters of a dictionary's id.
pub record DictCounters : Type 0 where
  pub keys : ℕ
  pub keys_bytes : ℕ
  pub pages : ℕ
  pub bytes : ℕ

pub record Dictionary : Type 0 where
  pub tables : ℕ → DictTable
  pub allocated : ℕ
  pub base_index : ℕ
  pub size : ℕ
  pub counters : DictCounters

-- `index(row, col)`
pub index : DictTable → ℕ → ℕ → ℕ
index table row col = table.base_index + col * 2 ^ 7 + row

abbrev pub empty_row : DictRow
empty_row = record { keys = λ _. none; next = none }

-- What `calloc` and the assignment of `base_index` leave.
abbrev pub new_table : ℕ → DictTable
new_table base = record { rows = λ _. empty_row; base_index = base }

-- The constructor.
pub new : Dictionary
new = record {
  tables = λ _. new_table 1;
  allocated = 1;
  base_index = 1;
  size = 0;
  counters = record { keys = 0; keys_bytes = 0; pages = 1; bytes = table_bytes };
}

-- `clear()`: the tables below the first are freed, and the first is zeroed.
pub clear : Dictionary → Dictionary
clear d = record {
  tables = λ _. new_table 1;
  allocated = 1;
  base_index = 1;
  size = 0;
  counters = record { keys = 0; keys_bytes = 0; pages = 1; bytes = table_bytes };
}

-- What the inner loop of `lookup` meets in a row: a free cell to fill, the key, or neither.
pub data Scan : Type 0 where
  free : ℕ → Scan
  found : ℕ → Scan
  absent : Scan

-- The inner loop, with `left` cells to go from cell `c` on.
pub scan : Bool → List ℕ → (ℕ → Option (List ℕ)) → (left : ℕ) → ℕ → Scan
scan for_insert key keys zero c = absent
scan for_insert key keys (suc left) c =
    let rest = scan for_insert key keys left (c + 1) in
    elim (keys c) [
      | none ↦ if for_insert then free c else rest
      | some candidate ↦ if key_equals candidate key (length key) then found c else rest
    ]

-- `(h >> ROW_BITS) | (h << (32 - ROW_BITS))`
pub rotate : ℕ → ℕ
rotate h = bit_or (h / 2 ^ 7) (h * 2 ^ 25 % 2 ^ 32)

abbrev pub row_at : Dictionary → ℕ → ℕ → DictRow
row_at d t r = (d.tables t).rows r

abbrev pub set_row : Dictionary → ℕ → ℕ → DictRow → ℕ → DictTable
set_row d t r row =
    update d.tables t (record (d.tables t) { rows = update (d.tables t).rows r row })

-- The compare-and-swap of a free cell succeeds. The overflow of the int `_size`, which takes more than
-- five million tables of 384 cells, is left out.
pub store_key : Dictionary → ℕ → ℕ → ℕ → List ℕ → Dictionary
store_key d t r c key = record d {
  tables =
      set_row d t r
        (record (row_at d t r) { keys = update (row_at d t r).keys c (some (allocate_key key)) });
  size = d.size + 1;
  counters = record d.counters {
    keys = d.counters.keys + 1;
    keys_bytes = d.counters.keys_bytes + (length key + 1);
  };
}

-- A new table is allocated, and the compare-and-swap of `row->next` succeeds.
pub add_table : Dictionary → ℕ → ℕ → Dictionary
add_table d t r =
    let base = (d.base_index + table_capacity) % 2 ^ 32 in
    record d {
      tables =
          update (set_row d t r (record (row_at d t r) { next = some d.allocated })) d.allocated
            (new_table base);
      allocated = d.allocated + 1;
      base_index = base;
      counters = record d.counters {
        pages = d.counters.pages + 1;
        bytes = d.counters.bytes + table_bytes;
      };
    }

-- One round of `while (true)` at table `t`, with what the next round does.
pub lookup_row :
    Bool
    → ℕ
    → List ℕ
    → Dictionary
    → ℕ
    → ℕ
    → (Dictionary → ℕ → Option (ℕ × Dictionary))
    → Scan
    → Option ℕ
    → Option (ℕ × Dictionary)
lookup_row for_insert sentinel key d t r again (found c) next = some (index (d.tables t) r c, d)
lookup_row for_insert sentinel key d t r again (free c) next =
    some (index (d.tables t) r c, store_key d t r c key)
lookup_row for_insert sentinel key d t r again absent (some t') = again d t'
lookup_row true sentinel key d t r again absent none = again (add_table d t r) d.allocated
lookup_row false sentinel key d t r again absent none = some (sentinel, d)

-- `while (true)` with fuel; `none` means that the fuel ran out.
pub lookup_loop : ℕ → Bool → ℕ → List ℕ → Dictionary → ℕ → ℕ → Option (ℕ × Dictionary)
lookup_loop zero for_insert sentinel key d t h = none
lookup_loop (suc fuel) for_insert sentinel key d t h =
    let row = row_at d t (h % row_count) in
    lookup_row for_insert sentinel key d t (h % row_count)
      (λ d' t'. lookup_loop fuel for_insert sentinel key d' t' (rotate h))
      (scan for_insert key row.keys cells 0) row.next

-- `lookup(key, length, for_insert, sentinel)`; a walk meets each table once, and one new table.
pub lookup_in : List ℕ → Bool → ℕ → Dictionary → Option (ℕ × Dictionary)
lookup_in key for_insert sentinel d =
    lookup_loop (d.allocated + 1) for_insert sentinel key d 0 (hash key)

pub lookup : List ℕ → Dictionary → Option (ℕ × Dictionary)
lookup key d = lookup_in key true 0 d

-- `lookup(...) != 0`
abbrev pub has_number : Option (ℕ × Dictionary) → Option Bool
has_number none = none
has_number (some (i, _)) = some (not (i == 0))

pub check : List ℕ → Dictionary → Option Bool
check key d = has_number (lookup_in key false 0 d)

-- The sentinel is INT_MAX.
pub bounded_lookup : List ℕ → ℕ → Dictionary → Option (ℕ × Dictionary)
bounded_lookup key size_limit d = lookup_in key (ltb d.size size_limit) (2 ^ 31 - 1) d
