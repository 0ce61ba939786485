-- ===== src/CodeCache/Examples.antt =====
-- A library of two symbols, and the theorems at it.
use java_profiler.Base.{
  ℕ, ◌+◌, ◌*◌, ◌-◌, ◌%◌, ◌^◌, ◌≡◌, refl, true, false, ◌==◌, Bool-cases, inl, inr, [], ◌∷◌, some,
  none, arith, ◌⊎◌,
}
use java_profiler.CodeCache.Symbols.{IsSorted, IsBetween, binary_search-same}
use java_profiler.CodeCache.Frames.{IsIncreasing, Answer, find_frame_desc-Answer}
use java_profiler.CodeCache.{
  CodeCache, contains, add, find_blob, find_blob_by_address, binary_search, find_frame_desc,
  blob_symbol, nearby, symbol, library, initial_code_cache_capacity,
}

abbrev empty_library : CodeCache
empty_library = record {
  name = 108 ∷ [];
  min_address = 2 ^ 64 - 1;
  max_address = 0;
  text_base = 4096;
  plt_offset = 0;
  plt_size = 0;
  dwarf_table = λ i. record { loc = i * 16; cfa = 0; fp_off = 0; pc_off = 0 };
  dwarf_table_length = 3;
  capacity = initial_code_cache_capacity;
  count = 0;
  blobs = λ _. record { start = 0; end = 0; name = [] };
}

abbrev two_symbols : CodeCache
two_symbols = add (add empty_library 5000 100 (97 ∷ []) true) 6000 50 (98 ∷ []) true

program : Unit {0}
unfolding add contains find_blob find_blob_by_address binary_search find_frame_desc
program = tt

search_first : binary_search two_symbols 5099 ≡ some (symbol 5000 (97 ∷ []))
unfolding program
search_first = refl

search_gap : binary_search two_symbols 5101 ≡ some (library (108 ∷ []))
unfolding program
search_gap = refl

search_return_address : binary_search two_symbols 5100 ≡ some (symbol 5000 (97 ∷ []))
unfolding program
search_return_address = refl

find_second : find_blob two_symbols (98 ∷ []) ≡ some 1
unfolding program
find_second = refl

two_symbols-IsSorted : IsSorted two_symbols
unfolding program
two_symbols-IsSorted = record {
  sized = λ i lt. elim (Bool-cases (1 == i)) [
    | inl e ↦ rw e (omega arith)
    | inr e ↦ let first : (0 == i) ≡ true = ground arith in rw (e, first) (omega arith)
  ];
  apart = λ i j lt top.
      let second : (1 == j) ≡ true = ground arith in
      let low : (1 == i) ≡ false = ground arith in
      let first : (0 == i) ≡ true = ground arith in rw (second, low, first) (omega arith);
}

binary_search-same_example :
    ((k : ℕ) × (find_blob_by_address two_symbols 5099 ≡ some k)
      × (binary_search two_symbols 5099 ≡ some (blob_symbol (two_symbols.blobs k))))
    ⊎ ((low : ℕ) × (find_blob_by_address two_symbols 5099 ≡ none)
        × (binary_search two_symbols 5099 ≡ some (nearby two_symbols 5099 low))
        × IsBetween two_symbols 5099 low)
binary_search-same_example = binary_search-same two_symbols 5099 two_symbols-IsSorted

find_frame_desc-Answer_example :
    Answer empty_library ((4116 + 2 ^ 64 - 4096) % 2 ^ 32) (find_frame_desc empty_library 4116)
find_frame_desc-Answer_example =
    find_frame_desc-Answer empty_library 4116 (unfold IsIncreasing in λ i j lt top. omega arith)
