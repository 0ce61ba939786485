-- ===== src/ThreadFilter/Collect.antt =====
-- threadFilter.cpp: `collect`, the list of the threads in the filter. An id is an `int`, and wraps.
use java_profiler.Base.{
  ℕ, zero, suc, ◌+◌, ◌-◌, ◌*◌, ◌/◌, ◌%◌, ◌^◌, bit_and, ◌==◌, if◌then◌else◌, List, [], ◌∷◌, ◌++◌,
  Option, none, some,
}
use java_profiler.ThreadFilter.{bitmap_size, bitmap_capacity, ThreadFilter}

-- `__builtin_ctzl`: the zeros below the lowest one, of `bits` bits.
unfoldable pub count_zeros : (bits w : ℕ) → ℕ
count_zeros zero w = 0
count_zeros (suc bits) w =
    let rest = suc (count_zeros bits (w / 2)) in if w % 2 == 1 then 0 else rest

-- `word &= (word - 1)`
unfoldable pub drop_lowest : ℕ → ℕ
drop_lowest w = bit_and w (w - 1)

-- `while (word != 0)`; a round takes one of the 64 bits away.
unfoldable pub word_ids : (left base w : ℕ) → List ℕ
word_ids zero base w = []
word_ids (suc left) base w =
    let rest = word_ids left base (drop_lowest w) in
    if w == 0 then [] else ((base + count_zeros 64 w) % 2 ^ 32) ∷ rest

-- What a loop over an index puts into the vector, from `i` on.
unfoldable pub gather : (ids : ℕ → List ℕ) → (left i : ℕ) → List ℕ
gather ids zero i = []
gather ids (suc left) i = ids i ++ gather ids left (i + 1)

unfoldable pub slot_ids : (start_id : ℕ) → Option (ℕ → ℕ) → List ℕ
slot_ids start_id none = []
slot_ids start_id (some b) = gather (λ j. word_ids 64 (start_id + j * 64) (b j)) (bitmap_size / 8) 0

unfoldable pub collect : ThreadFilter → List ℕ → List ℕ
collect f v =
    v ++ gather (λ i. slot_ids (i * bitmap_capacity % 2 ^ 32) (f.bitmaps i)) f.max_bitmaps 0
