-- ===== src/ThreadFilter.antt =====
-- threadFilter.cpp: the bitmap of the threads to sample. An `int` thread id is its 32-bit pattern, which
-- is how the code compares and divides it; a bitmap is an array of 64-bit words. The operations are those
-- of one thread, and allocations succeed.
pub mod Words
pub mod Laws
pub mod Sets
pub mod Collect
pub mod Lowest
pub mod Collected
pub mod Init
pub mod Rounds
pub mod Spans
mod Examples
use java_profiler.Base.{
  ℕ, zero, suc, ◌+◌, ◌-◌, ◌*◌, ◌/◌, ◌%◌, ◌^◌, bit_and, bit_or, Bool, true, false, not, ◌==◌, ltb,
  leb, if◌then◌else◌, update, Option, none, some,
}

-- in bytes
abbrev pub bitmap_size : ℕ
bitmap_size = 65536

abbrev pub bitmap_capacity : ℕ
bitmap_capacity = bitmap_size * 8

pub record ThreadFilter : Type 0 where
  pub max_thread_id : ℕ
  pub max_bitmaps : ℕ
  pub bitmaps : ℕ → Option (ℕ → ℕ)
  pub enabled : Bool
  pub size : ℕ

abbrev pub zero_bitmap : ℕ → ℕ
zero_bitmap = λ _. 0

-- The constructor, given what `OS::getMaxThreadId` returns.
pub new : ℕ → ThreadFilter
new max_thread_id = record {
  max_thread_id = max_thread_id;
  max_bitmaps = (max_thread_id + bitmap_size - 1) % 2 ^ 32 / bitmap_size;
  bitmaps = update (λ _. none) 0 (some zero_bitmap);
  enabled = false;
  size = 0;
}

-- `bitmap(thread_id)`
pub bitmap : ThreadFilter → ℕ → Option (ℕ → ℕ)
bitmap f thread_id =
    if leb f.max_thread_id thread_id then none else f.bitmaps (thread_id / bitmap_capacity)

-- The index of `word(bitmap, thread_id)`.
pub word_index : ℕ → ℕ
word_index thread_id = thread_id % bitmap_capacity / 2 ^ 6

-- `1ULL << (thread_id & 0x3f)`
pub bit_of : ℕ → ℕ
bit_of thread_id = 2 ^ (thread_id % 64)

pub accept_in : Option (ℕ → ℕ) → ℕ → Bool
accept_in none thread_id = false
accept_in (some b) thread_id = not (bit_and (b (word_index thread_id)) (bit_of thread_id) == 0)

pub accept : ThreadFilter → ℕ → Bool
accept f thread_id = accept_in (bitmap f thread_id) thread_id

-- `__sync_fetch_and_or` on the thread's word, and the count if the bit was clear.
pub set_bit : ThreadFilter → ℕ → (ℕ → ℕ) → ThreadFilter
set_bit f thread_id b =
    let w = b (word_index thread_id) in
    let b' = update b (word_index thread_id) (bit_or w (bit_of thread_id)) in
    record f {
      bitmaps = update f.bitmaps (thread_id / bitmap_capacity) (some b');
      size = if bit_and w (bit_of thread_id) == 0 then (f.size + 1) % 2 ^ 32 else f.size;
    }

-- The compare-and-swap of a new bitmap gives what was in the slot.
pub add_slot : ThreadFilter → ℕ → Option (ℕ → ℕ) → ThreadFilter
add_slot f thread_id none = set_bit f thread_id zero_bitmap
add_slot f thread_id (some old) = set_bit f thread_id old

-- With the result of `bitmap`. Where that is NULL, a slot from `_max_bitmaps` on is outside the array,
-- and the result is then `none`.
pub add_to : ThreadFilter → ℕ → Option (ℕ → ℕ) → Option ThreadFilter
add_to f thread_id (some b) = some (set_bit f thread_id b)
add_to f thread_id none =
    if ltb (thread_id / bitmap_capacity) f.max_bitmaps
    then some (add_slot f thread_id (f.bitmaps (thread_id / bitmap_capacity)))
    else none

pub add : ThreadFilter → ℕ → Option ThreadFilter
add f thread_id = add_to f thread_id (bitmap f thread_id)

-- `__sync_fetch_and_and` with the complement, and the count if the bit was set.
pub clear_bit : ThreadFilter → ℕ → (ℕ → ℕ) → ThreadFilter
clear_bit f thread_id b =
    let w = b (word_index thread_id) in
    let b' = update b (word_index thread_id) (bit_and w (2 ^ 64 - 1 - bit_of thread_id)) in
    record f {
      bitmaps = update f.bitmaps (thread_id / bitmap_capacity) (some b');
      size = if bit_and w (bit_of thread_id) == 0 then f.size else (f.size + 2 ^ 32 - 1) % 2 ^ 32;
    }

pub remove_from : ThreadFilter → ℕ → Option (ℕ → ℕ) → ThreadFilter
remove_from f thread_id none = f
remove_from f thread_id (some b) = clear_bit f thread_id b

pub remove : ThreadFilter → ℕ → ThreadFilter
remove f thread_id = remove_from f thread_id (bitmap f thread_id)

pub clear_bitmap : Option (ℕ → ℕ) → Option (ℕ → ℕ)
clear_bitmap none = none
clear_bitmap (some b) = some zero_bitmap

pub clear : ThreadFilter → ThreadFilter
clear f = record f {
  bitmaps = λ i. if ltb i f.max_bitmaps then clear_bitmap (f.bitmaps i) else f.bitmaps i;
  size = 0;
}
