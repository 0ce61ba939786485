-- ===== src/LinearAllocator.antt =====
-- linearAllocator.cpp and linearAllocator.h: blocks that are cut off a chain of chunks, with one caller at
-- a time. Chunks are numbered in the order in which they are allocated, and `left` is how many more of
-- them the operating system gives.
pub mod Blocks
pub mod Valid
pub mod Alloc
pub mod Oversize
pub mod Unwinding
pub mod Clearing
mod Examples
use java_profiler.Base.{
  ℕ, zero, suc, ◌+◌, ◌-◌, ◌*◌, ◌/◌, ◌%◌, ◌^◌, Bool, true, false, ◌==◌, ltb, leb, if◌then◌else◌,
  update, Option, none, some, ◌>>=◌,
}

-- `prev` is none where it is NULL.
pub record Chunk : Type 0 where
  pub prev : Option ℕ
  pub offs : ℕ

-- `heap` has the chunks that are allocated and not freed, `next` numbers the next one, and `chunks` is the
-- counter LINEAR_ALLOCATOR_CHUNKS.
pub record LinearAllocator : Type 0 where
  pub chunk_size : ℕ
  pub tail : ℕ
  pub reserve : ℕ
  pub heap : ℕ → Option Chunk
  pub next : ℕ
  pub chunks : ℕ
  pub left : ℕ

-- `sizeof(Chunk)`
abbrev pub header : ℕ
header = 72

-- `allocateChunk`; none where the system gives no memory.
unfoldable pub allocate_chunk :
    (current : Option ℕ) → LinearAllocator → Option (ℕ × LinearAllocator)
allocate_chunk current a =
    if a.left == 0
    then none
    else some (
      a.next,
      record a {
        heap = update a.heap a.next (some (record { prev = current; offs = header }));
        next = a.next + 1;
        chunks = a.chunks + 1;
        left = a.left - 1;
      },
    )

unfoldable pub free_chunk : ℕ → LinearAllocator → LinearAllocator
free_chunk current a = record a {
  heap = update a.heap current none;
  chunks = a.chunks - 1;
  left = a.left + 1;
}

-- The exchange of `_reserve` in `reserveChunk`, and the chunk that is too late.
unfoldable pub publish : (current reserve : ℕ) → LinearAllocator → LinearAllocator
unfolding free_chunk
publish current reserve a =
    if a.reserve == current then record a { reserve = reserve } else free_chunk reserve a

unfoldable pub published :
    (current : ℕ) → Option (ℕ × LinearAllocator) → LinearAllocator → LinearAllocator
unfolding publish
published current none a = a
published current (some (reserve, a')) a = publish current reserve a'

unfoldable pub reserve_chunk : (current : ℕ) → LinearAllocator → LinearAllocator
unfolding allocate_chunk published
reserve_chunk current a = published current (allocate_chunk (some current) a) a

-- The exchange of `_reserve` in `getNextChunk`: the chunk that is there by then.
unfoldable pub compete : (current reserve : ℕ) → LinearAllocator → ℕ × LinearAllocator
unfolding free_chunk
compete current reserve a =
    if a.reserve == current
    then (reserve, record a { reserve = reserve })
    else (a.reserve, free_chunk reserve a)

-- The exchange of `_tail`.
unfoldable pub advance : (current reserve : ℕ) → LinearAllocator → ℕ × LinearAllocator
advance current reserve a =
    if a.tail == current then (reserve, record a { tail = reserve }) else (a.tail, a)

unfoldable pub get_next_chunk : (current : ℕ) → LinearAllocator → Option (ℕ × LinearAllocator)
unfolding allocate_chunk compete advance
get_next_chunk current a =
    if a.reserve == current
    then (do
      (chunk, a₁) ← allocate_chunk (some current) a
      let (reserve, a₂) = compete current chunk a₁
      some (advance current reserve a₂))
    else some (advance current a.reserve a)

-- `_chunk_size / 2 - offs < size` in 64 bits.
unfoldable pub passes_middle : (chunk_size offs size : ℕ) → Bool
passes_middle chunk_size offs size = ltb ((chunk_size / 2 + 2 ^ 64 - offs) % 2 ^ 64) size

-- The fast path: the block at `offs` of a chunk.
unfoldable pub bump : (chunk size : ℕ) → Chunk → LinearAllocator → LinearAllocator
unfolding passes_middle reserve_chunk
bump chunk size c a =
    let a' = record a {
      heap = update a.heap chunk (some (record c { offs = (c.offs + size) % 2 ^ 64 }));
    } in
    if passes_middle a.chunk_size c.offs size then reserve_chunk chunk a' else a'

-- What a call ends with: a block, as its chunk and offset; NULL; a chunk that was freed; no rounds left.
pub data Result : Type 0 where
  block : (chunk offs : ℕ) → LinearAllocator → Result
  null : LinearAllocator → Result
  dangling : Result
  spent : Result

unfoldable pub after_next :
    Option (ℕ × LinearAllocator) → (ℕ → LinearAllocator → Result) → LinearAllocator → Result
after_next none again a = null a
after_next (some (chunk, a')) again a = again chunk a'

unfoldable pub in_chunk :
    (size chunk : ℕ) → Option Chunk → (ℕ → LinearAllocator → Result) → LinearAllocator → Result
unfolding bump get_next_chunk after_next
in_chunk size chunk none again a = dangling
in_chunk size chunk (some c) again a =
    if leb ((c.offs + size) % 2 ^ 64) a.chunk_size
    then block chunk c.offs (bump chunk size c a)
    else after_next (get_next_chunk chunk a) again a

-- The outer loop of `alloc`.
unfoldable pub alloc_loop : (fuel size chunk : ℕ) → LinearAllocator → Result
unfolding in_chunk
alloc_loop zero size chunk a = spent
alloc_loop (suc fuel) size chunk a = in_chunk size chunk (a.heap chunk) (alloc_loop fuel size) a

unfoldable pub alloc : (fuel size : ℕ) → LinearAllocator → Result
unfolding alloc_loop
alloc fuel size a = alloc_loop fuel size a.tail a

-- A step of the loop of `clear` to the chunk before, where there is one.
unfoldable pub to_prev :
    (tail : ℕ)
    → Option ℕ
    → (ℕ → LinearAllocator → Option LinearAllocator)
    → LinearAllocator
    → Option LinearAllocator
unfolding free_chunk
to_prev tail none again a = some a
to_prev tail (some prev) again a = again prev (free_chunk tail (record a { tail = prev }))

-- The loop; none is a chunk that was freed, or a loop without rounds left.
unfoldable pub clear_loop : (fuel tail : ℕ) → LinearAllocator → Option LinearAllocator
unfolding to_prev
clear_loop zero tail a = none
clear_loop (suc fuel) tail a =
    let again = clear_loop fuel in do c ← a.heap tail; to_prev tail c.prev again a

unfoldable pub is_prev : Option ℕ → ℕ → Bool
is_prev none i = false
is_prev (some j) i = j == i

-- `_reserve = _tail; _tail->offs = sizeof(Chunk)`
unfoldable pub rewind : LinearAllocator → Option LinearAllocator
rewind a = do
  c ← a.heap a.tail
  some (record a {
    reserve = a.tail;
    heap = update a.heap a.tail (some (record c { offs = header }));
  })

unfoldable pub drop_reserve : LinearAllocator → Option LinearAllocator
unfolding is_prev free_chunk
drop_reserve a = do
  r ← a.heap a.reserve
  some (if is_prev r.prev a.tail then free_chunk a.reserve a else a)

-- `clear`, with a round for each chunk up to the tail.
unfoldable pub clear : LinearAllocator → Option LinearAllocator
unfolding drop_reserve clear_loop rewind
clear a = do b ← drop_reserve a; c ← clear_loop (b.tail + 1) b.tail b; rewind c

-- A constructed allocator; none where the system gives no chunk.
unfoldable pub new : (chunk_size left : ℕ) → Option LinearAllocator
unfolding allocate_chunk
new chunk_size left = do
  (chunk, a) ← allocate_chunk none (record {
    chunk_size = chunk_size;
    tail = 0;
    reserve = 0;
    heap = λ _. none;
    next = 0;
    chunks = 0;
    left = left;
  })
  some (record a { reserve = chunk; tail = chunk })

-- The destructor.
unfoldable pub destroy : LinearAllocator → Option LinearAllocator
unfolding clear free_chunk
destroy a = do b ← clear a; some (free_chunk b.tail b)
