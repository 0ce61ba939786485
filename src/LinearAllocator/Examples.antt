-- ===== src/LinearAllocator/Examples.antt =====
-- A small allocator, and the theorems at it.
use java_profiler.Base.{ℕ, ◌≡◌, refl, false, ◌==◌, update, Option, none, some, ◌>>=◌, arith}
use java_profiler.LinearAllocator.Alloc.{Gives, alloc-Gives}
use java_profiler.LinearAllocator.Clearing.{alone-IsValid, clear-alone}
use java_profiler.LinearAllocator.Oversize.{alloc_oversize}
use java_profiler.LinearAllocator.Valid.{IsValid}
use java_profiler.LinearAllocator.{
  LinearAllocator, header, Result, block, null, dangling, spent, new, destroy, clear, alloc,
}

-- One chunk of 200 bytes, and memory for three more.
abbrev allocator : LinearAllocator
allocator = record {
  chunk_size = 200;
  tail = 0;
  reserve = 0;
  heap = update (λ _. none) 0 (some (record { prev = none; offs = header }));
  next = 1;
  chunks = 1;
  left = 3;
}

allocator-IsValid : IsValid allocator
allocator-IsValid =
    alone-IsValid allocator refl (λ i apart. rw apart refl) refl (omega arith) (omega arith)
      (omega arith)

next_of : Result → Option LinearAllocator
next_of (block chunk offs a) = some a
next_of (null a) = some a
next_of dangling = none
next_of spent = none

-- Three blocks of 60 bytes take two chunks, and a third one is in reserve.
abbrev three_blocks : Option LinearAllocator
three_blocks = do
  a ← new 200 4
  b ← next_of (alloc 2 60 a)
  c ← next_of (alloc 2 60 b)
  next_of (alloc 2 60 c)

three_chunks : (do a ← three_blocks; some a.chunks) ≡ some 3
unfolding next_of new alloc
three_chunks = refl

one_chunk_again : (do a ← three_blocks; b ← clear a; some b.chunks) ≡ some 1
unfolding next_of new alloc clear
one_chunk_again = refl

nothing_left : (do a ← three_blocks; b ← destroy a; some b.chunks) ≡ some 0
unfolding next_of new alloc destroy
nothing_left = refl

alloc-Gives_example : Gives 60 allocator (alloc 2 60 allocator)
alloc-Gives_example = alloc-Gives 0 60 allocator allocator-IsValid (omega arith)

alloc_oversize_example : (a' : LinearAllocator) × (alloc 5 200 allocator ≡ null a') × (a'.left ≡ 0)
alloc_oversize_example = alloc_oversize 200 allocator allocator-IsValid (omega arith) (omega arith)

clear-alone_example :
    (a' : LinearAllocator) × (clear allocator ≡ some a')
    × IsValid a'
    × (a'.reserve ≡ a'.tail)
    × (a'.heap a'.tail ≡ some (record { prev = none; offs = header }))
    × ((i : ℕ) → (a'.tail == i) ≡ false → a'.heap i ≡ none)
clear-alone_example = clear-alone allocator allocator-IsValid
