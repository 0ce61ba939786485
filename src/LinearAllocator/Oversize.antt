-- ===== src/LinearAllocator/Oversize.antt =====
-- `alloc` at a block that no chunk has room for.
use java_profiler.Base.{
  ℕ, zero, suc, ◌+◌, ◌^◌, ◌<◌, true, false, ◌==◌, ==_refl, none, some, ◌≡◌, refl, ◌∙◌, arith,
  Bool-cases, inl, inr,
}
use java_profiler.LinearAllocator.Alloc.{new-NextChunk, old-NextChunk, round-next}
use java_profiler.LinearAllocator.Blocks.{grown}
use java_profiler.LinearAllocator.Valid.{IsValid, chunk_of}
use java_profiler.LinearAllocator.{
  LinearAllocator, header, get_next_chunk, Result, null, after_next, alloc_loop, alloc,
}

abbrev renewed : LinearAllocator → LinearAllocator
renewed a = record (grown (some a.tail) a) { reserve = a.next; tail = a.next }

next_new :
    (a : LinearAllocator)
    → (a.reserve == a.tail) ≡ true
    → (a.left == 0) ≡ false
    → get_next_chunk a.tail a ≡ some (a.next, renewed a)
unfolding get_next_chunk
next_new a q z = rw q (rw (z, q) (rw (==_refl a.tail) refl))

next_none :
    (a : LinearAllocator)
    → (a.reserve == a.tail) ≡ true
    → (a.left == 0) ≡ true
    → get_next_chunk a.tail a ≡ none
unfolding get_next_chunk
next_none a q z = rw q (rw z refl)

next_old :
    (a : LinearAllocator)
    → (a.reserve == a.tail) ≡ false
    → get_next_chunk a.tail a ≡ some (a.reserve, record a { tail = a.reserve })
unfolding get_next_chunk
next_old a q = rw q (rw (==_refl a.tail) refl)

abbrev Exhausts : Result → Type 0
Exhausts r = (a' : LinearAllocator) × (r ≡ null a') × (a'.left ≡ 0)

-- A round that finds no room.
full_round :
    (fuel size : ℕ) (a : LinearAllocator)
    → IsValid a
    → a.chunk_size < header + size
    → a.chunk_size + size < 2 ^ 64
    → alloc_loop (suc fuel) size a.tail a
      ≡ after_next (get_next_chunk a.tail a) (alloc_loop fuel size) a
full_round fuel size a v over small =
    let (c, e, _) = chunk_of _ v.chained.tail_live.0 v.chained.tail_live.1 in
    round-next fuel size a c e
      (omega (arith, (v.filled a.tail c e).0, (v.filled a.tail c e).1, small))

-- One more chunk a round, as long as there are any.
exhausts :
    (fuel size : ℕ) (a : LinearAllocator)
    → IsValid a
    → a.reserve ≡ a.tail
    → a.left < fuel
    → a.chunk_size < header + size
    → a.chunk_size + size < 2 ^ 64
    → Exhausts (alloc_loop fuel size a.tail a)
unfolding after_next
exhausts zero size a v same enough over small = absurd (omega arith)
exhausts (suc fuel) size a v same enough over small =
    let q : (a.reserve == a.tail) ≡ true = ground arith in
    elim (Bool-cases (a.left == 0)) [
      | inl z ↦ (a, full_round fuel size a v over small ∙ rw (next_none a q z) refl, ground arith)
      | inr z ↦
          let n = new-NextChunk a v same in
          let some_left : 0 < a.left = ground arith in
          let (a', ran, gone) =
            exhausts fuel size (renewed a) n.valid refl (omega arith) over small in
          (a', full_round fuel size a v over small ∙ rw (next_new a q z) ran, gone)
    ]

-- In a valid chain, for a block that is larger than a chunk less its header, but so small that the sizes of the two do not
-- add up to 2 ^ 64, `alloc` takes chunk after chunk: it returns only when the system gives no more
-- memory, and then returns NULL.
pub alloc_oversize :
    (size : ℕ) (a : LinearAllocator)
    → IsValid a
    → a.chunk_size < header + size
    → a.chunk_size + size < 2 ^ 64
    → (a' : LinearAllocator) × (alloc (suc (suc a.left)) size a ≡ null a') × (a'.left ≡ 0)
unfolding alloc after_next
alloc_oversize size a v over small = elim (Bool-cases (a.reserve == a.tail)) [
  | inr q ↦
      let n = old-NextChunk a v q in
      let (a', ran, gone) =
        exhausts (suc a.left) size (record a { tail = a.reserve }) n.valid refl (omega arith) over
          small in
      (a', full_round (suc a.left) size a v over small ∙ rw (next_old a q) ran, gone)
  | inl q ↦ exhausts (suc (suc a.left)) size a v (ground arith) (omega arith) over small
]
