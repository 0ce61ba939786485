-- ===== src/LinearAllocator/Blocks.antt =====
-- A new reserve, and a chunk that is filled further.
use java_profiler.Base.{
  ℕ, ◌+◌, ◌-◌, ◌≤◌, ◌<◌, false, ◌==◌, ==_refl, update, Option, none, some, ◌≡◌, refl, sym, ap, ◌∙◌,
  arith, Bool-cases, inl, inr,
}
use java_profiler.LinearAllocator.Valid.{
  link, links, IsValid, live_below, Chained-ext, Chained-reserve, links-update,
}
use java_profiler.LinearAllocator.{
  Chunk, LinearAllocator, header, free_chunk, publish, reserve_chunk,
}

-- The chunks that were there stay as they are, and so do the tail and the size of a chunk.
pub record Keeps (a a' : LinearAllocator) : Type 0 where
  pub chunks_kept : (i : ℕ) (c : Chunk) → a.heap i ≡ some c → a'.heap i ≡ some c
  pub tail_kept : a'.tail ≡ a.tail
  pub size_kept : a'.chunk_size ≡ a.chunk_size

abbrev fresh_chunk : Option ℕ → Chunk
fresh_chunk current = record { prev = current; offs = header }

-- The allocator with the chunk that `allocate_chunk` gives.
abbrev pub grown : Option ℕ → LinearAllocator → LinearAllocator
grown current a = record a {
  heap = update a.heap a.next (some (fresh_chunk current));
  next = a.next + 1;
  chunks = a.chunks + 1;
  left = a.left - 1;
}

heap_below :
    (a : LinearAllocator) → IsValid a → (i : ℕ) (c : Chunk) → a.heap i ≡ some c → i < a.next
heap_below a v i c e = live_below v.chained i c.prev (ap link e)

grown-heap :
    (current : Option ℕ) (a : LinearAllocator)
    → IsValid a
    → (i : ℕ) (c : Chunk) → a.heap i ≡ some c
    → (grown current a).heap i ≡ some c
grown-heap current a v i c e =
    let lt = heap_below a v i c e in let other : (a.next == i) ≡ false = ground arith in rw other e

-- Where the tail was the reserve, the new chunk takes that place.
pub reserved-IsValid :
    (a : LinearAllocator)
    → IsValid a
    → a.reserve ≡ a.tail
    → IsValid (record (grown (some a.tail) a) { reserve = a.next })
reserved-IsValid a v same = record {
  chained =
      Chained-ext (Chained-reserve v.chained same) _ (a.next + 1)
        (λ i. links-update a.heap a.next (some (fresh_chunk (some a.tail))) i) (omega arith);
  room = v.room;
  addressable = v.addressable;
  filled = λ i c e. elim (Bool-cases (a.next == i)) [
    | inl q ↦
        let new : some (fresh_chunk (some a.tail)) ≡ some c = rw q at e in
        let here : fresh_chunk (some a.tail) ≡ c = cc in rw (← here) (omega arith, v.room)
    | inr q ↦ v.filled i c (rw q at e)
  ];
  empty = λ apart c e.
      let new : some (fresh_chunk (some a.tail)) ≡ some c = rw (==_refl a.next) at e in
      let here : fresh_chunk (some a.tail) ≡ c = cc in rw (← here) refl;
}

-- A chunk that comes too late is freed again.
late-IsValid :
    (a : LinearAllocator) → IsValid a → IsValid (free_chunk a.next (grown (some a.tail) a))
unfolding free_chunk
late-IsValid a v =
    let heap' = update (update a.heap a.next (some (fresh_chunk (some a.tail)))) a.next none in
    let same : (i : ℕ) → heap' i ≡ a.heap i = λ i. elim (Bool-cases (a.next == i)) [
      | inl q ↦ let here : a.next ≡ i = ground arith in rw q (sym (gone i (omega arith)))
      | inr q ↦ rw q refl
    ] in
    record {
      chained =
          Chained-ext v.chained (links heap') (a.next + 1) (λ i. ap link (same i)) (omega arith);
      room = v.room;
      addressable = v.addressable;
      filled = λ i c e. v.filled i c (sym (same i) ∙ e);
      empty = λ apart c e. v.empty apart c (sym (same a.reserve) ∙ e);
    }
  where
    gone : (i : ℕ) → a.next ≤ i → a.heap i ≡ none
    gone i le = none_of (a.heap i) (v.chained.unused i le)
      where
        none_of : (o : Option Chunk) → link o ≡ none → o ≡ none
        none_of none e = refl
        none_of (some c) e = absurd (cc)

late-Keeps : (a : LinearAllocator) → IsValid a → Keeps a (free_chunk a.next (grown (some a.tail) a))
unfolding free_chunk
late-Keeps a v = record {
  chunks_kept = λ i c e.
      let lt = heap_below a v i c e in
      let other : (a.next == i) ≡ false = ground arith in rw other e;
  tail_kept = refl;
  size_kept = refl;
}

publish-fine :
    (a : LinearAllocator)
    → IsValid a
    → IsValid (publish a.tail a.next (grown (some a.tail) a))
      × Keeps a (publish a.tail a.next (grown (some a.tail) a))
unfolding publish
publish-fine a v = elim (Bool-cases (a.reserve == a.tail)) [
  | inl q ↦
      let same : a.reserve ≡ a.tail = ground arith in
      rw q (
        reserved-IsValid a v same,
        record { chunks_kept = grown-heap (some a.tail) a v; tail_kept = refl; size_kept = refl },
      )
  | inr q ↦ rw q (late-IsValid a v, late-Keeps a v)
]

pub reserve_chunk-fine :
    (a : LinearAllocator)
    → IsValid a
    → IsValid (reserve_chunk a.tail a) × Keeps a (reserve_chunk a.tail a)
unfolding reserve_chunk
reserve_chunk-fine a v = elim (Bool-cases (a.left == 0)) [
  | inl q ↦ rw q (v, record { chunks_kept = λ i c e. e; tail_kept = refl; size_kept = refl })
  | inr q ↦ rw q (publish-fine a v)
]

-- A chunk at the tail that is filled up to an offset.
abbrev pub filled_to : (o : ℕ) → Chunk → LinearAllocator → LinearAllocator
filled_to o c a = record a { heap = update a.heap a.tail (some (record c { offs = o })) }

pub filled_to-IsValid :
    (o : ℕ) (c : Chunk) (a : LinearAllocator)
    → IsValid a
    → a.heap a.tail ≡ some c
    → header ≤ o
    → o ≤ a.chunk_size
    → IsValid (filled_to o c a)
filled_to-IsValid o c a v e low high = record {
  chained = Chained-ext v.chained _ a.next same (omega arith);
  room = v.room;
  addressable = v.addressable;
  filled = λ i d l. elim (Bool-cases (a.tail == i)) [
    | inl q ↦
        let new : some (record c { offs = o }) ≡ some d = rw q at l in
        let here : record c { offs = o } ≡ d = cc in rw (← here) (low, high)
    | inr q ↦ v.filled i d (rw q at l)
  ];
  empty = λ apart d l.
      let other : (a.tail == a.reserve) ≡ false = ground arith in v.empty apart d (rw other at l);
}
  where
    same : (i : ℕ) → links (update a.heap a.tail (some (record c { offs = o }))) i ≡ links a.heap i
    same i = elim (Bool-cases (a.tail == i)) [
      | inl q ↦
          let here : a.tail ≡ i = ground arith in
          rw (← here) (rw (==_refl a.tail) (sym (ap link e)))
      | inr q ↦ rw q refl
    ]
