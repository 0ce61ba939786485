-- ===== src/LinearAllocator/Alloc.antt =====
-- `alloc` at a block that a chunk has room for, and at one that it has not.
use java_profiler.Base.{
  ℕ, suc, ◌+◌, ◌%◌, ◌^◌, ◌≤◌, ◌<◌, Bool, true, false, ◌==◌, ==_refl, leb, if◌then◌else◌, Option,
  none, some, ◌≡◌, ◌⊎◌, refl, ap, ◌∙◌, arith, Bool-cases, inl, inr,
}
use java_profiler.LinearAllocator.Blocks.{
  Keeps, grown, reserved-IsValid, reserve_chunk-fine, filled_to, filled_to-IsValid,
}
use java_profiler.LinearAllocator.Valid.{
  link, links, IsValid, live_below, Chained-advance, chunk_of,
}
use native.Mathlib.Decide.{dec_lt}
use java_profiler.LinearAllocator.{
  Chunk, LinearAllocator, header, get_next_chunk, passes_middle, reserve_chunk, bump, Result, block,
  null, after_next, in_chunk, alloc_loop, alloc,
}

-- A block of a chunk, behind what was filled of it.
pub record Allocated (size chunk offs : ℕ) (a a' : LinearAllocator) : Type 0 where
  pub inside : (header ≤ offs) × (offs + size ≤ a.chunk_size)
  pub fresh :
      ((a.heap chunk ≡ none) × (offs ≡ header))
      ⊎ ((c : Chunk) × (a.heap chunk ≡ some c) × (c.offs ≡ offs))
  pub filled : (c : Chunk) × (a'.heap chunk ≡ some c) × (c.offs ≡ offs + size)
  pub others : (i : ℕ) (c : Chunk) → (chunk == i) ≡ false → a.heap i ≡ some c → a'.heap i ≡ some c
  pub valid : IsValid a'

-- A call that gives a block, or NULL where memory ran out.
pub data Gives (size : ℕ) (a : LinearAllocator) : Result → Type 0 where
  gave :
      {chunk offs : ℕ} {a' : LinearAllocator}
      → Allocated size chunk offs a a'
      → Gives size a (block chunk offs a')
  out_of_memory : a.left ≡ 0 → Gives size a (null a)

maybe_reserve :
    (test : Bool) (a : LinearAllocator)
    → IsValid a
    → IsValid (if test then reserve_chunk a.tail a else a)
      × Keeps a (if test then reserve_chunk a.tail a else a)
maybe_reserve true a v = reserve_chunk-fine a v
maybe_reserve false a v =
    (v, record { chunks_kept = λ i c e. e; tail_kept = refl; size_kept = refl })

-- The fast path at the tail.
bump-Allocated :
    (size : ℕ) (c : Chunk) (a : LinearAllocator)
    → IsValid a
    → a.heap a.tail ≡ some c
    → c.offs + size ≤ a.chunk_size
    → Allocated size a.tail c.offs a (bump a.tail size c a)
unfolding bump
bump-Allocated size c a v e fits =
    let low = (v.filled a.tail c e).0 in
    let upper = v.addressable in
    let whole : (c.offs + size) % 2 ^ 64 ≡ c.offs + size = omega arith in
    let b = filled_to ((c.offs + size) % 2 ^ 64) c a in
    let (valid, kept) =
      maybe_reserve (passes_middle a.chunk_size c.offs size) b
        (filled_to-IsValid ((c.offs + size) % 2 ^ 64) c a v e (omega arith) (omega arith)) in
    let here : b.heap a.tail ≡ some (record c { offs = (c.offs + size) % 2 ^ 64 }) =
      rw (==_refl a.tail) refl in
    record {
      inside = (low, fits);
      fresh = inr (c, e, refl);
      filled =
          (record c { offs = (c.offs + size) % 2 ^ 64 }, kept.chunks_kept a.tail _ here, whole);
      others = λ i d apart l. kept.chunks_kept i d (rw apart l);
      valid = valid;
    }

advanced-IsValid :
    (a : LinearAllocator)
    → IsValid a
    → links a.heap a.reserve ≡ some (some a.tail)
    → IsValid (record a { tail = a.reserve })
advanced-IsValid a v l = record {
  chained = Chained-advance v.chained l;
  room = v.room;
  addressable = v.addressable;
  filled = v.filled;
  empty = λ apart c e. let self = ==_refl a.reserve in absurd (cc);
}

-- The next chunk of the tail: an empty one, which is the tail by then.
pub record NextChunk (a : LinearAllocator) (r : ℕ) (a' : LinearAllocator) : Type 0 where
  pub is_tail : r ≡ a'.tail
  pub valid : IsValid a'
  pub size_kept : a'.chunk_size ≡ a.chunk_size
  pub empty : (c : Chunk) × (a'.heap r ≡ some c) × (c.offs ≡ header)
  pub fresh : (a.heap r ≡ none) ⊎ (a.heap r ≡ a'.heap r)
  pub others : (i : ℕ) (c : Chunk) → a.heap i ≡ some c → a'.heap i ≡ some c

data Nexts (a : LinearAllocator) : Option (ℕ × LinearAllocator) → Type 0 where
  next_chunk : {r : ℕ} {a' : LinearAllocator} → NextChunk a r a' → Nexts a (some (r, a'))
  no_chunk : a.left ≡ 0 → Nexts a none

none_of : (o : Option Chunk) → link o ≡ none → o ≡ none
none_of none e = refl
none_of (some c) e = absurd (cc)

pub new-NextChunk :
    (a : LinearAllocator)
    → IsValid a
    → a.reserve ≡ a.tail
    → NextChunk a a.next (record (grown (some a.tail) a) { reserve = a.next; tail = a.next })
new-NextChunk a v same =
    let b = record (grown (some a.tail) a) { reserve = a.next } in
    let here : b.heap a.next ≡ some (record { prev = some a.tail; offs = header }) =
      rw (==_refl a.next) refl in
    record {
      is_tail = refl;
      valid = advanced-IsValid b (reserved-IsValid a v same) (ap link here);
      size_kept = refl;
      empty = (record { prev = some a.tail; offs = header }, here, refl);
      fresh = inl (none_of (a.heap a.next) (v.chained.unused a.next (omega arith)));
      others = λ i c e.
          let lt = live_below v.chained i c.prev (ap link e) in
          let other : (a.next == i) ≡ false = ground arith in rw other e;
    }

apart_link :
    (a : LinearAllocator)
    → (a.reserve ≡ a.tail) ⊎ (links a.heap a.reserve ≡ some (some a.tail))
    → (a.reserve == a.tail) ≡ false
    → links a.heap a.reserve ≡ some (some a.tail)
apart_link a (inl e) apart = let ne : ¬ (a.reserve ≡ a.tail) = ground arith in absurd (ne e)
apart_link a (inr e) apart = e

pub old-NextChunk :
    (a : LinearAllocator)
    → IsValid a
    → (a.reserve == a.tail) ≡ false
    → NextChunk a a.reserve (record a { tail = a.reserve })
old-NextChunk a v apart =
    let l = apart_link a v.chained.ahead apart in
    let (c, e, _) = chunk_of (a.heap a.reserve) (some a.tail) l in
    record {
      is_tail = refl;
      valid = advanced-IsValid a v l;
      size_kept = refl;
      empty = (c, e, v.empty apart c e);
      fresh = inr refl;
      others = λ i c e. e;
    }

get_next_chunk-Nexts : (a : LinearAllocator) → IsValid a → Nexts a (get_next_chunk a.tail a)
unfolding get_next_chunk
get_next_chunk-Nexts a v = elim (Bool-cases (a.reserve == a.tail)) [
  | inr q ↦ rw q (rw (==_refl a.tail) (next_chunk (old-NextChunk a v q)))
  | inl q ↦ rw q (elim (Bool-cases (a.left == 0)) [
    | inl z ↦ rw z (no_chunk (ground arith))
    | inr z ↦
        let same : a.reserve ≡ a.tail = ground arith in
        rw (z, q) (rw (==_refl a.tail) (next_chunk (new-NextChunk a v same)))
  ])
]

-- A round at the tail, where there is room in its chunk.
round-Gives :
    (fuel size : ℕ) (a : LinearAllocator) (c : Chunk)
    → IsValid a
    → a.heap a.tail ≡ some c
    → c.offs + size ≤ a.chunk_size
    → alloc_loop (suc fuel) size a.tail a ≡ block a.tail c.offs (bump a.tail size c a)
unfolding alloc_loop
round-Gives fuel size a c v e fits =
    let upper = v.addressable in
    let whole : (c.offs + size) % 2 ^ 64 ≡ c.offs + size = omega arith in
    let room : leb ((c.offs + size) % 2 ^ 64) a.chunk_size ≡ true = rw whole (ground arith) in
    in_chunk-here e room
  where
    in_chunk-here :
        a.heap a.tail ≡ some c
        → leb ((c.offs + size) % 2 ^ 64) a.chunk_size ≡ true
        → in_chunk size a.tail (a.heap a.tail) (alloc_loop fuel size) a
          ≡ block a.tail c.offs (bump a.tail size c a)
    in_chunk-here e room =
        ap (λ o. in_chunk size a.tail o (alloc_loop fuel size) a) e
        ∙ unfold in_chunk in rw room refl

pub round-next :
    (fuel size : ℕ) (a : LinearAllocator) (c : Chunk)
    → a.heap a.tail ≡ some c
    → a.chunk_size < (c.offs + size) % 2 ^ 64
    → alloc_loop (suc fuel) size a.tail a
      ≡ after_next (get_next_chunk a.tail a) (alloc_loop fuel size) a
unfolding alloc_loop
round-next fuel size a c e full =
    let none_left : leb ((c.offs + size) % 2 ^ 64) a.chunk_size ≡ false = ground arith in
    ap (λ o. in_chunk size a.tail o (alloc_loop fuel size) a) e
    ∙ unfold in_chunk in rw none_left refl

-- A block of the next chunk, seen from the chunks before.
block_of_next :
    (size : ℕ) (a b d : LinearAllocator) (c : Chunk)
    → NextChunk a b.tail b
    → b.heap b.tail ≡ some c
    → c.offs ≡ header
    → Allocated size b.tail c.offs b d
    → Allocated size b.tail c.offs a d
block_of_next size a b d c n e at r = record {
  inside = (r.inside.0, omega (arith, r.inside.1, n.size_kept));
  fresh = elim n.fresh [ inl gone ↦ inl (gone, at) | inr same ↦ inr (c, same ∙ e, refl) ];
  filled = r.filled;
  others = λ i x apart l. r.others i x apart (n.others i x l);
  valid = r.valid;
}

in_next :
    (fuel size : ℕ) (a b : LinearAllocator)
    → NextChunk a b.tail b
    → header + size ≤ a.chunk_size
    → Gives size a (alloc_loop (suc fuel) size b.tail b)
in_next fuel size a b n fits =
    let (c, e, at) = n.empty in
    let room : c.offs + size ≤ b.chunk_size = omega (arith, n.size_kept, at) in
    rw (round-Gives fuel size b c n.valid e room) (
      gave (
        block_of_next size a b (bump b.tail size c b) c n e at
          (bump-Allocated size c b n.valid e room)))

after_next-Gives :
    (fuel size : ℕ) (a : LinearAllocator) (o : Option (ℕ × LinearAllocator))
    → header + size ≤ a.chunk_size
    → Nexts a o
    → Gives size a (after_next o (alloc_loop (suc fuel) size) a)
unfolding after_next
after_next-Gives fuel size a none fits (no_chunk z) = out_of_memory z
after_next-Gives fuel size a (some (r, b)) fits (next_chunk n) =
    let tail : NextChunk a b.tail b = rw n.is_tail at n in
    rw n.is_tail (in_next fuel size a b tail fits)

-- A block that some chunk has room for is given within two rounds of the loop, unless memory has run out
-- and the call returns NULL. The block lies inside its chunk, behind the header and behind all that was
-- filled of the chunk before; what was filled of the other chunks stays, and the chunks form a valid chain.
pub alloc-Gives :
    (fuel size : ℕ) (a : LinearAllocator)
    → IsValid a
    → header + size ≤ a.chunk_size
    → Gives size a (alloc (suc (suc fuel)) size a)
unfolding alloc
alloc-Gives fuel size a v fits =
    let (c, e, _) = chunk_of (a.heap a.tail) v.chained.tail_live.0 v.chained.tail_live.1 in
    elim (dec_lt a.chunk_size (c.offs + size)) [
      | yes full ↦
          rw
            (round-next (suc fuel) size a c e
              (omega (arith, full, fits, v.addressable, (v.filled a.tail c e).1)))
            (after_next-Gives fuel size a (get_next_chunk a.tail a) fits (get_next_chunk-Nexts a v))
      | no room ↦
          rw (round-Gives (suc fuel) size a c v e (omega arith))
            (gave (bump-Allocated size c a v e (omega arith)))
    ]
