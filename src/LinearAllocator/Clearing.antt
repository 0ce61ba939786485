-- ===== src/LinearAllocator/Clearing.antt =====
-- `clear` frees all chunks but the first.
use java_profiler.Base.{
  ℕ, ◌+◌, ◌^◌, ◌≤◌, ◌<◌, false, ◌==◌, ==_refl, update, Option, none, some, ◌>>=◌, ◌≡◌, refl, sym,
  ap, ◌∙◌, arith, Bool-cases, inl, inr,
}
use java_profiler.LinearAllocator.Valid.{link, links, IsValid, live_below}
use java_profiler.LinearAllocator.{
  Chunk, LinearAllocator, header, clear_loop, rewind, drop_reserve, clear, new,
}
use java_profiler.LinearAllocator.Unwinding.{clear_loop-Ends, drop_reserve-Descends}

-- One empty chunk alone.
pub alone-IsValid :
    (a : LinearAllocator)
    → a.heap a.tail ≡ some (record { prev = none; offs = header })
    → ((i : ℕ) → (a.tail == i) ≡ false → a.heap i ≡ none)
    → a.reserve ≡ a.tail
    → a.tail < a.next
    → header ≤ a.chunk_size
    → a.chunk_size ≤ 2 ^ 63
    → IsValid a
alone-IsValid a e others same low room upper =
    let here : links a.heap a.tail ≡ some none = ap link e in
    let away : (i : ℕ) → (a.tail == i) ≡ false → links a.heap i ≡ none =
      λ i apart. ap link (others i apart) in
    let base : (i : ℕ) (q : Option ℕ) → links a.heap i ≡ some q → a.tail ≡ i = λ i q l.
      elim (Bool-cases (a.tail == i)) [
        | inl same ↦ ground arith
        | inr apart ↦ let wrong = away i apart in absurd (cc)
      ] in
    record {
      chained = record {
        unused = λ i le. away i (ground arith);
        linked = λ i j l.
            let at = base i (some j) l in
            let wrong : some none ≡ some (some j) = sym here ∙ ap (links a.heap) at ∙ l in
            absurd (cc);
        bottom = λ i l k lt. let at = base i none l in away k (ground arith);
        top = λ i lt apart. away i (ground arith);
        tail_live = (none, here);
        ahead = inl same;
      };
      room = room;
      addressable = upper;
      filled = λ i d l.
          let at = base i d.prev (ap link l) in
          let first : some (record { prev = none; offs = header }) ≡ some d =
            sym e ∙ ap a.heap at ∙ l in
          let empty : record { prev = none; offs = header } ≡ d = cc in
          rw (← empty) (omega arith, room);
      empty = λ apart d l. let ne : ¬ (a.reserve ≡ a.tail) = ground arith in absurd (ne same);
    }

-- A constructed allocator is valid.
pub new-IsValid :
    (chunk_size left : ℕ)
    → header ≤ chunk_size
    → chunk_size ≤ 2 ^ 63
    → 0 < left
    → (a : LinearAllocator) × (new chunk_size left ≡ some a)
      × IsValid a
      × (a.chunk_size ≡ chunk_size)
unfolding new
new-IsValid chunk_size left room upper some_left =
    let gives : (left == 0) ≡ false = ground arith in
    rw gives
      (_, refl, alone-IsValid _ refl (λ i apart. rw apart refl) refl (omega arith) room upper, refl)

rewound :
    (a : LinearAllocator) (c : Chunk)
    → a.heap a.tail ≡ some c
    → rewind a
      ≡ some (record a {
        reserve = a.tail;
        heap = update a.heap a.tail (some (record c { offs = header }));
      })
unfolding rewind
rewound a c e = rw e refl

-- The three steps of `clear`.
clear-steps :
    (a b c : LinearAllocator)
    → drop_reserve a ≡ some b
    → clear_loop (b.tail + 1) b.tail b ≡ some c
    → clear a ≡ rewind c
unfolding clear
clear-steps a b c first second =
    ap (λ o. (o >>= λ x. clear_loop (x.tail + 1) x.tail x >>= λ y. rewind y)) first
    ∙ ap (λ o. (o >>= λ y. rewind y)) second

-- Clearing a valid chain returns: just one chunk is left, one without a chunk before it; it is empty, it is
-- the tail and the reserve, and the chain is valid.
pub clear-alone :
    (a : LinearAllocator)
    → IsValid a
    → (a' : LinearAllocator) × (clear a ≡ some a')
      × IsValid a'
      × (a'.reserve ≡ a'.tail)
      × (a'.heap a'.tail ≡ some (record { prev = none; offs = header }))
      × ((i : ℕ) → (a'.tail == i) ≡ false → a'.heap i ≡ none)
clear-alone a v =
    let (b, dropped, d, tail, next, size) = drop_reserve-Descends a v in
    let (c, ran, alone, size', next', le) = clear_loop-Ends (b.tail + 1) b (omega arith) d in
    let (x, e, last) = alone.first in
    let tail_below = live_below v.chained a.tail v.chained.tail_live.0 v.chained.tail_live.1 in
    (
      record c {
        reserve = c.tail;
        heap = update c.heap c.tail (some (record x { offs = header }));
      },
      clear-steps a b c dropped ran ∙ rewound c x e,
      alone-IsValid
          (record c {
            reserve = c.tail;
            heap = update c.heap c.tail (some (record x { offs = header }));
          })
          (rw (==_refl c.tail) (rw last refl)) (λ i apart. rw apart (alone.others i apart)) refl
          (omega (arith, tail, next, next', le)) (omega (arith, size, size', v.room))
          (omega (arith, size, size', v.addressable)),
      refl,
      rw (==_refl c.tail) (rw last refl),
      λ i apart. rw apart (alone.others i apart),
    )
