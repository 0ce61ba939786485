-- ===== src/LinearAllocator/Unwinding.antt =====
-- The loop of `clear`, down the chain.
use java_profiler.Base.{
  ℕ, zero, suc, ◌≤◌, ◌<◌, true, false, ◌==◌, ==_refl, if◌then◌else◌, update, Option, none, some,
  ◌≡◌, refl, sym, ap, ◌∙◌, arith, Bool-cases, inl, inr,
}
use java_profiler.LinearAllocator.Valid.{link, links, IsValid, chunk_of}
use java_profiler.LinearAllocator.{
  Chunk, LinearAllocator, free_chunk, to_prev, clear_loop, is_prev, drop_reserve, clear,
}
use native.Mathlib.Decide.{dec_lt}

-- The chain from a chunk down, with nothing above.
pub record Descends (t : ℕ) (ls : ℕ → Option (Option ℕ)) : Type 0 where
  pub linked :
      (i j : ℕ)
      → ls i ≡ some (some j)
      → (j < i) × ((p : Option ℕ) × (ls j ≡ some p)) × ((k : ℕ) → j < k → k < i → ls k ≡ none)
  pub bottom : (i : ℕ) → ls i ≡ some none → (k : ℕ) → k < i → ls k ≡ none
  pub above : (i : ℕ) → t < i → ls i ≡ none
  pub live : (p : Option ℕ) × (ls t ≡ some p)

-- The chain without its upmost chunk.
module _ {t : ℕ} {ls : ℕ → Option (Option ℕ)} (d : Descends t ls) (p : ℕ)
    (at : ls t ≡ some (some p)) (ls' : ℕ → Option (Option ℕ)) (gone : ls' t ≡ none)
    (old : (i : ℕ) → (t == i) ≡ false → ls' i ≡ ls i) where
  -- A chunk that is left lies below the one that is gone.
  left_below : (i : ℕ) (q : Option ℕ) → ls' i ≡ some q → (i < t) × (ls i ≡ some q)
  left_below i q e = elim (Bool-cases (t == i)) [
    | inl same ↦
        let here : t ≡ i = ground arith in
        let wrong : none ≡ some q = sym gone ∙ ap ls' here ∙ e in absurd (cc)
    | inr apart ↦
        let l : ls i ≡ some q = sym (old i apart) ∙ e in
        elim (dec_lt t i) [
          | yes over ↦ let wrong = d.above i over in absurd (cc)
          | no under ↦ (ground arith, l)
        ]
  ]

  none_left : (i : ℕ) → ls i ≡ none → ls' i ≡ none
  none_left i e = elim (Bool-cases (t == i)) [
    | inl same ↦ let here : t ≡ i = ground arith in rw (← here) gone
    | inr apart ↦ old i apart ∙ e
  ]

  Descends-prev : Descends p ls'
  Descends-prev =
      let (below, (q, l), between) = d.linked t p at in
      record {
        linked = λ i j e.
            let (lt, e') = left_below i (some j) e in
            let (less, (r, m), clear) = d.linked i j e' in
            (less, (r, old j (ground arith) ∙ m), λ k a b. none_left k (clear k a b));
        bottom = λ i e k lt. let (_, e') = left_below i none e in none_left k (d.bottom i e' k lt);
        above = λ i lt. elim (dec_lt i t) [
          | yes under ↦ none_left i (between i lt under)
          | no over ↦ elim (dec_lt t i) [
            | yes higher ↦ none_left i (d.above i higher)
            | no same ↦ let here : t ≡ i = omega arith in rw (← here) gone
          ]
        ];
        live = (q, old p (ground arith) ∙ l);
      }

-- Only the chunk at the tail is there, and it is the first.
pub record IsAlone (a : LinearAllocator) : Type 0 where
  pub others : (i : ℕ) → (a.tail == i) ≡ false → a.heap i ≡ none
  pub first : (c : Chunk) × (a.heap a.tail ≡ some c) × (c.prev ≡ none)

none_of : (o : Option Chunk) → link o ≡ none → o ≡ none
none_of none e = refl
none_of (some c) e = absurd (cc)

abbrev pub Ends : Option LinearAllocator → LinearAllocator → Type 0
Ends o a =
    (a' : LinearAllocator) × (o ≡ some a')
    × IsAlone a'
    × (a'.chunk_size ≡ a.chunk_size)
    × (a'.next ≡ a.next)
    × (a'.tail ≤ a.tail)

bottom-IsAlone :
    (a : LinearAllocator) (c : Chunk)
    → Descends a.tail (links a.heap)
    → a.heap a.tail ≡ some c
    → c.prev ≡ none
    → IsAlone a
bottom-IsAlone a c d e last = record {
  others = λ i apart. elim (dec_lt i a.tail) [
    | yes under ↦ none_of (a.heap i) (d.bottom a.tail (ap link e ∙ ap some last) i under)
    | no over ↦ none_of (a.heap i) (d.above i (ground arith))
  ];
  first = (c, e, last);
}

to_prev-Ends :
    (o : Option ℕ) (c : Chunk) (a : LinearAllocator)
    (again : ℕ → LinearAllocator → Option LinearAllocator)
    → a.heap a.tail ≡ some c
    → c.prev ≡ o
    → Descends a.tail (links a.heap)
    → ((b : LinearAllocator)
        → b.tail < a.tail
        → Descends b.tail (links b.heap)
        → Ends (again b.tail b) b)
    → Ends (to_prev a.tail o again a) a
unfolding to_prev
to_prev-Ends none c a again e last d go =
    (a, refl, bottom-IsAlone a c d e last, refl, refl, omega arith)
to_prev-Ends (some p) c a again e at d go =
    let l : links a.heap a.tail ≡ some (some p) = ap link e ∙ ap some at in
    let (below, _, _) = d.linked a.tail p l in
    let b = free_chunk a.tail (record a { tail = p }) in
    let lower : Descends p (links (update a.heap a.tail none)) =
      Descends-prev d p l (links (update a.heap a.tail none)) (rw (==_refl a.tail) refl)
        (λ i apart. rw apart refl) in
    let (a', ran, alone, size, next, le) = go b below lower in
    (a', ran, alone, size, next, omega arith)

pub clear_loop-Ends :
    (fuel : ℕ) (a : LinearAllocator)
    → a.tail < fuel
    → Descends a.tail (links a.heap)
    → Ends (clear_loop fuel a.tail a) a
unfolding clear_loop
clear_loop-Ends zero a enough d = absurd (omega arith)
clear_loop-Ends (suc fuel) a enough d =
    let (c, e, _) = chunk_of (a.heap a.tail) d.live.0 d.live.1 in
    let rest =
      to_prev-Ends c.prev c a (clear_loop fuel) e refl d
        (λ b lt low. clear_loop-Ends fuel b (omega arith) low) in
    rw e rest

drop_reserve_eq :
    (a : LinearAllocator) (c : Chunk)
    → a.heap a.reserve ≡ some c
    → drop_reserve a ≡ some (if is_prev c.prev a.tail then free_chunk a.reserve a else a)
unfolding drop_reserve
drop_reserve_eq a c e = rw e refl

is_prev-some : (o : Option ℕ) (i : ℕ) → o ≡ some i → is_prev o i ≡ true
unfolding is_prev
is_prev-some none i e = absurd (cc)
is_prev-some (some j) i e = let at : j ≡ i = cc in rw at (==_refl i)

-- The tail is not the chunk before itself.
not_own_prev :
    (a : LinearAllocator)
    → IsValid a
    → (o : Option ℕ) → links a.heap a.tail ≡ some o
    → is_prev o a.tail ≡ false
unfolding is_prev
not_own_prev a v none l = refl
not_own_prev a v (some j) l = let (lt, _, _) = v.chained.linked a.tail j l in ground arith

kept_chain : (a : LinearAllocator) → IsValid a → a.reserve ≡ a.tail → Descends a.tail (links a.heap)
kept_chain a v same = record {
  linked = v.chained.linked;
  bottom = v.chained.bottom;
  above = λ i lt. v.chained.top i lt (ground arith);
  live = v.chained.tail_live;
}

freed_chain :
    (a : LinearAllocator)
    → IsValid a
    → links a.heap a.reserve ≡ some (some a.tail)
    → Descends a.tail (links (update a.heap a.reserve none))
freed_chain a v e =
    let (below, _, _) = v.chained.linked a.reserve a.tail e in
    let whole : Descends a.reserve (links a.heap) = record {
      linked = v.chained.linked;
      bottom = v.chained.bottom;
      above = λ i lt. v.chained.top i (omega arith) (ground arith);
      live = (some a.tail, e);
    } in
    Descends-prev whole a.tail e (links (update a.heap a.reserve none))
      (rw (==_refl a.reserve) refl) (λ i apart. rw apart refl)

-- The chain under the tail, once the reserve is gone.
pub drop_reserve-Descends :
    (a : LinearAllocator)
    → IsValid a
    → (b : LinearAllocator) × (drop_reserve a ≡ some b)
      × Descends b.tail (links b.heap)
      × (b.tail ≡ a.tail)
      × (b.next ≡ a.next)
      × (b.chunk_size ≡ a.chunk_size)
drop_reserve-Descends a v = elim v.chained.ahead [
  | inl same ↦
      let (c, e, at) = chunk_of (a.heap a.tail) v.chained.tail_live.0 v.chained.tail_live.1 in
      let own = not_own_prev a v c.prev (ap link e) in
      (
        a,
        drop_reserve_eq a c (ap a.heap same ∙ e) ∙ rw own refl,
        kept_chain a v same,
        refl,
        refl,
        refl,
      )
  | inr e ↦
      let (c, l, at) = chunk_of (a.heap a.reserve) (some a.tail) e in
      let prev : is_prev c.prev a.tail ≡ true = is_prev-some c.prev a.tail at in
      (
        free_chunk a.reserve a,
        drop_reserve_eq a c l ∙ rw prev refl,
        unfold free_chunk in freed_chain a v e,
        unfold free_chunk in refl,
        unfold free_chunk in refl,
        unfold free_chunk in refl,
      )
]
