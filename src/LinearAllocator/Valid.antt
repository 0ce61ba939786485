-- ===== src/LinearAllocator/Valid.antt =====
-- The chain of chunks, and the steps that keep it.
use java_profiler.Base.{
  ℕ, ◌+◌, ◌^◌, ◌≤◌, ◌<◌, false, ◌==◌, ==_refl, update, Option, none, some, ◌≡◌, ◌⊎◌, refl, sym, ap,
  ◌∙◌, arith, Bool-cases, inl, inr,
}
use java_profiler.LinearAllocator.{Chunk, LinearAllocator, header}
use native.Mathlib.Decide.{dec_lt}

-- The chunk before a chunk that is there.
abbrev pub link : Option Chunk → Option (Option ℕ)
link none = none
link (some c) = some c.prev

abbrev pub links : (ℕ → Option Chunk) → ℕ → Option (Option ℕ)
links heap i = link (heap i)

-- The chunks that are there stand in one chain, in the order of their numbers, from the reserve or the
-- tail down to one without a chunk before it.
pub record Chained (tail reserve : ℕ) (ls : ℕ → Option (Option ℕ)) (next : ℕ) : Type 0 where
  pub unused : (i : ℕ) → next ≤ i → ls i ≡ none
  pub linked :
      (i j : ℕ)
      → ls i ≡ some (some j)
      → (j < i) × ((p : Option ℕ) × (ls j ≡ some p)) × ((k : ℕ) → j < k → k < i → ls k ≡ none)
  pub bottom : (i : ℕ) → ls i ≡ some none → (k : ℕ) → k < i → ls k ≡ none
  pub top : (i : ℕ) → tail < i → (reserve == i) ≡ false → ls i ≡ none
  pub tail_live : (p : Option ℕ) × (ls tail ≡ some p)
  pub ahead : (reserve ≡ tail) ⊎ (ls reserve ≡ some (some tail))

-- A chain whose chunks are filled up to an offset, and whose reserve is empty as long as it is not the
-- tail. A chunk has at most 2 ^ 63 bytes, so that the end of a block that fits one is below 2 ^ 64.
pub record IsValid (a : LinearAllocator) : Type 0 where
  pub chained : Chained a.tail a.reserve (links a.heap) a.next
  pub room : header ≤ a.chunk_size
  pub addressable : a.chunk_size ≤ 2 ^ 63
  pub filled : (i : ℕ) (c : Chunk) → a.heap i ≡ some c → (header ≤ c.offs) × (c.offs ≤ a.chunk_size)
  pub empty :
      (a.reserve == a.tail) ≡ false → (c : Chunk) → a.heap a.reserve ≡ some c → c.offs ≡ header

module _ {tail reserve next : ℕ} {ls : ℕ → Option (Option ℕ)}
    (v : Chained tail reserve ls next) where
  -- A chunk that is there has a number below `next`.
  pub live_below : (i : ℕ) (p : Option ℕ) → ls i ≡ some p → i < next
  live_below i p e = elim (dec_lt i next) [
    | yes lt ↦ lt
    | no ge ↦ let gone = v.unused i (omega arith) in absurd (cc)
  ]

  -- The same chain, written in another way.
  pub Chained-ext :
      (ls' : ℕ → Option (Option ℕ)) (next' : ℕ)
      → ((i : ℕ) → ls' i ≡ ls i)
      → next ≤ next'
      → Chained tail reserve ls' next'
  Chained-ext ls' next' same le = record {
    unused = λ i h. same i ∙ v.unused i (omega arith);
    linked = λ i j e.
        let (lt, (p, l), between) = v.linked i j (sym (same i) ∙ e) in
        (lt, (p, same j ∙ l), λ k a b. same k ∙ between k a b);
    bottom = λ i e k lt. same k ∙ v.bottom i (sym (same i) ∙ e) k lt;
    top = λ i lt other. same i ∙ v.top i lt other;
    tail_live = (v.tail_live.0, same tail ∙ v.tail_live.1);
    ahead = elim v.ahead [ inl e ↦ inl e | inr e ↦ inr (same reserve ∙ e) ];
  }

  -- The reserve becomes the tail.
  pub Chained-advance : ls reserve ≡ some (some tail) → Chained reserve reserve ls next
  Chained-advance e =
      let (lt, _, _) = v.linked reserve tail e in
      record {
        unused = v.unused;
        linked = v.linked;
        bottom = v.bottom;
        top = λ i above other. v.top i (omega arith) other;
        tail_live = (some tail, e);
        ahead = inl refl;
      }

  -- A new chunk behind the tail becomes the reserve.
  pub Chained-reserve :
      reserve ≡ tail → Chained tail next (update ls next (some (some tail))) (next + 1)
  Chained-reserve same =
      let ls' = update ls next (some (some tail)) in
      let tail_below = live_below tail v.tail_live.0 v.tail_live.1 in
      let old : (i : ℕ) → i < next → ls' i ≡ ls i =
        λ i lt. let other : (next == i) ≡ false = ground arith in rw other in
      record {
        unused = λ i h.
            let other : (next == i) ≡ false = ground arith in rw other (v.unused i (omega arith));
        linked = λ i j e. elim (Bool-cases (next == i)) [
          | inl q ↦
              let here : next ≡ i = ground arith in
              let first : some (some tail) ≡ some (some j) = rw q at e in
              let at : tail ≡ j = cc in
              rw (← at) (
                omega (arith, tail_below),
                (v.tail_live.0, old tail tail_below ∙ v.tail_live.1),
                λ k a b. old k (omega arith) ∙ v.top k a (ground arith),
              )
          | inr q ↦
              let before : ls i ≡ some (some j) = rw q at e in
              let lt = live_below i (some j) before in
              let (below, (p, l), between) = v.linked i j before in
              (below, (p, old j (omega arith) ∙ l), λ k a b. old k (omega arith) ∙ between k a b)
        ];
        bottom = λ i e k lt. elim (Bool-cases (next == i)) [
          | inl q ↦ let wrong : some (some tail) ≡ some none = rw q at e in absurd (cc)
          | inr q ↦
              let before : ls i ≡ some none = rw q at e in
              let i_below = live_below i none before in old k (omega arith) ∙ v.bottom i before k lt
        ];
        top = λ i above other. rw other (v.top i above (ground arith));
        tail_live = (v.tail_live.0, old tail tail_below ∙ v.tail_live.1);
        ahead = inr (rw (==_refl next));
      }

-- A write of a chunk, seen as a write of its link.
pub links-update :
    (heap : ℕ → Option Chunk) (i : ℕ) (c : Option Chunk) (j : ℕ)
    → links (update heap i c) j ≡ update (links heap) i (link c) j
links-update heap i c j = elim (Bool-cases (i == j)) [ inl q ↦ rw q | inr q ↦ rw q ]

pub link_of : (o : Option Chunk) (c : Chunk) → o ≡ some c → link o ≡ some c.prev
link_of o c e = ap link e

-- The chunk of a link.
pub chunk_of :
    (o : Option Chunk) (p : Option ℕ) → link o ≡ some p → (c : Chunk) × (o ≡ some c) × (c.prev ≡ p)
chunk_of none p e = absurd (cc)
chunk_of (some c) p e = (c, refl, cc)
