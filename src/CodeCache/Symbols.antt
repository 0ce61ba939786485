-- ===== src/CodeCache/Symbols.antt =====
-- The binary search for the symbol of an address, against the search through all blobs.
use java_profiler.Base.{
  ℕ, zero, suc, ◌+◌, ◌≤◌, ◌<◌, ◌≡◌, ◌↔◌, refl, true, false, none, some, arith, inl, inr, ◌⊎◌,
}
use java_profiler.CodeCache.Bisect.{IsSplit, Ends, bisect-Ends}
use java_profiler.CodeCache.{
  CodeBlob, CodeCache, Side, before, behind, here, Search, at, missing, bisect, blob_side,
  blob_symbol, nearby, searched, binary_search, holds, find_address_loop, find_blob_by_address,
}
use native.Mathlib.Decide.{dec_lt}

-- The blobs in the order of their addresses, without overlaps.
pub record IsSorted (c : CodeCache) : Type 0 where
  pub sized : (i : ℕ) → i < c.count → (c.blobs i).start ≤ (c.blobs i).end
  pub apart : (i j : ℕ) → i < j → j < c.count → (c.blobs i).end ≤ (c.blobs j).start

blob_side-before : (b : CodeBlob) (a : ℕ) → (blob_side b a ≡ before) ↔ (b.end ≤ a)
unfolding blob_side
blob_side-before b a = (λ e. ground arith, λ h. ground arith)

blob_side-behind :
    (b : CodeBlob) (a : ℕ) → b.start ≤ b.end → (blob_side b a ≡ behind) ↔ (a < b.start)
unfolding blob_side
blob_side-behind b a s = (λ e. ground arith, λ h. ground arith)

blob_side-here : (b : CodeBlob) (a : ℕ) → blob_side b a ≡ here → (b.start ≤ a) × (a < b.end)
unfolding blob_side
blob_side-here b a e = (ground arith, ground arith)

module _ (c : CodeCache) (address : ℕ) (s : IsSorted c) where
  abbrev side : ℕ → Side
  side i = blob_side (c.blobs i) address

  split : IsSplit side c.count
  split = record {
    down = λ j k lt top e.
        let a = (blob_side-before (c.blobs k) address).0 e in
        (blob_side-before (c.blobs j) address).1 (omega (arith, s.apart j k lt top, s.sized k top));
    up = λ j k lt top e.
        let a = (blob_side-behind (c.blobs j) address (s.sized j (omega arith))).0 e in
        (blob_side-behind (c.blobs k) address (s.sized k top)).1
          (omega (arith, s.apart j k lt top, s.sized j (omega arith)));
  }

  search : (r : Search) × (bisect side c.count 0 c.count ≡ some r) × Ends side 0 c.count r
  search =
      bisect-Ends side c.count c.count 0 c.count split (omega arith) (omega arith) (omega arith)

holds-true : (b : CodeBlob) (a : ℕ) → b.start ≤ a → a < b.end → holds b a ≡ true
unfolding holds
holds-true b a lo hi = ground arith

holds-before : (b : CodeBlob) (a : ℕ) → b.end ≤ a → holds b a ≡ false
unfolding holds
holds-before b a h = ground arith

holds-behind : (b : CodeBlob) (a : ℕ) → a < b.start → holds b a ≡ false
unfolding holds
holds-behind b a h = ground arith

-- The loop ends at the only blob that holds the address.
find_address_at :
    (blobs : ℕ → CodeBlob) (address left i k : ℕ)
    → i ≤ k
    → k < i + left
    → holds (blobs k) address ≡ true
    → ((j : ℕ) → i ≤ j → j < k → holds (blobs j) address ≡ false)
    → find_address_loop blobs address left i ≡ some k
unfolding find_address_loop
find_address_at blobs address zero i k lo hi e others = absurd (omega arith)
find_address_at blobs address (suc left) i k lo hi e others = elim (dec_lt i k) [
  | yes p ↦ rw (others i (omega arith) p) (
      find_address_at blobs address left (i + 1) k (omega arith) (omega arith) e
        (λ j a b. others j (omega arith) b))
  | no p ↦ let same : i ≡ k = omega arith in rw (same, e)
]

find_address_nowhere :
    (blobs : ℕ → CodeBlob) (address left i : ℕ)
    → ((j : ℕ) → i ≤ j → j < i + left → holds (blobs j) address ≡ false)
    → find_address_loop blobs address left i ≡ none
unfolding find_address_loop
find_address_nowhere blobs address zero i others = refl
find_address_nowhere blobs address (suc left) i others = rw (others i (omega arith) (omega arith)) (
    find_address_nowhere blobs address left (i + 1) (λ j a b. others j (omega arith) (omega arith)))

-- An address that no blob holds, between the first `low` blobs and the rest.
pub record IsBetween (c : CodeCache) (address low : ℕ) : Type 0 where
  pub inside : low ≤ c.count
  pub ended : (j : ℕ) → j < low → (c.blobs j).end ≤ address
  pub ahead : (j : ℕ) → low ≤ j → j < c.count → address < (c.blobs j).start

-- In a cache whose blobs are sorted and do not overlap, the binary search returns and agrees with the
-- search through all blobs: it gives the symbol of the blob that this search finds, and if this search
-- finds none, what stands for the address behind the last blob that ends before it.
pub binary_search-same :
    (c : CodeCache) (address : ℕ)
    → IsSorted c
    → ((k : ℕ) × (find_blob_by_address c address ≡ some k)
        × (binary_search c address ≡ some (blob_symbol (c.blobs k))))
      ⊎ ((low : ℕ) × (find_blob_by_address c address ≡ none)
          × (binary_search c address ≡ some (nearby c address low))
          × IsBetween c address low)
binary_search-same c address s = let (r, run, ends) = search c address s in by_end r run ends
  where
    by_end :
        (r : Search)
        → bisect (side c address s) c.count 0 c.count ≡ some r
        → Ends (side c address s) 0 c.count r
        → ((k : ℕ) × (find_blob_by_address c address ≡ some k)
            × (binary_search c address ≡ some (blob_symbol (c.blobs k))))
          ⊎ ((low : ℕ) × (find_blob_by_address c address ≡ none)
              × (binary_search c address ≡ some (nearby c address low))
              × IsBetween c address low)
    by_end (at k) run (a, b, e) =
        let (lo, hi) = blob_side-here (c.blobs k) address e in
        inl (
          k,
          unfold find_blob_by_address in
              find_address_at c.blobs address c.count 0 k (omega arith) (omega arith)
                (holds-true (c.blobs k) address lo hi)
                (λ j x y. holds-before (c.blobs j) address (omega (arith, s.apart j k y b))),
          unfold binary_search searched in rw run,
        )
    by_end (missing low) run (a, b, before_low, behind_low) =
        let t : IsBetween c address low = record {
          inside = b;
          ended = λ j lt. (blob_side-before (c.blobs j) address).0 (before_low j (omega arith) lt);
          ahead = λ j le lt.
              (blob_side-behind (c.blobs j) address (s.sized j lt)).0 (behind_low j le lt);
        } in
        inr (
          low,
          unfold find_blob_by_address in
              find_address_nowhere c.blobs address c.count 0 (λ j x y. elim (dec_lt j low) [
                | yes p ↦ holds-before (c.blobs j) address (t.ended j p)
                | no p ↦ holds-behind (c.blobs j) address (t.ahead j (omega arith) (omega arith))
              ]),
          unfold binary_search searched in rw run,
          t,
        )
