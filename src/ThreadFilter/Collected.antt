-- ===== src/ThreadFilter/Collected.antt =====
-- `collect` against the set of the threads that are accepted.
use java_profiler.Base.{
  ℕ, zero, suc, ◌+◌, ◌*◌, ◌/◌, ◌%◌, ◌^◌, ◌≤◌, ◌<◌, ◌≡◌, ◌≢◌, ◌⊎◌, refl, sym, ap, ◌∙◌, true, false,
  ◌==◌, leb, if◌then◌else◌, List, [], ◌∷◌, ◌++◌, Option, none, some, arith, Bool-cases, inl, inr,
}
use java_profiler.Base.Bits.{digit, digit-le}
use java_profiler.ThreadFilter.Collect.{
  count_zeros, drop_lowest, word_ids, gather, slot_ids, collect,
}
use java_profiler.ThreadFilter.Lowest.{ones, ones-le, ones_none, drop_lowest-Dropped}
use java_profiler.ThreadFilter.Laws.{IsValid, slot_accepts}
use java_profiler.ThreadFilter.Words.{accept_in-some, digit-zero}
use java_profiler.ThreadFilter.{
  bitmap_size, bitmap_capacity, ThreadFilter, word_index, accept_in, accept,
}
use native.Mathlib.Decide.{dec_lt}

-- How often an id is in a list.
pub count : ℕ → List ℕ → ℕ
count x [] = 0
count x (y ∷ ys) = (if y == x then 1 else 0) + count x ys

count-append : (x : ℕ) (ys zs : List ℕ) → count x (ys ++ zs) ≡ count x ys + count x zs
unfolding count
count-append x [] zs = omega arith
count-append x (y ∷ ys) zs = omega (arith, count-append x ys zs)

word_ids-none : (left base w : ℕ) → (w == 0) ≡ true → word_ids left base w ≡ []
unfolding word_ids
word_ids-none zero base w e = refl
word_ids-none (suc left) base w e = rw e refl

word_ids-more :
    (left base w : ℕ)
    → (w == 0) ≡ false
    → base + 64 ≤ 2 ^ 32
    → count_zeros 64 w < 64
    → word_ids (suc left) base w ≡ (base + count_zeros 64 w) ∷ word_ids left base (drop_lowest w)
unfolding word_ids
word_ids-more left base w e fits lt =
    let id : (base + count_zeros 64 w) % 2 ^ 32 ≡ base + count_zeros 64 w = omega arith in
    rw (e, id) refl

same_place : (base c k : ℕ) → (base + c == base + k) ≡ (c == k)
same_place base c k = ground arith

-- The loop over a word lists each place of a one once.
word_ids-inside :
    (left base w k : ℕ)
    → base + 64 ≤ 2 ^ 32
    → w < 2 ^ 64
    → ones 64 w ≤ left
    → k < 64
    → count (base + k) (word_ids left base w) ≡ digit w k
unfolding count
word_ids-inside zero base w k fits small few lt =
    unfold word_ids in sym (ones_none 64 w k (omega (arith, few)) lt)
word_ids-inside (suc left) base w k fits small few lt = elim (Bool-cases (w == 0)) [
  | inl z ↦
      let zero : w ≡ 0 = ground arith in
      rw (word_ids-none (suc left) base w z, zero, digit-zero k) refl
  | inr nz ↦
      let d = drop_lowest-Dropped 64 w (ground arith) small in
      let rest =
        word_ids-inside left base (drop_lowest w) k fits d.small (omega (arith, few, d.fewer)) lt in
      rw (word_ids-more left base w nz fits d.inside) (
        rw (same_place base (count_zeros 64 w) k, rest, d.others k)
          (listed (count_zeros 64 w) k (digit w) d.one))
]
  where
    listed :
        (c k : ℕ) (f : ℕ → ℕ)
        → f c ≡ 1
        → (if c == k then 1 else 0) + (if c == k then 0 else f k) ≡ f k
    listed c k f one = elim (Bool-cases (c == k)) [
      | inl e ↦ let q : c ≡ k = ground arith in rw e (rw (← q) (omega (arith, one)))
      | inr e ↦ rw e (omega arith)
    ]

-- It lists no other id.
word_ids-outside :
    (left base w x : ℕ)
    → base + 64 ≤ 2 ^ 32
    → w < 2 ^ 64
    → (x < base) ⊎ (base + 64 ≤ x)
    → count x (word_ids left base w) ≡ 0
unfolding count
word_ids-outside zero base w x fits small out = unfold word_ids in refl
word_ids-outside (suc left) base w x fits small out = elim (Bool-cases (w == 0)) [
  | inl z ↦ rw (word_ids-none (suc left) base w z) refl
  | inr nz ↦
      let d = drop_lowest-Dropped 64 w (ground arith) small in
      let rest = word_ids-outside left base (drop_lowest w) x fits d.small out in
      let other : (base + count_zeros 64 w == x) ≡ false = ground (arith, d.inside, out) in
      rw (word_ids-more left base w nz fits d.inside) (rw (other, rest) refl)
]

module _ (ids : ℕ → List ℕ) (x k : ℕ) where
  gather-none :
      (left i : ℕ)
      → ((j : ℕ) → i ≤ j → j < i + left → count x (ids j) ≡ 0)
      → count x (gather ids left i) ≡ 0
  unfolding gather
  gather-none zero i out = unfold count in refl
  gather-none (suc left) i out =
      count-append x (ids i) _
      ∙ omega (
        arith,
        out i (omega arith) (omega arith),
        gather-none left (i + 1) (λ j ge lt. out j (omega (arith, ge)) (omega (arith, lt))),
      )

  -- Where one index alone gives an id, the loop lists it as often as that index does.
  gather-one :
      (left i : ℕ)
      → i ≤ k
      → k < i + left
      → ((j : ℕ) → i ≤ j → j < i + left → j ≢ k → count x (ids j) ≡ 0)
      → count x (gather ids left i) ≡ count x (ids k)
  unfolding gather
  gather-one zero i ge lt out = absurd (omega arith)
  gather-one (suc left) i ge lt out = elim (dec_lt i k) [
    | yes below ↦
        count-append x (ids i) _
        ∙ omega (
          arith,
          out i (omega arith) (omega arith) (λ e. absurd (omega (arith, e, below))),
          gather-one left (i + 1) (omega (arith, below)) (omega (arith, lt))
              (λ j a b. out j (omega (arith, a)) (omega (arith, b))),
        )
    | no here ↦
        let e : i ≡ k = omega (arith, here, ge) in
        count-append x (ids i) _
        ∙ rw
            (
              gather-none left (i + 1) (λ j a b.
                  out j (omega (arith, a)) (omega (arith, b))
                    (λ q. absurd (omega (arith, q, e, a)))),
              e,
            )
            (omega arith)
  ]

slot_ids-inside :
    (start_id p : ℕ) (b : ℕ → ℕ)
    → start_id + bitmap_capacity ≤ 2 ^ 32
    → ((k : ℕ) → b k < 2 ^ 64)
    → p < bitmap_capacity
    → count (start_id + p) (slot_ids start_id (some b)) ≡ digit (b (p / 64)) (p % 64)
unfolding slot_ids
slot_ids-inside start_id p b fits small lt =
    let place : start_id + p ≡ start_id + p / 64 * 64 + p % 64 = omega arith in
    gather-one (λ j. word_ids 64 (start_id + j * 64) (b j)) (start_id + p) (p / 64)
      (bitmap_size / 8) 0 (omega arith) (omega (arith, lt))
      (λ j ge below ne.
        word_ids-outside 64 (start_id + j * 64) (b j) (start_id + p) (omega (arith, fits, below))
          (small j) (outside_word start_id j p ne))
    ∙ rw place (
        word_ids-inside 64 (start_id + p / 64 * 64) (b (p / 64)) (p % 64) (omega (arith, fits, lt))
          (small (p / 64)) (ones-le 64 _) (omega arith))
  where
    outside_word : (s j p : ℕ) → j ≢ p / 64 → (s + p < s + j * 64) ⊎ (s + j * 64 + 64 ≤ s + p)
    outside_word s j p ne = elim (dec_lt j (p / 64)) [
      | yes below ↦ inr (omega (arith, below))
      | no above ↦ inl (omega (arith, above, ne))
    ]

slot_ids-outside :
    (start_id x : ℕ) (slot : Option (ℕ → ℕ))
    → start_id + bitmap_capacity ≤ 2 ^ 32
    → ((b : ℕ → ℕ) → slot ≡ some b → (k : ℕ) → b k < 2 ^ 64)
    → (x < start_id) ⊎ (start_id + bitmap_capacity ≤ x)
    → count x (slot_ids start_id slot) ≡ 0
unfolding slot_ids
slot_ids-outside start_id x none fits small out = unfold count in refl
slot_ids-outside start_id x (some b) fits small out =
    gather-none (λ j. word_ids 64 (start_id + j * 64) (b j)) x 0 (bitmap_size / 8) 0
      (λ j ge below.
        word_ids-outside 64 (start_id + j * 64) (b j) x (omega (arith, fits, below))
          (small b refl j) (outside_all start_id x j below out))
  where
    outside_all :
        (s x j : ℕ)
        → j < 0 + bitmap_size / 8
        → (x < s) ⊎ (s + bitmap_capacity ≤ x)
        → (x < s + j * 64) ⊎ (s + j * 64 + 64 ≤ x)
    outside_all s x j below (inl lt) = inl (omega (arith, lt))
    outside_all s x j below (inr ge) = inr (omega (arith, ge, below))

module _ (f : ThreadFilter) (v : IsValid f) (few : f.max_bitmaps ≤ 2 ^ 13) (j : ℕ) where
  abbrev slot : ℕ
  slot = j / bitmap_capacity

  other_slot :
      (i : ℕ)
      → i < f.max_bitmaps
      → i ≢ slot
      → count j (slot_ids (i * bitmap_capacity % 2 ^ 32) (f.bitmaps i)) ≡ 0
  other_slot i lt ne =
      let start : i * bitmap_capacity % 2 ^ 32 ≡ i * bitmap_capacity = omega (arith, few, lt) in
      rw start (
        slot_ids-outside (i * bitmap_capacity) j (f.bitmaps i) (omega (arith, few, lt)) (v.fits i)
          (elim (dec_lt i slot) [
            | yes below ↦ inr (omega (arith, below))
            | no above ↦ inl (omega (arith, above, ne))
          ]))

  listed_in :
      (o : Option (ℕ → ℕ))
      → ((b : ℕ → ℕ) → o ≡ some b → (k : ℕ) → b k < 2 ^ 64)
      → slot * bitmap_capacity + bitmap_capacity ≤ 2 ^ 32
      → count j (slot_ids (slot * bitmap_capacity) o) ≡ (if accept_in o j then 1 else 0)
  listed_in none small fits = unfold slot_ids count accept_in in refl
  listed_in (some b) small fits =
      let p = j % bitmap_capacity in
      let place : slot * bitmap_capacity + p ≡ j = omega arith in
      let bit : p % 64 ≡ j % 64 = omega arith in
      let word : p / 64 ≡ word_index j = unfold word_index in omega arith in
      rw (accept_in-some b j) (
        ap (λ x. count x (slot_ids (slot * bitmap_capacity) (some b))) (sym place)
        ∙ slot_ids-inside (slot * bitmap_capacity) p b fits (small b refl) (omega arith)
        ∙ rw (bit, word) (as_bit (digit (b (word_index j)) (j % 64)) (digit-le _ _)))
    where
      as_bit : (d : ℕ) → d ≤ 1 → d ≡ (if d == 1 then 1 else 0)
      as_bit d le = ground arith

  -- A valid filter of at most 2 ^ 13 bitmaps, where no id wraps: `collect` puts each accepted id below
  -- the maximum once behind what the vector holds, and no id below the maximum that is not accepted.
  pub collect-accepts :
      (ids : List ℕ)
      → j < f.max_thread_id
      → count j (collect f ids) ≡ count j ids + (if accept f j then 1 else 0)
  unfolding collect
  collect-accepts ids lt =
      let inside = v.covered j lt in
      let start : slot * bitmap_capacity % 2 ^ 32 ≡ slot * bitmap_capacity =
        omega (arith, few, inside) in
      let known : leb f.max_thread_id j ≡ false = ground (arith, lt) in
      count-append j ids _
      ∙ ap (λ n. count j ids + n)
          (gather-one (λ i. slot_ids (i * bitmap_capacity % 2 ^ 32) (f.bitmaps i)) j slot
              f.max_bitmaps 0 (omega arith) (omega (arith, inside))
              (λ i ge below ne. other_slot i (omega (arith, below)) ne)
            ∙ rw (start, slot_accepts f j, known)
                (listed_in (f.bitmaps slot) (v.fits slot) (omega (arith, few, inside))))
