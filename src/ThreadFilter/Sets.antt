-- ===== src/ThreadFilter/Sets.antt =====
-- `add`, `remove` and `clear` against the set of the threads that are accepted.
use java_profiler.Base.{
  ℕ, ◌+◌, ◌-◌, ◌/◌, ◌%◌, ◌^◌, ◌≤◌, ◌<◌, ◌≡◌, refl, bit_and, bit_or, Bool, true, false, not, ◌==◌,
  ltb, leb, if◌then◌else◌, arith, Bool-cases, Option-cases, inl, inr, ◌⊎◌, some, none, Option,
  lt→ltb, update,
}
use java_profiler.Base.Bits.{bit_or-lt, clear-lt}
use java_profiler.ThreadFilter.Laws.{
  IsValid, Found, Found-accepts, Found-fits, slot_accepts, written_accepts, written-IsValid,
}
use java_profiler.ThreadFilter.Words.{accept_in_set, accept_in_clear, accept_in_zero}
use java_profiler.ThreadFilter.{
  bitmap_capacity, ThreadFilter, zero_bitmap, bitmap, word_index, bit_of, accept_in, accept,
  set_bit, add_slot, add_to, add, clear_bit, remove_from, remove, clear_bitmap, clear,
}

-- `f'` is `f` with thread `i` put to `bit`; the count follows.
pub record Puts (f : ThreadFilter) (i : ℕ) (bit : Bool) (size : ℕ) (f' : ThreadFilter)
    : Type 0 where
  pub valid : IsValid f'
  pub accepts : (j : ℕ) → accept f' j ≡ (if i == j then bit else accept f j)
  pub counted : f'.size ≡ size

update_fits :
    (b : ℕ → ℕ) (i x : ℕ)
    → ((k : ℕ) → b k < 2 ^ 64)
    → x < 2 ^ 64
    → (k : ℕ) → update b i x k < 2 ^ 64
update_fits b i x fits h k = ground (arith, fits k)

or_fits : (w i : ℕ) → w < 2 ^ 64 → bit_or w (bit_of i) < 2 ^ 64
unfolding bit_of
or_fits w i h = bit_or-lt 64 w (i % 64) (omega arith) h

clear_fits : (w i : ℕ) → w < 2 ^ 64 → bit_and w (2 ^ 64 - 1 - bit_of i) < 2 ^ 64
unfolding bit_of
clear_fits w i h = clear-lt 64 w (i % 64) (omega arith) h

module _ (f : ThreadFilter) (i : ℕ) (v : IsValid f) (lt : i < f.max_thread_id) where
  abbrev w : (ℕ → ℕ) → ℕ
  w b = b (word_index i)

  bit_clear : (b : ℕ → ℕ) → Found f i b → (bit_and (w b) (bit_of i) == 0) ≡ not (accept f i)
  bit_clear b found =
      rw (slot_accepts, Found-accepts f i i b found refl) (unfold accept_in in ground arith)

  set_bit-Puts :
      (b : ℕ → ℕ)
      → Found f i b
      → Puts f i true (if accept f i then f.size else (f.size + 1) % 2 ^ 32) (set_bit f i b)
  set_bit-Puts b found =
      let fits = Found-fits f i b v found in
      unfold set_bit in
      record {
        valid =
            written-IsValid f i b _ _ v (update_fits b _ _ fits (or_fits (w b) i (fits _)))
              (ground (arith, v.counts));
        accepts = λ j. written_accepts f i b _ _ found true j lt (accept_in_set b i j);
        counted = rw (bit_clear b found) (ground arith);
      }

  clear_bit-Puts :
      (b : ℕ → ℕ)
      → Found f i b
      → Puts f i false
          (if accept f i then (f.size + 2 ^ 32 - 1) % 2 ^ 32 else f.size)
          (clear_bit f i b)
  clear_bit-Puts b found =
      let fits = Found-fits f i b v found in
      unfold clear_bit in
      record {
        valid =
            written-IsValid f i b _ _ v (update_fits b _ _ fits (clear_fits (w b) i (fits _)))
              (ground (arith, v.counts));
        accepts = λ j. written_accepts f i b _ _ found false j lt (accept_in_clear b i j (fits _));
        counted = rw (bit_clear b found) (ground arith);
      }

  -- `bitmap` of an id below the maximum is what the slot holds.
  bitmap-slot : bitmap f i ≡ f.bitmaps (i / bitmap_capacity)
  unfolding bitmap
  bitmap-slot = ground arith

  -- `add` of an id below the maximum stays inside the array: the id is accepted afterwards, every other
  -- id is accepted as before, and the count grows by one (mod 2 ^ 32) if the id was not accepted.
  pub add-Puts :
      (f' : ThreadFilter) × (add f i ≡ some f')
      × Puts f i true (if accept f i then f.size else (f.size + 1) % 2 ^ 32) f'
  add-Puts = elim (Option-cases (f.bitmaps (i / bitmap_capacity))) [
    | inl e ↦ (
      set_bit f i zero_bitmap,
      unfold add add_to add_slot in rw (bitmap-slot, e, lt→ltb _ _ (v.covered i lt), e),
      set_bit-Puts zero_bitmap (inr (e, refl)),
    )
    | inr (b, e) ↦ (set_bit f i b, unfold add add_to in rw (bitmap-slot, e), set_bit-Puts b (inl e))
  ]

  absent_alone : accept f i ≡ false → (j : ℕ) → accept f j ≡ (if i == j then false else accept f j)
  absent_alone e j = elim (Bool-cases (i == j)) [
    | inl z ↦ let q : i ≡ j = ground arith in rw z (rw (← q) e)
    | inr z ↦ rw z
  ]

  -- `remove` of an id below the maximum: the id is not accepted afterwards, every other id is accepted
  -- as before, and the count falls by one if the id was accepted.
  pub remove-Puts :
      Puts f i false (if accept f i then (f.size + 2 ^ 32 - 1) % 2 ^ 32 else f.size) (remove f i)
  remove-Puts = elim (Option-cases (f.bitmaps (i / bitmap_capacity))) [
    | inl e ↦
        let out : accept f i ≡ false = rw slot_accepts (unfold accept_in in rw e (ground arith)) in
        unfold remove remove_from in
        rw (bitmap-slot, e) (record { valid = v; accepts = absent_alone out; counted = rw out })
    | inr (b, e) ↦ unfold remove remove_from in rw (bitmap-slot, e) (clear_bit-Puts b (inl e))
  ]

clear-none : (f : ThreadFilter) (i : ℕ) → f.bitmaps i ≡ none → (clear f).bitmaps i ≡ none
unfolding clear clear_bitmap
clear-none f i e = ground arith

clear-some :
    (f : ThreadFilter) (i : ℕ) (b : ℕ → ℕ)
    → f.bitmaps i ≡ some b
    → i < f.max_bitmaps
    → (clear f).bitmaps i ≡ some zero_bitmap
unfolding clear clear_bitmap
clear-some f i b e lt = rw (lt→ltb _ _ lt, e)

-- `clear` of a valid filter leaves no thread accepted and the count at 0.
pub clear-accepts :
    (f : ThreadFilter) → IsValid f → ((j : ℕ) → accept (clear f) j ≡ false) × ((clear f).size ≡ 0)
clear-accepts f v = (λ j. none_accepted j, unfold clear in refl)
  where
    none_accepted : (j : ℕ) → accept (clear f) j ≡ false
    none_accepted j = rw slot_accepts (elim (Bool-cases (leb f.max_thread_id j)) [
      | inl e ↦ let e' : leb (clear f).max_thread_id j ≡ true = unfold clear in e in rw e'
      | inr e ↦
          let e' : leb (clear f).max_thread_id j ≡ false = unfold clear in e in
          elim (Option-cases (f.bitmaps (j / bitmap_capacity))) [
            | inl n ↦ rw (e', clear-none f (j / bitmap_capacity) n) (unfold accept_in in refl)
            | inr (b, n) ↦
                rw (e', clear-some f (j / bitmap_capacity) b n (v.covered j (ground arith)))
                  (accept_in_zero j)
          ]
    ])

-- An id from the maximum on is never accepted, also after an `add` that stays inside the array: it sets
-- a bit that `accept` does not read and `remove` does not clear.
pub add_beyond :
    (f : ThreadFilter) (i : ℕ)
    → f.max_thread_id ≤ i
    → ((f.max_bitmaps ≤ i / bitmap_capacity) × (add f i ≡ none))
      ⊎ ((f' : ThreadFilter) × (add f i ≡ some f') × (accept f' i ≡ false) × (remove f' i ≡ f'))
add_beyond f i h = elim (Bool-cases (ltb (i / bitmap_capacity) f.max_bitmaps)) [
  | inr e ↦ inl (ground arith, unfold add add_to in rw (beyond f h, e))
  | inl e ↦ inr (
    add_slot f i (f.bitmaps (i / bitmap_capacity)),
    unfold add add_to in rw (beyond f h, e),
    unfold accept accept_in in
        rw (beyond (add_slot f i (f.bitmaps (i / bitmap_capacity))) (rw same_max h)),
    unfold remove remove_from in
        rw (beyond (add_slot f i (f.bitmaps (i / bitmap_capacity))) (rw same_max h)),
  )
]
  where
    beyond : (g : ThreadFilter) → g.max_thread_id ≤ i → bitmap g i ≡ none
    beyond g le = unfold bitmap in ground arith

    slot_max : (o : Option (ℕ → ℕ)) → (add_slot f i o).max_thread_id ≡ f.max_thread_id
    slot_max none = unfold add_slot set_bit in refl
    slot_max (some b) = unfold add_slot set_bit in refl

    same_max : (add_slot f i (f.bitmaps (i / bitmap_capacity))).max_thread_id ≡ f.max_thread_id
    same_max = slot_max _
