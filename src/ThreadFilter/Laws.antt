-- ===== src/ThreadFilter/Laws.antt =====
-- The filter is a set of thread ids below the maximum: what adding, removing and clearing do to it.
use java_profiler.Base.{
  ℕ, ◌-◌, ◌/◌, ◌^◌, ◌≤◌, ◌<◌, ◌≡◌, refl, Bool, false, ◌==◌, leb, if◌then◌else◌, arith, Bool-cases,
  inl, inr, ◌⊎◌, some, none, update,
}
use java_profiler.ThreadFilter.Words.{id_of_position, accept_in_zero, same_place}
use java_profiler.ThreadFilter.{
  bitmap_size, bitmap_capacity, ThreadFilter, zero_bitmap, new, bitmap, accept_in, accept,
}

-- Words are words, the array covers every id below the maximum, and the count is an `int`.
pub record IsValid (f : ThreadFilter) : Type 0 where
  pub fits : (i : ℕ) (b : ℕ → ℕ) → f.bitmaps i ≡ some b → (k : ℕ) → b k < 2 ^ 64
  pub covered : (j : ℕ) → j < f.max_thread_id → j / bitmap_capacity < f.max_bitmaps
  pub counts : f.size < 2 ^ 32

pub zero_fits : (k : ℕ) → zero_bitmap k < 2 ^ 64
zero_fits k = omega arith

-- A constructed filter is valid, and accepts no thread.
pub new-IsValid :
    (max_thread_id : ℕ) → max_thread_id ≤ 2 ^ 32 - bitmap_size → IsValid (new max_thread_id)
unfolding new
new-IsValid m h = record {
  fits = λ i b e k. elim (Bool-cases (0 == i)) [
    | inl z ↦ let q : zero_bitmap ≡ b = ground arith in rw (← q) (omega arith)
    | inr z ↦ cc (rw z at e)
  ];
  covered = λ j lt. omega arith;
  counts = omega arith;
}

pub slot_accepts :
    (f : ThreadFilter) (j : ℕ)
    → accept f j
      ≡ (if leb f.max_thread_id j then false else accept_in (f.bitmaps (j / bitmap_capacity)) j)
unfolding accept bitmap accept_in
slot_accepts f j = ground arith

-- The bitmap that an operation writes to: the one of the slot, or a new one where there is none.
abbrev pub Found : ThreadFilter → ℕ → (ℕ → ℕ) → Type 0
Found f i b =
    (f.bitmaps (i / bitmap_capacity) ≡ some b)
    ⊎ ((f.bitmaps (i / bitmap_capacity) ≡ none) × (b ≡ zero_bitmap))

pub Found-accepts :
    (f : ThreadFilter) (i j : ℕ) (b : ℕ → ℕ)
    → Found f i b
    → i / bitmap_capacity ≡ j / bitmap_capacity
    → accept_in (f.bitmaps (j / bitmap_capacity)) j ≡ accept_in (some b) j
Found-accepts f i j b (inl e) q = rw (← q, e)
Found-accepts f i j b (inr (e, z)) q = rw (← q, e, z) (rw accept_in_zero (unfold accept_in in refl))

pub Found-fits :
    (f : ThreadFilter) (i : ℕ) (b : ℕ → ℕ) → IsValid f → Found f i b → (k : ℕ) → b k < 2 ^ 64
Found-fits f i b v (inl e) k = v.fits _ b e k
Found-fits f i b v (inr (e, z)) k = rw z (zero_fits k)

-- A write to one bitmap changes what is accepted at the places of that bitmap alone.
module _ (f : ThreadFilter) (i : ℕ) (b b' : ℕ → ℕ) (n : ℕ) (found : Found f i b) (bit : Bool) where
  abbrev written : ThreadFilter
  written = record f { bitmaps = update f.bitmaps (i / bitmap_capacity) (some b'); size = n }

  pub written_accepts :
      (j : ℕ)
      → i < f.max_thread_id
      → accept_in (some b') j ≡ (if same_place i j then bit else accept_in (some b) j)
      → accept written j ≡ (if i == j then bit else accept f j)
  written_accepts j lt place =
      rw (slot_accepts, slot_accepts)
        (elim (Bool-cases (i / bitmap_capacity == j / bitmap_capacity)) [
          | inl e ↦
              let q : i / bitmap_capacity ≡ j / bitmap_capacity = ground arith in
              rw (e, place, Found-accepts f i j b found q) (ground (arith, id_of_position i j q))
          | inr e ↦ rw e (ground arith)
        ])

pub written-IsValid :
    (f : ThreadFilter) (i : ℕ) (b b' : ℕ → ℕ) (n : ℕ)
    → IsValid f
    → ((k : ℕ) → b' k < 2 ^ 64)
    → n < 2 ^ 32
    → IsValid (record f { bitmaps = update f.bitmaps (i / bitmap_capacity) (some b'); size = n })
written-IsValid f i b b' n v fits small = record {
  fits = λ i' c e k. elim (Bool-cases (i / bitmap_capacity == i')) [
    | inl z ↦ let q : b' ≡ c = ground arith in rw (← q) (fits k)
    | inr z ↦ v.fits i' c (rw z at e) k
  ];
  covered = v.covered;
  counts = small;
}
