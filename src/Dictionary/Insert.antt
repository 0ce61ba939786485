-- ===== src/Dictionary/Insert.antt =====
-- The walk of a writer, against the walk of a reader.
use java_profiler.Base.{
  ℕ, zero, suc, ◌+◌, ◌%◌, ◌^◌, ◌≤◌, ◌<◌, true, false, ◌≡◌, refl, ◌∙◌, ◌≢◌, length, List, none, some,
  arith, ap, ==_refl, update,
}
use java_profiler.Dictionary.Frame.{find_from-store_key, find_from-add_table}
use java_profiler.Dictionary.Key.{allocate_key, key_equals}
use java_profiler.Dictionary.Row.{scan-true_free}
use java_profiler.Dictionary.Valid.{
  IsValid, store_key-keys, store_key-base, store_key-IsValid, add_table-new, add_table-keys,
  add_table-next, add_table-IsValid,
}
use java_profiler.Dictionary.Walk.{find_from, find_from_found, find_from_next, index_congr}
use java_profiler.Dictionary.{
  cells, row_count, Dictionary, found, free, absent, scan, rotate, row_at, store_key, add_table,
  index,
}

abbrev pub Differ : List ℕ → List ℕ → Type 0
Differ key j = key_equals (allocate_key key) j (length j) ≡ false

-- `d'` is `d` with `key` under the number `i`, where a walk that starts at table `t` finds it.
pub record Inserted (key : List ℕ) (t h i : ℕ) (d d' : Dictionary) : Type 0 where
  pub valid : IsValid d'
  pub grown : (d.allocated ≤ d'.allocated) × (d'.allocated ≤ d.allocated + 1)
  pub counted : d'.size ≡ d.size + 1
  pub sees : (f : ℕ) → d'.allocated ≤ f + t → find_from f d' key t h ≡ some i
  pub others :
      (j : List ℕ)
      → Differ key j
      → (f t' h' : ℕ) → t' < d.allocated
      → find_from f d' j t' h' ≡ find_from f d j t' h'
  pub above : (t' r : ℕ) → t' < t → row_at d' t' r ≡ row_at d t' r

-- Filling the first free cell of the row where the walk stands.
module _ (d : Dictionary) (key : List ℕ) (t h c : ℕ) (v : IsValid d) (lt : t < d.allocated) where
  abbrev stored : Dictionary
  stored = store_key d t (h % row_count) c key

  pub stored-Inserted :
      key_equals (allocate_key key) key (length key) ≡ true
      → scan true key (row_at d t (h % row_count)).keys cells 0 ≡ free c
      → Inserted key t h (index (d.tables t) (h % row_count) c) d stored
  stored-Inserted same e =
      let r = h % row_count in
      let cell = scan-true_free key _ cells 0 c (v.filled t r) e in
      record {
        valid = store_key-IsValid d t r c key v (λ k lo. cell.before k (omega arith) lo);
        grown = unfold store_key in omega arith;
        counted = unfold store_key in refl;
        sees = λ f fuel.
            sees_here f (unfold store_key in omega arith) (rw (stored_here, cell.stored same));
        others = λ j differ f t' h' _. find_from-store_key d t r c key j cell.unset differ f t' h';
        above = λ t' r' up. unfold store_key in ground arith;
      }
    where
      stored_here :
          (row_at stored t (h % row_count)).keys
          ≡ update (row_at d t (h % row_count)).keys c (some (allocate_key key))
      stored_here =
          store_key-keys d t (h % row_count) c key t (h % row_count)
          ∙ rw (==_refl t, ==_refl (h % row_count))

      sees_here :
          (f : ℕ)
          → 0 < f
          → scan false key (row_at stored t (h % row_count)).keys cells 0 ≡ found c
          → find_from f stored key t h ≡ some (index (d.tables t) (h % row_count) c)
      sees_here zero pos s = absurd (omega arith)
      sees_here (suc f) pos s =
          find_from_found f stored key t h c s
          ∙ ap some (
              index_congr d stored t (h % row_count) c (store_key-base d t (h % row_count) c key t))

-- The walk went on from a full row to table `t'`, and the insertion happened there or behind it.
module _ (d d' : Dictionary) (key : List ℕ) (t h t' i : ℕ) (lt : t < d.allocated) where
  sees_before :
      t < t'
      → t < d'.allocated
      → scan false key (row_at d' t (h % row_count)).keys cells 0 ≡ absent
      → (row_at d' t (h % row_count)).next ≡ some t'
      → ((f : ℕ) → d'.allocated ≤ f + t' → find_from f d' key t' (rotate h) ≡ some i)
      → (f : ℕ) → d'.allocated ≤ f + t
      → find_from f d' key t h ≡ some i
  sees_before up inside s n sees zero fuel = absurd (omega arith)
  sees_before up inside s n sees (suc f) fuel =
      find_from_next f d' key t h t' s n ∙ sees f (omega arith)

  pub next-Inserted :
      t < t'
      → scan false key (row_at d t (h % row_count)).keys cells 0 ≡ absent
      → (row_at d t (h % row_count)).next ≡ some t'
      → Inserted key t' (rotate h) i d d'
      → Inserted key t h i d d'
  next-Inserted up s n w =
      let row = w.above t (h % row_count) up in
      record {
        valid = w.valid;
        grown = w.grown;
        counted = w.counted;
        sees = sees_before up (omega (arith, w.grown)) (rw row s) (rw row n) w.sees;
        others = w.others;
        above = λ t₁ r lo. w.above t₁ r (omega arith);
      }

-- The walk met the last row of its chain, and goes on in a new table.
module _ (d : Dictionary) (key : List ℕ) (t h : ℕ) (v : IsValid d) (lt : t < d.allocated) where
  abbrev added : Dictionary
  added = add_table d t (h % row_count)

  added_row : (t₁ r : ℕ) → t₁ < t → row_at added t₁ r ≡ row_at d t₁ r
  unfolding add_table
  added_row t₁ r lo = ground arith

  pub new_scan :
      scan true key (row_at added d.allocated (rotate h % row_count)).keys cells 0 ≡ free 0
  new_scan = rw add_table-new (unfold scan in refl)

  pub new-Inserted :
      key_equals (allocate_key key) key (length key) ≡ true
      → d.allocated < 2 ^ 23
      → (row_at d t (h % row_count)).next ≡ none
      → scan false key (row_at d t (h % row_count)).keys cells 0 ≡ absent
      → ((k : ℕ) → k < cells → (row_at d t (h % row_count)).keys k ≢ none)
      → Inserted key t h
          (index (added.tables d.allocated) (rotate h % row_count) 0)
          d
          (store_key added d.allocated (rotate h % row_count) 0 key)
  new-Inserted same few last s whole =
      let r = h % row_count in
      let inside : d.allocated < added.allocated = unfold add_table in omega arith in
      let w =
        stored-Inserted added key d.allocated (rotate h) 0 (add_table-IsValid d t r v lt whole few)
          inside same new_scan in
      let d' = store_key added d.allocated (rotate h % row_count) 0 key in
      let row = w.above t r lt in
      let apart : d.allocated ≢ t = omega arith in
      let size : d'.allocated ≡ d.allocated + 1 = unfold store_key add_table in refl in
      record {
        valid = w.valid;
        grown = omega (arith, size);
        counted = w.counted ∙ (unfold add_table in refl);
        sees =
            sees_before d d' key t h d.allocated _ lt lt (omega (arith, size))
              (rw (row, add_table-keys d t r t r apart) s)
              (rw (row, add_table-next d t r t r apart, ==_refl t, ==_refl r)) w.sees;
        others = λ j differ f t₁ h₁ lo.
            w.others j differ f t₁ h₁ (omega arith)
            ∙ find_from-add_table d t r j v.linked last f t₁ h₁ lo;
        above = λ t₁ r₁ lo. w.above t₁ r₁ (omega arith) ∙ added_row t₁ r₁ lo;
      }
