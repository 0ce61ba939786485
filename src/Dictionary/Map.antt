-- ===== src/Dictionary/Map.antt =====
-- A dictionary as a finite map from keys to numbers, and the public operations against it.
use java_profiler.Base.{
  ℕ, zero, suc, ◌+◌, ◌-◌, ◌%◌, ◌^◌, ◌≤◌, ◌<◌, true, false, ◌≡◌, refl, ◌∙◌, ◌≢◌, length, List,
  Option, none, some, arith, ◌⊎◌, inl, inr, sym, ap, Bool-cases, Option-cases, ltb,
}
use java_profiler.Dictionary.Frame.{Scan-cases}
use java_profiler.Dictionary.Insert.{Inserted}
use java_profiler.Dictionary.Key.{hash, allocate_key, key_equals, IsText, key_equals-allocate_key}
use java_profiler.Dictionary.Lookup.{lookup_loop-Walks}
use java_profiler.Dictionary.Numbers.{view, view_injective, view_pos, Differ-of_ne}
use java_profiler.Dictionary.Valid.{IsValid}
use java_profiler.Dictionary.Walk.{
  find_from, find_from_fuel, find_from_found, find_from_end, find_from_next,
}
use java_profiler.Dictionary.{
  cells, row_count, Dictionary, absent, scan, rotate, row_at, lookup_row, lookup_loop, lookup_in,
  lookup, check, bounded_lookup,
}

-- What a lookup for insertion that returned `i` did to the map of a dictionary.
pub record Assigned (d d' : Dictionary) (key : List ℕ) (i : ℕ) : Type 0 where
  pub valid : IsValid d'
  pub tables : d'.allocated ≤ d.allocated + 1
  pub assigned : view d' key ≡ some i
  pub others : (j : List ℕ) → IsText j → j ≢ key → view d' j ≡ view d j
  pub change :
      ((view d key ≡ some i) × (d' ≡ d))
      ⊎ ((view d key ≡ none)
          × (d'.size ≡ d.size + 1)
          × ((j : List ℕ) → IsText j → view d j ≢ some i))

Inserted-Assigned :
    (d d' : Dictionary) (key : List ℕ) (i : ℕ)
    → IsValid d
    → IsText key
    → view d key ≡ none
    → Inserted key 0 (hash key) i d d'
    → Assigned d d' key i
unfolding view
Inserted-Assigned d d' key i v text gone w = record {
  valid = w.valid;
  tables = w.grown.1;
  assigned = w.sees d'.allocated (omega arith);
  others = others;
  change = inr (
    gone,
    w.counted,
    λ j tj e.
        let ne : j ≢ key = λ q. cc gone in
        ne (
          view_injective d' j key i w.valid tj text (others j tj ne ∙ e)
            (w.sees d'.allocated (omega arith))),
  );
}
  where
    others : (j : List ℕ) → IsText j → j ≢ key → view d' j ≡ view d j
    others j tj ne =
        w.others j (Differ-of_ne key j text tj ne) d'.allocated 0 (hash j) v.rooted
        ∙ find_from_fuel d v.linked j d'.allocated d.allocated 0 (hash j) v.rooted
            (omega (arith, w.grown)) (omega arith)

lookup_in-Assigned :
    (s : ℕ) (d : Dictionary) (key : List ℕ)
    → IsValid d
    → d.allocated < 2 ^ 23
    → IsText key
    → (i : ℕ) × (d' : Dictionary) × (lookup_in key true s d ≡ some (i, d')) × Assigned d d' key i
unfolding lookup_in view
lookup_in-Assigned s d key v few text =
    let (i, d', run, out) =
      lookup_loop-Walks s key same (d.allocated + 1) d 0 (hash key) v v.rooted (omega arith) few in
    (
      i,
      d',
      run,
      elim out [
        | inl (there, kept) ↦
            let there' = sym settle ∙ there in
            record {
              valid = rw kept v;
              tables = rw kept (omega arith);
              assigned = rw kept there';
              others = λ j _ _. rw kept;
              change = inl (there', kept);
            }
        | inr (gone, w) ↦ Inserted-Assigned d d' key i v text (sym settle ∙ gone) w
      ],
    )
  where
    same : key_equals (allocate_key key) key (length key) ≡ true
    same = (key_equals-allocate_key key key text text).1 refl

    settle :
        find_from (d.allocated + 1) d key 0 (hash key) ≡ find_from d.allocated d key 0 (hash key)
    settle =
        find_from_fuel d v.linked key (d.allocated + 1) d.allocated 0 (hash key) v.rooted
          (omega arith) (omega arith)

-- `lookup` on a valid dictionary of fewer than 2 ^ 23 tables returns: the number that the key has, the
-- dictionary unchanged, or, for a key without a number, a number that no key has, under which alone the
-- key is found afterwards. No other key changes its number, and the result is valid.
pub lookup-Assigned :
    (d : Dictionary) (key : List ℕ)
    → IsValid d
    → d.allocated < 2 ^ 23
    → IsText key
    → (i : ℕ) × (d' : Dictionary) × (lookup key d ≡ some (i, d')) × Assigned d d' key i
unfolding lookup
lookup-Assigned d key v few text = lookup_in-Assigned 0 d key v few text

abbrev pub number_or : Option ℕ → ℕ → ℕ
number_or none s = s
number_or (some i) s = i

lookup_loop_next :
    (f s : ℕ) (key : List ℕ) (d : Dictionary) (t h t' : ℕ)
    → scan false key (row_at d t (h % row_count)).keys cells 0 ≡ absent
    → (row_at d t (h % row_count)).next ≡ some t'
    → lookup_loop (suc f) false s key d t h ≡ lookup_loop f false s key d t' (rotate h)
unfolding lookup_loop lookup_row
lookup_loop_next f s key d t h t' e n = rw (e, n)

-- A walk that only reads returns what the reader finds, or the sentinel, and writes nothing.
lookup_loop_read :
    (fuel s : ℕ) (key : List ℕ) (d : Dictionary) (t h : ℕ)
    → IsValid d
    → t < d.allocated
    → d.allocated ≤ fuel + t
    → lookup_loop fuel false s key d t h ≡ some (number_or (find_from fuel d key t h) s, d)
lookup_loop_read zero s key d t h v lt enough = absurd (omega arith)
lookup_loop_read (suc f) s key d t h v lt enough =
    elim (Scan-cases key (row_at d t (h % row_count)).keys) [
      | inl (c, e) ↦ rw (find_from_found f d key t h c e) (unfold lookup_loop lookup_row in rw e)
      | inr e ↦ elim (Option-cases (row_at d t (h % row_count)).next) [
        | inl n ↦ rw (find_from_end f d key t h e n) (unfold lookup_loop lookup_row in rw (e, n))
        | inr (t', n) ↦ rw (find_from_next f d key t h t' e n) (
            lookup_loop_next f s key d t h t' e n
            ∙ lookup_loop_read f s key d t' (rotate h) v (v.linked t (h % row_count) t' n).1
                (omega (arith, v.linked t (h % row_count) t' n)))
      ]
    ]

read-view :
    (s : ℕ) (key : List ℕ) (d : Dictionary)
    → IsValid d
    → lookup_in key false s d ≡ some (number_or (view d key) s, d)
unfolding lookup_in view
read-view s key d v =
    lookup_loop_read (d.allocated + 1) s key d 0 (hash key) v v.rooted (omega arith)
    ∙ ap (λ (o : Option ℕ). some (number_or o s, d))
        (find_from_fuel d v.linked key (d.allocated + 1) d.allocated 0 (hash key) v.rooted
          (omega arith) (omega arith))

-- `check` returns, and says whether the key has a number.
pub check-view :
    (d : Dictionary) (key : List ℕ)
    → IsValid d
    → ((view d key ≡ none) × (check key d ≡ some false))
      ⊎ ((i : ℕ) × (view d key ≡ some i) × (check key d ≡ some true))
unfolding check
check-view d key v = elim (Option-cases (view d key)) [
  | inl e ↦ inl (e, rw (read-view 0 key d v, e))
  | inr (i, e) ↦
      let pos = view_pos d key i v e in inr (i, e, rw (read-view 0 key d v, e) (ground arith))
]

-- `bounded_lookup` on a dictionary that has reached the limit returns the key's number, or INT_MAX, and
-- does not grow the dictionary; below the limit it does what `lookup` does.
pub bounded_lookup-cases :
    (d : Dictionary) (key : List ℕ) (size_limit : ℕ)
    → IsValid d
    → d.allocated < 2 ^ 23
    → IsText key
    → ((size_limit ≤ d.size)
        × (bounded_lookup key size_limit d ≡ some (number_or (view d key) (2 ^ 31 - 1), d)))
      ⊎ ((d.size < size_limit)
          × ((i : ℕ) × (d' : Dictionary) × (bounded_lookup key size_limit d ≡ some (i, d'))
              × Assigned d d' key i))
unfolding bounded_lookup
bounded_lookup-cases d key size_limit v few text = elim (Bool-cases (ltb d.size size_limit)) [
  | inl e ↦
      let below : d.size < size_limit = ground arith in
      inr (below, rw e (lookup_in-Assigned (2 ^ 31 - 1) d key v few text))
  | inr e ↦
      let full : size_limit ≤ d.size = ground arith in
      inl (full, rw e (read-view (2 ^ 31 - 1) key d v))
]
