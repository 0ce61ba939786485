-- ===== src/Dictionary/Lookup.antt =====
-- `lookup` for insertion: it finds a key that is there, and else inserts it.
use java_profiler.Base.{
  ℕ, zero, suc, ◌+◌, ◌%◌, ◌^◌, ◌≤◌, ◌<◌, true, ◌≡◌, refl, ◌∙◌, length, List, none, some, arith, ◌⊎◌,
  inl, inr, Option-cases,
}
use java_profiler.Dictionary.Insert.{
  Inserted, stored-Inserted, next-Inserted, new-Inserted, new_scan,
}
use java_profiler.Dictionary.Key.{allocate_key, key_equals}
use java_profiler.Dictionary.Row.{scan-true_found, scan-true_absent, scan-true_free}
use java_profiler.Dictionary.Valid.{IsValid}
use java_profiler.Dictionary.Walk.{find_from, find_from_found, find_from_end, find_from_next}
use java_profiler.Dictionary.{
  cells, row_count, Dictionary, index, Scan, found, free, absent, scan, rotate, row_at, store_key,
  add_table, lookup_row, lookup_loop,
}

-- What a walk returns: the number that is there, or a new one under which the key was inserted.
abbrev pub Outcome : ℕ → List ℕ → ℕ → ℕ → Dictionary → ℕ → Dictionary → Type 0
Outcome fuel key t h d i d' =
    ((find_from fuel d key t h ≡ some i) × (d' ≡ d))
    ⊎ ((find_from fuel d key t h ≡ none) × Inserted key t h i d d')

abbrev pub Walks : ℕ → ℕ → List ℕ → ℕ → ℕ → Dictionary → Type 0
Walks fuel s key t h d =
    (i : ℕ) × (d' : Dictionary) × (lookup_loop fuel true s key d t h ≡ some (i, d'))
    × Outcome fuel key t h d i d'

module _ (s : ℕ) (key : List ℕ) (same : key_equals (allocate_key key) key (length key) ≡ true) where
  module _ (f : ℕ) (d : Dictionary) (t h : ℕ) (v : IsValid d) (lt : t < d.allocated) where
    abbrev r : ℕ
    r = h % row_count

    lookup_loop_found :
        (c : ℕ) → scan true key (row_at d t r).keys cells 0 ≡ found c → Walks (suc f) s key t h d
    lookup_loop_found c e = (
      index (d.tables t) r c,
      d,
      unfold lookup_loop lookup_row in rw e,
      inl (find_from_found f d key t h c (scan-true_found key _ cells 0 c e), refl),
    )

    lookup_loop_free :
        (c : ℕ) → scan true key (row_at d t r).keys cells 0 ≡ free c → Walks (suc f) s key t h d
    lookup_loop_free c e =
        let cell = scan-true_free key _ cells 0 c (v.filled t r) e in
        let last : (row_at d t r).next ≡ none = elim (Option-cases (row_at d t r).next) [
          | inl n ↦ n
          | inr (t', n) ↦ absurd (v.full t r t' c n (omega (arith, cell.upper)) cell.unset)
        ] in
        (
          index (d.tables t) r c,
          store_key d t r c key,
          unfold lookup_loop lookup_row in rw e,
          inr (
            find_from_end f d key t h cell.missing last,
            stored-Inserted d key t h c v lt same e,
          ),
        )

    lookup_loop_on :
        (t' : ℕ)
        → scan true key (row_at d t r).keys cells 0 ≡ absent
        → (row_at d t r).next ≡ some t'
        → Walks f s key t' (rotate h) d
        → Walks (suc f) s key t h d
    lookup_loop_on t' e n (i, d', run, out) =
        let (missing, whole) = scan-true_absent key _ cells 0 e in
        let step = find_from_next f d key t h t' missing n in
        (
          i,
          d',
          unfold lookup_loop lookup_row in rw (e, n) run,
          elim out [
            | inl (there, kept) ↦ inl (step ∙ there, kept)
            | inr (gone, w) ↦
                inr (
                  step ∙ gone,
                  next-Inserted d d' key t h t' i lt (v.linked t r t' n).0 missing n w,
                )
          ],
        )

  lookup_loop_add :
      (f : ℕ) (d : Dictionary) (t h : ℕ) (v : IsValid d) (lt : t < d.allocated)
      → d.allocated < 2 ^ 23
      → scan true key (row_at d t (h % row_count)).keys cells 0 ≡ absent
      → (row_at d t (h % row_count)).next ≡ none
      → Walks (suc (suc f)) s key t h d
  lookup_loop_add f d t h v lt few e n =
      let (missing, whole) = scan-true_absent key _ cells 0 e in
      let fresh = new_scan d key t h v lt in
      let wider = add_table d t (h % row_count) in
      (
        index (wider.tables d.allocated) (rotate h % row_count) 0,
        store_key wider d.allocated (rotate h % row_count) 0 key,
        unfold lookup_loop lookup_row in rw (e, n, fresh),
        inr (
          find_from_end (suc f) d key t h missing n,
          new-Inserted d key t h v lt same few n missing
              (λ k lo. whole k (omega arith) (omega arith)),
        ),
      )

  -- With fuel for every table and a new one, the walk ends.
  pub lookup_loop-Walks :
      (fuel : ℕ) (d : Dictionary) (t h : ℕ)
      → IsValid d
      → t < d.allocated
      → d.allocated + 1 ≤ fuel + t
      → d.allocated < 2 ^ 23
      → Walks fuel s key t h d
  lookup_loop-Walks zero d t h v lt enough few = absurd (omega arith)
  lookup_loop-Walks (suc zero) d t h v lt enough few = absurd (omega arith)
  lookup_loop-Walks (suc (suc f)) d t h v lt enough few =
      elim (Scan-split (scan true key (row_at d t (h % row_count)).keys cells 0)) [
        | inl (c, e) ↦ lookup_loop_found (suc f) d t h v lt c e
        | inr (inl (c, e)) ↦ lookup_loop_free (suc f) d t h v lt c e
        | inr (inr e) ↦ elim (Option-cases (row_at d t (h % row_count)).next) [
          | inl n ↦ lookup_loop_add f d t h v lt few e n
          | inr (t', n) ↦
              let (up, inside) = v.linked t (h % row_count) t' n in
              lookup_loop_on (suc f) d t h v lt t' e n
                (lookup_loop-Walks (suc f) d t' (rotate h) v inside (omega arith) few)
        ]
      ]
    where
      Scan-split :
          (s : Scan) → ((c : ℕ) × (s ≡ found c)) ⊎ (((c : ℕ) × (s ≡ free c)) ⊎ (s ≡ absent))
      Scan-split (found c) = inl (c, refl)
      Scan-split (free c) = inr (inl (c, refl))
      Scan-split absent = inr (inr refl)
