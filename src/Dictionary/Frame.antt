-- ===== src/Dictionary/Frame.antt =====
-- The two writes of an insertion do not change what a reader of another key finds.
use java_profiler.Base.{
  ℕ, zero, suc, ◌%◌, ◌<◌, true, false, ◌≡◌, refl, ◌∙◌, ◌≢◌, length, List, Option, none, some, arith,
  ◌⊎◌, inl, inr, sym, ap, Bool-cases, ◌==◌, ◌&&◌,
}
use java_profiler.Dictionary.Key.{allocate_key, key_equals}
use java_profiler.Dictionary.Row.{scan_other, scan_empty}
use java_profiler.Dictionary.Valid.{
  store_key-keys, store_key-next, store_key-base, add_table-new, add_table-keys, add_table-next,
  add_table-base,
}
use java_profiler.Dictionary.Walk.{
  IsLinked, find_from, find_from_congr, find_from_found, find_from_end, find_from_next,
  scan-ne-free, index_congr,
}
use java_profiler.Dictionary.{
  cells, row_count, Dictionary, Scan, found, free, absent, scan, rotate, row_at, store_key,
  add_table,
}

module _ (d : Dictionary) (t₀ r₀ c₀ : ℕ) (key j : List ℕ) where
  pub find_from-store_key :
      (row_at d t₀ r₀).keys c₀ ≡ none
      → key_equals (allocate_key key) j (length j) ≡ false
      → (f t h : ℕ) → find_from f (store_key d t₀ r₀ c₀ key) j t h ≡ find_from f d j t h
  find_from-store_key unset differ zero t h = unfold find_from in refl
  find_from-store_key unset differ (suc f) t h =
      find_from_congr f d _ j t h (scans (Bool-cases (t₀ == t && r₀ == r)))
        (store_key-next d t₀ r₀ c₀ key t r) (store_key-base d t₀ r₀ c₀ key t)
        (λ t' e. find_from-store_key unset differ f t' (rotate h))
    where
      r : ℕ
      r = h % row_count

      scans :
          ((t₀ == t && r₀ == r) ≡ true) ⊎ ((t₀ == t && r₀ == r) ≡ false)
          → scan false j (row_at (store_key d t₀ r₀ c₀ key) t r).keys cells 0
            ≡ scan false j (row_at d t r).keys cells 0
      scans (inl e) =
          let qt : t₀ ≡ t = ground arith in
          let qr : r₀ ≡ r = ground arith in
          rw (store_key-keys, e, ← qt, ← qr) (scan_other j key _ c₀ unset differ cells 0)
      scans (inr e) = rw (store_key-keys, e)

-- What a scan that only reads can answer.
pub Scan-cases :
    (key : List ℕ) (keys : ℕ → Option (List ℕ))
    → ((c : ℕ) × (scan false key keys cells 0 ≡ found c)) ⊎ (scan false key keys cells 0 ≡ absent)
Scan-cases key keys = go (scan false key keys cells 0) refl
  where
    go :
        (s : Scan)
        → scan false key keys cells 0 ≡ s
        → ((c : ℕ) × (scan false key keys cells 0 ≡ found c))
          ⊎ (scan false key keys cells 0 ≡ absent)
    go (found c) e = inl (c, e)
    go (free c) e = absurd (scan-ne-free key keys cells 0 c e)
    go absent e = inr e

module _ (d : Dictionary) (t₀ r₀ : ℕ) (j : List ℕ) where
  find_from_new : (f h : ℕ) → find_from f (add_table d t₀ r₀) j d.allocated h ≡ none
  find_from_new zero h = unfold find_from in refl
  find_from_new (suc f) h =
      find_from_end f _ j d.allocated h (rw add_table-new (scan_empty j _ cells 0 (λ k _. refl)))
        (rw add_table-new)

  pub find_from-add_table :
      IsLinked d
      → (row_at d t₀ r₀).next ≡ none
      → (f t h : ℕ) → t < d.allocated
      → find_from f (add_table d t₀ r₀) j t h ≡ find_from f d j t h
  find_from-add_table linked last zero t h lt = unfold find_from in refl
  find_from-add_table linked last (suc f) t h lt =
      let r = h % row_count in
      let apart : d.allocated ≢ t = omega arith in
      let keys = add_table-keys d t₀ r₀ t r apart in
      let next = add_table-next d t₀ r₀ t r apart in
      let base = add_table-base d t₀ r₀ t apart in
      elim (Bool-cases (t₀ == t && r₀ == r)) [
        | inr e ↦
            find_from_congr f d _ j t h (rw keys) (rw (next, e)) base
              (λ t' n. find_from-add_table linked last f t' (rotate h) (linked t r t' n).1)
        | inl e ↦
            let qt : t₀ ≡ t = ground arith in
            let qr : r₀ ≡ r = ground arith in
            let old : (row_at d t r).next ≡ none = rw (← qt, ← qr) last in
            elim (Scan-cases j (row_at d t r).keys) [
              | inl (c, s) ↦
                  find_from_found f _ j t h c (rw keys s)
                  ∙ ap some (index_congr d (add_table d t₀ r₀) t r c base)
                  ∙ sym (find_from_found f d j t h c s)
              | inr s ↦
                  find_from_next f _ j t h d.allocated (rw keys s) (rw (next, e))
                  ∙ find_from_new f (rotate h)
                  ∙ sym (find_from_end f d j t h s old)
            ]
      ]
