-- ===== src/Dictionary/Walk.antt =====
-- Where a key stands: the walk of a reader, as a function of the tables alone.
use java_profiler.Base.{
  ℕ, zero, suc, ◌+◌, ◌%◌, ◌≤◌, ◌<◌, false, ◌≡◌, refl, ◌∙◌, List, Option, none, some, arith,
}
use java_profiler.Dictionary.{
  cells, row_count, DictRow, Dictionary, index, Scan, found, free, absent, scan, rotate, row_at,
}

pub after_scan : Dictionary → ℕ → ℕ → (ℕ → Option ℕ) → Scan → Option ℕ → Option ℕ
after_scan d t r again (found c) next = some (index (d.tables t) r c)
after_scan d t r again (free c) none = none
after_scan d t r again (free c) (some t') = again t'
after_scan d t r again absent none = none
after_scan d t r again absent (some t') = again t'

-- The number of `key` from table `t` on, or `none`.
unfoldable pub find_from : ℕ → Dictionary → List ℕ → ℕ → ℕ → Option ℕ
find_from zero d key t h = none
find_from (suc fuel) d key t h =
    after_scan d t (h % row_count) (λ t'. find_from fuel d key t' (rotate h))
      (scan false key (row_at d t (h % row_count)).keys cells 0) (row_at d t (h % row_count)).next

pub after_scan_congr :
    (d : Dictionary) (t r : ℕ) (again again' : ℕ → Option ℕ) (s : Scan) (next : Option ℕ)
    → ((t' : ℕ) → next ≡ some t' → again t' ≡ again' t')
    → after_scan d t r again s next ≡ after_scan d t r again' s next
unfolding after_scan
after_scan_congr d t r again again' (found c) next h = refl
after_scan_congr d t r again again' (free c) none h = refl
after_scan_congr d t r again again' (free c) (some t') h = h t' refl
after_scan_congr d t r again again' absent none h = refl
after_scan_congr d t r again again' absent (some t') h = h t' refl

pub index_congr :
    (d d' : Dictionary) (t r c : ℕ)
    → (d'.tables t).base_index ≡ (d.tables t).base_index
    → index (d'.tables t) r c ≡ index (d.tables t) r c
unfolding index
index_congr d d' t r c h = rw h

after_scan_base :
    (d d' : Dictionary) (t r : ℕ) (again : ℕ → Option ℕ) (s : Scan) (next : Option ℕ)
    → (d'.tables t).base_index ≡ (d.tables t).base_index
    → after_scan d' t r again s next ≡ after_scan d t r again s next
unfolding after_scan index
after_scan_base d d' t r again (found c) next h = rw h
after_scan_base d d' t r again (free c) none h = refl
after_scan_base d d' t r again (free c) (some t') h = refl
after_scan_base d d' t r again absent none h = refl
after_scan_base d d' t r again absent (some t') h = refl

-- Links lead to tables that were allocated later.
abbrev pub IsLinked : Dictionary → Type 0
IsLinked d = (t r t' : ℕ) → (row_at d t r).next ≡ some t' → (t < t') × (t' < d.allocated)

-- A scan that only reads never finds a cell to fill.
pub scan-ne-free :
    (key : List ℕ) (keys : ℕ → Option (List ℕ)) (left c k : ℕ)
    → scan false key keys left c ≡ free k
    → ⊥
unfolding scan
scan-ne-free key keys zero c k e = cc
scan-ne-free key keys (suc left) c k e = ground (arith, scan-ne-free key keys left (c + 1) k)

module _ (d : Dictionary) (linked : IsLinked d) (key : List ℕ) where
  -- Fuel for all the tables from `t` on gives one result, however much there is.
  pub find_from_fuel :
      (f g t h : ℕ)
      → t < d.allocated
      → d.allocated ≤ f + t
      → d.allocated ≤ g + t
      → find_from f d key t h ≡ find_from g d key t h
  unfolding find_from
  find_from_fuel zero g t h lt p q = absurd (omega arith)
  find_from_fuel (suc f) zero t h lt p q = absurd (omega arith)
  find_from_fuel (suc f) (suc g) t h lt p q = after_scan_congr d t (h % row_count) _ _ _ _ (λ t' e.
      let (up, inside) = linked t (h % row_count) t' e in
      find_from_fuel f g t' (rotate h) inside (omega arith) (omega arith))

-- The four ways a row can send the walk.
module _ (f : ℕ) (d : Dictionary) (key : List ℕ) (t h : ℕ) where
  abbrev row : DictRow
  row = row_at d t (h % row_count)

  pub find_from_found :
      (c : ℕ)
      → scan false key row.keys cells 0 ≡ found c
      → find_from (suc f) d key t h ≡ some (index (d.tables t) (h % row_count) c)
  unfolding find_from after_scan
  find_from_found c e = rw e

  pub find_from_end :
      scan false key row.keys cells 0 ≡ absent
      → row.next ≡ none
      → find_from (suc f) d key t h ≡ none
  unfolding find_from after_scan
  find_from_end e n = rw (e, n)

  pub find_from_next :
      (t' : ℕ)
      → scan false key row.keys cells 0 ≡ absent
      → row.next ≡ some t'
      → find_from (suc f) d key t h ≡ find_from f d key t' (rotate h)
  unfolding find_from after_scan
  find_from_next t' e n = rw (e, n)

-- Two dictionaries whose walks agree at this row and behind it.
pub find_from_congr :
    (f : ℕ) (d d' : Dictionary) (key : List ℕ) (t h : ℕ)
    → scan false key (row_at d' t (h % row_count)).keys cells 0
      ≡ scan false key (row_at d t (h % row_count)).keys cells 0
    → (row_at d' t (h % row_count)).next ≡ (row_at d t (h % row_count)).next
    → (d'.tables t).base_index ≡ (d.tables t).base_index
    → ((t' : ℕ)
        → (row_at d t (h % row_count)).next ≡ some t'
        → find_from f d' key t' (rotate h) ≡ find_from f d key t' (rotate h))
    → find_from (suc f) d' key t h ≡ find_from (suc f) d key t h
unfolding find_from
find_from_congr f d d' key t h scans nexts bases rest =
    rw (scans, nexts)
      (after_scan_base d d' t (h % row_count) _ _ _ bases
        ∙ after_scan_congr d t (h % row_count) _ _ _ _ rest)
