-- ===== src/Dictionary/Numbers.antt =====
-- The number of a key, and why no two keys share one.
use java_profiler.Base.{
  ℕ, zero, suc, ◌+◌, ◌*◌, ◌%◌, ◌<◌, true, ◌≡◌, refl, ◌∙◌, ◌≢◌, length, List, Option, none, some,
  arith, inl, inr, sym, Bool-cases, Option-cases,
}
use java_profiler.Dictionary.Frame.{Scan-cases}
use java_profiler.Dictionary.Insert.{Differ}
use java_profiler.Dictionary.Key.{
  hash, allocate_key, key_equals, IsText, key_equals-allocate_key, key_equals_unique,
}
use java_profiler.Dictionary.Row.{scan-false_found}
use java_profiler.Dictionary.Valid.{IsValid}
use java_profiler.Dictionary.Walk.{find_from, find_from_found, find_from_end, find_from_next}
use java_profiler.Dictionary.{cells, row_count, Dictionary, index, rotate, row_at}

-- The number under which a key stands.
unfoldable pub view : Dictionary → List ℕ → Option ℕ
view d key = find_from d.allocated d key 0 (hash key)

-- The cell that has the number `i` holds a string equal to `key`.
record Stands (d : Dictionary) (key : List ℕ) (i : ℕ) : Type 0 where
  table : ℕ
  row : ℕ
  cell : ℕ
  candidate : List ℕ
  inside : (table < d.allocated) × (row < row_count) × (cell < cells)
  number : i ≡ index (d.tables table) row cell
  holds : (row_at d table row).keys cell ≡ some candidate
  equals : key_equals candidate key (length key) ≡ true

find_from_zero : (d : Dictionary) (key : List ℕ) (t h : ℕ) → find_from 0 d key t h ≡ none
unfolding find_from
find_from_zero d key t h = refl

found-Stands :
    (f : ℕ) (d : Dictionary) (key : List ℕ) (t h i : ℕ)
    → IsValid d
    → t < d.allocated
    → find_from f d key t h ≡ some i
    → Stands d key i
found-Stands zero d key t h i v lt e = cc (find_from_zero d key t h, e)
found-Stands (suc f) d key t h i v lt e = elim (Scan-cases key (row_at d t (h % row_count)).keys) [
  | inl (c, s) ↦
      let (candidate, holds, equals, lo, hi) = scan-false_found key _ cells 0 c s in
      record {
        table = t;
        row = h % row_count;
        cell = c;
        candidate = candidate;
        inside = (lt, omega arith, omega arith);
        number = cc (find_from_found f d key t h c s, e);
        holds = holds;
        equals = equals;
      }
  | inr s ↦ elim (Option-cases (row_at d t (h % row_count)).next) [
    | inl n ↦ cc (find_from_end f d key t h s n, e)
    | inr (t', n) ↦
        found-Stands f d key t' (rotate h) i v (v.linked t (h % row_count) t' n).1
          (sym (find_from_next f d key t h t' s n) ∙ e)
  ]
]

-- The number says which cell it is.
Stands-number :
    {d : Dictionary} {key : List ℕ} {i : ℕ}
    → IsValid d
    → (s : Stands d key i) → i ≡ 1 + 384 * s.table + s.cell * 128 + s.row
unfolding index
Stands-number v s = omega (arith, s.number, v.numbered s.table s.inside.0)

same_cell :
    (t r c t' r' c' : ℕ)
    → r < 128
    → c < 3
    → r' < 128
    → c' < 3
    → 1 + 384 * t + c * 128 + r ≡ 1 + 384 * t' + c' * 128 + r'
    → (t ≡ t') × (r ≡ r') × (c ≡ c')
same_cell t r c t' r' c' a b a' b' e = omega arith

Stands-unique :
    {d : Dictionary} {j k : List ℕ} {i : ℕ}
    → IsValid d
    → IsText j
    → IsText k
    → Stands d j i
    → Stands d k i
    → j ≡ k
Stands-unique {d} {j} {k} v tj tk p q =
    let (et, er, ec) =
      same_cell p.table p.row p.cell q.table q.row q.cell p.inside.1 p.inside.2 q.inside.1
        q.inside.2 (sym (Stands-number v p) ∙ Stands-number v q) in
    let here : (row_at d q.table q.row).keys q.cell ≡ some p.candidate =
      rw (← et, ← er, ← ec) p.holds in
    let one : p.candidate ≡ q.candidate = cc (here, q.holds) in
    key_equals_unique q.candidate j k tj tk (rw one at p.equals) q.equals

pub view_pos : (d : Dictionary) (key : List ℕ) (i : ℕ) → IsValid d → view d key ≡ some i → 0 < i
unfolding view
view_pos d key i v e =
    omega (arith, Stands-number v (found-Stands _ d key 0 (hash key) i v v.rooted e))

-- In a valid dictionary no two keys have one number.
pub view_injective :
    (d : Dictionary) (j k : List ℕ) (i : ℕ)
    → IsValid d
    → IsText j
    → IsText k
    → view d j ≡ some i
    → view d k ≡ some i
    → j ≡ k
unfolding view
view_injective d j k i v tj tk p q =
    Stands-unique v tj tk (found-Stands _ d j 0 (hash j) i v v.rooted p)
      (found-Stands _ d k 0 (hash k) i v v.rooted q)

pub Differ-of_ne : (key j : List ℕ) → IsText key → IsText j → j ≢ key → Differ key j
Differ-of_ne key j tk tj ne = elim (Bool-cases (key_equals (allocate_key key) j (length j))) [
  | inl e ↦ absurd (ne (sym ((key_equals-allocate_key key j tk tj).0 e)))
  | inr e ↦ e
]
