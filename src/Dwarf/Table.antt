-- ===== src/Dwarf/Table.antt =====
-- The table as a map from locations to frame layouts.
use java_profiler.Base.{ℕ, ◌+◌, ◌≤◌, ◌<◌, ◌≡◌, refl, true, none, some, arith, inl, ◌⊎◌}
use java_profiler.CodeCache.{FrameDesc}
use java_profiler.Dwarf.{DwarfParser, new, add_record_raw, same_layout}

-- `_prev` is the last entry, if there is one, and the locations increase.
pub record IsValid (p : DwarfParser) : Type 0 where
  pub room : p.count ≤ p.capacity
  pub some_room : 0 < p.capacity
  pub last : ((p.prev ≡ none) × (p.count ≡ 0)) ⊎ ((i : ℕ) × (p.prev ≡ some i) × (p.count ≡ i + 1))
  pub increasing : (i j : ℕ) → i < j → j < p.count → (p.table i).loc < (p.table j).loc

pub new-IsValid : (image_base : ℕ) → IsValid (new image_base)
unfolding new
new-IsValid image_base = record {
  room = omega arith;
  some_room = omega arith;
  last = inl (refl, refl);
  increasing = λ i j a b. absurd (omega arith);
}

-- The entry that holds for a location: the last one that does not lie behind it.
pub record IsAt (p : DwarfParser) (t k : ℕ) : Type 0 where
  pub inside : k < p.count
  pub reached : (p.table k).loc ≤ t
  pub ahead : (j : ℕ) → k < j → j < p.count → t < (p.table j).loc

-- A table that has the layout of `d` from its location on, and the old layouts before.
pub record Extends (p p' : DwarfParser) (d : FrameDesc) : Type 0 where
  pub valid : IsValid p'
  pub last : (k : ℕ) × (p'.count ≡ k + 1) × ((p'.table k).loc ≤ d.loc)
  pub from_loc : (t k : ℕ) → d.loc ≤ t → IsAt p' t k → same_layout (p'.table k) d ≡ true
  pub below : (t k : ℕ) → t < d.loc → IsAt p t k → IsAt p' t k × (p'.table k ≡ p.table k)

-- An entry that is written at `n`, where the entries below lie before it and the old ones from `n` on
-- do not.
module _ (p : DwarfParser) (d : FrameDesc) (n : ℕ) (v : IsValid p) (fits : n ≤ p.count)
    (lower : (i : ℕ) → i < n → (p.table i).loc < d.loc)
    (upper : (i : ℕ) → n ≤ i → i < p.count → d.loc ≤ (p.table i).loc) where
  abbrev written : DwarfParser
  written = add_record_raw (record p { count = n }) d

-- The location of the last entry, where there is one, does not lie behind `loc`.
abbrev pub IsReached : DwarfParser → ℕ → Type 0
IsReached p loc = (i : ℕ) → p.prev ≡ some i → (p.table i).loc ≤ loc
