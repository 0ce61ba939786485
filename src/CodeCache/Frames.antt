-- ===== src/CodeCache/Frames.antt =====
-- The binary search for the frame layout at a program counter.
use java_profiler.Base.{
  ℕ, zero, suc, ◌+◌, ◌-◌, ◌%◌, ◌^◌, ◌≤◌, ◌<◌, ◌≡◌, ◌↔◌, ltb, if◌then◌else◌, Option, some, arith,
  inl, inr, ◌⊎◌,
}
use java_profiler.CodeCache.Bisect.{IsSplit, Ends, bisect-Ends}
use java_profiler.CodeCache.{
  FrameDesc, CodeCache, Side, before, behind, here, Search, at, missing, bisect, frame_side,
  searched_frame, find_frame_at, find_frame_desc, empty_frame, default_frame,
}

unfoldable pub IsIncreasing : CodeCache → Type 0
IsIncreasing c =
    (i j : ℕ) → i < j → j < c.dwarf_table_length → (c.dwarf_table i).loc < (c.dwarf_table j).loc

frame_side-before : (d : FrameDesc) (t : ℕ) → (frame_side d t ≡ before) ↔ (d.loc < t)
unfolding frame_side
frame_side-before d t = (λ e. ground arith, λ h. ground arith)

frame_side-behind : (d : FrameDesc) (t : ℕ) → (frame_side d t ≡ behind) ↔ (t < d.loc)
unfolding frame_side
frame_side-behind d t = (λ e. ground arith, λ h. ground arith)

frame_side-here : (d : FrameDesc) (t : ℕ) → frame_side d t ≡ here → d.loc ≡ t
unfolding frame_side
frame_side-here d t e = ground arith

-- `_plt_offset` and `_plt_size` decide below the first entry of the table.
abbrev pub outside_frame : CodeCache → ℕ → FrameDesc
outside_frame c target_loc =
    if ltb ((target_loc + 2 ^ 32 - c.plt_offset) % 2 ^ 32) c.plt_size
    then empty_frame
    else default_frame

-- The last entry that does not lie behind a location.
pub record IsLast (c : CodeCache) (target_loc k : ℕ) : Type 0 where
  pub inside : k < c.dwarf_table_length
  pub reached : (c.dwarf_table k).loc ≤ target_loc
  pub ahead : (j : ℕ) → k < j → j < c.dwarf_table_length → target_loc < (c.dwarf_table j).loc

-- What `findFrameDesc` is to return for a location.
abbrev pub Answer : CodeCache → ℕ → Option FrameDesc → Type 0
Answer c target_loc answer =
    ((k : ℕ) × (answer ≡ some (c.dwarf_table k)) × IsLast c target_loc k)
    ⊎ ((answer ≡ some (outside_frame c target_loc))
        × ((j : ℕ) → j < c.dwarf_table_length → target_loc < (c.dwarf_table j).loc))

module _ (c : CodeCache) (t : ℕ) (increasing : IsIncreasing c) where
  abbrev side : ℕ → Side
  side i = frame_side (c.dwarf_table i) t

  split : IsSplit side c.dwarf_table_length
  unfolding IsIncreasing
  split = record {
    down = λ j k lt top e.
        let a = (frame_side-before (c.dwarf_table k) t).0 e in
        (frame_side-before (c.dwarf_table j) t).1 (omega (arith, increasing j k lt top));
    up = λ j k lt top e.
        let a = (frame_side-behind (c.dwarf_table j) t).0 e in
        (frame_side-behind (c.dwarf_table k) t).1 (omega (arith, increasing j k lt top));
  }

  by_end :
      (r : Search)
      → bisect side c.dwarf_table_length 0 c.dwarf_table_length ≡ some r
      → Ends side 0 c.dwarf_table_length r
      → Answer c t (find_frame_at c t)
  unfolding IsIncreasing
  by_end (at k) run (a, b, e) =
      let own = frame_side-here (c.dwarf_table k) t e in
      inl (
        k,
        unfold find_frame_at searched_frame in rw run,
        record {
          inside = b;
          reached = omega arith;
          ahead = λ j lt top. omega (arith, increasing k j lt top);
        },
      )
  by_end (missing (suc k)) run (a, b, low, high) =
      let own = (frame_side-before (c.dwarf_table k) t).0 (low k (omega arith) (omega arith)) in
      inl (
        k,
        unfold find_frame_at searched_frame in rw run,
        record {
          inside = omega arith;
          reached = omega arith;
          ahead = λ j lt top. (frame_side-behind (c.dwarf_table j) t).0 (high j (omega arith) top);
        },
      )
  by_end (missing zero) run (a, b, low, high) = inr (
    unfold find_frame_at searched_frame in rw run,
    λ j top. (frame_side-behind (c.dwarf_table j) t).0 (high j (omega arith) top),
  )

  answered : Answer c t (find_frame_at c t)
  answered =
      let (r, run, ends) =
        bisect-Ends side c.dwarf_table_length c.dwarf_table_length 0 c.dwarf_table_length split
          (omega arith) (omega arith) (omega arith) in
      by_end r run ends

-- In a table of increasing locations `findFrameDesc` returns the last entry that does not lie behind the
-- location of the program counter, and if all lie behind it, the empty frame inside of the PLT and the
-- default frame elsewhere.
pub find_frame_desc-Answer :
    (c : CodeCache) (pc : ℕ)
    → IsIncreasing c
    → Answer c ((pc + 2 ^ 64 - c.text_base) % 2 ^ 32) (find_frame_desc c pc)
unfolding find_frame_desc
find_frame_desc-Answer c pc increasing =
    answered c ((pc + 2 ^ 64 - c.text_base) % 2 ^ 32) increasing
