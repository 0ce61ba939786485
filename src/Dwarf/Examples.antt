-- ===== src/Dwarf/Examples.antt =====
-- The first records of a table, and the theorems at them.
use java_profiler.Base.{
  ◌+◌, ◌*◌, ℕ, List, [], ◌∷◌, length, ◌-◌, ◌^◌, ◌≡◌, refl, Option, some, ◌>>=◌, arith,
}
use java_profiler.CodeCache.{FrameDesc}
use java_profiler.Dwarf.Leb.{leb_bytes, moved, get_leb-leb_bytes}
use java_profiler.Dwarf.Machine.{parse_instructions}
use java_profiler.Dwarf.Parse.{parse}
use java_profiler.Dwarf.Progress.{IsSound, Ensures, Moves}
use java_profiler.Dwarf.Reading.{Run, ok, fault, spent, get_leb}
use java_profiler.Dwarf.Running.{parse_instructions-Ensures}
use java_profiler.Dwarf.Whole.{parse-new-Ensures}
use java_profiler.Dwarf.{DwarfParser, new, add_record}

program : Unit {0}
unfolding new add_record
program = tt

abbrev three_records : Option DwarfParser
three_records = do
  p ← add_record (new 0) 100 7 8 0 0
  q ← add_record p 120 7 8 0 0
  add_record q 120 7 16 0 0

same_layout_kept : (do p ← three_records; some p.count) ≡ some 2
unfolding program
same_layout_kept = refl

-- def_cfa: r7 8, advance: 4, def_cfa_offset: 300, offset: r6 at cfa-16
abbrev instructions : List ℕ
instructions = 0x0c ∷ 7 ∷ 8 ∷ 0x44 ∷ 0x0e ∷ 0xac ∷ 2 ∷ 0x86 ∷ 2 ∷ []

rows : Run (Unit {0}) → List FrameDesc
rows (ok a p) = p.table 0 ∷ p.table 1 ∷ []
rows fault = []
rows spent = []

instructions_run :
    rows (parse_instructions instructions 100 9 (new 0))
    ≡ record { loc = 100; cfa = 7 + 8 * 2 ^ 8; fp_off = 0x80000000; pc_off = 2 ^ 32 - 8 }
      ∷ record { loc = 104; cfa = 7 + 300 * 2 ^ 8; fp_off = 2 ^ 32 - 16; pc_off = 2 ^ 32 - 8 }
      ∷ []
unfolding rows parse_instructions new
instructions_run = refl

three_bytes : leb_bytes 4 100000 ≡ 0xa0 ∷ 0x8d ∷ 0x06 ∷ []
unfolding leb_bytes
three_bytes = refl

get_leb-leb_bytes_example :
    get_leb (0xa0 ∷ 0x8d ∷ 0x06 ∷ []) (new 0)
    ≡ ok 100000 (moved (new 0) (length (leb_bytes 4 100000)))
get_leb-leb_bytes_example =
    get_leb-leb_bytes (0xa0 ∷ 0x8d ∷ 0x06 ∷ []) 100000 (new 0) (omega arith)
      (unfold leb_bytes in unfold new in (refl, (refl, (refl, tt))))

parse_instructions-Ensures_example :
    Ensures (Moves 0 (new 0)) (parse_instructions instructions 100 9 (new 0))
parse_instructions-Ensures_example = parse_instructions-Ensures instructions 100 9 (new 0)

-- A header with one entry, which stands at 32; its common entry stands at 24 with the length 0.
abbrev whole_image : List ℕ
whole_image =
    1 ∷ 0x1b ∷ 3 ∷ 0x3b ∷ 0 ∷ 0 ∷ 0 ∷ 0 ∷ 1 ∷ 0 ∷ 0 ∷ 0 ∷ 0 ∷ 0 ∷ 0 ∷ 0 ∷ 32 ∷ 0 ∷ 0 ∷ 0 ∷ 0 ∷ 0 ∷ 0
    ∷ 0 ∷ 0 ∷ 0 ∷ 0 ∷ 0 ∷ 0 ∷ 0 ∷ 0 ∷ 0 ∷ 15 ∷ 0 ∷ 0 ∷ 0 ∷ 12 ∷ 0 ∷ 0 ∷ 0 ∷ 60 ∷ 0 ∷ 0 ∷ 0 ∷ 9 ∷ 0
    ∷ 0 ∷ 0 ∷ 0 ∷ 0x44 ∷ 0x0e ∷ 16 ∷ []

whole_run :
    rows (parse whole_image 0 (new 0))
    ≡ record { loc = 100; cfa = 7 + 8 * 2 ^ 8; fp_off = 0x80000000; pc_off = 2 ^ 32 - 8 }
      ∷ record { loc = 104; cfa = 7 + 16 * 2 ^ 8; fp_off = 0x80000000; pc_off = 2 ^ 32 - 8 }
      ∷ []
unfolding rows parse new
whole_run = refl

parse-new-Ensures_example : Ensures IsSound (parse whole_image 0 (new 0))
parse-new-Ensures_example = parse-new-Ensures whole_image 0 0
