-- ===== src/Dwarf.antt =====
-- dwarf.cpp: the parser of call frame information, and the table of frame layouts that it fills. The
-- signed numbers are patterns of 32 bits, and allocations succeed. The constants are those of x86-64.
pub mod Packing
pub mod Table
pub mod Reading
pub mod Leb
pub mod Expression
pub mod Machine
pub mod Parse
pub mod Progress
pub mod Running
pub mod Whole
mod Examples
use java_profiler.Base.{
  ℕ, zero, suc, ◌+◌, ◌-◌, ◌*◌, ◌%◌, ◌^◌, bit_and, bit_or, Bool, true, false, ◌&&◌, ◌||◌, ◌==◌, ltb,
  leb, if◌then◌else◌, update, Option, none, some,
}
use java_profiler.CodeCache.{FrameDesc}

-- Addresses are positions in the image that is parsed; `prev` is the index that `_prev` points to.
pub record DwarfParser : Type 0 where
  pub image_base : ℕ
  pub ptr : ℕ
  pub code_align : ℕ
  pub data_align : ℕ
  pub capacity : ℕ
  pub count : ℕ
  pub table : ℕ → FrameDesc
  pub prev : Option ℕ

abbrev pub no_frame : FrameDesc
no_frame = record { loc = 0; cfa = 0; fp_off = 0; pc_off = 0 }

-- The constructor, before it parses.
unfoldable pub new : (image_base : ℕ) → DwarfParser
new image_base = record {
  image_base = image_base;
  ptr = 0;
  code_align = 1;
  data_align = 2 ^ 32 - 8;
  capacity = 128;
  count = 0;
  table = λ _. no_frame;
  prev = none;
}

-- `addRecordRaw`, and the assignment of its result to `_prev`.
unfoldable pub add_record_raw : DwarfParser → FrameDesc → DwarfParser
add_record_raw p d = record p {
  capacity = if leb p.capacity p.count then p.capacity * 2 else p.capacity;
  count = p.count + 1;
  table = update p.table p.count d;
  prev = some p.count;
}

unfoldable pub same_layout : FrameDesc → FrameDesc → Bool
same_layout d e = d.cfa == e.cfa && d.fp_off == e.fp_off && d.pc_off == e.pc_off

-- The test of `addRecord`, with `--_count` where the location is that of the previous entry.
unfoldable pub add_after : DwarfParser → FrameDesc → Option ℕ → DwarfParser
unfolding add_record_raw same_layout
add_after p d none = add_record_raw p d
add_after p d (some i) =
    if (p.table i).loc == d.loc
    then add_record_raw (record p { count = p.count - 1 }) d
    else (if same_layout (p.table i) d then p else add_record_raw p d)

-- `static_cast<u32>(cfa_off) << 8 | static_cast<u32>(cfa_reg & 0xff)`
unfoldable pub pack_cfa : ℕ → ℕ → ℕ
pack_cfa cfa_reg cfa_off = bit_or (cfa_off * 2 ^ 8 % 2 ^ 32) (bit_and cfa_reg 0xff)

-- The asserts of `addRecord`: a register of 8 bits, an offset of 24 bits with its sign.
unfoldable pub packable : ℕ → ℕ → Bool
packable cfa_reg cfa_off =
    leb cfa_reg 0xff && (ltb cfa_off (2 ^ 23) || leb (2 ^ 32 - 2 ^ 23) cfa_off)

-- `addRecord`; a failed assert is `none`.
unfoldable pub add_record :
    DwarfParser → (loc cfa_reg cfa_off fp_off pc_off : ℕ) → Option DwarfParser
unfolding packable pack_cfa add_after
add_record p loc cfa_reg cfa_off fp_off pc_off =
    if packable cfa_reg cfa_off
    then some (
        add_after p
          (record { loc = loc; cfa = pack_cfa cfa_reg cfa_off; fp_off = fp_off; pc_off = pc_off })
          p.prev)
    else none
