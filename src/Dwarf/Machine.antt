-- ===== src/Dwarf/Machine.antt =====
-- `parseInstructions`.
use java_profiler.Base.{
  ℕ, ◌+◌, ◌-◌, ◌*◌, ◌/◌, ◌%◌, ◌^◌, bit_or, ◌==◌, ltb, if◌then◌else◌, List, Option, none, some,
}
use java_profiler.Dwarf.Reading.{
  ok, M, pure, ◌>>=◌, ◌>>◌, get_ptr_at, set_ptr, run_while, put_record, get8, get16, get32, get_leb,
  get_sleb, skip_leb, skip_bytes,
}
use java_profiler.Dwarf.Expression.{parse_expression}

abbrev pub reg_fp : ℕ
reg_fp = 6

abbrev pub reg_sp : ℕ
reg_sp = 7

abbrev pub reg_pc : ℕ
reg_pc = 16

abbrev pub reg_plt : ℕ
reg_plt = 128

abbrev pub reg_invalid : ℕ
reg_invalid = 255

abbrev pub same_fp : ℕ
same_fp = 0x80000000

abbrev pub stack_slot : ℕ
stack_slot = 8

abbrev pub linked_frame_size : ℕ
linked_frame_size = 16

-- The instructions as the `switch` groups them; `unknown` is its default.
pub data Instruction : Type 0 where
  nop advance1 advance2 advance4 offset_extended same register remember restore : Instruction
  def_cfa def_cfa_register def_cfa_offset def_cfa_expression expression : Instruction
  offset_extended_sf def_cfa_sf def_cfa_offset_sf val_offset val_expression args_size : Instruction
  unknown : Instruction
  advance offset restore_reg : ℕ → Instruction

-- The case labels of the inner `switch`.
unfoldable pub decode_extended : ℕ → Instruction
decode_extended op =
    if ltb op 0x02
    then nop
    else if op == 0x02
    then advance1
    else if op == 0x03
    then advance2
    else if op == 0x04
    then advance4
    else if op == 0x05
    then offset_extended
    else if ltb op 0x09
    then same
    else if op == 0x09
    then register
    else if op == 0x0a
    then remember
    else if op == 0x0b
    then restore
    else if op == 0x0c
    then def_cfa
    else if op == 0x0d
    then def_cfa_register
    else if op == 0x0e
    then def_cfa_offset
    else if op == 0x0f
    then def_cfa_expression
    else if op == 0x10
    then expression
    else if op == 0x11
    then offset_extended_sf
    else if op == 0x12
    then def_cfa_sf
    else if op == 0x13
    then def_cfa_offset_sf
    else if ltb op 0x16
    then val_offset
    else if op == 0x16
    then val_expression
    else if op == 0x2e
    then args_size
    else unknown

-- `op >> 6`, and the operand `op & 0x3f`.
unfoldable pub decode : ℕ → Instruction
unfolding decode_extended
decode op =
    if op / 2 ^ 6 == 0
    then decode_extended op
    else if op / 2 ^ 6 == 1
    then advance (op % 2 ^ 6)
    else if op / 2 ^ 6 == 2
    then offset (op % 2 ^ 6)
    else restore_reg (op % 2 ^ 6)

pub record Rules : Type 0 where
  pub cfa_reg : ℕ
  pub cfa_off : ℕ
  pub fp_off : ℕ
  pub pc_off : ℕ

-- The local variables of the loop.
pub record Frame : Type 0 where
  pub loc : ℕ
  pub rules : Rules
  pub remembered : Rules

abbrev pub initial_rules : Rules
initial_rules = record {
  cfa_reg = reg_sp;
  cfa_off = stack_slot;
  fp_off = same_fp;
  pc_off = 2 ^ 32 - stack_slot;
}

abbrev pub initial_frame : ℕ → Frame
initial_frame loc = record { loc = loc; rules = initial_rules; remembered = initial_rules }

-- The product of two patterns of 32 bits.
abbrev pub times : ℕ → ℕ → ℕ
times a b = a * b % 2 ^ 32

abbrev pub set_cfa_reg : ℕ → Frame → Frame
set_cfa_reg x f = record f { rules = record f.rules { cfa_reg = x } }

abbrev pub set_cfa_off : ℕ → Frame → Frame
set_cfa_off x f = record f { rules = record f.rules { cfa_off = x } }

abbrev pub set_fp_off : ℕ → Frame → Frame
set_fp_off x f = record f { rules = record f.rules { fp_off = x } }

abbrev pub set_pc_off : ℕ → Frame → Frame
set_pc_off x f = record f { rules = record f.rules { pc_off = x } }

-- `addRecord(loc, cfa_reg, cfa_off, fp_off, pc_off)`
unfoldable pub put_frame : Frame → M (Unit {0})
unfolding put_record
put_frame f = put_record f.loc f.rules.cfa_reg f.rules.cfa_off f.rules.fp_off f.rules.pc_off

unfoldable pub get_code_align : M ℕ
get_code_align p = ok p.code_align p

unfoldable pub get_data_align : M ℕ
get_data_align p = ok p.data_align p

-- An advance by what `delta` reads.
unfoldable pub advance_by : M ℕ → Frame → M Frame
unfolding put_frame get_code_align
advance_by delta f = do
  put_frame f
  align ← get_code_align
  n ← delta
  pure (record f { loc = (f.loc + times n align) % 2 ^ 32 })

-- A factored offset that `number` reads.
unfoldable pub factored : M ℕ → M ℕ
unfolding get_data_align
factored number = do align ← get_data_align; n ← number; pure (times n align)

-- An offset rule for a register, as in `DW_CFA_offset`.
unfoldable pub offset_rule : M (Unit {0}) → (reg : ℕ) → M ℕ → Frame → M (Option Frame)
unfolding factored
offset_rule skip reg number f =
    if reg == reg_fp
    then (do x ← factored number; pure (some (set_fp_off x f)))
    else if reg == reg_pc
    then (do x ← factored number; pure (some (set_pc_off x f)))
    else (do skip; pure (some f))

-- `fp_off = DW_SAME_FP` where the register is the frame pointer.
abbrev pub same_rule : (reg : ℕ) → Frame → Frame
same_rule reg f = if reg == reg_fp then set_fp_off same_fp f else f

-- `fp_off = DW_PC_OFFSET | (pc_off << 1)` for an offset that is not 0.
abbrev pub pc_rule : (pc : ℕ) → Frame → Frame
pc_rule pc f = if pc == 0 then f else set_fp_off (bit_or 1 (pc * 2 % 2 ^ 32)) f

-- What follows the loop, unless the function returned.
unfoldable pub put_last : Option Frame → M (Unit {0})
unfolding put_frame
put_last none = pure tt
put_last (some f) = put_frame f

module _ (image : List ℕ) where
  -- The cases of the `switch`; `none` is its early return.
  unfoldable pub exec : (end : ℕ) → Instruction → Frame → M (Option Frame)
  unfolding get8 get16 get32 get_leb get_sleb skip_leb parse_expression advance_by factored
      offset_rule set_ptr skip_bytes
  exec end nop f = do set_ptr end; pure (some f)
  exec end advance1 f = do g ← advance_by (get8 image) f; pure (some g)
  exec end advance2 f = do g ← advance_by (get16 image) f; pure (some g)
  exec end advance4 f = do g ← advance_by (get32 image) f; pure (some g)
  exec end offset_extended f = do
    reg ← get_leb image
    offset_rule (skip_leb image) reg (get_leb image) f
  exec end same f = do reg ← get_leb image; pure (some (same_rule reg f))
  exec end register f = do skip_leb image; skip_leb image; pure (some f)
  exec end remember f = pure (some (record f { remembered = f.rules }))
  exec end restore f = pure (some (record f { rules = f.remembered }))
  exec end def_cfa f = do
    reg ← get_leb image
    off ← get_leb image
    pure (some (set_cfa_off off (set_cfa_reg reg f)))
  exec end def_cfa_register f = do reg ← get_leb image; pure (some (set_cfa_reg reg f))
  exec end def_cfa_offset f = do off ← get_leb image; pure (some (set_cfa_off off f))
  exec end def_cfa_expression f = do
    len ← get_leb image
    skip_bytes len
    pure
        (some (set_cfa_off stack_slot (set_cfa_reg (if len == 11 then reg_plt else reg_invalid) f)))
  exec end expression f = do skip_leb image; len ← get_leb image; skip_bytes len; pure (some f)
  exec end offset_extended_sf f = do
    reg ← get_leb image
    offset_rule (skip_leb image) reg (get_sleb image) f
  exec end def_cfa_sf f = do
    reg ← get_leb image
    off ← factored (get_sleb image)
    pure (some (set_cfa_off off (set_cfa_reg reg f)))
  exec end def_cfa_offset_sf f = do off ← factored (get_sleb image); pure (some (set_cfa_off off f))
  exec end val_offset f = do skip_leb image; skip_leb image; pure (some f)
  exec end val_expression f = do
    reg ← get_leb image
    if reg == reg_pc
        then (do pc ← parse_expression image; pure (some (pc_rule pc f)))
        else (do len ← get_leb image; skip_bytes len; pure (some f))
  exec end args_size f = do skip_leb image; pure (some f)
  exec end unknown f = pure none
  exec end (advance n) f = do g ← advance_by (pure n) f; pure (some g)
  exec end (offset reg) f = offset_rule (skip_leb image) reg (get_leb image) f
  exec end (restore_reg reg) f = pure (some (same_rule reg f))

  unfoldable pub step : (end : ℕ) → Frame → M (Option Frame)
  unfolding get8 decode exec
  step end f = do op ← get8 image; exec end (decode op) f

  -- A round for each byte before `end`.
  unfoldable pub parse_instructions : (loc end : ℕ) → M (Unit {0})
  unfolding run_while step put_last get_ptr_at
  parse_instructions loc end = do
    start ← get_ptr_at
    o ← run_while (step end) (end - start) end (initial_frame loc)
    put_last o
