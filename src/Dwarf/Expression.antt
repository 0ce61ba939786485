-- ===== src/Dwarf/Expression.antt =====
-- `parseExpression`.
use java_profiler.Base.{
  ℕ, ◌+◌, ◌-◌, ◌*◌, ◌%◌, ◌^◌, ◌==◌, ltb, if◌then◌else◌, List, Option, none, some,
}
use java_profiler.Dwarf.Reading.{
  M, pure, ◌>>=◌, ◌>>◌, get_ptr_at, set_ptr, run_while, get8, get16, get32, get_leb, get_sleb,
}

-- The operations of an expression; `bad_op` is the default of their `switch`.
pub data ExprOp : Type 0 where
  breg_pc const1u const1s const2u const2s const4 constu consts minus plus bad_op : ExprOp

unfoldable pub decode_expr : ℕ → ExprOp
decode_expr op =
    if op == 0x80
    then breg_pc
    else if op == 0x08
    then const1u
    else if op == 0x09
    then const1s
    else if op == 0x0a
    then const2u
    else if op == 0x0b
    then const2s
    else if op == 0x0c
    then const4
    else if op == 0x0d
    then const4
    else if op == 0x10
    then constu
    else if op == 0x11
    then consts
    else if op == 0x1c
    then minus
    else if op == 0x22
    then plus
    else bad_op

-- A pattern of `2 * half` values as one of 32 bits with the same sign.
unfoldable pub extend_sign : (half x : ℕ) → ℕ
extend_sign half x = if ltb x half then x else x + 2 ^ 32 - 2 * half

-- `pc_off` and `tos`
pub record Expr : Type 0 where
  pub pc_off : ℕ
  pub tos : ℕ

abbrev pub push : Expr → M ℕ → M (Option Expr)
push e number = do x ← number; pure (some (record e { tos = x }))

-- `pc_off` where the loop ends, and 0 where an operation is not known.
abbrev pub result : Option Expr → ℕ
result none = 0
result (some e) = e.pc_off

module _ (image : List ℕ) where
  -- The cases of the `switch`; `none` is its early return.
  unfoldable pub exec_expr : (end : ℕ) → ExprOp → Expr → M (Option Expr)
  unfolding get8 get16 get32 get_leb get_sleb set_ptr extend_sign
  exec_expr end breg_pc e = do x ← get_sleb image; pure (some (record e { pc_off = x }))
  exec_expr end const1u e = push e (get8 image)
  exec_expr end const1s e = push e (do x ← get8 image; pure (extend_sign (2 ^ 7) x))
  exec_expr end const2u e = push e (get16 image)
  exec_expr end const2s e = push e (do x ← get16 image; pure (extend_sign (2 ^ 15) x))
  exec_expr end const4 e = push e (get32 image)
  exec_expr end constu e = push e (get_leb image)
  exec_expr end consts e = push e (get_sleb image)
  exec_expr end minus e = pure (some (record e { pc_off = (e.pc_off + 2 ^ 32 - e.tos) % 2 ^ 32 }))
  exec_expr end plus e = pure (some (record e { pc_off = (e.pc_off + e.tos) % 2 ^ 32 }))
  exec_expr end bad_op e = do set_ptr end; pure none

  unfoldable pub step_expr : (end : ℕ) → Expr → M (Option Expr)
  unfolding get8 decode_expr exec_expr
  step_expr end e = do op ← get8 image; exec_expr end (decode_expr op) e

  -- A round for each byte of the expression.
  unfoldable pub parse_expression : M ℕ
  unfolding get_leb get_ptr_at run_while step_expr
  parse_expression = do
    len ← get_leb image
    start ← get_ptr_at
    o ← run_while (step_expr (start + len)) len (start + len) (record { pc_off = 0; tos = 0 })
    pure (result o)
