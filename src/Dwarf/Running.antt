-- ===== src/Dwarf/Running.antt =====
-- Every instruction moves on, so that the loops of `parseInstructions` and `parseExpression` end.
use java_profiler.Base.{
  ℕ, zero, suc, ◌+◌, ◌-◌, ◌≤◌, ◌<◌, ◌≡◌, false, ◌==◌, ltb, if◌then◌else◌, List, Option, none, some,
  ◌%◌, ◌^◌, arith, Bool-cases, inl, inr,
}
use java_profiler.Dwarf.Expression.{
  ExprOp, breg_pc, const1u, const1s, const2u, const2s, const4, constu, consts, minus, plus, bad_op,
  Expr, exec_expr, decode_expr, step_expr, parse_expression,
}
use java_profiler.Dwarf.Machine.{
  Instruction, nop, advance1, advance2, advance4, offset_extended, same, register, remember,
  restore, def_cfa, def_cfa_register, def_cfa_offset, def_cfa_expression, expression,
  offset_extended_sf, def_cfa_sf, def_cfa_offset_sf, val_offset, val_expression, args_size, unknown,
  advance, offset, restore_reg, Frame, exec, decode, step, parse_instructions, put_last, put_frame,
  times, pc_rule, advance_by, factored, offset_rule, reg_fp, reg_pc, get_code_align, get_data_align,
}
use java_profiler.Dwarf.Progress.{
  Ensures, ended, Ensures-map, Moves, Advances, proceed-Ensures, bind-Advances, keep, jump,
  pure-Advances, weaken, put_record-Advances, first_byte, get8-Advances, get16-Advances,
  get32-Advances, get_leb-Advances, get_sleb-Advances, skip_leb-Advances,
}
use java_profiler.Dwarf.Reading.{
  ok, M, pure, proceed, and_then, run_while, get_ptr_at, set_ptr, get_leb, get_sleb, skip_leb,
}
use java_profiler.Dwarf.{DwarfParser}

set_ptr-Ensures : (end : ℕ) (p : DwarfParser) → p.ptr ≤ end → Ensures (Moves 0 p) (set_ptr end p)
unfolding set_ptr
set_ptr-Ensures end p le = ended (jump 0 end p (omega arith))

-- One read of a number, and a value made of it.
one_read :
    {A B : Type 0} (m : M A) (f : A → B)
    → Advances 0 m
    → Advances 0 (λ p. proceed (λ x. pure (f x)) (m p))
one_read m f h = bind-Advances 0 m (λ x. pure (f x)) h (λ x. pure-Advances (f x))

-- A loop whose rounds move on ends within as many rounds as there are bytes before `end`.
module _ {S : Type 0} (step : S → M (Option S)) (end : ℕ)
    (round : (s : S) (p : DwarfParser) → p.ptr < end → Ensures (Moves 1 p) (step s p)) where
  another :
      (rest : S → M (Option S)) (o : Option S) (q : DwarfParser)
      → ((s : S) → Ensures (Moves 0 q) (rest s q))
      → Ensures (Moves 0 q) (and_then o rest q)
  another rest none q h = ended keep
  another rest (some s) q h = h s

  run_while-Ensures :
      (fuel : ℕ) (s : S) (p : DwarfParser)
      → end ≤ p.ptr + fuel
      → Ensures (Moves 0 p) (run_while step fuel end s p)
  unfolding run_while
  run_while-Ensures zero s p enough =
      let over : ltb p.ptr end ≡ false = ground arith in rw over (ended keep)
  run_while-Ensures (suc fuel) s p enough = elim (Bool-cases (ltb p.ptr end)) [
    | inr over ↦ rw over (ended keep)
    | inl inside ↦
        let lt : p.ptr < end = ground arith in
        rw inside (
          Ensures-map (λ q m. record { moved = omega (arith, m.moved); sound = m.sound })
            (proceed-Ensures 1 p _ (round s p lt) (λ o q m.
              another (run_while step fuel end) o q
                (λ t. run_while-Ensures fuel t q (omega (arith, m.moved))))))
  ]

module _ (image : List ℕ) where
  leb : Advances 0 (get_leb image)
  leb = weaken (get_leb-Advances image)

  sleb : Advances 0 (get_sleb image)
  sleb = weaken (get_sleb-Advances image)

  exec_expr-Ensures :
      (end : ℕ) (op : ExprOp) (e : Expr) (p : DwarfParser)
      → p.ptr ≤ end
      → Ensures (Moves 0 p) (exec_expr image end op e p)
  unfolding exec_expr
  exec_expr-Ensures end breg_pc e p le = one_read _ _ sleb p
  exec_expr-Ensures end const1u e p le = one_read _ _ (weaken (get8-Advances image)) p
  exec_expr-Ensures end const1s e p le =
      one_read _ _ (one_read _ _ (weaken (get8-Advances image))) p
  exec_expr-Ensures end const2u e p le = one_read _ _ (weaken (get16-Advances image)) p
  exec_expr-Ensures end const2s e p le =
      one_read _ _ (one_read _ _ (weaken (get16-Advances image))) p
  exec_expr-Ensures end const4 e p le = one_read _ _ (weaken (get32-Advances image)) p
  exec_expr-Ensures end constu e p le = one_read _ _ leb p
  exec_expr-Ensures end consts e p le = one_read _ _ sleb p
  exec_expr-Ensures end minus e p le = ended keep
  exec_expr-Ensures end plus e p le = ended keep
  exec_expr-Ensures end bad_op e p le = ended (jump 0 end p (omega arith))

  step_expr-Ensures :
      (end : ℕ) (e : Expr) (p : DwarfParser)
      → p.ptr < end
      → Ensures (Moves 1 p) (step_expr image end e p)
  unfolding step_expr
  step_expr-Ensures end e p lt =
      first_byte image _ p (λ b inside. exec_expr-Ensures end (decode_expr b) e _ (omega arith))

  parse_expression-Advances : Advances 0 (parse_expression image)
  unfolding parse_expression get_ptr_at
  parse_expression-Advances = bind-Advances 0 (get_leb image) _ leb (λ len p.
      proceed-Ensures 0 p _
        (run_while-Ensures (step_expr image (p.ptr + len)) (p.ptr + len)
          (step_expr-Ensures (p.ptr + len)) len _ p (omega arith))
        (λ o q m. ended keep))

  put_frame-Advances : (f : Frame) → Advances 0 (put_frame f)
  unfolding put_frame
  put_frame-Advances f =
      put_record-Advances f.loc f.rules.cfa_reg f.rules.cfa_off f.rules.fp_off f.rules.pc_off

  advance_by-Advances : (n : M ℕ) (f : Frame) → Advances 0 n → Advances 0 (advance_by n f)
  unfolding advance_by get_code_align
  advance_by-Advances n f h p =
      proceed-Ensures 0 p _ (put_frame-Advances f p)
        (λ a q m. one_read n (λ x. record f { loc = (f.loc + times x q.code_align) % 2 ^ 32 }) h q)

  factored-Advances : (n : M ℕ) → Advances 0 n → Advances 0 (factored n)
  unfolding factored get_data_align
  factored-Advances n h p = one_read n _ h p

  offset_rule-Advances :
      (reg : ℕ) (n : M ℕ) (f : Frame)
      → Advances 0 n
      → Advances 0 (offset_rule (skip_leb image) reg n f)
  unfolding offset_rule
  offset_rule-Advances reg n f h = elim (Bool-cases (reg == reg_fp)) [
    | inl e ↦ rw e (one_read _ _ (factored-Advances n h))
    | inr e ↦ rw e (elim (Bool-cases (reg == reg_pc)) [
      | inl q ↦ rw q (one_read _ _ (factored-Advances n h))
      | inr q ↦ rw q (one_read _ _ (skip_leb-Advances image))
    ])
  ]

  -- Two reads that are left, and a number that is.
  skip_twice :
      (f : Frame)
      → Advances 0
          (λ p. proceed (λ _ q. proceed (λ _. pure (some f)) (skip_leb image q)) (skip_leb image p))
  skip_twice f =
      bind-Advances 0 _ (λ _ q. proceed (λ _. pure (some f)) (skip_leb image q))
        (skip_leb-Advances image) (λ _. one_read _ _ (skip_leb-Advances image))

  skip_len :
      (g : ℕ → Frame)
      → Advances 0 (λ p.
        proceed (λ len q. ok (some (g len)) (record q { ptr = q.ptr + len })) (get_leb image p))
  skip_len g =
      bind-Advances 0 _ (λ len q. ok (some (g len)) (record q { ptr = q.ptr + len })) leb
        (λ len q. ended (jump 0 (q.ptr + len) q (omega arith)))

  val_rule :
      (reg : ℕ) (f : Frame)
      → Advances 0 (
          if reg == reg_pc
          then (λ p. proceed (λ pc. pure (some (pc_rule pc f))) (parse_expression image p))
          else (λ p.
              proceed (λ len q. ok (some f) (record q { ptr = q.ptr + len })) (get_leb image p)))
  val_rule reg f = elim (Bool-cases (reg == reg_pc)) [
    | inl e ↦ rw e (one_read _ _ parse_expression-Advances)
    | inr e ↦ rw e (skip_len (λ _. f))
  ]

  exec-Ensures :
      (end : ℕ) (i : Instruction) (f : Frame) (p : DwarfParser)
      → p.ptr ≤ end
      → Ensures (Moves 0 p) (exec image end i f p)
  unfolding exec
  exec-Ensures end nop f p le = ended (jump 0 end p (omega arith))
  exec-Ensures end advance1 f p le =
      one_read _ _ (advance_by-Advances _ f (weaken (get8-Advances image))) p
  exec-Ensures end advance2 f p le =
      one_read _ _ (advance_by-Advances _ f (weaken (get16-Advances image))) p
  exec-Ensures end advance4 f p le =
      one_read _ _ (advance_by-Advances _ f (weaken (get32-Advances image))) p
  exec-Ensures end offset_extended f p le =
      bind-Advances 0 _ _ leb (λ reg. offset_rule-Advances reg _ f leb) p
  exec-Ensures end same f p le = one_read _ _ leb p
  exec-Ensures end register f p le = skip_twice f p
  exec-Ensures end remember f p le = ended keep
  exec-Ensures end restore f p le = ended keep
  exec-Ensures end def_cfa f p le = bind-Advances 0 _ _ leb (λ reg. one_read _ _ leb) p
  exec-Ensures end def_cfa_register f p le = one_read _ _ leb p
  exec-Ensures end def_cfa_offset f p le = one_read _ _ leb p
  exec-Ensures end def_cfa_expression f p le = skip_len _ p
  exec-Ensures end expression f p le =
      bind-Advances 0 _ _ (skip_leb-Advances image) (λ _. skip_len (λ _. f)) p
  exec-Ensures end offset_extended_sf f p le =
      bind-Advances 0 _ _ leb (λ reg. offset_rule-Advances reg _ f sleb) p
  exec-Ensures end def_cfa_sf f p le =
      bind-Advances 0 _ _ leb (λ reg. one_read _ _ (factored-Advances _ sleb)) p
  exec-Ensures end def_cfa_offset_sf f p le = one_read _ _ (factored-Advances _ sleb) p
  exec-Ensures end val_offset f p le = skip_twice f p
  exec-Ensures end val_expression f p le = bind-Advances 0 _ _ leb (λ reg. val_rule reg f) p
  exec-Ensures end args_size f p le = one_read _ _ (skip_leb-Advances image) p
  exec-Ensures end unknown f p le = ended keep
  exec-Ensures end (advance n) f p le = one_read _ _ (advance_by-Advances _ f (pure-Advances n)) p
  exec-Ensures end (offset reg) f p le = offset_rule-Advances reg _ f leb p
  exec-Ensures end (restore_reg reg) f p le = ended keep

  step-Ensures :
      (end : ℕ) (f : Frame) (p : DwarfParser)
      → p.ptr < end
      → Ensures (Moves 1 p) (step image end f p)
  unfolding step
  step-Ensures end f p lt =
      first_byte image _ p (λ b inside. exec-Ensures end (decode b) f _ (omega arith))

  put_last-Advances : (o : Option Frame) → Advances 0 (put_last o)
  unfolding put_last
  put_last-Advances none p = ended keep
  put_last-Advances (some f) p = put_frame-Advances f p

  -- Whatever the image holds, `parseInstructions` has a round left for every round that it takes: it
  -- comes to an end, or to a read behind the image, a failed assert or a shift that is too wide. At an
  -- end the position is not before that of the start, and the table is sound if it was: it has room for
  -- its entries, and `_prev` is the last of them.
  pub parse_instructions-Ensures :
      (loc end : ℕ) (p : DwarfParser) → Ensures (Moves 0 p) (parse_instructions image loc end p)
  unfolding parse_instructions get_ptr_at
  parse_instructions-Ensures loc end p =
      proceed-Ensures 0 p _
        (run_while-Ensures (step image end) end (step-Ensures end) (end - p.ptr) _ p (omega arith))
        (λ o q m. put_last-Advances o q)
