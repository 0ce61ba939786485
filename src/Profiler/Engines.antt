-- ===== src/Profiler/Engines.antt =====
-- profiler.cpp: the engines and the kind of stack walk that `start` chooses, and what turns them on and off.
use java_profiler.Base.{
  ℕ, bit_or, Bool, true, false, not, ◌&&◌, ◌||◌, if◌then◌else◌, none, some, bytes,
}
use java_profiler.Arguments.{
  Arguments, CStack, cstack_no, cstack_dwarf, cstack_lbr, cstack_vm, cstack_vmx,
}
use java_profiler.Profiler.{Text, Engine, noop_engine, perf_events, same, Profiler, Result, World}
use java_profiler.Profiler.Select.{
  is_error, select_cpu_engine, select_wall_engine, select_alloc_engine,
}

abbrev pub returns : Text → Profiler → Result
returns message p = some (some message, p)

abbrev pub is_dwarf : CStack → Bool
is_dwarf cstack_dwarf = true
is_dwarf _ = false

abbrev pub is_lbr : CStack → Bool
is_lbr cstack_lbr = true
is_lbr _ = false

abbrev pub is_vm : CStack → Bool
is_vm cstack_vm = true
is_vm _ = false

-- CSTACK_VM and CSTACK_VMX
abbrev pub is_vm_or_more : CStack → Bool
is_vm_or_more cstack_vm = true
is_vm_or_more cstack_vmx = true
is_vm_or_more _ = false

-- The kind of stack walk, given whether the cpu engine is that of perf events.
unfoldable pub choose_cstack : World → (perf : Bool) → CStack → CStack
choose_cstack w perf c =
    if is_dwarf c && not w.dwarf_supported
    then cstack_no
    else if is_lbr c && not perf
    then cstack_no
    else c

-- GC_TRACES | LAST_JAVA_PC
unfoldable pub choose_safe_mode : World → ℕ → ℕ
choose_safe_mode w safe_mode = if w.old_or_zing then bit_or safe_mode 48 else safe_mode

unfoldable pub refuse_vm : (refused : Bool) → Profiler → Result
refuse_vm true p = returns (bytes "VMStructs stack walking is not supported on this JVM/platform") p
refuse_vm false p = some (none, p)

unfoldable pub choose_engines : {D : Type 0} → World → Arguments D → Profiler → Result
unfolding refuse_vm choose_cstack choose_safe_mode select_cpu_engine select_wall_engine
choose_engines w args p =
    let cpu = select_cpu_engine w args in
    let p' = record p {
      safe_mode = choose_safe_mode w args.safe_mode;
      cpu_engine = cpu;
      wall_engine = select_wall_engine w args;
      cstack = choose_cstack w (same cpu perf_events) args.cstack;
    } in
    refuse_vm (is_vm args.cstack && not w.has_stack_structs) p'

-- `enableEvents` of both engines, and `switchLibraryTrap`.
unfoldable pub switch_engines : (enabled : Bool) → Profiler → Profiler
switch_engines enabled p = record p {
  events = λ e. if same e p.cpu_engine || same e p.wall_engine then enabled else p.events e;
}

unfoldable pub switch_library_trap : (enable : Bool) → Profiler → Profiler
switch_library_trap enable p = record p { library_trap = enable }

unfoldable pub disable : Profiler → Profiler
unfolding switch_engines switch_library_trap
disable p = switch_library_trap false (switch_engines false p)

-- `_engine->start(args)`: whether the engine was activated.
unfoldable pub start_engine : World → Engine → Profiler → Bool × Profiler
start_engine w e p =
    if is_error (w.start e)
    then (false, p)
    else (true, record p { started = λ x. if same x e then true else p.started x })

unfoldable pub activate : World → (wanted : Bool) → Engine → Profiler → Bool × Profiler
unfolding start_engine
activate w wanted e p =
    if wanted && not (same e noop_engine) then start_engine w e p else (false, p)

unfoldable pub activate_alloc : World → (wanted : Bool) → Profiler → Bool × Profiler
unfolding activate select_alloc_engine
activate_alloc w wanted p =
    if wanted
    then activate w true (select_alloc_engine w) (record p { alloc_engine = select_alloc_engine w })
    else (false, p)

unfoldable pub activate_all : World → Profiler → Bool × Profiler
unfolding activate activate_alloc
activate_all w p =
    let (cpu, p) = activate w p.event_mask.cpu p.cpu_engine p in
    let (wall, p) = activate w p.event_mask.wall p.wall_engine p in
    let (alloc, p) = activate_alloc w p.event_mask.alloc p in (cpu || wall || alloc, p)
