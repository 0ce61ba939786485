-- ===== src/ThreadFilter/Examples.antt =====
-- The filter of a machine with 131072 thread ids, and the theorems at it.
use java_profiler.Base.{
  ℕ, ◌+◌, ◌%◌, ◌^◌, ◌≡◌, refl, arith, Bool, true, false, Option, some, none, if◌then◌else◌, [], ◌∷◌,
  bytes, ◌≤◌, ◌<◌, ◌||◌,
}
use java_profiler.ThreadFilter.Laws.{IsValid, new-IsValid}
use java_profiler.ThreadFilter.Collect.{count_zeros, drop_lowest, word_ids, collect}
use java_profiler.ThreadFilter.Collected.{count, collect-accepts}
use java_profiler.ThreadFilter.Init.{
  read_id, add_span, rounds, next, add_item, add_round, init_loop, init,
}
use java_profiler.ThreadFilter.Spans.{one, span, list_text, list_has, init-list}
use java_profiler.Arguments.{is_positive_int}
use java_profiler.Arguments.Numbers.{strtol}
use java_profiler.ThreadFilter.Sets.{Puts, add-Puts}
use java_profiler.ThreadFilter.{
  ThreadFilter, new, accept, accept_in, bitmap, word_index, bit_of, add, add_to, add_slot, set_bit,
}

abbrev machine : ThreadFilter
machine = new 131072

program : Unit {0}
unfolding new accept accept_in bitmap word_index bit_of add add_to add_slot set_bit
program = tt

abbrev accepts : Option ThreadFilter → ℕ → Bool
accepts none i = false
accepts (some f) i = accept f i

add_then_accept : accepts (add machine 4242) 4242 ≡ true
unfolding program
add_then_accept = refl

add_then_other : accepts (add machine 4242) 4243 ≡ false
unfolding program
add_then_other = refl

add-Puts_example :
    (f' : ThreadFilter) × (add machine 4242 ≡ some f')
    × Puts machine 4242 true
        (if accept machine 4242 then machine.size else (machine.size + 1) % 2 ^ 32)
        f'
add-Puts_example =
    add-Puts machine 4242 (new-IsValid 131072 (omega arith)) (unfold new in omega arith)

two_ones : word_ids 64 128 5 ≡ 128 ∷ 130 ∷ []
unfolding word_ids count_zeros drop_lowest
two_ones = refl

option_text : list_text (span 3 [] 5 []) (one 9 [] ∷ []) ≡ bytes "3-5,9"
option_text = refl

option_read : read_id (bytes "0x1f-40") ≡ (31, bytes "-40")
unfolding read_id strtol
option_read = refl

init_run :
    (accepts (init (some (bytes "3-5,9")) machine) 4 ≡ true)
    × (accepts (init (some (bytes "3-5,9")) machine) 6 ≡ false)
unfolding program init init_loop add_round add_item next rounds add_span read_id strtol
    is_positive_int
init_run = (refl, refl)

init-list_example :
    (f' : ThreadFilter) × (init (some (list_text (span 3 [] 5 []) (one 9 [] ∷ []))) machine
      ≡ some f')
    × (f'.enabled ≡ true)
    × IsValid f'
    × ((j : ℕ) → accept f' j ≡ (list_has (span 3 [] 5 []) (one 9 [] ∷ []) j || accept machine j))
init-list_example =
    init-list (span 3 [] 5 []) (one 9 [] ∷ []) machine (new-IsValid 131072 (omega arith))
      (unfold new in omega arith)
      (unfold new in
        ((omega arith, omega arith, tt, omega arith), (omega arith, omega arith, tt, omega arith)))
      (unfold new in ((omega arith, omega arith, tt, omega arith), tt))

-- The filter with one thread.
marked : (f' : ThreadFilter) × (add machine 4242 ≡ some f') × IsValid f'
marked = let (f', at, p) = add-Puts_example in (f', at, p.valid)

marked_few :
    (f' : ThreadFilter)
    → add machine 4242 ≡ some f'
    → (f'.max_bitmaps ≤ 2 ^ 13) × (4242 < f'.max_thread_id)
unfolding program
marked_few f' e = ground arith

collect-accepts_example :
    count 4242 (collect marked.0 []) ≡ count 4242 [] + (if accept marked.0 4242 then 1 else 0)
collect-accepts_example =
    collect-accepts marked.0 marked.2 (marked_few marked.0 marked.1).0 4242 []
      (marked_few marked.0 marked.1).1
