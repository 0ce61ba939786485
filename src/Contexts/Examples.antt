-- ===== src/Contexts/Examples.antt =====
-- The pages of a machine with 200000 thread ids, and the theorems at them.
use java_profiler.Base.{ℕ, ◌≡◌, refl, bit_xor, none, some, arith, update, ◌⊎◌}
use java_profiler.Contexts.Writing.{slot, get-set_context}
use java_profiler.Contexts.{
  Context, Contexts, empty, new, get, get_page, reset, zero_page, write_span, write_root,
  set_context,
}

abbrev span : Context
span = record { span_id = 5; root_span_id = 3; checksum = 6; tags = λ _. 0 }

abbrev torn : Context
torn = record { span_id = 5; root_span_id = 3; checksum = 7; tags = λ _. 0 }

-- Thread 1025 has a whole context, thread 1026 one that is being written.
abbrev machine : Contexts
machine = record {
  max_pages = 196;
  pages = update (λ _. none) 1 (some (update (update zero_page 2 torn) 1 span));
}

program : Unit {0}
unfolding new get get_page reset
program = tt

whole_read : get machine 1025 ≡ span
unfolding program
whole_read = refl

torn_read : get machine 1026 ≡ empty
unfolding program
torn_read = refl

pages_of_machine : (new 200000).max_pages ≡ 196
unfolding program
pages_of_machine = refl

reset_read : get (reset machine) 1025 ≡ empty
unfolding program
reset_read = refl

-- Thread 1026 after its next whole context.
whole_write : (get (set_context 1026 9 4 machine) 1026).span_id ≡ 9
unfolding program set_context
whole_write = refl

half_read : get (write_span 1025 9 machine) 1025 ≡ empty
unfolding program write_span
half_read = refl

get-set_context_example :
    (let before = slot machine 1025 in
      let one = write_span 1025 9 machine in
      let two = write_root 1025 4 one in
      let after = set_context 1025 9 4 machine in
      (get after 1025 ≡ record before { span_id = 9; root_span_id = 4; checksum = bit_xor 9 4 })
      × ((◌≡◌ {A = ℕ} 1025 1026) ⊎ (get after 1026 ≡ get machine 1026))
      × ((bit_xor 9 before.root_span_id ≡ before.checksum) ⊎ (get one 1025 ≡ empty))
      × ((bit_xor 9 4 ≡ before.checksum) ⊎ (get two 1025 ≡ empty)))
get-set_context_example = get-set_context 1025 9 4 1026 machine (omega arith)
