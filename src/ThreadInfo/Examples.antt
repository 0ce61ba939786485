-- ===== src/ThreadInfo/Examples.antt =====
-- Two threads, and the theorems at them.
use java_profiler.Base.{ℕ, ◌≡◌, refl, List, [], ◌∷◌, none}
use java_profiler.ThreadInfo.Reads.{read, read-get}
use java_profiler.ThreadInfo.{
  ThreadInfo, new, set, get, get_thread_id, clear_all_but, size, update_thread_name,
}

abbrev main_name : List ℕ
main_name = 109 ∷ []

-- Thread 7 was set, thread 8 only has a name.
abbrev two_threads : ThreadInfo
two_threads = record {
  thread_names = (7, main_name) ∷ (8, 103 ∷ []) ∷ [];
  thread_ids = (7, 1) ∷ [];
}

program : Unit {0}
unfolding new set get get_thread_id clear_all_but size update_thread_name
program = tt

set_and_clear : read (clear_all_but (8 ∷ []) (set new 7 main_name 1)) 7 ≡ (none, 0)
unfolding program
set_and_clear = refl

read-get_example : read (get two_threads 8).1 7 ≡ read two_threads 7
read-get_example = read-get two_threads 8 7
