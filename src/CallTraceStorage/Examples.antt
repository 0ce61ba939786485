-- ===== src/CallTraceStorage/Examples.antt =====
-- The first stack traces of a new storage, and the theorems at them.
use java_profiler.Base.{
  ℕ, zero, ◌==◌, Bool-cases, inl, inr, ◌≡◌, ◌≢◌, ◌⊎◌, ◌+◌, ◌*◌, refl, false, List, [], ◌∷◌, some,
  none, arith, update,
}
use java_profiler.CallTraceStorage.Claim.{IsValid, new-IsValid}
use java_profiler.CallTraceStorage.Put.{Outcome, IsOpen, put-Outcome}
use java_profiler.CallTraceStorage.Again.{put_again}
use java_profiler.CallTraceStorage.Clearing.{clear, IsCleared, clear-IsCleared}
use java_profiler.CallTraceStorage.Previous.{put_loses}
use java_profiler.CallTraceStorage.{
  CallFrame, LongHashTable, CallTraceStorage, hit, vacant, new, put, calc_hash, no_sample,
  search_table, find_call_trace,
}
use java_profiler.SpinLock.{admits_shared}

abbrev trace : List CallFrame
trace = record { bci = 7; padding = 0; method_id = 140000 } ∷ []

program : Unit {0}
unfolding new put
program = tt

put_first : (put new trace false 10).0 ≡ 55843
unfolding program
put_first = refl

new-IsOpen : IsOpen new.lock
unfolding new admits_shared
new-IsOpen = (refl, omega arith)

put-Outcome_example :
    Outcome new (calc_hash trace false) 10 (put new trace false 10).0 (put new trace false 10).1
put-Outcome_example = put-Outcome new trace false 10 new-IsValid new-IsOpen

first_stays : (put new trace false 10).1.current_table ≡ new.current_table
unfolding program
first_stays = refl

put_again_example :
    ((put (put new trace false 10).1 trace false 20).0 ≡ (put new trace false 10).0)
    × ((put new trace false 10).1.lock ≡ new.lock)
    × ((put (put new trace false 10).1 trace false 20).1.lock ≡ new.lock)
put_again_example = put_again new trace false 10 20 new-IsValid new-IsOpen first_stays

abbrev first_capacity : ℕ
first_capacity = 65536

abbrev second_capacity : ℕ
second_capacity = 131072

abbrev fifth : ℕ
fifth = 5

-- A doubled table over a first one whose row 1835 was sampled three times.
abbrev sampled : LongHashTable
sampled = record {
  prev = none;
  capacity = 65536;
  size = 1;
  keys = update (λ _. 0) 1835 67371;
  values =
      update (λ _. no_sample) 1835
        (record {
          trace = some (record { truncated = false; frames = trace });
          samples = 3;
          counter = 30;
        });
}

abbrev doubled : LongHashTable
doubled = record {
  prev = some 0;
  capacity = 131072;
  size = 0;
  keys = λ _. 0;
  values = λ _. no_sample;
}

abbrev two_tables : CallTraceStorage
two_tables = record {
  tables = update (λ _. sampled) 1 doubled;
  allocated = 2;
  current_table = 1;
  overflow = 0;
  lock = 0;
}

two_tables-IsValid : IsValid two_tables
two_tables-IsValid = record {
  current = omega arith;
  older = λ i p lt e. elim (Bool-cases (1 == i)) [
    | inl q ↦ let link : some 0 ≡ some p = rw q at e in let same : zero ≡ p = cc in ground arith
    | inr q ↦ let link : none ≡ some p = rw q at e in absurd (cc)
  ];
  slots = λ i lt. elim (Bool-cases (1 == i)) [
    | inl q ↦ rw q (1, omega arith, refl)
    | inr q ↦ rw q (0, omega arith, refl)
  ];
}

two_tables-IsOpen : IsOpen two_tables.lock
unfolding admits_shared
two_tables-IsOpen = (refl, omega arith)

-- A trace whose slot in the doubled table is the place of the trace in row 1835 of the first one.
abbrev other_trace : List CallFrame
other_trace = record { bci = 7; padding = 0; method_id = 140020 } ∷ []

other_trace-slot :
    search_table (two_tables.tables 1) (calc_hash other_trace false) ≡ vacant (65536 + 1835 * 3)
unfolding search_table calc_hash
other_trace-slot = refl

row_before :
    find_call_trace (two_tables.tables 0) 67371
    ≡ some (record { truncated = false; frames = trace })
unfolding find_call_trace
row_before = refl

row_after : find_call_trace ((put two_tables other_trace false 1).1.tables 0) 67371 ≡ none
unfolding program find_call_trace
row_after = refl

put_loses_example :
    (let t = two_tables.tables 0 in
      let t' = (put two_tables other_trace false 1).1.tables 0 in
      ((search_table t 67371 ≡ hit 1835)
        × (search_table t' 67371 ≡ hit 1835)
        × (find_call_trace t' 67371 ≡ none))
      ⊎ ((search_table t 67371 ≢ hit 1835) × (find_call_trace t' 67371 ≡ find_call_trace t 67371)))
put_loses_example =
    put_loses two_tables other_trace false 1 0 1835 two_tables-IsValid two_tables-IsOpen refl
      other_trace-slot 67371

clear-IsCleared_example : (s' : CallTraceStorage) × (clear two_tables ≡ some s') × IsCleared s'
clear-IsCleared_example = clear-IsCleared two_tables two_tables-IsValid refl
