-- ===== src/CallTraceStorage.antt =====
-- callTraceStorage.cpp: the hash tables that give every stack trace its id. The tables are a heap by the
-- order of their allocation. The operations are those of one thread, and allocations succeed, so that
-- a stored trace is never NULL. Counters are not modelled.
pub mod Probing
pub mod Claim
pub mod Put
pub mod Again
pub mod Ids
pub mod Previous
pub mod Clearing
mod Examples
use java_profiler.Base.{
  ℕ, zero, suc, ◌+◌, ◌-◌, ◌*◌, ◌/◌, ◌%◌, ◌^◌, bit_and, bit_xor, Bool, true, false, not, ◌&&◌, ◌==◌,
  ltb, leb, if◌then◌else◌, update, length, List, [], ◌∷◌, Option, none, some,
}
use java_profiler.SpinLock.{try_lock_shared, unlock_shared}

abbrev pub initial_capacity : ℕ
initial_capacity = 65536

abbrev pub overflow_trace_id : ℕ
overflow_trace_id = 0x7fffffff

-- ASGCT_CallFrame, by the patterns of its fields.
pub record CallFrame : Type 0 where
  pub bci : ℕ
  pub padding : ℕ
  pub method_id : ℕ

pub record CallTrace : Type 0 where
  pub truncated : Bool
  pub frames : List CallFrame

pub record CallTraceSample : Type 0 where
  pub trace : Option CallTrace
  pub samples : ℕ
  pub counter : ℕ

pub record LongHashTable : Type 0 where
  pub prev : Option ℕ
  pub capacity : ℕ
  pub size : ℕ
  pub keys : ℕ → ℕ
  pub values : ℕ → CallTraceSample

pub record CallTraceStorage : Type 0 where
  pub tables : ℕ → LongHashTable
  pub allocated : ℕ
  pub current_table : ℕ
  pub overflow : ℕ
  pub lock : ℕ

abbrev pub no_sample : CallTraceSample
no_sample = record { trace = none; samples = 0; counter = 0 }

-- `LongHashTable::allocate`
unfoldable pub new_table : Option ℕ → ℕ → LongHashTable
new_table prev capacity = record {
  prev = prev;
  capacity = capacity;
  size = 0;
  keys = λ _. 0;
  values = λ _. no_sample;
}

unfoldable pub clear_table : LongHashTable → LongHashTable
clear_table t = record t { size = 0; keys = λ _. 0; values = λ _. no_sample }

-- The constructor.
unfoldable pub new : CallTraceStorage
unfolding new_table
new = record {
  tables = λ _. new_table none initial_capacity;
  allocated = 1;
  current_table = 0;
  overflow = 0;
  lock = 0;
}

-- The frames as the words that the hash reads.
unfoldable pub frame_words : List CallFrame → List ℕ
frame_words [] = []
frame_words (f ∷ fs) = (f.bci + f.padding * 2 ^ 32) ∷ f.method_id ∷ frame_words fs

-- `x ^ (x >> R)`
unfoldable pub fold : ℕ → ℕ
fold x = bit_xor x (x / 2 ^ 47)

unfoldable pub mix : ℕ → ℕ
mix x = x * 0xc6a4a7935bd1e995 % 2 ^ 64

-- `while (data != end)`
unfoldable pub hash_words : List ℕ → ℕ → ℕ
unfolding fold mix
hash_words [] h = h
hash_words (k ∷ rest) h = hash_words rest (mix (bit_xor h (mix (fold (mix k)))))

-- `calcHash`. A frame has 16 bytes, so `len & 4` is 0.
unfoldable pub calc_hash : List CallFrame → Bool → ℕ
unfolding hash_words frame_words fold mix
calc_hash frames truncated =
    let h = mix (length frames * 16) * (if truncated then 1 else 2) % 2 ^ 64 in
    fold (mix (fold (hash_words (frame_words frames) h)))

-- Where a search for a hash ends: at the hash, at a free slot, or after as many steps as slots.
pub data Probe : Type 0 where
  hit : ℕ → Probe
  vacant : ℕ → Probe
  exhausted : Probe

-- The loop of `put` and of `findCallTrace`; `left` is capacity - step.
unfoldable pub probe : (keys : ℕ → ℕ) (capacity hash left slot step : ℕ) → Probe
probe keys capacity hash zero slot step = exhausted
probe keys capacity hash (suc left) slot step =
    let rest =
      probe keys capacity hash left (bit_and (slot + (step + 1)) (capacity - 1)) (step + 1) in
    if keys slot == hash
    then hit slot
    else (if keys slot == 0
        then vacant slot
        else (if leb capacity (step + 1) then exhausted else rest))

unfoldable pub search_table : LongHashTable → ℕ → Probe
unfolding probe
search_table t hash = probe t.keys t.capacity hash t.capacity (bit_and hash (t.capacity - 1)) 0

unfoldable pub trace_at : LongHashTable → Probe → Option CallTrace
trace_at t (hit slot) = (t.values slot).trace
trace_at t (vacant slot) = none
trace_at t exhausted = none

-- `findCallTrace`
unfoldable pub find_call_trace : LongHashTable → ℕ → Option CallTrace
unfolding search_table trace_at
find_call_trace t hash = trace_at t (search_table t hash)

-- `storeCallTrace`
unfoldable pub store_call_trace : List CallFrame → Bool → CallTrace
store_call_trace frames truncated = record { truncated = truncated; frames = frames }

abbrev pub set_table : CallTraceStorage → ℕ → LongHashTable → CallTraceStorage
set_table s i t = record s { tables = update s.tables i t }

-- The compare-and-swap of the key and `incSize()`.
unfoldable pub claim_slot : LongHashTable → ℕ → ℕ → LongHashTable
claim_slot t slot hash = record t { keys = update t.keys slot hash; size = (t.size + 1) % 2 ^ 32 }

-- A table of twice the capacity becomes the current one when the claimed table is three quarters full.
unfoldable pub reserve_table : CallTraceStorage → ℕ → CallTraceStorage
unfolding new_table
reserve_table s i =
    if (s.tables i).size == (s.tables i).capacity * 3 % 2 ^ 32 / 4
    then record s {
      tables =
          update s.tables s.allocated (new_table (some i) ((s.tables i).capacity * 2 % 2 ^ 32));
      allocated = s.allocated + 1;
      current_table = s.allocated;
    }
    else s

-- The trace of a hash in the previous table, or else a new copy of the frames.
unfoldable pub or_stored : Option CallTrace → List CallFrame → Bool → CallTrace
unfolding store_call_trace
or_stored (some trace) frames truncated = trace
or_stored none frames truncated = store_call_trace frames truncated

unfoldable pub previous_trace : CallTraceStorage → Option ℕ → ℕ → Option CallTrace
unfolding find_call_trace
previous_trace s none hash = none
previous_trace s (some p) hash = find_call_trace (s.tables p) hash

-- `values()[k]` with the word at `field` set to 0: the trace, the samples or the counter.
unfoldable pub zero_field : CallTraceSample → ℕ → CallTraceSample
zero_field v zero = record v { trace = none }
zero_field v (suc zero) = record v { samples = 0 }
zero_field v (suc (suc field)) = record v { counter = 0 }

-- `keys()[slot] = 0`. The values, of three words each, follow the keys in memory.
unfoldable pub zero_key : LongHashTable → ℕ → LongHashTable
unfolding zero_field
zero_key t slot =
    if ltb slot t.capacity then record t { keys = update t.keys slot 0 } else record t {
      values =
          update t.values ((slot - t.capacity) / 3)
            (zero_field (t.values ((slot - t.capacity) / 3)) ((slot - t.capacity) % 3));
    }

unfoldable pub clear_previous : CallTraceStorage → Option ℕ → ℕ → CallTraceStorage
unfolding zero_key
clear_previous s none slot = s
clear_previous s (some p) slot = set_table s p (zero_key (s.tables p) slot)

unfoldable pub set_trace : LongHashTable → ℕ → CallTrace → LongHashTable
set_trace t slot trace = record t {
  values = update t.values slot (record (t.values slot) { trace = some trace });
}

-- What `put` does with the free slot that it claimed in table `i`.
unfoldable pub settle :
    CallTraceStorage → (i slot hash : ℕ) → List CallFrame → Bool → CallTraceStorage
unfolding claim_slot reserve_table previous_trace or_stored set_trace clear_previous
settle s i slot hash frames truncated =
    let claimed = reserve_table (set_table s i (claim_slot (s.tables i) slot hash)) i in
    let trace = or_stored (previous_trace claimed (claimed.tables i).prev hash) frames truncated in
    clear_previous (set_table claimed i (set_trace (claimed.tables i) slot trace))
      (claimed.tables i).prev slot

-- `atomicInc(s.samples)` and `atomicInc(s.counter, weight)`
unfoldable pub count_sample : LongHashTable → ℕ → ℕ → LongHashTable
count_sample t slot weight = record t {
  values = update t.values slot (record (t.values slot) {
    samples = ((t.values slot).samples + 1) % 2 ^ 64;
    counter = ((t.values slot).counter + weight) % 2 ^ 64;
  });
}

-- `capacity - (INITIAL_CAPACITY - 1) + slot`
unfoldable pub trace_id : ℕ → ℕ → ℕ
trace_id capacity slot = (capacity + 2 ^ 32 - (initial_capacity - 1) + slot) % 2 ^ 32

unfoldable pub counted_at : CallTraceStorage → (i slot weight : ℕ) → ℕ × CallTraceStorage
unfolding trace_id count_sample
counted_at s i slot weight =
    (trace_id (s.tables i).capacity slot, set_table s i (count_sample (s.tables i) slot weight))

unfoldable pub put_at :
    CallTraceStorage → (i hash : ℕ) → List CallFrame → Bool → ℕ → Probe → ℕ × CallTraceStorage
unfolding settle counted_at
put_at s i hash frames truncated weight (hit slot) = counted_at s i slot weight
put_at s i hash frames truncated weight (vacant slot) =
    counted_at (settle s i slot hash frames truncated) i slot weight
put_at s i hash frames truncated weight exhausted =
    (overflow_trace_id, record s { overflow = (s.overflow + 1) % 2 ^ 64 })

-- The part of `put` under the lock.
unfoldable pub put_locked : CallTraceStorage → List CallFrame → Bool → ℕ → ℕ × CallTraceStorage
unfolding put_at search_table calc_hash
put_locked s frames truncated weight =
    put_at s s.current_table (calc_hash frames truncated) frames truncated weight
      (search_table (s.tables s.current_table) (calc_hash frames truncated))

abbrev release : ℕ × CallTraceStorage → ℕ × CallTraceStorage
release (id, s) = (id, record s { lock = unlock_shared s.lock })

unfoldable pub put_with :
    CallTraceStorage → List CallFrame → Bool → ℕ → Bool × ℕ → ℕ × CallTraceStorage
unfolding put_locked
put_with s frames truncated weight (false, lock) = (0, s)
put_with s frames truncated weight (true, lock) =
    release (put_locked (record s { lock = lock }) frames truncated weight)

-- `put`, when no other thread writes the lock between its two accesses.
unfoldable pub put : CallTraceStorage → List CallFrame → Bool → ℕ → ℕ × CallTraceStorage
unfolding put_with try_lock_shared
put s frames truncated weight = put_with s frames truncated weight (try_lock_shared s.lock)
