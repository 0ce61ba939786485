-- ===== src/ThreadInfo.antt =====
-- threadInfo.cpp: the names and the Java ids of threads, in two maps under one mutex; every operation
-- holds it to its end. A thread id is the pattern of an `int`. The counters are not modelled.
pub mod Reads
mod Examples
use java_profiler.Base.{
  ℕ, zero, suc, ◌-◌, ◌%◌, ◌^◌, Bool, true, false, ◌==◌, if◌then◌else◌, length, List, [], ◌∷◌,
  Option, none, some,
}
use java_profiler.Base.Assoc.{find, assign, retain}

pub record ThreadInfo : Type 0 where
  pub thread_names : List (ℕ × List ℕ)
  pub thread_ids : List (ℕ × ℕ)

unfoldable pub new : ThreadInfo
new = record { thread_names = []; thread_ids = [] }

unfoldable pub set : ThreadInfo → ℕ → List ℕ → ℕ → ThreadInfo
unfolding assign
set t tid name java_thread_id = record {
  thread_names = assign t.thread_names tid name;
  thread_ids = assign t.thread_ids tid java_thread_id;
}

-- `_thread_ids[tid]`, which enters 0 where the thread has no id.
unfoldable pub id_at : ThreadInfo → ℕ → Option ℕ → ℕ × ThreadInfo
unfolding assign
id_at t tid (some id) = (id, t)
id_at t tid none = (0, record t { thread_ids = assign t.thread_ids tid 0 })

unfoldable pub get_named : ThreadInfo → ℕ → Option (List ℕ) → (Option (List ℕ) × ℕ) × ThreadInfo
unfolding id_at find
get_named t tid none = ((none, 0), t)
get_named t tid (some name) = let r = id_at t tid (find t.thread_ids tid) in ((some name, r.0), r.1)

-- `get(tid)`
unfoldable pub get : ThreadInfo → ℕ → (Option (List ℕ) × ℕ) × ThreadInfo
unfolding get_named
get t tid = get_named t tid (find t.thread_names tid)

-- An `int` result: the low half of the id, or -1.
unfoldable pub int_id : Option ℕ → ℕ
int_id none = 2 ^ 32 - 1
int_id (some id) = id % 2 ^ 32

unfoldable pub get_thread_id : ThreadInfo → ℕ → ℕ
unfolding int_id find
get_thread_id t tid = int_id (find t.thread_ids tid)

unfoldable pub member : List ℕ → ℕ → Bool
member [] tid = false
member (k ∷ live) tid = let rest = member live tid in if k == tid then true else rest

-- `clearAll()`
unfoldable pub clear_all : ThreadInfo → ThreadInfo
clear_all t = record { thread_names = []; thread_ids = [] }

-- `clearAll(live_thread_ids)`
unfoldable pub clear_all_but : List ℕ → ThreadInfo → ThreadInfo
unfolding member retain clear_all
clear_all_but [] t = clear_all t
clear_all_but (k ∷ live) t = record {
  thread_names = retain (member (k ∷ live)) t.thread_names;
  thread_ids = retain (member (k ∷ live)) t.thread_ids;
}

unfoldable pub size : ThreadInfo → ℕ
size t = length t.thread_names

unfoldable pub resolve : ThreadInfo → ℕ → List ℕ → ThreadInfo
unfolding assign
resolve t tid [] = t
resolve t tid (b ∷ name) = record t { thread_names = assign t.thread_names tid (b ∷ name) }

unfoldable pub update_unless : ThreadInfo → ℕ → (ℕ → List ℕ) → Option (List ℕ) → ThreadInfo
unfolding resolve
update_unless t tid resolver (some name) = t
update_unless t tid resolver none = resolve t tid (resolver tid)

-- `updateThreadName(tid, resolver)`
unfoldable pub update_thread_name : ThreadInfo → ℕ → (ℕ → List ℕ) → ThreadInfo
unfolding update_unless find
update_thread_name t tid resolver = update_unless t tid resolver (find t.thread_names tid)
