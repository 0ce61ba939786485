-- ===== src/ProfiledThread/Tls.antt =====
-- thread.cpp: which thread of the system has which ProfiledThread in its thread-local slot. A thread is
-- a number; the objects are a heap from addresses to objects. What `pthread_key_create` answers and the
-- thread ids are parameters. `none` as a result is an access to an object that is not there, or outside
-- of the buffer.
use java_profiler.Base.{
  ℕ, zero, suc, ◌+◌, ◌-◌, ◌^◌, ◌%◌, Bool, true, false, ◌||◌, ◌==◌, ltb, leb, if◌then◌else◌, Option,
  none, some, ◌>>=◌, update,
}
use java_profiler.ProfiledThread.{ProfiledThread, for_tid, in_buffer}

-- `key_created` and `initialized` are the two pthread_once flags; `specific` is the slot of the key;
-- `running_buffer_pos` is the 32-bit pattern of its int; `buffer` has `buffer_length` elements, of which
-- `none` is NULL; `warnings` counts the calls of writeLog.
pub record Threads : Type 0 where
  pub tls_key : ℕ
  pub key_created : Bool
  pub initialized : Bool
  pub specific : ℕ → Option ℕ
  pub heap : ℕ → Option ProfiledThread
  pub next : ℕ
  pub buffer_size : ℕ
  pub running_buffer_pos : ℕ
  pub buffer : ℕ → Option ℕ
  pub buffer_length : ℕ
  pub warnings : ℕ

unfoldable pub no_threads : Threads
no_threads = record {
  tls_key = 0;
  key_created = false;
  initialized = false;
  specific = λ _. none;
  heap = λ _. none;
  next = 1;
  buffer_size = 0;
  running_buffer_pos = 0;
  buffer = λ _. none;
  buffer_length = 0;
  warnings = 0;
}

-- `initTLSKey` and `doInitTLSKey`, where `key` is the key that is made.
unfoldable pub init_tls_key : (key : ℕ) → Threads → Threads
init_tls_key key s = if s.key_created then s else record s { tls_key = key; key_created = true }

unfoldable pub set_specific : (thread : ℕ) → Option ℕ → Threads → Threads
set_specific thread value s = record s { specific = update s.specific thread value }

-- `new`
unfoldable pub allocate : ProfiledThread → Threads → Threads
allocate t s = record s { heap = update s.heap s.next (some t); next = s.next + 1 }

-- `delete` of the object at `a`, where the heap has `object`.
unfoldable pub delete_object : (a : ℕ) (object : Option ProfiledThread) → Threads → Option Threads
delete_object a none s = none
delete_object a (some t) s = some (record s { heap = update s.heap a none })

unfoldable pub delete_thread : ℕ → Threads → Option Threads
unfolding delete_object
delete_thread a s = delete_object a (s.heap a) s

-- `initCurrentThread` behind `initTLSKey`, where the slot has `tls`.
unfoldable pub init_unless_set : (tid thread : ℕ) (tls : Option ℕ) → Threads → Threads
unfolding set_specific allocate for_tid
init_unless_set tid thread none s = set_specific thread (some s.next) (allocate (for_tid tid) s)
init_unless_set tid thread (some a) s = s

unfoldable pub init_current_thread : (key tid thread : ℕ) → Threads → Threads
unfolding init_tls_key init_unless_set
init_current_thread key tid thread s =
    let s' = init_tls_key key s in init_unless_set tid thread (s'.specific thread) s'

-- `tls_ref->_tid = OS::threadId()`, where the heap has `object` at `a`.
unfoldable pub name_object : (tid a : ℕ) (object : Option ProfiledThread) → Threads → Option Threads
name_object tid a none s = none
name_object tid a (some t) s =
    some (record s { heap = update s.heap a (some (record t { tid = tid })) })

unfoldable pub name_thread : (tid : ℕ) (tls_ref : Option ℕ) → Threads → Option Threads
unfolding name_object
name_thread tid none s = none
name_thread tid (some a) s = name_object tid a (s.heap a) s

-- `pos < _buffer_size` for the 32-bit pattern of `pos` and a size that is not negative.
unfoldable pub is_below : (pos buffer_size : ℕ) → Bool
is_below pos buffer_size = leb (2 ^ 31) pos || ltb pos buffer_size

-- An int as an index of 64 bits.
unfoldable pub as_index : ℕ → ℕ
as_index pos = if leb (2 ^ 31) pos then pos + (2 ^ 64 - 2 ^ 32) else pos

-- `_buffer[pos]`
unfoldable pub buffer_at : ℕ → Threads → Option (Option ℕ)
buffer_at pos s = if ltb pos s.buffer_length then some (s.buffer pos) else none

unfoldable pub take_slot : (tid thread pos : ℕ) → Threads → Option Threads
unfolding set_specific name_thread buffer_at as_index
take_slot tid thread pos s = do
  tls_ref ← buffer_at (as_index pos) s
  s' ← name_thread tid tls_ref s
  some (set_specific thread tls_ref s')

-- `_running_buffer_pos++` of an atomic int.
unfoldable pub next_slot : Threads → Threads
next_slot s = record s { running_buffer_pos = (s.running_buffer_pos + 1) % 2 ^ 32 }

unfoldable pub warn : Threads → Threads
warn s = record s { warnings = s.warnings + 1 }

-- `initCurrentThreadWithBuffer` behind `initTLSKey`, where the slot has `tls`.
unfoldable pub take_slot_unless_set : (tid thread : ℕ) (tls : Option ℕ) → Threads → Option Threads
unfolding take_slot next_slot warn is_below
take_slot_unless_set tid thread (some a) s = some s
take_slot_unless_set tid thread none s =
    if is_below s.running_buffer_pos s.buffer_size
    then take_slot tid thread s.running_buffer_pos (next_slot s)
    else some (warn (next_slot s))

unfoldable pub init_current_thread_with_buffer : (key tid thread : ℕ) → Threads → Option Threads
unfolding init_tls_key take_slot_unless_set
init_current_thread_with_buffer key tid thread s =
    let s' = init_tls_key key s in take_slot_unless_set tid thread (s'.specific thread) s'

-- SIGUSR1
unfoldable pub signal_handler : (signo key tid thread : ℕ) → Threads → Option Threads
unfolding init_current_thread_with_buffer
signal_handler signo key tid thread s =
    if signo == 10 then init_current_thread_with_buffer key tid thread s else some s

unfoldable pub push_back : ℕ → Threads → Threads
push_back a s = record s {
  buffer = update s.buffer s.buffer_length (some a);
  buffer_length = s.buffer_length + 1;
}

-- The loop of `prepareBuffer` from `i` on, with `left` rounds to go.
unfoldable pub prepare_loop : (left i : ℕ) → Threads → Threads
unfolding push_back allocate in_buffer
prepare_loop zero i s = s
prepare_loop (suc left) i s =
    prepare_loop left (i + 1) (push_back s.next (allocate (in_buffer i) s))

unfoldable pub prepare_buffer : (size : ℕ) → Threads → Threads
unfolding prepare_loop
prepare_buffer size s =
    prepare_loop size 0 (record s { running_buffer_pos = 0; buffer_size = size })

-- `initExistingThreads`, where `created` tells whether the helper thread was made.
unfoldable pub init_existing_threads : (created : Bool) (size : ℕ) → Threads → Threads
unfolding prepare_buffer
init_existing_threads created size s =
    let s' = record s { initialized = true } in
    if s.initialized then s else if created then prepare_buffer size s' else s'

-- `releaseFromBuffer` of the object `t` at `a` with the place `buffer_pos`.
unfoldable pub release_place :
    (a : ℕ) (t : ProfiledThread) (buffer_pos : Option ℕ) → Threads → Option Threads
release_place a t none s = some s
release_place a t (some pos) s =
    if ltb pos s.buffer_length
    then some (record s {
      buffer = update s.buffer pos none;
      heap = update s.heap a (some (record t { buffer_pos = none }));
    })
    else none

unfoldable pub release_from_buffer :
    (a : ℕ) (object : Option ProfiledThread) → Threads → Option Threads
unfolding release_place
release_from_buffer a none s = none
release_from_buffer a (some t) s = release_place a t t.buffer_pos s

-- `release` where the slot has `tls`.
unfoldable pub release_tls : (thread : ℕ) (tls : Option ℕ) → Threads → Option Threads
unfolding release_from_buffer delete_thread set_specific
release_tls thread none s = some s
release_tls thread (some a) s = do
  s' ← release_from_buffer a (s.heap a) s
  s' ← delete_thread a s'
  some (set_specific thread none s')

unfoldable pub release_thread : (thread : ℕ) → Threads → Option Threads
unfolding release_tls
release_thread thread s =
    if s.tls_key == 0 then some s else release_tls thread (s.specific thread) s

-- The end of a thread: the system clears the slot and calls `freeKey` with what it held.
unfoldable pub free_tls : (thread : ℕ) (tls : Option ℕ) → Threads → Option Threads
unfolding delete_thread set_specific
free_tls thread none s = some s
free_tls thread (some a) s = delete_thread a (set_specific thread none s)

unfoldable pub free_key : (thread : ℕ) → Threads → Option Threads
unfolding free_tls
free_key thread s = free_tls thread (s.specific thread) s

unfoldable pub current_thread : (thread : ℕ) → Threads → Option ℕ
current_thread thread s = if s.tls_key == 0 then none else s.specific thread

-- `currentTid`, where `tid` is what the system answers.
unfoldable pub current_tid : (tid thread : ℕ) → Threads → Option ℕ
unfolding current_thread
current_tid tid thread s = elim (current_thread thread s) [
  | none ↦ some tid
  | some a ↦ elim (s.heap a) [ none ↦ none | some t ↦ some t.tid ]
]
