-- ===== src/ProfiledThread/Safety.antt =====
-- What holds after any sequence of starts, signals, releases and ends of threads.
use java_profiler.Base.{
  ℕ, suc, ◌+◌, ◌^◌, ◌<◌, length, arith, Bool, Option, some, ◌>>=◌, ◌≡◌, refl, ◌∙◌, List, [], ◌∷◌,
}
use java_profiler.ProfiledThread.Tls.{
  Threads, no_threads, init_current_thread, signal_handler, init_existing_threads, release_thread,
  free_key,
}
use java_profiler.ProfiledThread.Owners.{IsLive}
use java_profiler.ProfiledThread.Running.{
  IsValid, Gives, later, bind-some, no_threads-IsValid, init_current_thread-IsValid,
  signal_handler-Gives, release_thread-Gives, free_key-Gives,
}
use java_profiler.ProfiledThread.Building.{init_existing_threads-IsValid}

-- A call on the thread `thread`, whose id is `tid`. `end_thread` is the end of a thread.
pub data Event : Type 0 where
  init_current : (tid thread : ℕ) → Event
  init_existing : (created : Bool) (size : ℕ) → Event
  signal : (signo tid thread : ℕ) → Event
  release_current : (thread : ℕ) → Event
  end_thread : (thread : ℕ) → Event

unfoldable pub step : (key : ℕ) → Event → Threads → Option Threads
unfolding init_current_thread init_existing_threads signal_handler release_thread free_key
step key (init_current tid thread) s = some (init_current_thread key tid thread s)
step key (init_existing created size) s = some (init_existing_threads created size s)
step key (signal signo tid thread) s = signal_handler signo key tid thread s
step key (release_current thread) s = release_thread thread s
step key (end_thread thread) s = free_key thread s

unfoldable pub run : (key : ℕ) → List Event → Threads → Option Threads
unfolding step
run key [] s = some s
run key (e ∷ es) s = step key e s >>= run key es

step-Gives :
    {n : ℕ} (key : ℕ) (e : Event) (s : Threads)
    → IsValid n s
    → n < 2 ^ 31
    → Gives (suc n) (step key e s)
unfolding step
step-Gives key (init_current tid thread) s v small =
    (_, refl, later _ (init_current_thread-IsValid key tid thread s v))
step-Gives key (init_existing created size) s v small =
    (_, refl, later _ (init_existing_threads-IsValid created size s v))
step-Gives key (signal signo tid thread) s v small =
    signal_handler-Gives signo key tid thread s v small
step-Gives key (release_current thread) s v small =
    let (s', at, v') = release_thread-Gives thread s v in (s', at, later s' v')
step-Gives key (end_thread thread) s v small =
    let (s', at, v') = free_key-Gives thread s v in (s', at, later s' v')

run-Gives :
    {n : ℕ} (key : ℕ) (es : List Event) (s : Threads)
    → IsValid n s
    → n + length es < 2 ^ 31
    → (s' : Threads) × (run key es s ≡ some s') × ((m : ℕ) × IsValid m s')
unfolding run
run-Gives {n} key [] s v small = (s, refl, (n, v))
run-Gives {n} key (e ∷ es) s v small =
    let (s', at, v') = step-Gives key e s v (omega arith) in
    let (s2, at', v2) = run-Gives {n = suc n} key es s' v' (omega arith) in
    (s2, bind-some (run key es) at ∙ at', v2)

-- From the start, for any key and any sequence of fewer than 2 ^ 31 initialisations, signals, releases
-- and ends of threads, no step reads, writes or deletes an object that is not there, nor a place outside
-- of the buffer; and in the state that is reached each thread's slot has an object that is there, which
-- no other thread's slot has.
pub run_owned :
    (key : ℕ) (es : List Event)
    → length es < 2 ^ 31
    → (s : Threads) × (run key es no_threads ≡ some s)
      × ((i a : ℕ) → s.specific i ≡ some a → IsLive s.heap a)
      × ((i j a : ℕ) → s.specific i ≡ some a → s.specific j ≡ some a → i ≡ j)
run_owned key es small =
    let (s, at, (_, v)) = run-Gives key es no_threads no_threads-IsValid (omega arith) in
    (s, at, v.owned.live, v.owned.apart)
