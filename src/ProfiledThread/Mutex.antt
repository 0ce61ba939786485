-- ===== src/ProfiledThread/Mutex.antt =====
-- asyncSampleMutex.h: the guard of the calls of AsyncGetCallTrace, on the data of one thread.
use java_profiler.Base.{Bool, true, false, not, if◌then◌else◌}
use java_profiler.ProfiledThread.{ProfiledThread, set_unwinding_java}

-- `_threadLocalData` is `none` for NULL; the data itself is passed through the operations.
pub record AsyncSampleMutex : Type 0 where
  pub thread_local_data : Bool
  pub acquired : Bool

unfoldable pub may_acquire : (thread_local_data : Bool) → ProfiledThread → Bool
may_acquire thread_local_data t = if thread_local_data then not t.unwinding_java else false

unfoldable pub try_acquire : (thread_local_data : Bool) → ProfiledThread → Bool × ProfiledThread
unfolding may_acquire set_unwinding_java
try_acquire d t = if may_acquire d t then (true, set_unwinding_java true t) else (false, t)

unfoldable pub construct :
    (thread_local_data : Bool) → ProfiledThread → AsyncSampleMutex × ProfiledThread
unfolding try_acquire
construct d t =
    let (acquired, t') = try_acquire d t in
    (record { thread_local_data = d; acquired = acquired }, t')

unfoldable pub destroy : AsyncSampleMutex → ProfiledThread → ProfiledThread
unfolding set_unwinding_java
destroy m t = if m.acquired then set_unwinding_java false t else t
