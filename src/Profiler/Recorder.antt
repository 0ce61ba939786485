-- ===== src/Profiler/Recorder.antt =====
-- flightRecorder.cpp: the life of the recording. What it has written stays out; `opens` tells whether
-- `open` gives a descriptor.
use java_profiler.Base.{
  true, false, not, if◌then◌else◌, [], ◌∷◌, Option, none, some, ◌>>=◌, bytes, str_equal,
}
use java_profiler.Arguments.{Arguments}
use java_profiler.Arguments.Pattern.{file}
use java_profiler.Profiler.{Text, Error, FlightRecorder, World}
use java_profiler.Profiler.Locks.{spin}
use java_profiler.SpinLock.{unlock, try_lock_shared, unlock_shared}

unfoldable pub new_recording : World → FlightRecorder → Error × FlightRecorder
new_recording w r =
    if w.opens r.filename
    then (none, record r { recording = true })
    else (some (bytes "Could not open Flight Recorder output file"), r)

unfoldable pub start_file : World → Option Text → FlightRecorder → Error × FlightRecorder
unfolding new_recording
start_file w none r =
    (some (bytes "Flight Recorder output file is not specified"), record r { filename = [] })
start_file w (some []) r =
    (some (bytes "Flight Recorder output file is not specified"), record r { filename = [] })
start_file w (some (c ∷ name)) r =
    let (error, r') = new_recording w (record r { filename = c ∷ name }) in
    (error, record r' { rec_lock = unlock r'.rec_lock })

unfoldable pub start_recording :
    {D : Type 0} → World → Arguments D → FlightRecorder → Error × FlightRecorder
unfolding start_file file
start_recording w args r = start_file w (file w.pid w.date w.getenv args) r

unfoldable pub stop_recording : FlightRecorder → Option FlightRecorder
stop_recording r =
    if r.recording
    then spin r.rec_lock >>= (λ lock. some (record r { recording = false; rec_lock = lock }))
    else some r

unfoldable pub dump_recording : (filename : Text) → FlightRecorder → Option (Error × FlightRecorder)
unfolding str_equal
dump_recording filename r =
    if r.recording
    then spin r.rec_lock >>= (λ lock. some (
      (if str_equal filename r.filename
          then some (bytes "Can not dump recording to itself. Provide a different file name!")
          else none),
      record r { rec_lock = unlock lock },
    ))
    else some (some (bytes "No active recording"), r)

unfoldable pub flush_recording : FlightRecorder → Option FlightRecorder
flush_recording r =
    if r.recording
    then spin r.rec_lock >>= (λ lock. some (record r { rec_lock = unlock lock }))
    else some r

-- `recordLog`, the writing left out; `none` is the access to `_rec` where it is NULL.
unfoldable pub record_log : FlightRecorder → Option FlightRecorder
record_log r =
    let (acquired, lock) = try_lock_shared r.rec_lock in
    if not acquired
    then some r
    else if r.recording
    then some (record r { rec_lock = unlock_shared lock })
    else none
