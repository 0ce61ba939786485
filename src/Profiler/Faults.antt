-- ===== src/Profiler/Faults.antt =====
-- What goes wrong: a recording that could not be opened, and a dump into the recording itself.
use java_profiler.Base.{
  ℕ, true, false, if◌then◌else◌, ◌∷◌, none, some, ◌≡◌, refl, ap, ◌∙◌, bytes, str_equal,
}
use java_profiler.Arguments.{Arguments}
use java_profiler.Arguments.Pattern.{file}
use java_profiler.CallTraceStorage.Clearing.{IsCleared}
use java_profiler.Dictionary
use java_profiler.SpinLock.{try_lock, unlock, try_lock_shared}
use java_profiler.Profiler.{
  Text, State, new, idle, running, terminated, FlightRecorder, Profiler, World,
}
use java_profiler.Profiler.Locks.{spin}
use java_profiler.Profiler.Beginning.{IsActive}
use java_profiler.Profiler.Dumping.{dump_running-Gives}
use java_profiler.Profiler.Recorder.{start_file, start_recording, stop_recording, record_log}
use java_profiler.Profiler.Control.{is_running}
use java_profiler.Profiler.Action.{dump_running, has_started, dump}

start_file-refused :
    (w : World) (c : ℕ) (name : Text) (r : FlightRecorder)
    → w.opens (c ∷ name) ≡ false
    → start_file w (some (c ∷ name)) r ≡ (
      some (bytes "Could not open Flight Recorder output file"),
      record r { filename = c ∷ name; rec_lock = unlock r.rec_lock },
    )
unfolding start_file
start_file-refused w c name r h = rw h refl

start_file-opened :
    (w : World) (c : ℕ) (name : Text) (r : FlightRecorder)
    → w.opens (c ∷ name) ≡ true
    → start_file w (some (c ∷ name)) r
      ≡ (none, record r { filename = c ∷ name; recording = true; rec_lock = unlock r.rec_lock })
unfolding start_file
start_file-opened w c name r h = rw h refl

-- A recorder whose lock was given back twice.
stuck :
    (r : FlightRecorder) (name : Text)
    → r.rec_lock ≡ 1
    → stop_recording
        (record r { filename = name; recording = true; rec_lock = unlock (unlock r.rec_lock) })
      ≡ none
unfolding stop_recording spin try_lock unlock
stuck r name h = rw h refl

log_none :
    (r : FlightRecorder) (c : ℕ) (name : Text)
    → r.recording ≡ false
    → r.rec_lock ≡ 1
    → record_log (record r { filename = c ∷ name; rec_lock = unlock r.rec_lock }) ≡ none
unfolding record_log try_lock_shared unlock
log_none r c name off held = rw (off, held) refl

-- For a closed recorder and a start whose output file cannot be opened: the start gives an error, and the
-- recorder is then one where a log entry reads the recording that is not there; and after a second
-- start, whose file can be opened, stopping the recording waits for its lock without end.
pub stop_recording_stuck :
    {D : Type 0} (w w' : World) (args args' : Arguments D) (r : FlightRecorder) (c c' : ℕ)
    (name name' : Text)
    → r.recording ≡ false
    → r.rec_lock ≡ 1
    → file w.pid w.date w.getenv args ≡ some (c ∷ name)
    → w.opens (c ∷ name) ≡ false
    → file w'.pid w'.date w'.getenv args' ≡ some (c' ∷ name')
    → w'.opens (c' ∷ name') ≡ true
    → ((start_recording w args r).0 ≡ some (bytes "Could not open Flight Recorder output file"))
      × (record_log (start_recording w args r).1 ≡ none)
      × ((start_recording w' args' (start_recording w args r).1).0 ≡ none)
      × (stop_recording (start_recording w' args' (start_recording w args r).1).1 ≡ none)
unfolding start_recording
stop_recording_stuck w w' args args' r c c' name name' off held f no_file f' opened =
    let r1 = record r { filename = c ∷ name; rec_lock = unlock r.rec_lock } in
    let first = ap (λ n. start_file w n r) f ∙ start_file-refused w c name r no_file in
    let second = ap (λ n. start_file w' n r1) f' ∙ start_file-opened w' c' name' r1 opened in
    rw (first, second) (refl, log_none r c name off held, refl, stuck r (c' ∷ name') held)

running-has_started : (s : State) → is_running s ≡ true → has_started s ≡ true
running-has_started running h = refl
running-has_started new h = absurd (cc)
running-has_started idle h = absurd (cc)
running-has_started terminated h = absurd (cc)

dump-run :
    (w : World) (path : Text) (p : Profiler)
    → is_running p.state ≡ true
    → dump w path p ≡ dump_running w path p
unfolding dump
dump-run w path p on = rw (running-has_started p.state on, on) refl

-- A dump of an active profiler, not in the lightweight mode, into the file that it records to: the dump
-- gives an error and the recording goes on, but the call traces are dropped and the class map is
-- cleared.
pub dump_to_itself :
    (w : World) (path : Text) (p : Profiler)
    → IsActive p
    → p.omit_stacktraces ≡ false
    → str_equal path p.jfr.filename ≡ true
    → (p' : Profiler) × (dump w path p
        ≡ some
            (some (bytes "Can not dump recording to itself. Provide a different file name!"), p'))
      × (p'.jfr.recording ≡ true)
      × IsCleared p'.call_trace_storage
      × (p'.class_map ≡ Dictionary.clear p.class_map)
dump_to_itself w path p (r, on, t, e) full same =
    let (p', run, (r', _, _, _), cleared, map) = dump_running-Gives w path p (r, on, t, e) in
    (
      p',
      dump-run w path p on
          ∙ run
          ∙ ap
              (λ b. some (
                if b
                    then some
                        (bytes "Can not dump recording to itself. Provide a different file name!")
                    else none,
                p',
              ))
              same,
      r'.recorded,
      cleared full,
      map,
    )
