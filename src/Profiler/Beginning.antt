-- ===== src/Profiler/Beginning.antt =====
-- The recording begins: what holds of a profiler with a recording, and the steps of `start` up to it.
use java_profiler.Base.{ℕ, Bool, true, false, ◌||◌, [], ◌∷◌, Option, none, some, ◌≡◌, ◌⊎◌, refl}
use java_profiler.Arguments.{Arguments}
use java_profiler.Arguments.Pattern.{file}
use java_profiler.CallTraceStorage.{CallTraceStorage}
use java_profiler.CallTraceStorage.Clearing.{IsIdle}
use java_profiler.Profiler.{Text, Error, Engine, same, EventMask, FlightRecorder, Profiler, World}
use java_profiler.Profiler.Holding.{IsFree, unlock_held}
use java_profiler.Profiler.Quiet.{IsQuiet, Ends, choice}
use java_profiler.Profiler.Started.{Flags, IsCovered}
use java_profiler.Profiler.Recorder.{start_file, start_recording}
use java_profiler.Profiler.Control.{is_running, recorded, start_jfr}
use java_profiler.Profiler.Engines.{is_dwarf, switch_engines, switch_library_trap, disable}

-- A recording is under way.
pub record Recording (mask : EventMask) (cpu wall alloc : Engine) (jfr : FlightRecorder)
    (started events : Flags) (locks : ℕ → ℕ) (storage : CallTraceStorage) : Type 0 where
  pub recorded : jfr.recording ≡ true
  pub opened : jfr.rec_lock ≡ 0
  pub covered : IsCovered mask cpu wall alloc started
  pub others_disabled : (e : Engine) → (same e cpu || same e wall) ≡ false → events e ≡ false
  pub free : IsFree locks
  pub stored : IsIdle storage

abbrev pub IsRecording : Profiler → Type 0
IsRecording p =
    Recording p.event_mask p.cpu_engine p.wall_engine p.alloc_engine p.jfr p.started p.events
      p.locks p.call_trace_storage

-- The profiler runs, and an engine does.
abbrev pub IsActive : Profiler → Type 0
IsActive p =
    IsRecording p
    × (is_running p.state ≡ true)
    × (p.thread_events ≡ true)
    × ((e : Engine) × (p.started e ≡ true))

abbrev pub IsSound : Profiler → Type 0
IsSound p = IsQuiet p ⊎ IsActive p

-- The output file can be opened.
abbrev pub IsOpen : World → Type 0
IsOpen w = (name : Text) → w.opens name ≡ true

-- What becomes of a closed recorder.
abbrev Opened : Error × FlightRecorder → Type 0
Opened (none, r) = (r.recording ≡ true) × (r.rec_lock ≡ 0)
Opened (some message, r) = (r.recording ≡ false) × (r.rec_lock ≡ 1)

start_file-Opened :
    (w : World) (name : Option Text) (r : FlightRecorder)
    → IsOpen w
    → r.recording ≡ false
    → r.rec_lock ≡ 1
    → Opened (start_file w name r)
unfolding start_file
start_file-Opened w none r open_ a b = (a, b)
start_file-Opened w (some []) r open_ a b = (a, b)
start_file-Opened w (some (c ∷ name)) r open_ a b = rw (open_ (c ∷ name)) (refl, unlock_held b)

-- Both engines are disabled, and the hook is taken out.
pub disable-Quiet :
    (p : Profiler)
    → is_running p.state ≡ false
    → p.jfr.recording ≡ false
    → p.jfr.rec_lock ≡ 1
    → ((e : Engine) → p.started e ≡ false)
    → ((e : Engine) → (same e p.cpu_engine || same e p.wall_engine) ≡ false → p.events e ≡ false)
    → p.thread_events ≡ false
    → IsFree p.locks
    → IsIdle p.call_trace_storage
    → IsQuiet (disable p)
unfolding disable switch_engines switch_library_trap
disable-Quiet p a b c d e f g h = record {
  inactive = a;
  unrecorded = b;
  closed = c;
  stopped = d;
  disabled = λ x.
      let on = same x p.cpu_engine || same x p.wall_engine in
      choice (λ (v : Bool). v ≡ false) on (λ _. refl) (λ off. e x off);
  unhooked = refl;
  silent = f;
  free = g;
  stored = h;
}

-- The recording has begun, and no engine runs yet.
abbrev pub IsBegun : Profiler → Type 0
IsBegun p =
    IsRecording p
    × (is_running p.state ≡ false)
    × (p.thread_events ≡ false)
    × ((e : Engine) → p.started e ≡ false)

abbrev opened_with : FlightRecorder → Profiler → Profiler
opened_with r p = record (switch_library_trap (is_dwarf p.cstack) (switch_engines true p)) {
  jfr = r;
}

recorded-Ends :
    (p : Profiler) (x : Error × FlightRecorder)
    → IsQuiet p
    → Opened x
    → Ends IsBegun IsQuiet (recorded x.0 (opened_with x.1 p))
unfolding recorded switch_engines switch_library_trap
recorded-Ends p (none, r) q (a, b) = (
  (none, _),
  refl,
  (
    record {
      recorded = a;
      opened = b;
      covered = λ e on. absurd (let off = q.stopped e in cc);
      others_disabled = λ e off. rw off (q.disabled e);
      free = q.free;
      stored = q.stored;
    },
    q.inactive,
    q.silent,
    q.stopped,
  ),
)
recorded-Ends p (some message, r) q (a, b) = (
  (some message, _),
  refl,
  disable-Quiet (opened_with r p) q.inactive a b q.stopped (λ e off. rw off (q.disabled e)) q.silent
      q.free q.stored,
)

pub start_jfr-Ends :
    {D : Type 0} (w : World) (args : Arguments D) (p : Profiler)
    → IsOpen w
    → IsQuiet p
    → Ends IsBegun IsQuiet (start_jfr w args p)
unfolding start_jfr start_recording
start_jfr-Ends w args p open_ q =
    recorded-Ends p (start_recording w args p.jfr) q
      (start_file-Opened w (file w.pid w.date w.getenv args) p.jfr open_ q.unrecorded q.closed)
