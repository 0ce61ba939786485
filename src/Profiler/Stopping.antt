-- ===== src/Profiler/Stopping.antt =====
-- profiler.cpp: `stop` and `flushJfr`; what they do of the log, the metadata and the output is left out.
use java_profiler.Base.{ℕ, Bool, false, if◌then◌else◌, List, [], ◌∷◌, none, some, ◌>>=◌, bytes}
use java_profiler.ThreadInfo.{ThreadInfo, set, update_thread_name}
use java_profiler.Profiler.{Text, idle, Engine, same, Profiler, Result, World}
use java_profiler.Profiler.Locks.{all_locked}
use java_profiler.Profiler.Recorder.{flush_recording}
use java_profiler.Profiler.Engines.{switch_engines, switch_library_trap, returns}
use java_profiler.Profiler.Control.{and_then, is_running, stop_jfr}

unfoldable pub stop_engine : (wanted : Bool) → Engine → Profiler → Profiler
stop_engine wanted e p =
    if wanted then record p { started = λ x. if same x e then false else p.started x } else p

unfoldable pub stop_engines : Profiler → Profiler
unfolding stop_engine
stop_engines p =
    let p = stop_engine p.event_mask.alloc p.alloc_engine p in
    let p = stop_engine p.event_mask.wall p.wall_engine p in
    stop_engine p.event_mask.cpu p.cpu_engine p

-- `updateJavaThreadNames` and `updateNativeThreadNames`
unfoldable pub set_java_names : List (ℕ × Text × ℕ) → ThreadInfo → ThreadInfo
unfolding set
set_java_names [] t = t
set_java_names ((tid, name, java_thread_id) ∷ threads) t =
    set_java_names threads (set t tid name java_thread_id)

unfoldable pub set_native_names : (ℕ → Text) → List ℕ → ThreadInfo → ThreadInfo
unfolding update_thread_name
set_native_names resolver [] t = t
set_native_names resolver (tid ∷ tids) t =
    set_native_names resolver tids (update_thread_name t tid resolver)

unfoldable pub update_thread_names : World → Profiler → Profiler
unfolding set_java_names set_native_names
update_thread_names w p = record p {
  thread_info =
      set_native_names w.thread_name w.native_threads (set_java_names w.java_threads p.thread_info);
}

unfoldable pub stop_running : World → Profiler → Result
unfolding switch_engines stop_engines switch_library_trap update_thread_names all_locked stop_jfr
    and_then
stop_running w p =
    let p = switch_library_trap false (stop_engines (switch_engines false p)) in
    let p = update_thread_names w (record p { thread_events = false }) in
    and_then (all_locked stop_jfr p) (λ p. some (none, record p { state = idle }))

unfoldable pub stop : World → Profiler → Result
unfolding stop_running
stop w p =
    if is_running p.state then stop_running w p else returns (bytes "Profiler is not active") p

unfoldable pub flush_jfr_body : Profiler → Result
unfolding flush_recording
flush_jfr_body p = do jfr ← flush_recording p.jfr; some (none, record p { jfr = jfr })

unfoldable pub flush_jfr : World → Profiler → Result
unfolding update_thread_names all_locked flush_jfr_body
flush_jfr w p =
    if is_running p.state
    then all_locked flush_jfr_body (update_thread_names w p)
    else returns (bytes "Profiler is not active") p
