-- ===== src/Arguments/Labels.antt =====
-- arguments.cpp: the labels of the simulated `switch` of `parse`, in their order, and which one an argument has.
use java_profiler.Base.{ℕ, ◌==◌, if◌then◌else◌, List, [], ◌∷◌, Option, none, some, bytes}
use java_profiler.Arguments.{Text, hash}

pub data Keyword : Type 0 where
  opt_start opt_resume opt_stop opt_check opt_status opt_list opt_version opt_jfr opt_cpu : Keyword
  opt_wall opt_walltpt opt_event opt_memory opt_generations opt_interval opt_jstackdepth : Keyword
  opt_safemode opt_file opt_log opt_loglevel opt_filter opt_allkernel opt_alluser opt_cstack :
      Keyword
  opt_attributes opt_lightweight opt_wallsampler : Keyword

abbrev pub labels : List (Text × Keyword)
labels =
    (bytes "start", opt_start)
    ∷ (bytes "resume", opt_resume)
    ∷ (bytes "stop", opt_stop)
    ∷ (bytes "check", opt_check)
    ∷ (bytes "status", opt_status)
    ∷ (bytes "list", opt_list)
    ∷ (bytes "version", opt_version)
    ∷ (bytes "jfr", opt_jfr)
    ∷ (bytes "cpu", opt_cpu)
    ∷ (bytes "wall", opt_wall)
    ∷ (bytes "walltpt", opt_walltpt)
    ∷ (bytes "event", opt_event)
    ∷ (bytes "memory", opt_memory)
    ∷ (bytes "generations", opt_generations)
    ∷ (bytes "interval", opt_interval)
    ∷ (bytes "jstackdepth", opt_jstackdepth)
    ∷ (bytes "safemode", opt_safemode)
    ∷ (bytes "file", opt_file)
    ∷ (bytes "log", opt_log)
    ∷ (bytes "loglevel", opt_loglevel)
    ∷ (bytes "filter", opt_filter)
    ∷ (bytes "allkernel", opt_allkernel)
    ∷ (bytes "alluser", opt_alluser)
    ∷ (bytes "cstack", opt_cstack)
    ∷ (bytes "attributes", opt_attributes)
    ∷ (bytes "lightweight", opt_lightweight)
    ∷ (bytes "wallsampler", opt_wallsampler)
    ∷ []

-- `else if (arg_hash == HASH(s))`
unfoldable pub find_label : List (Text × Keyword) → (arg_hash : ℕ) → Option Keyword
unfolding hash
find_label [] arg_hash = none
find_label ((name, k) ∷ rest) arg_hash =
    let others = find_label rest arg_hash in if arg_hash == hash name then some k else others
