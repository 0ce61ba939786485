-- ===== src/Arguments.antt =====
-- arguments.cpp and arguments.h: the options of the agent. A `long` and an `int` are patterns of 64 and 32
-- bits, a text is the list of its bytes, and `D` is the type `double`.
pub mod Numbers
pub mod Labels
pub mod Cases
pub mod Parse
pub mod Pattern
pub mod Units
pub mod Hash
pub mod Names
pub mod Range
pub mod Checked
pub mod Expansion
mod Examples
use java_profiler.Base.{
  ℕ, zero, suc, ◌+◌, ◌-◌, ◌*◌, ◌%◌, ◌^◌, bit_and, bit_or, Bool, true, false, ◌&&◌, ◌||◌, not, ◌==◌,
  ltb, leb, if◌then◌else◌, List, [], ◌∷◌, Option, none, some, bytes, str_equal,
}

abbrev pub Text : Type 0
Text = List ℕ

pub data Action : Type 0 where
  action_none action_start action_resume action_stop action_check action_status action_list
        action_version :
      Action

pub data Ring : Type 0 where
  ring_kernel ring_user ring_any : Ring

pub data CStack : Type 0 where
  cstack_default cstack_no cstack_fp cstack_dwarf cstack_lbr cstack_vm cstack_vmx : CStack

pub data WallclockSampler : Type 0 where
  asgct jvmti : WallclockSampler

-- The messages, by the option that they are about.
pub data Message : Type 0 where
  no_memory cpu_negative wall_negative walltpt_invalid event_empty event_duplicate : Message
  interval_invalid jstackdepth_invalid file_empty loglevel_empty : Message

abbrev pub default_cpu_interval : ℕ
default_cpu_interval = 10 * 1000 * 1000

abbrev pub default_alloc_interval : ℕ
default_alloc_interval = 524287

abbrev pub minus_one : ℕ
minus_one = 2 ^ 64 - 1

unfoldable pub is_negative : ℕ → Bool
is_negative x = leb (2 ^ 63) x

unfoldable pub is_positive : ℕ → Bool
is_positive x = ltb 0 x && ltb x (2 ^ 63)

-- `x > 0` for an `int`
unfoldable pub is_positive_int : ℕ → Bool
is_positive_int x = ltb 0 x && ltb x (2 ^ 31)

-- `buf` tells whether `_buf` is allocated.
pub record Arguments (D : Type 0) : Type 0 where
  pub buf : Bool
  pub shared : Bool
  pub persistent : Bool
  pub action : Action
  pub ring : Ring
  pub event : Option Text
  pub interval : ℕ
  pub cpu : ℕ
  pub wall : ℕ
  pub wall_collapsing : Bool
  pub wall_threads_per_tick : ℕ
  pub wallclock_sampler : WallclockSampler
  pub memory : ℕ
  pub record_allocations : Bool
  pub record_liveness : Bool
  pub live_samples_ratio : D
  pub record_heap_usage : Bool
  pub gc_generations : Bool
  pub jstackdepth : ℕ
  pub safe_mode : ℕ
  pub file : Option Text
  pub log : Option Text
  pub loglevel : Option Text
  pub unknown_arg : Option Text
  pub filter : Option Text
  pub cstack : CStack
  pub jfr_options : ℕ
  pub context_attributes : List Text
  pub lightweight : Bool

-- The constructor; `ratio` is 0.1.
abbrev pub initial : {D : Type 0} → (ratio : D) → (persistent : Bool) → Arguments D
initial ratio persistent = record {
  buf = false;
  shared = false;
  persistent = persistent;
  action = action_none;
  ring = ring_any;
  event = none;
  interval = 0;
  cpu = minus_one;
  wall = minus_one;
  wall_collapsing = false;
  wall_threads_per_tick = 16;
  wallclock_sampler = asgct;
  memory = minus_one;
  record_allocations = false;
  record_liveness = false;
  live_samples_ratio = ratio;
  record_heap_usage = false;
  gc_generations = false;
  jstackdepth = 2048;
  safe_mode = 0;
  file = none;
  log = none;
  loglevel = none;
  unknown_arg = none;
  filter = none;
  cstack = cstack_default;
  jfr_options = 0;
  context_attributes = [];
  lightweight = false;
}

-- `hash`. Shifts of 64 and more are not defined; here their count is taken modulo 64.
unfoldable pub hash_loop : Text → (shift h : ℕ) → ℕ
hash_loop [] shift h = h
hash_loop (c ∷ arg) shift h =
    hash_loop arg (shift + 5) (bit_or h (c % 2 ^ 5 * 2 ^ (shift % 64) % 2 ^ 64))

unfoldable pub hash : Text → ℕ
unfolding hash_loop
hash arg = hash_loop arg 0 0

-- `isCpuEvent`
unfoldable pub is_cpu_event : Option Text → Bool
is_cpu_event none = true
is_cpu_event (some e) =
    str_equal e (bytes "cpu") || str_equal e (bytes "itimer") || str_equal e (bytes "ctimer")

module _ {D : Type 0} where
  -- The destructor.
  unfoldable pub destroy : Arguments D → Arguments D
  destroy a = record a { buf = false }

  -- The copy that `save` leaves in its argument.
  unfoldable pub save : Arguments D → Arguments D
  save a = record a { buf = false; shared = true }

  unfoldable pub has_option : Arguments D → (option : ℕ) → Bool
  has_option a option = not (bit_and a.jfr_options option == 0)

  unfoldable pub cpu_sampler_interval : Arguments D → ℕ
  unfolding is_positive is_cpu_event
  cpu_sampler_interval a =
      if is_cpu_event a.event
      then (if is_positive a.cpu
          then a.cpu
          else if is_positive a.interval
          then a.interval
          else default_cpu_interval)
      else 0
