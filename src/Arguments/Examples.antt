-- ===== src/Arguments/Examples.antt =====
-- Options of the agent as they are written, and the theorems at them.
use java_profiler.Base.{
  str_equal, ℕ, ◌≤◌, ◌≡◌, ◌⊎◌, ◌↔◌, inl, refl, true, false, [], ◌∷◌, Option, none, some, bytes,
  length, arith, has_char,
}
use java_profiler.Arguments.Labels.{opt_stop, labels, find_label}
use java_profiler.Arguments.Checked.{parse-fine, IsEnabled}
use java_profiler.Arguments.Expansion.{file-room}
use java_profiler.Arguments.Hash.{IsName, hash_injective}
use java_profiler.Arguments.Names.{text_of, find_label_iff}
use java_profiler.Arguments.Numbers.{parse_units, nanos, starts_number}
use java_profiler.Arguments.Parse.{parse}
use java_profiler.Arguments.Pattern.{file, limit}
use java_profiler.Arguments.Range.{IsSane}
use java_profiler.Arguments.Units.{Reads, parse_units-written}
use java_profiler.Arguments.{
  Text, Arguments, Message, event_duplicate, initial, hash, is_positive_int,
}

-- A `double` in thousandths.
abbrev ratio_of : Text → ℕ
ratio_of s = 100

abbrev defaults : Arguments ℕ
defaults = initial 100 false

abbrev options : Text
options = bytes "start,cpu=10ms,memory=256k:l,jfr,file=/tmp/a%p.jfr,STOP,nonsense=1"

abbrev parsed : Arguments ℕ × Option Message
parsed = parse ratio_of false true (some options) defaults

parsed_cpu : parsed.0.cpu ≡ 10000000
unfolding parse
parsed_cpu = refl

parsed_memory : parsed.0.memory ≡ 262144
unfolding parse
parsed_memory = refl

parsed_flags : parsed.0.record_allocations ≡ false
unfolding parse
parsed_flags = refl

parsed_unknown : parsed.0.unknown_arg ≡ some (bytes "nonsense")
unfolding parse
parsed_unknown = refl

parsed_twice :
    (parse ratio_of false true (some (bytes "event=cpu,event=wall")) defaults).1
    ≡ some event_duplicate
unfolding parse str_equal
parsed_twice = refl

-- A character outside of the letters that shares its low bits with one.
alias : hash (bytes "3top") ≡ hash (bytes "stop")
unfolding hash
alias = refl

octal : parse_units (bytes "010us") nanos ≡ 8000
unfolding parse_units
octal = refl

file_expanded :
    file
      (bytes "4711")
      (bytes "19700101-000000")
      (λ key. some (bytes "/home/me"))
      (record parsed.0 { file = some (bytes "%{HOME}/a-%p-%n.jfr") })
    ≡ some (bytes "/home/me/a-4711-n.jfr")
unfolding file
file_expanded = refl

stop-IsName : IsName (bytes "stop")
stop-IsName = record {
  letters = (
    (omega arith, omega arith),
    ((omega arith, omega arith), ((omega arith, omega arith), ((omega arith, omega arith), tt))),
  );
  short = omega arith;
}

defaults-IsSane : IsSane defaults
defaults-IsSane = record {
  cpu_in = inl refl;
  wall_in = inl refl;
  interval_in = inl refl;
  jstackdepth_in = unfold is_positive_int in refl;
  threads_in = unfold is_positive_int in refl;
  file_in = inl refl;
}

hash_injective_example : bytes "stop" ≡ bytes "stop"
hash_injective_example = hash_injective (bytes "stop") (bytes "stop") stop-IsName stop-IsName refl

find_label_iff_example :
    (find_label labels (hash (bytes "stop")) ≡ some opt_stop) ↔ (bytes "stop" ≡ text_of opt_stop)
find_label_iff_example = find_label_iff (bytes "stop") opt_stop stop-IsName

parse_units-written_example : Reads 250 nanos (parse_units (bytes "250Ms") nanos) (bytes "Ms")
parse_units-written_example =
    parse_units-written 2 (5 ∷ 0 ∷ []) (bytes "Ms") nanos (omega arith) (omega arith)
      (omega arith, (omega arith, tt)) (unfold starts_number in refl) (omega arith)
      (
        (omega arith, omega arith),
        (
          (omega arith, omega arith),
          ((omega arith, omega arith), ((omega arith, omega arith), tt)),
        ),
      )

parse-fine_example :
    IsSane (parse ratio_of false true (some options) defaults).0
    × IsEnabled ratio_of (parse ratio_of false true (some options) defaults).0
parse-fine_example =
    parse-fine ratio_of false true options defaults (unfold parse in refl) defaults-IsSane

abbrev named : Arguments ℕ
named = record defaults { file = some (bytes "a%p") }

file-room_example :
    ((has_char 37 (bytes "a%p") ≡ false)
      × (file (bytes "4711") [] (λ key. none) named ≡ some (bytes "a%p")))
    ⊎ ((has_char 37 (bytes "a%p") ≡ true)
        × ((t : Text) × (file (bytes "4711") [] (λ key. none) named ≡ some t) × (length t ≤ limit)))
file-room_example = file-room (bytes "4711") [] (λ key. none) named (bytes "a%p") refl
