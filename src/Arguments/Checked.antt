-- ===== src/Arguments/Checked.antt =====
-- `parse` where it returns without an error.
use java_profiler.Base.{
  Bool, true, false, ◌&&◌, List, [], ◌∷◌, Option, none, some, cut, ◌≡◌, inl, inr, refl, Bool-cases,
}
use java_profiler.Arguments.Cases.{apply, dispatch}
use java_profiler.Arguments.Labels.{
  Keyword, find_label, labels, opt_start, opt_resume, opt_stop, opt_check, opt_status, opt_list,
  opt_version, opt_jfr, opt_cpu, opt_wall, opt_walltpt, opt_event, opt_memory, opt_generations,
  opt_interval, opt_jstackdepth, opt_safemode, opt_file, opt_log, opt_loglevel, opt_filter,
  opt_allkernel, opt_alluser, opt_cstack, opt_attributes, opt_lightweight, opt_wallsampler,
}
use java_profiler.Arguments.Parse.{
  tokens, later, is_none, parse_arg, parse_args, default_event, finish, parse,
}
use java_profiler.Arguments.{Text, Arguments, Message, is_negative, hash}
use java_profiler.Arguments.Range.{
  IsSane, message_if-none, with_file, set_cpu-IsSane, set_wall-IsSane, set_walltpt-IsSane,
  set_interval-IsSane, set_jstackdepth-IsSane, set_event-IsSane, set_memory-IsSane,
  set_safemode-IsSane, set_jfr-IsSane, set_cstack-IsSane, set_attributes-IsSane,
  set_lightweight-IsSane, set_wallsampler-IsSane,
}

module _ {D : Type 0} (clamped : Text → D) where
  apply-IsSane :
      (k : Keyword) (value : Option Text) (a : Arguments D)
      → (apply clamped k value a).1 ≡ none
      → IsSane a
      → IsSane (apply clamped k value a).0
  unfolding apply
  apply-IsSane opt_start value a e s = s
  apply-IsSane opt_resume value a e s = s
  apply-IsSane opt_stop value a e s = s
  apply-IsSane opt_check value a e s = s
  apply-IsSane opt_status value a e s = s
  apply-IsSane opt_list value a e s = s
  apply-IsSane opt_version value a e s = s
  apply-IsSane opt_jfr value a e s = set_jfr-IsSane clamped value a s
  apply-IsSane opt_cpu value a e s = set_cpu-IsSane clamped value a e s
  apply-IsSane opt_wall value a e s = set_wall-IsSane clamped value a e s
  apply-IsSane opt_walltpt value a e s = set_walltpt-IsSane clamped value a e s
  apply-IsSane opt_event value a e s = set_event-IsSane clamped value a s
  apply-IsSane opt_memory value a e s = set_memory-IsSane clamped value a s
  apply-IsSane opt_generations value a e s = s
  apply-IsSane opt_interval value a e s = set_interval-IsSane clamped value a e s
  apply-IsSane opt_jstackdepth value a e s = set_jstackdepth-IsSane clamped value a e s
  apply-IsSane opt_safemode value a e s = set_safemode-IsSane clamped value a s
  apply-IsSane opt_file value a e s = with_file s (inr (message_if-none _ _ e))
  apply-IsSane opt_log value a e s = s
  apply-IsSane opt_loglevel value a e s = s
  apply-IsSane opt_filter value a e s = s
  apply-IsSane opt_allkernel value a e s = s
  apply-IsSane opt_alluser value a e s = s
  apply-IsSane opt_cstack value a e s = set_cstack-IsSane clamped value a s
  apply-IsSane opt_attributes value a e s = set_attributes-IsSane clamped value a s
  apply-IsSane opt_lightweight value a e s = set_lightweight-IsSane clamped value a s
  apply-IsSane opt_wallsampler value a e s = set_wallsampler-IsSane clamped value a s

  dispatch-IsSane :
      (k : Option Keyword) (arg : Text) (value : Option Text) (a : Arguments D)
      → (dispatch clamped k arg value a).1 ≡ none
      → IsSane a
      → IsSane (dispatch clamped k arg value a).0
  unfolding dispatch
  dispatch-IsSane none arg value a e s = s
  dispatch-IsSane (some k) arg value a e s = apply-IsSane k value a e s

  parse_arg-IsSane :
      (arg : Text) (a : Arguments D)
      → (parse_arg clamped arg a).1 ≡ none
      → IsSane a
      → IsSane (parse_arg clamped arg a).0
  unfolding parse_arg
  parse_arg-IsSane arg a e s =
      dispatch-IsSane (find_label labels (hash (cut 61 arg).0)) (cut 61 arg).0 (cut 61 arg).1 a e s

  -- A message stays, or a later one takes its place.
  later-none : (new msg : Option Message) → later new msg ≡ none → (new ≡ none) × (msg ≡ none)
  later-none none msg e = (refl, e)
  later-none (some new) msg e = absurd (cc)

  message_stays :
      (args : List Text) (a : Arguments D) (msg : Option Message)
      → (parse_args clamped args a msg).1 ≡ none
      → msg ≡ none
  unfolding parse_args
  message_stays [] a msg e = e
  message_stays (arg ∷ args) a msg e =
      (later-none (parse_arg clamped arg a).1 msg (
        message_stays args (parse_arg clamped arg a).0 (later (parse_arg clamped arg a).1 msg) e)).1

  parse_args-IsSane :
      (args : List Text) (a : Arguments D) (msg : Option Message)
      → (parse_args clamped args a msg).1 ≡ none
      → IsSane a
      → IsSane (parse_args clamped args a msg).0
  unfolding parse_args
  parse_args-IsSane [] a msg e s = s
  parse_args-IsSane (arg ∷ args) a msg e s =
      let (a', new) = parse_arg clamped arg a in
      let quiet = later-none new msg (message_stays args a' (later new msg) e) in
      parse_args-IsSane args a' (later new msg) e (parse_arg-IsSane arg a quiet.0 s)

  -- Some profiler is on, or an event is chosen.
  abbrev pub IsEnabled : Arguments D → Type 0
  IsEnabled a =
      (is_none a.event && is_negative a.cpu && is_negative a.wall && is_negative a.memory) ≡ false

  default_event-fine :
      (a : Arguments D)
      → IsSane a
      → IsSane (default_event clamped a) × IsEnabled (default_event clamped a)
  unfolding default_event
  default_event-fine a s =
      elim (Bool-cases
        (is_none a.event && is_negative a.cpu && is_negative a.wall && is_negative a.memory)) [
          | inl e ↦ rw e (s, refl)
          | inr e ↦ rw e (s, e)
        ]

  finish-fine :
      (is_open_j9 : Bool) (a : Arguments D) (msg : Option Message)
      → (finish clamped is_open_j9 a msg).1 ≡ none
      → (msg ≡ none → IsSane a)
      → IsSane (finish clamped is_open_j9 a msg).0 × IsEnabled (finish clamped is_open_j9 a msg).0
  unfolding finish
  finish-fine is_open_j9 a (some msg) e s = absurd (cc)
  finish-fine true a none e s = default_event-fine a (s refl)
  finish-fine false a none e s = default_event-fine a (s refl)

  -- Where `parse` of a text returns `OK`, from options in range, the interval of the cpu and of the wall
  -- profiler is off or not negative, the sampling interval is 0 or positive, the depth and the threads
  -- per tick are positive, the file name is not empty, and there is something to profile: an event is
  -- set, or one of the intervals of cpu, wall and memory is not negative.
  pub parse-fine :
      (is_open_j9 has_memory : Bool) (args : Text) (a : Arguments D)
      → (parse clamped is_open_j9 has_memory (some args) a).1 ≡ none
      → IsSane a
      → IsSane (parse clamped is_open_j9 has_memory (some args) a).0
        × IsEnabled (parse clamped is_open_j9 has_memory (some args) a).0
  unfolding parse
  parse-fine is_open_j9 false args a e s = absurd (cc)
  parse-fine is_open_j9 true args a e s =
      let b = record a { buf = true } in
      let (a', msg) = parse_args clamped (tokens args) b none in
      finish-fine is_open_j9 a' msg e (λ q. parse_args-IsSane (tokens args) b none q s)
