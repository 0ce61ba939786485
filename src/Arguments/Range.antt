-- ===== src/Arguments/Range.antt =====
-- What holds of the options when `parse` returns without an error.
use java_profiler.Base.{
  ℕ, Bool, true, false, not, ◌==◌, if◌then◌else◌, [], ◌∷◌, Option, none, some, bytes, str_equal,
  cut, ◌≡◌, ◌⊎◌, inl, inr, refl, Bool-cases, has_char,
}
use java_profiler.Arguments.Cases.{
  message_if, is_blank, set_cpu, wall_value, set_wall, set_walltpt, first_event, set_event,
  with_flags, with_ratio, configure, memory_value, set_memory, set_interval, set_jstackdepth,
  set_safemode, set_jfr, set_cstack, set_attributes, set_lightweight, set_wallsampler,
}
use java_profiler.Arguments.{
  Text, Arguments, Message, minus_one, is_negative, is_positive, is_positive_int,
}

pub record InRange (cpu wall interval jstackdepth threads : ℕ) (file : Option Text) : Type 0 where
  pub cpu_in : (cpu ≡ minus_one) ⊎ (is_negative cpu ≡ false)
  pub wall_in : (wall ≡ minus_one) ⊎ (is_negative wall ≡ false)
  pub interval_in : (interval ≡ 0) ⊎ (is_positive interval ≡ true)
  pub jstackdepth_in : is_positive_int jstackdepth ≡ true
  pub threads_in : is_positive_int threads ≡ true
  pub file_in : (file ≡ none) ⊎ (is_blank file ≡ false)

-- Intervals that are off or valid, positive counts, and no empty file name.
abbrev pub IsSane : {D : Type 0} → Arguments D → Type 0
IsSane a = InRange a.cpu a.wall a.interval a.jstackdepth a.wall_threads_per_tick a.file

-- One setting replaced.
module _ {c w i j t : ℕ} {f : Option Text} (s : InRange c w i j t f) where
  pub with_cpu : {x : ℕ} → (x ≡ minus_one) ⊎ (is_negative x ≡ false) → InRange x w i j t f
  with_cpu h = record {
    cpu_in = h;
    wall_in = s.wall_in;
    interval_in = s.interval_in;
    jstackdepth_in = s.jstackdepth_in;
    threads_in = s.threads_in;
    file_in = s.file_in;
  }

  with_wall : {x : ℕ} → (x ≡ minus_one) ⊎ (is_negative x ≡ false) → InRange c x i j t f
  with_wall h = record {
    cpu_in = s.cpu_in;
    wall_in = h;
    interval_in = s.interval_in;
    jstackdepth_in = s.jstackdepth_in;
    threads_in = s.threads_in;
    file_in = s.file_in;
  }

  with_interval : {x : ℕ} → (x ≡ 0) ⊎ (is_positive x ≡ true) → InRange c w x j t f
  with_interval h = record {
    cpu_in = s.cpu_in;
    wall_in = s.wall_in;
    interval_in = h;
    jstackdepth_in = s.jstackdepth_in;
    threads_in = s.threads_in;
    file_in = s.file_in;
  }

  with_jstackdepth : {x : ℕ} → is_positive_int x ≡ true → InRange c w i x t f
  with_jstackdepth h = record {
    cpu_in = s.cpu_in;
    wall_in = s.wall_in;
    interval_in = s.interval_in;
    jstackdepth_in = h;
    threads_in = s.threads_in;
    file_in = s.file_in;
  }

  with_threads : {x : ℕ} → is_positive_int x ≡ true → InRange c w i j x f
  with_threads h = record {
    cpu_in = s.cpu_in;
    wall_in = s.wall_in;
    interval_in = s.interval_in;
    jstackdepth_in = s.jstackdepth_in;
    threads_in = h;
    file_in = s.file_in;
  }

  pub with_file : {x : Option Text} → (x ≡ none) ⊎ (is_blank x ≡ false) → InRange c w i j t x
  with_file h = record {
    cpu_in = s.cpu_in;
    wall_in = s.wall_in;
    interval_in = s.interval_in;
    jstackdepth_in = s.jstackdepth_in;
    threads_in = s.threads_in;
    file_in = h;
  }

pub message_if-none : (test : Bool) (msg : Message) → message_if test msg ≡ none → test ≡ false
message_if-none true msg e = absurd (cc)
message_if-none false msg e = refl

not-false : (b : Bool) → not b ≡ false → b ≡ true
not-false true e = refl
not-false false e = absurd (cc)

module _ {D : Type 0} (clamped : Text → D) where
  if_IsSane :
      (test : Bool) (a b : Arguments D) → IsSane a → IsSane b → IsSane (if test then a else b)
  if_IsSane true a b p q = p
  if_IsSane false a b p q = q

  pub set_cpu-IsSane :
      (value : Option Text) (a : Arguments D)
      → (set_cpu clamped value a).1 ≡ none
      → IsSane a
      → IsSane (set_cpu clamped value a).0
  unfolding set_cpu
  set_cpu-IsSane none a e s = with_cpu s (inr (unfold is_negative in refl))
  set_cpu-IsSane (some value) a e s = with_cpu s (inr (message_if-none _ _ e))

  wall_value-IsSane :
      (value : Text) (a : Arguments D)
      → is_negative (wall_value clamped value a).wall ≡ false
      → IsSane a
      → IsSane (wall_value clamped value a)
  unfolding wall_value
  wall_value-IsSane [] a e s = with_wall s (inr e)
  wall_value-IsSane (c ∷ value) a e s = elim (Bool-cases (c == 126)) [
    | inl q ↦ rw q (with_wall s (inr (rw q at e)))
    | inr q ↦ rw q (with_wall s (inr (rw q at e)))
  ]

  pub set_wall-IsSane :
      (value : Option Text) (a : Arguments D)
      → (set_wall clamped value a).1 ≡ none
      → IsSane a
      → IsSane (set_wall clamped value a).0
  unfolding set_wall
  set_wall-IsSane none a e s = with_wall s (inr (unfold is_negative in refl))
  set_wall-IsSane (some value) a e s = wall_value-IsSane value a (message_if-none _ _ e) s

  pub set_walltpt-IsSane :
      (value : Option Text) (a : Arguments D)
      → (set_walltpt clamped value a).1 ≡ none
      → IsSane a
      → IsSane (set_walltpt clamped value a).0
  unfolding set_walltpt
  set_walltpt-IsSane none a e s = s
  set_walltpt-IsSane (some value) a e s = with_threads s (not-false _ (message_if-none _ _ e))

  pub set_interval-IsSane :
      (value : Option Text) (a : Arguments D)
      → (set_interval clamped value a).1 ≡ none
      → IsSane a
      → IsSane (set_interval clamped value a).0
  unfolding set_interval
  set_interval-IsSane none a e s = s
  set_interval-IsSane (some value) a e s =
      with_interval s (inr (not-false _ (message_if-none _ _ e)))

  pub set_jstackdepth-IsSane :
      (value : Option Text) (a : Arguments D)
      → (set_jstackdepth clamped value a).1 ≡ none
      → IsSane a
      → IsSane (set_jstackdepth clamped value a).0
  unfolding set_jstackdepth
  set_jstackdepth-IsSane none a e s = s
  set_jstackdepth-IsSane (some value) a e s =
      with_jstackdepth s (not-false _ (message_if-none _ _ e))

  first_event-IsSane :
      (value : Text) (e : Option Text) (a : Arguments D)
      → IsSane a
      → IsSane (first_event clamped value e a).0
  unfolding first_event
  first_event-IsSane value none a s = s
  first_event-IsSane value (some e) a s = s

  pub set_event-IsSane :
      (value : Option Text) (a : Arguments D) → IsSane a → IsSane (set_event clamped value a).0
  unfolding set_event
  set_event-IsSane none a s = s
  set_event-IsSane (some []) a s = s
  set_event-IsSane (some (c ∷ t)) a s = elim (Bool-cases (str_equal (c ∷ t) (bytes "alloc"))) [
    | inl e ↦ rw e s
    | inr e ↦ rw e (first_event-IsSane (c ∷ t) a.event a s)
  ]

  with_flags-IsSane :
      (config : Text) (a : Arguments D) → IsSane a → IsSane (with_flags clamped config a)
  unfolding with_flags
  with_flags-IsSane config a s = elim (Bool-cases (has_char 97 config)) [
    | inl e ↦ rw e (if_IsSane (has_char 108 config) _ _ s (if_IsSane (has_char 76 config) _ _ s s))
    | inr e ↦ rw e (if_IsSane (has_char 108 config) _ _ s (if_IsSane (has_char 76 config) _ _ s s))
  ]

  with_ratio-IsSane :
      (ratio : Option Text) (a : Arguments D) → IsSane a → IsSane (with_ratio clamped ratio a)
  unfolding with_ratio
  with_ratio-IsSane none a s = s
  with_ratio-IsSane (some ratio) a s = if_IsSane a.record_liveness _ _ s s

  configure-IsSane :
      (config : Option Text) (a : Arguments D) → IsSane a → IsSane (configure clamped config a)
  unfolding configure
  configure-IsSane none a s = s
  configure-IsSane (some config) a s =
      with_ratio-IsSane (cut 58 config).1 _ (with_flags-IsSane (cut 58 config).0 a s)

  pub set_memory-IsSane :
      (value : Option Text) (a : Arguments D) → IsSane a → IsSane (set_memory clamped value a).0
  unfolding set_memory
  set_memory-IsSane value a s =
      if_IsSane (is_negative (memory_value clamped value).0) _ _ s
        (configure-IsSane (memory_value clamped value).1 _ s)

  -- The options that an argument sets without a test.
  pub set_safemode-IsSane :
      (value : Option Text) (a : Arguments D) → IsSane a → IsSane (set_safemode clamped value a)
  unfolding set_safemode
  set_safemode-IsSane none a s = s
  set_safemode-IsSane (some value) a s = s

  pub set_jfr-IsSane :
      (value : Option Text) (a : Arguments D) → IsSane a → IsSane (set_jfr clamped value a)
  unfolding set_jfr
  set_jfr-IsSane none a s = s
  set_jfr-IsSane (some value) a s = s

  pub set_cstack-IsSane :
      (value : Option Text) (a : Arguments D) → IsSane a → IsSane (set_cstack clamped value a)
  unfolding set_cstack
  set_cstack-IsSane none a s = s
  set_cstack-IsSane (some value) a s = s

  pub set_attributes-IsSane :
      (value : Option Text) (a : Arguments D) → IsSane a → IsSane (set_attributes clamped value a)
  unfolding set_attributes
  set_attributes-IsSane none a s = s
  set_attributes-IsSane (some value) a s = s

  pub set_lightweight-IsSane :
      (value : Option Text) (a : Arguments D) → IsSane a → IsSane (set_lightweight clamped value a)
  unfolding set_lightweight
  set_lightweight-IsSane none a s = s
  set_lightweight-IsSane (some value) a s = s

  pub set_wallsampler-IsSane :
      (value : Option Text) (a : Arguments D) → IsSane a → IsSane (set_wallsampler clamped value a)
  unfolding set_wallsampler
  set_wallsampler-IsSane none a s = s
  set_wallsampler-IsSane (some value) a s = s
