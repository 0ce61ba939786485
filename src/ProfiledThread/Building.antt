-- ===== src/ProfiledThread/Building.antt =====
-- The buffer for the threads that run already is built once, and keeps the ownership.
use java_profiler.Base.{ℕ, zero, suc, ◌+◌, Bool, true, false, ◌≡◌, refl, sym, ◌∙◌, arith}
use java_profiler.ProfiledThread.{in_buffer}
use java_profiler.ProfiledThread.Tls.{
  Threads, allocate, push_back, prepare_loop, prepare_buffer, init_existing_threads,
}
use java_profiler.ProfiledThread.Owners.{Owned}
use java_profiler.ProfiledThread.Places.{build-Owned}
use java_profiler.ProfiledThread.Running.{IsValid, choice}

-- The buffer that is built, with its first `i` places.
record Built (base i : ℕ) (s : Threads) : Type 0 where
  pub places : Owned base 0 i s.specific s.heap (base + i) s.buffer i
  pub end : s.next ≡ base + i
  pub len : s.buffer_length ≡ i
  pub first : s.running_buffer_pos ≡ 0

pushed-Built :
    (base i : ℕ) (s : Threads)
    → Built base i s
    → Built base (i + 1) (push_back s.next (allocate (in_buffer i) s))
unfolding push_back allocate in_buffer
pushed-Built base i s b = record {
  places = rw (b.end, b.len) (build-Owned b.places (in_buffer i) refl);
  end = omega (arith, b.end);
  len = omega (arith, b.len);
  first = b.first;
}

prepare_loop-Built :
    (left i total base size : ℕ) (set : Bool) (s : Threads)
    → i + left ≡ total
    → Built base i s
    → s.buffer_size ≡ size
    → s.initialized ≡ set
    → Built base total (prepare_loop left i s)
      × ((prepare_loop left i s).buffer_size ≡ size)
      × ((prepare_loop left i s).initialized ≡ set)
unfolding prepare_loop
prepare_loop-Built zero i total base size set s e b h k =
    let same : i ≡ total = omega (arith, e) in (rw (← same) b, h, k)
prepare_loop-Built (suc left) i total base size set s e b h k =
    prepare_loop-Built left (i + 1) total base size set
      (push_back s.next (allocate (in_buffer i) s)) (omega (arith, e)) (pushed-Built base i s b) h k

none-Built :
    {n : ℕ} (size : ℕ) (s : Threads)
    → IsValid n s
    → s.buffer_length ≡ 0
    → Built s.next 0 (record s { running_buffer_pos = 0; buffer_size = size; initialized = true })
none-Built size s v empty =
    let o = v.owned in
    record {
      places = record {
        live = o.live;
        apart = o.apart;
        owned_unkept = λ i a p e ge lt. absurd (omega (arith, lt));
        kept = λ p ge lt. absurd (omega (arith, lt));
        placed =
            λ a p t e pos. let (_, lt) = o.placed a p t e pos in absurd (omega (arith, lt, empty));
        below = λ a t e. omega (arith, o.below a t e);
        room = omega arith;
      };
      end = omega arith;
      len = empty;
      first = refl;
    }

Built-IsValid :
    {n : ℕ} (base size : ℕ) (s : Threads)
    → Built base size s × (s.buffer_size ≡ size) × (s.initialized ≡ true)
    → IsValid n s
Built-IsValid {n} base size s (b, h, k) = record {
  base = base;
  owned = rw (b.first, b.end, b.len, h) b.places;
  unused = λ e. absurd (let no : true ≡ false = sym k ∙ e in cc);
  few = omega (arith, b.first);
}

pub init_existing_threads-IsValid :
    {n : ℕ} (created : Bool) (size : ℕ) (s : Threads)
    → IsValid n s
    → IsValid n (init_existing_threads created size s)
unfolding init_existing_threads prepare_buffer
init_existing_threads-IsValid {n} created size s v =
    choice (IsValid n) s.initialized (λ _. v)
      (λ fresh.
        choice (IsValid n) created
          (λ _. Built-IsValid s.next size _ (
            prepare_loop-Built size 0 size s.next size true
              (record s { running_buffer_pos = 0; buffer_size = size; initialized = true })
              (omega arith) (none-Built size s v (v.unused fresh)) refl refl))
          (λ _. record {
            base = v.base;
            owned = v.owned;
            unused = λ e. absurd (let no : true ≡ false = e in cc);
            few = v.few;
          }))
