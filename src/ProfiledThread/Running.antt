-- ===== src/ProfiledThread/Running.antt =====
-- The operations of thread.cpp keep the ownership, and reach no object that is not there.
use java_profiler.Base.{
  update-here, ℕ, suc, ◌+◌, ◌%◌, ◌^◌, ◌≤◌, ◌<◌, leb, Bool, true, false, ◌==◌, ltb, if◌then◌else◌,
  update, Option, none, some, ◌>>=◌, ◌≡◌, refl, ap, ◌∙◌, arith, inl, inr,
}
use java_profiler.ProfiledThread.{ProfiledThread, for_tid}
use java_profiler.ProfiledThread.Tls.{
  Threads, no_threads, init_tls_key, set_specific, delete_thread, init_unless_set,
  init_current_thread, take_slot, next_slot, is_below, as_index, warn, take_slot_unless_set,
  signal_handler, release_place, release_from_buffer, release_tls, release_thread, free_tls,
  free_key,
}
use java_profiler.ProfiledThread.Owners.{
  never_there, Owned, assign-Owned, clear-Owned, clear-IsFree, delete-Owned, allocate-Owned,
  next-IsFree,
}
use java_profiler.ProfiledThread.Places.{next-Owned, next_place-IsFree, write-Owned, unplace-Owned}

-- The ownership with the objects of the buffer from `base` on.
abbrev pub OwnedFrom : ℕ → Threads → Type 0
OwnedFrom base s =
    Owned base s.running_buffer_pos s.buffer_size s.specific s.heap s.next s.buffer s.buffer_length

-- At most `n` slots were asked for since the buffer was built.
pub record IsValid (n : ℕ) (s : Threads) : Type 0 where
  pub base : ℕ
  pub owned : OwnedFrom base s
  pub unused : s.initialized ≡ false → s.buffer_length ≡ 0
  pub few : s.running_buffer_pos ≤ n

-- A result that is there and valid.
abbrev pub Gives : ℕ → Option Threads → Type 0
Gives n r = (s : Threads) × (r ≡ some s) × IsValid n s

pub later : {n : ℕ} (s : Threads) → IsValid n s → IsValid (suc n) s
later s v = record { base = v.base; owned = v.owned; unused = v.unused; few = omega (arith, v.few) }

pub choice :
    {A : Type 0} (P : A → Type 0) (b : Bool) {x y : A}
    → (b ≡ true → P x)
    → (b ≡ false → P y)
    → P (if b then x else y)
choice P true p q = p refl
choice P false p q = q refl

pub no_threads-IsValid : IsValid 0 no_threads
unfolding no_threads
no_threads-IsValid = record {
  base = 0;
  owned = record {
    live = λ i a e. absurd (never_there e);
    apart = λ i j a e. absurd (never_there e);
    owned_unkept = λ i a p e. absurd (never_there e);
    kept = λ p ge lt. absurd (omega arith);
    placed = λ a p t e. absurd (never_there e);
    below = λ a t e. absurd (never_there e);
    room = omega arith;
  };
  unused = λ _. refl;
  few = omega arith;
}

pub init_tls_key-IsValid :
    {n : ℕ} (key : ℕ) (s : Threads) → IsValid n s → IsValid n (init_tls_key key s)
unfolding init_tls_key
init_tls_key-IsValid {n} key s v =
    choice (IsValid n) s.key_created (λ _. v)
      (λ _. record { base = v.base; owned = v.owned; unused = v.unused; few = v.few })

init_unless_set-IsValid :
    {n : ℕ} (tid thread : ℕ) (tls : Option ℕ) (s : Threads)
    → IsValid n s
    → IsValid n (init_unless_set tid thread tls s)
unfolding init_unless_set
init_unless_set-IsValid {n} tid thread (some a) s v = v
init_unless_set-IsValid {n} tid thread none s v =
    let o = v.owned in
    let f = next-IsFree o in
    record {
      base = v.base;
      owned =
          assign-Owned (allocate-Owned o (for_tid tid) refl) thread s.next
            (for_tid tid, update-here s.heap s.next (some (for_tid tid))) f;
      unused = v.unused;
      few = v.few;
    }

pub init_current_thread-IsValid :
    {n : ℕ} (key tid thread : ℕ) (s : Threads)
    → IsValid n s
    → IsValid n (init_current_thread key tid thread s)
unfolding init_current_thread
init_current_thread-IsValid {n} key tid thread s v =
    init_unless_set-IsValid tid thread ((init_tls_key key s).specific thread) (init_tls_key key s)
      (init_tls_key-IsValid key s v)

free_tls-Gives :
    {n : ℕ} (thread : ℕ) (tls : Option ℕ) (s : Threads)
    → IsValid n s
    → s.specific thread ≡ tls
    → Gives n (free_tls thread tls s)
unfolding free_tls
free_tls-Gives {n} thread none s v e = (s, refl, v)
free_tls-Gives {n} thread (some a) s v e =
    let o = v.owned in
    let (t, l) = o.live thread a e in
    (
      record s { specific = update s.specific thread none; heap = update s.heap a none },
      rw l refl,
      record {
        base = v.base;
        owned = delete-Owned (clear-Owned o thread) a (clear-IsFree o thread a e);
        unused = v.unused;
        few = v.few;
      },
    )

pub free_key-Gives : {n : ℕ} (thread : ℕ) (s : Threads) → IsValid n s → Gives n (free_key thread s)
unfolding free_key
free_key-Gives {n} thread s v = free_tls-Gives thread (s.specific thread) s v refl

release_place-Gives :
    {n : ℕ} (a : ℕ) (t : ProfiledThread) (pos : Option ℕ) (s : Threads)
    → (v : IsValid n s) → s.heap a ≡ some t
    → t.buffer_pos ≡ pos
    → (i : ℕ) → s.specific i ≡ some a
    → (s' : Threads) × (release_place a t pos s ≡ some s')
      × IsValid n s'
      × (s'.specific ≡ s.specific)
unfolding release_place
release_place-Gives {n} a t none s v l e i own = (s, refl, v, refl)
release_place-Gives {n} a t (some pos) s v l e i own =
    let o = v.owned in
    let (at, lt) = o.placed a pos t l e in
    let h : ltb pos s.buffer_length ≡ true = ground (arith, lt) in
    (
      record s {
        buffer = update s.buffer pos none;
        heap = update s.heap a (some (record t { buffer_pos = none }));
      },
      rw h refl,
      record {
        base = v.base;
        owned =
            unplace-Owned (write-Owned o a t (record t { buffer_pos = none }) l (inr refl)) pos
              (λ p ge below same. o.owned_unkept i a p own ge below (at ∙ ap (v.base +◌) same));
        unused = v.unused;
        few = v.few;
      },
      refl,
    )

pub bind-some :
    {A B : Type 0} {r : Option A} {x : A} (f : A → Option B) → r ≡ some x → (r >>= f) ≡ f x
bind-some f e = rw e refl

release_from_buffer-Gives :
    {n : ℕ} (a : ℕ) (s : Threads)
    → IsValid n s
    → (i : ℕ) → s.specific i ≡ some a
    → (s' : Threads) × (release_from_buffer a (s.heap a) s ≡ some s')
      × IsValid n s'
      × (s'.specific ≡ s.specific)
unfolding release_from_buffer
release_from_buffer-Gives {n} a s v i own =
    let (t, l) = v.owned.live i a own in
    let (s', e, v', same) = release_place-Gives a t t.buffer_pos s v l refl i own in
    (s', ap (λ (o : Option ProfiledThread). release_from_buffer a o s) l ∙ e, v', same)

-- The object of a thread is deleted, and its slot is cleared.
drop_object-Gives :
    {n : ℕ} (thread a : ℕ) (s : Threads)
    → IsValid n s
    → s.specific thread ≡ some a
    → Gives n (delete_thread a s >>= λ s'. some (set_specific thread none s'))
unfolding delete_thread set_specific
drop_object-Gives {n} thread a s v e =
    let o = v.owned in
    let (t, l) = o.live thread a e in
    (
      record s { specific = update s.specific thread none; heap = update s.heap a none },
      rw l refl,
      record {
        base = v.base;
        owned = delete-Owned (clear-Owned o thread) a (clear-IsFree o thread a e);
        unused = v.unused;
        few = v.few;
      },
    )

release_tls-Gives :
    {n : ℕ} (thread : ℕ) (tls : Option ℕ) (s : Threads)
    → IsValid n s
    → s.specific thread ≡ tls
    → Gives n (release_tls thread tls s)
unfolding release_tls
release_tls-Gives {n} thread none s v e = (s, refl, v)
release_tls-Gives {n} thread (some a) s v e =
    let (s1, at, v1, same) = release_from_buffer-Gives a s v thread e in
    let (s2, at2, v2) =
      drop_object-Gives thread a s1 v1 (ap (λ (f : ℕ → Option ℕ). f thread) same ∙ e) in
    (s2, bind-some _ at ∙ at2, v2)

pub release_thread-Gives :
    {n : ℕ} (thread : ℕ) (s : Threads) → IsValid n s → Gives n (release_thread thread s)
unfolding release_thread
release_thread-Gives {n} thread s v =
    choice (Gives n) (s.tls_key == 0) (λ _. (s, refl, v))
      (λ _. release_tls-Gives thread (s.specific thread) s v refl)

-- The ownership with another number for the position.
recount :
    {base m n size next len : ℕ} {specific buffer : ℕ → Option ℕ} {heap : ℕ → Option ProfiledThread}
    → m ≡ n
    → Owned base n size specific heap next buffer len
    → Owned base m size specific heap next buffer len
recount e o = rw e o

take_slot-Gives :
    {n : ℕ} (tid thread : ℕ) (s : Threads)
    → IsValid n s
    → n < 2 ^ 31
    → s.running_buffer_pos < s.buffer_size
    → Gives (suc n) (take_slot tid thread s.running_buffer_pos (next_slot s))
unfolding take_slot next_slot as_index
take_slot-Gives {n} tid thread s v small lt =
    let o = v.owned in
    let pos = s.running_buffer_pos in
    let a = v.base + pos in
    let least = v.few in
    let whole : (pos + 1) % 2 ^ 32 ≡ pos + 1 = omega arith in
    let positive : leb (2 ^ 31) pos ≡ false = ground arith in
    let (at, (t, l)) = o.kept pos (omega arith) lt in
    let h : ltb pos s.buffer_length ≡ true = ground (arith, o.room, lt) in
    let written = write-Owned (next-Owned o) a t (record t { tid = tid }) l (inl refl) in
    let free = next_place-IsFree o lt in
    (
      record s {
        running_buffer_pos = (pos + 1) % 2 ^ 32;
        heap = update s.heap a (some (record t { tid = tid }));
        specific = update s.specific thread (some a);
      },
      rw (positive, h, at, l) refl,
      record {
        base = v.base;
        owned = recount whole (
            assign-Owned written thread a
              (record t { tid = tid }, update-here s.heap a (some (record t { tid = tid }))) free);
        unused = v.unused;
        few = omega arith;
      },
    )

-- A thread that gets no place.
warned-IsValid :
    {n : ℕ} (s : Threads) → IsValid n s → n < 2 ^ 31 → IsValid (suc n) (warn (next_slot s))
unfolding warn next_slot
warned-IsValid {n} s v small =
    let least = v.few in
    let whole : (s.running_buffer_pos + 1) % 2 ^ 32 ≡ s.running_buffer_pos + 1 = omega arith in
    record {
      base = v.base;
      owned = recount whole (next-Owned v.owned);
      unused = v.unused;
      few = omega (arith, v.few, small);
    }

take_slot_unless_set-none :
    (tid thread : ℕ) (s : Threads)
    → s.running_buffer_pos < 2 ^ 31
    → take_slot_unless_set tid thread none s ≡ (
        if ltb s.running_buffer_pos s.buffer_size
        then take_slot tid thread s.running_buffer_pos (next_slot s)
        else some (warn (next_slot s)))
unfolding take_slot_unless_set is_below
take_slot_unless_set-none tid thread s small =
    let positive : leb (2 ^ 31) s.running_buffer_pos ≡ false = ground arith in rw positive refl

take_slot_unless_set-Gives :
    {n : ℕ} (tid thread : ℕ) (tls : Option ℕ) (s : Threads)
    → IsValid n s
    → n < 2 ^ 31
    → Gives (suc n) (take_slot_unless_set tid thread tls s)
unfolding take_slot_unless_set
take_slot_unless_set-Gives {n} tid thread (some a) s v small = (s, refl, later s v)
take_slot_unless_set-Gives {n} tid thread none s v small =
    rw (take_slot_unless_set-none tid thread s (omega (arith, v.few, small))) (
      choice (Gives (suc n)) (ltb s.running_buffer_pos s.buffer_size)
        (λ h. take_slot-Gives tid thread s v small (ground (arith, h)))
        (λ _. (_, refl, warned-IsValid s v small)))

pub signal_handler-Gives :
    {n : ℕ} (signo key tid thread : ℕ) (s : Threads)
    → IsValid n s
    → n < 2 ^ 31
    → Gives (suc n) (signal_handler signo key tid thread s)
unfolding signal_handler
signal_handler-Gives {n} signo key tid thread s v small =
    let s' = init_tls_key key s in
    choice (Gives (suc n)) (signo == 10)
      (λ _.
        take_slot_unless_set-Gives tid thread (s'.specific thread) s' (init_tls_key-IsValid key s v)
          small)
      (λ _. (s, refl, later s v))
