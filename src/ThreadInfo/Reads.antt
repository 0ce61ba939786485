-- ===== src/ThreadInfo/Reads.antt =====
-- What `get` reads after each operation.
use java_profiler.Base.{
  ℕ, ◌+◌, ◌-◌, ◌^◌, ◌≡◌, refl, ◌==◌, if◌then◌else◌, List, [], ◌∷◌, Option, none, some, arith,
  Bool-cases, inl, inr, ==_refl,
}
use java_profiler.Base.Assoc.{find, assign, find-assign, find-retain, length-assign}
use java_profiler.ThreadInfo.{
  ThreadInfo, set, id_at, get_named, get, int_id, get_thread_id, member, clear_all, clear_all_but,
  size, resolve, update_unless, update_thread_name,
}

abbrev pub or_zero : Option ℕ → ℕ
or_zero none = 0
or_zero (some id) = id

-- A name and an id as `get` returns them.
abbrev pub view : Option (List ℕ) → Option ℕ → Option (List ℕ) × ℕ
view none id = (none, 0)
view (some name) id = (some name, or_zero id)

abbrev pub read : ThreadInfo → ℕ → Option (List ℕ) × ℕ
read t tid = (get t tid).0

id_at-or_zero : (t : ThreadInfo) (tid : ℕ) (o : Option ℕ) → (id_at t tid o).0 ≡ or_zero o
unfolding id_at
id_at-or_zero t tid none = refl
id_at-or_zero t tid (some id) = refl

named-view :
    (t : ThreadInfo) (tid : ℕ) (o : Option (List ℕ))
    → (get_named t tid o).0 ≡ view o (find t.thread_ids tid)
named-view t tid none = unfold get_named in refl
named-view t tid (some name) = unfold get_named in rw (id_at-or_zero t tid (find t.thread_ids tid))

read-view :
    (t : ThreadInfo) (tid : ℕ) → read t tid ≡ view (find t.thread_names tid) (find t.thread_ids tid)
read-view t tid = unfold get in named-view t tid (find t.thread_names tid)

-- After `set` the thread is read with its new name and id, and every other thread as before.
pub read-set :
    (t : ThreadInfo) (tid : ℕ) (name : List ℕ) (id other : ℕ)
    → read (set t tid name id) other ≡ (if tid == other then (some name, id) else read t other)
read-set t tid name id other =
    rw (read-view (set t tid name id) other, read-view t other)
      (unfold set in
        rw (find-assign t.thread_names tid name other, find-assign t.thread_ids tid id other)
          (elim (Bool-cases (tid == other)) [ inl e ↦ rw e | inr e ↦ rw e ]))

-- Clearing all threads but the live ones leaves exactly these: a live thread is read as before, and any
-- other one has neither a name nor an id.
pub read-clear_all_but :
    (live : List ℕ) (t : ThreadInfo) (tid : ℕ)
    → read (clear_all_but live t) tid ≡ (if member live tid then read t tid else (none, 0))
read-clear_all_but [] t tid =
    rw (read-view (clear_all_but [] t) tid) (unfold clear_all_but clear_all find member in refl)
read-clear_all_but (k ∷ live) t tid =
    let test = member (k ∷ live) in
    rw (read-view (clear_all_but (k ∷ live) t) tid, read-view t tid)
      (unfold clear_all_but in
        rw (find-retain test t.thread_names tid, find-retain test t.thread_ids tid)
          (elim (Bool-cases (member (k ∷ live) tid)) [ inl e ↦ rw e | inr e ↦ rw e ]))

entered-read :
    (t : ThreadInfo) (tid other : ℕ) (name : Option (List ℕ))
    → find t.thread_ids tid ≡ none
    → view name (find (assign t.thread_ids tid 0) other) ≡ view name (find t.thread_ids other)
entered-read t tid other none e = refl
entered-read t tid other (some name) e =
    rw (find-assign t.thread_ids tid 0 other) (elim (Bool-cases (tid == other)) [
      | inl q ↦ let same : tid ≡ other = ground arith in rw q (rw (← same, e))
      | inr q ↦ rw q
    ])

id_at-read :
    (t : ThreadInfo) (tid other : ℕ) (o : Option ℕ)
    → find t.thread_ids tid ≡ o
    → read (id_at t tid o).1 other ≡ read t other
id_at-read t tid other (some id) e = unfold id_at in refl
id_at-read t tid other none e =
    rw (read-view (id_at t tid none).1 other, read-view t other)
      (unfold id_at in entered-read t tid other (find t.thread_names other) e)

named-read :
    (t : ThreadInfo) (tid other : ℕ) (o : Option (List ℕ))
    → read (get_named t tid o).1 other ≡ read t other
named-read t tid other none = unfold get_named in refl
named-read t tid other (some name) =
    unfold get_named in id_at-read t tid other (find t.thread_ids tid) refl

-- What `get` returns for any thread does not change by a call of `get`.
pub read-get : (t : ThreadInfo) (tid other : ℕ) → read (get t tid).1 other ≡ read t other
read-get t tid other = unfold get in named-read t tid other (find t.thread_names tid)

-- `get` enters the id 0 for a thread that has a name and no id, so that the number that `getThreadId`
-- returns for it changes from -1 to 0.
pub get_thread_id-get :
    (t : ThreadInfo) (tid : ℕ) (name : List ℕ)
    → find t.thread_names tid ≡ some name
    → find t.thread_ids tid ≡ none
    → (get_thread_id t tid ≡ 2 ^ 32 - 1) × (get_thread_id (get t tid).1 tid ≡ 0)
get_thread_id-get t tid name n e = (
  unfold get_thread_id int_id in rw e,
  unfold get_thread_id int_id get get_named id_at in
      rw (n, e, find-assign t.thread_ids tid 0 tid, ==_refl tid),
)

-- What a resolver gives: an empty string is no name.
abbrev pub resolved : List ℕ → Option (List ℕ)
resolved [] = none
resolved (b ∷ name) = some (b ∷ name)

abbrev pub names_in : Option (List ℕ) → ℕ
names_in none = 0
names_in (some name) = 1

resolve-read :
    (t : ThreadInfo) (tid other : ℕ) (name : List ℕ)
    → find t.thread_names tid ≡ none
    → read (resolve t tid name) other
      ≡ (if tid == other then view (resolved name) (find t.thread_ids tid) else read t other)
resolve-read t tid other [] e =
    rw (read-view (resolve t tid []) other, read-view t other)
      (unfold resolve in
        elim (Bool-cases (tid == other)) [
          | inl q ↦ let same : tid ≡ other = ground arith in rw q (rw (← same, e))
          | inr q ↦ rw q
        ])
resolve-read t tid other (b ∷ name) e =
    rw (read-view (resolve t tid (b ∷ name)) other, read-view t other)
      (unfold resolve in
        rw (find-assign t.thread_names tid (b ∷ name) other) (elim (Bool-cases (tid == other)) [
          | inl q ↦ let same : tid ≡ other = ground arith in rw (q, same)
          | inr q ↦ rw q
        ]))

resolve-size :
    (t : ThreadInfo) (tid : ℕ) (name : List ℕ)
    → find t.thread_names tid ≡ none
    → size (resolve t tid name) ≡ size t + names_in (resolved name)
unfolding size resolve
resolve-size t tid [] e = omega arith
resolve-size t tid (b ∷ name) e = length-assign t.thread_names tid (b ∷ name) e

-- `updateThreadName` leaves everything as it is where the thread has a name.
pub update_thread_name_named :
    (t : ThreadInfo) (tid : ℕ) (resolver : ℕ → List ℕ) (name : List ℕ)
    → find t.thread_names tid ≡ some name
    → update_thread_name t tid resolver ≡ t
update_thread_name_named t tid resolver name e =
    unfold update_thread_name in rw e (unfold update_unless in refl)

-- `updateThreadName` gives a thread without a name the one that the resolver has for it, if this is not
-- empty; the thread keeps its id, every other thread is read as before, and the size grows by the name
-- that was entered.
pub read-update_thread_name :
    (t : ThreadInfo) (tid : ℕ) (resolver : ℕ → List ℕ)
    → find t.thread_names tid ≡ none
    → ((other : ℕ)
        → read (update_thread_name t tid resolver) other ≡ (
            if tid == other
            then view (resolved (resolver tid)) (find t.thread_ids tid)
            else read t other))
      × (size (update_thread_name t tid resolver) ≡ size t + names_in (resolved (resolver tid)))
read-update_thread_name t tid resolver e =
    let run : update_thread_name t tid resolver ≡ resolve t tid (resolver tid) =
      unfold update_thread_name update_unless in rw e in
    (
      λ other. rw run (resolve-read t tid other (resolver tid) e),
      rw run (resolve-size t tid (resolver tid) e),
    )
