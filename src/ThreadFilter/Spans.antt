-- ===== src/ThreadFilter/Spans.antt =====
-- `init` at an option that is written as a list of ids and spans.
use java_profiler.Base.{
  ℕ, zero, suc, ◌+◌, ◌-◌, ◌*◌, ◌^◌, ◌≤◌, ◌<◌, ◌≡◌, refl, sym, ap, ◌∙◌, Bool, true, false, ◌==◌, ltb,
  leb, ◌&&◌, ◌||◌, if◌then◌else◌, length, length-append, List, [], ◌∷◌, ◌++◌, All, Option, none,
  some, ◌>>=◌, arith,
}
use java_profiler.Arguments.{Text, is_positive_int}
use java_profiler.Arguments.Numbers.{digit_of, starts_number}
use java_profiler.Arguments.Units.{IsDigit, written, number, Ends, strtol-written}
use java_profiler.ThreadFilter.Laws.{IsValid}
use java_profiler.ThreadFilter.Sets.{add-Puts}
use java_profiler.ThreadFilter.{ThreadFilter, accept, set_bit, add_slot, add_to, add, bitmap}
use java_profiler.ThreadFilter.Init.{
  read_id, add_span, rounds, next, add_item, add_round, init_loop, init,
}

add_slot-max :
    (f : ThreadFilter) (i : ℕ) (o : Option (ℕ → ℕ))
    → (add_slot f i o).max_thread_id ≡ f.max_thread_id
unfolding add_slot set_bit
add_slot-max f i none = refl
add_slot-max f i (some b) = refl

if_taken : (b : Bool) (x f' : ThreadFilter) → (if b then some x else none) ≡ some f' → x ≡ f'
if_taken true x f' e = cc
if_taken false x f' e = absurd (cc)

add_to-max :
    (f f' : ThreadFilter) (i : ℕ) (o : Option (ℕ → ℕ))
    → add_to f i o ≡ some f'
    → f'.max_thread_id ≡ f.max_thread_id
unfolding add_to
add_to-max f f' i none e =
    ap (λ (g : ThreadFilter). g.max_thread_id) (sym (if_taken _ _ f' e)) ∙ add_slot-max f i _
add_to-max f f' i (some b) e = unfold set_bit in ground arith

add-max : (f f' : ThreadFilter) (i : ℕ) → add f i ≡ some f' → f'.max_thread_id ≡ f.max_thread_id
unfolding add
add-max f f' i e = add_to-max f f' i (bitmap f i) e

-- A filter with more threads, `more` of them.
pub record Adds (f : ThreadFilter) (more : ℕ → Bool) (f' : ThreadFilter) : Type 0 where
  pub valid : IsValid f'
  pub max : f'.max_thread_id ≡ f.max_thread_id
  pub accepts : (j : ℕ) → accept f' j ≡ (more j || accept f j)

abbrev within : (id left j : ℕ) → Bool
within id left j = leb id j && ltb j (id + left)

add_span-Adds :
    (left id : ℕ) (f : ThreadFilter)
    → IsValid f
    → id + left ≤ f.max_thread_id
    → (f' : ThreadFilter) × (add_span left id f ≡ some f') × Adds f (within id left) f'
unfolding add_span
add_span-Adds zero id f v le =
    (f, refl, record { valid = v; max = refl; accepts = λ j. ground arith })
add_span-Adds (suc left) id f v le =
    let (g, at, p) = add-Puts f id v (omega (arith, le)) in
    let max : g.max_thread_id ≡ f.max_thread_id = add-max f g id at in
    let (f', run, a) = add_span-Adds left (id + 1) g p.valid (omega (arith, le, max)) in
    (
      f',
      rw at run,
      record {
        valid = a.valid;
        max = a.max ∙ max;
        accepts = λ j. a.accepts j ∙ rw (p.accepts j) (ground arith);
      },
    )

-- An id or a span, by the decimal digits of its numbers.
pub data Item : Type 0 where
  one : (d : ℕ) (ds : List ℕ) → Item
  span : (d : ℕ) (ds : List ℕ) (e : ℕ) (es : List ℕ) → Item

-- A number without leading zeros, below a bound.
abbrev pub IsNumber : (bound d : ℕ) (ds : List ℕ) → Type 0
IsNumber bound d ds = (0 < d) × IsDigit d × All IsDigit ds × (number d ds < bound)

abbrev pub IsItem : (bound : ℕ) → Item → Type 0
IsItem bound (one d ds) = IsNumber bound d ds
IsItem bound (span d ds e es) = IsNumber bound d ds × IsNumber bound e es

abbrev pub item_has : Item → ℕ → Bool
item_has (one d ds) j = within (number d ds) 1 j
item_has (span d ds e es) j = within (number d ds) (number e es + 1 - number d ds) j

-- An item in front of a text.
abbrev pub item_text : Item → Text → Text
item_text (one d ds) rest = written (d ∷ ds) ++ rest
item_text (span d ds e es) rest = written (d ∷ ds) ++ (45 ∷ (written (e ∷ es) ++ rest))

-- Items with commas between them.
abbrev pub list_text : Item → List Item → Text
list_text x [] = item_text x []
list_text x (y ∷ ys) = item_text x (44 ∷ list_text y ys)

abbrev pub list_has : Item → List Item → ℕ → Bool
list_has x [] j = item_has x j
list_has x (y ∷ ys) j = list_has y ys j || item_has x j

-- A text behind a number: none, or one that goes on with neither a digit nor a dash.
abbrev dashed : Text → Bool
dashed [] = false
dashed (c ∷ s) = c == 45

read_id-written :
    (bound d : ℕ) (ds : List ℕ) (rest : Text)
    → bound ≤ 2 ^ 31
    → IsNumber bound d ds
    → Ends rest
    → read_id (written (d ∷ ds) ++ rest) ≡ (number d ds, rest)
unfolding read_id
read_id-written bound d ds rest le (pos, digit, digits, lt) ends =
    rw (strtol-written d ds rest pos digit digits ends (omega (arith, le, lt)))
      (ap (λ (n : ℕ). (n, rest)) (omega (arith, le, lt)))

-- A number that does not start with a zero is positive.
number-pos : (d : ℕ) (ds : List ℕ) → 0 < d → 0 < number d ds
number-pos d [] pos = pos
number-pos d (x ∷ ds) pos = number-pos (d * 10 + x) ds (omega (arith, pos))

add_round-number :
    (after : Text → ThreadFilter → Option ThreadFilter) (bound d : ℕ) (ds : List ℕ) (rest : Text)
    (f : ThreadFilter)
    → bound ≤ 2 ^ 31
    → IsNumber bound d ds
    → Ends rest
    → add_round after (written (d ∷ ds) ++ rest) f ≡ add_item after (number d ds) rest f
unfolding add_round
add_round-number after bound d ds rest f le n ends =
    let positive : is_positive_int (number d ds) ≡ true =
      unfold is_positive_int in ground (arith, number-pos d ds n.0, le, n) in
    rw (read_id-written bound d ds rest le n ends, positive) refl

bind_some : (o : Option ThreadFilter) → (o >>= (λ g. some g)) ≡ o
bind_some none = refl
bind_some (some g) = refl

add_span-one : (id : ℕ) (f f' : ThreadFilter) → add_span 1 id f ≡ some f' → add f id ≡ some f'
unfolding add_span
add_span-one id f f' run = sym (bind_some (add f id)) ∙ run

add_item-one :
    (after : Text → ThreadFilter → Option ThreadFilter) (id : ℕ) (rest : Text) (f f' : ThreadFilter)
    → dashed rest ≡ false
    → add_span 1 id f ≡ some f'
    → add_item after id rest f ≡ next after rest f'
unfolding add_item next
add_item-one after id [] f f' e run = add_span-one id f f' run
add_item-one after id (c ∷ s) f f' e run = rw (e, add_span-one id f f' run) refl

add_item-span :
    (after : Text → ThreadFilter → Option ThreadFilter) (bound id e : ℕ) (es : List ℕ) (rest : Text)
    (f f' : ThreadFilter)
    → bound ≤ 2 ^ 31
    → IsNumber bound e es
    → Ends rest
    → add_span (number e es + 1 - id) id f ≡ some f'
    → add_item after id (45 ∷ (written (e ∷ es) ++ rest)) f ≡ next after rest f'
unfolding add_item rounds
add_item-span after bound id e es rest f f' le n ends run =
    let small : ltb (number e es) (2 ^ 31) ≡ true = ground (arith, le, n) in
    rw (read_id-written bound e es rest le n ends, small, run) refl

dash_Ends : (s : Text) → Ends (45 ∷ s)
unfolding starts_number digit_of
dash_Ends s = refl

comma_Ends : (s : Text) → Ends (44 ∷ s)
unfolding starts_number digit_of
comma_Ends s = refl

item_text-length : (x : Item) (rest : Text) → length rest < length (item_text x rest)
item_text-length (one d ds) rest = omega (arith, length-append (written ds) rest)
item_text-length (span d ds e es) rest = omega (
  arith,
  length-append (written ds) (45 ∷ (written (e ∷ es) ++ rest)),
  length-append (written es) rest,
)

list_text-length : (x : Item) (xs : List Item) → length xs < length (list_text x xs)
list_text-length x [] = item_text-length x []
list_text-length x (y ∷ ys) =
    omega (arith, item_text-length x (44 ∷ list_text y ys), list_text-length y ys)

module _ (bound : ℕ) (le : bound ≤ 2 ^ 31) where
  -- A round at an item adds its threads and goes on behind it.
  add_round-item :
      (after : Text → ThreadFilter → Option ThreadFilter) (x : Item) (rest : Text)
      (f : ThreadFilter)
      → IsValid f
      → f.max_thread_id ≡ bound
      → IsItem bound x
      → Ends rest
      → dashed rest ≡ false
      → (f' : ThreadFilter) × (add_round after (item_text x rest) f ≡ next after rest f')
        × Adds f (item_has x) f'
  add_round-item after (one d ds) rest f v max n ends e =
      let (f', run, a) = add_span-Adds 1 (number d ds) f v (omega (arith, max, n)) in
      (
        f',
        add_round-number after bound d ds rest f le n ends
            ∙ add_item-one after (number d ds) rest f f' e run,
        a,
      )
  add_round-item after (span d ds e es) rest f v max (n, m) ends _ =
      let (f', run, a) =
        add_span-Adds (number e es + 1 - number d ds) (number d ds) f v
          (omega (arith, max, n, m)) in
      (
        f',
        add_round-number after bound d ds (45 ∷ (written (e ∷ es) ++ rest)) f le n
              (dash_Ends (written (e ∷ es) ++ rest))
            ∙ add_item-span after bound (number d ds) e es rest f f' le m ends run,
        a,
      )

  init_loop-list :
      (left : ℕ) (x : Item) (xs : List Item) (f : ThreadFilter)
      → IsValid f
      → f.max_thread_id ≡ bound
      → IsItem bound x
      → All (IsItem bound) xs
      → length xs < left
      → (f' : ThreadFilter) × (init_loop left (list_text x xs) f ≡ some f')
        × Adds f (list_has x xs) f'
  unfolding init_loop next
  init_loop-list zero x xs f v max h hs lt = absurd (omega arith)
  init_loop-list (suc left) x [] f v max h hs lt =
      let (f', run, a) =
        add_round-item (λ s g. init_loop left s g) x [] f v max h (unfold starts_number in refl)
          refl in
      (f', run, a)
  init_loop-list (suc left) x (y ∷ ys) f v max h (k, ks) lt =
      let rest = list_text y ys in
      let (g, run, a) =
        add_round-item (λ s g. init_loop left s g) x (44 ∷ rest) f v max h (comma_Ends rest) refl in
      let (f', on, b) = init_loop-list left y ys g a.valid (a.max ∙ max) k ks (omega (arith, lt)) in
      (
        f',
        run ∙ on,
        record {
          valid = b.valid;
          max = b.max ∙ a.max;
          accepts = λ j. b.accepts j ∙ rw (a.accepts j) (ground arith);
        },
      )

enabled-IsValid : (f : ThreadFilter) (on : Bool) → IsValid f → IsValid (record f { enabled = on })
enabled-IsValid f on v = record { fits = v.fits; covered = v.covered; counts = v.counts }

enabled-accepts :
    (f : ThreadFilter) (on : Bool) (j : ℕ) → accept (record f { enabled = on }) j ≡ accept f j
unfolding accept bitmap
enabled-accepts f on j = refl

-- An option that lists ids and spans, of decimal numbers from 1 on that are below the maximum, an `int`, and without
-- leading zeros, with commas between them: `init` returns an enabled and valid filter, which accepts what the
-- filter did, and each id of the list and each from a first to a last number of its spans, and no other.
pub init-list :
    (x : Item) (xs : List Item) (f : ThreadFilter)
    → IsValid f
    → f.max_thread_id ≤ 2 ^ 31
    → IsItem f.max_thread_id x
    → All (IsItem f.max_thread_id) xs
    → (f' : ThreadFilter) × (init (some (list_text x xs)) f ≡ some f')
      × (f'.enabled ≡ true)
      × IsValid f'
      × ((j : ℕ) → accept f' j ≡ (list_has x xs j || accept f j))
unfolding init
init-list x xs f v le h hs =
    let text = list_text x xs in
    let (g, run, a) =
      init_loop-list f.max_thread_id le (length text + 1) x xs f v refl h hs
        (omega (arith, list_text-length x xs)) in
    (
      record g { enabled = true },
      rw run refl,
      refl,
      enabled-IsValid g true a.valid,
      λ j. enabled-accepts g true j ∙ a.accepts j,
    )
