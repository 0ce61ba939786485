-- ===== src/ThreadFilter/Init.antt =====
-- threadFilter.cpp: `init`, the option that lists thread ids and spans of them. `none` is a write outside of the
-- bitmaps. What `id++` does behind the last `int` is not defined, and the loop ends there.
use java_profiler.Base.{
  ℕ, zero, suc, ◌+◌, ◌-◌, ◌%◌, ◌^◌, true, false, ◌==◌, ltb, if◌then◌else◌, length, [], ◌∷◌, Option,
  none, some, ◌>>=◌,
}
use java_profiler.Arguments.{Text, is_positive_int}
use java_profiler.Arguments.Numbers.{strtol}
use java_profiler.ThreadFilter.{ThreadFilter, add}

-- `int id = strtol(filter, &end, 0)`: the id and `end`.
unfoldable pub read_id : Text → ℕ × Text
read_id filter = let (n, end) = strtol filter in (n % 2 ^ 32, end)

-- `while (id <= to)`, of `left` rounds.
unfoldable pub add_span : (left id : ℕ) → ThreadFilter → Option ThreadFilter
add_span zero id f = some f
add_span (suc left) id f = do f' ← add f id; add_span left (id + 1) f'

-- The rounds from a positive `id` to an `int`.
unfoldable pub rounds : (id to : ℕ) → ℕ
rounds id to = if ltb to (2 ^ 31) then to + 1 - id else 0

-- `filter = end + 1; } while (*end)`, with the rounds that follow.
unfoldable pub next :
    (after : Text → ThreadFilter → Option ThreadFilter) → Text → ThreadFilter → Option ThreadFilter
next after [] f = some f
next after (c ∷ filter) f = after filter f

-- What a round does with an id, at the text behind it.
unfoldable pub add_item :
    (after : Text → ThreadFilter → Option ThreadFilter)
    → (id : ℕ) (end : Text) → ThreadFilter
    → Option ThreadFilter
add_item after id [] f = add f id
add_item after id (c ∷ s) f =
    if c == 45
    then add_span (rounds id (read_id s).0) id f >>= next after (read_id s).1
    else add f id >>= next after (c ∷ s)

unfoldable pub add_round :
    (after : Text → ThreadFilter → Option ThreadFilter) → Text → ThreadFilter → Option ThreadFilter
add_round after filter f =
    if is_positive_int (read_id filter).0
    then add_item after (read_id filter).0 (read_id filter).1 f
    else some f

-- The `do` loop. A round takes a character at least.
unfoldable pub init_loop : (left : ℕ) → Text → ThreadFilter → Option ThreadFilter
init_loop zero filter f = none
init_loop (suc left) filter f = add_round (λ s g. init_loop left s g) filter f

unfoldable pub init : Option Text → ThreadFilter → Option ThreadFilter
init none f = some (record f { enabled = false })
init (some filter) f = do
  f' ← init_loop (length filter + 1) filter f
  some (record f' { enabled = true })
