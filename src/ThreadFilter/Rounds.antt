-- ===== src/ThreadFilter/Rounds.antt =====
-- The rounds of `init` are enough.
use java_profiler.Base.{
  ℕ, zero, suc, ◌+◌, ◌*◌, ◌≤◌, ◌<◌, ◌≡◌, refl, Bool, true, ◌==◌, ltb, ◌&&◌, ◌||◌, length, [], ◌∷◌,
  Option, none, some, ◌>>=◌, arith, Bool-cases, inl, inr,
}
use java_profiler.Arguments.{Text, is_positive_int}
use java_profiler.Arguments.Numbers.{
  digit_of, skip_spaces, read_digits, starts_number, behind_zero, prefixed, signed_text, converted,
  strtol,
}
use java_profiler.ThreadFilter.{ThreadFilter}
use java_profiler.ThreadFilter.Init.{read_id, next, add_item, add_round, init_loop}

skip_spaces-length : (s : Text) → length (skip_spaces s) ≤ length s
unfolding skip_spaces
skip_spaces-length [] = omega arith
skip_spaces-length (c ∷ s) = ground (arith, skip_spaces-length s)

read_digits-length : (base acc : ℕ) (s : Text) → length (read_digits base acc s).1 ≤ length s
unfolding read_digits
read_digits-length base acc [] = omega arith
read_digits-length base acc (c ∷ s) = elim (Bool-cases (ltb (digit_of c) base)) [
  | inl e ↦ rw e (omega (arith, read_digits-length base (acc * base + digit_of c) s))
  | inr e ↦ rw e (omega arith)
]

-- A number that starts takes a character.
read_digits-shorter :
    (base acc : ℕ) (s : Text)
    → starts_number base s ≡ true
    → length (read_digits base acc s).1 < length s
unfolding starts_number read_digits
read_digits-shorter base acc [] e = absurd (cc)
read_digits-shorter base acc (c ∷ s) e =
    rw e (omega (arith, read_digits-length base (acc * base + digit_of c) s))

signed_text-length : (s : Text) → length (signed_text s).1 ≤ length s
unfolding signed_text
signed_text-length [] = omega arith
signed_text-length (c ∷ s) = ground arith

behind_zero-length : (s : Text) → length (behind_zero s).1 ≤ suc (length s)
unfolding behind_zero
behind_zero-length [] = omega arith
behind_zero-length (x ∷ s) = elim (Bool-cases ((x == 120 || x == 88) && starts_number 16 s)) [
  | inl e ↦ rw e (omega arith)
  | inr e ↦ rw e (omega arith)
]

prefixed-length : (s : Text) → length (prefixed s).1 ≤ length s
unfolding prefixed
prefixed-length [] = omega arith
prefixed-length (c ∷ s) = elim (Bool-cases (c == 48)) [
  | inl e ↦ rw e (behind_zero-length s)
  | inr e ↦ rw e (omega arith)
]

converted-length :
    (str : Text) (negative : Bool) (base : ℕ) (s : Text)
    → length s ≤ length str
    → length (converted str negative (base, s)).1 ≤ length str
unfolding converted
converted-length str negative base s le = elim (Bool-cases (starts_number base s)) [
  | inl e ↦ rw e (omega (arith, le, read_digits-length base 0 s))
  | inr e ↦ rw e (omega arith)
]

strtol-length : (str : Text) → length (strtol str).1 ≤ length str
unfolding strtol
strtol-length str =
    let signed = signed_text (skip_spaces str) in
    converted-length str signed.0 (prefixed signed.1).0 (prefixed signed.1).1 (
      omega (
        arith,
        skip_spaces-length str,
        signed_text-length (skip_spaces str),
        prefixed-length signed.1,
      ))

read_id-length : (s : Text) → length (read_id s).1 ≤ length s
unfolding read_id
read_id-length s = strtol-length s

abbrev Rest : Type 0
Rest = Text → ThreadFilter → Option ThreadFilter

-- Two ways to go on agree on all texts that are shorter than `s`.
abbrev Agree : Text → Rest → Rest → Type 0
Agree s a b = (t : Text) (g : ThreadFilter) → length t < length s → a t g ≡ b t g

next-same :
    (a b : Rest) (s : Text) (f : ThreadFilter)
    → ((t : Text) (g : ThreadFilter) → length t < length s → a t g ≡ b t g)
    → next a s f ≡ next b s f
unfolding next
next-same a b [] f same = refl
next-same a b (c ∷ s) f same = same s f (omega arith)

bind-same :
    (o : Option ThreadFilter) (k l : ThreadFilter → Option ThreadFilter)
    → ((g : ThreadFilter) → k g ≡ l g)
    → (o >>= k) ≡ (o >>= l)
bind-same none k l same = refl
bind-same (some g) k l same = same g

add_item-same :
    (a b : Rest) (id : ℕ) (s : Text) (f : ThreadFilter)
    → Agree s a b
    → add_item a id s f ≡ add_item b id s f
unfolding add_item
add_item-same a b id [] f same = refl
add_item-same a b id (c ∷ s) f same = elim (Bool-cases (c == 45)) [
  | inl e ↦ rw e (
      bind-same _ _ _ (λ g.
        next-same a b (read_id s).1 g (λ t h lt. same t h (omega (arith, lt, read_id-length s)))))
  | inr e ↦ rw e (bind-same _ _ _ (λ g. next-same a b (c ∷ s) g same))
]

add_round-same :
    (a b : Rest) (s : Text) (f : ThreadFilter) → Agree s a b → add_round a s f ≡ add_round b s f
unfolding add_round
add_round-same a b s f same = elim (Bool-cases (is_positive_int (read_id s).0)) [
  | inl e ↦ rw e (
      add_item-same a b (read_id s).0 (read_id s).1 f
        (λ t g lt. same t g (omega (arith, lt, read_id-length s))))
  | inr e ↦ rw e refl
]

-- `init` has a round for each character of the option and one more. More rounds change nothing: whatever the
-- text, the loop ends before they are used up.
pub init_loop_enough :
    (left more : ℕ) (filter : Text) (f : ThreadFilter)
    → length filter < left
    → length filter < more
    → init_loop left filter f ≡ init_loop more filter f
unfolding init_loop
init_loop_enough zero more filter f h k = absurd (omega arith)
init_loop_enough (suc left) zero filter f h k = absurd (omega arith)
init_loop_enough (suc left) (suc more) filter f h k =
    add_round-same _ _ filter f
      (λ t g lt. init_loop_enough left more t g (omega (arith, lt)) (omega (arith, lt)))
