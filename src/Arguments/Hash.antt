-- ===== src/Arguments/Hash.antt =====
-- `hash` at the names that its labels have: up to 12 small letters.
use java_profiler.Base.{
  ℕ, ◌+◌, ◌*◌, ◌%◌, ◌^◌, ◌≤◌, ◌<◌, [], ◌∷◌, All, length, ◌≡◌, refl, ap, sym, ◌∙◌, arith,
}
use java_profiler.Base.Bits.{bit_or_shifted, five_doubles}
use java_profiler.Arguments.{Text, hash_loop, hash}
use native.Mathlib.Nat.{mul_assoc, add-mul, mul-le-mul_right, pow-le-pow_right}

abbrev pub IsLetter : ℕ → Type 0
IsLetter c = (97 ≤ c) × (c ≤ 122)

-- At most 12 small letters.
pub record IsName (s : Text) : Type 0 where
  pub letters : All IsLetter s
  pub short : length s ≤ 12

-- The text as a number in base 32, the first character lowest.
unfoldable pub value : Text → ℕ
value [] = 0
value (c ∷ s) = c % 32 + value s * 32

-- A character on top of those read.
next_place : (c v q : ℕ) → c * q + v * (32 * q) ≡ (c + v * 32) * q
next_place c v q = ap (λ (t : ℕ). c * q + t) (sym (mul_assoc v 32 q)) ∙ sym (add-mul c (v * 32) q)

below_word : (shift : ℕ) → shift < 60 → 32 * 2 ^ shift ≤ 2 ^ 64
below_word shift lt =
    let small : 2 ^ shift ≤ 2 ^ 59 =
      pow-le-pow_right {n = 2} (omega arith) {i = shift} {j = 59} (omega arith) in
    omega arith

hash_loop-value :
    (s : Text) (shift h : ℕ)
    → h < 2 ^ shift
    → shift + 5 * length s ≤ 60
    → hash_loop s shift h ≡ h + value s * 2 ^ shift
unfolding hash_loop value
hash_loop-value [] shift h below short = omega arith
hash_loop-value (c ∷ s) shift h below short =
    let q = 2 ^ shift in
    let count : shift % 64 ≡ shift = omega arith in
    let digit : c % 2 ^ 5 * q ≤ 31 * q = mul-le-mul_right q (omega arith) in
    let word : c % 2 ^ 5 * q % 2 ^ 64 ≡ c % 2 ^ 5 * q =
      omega (arith, digit, below_word shift (omega arith)) in
    let rest =
      hash_loop-value s (shift + 5) (h + c % 2 ^ 5 * q) (omega (arith, digit, five_doubles shift))
        (omega arith) in
    let place : value s * 2 ^ (shift + 5) ≡ value s * (32 * q) =
      ap (λ (t : ℕ). value s * t) (five_doubles shift) in
    rw (count, word, bit_or_shifted shift h (c % 2 ^ 5) below)
      (rest ∙ omega (arith, place, next_place (c % 32) (value s) q))

hash-value : (s : Text) → length s ≤ 12 → hash s ≡ value s
unfolding hash
hash-value s short = hash_loop-value s 0 0 (omega arith) (omega arith) ∙ omega arith

value_injective : (s t : Text) → All IsLetter s → All IsLetter t → value s ≡ value t → s ≡ t
unfolding value
value_injective [] [] ls lt e = refl
value_injective [] (d ∷ t) ls (l, lt) e = absurd (omega arith)
value_injective (c ∷ s) [] (l, ls) lt e = absurd (omega arith)
value_injective (c ∷ s) (d ∷ t) (lc, ls) (ld, lt) e =
    let first : c ≡ d = omega arith in let rest = value_injective s t ls lt (omega arith) in cc

-- Two names of at most 12 small letters that have the same hash code are the same.
pub hash_injective : (s t : Text) → IsName s → IsName t → hash s ≡ hash t → s ≡ t
hash_injective s t ns nt e =
    value_injective s t ns.letters nt.letters
      (omega (arith, e, hash-value s ns.short, hash-value t nt.short))
