-- ===== src/Arguments/Units.antt =====
-- `parseUnits` at decimal numbers with a unit.
use java_profiler.Base.{
  ℕ, zero, suc, ◌+◌, ◌*◌, ◌%◌, ◌^◌, ◌<◌, ◌≤◌, true, false, ◌==◌, ◌&&◌, ltb, leb, List, Option, none,
  some, get_elem?, length, ◌⊎◌, [], ◌∷◌, ◌++◌, All, ◌≡◌, refl, ap, ◌∙◌, arith, Bool-cases, inl, inr,
}
use java_profiler.Arguments.Numbers.{
  is_space, digit_of, skip_spaces, read_digits, starts_number, prefixed, signed_text, saturate,
  converted, strtol, Multiplier, lower, multiplied, with_unit, parse_units,
}
use java_profiler.Arguments.{Text, minus_one}

-- A decimal digit and its character.
abbrev pub IsDigit : ℕ → Type 0
IsDigit d = d < 10

abbrev pub written : List ℕ → Text
written [] = []
written (d ∷ ds) = (48 + d) ∷ written ds

-- The number of decimal digits behind those read.
abbrev pub number : (acc : ℕ) → List ℕ → ℕ
number acc [] = acc
number acc (d ∷ ds) = number (acc * 10 + d) ds

-- The text does not go on with a digit.
abbrev pub Ends : Text → Type 0
Ends rest = starts_number 10 rest ≡ false

digit_of-written : (d : ℕ) → IsDigit d → digit_of (48 + d) ≡ d
unfolding digit_of
digit_of-written d h = ground arith

read_digits-end : (acc : ℕ) (rest : Text) → Ends rest → read_digits 10 acc rest ≡ (acc, rest)
unfolding read_digits starts_number
read_digits-end acc [] e = refl
read_digits-end acc (c ∷ rest) e = rw e

read_digits-written :
    (ds : List ℕ) (acc : ℕ) (rest : Text)
    → All IsDigit ds
    → Ends rest
    → read_digits 10 acc (written ds ++ rest) ≡ (number acc ds, rest)
unfolding read_digits
read_digits-written [] acc rest _ ends = read_digits-end acc rest ends
read_digits-written (d ∷ ds) acc rest (h, hs) ends =
    let digit : digit_of (48 + d) ≡ d = digit_of-written d h in
    let goes_on : ltb d 10 ≡ true = ground arith in
    rw (digit, goes_on) (read_digits-written ds (acc * 10 + d) rest hs ends)

-- The three steps before the digits, at a digit other than 0.
skip_spaces-digit : (d : ℕ) (s : Text) → IsDigit d → skip_spaces ((48 + d) ∷ s) ≡ (48 + d) ∷ s
unfolding skip_spaces is_space
skip_spaces-digit d s h = ground arith

signed_text-digit :
    (d : ℕ) (s : Text) → IsDigit d → signed_text ((48 + d) ∷ s) ≡ (false, (48 + d) ∷ s)
unfolding signed_text
signed_text-digit d s h = ground arith

prefixed-digit : (d : ℕ) (s : Text) → 0 < d → prefixed ((48 + d) ∷ s) ≡ (10, (48 + d) ∷ s)
unfolding prefixed
prefixed-digit d s pos = let other : (48 + d == 48) ≡ false = ground arith in rw other

starts_number-digit : (d : ℕ) (s : Text) → IsDigit d → starts_number 10 ((48 + d) ∷ s) ≡ true
unfolding starts_number
starts_number-digit d s h =
    let digit : digit_of (48 + d) ≡ d = digit_of-written d h in rw digit (ground arith)

converted-number :
    (str s : Text)
    → starts_number 10 s ≡ true
    → converted str false (10, s) ≡ (saturate false (read_digits 10 0 s).0, (read_digits 10 0 s).1)
unfolding converted
converted-number str s e = rw e

saturate-small : (n : ℕ) → n < 2 ^ 63 → saturate false n ≡ n
unfolding saturate
saturate-small n small = omega arith

strtol-steps :
    (str : Text)
    → strtol str
      ≡ converted str (signed_text (skip_spaces str)).0 (prefixed (signed_text (skip_spaces str)).1)
unfolding strtol
strtol-steps str = refl

-- A number that starts with a digit other than 0.
pub strtol-written :
    (d : ℕ) (ds : List ℕ) (rest : Text)
    → 0 < d
    → IsDigit d
    → All IsDigit ds
    → Ends rest
    → number d ds < 2 ^ 63
    → strtol (written (d ∷ ds) ++ rest) ≡ (number d ds, rest)
strtol-written d ds rest pos h hs ends small =
    let s = written ds ++ rest in
    let digits : read_digits 10 0 ((48 + d) ∷ s) ≡ (number d ds, rest) =
      read_digits-written (d ∷ ds) 0 rest (h, hs) ends
      ∙ ap (λ (t : ℕ). (number t ds, rest)) (omega arith) in
    strtol-steps ((48 + d) ∷ s)
    ∙ rw (skip_spaces-digit d s h, signed_text-digit d s h, prefixed-digit d s pos)
        (converted-number ((48 + d) ∷ s) ((48 + d) ∷ s) (starts_number-digit d s h)
          ∙ rw digits (ap (λ (n : ℕ). (n, rest)) (saturate-small (number d ds) small)))

-- The character names a unit: it is its symbol, or the capital of it.
abbrev pub Names : (u symbol : ℕ) → Type 0
Names u symbol = (u ≡ symbol) ⊎ (u + 32 ≡ symbol)

-- No entry of the table below the bound is named by the character.
abbrev pub Unnamed : (u bound : ℕ) → List Multiplier → Type 0
Unnamed u bound table =
    (j symbol multiplier : ℕ)
    → j < bound
    → get_elem? table j ≡ some (symbol, multiplier)
    → ¬ Names u symbol

-- What a number stands for with the text behind it: itself, its product with the first unit that the
-- next character names, or -1.
pub data Reads (n : ℕ) (table : List Multiplier) (value : ℕ) : Text → Type 0 where
  alone : value ≡ n → Reads n table value []
  in_units :
      {u : ℕ} {rest : Text} (i symbol multiplier : ℕ)
      → get_elem? table i ≡ some (symbol, multiplier)
      → Names u symbol
      → Unnamed u i table
      → value ≡ n * multiplier % 2 ^ 64
      → Reads n table value (u ∷ rest)
  unknown :
      {u : ℕ} {rest : Text}
      → Unnamed u (length table) table
      → value ≡ minus_one
      → Reads n table value (u ∷ rest)

-- A unit whose symbol is a small letter.
abbrev pub IsSmall : Multiplier → Type 0
IsSmall (symbol, multiplier) = (97 ≤ symbol) × (symbol ≤ 122)

lower-Names : (u symbol : ℕ) → 97 ≤ symbol → symbol ≤ 122 → lower u ≡ symbol → Names u symbol
unfolding lower
lower-Names u symbol low high e = elim (Bool-cases (leb 65 u && leb u 90)) [
  | inl h ↦ inr (rw h at e)
  | inr h ↦ inl (rw h at e)
]

lower-unnamed :
    (u symbol : ℕ) → 97 ≤ symbol → symbol ≤ 122 → (lower u == symbol) ≡ false → ¬ Names u symbol
unfolding lower
lower-unnamed u symbol low high e (inl same) =
    let small : (leb 65 u && leb u 90) ≡ false = ground arith in
    let off : (u == symbol) ≡ false = rw small at e in ground arith
lower-unnamed u symbol low high e (inr same) =
    let capital : (leb 65 u && leb u 90) ≡ true = ground arith in
    let off : (u + 32 == symbol) ≡ false = rw capital at e in ground arith

later-Unnamed :
    (u bound symbol multiplier : ℕ) (table : List Multiplier)
    → ¬ Names u symbol
    → Unnamed u bound table
    → Unnamed u (suc bound) ((symbol, multiplier) ∷ table)
later-Unnamed u bound symbol multiplier table first others zero s m lt e =
    let same : symbol ≡ s = ap (λ (o : Option Multiplier). first_of symbol o) e in rw (← same) first
  where
    first_of : ℕ → Option Multiplier → ℕ
    first_of other none = other
    first_of other (some (s, m)) = s
later-Unnamed u bound symbol multiplier table first others (suc j) s m lt e =
    others j s m (omega arith) e

-- One more entry in front that the character does not name.
later-Reads :
    {n u symbol multiplier value : ℕ} {table : List Multiplier} {rest : Text}
    → ¬ Names u symbol
    → Reads n table value (u ∷ rest)
    → Reads n ((symbol, multiplier) ∷ table) value (u ∷ rest)
later-Reads {u = u} {symbol = s} {multiplier = m} {table = t} off (in_units i _ _ at name first e) =
    in_units (suc i) _ _ at name (later-Unnamed u i s m t off first) e
later-Reads {u = u} {symbol = s} {multiplier = m} {table = t} off (unknown first e) =
    unknown (later-Unnamed u (length t) s m t off first) e

multiplied-Reads :
    (n u : ℕ) (rest : Text) (table : List Multiplier)
    → All IsSmall table
    → Reads n table (multiplied n (lower u) table) (u ∷ rest)
unfolding multiplied
multiplied-Reads n u rest [] _ = unknown (λ j s m lt e. absurd (omega arith)) refl
multiplied-Reads n u rest ((symbol, multiplier) ∷ table) ((low, high), small) =
    elim (Bool-cases (lower u == symbol)) [
      | inl e ↦ rw e (
          in_units zero symbol multiplier refl (lower-Names u symbol low high (ground arith))
            (λ j s m lt at. absurd (omega arith)) refl)
      | inr e ↦
          rw e (
            later-Reads (lower-unnamed u symbol low high e) (multiplied-Reads n u rest table small))
    ]

with_unit-Reads :
    (n : ℕ) (rest : Text) (table : List Multiplier)
    → All IsSmall table
    → Reads n table (with_unit n rest table) rest
unfolding with_unit
with_unit-Reads n [] table small = alone refl
with_unit-Reads n (u ∷ rest) table small = multiplied-Reads n u rest table small

parse_units-steps :
    (str : Text) (table : List Multiplier)
    → parse_units str table ≡ with_unit (strtol str).0 (strtol str).1 table
unfolding parse_units
parse_units-steps str table = refl

-- A positive decimal number without a leading 0, below 2 ^ 63, with a table of units whose symbols are
-- small letters: the number stands for itself where the text ends there; for its product modulo 2 ^ 64
-- with the first unit of the table that the next character names, as its symbol or as the capital
-- letter of it; and for -1 where the next character names no unit. What follows the unit is not looked
-- at.
pub parse_units-written :
    (d : ℕ) (ds : List ℕ) (rest : Text) (multipliers : List Multiplier)
    → 0 < d
    → IsDigit d
    → All IsDigit ds
    → Ends rest
    → number d ds < 2 ^ 63
    → All IsSmall multipliers
    → Reads (number d ds) multipliers (parse_units (written (d ∷ ds) ++ rest) multipliers) rest
parse_units-written d ds rest multipliers pos h hs ends little small =
    rw (parse_units-steps (written (d ∷ ds) ++ rest) multipliers) (
      rw (strtol-written d ds rest pos h hs ends little)
        (with_unit-Reads (number d ds) rest multipliers small))
