-- ===== src/Arguments/Numbers.antt =====
-- `strtol` and `atoi` of the C library, and `parseUnits`.
use java_profiler.Base.{
  ℕ, ◌+◌, ◌-◌, ◌*◌, ◌%◌, ◌^◌, min, Bool, true, false, ◌&&◌, ◌||◌, ◌==◌, ltb, leb, if◌then◌else◌,
  List, [], ◌∷◌,
}
use java_profiler.Arguments.{Text, minus_one}

unfoldable pub is_space : ℕ → Bool
is_space c = c == 32 || leb 9 c && leb c 13

-- The digit that a character stands for; 36 if none.
unfoldable pub digit_of : ℕ → ℕ
digit_of c =
    if leb 48 c && leb c 57
    then c - 48
    else if leb 97 c && leb c 122
    then c - 87
    else if leb 65 c && leb c 90
    then c - 55
    else 36

unfoldable pub skip_spaces : Text → Text
unfolding is_space
skip_spaces [] = []
skip_spaces (c ∷ s) = let rest = skip_spaces s in if is_space c then rest else c ∷ s

-- The digits of a number in a base, and what follows them.
unfoldable pub read_digits : (base acc : ℕ) → Text → ℕ × Text
unfolding digit_of
read_digits base acc [] = (acc, [])
read_digits base acc (c ∷ s) =
    let rest = read_digits base (acc * base + digit_of c) s in
    if ltb (digit_of c) base then rest else (acc, c ∷ s)

unfoldable pub starts_number : (base : ℕ) → Text → Bool
unfolding digit_of
starts_number base [] = false
starts_number base (c ∷ s) = ltb (digit_of c) base

-- The base that a prefix tells, and what follows `0x`.
unfoldable pub behind_zero : Text → ℕ × Text
unfolding starts_number
behind_zero [] = (8, 48 ∷ [])
behind_zero (x ∷ s) =
    if (x == 120 || x == 88) && starts_number 16 s then (16, s) else (8, 48 ∷ x ∷ s)

unfoldable pub prefixed : Text → ℕ × Text
unfolding behind_zero
prefixed [] = (10, [])
prefixed (c ∷ s) = if c == 48 then behind_zero s else (10, c ∷ s)

unfoldable pub signed_text : Text → Bool × Text
signed_text [] = (false, [])
signed_text (c ∷ s) = if c == 45 then (true, s) else if c == 43 then (false, s) else (false, c ∷ s)

-- A number of any size as the `long` next to it.
unfoldable pub saturate : Bool → ℕ → ℕ
saturate true n = (2 ^ 64 - min n (2 ^ 63)) % 2 ^ 64
saturate false n = min n (2 ^ 63 - 1)

-- The value and the rest; all of the text is the rest where there is no number.
unfoldable pub converted : (str : Text) → Bool → ℕ × Text → ℕ × Text
unfolding starts_number read_digits saturate
converted str negative (base, s) =
    if starts_number base s
    then (let (n, rest) = read_digits base 0 s in (saturate negative n, rest))
    else (0, str)

-- `strtol(str, &end, 0)` and `strtol(str, &end, 10)`
unfoldable pub strtol : (str : Text) → ℕ × Text
unfolding converted prefixed signed_text skip_spaces
strtol str =
    let (negative, s) = signed_text (skip_spaces str) in converted str negative (prefixed s)

unfoldable pub strtol_decimal : (str : Text) → ℕ × Text
unfolding converted signed_text skip_spaces
strtol_decimal str =
    let (negative, s) = signed_text (skip_spaces str) in converted str negative (10, s)

unfoldable pub atoi : Text → ℕ
unfolding strtol_decimal
atoi str = (strtol_decimal str).0 % 2 ^ 32

abbrev pub Multiplier : Type 0
Multiplier = ℕ × ℕ

abbrev pub nanos : List Multiplier
nanos = (110, 1) ∷ (117, 1000) ∷ (109, 1000000) ∷ (115, 1000000000) ∷ []

-- The table `BYTES`.
abbrev pub byte_units : List Multiplier
byte_units = (98, 1) ∷ (107, 1024) ∷ (109, 1048576) ∷ (103, 1073741824) ∷ []

abbrev pub universal : List Multiplier
universal =
    (110, 1)
    ∷ (117, 1000)
    ∷ (109, 1000000)
    ∷ (115, 1000000000)
    ∷ (98, 1)
    ∷ (107, 1024)
    ∷ (103, 1073741824)
    ∷ []

unfoldable pub lower : ℕ → ℕ
lower c = if leb 65 c && leb c 90 then c + 32 else c

-- The loop of `parseUnits`.
unfoldable pub multiplied : (result c : ℕ) → List Multiplier → ℕ
multiplied result c [] = minus_one
multiplied result c ((symbol, multiplier) ∷ multipliers) =
    let rest = multiplied result c multipliers in
    if c == symbol then result * multiplier % 2 ^ 64 else rest

unfoldable pub with_unit : (result : ℕ) → Text → List Multiplier → ℕ
unfolding multiplied lower
with_unit result [] multipliers = result
with_unit result (c ∷ rest) multipliers = multiplied result (lower c) multipliers

unfoldable pub parse_units : Text → List Multiplier → ℕ
unfolding strtol with_unit
parse_units str multipliers = let (result, rest) = strtol str in with_unit result rest multipliers
