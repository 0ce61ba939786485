-- ===== src/Arguments/Pattern.antt =====
-- `file` and `expandFilePattern`. The numbers and dates that `snprintf` prints and the environment are
-- parameters. A text in `_buf` ends at its 0.
use java_profiler.Base.{
  ℕ, zero, suc, ◌+◌, ◌-◌, ◌==◌, ltb, if◌then◌else◌, length, take, [], ◌∷◌, ◌++◌, Option, none, some,
  cut, has_char,
}
use java_profiler.Arguments.{Text, Arguments}

-- The offset of `end` in `_buf`.
abbrev pub limit : ℕ
limit = 511

-- The text written so far, and the offset of `ptr`, which `snprintf` may move behind `end`.
pub record Output : Type 0 where
  pub text : Text
  pub ptr : ℕ

-- `*ptr++ = c`
unfoldable pub put_char : ℕ → Output → Output
put_char c o = record { text = o.text ++ (c ∷ []); ptr = o.ptr + 1 }

-- `ptr += snprintf(ptr, end - ptr, …)`: a text that is too long is cut, but counted whole.
unfoldable pub put_text : Text → Output → Output
put_text s o = record {
  text = o.text ++ (if ltb (o.ptr + length s) limit then s else take (limit - o.ptr - 1) s);
  ptr = o.ptr + length s;
}

unfoldable pub with_rest : Option Text → Text → Option (Text × Text)
with_rest none rest = none
with_rest (some value) rest = some (value, rest)

module _ (pid date : Text) (getenv : Text → Option Text) where
  -- The value of `%{key}`, where `env_key` has room for the key.
  unfoldable pub lookup : (key : Text) → Option Text → Option (Text × Text)
  unfolding with_rest
  lookup key none = none
  lookup key (some rest) = if ltb (length key) 128 then with_rest (getenv key) rest else none

  -- The value of a variable and the pattern behind it, at the pattern behind `%{`.
  unfoldable pub env_value : Text → Option (Text × Text)
  unfolding cut lookup
  env_value pattern = let (key, rest) = cut 125 pattern in lookup key rest

  -- A step of the loop; `none` is the `break` at a `%` that ends the pattern.
  pub data Item : Type 0 where
    char : ℕ → Text → Item
    text : Text → Text → Item
    stop : Item

  unfoldable pub value_or_brace : Option (Text × Text) → Text → Item
  value_or_brace none pattern = char 123 pattern
  value_or_brace (some (value, rest)) pattern = text value rest

  -- The character behind a `%`.
  unfoldable pub directive : Text → Item
  unfolding env_value value_or_brace
  directive [] = stop
  directive (c ∷ pattern) =
      if c == 112
      then text pid pattern
      else if c == 116
      then text date pattern
      else if c == 123
      then value_or_brace (env_value pattern) pattern
      else char c pattern

  unfoldable pub next_item : ℕ → Text → Item
  unfolding directive
  next_item c pattern = if c == 37 then directive pattern else char c pattern

  unfoldable pub after : Item → (Text → Output → Option Output) → Output → Option Output
  unfolding put_char put_text
  after (char c pattern) go o = go pattern (put_char c o)
  after (text s pattern) go o = go pattern (put_text s o)
  after stop go o = some o

  -- The loop with `fuel` rounds; `none` is a loop without rounds left.
  unfoldable pub expand : (fuel : ℕ) → Text → Output → Option Output
  unfolding next_item after
  expand fuel [] o = some o
  expand zero (c ∷ pattern) o = if ltb o.ptr limit then none else some o
  expand (suc fuel) (c ∷ pattern) o =
      let rest = expand fuel in
      if ltb o.ptr limit then after (next_item c pattern) rest o else some o

  unfoldable pub contents : Option Output → Option Text
  contents none = none
  contents (some o) = some o.text

  -- A round for each character of the pattern.
  unfoldable pub expand_file_pattern : Text → Option Text
  unfolding expand contents
  expand_file_pattern pattern =
      contents (expand (length pattern) pattern (record { text = []; ptr = 0 }))

  unfoldable pub expanded : Option Text → Option Text
  unfolding has_char expand_file_pattern
  expanded none = none
  expanded (some name) = if has_char 37 name then expand_file_pattern name else some name

  unfoldable pub file : {D : Type 0} → Arguments D → Option Text
  unfolding expanded
  file a = expanded a.file
