-- ===== src/Arguments/Expansion.antt =====
-- The file name that a pattern expands to.
use java_profiler.Base.{
  ℕ, zero, suc, ◌+◌, ◌-◌, ◌≤◌, ◌<◌, true, false, ◌==◌, ltb, length, length-append, length-take-le,
  take, [], ◌∷◌, Option, none, some, cut, has_char, arith, Bool-cases, inl, inr, ◌⊎◌, ◌≡◌, refl,
}
use java_profiler.Arguments.Pattern.{
  Output, limit, with_rest, put_char, put_text, lookup, env_value, Item, char, text, stop,
  value_or_brace, directive, next_item, after, expand, contents, expand_file_pattern, expanded,
  file,
}
use java_profiler.Arguments.{Text, Arguments}

-- The text has room before the last byte, and ends at `ptr` as long as `ptr` lies before `end`.
pub record Fits (o : Output) : Type 0 where
  pub room : length o.text ≤ limit
  pub at : o.ptr < limit → length o.text ≡ o.ptr

put_char-Fits : (c : ℕ) (o : Output) → o.ptr < limit → Fits o → Fits (put_char c o)
unfolding put_char
put_char-Fits c o lt f = record {
  room = omega (arith, length-append o.text (c ∷ []), f.at lt);
  at = λ _. omega (arith, length-append o.text (c ∷ []), f.at lt);
}

put_text-Fits : (s : Text) (o : Output) → o.ptr < limit → Fits o → Fits (put_text s o)
unfolding put_text
put_text-Fits s o lt f = elim (Bool-cases (ltb (o.ptr + length s) limit)) [
  | inl e ↦
      let short : o.ptr + length s < limit = ground arith in
      rw e (record {
        room = omega (arith, length-append o.text s, f.at lt);
        at = λ _. omega (arith, length-append o.text s, f.at lt);
      })
  | inr e ↦
      let long : limit ≤ o.ptr + length s = ground arith in
      let cut = take (limit - o.ptr - 1) s in
      rw e (record {
        room =
            omega (arith, length-append o.text cut, length-take-le (limit - o.ptr - 1) s, f.at lt);
        at = λ b. absurd (omega arith);
      })
]

-- The part behind a separator is shorter.
Shorter : ℕ → Option Text → Type 0
Shorter n none = Unit
Shorter n (some rest) = length rest < n

Shorter-le : (m n : ℕ) (o : Option Text) → m ≤ n → Shorter m o → Shorter n o
unfolding Shorter
Shorter-le m n none le h = tt
Shorter-le m n (some rest) le h = omega arith

cut-Shorter : (c : ℕ) (s : Text) → Shorter (length s) (cut c s).1
unfolding cut Shorter
cut-Shorter c [] = tt
cut-Shorter c (x ∷ s) = elim (Bool-cases (x == c)) [
  | inl e ↦ rw e (omega arith)
  | inr e ↦
      rw e (Shorter-le (length s) (suc (length s)) (cut c s).1 (omega arith) (cut-Shorter c s))
]

module _ (pid date : Text) (getenv : Text → Option Text) where
  -- The pattern that an item leaves has at most `n` characters.
  Within : ℕ → Item pid date getenv → Type 0
  Within n (char c rest) = length rest ≤ n
  Within n (text s rest) = length rest ≤ n
  Within n stop = Unit

  Short : ℕ → Option (Text × Text) → Type 0
  Short n none = Unit
  Short n (some (value, rest)) = length rest ≤ n

  with_rest-Short :
      (n : ℕ) (o : Option Text) (rest : Text) → length rest < n → Short n (with_rest o rest)
  unfolding with_rest Short
  with_rest-Short n none rest h = tt
  with_rest-Short n (some value) rest h = omega arith

  lookup-Short :
      (n : ℕ) (key : Text) (rest : Option Text)
      → Shorter n rest
      → Short n (lookup pid date getenv key rest)
  unfolding Shorter Short lookup
  lookup-Short n key none h = tt
  lookup-Short n key (some rest) h = elim (Bool-cases (ltb (length key) 128)) [
    | inl e ↦ rw e (with_rest-Short n (getenv key) rest h)
    | inr e ↦ rw e tt
  ]

  env_value-Short :
      (n : ℕ) (pattern : Text) → length pattern ≤ n → Short n (env_value pid date getenv pattern)
  unfolding env_value
  env_value-Short n pattern le =
      lookup-Short n (cut 125 pattern).0 (cut 125 pattern).1
        (Shorter-le (length pattern) n _ le (cut-Shorter 125 pattern))

  value_or_brace-Within :
      (n : ℕ) (o : Option (Text × Text)) (pattern : Text)
      → Short n o
      → length pattern ≤ n
      → Within n (value_or_brace pid date getenv o pattern)
  unfolding value_or_brace Within Short
  value_or_brace-Within n none pattern h le = le
  value_or_brace-Within n (some (value, rest)) pattern h le = h

  directive-Within :
      (n : ℕ) (pattern : Text) → length pattern ≤ n → Within n (directive pid date getenv pattern)
  unfolding directive Within
  directive-Within n [] le = tt
  directive-Within n (c ∷ pattern) le = elim (Bool-cases (c == 112)) [
    | inl e ↦ rw e (omega arith)
    | inr e ↦ rw e (elim (Bool-cases (c == 116)) [
      | inl q ↦ rw q (omega arith)
      | inr q ↦ rw q (elim (Bool-cases (c == 123)) [
        | inl r ↦ rw r (
            value_or_brace-Within n _ pattern (env_value-Short n pattern (omega arith))
              (omega arith))
        | inr r ↦ rw r (omega arith)
      ])
    ])
  ]

  next_item-Within :
      (c : ℕ) (pattern : Text) → Within (length pattern) (next_item pid date getenv c pattern)
  unfolding next_item Within
  next_item-Within c pattern = elim (Bool-cases (c == 37)) [
    | inl e ↦ rw e (directive-Within (length pattern) pattern (omega arith))
    | inr e ↦ rw e (omega arith)
  ]

  abbrev Expands : ℕ → Text → Output → Type 0
  Expands fuel pattern o =
      (o' : Output) × (expand pid date getenv fuel pattern o ≡ some o') × Fits o'

  after-Expands :
      (fuel n : ℕ) (item : Item pid date getenv) (o : Output)
      → n ≤ fuel
      → Within n item
      → o.ptr < limit
      → Fits o
      → ((p : Text) (q : Output) → length p ≤ fuel → Fits q → Expands fuel p q)
      → (o' : Output) × (after pid date getenv item (expand pid date getenv fuel) o ≡ some o')
        × Fits o'
  unfolding after Within
  after-Expands fuel n (char c rest) o le within lt f again =
      again rest (put_char c o) (omega arith) (put_char-Fits c o lt f)
  after-Expands fuel n (text s rest) o le within lt f again =
      again rest (put_text s o) (omega arith) (put_text-Fits s o lt f)
  after-Expands fuel n stop o le within lt f again = (o, refl, f)

  expand-Expands :
      (fuel : ℕ) (pattern : Text) (o : Output)
      → length pattern ≤ fuel
      → Fits o
      → Expands fuel pattern o
  unfolding expand
  expand-Expands fuel [] o le f = (o, refl, f)
  expand-Expands zero (c ∷ pattern) o le f = absurd (omega arith)
  expand-Expands (suc fuel) (c ∷ pattern) o le f = elim (Bool-cases (ltb o.ptr limit)) [
    | inl e ↦
        let lt : o.ptr < limit = ground arith in
        rw e (
          after-Expands fuel (length pattern) (next_item pid date getenv c pattern) o (omega arith)
            (next_item-Within c pattern) lt f (expand-Expands fuel))
    | inr e ↦ rw e (o, refl, f)
  ]

  expand_file_pattern-room :
      (pattern : Text)
      → (t : Text) × (expand_file_pattern pid date getenv pattern ≡ some t) × (length t ≤ limit)
  unfolding expand_file_pattern contents
  expand_file_pattern-room pattern =
      let start : Output = record { text = []; ptr = 0 } in
      let (o, e, f) =
        expand-Expands (length pattern) pattern start (omega arith)
          (record { room = omega arith; at = λ _. refl }) in
      (o.text, rw e, f.room)

  -- The expansion of a file name ends. A name without `%` is returned as it is; any other one becomes a
  -- text that fits the 511 bytes before the last one of the buffer, however long the values are.
  pub file-room :
      {D : Type 0} (a : Arguments D) (name : Text)
      → a.file ≡ some name
      → ((has_char 37 name ≡ false) × (file pid date getenv a ≡ some name))
        ⊎ ((has_char 37 name ≡ true)
            × ((t : Text) × (file pid date getenv a ≡ some t) × (length t ≤ limit)))
  unfolding file expanded
  file-room a name e = elim (Bool-cases (has_char 37 name)) [
    | inl q ↦ rw (e, q) (inr (refl, expand_file_pattern-room name))
    | inr q ↦ rw (e, q) (inl (refl, refl))
  ]
