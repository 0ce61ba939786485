-- ===== src/Dictionary/Examples.antt =====
-- A dictionary with one key in it, and the theorems at it.
use java_profiler.Base.{ℕ, ◌≡◌, refl, arith, List, [], ◌∷◌, Option, none, some, false}
use java_profiler.Dictionary.Key.{hash, key_equals, allocate_key}
use java_profiler.Dictionary.Map.{Assigned, lookup-Assigned}
use java_profiler.Dictionary.Numbers.{view_injective}
use java_profiler.Dictionary.Valid.{new-IsValid}
use java_profiler.Dictionary.{
  Dictionary, new, lookup, check, bounded_lookup, lookup_in, lookup_loop, lookup_row, scan,
  store_key, index,
}

-- "()V" and "[B"
abbrev void_key : List ℕ
void_key = b'(' ∷ b')' ∷ b'V' ∷ []

abbrev bytes_key : List ℕ
bytes_key = b'[' ∷ b'B' ∷ []

abbrev number_of : Option (ℕ × Dictionary) → ℕ
number_of none = 0
number_of (some (i, d)) = i

abbrev after : Option (ℕ × Dictionary) → Dictionary
after none = new
after (some (i, d)) = d

program : Unit {0}
unfolding new lookup check bounded_lookup lookup_in lookup_loop lookup_row scan store_key index hash
    key_equals allocate_key
program = tt

abbrev one_key : Dictionary
one_key = after (lookup void_key new)

-- The row of a first key is the number, as its column is 0 and numbers begin with 1.
first_number : number_of (lookup void_key new) ≡ number_of (lookup void_key one_key)
unfolding program
first_number = refl

not_there : check bytes_key one_key ≡ some false
unfolding program
not_there = refl

lookup-Assigned_example :
    (i : ℕ) × (d' : Dictionary) × (lookup void_key new ≡ some (i, d')) × Assigned new d' void_key i
lookup-Assigned_example =
    lookup-Assigned new void_key new-IsValid (unfold new in omega arith) (omega arith)

-- The dictionary after one lookup, by its theorem.
abbrev first : Dictionary
first = lookup-Assigned_example.1

view_injective_example : void_key ≡ void_key
view_injective_example =
    view_injective first void_key void_key lookup-Assigned_example.0 lookup-Assigned_example.3.valid
      (omega arith) (omega arith) lookup-Assigned_example.3.assigned
      lookup-Assigned_example.3.assigned
