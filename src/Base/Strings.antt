-- ===== src/Base/Strings.antt =====
-- C strings as the lists of their bytes.
use Prim.Native.Char.{code}
use Prim.Native.Nat.{ℕ}
use Prim.Native.String.{String}
use java_profiler.Base.Tests.{◌==◌, if◌then◌else◌}
use mathlib.Core.Bool.{Bool, true, false}
use mathlib.Core.List.{List, [], ◌∷◌}
use mathlib.Core.Logic.{◌↔◌}
use mathlib.Core.Option.{Option, none, some}
use mathlib.Core.Path.{◌≡◌, refl}
use native.Mathlib.Omega.{arith}

-- The bytes of a literal, all of them ASCII.
abbrev pub bytes : String → List ℕ
bytes String.[] = []
bytes (String.◌∷◌ c s) = code c ∷ bytes s

-- The part before the first `c` and the part behind it, if there is one: `strchr(s, c)`, with the `c`
-- overwritten by 0.
unfoldable pub cut : ℕ → List ℕ → List ℕ × Option (List ℕ)
cut c [] = ([], none)
cut c (x ∷ s) = let rest = cut c s in if x == c then ([], some s) else (x ∷ rest.0, rest.1)

-- `strchr(s, c) != NULL`
unfoldable pub has_char : ℕ → List ℕ → Bool
has_char c [] = false
has_char c (x ∷ s) = let rest = has_char c s in if x == c then true else rest

-- `strcmp(s, t) == 0`
unfoldable pub str_equal : List ℕ → List ℕ → Bool
str_equal [] [] = true
str_equal (a ∷ s) (b ∷ t) = let rest = str_equal s t in if a == b then rest else false
str_equal _ _ = false

pub str_equal_iff : (s t : List ℕ) → (str_equal s t ≡ true) ↔ (s ≡ t)
unfolding str_equal
str_equal_iff [] [] = (λ _. refl, λ _. refl)
str_equal_iff [] (b ∷ t) = (λ e. cc, λ e. cc)
str_equal_iff (a ∷ s) [] = (λ e. cc, λ e. cc)
str_equal_iff (a ∷ s) (b ∷ t) =
    let (f, g) = str_equal_iff s t in (λ e. ground (arith, f), λ e. ground (arith, g))
