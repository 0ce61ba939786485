-- ===== src/RustDemangler/Examples.antt =====
-- Runs of demangle on concrete symbols.
use java_profiler.Base.{true, false, List, [], ◌∷◌, bytes, ◌≡◌, refl, arith}
use java_profiler.RustDemangler.Pieces.{Item, plain, colons, greater, less, byte, mangled}
use java_profiler.RustDemangler.RoundTrip.{symbol, meant_all, demangle-symbol}
use java_profiler.RustDemangler.{Text, demangle, is_probably_rust_legacy, begins_with}

abbrev digits : Text
digits = bytes "0123456789abcdef"

drop_in_place : demangle (bytes "_$LT$T$u20$as..Any$GT$::h0123456789abcdef") ≡ bytes "<T as::Any>"
unfolding demangle
drop_in_place = refl

probably_rust : is_probably_rust_legacy (bytes "_$LT$T$u20$as..Any$GT$::h0123456789abcdef") ≡ true
unfolding is_probably_rust_legacy
probably_rust = refl

three_dots : is_probably_rust_legacy (bytes "a...b::h0123456789abcdef") ≡ false
unfolding is_probably_rust_legacy
three_dots = refl

abbrev path : List Item
path = less ∷ plain 84 ∷ byte 32 ∷ plain 97 ∷ colons ∷ plain 65 ∷ greater ∷ []

demangle-symbol_example : demangle (symbol path digits) ≡ meant_all path
demangle-symbol_example =
    demangle-symbol path digits
      (tt, ((refl, refl), (omega arith, ((refl, refl), (tt, ((refl, refl), (tt, tt))))))) refl
      (unfold begins_with in unfold mangled in refl)
