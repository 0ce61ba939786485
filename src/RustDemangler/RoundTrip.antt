-- ===== src/RustDemangler/RoundTrip.antt =====
-- `demangle` at a mangled name with its hash.
use java_profiler.Base.{
  ℕ, zero, suc, ◌-◌, ◌≤◌, ◌<◌, true, false, ◌==◌, length, length-append, All, List, [], ◌∷◌, ◌++◌,
  append_assoc, bytes, ◌≡◌, refl, sym, ap, ◌∙◌, arith,
}
use java_profiler.RustDemangler.Pieces.{
  Item, plain, colons, comma, star, greater, less, left_paren, right_paren, ampersand, at_sign,
  byte, IsItem, mangled, meant, piece-Reads,
}
use java_profiler.RustDemangler.{
  Text, hash_pre, hash_size, drop, begins_with, piece, demangle_loop, start_index, demangle,
}

abbrev pub mangled_all : List Item → Text
mangled_all [] = []
mangled_all (i ∷ is) = mangled i ++ mangled_all is

abbrev pub meant_all : List Item → Text
meant_all [] = []
meant_all (i ∷ is) = meant i ++ meant_all is

drop-append : (s t : Text) → drop (length s) (s ++ t) ≡ t
drop-append [] t = refl
drop-append (c ∷ s) t = drop-append s t

some_length : (i : Item) → 0 < length (mangled i)
unfolding mangled
some_length (plain c) = omega arith
some_length colons = omega arith
some_length comma = omega arith
some_length star = omega arith
some_length greater = omega arith
some_length less = omega arith
some_length left_paren = omega arith
some_length right_paren = omega arith
some_length ampersand = omega arith
some_length at_sign = omega arith
some_length (byte b) = omega arith

-- A round with characters left.
round :
    (fuel left c : ℕ) (s : Text) {out : Text} {taken : ℕ}
    → (left == 0) ≡ false
    → piece c (c ∷ s) ≡ (out, taken)
    → demangle_loop (suc fuel) left (c ∷ s)
      ≡ out ++ demangle_loop fuel (left - taken) (drop taken (c ∷ s))
unfolding demangle_loop
round fuel left c s h p = rw (p, h) refl

round-done : (fuel : ℕ) (s : Text) → demangle_loop fuel 0 s ≡ []
unfolding demangle_loop
round-done zero s = refl
round-done (suc fuel) [] = refl
round-done (suc fuel) (c ∷ s) = refl

-- A round at a mangled item.
round-mangled :
    (i : Item) (fuel left : ℕ) (rest : Text)
    → IsItem i
    → (left == 0) ≡ false
    → demangle_loop (suc fuel) left (mangled i ++ rest)
      ≡ meant i ++ demangle_loop fuel (left - length (mangled i)) rest
round-mangled i fuel left rest ok more =
    let r = piece-Reads i rest ok in
    let behind : drop (length (mangled i)) (r.head ∷ r.others) ≡ rest =
      ap (drop (length (mangled i))) (sym r.shape) ∙ drop-append (mangled i) rest in
    ap (demangle_loop (suc fuel) left) r.shape
    ∙ round fuel left r.head r.others more r.reads
    ∙ ap (λ (s : Text). meant i ++ demangle_loop fuel (left - length (mangled i)) s) behind

loop-mangled :
    (is : List Item) (fuel left : ℕ) (tail : Text)
    → All IsItem is
    → left ≡ length (mangled_all is)
    → left ≤ fuel
    → demangle_loop fuel left (mangled_all is ++ tail) ≡ meant_all is
loop-mangled [] fuel left tail _ same enough =
    ap (λ (n : ℕ). demangle_loop fuel n tail) same ∙ round-done fuel tail
loop-mangled (i ∷ is) zero left tail (ok, oks) same enough =
    let positive = some_length i in
    let size = length-append (mangled i) (mangled_all is) in absurd (omega arith)
loop-mangled (i ∷ is) (suc fuel) left tail (ok, oks) same enough =
    let positive = some_length i in
    let whole = append_assoc (mangled i) (mangled_all is) tail in
    let size = length-append (mangled i) (mangled_all is) in
    let more : (left == 0) ≡ false = ground arith in
    ap (demangle_loop (suc fuel) left) whole
    ∙ round-mangled i fuel left (mangled_all is ++ tail) ok more
    ∙ ap (meant i ++◌)
        (loop-mangled is fuel (left - length (mangled i)) tail oks (omega arith) (omega arith))

-- The mangled name of `is` with the hash that the compiler adds.
abbrev pub symbol : List Item → (hash : Text) → Text
symbol is hash = mangled_all is ++ (hash_pre ++ hash)

demangle-start :
    (str : Text) {k n left : ℕ}
    → start_index str ≡ k
    → length str - hash_size ≡ n
    → n - k ≡ left
    → demangle str ≡ demangle_loop n left (drop k str)
unfolding demangle
demangle-start str a b c = rw (a, b, c) refl

start-clean : (str : Text) → begins_with (bytes "_$") str ≡ false → start_index str ≡ 0
unfolding start_index
start-clean str h = rw h refl

start-underscore : (str : Text) → begins_with (bytes "_$") str ≡ true → start_index str ≡ 1
unfolding start_index
start-underscore str h = rw h refl

-- For a list of items of a Rust path (characters other than the dot and the dollar, the separator ::,
-- the nine characters of the table, and bytes written in hex) and a hash of 16 characters, where
-- the symbol does not start with _$, demangle gives the text of the items back, without the hash.
pub demangle-symbol :
    (is : List Item) (hash : Text)
    → All IsItem is
    → length hash ≡ 16
    → begins_with (bytes "_$") (symbol is hash) ≡ false
    → demangle (symbol is hash) ≡ meant_all is
demangle-symbol is hash ok sized clean =
    let size = length-append (mangled_all is) (hash_pre ++ hash) in
    let n = length (mangled_all is) in
    demangle-start (symbol is hash) {n = n} {left = n} (start-clean (symbol is hash) clean)
      (omega arith) (omega arith)
    ∙ loop-mangled is n n (hash_pre ++ hash) ok refl (omega arith)

-- The same where the C++ demangler left an underscore in front.
pub demangle_underscore :
    (i : Item) (is : List Item) (hash : Text)
    → All IsItem (i ∷ is)
    → length hash ≡ 16
    → begins_with (bytes "_$") (95 ∷ symbol (i ∷ is) hash) ≡ true
    → demangle (95 ∷ symbol (i ∷ is) hash) ≡ meant_all (i ∷ is)
demangle_underscore i is hash ok sized clean =
    let size = length-append (mangled_all (i ∷ is)) (hash_pre ++ hash) in
    let n = length (mangled_all (i ∷ is)) in
    demangle-start (95 ∷ symbol (i ∷ is) hash) {n = suc n} {left = n}
      (start-underscore (95 ∷ symbol (i ∷ is) hash) clean) (omega arith) (omega arith)
    ∙ loop-mangled (i ∷ is) (suc n) n (hash_pre ++ hash) ok refl (omega arith)
