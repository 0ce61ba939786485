-- ===== src/RustDemangler.antt =====
-- rustDemangler.cpp: the names of Rust symbols in the legacy mangling. A text ends with a 0 that reads
-- behind its last character find.
pub mod Pieces
pub mod RoundTrip
mod Examples
use java_profiler.Base.{
  ℕ, zero, suc, ◌+◌, ◌-◌, ◌*◌, ◌≤◌, Bool, true, false, ◌&&◌, ◌||◌, not, ◌==◌, ltb, leb,
  if◌then◌else◌, length, take, List, [], ◌∷◌, ◌++◌, bytes,
}

abbrev pub Text : Type 0
Text = List ℕ

abbrev pub hash_pre : Text
hash_pre = bytes "::h"

abbrev pub patterns : List (Text × Text)
patterns =
    (bytes "..", bytes "::")
    ∷ (bytes "$C$", bytes ",")
    ∷ (bytes "$BP$", bytes "*")
    ∷ (bytes "$GT$", bytes ">")
    ∷ (bytes "$LT$", bytes "<")
    ∷ (bytes "$LP$", bytes "(")
    ∷ (bytes "$RP$", bytes ")")
    ∷ (bytes "$RF$", bytes "&")
    ∷ (bytes "$SP$", bytes "@")
    ∷ []

-- The sizes of `hash_pre` and of `hash_eg` together.
abbrev pub hash_size : ℕ
hash_size = 19

unfoldable pub is_hexdig : ℕ → Bool
is_hexdig c = (leb 97 c && leb c 102) || (leb 48 c && leb c 57)

-- `hex_to_int`; 16 stands for -1.
unfoldable pub hex_to_int : ℕ → ℕ
hex_to_int dig =
    if leb 48 dig && leb dig 57
    then dig - 48
    else if leb 97 dig && leb dig 102
    then dig - 87
    else if leb 65 dig && leb dig 70
    then dig - 55
    else 16

-- `str[i]`
unfoldable pub char_at : Text → ℕ → ℕ
char_at [] i = 0
char_at (c ∷ s) zero = c
char_at (c ∷ s) (suc i) = char_at s i

abbrev pub drop : ℕ → Text → Text
drop zero s = s
drop (suc n) [] = []
drop (suc n) (c ∷ s) = drop n s

-- `!str.compare(i, pattern.size(), pattern)`, at the text from `i` on.
unfoldable pub begins_with : (pattern : Text) → Text → Bool
begins_with [] s = true
begins_with (p ∷ pattern) [] = false
begins_with (p ∷ pattern) (c ∷ s) =
    let rest = begins_with pattern s in if c == p then rest else false

unfoldable pub all_hexdig : Text → Bool
unfolding is_hexdig
all_hexdig [] = true
all_hexdig (c ∷ s) = let rest = all_hexdig s in if is_hexdig c then rest else false

unfoldable pub has_hash : Text → Bool
unfolding begins_with all_hexdig
has_hash str =
    let size = length str in
    if leb size hash_size
    then false
    else (if begins_with hash_pre (drop (size - hash_size) str)
        then all_hexdig (drop (size - 16) str)
        else false)

-- The answer at a `$` and at a `.`, where the text goes on with `s`.
unfoldable pub fine_dollar : (s : Text) → Bool
unfolding char_at
fine_dollar s =
    if char_at s 0 == 36 then false else char_at s 1 == 36 || char_at s 2 == 36 || char_at s 3 == 36

unfoldable pub fine_dot : (s : Text) → Bool
unfolding char_at
fine_dot s = not (char_at s 0 == 46) || not (char_at s 1 == 46)

-- The loop of `is_probably_rust_legacy`, with `left` characters to look at.
unfoldable pub scan_legacy : (left : ℕ) → Text → Bool
unfolding fine_dollar fine_dot
scan_legacy zero s = true
scan_legacy (suc left) [] = true
scan_legacy (suc left) (c ∷ s) =
    let rest = scan_legacy left s in
    if c == 36 then fine_dollar s else if c == 46 then fine_dot s else rest

unfoldable pub is_probably_rust_legacy : Text → Bool
unfolding has_hash scan_legacy
is_probably_rust_legacy str =
    if has_hash str then scan_legacy (length str - hash_size + 1) str else false

-- What a round of `demangle` writes, and how many characters it takes.
abbrev pub Piece : Type 0
Piece = Text × ℕ

-- The loop over the patterns, and what follows if none of them stands there.
unfoldable pub replaced : List (Text × Text) → Text → Piece → Piece
unfolding begins_with
replaced [] s otherwise = otherwise
replaced ((pattern, replacement) ∷ rest) s otherwise =
    let others = replaced rest s otherwise in
    if begins_with pattern s then (replacement, length pattern) else others

-- `$uXX$`, at the values of its digits.
unfoldable pub unicode_value : (hi lo : ℕ) → Text → Piece
unicode_value hi lo s = if ltb hi 16 && ltb lo 16 then ((lo + 16 * hi) ∷ [], 5) else (take 5 s, 5)

unfoldable pub unicode : Text → Piece
unfolding hex_to_int char_at unicode_value
unicode s = unicode_value (hex_to_int (char_at s 2)) (hex_to_int (char_at s 3)) s

unfoldable pub failover : (c : ℕ) → Text → Piece
unfolding begins_with char_at unicode
failover c s =
    if c == 46
    then (bytes "-", 1)
    else if begins_with (bytes "$u") s && char_at s 4 == 36
    then unicode s
    else (c ∷ [], 1)

unfoldable pub piece : (c : ℕ) → Text → Piece
unfolding replaced failover
piece c s = if c == 46 || c == 36 then replaced patterns s (failover c s) else (c ∷ [], 1)

-- The loop of `demangle` with `left` characters before the hash.
unfoldable pub demangle_loop : (fuel left : ℕ) → Text → Text
unfolding piece
demangle_loop zero left s = []
demangle_loop (suc fuel) left [] = []
demangle_loop (suc fuel) left (c ∷ s) =
    let rest = demangle_loop fuel in
    let (out, taken) = piece c (c ∷ s) in
    if left == 0 then [] else out ++ rest (left - taken) (drop taken (c ∷ s))

-- `i` where the loop starts.
unfoldable pub start_index : Text → ℕ
unfolding begins_with
start_index str = if begins_with (bytes "_$") str then 1 else 0

-- A round for each character before the hash.
unfoldable pub demangle : Text → Text
unfolding demangle_loop start_index
demangle str =
    let left = length str - hash_size in
    demangle_loop left (left - start_index str) (drop (start_index str) str)
