-- ===== src/RustDemangler/Pieces.antt =====
-- A reference for the mangling: what each character of a Rust path is written as, and that a round of
-- `demangle` reads it back.
use java_profiler.Base.{
  ℕ, ◌+◌, ◌*◌, ◌/◌, ◌%◌, ◌<◌, true, false, ◌&&◌, ◌==◌, ltb, if◌then◌else◌, length, [], ◌∷◌, ◌++◌,
  bytes, ◌≡◌, refl, ap, ◌∙◌, arith,
}
use java_profiler.RustDemangler.{Text, hex_to_int, unicode, unicode_value, piece}

-- A character that stands for itself, a path separator, one that has a pattern, and any other byte.
pub data Item : Type 0 where
  plain : ℕ → Item
  colons comma star greater less left_paren right_paren ampersand at_sign : Item
  byte : ℕ → Item

abbrev pub IsItem : Item → Type 0
IsItem (plain c) = ((c == 46) ≡ false) × ((c == 36) ≡ false)
IsItem (byte b) = b < 256
IsItem _ = Unit {0}

unfoldable pub hex_digit : ℕ → ℕ
hex_digit n = if ltb n 10 then 48 + n else 87 + n

unfoldable pub mangled : Item → Text
unfolding hex_digit
mangled (plain c) = c ∷ []
mangled colons = bytes ".."
mangled comma = bytes "$C$"
mangled star = bytes "$BP$"
mangled greater = bytes "$GT$"
mangled less = bytes "$LT$"
mangled left_paren = bytes "$LP$"
mangled right_paren = bytes "$RP$"
mangled ampersand = bytes "$RF$"
mangled at_sign = bytes "$SP$"
mangled (byte b) = 36 ∷ 117 ∷ hex_digit (b / 16) ∷ hex_digit (b % 16) ∷ 36 ∷ []

unfoldable pub meant : Item → Text
meant (plain c) = c ∷ []
meant colons = bytes "::"
meant comma = bytes ","
meant star = bytes "*"
meant greater = bytes ">"
meant less = bytes "<"
meant left_paren = bytes "("
meant right_paren = bytes ")"
meant ampersand = bytes "&"
meant at_sign = bytes "@"
meant (byte b) = b ∷ []

-- The round at an item, with the text behind it.
pub record Reads (i : Item) (rest : Text) : Type 0 where
  pub head : ℕ
  pub others : Text
  pub shape : mangled i ++ rest ≡ head ∷ others
  pub reads : piece head (head ∷ others) ≡ (meant i, length (mangled i))

hex_to_int-hex_digit : (n : ℕ) → n < 16 → hex_to_int (hex_digit n) ≡ n
unfolding hex_to_int hex_digit
hex_to_int-hex_digit n h = ground arith

unicode-steps :
    (a b c d : ℕ) (rest : Text)
    → unicode (a ∷ b ∷ c ∷ d ∷ rest)
      ≡ unicode_value (hex_to_int c) (hex_to_int d) (a ∷ b ∷ c ∷ d ∷ rest)
unfolding unicode
unicode-steps a b c d rest = refl

unicode_value-byte :
    (hi lo : ℕ) (s : Text) → hi < 16 → lo < 16 → unicode_value hi lo s ≡ ((lo + 16 * hi) ∷ [], 5)
unfolding unicode_value
unicode_value-byte hi lo s h l =
    let both : (ltb hi 16 && ltb lo 16) ≡ true = ground arith in rw both refl

unicode-byte :
    (b : ℕ) (rest : Text)
    → b < 256
    → unicode (36 ∷ 117 ∷ hex_digit (b / 16) ∷ hex_digit (b % 16) ∷ 36 ∷ rest) ≡ (b ∷ [], 5)
unicode-byte b rest h =
    let hi = hex_to_int-hex_digit (b / 16) (omega arith) in
    let lo = hex_to_int-hex_digit (b % 16) (omega arith) in
    let value : b % 16 + 16 * (b / 16) ≡ b = omega arith in
    unicode-steps 36 117 (hex_digit (b / 16)) (hex_digit (b % 16)) (36 ∷ rest)
    ∙ rw (hi, lo) (unicode_value-byte (b / 16) (b % 16) _ (omega arith) (omega arith))
    ∙ ap (λ (x : ℕ). (x ∷ [], 5)) value

pub piece-Reads : (i : Item) (rest : Text) → IsItem i → Reads i rest
unfolding piece mangled meant
piece-Reads (plain c) rest (a, b) = record {
  head = c;
  others = rest;
  shape = refl;
  reads = rw (a, b) refl;
}
piece-Reads colons rest _ = record { head = _; others = _; shape = refl; reads = refl }
piece-Reads comma rest _ = record { head = _; others = _; shape = refl; reads = refl }
piece-Reads star rest _ = record { head = _; others = _; shape = refl; reads = refl }
piece-Reads greater rest _ = record { head = _; others = _; shape = refl; reads = refl }
piece-Reads less rest _ = record { head = _; others = _; shape = refl; reads = refl }
piece-Reads left_paren rest _ = record { head = _; others = _; shape = refl; reads = refl }
piece-Reads right_paren rest _ = record { head = _; others = _; shape = refl; reads = refl }
piece-Reads ampersand rest _ = record { head = _; others = _; shape = refl; reads = refl }
piece-Reads at_sign rest _ = record { head = _; others = _; shape = refl; reads = refl }
piece-Reads (byte b) rest h = record {
  head = 36;
  others = 117 ∷ hex_digit (b / 16) ∷ hex_digit (b % 16) ∷ 36 ∷ rest;
  shape = refl;
  reads = unicode-byte b rest h;
}
