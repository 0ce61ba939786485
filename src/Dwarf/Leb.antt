-- ===== src/Dwarf/Leb.antt =====
-- The numbers of `getLeb` against the bytes that the format writes for them.
use java_profiler.Base.{
  ℕ, zero, suc, ◌+◌, ◌*◌, ◌/◌, ◌%◌, ◌^◌, ◌≤◌, ◌<◌, ltb, if◌then◌else◌, get_elem?, length, List, [],
  ◌∷◌, some, ◌≡◌, refl, ap, sym, ◌∙◌, arith, true, false,
}
use java_profiler.Base.Bits.{bit_or_shifted, seven_doubles}
use java_profiler.Dwarf.Reading.{ok, get_leb_loop, get_leb}
use java_profiler.Dwarf.{DwarfParser}
use native.Mathlib.Decide.{dec_lt}
use native.Mathlib.Nat.{pow-suc, mul_assoc, add-mul, mul-le-mul_right}

-- An unsigned number with at most `k` continuation bytes, the low groups first.
unfoldable pub leb_bytes : (k v : ℕ) → List ℕ
leb_bytes zero v = v ∷ []
leb_bytes (suc k) v =
    let rest = leb_bytes k (v / 128) in if ltb v 128 then (v ∷ []) else ((v % 128 + 128) ∷ rest)

-- The bytes stand in the image from `pos` on.
abbrev pub StandsAt : (image : List ℕ) (pos : ℕ) → List ℕ → Type 0
StandsAt image pos [] = Unit {0}
StandsAt image pos (b ∷ bytes) = (get_elem? image pos ≡ some b) × StandsAt image (pos + 1) bytes

abbrev pub moved : DwarfParser → ℕ → DwarfParser
moved p n = record p { ptr = p.ptr + n }

-- The last round, and another one.
loop_last :
    (image : List ℕ) (left shift result b : ℕ) (p : DwarfParser)
    → get_elem? image p.ptr ≡ some b
    → b < 128
    → b * 2 ^ shift < 2 ^ 32
    → result < 2 ^ shift
    → get_leb_loop image (suc left) shift result p ≡ ok (result + b * 2 ^ shift) (moved p 1)
unfolding get_leb_loop
loop_last image left shift result b p here small fits below =
    let low : b % 2 ^ 7 ≡ b = omega arith in
    let word : b * 2 ^ shift % 2 ^ 32 ≡ b * 2 ^ shift = omega arith in
    let last : ltb b 128 ≡ true = ground arith in
    rw (here, low, word, last, bit_or_shifted shift result b below)

loop_more :
    (image : List ℕ) (left shift result b : ℕ) (p : DwarfParser)
    → get_elem? image p.ptr ≡ some (b + 128)
    → b < 128
    → b * 2 ^ shift < 2 ^ 32
    → result < 2 ^ shift
    → get_leb_loop image (suc left) shift result p
      ≡ get_leb_loop image left (shift + 7) (result + b * 2 ^ shift) (moved p 1)
unfolding get_leb_loop
loop_more image left shift result b p here small fits below =
    let low : (b + 128) % 2 ^ 7 ≡ b = omega arith in
    let word : b * 2 ^ shift % 2 ^ 32 ≡ b * 2 ^ shift = omega arith in
    let more : ltb (b + 128) 128 ≡ false = ground arith in
    rw (here, low, word, more, bit_or_shifted shift result b below)

-- A number in groups of seven digits, at a shift.
regroup : (v q : ℕ) → v % 128 * q + v / 128 * (128 * q) ≡ v * q
regroup v q =
    let split : v % 128 + v / 128 * 128 ≡ v = omega arith in
    ap (λ (t : ℕ). v % 128 * q + t) (sym (mul_assoc (v / 128) 128 q))
    ∙ (sym (add-mul (v % 128) (v / 128 * 128) q) ∙ ap (λ (t : ℕ). t * q) split)

ok_at :
    {a b m n : ℕ} (p : DwarfParser)
    → a ≡ b
    → m ≡ n
    → ok a (record p { ptr = m }) ≡ ok b (record p { ptr = n })
ok_at {a} {b} {m} p e f =
    ap (λ (t : ℕ). ok t (record p { ptr = m })) e ∙ ap (λ (t : ℕ). ok b (record p { ptr = t })) f

loop_reads :
    (image : List ℕ) (k shift result v : ℕ) (p : DwarfParser)
    → v < 128 ^ suc k
    → v * 2 ^ shift < 2 ^ 32
    → result < 2 ^ shift
    → StandsAt image p.ptr (leb_bytes k v)
    → get_leb_loop image (suc k) shift result p
      ≡ ok (result + v * 2 ^ shift) (moved p (length (leb_bytes k v)))
unfolding leb_bytes
loop_reads image zero shift result v p small fits below (here, _) =
    loop_last image 0 shift result v p here small fits below
loop_reads image (suc k) shift result v p small fits below stands = elim (dec_lt v 128) [
  | yes less ↦
      let last : ltb v 128 ≡ true = ground arith in
      let (here, _) = rw last at stands in
      rw last (loop_last image (suc k) shift result v p here less fits below)
  | no more ↦
      let last : ltb v 128 ≡ false = ground arith in
      let (here, behind) = rw last at stands in
      let q = 2 ^ shift in
      let grouped = regroup v q in
      let next : v / 128 * 2 ^ (shift + 7) ≡ v / 128 * (128 * q) =
        ap (λ (t : ℕ). v / 128 * t) (seven_doubles shift) in
      let digits : v % 128 * q ≤ 127 * q = mul-le-mul_right q (omega arith) in
      let rest =
        loop_reads image k (shift + 7) (result + v % 128 * q) (v / 128) (moved p 1)
          (omega (arith, small, pow-suc 128 (suc k))) (omega (arith, next, grouped, fits))
          (omega (arith, digits, below, seven_doubles shift)) behind in
      rw last (
        loop_more image (suc k) shift result (v % 128) p here (omega arith)
          (omega (arith, grouped, fits)) below
        ∙ rest
        ∙ ok_at p (omega (arith, next, grouped)) (omega arith))
]

-- Where the bytes of a number of 32 bits, in groups of seven digits with a mark on all but the last,
-- stand at the parser's position, `getLeb` returns that number and stops right behind the bytes.
pub get_leb-leb_bytes :
    (image : List ℕ) (v : ℕ) (p : DwarfParser)
    → v < 2 ^ 32
    → StandsAt image p.ptr (leb_bytes 4 v)
    → get_leb image p ≡ ok v (moved p (length (leb_bytes 4 v)))
unfolding get_leb
get_leb-leb_bytes image v p small stands =
    loop_reads image 4 0 0 v p (omega arith) (omega arith) (omega arith) stands
    ∙ ok_at p (omega arith) refl
