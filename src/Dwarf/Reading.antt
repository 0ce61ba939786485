-- ===== src/Dwarf/Reading.antt =====
-- The reads of the parser. The image is the bytes that the addresses stand for: a read behind it, a failed
-- assert and a shift by the width of an `int` or more are `fault`; `spent` is a loop without rounds left.
use java_profiler.Base.{
  ℕ, zero, suc, ◌+◌, ◌-◌, ◌*◌, ◌%◌, ◌^◌, bit_or, ◌&&◌, ltb, leb, if◌then◌else◌, get_elem?, length,
  List, Option, none, some,
}
use java_profiler.Dwarf.{DwarfParser, add_record}

pub data Run (A : Type 0) : Type 0 where
  ok : A → DwarfParser → Run A
  fault : Run A
  spent : Run A

abbrev pub M : Type 0 → Type 0
M A = DwarfParser → Run A

-- A value without a read.
abbrev pub pure : {A : Type 0} → A → M A
pure a p = ok a p

abbrev pub proceed : {A B : Type 0} → (A → M B) → Run A → Run B
proceed next spent = spent
proceed next fault = fault
proceed next (ok a p) = next a p

infixl 5 ◌>>=◌ ◌>>◌
abbrev pub ◌>>=◌ : {A B : Type 0} → M A → (A → M B) → M B
◌>>=◌ reads next p = proceed next (reads p)

abbrev pub ◌>>◌ : {A B : Type 0} → M A → M B → M B
◌>>◌ reads next p = proceed (λ _. next) (reads p)

abbrev pub and_then : {S : Type 0} → Option S → (S → M (Option S)) → M (Option S)
and_then none next = pure none
and_then (some s) next = next s

-- `while (_ptr < end)` round a step from the values of the local variables to the next ones; `none` is
-- a `return` in the loop.
unfoldable pub run_while : {S : Type 0} → (S → M (Option S)) → (fuel end : ℕ) → S → M (Option S)
run_while step zero end s p = if ltb p.ptr end then spent else ok (some s) p
run_while step (suc fuel) end s p =
    let rest = run_while step fuel end in
    if ltb p.ptr end then proceed (λ o. and_then o rest) (step s p) else ok (some s) p

unfoldable pub get_ptr_at : M ℕ
get_ptr_at p = ok p.ptr p

-- `_ptr = …`
unfoldable pub set_ptr : ℕ → M (Unit {0})
set_ptr a p = ok tt (record p { ptr = a })

unfoldable pub read_at : Option ℕ → M ℕ
read_at none p = fault
read_at (some b) p = ok b (record p { ptr = p.ptr + 1 })

unfoldable pub record_or_fault : Option DwarfParser → Run (Unit {0})
record_or_fault none = fault
record_or_fault (some p) = ok tt p

-- `addRecord`
unfoldable pub put_record : (loc cfa_reg cfa_off fp_off pc_off : ℕ) → M (Unit {0})
unfolding add_record record_or_fault
put_record loc cfa_reg cfa_off fp_off pc_off p =
    record_or_fault (add_record p loc cfa_reg cfa_off fp_off pc_off)

-- The end of `getSLeb`, at the byte `b` of a shift.
unfoldable pub sign_extended : (b shift result : ℕ) → ℕ
sign_extended b shift result =
    if leb 0x40 (b % 2 ^ 7) && ltb (shift + 7) 32
    then bit_or result ((2 ^ 32 - 1) * 2 ^ (shift + 7) % 2 ^ 32)
    else result

-- `_ptr += …`
unfoldable pub skip_bytes : ℕ → M (Unit {0})
skip_bytes n p = ok tt (record p { ptr = p.ptr + n })

-- The address at an `int` of 32 bits from `a`.
unfoldable pub offset_address : (a x : ℕ) → ℕ
offset_address a x = (a + x + (if ltb x (2 ^ 31) then 0 else 2 ^ 64 - 2 ^ 32)) % 2 ^ 64

module _ (image : List ℕ) where
  unfoldable pub get8 : M ℕ
  unfolding read_at
  get8 p = read_at (get_elem? image p.ptr) p

  unfoldable pub get16 : M ℕ
  unfolding get8
  get16 = do a ← get8; b ← get8; pure (a + b * 2 ^ 8)

  unfoldable pub get32 : M ℕ
  unfolding get16
  get32 = do a ← get16; b ← get16; pure (a + b * 2 ^ 16)

  -- The loop of `getLeb` with `left` rounds to a shift of 35.
  unfoldable pub get_leb_loop : (left shift result : ℕ) → M ℕ
  unfolding get8
  get_leb_loop zero shift result = λ p. fault
  get_leb_loop (suc left) shift result = do
    b ← get8
    let result' = bit_or result (b % 2 ^ 7 * 2 ^ shift % 2 ^ 32)
    let rest = get_leb_loop left (shift + 7) result'
    if ltb b 0x80 then pure result' else rest

  unfoldable pub get_leb : M ℕ
  unfolding get_leb_loop
  get_leb = get_leb_loop 5 0 0

  unfoldable pub get_sleb_loop : (left shift result : ℕ) → M ℕ
  unfolding get8 sign_extended
  get_sleb_loop zero shift result = λ p. fault
  get_sleb_loop (suc left) shift result = do
    b ← get8
    let result' = bit_or result (b % 2 ^ 7 * 2 ^ shift % 2 ^ 32)
    let rest = get_sleb_loop left (shift + 7) result'
    if ltb b 0x80 then pure (sign_extended b shift result') else rest

  unfoldable pub get_sleb : M ℕ
  unfolding get_sleb_loop
  get_sleb = get_sleb_loop 5 0 0

  unfoldable pub skip_loop : (fuel : ℕ) → M (Unit {0})
  unfolding get8
  skip_loop zero = λ p. spent
  skip_loop (suc fuel) = do
    b ← get8
    let rest = skip_loop fuel
    if ltb b 0x80 then pure tt else rest

  -- `skipLeb`, with a round for each byte of the image and one for the read behind it.
  unfoldable pub skip_leb : M (Unit {0})
  unfolding skip_loop
  skip_leb = skip_loop (suc (length image))

  -- The address of an `int` that counts from where it stands.
  unfoldable pub get_ptr : M ℕ
  unfolding get32 get_ptr_at offset_address
  get_ptr = do a ← get_ptr_at; x ← get32; pure (offset_address a x)
