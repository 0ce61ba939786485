-- ===== src/Buffer.antt =====
-- buffers.h: the byte buffer behind every event of a recording. `memory` is the memory from `_data` on
-- and holds bytes; the assertions, which release builds drop, are not part of the operations.
pub mod Reader
pub mod Varint
pub mod Long
pub mod Fixed
pub mod Text
mod Examples
use java_profiler.Base.{
  ℕ, zero, suc, ◌+◌, ◌-◌, ◌/◌, ◌%◌, ◌^◌, ◌<◌, bit_or, Bool, true, false, ◌&&◌, ◌==◌, ltb, leb,
  if◌then◌else◌, update, Option, none, some, List, [], ◌∷◌, arith,
}
use java_profiler.Base.Order.{lt_wf}
use mathlib.Core.Logic.{dite}
use mathlib.Core.WellFounded.{Acc}
use native.Mathlib.Decide.{dec_lt}

pub record Buffer : Type 0 where
  pub memory : ℕ → ℕ
  pub offset : ℕ

abbrev pub max_string_length : ℕ
max_string_length = 8191

-- `callback(_data, _offset)` returns how many bytes it wrote; the buffer is emptied only if it wrote
-- all of them.
pub flush_if_needed : ((ℕ → ℕ) → ℕ → ℕ) → ℕ → Buffer → Bool × Buffer
flush_if_needed callback limit b =
    if ltb limit b.offset && callback b.memory b.offset == b.offset
    then (true, record b { offset = 0 })
    else (false, b)

-- Returns the position before the skipped bytes.
pub skip : ℕ → Buffer → ℕ × Buffer
skip delta b = (b.offset, record b { offset = b.offset + delta })

pub reset : Buffer → Buffer
reset b = record b { offset = 0 }

-- `memcpy(_data + _offset, v, len)`
unfoldable pub put : (ℕ → ℕ) → ℕ → Buffer → Buffer
put v len b = record {
  memory = λ j. if leb b.offset j && ltb j (b.offset + len) then v (j - b.offset) else b.memory j;
  offset = b.offset + len;
}

unfoldable pub put8 : ℕ → Buffer → Buffer
put8 v b = record { memory = update b.memory b.offset (v % 256); offset = b.offset + 1 }

-- A store of `htons(v)`, which puts the high byte first on any host; so for the next two.
unfoldable pub put16 : ℕ → Buffer → Buffer
unfolding put8
put16 v b = put8 v (put8 (v / 2 ^ 8) b)

unfoldable pub put32 : ℕ → Buffer → Buffer
unfolding put16
put32 v b = put16 v (put16 (v / 2 ^ 16) b)

unfoldable pub put64 : ℕ → Buffer → Buffer
unfolding put32
put64 v b = put32 v (put32 (v / 2 ^ 32) b)

-- One byte of a group with more to come: `_data[_offset++] = (char)v | 0x80`.
unfoldable pub put_more : ℕ → Buffer → Buffer
unfolding put8
put_more v b = put8 (bit_or (v % 256) 0x80) b

pub shift_shrinks : (v : ℕ) → 0x7f < v → v / 2 ^ 7 < v
shift_shrinks v h = omega arith

-- `while (v > 0x7f) { … v >>= 7; }` and the byte after it.
unfoldable pub put_groups : (v : ℕ) → Acc ◌<◌ v → Buffer → Buffer
unfolding put_more
put_groups v (Acc.intro _ smaller) b =
    dite (dec_lt 0x7f v)
      (λ more. put_groups (v / 2 ^ 7) (smaller _ (shift_shrinks v more)) (put_more v b))
      (λ _. put8 v b)

unfoldable pub put_var32 : ℕ → Buffer → Buffer
unfolding put_groups
put_var32 v b = put_groups v (lt_wf.apply v) b

-- The first loop of `putVar64` writes three bytes a round; `left` is 3 - iter. After the third round
-- the method returns, else the second loop finishes.
unfoldable pub put_triples : (left : ℕ) → ℕ → Buffer → Buffer
unfolding put_var32
put_triples zero v b = b
put_triples (suc left) v b =
    let b' = put_more (v / 2 ^ 14) (put_more (v / 2 ^ 7) (put_more v b)) in
    let more = put_triples left (v / 2 ^ 21) b' in if ltb 0x1fffff v then more else put_var32 v b

unfoldable pub put_var64 : ℕ → Buffer → Buffer
unfolding put_triples
put_var64 v b = put_triples 3 v b

-- `putUtf8(v, len)`: the length is cut at 8191.
unfoldable pub put_utf8 : (ℕ → ℕ) → ℕ → Buffer → Buffer
unfolding put_var32
put_utf8 v len b =
    let len' = if ltb len max_string_length then len else max_string_length in
    put v len' (put_var32 len' (put8 3 b))

-- `putUtf8(v)` on a C string, which is NULL or an array with its `strlen`.
unfoldable pub put_string : Option ((ℕ → ℕ) × ℕ) → Buffer → Buffer
unfolding put_utf8
put_string none b = put8 0 b
put_string (some (v, len)) b = put_utf8 v len b

-- The overloads that write at a given offset.
unfoldable pub put8_at : ℕ → ℕ → Buffer → Buffer
put8_at offset v b = record b { memory = update b.memory offset (v % 256) }

unfoldable pub put_var32_at : ℕ → ℕ → Buffer → Buffer
unfolding put8_at
put_var32_at offset v b =
    let b₀ = put8_at offset (bit_or (v % 256) 0x80) b in
    let b₁ = put8_at (offset + 1) (bit_or (v / 2 ^ 7 % 256) 0x80) b₀ in
    let b₂ = put8_at (offset + 2) (bit_or (v / 2 ^ 14 % 256) 0x80) b₁ in
    let b₃ = put8_at (offset + 3) (bit_or (v / 2 ^ 21 % 256) 0x80) b₂ in
    put8_at (offset + 4) (v / 2 ^ 28) b₃
