-- ===== src/Buffer/Text.antt =====
-- Strings of a recording, and the flush that empties the buffer.
use java_profiler.Base.{
  ℕ, zero, suc, ◌+◌, ◌-◌, ◌≤◌, ◌<◌, ◌≡◌, refl, ◌∙◌, ◌⊎◌, min, ltb, if◌then◌else◌, true, false,
  arith, Bool-cases, inl, inr,
}
use java_profiler.Buffer.{
  Buffer, max_string_length, put, put8, put_var32, put_utf8, flush_if_needed,
}
use java_profiler.Buffer.Reader.{read_var}
use java_profiler.Buffer.Varint.{read_var-put_var32}

read_var-gt : (k : ℕ) (m : ℕ → ℕ) (pos : ℕ) → pos < (read_var k m pos).1
unfolding read_var
read_var-gt zero m pos = omega arith
read_var-gt (suc k) m pos = ground (arith, read_var-gt k m (pos + 1))

-- The reader looks at no byte behind the number.
read_var_congr :
    (k : ℕ) (m m' : ℕ → ℕ) (pos : ℕ)
    → ((j : ℕ) → j < (read_var k m pos).1 → m' j ≡ m j)
    → read_var k m' pos ≡ read_var k m pos
unfolding read_var
read_var_congr zero m m' pos h = ground (arith, h pos)
read_var_congr (suc k) m m' pos h = elim (Bool-cases (ltb (m pos) 128)) [
  | inl e ↦ ground (arith, h pos)
  | inr e ↦
      let far : pos + 1 < (read_var k m (pos + 1)).1 = read_var-gt k m (pos + 1) in
      let same : m' pos ≡ m pos = ground (arith, h pos) in
      let deeper : (j : ℕ) → j < (read_var k m (pos + 1)).1 → m' j ≡ m j =
        λ j l. ground (arith, h j) in
      ground (arith, same, read_var_congr k m m' (pos + 1) deeper)
]

-- What a reader finds where a string was written: the kind 3, the length, the bytes.
pub record IsString (v : ℕ → ℕ) (n : ℕ) (b b' : Buffer) : Type 0 where
  pub start : ℕ
  pub kind : b'.memory b.offset ≡ 3
  pub size : read_var 4 b'.memory (b.offset + 1) ≡ (n, start)
  pub bytes : (j : ℕ) → j < n → b'.memory (start + j) ≡ v j
  pub ends : b'.offset ≡ start + n
  pub short : start ≤ b.offset + 6
  pub keeps : (j : ℕ) → j < b.offset → b'.memory j ≡ b.memory j

put-keeps :
    (v : ℕ → ℕ) (n : ℕ) (b : Buffer) (j : ℕ) → j < b.offset → (put v n b).memory j ≡ b.memory j
unfolding put
put-keeps v n b j h = ground arith

put-bytes :
    (v : ℕ → ℕ) (n : ℕ) (b : Buffer) (j : ℕ) → j < n → (put v n b).memory (b.offset + j) ≡ v j
unfolding put
put-bytes v n b j h = let e : b.offset + j - b.offset ≡ j = omega arith in rw e (ground arith)

put_pieces :
    (v : ℕ → ℕ) (n : ℕ) (b : Buffer)
    → n ≤ max_string_length
    → IsString v n b (put v n (put_var32 n (put8 3 b)))
put_pieces v n b h =
    let (a, e) = read_var-put_var32 n (put8 3 b) (omega arith) in
    let b₁ = put8 3 b in
    let b₂ = put_var32 n b₁ in
    let next : b₁.offset ≡ b.offset + 1 = unfold put8 in refl in
    record {
      start = b₂.offset;
      kind =
          put-keeps v n b₂ b.offset (omega (arith, next, a.grows))
          ∙ a.keeps b.offset (omega (arith, next))
          ∙ (unfold put8 in ground arith);
      size =
          rw (← next)
            (read_var_congr 4 b₂.memory _ b₁.offset (λ j l. put-keeps v n b₂ j (rw e at l)) ∙ e);
      bytes = λ j l. put-bytes v n b₂ j l;
      ends = unfold put in refl;
      short = omega (arith, next, a.fits);
      keeps = λ j l.
          put-keeps v n b₂ j (omega (arith, next, a.grows))
          ∙ a.keeps j (omega (arith, next))
          ∙ (unfold put8 in ground arith);
    }

-- `putUtf8(v, len)` writes a string of the first min(len, 8191) bytes of `v`: a reader finds the kind,
-- that length and those bytes, the next write starts behind them, and what was written before is kept.
pub put_utf8-IsString :
    (v : ℕ → ℕ) (len : ℕ) (b : Buffer) → IsString v (min len max_string_length) b (put_utf8 v len b)
put_utf8-IsString v len b =
    let cut : (if ltb len max_string_length then len else max_string_length)
        ≡ min len max_string_length =
      ground arith in
    rw (← cut) (unfold put_utf8 in put_pieces v _ b (ground arith))

-- `flushIfNeeded` empties the buffer exactly when it holds more than `limit` bytes and the callback
-- reports that it wrote all of them; it returns whether it did, and otherwise keeps the buffer.
pub flush_if_needed-cases :
    (callback : (ℕ → ℕ) → ℕ → ℕ) (limit : ℕ) (b : Buffer)
    → ((limit < b.offset)
        × (callback b.memory b.offset ≡ b.offset)
        × (flush_if_needed callback limit b ≡ (true, record b { offset = 0 })))
      ⊎ (((b.offset ≤ limit) ⊎ ¬ (callback b.memory b.offset ≡ b.offset))
          × (flush_if_needed callback limit b ≡ (false, b)))
unfolding flush_if_needed
flush_if_needed-cases callback limit b = ground arith
