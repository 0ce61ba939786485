-- ===== src/Buffer/Varint.antt =====
-- The compressed integers of `putVar32` and `putVar64` against the reader.
use java_profiler.Base.{ℕ, zero, suc, ◌+◌, ◌*◌, ◌/◌, ◌%◌, ◌^◌, ◌≤◌, ◌<◌, ◌≡◌, refl, ◌∙◌, arith}
use java_profiler.Base.Bits.{bit_or_top}
use java_profiler.Buffer.{Buffer, put8, put_more, put_groups, put_var32, shift_shrinks}
use java_profiler.Base.Order.{lt_wf}
use java_profiler.Buffer.Reader.{read_var}
use mathlib.Core.Logic.{dif_pos, dif_neg}
use mathlib.Core.WellFounded.{Acc}
use native.Mathlib.Bridge.{le_prop}
use native.Mathlib.Decide.{dec_lt}
use native.Mathlib.Nat.{pow-suc}

-- Bytes before the offset stay as they were, and the offset moves by 1 to `most`.
pub record Appends (most : ℕ) (b b' : Buffer) : Type 0 where
  pub keeps : (j : ℕ) → j < b.offset → b'.memory j ≡ b.memory j
  pub grows : b.offset < b'.offset
  pub fits : b'.offset ≤ b.offset + most

pub put_more-byte : (v : ℕ) (b : Buffer) → (put_more v b).memory b.offset ≡ v % 128 + 128
unfolding put_more
put_more-byte v b = ground (arith, bit_or_top v)

pub put_more-Appends : (v : ℕ) (b : Buffer) → Appends 1 b (put_more v b)
unfolding put_more
put_more-Appends v b = record {
  keeps = λ j h. ground arith;
  grows = ground arith;
  fits = ground arith;
}

pub Appends-trans :
    (m n most : ℕ) {a b c : Buffer}
    → Appends m a b
    → Appends n b c
    → m + n ≤ most
    → Appends most a c
Appends-trans m n most p q h = record {
  keeps = λ j h. q.keeps j (omega (arith, p.grows)) ∙ p.keeps j h;
  grows = omega arith;
  fits = omega arith;
}

-- The two rounds of the loop.
put_groups_last : (v : ℕ) (w : Acc ◌<◌ v) (b : Buffer) → v < 128 → put_groups v w b ≡ put8 v b
unfolding put_groups
put_groups_last v (Acc.intro _ smaller) b h =
    let small : ¬ (127 < v) = omega arith in dif_neg (dec_lt 127 v) small _ _

put_groups_more :
    (v : ℕ) (w : Acc ◌<◌ v) (b : Buffer)
    → 127 < v
    → (w' : Acc ◌<◌ (v / 128)) × (put_groups v w b ≡ put_groups (v / 128) w' (put_more v b))
unfolding put_groups
put_groups_more v (Acc.intro _ smaller) b h = (
  smaller _ (shift_shrinks v h),
  dif_pos (dec_lt 127 v) le_prop h
      (λ p. put_groups (v / 2 ^ 7) (smaller _ (shift_shrinks v p)) (put_more v b)) (λ _. put8 v b),
)

put8-Appends : (v : ℕ) (b : Buffer) → Appends 1 b (put8 v b)
unfolding put8
put8-Appends v b = record { keeps = λ j h. ground arith; grows = ground arith; fits = ground arith }

-- One byte at least, and `k + 1` at most, for a number below 128 ^ (k + 1).
pub put_groups-Appends :
    (k v : ℕ) (w : Acc ◌<◌ v) (b : Buffer) → v < 128 ^ suc k → Appends (suc k) b (put_groups v w b)
put_groups-Appends zero v w b h = rw (put_groups_last v w b h) (put8-Appends v b)
put_groups-Appends (suc k) v w b h = elim (dec_lt 127 v) [
  | no p ↦ rw (put_groups_last v w b (omega arith)) (widen (put8-Appends v b))
  | yes p ↦
      let (w', e) = put_groups_more v w b p in
      rw e (
        Appends-trans 1 (suc k) (suc (suc k)) (put_more-Appends v b)
          (put_groups-Appends k (v / 128) w' (put_more v b) (omega (arith, h, pow-suc 128 (suc k))))
          (omega arith))
]
  where
    widen : {b' : Buffer} → Appends 1 b b' → Appends (suc (suc k)) b b'
    widen a = record { keeps = a.keeps; grows = a.grows; fits = omega (arith, a.fits) }

read_var_more :
    (k v : ℕ) (m : ℕ → ℕ) (pos : ℕ)
    → m pos ≡ v % 128 + 128
    → read_var (suc k) m pos
      ≡ (v % 128 + 128 * (read_var k m (pos + 1)).0, (read_var k m (pos + 1)).1)
unfolding read_var
read_var_more k v m pos e = ground arith

read_var_last :
    (k v : ℕ) (m : ℕ → ℕ) (pos : ℕ) → m pos ≡ v → v < 128 → read_var k m pos ≡ (v, pos + 1)
unfolding read_var
read_var_last zero v m pos e h = ground arith
read_var_last (suc k) v m pos e h = ground arith

-- A byte written by `put_more`, then a number that the reader takes back from what follows it.
pub read_after_more :
    (k n v : ℕ) (b b' : Buffer)
    → Appends n (put_more v b) b'
    → read_var k b'.memory (put_more v b).offset ≡ (v / 128, b'.offset)
    → read_var (suc k) b'.memory b.offset ≡ (v, b'.offset)
read_after_more k n v b b' a e =
    let byte : b'.memory b.offset ≡ v % 128 + 128 =
      a.keeps b.offset (put_more-Appends v b).grows ∙ put_more-byte v b in
    let at : (put_more v b).offset ≡ b.offset + 1 = unfold put_more in refl in
    read_var_more k v b'.memory b.offset byte ∙ (let e' = rw at at e in rw e' (ground arith))

read_var-put8 :
    (k v : ℕ) (b : Buffer)
    → v < 128
    → read_var k (put8 v b).memory b.offset ≡ (v, (put8 v b).offset)
unfolding put8
read_var-put8 k v b h = read_var_last k v _ b.offset (ground arith) h

pub read_var-put_groups :
    (k v : ℕ) (w : Acc ◌<◌ v) (b : Buffer)
    → v < 128 ^ suc k
    → read_var k (put_groups v w b).memory b.offset ≡ (v, (put_groups v w b).offset)
read_var-put_groups zero v w b h = rw (put_groups_last v w b h) (read_var-put8 zero v b h)
read_var-put_groups (suc k) v w b h = elim (dec_lt 127 v) [
  | no p ↦ rw (put_groups_last v w b (omega arith)) (read_var-put8 (suc k) v b (omega arith))
  | yes p ↦
      let small : v / 128 < 128 ^ suc k = omega (arith, h, pow-suc 128 (suc k)) in
      let (w', e) = put_groups_more v w b p in
      rw e (
        read_after_more k (suc k) v b _ (put_groups-Appends k (v / 128) w' (put_more v b) small)
          (read_var-put_groups k (v / 128) w' (put_more v b) small))
]

-- `putVar32` keeps the bytes written before, takes at most the 5 bytes that it asserts room for, and
-- the reader takes the number back, ending where the next write starts.
pub read_var-put_var32 :
    (v : ℕ) (b : Buffer)
    → v < 2 ^ 32
    → Appends 5 b (put_var32 v b)
      × (read_var 4 (put_var32 v b).memory b.offset ≡ (v, (put_var32 v b).offset))
unfolding put_var32
read_var-put_var32 v b h = (
  put_groups-Appends 4 v (lt_wf.apply v) b (omega arith),
  read_var-put_groups 4 v (lt_wf.apply v) b (omega arith),
)
