-- ===== src/Buffer/Long.antt =====
-- `putVar64`: the rounds of three bytes, and the last byte of nine, against the reader.
use java_profiler.Base.{ℕ, suc, ◌+◌, ◌/◌, ◌^◌, ◌≤◌, ◌<◌, ◌≡◌, arith, lt→ltb, le→ltb}
use java_profiler.Base.Bits.{bit_or_top}
use java_profiler.Base.Order.{lt_wf}
use java_profiler.Buffer.{Buffer, put_more, put_var32, put_triples, put_var64}
use java_profiler.Buffer.Reader.{read_var}
use java_profiler.Buffer.Varint.{
  Appends, put_more-Appends, Appends-trans, put_groups-Appends, read_after_more,
  read_var-put_groups,
}
use native.Mathlib.Decide.{dec_lt}

read_var_whole :
    (v : ℕ) (b : Buffer)
    → 128 ≤ v
    → v < 256
    → read_var 0 (put_more v b).memory b.offset ≡ (v, (put_more v b).offset)
unfolding read_var put_more
read_var_whole v b lo hi = ground (arith, bit_or_top v)

abbrev put_triple : ℕ → ℕ → ℕ → Buffer → Buffer
put_triple v v₁ v₂ b = put_more v₂ (put_more v₁ (put_more v b))

module _ (v v₁ v₂ : ℕ) (b : Buffer) (e₁ : v₁ ≡ v / 128) (e₂ : v₂ ≡ v₁ / 128) where
  triple-Appends : Appends 3 b (put_triple v v₁ v₂ b)
  triple-Appends =
      Appends-trans 1 2 3 (put_more-Appends v b)
        (Appends-trans 1 1 2 (put_more-Appends v₁ _) (put_more-Appends v₂ _) (omega arith))
        (omega arith)

  -- Two continuation bytes, and whatever the reader takes from the third byte on.
  read_after_two :
      (k n : ℕ) (b' : Buffer)
      → Appends n (put_more v₁ (put_more v b)) b'
      → read_var k b'.memory (put_more v₁ (put_more v b)).offset ≡ (v₂, b'.offset)
      → read_var (suc (suc k)) b'.memory b.offset ≡ (v, b'.offset)
  read_after_two k n b' a e =
      read_after_more (suc k) (1 + n) v b b'
        (Appends-trans 1 n (1 + n) (put_more-Appends v₁ _) a (omega arith))
        (rw (← e₁) (read_after_more k n v₁ (put_more v b) b' a (rw (← e₂) e)))

  -- Three continuation bytes and a number behind them.
  read_after_triple :
      (k n v₃ : ℕ) (b' : Buffer)
      → v₃ ≡ v₂ / 128
      → Appends n (put_triple v v₁ v₂ b) b'
      → read_var k b'.memory (put_triple v v₁ v₂ b).offset ≡ (v₃, b'.offset)
      → read_var (suc (suc (suc k))) b'.memory b.offset ≡ (v, b'.offset)
  read_after_triple k n v₃ b' e₃ a e =
      read_after_two (suc k) (1 + n) b'
        (Appends-trans 1 n (1 + n) (put_more-Appends v₂ _) a (omega arith))
        (read_after_more k n v₂ _ b' a (rw (← e₃) e))

  -- The third byte of the last round has its top bit set already, so it is read back whole.
  read_last_triple :
      128 ≤ v₂
      → v₂ < 256
      → read_var 2 (put_triple v v₁ v₂ b).memory b.offset ≡ (v, (put_triple v v₁ v₂ b).offset)
  read_last_triple lo hi = read_after_two 0 1 _ (put_more-Appends v₂ _) (read_var_whole v₂ _ lo hi)

-- One round of the first loop, with `suc left` rounds to go.
put_triples_more :
    (left v : ℕ) (b : Buffer)
    → 0x1fffff < v
    → put_triples (suc left) v b
      ≡ put_triples left (v / 2 ^ 21) (put_triple v (v / 2 ^ 7) (v / 2 ^ 14) b)
unfolding put_triples
put_triples_more left v b h = rw (lt→ltb _ _ h)

put_triples_done :
    (left v : ℕ) (b : Buffer) → v ≤ 0x1fffff → put_triples (suc left) v b ≡ put_var32 v b
unfolding put_triples
put_triples_done left v b h = rw (le→ltb _ _ h)

-- The number is written in `k + 1` bytes at most, and read back.
abbrev Reads : (k v : ℕ) → Buffer → Buffer → Type 0
Reads k v b b' = Appends (suc k) b b' × (read_var k b'.memory b.offset ≡ (v, b'.offset))

put_var32-Reads : (k v : ℕ) (b : Buffer) → v < 128 ^ suc k → Reads k v b (put_var32 v b)
unfolding put_var32
put_var32-Reads k v b h =
    (put_groups-Appends k v (lt_wf.apply v) b h, read_var-put_groups k v (lt_wf.apply v) b h)

triple-Reads :
    (k v : ℕ) (b b' : Buffer)
    → Reads k (v / 2 ^ 21) (put_triple v (v / 2 ^ 7) (v / 2 ^ 14) b) b'
    → Reads (suc (suc (suc k))) v b b'
triple-Reads k v b b' (a, e) = (
  Appends-trans 3 (suc k) _ (triple-Appends v _ _ b (omega arith) (omega arith)) a (omega arith),
  read_after_triple v _ _ b (omega arith) (omega arith) k (suc k) (v / 2 ^ 21) b' (omega arith) a e,
)

last_round : (v : ℕ) (b : Buffer) → v < 2 ^ 22 → Reads 2 v b (put_triples 1 v b)
last_round v b h = elim (dec_lt 0x1fffff v) [
  | no p ↦ rw (put_triples_done 0 v b (omega arith)) (put_var32-Reads 2 v b (omega arith))
  | yes p ↦ rw (put_triples_more 0 v b p) (
      unfold put_triples in
      (
        triple-Appends v _ _ b (omega arith) (omega arith),
        read_last_triple v _ _ b (omega arith) (omega arith) (omega arith) (omega arith),
      ))
]

inner_round :
    (left k v : ℕ) (b : Buffer)
    → 0x200000 ≤ 128 ^ suc (suc (suc (suc k)))
    → ((b' : Buffer) → Reads k (v / 2 ^ 21) b' (put_triples left (v / 2 ^ 21) b'))
    → Reads (suc (suc (suc k))) v b (put_triples (suc left) v b)
inner_round left k v b h back = elim (dec_lt 0x1fffff v) [
  | no p ↦ rw (put_triples_done left v b (omega arith)) (put_var32-Reads _ v b (omega arith))
  | yes p ↦ rw (put_triples_more left v b p) (triple-Reads k v b _ (back _))
]

all_rounds : (v : ℕ) (b : Buffer) → v < 2 ^ 64 → Reads 8 v b (put_triples 3 v b)
all_rounds v b h = inner_round 2 5 v b (omega arith) (λ b₁.
    inner_round 1 2 (v / 2 ^ 21) b₁ (omega arith)
      (λ b₂. last_round (v / 2 ^ 21 / 2 ^ 21) b₂ (omega arith)))

-- `putVar64` keeps the bytes written before, takes at most the 9 bytes that it asserts room for, and
-- the reader takes every unsigned 64-bit number back, ending where the next write starts.
pub read_var-put_var64 :
    (v : ℕ) (b : Buffer)
    → v < 2 ^ 64
    → Appends 9 b (put_var64 v b)
      × (read_var 8 (put_var64 v b).memory b.offset ≡ (v, (put_var64 v b).offset))
unfolding put_var64
read_var-put_var64 v b h = all_rounds v b h
