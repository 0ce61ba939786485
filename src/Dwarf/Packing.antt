-- ===== src/Dwarf/Packing.antt =====
-- The register and the offset of a frame address in one word.
use java_profiler.Base.{
  ℕ, zero, suc, ◌+◌, ◌-◌, ◌*◌, ◌/◌, ◌%◌, ◌^◌, ◌≤◌, ◌<◌, ◌≡◌, ◌∙◌, max, if◌then◌else◌, true, ltb,
  bit_or, arith,
}
use java_profiler.Base.Bits.{double, bit_or-zero, bit_and_ones, bit_or_step}
use java_profiler.Dwarf.{pack_cfa, packable}

half_shifted : (k a : ℕ) → a * 2 ^ suc k ≡ a * 2 ^ k * 2
half_shifted k a = rw (double k) (omega arith)

-- Bits that are shifted up by `k` digits and lower ones add up.
bit_or_shifted : (k a b : ℕ) → b < 2 ^ k → bit_or (a * 2 ^ k) b ≡ a * 2 ^ k + b
bit_or_shifted zero a b lt = let e : b ≡ 0 = omega arith in rw e (bit_or-zero (a * 1) ∙ omega arith)
bit_or_shifted (suc k) a b lt =
    let e : a * 2 ^ suc k / 2 ≡ a * 2 ^ k = omega (arith, half_shifted k a) in
    let low : max (a * 2 ^ suc k % 2) (b % 2) ≡ b % 2 = omega (arith, half_shifted k a) in
    bit_or_step (a * 2 ^ suc k) b
    ∙ rw (e, low)
        (omega (arith, half_shifted k a, bit_or_shifted k a (b / 2) (omega (arith, double k))))

-- How a reader of a frame layout gets the signed offset back: 24 bits with their sign.
unfoldable pub unpack_offset : ℕ → ℕ
unpack_offset cfa =
    if ltb (cfa / 2 ^ 8) (2 ^ 23) then cfa / 2 ^ 8 else cfa / 2 ^ 8 + 2 ^ 32 - 2 ^ 24

pack_cfa-sum : (r o : ℕ) → r ≤ 0xff → pack_cfa r o ≡ o % 2 ^ 24 * 2 ^ 8 + r
unfolding pack_cfa
pack_cfa-sum r o small =
    let shifted : o * 2 ^ 8 % 2 ^ 32 ≡ o % 2 ^ 24 * 2 ^ 8 = omega arith in
    rw (shifted, bit_and_ones 8 r (omega arith)) (bit_or_shifted 8 (o % 2 ^ 24) r (omega arith))

-- The register and the offset of a frame address that passes the asserts can be read back from the word
-- that they are packed into.
pub unpack-pack_cfa :
    (cfa_reg cfa_off : ℕ)
    → cfa_off < 2 ^ 32
    → packable cfa_reg cfa_off ≡ true
    → (pack_cfa cfa_reg cfa_off % 2 ^ 8 ≡ cfa_reg)
      × (unpack_offset (pack_cfa cfa_reg cfa_off) ≡ cfa_off)
unfolding packable unpack_offset
unpack-pack_cfa cfa_reg cfa_off word fine =
    let small : cfa_reg ≤ 0xff = ground arith in
    rw (pack_cfa-sum cfa_reg cfa_off small) (omega arith, ground arith)
