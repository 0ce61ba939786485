-- ===== src/Dictionary/Key.antt =====
-- Keys as C strings: the copy that a cell holds, the comparison, and the hash.
use java_profiler.Base.{
  ℕ, zero, suc, ◌+◌, ◌*◌, ◌%◌, ◌^◌, ◌<◌, bit_xor, Bool, true, false, ◌&&◌, ◌==◌, ltb, if◌then◌else◌,
  length, get_elem?, List, [], ◌∷◌, ◌++◌, none, some, All, ◌≡◌, refl, ◌↔◌, arith,
}

-- `allocateKey`: the bytes and a terminator.
unfoldable pub allocate_key : List ℕ → List ℕ
allocate_key key = key ++ (0 ∷ [])

-- `strncmp(s, t, n) == 0`; an array that ends before `n` bytes and a terminator compares as different.
unfoldable pub strncmp_equal : List ℕ → List ℕ → ℕ → Bool
strncmp_equal s t zero = true
strncmp_equal (c ∷ s) (k ∷ t) (suc n) =
    let rest = strncmp_equal s t n in if c == k then (if c == 0 then true else rest) else false
strncmp_equal s t (suc n) = false

unfoldable pub key_equals : List ℕ → List ℕ → ℕ → Bool
unfolding strncmp_equal
key_equals candidate key n =
    strncmp_equal candidate key n
    && (elim (get_elem? candidate n) [ none ↦ false | some c ↦ c == 0 ])

-- A `char` is signed on x86-64: it is extended to 32 bits before the exclusive or.
unfoldable pub extend_char : ℕ → ℕ
extend_char c = if ltb c 0x80 then c else c + 0xffffff00

unfoldable pub hash_loop : ℕ → List ℕ → ℕ
unfolding extend_char
hash_loop h [] = h
hash_loop h (c ∷ key) = hash_loop (bit_xor h (extend_char c) * 16777619 % 2 ^ 32) key

-- FNV-1a
unfoldable pub hash : List ℕ → ℕ
unfolding hash_loop
hash key = hash_loop 2166136261 key

-- A key holds no terminator.
abbrev pub IsText : List ℕ → Type 0
IsText = All (λ c. 0 < c)

-- The stored copy of a key compares as equal to that key and to no other.
pub key_equals-allocate_key :
    (key j : List ℕ)
    → IsText key
    → IsText j
    → (key_equals (allocate_key key) j (length j) ≡ true) ↔ (key ≡ j)
unfolding key_equals allocate_key
key_equals-allocate_key [] [] hk hj = (λ _. refl, λ _. refl)
key_equals-allocate_key [] (b ∷ j) hk hj = (λ e. ground arith, λ e. cc)
key_equals-allocate_key (a ∷ key) [] hk hj = (λ e. ground arith, λ e. cc)
key_equals-allocate_key (a ∷ key) (b ∷ j) hk hj =
    let (f, g) = key_equals-allocate_key key j hk.1 hj.1 in
    (λ e. ground (arith, f), λ e. ground (arith, g))

-- A stored string is equal to one key at most.
pub key_equals_unique :
    (candidate j k : List ℕ)
    → IsText j
    → IsText k
    → key_equals candidate j (length j) ≡ true
    → key_equals candidate k (length k) ≡ true
    → j ≡ k
unfolding key_equals
key_equals_unique [] [] [] hj hk p q = refl
key_equals_unique [] [] (b ∷ k) hj hk p q = ground arith
key_equals_unique [] (a ∷ j) k hj hk p q = ground arith
key_equals_unique (c ∷ s) [] [] hj hk p q = refl
key_equals_unique (c ∷ s) [] (b ∷ k) hj hk p q = ground arith
key_equals_unique (c ∷ s) (a ∷ j) [] hj hk p q = ground arith
key_equals_unique (c ∷ s) (a ∷ j) (b ∷ k) hj hk p q =
    ground (arith, key_equals_unique s j k hj.1 hk.1)
