-- ===== src/Buffer/Examples.antt =====
-- Concrete writes, and the theorems at them.
use java_profiler.Base.{ℕ, ◌+◌, ◌-◌, ◌^◌, ◌≡◌, refl, arith, List, [], ◌∷◌}
use java_profiler.Base.Order.{lt_wf}
use java_profiler.Buffer.Long.{read_var-put_var64}
use java_profiler.Buffer.Reader.{read_var}
use java_profiler.Buffer.Varint.{Appends}
use java_profiler.Buffer.{Buffer, put_var32, put_var64}
use native.Mathlib.Decide.{dec_lt}

-- A buffer with three bytes in it.
abbrev three : Buffer
three = record { memory = λ j. j + 1; offset = 3 }

abbrev bytes_from : Buffer → List ℕ
bytes_from b = b.memory 3 ∷ b.memory 4 ∷ b.memory 5 ∷ []

put_var32_300 : bytes_from (put_var32 300 three) ≡ 0xac ∷ 0x02 ∷ 6 ∷ []
unfolding put_var32 lt_wf dec_lt
put_var32_300 = refl

-- The largest 64-bit number takes nine bytes with every bit set.
put_var64_largest : (put_var64 (2 ^ 64 - 1) three).offset ≡ 12
unfolding put_var64 lt_wf dec_lt
put_var64_largest = refl

read_var-put_var64_example :
    Appends 9 three (put_var64 (2 ^ 64 - 1) three)
    × (read_var 8 (put_var64 (2 ^ 64 - 1) three).memory 3
        ≡ (2 ^ 64 - 1, (put_var64 (2 ^ 64 - 1) three).offset))
read_var-put_var64_example = read_var-put_var64 (2 ^ 64 - 1) three (omega arith)
