-- ===== src/Buffer/Reader.antt =====
-- How a reader of the recording takes numbers back from the bytes: the reference for the writers.
use java_profiler.Base.{ℕ, zero, suc, ◌+◌, ◌*◌, ◌%◌, ltb, if◌then◌else◌}

-- A compressed integer of the JFR format with at most `k` continuation bytes before a last whole byte;
-- returns the number and the position behind it. An `int` has k = 4, a `long` k = 8.
unfoldable pub read_var : (k : ℕ) → (ℕ → ℕ) → ℕ → ℕ × ℕ
read_var zero m pos = (m pos, pos + 1)
read_var (suc k) m pos =
    let rest = read_var k m (pos + 1) in
    if ltb (m pos) 128 then (m pos, pos + 1) else (m pos % 128 + 128 * rest.0, rest.1)

-- An unsigned number of `k` bytes, the high byte first.
unfoldable pub read_fixed : (k : ℕ) → (ℕ → ℕ) → ℕ → ℕ
read_fixed zero m pos = 0
read_fixed (suc k) m pos = read_fixed k m pos * 256 + m (pos + k)
