-- ===== src/Base/Words.antt =====
-- The unsigned words of the code: `uint64_t` and `size_t`, both 64 bits wide.
use Prim.Native.Nat.{ℕ, ◌+◌, ◌-◌, ◌%◌, ◌^◌}

abbrev pub word_mod : ℕ
word_mod = 2 ^ 64

-- UINT64_MAX and SIZE_MAX
abbrev pub word_max : ℕ
word_max = 2 ^ 64 - 1

-- Sums and differences wrap.
abbrev pub add_word : ℕ → ℕ → ℕ
add_word a b = (a + b) % 2 ^ 64

abbrev pub sub_word : ℕ → ℕ → ℕ
sub_word a b = (a + 2 ^ 64 - b) % 2 ^ 64
