-- ===== src/Base/Words.antt =====
-- `usize` arithmetic of a 64-bit target: it wraps, as in a release build.
use Prim.Native.Nat.{ℕ, ◌+◌, ◌-◌, ◌%◌, ◌^◌}

abbrev pub usize_mod : ℕ
usize_mod = 2 ^ 64

abbrev pub add_usize : ℕ → ℕ → ℕ
add_usize a b = (a + b) % usize_mod

abbrev pub sub_usize : ℕ → ℕ → ℕ
sub_usize a b = (a + usize_mod - b) % usize_mod

-- No allocation is larger than `isize::MAX` bytes.
abbrev pub isize_max : ℕ
isize_max = 2 ^ 63 - 1
