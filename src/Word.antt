-- ===== src/Word.antt =====
-- Sequence numbers of main.h: unsigned words that wrap, and their signed difference.
use batman_adv.Common.{ℕ, ◌+◌, ◌-◌, ◌*◌, ◌%◌, ◌^◌, Bool, ltb, if◌then◌else◌}
pub mod Order
pub mod Flags
pub mod Xor
use batman_adv.Common.Int.{ℤ, pos, negsuc}

-- `a - b` on a w-bit unsigned type: the result wraps.
abbrev pub sub_word : ℕ → ℕ → ℕ → ℕ
sub_word w a b = (a + 2 ^ w - b) % 2 ^ w

-- The conversion of a 32-bit pattern to `s32`.
abbrev pub to_s32 : ℕ → ℤ
to_s32 d = if ltb d (2 ^ 31) then pos d else negsuc (2 ^ 32 - d - 1)

-- `s32 diff = a - b` for two `u32` sequence numbers.
unfoldable pub seq_diff : ℕ → ℕ → ℤ
seq_diff a b = to_s32 (sub_word 32 a b)

-- `batadv_smallest_signed_int`, from the size of the type in bytes.
abbrev pub smallest_signed_int : ℕ → ℕ
smallest_signed_int size = 2 ^ (7 + 8 * (size - 1))

-- `batadv_seq_before(x, y)` on an unsigned type of `size` bytes.
unfoldable pub seq_before : ℕ → ℕ → ℕ → Bool
seq_before size x y = ltb (smallest_signed_int size) (sub_word (8 * size) x y)

-- `batadv_seq_after(x, y)`
unfoldable pub seq_after : ℕ → ℕ → ℕ → Bool
unfolding seq_before
seq_after size x y = seq_before size y x
