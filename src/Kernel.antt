-- ===== src/Kernel.antt =====
-- The kernel's bitmap operations (linux/bitmap.h, linux/bitops.h), which the module only calls.
use batman_adv.Common.{
  ℕ, zero, suc, ◌+◌, ◌-◌, ◌%◌, ◌^◌, ◌<◌, ◌≡◌, Bool, true, false, ◌==◌, ltb, if◌then◌else◌,
}

-- The number of the first n positions that a test accepts.
abbrev pub count_below : ℕ → (ℕ → Bool) → ℕ
count_below zero p = 0
count_below (suc n) p = (if p n then 1 else 0) + count_below n p

-- `test_bit`, `set_bit`, `bitmap_shift_left` (source and destination the same), `bitmap_zero` and
-- `bitmap_weight`, with their documented effect on the bits of a map of `size` bits.
pub record Bitmap : Type 1 where
  pub Bits : Type 0
  pub test : ℕ → Bits → Bool
  pub set : ℕ → Bits → Bits
  pub shift_left : Bits → ℕ → ℕ → Bits
  pub clear : Bits → ℕ → Bits
  pub weight : Bits → ℕ → ℕ
  pub test-set : (b : Bits) (i j : ℕ) → test j (set i b) ≡ (if i == j then true else test j b)
  pub test-shift_left :
      (b : Bits) (n size i : ℕ)
      → i < size
      → n < size
      → test i (shift_left b n size) ≡ (if ltb i n then false else test (i - n) b)
  pub test-clear : (b : Bits) (size i : ℕ) → i < size → test i (clear b size) ≡ false
  pub weight-count : (b : Bits) (size : ℕ) → weight b size ≡ count_below size (λ i. test i b)

-- `time_before` of linux/jiffies.h on a 64-bit jiffies counter, and `msecs_to_jiffies`: the first
-- compares the wrapping counter right over half its range.
pub record Jiffies : Type 0 where
  pub time_before : ℕ → ℕ → Bool
  pub msecs_to_jiffies : ℕ → ℕ
  pub before_later :
      (t k : ℕ) → t < 2 ^ 64 → k < 2 ^ 63 → time_before t ((t + k) % 2 ^ 64) ≡ ltb 0 k
  pub before_earlier :
      (t k : ℕ) → t < 2 ^ 64 → k < 2 ^ 63 → time_before ((t + k) % 2 ^ 64) t ≡ false
