-- ===== src/Word/Order.antt =====
-- batadv_seq_before and the signed difference: what they decide of two wrapping numbers.
use batman_adv.Common.{ℕ, ◌+◌, ◌%◌, ◌^◌, ◌<◌, ◌≡◌, ◌↔◌, true, false, arith}
use batman_adv.Word.{seq_before, seq_after}

-- A 32-bit number is before its wrapped sum with k exactly when k is positive and below 2^31.
pub seq_before_iff :
    (x k : ℕ)
    → x < 2 ^ 32
    → k < 2 ^ 32
    → (seq_before 4 x ((x + k) % 2 ^ 32) ≡ true) ↔ ((0 < k) × (k < 2 ^ 31))
unfolding seq_before
seq_before_iff x k hx hk = ground arith

pub seq_before_iff_u16 :
    (x k : ℕ)
    → x < 2 ^ 16
    → k < 2 ^ 16
    → (seq_before 2 x ((x + k) % 2 ^ 16) ≡ true) ↔ ((0 < k) × (k < 2 ^ 15))
unfolding seq_before
seq_before_iff_u16 x k hx hk = ground arith

pub seq_before_iff_u8 :
    (x k : ℕ)
    → x < 2 ^ 8
    → k < 2 ^ 8
    → (seq_before 1 x ((x + k) % 2 ^ 8) ≡ true) ↔ ((0 < k) × (k < 2 ^ 7))
unfolding seq_before
seq_before_iff_u8 x k hx hk = ground arith

pub seq_before_asym :
    (x y : ℕ) → x < 2 ^ 32 → y < 2 ^ 32 → seq_before 4 x y ≡ true → seq_after 4 x y ≡ false
unfolding seq_before seq_after
seq_before_asym x y hx hy h = ground arith
