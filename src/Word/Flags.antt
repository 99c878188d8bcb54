-- ===== src/Word/Flags.antt =====
-- Single bits of a number.
use batman_adv.Common.{
  ℕ, zero, suc, ◌+◌, ◌*◌, ◌/◌, ◌%◌, ◌≡◌, Bool, true, false, ◌==◌, if◌then◌else◌, arith,
}

-- `flags & BIT(k)`
unfoldable pub test_flag : ℕ → ℕ → Bool
test_flag zero flags = flags % 2 == 1
test_flag (suc k) flags = test_flag k (flags / 2)

-- `flags | BIT(k)`
unfoldable pub set_flag : ℕ → ℕ → ℕ
set_flag zero flags = flags / 2 * 2 + 1
set_flag (suc k) flags = set_flag k (flags / 2) * 2 + flags % 2

-- `flags & ~BIT(k)`
unfoldable pub clear_flag : ℕ → ℕ → ℕ
clear_flag zero flags = flags / 2 * 2
clear_flag (suc k) flags = clear_flag k (flags / 2) * 2 + flags % 2

pub test-set_flag :
    (j k flags : ℕ) → test_flag j (set_flag k flags) ≡ (if j == k then true else test_flag j flags)
unfolding test_flag set_flag
test-set_flag zero zero flags = ground arith
test-set_flag zero (suc k) flags = ground arith
test-set_flag (suc j) zero flags =
    let e : (flags / 2 * 2 + 1) / 2 ≡ flags / 2 = omega arith in rw (e) (ground arith)
test-set_flag (suc j) (suc k) flags =
    let e : (set_flag k (flags / 2) * 2 + flags % 2) / 2 ≡ set_flag k (flags / 2) = omega arith in
    rw (e) (ground (arith, test-set_flag j k (flags / 2)))

pub test-clear_flag :
    (j k flags : ℕ)
    → test_flag j (clear_flag k flags) ≡ (if j == k then false else test_flag j flags)
unfolding test_flag clear_flag
test-clear_flag zero zero flags = ground arith
test-clear_flag zero (suc k) flags = ground arith
test-clear_flag (suc j) zero flags =
    let e : flags / 2 * 2 / 2 ≡ flags / 2 = omega arith in rw (e) (ground arith)
test-clear_flag (suc j) (suc k) flags =
    let e : (clear_flag k (flags / 2) * 2 + flags % 2) / 2 ≡ clear_flag k (flags / 2) =
      omega arith in
    rw (e) (ground (arith, test-clear_flag j k (flags / 2)))
