-- ===== src/Tests/Flooding.antt =====
-- The window of sequence numbers and the reception of broadcasts.
use batman_adv.Common.{ℕ, ◌≡◌, refl, arith, Bool, true, false, [], ◌∷◌, ◌+◌, ◌-◌, ◌%◌, ◌^◌, ◌==◌}
use batman_adv.Common.Int.{pos, ◌-ℤ◌}
use batman_adv.Word.{seq_diff, seq_before}
use batman_adv.Word.Order.{seq_before_iff}
use batman_adv.Window.{test_bit, bit_get_packet}
use batman_adv.Window.Seen.{seen_after}
use batman_adv.Bcast.{Flood, window_protected, accept}
use batman_adv.Bcast.Protect.{protected_after_reset}
use batman_adv.Bcast.Once.{accept_once, receive_all}
use batman_adv.Tests.Instances.{predicate_bitmap, millisecond_jiffies}

-- Only the number 10 was received, and it is the last one.
abbrev ten_seen : ℕ → Bool
ten_seen i = i == 0

seen_after_example :
    test_bit predicate_bitmap
      (bit_get_packet predicate_bitmap ten_seen (seq_diff 12 10) true).1
      12
      10
    ≡ true
unfolding test_bit bit_get_packet seq_diff
seen_after_example =
    seen_after predicate_bitmap ten_seen 10 12 10 true (omega arith) (omega arith) (omega arith)

abbrev ten_flood : Flood predicate_bitmap
ten_flood = record { bcast_bits = ten_seen; last_bcast_seqno = 10; bcast_seqno_reset = 0 }

accept_once_example :
    let after =
      receive_all predicate_bitmap millisecond_jiffies
        ((7, 11) ∷ (8, 14) ∷ [])
        (accept predicate_bitmap millisecond_jiffies 6 12 ten_flood).1 in
    accept predicate_bitmap millisecond_jiffies 9 12 after ≡ (false, after)
unfolding accept test_bit bit_get_packet seq_diff window_protected ◌-ℤ◌
accept_once_example =
    accept_once predicate_bitmap millisecond_jiffies 6 9 12 ((7, 11) ∷ (8, 14) ∷ []) ten_flood
      (omega arith) (omega arith) refl (omega arith, refl, (omega arith, refl, tt))

protected_after_reset_example :
    (window_protected millisecond_jiffies 60000
      (pos 70000)
      (pos 64)
      (window_protected millisecond_jiffies 50000 (pos 90000) (pos 64) 5).last_reset).ignored
    ≡ true
unfolding window_protected ◌-ℤ◌
protected_after_reset_example =
    (protected_after_reset millisecond_jiffies 50000 5 10000 (pos 90000) (pos 64) (pos 70000)
      (pos 64) (omega arith) (omega arith) (omega arith) refl).1

seq_before_iff_example : seq_before 4 (2 ^ 32 - 1) ((2 ^ 32 - 1 + 5) % 2 ^ 32) ≡ true
seq_before_iff_example =
    (seq_before_iff (2 ^ 32 - 1) 5 (omega arith) (omega arith)).1 (omega arith, omega arith)
