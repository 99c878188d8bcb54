-- ===== src/Window.antt =====
-- bitarray.h and bitarray.c: the window of received sequence numbers of an originator.
pub mod Seen
use batman_adv.Common.{ℕ, ◌-◌, Bool, true, false, ◌&&◌, ◌||◌, not, if◌then◌else◌}
use batman_adv.Common.Int.{ℤ, pos, negsuc, pos_part, neg_part, ltb_ℤ, leb_ℤ}
use batman_adv.Word.{seq_diff}
use batman_adv.Kernel.{Bitmap}

-- BATADV_TQ_LOCAL_WINDOW_SIZE
abbrev pub window_size : ℕ
window_size = 64

-- BATADV_EXPECTED_SEQNO_RANGE
abbrev pub expected_seqno_range : ℕ
expected_seqno_range = 65536

module _ (bm : Bitmap) where
  -- `batadv_test_bit`
  unfoldable pub test_bit : bm.Bits → ℕ → ℕ → Bool
  test_bit seq_bits last_seqno curr_seqno =
      let diff = seq_diff last_seqno curr_seqno in
      if ltb_ℤ diff (pos 0) || leb_ℤ (pos window_size) diff
      then false
      else bm.test (pos_part diff) seq_bits

  -- `batadv_set_bit`
  unfoldable pub set_bit : bm.Bits → ℤ → bm.Bits
  set_bit seq_bits n =
      if ltb_ℤ n (pos 0) || leb_ℤ (pos window_size) n
      then seq_bits
      else bm.set (pos_part n) seq_bits

  -- `batadv_bitmap_shift_left`
  bitmap_shift_left : bm.Bits → ℤ → bm.Bits
  bitmap_shift_left seq_bits n =
      if leb_ℤ n (pos 0) || leb_ℤ (pos window_size) n
      then seq_bits
      else bm.shift_left seq_bits (pos_part n) window_size

  -- `if (set_mark) batadv_set_bit(seq_bits, n)`
  mark : bm.Bits → ℤ → Bool → bm.Bits
  mark seq_bits n set_mark = if set_mark then set_bit seq_bits n else seq_bits

  -- `batadv_bit_get_packet`: the return value (whether the window moved) and the new window.
  unfoldable pub bit_get_packet : bm.Bits → ℤ → Bool → Bool × bm.Bits
  unfolding mark bitmap_shift_left set_bit
  bit_get_packet seq_bits seq_num_diff set_mark =
      if leb_ℤ seq_num_diff (pos 0) && ltb_ℤ (negsuc (window_size - 1)) seq_num_diff
      then (false, mark seq_bits (pos (neg_part seq_num_diff)) set_mark)
      else (if ltb_ℤ (pos 0) seq_num_diff && ltb_ℤ seq_num_diff (pos window_size)
          then (true, mark (bitmap_shift_left seq_bits seq_num_diff) (pos 0) set_mark)
          else (if leb_ℤ (pos window_size) seq_num_diff
                && ltb_ℤ seq_num_diff (pos expected_seqno_range)
              then (true, mark (bm.clear seq_bits window_size) (pos 0) set_mark)
              else (true, mark (bm.clear seq_bits window_size) (pos 0) set_mark)))
