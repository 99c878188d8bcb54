-- ===== src/Ogm/Own.antt =====
-- bat_iv_ogm.c: our own OGMs that come back. For one neighbour and one interface, which of our last
-- OGMs the neighbour sent back to us (`bcast_own` and `bcast_own_sum`).
pub mod Echo
use batman_adv.Common.{ℕ, ◌+◌, ◌%◌, ◌^◌, Bool, true, false, ◌&&◌, ◌==◌, if◌then◌else◌}
use batman_adv.Common.Int.{pos}
use batman_adv.Kernel.{Bitmap}
use batman_adv.Word.{seq_diff, sub_word}
use batman_adv.Window.{window_size, set_bit, bit_get_packet}
use batman_adv.Word.Flags.{test_flag}
use batman_adv.Ogm.Queue.{directlink}

-- The number of the interface's next OGM, the window of one neighbour, and its weight.
pub record OwnWindow (bm : Bitmap) : Type 0 where
  pub ogm_seqno : ℕ
  pub bcast_own : bm.Bits
  pub bcast_own_sum : ℕ

module _ (bm : Bitmap) where
  -- The body of `batadv_iv_ogm_slide_own_bcast_window`.
  unfoldable pub slide_own_bcast_window : OwnWindow bm → OwnWindow bm
  slide_own_bcast_window w =
      let bits = (bit_get_packet bm w.bcast_own (pos 1) false).1 in
      record w { bcast_own = bits; bcast_own_sum = bm.weight bits window_size }

  -- `batadv_iv_ogm_schedule`, as far as it concerns the window: the number is used, and the window
  -- slides.
  unfoldable pub schedule : OwnWindow bm → OwnWindow bm
  unfolding slide_own_bcast_window
  schedule w = slide_own_bcast_window (record w { ogm_seqno = (w.ogm_seqno + 1) % 2 ^ 32 })

  -- The part of `batadv_iv_ogm_process` for an OGM of this node: `same_iface` tells whether the
  -- originator is the interface that received it.
  unfoldable pub own_echo : ℕ → Bool → ℕ → OwnWindow bm → OwnWindow bm
  own_echo flags same_iface seqno w =
      if test_flag directlink flags && same_iface
      then (let bit_pos = seq_diff (sub_word 32 w.ogm_seqno 2) seqno in
          let bits = set_bit bm w.bcast_own bit_pos in
          record w { bcast_own = bits; bcast_own_sum = bm.weight bits window_size })
      else w
