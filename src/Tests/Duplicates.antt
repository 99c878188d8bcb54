-- ===== src/Tests/Duplicates.antt =====
-- OGMs received over two neighbours, and our own that come back.
use batman_adv.Common.{ℕ, ◌≡◌, ◌≢◌, refl, arith, true, false, [], ◌∷◌, map, ◌==◌}
use batman_adv.Common.Int.{◌-ℤ◌}
use batman_adv.Word.{seq_diff}
use batman_adv.Word.Flags.{test_flag}
use batman_adv.Window.{test_bit, bit_get_packet}
use batman_adv.Bcast.{window_protected}
use batman_adv.Ogm.Seqnos.{
  Neighbour, Originator, Sender, update_seqnos, update_neighbours, next_status, protected,
  neigh_dup, orig_dup,
}
use batman_adv.Ogm.Seqnos.Status.{update_seqnos_status, update_seqnos_seen, has_seen}
use batman_adv.Ogm.Seqnos.Again.{update_seqnos_again}
use batman_adv.Ogm.Own.{OwnWindow, schedule, own_echo}
use batman_adv.Ogm.Own.Echo.{scheduled, echoed, run, run-counted, counted}
use batman_adv.Tests.Instances.{predicate_bitmap, millisecond_jiffies}

abbrev left : Neighbour predicate_bitmap
left = record {
  addr = 1;
  if_incoming = 0;
  ifinfo = true;
  real_bits = λ i. i == 0;
  real_packet_count = 1;
}

abbrev right : Neighbour predicate_bitmap
right = record {
  addr = 2;
  if_incoming = 0;
  ifinfo = true;
  real_bits = λ i. false;
  real_packet_count = 0;
}

-- The number 100 came over the first neighbour.
abbrev orig : Originator predicate_bitmap
orig = record { neigh_list = left ∷ right ∷ []; last_real_seqno = 100; batman_seqno_reset = 0 }

abbrev from_left : Sender
from_left = record { h_source = 1; iface = 0 }

abbrev from_right : Sender
from_right = record { h_source = 2; iface = 0 }

not_refused :
    (update_seqnos predicate_bitmap millisecond_jiffies 5 true from_right 100 orig).0 ≢ protected
unfolding update_seqnos update_neighbours next_status seq_diff window_protected test_bit
    bit_get_packet ◌-ℤ◌
not_refused h = absurd (ground arith)

update_seqnos_status_example :
    (update_seqnos predicate_bitmap millisecond_jiffies 5 true from_right 100 orig).0 ≡ orig_dup
unfolding test_bit seq_diff
update_seqnos_status_example =
    update_seqnos_status predicate_bitmap millisecond_jiffies 5 from_right 100 orig not_refused

-- After it the number was seen from both.
update_seqnos_seen_example :
    let after = (update_seqnos predicate_bitmap millisecond_jiffies 5 true from_right 100 orig).1 in
    map (has_seen predicate_bitmap after.last_real_seqno 100) after.neigh_list ≡ true ∷ true ∷ []
unfolding test_bit seq_diff
update_seqnos_seen_example =
    (update_seqnos_seen predicate_bitmap millisecond_jiffies 5 from_right 100 orig 100 (omega arith)
      (omega arith) (omega arith) refl refl not_refused).1

update_seqnos_again_example :
    let after = (update_seqnos predicate_bitmap millisecond_jiffies 5 true from_right 100 orig).1 in
    (update_seqnos predicate_bitmap millisecond_jiffies 9 true from_right 100 after).0 ≡ neigh_dup
update_seqnos_again_example =
    (update_seqnos_again predicate_bitmap millisecond_jiffies 5 9 100 from_right from_left orig
      (omega arith) (omega arith) refl refl not_refused).0

abbrev no_echo : OwnWindow predicate_bitmap
no_echo = record { ogm_seqno = 7; bcast_own = λ i. false; bcast_own_sum = 0 }

none_counted : (p : ℕ) → counted predicate_bitmap no_echo p ≡ false
unfolding test_bit
none_counted p = ground arith

-- The number 6 comes back when 8 is the next one, and 7 when 9 is.
run-counted_example :
    counted predicate_bitmap
      (run predicate_bitmap no_echo (echoed 7 ∷ scheduled ∷ echoed 6 ∷ scheduled ∷ []))
      6
    ≡ true
unfolding schedule own_echo test_flag
run-counted_example =
    (run-counted predicate_bitmap no_echo (echoed 7 ∷ scheduled ∷ echoed 6 ∷ scheduled ∷ []) 6
      (omega arith) (omega arith) (omega arith) (omega arith, (tt, (omega arith, (tt, tt))))
      none_counted refl).0
