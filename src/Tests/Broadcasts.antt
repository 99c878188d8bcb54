-- ===== src/Tests/Broadcasts.antt =====
-- A broadcast that two gateways send.
use batman_adv.Common.{◌≡◌, refl, arith, true, [], ◌∷◌, replicate}
use batman_adv.Bla.{Duplist, no_entry, search, check_bcast_duplist}
use batman_adv.Bla.Ring.{IsRing, check-scan, view, new_entry}
use batman_adv.Bla.Refused.{Bcast, check_all, duplicate_refused}
use batman_adv.Tests.Instances.{millisecond_jiffies}

abbrev unused : Duplist
unused = record { bcast_duplist = replicate 16 no_entry; bcast_duplist_curr = 0 }

unused-IsRing : IsRing unused
unused-IsRing = record { places = refl; current = omega arith }

abbrev sent : Bcast
sent = record { time = 10000; crc = 77; orig = 1 }

abbrev unrelated : Bcast
unrelated = record { time = 10100; crc = 78; orig = 3 }

check-scan_example :
    view (check_bcast_duplist millisecond_jiffies 10000 77 1 unused).1
    ≡ new_entry millisecond_jiffies 10000 77 1 ∷ replicate 15 no_entry
unfolding check_bcast_duplist search
check-scan_example = (check-scan millisecond_jiffies 10000 77 1 unused unused-IsRing).1

duplicate_refused_example :
    let after =
      check_all millisecond_jiffies 10200
        (check_bcast_duplist millisecond_jiffies 10000 77 1 unused).1
        (unrelated ∷ []) in
    check_bcast_duplist millisecond_jiffies 10200 77 2 after ≡ (true, after)
unfolding check_bcast_duplist search
duplicate_refused_example =
    duplicate_refused millisecond_jiffies 10200 unused sent (unrelated ∷ []) 2 unused-IsRing refl
      (omega arith) refl (refl, tt) (omega arith)
