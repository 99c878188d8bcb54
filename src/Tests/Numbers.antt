-- ===== src/Tests/Numbers.antt =====
-- The quality of links.
use batman_adv.Common.{◌≡◌, ltb, ◌≤◌, arith, true, false, [], ◌∷◌}
use batman_adv.Ogm.Metric.{LinkCounts, calc_tq, ring_buffer_avg}
use batman_adv.Ogm.Metric.Bounds.{calc_tq_exact, link_quality}
use batman_adv.Ogm.Metric.Ring.{ring_buffer_avg-recent, received, counts}

abbrev perfect : LinkCounts
perfect = record { orig_eq_count = 64; neigh_rq_count = 64; same_wifi = false; penalty = 15 }

abbrev half : LinkCounts
half = record { orig_eq_count = 32; neigh_rq_count = 48; same_wifi = true; penalty = 30 }

abbrev one_way : LinkCounts
one_way = record { orig_eq_count = 0; neigh_rq_count = 60; same_wifi = false; penalty = 15 }

calc_tq_exact_example :
    (calc_tq half 230 ≡ (ltb 0 (link_quality half 230), link_quality half 230))
    × (link_quality half 230 ≤ 230)
calc_tq_exact_example = calc_tq_exact half 230 (omega arith) (omega arith) (omega arith)

-- Six values: 10 is overwritten, and the 0 does not count.
ring_buffer_avg-recent_example :
    ring_buffer_avg (received (100 ∷ 0 ∷ 50 ∷ 60 ∷ 70 ∷ 10 ∷ [])).0 ≡ 70
unfolding counts
ring_buffer_avg-recent_example =
    ring_buffer_avg-recent (100 ∷ 0 ∷ 50 ∷ 60 ∷ 70 ∷ 10 ∷ [])
      (omega arith, (omega arith, (omega arith, (omega arith, (omega arith, (omega arith, tt))))))
