-- ===== src/Tests/Routers.antt =====
-- Two neighbours towards an originator, the first of which is its router and falls silent.
use batman_adv.Common.{◌≡◌, refl, arith, true, [], ◌∷◌, some, replicate}
use batman_adv.Ogm.Metric.Ring.{counts}
use batman_adv.Ogm.Router.{Quality, Key, Routes, Arrival, find_hop}
use batman_adv.Ogm.Router.Entries.{IsFit, Silent}
use batman_adv.Ogm.Router.Failover.{receive_fresh, Silent-router}

abbrev first : Key
first = record { addr = 1; if_incoming = 0 }

abbrev second : Key
second = record { addr = 2; if_incoming = 0 }

abbrev strong : Quality
strong = record {
  tq_recv = 250 ∷ 250 ∷ 250 ∷ 250 ∷ 250 ∷ [];
  tq_index = 0;
  tq_avg = 250;
  last_ttl = 50;
}

abbrev weak : Quality
weak = record { tq_recv = 90 ∷ 0 ∷ 0 ∷ 0 ∷ 0 ∷ []; tq_index = 1; tq_avg = 90; last_ttl = 50 }

abbrev routes : Routes
routes = record {
  neigh_list =
      record { key = first; ifinfo = some strong; last_seen = 0; own_sum = 60 }
      ∷ record { key = second; ifinfo = some weak; last_seen = 0; own_sum = 20 }
      ∷ [];
  router = some first;
  last_ttl = 50;
}

abbrev arrival : Arrival
arrival = record { sender = second; sender_sum = 20; tq = 100; ttl = 49; no_dup = true; now = 7 }

strong-IsFit : IsFit strong
unfolding counts
strong-IsFit = record {
  fits = record { five = refl; place = omega arith; bytes = ground arith };
  averaged = refl;
}

weak-IsFit : IsFit weak
unfolding counts
weak-IsFit = record {
  fits = record { five = refl; place = omega arith; bytes = ground arith };
  averaged = refl;
}

routes-Silent : Silent first second 0 routes
unfolding find_hop
routes-Silent = record {
  hop_r = record { key = first; ifinfo = some strong; last_seen = 0; own_sum = 60 };
  quality_r = strong;
  found_r = refl;
  info_r = refl;
  fit_r = strong-IsFit;
  zeros = refl;
  hop_s = record { key = second; ifinfo = some weak; last_seen = 0; own_sum = 20 };
  quality_s = weak;
  found_s = refl;
  info_s = refl;
  fit_s = weak-IsFit;
}

Silent-router_example :
    (receive_fresh
      (record { neigh_ok = true; ifinfo_ok = true })
      first
      second
      refl
      routes
      (replicate 5 arrival)).router
    ≡ some second
Silent-router_example =
    Silent-router (record { neigh_ok = true; ifinfo_ok = true }) first second refl routes
      (replicate 5 arrival) routes-Silent refl
      (
        (omega arith, omega arith),
        (
          (omega arith, omega arith),
          (
            (omega arith, omega arith),
            ((omega arith, omega arith), ((omega arith, omega arith), tt)),
          ),
        ),
      )
      (omega arith)
