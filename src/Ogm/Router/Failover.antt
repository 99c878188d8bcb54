-- ===== src/Ogm/Router/Failover.antt =====
-- A router that falls silent is replaced.
use batman_adv.Common.{
  ℕ, suc, ◌≤◌, ◌<◌, ◌≡◌, refl, ap, ◌∙◌, Bool-cases, ◌⊎◌, inl, inr, Option-cases, false, arith, List,
  [], ◌∷◌, Option, none, some, map, take, All, length, min,
}
use batman_adv.Ogm.{tq_max}
use batman_adv.Ogm.Metric.Ring.{mean, counts}
use batman_adv.Ogm.Router.{
  Quality, Key, same_key, Hop, Routes, Arrival, Supply, receive_tq, decay, find_hop,
  received_quality, receive_hop, choose_router, orig_update,
}
use batman_adv.Ogm.Router.Entries.{
  latest, receive_tq-IsFit, received-pos, same_key_trans, find_hop-key, find_hop-map, Silent,
  decay-key, receive_hop-key, decay_sender, decay_other, receive_hop_other, receive_hop_sender,
  take-zeros, Silent-weaken, hops_after, update_found, fresh,
}

-- The router is one of the two.
abbrev pub OneOf : Key → Key → Option Key → Type 0
OneOf r s router = (router ≡ some r) ⊎ (router ≡ some s)

choose-OneOf :
    (r s : Key) (avg sum : ℕ) (hops : List Hop) (router : Option Key)
    → OneOf r s router
    → OneOf r s (choose_router s avg sum hops router)
unfolding choose_router
choose-OneOf r s avg sum hops none o = inr refl
choose-OneOf r s avg sum hops (some k) o = elim (Bool-cases (same_key k s)) [
  | inl b ↦ rw (choose_router, b) o
  | inr b ↦ elim (Option-cases (find_hop k hops)) [
    | inl e ↦ rw (choose_router, b, e) o
    | inr (h, e) ↦ elim (Option-cases h.ifinfo) [
      | inl i ↦ rw (choose_router, b, e, i) o
      | inr (q, i) ↦ ground arith
    ]
  ]
]

choose_silent :
    (r s : Key) (avg sum : ℕ) (hops : List Hop) (router : Option Key) (h : Hop) (q : Quality)
    → OneOf r s router
    → same_key r s ≡ false
    → find_hop r hops ≡ some h
    → h.ifinfo ≡ some q
    → q.tq_avg ≡ 0
    → 0 < avg
    → choose_router s avg sum hops router ≡ some s
unfolding choose_router
choose_silent r s avg sum hops router h q (inr o) other e i z pos = rw (o) (ground arith)
choose_silent r s avg sum hops router h q (inl o) other e i z pos = rw (o) (ground arith)

module _ (sup : Supply) (r s : Key) (other : same_key r s ≡ false) where
  find_after_r :
      (k : ℕ) (a : Arrival) (routes : Routes) (v : Silent r s k routes)
      → find_hop r (hops_after (fresh s a) v.quality_s routes.neigh_list)
        ≡ some (record v.hop_r { ifinfo = some (receive_tq 0 v.quality_r) })
  find_after_r k a routes v =
      let b : Arrival = fresh s a in
      let key : same_key v.hop_r.key s ≡ false =
        same_key_trans v.hop_r.key r s (find_hop-key r routes.neigh_list v.hop_r v.found_r) other in
      let d = decay_other b v.hop_r v.quality_r key refl v.info_r in
      let one = find_hop-map (decay b) r routes.neigh_list v.hop_r (decay-key b) v.found_r in
      find_hop-map (receive_hop b v.quality_s) r (map (decay b) routes.neigh_list) (decay b v.hop_r)
        (receive_hop-key b v.quality_s) one
      ∙ ap some (ap (receive_hop b v.quality_s) d ∙ receive_hop_other b v.quality_s _ key)

  find_decayed_s :
      (k : ℕ) (a : Arrival) (routes : Routes) (v : Silent r s k routes)
      → find_hop s (map (decay (fresh s a)) routes.neigh_list) ≡ some v.hop_s
  find_decayed_s k a routes v =
      let b : Arrival = fresh s a in
      find_hop-map (decay b) s routes.neigh_list v.hop_s (decay-key b) v.found_s
      ∙ ap some (decay_sender b v.hop_s (find_hop-key s routes.neigh_list v.hop_s v.found_s))

  find_after_s :
      (k : ℕ) (a : Arrival) (routes : Routes) (v : Silent r s k routes)
      → find_hop s (hops_after (fresh s a) v.quality_s routes.neigh_list)
        ≡ some (record v.hop_s {
          ifinfo = some (received_quality (fresh s a) v.quality_s);
          last_seen = a.now;
        })
  find_after_s k a routes v =
      let b : Arrival = fresh s a in
      find_hop-map (receive_hop b v.quality_s) s (map (decay b) routes.neigh_list) v.hop_s
        (receive_hop-key b v.quality_s) (find_decayed_s k a routes v)
      ∙ ap some (
          receive_hop_sender b v.quality_s v.hop_s
            (find_hop-key s routes.neigh_list v.hop_s v.found_s))

  Silent-step :
      (k : ℕ) (a : Arrival) (routes : Routes)
      → Silent r s k routes
      → k ≤ 4
      → 0 < a.tq
      → a.tq ≤ tq_max
      → Silent r s (suc k) (orig_update sup (fresh s a) routes)
  Silent-step k a routes v h pos byte =
      let b : Arrival = fresh s a in
      let (list, _) =
        update_found sup b routes v.hop_s v.quality_s (find_decayed_s k a routes v) v.info_s in
      let (fit, same) = receive_tq-IsFit 0 v.quality_r v.fit_r (omega arith) in
      record {
        hop_r = record v.hop_r { ifinfo = some (receive_tq 0 v.quality_r) };
        quality_r = receive_tq 0 v.quality_r;
        found_r = ap (find_hop r) list ∙ find_after_r k a routes v;
        info_r = refl;
        fit_r = fit;
        zeros = ap (take (suc k)) same ∙ take-zeros k (latest v.quality_r) h v.zeros;
        hop_s = record v.hop_s {
          ifinfo = some (received_quality b v.quality_s);
          last_seen = a.now;
        };
        quality_s = received_quality b v.quality_s;
        found_s = ap (find_hop s) list ∙ find_after_s k a routes v;
        info_s = refl;
        fit_s = (received-pos b v.quality_s v.fit_s pos byte refl).0;
      }

  Router-step :
      (k : ℕ) (a : Arrival) (routes : Routes)
      → Silent r s k routes
      → OneOf r s routes.router
      → OneOf r s (orig_update sup (fresh s a) routes).router
  Router-step k a routes v o =
      let b : Arrival = fresh s a in
      let (_, router) =
        update_found sup b routes v.hop_s v.quality_s (find_decayed_s k a routes v) v.info_s in
      rw (router) (
        choose-OneOf r s _ v.hop_s.own_sum (hops_after b v.quality_s routes.neigh_list)
          routes.router o)

  Router-last :
      (a : Arrival) (routes : Routes)
      → Silent r s 4 routes
      → OneOf r s routes.router
      → 0 < a.tq
      → a.tq ≤ tq_max
      → (orig_update sup (fresh s a) routes).router ≡ some s
  unfolding counts
  Router-last a routes v o pos byte =
      let b : Arrival = fresh s a in
      let (_, router) =
        update_found sup b routes v.hop_s v.quality_s (find_decayed_s 4 a routes v) v.info_s in
      let (fit, same) = receive_tq-IsFit 0 v.quality_r v.fit_r (omega arith) in
      let zero : (receive_tq 0 v.quality_r).tq_avg ≡ 0 =
        fit.averaged ∙ ap mean (same ∙ ap (λ l. 0 ∷ l) v.zeros) in
      router
      ∙ choose_silent r s _ v.hop_s.own_sum (hops_after b v.quality_s routes.neigh_list)
          routes.router _ _ o other (find_after_r 4 a routes v) refl zero
          (received-pos b v.quality_s v.fit_s pos byte refl).1

  -- New OGMs over s, the latest first.
  abbrev pub receive_fresh : Routes → List Arrival → Routes
  receive_fresh routes [] = routes
  receive_fresh routes (a ∷ rest) = orig_update sup (fresh s a) (receive_fresh routes rest)

  abbrev pub ByteTq : Arrival → Type 0
  ByteTq a = (0 < a.tq) × (a.tq ≤ tq_max)

  Silent-after :
      (routes : Routes) (l : List Arrival)
      → Silent r s 0 routes
      → OneOf r s routes.router
      → All ByteTq l
      → Silent r s (min 4 (length l)) (receive_fresh routes l)
        × OneOf r s (receive_fresh routes l).router
  Silent-after routes [] v o b = (v, o)
  Silent-after routes (a ∷ rest) v o b =
      let (v', o') = Silent-after routes rest v o b.1 in
      (
        Silent-weaken (suc (min 4 (length rest))) (min 4 (suc (length rest))) _ (omega arith) (
            Silent-step (min 4 (length rest)) a (receive_fresh routes rest) v' (omega arith) b.0.0
              b.0.1),
        Router-step (min 4 (length rest)) a (receive_fresh routes rest) v' o',
      )

  -- When at least five OGMs of an originator come one after the other, all of them new, all over one
  -- neighbour s that is not the router r, none over r or any other neighbour in between, and with
  -- qualities from 1 to 255, then s is the router afterwards. Both r and s have entries for the
  -- interface before, and their averages are those of their ring buffers.
  pub Silent-router :
      (routes : Routes) (l : List Arrival)
      → Silent r s 0 routes
      → routes.router ≡ some r
      → All ByteTq l
      → 5 ≤ length l
      → (receive_fresh routes l).router ≡ some s
  Silent-router routes [] v o b h = absurd (omega arith)
  Silent-router routes (a ∷ rest) v o b h =
      let (v', o') = Silent-after routes rest v (inl o) b.1 in
      Router-last a (receive_fresh routes rest)
        (Silent-weaken (min 4 (length rest)) 4 _ (omega arith) v') o' b.0.0 b.0.1
