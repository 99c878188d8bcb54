-- ===== src/Ogm/Router/Entries.antt =====
-- A neighbour that is silent and one that sends: their entries after one OGM.
use batman_adv.Common.{
  ℕ, zero, suc, ◌≤◌, ◌<◌, ◌≡◌, refl, sym, ap, ◌∙◌, subst, Bool-cases, inl, inr, true, false, arith,
  List, [], ◌∷◌, some, map, take, replicate,
}
use batman_adv.Ogm.{tq_max}
use batman_adv.Ogm.Metric.{ring_buffer_set}
use batman_adv.Ogm.Metric.Ring.{recent, mean, Fits, set-Fits, avg-Fits, mean-pos, take-take}
use batman_adv.Ogm.Router.{
  Quality, Key, same_key, Hop, Routes, Arrival, Supply, receive_tq, decay, find_hop,
  received_quality, receive_hop, choose_router, update_sender, orig_update,
}

-- The last qualities, the newest first.
abbrev pub latest : Quality → List ℕ
latest q = recent q.tq_recv q.tq_index

-- The ring buffer is in order and the average is that of its values.
pub record IsFit (q : Quality) : Type 0 where
  pub fits : Fits q.tq_recv q.tq_index
  pub averaged : q.tq_avg ≡ mean (latest q)

pub receive_tq-IsFit :
    (v : ℕ) (q : Quality)
    → IsFit q
    → v ≤ tq_max
    → IsFit (receive_tq v q) × (latest (receive_tq v q) ≡ v ∷ take 4 (latest q))
unfolding receive_tq ring_buffer_set
receive_tq-IsFit v q f h =
    let (fits, same) = set-Fits q.tq_recv q.tq_index v f.fits h in
    (record { fits = fits; averaged = avg-Fits _ _ fits }, same)

-- The quality of an OGM with a TQ that is not 0.
pub received-pos :
    (a : Arrival) (q : Quality)
    → IsFit q
    → 0 < a.tq
    → a.tq ≤ tq_max
    → a.no_dup ≡ true
    → IsFit (received_quality a q) × (0 < (received_quality a q).tq_avg)
received-pos a q f h hv n =
    let (g, same) = receive_tq-IsFit a.tq q f hv in
    let pos : 0 < (receive_tq a.tq q).tq_avg =
      subst (λ m. 0 < m) (sym (g.averaged ∙ ap mean same)) (mean-pos a.tq (take 4 (latest q)) h) in
    rw (n) (record { fits = g.fits; averaged = g.averaged }, pos)

pub same_key_trans :
    (a r s : Key) → same_key a r ≡ true → same_key r s ≡ false → same_key a s ≡ false
same_key_trans a r s h h' = ground arith

pub find_hop-key :
    (k : Key) (hs : List Hop) (h : Hop) → find_hop k hs ≡ some h → same_key h.key k ≡ true
unfolding find_hop
find_hop-key k [] h e = absurd (ground arith)
find_hop-key k (x ∷ hs) h e = ground (arith, find_hop-key k hs h)

pub find_hop-map :
    (f : Hop → Hop) (k : Key) (hs : List Hop) (h : Hop)
    → ((x : Hop) → (f x).key ≡ x.key)
    → find_hop k hs ≡ some h
    → find_hop k (map f hs) ≡ some (f h)
unfolding find_hop
find_hop-map f k [] h keeps e = absurd (ground arith)
find_hop-map f k (x ∷ hs) h keeps e =
    let key : same_key (f x).key k ≡ same_key x.key k = ap (λ z. same_key z k) (keeps x) in
    elim (Bool-cases (same_key x.key k)) [
      | inl b ↦ let same : x ≡ h = ground arith in rw (key ∙ b) (ap (λ z. some (f z)) same)
      | inr b ↦ rw (key ∙ b) (find_hop-map f k hs h keeps (ground arith))
    ]

-- The router fell silent k new OGMs ago, and the sender of these has an entry.
pub record Silent (r s : Key) (k : ℕ) (routes : Routes) : Type 0 where
  pub hop_r : Hop
  pub quality_r : Quality
  pub found_r : find_hop r routes.neigh_list ≡ some hop_r
  pub info_r : hop_r.ifinfo ≡ some quality_r
  pub fit_r : IsFit quality_r
  pub zeros : take k (latest quality_r) ≡ replicate k 0
  pub hop_s : Hop
  pub quality_s : Quality
  pub found_s : find_hop s routes.neigh_list ≡ some hop_s
  pub info_s : hop_s.ifinfo ≡ some quality_s
  pub fit_s : IsFit quality_s

pub decay-key : (a : Arrival) (h : Hop) → (decay a h).key ≡ h.key
unfolding decay
decay-key a h = ground arith

pub receive_hop-key : (a : Arrival) (q : Quality) (h : Hop) → (receive_hop a q h).key ≡ h.key
unfolding receive_hop
receive_hop-key a q h = ground arith

-- The loop leaves the sender's entry and puts a 0 into another one.
pub decay_sender : (a : Arrival) (h : Hop) → same_key h.key a.sender ≡ true → decay a h ≡ h
unfolding decay
decay_sender a h e = ground arith

pub decay_other :
    (a : Arrival) (h : Hop) (q : Quality)
    → same_key h.key a.sender ≡ false
    → a.no_dup ≡ true
    → h.ifinfo ≡ some q
    → decay a h ≡ record h { ifinfo = some (receive_tq 0 q) }
unfolding decay
decay_other a h q e n i = ground arith

pub receive_hop_other :
    (a : Arrival) (q : Quality) (h : Hop) → same_key h.key a.sender ≡ false → receive_hop a q h ≡ h
unfolding receive_hop
receive_hop_other a q h e = ground arith

pub receive_hop_sender :
    (a : Arrival) (q : Quality) (h : Hop)
    → same_key h.key a.sender ≡ true
    → receive_hop a q h ≡ record h { ifinfo = some (received_quality a q); last_seen = a.now }
unfolding receive_hop
receive_hop_sender a q h e = ground arith

pub take-zeros :
    (k : ℕ) (xs : List ℕ)
    → k ≤ 4
    → take k xs ≡ replicate k 0
    → take (suc k) (0 ∷ take 4 xs) ≡ replicate (suc k) 0
take-zeros k xs h e = ap (λ l. 0 ∷ l) (take-take k 4 xs h ∙ e)

pub take-replicate : (j k : ℕ) → j ≤ k → take {A = ℕ} j (replicate k 0) ≡ replicate j 0
take-replicate zero k h = refl
take-replicate (suc j) zero h = absurd (omega arith)
take-replicate (suc j) (suc k) h = ap (λ l. 0 ∷ l) (take-replicate j k (omega arith))

pub Silent-weaken :
    {r s : Key} (k j : ℕ) (routes : Routes) → j ≤ k → Silent r s k routes → Silent r s j routes
Silent-weaken k j routes h v = record {
  hop_r = v.hop_r;
  quality_r = v.quality_r;
  found_r = v.found_r;
  info_r = v.info_r;
  fit_r = v.fit_r;
  zeros = sym (take-take j k (latest v.quality_r) h) ∙ (ap (take j) v.zeros ∙ take-replicate j k h);
  hop_s = v.hop_s;
  quality_s = v.quality_s;
  found_s = v.found_s;
  info_s = v.info_s;
  fit_s = v.fit_s;
}

-- The list of neighbours after an OGM whose sender has an entry.
abbrev pub hops_after : Arrival → Quality → List Hop → List Hop
hops_after a q hops = map (receive_hop a q) (map (decay a) hops)

pub update_found :
    (sup : Supply) (a : Arrival) (routes : Routes) (h : Hop) (q : Quality)
    → find_hop a.sender (map (decay a) routes.neigh_list) ≡ some h
    → h.ifinfo ≡ some q
    → let r = orig_update sup a routes in
      (r.neigh_list ≡ hops_after a q routes.neigh_list)
      × (r.router
          ≡ choose_router a.sender
              (received_quality a q).tq_avg
              h.own_sum
              (hops_after a q routes.neigh_list)
              routes.router)
unfolding orig_update update_sender
update_found sup a routes h q e i = rw (orig_update, e) (rw (update_sender, i) (refl, refl))

-- A new OGM over the neighbour s.
abbrev pub fresh : Key → Arrival → Arrival
fresh s a = record a { sender = s; no_dup = true }
