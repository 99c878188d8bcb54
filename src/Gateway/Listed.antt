-- ===== src/Gateway/Listed.antt =====
-- gateway_client.c: a selected gateway that is gone is not kept for long.
use batman_adv.Common.{
  ℕ, ◌-◌, ◌<◌, ◌≡◌, refl, sym, ap, ◌∙◌, Bool, true, false, ◌&&◌, not, ◌==◌, ltb, if◌then◌else◌,
  if_both, arith, List, [], ◌∷◌, any, Option, none, some, Option-cases, Bool-cases, inl, inr, ◌⊎◌,
  subst,
}
use batman_adv.Gateway.{
  GwRef, GwNode, is_client, is_some, Gw, Uevent, reselect_gw, get_best_gw_node, elect, election,
  check_client_stop, check_election, has_router, same_ref,
}
use batman_adv.Gateway.Best.{IsBest, Scored, get_best_gw_node-IsBest}
use batman_adv.Gateway.Settings.{
  GatewayData, no_gateway, announced, node_get, node_add, node_write, node_unlink, is_selected,
  node_update, node_delete, tvlv_ogm_handler, store_gw_mode, same_mode,
}
use batman_adv.Gateway.Announced.{
  Step, elects, new_mode, container, originator_gone, mesh_stops, new_class, step, run,
}

-- The node at this address is in the list.
abbrev pub is_listed : GwRef → List GwNode → Bool
is_listed ref nodes = any (λ n. same_ref n.ref ref) nodes

-- Nothing is selected, or it is in the list, or an election is asked for.
abbrev pub IsListed : Option GwRef → List GwNode → ℕ → Type 0
IsListed none nodes reselect = Unit {0}
IsListed (some ref) nodes reselect = (is_listed ref nodes ≡ true) ⊎ (0 < reselect)

abbrev pub Listed : Gw → Type 0
Listed gw = IsListed gw.curr_gw gw.list gw.reselect

asked : (o : Option GwRef) (nodes : List GwNode) (n : ℕ) → 0 < n → IsListed o nodes n
asked none nodes n h = tt
asked (some r) nodes n h = inr h

Scored-listed :
    (sel_class : ℕ) (tq : ℕ → Option ℕ) (top : ℕ) (ref : GwRef) (nodes : List GwNode)
    → Scored sel_class tq top ref nodes
    → is_listed ref nodes ≡ true
unfolding Scored
Scored-listed sel_class tq top ref [] h = elim h [ ]
Scored-listed sel_class tq top ref (n ∷ ns) (inl (e, h)) =
    let p = ap (λ r. r.pointer) e in ground (arith, p)
Scored-listed sel_class tq top ref (n ∷ ns) (inr h) =
    let l = Scored-listed sel_class tq top ref ns h in ground (arith, l)

best-listed :
    (tq : ℕ → Option ℕ) (gw : Gw) (ref : GwRef)
    → get_best_gw_node tq gw ≡ some ref
    → is_listed ref gw.list ≡ true
unfolding IsBest
best-listed tq gw ref e =
    let (top, (scored, bounded)) =
      subst (IsBest gw.gw_sel_class tq gw.list) e (get_best_gw_node-IsBest tq gw) in
    Scored-listed gw.gw_sel_class tq top ref gw.list scored

-- What the list and the selection keep when a node that is not the selected one leaves the list.
unlink-listed :
    (ref other : GwRef) (nodes : List GwNode)
    → same_ref other ref ≡ false
    → is_listed ref nodes ≡ true
    → is_listed ref (node_unlink other nodes) ≡ true
unfolding node_unlink
unlink-listed ref other [] d h = h
unlink-listed ref other (n ∷ ns) d h = elim (Bool-cases (is_listed ref ns)) [
  | inl k ↦ let rec = unlink-listed ref other ns d k in ground (arith, d, h, k, rec)
  | inr k ↦ ground (arith, d, h, k)
]

write-listed :
    (ref other : GwRef) (gateway : GatewayData) (nodes : List GwNode)
    → is_listed ref (node_write other gateway nodes) ≡ is_listed ref nodes
unfolding node_write
write-listed ref other gateway [] = refl
write-listed ref other gateway (n ∷ ns) =
    let rec = write-listed ref other gateway ns in ground (arith, rec)

same_listed :
    (a b : GwRef) (nodes : List GwNode)
    → same_ref a b ≡ true
    → is_listed b nodes ≡ true
    → is_listed a nodes ≡ true
same_listed a b [] e h = h
same_listed a b (n ∷ ns) e h = elim (Bool-cases (is_listed b ns)) [
  | inl k ↦ let rec = same_listed a b ns e k in ground (arith, e, h, k, rec)
  | inr k ↦ ground (arith, e, h, k)
]

elect-Listed :
    (sent : Bool) (later : ℕ → Option ℕ) (best : Option GwRef) (gw : Gw)
    → ((ref : GwRef) → best ≡ some ref → is_listed ref gw.list ≡ true)
    → Listed (elect sent later best gw).1
unfolding elect reselect_gw
elect-Listed sent later none gw h = elim (Option-cases gw.curr_gw) [
  | inl e ↦ rw (elect, e) (subst (λ o. IsListed o gw.list gw.reselect) (sym e) tt)
  | inr (curr, e) ↦ rw (elect, e) tt
]
elect-Listed sent later (some next) gw h =
    let P : List Uevent × Gw → Type 0 = λ r. Listed r.1 in
    let found = h next refl in
    elim (Option-cases gw.curr_gw) [
      | inl e ↦
          rw (elect, e)
            (if_both P (not (has_router later next.orig_node)) _ _
              (asked gw.curr_gw _ _ (omega arith)) (inl found))
      | inr (curr, e) ↦ elim (Bool-cases (same_ref curr next)) [
        | inl k ↦
            rw (elect, e, k)
              (subst (λ o. IsListed o gw.list gw.reselect) (sym e)
                (inl (same_listed curr next gw.list k found)))
        | inr k ↦
            rw (elect, e, k)
              (if_both P (not (has_router later next.orig_node)) _ _
                (asked gw.curr_gw _ _ (omega arith)) (inl found))
      ]
    ]

election-Listed :
    (sent : Bool) (tq later : ℕ → Option ℕ) (gw : Gw)
    → Listed gw
    → Listed (election sent tq later gw).1
unfolding election
election-Listed sent tq later gw l =
    let P : List Uevent × Gw → Type 0 = λ r. Listed r.1 in
    let dec = record gw { reselect = gw.reselect - 1 } in
    if_both P (not (is_client gw.gw_mode)) _ _ l (
      if_both P (gw.reselect == 0 && is_some gw.curr_gw) _ _ l
        (elect-Listed sent later (get_best_gw_node tq dec) dec (best-listed tq dec)))

IsListed-map :
    (o : Option GwRef) (ns ms : List GwNode) (n : ℕ)
    → ((ref : GwRef) → o ≡ some ref → is_listed ref ns ≡ true → is_listed ref ms ≡ true)
    → IsListed o ns n
    → IsListed o ms n
IsListed-map none ns ms n f h = tt
IsListed-map (some r) ns ms n f (inl h) = inl (f r refl h)
IsListed-map (some r) ns ms n f (inr h) = inr h

node_add-Listed :
    (alloc : Option ℕ) (orig : ℕ) (gateway : GatewayData) (gw : Gw)
    → Listed gw
    → Listed (node_add alloc orig gateway gw)
unfolding node_add
node_add-Listed none orig gateway gw l = if_both Listed (gateway.bandwidth_down == 0) gw gw l l
node_add-Listed (some pointer) orig gateway gw l =
    if_both Listed (gateway.bandwidth_down == 0) gw _ l
      (IsListed-map gw.curr_gw gw.list _ gw.reselect (λ ref e h. ground (arith, h)) l)

unlink-Listed :
    (ref : GwRef) (gw : Gw)
    → Listed gw
    → Listed (
        if is_selected ref gw.curr_gw
        then reselect_gw (record gw { list = node_unlink ref gw.list })
        else record gw { list = node_unlink ref gw.list })
unfolding reselect_gw
unlink-Listed ref gw l = elim (Bool-cases (is_selected ref gw.curr_gw)) [
  | inl k ↦ rw (k) (asked gw.curr_gw _ _ (omega arith))
  | inr k ↦ rw (k) (
      IsListed-map gw.curr_gw gw.list _ gw.reselect
        (λ r e h. unlink-listed r ref gw.list (ap (is_selected ref) (sym e) ∙ k) h) l)
]

node_update-Listed :
    (alloc : Option ℕ) (orig : ℕ) (gateway : GatewayData) (gw : Gw)
    → Listed gw
    → Listed (node_update alloc orig gateway gw)
unfolding node_update
node_update-Listed alloc orig gateway gw l = elim (Option-cases (node_get orig gw.list)) [
  | inl e ↦ rw (node_update, e) (node_add-Listed alloc orig gateway gw l)
  | inr (n, e) ↦
      let written =
        IsListed-map gw.curr_gw gw.list (node_write n.ref gateway gw.list) gw.reselect
          (λ r e h. write-listed r n.ref gateway gw.list ∙ h) l in
      rw (node_update, e)
        (if_both Listed _ gw _ l (
          if_both Listed (not (gateway.bandwidth_down == 0)) _ _ written
            (unlink-Listed n.ref gw l)))
]

stop-Listed : (sent : Bool) (gw : Gw) → Listed gw → Listed (check_client_stop sent gw).1
unfolding check_client_stop
stop-Listed sent gw l =
    let P : List Uevent × Gw → Type 0 = λ r. Listed r.1 in
    if_both P (not (is_client gw.gw_mode)) _ _ l (if_both P (not (is_some gw.curr_gw)) _ _ l tt)

check_election-Listed :
    (tq : ℕ → Option ℕ) (orig : ℕ) (gw : Gw) → Listed gw → Listed (check_election tq orig gw)
unfolding check_election reselect_gw
check_election-Listed tq orig gw l =
    let again = asked gw.curr_gw gw.list 1 (omega arith) in
    let close : ℕ → ℕ → Bool = λ t u. ltb 3 gw.gw_sel_class && ltb (u - t) gw.gw_sel_class in
    elim (Option-cases gw.curr_gw) [
      | inl e ↦ rw (check_election, e) again
      | inr (curr, e) ↦
          let here = curr.orig_node == orig in
          elim (Option-cases (tq curr.orig_node)) [
            | inl c ↦ rw (check_election, e, c) again
            | inr (t, c) ↦ elim (Option-cases (tq orig)) [
              | inl o ↦ rw (check_election, e, c, o) (if_both Listed here gw gw l l)
              | inr (u, o) ↦
                  rw (check_election, e, c, o)
                    (if_both Listed here gw
                      (if ltb u t then gw else (if close t u then gw else reselect_gw gw)) l
                      (if_both Listed (ltb u t) gw (if close t u then gw else reselect_gw gw) l
                        (if_both Listed (close t u) gw (reselect_gw gw) l again)))
            ]
          ]
    ]

step-Listed : (s : Step) (gw : Gw) → Listed gw → Listed (step s gw).1
unfolding step store_gw_mode tvlv_ogm_handler node_delete reselect_gw
step-Listed (elects sent tq later) gw l = election-Listed sent tq later gw l
step-Listed (new_mode sent mode) gw l =
    let asks : Gw = record gw { reselect = 1 } in
    if_both (λ (r : List Uevent × Gw). Listed r.1) (same_mode gw.gw_mode mode) _ _ l
      (stop-Listed sent asks (asked gw.curr_gw gw.list 1 (omega arith)))
step-Listed (container alloc tq orig value) gw l =
    let m = node_update-Listed alloc orig (announced value) gw l in
    if_both Listed _ _ _ (check_election-Listed tq orig _ m) m
step-Listed (originator_gone orig) gw l = node_update-Listed none orig no_gateway gw l
step-Listed (mesh_stops sent) gw l = stop-Listed sent gw l
step-Listed (new_class sel_class) gw l = asked gw.curr_gw gw.list 1 (omega arith)

-- At the start, and after all that can happen in any order, the gateway that is selected is one of
-- those that are offered, or an election is asked for.
pub run-Listed : (steps : List Step) (gw : Gw) → Listed gw → Listed (run steps gw).1
unfolding run
run-Listed [] gw l = l
run-Listed (s ∷ steps) gw l = run-Listed steps (step s gw).1 (step-Listed s gw l)
