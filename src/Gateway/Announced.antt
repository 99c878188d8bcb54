-- ===== src/Gateway/Announced.antt =====
-- gateway_client.c: what the uevents tell of the selected gateway.
use mathlib.Core.Option.{some_inj, none-ne-some}
use batman_adv.Common.{
  Bool, ℕ, ◌≡◌, refl, sym, ap, ◌∙◌, true, ◌&&◌, not, ◌==◌, if_both, arith, List, [], ◌∷◌, All, ◌++◌,
  ◌-◌, Option, none, some, Option-cases, Bool-cases, inl, inr,
}
use batman_adv.Gateway.{
  GwRef, GwMode, is_client, is_some, Gw, Uevent, throw_uevent, uev_add, uev_del, uev_change,
  reselect_gw, get_best_gw_node, elect, election, check_client_stop, check_election, has_router,
  same_ref,
}
use batman_adv.Gateway.Settings.{
  GatewayData, no_gateway, announced, node_add, node_update, node_delete, tvlv_ogm_handler,
  store_gw_mode, same_mode,
}

-- A program that follows the uevents: the originator of the gateway that it knows. A gateway that is
-- added while it knows one, and one that goes or changes while it knows none, makes it fail.
unfoldable pub listen : List Uevent → Option ℕ → Option (Option ℕ)
listen [] known = some known
listen (uev_add orig ∷ events) none = listen events (some orig)
listen (uev_add orig ∷ events) (some k) = none
listen (uev_del ∷ events) none = none
listen (uev_del ∷ events) (some k) = listen events none
listen (uev_change orig ∷ events) none = none
listen (uev_change orig ∷ events) (some k) = listen events (some orig)

abbrev pub shown : Option GwRef → Option ℕ
shown none = none
shown (some r) = some r.orig_node

-- The program knows the selected gateway before, and so it does after.
abbrev pub Told : Gw → List Uevent × Gw → Type 0
Told gw r = listen r.0 (shown gw.curr_gw) ≡ some (shown r.1.curr_gw)

-- What can happen: the election, a new mode, the container of an originator, an originator that goes,
-- the last interface that leaves, and a new selection class (`batadv_post_gw_reselect`).
pub data Step : Type 0 where
  elects : Bool → (ℕ → Option ℕ) → (ℕ → Option ℕ) → Step
  new_mode : Bool → GwMode → Step
  container : Option ℕ → (ℕ → Option ℕ) → ℕ → Option GatewayData → Step
  originator_gone : ℕ → Step
  mesh_stops : Bool → Step
  new_class : ℕ → Step

unfoldable pub step : Step → Gw → List Uevent × Gw
unfolding election check_client_stop store_gw_mode tvlv_ogm_handler node_delete reselect_gw
step (elects sent tq later) gw = election sent tq later gw
step (new_mode sent mode) gw = store_gw_mode sent mode gw
step (container alloc tq orig value) gw = ([], tvlv_ogm_handler alloc tq orig value gw)
step (originator_gone orig) gw = ([], node_delete none orig gw)
step (mesh_stops sent) gw = check_client_stop sent gw
step (new_class sel_class) gw = ([], reselect_gw (record gw { gw_sel_class = sel_class }))

unfoldable pub run : List Step → Gw → List Uevent × Gw
unfolding step
run [] gw = ([], gw)
run (s ∷ steps) gw =
    let (events, gw) = step s gw in let (more, gw) = run steps gw in (events ++ more, gw)

listen-append :
    (es fs : List Uevent) (known next : Option ℕ)
    → listen es known ≡ some next
    → listen (es ++ fs) known ≡ listen fs next
unfolding listen
listen-append [] fs known next h = ap (listen fs) ((some_inj).0 h)
listen-append (uev_add orig ∷ es) fs none next h = listen-append es fs (some orig) next h
listen-append (uev_add orig ∷ es) fs (some k) next h = absurd (none-ne-some next h)
listen-append (uev_del ∷ es) fs none next h = absurd (none-ne-some next h)
listen-append (uev_del ∷ es) fs (some k) next h = listen-append es fs none next h
listen-append (uev_change orig ∷ es) fs none next h = absurd (none-ne-some next h)
listen-append (uev_change orig ∷ es) fs (some k) next h = listen-append es fs (some orig) next h

-- `Told` with what the program knows before.
abbrev TellsFrom : Option ℕ → List Uevent × Gw → Type 0
TellsFrom known r = listen r.0 known ≡ some (shown r.1.curr_gw)

kept : (gw : Gw) (o : Option GwRef) → gw.curr_gw ≡ o → some (shown o) ≡ some (shown gw.curr_gw)
kept gw o e = ap (λ c. some (shown c)) (sym e)

elect-Told :
    (later : ℕ → Option ℕ) (best : Option GwRef) (gw : Gw) → Told gw (elect true later best gw)
unfolding elect throw_uevent listen reselect_gw
elect-Told later none gw = elim (Option-cases gw.curr_gw) [
  | inl e ↦ rw (elect, e) (kept gw none e)
  | inr (curr, e) ↦ rw (elect, e) refl
]
elect-Told later (some next) gw = elim (Option-cases gw.curr_gw) [
  | inl e ↦
      rw (elect, e)
        (if_both (TellsFrom none) (not (has_router later next.orig_node)) _ _ (kept gw none e) refl)
  | inr (curr, e) ↦
      let known : Option ℕ = some curr.orig_node in
      rw (elect, e)
        (if_both (TellsFrom known) (same_ref curr next) _ _ (kept gw (some curr) e) (
          if_both (TellsFrom known) (not (has_router later next.orig_node)) _ _
            (kept gw (some curr) e) refl))
]

election-Told : (tq later : ℕ → Option ℕ) (gw : Gw) → Told gw (election true tq later gw)
unfolding election listen
election-Told tq later gw =
    let dec = record gw { reselect = gw.reselect - 1 } in
    if_both (TellsFrom (shown gw.curr_gw)) (not (is_client gw.gw_mode)) _ _ refl (
      if_both (TellsFrom (shown gw.curr_gw)) (gw.reselect == 0 && is_some gw.curr_gw) _ _ refl
        (elect-Told later (get_best_gw_node tq dec) dec))

gone_lem : (o : Option GwRef) → is_some o ≡ true → listen (uev_del ∷ []) (shown o) ≡ some none
unfolding listen
gone_lem none e = ground (arith, e)
gone_lem (some r) e = refl

stop-Told : (gw : Gw) → Told gw (check_client_stop true gw)
unfolding check_client_stop throw_uevent listen
stop-Told gw =
    let P = TellsFrom (shown gw.curr_gw) in
    elim (Bool-cases (is_some gw.curr_gw)) [
      | inl e ↦
          rw (check_client_stop, e)
            (if_both P (not (is_client gw.gw_mode)) ([], gw)
              (uev_del ∷ [], record gw { curr_gw = none }) refl (gone_lem gw.curr_gw e))
      | inr e ↦
          rw (check_client_stop, e)
            (if_both P (not (is_client gw.gw_mode)) ([], gw) ([], gw) refl refl)
    ]

mode-Told : (mode : GwMode) (gw : Gw) → Told gw (store_gw_mode true mode gw)
unfolding store_gw_mode listen reselect_gw
mode-Told mode gw =
    if_both (TellsFrom (shown gw.curr_gw)) (same_mode gw.gw_mode mode) _ _ refl
      (stop-Told (reselect_gw gw))

-- The announcements and the checks leave the selection to the next election.
abbrev Same : Gw → Gw → Type 0
Same gw after = after.curr_gw ≡ gw.curr_gw

check_election-Same : (tq : ℕ → Option ℕ) (orig : ℕ) (gw : Gw) → Same gw (check_election tq orig gw)
unfolding check_election reselect_gw
check_election-Same tq orig gw = ground arith

node_update-Same :
    (alloc : Option ℕ) (orig : ℕ) (gateway : GatewayData) (gw : Gw)
    → Same gw (node_update alloc orig gateway gw)
unfolding node_update node_add reselect_gw
node_update-Same alloc orig gateway gw = ground arith

handler-Same :
    (alloc : Option ℕ) (tq : ℕ → Option ℕ) (orig : ℕ) (value : Option GatewayData) (gw : Gw)
    → Same gw (tvlv_ogm_handler alloc tq orig value gw)
unfolding tvlv_ogm_handler
handler-Same alloc tq orig value gw =
    let same = node_update-Same alloc orig (announced value) gw in
    if_both (Same gw) _ _ _ (check_election-Same tq orig _ ∙ same) same

silent-Told : (gw after : Gw) → Same gw after → Told gw ([], after)
unfolding listen
silent-Told gw after same = ap (λ c. some (shown c)) (sym same)

-- The uevent of the step, if it has one, is sent.
abbrev pub Sent : Step → Type 0
Sent (elects sent tq later) = sent ≡ true
Sent (new_mode sent mode) = sent ≡ true
Sent (container alloc tq orig value) = Unit
Sent (originator_gone orig) = Unit
Sent (mesh_stops sent) = sent ≡ true
Sent (new_class sel_class) = Unit

step-Told : (s : Step) (gw : Gw) → Sent s → Told gw (step s gw)
unfolding step node_delete reselect_gw
step-Told (elects sent tq later) gw e = rw (step, e) (election-Told tq later gw)
step-Told (new_mode sent mode) gw e = rw (step, e) (mode-Told mode gw)
step-Told (container alloc tq orig value) gw e =
    silent-Told gw (tvlv_ogm_handler alloc tq orig value gw) (handler-Same alloc tq orig value gw)
step-Told (originator_gone orig) gw e =
    silent-Told gw (node_update none orig no_gateway gw) (node_update-Same none orig no_gateway gw)
step-Told (mesh_stops sent) gw e = rw (step, e) (stop-Told gw)
step-Told (new_class sel_class) gw e =
    silent-Told gw (record gw { gw_sel_class = sel_class; reselect = 1 }) refl

-- As long as no uevent fails to be sent, a program that knows the selected gateway at first and follows
-- the uevents never fails, and it always knows the originator of the gateway that is selected, whatever else happens in
-- which order.
pub run-Told : (steps : List Step) (gw : Gw) → All Sent steps → Told gw (run steps gw)
unfolding run listen
run-Told [] gw a = refl
run-Told (s ∷ steps) gw a =
    listen-append (step s gw).0 _ _ _ (step-Told s gw a.0) ∙ run-Told steps (step s gw).1 a.1
