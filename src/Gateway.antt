-- ===== src/Gateway.antt =====
-- gateway_client.c: the gateways that the mesh offers, and which of them is selected.
pub mod Best
pub mod Settings
pub mod Announced
pub mod Listed
use batman_adv.Common.{
  ℕ, ◌+◌, ◌-◌, ◌*◌, ◌/◌, ◌%◌, ◌^◌, Bool, true, false, ◌&&◌, ◌||◌, not, ◌==◌, ltb, if◌then◌else◌,
  List, [], ◌∷◌, Option, none, some,
}

-- A `struct batadv_gw_node` by its address in memory, with its originator: neither ever changes.
pub record GwRef : Type 0 where
  pub pointer : ℕ
  pub orig_node : ℕ

-- `struct batadv_gw_node`
pub record GwNode : Type 0 where
  pub ref : GwRef
  pub bandwidth_down : ℕ
  pub bandwidth_up : ℕ

-- `enum batadv_gw_modes`
pub data GwMode : Type 0 where
  mode_off : GwMode
  mode_client : GwMode
  mode_server : GwMode

abbrev pub is_client : GwMode → Bool
is_client mode_off = false
is_client mode_client = true
is_client mode_server = false

-- `struct batadv_priv_gw`, and of `struct batadv_priv` the mode and the selection class.
pub record Gw : Type 0 where
  pub list : List GwNode
  pub curr_gw : Option GwRef
  pub reselect : ℕ
  pub gw_mode : GwMode
  pub gw_sel_class : ℕ

-- The uevents of type BATADV_UEV_GW, with the originator of the gateway.
pub data Uevent : Type 0 where
  uev_add : ℕ → Uevent
  uev_del : Uevent
  uev_change : ℕ → Uevent

abbrev pub same_ref : GwRef → GwRef → Bool
same_ref a b = a.pointer == b.pointer

-- `batadv_gw_reselect`
unfoldable pub reselect_gw : Gw → Gw
reselect_gw gw = record gw { reselect = 1 }

-- The variables of the loop of `batadv_gw_get_best_gw_node`.
pub record Search : Type 0 where
  pub curr_gw : Option GwRef
  pub max_gw_factor : ℕ
  pub max_tq : ℕ

-- `tmp_gw_factor`: a u64, which only the first class computes.
unfoldable pub gw_factor : ℕ → ℕ → GwNode → ℕ
gw_factor sel_class tq_avg node =
    if sel_class == 1
    then (tq_avg * tq_avg * node.bandwidth_down * (100 * 100)) % 2 ^ 64 / 2 ^ 18
    else 0

-- Whether the gateway becomes `curr_gw`.
unfoldable pub is_better : ℕ → ℕ → ℕ → Search → Bool
is_better sel_class tq_avg factor s =
    if sel_class == 1
    then ltb s.max_gw_factor factor || (factor == s.max_gw_factor && ltb s.max_tq tq_avg)
    else ltb s.max_tq tq_avg

-- One round for a gateway that has a router.
unfoldable pub search_step : ℕ → ℕ → GwNode → Search → Search
unfolding gw_factor is_better
search_step sel_class tq_avg node s =
    let factor = gw_factor sel_class tq_avg node in
    record {
      curr_gw = if is_better sel_class tq_avg factor s then some node.ref else s.curr_gw;
      max_gw_factor = if ltb s.max_gw_factor factor then factor else s.max_gw_factor;
      max_tq = if ltb s.max_tq tq_avg then tq_avg else s.max_tq;
    }

-- The loop; `tq` is the quality of the router to an originator, if there is one.
unfoldable pub search_gw : ℕ → (ℕ → Option ℕ) → List GwNode → Search → Search
unfolding search_step
search_gw sel_class tq [] s = s
search_gw sel_class tq (node ∷ nodes) s = elim (tq node.ref.orig_node) [
  | none ↦ search_gw sel_class tq nodes s
  | some tq_avg ↦ search_gw sel_class tq nodes (search_step sel_class tq_avg node s)
]

-- `batadv_gw_get_best_gw_node`
unfoldable pub get_best_gw_node : (ℕ → Option ℕ) → Gw → Option GwRef
unfolding search_gw
get_best_gw_node tq gw =
    (search_gw gw.gw_sel_class tq gw.list
      (record { curr_gw = none; max_gw_factor = 0; max_tq = 0 })).curr_gw

abbrev has_router : (ℕ → Option ℕ) → ℕ → Bool
has_router tq orig = elim (tq orig) [ none ↦ false | some tq_avg ↦ true ]

-- `batadv_throw_uevent`; `sent` tells that the memory for it is there and that the kernel sends it. The
-- callers do not look at its result.
unfoldable pub throw_uevent : Bool → Uevent → List Uevent
throw_uevent sent event = if sent then event ∷ [] else []

-- `batadv_gw_election` from the choice of the best gateway on. `later` are the routers as they are
-- read again after the choice.
unfoldable pub elect : Bool → (ℕ → Option ℕ) → Option GwRef → Gw → List Uevent × Gw
unfolding reselect_gw throw_uevent
elect sent later none gw = elim gw.curr_gw [
  | none ↦ ([], gw)
  | some curr ↦ (throw_uevent sent uev_del, record gw { curr_gw = none })
]
elect sent later (some next) gw = elim gw.curr_gw [
  | none ↦
      if not (has_router later next.orig_node)
      then ([], reselect_gw gw)
      else (throw_uevent sent (uev_add next.orig_node), record gw { curr_gw = some next })
  | some curr ↦
      if same_ref curr next
      then ([], gw)
      else (if not (has_router later next.orig_node)
          then ([], reselect_gw gw)
          else (throw_uevent sent (uev_change next.orig_node), record gw { curr_gw = some next }))
]

abbrev pub is_some : Option GwRef → Bool
is_some none = false
is_some (some r) = true

-- `batadv_gw_election`: the uevents, and the state after it.
unfoldable pub election : Bool → (ℕ → Option ℕ) → (ℕ → Option ℕ) → Gw → List Uevent × Gw
unfolding get_best_gw_node elect
election sent tq later gw =
    let dec = record gw { reselect = gw.reselect - 1 } in
    if not (is_client gw.gw_mode)
    then ([], gw)
    else (if gw.reselect == 0 && is_some gw.curr_gw
        then ([], gw)
        else elect sent later (get_best_gw_node tq dec) dec)

-- `batadv_gw_check_client_stop`
unfoldable pub check_client_stop : Bool → Gw → List Uevent × Gw
unfolding throw_uevent
check_client_stop sent gw =
    if not (is_client gw.gw_mode)
    then ([], gw)
    else (if not (is_some gw.curr_gw)
        then ([], gw)
        else (throw_uevent sent uev_del, record gw { curr_gw = none }))

-- `batadv_gw_check_election`, at a new quality of the originator `orig`.
unfoldable pub check_election : (ℕ → Option ℕ) → ℕ → Gw → Gw
unfolding reselect_gw
check_election tq orig gw = elim gw.curr_gw [
  | none ↦ reselect_gw gw
  | some curr ↦ elim (tq curr.orig_node) [
    | none ↦ reselect_gw gw
    | some gw_tq_avg ↦ if curr.orig_node == orig then gw else elim (tq orig) [
      | none ↦ gw
      | some orig_tq_avg ↦
          if ltb orig_tq_avg gw_tq_avg
          then gw
          else (if ltb 3 gw.gw_sel_class && ltb (orig_tq_avg - gw_tq_avg) gw.gw_sel_class
              then gw
              else reselect_gw gw)
    ]
  ]
]
