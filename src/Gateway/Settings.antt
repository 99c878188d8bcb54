-- ===== src/Gateway/Settings.antt =====
-- gateway_client.c and gateway_common.c: the announcements of the gateways; sysfs.c: the mode.
use batman_adv.Common.{
  ℕ, Bool, true, false, ◌&&◌, ◌||◌, not, ◌==◌, ltb, if◌then◌else◌, List, [], ◌∷◌, Option, none,
  some,
}
use batman_adv.Gateway.{
  GwRef, GwNode, GwMode, mode_off, mode_client, mode_server, Gw, Uevent, is_client, same_ref,
  reselect_gw, check_client_stop, check_election,
}

-- `struct batadv_tvlv_gateway_data`
pub record GatewayData : Type 0 where
  pub bandwidth_down : ℕ
  pub bandwidth_up : ℕ

abbrev pub no_gateway : GatewayData
no_gateway = record { bandwidth_down = 0; bandwidth_up = 0 }

-- `batadv_gw_node_get`
unfoldable pub node_get : ℕ → List GwNode → Option GwNode
node_get orig [] = none
node_get orig (n ∷ ns) = if not (n.ref.orig_node == orig) then node_get orig ns else some n

-- `batadv_gw_node_add`, with the address of the memory that is allocated; `none` also if the
-- originator is going away.
unfoldable pub node_add : Option ℕ → ℕ → GatewayData → Gw → Gw
node_add alloc orig gateway gw = if gateway.bandwidth_down == 0 then gw else elim alloc [
  | none ↦ gw
  | some pointer ↦
      let node : GwNode = record {
        ref = record { pointer = pointer; orig_node = orig };
        bandwidth_down = gateway.bandwidth_down;
        bandwidth_up = gateway.bandwidth_up;
      } in
      record gw { list = node ∷ gw.list }
]

-- The write to the node, at its place in the list.
unfoldable pub node_write : GwRef → GatewayData → List GwNode → List GwNode
node_write ref gateway [] = []
node_write ref gateway (n ∷ ns) =
    if same_ref n.ref ref
    then record n { bandwidth_down = gateway.bandwidth_down; bandwidth_up = gateway.bandwidth_up }
      ∷ ns
    else n ∷ node_write ref gateway ns

-- `hlist_del_init_rcu`
unfoldable pub node_unlink : GwRef → List GwNode → List GwNode
node_unlink ref [] = []
node_unlink ref (n ∷ ns) = if same_ref n.ref ref then ns else n ∷ node_unlink ref ns

abbrev pub is_selected : GwRef → Option GwRef → Bool
is_selected ref none = false
is_selected ref (some curr) = same_ref ref curr

-- `batadv_gw_node_update`
unfoldable pub node_update : Option ℕ → ℕ → GatewayData → Gw → Gw
unfolding node_get node_add node_write node_unlink reselect_gw
node_update alloc orig gateway gw = elim (node_get orig gw.list) [
  | none ↦ node_add alloc orig gateway gw
  | some n ↦
      let same =
        n.bandwidth_down == gateway.bandwidth_down && n.bandwidth_up == gateway.bandwidth_up in
      let unlinked = record gw { list = node_unlink n.ref gw.list } in
      if same
      then gw
      else (if not (gateway.bandwidth_down == 0)
          then record gw { list = node_write n.ref gateway gw.list }
          else (if is_selected n.ref gw.curr_gw then reselect_gw unlinked else unlinked))
]

-- `batadv_gw_node_delete`
unfoldable pub node_delete : Option ℕ → ℕ → Gw → Gw
unfolding node_update
node_delete alloc orig gw = node_update alloc orig no_gateway gw

-- The data that the handler works with.
unfoldable pub announced : Option GatewayData → GatewayData
announced none = no_gateway
announced (some g) = if g.bandwidth_down == 0 || g.bandwidth_up == 0 then no_gateway else g

-- `batadv_gw_tvlv_ogm_handler_v1`: `value` are the numbers of a container of at least eight bytes that
-- was found.
unfoldable pub tvlv_ogm_handler : Option ℕ → (ℕ → Option ℕ) → ℕ → Option GatewayData → Gw → Gw
unfolding announced node_update check_election
tvlv_ogm_handler alloc tq orig value gw =
    let gateway = announced value in
    let gw = node_update alloc orig gateway gw in
    if not (gateway.bandwidth_down == 0) && is_client gw.gw_mode && ltb 2 gw.gw_sel_class
    then check_election tq orig gw
    else gw

abbrev pub same_mode : GwMode → GwMode → Bool
same_mode mode_off mode_off = true
same_mode mode_client mode_client = true
same_mode mode_server mode_server = true
same_mode a b = false

-- `batadv_store_gw_mode` behind the parsing of the mode, without the container for the OGMs.
unfoldable pub store_gw_mode : Bool → GwMode → Gw → List Uevent × Gw
unfolding reselect_gw check_client_stop
store_gw_mode sent mode gw =
    if same_mode gw.gw_mode mode
    then ([], gw)
    else (let (events, gw) = check_client_stop sent (reselect_gw gw) in
        (events, record gw { gw_mode = mode }))

-- `batadv_gw_node_free`, as the mesh goes away.
unfoldable pub node_free : Gw → Gw
node_free gw = record gw { list = [] }
