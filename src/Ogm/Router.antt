-- ===== src/Ogm/Router.antt =====
-- bat_iv_ogm.c, batadv_iv_ogm_orig_update: the qualities of the neighbours towards an originator, for
-- one outgoing interface, and which of them is the router.
pub mod Entries
pub mod Failover
use batman_adv.Common.{
  ℕ, Bool, true, false, ◌&&◌, not, ◌==◌, leb, ltb, if◌then◌else◌, List, [], ◌∷◌, Option, none, some,
  map, replicate,
}
use batman_adv.Ogm.Metric.{global_window, ring_buffer_set, ring_buffer_avg}

-- `struct batadv_neigh_ifinfo`: the qualities received over a neighbour.
pub record Quality : Type 0 where
  pub tq_recv : List ℕ
  pub tq_index : ℕ
  pub tq_avg : ℕ
  pub last_ttl : ℕ

-- What identifies a `struct batadv_neigh_node` of an originator: its address and its interface. The
-- list holds one for each (`batadv_neigh_node_new` looks for it first).
pub record Key : Type 0 where
  pub addr : ℕ
  pub if_incoming : ℕ

abbrev pub same_key : Key → Key → Bool
same_key a b = (a.addr == b.addr) && (a.if_incoming == b.if_incoming)

-- A `struct batadv_neigh_node`; `own_sum` is the `bcast_own_sum` of its originator on its interface.
pub record Hop : Type 0 where
  pub key : Key
  pub ifinfo : Option Quality
  pub last_seen : ℕ
  pub own_sum : ℕ

-- An originator's neighbours and the router and `last_ttl` of its entry for the interface.
pub record Routes : Type 0 where
  pub neigh_list : List Hop
  pub router : Option Key
  pub last_ttl : ℕ

-- The OGM, the key of the neighbour it came over, and that neighbour's own sum.
pub record Arrival : Type 0 where
  pub sender : Key
  pub sender_sum : ℕ
  pub tq : ℕ
  pub ttl : ℕ
  pub no_dup : Bool
  pub now : ℕ

-- Whether a missing neighbour, and a missing `batadv_neigh_ifinfo`, can be made.
pub record Supply : Type 0 where
  pub neigh_ok : Bool
  pub ifinfo_ok : Bool

-- A new quality in the ring buffer.
unfoldable pub receive_tq : ℕ → Quality → Quality
unfolding ring_buffer_set ring_buffer_avg
receive_tq value q =
    let (tq_recv, tq_index) = ring_buffer_set q.tq_recv q.tq_index value in
    record q { tq_recv = tq_recv; tq_index = tq_index; tq_avg = ring_buffer_avg tq_recv }

unfoldable pub new_quality : Quality
new_quality = record { tq_recv = replicate global_window 0; tq_index = 0; tq_avg = 0; last_ttl = 0 }

-- The loop: all other neighbours get a 0 for an OGM that is new.
unfoldable pub decay : Arrival → Hop → Hop
unfolding receive_tq
decay a h =
    if same_key h.key a.sender
    then h
    else (if not a.no_dup
        then h
        else elim h.ifinfo [ none ↦ h | some q ↦ record h { ifinfo = some (receive_tq 0 q) } ])

unfoldable pub find_hop : Key → List Hop → Option Hop
find_hop k [] = none
find_hop k (h ∷ hs) = if same_key h.key k then some h else find_hop k hs

-- The sender's entry with the quality of the OGM.
abbrev pub received_quality : Arrival → Quality → Quality
received_quality a q =
    let q' = receive_tq a.tq q in if a.no_dup then record q' { last_ttl = a.ttl } else q'

unfoldable pub receive_hop : Arrival → Quality → Hop → Hop
unfolding receive_tq
receive_hop a q h =
    if same_key h.key a.sender
    then record h { ifinfo = some (received_quality a q); last_seen = a.now }
    else h

-- Whether the sender's quality and sum take over from the router's.
abbrev pub takes_over : ℕ → ℕ → ℕ → ℕ → Bool
takes_over router_avg router_sum neigh_avg neigh_sum =
    if ltb neigh_avg router_avg
    then false
    else not ((neigh_avg == router_avg) && leb neigh_sum router_sum)

-- The end of the function: the router after it. `neigh` is the average and the sum of the sender.
unfoldable pub choose_router : Key → ℕ → ℕ → List Hop → Option Key → Option Key
unfolding find_hop
choose_router sender neigh_avg neigh_sum hops none = some sender
choose_router sender neigh_avg neigh_sum hops (some router) =
    if same_key router sender then some router else elim (find_hop router hops) [
      | none ↦ some router
      | some r ↦ elim r.ifinfo [
        | none ↦ some router
        | some q ↦
            if takes_over q.tq_avg r.own_sum neigh_avg neigh_sum then some sender else some router
      ]
    ]

-- The sender's entry, as it is found or made.
abbrev pub sender_hop : Arrival → Hop
sender_hop a = record { key = a.sender; ifinfo = none; last_seen = 0; own_sum = a.sender_sum }

-- With the sender's neighbour entry in the list.
unfoldable pub update_sender : Supply → Arrival → Hop → List Hop → Routes → Routes
unfolding receive_hop choose_router new_quality
update_sender s a h hops routes =
    let go : Quality → Routes = λ q.
      let hops' = map (receive_hop a q) hops in
      record {
        neigh_list = hops';
        router = choose_router a.sender (received_quality a q).tq_avg h.own_sum hops' routes.router;
        last_ttl = if a.no_dup then a.ttl else routes.last_ttl;
      } in
    elim h.ifinfo [
      | some q ↦ go q
      | none ↦ if s.ifinfo_ok then go new_quality else record routes { neigh_list = hops }
    ]

-- `batadv_iv_ogm_orig_update`
unfoldable pub orig_update : Supply → Arrival → Routes → Routes
unfolding decay find_hop update_sender
orig_update s a routes =
    let hops = map (decay a) routes.neigh_list in
    elim (find_hop a.sender hops) [
      | some h ↦ update_sender s a h hops routes
      | none ↦
          if s.neigh_ok
          then update_sender s a (sender_hop a) (sender_hop a ∷ hops) routes
          else record routes { neigh_list = hops }
    ]
