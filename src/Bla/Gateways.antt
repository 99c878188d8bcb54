-- ===== src/Bla/Gateways.antt =====
-- bridge_loop_avoidance.c: the frames that the gateways of a backbone send, and the work on their
-- table.
pub mod Requests
pub mod Valid
pub mod Found
pub mod Purge
use batman_adv.Common.{
  ℕ, ◌+◌, ◌-◌, ◌*◌, ◌%◌, ◌^◌, Bool, true, false, ◌&&◌, ◌||◌, not, ◌==◌, if◌then◌else◌, List, [],
  ◌∷◌, ◌++◌, map, Option, none, some, any,
}
use batman_adv.Word.Flags.{test_flag}
use batman_adv.Bcast.{has_timed_out}
use batman_adv.Bla.Claims.{
  ClaimDst, ClaimFrame, Env, BackboneGw, Claim, Event, netif_rx, tt_global_del_orig, Bla, log,
  crc_init, gw_at, gw_write, touch_gw, del_backbone_claims,
}

-- enum batadv_bla_claimframe
abbrev pub type_claim : ℕ
type_claim = 0

abbrev pub type_unclaim : ℕ
type_unclaim = 1

abbrev pub type_announce : ℕ
type_announce = 2

abbrev pub type_request : ℕ
type_request = 3

-- The tag that `vlan_insert_tag` puts into a frame for a VLAN identifier: BATADV_VLAN_HAS_TAG is
-- bit 15, and VLAN_VID_MASK keeps twelve bits.
abbrev pub vlan_tag : ℕ → Option ℕ
vlan_tag vid = if test_flag 15 vid then some (vid % 2 ^ 12) else none

-- The switch of `batadv_bla_send_claim` over the type of the claim frame.
abbrev pub with_mac : ℕ → ℕ → ClaimFrame → ClaimFrame
with_mac mac claimtype frame =
    if claimtype == type_claim
    then record frame { h_source = mac }
    else (if claimtype == type_unclaim || claimtype == type_announce
        then record frame { hw_src = mac }
        else (if claimtype == type_request
            then record frame { hw_src = mac; h_dest = mac }
            else frame))

-- `batadv_bla_send_claim`
unfoldable pub send_claim : Env → ℕ → ℕ → ℕ → Bla → Bla
send_claim env mac vid claimtype bla = elim env.primary_if [
  | none ↦ bla
  | some own ↦ elim (env.arp_create own (record { claimtype = claimtype; group = bla.group })) [
    | none ↦ bla
    | some frame ↦ log (netif_rx (record (with_mac mac claimtype frame) { tag = vlan_tag vid })) bla
  ]
]

-- `batadv_announce_mac`, the first four bytes of the address in an announcement.
abbrev pub announce_mac : ℕ
announce_mac = 0x43054305

-- `batadv_bla_send_announce`, for the gateway at address p
unfoldable pub send_announce : Env → ℕ → Bla → Bla
unfolding gw_at send_claim
send_announce env p bla = elim (gw_at p bla.backbone_hash) [
  | none ↦ bla
  | some gw ↦ send_claim env (announce_mac * 2 ^ 16 + gw.crc) gw.vid type_announce bla
]

-- `batadv_backbone_hash_find`: only the bucket of the originator and the VLAN is searched.
unfoldable pub gw_find : (ℕ → ℕ → ℕ) → ℕ → ℕ → List BackboneGw → Option BackboneGw
gw_find choose orig vid [] = none
gw_find choose orig vid (g ∷ gs) =
    if (g.bucket == choose orig vid) && (g.orig == orig && g.vid == vid)
    then some g
    else gw_find choose orig vid gs

-- BATADV_BLA_WAIT_PERIODS
abbrev pub bla_wait_periods : ℕ
bla_wait_periods = 3

unfoldable pub set_request : ℕ → Bool → Bla → Bla
unfolding gw_write
set_request p sent bla = record bla {
  backbone_hash = gw_write p (λ g. record g { request_sent = sent }) bla.backbone_hash;
  num_requests = if sent then bla.num_requests + 1 else bla.num_requests - 1;
}

abbrev pub new_gw : Env → ℕ → ℕ → ℕ → BackboneGw
new_gw env p orig vid = record {
  self = p;
  bucket = env.choose_backbone_gw orig vid;
  orig = orig;
  vid = vid;
  lasttime = env.now;
  wait_periods = 0;
  request_sent = false;
  crc = crc_init;
}

-- The entry is in the hash, and the translation table no longer knows the originator as a host.
abbrev pub insert_gw : Env → ℕ → ℕ → Bla → Bla
insert_gw env orig vid bla =
    let bla = record bla {
      backbone_hash = new_gw env bla.next orig vid ∷ bla.backbone_hash;
      next = bla.next + 1;
    } in
    if env.orig_known orig then log (tt_global_del_orig orig vid) bla else bla

-- Our own gateway announces itself and waits.
abbrev pub own_gw : Env → ℕ → Bla → Bla
own_gw env p bla =
    let bla = set_request p true (send_announce env p bla) in
    record bla {
      backbone_hash =
          gw_write p (λ g. record g { wait_periods = bla_wait_periods }) bla.backbone_hash;
    }

-- `batadv_bla_get_backbone_gw`: the address of the gateway, and the tables after it.
unfoldable pub get_backbone_gw : Env → ℕ → ℕ → Bool → Bla → Option ℕ × Bla
unfolding gw_find set_request send_announce gw_write
get_backbone_gw env orig vid own_backbone bla =
    elim (gw_find env.choose_backbone_gw orig vid bla.backbone_hash) [
      | some g ↦ (some g.self, bla)
      | none ↦ if not (env.gw_alloc orig) then (none, bla) else (
        some bla.next,
        if own_backbone
            then own_gw env bla.next (insert_gw env orig vid bla)
            else insert_gw env orig vid bla,
      )
    ]

-- `batadv_bla_update_own_backbone_gw`
unfoldable pub update_own_backbone_gw : Env → ℕ → ℕ → Bla → Bla
unfolding get_backbone_gw touch_gw
update_own_backbone_gw env own vid bla =
    let (entry, bla) = get_backbone_gw env own vid true bla in
    elim entry [
      | none ↦ bla
      | some p ↦ record bla { backbone_hash = touch_gw env p bla.backbone_hash }
    ]

-- The loop of `batadv_bla_answer_request`
unfoldable pub answer_loop : Env → ℕ → List Claim → Bla → Bla
unfolding send_claim
answer_loop env p [] bla = bla
answer_loop env p (c ∷ cs) bla =
    if not (c.backbone_gw == p)
    then answer_loop env p cs bla
    else answer_loop env p cs (send_claim env c.addr c.vid type_claim bla)

-- `batadv_bla_answer_request`
unfoldable pub answer_request : Env → ℕ → ℕ → Bla → Bla
unfolding gw_find answer_loop send_announce
answer_request env own vid bla = elim (gw_find env.choose_backbone_gw own vid bla.backbone_hash) [
  | none ↦ bla
  | some g ↦ send_announce env g.self (answer_loop env g.self bla.claim_hash bla)
]

-- `batadv_bla_send_request`, for the gateway at address p
unfoldable pub send_request : Env → ℕ → Bla → Bla
unfolding gw_at del_backbone_claims send_claim set_request
send_request env p bla = elim (gw_at p bla.backbone_hash) [
  | none ↦ bla
  | some g ↦
      let bla = send_claim env g.orig g.vid type_request (del_backbone_claims p bla) in
      if not g.request_sent then set_request p true bla else bla
]

-- BATADV_BLA_BACKBONE_TIMEOUT
abbrev pub backbone_timeout : ℕ
backbone_timeout = 60000

abbrev pub expired : Env → Bool → BackboneGw → Bool
expired env now g = now || has_timed_out env.jiffies env.now g.lasttime backbone_timeout

unfoldable pub unlink_gw : ℕ → List BackboneGw → List BackboneGw
unlink_gw p [] = []
unlink_gw p (g ∷ gs) = if g.self == p then gs else g ∷ unlink_gw p gs

-- What `batadv_bla_purge_backbone_gw` does to a gateway that goes.
unfoldable pub purge_gw : BackboneGw → Bla → Bla
unfolding unlink_gw del_backbone_claims
purge_gw g bla =
    let bla = record bla {
      num_requests = if g.request_sent then bla.num_requests - 1 else bla.num_requests;
    } in
    let bla = del_backbone_claims g.self bla in
    record bla { backbone_hash = unlink_gw g.self bla.backbone_hash }

-- The loop of `batadv_bla_purge_backbone_gw`, over the entries as they were at first.
unfoldable pub purge_loop : Env → Bool → List BackboneGw → Bla → Bla
unfolding purge_gw
purge_loop env now [] bla = bla
purge_loop env now (g ∷ gs) bla =
    purge_loop env now gs (if expired env now g then purge_gw g bla else bla)

-- `batadv_bla_purge_backbone_gw`
abbrev pub purge_backbone_gw : Env → Bool → Bla → Bla
purge_backbone_gw env now bla = purge_loop env now bla.backbone_hash bla
