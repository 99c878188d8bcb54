-- ===== src/Bla/Frames.antt =====
-- bridge_loop_avoidance.c: the claim frames that a gateway receives from its backbone.
pub mod Valid
use batman_adv.Common.{
  ℕ, ◌+◌, ◌/◌, ◌%◌, ◌^◌, Bool, true, false, ◌&&◌, ◌||◌, not, ◌==◌, ltb, if◌then◌else◌, List, [],
  ◌∷◌, Option, none, some,
}
use batman_adv.Word.Flags.{test_flag}
use batman_adv.Bla.Claims.{
  ClaimDst, ClaimFrame, Env, BackboneGw, Claim, Bla, gw_at, gw_write, touch_gw, add_claim,
  del_claim,
}
use batman_adv.Bla.Gateways.{
  announce_mac, type_claim, type_unclaim, type_announce, type_request, send_claim, gw_find,
  set_request, get_backbone_gw, update_own_backbone_gw, answer_request, send_request,
}

-- `batadv_handle_announce` for a gateway that is known.
unfoldable pub check_announce : Env → ℕ → ℕ → Bla → Bla
unfolding gw_at touch_gw send_request set_request
check_announce env crc p bla =
    let bla = record bla { backbone_hash = touch_gw env p bla.backbone_hash } in
    elim (gw_at p bla.backbone_hash) [
      | none ↦ bla
      | some g ↦
          if not (g.crc == crc)
          then send_request env p bla
          else (if g.request_sent then set_request p false bla else bla)
    ]

-- `batadv_handle_announce`
unfoldable pub handle_announce : Env → ℕ → ℕ → ℕ → Bla → Bool × Bla
unfolding get_backbone_gw check_announce
handle_announce env an_addr backbone_addr vid bla =
    if not (an_addr / 2 ^ 16 == announce_mac)
    then (false, bla)
    else (let (entry, bla) = get_backbone_gw env backbone_addr vid false bla in
        elim entry [
          | none ↦ (true, bla)
          | some p ↦ (true, check_announce env (an_addr % 2 ^ 16) p bla)
        ])

-- `batadv_handle_request`
unfoldable pub handle_request : Env → ℕ → ℕ → ℕ → ℕ → Bla → Bool × Bla
unfolding answer_request
handle_request env own backbone_addr h_dest vid bla =
    if not (backbone_addr == h_dest)
    then (false, bla)
    else (if not (h_dest == own) then (true, bla) else (true, answer_request env own vid bla))

abbrev pub is_own : Option ℕ → ℕ → Bool
is_own none backbone_addr = false
is_own (some own) backbone_addr = backbone_addr == own

-- `batadv_handle_unclaim`, with the primary interface's address if it is given.
unfoldable pub handle_unclaim : Env → Option ℕ → ℕ → ℕ → ℕ → Bla → Bla
unfolding send_claim gw_find del_claim
handle_unclaim env primary backbone_addr claim_addr vid bla =
    let bla =
      if is_own primary backbone_addr
      then send_claim env claim_addr vid type_unclaim bla
      else bla in
    elim (gw_find env.choose_backbone_gw backbone_addr vid bla.backbone_hash) [
      | none ↦ bla
      | some g ↦ del_claim env claim_addr vid bla
    ]

-- `batadv_handle_claim`
unfoldable pub handle_claim : Env → ℕ → ℕ → ℕ → ℕ → Bla → Bla
unfolding get_backbone_gw add_claim send_claim
handle_claim env own backbone_addr claim_addr vid bla =
    let (entry, bla) = get_backbone_gw env backbone_addr vid false bla in
    elim entry [
      | none ↦ bla
      | some p ↦
          let bla = add_claim env claim_addr vid p bla in
          if backbone_addr == own then send_claim env claim_addr vid type_claim bla else bla
    ]

-- Whose frame it is, by the type; no other type is a claim frame.
abbrev pub backbone_of : ClaimFrame → Option ℕ
backbone_of frame =
    if frame.hw_dst.claimtype == type_claim
    then some frame.hw_src
    else (if frame.hw_dst.claimtype == type_request
          || frame.hw_dst.claimtype == type_announce
          || frame.hw_dst.claimtype == type_unclaim
        then some frame.h_source
        else none)

-- `batadv_check_claim_group`: what it returns, and the group after it.
unfoldable pub check_claim_group : Env → ℕ → ClaimFrame → Bla → ℕ × Bla
check_claim_group env own frame bla = elim (backbone_of frame) [
  | none ↦ (0, bla)
  | some backbone_addr ↦
      if backbone_addr == own
      then (0, bla)
      else (if frame.hw_dst.group == bla.group
          then (2, bla)
          else (if not (env.orig_known backbone_addr)
              then (1, bla)
              else (if ltb bla.group frame.hw_dst.group
                  then (2, record bla { group = frame.hw_dst.group })
                  else (2, bla))))
]

-- `batadv_get_vid`, by the tag of the frame.
abbrev pub get_vid : Option ℕ → ℕ
get_vid none = 0
get_vid (some tag) = tag % 2 ^ 12 + 2 ^ 15

-- The switch of `batadv_bla_process_claim`. Each handler that does not take the frame leaves it to
-- the message behind the switch, and the frame counts as handled.
unfoldable pub dispatch : Env → ℕ → ClaimFrame → ℕ → Bla → Bla
unfolding handle_announce handle_request handle_unclaim handle_claim
dispatch env own frame vid bla =
    if frame.hw_dst.claimtype == type_claim
    then handle_claim env own frame.hw_src frame.h_source vid bla
    else (if frame.hw_dst.claimtype == type_unclaim
        then handle_unclaim env (some own) frame.h_source frame.hw_src vid bla
        else (if frame.hw_dst.claimtype == type_announce
            then (handle_announce env frame.hw_src frame.h_source vid bla).1
            else (if frame.hw_dst.claimtype == type_request
                then (handle_request env own frame.hw_src frame.h_dest vid bla).1
                else bla)))

-- `batadv_bla_process_claim` from `batadv_check_claim_group` on.
unfoldable pub process_frame : Env → ℕ → ℕ → ClaimFrame → Bla → Bool × Bla
unfolding check_claim_group update_own_backbone_gw dispatch
process_frame env own vid frame bla =
    let (ret, bla) = check_claim_group env own frame bla in
    if ltb ret 2
    then (ret == 1, bla)
    else (true, dispatch env own frame vid (update_own_backbone_gw env own vid bla))

-- The header fields of an ARP frame that are checked, and the claim frame in it.
pub record Arp : Type 0 where
  pub ar_hrd : ℕ
  pub ar_pro : ℕ
  pub ar_hln : ℕ
  pub ar_pln : ℕ
  pub magic : ℕ
  pub frame : ClaimFrame

-- A frame of the soft interface: its addresses, its protocol, its VLAN tag, the encapsulated
-- protocols of the VLAN headers that lie in it, and its ARP part where `pskb_may_pull` reaches it.
pub record Frame : Type 0 where
  pub h_source : ℕ
  pub h_dest : ℕ
  pub h_proto : ℕ
  pub tag : Option ℕ
  pub vlan_protos : List ℕ
  pub arp : Option Arp

-- ETH_P_8021Q, ETH_P_ARP, ETH_P_IP and the claim frames' magic FF:43:05
abbrev pub eth_p_8021q : ℕ
eth_p_8021q = 0x8100

abbrev pub eth_p_arp : ℕ
eth_p_arp = 0x0806

abbrev pub eth_p_ip : ℕ
eth_p_ip = 0x0800

abbrev pub claim_magic : ℕ
claim_magic = 0xff4305

-- The loop over the VLAN headers: the protocol behind them and their number, unless one is cut off.
unfoldable pub vlan_loop : ℕ → List ℕ → Option (ℕ × ℕ)
vlan_loop depth [] = none
vlan_loop depth (proto ∷ protos) =
    let rest = vlan_loop (depth + 1) protos in
    if proto == eth_p_8021q then rest else some (proto, depth + 1)

abbrev pub valid_arp : Arp → Bool
valid_arp arp =
    arp.ar_hrd == 1
    && arp.ar_pro == eth_p_ip
    && arp.ar_hln == 6
    && arp.ar_pln == 4
    && arp.magic == claim_magic

-- `batadv_bla_process_claim`: whether the frame was a claim frame, and the tables after it.
unfoldable pub process_claim : Env → ℕ → Frame → Bla → Bool × Bla
unfolding vlan_loop process_frame
process_claim env own frame bla =
    let vid = get_vid frame.tag in
    let header =
      if test_flag 15 vid then vlan_loop 0 frame.vlan_protos else some (frame.h_proto, 0) in
    elim header [
      | none ↦ (false, bla)
      | some (proto, depth) ↦ if not (proto == eth_p_arp) then (false, bla) else elim frame.arp [
        | none ↦ (false, bla)
        | some arp ↦
            if not (valid_arp arp)
            then (false, bla)
            else (if ltb 1 depth then (true, bla) else process_frame env own vid arp.frame bla)
      ]
    ]
