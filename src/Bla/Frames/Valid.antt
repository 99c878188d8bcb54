-- ===== src/Bla/Frames/Valid.antt =====
-- The handlers of claim frames keep the tables in order.
use batman_adv.Common.{
  ℕ, ◌/◌, ◌%◌, ◌^◌, ap, ◌∙◌, Bool, true, false, not, ◌==◌, ltb, if◌then◌else◌, Option, none, some,
  Option-cases, Bool-cases, inl, inr, if_both,
}
use batman_adv.Word.Flags.{test_flag}
use batman_adv.Bla.Claims.{Env, ClaimFrame, Bla, gw_at, touch_gw, add_claim, del_claim}
use batman_adv.Bla.Claims.Valid.{IsValid}
use batman_adv.Bla.Claims.Steps.{del_claim-IsValid}
use batman_adv.Bla.Claims.Add.{touch_gw-IsValid, add_claim-IsValid}
use batman_adv.Bla.Gateways.{
  send_claim, announce_mac, gw_find, get_backbone_gw, type_claim, type_unclaim, type_announce,
  type_request,
}
use batman_adv.Bla.Gateways.Requests.{request-gw_at, set_request-IsValid}
use batman_adv.Bla.Gateways.Valid.{send_claim-IsValid}
use batman_adv.Bla.Gateways.Found.{
  Found, get_backbone_gw-Found, update_own-IsValid, answer_request-IsValid, send_request-IsValid,
}
use batman_adv.Bla.Frames.{
  check_announce, handle_announce, handle_request, handle_unclaim, is_own, handle_claim,
  backbone_of, check_claim_group, dispatch, process_frame, Frame, process_claim, Arp, valid_arp,
  vlan_loop, get_vid,
}

check_announce-IsValid :
    (env : Env) (crc p : ℕ) (bla : Bla)
    → IsValid env.crc16 bla
    → IsValid env.crc16 (check_announce env crc p bla)
unfolding check_announce
check_announce-IsValid env crc p bla v =
    let touched : Bla = record bla { backbone_hash = touch_gw env p bla.backbone_hash } in
    let w : IsValid env.crc16 touched = touch_gw-IsValid env p bla v in
    elim (Option-cases (gw_at p touched.backbone_hash)) [
      | inl e ↦ rw (e, check_announce) w
      | inr (g, e) ↦ elim (Bool-cases (g.crc == crc)) [
        | inr c ↦ rw (e, check_announce, c) (send_request-IsValid env p touched w)
        | inl c ↦ elim (Bool-cases g.request_sent) [
          | inr r ↦ rw (e, check_announce, c, r) w
          | inl r ↦
              rw (e, check_announce, c, r)
                (set_request-IsValid env p false touched w
                  ((request-gw_at p touched.backbone_hash g e).0 ∙ ap some r))
        ]
      ]
    ]

pub handle_announce-IsValid :
    (env : Env) (an_addr backbone_addr vid : ℕ) (bla : Bla)
    → IsValid env.crc16 bla
    → IsValid env.crc16 (handle_announce env an_addr backbone_addr vid bla).1
unfolding handle_announce
handle_announce-IsValid env an_addr backbone_addr vid bla v =
    elim (Bool-cases (an_addr / 2 ^ 16 == announce_mac)) [
      | inr e ↦ rw (e, handle_announce) v
      | inl e ↦
          rw (e, handle_announce)
            (checked (get_backbone_gw env backbone_addr vid false bla)
              (get_backbone_gw-Found env backbone_addr vid false bla v))
    ]
  where
    checked :
        (r : Option ℕ × Bla)
        → Found env r
        → IsValid env.crc16
            (elim r.0 as (λ x. Bool × Bla) [
              | none ↦ (true, r.1)
              | some p ↦ (true, check_announce env (an_addr % 2 ^ 16) p r.1)
            ]).1
    checked (none, bla) h = h.0
    checked (some p, bla) h = check_announce-IsValid env (an_addr % 2 ^ 16) p bla h.0

pub handle_request-IsValid :
    (env : Env) (own backbone_addr h_dest vid : ℕ) (bla : Bla)
    → IsValid env.crc16 bla
    → IsValid env.crc16 (handle_request env own backbone_addr h_dest vid bla).1
unfolding handle_request
handle_request-IsValid env own backbone_addr h_dest vid bla v =
    elim (Bool-cases (backbone_addr == h_dest)) [
      | inr e ↦ rw (e, handle_request) v
      | inl e ↦ elim (Bool-cases (h_dest == own)) [
        | inr d ↦ rw (e, handle_request, d) v
        | inl d ↦ rw (e, handle_request, d) (answer_request-IsValid env own vid bla v)
      ]
    ]

deleted-IsValid :
    (env : Env) (backbone_addr claim_addr vid : ℕ) (bla : Bla)
    → IsValid env.crc16 bla
    → IsValid env.crc16 (elim (gw_find env.choose_backbone_gw backbone_addr vid bla.backbone_hash) [
      | none ↦ bla
      | some g ↦ del_claim env claim_addr vid bla
    ])
deleted-IsValid env backbone_addr claim_addr vid bla v =
    elim (Option-cases (gw_find env.choose_backbone_gw backbone_addr vid bla.backbone_hash)) [
      | inl e ↦ rw (e) v
      | inr (g, e) ↦ rw (e) (del_claim-IsValid env claim_addr vid bla v)
    ]

pub handle_unclaim-IsValid :
    (env : Env) (primary : Option ℕ) (backbone_addr claim_addr vid : ℕ) (bla : Bla)
    → IsValid env.crc16 bla
    → IsValid env.crc16 (handle_unclaim env primary backbone_addr claim_addr vid bla)
unfolding handle_unclaim
handle_unclaim-IsValid env primary backbone_addr claim_addr vid bla v =
    deleted-IsValid env backbone_addr claim_addr vid _ (
      if_both (IsValid env.crc16) (is_own primary backbone_addr) _ bla
        (send_claim-IsValid env claim_addr vid type_unclaim bla v) v)

pub handle_claim-IsValid :
    (env : Env) (own backbone_addr claim_addr vid : ℕ) (bla : Bla)
    → IsValid env.crc16 bla
    → IsValid env.crc16 (handle_claim env own backbone_addr claim_addr vid bla)
unfolding handle_claim
handle_claim-IsValid env own backbone_addr claim_addr vid bla v =
    claimed (get_backbone_gw env backbone_addr vid false bla)
      (get_backbone_gw-Found env backbone_addr vid false bla v)
  where
    claimed :
        (r : Option ℕ × Bla)
        → Found env r
        → IsValid env.crc16 (elim r.0 as (λ x. Bla) [
          | none ↦ r.1
          | some p ↦
              if backbone_addr == own
              then send_claim env claim_addr vid type_claim (add_claim env claim_addr vid p r.1)
              else add_claim env claim_addr vid p r.1
        ])
    claimed (none, bla) h = h.0
    claimed (some p, bla) h =
        let w = add_claim-IsValid env claim_addr vid p bla h.0 h.1 in
        elim (Bool-cases (backbone_addr == own)) [
          | inl e ↦ rw (e) (send_claim-IsValid env claim_addr vid type_claim _ w)
          | inr e ↦ rw (e) w
        ]

pub group-IsValid :
    (env : Env) (group : ℕ) (bla : Bla)
    → IsValid env.crc16 bla
    → IsValid env.crc16 (record bla { group = group })
group-IsValid env group bla v = record {
  ordered = v.ordered;
  synced = v.synced;
  owned = v.owned;
  counted = v.counted;
}

check_group-IsValid :
    (env : Env) (own : ℕ) (frame : ClaimFrame) (bla : Bla)
    → IsValid env.crc16 bla
    → IsValid env.crc16 (check_claim_group env own frame bla).1
unfolding check_claim_group
check_group-IsValid env own frame bla v = elim (Option-cases (backbone_of frame)) [
  | inl e ↦ rw (e, check_claim_group) v
  | inr (a, e) ↦
      rw (e, check_claim_group)
        (if_both (λ (r : ℕ × Bla). IsValid env.crc16 r.1) (a == own) (0, bla) _ v
          (if_both (λ (r : ℕ × Bla). IsValid env.crc16 r.1) (frame.hw_dst.group == bla.group)
            (2, bla) _ v
            (if_both (λ (r : ℕ × Bla). IsValid env.crc16 r.1) (not (env.orig_known a)) (1, bla) _ v
              (if_both (λ (r : ℕ × Bla). IsValid env.crc16 r.1) (ltb bla.group frame.hw_dst.group)
                (2, record bla { group = frame.hw_dst.group }) (2, bla)
                (group-IsValid env frame.hw_dst.group bla v) v))))
]

dispatch-IsValid :
    (env : Env) (own : ℕ) (frame : ClaimFrame) (vid : ℕ) (bla : Bla)
    → IsValid env.crc16 bla
    → IsValid env.crc16 (dispatch env own frame vid bla)
unfolding dispatch
dispatch-IsValid env own frame vid bla v =
    if_both (IsValid env.crc16) (frame.hw_dst.claimtype == type_claim) _ _
      (handle_claim-IsValid env own frame.hw_src frame.h_source vid bla v)
      (if_both (IsValid env.crc16) (frame.hw_dst.claimtype == type_unclaim) _ _
        (handle_unclaim-IsValid env (some own) frame.h_source frame.hw_src vid bla v)
        (if_both (IsValid env.crc16) (frame.hw_dst.claimtype == type_announce) _ _
          (handle_announce-IsValid env frame.hw_src frame.h_source vid bla v)
          (if_both (IsValid env.crc16) (frame.hw_dst.claimtype == type_request) _ bla
            (handle_request-IsValid env own frame.hw_src frame.h_dest vid bla v) v)))

abbrev Second : Env → Bool × Bla → Type 0
Second env r = IsValid env.crc16 r.1

pub process_frame-IsValid :
    (env : Env) (own vid : ℕ) (frame : ClaimFrame) (bla : Bla)
    → IsValid env.crc16 bla
    → IsValid env.crc16 (process_frame env own vid frame bla).1
unfolding process_frame
process_frame-IsValid env own vid frame bla v =
    let w = check_group-IsValid env own frame bla v in
    if_both (Second env) (ltb (check_claim_group env own frame bla).0 2) _ _ w
      (dispatch-IsValid env own frame vid _ (update_own-IsValid env own vid _ w))

pub process_claim-IsValid :
    (env : Env) (own : ℕ) (frame : Frame) (bla : Bla)
    → IsValid env.crc16 bla
    → IsValid env.crc16 (process_claim env own frame bla).1
unfolding process_claim
process_claim-IsValid env own frame bla v = behind (
    if test_flag 15 (get_vid frame.tag)
    then vlan_loop 0 frame.vlan_protos
    else some (frame.h_proto, 0))
  where
    with_arp :
        (arp : Option Arp) (depth : ℕ)
        → IsValid env.crc16
            (elim arp as (λ x. Bool × Bla) [
              | none ↦ (false, bla)
              | some arp ↦
                  if not (valid_arp arp)
                  then (false, bla)
                  else (if ltb 1 depth
                      then (true, bla)
                      else process_frame env own (get_vid frame.tag) arp.frame bla)
            ]).1
    with_arp none depth = v
    with_arp (some arp) depth =
        if_both (Second env) (not (valid_arp arp)) (false, bla) _ v
          (if_both (Second env) (ltb 1 depth) (true, bla) _ v
            (process_frame-IsValid env own (get_vid frame.tag) arp.frame bla v))

    behind :
        (header : Option (ℕ × ℕ))
        → IsValid env.crc16
            (elim header as (λ x. Bool × Bla) [
              | none ↦ (false, bla)
              | some (proto, depth) ↦
                  if not (proto == 0x0806) then (false, bla) else elim frame.arp [
                    | none ↦ (false, bla)
                    | some arp ↦
                        if not (valid_arp arp)
                        then (false, bla)
                        else (if ltb 1 depth
                            then (true, bla)
                            else process_frame env own (get_vid frame.tag) arp.frame bla)
                  ]
            ]).1
    behind none = v
    behind (some (proto, depth)) =
        if_both (Second env) (not (proto == 0x0806)) (false, bla) _ v (with_arp frame.arp depth)
