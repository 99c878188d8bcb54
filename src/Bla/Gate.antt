-- ===== src/Bla/Gate.antt =====
-- bridge_loop_avoidance.c: which frames may pass between the mesh and the bridge.
use batman_adv.Common.{
  ℕ, ◌≡◌, refl, Bool, true, false, ◌&&◌, not, ◌==◌, ltb, if◌then◌else◌, arith, List, [], ◌∷◌, any,
  All, ap₂, ◌∙◌, ==_iff, Bool-cases, inl, inr, Option, none, some,
}
use batman_adv.Bla.Claims.{Env, BackboneGw, Claim, Bla, claim_find, claim_update, gw_at}
use batman_adv.Bla.Gateways.{gw_find, update_own_backbone_gw}
use batman_adv.Bla.Frames.{Frame, handle_claim, handle_unclaim, process_claim}

-- `claim->backbone_gw->orig`
abbrev pub owner_orig : Claim → Bla → Option ℕ
owner_orig claim bla = elim (gw_at claim.backbone_gw bla.backbone_hash) [
  | none ↦ none
  | some g ↦ some g.orig
]

-- The comparison of the claim's owner with our primary interface.
abbrev pub owned_by : ℕ → Option ℕ → Bool
owned_by own none = false
owned_by own (some orig) = orig == own

-- The end at `allow`.
abbrev pub allow : Env → ℕ → ℕ → Bla → Bool × Bla
allow env own vid bla = (false, update_own_backbone_gw env own vid bla)

-- `batadv_bla_rx`, for a frame from the mesh: whether the frame is handled, so that it does not
-- pass, and the tables after it. `enabled` is the setting `bridge_loop_avoidance`.
unfoldable pub rx : Env → Bool → ℕ → ℕ → ℕ → Bool → Bla → Bool × Bla
unfolding claim_find claim_update gw_at update_own_backbone_gw handle_claim
rx env enabled h_source h_dest vid is_bcast bla = elim env.primary_if [
  | none ↦ (true, bla)
  | some own ↦
      let bcast = env.is_multicast_ether_addr h_dest && is_bcast in
      if not enabled
      then allow env own vid bla
      else (if ltb 0 bla.num_requests && bcast
          then (true, bla)
          else elim (claim_find h_source vid bla.claim_hash) [
            | none ↦ allow env own vid (handle_claim env own own h_source vid bla)
            | some claim ↦
                if owned_by own (owner_orig claim bla)
                then allow env own vid (record bla {
                  claim_hash =
                      claim_update h_source vid (λ c. record c { lasttime = env.now })
                        bla.claim_hash;
                })
                else (if bcast
                    then (true, bla)
                    else allow env own vid (handle_claim env own own h_source vid bla))
          ])
]

-- `batadv_bla_tx` behind `batadv_bla_process_claim`
unfoldable pub tx_data : Env → ℕ → ℕ → ℕ → ℕ → Bla → Bool × Bla
unfolding claim_find gw_at update_own_backbone_gw handle_unclaim
tx_data env own h_source h_dest vid bla =
    let multicast = env.is_multicast_ether_addr h_dest in
    if ltb 0 bla.num_requests && multicast
    then (true, bla)
    else elim (claim_find h_source vid bla.claim_hash) [
      | none ↦ allow env own vid bla
      | some claim ↦
          if owned_by own (owner_orig claim bla)
          then allow env own vid (handle_unclaim env (some own) own h_source vid bla)
          else (if multicast then (true, bla) else allow env own vid bla)
    ]

-- `batadv_bla_tx`, for a frame from the bridge.
unfoldable pub tx : Env → Bool → Frame → ℕ → Bla → Bool × Bla
unfolding process_claim tx_data update_own_backbone_gw
tx env enabled frame vid bla = elim env.primary_if [
  | none ↦ (false, bla)
  | some own ↦
      let (handled, after) = process_claim env own frame bla in
      if not enabled
      then allow env own vid bla
      else (if handled
          then (true, after)
          else tx_data env own frame.h_source frame.h_dest vid after)
]

-- `batadv_bla_is_backbone_gw_orig`
unfoldable pub is_backbone_gw_orig : Bool → ℕ → ℕ → Bla → Bool
is_backbone_gw_orig enabled orig vid bla =
    if not enabled then false else any (λ g. g.orig == orig && g.vid == vid) bla.backbone_hash

-- `batadv_bla_is_backbone_gw`, for a frame of the originator, where `pullable` tells whether its
-- Ethernet header can be read.
unfoldable pub is_backbone_gw : (ℕ → ℕ → ℕ) → Bool → Bool → ℕ → ℕ → Bla → Bool
unfolding gw_find
is_backbone_gw choose enabled pullable orig vid bla =
    if not enabled
    then false
    else (if not pullable
        then false
        else elim (gw_find choose orig vid bla.backbone_hash) [ none ↦ false | some g ↦ true ])

-- While every gateway is in the bucket of its originator, both tests say the same of a frame that can
-- be read.
pub is_backbone_gw_lem :
    (choose : ℕ → ℕ → ℕ) (enabled : Bool) (orig vid : ℕ) (bla : Bla)
    → All (λ g. g.bucket ≡ choose g.orig g.vid) bla.backbone_hash
    → is_backbone_gw choose enabled true orig vid bla ≡ is_backbone_gw_orig enabled orig vid bla
unfolding is_backbone_gw is_backbone_gw_orig
is_backbone_gw_lem choose false orig vid bla h = refl
is_backbone_gw_lem choose true orig vid bla h = found bla.backbone_hash h
  where
    here :
        (g : BackboneGw)
        → g.bucket ≡ choose g.orig g.vid
        → ((g.bucket == choose orig vid) && (g.orig == orig && g.vid == vid))
          ≡ (g.orig == orig && g.vid == vid)
    here g b = elim (Bool-cases (g.orig == orig && g.vid == vid)) [
      | inl e ↦
          let o : g.orig ≡ orig = (==_iff g.orig orig).0 (ground (arith, e)) in
          let v : g.vid ≡ vid = (==_iff g.vid vid).0 (ground (arith, e)) in
          let same : (g.bucket == choose orig vid) ≡ true =
            (==_iff g.bucket (choose orig vid)).1 (b ∙ ap₂ choose o v) in
          rw (same) refl
      | inr e ↦ rw (e) (ground arith)
    ]

    found :
        (gs : List BackboneGw)
        → All (λ g. g.bucket ≡ choose g.orig g.vid) gs
        → (elim (gw_find choose orig vid gs) as (λ x. Bool) [ none ↦ false | some g ↦ true ])
          ≡ any (λ g. g.orig == orig && g.vid == vid) gs
    found [] h = refl
    found (g ∷ gs) h = ground (arith, found gs h.1, here g h.0)
