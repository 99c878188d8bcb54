-- ===== src/Bla/Work.antt =====
-- bridge_loop_avoidance.c: the periodic work, and a new address of the primary interface.
pub mod Valid
use batman_adv.Common.{
  ℕ, ◌+◌, ◌-◌, ◌%◌, ◌^◌, Bool, true, false, ◌&&◌, ◌||◌, not, ◌==◌, if◌then◌else◌, List, [], ◌∷◌,
  Option, none, some,
}
use batman_adv.Bcast.{has_timed_out}
use batman_adv.Bla.Claims.{Env, BackboneGw, Claim, Bla, gw_at, gw_write}
use batman_adv.Bla.Gateways.{send_announce, set_request, purge_loop, purge_backbone_gw}
use batman_adv.Bla.Frames.{handle_unclaim, is_own}
use batman_adv.Bla.Gate.{owner_orig}

-- BATADV_BLA_CLAIM_TIMEOUT
abbrev pub claim_timeout : ℕ
claim_timeout = 100000

-- What the loop of `batadv_bla_purge_claims` does with a claim whose owner has this address.
unfoldable pub purge_claim : Env → Option ℕ → Bool → Claim → Option ℕ → Bla → Bla
unfolding handle_unclaim
purge_claim env primary now claim none bla = bla
purge_claim env primary now claim (some orig) bla =
    if now
      || (is_own primary orig && has_timed_out env.jiffies env.now claim.lasttime claim_timeout)
    then handle_unclaim env primary orig claim.addr claim.vid bla
    else bla

unfoldable pub purge_claims_loop : Env → Option ℕ → Bool → List Claim → Bla → Bla
unfolding purge_claim gw_at
purge_claims_loop env primary now [] bla = bla
purge_claims_loop env primary now (claim ∷ claims) bla =
    purge_claims_loop env primary now claims
      (purge_claim env primary now claim (owner_orig claim bla) bla)

-- `batadv_bla_purge_claims`
abbrev pub purge_claims : Env → Option ℕ → Bool → Bla → Bla
purge_claims env primary now bla = purge_claims_loop env primary now bla.claim_hash bla

abbrev pub set_orig : ℕ → ℕ → Bla → Bla
set_orig p orig bla = record bla {
  backbone_hash = gw_write p (λ g. record g { orig = orig }) bla.backbone_hash;
}

unfoldable pub rename_loop : Env → ℕ → ℕ → List BackboneGw → Bla → Bla
unfolding send_announce gw_write
rename_loop env new_addr old_addr [] bla = bla
rename_loop env new_addr old_addr (g ∷ gs) bla = rename_loop env new_addr old_addr gs (
    if not (g.orig == old_addr)
    then bla
    else send_announce env g.self (set_orig g.self new_addr bla))

-- `batadv_bla_update_orig_address`, with the addresses of the new and the old primary interface.
unfoldable pub update_orig_address : Env → Bool → ℕ → Option ℕ → Bla → Bla
unfolding purge_claims_loop purge_loop rename_loop
update_orig_address env enabled new_addr oldif bla =
    let bla = record bla { group = env.crc16 new_addr } in
    elim (if not enabled then none else oldif) [
      | none ↦ purge_backbone_gw env true (purge_claims env none true bla)
      | some old_addr ↦ rename_loop env new_addr old_addr bla.backbone_hash bla
    ]

-- `atomic_dec_and_test(&backbone_gw->wait_periods)`, on a counter that wraps, and what follows it.
unfoldable pub end_period : BackboneGw → Bla → Bla
unfolding gw_write set_request
end_period g bla =
    let wait = (g.wait_periods + 2 ^ 32 - 1) % 2 ^ 32 in
    let bla = record bla {
      backbone_hash = gw_write g.self (λ g. record g { wait_periods = wait }) bla.backbone_hash;
    } in
    if not (wait == 0) then bla else set_request g.self false bla

-- The body of the loop of `batadv_bla_periodic_work` for one of our own gateways.
unfoldable pub own_period : Env → BackboneGw → Bla → Bla
unfolding gw_write send_announce end_period
own_period env g bla =
    let bla = record bla {
      backbone_hash = gw_write g.self (λ g. record g { lasttime = env.now }) bla.backbone_hash;
    } in
    let bla = send_announce env g.self bla in if not g.request_sent then bla else end_period g bla

unfoldable pub periodic_loop : Env → ℕ → List BackboneGw → Bla → Bla
unfolding own_period
periodic_loop env own [] bla = bla
periodic_loop env own (g ∷ gs) bla =
    periodic_loop env own gs (if not (g.orig == own) then bla else own_period env g bla)

-- `batadv_bla_periodic_work`
unfoldable pub periodic_work : Env → Bool → Bla → Bla
unfolding purge_claims_loop purge_loop periodic_loop
periodic_work env enabled bla = elim env.primary_if [
  | none ↦ bla
  | some own ↦
      let bla = purge_backbone_gw env false (purge_claims env (some own) false bla) in
      if not enabled then bla else periodic_loop env own bla.backbone_hash bla
]

-- `batadv_bla_status_update`, with the address of the primary interface.
abbrev pub status_of : Env → Bool → Bla → Option ℕ → Bla
status_of env enabled bla none = bla
status_of env enabled bla (some own) = update_orig_address env enabled own (some own) bla

abbrev pub status_update : Env → Bool → Bla → Bla
status_update env enabled bla = status_of env enabled bla env.primary_if
