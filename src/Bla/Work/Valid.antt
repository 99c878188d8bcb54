-- ===== src/Bla/Work/Valid.antt =====
-- The periodic work and a change of the own address keep the tables in order.
use batman_adv.Common.{
  ℕ, ◌+◌, ◌-◌, ◌%◌, ◌^◌, ◌<◌, ◌≡◌, refl, ap, ◌∙◌, Bool, true, false, not, ◌&&◌, ◌||◌, ◌==◌,
  if◌then◌else◌, arith, List, [], ◌∷◌, Option, none, some, Option-cases, Bool-cases, inl, inr,
  if_both,
}
use batman_adv.Bcast.{has_timed_out}
use batman_adv.Bla.Claims.{Env, BackboneGw, Claim, Bla, gw_write}
use batman_adv.Bla.Claims.Valid.{IsValid, Below}
use batman_adv.Bla.Claims.Steps.{gw_write-IsValid}
use batman_adv.Bla.Gateways.{send_announce, set_request, purge_loop}
use batman_adv.Bla.Gateways.Requests.{request_at, set_request-IsValid}
use batman_adv.Bla.Gateways.Valid.{send_announce_lem, send_announce-IsValid}
use batman_adv.Bla.Gateways.Found.{request-gw_write}
use batman_adv.Bla.Gateways.Purge.{Ahead, Ahead-Below, Ahead-start, purge_backbone_gw-IsValid}
use batman_adv.Bla.Frames.{is_own}
use batman_adv.Bla.Frames.Valid.{handle_unclaim-IsValid, group-IsValid}
use batman_adv.Bla.Gate.{owner_orig}
use batman_adv.Bla.Work.{
  claim_timeout, purge_claim, purge_claims_loop, set_orig, rename_loop, update_orig_address,
  end_period, own_period, periodic_loop, periodic_work,
}

purge_claim-IsValid :
    (env : Env) (primary : Option ℕ) (now : Bool) (claim : Claim) (owner : Option ℕ) (bla : Bla)
    → IsValid env.crc16 bla
    → IsValid env.crc16 (purge_claim env primary now claim owner bla)
unfolding purge_claim
purge_claim-IsValid env primary now claim none bla v = v
purge_claim-IsValid env primary now claim (some orig) bla v =
    if_both (IsValid env.crc16)
      (now
        || (is_own primary orig && has_timed_out env.jiffies env.now claim.lasttime claim_timeout))
      _ bla (handle_unclaim-IsValid env primary orig claim.addr claim.vid bla v) v

purge_claims-IsValid :
    (env : Env) (primary : Option ℕ) (now : Bool) (claims : List Claim) (bla : Bla)
    → IsValid env.crc16 bla
    → IsValid env.crc16 (purge_claims_loop env primary now claims bla)
unfolding purge_claims_loop
purge_claims-IsValid env primary now [] bla v = v
purge_claims-IsValid env primary now (claim ∷ claims) bla v =
    purge_claims-IsValid env primary now claims _
      (purge_claim-IsValid env primary now claim (owner_orig claim bla) bla v)

set_orig-IsValid :
    (env : Env) (p orig : ℕ) (bla : Bla)
    → IsValid env.crc16 bla
    → IsValid env.crc16 (set_orig p orig bla)
set_orig-IsValid env p orig bla =
    gw_write-IsValid env p (λ g. record g { orig = orig }) bla (λ g. (refl, (refl, refl)))

rename-IsValid :
    (env : Env) (new_addr old_addr : ℕ) (gs : List BackboneGw) (bla : Bla)
    → IsValid env.crc16 bla
    → IsValid env.crc16 (rename_loop env new_addr old_addr gs bla)
unfolding rename_loop
rename-IsValid env new_addr old_addr [] bla v = v
rename-IsValid env new_addr old_addr (g ∷ gs) bla v = rename-IsValid env new_addr old_addr gs _ (
    if_both (IsValid env.crc16) (not (g.orig == old_addr)) bla _ v
      (send_announce-IsValid env g.self _ (set_orig-IsValid env g.self new_addr bla v)))

pub update_orig-IsValid :
    (env : Env) (enabled : Bool) (new_addr : ℕ) (oldif : Option ℕ) (bla : Bla)
    → IsValid env.crc16 bla
    → IsValid env.crc16 (update_orig_address env enabled new_addr oldif bla)
unfolding update_orig_address
update_orig-IsValid env enabled new_addr oldif bla v = renamed (if not enabled then none else oldif)
  where
    grouped : Bla
    grouped = record bla { group = env.crc16 new_addr }

    renamed :
        (oldif : Option ℕ)
        → IsValid env.crc16 (elim oldif as (λ x. Bla) [
          | none ↦
              purge_loop env true
                (purge_claims_loop env none true grouped.claim_hash grouped).backbone_hash
                (purge_claims_loop env none true grouped.claim_hash grouped)
          | some old_addr ↦ rename_loop env new_addr old_addr grouped.backbone_hash grouped
        ])
    renamed none = purge_backbone_gw-IsValid env true _ (
        purge_claims-IsValid env none true grouped.claim_hash grouped
          (group-IsValid env (env.crc16 new_addr) bla v))
    renamed (some old_addr) =
        rename-IsValid env new_addr old_addr grouped.backbone_hash grouped
          (group-IsValid env (env.crc16 new_addr) bla v)

end_period-IsValid :
    (env : Env) (g : BackboneGw) (bla : Bla)
    → IsValid env.crc16 bla
    → request_at g.self bla.backbone_hash ≡ some true
    → IsValid env.crc16 (end_period g bla)
unfolding end_period
end_period-IsValid env g bla v h =
    let wait = (g.wait_periods + 2 ^ 32 - 1) % 2 ^ 32 in
    let w =
      gw_write-IsValid env g.self (λ g. record g { wait_periods = wait }) bla
        (λ g. (refl, (refl, refl))) v in
    if_both (IsValid env.crc16) (not (wait == 0)) _ _ w (
      set_request-IsValid env g.self false _ w (
        request-gw_write g.self (λ g. record g { wait_periods = wait }) (λ g. (refl, refl)) g.self
          bla.backbone_hash
        ∙ h))

request_other :
    (p q : ℕ) (f : BackboneGw → BackboneGw)
    → ((g : BackboneGw) → (f g).self ≡ g.self)
    → q < p
    → (gs : List BackboneGw) → request_at q (gw_write p f gs) ≡ request_at q gs
unfolding gw_write
request_other p q f k h [] = refl
request_other p q f k h (g ∷ gs) = ground (arith, k g, request_other p q f k h gs)

heard : Env → BackboneGw → Bla → Bla
heard env g bla = send_announce env g.self (record bla {
  backbone_hash = gw_write g.self (λ g. record g { lasttime = env.now }) bla.backbone_hash;
})

heard-IsValid :
    (env : Env) (g : BackboneGw) (bla : Bla)
    → IsValid env.crc16 bla
    → IsValid env.crc16 (heard env g bla)
unfolding heard
heard-IsValid env g bla v = send_announce-IsValid env g.self _ (
    gw_write-IsValid env g.self (λ g. record g { lasttime = env.now }) bla
      (λ g. (refl, (refl, refl))) v)

request_heard :
    (env : Env) (g : BackboneGw) (bla : Bla) (q : ℕ)
    → request_at q (heard env g bla).backbone_hash ≡ request_at q bla.backbone_hash
unfolding heard
request_heard env g bla q =
    let (es, e) = send_announce_lem env g.self (record bla {
      backbone_hash = gw_write g.self (λ g. record g { lasttime = env.now }) bla.backbone_hash;
    }) in
    rw (e) (
      request-gw_write g.self (λ g. record g { lasttime = env.now }) (λ g. (refl, refl)) q
        bla.backbone_hash)

request-end_period :
    (g : BackboneGw) (bla : Bla) (q : ℕ)
    → q < g.self
    → request_at q (end_period g bla).backbone_hash ≡ request_at q bla.backbone_hash
unfolding end_period set_request
request-end_period g bla q h =
    let wait = (g.wait_periods + 2 ^ 32 - 1) % 2 ^ 32 in
    let f : BackboneGw → BackboneGw = λ g. record g { wait_periods = wait } in
    let e = request_other g.self q f (λ g. refl) h bla.backbone_hash in
    if_both (λ (after : Bla). request_at q after.backbone_hash ≡ request_at q bla.backbone_hash)
      (not (wait == 0)) _ _ e
      (request_other g.self q (λ g. record g { request_sent = false }) (λ g. refl) h _ ∙ e)

own_period-IsValid :
    (env : Env) (g : BackboneGw) (bla : Bla)
    → IsValid env.crc16 bla
    → request_at g.self bla.backbone_hash ≡ some g.request_sent
    → IsValid env.crc16 (own_period env g bla)
unfolding own_period heard
own_period-IsValid env g bla v h = elim (Bool-cases g.request_sent) [
  | inr e ↦ rw (e, own_period) (heard-IsValid env g bla v)
  | inl e ↦
      rw (e, own_period)
        (end_period-IsValid env g (heard env g bla) (heard-IsValid env g bla v)
          (request_heard env g bla g.self ∙ h ∙ ap some e))
]

request-own_period :
    (env : Env) (g : BackboneGw) (bla : Bla) (q : ℕ)
    → q < g.self
    → request_at q (own_period env g bla).backbone_hash ≡ request_at q bla.backbone_hash
unfolding own_period heard
request-own_period env g bla q h =
    if_both (λ (after : Bla). request_at q after.backbone_hash ≡ request_at q bla.backbone_hash)
      (not g.request_sent) (heard env g bla) (end_period g (heard env g bla))
      (request_heard env g bla q)
      (request-end_period g (heard env g bla) q h ∙ request_heard env g bla q)

periodic_loop-IsValid :
    (env : Env) (own n : ℕ) (todo : List BackboneGw) (bla : Bla)
    → IsValid env.crc16 bla
    → Below n todo
    → Ahead bla.backbone_hash todo
    → IsValid env.crc16 (periodic_loop env own todo bla)
unfolding periodic_loop
periodic_loop-IsValid env own n [] bla v b a = v
periodic_loop-IsValid env own n (g ∷ todo) bla v b a = elim (Bool-cases (g.orig == own)) [
  | inr e ↦ rw (e, periodic_loop) (periodic_loop-IsValid env own g.self todo bla v b.1 a.1)
  | inl e ↦
      rw (e, periodic_loop)
        (periodic_loop-IsValid env own g.self todo (own_period env g bla)
          (own_period-IsValid env g bla v a.0) b.1
          (Ahead-Below bla.backbone_hash (own_period env g bla).backbone_hash g.self
            (request-own_period env g bla) todo b.1 a.1))
]

pub periodic_work-IsValid :
    (env : Env) (enabled : Bool) (bla : Bla)
    → IsValid env.crc16 bla
    → IsValid env.crc16 (periodic_work env enabled bla)
unfolding periodic_work
periodic_work-IsValid env enabled bla v = elim (Option-cases env.primary_if) [
  | inl e ↦ rw (e, periodic_work) v
  | inr (own, e) ↦
      let claims = purge_claims_loop env (some own) false bla.claim_hash bla in
      let w =
        purge_backbone_gw-IsValid env false claims
          (purge_claims-IsValid env (some own) false bla.claim_hash bla v) in
      rw (e, periodic_work)
        (if_both (IsValid env.crc16) (not enabled) _ _ w
          (periodic_loop-IsValid env own _ _ _ w w.ordered (Ahead-start _ _ w.ordered)))
]
