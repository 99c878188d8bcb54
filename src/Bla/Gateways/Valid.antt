-- ===== src/Bla/Gateways/Valid.antt =====
-- The work on the table of gateways keeps the tables in order.
use batman_adv.Common.{
  ℕ, ◌+◌, ◌≤◌, ◌≡◌, refl, sym, ap, true, false, ◌==◌, arith, List, [], ◌∷◌, some, All-map,
  Option-cases, Bool-cases, inl, inr, ◌++◌, ==_iff,
}
use batman_adv.Bla.Claims.{Env, BackboneGw, Claim, Bla, Event, netif_rx, gw_at}
use batman_adv.Bla.Claims.Crc.{claims_crc}
use batman_adv.Bla.Claims.Valid.{has_gw, Below, Owned, IsValid}
use batman_adv.Bla.Claims.Steps.{gw_write-IsValid}
use batman_adv.Bla.Gateways.{
  set_request, send_claim, send_announce, new_gw, with_mac, vlan_tag, insert_gw, own_gw,
  bla_wait_periods,
}
use batman_adv.Bla.Gateways.Requests.{request_at, set_request-IsValid}

-- What is sent does not touch the tables.
abbrev pub with_events : List Event → Bla → Bla
with_events es bla = record bla { events = es }

pub events-IsValid :
    (env : Env) (es : List Event) (bla : Bla)
    → IsValid env.crc16 bla
    → IsValid env.crc16 (with_events es bla)
events-IsValid env es bla v = record {
  ordered = v.ordered;
  synced = v.synced;
  owned = v.owned;
  counted = v.counted;
}

-- Sending a claim frame or an announcement leaves everything but the events.
pub send_claim_lem :
    (env : Env) (mac vid claimtype : ℕ) (bla : Bla)
    → (es : List Event) × (send_claim env mac vid claimtype bla ≡ with_events es bla)
unfolding send_claim
send_claim_lem env mac vid claimtype bla = elim (Option-cases env.primary_if) [
  | inl e ↦ (bla.events, rw (e, send_claim) refl)
  | inr (own, e) ↦
      elim (Option-cases
        (env.arp_create own (record { claimtype = claimtype; group = bla.group }))) [
          | inl a ↦ (bla.events, rw (e, send_claim, a) refl)
          | inr (frame, a) ↦ (
            bla.events
                ++ (netif_rx (record (with_mac mac claimtype frame) { tag = vlan_tag vid }) ∷ []),
            rw (e, send_claim, a) refl,
          )
        ]
]

pub send_announce_lem :
    (env : Env) (p : ℕ) (bla : Bla)
    → (es : List Event) × (send_announce env p bla ≡ with_events es bla)
unfolding send_announce
send_announce_lem env p bla = elim (Option-cases (gw_at p bla.backbone_hash)) [
  | inl e ↦ (bla.events, rw (e, send_announce) refl)
  | inr (g, e) ↦ rw (e, send_announce) (send_claim_lem env _ g.vid _ bla)
]

pub send_claim-IsValid :
    (env : Env) (mac vid claimtype : ℕ) (bla : Bla)
    → IsValid env.crc16 bla
    → IsValid env.crc16 (send_claim env mac vid claimtype bla)
send_claim-IsValid env mac vid claimtype bla v =
    let (es, e) = send_claim_lem env mac vid claimtype bla in rw (e) (events-IsValid env es bla v)

pub send_announce-IsValid :
    (env : Env) (p : ℕ) (bla : Bla)
    → IsValid env.crc16 bla
    → IsValid env.crc16 (send_announce env p bla)
send_announce-IsValid env p bla v =
    let (es, e) = send_announce_lem env p bla in rw (e) (events-IsValid env es bla v)

-- A gateway at a new address owns no claim.
crc_unowned :
    (crc16 : ℕ → ℕ) (p : ℕ) (gs : List BackboneGw) (cs : List Claim)
    → has_gw p gs ≡ false
    → Owned gs cs
    → claims_crc crc16 p cs ≡ 0
unfolding claims_crc
crc_unowned crc16 p gs [] h o = refl
crc_unowned crc16 p gs (c ∷ cs) h o = elim (Bool-cases (c.backbone_gw == p)) [
  | inl e ↦
      let same : c.backbone_gw ≡ p = (==_iff c.backbone_gw p).0 e in
      absurd (ground (arith, ap (λ q. has_gw q gs) same, o.0, h))
  | inr e ↦ rw (e, claims_crc) (crc_unowned crc16 p gs cs h o.1)
]

has_absent : (n p : ℕ) (gs : List BackboneGw) → Below n gs → n ≤ p → has_gw p gs ≡ false
has_absent n p [] b h = refl
has_absent n p (g ∷ gs) b h = ground (arith, b.0, has_absent g.self p gs b.1)

pub insert_gw-IsValid :
    (env : Env) (orig vid : ℕ) (bla : Bla)
    → IsValid env.crc16 bla
    → IsValid env.crc16 (insert_gw env orig vid bla)
insert_gw-IsValid env orig vid bla v = elim (Bool-cases (env.orig_known orig)) [
  | inl e ↦ rw (e) (events-IsValid env _ _ inserted)
  | inr e ↦ rw (e) inserted
]
  where
    inserted : IsValid env.crc16 (record bla {
      backbone_hash = new_gw env bla.next orig vid ∷ bla.backbone_hash;
      next = bla.next + 1;
    })
    inserted = record {
      ordered = (omega arith, v.ordered);
      synced = (
        sym (
            crc_unowned env.crc16 bla.next bla.backbone_hash bla.claim_hash
              (has_absent bla.next bla.next bla.backbone_hash v.ordered (omega arith)) v.owned),
        v.synced,
      );
      owned = All-map (λ c h. ground (arith, h)) bla.claim_hash v.owned;
      counted = omega (arith, v.counted);
    }

pub own_gw-IsValid :
    (env : Env) (p : ℕ) (bla : Bla)
    → IsValid env.crc16 bla
    → request_at p bla.backbone_hash ≡ some false
    → IsValid env.crc16 (own_gw env p bla)
own_gw-IsValid env p bla v h =
    let (es, e) = send_announce_lem env p bla in
    gw_write-IsValid env p (λ g. record g { wait_periods = bla_wait_periods })
      (set_request p true (send_announce env p bla)) (λ g. (refl, (refl, refl)))
      (set_request-IsValid env p true (send_announce env p bla) (send_announce-IsValid env p bla v)
        (rw (e) h))
