-- ===== src/Bla/Claims/Steps.antt =====
-- `batadv_bla_del_claim` and `batadv_bla_del_backbone_claims` keep the tables in order.
use Prim.Native.Nat.{bit_xor}
use batman_adv.Common.{
  ℕ, ◌≡◌, refl, sym, ◌∙◌, true, ◌==◌, arith, List, [], ◌∷◌, All-map, Option-cases, Bool-cases, inl,
  inr,
}
use batman_adv.Bla.Claims.{
  Env, BackboneGw, Claim, Bla, compare_claim, claim_find, claim_update, claim_remove, without_owner,
  gw_write, toggle_crc, del_claim, del_backbone_claims,
}
use batman_adv.Bla.Claims.Crc.{claims_crc, toggled, crc-remove, crc-without_owner}
use batman_adv.Bla.Claims.Valid.{
  has_gw, Owned, IsValid, Keeps, Below-gw_write, has-gw_write, count-gw_write, Synced-gw_write,
  Synced-toggle,
}

-- What the claims need of the gateways: only which addresses are there.
pub Owned-kept :
    (gs gs' : List BackboneGw)
    → ((q : ℕ) → has_gw q gs' ≡ has_gw q gs)
    → (cs : List Claim) → Owned gs cs
    → Owned gs' cs
Owned-kept gs gs' e = All-map (λ c h. e c.backbone_gw ∙ h)

-- A write that keeps what counts.
pub gw_write-IsValid :
    (env : Env) (p : ℕ) (f : BackboneGw → BackboneGw) (bla : Bla)
    → Keeps f
    → IsValid env.crc16 bla
    → IsValid env.crc16 (record bla { backbone_hash = gw_write p f bla.backbone_hash })
gw_write-IsValid env p f bla k v = record {
  ordered = Below-gw_write p f (λ g. (k g).0) bla.next bla.backbone_hash v.ordered;
  synced =
      Synced-gw_write p f (λ q. claims_crc env.crc16 q bla.claim_hash)
        (λ q. claims_crc env.crc16 q bla.claim_hash) (λ g h. ground (arith, h, (k g).0, (k g).1.0))
        bla.backbone_hash v.synced;
  owned =
      Owned-kept bla.backbone_hash (gw_write p f bla.backbone_hash)
        (λ q. has-gw_write p f (λ g. (k g).0) q bla.backbone_hash) bla.claim_hash v.owned;
  counted = v.counted ∙ sym (count-gw_write p f (λ g. (k g).1.1) bla.backbone_hash);
}

-- The checksums follow a change of the claims, one address at a time.
pub toggle-IsValid :
    (env : Env) (p addr : ℕ) (bla : Bla) (cs : List Claim)
    → IsValid env.crc16 bla
    → ((q : ℕ)
        → claims_crc env.crc16 q cs
          ≡ toggled (p == q) (claims_crc env.crc16 q bla.claim_hash) (env.crc16 addr))
    → Owned bla.backbone_hash cs
    → IsValid env.crc16
        (record bla { claim_hash = cs; backbone_hash = toggle_crc env p addr bla.backbone_hash })
unfolding toggle_crc
toggle-IsValid env p addr bla cs v e o =
    let f : BackboneGw → BackboneGw = λ g. record g { crc = bit_xor g.crc (env.crc16 addr) } in
    record {
      ordered = Below-gw_write p f (λ g. refl) bla.next bla.backbone_hash v.ordered;
      synced =
          Synced-toggle env p addr (λ q. claims_crc env.crc16 q bla.claim_hash)
            (λ q. claims_crc env.crc16 q cs) e bla.backbone_hash v.synced;
      owned =
          Owned-kept bla.backbone_hash (gw_write p f bla.backbone_hash)
            (λ q. has-gw_write p f (λ g. refl) q bla.backbone_hash) cs o;
      counted = v.counted ∙ sym (count-gw_write p f (λ g. refl) bla.backbone_hash);
    }

pub Owned-claim_update :
    (gs : List BackboneGw) (addr vid : ℕ) (f : Claim → Claim)
    → ((c : Claim) → has_gw c.backbone_gw gs ≡ true → has_gw (f c).backbone_gw gs ≡ true)
    → (cs : List Claim) → Owned gs cs
    → Owned gs (claim_update addr vid f cs)
unfolding claim_update
Owned-claim_update gs addr vid f k [] h = tt
Owned-claim_update gs addr vid f k (c ∷ cs) h = elim (Bool-cases (compare_claim addr vid c)) [
  | inl e ↦ rw (e) (k c h.0, h.1)
  | inr e ↦ rw (e) (h.0, Owned-claim_update gs addr vid f k cs h.1)
]

Owned-claim_remove :
    (gs : List BackboneGw) (addr vid : ℕ) (cs : List Claim)
    → Owned gs cs
    → Owned gs (claim_remove addr vid cs)
unfolding claim_remove
Owned-claim_remove gs addr vid [] h = tt
Owned-claim_remove gs addr vid (c ∷ cs) h = elim (Bool-cases (compare_claim addr vid c)) [
  | inl e ↦ rw (e) h.1
  | inr e ↦ rw (e) (h.0, Owned-claim_remove gs addr vid cs h.1)
]

Owned-without_owner :
    (gs : List BackboneGw) (p : ℕ) (cs : List Claim) → Owned gs cs → Owned gs (without_owner p cs)
unfolding without_owner
Owned-without_owner gs p [] h = tt
Owned-without_owner gs p (c ∷ cs) h = elim (Bool-cases (c.backbone_gw == p)) [
  | inl e ↦ rw (e) (Owned-without_owner gs p cs h.1)
  | inr e ↦ rw (e) (h.0, Owned-without_owner gs p cs h.1)
]

pub del_claim-IsValid :
    (env : Env) (mac vid : ℕ) (bla : Bla)
    → IsValid env.crc16 bla
    → IsValid env.crc16 (del_claim env mac vid bla)
unfolding del_claim
del_claim-IsValid env mac vid bla v = elim (Option-cases (claim_find mac vid bla.claim_hash)) [
  | inl e ↦ rw (e, del_claim) v
  | inr (c, e) ↦
      rw (e, del_claim)
        (toggle-IsValid env c.backbone_gw mac bla (claim_remove mac vid bla.claim_hash) v
          (λ q. crc-remove env.crc16 q mac vid bla.claim_hash c e)
          (Owned-claim_remove bla.backbone_hash mac vid bla.claim_hash v.owned))
]

pub del_backbone_claims-IsValid :
    (env : Env) (p : ℕ) (bla : Bla)
    → IsValid env.crc16 bla
    → IsValid env.crc16 (del_backbone_claims p bla)
unfolding del_backbone_claims
del_backbone_claims-IsValid env p bla v =
    let f : BackboneGw → BackboneGw = λ g. record g { crc = 0 } in
    let cs : List Claim = without_owner p bla.claim_hash in
    record {
      ordered = Below-gw_write p f (λ g. refl) bla.next bla.backbone_hash v.ordered;
      synced =
          Synced-gw_write p f (λ q. claims_crc env.crc16 q bla.claim_hash)
            (λ q. claims_crc env.crc16 q cs)
            (λ g h. ground (arith, h, crc-without_owner env.crc16 g.self p bla.claim_hash))
            bla.backbone_hash v.synced;
      owned =
          Owned-kept bla.backbone_hash (gw_write p f bla.backbone_hash)
            (λ q. has-gw_write p f (λ g. refl) q bla.backbone_hash) cs
            (Owned-without_owner bla.backbone_hash p bla.claim_hash v.owned);
      counted = v.counted ∙ sym (count-gw_write p f (λ g. refl) bla.backbone_hash);
    }
