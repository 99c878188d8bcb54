-- ===== src/Bla/Claims/Add.antt =====
-- `batadv_bla_add_claim` keeps the tables in order.
use Prim.Native.Nat.{bit_xor}
use batman_adv.Common.{
  ℕ, ◌≡◌, refl, sym, ◌∙◌, true, ◌==◌, List, ◌∷◌, some, All-map, Option-cases, Bool-cases, inl, inr,
}
use batman_adv.Bla.Claims.{
  Env, BackboneGw, Claim, Bla, claim_find, claim_update, gw_write, toggle_crc, touch_gw, add_claim,
}
use batman_adv.Bla.Claims.Crc.{claims_crc, toggled, crc_cons, crc-claim_update, crc_touch}
use batman_adv.Bla.Claims.Valid.{
  has_gw, Owned, IsValid, Below-gw_write, has-gw_write, count-gw_write, Synced-toggle,
}
use batman_adv.Bla.Claims.Steps.{Owned-kept, Owned-claim_update, gw_write-IsValid, toggle-IsValid}

-- The two writes that take an address from one gateway's checksum to another's.
move_crc :
    (env : Env) (p p' addr : ℕ) (bla : Bla) (cs : List Claim)
    → IsValid env.crc16 bla
    → ((q : ℕ)
        → claims_crc env.crc16 q cs
          ≡ toggled
              (p' == q)
              (toggled (p == q) (claims_crc env.crc16 q bla.claim_hash) (env.crc16 addr))
              (env.crc16 addr))
    → Owned bla.backbone_hash cs
    → IsValid env.crc16 (record bla {
      claim_hash = cs;
      backbone_hash = toggle_crc env p' addr (toggle_crc env p addr bla.backbone_hash);
    })
unfolding toggle_crc
move_crc env p p' addr bla cs v e o =
    let f : BackboneGw → BackboneGw = λ g. record g { crc = bit_xor g.crc (env.crc16 addr) } in
    let gs : List BackboneGw = gw_write p f bla.backbone_hash in
    let k : ℕ → ℕ =
      λ q. toggled (p == q) (claims_crc env.crc16 q bla.claim_hash) (env.crc16 addr) in
    record {
      ordered =
          Below-gw_write p' f (λ g. refl) bla.next gs
            (Below-gw_write p f (λ g. refl) bla.next bla.backbone_hash v.ordered);
      synced =
          Synced-toggle env p' addr k (λ q. claims_crc env.crc16 q cs) e gs
            (Synced-toggle env p addr (λ q. claims_crc env.crc16 q bla.claim_hash) k (λ q. refl)
              bla.backbone_hash v.synced);
      owned =
          Owned-kept bla.backbone_hash (gw_write p' f gs)
            (λ q.
              has-gw_write p' f (λ g. refl) q gs ∙ has-gw_write p f (λ g. refl) q bla.backbone_hash)
            cs o;
      counted =
          v.counted
          ∙ sym (
              count-gw_write p' f (λ g. refl) gs
              ∙ count-gw_write p f (λ g. refl) bla.backbone_hash);
    }

-- A claim is heard of again.
pub claim_touch-IsValid :
    (env : Env) (addr vid now : ℕ) (bla : Bla)
    → IsValid env.crc16 bla
    → IsValid env.crc16 (record bla {
      claim_hash = claim_update addr vid (λ c. record c { lasttime = now }) bla.claim_hash;
    })
claim_touch-IsValid env addr vid now bla v = record {
  ordered = v.ordered;
  synced =
      All-map (λ g h. h ∙ sym (crc_touch env.crc16 g.self addr vid now bla.claim_hash))
        bla.backbone_hash v.synced;
  owned =
      Owned-claim_update bla.backbone_hash addr vid (λ c. record c { lasttime = now }) (λ c o. o)
        bla.claim_hash v.owned;
  counted = v.counted;
}

pub touch_gw-IsValid :
    (env : Env) (p : ℕ) (bla : Bla)
    → IsValid env.crc16 bla
    → IsValid env.crc16 (record bla { backbone_hash = touch_gw env p bla.backbone_hash })
unfolding touch_gw
touch_gw-IsValid env p bla =
    gw_write-IsValid env p (λ g. record g { lasttime = env.now }) bla (λ g. (refl, (refl, refl)))

add_claim_new :
    (env : Env) (mac vid p : ℕ) (bla : Bla)
    → IsValid env.crc16 bla
    → has_gw p bla.backbone_hash ≡ true
    → let claim : Claim = record { addr = mac; vid = vid; backbone_gw = p; lasttime = env.now } in
      IsValid env.crc16 (record bla {
        claim_hash = claim ∷ bla.claim_hash;
        backbone_hash = toggle_crc env p mac bla.backbone_hash;
      })
add_claim_new env mac vid p bla v h =
    let claim : Claim = record { addr = mac; vid = vid; backbone_gw = p; lasttime = env.now } in
    toggle-IsValid env p mac bla (claim ∷ bla.claim_hash) v
      (λ q. crc_cons env.crc16 q claim bla.claim_hash) (h, v.owned)

add_claim_moved :
    (env : Env) (mac vid p : ℕ) (bla : Bla) (c : Claim)
    → IsValid env.crc16 bla
    → has_gw p bla.backbone_hash ≡ true
    → claim_find mac vid bla.claim_hash ≡ some c
    → IsValid env.crc16 (record bla {
      claim_hash =
          claim_update mac vid
            (λ c. record c { lasttime = env.now; backbone_gw = p })
            bla.claim_hash;
      backbone_hash = toggle_crc env p mac (toggle_crc env c.backbone_gw mac bla.backbone_hash);
    })
add_claim_moved env mac vid p bla c v h e =
    move_crc env c.backbone_gw p mac bla
      (claim_update mac vid (λ c. record c { lasttime = env.now; backbone_gw = p }) bla.claim_hash)
      v (λ q. crc-claim_update env.crc16 q mac vid p env.now bla.claim_hash c e)
      (Owned-claim_update bla.backbone_hash mac vid
        (λ c. record c { lasttime = env.now; backbone_gw = p }) (λ c o. h) bla.claim_hash v.owned)

pub add_claim-IsValid :
    (env : Env) (mac vid p : ℕ) (bla : Bla)
    → IsValid env.crc16 bla
    → has_gw p bla.backbone_hash ≡ true
    → IsValid env.crc16 (add_claim env mac vid p bla)
unfolding add_claim
add_claim-IsValid env mac vid p bla v h = elim (Option-cases (claim_find mac vid bla.claim_hash)) [
  | inl e ↦ elim (Bool-cases (env.claim_alloc mac)) [
    | inl a ↦ rw (e, a, add_claim) (touch_gw-IsValid env p _ (add_claim_new env mac vid p bla v h))
    | inr a ↦ rw (e, a, add_claim) v
  ]
  | inr (c, e) ↦ elim (Bool-cases (c.backbone_gw == p)) [
    | inl a ↦ rw (e, a, add_claim) (claim_touch-IsValid env mac vid env.now bla v)
    | inr a ↦
        rw (e, a, add_claim) (touch_gw-IsValid env p _ (add_claim_moved env mac vid p bla c v h e))
  ]
]
