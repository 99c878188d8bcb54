-- ===== src/Bla/Gateways/Purge.antt =====
-- Purging gateways keeps the tables in order.
use batman_adv.Common.{
  ℕ, ◌<◌, ◌≡◌, refl, ◌∙◌, Bool, false, ◌==◌, arith, List, [], ◌∷◌, some, All, Bool-cases, inl, inr,
}
use batman_adv.Bla.Claims.{Env, BackboneGw, Bla, gw_write, del_backbone_claims}
use batman_adv.Bla.Claims.Valid.{Below, IsValid}
use batman_adv.Bla.Claims.Steps.{del_backbone_claims-IsValid}
use batman_adv.Bla.Gateways.{unlink_gw, purge_gw, purge_loop, expired}
use batman_adv.Bla.Gateways.Requests.{request_at, unlink-IsValid}
use batman_adv.Bla.Gateways.Found.{request-gw_write}

-- The entries that a loop over the table still has before it are in the table, with their requests.
abbrev pub Ahead : List BackboneGw → List BackboneGw → Type 0
Ahead gs = All (λ g. request_at g.self gs ≡ some g.request_sent)

-- What happens to one gateway does not matter for those with a lower address.
pub Ahead-Below :
    (gs gs' : List BackboneGw) (n : ℕ)
    → ((q : ℕ) → q < n → request_at q gs' ≡ request_at q gs)
    → (todo : List BackboneGw) → Below n todo
    → Ahead gs todo
    → Ahead gs' todo
Ahead-Below gs gs' n e [] b h = tt
Ahead-Below gs gs' n e (g ∷ todo) b h =
    (e g.self b.0 ∙ h.0, Ahead-Below gs gs' n e todo (Below-weak g.self n todo b.0 b.1) h.1)
  where
    Below-weak : (m n : ℕ) (gs : List BackboneGw) → m < n → Below m gs → Below n gs
    Below-weak m n [] h b = tt
    Below-weak m n (g ∷ gs) h b = (omega (arith, b.0), b.1)

pub Ahead-start : (n : ℕ) (gs : List BackboneGw) → Below n gs → Ahead gs gs
Ahead-start n [] b = tt
Ahead-start n (g ∷ gs) b = (
  ground arith,
  Ahead-Below gs (g ∷ gs) g.self (λ q h. ground arith) gs b.1 (Ahead-start g.self gs b.1),
)

request_unlink :
    (p q : ℕ) (gs : List BackboneGw)
    → (q == p) ≡ false
    → request_at q (unlink_gw p gs) ≡ request_at q gs
unfolding unlink_gw
request_unlink p q [] h = refl
request_unlink p q (g ∷ gs) h = ground (arith, request_unlink p q gs h)

request-purge_gw :
    (g : BackboneGw) (bla : Bla) (q : ℕ)
    → q < g.self
    → request_at q (purge_gw g bla).backbone_hash ≡ request_at q bla.backbone_hash
unfolding purge_gw del_backbone_claims
request-purge_gw g bla q h =
    request_unlink g.self q _ (ground arith)
    ∙ request-gw_write g.self (λ g. record g { crc = 0 }) (λ g. (refl, refl)) q bla.backbone_hash

purge_gw-IsValid :
    (env : Env) (g : BackboneGw) (bla : Bla)
    → IsValid env.crc16 bla
    → request_at g.self bla.backbone_hash ≡ some g.request_sent
    → IsValid env.crc16 (purge_gw g bla)
unfolding purge_gw del_backbone_claims
purge_gw-IsValid env g bla v h =
    unlink-IsValid env g.self g.request_sent bla.claim_hash
      (record bla { backbone_hash = gw_write g.self (λ g. record g { crc = 0 }) bla.backbone_hash })
      (del_backbone_claims-IsValid env g.self bla v)
      (request-gw_write g.self (λ g. record g { crc = 0 }) (λ g. (refl, refl)) g.self
          bla.backbone_hash
        ∙ h)

pub purge_loop-IsValid :
    (env : Env) (now : Bool) (n : ℕ) (todo : List BackboneGw) (bla : Bla)
    → IsValid env.crc16 bla
    → Below n todo
    → Ahead bla.backbone_hash todo
    → IsValid env.crc16 (purge_loop env now todo bla)
unfolding purge_loop
purge_loop-IsValid env now n [] bla v b a = v
purge_loop-IsValid env now n (g ∷ todo) bla v b a = elim (Bool-cases (expired env now g)) [
  | inl e ↦
      rw (e, purge_loop)
        (purge_loop-IsValid env now g.self todo (purge_gw g bla) (purge_gw-IsValid env g bla v a.0)
          b.1
          (Ahead-Below bla.backbone_hash (purge_gw g bla).backbone_hash g.self
            (request-purge_gw g bla) todo b.1 a.1))
  | inr e ↦ rw (e, purge_loop) (purge_loop-IsValid env now g.self todo bla v b.1 a.1)
]

-- `batadv_bla_purge_backbone_gw`
pub purge_backbone_gw-IsValid :
    (env : Env) (now : Bool) (bla : Bla)
    → IsValid env.crc16 bla
    → IsValid env.crc16 (purge_loop env now bla.backbone_hash bla)
purge_backbone_gw-IsValid env now bla v =
    purge_loop-IsValid env now bla.next bla.backbone_hash bla v v.ordered
      (Ahead-start bla.next bla.backbone_hash v.ordered)
