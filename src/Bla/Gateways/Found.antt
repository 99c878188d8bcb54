-- ===== src/Bla/Gateways/Found.antt =====
-- Looking up, creating and purging gateways keeps the tables in order.
use batman_adv.Common.{
  ℕ, ◌≡◌, refl, ap, ◌∙◌, Bool, true, false, ◌==◌, arith, List, [], ◌∷◌, Option, none, some,
  Option-cases, Bool-cases, inl, inr,
}
use batman_adv.Bla.Claims.{
  Env, BackboneGw, Claim, Bla, gw_at, gw_write, touch_gw, del_backbone_claims,
}
use batman_adv.Bla.Claims.Valid.{has_gw, IsValid, has-gw_write}
use batman_adv.Bla.Claims.Steps.{del_backbone_claims-IsValid}
use batman_adv.Bla.Claims.Add.{touch_gw-IsValid}
use batman_adv.Bla.Gateways.{
  set_request, gw_find, get_backbone_gw, update_own_backbone_gw, insert_gw, own_gw,
  bla_wait_periods, answer_loop, answer_request, send_request,
}
use batman_adv.Bla.Gateways.Requests.{request_at, request-gw_at, set_request-IsValid}
use batman_adv.Bla.Gateways.Valid.{
  send_claim_lem, send_announce_lem, send_claim-IsValid, send_announce-IsValid, insert_gw-IsValid,
  own_gw-IsValid,
}

-- What `batadv_bla_get_backbone_gw` returns is in the table.
abbrev pub Known : Option ℕ → List BackboneGw → Type 0
Known none gs = Unit
Known (some p) gs = has_gw p gs ≡ true

abbrev pub Found : Env → Option ℕ × Bla → Type 0
Found env (entry, bla) = IsValid env.crc16 bla × Known entry bla.backbone_hash

find-has :
    (choose : ℕ → ℕ → ℕ) (orig vid : ℕ) (gs : List BackboneGw) (g : BackboneGw)
    → gw_find choose orig vid gs ≡ some g
    → has_gw g.self gs ≡ true
unfolding gw_find
find-has choose orig vid [] g h = absurd (ground arith)
find-has choose orig vid (d ∷ gs) g h = ground (arith, find-has choose orig vid gs g)

-- The new entry is there, without a request.
inserted :
    (env : Env) (orig vid : ℕ) (bla : Bla)
    → let gs = (insert_gw env orig vid bla).backbone_hash in
      (request_at bla.next gs ≡ some false) × (has_gw bla.next gs ≡ true)
inserted env orig vid bla = elim (Bool-cases (env.orig_known orig)) [
  | inl e ↦ rw (e) ((ground arith, ground arith))
  | inr e ↦ rw (e) ((ground arith, ground arith))
]

own_gw-has :
    (env : Env) (p q : ℕ) (bla : Bla)
    → has_gw q bla.backbone_hash ≡ true
    → has_gw q (own_gw env p bla).backbone_hash ≡ true
unfolding set_request
own_gw-has env p q bla h =
    let (es, e) = send_announce_lem env p bla in
    has-gw_write p (λ g. record g { wait_periods = bla_wait_periods }) (λ g. refl) q _
    ∙ has-gw_write p (λ g. record g { request_sent = true }) (λ g. refl) q _
    ∙ rw (e) h

pub get_backbone_gw-Found :
    (env : Env) (orig vid : ℕ) (own : Bool) (bla : Bla)
    → IsValid env.crc16 bla
    → Found env (get_backbone_gw env orig vid own bla)
unfolding get_backbone_gw
get_backbone_gw-Found env orig vid own bla v =
    elim (Option-cases (gw_find env.choose_backbone_gw orig vid bla.backbone_hash)) [
      | inr (g, e) ↦
          rw (e, get_backbone_gw)
            ((v, find-has env.choose_backbone_gw orig vid bla.backbone_hash g e))
      | inl e ↦ elim (Bool-cases (env.gw_alloc orig)) [
        | inr a ↦ rw (e, get_backbone_gw, a) ((v, tt))
        | inl a ↦ elim (Bool-cases own) [
          | inl o ↦
              rw (e, get_backbone_gw, a, o)
                ((
                  own_gw-IsValid env bla.next _ (insert_gw-IsValid env orig vid bla v)
                      (inserted env orig vid bla).0,
                  own_gw-has env bla.next bla.next _ (inserted env orig vid bla).1,
                ))
          | inr o ↦
              rw (e, get_backbone_gw, a, o)
                ((insert_gw-IsValid env orig vid bla v, (inserted env orig vid bla).1))
        ]
      ]
    ]

-- `batadv_bla_update_own_backbone_gw`
pub update_own-IsValid :
    (env : Env) (own vid : ℕ) (bla : Bla)
    → IsValid env.crc16 bla
    → IsValid env.crc16 (update_own_backbone_gw env own vid bla)
unfolding update_own_backbone_gw
update_own-IsValid env own vid bla v =
    touched (get_backbone_gw env own vid true bla) (get_backbone_gw-Found env own vid true bla v)
  where
    touched :
        (r : Option ℕ × Bla)
        → Found env r
        → IsValid env.crc16 (elim r.0 [
          | none ↦ r.1
          | some p ↦ record r.1 { backbone_hash = touch_gw env p r.1.backbone_hash }
        ])
    touched (none, bla) h = h.0
    touched (some p, bla) h = touch_gw-IsValid env p bla h.0

-- The answers to a request are only sent.
answer_loop-IsValid :
    (env : Env) (p : ℕ) (cs : List Claim) (bla : Bla)
    → IsValid env.crc16 bla
    → IsValid env.crc16 (answer_loop env p cs bla)
unfolding answer_loop
answer_loop-IsValid env p [] bla v = v
answer_loop-IsValid env p (c ∷ cs) bla v = elim (Bool-cases (c.backbone_gw == p)) [
  | inl e ↦
      rw (e, answer_loop)
        (answer_loop-IsValid env p cs _ (send_claim-IsValid env c.addr c.vid _ bla v))
  | inr e ↦ rw (e, answer_loop) (answer_loop-IsValid env p cs bla v)
]

pub answer_request-IsValid :
    (env : Env) (own vid : ℕ) (bla : Bla)
    → IsValid env.crc16 bla
    → IsValid env.crc16 (answer_request env own vid bla)
unfolding answer_request
answer_request-IsValid env own vid bla v =
    elim (Option-cases (gw_find env.choose_backbone_gw own vid bla.backbone_hash)) [
      | inl e ↦ rw (e, answer_request) v
      | inr (g, e) ↦
          rw (e, answer_request)
            (send_announce-IsValid env g.self _
              (answer_loop-IsValid env g.self bla.claim_hash bla v))
    ]

-- A write that keeps the requests.
pub request-gw_write :
    (p : ℕ) (f : BackboneGw → BackboneGw)
    → ((g : BackboneGw) → ((f g).self ≡ g.self) × ((f g).request_sent ≡ g.request_sent))
    → (q : ℕ) (gs : List BackboneGw) → request_at q (gw_write p f gs) ≡ request_at q gs
unfolding gw_write
request-gw_write p f k q [] = refl
request-gw_write p f k q (g ∷ gs) = ground (arith, k g, request-gw_write p f k q gs)

pub send_request-IsValid :
    (env : Env) (p : ℕ) (bla : Bla)
    → IsValid env.crc16 bla
    → IsValid env.crc16 (send_request env p bla)
unfolding send_request del_backbone_claims
send_request-IsValid env p bla v = elim (Option-cases (gw_at p bla.backbone_hash)) [
  | inl e ↦ rw (e, send_request) v
  | inr (g, e) ↦
      let (es, s) = send_claim_lem env g.orig g.vid 3 (del_backbone_claims p bla) in
      let sent =
        send_claim-IsValid env g.orig g.vid 3 _ (del_backbone_claims-IsValid env p bla v) in
      elim (Bool-cases g.request_sent) [
        | inl r ↦ rw (e, send_request, r) sent
        | inr r ↦
            rw (e, send_request, r)
              (set_request-IsValid env p true _ sent (
                rw (s) (
                  request-gw_write p (λ g. record g { crc = 0 }) (λ g. (refl, refl)) p
                    bla.backbone_hash
                  ∙ (request-gw_at p bla.backbone_hash g e).0
                  ∙ ap some r)))
      ]
]
