-- ===== src/Bla/Gateways/Requests.antt =====
-- The number of requests that are in flight, and the gateways that have one.
use batman_adv.Common.{
  ℕ, ◌+◌, ◌-◌, ◌≤◌, ◌≡◌, refl, ◌∙◌, Bool, false, not, ◌==◌, if◌then◌else◌, arith, List, [], ◌∷◌,
  Option, none, some, All, Bool-cases, inl, inr,
}
use batman_adv.Bla.Claims.{Env, BackboneGw, Claim, Bla, gw_at, gw_write, without_owner}
use batman_adv.Bla.Claims.Crc.{claims_crc}
use batman_adv.Bla.Claims.Valid.{
  has_gw, Below, Owned, count_requests, IsValid, Below-gw_write, has-gw_write, Synced-gw_write,
}
use batman_adv.Bla.Claims.Steps.{Owned-kept}
use batman_adv.Bla.Gateways.{set_request, unlink_gw}

-- Whether the gateway at an address has a request in flight.
abbrev pub request_at : ℕ → List BackboneGw → Option Bool
request_at p [] = none
request_at p (g ∷ gs) = if g.self == p then some g.request_sent else request_at p gs

pub request-gw_at :
    (p : ℕ) (gs : List BackboneGw) (g : BackboneGw)
    → gw_at p gs ≡ some g
    → (request_at p gs ≡ some g.request_sent) × (g.self ≡ p)
unfolding gw_at
request-gw_at p [] g h = absurd (ground arith)
request-gw_at p (d ∷ gs) g h = ground (arith, request-gw_at p gs g)

pub Below-le : (m n : ℕ) (gs : List BackboneGw) → m ≤ n → Below m gs → Below n gs
Below-le m n [] h b = tt
Below-le m n (g ∷ gs) h b = (omega (arith, b.0), b.1)

pub Below-absent : (n p : ℕ) (gs : List BackboneGw) → Below n gs → n ≤ p → request_at p gs ≡ none
Below-absent n p [] b h = refl
Below-absent n p (g ∷ gs) b h =
    ground (arith, b.0, Below-absent g.self p gs b.1 (omega (arith, b.0)))

count_absent :
    (n p : ℕ) (sent : Bool) (gs : List BackboneGw)
    → Below n gs
    → n ≤ p
    → count_requests (gw_write p (λ g. record g { request_sent = sent }) gs) ≡ count_requests gs
unfolding gw_write
count_absent n p sent [] b h = refl
count_absent n p sent (g ∷ gs) b h =
    ground (arith, b.0, count_absent g.self p sent gs b.1 (omega (arith, b.0)))

abbrev one_if : Bool → ℕ
one_if b = if b then 1 else 0

count_write :
    (n p : ℕ) (old sent : Bool) (gs : List BackboneGw)
    → Below n gs
    → request_at p gs ≡ some old
    → count_requests (gw_write p (λ g. record g { request_sent = sent }) gs) + one_if old
      ≡ count_requests gs + one_if sent
unfolding gw_write
count_write n p old sent [] b h = absurd (ground arith)
count_write n p old sent (g ∷ gs) b h =
    ground (arith, b.0, count_absent g.self p sent gs b.1, count_write g.self p old sent gs b.1)

-- Setting a request that is not there, or taking back one that is, keeps the tables in order.
pub set_request-IsValid :
    (env : Env) (p : ℕ) (sent : Bool) (bla : Bla)
    → IsValid env.crc16 bla
    → request_at p bla.backbone_hash ≡ some (not sent)
    → IsValid env.crc16 (set_request p sent bla)
unfolding set_request
set_request-IsValid env p sent bla v h =
    let f : BackboneGw → BackboneGw = λ g. record g { request_sent = sent } in
    record {
      ordered = Below-gw_write p f (λ g. refl) bla.next bla.backbone_hash v.ordered;
      synced =
          Synced-gw_write p f (λ q. claims_crc env.crc16 q bla.claim_hash)
            (λ q. claims_crc env.crc16 q bla.claim_hash) (λ g h. ground (arith, h))
            bla.backbone_hash v.synced;
      owned =
          Owned-kept bla.backbone_hash (gw_write p f bla.backbone_hash)
            (λ q. has-gw_write p f (λ g. refl) q bla.backbone_hash) bla.claim_hash v.owned;
      counted =
          ground (
            arith,
            v.counted,
            count_write bla.next p (not sent) sent bla.backbone_hash v.ordered h,
          );
    }

count_unlink :
    (p : ℕ) (old : Bool) (gs : List BackboneGw)
    → request_at p gs ≡ some old
    → count_requests (unlink_gw p gs) + one_if old ≡ count_requests gs
unfolding unlink_gw
count_unlink p old [] h = absurd (ground arith)
count_unlink p old (g ∷ gs) h = ground (arith, count_unlink p old gs)

Below-unlink : (n p : ℕ) (gs : List BackboneGw) → Below n gs → Below n (unlink_gw p gs)
unfolding unlink_gw
Below-unlink n p [] b = tt
Below-unlink n p (g ∷ gs) b = elim (Bool-cases (g.self == p)) [
  | inl e ↦ rw (e) (Below-le g.self n gs (omega (arith, b.0)) b.1)
  | inr e ↦ rw (e) ((b.0, Below-unlink g.self p gs b.1))
]

pub All-unlink {ℓ} :
    (P : BackboneGw → Type ℓ) (p : ℕ) (gs : List BackboneGw) → All P gs → All P (unlink_gw p gs)
unfolding unlink_gw
All-unlink P p [] h = tt
All-unlink P p (g ∷ gs) h = elim (Bool-cases (g.self == p)) [
  | inl e ↦ rw (e) h.1
  | inr e ↦ rw (e) ((h.0, All-unlink P p gs h.1))
]

has_unlink :
    (p q : ℕ) (gs : List BackboneGw) → (q == p) ≡ false → has_gw q (unlink_gw p gs) ≡ has_gw q gs
unfolding unlink_gw
has_unlink p q [] h = refl
has_unlink p q (g ∷ gs) h = ground (arith, has_unlink p q gs h)

-- Claims that do not belong to the gateway stay with theirs.
Owned-unlink :
    (p : ℕ) (gs : List BackboneGw) (cs : List Claim)
    → Owned gs (without_owner p cs)
    → Owned (unlink_gw p gs) (without_owner p cs)
unfolding without_owner
Owned-unlink p gs [] = λ h. tt
Owned-unlink p gs (c ∷ cs) = elim (Bool-cases (c.backbone_gw == p)) [
  | inl e ↦ rw (e) (Owned-unlink p gs cs)
  | inr e ↦ rw (e) (λ h. (has_unlink p c.backbone_gw gs e ∙ h.0, Owned-unlink p gs cs h.1))
]

-- A gateway without claims leaves the table, and with it its request.
pub unlink-IsValid :
    (env : Env) (p : ℕ) (old : Bool) (cs : List Claim) (bla : Bla)
    → IsValid env.crc16 (record bla { claim_hash = without_owner p cs })
    → request_at p bla.backbone_hash ≡ some old
    → IsValid env.crc16 (record bla {
      claim_hash = without_owner p cs;
      num_requests = if old then bla.num_requests - 1 else bla.num_requests;
      backbone_hash = unlink_gw p bla.backbone_hash;
    })
unlink-IsValid env p old cs bla v h = record {
  ordered = Below-unlink bla.next p bla.backbone_hash v.ordered;
  synced = All-unlink _ p bla.backbone_hash v.synced;
  owned = Owned-unlink p bla.backbone_hash cs v.owned;
  counted = ground (arith, v.counted, count_unlink p old bla.backbone_hash h);
}

pub request-set :
    (p : ℕ) (old sent : Bool) (gs : List BackboneGw)
    → request_at p gs ≡ some old
    → request_at p (gw_write p (λ g. record g { request_sent = sent }) gs) ≡ some sent
unfolding gw_write
request-set p old sent [] h = absurd (ground arith)
request-set p old sent (g ∷ gs) h = ground (arith, request-set p old sent gs)
