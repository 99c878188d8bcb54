-- ===== src/Bla/Resync/Lookup.antt =====
-- Which gateway a lookup finds, whatever is written to the gateways.
use Prim.Native.Nat.{bit_xor}
use batman_adv.Common.{
  ℕ, ◌<◌, ◌≡◌, refl, ap, ◌∙◌, Bool, true, ◌&&◌, ◌==◌, if◌then◌else◌, arith, List, [], ◌∷◌, Option,
  none, some, Option-cases, Bool-cases, inl, inr,
}
use batman_adv.Bla.Claims.{
  Env, BackboneGw, Bla, gw_at, gw_write, toggle_crc, touch_gw, claim_find, add_claim,
}
use batman_adv.Bla.Claims.Valid.{Synced, Below}
use batman_adv.Bla.Gateways.{gw_find, get_backbone_gw, update_own_backbone_gw}

-- The address of the structure that `batadv_backbone_hash_find` finds.
abbrev pub find_self : (ℕ → ℕ → ℕ) → ℕ → ℕ → List BackboneGw → Option ℕ
find_self choose orig vid [] = none
find_self choose orig vid (g ∷ gs) =
    if (g.bucket == choose orig vid) && (g.orig == orig && g.vid == vid)
    then some g.self
    else find_self choose orig vid gs

pub find_self_lem :
    (choose : ℕ → ℕ → ℕ) (orig vid : ℕ) (gs : List BackboneGw) (p : ℕ)
    → find_self choose orig vid gs ≡ some p
    → (g : BackboneGw) × ((gw_find choose orig vid gs ≡ some g) × (g.self ≡ p))
unfolding gw_find
find_self_lem choose orig vid [] p h = absurd (ground arith)
find_self_lem choose orig vid (g ∷ gs) p h =
    elim (Bool-cases ((g.bucket == choose orig vid) && (g.orig == orig && g.vid == vid))) [
      | inl e ↦ (g, (rw (e, gw_find) refl, ground (arith, e, h)))
      | inr e ↦
          let (d, (f, s)) = find_self_lem choose orig vid gs p (ground (arith, e, h)) in
          (d, (rw (e, gw_find) f, s))
    ]

pub gw_find-self :
    (choose : ℕ → ℕ → ℕ) (orig vid : ℕ) (gs : List BackboneGw) (g : BackboneGw)
    → gw_find choose orig vid gs ≡ some g
    → find_self choose orig vid gs ≡ some g.self
unfolding gw_find
gw_find-self choose orig vid [] g h = absurd (ground arith)
gw_find-self choose orig vid (d ∷ gs) g h = ground (arith, gw_find-self choose orig vid gs g)

-- A write that keeps the identity of a gateway.
abbrev pub KeepsKey : (BackboneGw → BackboneGw) → Type 0
KeepsKey f =
    (g : BackboneGw)
    → ((f g).self ≡ g.self)
      × (((f g).orig ≡ g.orig) × (((f g).vid ≡ g.vid) × ((f g).bucket ≡ g.bucket)))

pub find-gw_write :
    (p : ℕ) (f : BackboneGw → BackboneGw)
    → KeepsKey f
    → (choose : ℕ → ℕ → ℕ) (orig vid : ℕ) (gs : List BackboneGw)
    → find_self choose orig vid (gw_write p f gs) ≡ find_self choose orig vid gs
unfolding gw_write
find-gw_write p f k choose orig vid [] = refl
find-gw_write p f k choose orig vid (g ∷ gs) =
    ground (arith, k g, find-gw_write p f k choose orig vid gs)

-- What is found is in memory, with the checksum that the table has for it.
pub gw_at-find :
    (choose : ℕ → ℕ → ℕ) (k : ℕ → ℕ) (orig vid : ℕ) (gs : List BackboneGw) (p : ℕ)
    → find_self choose orig vid gs ≡ some p
    → Synced k gs
    → (g : BackboneGw) × ((gw_at p gs ≡ some g) × (g.crc ≡ k p))
unfolding gw_at
gw_at-find choose k orig vid [] p h s = absurd (ground arith)
gw_at-find choose k orig vid (g ∷ gs) p h s = elim (Bool-cases (g.self == p)) [
  | inl e ↦ (g, (rw (e, gw_at) refl, ground (arith, e, s.0)))
  | inr e ↦
      let (d, (f, c)) = gw_at-find choose k orig vid gs p (ground (arith, e, h)) s.1 in
      (d, (rw (e, gw_at) f, c))
]

-- Nothing is created where the gateway is known.
pub get_backbone_gw_known :
    (env : Env) (orig vid : ℕ) (own : Bool) (bla : Bla) (p : ℕ)
    → find_self env.choose_backbone_gw orig vid bla.backbone_hash ≡ some p
    → get_backbone_gw env orig vid own bla ≡ (some p, bla)
unfolding get_backbone_gw
get_backbone_gw_known env orig vid own bla p h =
    let (g, (f, s)) = find_self_lem env.choose_backbone_gw orig vid bla.backbone_hash p h in
    rw (get_backbone_gw, f, s) refl

pub update_own_known :
    (env : Env) (own vid : ℕ) (bla : Bla) (p : ℕ)
    → find_self env.choose_backbone_gw own vid bla.backbone_hash ≡ some p
    → update_own_backbone_gw env own vid bla
      ≡ record bla { backbone_hash = touch_gw env p bla.backbone_hash }
unfolding update_own_backbone_gw
update_own_known env own vid bla p h =
    ap
      (λ (r : Option ℕ × Bla). elim r.0 as (λ x. Bla) [
        | none ↦ r.1
        | some p ↦ record r.1 { backbone_hash = touch_gw env p r.1.backbone_hash }
      ])
      (get_backbone_gw_known env own vid true bla p h)

-- `batadv_bla_add_claim` writes only checksums and times to the gateways.
pub add_claim-find :
    (env : Env) (mac p orig vid v : ℕ) (bla : Bla)
    → (find_self env.choose_backbone_gw orig v (add_claim env mac vid p bla).backbone_hash
        ≡ find_self env.choose_backbone_gw orig v bla.backbone_hash)
      × ((add_claim env mac vid p bla).group ≡ bla.group)
unfolding add_claim touch_gw toggle_crc
add_claim-find env mac p orig vid v bla = elim (Option-cases (claim_find mac vid bla.claim_hash)) [
  | inl e ↦ elim (Bool-cases (env.claim_alloc mac)) [
    | inl a ↦ rw (add_claim, e, a) ((touched _ ∙ toggled p bla.backbone_hash, refl))
    | inr a ↦ rw (add_claim, e, a) ((refl, refl))
  ]
  | inr (c, e) ↦ elim (Bool-cases (c.backbone_gw == p)) [
    | inl a ↦ rw (add_claim, e, a) ((refl, refl))
    | inr a ↦
        rw (add_claim, e, a)
          ((touched _ ∙ toggled p _ ∙ toggled c.backbone_gw bla.backbone_hash, refl))
  ]
]
  where
    touched :
        (gs : List BackboneGw)
        → find_self env.choose_backbone_gw orig v (touch_gw env p gs)
          ≡ find_self env.choose_backbone_gw orig v gs
    touched =
        find-gw_write p (λ g. record g { lasttime = env.now }) (λ g. (refl, (refl, (refl, refl))))
          env.choose_backbone_gw orig v

    toggled :
        (r : ℕ) (gs : List BackboneGw)
        → find_self env.choose_backbone_gw orig v (toggle_crc env r mac gs)
          ≡ find_self env.choose_backbone_gw orig v gs
    toggled r =
        find-gw_write r (λ g. record g { crc = bit_xor g.crc (env.crc16 mac) })
          (λ g. (refl, (refl, (refl, refl)))) env.choose_backbone_gw orig v

-- The structure that is found is the one at its address.
pub find-at :
    (choose : ℕ → ℕ → ℕ) (n orig vid : ℕ) (gs : List BackboneGw) (g : BackboneGw)
    → Below n gs
    → gw_find choose orig vid gs ≡ some g
    → (gw_at g.self gs ≡ some g) × ((g.self < n) × (g.vid ≡ vid))
unfolding gw_find gw_at
find-at choose n orig vid [] g b h = absurd (ground arith)
find-at choose n orig vid (d ∷ gs) g b h =
    ground (arith, b.0, find-at choose d.self orig vid gs g b.1)
