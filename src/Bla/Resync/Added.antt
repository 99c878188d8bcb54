-- ===== src/Bla/Resync/Added.antt =====
-- The claims of a gateway while claim frames of it come in.
use Prim.Native.Nat.{bit_xor}
use batman_adv.Common.{
  ℕ, ◌≡◌, refl, sym, ◌∙◌, Bool, true, false, ◌||◌, ◌==◌, if◌then◌else◌, arith, List, [], ◌∷◌, none,
  some, Option-cases, Bool-cases, inl, inr,
}
use batman_adv.Bla.Claims.{Env, Claim, Bla, claim_find, claim_update, add_claim, without_owner}
use batman_adv.Bla.Claims.Crc.{claims_crc, crc_cons, crc-claim_update}

-- Whether the client is claimed by the gateway at p.
unfoldable pub owner_is : ℕ → ℕ → ℕ → List Claim → Bool
unfolding claim_find
owner_is p addr vid cs = elim (claim_find addr vid cs) [
  | none ↦ false
  | some c ↦ c.backbone_gw == p
]

pub owner-without :
    (p addr vid : ℕ) (cs : List Claim) → owner_is p addr vid (without_owner p cs) ≡ false
unfolding owner_is without_owner claim_find
owner-without p addr vid [] = refl
owner-without p addr vid (c ∷ cs) = ground (arith, owner-without p addr vid cs)

-- What `batadv_bla_add_claim` makes of the claims.
pub claims_after : ℕ → ℕ → ℕ → ℕ → List Claim → List Claim
claims_after now mac vid p cs = elim (claim_find mac vid cs) [
  | none ↦ record { addr = mac; vid = vid; backbone_gw = p; lasttime = now } ∷ cs
  | some c ↦
      if c.backbone_gw == p
      then claim_update mac vid (λ c. record c { lasttime = now }) cs
      else claim_update mac vid (λ c. record c { lasttime = now; backbone_gw = p }) cs
]

pub add_claim-claims :
    (env : Env) (mac vid p : ℕ) (bla : Bla)
    → env.claim_alloc mac ≡ true
    → (add_claim env mac vid p bla).claim_hash ≡ claims_after env.now mac vid p bla.claim_hash
unfolding add_claim claims_after
add_claim-claims env mac vid p bla a = elim (Option-cases (claim_find mac vid bla.claim_hash)) [
  | inl e ↦ rw (add_claim, claims_after, e, a) refl
  | inr (c, e) ↦ elim (Bool-cases (c.backbone_gw == p)) [
    | inl d ↦ rw (add_claim, claims_after, e, d) refl
    | inr d ↦ rw (add_claim, claims_after, e, d) refl
  ]
]

find_update :
    (mac addr vid : ℕ) (f : Claim → Claim)
    → ((c : Claim) → ((f c).addr ≡ c.addr) × ((f c).vid ≡ c.vid))
    → (cs : List Claim) (d : Claim) → claim_find mac vid cs ≡ some d
    → claim_find addr vid (claim_update mac vid f cs)
      ≡ (if mac == addr then some (f d) else claim_find addr vid cs)
unfolding claim_find claim_update
find_update mac addr vid f k [] d h = absurd (ground arith)
find_update mac addr vid f k (c ∷ cs) d h =
    ground (arith, k c, k d, find_update mac addr vid f k cs d)

-- The client belongs to the gateway now, and every other client to whom it did.
pub owner-claims_after :
    (now mac addr vid p : ℕ) (cs : List Claim)
    → owner_is p addr vid (claims_after now mac vid p cs) ≡ (mac == addr || owner_is p addr vid cs)
unfolding owner_is claims_after claim_find
owner-claims_after now mac addr vid p cs = elim (Option-cases (claim_find mac vid cs)) [
  | inl e ↦ rw (claims_after, e) (ground arith)
  | inr (c, e) ↦
      let touched =
        find_update mac addr vid (λ c. record c { lasttime = now }) (λ c. (refl, refl)) cs c e in
      let moved =
        find_update mac addr vid (λ c. record c { lasttime = now; backbone_gw = p })
          (λ c. (refl, refl)) cs c e in
      elim (Bool-cases (c.backbone_gw == p)) [
        | inl d ↦ rw (claims_after, e, d, owner_is, touched) (ground (arith, d))
        | inr d ↦ rw (claims_after, e, d, owner_is, moved) (ground (arith, d))
      ]
]

-- The checksum takes the address in, unless the client belonged to the gateway before.
pub crc-claims_after :
    (crc16 : ℕ → ℕ) (now mac vid p : ℕ) (cs : List Claim)
    → owner_is p mac vid cs ≡ false
    → claims_crc crc16 p (claims_after now mac vid p cs)
      ≡ bit_xor (claims_crc crc16 p cs) (crc16 mac)
unfolding owner_is claims_after
crc-claims_after crc16 now mac vid p cs h = elim (Option-cases (claim_find mac vid cs)) [
  | inl e ↦
      rw (claims_after, e)
        (ground (
          arith,
          crc_cons crc16 p (record { addr = mac; vid = vid; backbone_gw = p; lasttime = now }) cs,
        ))
  | inr (c, e) ↦
      let d : (c.backbone_gw == p) ≡ false = sym (rw (owner_is, e) refl) ∙ h in
      rw (claims_after, e, d) (ground (arith, d, crc-claim_update crc16 p mac vid p now cs c e))
]
