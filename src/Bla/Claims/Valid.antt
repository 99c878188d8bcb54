-- ===== src/Bla/Claims/Valid.antt =====
-- What holds of the tables of claims and gateways at all times.
use Prim.Native.Nat.{bit_xor}
use batman_adv.Common.{
  ℕ, ◌+◌, ◌<◌, ◌≡◌, refl, Bool, true, ◌==◌, if◌then◌else◌, arith, List, [], ◌∷◌, All, any,
}
use batman_adv.Bla.Claims.{Env, BackboneGw, Claim, Bla, gw_write, toggle_crc}
use batman_adv.Bla.Claims.Crc.{claims_crc, toggled}

abbrev pub has_gw : ℕ → List BackboneGw → Bool
has_gw p = any (λ g. g.self == p)

-- No two gateways have the same address, and all are below n.
abbrev pub Below : ℕ → List BackboneGw → Type 0
Below n [] = Unit
Below n (g ∷ gs) = (g.self < n) × Below g.self gs

-- The gateways carry the checksums that k has for them.
abbrev pub Synced : (ℕ → ℕ) → List BackboneGw → Type 0
Synced k = All (λ g. g.crc ≡ k g.self)

-- Every claim belongs to a gateway of the table.
abbrev pub Owned : List BackboneGw → List Claim → Type 0
Owned gs = All (λ c. has_gw c.backbone_gw gs ≡ true)

abbrev pub count_requests : List BackboneGw → ℕ
count_requests [] = 0
count_requests (g ∷ gs) = (if g.request_sent then 1 else 0) + count_requests gs

-- The checksum of a gateway is the one of its claims, a claim has a gateway of the table, and
-- `num_requests` is the number of gateways with a request.
pub record IsValid (crc16 : ℕ → ℕ) (bla : Bla) : Type 0 where
  pub ordered : Below bla.next bla.backbone_hash
  pub synced : Synced (λ p. claims_crc crc16 p bla.claim_hash) bla.backbone_hash
  pub owned : Owned bla.backbone_hash bla.claim_hash
  pub counted : bla.num_requests ≡ count_requests bla.backbone_hash

-- A write that leaves the address, the checksum and the request alone.
abbrev pub Keeps : (BackboneGw → BackboneGw) → Type 0
Keeps f =
    (g : BackboneGw)
    → ((f g).self ≡ g.self) × (((f g).crc ≡ g.crc) × ((f g).request_sent ≡ g.request_sent))

module _ (p : ℕ) (f : BackboneGw → BackboneGw) where
  pub Below-gw_write :
      ((g : BackboneGw) → (f g).self ≡ g.self)
      → (n : ℕ) (gs : List BackboneGw) → Below n gs
      → Below n (gw_write p f gs)
  unfolding gw_write
  Below-gw_write k n [] h = tt
  Below-gw_write k n (g ∷ gs) h =
      let e : (if g.self == p then f g else g).self ≡ g.self = ground (arith, k g) in
      rw (e) ((h.0, Below-gw_write k g.self gs h.1))

  pub has-gw_write :
      ((g : BackboneGw) → (f g).self ≡ g.self)
      → (q : ℕ) (gs : List BackboneGw) → has_gw q (gw_write p f gs) ≡ has_gw q gs
  unfolding gw_write
  has-gw_write k q [] = refl
  has-gw_write k q (g ∷ gs) = ground (arith, k g, has-gw_write k q gs)

  pub count-gw_write :
      ((g : BackboneGw) → (f g).request_sent ≡ g.request_sent)
      → (gs : List BackboneGw) → count_requests (gw_write p f gs) ≡ count_requests gs
  unfolding gw_write
  count-gw_write k [] = refl
  count-gw_write k (g ∷ gs) = ground (arith, k g, count-gw_write k gs)

  pub Synced-gw_write :
      (k k' : ℕ → ℕ)
      → ((g : BackboneGw)
          → g.crc ≡ k g.self
          → (if g.self == p then f g else g).crc ≡ k' (if g.self == p then f g else g).self)
      → (gs : List BackboneGw) → Synced k gs
      → Synced k' (gw_write p f gs)
  unfolding gw_write
  Synced-gw_write k k' s [] h = tt
  Synced-gw_write k k' s (g ∷ gs) h = (s g h.0, Synced-gw_write k k' s gs h.1)

pub Synced-toggle :
    (env : Env) (p addr : ℕ) (k k' : ℕ → ℕ)
    → ((q : ℕ) → k' q ≡ toggled (p == q) (k q) (env.crc16 addr))
    → (gs : List BackboneGw) → Synced k gs
    → Synced k' (toggle_crc env p addr gs)
unfolding toggle_crc
Synced-toggle env p addr k k' e =
    Synced-gw_write p (λ g. record g { crc = bit_xor g.crc (env.crc16 addr) }) k k'
      (λ g h. ground (arith, h, e g.self))
