-- ===== src/Bla/Claims/Crc.antt =====
-- The checksum of a gateway's claims, and what the writes to the table of claims do to it.
use Prim.Native.Nat.{bit_xor}
use batman_adv.Common.{ℕ, ◌≡◌, refl, Bool, ◌==◌, if◌then◌else◌, arith, List, [], ◌∷◌, some}
use batman_adv.Word.Xor.{bit_xor_cancel, bit_xor_swap}
use batman_adv.Bla.Claims.{Claim, claim_find, claim_update, claim_remove, without_owner}

-- What a gateway announces: the checksums of the addresses that it claims, combined by exclusive or.
unfoldable pub claims_crc : (ℕ → ℕ) → ℕ → List Claim → ℕ
claims_crc crc16 p [] = 0
claims_crc crc16 p (c ∷ cs) =
    if c.backbone_gw == p
    then bit_xor (claims_crc crc16 p cs) (crc16 c.addr)
    else claims_crc crc16 p cs

abbrev pub toggled : Bool → ℕ → ℕ → ℕ
toggled b x y = if b then bit_xor x y else x

module _ (crc16 : ℕ → ℕ) (p : ℕ) where
  pub crc_cons :
      (c : Claim) (cs : List Claim)
      → claims_crc crc16 p (c ∷ cs)
        ≡ toggled (c.backbone_gw == p) (claims_crc crc16 p cs) (crc16 c.addr)
  unfolding claims_crc
  crc_cons c cs = refl

  pub crc-remove :
      (addr vid : ℕ) (cs : List Claim) (c : Claim)
      → claim_find addr vid cs ≡ some c
      → claims_crc crc16 p (claim_remove addr vid cs)
        ≡ toggled (c.backbone_gw == p) (claims_crc crc16 p cs) (crc16 addr)
  unfolding claim_find claim_remove claims_crc
  crc-remove addr vid [] c h = absurd (ground arith)
  crc-remove addr vid (d ∷ cs) c h = ground (
    arith,
    crc-remove addr vid cs c,
    bit_xor_cancel (claims_crc crc16 p cs) (crc16 addr),
    bit_xor_swap (claims_crc crc16 p cs) (crc16 addr) (crc16 d.addr),
  )

  -- The claim goes from one gateway to another.
  pub crc-claim_update :
      (addr vid q now : ℕ) (cs : List Claim) (c : Claim)
      → claim_find addr vid cs ≡ some c
      → claims_crc crc16 p
          (claim_update addr vid (λ c. record c { lasttime = now; backbone_gw = q }) cs)
        ≡ toggled
            (q == p)
            (toggled (c.backbone_gw == p) (claims_crc crc16 p cs) (crc16 addr))
            (crc16 addr)
  unfolding claim_find claim_update claims_crc
  crc-claim_update addr vid q now [] c h = absurd (ground arith)
  crc-claim_update addr vid q now (d ∷ cs) c h = ground (
    arith,
    crc-claim_update addr vid q now cs c,
    bit_xor_cancel (claims_crc crc16 p cs) (crc16 addr),
    bit_xor_swap (claims_crc crc16 p cs) (crc16 addr) (crc16 d.addr),
    bit_xor_swap (bit_xor (claims_crc crc16 p cs) (crc16 d.addr)) (crc16 addr) (crc16 addr),
    bit_xor_cancel (bit_xor (claims_crc crc16 p cs) (crc16 d.addr)) (crc16 addr),
  )

  pub crc_touch :
      (addr vid now : ℕ) (cs : List Claim)
      → claims_crc crc16 p (claim_update addr vid (λ c. record c { lasttime = now }) cs)
        ≡ claims_crc crc16 p cs
  unfolding claim_update claims_crc
  crc_touch addr vid now [] = refl
  crc_touch addr vid now (d ∷ cs) = ground (arith, crc_touch addr vid now cs)

  pub crc-without_owner :
      (q : ℕ) (cs : List Claim)
      → claims_crc crc16 p (without_owner q cs) ≡ (if q == p then 0 else claims_crc crc16 p cs)
  unfolding without_owner claims_crc
  crc-without_owner q [] = ground arith
  crc-without_owner q (d ∷ cs) = ground (arith, crc-without_owner q cs)
