-- ===== src/Bla/Resync/Delivery.antt =====
-- The claim frames that the bridge carries from one gateway to another.

use Prim.Native.Nat.{bit_xor}
use batman_adv.Common.{
  ℕ, ◌≡◌, refl, sym, ap, subst, ◌∙◌, Bool, true, false, ◌||◌, ◌&&◌, ◌==◌, if◌then◌else◌, arith,
  List, [], ◌∷◌, All, any, Bool-cases, inl, inr, ==_iff,
}
use batman_adv.Word.Xor.{bit_xor_assoc, bit_xor_comm, bit_xor-zero}
use batman_adv.Bla.Claims.{Env, Claim, Bla, Event, netif_rx, tt_global_del_orig}
use batman_adv.Bla.Claims.Crc.{claims_crc, crc_cons}
use batman_adv.Bla.Claims.Valid.{IsValid}
use batman_adv.Bla.Gateways.{vlan_tag}
use batman_adv.Bla.Frames.{process_frame, get_vid}
use batman_adv.Bla.Frames.Valid.{process_frame-IsValid}
use batman_adv.Bla.Resync.Added.{
  owner_is, claims_after, owner-claims_after, crc-claims_after, add_claim-claims,
}
use batman_adv.Bla.Resync.Receiver.{claim_frame, Ready, receive_claim, add_claim-Ready}

-- The bridge carries what one gateway sends to another one. The VLAN identifier is the one that the
-- receiver reads from the tag.
abbrev pub deliver : Env → ℕ → List Event → Bla → Bla
deliver env own [] bla = bla
deliver env own (netif_rx frame ∷ events) bla =
    deliver env own events (process_frame env own (get_vid frame.tag) frame bla).1
deliver env own (tt_global_del_orig orig vid ∷ events) bla = deliver env own events bla

-- The claims of the gateway g, as frames.
abbrev pub claim_frames : ℕ → ℕ → ℕ → ℕ → ℕ → List Claim → List Event
claim_frames broadcast sender group vid g [] = []
claim_frames broadcast sender group vid g (c ∷ cs) =
    if c.backbone_gw == g
    then netif_rx (claim_frame broadcast sender group vid c.addr)
      ∷ claim_frames broadcast sender group vid g cs
    else claim_frames broadcast sender group vid g cs

-- A client is among the claims of a gateway only once.
abbrev pub Once : ℕ → List Claim → Type 0
Once g [] = Unit
Once g (c ∷ cs) =
    (c.backbone_gw ≡ g → All (λ d. d.backbone_gw ≡ g → (c.addr == d.addr) ≡ false) cs) × Once g cs

-- No claim of g is one of p's yet.
abbrev pub Free : ℕ → ℕ → ℕ → List Claim → List Claim → Type 0
Free g p vid known = All (λ c. c.backbone_gw ≡ g → owner_is p c.addr vid known ≡ false)

abbrev pub claimed : ℕ → ℕ → List Claim → Bool
claimed g addr = any (λ c. c.backbone_gw == g && c.addr == addr)

module _ (env : Env) (own sender vid group p q g broadcast : ℕ) where
  -- What the receiver has after the frames for the claims cs of g.
  pub record Delivered (cs : List Claim) (before after : Bla) : Type 0 where
    pub ready : Ready env own sender vid group p q after
    pub valid : IsValid env.crc16 after
    pub crc :
        claims_crc env.crc16 p after.claim_hash
        ≡ bit_xor (claims_crc env.crc16 p before.claim_hash) (claims_crc env.crc16 g cs)
    pub owners :
        (addr : ℕ)
        → owner_is p addr vid after.claim_hash
          ≡ (claimed g addr cs || owner_is p addr vid before.claim_hash)

  abbrev one : ℕ → Bla → Bla
  one addr bla = (process_frame env own vid (claim_frame broadcast sender group vid addr) bla).1

  -- One frame.
  one_claims :
      (addr : ℕ) (bla : Bla)
      → ((a : ℕ) → env.claim_alloc a ≡ true)
      → (sender == own) ≡ false
      → Ready env own sender vid group p q bla
      → Ready env own sender vid group p q (one addr bla)
        × ((one addr bla).claim_hash ≡ claims_after env.now addr vid p bla.claim_hash)
  one_claims addr bla a s r =
      subst
        (λ (x : Bla).
          Ready env own sender vid group p q x
          × (x.claim_hash ≡ claims_after env.now addr vid p bla.claim_hash))
        (sym (
          ap (λ (x : Bool × Bla). x.1)
            (receive_claim env own sender vid group p q broadcast addr bla s r)))
        (
          add_claim-Ready env own sender vid group p q addr bla r,
          add_claim-claims env addr vid p _ (a addr),
        )

  crc_other :
      (c : Claim) (cs : List Claim)
      → (c.backbone_gw == g) ≡ false
      → claims_crc env.crc16 g (c ∷ cs) ≡ claims_crc env.crc16 g cs
  crc_other c cs e = ground (arith, e, crc_cons env.crc16 g c cs)

  crc_own :
      (x : ℕ) (c : Claim) (cs : List Claim)
      → (c.backbone_gw == g) ≡ true
      → bit_xor (bit_xor x (env.crc16 c.addr)) (claims_crc env.crc16 g cs)
        ≡ bit_xor x (claims_crc env.crc16 g (c ∷ cs))
  crc_own x c cs e = ground (
    arith,
    e,
    crc_cons env.crc16 g c cs,
    bit_xor_assoc x (env.crc16 c.addr) (claims_crc env.crc16 g cs),
    bit_xor_comm (env.crc16 c.addr) (claims_crc env.crc16 g cs),
  )

  deliver_own :
      (c : Claim) (cs : List Claim) (bla : Bla)
      → get_vid (vlan_tag vid) ≡ vid
      → (c.backbone_gw == g) ≡ true
      → deliver env own (claim_frames broadcast sender group vid g (c ∷ cs)) bla
        ≡ deliver env own (claim_frames broadcast sender group vid g cs) (one c.addr bla)
  deliver_own c cs bla t e = rw (e) (
      ap
        (λ v.
          deliver env own (claim_frames broadcast sender group vid g cs)
            (process_frame env own v (claim_frame broadcast sender group vid c.addr) bla).1)
        t)

  still_Free :
      (addr : ℕ) (bla after : Bla) (cs : List Claim)
      → after.claim_hash ≡ claims_after env.now addr vid p bla.claim_hash
      → All (λ d. d.backbone_gw ≡ g → (addr == d.addr) ≡ false) cs
      → Free g p vid bla.claim_hash cs
      → Free g p vid after.claim_hash cs
  still_Free addr bla after [] e o f = tt
  still_Free addr bla after (d ∷ cs) e o f = (
    λ h.
        ap (owner_is p d.addr vid) e
        ∙ owner-claims_after env.now addr d.addr vid p bla.claim_hash
        ∙ ground (arith, o.0 h, f.0 h),
    still_Free addr bla after cs e o.1 f.1,
  )

  pub all_claims :
      (cs : List Claim) (bla : Bla)
      → get_vid (vlan_tag vid) ≡ vid
      → ((a : ℕ) → env.claim_alloc a ≡ true)
      → (sender == own) ≡ false
      → Once g cs
      → Free g p vid bla.claim_hash cs
      → Ready env own sender vid group p q bla
      → IsValid env.crc16 bla
      → Delivered cs bla (deliver env own (claim_frames broadcast sender group vid g cs) bla)
  unfolding claims_crc
  all_claims [] bla t a s o f r v = record {
    ready = r;
    valid = v;
    crc = sym (bit_xor-zero (claims_crc env.crc16 p bla.claim_hash));
    owners = λ addr. refl;
  }
  all_claims (c ∷ cs) bla t a s o f r v = elim (Bool-cases (c.backbone_gw == g)) [
    | inr e ↦
        let d = all_claims cs bla t a s o.1 f.1 r v in
        subst (Delivered (c ∷ cs) bla) (rw (e) refl) (record {
          ready = d.ready;
          valid = d.valid;
          crc =
              d.crc ∙ ap (bit_xor (claims_crc env.crc16 p bla.claim_hash)) (sym (crc_other c cs e));
          owners = λ addr. d.owners addr ∙ ground (arith, e);
        })
    | inl e ↦
        let same = (==_iff c.backbone_gw g).0 e in
        let (ready, added) = one_claims c.addr bla a s r in
        let d =
          all_claims cs (one c.addr bla) t a s o.1
            (still_Free c.addr bla (one c.addr bla) cs added (o.0 same) f.1) ready
            (process_frame-IsValid env own vid _ bla v) in
        let before =
          ap (claims_crc env.crc16 p) added
          ∙ crc-claims_after env.crc16 env.now c.addr vid p bla.claim_hash (f.0 same) in
        subst (Delivered (c ∷ cs) bla) (sym (deliver_own c cs bla t e)) (record {
          ready = d.ready;
          valid = d.valid;
          crc =
              d.crc
              ∙ ap (λ x. bit_xor x (claims_crc env.crc16 g cs)) before
              ∙ crc_own (claims_crc env.crc16 p bla.claim_hash) c cs e;
          owners = λ addr.
              d.owners addr
              ∙ ap (λ x. claimed g addr cs || owner_is p addr vid x) added
              ∙ ap (λ x. claimed g addr cs || x)
                  (owner-claims_after env.now c.addr addr vid p bla.claim_hash)
              ∙ ground (arith, e);
        })
  ]
