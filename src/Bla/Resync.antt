-- ===== src/Bla/Resync.antt =====
-- A gateway that lost track of another one's claims asks for them, and gets them.
pub mod Lookup
pub mod Added
pub mod Receiver
pub mod Delivery
pub mod Sender
use Prim.Native.Nat.{bit_xor}
use mathlib.Core.Option.{some_inj}
use batman_adv.Common.{
  ℕ, ◌^◌, ◌<◌, ◌≡◌, refl, sym, ap, subst, ◌∙◌, Bool, true, false, not, ◌||◌, ◌&&◌, ◌==◌,
  if◌then◌else◌, arith, List, [], ◌∷◌, ◌++◌, Option, none, some, All, All-map, any, Option-cases,
  Bool-cases, inl, inr,
}
use batman_adv.Word.Xor.{zero-bit_xor}
use batman_adv.Bla.Claims.{
  Env, ClaimFrame, BackboneGw, Claim, Bla, Event, netif_rx, tt_global_del_orig, gw_at,
  without_owner,
}
use batman_adv.Bla.Claims.Crc.{claims_crc, crc-without_owner}
use batman_adv.Bla.Claims.Valid.{IsValid}
use batman_adv.Bla.Gateways.{vlan_tag, gw_find, answer_request, send_request}
use batman_adv.Bla.Gateways.Requests.{request_at}
use batman_adv.Bla.Gateways.Found.{send_request-IsValid}
use batman_adv.Bla.Frames.{process_frame, get_vid}
use batman_adv.Bla.Resync.Lookup.{find_self, gw_find-self, find-at}
use batman_adv.Bla.Resync.Added.{owner_is, owner-without}
use batman_adv.Bla.Resync.Receiver.{claim_frame, announce_frame, Ready, receive_announce}
use batman_adv.Bla.Resync.Delivery.{
  deliver, claim_frames, Once, Free, claimed, Delivered, all_claims,
}
use batman_adv.Bla.Resync.Sender.{CreatesArp, answer_sent, forgotten}

deliver-append :
    (env : Env) (own : ℕ) (xs ys : List Event) (bla : Bla)
    → deliver env own (xs ++ ys) bla ≡ deliver env own ys (deliver env own xs bla)
deliver-append env own [] ys bla = refl
deliver-append env own (netif_rx frame ∷ xs) ys bla = deliver-append env own xs ys _
deliver-append env own (tt_global_del_orig orig vid ∷ xs) ys bla = deliver-append env own xs ys bla

Free-without_owner : (g p vid : ℕ) (known cs : List Claim) → Free g p vid (without_owner p known) cs
Free-without_owner g p vid known [] = tt
Free-without_owner g p vid known (c ∷ cs) =
    ((λ h. owner-without p c.addr vid known), Free-without_owner g p vid known cs)

found_crc :
    (choose : ℕ → ℕ → ℕ) (k : ℕ → ℕ) (orig vid : ℕ) (gs : List BackboneGw) (g : BackboneGw)
    → gw_find choose orig vid gs ≡ some g
    → All (λ g. g.crc ≡ k g.self) gs
    → g.crc ≡ k g.self
unfolding gw_find
found_crc choose k orig vid [] g h s = absurd (ground arith)
found_crc choose k orig vid (d ∷ gs) g h s =
    elim (Bool-cases ((d.bucket == choose orig vid) && (d.orig == orig && d.vid == vid))) [
      | inl e ↦
          let same : some d ≡ some g = sym (rw (gw_find, e) refl) ∙ h in
          subst (λ (x : BackboneGw). x.crc ≡ k x.self) ((some_inj).0 same) s.0
      | inr e ↦ found_crc choose k orig vid gs g (sym (rw (gw_find, e) refl) ∙ h) s.1
    ]

-- What a gateway without claims has after those of another one came in.
delivered_crc :
    (crc16 : ℕ → ℕ) (p g : ℕ) (known start middle cs : List Claim)
    → start ≡ without_owner p known
    → claims_crc crc16 p middle ≡ bit_xor (claims_crc crc16 p start) (claims_crc crc16 g cs)
    → claims_crc crc16 p middle ≡ claims_crc crc16 g cs
delivered_crc crc16 p g known start middle cs s e =
    let none_left : claims_crc crc16 p start ≡ 0 =
      ap (claims_crc crc16 p) s ∙ crc-without_owner crc16 p p known ∙ ground arith in
    e ∙ ap (λ x. bit_xor x (claims_crc crc16 g cs)) none_left ∙ zero-bit_xor (claims_crc crc16 g cs)

-- The asking side, before the answer comes.
module _ (env : Env) (own sender vid : ℕ) (p q : BackboneGw) (bla : Bla) where
  asked-Ready :
      IsValid env.crc16 bla
      → gw_find env.choose_backbone_gw sender vid bla.backbone_hash ≡ some p
      → gw_find env.choose_backbone_gw own vid bla.backbone_hash ≡ some q
      → Ready env own sender vid bla.group p.self q.self (send_request env p.self bla)
  asked-Ready v fp fq =
      let at =
        (find-at env.choose_backbone_gw bla.next sender vid bla.backbone_hash p v.ordered fp).0 in
      let (c, (g, f)) = forgotten env p.self p bla at in
      record {
        grouped = g;
        sender_known =
            f sender vid ∙ gw_find-self env.choose_backbone_gw sender vid bla.backbone_hash p fp;
        own_known = f own vid ∙ gw_find-self env.choose_backbone_gw own vid bla.backbone_hash q fq;
      }

-- The knowledge of a's claims at a gateway after its request and the answer to it.
abbrev pub answered : Env → Env → ℕ → ℕ → ℕ → ℕ → Bla → Bla → Bla
answered env_a env_b a b vid p bla_a bla_b =
    deliver env_b b (answer_request env_a a vid (record bla_a { events = [] })).events
      (send_request env_b p bla_b)

module _ (env_a env_b : Env) (a b vid broadcast : ℕ) (bla_a bla_b : Bla) (g p q : BackboneGw) where
  announcement :
      (m : Bla)
      → get_vid (vlan_tag vid) ≡ vid
      → deliver env_b b (netif_rx (announce_frame broadcast a bla_b.group vid g.crc) ∷ []) m
        ≡ (process_frame env_b b vid (announce_frame broadcast a bla_b.group vid g.crc) m).1
  announcement m t =
      ap (λ v. (process_frame env_b b v (announce_frame broadcast a bla_b.group vid g.crc) m).1) t

  -- The tables of a gateway a and of one that asks it, b, are in order, each of the two finds its
  -- own entry on the VLAN and b finds one for a, in the buckets of their addresses, and they are in the
  -- same group. All claims of a are on
  -- the VLAN, each client once. If b asks for them, whatever it knew before, and the bridge carries
  -- the answer, then afterwards the request is no longer in flight at b, and b takes a client for
  -- claimed by a exactly if a claims it. No allocation is taken to fail.
  pub resync :
      env_a.primary_if ≡ some a
      → CreatesArp env_a broadcast
      → ((addr : ℕ) → env_b.claim_alloc addr ≡ true)
      → IsValid env_b.crc16 bla_a
      → IsValid env_b.crc16 bla_b
      → (a == b) ≡ false
      → bla_a.group ≡ bla_b.group
      → get_vid (vlan_tag vid) ≡ vid
      → g.crc < 2 ^ 16
      → gw_find env_a.choose_backbone_gw a vid bla_a.backbone_hash ≡ some g
      → gw_find env_b.choose_backbone_gw a vid bla_b.backbone_hash ≡ some p
      → gw_find env_b.choose_backbone_gw b vid bla_b.backbone_hash ≡ some q
      → All (λ c. c.backbone_gw ≡ g.self → c.vid ≡ vid) bla_a.claim_hash
      → Once g.self bla_a.claim_hash
      → let after = answered env_a env_b a b vid p.self bla_a bla_b in
        (request_at p.self after.backbone_hash ≡ some false)
        × ((addr : ℕ)
            → owner_is p.self addr vid after.claim_hash ≡ claimed g.self addr bla_a.claim_hash)
  resync primary arp alloc va vb n same t small ga pb qb vids once =
      let at =
        (find-at env_b.choose_backbone_gw bla_b.next a vid bla_b.backbone_hash p vb.ordered pb).0 in
      let start = send_request env_b p.self bla_b in
      let forgot = (forgotten env_b p.self p bla_b at).0 in
      let frames = claim_frames broadcast a bla_b.group vid g.self bla_a.claim_hash in
      let middle = deliver env_b b frames start in
      let d =
        all_claims env_b b a vid bla_b.group p.self q.self g.self broadcast bla_a.claim_hash start t
          alloc n once
          (subst (λ cs. Free g.self p.self vid cs bla_a.claim_hash) (sym forgot)
            (Free-without_owner g.self p.self vid bla_b.claim_hash bla_a.claim_hash))
          (asked-Ready env_b b a vid p q bla_b vb pb qb)
          (send_request-IsValid env_b p.self bla_b vb) in
      let last =
        receive_announce env_b b a vid bla_b.group p.self q.self broadcast g.crc middle n small
          d.valid
          (delivered_crc env_b.crc16 p.self g.self bla_b.claim_hash start.claim_hash
              middle.claim_hash bla_a.claim_hash forgot d.crc
            ∙ sym (
                found_crc env_a.choose_backbone_gw (λ r. claims_crc env_b.crc16 r bla_a.claim_hash)
                  a vid bla_a.backbone_hash g ga va.synced))
          d.ready in
      subst
        (λ (x : Bla).
          (request_at p.self x.backbone_hash ≡ some false)
          × ((addr : ℕ)
              → owner_is p.self addr vid x.claim_hash ≡ claimed g.self addr bla_a.claim_hash))
        (sym (
          ap (λ es. deliver env_b b es start)
            (answer_sent env_a a broadcast primary arp vid g bla_a va.ordered ga vids
              ∙ ap
                  (λ group.
                    claim_frames broadcast a group vid g.self bla_a.claim_hash
                    ++ (netif_rx (announce_frame broadcast a group vid g.crc) ∷ []))
                  same)
          ∙ deliver-append env_b b frames _ start
          ∙ announcement middle t))
        (
          last.0,
          λ addr.
              ap (owner_is p.self addr vid) last.1
              ∙ d.owners addr
              ∙ ap (λ cs. claimed g.self addr bla_a.claim_hash || owner_is p.self addr vid cs)
                  forgot
              ∙ ap (λ x. claimed g.self addr bla_a.claim_hash || x)
                  (owner-without p.self addr vid bla_b.claim_hash)
              ∙ ground arith,
        )
