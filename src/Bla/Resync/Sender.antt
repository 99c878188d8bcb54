-- ===== src/Bla/Resync/Sender.antt =====
-- What a gateway sends when it is asked for its claims, and what the asking one has forgotten.
use batman_adv.Common.{
  ℕ, ◌+◌, ◌*◌, ◌^◌, ◌≡◌, refl, sym, ap, ◌∙◌, true, ◌==◌, List, [], ◌∷◌, ◌++◌, append_assoc,
  append-nil, none, some, All, Bool-cases, inl, inr, ==_iff,
}
use batman_adv.Bla.Claims.{
  Env, ClaimDst, BackboneGw, Claim, Bla, Event, netif_rx, log, gw_at, without_owner,
  del_backbone_claims,
}
use batman_adv.Bla.Gateways.{
  announce_mac, gw_find, send_claim, send_announce, answer_loop, answer_request, send_request,
  set_request,
}
use batman_adv.Bla.Claims.Valid.{Below}
use batman_adv.Bla.Gateways.Valid.{with_events, send_claim_lem}
use batman_adv.Bla.Resync.Lookup.{find_self, find-gw_write, find-at}
use batman_adv.Bla.Resync.Receiver.{claim_frame, announce_frame}
use batman_adv.Bla.Resync.Delivery.{claim_frames}

-- What `arp_create` is documented to do, as it is called here: the destination is the broadcast
-- address, and the source address stands in both headers.
abbrev pub CreatesArp : Env → ℕ → Type 0
CreatesArp env broadcast =
    (source : ℕ) (dst : ClaimDst)
    → env.arp_create source dst
      ≡ some (record {
        h_source = source;
        h_dest = broadcast;
        hw_src = source;
        hw_dst = dst;
        tag = none;
      })

module _ (env : Env) (own broadcast : ℕ) (primary : env.primary_if ≡ some own)
    (arp : CreatesArp env broadcast) where
  send_claim_frame :
      (mac vid : ℕ) (bla : Bla)
      → send_claim env mac vid 0 bla
        ≡ log (netif_rx (claim_frame broadcast own bla.group vid mac)) bla
  unfolding send_claim
  send_claim_frame mac vid bla =
      rw (send_claim, primary, arp own (record { claimtype = 0; group = bla.group })) refl

  send_announce_frame :
      (crc vid : ℕ) (bla : Bla)
      → send_claim env (announce_mac * 2 ^ 16 + crc) vid 2 bla
        ≡ log (netif_rx (announce_frame broadcast own bla.group vid crc)) bla
  unfolding send_claim
  send_announce_frame crc vid bla =
      rw (send_claim, primary, arp own (record { claimtype = 2; group = bla.group })) refl

  answer_loop_lem :
      (p vid : ℕ) (cs : List Claim) (bla : Bla)
      → All (λ c. c.backbone_gw ≡ p → c.vid ≡ vid) cs
      → answer_loop env p cs bla
        ≡ with_events (bla.events ++ claim_frames broadcast own bla.group vid p cs) bla
  unfolding answer_loop
  answer_loop_lem p vid [] bla h = ap (λ es. with_events es bla) (sym (append-nil bla.events))
  answer_loop_lem p vid (c ∷ cs) bla h = elim (Bool-cases (c.backbone_gw == p)) [
    | inr e ↦ rw (answer_loop, e) (answer_loop_lem p vid cs bla h.1)
    | inl e ↦
        rw (answer_loop, e)
          (ap (answer_loop env p cs) (
              send_claim_frame c.addr c.vid bla
              ∙ ap (λ v. log (netif_rx (claim_frame broadcast own bla.group v c.addr)) bla)
                  (h.0 ((==_iff c.backbone_gw p).0 e)))
            ∙ answer_loop_lem p vid cs
                (log (netif_rx (claim_frame broadcast own bla.group vid c.addr)) bla) h.1
            ∙ ap (λ es. with_events es bla)
                (append_assoc bla.events
                  (netif_rx (claim_frame broadcast own bla.group vid c.addr) ∷ [])
                  (claim_frames broadcast own bla.group vid p cs)))
  ]

  -- The answer to a request: a frame for each claim of our gateway, and its checksum.
  pub answer_sent :
      (vid : ℕ) (g : BackboneGw) (bla : Bla)
      → Below bla.next bla.backbone_hash
      → gw_find env.choose_backbone_gw own vid bla.backbone_hash ≡ some g
      → All (λ c. c.backbone_gw ≡ g.self → c.vid ≡ vid) bla.claim_hash
      → (answer_request env own vid (record bla { events = [] })).events
        ≡ claim_frames broadcast own bla.group vid g.self bla.claim_hash
          ++ (netif_rx (announce_frame broadcast own bla.group vid g.crc) ∷ [])
  unfolding answer_request send_announce
  answer_sent vid g bla b f h =
      let (at, (l, v)) = find-at env.choose_backbone_gw bla.next own vid bla.backbone_hash g b f in
      let frames = claim_frames broadcast own bla.group vid g.self bla.claim_hash in
      rw (answer_request, f)
        (ap (λ (x : Bla). (send_announce env g.self x).events)
            (answer_loop_lem g.self vid bla.claim_hash (record bla { events = [] }) h)
          ∙ announced g.vid v frames at)
    where
      announced :
          (w : ℕ)
          → w ≡ vid
          → (frames : List Event) → gw_at g.self bla.backbone_hash ≡ some (record g { vid = w })
          → (send_announce env g.self (with_events frames bla)).events
            ≡ frames ++ (netif_rx (announce_frame broadcast own bla.group vid g.crc) ∷ [])
      announced w e frames a =
          rw (send_announce, a)
            (ap (λ (x : Bla). x.events) (send_announce_frame g.crc w (with_events frames bla))
              ∙ ap (λ v. frames ++ (netif_rx (announce_frame broadcast own bla.group v g.crc) ∷ []))
                  e)

-- The asking gateway forgets the claims of the other one.
pub forgotten :
    (env : Env) (p : ℕ) (g : BackboneGw) (bla : Bla)
    → gw_at p bla.backbone_hash ≡ some g
    → ((send_request env p bla).claim_hash ≡ without_owner p bla.claim_hash)
      × (((send_request env p bla).group ≡ bla.group)
          × ((orig vid : ℕ)
              → find_self env.choose_backbone_gw orig vid (send_request env p bla).backbone_hash
                ≡ find_self env.choose_backbone_gw orig vid bla.backbone_hash))
unfolding send_request del_backbone_claims set_request
forgotten env p g bla h =
    let (es, s) = send_claim_lem env g.orig g.vid 3 (del_backbone_claims p bla) in
    let cleared =
      find-gw_write p (λ g. record g { crc = 0 }) (λ g. (refl, (refl, (refl, refl))))
        env.choose_backbone_gw in
    let asked =
      find-gw_write p (λ g. record g { request_sent = true }) (λ g. (refl, (refl, (refl, refl))))
        env.choose_backbone_gw in
    elim (Bool-cases g.request_sent) [
      | inl r ↦
          rw (send_request, h, s, r)
            ((refl, (refl, λ orig vid. cleared orig vid bla.backbone_hash)))
      | inr r ↦
          rw (send_request, h, s, r)
            ((refl, (refl, λ orig vid. asked orig vid _ ∙ cleared orig vid bla.backbone_hash)))
    ]
