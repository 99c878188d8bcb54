-- ===== src/Bla/Resync/Receiver.antt =====
-- What the receiver of claim frames and of an announcement does, where it knows the sender.
use batman_adv.Common.{
  ℕ, ◌+◌, ◌*◌, ◌/◌, ◌%◌, ◌^◌, ◌<◌, ◌≡◌, refl, sym, ap, subst, ◌∙◌, Bool, true, false, ◌==◌, ltb,
  if◌then◌else◌, arith, Option, none, some, Bool-cases, inl, inr,
}
use batman_adv.Bla.Claims.{Env, ClaimFrame, BackboneGw, Bla, gw_at, touch_gw, add_claim}
use batman_adv.Bla.Claims.Crc.{claims_crc}
use batman_adv.Bla.Claims.Valid.{IsValid}
use batman_adv.Bla.Claims.Add.{touch_gw-IsValid}
use batman_adv.Bla.Gateways.{
  announce_mac, type_claim, type_announce, vlan_tag, get_backbone_gw, update_own_backbone_gw,
  set_request,
}
use batman_adv.Bla.Gateways.Requests.{request_at, request-gw_at, request-set}
use batman_adv.Bla.Frames.{
  backbone_of, check_claim_group, dispatch, handle_claim, handle_announce, check_announce,
  process_frame,
}
use batman_adv.Bla.Resync.Lookup.{
  find_self, find-gw_write, gw_at-find, add_claim-find, get_backbone_gw_known, update_own_known,
}

-- The frames for a claim and for an announcement, as `batadv_bla_send_claim` makes them.
abbrev pub claim_frame : ℕ → ℕ → ℕ → ℕ → ℕ → ClaimFrame
claim_frame broadcast sender group vid addr = record {
  h_source = addr;
  h_dest = broadcast;
  hw_src = sender;
  hw_dst = record { claimtype = type_claim; group = group };
  tag = vlan_tag vid;
}

abbrev pub announce_frame : ℕ → ℕ → ℕ → ℕ → ℕ → ClaimFrame
announce_frame broadcast sender group vid crc = record {
  h_source = sender;
  h_dest = broadcast;
  hw_src = announce_mac * 2 ^ 16 + crc;
  hw_dst = record { claimtype = type_announce; group = group };
  tag = vlan_tag vid;
}

module _ (env : Env) (own sender vid group p q : ℕ) where
  -- The receiver is in the group of the sender and knows it as the gateway p on the VLAN, and its own
  -- gateway there is q.
  pub record Ready (bla : Bla) : Type 0 where
    pub grouped : bla.group ≡ group
    pub sender_known : find_self env.choose_backbone_gw sender vid bla.backbone_hash ≡ some p
    pub own_known : find_self env.choose_backbone_gw own vid bla.backbone_hash ≡ some q

  abbrev touched : Bla → Bla
  touched bla = record bla { backbone_hash = touch_gw env q bla.backbone_hash }

  touched-Ready : (bla : Bla) → Ready bla → Ready (touched bla)
  unfolding touch_gw
  touched-Ready bla r =
      let keep =
        find-gw_write q (λ g. record g { lasttime = env.now }) (λ g. (refl, (refl, (refl, refl))))
          env.choose_backbone_gw in
      record {
        grouped = r.grouped;
        sender_known = keep sender vid bla.backbone_hash ∙ r.sender_known;
        own_known = keep own vid bla.backbone_hash ∙ r.own_known;
      }

  same_group :
      (frame : ClaimFrame) (bla : Bla)
      → backbone_of frame ≡ some sender
      → (sender == own) ≡ false
      → frame.hw_dst.group ≡ group
      → Ready bla
      → check_claim_group env own frame bla ≡ (2, bla)
  unfolding check_claim_group
  same_group frame bla b s g r =
      let e : (frame.hw_dst.group == bla.group) ≡ true = ground (arith, g, r.grouped) in
      rw (check_claim_group, b, s, e) refl

  process_known :
      (frame : ClaimFrame) (bla : Bla)
      → backbone_of frame ≡ some sender
      → (sender == own) ≡ false
      → frame.hw_dst.group ≡ group
      → Ready bla
      → process_frame env own vid frame bla ≡ (true, dispatch env own frame vid (touched bla))
  unfolding process_frame
  process_known frame bla b s g r =
      ap
        (λ (x : ℕ × Bla).
          if ltb x.0 2
          then (x.0 == 1, x.1)
          else (true, dispatch env own frame vid (update_own_backbone_gw env own vid x.1)))
        (same_group frame bla b s g r)
      ∙ ap (λ after. (true, dispatch env own frame vid after))
          (update_own_known env own vid bla q r.own_known)

  pub receive_claim :
      (broadcast addr : ℕ) (bla : Bla)
      → (sender == own) ≡ false
      → Ready bla
      → process_frame env own vid (claim_frame broadcast sender group vid addr) bla
        ≡ (true, add_claim env addr vid p (touched bla))
  unfolding dispatch handle_claim
  receive_claim broadcast addr bla s r =
      process_known (claim_frame broadcast sender group vid addr) bla refl s refl r
      ∙ ap
          (λ (x : Option ℕ × Bla). (
            true,
            elim x.0 as (λ o. Bla) [
              | none ↦ x.1
              | some p ↦
                  if sender == own
                  then batman_adv.Bla.Gateways.send_claim env addr vid type_claim
                      (add_claim env addr vid p x.1)
                  else add_claim env addr vid p x.1
            ],
          ))
          (get_backbone_gw_known env sender vid false (touched bla) p
            (touched-Ready bla r).sender_known)
      ∙ rw (s) refl

  pub add_claim-Ready :
      (addr : ℕ) (bla : Bla) → Ready bla → Ready (add_claim env addr vid p (touched bla))
  add_claim-Ready addr bla r =
      let t = touched-Ready bla r in
      record {
        grouped = (add_claim-find env addr p sender vid vid (touched bla)).1 ∙ t.grouped;
        sender_known = (add_claim-find env addr p sender vid vid (touched bla)).0 ∙ t.sender_known;
        own_known = (add_claim-find env addr p own vid vid (touched bla)).0 ∙ t.own_known;
      }

  -- An announcement with the checksum that the receiver has ends the request.
  announced :
      (crc : ℕ) (bla : Bla) (g : BackboneGw)
      → gw_at p (touch_gw env p bla.backbone_hash) ≡ some g
      → g.crc ≡ crc
      → (request_at p (check_announce env crc p bla).backbone_hash ≡ some false)
        × ((check_announce env crc p bla).claim_hash ≡ bla.claim_hash)
  unfolding check_announce set_request
  announced crc bla g e c =
      let touched_twice : Bla = record bla { backbone_hash = touch_gw env p bla.backbone_hash } in
      let same : (g.crc == crc) ≡ true = ground (arith, c) in
      let (r, s) = request-gw_at p touched_twice.backbone_hash g e in
      elim (Bool-cases g.request_sent) [
        | inl b ↦
            rw (check_announce, e, same, b)
              ((request-set p _ false touched_twice.backbone_hash r, refl))
        | inr b ↦ rw (check_announce, e, same, b) ((r ∙ ap some b, refl))
      ]

  handled :
      (crc : ℕ) (bla : Bla)
      → crc < 2 ^ 16
      → find_self env.choose_backbone_gw sender vid bla.backbone_hash ≡ some p
      → (handle_announce env (announce_mac * 2 ^ 16 + crc) sender vid bla).1
        ≡ check_announce env crc p bla
  unfolding handle_announce
  handled crc bla h f =
      let a : ((announce_mac * 2 ^ 16 + crc) / 2 ^ 16 == announce_mac) ≡ true = ground arith in
      let b : (announce_mac * 2 ^ 16 + crc) % 2 ^ 16 ≡ crc = omega arith in
      rw (handle_announce, a)
        (ap
            (λ (x : Option ℕ × Bla).
              (elim x.0 as (λ o. Bool × Bla) [
                | none ↦ (true, x.1)
                | some p ↦ (true, check_announce env ((announce_mac * 2 ^ 16 + crc) % 2 ^ 16) p x.1)
              ]).1)
            (get_backbone_gw_known env sender vid false bla p f)
          ∙ ap (λ n. check_announce env n p bla) b)

  -- What an announcement does when the claims of the sender are known.
  pub receive_announce :
      (broadcast crc : ℕ) (bla : Bla)
      → (sender == own) ≡ false
      → crc < 2 ^ 16
      → IsValid env.crc16 bla
      → claims_crc env.crc16 p bla.claim_hash ≡ crc
      → Ready bla
      → let after =
          (process_frame env own vid (announce_frame broadcast sender group vid crc) bla).1 in
        (request_at p after.backbone_hash ≡ some false) × (after.claim_hash ≡ bla.claim_hash)
  unfolding dispatch handle_announce
  receive_announce broadcast crc bla s h v k r =
      let frame = announce_frame broadcast sender group vid crc in
      let t = touched-Ready bla r in
      let w = touch_gw-IsValid env q bla v in
      let u = touch_gw-IsValid env p (touched bla) w in
      let (g, (e, c)) =
        gw_at-find env.choose_backbone_gw (λ r. claims_crc env.crc16 r bla.claim_hash) sender vid
          (touch_gw env p (touched bla).backbone_hash) p
          (find-gw_write p (λ g. record g { lasttime = env.now })
              (λ g. (refl, (refl, (refl, refl)))) env.choose_backbone_gw sender vid
              (touched bla).backbone_hash
            ∙ t.sender_known)
          u.synced in
      let same =
        ap (λ (x : Bool × Bla). x.1) (process_known frame bla refl s refl r)
        ∙ handled crc (touched bla) h t.sender_known in
      subst
        (λ (x : Bla). (request_at p x.backbone_hash ≡ some false) × (x.claim_hash ≡ bla.claim_hash))
        (sym same) (announced crc (touched bla) g e (c ∙ k))
