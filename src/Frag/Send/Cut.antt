-- ===== src/Frag/Send/Cut.antt =====
-- The fragments of a packet that was sent: their payloads, numbers and headers.
use batman_adv.Common.{
  ℕ, zero, suc, ◌+◌, ◌-◌, ◌*◌, ◌%◌, ◌^◌, ◌<◌, ◌≤◌, ◌≡◌, ◌≢◌, refl, sym, ◌∙◌, true, false, ltb,
  arith, List, [], ◌∷◌, ◌++◌, length, take, drop, min, All, append_assoc, append-nil,
  take-append-drop, length-take, length-append, All-append, All-map, length-drop, ltb→lt, subst,
  Bool-cases, inl, inr, Option-cases,
}
use batman_adv.Frag.{Fragment, header_size, max_fragments, max_frag_size}
use batman_adv.Frag.Receive.{payloads}
use batman_adv.Frag.Receive.Insert.{Desc}
use batman_adv.Frag.Receive.Chains.{Belongs, bytes}
use batman_adv.Frag.Send.{SkbSplit, Link, sent, fragment_room, first_header, send_loop, send_packet}

pub bytes-payloads : (fs : List Fragment) → bytes fs ≡ length (payloads fs)
bytes-payloads [] = refl
bytes-payloads (f ∷ fs) = omega (arith, length-append f.payload (payloads fs), bytes-payloads fs)

payloads-snoc :
    (fs : List Fragment) (f : Fragment) → payloads (fs ++ f ∷ []) ≡ payloads fs ++ f.payload
payloads-snoc [] f = append-nil f.payload
payloads-snoc (g ∷ fs) f = rw (payloads-snoc fs f, append_assoc)

-- The numbers descend from below `hi` to `lo`, and the headers are those of one packet.
pub record Cut (s total lo : ℕ) (skb : List ℕ) (fs : List Fragment) : Type 0 where
  pub joined : payloads fs ≡ skb
  pub desc : Desc (max_fragments - 1) fs
  pub above : All (λ f. lo ≤ f.no) fs
  pub belongs : All (Belongs s total) fs

Desc-snoc :
    (n : ℕ) (fs : List Fragment) (f : Fragment)
    → Desc n fs
    → f.no < n
    → All (λ g. f.no < g.no) fs
    → Desc n (fs ++ f ∷ [])
Desc-snoc n [] f d h a = (h, tt)
Desc-snoc n (g ∷ fs) f d h a = (d.0, Desc-snoc g.no fs f d.1 a.0 a.1)

Cut-snoc :
    (s total lo : ℕ) (rest tail : List ℕ) (fs : List Fragment) (f : Fragment)
    → Cut s total (suc lo) rest fs
    → Belongs s total f
    → f.no ≡ lo
    → lo < max_fragments - 1
    → f.payload ≡ tail
    → Cut s total lo (rest ++ tail) (fs ++ f ∷ [])
Cut-snoc s total lo rest tail fs f c b e h p = record {
  joined = rw (payloads-snoc fs f, c.joined, p);
  desc = Desc-snoc (max_fragments - 1) fs f c.desc (omega arith) (omega-above fs c.above);
  above = All-append (λ f. lo ≤ f.no) fs (f ∷ []) (weaken fs c.above) (omega arith, tt);
  belongs = All-append (Belongs s total) fs (f ∷ []) c.belongs (b, tt);
}
  where
    omega-above : (fs : List Fragment) → All (λ g. suc lo ≤ g.no) fs → All (λ g. f.no < g.no) fs
    omega-above fs = All-map (λ g q. omega arith) fs

    weaken : (fs : List Fragment) → All (λ g. suc lo ≤ g.no) fs → All (λ g. lo ≤ g.no) fs
    weaken fs = All-map (λ g q. omega arith) fs

module _ (sk : SkbSplit) (link : Link) (mtu : ℕ) (room : 0 < fragment_room mtu) where
  -- A round that finds the rest small enough.
  step_last :
      (fuel : ℕ) (skb : List ℕ) (h : Fragment) (done out : List Fragment)
      → ltb (fragment_room mtu) (length skb) ≡ false
      → send_loop sk (suc fuel) link mtu skb h done ≡ sent true out
      → out ≡ record h { payload = skb } ∷ done
  unfolding send_loop
  step_last fuel skb h done out t e = ground arith

  -- A round that cuts off a fragment.
  step_more :
      (fuel : ℕ) (skb : List ℕ) (h : Fragment) (done out : List Fragment)
      → ltb (fragment_room mtu) (length skb) ≡ true
      → send_loop sk (suc fuel) link mtu skb h done ≡ sent true out
      → let n = length skb - fragment_room mtu in
        (suc h.no ≢ max_fragments - 1)
        × (send_loop sk fuel link mtu
              (take n skb)
              (record h { no = suc h.no })
              (record h { payload = drop n skb } ∷ done)
            ≡ sent true out)
  unfolding send_loop
  step_more fuel skb h done out t e =
      ground (arith, sk.split_lem skb (length skb - fragment_room mtu))

  -- The fragments that a successful run of the loop has added.
  pub send_loop-Cut :
      (fuel : ℕ) (skb : List ℕ) (h : Fragment) (done out : List Fragment)
      → 0 < length skb
      → h.no < max_fragments - 1
      → send_loop sk fuel link mtu skb h done ≡ sent true out
      → (fs : List Fragment) × (out ≡ fs ++ done) × Cut h.seqno h.total_size h.no skb fs
  unfolding send_loop
  send_loop-Cut zero skb h done out len lo e = absurd (ground arith)
  send_loop-Cut (suc fuel) skb h done out len lo e =
      elim (Bool-cases (ltb (fragment_room mtu) (length skb))) [
        | inl t ↦
            let n = length skb - fragment_room mtu in
            let (ne, e') = step_more fuel skb h done out t e in
            let (fs, o, c) =
              send_loop-Cut fuel (take n skb) (record h { no = suc h.no })
                (record h { payload = drop n skb } ∷ done) out
                (omega (arith, length-take n skb, ltb→lt (fragment_room mtu) (length skb) t))
                (omega arith) e' in
            (
              fs ++ record h { payload = drop n skb } ∷ [],
              o ∙ sym (append_assoc fs _ done),
              subst
                  (λ z.
                    Cut h.seqno h.total_size h.no z (fs ++ record h { payload = drop n skb } ∷ []))
                  (take-append-drop n skb)
                  (Cut-snoc h.seqno h.total_size h.no (take n skb) (drop n skb) fs
                    (record h { payload = drop n skb }) c
                    (record {
                      seq = refl;
                      size = refl;
                      filled =
                          omega
                            (arith, length-drop n skb, ltb→lt (fragment_room mtu) (length skb) t);
                    })
                    refl lo refl),
            )
        | inr t ↦ (
          record h { payload = skb } ∷ [],
          step_last fuel skb h done out t e,
          record {
            joined = append-nil skb;
            desc = (lo, tt);
            above = (omega arith, tt);
            belongs = (record { seq = refl; size = refl; filled = len }, tt);
          },
        )
      ]

-- The header that `batadv_frag_send_packet` copies to every fragment.
abbrev pub packet_seqno : Link → ℕ
packet_seqno link = (link.frag_seqno + 1) % 2 ^ 16

module _ (sk : SkbSplit) (link : Link) (dest : ℕ) (skb : List ℕ) where
  -- A successful call passed the guards and ran the loop.
  send_packet_inv :
      (out : List Fragment)
      → send_packet sk link dest skb ≡ sent true out
      → (dev : ℕ) × (send_loop sk 15 link
            (min link.mtu max_frag_size)
            skb
            (first_header link dest skb dev)
            []
          ≡ sent true out)
        × (ltb (fragment_room (min link.mtu max_frag_size) * max_fragments % 2 ^ 32) (length skb)
            ≡ false)
  unfolding send_packet
  send_packet_inv out e = elim (Option-cases link.primary) [
    | inl p ↦ absurd (ground arith)
    | inr (dev, p) ↦ (dev, ground arith, ground arith)
  ]

  -- What a successful call sends is the packet, cut.
  pub send_packet-Cut :
      (out : List Fragment)
      → header_size < link.mtu
      → 0 < length skb
      → send_packet sk link dest skb ≡ sent true out
      → Cut (packet_seqno link) (length skb % 2 ^ 16) 0 skb out
        × (length skb ≤ fragment_room (min link.mtu max_frag_size) * max_fragments)
  send_packet-Cut out hm len e =
      let (dev, run, fits) = send_packet_inv out e in
      let (fs, o, c) =
        send_loop-Cut sk link (min link.mtu max_frag_size) (omega arith) 15 skb
          (first_header link dest skb dev) [] out len (omega arith) run in
      (
        subst (Cut (packet_seqno link) (length skb % 2 ^ 16) 0 skb) (sym (o ∙ append-nil fs)) c,
        ground arith,
      )
