-- ===== src/Frag/Send/Limit.antt =====
-- How large a packet batadv_frag_send_packet can send, and that its loop ends.
use batman_adv.Common.{
  ℕ, zero, suc, ◌+◌, ◌-◌, ◌*◌, ◌<◌, ◌≤◌, ◌≡◌, ◌≢◌, refl, true, false, arith, List, [], ◌∷◌, some,
  length, take, drop, min, length-take, inl, inr, dec_lt, ◌∙◌, Option-cases,
}
use batman_adv.Frag.{Fragment, header_size, max_fragments, max_frag_size}
use batman_adv.Frag.Send.{
  SkbSplit, Link, sent, no_fuel, fragment_room, frag_create, send_loop, send_packet, first_header,
}

rest_fits : (fuel r n : ℕ) → r < n → n ≤ r * suc fuel → (0 < fuel) × (n - r ≤ r * fuel)
rest_fits zero r n h k = absurd (grind arith)
rest_fits (suc fuel) r n h k = (omega arith, grind arith)

rest_too_long : (fuel r n : ℕ) → r * suc (suc fuel) < n → (r < n) × (r * suc fuel < n - r)
rest_too_long fuel r n h = (grind arith, grind arith)

module _ (sk : SkbSplit) (link : Link) where
  module _ (mtu : ℕ) where
    loop_ends :
        (fuel : ℕ) (skb : List ℕ) (h : Fragment) (done : List Fragment)
        → h.no + fuel ≡ max_fragments - 1
        → 0 < fuel
        → send_loop sk fuel link mtu skb h done ≢ no_fuel
    unfolding send_loop frag_create
    loop_ends zero skb h done e pos = absurd (omega arith)
    loop_ends (suc fuel) skb h done e pos = ground (
      arith,
      loop_ends fuel (sk.split skb (length skb - fragment_room mtu)).0 (record h { no = suc h.no })
          (record h { payload = (sk.split skb (length skb - fragment_room mtu)).1 } ∷ done),
    )

  module _ (mtu : ℕ) (alloc : (k : ℕ) → link.alloc k ≡ true) where
    cut_off : List ℕ → Fragment → Fragment
    cut_off skb h = record h { payload = drop (length skb - fragment_room mtu) skb }

    -- A round that cuts off a fragment and goes on.
    round_more :
        (fuel : ℕ) (skb : List ℕ) (h : Fragment) (done : List Fragment)
        → fragment_room mtu < length skb
        → suc h.no ≢ max_fragments - 1
        → send_loop sk (suc fuel) link mtu skb h done
          ≡ send_loop sk fuel link mtu
              (take (length skb - fragment_room mtu) skb)
              (record h { no = suc h.no })
              (cut_off skb h ∷ done)
    unfolding send_loop frag_create cut_off
    round_more fuel skb h done more ne =
        ground (arith, alloc h.no, sk.split_lem skb (length skb - fragment_room mtu))

    -- A round that cuts off a fragment and gives up.
    round_stop :
        (fuel : ℕ) (skb : List ℕ) (h : Fragment) (done : List Fragment)
        → fragment_room mtu < length skb
        → suc h.no ≡ max_fragments - 1
        → send_loop sk (suc fuel) link mtu skb h done ≡ sent false (cut_off skb h ∷ done)
    unfolding send_loop frag_create cut_off
    round_stop fuel skb h done more ne =
        ground (arith, alloc h.no, sk.split_lem skb (length skb - fragment_room mtu))

    round_last :
        (fuel : ℕ) (skb : List ℕ) (h : Fragment) (done : List Fragment)
        → length skb ≤ fragment_room mtu
        → link.head_room ≡ true
        → send_loop sk (suc fuel) link mtu skb h done
          ≡ sent true (record h { payload = skb } ∷ done)
    unfolding send_loop
    round_last fuel skb h done small room = ground arith

    loop_fits :
        (fuel : ℕ) (skb : List ℕ) (h : Fragment) (done : List Fragment)
        → link.head_room ≡ true
        → h.no + fuel ≡ max_fragments - 1
        → 0 < fuel
        → length skb ≤ fragment_room mtu * fuel
        → (out : List Fragment) × (send_loop sk fuel link mtu skb h done ≡ sent true out)
    loop_fits zero skb h done room e pos len = absurd (omega arith)
    loop_fits (suc fuel) skb h done room e pos len =
        elim (dec_lt (fragment_room mtu) (length skb)) [
          | no small ↦
              (record h { payload = skb } ∷ done, round_last fuel skb h done (omega arith) room)
          | yes more ↦
              let (fuel_left, shorter) = rest_fits fuel (fragment_room mtu) (length skb) more len in
              let (out, run) =
                loop_fits fuel (take (length skb - fragment_room mtu) skb)
                  (record h { no = suc h.no }) (cut_off skb h ∷ done) room (omega arith) fuel_left
                  (omega (arith, length-take (length skb - fragment_room mtu) skb)) in
              (out, round_more fuel skb h done more (omega arith) ∙ run)
        ]

    loop_too_long :
        (fuel : ℕ) (skb : List ℕ) (h : Fragment) (done : List Fragment)
        → h.no + fuel ≡ max_fragments - 1
        → 0 < fuel
        → fragment_room mtu * fuel < length skb
        → (out : List Fragment) × (send_loop sk fuel link mtu skb h done ≡ sent false out)
          × (length out ≡ fuel + length done)
    loop_too_long zero skb h done e pos len = absurd (omega arith)
    loop_too_long (suc zero) skb h done e pos len =
        (cut_off skb h ∷ done, round_stop zero skb h done (omega arith) (omega arith), omega arith)
    loop_too_long (suc (suc fuel)) skb h done e pos len =
        let (more, longer) = rest_too_long fuel (fragment_room mtu) (length skb) len in
        let (out, run, count) =
          loop_too_long (suc fuel) (take (length skb - fragment_room mtu) skb)
            (record h { no = suc h.no }) (cut_off skb h ∷ done) (omega arith) (omega arith)
            (omega (arith, length-take (length skb - fragment_room mtu) skb)) in
        (out, round_more (suc fuel) skb h done more (omega arith) ∙ run, omega arith)

  -- Sending a packet always ends: the loop is never cut short by the bound on its rounds.
  pub send_packet_ends : (dest : ℕ) (skb : List ℕ) → send_packet sk link dest skb ≢ no_fuel
  unfolding send_packet
  send_packet_ends dest skb = elim (Option-cases link.primary) [
    | inl p ↦ ground arith
    | inr (dev, p) ↦ ground (
      arith,
      loop_ends (min link.mtu max_frag_size) 15 skb (first_header link dest skb dev) [] refl
          (omega arith),
    )
  ]

  -- The guards of `batadv_frag_send_packet` let a packet of at most 16 fragments pass.
  send_packet_run :
      (dest dev : ℕ) (skb : List ℕ)
      → link.primary ≡ some dev
      → header_size < link.mtu
      → length skb ≤ fragment_room (min link.mtu max_frag_size) * max_fragments
      → send_packet sk link dest skb
        ≡ send_loop sk 15 link (min link.mtu max_frag_size) skb (first_header link dest skb dev) []
  unfolding send_packet
  send_packet_run dest dev skb p hm len = ground arith

  -- A packet that fits into 15 fragments is sent with success, if every allocation succeeds, there
  -- is room for the last header and a primary interface, and the MTU exceeds the header.
  pub send_packet_fits :
      (dest dev : ℕ) (skb : List ℕ)
      → ((k : ℕ) → link.alloc k ≡ true)
      → link.head_room ≡ true
      → link.primary ≡ some dev
      → header_size < link.mtu
      → length skb ≤ fragment_room (min link.mtu max_frag_size) * (max_fragments - 1)
      → (out : List Fragment) × (send_packet sk link dest skb ≡ sent true out)
  send_packet_fits dest dev skb alloc room primary hm len =
      let (out, run) =
        loop_fits (min link.mtu max_frag_size) alloc 15 skb (first_header link dest skb dev) [] room
          refl (omega arith) len in
      (out, send_packet_run dest dev skb primary hm (omega arith) ∙ run)

  -- A packet that needs sixteen fragments passes the size check and is given up after fifteen were
  -- sent, even if every allocation succeeds.
  pub send_packet_sixteen :
      (dest dev : ℕ) (skb : List ℕ)
      → ((k : ℕ) → link.alloc k ≡ true)
      → link.primary ≡ some dev
      → header_size < link.mtu
      → fragment_room (min link.mtu max_frag_size) * (max_fragments - 1) < length skb
      → length skb ≤ fragment_room (min link.mtu max_frag_size) * max_fragments
      → (out : List Fragment) × (send_packet sk link dest skb ≡ sent false out)
        × (length out ≡ max_fragments - 1)
  send_packet_sixteen dest dev skb alloc primary hm more len =
      let (out, run, count) =
        loop_too_long (min link.mtu max_frag_size) alloc 15 skb (first_header link dest skb dev) []
          refl (omega arith) more in
      (out, send_packet_run dest dev skb primary hm len ∙ run, omega arith)
