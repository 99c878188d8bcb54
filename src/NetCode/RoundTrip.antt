-- ===== src/NetCode/RoundTrip.antt =====
-- A coded packet at the two nodes that it is for.
use batman_adv.Common.{
  ℕ, ◌+◌, ◌%◌, ◌^◌, ◌≤◌, ◌<◌, ◌≡◌, refl, ap, ◌∙◌, Bool, true, false, ltb, leb, arith, List, Option,
  some, length, Bool-cases, inl, inr, ◌⊎◌,
}
use batman_adv.NetCode.{
  Unicast, NcPacket, Coded, Part, coded_packet, code_payload, code_parts, code_packets, Around,
  part_skb, part_nc, unicast_size, random_weight_tq, Buffers, Received, decoded_header,
  decode_packet, take_from, find_decoding_packet, recv_coded_packet,
}
use batman_adv.NetCode.Decode.{left_over, both_payloads}

-- No buffer operation fails.
abbrev pub working : Buffers
working = record { cow = true; pulled = true; trimmed = true }

decode_working :
    (is_my_mac : ℕ → Bool) (coded : Coded) (nc : Unicast)
    → coded.coded_len ≤ length coded.payload
    → decode_packet working is_my_mac coded nc
      ≡ some (decoded_header is_my_mac coded (left_over coded.coded_len coded.payload nc.payload))
unfolding decode_packet
decode_working is_my_mac coded nc h =
    let e : ltb (unicast_size + length coded.payload) coded.coded_len ≡ false = ground arith in
    elim (Bool-cases (ltb (coded.coded_len + unicast_size) (unicast_size + length nc.payload))) [
      | inl c ↦ rw (decode_packet, e, c) refl
      | inr c ↦ rw (decode_packet, e, c) refl
    ]

-- The paths of a node's table in which a packet with this id is found first.
abbrev pub Holds : (ℕ → ℕ → List (List NcPacket)) → ℕ → ℕ → ℕ → Unicast → Type 0
Holds bucket source sender packet_id skb =
    (held : NcPacket) × ((left : List (List NcPacket)) × ((take_from packet_id
            (bucket source sender)
          ≡ some (held, left))
        × (held.skb ≡ skb)))

abbrev with_payload : Unicast → List ℕ → Unicast
with_payload packet payload = record packet { payload = payload }

module _ (is_my_mac : ℕ → Bool) (bucket : ℕ → ℕ → List (List NcPacket)) (sender : ℕ)
    (first second : Part) (len : ℕ) (payload : List ℕ) where
  abbrev recv : Option Received
  recv =
      recv_coded_packet true true true working is_my_mac bucket sender
        (coded_packet first second len payload)

  -- The node in the Ethernet header, which has the other packet.
  recv_first :
      is_my_mac second.addr ≡ false
      → is_my_mac first.addr ≡ true
      → len < 2 ^ 16
      → len ≤ length payload
      → Holds bucket second.source sender second.crc second.packet
      → recv
        ≡ some (first.addr, with_payload first.packet (left_over len payload second.packet.payload))
  unfolding recv_coded_packet find_decoding_packet
  recv_first n m small fits (held, (left, (t, same))) =
      let e : len % 2 ^ 16 ≡ len = omega arith in
      rw (recv_coded_packet, find_decoding_packet, n, m, t)
        (decode_working is_my_mac (coded_packet first second len payload) held.skb
            (omega (arith, e, fits))
          ∙ rw (n, e, same) refl)

  -- The node that hears the packet for the other one, and has the packet for it.
  recv_second :
      is_my_mac second.addr ≡ true
      → is_my_mac first.addr ≡ false
      → len < 2 ^ 16
      → len ≤ length payload
      → Holds bucket first.source sender first.crc first.packet
      → recv
        ≡ some
            (second.addr, with_payload second.packet (left_over len payload first.packet.payload))
  unfolding recv_coded_packet find_decoding_packet
  recv_second n m small fits (held, (left, (t, same))) =
      let e : len % 2 ^ 16 ≡ len = omega arith in
      rw (recv_coded_packet, find_decoding_packet, n, m, t)
        (decode_working is_my_mac (coded_packet first second len payload) held.skb
            (omega (arith, e, fits))
          ∙ rw (n, e, same) refl)

-- Both outcomes of coding: which packet's next hop stands in the Ethernet header depends on random
-- bytes.
code_cases :
    (around : Around) (tq_neigh tq_coding : ℕ) (skb nc : Part)
    → let (len, payload) = code_payload skb.packet.payload nc.packet.payload in
      let coded = code_parts around tq_neigh tq_coding skb nc in
      (coded ≡ coded_packet nc skb len payload) ⊎ (coded ≡ coded_packet skb nc len payload)
code_cases around tq_neigh tq_coding skb nc =
    elim (Bool-cases (
      leb (random_weight_tq around.rand_coding tq_coding)
        (random_weight_tq around.rand_neigh tq_neigh))) [
          | inl e ↦ inl (rw (e) refl)
          | inr e ↦ inr (rw (e) refl)
        ]

code_small : (xs ys : List ℕ) → length xs < 2 ^ 16 → (code_payload xs ys).0 < 2 ^ 16
code_small xs ys h = ground arith

module _ (around : Around) (neigh_addr h_source sender tq_neigh tq_coding : ℕ) (skb : Unicast)
    (nc : NcPacket) where
  code_packets_lem :
      around.router_neigh_tq ≡ some tq_neigh
      → around.router_coding_tq ≡ some tq_coding
      → around.linear ≡ true
      → code_packets around neigh_addr h_source skb nc
        ≡ some (
            code_parts around tq_neigh tq_coding
              (part_skb around neigh_addr h_source skb)
              (part_nc nc))
  unfolding code_packets
  code_packets_lem a b l = rw (code_packets, a, b, l) refl

  -- A packet is forwarded to one neighbour, coded with a packet for another one. Both routers are
  -- known, no buffer operation fails, and the payloads are shorter than 64 KiB. Then one coded packet
  -- is sent. If the neighbour of the first has the other packet among those it stored from its
  -- source, under its id, then what it receives is the first packet, with its header and all its
  -- bytes, whichever of the two is longer and whichever way the random bytes fall; and likewise the
  -- neighbour of the other packet receives that one.
  pub recv-code :
      (mine yours : ℕ → Bool) (my_bucket your_bucket : ℕ → ℕ → List (List NcPacket))
      → around.router_neigh_tq ≡ some tq_neigh
      → around.router_coding_tq ≡ some tq_coding
      → around.linear ≡ true
      → length skb.payload < 2 ^ 16
      → (mine neigh_addr ≡ true) × (mine nc.neigh_addr ≡ false)
      → (yours nc.neigh_addr ≡ true) × (yours neigh_addr ≡ false)
      → Holds my_bucket nc.prev_hop sender nc.packet_id nc.skb
      → Holds your_bucket h_source sender (around.skb_crc32 skb.payload) skb
      → (coded : Coded) × ((code_packets around neigh_addr h_source skb nc ≡ some coded)
          × ((recv_coded_packet true true true working mine my_bucket sender coded
                ≡ some (neigh_addr, skb))
              × (recv_coded_packet true true true working yours your_bucket sender coded
                  ≡ some (nc.neigh_addr, nc.skb))))
  recv-code mine yours my_bucket your_bucket a b l small me you mine_held yours_held =
      let p = part_skb around neigh_addr h_source skb in
      let q = part_nc nc in
      let (len, payload) = code_payload skb.payload nc.skb.payload in
      let (back, (forth, fits)) = both_payloads skb.payload nc.skb.payload in
      let short = code_small skb.payload nc.skb.payload small in
      (
        code_parts around tq_neigh tq_coding p q,
        (
          code_packets_lem a b l,
          elim (code_cases around tq_neigh tq_coding p q) [
            | inl e ↦ rw (e) (
                (
                  recv_second mine my_bucket sender q p _ _ me.0 me.1 short fits mine_held
                      ∙ ap (λ bytes. some (neigh_addr, with_payload skb bytes)) back,
                  recv_first yours your_bucket sender q p _ _ you.1 you.0 short fits yours_held
                      ∙ ap (λ bytes. some (nc.neigh_addr, with_payload nc.skb bytes)) forth,
                ))
            | inr e ↦ rw (e) (
                (
                  recv_first mine my_bucket sender p q _ _ me.1 me.0 short fits mine_held
                      ∙ ap (λ bytes. some (neigh_addr, with_payload skb bytes)) back,
                  recv_second yours your_bucket sender p q _ _ you.0 you.1 short fits yours_held
                      ∙ ap (λ bytes. some (nc.neigh_addr, with_payload nc.skb bytes)) forth,
                ))
          ],
        ),
      )
