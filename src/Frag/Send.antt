-- ===== src/Frag/Send.antt =====
-- fragmentation.c, the sending side: a packet is cut into fragments from its tail.
pub mod Cut
pub mod RoundTrip
pub mod Limit
use batman_adv.Common.{
  ℕ, zero, suc, ◌+◌, ◌-◌, ◌*◌, ◌%◌, ◌^◌, ◌≤◌, ◌≡◌, Bool, true, false, ◌==◌, ltb, not, if◌then◌else◌,
  List, [], ◌∷◌, ◌++◌, Option, none, some, length, take, drop, min,
}
use batman_adv.Frag.{Fragment, header_size, max_fragments, max_frag_size}

-- `skb_split`: the first n bytes stay, the others move to the second buffer.
pub record SkbSplit : Type 0 where
  pub split : List ℕ → ℕ → List ℕ × List ℕ
  pub split_lem : (skb : List ℕ) (n : ℕ) → n ≤ length skb → split skb n ≡ (take n skb, drop n skb)

-- How a call of `batadv_frag_send_packet` ends; `no_fuel` stands for a loop that was not finished.
pub data Sent : Type 0 where
  sent : Bool → List Fragment → Sent
  no_fuel : Sent

-- What the call finds: the MTU of the neighbour's interface, the address of the primary interface
-- (if there is one), the counter `frag_seqno`, whether the k-th `netdev_alloc_skb` succeeds, and
-- whether there is room for the last header.
pub record Link : Type 0 where
  pub mtu : ℕ
  pub primary : Option ℕ
  pub frag_seqno : ℕ
  pub alloc : ℕ → Bool
  pub head_room : Bool

-- The unsigned difference `mtu - header_size`: the payload of a fragment.
abbrev pub fragment_room : ℕ → ℕ
fragment_room mtu = (mtu + 2 ^ 32 - header_size) % 2 ^ 32

-- The header that is copied to all fragments, BATADV_TTL being 50.
abbrev pub first_header : Link → ℕ → List ℕ → ℕ → Fragment
first_header link dest skb dev_addr = record {
  ttl = 50;
  no = 0;
  dest = dest;
  orig = dev_addr;
  seqno = (link.frag_seqno + 1) % 2 ^ 16;
  total_size = length skb % 2 ^ 16;
  payload = [];
}

module _ (sk : SkbSplit) where
  -- `batadv_frag_create`: the rest of the packet, and the new fragment.
  unfoldable pub frag_create : Bool → List ℕ → Fragment → ℕ → Option (List ℕ × Fragment)
  frag_create alloc skb frag_head mtu =
      if not alloc
      then none
      else (let fragment_size = fragment_room mtu in
          let (rest, tail) = sk.split skb (length skb - fragment_size) in
          some (rest, record frag_head { payload = tail }))

  -- The loop of `batadv_frag_send_packet` and the last fragment. `done` are the fragments sent so
  -- far, the last one first; the payload of the header is not looked at.
  unfoldable pub send_loop : ℕ → Link → ℕ → List ℕ → Fragment → List Fragment → Sent
  unfolding frag_create
  send_loop zero link mtu skb frag_header done = no_fuel
  send_loop (suc fuel) link mtu skb frag_header done = elim (ltb (fragment_room mtu) (length skb)) [
    | false ↦
        if not link.head_room
        then sent false done
        else sent true (record frag_header { payload = skb } ∷ done)
    | true ↦ elim (frag_create (link.alloc frag_header.no) skb frag_header mtu) [
      | none ↦ sent false done
      | some (rest, f) ↦ elim (suc frag_header.no == max_fragments - 1) [
        | true ↦ sent false (f ∷ done)
        | false ↦
            send_loop fuel link mtu rest (record frag_header { no = suc frag_header.no }) (f ∷ done)
      ]
    ]
  ]

  -- `batadv_frag_send_packet` to the originator `dest`. The loop ends within 15 rounds, since it
  -- gives up when the number reaches 15.
  unfoldable pub send_packet : Link → ℕ → List ℕ → Sent
  send_packet link dest skb =
      let mtu = min link.mtu max_frag_size in
      if ltb (fragment_room mtu * max_fragments % 2 ^ 32) (length skb)
      then sent false []
      else elim link.primary [
        | none ↦ sent false []
        | some dev_addr ↦ send_loop 15 link mtu skb (first_header link dest skb dev_addr) []
      ]
