-- ===== src/NetCode.antt =====
-- network-coding.c: two unicast packets coded into one by exclusive or, and the way back.
pub mod Xor
pub mod Decode
pub mod RoundTrip
use Prim.Native.Nat.{bit_xor}
use batman_adv.Common.{
  ℕ, zero, suc, ◌+◌, ◌-◌, ◌*◌, ◌/◌, ◌%◌, ◌^◌, Bool, true, false, ◌&&◌, ◌||◌, not, ◌==◌, ltb, leb,
  if◌then◌else◌, List, [], ◌∷◌, Option, none, some, length, take,
}
use batman_adv.Ogm.{tq_max}

-- What the code reads and writes of a `struct batadv_unicast_packet`, with the bytes behind it.
pub record Unicast : Type 0 where
  pub ttl : ℕ
  pub ttvn : ℕ
  pub dest : ℕ
  pub payload : List ℕ

-- `struct batadv_nc_packet`: its id, the address of its `neigh_node`, the `prev_hop` of its path, and
-- its buffer, with the mark that it was decoded.
pub record NcPacket : Type 0 where
  pub packet_id : ℕ
  pub neigh_addr : ℕ
  pub prev_hop : ℕ
  pub decoded : Bool
  pub skb : Unicast

-- `struct batadv_coded_packet` with the bytes behind it, and the Ethernet destination that it is
-- sent to.
pub record Coded : Type 0 where
  pub h_dest : ℕ
  pub ttl : ℕ
  pub first_source : ℕ
  pub first_orig_dest : ℕ
  pub first_crc : ℕ
  pub first_ttvn : ℕ
  pub second_dest : ℕ
  pub second_source : ℕ
  pub second_orig_dest : ℕ
  pub second_crc : ℕ
  pub second_ttl : ℕ
  pub second_ttvn : ℕ
  pub coded_len : ℕ
  pub payload : List ℕ

-- sizeof(struct batadv_unicast_packet)
abbrev pub unicast_size : ℕ
unicast_size = 10

-- `batadv_nc_random_weight_tq` for the random byte: each product and quotient is stored in a byte.
unfoldable pub random_weight_tq : ℕ → ℕ → ℕ
random_weight_tq rand_val tq =
    let rand_tq = rand_val * (tq_max - tq) % 2 ^ 8 in tq_max - rand_tq / tq_max

-- `batadv_nc_memxor`, as far as both buffers go.
unfoldable pub memxor : List ℕ → List ℕ → ℕ → List ℕ
memxor dst src zero = dst
memxor [] src (suc len) = []
memxor (d ∷ dst) [] (suc len) = d ∷ dst
memxor (d ∷ dst) (s ∷ src) (suc len) = bit_xor d s ∷ memxor dst src len

-- One of the two packets: its next hop, its source, its id and itself.
pub record Part : Type 0 where
  pub addr : ℕ
  pub source : ℕ
  pub crc : ℕ
  pub packet : Unicast

-- The header of the coded packet for the packet whose destination stands in the Ethernet header and
-- the other one, with the bytes coded. The code stores `coding_len` in 16 bits.
abbrev pub coded_packet : Part → Part → ℕ → List ℕ → Coded
coded_packet first second coding_len payload = record {
  h_dest = first.addr;
  ttl = first.packet.ttl;
  first_source = first.source;
  first_orig_dest = first.packet.dest;
  first_crc = first.crc;
  first_ttvn = first.packet.ttvn;
  second_dest = second.addr;
  second_source = second.source;
  second_orig_dest = second.packet.dest;
  second_crc = second.crc;
  second_ttl = second.packet.ttl;
  second_ttvn = second.packet.ttvn;
  coded_len = coding_len % 2 ^ 16;
  payload = payload;
}

-- What `batadv_nc_code_packets` finds around it: the qualities of the routers to the two next hops, if
-- there are any, the two random bytes, `batadv_skb_crc32` of the bytes behind the header, and whether
-- both buffers can be made linear.
pub record Around : Type 0 where
  pub router_neigh_tq : Option ℕ
  pub router_coding_tq : Option ℕ
  pub rand_neigh : ℕ
  pub rand_coding : ℕ
  pub skb_crc32 : List ℕ → ℕ
  pub linear : Bool

-- The two packets as parts: the one to forward, and the one it is coded with.
abbrev pub part_skb : Around → ℕ → ℕ → Unicast → Part
part_skb around neigh_addr h_source skb = record {
  addr = neigh_addr;
  source = h_source;
  crc = around.skb_crc32 skb.payload;
  packet = skb;
}

abbrev pub part_nc : NcPacket → Part
part_nc nc = record {
  addr = nc.neigh_addr;
  source = nc.prev_hop;
  crc = nc.packet_id;
  packet = nc.skb;
}

-- The shorter buffer is coded into the longer one.
abbrev pub code_payload : List ℕ → List ℕ → ℕ × List ℕ
code_payload skb nc =
    if leb (length skb) (length nc)
    then (length skb, memxor nc skb (length skb))
    else (length nc, memxor skb nc (length nc))

abbrev pub code_parts : Around → ℕ → ℕ → Part → Part → Coded
code_parts around tq_neigh tq_coding skb nc =
    let (len, payload) = code_payload skb.packet.payload nc.packet.payload in
    if leb (random_weight_tq around.rand_coding tq_coding)
      (random_weight_tq around.rand_neigh tq_neigh)
    then coded_packet nc skb len payload
    else coded_packet skb nc len payload

-- `batadv_nc_code_packets`: the coded packet that is sent.
unfoldable pub code_packets : Around → ℕ → ℕ → Unicast → NcPacket → Option Coded
unfolding memxor random_weight_tq
code_packets around neigh_addr h_source skb nc = elim around.router_neigh_tq [
  | none ↦ none
  | some tq_neigh ↦ elim around.router_coding_tq [
    | none ↦ none
    | some tq_coding ↦
        if not around.linear
        then none
        else some (
            code_parts around tq_neigh tq_coding (part_skb around neigh_addr h_source skb)
              (part_nc nc))
  ]
]

-- `batadv_nc_skb_coding_possible`
unfoldable pub skb_coding_possible : Bool → ℕ → ℕ → Bool
skb_coding_possible decoded dst src = if decoded && not (dst == src) then false else true

-- What the buffer operations of `batadv_nc_skb_decode_packet` answer: skb_cow, skb_pull_rcsum and
-- pskb_trim_rcsum.
pub record Buffers : Type 0 where
  pub cow : Bool
  pub pulled : Bool
  pub trimmed : Bool

-- A received packet: the Ethernet destination and the unicast packet.
abbrev pub Received : Type 0
Received = ℕ × Unicast

-- The header of the decoded packet, by the place of our address in the coded packet.
abbrev pub decoded_header : (ℕ → Bool) → Coded → List ℕ → Received
decoded_header is_my_mac coded payload =
    if is_my_mac coded.second_dest
    then (
      coded.second_dest,
      record {
        ttl = coded.second_ttl;
        ttvn = coded.second_ttvn;
        dest = coded.second_orig_dest;
        payload = payload;
      },
    )
    else (
      coded.h_dest,
      record {
        ttl = coded.ttl;
        ttvn = coded.first_ttvn;
        dest = coded.first_orig_dest;
        payload = payload;
      },
    )

-- `batadv_nc_skb_decode_packet`, with the packet that it is decoded with.
unfoldable pub decode_packet : Buffers → (ℕ → Bool) → Coded → Unicast → Option Received
unfolding memxor
decode_packet buffers is_my_mac coded nc =
    let coding_len = coded.coded_len in
    let payload = memxor coded.payload nc.payload coding_len in
    if not buffers.cow || not buffers.pulled
    then none
    else (if ltb (unicast_size + length coded.payload) coding_len
        then none
        else (if ltb (coding_len + unicast_size) (unicast_size + length nc.payload)
            then (if not buffers.trimmed
                then none
                else some (decoded_header is_my_mac coded (take coding_len payload)))
            else some (decoded_header is_my_mac coded payload)))

-- The search of one path for the packet with an id, which leaves the list.
unfoldable pub take_packet : ℕ → List NcPacket → Option (NcPacket × List NcPacket)
take_packet packet_id [] = none
take_packet packet_id (p ∷ ps) =
    let rest = take_packet packet_id ps in
    if packet_id == p.packet_id
    then some (p, ps)
    else elim rest [ none ↦ none | some (q, qs) ↦ some (q, p ∷ qs) ]

-- The search over the paths of a bucket of the hash table.
unfoldable pub take_from : ℕ → List (List NcPacket) → Option (NcPacket × List (List NcPacket))
unfolding take_packet
take_from packet_id [] = none
take_from packet_id (path ∷ paths) =
    let rest = take_from packet_id paths in
    elim (take_packet packet_id path) [
      | some (p, left) ↦ some (p, left ∷ paths)
      | none ↦ elim rest [ none ↦ none | some (p, left) ↦ some (p, path ∷ left) ]
    ]

-- `batadv_nc_find_decoding_packet`, where `bucket` gives the paths in the bucket of a key of two
-- addresses: the source of the other packet, and the sender of the coded one.
unfoldable pub find_decoding_packet :
    (ℕ → Bool)
    → (ℕ → ℕ → List (List NcPacket))
    → ℕ
    → Coded
    → Option (NcPacket × List (List NcPacket))
unfolding take_from
find_decoding_packet is_my_mac bucket h_source coded =
    if not (is_my_mac coded.second_dest)
    then take_from coded.second_crc (bucket coded.second_source h_source)
    else take_from coded.first_crc (bucket coded.first_source h_source)

-- `batadv_nc_recv_coded_packet` up to `batadv_recv_unicast_packet`, which gets the packet: `enabled` is
-- the setting, and `linear` and `readable` say what the buffer operations answer.
unfoldable pub recv_coded_packet :
    Bool
    → Bool
    → Bool
    → Buffers
    → (ℕ → Bool)
    → (ℕ → ℕ → List (List NcPacket))
    → ℕ
    → Coded
    → Option Received
unfolding find_decoding_packet decode_packet
recv_coded_packet enabled readable linear buffers is_my_mac bucket h_source coded =
    if not enabled || not readable
    then none
    else (if not (is_my_mac coded.h_dest) && not (is_my_mac coded.second_dest)
        then none
        else elim (find_decoding_packet is_my_mac bucket h_source coded) [
          | none ↦ none
          | some (nc, left) ↦
              if not linear then none else decode_packet buffers is_my_mac coded nc.skb
        ])
