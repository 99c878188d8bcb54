-- ===== src/Tests/Fragments.antt =====
-- A packet of twelve bytes over an interface with room for five, and the chains of a node.
use batman_adv.Common.{
  ℕ, ◌-◌, ◌≡◌, ◌≢◌, refl, arith, true, false, List, [], ◌∷◌, some, replicate, All, length,
}
use batman_adv.Frag.{Fragment, max_fragments}
use batman_adv.Frag.Receive.{Chain, failed, empty_chain, insert_packet}
use batman_adv.Frag.Receive.Valid.{IsValid, insert_packet-IsValid}
use batman_adv.Frag.Receive.Merge.{deliver, all_ok}
use batman_adv.Frag.Receive.Fresh.{deliver-Spent}
use batman_adv.Frag.Send.{Link, sent, no_fuel, send_packet}
use batman_adv.Frag.Send.Limit.{send_packet_ends, send_packet_fits, send_packet_sixteen}
use batman_adv.Tests.Instances.{list_split}

abbrev link : Link
link = record { mtu = 25; primary = some 3; frag_seqno = 6; alloc = λ k. true; head_room = true }

abbrev skb : List ℕ
skb = 1 ∷ 2 ∷ 3 ∷ 4 ∷ 5 ∷ 6 ∷ 7 ∷ 8 ∷ 9 ∷ 10 ∷ 11 ∷ 12 ∷ []

abbrev fragment : ℕ → ℕ → List ℕ → Fragment
fragment seqno k payload = record {
  ttl = 50;
  no = k;
  dest = 9;
  orig = 3;
  seqno = seqno;
  total_size = 12;
  payload = payload;
}

abbrev part_0 : Fragment
part_0 = fragment 7 0 (8 ∷ 9 ∷ 10 ∷ 11 ∷ 12 ∷ [])

abbrev part_1 : Fragment
part_1 = fragment 7 1 (3 ∷ 4 ∷ 5 ∷ 6 ∷ 7 ∷ [])

abbrev part_2 : Fragment
part_2 = fragment 7 2 (1 ∷ 2 ∷ [])

abbrev no_chains : List Chain
no_chains = replicate 8 empty_chain

empty_chain-IsValid : IsValid empty_chain
empty_chain-IsValid = record { sorted = tt; counted = refl; within = omega arith }

insert_packet-IsValid_example :
    All IsValid
      (insert_packet all_ok 5 (empty_chain ∷ empty_chain ∷ []) (fragment 1 2 (1 ∷ 2 ∷ []))).1
insert_packet-IsValid_example =
    (insert_packet-IsValid all_ok 5 (empty_chain ∷ empty_chain ∷ []) (fragment 1 2 (1 ∷ 2 ∷ []))
      (empty_chain-IsValid, (empty_chain-IsValid, tt)) (omega arith) (omega arith)).0

abbrev one_part : Chain
one_part = record { head = part_2 ∷ []; timestamp = 5; seqno = 7; size = 2; total_size = 12 }

one_part-IsValid : IsValid one_part
one_part-IsValid = record { sorted = (omega arith, tt); counted = refl; within = omega arith }

-- In a new table both fragments with the number 0 are refused.
deliver-Spent_example :
    (deliver (λ f. 100) no_chains (fragment 0 1 (1 ∷ []) ∷ fragment 0 0 (2 ∷ []) ∷ [])).0
    ≡ failed ∷ failed ∷ []
deliver-Spent_example =
    deliver-Spent 0 (λ f. 100) no_chains refl (record { seq = refl; none = refl })
      (fragment 0 1 (1 ∷ []) ∷ fragment 0 0 (2 ∷ []) ∷ []) (refl, (refl, tt))

send_packet_ends_example : send_packet list_split link 9 skb ≢ no_fuel
send_packet_ends_example = send_packet_ends list_split link 9 skb

send_packet_fits_example :
    (out : List Fragment) × (send_packet list_split link 9 skb ≡ sent true out)
send_packet_fits_example =
    send_packet_fits list_split link 9 3 skb (λ k. refl) refl refl (omega arith) (omega arith)

-- Eighty bytes are sixteen fragments of five.
send_packet_sixteen_example :
    (out : List Fragment) × (send_packet list_split link 9 (replicate 80 1) ≡ sent false out)
    × (length out ≡ max_fragments - 1)
send_packet_sixteen_example =
    send_packet_sixteen list_split link 9 3 (replicate 80 1) (λ k. refl) refl (omega arith)
      (omega arith) (omega arith)
