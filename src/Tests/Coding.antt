-- ===== src/Tests/Coding.antt =====
-- Two packets, of three bytes and of two, coded into one.
use batman_adv.Common.{
  ℕ, ◌+◌, ◌-◌, ◌*◌, ◌%◌, ◌^◌, ◌⊎◌, ◌≢◌, ◌≡◌, refl, arith, true, false, ◌==◌, List, [], ◌∷◌, some,
  length,
}
use batman_adv.NetCode.{
  Unicast, NcPacket, Coded, Around, code_packets, take_from, random_weight_tq, recv_coded_packet,
}
use batman_adv.Ogm.{tq_max}
use batman_adv.NetCode.Decode.{random_weight_tq_exact}
use batman_adv.NetCode.RoundTrip.{Holds, working, recv-code}

abbrev long_packet : Unicast
long_packet = record { ttl = 50; ttvn = 3; dest = 9; payload = 17 ∷ 200 ∷ 5 ∷ [] }

abbrev short_packet : Unicast
short_packet = record { ttl = 49; ttvn = 4; dest = 8; payload = 33 ∷ 77 ∷ [] }

abbrev stored : Unicast → ℕ → NcPacket
stored skb id = record { packet_id = id; neigh_addr = 2; prev_hop = 1; decoded = false; skb = skb }

abbrev around : Around
around = record {
  router_neigh_tq = some 200;
  router_coding_tq = some 180;
  rand_neigh = 12;
  rand_coding = 99;
  skb_crc32 = λ bytes. 1000 + length bytes;
  linear = true;
}

abbrev bucket_of : NcPacket → ℕ → ℕ → List (List NcPacket)
bucket_of p source sender = (p ∷ []) ∷ []

short_held : Holds (bucket_of (stored short_packet 70)) 1 5 70 short_packet
unfolding take_from
short_held = (stored short_packet 70, ([] ∷ [], (refl, refl)))

long_held : Holds (bucket_of (stored long_packet 1003)) 6 5 1003 long_packet
unfolding take_from
long_held = (stored long_packet 1003, ([] ∷ [], (refl, refl)))

recv-code_example :
    (coded : Coded) × ((code_packets around 3 6 long_packet (stored short_packet 70) ≡ some coded)
      × ((recv_coded_packet true true true working
              (λ m. m == 3)
              (bucket_of (stored short_packet 70))
              5
              coded
            ≡ some (3, long_packet))
          × (recv_coded_packet true true true working
                (λ m. m == 2)
                (bucket_of (stored long_packet 1003))
                5
                coded
              ≡ some (2, short_packet))))
recv-code_example =
    recv-code around 3 6 5 200 180 long_packet (stored short_packet 70) (λ m. m == 3) (λ m. m == 2)
      (bucket_of (stored short_packet 70)) (bucket_of (stored long_packet 1003)) refl refl refl
      (ground arith) (refl, refl) (refl, refl) short_held long_held

random_weight_tq_exact_example :
    ((random_weight_tq 3 170 ≡ 254)
      × ((3 * (tq_max - 170) % 2 ^ 8 ≡ 255) × ((3 % 2 ≡ 1) × (170 % 2 ≡ 0))))
    ⊎ ((random_weight_tq 3 170 ≡ 255) × (3 * (tq_max - 170) % 2 ^ 8 ≢ 255))
random_weight_tq_exact_example = random_weight_tq_exact 3 170 (omega arith)
