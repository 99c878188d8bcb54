-- ===== src/Ogm/Queue.antt =====
-- bat_iv_ogm.c, OGMs on their way out: a new packet for one, or its aggregation into a packet that
-- waits.
pub mod Holds
pub mod Add
use batman_adv.Common.{
  ℕ, zero, suc, ◌+◌, ◌-◌, ◌*◌, ◌%◌, ◌^◌, Bool, true, false, ◌&&◌, ◌||◌, not, ◌==◌, leb, ltb,
  if◌then◌else◌, List, [], ◌∷◌, ◌++◌, Option, none, some, length, get_or, set, take, drop,
}
use batman_adv.Kernel.{Jiffies}
use batman_adv.Word.Flags.{test_flag, set_flag, clear_flag}
use batman_adv.Ogm.Metric.{hop_penalty}
use batman_adv.Ogm.Packet.{ogm_hlen, max_aggregation_bytes, aggr_packet, tvlv_len_at}

-- The fields of `struct batadv_forw_packet`; `skb` are the bytes of its buffer and `room` is how many
-- there is room for. An interface is a number.
pub record ForwPacket : Type 0 where
  pub send_time : ℕ
  pub own : Bool
  pub skb : List ℕ
  pub room : ℕ
  pub packet_len : ℕ
  pub direct_link_flags : ℕ
  pub num_packets : ℕ
  pub if_incoming : ℕ
  pub if_outgoing : ℕ

-- BATADV_MAX_AGGREGATION_MS
abbrev pub max_aggregation_ms : ℕ
max_aggregation_ms = 100

-- `send_time` later by `msecs_to_jiffies(BATADV_MAX_AGGREGATION_MS)`
abbrev pub aggregation_end : Jiffies → ℕ → ℕ
aggregation_end jf send_time = (send_time + jf.msecs_to_jiffies max_aggregation_ms) % 2 ^ 64

-- The flags of `enum batadv_iv_flags`, by their bits.
abbrev pub not_best_next_hop : ℕ
not_best_next_hop = 0

abbrev pub directlink : ℕ
directlink = 2

-- Bytes 2 and 3 of an OGM.
abbrev pub ttl_of : List ℕ → ℕ
ttl_of ogm = get_or ogm 2 0

abbrev pub flags_of : List ℕ → ℕ
flags_of ogm = get_or ogm 3 0

-- What an OGM is queued with: its bytes, and where it came from and goes to.
pub record Outgoing : Type 0 where
  pub ogm : List ℕ
  pub iface_in : ℕ
  pub iface_out : ℕ
  pub own_packet : Bool
  pub time : ℕ

module _ (jf : Jiffies) where
  -- `batadv_iv_ogm_can_aggregate`; `primary_if` is the selected primary interface, if any;
  -- `time_after_eq` is the negation of `time_before`.
  unfoldable pub can_aggregate : Option ℕ → Outgoing → Bool → ForwPacket → Bool
  can_aggregate primary_if new direct_link forw =
      if not (jf.time_before new.time forw.send_time)
        || jf.time_before (aggregation_end jf new.time) forw.send_time
      then false
      else (if ltb max_aggregation_bytes (forw.packet_len + length new.ogm)
          then false
          else (if not (forw.if_outgoing == new.iface_out) then false else elim primary_if [
            | none ↦ false
            | some primary ↦
                let base_direct = test_flag directlink (flags_of forw.skb) in
                if not direct_link
                  && not base_direct
                  && not (ttl_of forw.skb == 1)
                  && (not forw.own || (forw.if_incoming == primary))
                then true
                else direct_link
                  && (ttl_of new.ogm == 1)
                  && (forw.if_incoming == new.iface_in)
                  && (base_direct || (forw.own && not (forw.if_incoming == primary)))
          ]))

-- `batadv_iv_ogm_aggregate`; the flags have 32 bits. `none` is the panic of `skb_put` when the buffer
-- has no room for the bytes.
unfoldable pub aggregate : ForwPacket → List ℕ → Bool → Option ForwPacket
aggregate forw ogm direct_link =
    let num = (forw.num_packets + 1) % 2 ^ 8 in
    if ltb forw.room (length forw.skb + length ogm)
    then none
    else some (record forw {
      skb = forw.skb ++ ogm;
      packet_len = (forw.packet_len + length ogm) % 2 ^ 16;
      num_packets = num;
      direct_link_flags =
          if direct_link && ltb num 32
          then set_flag num forw.direct_link_flags
          else forw.direct_link_flags;
    })

-- Whether the two references are taken, and the two allocations succeed; `slack` are the bytes that a
-- buffer is larger than was asked for.
pub record Resources : Type 0 where
  pub ref_incoming : Bool
  pub ref_outgoing : Bool
  pub forw_ok : Bool
  pub skb_ok : Bool
  pub slack : ℕ

-- The list of waiting packets, `batman_queue_left`, and the setting `aggregated_ogms`.
pub record Queue : Type 0 where
  pub forw_bat_list : List ForwPacket
  pub batman_queue_left : ℕ
  pub aggregated_ogms : Bool

-- `batadv_iv_ogm_aggregate_new`; ETH_HLEN bytes of the room are reserved and not counted.
unfoldable pub aggregate_new : Resources → Queue → Outgoing → ℕ → Bool → Queue
aggregate_new res q new send_time direct_link =
    if not res.ref_incoming
    then q
    else (if not res.ref_outgoing
        then q
        else (if not new.own_packet && (q.batman_queue_left == 0)
            then q
            else (if not res.forw_ok
                then q
                else (if not res.skb_ok then q else record q {
                  batman_queue_left =
                      if new.own_packet then q.batman_queue_left else q.batman_queue_left - 1;
                  forw_bat_list =
                      record {
                        send_time = send_time;
                        own = new.own_packet;
                        skb = new.ogm;
                        room =
                            (if q.aggregated_ogms && ltb (length new.ogm) max_aggregation_bytes
                              then max_aggregation_bytes
                              else length new.ogm)
                            + res.slack;
                        packet_len = length new.ogm % 2 ^ 16;
                        direct_link_flags = if direct_link then 1 else 0;
                        num_packets = 0;
                        if_incoming = new.iface_in;
                        if_outgoing = new.iface_out;
                      }
                      ∷ q.forw_bat_list;
                }))))

-- The search of `batadv_iv_ogm_queue_add`: the first packet that a test accepts, and the packets
-- before and behind it.
unfoldable pub split_first :
    (ForwPacket → Bool)
    → List ForwPacket
    → Option (List ForwPacket × (ForwPacket × List ForwPacket))
split_first test [] = none
split_first test (forw ∷ rest) =
    let later = split_first test rest in
    if test forw then some ([], (forw, rest)) else elim later [
      | none ↦ none
      | some (before, (found, behind)) ↦ some (forw ∷ before, (found, behind))
    ]

-- `batadv_iv_ogm_queue_add`; `none` is the panic of `skb_put`.
unfoldable pub queue_add : Jiffies → Resources → Option ℕ → Queue → Outgoing → Option Queue
unfolding split_first aggregate aggregate_new can_aggregate
queue_add jf res primary_if q new =
    let direct_link = test_flag directlink (flags_of new.ogm) in
    let found =
      if q.aggregated_ogms && not new.own_packet
      then split_first (can_aggregate jf primary_if new direct_link) q.forw_bat_list
      else none in
    elim found [
      | some (before, (forw, behind)) ↦ elim (aggregate forw new.ogm direct_link) [
        | none ↦ none
        | some forw' ↦ some (record q { forw_bat_list = before ++ (forw' ∷ behind) })
      ]
      | none ↦
          let send_time =
            if not new.own_packet && q.aggregated_ogms
            then aggregation_end jf new.time
            else new.time in
          some (aggregate_new res q new send_time direct_link)
    ]
