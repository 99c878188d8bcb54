-- ===== src/Ogm/Emit.antt =====
-- bat_iv_ogm.c: the changes to an OGM that is forwarded, and the flags that are set when a packet of
-- OGMs leaves on an interface.
pub mod Wire
use batman_adv.Common.{
  ℕ, zero, suc, ◌+◌, ◌-◌, ◌%◌, ◌^◌, Bool, ◌&&◌, not, ◌==◌, leb, if◌then◌else◌, List, ◌∷◌, ◌++◌,
  Option, none, some, get_or, set, take, drop,
}
use batman_adv.Word.Flags.{test_flag, set_flag, clear_flag}
use batman_adv.Ogm.Metric.{hop_penalty}
use batman_adv.Ogm.Packet.{ogm_hlen, aggr_packet, tvlv_len_at}
use batman_adv.Ogm.Queue.{ForwPacket, not_best_next_hop, directlink, ttl_of, flags_of}

-- `batadv_iv_ogm_forward`: the OGM as it is queued, if it is forwarded at all. `h_source` are the six
-- bytes of the sender's address.
unfoldable pub forward_ogm : ℕ → List ℕ → Bool → Bool → List ℕ → Option (List ℕ)
unfolding hop_penalty
forward_ogm penalty h_source is_single_hop_neigh is_from_best_next_hop ogm =
    if leb (ttl_of ogm) 1
    then none
    else (if not is_from_best_next_hop && not is_single_hop_neigh
        then none
        else (let flags =
              if is_from_best_next_hop
              then flags_of ogm
              else set_flag not_best_next_hop (flags_of ogm) in
            let flags' =
              if is_single_hop_neigh
              then set_flag directlink flags
              else clear_flag directlink flags in
            let head = take 2 ogm ++ (ttl_of ogm - 1) ∷ flags' ∷ take 10 (drop 4 ogm) in
            let tail = get_or ogm 20 0 ∷ hop_penalty (get_or ogm 21 0) penalty ∷ drop 22 ogm in
            some (take (ogm_hlen + tvlv_len_at (λ i. 0) ogm 0) (head ++ h_source ++ tail))))

-- The loop of `batadv_iv_ogm_send_to_if`, which sets or clears the flag of each OGM in place.
unfoldable pub flag_loop : ℕ → (ℕ → ℕ) → ForwPacket → ℕ → ℕ → ℕ → List ℕ → List ℕ
flag_loop zero beyond forw hard_iface buff_pos packet_num skb = skb
flag_loop (suc fuel) beyond forw hard_iface buff_pos packet_num skb =
    let tvlv_len = tvlv_len_at beyond skb buff_pos in
    let flags = get_or skb (buff_pos + 3) 0 in
    let flags' =
      if test_flag packet_num forw.direct_link_flags && (forw.if_incoming == hard_iface)
      then set_flag directlink flags
      else clear_flag directlink flags in
    let rest =
      flag_loop fuel beyond forw hard_iface (buff_pos + ogm_hlen + tvlv_len)
        ((packet_num + 1) % 2 ^ 8) (set skb (buff_pos + 3) flags') in
    if aggr_packet buff_pos forw.packet_len tvlv_len then rest else skb

-- What `batadv_iv_ogm_emit` finds: interfaces that are set, share the soft interface and are active,
-- a primary interface, and whether `skb_clone` succeeds.
pub record Emission : Type 0 where
  pub incoming_set : Bool
  pub outgoing_set : Bool
  pub same_soft_iface : Bool
  pub incoming_active : Bool
  pub primary_selected : Bool
  pub outgoing_active : Bool
  pub clone_ok : Bool

-- `batadv_iv_ogm_send_to_if`: the bytes that are broadcast on the interface, if any.
unfoldable pub send_to_if : Emission → (ℕ → ℕ) → ForwPacket → ℕ → Option (List ℕ)
unfolding flag_loop
send_to_if e beyond forw hard_iface =
    if not e.outgoing_active
    then none
    else (let skb = flag_loop (suc forw.packet_len) beyond forw hard_iface 0 0 forw.skb in
        if e.clone_ok then some skb else none)

-- `batadv_iv_ogm_emit`
unfoldable pub emit : Emission → (ℕ → ℕ) → ForwPacket → Option (List ℕ)
unfolding send_to_if
emit e beyond forw =
    if not e.incoming_set
    then none
    else (if not e.outgoing_set
        then none
        else (if not e.same_soft_iface
            then none
            else (if not e.incoming_active
                then none
                else (if not e.primary_selected
                    then none
                    else send_to_if e beyond forw forw.if_outgoing))))
