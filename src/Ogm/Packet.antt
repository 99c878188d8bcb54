-- ===== src/Ogm/Packet.antt =====
-- bat_iv_ogm.c: OGMs as bytes, several of them in one packet. An OGM has a header of 24 bytes: its
-- type, version, time to live and flags, the sequence number (4), the originator (6), the previous
-- sender (6), a reserved byte, the quality, and the length of its containers (2).
pub mod Parse
use batman_adv.Common.{
  ℕ, zero, suc, ◌+◌, ◌*◌, Bool, true, false, ◌&&◌, not, leb, if◌then◌else◌, List, [], ◌∷◌, length,
  get_or,
}

-- BATADV_OGM_HLEN
abbrev pub ogm_hlen : ℕ
ogm_hlen = 24

-- BATADV_MAX_AGGREGATION_BYTES
abbrev pub max_aggregation_bytes : ℕ
max_aggregation_bytes = 512

-- `batadv_iv_ogm_aggr_packet`
abbrev pub aggr_packet : ℕ → ℕ → ℕ → Bool
aggr_packet buff_pos packet_len tvlv_len =
    let next_buff_pos = buff_pos + ogm_hlen + tvlv_len in
    leb next_buff_pos packet_len && leb next_buff_pos max_aggregation_bytes

-- `ntohs(ogm_packet->tvlv_len)` of the OGM at an offset. `beyond` is what the memory behind the
-- packet holds, since the offset may lie there.
abbrev pub tvlv_len_at : (ℕ → ℕ) → List ℕ → ℕ → ℕ
tvlv_len_at beyond packet pos =
    get_or packet (pos + 22) (beyond (pos + 22)) * 256
    + get_or packet (pos + 23) (beyond (pos + 23))

-- The loop of `batadv_iv_ogm_receive`: the offsets for which `batadv_iv_ogm_process` is called, in
-- order. A round advances by 24 bytes at least, so one round more than the packet has bytes is
-- enough.
unfoldable pub receive_loop : ℕ → (ℕ → ℕ) → List ℕ → ℕ → List ℕ
receive_loop zero beyond packet ogm_offset = []
receive_loop (suc fuel) beyond packet ogm_offset =
    let tvlv_len = tvlv_len_at beyond packet ogm_offset in
    let rest = receive_loop fuel beyond packet (ogm_offset + ogm_hlen + tvlv_len) in
    if aggr_packet ogm_offset (length packet) tvlv_len then ogm_offset ∷ rest else []

-- The checks of `batadv_check_management_packet`.
pub record Received : Type 0 where
  pub pull_ok : Bool
  pub to_broadcast : Bool
  pub from_broadcast : Bool
  pub cow_ok : Bool
  pub linearize_ok : Bool

-- `batadv_check_management_packet`
abbrev pub check_management_packet : Received → Bool
check_management_packet r =
    if not r.pull_ok
    then false
    else (if not r.to_broadcast
        then false
        else (if r.from_broadcast then false else (if not r.cow_ok then false else r.linearize_ok)))

-- `batadv_iv_ogm_receive`; `iv_enabled` tells whether the interface runs B.A.T.M.A.N. IV.
unfoldable pub ogm_receive : Received → Bool → (ℕ → ℕ) → List ℕ → List ℕ
unfolding receive_loop
ogm_receive r iv_enabled beyond packet =
    if not (check_management_packet r)
    then []
    else (if not iv_enabled then [] else receive_loop (suc (length packet)) beyond packet 0)
