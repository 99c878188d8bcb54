-- ===== src/Ogm/Metric.antt =====
-- bat_iv_ogm.c, the numbers: the ring buffer of received qualities, the hop penalty, and the
-- quality of a link. All qualities are bytes.
pub mod Bounds
pub mod Ring
use batman_adv.Common.{
  ℕ, ◌+◌, ◌-◌, ◌*◌, ◌/◌, ◌%◌, ◌^◌, Bool, true, false, ◌||◌, ◌==◌, ltb, leb, if◌then◌else◌, List, [],
  ◌∷◌, set,
}
use batman_adv.Ogm.{tq_max}

-- BATADV_TQ_GLOBAL_WINDOW_SIZE
abbrev pub global_window : ℕ
global_window = 5

-- BATADV_TQ_LOCAL_WINDOW_SIZE
abbrev pub local_window : ℕ
local_window = 64

-- `batadv_ring_buffer_set`: the buffer and the index after it.
unfoldable pub ring_buffer_set : List ℕ → ℕ → ℕ → List ℕ × ℕ
ring_buffer_set lq_recv lq_index value =
    (set lq_recv lq_index value, (lq_index + 1) % global_window)

-- The loop of `batadv_ring_buffer_avg`, in 16 bits: the count and the sum of the values not zero.
unfoldable pub ring_buffer_sums : List ℕ → ℕ × ℕ
ring_buffer_sums [] = (0, 0)
ring_buffer_sums (x ∷ xs) =
    let (count, sum) = ring_buffer_sums xs in
    if x == 0 then (count, sum) else ((count + 1) % 2 ^ 16, (sum + x) % 2 ^ 16)

-- `batadv_ring_buffer_avg` of a buffer of five values
unfoldable pub ring_buffer_avg : List ℕ → ℕ
unfolding ring_buffer_sums
ring_buffer_avg lq_recv =
    let (count, sum) = ring_buffer_sums lq_recv in if count == 0 then 0 else (sum / count) % 2 ^ 8

-- `batadv_hop_penalty`; the penalty is at most 255.
unfoldable pub hop_penalty : ℕ → ℕ → ℕ
hop_penalty tq penalty = tq * (tq_max - penalty) / tq_max % 2 ^ 8

-- What `batadv_iv_ogm_calc_tq` computes with: how many of our OGMs came back through the
-- neighbour, how many of its OGMs we received (at most 64, a bitmap's weight), whether the OGM
-- goes out on the WiFi interface it came in on, and the hop penalty.
pub record LinkCounts : Type 0 where
  pub orig_eq_count : ℕ
  pub neigh_rq_count : ℕ
  pub same_wifi : Bool
  pub penalty : ℕ

abbrev pub total_count : LinkCounts → ℕ
total_count l = if ltb l.neigh_rq_count l.orig_eq_count then l.neigh_rq_count else l.orig_eq_count

-- BATADV_TQ_LOCAL_BIDRECT_SEND_MINIMUM and BATADV_TQ_LOCAL_BIDRECT_RECV_MINIMUM are 1.
unfoldable pub tq_own : LinkCounts → ℕ
tq_own l =
    if ltb (total_count l) 1 || ltb l.neigh_rq_count 1
    then 0
    else tq_max * total_count l / l.neigh_rq_count % 2 ^ 8

-- `neigh_rq_inv` is a byte; the result is an int, below 0 it is the same number modulo 2^32.
unfoldable pub tq_asym_penalty : LinkCounts → ℕ
tq_asym_penalty l =
    let inv = (local_window + 2 ^ 8 - l.neigh_rq_count) % 2 ^ 8 in
    let inv_asym_penalty =
      tq_max * (inv * inv * inv) % 2 ^ 32 / (local_window * local_window * local_window) in
    (tq_max + 2 ^ 32 - inv_asym_penalty) % 2 ^ 32

unfoldable pub tq_iface_penalty : LinkCounts → ℕ
unfolding hop_penalty
tq_iface_penalty l = if l.same_wifi then hop_penalty tq_max l.penalty else tq_max

-- `batadv_iv_ogm_calc_tq`: whether the link is bidirectional (BATADV_TQ_TOTAL_BIDRECT_LIMIT is 1),
-- and the quality that is written to the OGM.
unfoldable pub calc_tq : LinkCounts → ℕ → Bool × ℕ
calc_tq l tq =
    let combined = tq * tq_own l * tq_asym_penalty l * tq_iface_penalty l % 2 ^ 32 in
    let new_tq = combined / (tq_max * tq_max * tq_max) % 2 ^ 8 in (leb 1 new_tq, new_tq)
