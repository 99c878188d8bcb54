-- ===== src/Bcast.antt =====
-- routing.c: batadv_window_protected, and the reception of a broadcast packet up to its delivery
-- (batadv_recv_bcast_packet), with the flood history of one originator as its state.
pub mod Protect
pub mod Once
use batman_adv.Common.{
  ℕ, ◌+◌, ◌-◌, ◌%◌, ◌^◌, Bool, true, false, ◌&&◌, ◌||◌, not, if◌then◌else◌, ltb, List, [], ◌∷◌,
}
use batman_adv.Common.Int.{ℤ, pos, negsuc, ltb_ℤ, leb_ℤ, ◌-ℤ◌}
use batman_adv.Kernel.{Bitmap, Jiffies}
use batman_adv.Word.{seq_diff}
use batman_adv.Window.{expected_seqno_range, test_bit, bit_get_packet}

-- BATADV_RESET_PROTECTION_MS
abbrev pub reset_protection_ms : ℕ
reset_protection_ms = 30000

-- BATADV_BCAST_MAX_AGE
abbrev pub bcast_max_age : ℕ
bcast_max_age = 64

-- `batadv_has_timed_out`, at the time `now`.
abbrev pub has_timed_out : Jiffies → ℕ → ℕ → ℕ → Bool
has_timed_out jf now timestamp timeout =
    jf.time_before ((timestamp + jf.msecs_to_jiffies timeout) % 2 ^ 64) now

-- What `batadv_window_protected` returns and writes through its pointers.
pub record Protection : Type 0 where
  pub ignored : Bool
  pub last_reset : ℕ
  pub started : Bool

-- `batadv_window_protected`
unfoldable pub window_protected : Jiffies → ℕ → ℤ → ℤ → ℕ → Protection
unfolding ◌-ℤ◌
window_protected jf now seq_num_diff seq_old_max_diff last_reset =
    if leb_ℤ seq_num_diff (pos 0 -ℤ seq_old_max_diff)
      || leb_ℤ (pos expected_seqno_range) seq_num_diff
    then (if not (has_timed_out jf now last_reset reset_protection_ms)
        then record { ignored = true; last_reset = last_reset; started = false }
        else record { ignored = false; last_reset = now; started = true })
    else record { ignored = false; last_reset = last_reset; started = false }

-- The fields of `struct batadv_orig_node` for broadcasts.
pub record Flood (bm : Bitmap) : Type 0 where
  pub bcast_bits : bm.Bits
  pub last_bcast_seqno : ℕ
  pub bcast_seqno_reset : ℕ

module _ (bm : Bitmap) (jf : Jiffies) where
  -- The part of `batadv_recv_bcast_packet` under `bcast_seqno_lock`: whether the packet goes on.
  unfoldable pub accept : ℕ → ℕ → Flood bm → Bool × Flood bm
  accept now seqno node =
      if test_bit bm node.bcast_bits node.last_bcast_seqno seqno
      then (false, node)
      else (let diff = seq_diff seqno node.last_bcast_seqno in
          let p = window_protected jf now diff (pos bcast_max_age) node.bcast_seqno_reset in
          if p.ignored
          then (false, record node { bcast_seqno_reset = p.last_reset })
          else (let (moved, bits) = bit_get_packet bm node.bcast_bits diff true in
              (
                true,
                record {
                  bcast_bits = bits;
                  last_bcast_seqno = if moved then seqno else node.last_bcast_seqno;
                  bcast_seqno_reset = p.last_reset;
                },
              )))

-- The received frame, as far as the handler looks at it.
pub record Frame : Type 0 where
  pub pull_ok : Bool
  pub h_dest : ℕ
  pub h_source : ℕ
  pub orig : ℕ
  pub ttl : ℕ
  pub seqno : ℕ

-- What the handler asks of the node and of the other components.
pub record Node : Type 0 where
  pub is_broadcast : ℕ → Bool
  pub is_my_mac : ℕ → Bool
  pub orig_known : ℕ → Bool
  pub in_duplist : Frame → Bool
  pub from_backbone : Frame → Bool
  pub arp_request : Frame → Bool
  pub arp_reply : Frame → Bool

-- The calls that hand the packet on.
pub data Effect : Type 0 where
  rebroadcast deliver : Effect

pub data RxResult : Type 0 where
  rx_drop rx_success : RxResult

module _ (bm : Bitmap) (jf : Jiffies) (env : Node) where
  -- The end of the handler, with the packet accepted.
  unfoldable pub forward : Frame → RxResult × List Effect
  forward f =
      if env.in_duplist f
      then (rx_drop, [])
      else (if env.from_backbone f
          then (rx_drop, rebroadcast ∷ [])
          else (if env.arp_request f
              then (rx_success, rebroadcast ∷ [])
              else (if env.arp_reply f
                  then (rx_success, rebroadcast ∷ [])
                  else (rx_success, rebroadcast ∷ deliver ∷ []))))

  -- `batadv_recv_bcast_packet`, for the originator that the packet names.
  unfoldable pub recv_bcast_packet : ℕ → Frame → Flood bm → RxResult × List Effect × Flood bm
  unfolding accept forward
  recv_bcast_packet now f node =
      if not f.pull_ok
      then (rx_drop, [], node)
      else (if not (env.is_broadcast f.h_dest)
          then (rx_drop, [], node)
          else (if env.is_broadcast f.h_source
              then (rx_drop, [], node)
              else (if env.is_my_mac f.h_source
                  then (rx_drop, [], node)
                  else (if env.is_my_mac f.orig
                      then (rx_drop, [], node)
                      else (if ltb f.ttl 2
                          then (rx_drop, [], node)
                          else (if not (env.orig_known f.orig)
                              then (rx_drop, [], node)
                              else (let (ok, node') = accept bm jf now f.seqno node in
                                  if ok
                                  then (let (ret, effects) = forward f in (ret, effects, node'))
                                  else (rx_drop, [], node'))))))))
