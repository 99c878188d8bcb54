-- ===== src/Ogm/Seqnos.antt =====
-- bat_iv_ogm.c, batadv_iv_ogm_update_seqnos: which OGMs of an originator were received, and from
-- which neighbour, for one outgoing interface.
pub mod Status
pub mod Again
use batman_adv.Common.{
  ℕ, ◌-◌, Bool, true, false, ◌&&◌, ◌||◌, not, ◌==◌, if◌then◌else◌, List, [], ◌∷◌, is_empty,
}
use batman_adv.Common.Int.{ℤ, pos}
use batman_adv.Kernel.{Bitmap, Jiffies}
use batman_adv.Word.{seq_diff}
use batman_adv.Window.{window_size, test_bit, bit_get_packet}
use batman_adv.Bcast.{window_protected}

-- `enum batadv_dup_status`
pub data DupStatus : Type 0 where
  no_dup orig_dup neigh_dup protected : DupStatus

-- A `struct batadv_neigh_node` with its `batadv_neigh_ifinfo` for the outgoing interface. `ifinfo`
-- tells whether `batadv_neigh_ifinfo_new` finds or makes one; a new one is all zero.
pub record Neighbour (bm : Bitmap) : Type 0 where
  pub addr : ℕ
  pub if_incoming : ℕ
  pub ifinfo : Bool
  pub real_bits : bm.Bits
  pub real_packet_count : ℕ

-- The list of neighbours of an originator and its `struct batadv_orig_ifinfo`.
pub record Originator (bm : Bitmap) : Type 0 where
  pub neigh_list : List (Neighbour bm)
  pub last_real_seqno : ℕ
  pub batman_seqno_reset : ℕ

-- Who sent the OGM: the source address of the frame and the interface that received it.
pub record Sender : Type 0 where
  pub h_source : ℕ
  pub iface : ℕ

abbrev pub is_sender : {bm : Bitmap} → Sender → Neighbour bm → Bool
is_sender s n = (n.addr == s.h_source) && (n.if_incoming == s.iface)

abbrev is_neigh_dup : DupStatus → Bool
is_neigh_dup neigh_dup = true
is_neigh_dup no_dup = false
is_neigh_dup orig_dup = false
is_neigh_dup protected = false

module _ (bm : Bitmap) where
  -- The status after one neighbour.
  unfoldable pub next_status : Bool → Bool → DupStatus → DupStatus
  next_status sender is_dup ret =
      if sender
      then (if is_dup then neigh_dup else ret)
      else (if is_dup && not (is_neigh_dup ret) then orig_dup else ret)

  -- The loop over the neighbours: the status, `need_update`, and the list.
  unfoldable pub update_neighbours :
      Sender
      → ℕ
      → ℕ
      → List (Neighbour bm)
      → DupStatus
      → Bool
      → DupStatus × Bool × List (Neighbour bm)
  unfolding next_status
  update_neighbours s seqno last [] ret need_update = (ret, need_update, [])
  update_neighbours s seqno last (n ∷ ns) ret need_update =
      if not n.ifinfo
      then (let (ret', need', ns') = update_neighbours s seqno last ns ret need_update in
          (ret', need', n ∷ ns'))
      else (let is_dup = test_bit bm n.real_bits last seqno in
          let (moved, bits) = bit_get_packet bm n.real_bits (seq_diff seqno last) (is_sender s n) in
          let n' = record n { real_bits = bits; real_packet_count = bm.weight bits window_size } in
          let (ret', need', ns') =
            update_neighbours s seqno last ns (next_status (is_sender s n) is_dup ret)
              (need_update || moved) in
          (ret', need', n' ∷ ns'))

  -- `batadv_iv_ogm_update_seqnos`; `found` tells whether the originator and its entry for the
  -- outgoing interface are found or made.
  unfoldable pub update_seqnos :
      Jiffies → ℕ → Bool → Sender → ℕ → Originator bm → DupStatus × Originator bm
  unfolding update_neighbours
  update_seqnos jf now found s seqno orig =
      if not found
      then (no_dup, orig)
      else (let diff = seq_diff seqno orig.last_real_seqno in
          let p = window_protected jf now diff (pos window_size) orig.batman_seqno_reset in
          let reset = if is_empty orig.neigh_list then orig.batman_seqno_reset else p.last_reset in
          if not (is_empty orig.neigh_list) && p.ignored
          then (protected, record orig { batman_seqno_reset = reset })
          else (let (ret, need_update, ns) =
                update_neighbours s seqno orig.last_real_seqno orig.neigh_list no_dup false in
              (
                ret,
                record {
                  neigh_list = ns;
                  last_real_seqno = if need_update then seqno else orig.last_real_seqno;
                  batman_seqno_reset = reset;
                },
              )))
