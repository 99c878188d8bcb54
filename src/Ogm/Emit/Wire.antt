-- ===== src/Ogm/Emit/Wire.antt =====
-- What a waiting packet puts on the wire, and what a receiver takes from it.
use batman_adv.Common.{
  ℕ, zero, suc, ◌+◌, ◌%◌, ◌^◌, ◌≤◌, ◌<◌, ◌≡◌, refl, sym, ap, ◌∙◌, subst, Bool, true, false, ◌&&◌,
  ◌==◌, if◌then◌else◌, arith, List, [], ◌∷◌, ◌++◌, some, length, get_or, set, map, All,
  append_assoc, length-append, length-set, get_or-set_ne, get_or-set_self, ap₂, set-append_left,
  set-append_right,
}
use batman_adv.Word.Flags.{test_flag, set_flag, clear_flag, test-set_flag, test-clear_flag}
use batman_adv.Ogm.Packet.{
  ogm_hlen, max_aggregation_bytes, tvlv_len_at, Received, check_management_packet, ogm_receive,
}
use batman_adv.Ogm.Packet.Parse.{IsOgm, concat, starts, byte_at, receive_ogms}
use batman_adv.Ogm.Queue.{ForwPacket, directlink, flags_of}
use batman_adv.Ogm.Queue.Holds.{Item, ogms, directs, Holds, length-concat, length-ogms}
use batman_adv.Ogm.Emit.{Emission, flag_loop, send_to_if, emit}

-- The flags of an OGM on the wire, and the OGM with them.
abbrev pub wire_flags : Bool → ℕ → ℕ
wire_flags direct flags = if direct then set_flag directlink flags else clear_flag directlink flags

abbrev pub on_wire : Bool → Item → List ℕ
on_wire here (o, direct) = set o 3 (wire_flags (direct && here) (flags_of o))

set-IsOgm : (o : List ℕ) (v : ℕ) → IsOgm o → IsOgm (set o 3 v)
set-IsOgm o v w =
    rw
      (
        length-set o 3 v,
        get_or-set_ne o {i = 3} {j = 22} v 0 (omega arith),
        get_or-set_ne o {i = 3} {j = 23} v 0 (omega arith),
      )
      w

module _ (beyond : ℕ → ℕ) (forw : ForwPacket) (hard_iface : ℕ) where
  -- One round on an OGM.
  flag_step :
      (fuel pos num n : ℕ) (direct : Bool) (skb skb' out : List ℕ)
      → ogm_hlen + tvlv_len_at beyond skb pos ≡ n
      → pos + n ≤ forw.packet_len
      → pos + n ≤ max_aggregation_bytes
      → num < 255
      → test_flag num forw.direct_link_flags ≡ direct
      → set skb
          (pos + 3)
          (wire_flags (direct && (forw.if_incoming == hard_iface)) (get_or skb (pos + 3) 0))
        ≡ skb'
      → flag_loop fuel beyond forw hard_iface (pos + n) (suc num) skb' ≡ out
      → flag_loop (suc fuel) beyond forw hard_iface pos num skb ≡ out
  unfolding flag_loop
  flag_step fuel pos num n direct skb skb' out e h hm few d s step =
      let e' : pos + ogm_hlen + tvlv_len_at beyond skb pos ≡ pos + n = omega (arith, e) in
      let num' : (num + 1) % 2 ^ 8 ≡ suc num = omega arith in
      rw (d, e', num', s) (ground (arith, step))

  flag_stop :
      (fuel pos num : ℕ) (skb : List ℕ)
      → forw.packet_len < pos + ogm_hlen
      → flag_loop (suc fuel) beyond forw hard_iface pos num skb ≡ skb
  unfolding flag_loop
  flag_stop fuel pos num skb h = ground arith

  flag_items :
      (fuel num : ℕ) (pre : List ℕ) (items : List Item)
      → forw.packet_len ≡ length pre + length (concat (ogms items))
      → forw.packet_len ≤ max_aggregation_bytes
      → length (concat (ogms items)) < fuel
      → num + length items < 256
      → All IsOgm (ogms items)
      → ((k : ℕ) → test_flag (num + k) forw.direct_link_flags ≡ get_or (directs items) k false)
      → flag_loop fuel beyond forw hard_iface (length pre) num (pre ++ concat (ogms items))
        ≡ pre ++ concat (map (on_wire (forw.if_incoming == hard_iface)) items)
  flag_items zero num pre items e hm hf few w marked = absurd (omega arith)
  flag_items (suc fuel) num pre [] e hm hf few w marked =
      flag_stop fuel (length pre) num (pre ++ []) (omega arith)
  flag_items (suc fuel) num pre ((o, direct) ∷ items) e hm hf few w marked =
      let tail : List ℕ = concat (ogms items) in
      let v = wire_flags (direct && (forw.if_incoming == hard_iface)) (flags_of o) in
      let o' : List ℕ = set o 3 v in
      let l = length-append o tail in
      let hi = byte_at beyond pre o tail 22 (omega (arith, w.0)) in
      let lo = byte_at beyond pre o tail 23 (omega (arith, w.0)) in
      let old : get_or (pre ++ (o ++ tail)) (length pre + 3) 0 ≡ flags_of o =
        byte_at (λ i. 0) pre o tail 3 (omega (arith, w.0)) in
      let put : set (pre ++ (o ++ tail)) (length pre + 3) v ≡ pre ++ o' ++ tail =
        set-append_right pre (o ++ tail) 3 v
        ∙ (ap (λ z. pre ++ z) (set-append_left o tail 3 v (omega (arith, w.0)))
            ∙ sym (append_assoc pre o' tail)) in
      let first : num ≡ num + 0 = omega arith in
      let next : (k : ℕ) → suc num + k ≡ num + suc k = λ k. omega arith in
      let n : length (pre ++ o') ≡ length pre + length o =
        length-append pre o' ∙ ap (λ m. length pre + m) (length-set o 3 v) in
      let step =
        flag_items fuel (suc num) (pre ++ o') items (omega (arith, l, n)) hm (omega (arith, l, w.0))
          (omega arith) w.1
          (λ k. ap (λ j. test_flag j forw.direct_link_flags) (next k) ∙ marked (suc k)) in
      let out = concat (map (on_wire (forw.if_incoming == hard_iface)) items) in
      flag_step fuel (length pre) num (length o) direct (pre ++ (o ++ tail)) (pre ++ o' ++ tail) _
        (rw (hi, lo) (sym w.0)) (omega (arith, l)) (omega (arith, l)) (omega arith)
        (ap (λ j. test_flag j forw.direct_link_flags) first ∙ marked 0) (rw (old) put)
        (subst
          (λ m.
            flag_loop fuel beyond forw hard_iface m (suc num) (pre ++ o' ++ tail)
            ≡ pre ++ (o' ++ out))
          n (step ∙ append_assoc pre o' out))

on_wire-IsOgm :
    (here : Bool) (items : List Item)
    → All IsOgm (ogms items)
    → All IsOgm (map (on_wire here) items)
on_wire-IsOgm here [] w = tt
on_wire-IsOgm here ((o, direct) ∷ items) w = (set-IsOgm o _ w.0, on_wire-IsOgm here items w.1)

length-on_wire :
    (here : Bool) (items : List Item)
    → length (concat (map (on_wire here) items)) ≡ length (concat (ogms items))
length-on_wire here [] = refl
length-on_wire here ((o, direct) ∷ items) = omega (
  arith,
  length-append (on_wire here (o, direct)) (concat (map (on_wire here) items)),
  length-append o (concat (ogms items)),
  length-set o 3 (wire_flags (direct && here) (flags_of o)),
  length-on_wire here items,
)

-- The direct link flag of an OGM on the wire.
flag-on_wire :
    (here : Bool) (items : List Item)
    → All IsOgm (ogms items)
    → map (λ o. test_flag directlink (flags_of o)) (map (on_wire here) items)
      ≡ map (λ i. i.1 && here) items
flag-on_wire here [] w = refl
flag-on_wire here ((o, direct) ∷ items) w =
    let v = wire_flags (direct && here) (flags_of o) in
    let read : get_or (set o 3 v) 3 0 ≡ v = get_or-set_self o 3 v 0 (omega (arith, w.0)) in
    ap₂ ◌∷◌
      (rw (read) (ground (arith, test-set_flag 2 2 (flags_of o), test-clear_flag 2 2 (flags_of o))))
      (flag-on_wire here items w.1)

-- A packet may leave: its interfaces are there and active, and the clone succeeds.
pub record Ready (e : Emission) : Type 0 where
  pub incoming : e.incoming_set ≡ true
  pub outgoing : e.outgoing_set ≡ true
  pub soft : e.same_soft_iface ≡ true
  pub incoming_up : e.incoming_active ≡ true
  pub primary : e.primary_selected ≡ true
  pub outgoing_up : e.outgoing_active ≡ true
  pub clone : e.clone_ok ≡ true

emit-Ready :
    (e : Emission) (beyond : ℕ → ℕ) (forw : ForwPacket)
    → Ready e
    → emit e beyond forw
      ≡ some (flag_loop (suc forw.packet_len) beyond forw forw.if_outgoing 0 0 forw.skb)
unfolding emit send_to_if
emit-Ready e beyond forw ready = ground arith

-- A waiting packet of OGMs, of at most 512 bytes, that may leave: what is broadcast are its OGMs in
-- order, each as it was queued but for the direct link flag, which is set exactly for the direct
-- links among them if the packet leaves on the interface where it came in; and a receiver whose
-- checks it passes, with less than a header of padding behind it, processes each of them where it begins.
pub emit_received :
    (e : Emission) (r : Received) (beyond beyond' : ℕ → ℕ) (forw : ForwPacket) (items : List Item)
    (padding : List ℕ)
    → Ready e
    → check_management_packet r ≡ true
    → Holds items forw
    → forw.packet_len ≤ max_aggregation_bytes
    → length padding < ogm_hlen
    → let here = forw.if_incoming == forw.if_outgoing in
      let wire = map (on_wire here) items in
      (emit e beyond forw ≡ some (concat wire))
      × (ogm_receive r true beyond' (concat wire ++ padding) ≡ starts 0 wire)
      × (map (λ o. test_flag directlink (flags_of o)) wire ≡ map (λ i. i.1 && here) items)
emit_received e r b b' forw items padding ready ok h small pad =
    let here = forw.if_incoming == forw.if_outgoing in
    let same : length forw.skb ≡ length (concat (ogms items)) = ap (length {0}) h.bytes in
    let count : length items < 256 =
      omega (arith, length-concat (ogms items) h.whole, length-ogms items, same, h.measured) in
    let flags : (k : ℕ)
        → test_flag (0 + k) forw.direct_link_flags ≡ get_or (directs items) k false =
      λ k. ap (λ j. test_flag j forw.direct_link_flags) (omega arith) ∙ h.marked k in
    let loop =
      flag_items b forw forw.if_outgoing (suc forw.packet_len) 0 [] items
        (omega (arith, same, h.measured)) small (omega (arith, same, h.measured)) (omega arith)
        h.whole flags in
    (
      emit-Ready e b forw ready
          ∙ ap some
              (ap (flag_loop (suc forw.packet_len) b forw forw.if_outgoing 0 0) h.bytes ∙ loop),
      receive_ogms r b' (map (on_wire here) items) padding ok (on_wire-IsOgm here items h.whole) pad
          (omega (arith, length-on_wire here items, same, h.measured)),
      flag-on_wire here items h.whole,
    )
