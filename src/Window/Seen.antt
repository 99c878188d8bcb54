-- ===== src/Window/Seen.antt =====
-- The window as a set of sequence numbers: what batadv_bit_get_packet does to it.
use batman_adv.Common.{
  ℕ, ◌^◌, ◌<◌, ◌≤◌, ◌≡◌, Bool, true, false, ◌&&◌, ◌||◌, ◌==◌, ltb, arith, if◌then◌else◌, dec_lt,
}
use batman_adv.Word.{seq_diff, sub_word}
use batman_adv.Kernel.{Bitmap}
use batman_adv.Window.{window_size, test_bit, bit_get_packet}

-- The last sequence number that the callers keep beside the window after a packet.
abbrev pub new_last : Bool → ℕ → ℕ → ℕ
new_last moved seqno last = if moved then seqno else last

module _ (bm : Bitmap) where
  -- `batadv_test_bit`, by the unsigned distance of the two numbers.
  pub test_bit_lem :
      (bits : bm.Bits) (last q : ℕ)
      → last < 2 ^ 32
      → q < 2 ^ 32
      → test_bit bm bits last q
        ≡ (ltb (sub_word 32 last q) window_size && bm.test (sub_word 32 last q) bits)
  unfolding test_bit seq_diff
  test_bit_lem bits last q hl hq = ground arith

  -- The last number again, or one that is slightly older: the window stays.
  packet_older :
      (bits : bm.Bits) (last seqno : ℕ) (m : Bool)
      → last < 2 ^ 32
      → seqno < 2 ^ 32
      → sub_word 32 last seqno < window_size
      → bit_get_packet bm bits (seq_diff seqno last) m
        ≡ (false, if m then bm.set (sub_word 32 last seqno) bits else bits)
  unfolding bit_get_packet seq_diff
  packet_older bits last seqno m hl hs h = ground arith

  packet_newer :
      (bits : bm.Bits) (last seqno : ℕ) (m : Bool)
      → last < 2 ^ 32
      → seqno < 2 ^ 32
      → 0 < sub_word 32 seqno last
      → sub_word 32 seqno last < window_size
      → bit_get_packet bm bits (seq_diff seqno last) m ≡ (
        true,
        if m
            then bm.set 0 (bm.shift_left bits (sub_word 32 seqno last) window_size)
            else bm.shift_left bits (sub_word 32 seqno last) window_size,
      )
  unfolding bit_get_packet seq_diff
  packet_newer bits last seqno m hl hs h0 h = ground arith

  packet_far :
      (bits : bm.Bits) (last seqno : ℕ) (m : Bool)
      → last < 2 ^ 32
      → seqno < 2 ^ 32
      → window_size ≤ sub_word 32 last seqno
      → window_size ≤ sub_word 32 seqno last
      → bit_get_packet bm bits (seq_diff seqno last) m
        ≡ (true, if m then bm.set 0 (bm.clear bits window_size) else bm.clear bits window_size)
  unfolding bit_get_packet seq_diff
  packet_far bits last seqno m hl hs h0 h = ground arith

  module _ (bits : bm.Bits) (last seqno q : ℕ) (m : Bool) (hl : last < 2 ^ 32) (hs : seqno < 2 ^ 32)
      (hq : q < 2 ^ 32) where
    -- The window after a packet: the last number, and whether q is seen.
    abbrev After : Bool × bm.Bits → Type 0
    After r = test_bit bm r.1 (new_last r.0 seqno last) q ≡ (
        ltb (sub_word 32 (new_last r.0 seqno last) q) window_size
        && ((m && (q == seqno)) || test_bit bm bits last q))

    case_older :
        sub_word 32 last seqno < window_size
        → After (bit_get_packet bm bits (seq_diff seqno last) m)
    case_older h = rw (packet_older bits last seqno m hl hs h) (
        ground (
          arith,
          test_bit_lem bits last q hl hq,
          test_bit_lem (bm.set (sub_word 32 last seqno) bits) last q hl hq,
          bm.test-set bits (sub_word 32 last seqno) (sub_word 32 last q),
        ))

    case_newer :
        0 < sub_word 32 seqno last
        → sub_word 32 seqno last < window_size
        → After (bit_get_packet bm bits (seq_diff seqno last) m)
    case_newer h0 h =
        let b : bm.Bits = bm.shift_left bits (sub_word 32 seqno last) window_size in
        rw (packet_newer bits last seqno m hl hs h0 h) (
          ground (
            arith,
            test_bit_lem bits last q hl hq,
            test_bit_lem b seqno q hs hq,
            test_bit_lem (bm.set 0 b) seqno q hs hq,
            bm.test-set b 0 (sub_word 32 seqno q),
            bm.test-shift_left bits (sub_word 32 seqno last) window_size (sub_word 32 seqno q),
          ))

    case_far :
        window_size ≤ sub_word 32 last seqno
        → window_size ≤ sub_word 32 seqno last
        → After (bit_get_packet bm bits (seq_diff seqno last) m)
    case_far h0 h =
        let b : bm.Bits = bm.clear bits window_size in
        rw (packet_far bits last seqno m hl hs h0 h) (
          ground (
            arith,
            test_bit_lem bits last q hl hq,
            test_bit_lem b seqno q hs hq,
            test_bit_lem (bm.set 0 b) seqno q hs hq,
            bm.test-set b 0 (sub_word 32 seqno q),
            bm.test-clear bits window_size (sub_word 32 seqno q),
          ))

  -- After batadv_bit_get_packet with the number seqno on a window that ends at the number last, a
  -- number q is seen in the new window exactly when it is one of the last 64 before the new last
  -- number and it is seqno itself (where set_mark says so) or was seen before. All are 32 bits wide.
  pub seen_after :
      (bits : bm.Bits) (last seqno q : ℕ) (set_mark : Bool)
      → last < 2 ^ 32
      → seqno < 2 ^ 32
      → q < 2 ^ 32
      → let (moved, bits') = bit_get_packet bm bits (seq_diff seqno last) set_mark in
        test_bit bm bits' (new_last moved seqno last) q ≡ (
          ltb (sub_word 32 (new_last moved seqno last) q) window_size
          && ((set_mark && (q == seqno)) || test_bit bm bits last q))
  seen_after bits last seqno q m hl hs hq = elim (dec_lt (sub_word 32 last seqno) window_size) [
    | yes h ↦ case_older bits last seqno q m hl hs hq h
    | no h ↦ elim (dec_lt (sub_word 32 seqno last) window_size) [
      | yes h' ↦ case_newer bits last seqno q m hl hs hq (omega arith) h'
      | no h' ↦ case_far bits last seqno q m hl hs hq (omega arith) (omega arith)
    ]
  ]
