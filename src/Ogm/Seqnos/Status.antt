-- ===== src/Ogm/Seqnos/Status.antt =====
-- What batadv_iv_ogm_update_seqnos returns, and what the neighbours have seen after it.
use batman_adv.Common.{
  ℕ, ◌^◌, ◌<◌, ◌≡◌, ◌≢◌, subst, refl, ap, ap₂, ◌∙◌, Bool, true, false, ◌&&◌, ◌||◌, not, ◌==◌,
  if◌then◌else◌, ltb, arith, List, [], ◌∷◌, map, any, every, is_empty,
}
use batman_adv.Kernel.{Bitmap, Jiffies}
use batman_adv.Word.{seq_diff, sub_word}
use batman_adv.Window.{window_size, test_bit, bit_get_packet}
use batman_adv.Window.Seen.{seen_after, new_last}
use batman_adv.Ogm.Seqnos.{
  DupStatus, no_dup, orig_dup, neigh_dup, protected, Neighbour, Originator, Sender, is_sender,
  is_neigh_dup, next_status, update_neighbours, update_seqnos,
}

module _ (bm : Bitmap) where
  -- The neighbour has seen the number q.
  abbrev pub has_seen : ℕ → ℕ → Neighbour bm → Bool
  has_seen last q n = n.ifinfo && test_bit bm n.real_bits last q

  -- The status by what the sender and the others have seen.
  abbrev pub status_of : Sender → ℕ → ℕ → List (Neighbour bm) → DupStatus
  status_of s last seqno ns =
      if any (λ n. is_sender s n && has_seen last seqno n) ns
      then neigh_dup
      else (if any (λ n. has_seen last seqno n) ns then orig_dup else no_dup)

  -- The status by the answers of the list.
  abbrev status_if : Bool → Bool → DupStatus
  status_if by_sender by_any =
      if by_sender then neigh_dup else (if by_any then orig_dup else no_dup)

  -- A status joined with that of the rest of the list.
  abbrev join : DupStatus → Bool → Bool → DupStatus
  join ret by_sender by_any =
      if by_sender then neigh_dup else (if by_any && not (is_neigh_dup ret) then orig_dup else ret)

  join_next :
      (ret : DupStatus) (sender is_dup a b : Bool)
      → join (next_status bm sender is_dup ret) a b
        ≡ join ret ((sender && is_dup) || a) (is_dup || b)
  unfolding next_status
  join_next ret false false a b = refl
  join_next ret true false a b = refl
  join_next no_dup false true a b = ground arith
  join_next orig_dup false true a b = ground arith
  join_next neigh_dup false true a b = ground arith
  join_next protected false true a b = ground arith
  join_next ret true true a b = ground arith

  pub update_status :
      (s : Sender) (seqno last : ℕ) (ns : List (Neighbour bm)) (ret : DupStatus) (need : Bool)
      → (update_neighbours bm s seqno last ns ret need).0
        ≡ join ret
            (any (λ n. is_sender s n && has_seen last seqno n) ns)
            (any (has_seen last seqno) ns)
  unfolding update_neighbours
  update_status s seqno last [] ret need = refl
  update_status s seqno last (n ∷ ns) ret need =
      let seen = test_bit bm n.real_bits last seqno in
      let moved = (bit_get_packet bm n.real_bits (seq_diff seqno last) (is_sender s n)).0 in
      ground (
        arith,
        update_status s seqno last ns ret need,
        update_status s seqno last ns (next_status bm (is_sender s n) seen ret) (need || moved),
        join_next ret (is_sender s n) seen (any (λ m. is_sender s m && has_seen last seqno m) ns)
            (any (has_seen last seqno) ns),
      )

  -- A number is not in the window of the last one, up to it.
  abbrev pub moves : ℕ → ℕ → Bool
  moves seqno last = not (ltb (sub_word 32 last seqno) window_size)

  moves_lem :
      (bits : bm.Bits) (seqno last : ℕ) (m : Bool)
      → last < 2 ^ 32
      → seqno < 2 ^ 32
      → (bit_get_packet bm bits (seq_diff seqno last) m).0 ≡ moves seqno last
  unfolding bit_get_packet seq_diff
  moves_lem bits seqno last m hl hs = ground arith

  -- A neighbour after the OGM.
  abbrev pub updated : Sender → ℕ → ℕ → Neighbour bm → Neighbour bm
  updated s seqno last n =
      let bits = (bit_get_packet bm n.real_bits (seq_diff seqno last) (is_sender s n)).1 in
      record n { real_bits = bits; real_packet_count = bm.weight bits window_size }

  update_list :
      (s : Sender) (seqno last : ℕ) (ns : List (Neighbour bm)) (ret : DupStatus) (need : Bool)
      → last < 2 ^ 32
      → seqno < 2 ^ 32
      → every (λ n. n.ifinfo) ns ≡ true
      → let r = update_neighbours bm s seqno last ns ret need in
        (r.1 ≡ (need || (not (is_empty ns) && moves seqno last)))
        × (r.2 ≡ map (updated s seqno last) ns)
  unfolding update_neighbours
  update_list s seqno last [] ret need hl hs h = (ground arith, refl)
  update_list s seqno last (n ∷ ns) ret need hl hs h =
      let seen = test_bit bm n.real_bits last seqno in
      let moved = (bit_get_packet bm n.real_bits (seq_diff seqno last) (is_sender s n)).0 in
      ground (
        arith,
        update_list s seqno last ns (next_status bm (is_sender s n) seen ret) (need || moved) hl hs,
        moves_lem n.real_bits seqno last (is_sender s n) hl hs,
      )

  module _ (jf : Jiffies) (now : ℕ) (s : Sender) (seqno : ℕ) where
    -- An OGM that is not in the protection time is reported as a duplicate of the neighbour that
    -- sent it if that one has seen its number, of another neighbour if only others have, and as new
    -- if none has.
    pub update_seqnos_status :
        (orig : Originator bm)
        → (update_seqnos bm jf now true s seqno orig).0 ≢ protected
        → (update_seqnos bm jf now true s seqno orig).0
          ≡ status_of s orig.last_real_seqno seqno orig.neigh_list
    unfolding update_seqnos
    update_seqnos_status orig h =
        ground (arith, update_status s seqno orig.last_real_seqno orig.neigh_list no_dup false)

    -- The originator after an OGM that was not refused.
    pub update_seqnos_list :
        (orig : Originator bm)
        → orig.last_real_seqno < 2 ^ 32
        → seqno < 2 ^ 32
        → every (λ n. n.ifinfo) orig.neigh_list ≡ true
        → (update_seqnos bm jf now true s seqno orig).0 ≢ protected
        → let orig' = (update_seqnos bm jf now true s seqno orig).1 in
          (orig'.last_real_seqno
            ≡ new_last
                (not (is_empty orig.neigh_list) && moves seqno orig.last_real_seqno)
                seqno
                orig.last_real_seqno)
          × (orig'.neigh_list ≡ map (updated s seqno orig.last_real_seqno) orig.neigh_list)
    unfolding update_seqnos
    update_seqnos_list orig hl hs e h =
        ground
          (arith, update_list s seqno orig.last_real_seqno orig.neigh_list no_dup false hl hs e)

    -- One neighbour after the OGM.
    pub updated_seen :
        (last q : ℕ) (n : Neighbour bm)
        → last < 2 ^ 32
        → seqno < 2 ^ 32
        → q < 2 ^ 32
        → n.ifinfo ≡ true
        → has_seen (new_last (moves seqno last) seqno last) q (updated s seqno last n) ≡ (
            ltb (sub_word 32 (new_last (moves seqno last) seqno last) q) window_size
            && ((is_sender s n && (q == seqno)) || has_seen last q n))
    updated_seen last q n hl hs hq e =
        let a = seen_after bm n.real_bits last seqno q (is_sender s n) hl hs hq in
        let m = moves_lem n.real_bits seqno last (is_sender s n) hl hs in
        rw (e) (
          subst
            (λ b. test_bit bm (updated s seqno last n).real_bits (new_last b seqno last) q ≡ (
              ltb (sub_word 32 (new_last b seqno last) q) window_size
              && ((is_sender s n && (q == seqno)) || test_bit bm n.real_bits last q)))
            m a)

    updated_seen_all :
        (last q : ℕ) (ns : List (Neighbour bm))
        → last < 2 ^ 32
        → seqno < 2 ^ 32
        → q < 2 ^ 32
        → every (λ n. n.ifinfo) ns ≡ true
        → map (has_seen (new_last (moves seqno last) seqno last) q) (map (updated s seqno last) ns)
          ≡ map
              (λ n.
                ltb (sub_word 32 (new_last (moves seqno last) seqno last) q) window_size
                && ((is_sender s n && (q == seqno)) || has_seen last q n))
              ns
    updated_seen_all last q [] hl hs hq e = refl
    updated_seen_all last q (n ∷ ns) hl hs hq e =
        ap₂ ◌∷◌ (updated_seen last q n hl hs hq (ground arith))
          (updated_seen_all last q ns hl hs hq (ground arith))

    -- After an OGM that is not in the protection time, of an originator that has a neighbour, with all
    -- numbers of 32 bits and the entries of all neighbours found or made: the last number is the OGM's if that is not one of the 64 up to
    -- the old one, and a neighbour has seen a number exactly when it is one of the 64 up to the new
    -- last number, and the neighbour sent this OGM with it or had seen it before.
    pub update_seqnos_seen :
        (orig : Originator bm) (q : ℕ)
        → orig.last_real_seqno < 2 ^ 32
        → seqno < 2 ^ 32
        → q < 2 ^ 32
        → is_empty orig.neigh_list ≡ false
        → every (λ n. n.ifinfo) orig.neigh_list ≡ true
        → (update_seqnos bm jf now true s seqno orig).0 ≢ protected
        → let last = orig.last_real_seqno in
          let last' = new_last (moves seqno last) seqno last in
          let orig' = (update_seqnos bm jf now true s seqno orig).1 in
          (orig'.last_real_seqno ≡ last')
          × (map (has_seen orig'.last_real_seqno q) orig'.neigh_list
              ≡ map
                  (λ n.
                    ltb (sub_word 32 last' q) window_size
                    && ((is_sender s n && (q == seqno)) || has_seen last q n))
                  orig.neigh_list)
    update_seqnos_seen orig q hl hs hq ne e h =
        let l = update_seqnos_list orig hl hs e h in
        let last = orig.last_real_seqno in
        let same = l.0 ∙ ap (λ b. new_last (not b && moves seqno last) seqno last) ne in
        (same, rw (same, l.1) (updated_seen_all last q orig.neigh_list hl hs hq e))
