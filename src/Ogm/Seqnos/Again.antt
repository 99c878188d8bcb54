-- ===== src/Ogm/Seqnos/Again.antt =====
-- An OGM that comes again is a duplicate.
use batman_adv.Common.{
  ℕ, ◌^◌, ◌<◌, ◌≡◌, ◌≢◌, ◌⊎◌, refl, ap, ◌∙◌, sym, Bool, true, false, ◌&&◌, not, arith, List, [],
  ◌∷◌, map, any, every, is_empty,
}
use batman_adv.Common.Int.{pos, ◌-ℤ◌}
use batman_adv.Kernel.{Bitmap, Jiffies}
use batman_adv.Word.{seq_diff, sub_word}
use batman_adv.Window.{window_size}
use batman_adv.Window.Seen.{new_last}
use batman_adv.Bcast.{window_protected}
use batman_adv.Ogm.Seqnos.{
  no_dup, orig_dup, neigh_dup, protected, Neighbour, Originator, Sender, is_sender, update_seqnos,
}
use batman_adv.Ogm.Seqnos.Status.{
  has_seen, moves, updated, status_of, updated_seen, update_status, update_seqnos_list,
}

inside_window :
    (jf : Jiffies) (now seqno last reset : ℕ)
    → last < 2 ^ 32
    → seqno < 2 ^ 32
    → sub_word 32 last seqno < window_size
    → (window_protected jf now (seq_diff seqno last) (pos window_size) reset).ignored ≡ false
unfolding window_protected seq_diff ◌-ℤ◌
inside_window jf now seqno last reset hl hs h = ground arith

module _ (bm : Bitmap) (jf : Jiffies) (now : ℕ) (s : Sender) (seqno : ℕ) where
  last-near :
      (last : ℕ)
      → last < 2 ^ 32
      → seqno < 2 ^ 32
      → sub_word 32 (new_last (moves bm seqno last) seqno last) seqno < window_size
  last-near last hl hs = ground arith

  sender_has_seen :
      (last : ℕ) (ns : List (Neighbour bm))
      → last < 2 ^ 32
      → seqno < 2 ^ 32
      → every (λ n. n.ifinfo) ns ≡ true
      → any (is_sender s) ns ≡ true
      → any
          (λ n. is_sender s n && has_seen bm (new_last (moves bm seqno last) seqno last) seqno n)
          (map (updated bm s seqno last) ns)
        ≡ true
  sender_has_seen last [] hl hs e a = a
  sender_has_seen last (n ∷ ns) hl hs e a = ground (
    arith,
    updated_seen bm jf now s seqno last seqno n hl hs hs,
    sender_has_seen last ns hl hs,
    last-near last hl hs,
  )

  any_weaken :
      (last : ℕ) (ns : List (Neighbour bm))
      → any (λ n. is_sender s n && has_seen bm last seqno n) ns ≡ true
      → any (has_seen bm last seqno) ns ≡ true
  any_weaken last [] h = h
  any_weaken last (n ∷ ns) h = ground (arith, any_weaken last ns)

  -- An OGM in the window is not refused.
  status_inside :
      (orig : Originator bm)
      → orig.last_real_seqno < 2 ^ 32
      → seqno < 2 ^ 32
      → sub_word 32 orig.last_real_seqno seqno < window_size
      → (update_seqnos bm jf now true s seqno orig).0
        ≡ status_of bm s orig.last_real_seqno seqno orig.neigh_list
  unfolding update_seqnos
  status_inside orig hl hs h = ground (
    arith,
    inside_window jf now seqno orig.last_real_seqno orig.batman_seqno_reset hl hs h,
    update_status bm s seqno orig.last_real_seqno orig.neigh_list no_dup false,
  )

not_empty : {A : Type 0} (p : A → Bool) (xs : List A) → any p xs ≡ true → is_empty xs ≡ false
not_empty p [] h = sym h
not_empty p (x ∷ xs) h = refl

new_last-lt :
    (b : Bool) (seqno last : ℕ) → last < 2 ^ 32 → seqno < 2 ^ 32 → new_last b seqno last < 2 ^ 32
new_last-lt b seqno last hl hs = ground arith

-- The originator after an OGM that a neighbour sent and that was not refused.
after_sender :
    (bm : Bitmap) (jf : Jiffies) (now seqno : ℕ) (s : Sender) (orig : Originator bm)
    → orig.last_real_seqno < 2 ^ 32
    → seqno < 2 ^ 32
    → every (λ n. n.ifinfo) orig.neigh_list ≡ true
    → any (is_sender s) orig.neigh_list ≡ true
    → (update_seqnos bm jf now true s seqno orig).0 ≢ protected
    → let orig' = (update_seqnos bm jf now true s seqno orig).1 in
      (orig'.last_real_seqno < 2 ^ 32)
      × (sub_word 32 orig'.last_real_seqno seqno < window_size)
      × (any (λ n. is_sender s n && has_seen bm orig'.last_real_seqno seqno n) orig'.neigh_list
          ≡ true)
after_sender bm jf now seqno s orig hl hs e a h =
    let last = orig.last_real_seqno in
    let l = update_seqnos_list bm jf now s seqno orig hl hs e h in
    let same =
      l.0
      ∙ ap (λ b. new_last (not b && moves bm seqno last) seqno last)
          (not_empty (is_sender s) orig.neigh_list a) in
    rw (same, l.1)
      (
        new_last-lt (moves bm seqno last) seqno last hl hs,
        last-near bm jf now s seqno last hl hs,
        sender_has_seen bm jf now s seqno last orig.neigh_list hl hs e a,
      )

-- When an OGM from a neighbour was not refused (all numbers of 32 bits, the entries of all neighbours
-- found or made), then the same OGM right after it is, at any time, a duplicate of that neighbour if
-- it comes from there again, and a duplicate of that or of another neighbour wherever it comes from.
pub update_seqnos_again :
    (bm : Bitmap) (jf : Jiffies) (now later seqno : ℕ) (s s' : Sender) (orig : Originator bm)
    → orig.last_real_seqno < 2 ^ 32
    → seqno < 2 ^ 32
    → every (λ n. n.ifinfo) orig.neigh_list ≡ true
    → any (is_sender s) orig.neigh_list ≡ true
    → (update_seqnos bm jf now true s seqno orig).0 ≢ protected
    → let orig' = (update_seqnos bm jf now true s seqno orig).1 in
      ((update_seqnos bm jf later true s seqno orig').0 ≡ neigh_dup)
      × (((update_seqnos bm jf later true s' seqno orig').0 ≡ neigh_dup)
          ⊎ ((update_seqnos bm jf later true s' seqno orig').0 ≡ orig_dup))
update_seqnos_again bm jf now later seqno s s' orig hl hs e a h =
    let orig' : Originator bm = (update_seqnos bm jf now true s seqno orig).1 in
    let p = after_sender bm jf now seqno s orig hl hs e a h in
    let w = any_weaken bm jf now s seqno orig'.last_real_seqno orig'.neigh_list p.2 in
    ground (
      arith,
      status_inside bm jf later s seqno orig' p.0 hs p.1,
      status_inside bm jf later s' seqno orig' p.0 hs p.1,
    )
