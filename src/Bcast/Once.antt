-- ===== src/Bcast/Once.antt =====
-- No broadcast is accepted twice while its sequence number lies in the window.
use batman_adv.Common.{ℕ, ◌^◌, ◌<◌, ◌≡◌, Bool, true, false, arith, List, [], ◌∷◌, ltb}
use batman_adv.Kernel.{Bitmap, Jiffies}
use batman_adv.Word.{sub_word, seq_diff}
use batman_adv.Window.{window_size, test_bit, bit_get_packet}
use batman_adv.Window.Seen.{seen_after}
use batman_adv.Bcast.{Flood, accept}

module _ (bm : Bitmap) (jf : Jiffies) where
  -- The history holds the sequence number q.
  abbrev pub Holds : ℕ → Flood bm → Type 0
  Holds q node = test_bit bm node.bcast_bits node.last_bcast_seqno q ≡ true

  abbrev pub near : ℕ → Flood bm → Bool
  near q node = ltb (sub_word 32 node.last_bcast_seqno q) window_size

  accept_last-lt :
      (now seqno : ℕ) (node : Flood bm)
      → seqno < 2 ^ 32
      → node.last_bcast_seqno < 2 ^ 32
      → (accept bm jf now seqno node).1.last_bcast_seqno < 2 ^ 32
  unfolding accept
  accept_last-lt now seqno node hs hl = ground arith

  -- What an accepted packet leaves in the history.
  accept_seen :
      (now seqno q : ℕ) (node : Flood bm)
      → seqno < 2 ^ 32
      → q < 2 ^ 32
      → node.last_bcast_seqno < 2 ^ 32
      → near q (accept bm jf now seqno node).1 ≡ true
      → Holds q node
      → Holds q (accept bm jf now seqno node).1
  unfolding accept
  accept_seen now seqno q node hs hq hl hn h =
      ground (arith, seen_after bm node.bcast_bits node.last_bcast_seqno seqno q true hl hs hq)

  -- A packet that is accepted is in the history afterwards.
  accept_self :
      (now seqno : ℕ) (node : Flood bm)
      → seqno < 2 ^ 32
      → node.last_bcast_seqno < 2 ^ 32
      → (accept bm jf now seqno node).0 ≡ true
      → near seqno (accept bm jf now seqno node).1 ≡ true
      → Holds seqno (accept bm jf now seqno node).1
  unfolding accept
  accept_self now seqno node hs hl h hn =
      ground (arith, seen_after bm node.bcast_bits node.last_bcast_seqno seqno seqno true hl hs hs)

  -- The packet just accepted always lies in the window.
  accept-near :
      (now seqno : ℕ) (node : Flood bm)
      → seqno < 2 ^ 32
      → node.last_bcast_seqno < 2 ^ 32
      → (accept bm jf now seqno node).0 ≡ true
      → near seqno (accept bm jf now seqno node).1 ≡ true
  unfolding accept bit_get_packet seq_diff
  accept-near now seqno node hs hl h = ground arith

  -- A packet in the history is refused, and leaves it alone.
  accept_held :
      (now seqno : ℕ) (node : Flood bm)
      → Holds seqno node
      → accept bm jf now seqno node ≡ (false, node)
  unfolding accept
  accept_held now seqno node h = rw h

  -- Receptions in order, each with its time and sequence number.
  abbrev pub receive_all : List (ℕ × ℕ) → Flood bm → Flood bm
  receive_all [] node = node
  receive_all ((now, q) ∷ rest) node = receive_all rest (accept bm jf now q node).1

  -- The number s stays in the window throughout.
  abbrev pub StaysNear : ℕ → List (ℕ × ℕ) → Flood bm → Type 0
  StaysNear s [] node = Unit
  StaysNear s ((now, q) ∷ rest) node =
      (q < 2 ^ 32)
      × (near s (accept bm jf now q node).1 ≡ true)
      × StaysNear s rest (accept bm jf now q node).1

  receive_all-Holds :
      (s : ℕ) (history : List (ℕ × ℕ)) (node : Flood bm)
      → s < 2 ^ 32
      → node.last_bcast_seqno < 2 ^ 32
      → StaysNear s history node
      → Holds s node
      → Holds s (receive_all history node)
  receive_all-Holds s [] node hs hl near_all h = h
  receive_all-Holds s ((now, q) ∷ rest) node hs hl near_all h =
      receive_all-Holds s rest (accept bm jf now q node).1 hs
        (accept_last-lt now q node near_all.0 hl) near_all.2
        (accept_seen now q s node near_all.0 hs hl near_all.1 h)

  -- A broadcast that was accepted is refused when it comes again, after any other packets as long as
  -- the windows that they leave still contain its number, and the refusal changes nothing.
  pub accept_once :
      (now later seqno : ℕ) (history : List (ℕ × ℕ)) (node : Flood bm)
      → seqno < 2 ^ 32
      → node.last_bcast_seqno < 2 ^ 32
      → (accept bm jf now seqno node).0 ≡ true
      → StaysNear seqno history (accept bm jf now seqno node).1
      → let after = receive_all history (accept bm jf now seqno node).1 in
        accept bm jf later seqno after ≡ (false, after)
  accept_once now later seqno history node hs hl h near_all = accept_held later seqno _ (
      receive_all-Holds seqno history (accept bm jf now seqno node).1 hs
        (accept_last-lt now seqno node hs hl) near_all
        (accept_self now seqno node hs hl h (accept-near now seqno node hs hl h)))
