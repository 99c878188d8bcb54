-- ===== src/Ogm/Own/Echo.antt =====
-- The window of our own OGMs, by the history of what was scheduled and what came back.
use batman_adv.Common.{
  ℕ, ◌+◌, ◌%◌, ◌^◌, ◌<◌, ◌≡◌, refl, ◌∙◌, subst, Bool, true, false, ◌&&◌, ◌||◌, ◌==◌, ltb, arith,
  List, [], ◌∷◌, All,
}
use batman_adv.Common.Int.{pos}
use batman_adv.Kernel.{Bitmap, count_below}
use batman_adv.Word.{seq_diff, sub_word}
use batman_adv.Word.Flags.{test_flag}
use batman_adv.Window.{window_size, set_bit, test_bit, bit_get_packet}
use batman_adv.Window.Seen.{seen_after, new_last}
use batman_adv.Ogm.Own.{OwnWindow, slide_own_bcast_window, schedule, own_echo}

-- What happens: an OGM is scheduled, or one with this number comes back as a direct link on the
-- interface of its originator.
pub data Event : Type 0 where
  scheduled : Event
  echoed : ℕ → Event

-- The number of the OGM that was sent last, when the next one is scheduled already.
abbrev pub last_sent : ℕ → ℕ
last_sent ogm_seqno = sub_word 32 ogm_seqno 2

module _ (bm : Bitmap) where
  -- Events, the latest first.
  abbrev pub run : OwnWindow bm → List Event → OwnWindow bm
  run w [] = w
  run w (scheduled ∷ es) = schedule bm (run w es)
  run w (echoed q ∷ es) = own_echo bm 4 true q (run w es)

  abbrev pub counted : OwnWindow bm → ℕ → Bool
  counted w q = test_bit bm w.bcast_own (last_sent w.ogm_seqno) q

  -- An echo counts if its number is one of the last 64 that were sent.
  abbrev pub recent : OwnWindow bm → ℕ → Bool
  recent w q = ltb (sub_word 32 (last_sent w.ogm_seqno) q) window_size

  next_diff : (s : ℕ) → s < 2 ^ 32 → seq_diff (last_sent ((s + 1) % 2 ^ 32)) (last_sent s) ≡ pos 1
  unfolding seq_diff
  next_diff s h = ground arith

  schedule-counted :
      (w : OwnWindow bm) (q : ℕ)
      → w.ogm_seqno < 2 ^ 32
      → q < 2 ^ 32
      → counted (schedule bm w) q ≡ (recent (schedule bm w) q && counted w q)
  unfolding schedule slide_own_bcast_window bit_get_packet
  schedule-counted w q hw hq =
      let last = last_sent w.ogm_seqno in
      let next = last_sent ((w.ogm_seqno + 1) % 2 ^ 32) in
      let step = seen_after bm w.bcast_own last next q false (omega arith) (omega arith) hq in
      subst
        (λ d.
          test_bit bm (bit_get_packet bm w.bcast_own d false).1
            (new_last (bit_get_packet bm w.bcast_own d false).0 next last) q
          ≡ (ltb (sub_word 32 (new_last (bit_get_packet bm w.bcast_own d false).0 next last) q)
                window_size
              && test_bit bm w.bcast_own last q))
        (next_diff w.ogm_seqno hw) step

  echo-counted :
      (w : OwnWindow bm) (p q : ℕ)
      → w.ogm_seqno < 2 ^ 32
      → p < 2 ^ 32
      → q < 2 ^ 32
      → counted (own_echo bm 4 true p w) q ≡ ((recent w p && (p == q)) || counted w q)
  unfolding own_echo set_bit test_bit seq_diff test_flag
  echo-counted w p q hw hp hq =
      let last = last_sent w.ogm_seqno in
      ground (arith, bm.test-set w.bcast_own (sub_word 32 last p) (sub_word 32 last q))

  abbrev pub schedules : List Event → ℕ
  schedules [] = 0
  schedules (scheduled ∷ es) = 1 + schedules es
  schedules (echoed q ∷ es) = schedules es

  -- The number came back while it was one of the last 64 that were sent.
  abbrev pub came_back : OwnWindow bm → List Event → ℕ → Bool
  came_back w [] q = false
  came_back w (scheduled ∷ es) q = came_back w es q
  came_back w (echoed p ∷ es) q = (recent (run w es) p && (p == q)) || came_back w es q

  -- Echoes carry numbers of 32 bits.
  abbrev pub WordEvent : Event → Type 0
  WordEvent scheduled = Unit
  WordEvent (echoed p) = p < 2 ^ 32

  run_seqno-lt :
      (w : OwnWindow bm) (es : List Event) → w.ogm_seqno < 2 ^ 32 → (run w es).ogm_seqno < 2 ^ 32
  unfolding schedule slide_own_bcast_window own_echo test_flag
  run_seqno-lt w [] h = h
  run_seqno-lt w (scheduled ∷ es) h = omega arith
  run_seqno-lt w (echoed p ∷ es) h = run_seqno-lt w es h

  -- A number that came back is not older than that many schedules and the window.
  came_back-age :
      (w : OwnWindow bm) (es : List Event) (q : ℕ)
      → w.ogm_seqno < 2 ^ 32
      → q < 2 ^ 32
      → schedules es < 2 ^ 31
      → came_back w es q ≡ true
      → sub_word 32 (last_sent (run w es).ogm_seqno) q < window_size + schedules es
  unfolding schedule slide_own_bcast_window own_echo test_flag
  came_back-age w [] q hw hq hs h = absurd (ground arith)
  came_back-age w (scheduled ∷ es) q hw hq hs h =
      let age = came_back-age w es q hw hq (omega arith) h in
      let s = run_seqno-lt w es hw in omega (arith, age, s)
  came_back-age w (echoed p ∷ es) q hw hq hs h = ground (arith, came_back-age w es q hw hq hs)

  -- From an empty window, after any schedules (fewer than 2^31) and echoes, all numbers of 32 bits:
  -- the neighbour's window holds a number exactly when it is one of the last 64 that were sent and
  -- came back while it was one of them; and the sum is the number of set bits of the window.
  pub run-counted :
      (w : OwnWindow bm) (es : List Event) (q : ℕ)
      → w.ogm_seqno < 2 ^ 32
      → q < 2 ^ 32
      → schedules es < 2 ^ 31
      → All WordEvent es
      → ((p : ℕ) → counted w p ≡ false)
      → w.bcast_own_sum ≡ bm.weight w.bcast_own window_size
      → (counted (run w es) q ≡ (recent (run w es) q && came_back w es q))
        × ((run w es).bcast_own_sum ≡ count_below window_size (λ i. bm.test i (run w es).bcast_own))
  unfolding schedule slide_own_bcast_window own_echo test_flag
  run-counted w es q hw hq hs a e s =
      (counted_run es hs a, sum_run es ∙ bm.weight-count (run w es).bcast_own window_size)
    where
      sum_run :
          (es : List Event) → (run w es).bcast_own_sum ≡ bm.weight (run w es).bcast_own window_size
      sum_run [] = s
      sum_run (scheduled ∷ es) = refl
      sum_run (echoed p ∷ es) = refl

      counted_run :
          (es : List Event)
          → schedules es < 2 ^ 31
          → All WordEvent es
          → counted (run w es) q ≡ (recent (run w es) q && came_back w es q)
      counted_run [] hs a = ground (arith, e q)
      counted_run (scheduled ∷ es) hs a =
          let now = schedule-counted (run w es) q (run_seqno-lt w es hw) hq in
          ground (
            arith,
            now,
            counted_run es (omega arith) a.1,
            came_back-age w es q hw hq (omega arith),
            run_seqno-lt w es hw,
          )
      counted_run (echoed p ∷ es) hs a =
          let now = echo-counted (run w es) p q (run_seqno-lt w es hw) a.0 hq in
          ground (arith, now, counted_run es hs a.1)
