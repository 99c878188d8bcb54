-- ===== src/Bcast/Protect.antt =====
-- batadv_window_protected: when a packet is ignored, and for how long.
use batman_adv.Common.{ℕ, ◌+◌, ◌-◌, ◌%◌, ◌^◌, ◌<◌, ◌≤◌, ◌≡◌, Bool, true, false, ◌||◌, arith}
use batman_adv.Common.Int.{ℤ, pos, ◌≤ℤ◌, ◌-ℤ◌, leb_ℤ}
use batman_adv.Kernel.{Jiffies}
use batman_adv.Window.{expected_seqno_range}
use batman_adv.Bcast.{window_protected, has_timed_out, reset_protection_ms}

-- The difference lies outside the window of the given age.
abbrev pub outside : ℤ → ℤ → Bool
outside diff age = leb_ℤ diff (pos 0 -ℤ age) || leb_ℤ (pos expected_seqno_range) diff

module _ (jf : Jiffies) where
  -- A packet whose difference lies inside the window, above -age and below 65536, is never ignored
  -- and starts no protection.
  pub protected_inside :
      (now last_reset : ℕ) (diff : ℤ) (age : ℕ)
      → 0 < age
      → (pos 0 -ℤ pos (age - 1)) ≤ℤ diff
      → diff ≤ℤ pos 65535
      → let p = window_protected jf now diff (pos age) last_reset in
        (p.ignored ≡ false) × (p.last_reset ≡ last_reset) × (p.started ≡ false)
  unfolding window_protected ◌-ℤ◌
  protected_inside now last_reset diff age ha lo hi = ground arith

  -- Before the protection time is over the last reset has not timed out.
  not_timed_out :
      (now k ms : ℕ)
      → now < 2 ^ 64
      → k ≤ jf.msecs_to_jiffies ms
      → jf.msecs_to_jiffies ms < 2 ^ 63
      → has_timed_out jf ((now + k) % 2 ^ 64) now ms ≡ false
  not_timed_out now k ms hn hk hm =
      let m = jf.msecs_to_jiffies ms in
      let e : (now + m) % 2 ^ 64 ≡ ((now + k) % 2 ^ 64 + (m - k)) % 2 ^ 64 = omega arith in
      rw (e, has_timed_out)
        (jf.before_earlier ((now + k) % 2 ^ 64) (m - k) (omega arith) (omega arith))

  -- Once a packet outside the window was accepted, and for the protection time after it (less than
  -- half the range of jiffies), a further packet is ignored exactly when it is outside the window,
  -- and it does not prolong the protection.
  pub protected_after_reset :
      (now last_reset k : ℕ) (diff age diff' age' : ℤ)
      → now < 2 ^ 64
      → k ≤ jf.msecs_to_jiffies reset_protection_ms
      → jf.msecs_to_jiffies reset_protection_ms < 2 ^ 63
      → (window_protected jf now diff age last_reset).started ≡ true
      → let p = window_protected jf now diff age last_reset in
        let q = window_protected jf ((now + k) % 2 ^ 64) diff' age' p.last_reset in
        (p.ignored ≡ false)
        × (q.ignored ≡ outside diff' age')
        × (q.last_reset ≡ now)
        × (q.started ≡ false)
  unfolding window_protected
  protected_after_reset now last_reset k diff age diff' age' hn hk hm h =
      ground (arith, not_timed_out now k reset_protection_ms hn hk hm)
