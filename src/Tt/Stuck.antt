-- ===== src/Tt/Stuck.antt =====
-- Changes that do not fit into an OGM.
use batman_adv.Common.{
  ℕ, zero, suc, ◌+◌, ◌*◌, ◌%◌, ◌^◌, ◌<◌, ◌≡◌, refl, ap, ◌∙◌, true, false, ltb, arith, List, [],
  ◌++◌,
}
use batman_adv.Tt.{Change, Changes}
use batman_adv.Tt.Local.{Tt, change_size, container_update, commit}

-- A number of commits, one for each originator interval, and all changes that were sent.
abbrev pub commits : ℕ → ℕ → Tt → List Change × Tt
commits mtu zero tt = ([], tt)
commits mtu (suc n) tt =
    let (sent, tt) = commit true mtu true tt in
    let (later, tt) = commits mtu n tt in (sent ++ later, tt)

stuck_once :
    (mtu : ℕ) (tt : Tt)
    → mtu < tt.changes.local_changes * change_size
    → ((commit true mtu true tt).0 ≡ [])
      × (((commit true mtu true tt).1.changes ≡ tt.changes)
          × ((commit true mtu true tt).1.vn ≡ (tt.vn + 1) % 2 ^ 32))
unfolding commit container_update
stuck_once mtu tt h =
    let e : ltb tt.changes.local_changes 1 ≡ false = ground arith in
    let f : ltb mtu (tt.changes.local_changes * change_size) ≡ true = ground arith in
    rw (commit, container_update, e, f) ((refl, (refl, refl)))

-- If the changes that are waiting take more bytes than the MTU, they are not sent, and they stay: after
-- any number of originator intervals without a further change nothing was sent, the changes are the
-- same, and the version of the table has gone up in each of the intervals.
pub commits_stuck :
    (mtu n : ℕ) (tt : Tt)
    → tt.vn < 2 ^ 32
    → mtu < tt.changes.local_changes * change_size
    → ((commits mtu n tt).0 ≡ [])
      × (((commits mtu n tt).1.changes ≡ tt.changes)
          × ((commits mtu n tt).1.vn ≡ (tt.vn + n) % 2 ^ 32))
commits_stuck mtu zero tt b h = (refl, (refl, omega arith))
commits_stuck mtu (suc n) tt b h =
    let (sent, (same, vn)) = stuck_once mtu tt h in
    let (later, (same_later, vn_later)) =
      commits_stuck mtu n (commit true mtu true tt).1 (omega (arith, vn))
        (omega (arith, h, ap (λ (c : Changes). c.local_changes) same)) in
    (
      ap (λ l. l ++ (commits mtu n (commit true mtu true tt).1).0) sent ∙ later,
      (same_later ∙ same, omega (arith, vn, vn_later)),
    )
