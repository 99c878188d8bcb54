-- ===== src/Bla/Refused.antt =====
-- A broadcast that another gateway sends as well is refused, whatever came in between.
use batman_adv.Common.{
  ℕ, zero, suc, ◌-◌, ◌<◌, ◌≤◌, ◌≡◌, ◌≢◌, refl, ap, ◌∙◌, true, false, if◌then◌else◌, arith, List, [],
  ◌∷◌, ◌++◌, length, take, All, Bool-cases, inl, inr,
}
use batman_adv.Kernel.{Jiffies}
use batman_adv.Bcast.{has_timed_out}
use batman_adv.Bla.{Entry, Duplist, duplist_timeout, check_bcast_duplist}
use batman_adv.Bla.Ring.{view, IsRing, scan, new_entry, check-scan, check_refused}

-- A broadcast that is checked.
pub record Bcast : Type 0 where
  pub time : ℕ
  pub crc : ℕ
  pub orig : ℕ

take-prefix :
    (k : ℕ) (pre : List Entry) (e : Entry) (post : List Entry)
    → length pre < k
    → take k (pre ++ e ∷ post) ≡ pre ++ e ∷ take (k - suc (length pre)) post
take-prefix zero pre e post h = absurd (omega arith)
take-prefix (suc k) [] e post h = let n : suc k - 1 ≡ k = omega arith in rw (n) refl
take-prefix (suc k) (x ∷ pre) e post h =
    let n : suc k - suc (suc (length pre)) ≡ k - suc (length pre) = omega arith in
    rw (n) (ap (λ l. x ∷ l) (take-prefix k pre e post (omega arith)))

module _ (jf : Jiffies) (later : ℕ) where
  -- Not timed out at the time `later`.
  abbrev pub Fresh : ℕ → Type 0
  Fresh time = has_timed_out jf later time duplist_timeout ≡ false

  scan_finds :
      (crc orig : ℕ) (pre : List Entry) (e : Entry) (post : List Entry)
      → All (λ x. Fresh x.entrytime) pre
      → Fresh e.entrytime
      → e.crc ≡ crc
      → e.orig ≢ orig
      → scan jf later crc orig (pre ++ e ∷ post) ≡ true
  unfolding scan
  scan_finds crc orig [] e post a f c o = ground arith
  scan_finds crc orig (x ∷ pre) e post a f c o =
      ground (arith, scan_finds crc orig pre e post a.1 f c o)

  -- The entry is among the newest n + 1, behind entries that did not time out.
  record Within (e : Entry) (n : ℕ) (bla : Duplist) : Type 0 where
    ring : IsRing bla
    pre : List Entry
    post : List Entry
    shape : view bla ≡ pre ++ e ∷ post
    near : length pre ≤ n
    young : All (λ x. Fresh x.entrytime) pre

  Within-check :
      (e : Entry) (n : ℕ) (bla : Duplist) (b : Bcast)
      → Within e n bla
      → n < 15
      → Fresh b.time
      → Within e (suc n) (check_bcast_duplist jf b.time b.crc b.orig bla).1
  Within-check e n bla b w h f =
      let (_, same, ring) = check-scan jf b.time b.crc b.orig bla w.ring in
      let x = new_entry jf b.time b.crc b.orig in
      elim (Bool-cases (check_bcast_duplist jf b.time b.crc b.orig bla).0) [
        | inl d ↦ record {
          ring = ring;
          pre = w.pre;
          post = w.post;
          shape = same ∙ (ap (λ c. if c then view bla else x ∷ take 15 (view bla)) d ∙ w.shape);
          near = omega (arith, w.near);
          young = w.young;
        }
        | inr d ↦ record {
          ring = ring;
          pre = x ∷ w.pre;
          post = take (15 - suc (length w.pre)) w.post;
          shape =
              same
              ∙ (ap (λ c. if c then view bla else x ∷ take 15 (view bla)) d
                  ∙ ap (λ l. x ∷ l)
                      (ap (take 15) w.shape
                        ∙ take-prefix 15 w.pre e w.post (omega (arith, w.near))));
          near = omega (arith, w.near);
          young = (f, w.young);
        }
      ]

  -- The state after other broadcasts, the latest first.
  abbrev pub check_all : Duplist → List Bcast → Duplist
  check_all bla [] = bla
  check_all bla (b ∷ bs) = (check_bcast_duplist jf b.time b.crc b.orig (check_all bla bs)).1

  Within-check_all :
      (e : Entry) (bla : Duplist) (bs : List Bcast)
      → Within e 0 bla
      → length bs ≤ 15
      → All (λ b. Fresh b.time) bs
      → Within e (length bs) (check_all bla bs)
  Within-check_all e bla [] w h f = w
  Within-check_all e bla (b ∷ bs) w h f =
      Within-check e (length bs) (check_all bla bs) b
        (Within-check_all e bla bs w (omega arith) f.1) (omega arith) f.0

  -- On a ring of sixteen places: when a broadcast was let through, and at most fifteen others were
  -- checked after it, none of them all timed out, then the same checksum from another originator is
  -- refused.
  pub duplicate_refused :
      (bla : Duplist) (b : Bcast) (bs : List Bcast) (orig : ℕ)
      → IsRing bla
      → (check_bcast_duplist jf b.time b.crc b.orig bla).0 ≡ false
      → length bs ≤ 15
      → Fresh b.time
      → All (λ x. Fresh x.time) bs
      → b.orig ≢ orig
      → let bla' = check_all (check_bcast_duplist jf b.time b.crc b.orig bla).1 bs in
        check_bcast_duplist jf later b.crc orig bla' ≡ (true, bla')
  duplicate_refused bla b bs orig r ok few f fs other =
      let e = new_entry jf b.time b.crc b.orig in
      let (_, same, ring) = check-scan jf b.time b.crc b.orig bla r in
      let start : Within e 0 (check_bcast_duplist jf b.time b.crc b.orig bla).1 = record {
        ring = ring;
        pre = [];
        post = take 15 (view bla);
        shape = same ∙ ap (λ c. if c then view bla else e ∷ take 15 (view bla)) ok;
        near = omega arith;
        young = tt;
      } in
      let bla' : Duplist = check_all (check_bcast_duplist jf b.time b.crc b.orig bla).1 bs in
      let w =
        Within-check_all e (check_bcast_duplist jf b.time b.crc b.orig bla).1 bs start few fs in
      let (found, _, _) = check-scan jf later b.crc orig bla' w.ring in
      check_refused jf later b.crc orig bla' (
        found
        ∙ (ap (scan jf later b.crc orig) w.shape
            ∙ scan_finds b.crc orig w.pre e w.post w.young f refl other))
