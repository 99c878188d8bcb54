-- ===== src/Bla/Ring.antt =====
-- The ring of recent broadcasts as a list, the newest first.
use batman_adv.Common.{
  ℕ, zero, suc, ◌+◌, ◌-◌, ◌%◌, ◌<◌, ◌≤◌, ◌≡◌, refl, sym, ap, ap₂, ◌∙◌, Bool, true, false, ◌==◌, not,
  if◌then◌else◌, arith, List, [], ◌∷◌, length, take, get_or, set, length-set, get_or-set_self,
  get_or-set_ne, Bool-cases, inl, inr,
}
use batman_adv.Kernel.{Jiffies}
use batman_adv.Bcast.{has_timed_out}
use batman_adv.Bla.{
  Entry, Duplist, no_entry, duplist_size, duplist_timeout, search, check_bcast_duplist,
}

-- The n entries from the i-th on, and all of them.
abbrev pub view_from : Duplist → ℕ → ℕ → List Entry
view_from bla zero i = []
view_from bla (suc n) i =
    get_or bla.bcast_duplist ((bla.bcast_duplist_curr + i) % duplist_size) no_entry
    ∷ view_from bla n (suc i)

abbrev pub view : Duplist → List Entry
view bla = view_from bla duplist_size 0

-- The ring has sixteen places, and its index is one of them.
pub record IsRing (bla : Duplist) : Type 0 where
  pub places : length bla.bcast_duplist ≡ duplist_size
  pub current : bla.bcast_duplist_curr < duplist_size

module _ (jf : Jiffies) (now crc orig : ℕ) where
  -- Among the entries before the first that is too old, one has the checksum from somebody else.
  unfoldable pub scan : List Entry → Bool
  scan [] = false
  scan (e ∷ es) =
      let later = scan es in
      if has_timed_out jf now e.entrytime duplist_timeout
      then false
      else (if not (e.crc == crc) then later else (if e.orig == orig then later else true))

  search-scan :
      (bla : Duplist) (n i : ℕ) → search jf now crc orig bla n i ≡ scan (view_from bla n i)
  unfolding search scan
  search-scan bla zero i = refl
  search-scan bla (suc n) i = ground (arith, search-scan bla n (suc i))

  -- After an entry is written before the current one, the others are one place further.
  view-set :
      (bla : Duplist) (e : Entry) (n i : ℕ)
      → IsRing bla
      → i + n ≤ 15
      → let curr = (bla.bcast_duplist_curr + duplist_size - 1) % duplist_size in
        view_from
          (record { bcast_duplist = set bla.bcast_duplist curr e; bcast_duplist_curr = curr })
          n
          (suc i)
        ≡ view_from bla n i
  view-set bla e zero i r h = refl
  view-set bla e (suc n) i r h =
      let c = bla.bcast_duplist_curr in
      let curr = (c + duplist_size - 1) % duplist_size in
      let index : (curr + suc i) % duplist_size ≡ (c + i) % duplist_size = omega arith in
      ap₂ ◌∷◌
        (get_or-set_ne bla.bcast_duplist {i = curr} {j = (curr + suc i) % duplist_size} e no_entry
            (omega (arith, r.current))
          ∙ ap (λ j. get_or bla.bcast_duplist j no_entry) index)
        (view-set bla e n (suc i) r (omega arith))

take-view : (bla : Duplist) (n k i : ℕ) → take n (view_from bla (n + k) i) ≡ view_from bla n i
take-view bla zero k i = refl
take-view bla (suc n) k i =
    let e : suc n + k ≡ suc (n + k) = omega arith in
    rw (e) (
      ap (λ l. get_or bla.bcast_duplist ((bla.bcast_duplist_curr + i) % duplist_size) no_entry ∷ l)
        (take-view bla n k (suc i)))

first_branch :
    (b : Bool) (bla : Duplist) (other : Bool × Duplist)
    → other.0 ≡ false
    → (if b then (true, bla) else other).0 ≡ true
    → (if b then (true, bla) else other) ≡ (true, bla)
first_branch true bla other f h = refl
first_branch false bla other f h = absurd (ground arith)

module _ (jf : Jiffies) where
  abbrev pub new_entry : ℕ → ℕ → ℕ → Entry
  new_entry now crc orig = record { orig = orig; crc = crc; entrytime = now }

  -- On a ring of sixteen places: a broadcast is a duplicate exactly when, among the entries from the
  -- newest on to the first that timed out, one has its checksum and another originator. Then nothing
  -- changes; else it becomes the newest entry and the oldest of the sixteen is dropped.
  pub check-scan :
      (now crc orig : ℕ) (bla : Duplist)
      → IsRing bla
      → let (dup, bla') = check_bcast_duplist jf now crc orig bla in
        (dup ≡ scan jf now crc orig (view bla))
        × (view bla' ≡ (if dup then view bla else new_entry now crc orig ∷ take 15 (view bla)))
        × IsRing bla'
  unfolding check_bcast_duplist
  check-scan now crc orig bla r =
      let e = new_entry now crc orig in
      let curr = (bla.bcast_duplist_curr + duplist_size - 1) % duplist_size in
      let bla' : Duplist = record {
        bcast_duplist = set bla.bcast_duplist curr e;
        bcast_duplist_curr = curr;
      } in
      let here : (curr + 0) % duplist_size ≡ curr = omega arith in
      let front : get_or bla'.bcast_duplist ((curr + 0) % duplist_size) no_entry ≡ e =
        rw (here) (get_or-set_self bla.bcast_duplist curr e no_entry (omega (arith, r.places))) in
      let shifted : view bla' ≡ e ∷ take 15 (view bla) =
        ap₂ ◌∷◌ front
          (view-set jf now crc orig bla e 15 0 r (omega arith) ∙ sym (take-view bla 15 1 0)) in
      let ring : IsRing bla' = record {
        places = length-set bla.bcast_duplist curr e ∙ r.places;
        current = omega arith;
      } in
      elim (Bool-cases (search jf now crc orig bla duplist_size 0)) [
        | inl b ↦
            rw (check_bcast_duplist, b)
              (sym b ∙ search-scan jf now crc orig bla duplist_size 0, refl, r)
        | inr b ↦
            rw (check_bcast_duplist, b)
              (sym b ∙ search-scan jf now crc orig bla duplist_size 0, shifted, ring)
      ]

  pub check_refused :
      (now crc orig : ℕ) (bla : Duplist)
      → (check_bcast_duplist jf now crc orig bla).0 ≡ true
      → check_bcast_duplist jf now crc orig bla ≡ (true, bla)
  unfolding check_bcast_duplist
  check_refused now crc orig bla h =
      first_branch (search jf now crc orig bla duplist_size 0) bla _ refl h
