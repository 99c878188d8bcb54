-- ===== src/Tests/Clients.antt =====
-- Clients that come and go within one originator interval.
use batman_adv.Common.{
  ℕ, ◌+◌, ◌%◌, ◌^◌, ◌≡◌, refl, arith, Bool, true, false, not, ◌==◌, List, [], ◌∷◌,
}
use batman_adv.Word.Flags.{test_flag}
use batman_adv.Tt.{Change, Changes, is_del, local_event}
use batman_adv.Tt.Local.{Tt, commit}
use batman_adv.Tt.Stale.{opposite_cancels, stale_add}
use batman_adv.Tt.Stuck.{commits, commits_stuck}
use batman_adv.Tt.Diff.{applied, all_events, Alternates, commit_diff}

abbrev change : ℕ → ℕ → ℕ → Change
change addr vid flags = record { addr = addr; vid = vid; flags = flags }

abbrev goes : ℕ → Change
goes addr = change addr 0 1

abbrev comes : ℕ → Change
comes addr = change addr 0 0

abbrev comes_wifi : ℕ → Change
comes_wifi addr = change addr 0 16

goes_del : (addr vid : ℕ) → is_del (change addr vid 1) ≡ true
unfolding test_flag
goes_del addr vid = refl

comes_add : (addr : ℕ) → is_del (comes addr) ≡ false
unfolding test_flag
comes_add addr = refl

comes_wifi_add : (addr : ℕ) → is_del (comes_wifi addr) ≡ false
unfolding test_flag
comes_wifi_add addr = refl

abbrev nothing : Changes
nothing = record { changes_list = []; local_changes = 0 }

-- The client 5 goes and comes back, and the client 7 comes.
abbrev events : List Change
events = goes 5 ∷ comes 5 ∷ comes 7 ∷ []

abbrev start : ℕ → Bool
start a = a == 5

events-Alternates : Alternates start events
unfolding test_flag
events-Alternates = (refl, (refl, (refl, tt)))

abbrev table : Changes → Tt
table waiting = record { local_hash = []; changes = waiting; vn = 8 }

events_length : (all_events events nothing).local_changes ≡ 1
unfolding local_event test_flag
events_length = refl

commit_diff_example :
    applied start (commit true 1500 true (table (all_events events nothing))).0 7
    ≡ applied start events 7
commit_diff_example =
    commit_diff 1500 true start events (table (all_events events nothing)) events-Alternates refl
      (omega (arith, events_length)) 7

stale_add_example :
    local_event true (goes 7) (local_event true (comes_wifi 7) (local_event true (comes 7) nothing))
    ≡ record { changes_list = comes_wifi 7 ∷ []; local_changes = 1 }
stale_add_example =
    stale_add (comes 7) (comes_wifi 7) (goes 7) nothing tt refl refl (comes_add 7)
      (comes_wifi_add 7) (goes_del 7 0)

opposite_example_del : is_del (change 7 3 1) ≡ not (is_del (comes 7))
unfolding test_flag
opposite_example_del = refl

-- The client 7 comes on one VLAN and goes on another.
opposite_cancels_example :
    local_event true (change 7 3 1) (local_event true (comes 7) nothing) ≡ nothing
opposite_cancels_example =
    opposite_cancels (comes 7) (change 7 3 1) nothing tt refl opposite_example_del

abbrev waiting : Changes
waiting = record { changes_list = comes 7 ∷ comes 8 ∷ []; local_changes = 2 }

commits_stuck_example :
    ((commits 20 5 (table waiting)).0 ≡ [])
    × (((commits 20 5 (table waiting)).1.changes ≡ waiting)
        × ((commits 20 5 (table waiting)).1.vn ≡ (8 + 5) % 2 ^ 32))
commits_stuck_example = commits_stuck 20 5 (table waiting) (ground arith) (ground arith)
