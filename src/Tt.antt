-- ===== src/Tt.antt =====
-- translation-table.c: the changes of the own clients, as they are collected for the next OGMs.
pub mod Local
pub mod Diff
pub mod Stale
pub mod Stuck
use batman_adv.Common.{
  ℕ, ◌+◌, ◌-◌, ◌*◌, ◌%◌, Bool, true, false, ◌&&◌, ◌||◌, not, ◌==◌, ltb, if◌then◌else◌, List, [],
  ◌∷◌, ◌++◌, Option, none, some, take,
}
use batman_adv.Word.Flags.{test_flag, set_flag, clear_flag}

-- `enum batadv_tt_client_flags`, by the numbers of the bits.
abbrev pub client_del : ℕ
client_del = 0

abbrev pub client_roam : ℕ
client_roam = 1

abbrev pub client_wifi : ℕ
client_wifi = 4

abbrev pub client_isola : ℕ
client_isola = 5

abbrev pub client_nopurge : ℕ
client_nopurge = 8

abbrev pub client_new : ℕ
client_new = 9

abbrev pub client_pending : ℕ
client_pending = 10

-- `struct batadv_tvlv_tt_change`
pub record Change : Type 0 where
  pub addr : ℕ
  pub vid : ℕ
  pub flags : ℕ

abbrev pub is_del : Change → Bool
is_del change = test_flag client_del change.flags

-- The fields `changes_list` and `local_changes` of `struct batadv_priv_tt`.
pub record Changes : Type 0 where
  pub changes_list : List Change
  pub local_changes : ℕ

-- The loop of `batadv_tt_local_event`: whether an event was removed, and the list.
unfoldable pub event_loop : Change → List Change → Bool × List Change
event_loop change [] = (false, [])
event_loop change (entry ∷ entries) =
    let (removed, rest) = event_loop change entries in
    if not (entry.addr == change.addr)
    then (removed, entry ∷ rest)
    else (if (not (is_del change) && is_del entry) || (is_del change && not (is_del entry))
        then (true, entries)
        else (if not (is_del change)
            then (removed, record entry { flags = change.flags } ∷ rest)
            else (removed, entry ∷ rest)))

-- `batadv_tt_local_event`, if the change can be allocated.
unfoldable pub local_event : Bool → Change → Changes → Changes
unfolding event_loop
local_event alloc change tt =
    let (removed, entries) = event_loop change tt.changes_list in
    if not alloc
    then tt
    else (if removed
        then record { changes_list = entries; local_changes = tt.local_changes - 1 }
        else record {
          changes_list = entries ++ (change ∷ []);
          local_changes = tt.local_changes + 1;
        })
