-- ===== src/Tt/Local.antt =====
-- translation-table.c: the table of the own clients.
use batman_adv.Common.{
  ℕ, ◌+◌, ◌*◌, ◌%◌, ◌^◌, Bool, ◌&&◌, ◌||◌, not, ◌==◌, ltb, if◌then◌else◌, List, [], ◌∷◌, Option,
  none, some, take,
}
use batman_adv.Kernel.{Jiffies}
use batman_adv.Bcast.{has_timed_out}
use batman_adv.Word.Flags.{test_flag, set_flag, clear_flag}
use batman_adv.Tt.{
  Change, Changes, local_event, client_del, client_roam, client_nopurge, client_new, client_pending,
}

-- `struct batadv_tt_local_entry`
pub record LocalEntry : Type 0 where
  pub addr : ℕ
  pub vid : ℕ
  pub flags : ℕ
  pub last_seen : ℕ

-- The local part of `struct batadv_priv_tt`; the hash table is the list of its entries.
pub record Tt : Type 0 where
  pub local_hash : List LocalEntry
  pub changes : Changes
  pub vn : ℕ

-- The change for an entry with the bits of the event: only the lower eight flags are sent.
abbrev pub change_for : LocalEntry → (ℕ → ℕ) → Change
change_for entry event = record {
  addr = entry.addr;
  vid = entry.vid;
  flags = event entry.flags % 256;
}

abbrev pub same_client : ℕ → ℕ → LocalEntry → Bool
same_client addr vid entry = entry.addr == addr && entry.vid == vid

-- `batadv_tt_local_hash_find`
unfoldable pub local_find : ℕ → ℕ → List LocalEntry → Option LocalEntry
local_find addr vid [] = none
local_find addr vid (e ∷ es) = if same_client addr vid e then some e else local_find addr vid es

unfoldable pub local_write : ℕ → ℕ → (LocalEntry → LocalEntry) → List LocalEntry → List LocalEntry
local_write addr vid f [] = []
local_write addr vid f (e ∷ es) =
    if same_client addr vid e then f e ∷ es else e ∷ local_write addr vid f es

-- `batadv_hash_remove` on the local table
unfoldable pub local_unlink : ℕ → ℕ → List LocalEntry → List LocalEntry
local_unlink addr vid [] = []
local_unlink addr vid (e ∷ es) = if same_client addr vid e then es else e ∷ local_unlink addr vid es

abbrev pub pending : LocalEntry → LocalEntry
pending e = record e { flags = set_flag client_pending e.flags }

-- `batadv_tt_local_set_pending` for the entry at its place in the table.
unfoldable pub local_set_pending : Bool → LocalEntry → (ℕ → ℕ) → Tt → Tt
unfolding local_event local_write
local_set_pending alloc entry event tt = record tt {
  local_hash = local_write entry.addr entry.vid pending tt.local_hash;
  changes = local_event alloc (change_for entry event) tt.changes;
}

-- `batadv_tt_local_remove`: the flags that the entry had, and the table after it.
unfoldable pub local_remove : Bool → ℕ → ℕ → Bool → Tt → ℕ × Tt
unfolding local_find local_write local_set_pending local_event local_unlink
local_remove alloc addr vid roaming tt = elim (local_find addr vid tt.local_hash) [
  | none ↦ (0, tt)
  | some entry ↦
      let roamed = record entry { flags = set_flag client_roam entry.flags } in
      let marked = if roaming then roamed else entry in
      let tt =
        if roaming
        then record tt { local_hash = local_write addr vid (λ e. marked) tt.local_hash }
        else tt in
      let event =
        if roaming
        then (λ flags. set_flag client_roam (set_flag client_del flags))
        else set_flag client_del in
      (
        entry.flags,
        if not (test_flag client_new marked.flags)
            then local_set_pending alloc marked event tt
            else record tt {
              local_hash = local_unlink addr vid tt.local_hash;
              changes = local_event alloc (change_for marked (set_flag client_del)) tt.changes;
            },
      )
]

-- The loop of `batadv_tt_local_purge_list`
unfoldable pub purge_list : Jiffies → ℕ → ℕ → Bool → List LocalEntry → Tt → Tt
unfolding local_set_pending
purge_list jf now timeout alloc [] tt = tt
purge_list jf now timeout alloc (e ∷ es) tt =
    let skip =
      test_flag client_nopurge e.flags
      || test_flag client_pending e.flags
      || not (has_timed_out jf now e.last_seen timeout) in
    purge_list jf now timeout alloc es
      (if skip then tt else local_set_pending alloc e (set_flag client_del) tt)

-- `batadv_tt_local_set_flags` for BATADV_TT_CLIENT_NEW, as it is called at a commit: the flag is taken
-- away.
unfoldable pub clear_new : List LocalEntry → List LocalEntry
clear_new [] = []
clear_new (e ∷ es) =
    (if test_flag client_new e.flags then record e { flags = clear_flag client_new e.flags } else e)
    ∷ clear_new es

-- `batadv_tt_local_purge_pending_clients`
unfoldable pub purge_pending : List LocalEntry → List LocalEntry
purge_pending [] = []
purge_pending (e ∷ es) =
    if not (test_flag client_pending e.flags) then e ∷ purge_pending es else purge_pending es

-- sizeof(struct batadv_tvlv_tt_change)
abbrev pub change_size : ℕ
change_size = 12

-- The changes that `batadv_tt_tvlv_container_update` takes for the OGMs: all, if they fit. `alloc` is
-- the allocation of the container.
unfoldable pub container_update : Bool → ℕ → Changes → List Change × Changes
container_update alloc mtu changes =
    let diff_len = changes.local_changes * change_size in
    let diff_len = if ltb mtu diff_len then 0 else diff_len in
    if not alloc
    then ([], changes)
    else (if diff_len == 0 then ([], changes) else (
      take changes.local_changes changes.changes_list,
      record { changes_list = []; local_changes = 0 },
    ))

-- `batadv_tt_local_commit_changes_nolock`, behind the update of multicast addresses: the changes that
-- the OGMs carry, and the table after it. `append` tells that the count of OGMs that still carry the
-- last changes is not used up.
unfoldable pub commit : Bool → ℕ → Bool → Tt → List Change × Tt
unfolding clear_new purge_pending container_update
commit alloc mtu append tt =
    if ltb tt.changes.local_changes 1
    then (if append
        then ([], tt)
        else (let (sent, changes) = container_update alloc mtu tt.changes in
            (sent, record tt { changes = changes })))
    else (let (sent, changes) = container_update alloc mtu tt.changes in
        (
          sent,
          record {
            local_hash = purge_pending (clear_new tt.local_hash);
            changes = changes;
            vn = (tt.vn + 1) % 2 ^ 32;
          },
        ))
