-- ===== src/Bla.antt =====
-- bridge_loop_avoidance.c: the list of recent broadcasts, by which a frame that another gateway of the
-- same backbone sent as well is recognised.
pub mod Ring
pub mod Refused
pub mod Claims
pub mod Gateways
pub mod Frames
pub mod Gate
pub mod Invariant
pub mod Resync
pub mod Loops
pub mod Work
use batman_adv.Common.{
  ℕ, zero, suc, ◌+◌, ◌-◌, ◌%◌, Bool, true, false, ◌==◌, not, if◌then◌else◌, List, get_or, set,
}
use batman_adv.Kernel.{Jiffies}
use batman_adv.Bcast.{has_timed_out}

-- BATADV_DUPLIST_SIZE
abbrev pub duplist_size : ℕ
duplist_size = 16

-- BATADV_DUPLIST_TIMEOUT
abbrev pub duplist_timeout : ℕ
duplist_timeout = 500

-- `struct batadv_bcast_duplist_entry`
pub record Entry : Type 0 where
  pub orig : ℕ
  pub crc : ℕ
  pub entrytime : ℕ

-- The fields `bcast_duplist` and `bcast_duplist_curr` of `struct batadv_priv_bla`.
pub record Duplist : Type 0 where
  pub bcast_duplist : List Entry
  pub bcast_duplist_curr : ℕ

abbrev pub no_entry : Entry
no_entry = record { orig = 0; crc = 0; entrytime = 0 }

-- The loop of `batadv_bla_check_bcast_duplist` over the n entries from the i-th on.
unfoldable pub search : Jiffies → ℕ → ℕ → ℕ → Duplist → ℕ → ℕ → Bool
search jf now crc orig bla zero i = false
search jf now crc orig bla (suc n) i =
    let entry = get_or bla.bcast_duplist ((bla.bcast_duplist_curr + i) % duplist_size) no_entry in
    let later = search jf now crc orig bla n (suc i) in
    if has_timed_out jf now entry.entrytime duplist_timeout
    then false
    else (if not (entry.crc == crc) then later else (if entry.orig == orig then later else true))

-- `batadv_bla_check_bcast_duplist`, for a packet with this checksum and originator.
unfoldable pub check_bcast_duplist : Jiffies → ℕ → ℕ → ℕ → Duplist → Bool × Duplist
unfolding search
check_bcast_duplist jf now crc orig bla =
    if search jf now crc orig bla duplist_size 0
    then (true, bla)
    else (let curr = (bla.bcast_duplist_curr + duplist_size - 1) % duplist_size in
        (
          false,
          record {
            bcast_duplist =
                set bla.bcast_duplist curr (record { orig = orig; crc = crc; entrytime = now });
            bcast_duplist_curr = curr;
          },
        ))
