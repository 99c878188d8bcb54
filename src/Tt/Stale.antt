-- ===== src/Tt/Stale.antt =====
-- Events for one address within one originator interval.
use batman_adv.Common.{
  ℕ, ◌+◌, ◌≡◌, refl, sym, ap, ap₂, ◌∙◌, Bool, true, false, not, ◌==◌, arith, List, [], ◌∷◌, ◌++◌,
  All, append_assoc, append-nil, subst,
}
use batman_adv.Tt.{Change, Changes, is_del, event_loop, local_event}

-- No change of this address is waiting.
abbrev pub Unlisted : ℕ → List Change → Type 0
Unlisted addr = All (λ entry. (entry.addr == addr) ≡ false)

-- Entries of other addresses stay where they are.
loop-append :
    (change : Change) (es fs : List Change)
    → Unlisted change.addr es
    → event_loop change (es ++ fs) ≡ ((event_loop change fs).0, es ++ (event_loop change fs).1)
unfolding event_loop
loop-append change [] fs h = refl
loop-append change (e ∷ es) fs h =
    rw (event_loop, h.0)
      (ap (λ (r : Bool × List Change). (r.0, e ∷ r.1)) (loop-append change es fs h.1))

loop-Unlisted :
    (change : Change) (es : List Change)
    → Unlisted change.addr es
    → event_loop change es ≡ (false, es)
unfolding event_loop
loop-Unlisted change [] h = refl
loop-Unlisted change (e ∷ es) h =
    rw (event_loop, h.0)
      (ap (λ (r : Bool × List Change). (r.0, e ∷ r.1)) (loop-Unlisted change es h.1))

local_event_new :
    (change : Change) (tt : Changes)
    → Unlisted change.addr tt.changes_list
    → local_event true change tt ≡ record {
      changes_list = tt.changes_list ++ (change ∷ []);
      local_changes = tt.local_changes + 1;
    }
unfolding local_event
local_event_new change tt h = rw (local_event, loop-Unlisted change tt.changes_list h) refl

-- An event and then the opposite one for an address without waiting changes leave the changes as they
-- were, whatever VLAN the two are for, if both changes can be allocated.
pub opposite_cancels :
    (first second : Change) (tt : Changes)
    → Unlisted first.addr tt.changes_list
    → second.addr ≡ first.addr
    → is_del second ≡ not (is_del first)
    → local_event true second (local_event true first tt) ≡ tt
unfolding local_event event_loop
opposite_cancels first second tt h a o =
    let unlisted : Unlisted second.addr tt.changes_list =
      subst (λ n. Unlisted n tt.changes_list) (sym a) h in
    let one : event_loop second (first ∷ []) ≡ (true, []) = ground (arith, a, o) in
    ap (local_event true second) (local_event_new first tt h)
    ∙ rw (local_event, loop-append second tt.changes_list (first ∷ []) unlisted, one)
        (ap₂ (λ es n. record { changes_list = es; local_changes = n }) (append-nil tt.changes_list)
          (omega arith))

-- No change is waiting for the address of a client. It comes, its flags change, and it goes, all before
-- the changes are sent, and all three changes can be allocated. Then the second of the two additions
-- is left beside the changes that waited before, so that the others add a client that is gone.
pub stale_add :
    (add again del : Change) (tt : Changes)
    → Unlisted add.addr tt.changes_list
    → again.addr ≡ add.addr
    → del.addr ≡ add.addr
    → is_del add ≡ false
    → is_del again ≡ false
    → is_del del ≡ true
    → local_event true del (local_event true again (local_event true add tt)) ≡ record {
      changes_list = tt.changes_list ++ (again ∷ []);
      local_changes = tt.local_changes + 1;
    }
unfolding local_event event_loop
stale_add add again del tt h a b c d e =
    let updated : Change = record add { flags = again.flags } in
    let two : event_loop again (add ∷ []) ≡ (false, updated ∷ []) = ground (arith, a, c, d) in
    let three : event_loop del (updated ∷ again ∷ []) ≡ (true, again ∷ []) =
      ground (arith, a, b, d, e) in
    let added_again : local_event true again (local_event true add tt) ≡ record {
      changes_list = tt.changes_list ++ (updated ∷ again ∷ []);
      local_changes = tt.local_changes + 1 + 1;
    } =
      ap (local_event true again) (local_event_new add tt h)
      ∙ rw
          (
            local_event,
            loop-append again tt.changes_list (add ∷ [])
                (subst (λ n. Unlisted n tt.changes_list) (sym a) h),
            two,
          )
          (ap (λ es. record { changes_list = es; local_changes = tt.local_changes + 1 + 1 })
            (append_assoc tt.changes_list (updated ∷ []) (again ∷ []))) in
    ap (local_event true del) added_again
    ∙ rw
        (
          local_event,
          loop-append del tt.changes_list (updated ∷ again ∷ [])
              (subst (λ n. Unlisted n tt.changes_list) (sym b) h),
          three,
        )
        (ap (λ n. record { changes_list = tt.changes_list ++ (again ∷ []); local_changes = n })
          (omega arith))
