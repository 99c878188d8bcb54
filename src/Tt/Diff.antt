-- ===== src/Tt/Diff.antt =====
-- The waiting changes as the difference between the table that was announced and the one that is.
pub mod Loop
use batman_adv.Common.{
  ℕ, zero, suc, ◌+◌, ◌-◌, ◌*◌, ◌≤◌, ◌<◌, ◌≡◌, refl, sym, ap, subst, ◌∙◌, Bool, true, false, not,
  ◌==◌, ltb, if◌then◌else◌, arith, List, [], ◌∷◌, ◌++◌, All, length, take, Bool-cases, inl, inr,
  ==_iff, take_all, length-zero, if_both,
}
use batman_adv.Tt.{Change, Changes, is_del, event_loop, local_event}
use batman_adv.Tt.Local.{Tt, change_size, container_update, commit}
use batman_adv.Tt.Stale.{Unlisted}
use batman_adv.Tt.Diff.Loop.{
  effect, effect-Unlisted, Single, out, effect-out, out-Single, local_event-counted,
}

-- The table of a receiver that starts with the clients of `start` and takes the changes in order.
abbrev pub applied : (ℕ → Bool) → List Change → ℕ → Bool
applied start [] a = start a
applied start (c ∷ cs) a = applied (λ x. if c.addr == x then not (is_del c) else start x) cs a

-- Every event is a change of the own table: a client that is there goes, or one that is not comes.
abbrev pub Alternates : (ℕ → Bool) → List Change → Type 0
Alternates start [] = Unit
Alternates start (c ∷ cs) =
    (start c.addr ≡ is_del c) × Alternates (λ x. if c.addr == x then not (is_del c) else start x) cs

abbrev pub all_events : List Change → Changes → Changes
all_events [] tt = tt
all_events (c ∷ cs) tt = all_events cs (local_event true c tt)

Single-other :
    (start : ℕ → Bool) (addr : ℕ) (there : Bool) (cs : List Change)
    → Unlisted addr cs
    → Single start cs
    → Single (λ x. if addr == x then there else start x) cs
Single-other start addr there [] u s = tt
Single-other start addr there (c ∷ cs) u s =
    ((s.0.0, ground (arith, u.0, s.0.1)), Single-other start addr there cs u.1 s.1)

applied-effect :
    (start : ℕ → Bool) (cs : List Change)
    → Single start cs
    → (a : ℕ) → applied start cs a ≡ effect cs a (start a)
applied-effect start [] s a = refl
applied-effect start (c ∷ cs) s a =
    let after : ℕ → Bool = λ x. if c.addr == x then not (is_del c) else start x in
    let rest =
      applied-effect after cs (Single-other start c.addr (not (is_del c)) cs s.0.0 s.1) a in
    elim (Bool-cases (c.addr == a)) [
      | inl e ↦
          let there =
            effect-Unlisted a cs (after a)
              (subst (λ x. Unlisted x cs) ((==_iff c.addr a).0 e) s.0.0) in
          rest ∙ there ∙ ground (arith, e)
      | inr e ↦ rest ∙ ground (arith, e)
    ]

-- The waiting changes take the announced table to the current one.
record Diff (start live : ℕ → Bool) (tt : Changes) : Type 0 where
  single : Single start tt.changes_list
  current : (a : ℕ) → effect tt.changes_list a (start a) ≡ live a
  counted : tt.local_changes ≡ length tt.changes_list

local_event-out :
    (c : Change) (tt : Changes) → (local_event true c tt).changes_list ≡ out c tt.changes_list
unfolding local_event
local_event-out c tt = elim (Bool-cases (event_loop c tt.changes_list).0) [
  | inl e ↦ rw (local_event, e) refl
  | inr e ↦ rw (local_event, e) refl
]

step-Diff :
    (start live : ℕ → Bool) (c : Change) (tt : Changes)
    → live c.addr ≡ is_del c
    → Diff start live tt
    → Diff start (λ x. if c.addr == x then not (is_del c) else live x) (local_event true c tt)
step-Diff start live c tt h d =
    let before = d.current c.addr ∙ h in
    record {
      single =
          subst (Single start) (sym (local_event-out c tt))
            (out-Single start c tt.changes_list d.single before);
      current = λ a.
          ap (λ l. effect l a (start a)) (local_event-out c tt)
          ∙ effect-out start c tt.changes_list d.single before a
          ∙ ap (λ x. if c.addr == a then not (is_del c) else x) (d.current a);
      counted = local_event-counted c tt d.counted;
    }

events-Diff :
    (start live : ℕ → Bool) (cs : List Change) (tt : Changes)
    → Alternates live cs
    → Diff start live tt
    → Diff start (applied live cs) (all_events cs tt)
events-Diff start live [] tt h d = d
events-Diff start live (c ∷ cs) tt h d =
    events-Diff start (λ x. if c.addr == x then not (is_del c) else live x) cs
      (local_event true c tt) h.1 (step-Diff start live c tt h.0 d)

container_sent :
    (mtu : ℕ) (tt : Changes)
    → tt.local_changes ≡ length tt.changes_list
    → tt.local_changes * change_size ≤ mtu
    → (container_update true mtu tt).0 ≡ tt.changes_list
unfolding container_update
container_sent mtu tt h fits =
    let f : ltb mtu (tt.local_changes * change_size) ≡ false = ground arith in
    elim (Bool-cases (tt.local_changes * change_size == 0)) [
      | inl z ↦
          rw (container_update, f, z) (sym (length-zero tt.changes_list (ground (arith, h, z))))
      | inr z ↦
          rw (container_update, f, z)
            (ap (λ n. take n tt.changes_list) h ∙ take_all tt.changes_list)
    ]

commit_sent :
    (mtu : ℕ) (append : Bool) (table : Tt)
    → table.changes.local_changes ≡ length table.changes.changes_list
    → table.changes.local_changes * change_size ≤ mtu
    → (commit true mtu append table).0 ≡ table.changes.changes_list
unfolding commit
commit_sent mtu append table h fits =
    let sent = container_sent mtu table.changes h fits in
    elim (Bool-cases (ltb table.changes.local_changes 1)) [
      | inl e ↦
          rw (commit, e)
            (if_both (λ (r : List Change × Tt). r.0 ≡ table.changes.changes_list) append _ _
              (sym (length-zero table.changes.changes_list (ground (arith, h, e)))) sent)
      | inr e ↦ rw (commit, e) sent
    ]

-- In an originator interval in which no allocation fails, neither of a change nor of the container for
-- the OGMs, every event takes a client away that is there, or adds one that is not, on
-- one VLAN; at its start no change waits. If the changes that are left fit into an OGM, then a
-- receiver whose table had the same clients at the start and that takes the changes which are sent,
-- in their order, has exactly the clients of the current table.
pub commit_diff :
    (mtu : ℕ) (append : Bool) (start : ℕ → Bool) (events : List Change) (table : Tt)
    → Alternates start events
    → table.changes ≡ all_events events (record { changes_list = []; local_changes = 0 })
    → table.changes.local_changes * change_size ≤ mtu
    → (addr : ℕ) → applied start (commit true mtu append table).0 addr ≡ applied start events addr
commit_diff mtu append start events table alt e fits addr =
    let d = subst (Diff start (applied start events)) (sym e) (
      events-Diff start start events (record { changes_list = []; local_changes = 0 }) alt
        (record { single = tt; current = λ a. refl; counted = refl })) in
    ap (λ cs. applied start cs addr) (commit_sent mtu append table d.counted fits)
    ∙ applied-effect start table.changes.changes_list d.single addr
    ∙ d.current addr
