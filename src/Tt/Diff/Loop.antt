-- ===== src/Tt/Diff/Loop.antt =====
-- What one event does to the waiting changes, where every event is a real change.
use batman_adv.Common.{
  ℕ, ◌+◌, ◌≡◌, refl, sym, ap, subst, ◌∙◌, Bool, true, false, not, ◌&&◌, ◌||◌, ◌==◌, if◌then◌else◌,
  arith, List, [], ◌∷◌, ◌++◌, length, length-append, All-append, if_both, Bool-cases, inl, inr,
  ==_iff,
}
use batman_adv.Tt.{Change, Changes, is_del, event_loop, local_event}
use batman_adv.Tt.Stale.{Unlisted}

-- Whether a client is there, after the changes: the first one for it counts.
abbrev pub effect : List Change → ℕ → Bool → Bool
effect [] a d = d
effect (e ∷ es) a d = if e.addr == a then not (is_del e) else effect es a d

-- Each client has at most one change, and it is a change of the announced table.
abbrev pub Single : (ℕ → Bool) → List Change → Type 0
Single start [] = Unit
Single start (e ∷ es) = (Unlisted e.addr es × (start e.addr ≡ is_del e)) × Single start es

-- The list after an event.
abbrev pub out : Change → List Change → List Change
out c es = if (event_loop c es).0 then (event_loop c es).1 else (event_loop c es).1 ++ (c ∷ [])

out_other :
    (c e : Change) (es : List Change) → (e.addr == c.addr) ≡ false → out c (e ∷ es) ≡ e ∷ out c es
unfolding event_loop
out_other c e es h = elim (Bool-cases (event_loop c es).0) [
  | inl r ↦ rw (event_loop, h, r) refl
  | inr r ↦ rw (event_loop, h, r) refl
]

out_opposite :
    (c e : Change) (es : List Change)
    → (e.addr == c.addr) ≡ true
    → is_del c ≡ not (is_del e)
    → out c (e ∷ es) ≡ es
unfolding event_loop
out_opposite c e es h o = elim (Bool-cases (is_del e)) [
  | inl d ↦ let f : is_del c ≡ false = ground (arith, o, d) in rw (event_loop, h, d, f) refl
  | inr d ↦ let f : is_del c ≡ true = ground (arith, o, d) in rw (event_loop, h, d, f) refl
]

pub effect-Unlisted : (a : ℕ) (es : List Change) (d : Bool) → Unlisted a es → effect es a d ≡ d
effect-Unlisted a [] d h = refl
effect-Unlisted a (e ∷ es) d h = ground (arith, h.0, effect-Unlisted a es d h.1)

-- The opposite of what the list says of a client is what an event for it is.
opposite :
    (c e : Change) (es : List Change) (d : Bool)
    → (e.addr == c.addr) ≡ true
    → effect (e ∷ es) c.addr d ≡ is_del c
    → is_del c ≡ not (is_del e)
opposite c e es d s h = ground (arith, s, h)

rest_effect :
    (c e : Change) (es : List Change) (d : Bool)
    → (e.addr == c.addr) ≡ false
    → effect (e ∷ es) c.addr d ≡ is_del c
    → effect es c.addr d ≡ is_del c
rest_effect c e es d s h = ground (arith, s, h)

pub effect-out :
    (start : ℕ → Bool) (c : Change) (es : List Change)
    → Single start es
    → effect es c.addr (start c.addr) ≡ is_del c
    → (a : ℕ)
    → effect (out c es) a (start a)
      ≡ (if c.addr == a then not (is_del c) else effect es a (start a))
unfolding event_loop
effect-out start c [] s h a = refl
effect-out start c (e ∷ es) s h a = elim (Bool-cases (e.addr == c.addr)) [
  | inr n ↦
      ap (λ l. effect l a (start a)) (out_other c e es n)
      ∙ ground (arith, n, effect-out start c es s.1 (rest_effect c e es (start c.addr) n h) a)
  | inl n ↦
      let o = opposite c e es (start c.addr) n h in
      ap (λ l. effect l a (start a)) (out_opposite c e es n o) ∙ elim (Bool-cases (e.addr == a)) [
        | inr k ↦ ground (arith, n, k)
        | inl k ↦
            let known =
              subst (λ x. effect es x (start x) ≡ is_del e) ((==_iff e.addr a).0 k)
                (effect-Unlisted e.addr es (start e.addr) s.0.0 ∙ s.0.1) in
            known ∙ ground (arith, n, k, o)
      ]
]

Unlisted-out :
    (addr : ℕ) (c : Change) (es : List Change)
    → (c.addr == addr) ≡ false
    → Unlisted addr es
    → Unlisted addr (event_loop c es).1
unfolding event_loop
Unlisted-out addr c [] n h = tt
Unlisted-out addr c (e ∷ es) n h =
    if_both (λ (r : Bool × List Change). Unlisted addr r.1) (not (e.addr == c.addr)) _ _
      (h.0, Unlisted-out addr c es n h.1)
      (if_both (λ (r : Bool × List Change). Unlisted addr r.1)
        ((not (is_del c) && is_del e) || (is_del c && not (is_del e))) _ _ h.1
        (if_both (λ (r : Bool × List Change). Unlisted addr r.1) (not (is_del c)) _ _
          (h.0, Unlisted-out addr c es n h.1) (h.0, Unlisted-out addr c es n h.1)))

out-Unlisted :
    (addr : ℕ) (c : Change) (es : List Change)
    → (c.addr == addr) ≡ false
    → Unlisted addr es
    → Unlisted addr (out c es)
out-Unlisted addr c es n h =
    if_both (Unlisted addr) (event_loop c es).0 _ _ (Unlisted-out addr c es n h)
      (All-append _ (event_loop c es).1 (c ∷ []) (Unlisted-out addr c es n h) (n, tt))

pub out-Single :
    (start : ℕ → Bool) (c : Change) (es : List Change)
    → Single start es
    → effect es c.addr (start c.addr) ≡ is_del c
    → Single start (out c es)
unfolding event_loop
out-Single start c [] s h = ((tt, h), tt)
out-Single start c (e ∷ es) s h = elim (Bool-cases (e.addr == c.addr)) [
  | inr n ↦ subst (Single start) (sym (out_other c e es n)) (
    (out-Unlisted e.addr c es (ground (arith, n)) s.0.0, s.0.1),
    out-Single start c es s.1 (rest_effect c e es (start c.addr) n h),
  )
  | inl n ↦
      subst (Single start) (sym (out_opposite c e es n (opposite c e es (start c.addr) n h))) s.1
]

length_loop :
    (c : Change) (es : List Change)
    → length (event_loop c es).1 + (if (event_loop c es).0 then 1 else 0) ≡ length es
unfolding event_loop
length_loop c [] = omega arith
length_loop c (e ∷ es) = ground (arith, length_loop c es)

-- The counter is the number of the changes.
pub local_event-counted :
    (c : Change) (tt : Changes)
    → tt.local_changes ≡ length tt.changes_list
    → (local_event true c tt).local_changes ≡ length (local_event true c tt).changes_list
unfolding local_event
local_event-counted c tt h = ground (
  arith,
  h,
  length_loop c tt.changes_list,
  length-append (event_loop c tt.changes_list).1 (c ∷ []),
)
