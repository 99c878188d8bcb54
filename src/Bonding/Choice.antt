-- ===== src/Bonding/Choice.antt =====
-- Which candidate bonding takes.
use batman_adv.Common.{
  ℕ, ◌≡◌, refl, ap, ◌∙◌, true, false, ◌&&◌, not, ◌==◌, if◌then◌else◌, arith, List, [], ◌∷◌, Option,
  none, some, All, Option-cases, inl, inr,
}
use batman_adv.Bonding.{
  Candidate, LastCandidate, Pick, is_last, last_router, same_router, candidates_loop, choose,
  find_router,
}

-- The first candidate that is good enough and has another router than the given one.
abbrev pub first_other : Option ℕ → List Candidate → Option Pick
first_other used [] = none
first_other used (cand ∷ cands) = elim cand.router [
  | none ↦ first_other used cands
  | some r ↦
      if cand.similar_or_better && not (same_router used r)
      then some (cand.ifinfo, r)
      else first_other used cands
]

-- The last candidate is the same object wherever it stands in the list.
abbrev pub Consistent : Option LastCandidate → List Candidate → Type 0
Consistent last = All (λ c. is_last last c.ifinfo ≡ true → c.router ≡ last_router last)

same_router_self : (used : Option ℕ) (r : ℕ) → some r ≡ used → same_router used r ≡ true
same_router_self none r e = absurd (ground arith)
same_router_self (some l) r e = ground arith

-- The last candidate itself is left out, since its router is the one to avoid.
not_last :
    (l : LastCandidate) (i r : ℕ) (router : Option ℕ)
    → router ≡ some r
    → (is_last (some l) i ≡ true → router ≡ l.router)
    → same_router l.router r ≡ false
    → (l.ifinfo == i) ≡ false
not_last l i r router e h s = ground (arith, same_router_self l.router r)

-- With a last candidate no next one is found.
loop_some :
    (l : LastCandidate) (first : Option Pick) (cands : List Candidate)
    → Consistent (some l) cands
    → candidates_loop (some l) false first cands
      ≡ (elim first [ some p ↦ some p | none ↦ first_other l.router cands ], none)
unfolding candidates_loop
loop_some l none [] h = refl
loop_some l (some p) [] h = refl
loop_some l none (cand ∷ cands) h = elim (Option-cases cand.router) [
  | inl e ↦ rw (e) (loop_some l none cands h.1)
  | inr (r, e) ↦ ground (
    arith,
    loop_some l none cands h.1,
    loop_some l (some (cand.ifinfo, r)) cands h.1,
    not_last l cand.ifinfo r cand.router e h.0,
  )
]
loop_some l (some p) (cand ∷ cands) h = elim (Option-cases cand.router) [
  | inl e ↦ rw (e) (loop_some l (some p) cands h.1)
  | inr (r, e) ↦
      ground (arith, loop_some l (some p) cands h.1, not_last l cand.ifinfo r cand.router e h.0)
]

loop_none :
    (cands : List Candidate)
    → let p = first_other none cands in candidates_loop none false none cands ≡ (p, p)
unfolding candidates_loop
loop_none [] = refl
loop_none (cand ∷ cands) = elim (Option-cases cand.router) [
  | inl e ↦ rw (e) (loop_none cands)
  | inr (r, e) ↦ ground (arith, loop_none cands)
]

choose_same :
    (router : ℕ) (p : Option Pick)
    → choose router (p, p) ≡ elim p [ some (c, r) ↦ (some r, some c) | none ↦ (some router, none) ]
unfolding choose
choose_same router none = refl
choose_same router (some (c, r)) = refl

choose_first :
    (router : ℕ) (p : Option Pick)
    → choose router (p, none)
      ≡ elim p [ some (c, r) ↦ (some r, some c) | none ↦ (some router, none) ]
unfolding choose
choose_first router none = refl
choose_first router (some (c, r)) = refl

-- With bonding, the packet takes the first candidate in the list that is good enough and has another
-- router than the last one used, which becomes the last candidate, and the default router if there is
-- none. So it is never the candidate after the last one that is looked for.
pub find_router_first :
    (router : ℕ) (last : Option LastCandidate) (cands : List Candidate)
    → Consistent last cands
    → find_router (some router) true last cands ≡ elim (first_other (last_router last) cands) [
      | some (c, r) ↦ (some r, some c)
      | none ↦ (some router, none)
    ]
unfolding find_router
find_router_first router none cands h =
    ap (choose router) (loop_none cands) ∙ choose_same router (first_other none cands)
find_router_first router (some l) cands h =
    ap (choose router) (loop_some l none cands h) ∙ choose_first router (first_other l.router cands)
