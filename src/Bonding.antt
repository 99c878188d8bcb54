-- ===== src/Bonding.antt =====
-- routing.c, batadv_find_router: which router a packet for an originator takes, with bonding.
pub mod Choice
use batman_adv.Common.{
  ℕ, Bool, true, false, ◌&&◌, ◌||◌, not, ◌==◌, if◌then◌else◌, List, [], ◌∷◌, Option, none, some,
}

-- A `struct batadv_orig_ifinfo` of the originator, by a number: its router, and what
-- `bat_neigh_is_similar_or_better` says of that router against the default one.
pub record Candidate : Type 0 where
  pub ifinfo : ℕ
  pub router : Option ℕ
  pub similar_or_better : Bool

-- `last_bonding_candidate`, with the router that it has now.
pub record LastCandidate : Type 0 where
  pub ifinfo : ℕ
  pub router : Option ℕ

-- A candidate with its router.
abbrev pub Pick : Type 0
Pick = ℕ × ℕ

abbrev pub is_last : Option LastCandidate → ℕ → Bool
is_last none i = false
is_last (some l) i = l.ifinfo == i

abbrev pub last_router : Option LastCandidate → Option ℕ
last_router none = none
last_router (some l) = l.router

abbrev pub same_router : Option ℕ → ℕ → Bool
same_router none r = false
same_router (some l) r = l == r

abbrev pub is_none : Option LastCandidate → Bool
is_none none = true
is_none (some l) = false

abbrev pub or_first : Option Pick → Pick → Option Pick
or_first none p = some p
or_first (some q) p = some q

-- The loop over the candidates: the first and the next candidate. `found` is `last_candidate_found`.
unfoldable pub candidates_loop :
    Option LastCandidate → Bool → Option Pick → List Candidate → Option Pick × Option Pick
candidates_loop last found first [] = (first, none)
candidates_loop last found first (cand ∷ cands) = elim cand.router [
  | none ↦ candidates_loop last found first cands
  | some r ↦
      let pick : Pick = (cand.ifinfo, r) in
      let skipped = candidates_loop last found first cands in
      let passed =
        candidates_loop last (found || is_last last cand.ifinfo) (or_first first pick) cands in
      if not cand.similar_or_better
      then skipped
      else (if same_router (last_router last) r
          then skipped
          else (if is_none last || found then (or_first first pick, some pick) else passed))
]

-- The three cases at the end: the next candidate, else the first one, else the default router.
unfoldable pub choose : ℕ → Option Pick × Option Pick → Option ℕ × Option ℕ
choose router (first, some (c, r)) = (some r, some c)
choose router (some (c, r), none) = (some r, some c)
choose router (none, none) = (some router, none)

-- `batadv_find_router` for an originator that is there: the router, and `last_bonding_candidate`
-- after it. `bonds` tells whether bonding is on and the packet is at its first hop.
unfoldable pub find_router :
    Option ℕ → Bool → Option LastCandidate → List Candidate → Option ℕ × Option ℕ
unfolding candidates_loop choose
find_router none bonds last cands = (none, elim last [ none ↦ none | some l ↦ some l.ifinfo ])
find_router (some router) bonds last cands =
    if not bonds
    then (some router, elim last [ none ↦ none | some l ↦ some l.ifinfo ])
    else choose router (candidates_loop last false none cands)
