-- ===== src/Tests/Bonds.antt =====
-- Three candidates for bonding.
use batman_adv.Common.{◌≡◌, refl, arith, true, List, [], ◌∷◌, Option, some}
use batman_adv.Bonding.{Candidate, LastCandidate, find_router}
use batman_adv.Bonding.Choice.{Consistent, find_router_first}

abbrev candidates : List Candidate
candidates =
    record { ifinfo = 1; router = some 11; similar_or_better = true }
    ∷ record { ifinfo = 2; router = some 12; similar_or_better = true }
    ∷ record { ifinfo = 3; router = some 13; similar_or_better = true }
    ∷ []

-- The second was used last: the first is used again, and the third never.
abbrev last : Option LastCandidate
last = some (record { ifinfo = 2; router = some 12 })

candidates-Consistent : Consistent last candidates
candidates-Consistent =
    ((λ h. absurd (ground arith)), ((λ h. refl), ((λ h. absurd (ground arith)), tt)))

find_router_first_example : find_router (some 11) true last candidates ≡ (some 11, some 1)
find_router_first_example = find_router_first 11 last candidates candidates-Consistent
