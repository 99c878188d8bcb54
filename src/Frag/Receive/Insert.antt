-- ===== src/Frag/Receive/Insert.antt =====
-- The search for a fragment's place in a chain, against insertion into a descending list.
use mathlib.Core.List.{Permᴰ}
use batman_adv.Common.{
  ℕ, ◌<◌, ◌≤◌, ◌≡◌, ◌≢◌, refl, sym, ◌∙◌, ap, true, false, ◌==◌, ltb, if◌then◌else◌, arith, List, [],
  ◌∷◌, All, subst,
}
use batman_adv.Frag.{Fragment}
use batman_adv.Frag.Receive.{placed, place}

-- Insertion before the first entry with a lower number; a number that is there stays.
unfoldable pub ins : Fragment → List Fragment → List Fragment
ins new [] = new ∷ []
ins new (c ∷ rest) =
    if c.no == new.no
    then c ∷ rest
    else (if ltb c.no new.no then new ∷ c ∷ rest else c ∷ ins new rest)

-- No fragment of the list has this number.
abbrev pub AllNe : Fragment → List Fragment → Type 0
AllNe new = All (λ c. c.no ≢ new.no)

place-ins-true :
    (new : Fragment) (l : List Fragment) → AllNe new l → place new true l ≡ placed (ins new l)
unfolding place ins
place-ins-true new [] h = refl
place-ins-true new (c ∷ rest) h = ground (arith, place-ins-true new rest h.1)

place_nonempty :
    (new d : Fragment) (l : List Fragment) → place new false (ins d l) ≡ place new true (ins d l)
unfolding place ins
place_nonempty new d [] = refl
place_nonempty new d (c ∷ rest) = ground arith

-- The search in a list that is not empty.
pub place-ins :
    (new d : Fragment) (l : List Fragment)
    → AllNe new (ins d l)
    → place new false (ins d l) ≡ placed (ins new (ins d l))
place-ins new d l h = place_nonempty new d l ∙ place-ins-true new (ins d l) h

All-ins :
    (P : Fragment → Type 0) (new : Fragment) (l : List Fragment)
    → P new
    → All P l
    → All P (ins new l)
unfolding ins
All-ins P new [] p h = (p, h)
All-ins P new (c ∷ rest) p h = ground (arith, All-ins P new rest p h.1)

pub ins_comm :
    (a b : Fragment) (l : List Fragment) → a.no ≢ b.no → ins a (ins b l) ≡ ins b (ins a l)
unfolding ins
ins_comm a b [] h = ground arith
ins_comm a b (c ∷ rest) h = ground (arith, ins_comm a b rest h)

-- The list that a history of fragments builds, the latest first.
unfoldable pub build : List Fragment → List Fragment
build [] = []
build (g ∷ gs) = ins g (build gs)

pub All-build : (P : Fragment → Type 0) (gs : List Fragment) → All P gs → All P (build gs)
unfolding build
All-build P [] h = h
All-build P (g ∷ gs) h = All-ins P g (build gs) h.0 (All-build P gs h.1)

pub build_one : (g : Fragment) → build (g ∷ []) ≡ g ∷ []
unfolding build ins
build_one g = refl

abbrev pub Distinct : List Fragment → Type 0
Distinct [] = Unit
Distinct (g ∷ gs) = AllNe g gs × Distinct gs

-- Descending numbers below a bound.
abbrev pub Desc : ℕ → List Fragment → Type 0
Desc n [] = Unit
Desc n (g ∷ gs) = (g.no < n) × Desc g.no gs

pub All-perm : (P : Fragment → Type 0) {xs ys : List Fragment} → Permᴰ xs ys → All P xs → All P ys
All-perm P Permᴰ.nil h = h
All-perm P (Permᴰ.cons e p) h = (subst P e h.0, All-perm P p h.1)
All-perm P (Permᴰ.swap e e') h = (subst P e' h.1.0, (subst P e h.0, h.1.1))
All-perm P (Permᴰ.trans p q) h = All-perm P q (All-perm P p h)

-- The order of arrival does not matter to the list that is built.
pub build-perm :
    {xs ys : List Fragment} → Permᴰ xs ys → Distinct xs → (build xs ≡ build ys) × Distinct ys
unfolding build
build-perm Permᴰ.nil h = (refl, h)
build-perm (Permᴰ.cons {a = a} {l₁ = xs} {l₂ = ys} e p) h =
    let (same, d) = build-perm p h.1 in
    subst (λ b. (build (a ∷ xs) ≡ build (b ∷ ys)) × Distinct (b ∷ ys)) e
      (ap (ins a) same, (All-perm (λ c. c.no ≢ a.no) p h.0, d))
build-perm (Permᴰ.swap {a = a} {b = b} {a' = x} {l = l} e e') h =
    subst (λ b'. (build (a ∷ b ∷ l) ≡ build (x ∷ b' ∷ l)) × Distinct (x ∷ b' ∷ l)) e
      (subst (λ a'. (build (a ∷ b ∷ l) ≡ build (a' ∷ a ∷ l)) × Distinct (a' ∷ a ∷ l)) e'
        (
          ins_comm a b (build l) (λ q. h.0.0 (sym q)),
          (((λ q. h.0.0 (sym q)), h.1.0), (h.0.1, h.1.1)),
        ))
build-perm (Permᴰ.trans p q) h =
    let (e, d) = build-perm p h in let (e', d') = build-perm q d in (e ∙ e', d')

-- A list that descends is built from itself.
pub build-Desc : (n : ℕ) (gs : List Fragment) → Desc n gs → build gs ≡ gs
unfolding build ins
build-Desc n [] h = refl
build-Desc n (g ∷ []) h = refl
build-Desc n (g ∷ f ∷ gs) h = rw (build-Desc g.no (f ∷ gs) h.1) (ground arith)

Desc-AllNe : (a : Fragment) (n : ℕ) (gs : List Fragment) → n ≤ a.no → Desc n gs → AllNe a gs
Desc-AllNe a n [] le h = tt
Desc-AllNe a n (g ∷ gs) le h = (omega arith, Desc-AllNe a g.no gs (omega arith) h.1)

pub Desc-Distinct : (n : ℕ) (gs : List Fragment) → Desc n gs → Distinct gs
Desc-Distinct n [] h = tt
Desc-Distinct n (g ∷ gs) h = (Desc-AllNe g g.no gs (omega arith) h.1, Desc-Distinct g.no gs h.1)
