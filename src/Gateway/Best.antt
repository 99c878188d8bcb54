-- ===== src/Gateway/Best.antt =====
-- gateway_client.c: the gateway that is chosen is a best one.
use mathlib.Core.Option.{some_inj, some-ne-none}
use batman_adv.Common.{
  ap, ℕ, ◌≤◌, ◌≡◌, refl, sym, ◌∙◌, ◌==◌, if◌then◌else◌, arith, List, [], ◌∷◌, Option, none, some,
  if_both, Option-cases, Bool-cases, inl, inr, ◌⊎◌, subst, ◌≢◌,
}
use batman_adv.Gateway.{
  GwRef, GwNode, Gw, Search, gw_factor, is_better, search_step, search_gw, get_best_gw_node,
}

-- What the choice is by: the factor in the first class, the quality in the others.
abbrev pub score : ℕ → ℕ → GwNode → ℕ
score sel_class tq_avg node = if sel_class == 1 then gw_factor sel_class tq_avg node else tq_avg

-- The score of a gateway; 0 without a router.
abbrev pub score_at : ℕ → Option ℕ → GwNode → ℕ
score_at sel_class none node = 0
score_at sel_class (some tq_avg) node = score sel_class tq_avg node

-- No gateway has a score above `top`.
unfoldable pub Bounded : ℕ → (ℕ → Option ℕ) → ℕ → List GwNode → Type 0
Bounded sel_class tq top [] = Unit {0}
Bounded sel_class tq top (n ∷ ns) =
    (score_at sel_class (tq n.ref.orig_node) n ≤ top) × Bounded sel_class tq top ns

-- `ref` is one of the gateways, has a router, and has the score `top`.
unfoldable pub Scored : ℕ → (ℕ → Option ℕ) → ℕ → GwRef → List GwNode → Type 0
Scored sel_class tq top ref [] = ⊥
Scored sel_class tq top ref (n ∷ ns) =
    ((n.ref ≡ ref)
      × ((tq_avg : ℕ) × ((tq n.ref.orig_node ≡ some tq_avg) × (score sel_class tq_avg n ≡ top))))
    ⊎ Scored sel_class tq top ref ns

abbrev pub quality_at : Option ℕ → ℕ
quality_at none = 0
quality_at (some tq_avg) = tq_avg

-- Each gateway is without a router, or its router has the quality 0.
unfoldable pub Silent : (ℕ → Option ℕ) → List GwNode → Type 0
Silent tq [] = Unit {0}
Silent tq (n ∷ ns) = (quality_at (tq n.ref.orig_node) ≡ 0) × Silent tq ns

-- What the choice promises.
unfoldable pub IsBest : ℕ → (ℕ → Option ℕ) → List GwNode → Option GwRef → Type 0
unfolding Bounded Scored Silent
IsBest sel_class tq nodes none = Silent tq nodes
IsBest sel_class tq nodes (some ref) =
    (top : ℕ) × (Scored sel_class tq top ref nodes × Bounded sel_class tq top nodes)

-- The score that the search has reached.
abbrev reached : ℕ → Search → ℕ
reached sel_class s = if sel_class == 1 then s.max_gw_factor else s.max_tq

module _ (sel_class : ℕ) (tq : ℕ → Option ℕ) where
  step-grows :
      (t : ℕ) (n : GwNode) (s : Search)
      → (reached sel_class s ≤ reached sel_class (search_step sel_class t n s))
        × (score sel_class t n ≤ reached sel_class (search_step sel_class t n s))
  unfolding search_step
  step-grows t n s = ground arith

  step-from :
      (t : ℕ) (n : GwNode) (s : Search)
      → (((search_step sel_class t n s).curr_gw ≡ s.curr_gw)
          × (reached sel_class (search_step sel_class t n s) ≡ reached sel_class s))
        ⊎ (((search_step sel_class t n s).curr_gw ≡ some n.ref)
            × (score sel_class t n ≡ reached sel_class (search_step sel_class t n s)))
  unfolding search_step is_better
  step-from t n s = elim (Bool-cases (is_better sel_class t (gw_factor sel_class t n) s)) [
    | inl e ↦ inr (rw (e) refl, ground (arith, e))
    | inr e ↦ inl (rw (e) refl, ground (arith, e))
  ]

  search-none :
      (n : GwNode) (ns : List GwNode) (s : Search)
      → tq n.ref.orig_node ≡ none
      → search_gw sel_class tq (n ∷ ns) s ≡ search_gw sel_class tq ns s
  unfolding search_gw
  search-none n ns s e = rw (search_gw, e) refl

  search-some :
      (n : GwNode) (ns : List GwNode) (s : Search) (t : ℕ)
      → tq n.ref.orig_node ≡ some t
      → search_gw sel_class tq (n ∷ ns) s ≡ search_gw sel_class tq ns (search_step sel_class t n s)
  unfolding search_gw
  search-some n ns s t e = rw (search_gw, e) refl

  abbrev Grown : Search → List GwNode → Search → Type 0
  Grown s ns r =
      (reached sel_class s ≤ reached sel_class r) × Bounded sel_class tq (reached sel_class r) ns

  search-grows : (ns : List GwNode) (s : Search) → Grown s ns (search_gw sel_class tq ns s)
  unfolding search_gw Bounded
  search-grows [] s = (ground arith, tt)
  search-grows (n ∷ ns) s = elim (Option-cases (tq n.ref.orig_node)) [
    | inl e ↦
        let (more, bounded) = search-grows ns s in
        subst (Grown s (n ∷ ns)) (sym (search-none n ns s e))
          (more, (rw (e) (omega arith), bounded))
    | inr (t, e) ↦
        let (more, bounded) = search-grows ns (search_step sel_class t n s) in
        let (grows, scored) = step-grows t n s in
        subst (Grown s (n ∷ ns)) (sym (search-some n ns s t e))
          (omega (arith, grows, more), (rw (e) (omega (arith, scored, more)), bounded))
  ]

  -- A search that ends at `ref` started there, or `ref` is a gateway that has a router.
  abbrev From : Search → List GwNode → GwRef → Search → Type 0
  From s ns ref r =
      ((s.curr_gw ≡ some ref) × (reached sel_class r ≡ reached sel_class s))
      ⊎ Scored sel_class tq (reached sel_class r) ref ns

  search-From :
      (ns : List GwNode) (s : Search) (ref : GwRef)
      → (search_gw sel_class tq ns s).curr_gw ≡ some ref
      → From s ns ref (search_gw sel_class tq ns s)
  unfolding search_gw Scored
  search-From [] s ref h = inl (h, refl)
  search-From (n ∷ ns) s ref h = elim (Option-cases (tq n.ref.orig_node)) [
    | inl e ↦
        let same = search-none n ns s e in
        subst (From s (n ∷ ns) ref) (sym same)
          (elim (search-From ns s ref (ap (λ r. r.curr_gw) (sym same) ∙ h)) [
            | inl kept ↦ inl kept
            | inr later ↦ inr (inr later)
          ])
    | inr (t, e) ↦
        let same = search-some n ns s t e in
        let next = search_step sel_class t n s in
        subst (From s (n ∷ ns) ref) (sym same)
          (elim (search-From ns next ref (ap (λ r. r.curr_gw) (sym same) ∙ h)) [
            | inl (curr, top) ↦ elim (step-from t n s) [
              | inl (kept, still) ↦ inl (sym kept ∙ curr, top ∙ still)
              | inr (taken, scored) ↦
                  inr (inl ((some_inj).0 (sym taken ∙ curr), (t, (e, scored ∙ sym top))))
            ]
            | inr later ↦ inr (inr later)
          ])
  ]

  -- No gateway is chosen yet, and nothing is reached.
  abbrev Start : Search → Type 0
  Start s = (s.curr_gw ≡ none) × ((s.max_gw_factor ≡ 0) × (s.max_tq ≡ 0))

  step-Start :
      (t : ℕ) (n : GwNode) (s : Search)
      → Start s
      → ((t ≡ 0) × Start (search_step sel_class t n s))
        ⊎ ((search_step sel_class t n s).curr_gw ≢ none)
  unfolding search_step is_better
  step-Start t n s (c, (f, q)) =
      elim (Bool-cases (is_better sel_class t (gw_factor sel_class t n) s)) [
        | inl e ↦ inr (rw (e) (some-ne-none n.ref))
        | inr e ↦ inl (
          ground (arith, e, f, q),
          (rw (e) c, (ground (arith, e, f, q), ground (arith, e, f, q))),
        )
      ]

  step-keeps :
      (t : ℕ) (n : GwNode) (s : Search)
      → s.curr_gw ≢ none
      → (search_step sel_class t n s).curr_gw ≢ none
  unfolding search_step
  step-keeps t n s h =
      if_both (λ (o : Option GwRef). o ≢ none) (is_better sel_class t (gw_factor sel_class t n) s) _
        _ (some-ne-none n.ref) h

  search-keeps :
      (ns : List GwNode) (s : Search)
      → s.curr_gw ≢ none
      → (search_gw sel_class tq ns s).curr_gw ≢ none
  unfolding search_gw
  search-keeps [] s h = h
  search-keeps (n ∷ ns) s h = elim (Option-cases (tq n.ref.orig_node)) [
    | inl e ↦ rw (search-none n ns s e) (search-keeps ns s h)
    | inr (t, e) ↦
        rw (search-some n ns s t e)
          (search-keeps ns (search_step sel_class t n s) (step-keeps t n s h))
  ]

  search-Silent :
      (ns : List GwNode) (s : Search)
      → Start s
      → (search_gw sel_class tq ns s).curr_gw ≡ none
      → Silent tq ns
  unfolding search_gw Silent
  search-Silent [] s st h = tt
  search-Silent (n ∷ ns) s st h = elim (Option-cases (tq n.ref.orig_node)) [
    | inl e ↦
        (rw (e) refl, search-Silent ns s st (ap (λ r. r.curr_gw) (sym (search-none n ns s e)) ∙ h))
    | inr (t, e) ↦
        let next = search_step sel_class t n s in
        let end = ap (λ r. r.curr_gw) (sym (search-some n ns s t e)) ∙ h in
        elim (step-Start t n s st) [
          | inl (z, st') ↦ (rw (e) z, search-Silent ns next st' end)
          | inr chosen ↦ absurd (search-keeps ns next chosen end)
        ]
  ]

-- The gateway that is chosen is in the list and has a router; in the first class no gateway has a
-- larger factor of quality and bandwidth, and in the other classes none has a better quality. If
-- none is chosen, then no gateway has a router with a quality above 0.
pub get_best_gw_node-IsBest :
    (tq : ℕ → Option ℕ) (gw : Gw) → IsBest gw.gw_sel_class tq gw.list (get_best_gw_node tq gw)
unfolding IsBest get_best_gw_node
get_best_gw_node-IsBest tq gw =
    let start : Search = record { curr_gw = none; max_gw_factor = 0; max_tq = 0 } in
    let c = gw.gw_sel_class in
    elim (Option-cases (get_best_gw_node tq gw)) [
      | inl e ↦
          subst (IsBest c tq gw.list) (sym e)
            (search-Silent c tq gw.list start (refl, (refl, refl)) e)
      | inr (ref, e) ↦ subst (IsBest c tq gw.list) (sym e) (
        reached c (search_gw c tq gw.list start),
        (
          elim (search-From c tq gw.list start ref e) [
            | inl (k, z) ↦ absurd (some-ne-none ref (sym k))
            | inr found ↦ found
          ],
          (search-grows c tq gw.list start).1,
        ),
      )
    ]
