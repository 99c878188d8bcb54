-- ===== src/Tvlv/Receive/Calls.antt =====
-- Which handlers are called for the containers of an OGM.
use batman_adv.Common.{
  ℕ, ◌≡◌, refl, Bool, true, false, ◌&&◌, ◌||◌, if◌then◌else◌, arith, List, [], ◌∷◌, map, none, some,
  Option-cases, inl, inr,
}
use batman_adv.Tvlv.{Container}
use batman_adv.Tvlv.Receive.{
  Handler, ogm, Progress, Call, ogm_call, is_for, handler_get, mark_called, call_handler,
}

-- No two handlers have the same type and version.
abbrev pub Single : List Handler → Type 0
Single [] = Unit
Single (h ∷ hs) = (handler_get hs h.type h.version ≡ none) × Single hs

-- The list has a container for the handler.
abbrev pub contains : List Container → Handler → Bool
contains [] h = false
contains (c ∷ cs) h = is_for c.type c.version h || contains cs h

-- The handler with the mark that a container of this type and version leaves.
unfoldable pub mark : ℕ → ℕ → Handler → Handler
mark t v h = record h { called = h.called || (h.ogm_handler && is_for t v h) }

-- The first handler for a type and version has an OGM callback.
abbrev pub answers : List Handler → ℕ → ℕ → Bool
answers hs t v = elim (handler_get hs t v) [ none ↦ false | some h ↦ h.ogm_handler ]

-- The calls for the containers, in order.
abbrev pub ogm_calls : List Handler → List Container → List Call
ogm_calls hs [] = []
ogm_calls hs (c ∷ cs) =
    if answers hs c.type c.version
    then ogm_call c.type c.version c.value ∷ ogm_calls hs cs
    else ogm_calls hs cs

mark_none : (hs : List Handler) (t v : ℕ) → handler_get hs t v ≡ none → map (mark t v) hs ≡ hs
unfolding handler_get mark
mark_none [] t v e = refl
mark_none (h ∷ hs) t v e = ground (arith, mark_none hs t v)

pub marks :
    (hs : List Handler) (t v : ℕ)
    → Single hs
    → map (mark t v) hs ≡ (if answers hs t v then mark_called hs t v else hs)
unfolding handler_get mark mark_called
marks [] t v s = refl
marks (h ∷ hs) t v s = ground (arith, marks hs t v s.1, mark_none hs t v)

found :
    (hs : List Handler) (t v : ℕ) (g : Handler)
    → handler_get hs t v ≡ some g
    → (g.type ≡ t) × (g.version ≡ v)
unfolding handler_get
found [] t v g e = absurd (ground arith)
found (h ∷ hs) t v g e = ground (arith, found hs t v g)

module _ (unicast_ret : Handler → List ℕ → ℕ) where
  abbrev pub call : ℕ → ℕ → List ℕ → Progress → Progress
  call t v value p = call_handler unicast_ret (ogm true) (handler_get p.handlers t v) value p

  pub handlers-call :
      (t v : ℕ) (value : List ℕ) (p : Progress)
      → Single p.handlers
      → (call t v value p).handlers ≡ map (mark t v) p.handlers
  unfolding call_handler
  handlers-call t v value p s = elim (Option-cases (handler_get p.handlers t v)) [
    | inl e ↦ ground (arith, marks p.handlers t v s)
    | inr (g, e) ↦ ground (arith, marks p.handlers t v s, found p.handlers t v g e)
  ]

  pub calls-call :
      (t v : ℕ) (value : List ℕ) (p : Progress)
      → (call t v value p).calls
        ≡ (if answers p.handlers t v then ogm_call t v value ∷ p.calls else p.calls)
  unfolding call_handler
  calls-call t v value p = elim (Option-cases (handler_get p.handlers t v)) [
    | inl e ↦ ground arith
    | inr (g, e) ↦ ground (arith, found p.handlers t v g e)
  ]

-- Marking changes neither what is found nor who answers.
get-mark :
    (hs : List Handler) (t v t' v' : ℕ)
    → handler_get (map (mark t v) hs) t' v'
      ≡ elim (handler_get hs t' v') [ none ↦ none | some h ↦ some (mark t v h) ]
unfolding handler_get mark
get-mark [] t v t' v' = refl
get-mark (h ∷ hs) t v t' v' = ground (arith, get-mark hs t v t' v')

answers-mark :
    (hs : List Handler) (t v t' v' : ℕ) → answers (map (mark t v) hs) t' v' ≡ answers hs t' v'
unfolding mark
answers-mark hs t v t' v' = ground (arith, get-mark hs t v t' v')

pub Single-mark : (hs : List Handler) (t v : ℕ) → Single hs → Single (map (mark t v) hs)
unfolding mark
Single-mark [] t v s = tt
Single-mark (h ∷ hs) t v s =
    (ground (arith, get-mark hs t v h.type h.version), Single-mark hs t v s.1)

pub ogm_calls-mark :
    (hs : List Handler) (t v : ℕ) (cs : List Container)
    → ogm_calls (map (mark t v) hs) cs ≡ ogm_calls hs cs
ogm_calls-mark hs t v [] = refl
ogm_calls-mark hs t v (c ∷ cs) = rw (answers-mark hs t v c.type c.version, ogm_calls-mark hs t v cs)
