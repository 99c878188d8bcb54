-- ===== src/Tvlv/Receive/Ogm.antt =====
-- An OGM's containers, as the sender writes them, through batadv_tvlv_containers_process.
use mathlib.Core.List.{reverse-cons}
use batman_adv.Common.{
  ℕ, ◌≡◌, refl, sym, ap, ap₂, ◌∙◌, Bool, true, false, ◌&&◌, ◌||◌, not, if◌then◌else◌, arith, List,
  [], ◌∷◌, ◌++◌, map, append-nil, append_assoc, All, length, reverse,
}
use batman_adv.Tvlv.{Container, list_bytes}
use batman_adv.Tvlv.Receive.{
  Handler, ogm, Progress, Call, ogm_call, not_found_call, finish_handlers, containers_process,
}
use batman_adv.Tvlv.Receive.Parse.{dispatch, process-list_bytes, WordSized}
use batman_adv.Tvlv.Receive.Calls.{
  Single, contains, mark, ogm_calls, call, handlers-call, calls-call, Single-mark, ogm_calls-mark,
  answers,
}

-- The handler with the marks that all containers leave.
mark_all : List Container → Handler → Handler
mark_all cs h = record h { called = h.called || (h.ogm_handler && contains cs h) }

map-mark_nil : (hs : List Handler) → map (mark_all []) hs ≡ hs
unfolding mark_all
map-mark_nil [] = refl
map-mark_nil (h ∷ hs) = ground (arith, map-mark_nil hs)

map-mark_cons :
    (c : Container) (cs : List Container) (hs : List Handler)
    → map (mark_all cs) (map (mark c.type c.version) hs) ≡ map (mark_all (c ∷ cs)) hs
unfolding mark_all mark
map-mark_cons c cs [] = refl
map-mark_cons c cs (h ∷ hs) = ground (arith, map-mark_cons c cs hs)

reverse_if :
    (b : Bool) (x : Call) (l r : List Call)
    → reverse (if b then x ∷ l else l) ++ r ≡ reverse l ++ (if b then x ∷ r else r)
reverse_if true x l r = rw (reverse-cons x l) (append_assoc (reverse l) (x ∷ []) r)
reverse_if false x l r = refl

module _ (unicast_ret : Handler → List ℕ → ℕ) where
  handlers-dispatch :
      (cs : List Container) (p : Progress)
      → Single p.handlers
      → (dispatch unicast_ret (ogm true) cs p).handlers ≡ map (mark_all cs) p.handlers
  unfolding dispatch
  handlers-dispatch [] p s = sym (map-mark_nil p.handlers)
  handlers-dispatch (c ∷ cs) p s =
      let q : Progress = call unicast_ret c.type c.version c.value p in
      let e = handlers-call unicast_ret c.type c.version c.value p s in
      handlers-dispatch cs q (rw e (Single-mark p.handlers c.type c.version s))
      ∙ (ap (map (mark_all cs)) e ∙ map-mark_cons c cs p.handlers)

  calls-dispatch :
      (cs : List Container) (p : Progress)
      → Single p.handlers
      → reverse (dispatch unicast_ret (ogm true) cs p).calls
        ≡ reverse p.calls ++ ogm_calls p.handlers cs
  unfolding dispatch
  calls-dispatch [] p s = sym (append-nil (reverse p.calls))
  calls-dispatch (c ∷ cs) p s =
      let q : Progress = call unicast_ret c.type c.version c.value p in
      let e = handlers-call unicast_ret c.type c.version c.value p s in
      calls-dispatch cs q (rw e (Single-mark p.handlers c.type c.version s))
      ∙ (ap₂ (λ a b. reverse a ++ b) (calls-call unicast_ret c.type c.version c.value p)
            (ap (λ z. ogm_calls z cs) e ∙ ogm_calls-mark p.handlers c.type c.version cs)
          ∙ reverse_if (answers p.handlers c.type c.version) (ogm_call c.type c.version c.value)
              p.calls (ogm_calls p.handlers cs))

-- The handlers that ask for it and get no container are called without one.
abbrev pub missing : List Handler → List Container → List Call
missing [] cs = []
missing (h ∷ hs) cs =
    if h.cifnotfnd && not (h.ogm_handler && contains cs h)
    then not_found_call h.type h.version ∷ missing hs cs
    else missing hs cs

finish-mark_all :
    (cs : List Container) (hs : List Handler)
    → All (λ h. h.called ≡ false) hs
    → finish_handlers (map (mark_all cs) hs) ≡ (hs, missing hs cs)
unfolding finish_handlers mark_all
finish-mark_all cs [] u = refl
finish-mark_all cs (h ∷ hs) u = ground (arith, finish-mark_all cs hs u.1)

-- With one handler for each type and version, none marked, and an originator that is known: when an
-- OGM's containers (of 16-bit lengths) are processed from the bytes that the sender writes, each goes
-- to the OGM handler of its type and version, in order and with its value; after that each handler
-- that wants to know of a missing container is called if it had none; and the marks are as before.
pub process_ogm :
    (unicast_ret : Handler → List ℕ → ℕ) (hs : List Handler) (cs : List Container)
    → Single hs
    → All (λ h. h.called ≡ false) hs
    → All WordSized cs
    → containers_process unicast_ret (ogm true) hs (list_bytes cs)
      ≡ (0, hs, ogm_calls hs cs ++ missing hs cs)
unfolding containers_process
process_ogm unicast_ret hs cs s u w =
    let p : Progress = record { ret = 0; handlers = hs; calls = [] } in
    rw (
      process-list_bytes unicast_ret (ogm true) (length (list_bytes cs)) cs p (omega arith) w,
      handlers-dispatch unicast_ret cs p s,
      finish-mark_all cs hs u,
      calls-dispatch unicast_ret cs p s,
    )
