-- ===== src/Tvlv/Receive/Parse.antt =====
-- The parsing loop on what the sender writes, and its fuel.
use batman_adv.Common.{
  ℕ, zero, suc, ◌+◌, ◌*◌, ◌/◌, ◌%◌, ◌^◌, ◌<◌, ◌≤◌, ◌≡◌, refl, arith, List, [], ◌∷◌, ◌++◌, length,
  take, drop, All, take-append, drop-append, length-drop, length-append, if◌then◌else◌, ltb, ◌∙◌,
  sym, ap,
}
use batman_adv.Tvlv.{Container, list_bytes}
use batman_adv.Tvlv.Receive.{Handler, Source, Progress, call_handler, handler_get, process_loop}

abbrev pub WordSized : Container → Type 0
WordSized c = length c.value < 2 ^ 16

module _ (unicast_ret : Handler → List ℕ → ℕ) (source : Source) where
  -- The containers of a list handed to their handlers, in order.
  unfoldable pub dispatch : List Container → Progress → Progress
  dispatch [] p = p
  dispatch (c ∷ cs) p =
      dispatch cs
        (call_handler unicast_ret source (handler_get p.handlers c.type c.version) c.value p)

  round_at :
      (fuel : ℕ) (t v n : ℕ) (value rest : List ℕ) (p : Progress)
      → n ≡ length value
      → (if ltb (length (value ++ rest)) n
          then p
          else process_loop unicast_ret fuel source (drop n (value ++ rest)) (
              call_handler unicast_ret source
                (handler_get p.handlers t v)
                (take n (value ++ rest))
                p))
        ≡ process_loop unicast_ret fuel source rest
            (call_handler unicast_ret source (handler_get p.handlers t v) value p)
  round_at fuel t v n value rest p e =
      rw (e, take-append value rest, drop-append value rest)
        (ground (arith, length-append value rest))

  -- One round, on a header with its value and what follows.
  round :
      (fuel : ℕ) (t v : ℕ) (value rest : List ℕ) (p : Progress)
      → process_loop unicast_ret
          (suc fuel)
          source
          (t ∷ v ∷ (length value / 256) ∷ (length value % 256) ∷ (value ++ rest))
          p
        ≡ process_loop unicast_ret fuel source rest
            (call_handler unicast_ret source (handler_get p.handlers t v) value p)
  unfolding process_loop
  round fuel t v value rest p =
      round_at fuel t v (length value / 256 * 256 + length value % 256) value rest p (omega arith)

  process_nil : (fuel : ℕ) (p : Progress) → process_loop unicast_ret fuel source [] p ≡ p
  unfolding process_loop
  process_nil zero p = refl
  process_nil (suc fuel) p = refl

  pub process-list_bytes :
      (fuel : ℕ) (cs : List Container) (p : Progress)
      → length (list_bytes cs) ≤ fuel
      → All WordSized cs
      → process_loop unicast_ret fuel source (list_bytes cs) p ≡ dispatch cs p
  unfolding dispatch
  process-list_bytes fuel [] p h w = process_nil fuel p
  process-list_bytes zero (c ∷ cs) p h w = absurd (omega arith)
  process-list_bytes (suc fuel) (c ∷ cs) p h w =
      round fuel c.type c.version c.value (list_bytes cs) p
      ∙ process-list_bytes fuel cs _ (omega (arith, length-append c.value (list_bytes cs))) w.1

  -- The parsing loop gives the same with any two amounts of fuel that are at least the length of
  -- the buffer: it has come to its end.
  pub process_fuel :
      (f g : ℕ) (buff : List ℕ) (p : Progress)
      → length buff ≤ f
      → length buff ≤ g
      → process_loop unicast_ret f source buff p ≡ process_loop unicast_ret g source buff p
  unfolding process_loop
  process_fuel f g [] p hf hg = process_nil f p ∙ sym (process_nil g p)
  process_fuel zero g (a ∷ buff) p hf hg = absurd (omega arith)
  process_fuel (suc f) zero (a ∷ buff) p hf hg = absurd (omega arith)
  process_fuel (suc f) (suc g) (a ∷ []) p hf hg = refl
  process_fuel (suc f) (suc g) (a ∷ b ∷ []) p hf hg = refl
  process_fuel (suc f) (suc g) (a ∷ b ∷ c ∷ []) p hf hg = refl
  process_fuel (suc f) (suc g) (t ∷ v ∷ hi ∷ lo ∷ rest) p hf hg =
      let n = hi * 256 + lo in
      ap (λ r. if ltb (length rest) n then p else r)
        (process_fuel f g (drop n rest) _ (omega (arith, length-drop n rest))
          (omega (arith, length-drop n rest)))
