-- ===== src/Frag/Receive/Merge.antt =====
-- All fragments of one packet through batadv_frag_skb_buffer, in any order of arrival.
use batman_adv.Common.{
  ℕ, ◌%◌, ◌<◌, ◌≤◌, ◌≡◌, ◌≢◌, refl, true, arith, List, [], ◌∷◌, length, All, ap, ap₂, sym, ◌∙◌,
  subst, set, get_or, get_or-set_self, length-set, map,
}
use batman_adv.Frag.{Fragment, buffer_count}
use batman_adv.Frag.Receive.{
  Chain, Alloc, Outcome, merged, buffered, size_limit, empty_chain, payloads, insert_chain,
  skb_buffer,
}
use batman_adv.Frag.Receive.Insert.{build, build_one, Distinct}
use batman_adv.Frag.Receive.Chains.{
  bytes, Belongs, Partial, insert_first, insert_only, insert_next, insert_last,
}

-- Every allocation succeeds.
abbrev pub all_ok : Alloc
all_ok = record { linearize = true; entry = true; expand = true }

-- A history of fragments, the latest first, each with the time at which it arrives: the outcomes,
-- the latest first, and the table.
unfoldable pub deliver : (Fragment → ℕ) → List Chain → List Fragment → List Outcome × List Chain
deliver time table [] = ([], table)
deliver time table (g ∷ gs) =
    let (outcomes, t) = deliver time table gs in
    let (o, t') = skb_buffer all_ok (time g) t g in (o ∷ outcomes, t')

abbrev pub chain_of : ℕ → List Chain → Chain
chain_of s table = get_or table (s % buffer_count) empty_chain

module _ (s total : ℕ) (time : Fragment → ℕ) (small : total ≤ size_limit) where
  -- One fragment that is kept: the table changes in its bucket only.
  skb_buffer_kept :
      (now : ℕ) (table : List Chain) (g : Fragment)
      → g.seqno ≡ s
      → (insert_chain now (chain_of s table) g).0 ≡ true
      → (insert_chain now (chain_of s table) g).2 ≡ []
      → skb_buffer all_ok now table g
        ≡ (buffered, set table (s % buffer_count) (insert_chain now (chain_of s table) g).1)
  unfolding skb_buffer
  skb_buffer_kept now table g e h h' = ground arith

  skb_buffer_merged :
      (now : ℕ) (table : List Chain) (g x : Fragment) (xs : List Fragment)
      → g.seqno ≡ s
      → (insert_chain now (chain_of s table) g).0 ≡ true
      → (insert_chain now (chain_of s table) g).2 ≡ x ∷ xs
      → (skb_buffer all_ok now table g).0 ≡ merged (payloads (x ∷ xs))
  unfolding skb_buffer
  skb_buffer_merged now table g x xs e h h' = ground arith

  -- The state while fragments are still missing.
  record Waiting (gs : List Fragment) (r : List Outcome × List Chain) : Type 0 where
    outcomes : r.0 ≡ map (λ _. buffered) gs
    chain : Partial s total gs (chain_of s r.1)
    chains : length r.1 ≡ buffer_count

  Waiting-step :
      (table : List Chain) (g : Fragment) (rest : List Fragment)
      → g.seqno ≡ s
      → length (deliver time table rest).1 ≡ buffer_count
      → (deliver time table rest).0 ≡ map (λ _. buffered) rest
      → let r = insert_chain (time g) (chain_of s (deliver time table rest).1) g in
        (r.0 ≡ true) × (r.2 ≡ []) × Partial s total (g ∷ rest) r.1
        → Waiting (g ∷ rest) (deliver time table (g ∷ rest))
  unfolding deliver
  Waiting-step table g rest e len os h =
      let t : List Chain = (deliver time table rest).1 in
      let c : Chain = (insert_chain (time g) (chain_of s t) g).1 in
      rw (skb_buffer_kept (time g) t g e h.0 h.1) (record {
        outcomes = ap (λ xs. buffered ∷ xs) os;
        chain =
            subst (Partial s total (g ∷ rest))
              (sym (get_or-set_self t (s % buffer_count) c empty_chain (omega arith))) h.2;
        chains = length-set t (s % buffer_count) c ∙ len;
      })

  module _ (table : List Chain) (eight : length table ≡ buffer_count)
      (fresh : (chain_of s table).seqno ≢ s) where
    deliver-Waiting :
        (d : Fragment) (gs : List Fragment)
        → All (Belongs s total) (d ∷ gs)
        → Distinct (d ∷ gs)
        → bytes (d ∷ gs) < total
        → Waiting (d ∷ gs) (deliver time table (d ∷ gs))
    unfolding deliver
    deliver-Waiting d [] b distinct h =
        Waiting-step table d [] b.0.seq eight refl
          (insert_first s total (time d) small (chain_of s table) d b.0 fresh (omega arith))
    deliver-Waiting d (e ∷ gs) b distinct h =
        let w = deliver-Waiting e gs b.1 distinct.1 (omega arith) in
        Waiting-step table d (e ∷ gs) b.0.seq w.chains w.outcomes (
          insert_next s total (time d) small (chain_of s (deliver time table (e ∷ gs)).1) d e gs b.0
            distinct.0 w.chain h)

    -- The last fragment to arrive completes the packet, and no other does.
    pub deliver_merges :
        (g : Fragment) (gs : List Fragment) (x : Fragment) (xs : List Fragment)
        → All (Belongs s total) (g ∷ gs)
        → Distinct (g ∷ gs)
        → bytes (g ∷ gs) ≡ total
        → build (g ∷ gs) ≡ x ∷ xs
        → (deliver time table (g ∷ gs)).0 ≡ merged (payloads (x ∷ xs)) ∷ map (λ _. buffered) gs
    unfolding deliver
    deliver_merges g [] x xs b distinct h e =
        let r = insert_only s total (time g) small (chain_of s table) g b.0 fresh (omega arith) in
        ap (λ o. o ∷ [])
          (skb_buffer_merged (time g) table g x xs b.0.seq r.0 (r.1 ∙ (sym (build_one g) ∙ e)))
    deliver_merges g (d ∷ gs) x xs b distinct h e =
        let w = deliver-Waiting d gs b.1 distinct.1 (omega (arith, b.0.filled)) in
        let t : List Chain = (deliver time table (d ∷ gs)).1 in
        let r = insert_last s total (time g) small (chain_of s t) g d gs b.0 distinct.0 w.chain h in
        ap₂ ◌∷◌ (skb_buffer_merged (time g) t g x xs b.0.seq r.0 (r.1 ∙ e)) w.outcomes
