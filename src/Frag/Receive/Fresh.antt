-- ===== src/Frag/Receive/Fresh.antt =====
-- A chain that holds nothing but already carries the sequence number of a fragment.
use batman_adv.Common.{
  ℕ, ◌%◌, ◌≡◌, refl, sym, ap, ◌∙◌, subst, arith, false, List, [], ◌∷◌, All, length, map,
  get_or-set_self, set, length-set,
}
use batman_adv.Frag.{Fragment, buffer_count}
use batman_adv.Frag.Receive.{Chain, Outcome, failed, insert_chain, skb_buffer, empty_chain}
use batman_adv.Frag.Receive.Merge.{deliver, chain_of, all_ok}

-- The number without the fragments: as in a table that was just allocated, for the number 0, and
-- after a packet with this number was merged.
pub record Spent (s : ℕ) (c : Chain) : Type 0 where
  pub seq : c.seqno ≡ s
  pub none : c.head ≡ []

insert-Spent :
    (now s : ℕ) (c : Chain) (f : Fragment)
    → Spent s c
    → f.seqno ≡ s
    → let r = insert_chain now c f in (r.0 ≡ false) × (r.2 ≡ []) × Spent s r.1
unfolding insert_chain
insert-Spent now s c f v e = ground arith

skb_buffer-Spent :
    (now s : ℕ) (table : List Chain) (f : Fragment)
    → Spent s (chain_of s table)
    → f.seqno ≡ s
    → skb_buffer all_ok now table f
      ≡ (failed, set table (s % buffer_count) (insert_chain now (chain_of s table) f).1)
unfolding skb_buffer
skb_buffer-Spent now s table f v e = ground (arith, insert-Spent now s (chain_of s table) f v e)

module _ (s : ℕ) (time : Fragment → ℕ) (table : List Chain) (eight : length table ≡ buffer_count)
    (v : Spent s (chain_of s table)) where
  record Lost (fs : List Fragment) (r : List Outcome × List Chain) : Type 0 where
    outcomes : r.0 ≡ map (λ _. failed) fs
    chain : Spent s (chain_of s r.1)
    chains : length r.1 ≡ buffer_count

  deliver-Lost : (fs : List Fragment) → All (λ f. f.seqno ≡ s) fs → Lost fs (deliver time table fs)
  unfolding deliver
  deliver-Lost [] b = record { outcomes = refl; chain = v; chains = eight }
  deliver-Lost (f ∷ fs) b =
      let l = deliver-Lost fs b.1 in
      let t : List Chain = (deliver time table fs).1 in
      let c : Chain = (insert_chain (time f) (chain_of s t) f).1 in
      rw (skb_buffer-Spent (time f) s t f l.chain b.0) (record {
        outcomes = ap (λ xs. failed ∷ xs) l.outcomes;
        chain =
            subst (Spent s)
              (sym (get_or-set_self t (s % buffer_count) c empty_chain (omega (arith, l.chains))))
              (insert-Spent (time f) s (chain_of s t) f l.chain b.0).2;
        chains = length-set t (s % buffer_count) c ∙ l.chains;
      })

  -- While the chain of a sequence number carries that number but holds no fragment, every fragment
  -- with it is refused, so the packet is lost, whatever the order in which its fragments arrive.
  pub deliver-Spent :
      (fs : List Fragment)
      → All (λ f. f.seqno ≡ s) fs
      → (deliver time table fs).0 ≡ map (λ _. failed) fs
  deliver-Spent fs b = (deliver-Lost fs b).outcomes
