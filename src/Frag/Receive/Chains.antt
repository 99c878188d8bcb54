-- ===== src/Frag/Receive/Chains.antt =====
-- What a chain holds after a history of fragments of one packet, and when it is handed over.
use batman_adv.Common.{ℕ, ◌+◌, ◌<◌, ◌≤◌, ◌≡◌, ◌≢◌, true, false, arith, List, [], ◌∷◌, length}
use batman_adv.Frag.{Fragment}
use batman_adv.Frag.Receive.{Chain, placed, place, size_limit, insert_chain}
use batman_adv.Frag.Receive.Insert.{ins, place-ins, build, All-build, AllNe}

-- The payload bytes of a list of fragments.
abbrev pub bytes : List Fragment → ℕ
bytes [] = 0
bytes (g ∷ gs) = length g.payload + bytes gs

module _ (s total : ℕ) where
  -- A fragment of the packet with sequence number s and this total size.
  pub record Belongs (g : Fragment) : Type 0 where
    pub seq : g.seqno ≡ s
    pub size : g.total_size ≡ total
    pub filled : 0 < length g.payload

  -- The chain holds the fragments of a history, and not yet all of them.
  pub record Partial (gs : List Fragment) (c : Chain) : Type 0 where
    pub seq : c.seqno ≡ s
    pub size : c.total_size ≡ total
    pub head : c.head ≡ build gs
    pub held : c.size ≡ bytes gs

  module _ (now : ℕ) (small : total ≤ size_limit) where
    -- The first fragment, when there are more to come.
    pub insert_first :
        (c : Chain) (g : Fragment)
        → Belongs g
        → c.seqno ≢ s
        → length g.payload < total
        → let r = insert_chain now c g in (r.0 ≡ true) × (r.2 ≡ []) × Partial (g ∷ []) r.1
    unfolding insert_chain build ins
    insert_first c g b fresh h = ground arith

    -- The first fragment, when it is the whole packet.
    pub insert_only :
        (c : Chain) (g : Fragment)
        → Belongs g
        → c.seqno ≢ s
        → length g.payload ≡ total
        → let r = insert_chain now c g in (r.0 ≡ true) × (r.2 ≡ g ∷ []) × (r.1.seqno ≡ s)
    unfolding insert_chain
    insert_only c g b fresh h = ground arith

    place-build :
        (c : Chain) (new d : Fragment) (gs : List Fragment)
        → AllNe new (d ∷ gs)
        → c.head ≡ build (d ∷ gs)
        → place new false c.head ≡ placed (build (new ∷ d ∷ gs))
    unfolding build
    place-build c new d gs ne e =
        rw e (place-ins new d (build gs) (All-build (λ c. c.no ≢ new.no) (d ∷ gs) ne))

    pub insert_next :
        (c : Chain) (new d : Fragment) (gs : List Fragment)
        → Belongs new
        → AllNe new (d ∷ gs)
        → Partial (d ∷ gs) c
        → bytes (new ∷ d ∷ gs) < total
        → let r = insert_chain now c new in (r.0 ≡ true) × (r.2 ≡ []) × Partial (new ∷ d ∷ gs) r.1
    unfolding insert_chain
    insert_next c new d gs b ne p h = ground (arith, place-build c new d gs ne)

    pub insert_last :
        (c : Chain) (new d : Fragment) (gs : List Fragment)
        → Belongs new
        → AllNe new (d ∷ gs)
        → Partial (d ∷ gs) c
        → bytes (new ∷ d ∷ gs) ≡ total
        → let r = insert_chain now c new in
          (r.0 ≡ true) × (r.2 ≡ build (new ∷ d ∷ gs)) × (r.1.seqno ≡ s)
    unfolding insert_chain
    insert_last c new d gs b ne p h = ground (arith, place-build c new d gs ne)
