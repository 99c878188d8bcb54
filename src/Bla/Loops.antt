-- ===== src/Bla/Loops.antt =====
-- Gateways of one backbone whose tables agree: which of them lets a broadcast pass.
use batman_adv.Common.{
  ℕ, ◌+◌, ◌≡◌, refl, ◌∙◌, Bool, true, not, ◌==◌, if◌then◌else◌, arith, List, [], ◌∷◌, some, All,
  All-map, Bool-cases, inl, inr,
}
use batman_adv.Bla.Claims.{Env, Claim, Bla, claim_find}
use batman_adv.Bla.Gate.{owner_orig, rx, tx_data}

-- A node of the backbone: the address of its primary interface, and its tables.
abbrev pub Node : Type 0
Node = ℕ × Bla

-- The tables of a node say that the client belongs to the gateway with the address `owner`, and the
-- node waits for no answer to a request.
abbrev pub Agrees : ℕ → ℕ → ℕ → Node → Type 0
Agrees client vid owner (own, bla) =
    (bla.num_requests ≡ 0)
    × ((claim : Claim) × ((claim_find client vid bla.claim_hash ≡ some claim)
          × (owner_orig claim bla ≡ some owner)))

-- Whether a broadcast of the client passes from the mesh to the bridge at the node.
abbrev pub passes : Env → ℕ → ℕ → ℕ → Node → Bool
passes env client h_dest vid (own, bla) =
    not (rx (record env { primary_if = some own }) true client h_dest vid true bla).0

-- Whether a multicast of the client passes from the bridge into the mesh.
abbrev pub passes_out : Env → ℕ → ℕ → ℕ → Node → Bool
passes_out env client h_dest vid (own, bla) =
    not (tx_data (record env { primary_if = some own }) own client h_dest vid bla).0

-- How many nodes pass a test.
abbrev pub count : (Node → Bool) → List Node → ℕ
count p [] = 0
count p (node ∷ nodes) = (if p node then 1 else 0) + count p nodes

count_same :
    (P : Node → Type 0) (p q : Node → Bool)
    → ((node : Node) → P node → p node ≡ q node)
    → (nodes : List Node) → All P nodes
    → count p nodes ≡ count q nodes
count_same P p q e [] h = refl
count_same P p q e (node ∷ nodes) h = ground (arith, e node h.0, count_same P p q e nodes h.1)

module _ (env : Env) (client h_dest vid owner : ℕ) where
  passes_lem :
      (node : Node)
      → (env.is_multicast_ether_addr h_dest ≡ true) × Agrees client vid owner node
      → passes env client h_dest vid node ≡ (owner == node.0)
  unfolding rx
  passes_lem (own, bla) (m, (r, (claim, (c, o)))) = elim (Bool-cases (owner == own)) [
    | inl e ↦ rw (rx, m, r, c, o, e) refl
    | inr e ↦ rw (rx, r, c, o, e, m) refl
  ]

  passes_out_lem :
      (node : Node)
      → (env.is_multicast_ether_addr h_dest ≡ true) × Agrees client vid owner node
      → passes_out env client h_dest vid node ≡ (owner == node.0)
  unfolding tx_data
  passes_out_lem (own, bla) (m, (r, (claim, (c, o)))) = elim (Bool-cases (owner == own)) [
    | inl e ↦ rw (tx_data, m, r, c, o, e) refl
    | inr e ↦ rw (tx_data, r, c, o, e, m) refl
  ]

  -- Nodes of one backbone wait for no answer to a request, and their tables agree on the gateway that
  -- a client belongs to. If exactly one of them has that gateway's address, then a broadcast of the
  -- client passes from the mesh to the bridge at exactly one node, and one from the bridge passes
  -- into the mesh at exactly one.
  pub broadcast_once :
      (nodes : List Node)
      → env.is_multicast_ether_addr h_dest ≡ true
      → All (Agrees client vid owner) nodes
      → count (λ node. owner == node.0) nodes ≡ 1
      → (count (passes env client h_dest vid) nodes ≡ 1)
        × (count (passes_out env client h_dest vid) nodes ≡ 1)
  broadcast_once nodes m a o =
      let both = All-map (λ node h. (m, h)) nodes a in
      (count_same _ _ _ passes_lem nodes both ∙ o, count_same _ _ _ passes_out_lem nodes both ∙ o)
