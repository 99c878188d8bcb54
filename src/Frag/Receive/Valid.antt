-- ===== src/Frag/Receive/Valid.antt =====
-- The invariant of a chain, kept for every fragment that may arrive.
use batman_adv.Common.{
  ℕ, ◌+◌, ◌%◌, ◌^◌, ◌<◌, ◌≤◌, ◌≡◌, ◌⊎◌, refl, Bool, true, false, arith, List, [], ◌∷◌, length, All,
  All-set, All-get_or, get_or, Option, none, some, ◌==◌, ltb, if◌then◌else◌,
}
use batman_adv.Frag.{Fragment, buffer_count}
use batman_adv.Frag.Receive.{
  Chain, Place, placed, exists, nowhere, place, add_front, size_limit, insert_chain, purge_orig,
  Alloc, insert_packet, empty_chain,
}
use batman_adv.Frag.Receive.Insert.{Desc}
use batman_adv.Frag.Receive.Chains.{bytes}

-- The numbers, of four bits, descend; the size is that of the fragments, and within the limit.
pub record IsValid (c : Chain) : Type 0 where
  pub sorted : Desc 16 c.head
  pub counted : c.size ≡ bytes c.head
  pub within : c.size ≤ size_limit

-- What the search gives: nothing, or the list with the fragment at its place.
abbrev Fits : ℕ → Fragment → List Fragment → Place → Type 0
Fits n new l exists = Unit
Fits n new l nowhere = Unit
Fits n new l (placed l') = Desc n l' × (bytes l' ≡ length new.payload + bytes l)

-- One step of the search, with the outcome for the rest.
step-Fits :
    (n : ℕ) (new c : Fragment) (rest : List Fragment) (p : Place)
    → new.no < n
    → Desc n (c ∷ rest)
    → (new.no < c.no → Fits c.no new rest p)
    → Fits n new (c ∷ rest) (
        if c.no == new.no
        then exists
        else (if ltb c.no new.no then placed (new ∷ c ∷ rest) else add_front c p))
step-Fits n new c rest exists h d later = ground arith
step-Fits n new c rest nowhere h d later = ground arith
step-Fits n new c rest (placed l) h d later = ground arith

place-Fits :
    (n : ℕ) (new : Fragment) (last : Bool) (l : List Fragment)
    → new.no < n
    → Desc n l
    → Fits n new l (place new last l)
unfolding place
place-Fits n new true [] h d = ((h, tt), refl)
place-Fits n new false [] h d = tt
place-Fits n new last (c ∷ rest) h d =
    step-Fits n new c rest (place new true rest) h d (λ p. place-Fits c.no new true rest p d.1)

-- The list that is handed over, if any, is sorted and holds as many bytes as the packet.
abbrev Handed : Fragment → List Fragment → Type 0
Handed f out = (out ≡ []) ⊎ (Desc 16 out × (bytes out ≡ f.total_size))

insert_chain-IsValid :
    (now : ℕ) (c : Chain) (f : Fragment)
    → IsValid c
    → f.no < 16
    → length f.payload + size_limit < 2 ^ 16
    → let r = insert_chain now c f in IsValid r.1 × Handed f r.2
unfolding insert_chain
insert_chain-IsValid now c f v small len = ground (arith, place-Fits 16 f false c.head)

empty-IsValid : IsValid empty_chain
empty-IsValid = record { sorted = tt; counted = refl; within = omega arith }

-- A fragment, its number of four bits and its payload so short that 16 bits hold the sum with the
-- limit, keeps every chain of the table valid, whether it is kept, dropped or completes a packet;
-- and what is handed over, if anything, is sorted and has the size that the fragment's header names.
pub insert_packet-IsValid :
    (alloc : Alloc) (now : ℕ) (table : List Chain) (f : Fragment)
    → All IsValid table
    → f.no < 16
    → length f.payload + size_limit < 2 ^ 16
    → let (ret, table', out) = insert_packet alloc now table f in All IsValid table' × Handed f out
unfolding insert_packet
insert_packet-IsValid alloc now table f v small len =
    let b = f.seqno % buffer_count in
    let c : Chain = get_or table b empty_chain in
    let cv : IsValid c = All-get_or IsValid table b empty_chain v empty-IsValid in
    let r = insert_chain-IsValid now c f cv small len in
    ground (arith, r, All-set IsValid table b (insert_chain now c f).1 v r.0)

-- Clearing chains, all or those that a test picks, keeps the table valid.
pub purge_orig-IsValid :
    (check : Option (Chain → Bool)) (table : List Chain)
    → All IsValid table
    → All IsValid (purge_orig check table)
unfolding purge_orig
purge_orig-IsValid none [] v = tt
purge_orig-IsValid none (c ∷ table) v = (
  record { sorted = tt; counted = refl; within = omega arith },
  purge_orig-IsValid none table v.1,
)
purge_orig-IsValid (some check) [] v = tt
purge_orig-IsValid (some check) (c ∷ table) v =
    (ground arith, purge_orig-IsValid (some check) table v.1)
