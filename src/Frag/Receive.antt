-- ===== src/Frag/Receive.antt =====
-- fragmentation.c, the receiving side: the table of chains, and what happens to a fragment.
pub mod Insert
pub mod Merge
pub mod Valid
pub mod Fresh
pub mod Chains
use batman_adv.Common.{
  ℕ, zero, suc, ◌+◌, ◌-◌, ◌*◌, ◌%◌, ◌^◌, Bool, true, false, ◌&&◌, ◌||◌, not, ◌==◌, ltb,
  if◌then◌else◌, List, [], ◌∷◌, ◌++◌, Option, none, some, length, is_empty, get_or, set, map,
}
use batman_adv.Kernel.{Jiffies}
use batman_adv.Bcast.{has_timed_out}
use batman_adv.Frag.{Fragment, header_size, buffer_count, max_fragments, max_frag_size}

-- `struct batadv_frag_table_entry`; an entry of the list is its fragment, whose `no` is the
-- entry's.
pub record Chain : Type 0 where
  pub head : List Fragment
  pub timestamp : ℕ
  pub seqno : ℕ
  pub size : ℕ
  pub total_size : ℕ

-- `batadv_frag_size_limit`
abbrev pub size_limit : ℕ
size_limit = (max_frag_size - header_size) * max_fragments

-- BATADV_FRAG_TIMEOUT
abbrev pub frag_timeout : ℕ
frag_timeout = 10000

-- `batadv_frag_check_entry`
unfoldable pub check_entry : Jiffies → ℕ → Chain → Bool
check_entry jf now chain =
    not (is_empty chain.head) && has_timed_out jf now chain.timestamp frag_timeout

-- `batadv_frag_clear_chain` and the reset of the size beside it.
abbrev pub clear_chain : Chain → Chain
clear_chain chain = record chain { head = []; size = 0 }

-- `batadv_frag_purge_orig`; without a callback every chain is cleared.
unfoldable pub purge_orig : Option (Chain → Bool) → List Chain → List Chain
purge_orig none table = map clear_chain table
purge_orig (some check_cb) table = map (λ c. if check_cb c then clear_chain c else c) table

-- `batadv_frag_init_chain`
unfoldable pub init_chain : Chain → ℕ → Bool × Chain
init_chain chain seqno =
    if chain.seqno == seqno
    then (false, chain)
    else (true, record chain { head = []; size = 0; seqno = seqno })

-- The result of the search for the position: the number is there already, the new list, or the
-- end of an empty list.
pub data Place : Type 0 where
  exists : Place
  placed : List Fragment → Place
  nowhere : Place

abbrev add_front : Fragment → Place → Place
add_front c exists = exists
add_front c (placed l) = placed (c ∷ l)
add_front c nowhere = nowhere

-- The loop of `batadv_frag_insert_packet`, and the insertion behind the last entry after it.
-- `last` says that `frag_entry_last` is set.
unfoldable pub place : Fragment → Bool → List Fragment → Place
place new last [] = if last then placed (new ∷ []) else nowhere
place new last (curr ∷ rest) =
    let later = place new true rest in
    if curr.no == new.no
    then exists
    else (if ltb curr.no new.no then placed (new ∷ curr ∷ rest) else add_front curr later)

-- What an insertion returns: whether the fragment is kept, the chain, and the list handed over.
abbrev pub Inserted : Type 0
Inserted = Bool × Chain × List Fragment

-- The label `out` of `batadv_frag_insert_packet`.
unfoldable pub finish : Chain → ℕ → Bool → Inserted
finish chain total ret =
    if ltb size_limit chain.size
      || not (chain.total_size == total)
      || ltb size_limit chain.total_size
    then (ret, clear_chain chain, [])
    else (if total == chain.size then (ret, clear_chain chain, chain.head) else (ret, chain, []))

-- A fragment into a chain that has its sequence number.
unfoldable pub insert_known : ℕ → Chain → Fragment → Inserted
unfolding place finish
insert_known now chain new = elim (place new false chain.head) [
  | exists ↦ (false, chain, [])
  | nowhere ↦ finish chain new.total_size false
  | placed l ↦
      finish
        (record chain {
          head = l;
          size = (chain.size + length new.payload) % 2 ^ 16;
          timestamp = now;
        })
        new.total_size true
]

-- The part of `batadv_frag_insert_packet` under the chain's lock.
unfoldable pub insert_chain : ℕ → Chain → Fragment → Inserted
unfolding insert_known init_chain
insert_chain now chain new =
    let (fresh, c) = init_chain chain new.seqno in
    if fresh
    then finish
        (record c {
          head = new ∷ [];
          size = length new.payload % 2 ^ 16;
          timestamp = now;
          total_size = new.total_size;
        })
        new.total_size true
    else insert_known now c new

-- Whether `skb_linearize`, `kmalloc` and `pskb_expand_head` succeed.
pub record Alloc : Type 0 where
  pub linearize : Bool
  pub entry : Bool
  pub expand : Bool

abbrev pub empty_chain : Chain
empty_chain = record { head = []; timestamp = 0; seqno = 0; size = 0; total_size = 0 }

-- `batadv_frag_insert_packet`
unfoldable pub insert_packet : Alloc → ℕ → List Chain → Fragment → Bool × List Chain × List Fragment
insert_packet alloc now table new =
    if not alloc.linearize
    then (false, table, [])
    else (if not alloc.entry
        then (false, table, [])
        else (let bucket = new.seqno % buffer_count in
            let (ret, chain, out) = insert_chain now (get_or table bucket empty_chain) new in
            (ret, set table bucket chain, out)))

-- The payloads in the order of the list.
abbrev pub payloads : List Fragment → List ℕ
payloads [] = []
payloads (f ∷ fs) = f.payload ++ payloads fs

-- `batadv_frag_merge_packets`: the payload of the merged packet. The list is never empty here.
unfoldable pub merge_packets : Alloc → List Fragment → Option (List ℕ)
merge_packets alloc [] = none
merge_packets alloc (entry ∷ rest) =
    if not alloc.expand then none else some (entry.payload ++ payloads rest)

-- The three outcomes of `batadv_frag_skb_buffer`.
pub data Outcome : Type 0 where
  merged : List ℕ → Outcome
  buffered : Outcome
  failed : Outcome

-- `batadv_frag_skb_buffer`
unfoldable pub skb_buffer : Alloc → ℕ → List Chain → Fragment → Outcome × List Chain
unfolding insert_packet merge_packets
skb_buffer alloc now table skb =
    let (ret, table', out) = insert_packet alloc now table skb in
    if not ret
    then (failed, table')
    else (if is_empty out then (buffered, table') else elim (merge_packets alloc out) [
      | none ↦ (failed, table')
      | some p ↦ (merged p, table')
    ])
