-- ===== src/Frag.antt =====
-- fragmentation.c: splitting a packet that exceeds the MTU, and buffering and merging fragments.
-- A fragment is its header and its payload, so `skb->len` of it is 20 more than the payload.
pub mod Receive
pub mod Send
use batman_adv.Common.{ℕ, List, Bool}

-- sizeof(struct batadv_frag_packet)
abbrev pub header_size : ℕ
header_size = 20

-- BATADV_FRAG_BUFFER_COUNT
abbrev pub buffer_count : ℕ
buffer_count = 8

-- BATADV_FRAG_MAX_FRAGMENTS
abbrev pub max_fragments : ℕ
max_fragments = 16

-- BATADV_FRAG_MAX_FRAG_SIZE
abbrev pub max_frag_size : ℕ
max_frag_size = 1400

-- `struct batadv_frag_packet` (the fields that the component reads) and what follows it.
pub record Fragment : Type 0 where
  pub ttl : ℕ
  pub no : ℕ
  pub dest : ℕ
  pub orig : ℕ
  pub seqno : ℕ
  pub total_size : ℕ
  pub payload : List ℕ
