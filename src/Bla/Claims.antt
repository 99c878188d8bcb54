-- ===== src/Bla/Claims.antt =====
-- bridge_loop_avoidance.c: the claims and the backbone gateways that hold them.
pub mod Crc
pub mod Valid
pub mod Steps
pub mod Add
use Prim.Native.Nat.{bit_xor}
use batman_adv.Common.{
  ℕ, ◌+◌, ◌-◌, Bool, true, false, ◌&&◌, not, ◌==◌, if◌then◌else◌, List, [], ◌∷◌, ◌++◌, map, Option,
  none, some,
}
use batman_adv.Kernel.{Jiffies}

-- `struct batadv_bla_claim_dst` without its fixed magic
pub record ClaimDst : Type 0 where
  pub claimtype : ℕ
  pub group : ℕ

-- A claim frame: the addresses of the Ethernet and the ARP header that count, and the VLAN tag.
pub record ClaimFrame : Type 0 where
  pub h_source : ℕ
  pub h_dest : ℕ
  pub hw_src : ℕ
  pub hw_dst : ClaimDst
  pub tag : Option ℕ

-- What the kernel and other components answer while a function runs: the jiffies, crc16 of an
-- address, the allocations of a claim and of a gateway, `arp_create` for a source address and a
-- claim destination, whether an originator is known, the bucket of a gateway by its originator and
-- VLAN (`batadv_choose_backbone_gw`, with the kernel's jhash), and the address of the primary
-- interface.
pub record Env : Type 0 where
  pub jiffies : Jiffies
  pub now : ℕ
  pub crc16 : ℕ → ℕ
  pub claim_alloc : ℕ → Bool
  pub gw_alloc : ℕ → Bool
  pub arp_create : ℕ → ClaimDst → Option ClaimFrame
  pub orig_known : ℕ → Bool
  pub is_multicast_ether_addr : ℕ → Bool
  pub choose_backbone_gw : ℕ → ℕ → ℕ
  pub primary_if : Option ℕ

-- `struct batadv_bla_backbone_gw`; `self` stands for the address of the structure, and `bucket` is the
-- list of the hash table that it was put into.
pub record BackboneGw : Type 0 where
  pub self : ℕ
  pub bucket : ℕ
  pub orig : ℕ
  pub vid : ℕ
  pub lasttime : ℕ
  pub wait_periods : ℕ
  pub request_sent : Bool
  pub crc : ℕ

-- `struct batadv_bla_claim`
pub record Claim : Type 0 where
  pub addr : ℕ
  pub vid : ℕ
  pub backbone_gw : ℕ
  pub lasttime : ℕ

-- What the functions do outside of their tables: frames for the soft interface, and the removal of
-- the translation table entries of an originator on a VLAN.
pub data Event : Type 0 where
  netif_rx : ClaimFrame → Event
  tt_global_del_orig : ℕ → ℕ → Event

-- `struct batadv_priv_bla` without the list of broadcasts. The hash tables are the lists of their
-- entries (the keys of a claim never change, so that it is always in its bucket); `next` is an address that no gateway has had, and `events` are in their order.
pub record Bla : Type 0 where
  pub num_requests : ℕ
  pub claim_hash : List Claim
  pub backbone_hash : List BackboneGw
  pub group : ℕ
  pub next : ℕ
  pub events : List Event

abbrev pub log : Event → Bla → Bla
log e bla = record bla { events = bla.events ++ (e ∷ []) }

-- `batadv_compare_claim`
abbrev pub compare_claim : ℕ → ℕ → Claim → Bool
compare_claim addr vid c = c.addr == addr && c.vid == vid

-- `batadv_claim_hash_find`
unfoldable pub claim_find : ℕ → ℕ → List Claim → Option Claim
claim_find addr vid [] = none
claim_find addr vid (c ∷ cs) = if compare_claim addr vid c then some c else claim_find addr vid cs

-- A write to the claim that `batadv_claim_hash_find` returns.
unfoldable pub claim_update : ℕ → ℕ → (Claim → Claim) → List Claim → List Claim
claim_update addr vid f [] = []
claim_update addr vid f (c ∷ cs) =
    if compare_claim addr vid c then f c ∷ cs else c ∷ claim_update addr vid f cs

-- `batadv_hash_remove` on the claims
unfoldable pub claim_remove : ℕ → ℕ → List Claim → List Claim
claim_remove addr vid [] = []
claim_remove addr vid (c ∷ cs) =
    if compare_claim addr vid c then cs else c ∷ claim_remove addr vid cs

-- The gateway at an address in memory.
unfoldable pub gw_at : ℕ → List BackboneGw → Option BackboneGw
gw_at p [] = none
gw_at p (g ∷ gs) = if g.self == p then some g else gw_at p gs

-- A write to the gateway at an address.
unfoldable pub gw_write : ℕ → (BackboneGw → BackboneGw) → List BackboneGw → List BackboneGw
gw_write p f [] = []
gw_write p f (g ∷ gs) = (if g.self == p then f g else g) ∷ gw_write p f gs

-- `backbone_gw->crc ^= crc16(0, claim->addr, ETH_ALEN)`
unfoldable pub toggle_crc : Env → ℕ → ℕ → List BackboneGw → List BackboneGw
toggle_crc env p addr = gw_write p (λ g. record g { crc = bit_xor g.crc (env.crc16 addr) })

unfoldable pub touch_gw : Env → ℕ → List BackboneGw → List BackboneGw
touch_gw env p = gw_write p (λ g. record g { lasttime = env.now })

-- `batadv_bla_add_claim`, for the gateway at address p
unfoldable pub add_claim : Env → ℕ → ℕ → ℕ → Bla → Bla
unfolding claim_find claim_update
add_claim env mac vid p bla = elim (claim_find mac vid bla.claim_hash) [
  | none ↦ if not (env.claim_alloc mac) then bla else record bla {
    claim_hash =
        record { addr = mac; vid = vid; backbone_gw = p; lasttime = env.now } ∷ bla.claim_hash;
    backbone_hash = touch_gw env p (toggle_crc env p mac bla.backbone_hash);
  }
  | some c ↦
      if c.backbone_gw == p
      then record bla {
        claim_hash = claim_update mac vid (λ c. record c { lasttime = env.now }) bla.claim_hash;
      }
      else record bla {
        claim_hash =
            claim_update mac vid (λ c. record c { lasttime = env.now; backbone_gw = p })
              bla.claim_hash;
        backbone_hash =
            touch_gw env p
              (toggle_crc env p mac (toggle_crc env c.backbone_gw mac bla.backbone_hash));
      }
]

-- `batadv_bla_del_claim`
unfoldable pub del_claim : Env → ℕ → ℕ → Bla → Bla
unfolding claim_find claim_remove
del_claim env mac vid bla = elim (claim_find mac vid bla.claim_hash) [
  | none ↦ bla
  | some c ↦ record bla {
    claim_hash = claim_remove mac vid bla.claim_hash;
    backbone_hash = toggle_crc env c.backbone_gw mac bla.backbone_hash;
  }
]

-- The loop of `batadv_bla_del_backbone_claims`
unfoldable pub without_owner : ℕ → List Claim → List Claim
without_owner p [] = []
without_owner p (c ∷ cs) =
    if not (c.backbone_gw == p) then c ∷ without_owner p cs else without_owner p cs

-- BATADV_BLA_CRC_INIT
abbrev pub crc_init : ℕ
crc_init = 0

-- `batadv_bla_del_backbone_claims`
unfoldable pub del_backbone_claims : ℕ → Bla → Bla
unfolding without_owner gw_write
del_backbone_claims p bla = record bla {
  claim_hash = without_owner p bla.claim_hash;
  backbone_hash = gw_write p (λ g. record g { crc = crc_init }) bla.backbone_hash;
}
