-- ===== src/Tests/Claims.antt =====
-- Two gateways of a backbone, and the clients that they claim.
use batman_adv.Common.{
  ℕ, ◌+◌, ◌%◌, ◌^◌, ◌≡◌, refl, arith, Bool, true, false, ◌==◌, List, [], ◌∷◌, none, some,
}
use batman_adv.Tests.Instances.{millisecond_jiffies}
use batman_adv.Bla.Claims.{Env, BackboneGw, Claim, Bla, claim_find, gw_at, gw_write}
use batman_adv.Bla.Claims.Crc.{claims_crc}
use batman_adv.Bla.Claims.Valid.{IsValid}
use batman_adv.Bla.Gateways.{gw_find, vlan_tag, send_announce, send_claim}
use batman_adv.Bla.Work.{update_orig_address, rename_loop}
use batman_adv.Bla.Frames.{get_vid}
use batman_adv.Word.Flags.{test_flag}
use batman_adv.Bla.Gateways.Requests.{request_at}
use batman_adv.Bla.Resync.Added.{owner_is}
use batman_adv.Bla.Resync.Delivery.{claimed}
use batman_adv.Bla.Resync.{answered, resync}
use batman_adv.Bla.Invariant.{Step, from_mesh, period, run, empty, run-IsValid}
use batman_adv.Bla.Loops.{Node, Agrees, passes, passes_out, count, broadcast_once}

abbrev checksum : ℕ → ℕ
checksum addr = addr % 2 ^ 16

abbrev broadcast : ℕ
broadcast = 0xffffffffffff

abbrev bucket_of : ℕ → ℕ → ℕ
bucket_of orig vid = (orig + vid) % 32

-- The kernel at the gateway with this address.
abbrev env_of : ℕ → Env
env_of own = record {
  jiffies = millisecond_jiffies;
  now = 1000;
  crc16 = checksum;
  claim_alloc = λ addr. true;
  gw_alloc = λ orig. true;
  arp_create = λ source dst.
      some (record {
        h_source = source;
        h_dest = broadcast;
        hw_src = source;
        hw_dst = dst;
        tag = none;
      });
  orig_known = λ orig. false;
  is_multicast_ether_addr = λ addr. addr == broadcast;
  choose_backbone_gw = bucket_of;
  primary_if = some own;
}

abbrev steps : List (Env × (Bool × Step))
steps =
    (env_of 1, (true, from_mesh 7 1 0 false))
    ∷ (env_of 1, (true, period))
    ∷ (env_of 1, (true, from_mesh 9 broadcast 0 true))
    ∷ []

run-IsValid_example : IsValid checksum (run checksum bucket_of steps (empty 5))
run-IsValid_example = run-IsValid checksum bucket_of 5 steps

abbrev gateway : ℕ → ℕ → ℕ → BackboneGw
gateway self orig crc = record {
  self = self;
  bucket = bucket_of orig 0;
  orig = orig;
  vid = 0;
  lasttime = 900;
  wait_periods = 0;
  request_sent = false;
  crc = crc;
}

abbrev claim : ℕ → ℕ → Claim
claim addr gw = record { addr = addr; vid = 0; backbone_gw = gw; lasttime = 900 }

abbrev tables : List Claim → List BackboneGw → Bla
tables claims gws = record {
  num_requests = 0;
  claim_hash = claims;
  backbone_hash = gws;
  group = 5;
  next = 2;
  events = [];
}

-- The gateway 1 claims the clients 7 and 9. The gateway 2 has the client 8 for one of them.
abbrev first : Bla
first = tables (claim 7 0 ∷ claim 9 0 ∷ []) (gateway 1 2 0 ∷ gateway 0 1 14 ∷ [])

abbrev second : Bla
second = tables (claim 8 0 ∷ []) (gateway 1 2 0 ∷ gateway 0 1 8 ∷ [])

first-IsValid : IsValid checksum first
unfolding claims_crc
first-IsValid = record {
  ordered = (ground arith, (ground arith, tt));
  synced = (refl, (refl, tt));
  owned = (refl, (refl, tt));
  counted = refl;
}

second-IsValid : IsValid checksum second
unfolding claims_crc
second-IsValid = record {
  ordered = (ground arith, (ground arith, tt));
  synced = (refl, (refl, tt));
  owned = (refl, tt);
  counted = refl;
}

abbrev after : Bla
after = answered (env_of 1) (env_of 2) 1 2 0 0 first second

first_found : gw_find bucket_of 1 0 first.backbone_hash ≡ some (gateway 0 1 14)
unfolding gw_find
first_found = refl

second_found : gw_find bucket_of 1 0 second.backbone_hash ≡ some (gateway 0 1 8)
unfolding gw_find
second_found = refl

own_found : gw_find bucket_of 2 0 second.backbone_hash ≡ some (gateway 1 2 0)
unfolding gw_find
own_found = refl

vid_read : get_vid (vlan_tag 0) ≡ 0
unfolding test_flag
vid_read = refl

resync_example :
    (request_at 0 after.backbone_hash ≡ some false)
    × ((addr : ℕ) → owner_is 0 addr 0 after.claim_hash ≡ claimed 0 addr first.claim_hash)
resync_example =
    resync (env_of 1) (env_of 2) 1 2 0 broadcast first second (gateway 0 1 14) (gateway 0 1 8)
      (gateway 1 2 0) refl (λ source dst. refl) (λ addr. refl) first-IsValid second-IsValid refl
      refl vid_read (ground arith) first_found second_found own_found
      ((λ h. refl), ((λ h. refl), tt)) ((λ h. ((λ k. refl), tt)), ((λ h. tt), tt))

abbrev nodes : List Node
nodes = (1, first) ∷ (2, first) ∷ []

agreed : (own : ℕ) → Agrees 7 0 1 (own, first)
unfolding claim_find gw_at
agreed own = (refl, (claim 7 0, (refl, refl)))

broadcast_once_example :
    (count (passes (env_of 1) 7 broadcast 0) nodes ≡ 1)
    × (count (passes_out (env_of 1) 7 broadcast 0) nodes ≡ 1)
broadcast_once_example =
    broadcast_once (env_of 1) 7 broadcast 0 1 nodes refl (agreed 1, (agreed 2, tt)) refl

-- After the address of the primary interface changed, the own gateway stays in its old bucket and is
-- not found there.
renamed_lost :
    gw_find bucket_of 3 0 (update_orig_address (env_of 3) true 3 (some 1) first).backbone_hash
    ≡ none
unfolding gw_find update_orig_address rename_loop send_announce send_claim gw_at gw_write
renamed_lost = refl
