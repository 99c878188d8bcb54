-- ===== src/Bla/Invariant.antt =====
-- What the bridge loop avoidance does, as a sequence of steps, and what holds after each.
use batman_adv.Common.{
  ℕ, refl, Bool, true, not, ◌&&◌, ltb, List, [], ◌∷◌, Option, none, some, Option-cases, inl, inr,
  if_both,
}
use batman_adv.Bla.Claims.{Env, Bla, claim_find}
use batman_adv.Bla.Claims.Valid.{IsValid}
use batman_adv.Bla.Claims.Add.{claim_touch-IsValid}
use batman_adv.Bla.Gateways.Found.{update_own-IsValid}
use batman_adv.Bla.Frames.{Frame, process_claim}
use batman_adv.Bla.Frames.Valid.{
  handle_claim-IsValid, handle_unclaim-IsValid, process_claim-IsValid,
}
use batman_adv.Bla.Gate.{owner_orig, owned_by, rx, tx_data, tx}
use batman_adv.Bla.Work.{update_orig_address, status_of, status_update, periodic_work}
use batman_adv.Bla.Work.Valid.{update_orig-IsValid, periodic_work-IsValid}

abbrev Second : Env → Bool × Bla → Type 0
Second env r = IsValid env.crc16 r.1

rx-IsValid :
    (env : Env) (enabled : Bool) (h_source h_dest vid : ℕ) (is_bcast : Bool) (bla : Bla)
    → IsValid env.crc16 bla
    → IsValid env.crc16 (rx env enabled h_source h_dest vid is_bcast bla).1
unfolding rx
rx-IsValid env enabled h_source h_dest vid is_bcast bla v = elim (Option-cases env.primary_if) [
  | inl e ↦ rw (e, rx) v
  | inr (own, e) ↦
      let bcast = env.is_multicast_ether_addr h_dest && is_bcast in
      let claimed =
        update_own-IsValid env own vid _ (handle_claim-IsValid env own own h_source vid bla v) in
      elim (Option-cases (claim_find h_source vid bla.claim_hash)) [
        | inl c ↦
            rw (e, rx, c)
              (if_both (Second env) (not enabled) _ _ (update_own-IsValid env own vid bla v)
                (if_both (Second env) (ltb 0 bla.num_requests && bcast) (true, bla) _ v claimed))
        | inr (claim, c) ↦
            rw (e, rx, c)
              (if_both (Second env) (not enabled) _ _ (update_own-IsValid env own vid bla v) (
                if_both (Second env) (ltb 0 bla.num_requests && bcast) (true, bla) _ v
                  (if_both (Second env) (owned_by own (owner_orig claim bla)) _ _
                    (update_own-IsValid env own vid _
                      (claim_touch-IsValid env h_source vid env.now bla v))
                    (if_both (Second env) bcast (true, bla) _ v claimed))))
      ]
]

tx_data-IsValid :
    (env : Env) (own h_source h_dest vid : ℕ) (bla : Bla)
    → IsValid env.crc16 bla
    → IsValid env.crc16 (tx_data env own h_source h_dest vid bla).1
unfolding tx_data
tx_data-IsValid env own h_source h_dest vid bla v =
    let multicast = env.is_multicast_ether_addr h_dest in
    elim (Option-cases (claim_find h_source vid bla.claim_hash)) [
      | inl c ↦
          rw (tx_data, c)
            (if_both (Second env) (ltb 0 bla.num_requests && multicast) (true, bla) _ v
              (update_own-IsValid env own vid bla v))
      | inr (claim, c) ↦
          rw (tx_data, c)
            (if_both (Second env) (ltb 0 bla.num_requests && multicast) (true, bla) _ v
              (if_both (Second env) (owned_by own (owner_orig claim bla)) _ _
                (update_own-IsValid env own vid _
                  (handle_unclaim-IsValid env (some own) own h_source vid bla v))
                (if_both (Second env) multicast (true, bla) _ v
                  (update_own-IsValid env own vid bla v))))
    ]

tx-IsValid :
    (env : Env) (enabled : Bool) (frame : Frame) (vid : ℕ) (bla : Bla)
    → IsValid env.crc16 bla
    → IsValid env.crc16 (tx env enabled frame vid bla).1
unfolding tx
tx-IsValid env enabled frame vid bla v = elim (Option-cases env.primary_if) [
  | inl e ↦ rw (e, tx) v
  | inr (own, e) ↦
      let w = process_claim-IsValid env own frame bla v in
      rw (e, tx)
        (if_both (Second env) (not enabled) _ _ (update_own-IsValid env own vid bla v) (
          if_both (Second env) (process_claim env own frame bla).0 _ _ w
            (tx_data-IsValid env own frame.h_source frame.h_dest vid _ w)))
]

-- What can happen: a frame from the mesh, one from the bridge, the periodic work, a new address
-- of the primary interface, and a new setting.
pub data Step : Type 0 where
  from_mesh : ℕ → ℕ → ℕ → Bool → Step
  from_bridge : Frame → ℕ → Step
  period : Step
  new_address : ℕ → Option ℕ → Step
  new_setting : Step

unfoldable pub step : Env → Bool → Step → Bla → Bla
unfolding rx tx periodic_work update_orig_address
step env enabled (from_mesh h_source h_dest vid is_bcast) bla =
    (rx env enabled h_source h_dest vid is_bcast bla).1
step env enabled (from_bridge frame vid) bla = (tx env enabled frame vid bla).1
step env enabled period bla = periodic_work env enabled bla
step env enabled (new_address new_addr oldif) bla =
    update_orig_address env enabled new_addr oldif bla
step env enabled new_setting bla = status_update env enabled bla

-- Each step has its own answers of the kernel; only crc16 and the choice of the bucket are the same
-- functions throughout.
unfoldable pub run : (ℕ → ℕ) → (ℕ → ℕ → ℕ) → List (Env × (Bool × Step)) → Bla → Bla
unfolding step
run crc16 choose [] bla = bla
run crc16 choose ((env, (enabled, s)) ∷ steps) bla =
    run crc16 choose steps
      (step (record env { crc16 = crc16; choose_backbone_gw = choose }) enabled s bla)

-- `batadv_bla_init`
abbrev pub empty : ℕ → Bla
empty group = record {
  num_requests = 0;
  claim_hash = [];
  backbone_hash = [];
  group = group;
  next = 0;
  events = [];
}

empty-IsValid : (crc16 : ℕ → ℕ) (group : ℕ) → IsValid crc16 (empty group)
empty-IsValid crc16 group = record { ordered = tt; synced = tt; owned = tt; counted = refl }

status-IsValid :
    (env : Env) (enabled : Bool) (bla : Bla) (primary : Option ℕ)
    → IsValid env.crc16 bla
    → IsValid env.crc16 (status_of env enabled bla primary)
status-IsValid env enabled bla none v = v
status-IsValid env enabled bla (some own) v = update_orig-IsValid env enabled own (some own) bla v

step-IsValid :
    (env : Env) (enabled : Bool) (s : Step) (bla : Bla)
    → IsValid env.crc16 bla
    → IsValid env.crc16 (step env enabled s bla)
unfolding step
step-IsValid env enabled (from_mesh h_source h_dest vid is_bcast) bla v =
    rx-IsValid env enabled h_source h_dest vid is_bcast bla v
step-IsValid env enabled (from_bridge frame vid) bla v = tx-IsValid env enabled frame vid bla v
step-IsValid env enabled period bla v = periodic_work-IsValid env enabled bla v
step-IsValid env enabled (new_address new_addr oldif) bla v =
    update_orig-IsValid env enabled new_addr oldif bla v
step-IsValid env enabled new_setting bla v = status-IsValid env enabled bla env.primary_if v

steps-IsValid :
    (crc16 : ℕ → ℕ) (choose : ℕ → ℕ → ℕ) (steps : List (Env × (Bool × Step))) (bla : Bla)
    → IsValid crc16 bla
    → IsValid crc16 (run crc16 choose steps bla)
unfolding run
steps-IsValid crc16 choose [] bla v = v
steps-IsValid crc16 choose ((env, (enabled, s)) ∷ steps) bla v =
    steps-IsValid crc16 choose steps _
      (step-IsValid (record env { crc16 = crc16; choose_backbone_gw = choose }) enabled s bla v)

-- After any sequence of frames from the mesh and the bridge, periods, new addresses and settings,
-- with any failing allocation in between, the checksum that a gateway of the table announces is the exclusive
-- or of the checksums of exactly its claims, every claim belongs to a gateway of the table,
-- `num_requests` is the number of gateways with a request in flight, and no two gateways are the
-- same structure.
pub run-IsValid :
    (crc16 : ℕ → ℕ) (choose : ℕ → ℕ → ℕ) (group : ℕ) (steps : List (Env × (Bool × Step)))
    → IsValid crc16 (run crc16 choose steps (empty group))
run-IsValid crc16 choose group steps =
    steps-IsValid crc16 choose steps (empty group) (empty-IsValid crc16 group)
