-- ===== src/Tests/Containers.antt =====
-- Containers in an OGM.
use batman_adv.Common.{◌≡◌, refl, arith, true, false, [], ◌∷◌, some}
use batman_adv.Tvlv.{Container, container_get, container_register, container_ogm_append, filled}
use batman_adv.Tvlv.Registry.{get-register}
use batman_adv.Tvlv.Append.{ogm_append_writes}
use batman_adv.Tvlv.Receive.{
  Handler, Progress, ogm, ogm_call, not_found_call, containers_process, process_loop, handler_get,
}
use batman_adv.Tvlv.Receive.Parse.{process_fuel}
use batman_adv.Tvlv.Receive.Ogm.{process_ogm}

abbrev gateway : Container
gateway = record { type = 1; version = 1; value = 10 ∷ 20 ∷ [] }

abbrev table : Container
table = record { type = 4; version = 1; value = [] }

get-register_example :
    container_get (container_register true (gateway ∷ table ∷ []) 1 1 (some (7 ∷ []))) 1 1
    ≡ some (record { type = 1; version = 1; value = 7 ∷ [] })
unfolding container_get
get-register_example = (get-register (gateway ∷ table ∷ []) 1 1 1 1 (7 ∷ []) (refl, (refl, tt))).0

ogm_append_writes_example :
    container_ogm_append true (gateway ∷ table ∷ []) (99 ∷ 98 ∷ 97 ∷ []) 2
    ≡ (10, filled (99 ∷ 98 ∷ 1 ∷ 1 ∷ 0 ∷ 2 ∷ 10 ∷ 20 ∷ 4 ∷ 1 ∷ 0 ∷ 0 ∷ []))
ogm_append_writes_example =
    ogm_append_writes (gateway ∷ table ∷ []) (99 ∷ 98 ∷ 97 ∷ []) 2 (omega arith)

abbrev gateway_handler : Handler
gateway_handler = record {
  type = 1;
  version = 1;
  ogm_handler = true;
  unicast_handler = false;
  cifnotfnd = true;
  called = false;
}

abbrev multicast_handler : Handler
multicast_handler = record {
  type = 6;
  version = 1;
  ogm_handler = true;
  unicast_handler = false;
  cifnotfnd = true;
  called = false;
}

process_ogm_example :
    containers_process
      (λ h v. 0)
      (ogm true)
      (gateway_handler ∷ multicast_handler ∷ [])
      (1 ∷ 1 ∷ 0 ∷ 2 ∷ 10 ∷ 20 ∷ [])
    ≡ (
      0,
      gateway_handler ∷ multicast_handler ∷ [],
      ogm_call 1 1 (10 ∷ 20 ∷ []) ∷ not_found_call 6 1 ∷ [],
    )
unfolding handler_get
process_ogm_example =
    process_ogm (λ h v. 0) (gateway_handler ∷ multicast_handler ∷ []) (gateway ∷ [])
      (refl, (refl, tt)) (refl, (refl, tt)) (omega arith, tt)

abbrev idle : Progress
idle = record { ret = 0; handlers = gateway_handler ∷ []; calls = [] }

process_fuel_example :
    process_loop (λ h v. 0) 6 (ogm true) (1 ∷ 1 ∷ 0 ∷ 2 ∷ 10 ∷ 20 ∷ []) idle
    ≡ process_loop (λ h v. 0) 9 (ogm true) (1 ∷ 1 ∷ 0 ∷ 2 ∷ 10 ∷ 20 ∷ []) idle
process_fuel_example =
    process_fuel (λ h v. 0) (ogm true) 6 9 (1 ∷ 1 ∷ 0 ∷ 2 ∷ 10 ∷ 20 ∷ []) idle (omega arith)
      (omega arith)
