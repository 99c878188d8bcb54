-- ===== src/Tests/Gateways.antt =====
-- Gateways that come and go.
use batman_adv.Common.{
  true, refl, ℕ, ◌+◌, ◌≡◌, refl, ◌==◌, if◌then◌else◌, List, [], ◌∷◌, Option, none, some,
}
use batman_adv.Gateway.{
  GwNode, mode_client, mode_off, Gw, get_best_gw_node, gw_factor, is_better, search_step, search_gw,
}
use batman_adv.Gateway.Best.{IsBest, get_best_gw_node-IsBest}
use batman_adv.Gateway.Announced.{
  Told, Step, elects, container, originator_gone, new_mode, run, run-Told,
}
use batman_adv.Gateway.Listed.{Listed, run-Listed}

abbrev node : ℕ → ℕ → GwNode
node orig down = record {
  ref = record { pointer = 100 + orig; orig_node = orig };
  bandwidth_down = down;
  bandwidth_up = 1;
}

-- The originators 3, 5 and 7 have routers of the qualities 255, 50 and 100.
abbrev tq : ℕ → Option ℕ
tq orig = if orig == 3 then some 255 else (if orig == 5 then some 50 else some 100)

-- 5 and 7 have the same factor, above that of 3.
abbrev three : Gw
three = record {
  list = node 3 1 ∷ node 5 40 ∷ node 7 10 ∷ [];
  curr_gw = none;
  reselect = 1;
  gw_mode = mode_client;
  gw_sel_class = 1;
}

get_best_gw_node-IsBest_example :
    IsBest three.gw_sel_class tq three.list (get_best_gw_node tq three)
get_best_gw_node-IsBest_example = get_best_gw_node-IsBest tq three

-- Among equal factors the worse quality stays, since another gateway has a still better one.
first_of_equal : get_best_gw_node tq three ≡ some (node 5 40).ref
unfolding get_best_gw_node search_gw search_step gw_factor is_better
first_of_equal = refl

abbrev history : List Step
history =
    elects true tq tq
    ∷ originator_gone 5
    ∷ elects true tq tq
    ∷ container (some 200) tq 9 (some (record { bandwidth_down = 90; bandwidth_up = 20 }))
    ∷ new_mode true mode_off
    ∷ []

run-Told_example : Told three (run history three)
run-Told_example = run-Told history three (refl, (tt, (refl, (tt, (refl, tt)))))

run-Listed_example : Listed (run history three).1
run-Listed_example = run-Listed history three tt
