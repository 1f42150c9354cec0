-- ===== src/Samples/Balancing.antt =====
-- The balancer's theorems at concrete endpoints.
use distributed_container_or.Base.{
  slice_stable, ◌%◌, ◌+◌, ◌≡◌, refl, String, Bool, true, false, List, [], ◌∷◌, pos, ok, get_or,
}
use distributed_container_or.Model.Storage.{ServiceEndpoint, ServiceProtocol}
use distributed_container_or.Balancer.{Balancer, new_balancer, ready_endpoints, select}
use distributed_container_or.Balancer.Choice.{Selected, select-Selected}
use distributed_container_or.Balancer.Rotation.{turns, select-turns}

abbrev endpoint : String → Bool → ServiceEndpoint
endpoint id is_up = record {
  id = id;
  service_id = "s";
  workload_id = id;
  node_id = "n1";
  address = "10.0.0.1";
  port = pos 80;
  protocol = ServiceProtocol.tcp;
  ready = is_up;
  updated_at = 1;
}

abbrev endpoints : List ServiceEndpoint
endpoints = endpoint "b" true ∷ endpoint "a" true ∷ endpoint "c" false ∷ []

select-Selected_example : Selected new_balancer "" endpoints (select new_balancer "s" "" endpoints)
select-Selected_example = select-Selected new_balancer "s" "" endpoints

abbrev after_one : Balancer
after_one = (select new_balancer "s" "least-connections" endpoints).1

takes_least :
    select new_balancer "s" "least-connections" endpoints ≡ (ok (endpoint "a" true), after_one)
unfolding select slice_stable new_balancer
takes_least = refl

ready_in_order : ready_endpoints endpoints ≡ endpoint "a" true ∷ endpoint "b" true ∷ []
unfolding ready_endpoints slice_stable
ready_in_order = refl

select-turns_example :
    (select (turns "s" endpoints 3 new_balancer) "s" "round-robin" endpoints).0
    ≡ ok (
        get_or
          (endpoint "a" true ∷ endpoint "b" true ∷ [])
          ((new_balancer.rr_index "s" + 3) % 2)
          (endpoint "a" true))
select-turns_example =
    select-turns "s" endpoints (endpoint "a" true) (endpoint "b" true ∷ []) ready_in_order 3
      new_balancer
