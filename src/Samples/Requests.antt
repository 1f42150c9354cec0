-- ===== src/Samples/Requests.antt =====
-- The theorems on validated requests at concrete ones.
use distributed_container_or.Balancer.{select}
use distributed_container_or.Base.{
  ◌*ℤ◌, cut_prefix, slice_stable, trim_space, equal_fold, is_blank, ◌≡◌, refl, ◌↔◌, pos, ◌≤ℤ◌, none,
  err, message,
}
use distributed_container_or.Store.Table.{values, lookup}
use distributed_container_or.Autoscaling.{recommend, configured}
use distributed_container_or.Services.{route_service_traffic}
use distributed_container_or.Services.Collecting.{endpoint_of}
use distributed_container_or.Validation.{validate_service_spec, validate_autoscaler_policy}
use distributed_container_or.Validation.Ports.{
  IsServable, validate_service_spec_iff, route_fails_clean,
}
use distributed_container_or.Validation.Policies.{recommend_requested}
use distributed_container_or.Samples.{hundredths_float}
use distributed_container_or.Samples.Traffic.{shop, served, shop_named, shop_stored}
use distributed_container_or.Samples.Scaling.{policy, demand}

validate_service_spec_iff_example : validate_service_spec shop.spec ≡ none ↔ IsServable shop.spec
validate_service_spec_iff_example = validate_service_spec_iff shop.spec

shop_passes : validate_service_spec shop.spec ≡ none
unfolding validate_service_spec is_blank
shop_passes = refl

unknown_strategy :
    route_service_traffic "shop " "random" served
    ≡ (err (message "unsupported balancing strategy"), served)
unfolding route_service_traffic values equal_fold trim_space lookup select slice_stable cut_prefix
    endpoint_of
unknown_strategy = refl

route_fails_clean_example : served.balance ≡ served.balance
route_fails_clean_example =
    route_fails_clean served shop shop.spec "random" "shop " shop_passes refl refl shop_named
      shop_stored (message "unsupported balancing strategy") served unknown_strategy

policy_passes : validate_autoscaler_policy policy ≡ none
unfolding validate_autoscaler_policy is_blank ◌*ℤ◌
policy_passes = refl

recommend_requested_example :
    (pos 1 ≤ℤ recommend (configured 9 "as-1" policy) (pos 4) demand)
    × (recommend (configured 9 "as-1" policy) (pos 4) demand ≤ℤ pos 8)
recommend_requested_example = recommend_requested policy policy_passes 9 "as-1" (pos 4) demand
