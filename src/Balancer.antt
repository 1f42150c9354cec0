-- ===== src/Balancer.antt =====
-- internal/loadbalancer/balancer.go: the balancer's two maps, `Select` and `Release`. A map is a
-- function that is 0 where the key is missing.
pub mod Choice
pub mod Rotation
pub mod Connections
use distributed_container_or.Base.{
  ℕ, suc, ◌+◌, ◌%◌, String, Bool, List, [], ◌∷◌, ℤ, pos, add64, sub64, ltb_ℤ, str_eq, str_lt,
  if◌then◌else◌, keep, length, get_or, slice_stable, Result, ok, err, message, ◌||◌,
}
use distributed_container_or.Model.Storage.{ServiceEndpoint}

pub record Balancer : Type 0 where
  pub rr_index : String → ℕ
  pub inflight : String → ℤ

unfoldable pub new_balancer : Balancer
new_balancer = record { rr_index = λ _. 0; inflight = λ _. pos 0 }

-- `m[k] = v`.
unfoldable pub update {ℓ} : {V : Type ℓ} → (String → V) → String → V → String → V
update m k v j = if str_eq k j then v else m j

unfoldable pub take_one : Balancer → ServiceEndpoint → Balancer
unfolding update
take_one b e = record b { inflight = update b.inflight e.id (add64 (b.inflight e.id) (pos 1)) }

-- `idx` is in range, so the default of `get_or` is never read.
unfoldable pub round_robin :
    Balancer → String → ServiceEndpoint → List ServiceEndpoint → ServiceEndpoint × Balancer
unfolding take_one update
round_robin b service_id e es =
    let ready = e ∷ es in
    let idx = b.rr_index service_id % length ready in
    let selected = get_or ready idx e in
    let moved = record b { rr_index = update b.rr_index service_id ((idx + 1) % length ready) } in
    (selected, take_one moved selected)

-- The loop over `ready[1:]`: the endpoint selected so far, with its connections.
unfoldable pub fewest : (String → ℤ) → ServiceEndpoint → ℤ → List ServiceEndpoint → ServiceEndpoint
fewest inflight selected best [] = selected
fewest inflight selected best (e ∷ es) =
    let c = inflight e.id in
    let better = fewest inflight e c es in
    let same = fewest inflight selected best es in if ltb_ℤ c best then better else same

unfoldable pub least_connections :
    Balancer → ServiceEndpoint → List ServiceEndpoint → ServiceEndpoint × Balancer
unfolding fewest take_one
least_connections b e es =
    let selected = fewest b.inflight e (b.inflight e.id) es in (selected, take_one b selected)

abbrev pub by_id : ServiceEndpoint → ServiceEndpoint → Bool
by_id a b = str_lt a.id b.id

unfoldable pub ready_endpoints : List ServiceEndpoint → List ServiceEndpoint
ready_endpoints endpoints = slice_stable by_id (keep (λ e. e.ready) endpoints)

abbrev pub succeed : ServiceEndpoint × Balancer → Result ServiceEndpoint × Balancer
succeed (e, b) = (ok e, b)

unfoldable pub select_ready :
    Balancer → String → String → List ServiceEndpoint → Result ServiceEndpoint × Balancer
unfolding round_robin least_connections
select_ready b service_id strategy [] = (err (message "no ready endpoints"), b)
select_ready b service_id strategy (e ∷ es) =
    if str_eq strategy "" || str_eq strategy "round-robin"
    then succeed (round_robin b service_id e es)
    else (if str_eq strategy "least-connections"
        then succeed (least_connections b e es)
        else (err (message "unsupported balancing strategy"), b))

unfoldable pub select :
    Balancer → String → String → List ServiceEndpoint → Result ServiceEndpoint × Balancer
unfolding ready_endpoints select_ready
select b service_id strategy endpoints =
    select_ready b service_id strategy (ready_endpoints endpoints)

unfoldable pub release : Balancer → String → Balancer
unfolding update
release b id =
    if ltb_ℤ (pos 0) (b.inflight id)
    then record b { inflight = update b.inflight id (sub64 (b.inflight id) (pos 1)) }
    else b
