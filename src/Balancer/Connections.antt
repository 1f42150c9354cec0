-- ===== src/Balancer/Connections.antt =====
-- The counts of connections: the least loaded endpoint is chosen, and `Release` undoes a choice.
use distributed_container_or.Base.{
  ◌+◌, ◌<◌, ◌^◌, ◌≡◌, refl, inl, inr, String, true, List, [], ◌∷◌, ℤ, pos, negsuc, add64, sub64,
  ◌+ℤ◌, ◌-ℤ◌, ◌≤ℤ◌, ◌<ℤ◌, wrap64, arith, ok, Elem, eq_iff, ap, subst, fun_ext, neg_part, pos_part,
}
use distributed_container_or.Model.Storage.{ServiceEndpoint}
use distributed_container_or.Balancer.Choice.{ready_endpoints-Elem, select-Selected, Selected}
use distributed_container_or.Balancer.{
  Balancer, update, fewest, least_connections, ready_endpoints, select_ready, select, release,
}

-- No endpoint of the loop has fewer connections than the one selected.
fewest_le :
    (f : String → ℤ) (e : ServiceEndpoint) (es : List ServiceEndpoint) (x : ServiceEndpoint)
    → Elem x (e ∷ es)
    → f (fewest f e (f e.id) es).id ≤ℤ f x.id
unfolding fewest
fewest_le f e [] x (inl same) = rw same (omega arith)
fewest_le f e [] x (inr m) = elim m [ ]
fewest_le f e (y ∷ es) x m = ground (
  arith,
  fewest_le f y es x,
  fewest_le f e es x,
  fewest_le f y es y (inl refl),
  fewest_le f e es e (inl refl),
)

least_of_ready :
    (b b' : Balancer) (s : String) (ready : List ServiceEndpoint) (e x : ServiceEndpoint)
    → select_ready b s "least-connections" ready ≡ (ok e, b')
    → Elem x ready
    → b.inflight e.id ≤ℤ b.inflight x.id
unfolding select_ready least_connections
least_of_ready b b' s [] e x h m = elim m [ ]
least_of_ready b b' s (y ∷ ys) e x h m = ground (arith, fewest_le b.inflight y ys x m)

-- With "least-connections", no ready endpoint of those given has fewer connections in flight than
-- the one that is returned.
pub select-fewest :
    (b b' : Balancer) (service_id : String) (endpoints : List ServiceEndpoint)
    (e x : ServiceEndpoint)
    → select b service_id "least-connections" endpoints ≡ (ok e, b')
    → Elem x endpoints
    → x.ready ≡ true
    → b.inflight e.id ≤ℤ b.inflight x.id
unfolding select
select-fewest b b' service_id endpoints e x h m r =
    least_of_ready b b' service_id (ready_endpoints endpoints) e x h
      (ready_endpoints-Elem x endpoints m r)

-- A count that can still be raised.
abbrev pub HasSpare : ℤ → Type 0
HasSpare c = (neg_part c ≡ 0) × (pos_part c + 1 < 2 ^ 63)

raise_lower :
    (c : ℤ) → HasSpare c → (sub64 (add64 c (pos 1)) (pos 1) ≡ c) × (pos 0 <ℤ add64 c (pos 1))
unfolding add64 sub64 wrap64 ◌+ℤ◌ ◌-ℤ◌
raise_lower (pos n) h = ground arith
raise_lower (negsuc n) h = absurd (omega arith)

release-taken :
    (b' : Balancer) (f : String → ℤ) (k j : String)
    → b'.inflight k ≡ update f k (add64 (f k) (pos 1)) k
    → b'.inflight j ≡ update f k (add64 (f k) (pos 1)) j
    → HasSpare (f k)
    → (release b' k).inflight j ≡ f j
unfolding release
release-taken b' f k j at_k at_j h = ground (arith, raise_lower (f k) h, eq_iff k j, eq_iff k k)

-- Releasing the endpoint that `Select` returned restores every count of connections, where the
-- count of that endpoint was not negative and could still be raised in 64 bits.
pub release-select :
    (b b' : Balancer) (service_id strategy : String) (endpoints : List ServiceEndpoint)
    (e : ServiceEndpoint)
    → select b service_id strategy endpoints ≡ (ok e, b')
    → HasSpare (b.inflight e.id)
    → (release b' e.id).inflight ≡ b.inflight
release-select b b' service_id strategy endpoints e h spare =
    let chosen =
      subst (Selected b strategy endpoints) h (select-Selected b service_id strategy endpoints) in
    fun_ext λ j.
      release-taken b' b.inflight e.id j (ap (λ f. f e.id) chosen.3) (ap (λ f. f j) chosen.3) spare
