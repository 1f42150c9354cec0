-- ===== src/Balancer/Choice.antt =====
-- `Select` returns a ready endpoint of those given, and counts one connection more on it.
use distributed_container_or.Base.{
  ℕ, ◌%◌, ◌<◌, ◌≡◌, refl, ◌⊎◌, inl, inr, String, true, false, List, [], ◌∷◌, ℤ, pos, add64, arith,
  keep, length, get_or, ok, err, Elem, Elem-keep, keep-Elem, Elem-slice_stable, slice_stable-Elem,
  zero, suc, Result, eq_iff, Bool-cases,
}
use distributed_container_or.Model.Storage.{ServiceEndpoint}
use distributed_container_or.Balancer.{
  Balancer, update, round_robin, fewest, least_connections, by_id, ready_endpoints, select_ready,
  select,
}

get_or-Elem {ℓ} :
    {A : Type ℓ} (xs : List A) (i : ℕ) (d : A) → i < length xs → Elem (get_or xs i d) xs
get_or-Elem [] i d h = elim h [ ]
get_or-Elem (x ∷ xs) zero d h = inl refl
get_or-Elem (x ∷ xs) (suc i) d h = inr (get_or-Elem xs i d (omega arith))

pub fewest-Elem :
    (f : String → ℤ) (e : ServiceEndpoint) (best : ℤ) (es : List ServiceEndpoint)
    → Elem (fewest f e best es) (e ∷ es)
unfolding fewest
fewest-Elem f e best [] = inl refl
fewest-Elem f e best (x ∷ es) = ground (arith, fewest-Elem f x (f x.id) es, fewest-Elem f e best es)

pub Elem-ready_endpoints :
    (e : ServiceEndpoint) (es : List ServiceEndpoint)
    → Elem e (ready_endpoints es)
    → Elem e es × (e.ready ≡ true)
unfolding ready_endpoints
Elem-ready_endpoints e es m =
    Elem-keep (λ x. x.ready) e es (Elem-slice_stable by_id e (keep (λ x. x.ready) es) m)

pub ready_endpoints-Elem :
    (e : ServiceEndpoint) (es : List ServiceEndpoint)
    → Elem e es
    → e.ready ≡ true
    → Elem e (ready_endpoints es)
unfolding ready_endpoints
ready_endpoints-Elem e es m r =
    slice_stable-Elem by_id e (keep (λ x. x.ready) es) (keep-Elem (λ x. x.ready) e es m r)

-- What a successful choice is: an element of the ready list, and one connection more on it.
abbrev Chosen : Balancer → List ServiceEndpoint → ServiceEndpoint → Balancer → Type 0
Chosen b ready e b' =
    Elem e ready × (b'.inflight ≡ update b.inflight e.id (add64 (b.inflight e.id) (pos 1)))

round_robin-Chosen :
    (b : Balancer) (s : String) (e : ServiceEndpoint) (es : List ServiceEndpoint)
    → Chosen b (e ∷ es) (round_robin b s e es).0 (round_robin b s e es).1
unfolding round_robin
round_robin-Chosen b s e es =
    (get_or-Elem (e ∷ es) (b.rr_index s % suc (length es)) e (omega arith), refl)

least_connections-Chosen :
    (b : Balancer) (e : ServiceEndpoint) (es : List ServiceEndpoint)
    → Chosen b (e ∷ es) (least_connections b e es).0 (least_connections b e es).1
unfolding least_connections
least_connections-Chosen b e es = (fewest-Elem b.inflight e (b.inflight e.id) es, refl)

-- The strategy is one that `Select` knows.
abbrev pub Supported : String → Type 0
Supported s = (s ≡ "") ⊎ (s ≡ "round-robin") ⊎ (s ≡ "least-connections")

Outcome : Balancer → String → List ServiceEndpoint → Result ServiceEndpoint × Balancer → Type 0
Outcome b strategy ready (ok e, b') = Supported strategy × Chosen b ready e b'
Outcome b strategy ready (err x, b') = (b' ≡ b) × ((ready ≡ []) ⊎ (¬ Supported strategy))

select_ready-Outcome :
    (b : Balancer) (s strategy : String) (ready : List ServiceEndpoint)
    → Outcome b strategy ready (select_ready b s strategy ready)
unfolding select_ready Outcome
select_ready-Outcome b s strategy [] = (refl, inl refl)
select_ready-Outcome b s strategy (e ∷ es) = ground (
  arith,
  eq_iff strategy "",
  eq_iff strategy "round-robin",
  eq_iff strategy "least-connections",
  round_robin-Chosen b s e es,
  least_connections-Chosen b e es,
)

-- The two results of `Select` over the endpoints that it is given.
abbrev pub Selected :
    Balancer → String → List ServiceEndpoint → Result ServiceEndpoint × Balancer → Type 0
Selected b strategy endpoints (ok e, b') =
    Supported strategy
    × Elem e endpoints
    × (e.ready ≡ true)
    × (b'.inflight ≡ update b.inflight e.id (add64 (b.inflight e.id) (pos 1)))
Selected b strategy endpoints (err x, b') =
    (b' ≡ b)
    × (((e : ServiceEndpoint) → Elem e endpoints → e.ready ≡ false) ⊎ (¬ Supported strategy))

Outcome-Selected :
    (b : Balancer) (strategy : String) (endpoints : List ServiceEndpoint)
    (r : Result ServiceEndpoint × Balancer)
    → Outcome b strategy (ready_endpoints endpoints) r
    → Selected b strategy endpoints r
unfolding Outcome
Outcome-Selected b strategy endpoints (ok e, b') o =
    let m = Elem-ready_endpoints e endpoints o.1.0 in (o.0, m.0, m.1, o.1.1)
Outcome-Selected b strategy endpoints (err x, b') (same, inr h) = (same, inr h)
Outcome-Selected b strategy endpoints (err x, b') (same, inl none_left) = (
  same,
  inl λ e m. elim (Bool-cases e.ready) [
    | inl r ↦ elim (rw none_left at (ready_endpoints-Elem e endpoints m r)) [ ]
    | inr r ↦ r
  ],
)

-- A call of `Select` that succeeds was given a known strategy, and returns a ready endpoint of
-- those given whose count of connections, and no other, is one higher afterwards. A call that
-- fails leaves the balancer as it was, and either no endpoint was ready or the strategy is unknown.
pub select-Selected :
    (b : Balancer) (service_id strategy : String) (endpoints : List ServiceEndpoint)
    → Selected b strategy endpoints (select b service_id strategy endpoints)
unfolding select
select-Selected b service_id strategy endpoints =
    Outcome-Selected b strategy endpoints (select b service_id strategy endpoints)
      (select_ready-Outcome b service_id strategy (ready_endpoints endpoints))
