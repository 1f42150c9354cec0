-- ===== src/Balancer/Rotation.antt =====
-- Round robin: consecutive calls of `Select` over the same ready endpoints go round them.
use native.Mathlib.Nat.{mod-add-mod, mod-mod, add-zero}
use distributed_container_or.Base.{
  ℕ, zero, suc, ◌+◌, ◌%◌, ◌≡◌, String, List, ◌∷◌, arith, length, get_or, ok, eq_iff, ap, ◌∙◌,
  ◌≡⟨◌⟩◌, ◌∎,
}
use distributed_container_or.Model.Storage.{ServiceEndpoint}
use distributed_container_or.Balancer.{Balancer, ready_endpoints, select_ready, select}

-- The balancer after `k` calls.
unfoldable pub turns : String → List ServiceEndpoint → ℕ → Balancer → Balancer
turns s endpoints zero b = b
turns s endpoints (suc k) b = (select (turns s endpoints k b) s "round-robin" endpoints).1

module _ (s : String) (endpoints : List ServiceEndpoint) (e : ServiceEndpoint)
    (es : List ServiceEndpoint) (are_ready : ready_endpoints endpoints ≡ e ∷ es) where
  select-round_robin :
      (b : Balancer)
      → ((select b s "round-robin" endpoints).0
          ≡ ok (get_or (e ∷ es) (b.rr_index s % length (e ∷ es)) e))
        × ((select b s "round-robin" endpoints).1.rr_index s
            ≡ (b.rr_index s % length (e ∷ es) + 1) % length (e ∷ es))
  unfolding select select_ready
  select-round_robin b = rw are_ready (ground (arith, eq_iff s s))

  rr_index-turns :
      (k : ℕ) (b : Balancer)
      → (turns s endpoints k b).rr_index s % length (e ∷ es) ≡ (b.rr_index s + k) % length (e ∷ es)
  unfolding turns
  rr_index-turns zero b = rw add-zero
  rr_index-turns (suc k) b =
      let c = turns s endpoints k b in
      let n = length (e ∷ es) in
      (select c s "round-robin" endpoints).1.rr_index s % n
      ≡⟨ ap (λ i. i % n) (select-round_robin c).1 ⟩ (c.rr_index s % n + 1) % n % n
      ≡⟨ mod-mod (c.rr_index s % n + 1) n ⟩ (c.rr_index s % n + 1) % n
      ≡⟨ ap (λ i. (i + 1) % n) (rr_index-turns k b) ⟩ ((b.rr_index s + k) % n + 1) % n
      ≡⟨ mod-add-mod (b.rr_index s + k) n 1 ⟩ (b.rr_index s + k + 1) % n
      ≡⟨ ap (λ i. i % n) (omega arith) ⟩ (b.rr_index s + suc k) % n ∎

  -- Over endpoints of which those that are ready are, by id, `e ∷ es`, the call of `Select` that
  -- follows `k` others returns the one `k` places on from the first call's, round the list.
  pub select-turns :
      (k : ℕ) (b : Balancer)
      → (select (turns s endpoints k b) s "round-robin" endpoints).0
        ≡ ok (get_or (e ∷ es) ((b.rr_index s + k) % length (e ∷ es)) e)
  select-turns k b =
      (select-round_robin (turns s endpoints k b)).0
      ∙ ap (λ i. ok (get_or (e ∷ es) i e)) (rr_index-turns k b)
