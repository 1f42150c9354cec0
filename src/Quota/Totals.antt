-- ===== src/Quota/Totals.antt =====
-- What the deployments of a namespace add up to, as sums that do not wrap.
use distributed_container_or.Base.{
  ℕ, suc, ◌+◌, ◌*◌, ◌<◌, ◌^◌, ◌≡◌, refl, inl, inr, String, Bool, List, [], ◌∷◌, ℤ, pos, arith,
  add64, mul64, pos_part, neg_part, str_eq, if◌then◌else◌, All, Bool-cases, ap, ap₂, ◌∙◌, count,
  eq-pos_part, mul64_pos, add64_pos,
}
use distributed_container_or.Model.Cluster.{Resource}
use distributed_container_or.Model.Deploy.{Deployment, DeploymentSpec}
use distributed_container_or.Quota.{Usage, no_usage, charge, usage}

abbrev pub amounts : ℕ → ℕ → ℕ → Usage
amounts n c m = record { deployments = n; milli_cpu = pos c; memory_mb = pos m }

amounts_same : (n n' c c' m m' : ℕ) → n ≡ n' → c ≡ c' → m ≡ m' → amounts n c m ≡ amounts n' c' m'
amounts_same n n' c c' m m' e f g = rw (e, f, g) refl

module _ {F : Type 0} where
  -- Replicas and requests that are not negative.
  abbrev pub IsPlain : DeploymentSpec F → Type 0
  IsPlain spec =
      (neg_part spec.replicas ≡ 0)
      × (neg_part spec.resources.milli_cpu ≡ 0)
      × (neg_part spec.resources.memory_mb ≡ 0)

  -- One resource over all replicas.
  abbrev pub share : (Resource → ℤ) → DeploymentSpec F → ℕ
  share f spec = pos_part spec.replicas * pos_part (f spec.resources)

  abbrev pub in_namespace : String → Deployment F → Bool
  in_namespace ns d = str_eq d.spec.namespace ns

  -- One resource over the deployments of the namespace, those of others left out.
  unfoldable pub total : (Resource → ℤ) → String → List (Deployment F) → ℕ
  total f ns [] = 0
  total f ns (d ∷ ds) = (if in_namespace ns d then share f d.spec else 0) + total f ns ds

  charge-one :
      (f : Resource → ℤ) (spec : DeploymentSpec F) (n : ℕ)
      → neg_part spec.replicas ≡ 0
      → neg_part (f spec.resources) ≡ 0
      → n + share f spec < 2 ^ 63
      → add64 (pos n) (mul64 spec.replicas (f spec.resources)) ≡ pos (n + share f spec)
  charge-one f spec n p q h =
      let r = eq-pos_part spec.replicas p in
      let c = eq-pos_part (f spec.resources) q in
      let product =
        mul64_pos (pos_part spec.replicas) (pos_part (f spec.resources)) (omega arith) in
      ap (add64 (pos n)) (ap₂ mul64 r c ∙ product) ∙ add64_pos n _ h

  pub charge-amounts :
      (spec : DeploymentSpec F) (n c m : ℕ)
      → IsPlain spec
      → c + share (λ r. r.milli_cpu) spec < 2 ^ 63
      → m + share (λ r. r.memory_mb) spec < 2 ^ 63
      → charge (amounts n c m) spec
        ≡ amounts (n + 1) (c + share (λ r. r.milli_cpu) spec) (m + share (λ r. r.memory_mb) spec)
  unfolding charge
  charge-amounts spec n c m (p, q, r) cpu mem =
      let next : suc n ≡ n + 1 = omega arith in
      rw (← next) (
        ap₂ (λ a b. record { deployments = suc n; milli_cpu = a; memory_mb = b })
          (charge-one (λ x. x.milli_cpu) spec c p q cpu)
          (charge-one (λ x. x.memory_mb) spec m p r mem))

  usage-amounts :
      (ns : String) (ds : List (Deployment F)) (n c m : ℕ)
      → All (λ d. IsPlain d.spec) ds
      → c + total (λ r. r.milli_cpu) ns ds < 2 ^ 63
      → m + total (λ r. r.memory_mb) ns ds < 2 ^ 63
      → usage ns (amounts n c m) ds
        ≡ amounts
            (n + count (in_namespace ns) ds)
            (c + total (λ r. r.milli_cpu) ns ds)
            (m + total (λ r. r.memory_mb) ns ds)
  unfolding usage total
  usage-amounts ns [] n c m p cpu mem =
      amounts_same _ _ _ _ _ _ (omega arith) (omega arith) (omega arith)
  usage-amounts ns (d ∷ ds) n c m p cpu mem = elim (Bool-cases (in_namespace ns d)) [
    | inl mine ↦
        let below_cpu = rw mine at cpu in
        let below_mem = rw mine at mem in
        rw (mine, usage)
          (ap (λ u. usage ns u ds) (charge-amounts d.spec n c m p.0 (omega arith) (omega arith))
            ∙ usage-amounts ns ds (n + 1) (c + share (λ r. r.milli_cpu) d.spec)
                (m + share (λ r. r.memory_mb) d.spec) p.1 (omega arith) (omega arith)
            ∙ amounts_same _ _ _ _ _ _ (omega arith) (omega arith) (omega arith))
    | inr other ↦
        let below_cpu = rw other at cpu in
        let below_mem = rw other at mem in
        rw (other, usage)
          (usage-amounts ns ds n c m p.1 (omega arith) (omega arith)
            ∙ amounts_same _ _ _ _ _ _ (omega arith) (omega arith) (omega arith))
  ]

  -- From nothing.
  pub usage-total :
      (ns : String) (ds : List (Deployment F))
      → All (λ d. IsPlain d.spec) ds
      → total (λ r. r.milli_cpu) ns ds < 2 ^ 63
      → total (λ r. r.memory_mb) ns ds < 2 ^ 63
      → usage ns no_usage ds
        ≡ amounts
            (count (in_namespace ns) ds)
            (total (λ r. r.milli_cpu) ns ds)
            (total (λ r. r.memory_mb) ns ds)
  usage-total ns ds p cpu mem =
      usage-amounts ns ds 0 0 0 p (omega arith) (omega arith)
      ∙ amounts_same _ _ _ _ _ _ (omega arith) (omega arith) (omega arith)
