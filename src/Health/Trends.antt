-- ===== src/Health/Trends.antt =====
-- internal/service/orchestrator.go: `ListNodeHealthTrends`, over the samples that the health passes keep.
use distributed_container_or.Base.{
  ℕ, ◌-◌, ◌≤◌, ◌≡◌, refl, Elem-map, length-map, inl, inr, Bool, true, false, ◌&&◌, ◌||◌, List, [],
  ◌∷◌, map, ℤ, pos, leb_ℤ, pos_part, arith, length, drop, length-drop, Elem, Bool-cases,
  if◌then◌else◌, ok, IsWeakOrder,
}
use distributed_container_or.Model.Floats.{Float}
use distributed_container_or.Model.Cluster.{Node}
use distributed_container_or.Model.Storage.{NodeHealthSample}
use distributed_container_or.Model.Work.{NodeHealthTrend}
use distributed_container_or.Store.Table.{values}
use distributed_container_or.Store.State.{Orchestrator, M, ◌>>=◌, read, pure}
use distributed_container_or.Store.{list_nodes}
use distributed_container_or.Health.{is_critical}
use distributed_container_or.Autoscaling.Metrics.{last_of}

-- A window that is not positive is 20.
abbrev pub wanted : ℤ → ℕ
wanted window = if leb_ℤ window (pos 0) then 20 else pos_part window

module _ {F : Type 0} ⦃fl : Float F⦄ where
  open fl use {of_int, hundredths, add, mul, div, lt}

  unfoldable pub sum_of : (NodeHealthSample F → F) → F → List (NodeHealthSample F) → F
  sum_of f total [] = total
  sum_of f total (s ∷ ss) = sum_of f (add total (f s)) ss

  unfoldable pub greatest : (NodeHealthSample F → F) → F → List (NodeHealthSample F) → F
  greatest f top [] = top
  greatest f top (s ∷ ss) = greatest f (if lt top (f s) then f s else top) ss

  abbrev is_spike : F → F → Bool
  is_spike latest average = lt (hundredths 90) latest && lt (mul average (hundredths 135)) latest

  -- The history that is looked at.
  unfoldable pub recent : ℤ → List (NodeHealthSample F) → List (NodeHealthSample F)
  recent window history = drop (length history - wanted window) history

  abbrev unsampled : Node F → NodeHealthTrend F
  unsampled n = record {
    node_id = n.id;
    sample_count = pos 0;
    avg_cpu_utilization = of_int (pos 0);
    avg_memory_utilization = of_int (pos 0);
    max_cpu_utilization = of_int (pos 0);
    max_memory_utilization = of_int (pos 0);
    current_failure_class = n.health.failure_class;
    anomaly_detected = false;
    anomaly_reason = "";
    last_evaluated_at = n.health.last_evaluated_at;
  }

  unfoldable pub trend_over : Node F → List (NodeHealthSample F) → NodeHealthTrend F
  unfolding sum_of greatest last_of
  trend_over n [] = unsampled n
  trend_over n (s ∷ ss) =
      let history = s ∷ ss in
      let count = of_int (pos (length history)) in
      let cpu = div (sum_of (λ x. x.cpu_utilization) (of_int (pos 0)) history) count in
      let mem = div (sum_of (λ x. x.memory_utilization) (of_int (pos 0)) history) count in
      let latest = last_of s ss in
      let critical = is_critical n.health.failure_class in
      let spike = is_spike latest.cpu_utilization cpu || is_spike latest.memory_utilization mem in
      record (unsampled n) {
        sample_count = pos (length history);
        avg_cpu_utilization = cpu;
        avg_memory_utilization = mem;
        max_cpu_utilization = greatest (λ x. x.cpu_utilization) (of_int (pos 0)) history;
        max_memory_utilization = greatest (λ x. x.memory_utilization) (of_int (pos 0)) history;
        anomaly_detected = critical || spike;
        anomaly_reason =
            if critical
            then "critical node health state"
            else if spike
            then "resource utilization spike detected"
            else "";
      }

  unfoldable pub list_node_health_trends : ℤ → M F (List (NodeHealthTrend F))
  unfolding list_nodes recent trend_over
  list_node_health_trends window = do
    nodes ← list_nodes
    samples ← read (λ o. o.health_samples)
    pure (map (λ n. trend_over n (recent window (samples n.id))) nodes)

  -- No sample of those looked at is above what the trend gives as the greatest, and a critical node
  -- with samples is shown as an anomaly.
  abbrev pub Shows : Node F → List (NodeHealthSample F) → NodeHealthTrend F → Type 0
  Shows n history t =
      (t.node_id ≡ n.id)
      × (t.sample_count ≡ pos (length history))
      × ((s : NodeHealthSample F)
          → Elem s history
          → (lt t.max_cpu_utilization s.cpu_utilization ≡ false)
            × (lt t.max_memory_utilization s.memory_utilization ≡ false)
            × (is_critical n.health.failure_class ≡ true → t.anomaly_detected ≡ true))

  module _ (o : IsWeakOrder lt) where
    lt_same : (x : F) → lt x x ≡ false
    lt_same x = elim (Bool-cases (lt x x)) [ inl e ↦ o.asymm x x e | inr e ↦ e ]

    -- The greater of both is below neither.
    raised :
        (a b : F)
        → (lt (if lt a b then b else a) a ≡ false) × (lt (if lt a b then b else a) b ≡ false)
    raised a b = elim (Bool-cases (lt a b)) [
      | inl e ↦ rw e (o.asymm a b e, lt_same b)
      | inr e ↦ rw e (lt_same a, e)
    ]

    greatest-start :
        (f : NodeHealthSample F → F) (top : F) (ss : List (NodeHealthSample F))
        → lt (greatest f top ss) top ≡ false
    unfolding greatest
    greatest-start f top [] = lt_same top
    greatest-start f top (s ∷ ss) =
        o.trans_not top (if lt top (f s) then f s else top) _ (raised top (f s)).0
          (greatest-start f (if lt top (f s) then f s else top) ss)

    greatest-Elem :
        (f : NodeHealthSample F → F) (top : F) (s : NodeHealthSample F)
        (ss : List (NodeHealthSample F))
        → Elem s ss
        → lt (greatest f top ss) (f s) ≡ false
    unfolding greatest
    greatest-Elem f top s [] m = elim m [ ]
    greatest-Elem f top s (r ∷ ss) (inl e) =
        let next = if lt top (f r) then f r else top in
        rw e (o.trans_not (f r) next _ (raised top (f r)).1 (greatest-start f next ss))
    greatest-Elem f top s (r ∷ ss) (inr m) =
        greatest-Elem f (if lt top (f r) then f r else top) s ss m

    trend_over-Shows :
        (n : Node F) (history : List (NodeHealthSample F)) → Shows n history (trend_over n history)
    unfolding trend_over
    trend_over-Shows n [] = (refl, refl, λ s m. elim m [ ])
    trend_over-Shows n (r ∷ rs) = (
      refl,
      refl,
      λ s m. (
        greatest-Elem (λ x. x.cpu_utilization) (of_int (pos 0)) s (r ∷ rs) m,
        greatest-Elem (λ x. x.memory_utilization) (of_int (pos 0)) s (r ∷ rs) m,
        λ c. rw c refl,
      ),
    )

  recent-length :
      (window : ℤ) (history : List (NodeHealthSample F))
      → length (recent window history) ≤ wanted window
  unfolding recent
  recent-length window history = omega (arith, length-drop (length history - wanted window) history)

  -- The trends are as many as the nodes, and the state stands. Each node has one among them: of as many
  -- of its samples as it says, the window at most, of which none is above what it gives as the
  -- greatest, where numbers are compared by a weak order; and it shows a critical node that has
  -- samples as an anomaly.
  pub list_node_health_trends_lem :
      (order : IsWeakOrder lt) (window : ℤ) (o : Orchestrator F)
      → (ts : List (NodeHealthTrend F)) × (list_node_health_trends window o ≡ (ok ts, o))
        × (length ts ≡ length (values o.nodes))
        × ((n : Node F)
            → Elem n (values o.nodes)
            → (t : NodeHealthTrend F) × Elem t ts
              × Shows n (recent window (o.health_samples n.id)) t
              × (length (recent window (o.health_samples n.id)) ≤ wanted window))
  unfolding list_node_health_trends
  list_node_health_trends_lem order window o =
      let shown : Node F → NodeHealthTrend F =
        λ n. trend_over n (recent window (o.health_samples n.id)) in
      (
        map shown (values o.nodes),
        refl,
        length-map shown (values o.nodes),
        λ n m. (
          shown n,
          Elem-map shown n (values o.nodes) m,
          trend_over-Shows order n (recent window (o.health_samples n.id)),
          recent-length window (o.health_samples n.id),
        ),
      )
