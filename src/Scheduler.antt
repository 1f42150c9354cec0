-- ===== src/Scheduler.antt =====
-- internal/scheduler/scheduler.go: the planner's filters, its scores, and `SelectNode`. The process
-- behind an external plugin is a function that answers with a score or fails.
pub mod Choice
pub mod Fit
use distributed_container_or.Base.{
  ◌≡◌, String, Bool, true, false, not, ◌&&◌, ◌||◌, List, [], ◌∷◌, map, Option, none, some, ℤ, pos,
  leb_ℤ, add64, sub64, if◌then◌else◌, keep, all, any, find, str_eq, is_blank, trim_space, codes,
  to_lower, codes_eq, equal_fold, cut_prefix, has_prefix_fold, slice_stable, Result, ok, err,
  no_schedulable_node,
}
use distributed_container_or.Model.Floats.{Float}
use distributed_container_or.Model.Cluster.{
  Resource, Taint, Toleration, Labels, Node, NodeStatus, is_ready,
}

-- `m[key]`: "" where the key is missing.
unfoldable pub label : Labels → String → String
label [] k = ""
label ((j, v) ∷ m) k = if str_eq j k then v else label m k

-- `strings.HasPrefix(k, p)` and `strings.TrimPrefix(k, p)` in one.
abbrev suffix_or {ℓ} : {A : Type ℓ} → String → String → A → (String → A) → A
suffix_or k p absent present = elim (cut_prefix k p) [ none ↦ absent | some rest ↦ present rest ]

-- The body of the inner loop: `true` where it sets `matched`, `false` where it goes on.
unfoldable pub tolerates : Taint → Toleration → Bool
tolerates taint tol =
    if is_blank tol.key
    then false
    else if not (str_eq tol.key taint.key)
    then false
    else if not (is_blank tol.effect) && not (str_eq tol.effect taint.effect)
    then false
    else if equal_fold (trim_space tol.operator) "exists"
    then true
    else (is_blank tol.value || str_eq tol.value taint.value)

module _ {F : Type 0} where
  unfoldable pub fits : Node F → Resource → Bool
  fits n req =
      let avail_cpu = sub64 n.allocatable.milli_cpu n.used.milli_cpu in
      let avail_mem = sub64 n.allocatable.memory_mb n.used.memory_mb in
      leb_ℤ req.milli_cpu avail_cpu && leb_ℤ req.memory_mb avail_mem

  unfoldable pub tolerates_node_taints : Node F → List Toleration → Bool
  unfolding tolerates
  tolerates_node_taints n tolerations = all (λ taint. any (tolerates taint) tolerations) n.taints

  unfoldable pub affine : Node F → String × String → Bool
  unfolding label
  affine n (k, v) = suffix_or k "affinity." true (λ node_key. str_eq (label n.labels node_key) v)

  unfoldable pub anti_affine : Node F → String × String → Bool
  unfolding label
  anti_affine n (k, v) =
      suffix_or k "anti-affinity." true (λ node_key. not (str_eq (label n.labels node_key) v))

  unfoldable pub matches_affinity : Node F → Labels → Bool
  unfolding affine anti_affine
  matches_affinity n labels = all (affine n) labels && all (anti_affine n) labels

  -- The four tests that `SelectNode` makes of a node, in its order.
  unfoldable pub schedulable : Resource → Labels → List Toleration → Node F → Bool
  unfolding fits tolerates_node_taints matches_affinity
  schedulable req labels tolerations n =
      if not (is_ready n.status)
      then false
      else if not (fits n req)
      then false
      else if not (tolerates_node_taints n tolerations)
      then false
      else if not (matches_affinity n labels)
      then false
      else true

module _ {F : Type 0} ⦃fl : Float F⦄ where
  open fl use {of_int, hundredths, add, sub, mul, div, abs, max_f, lt}

  unfoldable pub least_loaded_score : Node F → Resource → F
  least_loaded_score n req =
      let alloc_cpu = max_f (of_int (pos 1)) (of_int n.allocatable.milli_cpu) in
      let alloc_mem = max_f (of_int (pos 1)) (of_int n.allocatable.memory_mb) in
      let cpu_after = div (of_int (add64 n.used.milli_cpu req.milli_cpu)) alloc_cpu in
      let mem_after = div (of_int (add64 n.used.memory_mb req.memory_mb)) alloc_mem in
      let spread_penalty = abs (sub cpu_after mem_after) in
      add (mul (add cpu_after mem_after) (hundredths 50)) (mul spread_penalty (hundredths 15))

  unfoldable pub best_fit_score : Node F → Resource → F
  best_fit_score n req =
      let alloc_cpu = max_f (of_int (pos 1)) (of_int n.allocatable.milli_cpu) in
      let alloc_mem = max_f (of_int (pos 1)) (of_int n.allocatable.memory_mb) in
      let left_cpu =
        of_int (sub64 (sub64 n.allocatable.milli_cpu n.used.milli_cpu) req.milli_cpu) in
      let left_mem =
        of_int (sub64 (sub64 n.allocatable.memory_mb n.used.memory_mb) req.memory_mb) in
      let left_cpu' = div (max_f (of_int (pos 0)) left_cpu) alloc_cpu in
      let left_mem' = div (max_f (of_int (pos 0)) left_mem) alloc_mem in
      let leftover_score = mul (add left_cpu' left_mem') (hundredths 50) in
      let balance_penalty = mul (abs (sub left_cpu' left_mem')) (hundredths 10) in
      add leftover_score balance_penalty

-- `externalPluginCmd` is "" where there is none; `external` is what its process answers.
pub record Planner (F : Type 0) : Type 0 where
  pub policy : String
  pub plugins : List (String × (Node F → Resource → F))
  pub external_plugin_cmd : String
  pub external : Node F → Resource → Option F

module _ {F : Type 0} where
  unfoldable pub register_plugin : Planner F → String → (Node F → Resource → F) → Planner F
  register_plugin p policy plugin = record p { plugins = (policy, plugin) ∷ p.plugins }

  unfoldable pub plugin_for : Planner F → String → Option (String × (Node F → Resource → F))
  plugin_for p policy = find (λ e. str_eq e.0 policy) p.plugins

module _ {F : Type 0} ⦃fl : Float F⦄ where
  open fl use {lt}

  unfoldable pub new_planner : String → (Node F → Resource → Option F) → Planner F
  unfolding register_plugin least_loaded_score best_fit_score
  new_planner policy external =
      let raw = trim_space policy in
      let is_external = has_prefix_fold (to_lower (codes raw)) (codes "external:") in
      let cmd : String = elim (cut_prefix raw "external:") [ none ↦ raw | some rest ↦ rest ] in
      let plugin_cmd : String = if is_external then trim_space cmd else "" in
      let name : String = if is_external then "external" else raw in
      let p : String =
        if codes_eq (to_lower (codes name)) (codes "best-fit")
        then "best-fit"
        else "least-loaded" in
      let planner : Planner F = record {
        policy = p;
        plugins = [];
        external_plugin_cmd = plugin_cmd;
        external = external;
      } in
      register_plugin (register_plugin planner "least-loaded" least_loaded_score) "best-fit"
        best_fit_score

  unfoldable pub score_by_plugin : Planner F → Node F → Resource → F
  unfolding plugin_for least_loaded_score
  score_by_plugin p n req = elim (plugin_for p p.policy) [
    | some (_, plugin) ↦ plugin n req
    | none ↦ elim (plugin_for p "least-loaded") [
      | some (_, plugin) ↦ plugin n req
      | none ↦ least_loaded_score n req
    ]
  ]

  unfoldable pub score_node : Planner F → Node F → Resource → F
  unfolding score_by_plugin
  score_node p n req =
      if str_eq p.external_plugin_cmd ""
      then score_by_plugin p n req
      else elim (p.external n req) [ some score ↦ score | none ↦ score_by_plugin p n req ]

  abbrev pub cheaper : Node F × F → Node F × F → Bool
  cheaper a b = lt a.1 b.1

  unfoldable pub first : List (Node F × F) → Result (Node F)
  first [] = err no_schedulable_node
  first (c ∷ cs) = ok c.0

  unfoldable pub candidates :
      Planner F → List (Node F) → Resource → Labels → List Toleration → List (Node F × F)
  candidates p nodes req labels tolerations =
      map (λ n. (n, score_node p n req)) (keep (schedulable req labels tolerations) nodes)

  unfoldable pub select_node :
      Planner F → List (Node F) → Resource → Labels → List Toleration → Result (Node F)
  unfolding candidates first
  select_node p nodes req labels tolerations =
      first (slice_stable cheaper (candidates p nodes req labels tolerations))
