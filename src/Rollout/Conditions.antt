-- ===== src/Rollout/Conditions.antt =====
-- `setCondition` keeps one condition for each type and touches no other type.
use distributed_container_or.Base.{
  ◌+◌, ◌≤◌, ◌≡◌, refl, Bool, true, false, List, [], ◌∷◌, ◌++◌, Option, none, some, arith, find,
  count, if◌then◌else◌,
}
use distributed_container_or.Model.Deploy.{DeploymentCondition, DeploymentConditionType, same_type}
use distributed_container_or.Rollout.{replace_condition, set_condition}

abbrev pub of_type : DeploymentConditionType → DeploymentCondition → Bool
of_type t c = same_type c.type t

abbrev pub condition :
    DeploymentConditionType → List DeploymentCondition → Option DeploymentCondition
condition t = find (of_type t)

-- The list holds at most one condition of each type.
unfoldable pub IsKeyed : List DeploymentCondition → Type 0
IsKeyed cs = (t : DeploymentConditionType) → count (of_type t) cs ≤ 1

module _ (next : DeploymentCondition) (t : DeploymentConditionType) where
  condition-append :
      (cs : List DeploymentCondition)
      → condition t (cs ++ next ∷ []) ≡ (elim (condition t cs) [
        | some c ↦ some c
        | none ↦ if same_type next.type t then some next else none
      ])
  condition-append [] = refl
  condition-append (c ∷ cs) = ground (arith, condition-append cs)

  condition-replace :
      (cs : List DeploymentCondition)
      → condition t (replace_condition cs next).0 ≡ (
          if same_type next.type t
          then (if (replace_condition cs next).1 then some next else none)
          else condition t cs)
  unfolding replace_condition
  condition-replace [] = ground arith
  condition-replace (c ∷ cs) = ground (arith, condition-replace cs)

  -- Looking a type up after `setCondition` finds the new condition where the type is its own, and
  -- what stood there before otherwise.
  pub condition-set_condition :
      (cs : List DeploymentCondition)
      → condition t (set_condition cs next)
        ≡ (if same_type next.type t then some next else condition t cs)
  unfolding set_condition
  condition-set_condition cs =
      ground (arith, condition-replace cs, condition-append (replace_condition cs next).0)

  count-append :
      (cs : List DeploymentCondition)
      → count (of_type t) (cs ++ next ∷ [])
        ≡ count (of_type t) cs + (if same_type next.type t then 1 else 0)
  count-append [] = ground arith
  count-append (c ∷ cs) = ground (arith, count-append cs)

  count-replace :
      (cs : List DeploymentCondition)
      → (count (of_type t) (replace_condition cs next).0 ≡ count (of_type t) cs)
        × ((replace_condition cs next).1 ≡ false
            → same_type next.type t ≡ true
            → count (of_type t) cs ≡ 0)
  unfolding replace_condition
  count-replace [] = ground arith
  count-replace (c ∷ cs) = ground (arith, count-replace cs)

-- `setCondition` keeps a list keyed by type: it never holds two conditions of one type.
pub set_condition-IsKeyed :
    (cs : List DeploymentCondition) (next : DeploymentCondition)
    → IsKeyed cs
    → IsKeyed (set_condition cs next)
unfolding set_condition IsKeyed
set_condition-IsKeyed cs next h t =
    ground (arith, h t, count-replace next t cs, count-append next t (replace_condition cs next).0)

-- Whether the condition of a type stands in the list with status true.
abbrev pub is_marked : DeploymentConditionType → List DeploymentCondition → Bool
is_marked t cs = elim (condition t cs) [ none ↦ false | some c ↦ c.status ]

pub is_marked-set_condition :
    (t : DeploymentConditionType) (next : DeploymentCondition) (cs : List DeploymentCondition)
    → is_marked t (set_condition cs next)
      ≡ (if same_type next.type t then next.status else is_marked t cs)
is_marked-set_condition t next cs = ground (arith, condition-set_condition next t cs)
