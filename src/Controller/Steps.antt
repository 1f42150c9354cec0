-- ===== src/Controller/Steps.antt =====
-- What trying steps one after the other is, whatever fails.
use distributed_container_or.Base.{
  subst, ◌++◌, map, err, Error, ◌≡◌, refl, ap, ◌∙◌, inl, inr, String, Bool, true, false, List, [],
  ◌∷◌, Result, ok, Result-cases, if◌then◌else◌,
}
use distributed_container_or.Model.Floats.{Time}
use distributed_container_or.Model.Deploy.{Message}
use distributed_container_or.Store.State.{Orchestrator, M, and_then, ◌>>◌, for_each}
use distributed_container_or.Model.Storage.{Event, EventLevel}
use distributed_container_or.Store.{emit_event}
use distributed_container_or.Controller.{logged}

module _ {F : Type 0} where
  -- The handler succeeds from every state.
  abbrev pub Succeeds : M F Unit → Type 0
  Succeeds m = (o : Orchestrator F) → (m o).0 ≡ ok tt

  pub >>-Succeeds : (m k : M F Unit) → Succeeds m → Succeeds k → Succeeds (m >> k)
  >>-Succeeds m k h g o =
      ap (λ (r : Result Unit). (and_then (r, (m o).1) (λ _. k)).0) (h o) ∙ g (m o).1

  pub for_each-Succeeds :
      {A : Type 0} (xs : List A) (body : A → M F Unit)
      → ((x : A) → Succeeds (body x))
      → Succeeds (for_each xs body)
  unfolding for_each
  for_each-Succeeds [] body h o = refl
  for_each-Succeeds (x ∷ xs) body h o =
      >>-Succeeds (body x) (for_each xs body) (h x) (for_each-Succeeds xs body h) o

  pub if-Succeeds :
      (c : Bool) (m k : M F Unit) → Succeeds m → Succeeds k → Succeeds (if c then m else k)
  if-Succeeds true m k h g o = h o
  if-Succeeds false m k h g o = g o

  -- One step of a pass: it works, or its failure is reported by an event, the last, and the pass goes on
  -- from the state that the step left.
  pub data Tried (step : M F Unit) (o o' : Orchestrator F) : Type 0 where
    worked : step o ≡ (ok tt, o') → Tried step o o'
    reported :
        (e : Error) (q : Orchestrator F) (event : Event)
        → step o ≡ (err e, q)
        → event.level ≡ EventLevel.error
        → event.message ≡ Message.of_error e
        → o'.events ≡ q.events ++ event ∷ []
        → o'.deployments ≡ q.deployments
        → o'.workloads ≡ q.workloads
        → o'.nodes ≡ q.nodes
        → o'.assignments ≡ q.assignments
        → Tried step o o'

  -- The steps are tried one after the other, each in the state that the one before left.
  abbrev pub AllTried : List (M F Unit) → Orchestrator F → Orchestrator F → Type 0
  AllTried [] o o' = o' ≡ o
  AllTried (step ∷ steps) o o' = (q : Orchestrator F) × Tried step o q × AllTried steps q o'

  -- The handler succeeds, and what it does is to try the steps.
  abbrev pub Tries : List (M F Unit) → M F Unit → Type 0
  Tries steps m =
      (o : Orchestrator F) → (o' : Orchestrator F) × (m o ≡ (ok tt, o')) × AllTried steps o o'

  AllTried-append :
      (ss ts : List (M F Unit)) (o q o' : Orchestrator F)
      → AllTried ss o q
      → AllTried ts q o'
      → AllTried (ss ++ ts) o o'
  AllTried-append [] ts o q o' a b = subst (λ x. AllTried ts x o') a b
  AllTried-append (s ∷ ss) ts o q o' (p, t, a) b = (p, t, AllTried-append ss ts p q o' a b)

  pub >>-Tries :
      (ss ts : List (M F Unit)) (m k : M F Unit)
      → Tries ss m
      → Tries ts k
      → Tries (ss ++ ts) (m >> k)
  >>-Tries ss ts m k h g o =
      let (q, ran, tried) = h o in
      let (o', then_ran, rest) = g q in
      (
        o',
        ap (λ (r : Result Unit × Orchestrator F). and_then r (λ _. k)) ran ∙ then_ran,
        AllTried-append ss ts o q o' tried rest,
      )

  pub logged-Tries :
      (now : Time) (type reason id : String) (step : M F Unit)
      → Tries (step ∷ []) (logged now type reason id step)
  unfolding emit_event
  logged-Tries now type reason id step o = elim (Result-cases (step o).0) [
    | inl (u, e) ↦
        ((step o).1, rw e refl, ((step o).1, Tried.worked (ap (λ r. (r, (step o).1)) e), refl))
    | inr (x, e) ↦
        let after = (logged now type reason id step o).1 in
        (
          after,
          rw e refl,
          (
            after,
            Tried.reported x (step o).1
                (record {
                  id = (step o).1.ids (step o).1.serial;
                  timestamp = now;
                  level = EventLevel.error;
                  type = type;
                  reason = reason;
                  message = Message.of_error x;
                  deployment_id = id;
                  workload_id = "";
                  node_id = "";
                })
                (ap (λ r. (r, (step o).1)) e) refl refl (rw e refl) (rw e refl) (rw e refl)
                (rw e refl) (rw e refl),
            refl,
          ),
        )
  ]

  pub Succeeds-Tries : (m : M F Unit) → Succeeds m → Tries (m ∷ []) m
  Succeeds-Tries m h o =
      let ran = ap (λ r. (r, (m o).1)) (h o) in ((m o).1, ran, ((m o).1, Tried.worked ran, refl))

  pub for_each-Tries :
      {A : Type 0} (xs : List A) (step body : A → M F Unit)
      → ((x : A) → Tries (step x ∷ []) (body x))
      → Tries (map step xs) (for_each xs body)
  unfolding for_each
  for_each-Tries [] step body h = λ o. (o, refl, refl)
  for_each-Tries (x ∷ xs) step body h =
      >>-Tries (step x ∷ []) (map step xs) (body x) (for_each xs body) (h x)
        (for_each-Tries xs step body h)
