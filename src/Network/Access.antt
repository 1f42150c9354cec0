-- ===== src/Network/Access.antt =====
-- When a source may reach a service.
use Prim.Native.String.{◌++◌ as append}
use distributed_container_or.Base.{
  String, Bool, false, ℤ, if◌then◌else◌, is_blank, keep, Elem-keep, keep-Elem, ok, ◌≡◌, ◌≢◌, refl,
  ◌⊎◌, inl, inr, ◌↔◌, true, List, [], ◌∷◌, pos, ◌≤ℤ◌, arith, any, any-Elem, Elem-any, Elem, none,
  some, Option-cases, Bool-cases, subst,
}
use distributed_container_or.Model.Storage.{
  NetworkPolicy, NetworkPolicyPeer, NetworkPolicyRule, Service,
}
use distributed_container_or.Model.Cluster.{Labels}
use distributed_container_or.Quota.{or_default}
use distributed_container_or.Store.Table.{values}
use distributed_container_or.Store.State.{Orchestrator}
use distributed_container_or.Store.{with_prefix}
use distributed_container_or.Store.Prefixes.{Begins, with_prefix-Elem, values-Elem}
use distributed_container_or.Network.{
  Source, is_nil, peer_admits, rule_verdict, rules_verdict, policies_verdict, access_verdict,
  applies, list_network_policies, is_network_access_allowed,
}
use distributed_container_or.Network.Peers.{
  HasAll, Fits, labels_match_selector_iff, peer_admits-Fits,
}

-- A rule lets the source in: its port is none or the source's, and it names no peer or one that fits.
pub record LetsIn (source : Source) (group : String) (rule : NetworkPolicyRule) : Type 0 where
  pub port : (rule.port ≤ℤ pos 0) ⊎ (rule.port ≡ source.port)
  pub peer : (rule.from ≡ []) ⊎ ((p : NetworkPolicyPeer) × Elem p rule.from × Fits source group p)

is_nil-eq {ℓ} : {A : Type ℓ} (xs : List A) → is_nil xs ≡ true → xs ≡ []
is_nil-eq [] e = refl
is_nil-eq (x ∷ xs) e = cc e

module _ (source : Source) where
  rule_verdict-LetsIn :
      (group : String) (rule : NetworkPolicyRule) (v : String)
      → rule_verdict source group rule ≡ some v
      → LetsIn source group rule
  unfolding rule_verdict
  rule_verdict-LetsIn group rule v h = record {
    port = ground arith;
    peer = elim (Bool-cases (is_nil rule.from)) [
      | inl e ↦ inl (is_nil-eq rule.from e)
      | inr e ↦
          let (p, m, admitted) =
            any-Elem (peer_admits source group) rule.from (ground (arith, e)) in
          inr (p, m, (peer_admits-Fits source group p).0 admitted)
    ];
  }

  LetsIn-any :
      (group : String) (rule : NetworkPolicyRule)
      → LetsIn source group rule
      → (is_nil rule.from ≡ true) ⊎ (any (peer_admits source group) rule.from ≡ true)
  LetsIn-any group rule l = elim l.peer [
    | inl e ↦ inl (rw e refl)
    | inr (p, m, h) ↦
        inr (
          Elem-any (peer_admits source group) p rule.from m ((peer_admits-Fits source group p).1 h))
  ]

  LetsIn-rule_verdict :
      (group : String) (rule : NetworkPolicyRule)
      → LetsIn source group rule
      → rule_verdict source group rule ≢ none
  unfolding rule_verdict
  LetsIn-rule_verdict group rule l e = ground (arith, l.port, LetsIn-any group rule l)

  rules_verdict-Elem :
      (group : String) (rs : List NetworkPolicyRule) (v : String)
      → rules_verdict source group rs ≡ some v
      → (r : NetworkPolicyRule) × Elem r rs × LetsIn source group r
  unfolding rules_verdict
  rules_verdict-Elem group [] v e = cc e
  rules_verdict-Elem group (r ∷ rs) v e = elim (Option-cases (rule_verdict source group r)) [
    | inl h ↦ let (x, m, l) = rules_verdict-Elem group rs v (ground (arith, h)) in (x, inr m, l)
    | inr (w, h) ↦ (r, inl refl, rule_verdict-LetsIn group r w h)
  ]

  Elem-rules_verdict :
      (group : String) (rs : List NetworkPolicyRule) (r : NetworkPolicyRule)
      → Elem r rs
      → LetsIn source group r
      → rules_verdict source group rs ≢ none
  unfolding rules_verdict
  Elem-rules_verdict group [] r m l e = elim m [ ]
  Elem-rules_verdict group (x ∷ rs) r (inl same) l e =
      LetsIn-rule_verdict group x (rw (← same) l) (ground arith)
  Elem-rules_verdict group (x ∷ rs) r (inr m) l e = Elem-rules_verdict group rs r m l (ground arith)

  -- A policy and a rule of it let the source in.
  abbrev pub SomeLetsIn : List NetworkPolicy → Type 0
  SomeLetsIn ps =
      (p : NetworkPolicy) × (r : NetworkPolicyRule) × Elem p ps
      × Elem r p.ingress
      × LetsIn source p.group r

  policies_verdict-Elem :
      (ps : List NetworkPolicy) (v : String) → policies_verdict source ps ≡ some v → SomeLetsIn ps
  unfolding policies_verdict
  policies_verdict-Elem [] v e = cc e
  policies_verdict-Elem (p ∷ ps) v e =
      elim (Option-cases (rules_verdict source p.group p.ingress)) [
        | inl h ↦
            let (q, r, m, k, l) = policies_verdict-Elem ps v (ground (arith, h)) in
            (q, r, inr m, k, l)
        | inr (w, h) ↦
            let (r, m, l) = rules_verdict-Elem p.group p.ingress w h in (p, r, inl refl, m, l)
      ]

  Elem-policies_verdict :
      (ps : List NetworkPolicy) → SomeLetsIn ps → policies_verdict source ps ≢ none
  unfolding policies_verdict
  Elem-policies_verdict [] (p, r, m, k, l) e = elim m [ ]
  Elem-policies_verdict (q ∷ ps) (p, r, inl same, k, l) e =
      Elem-rules_verdict q.group q.ingress r (subst (λ x. Elem r x.ingress) same k)
        (subst (λ x. LetsIn source x.group r) same l) (ground arith)
  Elem-policies_verdict (q ∷ ps) (p, r, inr m, k, l) e =
      Elem-policies_verdict ps (p, r, m, k, l) (ground arith)

  access_verdict_iff :
      (ps : List NetworkPolicy)
      → ((access_verdict source ps).0 ≡ true) ↔ ((ps ≡ []) ⊎ SomeLetsIn ps)
  unfolding access_verdict
  access_verdict_iff [] = (λ _. inl refl, λ _. refl)
  access_verdict_iff (p ∷ ps) = elim (Option-cases (policies_verdict source (p ∷ ps))) [
    | inl h ↦ (
      λ e. cc (e, h),
      λ d. elim d [
        | inl nothing ↦ cc nothing
        | inr some_in ↦ absurd (Elem-policies_verdict (p ∷ ps) some_in h)
      ],
    )
    | inr (v, h) ↦ (λ _. inr (policies_verdict-Elem (p ∷ ps) v h), λ _. ground (arith, h))
  ]

none_in : {ps : List NetworkPolicy} (p : NetworkPolicy) → ps ≡ [] → ¬ Elem p ps
none_in p e m = elim (subst (Elem p) e m) [ ]

no_member : (ps : List NetworkPolicy) → ((p : NetworkPolicy) → ¬ Elem p ps) → ps ≡ []
no_member [] h = refl
no_member (p ∷ ps) h = absurd (h p (inl refl))

module _ {F : Type 0} (o : Orchestrator F) (svc : Service) where
  -- A policy of the service's namespace, by its key, whose selector has labels and which the service's
  -- selector has all.
  pub record Governs (p : NetworkPolicy) : Type 0 where
    pub key : String
    pub held : Elem (key, p) o.policies
    pub of_namespace : Begins (append svc.spec.namespace ":") key
    pub selects : is_nil p.pod_selector ≡ false
    pub labels : HasAll svc.spec.selector p.pod_selector

  abbrev listed : List NetworkPolicy
  listed = values (with_prefix (append svc.spec.namespace ":") o.policies)

  applying : List NetworkPolicy
  applying = keep (applies svc.spec) listed

  applying-Governs : (p : NetworkPolicy) → Elem p applying ↔ Governs p
  unfolding applying
  applying-Governs p =
      let prefix = append svc.spec.namespace ":" in
      let chosen = labels_match_selector_iff svc.spec.selector p.pod_selector in
      (
        λ m.
            let (there, matched) = Elem-keep (applies svc.spec) p listed m in
            let (key, e) = (values-Elem p (with_prefix prefix o.policies)).0 there in
            let (held, begins) = (with_prefix-Elem prefix (key, p) o.policies).0 e in
            let (selects, labels) = chosen.0 matched in
            record {
              key = key;
              held = held;
              of_namespace = begins;
              selects = selects;
              labels = labels;
            },
        λ g.
            keep-Elem (applies svc.spec) p listed
              ((values-Elem p (with_prefix prefix o.policies)).1
                (g.key, (with_prefix-Elem prefix (g.key, p) o.policies).1 (g.held, g.of_namespace)))
              (chosen.1 (g.selects, g.labels)),
      )

  -- A rule of a policy that governs the service lets the source in.
  abbrev pub GovernedIn : Source → Type 0
  GovernedIn source =
      (p : NetworkPolicy) × (r : NetworkPolicyRule) × Governs p
      × Elem r p.ingress
      × LetsIn source p.group r

  -- The call reads only. A source may reach a service exactly where no policy applies to it, or a rule of
  -- one that applies lets the source in. A policy applies that is stored under the service's
  -- namespace and whose selector has labels, all among the service's selector; a rule lets a source
  -- in that names no port or the source's, and no peer or one that has the source's namespace, if any,
  -- its labels, if any, and the policy's group, if any. A source without a namespace is of "default".
  pub is_network_access_allowed_iff :
      (namespace : String) (labels : Labels) (port : ℤ)
      → (allowed : Bool) × (why : String) × (is_network_access_allowed namespace labels svc port o
          ≡ (ok (allowed, why), o))
        × ((allowed ≡ true) ↔ (
            ((p : NetworkPolicy) → ¬ Governs p)
            ⊎ GovernedIn (record {
              namespace = if is_blank namespace then "default" else namespace;
              labels = labels;
              port = port;
            })))
  unfolding is_network_access_allowed list_network_policies applying
  is_network_access_allowed_iff namespace labels port =
      let source : Source = record {
        namespace = or_default namespace;
        labels = labels;
        port = port;
      } in
      let verdict = access_verdict_iff source applying in
      (
        (access_verdict source applying).0,
        (access_verdict source applying).1,
        refl,
        (
          λ e. elim (verdict.0 e) [
            | inl bare ↦ inl (λ p g. none_in p bare ((applying-Governs p).1 g))
            | inr (p, r, m, k, l) ↦ inr (p, r, (applying-Governs p).0 m, k, l)
          ],
          λ d. verdict.1 (elim d [
            | inl free ↦ inl (no_member applying (λ p m. free p ((applying-Governs p).0 m)))
            | inr (p, r, g, k, l) ↦ inr (p, r, (applying-Governs p).1 g, k, l)
          ]),
        ),
      )
