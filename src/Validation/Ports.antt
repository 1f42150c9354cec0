-- ===== src/Validation/Ports.antt =====
-- The services that pass the validation, and their traffic.
use distributed_container_or.Base.{
  ◌≡◌, ◌≢◌, refl, ap, ◌∙◌, sym, subst, ◌↔◌, ◌⊎◌, inl, inr, String, Bool, true, false, not, ◌&&◌,
  ◌||◌, List, [], ◌∷◌, ℤ, pos, ◌≤ℤ◌, ltb_ℤ, eqb_ℤ, eq_of_parts, All, any, arith, none, some, Error,
  err, find, is_blank, Bool-cases,
}
use distributed_container_or.Model.Storage.{Service, ServiceSpec, ServicePort, ServiceType}
use distributed_container_or.Network.{is_nil}
use distributed_container_or.Store.Table.{lookup, values}
use distributed_container_or.Store.State.{Orchestrator}
use distributed_container_or.Services.{named, is_node_port, default_type, route_service_traffic}
use distributed_container_or.Services.Routing.{Unexposed, Routed, route_service_traffic_lem}
use distributed_container_or.Validation.{
  port_guards, service_guards, type_guards, guards, or_else, is_protocol, is_service_type,
  check_port, check_ports, validate_service_spec,
}
use distributed_container_or.Validation.Guards.{
  guards-none, guards_pass, or_else-none, or_else_pass,
}

pub record IsValidPort (p : ServicePort) : Type 0 where
  pub port_low : pos 1 ≤ℤ p.port
  pub port_high : p.port ≤ℤ pos 65_535
  pub target_low : pos 1 ≤ℤ p.target_port
  pub target_high : p.target_port ≤ℤ pos 65_535
  pub protocol : is_protocol p.protocol ≡ true
  pub node : (p.node_port ≡ pos 0) ⊎ ((pos 30_000 ≤ℤ p.node_port) × (p.node_port ≤ℤ pos 32_767))

-- Not zero, and out of the range of node ports.
abbrev misplaced : ℤ → Bool
misplaced n = not (eqb_ℤ n (pos 0)) && (ltb_ℤ n (pos 30_000) || ltb_ℤ (pos 32_767) n)

misplaced_iff :
    (n : ℤ) → misplaced n ≡ false ↔ (n ≡ pos 0) ⊎ ((pos 30_000 ≤ℤ n) × (n ≤ℤ pos 32_767))
misplaced_iff n = (
  λ e. elim (Bool-cases (eqb_ℤ n (pos 0))) [
    | inl zero ↦ inl (eq_of_parts n (pos 0) (ground arith))
    | inr given ↦ inr (ground arith, ground arith)
  ],
  λ v. elim v [ inl zero ↦ rw zero refl | inr range ↦ ground (arith, range) ],
)

check_port-IsValidPort : (p : ServicePort) → check_port p ≡ none → IsValidPort p
unfolding check_port
check_port-IsValidPort p e =
    let (port, (target, (protocol, (node, _)))) = guards-none (port_guards p) e in
    record {
      port_low = ground (arith, port);
      port_high = ground (arith, port);
      target_low = ground (arith, target);
      target_high = ground (arith, target);
      protocol = ground (arith, protocol);
      node = (misplaced_iff p.node_port).0 node;
    }

IsValidPort-check_port : (p : ServicePort) → IsValidPort p → check_port p ≡ none
unfolding check_port
IsValidPort-check_port p v = guards_pass (port_guards p) (
  ground (arith, v.port_low, v.port_high),
  (
    ground (arith, v.target_low, v.target_high),
    (rw v.protocol refl, ((misplaced_iff p.node_port).1 v.node, tt)),
  ),
)

check_ports-All : (ps : List ServicePort) → check_ports ps ≡ none → All IsValidPort ps
unfolding check_ports
check_ports-All [] e = tt
check_ports-All (p ∷ ps) e =
    let both = or_else-none (check_port p) (check_ports ps) e in
    (check_port-IsValidPort p both.0, check_ports-All ps both.1)

All-check_ports : (ps : List ServicePort) → All IsValidPort ps → check_ports ps ≡ none
unfolding check_ports
All-check_ports [] a = refl
All-check_ports (p ∷ ps) (v, a) =
    or_else_pass (check_port p) (check_ports ps) (IsValidPort-check_port p v) (All-check_ports ps a)

-- A name, a selector, and ports that are valid; and a node port for each where the type needs it.
pub record IsServable (given : ServiceSpec) : Type 0 where
  pub name : is_blank given.name ≡ false
  pub selector : given.selector ≢ []
  pub ports : given.ports ≢ []
  pub valid : All IsValidPort given.ports
  pub type : is_service_type given.type ≡ true
  pub exposed : is_node_port given.type ≡ true → All (λ p. p.node_port ≢ pos 0) given.ports

no_zero-All :
    (ps : List ServicePort)
    → any (λ p. eqb_ℤ p.node_port (pos 0)) ps ≡ false
    → All (λ p. p.node_port ≢ pos 0) ps
no_zero-All [] e = tt
no_zero-All (p ∷ ps) e = elim (Bool-cases (eqb_ℤ p.node_port (pos 0))) [
  | inl zero ↦ cc (zero, e)
  | inr given ↦ (λ same. ground (arith, same, given), no_zero-All ps (rw given at e))
]

All-no_zero :
    (ps : List ServicePort)
    → All (λ p. p.node_port ≢ pos 0) ps
    → any (λ p. eqb_ℤ p.node_port (pos 0)) ps ≡ false
All-no_zero [] a = refl
All-no_zero (p ∷ ps) (v, a) = elim (Bool-cases (eqb_ℤ p.node_port (pos 0))) [
  | inl zero ↦ elim (v (eq_of_parts p.node_port (pos 0) (ground arith))) [ ]
  | inr given ↦ rw given (All-no_zero ps a)
]

is_nil_iff : {A : Type 0} (xs : List A) → is_nil xs ≡ false ↔ xs ≢ []
is_nil_iff [] = (λ e. cc e, λ h. elim (h refl) [ ])
is_nil_iff (x ∷ xs) = (λ _ e. cc e, λ _. refl)

validate_service_spec-IsServable :
    (given : ServiceSpec) → validate_service_spec given ≡ none → IsServable given
unfolding validate_service_spec
validate_service_spec-IsServable given e =
    let (head, tail) =
      or_else-none (guards (service_guards given))
        (or_else (check_ports given.ports) (guards (type_guards given))) e in
    let (each, last) = or_else-none (check_ports given.ports) (guards (type_guards given)) tail in
    let (name, (selector, (ports, _))) = guards-none (service_guards given) head in
    let (type, (exposed, _)) = guards-none (type_guards given) last in
    record {
      name = name;
      selector = (is_nil_iff given.selector).0 selector;
      ports = (is_nil_iff given.ports).0 ports;
      valid = check_ports-All given.ports each;
      type = ground (arith, type);
      exposed = λ n. no_zero-All given.ports (rw n at exposed);
    }

no_node_port :
    (given : ServiceSpec)
    → (is_node_port given.type ≡ true → All (λ p. p.node_port ≢ pos 0) given.ports)
    → is_node_port given.type && any (λ p. eqb_ℤ p.node_port (pos 0)) given.ports ≡ false
no_node_port given h = elim (Bool-cases (is_node_port given.type)) [
  | inl node ↦ rw node (All-no_zero given.ports (h node))
  | inr cluster ↦ rw cluster refl
]

IsServable-validate_service_spec :
    (given : ServiceSpec) → IsServable given → validate_service_spec given ≡ none
unfolding validate_service_spec
IsServable-validate_service_spec given v =
    or_else_pass (guards (service_guards given))
      (or_else (check_ports given.ports) (guards (type_guards given)))
      (guards_pass (service_guards given) (
        v.name,
        ((is_nil_iff given.selector).1 v.selector, ((is_nil_iff given.ports).1 v.ports, tt)),
      ))
      (or_else_pass (check_ports given.ports) (guards (type_guards given))
        (All-check_ports given.ports v.valid)
        (guards_pass (type_guards given) (rw v.type refl, (no_node_port given v.exposed, tt))))

-- The validation passes a service exactly where it has a name, a selector and ports, its type is known,
-- each port and each target is from 1 to 65535 with a known protocol, and a node port that is given
-- from 30000 to 32767; and where the type needs node ports, each port has one.
pub validate_service_spec_iff :
    (given : ServiceSpec) → validate_service_spec given ≡ none ↔ IsServable given
validate_service_spec_iff given =
    (validate_service_spec-IsServable given, IsServable-validate_service_spec given)

is_node_port-default_type : (t : ServiceType) → is_node_port (default_type t) ≡ is_node_port t
is_node_port-default_type ServiceType.cluster_ip = refl
is_node_port-default_type ServiceType.node_port = refl
is_node_port-default_type ServiceType.unset = refl
is_node_port-default_type (ServiceType.other _) = refl

reachable :
    (svc : Service) (ps : List ServicePort)
    → ps ≢ []
    → (is_node_port svc.spec.type ≡ true → All (λ p. p.node_port ≢ pos 0) ps)
    → ¬ Unexposed svc ps
reachable svc [] some_there given u = some_there refl
reachable svc (p ∷ ps) some_there given (node, zero) = (given node).0 zero

exposed_lem :
    (svc : Service) (given : ServiceSpec)
    → IsServable given
    → svc.spec.ports ≡ given.ports
    → svc.spec.type ≡ default_type given.type
    → ¬ Unexposed svc svc.spec.ports
exposed_lem svc given v ports type =
    reachable svc svc.spec.ports (λ e. v.ports (sym ports ∙ e))
      (λ n.
        subst (All (λ p. p.node_port ≢ pos 0)) (sym ports)
          (v.exposed (sym (is_node_port-default_type given.type) ∙ ap is_node_port (sym type) ∙ n)))

-- Where the spec of a service passed the validation, and its ports and its type are as they were
-- created from that spec, a call for its traffic that fails counts no connection. The service is the
-- first of its name and is stored under its identifier.
pub route_fails_clean :
    {F : Type 0} (o : Orchestrator F) (svc : Service) (given : ServiceSpec) (strategy name : String)
    → validate_service_spec given ≡ none
    → svc.spec.ports ≡ given.ports
    → svc.spec.type ≡ default_type given.type
    → find (named name) (values o.services) ≡ some svc
    → lookup svc.id o.services ≡ some svc
    → (x : Error) (o' : Orchestrator F) → route_service_traffic name strategy o ≡ (err x, o')
    → o'.balance ≡ o.balance
route_fails_clean o svc given strategy name passed ports type first stored x o' e =
    let routed : Routed o svc strategy (err x, o') =
      subst (Routed o svc strategy) e
        (route_service_traffic_lem o svc strategy name first stored) in
    elim routed [
      | inl (same, _) ↦ same
      | inr (unexposed, _) ↦
          elim (exposed_lem svc given (validate_service_spec-IsServable given passed) ports type
            unexposed) [ ]
    ]
