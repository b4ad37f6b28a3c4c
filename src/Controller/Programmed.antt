-- ===== src/Controller/Programmed.antt =====
-- What holds in the cluster when `generatedReady` reports that all is programmed.
use ingress_nginx_gateway_br.Common.{
  ℕ, ◌≡◌, refl, inl, inr, Bool, true, false, Option, none, some, List, [], ◌∷◌, All, nat_beq,
  nat_beq_iff, Bool-cases,
}
use ingress_nginx_gateway_br.Text.{Text, codes}
use ingress_nginx_gateway_br.Api.{ParentReference}
use ingress_nginx_gateway_br.Controller.Observed.{Found, found, not_found, failed}
use ingress_nginx_gateway_br.Controller.ParentStatus.{
  Condition, ConditionStatus, condition_true, condition_false, condition_unknown, RouteParentStatus,
  RouteObject, matching_parent_status, desired_listener_sets,
}
use ingress_nginx_gateway_br.Controller.Readiness.{
  Outcome, ready, pending, rejected, broken, find_condition, Reported, status_outcome,
  reported_outcome, and_then, gateway_outcome, set_outcome, sets_outcome, PolicyState, is_true,
  current_condition, required_outcome, policy_outcome, backend_tls_outcome, RouteState,
  parent_outcome, parents_outcome, some_parent_outcome, route_outcome, Desired, policy, filter,
  backend_tls, http_route, other_object, object_outcome, objects_outcome, routes_of,
  generated_ready,
}

and_then-ready : (a b : Outcome) → and_then a b ≡ ready → (a ≡ ready) × (b ≡ ready)
and_then-ready ready b e = (refl, e)
and_then-ready pending b e = absurd cc
and_then-ready rejected b e = absurd cc
and_then-ready broken b e = absurd cc

-- A condition is reported for the generation, and it is true.
abbrev IsCurrent : ℕ → Option Condition → Type 0
IsCurrent generation o =
    (c : Condition) × ((o ≡ some c)
      × ((c.observed_generation ≡ generation) × (c.status ≡ condition_true)))

abbrev pub Holds : ℕ → Text → List Condition → Type 0
Holds generation kind conditions = IsCurrent generation (find_condition kind conditions)

status_outcome-true : (s : ConditionStatus) → status_outcome s ≡ ready → s ≡ condition_true
status_outcome-true condition_true e = refl
status_outcome-true condition_false e = absurd cc
status_outcome-true condition_unknown e = absurd cc

is_true-true : (s : ConditionStatus) → is_true s ≡ true → s ≡ condition_true
is_true-true condition_true e = refl
is_true-true condition_false e = absurd cc
is_true-true condition_unknown e = absurd cc

reported_outcome-IsCurrent :
    (generation : ℕ) (o : Option Condition)
    → reported_outcome generation o ≡ ready
    → IsCurrent generation o
unfolding reported_outcome
reported_outcome-IsCurrent generation none e = absurd cc
reported_outcome-IsCurrent generation (some c) e =
    elim (Bool-cases (nat_beq c.observed_generation generation)) [
      | inl same ↦
          let h : status_outcome c.status ≡ ready = rw same at e in
          (
            c,
            (
              refl,
              (
                (nat_beq_iff c.observed_generation generation).0 same,
                status_outcome-true c.status h,
              ),
            ),
          )
      | inr other ↦ let h : pending ≡ ready = rw other at e in absurd cc
    ]

required_outcome-true : (b : Bool) → required_outcome (some b) ≡ ready → b ≡ true
required_outcome-true true e = refl
required_outcome-true false e = absurd cc

required_outcome-IsCurrent :
    (generation : ℕ) (o : Option Condition)
    → required_outcome (current_condition generation o) ≡ ready
    → IsCurrent generation o
unfolding current_condition
required_outcome-IsCurrent generation none e = absurd cc
required_outcome-IsCurrent generation (some c) e =
    elim (Bool-cases (nat_beq c.observed_generation generation)) [
      | inl same ↦
          let h : required_outcome (some (is_true c.status)) ≡ ready = rw same at e in
          (
            c,
            (
              refl,
              (
                (nat_beq_iff c.observed_generation generation).0 same,
                is_true-true c.status (required_outcome-true (is_true c.status) h),
              ),
            ),
          )
      | inr other ↦ let h : pending ≡ ready = rw other at e in absurd cc
    ]

abbrev pub GatewayHolds : Found Reported → Type 0
GatewayHolds not_found = ⊥
GatewayHolds failed = ⊥
GatewayHolds (found gateway) = Holds gateway.generation (codes "Programmed") gateway.conditions

abbrev pub SetHolds : Found Reported → Type 0
SetHolds not_found = ⊥
SetHolds failed = ⊥
SetHolds (found set) =
    Holds set.generation (codes "Accepted") set.conditions
    × Holds set.generation (codes "Programmed") set.conditions

-- A parent has reported that it accepts the route and that its references are resolved.
abbrev pub ParentHolds : ℕ → Option RouteParentStatus → Type 0
ParentHolds generation none = ⊥
ParentHolds generation (some parent) =
    Holds generation (codes "Accepted") parent.conditions
    × Holds generation (codes "ResolvedRefs") parent.conditions

abbrev pub RouteHolds : RouteObject → Found RouteState → Type 0
RouteHolds route not_found = ⊥
RouteHolds route failed = ⊥
RouteHolds route (found state) =
    All
      (λ want.
        ParentHolds state.generation (matching_parent_status state.parents want state.namespace))
      route.parent_refs

abbrev IsFound : Found PolicyState → Type 0
IsFound not_found = ⊥
IsFound failed = ⊥
IsFound (found state) = Unit

-- A route is accepted by every parent that it asks for, and a policy exists.
abbrev pub ObjectHolds : Desired → Type 0
ObjectHolds (policy state) = IsFound state
ObjectHolds (filter state) = IsFound state
ObjectHolds (backend_tls state) = IsFound state
ObjectHolds (http_route route state) = RouteHolds route state
ObjectHolds other_object = Unit

gateway_outcome-GatewayHolds :
    (gateway : Found Reported) → gateway_outcome gateway ≡ ready → GatewayHolds gateway
unfolding gateway_outcome
gateway_outcome-GatewayHolds not_found e = cc
gateway_outcome-GatewayHolds failed e = cc
gateway_outcome-GatewayHolds (found g) e = reported_outcome-IsCurrent g.generation _ e

set_outcome-SetHolds : (set : Found Reported) → set_outcome set ≡ ready → SetHolds set
unfolding set_outcome
set_outcome-SetHolds not_found e = cc
set_outcome-SetHolds failed e = cc
set_outcome-SetHolds (found s) e =
    let (accepted, programmed) = and_then-ready _ _ e in
    (
      reported_outcome-IsCurrent s.generation _ accepted,
      reported_outcome-IsCurrent s.generation _ programmed,
    )

sets_outcome-SetHolds :
    (read : Text → Found Reported) (names : List Text)
    → sets_outcome read names ≡ ready
    → All (λ name. SetHolds (read name)) names
unfolding sets_outcome
sets_outcome-SetHolds read [] e = tt
sets_outcome-SetHolds read (name ∷ names) e =
    let (here, rest) = and_then-ready _ _ e in
    (set_outcome-SetHolds (read name) here, sets_outcome-SetHolds read names rest)

parent_outcome-ParentHolds :
    (generation : ℕ) (o : Option RouteParentStatus)
    → parent_outcome generation o ≡ ready
    → ParentHolds generation o
parent_outcome-ParentHolds generation none e = cc
parent_outcome-ParentHolds generation (some parent) e =
    let (accepted, resolved) = and_then-ready _ _ e in
    (
      required_outcome-IsCurrent generation _ accepted,
      required_outcome-IsCurrent generation _ resolved,
    )

parents_outcome-ParentHolds :
    (state : RouteState) (wants : List ParentReference)
    → parents_outcome state wants ≡ ready
    → All
        (λ want.
          ParentHolds state.generation (matching_parent_status state.parents want state.namespace))
        wants
unfolding parents_outcome
parents_outcome-ParentHolds state [] e = tt
parents_outcome-ParentHolds state (want ∷ wants) e =
    let (here, rest) = and_then-ready _ _ e in
    (
      parent_outcome-ParentHolds state.generation _ here,
      parents_outcome-ParentHolds state wants rest,
    )

some_parent_outcome-parents :
    (state : RouteState) (parents : List RouteParentStatus) (wants : List ParentReference)
    → some_parent_outcome state parents wants ≡ ready
    → parents_outcome state wants ≡ ready
some_parent_outcome-parents state [] wants e = absurd cc
some_parent_outcome-parents state (p ∷ ps) wants e = e

route_outcome-RouteHolds :
    (route : RouteObject) (state : Found RouteState)
    → route_outcome route state ≡ ready
    → RouteHolds route state
unfolding route_outcome
route_outcome-RouteHolds route not_found e = cc
route_outcome-RouteHolds route failed e = cc
route_outcome-RouteHolds route (found state) e =
    parents_outcome-ParentHolds state route.parent_refs
      (some_parent_outcome-parents state state.parents route.parent_refs e)

policy_outcome-IsFound : (state : Found PolicyState) → policy_outcome state ≡ ready → IsFound state
unfolding policy_outcome
policy_outcome-IsFound not_found e = cc
policy_outcome-IsFound failed e = cc
policy_outcome-IsFound (found state) e = tt

backend_tls_outcome-IsFound :
    (namespace name : Text) (state : Found PolicyState)
    → backend_tls_outcome namespace name state ≡ ready
    → IsFound state
unfolding backend_tls_outcome
backend_tls_outcome-IsFound namespace name not_found e = cc
backend_tls_outcome-IsFound namespace name failed e = cc
backend_tls_outcome-IsFound namespace name (found state) e = tt

object_outcome-ObjectHolds :
    (namespace name : Text) (d : Desired) → object_outcome namespace name d ≡ ready → ObjectHolds d
unfolding object_outcome
object_outcome-ObjectHolds namespace name (policy state) e = policy_outcome-IsFound state e
object_outcome-ObjectHolds namespace name (filter state) e = policy_outcome-IsFound state e
object_outcome-ObjectHolds namespace name (backend_tls state) e =
    backend_tls_outcome-IsFound namespace name state e
object_outcome-ObjectHolds namespace name (http_route route state) e =
    route_outcome-RouteHolds route state e
object_outcome-ObjectHolds namespace name other_object e = tt

objects_outcome-ObjectHolds :
    (namespace name : Text) (ds : List Desired)
    → objects_outcome namespace name ds ≡ ready
    → All ObjectHolds ds
unfolding objects_outcome
objects_outcome-ObjectHolds namespace name [] e = tt
objects_outcome-ObjectHolds namespace name (d ∷ ds) e =
    let (here, rest) = and_then-ready _ _ e in
    (
      object_outcome-ObjectHolds namespace name d here,
      objects_outcome-ObjectHolds namespace name ds rest,
    )

-- When all is reported as programmed, the Gateway is programmed, each ListenerSet that a generated route
-- attaches to is accepted and programmed, each generated route is accepted by every parent that it asks for
-- with its references resolved, all at the current generation, and each generated policy and filter exists.
pub generated_ready-ObjectHolds :
    (namespace name : Text) (gateway : Found Reported) (read_set : Text → Found Reported)
    (desired : List Desired)
    → generated_ready namespace name gateway read_set desired ≡ ready
    → GatewayHolds gateway
      × (All (λ set. SetHolds (read_set set)) (desired_listener_sets (routes_of desired) namespace)
          × All ObjectHolds desired)
unfolding generated_ready
generated_ready-ObjectHolds namespace name gateway read_set desired e =
    let (programmed, rest) = and_then-ready _ _ e in
    let (sets, objects) = and_then-ready _ _ rest in
    (
      gateway_outcome-GatewayHolds gateway programmed,
      (
        sets_outcome-SetHolds read_set _ sets,
        objects_outcome-ObjectHolds namespace name desired objects,
      ),
    )
