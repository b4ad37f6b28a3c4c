-- ===== src/Controller/Readiness.antt =====
-- `generatedReady`, `attachedPolicyReady` and `extensionFilterReady` in internal/controller/status.go:
-- whether the Gateway and all that was generated for an Ingress is in effect.
use ingress_nginx_gateway_br.Common.{
  ℕ, Bool, true, false, not, ◌||◌, Option, none, some, List, [], ◌∷◌, if◌then◌else◌, nat_beq,
}
use ingress_nginx_gateway_br.Text.{Text, text_eq, codes}
use ingress_nginx_gateway_br.Api.{ParentReference}
use ingress_nginx_gateway_br.Controller.Observed.{Found, found, not_found, failed}
use ingress_nginx_gateway_br.Controller.ParentStatus.{
  Condition, ConditionStatus, condition_true, condition_false, condition_unknown, RouteParentStatus,
  RouteObject, nginx_gateway_controller, matching_parent_status, desired_listener_sets, or_default,
}

-- The statuses True, Unknown and False, and an error of a read.
pub data Outcome : Type 0 where
  ready pending rejected broken : Outcome

-- `apimeta.FindStatusCondition`: the first condition of the kind.
unfoldable pub find_condition : Text → List Condition → Option Condition
find_condition kind [] = none
find_condition kind (c ∷ cs) =
    let later = find_condition kind cs in if text_eq c.kind kind then some c else later

-- A Gateway or ListenerSet with its reported conditions.
pub record Reported : Type 0 where
  pub generation : ℕ
  pub conditions : List Condition

abbrev pub status_outcome : ConditionStatus → Outcome
status_outcome condition_true = ready
status_outcome condition_false = rejected
status_outcome condition_unknown = pending

-- A missing, outdated or unknown condition is pending.
unfoldable pub reported_outcome : ℕ → Option Condition → Outcome
reported_outcome generation none = pending
reported_outcome generation (some c) =
    if nat_beq c.observed_generation generation then status_outcome c.status else pending

-- The next check counts only where this one is ready.
abbrev pub and_then : Outcome → Outcome → Outcome
and_then ready next = next
and_then pending next = pending
and_then rejected next = rejected
and_then broken next = broken

unfoldable pub gateway_outcome : Found Reported → Outcome
gateway_outcome not_found = pending
gateway_outcome failed = broken
gateway_outcome (found gateway) =
    reported_outcome gateway.generation (find_condition (codes "Programmed") gateway.conditions)

unfoldable pub set_outcome : Found Reported → Outcome
set_outcome not_found = pending
set_outcome failed = broken
set_outcome (found set) =
    and_then (reported_outcome set.generation (find_condition (codes "Accepted") set.conditions))
      (reported_outcome set.generation (find_condition (codes "Programmed") set.conditions))

unfoldable pub sets_outcome : (Text → Found Reported) → List Text → Outcome
sets_outcome read [] = ready
sets_outcome read (name ∷ names) =
    let rest = sets_outcome read names in and_then (set_outcome (read name)) rest

-- What one controller reports about a policy or filter; a filter's report has no reference.
pub record PolicyReport : Type 0 where
  pub controller : Text
  pub reference : ParentReference
  pub conditions : List Condition

pub record PolicyState : Type 0 where
  pub generation : ℕ
  pub reports : List PolicyReport

abbrev pub is_true : ConditionStatus → Bool
is_true condition_true = true
is_true condition_false = false
is_true condition_unknown = false

-- An accepted condition of the generation: none, true, or another status.
unfoldable pub current_condition : ℕ → Option Condition → Option Bool
current_condition generation none = none
current_condition generation (some c) =
    if nat_beq c.observed_generation generation then some (is_true c.status) else none

abbrev pub accepted_outcome : Bool → Outcome
accepted_outcome true = ready
accepted_outcome false = pending

-- The loop of `attachedPolicyReady` and of `extensionFilterReady`, which differ in the type of the reports.
unfoldable pub reports_outcome : ℕ → Bool → List PolicyReport → Outcome
reports_outcome generation found_accepted [] = accepted_outcome found_accepted
reports_outcome generation found_accepted (r ∷ rs) =
    let skipped = reports_outcome generation found_accepted rs in
    let accepted = reports_outcome generation true rs in
    if not (text_eq r.controller nginx_gateway_controller)
    then skipped
    else elim (current_condition generation (find_condition (codes "Accepted") r.conditions)) [
      | none ↦ skipped
      | some holds ↦ if holds then accepted else rejected
    ]

-- `attachedPolicyReady` and `extensionFilterReady`, with the read before them; a missing object is
-- pending too.
unfoldable pub policy_outcome : Found PolicyState → Outcome
policy_outcome not_found = pending
policy_outcome failed = broken
policy_outcome (found state) = reports_outcome state.generation false state.reports

abbrev pub required_outcome : Option Bool → Outcome
required_outcome none = pending
required_outcome (some holds) = if holds then ready else rejected

-- A condition that may be missing, but not outdated or other than true.
unfoldable pub optional_outcome : ℕ → Option Condition → Outcome
optional_outcome generation none = ready
optional_outcome generation (some c) = required_outcome (current_condition generation (some c))

abbrev pub is_target : Text → Text → PolicyReport → Bool
is_target gateway_namespace gateway_name r =
    if not (text_eq r.controller nginx_gateway_controller)
      || not (text_eq r.reference.name gateway_name)
    then false
    else text_eq (or_default gateway_namespace r.reference.namespace) gateway_namespace

-- The loop over the ancestors of a BackendTLSPolicy.
unfoldable pub ancestors_outcome : Text → Text → ℕ → Bool → List PolicyReport → Outcome
ancestors_outcome namespace name generation found_ancestor [] = accepted_outcome found_ancestor
ancestors_outcome namespace name generation found_ancestor (r ∷ rs) =
    let skipped = ancestors_outcome namespace name generation found_ancestor rs in
    let later = ancestors_outcome namespace name generation true rs in
    if is_target namespace name r
    then and_then
        (required_outcome
          (current_condition generation (find_condition (codes "Accepted") r.conditions)))
        (and_then (optional_outcome generation (find_condition (codes "ResolvedRefs") r.conditions))
          later)
    else skipped

unfoldable pub backend_tls_outcome : Text → Text → Found PolicyState → Outcome
backend_tls_outcome namespace name not_found = pending
backend_tls_outcome namespace name failed = broken
backend_tls_outcome namespace name (found state) =
    ancestors_outcome namespace name state.generation false state.reports

pub record RouteState : Type 0 where
  pub generation : ℕ
  pub namespace : Text
  pub parents : List RouteParentStatus

-- Both conditions of the parent's status.
abbrev pub parent_outcome : ℕ → Option RouteParentStatus → Outcome
parent_outcome generation none = pending
parent_outcome generation (some parent) =
    and_then
      (required_outcome
        (current_condition generation (find_condition (codes "Accepted") parent.conditions)))
      (required_outcome
        (current_condition generation (find_condition (codes "ResolvedRefs") parent.conditions)))

unfoldable pub parents_outcome : RouteState → List ParentReference → Outcome
parents_outcome state [] = ready
parents_outcome state (want ∷ wants) =
    let rest = parents_outcome state wants in
    and_then
      (parent_outcome state.generation (matching_parent_status state.parents want state.namespace))
      rest

abbrev pub some_parent_outcome :
    RouteState → List RouteParentStatus → List ParentReference → Outcome
some_parent_outcome state [] wants = pending
some_parent_outcome state (p ∷ ps) wants = parents_outcome state wants

unfoldable pub route_outcome : RouteObject → Found RouteState → Outcome
route_outcome route not_found = pending
route_outcome route failed = broken
route_outcome route (found state) = some_parent_outcome state state.parents route.parent_refs

-- A generated object, with what the API server gives when it is read.
pub data Desired : Type 0 where
  policy filter backend_tls : Found PolicyState → Desired
  http_route : RouteObject → Found RouteState → Desired
  other_object : Desired

unfoldable pub object_outcome : Text → Text → Desired → Outcome
object_outcome namespace name (policy state) = policy_outcome state
object_outcome namespace name (filter state) = policy_outcome state
object_outcome namespace name (backend_tls state) = backend_tls_outcome namespace name state
object_outcome namespace name (http_route route state) = route_outcome route state
object_outcome namespace name other_object = ready

unfoldable pub objects_outcome : Text → Text → List Desired → Outcome
objects_outcome namespace name [] = ready
objects_outcome namespace name (d ∷ ds) =
    let rest = objects_outcome namespace name ds in and_then (object_outcome namespace name d) rest

-- The routes among the generated objects.
abbrev pub routes_of : List Desired → List RouteObject
routes_of [] = []
routes_of (http_route route state ∷ ds) = route ∷ routes_of ds
routes_of (policy state ∷ ds) = routes_of ds
routes_of (filter state ∷ ds) = routes_of ds
routes_of (backend_tls state ∷ ds) = routes_of ds
routes_of (other_object ∷ ds) = routes_of ds

-- `generatedReady`, for the Gateway of this namespace and name.
unfoldable pub generated_ready :
    Text → Text → Found Reported → (Text → Found Reported) → List Desired → Outcome
generated_ready namespace name gateway read_set desired = and_then (gateway_outcome gateway) (
    and_then (sets_outcome read_set (desired_listener_sets (routes_of desired) namespace))
      (objects_outcome namespace name desired))

-- The functions above, for the tests.
unfoldable pub readiness_functions : Unit {0}
unfolding find_condition reported_outcome gateway_outcome set_outcome sets_outcome current_condition
    reports_outcome policy_outcome optional_outcome ancestors_outcome backend_tls_outcome
    parents_outcome route_outcome object_outcome objects_outcome generated_ready
    desired_listener_sets matching_parent_status
readiness_functions = tt
