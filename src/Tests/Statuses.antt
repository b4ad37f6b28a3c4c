-- ===== src/Tests/Statuses.antt =====
-- Readiness on small clusters.
use ingress_nginx_gateway_br.Common.{◌≡◌, refl, some, none, List, [], ◌∷◌, All}
use ingress_nginx_gateway_br.Text.{Text, codes, text_functions}
use ingress_nginx_gateway_br.Api.{ParentReference}
use ingress_nginx_gateway_br.Types.{listener_set_kind}
use ingress_nginx_gateway_br.Controller.Observed.{Found, found, not_found}
use ingress_nginx_gateway_br.Controller.ParentStatus.{
  Condition, condition_true, RouteParentStatus, nginx_gateway_controller, desired_listener_sets,
  status_functions,
}
use ingress_nginx_gateway_br.Controller.Readiness.{
  pending, Reported, Desired, http_route, routes_of, generated_ready, readiness_functions,
}
use ingress_nginx_gateway_br.Controller.Programmed.{
  GatewayHolds, SetHolds, ObjectHolds, generated_ready-ObjectHolds,
}

-- A condition that is true at the first generation.
abbrev holding : Text → Condition
holding kind = record { kind = kind; status = condition_true; observed_generation = 1 }

abbrev programmed_object : Found Reported
programmed_object = found (record {
  generation = 1;
  conditions = holding (codes "Accepted") ∷ holding (codes "Programmed") ∷ [];
})

abbrev set_reference : ParentReference
set_reference = record {
  group = none;
  kind = some listener_set_kind;
  namespace = some (codes "gw");
  name = codes "edge-1";
  section_name = none;
}

abbrev accepted_parent : RouteParentStatus
accepted_parent = record {
  controller = nginx_gateway_controller;
  reference = set_reference;
  conditions = holding (codes "Accepted") ∷ holding (codes "ResolvedRefs") ∷ [];
}

-- A route that attaches to the ListenerSet, as its parent reports it.
abbrev one_route : List Desired
one_route =
    http_route (record { namespace = codes "web"; parent_refs = set_reference ∷ [] })
      (found (record { generation = 1; namespace = codes "web"; parents = accepted_parent ∷ [] }))
    ∷ []

abbrev all_sets : Text → Found Reported
all_sets name = programmed_object

abbrev no_sets : Text → Found Reported
no_sets name = not_found

missing_set :
    generated_ready (codes "gw") (codes "edge") programmed_object no_sets one_route ≡ pending
unfolding text_functions status_functions readiness_functions
missing_set = refl

generated_ready-ObjectHolds_example :
    GatewayHolds programmed_object
    × (All
          (λ set. SetHolds (all_sets set))
          (desired_listener_sets (routes_of one_route) (codes "gw"))
        × All ObjectHolds one_route)
unfolding text_functions status_functions readiness_functions
generated_ready-ObjectHolds_example =
    generated_ready-ObjectHolds (codes "gw") (codes "edge") programmed_object all_sets one_route
      refl
