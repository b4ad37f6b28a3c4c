-- ===== src/Tests/Plans.antt =====
-- Whole plans of the managed Gateway on small inputs.
use ingress_nginx_gateway_br.Common.{◌≤◌, ◌≡◌, ◌∷◌, refl, true, [], Memᴰ, All, length}
use ingress_nginx_gateway_br.Text.{codes, text_functions}
use ingress_nginx_gateway_br.Types.{gateway, listener_set}
use ingress_nginx_gateway_br.Gateway.{ListenerPlacement}
use ingress_nginx_gateway_br.Gateway.Placement.{placement_functions}
use ingress_nginx_gateway_br.Gateway.Hosts.{hosts_functions}
use ingress_nginx_gateway_br.Gateway.Groups.{groups_functions}
use ingress_nginx_gateway_br.Gateway.Emission.{
  GatewayPlan, build_managed_gateway, ReferenceGrant, emission_functions,
}
use ingress_nginx_gateway_br.Gateway.Emission.Limits.{IsAdmitted, build_managed_gateway-limits}
use ingress_nginx_gateway_br.Gateway.Emission.Grants.{IsNeeded, grants_complete, grants-IsNeeded}
use ingress_nginx_gateway_br.Tests.Samples.{toy_sha256, options_with, two_ingresses}

unfoldable pub plan_functions : Unit {0}
unfolding text_functions placement_functions hosts_functions groups_functions emission_functions
plan_functions = tt

abbrev two_plan : GatewayPlan
two_plan = build_managed_gateway toy_sha256 (options_with true []) two_ingresses

build_managed_gateway-limits_example :
    (length two_plan.managed.listeners ≤ 64) × All IsAdmitted two_plan.listener_sets
build_managed_gateway-limits_example =
    build_managed_gateway-limits toy_sha256 (options_with true []) two_ingresses

-- The host with its own Secret is served by the Gateway.
abbrev own_placement : ListenerPlacement
own_placement = record {
  listener_set = 0;
  secret = record { namespace = codes "web"; name = codes "own" };
}

grants_complete_example :
    (grant : ReferenceGrant) × Memᴰ grant two_plan.reference_grants
    × (grant.namespace ≡ codes "web")
    × (grant.secret ≡ codes "own")
    × (grant.from_namespace ≡ (options_with true []).namespace)
    × (grant.from_kinds ≡ gateway ∷ listener_set ∷ [])
unfolding plan_functions
grants_complete_example =
    grants_complete toy_sha256 (options_with true []) two_ingresses (codes "b.dev") own_placement
      (Memᴰ.tail (Memᴰ.head refl)) refl

grants-IsNeeded_example :
    All (IsNeeded toy_sha256 (options_with true []) two_plan.placements) two_plan.reference_grants
grants-IsNeeded_example = grants-IsNeeded toy_sha256 (options_with true []) two_ingresses
