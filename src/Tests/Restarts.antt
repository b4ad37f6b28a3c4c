-- ===== src/Tests/Restarts.antt =====
-- A restart of the controller on a small cluster.
use ingress_nginx_gateway_br.Common.{
  some_inj, ◌≡◌, ◌<◌, refl, subst, Bool, true, false, not, ◌&&◌, some, List, [], ◌∷◌, map, lookup,
  ltb, all, arith, Bool-cases, inl, inr,
}
use ingress_nginx_gateway_br.Text.{text_key, text_eq, codes, is_empty}
use ingress_nginx_gateway_br.Gateway.{ListenerPlacement, Placements}
use ingress_nginx_gateway_br.Gateway.Emission.{GatewayPlan}
use ingress_nginx_gateway_br.Types.{gateway_label_value}
use ingress_nginx_gateway_br.Gateway.Emission.Limits.{text_eq_same}
use ingress_nginx_gateway_br.Gateway.Refs.{itoa}
use ingress_nginx_gateway_br.Controller.Selection.{Config}
use ingress_nginx_gateway_br.Controller.Observed.{not_found, observed_functions}
use ingress_nginx_gateway_br.Controller.Cluster.{Object, listener_set, cluster_functions}
use ingress_nginx_gateway_br.Controller.ManagedObjects.{
  gateway_labels, gateway_object, listener_set_object,
}
use ingress_nginx_gateway_br.Controller.ManagedPlan.{
  Reads, reconcile_managed_gateway, managed_plan_functions,
}
use ingress_nginx_gateway_br.Controller.Recalled.{AreReadable}
use ingress_nginx_gateway_br.Controller.Restarted.{planned}
use ingress_nginx_gateway_br.Controller.Resumed.{
  EndsSame, started, running, reconcile_managed_gateway-EndsSame,
}
use ingress_nginx_gateway_br.Tests.Samples.{toy_sha256, two_ingresses}
use ingress_nginx_gateway_br.Tests.Server.{list_server, server_functions}
use ingress_nginx_gateway_br.Tests.Caches.{toy_json}
use ingress_nginx_gateway_br.Tests.Controllers.{edge_config}
use ingress_nginx_gateway_br.Tests.Clusters.{nothing_known}
use ingress_nginx_gateway_br.Tests.Plans.{plan_functions}

abbrev sets_config : Config
sets_config = record edge_config {
  listener_sets_available = true;
  watch_ingress_without_class = true;
}

-- One host stood in the second ListenerSet.
abbrev old_placements : Placements
old_placements =
    (
      codes "b.dev",
      record { listener_set = 2; secret = record { namespace = codes "web"; name = codes "own" } },
    )
    ∷ []

abbrev old_plan : GatewayPlan
old_plan = planned toy_sha256 sets_config [] old_placements two_ingresses

abbrev planned_objects : List Object
planned_objects = gateway_object old_plan.managed ∷ map listener_set_object old_plan.listener_sets

-- The list of readable placements.
is_readable : ListenerPlacement → Bool
is_readable p = not (is_empty p.secret.namespace) && ltb p.listener_set 9223372036854775808

all-AreReadable : (ps : Placements) → all (λ entry. is_readable entry.1) ps ≡ true → AreReadable ps
unfolding all lookup is_readable
all-AreReadable [] readable h p known = absurd cc
all-AreReadable ((k, q) ∷ ps) readable h p known = elim (Bool-cases (text_eq k h)) [
  | inl same ↦
      let e : some q ≡ some p = ground (arith, same, known) in
      subst (λ r. (is_empty r.secret.namespace ≡ false) × (r.listener_set < 9223372036854775808))
        (some_inj e) (ground (arith, readable), ground (arith, readable))
  | inr other ↦ all-AreReadable ps (ground (arith, readable)) h p (ground (arith, other, known))
]

unfoldable restart_functions : Unit {0}
unfolding plan_functions cluster_functions observed_functions managed_plan_functions
    server_functions toy_sha256
restart_functions = tt

reads_two : Reads (List Object)
reads_two = record {
  list_ingresses = λ s namespace. some two_ingresses;
  get_secret = λ s key. not_found;
}

sets_of_old_plan : map (λ set. set.index_label) old_plan.listener_sets ≡ codes "2" ∷ []
unfolding restart_functions itoa
sets_of_old_plan = refl

old_plan-AreReadable : AreReadable old_plan.placements
unfolding restart_functions is_readable all
old_plan-AreReadable = all-AreReadable old_plan.placements refl

sets_listed :
    list_server.list planned_objects listener_set
      (some sets_config.gateway_namespace)
      (gateway_labels toy_sha256 sets_config)
    ≡ some (map listener_set_object old_plan.listener_sets)
unfolding restart_functions
sets_listed = rw (text_eq_same (gateway_label_value toy_sha256 (codes "gw") (codes "edge"))) refl

reconcile_managed_gateway-EndsSame_example :
    EndsSame
      (reconcile_managed_gateway toy_sha256 toy_json
        (some 8)
        list_server
        reads_two
        sets_config
        (started nothing_known)
        planned_objects)
      (reconcile_managed_gateway toy_sha256 toy_json
        (some 8)
        list_server
        reads_two
        sets_config
        (running old_plan.placements nothing_known)
        planned_objects)
unfolding restart_functions itoa
reconcile_managed_gateway-EndsSame_example =
    reconcile_managed_gateway-EndsSame toy_sha256 toy_json (some 8) list_server reads_two
      sets_config [] old_placements two_ingresses nothing_known planned_objects old_plan-AreReadable
      refl (λ available. sets_listed)
