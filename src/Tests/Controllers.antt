-- ===== src/Tests/Controllers.antt =====
-- The controller's decisions on small inputs.
use ingress_nginx_gateway_br.Common.{
  ℕ, ◌≡◌, ◌≢◌, refl, true, false, none, some, List, [], ◌∷◌, Memᴰ, arith, contains, length, lookup,
}
use ingress_nginx_gateway_br.Text.{Text, text_key, codes, text_functions}
use ingress_nginx_gateway_br.Api.{
  NamespacedName, name_key, Ingress, HttpIngressPath, Listener, https,
}
use ingress_nginx_gateway_br.Types.{
  ListenerRef, listener_set, GatewayOptions, managed_by_label, controller_name,
}
use ingress_nginx_gateway_br.Annotations.{ann_canary}
use ingress_nginx_gateway_br.Gateway.{Placements}
use ingress_nginx_gateway_br.Gateway.Hosts.{hosts_functions}
use ingress_nginx_gateway_br.Translate.Values.{values_functions}
use ingress_nginx_gateway_br.Translate.Hosts.{HostInput}
use ingress_nginx_gateway_br.Translate.Parents.{application_parent_refs}
use ingress_nginx_gateway_br.Controller.Selection.{Config}
use ingress_nginx_gateway_br.Controller.Canary.{
  older, primary_for, canary_assignments, canary_functions,
}
use ingress_nginx_gateway_br.Controller.Oldest.{IsPrimaryFor, primary_for-oldest, primary_for-found}
use ingress_nginx_gateway_br.Controller.Observed.{
  ListenerObject, record_observed_listeners, observed_functions,
}
use ingress_nginx_gateway_br.Controller.Lowest.{
  at_most, lowest, IsPlacedAt, record_observed_listeners-lowest,
  observed_listener_placements-gateway,
}
use ingress_nginx_gateway_br.Controller.Affected.{enqueue_affected_ingresses, affected_functions}
use ingress_nginx_gateway_br.Controller.Requeue.{enqueue_affected_ingresses-affected}
use ingress_nginx_gateway_br.Controller.ParentStatus.{RouteObject, desired_listener_sets}
use ingress_nginx_gateway_br.Controller.Attached.{desired_listener_sets-attached}
use ingress_nginx_gateway_br.Tests.Samples.{ingress, secret, toy_sha256, placement}

controller_functions : Unit {0}
unfolding text_functions hosts_functions values_functions canary_functions observed_functions
    affected_functions
controller_functions = tt

abbrev root_path : HttpIngressPath
root_path = record { path = []; path_type = none; backend = record { service_backend = none } }

-- An Ingress of one host, made at the given time.
abbrev made_at : ℕ → Text → Ingress
made_at created name =
    record (ingress name [] (record { host = codes "a.dev"; http = some (root_path ∷ []) } ∷ [])) {
      created = created;
    }

abbrev canary_ingress : Ingress
canary_ingress = record (made_at 9 (codes "canary")) {
  annotations = (ann_canary, codes "true") ∷ [];
}

abbrev shop_ingresses : List Ingress
shop_ingresses = made_at 5 (codes "late") ∷ canary_ingress ∷ made_at 3 (codes "early") ∷ []

assigned : canary_assignments shop_ingresses ≡ (codes "canary", codes "early") ∷ []
unfolding controller_functions
assigned = refl

primary_for-oldest_example :
    IsPrimaryFor shop_ingresses canary_ingress (made_at 3 (codes "early"))
    × ((other : Ingress)
        → IsPrimaryFor shop_ingresses canary_ingress other
        → older other (made_at 3 (codes "early")) ≡ false)
unfolding controller_functions
primary_for-oldest_example =
    primary_for-oldest shop_ingresses canary_ingress (made_at 3 (codes "early")) refl

primary_for-found_example : primary_for shop_ingresses canary_ingress ≢ none
unfolding controller_functions
primary_for-found_example =
    primary_for-found shop_ingresses canary_ingress (made_at 5 (codes "late")) refl refl
      (Memᴰ.head refl, (refl, refl))

abbrev https_listener_at : Text → Listener
https_listener_at hostname = record {
  section = hostname;
  hostname = some hostname;
  port = 443;
  protocol = https;
  certificate_refs = some (secret ∷ []);
}

-- A placement in the third ListenerSet was recorded before.
abbrev recorded : Placements
recorded = (codes "a.dev", placement 3) ∷ []

record_observed_listeners-lowest_example : IsPlacedAt (lowest 1 (lookup (codes "a.dev") recorded)) (
    lookup
      (codes "a.dev")
      (record_observed_listeners recorded (codes "gw") 1 (https_listener_at (codes "a.dev") ∷ [])))
unfolding controller_functions
record_observed_listeners-lowest_example =
    record_observed_listeners-lowest recorded (codes "gw") 1
      (https_listener_at (codes "a.dev") ∷ []) (https_listener_at (codes "a.dev")) (codes "a.dev")
      secret (Memᴰ.head refl) refl

abbrev pub edge_config : Config
edge_config = record {
  gateway_namespace = codes "gw";
  gateway_name = codes "edge";
  gateway_class_name = codes "nginx";
  nginx_proxy_name = [];
  manage_gateway = true;
  allow_listener_sets = true;
  http_section_name = codes "http";
  https_section_name = codes "https";
  collapse_wildcard_certificates = true;
  listener_sets_available = false;
  watch_ingress_without_class = false;
  ingress_classes = codes "nginx" ∷ [];
  allow_snippets = false;
  strict = false;
  update_ingress_status = false;
}

abbrev edge_gateway : ListenerObject
edge_gateway = record {
  namespace = codes "gw";
  name = codes "edge";
  labels = (managed_by_label, controller_name) ∷ [];
  listeners = https_listener_at (codes "a.dev") ∷ [];
}

abbrev edge_placements : Placements
edge_placements = (codes "a.dev", placement 0) ∷ []

observed_listener_placements-gateway_example :
    at_most 0 (lookup (codes "a.dev") edge_placements) ≡ true
unfolding controller_functions
observed_listener_placements-gateway_example =
    observed_listener_placements-gateway toy_sha256 edge_config edge_gateway [] edge_placements
      (https_listener_at (codes "a.dev")) (codes "a.dev") secret refl (Memᴰ.head refl) refl refl

abbrev queued : List NamespacedName
queued =
    enqueue_affected_ingresses (some 2) shop_ingresses (codes "a.dev" ∷ []) (codes "a.dev" ∷ []) []

queue_is_full : length queued ≡ 2
unfolding controller_functions
queue_is_full = refl

enqueue_affected_ingresses-affected_example :
    contains
      (record { namespace = codes "web"; name = codes "late" })
      (enqueue_affected_ingresses
        (some 3)
        shop_ingresses
        (codes "a.dev" ∷ [])
        (codes "a.dev" ∷ [])
        [])
    ≡ true
unfolding controller_functions
enqueue_affected_ingresses-affected_example =
    enqueue_affected_ingresses-affected 3 shop_ingresses (codes "a.dev" ∷ []) (codes "a.dev") [] []
      (made_at 5 (codes "late")) (ground arith) (Memᴰ.head refl) refl

abbrev edge_options : GatewayOptions
edge_options = record {
  namespace = codes "gw";
  name = codes "edge";
  http_section_name = codes "http";
  https_section_name = codes "https";
  tls_sections = [];
}

abbrev set_listener : ListenerRef
set_listener = record { kind = listener_set; name = codes "edge-1"; section_name = codes "https-a" }

abbrev set_input : HostInput
set_input = record {
  hostname = codes "a.dev";
  paths = [];
  tls_hostname = codes "a.dev";
  tls_listener = some set_listener;
}

abbrev set_route : RouteObject
set_route = record {
  namespace = codes "web";
  parent_refs = application_parent_refs (codes "web") set_input edge_options true false;
}

desired_listener_sets-attached_example :
    contains (codes "edge-1") (desired_listener_sets (set_route ∷ []) (codes "gw")) ≡ true
unfolding controller_functions
desired_listener_sets-attached_example =
    desired_listener_sets-attached (codes "web") set_input set_listener edge_options true set_route
      (set_route ∷ []) refl refl refl refl refl refl (Memᴰ.head refl)
