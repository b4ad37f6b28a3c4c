-- ===== src/Tests/Events.antt =====
-- The handlers that map an event to requests, on small inputs.
use ingress_nginx_gateway_br.Common.{ℕ, ◌≡◌, refl, true, false, none, some, List, [], ◌∷◌}
use ingress_nginx_gateway_br.Text.{codes, text_functions}
use ingress_nginx_gateway_br.Api.{NamespacedName, Ingress, name_text}
use ingress_nginx_gateway_br.Annotations.{ann_auth_proxy_set_headers, ann_canary}
use ingress_nginx_gateway_br.Gateway.Hosts.{clean_host}
use ingress_nginx_gateway_br.Controller.Selection.{Config, selected, selected_by_class}
use ingress_nginx_gateway_br.Controller.Canary.{canary_functions}
use ingress_nginx_gateway_br.Controller.Observed.{observed_functions}
use ingress_nginx_gateway_br.Controller.Affected.{
  ListenerSetVersion, listener_set_changed, affected_functions,
}
use ingress_nginx_gateway_br.Controller.Requests.{
  service_to_ingresses, config_map_to_ingresses, gateway_to_ingresses, translation_to_canaries,
  global_reconcile_key, request_functions,
}
use ingress_nginx_gateway_br.Translate.Values.{values_functions}
use ingress_nginx_gateway_br.Tests.Samples.{ingress}
use ingress_nginx_gateway_br.Tests.Controllers.{edge_config}
use ingress_nginx_gateway_br.Tests.Routes.{numbered_path}

event_functions : Unit {0}
unfolding text_functions values_functions canary_functions observed_functions request_functions
    selected selected_by_class clean_host name_text
event_functions = tt

abbrev any_class : Config
any_class = record edge_config { watch_ingress_without_class = true }

abbrev cart : Ingress
cart =
    record (ingress (codes "cart") []
      (record { host = codes "a.dev"; http = some (numbered_path ∷ []) } ∷ [])) {
        annotations = (ann_auth_proxy_set_headers, codes " web/headers") ∷ [];
      }

abbrev trial : Ingress
trial = record cart { name = codes "trial"; annotations = (ann_canary, codes "true") ∷ [] }

abbrev all_three : List Ingress
all_three = trial ∷ cart ∷ ingress (codes "blog") [] [] ∷ []

abbrev in_web : Ingress → NamespacedName
in_web ing = record { namespace = codes "web"; name = ing.name }

-- A Service that a selected Ingress names concerns the whole namespace.
service_requests :
    service_to_ingresses any_class (codes "cart") (some all_three)
    ≡ in_web trial ∷ in_web cart ∷ in_web (ingress (codes "blog") [] []) ∷ []
unfolding event_functions
service_requests = refl

other_service : service_to_ingresses any_class (codes "search") (some all_three) ≡ []
unfolding event_functions
other_service = refl

failed_list : service_to_ingresses any_class (codes "cart") none ≡ []
unfolding event_functions
failed_list = refl

config_map_requests :
    config_map_to_ingresses (codes "web") (codes "headers") (some all_three) ≡ in_web cart ∷ []
unfolding event_functions
config_map_requests = refl

-- The requests for the Gateway are sorted, and the global one is the last.
gateway_requests :
    gateway_to_ingresses any_class
      (record { namespace = codes "gw"; name = codes "edge" })
      (some all_three)
    ≡ in_web (ingress (codes "blog") [] []) ∷ in_web cart ∷ in_web trial ∷ global_reconcile_key ∷ []
unfolding event_functions
gateway_requests = refl

canary_requests :
    translation_to_canaries any_class (in_web cart) (some all_three) ≡ in_web trial ∷ []
unfolding event_functions
canary_requests = refl

abbrev version : ℕ → ListenerSetVersion
version generation = record { generation = generation; labels = []; conditions = [] }

-- A change of nothing but what the predicate ignores is no event.
same_version :
    listener_set_changed (λ a b. true) (λ a b. true) (some (version 2)) (some (version 2)) ≡ false
unfolding affected_functions
same_version = refl

new_generation :
    listener_set_changed (λ a b. true) (λ a b. true) (some (version 2)) (some (version 3)) ≡ true
unfolding affected_functions
new_generation = refl
