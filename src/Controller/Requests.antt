-- ===== src/Controller/Requests.antt =====
-- Which Ingresses are reconciled when another object changes: the functions that map an event to
-- requests in internal/controller/ingress_controller.go and managed_gateway.go. What a list gives
-- is an argument; `none` is an error, and then nothing is requested.
use ingress_nginx_gateway_br.Common.{
  ℕ, Bool, false, not, ◌&&◌, ◌||◌, Option, none, some, List, [], ◌∷◌, ◌++◌, map, if◌then◌else◌, any,
  keep, sort_by,
}
use ingress_nginx_gateway_br.Text.{Text, text_key, text_eq, text_lt, codes, trim_space}
use ingress_nginx_gateway_br.Api.{
  NamespacedName, name_text, Ingress, HttpIngressPath, Backend, ServiceBackend, get_text,
}
use ingress_nginx_gateway_br.Annotations.{ann_auth_proxy_set_headers}
use ingress_nginx_gateway_br.Types.{
  managed_by_label, gateway_label, controller_name, gateway_label_value,
}
use ingress_nginx_gateway_br.Controller.Selection.{Config, selected}
use ingress_nginx_gateway_br.Controller.Observed.{has_label}
use ingress_nginx_gateway_br.Controller.Canary.{canary_assignments}

-- `certificateSyncKey` and `globalReconcileKey`
abbrev pub certificate_sync_key : NamespacedName
certificate_sync_key = record {
  namespace = [];
  name = codes "ingress-nginx-gateway-bridge-certificate-sync";
}

abbrev pub global_reconcile_key : NamespacedName
global_reconcile_key = record {
  namespace = [];
  name = codes "ingress-nginx-gateway-bridge-global-sync";
}

abbrev pub request_for : Ingress → NamespacedName
request_for ing = record { namespace = ing.namespace; name = ing.name }

-- Requests for the selected ones.
unfoldable pub selected_requests : Config → List Ingress → List NamespacedName
selected_requests config ingresses = map request_for (keep (λ ing. selected config ing) ingresses)

abbrev names_service : Text → Option ServiceBackend → Bool
names_service service none = false
names_service service (some backend) = text_eq backend.service service

abbrev backend_names : Text → Option Backend → Bool
backend_names service none = false
backend_names service (some backend) = names_service service backend.service_backend

abbrev paths_name : Text → Option (List HttpIngressPath) → Bool
paths_name service none = false
paths_name service (some paths) =
    any (λ path. names_service service path.backend.service_backend) paths

-- `ingressReferencesService`
unfoldable pub ingress_references_service : Ingress → Text → Bool
ingress_references_service ing service =
    backend_names service ing.default_backend
    || any (λ rule. paths_name service rule.http) ing.rules

-- `serviceToIngresses`, over the Ingresses of the Service's namespace.
unfoldable pub service_to_ingresses : Config → Text → Option (List Ingress) → List NamespacedName
service_to_ingresses config service none = []
service_to_ingresses config service (some ingresses) =
    if any (λ ing. selected config ing && ingress_references_service ing service) ingresses
    then selected_requests config ingresses
    else []

-- Whether the annotation for headers names the ConfigMap, with or without its namespace.
unfoldable pub names_config_map : Text → Text → Ingress → Bool
names_config_map namespace name ing =
    let reference = trim_space (get_text ann_auth_proxy_set_headers ing.annotations) in
    text_eq reference name || text_eq reference (namespace ++ b'/' ∷ name)

-- `configMapToIngresses`, over the Ingresses of the ConfigMap's namespace.
unfoldable pub config_map_to_ingresses : Text → Text → Option (List Ingress) → List NamespacedName
config_map_to_ingresses namespace name none = []
config_map_to_ingresses namespace name (some ingresses) =
    map request_for (keep (λ ing. names_config_map namespace name ing) ingresses)

-- `ingressToNamespaceIngresses`
unfoldable pub ingress_to_namespace_ingresses : Config → Option (List Ingress) → List NamespacedName
ingress_to_namespace_ingresses config none = []
ingress_to_namespace_ingresses config (some ingresses) = selected_requests config ingresses

abbrev request_before : NamespacedName → NamespacedName → Bool
request_before a b = text_lt (name_text a) (name_text b)

-- `allSelectedIngresses`
unfoldable pub all_selected_ingresses : Config → Option (List Ingress) → List NamespacedName
all_selected_ingresses config none = []
all_selected_ingresses config (some ingresses) =
    sort_by request_before (selected_requests config ingresses)

-- `gatewayToIngresses`
unfoldable pub gateway_to_ingresses :
    Config → NamespacedName → Option (List Ingress) → List NamespacedName
gateway_to_ingresses config changed ingresses =
    if text_eq changed.namespace config.gateway_namespace
      && text_eq changed.name config.gateway_name
    then all_selected_ingresses config ingresses ++ global_reconcile_key ∷ []
    else []

module _ (sha256 : Text → List ℕ) where
  -- `managedGrantToIngresses`, on the labels of the object.
  unfoldable pub managed_grant_to_ingresses :
      Config → List (Text × Text) → Option (List Ingress) → List NamespacedName
  managed_grant_to_ingresses config labels ingresses =
      if has_label managed_by_label controller_name labels
        && has_label gateway_label
            (gateway_label_value sha256 config.gateway_namespace config.gateway_name) labels
      then all_selected_ingresses config ingresses ++ global_reconcile_key ∷ []
      else []

  -- `managedListenerSetToIngresses`
  unfoldable pub managed_listener_set_to_ingresses :
      Config → Text → List (Text × Text) → Option (List Ingress) → List NamespacedName
  managed_listener_set_to_ingresses config namespace labels ingresses =
      if text_eq namespace config.gateway_namespace
      then managed_grant_to_ingresses config labels ingresses
      else []

-- The requests for the canaries of a primary.
unfoldable pub canaries_of : Text → Text → List (Text × Text) → List NamespacedName
canaries_of namespace primary [] = []
canaries_of namespace primary ((canary, assigned) ∷ assignments) =
    let rest = canaries_of namespace primary assignments in
    if text_eq assigned primary
    then record { namespace = namespace; name = canary } ∷ rest
    else rest

-- `translationToCanaries`, for a translation of this name.
unfoldable pub translation_to_canaries :
    Config → NamespacedName → Option (List Ingress) → List NamespacedName
translation_to_canaries config translation none = []
translation_to_canaries config translation (some ingresses) = sort_by request_before (
    canaries_of translation.namespace translation.name
      (canary_assignments (keep (λ ing. selected config ing && not ing.deleting) ingresses)))

-- The functions above, for the tests.
unfoldable pub request_functions : Unit {0}
unfolding selected_requests ingress_references_service service_to_ingresses names_config_map
    config_map_to_ingresses ingress_to_namespace_ingresses all_selected_ingresses
    gateway_to_ingresses managed_grant_to_ingresses managed_listener_set_to_ingresses canaries_of
    translation_to_canaries any keep sort_by
request_functions = tt
