-- ===== src/Controller/Translated.antt =====
-- The translation that `Reconcile` of internal/controller/ingress_controller.go makes: `Translate` with
-- `resolveServicePort` and `resolveConfigMap`, and the objects of its plan. What the server gives for
-- a Service and a ConfigMap, and the JSON of an object, are parameters.
use ingress_nginx_gateway_br.Common.{ℕ, Bool, Option, none, some, List, [], ◌∷◌, map, if◌then◌else◌}
use ingress_nginx_gateway_br.Text.{Text, text_eq}
use ingress_nginx_gateway_br.Api.{NamespacedName, Ingress}
use ingress_nginx_gateway_br.Types.{Options}
use ingress_nginx_gateway_br.Translate.Checks.{Prefix}
use ingress_nginx_gateway_br.Translate.Settings.{ProxySettingsPolicy}
use ingress_nginx_gateway_br.Translate.Rules.{HttpRoute, ingress_labels}
use ingress_nginx_gateway_br.Translate.ExternalAuth.{Url}
use ingress_nginx_gateway_br.Translate.Snippets.{SnippetsFilter, BasicAuth}
use ingress_nginx_gateway_br.Translate.Policies.{BackendTlsPolicy, ClientSettingsPolicy}
use ingress_nginx_gateway_br.Translate.Compose
use ingress_nginx_gateway_br.Translate.Whole.{translate}
use ingress_nginx_gateway_br.Controller.Observed.{Found, found, not_found, failed}
use ingress_nginx_gateway_br.Controller.Cluster.{
  Kind, http_route, backend_tls_policy, client_settings_policy, proxy_settings_policy,
  authentication_filter, snippets_filter, Object, document,
}
use ingress_nginx_gateway_br.Controller.TranslationStatus.{Plan}
use ingress_nginx_gateway_br.Controller.Reconcile.{Environment}

pub record ServicePort : Type 0 where
  pub name : Text
  pub port : ℕ

-- The JSON of each kind of object.
pub record Documents : Type 0 where
  pub of_route : HttpRoute → Text
  pub of_backend_tls : BackendTlsPolicy → Text
  pub of_client_settings : ClientSettingsPolicy → Text
  pub of_proxy_settings : ProxySettingsPolicy → Text
  pub of_authentication : BasicAuth → Text
  pub of_snippets : SnippetsFilter → Text

-- What `Translate` works with: the packages that it calls, and what `Get` gives for the ports of a Service
-- and for a ConfigMap.
pub record Translator (S : Type 0) : Type 0 where
  pub parse_url : Text → Option Url
  pub parse_prefix : Text → Option Prefix
  pub is_subdomain : Text → Bool
  pub documents : Documents
  pub get_service : S → NamespacedName → Found (List ServicePort)
  pub get_config_map : S → NamespacedName → Found (List (Text × Text))

unfoldable pub find_port : Text → List ServicePort → Option ℕ
find_port name [] = none
find_port name (port ∷ ports) =
    if text_eq port.name name then some port.port else find_port name ports

-- `resolveServicePort`, from what `Get` gives; `none` is an error.
unfoldable pub resolve_service_port : Text → Found (List ServicePort) → Option ℕ
resolve_service_port name (found ports) = find_port name ports
resolve_service_port name not_found = none
resolve_service_port name failed = none

-- `resolveConfigMap`
unfoldable pub resolve_config_map : Found (List (Text × Text)) → Option (List (Text × Text))
resolve_config_map (found entries) = some entries
resolve_config_map not_found = none
resolve_config_map failed = none

module _ (sha256 : Text → List ℕ) (documents : Documents) (ing : Ingress) where
  -- An object with the labels of the Ingress, in its namespace.
  abbrev pub generated_object : Kind → Text → Text → Object
  generated_object kind name text = record {
    key = record { kind = kind; namespace = ing.namespace; name = name };
    labels = ingress_labels sha256 ing;
    content = document text;
  }

  abbrev pub route_object : HttpRoute → Object
  route_object route = record {
    key = record { kind = http_route; namespace = route.namespace; name = route.name };
    labels = route.labels;
    content = document (documents.of_route route);
  }

  abbrev pub backend_tls_object : BackendTlsPolicy → Object
  backend_tls_object policy = record {
    key = record { kind = backend_tls_policy; namespace = policy.namespace; name = policy.name };
    labels = ingress_labels sha256 ing;
    content = document (documents.of_backend_tls policy);
  }

  -- The plan with its objects as the client writes them.
  unfoldable pub translated_plan : Compose.Plan → Plan
  translated_plan plan =
      let attached = plan.attached in
      record {
        http_routes = map route_object plan.http_routes;
        backend_tls_policies = map backend_tls_object attached.backend_tls_policies;
        client_settings_policies =
            map
              (λ policy.
                generated_object client_settings_policy policy.name
                  (documents.of_client_settings policy))
              attached.client_settings_policies;
        proxy_settings_policies =
            map
              (λ policy.
                generated_object proxy_settings_policy policy.name
                  (documents.of_proxy_settings policy))
              attached.proxy_settings_policies;
        authentication_filters =
            map
              (λ filter.
                generated_object authentication_filter filter.name
                  (documents.of_authentication filter))
              attached.authentication_filters;
        snippets_filters =
            map
              (λ filter.
                generated_object snippets_filter filter.name (documents.of_snippets filter))
              attached.snippets_filters;
        issues = attached.issues;
        delegated_to = [];
      }

module _ {S : Type 0} (sha256 : Text → List ℕ) (translator : Translator S) where
  -- `Translate` as a step of the reconciliation.
  unfoldable pub translate_ingress : S → Ingress → Options → Plan
  translate_ingress s ing options = translated_plan sha256 translator.documents ing (
      translate sha256
        (some (λ namespace service port_name.
          resolve_service_port port_name
            (translator.get_service s (record { namespace = namespace; name = service }))))
        (some (λ namespace name.
          resolve_config_map
            (translator.get_config_map s (record { namespace = namespace; name = name }))))
        translator.parse_url translator.parse_prefix translator.is_subdomain options ing)

-- The controller with this translation.
abbrev pub with_translator : {S : Type 0} → Translator S → Environment S → Environment S
with_translator translator env = record env { translate = translate_ingress env.sha256 translator }

-- The functions above, for the tests.
unfoldable pub translated_functions : Unit {0}
unfolding find_port resolve_service_port resolve_config_map translated_plan translate_ingress
translated_functions = tt
