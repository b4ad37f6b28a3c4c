-- ===== src/Translate/Policies.antt =====
-- What is attached to a route in internal/translator/translate.go: `addUpstreamVHostRewrite`,
-- `addUnverifiedBackendTLSFilters`, `buildBackendTLSPolicies` and `appendExtensionFilter`.
-- Kubernetes' IsDNS1123Subdomain is a parameter.
use ingress_nginx_gateway_br.Common.{
  ℕ, suc, Bool, true, false, not, ◌&&◌, ◌||◌, none, some, List, [], ◌∷◌, ◌++◌, map, if◌then◌else◌,
  any, add,
}
use ingress_nginx_gateway_br.Text.{
  Text, text_key, text_eq, codes, is_empty, trim_space, contains_any, sort_texts,
}
use ingress_nginx_gateway_br.Naming.{dns_label}
use ingress_nginx_gateway_br.Api.{Ingress, get_text}
use ingress_nginx_gateway_br.Types.{Issue}
use ingress_nginx_gateway_br.Gateway.Hosts.{error_issue}
use ingress_nginx_gateway_br.Gateway.Refs.{itoa}
use ingress_nginx_gateway_br.Annotations.{ann_upstream_vhost, ann_rewrite_target}
use ingress_nginx_gateway_br.Translate.BackendTls.{BackendTlsConfig}
use ingress_nginx_gateway_br.Translate.Settings.{ProxySettingsPolicy}
use ingress_nginx_gateway_br.Translate.Snippets.{SnippetsFilter, join_lines, BasicAuth}
use ingress_nginx_gateway_br.Translate.Rules.{
  RouteMatch, RouteFilter, url_rewrite, extension_ref, cors, request_redirect, BackendRef,
  RouteRule, HttpRoute, is_unsafe,
}

-- A BackendTLSPolicy for one Service.
pub record BackendTlsPolicy : Type 0 where
  pub name : Text
  pub namespace : Text
  pub service : Text
  pub ca_secret : Text
  pub hostname : Text

-- A ClientSettingsPolicy for one route.
pub record ClientSettingsPolicy : Type 0 where
  pub name : Text
  pub target : Text
  pub max_size : Text

-- The parts of a plan that `addPolicies` adds to.
pub record Attachments : Type 0 where
  pub backend_tls_policies : List BackendTlsPolicy
  pub client_settings_policies : List ClientSettingsPolicy
  pub proxy_settings_policies : List ProxySettingsPolicy
  pub authentication_filters : List BasicAuth
  pub snippets_filters : List SnippetsFilter
  pub issues : List Issue

-- `appendExtensionFilterToRule`
unfoldable pub append_extension_filter_to_rule : Text → Text → RouteRule → RouteRule
append_extension_filter_to_rule kind name rule = record rule {
  filters = rule.filters ++ extension_ref kind name ∷ [];
}

-- `appendExtensionFilter`
unfoldable pub append_extension_filter : Text → Text → HttpRoute → HttpRoute
append_extension_filter kind name route = record route {
  rules = map (append_extension_filter_to_rule kind name) route.rules;
}

-- The first rewrite gets the hostname; where there is none, one is added.
unfoldable pub merge_hostname : Text → List RouteFilter → List RouteFilter
merge_hostname host [] = url_rewrite none (some host) ∷ []
merge_hostname host (url_rewrite path hostname ∷ filters) = url_rewrite path (some host) ∷ filters
merge_hostname host (cors filter ∷ filters) = cors filter ∷ merge_hostname host filters
merge_hostname host (request_redirect scheme status ∷ filters) =
    request_redirect scheme status ∷ merge_hostname host filters
merge_hostname host (extension_ref kind name ∷ filters) =
    extension_ref kind name ∷ merge_hostname host filters

unfoldable pub with_hostname : Text → RouteRule → RouteRule
with_hostname host rule = record rule { filters = merge_hostname host rule.filters }

unfoldable pub vhost_issue : Issue
vhost_issue =
    error_issue ann_upstream_vhost
      (codes "value must be a DNS hostname supported by Gateway API URLRewrite")

module _ (is_subdomain : Text → Bool) where
  -- `addUpstreamVHostRewrite`
  unfoldable pub add_upstream_vhost_rewrite : Ingress → HttpRoute → HttpRoute × List Issue
  add_upstream_vhost_rewrite ing route =
      let host = trim_space (get_text ann_upstream_vhost ing.annotations) in
      if is_empty host
      then (route, [])
      else if is_unsafe host || (contains_any host (32 ∷ 9 ∷ []) || not (is_subdomain host))
      then (route, vhost_issue ∷ [])
      else (record route { rules = map (with_hostname host) route.rules }, [])

abbrev has_headers : RouteMatch → Bool
has_headers match_ = elim match_.headers [ [] ↦ false | _ ∷ _ ↦ true ]

-- `ruleNeedsOriginalRequestURI`
unfoldable pub rule_needs_original_request_uri : List RouteMatch → Bool
rule_needs_original_request_uri [] = true
rule_needs_original_request_uri (m ∷ []) = has_headers m
rule_needs_original_request_uri (m ∷ n ∷ matches) = true

-- The lines of the location that send to the backend over TLS.
unfoldable pub proxy_pass_lines : BackendTlsConfig → Text → Text → List Text
proxy_pass_lines config address request_uri =
    (if config.server_name then codes "proxy_ssl_server_name on;" ∷ [] else [])
    ++ ((if is_empty config.hostname
          then []
          else (codes "proxy_ssl_name " ++ (config.hostname ++ codes ";")) ∷ [])
        ++ (codes "if ($request_method) {\n  proxy_pass https://"
            ++ (address ++ (request_uri ++ codes ";\n}")))
          ∷ [])

module _ (sha256 : Text → List ℕ) (ing : Ingress) (config : BackendTlsConfig) where
  abbrev one_backend_issue : ℕ → Issue
  one_backend_issue idx = error_issue (codes "spec.rules[" ++ (itoa idx ++ codes "].backendRefs")) (
      codes "unverified HTTPS translation requires exactly one Service backend with a numeric port")

  abbrev backend_filter : HttpRoute → ℕ → RouteRule → BackendRef → SnippetsFilter
  backend_filter route idx rule backend = record {
    name = dns_label sha256 (route.name ∷ codes "backend-https" ∷ itoa idx ∷ []);
    server = none;
    location = some (
        join_lines (
          proxy_pass_lines config
            (backend.name ++ b'.' ∷ (route.namespace ++ (codes ".svc:" ++ itoa backend.port)))
            (if rule_needs_original_request_uri rule.matches
                && is_empty (trim_space (get_text ann_rewrite_target ing.annotations))
              then codes "$request_uri"
              else [])));
  }

  -- One rule: the rule with its filter, or an issue where it has not one backend.
  abbrev pub with_backend :
      HttpRoute → ℕ → RouteRule → List BackendRef → RouteRule × (List SnippetsFilter × List Issue)
  with_backend route idx rule [] = (rule, ([], one_backend_issue idx ∷ []))
  with_backend route idx rule (backend ∷ []) =
      let filter = backend_filter route idx rule backend in
      (append_extension_filter_to_rule (codes "SnippetsFilter") filter.name rule, (filter ∷ [], []))
  with_backend route idx rule (backend ∷ other ∷ backends) =
      (rule, ([], one_backend_issue idx ∷ []))

  unfoldable pub unverified_rules :
      HttpRoute → ℕ → List RouteRule → List RouteRule × (List SnippetsFilter × List Issue)
  unverified_rules route idx [] = ([], ([], []))
  unverified_rules route idx (rule ∷ rules) =
      let (first, (filters, issues)) = with_backend route idx rule rule.backend_refs in
      let (rest, (more, others)) = unverified_rules route (suc idx) rules in
      (first ∷ rest, (filters ++ more, issues ++ others))

  -- `addUnverifiedBackendTLSFilters`
  unfoldable pub add_unverified_backend_tls_filters :
      HttpRoute → Attachments → HttpRoute × Attachments
  add_unverified_backend_tls_filters route plan =
      let (rules, (filters, issues)) = unverified_rules route 0 route.rules in
      (
        record route { rules = rules },
        record plan {
          snippets_filters = plan.snippets_filters ++ filters;
          issues = plan.issues ++ issues;
        },
      )

  unfoldable pub add_backend_names : List BackendRef → List Text → List Text
  add_backend_names [] names = names
  add_backend_names (backend ∷ backends) names = add_backend_names backends (add backend.name names)

  unfoldable pub service_names : List RouteRule → List Text → List Text
  service_names [] names = names
  service_names (rule ∷ rules) names =
      service_names rules (add_backend_names rule.backend_refs names)

  -- `buildBackendTLSPolicies`
  unfoldable pub build_backend_tls_policies : HttpRoute → List BackendTlsPolicy
  build_backend_tls_policies route =
      map
        (λ service. record {
          name = dns_label sha256 (ing.name ∷ service ∷ codes "backend-tls" ∷ []);
          namespace = ing.namespace;
          service = service;
          ca_secret = config.secret_name;
          hostname = config.hostname;
        })
        (sort_texts (service_names route.rules []))

-- A policy of a name that the plan has is not added again.
unfoldable pub add_new_policies :
    List BackendTlsPolicy → List BackendTlsPolicy → List BackendTlsPolicy
add_new_policies policies [] = policies
add_new_policies policies (policy ∷ more) =
    add_new_policies
      (if any
          (λ existing.
            text_eq existing.namespace policy.namespace && text_eq existing.name policy.name)
          policies
        then policies
        else policies ++ policy ∷ [])
      more

-- The functions above, for the tests.
unfoldable pub policy_functions : Unit {0}
unfolding append_extension_filter_to_rule append_extension_filter merge_hostname with_hostname
    add_upstream_vhost_rewrite rule_needs_original_request_uri proxy_pass_lines unverified_rules
    add_unverified_backend_tls_filters add_backend_names service_names build_backend_tls_policies
    add_new_policies
policy_functions = tt
