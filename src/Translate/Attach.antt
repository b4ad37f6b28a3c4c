-- ===== src/Translate/Attach.antt =====
-- `addPolicies` in internal/translator/translate.go: the steps that attach policies and filters to a
-- route, in the order of the code. `url.Parse` and IsDNS1123Subdomain are parameters.
use ingress_nginx_gateway_br.Common.{
  ℕ, Bool, true, false, not, Option, none, some, List, [], ◌∷◌, ◌++◌, if◌then◌else◌,
}
use ingress_nginx_gateway_br.Text.{Text, codes, is_empty, to_lower, trim_space}
use ingress_nginx_gateway_br.Naming.{dns_label}
use ingress_nginx_gateway_br.Api.{Ingress, get_text}
use ingress_nginx_gateway_br.Types.{Issue, Options}
use ingress_nginx_gateway_br.Gateway.Hosts.{error_issue}
use ingress_nginx_gateway_br.Annotations.{ann_proxy_body_size}
use ingress_nginx_gateway_br.Translate.BackendTls.{BackendTlsConfig}
use ingress_nginx_gateway_br.Translate.Settings.{
  is_nginx_size, build_proxy_settings_snippets, ProxySettingsPolicy, build_proxy_policy,
}
use ingress_nginx_gateway_br.Translate.ExternalAuth.{Url}
use ingress_nginx_gateway_br.Translate.Snippets.{
  SnippetsFilter, build_snippets, BasicAuth, build_basic_auth,
}
use ingress_nginx_gateway_br.Translate.Rules.{HttpRoute}
use ingress_nginx_gateway_br.Translate.Policies.{
  Attachments, append_extension_filter, add_upstream_vhost_rewrite,
  add_unverified_backend_tls_filters, build_backend_tls_policies, add_new_policies,
}

abbrev pub with_issues : List Issue → Attachments → Attachments
with_issues issues plan = record plan { issues = plan.issues ++ issues }

abbrev body_size_of : Ingress → Text
body_size_of ing = to_lower (trim_space (get_text ann_proxy_body_size ing.annotations))

-- A body size is refused where settings are written as snippets.
unfoldable pub refused_body_size : Ingress → List Issue
refused_body_size ing =
    if is_empty (body_size_of ing)
    then []
    else if not (is_nginx_size (body_size_of ing))
    then error_issue ann_proxy_body_size
        (codes "value is not supported by NGINX client_max_body_size")
      ∷ []
    else error_issue ann_proxy_body_size (
        codes
          "proxy-body-size cannot be applied faithfully to overlapping non-canary routes; consolidate the routes into one HTTPRoute")
      ∷ []

abbrev pub with_proxy_policy : Option ProxySettingsPolicy × List Issue → Attachments → Attachments
with_proxy_policy (none, issues) plan = with_issues issues plan
with_proxy_policy (some policy, issues) plan = record plan {
  proxy_settings_policies = plan.proxy_settings_policies ++ policy ∷ [];
  issues = plan.issues ++ issues;
}

abbrev pub with_auth :
    Option BasicAuth × List Issue → HttpRoute × Attachments → HttpRoute × Attachments
with_auth (none, issues) (route, plan) = (route, with_issues issues plan)
with_auth (some filter, issues) (route, plan) = (
  append_extension_filter (codes "AuthenticationFilter") filter.name route,
  record plan {
    authentication_filters = plan.authentication_filters ++ filter ∷ [];
    issues = plan.issues ++ issues;
  },
)

abbrev pub with_snippets :
    Option SnippetsFilter × List Issue → HttpRoute × Attachments → HttpRoute × Attachments
with_snippets (none, issues) (route, plan) = (route, with_issues issues plan)
with_snippets (some filter, issues) (route, plan) = (
  append_extension_filter (codes "SnippetsFilter") filter.name route,
  record plan {
    snippets_filters = plan.snippets_filters ++ filter ∷ [];
    issues = plan.issues ++ issues;
  },
)

module _ (sha256 : Text → List ℕ) (parse_url : Text → Option Url) (is_subdomain : Text → Bool)
    (ing : Ingress) where
  -- The policy of the body size.
  unfoldable pub add_body_size : Text → Attachments → Attachments
  add_body_size route_name plan =
      if is_empty (body_size_of ing)
      then plan
      else if not (is_nginx_size (body_size_of ing))
      then with_issues
          (error_issue ann_proxy_body_size
              (codes "value is not supported by NGF ClientSettingsPolicy")
            ∷ [])
          plan
      else record plan {
        client_settings_policies =
            plan.client_settings_policies
            ++ record {
              name = dns_label sha256 (route_name ∷ codes "client" ∷ []);
              target = route_name;
              max_size = body_size_of ing;
            }
              ∷ [];
      }

  -- The settings of the proxy, as snippets or as policies; the first component are the snippets.
  unfoldable pub add_settings : Bool → Text → Attachments → List Text × Attachments
  add_settings true route_name plan =
      let (snippets, issues) = build_proxy_settings_snippets ing.annotations in
      (snippets, with_issues (issues ++ refused_body_size ing) plan)
  add_settings false route_name plan = (
    [],
    with_proxy_policy (build_proxy_policy sha256 ing.annotations route_name)
        (add_body_size route_name plan),
  )

  abbrev pub add_backend_tls :
      Option BackendTlsConfig → HttpRoute × Attachments → HttpRoute × Attachments
  add_backend_tls none (route, plan) = (route, plan)
  add_backend_tls (some config) (route, plan) =
      if config.verified
      then (
        route,
        record plan {
          backend_tls_policies =
              add_new_policies plan.backend_tls_policies
                (build_backend_tls_policies sha256 ing config route);
        },
      )
      else add_unverified_backend_tls_filters sha256 ing config route plan

  -- `addPolicies`
  unfoldable pub add_policies :
      List Text
      → List (Text × Text)
      → Option BackendTlsConfig
      → Options
      → HttpRoute
      → Attachments
      → HttpRoute × Attachments
  add_policies generated headers backend_tls options route plan =
      let (renamed, vhost_issues) = add_upstream_vhost_rewrite is_subdomain ing route in
      let (snippets, plan1) =
        add_settings options.settings_as_snippets route.name (with_issues vhost_issues plan) in
      with_snippets
        (build_snippets sha256 parse_url ing.annotations route.name (generated ++ snippets) headers
          options.allow_snippets)
        (with_auth (build_basic_auth sha256 ing.annotations route.name)
          (add_backend_tls backend_tls (renamed, plan1)))

-- The functions above, for the tests.
unfoldable pub attach_functions : Unit {0}
unfolding refused_body_size add_body_size add_settings add_policies
attach_functions = tt
