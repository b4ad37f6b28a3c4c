-- ===== src/Translate/Policyless.antt =====
-- Where the settings of the proxy are written as snippets, `Translate` makes no policy of settings.
use ingress_nginx_gateway_br.Common.{
  ℕ, ◌≡◌, refl, Bool, true, Option, none, some, List, [], ◌∷◌, Bool-cases, inl, inr,
}
use ingress_nginx_gateway_br.Text.{Text}
use ingress_nginx_gateway_br.Api.{Ingress}
use ingress_nginx_gateway_br.Types.{Issue, Options}
use ingress_nginx_gateway_br.Translate.Checks.{Prefix}
use ingress_nginx_gateway_br.Translate.BackendTls.{BackendTlsConfig}
use ingress_nginx_gateway_br.Translate.Hosts.{HostInput, collect_hosts}
use ingress_nginx_gateway_br.Translate.Rules.{HttpRoute}
use ingress_nginx_gateway_br.Translate.ExternalAuth.{Url}
use ingress_nginx_gateway_br.Translate.Snippets.{SnippetsFilter, BasicAuth, build_basic_auth}
use ingress_nginx_gateway_br.Translate.Policies.{
  Attachments, add_upstream_vhost_rewrite, add_unverified_backend_tls_filters,
}
use ingress_nginx_gateway_br.Translate.Attach.{
  with_issues, with_auth, with_snippets, add_settings, add_backend_tls, add_policies,
}
use ingress_nginx_gateway_br.Translate.Compose.{Plan, ConfigMapResolver}
use ingress_nginx_gateway_br.Translate.Whole.{
  Settled, served_route, add_input, add_inputs, translate,
}

-- No policy for the settings of clients or of the proxy.
abbrev pub IsPolicyless : Attachments → Type 0
IsPolicyless plan = (plan.client_settings_policies ≡ []) × (plan.proxy_settings_policies ≡ [])

with_auth-IsPolicyless :
    (result : Option BasicAuth × List Issue) (route : HttpRoute) (plan : Attachments)
    → IsPolicyless plan
    → IsPolicyless (with_auth result (route, plan)).1
with_auth-IsPolicyless (none, issues) route plan free = free
with_auth-IsPolicyless (some filter, issues) route plan free = free

with_snippets-IsPolicyless :
    (result : Option SnippetsFilter × List Issue) (route : HttpRoute) (plan : Attachments)
    → IsPolicyless plan
    → IsPolicyless (with_snippets result (route, plan)).1
with_snippets-IsPolicyless (none, issues) route plan free = free
with_snippets-IsPolicyless (some filter, issues) route plan free = free

module _ (sha256 : Text → List ℕ) (parse_url : Text → Option Url) (is_subdomain : Text → Bool)
    (ing : Ingress) where
  add_backend_tls-IsPolicyless :
      (config : Option BackendTlsConfig) (route : HttpRoute) (plan : Attachments)
      → IsPolicyless plan
      → IsPolicyless (add_backend_tls sha256 parse_url is_subdomain ing config (route, plan)).1
  unfolding add_unverified_backend_tls_filters
  add_backend_tls-IsPolicyless none route plan free = free
  add_backend_tls-IsPolicyless (some config) route plan free = elim (Bool-cases config.verified) [
    | inl verified ↦ simp (verified) free
    | inr unverified ↦ simp (unverified) free
  ]

  add_settings-IsPolicyless :
      (name : Text) (plan : Attachments)
      → IsPolicyless plan
      → IsPolicyless (add_settings sha256 parse_url is_subdomain ing true name plan).1
  unfolding add_settings
  add_settings-IsPolicyless name plan free = free

  add_policies-IsPolicyless :
      (generated : List Text) (headers : List (Text × Text)) (backend_tls : Option BackendTlsConfig)
      (options : Options) (route : HttpRoute) (plan : Attachments)
      → options.settings_as_snippets ≡ true
      → IsPolicyless plan
      → IsPolicyless
          (add_policies sha256 parse_url is_subdomain ing generated headers backend_tls options
            route plan).1
  unfolding add_policies
  add_policies-IsPolicyless generated headers backend_tls options route plan snippets free =
      let (renamed, vhost_issues) = add_upstream_vhost_rewrite is_subdomain ing route in
      let reported = with_issues vhost_issues plan in
      let settled =
        add_settings sha256 parse_url is_subdomain ing options.settings_as_snippets route.name
          reported in
      let kept : IsPolicyless settled.1 =
        rw snippets (add_settings-IsPolicyless route.name reported free) in
      let secured =
        add_backend_tls sha256 parse_url is_subdomain ing backend_tls (renamed, settled.1) in
      let authenticated = with_auth (build_basic_auth sha256 ing.annotations route.name) secured in
      with_snippets-IsPolicyless _ authenticated.0 authenticated.1 (
        with_auth-IsPolicyless _ secured.0 secured.1
          (add_backend_tls-IsPolicyless backend_tls renamed settled.1 kept))

  module _ (resolve_port : Option (Text → Text → Text → Option ℕ)) (options : Options)
      (snippets : options.settings_as_snippets ≡ true) (settled : Settled) where
    add_inputs-IsPolicyless :
        (inputs : List HostInput) (plan : Plan)
        → IsPolicyless plan.attached
        → IsPolicyless
            (add_inputs sha256 resolve_port parse_url is_subdomain options ing settled inputs
              plan).attached
    unfolding add_inputs add_input
    add_inputs-IsPolicyless [] plan free = free
    add_inputs-IsPolicyless (input ∷ inputs) plan free =
        let (route, (issues, lines)) =
          served_route sha256 resolve_port options ing settled.canaries input in
        add_inputs-IsPolicyless inputs
          (add_input sha256 resolve_port parse_url is_subdomain options ing settled input plan)
          (add_policies-IsPolicyless lines settled.headers settled.backend_tls options route
            (with_issues issues plan.attached) snippets free)

module _ (sha256 : Text → List ℕ) (resolve_port : Option (Text → Text → Text → Option ℕ))
    (resolve_config_map : Option ConfigMapResolver) (parse_url : Text → Option Url)
    (parse_prefix : Text → Option Prefix) (is_subdomain : Text → Bool) (options : Options)
    (ing : Ingress) where
  -- With settings as snippets, the plan has no policy of settings.
  pub translate-IsPolicyless :
      options.settings_as_snippets ≡ true
      → IsPolicyless
          (translate sha256 resolve_port resolve_config_map parse_url parse_prefix is_subdomain
            options ing).attached
  unfolding translate
  translate-IsPolicyless snippets =
      add_inputs-IsPolicyless sha256 parse_url is_subdomain ing resolve_port options snippets _
        (collect_hosts ing options).0 _ (refl, refl)
