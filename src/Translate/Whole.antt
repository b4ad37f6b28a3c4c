-- ===== src/Translate/Whole.antt =====
-- `Translate` in internal/translator/translate.go. The resolvers of named ports and of ConfigMaps,
-- `url.Parse`, `netip.ParsePrefix` and IsDNS1123Subdomain are parameters.
use ingress_nginx_gateway_br.Common.{
  ℕ, ◌+◌, Bool, not, ◌&&◌, Option, none, List, [], ◌∷◌, ◌++◌, map, if◌then◌else◌, ltb, length,
}
use ingress_nginx_gateway_br.Text.{Text, text_eq, codes, is_empty}
use ingress_nginx_gateway_br.Api.{Ingress, get_text}
use ingress_nginx_gateway_br.Types.{Issue, Options}
use ingress_nginx_gateway_br.Gateway.Hosts.{error_issue}
use ingress_nginx_gateway_br.Annotations.{ann_backend_protocol, ann_canary}
use ingress_nginx_gateway_br.Translate.Values.{
  parse_bool, ssl_redirect_enabled, is_acme_http01_solver,
}
use ingress_nginx_gateway_br.Translate.Checks.{
  validate_canary, check_unknown_annotations, Prefix, validate_whitelist_source_range,
}
use ingress_nginx_gateway_br.Translate.BackendTls.{BackendTlsConfig, parse_backend_tls}
use ingress_nginx_gateway_br.Translate.Hosts.{HostInput, collect_hosts}
use ingress_nginx_gateway_br.Translate.Rules.{
  HttpRoute, BuiltRule, build_rules, all_issues, build_route, build_redirect_route,
}
use ingress_nginx_gateway_br.Translate.ExternalAuth.{Url}
use ingress_nginx_gateway_br.Translate.Policies.{Attachments}
use ingress_nginx_gateway_br.Translate.Attach.{with_issues, add_policies}
use ingress_nginx_gateway_br.Translate.Compose.{
  Plan, protocol_of, http_version_issues, ConfigMapResolver, resolve_auth_proxy_headers, CanaryHost,
  canaries_for, add_canaries, too_many_canary_rules_issue,
}

-- What is the same for all hosts of an Ingress.
pub record Settled : Type 0 where
  pub headers : List (Text × Text)
  pub backend_tls : Option BackendTlsConfig
  pub canaries : List (Text × List CanaryHost)

abbrev pub no_attachments : List Issue → Attachments
no_attachments issues = record {
  backend_tls_policies = [];
  client_settings_policies = [];
  proxy_settings_policies = [];
  authentication_filters = [];
  snippets_filters = [];
  issues = issues;
}

module _ (is_subdomain : Text → Bool) where
  -- The protocol to the backend.
  unfoldable pub backend_tls_of : Ingress → Option BackendTlsConfig × List Issue
  backend_tls_of ing =
      if text_eq (protocol_of ing.annotations) (codes "HTTPS")
      then parse_backend_tls is_subdomain ing
      else if text_eq (protocol_of ing.annotations) (codes "HTTP")
      then (none, [])
      else (
        none,
        error_issue ann_backend_protocol
              (codes "backend protocol cannot be reproduced by the current NGF translation")
            ∷ [],
      )

module _ (resolve_port : Option (Text → Text → Text → Option ℕ)) where
  -- The rules of the canaries of a host, from the given index on.
  unfoldable pub canary_rules : List CanaryHost → ℕ → List BuiltRule
  canary_rules [] index = []
  canary_rules (canary ∷ canaries) index =
      build_rules resolve_port canary.ingress canary.input.paths index
      ++ canary_rules canaries (index + length canary.input.paths)

abbrev pub limit_canary_rules : ℕ → List Issue
limit_canary_rules n = if ltb 16 n then too_many_canary_rules_issue ∷ [] else []

module _ (sha256 : Text → List ℕ) (resolve_port : Option (Text → Text → Text → Option ℕ))
    (options : Options) (ing : Ingress) where
  -- The route of a host with the rules of its canaries, its issues, and the snippets of its location.
  unfoldable pub served_route :
      List (Text × List CanaryHost) → HostInput → HttpRoute × (List Issue × List Text)
  served_route canaries input =
      let (route, (issues, snippets)) = build_route sha256 resolve_port options ing input in
      let more =
        canary_rules resolve_port (canaries_for input.hostname canaries) (length route.rules) in
      let rules = route.rules ++ map (λ b. b.rule) more in
      (
        record route { rules = rules },
        (issues ++ (all_issues more ++ limit_canary_rules (length rules)), snippets),
      )

  -- A host with TLS is redirected from HTTP, unless it is a canary or answers an ACME challenge.
  unfoldable pub redirects : HostInput → List HttpRoute
  redirects input =
      if not (is_empty input.tls_hostname)
        && (ssl_redirect_enabled ing.annotations
            && (not (parse_bool (get_text ann_canary ing.annotations))
                && not (is_acme_http01_solver ing)))
      then build_redirect_route sha256 resolve_port options ing input.hostname ∷ []
      else []

module _ (sha256 : Text → List ℕ) (resolve_port : Option (Text → Text → Text → Option ℕ))
    (parse_url : Text → Option Url) (is_subdomain : Text → Bool) (options : Options)
    (ing : Ingress) where
  -- One host.
  unfoldable pub add_input : Settled → HostInput → Plan → Plan
  add_input settled input plan =
      let (route, (issues, snippets)) =
        served_route sha256 resolve_port options ing settled.canaries input in
      let (served, attached) =
        add_policies sha256 parse_url is_subdomain ing snippets settled.headers settled.backend_tls
          options route (with_issues issues plan.attached) in
      record {
        http_routes = plan.http_routes ++ served ∷ redirects sha256 resolve_port options ing input;
        attached = attached;
      }

  unfoldable pub add_inputs : Settled → List HostInput → Plan → Plan
  add_inputs settled [] plan = plan
  add_inputs settled (input ∷ inputs) plan =
      add_inputs settled inputs (add_input settled input plan)

module _ (sha256 : Text → List ℕ) (resolve_port : Option (Text → Text → Text → Option ℕ))
    (resolve_config_map : Option ConfigMapResolver) (parse_url : Text → Option Url)
    (parse_prefix : Text → Option Prefix) (is_subdomain : Text → Bool) (options : Options)
    (ing : Ingress) where
  -- The issues of the annotations.
  unfoldable pub annotation_issues : List Issue
  annotation_issues =
      check_unknown_annotations options.strict ing.annotations
      ++ (validate_whitelist_source_range parse_prefix ing.annotations
          ++ (validate_canary ing
              ++ ((backend_tls_of is_subdomain ing).1 ++ http_version_issues ing.annotations)))

  -- `Translate`
  unfoldable pub translate : Plan
  translate =
      let (headers, header_issues) = resolve_auth_proxy_headers resolve_config_map ing in
      let canaries =
        add_canaries ing options options.canary_ingresses
          (record { by_host = []; canary_footprints = []; issues = [] }) in
      let (inputs, host_issues) = collect_hosts ing options in
      add_inputs sha256 resolve_port parse_url is_subdomain options ing
        (record {
          headers = headers;
          backend_tls = (backend_tls_of is_subdomain ing).0;
          canaries = canaries.by_host;
        })
        inputs
        (record {
          http_routes = [];
          attached =
              no_attachments
                (annotation_issues ++ (header_issues ++ (canaries.issues ++ host_issues)));
        })

-- The functions above, for the tests.
unfoldable pub whole_functions : Unit {0}
unfolding backend_tls_of canary_rules served_route redirects add_input add_inputs annotation_issues
    translate
whole_functions = tt
