-- ===== src/Translate/Rules.antt =====
-- The rules of a route in internal/translator/translate.go: `validateGeneratedRewrite`,
-- `buildRule`, `buildRoute` and `buildRedirectRoute`. The resolver of named ports is a parameter.
use ingress_nginx_gateway_br.Common.{
  ℕ, suc, Bool, false, not, ◌&&◌, ◌||◌, Option, none, some, List, [], ◌∷◌, ◌++◌, map, if◌then◌else◌,
  ltb, length,
}
use ingress_nginx_gateway_br.Text.{
  Text, text_key, codes, is_empty, trim_space, contains_any, has_byte, has_prefix,
}
use ingress_nginx_gateway_br.Naming.{dns_label}
use ingress_nginx_gateway_br.Api.{
  Ingress, HttpIngressPath, ServiceBackend, ParentReference, PathType, exact, prefix,
  implementation_specific, get_text,
}
use ingress_nginx_gateway_br.Types.{
  Issue, Options, managed_by_label, controller_name, source_name_label, source_namespace_label,
  source_uid_label, source_name_label_value,
}
use ingress_nginx_gateway_br.Gateway.Hosts.{error_issue}
use ingress_nginx_gateway_br.Gateway.Refs.{itoa}
use ingress_nginx_gateway_br.Annotations.{
  ann_enable_cors, ann_rewrite_target, ann_use_regex, ann_canary,
}
use ingress_nginx_gateway_br.Translate.Values.{
  parse_bool, host_name_part, ssl_redirect_enabled, is_acme_http01_solver, backend_port,
}
use ingress_nginx_gateway_br.Translate.Checks.{HeaderMatch, header_canary_match}
use ingress_nginx_gateway_br.Translate.Hosts.{HostInput}
use ingress_nginx_gateway_br.Translate.Parents.{parent_ref, application_parent_refs}
use ingress_nginx_gateway_br.Translate.Cors.{CorsFilter, cors_filter}

pub data MatchType : Type 0 where
  path_prefix path_exact regular_expression : MatchType

-- `HTTPRouteMatch`; no match of the bridge has a method or query parameters.
pub record RouteMatch : Type 0 where
  pub match_type : MatchType
  pub value : Text
  pub headers : List HeaderMatch

-- `HTTPRouteFilter`, by its type.
pub data RouteFilter : Type 0 where
  cors : CorsFilter → RouteFilter
  url_rewrite : Option Text → Option Text → RouteFilter
  request_redirect : Text → ℕ → RouteFilter
  extension_ref : Text → Text → RouteFilter

pub record BackendRef : Type 0 where
  pub name : Text
  pub port : ℕ

-- `HTTPRouteRule`
pub record RouteRule : Type 0 where
  pub matches : List RouteMatch
  pub backend_refs : List BackendRef
  pub filters : List RouteFilter

-- `HTTPRoute`
pub record HttpRoute : Type 0 where
  pub name : Text
  pub namespace : Text
  pub labels : List (Text × Text)
  pub parent_refs : List ParentReference
  pub hostnames : List Text
  pub rules : List RouteRule

-- `nginxUnsafePattern`: a carriage return, a line feed, a semicolon or a brace.
unfoldable pub is_unsafe : Text → Bool
is_unsafe text = contains_any text (13 ∷ 10 ∷ codes ";{}")

abbrev has_blank : Text → Bool
has_blank text = contains_any text (32 ∷ 9 ∷ [])

-- `validateGeneratedRewrite`, negated.
unfoldable pub is_bad_rewrite : Text → Text → Bool
is_bad_rewrite path target =
    (is_unsafe path || has_blank path)
    || (is_unsafe target || (has_blank target || not (has_prefix target (codes "/"))))

abbrev pub path_or_root : Text → Text
path_or_root path = if is_empty path then codes "/" else path

abbrev pub declared_type : Option PathType → MatchType
declared_type (some exact) = path_exact
declared_type (some prefix) = path_prefix
declared_type (some implementation_specific) = path_prefix
declared_type none = path_prefix

abbrev canary_headers : Option HeaderMatch → List HeaderMatch
canary_headers none = []
canary_headers (some header) = header ∷ []

-- The match of a path.
unfoldable pub rule_match : List (Text × Text) → HttpIngressPath → RouteMatch
rule_match annotations path = record {
  match_type =
      if parse_bool (get_text ann_use_regex annotations)
        || has_byte b'$' (get_text ann_rewrite_target annotations)
      then regular_expression
      else declared_type path.path_type;
  value = path_or_root path.path;
  headers =
      if parse_bool (get_text ann_canary annotations)
      then canary_headers (header_canary_match annotations).0
      else [];
}

-- What the rewrite target adds: a filter, issues, and a snippet that is empty where there is none.
unfoldable pub rewrite_parts : List (Text × Text) → Text → List RouteFilter × (List Issue × Text)
rewrite_parts annotations path =
    let target = trim_space (get_text ann_rewrite_target annotations) in
    if is_empty target
    then ([], ([], []))
    else if has_byte b'$' target
    then (if is_bad_rewrite path target
        then (
          [],
          (
            error_issue ann_rewrite_target (codes "unsafe characters or not an absolute path") ∷ [],
            [],
          ),
        )
        else ([], ([], codes "rewrite " ++ (path ++ b' ' ∷ (target ++ codes " break;")))))
    else if has_prefix target (codes "/")
    then (url_rewrite (some target) none ∷ [], ([], []))
    else (
      [],
      (error_issue ann_rewrite_target (codes "rewrite target must be an absolute path") ∷ [], []),
    )

abbrev cors_filters : Option CorsFilter → List RouteFilter
cors_filters none = []
cors_filters (some filter) = cors filter ∷ []

abbrev pub service_name : Option ServiceBackend → Text
service_name none = []
service_name (some backend) = backend.service

abbrev pub port_or_issue : ℕ → Option ℕ → ℕ × List Issue
port_or_issue index none = (
  0,
  error_issue (codes "spec.rules.paths[" ++ (itoa index ++ codes "].backend"))
        (codes "the port of the backend cannot be resolved")
      ∷ [],
)
port_or_issue index (some port) = (port, [])

-- `RouteRule`s with their issues and the snippet of the rewrite.
pub record BuiltRule : Type 0 where
  pub rule : RouteRule
  pub issues : List Issue
  pub rewrite_snippet : Text

module _ (resolve_port : Option (Text → Text → Text → Option ℕ)) where
  -- `buildRule`
  unfoldable pub build_rule : Ingress → HttpIngressPath → ℕ → BuiltRule
  build_rule ing path index =
      let service = path.backend.service_backend in
      let (port, port_issues) =
        port_or_issue index (backend_port resolve_port ing.namespace service) in
      let (filter, cors_issues) = cors_filter ing.annotations in
      let (rewrites, (rewrite_issues, snippet)) =
        rewrite_parts ing.annotations (path_or_root path.path) in
      record {
        rule = record {
          matches = rule_match ing.annotations path ∷ [];
          backend_refs = record { name = service_name service; port = port } ∷ [];
          filters = cors_filters filter ++ rewrites;
        };
        issues = port_issues ++ (cors_issues ++ rewrite_issues);
        rewrite_snippet = snippet;
      }

  -- The loop over the paths from the given index on.
  unfoldable pub build_rules : Ingress → List HttpIngressPath → ℕ → List BuiltRule
  build_rules ing [] index = []
  build_rules ing (path ∷ paths) index =
      build_rule ing path index ∷ build_rules ing paths (suc index)

unfoldable pub all_issues : List BuiltRule → List Issue
all_issues [] = []
all_issues (built ∷ rules) = built.issues ++ all_issues rules

unfoldable pub all_snippets : List BuiltRule → List Text
all_snippets [] = []
all_snippets (built ∷ rules) =
    (if is_empty built.rewrite_snippet then [] else built.rewrite_snippet ∷ [])
    ++ all_snippets rules

unfoldable pub too_many_rules_issue : Issue
too_many_rules_issue =
    error_issue (codes "spec.rules.paths")
      (codes "a generated HTTPRoute cannot contain more than 16 rules")

module _ (sha256 : Text → List ℕ) where
  -- `sourceLabels`
  unfoldable pub ingress_labels : Ingress → List (Text × Text)
  ingress_labels ing =
      (managed_by_label, controller_name)
      ∷ (source_name_label, source_name_label_value sha256 ing.name)
      ∷ (source_namespace_label, ing.namespace)
      ∷ (source_uid_label, ing.uid)
      ∷ []

abbrev named_host : Text → List Text
named_host hostname = if is_empty hostname then [] else hostname ∷ []

abbrev pub cors_suppression : Text
cors_suppression =
    codes
      "proxy_hide_header Access-Control-Allow-Origin;\nproxy_hide_header Access-Control-Allow-Credentials;\nproxy_hide_header Access-Control-Allow-Methods;\nproxy_hide_header Access-Control-Allow-Headers;\nproxy_hide_header Access-Control-Expose-Headers;\nproxy_hide_header Access-Control-Max-Age;"

module _ (sha256 : Text → List ℕ) (resolve_port : Option (Text → Text → Text → Option ℕ))
    (options : Options) where
  -- `buildRoute`: the route, its issues, and the snippets of its location.
  unfoldable pub build_route : Ingress → HostInput → HttpRoute × (List Issue × List Text)
  build_route ing input =
      let built = build_rules resolve_port ing input.paths 0 in
      (
        record {
          name = dns_label sha256 (ing.name ∷ host_name_part input.hostname ∷ []);
          namespace = ing.namespace;
          labels = ingress_labels sha256 ing;
          parent_refs =
              application_parent_refs ing.namespace input options.gateway
                (not (is_empty input.tls_hostname) && not (ssl_redirect_enabled ing.annotations))
                (is_acme_http01_solver ing);
          hostnames = named_host input.hostname;
          rules = map (λ b. b.rule) built;
        },
        (
          (if ltb 16 (length input.paths) then too_many_rules_issue ∷ [] else [])
              ++ all_issues built,
          (if parse_bool (get_text ann_enable_cors ing.annotations)
                then cors_suppression ∷ []
                else [])
              ++ all_snippets built,
        ),
      )

  -- `buildRedirectRoute`
  unfoldable pub build_redirect_route : Ingress → Text → HttpRoute
  build_redirect_route ing hostname = record {
    name = dns_label sha256 (ing.name ∷ host_name_part hostname ∷ codes "redirect" ∷ []);
    namespace = ing.namespace;
    labels = ingress_labels sha256 ing;
    parent_refs = parent_ref ing.namespace false options.gateway ∷ [];
    hostnames = hostname ∷ [];
    rules =
        record {
          matches = record { match_type = path_prefix; value = codes "/"; headers = [] } ∷ [];
          backend_refs = [];
          filters = request_redirect (codes "https") 308 ∷ [];
        }
        ∷ [];
  }

-- The functions above, for the tests.
unfoldable pub rule_functions : Unit {0}
unfolding is_unsafe is_bad_rewrite rule_match rewrite_parts build_rule build_rules all_issues
    all_snippets ingress_labels build_route build_redirect_route
rule_functions = tt
