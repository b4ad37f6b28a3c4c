-- ===== src/Translate/Compose.antt =====
-- The start of `Translate` in internal/translator/translate.go: the backend protocol, the headers of
-- `resolveAuthProxyHeaders` and the canaries by host. The resolver of ConfigMaps is a parameter.
use ingress_nginx_gateway_br.Common.{
  ◌-◌, not, ◌&&◌, Option, none, some, List, [], ◌∷◌, ◌++◌, map, if◌then◌else◌, leb, lookup, insert,
}
use ingress_nginx_gateway_br.Text.{Text, text_key, text_eq, codes, is_empty, trim_space, cut}
use ingress_nginx_gateway_br.Api.{Ingress, HttpIngressPath, get_text}
use ingress_nginx_gateway_br.Types.{Issue, Options}
use ingress_nginx_gateway_br.Gateway.Hosts.{error_issue}
use ingress_nginx_gateway_br.Annotations.{
  ann_backend_protocol, ann_proxy_http_version, ann_auth_proxy_set_headers, ann_auth_url,
  ann_canary,
}
use ingress_nginx_gateway_br.Translate.Checks.{validate_canary, inherited_canary_ingress}
use ingress_nginx_gateway_br.Translate.Hosts.{HostInput, collect_hosts}
use ingress_nginx_gateway_br.Translate.Rules.{HttpRoute, path_or_root}
use ingress_nginx_gateway_br.Translate.Policies.{Attachments}

-- `Plan`, as far as `Translate` fills it.
pub record Plan : Type 0 where
  pub http_routes : List HttpRoute
  pub attached : Attachments

-- `strings.ToUpper`
unfoldable pub to_upper : Text → Text
to_upper s = map (λ c. if leb b'a' c && leb c b'z' then c - 32 else c) s

unfoldable pub protocol_of : List (Text × Text) → Text
protocol_of annotations =
    let protocol = to_upper (trim_space (get_text ann_backend_protocol annotations)) in
    if is_empty protocol then codes "HTTP" else protocol

unfoldable pub http_version_issues : List (Text × Text) → List Issue
http_version_issues annotations =
    let version = trim_space (get_text ann_proxy_http_version annotations) in
    if not (is_empty version) && not (text_eq version (codes "1.1"))
    then error_issue ann_proxy_http_version (codes "NGF uses upstream HTTP/1.1") ∷ []
    else []

abbrev header_error : Text → List (Text × Text) × List Issue
header_error message = ([], error_issue ann_auth_proxy_set_headers message ∷ [])

-- The name of the ConfigMap in the namespace of the Ingress; `none` where another namespace is named.
unfoldable pub config_map_name : Text → Text → Option Text
config_map_name namespace reference = elim (cut reference b'/') [
  | none ↦ some reference
  | some (first, name) ↦ if text_eq first namespace then some name else none
]

abbrev pub ConfigMapResolver : Type 0
ConfigMapResolver = Text → Text → Option (List (Text × Text))

abbrev read_headers :
    Text → Option ConfigMapResolver → Option Text → List (Text × Text) × List Issue
read_headers namespace resolve none =
    header_error (codes "auth proxy header ConfigMap must be in the Ingress namespace")
read_headers namespace none (some name) = header_error (codes "no ConfigMap resolver is configured")
read_headers namespace (some resolve) (some name) = elim (resolve namespace name) [
  | none ↦ header_error (codes "read ConfigMap")
  | some headers ↦ (headers, [])
]

-- `resolveAuthProxyHeaders`
unfoldable pub resolve_auth_proxy_headers :
    Option ConfigMapResolver → Ingress → List (Text × Text) × List Issue
resolve_auth_proxy_headers resolve ing =
    let reference = trim_space (get_text ann_auth_proxy_set_headers ing.annotations) in
    if is_empty reference
    then ([], [])
    else if is_empty (trim_space (get_text ann_auth_url ing.annotations))
    then header_error (codes "auth-proxy-set-headers requires auth-url")
    else read_headers ing.namespace resolve (config_map_name ing.namespace reference)

-- `canaryHostInput`
pub record CanaryHost : Type 0 where
  pub ingress : Ingress
  pub input : HostInput

-- `canariesByHost`, `canaryFootprints` and the issues so far.
pub record Canaries : Type 0 where
  pub by_host : List (Text × List CanaryHost)
  pub canary_footprints : List (Text × Text)
  pub issues : List Issue

abbrev pub canaries_for : Text → List (Text × List CanaryHost) → List CanaryHost
canaries_for hostname by_host = elim (lookup hostname by_host) [
  | none ↦ []
  | some canaries ↦ canaries
]

abbrev one_canary_issue : Issue
one_canary_issue = error_issue ann_canary (
    codes
      "canary Ingresses target the same hostname and path; ingress-nginx permits only one canary per rule")

unfoldable pub add_footprint : Text → Text → Canaries → Canaries
add_footprint name footprint c =
    let added = record c { canary_footprints = insert footprint name c.canary_footprints } in
    elim (lookup footprint c.canary_footprints) [
      | none ↦ added
      | some existing ↦
          if text_eq existing name
          then added
          else record c { issues = c.issues ++ one_canary_issue ∷ [] }
    ]

unfoldable pub add_footprints : Text → Text → List HttpIngressPath → Canaries → Canaries
add_footprints name hostname [] c = c
add_footprints name hostname (path ∷ paths) c =
    add_footprints name hostname paths
      (add_footprint name (hostname ++ 0 ∷ path_or_root path.path) c)

unfoldable pub add_canary_inputs : Ingress → List HostInput → Canaries → Canaries
add_canary_inputs canary [] c = c
add_canary_inputs canary (input ∷ inputs) c =
    let seen = add_footprints canary.name input.hostname input.paths c in
    add_canary_inputs canary inputs (record seen {
      by_host =
          insert input.hostname
            (canaries_for input.hostname seen.by_host
              ++ record { ingress = canary; input = input } ∷ [])
            seen.by_host;
    })

-- The loop over the canaries of the Ingress.
unfoldable pub add_canaries : Ingress → Options → List Ingress → Canaries → Canaries
add_canaries ing options [] c = c
add_canaries ing options (first ∷ canaries) c =
    let canary = inherited_canary_ingress ing first in
    let (inputs, issues) = collect_hosts canary options in
    add_canaries ing options canaries (
      add_canary_inputs canary inputs
        (record c { issues = c.issues ++ (validate_canary first ++ issues) }))

unfoldable pub too_many_canary_rules_issue : Issue
too_many_canary_rules_issue =
    error_issue (codes "spec.rules.paths")
      (codes "a generated HTTPRoute cannot contain more than 16 primary and canary rules")

-- The functions above, for the tests.
unfoldable pub compose_functions : Unit {0}
unfolding to_upper protocol_of http_version_issues config_map_name resolve_auth_proxy_headers
    add_footprint add_footprints add_canary_inputs add_canaries
compose_functions = tt
