-- ===== src/Translate/Values.antt =====
-- The readers of annotation values in internal/translator/translate.go, and the matching of a host
-- with the declared TLS hosts.
use ingress_nginx_gateway_br.Common.{
  ℕ, Bool, true, false, not, ◌&&◌, Option, none, some, List, [], ◌∷◌, if◌then◌else◌, lookup,
  contains, length, ltb, add, map,
}
use ingress_nginx_gateway_br.Text.{
  Text, text_key, codes, to_lower, trim_space, is_empty, has_prefix, has_suffix, trim_prefix,
  contains_any, split,
}
use ingress_nginx_gateway_br.Api.{Ingress, get_text, ServiceBackend}
use ingress_nginx_gateway_br.Annotations.{ann_ssl_redirect, ann_server_alias}

-- `parseNginxBool`; `none` is its error.
unfoldable pub parse_nginx_bool : Text → Option Bool
parse_nginx_bool value =
    let word = to_lower (trim_space value) in
    if contains word (codes "on" ∷ codes "true" ∷ codes "yes" ∷ codes "1" ∷ [])
    then some true
    else if contains word (codes "off" ∷ codes "false" ∷ codes "no" ∷ codes "0" ∷ [])
    then some false
    else none

abbrev parsed_or_false : Option Bool → Bool
parsed_or_false none = false
parsed_or_false (some b) = b

-- `parseBool`: an error gives false.
unfoldable pub parse_bool : Text → Bool
parse_bool value = parsed_or_false (parse_nginx_bool value)

abbrev absent_or_true : Option Text → Bool
absent_or_true none = true
absent_or_true (some value) = parse_bool value

-- `sslRedirectEnabled`
unfoldable pub ssl_redirect_enabled : List (Text × Text) → Bool
ssl_redirect_enabled annotations = absent_or_true (lookup ann_ssl_redirect annotations)

-- The loop of `splitCSV`, with the result so far; `seen` in the source holds the same items.
unfoldable pub collect_items : List Text → List Text → List Text
collect_items result [] = result
collect_items result (part ∷ parts) =
    let item = trim_space part in
    collect_items (if is_empty item then result else add item result) parts

-- `splitCSV`
unfoldable pub split_csv : Text → List Text
split_csv value = if is_empty (trim_space value) then [] else collect_items [] (split value b',')

-- `validHeaderName`: `http.CanonicalHeaderKey` gives the empty text for the empty text only.
unfoldable pub valid_header_name : Text → Bool
valid_header_name value =
    not (is_empty value) && not (contains_any value (32 ∷ 9 ∷ 13 ∷ 10 ∷ b':' ∷ []))

-- `hostNamePart`
unfoldable pub host_name_part : Text → Text
host_name_part host = if is_empty host then codes "default" else host

-- Whether a wildcard among the TLS hosts covers the host.
unfoldable pub wildcard_covers : Text → Text → Bool
wildcard_covers host candidate =
    let suffix = trim_prefix candidate (codes "*") in
    has_prefix candidate (codes "*.")
    && (has_suffix host suffix && ltb (length suffix) (length host))

unfoldable pub longer : Text → Text → Text → Text
longer host best candidate =
    if wildcard_covers host candidate && ltb (length best) (length candidate)
    then candidate
    else best

-- The loop of `matchingTLSHost` over the candidates.
unfoldable pub longest_wildcard : Text → Text → List Text → Text
longest_wildcard host best [] = best
longest_wildcard host best (candidate ∷ candidates) =
    longest_wildcard host (longer host best candidate) candidates

-- `matchingTLSHost`; the empty text says that no TLS host matches.
unfoldable pub matching_tls_host : Text → List Text → Text
matching_tls_host host tls_hosts =
    if is_empty host
    then []
    else if contains host tls_hosts
    then host
    else longest_wildcard host [] tls_hosts

-- `isACMEHTTP01Solver`
unfoldable pub is_acme_http01_solver : Ingress → Bool
is_acme_http01_solver ing =
    parse_bool (get_text (codes "acme.cert-manager.io/http01-solver") ing.labels)

-- What `RouteTLSHostnames` calls `add`.
unfoldable pub add_matched : List Text → List Text → Text → List Text
add_matched tls_hosts result raw =
    let matched = matching_tls_host (to_lower (trim_space raw)) tls_hosts in
    if is_empty matched then result else add matched result

unfoldable pub add_all_matched : List Text → List Text → List Text → List Text
add_all_matched tls_hosts result [] = result
add_all_matched tls_hosts result (raw ∷ raws) =
    add_all_matched tls_hosts (add_matched tls_hosts result raw) raws

-- `RouteTLSHostnames`: the hosts of the rules first, then the aliases.
unfoldable pub route_tls_hostnames : Ingress → List Text → List Text
route_tls_hostnames ing tls_hosts =
    add_all_matched tls_hosts (add_all_matched tls_hosts [] (map (λ rule. rule.host) ing.rules))
      (split_csv (get_text ann_server_alias ing.annotations))

abbrev resolve_named :
    Text → Text → Option (Text → Text → Text → Option ℕ) → ServiceBackend → Option ℕ
resolve_named namespace port none backend = none
resolve_named namespace port (some resolve) backend = resolve namespace backend.service port

-- `backendPort`; `resolve_port` is nil or reads the Service, and `none` is an error.
unfoldable pub backend_port :
    Option (Text → Text → Text → Option ℕ) → Text → Option ServiceBackend → Option ℕ
backend_port resolve_port namespace none = none
backend_port resolve_port namespace (some backend) =
    if ltb 0 backend.port_number
    then some backend.port_number
    else if is_empty backend.port_name
    then none
    else resolve_named namespace backend.port_name resolve_port backend

-- The functions above, for the tests.
unfoldable pub values_functions : Unit {0}
unfolding parse_nginx_bool parse_bool ssl_redirect_enabled collect_items split_csv valid_header_name
    host_name_part wildcard_covers longer longest_wildcard matching_tls_host is_acme_http01_solver
    add_matched add_all_matched route_tls_hostnames backend_port contains add lookup get_text
values_functions = tt
