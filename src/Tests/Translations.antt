-- ===== src/Tests/Translations.antt =====
-- The translation of annotations and hosts on small inputs.
use ingress_nginx_gateway_br.Common.{
  IsNodup, ◌≡◌, refl, ◌↔◌, ◌⊎◌, Bool, true, false, ◌&&◌, not, Option, none, some, List, [], ◌∷◌,
  map, Memᴰ, any, all, contains, IsNodup, arith,
}
use ingress_nginx_gateway_br.Text.{
  Text, text_key, text_eq, codes, is_empty, trim_space, split, text_functions,
}
use ingress_nginx_gateway_br.Api.{Ingress}
use ingress_nginx_gateway_br.Types.{Options}
use ingress_nginx_gateway_br.Annotations.{
  ann_whitelist_source_range, ann_proxy_ssl_verify, ann_proxy_ssl_name, ann_proxy_ssl_server_name,
  ann_proxy_ssl_secret, ann_server_alias,
}
use ingress_nginx_gateway_br.Gateway.Hosts.{declared_hosts, hosts_functions}
use ingress_nginx_gateway_br.Gateway.Hosts.Owners.{IsSettled}
use ingress_nginx_gateway_br.Gateway.Hosts.Settled.{declared_hosts-IsSettled}
use ingress_nginx_gateway_br.Translate.Values.{
  wildcard_covers, matching_tls_host, split_csv, values_functions, parse_bool,
}
use ingress_nginx_gateway_br.Translate.Matching.{
  matching_tls_host-order, matching_tls_host-IsCandidate, matching_tls_host-IsLongest, IsLongest,
}
use ingress_nginx_gateway_br.Translate.Items.{contains-split_csv}
use ingress_nginx_gateway_br.Translate.Checks.{
  Prefix, ipv4, ipv6, opens_ipv4, opens_ipv6, validate_whitelist_source_range, checks_functions,
}
use ingress_nginx_gateway_br.Translate.Ranges.{parses, opens, validate_whitelist_source_range-all}
use ingress_nginx_gateway_br.Translate.BackendTls.{
  BackendTlsConfig, parse_backend_tls, backend_functions,
}
use ingress_nginx_gateway_br.Translate.BackendSound.{
  IsComplete, IsEither, parse_backend_tls-IsComplete, parse_backend_tls-IsEither,
}
use ingress_nginx_gateway_br.Translate.Hosts.{collect_hosts, collect_functions}
use ingress_nginx_gateway_br.Translate.Distinct.{collect_hosts-IsNodup}
use ingress_nginx_gateway_br.Controller.Selection.{annotation_bool}
use ingress_nginx_gateway_br.Controller.Flags.{annotation_bool-parse_bool}
use ingress_nginx_gateway_br.Tests.Samples.{ingress, entry}

translate_functions : Unit {0}
unfolding text_functions hosts_functions values_functions checks_functions backend_functions
    collect_functions
translate_functions = tt

-- Two Ingresses that claim one host with different Secrets.
abbrev rivals : List Ingress
rivals =
    ingress (codes "shop") (entry (codes "a.dev" ∷ []) (codes "cert") ∷ []) []
    ∷ ingress (codes "blog") (entry (codes "A.dev" ∷ []) (codes "own") ∷ []) []
    ∷ []

abbrev first_rival : Ingress
first_rival = ingress (codes "shop") (entry (codes "a.dev" ∷ []) (codes "cert") ∷ []) []

declared_hosts-IsSettled_example :
    IsSettled (declared_hosts rivals) first_rival (entry (codes "a.dev" ∷ []) (codes "cert"))
declared_hosts-IsSettled_example =
    declared_hosts-IsSettled rivals first_rival (entry (codes "a.dev" ∷ []) (codes "cert"))
      (Memᴰ.head refl) refl (Memᴰ.head refl)

abbrev tls_hosts : List Text
tls_hosts = codes "*.dev" ∷ codes "*.a.dev" ∷ []

longest_found : matching_tls_host (codes "x.a.dev") tls_hosts ≡ codes "*.a.dev"
unfolding translate_functions
longest_found = refl

same_members :
    (c : Text)
    → contains c tls_hosts ≡ contains c (codes "*.a.dev" ∷ codes "*.dev" ∷ codes "*.dev" ∷ [])
unfolding contains
same_members c = ground arith

matching_tls_host-order_example :
    matching_tls_host (codes "x.a.dev") tls_hosts
    ≡ matching_tls_host (codes "x.a.dev") (codes "*.a.dev" ∷ codes "*.dev" ∷ codes "*.dev" ∷ [])
matching_tls_host-order_example =
    matching_tls_host-order (codes "x.a.dev") tls_hosts
      (codes "*.a.dev" ∷ codes "*.dev" ∷ codes "*.dev" ∷ []) same_members

matching_tls_host-IsCandidate_example :
    (matching_tls_host (codes "x.a.dev") tls_hosts ≡ [])
    ⊎ ((contains (matching_tls_host (codes "x.a.dev") tls_hosts) tls_hosts ≡ true)
        × ((matching_tls_host (codes "x.a.dev") tls_hosts ≡ codes "x.a.dev")
            ⊎ (wildcard_covers (codes "x.a.dev") (matching_tls_host (codes "x.a.dev") tls_hosts)
                ≡ true)))
matching_tls_host-IsCandidate_example = matching_tls_host-IsCandidate (codes "x.a.dev") tls_hosts

matching_tls_host-IsLongest_example :
    ((contains (codes "x.a.dev") tls_hosts ≡ true)
      × (matching_tls_host (codes "x.a.dev") tls_hosts ≡ codes "x.a.dev"))
    ⊎ ((contains (codes "x.a.dev") tls_hosts ≡ false)
        × IsLongest (codes "x.a.dev") tls_hosts (matching_tls_host (codes "x.a.dev") tls_hosts))
unfolding translate_functions
matching_tls_host-IsLongest_example = matching_tls_host-IsLongest (codes "x.a.dev") tls_hosts refl

split_two : split_csv (codes "a, b,,a") ≡ codes "a" ∷ codes "b" ∷ []
unfolding translate_functions
split_two = refl

contains-split_csv_example :
    IsNodup (split_csv (codes "a, b"))
    × (contains (codes "b") (split_csv (codes "a, b")) ≡ (
        not (is_empty (trim_space (codes "a, b")))
        && (not (is_empty (codes "b"))
            && any (λ part. text_eq (trim_space part) (codes "b")) (split (codes "a, b") b','))))
contains-split_csv_example = contains-split_csv (codes "b") (codes "a, b")

annotation_bool-parse_bool_example : annotation_bool (codes " Yes") ≡ parse_bool (codes " Yes")
annotation_bool-parse_bool_example = annotation_bool-parse_bool (codes " Yes")

-- A stand-in for the parser, which knows the two whole families.
unfoldable toy_prefix : Text → Option Prefix
unfolding text_eq
toy_prefix s = elim (text_eq s (codes "0.0.0.0/0")) [
  | true ↦ some (record { family = ipv4; bits = 0 })
  | false ↦ elim (text_eq s (codes "::/0")) [
    | true ↦ some (record { family = ipv6; bits = 0 })
    | false ↦ none
  ]
]

abbrev open_ranges : List (Text × Text)
open_ranges = (ann_whitelist_source_range, codes "0.0.0.0/0, ::/0") ∷ []

open_accepted : validate_whitelist_source_range toy_prefix open_ranges ≡ []
unfolding translate_functions toy_prefix
open_accepted = refl

validate_whitelist_source_range-all_example :
    (validate_whitelist_source_range toy_prefix open_ranges ≡ []) ↔ (
      (all (parses toy_prefix) (split (codes "0.0.0.0/0, ::/0") b',')
        && (any (opens toy_prefix opens_ipv4) (split (codes "0.0.0.0/0, ::/0") b',')
            && any (opens toy_prefix opens_ipv6) (split (codes "0.0.0.0/0, ::/0") b',')))
      ≡ true)
unfolding translate_functions
validate_whitelist_source_range-all_example =
    validate_whitelist_source_range-all toy_prefix open_ranges (codes "0.0.0.0/0, ::/0") refl

abbrev any_subdomain : Text → Bool
any_subdomain name = true

abbrev verified_backend : Ingress
verified_backend = record (ingress (codes "shop") [] []) {
  annotations =
      (ann_proxy_ssl_verify, codes "on")
      ∷ (ann_proxy_ssl_server_name, codes "on")
      ∷ (ann_proxy_ssl_name, codes "back.dev")
      ∷ (ann_proxy_ssl_secret, codes "web/ca")
      ∷ [];
}

abbrev verified_config : BackendTlsConfig
verified_config = record {
  verified = true;
  secret_name = codes "ca";
  hostname = codes "back.dev";
  server_name = true;
}

parse_backend_tls-IsComplete_example : IsComplete any_subdomain verified_config
unfolding translate_functions
parse_backend_tls-IsComplete_example =
    parse_backend_tls-IsComplete any_subdomain verified_backend verified_config refl refl

parse_backend_tls-IsEither_example : IsEither (parse_backend_tls any_subdomain verified_backend)
parse_backend_tls-IsEither_example = parse_backend_tls-IsEither any_subdomain verified_backend

-- Two rules for one host, and an alias that repeats it.
abbrev twice : Ingress
twice =
    record (ingress (codes "shop") [] (
      (record { host = codes "a.dev"; http = some [] })
      ∷ (record { host = codes " A.dev"; http = some [] })
      ∷ [])) { annotations = (ann_server_alias, codes "A.dev,b.dev") ∷ [] }

abbrev plain_options : Options
plain_options = record {
  gateway = record {
    namespace = codes "gw";
    name = codes "edge";
    http_section_name = codes "http";
    https_section_name = codes "https";
    tls_sections = [];
  };
  tls_hosts = none;
  allow_snippets = false;
  strict = false;
  settings_as_snippets = false;
  canary_ingresses = [];
}

two_hosts :
    map (λ input. input.hostname) (collect_hosts twice plain_options).0
    ≡ codes "a.dev" ∷ codes "b.dev" ∷ []
unfolding translate_functions
two_hosts = refl

collect_hosts-IsNodup_example :
    IsNodup (map (λ input. input.hostname) (collect_hosts twice plain_options).0)
collect_hosts-IsNodup_example = collect_hosts-IsNodup twice plain_options
