-- ===== src/Tests/Routes.antt =====
-- Routes, settings and snippets of small Ingresses.
use ingress_nginx_gateway_br.Common.{
  ◌≡◌, ◌≤◌, refl, true, false, ◌||◌, All, none, some, List, [], ◌∷◌, length,
}
use ingress_nginx_gateway_br.Text.{Text, text_eq, codes, text_functions}
use ingress_nginx_gateway_br.Api.{Ingress, HttpIngressPath}
use ingress_nginx_gateway_br.Types.{Options, fatal, issue_fatal}
use ingress_nginx_gateway_br.Gateway.Hosts.{clean_host}
use ingress_nginx_gateway_br.Annotations.{
  ann_proxy_read_timeout, ann_proxy_buffering, ann_proxy_request_buffering, ann_server_snippet,
  ann_configuration_snippet, ann_auth_snippet, ann_use_regex, ann_backend_protocol,
}
use ingress_nginx_gateway_br.Translate.Values.{values_functions}
use ingress_nginx_gateway_br.Translate.Hosts.{HostInput}
use ingress_nginx_gateway_br.Translate.Settings.{
  build_proxy_settings_snippets, build_proxy_policy, settings_functions,
}
use ingress_nginx_gateway_br.Translate.Agree.{
  directives_of_policy, fields, build_proxy_settings_snippets-build_proxy_policy,
}
use ingress_nginx_gateway_br.Translate.Cors.{cors_functions}
use ingress_nginx_gateway_br.Translate.Rules.{build_route, rule_functions}
use ingress_nginx_gateway_br.Translate.RulesSound.{AreServedBy, build_route-AreServedBy}
use ingress_nginx_gateway_br.Translate.ExternalAuth.{auth_functions}
use ingress_nginx_gateway_br.Translate.Snippets.{snippet_functions}
use ingress_nginx_gateway_br.Translate.RawSnippets.{is_blank, build_snippets-is_blank}
use ingress_nginx_gateway_br.Translate.Checks.{
  validate_canary, validate_whitelist_source_range, checks_functions,
}
use ingress_nginx_gateway_br.Translate.BackendTls.{backend_functions}
use ingress_nginx_gateway_br.Translate.Hosts.{collect_functions}
use ingress_nginx_gateway_br.Translate.Policies.{policy_functions}
use ingress_nginx_gateway_br.Translate.Attach.{attach_functions}
use ingress_nginx_gateway_br.Translate.Compose.{Plan, protocol_of, compose_functions}
use ingress_nginx_gateway_br.Translate.Whole.{translate, whole_functions}
use ingress_nginx_gateway_br.Translate.Supported.{IsSmall, translate-IsSmall}
use ingress_nginx_gateway_br.Tests.Samples.{ingress, toy_sha256}

-- A read timeout in seconds, no buffering, and a request buffering that is a boolean.
abbrev tuned : List (Text × Text)
tuned =
    (ann_proxy_read_timeout, codes "30")
    ∷ (ann_proxy_buffering, codes "off")
    ∷ (ann_proxy_request_buffering, codes "off")
    ∷ []

tuned-snippets :
    (build_proxy_settings_snippets tuned).0
    ≡ codes "proxy_read_timeout 30s;" ∷ codes "proxy_buffering off;" ∷ []
unfolding text_functions values_functions settings_functions
tuned-snippets = refl

build_proxy_settings_snippets-build_proxy_policy_example :
    ((build_proxy_settings_snippets tuned).0
      ≡ directives_of_policy (build_proxy_policy toy_sha256 tuned (codes "shop")).0)
    × (fields (build_proxy_settings_snippets tuned).1
        ≡ fields (build_proxy_policy toy_sha256 tuned (codes "shop")).1)
build_proxy_settings_snippets-build_proxy_policy_example =
    build_proxy_settings_snippets-build_proxy_policy toy_sha256 tuned (codes "shop")

abbrev pub numbered_path : HttpIngressPath
numbered_path = record {
  path = codes "/cart";
  path_type = none;
  backend = record {
    service_backend = some (record { service = codes "cart"; port_name = []; port_number = 80 });
  };
}

abbrev cart_input : HostInput
cart_input = record {
  hostname = codes "a.dev";
  paths = numbered_path ∷ [];
  tls_hostname = [];
  tls_listener = none;
}

abbrev route_options : Options
route_options = record {
  gateway = record {
    namespace = codes "gw";
    name = codes "edge";
    http_section_name = codes "http";
    https_section_name = codes "https";
    tls_sections = [];
  };
  tls_hosts = none;
  allow_snippets = false;
  strict = false;
  settings_as_snippets = false;
  canary_ingresses = [];
}

abbrev regex_shop : Ingress
regex_shop = record (ingress (codes "shop") [] []) {
  annotations = (ann_use_regex, codes "true") ∷ [];
}

build_route-AreServedBy_example :
    (length (numbered_path ∷ []) ≤ 16)
    × AreServedBy none regex_shop
        (numbered_path ∷ [])
        (build_route toy_sha256 none route_options regex_shop cart_input).0.rules
unfolding text_functions values_functions cors_functions rule_functions fatal issue_fatal
build_route-AreServedBy_example =
    build_route-AreServedBy none toy_sha256 route_options regex_shop cart_input refl

build_snippets-is_blank_example :
    (is_blank tuned ann_server_snippet ≡ true)
    × (is_blank tuned ann_configuration_snippet ≡ true)
    × (is_blank tuned ann_auth_snippet ≡ true)
unfolding text_functions values_functions auth_functions snippet_functions fatal issue_fatal
build_snippets-is_blank_example =
    build_snippets-is_blank toy_sha256 (λ raw. none) tuned (codes "shop") [] [] refl

-- A host with a path, to an HTTPS backend.
abbrev secure_shop : Ingress
secure_shop =
    record (ingress (codes "shop") []
      (record { host = codes "a.dev"; http = some (numbered_path ∷ []) } ∷ [])) {
        annotations = (ann_backend_protocol, codes "https") ∷ [];
      }

abbrev secure_plan : Plan
secure_plan =
    translate toy_sha256 none none (λ raw. none) (λ raw. none) (λ name. true) route_options
      secure_shop

secure_plan-routes : length secure_plan.http_routes ≡ 1
unfolding text_functions values_functions checks_functions backend_functions collect_functions
    whole_functions compose_functions clean_host
secure_plan-routes = refl

translate-IsSmall_example :
    ((text_eq (protocol_of secure_shop.annotations) (codes "HTTPS")
        || text_eq (protocol_of secure_shop.annotations) (codes "HTTP"))
      ≡ true)
    × (fatal (validate_whitelist_source_range (λ raw. none) secure_shop.annotations) ≡ false)
    × (fatal (validate_canary secure_shop) ≡ false)
    × All IsSmall secure_plan.http_routes
unfolding text_functions values_functions checks_functions backend_functions collect_functions
    cors_functions rule_functions settings_functions auth_functions snippet_functions
    policy_functions attach_functions compose_functions whole_functions fatal issue_fatal clean_host
translate-IsSmall_example =
    translate-IsSmall toy_sha256 none none (λ raw. none) (λ raw. none) (λ name. true) route_options
      secure_shop refl
