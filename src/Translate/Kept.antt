-- ===== src/Translate/Kept.antt =====
-- What `addPolicies` keeps of a route and of a plan: the number of the rules, and the fatal issues.
use ingress_nginx_gateway_br.Common.{
  ℕ, suc, ◌≡◌, refl, ◌∙◌, ap, Bool, true, false, Option, none, some, List, [], ◌∷◌, ◌++◌, map,
  length, Bool-cases, inl, inr, arith,
}
use ingress_nginx_gateway_br.Text.{Text, trim_space}
use ingress_nginx_gateway_br.Api.{Ingress, get_text}
use ingress_nginx_gateway_br.Types.{Issue, Options, fatal}
use ingress_nginx_gateway_br.Gateway.Hosts.Owners.{fatal-append}
use ingress_nginx_gateway_br.Annotations.{ann_upstream_vhost}
use ingress_nginx_gateway_br.Translate.BackendTls.{BackendTlsConfig}
use ingress_nginx_gateway_br.Translate.Settings.{ProxySettingsPolicy, build_proxy_policy}
use ingress_nginx_gateway_br.Translate.Rules.{HttpRoute, RouteRule}
use ingress_nginx_gateway_br.Translate.ExternalAuth.{Url}
use ingress_nginx_gateway_br.Translate.Snippets.{
  SnippetsFilter, BasicAuth, build_snippets, build_basic_auth,
}
use ingress_nginx_gateway_br.Translate.Policies.{
  with_hostname, Attachments, append_extension_filter, add_upstream_vhost_rewrite, unverified_rules,
  add_unverified_backend_tls_filters,
}
use ingress_nginx_gateway_br.Translate.Attach.{
  with_issues, with_proxy_policy, with_auth, with_snippets, add_body_size, add_settings,
  add_backend_tls, add_policies,
}

length-map : {A B : Type 0} (f : A → B) (xs : List A) → length (map f xs) ≡ length xs
length-map f [] = refl
length-map f (x ∷ xs) = ap suc (length-map f xs)

-- A fatal issue of the first plan is one of the second.
abbrev pub KeepsFatal : Attachments → Attachments → Type 0
KeepsFatal before after = fatal after.issues ≡ false → fatal before.issues ≡ false

abbrev pub Keeps : HttpRoute × Attachments → HttpRoute × Attachments → Type 0
Keeps (route, plan) (route', plan') =
    (length route'.rules ≡ length route.rules) × KeepsFatal plan plan'

pub fatal_left : (is js : List Issue) → fatal (is ++ js) ≡ false → fatal is ≡ false
fatal_left is js fine = ground (arith, fine, fatal-append is js)

pub fatal_right : (is js : List Issue) → fatal (is ++ js) ≡ false → fatal js ≡ false
fatal_right is js fine = ground (arith, fine, fatal-append is js)

Keeps-trans : (a b c : HttpRoute × Attachments) → Keeps a b → Keeps b c → Keeps a c
Keeps-trans a b c (same, first) (again, second) = (again ∙ same, λ fine. first (second fine))

with_proxy_policy-KeepsFatal :
    (result : Option ProxySettingsPolicy × List Issue) (plan : Attachments)
    → KeepsFatal plan (with_proxy_policy result plan)
with_proxy_policy-KeepsFatal (none, issues) plan fine = fatal_left plan.issues issues fine
with_proxy_policy-KeepsFatal (some policy, issues) plan fine = fatal_left plan.issues issues fine

with_auth-Keeps :
    (result : Option BasicAuth × List Issue) (route : HttpRoute) (plan : Attachments)
    → Keeps (route, plan) (with_auth result (route, plan))
unfolding append_extension_filter
with_auth-Keeps (none, issues) route plan = (refl, fatal_left plan.issues issues)
with_auth-Keeps (some filter, issues) route plan =
    (length-map _ route.rules, fatal_left plan.issues issues)

with_snippets-Keeps :
    (result : Option SnippetsFilter × List Issue) (route : HttpRoute) (plan : Attachments)
    → Keeps (route, plan) (with_snippets result (route, plan))
unfolding append_extension_filter
with_snippets-Keeps (none, issues) route plan = (refl, fatal_left plan.issues issues)
with_snippets-Keeps (some filter, issues) route plan =
    (length-map _ route.rules, fatal_left plan.issues issues)

length-unverified_rules :
    (sha256 : Text → List ℕ) (ing : Ingress) (config : BackendTlsConfig) (route : HttpRoute)
    (idx : ℕ) (rules : List RouteRule)
    → length (unverified_rules sha256 ing config route idx rules).0 ≡ length rules
unfolding unverified_rules
length-unverified_rules sha256 ing config route idx [] = refl
length-unverified_rules sha256 ing config route idx (rule ∷ rules) =
    ap suc (length-unverified_rules sha256 ing config route (suc idx) rules)

add_backend_tls-Keeps :
    (sha256 : Text → List ℕ) (parse_url : Text → Option Url) (is_subdomain : Text → Bool)
    (ing : Ingress) (config : Option BackendTlsConfig) (route : HttpRoute) (plan : Attachments)
    → Keeps (route, plan) (add_backend_tls sha256 parse_url is_subdomain ing config (route, plan))
unfolding add_unverified_backend_tls_filters
add_backend_tls-Keeps sha256 parse_url is_subdomain ing none route plan = (refl, λ fine. fine)
add_backend_tls-Keeps sha256 parse_url is_subdomain ing (some config) route plan =
    elim (Bool-cases config.verified) [
      | inl verified ↦ simp (verified) (refl, λ fine. fine)
      | inr unverified ↦
          simp (unverified) (
            length-unverified_rules sha256 ing config route 0 route.rules,
            fatal_left plan.issues _,
          )
    ]

add_body_size-KeepsFatal :
    (sha256 : Text → List ℕ) (parse_url : Text → Option Url) (is_subdomain : Text → Bool)
    (ing : Ingress) (name : Text) (plan : Attachments)
    → KeepsFatal plan (add_body_size sha256 parse_url is_subdomain ing name plan)
unfolding add_body_size
add_body_size-KeepsFatal sha256 parse_url is_subdomain ing name plan fine =
    grind (arith, fine, fatal-append)

add_settings-KeepsFatal :
    (sha256 : Text → List ℕ) (parse_url : Text → Option Url) (is_subdomain : Text → Bool)
    (ing : Ingress) (as_snippets : Bool) (name : Text) (plan : Attachments)
    → KeepsFatal plan (add_settings sha256 parse_url is_subdomain ing as_snippets name plan).1
unfolding add_settings
add_settings-KeepsFatal sha256 parse_url is_subdomain ing true name plan fine =
    fatal_left plan.issues _ fine
add_settings-KeepsFatal sha256 parse_url is_subdomain ing false name plan fine =
    add_body_size-KeepsFatal sha256 parse_url is_subdomain ing name plan (
      with_proxy_policy-KeepsFatal (build_proxy_policy sha256 ing.annotations name)
        (add_body_size sha256 parse_url is_subdomain ing name plan) fine)

length-add_upstream_vhost_rewrite :
    (is_subdomain : Text → Bool) (ing : Ingress) (route : HttpRoute)
    → length (add_upstream_vhost_rewrite is_subdomain ing route).0.rules ≡ length route.rules
unfolding add_upstream_vhost_rewrite
length-add_upstream_vhost_rewrite is_subdomain ing route = ground (
  arith,
  length-map (with_hostname (trim_space (get_text ann_upstream_vhost ing.annotations))) route.rules,
)

pub add_policies-Keeps :
    (sha256 : Text → List ℕ) (parse_url : Text → Option Url) (is_subdomain : Text → Bool)
    (ing : Ingress) (generated : List Text) (headers : List (Text × Text))
    (backend_tls : Option BackendTlsConfig) (options : Options) (route : HttpRoute)
    (plan : Attachments)
    → Keeps
        (route, plan)
        (add_policies sha256 parse_url is_subdomain ing generated headers backend_tls options route
          plan)
unfolding add_policies
add_policies-Keeps sha256 parse_url is_subdomain ing generated headers backend_tls options route
      plan =
    let (renamed, vhost_issues) = add_upstream_vhost_rewrite is_subdomain ing route in
    let reported = with_issues vhost_issues plan in
    let settled =
      add_settings sha256 parse_url is_subdomain ing options.settings_as_snippets route.name
        reported in
    let secured =
      add_backend_tls sha256 parse_url is_subdomain ing backend_tls (renamed, settled.1) in
    let authenticated = with_auth (build_basic_auth sha256 ing.annotations route.name) secured in
    let first : Keeps (route, plan) (renamed, settled.1) = (
      length-add_upstream_vhost_rewrite is_subdomain ing route,
      λ fine. fatal_left plan.issues vhost_issues (
          add_settings-KeepsFatal sha256 parse_url is_subdomain ing options.settings_as_snippets
            route.name reported fine),
    ) in
    let second =
      add_backend_tls-Keeps sha256 parse_url is_subdomain ing backend_tls renamed settled.1 in
    let third =
      with_auth-Keeps (build_basic_auth sha256 ing.annotations route.name) secured.0 secured.1 in
    let snippets =
      build_snippets sha256 parse_url ing.annotations route.name (generated ++ settled.0) headers
        options.allow_snippets in
    let fourth = with_snippets-Keeps snippets authenticated.0 authenticated.1 in
    let last = with_snippets snippets authenticated in
    Keeps-trans (route, plan) (renamed, settled.1) last first
      (Keeps-trans (renamed, settled.1) secured last second
        (Keeps-trans secured authenticated last third fourth))
