-- ===== src/Translate/Supported.antt =====
-- What the plan of an Ingress promises where it has no fatal issue.
use ingress_nginx_gateway_br.Common.{
  ℕ, ◌≡◌, ◌≤◌, refl, sym, ◌∙◌, Bool, true, false, ◌||◌, Option, List, [], ◌∷◌, All, All-append,
  length, ltb, Bool-cases, inl, inr, arith, true-false,
}
use ingress_nginx_gateway_br.Text.{Text, text_eq, codes}
use ingress_nginx_gateway_br.Api.{Ingress}
use ingress_nginx_gateway_br.Types.{Options, fatal, issue_fatal}
use ingress_nginx_gateway_br.Translate.Checks.{
  Prefix, validate_canary, check_unknown_annotations, validate_whitelist_source_range,
}
use ingress_nginx_gateway_br.Translate.Hosts.{HostInput}
use ingress_nginx_gateway_br.Translate.Rules.{
  HttpRoute, all_issues, build_route, build_redirect_route,
}
use ingress_nginx_gateway_br.Translate.ExternalAuth.{Url}
use ingress_nginx_gateway_br.Translate.Attach.{with_issues}
use ingress_nginx_gateway_br.Translate.Compose.{
  Plan, protocol_of, ConfigMapResolver, CanaryHost, too_many_canary_rules_issue, canaries_for,
}
use ingress_nginx_gateway_br.Translate.Whole.{
  Settled, backend_tls_of, canary_rules, limit_canary_rules, served_route, redirects, add_input,
  add_inputs, annotation_issues, translate,
}
use ingress_nginx_gateway_br.Translate.Kept.{fatal_left, fatal_right, add_policies-Keeps}

-- The route has no more rules than an HTTPRoute admits.
abbrev pub IsSmall : HttpRoute → Type 0
IsSmall route = length route.rules ≤ 16

limit_canary_rules-IsSmall : (n : ℕ) → fatal (limit_canary_rules n) ≡ false → n ≤ 16
unfolding fatal issue_fatal too_many_canary_rules_issue
limit_canary_rules-IsSmall n fine = elim (Bool-cases (ltb 16 n)) [
  | inl above ↦ elim (true-false (sym (rw above refl) ∙ fine)) [ ]
  | inr within ↦ ground (arith, within)
]

module _ (sha256 : Text → List ℕ) (resolve_port : Option (Text → Text → Text → Option ℕ))
    (options : Options) (ing : Ingress) where
  served_route-IsSmall :
      (canaries : List (Text × List CanaryHost)) (input : HostInput)
      → fatal (served_route sha256 resolve_port options ing canaries input).1.0 ≡ false
      → IsSmall (served_route sha256 resolve_port options ing canaries input).0
  unfolding served_route
  served_route-IsSmall canaries input fine =
      let built = build_route sha256 resolve_port options ing input in
      let more =
        canary_rules resolve_port (canaries_for input.hostname canaries) (length built.0.rules) in
      limit_canary_rules-IsSmall _ (fatal_right (all_issues more) _ (fatal_right built.1.0 _ fine))

  redirects-IsSmall :
      (input : HostInput) → All IsSmall (redirects sha256 resolve_port options ing input)
  unfolding redirects build_redirect_route
  redirects-IsSmall input = ground arith

module _ (sha256 : Text → List ℕ) (resolve_port : Option (Text → Text → Text → Option ℕ))
    (parse_url : Text → Option Url) (is_subdomain : Text → Bool) (options : Options) (ing : Ingress)
    (settled : Settled) where
  -- A plan without a fatal issue comes from one without, and its new routes are small.
  abbrev Extends : Plan → Plan → Type 0
  Extends before after =
      fatal after.attached.issues ≡ false
      → (fatal before.attached.issues ≡ false)
        × (All IsSmall before.http_routes → All IsSmall after.http_routes)

  add_input-Extends :
      (input : HostInput) (plan : Plan)
      → Extends plan
          (add_input sha256 resolve_port parse_url is_subdomain options ing settled input plan)
  unfolding add_input
  add_input-Extends input plan fine =
      let (route, (issues, snippets)) =
        served_route sha256 resolve_port options ing settled.canaries input in
      let (same, kept) =
        add_policies-Keeps sha256 parse_url is_subdomain ing snippets settled.headers
          settled.backend_tls options route (with_issues issues plan.attached) in
      let reported = kept fine in
      let small =
        served_route-IsSmall sha256 resolve_port options ing settled.canaries input
          (fatal_right plan.attached.issues issues reported) in
      (
        fatal_left plan.attached.issues issues reported,
        λ all.
            All-append IsSmall plan.http_routes _ all (
              ground (arith, same, small),
              redirects-IsSmall sha256 resolve_port options ing input,
            ),
      )

  add_inputs-Extends :
      (inputs : List HostInput) (plan : Plan)
      → Extends plan
          (add_inputs sha256 resolve_port parse_url is_subdomain options ing settled inputs plan)
  unfolding add_inputs
  add_inputs-Extends [] plan fine = (fine, λ all. all)
  add_inputs-Extends (input ∷ inputs) plan fine =
      let next =
        add_input sha256 resolve_port parse_url is_subdomain options ing settled input plan in
      let (later, rest) = add_inputs-Extends inputs next fine in
      let (first, one) = add_input-Extends input plan later in (first, λ all. rest (one all))

backend_tls_of-protocol :
    (is_subdomain : Text → Bool) (ing : Ingress)
    → fatal (backend_tls_of is_subdomain ing).1 ≡ false
    → (text_eq (protocol_of ing.annotations) (codes "HTTPS")
        || text_eq (protocol_of ing.annotations) (codes "HTTP"))
      ≡ true
unfolding backend_tls_of fatal issue_fatal
backend_tls_of-protocol is_subdomain ing fine =
    elim (Bool-cases (text_eq (protocol_of ing.annotations) (codes "HTTPS"))) [
      | inl secure ↦ rw secure refl
      | inr plain ↦ elim (Bool-cases (text_eq (protocol_of ing.annotations) (codes "HTTP"))) [
        | inl http ↦ rw (plain, http) refl
        | inr other ↦ elim (true-false (sym (rw (plain, other) refl) ∙ fine)) [ ]
      ]
    ]

module _ (sha256 : Text → List ℕ) (resolve_port : Option (Text → Text → Text → Option ℕ))
    (resolve_config_map : Option ConfigMapResolver) (parse_url : Text → Option Url)
    (parse_prefix : Text → Option Prefix) (is_subdomain : Text → Bool) (options : Options)
    (ing : Ingress) where
  abbrev plan_of : Plan
  plan_of =
      translate sha256 resolve_port resolve_config_map parse_url parse_prefix is_subdomain options
        ing

  -- A plan without a fatal issue serves an Ingress of a backend protocol that is HTTP or HTTPS, whose source
  -- ranges and canary annotations pass their checks, with routes of at most 16 rules, canaries included.
  pub translate-IsSmall :
      fatal plan_of.attached.issues ≡ false
      → ((text_eq (protocol_of ing.annotations) (codes "HTTPS")
            || text_eq (protocol_of ing.annotations) (codes "HTTP"))
          ≡ true)
        × (fatal (validate_whitelist_source_range parse_prefix ing.annotations) ≡ false)
        × (fatal (validate_canary ing) ≡ false)
        × All IsSmall plan_of.http_routes
  unfolding translate annotation_issues
  translate-IsSmall fine =
      let (clean, small) =
        add_inputs-Extends sha256 resolve_port parse_url is_subdomain options ing _ _ _ fine in
      let checked =
        fatal_left
          (annotation_issues sha256 resolve_port resolve_config_map parse_url parse_prefix
            is_subdomain options ing)
          _ clean in
      let ranges =
        fatal_right (check_unknown_annotations options.strict ing.annotations) _ checked in
      let canary =
        fatal_right (validate_whitelist_source_range parse_prefix ing.annotations) _ ranges in
      let backend = fatal_right (validate_canary ing) _ canary in
      (
        backend_tls_of-protocol is_subdomain ing
            (fatal_left (backend_tls_of is_subdomain ing).1 _ backend),
        fatal_left (validate_whitelist_source_range parse_prefix ing.annotations) _ ranges,
        fatal_left (validate_canary ing) _ canary,
        small tt,
      )
