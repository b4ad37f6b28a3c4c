-- ===== src/Translate/RulesSound.antt =====
-- The rules of a route that is built without a fatal issue.
use ingress_nginx_gateway_br.Common.{
  ℕ, suc, ◌≤◌, ◌<◌, ◌≡◌, ◌≢◌, ◌⊎◌, none, some_inj, none-some, true, refl, sym, ◌∙◌, false, Option,
  some, List, [], ◌∷◌, map, if◌then◌else◌, ltb, length, Bool-cases, Option-cases, inl, inr, arith,
  true-false,
}
use ingress_nginx_gateway_br.Text.{Text, is_empty, has_byte}
use ingress_nginx_gateway_br.Api.{
  Ingress, HttpIngressPath, ServiceBackend, PathType, exact, prefix, implementation_specific,
  get_text,
}
use ingress_nginx_gateway_br.Annotations.{ann_rewrite_target, ann_use_regex}
use ingress_nginx_gateway_br.Types.{Issue, Options, fatal, issue_fatal}
use ingress_nginx_gateway_br.Gateway.Hosts.Owners.{fatal-append}
use ingress_nginx_gateway_br.Translate.Values.{parse_bool, backend_port}
use ingress_nginx_gateway_br.Translate.Hosts.{HostInput}
use ingress_nginx_gateway_br.Translate.Rules.{
  MatchType, path_prefix, path_exact, regular_expression, RouteMatch, declared_type, RouteRule,
  rule_match, build_rule, build_rules, all_issues, too_many_rules_issue, build_route,
}

abbrev limit_issues : ℕ → List Issue
limit_issues n = if ltb 16 n then too_many_rules_issue ∷ [] else []

fatal-limit_issues : (n : ℕ) → fatal (limit_issues n) ≡ ltb 16 n
unfolding fatal issue_fatal too_many_rules_issue
fatal-limit_issues n = elim (Bool-cases (ltb 16 n)) [
  | inl above ↦ rw above refl
  | inr within ↦ rw within refl
]

module _ (resolve_port : Option (Text → Text → Text → Option ℕ)) where
  -- The port of a Service: the number of the backend, or what its name resolves to.
  abbrev pub IsPort : Text → ServiceBackend → ℕ → Type 0
  IsPort namespace backend port =
      ((0 < backend.port_number) × (port ≡ backend.port_number))
      ⊎ ((backend.port_number ≡ 0)
          × (is_empty backend.port_name ≡ false)
          × (resolve : Text → Text → Text → Option ℕ) × (resolve_port ≡ some resolve)
          × (resolve namespace backend.service backend.port_name ≡ some port))

  -- A regular expression where the annotations ask for one, and the type of the path otherwise.
  abbrev pub IsMatchType : Ingress → HttpIngressPath → MatchType → Type 0
  IsMatchType ing path t =
      (((parse_bool (get_text ann_use_regex ing.annotations) ≡ true)
          ⊎ (has_byte b'$' (get_text ann_rewrite_target ing.annotations) ≡ true))
        × (t ≡ regular_expression))
      ⊎ ((parse_bool (get_text ann_use_regex ing.annotations) ≡ false)
          × (has_byte b'$' (get_text ann_rewrite_target ing.annotations) ≡ false)
          × (((path.path_type ≡ some exact) × (t ≡ path_exact))
              ⊎ ((path.path_type ≢ some exact) × (t ≡ path_prefix))))

  -- The rule sends what its path matches to the Service of the path, at the port of the backend.
  abbrev pub IsServedBy : Ingress → HttpIngressPath → RouteRule → Type 0
  IsServedBy ing path rule =
      (backend : ServiceBackend) × (port : ℕ) × (matched : RouteMatch)
      × (path.backend.service_backend ≡ some backend)
      × IsPort ing.namespace backend port
      × (rule.backend_refs ≡ record { name = backend.service; port = port } ∷ [])
      × (rule.matches ≡ matched ∷ [])
      × (matched.value ≡ (if is_empty path.path then b'/' ∷ [] else path.path))
      × IsMatchType ing path matched.match_type

  -- One rule for each path, in their order.
  abbrev pub AreServedBy : Ingress → List HttpIngressPath → List RouteRule → Type 0
  AreServedBy ing [] [] = Unit
  AreServedBy ing [] (rule ∷ rules) = ⊥
  AreServedBy ing (path ∷ paths) [] = ⊥
  AreServedBy ing (path ∷ paths) (rule ∷ rules) =
      IsServedBy ing path rule × AreServedBy ing paths rules

  backend_port-IsPort :
      (namespace : Text) (service : Option ServiceBackend) (port : ℕ)
      → backend_port resolve_port namespace service ≡ some port
      → (backend : ServiceBackend) × (service ≡ some backend) × IsPort namespace backend port
  unfolding backend_port
  backend_port-IsPort namespace none port resolved = absurd (none-some resolved)
  backend_port-IsPort namespace (some backend) port resolved =
      elim (Bool-cases (ltb 0 backend.port_number)) [
        | inl numbered ↦
            let e : some backend.port_number ≡ some port = rw numbered at resolved in
            (backend, refl, inl (ground (arith, numbered), sym (some_inj e)))
        | inr named ↦ elim (Bool-cases (is_empty backend.port_name)) [
          | inl blank ↦ absurd (none-some (rw (named, blank) at resolved))
          | inr filled ↦ elim (Option-cases resolve_port) [
            | inl missing ↦ absurd (none-some (rw (named, filled, missing) at resolved))
            | inr (resolve, here) ↦
                let e : resolve namespace backend.service backend.port_name ≡ some port =
                  rw (named, filled, here) at resolved in
                (backend, refl, inr (ground (arith, named), filled, resolve, here, e))
          ]
        ]
      ]

  declared_type-cases :
      (t : Option PathType)
      → ((t ≡ some exact) × (declared_type t ≡ path_exact))
        ⊎ ((t ≢ some exact) × (declared_type t ≡ path_prefix))
  declared_type-cases none = inr (λ e. cc, refl)
  declared_type-cases (some exact) = inl (refl, refl)
  declared_type-cases (some prefix) = inr (λ e. cc, refl)
  declared_type-cases (some implementation_specific) = inr (λ e. cc, refl)

  rule_match-IsMatchType :
      (ing : Ingress) (path : HttpIngressPath)
      → IsMatchType ing path (rule_match ing.annotations path).match_type
  unfolding rule_match
  rule_match-IsMatchType ing path =
      elim (Bool-cases (parse_bool (get_text ann_use_regex ing.annotations))) [
        | inl asked ↦ rw asked (inl (inl refl, refl))
        | inr plain ↦
            elim (Bool-cases (has_byte b'$' (get_text ann_rewrite_target ing.annotations))) [
              | inl captured ↦ rw (plain, captured) (inl (inr refl, refl))
              | inr literal ↦
                  rw (plain, literal) (inr (refl, refl, declared_type-cases path.path_type))
            ]
      ]

  build_rule-IsServedBy :
      (ing : Ingress) (path : HttpIngressPath) (index : ℕ)
      → fatal (build_rule resolve_port ing path index).issues ≡ false
      → IsServedBy ing path (build_rule resolve_port ing path index).rule
  unfolding build_rule rule_match fatal issue_fatal
  build_rule-IsServedBy ing path index fine =
      elim (Option-cases (backend_port resolve_port ing.namespace path.backend.service_backend)) [
        | inl broken ↦ elim (true-false (sym (rw broken refl) ∙ fine)) [ ]
        | inr (port, resolved) ↦
            let (backend, service, at) =
              backend_port-IsPort ing.namespace path.backend.service_backend port resolved in
            rw (resolved, service)
              (
                backend,
                port,
                rule_match ing.annotations path,
                refl,
                at,
                refl,
                refl,
                refl,
                rule_match-IsMatchType ing path,
              )
      ]

  build_rules-AreServedBy :
      (ing : Ingress) (paths : List HttpIngressPath) (index : ℕ)
      → fatal (all_issues (build_rules resolve_port ing paths index)) ≡ false
      → AreServedBy ing paths (map (λ b. b.rule) (build_rules resolve_port ing paths index))
  unfolding build_rules all_issues
  build_rules-AreServedBy ing [] index fine = tt
  build_rules-AreServedBy ing (path ∷ paths) index fine =
      let first = build_rule resolve_port ing path index in
      let rest = build_rules resolve_port ing paths (suc index) in
      let split = fatal-append first.issues (all_issues rest) in
      (
        build_rule-IsServedBy ing path index (ground (arith, fine, split)),
        build_rules-AreServedBy ing paths (suc index) (ground (arith, fine, split)),
      )

  -- A route that is built without a fatal issue has at most 16 rules, one for each path in their order,
  -- which matches the value of the path, or the root where it is empty, by the type of the path or as a
  -- regular expression where the annotations ask for one, and sends to the Service of the path at the port
  -- that its backend has or that its name resolves to.
  pub build_route-AreServedBy :
      (sha256 : Text → List ℕ) (options : Options) (ing : Ingress) (input : HostInput)
      → fatal (build_route sha256 resolve_port options ing input).1.0 ≡ false
      → (length input.paths ≤ 16)
        × AreServedBy ing input.paths (build_route sha256 resolve_port options ing input).0.rules
  unfolding build_route
  build_route-AreServedBy sha256 options ing input fine =
      let built = build_rules resolve_port ing input.paths 0 in
      let n = length input.paths in
      let split = fatal-append (limit_issues n) (all_issues built) in
      (
        ground (arith, fine, split, fatal-limit_issues n),
        build_rules-AreServedBy ing input.paths 0 (ground (arith, fine, split)),
      )
