-- ===== src/Translate/BackendSound.antt =====
-- The configurations that `parseBackendTLS` gives: a verified one is complete, and without a
-- configuration there is a fatal issue.
use ingress_nginx_gateway_br.Common.{
  ◌≡◌, refl, sym, ap, subst, ◌∙◌, ◌⊎◌, inl, inr, Bool, true, false, Option, none, some, List, [],
  ◌∷◌, ◌++◌, arith, Bool-cases, true-false,
}
use ingress_nginx_gateway_br.Text.{Text, is_empty, trim_space}
use ingress_nginx_gateway_br.Api.{Ingress, get_text}
use ingress_nginx_gateway_br.Types.{Issue, fatal, issue_fatal}
use ingress_nginx_gateway_br.Annotations.{ann_proxy_ssl_verify, ann_proxy_ssl_server_name}
use ingress_nginx_gateway_br.Translate.BackendTls.{
  BackendTlsConfig, issue_when, config_or_issues, flag_or_issue, read_flag, verified_issues,
  unverified_issues, hostname_issues, parse_backend_tls,
}

-- Issues that are no obstacle, or a fatal one among them.
abbrev IsDecisive : List Issue → Type 0
IsDecisive issues = (issues ≡ []) ⊎ (fatal issues ≡ true)

IsDecisive-append : (xs ys : List Issue) → IsDecisive xs → IsDecisive ys → IsDecisive (xs ++ ys)
unfolding fatal
IsDecisive-append [] ys h k = k
IsDecisive-append (x ∷ xs) ys (inl e) k = absurd cc
IsDecisive-append (x ∷ xs) ys (inr h) k = inr (fatal-append (x ∷ xs) ys h)
  where
    fatal-append : (xs ys : List Issue) → fatal xs ≡ true → fatal (xs ++ ys) ≡ true
    fatal-append [] ys h = absurd (true-false (sym h))
    fatal-append (x ∷ xs) ys h = ground (arith, fatal-append xs ys)

IsDecisive-issue_when : (b : Bool) (field message : Text) → IsDecisive (issue_when b field message)
unfolding fatal issue_fatal issue_when
IsDecisive-issue_when true field message = inr refl
IsDecisive-issue_when false field message = inl refl

IsDecisive-flag_or_issue :
    (annotation : Text) (parsed : Option Bool) → IsDecisive (flag_or_issue annotation parsed).1
unfolding fatal issue_fatal flag_or_issue
IsDecisive-flag_or_issue annotation none = inr refl
IsDecisive-flag_or_issue annotation (some value) = inl refl

IsDecisive-read_flag :
    (annotation : Text) (annotations : List (Text × Text))
    → IsDecisive (read_flag annotation annotations).1
unfolding read_flag
IsDecisive-read_flag annotation annotations =
    elim (Bool-cases (is_empty (trim_space (get_text annotation annotations)))) [
      | inl blank ↦ rw blank (inl refl)
      | inr set ↦ rw set (IsDecisive-flag_or_issue annotation _)
    ]

append_empty : (xs ys : List Issue) → xs ++ ys ≡ [] → (xs ≡ []) × (ys ≡ [])
append_empty [] ys e = (refl, e)
append_empty (x ∷ xs) ys e = absurd cc

config_or_issues-some :
    (config c : BackendTlsConfig) (issues : List Issue)
    → (config_or_issues config issues).0 ≡ some c
    → (config ≡ c) × (issues ≡ [])
unfolding config_or_issues
config_or_issues-some config c [] e = (cc, refl)
config_or_issues-some config c (issue ∷ issues) e = absurd cc

-- A configuration without issues, or a fatal issue without configuration.
abbrev pub IsEither : Option BackendTlsConfig × List Issue → Type 0
IsEither (none, issues) = fatal issues ≡ true
IsEither (some config, issues) = issues ≡ []

config_or_issues-IsEither :
    (config : BackendTlsConfig) (issues : List Issue)
    → IsDecisive issues
    → IsEither (config_or_issues config issues)
unfolding config_or_issues
config_or_issues-IsEither config [] h = refl
config_or_issues-IsEither config (issue ∷ issues) (inl e) = absurd cc
config_or_issues-IsEither config (issue ∷ issues) (inr h) = h

module _ (is_subdomain : Text → Bool) where
  -- What a backend whose certificate is verified needs.
  abbrev pub IsComplete : BackendTlsConfig → Type 0
  IsComplete config =
      (config.server_name ≡ true)
      × (((is_empty config.hostname ≡ false) × (is_subdomain config.hostname ≡ true))
          × ((is_empty config.secret_name ≡ false) × (is_subdomain config.secret_name ≡ true)))

  verified_issues-none :
      (server_name elsewhere : Bool) (hostname secret : Text)
      → verified_issues is_subdomain server_name hostname (secret, elsewhere) ≡ []
      → ((is_empty hostname ≡ false) × (is_subdomain hostname ≡ true))
        × ((is_empty secret ≡ false) × (is_subdomain secret ≡ true))
  unfolding verified_issues issue_when
  verified_issues-none server_name elsewhere hostname secret e = ground arith

  IsDecisive-verified_issues :
      (server_name elsewhere : Bool) (hostname secret : Text)
      → IsDecisive (verified_issues is_subdomain server_name hostname (secret, elsewhere))
  unfolding verified_issues
  IsDecisive-verified_issues server_name elsewhere hostname secret =
      IsDecisive-append _ _ (IsDecisive-issue_when _ _ _) (
        IsDecisive-append _ _ (IsDecisive-issue_when _ _ _)
          (IsDecisive-append _ _ (IsDecisive-issue_when _ _ _) (IsDecisive-issue_when _ _ _)))

  IsDecisive-first :
      (ing : Ingress) (hostname : Text)
      → IsDecisive (
          (read_flag ann_proxy_ssl_verify ing.annotations).1
          ++ ((read_flag ann_proxy_ssl_server_name ing.annotations).1
              ++ hostname_issues is_subdomain hostname))
  unfolding hostname_issues
  IsDecisive-first ing hostname =
      IsDecisive-append _ _ (IsDecisive-read_flag ann_proxy_ssl_verify ing.annotations) (
        IsDecisive-append _ _ (IsDecisive-read_flag ann_proxy_ssl_server_name ing.annotations)
          (IsDecisive-issue_when _ _ _))

  IsDecisive-unverified : (secret : Text) → IsDecisive (unverified_issues is_subdomain secret)
  unfolding unverified_issues
  IsDecisive-unverified secret = IsDecisive-issue_when _ _ _

  -- A configuration that verifies the backend sends a server name, and its hostname and its Secret's name are
  -- subdomains that are not empty.
  pub parse_backend_tls-IsComplete :
      (ing : Ingress) (config : BackendTlsConfig)
      → (parse_backend_tls is_subdomain ing).0 ≡ some config
      → config.verified ≡ true
      → IsComplete config
  unfolding parse_backend_tls
  parse_backend_tls-IsComplete ing config given verified =
      elim (Bool-cases (read_flag ann_proxy_ssl_verify ing.annotations).0) [
        | inl on ↦
            let (same, no_issues) = config_or_issues-some _ config _ (rw on at given) in
            let (first, rest) = append_empty _ _ no_issues in
            subst IsComplete same (refl, verified_issues-none _ _ _ _ rest)
        | inr off ↦
            let (same, no_issues) = config_or_issues-some _ config _ (rw off at given) in
            absurd (true-false (sym verified ∙ sym (ap (λ c. c.verified) same)))
      ]

  -- The backend's TLS is either configured without an issue, or not configured with a fatal issue.
  pub parse_backend_tls-IsEither : (ing : Ingress) → IsEither (parse_backend_tls is_subdomain ing)
  unfolding parse_backend_tls
  parse_backend_tls-IsEither ing =
      elim (Bool-cases (read_flag ann_proxy_ssl_verify ing.annotations).0) [
        | inl on ↦ rw on (
            config_or_issues-IsEither _ _
              (IsDecisive-append _ _ (IsDecisive-first ing _) (IsDecisive-verified_issues _ _ _ _)))
        | inr off ↦ rw off (
            config_or_issues-IsEither _ _
              (IsDecisive-append _ _ (IsDecisive-first ing _) (IsDecisive-unverified _)))
      ]
