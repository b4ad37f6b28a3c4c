-- ===== src/Translate/Cors.antt =====
-- `corsFilter` in internal/translator/translate.go.
use ingress_nginx_gateway_br.Common.{
  ℕ, Bool, true, false, not, ◌&&◌, Option, none, some, List, [], ◌∷◌, ◌++◌, if◌then◌else◌, lookup,
  contains, nat_beq, leb,
}
use ingress_nginx_gateway_br.Text.{Text, text_key, codes, is_empty, trim_space}
use ingress_nginx_gateway_br.Api.{get_text}
use ingress_nginx_gateway_br.Types.{Issue}
use ingress_nginx_gateway_br.Gateway.Hosts.{error_issue}
use ingress_nginx_gateway_br.Annotations.{
  ann_enable_cors, ann_cors_allow_origin, ann_cors_allow_methods, ann_cors_allow_headers,
  ann_cors_expose_headers, ann_cors_allow_credentials, ann_cors_max_age,
}
use ingress_nginx_gateway_br.Translate.Values.{parse_bool, split_csv, valid_header_name}
use ingress_nginx_gateway_br.Controller.Observed.{digits_value}

-- `HTTPCORSFilter`
pub record CorsFilter : Type 0 where
  pub allow_origins : List Text
  pub allow_methods : List Text
  pub allow_headers : List Text
  pub expose_headers : List Text
  pub allow_credentials : Bool
  pub max_age : ℕ

-- `strconv.ParseBool`
unfoldable pub parse_go_bool : Text → Option Bool
parse_go_bool value =
    if contains value
      (codes "1" ∷ codes "t" ∷ codes "T" ∷ codes "TRUE" ∷ codes "true" ∷ codes "True" ∷ [])
    then some true
    else if contains value
        (codes "0" ∷ codes "f" ∷ codes "F" ∷ codes "FALSE" ∷ codes "false" ∷ codes "False" ∷ [])
    then some false
    else none

abbrev digits_of : Text → Option ℕ
digits_of [] = none
digits_of (c ∷ s) = digits_value 0 (c ∷ s)

abbrev unsigned : Text → Text
unsigned [] = []
unsigned (c ∷ s) = if nat_beq c b'+' then s else c ∷ s

abbrev in_int32 : Option ℕ → Option ℕ
in_int32 none = none
in_int32 (some n) = if leb 1 n && leb n 2147483647 then some n else none

-- `strconv.ParseInt(raw, 10, 32)`, where it gives at least 1.
unfoldable pub parse_seconds : Text → Option ℕ
parse_seconds raw = in_int32 (digits_of (unsigned raw))

abbrev values_or : List Text → List Text → List Text
values_or [] default = default
values_or (value ∷ values) default = value ∷ values

-- An issue for each value that is no header name.
unfoldable pub header_issues : List Text → List Issue
header_issues [] = []
header_issues (value ∷ values) =
    let rest = header_issues values in
    if valid_header_name value
    then rest
    else error_issue ann_cors_allow_headers (codes "invalid header") ∷ rest

abbrev credentials_of : Option Text → Bool × List Issue
credentials_of none = (true, [])
credentials_of (some raw) = elim (parse_go_bool (trim_space raw)) [
  | none ↦ (true, error_issue ann_cors_allow_credentials (codes "value must be true or false") ∷ [])
  | some value ↦ (value, [])
]

abbrev seconds_or_issue : Option ℕ → ℕ × List Issue
seconds_or_issue none = (
  1728000,
  error_issue ann_cors_max_age (codes "value must be a positive number of seconds") ∷ [],
)
seconds_or_issue (some value) = (value, [])

abbrev max_age_of : Text → ℕ × List Issue
max_age_of raw = if is_empty raw then (1728000, []) else seconds_or_issue (parse_seconds raw)

-- `corsFilter`
unfoldable pub cors_filter : List (Text × Text) → Option CorsFilter × List Issue
cors_filter annotations =
    let headers = split_csv (get_text ann_cors_allow_headers annotations) in
    let (credentials, credential_issues) =
      credentials_of (lookup ann_cors_allow_credentials annotations) in
    let (max_age, age_issues) = max_age_of (trim_space (get_text ann_cors_max_age annotations)) in
    if not (parse_bool (get_text ann_enable_cors annotations)) then (none, []) else (
      some (record {
        allow_origins =
            values_or (split_csv (get_text ann_cors_allow_origin annotations)) (codes "*" ∷ []);
        allow_methods = values_or (split_csv (get_text ann_cors_allow_methods annotations)) (
            codes "GET"
            ∷ codes "PUT"
            ∷ codes "POST"
            ∷ codes "DELETE"
            ∷ codes "PATCH"
            ∷ codes "OPTIONS"
            ∷ []);
        allow_headers = values_or headers (
            codes "DNT"
            ∷ codes "Keep-Alive"
            ∷ codes "User-Agent"
            ∷ codes "X-Requested-With"
            ∷ codes "If-Modified-Since"
            ∷ codes "Cache-Control"
            ∷ codes "Content-Type"
            ∷ codes "Range"
            ∷ codes "Authorization"
            ∷ []);
        expose_headers = split_csv (get_text ann_cors_expose_headers annotations);
        allow_credentials = credentials;
        max_age = max_age;
      }),
      header_issues headers ++ (credential_issues ++ age_issues),
    )

-- The functions above, for the tests.
unfoldable pub cors_functions : Unit {0}
unfolding parse_go_bool parse_seconds header_issues cors_filter
cors_functions = tt
