-- ===== src/Translate/Checks.antt =====
-- The checks of annotations in internal/translator/translate.go: header canaries, annotations that
-- nothing translates, and source ranges.
use ingress_nginx_gateway_br.Common.{
  ℕ, Bool, true, false, not, ◌&&◌, ◌||◌, Option, none, some, List, [], ◌∷◌, ◌++◌, if◌then◌else◌,
  lookup, contains, nat_beq, insert,
}
use ingress_nginx_gateway_br.Text.{Text, text_key, codes, trim_space, is_empty, has_prefix, split}
use ingress_nginx_gateway_br.Api.{Ingress, Backend, get_text}
use ingress_nginx_gateway_br.Types.{Issue, error, warning, Severity}
use ingress_nginx_gateway_br.Gateway.Hosts.{error_issue}
use ingress_nginx_gateway_br.Annotations.{
  ann_canary, ann_canary_by_header, ann_canary_by_header_value, annotation_prefix,
  known_annotations, ann_whitelist_source_range,
}
use ingress_nginx_gateway_br.Translate.Values.{parse_bool, valid_header_name}

-- `HTTPHeaderMatch` of type Exact.
pub record HeaderMatch : Type 0 where
  pub name : Text
  pub value : Text

-- `headerCanaryMatch`
unfoldable pub header_canary_match : List (Text × Text) → Option HeaderMatch × List Issue
header_canary_match annotations =
    let header = trim_space (get_text ann_canary_by_header annotations) in
    let value = trim_space (get_text ann_canary_by_header_value annotations) in
    if is_empty header || is_empty value
    then (
      none,
      error_issue ann_canary (
            codes
              "only header/value canaries are currently supported; both canary-by-header and canary-by-header-value are required")
          ∷ [],
    )
    else if not (valid_header_name header)
    then (none, error_issue ann_canary_by_header (codes "invalid HTTP header name") ∷ [])
    else (some (record { name = header; value = value }), [])

abbrev default_backend_issue : Option Backend → List Issue
default_backend_issue none = []
default_backend_issue (some backend) =
    error_issue (codes "spec.defaultBackend")
      (codes "a canary cannot be used as a catch-all default backend")
    ∷ []

-- `ValidateCanary`
unfoldable pub validate_canary : Ingress → List Issue
validate_canary ing =
    if not (parse_bool (get_text ann_canary ing.annotations))
    then []
    else (header_canary_match ing.annotations).1 ++ default_backend_issue ing.default_backend

unfoldable pub remove : Text → List (Text × Text) → List (Text × Text)
remove key [] = []
remove key ((found, value) ∷ entries) =
    let rest = remove key entries in
    if contains key (found ∷ []) then rest else (found, value) ∷ rest

-- The canary's own annotation, or none.
abbrev override_annotation : List (Text × Text) → Text → List (Text × Text) → List (Text × Text)
override_annotation own key annotations = elim (lookup key own) [
  | some value ↦ insert key value annotations
  | none ↦ remove key annotations
]

-- `inheritedCanaryIngress`
unfoldable pub inherited_canary_ingress : Ingress → Ingress → Ingress
inherited_canary_ingress primary canary = record canary {
  annotations = override_annotation canary.annotations ann_canary_by_header_value (
      override_annotation canary.annotations ann_canary_by_header
        (override_annotation canary.annotations ann_canary primary.annotations));
}

abbrev unknown_severity : Bool → Severity
unknown_severity true = error
unknown_severity false = warning

-- `checkUnknownAnnotations`, in the order of the association list.
unfoldable pub check_unknown_annotations : Bool → List (Text × Text) → List Issue
check_unknown_annotations strict [] = []
check_unknown_annotations strict ((key, value) ∷ annotations) =
    let issues = check_unknown_annotations strict annotations in
    if not (has_prefix key annotation_prefix)
    then issues
    else if contains key known_annotations
    then issues
    else record {
      severity = unknown_severity strict;
      field = key;
      message = codes "annotation has no declared compatibility translation";
    }
      ∷ issues

-- The family of a valid `netip.Addr`: `Is4` or `Is6`.
pub data Family : Type 0 where
  ipv4 ipv6 : Family

-- A parsed `netip.Prefix`: the family of its address, and its bits.
pub record Prefix : Type 0 where
  pub family : Family
  pub bits : ℕ

abbrev pub is4 : Family → Bool
is4 ipv4 = true
is4 ipv6 = false

abbrev pub opens_ipv4 : Prefix → Bool
opens_ipv4 prefix = is4 prefix.family && nat_beq prefix.bits 0

abbrev pub opens_ipv6 : Prefix → Bool
opens_ipv6 prefix = not (is4 prefix.family) && nat_beq prefix.bits 0

unfoldable pub invalid_cidr_issue : Issue
invalid_cidr_issue =
    error_issue ann_whitelist_source_range (codes "whitelist-source-range contains invalid CIDR")

unfoldable pub narrow_ranges_issue : Issue
narrow_ranges_issue = error_issue ann_whitelist_source_range (
    codes
      "whitelist-source-range must allow all IPv4 and IPv6 source addresses; source filtering is not supported")

-- `parse_prefix` is `netip.ParsePrefix`, masked.
module _ (parse_prefix : Text → Option Prefix) where
  -- The loop over the values, with the two flags so far.
  unfoldable pub check_ranges : Bool → Bool → List Text → List Issue
  check_ranges all4 all6 [] = if all4 && all6 then [] else narrow_ranges_issue ∷ []
  check_ranges all4 all6 (value ∷ values) = elim (parse_prefix (trim_space value)) [
    | none ↦ invalid_cidr_issue ∷ []
    | some prefix ↦
        if opens_ipv4 prefix
        then check_ranges true all6 values
        else if opens_ipv6 prefix
        then check_ranges all4 true values
        else check_ranges all4 all6 values
  ]

  -- `validateWhitelistSourceRange`
  unfoldable pub validate_whitelist_source_range : List (Text × Text) → List Issue
  validate_whitelist_source_range annotations =
      elim (lookup ann_whitelist_source_range annotations) [
        | none ↦ []
        | some raw ↦ check_ranges false false (split raw b',')
      ]

-- The checks above, for the tests.
unfoldable pub checks_functions : Unit {0}
unfolding header_canary_match validate_canary remove inherited_canary_ingress
    check_unknown_annotations check_ranges validate_whitelist_source_range contains lookup insert
    known_annotations has_prefix is_empty trim_space get_text parse_bool valid_header_name split
checks_functions = tt
