-- ===== src/Translate/Ranges.antt =====
-- Which source ranges `validateWhitelistSourceRange` accepts.
use ingress_nginx_gateway_br.Common.{
  ◌≡◌, ◌↔◌, Bool, true, false, ◌&&◌, ◌||◌, Option, none, some, List, [], ◌∷◌, arith, any, all,
  lookup,
}
use ingress_nginx_gateway_br.Text.{Text, text_key, trim_space, split}
use ingress_nginx_gateway_br.Annotations.{ann_whitelist_source_range}
use ingress_nginx_gateway_br.Translate.Checks.{
  Prefix, opens_ipv4, opens_ipv6, check_ranges, validate_whitelist_source_range,
}

module _ (parse_prefix : Text → Option Prefix) where
  abbrev pub parses : Text → Bool
  parses value = elim (parse_prefix (trim_space value)) [ none ↦ false | some prefix ↦ true ]

  -- Whether a value is the whole of a family.
  abbrev pub opens : (Prefix → Bool) → Text → Bool
  opens family value = elim (parse_prefix (trim_space value)) [
    | none ↦ false
    | some prefix ↦ family prefix
  ]

  -- All values are CIDRs, and both families are among them, or known to be allowed.
  abbrev allowed : Bool → Bool → List Text → Bool
  allowed all4 all6 values =
      all parses values
      && ((all4 || any (opens opens_ipv4) values) && (all6 || any (opens opens_ipv6) values))

  check_ranges-allowed :
      (all4 all6 : Bool) (values : List Text)
      → (check_ranges parse_prefix all4 all6 values ≡ []) ↔ (allowed all4 all6 values ≡ true)
  unfolding check_ranges all any
  check_ranges-allowed all4 all6 [] = ground arith
  check_ranges-allowed all4 all6 (value ∷ values) = ground (
    arith,
    check_ranges-allowed true all6 values,
    check_ranges-allowed all4 true values,
    check_ranges-allowed all4 all6 values,
  )

  -- An allow list that is set gives no issue exactly where each of its values is a CIDR and both the
  -- whole of IPv4 and the whole of IPv6 are among them.
  pub validate_whitelist_source_range-all :
      (annotations : List (Text × Text)) (raw : Text)
      → lookup ann_whitelist_source_range annotations ≡ some raw
      → (validate_whitelist_source_range parse_prefix annotations ≡ []) ↔ (
          (all parses (split raw b',')
            && (any (opens opens_ipv4) (split raw b',') && any (opens opens_ipv6) (split raw b',')))
          ≡ true)
  unfolding validate_whitelist_source_range
  validate_whitelist_source_range-all annotations raw set =
      rw (validate_whitelist_source_range, set) (check_ranges-allowed false false (split raw b','))
