-- ===== src/Gateway/Known.antt =====
-- `BuildManagedGateway` depends on the current placements only through what it looks up in them.
use ingress_nginx_gateway_br.Common.{
  ◌≡◌, refl, ap, inl, inr, none, some, List, [], ◌∷◌, arith, lookup, has_key, Bool-cases,
  Option-cases, sort_by,
}
use ingress_nginx_gateway_br.Text.{Text, text_key}
use ingress_nginx_gateway_br.Api.{NamespacedName, name_key}
use ingress_nginx_gateway_br.Certificates.{is_wildcard, parent_wildcard}
use ingress_nginx_gateway_br.Gateway.{
  Placements, ManagedGatewayOptions, ProjectedListener, ListenerClaim, to_set, sorted_strings,
}
use ingress_nginx_gateway_br.Gateway.Hosts.{CertificateSource}
use ingress_nginx_gateway_br.Gateway.Groups.{
  Groups, claims_of, class_secrets, add_claim, target_of, claim_of, secret_of, group_hosts,
  classify, class_of, served_by, moves, churn, better, better_entry, first_key, pinned_key,
  winner_key, canonical_secret, resolve_wildcard_group, project_group, project_groups,
  projected_listeners,
}
use ingress_nginx_gateway_br.Gateway.Placement.{
  member_placement, inherited_placement, previous_placement,
}

-- Options with other placements.
abbrev pub knowing : ManagedGatewayOptions → Placements → ManagedGatewayOptions
knowing options current = record options { current_placements = current }

-- Two maps that say the same.
abbrev pub SaysSame : Placements → Placements → Type 0
SaysSame a b = (h : Text) → lookup h a ≡ lookup h b

module _ (a b : Placements) (same : SaysSame a b) where
  member_placement-same :
      (hostname : Text) (members : List Text)
      → member_placement hostname a members ≡ member_placement hostname b members
  unfolding member_placement
  member_placement-same hostname [] = refl
  member_placement-same hostname (m ∷ ms) =
      ground (arith, same m, member_placement-same hostname ms)

  pub inherited_placement-same :
      (l : ProjectedListener) → inherited_placement a l ≡ inherited_placement b l
  unfolding inherited_placement
  inherited_placement-same l = elim (Bool-cases (is_wildcard l.hostname)) [
    | inl wildcard ↦
        rw wildcard (member_placement-same l.hostname (sorted_strings (to_set l.hosts)))
    | inr plain ↦ elim (Option-cases (parent_wildcard l.hostname)) [
      | inl missing ↦ rw (plain, missing) refl
      | inr (candidate, at) ↦ rw (plain, at) (ground (arith, same candidate))
    ]
  ]

  pub previous_placement-same :
      (l : ProjectedListener) → previous_placement a l ≡ previous_placement b l
  unfolding previous_placement
  previous_placement-same l = ground (arith, same l.hostname)

  served_by-same : (target : Text) (c : ListenerClaim) → served_by a target c ≡ served_by b target c
  unfolding served_by has_key
  served_by-same target c = ground (arith, same c.host, same target)

  churn-same :
      (target : Text) (in_class claims : List ListenerClaim)
      → churn a target in_class claims ≡ churn b target in_class claims
  unfolding churn moves
  churn-same target in_class [] = refl
  churn-same target in_class (c ∷ cs) =
      ground (arith, served_by-same target c, churn-same target in_class cs)

  better-same :
      (target : Text) (claims x y : List ListenerClaim)
      → better a target claims x y ≡ better b target claims x y
  unfolding better
  better-same target claims x y =
      ground (arith, churn-same target x claims, churn-same target y claims)

  winner_key-same :
      (target : Text) (claims : List ListenerClaim) (classes : Groups)
      → winner_key a target claims classes ≡ winner_key b target claims classes
  unfolding winner_key
  winner_key-same target claims classes =
      let e : better_entry a target claims ≡ better_entry b target claims =
        λ i x y. better-same target claims x.1 y.1 i in
      ap
        (λ order. elim (pinned_key classes) [
          | some key ↦ some key
          | none ↦ first_key (sort_by order classes)
        ])
        e

  canonical_secret-same :
      (target : Text) (default : NamespacedName) (secrets : List NamespacedName)
      → canonical_secret a target default secrets ≡ canonical_secret b target default secrets
  unfolding canonical_secret
  canonical_secret-same target default secrets = ground (arith, same target)

module _ (options : ManagedGatewayOptions) (a b : Placements) (same : SaysSame a b) where
  group_hosts-same :
      (groups : Groups) (hosts : List (Text × CertificateSource))
      → group_hosts (knowing options a) groups hosts ≡ group_hosts (knowing options b) groups hosts
  unfolding group_hosts target_of
  group_hosts-same groups [] = refl
  group_hosts-same groups ((host, owner) ∷ hosts) =
      group_hosts-same
        (add_claim (target_of (knowing options a) host (secret_of owner)) (claim_of host owner)
          groups)
        hosts

  classify-same :
      (classes : Groups) (claims : List ListenerClaim)
      → classify (knowing options a) classes claims ≡ classify (knowing options b) classes claims
  unfolding classify class_of
  classify-same classes [] = refl
  classify-same classes (c ∷ claims) =
      classify-same (add_claim (class_of (knowing options a) c.secret) c classes) claims

  resolve_wildcard_group-same :
      (target : Text) (claims : List ListenerClaim)
      → resolve_wildcard_group target claims (knowing options a)
        ≡ resolve_wildcard_group target claims (knowing options b)
  unfolding resolve_wildcard_group
  resolve_wildcard_group-same target [] = refl
  resolve_wildcard_group-same target (c ∷ claims) =
      let classes = classify (knowing options b) [] (c ∷ claims) in
      let alike = classify-same [] (c ∷ claims) in
      let wins = winner_key-same a b same target (c ∷ claims) classes in
      elim (Option-cases (winner_key b target (c ∷ claims) classes)) [
        | inl missing ↦ ground (arith, alike, wins, missing)
        | inr (key, at) ↦ ground (
          arith,
          alike,
          wins,
          at,
          canonical_secret-same a b same target c.secret (class_secrets (claims_of key classes)),
        )
      ]

  project_group-same :
      (target : Text) (claims : List ListenerClaim)
      → project_group (knowing options a) target claims
        ≡ project_group (knowing options b) target claims
  unfolding project_group
  project_group-same target claims = ground (arith, resolve_wildcard_group-same target claims)

  project_groups-same :
      (groups : Groups) (targets : List Text)
      → project_groups (knowing options a) groups targets
        ≡ project_groups (knowing options b) groups targets
  unfolding project_groups
  project_groups-same groups [] = refl
  project_groups-same groups (target ∷ targets) =
      rw (project_group-same target _, project_groups-same groups targets) refl

  pub projected_listeners-same :
      (certificates : List (Text × CertificateSource))
      → projected_listeners (knowing options a) certificates
        ≡ projected_listeners (knowing options b) certificates
  unfolding projected_listeners
  projected_listeners-same certificates = rw (group_hosts-same [] _) (project_groups-same _ _)
