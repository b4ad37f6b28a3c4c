-- ===== src/Gateway/Groups.antt =====
-- The second part of `BuildManagedGateway` and `resolveWildcardGroup` in
-- internal/translator/gateway.go: declared hosts are grouped under the wildcard that covers them, and
-- each group gets one shared listener and exact listeners for the claims that do not share it.
use ingress_nginx_gateway_br.Common.{
  ℕ, ◌+◌, Bool, not, Option, none, some, List, [], ◌∷◌, ◌++◌, map, if◌then◌else◌, lookup, insert,
  add, contains, keys, has_key, any, sort_by, ltb, nat_beq, length,
}
use ingress_nginx_gateway_br.Text.{Text, text_key, text_eq, text_lt, codes, is_empty, sort_texts}
use ingress_nginx_gateway_br.Api.{NamespacedName, name_key, name_text}
use ingress_nginx_gateway_br.Certificates.{CertificateInfo, is_wildcard, covering_wildcard}
use ingress_nginx_gateway_br.Gateway.{
  Placements, ManagedGatewayOptions, ProjectedListener, ListenerClaim, to_set, sorted_strings,
}
use ingress_nginx_gateway_br.Gateway.Hosts.{CertificateSource}

-- `options.Certificates[secret]`
abbrev pub certificate_of : ManagedGatewayOptions → NamespacedName → Option CertificateInfo
certificate_of options secret = elim options.certificates [
  | none ↦ none
  | some certificates ↦ lookup secret certificates
]

abbrev or_host : Text → Option Text → Text
or_host host none = host
or_host host (some w) = w

-- The listener that a host asks for: the wildcard that covers it, if its certificate has one.
unfoldable pub target_of : ManagedGatewayOptions → Text → NamespacedName → Text
target_of options host secret =
    if is_wildcard host then host else elim (certificate_of options secret) [
      | none ↦ host
      | some info ↦ or_host host (covering_wildcard host info)
    ]

abbrev pub Groups : Type 0
Groups = List (Text × List ListenerClaim)

abbrev pub claims_of : Text → Groups → List ListenerClaim
claims_of target groups = elim (lookup target groups) [ none ↦ [] | some claims ↦ claims ]

-- `groups[target] = append(groups[target], claim)`
unfoldable pub add_claim : Text → ListenerClaim → Groups → Groups
add_claim target claim groups = insert target (claims_of target groups ++ claim ∷ []) groups

unfoldable pub secret_of : CertificateSource → NamespacedName
secret_of owner = record { namespace = owner.namespace; name = owner.secret }

-- The claim of a declared host.
unfoldable pub claim_of : Text → CertificateSource → ListenerClaim
claim_of host owner = record { host = host; secret = secret_of owner; pinned = is_wildcard host }

-- The loop over the sorted hosts, each with its source.
unfoldable pub group_hosts :
    ManagedGatewayOptions → Groups → List (Text × CertificateSource) → Groups
group_hosts options groups [] = groups
group_hosts options groups ((host, owner) ∷ hosts) =
    group_hosts options
      (add_claim (target_of options host (secret_of owner)) (claim_of host owner) groups) hosts

-- The class of a Secret: its certificate's chain, or the Secret itself.
unfoldable pub class_of : ManagedGatewayOptions → NamespacedName → Text
class_of options secret =
    let by_secret = codes "secret:" ++ name_text secret in
    elim (certificate_of options secret) [
      | none ↦ by_secret
      | some info ↦ if is_empty info.fingerprint then by_secret else codes "fp:" ++ info.fingerprint
    ]

-- The claims of each class, in the order of their first claim.
unfoldable pub classify : ManagedGatewayOptions → Groups → List ListenerClaim → Groups
classify options classes [] = classes
classify options classes (c ∷ claims) =
    classify options (add_claim (class_of options c.secret) c classes) claims

abbrev pub claim_hosts : List ListenerClaim → List Text
claim_hosts claims = map (λ c. c.host) claims

unfoldable pub names_set : List NamespacedName → List NamespacedName
names_set [] = []
names_set (n ∷ names) = add n (names_set names)

unfoldable pub by_text : NamespacedName → NamespacedName → Bool
by_text a b = text_lt (name_text a) (name_text b)

-- `sortedNamespacedNames`
unfoldable pub sorted_names : List NamespacedName → List NamespacedName
sorted_names set = sort_by by_text set

-- The fields `secrets`, `hosts` and `pinned` of a class.
unfoldable pub class_secrets : List ListenerClaim → List NamespacedName
class_secrets claims = sorted_names (names_set (map (λ c. c.secret) claims))

unfoldable pub class_hosts : List ListenerClaim → List Text
class_hosts claims = sorted_strings (to_set (claim_hosts claims))

unfoldable pub class_pinned : List ListenerClaim → Bool
class_pinned claims = any (λ c. c.pinned) claims

-- Where a claim's host is served now: by itself, or by the wildcard.
unfoldable pub served_by : Placements → Text → ListenerClaim → Option Text
served_by current target c =
    if has_key c.host current
    then some c.host
    else if has_key target current
    then some target
    else none

-- One if choosing the class would move the claim to another listener.
unfoldable pub moves : Placements → Text → List ListenerClaim → ListenerClaim → ℕ
moves current target in_class c =
    let wanted = if contains c.host (claim_hosts in_class) then target else c.host in
    elim (served_by current target c) [
      | none ↦ 0
      | some previous ↦ if text_eq previous wanted then 0 else 1
    ]

unfoldable pub churn : Placements → Text → List ListenerClaim → List ListenerClaim → ℕ
churn current target in_class [] = 0
churn current target in_class (c ∷ claims) =
    moves current target in_class c + churn current target in_class claims

abbrev head_text : List NamespacedName → Text
head_text [] = []
head_text (n ∷ names) = name_text n

-- The order of the scores: less churn, then more hosts, then the first Secret.
unfoldable pub better :
    Placements → Text → List ListenerClaim → List ListenerClaim → List ListenerClaim → Bool
better current target claims a b =
    let churn_a = churn current target a claims in
    let churn_b = churn current target b claims in
    if not (nat_beq churn_a churn_b)
    then ltb churn_a churn_b
    else if not (nat_beq (length (class_hosts a)) (length (class_hosts b)))
    then ltb (length (class_hosts b)) (length (class_hosts a))
    else text_lt (head_text (class_secrets a)) (head_text (class_secrets b))

-- The key of the first pinned class.
unfoldable pub pinned_key : Groups → Option Text
pinned_key [] = none
pinned_key ((key, members) ∷ classes) =
    if class_pinned members then some key else pinned_key classes

abbrev pub better_entry :
    Placements
    → Text
    → List ListenerClaim
    → Text × List ListenerClaim
    → Text × List ListenerClaim
    → Bool
better_entry current target claims a b = better current target claims a.1 b.1

abbrev pub first_key : Groups → Option Text
first_key [] = none
first_key ((key, members) ∷ classes) = some key

-- The class that wins the wildcard; `none` where there is no class.
unfoldable pub winner_key : Placements → Text → List ListenerClaim → Groups → Option Text
winner_key current target claims classes = elim (pinned_key classes) [
  | some key ↦ some key
  | none ↦ first_key (sort_by (better_entry current target claims) classes)
]

abbrev head_name : NamespacedName → List NamespacedName → NamespacedName
head_name default [] = default
head_name default (n ∷ names) = n

-- The Secret of the shared listener: the previous one, if it is of the class, else the first.
unfoldable pub canonical_secret :
    Placements → Text → NamespacedName → List NamespacedName → NamespacedName
canonical_secret current target default secrets =
    let first = head_name default secrets in
    elim (lookup target current) [
      | none ↦ first
      | some previous ↦ if contains previous.secret secrets then previous.secret else first
    ]

abbrev pub exact_listener : ListenerClaim → ProjectedListener
exact_listener c = record { hostname = c.host; secret = c.secret; hosts = c.host ∷ [] }

-- The claims of every class but the winner's.
unfoldable pub losing_claims : Text → Groups → List ListenerClaim
losing_claims winner [] = []
losing_claims winner ((key, members) ∷ classes) =
    if text_eq key winner
    then losing_claims winner classes
    else members ++ losing_claims winner classes

unfoldable pub listener_before : ProjectedListener → ProjectedListener → Bool
listener_before a b = text_lt a.hostname b.hostname

-- `resolveWildcardGroup`: the shared listener, then the exact ones. A group is never empty, so there
-- is a winning class and it has a claim.
unfoldable pub resolve_wildcard_group :
    Text → List ListenerClaim → ManagedGatewayOptions → List ProjectedListener
resolve_wildcard_group target [] options = []
resolve_wildcard_group target (c ∷ claims) options =
    let classes = classify options [] (c ∷ claims) in
    elim (winner_key options.current_placements target (c ∷ claims) classes) [
      | none ↦ []
      | some key ↦
          let members = claims_of key classes in
          record {
            hostname = target;
            secret =
                canonical_secret options.current_placements target c.secret (class_secrets members);
            hosts = class_hosts members;
          }
          ∷ sort_by listener_before (map exact_listener (losing_claims key classes))
    ]

-- A target that is no wildcard has one claim.
unfoldable pub project_group :
    ManagedGatewayOptions → Text → List ListenerClaim → List ProjectedListener
project_group options target claims =
    if is_wildcard target then resolve_wildcard_group target claims options else elim claims [
      | [] ↦ []
      | c ∷ _ ↦ record { hostname = target; secret = c.secret; hosts = c.host ∷ [] } ∷ []
    ]

unfoldable pub project_groups : ManagedGatewayOptions → Groups → List Text → List ProjectedListener
project_groups options groups [] = []
project_groups options groups (target ∷ targets) =
    project_group options target (claims_of target groups) ++ project_groups options groups targets

abbrev sources_of : List (Text × CertificateSource) → List Text → List (Text × CertificateSource)
sources_of certificates [] = []
sources_of certificates (host ∷ hosts) = elim (lookup host certificates) [
  | none ↦ sources_of certificates hosts
  | some owner ↦ (host, owner) ∷ sources_of certificates hosts
]

-- The declared hosts in order, each with its source.
unfoldable pub sorted_sources : List (Text × CertificateSource) → List (Text × CertificateSource)
sorted_sources certificates = sources_of certificates (sort_texts (keys certificates))

-- The listeners of all declared hosts, before placement.
unfoldable pub projected_listeners :
    ManagedGatewayOptions → List (Text × CertificateSource) → List ProjectedListener
projected_listeners options certificates =
    let groups = group_hosts options [] (sorted_sources certificates) in
    project_groups options groups (sort_texts (keys groups))

-- The functions above, for the tests.
unfoldable pub groups_functions : Unit {0}
unfolding target_of add_claim secret_of claim_of group_hosts class_of classify names_set by_text
    sorted_names class_secrets class_hosts class_pinned served_by moves churn better pinned_key
    winner_key canonical_secret losing_claims listener_before resolve_wildcard_group project_group
    project_groups sorted_sources projected_listeners to_set sorted_strings covering_wildcard any
    has_key lookup insert add contains sort_by
groups_functions = tt
