-- ===== src/Gateway/Hosts.antt =====
-- `effectiveTLSHosts` and the first loop of `BuildManagedGateway` in internal/translator/gateway.go:
-- which Secret serves each declared TLS host, who declared it, and the issues of the Ingresses.
pub mod Owners
pub mod Settled
use ingress_nginx_gateway_br.Common.{
  Bool, not, ◌||◌, Option, none, some, List, [], ◌∷◌, ◌++◌, if◌then◌else◌, lookup, insert, add,
  contains, sort_by,
}
use ingress_nginx_gateway_br.Text.{
  Text, text_key, text_eq, text_lt, codes, to_lower, trim_space, is_empty,
}
use ingress_nginx_gateway_br.Api.{NamespacedName, name_key, Ingress, IngressTls, IngressRule}
use ingress_nginx_gateway_br.Types.{Issue, error}

-- `strings.ToLower(strings.TrimSpace(raw))`
unfoldable pub clean_host : Text → Text
clean_host raw = to_lower (trim_space raw)

unfoldable pub nonempty_hosts : List Text → List Text
nonempty_hosts [] = []
nonempty_hosts (raw ∷ hosts) =
    let host = clean_host raw in
    if is_empty host then nonempty_hosts hosts else host ∷ nonempty_hosts hosts

-- The named rules, each host once; `result` is what the loop has so far.
unfoldable pub rule_hosts : List Text → List IngressRule → List Text
rule_hosts result [] = result
rule_hosts result (rule ∷ rules) =
    let host = clean_host rule.host in
    rule_hosts (if is_empty host || contains host result then result else result ++ host ∷ []) rules

-- `effectiveTLSHosts`
abbrev hosts_or : List Text → List IngressRule → List Text
hosts_or [] rules = rule_hosts [] rules
hosts_or (h ∷ hs) rules = nonempty_hosts (h ∷ hs)

unfoldable pub effective_tls_hosts : Ingress → IngressTls → List Text
effective_tls_hosts ing tls = hosts_or tls.hosts ing.rules

-- `certificateSource`
pub record CertificateSource : Type 0 where
  pub namespace : Text
  pub secret : Text
  pub source : NamespacedName

abbrev pub Issues : Type 0
Issues = List (NamespacedName × List Issue)

-- The maps that the loop fills.
pub record Declared : Type 0 where
  pub tls_hosts : List Text
  pub certificates : List (Text × CertificateSource)
  pub declared_by : List (Text × List NamespacedName)
  pub issues : Issues

abbrev pub nothing_declared : Declared
nothing_declared = record { tls_hosts = []; certificates = []; declared_by = []; issues = [] }

abbrev pub error_issue : Text → Text → Issue
error_issue field message = record { severity = error; field = field; message = message }

abbrev pub issues_of : NamespacedName → Issues → List Issue
issues_of source issues = elim (lookup source issues) [ none ↦ [] | some is ↦ is ]

-- `plan.Issues[source] = append(plan.Issues[source], issue)`
unfoldable pub add_issue : NamespacedName → Issue → Issues → Issues
add_issue source issue issues = insert source (issues_of source issues ++ issue ∷ []) issues

abbrev names_of : Text → List (Text × List NamespacedName) → List NamespacedName
names_of host declared_by = elim (lookup host declared_by) [ none ↦ [] | some names ↦ names ]

-- `declaredBy[host][source] = struct{}{}`
unfoldable pub declare :
    Text → NamespacedName → List (Text × List NamespacedName) → List (Text × List NamespacedName)
declare host source declared_by = insert host (add source (names_of host declared_by)) declared_by

unfoldable pub conflicts : CertificateSource → CertificateSource → Bool
conflicts existing candidate =
    not (text_eq existing.namespace candidate.namespace)
    || not (text_eq existing.secret candidate.secret)

unfoldable pub conflict_issue : Issue
conflict_issue =
    error_issue (codes "spec.tls")
      (codes "TLS hostname conflicts with the Secret selected by another Ingress")

-- The host is free, or has this Secret already: the candidate becomes its source.
unfoldable pub take_host : Text → CertificateSource → Declared → Declared
take_host host candidate d = record d {
  tls_hosts = add host d.tls_hosts;
  certificates = insert host candidate d.certificates;
  declared_by = declare host candidate.source d.declared_by;
}

-- The host has another Secret: both Ingresses get the issue.
unfoldable pub refuse_host : Text → CertificateSource → CertificateSource → Declared → Declared
refuse_host host existing candidate d = record d {
  declared_by = declare host candidate.source d.declared_by;
  issues =
      add_issue existing.source conflict_issue (add_issue candidate.source conflict_issue d.issues);
}

abbrev claim_host : Text → CertificateSource → Option CertificateSource → Declared → Declared
claim_host host candidate none d = take_host host candidate d
claim_host host candidate (some existing) d =
    if conflicts existing candidate
    then refuse_host host existing candidate d
    else take_host host candidate d

unfoldable pub empty_host_issue : Issue
empty_host_issue =
    error_issue (codes "spec.tls.hosts")
      (codes "managed listeners do not support an empty TLS hostname")

-- The body of the loop over the hosts of a TLS entry.
unfoldable pub collect_host : CertificateSource → Declared → Text → Declared
collect_host candidate d raw =
    let host = clean_host raw in
    if is_empty host
    then record d { issues = add_issue candidate.source empty_host_issue d.issues }
    else claim_host host candidate (lookup host d.certificates) d

unfoldable pub collect_hosts_of : CertificateSource → Declared → List Text → Declared
collect_hosts_of candidate d [] = d
collect_hosts_of candidate d (raw ∷ hosts) =
    collect_hosts_of candidate (collect_host candidate d raw) hosts

unfoldable pub no_secret_issue : Issue
no_secret_issue =
    error_issue (codes "spec.tls.secretName") (codes "managed listeners require a TLS Secret name")

unfoldable pub no_hosts_issue : Issue
no_hosts_issue =
    error_issue (codes "spec.tls.hosts")
      (codes "TLS entry has no hosts and the Ingress has no named rules from which to infer them")

abbrev pub source_of : Ingress → NamespacedName
source_of ing = record { namespace = ing.namespace; name = ing.name }

abbrev collect_or_issue : CertificateSource → Declared → List Text → Declared
collect_or_issue candidate d [] = record d {
  issues = add_issue candidate.source no_hosts_issue d.issues;
}
collect_or_issue candidate d (h ∷ hs) = collect_hosts_of candidate d (h ∷ hs)

-- The body of the loop over the TLS entries of an Ingress.
unfoldable pub collect_tls : Ingress → Declared → IngressTls → Declared
collect_tls ing d tls =
    let secret = trim_space tls.secret_name in
    if is_empty secret
    then record d { issues = add_issue (source_of ing) no_secret_issue d.issues }
    else collect_or_issue
        (record { namespace = ing.namespace; secret = secret; source = source_of ing }) d
        (effective_tls_hosts ing tls)

unfoldable pub collect_entries : Ingress → Declared → List IngressTls → Declared
collect_entries ing d [] = d
collect_entries ing d (tls ∷ entries) = collect_entries ing (collect_tls ing d tls) entries

-- An Ingress that is being deleted declares nothing.
unfoldable pub collect_ingress : Declared → Ingress → Declared
collect_ingress d ing = if ing.deleting then d else collect_entries ing d ing.tls

unfoldable pub collect_ingresses : Declared → List Ingress → Declared
collect_ingresses d [] = d
collect_ingresses d (ing ∷ ings) = collect_ingresses (collect_ingress d ing) ings

unfoldable pub by_name : Ingress → Ingress → Bool
by_name a b =
    if not (text_eq a.namespace b.namespace)
    then text_lt a.namespace b.namespace
    else text_lt a.name b.name

-- The declared hosts of all Ingresses, in the order of namespace and name.
unfoldable pub declared_hosts : List Ingress → Declared
declared_hosts ingresses = collect_ingresses nothing_declared (sort_by by_name ingresses)

-- The functions above, for the tests.
unfoldable pub hosts_functions : Unit {0}
unfolding clean_host nonempty_hosts rule_hosts effective_tls_hosts add_issue declare conflicts
    conflict_issue take_host refuse_host empty_host_issue collect_host collect_hosts_of
    no_secret_issue no_hosts_issue collect_tls collect_entries collect_ingress collect_ingresses
    by_name declared_hosts lookup insert add contains sort_by
hosts_functions = tt
