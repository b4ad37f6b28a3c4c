-- ===== src/Translate/Hosts.antt =====
-- `collectHosts` in internal/translator/translate.go: the virtual hosts of an Ingress, each with its
-- paths and the TLS host that covers it.
use ingress_nginx_gateway_br.Common.{
  Bool, true, false, ◌&&◌, Option, none, some, List, [], ◌∷◌, ◌++◌, if◌then◌else◌, lookup, insert,
  has_key, add, map,
}
use ingress_nginx_gateway_br.Text.{Text, text_key, codes, to_lower, is_empty}
use ingress_nginx_gateway_br.Api.{
  Ingress, IngressRule, IngressTls, HttpIngressPath, Backend, PathType, get_text,
}
use ingress_nginx_gateway_br.Types.{Issue, warning, ListenerRef, Options}
use ingress_nginx_gateway_br.Gateway.Hosts.{
  error_issue, no_hosts_issue, clean_host, effective_tls_hosts,
}
use ingress_nginx_gateway_br.Annotations.{ann_server_alias}
use ingress_nginx_gateway_br.Translate.Values.{split_csv, matching_tls_host}

-- `hostInput`; `tls_listener` is `none` for the zero `ListenerRef`.
pub record HostInput : Type 0 where
  pub hostname : Text
  pub paths : List HttpIngressPath
  pub tls_hostname : Text
  pub tls_listener : Option ListenerRef

-- `byHost`, `ordered` and the issues so far.
pub record Collected : Type 0 where
  pub by_host : List (Text × List HttpIngressPath)
  pub ordered : List Text
  pub issues : List Issue

abbrev empty_entry : List Text → List Issue
empty_entry [] = no_hosts_issue ∷ []
empty_entry (host ∷ hosts) = []

unfoldable pub add_all : List Text → List Text → List Text
add_all set [] = set
add_all set (host ∷ hosts) = add_all (add host set) hosts

-- The TLS hosts of the Ingress itself.
unfoldable pub own_tls_hosts :
    Ingress → List Text × List Issue → List IngressTls → List Text × List Issue
own_tls_hosts ing result [] = result
own_tls_hosts ing (tls_hosts, issues) (tls ∷ entries) =
    let hosts = effective_tls_hosts ing tls in
    own_tls_hosts ing (add_all tls_hosts hosts, issues ++ empty_entry hosts) entries

abbrev pub tls_hosts_or_own : Ingress → Option (List Text) → List Text × List Issue
tls_hosts_or_own ing (some tls_hosts) = (tls_hosts, [])
tls_hosts_or_own ing none = own_tls_hosts ing ([], []) ing.tls

abbrev paths_of : Text → List (Text × List HttpIngressPath) → List HttpIngressPath
paths_of host by_host = elim (lookup host by_host) [ none ↦ [] | some paths ↦ paths ]

-- `byHost[host] = append(byHost[host], paths...)`, with a new host at the end of `ordered`.
unfoldable pub add_paths : Text → List HttpIngressPath → Collected → Collected
add_paths host paths c = record c {
  by_host = insert host (paths_of host c.by_host ++ paths) c.by_host;
  ordered = if has_key host c.by_host then c.ordered else c.ordered ++ host ∷ [];
}

abbrev pub collect_rule : Text → Option (List HttpIngressPath) → Collected → Collected
collect_rule host none c = record c {
  issues =
      c.issues
      ++ error_issue (codes "spec.rules") (codes "host does not contain an HTTP rule") ∷ [];
}
collect_rule host (some paths) c = add_paths (clean_host host) paths c

unfoldable pub collect_rules : List IngressRule → Collected → Collected
collect_rules [] c = c
collect_rules (rule ∷ rules) c = collect_rules rules (collect_rule rule.host rule.http c)

unfoldable pub collect_default : Option Backend → Collected → Collected
collect_default none c = c
collect_default (some backend) c =
    add_paths []
      (record { path = codes "/"; path_type = some PathType.prefix; backend = backend } ∷ []) c

abbrev nothing_issue : List Text → List Issue
nothing_issue [] =
    error_issue (codes "spec") (codes "Ingress has neither HTTP rules nor a default backend") ∷ []
nothing_issue (host ∷ hosts) = []

unfoldable pub alias_issue : Issue
alias_issue = record {
  severity = warning;
  field = ann_server_alias;
  message = codes "alias is not listed in spec.tls.hosts and will only attach to HTTP";
}

-- One alias, which gets the paths of the first host. `has_tls` says that the Ingress has TLS entries.
unfoldable pub collect_alias :
    List Text → Bool → List HttpIngressPath → Collected → Text → Collected
collect_alias tls_hosts has_tls base_paths c raw =
    let alias = to_lower raw in
    if has_key alias c.by_host then c else record {
      by_host = insert alias base_paths c.by_host;
      ordered = c.ordered ++ alias ∷ [];
      issues =
          if is_empty (matching_tls_host alias tls_hosts) && has_tls
          then c.issues ++ alias_issue ∷ []
          else c.issues;
    }

unfoldable pub collect_aliases :
    List Text → Bool → List HttpIngressPath → Collected → List Text → Collected
collect_aliases tls_hosts has_tls base_paths c [] = c
collect_aliases tls_hosts has_tls base_paths c (raw ∷ aliases) =
    collect_aliases tls_hosts has_tls base_paths (collect_alias tls_hosts has_tls base_paths c raw)
      aliases

abbrev is_some_entry : List IngressTls → Bool
is_some_entry [] = false
is_some_entry (tls ∷ entries) = true

-- The aliases need a first host, whose paths they take.
abbrev pub aliases_after : List Text → List Text → Bool → List Text → Collected → Collected
aliases_after tls_hosts [] has_tls ordered c = c
aliases_after tls_hosts (alias ∷ aliases) has_tls [] c = record c {
  issues =
      c.issues
      ++ error_issue ann_server_alias (codes "server aliases require at least one HTTP rule") ∷ [];
}
aliases_after tls_hosts (alias ∷ aliases) has_tls (first ∷ ordered) c =
    collect_aliases tls_hosts has_tls (paths_of first c.by_host) c (alias ∷ aliases)

unfoldable pub named_hosts : Ingress → List Issue → Collected
named_hosts ing issues =
    let c =
      collect_default ing.default_backend
        (collect_rules ing.rules (record { by_host = []; ordered = []; issues = issues })) in
    record c { issues = c.issues ++ nothing_issue c.ordered }

unfoldable pub collect_all : Ingress → List Text × List Issue → Collected
collect_all ing (tls_hosts, issues) =
    let c = named_hosts ing issues in
    aliases_after tls_hosts (split_csv (get_text ann_server_alias ing.annotations))
      (is_some_entry ing.tls) c.ordered c

-- The last loop, for one host.
unfoldable pub host_input :
    List Text → List (Text × ListenerRef) → List (Text × List HttpIngressPath) → Text → HostInput
host_input tls_hosts tls_sections by_host host =
    let tls_hostname = matching_tls_host host tls_hosts in
    record {
      hostname = host;
      paths = paths_of host by_host;
      tls_hostname = tls_hostname;
      tls_listener = if is_empty tls_hostname then none else lookup tls_hostname tls_sections;
    }

-- `collectHosts`
unfoldable pub collect_hosts : Ingress → Options → List HostInput × List Issue
collect_hosts ing options =
    let (tls_hosts, issues) = tls_hosts_or_own ing options.tls_hosts in
    let c = collect_all ing (tls_hosts, issues) in
    (map (host_input tls_hosts options.gateway.tls_sections c.by_host) c.ordered, c.issues)

-- The functions above, for the tests.
unfoldable pub collect_functions : Unit {0}
unfolding add_all own_tls_hosts add_paths collect_rules collect_default alias_issue collect_alias
    collect_aliases named_hosts collect_all host_input collect_hosts lookup insert has_key add
collect_functions = tt
