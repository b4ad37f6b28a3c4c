-- ===== src/Translate/Distinct.antt =====
-- The hostnames that `collectHosts` gives: each once, so that no two routes of an Ingress share one.
use ingress_nginx_gateway_br.Common.{
  ◌≡◌, refl, sym, ap, ◌∙◌, subst, inl, inr, Bool, true, false, ◌||◌, Option, none, some, List, [],
  ◌∷◌, ◌++◌, map, arith, lookup, insert, has_key, lookup-insert, contains, contains-append, IsNodup,
  IsNodup-append_one, Bool-cases,
}
use ingress_nginx_gateway_br.Text.{Text, text_key, text_eq, text_eq_iff, to_lower}
use ingress_nginx_gateway_br.Api.{Ingress, IngressRule, HttpIngressPath, Backend, get_text}
use ingress_nginx_gateway_br.Types.{Issue, ListenerRef, Options}
use ingress_nginx_gateway_br.Annotations.{ann_server_alias}
use ingress_nginx_gateway_br.Gateway.Hosts.{clean_host}
use ingress_nginx_gateway_br.Translate.Values.{split_csv}
use ingress_nginx_gateway_br.Translate.Hosts.{
  Collected, add_paths, collect_rule, collect_rules, collect_default, collect_alias,
  collect_aliases, aliases_after, named_hosts, collect_all, host_input, tls_hosts_or_own,
  collect_hosts,
}

-- The ordered hosts are distinct, and they are the keys of the map.
abbrev IsOrdered : List (Text × List HttpIngressPath) → List Text → Type 0
IsOrdered by_host ordered =
    IsNodup ordered × ((host : Text) → contains host ordered ≡ has_key host by_host)

has_key-insert :
    (stored wanted : Text) (paths : List HttpIngressPath)
    (by_host : List (Text × List HttpIngressPath))
    → has_key wanted (insert stored paths by_host)
      ≡ (text_eq stored wanted || has_key wanted by_host)
unfolding has_key
has_key-insert stored wanted paths by_host =
    ground (arith, lookup-insert stored wanted paths by_host)

IsOrdered-insert_new :
    (host : Text) (paths : List HttpIngressPath) (by_host : List (Text × List HttpIngressPath))
    (ordered : List Text)
    → has_key host by_host ≡ false
    → IsOrdered by_host ordered
    → IsOrdered (insert host paths by_host) (ordered ++ host ∷ [])
unfolding contains
IsOrdered-insert_new host paths by_host ordered fresh (distinct, same) = (
  IsNodup-append_one host ordered (same host ∙ fresh) distinct,
  λ h.
      ground
        (arith, contains-append h ordered (host ∷ []), has_key-insert host h paths by_host, same h),
)

IsOrdered-insert_old :
    (host : Text) (paths : List HttpIngressPath) (by_host : List (Text × List HttpIngressPath))
    (ordered : List Text)
    → has_key host by_host ≡ true
    → IsOrdered by_host ordered
    → IsOrdered (insert host paths by_host) ordered
IsOrdered-insert_old host paths by_host ordered known (distinct, same) = (
  distinct,
  λ h. ground (arith, has_key-insert host h paths by_host, same h, same host, text_eq_iff host h),
)

abbrev IsWell : Collected → Type 0
IsWell c = IsOrdered c.by_host c.ordered

IsWell-add_paths :
    (host : Text) (paths : List HttpIngressPath) (c : Collected)
    → IsWell c
    → IsWell (add_paths host paths c)
unfolding add_paths
IsWell-add_paths host paths c h = elim (Bool-cases (has_key host c.by_host)) [
  | inl known ↦ rw known (IsOrdered-insert_old host _ c.by_host c.ordered known h)
  | inr fresh ↦ rw fresh (IsOrdered-insert_new host _ c.by_host c.ordered fresh h)
]

IsWell-collect_rule :
    (host : Text) (http : Option (List HttpIngressPath)) (c : Collected)
    → IsWell c
    → IsWell (collect_rule host http c)
IsWell-collect_rule host none c h = h
IsWell-collect_rule host (some paths) c h = IsWell-add_paths (clean_host host) paths c h

IsWell-collect_rules :
    (rules : List IngressRule) (c : Collected) → IsWell c → IsWell (collect_rules rules c)
unfolding collect_rules
IsWell-collect_rules [] c h = h
IsWell-collect_rules (rule ∷ rules) c h =
    IsWell-collect_rules rules (collect_rule rule.host rule.http c)
      (IsWell-collect_rule rule.host rule.http c h)

IsWell-collect_default :
    (backend : Option Backend) (c : Collected) → IsWell c → IsWell (collect_default backend c)
unfolding collect_default
IsWell-collect_default none c h = h
IsWell-collect_default (some backend) c h = IsWell-add_paths [] _ c h

IsWell-collect_alias :
    (tls_hosts : List Text) (has_tls : Bool) (paths : List HttpIngressPath) (c : Collected)
    (raw : Text)
    → IsWell c
    → IsWell (collect_alias tls_hosts has_tls paths c raw)
unfolding collect_alias
IsWell-collect_alias tls_hosts has_tls paths c raw h =
    elim (Bool-cases (has_key (to_lower raw) c.by_host)) [
      | inl known ↦ rw known h
      | inr fresh ↦ rw fresh (IsOrdered-insert_new (to_lower raw) paths c.by_host c.ordered fresh h)
    ]

IsWell-collect_aliases :
    (tls_hosts : List Text) (has_tls : Bool) (paths : List HttpIngressPath) (c : Collected)
    (aliases : List Text)
    → IsWell c
    → IsWell (collect_aliases tls_hosts has_tls paths c aliases)
unfolding collect_aliases
IsWell-collect_aliases tls_hosts has_tls paths c [] h = h
IsWell-collect_aliases tls_hosts has_tls paths c (raw ∷ aliases) h =
    IsWell-collect_aliases tls_hosts has_tls paths (collect_alias tls_hosts has_tls paths c raw)
      aliases (IsWell-collect_alias tls_hosts has_tls paths c raw h)

IsWell-aliases_after :
    (tls_hosts aliases : List Text) (has_tls : Bool) (ordered : List Text) (c : Collected)
    → IsWell c
    → IsWell (aliases_after tls_hosts aliases has_tls ordered c)
IsWell-aliases_after tls_hosts [] has_tls ordered c h = h
IsWell-aliases_after tls_hosts (alias ∷ aliases) has_tls [] c h = h
IsWell-aliases_after tls_hosts (alias ∷ aliases) has_tls (first ∷ ordered) c h =
    IsWell-collect_aliases tls_hosts has_tls _ c (alias ∷ aliases) h

nothing_known : (host : Text) → contains host [] ≡ has_key {V = List HttpIngressPath} host []
unfolding contains has_key lookup
nothing_known host = refl

IsWell-named_hosts : (ing : Ingress) (issues : List Issue) → IsWell (named_hosts ing issues)
unfolding named_hosts
IsWell-named_hosts ing issues =
    IsWell-collect_default ing.default_backend _
      (IsWell-collect_rules ing.rules _ (tt, λ host. nothing_known host))

IsWell-collect_all :
    (ing : Ingress) (tls_hosts : List Text) (issues : List Issue)
    → IsWell (collect_all ing (tls_hosts, issues))
unfolding collect_all
IsWell-collect_all ing tls_hosts issues =
    IsWell-aliases_after tls_hosts (split_csv (get_text ann_server_alias ing.annotations)) _ _
      (named_hosts ing issues) (IsWell-named_hosts ing issues)

hostnames-host_input :
    (tls_hosts : List Text) (sections : List (Text × ListenerRef))
    (by_host : List (Text × List HttpIngressPath)) (ordered : List Text)
    → map (λ input. input.hostname) (map (host_input tls_hosts sections by_host) ordered) ≡ ordered
unfolding host_input
hostnames-host_input tls_hosts sections by_host [] = refl
hostnames-host_input tls_hosts sections by_host (host ∷ hosts) =
    ap (λ l. host ∷ l) (hostnames-host_input tls_hosts sections by_host hosts)

-- The hosts collected for an Ingress have distinct hostnames, aliases and the default backend's included.
pub collect_hosts-IsNodup :
    (ing : Ingress) (options : Options)
    → IsNodup (map (λ input. input.hostname) (collect_hosts ing options).0)
unfolding collect_hosts
collect_hosts-IsNodup ing options =
    subst IsNodup (sym (hostnames-host_input _ _ _ _))
      (IsWell-collect_all ing (tls_hosts_or_own ing options.tls_hosts).0
        (tls_hosts_or_own ing options.tls_hosts).1).0
