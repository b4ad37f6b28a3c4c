-- ===== src/Gateway/Emission.antt =====
-- The last part of `BuildManagedGateway` in internal/translator/gateway.go: the listeners of the
-- Gateway and of its ListenerSets, the references of the hosts, and the grants for Secrets.
pub mod Limits
pub mod Grants
pub mod Parents
pub mod Setless
use ingress_nginx_gateway_br.Common.{
  ℕ, zero, suc, Bool, true, false, not, ◌||◌, Option, none, some, List, [], ◌∷◌, ◌++◌, map,
  if◌then◌else◌, lookup, insert, add, keys, nat_beq, nat_key, ltb,
}
use ingress_nginx_gateway_br.Text.{Text, text_key, text_eq, codes, sort_texts}
use ingress_nginx_gateway_br.Naming.{dns_label}
use ingress_nginx_gateway_br.Api.{NamespacedName, name_key, Ingress, Listener, http, https}
use ingress_nginx_gateway_br.Types.{
  Issue, ListenerRef, ListenerKind, gateway, listener_set, gateway_label_value,
}
use ingress_nginx_gateway_br.Gateway.{Placements, ManagedGatewayOptions, ProjectedListener}
use ingress_nginx_gateway_br.Gateway.Placement.{place_listeners}
use ingress_nginx_gateway_br.Gateway.Hosts.{
  Declared, Issues, add_issue, error_issue, declared_hosts,
}
use ingress_nginx_gateway_br.Gateway.Groups.{projected_listeners, sorted_names}
use ingress_nginx_gateway_br.Gateway.Refs.{managed_listener_set_name, listener_ref, itoa}

-- A ListenerSet of the bridge; `index_label` is the value of `ListenerSetIndexLabel`.
pub record ListenerSet : Type 0 where
  pub name : Text
  pub namespace : Text
  pub gateway_label : Text
  pub index_label : Text
  pub parent : Text
  pub listeners : List Listener

-- A grant that lets the Gateway, and its ListenerSets, read one Secret of another namespace.
pub record ReferenceGrant : Type 0 where
  pub name : Text
  pub namespace : Text
  pub gateway_label : Text
  pub from_kinds : List ListenerKind
  pub from_namespace : Text
  pub secret : Text

-- The managed Gateway; `same_namespace_sets` says that ListenerSets of its namespace may attach.
pub record ManagedGateway : Type 0 where
  pub name : Text
  pub namespace : Text
  pub gateway_label : Text
  pub class_name : Text
  pub nginx_proxy : Option Text
  pub listeners : List Listener
  pub same_namespace_sets : Bool

-- `GatewayPlan`
pub record GatewayPlan : Type 0 where
  pub managed : ManagedGateway
  pub listener_sets : List ListenerSet
  pub reference_grants : List ReferenceGrant
  pub tls_hosts : List Text
  pub tls_sections : List (Text × ListenerRef)
  pub placements : Placements
  pub issues : Issues

abbrev pub find_listener : Text → List (Text × ProjectedListener) → ProjectedListener
find_listener hostname by_hostname = elim (lookup hostname by_hostname) [
  | some l ↦ l
  | none ↦ record { hostname = []; secret = record { namespace = []; name = [] }; hosts = [] }
]

-- `byHostname`
unfoldable pub index_listeners :
    List (Text × ProjectedListener) → List ProjectedListener → List (Text × ProjectedListener)
index_listeners by_hostname [] = by_hostname
index_listeners by_hostname (l ∷ ls) = index_listeners (insert l.hostname l by_hostname) ls

-- `httpsListener`
unfoldable pub https_listener_of : Text → NamespacedName → Text → Listener
https_listener_of hostname secret section = record {
  section = section;
  hostname = some hostname;
  port = 443;
  protocol = https;
  certificate_refs = some (secret ∷ []);
}

-- What the loop over the placed hostnames fills.
pub record Emitted : Type 0 where
  pub gateway_listeners : List Listener
  pub set_entries : List (ℕ × List Listener)
  pub max_index : ℕ
  pub tls_sections : List (Text × ListenerRef)
  pub placements : Placements

abbrev pub entries_of : ℕ → List (ℕ × List Listener) → List Listener
entries_of idx sets = elim (lookup idx sets) [ none ↦ [] | some entries ↦ entries ]

-- `for _, h := range l.hosts { plan.TLSSections[h] = ref }`
unfoldable pub point_hosts :
    ListenerRef → List Text → List (Text × ListenerRef) → List (Text × ListenerRef)
point_hosts ref [] sections = sections
point_hosts ref (h ∷ hs) sections = point_hosts ref hs (insert h ref sections)

-- `setEntries[idx] = append(setEntries[idx], listener)` and the greatest index, or the Gateway's own
-- listeners.
unfoldable pub emit_listener : ℕ → Listener → Emitted → Emitted
emit_listener idx listener e =
    if nat_beq idx 0
    then record e { gateway_listeners = e.gateway_listeners ++ listener ∷ [] }
    else record e {
      set_entries = insert idx (entries_of idx e.set_entries ++ listener ∷ []) e.set_entries;
      max_index = if ltb e.max_index idx then idx else e.max_index;
    }

abbrev pub placed_index : Text → List (Text × ℕ) → ℕ
placed_index hostname placed = elim (lookup hostname placed) [ none ↦ 0 | some idx ↦ idx ]

module _ (sha256 : Text → List ℕ) (options : ManagedGatewayOptions) where
  -- The body of the loop over the placed hostnames.
  unfoldable pub emit_hostname :
      List (Text × ProjectedListener) → List (Text × ℕ) → Emitted → Text → Emitted
  emit_hostname by_hostname placed e hostname =
      let l = find_listener hostname by_hostname in
      let idx = placed_index hostname placed in
      let section = dns_label sha256 (options.https_section_name ∷ hostname ∷ []) in
      let emitted = emit_listener idx (https_listener_of hostname l.secret section) e in
      record emitted {
        tls_sections =
            point_hosts (listener_ref sha256 hostname idx options) l.hosts emitted.tls_sections;
        placements =
            insert hostname (record { listener_set = idx; secret = l.secret }) emitted.placements;
      }

  unfoldable pub emit_hostnames :
      List (Text × ProjectedListener) → List (Text × ℕ) → Emitted → List Text → Emitted
  emit_hostnames by_hostname placed e [] = e
  emit_hostnames by_hostname placed e (hostname ∷ hostnames) =
      emit_hostnames by_hostname placed (emit_hostname by_hostname placed e hostname) hostnames

  -- The HTTP listener of the Gateway.
  unfoldable pub http_listener : Listener
  http_listener = record {
    section = options.http_section_name;
    hostname = none;
    port = 80;
    protocol = http;
    certificate_refs = none;
  }

  -- `managedListenerSet`
  unfoldable pub managed_listener_set : ℕ → List Listener → ListenerSet
  managed_listener_set index entries = record {
    name = managed_listener_set_name sha256 options.name index;
    namespace = options.namespace;
    gateway_label = gateway_label_value sha256 options.namespace options.name;
    index_label = itoa index;
    parent = options.name;
    listeners = entries;
  }

  -- `for idx := 1; idx <= maxIndex; idx++`, from `idx` on for `rounds` rounds.
  unfoldable pub emit_sets : List (ℕ × List Listener) → ℕ → ℕ → List ListenerSet
  emit_sets sets idx zero = []
  emit_sets sets idx (suc rounds) =
      let rest = emit_sets sets (suc idx) rounds in
      elim (lookup idx sets) [
        | none ↦ rest
        | some entries ↦ managed_listener_set idx entries ∷ rest
      ]

  -- `certificateReferenceGrant`
  unfoldable pub certificate_reference_grant : NamespacedName → ReferenceGrant
  certificate_reference_grant secret = record {
    name = dns_label sha256 (options.name ∷ secret.name ∷ codes "gateway-cert" ∷ []);
    namespace = secret.namespace;
    gateway_label = gateway_label_value sha256 options.namespace options.name;
    from_kinds = gateway ∷ (if options.listener_set_overflow then listener_set ∷ [] else []);
    from_namespace = options.namespace;
    secret = secret.name;
  }

  -- The Secrets of other namespaces that the placed listeners use.
  unfoldable pub grant_secrets : Placements → List NamespacedName
  grant_secrets [] = []
  grant_secrets ((hostname, p) ∷ placements) =
      let rest = grant_secrets placements in
      if text_eq p.secret.namespace options.namespace then rest else add p.secret rest

  unfoldable pub grants : Placements → List ReferenceGrant
  grants placements = map certificate_reference_grant (sorted_names (grant_secrets placements))

unfoldable pub unplaced_issue : Issue
unplaced_issue = error_issue (codes "spec.tls") (
    codes
      "TLS hostname cannot be served: the managed Gateway already has 63 HTTPS listeners and the ListenerSet API is unavailable")

unfoldable pub report_sources : List NamespacedName → Issues → Issues
report_sources [] issues = issues
report_sources (source ∷ sources) issues =
    report_sources sources (add_issue source unplaced_issue issues)

abbrev declarers : Text → List (Text × List NamespacedName) → List NamespacedName
declarers host declared_by = elim (lookup host declared_by) [ none ↦ [] | some names ↦ names ]

unfoldable pub report_hosts : List (Text × List NamespacedName) → List Text → Issues → Issues
report_hosts declared_by [] issues = issues
report_hosts declared_by (host ∷ hosts) issues =
    report_hosts declared_by hosts
      (report_sources (sorted_names (declarers host declared_by)) issues)

-- Every Ingress that declared a host of an unplaced listener gets the issue.
unfoldable pub report_unplaced :
    List (Text × List NamespacedName) → List ProjectedListener → Issues → Issues
report_unplaced declared_by [] issues = issues
report_unplaced declared_by (l ∷ ls) issues =
    report_unplaced declared_by ls (report_hosts declared_by l.hosts issues)

abbrev pub nothing_emitted : Emitted
nothing_emitted = record {
  gateway_listeners = [];
  set_entries = [];
  max_index = 0;
  tls_sections = [];
  placements = [];
}

abbrev nonempty_name : Text → Option Text
nonempty_name [] = none
nonempty_name (c ∷ s) = some (c ∷ s)

module _ {ℓ} {A : Type ℓ} where
  abbrev is_nil : List A → Bool
  is_nil [] = true
  is_nil (_ ∷ _) = false

module _ (sha256 : Text → List ℕ) (options : ManagedGatewayOptions) where
  -- What the placed listeners give.
  unfoldable pub emit : List ProjectedListener → List (Text × ℕ) → Emitted
  emit projected placed =
      emit_hostnames sha256 options (index_listeners [] projected) placed nothing_emitted
        (sort_texts (keys placed))

  -- The plan, from what was declared and what was emitted.
  unfoldable pub assemble : Declared → List ProjectedListener → Emitted → GatewayPlan
  assemble declared unplaced e =
      let sets = emit_sets sha256 options e.set_entries 1 e.max_index in
      record {
        managed = record {
          name = options.name;
          namespace = options.namespace;
          gateway_label = gateway_label_value sha256 options.namespace options.name;
          class_name = options.class_name;
          nginx_proxy = nonempty_name options.nginx_proxy_name;
          listeners = http_listener sha256 options ∷ e.gateway_listeners;
          same_namespace_sets = options.allow_listener_sets || not (is_nil sets);
        };
        listener_sets = sets;
        reference_grants = grants sha256 options e.placements;
        tls_hosts = declared.tls_hosts;
        tls_sections = e.tls_sections;
        placements = e.placements;
        issues = report_unplaced declared.declared_by unplaced declared.issues;
      }

  -- `BuildManagedGateway`
  unfoldable pub build_managed_gateway : List Ingress → GatewayPlan
  build_managed_gateway ingresses =
      let declared = declared_hosts ingresses in
      let projected = projected_listeners options declared.certificates in
      let (placed, unplaced) = place_listeners projected options in
      assemble declared unplaced (emit projected placed)

-- The functions above, for the tests.
unfoldable pub emission_functions : Unit {0}
unfolding index_listeners https_listener_of point_hosts emit_listener emit_hostname emit_hostnames
    http_listener managed_listener_set emit_sets certificate_reference_grant grant_secrets grants
    unplaced_issue report_sources report_hosts report_unplaced emit assemble build_managed_gateway
    place_listeners projected_listeners declared_hosts lookup insert add
emission_functions = tt
