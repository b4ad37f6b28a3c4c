-- ===== src/Controller/ManagedPlan.antt =====
-- `reconcileManagedGateway` in internal/controller/ingress_controller.go: the plan of the managed
-- Gateway from all selected Ingresses, and how it is written. The lock that serialises the calls
-- is not part of the model: a call is one step.
use ingress_nginx_gateway_br.Common.{
  ℕ, Bool, true, false, not, ◌&&◌, Option, none, some, List, map, if◌then◌else◌, keep,
}
use ingress_nginx_gateway_br.Text.{Text}
use ingress_nginx_gateway_br.Api.{NamespacedName, Ingress}
use ingress_nginx_gateway_br.Certificates.{CertificateInfo}
use ingress_nginx_gateway_br.Gateway.{ManagedGatewayOptions, Placements}
use ingress_nginx_gateway_br.Gateway.Refs.{changed_tls_hosts}
use ingress_nginx_gateway_br.Gateway.Emission.{GatewayPlan, build_managed_gateway}
use ingress_nginx_gateway_br.Controller.Selection.{Config, selected}
use ingress_nginx_gateway_br.Controller.Observed.{Found, observed_listener_placements}
use ingress_nginx_gateway_br.Controller.Affected.{enqueue_affected_ingresses}
use ingress_nginx_gateway_br.Controller.Secrets.{Secret, Json}
use ingress_nginx_gateway_br.Controller.CertificateCache.{CertificateEntries, certificate_infos}
use ingress_nginx_gateway_br.Controller.Cluster.{
  gateway, listener_set, reference_grant, Object, Client,
}
use ingress_nginx_gateway_br.Controller.Apply.{then_do, apply, apply_all, prune_listed}
use ingress_nginx_gateway_br.Controller.ManagedObjects.{
  gateway_labels, gateway_object, listener_set_object, grant_object, found_object, listed_objects,
  keys_of,
}

-- What the controller reads of Ingresses and Secrets; `none` is an error of a list.
pub record Reads (S : Type 0) : Type 0 where
  pub list_ingresses : S → Option Text → Option (List Ingress)
  pub get_secret : S → NamespacedName → Found Secret

-- The fields of `IngressReconciler` that change: the last placements, `none` before the first plan, the
-- cache of certificates, and the events of the channel that nobody has received yet.
pub record Memory : Type 0 where
  pub listener_placements : Option Placements
  pub certificates : CertificateEntries
  pub affected_ingresses : List NamespacedName

module _ (sha256 : Text → List ℕ) {S : Type 0} (client : Client S) where
  -- What `observedListenerPlacements` reads.
  unfoldable pub observe_cluster : Config → S → Option Placements
  observe_cluster config s =
      observed_listener_placements sha256 config
        (found_object (
          client.get s (record {
            kind = gateway;
            namespace = config.gateway_namespace;
            name = config.gateway_name;
          })))
        (listed_objects (
          client.list s listener_set (some config.gateway_namespace)
            (gateway_labels sha256 config)))

  abbrev pub placements_or_observed : Config → Option Placements → S → Option Placements
  placements_or_observed config (some placements) s = some placements
  placements_or_observed config none s = observe_cluster config s

  unfoldable pub prune_sets_of : Config → List Object → S → Bool × S
  prune_sets_of config sets s =
      if config.listener_sets_available
      then prune_listed client listener_set (some config.gateway_namespace)
          (gateway_labels sha256 config) (keys_of sets) s
      else (true, s)

  -- The grants, the Gateway and the ListenerSets are applied in this order, and what the plan has no more
  -- is deleted.
  unfoldable pub write_gateway_plan : Config → GatewayPlan → S → Bool × S
  write_gateway_plan config plan s =
      let grants = map grant_object plan.reference_grants in
      let sets = map listener_set_object plan.listener_sets in
      then_do (apply_all client grants s) λ s1.
        then_do (apply client (gateway_object plan.managed) s1) λ s2.
          then_do (apply_all client sets s2) λ s3. then_do (prune_sets_of config sets s3) λ s4.
            prune_listed client reference_grant none (gateway_labels sha256 config) (keys_of grants)
              s4

module _ (config : Config) where
  -- The Ingresses that are planned for.
  unfoldable pub planned_ingresses : List Ingress → List Ingress
  planned_ingresses ingresses = keep (λ ing. selected config ing && not ing.deleting) ingresses

  unfoldable pub managed_options :
      List (NamespacedName × CertificateInfo) → Placements → ManagedGatewayOptions
  managed_options certificates previous = record {
    namespace = config.gateway_namespace;
    name = config.gateway_name;
    class_name = config.gateway_class_name;
    nginx_proxy_name = config.nginx_proxy_name;
    allow_listener_sets = config.allow_listener_sets;
    http_section_name = config.http_section_name;
    https_section_name = config.https_section_name;
    listener_set_overflow = config.listener_sets_available;
    certificates = if config.collapse_wildcard_certificates then some certificates else none;
    current_placements = previous;
  }

module _ (sha256 : Text → List ℕ) (json : Json) (capacity : Option ℕ) {S : Type 0}
    (client : Client S) (reads : Reads S) (config : Config) where
  -- The queue after a plan that was written.
  abbrev pub requeue : List Ingress → GatewayPlan → List Text → Bool → Memory → Memory
  requeue ingresses plan changed false memory = memory
  requeue ingresses plan changed true memory = record memory {
    affected_ingresses =
        enqueue_affected_ingresses capacity ingresses plan.tls_hosts changed
          memory.affected_ingresses;
  }

  -- From the plan on: the new placements are stored before anything is written. The first component is
  -- `false` where a write failed.
  unfoldable pub commit_plan :
      List Ingress
      → List (NamespacedName × CertificateInfo)
      → Placements
      → Memory
      → S
      → (Bool × GatewayPlan) × Memory × S
  commit_plan ingresses certificates previous memory s =
      let options = managed_options config certificates previous in
      let plan = build_managed_gateway sha256 options ingresses in
      let changed = changed_tls_hosts sha256 previous plan.tls_sections options in
      let (ok, s') = write_gateway_plan sha256 client config plan s in
      (
        (ok, plan),
        requeue ingresses plan changed ok
            (record memory { listener_placements = some plan.placements }),
        s',
      )

  abbrev pub plan_or_error : (Bool × GatewayPlan) × Memory × S → Option GatewayPlan × Memory × S
  plan_or_error ((ok, plan), memory, s) = (if ok then some plan else none, memory, s)

  abbrev pub with_placements :
      List Ingress
      → List (NamespacedName × CertificateInfo)
      → Option Placements
      → Memory
      → S
      → Option GatewayPlan × Memory × S
  with_placements ingresses certificates none memory s = (none, memory, s)
  with_placements ingresses certificates (some previous) memory s =
      plan_or_error (commit_plan ingresses certificates previous memory s)

  abbrev pub with_certificates :
      List Ingress
      → Memory
      → S
      → Option (List (NamespacedName × CertificateInfo)) × CertificateEntries
      → Option GatewayPlan × Memory × S
  with_certificates ingresses memory s (none, cache) =
      (none, record memory { certificates = cache }, s)
  with_certificates ingresses memory s (some certificates, cache) =
      with_placements ingresses certificates
        (placements_or_observed sha256 client config memory.listener_placements s)
        (record memory { certificates = cache }) s

  abbrev pub with_ingresses : Option (List Ingress) → Memory → S → Option GatewayPlan × Memory × S
  with_ingresses none memory s = (none, memory, s)
  with_ingresses (some ingresses) memory s =
      let planned = planned_ingresses config ingresses in
      with_certificates planned memory s
        (certificate_infos json (reads.get_secret s) config planned memory.certificates)

  -- `reconcileManagedGateway`; `none` is an error.
  unfoldable pub reconcile_managed_gateway : Memory → S → Option GatewayPlan × Memory × S
  reconcile_managed_gateway memory s = with_ingresses (reads.list_ingresses s none) memory s

-- The functions above, for the tests.
unfoldable pub managed_plan_functions : Unit {0}
unfolding gateway_labels gateway_object listener_set_object grant_object observe_cluster
    prune_sets_of write_gateway_plan planned_ingresses managed_options commit_plan
    reconcile_managed_gateway keep
managed_plan_functions = tt
