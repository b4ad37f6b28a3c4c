-- ===== src/Controller/Resumed.antt =====
-- `reconcileManagedGateway` of a controller that has just started, and of one that goes on.
use ingress_nginx_gateway_br.Common.{
  ℕ, ◌≡◌, refl, ap, inl, inr, true, Option, none, some, List, [], ◌∷◌, map, arith, Option-cases,
}
use ingress_nginx_gateway_br.Text.{Text, text_key}
use ingress_nginx_gateway_br.Api.{NamespacedName, Ingress}
use ingress_nginx_gateway_br.Certificates.{CertificateInfo, parent_wildcard}
use ingress_nginx_gateway_br.Types.{ListenerRef}
use ingress_nginx_gateway_br.Gateway.{Placements, ManagedGatewayOptions}
use ingress_nginx_gateway_br.Gateway.Refs.{
  listener_ref, parent_ref_for, listener_ref_for, has_moved, changed_tls_hosts,
}
use ingress_nginx_gateway_br.Gateway.Known.{SaysSame, knowing}
use ingress_nginx_gateway_br.Gateway.Replan.{build_managed_gateway-same}
use ingress_nginx_gateway_br.Gateway.Emission.{GatewayPlan}
use ingress_nginx_gateway_br.Controller.Selection.{Config}
use ingress_nginx_gateway_br.Controller.Observed.{found}
use ingress_nginx_gateway_br.Controller.Secrets.{Json}
use ingress_nginx_gateway_br.Controller.CertificateCache.{CertificateEntries}
use ingress_nginx_gateway_br.Controller.Cluster.{Client, gateway, listener_set}
use ingress_nginx_gateway_br.Controller.ManagedObjects.{
  gateway_labels, gateway_object, listener_set_object, listed_objects,
}
use ingress_nginx_gateway_br.Controller.ManagedPlan.{
  Reads, Memory, observe_cluster, managed_options, commit_plan, with_placements, with_certificates,
  reconcile_managed_gateway, planned_ingresses,
}
use ingress_nginx_gateway_br.Controller.Recalled.{AreReadable}
use ingress_nginx_gateway_br.Controller.Restarted.{
  planned, observed_listener_placements-build_managed_gateway,
}

module _ (sha256 : Text → List ℕ) (options : ManagedGatewayOptions) (a b : Placements)
    (same : SaysSame a b) where
  parent_ref_for-same :
      (host : Text)
      → parent_ref_for sha256 host a (knowing options a)
        ≡ parent_ref_for sha256 host b (knowing options b)
  unfolding parent_ref_for listener_ref
  parent_ref_for-same host = elim (Option-cases (parent_wildcard host)) [
    | inl missing ↦ ground (arith, missing)
    | inr (candidate, at) ↦ ground (arith, at, same candidate)
  ]

  listener_ref_for-same :
      (host : Text)
      → listener_ref_for sha256 host a (knowing options a)
        ≡ listener_ref_for sha256 host b (knowing options b)
  unfolding listener_ref_for listener_ref
  listener_ref_for-same host = ground (arith, same host, parent_ref_for-same host)

  changed_tls_hosts-same :
      (sections : List (Text × ListenerRef))
      → changed_tls_hosts sha256 a sections (knowing options a)
        ≡ changed_tls_hosts sha256 b sections (knowing options b)
  unfolding changed_tls_hosts has_moved
  changed_tls_hosts-same [] = refl
  changed_tls_hosts-same ((host, ref) ∷ sections) =
      ground (arith, listener_ref_for-same host, changed_tls_hosts-same sections)

-- What the controller remembers when it has just started, and when it goes on from the placements.
abbrev pub started : Memory → Memory
started memory = record memory { listener_placements = none }

abbrev pub running : Placements → Memory → Memory
running placements memory = record memory { listener_placements = some placements }

-- Equal plans or errors, equal clusters, and equal events.
abbrev pub EndsSame :
    {S : Type 0} → Option GatewayPlan × Memory × S → Option GatewayPlan × Memory × S → Type 0
EndsSame (plan, memory, s) (plan', memory', s') =
    (plan ≡ plan') × (memory.affected_ingresses ≡ memory'.affected_ingresses) × (s ≡ s')

module _ (sha256 : Text → List ℕ) (json : Json) (capacity : Option ℕ) {S : Type 0}
    (client : Client S) (reads : Reads S) (config : Config) where
  commit_plan-same :
      (ingresses : List Ingress) (certificates : List (NamespacedName × CertificateInfo))
      (a b : Placements) (memory : Memory) (s : S)
      → SaysSame a b
      → commit_plan sha256 json capacity client reads config ingresses certificates a
          (started memory)
          s
        ≡ commit_plan sha256 json capacity client reads config ingresses certificates b
            (running b memory)
            s
  unfolding commit_plan managed_options
  commit_plan-same ingresses certificates a b memory s same =
      let options = managed_options config certificates b in
      rw
        (
          build_managed_gateway-same sha256 options a b same ingresses,
          changed_tls_hosts-same sha256 options a b same _,
        )
        refl

  with_placements-same :
      (ingresses : List Ingress) (certificates : List (NamespacedName × CertificateInfo))
      (a b : Placements) (memory : Memory) (s : S)
      → SaysSame a b
      → EndsSame
          (with_placements sha256 json capacity client reads config ingresses certificates
            (some a)
            (started memory)
            s)
          (with_placements sha256 json capacity client reads config ingresses certificates
            (some b)
            (running b memory)
            s)
  with_placements-same ingresses certificates a b memory s same =
      let e = commit_plan-same ingresses certificates a b memory s same in rw e (refl, refl, refl)

  with_certificates-same :
      (ingresses : List Ingress) (a b : Placements) (memory : Memory) (s : S)
      (infos : Option (List (NamespacedName × CertificateInfo)) × CertificateEntries)
      → observe_cluster sha256 client config s ≡ some a
      → SaysSame a b
      → EndsSame
          (with_certificates sha256 json capacity client reads config ingresses
            (started memory)
            s
            infos)
          (with_certificates sha256 json capacity client reads config ingresses
            (running b memory)
            s
            infos)
  with_certificates-same ingresses a b memory s (none, cache) read same = (refl, refl, refl)
  with_certificates-same ingresses a b memory s (some certificates, cache) read same = rw read (
      with_placements-same ingresses certificates a b (record memory { certificates = cache }) s
        same)

  read-same :
      (a b : Placements) (memory : Memory) (s : S)
      → observe_cluster sha256 client config s ≡ some a
      → SaysSame a b
      → EndsSame
          (reconcile_managed_gateway sha256 json capacity client reads config (started memory) s)
          (reconcile_managed_gateway sha256 json capacity client reads config (running b memory) s)
  unfolding reconcile_managed_gateway
  read-same a b memory s read same = elim (Option-cases (reads.list_ingresses s none)) [
    | inl refused ↦ rw refused (refl, refl, refl)
    | inr (ingresses, listed) ↦
        rw listed
          (with_certificates-same (planned_ingresses config ingresses) a b memory s _ read same)
  ]

  -- Where the cluster holds the Gateway of a plan and, if it has the ListenerSet API, the ListenerSets of the
  -- plan, a controller that has just started plans, writes and requeues as one does that remembers the
  -- placements of that plan, whatever the Ingresses are by now. In the plan, each Secret has a namespace and
  -- each index fits Go's `int`.
  pub reconcile_managed_gateway-EndsSame :
      (certificates : List (NamespacedName × CertificateInfo)) (previous : Placements)
      (ingresses : List Ingress) (memory : Memory) (s : S)
      → AreReadable (planned sha256 config certificates previous ingresses).placements
      → client.get s (record {
        kind = gateway;
        namespace = config.gateway_namespace;
        name = config.gateway_name;
      })
        ≡ found (gateway_object (planned sha256 config certificates previous ingresses).managed)
      → (config.listener_sets_available ≡ true
          → client.list s listener_set
              (some config.gateway_namespace)
              (gateway_labels sha256 config)
            ≡ some (
                map listener_set_object
                  (planned sha256 config certificates previous ingresses).listener_sets))
      → EndsSame
          (reconcile_managed_gateway sha256 json capacity client reads config (started memory) s)
          (reconcile_managed_gateway sha256 json capacity client reads config
            (running (planned sha256 config certificates previous ingresses).placements memory)
            s)
  unfolding observe_cluster
  reconcile_managed_gateway-EndsSame certificates previous ingresses memory s readable held listed =
      let (ps, read, same) =
        observed_listener_placements-build_managed_gateway sha256 config certificates previous
          ingresses _ (λ available. ap listed_objects (listed available)) readable in
      read-same ps _ memory s (rw held read) same
