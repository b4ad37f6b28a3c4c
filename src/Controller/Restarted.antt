-- ===== src/Controller/Restarted.antt =====
-- What a controller that starts reads back, by `observedListenerPlacements`, from the objects that
-- `BuildManagedGateway` planned.
use ingress_nginx_gateway_br.Common.{
  Bool-cases, inr, ℕ, ◌≡◌, refl, sym, ap, ◌∙◌, inl, inr, true, false, Option, some, List, [], ◌∷◌,
  map, arith, keys, lookup, nat_key,
}
use ingress_nginx_gateway_br.Text.{Text, text_key, text_eq, sort_texts}
use ingress_nginx_gateway_br.Api.{NamespacedName, Ingress}
use ingress_nginx_gateway_br.Certificates.{CertificateInfo}
use ingress_nginx_gateway_br.Gateway.{Placements}
use ingress_nginx_gateway_br.Gateway.Known.{SaysSame}
use ingress_nginx_gateway_br.Gateway.Hosts.{declared_hosts}
use ingress_nginx_gateway_br.Gateway.Groups.{projected_listeners}
use ingress_nginx_gateway_br.Gateway.Placement.{place_listeners}
use ingress_nginx_gateway_br.Gateway.Emission.{
  GatewayPlan, ListenerSet, index_listeners, nothing_emitted, emit, assemble, build_managed_gateway,
}
use ingress_nginx_gateway_br.Gateway.Emission.Limits.{emit-IsFilled}
use ingress_nginx_gateway_br.Gateway.Emission.Setless.{emit_sets-setless}
use ingress_nginx_gateway_br.Gateway.Emission.Parents.{
  emit_hostnames-IsExact, emit_hostnames-IsBounded, nothing-IsExact, nothing-IsBounded,
}
use ingress_nginx_gateway_br.Controller.Selection.{Config}
use ingress_nginx_gateway_br.Controller.Observed.{
  found, ListenerObject, observe_sets, observe_listed, observed_listener_placements,
  observe_gateway, has_label,
}
use ingress_nginx_gateway_br.Controller.ManagedObjects.{
  gateway_object, listener_set_object, listener_object, found_object, listed_objects,
}
use ingress_nginx_gateway_br.Controller.ManagedPlan.{managed_options}
use ingress_nginx_gateway_br.Controller.ReadBack.{options, read_set}
use ingress_nginx_gateway_br.Controller.Recalled.{AreReadable, read_placements, read_back}

read_sets-map :
    (sha256 : Text → List ℕ) (config : Config)
    (certificates : List (NamespacedName × CertificateInfo)) (previous : Placements)
    (sets : List ListenerSet)
    → map listener_object (map listener_set_object sets)
      ≡ map (read_set sha256 config certificates previous) sets
read_sets-map sha256 config certificates previous [] = refl
read_sets-map sha256 config certificates previous (set ∷ sets) =
    ap (λ rest. listener_object (listener_set_object set) ∷ rest)
      (read_sets-map sha256 config certificates previous sets)

module _ (sha256 : Text → List ℕ) (config : Config) where
  with_sets :
      (object : ListenerObject) (listed : Option (List ListenerObject))
      → config.listener_sets_available ≡ true
      → observed_listener_placements sha256 config (found object) listed
        ≡ observe_listed sha256 config (observe_gateway sha256 object) listed
  unfolding observed_listener_placements
  with_sets object listed available = ground (arith, available)

  without_sets :
      (object : ListenerObject) (listed : Option (List ListenerObject))
      → config.listener_sets_available ≡ false
      → observed_listener_placements sha256 config (found object) listed
        ≡ some (observe_gateway sha256 object)
  unfolding observed_listener_placements
  without_sets object listed missing = ground (arith, missing)

module _ (sha256 : Text → List ℕ) (config : Config)
    (certificates : List (NamespacedName × CertificateInfo)) (previous : Placements)
    (ingresses : List Ingress) where
  -- The plan for the Ingresses.
  abbrev pub planned : GatewayPlan
  planned = build_managed_gateway sha256 (managed_options config certificates previous) ingresses

  -- From the objects of the plan, placements are read that say what the plan's placements say, where these
  -- are readable. Without the ListenerSet API, no list is read.
  pub observed_listener_placements-build_managed_gateway :
      (listed : Option (List ListenerObject))
      → (config.listener_sets_available ≡ true
          → listed ≡ listed_objects (some (map listener_set_object planned.listener_sets)))
      → AreReadable planned.placements
      → (ps : Placements) × (observed_listener_placements sha256 config
            (found_object (found (gateway_object planned.managed)))
            listed
          ≡ some ps)
        × SaysSame ps planned.placements
  unfolding build_managed_gateway assemble emit observed_listener_placements observe_gateway
      gateway_object managed_options has_label lookup text_eq observe_sets
  observed_listener_placements-build_managed_gateway listed stands readable =
      let gateway = options sha256 config certificates previous in
      let projected = projected_listeners gateway (declared_hosts ingresses).certificates in
      let placed = (place_listeners projected gateway).0 in
      let by_hostname = index_listeners [] projected in
      let e = emit sha256 gateway projected placed in
      let exact =
        emit_hostnames-IsExact sha256 gateway by_hostname placed nothing_emitted
          (sort_texts (keys placed)) (nothing-IsExact sha256 gateway by_hostname placed) in
      let bounded =
        emit_hostnames-IsBounded sha256 gateway by_hostname placed nothing_emitted
          (sort_texts (keys placed)) nothing-IsBounded in
      let base = observe_gateway sha256 (listener_object (gateway_object planned.managed)) in
      let ps =
        read_placements sha256 config certificates previous by_hostname placed e exact bounded
          (emit-IsFilled sha256 gateway projected) readable in
      (
        ps,
        elim (Bool-cases config.listener_sets_available) [
          | inl available ↦
              with_sets sha256 config (listener_object (gateway_object planned.managed)) listed
                available
              ∙ ap (observe_listed sha256 config base) (stands available)
              ∙ ap (λ sets. some (observe_sets sha256 config base sets))
                  (read_sets-map sha256 config certificates previous planned.listener_sets)
          | inr missing ↦
              without_sets sha256 config (listener_object (gateway_object planned.managed)) listed
                missing
              ∙ ap
                  (λ sets. some (
                    observe_sets sha256 config base
                      (map (read_set sha256 config certificates previous) sets)))
                  (sym (emit_sets-setless sha256 gateway projected e.max_index missing))
        ],
        read_back sha256 config certificates previous by_hostname placed e exact bounded
            (emit-IsFilled sha256 gateway projected) readable,
      )
