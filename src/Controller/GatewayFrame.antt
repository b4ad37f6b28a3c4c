-- ===== src/Controller/GatewayFrame.antt =====
-- What planning and writing the managed Gateway leaves alone: a relation of states that holds for the
-- single writes holds for all of `reconcileManagedGateway`.
use ingress_nginx_gateway_br.Common.{
  ℕ, ◌≡◌, refl, Bool, true, false, Option, none, some, List, [], ◌∷◌, map, Bool-cases, inl, inr,
}
use ingress_nginx_gateway_br.Text.{Text}
use ingress_nginx_gateway_br.Api.{NamespacedName, Ingress}
use ingress_nginx_gateway_br.Certificates.{CertificateInfo}
use ingress_nginx_gateway_br.Gateway.{Placements}
use ingress_nginx_gateway_br.Gateway.Emission.{
  GatewayPlan, ReferenceGrant, ListenerSet, build_managed_gateway,
}
use ingress_nginx_gateway_br.Controller.Selection.{Config}
use ingress_nginx_gateway_br.Controller.Secrets.{Json}
use ingress_nginx_gateway_br.Controller.CertificateCache.{CertificateEntries, certificate_infos}
use ingress_nginx_gateway_br.Controller.Cluster.{
  Kind, gateway, listener_set, reference_grant, ObjectKey, Object, Client,
}
use ingress_nginx_gateway_br.Controller.Apply.{then_do, apply, apply_all, prune_listed}
use ingress_nginx_gateway_br.Controller.ManagedObjects.{
  gateway_labels, gateway_object, listener_set_object, grant_object, keys_of,
}
use ingress_nginx_gateway_br.Controller.ManagedPlan.{
  Reads, Memory, placements_or_observed, prune_sets_of, write_gateway_plan, planned_ingresses,
  managed_options, commit_plan, with_placements, with_certificates, with_ingresses,
  reconcile_managed_gateway,
}

-- The kinds of the managed Gateway.
abbrev pub is_gateway_kind : Kind → Bool
is_gateway_kind gateway = true
is_gateway_kind listener_set = true
is_gateway_kind reference_grant = true
is_gateway_kind _ = false

-- A relation of states that each write of the managed Gateway stays within.
pub record IsFrame (sha256 : Text → List ℕ) {S : Type 0} (client : Client S) (config : Config)
    (R : S → S → Type 0) : Type 0 where
  pub frame_refl : (s : S) → R s s
  pub frame_trans : (s t u : S) → R s t → R t u → R s u
  pub frame_apply :
      (object : Object) (s : S)
      → is_gateway_kind object.key.kind ≡ true
      → R s (apply client object s).1
  pub frame_prune :
      (kind : Kind) (namespace : Option Text) (kept : List ObjectKey) (s : S)
      → is_gateway_kind kind ≡ true
      → R s (prune_listed client kind namespace (gateway_labels sha256 config) kept s).1

pub then_do-frame :
    {S : Type 0} (R : S → S → Type 0) (s : S) (r : Bool × S) (next : S → Bool × S)
    → ((s t u : S) → R s t → R t u → R s u)
    → R s r.1
    → ((t : S) → R t (next t).1)
    → R s (then_do r next).1
then_do-frame R s (false, t) next trans first second = first
then_do-frame R s (true, t) next trans first second = trans s t (next t).1 first (second t)

module _ {sha256 : Text → List ℕ} {S : Type 0} {client : Client S} {config : Config}
    {R : S → S → Type 0} (frame : IsFrame sha256 client config R) where
  apply_grants-frame :
      (grants : List ReferenceGrant) (s : S) → R s (apply_all client (map grant_object grants) s).1
  unfolding apply_all grant_object
  apply_grants-frame [] s = frame.frame_refl s
  apply_grants-frame (grant ∷ grants) s =
      then_do-frame R s (apply client (grant_object grant) s)
        (λ t. apply_all client (map grant_object grants) t) frame.frame_trans
        (frame.frame_apply (grant_object grant) s refl) (λ t. apply_grants-frame grants t)

  apply_sets-frame :
      (sets : List ListenerSet) (s : S) → R s (apply_all client (map listener_set_object sets) s).1
  unfolding apply_all listener_set_object
  apply_sets-frame [] s = frame.frame_refl s
  apply_sets-frame (set ∷ sets) s =
      then_do-frame R s (apply client (listener_set_object set) s)
        (λ t. apply_all client (map listener_set_object sets) t) frame.frame_trans
        (frame.frame_apply (listener_set_object set) s refl) (λ t. apply_sets-frame sets t)

  prune_sets_of-frame :
      (sets : List Object) (s : S) → R s (prune_sets_of sha256 client config sets s).1
  unfolding prune_sets_of gateway_labels
  prune_sets_of-frame sets s = elim (Bool-cases config.listener_sets_available) [
    | inl available ↦
        rw available
          (frame.frame_prune listener_set (some config.gateway_namespace) (keys_of sets) s refl)
    | inr missing ↦ rw missing (frame.frame_refl s)
  ]

  write_gateway_plan-frame :
      (plan : GatewayPlan) (s : S) → R s (write_gateway_plan sha256 client config plan s).1
  unfolding write_gateway_plan gateway_object
  write_gateway_plan-frame plan s =
      let grants = map grant_object plan.reference_grants in
      let sets = map listener_set_object plan.listener_sets in
      let prune_grants : S → Bool × S = λ t.
        prune_listed client reference_grant none (gateway_labels sha256 config) (keys_of grants)
          t in
      let from_pruning : S → Bool × S =
        λ t. then_do (prune_sets_of sha256 client config sets t) prune_grants in
      let from_sets : S → Bool × S = λ t. then_do (apply_all client sets t) from_pruning in
      let from_gateway : S → Bool × S =
        λ t. then_do (apply client (gateway_object plan.managed) t) from_sets in
      then_do-frame R s (apply_all client grants s) from_gateway frame.frame_trans
        (apply_grants-frame plan.reference_grants s)
        λ t1.
          then_do-frame R t1 (apply client (gateway_object plan.managed) t1) from_sets
            frame.frame_trans (frame.frame_apply (gateway_object plan.managed) t1 refl)
            λ t2.
              then_do-frame R t2 (apply_all client sets t2) from_pruning frame.frame_trans
                (apply_sets-frame plan.listener_sets t2)
                λ t3.
                  then_do-frame R t3 (prune_sets_of sha256 client config sets t3) prune_grants
                    frame.frame_trans (prune_sets_of-frame sets t3)
                    λ t4. frame.frame_prune reference_grant none (keys_of grants) t4 refl

  module _ (json : Json) (capacity : Option ℕ) (reads : Reads S) where
    with_placements-frame :
        (ingresses : List Ingress) (certificates : List (NamespacedName × CertificateInfo))
        (previous : Option Placements) (memory : Memory) (s : S)
        → R s
            (with_placements sha256 json capacity client reads config ingresses certificates
              previous memory s).2
    unfolding commit_plan
    with_placements-frame ingresses certificates none memory s = frame.frame_refl s
    with_placements-frame ingresses certificates (some previous) memory s =
        write_gateway_plan-frame
          (build_managed_gateway sha256 (managed_options config certificates previous) ingresses) s

    with_certificates-frame :
        (ingresses : List Ingress) (memory : Memory) (s : S)
        (r : Option (List (NamespacedName × CertificateInfo)) × CertificateEntries)
        → R s (with_certificates sha256 json capacity client reads config ingresses memory s r).2
    with_certificates-frame ingresses memory s (none, cache) = frame.frame_refl s
    with_certificates-frame ingresses memory s (some certificates, cache) =
        with_placements-frame ingresses certificates
          (placements_or_observed sha256 client config memory.listener_placements s)
          (record memory { certificates = cache }) s

    with_ingresses-frame :
        (listed : Option (List Ingress)) (memory : Memory) (s : S)
        → R s (with_ingresses sha256 json capacity client reads config listed memory s).2
    with_ingresses-frame none memory s = frame.frame_refl s
    with_ingresses-frame (some ingresses) memory s =
        let planned = planned_ingresses config ingresses in
        with_certificates-frame planned memory s
          (certificate_infos json (reads.get_secret s) config planned memory.certificates)

    pub reconcile_managed_gateway-frame :
        (memory : Memory) (s : S)
        → R s (reconcile_managed_gateway sha256 json capacity client reads config memory s).2
    unfolding reconcile_managed_gateway
    reconcile_managed_gateway-frame memory s =
        with_ingresses-frame (reads.list_ingresses s none) memory s
