-- ===== src/Controller/Reconcile.antt =====
-- `Reconcile` in internal/controller/ingress_controller.go: what one request does. A step gives
-- whether it succeeded, and the controller's memory and the server's state that it leaves.
use ingress_nginx_gateway_br.Common.{
  ℕ, Bool, true, false, not, ◌&&◌, ◌||◌, Option, none, some, List, [], ◌∷◌, ◌++◌, map,
  if◌then◌else◌, lookup, contains, keep, ◌==◌,
}
use ingress_nginx_gateway_br.Text.{Text, text_key, text_eq, codes, is_empty}
use ingress_nginx_gateway_br.Api.{NamespacedName, name_key, Ingress, get_text}
use ingress_nginx_gateway_br.Types.{fatal, Options, translation_status_label}
use ingress_nginx_gateway_br.Gateway.Emission.{GatewayPlan}
use ingress_nginx_gateway_br.Translate.Checks.{remove}
use ingress_nginx_gateway_br.Controller.Selection.{Config, selected}
use ingress_nginx_gateway_br.Controller.Canary.{is_canary_ingress, canary_assignments}
use ingress_nginx_gateway_br.Controller.Observed.{Found, found, not_found, failed}
use ingress_nginx_gateway_br.Controller.Secrets.{Json}
use ingress_nginx_gateway_br.Controller.Cluster.{Object, Client}
use ingress_nginx_gateway_br.Controller.Apply.{then_do, apply_owned, prune_source}
use ingress_nginx_gateway_br.Controller.ManagedPlan.{
  Reads, Memory, planned_ingresses, reconcile_managed_gateway,
}
use ingress_nginx_gateway_br.Controller.Footprints.{requires_settings_snippets}
use ingress_nginx_gateway_br.Controller.Requests.{certificate_sync_key, global_reconcile_key}
use ingress_nginx_gateway_br.Controller.TranslationStatus.{
  IngressObject, Plan, PrimaryStatus, delegated_ready, Writes, reconcile_translation_status,
}
use ingress_nginx_gateway_br.Controller.Readiness.{Outcome}
use ingress_nginx_gateway_br.Controller.Mirror.{GatewayStatus, mirror_ingress_status}
use ingress_nginx_gateway_br.Controller.IngressPlan.{
  desired_objects, canary_plan, merged_canaries, translate_options, with_gateway_issues,
}

-- `finalizerName`
abbrev pub finalizer_name : Text
finalizer_name = codes "gateway.zyno.io/cleanup"

-- What a reconciliation works with: the libraries, the API server, and the other parts of the bridge:
-- `translate` is `Translate` and `generated_ready` the check of what was generated.
pub record Environment (S : Type 0) : Type 0 where
  pub sha256 : Text → List ℕ
  pub json : Json
  pub capacity : Option ℕ
  pub client : Client S
  pub reads : Reads S
  pub writes : Writes S
  pub get_ingress : S → NamespacedName → Found IngressObject
  pub own : Ingress → Object → Option Object
  pub translate : S → Ingress → Options → Plan
  pub generated_ready : S → List Object → Outcome
  pub primary_generation : S → NamespacedName → Found ℕ
  pub primary_status : S → NamespacedName → Found PrimaryStatus
  pub gateway_status : S → Found GatewayStatus

module _ {S : Type 0} (env : Environment S) (config : Config) where
  abbrev pub on_server : (S → Bool × S) → Memory × S → Bool × (Memory × S)
  on_server write (memory, s) = let (ok, s') = write s in (ok, (memory, s'))

  abbrev pub is_done : Option GatewayPlan → Bool
  is_done none = false
  is_done (some plan) = true

  abbrev pub plan_gateway : Memory × S → Option GatewayPlan × (Memory × S)
  plan_gateway (memory, s) =
      let (plan, memory', s') =
        reconcile_managed_gateway env.sha256 env.json env.capacity env.client env.reads config
          memory s in
      (plan, (memory', s'))

  abbrev pub sync_when : Bool → Memory × S → Bool × (Memory × S)
  sync_when true st = let (plan, st') = plan_gateway st in (is_done plan, st')
  sync_when false st = (true, st)

  -- The managed Gateway, where the configuration asks for it.
  unfoldable pub sync_gateway : Memory × S → Bool × (Memory × S)
  sync_gateway st = sync_when config.manage_gateway st

  -- The request that a change of a certificate queues: the cache is emptied first.
  unfoldable pub sync_certificates : Memory × S → Bool × (Memory × S)
  sync_certificates (memory, s) =
      if config.manage_gateway
      then sync_gateway (record memory { certificates = [] }, s)
      else (true, (memory, s))

  -- The finalizer and the label are taken off an Ingress that is not served any more.
  unfoldable pub clean_up : IngressObject → S → Bool × S
  clean_up object s =
      let ing = object.ingress in
      if contains finalizer_name object.finalizers
        || not (is_empty (get_text translation_status_label ing.labels))
      then env.writes.patch_ingress s (record object {
        ingress = record ing { labels = remove translation_status_label ing.labels };
        finalizers = keep (λ name. not (text_eq name finalizer_name)) object.finalizers;
      })
      else (true, s)

  -- An Ingress that is missing, being deleted or not selected: everything of it is deleted.
  unfoldable pub release : NamespacedName → (S → Bool × S) → Memory × S → Bool × (Memory × S)
  release key cleanup st =
      then_do (on_server (λ s. prune_source env.client env.sha256 key [] true s) st)
        λ st1. then_do (sync_gateway st1) λ st2. on_server cleanup st2

  unfoldable pub add_finalizer : IngressObject → S → Bool × S
  add_finalizer object s =
      if contains finalizer_name object.finalizers
      then (true, s)
      else env.writes.patch_ingress s
          (record object { finalizers = object.finalizers ++ finalizer_name ∷ [] })

  -- The plan of an Ingress from the selected Ingresses of its namespace; `none` is an error.
  unfoldable pub plan_ingress : Ingress → Option GatewayPlan → List Ingress → S → Option Plan
  plan_ingress ing gateway_plan ingresses s =
      let assignments = canary_assignments ingresses in
      let canaries = merged_canaries ing ingresses assignments in
      if is_canary_ingress ing
      then some (canary_plan ing (lookup ing.name assignments))
      else elim (requires_settings_snippets config ing (map (λ canary. canary.name) canaries)
          (env.reads.list_ingresses s (some ing.namespace))) [
            | none ↦ none
            | some settings_as_snippets ↦ some (
                env.translate s ing
                  (translate_options config gateway_plan canaries settings_as_snippets))
          ]

  -- The loop that applies the objects of the plan.
  unfoldable pub apply_desired : Ingress → List Object → S → Bool × S
  apply_desired ing [] s = (true, s)
  apply_desired ing (object ∷ objects) s =
      then_do (apply_owned env.client (env.own ing object) s) λ s'. apply_desired ing objects s'

  -- The objects are applied, and those of earlier plans are deleted.
  unfoldable pub write_routing : NamespacedName → Ingress → List Object → S → Bool × S
  write_routing key ing desired s =
      then_do (apply_desired ing desired s)
        λ s'. prune_source env.client env.sha256 key desired false s'

  abbrev pub plan_outcome : Ingress → Plan → List Object → S → Outcome
  plan_outcome ing plan desired s =
      let primary : NamespacedName = record {
        namespace = ing.namespace;
        name = plan.delegated_to;
      } in
      if is_empty plan.delegated_to
      then env.generated_ready s desired
      else delegated_ready (env.primary_generation s primary) (env.primary_status s primary)

  -- The addresses are mirrored to an Ingress that has routes of its own.
  unfoldable pub mirror_if_served : IngressObject → Plan → List Object → S → Bool × S
  mirror_if_served object plan desired s =
      if config.update_ingress_status && (not (fatal plan.issues) && is_empty plan.delegated_to)
      then mirror_ingress_status env.writes object (env.generated_ready s desired)
          (env.gateway_status s) s
      else (true, s)

  -- The status of the Ingress and of its translation.
  unfoldable pub report : IngressObject → Plan → List Object → S → Bool × S
  report object plan desired s =
      then_do
        (reconcile_translation_status env.sha256 env.client env.writes env.own object plan desired
          (plan_outcome object.ingress plan desired) s)
        (mirror_if_served object plan desired)

  abbrev pub write_plan :
      NamespacedName → IngressObject → Option GatewayPlan → Option Plan → S → Bool × S
  write_plan key object gateway_plan none s = (false, s)
  write_plan key object gateway_plan (some translated) s =
      let plan = with_gateway_issues key gateway_plan translated in
      let desired = desired_objects plan in
      then_do (write_routing key object.ingress desired s) λ s'. report object plan desired s'

  abbrev pub serve_among :
      NamespacedName → IngressObject → Option GatewayPlan → Option (List Ingress) → S → Bool × S
  serve_among key object gateway_plan none s = (false, s)
  serve_among key object gateway_plan (some ingresses) s =
      let ing = object.ingress in
      write_plan key object gateway_plan
        (plan_ingress ing gateway_plan (planned_ingresses config ingresses) s) s

  abbrev pub serve_with : NamespacedName → IngressObject → Option GatewayPlan → S → Bool × S
  serve_with key object gateway_plan s =
      serve_among key object gateway_plan
        (env.reads.list_ingresses s (some object.ingress.namespace)) s

  abbrev pub serve_planned :
      NamespacedName → IngressObject → Option GatewayPlan × (Memory × S) → Bool × (Memory × S)
  serve_planned key object (none, st) = (false, st)
  serve_planned key object (some plan, st) = on_server (serve_with key object (some plan)) st

  abbrev pub serve_when : Bool → NamespacedName → IngressObject → Memory × S → Bool × (Memory × S)
  serve_when true key object st = serve_planned key object (plan_gateway st)
  serve_when false key object st = on_server (serve_with key object none) st

  -- A selected Ingress.
  unfoldable pub serve : NamespacedName → IngressObject → Memory × S → Bool × (Memory × S)
  serve key object st =
      then_do (on_server (add_finalizer object) st)
        λ st'. serve_when config.manage_gateway key object st'

  abbrev pub reconcile_found :
      NamespacedName → Found IngressObject → Memory × S → Bool × (Memory × S)
  reconcile_found key not_found st = release key (λ s. (true, s)) st
  reconcile_found key failed st = (false, st)
  reconcile_found key (found object) st =
      if object.ingress.deleting || not (selected config object.ingress)
      then release key (clean_up object) st
      else serve key object st

  -- `Reconcile`
  unfoldable pub reconcile : NamespacedName → Memory × S → Bool × (Memory × S)
  reconcile key (memory, s) =
      if key == certificate_sync_key
      then sync_certificates (memory, s)
      else if key == global_reconcile_key
      then sync_gateway (memory, s)
      else reconcile_found key (env.get_ingress s key) (memory, s)

-- The functions above, for the tests.
unfoldable pub reconcile_functions : Unit {0}
unfolding sync_gateway sync_certificates clean_up release add_finalizer plan_ingress apply_desired
    write_routing mirror_if_served report serve reconcile
reconcile_functions = tt
