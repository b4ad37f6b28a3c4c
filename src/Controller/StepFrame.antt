-- ===== src/Controller/StepFrame.antt =====
-- A relation of states that holds for the single writes holds for a whole reconciliation.
use ingress_nginx_gateway_br.Common.{
  Bool, true, false, not, ◌||◌, Option, none, some, List, [], ◌∷◌, contains, Bool-cases, inl, inr,
  ◌==◌,
}
use ingress_nginx_gateway_br.Text.{text_key, is_empty}
use ingress_nginx_gateway_br.Api.{NamespacedName, name_key, Ingress, get_text}
use ingress_nginx_gateway_br.Types.{fatal, translation_status_label}
use ingress_nginx_gateway_br.Gateway.Emission.{GatewayPlan}
use ingress_nginx_gateway_br.Controller.Selection.{Config, selected}
use ingress_nginx_gateway_br.Controller.Observed.{Found, found, not_found, failed}
use ingress_nginx_gateway_br.Controller.ParentStatus.{ConditionStatus}
use ingress_nginx_gateway_br.Controller.Readiness.{Outcome}
use ingress_nginx_gateway_br.Controller.Cluster.{Object}
use ingress_nginx_gateway_br.Controller.Apply.{then_do, apply, apply_owned, prune_source}
use ingress_nginx_gateway_br.Controller.ManagedPlan.{Memory, reconcile_managed_gateway}
use ingress_nginx_gateway_br.Controller.GatewayFrame.{
  IsFrame, then_do-frame, reconcile_managed_gateway-frame,
}
use ingress_nginx_gateway_br.Controller.TranslationStatus.{
  IngressObject, Plan, reconcile_translation_status, write_conditions, conditions_of,
  translation_object,
}
use ingress_nginx_gateway_br.Controller.IngressPlan.{desired_objects, with_gateway_issues}
use ingress_nginx_gateway_br.Controller.Requests.{certificate_sync_key, global_reconcile_key}
use ingress_nginx_gateway_br.Controller.Reconcile.{
  Environment, on_server, sync_gateway, sync_certificates, clean_up, release, add_finalizer,
  apply_desired, mirror_if_served, plan_outcome, write_routing, report, serve, sync_when,
  serve_when, serve_planned, serve_among, write_plan, reconcile_found, reconcile, finalizer_name,
}
use ingress_nginx_gateway_br.Controller.StatusFrame.{
  IsQuiet, write_conditions-quiet, mirror_if_served-quiet,
}

-- A relation of the server's states that each step of a reconciliation stays within.
pub record IsStepFrame {S : Type 0} (env : Environment S) (config : Config) (R : S → S → Type 0)
    : Type 0 where
  pub step_quiet : IsQuiet env.writes R
  pub step_gateway : IsFrame env.sha256 env.client config R
  pub step_apply : (object : Object) (s : S) → R s (apply env.client object s).1
  pub step_prune :
      (source : NamespacedName) (desired : List Object) (include_status : Bool) (s : S)
      → R s (prune_source env.client env.sha256 source desired include_status s).1

module _ {S : Type 0} {env : Environment S} {config : Config} {R : S → S → Type 0}
    (frame : IsStepFrame env config R) where
  abbrev quiet : IsQuiet env.writes R
  quiet = frame.step_quiet

  abbrev On : Memory × S → Memory × S → Type 0
  On st st' = R st.1 st'.1

  apply_owned-frame : (object : Option Object) (s : S) → R s (apply_owned env.client object s).1
  apply_owned-frame none s = quiet.quiet_refl s
  apply_owned-frame (some object) s = frame.step_apply object s

  clean_up-frame : (object : IngressObject) (s : S) → R s (clean_up env config object s).1
  unfolding clean_up
  clean_up-frame object s =
      elim (Bool-cases (
        contains finalizer_name object.finalizers
        || not (is_empty (get_text translation_status_label object.ingress.labels)))) [
          | inl marked ↦ rw marked (quiet.quiet_ingress s _)
          | inr clean ↦ rw clean (quiet.quiet_refl s)
        ]

  add_finalizer-frame : (object : IngressObject) (s : S) → R s (add_finalizer env config object s).1
  unfolding add_finalizer
  add_finalizer-frame object s = elim (Bool-cases (contains finalizer_name object.finalizers)) [
    | inl marked ↦ rw marked (quiet.quiet_refl s)
    | inr clean ↦ rw clean (quiet.quiet_ingress s _)
  ]

  sync_when-frame : (managed : Bool) (st : Memory × S) → On st (sync_when env config managed st).1
  sync_when-frame true (memory, s) =
      reconcile_managed_gateway-frame frame.step_gateway env.json env.capacity env.reads memory s
  sync_when-frame false (memory, s) = quiet.quiet_refl s

  sync_gateway-frame : (st : Memory × S) → On st (sync_gateway env config st).1
  unfolding sync_gateway
  sync_gateway-frame st = sync_when-frame config.manage_gateway st

  sync_certificates-frame : (st : Memory × S) → On st (sync_certificates env config st).1
  unfolding sync_certificates
  sync_certificates-frame (memory, s) = elim (Bool-cases config.manage_gateway) [
    | inl managed ↦ simp (managed) (sync_gateway-frame (record memory { certificates = [] }, s))
    | inr unmanaged ↦ simp (unmanaged) (quiet.quiet_refl s)
  ]

  release-frame :
      (key : NamespacedName) (cleanup : S → Bool × S) (st : Memory × S)
      → ((s : S) → R s (cleanup s).1)
      → On st (release env config key cleanup st).1
  unfolding release
  release-frame key cleanup (memory, s) cleans =
      let pruned =
        on_server env config (λ t. prune_source env.client env.sha256 key [] true t) (memory, s) in
      let last : Memory × S → Bool × (Memory × S) = λ st. on_server env config cleanup st in
      then_do-frame On (memory, s) pruned (λ st. then_do (sync_gateway env config st) last)
        (λ a b c. quiet.quiet_trans a.1 b.1 c.1) (frame.step_prune key [] true s)
        λ st1.
          then_do-frame On st1 (sync_gateway env config st1) last
            (λ a b c. quiet.quiet_trans a.1 b.1 c.1) (sync_gateway-frame st1) λ st2. cleans st2.1

  apply_desired-frame :
      (ing : Ingress) (objects : List Object) (s : S)
      → R s (apply_desired env config ing objects s).1
  unfolding apply_desired
  apply_desired-frame ing [] s = quiet.quiet_refl s
  apply_desired-frame ing (object ∷ objects) s =
      then_do-frame R s _ _ quiet.quiet_trans (apply_owned-frame (env.own ing object) s)
        (λ t. apply_desired-frame ing objects t)

  write_routing-frame :
      (key : NamespacedName) (ing : Ingress) (desired : List Object) (s : S)
      → R s (write_routing env config key ing desired s).1
  unfolding write_routing
  write_routing-frame key ing desired s =
      then_do-frame R s _ _ quiet.quiet_trans (apply_desired-frame ing desired s)
        (λ t. frame.step_prune key desired false t)

  reconcile_translation_status-frame :
      (object : IngressObject) (plan : Plan) (desired : List Object) (outcome : S → Outcome) (s : S)
      → R s
          (reconcile_translation_status env.sha256 env.client env.writes env.own object plan desired
            outcome s).1
  unfolding reconcile_translation_status
  reconcile_translation_status-frame object plan desired outcome s =
      let translation = translation_object env.sha256 object.ingress in
      let owned = env.own object.ingress translation in
      let conditions : S → Option (ConditionStatus × ConditionStatus) =
        λ t. conditions_of (fatal plan.issues) (outcome t) in
      then_do-frame R s (apply_owned env.client owned s)
        (λ t. write_conditions env.writes object plan desired translation.key (conditions t) t)
        quiet.quiet_trans (apply_owned-frame owned s)
        (λ t. write_conditions-quiet quiet object plan desired translation.key (conditions t) t)

  report-frame :
      (object : IngressObject) (plan : Plan) (desired : List Object) (s : S)
      → R s (report env config object plan desired s).1
  unfolding report
  report-frame object plan desired s =
      let outcome : S → Outcome = plan_outcome env config object.ingress plan desired in
      then_do-frame R s
        (reconcile_translation_status env.sha256 env.client env.writes env.own object plan desired
          outcome s)
        (mirror_if_served env config object plan desired) quiet.quiet_trans
        (reconcile_translation_status-frame object plan desired outcome s)
        (λ t. mirror_if_served-quiet env config quiet object plan desired t)

  write_plan-frame :
      (key : NamespacedName) (object : IngressObject) (gateway_plan : Option GatewayPlan)
      (plan : Option Plan) (s : S)
      → R s (write_plan env config key object gateway_plan plan s).1
  write_plan-frame key object gateway_plan none s = quiet.quiet_refl s
  write_plan-frame key object gateway_plan (some translated) s =
      let plan = with_gateway_issues key gateway_plan translated in
      let desired = desired_objects plan in
      then_do-frame R s _ _ quiet.quiet_trans (write_routing-frame key object.ingress desired s)
        (λ t. report-frame object plan desired t)

  serve_among-frame :
      (key : NamespacedName) (object : IngressObject) (gateway_plan : Option GatewayPlan)
      (listed : Option (List Ingress)) (s : S)
      → R s (serve_among env config key object gateway_plan listed s).1
  serve_among-frame key object gateway_plan none s = quiet.quiet_refl s
  serve_among-frame key object gateway_plan (some ingresses) s =
      write_plan-frame key object gateway_plan _ s

  serve_planned-frame :
      (key : NamespacedName) (object : IngressObject) (gateway_plan : Option GatewayPlan)
      (st : Memory × S)
      → On st (serve_planned env config key object (gateway_plan, st)).1
  serve_planned-frame key object none st = quiet.quiet_refl st.1
  serve_planned-frame key object (some plan) (memory, s) =
      serve_among-frame key object (some plan)
        (env.reads.list_ingresses s (some object.ingress.namespace)) s

  serve_when-frame :
      (managed : Bool) (key : NamespacedName) (object : IngressObject) (st : Memory × S)
      → On st (serve_when env config managed key object st).1
  serve_when-frame true key object (memory, s) =
      let (plan, memory', s') =
        reconcile_managed_gateway env.sha256 env.json env.capacity env.client env.reads config
          memory s in
      quiet.quiet_trans s s' _
        (reconcile_managed_gateway-frame frame.step_gateway env.json env.capacity env.reads memory
          s)
        (serve_planned-frame key object plan (memory', s'))
  serve_when-frame false key object (memory, s) =
      serve_among-frame key object none (env.reads.list_ingresses s (some object.ingress.namespace))
        s

  serve-frame :
      (key : NamespacedName) (object : IngressObject) (st : Memory × S)
      → On st (serve env config key object st).1
  unfolding serve
  serve-frame key object (memory, s) =
      then_do-frame On (memory, s) _ _ (λ a b c. quiet.quiet_trans a.1 b.1 c.1)
        (add_finalizer-frame object s) (λ t. serve_when-frame config.manage_gateway key object t)

  reconcile_found-frame :
      (key : NamespacedName) (read : Found IngressObject) (st : Memory × S)
      → On st (reconcile_found env config key read st).1
  reconcile_found-frame key not_found st =
      release-frame key (λ s. (true, s)) st (λ s. quiet.quiet_refl s)
  reconcile_found-frame key failed st = quiet.quiet_refl st.1
  reconcile_found-frame key (found object) st =
      elim (Bool-cases (object.ingress.deleting || not (selected config object.ingress))) [
        | inl gone ↦
            simp (gone)
              (release-frame key (clean_up env config object) st (λ s. clean_up-frame object s))
        | inr served ↦ simp (served) (serve-frame key object st)
      ]

  pub reconcile-frame :
      (key : NamespacedName) (st : Memory × S) → On st (reconcile env config key st).1
  unfolding reconcile
  reconcile-frame key (memory, s) = elim (Bool-cases (key == certificate_sync_key)) [
    | inl sync ↦ simp (sync) (sync_certificates-frame (memory, s))
    | inr other ↦ elim (Bool-cases (key == global_reconcile_key)) [
      | inl all ↦ simp (other, all) (sync_gateway-frame (memory, s))
      | inr one ↦ simp (other, one) (reconcile_found-frame key (env.get_ingress s key) (memory, s))
    ]
  ]
