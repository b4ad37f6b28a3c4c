-- ===== src/Controller/Withdrawn.antt =====
-- The request of a selected Ingress that cannot be translated, with the translation of the library: its
-- routing is removed.
use ingress_nginx_gateway_br.Common.{
  ◌≡◌, refl, sym, ◌∙◌, ap, subst, ◌⊎◌, inl, inr, Bool, true, false, Option, none, some, some_inj,
  none-some, List, [], map, Bool-cases, Option-cases, ◌==◌, true-false, lookup,
}
use ingress_nginx_gateway_br.Text.{Text, text_key}
use ingress_nginx_gateway_br.Api.{NamespacedName, name_key, Ingress}
use ingress_nginx_gateway_br.Types.{fatal, Options}
use ingress_nginx_gateway_br.Translate.Kept.{fatal_left}
use ingress_nginx_gateway_br.Gateway.Emission.{GatewayPlan}
use ingress_nginx_gateway_br.Controller.Selection.{Config}
use ingress_nginx_gateway_br.Controller.Canary.{is_canary_ingress, canary_assignments}
use ingress_nginx_gateway_br.Controller.Observed.{found}
use ingress_nginx_gateway_br.Controller.Footprints.{requires_settings_snippets}
use ingress_nginx_gateway_br.Controller.Cluster.{
  kind_key, ObjectKey, object_key_key, Object, IsServer,
}
use ingress_nginx_gateway_br.Controller.Apply.{
  prune_source, prune_kinds, pruned_kinds, routing_kinds, source_labels, then_do,
}
use ingress_nginx_gateway_br.Controller.Pruned.{is_owned}
use ingress_nginx_gateway_br.Controller.Leftovers.{then_do-succeeded, prune_kinds-IsGone}
use ingress_nginx_gateway_br.Controller.Keeps.{Shows}
use ingress_nginx_gateway_br.Controller.ManagedPlan.{Memory, planned_ingresses}
use ingress_nginx_gateway_br.Controller.Requests.{certificate_sync_key, global_reconcile_key}
use ingress_nginx_gateway_br.Controller.TranslationStatus.{IngressObject, Plan}
use ingress_nginx_gateway_br.Controller.IngressPlan.{
  merged_canaries, translate_options, plan_objects, desired_objects, canary_plan,
  with_gateway_issues,
}
use ingress_nginx_gateway_br.Controller.StatusFrame.{IsApart}
use ingress_nginx_gateway_br.Controller.Released.{is_gone}
use ingress_nginx_gateway_br.Controller.RoutingFrame.{
  key_of, IsKeepingKeys, add_finalizer-Keeps, plan_gateway-Keeps, report-IsGone,
}
use ingress_nginx_gateway_br.Controller.Reconcile.{
  Environment, on_server, plan_gateway, add_finalizer, plan_ingress, report, apply_desired,
  write_routing, write_plan, serve_among, serve_planned, serve_when, serve, reconcile,
}

plan_objects-canary_plan :
    (ing : Ingress) (primary : Option Text) → plan_objects (canary_plan ing primary) ≡ []
unfolding plan_objects canary_plan
plan_objects-canary_plan ing none = refl
plan_objects-canary_plan ing (some primary) = refl

-- A plan is that of a canary, which has no objects, or a translation.
pub plan_ingress-cases :
    {S : Type 0} (env : Environment S) (config : Config) (ing : Ingress)
    (gateway_plan : Option GatewayPlan) (ingresses : List Ingress) (t : S) (plan : Plan)
    → plan_ingress env config ing gateway_plan ingresses t ≡ some plan
    → (plan_objects plan ≡ []) ⊎ ((options : Options) × (plan ≡ env.translate t ing options))
unfolding plan_ingress
plan_ingress-cases env config ing gateway_plan ingresses t plan planned =
    let assignments = canary_assignments ingresses in
    let canaries = merged_canaries ing ingresses assignments in
    let required =
      requires_settings_snippets config ing (map (λ canary. canary.name) canaries)
        (env.reads.list_ingresses t (some ing.namespace)) in
    elim (Bool-cases (is_canary_ingress ing)) [
      | inl canary ↦
          let e = some_inj (sym (rw canary refl) ∙ planned) in
          inl (ap plan_objects (sym e) ∙ plan_objects-canary_plan ing (lookup ing.name assignments))
      | inr primary ↦ elim (Option-cases required) [
        | inl broken ↦ elim (none-some (sym (rw (primary, broken) refl) ∙ planned)) [ ]
        | inr (settings, known) ↦
            let options = translate_options config gateway_plan canaries settings in
            let e : env.translate t ing options ≡ plan =
              some_inj (sym (rw (primary, known) refl) ∙ planned) in
            inr (options, sym e)
      ]
    ]

-- Nothing is applied for a plan that is fatal or has no objects.
pub desired_objects-nothing :
    (source : NamespacedName) (gateway_plan : Option GatewayPlan) (plan : Plan)
    → (fatal plan.issues ≡ true) ⊎ (plan_objects plan ≡ [])
    → desired_objects (with_gateway_issues source gateway_plan plan) ≡ []
unfolding desired_objects with_gateway_issues plan_objects
desired_objects-nothing source none plan (inl refused) = rw refused refl
desired_objects-nothing source none plan (inr empty) = elim (Bool-cases (fatal plan.issues)) [
  | inl refused ↦ rw refused refl
  | inr fine ↦ rw fine empty
]
desired_objects-nothing source (some gateway_plan) plan (inl refused) =
    elim (Bool-cases (fatal (with_gateway_issues source (some gateway_plan) plan).issues)) [
      | inl still ↦ simp (still) refl
      | inr fine ↦ absurd (true-false (sym refused ∙ fatal_left plan.issues _ fine))
    ]
desired_objects-nothing source (some gateway_plan) plan (inr empty) =
    elim (Bool-cases (fatal (with_gateway_issues source (some gateway_plan) plan).issues)) [
      | inl refused ↦ simp (refused) refl
      | inr fine ↦ simp (fine) empty
    ]

module _ {S : Type 0} (env : Environment S) (config : Config)
    (view cached : S → ObjectKey → Option Object) (server : IsServer env.client view cached)
    (apart : IsApart env.writes view cached) (keeps_keys : IsKeepingKeys env.own)
    (held : Object) where
  -- Whatever plan is made for the Ingress, nothing is applied for it.
  abbrev pub IsRefused : Ingress → Type 0
  IsRefused ing =
      (gateway_plan : Option GatewayPlan) (ingresses : List Ingress) (t : S) (plan : Plan)
      → plan_ingress env config ing gateway_plan ingresses t ≡ some plan
      → desired_objects (with_gateway_issues (key_of ing) gateway_plan plan) ≡ []

  -- The object is a route, a policy or a filter of the Ingress.
  abbrev pub IsRoutingOf : Ingress → Type 0
  IsRoutingOf ing =
      is_owned ing.namespace (source_labels env.sha256 (key_of ing)) routing_kinds held ≡ true

  write_nothing-IsGone :
      (object : IngressObject) (plan : Plan) (desired : List Object) (s : S)
      → IsRoutingOf object.ingress
      → desired ≡ []
      → Shows view cached held s
      → (then_do
          (write_routing env config (key_of object.ingress) object.ingress desired s)
          (λ t. report env config object plan desired t)).0
        ≡ true
      → view
          (then_do
            (write_routing env config (key_of object.ingress) object.ingress desired s)
            (λ t. report env config object plan desired t)).1
          held.key
        ≡ none
  unfolding write_routing apply_desired prune_source pruned_kinds
  write_nothing-IsGone object plan desired s routing nothing shows =
      subst
        (λ ds.
          (then_do (write_routing env config (key_of object.ingress) object.ingress ds s)
              (λ t. report env config object plan ds t)).0
            ≡ true
          → view
              (then_do (write_routing env config (key_of object.ingress) object.ingress ds s)
                (λ t. report env config object plan ds t)).1
              held.key
            ≡ none)
        (sym nothing)
        λ done.
          let source = key_of object.ingress in
          let labels = source_labels env.sha256 source in
          let pruned = prune_kinds env.client source.namespace labels [] routing_kinds s in
          let reported : S → Bool × S = λ t. report env config object plan [] t in
          let (now, later, last) = then_do-succeeded pruned reported done in
          ap (λ t. view t held.key) last
          ∙ report-IsGone env config view cached server apart keeps_keys held source.namespace
              labels routing object plan [] pruned.1
              (prune_kinds-IsGone server held source.namespace labels routing_kinds s routing now
                (inl shows))

  serve_among-IsGone :
      (object : IngressObject) (gateway_plan : Option GatewayPlan) (listed : Option (List Ingress))
      (s : S)
      → IsRoutingOf object.ingress
      → IsRefused object.ingress
      → Shows view cached held s
      → (serve_among env config (key_of object.ingress) object gateway_plan listed s).0 ≡ true
      → view
          (serve_among env config (key_of object.ingress) object gateway_plan listed s).1
          held.key
        ≡ none
  serve_among-IsGone object gateway_plan none s routing refused shows =
      λ done. absurd (true-false (sym done))
  serve_among-IsGone object gateway_plan (some listed) s routing refused shows =
      let ing = object.ingress in
      write_plan-IsGone object gateway_plan
        (plan_ingress env config ing gateway_plan (planned_ingresses config listed) s) s routing
        (λ plan planned. refused gateway_plan (planned_ingresses config listed) s plan planned)
        shows
    where
      write_plan-IsGone :
          (object : IngressObject) (gateway_plan : Option GatewayPlan) (made : Option Plan) (s : S)
          → IsRoutingOf object.ingress
          → ((plan : Plan)
              → made ≡ some plan
              → desired_objects (with_gateway_issues (key_of object.ingress) gateway_plan plan)
                ≡ [])
          → Shows view cached held s
          → (write_plan env config (key_of object.ingress) object gateway_plan made s).0 ≡ true
          → view
              (write_plan env config (key_of object.ingress) object gateway_plan made s).1
              held.key
            ≡ none
      write_plan-IsGone object gateway_plan none s routing nothing shows =
          λ done. absurd (true-false (sym done))
      write_plan-IsGone object gateway_plan (some plan) s routing nothing shows =
          write_nothing-IsGone object
            (with_gateway_issues (key_of object.ingress) gateway_plan plan) _ s routing
            (nothing plan refl) shows

  serve_when-IsGone :
      (managed : Bool) (object : IngressObject) (st : Memory × S)
      → IsRoutingOf object.ingress
      → IsRefused object.ingress
      → Shows view cached held st.1
      → (serve_when env config managed (key_of object.ingress) object st).0 ≡ true
      → view (serve_when env config managed (key_of object.ingress) object st).1.1 held.key ≡ none
  serve_when-IsGone true object st routing refused shows =
      serve_planned-IsGone object (plan_gateway env config st) routing refused (
        plan_gateway-Keeps env config view cached server held object.ingress.namespace
          (source_labels env.sha256 (key_of object.ingress)) routing st shows)
    where
      serve_planned-IsGone :
          (object : IngressObject) (planned : Option GatewayPlan × (Memory × S))
          → IsRoutingOf object.ingress
          → IsRefused object.ingress
          → Shows view cached held planned.1.1
          → (serve_planned env config (key_of object.ingress) object planned).0 ≡ true
          → view (serve_planned env config (key_of object.ingress) object planned).1.1 held.key
            ≡ none
      serve_planned-IsGone object (none, st) routing refused shows =
          λ done. absurd (true-false (sym done))
      serve_planned-IsGone object (some plan, (memory, s)) routing refused shows =
          serve_among-IsGone object (some plan)
            (env.reads.list_ingresses s (some object.ingress.namespace)) s routing refused shows
  serve_when-IsGone false object (memory, s) routing refused shows =
      serve_among-IsGone object none (env.reads.list_ingresses s (some object.ingress.namespace)) s
        routing refused shows

  pub reconcile-IsGone :
      (object : IngressObject) (memory : Memory) (s : S)
      → (key_of object.ingress == certificate_sync_key) ≡ false
      → (key_of object.ingress == global_reconcile_key) ≡ false
      → env.get_ingress s (key_of object.ingress) ≡ found object
      → is_gone config (found object) ≡ false
      → IsRoutingOf object.ingress
      → IsRefused object.ingress
      → Shows view cached held s
      → (reconcile env config (key_of object.ingress) (memory, s)).0 ≡ true
      → view (reconcile env config (key_of object.ingress) (memory, s)).1.1 held.key ≡ none
  unfolding reconcile serve
  reconcile-IsGone object memory s ordinary one read served routing refused shows =
      simp (ordinary, one, read, served)
        λ done.
          let added = on_server env config (add_finalizer env config object) (memory, s) in
          let next : Memory × S → Bool × (Memory × S) =
            λ t. serve_when env config config.manage_gateway (key_of object.ingress) object t in
          let (now, later, last) = then_do-succeeded added next done in
          ap (λ (t : Memory × S). view t.1 held.key) last
          ∙ serve_when-IsGone config.manage_gateway object added.1 routing refused
              (add_finalizer-Keeps env config view cached apart held object s shows) later
