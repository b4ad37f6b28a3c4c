-- ===== src/Controller/RoutingFrame.antt =====
-- What the steps around the routing of an Ingress leave alone: the routes, policies and filters that stand,
-- and the keys under which none stands.
use ingress_nginx_gateway_br.Common.{
  ℕ, ◌≡◌, refl, sym, ◌∙◌, ap, true, false, Option, none, some, List, All, Bool-cases, Option-cases,
  inl, inr, arith, ◌==◌, eq_iff, true-false, contains,
}
use ingress_nginx_gateway_br.Text.{Text, text_key}
use ingress_nginx_gateway_br.Api.{NamespacedName, Ingress}
use ingress_nginx_gateway_br.Types.{fatal}
use ingress_nginx_gateway_br.Controller.Selection.{Config}
use ingress_nginx_gateway_br.Controller.ParentStatus.{ConditionStatus}
use ingress_nginx_gateway_br.Controller.Readiness.{Outcome}
use ingress_nginx_gateway_br.Controller.Cluster.{
  Kind, kind_key, ingress_translation, ObjectKey, object_key_key, Object, Client, IsServer,
  is_listed,
}
use ingress_nginx_gateway_br.Controller.Apply.{may_apply, apply, apply_owned, routing_kinds}
use ingress_nginx_gateway_br.Controller.Pruned.{is_owned, prune_listed-Keeps}
use ingress_nginx_gateway_br.Controller.Keeps.{Keeps, Keeps-untouched, Keeps-trans}
use ingress_nginx_gateway_br.Controller.GatewayFrame.{
  IsFrame, is_gateway_kind, then_do-frame, reconcile_managed_gateway-frame,
}
use ingress_nginx_gateway_br.Controller.ManagedPlan.{Memory}
use ingress_nginx_gateway_br.Controller.ManagedObjects.{gateway_labels}
use ingress_nginx_gateway_br.Controller.TranslationStatus.{
  IngressObject, Plan, translation_object, reconcile_translation_status, write_conditions,
  conditions_of,
}
use ingress_nginx_gateway_br.Controller.StatusFrame.{
  IsApart, IsQuiet, write_conditions-quiet, mirror_if_served-quiet,
}
use ingress_nginx_gateway_br.Controller.Released.{owned-kind, other_kind}
use ingress_nginx_gateway_br.Controller.Reconcile.{
  Environment, plan_gateway, add_finalizer, plan_outcome, mirror_if_served, report, finalizer_name,
}

abbrev pub key_of : Ingress → NamespacedName
key_of ing = record { namespace = ing.namespace; name = ing.name }

-- SetControllerReference keeps the key of an object.
abbrev pub IsKeepingKeys : (Ingress → Object → Option Object) → Type 0
IsKeepingKeys own =
    (ing : Ingress) (object owned : Object) → own ing object ≡ some owned → owned.key ≡ object.key

routing_kinds-routing : All (λ kind. is_gateway_kind kind ≡ false) routing_kinds
routing_kinds-routing = (refl, (refl, (refl, (refl, (refl, (refl, tt))))))

routing_kinds-translation : All (λ kind. (kind == ingress_translation) ≡ false) routing_kinds
routing_kinds-translation = (refl, (refl, (refl, (refl, (refl, (refl, tt))))))

unlisted_kind :
    (kind : Kind) (namespace : Option Text) (labels : List (Text × Text)) (held : Object)
    → is_gateway_kind kind ≡ true
    → is_gateway_kind held.key.kind ≡ false
    → is_listed kind namespace labels held ≡ false
unfolding is_listed
unlisted_kind kind namespace labels held gateways routing =
    elim (Bool-cases (held.key.kind == kind)) [
      | inr other ↦ ground (arith, other)
      | inl same ↦
          let e = ap is_gateway_kind ((eq_iff held.key.kind kind).0 same) in
          absurd (true-false (sym gateways ∙ sym e ∙ routing))
    ]

module _ {S : Type 0} {client : Client S} {view cached : S → ObjectKey → Option Object}
    (server : IsServer client view cached) (held : Object)
    (routing : is_gateway_kind held.key.kind ≡ false) where
  apply_gateway-Keeps :
      (object : Object) (s : S)
      → is_gateway_kind object.key.kind ≡ true
      → Keeps view cached held s (apply client object s).1
  unfolding apply
  apply_gateway-Keeps object s gateways shows =
      elim (Bool-cases (may_apply (client.get s object.key))) [
        | inr denied ↦ rw denied shows
        | inl allowed ↦ rw allowed (
            Keeps-untouched view cached held s (client.patch s object).1
              (server.patch_other s object held.key
                (other_kind object.key held.key gateways routing))
              shows)
      ]

  routing-IsFrame :
      (sha256 : Text → List ℕ) (config : Config)
      → IsFrame sha256 client config (Keeps view cached held)
  routing-IsFrame sha256 config = record {
    frame_refl = λ s shows. shows;
    frame_trans = Keeps-trans view cached held;
    frame_apply = apply_gateway-Keeps;
    frame_prune = λ kind namespace kept s gateways.
        prune_listed-Keeps server held kind namespace (gateway_labels sha256 config) kept s
          (unlisted_kind kind namespace (gateway_labels sha256 config) held gateways routing);
  }

module _ {S : Type 0} (env : Environment S) (config : Config)
    (view cached : S → ObjectKey → Option Object) where
  pub add_finalizer-Keeps :
      IsApart env.writes view cached
      → (held : Object) (object : IngressObject) (s : S)
      → Keeps view cached held s (add_finalizer env config object s).1
  unfolding add_finalizer
  add_finalizer-Keeps apart held object s shows =
      elim (Bool-cases (contains finalizer_name object.finalizers)) [
        | inl marked ↦ rw marked shows
        | inr clean ↦
            rw clean (Keeps-untouched view cached held s _ (apart.ingress_apart s _ held.key) shows)
      ]

  pub plan_gateway-Keeps :
      IsServer env.client view cached
      → (held : Object) (namespace : Text) (labels : List (Text × Text))
      → is_owned namespace labels routing_kinds held ≡ true
      → (st : Memory × S) → Keeps view cached held st.1 (plan_gateway env config st).1.1
  plan_gateway-Keeps server held namespace labels owned (memory, s) =
      let routing =
        owned-kind is_gateway_kind namespace labels routing_kinds held routing_kinds-routing
          owned in
      reconcile_managed_gateway-frame (routing-IsFrame server held routing env.sha256 config)
        env.json env.capacity env.reads memory s

module _ {S : Type 0} (env : Environment S) (config : Config)
    (view cached : S → ObjectKey → Option Object) (server : IsServer env.client view cached)
    (apart : IsApart env.writes view cached) (keeps_keys : IsKeepingKeys env.own) (held : Object)
    (namespace : Text) (labels : List (Text × Text))
    (owned : is_owned namespace labels routing_kinds held ≡ true) where
  -- The same stands under the key of the object.
  abbrev Same : S → S → Type 0
  Same s s' = view s' held.key ≡ view s held.key

  Same-trans : (s t u : S) → Same s t → Same t u → Same s u
  Same-trans s t u first second = second ∙ first

  Same-IsQuiet : IsQuiet env.writes Same
  Same-IsQuiet = record {
    quiet_refl = λ s. refl;
    quiet_trans = Same-trans;
    quiet_ingress = λ s object. (apart.ingress_apart s object held.key).0;
    quiet_ingress_status = λ s object. (apart.ingress_status_apart s object held.key).0;
    quiet_status = λ s translation status. (apart.status_apart s translation status held.key).0;
  }

  apply_translation-Same :
      (object : Object) (s : S)
      → object.key.kind ≡ ingress_translation
      → Same s (apply env.client object s).1
  unfolding apply
  apply_translation-Same object s translation =
      let other =
        owned-kind (λ kind. kind == ingress_translation) namespace labels routing_kinds held
          routing_kinds-translation owned in
      elim (Bool-cases (may_apply (env.client.get s object.key))) [
        | inr denied ↦ rw denied refl
        | inl allowed ↦
            rw allowed
              (server.patch_other s object held.key (elim (Bool-cases (object.key == held.key)) [
                | inr different ↦ different
                | inl same ↦
                    let e = ap (λ (k : ObjectKey). k.kind) ((eq_iff object.key held.key).0 same) in
                    absurd (
                      true-false (
                        sym ((eq_iff held.key.kind ingress_translation).1 (sym e ∙ translation))
                        ∙ other))
              ])).0
      ]

  apply_owned-Same :
      (ing : Ingress) (s : S)
      → Same s (apply_owned env.client (env.own ing (translation_object env.sha256 ing)) s).1
  unfolding translation_object
  apply_owned-Same ing s =
      let translation = translation_object env.sha256 ing in
      elim (Option-cases (env.own ing translation)) [
        | inl broken ↦ rw broken refl
        | inr (prepared, e) ↦ rw e (
            apply_translation-Same prepared s
              (ap (λ (k : ObjectKey). k.kind) (keeps_keys ing translation prepared e)))
      ]

  -- Where nothing stands under the key, nothing does after the report.
  pub report-IsGone :
      (object : IngressObject) (plan : Plan) (desired : List Object) (s : S)
      → view s held.key ≡ none
      → view (report env config object plan desired s).1 held.key ≡ none
  unfolding report reconcile_translation_status mirror_if_served
  report-IsGone object plan desired s gone =
      let outcome : S → Outcome = plan_outcome env config object.ingress plan desired in
      let translation = translation_object env.sha256 object.ingress in
      let conditions : S → Option (ConditionStatus × ConditionStatus) =
        λ t. conditions_of (fatal plan.issues) (outcome t) in
      then_do-frame Same s _ (mirror_if_served env config object plan desired) Same-trans
        (then_do-frame Same s _
          (λ t. write_conditions env.writes object plan desired translation.key (conditions t) t)
          Same-trans (apply_owned-Same object.ingress s)
          (λ t.
            write_conditions-quiet Same-IsQuiet object plan desired translation.key (conditions t)
              t))
        (λ t. mirror_if_served-quiet env config Same-IsQuiet object plan desired t)
      ∙ gone
