-- ===== src/Controller/Unsupported.antt =====
-- The translation of the library in a whole reconciliation: an Ingress that it does not support loses its
-- routing.
use ingress_nginx_gateway_br.Common.{
  ◌≡◌, sym, ◌∙◌, ap, ◌⊎◌, inl, inr, true, false, ◌||◌, Option, none, some, List, [], Bool-cases,
  ◌==◌, true-false,
}
use ingress_nginx_gateway_br.Text.{codes, text_eq}
use ingress_nginx_gateway_br.Api.{name_key, Ingress}
use ingress_nginx_gateway_br.Types.{fatal, Options}
use ingress_nginx_gateway_br.Gateway.Emission.{GatewayPlan}
use ingress_nginx_gateway_br.Translate.Compose.{protocol_of}
use ingress_nginx_gateway_br.Translate.Checks.{validate_canary, validate_whitelist_source_range}
use ingress_nginx_gateway_br.Translate.Supported.{translate-IsSmall}
use ingress_nginx_gateway_br.Controller.Selection.{Config}
use ingress_nginx_gateway_br.Controller.Observed.{found}
use ingress_nginx_gateway_br.Controller.Cluster.{ObjectKey, Object, IsServer}
use ingress_nginx_gateway_br.Controller.Apply.{routing_kinds, source_labels}
use ingress_nginx_gateway_br.Controller.Pruned.{is_owned}
use ingress_nginx_gateway_br.Controller.ManagedPlan.{Memory}
use ingress_nginx_gateway_br.Controller.Requests.{certificate_sync_key, global_reconcile_key}
use ingress_nginx_gateway_br.Controller.TranslationStatus.{IngressObject, Plan}
use ingress_nginx_gateway_br.Controller.IngressPlan.{desired_objects, with_gateway_issues}
use ingress_nginx_gateway_br.Controller.StatusFrame.{IsApart}
use ingress_nginx_gateway_br.Controller.Released.{is_gone}
use ingress_nginx_gateway_br.Controller.Translated.{
  Translator, translated_plan, translate_ingress, with_translator,
}
use ingress_nginx_gateway_br.Controller.RoutingFrame.{key_of, IsKeepingKeys}
use ingress_nginx_gateway_br.Controller.Withdrawn.{
  plan_ingress-cases, desired_objects-nothing, reconcile-IsGone,
}
use ingress_nginx_gateway_br.Controller.Reconcile.{Environment, plan_ingress, reconcile}

-- The backend protocol is neither HTTP nor HTTPS, or the source ranges or the canary annotations fail
-- their checks.
abbrev pub IsUnsupported : {S : Type 0} → Translator S → Ingress → Type 0
IsUnsupported translator ing =
    ((text_eq (protocol_of ing.annotations) (codes "HTTPS")
        || text_eq (protocol_of ing.annotations) (codes "HTTP"))
      ≡ false)
    ⊎ ((fatal (validate_whitelist_source_range translator.parse_prefix ing.annotations) ≡ true)
        ⊎ (fatal (validate_canary ing) ≡ true))

module _ {S : Type 0} (translator : Translator S) (bare : Environment S) (config : Config)
    (view cached : S → ObjectKey → Option Object) (server : IsServer bare.client view cached)
    (apart : IsApart bare.writes view cached) (keeps_keys : IsKeepingKeys bare.own) where
  abbrev pub env : Environment S
  env = with_translator translator bare

  translate_ingress-refuses :
      (s : S) (ing : Ingress) (options : Options)
      → IsUnsupported translator ing
      → fatal (translate_ingress env.sha256 translator s ing options).issues ≡ true
  unfolding translate_ingress translated_plan
  translate_ingress-refuses s ing options unsupported =
      elim (Bool-cases (fatal (translate_ingress env.sha256 translator s ing options).issues)) [
        | inl refused ↦ refused
        | inr fine ↦
            let (protocol, ranges, canary, small) =
              translate-IsSmall env.sha256 _ _ translator.parse_url translator.parse_prefix
                translator.is_subdomain options ing fine in
            elim unsupported [
              | inl other ↦ absurd (true-false (sym protocol ∙ other))
              | inr (inl invalid) ↦ absurd (true-false (sym invalid ∙ ranges))
              | inr (inr broken) ↦ absurd (true-false (sym broken ∙ canary))
            ]
      ]

  nothing_desired :
      (ing : Ingress)
      → IsUnsupported translator ing
      → (gateway_plan : Option GatewayPlan) (ingresses : List Ingress) (t : S) (plan : Plan)
      → plan_ingress env config ing gateway_plan ingresses t ≡ some plan
      → desired_objects (with_gateway_issues (key_of ing) gateway_plan plan) ≡ []
  nothing_desired ing unsupported gateway_plan ingresses t plan planned =
      desired_objects-nothing (key_of ing) gateway_plan plan
        (elim (plan_ingress-cases env config ing gateway_plan ingresses t plan planned) [
          | inl empty ↦ inr empty
          | inr (options, e) ↦ inl (
              ap (λ (p : Plan). fatal p.issues) e
              ∙ translate_ingress-refuses t ing options unsupported)
        ])

  -- When the request of a selected Ingress succeeds whose backend protocol is neither HTTP nor HTTPS, or whose
  -- source ranges or canary annotations fail their checks, every route, policy and filter with the labels of
  -- the Ingress in its namespace is gone, where it stood and the informer cache showed it when the request
  -- began, SetControllerReference keeps keys, the client keeps to its contract, and patches of Ingresses and
  -- of status do not change other objects.
  pub reconcile-IsWithdrawn :
      (object : IngressObject) (memory : Memory) (s : S) (held : Object)
      → (key_of object.ingress == certificate_sync_key) ≡ false
      → (key_of object.ingress == global_reconcile_key) ≡ false
      → env.get_ingress s (key_of object.ingress) ≡ found object
      → is_gone config (found object) ≡ false
      → IsUnsupported translator object.ingress
      → is_owned object.ingress.namespace
          (source_labels env.sha256 (key_of object.ingress))
          routing_kinds
          held
        ≡ true
      → view s held.key ≡ some held
      → cached s held.key ≡ some held
      → (reconcile env config (key_of object.ingress) (memory, s)).0 ≡ true
      → view (reconcile env config (key_of object.ingress) (memory, s)).1.1 held.key ≡ none
  reconcile-IsWithdrawn object memory s held ordinary one read served unsupported owned stands
        shown =
      reconcile-IsGone env config view cached server apart keeps_keys held object memory s ordinary
        one read served owned (nothing_desired object.ingress unsupported) (stands, shown)
