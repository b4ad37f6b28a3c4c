-- ===== src/Controller/Overlapping.antt =====
-- Ingresses that share a host and path: the settings of their routes are written as snippets, since two
-- routes for one location cannot each have a policy of settings.
use ingress_nginx_gateway_br.Common.{
  some_inj, ◌≡◌, refl, sym, ◌∙◌, ap, subst, inl, inr, Bool, true, false, ◌||◌, Option, none, some,
  List, [], ◌∷◌, map, Memᴰ, arith, any, contains, Eq, eq_iff, Bool-cases, lookup,
}
use ingress_nginx_gateway_br.Text.{Text, text_key}
use ingress_nginx_gateway_br.Api.{Ingress}
use ingress_nginx_gateway_br.Gateway.Emission.{GatewayPlan}
use ingress_nginx_gateway_br.Translate.Policyless.{translate-IsPolicyless}
use ingress_nginx_gateway_br.Controller.Selection.{Config}
use ingress_nginx_gateway_br.Controller.Canary.{is_canary_ingress, canary_assignments}
use ingress_nginx_gateway_br.Controller.Footprints.{
  ingress_route_footprints, overlaps, is_competitor, requires_settings_snippets,
}
use ingress_nginx_gateway_br.Controller.TranslationStatus.{Plan}
use ingress_nginx_gateway_br.Controller.IngressPlan.{
  merged_canaries, canary_plan, translate_options,
}
use ingress_nginx_gateway_br.Controller.Translated.{
  Translator, translated_plan, translate_ingress, with_translator,
}
use ingress_nginx_gateway_br.Controller.Reconcile.{Environment, plan_ingress}

module _ {ℓ} {K : Type ℓ} ⦃key : Eq K⦄ where
  any-nothing : (xs : List K) → any (λ f. contains f []) xs ≡ false
  unfolding any contains
  any-nothing [] = refl
  any-nothing (x ∷ xs) = any-nothing xs

  any-one_more :
      (y : K) (ys xs : List K)
      → any (λ f. contains f (y ∷ ys)) xs ≡ (contains y xs || any (λ f. contains f ys) xs)
  unfolding any contains
  any-one_more y ys [] = refl
  any-one_more y ys (x ∷ xs) = ground (arith, any-one_more y ys xs, eq_iff x y, eq_iff y x)

  -- Whether two lists share an element does not depend on which is searched.
  any-contains : (xs ys : List K) → any (λ f. contains f xs) ys ≡ any (λ f. contains f ys) xs
  unfolding any
  any-contains xs [] = sym (any-nothing xs)
  any-contains xs (y ∷ ys) = ground (arith, any-contains xs ys, any-one_more y ys xs)

overlaps-sym : (a b : Ingress) → overlaps a b ≡ overlaps b a
unfolding overlaps
overlaps-sym a b = any-contains (ingress_route_footprints a) (ingress_route_footprints b)

any-Mem :
    {A : Type 0} (p : A → Bool) (x : A) (xs : List A) → Memᴰ x xs → p x ≡ true → any p xs ≡ true
unfolding any
any-Mem p x [] member holds = elim member [ ]
any-Mem p x (y ∷ ys) (Memᴰ.head e) holds =
    let h : p y ≡ true = sym (ap p e) ∙ holds in ground (arith, h)
any-Mem p x (y ∷ ys) (Memᴰ.tail m) holds = ground (arith, any-Mem p x ys m holds)

requires_settings_snippets-competitor :
    (config : Config) (ing other : Ingress) (excluded : List Text) (listed : List Ingress)
    → Memᴰ other listed
    → is_competitor config ing excluded other ≡ true
    → overlaps ing other ≡ true
    → requires_settings_snippets config ing excluded (some listed) ≡ some true
unfolding requires_settings_snippets
requires_settings_snippets-competitor config ing other excluded listed member rival shared =
    ap some (any-Mem _ other listed member (rw (rival, shared) refl))

-- The plan of an Ingress has no policy of settings.
abbrev pub HasNoSettings : Plan → Type 0
HasNoSettings plan = (plan.client_settings_policies ≡ []) × (plan.proxy_settings_policies ≡ [])

canary_plan-HasNoSettings :
    (ing : Ingress) (primary : Option Text) → HasNoSettings (canary_plan ing primary)
unfolding canary_plan
canary_plan-HasNoSettings ing none = (refl, refl)
canary_plan-HasNoSettings ing (some primary) = (refl, refl)

module _ {S : Type 0} (base : Environment S) (translator : Translator S) (config : Config) where
  abbrev pub translating : Environment S
  translating = with_translator translator base

  translate_ingress-HasNoSettings :
      (s : S) (ing : Ingress) (gateway_plan : Option GatewayPlan) (canaries : List Ingress)
      → HasNoSettings (
          translate_ingress base.sha256 translator s ing
            (translate_options config gateway_plan canaries true))
  unfolding translate_ingress translated_plan translate_options
  translate_ingress-HasNoSettings s ing gateway_plan canaries =
      let (clients, proxies) =
        translate-IsPolicyless base.sha256 _ _ translator.parse_url translator.parse_prefix
          translator.is_subdomain (translate_options config gateway_plan canaries true) ing refl in
      (ap (map _) clients, ap (map _) proxies)

  -- Whether an Ingress may conflict with the routes of another one, which is not merged with it as a canary.
  abbrev pub IsRival : List Ingress → Ingress → Ingress → Type 0
  IsRival ingresses ing other =
      is_competitor config ing
        (map (λ canary. canary.name) (merged_canaries ing ingresses (canary_assignments ingresses)))
        other
      ≡ true

  plan_ingress-HasNoSettings :
      (ing other : Ingress) (gateway_plan : Option GatewayPlan) (ingresses listed : List Ingress)
      (s : S) (plan : Plan)
      → base.reads.list_ingresses s (some ing.namespace) ≡ some listed
      → Memᴰ other listed
      → IsRival ingresses ing other
      → overlaps ing other ≡ true
      → plan_ingress translating config ing gateway_plan ingresses s ≡ some plan
      → HasNoSettings plan
  unfolding plan_ingress
  plan_ingress-HasNoSettings ing other gateway_plan ingresses listed s plan read member rival shared
        planned =
      let assignments = canary_assignments ingresses in
      let canaries = merged_canaries ing ingresses assignments in
      let excluded = map (λ canary. canary.name) canaries in
      elim (Bool-cases (is_canary_ingress ing)) [
        | inl canary ↦
            let e : canary_plan ing (lookup ing.name assignments) ≡ plan =
              some_inj (sym (rw canary refl) ∙ planned) in
            subst HasNoSettings e (canary_plan-HasNoSettings ing (lookup ing.name assignments))
        | inr primary ↦
            let needed =
              ap (requires_settings_snippets config ing excluded) read
              ∙ requires_settings_snippets-competitor config ing other excluded listed member rival
                  shared in
            let e : translate_ingress base.sha256 translator s ing
                  (translate_options config gateway_plan canaries true)
                ≡ plan =
              some_inj (sym (rw (primary, needed) refl) ∙ planned) in
            subst HasNoSettings e (translate_ingress-HasNoSettings s ing gateway_plan canaries)
      ]

  -- Two Ingresses of a namespace share a host and path, and each is selected, not being deleted and not
  -- merged into the other as a canary: then the plan of neither has a ClientSettingsPolicy or a
  -- ProxySettingsPolicy, where both are listed.
  pub plan_ingress-share :
      (a b : Ingress) (gateway_plan : Option GatewayPlan) (ingresses listed : List Ingress) (s : S)
      (plan_a plan_b : Plan)
      → base.reads.list_ingresses s (some a.namespace) ≡ some listed
      → b.namespace ≡ a.namespace
      → Memᴰ a listed
      → Memᴰ b listed
      → IsRival ingresses a b
      → IsRival ingresses b a
      → overlaps a b ≡ true
      → plan_ingress translating config a gateway_plan ingresses s ≡ some plan_a
      → plan_ingress translating config b gateway_plan ingresses s ≡ some plan_b
      → HasNoSettings plan_a × HasNoSettings plan_b
  plan_ingress-share a b gateway_plan ingresses listed s plan_a plan_b read same in_a in_b rival_a
        rival_b shared planned_a planned_b =
      (
        plan_ingress-HasNoSettings a b gateway_plan ingresses listed s plan_a read in_b rival_a
            shared planned_a,
        plan_ingress-HasNoSettings b a gateway_plan ingresses listed s plan_b
            (ap (λ namespace. base.reads.list_ingresses s (some namespace)) same ∙ read) in_a
            rival_b (overlaps-sym b a ∙ shared) planned_b,
      )
