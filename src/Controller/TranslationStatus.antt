-- ===== src/Controller/TranslationStatus.antt =====
-- The status resource of an Ingress in internal/controller/status.go: `reconcileTranslationStatus`,
-- `delegatedReady` and `patchIngressTranslationLabel`. Reasons, messages and
-- transition times are left out. The comparison `equality.Semantic.DeepEqual` is a parameter.
use ingress_nginx_gateway_br.Common.{
  ℕ, Bool, true, false, Option, none, some, List, [], ◌∷◌, map, if◌then◌else◌, nat_beq, insert,
}
use ingress_nginx_gateway_br.Text.{Text, text_key, text_eq, codes}
use ingress_nginx_gateway_br.Api.{Ingress, get_text}
use ingress_nginx_gateway_br.Types.{
  Issue, fatal, managed_by_label, controller_name, source_name_label, source_namespace_label,
  source_uid_label, translation_status_label, source_name_label_value,
}
use ingress_nginx_gateway_br.Controller.Observed.{Found, found, not_found, failed}
use ingress_nginx_gateway_br.Controller.ParentStatus.{
  Condition, ConditionStatus, condition_true, condition_false, condition_unknown,
}
use ingress_nginx_gateway_br.Controller.Readiness.{
  Outcome, ready, pending, rejected, broken, find_condition, reported_outcome,
}
use ingress_nginx_gateway_br.Controller.Cluster.{
  ObjectKey, Object, document, ingress_translation, Client,
}
use ingress_nginx_gateway_br.Controller.Apply.{then_do, apply_owned}

-- An Ingress with what only the controller reads of it; the addresses are those of its status, an
-- IP address or a hostname.
pub record IngressObject : Type 0 where
  pub ingress : Ingress
  pub generation : ℕ
  pub finalizers : List Text
  pub addresses : List (Option Text × Option Text)

-- The parts of `translator.Plan`, and the Ingress that a canary is merged into, which is empty for
-- another Ingress.
pub record Plan : Type 0 where
  pub http_routes : List Object
  pub backend_tls_policies : List Object
  pub client_settings_policies : List Object
  pub proxy_settings_policies : List Object
  pub authentication_filters : List Object
  pub snippets_filters : List Object
  pub issues : List Issue
  pub delegated_to : Text

-- `IngressTranslationStatus`
pub record TranslationStatus : Type 0 where
  pub observed_generation : ℕ
  pub translated : ConditionStatus
  pub ready_status : ConditionStatus
  pub generated_resources : List ObjectKey
  pub issues : List Issue

-- The status of a primary's translation, as far as its canaries read it.
pub record PrimaryStatus : Type 0 where
  pub observed_generation : ℕ
  pub conditions : List Condition

abbrev delegated_outcome : ℕ → Found PrimaryStatus → Outcome
delegated_outcome generation not_found = pending
delegated_outcome generation failed = broken
delegated_outcome generation (found status) =
    if nat_beq status.observed_generation generation
    then reported_outcome generation (find_condition (codes "Ready") status.conditions)
    else pending

-- `delegatedReady`, from the generation of the primary and the status of its translation.
unfoldable pub delegated_ready : Found ℕ → Found PrimaryStatus → Outcome
delegated_ready not_found translation = pending
delegated_ready failed translation = broken
delegated_ready (found generation) translation = delegated_outcome generation translation

-- `translationStatusLabelValue`
unfoldable pub translation_status_label_value : ConditionStatus → Text
translation_status_label_value condition_true = codes "ready"
translation_status_label_value condition_unknown = codes "pending"
translation_status_label_value condition_false = codes "failed"

-- The status of a condition; `none` is an error.
abbrev pub outcome_status : Outcome → Option ConditionStatus
outcome_status ready = some condition_true
outcome_status pending = some condition_unknown
outcome_status rejected = some condition_false
outcome_status broken = none

-- The writes beside those of `Client`: a patch of an Ingress, of its status and of the status of a
-- translation. `held_status` is what the server gives back of a translation.
pub record Writes (S : Type 0) : Type 0 where
  pub patch_ingress : S → IngressObject → Bool × S
  pub patch_ingress_status : S → IngressObject → Bool × S
  pub patch_status : S → ObjectKey → TranslationStatus → Bool × S
  pub held_status : S → ObjectKey → TranslationStatus
  pub same_status : TranslationStatus → TranslationStatus → Bool
  pub same_addresses : List (Option Text × Option Text) → List (Option Text × Option Text) → Bool

-- `generatedReferences`
unfoldable pub generated_references : List Object → List ObjectKey
generated_references objects = map (λ object. object.key) objects

module _ (sha256 : Text → List ℕ) where
  -- The `IngressTranslation` of an Ingress, without its status.
  unfoldable pub translation_object : Ingress → Object
  translation_object ing = record {
    key = record { kind = ingress_translation; namespace = ing.namespace; name = ing.name };
    labels =
        (managed_by_label, controller_name)
        ∷ (source_name_label, source_name_label_value sha256 ing.name)
        ∷ (source_namespace_label, ing.namespace)
        ∷ (source_uid_label, ing.uid)
        ∷ [];
    content = document ing.name;
  }

-- The two conditions: a fatal plan is neither translated nor ready. `none` is an error.
abbrev pub conditions_of : Bool → Outcome → Option (ConditionStatus × ConditionStatus)
conditions_of true outcome = some (condition_false, condition_false)
conditions_of false ready = some (condition_true, condition_true)
conditions_of false pending = some (condition_true, condition_unknown)
conditions_of false rejected = some (condition_true, condition_false)
conditions_of false broken = none

module _ {S : Type 0} (writes : Writes S) where
  -- `patchIngressTranslationLabel`
  unfoldable pub patch_ingress_translation_label : IngressObject → Text → S → Bool × S
  patch_ingress_translation_label object value s =
      let ing = object.ingress in
      if text_eq (get_text translation_status_label ing.labels) value
      then (true, s)
      else writes.patch_ingress s (record object {
        ingress = record ing { labels = insert translation_status_label value ing.labels };
      })

  unfoldable pub patch_changed_status : ObjectKey → TranslationStatus → S → Bool × S
  patch_changed_status key status s =
      if writes.same_status (writes.held_status s key) status
      then (true, s)
      else writes.patch_status s key status

  abbrev pub write_conditions :
      IngressObject
      → Plan
      → List Object
      → ObjectKey
      → Option (ConditionStatus × ConditionStatus)
      → S
      → Bool × S
  write_conditions object plan desired key none s = (false, s)
  write_conditions object plan desired key (some (translated, ready_status)) s =
      then_do
        (patch_changed_status key
          (record {
            observed_generation = object.generation;
            translated = translated;
            ready_status = ready_status;
            generated_resources = generated_references desired;
            issues = plan.issues;
          })
          s)
        λ s'.
          patch_ingress_translation_label object (translation_status_label_value ready_status) s'

module _ (sha256 : Text → List ℕ) {S : Type 0} (client : Client S) (writes : Writes S)
    (own : Ingress → Object → Option Object) where
  -- `reconcileTranslationStatus`. `own` is `SetControllerReference`; `outcome` is what `delegatedReady`
  -- or `generatedReady` gives.
  unfoldable pub reconcile_translation_status :
      IngressObject → Plan → List Object → (S → Outcome) → S → Bool × S
  reconcile_translation_status object plan desired outcome s =
      let translation = translation_object sha256 object.ingress in
      then_do (apply_owned client (own object.ingress translation) s) λ s'.
        write_conditions writes object plan desired translation.key
          (conditions_of (fatal plan.issues) (outcome s')) s'

-- The functions above, for the tests.
unfoldable pub translation_status_functions : Unit {0}
unfolding delegated_ready translation_status_label_value generated_references translation_object
    patch_ingress_translation_label patch_changed_status reconcile_translation_status insert
    find_condition reported_outcome
translation_status_functions = tt
