-- ===== src/Controller/StatusFrame.antt =====
-- What the patches of Ingresses and of status leave alone.
use ingress_nginx_gateway_br.Common.{
  Bool, not, ◌||◌, ◌&&◌, Option, none, some, List, [], ◌∷◌, Bool-cases, inl, inr,
}
use ingress_nginx_gateway_br.Text.{Text, text_key, text_eq, is_empty}
use ingress_nginx_gateway_br.Api.{name_key, get_text}
use ingress_nginx_gateway_br.Types.{fatal, translation_status_label}
use ingress_nginx_gateway_br.Controller.Observed.{Found, found, not_found, failed}
use ingress_nginx_gateway_br.Controller.ParentStatus.{ConditionStatus}
use ingress_nginx_gateway_br.Controller.Readiness.{Outcome, ready, pending, rejected, broken}
use ingress_nginx_gateway_br.Controller.Cluster.{ObjectKey, Object, IsUntouched}
use ingress_nginx_gateway_br.Controller.GatewayFrame.{then_do-frame}
use ingress_nginx_gateway_br.Controller.TranslationStatus.{
  IngressObject, Plan, TranslationStatus, Writes, write_conditions, patch_changed_status,
  patch_ingress_translation_label, translation_status_label_value,
}
use ingress_nginx_gateway_br.Controller.Selection.{Config}
use ingress_nginx_gateway_br.Controller.Reconcile.{Environment, mirror_if_served}
use ingress_nginx_gateway_br.Controller.Mirror.{
  GatewayStatus, mirror_ingress_status, mirror_addresses, mirrored_addresses,
}

-- Ingresses and the status of objects are apart from what `view` and `cached` show.
pub record IsApart {S : Type 0} (writes : Writes S) (view cached : S → ObjectKey → Option Object)
    : Type 0 where
  pub ingress_apart :
      (s : S) (object : IngressObject) (key : ObjectKey)
      → IsUntouched view cached key s (writes.patch_ingress s object).1
  pub ingress_status_apart :
      (s : S) (object : IngressObject) (key : ObjectKey)
      → IsUntouched view cached key s (writes.patch_ingress_status s object).1
  pub status_apart :
      (s : S) (translation : ObjectKey) (status : TranslationStatus) (key : ObjectKey)
      → IsUntouched view cached key s (writes.patch_status s translation status).1

-- A relation of states that holds across the patches which `view` does not show.
pub record IsQuiet {S : Type 0} (writes : Writes S) (R : S → S → Type 0) : Type 0 where
  pub quiet_refl : (s : S) → R s s
  pub quiet_trans : (s t u : S) → R s t → R t u → R s u
  pub quiet_ingress : (s : S) (object : IngressObject) → R s (writes.patch_ingress s object).1
  pub quiet_ingress_status :
      (s : S) (object : IngressObject) → R s (writes.patch_ingress_status s object).1
  pub quiet_status :
      (s : S) (translation : ObjectKey) (status : TranslationStatus)
      → R s (writes.patch_status s translation status).1

module _ {S : Type 0} {writes : Writes S} {R : S → S → Type 0} (quiet : IsQuiet writes R) where
  pub patch_ingress_translation_label-quiet :
      (object : IngressObject) (value : Text) (s : S)
      → R s (patch_ingress_translation_label writes object value s).1
  unfolding patch_ingress_translation_label
  patch_ingress_translation_label-quiet object value s =
      elim (Bool-cases (text_eq (get_text translation_status_label object.ingress.labels) value)) [
        | inl same ↦ rw same (quiet.quiet_refl s)
        | inr other ↦ rw other (quiet.quiet_ingress s _)
      ]

  patch_changed_status-quiet :
      (key : ObjectKey) (status : TranslationStatus) (s : S)
      → R s (patch_changed_status writes key status s).1
  unfolding patch_changed_status
  patch_changed_status-quiet key status s =
      elim (Bool-cases (writes.same_status (writes.held_status s key) status)) [
        | inl same ↦ rw same (quiet.quiet_refl s)
        | inr other ↦ rw other (quiet.quiet_status s key status)
      ]

  pub write_conditions-quiet :
      (object : IngressObject) (plan : Plan) (desired : List Object) (key : ObjectKey)
      (conditions : Option (ConditionStatus × ConditionStatus)) (s : S)
      → R s (write_conditions writes object plan desired key conditions s).1
  write_conditions-quiet object plan desired key none s = quiet.quiet_refl s
  write_conditions-quiet object plan desired key (some (translated, ready_status)) s =
      then_do-frame R s _ _ quiet.quiet_trans (patch_changed_status-quiet key _ s) (λ t.
        patch_ingress_translation_label-quiet object (translation_status_label_value ready_status)
          t)

  mirror_addresses-quiet :
      (object : IngressObject) (programmed : Bool) (addresses : List (Option Text × Option Text))
      (s : S)
      → R s (mirror_addresses writes object programmed addresses s).1
  mirror_addresses-quiet object programmed [] s = quiet.quiet_refl s
  mirror_addresses-quiet object programmed (address ∷ addresses) s =
      elim (Bool-cases
        (not programmed || writes.same_addresses object.addresses (address ∷ addresses))) [
          | inl same ↦ rw same (quiet.quiet_refl s)
          | inr other ↦ rw other (quiet.quiet_ingress_status s _)
        ]

  pub mirror_ingress_status-quiet :
      (object : IngressObject) (outcome : Outcome) (gateway : Found GatewayStatus) (s : S)
      → R s (mirror_ingress_status writes object outcome gateway s).1
  unfolding mirror_ingress_status
  mirror_ingress_status-quiet object broken gateway s = quiet.quiet_refl s
  mirror_ingress_status-quiet object pending gateway s = quiet.quiet_refl s
  mirror_ingress_status-quiet object rejected gateway s = quiet.quiet_refl s
  mirror_ingress_status-quiet object ready not_found s = quiet.quiet_refl s
  mirror_ingress_status-quiet object ready failed s = quiet.quiet_refl s
  mirror_ingress_status-quiet object ready (found gateway) s =
      mirror_addresses-quiet object _ (mirrored_addresses gateway.addresses) s

module _ {S : Type 0} (env : Environment S) (config : Config) {R : S → S → Type 0}
    (quiet : IsQuiet env.writes R) where
  pub mirror_if_served-quiet :
      (object : IngressObject) (plan : Plan) (desired : List Object) (s : S)
      → R s (mirror_if_served env config object plan desired s).1
  unfolding mirror_if_served
  mirror_if_served-quiet object plan desired s =
      elim (Bool-cases
        (config.update_ingress_status && (not (fatal plan.issues) && is_empty plan.delegated_to))) [
          | inl mirrored ↦ simp (mirrored) (
              mirror_ingress_status-quiet quiet object (env.generated_ready s desired)
                (env.gateway_status s) s)
          | inr other ↦ simp (other) (quiet.quiet_refl s)
        ]
