-- ===== src/Controller/Selection.antt =====
-- internal/controller/config.go: the configuration, and which Ingresses belong to the bridge.
use ingress_nginx_gateway_br.Common.{
  Bool, false, Option, none, some, List, [], ◌∷◌, if◌then◌else◌, lookup, contains,
}
use ingress_nginx_gateway_br.Text.{Text, text_key, codes, to_lower, trim_space, is_empty}
use ingress_nginx_gateway_br.Api.{Ingress, get_text}
use ingress_nginx_gateway_br.Types.{enabled_annotation, ignore_annotation}

-- `Config`, with the fields that decide about Ingresses and the managed Gateway.
pub record Config : Type 0 where
  pub gateway_namespace : Text
  pub gateway_name : Text
  pub gateway_class_name : Text
  pub nginx_proxy_name : Text
  pub manage_gateway : Bool
  pub allow_listener_sets : Bool
  pub http_section_name : Text
  pub https_section_name : Text
  pub collapse_wildcard_certificates : Bool
  pub listener_sets_available : Bool
  pub watch_ingress_without_class : Bool
  pub ingress_classes : List Text
  pub allow_snippets : Bool
  pub strict : Bool
  pub update_ingress_status : Bool

abbrev pub class_annotation : Text
class_annotation = codes "kubernetes.io/ingress.class"

-- `annotationBool`
unfoldable pub annotation_bool : Text → Bool
annotation_bool value =
    contains (to_lower (trim_space value))
      (codes "1" ∷ codes "on" ∷ codes "true" ∷ codes "yes" ∷ [])

abbrev pub is_on : Option Text → Bool
is_on none = false
is_on (some value) = annotation_bool value

abbrev pub ingress_class_of : Ingress → Option Text → Text
ingress_class_of ing none = trim_space (get_text class_annotation ing.annotations)
ingress_class_of ing (some class) = trim_space class

unfoldable pub selected_by_class : Config → Text → Bool
selected_by_class config class =
    if is_empty class
    then config.watch_ingress_without_class
    else contains class config.ingress_classes

abbrev pub selected_unless : Bool → Option Text → Bool
selected_unless by_class none = by_class
selected_unless by_class (some value) = annotation_bool value

-- `Config.Selected`
unfoldable pub selected : Config → Ingress → Bool
selected config ing =
    let by_class = selected_by_class config (ingress_class_of ing ing.class_name) in
    if is_on (lookup ignore_annotation ing.annotations)
    then false
    else selected_unless by_class (lookup enabled_annotation ing.annotations)
