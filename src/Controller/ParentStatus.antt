-- ===== src/Controller/ParentStatus.antt =====
-- `sameParentRef`, `matchingParentStatus` and `desiredListenerSets` in
-- internal/controller/status.go.
use ingress_nginx_gateway_br.Common.{
  ℕ, Bool, true, false, not, ◌&&◌, Option, none, some, List, [], ◌∷◌, if◌then◌else◌, add,
}
use ingress_nginx_gateway_br.Text.{Text, text_key, text_eq, codes, sort_texts}
use ingress_nginx_gateway_br.Api.{ParentReference}
use ingress_nginx_gateway_br.Types.{gateway_kind, listener_set_kind}
use ingress_nginx_gateway_br.Translate.Parents.{group_name}

-- A field, or its default.
abbrev pub or_default : Text → Option Text → Text
or_default default none = default
or_default default (some value) = value

-- Whether the section is the wanted one, where one is wanted.
abbrev pub same_section : Option Text → Option Text → Bool
same_section have none = true
same_section none (some wanted) = false
same_section (some section) (some wanted) = text_eq section wanted

-- `sameParentRef`
unfoldable pub same_parent_ref : ParentReference → ParentReference → Text → Bool
same_parent_ref have want route_namespace =
    text_eq (or_default group_name have.group) (or_default group_name want.group)
    && (text_eq (or_default gateway_kind have.kind) (or_default gateway_kind want.kind)
        && (text_eq have.name want.name
            && (text_eq (or_default route_namespace have.namespace)
                  (or_default route_namespace want.namespace)
                && same_section have.section_name want.section_name)))

pub data ConditionStatus : Type 0 where
  condition_true condition_false condition_unknown : ConditionStatus

-- `metav1.Condition`, without its message.
pub record Condition : Type 0 where
  pub kind : Text
  pub status : ConditionStatus
  pub observed_generation : ℕ

-- `RouteParentStatus`: who reports, about which parent, and what.
pub record RouteParentStatus : Type 0 where
  pub controller : Text
  pub reference : ParentReference
  pub conditions : List Condition

-- `nginxGatewayController`
abbrev pub nginx_gateway_controller : Text
nginx_gateway_controller = codes "gateway.nginx.org/nginx-gateway-controller"

-- `matchingParentStatus`
unfoldable pub matching_parent_status :
    List RouteParentStatus → ParentReference → Text → Option RouteParentStatus
matching_parent_status [] want route_namespace = none
matching_parent_status (parent ∷ parents) want route_namespace =
    let later = matching_parent_status parents want route_namespace in
    if not (text_eq parent.controller nginx_gateway_controller)
    then later
    else if same_parent_ref parent.reference want route_namespace
    then some parent
    else later

-- `HTTPRoute`, as far as its parents go.
pub record RouteObject : Type 0 where
  pub namespace : Text
  pub parent_refs : List ParentReference

abbrev is_kind : Text → Option Text → Bool
is_kind wanted none = false
is_kind wanted (some kind) = text_eq kind wanted

-- Whether the reference is to a ListenerSet of the Gateway's namespace.
unfoldable pub is_listener_set_ref : Text → Text → ParentReference → Bool
is_listener_set_ref gateway_namespace route_namespace ref =
    is_kind listener_set_kind ref.kind
    && (text_eq (or_default group_name ref.group) group_name
        && text_eq (or_default route_namespace ref.namespace) gateway_namespace)

unfoldable pub names_of_refs : Text → Text → List ParentReference → List Text → List Text
names_of_refs gateway_namespace route_namespace [] names = names
names_of_refs gateway_namespace route_namespace (ref ∷ refs) names =
    names_of_refs gateway_namespace route_namespace refs (
      if is_listener_set_ref gateway_namespace route_namespace ref
      then add ref.name names
      else names)

unfoldable pub names_of_routes : Text → List RouteObject → List Text → List Text
names_of_routes gateway_namespace [] names = names
names_of_routes gateway_namespace (route ∷ routes) names =
    names_of_routes gateway_namespace routes
      (names_of_refs gateway_namespace route.namespace route.parent_refs names)

-- `desiredListenerSets`, over the routes among the desired objects.
unfoldable pub desired_listener_sets : List RouteObject → Text → List Text
desired_listener_sets routes gateway_namespace =
    sort_texts (names_of_routes gateway_namespace routes [])

-- The functions above, for the tests.
unfoldable pub status_functions : Unit {0}
unfolding same_parent_ref matching_parent_status is_listener_set_ref names_of_refs names_of_routes
    desired_listener_sets add
status_functions = tt
