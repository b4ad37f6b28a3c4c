-- ===== src/Translate/Parents.antt =====
-- The parents of the generated routes in internal/translator/translate.go.
use ingress_nginx_gateway_br.Common.{
  Bool, true, false, not, ◌&&◌, Option, none, some, List, [], ◌∷◌, if◌then◌else◌,
}
use ingress_nginx_gateway_br.Text.{Text, text_eq, codes, is_empty}
use ingress_nginx_gateway_br.Api.{ParentReference}
use ingress_nginx_gateway_br.Types.{
  ListenerRef, ListenerKind, gateway, listener_set, GatewayOptions, listener_set_kind,
}
use ingress_nginx_gateway_br.Translate.Hosts.{HostInput}

-- `gatewayv1.GroupName`
abbrev pub group_name : Text
group_name = codes "gateway.networking.k8s.io"

abbrev text_or_none : Text → Option Text
text_or_none s = if is_empty s then none else some s

-- The namespace of a reference, which is left out where it is the route's own or unknown.
unfoldable pub reference_namespace : Text → Text → Option Text
reference_namespace gateway_namespace route_namespace =
    if not (is_empty gateway_namespace) && not (text_eq gateway_namespace route_namespace)
    then some gateway_namespace
    else none

-- `parentRef`; it does not use the hostname.
unfoldable pub parent_ref : Text → Bool → GatewayOptions → ParentReference
parent_ref namespace tls options = record {
  group = none;
  kind = none;
  namespace = reference_namespace options.namespace namespace;
  name = options.name;
  section_name =
      text_or_none (if tls then options.https_section_name else options.http_section_name);
}

-- `listenerSetParentRef`
unfoldable pub listener_set_parent_ref : Text → ListenerRef → GatewayOptions → ParentReference
listener_set_parent_ref namespace listener options = record {
  group = some group_name;
  kind = some listener_set_kind;
  namespace = reference_namespace options.namespace namespace;
  name = listener.name;
  section_name = text_or_none listener.section_name;
}

-- The Gateway's reference, with the section of the host's own listener where it has one.
unfoldable pub gateway_parent_ref :
    Text → Bool → Option ListenerRef → GatewayOptions → ParentReference
gateway_parent_ref namespace tls none options = parent_ref namespace tls options
gateway_parent_ref namespace tls (some listener) options = parent_ref namespace tls (
    if is_empty listener.section_name
    then options
    else record options { https_section_name = listener.section_name })

abbrev by_kind : ListenerKind → Text → ListenerRef → GatewayOptions → ParentReference
by_kind gateway namespace listener options =
    gateway_parent_ref namespace true (some listener) options
by_kind listener_set namespace listener options = listener_set_parent_ref namespace listener options

abbrev tls_parent_ref : Text → Option ListenerRef → GatewayOptions → ParentReference
tls_parent_ref namespace none options = gateway_parent_ref namespace true none options
tls_parent_ref namespace (some listener) options = by_kind listener.kind namespace listener options

-- `primary` of `applicationParentRefs`
unfoldable pub primary_parent_ref : Text → HostInput → GatewayOptions → ParentReference
primary_parent_ref namespace input options =
    if is_empty input.tls_hostname
    then gateway_parent_ref namespace false input.tls_listener options
    else tls_parent_ref namespace input.tls_listener options

-- `applicationParentRefs`
unfoldable pub application_parent_refs :
    Text → HostInput → GatewayOptions → Bool → Bool → List ParentReference
application_parent_refs namespace input options attach_http http_only =
    if http_only
    then parent_ref namespace false options ∷ []
    else primary_parent_ref namespace input options
      ∷ (if attach_http then parent_ref namespace false options ∷ [] else [])
