-- ===== src/Controller/Attached.antt =====
-- The ListenerSets that the readiness of the Gateway waits for are those that the routes attach to.
use ingress_nginx_gateway_br.Common.{
  ◌≡◌, refl, sym, subst, inl, inr, Bool, true, false, some, List, [], ◌∷◌, Memᴰ, arith, add,
  contains, contains-add, contains-sort_by, Bool-cases, if◌then◌else◌, ◌∙◌,
}
use ingress_nginx_gateway_br.Text.{
  Text, text_key, text_lt, text_eq, text_eq_iff, is_empty, sort_texts,
}
use ingress_nginx_gateway_br.Api.{ParentReference}
use ingress_nginx_gateway_br.Types.{ListenerRef, listener_set, GatewayOptions}
use ingress_nginx_gateway_br.Translate.Hosts.{HostInput}
use ingress_nginx_gateway_br.Translate.Parents.{
  parent_ref, reference_namespace, listener_set_parent_ref, primary_parent_ref,
  application_parent_refs,
}
use ingress_nginx_gateway_br.Controller.ParentStatus.{
  or_default, RouteObject, is_listener_set_ref, names_of_refs, names_of_routes,
  desired_listener_sets,
}

text_eq_refl : (s : Text) → text_eq s s ≡ true
text_eq_refl s = (text_eq_iff s s).1 refl

-- The namespace that is left out of a reference is the route's own.
or_default-reference_namespace :
    (gateway_namespace route_namespace : Text)
    → is_empty gateway_namespace ≡ false
    → or_default route_namespace (reference_namespace gateway_namespace route_namespace)
      ≡ gateway_namespace
unfolding reference_namespace
or_default-reference_namespace g r named = elim (Bool-cases (text_eq g r)) [
  | inl own ↦ rw (named, own) (sym ((text_eq_iff g r).0 own))
  | inr other ↦ rw (named, other) refl
]

contains-names_of_refs :
    (g r name : Text) (refs : List ParentReference) (names : List Text)
    → contains name names ≡ true
    → contains name (names_of_refs g r refs names) ≡ true
unfolding names_of_refs
contains-names_of_refs g r name [] names known = known
contains-names_of_refs g r name (ref ∷ refs) names known =
    contains-names_of_refs g r name refs
      (if is_listener_set_ref g r ref then add ref.name names else names)
      (ground (arith, contains-add name ref.name names, known))

names_of_refs-first :
    (g r : Text) (ref : ParentReference) (refs : List ParentReference) (names : List Text)
    → is_listener_set_ref g r ref ≡ true
    → contains ref.name (names_of_refs g r (ref ∷ refs) names) ≡ true
unfolding names_of_refs
names_of_refs-first g r ref refs names set = rw set (
    contains-names_of_refs g r ref.name refs (add ref.name names)
      (ground (arith, contains-add ref.name ref.name names, text_eq_refl ref.name)))

contains-names_of_routes :
    (g name : Text) (routes : List RouteObject) (names : List Text)
    → contains name names ≡ true
    → contains name (names_of_routes g routes names) ≡ true
unfolding names_of_routes
contains-names_of_routes g name [] names known = known
contains-names_of_routes g name (route ∷ routes) names known =
    contains-names_of_routes g name routes (names_of_refs g route.namespace route.parent_refs names)
      (contains-names_of_refs g route.namespace name route.parent_refs names known)

names_of_routes-member :
    (g : Text) (route : RouteObject) (ref : ParentReference) (refs : List ParentReference)
    (routes : List RouteObject) (names : List Text)
    → Memᴰ route routes
    → route.parent_refs ≡ ref ∷ refs
    → is_listener_set_ref g route.namespace ref ≡ true
    → contains ref.name (names_of_routes g routes names) ≡ true
unfolding names_of_routes
names_of_routes-member g route ref refs [] names member shape set = elim member [ ]
names_of_routes-member g route ref refs (r ∷ rs) names (Memᴰ.head e) shape set =
    contains-names_of_routes g ref.name rs (names_of_refs g r.namespace r.parent_refs names) (
      subst (λ q. contains ref.name (names_of_refs g q.namespace q.parent_refs names) ≡ true) e
        (rw shape (names_of_refs-first g route.namespace ref refs names set)))
names_of_routes-member g route ref refs (r ∷ rs) names (Memᴰ.tail m) shape set =
    names_of_routes-member g route ref refs rs (names_of_refs g r.namespace r.parent_refs names) m
      shape set

is_listener_set_ref-listener_set_parent_ref :
    (namespace : Text) (listener : ListenerRef) (options : GatewayOptions)
    → is_empty options.namespace ≡ false
    → is_listener_set_ref options.namespace namespace
        (listener_set_parent_ref namespace listener options)
      ≡ true
unfolding is_listener_set_ref listener_set_parent_ref text_eq
is_listener_set_ref-listener_set_parent_ref namespace listener options named =
    rw
      (
        or_default-reference_namespace options.namespace namespace named,
        text_eq_refl options.namespace,
      )
      refl

attached :
    (namespace : Text) (input : HostInput) (listener : ListenerRef) (options : GatewayOptions)
    (attach_http : Bool)
    → is_empty input.tls_hostname ≡ false
    → input.tls_listener ≡ some listener
    → listener.kind ≡ listener_set
    → application_parent_refs namespace input options attach_http false
      ≡ listener_set_parent_ref namespace listener options
        ∷ (if attach_http then parent_ref namespace false options ∷ [] else [])
unfolding application_parent_refs primary_parent_ref
attached namespace input listener options attach_http tls has kind = rw (tls, has, kind) refl

-- A route that is not restricted to the HTTP listener, as redirect routes and the routes of ACME HTTP-01
-- solvers are, and that is built for a host with TLS whose listener stands in a ListenerSet makes the
-- readiness check wait for that set, where the Gateway's namespace is given.
pub desired_listener_sets-attached :
    (namespace : Text) (input : HostInput) (listener : ListenerRef) (options : GatewayOptions)
    (attach_http : Bool) (route : RouteObject) (routes : List RouteObject)
    → is_empty options.namespace ≡ false
    → is_empty input.tls_hostname ≡ false
    → input.tls_listener ≡ some listener
    → listener.kind ≡ listener_set
    → route.namespace ≡ namespace
    → route.parent_refs ≡ application_parent_refs namespace input options attach_http false
    → Memᴰ route routes
    → contains listener.name (desired_listener_sets routes options.namespace) ≡ true
unfolding desired_listener_sets sort_texts listener_set_parent_ref
desired_listener_sets-attached namespace input listener options attach_http route routes named tls
      has kind own built member =
    contains-sort_by text_lt listener.name (names_of_routes options.namespace routes [])
    ∙ names_of_routes-member options.namespace route
        (listener_set_parent_ref namespace listener options)
        (if attach_http then parent_ref namespace false options ∷ [] else []) routes [] member
        (built ∙ attached namespace input listener options attach_http tls has kind)
        (rw own (is_listener_set_ref-listener_set_parent_ref namespace listener options named))
