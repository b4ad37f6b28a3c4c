-- ===== src/Gateway.antt =====
-- internal/translator/gateway.go: the types and constants of the managed Gateway. The children model
-- the steps of `BuildManagedGateway`, in the order of the code: `Hosts` collects the declared TLS
-- hosts, `Groups` collapses them onto wildcards, `Placement` assigns parents, `Emission` builds the
-- plan, and `Refs` holds the references that routes use. `Known` and `Replan` are about what a plan
-- takes from the last one.
pub mod Placement
pub mod Hosts
pub mod Groups
pub mod Refs
pub mod Emission
pub mod Known
pub mod Replan
use ingress_nginx_gateway_br.Common.{
  ℕ, Bool, Option, List, ◌∷◌, [], if◌then◌else◌, nat_beq, lookup, contains, add,
}
use ingress_nginx_gateway_br.Text.{Text, text_key, text_eq, sort_texts}
use ingress_nginx_gateway_br.Api.{NamespacedName, Listener}
use ingress_nginx_gateway_br.Types.{Issue, ListenerRef}
use ingress_nginx_gateway_br.Certificates.{CertificateInfo}

abbrev pub gateway_https_capacity : ℕ
gateway_https_capacity = 63

abbrev pub listener_set_capacity : ℕ
listener_set_capacity = 64

-- `ListenerPlacement`; 0 is the Gateway itself.
pub record ListenerPlacement : Type 0 where
  pub listener_set : ℕ
  pub secret : NamespacedName

abbrev pub Placements : Type 0
Placements = List (Text × ListenerPlacement)

-- `ManagedGatewayOptions`; `certificates` is `none` for a nil map.
pub record ManagedGatewayOptions : Type 0 where
  pub namespace : Text
  pub name : Text
  pub class_name : Text
  pub nginx_proxy_name : Text
  pub allow_listener_sets : Bool
  pub http_section_name : Text
  pub https_section_name : Text
  pub listener_set_overflow : Bool
  pub certificates : Option (List (NamespacedName × CertificateInfo))
  pub current_placements : Placements

-- `projectedListener`
pub record ProjectedListener : Type 0 where
  pub hostname : Text
  pub secret : NamespacedName
  pub hosts : List Text

-- `listenerClaim`
pub record ListenerClaim : Type 0 where
  pub host : Text
  pub secret : NamespacedName
  pub pinned : Bool

-- `toSet`
unfoldable pub to_set : List Text → List Text
unfolding add text_eq contains
to_set [] = []
to_set (s ∷ l) = add s (to_set l)

-- `sortedStrings`
unfoldable pub sorted_strings : List Text → List Text
unfolding sort_texts
sorted_strings set = sort_texts set
