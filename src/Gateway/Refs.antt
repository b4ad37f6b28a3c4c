-- ===== src/Gateway/Refs.antt =====
-- `listenerRef`, `listenerRefFor`, `ChangedTLSHosts` and `ManagedListenerSetName` of
-- internal/translator/gateway.go: the references that routes use, and which of them a plan changed.
use ingress_nginx_gateway_br.Common.{
  ℕ, zero, suc, ◌+◌, ◌/◌, ◌%◌, Bool, true, false, not, ◌&&◌, Option, none, some, List, [], ◌∷◌,
  ◌++◌, if◌then◌else◌, lookup, nat_beq, ltb,
}
use ingress_nginx_gateway_br.Text.{Text, text_key, text_eq}
use ingress_nginx_gateway_br.Naming.{dns_label}
use ingress_nginx_gateway_br.Types.{ListenerRef, ListenerKind, gateway, listener_set}
use ingress_nginx_gateway_br.Certificates.{is_wildcard, parent_wildcard}
use ingress_nginx_gateway_br.Gateway.{ListenerPlacement, Placements, ManagedGatewayOptions}

-- `strconv.Itoa`, on natural numbers: a number has fewer digits than its value plus one.
unfoldable pub digits : ℕ → ℕ → Text
digits zero n = []
digits (suc fuel) n =
    let front = digits fuel (n / 10) in
    if ltb n 10 then (b'0' + n) ∷ [] else front ++ (b'0' + n % 10) ∷ []

unfoldable pub itoa : ℕ → Text
unfolding digits
itoa n = digits (suc n) n

abbrev kind_eq : ListenerKind → ListenerKind → Bool
kind_eq gateway gateway = true
kind_eq listener_set listener_set = true
kind_eq _ _ = false

-- `oldRef != newRef`, negated.
unfoldable pub ref_eq : ListenerRef → ListenerRef → Bool
ref_eq a b =
    kind_eq a.kind b.kind && (text_eq a.name b.name && text_eq a.section_name b.section_name)

module _ (sha256 : Text → List ℕ) where
  -- `ManagedListenerSetName`
  unfoldable pub managed_listener_set_name : Text → ℕ → Text
  managed_listener_set_name gateway_name index = dns_label sha256 (gateway_name ∷ itoa index ∷ [])

  -- `listenerRef`
  unfoldable pub listener_ref : Text → ℕ → ManagedGatewayOptions → ListenerRef
  listener_ref hostname index options =
      let section = dns_label sha256 (options.https_section_name ∷ hostname ∷ []) in
      if nat_beq index 0
      then record { kind = gateway; name = options.name; section_name = section }
      else record {
        kind = listener_set;
        name = managed_listener_set_name options.name index;
        section_name = section;
      }

  abbrev pub ref_at : Text → Option ListenerPlacement → ManagedGatewayOptions → Option ListenerRef
  ref_at hostname none options = none
  ref_at hostname (some p) options = some (listener_ref hostname p.listener_set options)

  -- The wildcard parent's listener, for a host that is no wildcard.
  unfoldable pub parent_ref_for : Text → Placements → ManagedGatewayOptions → Option ListenerRef
  parent_ref_for host placements options =
      if is_wildcard host then none else elim (parent_wildcard host) [
        | none ↦ none
        | some candidate ↦ ref_at candidate (lookup candidate placements) options
      ]

  -- `listenerRefFor`
  unfoldable pub listener_ref_for : Text → Placements → ManagedGatewayOptions → Option ListenerRef
  listener_ref_for host placements options = elim (lookup host placements) [
    | some p ↦ some (listener_ref host p.listener_set options)
    | none ↦ parent_ref_for host placements options
  ]

  unfoldable pub has_moved : Placements → ManagedGatewayOptions → Text → ListenerRef → Bool
  has_moved previous options host new_ref = elim (listener_ref_for host previous options) [
    | none ↦ true
    | some old_ref ↦ not (ref_eq old_ref new_ref)
  ]

  -- `ChangedTLSHosts`, over the `TLSSections` of the new plan.
  unfoldable pub changed_tls_hosts :
      Placements → List (Text × ListenerRef) → ManagedGatewayOptions → List Text
  changed_tls_hosts previous [] options = []
  changed_tls_hosts previous ((host, new_ref) ∷ sections) options =
      if has_moved previous options host new_ref
      then host ∷ changed_tls_hosts previous sections options
      else changed_tls_hosts previous sections options
