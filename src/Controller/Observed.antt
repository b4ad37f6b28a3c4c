-- ===== src/Controller/Observed.antt =====
-- `observedListenerPlacements` and `recordObservedListeners` in
-- internal/controller/managed_gateway.go.
use ingress_nginx_gateway_br.Common.{
  ℕ, ◌+◌, ◌-◌, ◌*◌, Bool, true, false, ◌&&◌, Option, none, some, List, [], ◌∷◌, if◌then◌else◌, ltb,
  leb, nat_beq, lookup, insert, contains,
}
use ingress_nginx_gateway_br.Text.{Text, text_key, text_eq, is_empty}
use ingress_nginx_gateway_br.Api.{
  NamespacedName, name_key, Listener, Protocol, http, https, get_text,
}
use ingress_nginx_gateway_br.Types.{
  gateway_label_value, managed_by_label, gateway_label, controller_name, listener_set_index_label,
}
use ingress_nginx_gateway_br.Gateway.{ListenerPlacement, Placements}
use ingress_nginx_gateway_br.Gateway.Refs.{managed_listener_set_name}
use ingress_nginx_gateway_br.Controller.Selection.{Config}

-- The hostname of an HTTPS listener at port 443, with its first Secret; `none` for another listener.
abbrev hosted : Text → Option Text → List NamespacedName → Option (Text × NamespacedName)
hosted parent_namespace none refs = none
hosted parent_namespace (some hostname) [] = none
hosted parent_namespace (some hostname) (ref ∷ refs) = some (
  hostname,
  record ref { namespace = if is_empty ref.namespace then parent_namespace else ref.namespace },
)

abbrev with_tls : Text → Option Text → Option (List NamespacedName) → Option (Text × NamespacedName)
with_tls parent_namespace hostname none = none
with_tls parent_namespace hostname (some refs) = hosted parent_namespace hostname refs

abbrev is_https : Protocol → Bool
is_https http = false
is_https https = true

unfoldable pub observed_listener : Text → Listener → Option (Text × NamespacedName)
observed_listener parent_namespace listener =
    if is_https listener.protocol && nat_beq listener.port 443
    then with_tls parent_namespace listener.hostname listener.certificate_refs
    else none

-- `!exists || index < existing.ListenerSet`
unfoldable pub is_lower : ℕ → Option ListenerPlacement → Bool
is_lower index none = true
is_lower index (some existing) = ltb index existing.listener_set

unfoldable pub record_observed : ℕ → Option (Text × NamespacedName) → Placements → Placements
record_observed index none placements = placements
record_observed index (some (hostname, secret)) placements =
    if is_lower index (lookup hostname placements)
    then insert hostname (record { listener_set = index; secret = secret }) placements
    else placements

-- `recordObservedListeners`
unfoldable pub record_observed_listeners : Placements → Text → ℕ → List Listener → Placements
record_observed_listeners placements parent_namespace index [] = placements
record_observed_listeners placements parent_namespace index (listener ∷ listeners) =
    record_observed_listeners
      (record_observed index (observed_listener parent_namespace listener) placements)
      parent_namespace index listeners

-- A Gateway or ListenerSet as it stands in the cluster.
pub record ListenerObject : Type 0 where
  pub namespace : Text
  pub name : Text
  pub labels : List (Text × Text)
  pub listeners : List Listener

-- What a read of one object gives.
pub data Found {ℓ} (A : Type ℓ) : Type ℓ where
  found : A → Found A
  not_found : Found A
  failed : Found A

unfoldable pub has_label : Text → Text → List (Text × Text) → Bool
has_label key value labels = elim (lookup key labels) [ none ↦ false | some v ↦ text_eq v value ]

abbrev pub is_digit : ℕ → Bool
is_digit c = leb b'0' c && leb c b'9'

unfoldable pub digits_value : ℕ → Text → Option ℕ
digits_value sum [] = some sum
digits_value sum (c ∷ s) =
    let value = digits_value (sum * 10 + (c - b'0')) s in if is_digit c then value else none

abbrev unsigned : Text → Option ℕ
unsigned [] = none
unsigned (c ∷ s) = digits_value 0 (c ∷ s)

abbrev without_plus : Text → Text
without_plus [] = []
without_plus (c ∷ s) = if nat_beq c b'+' then s else c ∷ s

abbrev positive_int : Option ℕ → Option ℕ
positive_int none = none
positive_int (some n) = if leb 1 n && ltb n 9223372036854775808 then some n else none

-- `strconv.Atoi`, where it gives a number of at least 1.
unfoldable pub parse_index : Text → Option ℕ
parse_index s = positive_int (unsigned (without_plus s))

module _ (sha256 : Text → List ℕ) where
  -- Whether the bridge made the set for its Gateway.
  unfoldable pub is_managed_set : Config → ListenerObject → Bool
  is_managed_set config set =
      text_eq set.namespace config.gateway_namespace
      && (has_label managed_by_label controller_name set.labels
          && has_label gateway_label
              (gateway_label_value sha256 config.gateway_namespace config.gateway_name) set.labels)

  abbrev pub record_at : Config → Option ℕ → ListenerObject → Placements → Placements
  record_at config none set placements = placements
  record_at config (some index) set placements =
      if text_eq set.name (managed_listener_set_name sha256 config.gateway_name index)
      then record_observed_listeners placements set.namespace index set.listeners
      else placements

  unfoldable pub observe_sets : Config → Placements → List ListenerObject → Placements
  observe_sets config placements [] = placements
  observe_sets config placements (set ∷ sets) =
      observe_sets config
        (if is_managed_set config set
          then record_at config (parse_index (get_text listener_set_index_label set.labels)) set
              placements
          else placements)
        sets

  unfoldable pub observe_gateway : ListenerObject → Placements
  observe_gateway gateway =
      if has_label managed_by_label controller_name gateway.labels
      then record_observed_listeners [] gateway.namespace 0 gateway.listeners
      else []

  abbrev pub observe_listed : Config → Placements → Option (List ListenerObject) → Option Placements
  observe_listed config placements none = none
  observe_listed config placements (some sets) = some (observe_sets config placements sets)

  -- `observedListenerPlacements`; the reads are what `Get` and `List` give, and `none` is an error.
  unfoldable pub observed_listener_placements :
      Config → Found ListenerObject → Option (List ListenerObject) → Option Placements
  observed_listener_placements config not_found sets = some []
  observed_listener_placements config failed sets = none
  observed_listener_placements config (found gateway) sets =
      if config.listener_sets_available
      then observe_listed config (observe_gateway gateway) sets
      else some (observe_gateway gateway)

-- The functions above, for the tests.
unfoldable pub observed_functions : Unit {0}
unfolding observed_listener is_lower record_observed record_observed_listeners has_label
    digits_value parse_index is_managed_set observe_sets observe_gateway
    observed_listener_placements lookup insert contains get_text
observed_functions = tt
