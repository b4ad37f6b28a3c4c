-- ===== src/Controller/ManagedObjects.antt =====
-- The objects of the managed Gateway as the cluster holds them, and how they are read back.
use ingress_nginx_gateway_br.Common.{ℕ, Option, none, some, List, [], ◌∷◌, map}
use ingress_nginx_gateway_br.Text.{Text}
use ingress_nginx_gateway_br.Api.{Listener}
use ingress_nginx_gateway_br.Types.{
  managed_by_label, gateway_label, controller_name, listener_set_index_label, gateway_label_value,
}
use ingress_nginx_gateway_br.Gateway.Emission.{ManagedGateway, ListenerSet, ReferenceGrant}
use ingress_nginx_gateway_br.Controller.Selection.{Config}
use ingress_nginx_gateway_br.Controller.Observed.{Found, found, not_found, failed, ListenerObject}
use ingress_nginx_gateway_br.Controller.Cluster.{
  gateway, listener_set, reference_grant, Content, gateway_spec, listener_set_spec, grant_spec,
  document, ObjectKey, Object,
}

module _ (sha256 : Text → List ℕ) where
  -- The labels of everything that belongs to the managed Gateway.
  unfoldable pub gateway_labels : Config → List (Text × Text)
  gateway_labels config =
      (managed_by_label, controller_name)
      ∷ (gateway_label, gateway_label_value sha256 config.gateway_namespace config.gateway_name)
      ∷ []

unfoldable pub gateway_object : ManagedGateway → Object
gateway_object g = record {
  key = record { kind = gateway; namespace = g.namespace; name = g.name };
  labels = (managed_by_label, controller_name) ∷ (gateway_label, g.gateway_label) ∷ [];
  content = gateway_spec g;
}

unfoldable pub listener_set_object : ListenerSet → Object
listener_set_object set = record {
  key = record { kind = listener_set; namespace = set.namespace; name = set.name };
  labels =
      (managed_by_label, controller_name)
      ∷ (gateway_label, set.gateway_label)
      ∷ (listener_set_index_label, set.index_label)
      ∷ [];
  content = listener_set_spec set;
}

unfoldable pub grant_object : ReferenceGrant → Object
grant_object grant = record {
  key = record { kind = reference_grant; namespace = grant.namespace; name = grant.name };
  labels = (managed_by_label, controller_name) ∷ (gateway_label, grant.gateway_label) ∷ [];
  content = grant_spec grant;
}

abbrev pub listeners_of : Content → List Listener
listeners_of (gateway_spec g) = g.listeners
listeners_of (listener_set_spec set) = set.listeners
listeners_of (grant_spec grant) = []
listeners_of (document text) = []

abbrev pub listener_object : Object → ListenerObject
listener_object object = record {
  namespace = object.key.namespace;
  name = object.key.name;
  labels = object.labels;
  listeners = listeners_of object.content;
}

abbrev pub found_object : Found Object → Found ListenerObject
found_object (found object) = found (listener_object object)
found_object not_found = not_found
found_object failed = failed

abbrev pub listed_objects : Option (List Object) → Option (List ListenerObject)
listed_objects none = none
listed_objects (some objects) = some (map listener_object objects)

abbrev pub keys_of : List Object → List ObjectKey
keys_of objects = map (λ object. object.key) objects
