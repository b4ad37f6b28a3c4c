-- ===== src/Api.antt =====
-- The Kubernetes and Gateway API objects that the code reads and writes, with the fields that it
-- uses. A `nil` pointer is `none`, a map is an association list, a creation time is a number of
-- seconds, and `deleting` says that the deletion timestamp is set.
use ingress_nginx_gateway_br.Common.{
  ℕ, ◌≡◌, ◌↔◌, Bool, true, ◌&&◌, Option, none, some, List, ◌++◌, ◌∷◌, [], arith, Eq, lookup,
}
use ingress_nginx_gateway_br.Text.{Text, text_key, text_eq, text_eq_iff}

-- `types.NamespacedName`
pub record NamespacedName : Type 0 where
  pub namespace : Text
  pub name : Text

abbrev pub name_eq : NamespacedName → NamespacedName → Bool
name_eq a b = text_eq a.namespace b.namespace && text_eq a.name b.name

pub name_eq_iff : (a b : NamespacedName) → (name_eq a b ≡ true) ↔ (a ≡ b)
name_eq_iff a b = ground (arith, text_eq_iff a.namespace b.namespace, text_eq_iff a.name b.name)

instance abbrev pub name_key : Eq NamespacedName
name_key = record { same = name_eq; same_iff = name_eq_iff }

-- `NamespacedName.String`
unfoldable pub name_text : NamespacedName → Text
name_text n = n.namespace ++ b'/' ∷ n.name

pub data PathType : Type 0 where
  exact prefix implementation_specific : PathType

-- `port_number` is 0 where the port goes by name.
pub record ServiceBackend : Type 0 where
  pub service : Text
  pub port_name : Text
  pub port_number : ℕ

-- A backend is a Service, or a resource of another kind.
pub record Backend : Type 0 where
  pub service_backend : Option ServiceBackend

pub record HttpIngressPath : Type 0 where
  pub path : Text
  pub path_type : Option PathType
  pub backend : Backend

pub record IngressRule : Type 0 where
  pub host : Text
  pub http : Option (List HttpIngressPath)

pub record IngressTls : Type 0 where
  pub hosts : List Text
  pub secret_name : Text

pub record Ingress : Type 0 where
  pub namespace : Text
  pub name : Text
  pub uid : Text
  pub labels : List (Text × Text)
  pub annotations : List (Text × Text)
  pub created : ℕ
  pub deleting : Bool
  pub class_name : Option Text
  pub default_backend : Option Backend
  pub tls : List IngressTls
  pub rules : List IngressRule

-- `m[k]` of a map of texts: the empty text where the key is missing.
unfoldable pub get_text : Text → List (Text × Text) → Text
unfolding lookup
get_text k m = elim (lookup k m) [ none ↦ [] | some v ↦ v ]

pub data Protocol : Type 0 where
  http https : Protocol

-- A listener of a Gateway, or an entry of a ListenerSet. `certificate_refs` are the Secrets of its
-- TLS configuration, which an HTTP listener lacks.
pub record Listener : Type 0 where
  pub section : Text
  pub hostname : Option Text
  pub port : ℕ
  pub protocol : Protocol
  pub certificate_refs : Option (List NamespacedName)

pub record ParentReference : Type 0 where
  pub group : Option Text
  pub kind : Option Text
  pub namespace : Option Text
  pub name : Text
  pub section_name : Option Text
