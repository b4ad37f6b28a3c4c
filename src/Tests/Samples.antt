-- ===== src/Tests/Samples.antt =====
-- Small inputs for the tests.
use ingress_nginx_gateway_br.Common.{
  ℕ, ◌%◌, refl, Bool, false, none, some, List, [], ◌∷◌, length, arith,
}
use ingress_nginx_gateway_br.Text.{Text, codes}
use ingress_nginx_gateway_br.Naming.{IsDigest}
use ingress_nginx_gateway_br.Api.{NamespacedName, Ingress, IngressTls, IngressRule}
use ingress_nginx_gateway_br.Gateway.{ListenerPlacement, ManagedGatewayOptions, ProjectedListener}

-- A stand-in for the hash: the length of the text, and 31 zeros.
unfoldable pub toy_sha256 : Text → List ℕ
toy_sha256 s =
    length s % 256
    ∷ 0
    ∷ 0
    ∷ 0
    ∷ 0
    ∷ 0
    ∷ 0
    ∷ 0
    ∷ 0
    ∷ 0
    ∷ 0
    ∷ 0
    ∷ 0
    ∷ 0
    ∷ 0
    ∷ 0
    ∷ 0
    ∷ 0
    ∷ 0
    ∷ 0
    ∷ 0
    ∷ 0
    ∷ 0
    ∷ 0
    ∷ 0
    ∷ 0
    ∷ 0
    ∷ 0
    ∷ 0
    ∷ 0
    ∷ 0
    ∷ 0
    ∷ []

pub toy_sha256-IsDigest : IsDigest toy_sha256
unfolding toy_sha256
toy_sha256-IsDigest = record { size = λ s. refl; bytes = λ s. omega arith }

abbrev pub secret : NamespacedName
secret = record { namespace = codes "web"; name = codes "cert" }

abbrev pub listener : Text → ProjectedListener
listener hostname = record { hostname = hostname; secret = secret; hosts = hostname ∷ [] }

abbrev pub options_with : Bool → List (Text × ListenerPlacement) → ManagedGatewayOptions
options_with overflow current = record {
  namespace = codes "gw";
  name = codes "edge";
  class_name = codes "nginx";
  nginx_proxy_name = [];
  allow_listener_sets = false;
  http_section_name = codes "http";
  https_section_name = codes "https";
  listener_set_overflow = overflow;
  certificates =
      some
        ((secret, record { wildcard_sans = codes "*.a.dev" ∷ []; fingerprint = codes "f0" }) ∷ []);
  current_placements = current;
}

abbrev pub placement : ℕ → ListenerPlacement
placement idx = record { listener_set = idx; secret = secret }

abbrev pub ingress : Text → List IngressTls → List IngressRule → Ingress
ingress name tls rules = record {
  namespace = codes "web";
  name = name;
  uid = codes "1";
  labels = [];
  annotations = [];
  created = 0;
  deleting = false;
  class_name = none;
  default_backend = none;
  tls = tls;
  rules = rules;
}

abbrev pub entry : List Text → Text → IngressTls
entry hosts secret_name = record { hosts = hosts; secret_name = secret_name }

-- Two hosts under a wildcard certificate, one of them in upper case, and one with its own Secret.
abbrev pub two_ingresses : List Ingress
two_ingresses =
    ingress (codes "shop") (entry (codes " X.a.dev" ∷ codes "y.a.dev" ∷ []) (codes "cert") ∷ []) []
    ∷ ingress (codes "blog") (entry (codes "b.dev" ∷ []) (codes "own") ∷ []) []
    ∷ []
