-- ===== src/Tests/Caches.antt =====
-- The certificate cache on small inputs.
use ingress_nginx_gateway_br.Common.{
  ◌≡◌, ◌↔◌, refl, sym, ◌∙◌, subst, none, some, [], ◌∷◌, if◌then◌else◌, contains, has_key, none-some,
  some_inj, ◌⊎◌, List,
}
use ingress_nginx_gateway_br.Text.{text_key, codes, text_eq, text_functions}
use ingress_nginx_gateway_br.Api.{Ingress, NamespacedName, name_key}
use ingress_nginx_gateway_br.Certificates.{CertificateInfo}
use ingress_nginx_gateway_br.Certificates.Parse.{Crypto, parse_certificate_info, parse_functions}
use ingress_nginx_gateway_br.Controller.Observed.{Found, found, not_found}
use ingress_nginx_gateway_br.Controller.Secrets.{
  Secret, Json, content_of, transform_tls_secret, certificate_info_from_secret, secret_updated,
  secret_functions,
}
use ingress_nginx_gateway_br.Controller.CertificateCache.{
  referenced_secrets, certificate_infos, certificate_cache_functions,
}
use ingress_nginx_gateway_br.Controller.Projected.{
  certificate_info_from_secret-transform_tls_secret, transform_tls_secret_idem, secret_updated-none,
  IsFaithfulAt, IsUnreferenced,
}
use ingress_nginx_gateway_br.Controller.CacheSound.{
  IsCurrent, read_infos, certificate_infos-read_infos,
}
use ingress_nginx_gateway_br.Controller.CacheKeys.{certificate_infos-IsTrimmed}
use ingress_nginx_gateway_br.Tests.Samples.{secret, toy_sha256, two_ingresses}
use ingress_nginx_gateway_br.Tests.Controllers.{edge_config}

-- Stand-ins for the libraries: every certificate has one wildcard name, and a value's document is its
-- fingerprint.
abbrev toy_crypto : Crypto
toy_crypto = record {
  x509_key_pair = λ certificate key. some (record { chain = certificate ∷ []; leaf = none });
  parse_certificate = λ der. some (codes "*.A.dev." ∷ codes "a.dev" ∷ []);
  base64_decode = λ text. none;
  pem_decode = λ text. none;
  sha256 = toy_sha256;
}

abbrev pub toy_json : Json
toy_json = record {
  marshal = λ info. some (b'f' ∷ info.fingerprint);
  unmarshal = λ text. some (record {
    wildcard_sans = codes "*.a.dev" ∷ [];
    fingerprint = elim text [ [] ↦ [] | c ∷ rest ↦ rest ];
  });
}

abbrev tls_secret : Secret
tls_secret = record {
  namespace = codes "web";
  name = codes "cert";
  uid = codes "7";
  resource_version = codes "12";
  generation = 1;
  created = 5;
  deleted = none;
  labels = [];
  annotations = [];
  content = some ((codes "tls.crt", codes "c") ∷ (codes "tls.key", codes "k") ∷ []);
  secret_type = codes "kubernetes.io/tls";
}

abbrev secret_info : CertificateInfo
secret_info = record {
  wildcard_sans = codes "*.a.dev" ∷ [];
  fingerprint = codes "0500000000000000000000000000000000000000000000000000000000000000";
}

parsed_secret : parse_certificate_info toy_crypto (content_of tls_secret.content) ≡ some secret_info
unfolding text_functions parse_functions toy_sha256
parsed_secret = refl

faithful :
    (info : CertificateInfo)
    → parse_certificate_info toy_crypto (content_of tls_secret.content) ≡ some info
    → IsFaithfulAt toy_json info
unfolding text_functions
faithful info parsed =
    subst (λ i. IsFaithfulAt toy_json i) (some_inj (sym parsed_secret ∙ parsed))
      (b'f' ∷ secret_info.fingerprint, refl, refl, refl)

certificate_info_from_secret-transform_tls_secret_example :
    certificate_info_from_secret toy_json (transform_tls_secret toy_crypto toy_json tls_secret)
    ≡ parse_certificate_info toy_crypto (content_of tls_secret.content)
unfolding text_functions secret_functions
certificate_info_from_secret-transform_tls_secret_example =
    certificate_info_from_secret-transform_tls_secret toy_crypto toy_json tls_secret refl faithful

transform_tls_secret_idem_example :
    transform_tls_secret toy_crypto toy_json (transform_tls_secret toy_crypto toy_json tls_secret)
    ≡ transform_tls_secret toy_crypto toy_json tls_secret
transform_tls_secret_idem_example = transform_tls_secret_idem toy_crypto toy_json tls_secret

abbrev renewed : CertificateInfo
renewed = record { wildcard_sans = codes "*.a.dev" ∷ []; fingerprint = codes "f1" }

secret_updated-none_example :
    (secret_updated edge_config (some two_ingresses) (codes "cert") none (some renewed) ≡ none) ↔ (
      (none ≡ some renewed)
      ⊎ ((items : List Ingress) × (some two_ingresses ≡ some items)
          × IsUnreferenced edge_config (codes "cert") items))
secret_updated-none_example =
    secret_updated-none edge_config (some two_ingresses) (codes "cert") none (some renewed)

abbrev secret_at : NamespacedName → Found Secret
secret_at key =
    if text_eq key.name (codes "cert")
    then found (transform_tls_secret toy_crypto toy_json tls_secret)
    else not_found

empty-IsCurrent : IsCurrent toy_json secret_at []
unfolding certificate_cache_functions
empty-IsCurrent key entry stored = elim (none-some stored) [ ]

certificate_infos-read_infos_example :
    ((certificate_infos toy_json secret_at edge_config two_ingresses []).0
      ≡ read_infos toy_json secret_at [] (referenced_secrets two_ingresses))
    × IsCurrent toy_json secret_at
        (certificate_infos toy_json secret_at edge_config two_ingresses []).1
certificate_infos-read_infos_example =
    certificate_infos-read_infos toy_json secret_at edge_config two_ingresses [] empty-IsCurrent

certificate_infos-IsTrimmed_example :
    has_key secret (certificate_infos toy_json secret_at edge_config two_ingresses []).1
    ≡ contains secret (referenced_secrets two_ingresses)
unfolding text_functions secret_functions certificate_cache_functions parse_functions toy_sha256
certificate_infos-IsTrimmed_example =
    certificate_infos-IsTrimmed toy_json secret_at edge_config two_ingresses []
      ((secret, secret_info) ∷ []) refl refl secret
