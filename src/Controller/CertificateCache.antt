-- ===== src/Controller/CertificateCache.antt =====
-- The cache of certificate lookups in internal/controller/certificates.go: `certificateInfos` and
-- `readCertificate`. The Secrets are what `Get` finds at the time of the call. A cache that is nil
-- is the empty one.
use ingress_nginx_gateway_br.Common.{
  Option, none, some, List, [], ◌∷◌, ◌++◌, if◌then◌else◌, lookup, insert, add, keep, contains,
}
use ingress_nginx_gateway_br.Text.{Text, text_key, trim_space, is_empty}
use ingress_nginx_gateway_br.Api.{NamespacedName, name_key, Ingress, IngressTls}
use ingress_nginx_gateway_br.Certificates.{CertificateInfo}
use ingress_nginx_gateway_br.Controller.Selection.{Config}
use ingress_nginx_gateway_br.Controller.Observed.{Found, found, not_found, failed}
use ingress_nginx_gateway_br.Controller.Secrets.{Secret, Json, certificate_info_from_secret}

-- `certificateEntry`: `none` is an entry whose `ok` is false.
abbrev pub CertificateEntry : Type 0
CertificateEntry = Option CertificateInfo

-- `IngressReconciler.certificates`
abbrev pub CertificateEntries : Type 0
CertificateEntries = List (NamespacedName × CertificateEntry)

abbrev pub CertificateInfos : Type 0
CertificateInfos = List (NamespacedName × CertificateInfo)

-- The names of the TLS Secrets of a namespace's Ingress, in their order.
unfoldable pub secret_names : Text → List IngressTls → List NamespacedName
secret_names namespace [] = []
secret_names namespace (tls ∷ entries) =
    let name = trim_space tls.secret_name in
    let rest = secret_names namespace entries in
    if is_empty name then rest else record { namespace = namespace; name = name } ∷ rest

-- Those of all Ingresses, as the two loops visit them.
unfoldable pub referenced_secrets : List Ingress → List NamespacedName
referenced_secrets [] = []
referenced_secrets (ing ∷ selected) =
    secret_names ing.namespace ing.tls ++ referenced_secrets selected

-- `result[key] = entry.info`, where the entry is good.
abbrev pub put : NamespacedName → CertificateEntry → CertificateInfos → CertificateInfos
put key none result = result
put key (some info) result = insert key info result

-- `delete(r.certificates, key)` of the entries that nothing refers to.
unfoldable pub drop_unreferenced : List NamespacedName → CertificateEntries → CertificateEntries
drop_unreferenced referenced cache = keep (λ entry. contains entry.0 referenced) cache

abbrev pub finish_infos :
    Option (List NamespacedName × CertificateInfos) × CertificateEntries
    → Option CertificateInfos × CertificateEntries
finish_infos (none, cache) = (none, cache)
finish_infos (some (referenced, result), cache) = (some result, drop_unreferenced referenced cache)

module _ (json : Json) (secret_at : NamespacedName → Found Secret) where
  abbrev entry_of : Found Secret → Option CertificateEntry
  entry_of not_found = some none
  entry_of failed = none
  entry_of (found secret) = some (certificate_info_from_secret json secret)

  -- `readCertificate`; `none` is an error.
  unfoldable pub read_certificate : NamespacedName → Option CertificateEntry
  read_certificate key = entry_of (secret_at key)

  abbrev pub stored_after :
      NamespacedName
      → CertificateEntries
      → Option CertificateEntry
      → Option (CertificateEntry × CertificateEntries)
  stored_after key cache none = none
  stored_after key cache (some entry) = some (entry, insert key entry cache)

  abbrev pub cached_or :
      CertificateEntries
      → Option (CertificateEntry × CertificateEntries)
      → Option CertificateEntry
      → Option (CertificateEntry × CertificateEntries)
  cached_or cache read none = read
  cached_or cache read (some entry) = some (entry, cache)

  -- The entry of a key, from the cache or read and stored; `none` is an error.
  unfoldable pub cached_or_read :
      CertificateEntries → NamespacedName → Option (CertificateEntry × CertificateEntries)
  cached_or_read cache key =
      cached_or cache (stored_after key cache (read_certificate key)) (lookup key cache)

  -- The loops over the Secrets that are named. The cache comes back after an error too.
  unfoldable pub collect_infos :
      CertificateEntries
      → List NamespacedName
      → CertificateInfos
      → List NamespacedName
      → Option (List NamespacedName × CertificateInfos) × CertificateEntries
  collect_infos cache referenced result [] = (some (referenced, result), cache)
  collect_infos cache referenced result (key ∷ names) = elim (cached_or_read cache key) [
    | none ↦ (none, cache)
    | some (entry, cache') ↦ collect_infos cache' (add key referenced) (put key entry result) names
  ]

  -- `certificateInfos`; the nil map that it gives without the collapse is the empty one.
  unfoldable pub certificate_infos :
      Config → List Ingress → CertificateEntries → Option CertificateInfos × CertificateEntries
  certificate_infos config selected cache =
      if config.collapse_wildcard_certificates
      then finish_infos (collect_infos cache [] [] (referenced_secrets selected))
      else (some [], cache)

-- The functions above, for the tests.
unfoldable pub certificate_cache_functions : Unit {0}
unfolding secret_names referenced_secrets drop_unreferenced read_certificate cached_or_read
    collect_infos certificate_infos lookup insert add keep contains
certificate_cache_functions = tt
