-- ===== src/Controller/CacheKeys.antt =====
-- Which Secrets the certificate cache keeps.
use ingress_nginx_gateway_br.Common.{
  ◌≡◌, refl, ◌⊎◌, inl, inr, Bool, true, ◌||◌, Option, none, some, List, [], ◌∷◌, arith, lookup,
  insert, lookup-insert, has_key, add, contains-add, contains, eq_iff, Option-cases, Bool-cases,
  ◌==◌,
}
use ingress_nginx_gateway_br.Api.{NamespacedName, name_key, Ingress}
use ingress_nginx_gateway_br.Controller.Selection.{Config}
use ingress_nginx_gateway_br.Controller.Observed.{Found}
use ingress_nginx_gateway_br.Controller.Secrets.{Secret, Json}
use ingress_nginx_gateway_br.Controller.CertificateCache.{
  CertificateEntry, CertificateEntries, CertificateInfos, referenced_secrets, put, read_certificate,
  cached_or_read, collect_infos, certificate_infos, finish_infos,
}
use ingress_nginx_gateway_br.Controller.CacheSound.{
  lookup-drop_unreferenced, collect_infos-empty, collect_infos-failed, collect_infos-answered,
}

-- What the loops give names the wanted Secrets, and each of them has an entry.
abbrev IsCovering :
    Option (List NamespacedName × CertificateInfos) × CertificateEntries
    → (NamespacedName → Bool)
    → Type 0
IsCovering (none, cache) wanted = Unit
IsCovering (some (referenced, result), cache) wanted =
    (key : NamespacedName)
    → (contains key referenced ≡ wanted key)
      × (contains key referenced ≡ true → has_key key cache ≡ true)

-- After a success, the entries are those of the wanted Secrets.
abbrev IsTrimmed : Option CertificateInfos × CertificateEntries → (NamespacedName → Bool) → Type 0
IsTrimmed (none, cache) wanted = Unit
IsTrimmed (some infos, cache) wanted = (key : NamespacedName) → has_key key cache ≡ wanted key

IsTrimmed-some :
    (r : Option CertificateInfos × CertificateEntries) (infos : CertificateInfos)
    (wanted : NamespacedName → Bool)
    → r.0 ≡ some infos
    → IsTrimmed r wanted
    → (key : NamespacedName) → has_key key r.1 ≡ wanted key
IsTrimmed-some (none, cache) infos wanted success trimmed key = cc
IsTrimmed-some (some _, cache) infos wanted success trimmed key = trimmed key

has_key-insert :
    (key other : NamespacedName) (entry : CertificateEntry) (cache : CertificateEntries)
    → has_key other (insert key entry cache) ≡ (has_key other cache || (key == other))
unfolding has_key
has_key-insert key other entry cache = ground (arith, lookup-insert key other entry cache)

finish_infos-IsTrimmed :
    (r : Option (List NamespacedName × CertificateInfos) × CertificateEntries)
    (wanted : NamespacedName → Bool)
    → IsCovering r wanted
    → IsTrimmed (finish_infos r) wanted
unfolding has_key
finish_infos-IsTrimmed (none, cache) wanted covering = tt
finish_infos-IsTrimmed (some (referenced, result), cache) wanted covering =
    λ key. ground (arith, covering key, lookup-drop_unreferenced referenced key cache)

module _ (json : Json) (secret_at : NamespacedName → Found Secret) where
  -- An answer leaves an entry of its key, and the others where they are.
  cached_or_read-has_key :
      (cache : CertificateEntries) (key : NamespacedName)
      → (cached_or_read json secret_at cache key ≡ none)
        ⊎ ((entry : CertificateEntry) × (cache' : CertificateEntries) × (cached_or_read json
                secret_at cache key
              ≡ some (entry, cache'))
            × ((other : NamespacedName)
                → has_key other cache' ≡ (has_key other cache || (key == other))))
  unfolding cached_or_read has_key
  cached_or_read-has_key cache key = elim (Option-cases (lookup key cache)) [
    | inr (entry, cached) ↦ inr (
      entry,
      cache,
      rw cached refl,
      λ other. elim (Bool-cases (key == other)) [
        | inl same ↦ ground (arith, cached, same, eq_iff key other)
        | inr different ↦ ground (arith, different)
      ],
    )
    | inl missing ↦ elim (Option-cases (read_certificate json secret_at key)) [
      | inl broken ↦ inl (rw (missing, broken) refl)
      | inr (entry, read) ↦ inr (
        entry,
        insert key entry cache,
        rw (missing, read) refl,
        λ other. has_key-insert key other entry cache,
      )
    ]
  ]

  collect_infos-IsCovering :
      (names : List NamespacedName) (cache : CertificateEntries) (referenced : List NamespacedName)
      (result : CertificateInfos) (wanted : NamespacedName → Bool)
      → ((key : NamespacedName)
          → ((contains key referenced || contains key names) ≡ wanted key)
            × (contains key referenced ≡ true → has_key key cache ≡ true))
      → IsCovering (collect_infos json secret_at cache referenced result names) wanted
  unfolding contains
  collect_infos-IsCovering [] cache referenced result wanted covered =
      rw (collect_infos-empty json secret_at cache referenced result)
        (λ key. ground (arith, covered key))
  collect_infos-IsCovering (key ∷ names) cache referenced result wanted covered =
      elim (cached_or_read-has_key cache key) [
        | inl failed ↦
            rw (collect_infos-failed json secret_at cache referenced result key names failed) tt
        | inr (entry, cache', answered, holds) ↦
            rw
              (collect_infos-answered json secret_at cache referenced result key names entry cache'
                answered)
              (collect_infos-IsCovering names cache' (add key referenced) (put key entry result)
                wanted
                (λ other. ground (
                  arith,
                  covered other,
                  holds other,
                  contains-add other key referenced,
                  eq_iff key other,
                )))
      ]

  -- After a successful call with the collapse switched on, the cache has an entry of a Secret exactly
  -- where a selected Ingress names the Secret.
  pub certificate_infos-IsTrimmed :
      (config : Config) (selected : List Ingress) (cache : CertificateEntries)
      (infos : CertificateInfos)
      → config.collapse_wildcard_certificates ≡ true
      → (certificate_infos json secret_at config selected cache).0 ≡ some infos
      → (key : NamespacedName)
      → has_key key (certificate_infos json secret_at config selected cache).1
        ≡ contains key (referenced_secrets selected)
  unfolding certificate_infos contains
  certificate_infos-IsTrimmed config selected cache infos on success =
      let names = referenced_secrets selected in
      let wanted : NamespacedName → Bool = λ key. contains key names in
      let r = collect_infos json secret_at cache [] [] names in
      let covering : IsCovering r wanted =
        collect_infos-IsCovering names cache [] [] wanted (λ key. ground arith) in
      IsTrimmed-some (certificate_infos json secret_at config selected cache) infos wanted success
        (rw on (finish_infos-IsTrimmed r wanted covering))
