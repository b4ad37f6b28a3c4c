-- ===== src/Controller/CacheSound.antt =====
-- The certificate cache against reading every Secret anew.
use ingress_nginx_gateway_br.Common.{
  ◌≡◌, refl, ◌∙◌, ◌⊎◌, inl, inr, Option, none, some, List, [], ◌∷◌, arith, if◌then◌else◌, lookup,
  insert, lookup-insert, add, keep, contains, eq_iff, Option-cases, Bool-cases, ◌==◌,
}
use ingress_nginx_gateway_br.Api.{NamespacedName, name_key, Ingress}
use ingress_nginx_gateway_br.Controller.Selection.{Config}
use ingress_nginx_gateway_br.Controller.Observed.{Found}
use ingress_nginx_gateway_br.Controller.Secrets.{Secret, Json}
use ingress_nginx_gateway_br.Controller.CertificateCache.{
  CertificateEntry, CertificateEntries, CertificateInfos, referenced_secrets, put, read_certificate,
  cached_or_read, collect_infos, drop_unreferenced, certificate_infos, finish_infos,
}

pub lookup-drop_unreferenced :
    (referenced : List NamespacedName) (key : NamespacedName) (cache : CertificateEntries)
    → lookup key (drop_unreferenced referenced cache)
      ≡ (if contains key referenced then lookup key cache else none)
unfolding drop_unreferenced keep lookup
lookup-drop_unreferenced referenced key [] = ground arith
lookup-drop_unreferenced referenced key ((found, entry) ∷ cache) =
    ground (arith, lookup-drop_unreferenced referenced key cache, eq_iff found key)

module _ (json : Json) (secret_at : NamespacedName → Found Secret) where
  -- Every entry is what a read of its Secret gives now.
  abbrev pub IsCurrent : CertificateEntries → Type 0
  IsCurrent cache =
      (key : NamespacedName) (entry : CertificateEntry)
      → lookup key cache ≡ some entry
      → read_certificate json secret_at key ≡ some entry

  -- The lookups without a cache: every Secret is read when it is named.
  unfoldable pub read_infos : CertificateInfos → List NamespacedName → Option CertificateInfos
  read_infos result [] = some result
  read_infos result (key ∷ names) = elim (read_certificate json secret_at key) [
    | none ↦ none
    | some entry ↦ read_infos (put key entry result) names
  ]

  insert-IsCurrent :
      (cache : CertificateEntries) (key : NamespacedName) (entry : CertificateEntry)
      → IsCurrent cache
      → read_certificate json secret_at key ≡ some entry
      → IsCurrent (insert key entry cache)
  insert-IsCurrent cache key entry current read wanted other stored =
      elim (Bool-cases (key == wanted)) [
        | inl same ↦
            ground
              (arith, read, stored, lookup-insert key wanted entry cache, same, eq_iff key wanted)
        | inr different ↦
            current wanted other
              (ground (arith, stored, lookup-insert key wanted entry cache, different))
      ]

  drop_unreferenced-IsCurrent :
      (referenced : List NamespacedName) (cache : CertificateEntries)
      → IsCurrent cache
      → IsCurrent (drop_unreferenced referenced cache)
  drop_unreferenced-IsCurrent referenced cache current key entry stored =
      current key entry (ground (arith, stored, lookup-drop_unreferenced referenced key cache))

  -- A current cache answers as a read does, and stays current.
  cached_or_read-cases :
      (cache : CertificateEntries) (key : NamespacedName)
      → IsCurrent cache
      → ((cached_or_read json secret_at cache key ≡ none)
          × (read_certificate json secret_at key ≡ none))
        ⊎ ((entry : CertificateEntry) × (cache' : CertificateEntries) × (cached_or_read json
                secret_at cache key
              ≡ some (entry, cache'))
            × (read_certificate json secret_at key ≡ some entry)
            × IsCurrent cache')
  unfolding cached_or_read
  cached_or_read-cases cache key current = elim (Option-cases (lookup key cache)) [
    | inr (entry, cached) ↦ inr (entry, cache, rw cached refl, current key entry cached, current)
    | inl missing ↦ elim (Option-cases (read_certificate json secret_at key)) [
      | inl broken ↦ inl (rw (missing, broken) refl, broken)
      | inr (entry, read) ↦ inr (
        entry,
        insert key entry cache,
        rw (missing, read) refl,
        read,
        insert-IsCurrent cache key entry current read,
      )
    ]
  ]

  abbrev infos_at :
      Option (List NamespacedName × CertificateInfos) × CertificateEntries → Option CertificateInfos
  infos_at (none, cache) = none
  infos_at (some (referenced, result), cache) = some result

  pub collect_infos-empty :
      (cache : CertificateEntries) (referenced : List NamespacedName) (result : CertificateInfos)
      → collect_infos json secret_at cache referenced result [] ≡ (some (referenced, result), cache)
  unfolding collect_infos
  collect_infos-empty cache referenced result = refl

  pub collect_infos-failed :
      (cache : CertificateEntries) (referenced : List NamespacedName) (result : CertificateInfos)
      (key : NamespacedName) (names : List NamespacedName)
      → cached_or_read json secret_at cache key ≡ none
      → collect_infos json secret_at cache referenced result (key ∷ names) ≡ (none, cache)
  unfolding collect_infos
  collect_infos-failed cache referenced result key names failed = rw (collect_infos, failed) refl

  pub collect_infos-answered :
      (cache : CertificateEntries) (referenced : List NamespacedName) (result : CertificateInfos)
      (key : NamespacedName) (names : List NamespacedName) (entry : CertificateEntry)
      (cache' : CertificateEntries)
      → cached_or_read json secret_at cache key ≡ some (entry, cache')
      → collect_infos json secret_at cache referenced result (key ∷ names)
        ≡ collect_infos json secret_at cache' (add key referenced) (put key entry result) names
  unfolding collect_infos
  collect_infos-answered cache referenced result key names entry cache' answered =
      rw (collect_infos, answered) refl

  collect_infos-read_infos :
      (names : List NamespacedName) (cache : CertificateEntries) (referenced : List NamespacedName)
      (result : CertificateInfos)
      → IsCurrent cache
      → (infos_at (collect_infos json secret_at cache referenced result names)
          ≡ read_infos result names)
        × IsCurrent (collect_infos json secret_at cache referenced result names).1
  unfolding read_infos
  collect_infos-read_infos [] cache referenced result current =
      rw (collect_infos-empty cache referenced result) (refl, current)
  collect_infos-read_infos (key ∷ names) cache referenced result current =
      elim (cached_or_read-cases cache key current) [
        | inl (failed, broken) ↦
            rw (collect_infos-failed cache referenced result key names failed, read_infos, broken)
              (refl, current)
        | inr (entry, cache', answered, read, current') ↦
            rw
              (
                collect_infos-answered cache referenced result key names entry cache' answered,
                read_infos,
                read,
              )
              (collect_infos-read_infos names cache' (add key referenced) (put key entry result)
                current')
      ]

  finish_infos-infos_at :
      (r : Option (List NamespacedName × CertificateInfos) × CertificateEntries)
      → IsCurrent r.1
      → ((finish_infos r).0 ≡ infos_at r) × IsCurrent (finish_infos r).1
  finish_infos-infos_at (none, cache) current = (refl, current)
  finish_infos-infos_at (some (referenced, result), cache) current =
      (refl, drop_unreferenced-IsCurrent referenced cache current)

  -- Where each cached entry is what a read of its Secret gives, the certificates that the cache gives are
  -- those of reading every Secret anew, errors included, and each entry still is.
  pub certificate_infos-read_infos :
      (config : Config) (selected : List Ingress) (cache : CertificateEntries)
      → IsCurrent cache
      → ((certificate_infos json secret_at config selected cache).0 ≡ (
          if config.collapse_wildcard_certificates
          then read_infos [] (referenced_secrets selected)
          else some []))
        × IsCurrent (certificate_infos json secret_at config selected cache).1
  unfolding certificate_infos
  certificate_infos-read_infos config selected cache current =
      let names = referenced_secrets selected in
      let (same, kept) = collect_infos-read_infos names cache [] [] current in
      let (result, kept') =
        finish_infos-infos_at (collect_infos json secret_at cache [] [] names) kept in
      elim (Bool-cases config.collapse_wildcard_certificates) [
        | inl on ↦ rw on (result ∙ same, kept')
        | inr off ↦ rw off (refl, current)
      ]
