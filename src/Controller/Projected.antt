-- ===== src/Controller/Projected.antt =====
-- What the informer cache keeps of a Secret, and which updates of it queue nothing.
use ingress_nginx_gateway_br.Common.{
  ℕ, ◌≡◌, ◌↔◌, ◌∙◌, ◌⊎◌, All, sym, ap, refl, none-some, true-false, true, false, Option, none, some,
  List, [], ◌∷◌, arith, lookup, Option-cases, Bool-cases, inl, inr,
}
use ingress_nginx_gateway_br.Text.{Text, text_key, text_eq, text_eq_iff, is_empty, trim_space}
use ingress_nginx_gateway_br.Api.{Ingress, IngressTls}
use ingress_nginx_gateway_br.Controller.Selection.{Config, selected}
use ingress_nginx_gateway_br.Certificates.{CertificateInfo}
use ingress_nginx_gateway_br.Certificates.Parse.{Crypto, parse_certificate_info}
use ingress_nginx_gateway_br.Controller.Secrets.{
  Secret, Json, is_transformed, content_of, encoded_info, projected, transform_tls_secret,
  certificate_info_from_secret, slices_equal, update_delay, names_secret, some_ingress_names,
  secret_referenced, enqueue_certificate_sync, secret_updated, sync_after,
}

-- The document of this value is not empty and decodes to the value.
abbrev pub IsFaithfulAt : Json → CertificateInfo → Type 0
IsFaithfulAt json info =
    (text : Text) × (json.marshal info ≡ some text)
    × (is_empty text ≡ false)
    × (json.unmarshal text ≡ some info)

module _ (crypto : Crypto) (json : Json) where
  is_transformed-projected :
      (secret : Secret) → is_transformed (projected crypto json secret) ≡ true
  unfolding is_transformed projected lookup text_eq
  is_transformed-projected secret = refl

  -- A Secret that is transformed is not transformed again.
  pub transform_tls_secret_idem :
      (secret : Secret)
      → transform_tls_secret crypto json (transform_tls_secret crypto json secret)
        ≡ transform_tls_secret crypto json secret
  unfolding transform_tls_secret
  transform_tls_secret_idem secret = elim (Bool-cases (is_transformed secret)) [
    | inl done ↦ rw (done, done) refl
    | inr fresh ↦ rw (fresh, is_transformed-projected secret) refl
  ]

  -- Where encoding/json gives back the projection of a Secret's certificate, a Secret that is read from
  -- the informer cache gives what its certificate data parses to.
  pub certificate_info_from_secret-transform_tls_secret :
      (secret : Secret)
      → is_transformed secret ≡ false
      → ((info : CertificateInfo)
          → parse_certificate_info crypto (content_of secret.content) ≡ some info
          → IsFaithfulAt json info)
      → certificate_info_from_secret json (transform_tls_secret crypto json secret)
        ≡ parse_certificate_info crypto (content_of secret.content)
  unfolding transform_tls_secret projected certificate_info_from_secret lookup text_eq encoded_info
      is_empty
  certificate_info_from_secret-transform_tls_secret secret fresh faithful =
      elim (Option-cases (parse_certificate_info crypto (content_of secret.content))) [
        | inl invalid ↦ rw (fresh, invalid) refl
        | inr (info, parsed) ↦
            let (text, marshalled, filled, decoded) = faithful info parsed in
            rw (fresh, parsed, marshalled, filled, decoded) refl
      ]

slices_equal_iff : (ss ts : List Text) → (slices_equal ss ts ≡ true) ↔ (ss ≡ ts)
unfolding slices_equal
slices_equal_iff [] [] = ground arith
slices_equal_iff [] (t ∷ ts) = ground arith
slices_equal_iff (s ∷ ss) [] = ground arith
slices_equal_iff (s ∷ ss) (t ∷ ts) = ground (arith, text_eq_iff s t, slices_equal_iff ss ts)

update_delay-none : (old new : Option CertificateInfo) → (update_delay old new ≡ none) ↔ (old ≡ new)
unfolding update_delay
update_delay-none none none = ground arith
update_delay-none none (some new) = ground arith
update_delay-none (some old) none = ground arith
update_delay-none (some old) (some new) = ground (
  arith,
  text_eq_iff old.fingerprint new.fingerprint,
  slices_equal_iff old.wildcard_sans new.wildcard_sans,
)

-- No Ingress of the list names the Secret, but for those that are being deleted or are not selected.
abbrev pub IsUnreferenced : Config → Text → List Ingress → Type 0
IsUnreferenced config name ingresses =
    All
      (λ ing.
        (ing.deleting ≡ true)
        ⊎ ((selected config ing ≡ false)
            ⊎ All (λ tls. text_eq (trim_space tls.secret_name) name ≡ false) ing.tls))
      ingresses

names_secret_iff :
    (name : Text) (entries : List IngressTls)
    → (names_secret name entries ≡ false)
      ↔ All (λ tls. text_eq (trim_space tls.secret_name) name ≡ false) entries
unfolding names_secret
names_secret_iff name [] = (λ _. tt, λ _. refl)
names_secret_iff name (tls ∷ entries) =
    let rest = names_secret_iff name entries in
    elim (Bool-cases (text_eq (trim_space tls.secret_name) name)) [
      | inl same ↦ rw same (ground arith)
      | inr other ↦ rw other (λ h. (refl, rest.0 h), λ h. rest.1 h.1)
    ]

some_ingress_names_iff :
    (config : Config) (name : Text) (ingresses : List Ingress)
    → (some_ingress_names config name ingresses ≡ false) ↔ IsUnreferenced config name ingresses
unfolding some_ingress_names selected
some_ingress_names_iff config name [] = (λ _. tt, λ _. refl)
some_ingress_names_iff config name (ing ∷ ingresses) =
    let rest = some_ingress_names_iff config name ingresses in
    let named = names_secret_iff name ing.tls in
    elim (Bool-cases ing.deleting) [
      | inl gone ↦ rw gone (λ h. (inl refl, rest.0 h), λ h. rest.1 h.1)
      | inr stands ↦ elim (Bool-cases (selected config ing)) [
        | inr other ↦ rw (stands, other) (λ h. (inr (inl refl), rest.0 h), λ h. rest.1 h.1)
        | inl ours ↦ elim (Bool-cases (names_secret name ing.tls)) [
          | inl names ↦
              rw (stands, ours, names)
                (
                  λ h. absurd (true-false h),
                  λ h. elim h.0 [
                    | inl e ↦ absurd (true-false (sym e))
                    | inr (inl e) ↦ absurd (true-false e)
                    | inr (inr all) ↦ absurd (true-false (sym names ∙ named.1 all))
                  ],
                )
          | inr silent ↦
              rw (stands, ours, silent)
                (λ h. (inr (inr (named.0 silent)), rest.0 h), λ h. rest.1 h.1)
        ]
      ]
    ]

-- Where nothing is queued, the Ingresses were listed and none of them names the Secret.
unlisted :
    (config : Config) (name : Text) (ingresses : Option (List Ingress)) (delay : ℕ)
    → enqueue_certificate_sync config ingresses name delay ≡ none
    → (items : List Ingress) × (ingresses ≡ some items) × IsUnreferenced config name items
unfolding enqueue_certificate_sync secret_referenced
unlisted config name none delay h = absurd (none-some (sym h))
unlisted config name (some items) delay h =
    elim (Bool-cases (some_ingress_names config name items)) [
      | inl named ↦ absurd (none-some (sym (rw named at h)))
      | inr free ↦ (items, refl, (some_ingress_names_iff config name items).0 free)
    ]

quiet :
    (config : Config) (name : Text) (ingresses : Option (List Ingress)) (delay : ℕ)
    (items : List Ingress)
    → ingresses ≡ some items
    → IsUnreferenced config name items
    → enqueue_certificate_sync config ingresses name delay ≡ none
unfolding enqueue_certificate_sync secret_referenced
quiet config name ingresses delay items listed free =
    rw (listed, (some_ingress_names_iff config name items).1 free) refl

module _ (config : Config) (ingresses : Option (List Ingress)) (name : Text) where
  secret_updated-ignored :
      (old new : Option CertificateInfo)
      → update_delay old new ≡ none
      → secret_updated config ingresses name old new ≡ none
  unfolding secret_updated
  secret_updated-ignored old new ignored = ap (sync_after config ingresses name) ignored

  secret_updated-queued :
      (old new : Option CertificateInfo) (delay : ℕ)
      → update_delay old new ≡ some delay
      → secret_updated config ingresses name old new
        ≡ enqueue_certificate_sync config ingresses name delay
  unfolding secret_updated
  secret_updated-queued old new delay queued = ap (sync_after config ingresses name) queued

-- An update of a Secret queues nothing exactly where what the certificate holds is the same as before, or
-- where the Ingresses of the namespace were listed and none that is selected and not being deleted names
-- the Secret.
pub secret_updated-none :
    (config : Config) (ingresses : Option (List Ingress)) (name : Text)
    (old new : Option CertificateInfo)
    → (secret_updated config ingresses name old new ≡ none) ↔ (
        (old ≡ new)
        ⊎ ((items : List Ingress) × (ingresses ≡ some items) × IsUnreferenced config name items))
secret_updated-none config ingresses name old new = elim (Option-cases (update_delay old new)) [
  | inl ignored ↦ (
    λ _. inl ((update_delay-none old new).0 ignored),
    λ _. secret_updated-ignored config ingresses name old new ignored,
  )
  | inr (delay, queued) ↦
      let same = secret_updated-queued config ingresses name old new delay queued in
      (
        λ h. inr (unlisted config name ingresses delay (sym same ∙ h)),
        λ h. elim h [
          | inl e ↦ absurd (none-some (sym ((update_delay-none old new).1 e) ∙ queued))
          | inr (items, listed, free) ↦ same ∙ quiet config name ingresses delay items listed free
        ],
      )
]
