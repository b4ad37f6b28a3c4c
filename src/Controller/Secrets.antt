-- ===== src/Controller/Secrets.antt =====
-- The Secrets of internal/controller/certificates.go: what the informer cache keeps of a Secret, how
-- it is read back, and when an update of a Secret asks for a new plan. encoding/json is a parameter.
use ingress_nginx_gateway_br.Common.{
  ℕ, Bool, true, false, not, ◌&&◌, Option, none, some, List, [], ◌∷◌, if◌then◌else◌, lookup,
}
use ingress_nginx_gateway_br.Text.{Text, text_key, codes, text_eq, trim_space, is_empty}
use ingress_nginx_gateway_br.Api.{Ingress, IngressTls}
use ingress_nginx_gateway_br.Certificates.{CertificateInfo}
use ingress_nginx_gateway_br.Certificates.Parse.{Crypto, parse_certificate_info}
use ingress_nginx_gateway_br.Controller.Selection.{Config, selected}

-- `certificateInfoAnnotation`
abbrev pub certificate_info_annotation : Text
certificate_info_annotation = codes "gateway.zyno.io/internal-certificate-info"

-- `corev1.Secret`; `content` is `Data`, `none` where it is nil.
pub record Secret : Type 0 where
  pub namespace : Text
  pub name : Text
  pub uid : Text
  pub resource_version : Text
  pub generation : ℕ
  pub created : ℕ
  pub deleted : Option ℕ
  pub labels : List (Text × Text)
  pub annotations : List (Text × Text)
  pub content : Option (List (Text × Text))
  pub secret_type : Text

-- `json.Marshal` and `json.Unmarshal` of a `CertificateInfo`; `none` is an error.
pub record Json : Type 0 where
  pub marshal : CertificateInfo → Option Text
  pub unmarshal : Text → Option CertificateInfo

abbrev is_present : Option Text → Bool
is_present none = false
is_present (some _) = true

abbrev transformed_with : Option (List (Text × Text)) → Option Text → Bool
transformed_with none annotation = is_present annotation
transformed_with (some _) annotation = false

-- Whether the Secret went through the transform before.
unfoldable pub is_transformed : Secret → Bool
is_transformed secret =
    transformed_with secret.content (lookup certificate_info_annotation secret.annotations)

-- The entries of `Data`; a nil map has none.
abbrev pub content_of : Option (List (Text × Text)) → List (Text × Text)
content_of none = []
content_of (some entries) = entries

module _ (crypto : Crypto) (json : Json) where
  abbrev text_or_empty : Option Text → Text
  text_or_empty none = []
  text_or_empty (some text) = text

  unfoldable pub encoded_info : Option CertificateInfo → Text
  encoded_info none = []
  encoded_info (some info) = text_or_empty (json.marshal info)

  -- What is kept of a Secret: who it is, and the projection of its certificate.
  unfoldable pub projected : Secret → Secret
  projected secret = record {
    namespace = secret.namespace;
    name = secret.name;
    uid = secret.uid;
    resource_version = secret.resource_version;
    generation = secret.generation;
    created = secret.created;
    deleted = secret.deleted;
    labels = [];
    annotations =
        (
          certificate_info_annotation,
          encoded_info (parse_certificate_info crypto (content_of secret.content)),
        )
        ∷ [];
    content = none;
    secret_type = secret.secret_type;
  }

  -- `transformTLSSecret` of a Secret.
  unfoldable pub transform_tls_secret : Secret → Secret
  transform_tls_secret secret = if is_transformed secret then secret else projected secret

module _ (json : Json) where
  abbrev decoded : Option Text → Option CertificateInfo
  decoded none = none
  decoded (some raw) = if is_empty raw then none else json.unmarshal raw

  -- `certificateInfoFromSecret`
  unfoldable pub certificate_info_from_secret : Secret → Option CertificateInfo
  certificate_info_from_secret secret =
      decoded (lookup certificate_info_annotation secret.annotations)

-- `slices.Equal` of texts
unfoldable pub slices_equal : List Text → List Text → Bool
slices_equal [] [] = true
slices_equal [] (_ ∷ _) = false
slices_equal (_ ∷ _) [] = false
slices_equal (s ∷ ss) (t ∷ ts) = text_eq s t && slices_equal ss ts

-- `certificateSettleDelay` in seconds
abbrev pub certificate_settle_delay : ℕ
certificate_settle_delay = 10

-- The first part of the `UpdateFunc` of `secretEventHandler`, before it queues: `none` where it returns
-- early, or the delay that it passes on.
unfoldable pub update_delay : Option CertificateInfo → Option CertificateInfo → Option ℕ
update_delay none none = none
update_delay none (some _) = some 0
update_delay (some _) none = some 0
update_delay (some old) (some new) =
    let same_names = slices_equal old.wildcard_sans new.wildcard_sans in
    let same_fingerprint = text_eq old.fingerprint new.fingerprint in
    if same_fingerprint && same_names
    then none
    else some (if same_names && not same_fingerprint then certificate_settle_delay else 0)

unfoldable pub names_secret : Text → List IngressTls → Bool
names_secret name [] = false
names_secret name (tls ∷ entries) =
    if text_eq (trim_space tls.secret_name) name then true else names_secret name entries

-- The loop of `secretReferenced` over the Ingresses of the namespace.
unfoldable pub some_ingress_names : Config → Text → List Ingress → Bool
some_ingress_names config name [] = false
some_ingress_names config name (ing ∷ ingresses) =
    if ing.deleting
    then some_ingress_names config name ingresses
    else if selected config ing
    then if names_secret name ing.tls then true else some_ingress_names config name ingresses
    else some_ingress_names config name ingresses

-- `secretReferenced`; `none` is a failure to list the Ingresses.
unfoldable pub secret_referenced : Config → Option (List Ingress) → Text → Bool
secret_referenced config none name = true
secret_referenced config (some ingresses) name = some_ingress_names config name ingresses

-- `enqueueCertificateSync`: the delay with which the sync is queued, or `none`.
unfoldable pub enqueue_certificate_sync : Config → Option (List Ingress) → Text → ℕ → Option ℕ
enqueue_certificate_sync config ingresses name delay =
    if secret_referenced config ingresses name then some delay else none

-- An early return queues nothing.
abbrev pub sync_after : Config → Option (List Ingress) → Text → Option ℕ → Option ℕ
sync_after config ingresses name none = none
sync_after config ingresses name (some delay) = enqueue_certificate_sync config ingresses name delay

-- The `UpdateFunc` of `secretEventHandler` on what the old and the new Secret hold: the delay with which
-- the sync is queued, or `none` where nothing is queued.
unfoldable pub secret_updated :
    Config
    → Option (List Ingress)
    → Text
    → Option CertificateInfo
    → Option CertificateInfo
    → Option ℕ
secret_updated config ingresses name old new =
    sync_after config ingresses name (update_delay old new)

-- The functions above, for the tests.
unfoldable pub secret_functions : Unit {0}
unfolding is_transformed encoded_info projected transform_tls_secret certificate_info_from_secret
    slices_equal update_delay names_secret some_ingress_names secret_referenced
    enqueue_certificate_sync secret_updated lookup
secret_functions = tt
