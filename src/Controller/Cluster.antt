-- ===== src/Controller/Cluster.antt =====
-- The objects of a cluster that the controller writes, and the API server as the controller uses it:
-- `Client` is the client of controller-runtime, which is not part of this repository, and `IsServer`
-- what the controller relies on. A state is everything that the server and the cache hold.
use ingress_nginx_gateway_br.Common.{
  ℕ, ◌≡◌, ◌↔◌, ◌⊎◌, refl, sym, ap, ◌∙◌, Bool, true, false, ◌&&◌, if◌then◌else◌, Option, none, some,
  List, Memᴰ, arith, Eq, ◌==◌, lookup, nat_beq, nat_beq_iff, all,
}
use ingress_nginx_gateway_br.Text.{Text, text_key, text_eq, text_eq_iff}
use ingress_nginx_gateway_br.Gateway.Emission.{ManagedGateway, ListenerSet, ReferenceGrant}
use ingress_nginx_gateway_br.Types.{managed_by_label, controller_name}
use ingress_nginx_gateway_br.Controller.Observed.{Found, found, failed, has_label}

-- The kinds of the objects that the controller writes.
pub data Kind : Type 0 where
  http_route backend_tls_policy client_settings_policy proxy_settings_policy : Kind
  authentication_filter snippets_filter ingress_translation : Kind
  gateway listener_set reference_grant : Kind

abbrev kind_index : Kind → ℕ
kind_index http_route = 0
kind_index backend_tls_policy = 1
kind_index client_settings_policy = 2
kind_index proxy_settings_policy = 3
kind_index authentication_filter = 4
kind_index snippets_filter = 5
kind_index ingress_translation = 6
kind_index gateway = 7
kind_index listener_set = 8
kind_index reference_grant = 9

abbrev kind_at : ℕ → Kind
kind_at n =
    if nat_beq n 0
    then http_route
    else if nat_beq n 1
    then backend_tls_policy
    else if nat_beq n 2
    then client_settings_policy
    else if nat_beq n 3
    then proxy_settings_policy
    else if nat_beq n 4
    then authentication_filter
    else if nat_beq n 5
    then snippets_filter
    else if nat_beq n 6
    then ingress_translation
    else if nat_beq n 7
    then gateway
    else if nat_beq n 8
    then listener_set
    else reference_grant

kind_at-kind_index : (k : Kind) → kind_at (kind_index k) ≡ k
kind_at-kind_index http_route = refl
kind_at-kind_index backend_tls_policy = refl
kind_at-kind_index client_settings_policy = refl
kind_at-kind_index proxy_settings_policy = refl
kind_at-kind_index authentication_filter = refl
kind_at-kind_index snippets_filter = refl
kind_at-kind_index ingress_translation = refl
kind_at-kind_index gateway = refl
kind_at-kind_index listener_set = refl
kind_at-kind_index reference_grant = refl

abbrev pub kind_eq : Kind → Kind → Bool
kind_eq a b = nat_beq (kind_index a) (kind_index b)

pub kind_eq_iff : (a b : Kind) → (kind_eq a b ≡ true) ↔ (a ≡ b)
kind_eq_iff a b = (
  λ same.
      sym (kind_at-kind_index a)
      ∙ ap kind_at ((nat_beq_iff (kind_index a) (kind_index b)).0 same)
      ∙ kind_at-kind_index b,
  λ e. (nat_beq_iff (kind_index a) (kind_index b)).1 (ap kind_index e),
)

instance abbrev pub kind_key : Eq Kind
kind_key = record { same = kind_eq; same_iff = kind_eq_iff }

-- `%T/namespace/name` of an object: none of the three has a slash.
pub record ObjectKey : Type 0 where
  pub kind : Kind
  pub namespace : Text
  pub name : Text

abbrev pub object_key_eq : ObjectKey → ObjectKey → Bool
object_key_eq a b =
    kind_eq a.kind b.kind && (text_eq a.namespace b.namespace && text_eq a.name b.name)

pub object_key_eq_iff : (a b : ObjectKey) → (object_key_eq a b ≡ true) ↔ (a ≡ b)
object_key_eq_iff a b = ground (
  arith,
  kind_eq_iff a.kind b.kind,
  text_eq_iff a.namespace b.namespace,
  text_eq_iff a.name b.name,
)

instance abbrev pub object_key_key : Eq ObjectKey
object_key_key = record { same = object_key_eq; same_iff = object_key_eq_iff }

-- What an object says beside its name and labels. A document is what the controller writes and does
-- not read back.
pub data Content : Type 0 where
  gateway_spec : ManagedGateway → Content
  listener_set_spec : ListenerSet → Content
  grant_spec : ReferenceGrant → Content
  document : Text → Content

pub record Object : Type 0 where
  pub key : ObjectKey
  pub labels : List (Text × Text)
  pub content : Content

-- What a deletion gives.
pub data Deletion : Type 0 where
  deleted missing refused : Deletion

-- Whether `client.IgnoreNotFound` of the error is nil.
abbrev pub is_settled : Deletion → Bool
is_settled deleted = true
is_settled missing = true
is_settled refused = false

pub record Client (S : Type 0) : Type 0 where
  pub get : S → ObjectKey → Found Object
  pub list : S → Kind → Option Text → List (Text × Text) → Option (List Object)
  pub patch : S → Object → Bool × S
  pub delete : S → ObjectKey → Deletion × S

abbrev pub in_namespace : Option Text → Text → Bool
in_namespace none namespace = true
in_namespace (some wanted) namespace = text_eq wanted namespace

-- `client.MatchingLabels`
unfoldable pub matches_labels : List (Text × Text) → List (Text × Text) → Bool
matches_labels wanted labels = all (λ label. has_label label.0 label.1 labels) wanted

-- Whether a list call for this kind, namespace and these labels gives the object.
unfoldable pub is_listed : Kind → Option Text → List (Text × Text) → Object → Bool
is_listed kind namespace wanted object =
    kind_eq object.key.kind kind
    && (in_namespace namespace object.key.namespace && matches_labels wanted object.labels)

-- What stands under the key is the same, and the cache shows for it what it showed, or what stands.
abbrev pub IsUntouched :
    {S : Type 0}
    → (S → ObjectKey → Option Object)
    → (S → ObjectKey → Option Object)
    → ObjectKey
    → S
    → S
    → Type 0
IsUntouched view cached key s s' =
    (view s' key ≡ view s key) × ((cached s' key ≡ cached s key) ⊎ (cached s' key ≡ view s' key))

-- The client of a manager of controller-runtime: `view` is what stands under a key on the API server and
-- is not being deleted, and `cached` what the informer cache shows for it, which may be older. Reads and
-- lists are answered from the cache; a read may fail. A patch and a deletion change no object but that of
-- their key. A deletion that succeeds leaves nothing under the key; one that fails may have been done.
pub record IsServer {S : Type 0} (client : Client S) (view cached : S → ObjectKey → Option Object)
    : Type 0 where
  pub get_cached :
      (s : S) (key : ObjectKey) (object : Object)
      → cached s key ≡ some object
      → (client.get s key ≡ found object) ⊎ (client.get s key ≡ failed)
  pub list_sound :
      (s : S) (kind : Kind) (namespace : Option Text) (wanted : List (Text × Text))
      (items : List Object) (item : Object)
      → client.list s kind namespace wanted ≡ some items
      → Memᴰ item items
      → (is_listed kind namespace wanted item ≡ true) × (cached s item.key ≡ some item)
  pub list_complete :
      (s : S) (kind : Kind) (namespace : Option Text) (wanted : List (Text × Text))
      (items : List Object) (key : ObjectKey) (object : Object)
      → client.list s kind namespace wanted ≡ some items
      → cached s key ≡ some object
      → is_listed kind namespace wanted object ≡ true
      → Memᴰ object items
  pub patch_other :
      (s : S) (object : Object) (key : ObjectKey)
      → (object.key == key) ≡ false
      → IsUntouched view cached key s (client.patch s object).1
  pub delete_other :
      (s : S) (key other : ObjectKey)
      → (key == other) ≡ false
      → IsUntouched view cached other s (client.delete s key).1
  pub delete_self :
      (s : S) (key : ObjectKey)
      → (view (client.delete s key).1 key ≡ none)
        ⊎ IsUntouched view cached key s (client.delete s key).1
  pub delete_done :
      (s : S) (key : ObjectKey)
      → is_settled (client.delete s key).0 ≡ true
      → view (client.delete s key).1 key ≡ none

-- Whether the bridge says that an object is its own.
unfoldable pub is_managed : Object → Bool
is_managed object = has_label managed_by_label controller_name object.labels

-- The functions above, for the tests.
unfoldable pub cluster_functions : Unit {0}
unfolding matches_labels is_listed is_managed has_label lookup all
cluster_functions = tt
