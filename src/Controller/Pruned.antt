-- ===== src/Controller/Pruned.antt =====
-- What pruning leaves alone.
use ingress_nginx_gateway_br.Common.{
  ◌≡◌, Bool, false, Option, some, List, [], ◌∷◌, Option-cases, inl, inr, arith, any,
}
use ingress_nginx_gateway_br.Text.{Text}
use ingress_nginx_gateway_br.Controller.Cluster.{
  Kind, ObjectKey, Object, Client, IsServer, is_listed,
}
use ingress_nginx_gateway_br.Controller.Apply.{prune_kind, prune_kinds, prune_listed}
use ingress_nginx_gateway_br.Controller.Keeps.{
  Keeps, both-Keeps, delete_list_items-Keeps, delete_until_error-Keeps, All-other,
}

-- Whether a list call for one of the kinds gives the object.
unfoldable pub is_owned : Text → List (Text × Text) → List Kind → Object → Bool
is_owned namespace labels kinds object =
    any (λ kind. is_listed kind (some namespace) labels object) kinds

module _ {S : Type 0} {client : Client S} {view cached : S → ObjectKey → Option Object}
    (server : IsServer client view cached) (object : Object) where
  prune_kind-Keeps :
      (namespace : Text) (labels : List (Text × Text)) (kept : List ObjectKey) (kind : Kind) (s : S)
      → is_listed kind (some namespace) labels object ≡ false
      → Keeps view cached object s (prune_kind client namespace labels kept kind s).1
  prune_kind-Keeps namespace labels kept kind s apart shows =
      elim (Option-cases (client.list s kind (some namespace) labels)) [
        | inl broken ↦ rw broken shows
        | inr (items, listed) ↦ rw listed (
            delete_list_items-Keeps server object kept items s
              (All-other server object (is_listed kind (some namespace) labels) items s apart
                shows.1
                (λ item member.
                  server.list_sound s kind (some namespace) labels items item listed member))
              shows)
      ]

  pub prune_kinds-Keeps :
      (namespace : Text) (labels : List (Text × Text)) (kept : List ObjectKey) (kinds : List Kind)
      (s : S)
      → is_owned namespace labels kinds object ≡ false
      → Keeps view cached object s (prune_kinds client namespace labels kept kinds s).1
  unfolding prune_kinds is_owned any
  prune_kinds-Keeps namespace labels kept [] s apart = λ shows. shows
  prune_kinds-Keeps namespace labels kept (kind ∷ kinds) s apart =
      both-Keeps view cached object s (prune_kind client namespace labels kept kind s)
        (λ t. prune_kinds client namespace labels kept kinds t)
        (prune_kind-Keeps namespace labels kept kind s (ground (arith, apart)))
        (prune_kinds-Keeps namespace labels kept kinds
          (prune_kind client namespace labels kept kind s).1 (ground (arith, apart)))

  pub prune_listed-Keeps :
      (kind : Kind) (namespace : Option Text) (labels : List (Text × Text)) (kept : List ObjectKey)
      (s : S)
      → is_listed kind namespace labels object ≡ false
      → Keeps view cached object s (prune_listed client kind namespace labels kept s).1
  unfolding prune_listed
  prune_listed-Keeps kind namespace labels kept s apart shows =
      elim (Option-cases (client.list s kind namespace labels)) [
        | inl broken ↦ rw broken shows
        | inr (items, listed) ↦ rw listed (
            delete_until_error-Keeps server object kept items s
              (All-other server object (is_listed kind namespace labels) items s apart shows.1
                (λ item member. server.list_sound s kind namespace labels items item listed member))
              shows)
      ]
