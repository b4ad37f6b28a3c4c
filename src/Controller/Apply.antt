-- ===== src/Controller/Apply.antt =====
-- `apply`, `pruneSource`, `deleteListItems` and `pruneListenerSets` of internal/controller: how the
-- controller changes objects. Each gives whether it succeeded and the state it leaves. The JSON
-- document of an object always exists, so that an error of `json.Marshal` is one of the patch.
use ingress_nginx_gateway_br.Common.{
  ℕ, Bool, true, false, ◌&&◌, Option, none, some, List, [], ◌∷◌, ◌++◌, if◌then◌else◌, contains, map,
}
use ingress_nginx_gateway_br.Text.{Text}
use ingress_nginx_gateway_br.Api.{NamespacedName}
use ingress_nginx_gateway_br.Types.{
  managed_by_label, controller_name, source_namespace_label, source_name_label,
  source_name_label_value,
}
use ingress_nginx_gateway_br.Controller.Observed.{Found, found, not_found, failed}
use ingress_nginx_gateway_br.Controller.Cluster.{
  Kind, http_route, backend_tls_policy, client_settings_policy, proxy_settings_policy,
  authentication_filter, snippets_filter, ingress_translation, ObjectKey, object_key_key, Object,
  Client, is_settled, is_managed,
}

-- The second call is made where the first succeeded.
abbrev pub then_do : {S : Type 0} → Bool × S → (S → Bool × S) → Bool × S
then_do (false, s) next = (false, s)
then_do (true, s) next = next s

-- Both calls are made, and the errors are joined.
abbrev pub both : {S : Type 0} → Bool × S → (S → Bool × S) → Bool × S
both (ok, s) next = let (later, s') = next s in (ok && later, s')

-- The kinds that belong to an Ingress, in the order in which they are pruned.
abbrev pub routing_kinds : List Kind
routing_kinds =
    http_route ∷ backend_tls_policy ∷ client_settings_policy ∷ proxy_settings_policy
    ∷ authentication_filter ∷ snippets_filter ∷ []

unfoldable pub pruned_kinds : Bool → List Kind
pruned_kinds include_status =
    if include_status then routing_kinds ++ ingress_translation ∷ [] else routing_kinds

-- The labels of what is generated for an Ingress.
unfoldable pub source_labels : (Text → List ℕ) → NamespacedName → List (Text × Text)
source_labels sha256 source =
    (managed_by_label, controller_name)
    ∷ (source_namespace_label, source.namespace)
    ∷ (source_name_label, source_name_label_value sha256 source.name)
    ∷ []

-- Whether what `Get` gives lets the controller write: an object that is not its own is not adopted.
unfoldable pub may_apply : Found Object → Bool
may_apply (found current) = is_managed current
may_apply not_found = true
may_apply failed = false

module _ {S : Type 0} (client : Client S) where
  -- `apply`
  unfoldable pub apply : Object → S → Bool × S
  apply object s = if may_apply (client.get s object.key) then client.patch s object else (false, s)

  -- Where the object could not be prepared, nothing is applied.
  abbrev pub apply_owned : Option Object → S → Bool × S
  apply_owned none s = (false, s)
  apply_owned (some object) s = apply object s

  -- A loop that applies objects and returns at the first error.
  unfoldable pub apply_all : List Object → S → Bool × S
  apply_all [] s = (true, s)
  apply_all (object ∷ objects) s = then_do (apply object s) (λ s'. apply_all objects s')

  abbrev pub delete : ObjectKey → S → Bool × S
  delete key s = let (deletion, s') = client.delete s key in (is_settled deletion, s')

  abbrev pub delete_unless : List ObjectKey → Object → S → Bool × S
  delete_unless kept item s = if contains item.key kept then (true, s) else delete item.key s

  -- `deleteListItems`
  unfoldable pub delete_list_items : List ObjectKey → List Object → S → Bool × S
  delete_list_items kept [] s = (true, s)
  delete_list_items kept (item ∷ items) s =
      both (delete_unless kept item s) (λ s'. delete_list_items kept items s')

  abbrev pub delete_listed : List ObjectKey → Option (List Object) → S → Bool × S
  delete_listed kept none s = (false, s)
  delete_listed kept (some items) s = delete_list_items kept items s

  abbrev pub prune_kind : Text → List (Text × Text) → List ObjectKey → Kind → S → Bool × S
  prune_kind namespace labels kept kind s =
      delete_listed kept (client.list s kind (some namespace) labels) s

  -- The loop of `pruneSource` over the lists.
  unfoldable pub prune_kinds : Text → List (Text × Text) → List ObjectKey → List Kind → S → Bool × S
  prune_kinds namespace labels kept [] s = (true, s)
  prune_kinds namespace labels kept (kind ∷ kinds) s =
      both (prune_kind namespace labels kept kind s)
        (λ s'. prune_kinds namespace labels kept kinds s')

  -- `pruneSource`
  unfoldable pub prune_source : (Text → List ℕ) → NamespacedName → List Object → Bool → S → Bool × S
  prune_source sha256 source desired include_status s =
      prune_kinds source.namespace (source_labels sha256 source)
        (map (λ object. object.key) desired) (pruned_kinds include_status) s

  -- The loops that delete what the plan of the Gateway has no more, which return at the first error.
  unfoldable pub delete_until_error : List ObjectKey → List Object → S → Bool × S
  delete_until_error kept [] s = (true, s)
  delete_until_error kept (item ∷ items) s =
      then_do (delete_unless kept item s) (λ s'. delete_until_error kept items s')

  abbrev pub delete_found : List ObjectKey → Option (List Object) → S → Bool × S
  delete_found kept none s = (false, s)
  delete_found kept (some items) s = delete_until_error kept items s

  -- `pruneListenerSets`, and the same for the grants of all namespaces.
  unfoldable pub prune_listed :
      Kind → Option Text → List (Text × Text) → List ObjectKey → S → Bool × S
  prune_listed kind namespace labels kept s =
      delete_found kept (client.list s kind namespace labels) s

-- The functions above, for the tests.
unfoldable pub apply_functions : Unit {0}
unfolding pruned_kinds source_labels source_name_label_value may_apply apply apply_all
    delete_list_items prune_kinds prune_source delete_until_error prune_listed contains
apply_functions = tt
