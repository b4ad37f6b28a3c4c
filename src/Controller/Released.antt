-- ===== src/Controller/Released.antt =====
-- What is left of an Ingress that the bridge serves no more.
use ingress_nginx_gateway_br.Common.{
  ℕ, ◌≡◌, refl, sym, ◌∙◌, ap, Bool, true, false, not, ◌||◌, Option, none, some, List, [], ◌∷◌,
  contains, All, Bool-cases, Option-cases, inl, inr, arith, ◌==◌, eq_iff, true-false, any, Memᴰ,
}
use ingress_nginx_gateway_br.Text.{Text, text_key, is_empty}
use ingress_nginx_gateway_br.Api.{NamespacedName, name_key, get_text}
use ingress_nginx_gateway_br.Types.{translation_status_label}
use ingress_nginx_gateway_br.Controller.Selection.{Config, selected}
use ingress_nginx_gateway_br.Controller.Observed.{Found, found, not_found, failed}
use ingress_nginx_gateway_br.Controller.Cluster.{
  Kind, kind_key, ObjectKey, object_key_key, Object, Client, IsServer, is_listed,
}
use ingress_nginx_gateway_br.Controller.Apply.{
  then_do, may_apply, apply, delete_unless, delete_until_error, prune_listed, prune_source,
  prune_kinds, pruned_kinds, source_labels,
}
use ingress_nginx_gateway_br.Controller.Pruned.{is_owned}
use ingress_nginx_gateway_br.Controller.Leftovers.{then_do-succeeded, prune_kinds-IsGone}
use ingress_nginx_gateway_br.Controller.Keeps.{Shows}
use ingress_nginx_gateway_br.Controller.ManagedPlan.{Memory}
use ingress_nginx_gateway_br.Controller.ManagedObjects.{gateway_labels}
use ingress_nginx_gateway_br.Controller.GatewayFrame.{
  IsFrame, is_gateway_kind, then_do-frame, reconcile_managed_gateway-frame,
}
use ingress_nginx_gateway_br.Controller.StatusFrame.{IsApart}
use ingress_nginx_gateway_br.Controller.Requests.{certificate_sync_key, global_reconcile_key}
use ingress_nginx_gateway_br.Controller.TranslationStatus.{IngressObject}
use ingress_nginx_gateway_br.Controller.Reconcile.{
  Environment, on_server, sync_when, sync_gateway, clean_up, release, reconcile_found, reconcile,
  finalizer_name,
}

module _ {S : Type 0} (view : S → ObjectKey → Option Object) where
  -- The objects that are not of the managed Gateway are the same.
  abbrev pub SameRouting : S → S → Type 0
  SameRouting s s' = (key : ObjectKey) → is_gateway_kind key.kind ≡ false → view s' key ≡ view s key

  SameRouting-trans : (s t u : S) → SameRouting s t → SameRouting t u → SameRouting s u
  SameRouting-trans s t u first second key routing = second key routing ∙ first key routing

pub other_kind :
    (a key : ObjectKey)
    → is_gateway_kind a.kind ≡ true
    → is_gateway_kind key.kind ≡ false
    → (a == key) ≡ false
other_kind a key gateways routing = elim (Bool-cases (a == key)) [
  | inr other ↦ other
  | inl same ↦
      let e = ap (λ k. is_gateway_kind k.kind) ((eq_iff a key).0 same) in
      elim (true-false (sym gateways ∙ e ∙ routing)) [ ]
]

module _ {S : Type 0} {client : Client S} {view cached : S → ObjectKey → Option Object}
    (server : IsServer client view cached) where
  apply-SameRouting :
      (object : Object) (s : S)
      → is_gateway_kind object.key.kind ≡ true
      → SameRouting view s (apply client object s).1
  unfolding apply
  apply-SameRouting object s gateways key routing =
      elim (Bool-cases (may_apply (client.get s object.key))) [
        | inr denied ↦ rw denied refl
        | inl allowed ↦
            rw allowed
              (server.patch_other s object key (other_kind object.key key gateways routing)).0
      ]

  delete_unless-SameRouting :
      (kept : List ObjectKey) (item : Object) (s : S)
      → is_gateway_kind item.key.kind ≡ true
      → SameRouting view s (delete_unless client kept item s).1
  delete_unless-SameRouting kept item s gateways key routing =
      elim (Bool-cases (contains item.key kept)) [
        | inl keep ↦ rw keep refl
        | inr go ↦
            rw go (server.delete_other s item.key key (other_kind item.key key gateways routing)).0
      ]

  delete_until_error-SameRouting :
      (kept : List ObjectKey) (items : List Object) (s : S)
      → ((item : Object) → Memᴰ item items → is_gateway_kind item.key.kind ≡ true)
      → SameRouting view s (delete_until_error client kept items s).1
  unfolding delete_until_error
  delete_until_error-SameRouting kept [] s gateways = λ key routing. refl
  delete_until_error-SameRouting kept (item ∷ items) s gateways =
      then_do-frame (SameRouting view) s (delete_unless client kept item s)
        (λ t. delete_until_error client kept items t) (SameRouting-trans view)
        (delete_unless-SameRouting kept item s (gateways item (Memᴰ.head refl)))
        (λ t.
          delete_until_error-SameRouting kept items t
            (λ other member. gateways other (Memᴰ.tail member)))

  prune_listed-SameRouting :
      (kind : Kind) (namespace : Option Text) (labels : List (Text × Text)) (kept : List ObjectKey)
      (s : S)
      → is_gateway_kind kind ≡ true
      → SameRouting view s (prune_listed client kind namespace labels kept s).1
  unfolding prune_listed is_listed
  prune_listed-SameRouting kind namespace labels kept s gateways =
      elim (Option-cases (client.list s kind namespace labels)) [
        | inl broken ↦ rw broken (λ key routing. refl)
        | inr (items, listed) ↦ rw listed (
            delete_until_error-SameRouting kept items s (λ item member.
              let (matches, same) =
                server.list_sound s kind namespace labels items item listed member in
              let same_kind : item.key.kind ≡ kind =
                (eq_iff item.key.kind kind).0 (ground (arith, matches)) in
              ap is_gateway_kind same_kind ∙ gateways))
      ]

  routing-IsFrame :
      (sha256 : Text → List ℕ) (config : Config) → IsFrame sha256 client config (SameRouting view)
  routing-IsFrame sha256 config = record {
    frame_refl = λ s key routing. refl;
    frame_trans = SameRouting-trans view;
    frame_apply = apply-SameRouting;
    frame_prune = λ kind namespace kept s gateways.
        prune_listed-SameRouting kind namespace (gateway_labels sha256 config) kept s gateways;
  }

-- Whether a read says that the Ingress is not served: it is missing, being deleted or not selected.
abbrev pub is_gone : Config → Found IngressObject → Bool
is_gone config not_found = true
is_gone config failed = false
is_gone config (found object) = object.ingress.deleting || not (selected config object.ingress)

-- What holds for none of the kinds does not hold for the kind of an owned object.
pub owned-kind :
    (p : Kind → Bool) (namespace : Text) (labels : List (Text × Text)) (kinds : List Kind)
    (object : Object)
    → All (λ kind. p kind ≡ false) kinds
    → is_owned namespace labels kinds object ≡ true
    → p object.key.kind ≡ false
unfolding is_owned any is_listed
owned-kind p namespace labels [] object routing owned = elim (true-false (sym owned)) [ ]
owned-kind p namespace labels (kind ∷ kinds) object routing owned =
    elim (Bool-cases (object.key.kind == kind)) [
      | inl same ↦ ap p ((eq_iff object.key.kind kind).0 same) ∙ routing.0
      | inr other ↦
          owned-kind p namespace labels kinds object routing.1 (ground (arith, owned, other))
    ]

pruned_kinds-routing : All (λ kind. is_gateway_kind kind ≡ false) (pruned_kinds true)
unfolding pruned_kinds
pruned_kinds-routing = (refl, (refl, (refl, (refl, (refl, (refl, (refl, tt)))))))

module _ {S : Type 0} (env : Environment S) (config : Config)
    (view cached : S → ObjectKey → Option Object) (server : IsServer env.client view cached)
    (apart : IsApart env.writes view cached) where
  clean_up-SameRouting :
      (object : IngressObject) (s : S) → SameRouting view s (clean_up env config object s).1
  unfolding clean_up
  clean_up-SameRouting object s key routing =
      elim (Bool-cases (
        contains finalizer_name object.finalizers
        || not (is_empty (get_text translation_status_label object.ingress.labels)))) [
          | inl marked ↦ rw marked ((apart.ingress_apart s _ key).0)
          | inr clean ↦ rw clean refl
        ]

  abbrev On : Memory × S → Memory × S → Type 0
  On st st' = SameRouting view st.1 st'.1

  sync_when-SameRouting :
      (managed : Bool) (st : Memory × S) → On st (sync_when env config managed st).1
  sync_when-SameRouting true (memory, s) =
      reconcile_managed_gateway-frame (routing-IsFrame server env.sha256 config) env.json
        env.capacity env.reads memory s
  sync_when-SameRouting false (memory, s) = λ key routing. refl

  release-IsGone :
      (source : NamespacedName) (cleanup : S → Bool × S) (st : Memory × S) (object : Object)
      → ((s : S) → SameRouting view s (cleanup s).1)
      → is_owned source.namespace (source_labels env.sha256 source) (pruned_kinds true) object
        ≡ true
      → Shows view cached object st.1
      → (release env config source cleanup st).0 ≡ true
      → view (release env config source cleanup st).1.1 object.key ≡ none
  unfolding release prune_source sync_gateway
  release-IsGone source cleanup (memory, s) object cleans owned shows done =
      let labels = source_labels env.sha256 source in
      let kinds = pruned_kinds true in
      let pruned = prune_kinds env.client source.namespace labels [] kinds s in
      let st1 : Memory × S = (memory, pruned.1) in
      let last : Memory × S → Bool × (Memory × S) = λ st. on_server env config cleanup st in
      let synced = sync_when env config config.manage_gateway st1 in
      let (now, later, end) =
        then_do-succeeded (pruned.0, st1)
          (λ st. then_do (sync_when env config config.manage_gateway st) last) done in
      let routing =
        owned-kind is_gateway_kind source.namespace labels kinds object pruned_kinds-routing
          owned in
      let since : SameRouting view pruned.1 (then_do synced last).1.1 =
        then_do-frame On st1 synced last (λ a b c. SameRouting-trans view a.1 b.1 c.1)
          (sync_when-SameRouting config.manage_gateway st1) (λ st. cleans st.1) in
      ap (λ st. view st.1 object.key) end
      ∙ since object.key routing
      ∙ prune_kinds-IsGone server object source.namespace labels kinds s owned now (inl shows)

  reconcile_found-IsGone :
      (source : NamespacedName) (read : Found IngressObject) (st : Memory × S) (object : Object)
      → is_gone config read ≡ true
      → is_owned source.namespace (source_labels env.sha256 source) (pruned_kinds true) object
        ≡ true
      → Shows view cached object st.1
      → (reconcile_found env config source read st).0 ≡ true
      → view (reconcile_found env config source read st).1.1 object.key ≡ none
  reconcile_found-IsGone source not_found st object gone =
      release-IsGone source (λ s. (true, s)) st object (λ s key routing. refl)
  reconcile_found-IsGone source failed st object gone = elim (true-false (sym gone)) [ ]
  reconcile_found-IsGone source (found ingress) st object gone = simp (gone) (
      release-IsGone source (clean_up env config ingress) st object
        (λ s. clean_up-SameRouting ingress s))

  -- When the request of an Ingress that is missing, being deleted or not selected succeeds, every route,
  -- policy, filter and translation with the labels of the Ingress in its namespace is gone, where it stood
  -- and the informer cache showed it when the request began, the client keeps to its contract, and patches
  -- of Ingresses and of status do not change other objects.
  pub reconcile-IsReleased :
      (source : NamespacedName) (memory : Memory) (s : S) (object : Object)
      → (source == certificate_sync_key) ≡ false
      → (source == global_reconcile_key) ≡ false
      → is_gone config (env.get_ingress s source) ≡ true
      → is_owned source.namespace (source_labels env.sha256 source) (pruned_kinds true) object
        ≡ true
      → view s object.key ≡ some object
      → cached s object.key ≡ some object
      → (reconcile env config source (memory, s)).0 ≡ true
      → view (reconcile env config source (memory, s)).1.1 object.key ≡ none
  unfolding reconcile
  reconcile-IsReleased source memory s object ordinary one gone owned stands shown =
      simp (ordinary, one)
        (reconcile_found-IsGone source (env.get_ingress s source) (memory, s) object gone owned
          (stands, shown))
