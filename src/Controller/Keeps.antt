-- ===== src/Controller/Keeps.antt =====
-- An object that the controller's writes leave alone: a rule for each of them.
use ingress_nginx_gateway_br.Common.{
  ◌≡◌, refl, sym, ◌∙◌, ap, subst, inl, inr, Bool, true, false, Option, some, some_inj, List, [],
  ◌∷◌, contains, Bool-cases, Memᴰ, All, ◌==◌, eq_iff, true-false,
}
use ingress_nginx_gateway_br.Controller.Cluster.{
  ObjectKey, object_key_key, Object, Client, IsServer, IsUntouched, is_managed,
}
use ingress_nginx_gateway_br.Controller.Apply.{
  then_do, both, may_apply, apply, delete_unless, delete_list_items, delete_until_error,
}

module _ {S : Type 0} (view cached : S → ObjectKey → Option Object) (object : Object) where
  -- The object stands, and the cache shows it.
  abbrev pub Shows : S → Type 0
  Shows s = (view s object.key ≡ some object) × (cached s object.key ≡ some object)

  -- Where the object stands and the cache shows it in the first state, so it is in the second.
  abbrev pub Keeps : S → S → Type 0
  Keeps s s' = Shows s → Shows s'

  pub Keeps-untouched : (s s' : S) → IsUntouched view cached object.key s s' → Keeps s s'
  Keeps-untouched s s' (same, inl as_before) (stands, shown) = (same ∙ stands, as_before ∙ shown)
  Keeps-untouched s s' (same, inr caught_up) (stands, shown) =
      (same ∙ stands, caught_up ∙ same ∙ stands)

  pub Keeps-trans : (s t u : S) → Keeps s t → Keeps t u → Keeps s u
  Keeps-trans s t u first second shows = second (first shows)

  pub both-Keeps :
      (s : S) (r : Bool × S) (next : S → Bool × S)
      → Keeps s r.1
      → Keeps r.1 (next r.1).1
      → Keeps s (both r next).1
  both-Keeps s (ok, t) next first second shows = second (first shows)

  then_do-Keeps :
      (s : S) (r : Bool × S) (next : S → Bool × S)
      → Keeps s r.1
      → Keeps r.1 (next r.1).1
      → Keeps s (then_do r next).1
  then_do-Keeps s (false, t) next first second = first
  then_do-Keeps s (true, t) next first second = λ shows. second (first shows)

module _ {S : Type 0} {client : Client S} {view cached : S → ObjectKey → Option Object}
    (server : IsServer client view cached) (object : Object) where
  -- An object that is not the bridge's own is not adopted: the read shows it, or fails.
  may_apply-unmanaged :
      (s : S)
      → cached s object.key ≡ some object
      → is_managed object ≡ false
      → may_apply (client.get s object.key) ≡ false
  unfolding may_apply
  may_apply-unmanaged s shown foreign = elim (server.get_cached s object.key object shown) [
    | inl read ↦ rw read foreign
    | inr broken ↦ rw broken refl
  ]

  pub apply-Keeps :
      (applied : Object) (s : S)
      → is_managed object ≡ false
      → Keeps view cached object s (apply client applied s).1
  unfolding apply
  apply-Keeps applied s foreign shows = elim (Bool-cases (may_apply (client.get s applied.key))) [
    | inr denied ↦ rw denied shows
    | inl allowed ↦ elim (Bool-cases (applied.key == object.key)) [
      | inr other ↦ rw allowed (
          Keeps-untouched view cached object s (client.patch s applied).1
            (server.patch_other s applied object.key other) shows)
      | inl same ↦
          let here : may_apply (client.get s object.key) ≡ true =
            subst (λ k. may_apply (client.get s k) ≡ true) ((eq_iff applied.key object.key).0 same)
              allowed in
          elim (true-false (sym here ∙ may_apply-unmanaged s shows.1 foreign)) [ ]
    ]
  ]

  delete_unless-Keeps :
      (kept : List ObjectKey) (item : Object) (s : S)
      → (item.key == object.key) ≡ false
      → Keeps view cached object s (delete_unless client kept item s).1
  delete_unless-Keeps kept item s other shows = elim (Bool-cases (contains item.key kept)) [
    | inl keep ↦ rw keep shows
    | inr go ↦ rw go (
        Keeps-untouched view cached object s (client.delete s item.key).1
          (server.delete_other s item.key object.key other) shows)
  ]

  pub delete_list_items-Keeps :
      (kept : List ObjectKey) (items : List Object) (s : S)
      → All (λ item. (item.key == object.key) ≡ false) items
      → Keeps view cached object s (delete_list_items client kept items s).1
  unfolding delete_list_items
  delete_list_items-Keeps kept [] s others = λ shows. shows
  delete_list_items-Keeps kept (item ∷ items) s others =
      both-Keeps view cached object s (delete_unless client kept item s)
        (λ u. delete_list_items client kept items u) (delete_unless-Keeps kept item s others.0)
        (delete_list_items-Keeps kept items (delete_unless client kept item s).1 others.1)

  pub delete_until_error-Keeps :
      (kept : List ObjectKey) (items : List Object) (s : S)
      → All (λ item. (item.key == object.key) ≡ false) items
      → Keeps view cached object s (delete_until_error client kept items s).1
  unfolding delete_until_error
  delete_until_error-Keeps kept [] s others = λ shows. shows
  delete_until_error-Keeps kept (item ∷ items) s others =
      then_do-Keeps view cached object s (delete_unless client kept item s)
        (λ u. delete_until_error client kept items u) (delete_unless-Keeps kept item s others.0)
        (delete_until_error-Keeps kept items (delete_unless client kept item s).1 others.1)

  -- What the cache shows beside the object has another key, where a test tells the two apart.
  pub All-other :
      (test : Object → Bool) (items : List Object) (s : S)
      → test object ≡ false
      → cached s object.key ≡ some object
      → ((item : Object) → Memᴰ item items → (test item ≡ true) × (cached s item.key ≡ some item))
      → All (λ item. (item.key == object.key) ≡ false) items
  All-other test [] s apart shown sound = tt
  All-other test (item ∷ items) s apart shown sound = (
    elim (Bool-cases (item.key == object.key)) [
      | inr other ↦ other
      | inl same ↦
          let (passes, there) = sound item (Memᴰ.head refl) in
          let e : item ≡ object =
            some_inj (sym there ∙ ap (cached s) ((eq_iff item.key object.key).0 same) ∙ shown) in
          elim (true-false (sym passes ∙ ap test e ∙ apart)) [ ]
    ],
    All-other test items s apart shown (λ other member. sound other (Memᴰ.tail member)),
  )
