-- ===== src/Controller/Leftovers.antt =====
-- What a successful pruning leaves of an object that stood and that the cache showed.
use ingress_nginx_gateway_br.Common.{
  ◌≡◌, refl, sym, ◌∙◌, subst, ◌⊎◌, inl, inr, Bool, true, false, Option, none, some, List, [], ◌∷◌,
  contains, Bool-cases, Option-cases, Memᴰ, arith, ◌==◌, eq_iff, true-false, any,
}
use ingress_nginx_gateway_br.Text.{Text}
use ingress_nginx_gateway_br.Controller.Cluster.{
  Kind, ObjectKey, object_key_key, Object, Client, IsServer, IsUntouched, is_listed,
}
use ingress_nginx_gateway_br.Controller.Apply.{
  then_do, both, delete, delete_unless, delete_list_items, delete_listed, prune_kind, prune_kinds,
}
use ingress_nginx_gateway_br.Controller.Keeps.{Shows, Keeps-untouched}
use ingress_nginx_gateway_br.Controller.Pruned.{is_owned}

pub then_do-succeeded :
    {S : Type 0} (r : Bool × S) (next : S → Bool × S)
    → (then_do r next).0 ≡ true
    → (r.0 ≡ true) × ((next r.1).0 ≡ true) × ((then_do r next).1 ≡ (next r.1).1)
then_do-succeeded (false, s) next done = elim (true-false (sym done)) [ ]
then_do-succeeded (true, s) next done = (refl, done, refl)

both-succeeded :
    {S : Type 0} (r : Bool × S) (next : S → Bool × S)
    → (both r next).0 ≡ true
    → (r.0 ≡ true) × ((next r.1).0 ≡ true)
both-succeeded (ok, s) next done = ground (arith, done)

-- What holds across each deletion holds across pruning.
module _ {S : Type 0} (client : Client S) (P : S → Type 0)
    (step : (key : ObjectKey) (s : S) → P s → P (delete client key s).1) where
  delete_list_items-across :
      (kept : List ObjectKey) (items : List Object) (s : S)
      → P s
      → P (delete_list_items client kept items s).1
  unfolding delete_list_items
  delete_list_items-across kept [] s holds = holds
  delete_list_items-across kept (item ∷ items) s holds =
      delete_list_items-across kept items (delete_unless client kept item s).1
        (elim (Bool-cases (contains item.key kept)) [
          | inl keep ↦ rw keep holds
          | inr go ↦ rw go (step item.key s holds)
        ])

  prune_kind-across :
      (namespace : Text) (labels : List (Text × Text)) (kept : List ObjectKey) (kind : Kind) (s : S)
      → P s
      → P (prune_kind client namespace labels kept kind s).1
  prune_kind-across namespace labels kept kind s holds =
      elim (Option-cases (client.list s kind (some namespace) labels)) [
        | inl broken ↦ rw broken holds
        | inr (items, listed) ↦ rw listed (delete_list_items-across kept items s holds)
      ]

  prune_kinds-across :
      (namespace : Text) (labels : List (Text × Text)) (kept : List ObjectKey) (kinds : List Kind)
      (s : S)
      → P s
      → P (prune_kinds client namespace labels kept kinds s).1
  unfolding prune_kinds
  prune_kinds-across namespace labels kept [] s holds = holds
  prune_kinds-across namespace labels kept (kind ∷ kinds) s holds =
      prune_kinds-across namespace labels kept kinds
        (prune_kind client namespace labels kept kind s).1
        (prune_kind-across namespace labels kept kind s holds)

module _ {S : Type 0} {client : Client S} {view cached : S → ObjectKey → Option Object}
    (server : IsServer client view cached) (object : Object) where
  -- Nothing stands under the object's key.
  abbrev pub IsGone : S → Type 0
  IsGone s = view s object.key ≡ none

  -- The object stands and the cache shows it, or it is gone.
  abbrev IsCurrent : S → Type 0
  IsCurrent s = Shows view cached object s ⊎ IsGone s

  IsCurrent-untouched :
      (s s' : S) → IsUntouched view cached object.key s s' → IsCurrent s → IsCurrent s'
  IsCurrent-untouched s s' untouched (inl shows) =
      inl (Keeps-untouched view cached object s s' untouched shows)
  IsCurrent-untouched s s' untouched (inr gone) = inr (untouched.0 ∙ gone)

  delete_self-IsCurrent : (s : S) → IsCurrent s → IsCurrent (delete client object.key s).1
  delete_self-IsCurrent s current = elim (server.delete_self s object.key) [
    | inl gone ↦ inr gone
    | inr untouched ↦ IsCurrent-untouched s _ untouched current
  ]

  delete_self-IsGone : (s : S) → IsGone s → IsGone (delete client object.key s).1
  delete_self-IsGone s before = elim (server.delete_self s object.key) [
    | inl gone ↦ gone
    | inr untouched ↦ untouched.0 ∙ before
  ]

  delete-IsCurrent : (key : ObjectKey) (s : S) → IsCurrent s → IsCurrent (delete client key s).1
  delete-IsCurrent key s current = elim (Bool-cases (key == object.key)) [
    | inr other ↦ IsCurrent-untouched s _ (server.delete_other s key object.key other) current
    | inl same ↦
        subst (λ k. IsCurrent (delete client k s).1) (sym ((eq_iff key object.key).0 same))
          (delete_self-IsCurrent s current)
  ]

  delete-IsGone : (key : ObjectKey) (s : S) → IsGone s → IsGone (delete client key s).1
  delete-IsGone key s gone = elim (Bool-cases (key == object.key)) [
    | inr other ↦ (server.delete_other s key object.key other).0 ∙ gone
    | inl same ↦
        subst (λ k. IsGone (delete client k s).1) (sym ((eq_iff key object.key).0 same))
          (delete_self-IsGone s gone)
  ]

  delete_list_items-IsGone :
      (items : List Object) (s : S)
      → (delete_list_items client [] items s).0 ≡ true
      → Memᴰ object items
      → IsGone (delete_list_items client [] items s).1
  unfolding delete_list_items contains
  delete_list_items-IsGone [] s done member = elim member [ ]
  delete_list_items-IsGone (item ∷ items) s done (Memᴰ.head e) =
      let (now, later) =
        both-succeeded (delete client item.key s) (λ u. delete_list_items client [] items u) done in
      let gone : view (delete client item.key s).1 item.key ≡ none =
        server.delete_done s item.key now in
      delete_list_items-across client IsGone delete-IsGone [] items (delete client item.key s).1
        (subst (λ o. view (delete client item.key s).1 o.key ≡ none) (sym e) gone)
  delete_list_items-IsGone (item ∷ items) s done (Memᴰ.tail m) =
      let (now, later) =
        both-succeeded (delete client item.key s) (λ u. delete_list_items client [] items u) done in
      delete_list_items-IsGone items (delete client item.key s).1 later m

  delete_listed-IsGone :
      (listed : Option (List Object)) (s : S)
      → (delete_listed client [] listed s).0 ≡ true
      → ((items : List Object) → listed ≡ some items → Memᴰ object items)
      → IsGone (delete_listed client [] listed s).1
  delete_listed-IsGone none s done member = elim (true-false (sym done)) [ ]
  delete_listed-IsGone (some items) s done member =
      delete_list_items-IsGone items s done (member items refl)

  prune_kind-IsGone :
      (namespace : Text) (labels : List (Text × Text)) (kind : Kind) (s : S)
      → is_listed kind (some namespace) labels object ≡ true
      → (prune_kind client namespace labels [] kind s).0 ≡ true
      → IsCurrent s
      → IsGone (prune_kind client namespace labels [] kind s).1
  prune_kind-IsGone namespace labels kind s listed done (inr gone) =
      prune_kind-across client IsGone delete-IsGone namespace labels [] kind s gone
  prune_kind-IsGone namespace labels kind s listed done (inl shows) =
      delete_listed-IsGone (client.list s kind (some namespace) labels) s done (λ items here.
        server.list_complete s kind (some namespace) labels items object.key object here shows.1
          listed)

  -- After a success that keeps nothing, the object is gone where it is of the kinds and has the labels.
  pub prune_kinds-IsGone :
      (namespace : Text) (labels : List (Text × Text)) (kinds : List Kind) (s : S)
      → is_owned namespace labels kinds object ≡ true
      → (prune_kinds client namespace labels [] kinds s).0 ≡ true
      → IsCurrent s
      → IsGone (prune_kinds client namespace labels [] kinds s).1
  unfolding prune_kinds is_owned any
  prune_kinds-IsGone namespace labels [] s owned done current = elim (true-false (sym owned)) [ ]
  prune_kinds-IsGone namespace labels (kind ∷ kinds) s owned done current =
      let t = (prune_kind client namespace labels [] kind s).1 in
      let (now, later) =
        both-succeeded (prune_kind client namespace labels [] kind s)
          (λ u. prune_kinds client namespace labels [] kinds u) done in
      elim (Bool-cases (is_listed kind (some namespace) labels object)) [
        | inl here ↦
            prune_kinds-across client IsGone delete-IsGone namespace labels [] kinds t
              (prune_kind-IsGone namespace labels kind s here now current)
        | inr elsewhere ↦
            prune_kinds-IsGone namespace labels kinds t (ground (arith, owned, elsewhere)) later (
              prune_kind-across client IsCurrent delete-IsCurrent namespace labels [] kind s
                current)
      ]
