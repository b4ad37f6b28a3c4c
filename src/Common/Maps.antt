-- ===== src/Common/Maps.antt =====
-- Go's maps and sets as association lists: a lookup reads the first entry of a key, a store
-- replaces the entry or adds one at the end. A set is the list of its keys.
use mathlib.Core.Path.{◌≡◌}
use mathlib.Core.Bool.{Bool, true, false}
use mathlib.Core.Option.{Option, none, some}
use mathlib.Core.List.{List, [], ◌∷◌, ◌++◌}
use native.Mathlib.Omega.{arith}
use ingress_nginx_gateway_br.Common.Tests.{Eq, ◌==◌, eq_refl, eq_iff, if◌then◌else◌}
use ingress_nginx_gateway_br.Common.Lists.{contains}

module _ {ℓ κ} {V : Type κ} {K : Type ℓ} ⦃key : Eq K⦄ where
  unfoldable pub lookup : K → List (K × V) → Option V
  lookup wanted [] = none
  lookup wanted ((found, value) ∷ entries) =
      let later = lookup wanted entries in
      elim (found == wanted) [ true ↦ some value | false ↦ later ]

  unfoldable pub insert : K → V → List (K × V) → List (K × V)
  insert stored value [] = (stored, value) ∷ []
  insert stored value ((found, old) ∷ entries) =
      let behind = insert stored value entries in
      elim (found == stored) [ true ↦ (found, value) ∷ entries | false ↦ (found, old) ∷ behind ]

  -- A store is seen at its own key and nowhere else.
  pub lookup-insert :
      (stored wanted : K) (value : V) (entries : List (K × V))
      → lookup wanted (insert stored value entries)
        ≡ (if stored == wanted then some value else lookup wanted entries)
  unfolding lookup insert
  lookup-insert stored wanted value [] = ground (arith, eq_iff stored wanted)
  lookup-insert stored wanted value ((found, old) ∷ entries) =
      let ih = lookup-insert stored wanted value entries in
      ground (arith, ih, eq_iff found stored, eq_iff found wanted, eq_iff stored wanted)

  pub lookup-insert_self :
      (stored : K) (value : V) (entries : List (K × V))
      → lookup stored (insert stored value entries) ≡ some value
  lookup-insert_self stored value entries =
      ground (arith, lookup-insert stored stored value entries, eq_refl stored)

  unfoldable pub has_key : K → List (K × V) → Bool
  has_key wanted entries = elim (lookup wanted entries) [ none ↦ false | some _ ↦ true ]

  abbrev pub keys : List (K × V) → List K
  keys [] = []
  keys ((found, value) ∷ entries) = found ∷ keys entries

module _ {ℓ} {K : Type ℓ} ⦃key : Eq K⦄ where
  -- Adding an element to a set.
  unfoldable pub add : K → List K → List K
  unfolding contains
  add k s = if contains k s then s else s ++ k ∷ []
